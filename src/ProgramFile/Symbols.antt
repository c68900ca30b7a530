-- ===== src/ProgramFile/Symbols.antt =====
-- What `program_serialize` of src/vm/program.c reads off the code: its stubs, and the symbols it uses.
use tinyaml.Prelude.{
  ℕ, suc, ◌+◌, ◌*◌, ◌/◌, ◌<◌, ◌≤◌, ◌≡◌, refl, arith, none, some, List, [], ◌∷◌, ◌++◌, ◌==◌, length,
  get_elem?, ap, sym, ◌∙◌, Bool-cases, inl, inr, subst, append_assoc, length-append,
}
use tinyaml.Prelude.{ok}
use tinyaml.Dynarray
use tinyaml.Dynarray.{Dynarray, alert_size, load}
use tinyaml.Hashtab.Keys.{CString}
use tinyaml.TextSeg.{TextSeg}
use tinyaml.TextSeg.Holds
use tinyaml.TextSeg.Find.{interned, find_by_text-Holds, text_to_index-last_index}
use tinyaml.TextSeg.Intern
use tinyaml.TextSeg.Intern.{length-interned}
use tinyaml.OpcodeDict
use tinyaml.OpcodeDict.{wc_argtype}
use tinyaml.OpcodeDict.Holds.{Opcode, Holds}
use tinyaml.OpcodeDict.Lookup.{same_place, stub_by_code-code_by_stub}
use tinyaml.Program.{Program, CodeWord, number}
use tinyaml.Program.Code.{HasCode}
use tinyaml.Program.LabelTable.{load-read}
use tinyaml.ProgramFile.{env_symbol, env_loop, env_optimize, index_of}
use tinyaml.ProgramFile.Section.{flat, length-flat}
use tinyaml.ProgramFile.Indexed.{
  load-HasCode, HasIndex, interned_self, interned_other, AllNamed, AllFiled, length-le-interned,
  sym_path,
}

-- The symbol of one instruction.
env_symbol_lem :
    (p : Program) {vm_env ret : TextSeg} {names ys : List CString} (before after : List CodeWord)
    (op : CodeWord) (k : ℕ) (sym : CString)
    → HasCode p (before ++ (op ∷ number k ∷ after))
    → length before + 2 ≤ alert_size
    → Holds.Holds vm_env names
    → length names ≤ alert_size
    → k < length names
    → get_elem? names k ≡ some sym
    → Holds.Holds ret ys
    → length ys < alert_size
    → (ts : TextSeg) × (env_symbol vm_env p (length before) ret ≡ ok ts)
      × Holds.Holds ts (interned sym ys)
unfolding env_symbol index_of Dynarray.dynarray_size
env_symbol_lem p {vm_env} {ret} before after op k sym code small table fits inside there v room =
    let (_, operand) = load-HasCode p before after op (number k) code small in
    let name : load vm_env.by_index k ≡ ok (some sym) =
      load-read none vm_env.by_index k (omega (arith, table.count)) (omega arith)
      ∙ table.texts k (omega arith)
      ∙ ap ok there in
    let (ts, found, held) = find_by_text-Holds v sym room in
    (ts, rw (operand, name, found, text_to_index-last_index held sym), held)

module _ {glob : OpcodeDict.OpcodeDict} {g : ℕ → List Opcode} (w : Holds glob g) {vm_env : TextSeg}
    {names : List CString} (table : Holds.Holds vm_env names)
    (fits : length names ≤ alert_size) where
  -- One round of `program_env_optimize` over an instruction that is there.
  round_lem :
      (p : Program) {ret : TextSeg} {ys : List CString} (before after : List CodeWord) (stub : ℕ)
      (arg : CodeWord)
      → HasCode p (before ++ (number stub ∷ arg ∷ after))
      → length before + 2 ≤ alert_size
      → Holds.Holds ret ys
      → 0 < length ys
      → length ys < alert_size
      → AllNamed g names ((stub, arg) ∷ [])
      → (ts : TextSeg) × (zs : List CString) × ((n : ℕ)
          → env_loop (suc n) (length before) glob vm_env p ret
            ≡ env_loop n (length before + 2) glob vm_env p ts)
        × Holds.Holds ts zs
        × (length ys ≤ length zs)
        × (length zs ≤ length ys + 1)
        × ((s : CString) → HasIndex s ys → HasIndex s zs)
        × AllFiled g names zs ((stub, arg) ∷ [])
  unfolding env_loop
  round_lem p {ret} {ys} before after stub arg code small v some_there room
        ((a, i, s, lt, there, symbol), _) =
      let found = stub_by_code-code_by_stub w a i s stub lt there in
      let (op, _) = load-HasCode p before after (number stub) arg code small in
      elim (Bool-cases (a == 7)) [
        | inl h ↦
            (let (k, sym, is_k, inside, at) = symbol h in
              let code' = subst (λ z. HasCode p (before ++ (number stub ∷ z ∷ after))) is_k code in
              let (ts, one, held) =
                env_symbol_lem p before after (number stub) k sym code' small table fits inside at v
                  room in
              (
                ts,
                interned sym ys,
                (λ n. rw (op, found.1, found.4, h, one)),
                held,
                length-le-interned sym ys,
                length-interned sym ys,
                (λ r. interned_other r sym ys),
                (
                  (λ j k' s' sym' _ is_k' at'.
                      (let same : number k ≡ number k' = sym_path is_k is_k' in
                        let index : k ≡ k' = cc in
                        let text : some sym ≡ some sym' =
                          sym_path at (ap (get_elem? names) index ∙ at') in
                        let text' : sym ≡ sym' = cc in
                        subst (λ z. HasIndex z (interned sym ys)) text'
                          (interned_self sym ys some_there))),
                  tt,
                ),
              ))
        | inr h ↦ (
          ret,
          ys,
          (λ n. rw (op, found.1, found.4, h)),
          v,
          omega arith,
          omega arith,
          (λ r x. x),
          (
            (λ j k' s' sym' other _ _.
                (let (e, _) = same_place w a 7 j i s s' stub lt (omega arith) there other in
                  absurd (ground arith))),
            tt,
          ),
        )
      ]

  env_loop_lem :
      (xs : List (ℕ × CodeWord)) (p : Program) {ret : TextSeg} {ys : List CString}
      (before : List CodeWord)
      → HasCode p (before ++ flat xs)
      → length before + 2 * length xs ≤ alert_size
      → Holds.Holds ret ys
      → 0 < length ys
      → length ys + length xs ≤ alert_size
      → AllNamed g names xs
      → (ts : TextSeg) × (zs : List CString) × (env_loop
            (length xs)
            (length before)
            glob
            vm_env
            p
            ret
          ≡ ok ts)
        × Holds.Holds ts zs
        × (length zs ≤ length ys + length xs)
        × ((s : CString) → HasIndex s ys → HasIndex s zs)
        × AllFiled g names zs xs
  unfolding env_loop
  env_loop_lem [] p {ret} {ys} before code small v some_there room named =
      (ret, ys, refl, v, omega arith, (λ s x. x), tt)
  env_loop_lem ((stub, arg) ∷ xs) p {ret} {ys} before code small v some_there room (one, others) =
      let (ts, zs, round, held, more, less, kept, (filed, _)) =
        round_lem p before (flat xs) stub arg code (omega arith) v some_there (omega arith)
          (one, tt) in
      let next = before ++ (number stub ∷ arg ∷ []) in
      let two : length before + 2 ≡ length next =
        omega (arith, length-append before (number stub ∷ arg ∷ [])) in
      let (ts2, zs2, looped, held2, bound, kept2, filed2) =
        env_loop_lem xs p next
          (subst (HasCode p) (sym (append_assoc before (number stub ∷ arg ∷ []) (flat xs))) code)
          (omega arith) held (omega arith) (omega arith) others in
      (
        ts2,
        zs2,
        round (length xs) ∙ ap (λ k. env_loop (length xs) k glob vm_env p ts) two ∙ looped,
        held2,
        omega arith,
        (λ s x. kept2 s (kept s x)),
        ((λ i k s symbol e1 e2 e3. kept2 symbol (filed i k s symbol e1 e2 e3)), filed2),
      )

  -- On a machine that finds the opcodes of `g`, with the symbols `names`, the symbols of a code whose
  -- instructions are of these are put in a new table, where each has an index other than 0, so that
  -- the test for 0 in `opcode_arg_serialize` is passed. The code is at most 2 ^ 23 words long.
  pub env_optimize-AllFiled :
      (xs : List (ℕ × CodeWord)) (p : Program)
      → HasCode p (flat xs)
      → Dynarray.dynarray_size p.code ≤ alert_size
      → AllNamed g names xs
      → (ts : TextSeg) × (filed : List CString) × (env_optimize glob vm_env p ≡ ok ts)
        × Holds.Holds ts filed
        × (length filed ≤ alert_size)
        × AllFiled g names filed xs
  unfolding env_optimize Dynarray.dynarray_size
  env_optimize-AllFiled xs p code room named =
      let (start, made, empty) = Intern.init-Holds in
      let size = length-flat xs in
      let small : 0 + 2 * length xs ≤ alert_size = omega (arith, code.count) in
      let rounds : (p.code.size + 1) / 2 ≡ length xs = omega (arith, code.count) in
      let (ts, zs, looped, held, bound, _, filed) =
        env_loop_lem xs p [] code small empty (omega arith) (few (length xs) small) named in
      (
        ts,
        zs,
        rw made (ap (λ n. env_loop n 0 glob vm_env p start) rounds ∙ looped),
        held,
        le_both (few (length xs) small) bound,
        filed,
      )
    where
      few : (n : ℕ) → 0 + 2 * n ≤ alert_size → 1 + n ≤ alert_size
      few n h = omega arith

      le_both : {a b c : ℕ} → b ≤ c → a ≤ b → a ≤ c
      le_both h k = omega arith
