-- ===== src/OpcodeChain/Resolve.antt =====
-- The code that `opcode_chain_serialize` in src/compiler/opcode_chain.c writes: two words for each
-- instruction, and operands that lead to the labels.
use tinyaml.Prelude.{
  ℕ, ◌+◌, ◌*◌, ◌^◌, ◌%◌, ◌≤◌, ◌≡◌, refl, arith, Bool, true, false, some, List, [], ◌∷◌, ◌++◌, not,
  ◌==◌, if◌then◌else◌, length, ap, sym, ◌∙◌, Bool-cases, inl, inr, subst, append_assoc,
  length-append, append-nil,
}
use tinyaml.Prelude.{ok, Trap, ◌>>=◌, >>=-eq-ok, expect, require}
use tinyaml.Dynarray.{alert_size}
use tinyaml.Hashtab.Keys.{CString, str_differs}
use tinyaml.TextSeg
use tinyaml.OpcodeDict.{OpcodeDict, stub_by_name}
use tinyaml.Program.{Program, CodeWord, number, write_code, find_string}
use tinyaml.Program.Code.{HasWords, HasCode, write_code-HasCode}
use tinyaml.OpcodeChain.{Node, NodeType, is_opcode, is_label, count}
use tinyaml.OpcodeChain.Write.{
  load_lib, require_file, operand, opcode_serialize, str_to_data, write_data, emit_node, emit,
}
use tinyaml.OpcodeChain.Passes.{step_ofs, advance, placed, AllWrite, operand_lem}

pub same_code :
    (p p' : Program) {ws : List CodeWord} → p'.code ≡ p.code → HasCode p ws → HasCode p' ws
same_code p p' {ws} e v = subst (λ d. HasWords (CodeWord.number 0) d ws) (sym e) v

-- A node of the type `t` writes code unless it is no instruction.
abbrev pub Writes : NodeType → Node → Type 0
Writes t n =
    is_opcode t ≡ true
    → (n.arg_type == 6) ≡ true
    → (str_differs n.name load_lib ≡ true) × (str_differs n.name require_file ≡ true)

module _ (atoi atof : CString → ℕ) (od : OpcodeDict) (oc : List Node) where
  pub opcode_serialize_lem :
      (n : Node) (ip : ℕ) (p p' : Program) {ws : List CodeWord}
      → Writes NodeType.node_opcode n
      → HasCode p ws
      → opcode_serialize atoi atof od oc ip n p ≡ ok p'
      → (op : ℕ) × (w : CodeWord) × (p1 : Program) × HasCode p' (ws ++ (number op ∷ w ∷ []))
        × (operand atoi atof oc ip n p ≡ ok (w, p1, false))
        × (length ws + 2 ≤ alert_size)
  unfolding opcode_serialize
  opcode_serialize_lem n ip p p' {ws} plain v e =
      let (op, found, e1) = >>=-eq-ok (stub_by_name od n.arg_type (some n.name)) e in
      let ((w, p1, skip), operands, e2) = >>=-eq-ok (operand atoi atof oc ip n p) e1 in
      let (kept, code) = operand_lem atoi atof oc ip n p (plain refl) w p1 skip operands in
      let e3 : (require Trap.assert_failed (not (op == 0)) >>= λ _. write_code p1 (number op) w)
          ≡ ok p' =
        rw kept at e2 in
      let (_, real, wrote) = >>=-eq-ok (require Trap.assert_failed (not (op == 0))) e3 in
      let (held, small) = write_code-HasCode p1 p' (number op) w (same_code p p1 code v) wrote in
      (op, w, p1, held, operands ∙ ap (λ b. ok (w, p1, b)) kept, small)

  str_to_data_lem :
      (p p' : Program) (type : ℕ) (text : CString) (w : CodeWord)
      → str_to_data atoi atof p type text ≡ ok (w, p')
      → p'.code ≡ p.code
  unfolding str_to_data find_string
  str_to_data_lem p p' type text w e = elim (Bool-cases (type == 2)) [
    | inl h ↦ (let e' : ok (number _, p) ≡ ok (w, p') = rw h at e in cc)
    | inr h ↦
        (let e1 = rw h at e in
          elim (Bool-cases (type == 1)) [
            | inl h ↦ (let e' : ok (number _, p) ≡ ok (w, p') = rw h at e1 in cc)
            | inr h ↦
                (let e2 = rw h at e1 in
                  elim (Bool-cases (type == 3)) [
                    | inl h ↦ (let e' : ok (number _, p) ≡ ok (w, p') = rw h at e2 in cc)
                    | inr h ↦
                        (let e3 = rw h at e2 in
                          elim (Bool-cases (type == 6)) [
                            | inl h ↦
                                (let e4 = rw h at e3 in
                                  let ((r, ts), looked, e5) =
                                    >>=-eq-ok (TextSeg.find_by_text p.strings text) e4 in
                                  cc)
                            | inr h ↦ (let e' : ok (number 0, p) ≡ ok (w, p') = rw h at e3 in cc)
                          ])
                  ])
          ])
  ]

  emit_node_lem :
      (t : NodeType) (n : Node) (ofs ofs' : ℕ) (p p' : Program) {ws : List CodeWord}
      → Writes t n
      → HasCode p ws
      → emit_node atoi atof od oc t n ofs p ≡ ok (ofs', p')
      → (ws1 : List CodeWord) × HasCode p' (ws ++ ws1)
        × (length ws1 ≡ 2 * (if is_opcode t then 1 else 0))
        × (ofs' ≡ (if is_opcode t then (ofs + 2) % 2 ^ 64 else ofs))
  unfolding emit_node
  emit_node_lem NodeType.node_opcode n ofs ofs' p p' plain v e =
      let (p1, wrote, e1) = >>=-eq-ok (opcode_serialize atoi atof od oc ofs n p) e in
      let (op, w, p2, held, _, _) = opcode_serialize_lem n ofs p p1 plain v wrote in
      (number op ∷ w ∷ [], same_code p1 p' (cc) held, refl, cc)
  emit_node_lem NodeType.node_data n ofs ofs' p p' {ws} plain v e =
      let (s, there, e1) = >>=-eq-ok (expect Trap.null_pointer n.arg) e in
      let ((w, p1), item, e2) = >>=-eq-ok (str_to_data atoi atof p n.arg_type n.name) e1 in
      let (d, wrote, e3) = >>=-eq-ok (write_data _ (number n.arg_type) w p1.data_seg) e2 in
      let code : p'.code ≡ p.code = cc (str_to_data_lem p p1 n.arg_type n.name w item, e3) in
      ([], same_code p p' code (subst (HasCode p) (sym (append-nil ws)) v), refl, cc)
  emit_node_lem NodeType.node_label n ofs ofs' p p' {ws} plain v e =
      ([], same_code p p' (cc) (subst (HasCode p) (sym (append-nil ws)) v), refl, cc)
  emit_node_lem NodeType.node_lang_plug n ofs ofs' p p' {ws} plain v e =
      ([], same_code p p' (cc) (subst (HasCode p) (sym (append-nil ws)) v), refl, cc)
  emit_node_lem NodeType.node_lang_def n ofs ofs' p p' {ws} plain v e =
      ([], same_code p p' (cc) (subst (HasCode p) (sym (append-nil ws)) v), refl, cc)

  -- The second pass over a chain writes two words for each instruction.
  pub emit_lem :
      (ns : List Node) (ofs : ℕ) (p p' : Program) {ws : List CodeWord}
      → AllWrite ns
      → HasCode p ws
      → emit atoi atof od oc ns ofs p ≡ ok p'
      → (ws1 : List CodeWord) × HasCode p' (ws ++ ws1) × (length ws1 ≡ 2 * count ns)
  unfolding emit count
  emit_lem [] ofs p p' {ws} plain v e =
      ([], same_code p p' (cc) (subst (HasCode p) (sym (append-nil ws)) v), refl)
  emit_lem (n ∷ ns) ofs p p' {ws} plain v e =
      let ((ofs1, p1), one, e1) = >>=-eq-ok (emit_node atoi atof od oc n.type n ofs p) e in
      let (ws1, held, two, _) = emit_node_lem n.type n ofs ofs1 p p1 plain.0 v one in
      let (ws2, held2, size) = emit_lem ns ofs1 p1 p' plain.1 held e1 in
      (
        ws1 ++ ws2,
        subst (HasCode p') (append_assoc ws ws1 ws2) held2,
        omega (arith, length-append ws1 ws2),
      )

  -- The second pass over a chain that goes on.
  pub emit-append :
      (xs ys : List Node) (ofs : ℕ) (p p' : Program) {ws : List CodeWord}
      → AllWrite xs
      → HasCode p ws
      → emit atoi atof od oc (xs ++ ys) ofs p ≡ ok p'
      → (p1 : Program) × (ws1 : List CodeWord) × HasCode p1 (ws ++ ws1)
        × (length ws1 ≡ 2 * count xs)
        × (emit atoi atof od oc ys (advance ofs xs) p1 ≡ ok p')
  unfolding emit count advance
  emit-append [] ys ofs p p' {ws} plain v e =
      (p, [], subst (HasCode p) (sym (append-nil ws)) v, refl, e)
  emit-append (n ∷ xs) ys ofs p p' {ws} plain v e =
      let ((ofs1, p1), one, e1) = >>=-eq-ok (emit_node atoi atof od oc n.type n ofs p) e in
      let (ws1, held, two, moved) = emit_node_lem n.type n ofs ofs1 p p1 plain.0 v one in
      let (p2, ws2, held2, size, rest) = emit-append xs ys ofs1 p1 p' plain.1 held e1 in
      (
        p2,
        ws1 ++ ws2,
        subst (HasCode p2) (append_assoc ws ws1 ws2) held2,
        omega (arith, length-append ws1 ws2),
        subst (λ o. emit atoi atof od oc ys (advance o xs) p2 ≡ ok p') moved rest,
      )

pub placed-append :
    (ofs : ℕ) (xs ys : List Node)
    → placed ofs (xs ++ ys) ≡ placed ofs xs ++ placed (advance ofs xs) ys
unfolding placed advance
placed-append ofs [] ys = refl
placed-append ofs (x ∷ xs) ys =
    ap (λ t. (if is_label x.type then record x { lofs = ofs } else x) ∷ t)
      (placed-append (step_ofs ofs x) xs ys)

-- Placing labels changes offsets alone.
placed_type :
    (b : Bool) (x : Node) (ofs : ℕ) → (if b then record x { lofs = ofs } else x).type ≡ x.type
placed_type true x ofs = refl
placed_type false x ofs = refl

pub count-placed : (ofs : ℕ) (xs : List Node) → count (placed ofs xs) ≡ count xs
unfolding placed count
count-placed ofs [] = refl
count-placed ofs (x ∷ xs) =
    rw (placed_type (is_label x.type) x ofs)
      (ap (λ k. (if is_opcode x.type then 1 else 0) + k) (count-placed (step_ofs ofs x) xs))

pub advance-placed : (o ofs : ℕ) (xs : List Node) → advance o (placed ofs xs) ≡ advance o xs
unfolding placed advance
advance-placed o ofs [] = refl
advance-placed o ofs (x ∷ xs) =
    ap (λ t. advance (if is_opcode t then (o + 2) % 2 ^ 64 else o) (placed (step_ofs ofs x) xs))
      (placed_type (is_label x.type) x ofs)
    ∙ advance-placed (step_ofs o x) (step_ofs ofs x) xs

pub placed-AllWrite : (ofs : ℕ) (xs : List Node) → AllWrite xs → AllWrite (placed ofs xs)
unfolding placed
placed-AllWrite ofs [] h = tt
placed-AllWrite ofs (x ∷ xs) h =
    (first (is_label x.type) h.0, placed-AllWrite (step_ofs ofs x) xs h.1)
  where
    first :
        (b : Bool)
        → Writes x.type x
        → Writes
            (if b then record x { lofs = ofs } else x).type
            (if b then record x { lofs = ofs } else x)
    first true w = w
    first false w = w
