-- ===== src/ProgramFile/Round.antt =====
-- How the parts of `program_serialize` and `program_unserialize` of src/vm/program.c fit: the dictionary
-- and the symbols that are made for the code of a program are enough to load it.
use tinyaml.Prelude.{
  ℕ, ◌+◌, ◌*◌, ◌/◌, ◌<◌, ◌≤◌, ◌≡◌, refl, arith, some, List, [], ◌∷◌, length, get_elem?, ap, sym,
  ◌∙◌, subst,
}
use tinyaml.Prelude.{ok, ◌>>=◌, append-nil}
use tinyaml.Dynarray
use tinyaml.Dynarray.{alert_size}
use tinyaml.Hashtab.Keys.{CString}
use tinyaml.AbstractIo.Laws.{file_to, file_from}
use tinyaml.TextSeg.{TextSeg}
use tinyaml.TextSeg.Holds
use tinyaml.OpcodeDict
use tinyaml.OpcodeDict.{optimize}
use tinyaml.OpcodeDict.Holds.{Opcode, Holds}
use tinyaml.OpcodeDict.Lookup.{same_place}
use tinyaml.OpcodeDict.Optimize.{IsWithin, AllKnown, optimize-Holds}
use tinyaml.Program.{Program, CodeWord, number, text}
use tinyaml.Program.Code.{HasCode}
use tinyaml.ProgramFile.{stubs_from, env_optimize, write_codes}
use tinyaml.ProgramFile.Reading.{read_codes}
use tinyaml.ProgramFile.Operand.{Codable}
use tinyaml.ProgramFile.Section.{
  flat, length-flat, AllCodable, and_next, none_left, read_codes-write_codes,
}
use tinyaml.ProgramFile.Indexed.{stubs_from_lem, stubs_of, AllFiled}
use tinyaml.ProgramFile.Symbols.{env_optimize-AllFiled}
use tinyaml.ProgramFile.Usable.{plain, string, symbol}
use tinyaml.ProgramFile.Usable.{
  World, Usable, AllUsable, file_tables, AllUsable-AllNamed, AllUsable-AllKnown,
}

module _ (e : World) {glob : OpcodeDict.OpcodeDict} (w : Holds glob e.opcodes)
    (fits : length e.written ≤ alert_size) (l : ℕ → List Opcode) (part : IsWithin l e.opcodes)
    (filed : List CString) where
  -- The place that the opcode of an instruction has in the tables of the file.
  filed_place :
      {stub : ℕ} (a i : ℕ) (s : CString)
      → a < 8
      → get_elem? (e.opcodes a) i ≡ some (s, stub)
      → AllKnown l (stub ∷ [])
      → (k : ℕ) × (r : CString) × (get_elem? (l a) k ≡ some (r, stub))
  filed_place {stub} a i s lt there ((b, k, r, lt', at), _) =
      let (j, at') = part b k r stub lt' at in
      let (same, _) = same_place w a b j i s r stub lt lt' there at' in
      (k, r, subst (λ c. get_elem? (l c) k ≡ some (r, stub)) same at)

  Usable-Codable :
      {stub : ℕ} {arg : CodeWord}
      → Usable e stub arg
      → AllKnown l (stub ∷ [])
      → AllFiled e.opcodes e.written filed ((stub, arg) ∷ [])
      → (y : CodeWord) × Codable (file_tables e l filed) stub arg y
  Usable-Codable (plain stub a i n s lt there not6 not7 small) known kept =
      let (k, r, at) = filed_place a i s lt there known in
      (number n, Codable.plain stub a k n r lt at not6 not7 small)
  Usable-Codable (string stub i k s str there found) known kept =
      let (j, r, at) = filed_place 6 i s (omega arith) there known in
      (text str, Codable.string stub j k r str at found)
  Usable-Codable (symbol stub i n m s name there small at found ne) known (kept, _) =
      let (j, r, at') = filed_place 7 i s (omega arith) there known in
      let (f, found', ne') = kept i n s name there refl at in
      (number m, Codable.symbol stub j n f m r name at' (omega arith) at found' ne' found ne)

  AllUsable-AllCodable :
      (xs : List (ℕ × CodeWord))
      → AllUsable e xs
      → AllKnown l (stubs_of xs)
      → AllFiled e.opcodes e.written filed xs
      → (ys : List (ℕ × CodeWord)) × AllCodable (file_tables e l filed) xs ys
  AllUsable-AllCodable [] h known kept = ([], none_left)
  AllUsable-AllCodable ((stub, arg) ∷ xs) (one, others) (place, known) (file, kept) =
      let (y, c) = Usable-Codable one (place, tt) (file, tt) in
      let (ys, cs) = AllUsable-AllCodable xs others known kept in
      ((stub, y) ∷ ys, and_next stub arg y c cs)

length-stubs_of : (xs : List (ℕ × CodeWord)) → length (stubs_of xs) ≡ length xs
length-stubs_of [] = refl
length-stubs_of ((stub, arg) ∷ xs) = omega (arith, length-stubs_of xs)

-- A program whose instructions the machine has gets a dictionary and symbols of its own, with which its
-- code is written, and read back into a program without code that has the same strings, on a machine
-- that has the symbols, as the same instructions: the numbers and strings are kept, and a symbol has the
-- number of the reading machine. The code, the strings and the symbols are at most 2 ^ 23 each.
pub write_codes-optimize :
    (e : World) {glob : OpcodeDict.OpcodeDict} {vm_env env' : TextSeg} (xs : List (ℕ × CodeWord))
    (p q : Program)
    → Holds glob e.opcodes
    → Holds.Holds vm_env e.written
    → Holds.Holds env' e.loaded
    → (p.env ≡ some vm_env) × (q.env ≡ some env')
    → Holds.Holds p.strings e.strings
    → Holds.Holds q.strings e.strings
    → length e.written ≤ alert_size
    → length e.strings ≤ alert_size
    → AllUsable e xs
    → HasCode p (flat xs)
    → HasCode q []
    → Dynarray.dynarray_size p.code ≤ alert_size
    → (od : OpcodeDict.OpcodeDict) × (ts : TextSeg) × (l : ℕ → List Opcode) × (filed : List CString)
      × (ys : List (ℕ × CodeWord)) × (out : List ℕ) × (q' : Program) × ((stubs_from
              ((Dynarray.dynarray_size p.code + 1) / 2)
              0
              p
            >>= optimize glob)
          ≡ ok od)
      × (env_optimize glob vm_env p ≡ ok ts)
      × AllCodable (file_tables e l filed) xs ys
      × (write_codes ((Dynarray.dynarray_size p.code + 1) / 2) 0 od p ts (file_to [])
          ≡ ok (file_to out))
      × (read_codes ((Dynarray.dynarray_size p.code + 1) / 2) od ts q (file_from out)
          ≡ ok (q', file_from []))
      × HasCode q' (flat ys)
unfolding Dynarray.dynarray_size
write_codes-optimize e {glob} {vm_env} {env'} xs p q w table table' (env, envq) strings stringsq
      fits few usable code empty room =
    let half : (p.code.size + 1) / 2 ≡ length xs = omega (arith, code.count, length-flat xs) in
    let small : 2 * length xs ≤ alert_size = omega (arith, code.count, length-flat xs) in
    let known = AllUsable-AllKnown e xs usable in
    let stubs = stubs_from_lem xs p [] code (omega arith) in
    let (od, l, best, dict, part, all) =
      optimize-Holds (stubs_of xs) w known (omega (arith, length-stubs_of xs)) in
    let (ts, filed, made, kept, kept_small, filed_all) =
      env_optimize-AllFiled w table fits xs p code room (AllUsable-AllNamed e xs usable) in
    let (ys, codable) = AllUsable-AllCodable e w fits l part filed xs usable all filed_all in
    let (out, q', wrote, loaded, held) =
      read_codes-write_codes (file_tables e l filed) p q
        (record {
          dict = dict;
          environment = env;
          symbols = table;
          kept = kept;
          kept_small = kept_small;
          strings = strings;
          strings_small = few;
        })
        (record {
          dict = dict;
          environment = envq;
          symbols = table';
          kept = kept;
          kept_small = kept_small;
          strings = stringsq;
          strings_small = few;
        })
        [] codable code empty room in
    (
      od,
      ts,
      l,
      filed,
      ys,
      out,
      q',
      ap (λ n. stubs_from n 0 p >>= optimize glob) half ∙ rw stubs best,
      made,
      codable,
      wrote,
      ap (λ k. read_codes ((p.code.size + 1) / 2) od ts q (file_from k)) (sym (append-nil out))
          ∙ loaded,
      held,
    )
