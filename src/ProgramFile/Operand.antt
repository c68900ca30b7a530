-- ===== src/ProgramFile/Operand.antt =====
-- An instruction in a file of src/vm/program.c: its wordcode and its operand, and back.
use tinyaml.Prelude.{
  ℕ, ◌-◌, ◌^◌, ◌%◌, ◌<◌, ◌≤◌, ◌≡◌, ◌≢◌, arith, false, some, List, ◌==◌, length, get_elem?, ap, sym,
  ◌∙◌,
}
use tinyaml.Prelude.{ok}
use tinyaml.Dynarray.{alert_size}
use tinyaml.Hashtab.Keys.{CString}
use tinyaml.TextSeg
use tinyaml.TextSeg.{TextSeg}
use tinyaml.TextSeg.Holds
use tinyaml.TextSeg.Find.{
  last_index, get_elem?-last_index, text_to_index-last_index, find_by_index-get_elem?,
}
use tinyaml.OpcodeDict
use tinyaml.OpcodeDict.{code_by_stub, stub_by_code, make_wc, wc_argtype}
use tinyaml.OpcodeDict.Holds.{Opcode, Holds}
use tinyaml.OpcodeDict.Lookup.{stub_by_code-code_by_stub, small_place}
use tinyaml.Program.{Program, CodeWord, number, text}
use tinyaml.ProgramFile.{arg_serialize, arg_unserialize, index_of}

-- What the files rely on: the opcodes, the strings of the program, and the symbols of the machine that
-- writes, of the file, and of the machine that reads.
pub record Tables : Type 0 where
  pub opcodes : ℕ → List Opcode
  pub strings : List CString
  pub written : List CString
  pub filed : List CString
  pub loaded : List CString

-- An instruction and its operand as written, and the operand as it is to be loaded: the same number, the
-- same string, or the number of the same symbol.
pub data Codable (t : Tables) : ℕ → CodeWord → CodeWord → Type 0 where
  plain :
      (stub a i n : ℕ) (s : CString)
      → a < 8
      → get_elem? (t.opcodes a) i ≡ some (s, stub)
      → (a == 6) ≡ false
      → (a == 7) ≡ false
      → n < 2 ^ 64
      → Codable t stub (number n) (number n)
  string :
      (stub i k : ℕ) (s str : CString)
      → get_elem? (t.opcodes 6) i ≡ some (s, stub)
      → last_index 0 str t.strings ≡ some k
      → Codable t stub (text str) (text str)
  symbol :
      (stub i n j m : ℕ) (s sym : CString)
      → get_elem? (t.opcodes 7) i ≡ some (s, stub)
      → n < alert_size
      → get_elem? t.written n ≡ some sym
      → last_index 0 sym t.filed ≡ some j
      → j ≢ 0
      → last_index 0 sym t.loaded ≡ some m
      → m ≢ 0
      → Codable t stub (number n) (number m)

-- A program, a dictionary and symbols with these tables, on a machine with the symbols `names`.
pub record Uses (t : Tables) (names : List CString) (od : OpcodeDict.OpcodeDict)
    (env filed : TextSeg) (p : Program) : Type 0 where
  pub dict : Holds od t.opcodes
  pub environment : p.env ≡ some env
  pub symbols : Holds.Holds env names
  pub kept : Holds.Holds filed t.filed
  pub kept_small : length t.filed ≤ alert_size
  pub strings : Holds.Holds p.strings t.strings
  pub strings_small : length t.strings ≤ alert_size

make_wc_small : (a i : ℕ) → a < 8 → i < alert_size → make_wc a i < 2 ^ 64
unfolding make_wc
make_wc_small a i h k = omega arith

-- The index of a string that is there.
index_of-known :
    {ts : TextSeg} {xs : List CString} (s : CString) (i : ℕ)
    → Holds.Holds ts xs
    → last_index 0 s xs ≡ some i
    → index_of ts (some s) ≡ ok i
unfolding index_of
index_of-known s i v e = text_to_index-last_index v s ∙ rw e

-- The string at the index of a string that is there.
find_by_index-known :
    {ts : TextSeg} {xs : List CString} (s : CString) (i : ℕ)
    → Holds.Holds ts xs
    → length xs ≤ alert_size
    → last_index 0 s xs ≡ some i
    → (TextSeg.find_by_index ts i ≡ ok (some s)) × (i < 2 ^ 64)
find_by_index-known {xs} s i v small e =
    let (_, there, below) = get_elem?-last_index 0 i s xs e in
    let z : i - 0 ≡ i = omega arith in
    (
      find_by_index-get_elem? v i (omega arith) ∙ ap ok (ap (get_elem? xs) (sym z) ∙ there),
      omega arith,
    )

module _ (t : Tables) {od od' : OpcodeDict.OpcodeDict} {env env' filed filed' : TextSeg}
    (p p' : Program) (u : Uses t t.written od env filed p)
    (v : Uses t t.loaded od' env' filed' p') where
  -- An instruction whose opcode and operand are in the tables has a wordcode and an operand in the file,
  -- both words, from which the reading machine gets the stub, and the operand for its own tables.
  pub arg_unserialize-arg_serialize :
      {stub : ℕ} {x y : CodeWord}
      → Codable t stub x y
      → (wc : ℕ) × (w : ℕ) × (wc < 2 ^ 64)
        × (w < 2 ^ 64)
        × (code_by_stub od stub ≡ ok wc)
        × (arg_serialize p (wc_argtype wc) x (some filed) ≡ ok w)
        × (stub_by_code od' wc ≡ ok stub)
        × (arg_unserialize p' (wc_argtype wc) w (some filed') ≡ ok y)
  unfolding arg_serialize arg_unserialize
  arg_unserialize-arg_serialize (plain stub a i n s lt there not6 not7 small) =
      let coded = stub_by_code-code_by_stub u.dict a i s stub lt there in
      let decoded = stub_by_code-code_by_stub v.dict a i s stub lt there in
      let fits : a % 2 ^ 32 ≡ a = omega arith in
      (
        make_wc a i,
        n,
        make_wc_small a i lt (small_place u.dict a i s stub lt there),
        small,
        coded.1,
        ap (λ b. arg_serialize p b (number n) (some filed)) (coded.4) ∙ rw (fits, not7, not6),
        decoded.3,
        ap (λ b. arg_unserialize p' b n (some filed')) (coded.4) ∙ rw (fits, not7, not6),
      )
  arg_unserialize-arg_serialize (string stub i k s str there known) =
      let coded = stub_by_code-code_by_stub u.dict 6 i s stub (omega arith) there in
      let decoded = stub_by_code-code_by_stub v.dict 6 i s stub (omega arith) there in
      let (found, small) = find_by_index-known str k v.strings v.strings_small known in
      (
        make_wc 6 i,
        k,
        make_wc_small 6 i (omega arith) (small_place u.dict 6 i s stub (omega arith) there),
        small,
        coded.1,
        ap (λ b. arg_serialize p b (text str) (some filed)) (coded.4)
            ∙ index_of-known str k u.strings known,
        decoded.3,
        ap (λ b. arg_unserialize p' b k (some filed')) (coded.4) ∙ rw found,
      )
  arg_unserialize-arg_serialize
        (symbol stub i n j m s name there small_n at_n known_j ne_j known_m ne_m) =
      let coded = stub_by_code-code_by_stub u.dict 7 i s stub (omega arith) there in
      let decoded = stub_by_code-code_by_stub v.dict 7 i s stub (omega arith) there in
      let (found, small) = find_by_index-known name j v.kept v.kept_small known_j in
      let real_j : (j == 0) ≡ false = ground (arith, ne_j) in
      let real_m : (m == 0) ≡ false = ground (arith, ne_m) in
      (
        make_wc 7 i,
        j,
        make_wc_small 7 i (omega arith) (small_place u.dict 7 i s stub (omega arith) there),
        small,
        coded.1,
        ap (λ b. arg_serialize p b (number n) (some filed)) (coded.4)
            ∙ rw (u.environment) (
                rw (find_by_index-get_elem? u.symbols n small_n)
                  (rw at_n (rw (index_of-known name j u.kept known_j) (rw real_j)))),
        decoded.3,
        ap (λ b. arg_unserialize p' b j (some filed')) (coded.4)
            ∙ rw (v.environment)
                (rw found (rw (index_of-known name m v.symbols known_m) (rw real_m))),
      )
