-- ===== src/OpcodeChain/Write.antt =====
-- `opcode_serialize` and the two passes of `opcode_chain_serialize` in src/compiler/opcode_chain.c.
use tinyaml.Prelude.{
  ℕ, zero, suc, ◌+◌, ◌-◌, ◌*◌, ◌^◌, ◌%◌, Bool, true, false, some, List, [], ◌∷◌, ltb, ◌==◌, not,
  ◌||◌, if◌then◌else◌,
}
use tinyaml.Prelude.{Run, ok, trap, ◌>>=◌, require, expect, Trap}
use tinyaml.Dynarray
use tinyaml.Dynarray.{Dynarray}
use tinyaml.Hashtab.Keys.{CString, str_differs}
use tinyaml.TextSeg
use tinyaml.OpcodeDict.{OpcodeDict, stub_by_name}
use tinyaml.Program.{
  Program, CodeWord, number, write_code, find_string, add_label, reserve_code, reserve_data,
  get_code_size,
}
use tinyaml.OpcodeChain.{NodeType, Node, label_offset}

-- "__LL__" and "__RQ__"
abbrev pub load_lib : CString
load_lib = 95 ∷ 95 ∷ 76 ∷ 76 ∷ 95 ∷ 95 ∷ []

abbrev pub require_file : CString
require_file = 95 ∷ 95 ∷ 82 ∷ 81 ∷ 95 ∷ 95 ∷ []

-- A string that begins with a sign.
unfoldable pub is_relative : CString → Bool
is_relative [] = false
is_relative (c ∷ s) = c == b'+' || c == b'-'

-- The character that `sscanf` reads with "%c"; from an empty string it reads none.
unfoldable pub first_char : CString → Run ℕ
first_char [] = trap Trap.out_of_bounds
first_char (c ∷ s) = ok c

-- The first byte of a string, the closing zero included.
unfoldable pub first_byte : CString → ℕ
first_byte [] = 0
first_byte (c ∷ s) = c

-- The difference of two words.
unfoldable pub word_diff : ℕ → ℕ → ℕ
word_diff a b = (a + 2 ^ 64 - b) % 2 ^ 64

-- What the first pass computes.
pub record Counts : Type 0 where
  pub ofs : ℕ
  pub code_sz : ℕ
  pub data_sz : ℕ

-- The operand of an instruction with a string, the program, and whether nothing is to be written.
unfoldable pub operand_string : CString → CString → Program → Run (CodeWord × Program × Bool)
operand_string name arg p = do
  (w, p) ← find_string p arg
  if not (str_differs name load_lib)
      then (TextSeg.find_by_text p.loadlibs arg >>= λ (_, ts).
          ok (w, record p { loadlibs = ts }, true))
      else if not (str_differs name require_file)
      then (TextSeg.find_by_text p.requires arg >>= λ (_, ts).
          ok (w, record p { requires = ts }, true))
      else ok (w, p, false)

-- The copies of an item in the data.
unfoldable pub write_data : ℕ → CodeWord → CodeWord → Dynarray CodeWord → Run (Dynarray CodeWord)
write_data zero type w d = ok d
write_data (suc rep) type w d = do
  d ← Dynarray.write (number 0) d (Dynarray.dynarray_size d) type
  d ← Dynarray.write (number 0) d (Dynarray.dynarray_size d) w
  write_data rep type w d

module _ (atoi atof : CString → ℕ) where
  -- The operand of an instruction at `ip`.
  unfoldable pub operand : List Node → ℕ → Node → Program → Run (CodeWord × Program × Bool)
  unfolding word_diff
  operand oc ip n p =
      if n.arg_type == 0
      then ok (number 0, p, false)
      else if n.arg_type == 1
      then (expect Trap.null_pointer n.arg >>= λ s. ok (number (atoi s), p, false))
      else if n.arg_type == 2
      then (expect Trap.null_pointer n.arg >>= λ s. first_char s >>= λ c. ok (number c, p, false))
      else if n.arg_type == 3
      then (expect Trap.null_pointer n.arg >>= λ s. ok (number (atof s), p, false))
      else if n.arg_type == 6
      then (expect Trap.null_pointer n.arg >>= λ s. operand_string n.name s p)
      else if n.arg_type == 5
      then (expect Trap.null_pointer n.arg >>= λ s.
          ok
            (number (if is_relative s then atoi s else word_diff (label_offset oc s) ip), p, false))
      else if n.arg_type == 7
      then (expect Trap.null_pointer p.env >>= λ env. expect Trap.null_pointer n.arg >>= λ s.
          TextSeg.text_to_index env s >>= λ i. ok (number i, p, false))
      else ok (number 0, p, false)

  -- `opcode_serialize`; an unknown opcode does not return.
  unfoldable pub opcode_serialize : OpcodeDict → List Node → ℕ → Node → Program → Run Program
  opcode_serialize od oc ip n p = do
    op ← stub_by_name od n.arg_type (some n.name)
    (arg, p, skip_wr) ← operand oc ip n p
    if skip_wr
        then ok p
        else (require Trap.assert_failed (not (op == 0)) >>= λ _. write_code p (number op) arg)

  -- `str2data`
  unfoldable pub str_to_data : Program → ℕ → CString → Run (CodeWord × Program)
  unfolding first_byte
  str_to_data p type text =
      if type == 2
      then ok (number (first_byte text), p)
      else if type == 1
      then ok (number (atoi text), p)
      else if type == 3
      then ok (number (atof text), p)
      else if type == 6
      then find_string p text
      else ok (number 0, p)

  -- One node, of the type that is given, in the first pass of `opcode_chain_serialize`.
  unfoldable pub visit : NodeType → Node → Counts → Program → Run (Node × Counts × Program)
  visit NodeType.node_label n c p =
      add_label p c.ofs n.name >>= λ p'. ok (record n { lofs = c.ofs }, c, p')
  visit NodeType.node_data n c p = expect Trap.null_pointer n.arg >>= λ s.
      ok (n, record c { data_sz = (c.data_sz + 2 * atoi s) % 2 ^ 64 }, p)
  visit NodeType.node_opcode n c p =
      ok (n, record c { ofs = (c.ofs + 2) % 2 ^ 64; code_sz = c.code_sz + 2 }, p)
  visit NodeType.node_lang_plug n c p = ok (n, c, p)
  visit NodeType.node_lang_def n c p = ok (n, c, p)

  -- The first pass: the nodes with the offsets of the labels.
  unfoldable pub place : List Node → Counts → Program → Run (List Node × Counts × Program)
  place [] c p = ok ([], c, p)
  place (n ∷ ns) c p = do
    (n, c, p) ← visit n.type n c p
    (ns, c, p) ← place ns c p
    ok (n ∷ ns, c, p)

  -- One node in the second pass, and the second pass; `rep` is a `long`.
  unfoldable pub emit_node :
      OpcodeDict → List Node → NodeType → Node → ℕ → Program → Run (ℕ × Program)
  emit_node od oc NodeType.node_opcode n ofs p =
      opcode_serialize od oc ofs n p >>= λ p'. ok ((ofs + 2) % 2 ^ 64, p')
  emit_node od oc NodeType.node_data n ofs p = do
    s ← expect Trap.null_pointer n.arg
    (w, p) ← str_to_data p n.arg_type n.name
    d ← write_data (if ltb (atoi s) (2 ^ 63) then atoi s else 0) (number n.arg_type) w p.data_seg
    ok (ofs, record p { data_seg = d })
  emit_node od oc NodeType.node_label n ofs p = ok (ofs, p)
  emit_node od oc NodeType.node_lang_plug n ofs p = ok (ofs, p)
  emit_node od oc NodeType.node_lang_def n ofs p = ok (ofs, p)

  unfoldable pub emit : OpcodeDict → List Node → List Node → ℕ → Program → Run Program
  emit od oc [] ofs p = ok p
  emit od oc (n ∷ ns) ofs p = do (ofs, p) ← emit_node od oc n.type n ofs p; emit od oc ns ofs p

  -- `opcode_chain_serialize`: the nodes with their offsets, and the program.
  unfoldable pub chain_serialize : List Node → OpcodeDict → Program → Run (List Node × Program)
  chain_serialize oc od p = do
    let ofs = get_code_size p
    (oc, c, p) ← place oc (record { ofs = ofs; code_sz = 0; data_sz = 0 }) p
    let reserved =
        reserve_data (reserve_code p c.code_sz)
          (if c.data_sz == 0 then 0 else (2 + c.data_sz) % 2 ^ 64)
    p ← emit od oc oc ofs reserved
    ok (oc, p)
