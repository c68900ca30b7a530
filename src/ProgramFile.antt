-- ===== src/ProgramFile.antt =====
-- `program_serialize` and `program_unserialize` of src/vm/program.c: programs in files. What loading a
-- library or a required file does to the dictionary and the environment of the machine is a parameter.
pub mod Reading
pub mod Operand
pub mod Section
pub mod Indexed
pub mod Symbols
pub mod Usable
pub mod Round
pub mod LabelSection
use tinyaml.Prelude.{
  ℕ, zero, suc, ◌+◌, ◌%◌, ◌-◌, ◌/◌, ◌^◌, Option, none, some, List, [], ◌∷◌, ◌==◌, not,
  if◌then◌else◌, length,
}
use tinyaml.Prelude.{Run, ok, ◌>>=◌, ◌>>◌, require, expect, Trap}
use tinyaml.Dynarray
use tinyaml.Dynarray.{Dynarray, load}
use tinyaml.Hashtab.Keys.{CString, str_differs}
use tinyaml.AbstractIo.{Writer, Reader, write_word, write_string, read_word, read_string}
use tinyaml.TextSeg
use tinyaml.TextSeg.{TextSeg, end_mark}
use tinyaml.OpcodeDict
use tinyaml.OpcodeDict.Files.{dict_serialize}
use tinyaml.OpcodeDict.{code_by_stub, stub_by_code, optimize, wc_argtype}
use tinyaml.OpcodeDict.Files.{stub_resolve}
use tinyaml.Program.{
  Program, LabelTab, CodeWord, number, as_word, as_number, as_text, new, add_label, write_code,
}

-- `text_seg_text_to_index` with a text that may be NULL.
unfoldable pub index_of : TextSeg → Option CString → Run ℕ
index_of ts none = ok (2 ^ 64 - 1)
index_of ts (some s) = TextSeg.text_to_index ts s

-- `opcode_arg_serialize`; the type of the operand is of 32 bits.
unfoldable pub arg_serialize : Program → ℕ → CodeWord → Option TextSeg → Run ℕ
arg_serialize p a arg small_env =
    if a % 2 ^ 32 == 7
    then (do
      env ← expect Trap.null_pointer p.env
      symbols ← expect Trap.null_pointer small_env
      i ← as_number arg
      name ← TextSeg.find_by_index env i
      j ← index_of symbols name
      require Trap.assert_failed (not (j == 0))
      ok j)
    else if a % 2 ^ 32 == 6
    then (as_text arg >>= λ s. index_of p.strings s)
    else as_number arg

-- `opcode_arg_unserialize`
unfoldable pub arg_unserialize : Program → ℕ → ℕ → Option TextSeg → Run CodeWord
arg_unserialize p a arg small_env =
    if a % 2 ^ 32 == 7
    then (do
      env ← expect Trap.null_pointer p.env
      symbols ← expect Trap.null_pointer small_env
      name ← TextSeg.find_by_index symbols arg
      j ← index_of env name
      require Trap.assert_failed (not (j == 0))
      ok (number j))
    else if a % 2 ^ 32 == 6
    then (TextSeg.find_by_index p.strings arg >>= λ s. ok (as_word s))
    else ok (number arg)

-- The stubs of the code from `i` on, which `opcode_dict_optimize` reads.
unfoldable pub stubs_from : ℕ → ℕ → Program → Run (List ℕ)
stubs_from zero i p = ok []
stubs_from (suc n) i p = do
  word ← load p.code i
  stub ← as_number word
  stubs ← stubs_from n (i + 2) p
  ok (stub ∷ stubs)

-- One round of the loop of `program_env_optimize`, and the loop.
unfoldable pub env_symbol : TextSeg → Program → ℕ → TextSeg → Run TextSeg
env_symbol vm_env p i ret = do
  word ← load p.code (i + 1)
  k ← as_number word
  name ← load vm_env.by_index k
  s ← expect Trap.null_pointer name
  (found, ret) ← TextSeg.find_by_text ret s
  idx ← index_of ret found
  ok ret

unfoldable pub env_loop : ℕ → ℕ → OpcodeDict.OpcodeDict → TextSeg → Program → TextSeg → Run TextSeg
env_loop zero i glob vm_env p ret = ok ret
env_loop (suc n) i glob vm_env p ret = do
  word ← load p.code i
  stub ← as_number word
  wc ← code_by_stub glob stub
  ret ← (if wc_argtype wc == 7 then env_symbol vm_env p i ret else ok ret)
  env_loop n (i + 2) glob vm_env p ret

-- `program_env_optimize`: the symbols that the code uses.
unfoldable pub env_optimize : OpcodeDict.OpcodeDict → TextSeg → Program → Run TextSeg
env_optimize glob vm_env p = do
  ret ← TextSeg.init
  env_loop ((Dynarray.dynarray_size p.code + 1) / 2) 0 glob vm_env p ret

-- The loops of `program_serialize`: labels, code and data, from the index `i` on.
unfoldable pub write_labels : ℕ → ℕ → LabelTab → Writer → Run Writer
write_labels zero i t w = ok w
write_labels (suc n) i t w = do
  text ← load t.labels.by_index i
  lbl ← expect Trap.null_pointer text
  w ← write_word w (length lbl)
  w ← write_string w lbl
  ofs ← load t.offsets i
  w ← write_word w ofs
  write_labels n (i + 1) t w

unfoldable pub write_codes : ℕ → ℕ → OpcodeDict.OpcodeDict → Program → TextSeg → Writer → Run Writer
write_codes zero i od p env w = ok w
write_codes (suc n) i od p env w = do
  word ← Dynarray.read (number 0) p.code i
  stub ← as_number word
  op ← code_by_stub od stub
  operand ← Dynarray.read (number 0) p.code (i + 1)
  arg ← arg_serialize p (wc_argtype op) operand (some env)
  w ← write_word w op
  w ← write_word w arg
  write_codes n (i + 2) od p env w

unfoldable pub write_items : ℕ → ℕ → Program → Writer → Run Writer
write_items zero i p w = ok w
write_items (suc n) i p w = do
  word ← Dynarray.read (number 0) p.data_seg i
  op ← as_number word
  item ← Dynarray.read (number 0) p.data_seg (i + 1)
  arg ← arg_serialize p op item none
  w ← write_word w op
  w ← write_word w arg
  write_items n (i + 2) p w

-- "LIB", "REQ", "ENV", "STRINGS", "LABELS-", "CODE---" and "DATA---"
abbrev pub lib_section : CString
lib_section = 76 ∷ 73 ∷ 66 ∷ []

abbrev pub req_section : CString
req_section = 82 ∷ 69 ∷ 81 ∷ []

abbrev pub env_section : CString
env_section = 69 ∷ 78 ∷ 86 ∷ []

abbrev pub strings_section : CString
strings_section = 83 ∷ 84 ∷ 82 ∷ 73 ∷ 78 ∷ 71 ∷ 83 ∷ []

abbrev pub labels_section : CString
labels_section = 76 ∷ 65 ∷ 66 ∷ 69 ∷ 76 ∷ 83 ∷ 45 ∷ []

abbrev pub code_section : CString
code_section = 67 ∷ 79 ∷ 68 ∷ 69 ∷ 45 ∷ 45 ∷ 45 ∷ []

abbrev pub data_section : CString
data_section = 68 ∷ 65 ∷ 84 ∷ 65 ∷ 45 ∷ 45 ∷ 45 ∷ []

-- The dictionary and the symbols of the machine.
pub record Context : Type 0 where
  pub dict : OpcodeDict.OpcodeDict
  pub symbols : TextSeg

-- `program_serialize`
unfoldable pub program_serialize : Context → Program → Writer → Run Writer
program_serialize vm p w = do
  stubs ← stubs_from ((Dynarray.dynarray_size p.code + 1) / 2) 0 p
  odopt ← optimize vm.dict stubs
  env ← env_optimize vm.dict vm.symbols p
  w ← TextSeg.serialize p.loadlibs w lib_section
  w ← TextSeg.serialize p.requires w req_section
  w ← TextSeg.serialize env w env_section
  w ← TextSeg.serialize p.strings w strings_section
  w ← dict_serialize odopt w
  w ← write_string w labels_section
  w ← write_word w (Dynarray.dynarray_size p.labels.offsets)
  w ← write_labels (Dynarray.dynarray_size p.labels.offsets - 1) 1 p.labels w
  w ← write_word w end_mark
  w ← write_string w code_section
  w ← write_word w (Dynarray.dynarray_size p.code)
  w ← write_codes ((Dynarray.dynarray_size p.code + 1) / 2) 0 odopt p env w
  w ← write_word w end_mark
  w ← write_string w data_section
  w ← write_word w (Dynarray.dynarray_size p.data_seg)
  write_items ((Dynarray.dynarray_size p.data_seg + 1) / 2) 0 p w
