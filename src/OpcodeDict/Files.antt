-- ===== src/OpcodeDict/Files.antt =====
-- `opcode_dict_serialize`, `opcode_dict_unserialize` and `opcode_stub_resolve` of
-- src/compiler/opcode_dict.c.
use tinyaml.Prelude.{
  ℕ, zero, suc, ◌+◌, some, [], ◌∷◌, ◌++◌, ◌==◌, not, if◌then◌else◌, length, ltb, ◌^◌,
}
use tinyaml.Prelude.{Run, ok, ◌>>=◌, ◌>>◌, require, expect, Trap}
use tinyaml.Dynarray
use tinyaml.Dynarray.{Dynarray, load}
use tinyaml.Hashtab.Keys.{CString, str_differs}
use tinyaml.AbstractIo.{Writer, Reader, write_word, write_string, read_word, read_string}
use tinyaml.TextSeg.{end_mark}
use tinyaml.OpcodeDict.{opcode_type_max, OpcodeDict, stub_by_name, name_by_stub, add}

-- "DIC"
abbrev pub dict_header : CString
dict_header = 68 ∷ 73 ∷ 67 ∷ []

-- The loops of `opcode_dict_serialize`: `n` records from `j` on of the type `a`, and `k` types from
-- `a` on.
unfoldable pub write_records : ℕ → ℕ → ℕ → OpcodeDict → Writer → Run Writer
write_records zero j a od w = ok w
write_records (suc n) j a od w = do
  stub ← Dynarray.read 0 (od.stub_by_index a) j
  name ← name_by_stub od stub
  s ← expect Trap.null_pointer name
  w ← write_word w (1 + length s)
  w ← write_string w s
  write_records n (j + 1) a od w

unfoldable pub write_types : ℕ → ℕ → OpcodeDict → Writer → Run Writer
unfolding write_records
write_types zero a od w = ok w
write_types (suc k) a od w = do
  w ← write_word w (Dynarray.dynarray_size (od.stub_by_index a))
  w ← write_records (Dynarray.dynarray_size (od.stub_by_index a)) 0 a od w
  w ← write_word w end_mark
  write_types k (a + 1) od w

-- `opcode_dict_serialize`
unfoldable pub dict_serialize : OpcodeDict → Writer → Run Writer
unfolding write_types
dict_serialize od w = do
  w ← write_string w dict_header
  w ← write_word w opcode_type_max
  write_types opcode_type_max 0 od w

-- The ends of the names of C functions: "_Int", "_Char", "_Float", "_Label", "_String" and "_EnvSym".
unfoldable pub arg_suffix : ℕ → CString
arg_suffix a =
    if a == 1
    then 95 ∷ 73 ∷ 110 ∷ 116 ∷ []
    else if a == 2
    then 95 ∷ 67 ∷ 104 ∷ 97 ∷ 114 ∷ []
    else if a == 3
    then 95 ∷ 70 ∷ 108 ∷ 111 ∷ 97 ∷ 116 ∷ []
    else if a == 5
    then 95 ∷ 76 ∷ 97 ∷ 98 ∷ 101 ∷ 108 ∷ []
    else if a == 6
    then 95 ∷ 83 ∷ 116 ∷ 114 ∷ 105 ∷ 110 ∷ 103 ∷ []
    else if a == 7
    then 95 ∷ 69 ∷ 110 ∷ 118 ∷ 83 ∷ 121 ∷ 109 ∷ []
    else []

-- `opcode_stub_resolve`: the stub that the machine knows, or that `dlsym` finds as "vm_op_" with the
-- name and the type.
unfoldable pub stub_resolve : OpcodeDict → (CString → ℕ) → ℕ → CString → Run ℕ
unfolding arg_suffix
stub_resolve glob dlsym a name = do
  found ← stub_by_name glob a (some name)
  ok (
      if found == 0
      then dlsym ((118 ∷ 109 ∷ 95 ∷ 111 ∷ 112 ∷ 95 ∷ []) ++ (name ++ arg_suffix a))
      else found)

module _ (resolve : ℕ → CString → Run ℕ) where
  -- The loops of `opcode_dict_unserialize`, with `opcode_stub_resolve` for `resolve`.
  unfoldable pub read_records : ℕ → ℕ → OpcodeDict → Reader → Run (OpcodeDict × Reader)
  read_records zero a od r = ok (od, r)
  read_records (suc n) a od r = do
    (w, r) ← read_word r
    (s, r) ← read_string r
    require Trap.assert_failed (w == 1 + length s)
    stub ← resolve a s
    od ← add od a (some s) stub
    read_records n a od r

  unfoldable pub read_types : ℕ → ℕ → OpcodeDict → Reader → Run (OpcodeDict × Reader)
  unfolding read_records
  read_types zero a od r = ok (od, r)
  read_types (suc k) a od r = do
    (tot, r) ← read_word r
    (od, r) ← read_records (if ltb tot (2 ^ 63) then tot else 0) a od r
    (w, r) ← read_word r
    require Trap.assert_failed (w == end_mark)
    read_types k (a + 1) od r

  -- `opcode_dict_unserialize`
  unfoldable pub dict_unserialize : OpcodeDict → Reader → Run (OpcodeDict × Reader)
  unfolding read_types
  dict_unserialize od r = do
    (s, r) ← read_string r
    require Trap.assert_failed (not (str_differs s dict_header))
    (w, r) ← read_word r
    require Trap.assert_failed (w == opcode_type_max)
    read_types opcode_type_max 0 od r
