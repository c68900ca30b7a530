-- ===== src/OpcodeDict.antt =====
-- src/compiler/opcode_dict.c with include/opcode_dict.h: the opcodes by name, by wordcode and by the C
-- function (stub) that carries them out. A stub is its address, 0 is NULL; an `opcode_arg_t` is its
-- number, below 8. The hash functions of the file are in Hashtab.Keys.
pub mod Rebuild
pub mod Files
pub mod Holds
pub mod Enter
pub mod Lookup
pub mod Stored
pub mod Loaded
pub mod Optimize
use tinyaml.Prelude.{
  ℕ, zero, suc, ◌+◌, ◌*◌, ◌/◌, ◌%◌, ◌^◌, Option, none, some, List, [], ◌∷◌, ◌++◌, ltb, ◌==◌, not,
  if◌then◌else◌, length,
}
use tinyaml.Prelude.{Run, ok, ◌>>=◌, ◌>>◌, require, expect, Trap}
use tinyaml.Dynarray
use tinyaml.Dynarray.{Dynarray, load}
use tinyaml.Hashtab
use tinyaml.Hashtab.{Table}
use tinyaml.Hashtab.Keys.{CString, str_ops, ptr_ops, str_differs}
use tinyaml.AbstractIo.{Writer, Reader, write_word, write_string, read_word, read_string}
use tinyaml.TextSeg.{end_mark}

-- `OpcodeTypeMax`
abbrev pub opcode_type_max : ℕ
opcode_type_max = 8

-- `WC_GET_OP`, `WC_GET_ARGTYPE` and `MAKE_WC`; an index that does not fit in 28 bits is not masked.
unfoldable pub wc_op : ℕ → ℕ
wc_op wc = wc % 2 ^ 28

unfoldable pub wc_argtype : ℕ → ℕ
wc_argtype wc = wc / 2 ^ 28

unfoldable pub make_wc : ℕ → ℕ → ℕ
make_wc a op = a * 2 ^ 28 + op

-- `struct _opcode_stub_override_t`
pub record Override : Type 0 where
  pub offset : ℕ
  pub argc : ℕ
  pub target : ℕ

-- `struct _opcode_dict_t`; the overrides of a stub are a list.
pub record OpcodeDict : Type 0 where
  pub stub_by_index : ℕ → Dynarray ℕ
  pub stub_by_name : ℕ → Table CString ℕ
  pub wordcode_by_stub : Table ℕ ℕ
  pub name_by_stub : Table ℕ (Option CString)
  pub overrides_by_stub : Table ℕ (List Override)

-- One of the eight arrays or tables is replaced.
abbrev pub at_type {ℓ} : {A : Type ℓ} → (ℕ → A) → ℕ → A → ℕ → A
at_type f a x b = if a == b then x else f b

-- A stub as a key.
unfoldable pub stub_key : ℕ → Option ℕ
stub_key stub = if stub == 0 then none else some stub

-- `opcode_dict_init`
unfoldable pub init : OpcodeDict
unfolding Dynarray.init Hashtab.init
init = record {
  stub_by_index = λ a. Dynarray.init;
  stub_by_name = λ a. Hashtab.init;
  wordcode_by_stub = Hashtab.init;
  name_by_stub = Hashtab.init;
  overrides_by_stub = Hashtab.init;
}

-- `opcode_stub_by_name`
unfoldable pub stub_by_name : OpcodeDict → ℕ → Option CString → Run ℕ
stub_by_name od a name = do
  require Trap.out_of_bounds (ltb a opcode_type_max)
  Hashtab.find str_ops 0 name (od.stub_by_name a)

-- `opcode_stub_by_code`
unfoldable pub stub_by_code : OpcodeDict → ℕ → Run ℕ
unfolding wc_argtype wc_op
stub_by_code od wc = do
  require Trap.out_of_bounds (ltb (wc_argtype wc) opcode_type_max)
  Dynarray.read 0 (od.stub_by_index (wc_argtype wc)) (wc_op wc)

-- `opcode_code_by_stub`, `opcode_name_by_stub` and `opcode_overrides_by_stub`
unfoldable pub code_by_stub : OpcodeDict → ℕ → Run ℕ
unfolding stub_key
code_by_stub od stub = Hashtab.find ptr_ops 0 (stub_key stub) od.wordcode_by_stub

unfoldable pub name_by_stub : OpcodeDict → ℕ → Run (Option CString)
unfolding stub_key
name_by_stub od stub = Hashtab.find ptr_ops none (stub_key stub) od.name_by_stub

unfoldable pub overrides_by_stub : OpcodeDict → ℕ → Run (List Override)
unfolding stub_key
overrides_by_stub od stub = Hashtab.find ptr_ops [] (stub_key stub) od.overrides_by_stub

-- The additions of `opcode_dict_add`.
unfoldable pub enter : OpcodeDict → ℕ → CString → ℕ → Run OpcodeDict
unfolding stub_key make_wc Dynarray.dynarray_size
enter od a name stub = do
  let ofs = Dynarray.dynarray_size (od.stub_by_index a)
  names ← Hashtab.add str_ops (some name) stub (od.stub_by_name a)
  codes ← Hashtab.add ptr_ops (stub_key stub) (make_wc a ofs) od.wordcode_by_stub
  back ← Hashtab.add ptr_ops (stub_key stub) (some name) od.name_by_stub
  stubs ← Dynarray.write 0 (od.stub_by_index a) ofs stub
  ok (record od {
    stub_by_index = at_type od.stub_by_index a stubs;
    stub_by_name = at_type od.stub_by_name a names;
    wordcode_by_stub = codes;
    name_by_stub = back;
  })

-- `opcode_dict_add`; `strdup` of NULL does not return.
unfoldable pub add : OpcodeDict → ℕ → Option CString → ℕ → Run OpcodeDict
add od a name stub = do
  require Trap.out_of_bounds (ltb a opcode_type_max)
  if stub == 0
      then ok od
      else (stub_by_name od a name >>= λ found.
          if found == 0 then (expect Trap.null_pointer name >>= λ s. enter od a s stub) else ok od)

-- The loop of `opcode_set_stub_overrides` over the overrides that are there, and its last assignment.
-- The number of arguments of the last one is not raised.
unfoldable pub append_override : List Override → Override → List Override
append_override [] ovl = ovl ∷ []
append_override (o ∷ []) ovl = o ∷ ovl ∷ []
append_override (o ∷ p ∷ os) ovl =
    (if ltb o.argc ovl.argc then record o { argc = ovl.argc } else o) ∷ append_override (p ∷ os) ovl

-- `opcode_set_stub_overrides` with an override that has no next one. What the table has for the stub
-- is changed where it stands.
unfoldable pub set_stub_overrides : OpcodeDict → ℕ → Override → Run OpcodeDict
unfolding stub_key overrides_by_stub append_override
set_stub_overrides od stub ovl = do
  initial ← overrides_by_stub od stub
  t ← elim initial [
    | [] ↦
        Hashtab.add ptr_ops (stub_key stub) (record ovl { argc = ovl.offset } ∷ [])
          od.overrides_by_stub
    | o ∷ os ↦ do
      k ← expect Trap.null_pointer (stub_key stub)
      t ← Hashtab.del ptr_ops k od.overrides_by_stub
      Hashtab.add ptr_ops (some k) (append_override (o ∷ os) ovl) t
  ]
  ok (record od { overrides_by_stub = t })

-- The loop of `opcode_dict_optimize` over the code words, the stub of each instruction first.
unfoldable pub optimize_loop : OpcodeDict → List ℕ → OpcodeDict → Run OpcodeDict
unfolding name_by_stub code_by_stub
optimize_loop glob [] od = ok od
optimize_loop glob (stub ∷ stubs) od = do
  name ← name_by_stub glob stub
  wc ← code_by_stub glob stub
  od ← add od (wc_argtype wc) name stub
  optimize_loop glob stubs od

-- `opcode_dict_optimize`
unfoldable pub optimize : OpcodeDict → List ℕ → Run OpcodeDict
unfolding optimize_loop init
optimize glob stubs = optimize_loop glob stubs init
