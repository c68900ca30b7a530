-- ===== src/Tests/Dictionary.antt =====
-- Runs of the model of src/compiler/opcode_dict.c, and its theorems at concrete inputs.
use tinyaml.Prelude.{
  ℕ, ◌≡◌, refl, arith, some, List, [], ◌∷◌, ◌++◌, ◌<◌, get_elem?, length, subst, inl, inr,
}
use tinyaml.Prelude.{ok}
use tinyaml.Hashtab.Keys.{CString}
use tinyaml.AbstractIo.{buffy_size}
use tinyaml.AbstractIo.Bytes.{IsText}
use tinyaml.AbstractIo.Laws.{file_to, file_from}
use tinyaml.OpcodeDict.{
  OpcodeDict, init, add, make_wc, wc_argtype, wc_op, stub_by_name, code_by_stub, name_by_stub,
  stub_by_code,
}
use tinyaml.OpcodeDict.Files.{dict_serialize, dict_unserialize, stub_resolve}
use tinyaml.OpcodeDict.Holds.{Opcode, Holds, named, init-Holds, added, added-cases}
use tinyaml.OpcodeDict.Lookup.{add-Holds, stub_by_code-code_by_stub}
use tinyaml.OpcodeDict.Loaded.{dict_unserialize-dict_serialize}

-- "inc"
abbrev op_name : CString
op_name = 105 ∷ 110 ∷ 99 ∷ []

abbrev no_opcodes : ℕ → List Opcode
no_opcodes a = []

add-Holds_example :
    (od : OpcodeDict) × (add init 1 (some op_name) 4096 ≡ ok od)
    × Holds od (added no_opcodes 1 op_name 4096)
unfolding named
add-Holds_example =
    add-Holds init-Holds 1 op_name 4096 (omega arith) (omega arith) (λ a i s lt e. cc) refl
      (omega arith)

-- The dictionary with that opcode.
with_inc :
    (od : OpcodeDict) × (add init 1 (some op_name) 4096 ≡ ok od)
    × Holds od (added no_opcodes 1 op_name 4096)
unfolding named
with_inc =
    add-Holds init-Holds 1 op_name 4096 (omega arith) (omega arith) (λ a i s lt e. cc) refl
      (omega arith)

stub_by_code-code_by_stub_example :
    (stub_by_name with_inc.0 1 (some op_name) ≡ ok 4096)
    × (code_by_stub with_inc.0 4096 ≡ ok (make_wc 1 0))
    × (name_by_stub with_inc.0 4096 ≡ ok (some op_name))
    × (stub_by_code with_inc.0 (make_wc 1 0) ≡ ok 4096)
    × (wc_argtype (make_wc 1 0) ≡ 1)
    × (wc_op (make_wc 1 0) ≡ 0)
stub_by_code-code_by_stub_example =
    stub_by_code-code_by_stub (with_inc.2) 1 0 op_name 4096 (omega arith) refl

only_inc :
    (a i : ℕ) (s : CString) (p : ℕ)
    → a < 8
    → get_elem? (added no_opcodes 1 op_name 4096 a) i ≡ some (s, p)
    → IsText s × (length s < buffy_size)
only_inc a i s p lt e = elim (added-cases no_opcodes 1 op_name 4096 a i s p e) [
  | inl (e1, e2, e3, e4) ↦ subst (λ t. IsText t × (length t < buffy_size)) e3 (omega arith)
  | inr (e', h) ↦ absurd (omega (arith, h))
]

-- "vm_op_inc_Int" and others have no address here.
abbrev no_symbols : CString → ℕ
no_symbols s = 0

dict_unserialize-dict_serialize_example :
    (out : List ℕ) × (od' : OpcodeDict) × (dict_serialize with_inc.0 (file_to [])
      ≡ ok (file_to out))
    × (dict_unserialize (stub_resolve with_inc.0 no_symbols) init (file_from (out ++ (9 ∷ [])))
        ≡ ok (od', file_from (9 ∷ [])))
    × Holds od' (added no_opcodes 1 op_name 4096)
    × ((a i : ℕ) (s : CString) (p : ℕ)
        → a < 8
        → get_elem? (added no_opcodes 1 op_name 4096 a) i ≡ some (s, p)
        → (code_by_stub with_inc.0 p ≡ ok (make_wc a i)) × (stub_by_code od' (make_wc a i) ≡ ok p))
dict_unserialize-dict_serialize_example =
    dict_unserialize-dict_serialize no_symbols (9 ∷ []) (with_inc.2) (with_inc.2) only_inc
      (λ a i s p lt e. (i, e))
