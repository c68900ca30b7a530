-- ===== src/OpcodeDict/Loaded.antt =====
-- `opcode_dict_unserialize` of src/compiler/opcode_dict.c on what `opcode_dict_serialize` wrote.
use tinyaml.Prelude.{ℕ, ◌<◌, ◌≡◌, arith, false, some, List, [], ◌++◌, ◌==◌, length, get_elem?}
use tinyaml.Prelude.{ok}
use tinyaml.Hashtab.Keys.{CString}
use tinyaml.AbstractIo.{buffy_size}
use tinyaml.AbstractIo.Bytes.{IsText}
use tinyaml.AbstractIo.Laws.{file_to, file_from}
use tinyaml.OpcodeDict.{OpcodeDict, init, make_wc, code_by_stub, stub_by_code}
use tinyaml.OpcodeDict.Files.{dict_serialize, dict_unserialize, stub_resolve}
use tinyaml.OpcodeDict.Holds.{Opcode, Holds}
use tinyaml.OpcodeDict.Lookup.{stub_by_code-code_by_stub}
use tinyaml.OpcodeDict.Stored.{serialize_dict_lem}
use tinyaml.OpcodeDict.Rebuild.{unserialize_dict_lem}

stub_resolve_known :
    {glob : OpcodeDict} {g : ℕ → List Opcode} (w : Holds glob g) (dlsym : CString → ℕ) (a j : ℕ)
    (s : CString) (p : ℕ)
    → a < 8
    → get_elem? (g a) j ≡ some (s, p)
    → stub_resolve glob dlsym a s ≡ ok p
unfolding stub_resolve
stub_resolve_known w dlsym a j s p lt e =
    let found = (stub_by_code-code_by_stub w a j s p lt e).0 in
    let real : (p == 0) ≡ false = ground (arith, (w.stubs a j s p lt e).1) in rw found (rw real)

-- A dictionary that is serialised to a file, and read from it into a new dictionary on a machine that
-- finds by name the opcodes of `g`, these being among them with the same stubs, has the same opcodes
-- in the same places, so every wordcode keeps its stub; the reader goes on with the bytes behind. The
-- names have no zero byte and fit in the reader's buffer.
pub dict_unserialize-dict_serialize :
    {od glob : OpcodeDict} {l g : ℕ → List Opcode} (dlsym : CString → ℕ) (bs : List ℕ)
    → Holds od l
    → Holds glob g
    → ((a i : ℕ) (s : CString) (p : ℕ)
        → a < 8
        → get_elem? (l a) i ≡ some (s, p)
        → IsText s × (length s < buffy_size))
    → ((a i : ℕ) (s : CString) (p : ℕ)
        → a < 8
        → get_elem? (l a) i ≡ some (s, p)
        → (j : ℕ) × (get_elem? (g a) j ≡ some (s, p)))
    → (out : List ℕ) × (od' : OpcodeDict) × (dict_serialize od (file_to []) ≡ ok (file_to out))
      × (dict_unserialize (stub_resolve glob dlsym) init (file_from (out ++ bs))
          ≡ ok (od', file_from bs))
      × Holds od' l
      × ((a i : ℕ) (s : CString) (p : ℕ)
          → a < 8
          → get_elem? (l a) i ≡ some (s, p)
          → (code_by_stub od p ≡ ok (make_wc a i)) × (stub_by_code od' (make_wc a i) ≡ ok p))
dict_unserialize-dict_serialize {od} {glob} {l} {g} dlsym bs v w texts known =
    let (out, wrote, said) = serialize_dict_lem v in
    let (d, back, held) = unserialize_dict_lem v (stub_resolve glob dlsym) texts resolved bs in
    (
      out,
      d,
      wrote,
      rw (said bs) back,
      held,
      λ a i s p lt there. (
        (stub_by_code-code_by_stub v a i s p lt there).1,
        (stub_by_code-code_by_stub held a i s p lt there).3,
      ),
    )
  where
    resolved :
        (a i : ℕ) (s : CString) (p : ℕ)
        → a < 8
        → get_elem? (l a) i ≡ some (s, p)
        → stub_resolve glob dlsym a s ≡ ok p
    resolved a i s p lt there =
        let (j, e) = known a i s p lt there in stub_resolve_known w dlsym a j s p lt e
