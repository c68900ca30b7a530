-- ===== src/OpcodeDict/Stored.antt =====
-- The round trip of `opcode_dict_serialize` and `opcode_dict_unserialize` of
-- src/compiler/opcode_dict.c by a file.
use tinyaml.Prelude.{
  ℕ, zero, suc, ◌+◌, ◌<◌, ◌≡◌, refl, arith, some, List, [], ◌∷◌, ◌++◌, length, get_elem?, drop, ap,
  sym, ◌∙◌, append_assoc, drop_all, drop-get_elem?,
}
use tinyaml.Prelude.{ok}
use tinyaml.Dynarray
use tinyaml.Dynarray.{alert_size}
use tinyaml.Hashtab.Keys.{CString}
use tinyaml.AbstractIo.{word_bytes}
use tinyaml.AbstractIo.Laws.{file_to}
use tinyaml.TextSeg.{end_mark}
use tinyaml.TextSeg.Stored.{records, wrote_word, wrote_string, one_record}
use tinyaml.OpcodeDict.{OpcodeDict, opcode_type_max}
use tinyaml.OpcodeDict.Files.{dict_header, write_records, write_types, dict_serialize}
use tinyaml.OpcodeDict.Holds.{Opcode, Holds}
use tinyaml.OpcodeDict.Lookup.{stub_by_code-code_by_stub}

-- The names of opcodes.
abbrev pub spellings : List Opcode → List CString
spellings [] = []
spellings ((s, p) ∷ l) = s ∷ spellings l

-- The bytes of the opcodes of `k` types from `a` on, and of a stored dictionary, before other bytes.
unfoldable pub stored_types : ℕ → ℕ → (ℕ → List Opcode) → List ℕ → List ℕ
stored_types zero a l bs = bs
stored_types (suc k) a l bs =
    word_bytes 8 (length (l a))
    ++ records (spellings (l a)) (word_bytes 8 end_mark ++ stored_types k (a + 1) l bs)

unfoldable pub stored_dict : (ℕ → List Opcode) → List ℕ → List ℕ
stored_dict l bs =
    dict_header ++ (0 ∷ (word_bytes 8 opcode_type_max ++ stored_types opcode_type_max 0 l bs))

-- The opcode at an index below the length.
pub opcode_at :
    (xs : List Opcode) (i : ℕ)
    → i < length xs
    → (s : CString) × (p : ℕ) × (get_elem? xs i ≡ some (s, p))
opcode_at [] i h = absurd (omega arith)
opcode_at ((s, p) ∷ xs) zero h = (s, p, refl)
opcode_at (x ∷ xs) (suc i) h = opcode_at xs i (omega arith)

pub drop_next :
    (xs : List Opcode) (i : ℕ) (x : Opcode)
    → get_elem? xs i ≡ some x
    → drop i xs ≡ x ∷ drop (i + 1) xs
drop_next xs i x e =
    let q : i + 1 ≡ suc i = omega arith in drop-get_elem? i xs x e ∙ ap (λ k. x ∷ drop k xs) (sym q)

module _ {od : OpcodeDict} {l : ℕ → List Opcode} (v : Holds od l) where
  write_records_lem :
      (n i a : ℕ) (out : List ℕ)
      → a < 8
      → n + i ≡ length (l a)
      → (out' : List ℕ) × (write_records n i a od (file_to out) ≡ ok (file_to out'))
        × ((bs : List ℕ) → out' ++ bs ≡ out ++ records (spellings (drop i (l a))) bs)
  unfolding write_records records
  write_records_lem zero i a out lt e = (
    out,
    refl,
    λ bs. ap (λ y. out ++ records (spellings y) bs) (sym (drop_all i (l a) (omega arith))),
  )
  write_records_lem (suc n) i a out lt e =
      let (s, p, there) = opcode_at (l a) i (omega arith) in
      let head = out ++ word_bytes 8 (1 + length s) in
      let (out', looped, said) =
        write_records_lem n (i + 1) a (head ++ (s ++ (0 ∷ []))) lt (omega arith) in
      (
        out',
        rw ((v.stubs a i s p lt there).0) (
            rw ((stub_by_code-code_by_stub v a i s p lt there).2)
              (rw (wrote_word out (1 + length s), wrote_string head s, looped))),
        λ bs.
            said bs
            ∙ one_record out s (records (spellings (drop (i + 1) (l a))) bs)
            ∙ ap (λ y. out ++ records (spellings y) bs) (sym (drop_next (l a) i (s, p) there)),
      )

  write_types_lem :
      (k a : ℕ) (out : List ℕ)
      → k + a ≡ 8
      → (out' : List ℕ) × (write_types k a od (file_to out) ≡ ok (file_to out'))
        × ((bs : List ℕ) → out' ++ bs ≡ out ++ stored_types k a l bs)
  unfolding write_types stored_types Dynarray.dynarray_size
  write_types_lem zero a out e = (out, refl, λ bs. refl)
  write_types_lem (suc k) a out e =
      let lt : a < 8 = omega arith in
      let start = out ++ word_bytes 8 (length (l a)) in
      let (out1, listed, said1) = write_records_lem (length (l a)) 0 a start lt (omega arith) in
      let (out2, looped, said2) =
        write_types_lem k (a + 1) (out1 ++ word_bytes 8 end_mark) (omega arith) in
      (
        out2,
        rw (v.count a lt, wrote_word out (length (l a)), listed, wrote_word out1 end_mark, looped),
        λ bs.
            said2 bs
            ∙ append_assoc out1 (word_bytes 8 end_mark) (stored_types k (a + 1) l bs)
            ∙ said1 (word_bytes 8 end_mark ++ stored_types k (a + 1) l bs)
            ∙ append_assoc out (word_bytes 8 (length (l a)))
                (records (spellings (l a)) (word_bytes 8 end_mark ++ stored_types k (a + 1) l bs)),
      )

  -- What `opcode_dict_serialize` writes to a file.
  pub serialize_dict_lem :
      (out : List ℕ) × (dict_serialize od (file_to []) ≡ ok (file_to out))
      × ((bs : List ℕ) → out ++ bs ≡ stored_dict l bs)
  unfolding dict_serialize stored_dict
  serialize_dict_lem =
      let head = dict_header ++ (0 ∷ []) in
      let (out, looped, said) = write_types_lem 8 0 (head ++ word_bytes 8 8) refl in
      (
        out,
        rw (wrote_string [] dict_header, wrote_word head 8, looped),
        λ bs.
            said bs
            ∙ append_assoc head (word_bytes 8 8) (stored_types 8 0 l bs)
            ∙ append_assoc dict_header (0 ∷ []) (word_bytes 8 8 ++ stored_types 8 0 l bs),
      )
