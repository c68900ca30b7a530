-- ===== src/OpcodeDict/Rebuild.antt =====
-- `opcode_dict_unserialize` of src/compiler/opcode_dict.c puts the opcodes of a file in their places.
use tinyaml.Prelude.{
  lt→ltb, ◌^◌, ℕ, zero, suc, ◌+◌, ◌<◌, ◌≤◌, ◌≡◌, refl, arith, true, false, some, List, [], ◌∷◌,
  ◌++◌, ◌==◌, length, get_elem?, take, drop, ap, sym, ◌∙◌, Bool-cases, inl, inr, take_all,
  length-take, drop_all, ==_iff,
}
use tinyaml.Prelude.{Run, ok}
use tinyaml.Hashtab.Keys.{CString, str_differs_self}
use tinyaml.AbstractIo.{word_bytes, buffy_size}
use tinyaml.AbstractIo.Bytes.{IsText}
use tinyaml.AbstractIo.Laws.{file_from, read-write_word, read-write_string}
use tinyaml.TextSeg.{end_mark}
use tinyaml.TextSeg.Stored.{records}
use tinyaml.OpcodeDict.{OpcodeDict, init}
use tinyaml.OpcodeDict.Files.{dict_header, read_records, read_types, dict_unserialize}
use tinyaml.OpcodeDict.Holds.{
  Opcode, Holds, IsFreshStub, init-Holds, named, added, added-cases, get_elem?-lt,
}
use tinyaml.OpcodeDict.Lookup.{same_place, add-Holds}
use tinyaml.OpcodeDict.Stored.{spellings, stored_types, stored_dict, opcode_at, drop_next}

take_next :
    (xs : List Opcode) (i : ℕ) (x : Opcode)
    → get_elem? xs i ≡ some x
    → take i xs ++ (x ∷ []) ≡ take (i + 1) xs
take_next [] i x e = absurd (cc)
take_next (y ∷ xs) zero x e = ap (λ z. z ∷ []) (cc)
take_next (y ∷ xs) (suc i) x e =
    let q : suc i + 1 ≡ suc (i + 1) = omega arith in
    ap (λ z. y ∷ z) (take_next xs i x e) ∙ ap (λ k. take k (y ∷ xs)) (sym q)

-- The opcodes of `m` are opcodes of `l`, in the same places.
abbrev IsPart : (ℕ → List Opcode) → (ℕ → List Opcode) → Type 0
IsPart m l =
    (b i : ℕ) (s : CString) (p : ℕ)
    → b < 8
    → get_elem? (m b) i ≡ some (s, p)
    → get_elem? (l b) i ≡ some (s, p)

-- A dictionary whose lists are the same.
pub Holds-same :
    {od : OpcodeDict} {m : ℕ → List Opcode} (l : ℕ → List Opcode)
    → Holds od m
    → ((b : ℕ) → b < 8 → m b ≡ l b)
    → Holds od l
Holds-same {od} {m} l v same = record {
  index = v.index;
  count = λ a lt. v.count a lt ∙ ap length (same a lt);
  small = λ a lt. omega (arith, v.small a lt, ap length (same a lt));
  stubs = λ a i s p lt e. v.stubs a i s p lt (ap (λ y. get_elem? y i) (same a lt) ∙ e);
  name_rows = v.name_rows;
  names = λ a s lt. v.names a s lt ∙ ap (named s) (same a lt);
  distinct = λ a i s p lt e.
      ap (λ y. named s (take i y)) (sym (same a lt))
      ∙ v.distinct a i s p lt (ap (λ y. get_elem? y i) (same a lt) ∙ e);
  code_rows = v.code_rows;
  codes = λ a i s p lt e. v.codes a i s p lt (ap (λ y. get_elem? y i) (same a lt) ∙ e);
  back_rows = v.back_rows;
  back = λ a i s p lt e. v.back a i s p lt (ap (λ y. get_elem? y i) (same a lt) ∙ e);
}

module _ {od : OpcodeDict} {l : ℕ → List Opcode} (v : Holds od l) (resolve : ℕ → CString → Run ℕ)
    (texts : (a i : ℕ) (s : CString) (p : ℕ)
      → a < 8
      → get_elem? (l a) i ≡ some (s, p)
      → IsText s × (length s < buffy_size))
    (resolved : (a i : ℕ) (s : CString) (p : ℕ)
      → a < 8
      → get_elem? (l a) i ≡ some (s, p)
      → resolve a s ≡ ok p) where
  module _ (a : ℕ) (lt : a < 8) where
    -- The next opcode of the type `a`, whose first `i` opcodes are there.
    next_opcode :
        (i : ℕ) (s : CString) (p : ℕ) {d : OpcodeDict} {m : ℕ → List Opcode}
        → Holds d m
        → IsPart m l
        → m a ≡ take i (l a)
        → get_elem? (l a) i ≡ some (s, p)
        → IsFreshStub p m
          × (named s (m a) ≡ [])
          × IsPart (added m a s p) l
          × (added m a s p a ≡ take (i + 1) (l a))
          × (length (m a) ≡ i)
    next_opcode i s p {d} {m} w part first there =
        let below = get_elem?-lt (l a) i (s, p) there in
        let sized : length (m a) ≡ i = omega (arith, ap length first, length-take i (l a), below) in
        let here : (a == a) ≡ true = (==_iff a a).1 refl in
        (
          λ b j r lt' e.
              (let (e1, e2) = same_place v a b j i s r p lt lt' there (part b j r p lt' e) in
                let inside = get_elem?-lt (m b) j (r, p) e in
                absurd (omega (arith, ap (λ x. length (m x)) e1))),
          ap (named s) first ∙ v.distinct a i s p lt there,
          λ b j r q lt' e. elim (added-cases m a s p b j r q e) [
            | inl (e1, e2, e3, e4) ↦
                (ap (λ x. get_elem? (l x) j) (sym e1)
                  ∙ ap (get_elem? (l a)) (e2 ∙ sized)
                  ∙ there
                  ∙ ap (λ x. some (x, p)) e3
                  ∙ ap (λ x. some (r, x)) e4)
            | inr (e', _) ↦ part b j r q lt' e'
          ],
          rw here (ap (λ y. y ++ ((s, p) ∷ [])) first ∙ take_next (l a) i (s, p) there),
          sized,
        )

    read_records_lem :
        (n i : ℕ) {d : OpcodeDict} {m : ℕ → List Opcode} (bs : List ℕ)
        → Holds d m
        → IsPart m l
        → m a ≡ take i (l a)
        → n + i ≡ length (l a)
        → (d' : OpcodeDict) × (m' : ℕ → List Opcode) × (read_records resolve n a d
              (file_from (records (spellings (drop i (l a))) bs))
            ≡ ok (d', file_from bs))
          × Holds d' m'
          × IsPart m' l
          × (m' a ≡ l a)
          × ((b : ℕ) → (a == b) ≡ false → m' b ≡ m b)
    unfolding read_records records
    read_records_lem zero i {d} {m} bs w part first e = (
      d,
      m,
      ap (λ y. read_records resolve 0 a d (file_from (records (spellings y) bs)))
          (drop_all i (l a) (omega arith)),
      w,
      part,
      first ∙ take_all i (l a) (omega arith),
      λ b h. refl,
    )
    read_records_lem (suc n) i {d} {m} bs w part first e =
        let (s, p, there) = opcode_at (l a) i (omega arith) in
        let (text, small) = texts a i s p lt there in
        let back = records (spellings (drop (i + 1) (l a))) bs in
        let (fresh, new, part', first', sized) = next_opcode i s p w part first there in
        let (_, word) = read-write_word (1 + length s) [] (s ++ (0 ∷ back)) (omega arith) in
        let (_, string) = read-write_string s [] back text small in
        let (d1, put, held) =
          add-Holds w a s p lt ((v.stubs a i s p lt there).1) fresh new
            (omega (arith, v.small a lt)) in
        let (d', m', looped, held', part2, whole, others) =
          read_records_lem n (i + 1) bs held part' first' (omega arith) in
        let same : (1 + length s == 1 + length s) ≡ true = ground arith in
        (
          d',
          m',
          ap (λ y. read_records resolve (suc n) a d (file_from (records (spellings y) bs)))
                (drop_next (l a) i (s, p) there)
              ∙ rw (word, string, same, resolved a i s p lt there, put, looped),
          held',
          part2,
          whole,
          λ b h. others b h ∙ rw h,
        )

  read_types_lem :
      (k a : ℕ) {d : OpcodeDict} {m : ℕ → List Opcode} (bs : List ℕ)
      → Holds d m
      → IsPart m l
      → ((b : ℕ) → b < a → m b ≡ l b)
      → ((b : ℕ) → a ≤ b → m b ≡ [])
      → k + a ≡ 8
      → (d' : OpcodeDict) × (read_types resolve k a d (file_from (stored_types k a l bs))
          ≡ ok (d', file_from bs))
        × Holds d' l
  unfolding read_types stored_types
  read_types_lem zero a {d} {m} bs w part done left e =
      (d, refl, Holds-same l w (λ b lt. done b (omega arith)))
  read_types_lem (suc k) a {d} {m} bs w part done left e =
      let lt : a < 8 = omega arith in
      let behind = stored_types k (a + 1) l bs in
      let (_, counted) =
        read-write_word (length (l a)) []
          (records (spellings (l a)) (word_bytes 8 end_mark ++ behind))
          (omega (arith, v.small a lt)) in
      let (_, last) = read-write_word end_mark [] behind (omega arith) in
      let (d1, m1, listed, held, part1, whole, others) =
        read_records_lem a lt (length (l a)) 0 (word_bytes 8 end_mark ++ behind) w part
          (left a (omega arith)) (omega arith) in
      let done1 : (b : ℕ) → b < a + 1 → m1 b ≡ l b = λ b h. elim (Bool-cases (a == b)) [
        | inl q ↦ (let at : a ≡ b = (==_iff a b).0 q in ap m1 (sym at) ∙ whole ∙ ap l at)
        | inr q ↦ others b q ∙ done b (ground arith)
      ] in
      let left1 : (b : ℕ) → a + 1 ≤ b → m1 b ≡ [] =
        λ b h. others b (ground arith) ∙ left b (omega arith) in
      let (d2, looped, held2) = read_types_lem k (a + 1) bs held part1 done1 left1 (omega arith) in
      (
        d2,
        rw (
          counted,
          lt→ltb (length (l a)) (2 ^ 63) (omega (arith, v.small a lt)),
          listed,
          last,
          looped,
        ),
        held2,
      )

  pub unserialize_dict_lem :
      (bs : List ℕ)
      → (d : OpcodeDict) × (dict_unserialize resolve init (file_from (stored_dict l bs))
          ≡ ok (d, file_from bs))
        × Holds d l
  unfolding dict_unserialize stored_dict
  unserialize_dict_lem bs =
      let (_, named') =
        read-write_string dict_header [] (word_bytes 8 8 ++ stored_types 8 0 l bs) (omega arith)
          (omega arith) in
      let (_, counted) = read-write_word 8 [] (stored_types 8 0 l bs) (omega arith) in
      let (d, looped, held) =
        read_types_lem 8 0 bs init-Holds (λ b i s p lt e. absurd (cc)) (λ b h. absurd (omega arith))
          (λ b h. refl) refl in
      (d, rw (named', str_differs_self dict_header, counted, looped), held)
