-- ===== src/TextSeg/Find.antt =====
-- Looking strings and indices up in the tables of src/vm/text_seg.c.
use mathlib.Core.List.{head?}
use mathlib.Core.Option
use tinyaml.Prelude.{
  ◌⊎◌, Option-cases, ℕ, suc, ◌+◌, ◌-◌, ◌^◌, ◌<◌, ◌≤◌, ◌≡◌, refl, arith, true, false, Option, none,
  some, List, [], ◌∷◌, ◌++◌, ◌==◌, if◌then◌else◌, length, get_elem?, ap, sym, ◌∙◌, Bool-cases, inl,
  inr, leb, get_elem?_beyond,
}
use tinyaml.Prelude.{ok}
use tinyaml.Dynarray
use tinyaml.Dynarray.{Dynarray, alert_size}
use tinyaml.Hashtab
use tinyaml.Hashtab.{Table, hash_size}
use tinyaml.Hashtab.Keys.{
  CString, str_ops, str_differs, str-Lawful, str_differs-eq, str_differs_self,
}
use tinyaml.Hashtab.Laws.{find-bindings}
use tinyaml.TextSeg.{TextSeg, enter, find_by_text, find_by_index, text_to_index}
use tinyaml.TextSeg.Holds.{Holds, positions, positions-snoc, enter-Holds}

-- The last index of a string in a list, counted from `n`.
unfoldable pub last_index : ℕ → CString → List CString → Option ℕ
last_index n s [] = none
last_index n s (x ∷ xs) = elim (last_index (n + 1) s xs) [
  | none ↦ if str_differs x s then none else some n
  | some i ↦ some i
]

head?-append {ℓ} :
    {A : Type ℓ} (xs ys : List A)
    → head? (xs ++ ys) ≡ elim (head? xs) [ none ↦ head? ys | some a ↦ some a ]
head?-append [] ys = refl
head?-append (x ∷ xs) ys = refl

head?-positions :
    (n : ℕ) (s : CString) (xs : List CString) → head? (positions n s xs) ≡ last_index n s xs
unfolding positions last_index
head?-positions n s [] = refl
head?-positions n s (x ∷ xs) =
    head?-append (positions (n + 1) s xs) (if str_differs x s then [] else n ∷ [])
    ∙ rw (head?-positions (n + 1) s xs)
        (join (last_index (n + 1) s xs) (Bool-cases (str_differs x s)))
  where
    join :
        (o : Option ℕ)
        → (str_differs x s ≡ true) ⊎ (str_differs x s ≡ false)
        → elim o [ none ↦ head? (if str_differs x s then [] else n ∷ []) | some a ↦ some a ]
          ≡ elim o [ none ↦ if str_differs x s then none else some n | some i ↦ some i ]
    join none (inl h) = rw h
    join none (inr h) = rw h
    join (some i) h = refl

-- The string is at its last index.
pub get_elem?-last_index :
    (n i : ℕ) (s : CString) (xs : List CString)
    → last_index n s xs ≡ some i
    → (n ≤ i) × (get_elem? xs (i - n) ≡ some s) × (i < n + length xs)
unfolding last_index
get_elem?-last_index n i s [] h = cc
get_elem?-last_index n i s (x ∷ xs) h = elim (Option-cases (last_index (n + 1) s xs)) [
  | inl e ↦ elim (Bool-cases (str_differs x s)) [
    | inl d ↦ absurd (unseen e d)
    | inr d ↦ first (start e d) (str_differs-eq x s d)
  ]
  | inr (j, e) ↦ further j (same j e) (get_elem?-last_index (n + 1) j s xs e)
]
  where
    unseen : last_index (n + 1) s xs ≡ none → str_differs x s ≡ true → ⊥
    unseen e d = let k : none ≡ some i = rw (e, d) at h in cc

    start : last_index (n + 1) s xs ≡ none → str_differs x s ≡ false → n ≡ i
    start e d = let k : some n ≡ some i = rw (e, d) at h in cc

    first :
        n ≡ i → x ≡ s → (n ≤ i) × (get_elem? (x ∷ xs) (i - n) ≡ some s) × (i < n + length (x ∷ xs))
    first e q = let z : i - n ≡ 0 = omega arith in (omega arith, rw z (ap some q), omega arith)

    same : (j : ℕ) → last_index (n + 1) s xs ≡ some j → j ≡ i
    same j e = let k : some j ≡ some i = rw e at h in cc

    further :
        (j : ℕ)
        → j ≡ i
        → (n + 1 ≤ j) × (get_elem? xs (j - (n + 1)) ≡ some s) × (j < n + 1 + length xs)
        → (n ≤ i) × (get_elem? (x ∷ xs) (i - n) ≡ some s) × (i < n + length (x ∷ xs))
    further j e r =
        let z : i - n ≡ suc (j - (n + 1)) = omega arith in (omega arith, rw z r.1, omega arith)

pub last_index-snoc_self :
    (n : ℕ) (s : CString) (xs : List CString)
    → last_index n s (xs ++ (s ∷ [])) ≡ some (n + length xs)
last_index-snoc_self n s xs =
    sym (head?-positions n s (xs ++ (s ∷ [])))
    ∙ ap head? (positions-snoc n s s xs)
    ∙ rw (str_differs_self s)

-- The strings after a string has been looked up: a string that is not there, or has no index but 0,
-- is added.
unfoldable pub interned : CString → List CString → List CString
interned s xs = if Option.get_or (last_index 0 s xs) 0 == 0 then xs ++ (s ∷ []) else xs

-- An index other than 0 is that of the string.
pub index_nonzero :
    (s : CString) (xs : List CString)
    → (Option.get_or (last_index 0 s xs) 0 == 0) ≡ false
    → (get_elem? xs (Option.get_or (last_index 0 s xs) 0) ≡ some s)
      × (Option.get_or (last_index 0 s xs) 0 < length xs)
index_nonzero s xs h = elim (Option-cases (last_index 0 s xs)) [
  | inl e ↦ absurd (never e)
  | inr (i, e) ↦
      let (_, there, below) = get_elem?-last_index 0 i s xs e in
      rw e ((let z : i - 0 ≡ i = omega arith in rw z at there), omega arith)
]
  where
    never : last_index 0 s xs ≡ none → ⊥
    never e = let k : (0 == 0) ≡ false = rw e at h in cc

module _ {ts : TextSeg} {xs : List CString} (v : Holds ts xs) where
  hash_find_lem :
      (s : CString)
      → Hashtab.find str_ops 0 (some s) ts.by_text ≡ ok (Option.get_or (last_index 0 s xs) 0)
  hash_find_lem s =
      find-bindings str-Lawful 0 ts.by_text s v.rows
      ∙ ap (λ o. ok (Option.get_or o 0)) (ap head? (v.bound s) ∙ head?-positions 0 s xs)

  -- Looking a string up by its text gives that string, and adds it where it has no index but 0.
  pub find_by_text-Holds :
      (s : CString)
      → length xs < alert_size
      → (ts' : TextSeg) × (find_by_text ts s ≡ ok (some s, ts')) × Holds ts' (interned s xs)
  unfolding find_by_text interned
  find_by_text-Holds s room = elim (Bool-cases (Option.get_or (last_index 0 s xs) 0 == 0)) [
    | inl e ↦
        let (ts', entered, held) = enter-Holds v s room in
        (ts', absent e ts' entered, rw (added e) held)
    | inr e ↦ (ts, present e, rw (kept e) v)
  ]
    where
      absent :
          (Option.get_or (last_index 0 s xs) 0 == 0) ≡ true
          → (ts' : TextSeg) → enter ts s ≡ ok ts'
          → find_by_text ts s ≡ ok (some s, ts')
      absent e ts' entered = rw (hash_find_lem s, e, entered)

      added : (Option.get_or (last_index 0 s xs) 0 == 0) ≡ true → interned s xs ≡ xs ++ (s ∷ [])
      added e = rw e

      kept : (Option.get_or (last_index 0 s xs) 0 == 0) ≡ false → interned s xs ≡ xs
      kept e = rw e

      present :
          (Option.get_or (last_index 0 s xs) 0 == 0) ≡ false → find_by_text ts s ≡ ok (some s, ts)
      present e =
          let (there, below) = index_nonzero s xs e in
          rw (
            hash_find_lem s,
            e,
            v.texts (Option.get_or (last_index 0 s xs) 0) (omega (arith, below)),
            there,
          )

  -- The index of a string is its last one, and -1 where it is not there.
  pub text_to_index-last_index :
      (s : CString) → text_to_index ts s ≡ ok (Option.get_or (last_index 0 s xs) (2 ^ 64 - 1))
  unfolding text_to_index Hashtab.find
  text_to_index-last_index s =
      find-bindings str-Lawful (2 ^ 64 - 1) ts.by_text s v.rows
      ∙ ap (λ o. ok (Option.get_or o (2 ^ 64 - 1))) (ap head? (v.bound s) ∙ head?-positions 0 s xs)

  -- The string at an index, and NULL behind the last one.
  pub find_by_index-get_elem? : (i : ℕ) → i < alert_size → find_by_index ts i ≡ ok (get_elem? xs i)
  unfolding find_by_index
  find_by_index-get_elem? i h = elim (Bool-cases (leb (Dynarray.dynarray_size ts.by_index) i)) [
    | inl e ↦ rw e (ap ok (sym (get_elem?_beyond xs i (ground (arith, v.count)))))
    | inr e ↦ rw e (v.texts i h)
  ]
