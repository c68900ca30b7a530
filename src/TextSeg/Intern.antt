-- ===== src/TextSeg/Intern.antt =====
-- What looking strings up does to the tables of src/vm/text_seg.c: new tables, the index of a string
-- that was looked up, and the indices of the others.
use mathlib.Core.Option
use tinyaml.Prelude.{
  ℕ, ◌+◌, ◌<◌, ◌≤◌, ◌≡◌, refl, arith, false, Option, none, some, List, [], ◌∷◌, ◌++◌, ◌==◌, length,
  get_elem?, ap, sym, ◌∙◌, Bool-cases, inl, inr, length-snoc, get_or-replicate, length-replicate,
}
use tinyaml.Prelude.{ok}
use tinyaml.Dynarray
use tinyaml.Dynarray.{alert_size}
use tinyaml.Dynarray.Inv.{init-IsValid}
use tinyaml.Dynarray.Laws.{read_lem}
use tinyaml.Hashtab
use tinyaml.Hashtab.{hash_size, Chain}
use tinyaml.Hashtab.Keys.{str_differs, CString, str_ops}
use tinyaml.Hashtab.Laws.{bindings, matching}
use tinyaml.TextSeg.{TextSeg, find_by_text, find_by_index, text_to_index, init}
use tinyaml.TextSeg.Holds.{Holds, positions, get_elem?-snoc}
use tinyaml.TextSeg.Find.{
  last_index, interned, index_nonzero, last_index-snoc_self, find_by_text-Holds,
  text_to_index-last_index, find_by_index-get_elem?,
}

-- The table before the first string.
empty-Holds : Holds (record { by_index = Dynarray.init; by_text = Hashtab.init }) []
unfolding Dynarray.init Hashtab.init Dynarray.dynarray_size bindings matching positions
empty-Holds = record {
  index = init-IsValid none;
  rows = length-replicate {A = Chain CString ℕ} hash_size [];
  count = refl;
  texts = λ i h. read_lem none (init-IsValid none) i h;
  bound = λ s.
      ap (λ c. matching str_ops c s)
        (get_or-replicate {A = Chain CString ℕ} hash_size (str_ops.hash s) []);
}

-- A new table holds the empty string, at index 0.
pub init-Holds : (ts : TextSeg) × (init ≡ ok ts) × Holds ts ([] ∷ [])
unfolding init interned last_index
init-Holds =
    let (ts, found, held) = find_by_text-Holds empty-Holds [] (omega arith) in (ts, rw found, held)

some_of_nonzero : (o : Option ℕ) → (Option.get_or o 0 == 0) ≡ false → o ≡ some (Option.get_or o 0)
some_of_nonzero none e = cc
some_of_nonzero (some i) e = refl

-- Where a string is after it was looked up.
interned_index :
    (s : CString) (xs : List CString)
    → (i : ℕ) × (last_index 0 s (interned s xs) ≡ some i)
      × (get_elem? (interned s xs) i ≡ some s)
      × (i < length (interned s xs))
unfolding interned
interned_index s xs = elim (Bool-cases (Option.get_or (last_index 0 s xs) 0 == 0)) [
  | inl e ↦ rw e (
    length xs,
    rw (last_index-snoc_self 0 s xs) (ap some (omega arith)),
    rw (get_elem?-snoc xs s (length xs)) (ground arith),
    omega (arith, length-snoc xs s),
  )
  | inr e ↦
      let (there, below) = index_nonzero s xs e in
      rw e (Option.get_or (last_index 0 s xs) 0, known e, there, below)
]
  where
    known :
        (Option.get_or (last_index 0 s xs) 0 == 0) ≡ false
        → last_index 0 s xs ≡ some (Option.get_or (last_index 0 s xs) 0)
    known e = some_of_nonzero (last_index 0 s xs) e

pub length-interned : (s : CString) (xs : List CString) → length (interned s xs) ≤ length xs + 1
unfolding interned
length-interned s xs = ground (arith, length-snoc xs s)

get_elem?-interned :
    (s : CString) (xs : List CString) (j : ℕ)
    → j < length xs
    → get_elem? (interned s xs) j ≡ get_elem? xs j
unfolding interned
get_elem?-interned s xs j h = elim (Bool-cases (Option.get_or (last_index 0 s xs) 0 == 0)) [
  | inl e ↦ rw (e, get_elem?-snoc xs s j) (ground arith)
  | inr e ↦ rw e
]

module _ {ts : TextSeg} {xs : List CString} (v : Holds ts xs) (s : CString)
    (room : length xs < alert_size) where
  -- A string that was looked up has an index below the size, and the string at that index is it.
  pub find_by_text_index :
      (ts' : TextSeg) × (i : ℕ) × (find_by_text ts s ≡ ok (some s, ts'))
      × (text_to_index ts' s ≡ ok i)
      × (find_by_index ts' i ≡ ok (some s))
      × (i < Dynarray.dynarray_size ts'.by_index)
  find_by_text_index =
      let (ts', found, held) = find_by_text-Holds v s room in
      let (i, last, there, below) = interned_index s xs in
      let small : i < alert_size = omega (arith, below, length-interned s xs, room) in
      (
        ts',
        i,
        found,
        text_to_index-last_index held s ∙ rw last,
        find_by_index-get_elem? held i small ∙ ap ok there,
        omega (arith, held.count, below),
      )

  -- A string that was there keeps its index: looking another string up changes no string at an
  -- index below the size.
  pub find_by_text_keeps :
      {ts' : TextSeg} {r : Option CString} (j : ℕ)
      → find_by_text ts s ≡ ok (r, ts')
      → j < Dynarray.dynarray_size ts.by_index
      → find_by_index ts' j ≡ find_by_index ts j
  find_by_text_keeps {ts'} j e h =
      let (ts'', found, held) = find_by_text-Holds v s room in
      let same : ts' ≡ ts'' = cc in
      let small : j < alert_size = omega (arith, h, v.count, room) in
      ap (λ t. find_by_index t j) same
      ∙ find_by_index-get_elem? held j small
      ∙ ap ok (get_elem?-interned s xs j (omega (arith, h, v.count)))
      ∙ sym (find_by_index-get_elem? v j small)

empty_again :
    (xs : List CString) → last_index 1 [] xs ≡ none → interned [] ([] ∷ xs) ≡ ([] ∷ xs) ++ ([] ∷ [])
unfolding interned last_index str_differs
empty_again xs once = rw once

-- Looking the empty string up where it has the index 0 and no other adds it once more.
pub find_by_text_empty :
    {ts : TextSeg} (xs : List CString)
    → Holds ts ([] ∷ xs)
    → last_index 1 [] xs ≡ none
    → length xs + 1 < alert_size
    → (ts' : TextSeg) × (find_by_text ts [] ≡ ok (some [], ts'))
      × Holds ts' (([] ∷ xs) ++ ([] ∷ []))
find_by_text_empty xs v once room =
    let (ts', found, held) = find_by_text-Holds v [] (omega arith) in
    (ts', found, rw (← empty_again xs once) held)
