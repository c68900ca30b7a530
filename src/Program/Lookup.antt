-- ===== src/Program/Lookup.antt =====
-- The search for a label by its offset in src/vm/program.c: it ends, and is right on sorted offsets.
use tinyaml.Prelude.{
  ℕ, zero, suc, ◌+◌, ◌-◌, ◌%◌, ◌^◌, ◌<◌, ◌≤◌, ◌≡◌, ◌≢◌, ◌⊎◌, refl, arith, true, false, none, some,
  List, [], ◌∷◌, ◌==◌, length, get_elem?, get_or, ap, ◌∙◌, inl, inr, get_elem?-eq-get_or,
}
use tinyaml.Prelude.{ok}
use tinyaml.Dynarray
use tinyaml.Dynarray.{Dynarray, alert_size, load}
use tinyaml.Hashtab.Keys.{CString}
use tinyaml.Program.{LabelTab, lookup_label_by_offset}
use tinyaml.Program.LabelTable.{HasLabels, load-read}
use tinyaml.Program.Search.{IsSorted, search_lem}

get_or_elem :
    (xs : List ℕ) (k x : ℕ)
    → get_elem? xs k ≡ some x
    → (k < length xs) × (get_or (0 ∷ xs) (suc k) 0 ≡ x)
get_or_elem [] k x e = absurd (cc)
get_or_elem (y ∷ xs) zero x e = (omega arith, cc)
get_or_elem (y ∷ xs) (suc k) x e = let (h, q) = get_or_elem xs k x e in (omega arith, q)

-- The label at an index, other than 0, that has the offset.
label_at :
    {t : LabelTab} {names : List CString} {offs : List ℕ}
    → HasLabels t names offs
    → length names + 2 ≤ alert_size
    → (target r : ℕ) → r < length (0 ∷ offs)
    → r ≢ 0
    → get_or (0 ∷ offs) r 0 ≡ target
    → (s : CString) × (load t.labels.by_index r ≡ ok (some s))
      × (get_elem? names (r - 1) ≡ some s)
      × (get_elem? offs (r - 1) ≡ some target)
unfolding Dynarray.dynarray_size
label_at v room target zero h ne e = absurd (ne refl)
label_at {t} {names} {offs} v room target (suc k) h ne e =
    let q : suc k - 1 ≡ k = omega arith in
    let s = get_or names k [] in
    let there : get_elem? names k ≡ some s =
      get_elem?-eq-get_or names k [] (omega (arith, v.same)) in
    (
      s,
      load-read none t.labels.by_index (suc k) (omega (arith, v.table.count, v.same))
            (omega (arith, v.same))
          ∙ v.table.texts (suc k) (omega (arith, v.same))
          ∙ ap ok there,
      ap (get_elem? names) q ∙ there,
      ap (get_elem? offs) q ∙ get_elem?-eq-get_or offs k 0 (omega arith) ∙ ap some e,
    )

-- The search for a label ends with at most one round more than there are offsets, and does not trap.
-- A label that it finds has the offset that is sought, two behind `ip`; if it finds none, and the
-- offsets of the labels are sorted, no label has that offset.
pub lookup_label_by_offset_lem :
    {t : LabelTab} {names : List CString} {offs : List ℕ} (ip : ℕ)
    → HasLabels t names offs
    → length names + 2 ≤ alert_size
    → (s : CString) × (lookup_label_by_offset t ip ≡ ok (some s))
      × (((k : ℕ) × (get_elem? names k ≡ some s) × (get_elem? offs k ≡ some ((ip + 2) % 2 ^ 64)))
          ⊎ ((s ≡ [])
              × (IsSorted (0 ∷ offs) → (k : ℕ) → get_elem? offs k ≢ some ((ip + 2) % 2 ^ 64))))
unfolding lookup_label_by_offset
lookup_label_by_offset_lem {t} {names} {offs} ip v room =
    let target = (ip + 2) % 2 ^ 64 in
    let (r, searched, said) =
      search_lem v.words (omega (arith, v.same)) target (suc t.offsets.size) 0 t.offsets.size
        (omega (arith, v.words.count)) (omega (arith, v.words.count)) (omega arith) in
    elim said [
      | inl (h, ne, e) ↦
          (let (s, found, name, offset) = label_at v room target r h ne e in
            let real : (r == 0) ≡ false = ground arith in
            (s, rw searched (rw real found), inl (r - 1, name, offset)))
      | inr (z, none_there) ↦
          (let nil : (r == 0) ≡ true = ground arith in
            (
              [],
              rw searched (rw nil),
              inr (
                refl,
                λ sorted k e.
                    none_there sorted (inl refl) (suc k) (omega arith)
                      (omega (arith, get_or_elem offs k target e, v.words.count)) (omega arith)
                      (get_or_elem offs k target e).1,
              ),
            ))
    ]
