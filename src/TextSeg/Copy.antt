-- ===== src/TextSeg/Copy.antt =====
-- `text_seg_copy` of src/vm/text_seg.c: the strings of one table looked up in another, in order.
use native.Mathlib.Decide.{dec_lt}
use tinyaml.Prelude.{
  drop_all, ℕ, zero, suc, ◌+◌, ◌-◌, ◌≤◌, ◌≡◌, refl, arith, none, some, List, [], ◌∷◌, ◌++◌, length,
  get_elem?, drop, ap, sym, ◌∙◌, append_assoc, append-nil, drop-get_elem?, get_elem?-eq-get_or,
  get_or,
}
use tinyaml.Prelude.{ok}
use tinyaml.Dynarray.{alert_size}
use tinyaml.Hashtab.Keys.{CString}
use tinyaml.TextSeg.{TextSeg, copy_loop, copy}
use tinyaml.TextSeg.Holds.{Holds}
use tinyaml.TextSeg.Find.{last_index, interned, find_by_text-Holds}
use tinyaml.TextSeg.Intern.{length-interned}

-- The strings after those of a list have been looked up in order.
unfoldable pub intern_all : List CString → List CString → List CString
intern_all [] xs = xs
intern_all (y ∷ ys) xs = intern_all ys (interned y xs)

-- No string of `ys` stands before it, in `xs` or in `ys`.
abbrev pub AllNew : List CString → List CString → Type 0
AllNew xs [] = Unit {0}
AllNew xs (y ∷ ys) = (last_index 0 y xs ≡ none) × AllNew (xs ++ (y ∷ [])) ys

pub interned_new :
    (y : CString) (xs : List CString) → last_index 0 y xs ≡ none → interned y xs ≡ xs ++ (y ∷ [])
unfolding interned
interned_new y xs e = rw e

-- Strings that are new are all added, in order.
pub intern_all-AllNew : (ys xs : List CString) → AllNew xs ys → intern_all ys xs ≡ xs ++ ys
unfolding intern_all
intern_all-AllNew [] xs new = sym (append-nil xs)
intern_all-AllNew (y ∷ ys) xs new =
    ap (intern_all ys) (interned_new y xs new.0)
    ∙ intern_all-AllNew ys (xs ++ (y ∷ [])) new.1
    ∙ append_assoc xs (y ∷ []) ys

copy_loop-Holds :
    (n i : ℕ) {dest src : TextSeg} {xs ys : List CString}
    → Holds dest xs
    → Holds src ys
    → n + i ≡ length ys
    → length ys ≤ alert_size
    → length xs + n ≤ alert_size
    → (dest' : TextSeg) × (copy_loop n i dest src ≡ ok dest')
      × Holds dest' (intern_all (drop i ys) xs)
unfolding copy_loop intern_all
copy_loop-Holds zero i {dest} {src} {xs} {ys} v w e small room =
    (dest, refl, rw (drop_all i ys (omega arith)) v)
copy_loop-Holds (suc n) i {dest} {src} {xs} {ys} v w e small room =
    let s = get_or ys i [] in
    let there : get_elem? ys i ≡ some s = get_elem?-eq-get_or ys i [] (omega arith) in
    let (d, found, held) = find_by_text-Holds v s (omega arith) in
    let (d', looped, held') =
      copy_loop-Holds n (i + 1) {dest = d} {src = src} held w (omega arith) small
        (omega (arith, length-interned s xs)) in
    (
      d',
      rw (w.texts i (omega arith), there, found, looped),
      rw (drop-get_elem? i ys s there) (next held'),
    )
  where
    next :
        {d' : TextSeg}
        → Holds d' (intern_all (drop (i + 1) ys) (interned (get_or ys i []) xs))
        → Holds d' (intern_all (drop (suc i) ys) (interned (get_or ys i []) xs))
    next h = let q : i + 1 ≡ suc i = omega arith in rw q at h

-- Copying looks up every string of the source but the first, in order, in the destination; the
-- strings must fit below the alert size.
pub copy-Holds :
    {dest src : TextSeg} {xs ys : List CString}
    → Holds dest xs
    → Holds src ys
    → length ys ≤ alert_size
    → length xs + length ys ≤ alert_size
    → (dest' : TextSeg) × (copy dest src ≡ ok dest') × Holds dest' (intern_all (drop 1 ys) xs)
unfolding copy copy_loop intern_all
copy-Holds {dest} {src} {xs} {ys} v w small room = elim (dec_lt 0 (length ys)) [
  | yes h ↦ rw w.count (copy_loop-Holds (length ys - 1) 1 v w (omega arith) small (omega arith))
  | no h ↦
      let z : length ys - 1 ≡ 0 = omega arith in
      (dest, rw (w.count, z), rw (drop_all 1 ys (omega arith)) v)
]

-- Copying a table of distinct strings, the first of them empty, into a new table makes an equal one.
pub copy_new :
    {dest src : TextSeg} (ys : List CString)
    → Holds dest ([] ∷ [])
    → Holds src ([] ∷ ys)
    → AllNew ([] ∷ []) ys
    → length ys + 2 ≤ alert_size
    → (dest' : TextSeg) × (copy dest src ≡ ok dest') × Holds dest' ([] ∷ ys)
copy_new ys v w new room =
    let (dest', copied, held) = copy-Holds v w (omega arith) (omega arith) in
    (dest', copied, rw (← intern_all-AllNew ys ([] ∷ []) new) held)
