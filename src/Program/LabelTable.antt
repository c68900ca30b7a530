-- ===== src/Program/LabelTable.antt =====
-- The labels of the programs of src/vm/program.c as lists: names by index, and offsets.
use tinyaml.Prelude.{
  ℕ, zero, suc, ◌+◌, ◌-◌, ◌^◌, ◌<◌, ◌≤◌, ◌≡◌, ◌⊎◌, refl, arith, Bool, true, false, Option, none,
  some, List, [], ◌∷◌, ◌++◌, ◌==◌, length, get_or, sym, ◌∙◌, Bool-cases, inl, inr, if◌then◌else◌,
  ltb, lt→ltb, Option-cases, get_elem?_beyond,
}
use tinyaml.Prelude.{Run, ok, trap, Trap}
use tinyaml.Dynarray
use tinyaml.Dynarray.{Dynarray, alert_size, load}
use tinyaml.Dynarray.Inv.{quantize_bounds}
use tinyaml.Hashtab.Keys.{CString, str_differs}
use tinyaml.TextSeg.Holds.{Holds}
use tinyaml.TextSeg.Find.{last_index, get_elem?-last_index, text_to_index-last_index}
use tinyaml.Program.{Program, LabelTab, label_to_ofs}
use tinyaml.Program.Code.{HasWords}

-- The table has the labels `names` from index 1 on, with the offsets `offs`.
pub record HasLabels (t : LabelTab) (names : List CString) (offs : List ℕ) : Type 0 where
  pub table : Holds t.labels ([] ∷ names)
  pub words : HasWords 0 t.offsets (0 ∷ offs)
  pub same : length names ≡ length offs
  pub block : t.offsets.reserved ≤ 2 ^ 24

-- Whether a string is the empty one or a label.
abbrev pub has_index : Option ℕ → Bool
has_index none = false
has_index (some i) = true

abbrev pub is_known : CString → List CString → Bool
is_known s names = has_index (last_index 0 s ([] ∷ names))

pub last_index-snoc_other :
    (n : ℕ) (s x : CString) (xs : List CString)
    → str_differs x s ≡ true
    → last_index n s (xs ++ (x ∷ [])) ≡ last_index n s xs
unfolding last_index
last_index-snoc_other n s x [] h = rw h
last_index-snoc_other n s x (y ∷ xs) h = rw (last_index-snoc_other (n + 1) s x xs h)

-- A word at an index below the size is in the block.
pub load-read {ℓ} :
    {A : Type ℓ} (blank : A) (d : Dynarray A) (i : ℕ)
    → i < d.size
    → i < alert_size
    → load d i ≡ Dynarray.read blank d i
unfolding Dynarray.read
load-read blank d i h small =
    let inside : ltb i d.size ≡ true = lt→ltb i d.size h in
    let below : ltb i alert_size ≡ true = lt→ltb i alert_size small in sym (rw (below, inside))

pub load-HasWords {ℓ} :
    {A : Type ℓ} (blank : A) {d : Dynarray A} {xs : List A} (i : ℕ)
    → HasWords blank d xs
    → i < length xs
    → length xs ≤ alert_size
    → load d i ≡ ok (get_or xs i blank)
load-HasWords blank {d} {xs} i v h room =
    load-read blank d i (omega (arith, v.count)) (omega arith) ∙ v.words i (omega arith)

-- The index of a string that is not there is not in a block.
load_unknown :
    {d : Dynarray ℕ} {xs : List ℕ}
    → HasWords 0 d xs
    → d.reserved ≤ 2 ^ 64 - 1
    → load d (2 ^ 64 - 1) ≡ trap Trap.out_of_bounds
unfolding load
load_unknown {d} v small = rw (get_elem?_beyond d.cells (2 ^ 64 - 1) (omega (arith, v.valid.block)))

pub write_reserved :
    (d d' : Dynarray ℕ) (i x : ℕ)
    → Dynarray.write 0 d i x ≡ ok d'
    → i < alert_size
    → d.reserved ≤ 2 ^ 24
    → d'.reserved ≤ 2 ^ 24
unfolding Dynarray.write Dynarray.store Dynarray.extend Dynarray.make_room Dynarray.reserve
write_reserved d d' i x e h k = ground (arith, quantize_bounds i h)

-- The offset of a string as the lists have it.
abbrev pub offset_at : List ℕ → Option ℕ → Run ℕ
offset_at offs none = trap Trap.out_of_bounds
offset_at offs (some i) = ok (get_or (0 ∷ offs) i 0)

abbrev pub offset_of : CString → List CString → List ℕ → Run ℕ
offset_of s names offs = offset_at offs (last_index 0 s ([] ∷ names))

module _ (p : Program) {names : List CString} {offs : List ℕ} (v : HasLabels p.labels names offs)
    (room : length names + 2 ≤ alert_size) where
  -- The offset of a label by its name.
  pub label_to_ofs_lem : (s : CString) → label_to_ofs p s ≡ offset_of s names offs
  unfolding label_to_ofs
  label_to_ofs_lem s = elim (Option-cases (last_index 0 s ([] ∷ names))) [
    | inl e ↦
        rw (text_to_index-last_index v.table s)
          (rw e (load_unknown v.words (omega (arith, v.block))))
    | inr (i, e) ↦
        let (_, _, below) = get_elem?-last_index 0 i s ([] ∷ names) e in
        rw (text_to_index-last_index v.table s) (rw e (split i below (Bool-cases (i == 0))))
  ]
    where
      split :
          (i : ℕ)
          → i < 0 + length ([] ∷ names)
          → (i == 0 ≡ true) ⊎ (i == 0 ≡ false)
          → (if i == 0 then ok 0 else load p.labels.offsets i) ≡ ok (get_or (0 ∷ offs) i 0)
      split zero below h = refl
      split (suc i) below h =
          ground
            (arith, load-HasWords 0 (suc i) v.words (omega (arith, v.same)) (omega (arith, v.same)))
