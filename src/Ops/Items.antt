-- ===== src/Ops/Items.antt =====
-- `vm_op_arraySet_Int` of src/ops/containers.c on an item that the array has.
use tinyaml.Prelude.{
  ℕ, ◌≡◌, ◌<◌, ◌+◌, ◌*◌, ◌%◌, ◌^◌, refl, ◌∙◌, ap, arith, ok, List, ◌∷◌, get_elem?, set, some,
  length, lt→ltb, length-set,
}
use tinyaml.Gstack.{word}
use tinyaml.Dynarray.{Dynarray, load, store}
use tinyaml.Objects.{Objects, Entry}
use tinyaml.Objects.Counts.{Tracks-congr}
use tinyaml.Objects.Entries.{held_by, IsLive}
use tinyaml.Machine.{Machine, data_obj_array, pop_top, peek_data, peek_at}
use tinyaml.Machine.Roots.{Counted, held_by_thread}
use tinyaml.Machine.Stacks.{with_data, pop_top-Counted}
use tinyaml.Ops.{Host, dynamic_cast, cast_value}
use tinyaml.Ops.Control.{update}
use tinyaml.Ops.Memory.{replace_entry}
use tinyaml.Ops.Shuffle.{stack-IsLive}
use tinyaml.Ops.Variables.{replace_entry-Tracks}
use tinyaml.Ops.Arrays.{put_item, set_item, array_set_int}

-- The entry of an array.
abbrev pub array_at : ℕ → Entry
array_at p = record { type = data_obj_array; value = p }

-- The array with an item in it.
abbrev pub with_item : Dynarray ℕ → ℕ → Entry → Dynarray ℕ
with_item a ofs e = record a { cells = set (set a.cells ofs e.type) (ofs + 1) e.value }

put_item_run :
    (m : Machine) (p ofs : ℕ) (a : Dynarray ℕ) (e : Entry)
    → ofs + 1 < length a.cells
    → put_item m p a ofs e ≡ ok (record m { arrays = update m.arrays p (with_item a ofs e) })
unfolding put_item store
put_item_run m p ofs a e lt = rw (lt→ltb ofs (length a.cells) (omega arith)) (
    rw (
      lt→ltb (ofs + 1) (length (set a.cells ofs e.type))
        (omega (arith, length-set a.cells ofs e.type))))

set_item_run :
    (m : Machine) (p ofs : ℕ) (old e : Entry) (h : Objects)
    → get_elem? (m.arrays p).cells ofs ≡ some old.type
    → get_elem? (m.arrays p).cells (ofs + 1) ≡ some old.value
    → ofs + 1 < (m.arrays p).size
    → ofs + 1 < length (m.arrays p).cells
    → replace_entry m.objects old e ≡ ok h
    → set_item m p ofs e
      ≡ ok (record m { objects = h; arrays = update m.arrays p (with_item (m.arrays p) ofs e) })
unfolding set_item load
set_item_run m p ofs old e h there there' lt room run = rw (lt→ltb (ofs + 1) (m.arrays p).size lt) (
    rw there
      (rw there' (rw run (put_item_run (record m { objects = h }) p ofs (m.arrays p) e room))))

module _ (host : Host) where
  array_set_int_run :
      (m m' m'' : Machine) (e : Entry) (p index : ℕ) (s : List Entry)
      → pop_top m ≡ ok (e, m')
      → m'.data_stack ≡ array_at p ∷ s
      → set_item m' p (index * 2 % word) e ≡ ok m''
      → array_set_int host m index ≡ ok m''
  unfolding array_set_int peek_data peek_at dynamic_cast cast_value
  array_set_int_run m m' m'' e p index s popped top run = rw popped (rw top run)

  -- Storing the top of the stack in the place of an item `old` of the array below it leaves the array
  -- on the stack and the item in it. The reference of `old` is given back and that of the new item
  -- taken, so that the counts are right with the references that arrays hold counted elsewhere.
  pub array_set_int-Counted :
      (elsewhere : ℕ → ℕ) (m : Machine) (p index : ℕ) (e old : Entry) (s : List Entry)
      → Counted (λ o. elsewhere o + held_by old o) m
      → m.data_stack ≡ e ∷ array_at p ∷ s
      → get_elem? (m.arrays p).cells (index * 2) ≡ some old.type
      → get_elem? (m.arrays p).cells (index * 2 + 1) ≡ some old.value
      → index * 2 + 1 < (m.arrays p).size
      → index * 2 + 1 < length (m.arrays p).cells
      → index < 2 ^ 63
      → (h : Objects) × (array_set_int host m index
          ≡ ok (record m {
            objects = h;
            data_stack = array_at p ∷ s;
            arrays = update m.arrays p (with_item (m.arrays p) (index * 2) e);
          }))
        × Counted
            (λ o. elsewhere o + held_by e o)
            (record m { objects = h; data_stack = array_at p ∷ s })
  array_set_int-Counted elsewhere m p index e old s t top there there' lt room small =
      let (h, run, kept, t') =
        pop_top-Counted (λ o. elsewhere o + held_by old o) m t e (array_at p ∷ s) top in
      let m' = with_data m h (array_at p ∷ s) in
      let live : IsLive m.objects e = stack-IsLive _ m (e ∷ array_at p ∷ s) 0 e t top refl in
      let n : ℕ → ℕ = λ o. elsewhere o + held_by_thread m' o in
      let (h', run', kept', t'') =
        replace_entry-Tracks h n old e (Tracks-congr h _ _ t' (λ o. omega arith))
          (λ q. ap (λ f. f e.value) kept ∙ live q) in
      let same : index * 2 % word ≡ index * 2 = omega arith in
      (
        h',
        array_set_int_run m m' _ e p index s run refl (
            ap (λ x. set_item m' p x e) same
            ∙ set_item_run m' p (index * 2) old e h' there there' lt room run'),
        Tracks-congr h' _ _ t'' (λ o. omega arith),
      )
