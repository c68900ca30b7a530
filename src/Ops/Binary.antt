-- ===== src/Ops/Binary.antt =====
-- The binary operations of src/ops/arithbin.c on two integers.
use tinyaml.Prelude.{ℕ, ◌≡◌, ◌+◌, refl, ok, List, ◌∷◌, Run}
use tinyaml.Objects.{Objects, Entry, managed}
use tinyaml.Objects.Counts.{Tracks-congr}
use tinyaml.Machine.{Machine, pop_top, peek_data, peek_at}
use tinyaml.Machine.Roots.{Counted, held_by_thread}
use tinyaml.Machine.Stacks.{with_data, Leaves, pop_top-Counted}
use tinyaml.Ops.{Host, pop_numeric, peek_numeric, set_top}
use tinyaml.Ops.Arith.{int_entry, bin_op}

no_reference :
    (elsewhere : ℕ → ℕ) (m : Machine) (h : Objects) (a r : ℕ) (s : List Entry) (o : ℕ)
    → elsewhere o + held_by_thread (with_data m h (int_entry a ∷ s)) o
      ≡ elsewhere o + held_by_thread (with_data m h (int_entry r ∷ s)) o
unfolding int_entry managed
no_reference elsewhere m h a r s o = refl

module _ (host : Host) where
  -- An integer is popped and peeked at as it is.
  pub pop_numeric-int_entry :
      (m m' : Machine) (b : ℕ)
      → pop_top m ≡ ok (int_entry b, m')
      → pop_numeric host m ≡ ok (int_entry b, m')
  unfolding pop_numeric int_entry
  pop_numeric-int_entry m m' b run = rw run

  pub peek_numeric-int_entry :
      (m : Machine) (a : ℕ) (s : List Entry)
      → m.data_stack ≡ int_entry a ∷ s
      → peek_numeric host m ≡ ok (int_entry a, m)
  unfolding peek_numeric peek_data peek_at int_entry set_top
  peek_numeric-int_entry m a s top = rw top

  -- A binary operation whose integer form gives a result for the two integers on top of the data
  -- stack replaces both by the result, with the counts right.
  pub bin_op-Counted :
      (elsewhere : ℕ → ℕ) (m : Machine) (opi : ℕ → ℕ → Run ℕ) (opf : ℕ → ℕ → ℕ) (a b r : ℕ)
      (s : List Entry)
      → Counted elsewhere m
      → m.data_stack ≡ int_entry b ∷ int_entry a ∷ s
      → opi a b ≡ ok r
      → Leaves elsewhere m (bin_op host opi opf m) (int_entry r ∷ s)
  unfolding bin_op
  bin_op-Counted elsewhere m opi opf a b r s t top result =
      let (h, run, kept, t') = pop_top-Counted elsewhere m t (int_entry b) (int_entry a ∷ s) top in
      let popped = pop_numeric-int_entry m (with_data m h (int_entry a ∷ s)) b run in
      let peeked = peek_numeric-int_entry (with_data m h (int_entry a ∷ s)) a s refl in
      (
        h,
        rw popped (rw peeked (rw result)),
        kept,
        Tracks-congr h _ _ t' (λ o. no_reference elsewhere m h a r s o),
      )
