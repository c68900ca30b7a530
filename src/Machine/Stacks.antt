-- ===== src/Machine/Stacks.antt =====
-- The operations on the data stack keep the reference counts right (src/vm/vm.c).
use tinyaml.Prelude.{
  ℕ, zero, suc, ◌≡◌, ◌≤◌, ◌+◌, refl, ◌∙◌, ap, arith, ok, List, [], ◌∷◌, drop, length, Run,
}
use tinyaml.Objects.{Objects, Entry, entry_ref, entry_deref}
use tinyaml.Objects.Counts.{Tracks-congr}
use tinyaml.Objects.Entries.{held_by, held_in, IsLive, entry_ref-Tracks, entry_deref-Tracks}
use tinyaml.Machine.{Machine, push_data, pop_top, pop_data, poke_data}
use tinyaml.Machine.Roots.{Counted, held_by_thread}

-- The machine with other counts and another data stack.
abbrev pub with_data : Machine → Objects → List Entry → Machine
with_data m h s = record m { objects = h; data_stack = s }

-- A run that comes to `m` with the data stack `s`, all else but the objects unchanged, and with the
-- counts right.
abbrev pub Leaves : (ℕ → ℕ) → Machine → Run Machine → List Entry → Type 0
Leaves elsewhere m r s =
    (h : Objects) × (r ≡ ok (with_data m h s))
    × (h.is_object ≡ m.objects.is_object)
    × Counted elsewhere (with_data m h s)

poke_data_run :
    (m : Machine) (e x : Entry) (s : List Entry) (h h' : Objects)
    → m.data_stack ≡ x ∷ s
    → entry_deref m.objects x ≡ ok h
    → entry_ref h e ≡ ok h'
    → poke_data m e ≡ ok (with_data m h' (e ∷ s))
unfolding poke_data
poke_data_run m e x s h h' top p q = rw top (rw (p, q))

module _ (elsewhere : ℕ → ℕ) (m : Machine) (t : Counted elsewhere m) where
  -- Pushing an entry whose object, if it has one, is live.
  pub push_data-Counted :
      (e : Entry) → IsLive m.objects e → Leaves elsewhere m (push_data m e) (e ∷ m.data_stack)
  unfolding push_data
  push_data-Counted e live =
      let (h, run, kept, t') = entry_ref-Tracks m.objects _ e t live in
      (h, rw run, kept, Tracks-congr h _ _ t' (λ o. omega arith))

  -- Popping the top entry.
  pub pop_top-Counted :
      (e : Entry) (s : List Entry)
      → m.data_stack ≡ e ∷ s
      → (h : Objects) × (pop_top m ≡ ok (e, with_data m h s))
        × (h.is_object ≡ m.objects.is_object)
        × Counted elsewhere (with_data m h s)
  unfolding pop_top
  pop_top-Counted e s top =
      let given : Counted (λ o. elsewhere o + held_by e o) (with_data m m.objects s) =
        Tracks-congr m.objects _ _ t (λ o. omega (arith, ap (λ x. held_in x o) top)) in
      let (h, run, kept, t') =
        entry_deref-Tracks m.objects (λ o. elsewhere o + held_by_thread (with_data m m.objects s) o)
          e (Tracks-congr m.objects _ _ given (λ o. omega arith)) in
      (h, rw top (rw run), kept, t')

  -- Replacing the top entry.
  pub poke_data-Counted :
      (e x : Entry) (s : List Entry)
      → m.data_stack ≡ x ∷ s
      → IsLive m.objects e
      → Leaves elsewhere m (poke_data m e) (e ∷ s)
  poke_data-Counted e x s top live =
      let given : Counted (λ o. elsewhere o + held_by x o) (with_data m m.objects s) =
        Tracks-congr m.objects _ _ t (λ o. omega (arith, ap (λ y. held_in y o) top)) in
      let (h, run, kept, t') =
        entry_deref-Tracks m.objects (λ o. elsewhere o + held_by_thread (with_data m m.objects s) o)
          x (Tracks-congr m.objects _ _ given (λ o. omega arith)) in
      let (h', run', kept', t'') =
        entry_ref-Tracks h _ e t' (λ q. ap (λ f. f e.value) kept ∙ live q) in
      (
        h',
        poke_data_run m e x s h h' top run run',
        kept' ∙ kept,
        Tracks-congr h' _ _ t'' (λ o. omega arith),
      )

-- Popping `n` entries, as many as there are or fewer, leaves the others, with the counts right.
pub pop_data-Counted :
    (elsewhere : ℕ → ℕ) (n : ℕ) (s : List Entry) (m : Machine)
    → Counted elsewhere m
    → m.data_stack ≡ s
    → n ≤ length s
    → Leaves elsewhere m (pop_data m n) (drop n s)
unfolding pop_data
pop_data-Counted elsewhere zero s m t eq le = (
  m.objects,
  λ i. ok (record m { data_stack = eq i }),
  refl,
  Tracks-congr m.objects _ _ t (λ o. omega (arith, ap (λ y. held_in y o) eq)),
)
pop_data-Counted elsewhere (suc n) [] m t eq le = absurd (omega arith)
pop_data-Counted elsewhere (suc n) (e ∷ s) m t eq le =
    let (h, run, kept, t') = pop_top-Counted elsewhere m t e s eq in
    let (h', run', kept', t'') =
      pop_data-Counted elsewhere n s (with_data m h s) t' refl (omega arith) in
    (h', rw run run', kept' ∙ kept, t'')
