-- ===== src/Machine/Roots.antt =====
-- The references that the current thread holds (src/vm/vm.c).
use tinyaml.Prelude.{ℕ, ◌+◌, Option, none, some, List, [], ◌∷◌}
use tinyaml.Objects.Counts.{Tracks, one}
use tinyaml.Objects.Entries.{held_in}
use tinyaml.Machine.{Machine, Frame}

-- The reference to the function that a frame returns from.
abbrev pub held_by_callee : Option ℕ → ℕ → ℕ
held_by_callee none o = 0
held_by_callee (some p) o = one p o

abbrev pub held_in_callers : List Frame → ℕ → ℕ
held_in_callers [] o = 0
held_in_callers (f ∷ fs) o = held_by_callee f.df_callee o + held_in_callers fs o

-- The references to `o` from the data, locals and call stacks and the registers.
abbrev pub held_by_thread : Machine → ℕ → ℕ
held_by_thread m o =
    held_in m.data_stack o
    + held_in m.locals_stack o
    + held_in_callers m.call_stack o
    + held_in m.registers o

-- The counts are right, where `elsewhere` counts the references from other places: other threads,
-- programs, containers, and the exceptions thrown so far.
abbrev pub Counted : (ℕ → ℕ) → Machine → Type 0
Counted elsewhere m = Tracks m.objects (λ o. elsewhere o + held_by_thread m o)
