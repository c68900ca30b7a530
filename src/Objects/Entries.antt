-- ===== src/Objects/Entries.antt =====
-- References that entries of stacks hold (`type&DataManagedObjectFlag`, src/vm/vm.c), and freeing.
use tinyaml.Prelude.{
  ◌≡◌, ℕ, ◌+◌, true, List, [], ◌∷◌, ◌++◌, if◌then◌else◌, arith, ok, refl, inl, inr, Bool-cases,
}
use tinyaml.Objects.{Objects, Entry, managed, entry_ref, entry_deref}
use tinyaml.Objects.Counts.{Tracks, Tracks-congr, one, ref_ptr-Tracks, deref_ptr-Tracks}

-- The reference to `o` that an entry holds, if it does.
abbrev pub held_by : Entry → ℕ → ℕ
held_by d o = if managed d.type then one d.value o else 0

-- The references to `o` that the entries of a list hold.
abbrev pub held_in : List Entry → ℕ → ℕ
held_in [] o = 0
held_in (d ∷ ds) o = held_by d o + held_in ds o

-- What an entry refers to is an object.
abbrev pub IsLive : Objects → Entry → Type 0
IsLive h d = managed d.type ≡ true → h.is_object d.value ≡ true

pub entry_ref-Tracks :
    (h : Objects) (n : ℕ → ℕ) (d : Entry)
    → Tracks h n
    → IsLive h d
    → (h' : Objects) × (entry_ref h d ≡ ok h')
      × (h'.is_object ≡ h.is_object)
      × Tracks h' (λ o. n o + held_by d o)
unfolding entry_ref
entry_ref-Tracks h n d t live = elim (Bool-cases (managed d.type)) [
  | inl e ↦ rw e (ref_ptr-Tracks h n d.value t (live e))
  | inr e ↦ rw e (h, refl, refl, Tracks-congr h n (λ o. n o + 0) t (λ o. omega arith))
]

pub entry_deref-Tracks :
    (h : Objects) (n : ℕ → ℕ) (d : Entry)
    → Tracks h (λ o. n o + held_by d o)
    → (h' : Objects) × (entry_deref h d ≡ ok h') × (h'.is_object ≡ h.is_object) × Tracks h' n
unfolding entry_deref
entry_deref-Tracks h n d t = elim (Bool-cases (managed d.type)) [
  | inl e ↦ rw e (
      deref_ptr-Tracks h n d.value
        (Tracks-congr h (λ o. n o + held_by d o) (λ o. n o + one d.value o) t (λ o. ground arith)))
  | inr e ↦ rw e (h, refl, refl, Tracks-congr h (λ o. n o + held_by d o) n t (λ o. ground arith))
]

pub held_in-append :
    (xs ys : List Entry) (o : ℕ) → held_in (xs ++ ys) o ≡ held_in xs o + held_in ys o
held_in-append [] ys o = omega arith
held_in-append (x ∷ xs) ys o = omega (arith, held_in-append xs ys o)
