-- ===== src/Objects/Bodies.antt =====
-- What freeing an object of each kind does to the reference counts (src/vm/objects.c).
use tinyaml.Prelude.{ℕ, ◌+◌, ◌*◌, ◌/◌, ◌<◌, ◌≤◌, ◌≡◌, refl, arith, true, none, some, length}
use tinyaml.Dynarray.{Dynarray}
use tinyaml.Hashtab.{Table, entries}
use tinyaml.Objects.{Objects, Entry, managed, deref_ptr, entry_ref, entry_deref}
use tinyaml.Objects.Counts.{Tracks, Tracks-congr, one}
use tinyaml.Objects.Entries.{held_by, held_in}
use tinyaml.Objects.Free.{
  Body, da_deinit, set_deinit, clean_set, env_deinit, stack_deinit, df_deinit, vor_deinit,
  free_body,
}
use tinyaml.Objects.Released.{
  Drops, Drops-then, Drops-nothing, Drops-congr, entry_deref-Drops, entry_ref-Drops, items,
  da_loop-Drops, held_in_entries, clean_set-Drops, AllTyped, deref_stack-Drops,
}

-- The references of an array's items.
abbrev pub held_in_array : Dynarray ℕ → ℕ → ℕ
held_in_array da q = held_in (items ((da.size + 1) / 2) 0 da.cells) q

-- The references of an object of each kind.
abbrev pub held_in_body : Body → ℕ → ℕ
held_in_body Body.plain q = 0
held_in_body (Body.array da) q = held_in_array da q
held_in_body (Body.environment da) q = held_in_array da q
held_in_body (Body.set_of compare hash tab) q =
    held_in_entries (entries tab) q + (held_by compare q + held_by hash q)
held_in_body (Body.stack s) q = held_in s q
held_in_body (Body.function none) q = 0
held_in_body (Body.function (some p)) q = one p q
held_in_body (Body.instance_of members) q = one members q

-- The references that are counted for ever after: a set takes those to its functions twice.
abbrev pub left_by_body : Body → ℕ → ℕ
left_by_body Body.plain q = 0
left_by_body (Body.array da) q = 0
left_by_body (Body.environment da) q = 0
left_by_body (Body.set_of compare hash tab) q = 2 * (held_by compare q + held_by hash q)
left_by_body (Body.stack s) q = 0
left_by_body (Body.function closure) q = 0
left_by_body (Body.instance_of members) q = 0

-- The block of an array holds its items, in pairs of words, and a stack's entries are typed.
abbrev pub IsSound : Body → Type 0
IsSound Body.plain = Unit {0}
IsSound (Body.array da) = 2 * ((da.size + 1) / 2) ≤ length da.cells
IsSound (Body.environment da) = 2 * ((da.size + 1) / 2) ≤ length da.cells
IsSound (Body.set_of compare hash tab) = Unit {0}
IsSound (Body.stack s) = AllTyped s
IsSound (Body.function closure) = Unit {0}
IsSound (Body.instance_of members) = Unit {0}

pub left_by_body-held : (b : Body) (q : ℕ) → held_in_body b q ≡ 0 → left_by_body b q ≡ 0
left_by_body-held Body.plain q z = refl
left_by_body-held (Body.array da) q z = refl
left_by_body-held (Body.environment da) q z = refl
left_by_body-held (Body.set_of compare hash tab) q z = omega arith
left_by_body-held (Body.stack s) q z = refl
left_by_body-held (Body.function closure) q z = refl
left_by_body-held (Body.instance_of members) q z = refl

-- An entry with an object.
abbrev managed_entry : ℕ → Entry
managed_entry p = record { type = 21; value = p }

deref_ptr-Drops :
    (h : Objects) (k : ℕ → ℕ) (p : ℕ)
    → Tracks h (λ q. k q + one p q)
    → Drops (λ q. k q + 0) (λ q. k q + one p q) h (deref_ptr h p)
unfolding entry_deref managed
deref_ptr-Drops h k p t =
    Drops-congr k (λ q. k q + one p q) _ _ h _ (entry_deref-Drops h k (managed_entry p) t)
      (λ q. omega arith) (λ q. refl)

da_deinit-Drops :
    (da : Dynarray ℕ) (h : Objects) (k : ℕ → ℕ)
    → 2 * ((da.size + 1) / 2) ≤ length da.cells
    → Tracks h (λ q. k q + held_in_array da q)
    → Drops (λ q. k q + 0) (λ q. k q + held_in_array da q) h (da_deinit da h)
unfolding da_deinit
da_deinit-Drops da h k room t =
    Drops-congr k _ _ _ h _ (da_loop-Drops ((da.size + 1) / 2) 0 da h k (omega arith) t)
      (λ q. omega arith) (λ q. refl)

positive : (d : Entry) → managed d.type ≡ true → 0 < held_by d d.value
positive d e = ground arith

set_deinit-Drops :
    (compare hash : Entry) (tab : Table Entry Entry) (h : Objects) (k : ℕ → ℕ)
    → Tracks h (λ q. k q + held_in_body (Body.set_of compare hash tab) q)
    → Drops
        (λ q. k q + left_by_body (Body.set_of compare hash tab) q)
        (λ q. k q + held_in_body (Body.set_of compare hash tab) q)
        h
        (set_deinit compare hash tab h)
unfolding set_deinit
set_deinit-Drops compare hash tab h k t =
    let both : ℕ → ℕ = λ q. k q + (held_by compare q + held_by hash q) in
    let with_compare : ℕ → ℕ = λ q. both q + held_by compare q in
    let all : ℕ → ℕ = λ q. both q + held_in_entries (entries tab) q in
    let last : ℕ → ℕ = λ q. with_compare q + held_by hash q in
    Drops-congr last all _ _ h _
      (Drops-then both all last h (clean_set (entries tab) h) _
        (clean_set-Drops (entries tab) h both (Tracks-congr h _ _ t (λ q. omega arith)))
        (λ q z. omega arith)
        (λ h1 t1.
          Drops-then with_compare both last h1 (entry_ref h1 compare) (λ h2. entry_ref h2 hash)
            (entry_ref-Drops h1 both both compare t1 (λ e. omega (arith, positive compare e)))
            (λ q z. omega arith)
            (λ h2 t2.
              entry_ref-Drops h2 with_compare with_compare hash t2
                (λ e. omega (arith, positive hash e)))))
      (λ q. omega arith) (λ q. omega arith)

-- Freeing an object gives back all the references that it holds, but for a set, which takes those to its
-- functions a second time instead.
pub free_body-Drops :
    (b : Body) (h : Objects) (k : ℕ → ℕ)
    → IsSound b
    → Tracks h (λ q. k q + held_in_body b q)
    → Drops (λ q. k q + left_by_body b q) (λ q. k q + held_in_body b q) h (free_body b h)
unfolding free_body env_deinit stack_deinit df_deinit vor_deinit
free_body-Drops Body.plain h k sound t = Drops-nothing h _ _ t
free_body-Drops (Body.array da) h k sound t = da_deinit-Drops da h k sound t
free_body-Drops (Body.environment da) h k sound t = da_deinit-Drops da h k sound t
free_body-Drops (Body.set_of compare hash tab) h k sound t = set_deinit-Drops compare hash tab h k t
free_body-Drops (Body.stack s) h k sound t =
    Drops-congr k _ _ _ h _ (deref_stack-Drops s h k sound t) (λ q. omega arith) (λ q. refl)
free_body-Drops (Body.function none) h k sound t = Drops-nothing h _ _ t
free_body-Drops (Body.function (some p)) h k sound t = deref_ptr-Drops h k p t
free_body-Drops (Body.instance_of members) h k sound t = deref_ptr-Drops h k members t
