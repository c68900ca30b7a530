-- ===== src/Objects/Released.antt =====
-- What the `_free` of an object does to the reference counts (src/vm/objects.c).
use tinyaml.Prelude.{
  ℕ, zero, suc, ◌+◌, ◌*◌, ◌<◌, ◌≤◌, ◌≡◌, refl, arith, true, false, List, [], ◌∷◌, ◌++◌, length,
  get_or, get_elem?-eq-get_or, ap, sym, ◌∙◌, ◌⊎◌, inl, inr, append_assoc, Run, ok, ◌>>=◌, lt→ltb,
}
use tinyaml.Dynarray.{Dynarray, load}
use tinyaml.Objects.{
  Objects, Entry, managed, is_pending, ref_ptr, deref_ptr, collect, uncollect, set_count, entry_ref,
  entry_deref,
}
use tinyaml.Objects.Counts.{Tracks, Tracks-congr}
use tinyaml.Objects.Entries.{held_by, held_in, entry_ref-Tracks, entry_deref-Tracks}
use tinyaml.Objects.Free.{da_loop, clean_set}
use tinyaml.Machine.{deref_stack}

-- A run on objects that are counted by `m` comes to counts `n`: what is an object stays one, and the
-- objects whose last reference is given back, all counted by `m`, come to wait in front of the others.
abbrev pub Drops : (ℕ → ℕ) → (ℕ → ℕ) → Objects → Run Objects → Type 0
Drops n m h r =
    (h' : Objects) × (new : List ℕ) × (r ≡ ok h')
    × (h'.is_object ≡ h.is_object)
    × Tracks h' n
    × (h'.gc_pending ≡ new ++ h.gc_pending)
    × ((q : ℕ) → m q ≡ 0 → is_pending new q ≡ false)

pub is_pending-append :
    (ps qs : List ℕ) (o : ℕ)
    → is_pending ps o ≡ false
    → is_pending qs o ≡ false
    → is_pending (ps ++ qs) o ≡ false
unfolding is_pending
is_pending-append [] qs o e e' = e'
is_pending-append (p ∷ ps) qs o e e' = ground (arith, is_pending-append ps qs o)

-- One run after another.
pub Drops-then :
    (n m k : ℕ → ℕ) (h : Objects) (r : Run Objects) (f : Objects → Run Objects)
    → Drops n m h r
    → ((q : ℕ) → m q ≡ 0 → n q ≡ 0)
    → ((h1 : Objects) → Tracks h1 n → Drops k n h1 (f h1))
    → Drops k m h (r >>= f)
Drops-then n m k h r f (h1, new, run, kept, t, front, fresh) less next =
    let (h2, new2, run2, kept2, t2, front2, fresh2) = next h1 t in
    (
      h2,
      new2 ++ new,
      ap (λ x. x >>= f) run ∙ run2,
      kept2 ∙ kept,
      t2,
      front2 ∙ ap (λ x. new2 ++ x) front ∙ sym (append_assoc new2 new h.gc_pending),
      λ q z. is_pending-append new2 new q (fresh2 q (less q z)) (fresh q z),
    )

-- The list of the waiting objects after a reference is given back.
entry_deref_gc :
    (h h' : Objects) (d : Entry)
    → entry_deref h d ≡ ok h'
    → (h'.gc_pending ≡ h.gc_pending)
      ⊎ ((managed d.type ≡ true) × (h'.gc_pending ≡ d.value ∷ h.gc_pending))
unfolding entry_deref deref_ptr collect
entry_deref_gc h h' d e = ground arith

-- It stays when a reference is taken to what has one.
entry_ref_gc :
    (h h' : Objects) (d : Entry)
    → entry_ref h d ≡ ok h'
    → (managed d.type ≡ true → 0 < h.ref_count d.value)
    → h'.gc_pending ≡ h.gc_pending
unfolding entry_ref ref_ptr uncollect set_count
entry_ref_gc h h' d e more = ground arith

-- The reference of an entry is given back.
pub entry_deref-Drops :
    (h : Objects) (n : ℕ → ℕ) (d : Entry)
    → Tracks h (λ q. n q + held_by d q)
    → Drops n (λ q. n q + held_by d q) h (entry_deref h d)
unfolding is_pending
entry_deref-Drops h n d t =
    let (h', run, kept, t') = entry_deref-Tracks h n d t in
    elim (entry_deref_gc h h' d run) [
      | inl same ↦ (h', [], run, kept, t', same, (λ q z. none_new q))
      | inr (held, front) ↦ (h', d.value ∷ [], run, kept, t', front, (λ q z. one_new held q z))
    ]
  where
    none_new : (q : ℕ) → is_pending [] q ≡ false
    none_new q = refl

    one_new :
        managed d.type ≡ true
        → (q : ℕ) → n q + held_by d q ≡ 0
        → is_pending (d.value ∷ []) q ≡ false
    one_new held q z = ground arith

-- A reference to what has one is taken.
pub entry_ref-Drops :
    (h : Objects) (n m : ℕ → ℕ) (d : Entry)
    → Tracks h n
    → (managed d.type ≡ true → 0 < n d.value)
    → Drops (λ q. n q + held_by d q) m h (entry_ref h d)
unfolding is_pending
entry_ref-Drops h n m d t more =
    let (h', run, kept, t') = entry_ref-Tracks h n d t (λ e. t.live d.value (more e)) in
    (
      h',
      [],
      run,
      kept,
      t',
      entry_ref_gc h h' d run (λ e. omega (arith, more e, t.counted d.value)),
      λ q z. refl,
    )

pub Drops-nothing : (h : Objects) (n m : ℕ → ℕ) → Tracks h n → Drops n m h (ok h)
unfolding is_pending
Drops-nothing h n m t = (h, [], refl, refl, t, refl, λ q z. refl)

-- The counts that a run starts and ends with, written in another way.
pub Drops-congr :
    (n m n' m' : ℕ → ℕ) (h : Objects) (r : Run Objects)
    → Drops n m h r
    → ((q : ℕ) → n q ≡ n' q)
    → ((q : ℕ) → m q ≡ m' q)
    → Drops n' m' h r
Drops-congr n m n' m' h r (h', new, run, kept, t, front, fresh) e e' =
    (h', new, run, kept, Tracks-congr h' n n' t e, front, λ q z. fresh q (e' q ∙ z))

-- The items of an array from the word `i` on.
abbrev pub items : ℕ → ℕ → List ℕ → List Entry
items zero i ws = []
items (suc n) i ws =
    record { type = get_or ws i 0; value = get_or ws (i + 1) 0 } ∷ items n (i + 2) ws

da_round :
    (n i : ℕ) (da : Dynarray ℕ) (h : Objects)
    → i + 1 < length da.cells
    → da_loop (suc n) i da h ≡ (
        entry_deref h (record { type = get_or da.cells i 0; value = get_or da.cells (i + 1) 0 })
        >>= da_loop n (i + 2) da)
unfolding da_loop load entry_deref
da_round n i da h room =
    rw (get_elem?-eq-get_or da.cells i 0 (omega arith), get_elem?-eq-get_or da.cells (i + 1) 0 room)

pub da_loop-Drops :
    (n i : ℕ) (da : Dynarray ℕ) (h : Objects) (k : ℕ → ℕ)
    → i + 2 * n ≤ length da.cells
    → Tracks h (λ q. k q + held_in (items n i da.cells) q)
    → Drops k (λ q. k q + held_in (items n i da.cells) q) h (da_loop n i da h)
unfolding da_loop
da_loop-Drops zero i da h k room t =
    Drops-nothing h k (λ q. k q + 0) (Tracks-congr h _ k t (λ q. omega arith))
da_loop-Drops (suc n) i da h k room t =
    let d : Entry = record { type = get_or da.cells i 0; value = get_or da.cells (i + 1) 0 } in
    let rest : ℕ → ℕ = λ q. k q + held_in (items n (i + 2) da.cells) q in
    rw (da_round n i da h (omega arith)) (
      Drops-congr k (λ q. rest q + held_by d q) k _ h _
        (Drops-then rest (λ q. rest q + held_by d q) k h (entry_deref h d) (da_loop n (i + 2) da)
          (entry_deref-Drops h rest d (Tracks-congr h _ _ t (λ q. omega arith)))
          (λ q z. omega arith)
          (λ h1 t1.
            Drops-congr k rest k rest h1 _ (da_loop-Drops n (i + 2) da h1 k (omega arith) t1)
              (λ q. refl) (λ q. refl)))
        (λ q. refl) (λ q. omega arith))

-- The entries of a set.
abbrev pub held_in_entries : List (Entry × Entry) → ℕ → ℕ
held_in_entries [] q = 0
held_in_entries ((key, value) ∷ es) q = held_by value q + held_by key q + held_in_entries es q

pub clean_set-Drops :
    (es : List (Entry × Entry)) (h : Objects) (k : ℕ → ℕ)
    → Tracks h (λ q. k q + held_in_entries es q)
    → Drops k (λ q. k q + held_in_entries es q) h (clean_set es h)
unfolding clean_set
clean_set-Drops [] h k t =
    Drops-nothing h k (λ q. k q + 0) (Tracks-congr h _ k t (λ q. omega arith))
clean_set-Drops ((key, value) ∷ es) h k t =
    let rest : ℕ → ℕ = λ q. k q + held_in_entries es q in
    let with_key : ℕ → ℕ = λ q. rest q + held_by key q in
    Drops-congr k (λ q. with_key q + held_by value q) k _ h _
      (Drops-then with_key (λ q. with_key q + held_by value q) k h (entry_deref h value) _
        (entry_deref-Drops h with_key value (Tracks-congr h _ _ t (λ q. omega arith)))
        (λ q z. omega arith)
        (λ h1 t1.
          Drops-then rest with_key k h1 (entry_deref h1 key) (clean_set es)
            (entry_deref-Drops h1 rest key t1) (λ q z. omega arith)
            (λ h2 t2. clean_set-Drops es h2 k t2)))
      (λ q. refl) (λ q. omega arith)

-- The types of a stack's entries are types of data.
abbrev pub AllTyped : List Entry → Type 0
AllTyped [] = Unit {0}
AllTyped (d ∷ s) = (d.type < 29) × AllTyped s

pub deref_stack-Drops :
    (s : List Entry) (h : Objects) (k : ℕ → ℕ)
    → AllTyped s
    → Tracks h (λ q. k q + held_in s q)
    → Drops k (λ q. k q + held_in s q) h (deref_stack s h)
unfolding deref_stack
deref_stack-Drops [] h k typed t =
    Drops-nothing h k (λ q. k q + 0) (Tracks-congr h _ k t (λ q. omega arith))
deref_stack-Drops (d ∷ s) h k (small, typed) t =
    let with_top : ℕ → ℕ = λ q. k q + held_by d q in
    rw (lt→ltb d.type 29 small) (
      Drops-congr k (λ q. with_top q + held_in s q) k _ h _
        (Drops-then with_top (λ q. with_top q + held_in s q) k h (deref_stack s h)
          (λ h1. entry_deref h1 d)
          (deref_stack-Drops s h with_top typed (Tracks-congr h _ _ t (λ q. omega arith)))
          (λ q z. omega arith) (λ h1 t1. entry_deref-Drops h1 k d t1))
        (λ q. refl) (λ q. omega arith))
