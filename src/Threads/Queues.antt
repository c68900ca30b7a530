-- ===== src/Threads/Queues.antt =====
-- What the lists of the machine hold, and changing one of them.
use tinyaml.Prelude.{ℕ, ◌≡◌, ◌≢◌, refl, List, sym, ◌∙◌, ◌⊎◌, inl, inr, subst}
use tinyaml.Dlist.{Store, Dlist}
use tinyaml.Dlist.Links.{IsFresh, AreDistinct, AreLinked, AreLinked-agree, Kept}
use tinyaml.Dlist.Links
use tinyaml.Threads.{Vm, Queue, list_of, with_list}

-- No node is in both lists.
abbrev pub AreApart : List ℕ → List ℕ → Type 0
AreApart xs ys = (m : ℕ) → IsFresh m xs ⊎ IsFresh m ys

pub AreApart-sym : (xs ys : List ℕ) → AreApart xs ys → AreApart ys xs
AreApart-sym xs ys a m = elim (a m) [ inl f ↦ inr f | inr f ↦ inl f ]

-- A list is left alone by what changes no node outside a list apart from it.
pub Holds-Kept :
    {h h' : Store} {l : Dlist} {xs ys : List ℕ}
    → Kept h xs h'
    → AreApart xs ys
    → Links.Holds h l ys
    → Links.Holds h' l ys
Holds-Kept {h} {h'} {l} {xs} {ys} k a v = record {
  linked = AreLinked-agree h h' _ ys _ agree v.linked;
  distinct = v.distinct;
  head = v.head;
  tail = v.tail;
}
  where
    agree : (m : ℕ) → (IsFresh m ys → ⊥) → h' m ≡ h m
    agree m inside = elim (a m) [ inl f ↦ k.same m f | inr f ↦ absurd (inside f) ]

pub queue_cases : (p q : Queue) → (p ≡ q) ⊎ (p ≢ q)
queue_cases Queue.ready_threads Queue.ready_threads = inl refl
queue_cases Queue.ready_threads Queue.running_threads = inr (λ e. cc)
queue_cases Queue.ready_threads Queue.zombie_threads = inr (λ e. cc)
queue_cases Queue.running_threads Queue.ready_threads = inr (λ e. cc)
queue_cases Queue.running_threads Queue.running_threads = inl refl
queue_cases Queue.running_threads Queue.zombie_threads = inr (λ e. cc)
queue_cases Queue.zombie_threads Queue.ready_threads = inr (λ e. cc)
queue_cases Queue.zombie_threads Queue.running_threads = inr (λ e. cc)
queue_cases Queue.zombie_threads Queue.zombie_threads = inl refl

-- The nodes of the lists, with other nodes for one of them.
unfoldable pub put : (Queue → List ℕ) → Queue → List ℕ → Queue → List ℕ
put qs q xs p = elim (queue_cases q p) [ inl e ↦ xs | inr d ↦ qs p ]

pub put_self : (qs : Queue → List ℕ) (q : Queue) (xs : List ℕ) → put qs q xs q ≡ xs
unfolding put
put_self qs q xs = elim (queue_cases q q) as (λ c. elim c [ inl e ↦ xs | inr d ↦ qs q ] ≡ xs) [
  | inl e ↦ refl
  | inr d ↦ absurd (d refl)
]

pub put_other : (qs : Queue → List ℕ) (q p : Queue) (xs : List ℕ) → q ≢ p → put qs q xs p ≡ qs p
unfolding put
put_other qs q p xs d =
    elim (queue_cases q p) as (λ c. elim c [ inl e ↦ xs | inr d ↦ qs p ] ≡ qs p) [
      | inl e ↦ absurd (d e)
      | inr d' ↦ refl
    ]

pub list_of_self : (v : Vm) (q : Queue) (h : Store) (l : Dlist) → list_of (with_list v q h l) q ≡ l
unfolding list_of with_list
list_of_self v Queue.ready_threads h l = refl
list_of_self v Queue.running_threads h l = refl
list_of_self v Queue.zombie_threads h l = refl

pub list_of_other :
    (v : Vm) (q p : Queue) (h : Store) (l : Dlist)
    → q ≢ p
    → list_of (with_list v q h l) p ≡ list_of v p
unfolding list_of with_list
list_of_other v Queue.ready_threads Queue.ready_threads h l d = absurd (d refl)
list_of_other v Queue.ready_threads Queue.running_threads h l d = refl
list_of_other v Queue.ready_threads Queue.zombie_threads h l d = refl
list_of_other v Queue.running_threads Queue.ready_threads h l d = refl
list_of_other v Queue.running_threads Queue.running_threads h l d = absurd (d refl)
list_of_other v Queue.running_threads Queue.zombie_threads h l d = refl
list_of_other v Queue.zombie_threads Queue.ready_threads h l d = refl
list_of_other v Queue.zombie_threads Queue.running_threads h l d = refl
list_of_other v Queue.zombie_threads Queue.zombie_threads h l d = absurd (d refl)

pub with_list_nodes : (v : Vm) (q : Queue) (h : Store) (l : Dlist) → (with_list v q h l).nodes ≡ h
unfolding with_list
with_list_nodes v Queue.ready_threads h l = refl
with_list_nodes v Queue.running_threads h l = refl
with_list_nodes v Queue.zombie_threads h l = refl

pub with_list_threads :
    (v : Vm) (q : Queue) (h : Store) (l : Dlist) → (with_list v q h l).threads ≡ v.threads
unfolding with_list
with_list_threads v Queue.ready_threads h l = refl
with_list_threads v Queue.running_threads h l = refl
with_list_threads v Queue.zombie_threads h l = refl

-- The lists of the machine hold the nodes `qs`, and no node is in two of them.
pub record AreHeld (v : Vm) (qs : Queue → List ℕ) : Type 0 where
  pub held : (q : Queue) → Links.Holds v.nodes (list_of v q) (qs q)
  pub apart : (p q : Queue) → p ≢ q → AreApart (qs p) (qs q)

-- Changing one list, and no node outside the nodes `xs` that are apart from the other lists.
pub with_list-AreHeld :
    {v : Vm} {qs : Queue → List ℕ} (q : Queue) {h : Store} {l : Dlist} (xs ys : List ℕ)
    → AreHeld v qs
    → Kept v.nodes xs h
    → Links.Holds h l ys
    → ((p : Queue) → q ≢ p → AreApart xs (qs p))
    → ((p : Queue) → q ≢ p → AreApart ys (qs p))
    → AreHeld (with_list v q h l) (put qs q ys)
with_list-AreHeld {v} {qs} q {h} {l} xs ys a k new before after = record {
  held = λ p. elim (queue_cases q p) [
    | inl e ↦
        subst
          (λ r.
            Links.Holds (with_list v q h l).nodes (list_of (with_list v q h l) r) (put qs q ys r))
          e here
    | inr d ↦
        rw (list_of_other v q p h l d, with_list_nodes v q h l, put_other qs q p ys d)
          (Holds-Kept k (before p d) (a.held p))
  ];
  apart = λ p r d. elim (queue_cases q p) [
    | inl e ↦ elim (queue_cases q r) [
      | inl e' ↦ absurd (d (sym e ∙ e'))
      | inr c ↦ rw (← e, put_self qs q ys, put_other qs q r ys c) (after r c)
    ]
    | inr c ↦ elim (queue_cases q r) [
      | inl e' ↦
          rw (← e', put_self qs q ys, put_other qs q p ys c) (AreApart-sym ys (qs p) (after p c))
      | inr c' ↦ rw (put_other qs q p ys c, put_other qs q r ys c') (a.apart p r d)
    ]
  ];
}
  where
    here : Links.Holds (with_list v q h l).nodes (list_of (with_list v q h l) q) (put qs q ys q)
    here = rw (list_of_self v q h l, with_list_nodes v q h l, put_self qs q ys) new
