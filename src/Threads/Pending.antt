-- ===== src/Threads/Pending.antt =====
-- The threads that wait for a mutex of src/vm/thread.c, and what waking one of them does.
use native.Mathlib.Decide.{ℕ_discrete}
use tinyaml.Prelude.{ℕ, ◌≡◌, ◌≢◌, refl, none, List, [], ◌∷◌, ap, sym, ◌∙◌, ◌⊎◌, inl, inr}
use tinyaml.Dlist.{Store, Dlist}
use tinyaml.Dlist.Links
use tinyaml.Dlist.Links.{
  IsFresh, AreDistinct, AreLinked-agree, Kept, relink_prev, set_prev_other, set_prev_value,
}
use tinyaml.Threads.{Vm, Queue, ThreadState, list_of}
use tinyaml.Threads.ThreadState.{blocked}
use tinyaml.Threads.Queue.{ready_threads, running_threads, zombie_threads}
use tinyaml.Threads.Queues.{AreApart, Holds-Kept}
use tinyaml.Threads.Steps.{IsSched, IsSched-Agree}
use tinyaml.Threads.Transition.{Became}

-- Threads that are blocked, and whose nodes are their own.
abbrev pub AreBlocked : Vm → List ℕ → Type 0
AreBlocked v [] = Unit {0}
AreBlocked v (p ∷ ps) = ((v.threads p).state ≡ blocked) × ((v.nodes p).value ≡ p) × AreBlocked v ps

-- The threads `ps` wait in the list `l`, and stand in no list of the machine.
pub record AreWaiting (v : Vm) (qs : Queue → List ℕ) (l : Dlist) (ps : List ℕ) : Type 0 where
  pub pending : Links.Holds v.nodes l ps
  pub apart : (q : Queue) → AreApart ps (qs q)
  pub asleep : AreBlocked v ps

AreBlocked-agree :
    (v v' : Vm) (t : ℕ) (ps : List ℕ)
    → IsFresh t ps
    → ((u : ℕ) → u ≢ t → (v'.threads u).state ≡ (v.threads u).state)
    → ((m : ℕ) → (v'.nodes m).value ≡ (v.nodes m).value)
    → AreBlocked v ps
    → AreBlocked v' ps
AreBlocked-agree v v' t [] f e g b = _
AreBlocked-agree v v' t (p ∷ ps) f e g b =
    (e p (λ k. f.0 (sym k)) ∙ b.0, g p ∙ b.1, AreBlocked-agree v v' t ps f.1 e g b.2)

-- A node that is apart from no list by its own is in none of them.
every-IsFresh :
    (qs : Queue → List ℕ) (ps : List ℕ) (m : ℕ)
    → ((q : Queue) → AreApart ps (qs q))
    → IsFresh m ps ⊎ ((q : Queue) → IsFresh m (qs q))
every-IsFresh qs ps m a = elim (a ready_threads m) [
  | inl f ↦ inl f
  | inr f ↦ elim (a running_threads m) [
    | inl g ↦ inl g
    | inr g ↦ elim (a zombie_threads m) [ inl h ↦ inl h | inr h ↦ inr (every f g h) ]
  ]
]
  where
    every :
        IsFresh m (qs ready_threads)
        → IsFresh m (qs running_threads)
        → IsFresh m (qs zombie_threads)
        → (q : Queue) → IsFresh m (qs q)
    every f g h ready_threads = f
    every f g h running_threads = g
    every f g h zombie_threads = h

-- The first thread that waits stands in no list.
pub first_nowhere :
    (qs : Queue → List ℕ) (p : ℕ) (ps : List ℕ)
    → ((q : Queue) → AreApart (p ∷ ps) (qs q))
    → (q : Queue) → IsFresh p (qs q)
first_nowhere qs p ps a q = elim (a q p) [ inl f ↦ absurd (f.0 refl) | inr f ↦ f ]

-- The machine with other nodes, which differ from its own in those of a list that is apart.
pub with_nodes-IsSched :
    {v : Vm} {qs : Queue → List ℕ} (h : Store) (ps : List ℕ)
    → IsSched v qs
    → Kept v.nodes ps h
    → ((q : Queue) → AreApart ps (qs q))
    → IsSched (record v { nodes = h }) qs
unfolding list_of
with_nodes-IsSched {v} {qs} h ps s k a =
    IsSched-Agree (record { values = k.values; prios = λ t. refl })
      (record { held = same_lists; apart = s.lists.apart }) s.sorted s.prios
  where
    same_lists : (q : Queue) → Links.Holds h (list_of (record v { nodes = h }) q) (qs q)
    same_lists ready_threads = Holds-Kept k (a ready_threads) (s.lists.held ready_threads)
    same_lists running_threads = Holds-Kept k (a running_threads) (s.lists.held running_threads)
    same_lists zombie_threads = Holds-Kept k (a zombie_threads) (s.lists.held zombie_threads)

-- Threads go on waiting when another one changes its state.
pub rest-AreWaiting :
    {v v' : Vm} {qs qs' : Queue → List ℕ} {l : Dlist} (p : ℕ) (ps : List ℕ) (st : ThreadState)
    → Links.Holds v.nodes l ps
    → IsFresh p ps
    → ((q : Queue) → AreApart ps (qs q))
    → AreBlocked v ps
    → Became v p st qs qs' v'
    → AreWaiting v' qs' l ps
rest-AreWaiting {v} {v'} {qs} {qs'} {l} p ps st k f a b became = record {
  pending = record {
    linked = AreLinked-agree v.nodes v'.nodes none ps none agree k.linked;
    distinct = k.distinct;
    head = k.head;
    tail = k.tail;
  };
  apart = λ q m. elim (ℕ_discrete m p) [
    | yes e ↦ inl (rw e f)
    | no n ↦ elim (every-IsFresh qs ps m a) [ inl g ↦ inl g | inr g ↦ inr (became.stays m n g q) ]
  ];
  asleep =
      AreBlocked-agree v v' p ps f (λ u d. ap (λ x. x.state) (became.others u d))
        became.agree.values b;
}
  where
    agree : (m : ℕ) → (IsFresh m ps → ⊥) → v'.nodes m ≡ v.nodes m
    agree m inside = elim (ℕ_discrete m p) [
      | yes e ↦ absurd (inside (rw e f))
      | no n ↦ elim (every-IsFresh qs ps m a) [
        | inl g ↦ absurd (inside g)
        | inr g ↦ became.outside m n g
      ]
    ]
