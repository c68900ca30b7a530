-- ===== src/Threads/Wake.antt =====
-- The loop of `mutex_unlock` of src/vm/thread.c, round by round: the first thread that waits is woken,
-- and the thread that unlocks gives way to it.
use native.Mathlib.Decide.{ℕ_discrete}
use tinyaml.Prelude.{
  ℕ, suc, ◌≡◌, ◌≤◌, refl, Bool, none, some, List, [], ◌∷◌, length, ap, sym, ◌∙◌, inl, inr, subst,
  Bool-cases, leb,
}
use tinyaml.Prelude.{ok}
use tinyaml.Gstack.{biased}
use tinyaml.Dlist.{Store, Dlist}
use tinyaml.Dlist.Links
use tinyaml.Dlist.Links.{IsFresh, Kept, relink_prev, set_prev_other, set_prev_value}
use tinyaml.Dlist.Seek.{place}
use tinyaml.Threads.{
  Vm, Mutex, Queue, ThreadState, comp_prio, thread_set_state, unlink_first, yield_to, release,
}
use tinyaml.Threads.ThreadState.{blocked, ready, running, dying, zombie, state_max}
use tinyaml.Threads.Queue.{ready_threads, running_threads, zombie_threads}
use tinyaml.Threads.Queues.{put}
use tinyaml.Threads.Steps.{IsSched, StandsFor, left, joined, Agree, comp_prio-Agree, remaining-Step}
use tinyaml.Threads.Transition.{Became, thread_set_state-Became}
use tinyaml.Threads.Pending.{
  AreBlocked, AreWaiting, first_nowhere, with_nodes-IsSched, rest-AreWaiting,
}

-- Taking the first node out of a list.
unlink_first-Holds :
    {h : Store} {l : Dlist} (p : ℕ) (ps : List ℕ)
    → Links.Holds h l (p ∷ ps)
    → Links.Holds (unlink_first h l p).0 (unlink_first h l p).1 ps
      × Kept h (p ∷ ps) (unlink_first h l p).0
unfolding unlink_first
unlink_first-Holds p [] k = rw k.linked.1 (
  record { linked = _; distinct = _; head = refl; tail = refl },
  record { same = λ m f. refl; values = λ m. refl },
)
unlink_first-Holds {h} p (q ∷ ps) k = rw k.linked.1 (
  record {
    linked = relink_prev h (some p) none q ps none k.distinct.1.0 k.linked.2;
    distinct = k.distinct.1;
    head = refl;
    tail = k.tail;
  },
  record { same = λ m f. set_prev_other h q m none f.1.0; values = set_prev_value h q none },
)

left_blocked :
    (qs : Queue → List ℕ) (p : ℕ) (st : ThreadState) (w : StandsFor qs p st)
    → st ≡ blocked
    → left qs p st w ≡ qs
left_blocked qs p blocked w e = refl
left_blocked qs p ready w e = cc
left_blocked qs p running w e = cc
left_blocked qs p dying w e = refl
left_blocked qs p zombie w e = refl
left_blocked qs p state_max w e = refl

AreBlocked-nodes :
    (v : Vm) (h : Store) (ps : List ℕ)
    → ((m : ℕ) → (h m).value ≡ (v.nodes m).value)
    → AreBlocked v ps
    → AreBlocked (record v { nodes = h }) ps
AreBlocked-nodes v h [] e b = _
AreBlocked-nodes v h (p ∷ ps) e b = (b.0, e p ∙ b.1, AreBlocked-nodes v h ps e b.2)

-- The machine when the first thread that waits was taken out of its list.
abbrev pub unlinked : Vm → Dlist → ℕ → Vm
unlinked v l p = record v { nodes = (unlink_first v.nodes l p).0 }

-- Waking the first thread that waits.
pub wake_one :
    {v : Vm} {qs : Queue → List ℕ} {l : Dlist} (fuel p : ℕ) (ps : List ℕ)
    → IsSched v qs
    → AreWaiting v qs l (p ∷ ps)
    → length (qs ready_threads) ≤ fuel
    → (v' : Vm) × (thread_set_state fuel (unlinked v l p) p ready ≡ ok v')
      × Became
          (unlinked v l p)
          p
          ready
          qs
          (put qs ready_threads (place (comp_prio v) p (qs ready_threads)))
          v'
      × AreWaiting v'
          (put qs ready_threads (place (comp_prio v) p (qs ready_threads)))
          (unlink_first v.nodes l p).1
          ps
      × Agree v v'
wake_one {v} {qs} {l} fuel p ps s a enough =
    let (held, kept) = unlink_first-Holds p ps a.pending in
    let w = unlinked v l p in
    let s' = with_nodes-IsSched (w.nodes) (p ∷ ps) s kept a.apart in
    let agree : Agree v w = record { values = kept.values; prios = λ t. refl } in
    let stands : StandsFor qs p (w.threads p).state =
      subst (StandsFor qs p) (sym a.asleep.0) (first_nowhere qs p ps a.apart) in
    let (v', done, b) =
      thread_set_state-Became {v = w} {qs = qs} fuel p ready stands s' (kept.values p ∙ a.asleep.1)
        enough in
    let order : comp_prio w ≡ comp_prio v = λ i x y. comp_prio-Agree agree x y i in
    let lists =
      ap (λ z. joined (comp_prio w) z p ready)
        (left_blocked qs p (w.threads p).state stands a.asleep.0)
      ∙ ap (λ f. joined f qs p ready) order in
    let b' = subst (λ z. Became w p ready qs z v') lists b in
    (
      v',
      done,
      b',
      rest-AreWaiting p ps ready held a.pending.distinct.0
          (λ q m. elim (a.apart q m) [ inl f ↦ inl f.1 | inr f ↦ inr f ])
          (AreBlocked-nodes v w.nodes ps kept.values a.asleep.2) b',
      record { values = λ m. b.agree.values m ∙ kept.values m; prios = b.agree.prios },
    )

-- The threads `ps` put among those of a list, one by one.
unfoldable pub wake : (ℕ → ℕ → Bool) → List ℕ → List ℕ → List ℕ
wake before [] xs = xs
wake before (p ∷ ps) xs = wake before ps (place before p xs)

abbrev pub AreReady : Vm → List ℕ → Type 0
AreReady v [] = Unit {0}
AreReady v (p ∷ ps) = ((v.threads p).state ≡ ready) × AreReady v ps

-- The machine when the threads `ps`, which waited, were woken.
pub record Woken (v : Vm) (qs : Queue → List ℕ) (ps : List ℕ) (v' : Vm) (qs' : Queue → List ℕ)
    : Type 0 where
  pub sched : IsSched v' qs'
  pub queued : qs' ready_threads ≡ wake (comp_prio v) ps (qs ready_threads)
  pub running_ones : qs' running_threads ≡ qs running_threads
  pub zombies : qs' zombie_threads ≡ qs zombie_threads
  pub awake : AreReady v' ps
  pub others : (u : ℕ) → IsFresh u ps → (v'.threads u).state ≡ (v.threads u).state

AreBlocked-threads :
    (v v' : Vm) (ps : List ℕ)
    → ((u : ℕ) → (v'.threads u).state ≡ (v.threads u).state)
    → v'.nodes ≡ v.nodes
    → AreBlocked v ps
    → AreBlocked v' ps
AreBlocked-threads v v' [] e n b = _
AreBlocked-threads v v' (p ∷ ps) e n b =
    (e p ∙ b.0, ap (λ h. (h p).value) n ∙ b.1, AreBlocked-threads v v' ps e n b.2)

-- Giving way changes no state, no node and no list.
pub record Yielded (v : Vm) (qs : Queue → List ℕ) (v' : Vm) : Type 0 where
  pub sched : IsSched v' qs
  pub states : (u : ℕ) → (v'.threads u).state ≡ (v.threads u).state
  pub nodes : v'.nodes ≡ v.nodes
  pub agree : Agree v v'

pub yield_to-Yielded :
    {v : Vm} {qs : Queue → List ℕ} (t p : ℕ) → IsSched v qs → Yielded v qs (yield_to v t p)
unfolding yield_to
yield_to-Yielded {v} {qs} t p s =
    elim (Bool-cases (leb (biased (v.threads t).prio) (biased (v.threads p).prio))) [
      | inl e ↦
          let step = remaining-Step t 0 s in
          rw e (record {
            sched = step.sched;
            states = λ u. elim (ℕ_discrete u t) [
              | yes k ↦ rw k step.state
              | no d ↦ ap (λ x. x.state) (step.others u d)
            ];
            nodes = refl;
            agree = step.agree;
          })
      | inr e ↦ rw e (record {
        sched = s;
        states = λ u. refl;
        nodes = refl;
        agree = record { values = λ m. refl; prios = λ u. refl };
      })
    ]

pub Yielded-AreWaiting :
    {v v' : Vm} {qs : Queue → List ℕ} {l : Dlist} {ps : List ℕ}
    → Yielded v qs v'
    → AreWaiting v qs l ps
    → AreWaiting v' qs l ps
Yielded-AreWaiting {v} {v'} {l = l} {ps = ps} y a = record {
  pending = subst (λ h. Links.Holds h l ps) (sym y.nodes) a.pending;
  apart = a.apart;
  asleep = AreBlocked-threads v v' ps y.states y.nodes a.asleep;
}

-- One round of the loop of `mutex_unlock`.
pub release_round :
    (fuel p t : ℕ) (v v' : Vm) (m : Mutex)
    → m.pending.head ≡ some p
    → (v.nodes p).value ≡ p
    → thread_set_state fuel (unlinked v m.pending p) p ready ≡ ok v'
    → release (suc fuel) v m (some t)
      ≡ release fuel
          (yield_to v' t p)
          (record m { pending = (unlink_first v.nodes m.pending p).1 })
          (some t)
unfolding release
release_round fuel p t v v' m hd val done = cc (hd, val, done)
