-- ===== src/Threads/Steps.antt =====
-- The lists of the machine as an invariant, and what keeps it: the parts of `thread_set_state` of
-- src/vm/thread.c change one thread and one list.
use native.Mathlib.Decide.{ℕ_discrete}
use tinyaml.Prelude.{
  ℕ, ◌^◌, ◌<◌, ◌≡◌, ◌≢◌, refl, Bool, true, false, Option, List, [], ◌∷◌, ◌++◌, ap, sym, ◌∙◌,
  if◌then◌else◌,
}
use tinyaml.Dlist.{Store, Dlist}
use tinyaml.Dlist.Links.{IsFresh, Holds, ne-==, self-==}
use tinyaml.Dlist.Seek.{place}
use tinyaml.Dlist.Sorted.{IsOrdered}
use tinyaml.Threads.{
  Vm, Thread, ThreadState, Queue, Event, list_of, with_list, comp_prio, set_thread,
}
use tinyaml.Threads.ThreadState.{blocked, ready, running, dying, zombie, state_max}
use tinyaml.Threads.Queue.{ready_threads, running_threads, zombie_threads}
use tinyaml.Threads.Queues.{AreHeld, put, with_list_threads, with_list_nodes}
use tinyaml.Threads.Order.{IsOrdered-agree}
use tinyaml.Threads.States.{Changed}

-- The lists hold the threads `qs`, the ready ones by priority, and priorities are from 0 to 2 ^ 63 - 1.
pub record IsSched (v : Vm) (qs : Queue → List ℕ) : Type 0 where
  pub lists : AreHeld v qs
  pub sorted : IsOrdered (comp_prio v) (qs ready_threads)
  pub prios : (t : ℕ) → (v.threads t).prio < 2 ^ 63

-- Where a thread in a state stands: a ready or running one in the list of that name, others in none.
-- A zombie never leaves its state.
abbrev pub StandsFor : (Queue → List ℕ) → ℕ → ThreadState → Type 0
StandsFor qs t blocked = (p : Queue) → IsFresh t (qs p)
StandsFor qs t ready = (xs ys : List ℕ) × (qs ready_threads ≡ xs ++ (t ∷ ys))
StandsFor qs t running = (xs ys : List ℕ) × (qs running_threads ≡ xs ++ (t ∷ ys))
StandsFor qs t dying = (p : Queue) → IsFresh t (qs p)
StandsFor qs t zombie = ⊥
StandsFor qs t state_max = (p : Queue) → IsFresh t (qs p)

-- The lists after a thread left its state, and after it came to one.
abbrev pub left :
    (qs : Queue → List ℕ) (t : ℕ) (s : ThreadState) → StandsFor qs t s → Queue → List ℕ
left qs t blocked w = qs
left qs t ready (xs, ys, e) = put qs ready_threads (xs ++ ys)
left qs t running (xs, ys, e) = put qs running_threads (xs ++ ys)
left qs t dying w = qs
left qs t zombie w = qs
left qs t state_max w = qs

abbrev pub joined : (ℕ → ℕ → Bool) → (Queue → List ℕ) → ℕ → ThreadState → Queue → List ℕ
joined before qs t blocked = qs
joined before qs t ready = put qs ready_threads (place before t (qs ready_threads))
joined before qs t running = put qs running_threads (qs running_threads ++ (t ∷ []))
joined before qs t dying = qs
joined before qs t zombie = put qs zombie_threads (qs zombie_threads ++ (t ∷ []))
joined before qs t state_max = qs

-- The machines agree on the values of nodes, and on the priorities of threads.
pub record Agree (v v' : Vm) : Type 0 where
  pub values : (m : ℕ) → (v'.nodes m).value ≡ (v.nodes m).value
  pub prios : (t : ℕ) → (v'.threads t).prio ≡ (v.threads t).prio

pub comp_prio-Agree : {v v' : Vm} → Agree v v' → (a b : ℕ) → comp_prio v' a b ≡ comp_prio v a b
unfolding comp_prio
comp_prio-Agree {v} {v'} g a b =
    rw (g.values a, g.values b, g.prios ((v.nodes a).value), g.prios ((v.nodes b).value))

pub IsSched-Agree :
    {v v' : Vm} {qs : Queue → List ℕ}
    → Agree v v'
    → AreHeld v' qs
    → IsOrdered (comp_prio v) (qs ready_threads)
    → ((t : ℕ) → (v.threads t).prio < 2 ^ 63)
    → IsSched v' qs
IsSched-Agree {v} {v'} {qs} g a s small = record {
  lists = a;
  sorted = IsOrdered-agree (comp_prio v) (comp_prio v') (comp_prio-Agree g) (qs ready_threads) s;
  prios = λ t. rw (g.prios t) (small t);
}

-- Other threads, another current thread or log, on the same lists.
AreHeld-fields :
    {v : Vm} {qs : Queue → List ℕ} (ts : ℕ → Thread) (c : Option ℕ) (es : List Event)
    → AreHeld v qs
    → AreHeld (record v { threads = ts; current = c; log = es }) qs
unfolding list_of
AreHeld-fields {v} {qs} ts c es a = record { held = same_lists; apart = a.apart }
  where
    same_lists :
        (q : Queue)
        → Holds v.nodes (list_of (record v { threads = ts; current = c; log = es }) q) (qs q)
    same_lists ready_threads = a.held ready_threads
    same_lists running_threads = a.held running_threads
    same_lists zombie_threads = a.held zombie_threads

-- Other threads of the same priorities, and another log.
pub IsSched-fields :
    {v : Vm} {qs : Queue → List ℕ} (ts : ℕ → Thread) (es : List Event)
    → ((t : ℕ) → (ts t).prio ≡ (v.threads t).prio)
    → IsSched v qs
    → IsSched (record v { threads = ts; log = es }) qs
IsSched-fields {v} ts es e s =
    IsSched-Agree (record { values = λ m. refl; prios = e })
      (AreHeld-fields ts v.current es s.lists) s.sorted s.prios

pub IsSched-current :
    {v : Vm} {qs : Queue → List ℕ} (c : Option ℕ)
    → IsSched v qs
    → IsSched (record v { current = c }) qs
IsSched-current {v} c s =
    IsSched-Agree (record { values = λ m. refl; prios = λ t. refl })
      (AreHeld-fields v.threads c v.log s.lists) s.sorted s.prios

with_list-Agree :
    (v : Vm) (q : Queue) (h : Store) (l : Dlist)
    → ((m : ℕ) → (h m).value ≡ (v.nodes m).value)
    → Agree v (with_list v q h l)
with_list-Agree v q h l e = record {
  values = λ m. ap (λ n. (n m).value) (with_list_nodes v q h l) ∙ e m;
  prios = λ t. ap (λ ts. (ts t).prio) (with_list_threads v q h l);
}

-- What `thread_set_state` has done of its work, the lists having held `os`: no thread but `t` changed,
-- no node but that and those of the lists, and none but that came in.
pub record Step (v : Vm) (t : ℕ) (os qs : Queue → List ℕ) (v' : Vm) : Type 0 where
  pub sched : IsSched v' qs
  pub agree : Agree v v'
  pub state : (v'.threads t).state ≡ (v.threads t).state
  pub others : (u : ℕ) → u ≢ t → v'.threads u ≡ v.threads u
  pub outside : (m : ℕ) → m ≢ t → ((p : Queue) → IsFresh m (os p)) → v'.nodes m ≡ v.nodes m
  pub stays : (m : ℕ) → m ≢ t → ((p : Queue) → IsFresh m (os p)) → (p : Queue) → IsFresh m (qs p)

pub Step-then :
    {v v' v'' : Vm} {t : ℕ} {os qs ps : Queue → List ℕ}
    → Step v t os qs v'
    → Step v' t qs ps v''
    → Step v t os ps v''
Step-then a b = record {
  sched = b.sched;
  agree = record {
    values = λ m. b.agree.values m ∙ a.agree.values m;
    prios = λ u. b.agree.prios u ∙ a.agree.prios u;
  };
  state = b.state ∙ a.state;
  others = λ u d. b.others u d ∙ a.others u d;
  outside = λ m d f. b.outside m d (a.stays m d f) ∙ a.outside m d f;
  stays = λ m d f. b.stays m d (a.stays m d f);
}

pub set_thread_self : (ts : ℕ → Thread) (t : ℕ) (x : Thread) → set_thread ts t x t ≡ x
unfolding set_thread
set_thread_self ts t x = rw (self-== t)

pub set_thread_other :
    (ts : ℕ → Thread) (t : ℕ) (x : Thread) (u : ℕ) → u ≢ t → set_thread ts t x u ≡ ts u
unfolding set_thread
set_thread_other ts t x u d = rw (ne-== t u (λ e. d (sym e)))

pub set_thread_prio :
    (ts : ℕ → Thread) (t : ℕ) (x : Thread)
    → x.prio ≡ (ts t).prio
    → (u : ℕ) → (set_thread ts t x u).prio ≡ (ts u).prio
set_thread_prio ts t x e u = elim (ℕ_discrete t u) [
  | yes k ↦
      ap (λ w. (set_thread ts t x w).prio) (sym k)
      ∙ ap (λ y. y.prio) (set_thread_self ts t x)
      ∙ e
      ∙ ap (λ w. (ts w).prio) k
  | no d ↦ ap (λ y. y.prio) (set_thread_other ts t x u (λ k. d (sym k)))
]

pub remaining-Step :
    {v : Vm} {qs : Queue → List ℕ} (t r : ℕ)
    → IsSched v qs
    → Step v t qs qs
        (record v { threads = set_thread v.threads t (record (v.threads t) { remaining = r }) })
remaining-Step {v} t r s =
    let x = record (v.threads t) { remaining = r } in
    record {
      sched =
          IsSched-fields (set_thread v.threads t x) v.log (set_thread_prio v.threads t x refl) s;
      agree = record { values = λ m. refl; prios = set_thread_prio v.threads t x refl };
      state = ap (λ y. y.state) (set_thread_self v.threads t x);
      others = set_thread_other v.threads t x;
      outside = λ m d f. refl;
      stays = λ m d f. f;
    }

pub Changed-Step :
    {v : Vm} {qs : Queue → List ℕ} (q : Queue) (t : ℕ) {h : Store} {l : Dlist} {ps : Queue → List ℕ}
    → IsSched v qs
    → Changed v q t qs ps h l
    → IsOrdered (comp_prio v) (ps ready_threads)
    → Step v t qs ps (with_list v q h l)
Changed-Step {v} {qs} q t {h} {l} {ps} s c sorted = record {
  sched = IsSched-Agree (with_list-Agree v q h l c.values) c.lists sorted s.prios;
  agree = with_list-Agree v q h l c.values;
  state = ap (λ ts. (ts t).state) (with_list_threads v q h l);
  others = λ u d. ap (λ ts. ts u) (with_list_threads v q h l);
  outside = λ m d f. ap (λ n. n m) (with_list_nodes v q h l) ∙ c.outside m d (f q);
  stays = c.stays;
}

pub log-Step :
    {v : Vm} {qs : Queue → List ℕ} (t : ℕ) (b : Bool) (es : List Event)
    → IsSched v qs
    → Step v t qs qs (if b then record v { log = es } else v)
log-Step {v} t true es s = record {
  sched = IsSched-fields v.threads es (λ u. refl) s;
  agree = record { values = λ m. refl; prios = λ u. refl };
  state = refl;
  others = λ u d. refl;
  outside = λ m d f. refl;
  stays = λ m d f. f;
}
log-Step t false es s = record {
  sched = s;
  agree = record { values = λ m. refl; prios = λ u. refl };
  state = refl;
  others = λ u d. refl;
  outside = λ m d f. refl;
  stays = λ m d f. f;
}
