-- ===== src/Tests/Sched.antt =====
-- Runs of the models of include/list.h and src/vm/thread.c, and their theorems at concrete inputs.
use tinyaml.Prelude.{
  ℕ, ◌≡◌, ◌≢◌, ◌^◌, ◌<◌, refl, arith, false, none, some, List, [], ◌∷◌, ◌==◌, if◌then◌else◌,
}
use tinyaml.Prelude.{ok, ◌⊎◌, inl, inr}
use tinyaml.Dlist.{Store, Dlist, remove_no_free, insert_sorted}
use tinyaml.Dlist.Links.{IsFresh, Kept}
use tinyaml.Dlist.Links
use tinyaml.Dlist.Remove.{remove_no_free-Holds}
use tinyaml.Dlist.Seek.{place}
use tinyaml.Dlist.Sorted.{IsOrdered, insert_sorted-Holds}
use native.Mathlib.Decide.{ℕ_discrete}
use tinyaml.Threads.{Mutex, mutex_lock, mutex_unlock}
use tinyaml.Threads.Queue.{ready_threads}
use tinyaml.Threads.Queues.{put}
use tinyaml.Threads.Pending.{AreWaiting}
use tinyaml.Threads.Wake.{Woken}
use tinyaml.Threads.Mutexes.{mutex_unlock-Woken}
use tinyaml.Threads.Blocking.{mutex_lock-AreWaiting}
use tinyaml.Threads.{Vm, Thread, Queue, thread_set_state, comp_prio, list_of}
use tinyaml.Threads.ThreadState.{blocked, ready}
use tinyaml.Threads.Order.{comp_prio-IsOrder}
use tinyaml.Threads.Steps.{IsSched, joined}
use tinyaml.Threads.Transition.{thread_set_state-IsSched}

-- The nodes 1 and 2 in a list, and others in none.
abbrev nodes : Store
nodes m =
    if m == 1
    then record { prev = none; next = some 2; value = 1 }
    else if m == 2
    then record { prev = some 1; next = none; value = 2 }
    else record { prev = none; next = none; value = m }

abbrev pair : Dlist
pair = record { head = some 1; tail = some 2 }

pair-Holds : Links.Holds nodes pair (1 ∷ 2 ∷ [])
pair-Holds = record {
  linked = (refl, refl, (refl, refl, _));
  distinct = ((λ e. omega arith, _), (_, _));
  head = refl;
  tail = refl;
}

three_new : IsFresh 3 (1 ∷ 2 ∷ [])
three_new = (λ e. omega arith, (λ e. omega arith, _))

remove_no_free-Holds_example :
    (h : Store) × (l : Dlist) × (remove_no_free nodes pair 2 ≡ ok (h, l))
    × Links.Holds h l (1 ∷ [])
    × Kept nodes (1 ∷ 2 ∷ []) h
remove_no_free-Holds_example = remove_no_free-Holds 2 (1 ∷ []) [] pair-Holds

-- Threads 1 and 2 are ready, with priorities 50 and 30; the others are blocked, with priority 40.
abbrev threads : ℕ → Thread
threads t =
    if t == 1
    then record { state = ready; sync = false; prio = 50; remaining = 0 }
    else if t == 2
    then record { state = ready; sync = false; prio = 30; remaining = 0 }
    else record { state = blocked; sync = false; prio = 40; remaining = 0 }

abbrev machine : Vm
machine = record {
  threads = threads;
  nodes = nodes;
  ready_list = pair;
  running_list = record { head = none; tail = none };
  zombie_list = record { head = none; tail = none };
  current = none;
  timeslice = 100;
  log = [];
}

small_prios : (t : ℕ) → (machine.threads t).prio < 2 ^ 63
small_prios t = ground arith

by_prio : IsOrdered (comp_prio machine) (1 ∷ 2 ∷ [])
unfolding comp_prio
by_prio = (refl, _)

insert_sorted-Holds_example :
    ((h : Store) × (l : Dlist) × (insert_sorted (comp_prio machine) 5 nodes pair 3 ≡ ok (h, l))
      × Links.Holds h l (1 ∷ 3 ∷ 2 ∷ [])
      × Kept nodes (3 ∷ 1 ∷ 2 ∷ []) h)
    × IsOrdered (comp_prio machine) (1 ∷ 3 ∷ 2 ∷ [])
unfolding comp_prio place
insert_sorted-Holds_example =
    insert_sorted-Holds (comp_prio machine) 5 3 (1 ∷ 2 ∷ []) (comp_prio-IsOrder machine small_prios)
      pair-Holds three_new by_prio (omega arith)

abbrev queues : Queue → List ℕ
queues Queue.ready_threads = 1 ∷ 2 ∷ []
queues Queue.running_threads = []
queues Queue.zombie_threads = []

queues_held : (q : Queue) → Links.Holds nodes (list_of machine q) (queues q)
unfolding list_of
queues_held Queue.ready_threads = pair-Holds
queues_held Queue.running_threads = record { linked = _; distinct = _; head = refl; tail = refl }
queues_held Queue.zombie_threads = record { linked = _; distinct = _; head = refl; tail = refl }

queues_apart : (p q : Queue) → p ≢ q → (m : ℕ) → IsFresh m (queues p) ⊎ IsFresh m (queues q)
queues_apart Queue.ready_threads Queue.ready_threads d m = absurd (d refl)
queues_apart Queue.ready_threads Queue.running_threads d m = inr _
queues_apart Queue.ready_threads Queue.zombie_threads d m = inr _
queues_apart Queue.running_threads q d m = inl _
queues_apart Queue.zombie_threads q d m = inl _

machine-IsSched : IsSched machine queues
machine-IsSched = record {
  lists = record { held = queues_held; apart = queues_apart };
  sorted = by_prio;
  prios = small_prios;
}

three_nowhere : (q : Queue) → IsFresh 3 (queues q)
three_nowhere Queue.ready_threads = three_new
three_nowhere Queue.running_threads = _
three_nowhere Queue.zombie_threads = _

thread_set_state-IsSched_example :
    (v : Vm) × (thread_set_state 5 machine 3 ready ≡ ok v)
    × IsSched v (joined (comp_prio machine) queues 3 ready)
    × ((v.threads 3).state ≡ ready)
    × ((u : ℕ) → u ≢ 3 → v.threads u ≡ machine.threads u)
    × ((m : ℕ) → m ≢ 3 → ((p : Queue) → IsFresh m (queues p)) → v.nodes m ≡ machine.nodes m)
thread_set_state-IsSched_example =
    thread_set_state-IsSched 5 3 ready three_nowhere machine-IsSched refl (omega arith)

-- A mutex that thread 1 owns, and that thread 3 waits for.
abbrev mutex : Mutex
mutex = record { pending = record { head = some 3; tail = some 3 }; count = 1; owner = some 1 }

waiting_apart : (q : Queue) (m : ℕ) → IsFresh m (3 ∷ []) ⊎ IsFresh m (queues q)
waiting_apart q m = elim (ℕ_discrete m 3) [
  | yes e ↦ inr (rw e (three_nowhere q))
  | no n ↦ inl (n, _)
]

three_waits : AreWaiting machine queues mutex.pending (3 ∷ [])
three_waits = record {
  pending = record { linked = (refl, refl, _); distinct = (_, _); head = refl; tail = refl };
  apart = waiting_apart;
  asleep = (refl, refl, _);
}

mutex_unlock-Woken_example :
    (v : Vm) × (m : Mutex) × (qs : Queue → List ℕ) × (mutex_unlock 10 machine mutex (some 1)
      ≡ ok (0, v, m))
    × Woken machine queues (3 ∷ []) v qs
    × (m.pending.head ≡ none)
    × (m.count ≡ 0)
    × (m.owner ≡ none)
mutex_unlock-Woken_example =
    mutex_unlock-Woken (3 ∷ []) 10 1 mutex machine-IsSched three_waits refl refl (omega arith)

mutex_lock-AreWaiting_example :
    (v : Vm) × (m : Mutex) × (mutex_lock 10 machine mutex (some 2) ≡ ok (false, v, m))
    × IsSched v (put queues ready_threads (1 ∷ []))
    × AreWaiting v (put queues ready_threads (1 ∷ [])) m.pending (3 ∷ 2 ∷ [])
    × ((v.threads 2).state ≡ blocked)
    × (v.current ≡ none)
    × (m.owner ≡ some 1)
    × (m.count ≡ 1)
unfolding comp_prio place
mutex_lock-AreWaiting_example =
    mutex_lock-AreWaiting 10 2 mutex (3 ∷ []) 1 (1 ∷ [], [], refl) machine-IsSched three_waits _
      (λ e. omega arith, _) refl refl (λ e. omega arith) (omega arith) (omega arith)
