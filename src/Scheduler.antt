-- ===== src/Scheduler.antt =====
-- The scheduler of src/vm/vm.c: `_sched_idle` and `_sched_rr` (lines 1314 to 1399), `vm_kill_thread`
-- (924 to 948), and `vm_schedule_cycle` with its collector (1408 to 1474).
pub mod Choice
pub mod Collector
use tinyaml.Prelude.{
  ℕ, zero, suc, ◌+◌, ◌-◌, ◌%◌, ◌^◌, Bool, true, false, Option, none, some, List, [], ◌∷◌, leb, ltb,
  ◌==◌, not, if◌then◌else◌, ◌&&◌, ◌||◌,
}
use tinyaml.Prelude.{Run, ok, trap, ◌>>=◌, ◌>>◌, require, Trap}
use tinyaml.Gstack.{word, biased}
use tinyaml.Dlist.{same_node}
use tinyaml.Objects.{Objects, Entry, deref_ptr, forget}
use tinyaml.Objects.Free.{Body, free_body}
use tinyaml.Machine.{deref_stack}
use tinyaml.Threads.{Vm, Thread, ThreadState, Mutex, set_thread, thread_set_state, mutex_unlock}
use tinyaml.Exec.{is_dying}
use tinyaml.Threads.ThreadState.{blocked, ready, running, dying, zombie, state_max}

unfoldable pub is_running : ThreadState → Bool
is_running running = true
is_running blocked = false
is_running ready = false
is_running dying = false
is_running zombie = false
is_running state_max = false

-- The value of the node at the head of a list.
unfoldable pub first : Vm → Option ℕ → Option ℕ
first v none = none
first v (some n) = some (v.nodes n).value

-- The thread behind `t` in its list, or the first running one.
unfoldable pub next_running : Vm → ℕ → Option ℕ
unfolding first
next_running v t = elim (v.nodes t).next [
  | some n ↦ some (v.nodes n).value
  | none ↦ first v v.running_list.head
]

-- The thread that `_sched_rr` first settles on.
unfoldable pub settle : Vm → Option ℕ → Option ℕ
unfolding next_running is_running first
settle v none = first v v.running_list.head
settle v (some t) =
    if is_running (v.threads t).state then next_running v t else first v v.running_list.head

-- The first ready thread takes over when no other runs, or none of a higher priority.
unfoldable pub takes_over : Vm → Option ℕ → ℕ → Bool
takes_over v none tb = true
takes_over v (some t) tb = leb (biased (v.threads t).prio) (biased (v.threads tb).prio)

unfoldable pub contend_with : Option ℕ → Vm → Option ℕ → Run (Vm × Option ℕ)
unfolding takes_over
contend_with none v current = ok (v, current)
contend_with (some tb) v current =
    if takes_over v current tb
    then (thread_set_state 0 (record v { current = some tb }) tb running >>= λ v. ok (v, some tb))
    else ok (v, current)

unfoldable pub contend : Vm → Option ℕ → Run (Vm × Option ℕ)
unfolding contend_with first
contend v current = contend_with (first v v.ready_list.head) v current

-- A thread starts a new slice.
unfoldable pub start_slice : Vm → Option ℕ → Vm
unfolding set_thread
start_slice v none = record v { current = none }
start_slice v (some t) = record v {
  current = some t;
  threads = set_thread v.threads t (record (v.threads t) { remaining = v.timeslice });
}

-- Whether the current thread keeps the processor; `critical` is the test of its `exec_flags`.
unfoldable pub keeps : (ℕ → Bool) → Vm → ℕ → Bool
unfolding is_running
keeps critical v t =
    is_running (v.threads t).state && (ltb (2 ^ 63) (biased (v.threads t).remaining) || critical t)

-- `_sched_rr`, from `vm->current_thread`.
unfoldable pub sched_rr_from : (ℕ → Bool) → Vm → Option ℕ → Run (Vm × Option ℕ)
unfolding keeps settle contend start_slice
sched_rr_from critical v none = do r ← contend v (settle v none); ok (start_slice (r.0) (r.1), r.1)
sched_rr_from critical v (some t) =
    if keeps critical v t
    then ok (v, some t)
    else (contend v (settle v (some t)) >>= λ r. ok (start_slice (r.0) (r.1), r.1))

unfoldable pub sched_rr : (ℕ → Bool) → Vm → Run (Vm × Option ℕ)
unfolding sched_rr_from
sched_rr critical v = sched_rr_from critical v v.current

-- `scheduler_algorithm_t`
pub data Algorithm : Type 0 where
  idle mono_thread round_robin : Algorithm

-- `schedulers[vm->scheduler](vm)`: the table has `_sched_rr` for one thread as well as for many.
unfoldable pub schedule : Algorithm → (ℕ → Bool) → Vm → Run (Vm × Option ℕ)
unfolding sched_rr
schedule idle critical v = ok (v, none)
schedule mono_thread critical v = sched_rr critical v
schedule round_robin critical v = sched_rr critical v

-- The machine that is scheduled: its threads and objects, what the objects hold, the stacks and
-- mutexes, the number of threads, and how often the engine's client lock is held.
pub record State : Type 0 where
  pub vm : Vm
  pub objects : Objects
  pub bodies : ℕ → Body
  pub locals : ℕ → List Entry
  pub stacks : ℕ → List Entry
  pub join_mutex : ℕ → Mutex
  pub threads_count : ℕ
  pub scheduler : Algorithm
  pub lock_depth : ℕ
  pub cycles : ℕ

-- The end of `vm_kill_thread`: the scheduler for the threads that are left. The lock is released when
-- there is one, or none.
unfoldable pub after_kill : State → State
after_kill s =
    if s.threads_count == 1
    then record s { scheduler = mono_thread; lock_depth = s.lock_depth - 1 }
    else if s.threads_count == 0
    then record s { scheduler = idle; lock_depth = s.lock_depth - 1 }
    else s

-- The calls of `vm_kill_thread` on the thread, with fuel for those that wait for its end: the threads,
-- the objects and the mutex. The second reference that is given back is the one of
-- `thread_set_state`.
unfoldable pub end_thread : ℕ → State → ℕ → Run (Vm × Objects × Mutex)
end_thread fuel s t = do
  let v = if same_node s.vm.current (some t) then record (s.vm) { current = none } else s.vm
  h ← deref_ptr s.objects t
  v ← thread_set_state fuel v t zombie
  h ← deref_ptr h t
  h ← deref_stack (s.locals t) h
  h ← deref_stack (s.stacks t) h
  r ← mutex_unlock fuel v (s.join_mutex t) (some t)
  ok (r.1, h, r.2)

-- The machine after these, with one thread less and the client lock taken.
unfoldable pub killed : State → ℕ → Vm × Objects × Mutex → State
killed s t r = record s {
  vm = r.0;
  objects = r.1;
  join_mutex = λ u. if t == u then r.2 else s.join_mutex u;
  threads_count = (s.threads_count + word - 1) % word;
  lock_depth = s.lock_depth + 1;
}

-- `vm_kill_thread`
unfoldable pub kill_thread : ℕ → State → ℕ → Run State
unfolding end_thread after_kill killed
kill_thread fuel s t = end_thread fuel s t >>= λ r. ok (after_kill (killed s t r))

-- The last node of `gc_pending` is taken off: the object, and the others.
unfoldable pub split_last : List ℕ → Option (ℕ × List ℕ)
split_last [] = none
split_last (o ∷ []) = some (o, [])
split_last (o ∷ p ∷ ps) = elim (split_last (p ∷ ps)) [
  | none ↦ none
  | some (q, qs) ↦ some (q, o ∷ qs)
]

-- The incremental finalization of `vm_schedule_cycle`: the object that waits longest is freed by
-- `vm_obj_free_obj`, which calls its `_free`; a free of what is no object only prints.
unfoldable pub collect_last : (ℕ → Body) → Objects → Option (ℕ × List ℕ) → Run Objects
unfolding free_body
collect_last bodies h none = ok h
collect_last bodies h (some (o, ps)) = do
  require Trap.assert_failed (h.ref_count o == 0)
  let h' = record h { gc_pending = ps }
  if h.is_object o then (free_body (bodies o) h' >>= λ h''. ok (forget h'' o)) else ok h'

unfoldable pub collect_one : (ℕ → Body) → Objects → Run Objects
unfolding split_last collect_last
collect_one bodies h = collect_last bodies h (split_last h.gc_pending)

-- `current->remaining -= 1`
unfoldable pub spend : Vm → ℕ → Vm
unfolding set_thread
spend v t = record v {
  threads =
      set_thread v.threads t
        (record (v.threads t) { remaining = ((v.threads t).remaining + word - 1) % word });
}

-- `vm_schedule_cycle`, with what an instruction does. The walk over the zombie threads, which only
-- asserts that they are objects, is left out, and so is that `thread_deinit` takes a zombie that is
-- freed out of their list.
unfoldable pub schedule_cycle :
    ℕ → (ℕ → Bool) → (ℕ → State → Run (State × ThreadState)) → State → Run State
unfolding schedule kill_thread collect_one spend
schedule_cycle fuel critical exec s = do
  let s = record s { lock_depth = s.lock_depth + 1 }
  r ← schedule s.scheduler critical s.vm
  s ← elim (r.1) [
    | none ↦ ok (record s { vm = r.0 })
    | some t ↦ do
      q ← exec t (record s { vm = spend (r.0) t })
      s ←
          if is_dying (q.1) && not (same_node (q.0).vm.current none)
          then kill_thread fuel (q.0) t
          else ok (q.0)
      h ← collect_one s.bodies s.objects
      ok (record s { objects = h; cycles = s.cycles + 1 })
  ]
  ok (record s { lock_depth = s.lock_depth - 1 })
