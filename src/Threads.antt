-- ===== src/Threads.antt =====
-- src/vm/thread.c with include/thread.h, and `comp_prio` of src/vm/vm.c: the states of threads, the
-- lists that the scheduler keeps of them, and mutexes. A thread is the address of its list node.
pub mod Queues
pub mod Order
pub mod States
pub mod Steps
pub mod Transition
pub mod Pending
pub mod Wake
pub mod Mutexes
pub mod Blocking
use tinyaml.Prelude.{
  ℕ, zero, suc, ◌+◌, ◌-◌, ◌%◌, ◌^◌, Bool, true, false, Option, none, some, List, [], ◌∷◌, leb, ltb,
  ◌==◌, not, if◌then◌else◌, ◌&&◌,
}
use tinyaml.Prelude.{Run, ok, trap, ◌>>=◌, ◌>>◌, require, expect, Trap}
use tinyaml.Gstack.{biased}
use tinyaml.Dlist
use tinyaml.Dlist.{
  Node, Store, Dlist, same_node, set_prev, node, insert_tail_node, insert_sorted, remove_no_free,
}

-- `thread_state_t`
pub data ThreadState : Type 0 where
  blocked ready running dying zombie state_max : ThreadState

-- The fields of `struct _thread_t` that scheduling uses; the node `sched_data` is in the store.
pub record Thread : Type 0 where
  pub state : ThreadState
  pub sync : Bool
  pub prio : ℕ
  pub remaining : ℕ

-- The calls that leave these files: `_fg_thread_start_cb` and `_fg_thread_done_cb` of the engine, and
-- `vm_obj_deref_ptr`.
pub data Event : Type 0 where
  start_cb done_cb deref : ℕ → Event

-- The lists of `struct _vm_t` that threads stand in.
pub data Queue : Type 0 where
  ready_threads running_threads zombie_threads : Queue

-- The fields of `struct _vm_t` that scheduling uses, the threads, the memory of the nodes, and the
-- calls so far, the latest first.
pub record Vm : Type 0 where
  pub threads : ℕ → Thread
  pub nodes : Store
  pub ready_list : Dlist
  pub running_list : Dlist
  pub zombie_list : Dlist
  pub current : Option ℕ
  pub timeslice : ℕ
  pub log : List Event

unfoldable pub list_of : Vm → Queue → Dlist
list_of v Queue.ready_threads = v.ready_list
list_of v Queue.running_threads = v.running_list
list_of v Queue.zombie_threads = v.zombie_list

-- The machine with other nodes and another list.
unfoldable pub with_list : Vm → Queue → Store → Dlist → Vm
with_list v Queue.ready_threads h l = record v { nodes = h; ready_list = l }
with_list v Queue.running_threads h l = record v { nodes = h; running_list = l }
with_list v Queue.zombie_threads h l = record v { nodes = h; zombie_list = l }

unfoldable pub set_thread : (ℕ → Thread) → ℕ → Thread → ℕ → Thread
set_thread ts t x u = if t == u then x else ts u

-- `comp_prio(a, b) < 0`: the difference of the priorities, of `b` less that of `a`, as a `long`.
unfoldable pub comp_prio : Vm → ℕ → ℕ → Bool
comp_prio v a b =
    let x = (v.threads ((v.nodes a).value)).prio in
    let y = (v.threads ((v.nodes b).value)).prio in leb (2 ^ 63) ((y + 2 ^ 64 - x) % 2 ^ 64)

unfoldable pub remove_from : Vm → Queue → ℕ → Run Vm
remove_from v q t = remove_no_free v.nodes (list_of v q) t >>= λ (h, l). ok (with_list v q h l)

-- The first `switch` of `thread_set_state`: what leaving the state comes to.
unfoldable pub leave : Vm → ℕ → Run Vm
unfolding remove_from
leave v t = elim (v.threads t).state [
  | blocked ↦ ok v
  | ready ↦ remove_from v Queue.ready_threads t
  | running ↦ remove_from v Queue.running_threads t
  | dying ↦ ok v
  | zombie ↦ ok v
  | state_max ↦ ok (if (v.threads t).sync then record v { log = Event.start_cb t ∷ v.log } else v)
]

-- `dlist_insert_tail_node` and `dlist_insert_sorted` on the lists of the machine.
unfoldable pub add_last : Vm → Queue → ℕ → Run Vm
add_last v q t = insert_tail_node v.nodes (list_of v q) t >>= λ (h, l). ok (with_list v q h l)

unfoldable pub add_sorted : ℕ → Vm → Queue → ℕ → Run Vm
unfolding comp_prio
add_sorted fuel v q t =
    insert_sorted (comp_prio v) fuel v.nodes (list_of v q) t >>= λ (h, l). ok (with_list v q h l)

-- The second `switch` of `thread_set_state`.
unfoldable pub join : ℕ → Vm → ℕ → ThreadState → Run Vm
unfolding add_last add_sorted set_thread
join fuel v t blocked = ok v
join fuel v t ready = add_sorted fuel v Queue.ready_threads t
join fuel v t running =
    add_last
      (record v {
        threads = set_thread v.threads t (record (v.threads t) { remaining = v.timeslice });
      })
      Queue.running_threads t
join fuel v t dying = ok v
join fuel v t zombie = do
  v ← add_last v Queue.zombie_threads t
  let v = if (v.threads t).sync then record v { log = Event.done_cb t ∷ v.log } else v
  ok (record v { log = Event.deref t ∷ v.log })
join fuel v t state_max = ok v

-- `thread_set_state`, with fuel for the loop of the sorted insertion.
unfoldable pub thread_set_state : ℕ → Vm → ℕ → ThreadState → Run Vm
unfolding leave join
thread_set_state fuel v t state = do
  require Trap.assert_failed ((v.nodes t).value == t)
  v ← leave v t
  join fuel (record v { threads = set_thread v.threads t (record (v.threads t) { state = state }) })
      t state

-- `struct _mutex_t`
pub record Mutex : Type 0 where
  pub pending : Dlist
  pub count : ℕ
  pub owner : Option ℕ

-- `mutex_init`
unfoldable pub mutex_init : Mutex
mutex_init = record { pending = Dlist.init; count = 0; owner = none }

-- `mutex_lock`; the Boolean is what it returns.
unfoldable pub mutex_lock : ℕ → Vm → Mutex → Option ℕ → Run (Bool × Vm × Mutex)
mutex_lock fuel v m thread = do
  let m = if same_node m.owner none then record m { owner = thread } else m
  t ← expect Trap.assert_failed thread
  if same_node m.owner thread then ok (true, v, record m { count = m.count + 1 }) else (do
    v ← thread_set_state fuel v t blocked
    let v = record v { current = none }
    r ← insert_sorted (comp_prio v) fuel v.nodes m.pending t
    ok (false, record v { nodes = r.0 }, record m { pending = r.1 }))

-- `mutex_unlock` on the first pending node: it is taken out of the list.
unfoldable pub unlink_first : Store → Dlist → ℕ → Store × Dlist
unlink_first h l dn = (
  elim (h dn).next [ none ↦ h | some b ↦ set_prev h b none ],
  record { head = (h dn).next; tail = elim (h dn).next [ none ↦ none | some _ ↦ l.tail ] },
)

-- `if(pending->prio>=t->prio) { t->remaining=0; }`
unfoldable pub yield_to : Vm → ℕ → ℕ → Vm
yield_to v t p =
    if leb (biased (v.threads t).prio) (biased (v.threads p).prio)
    then record v { threads = set_thread v.threads t (record (v.threads t) { remaining = 0 }) }
    else v

-- The loop of `mutex_unlock`: every pending thread is made ready.
unfoldable pub release : ℕ → Vm → Mutex → Option ℕ → Run (Vm × Mutex)
unfolding unlink_first yield_to
release zero v m thread = trap Trap.out_of_fuel
release (suc fuel) v m thread = elim m.pending.head [
  | none ↦ ok (v, m)
  | some dn ↦ do
    let pending = (v.nodes dn).value
    let (h, l) = unlink_first v.nodes m.pending dn
    v ← thread_set_state fuel (record v { nodes = h }) pending ready
    t ← node thread
    release fuel (yield_to v t pending) (record m { pending = l }) thread
]

-- `mutex_unlock`, with the count that it returns. A failed `_vm_assert_fail` does not return.
unfoldable pub mutex_unlock : ℕ → Vm → Mutex → Option ℕ → Run (ℕ × Vm × Mutex)
unfolding release
mutex_unlock fuel v m thread = do
  require Trap.assert_failed (same_node m.owner thread)
  let m = record m { count = m.count - 1 }
  if not (same_node m.owner none) && not (m.count == 0)
      then ok (m.count, v, m)
      else (release fuel v (record m { owner = none }) thread >>= λ (v, m). ok (m.count, v, m))
