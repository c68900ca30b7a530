-- ===== src/Threads/Transition.antt =====
-- `thread_set_state` of src/vm/thread.c as a transition between the lists of the machine.
use tinyaml.Prelude.{
  ℕ, ◌≡◌, ◌≢◌, ◌≤◌, arith, refl, true, false, List, [], ◌∷◌, ◌++◌, ◌==◌, length, ap, ◌∙◌, subst,
  length-append, if◌then◌else◌,
}
use tinyaml.Prelude.{ok}
use tinyaml.Dlist.Links.{IsFresh, self-==}
use tinyaml.Dlist.Seek.{place}
use tinyaml.Dlist.Sorted.{IsOrdered}
use tinyaml.Threads.{
  Vm, ThreadState, Queue, Event, with_list, comp_prio, set_thread, leave, join, thread_set_state,
}
use tinyaml.Threads.ThreadState.{blocked, ready, running, dying, zombie, state_max}
use tinyaml.Threads.Queue.{ready_threads, running_threads, zombie_threads}
use tinyaml.Threads.Queues.{put_self, put_other}
use tinyaml.Threads.Order.{comp_prio-IsOrder, IsOrdered-remove}
use tinyaml.Threads.Steps.{
  IsSched, StandsFor, left, joined, Agree, comp_prio-Agree, IsSched-fields, Step, Step-then,
  set_thread_self, set_thread_other, set_thread_prio, remaining-Step, Changed-Step, log-Step,
}
use tinyaml.Threads.States.{remove_from-Changed, add_last-Changed, add_sorted-Changed}

-- Leaving a state takes the thread out of the list that it stands in.
pub leave-Step :
    {v : Vm} {qs : Queue → List ℕ} (t : ℕ) (st : ThreadState) (w : StandsFor qs t st)
    → (v.threads t).state ≡ st
    → IsSched v qs
    → (v' : Vm) × (leave v t ≡ ok v')
      × Step v t qs (left qs t st w) v'
      × ((p : Queue) → IsFresh t (left qs t st w p))
unfolding leave
leave-Step {v} t blocked w e s = (v, rw (e, leave), log-Step t false [] s, w)
leave-Step {v} {qs} t ready (xs, ys, f) e s =
    let (h, l, done, c, fresh) = remove_from-Changed s.lists ready_threads t xs ys f in
    let o = comp_prio-IsOrder v s.prios in
    let sorted =
      IsOrdered-remove (comp_prio v) o xs t ys (subst (IsOrdered (comp_prio v)) f s.sorted) in
    (
      with_list v ready_threads h l,
      rw (e, leave) done,
      Changed-Step ready_threads t s c (rw (put_self qs ready_threads (xs ++ ys)) sorted),
      fresh,
    )
leave-Step {v} {qs} t running (xs, ys, f) e s =
    let (h, l, done, c, fresh) = remove_from-Changed s.lists running_threads t xs ys f in
    let d : running_threads ≢ ready_threads = λ k. cc in
    (
      with_list v running_threads h l,
      rw (e, leave) done,
      Changed-Step running_threads t s c
          (rw (put_other qs running_threads ready_threads (xs ++ ys) d) s.sorted),
      fresh,
    )
leave-Step {v} t dying w e s = (v, rw (e, leave), log-Step t false [] s, w)
leave-Step {v} t zombie w e s = absurd w
leave-Step {v} t state_max w e s = (
  if (v.threads t).sync then record v { log = Event.start_cb t ∷ v.log } else v,
  rw (e, leave),
  log-Step t (v.threads t).sync (Event.start_cb t ∷ v.log) s,
  w,
)

-- Coming to a state puts the thread in the list of that state.
join-Step :
    {v : Vm} {qs : Queue → List ℕ} (fuel t : ℕ) (st : ThreadState)
    → IsSched v qs
    → ((p : Queue) → IsFresh t (qs p))
    → length (qs ready_threads) ≤ fuel
    → (v' : Vm) × (join fuel v t st ≡ ok v') × Step v t qs (joined (comp_prio v) qs t st) v'
unfolding join
join-Step {v} fuel t blocked s new enough = (v, refl, log-Step t false [] s)
join-Step {v} {qs} fuel t ready s new enough =
    let (h, l, done, c, sorted) =
      add_sorted-Changed s.lists ready_threads t new fuel (comp_prio-IsOrder v s.prios) s.sorted
        enough in
    (
      with_list v ready_threads h l,
      done,
      Changed-Step ready_threads t s c
          (rw (put_self qs ready_threads (place (comp_prio v) t (qs ready_threads))) sorted),
    )
join-Step {v} {qs} fuel t running s new enough =
    let first = remaining-Step t v.timeslice s in
    let (h, l, done, c) = add_last-Changed first.sched.lists running_threads t new in
    let d : running_threads ≢ ready_threads = λ k. cc in
    (
      _,
      done,
      Step-then first (
          Changed-Step running_threads t first.sched c (
            rw (put_other qs running_threads ready_threads (qs running_threads ++ (t ∷ [])) d)
              first.sched.sorted)),
    )
join-Step {v} fuel t dying s new enough = (v, refl, log-Step t false [] s)
join-Step {v} {qs} fuel t zombie s new enough =
    let (h, l, done, c) = add_last-Changed s.lists zombie_threads t new in
    let d : zombie_threads ≢ ready_threads = λ k. cc in
    let w = with_list v zombie_threads h l in
    let first =
      Changed-Step zombie_threads t s c (
        rw (put_other qs zombie_threads ready_threads (qs zombie_threads ++ (t ∷ [])) d)
          s.sorted) in
    let second = log-Step t ((w.threads t).sync) (Event.done_cb t ∷ w.log) first.sched in
    let w' = if (w.threads t).sync then record w { log = Event.done_cb t ∷ w.log } else w in
    (
      record w' { log = Event.deref t ∷ w'.log },
      rw done,
      Step-then first (Step-then second (log-Step t true (Event.deref t ∷ w'.log) second.sched)),
    )
join-Step {v} fuel t state_max s new enough = (v, refl, log-Step t false [] s)

length-left :
    (qs : Queue → List ℕ) (t : ℕ) (st : ThreadState) (w : StandsFor qs t st)
    → length (left qs t st w ready_threads) ≤ length (qs ready_threads)
length-left qs t blocked w = omega arith
length-left qs t ready (xs, ys, e) = omega (
  arith,
  ap length (put_self qs ready_threads (xs ++ ys)),
  ap length e,
  length-append xs ys,
  length-append xs (t ∷ ys),
)
length-left qs t running (xs, ys, e) =
    let d : running_threads ≢ ready_threads = λ k. cc in
    omega (arith, ap length (put_other qs running_threads ready_threads (xs ++ ys) d))
length-left qs t dying w = omega arith
length-left qs t zombie w = absurd w
length-left qs t state_max w = omega arith

-- The machine after `thread_set_state`.
pub record Became (v : Vm) (t : ℕ) (st : ThreadState) (os qs : Queue → List ℕ) (v' : Vm)
    : Type 0 where
  pub sched : IsSched v' qs
  pub agree : Agree v v'
  pub state : (v'.threads t).state ≡ st
  pub others : (u : ℕ) → u ≢ t → v'.threads u ≡ v.threads u
  pub outside : (m : ℕ) → m ≢ t → ((p : Queue) → IsFresh m (os p)) → v'.nodes m ≡ v.nodes m
  pub stays : (m : ℕ) → m ≢ t → ((p : Queue) → IsFresh m (os p)) → (p : Queue) → IsFresh m (qs p)

pub thread_set_state-Became :
    {v : Vm} {qs : Queue → List ℕ} (fuel t : ℕ) (st : ThreadState)
    → (w : StandsFor qs t (v.threads t).state) → IsSched v qs
    → (v.nodes t).value ≡ t
    → length (qs ready_threads) ≤ fuel
    → (v' : Vm) × (thread_set_state fuel v t st ≡ ok v')
      × Became v t st qs (joined (comp_prio v) (left qs t (v.threads t).state w) t st) v'
unfolding thread_set_state
thread_set_state-Became {v} {qs} fuel t st w s here enough =
    let (v1, gone, first, fresh) = leave-Step t (v.threads t).state w refl s in
    let x = record (v1.threads t) { state = st } in
    let ts = set_thread v1.threads t x in
    let prios = set_thread_prio v1.threads t x refl in
    let v2 = record v1 { threads = ts } in
    let ps = left qs t (v.threads t).state w in
    let s2 : IsSched v2 ps = IsSched-fields ts v1.log prios first.sched in
    let (v3, came, last) =
      join-Step {v = v2} {qs = ps} fuel t st s2 fresh
        (omega (arith, length-left qs t (v.threads t).state w)) in
    let agree : Agree v v2 = record {
      values = first.agree.values;
      prios = λ u. prios u ∙ first.agree.prios u;
    } in
    let is_node : ((v.nodes t).value == t) ≡ true = ap (λ k. k == t) here ∙ self-== t in
    let order : comp_prio v2 ≡ comp_prio v = λ i a b. comp_prio-Agree agree a b i in
    (
      v3,
      rw (is_node, gone) came,
      subst (λ f. Became v t st qs (joined f ps t st) v3) order
          (record {
            sched = last.sched;
            agree = record {
              values = λ m. last.agree.values m ∙ agree.values m;
              prios = λ u. last.agree.prios u ∙ agree.prios u;
            };
            state = last.state ∙ ap (λ y. y.state) (set_thread_self v1.threads t x);
            others =
                λ u d. last.others u d ∙ set_thread_other v1.threads t x u d ∙ first.others u d;
            outside = λ m d f. last.outside m d (first.stays m d f) ∙ first.outside m d f;
            stays = λ m d f. last.stays m d (first.stays m d f);
          }),
    )

-- `thread_set_state` on a thread that stands where its state says, and is no zombie, succeeds: the
-- thread leaves its list and stands in that of its new state, ready threads by priority and behind
-- those of the same one. The thread has the new state, no other thread changes, and no node but its
-- own and those of the lists. No priority is negative. The loop of the insertion needs no more rounds than there are ready
-- threads.
pub thread_set_state-IsSched :
    {v : Vm} {qs : Queue → List ℕ} (fuel t : ℕ) (st : ThreadState)
    → (w : StandsFor qs t (v.threads t).state) → IsSched v qs
    → (v.nodes t).value ≡ t
    → length (qs ready_threads) ≤ fuel
    → (v' : Vm) × (thread_set_state fuel v t st ≡ ok v')
      × IsSched v' (joined (comp_prio v) (left qs t (v.threads t).state w) t st)
      × ((v'.threads t).state ≡ st)
      × ((u : ℕ) → u ≢ t → v'.threads u ≡ v.threads u)
      × ((m : ℕ) → m ≢ t → ((p : Queue) → IsFresh m (qs p)) → v'.nodes m ≡ v.nodes m)
thread_set_state-IsSched fuel t st w s here enough =
    let (v', done, b) = thread_set_state-Became fuel t st w s here enough in
    (v', done, b.sched, b.state, b.others, b.outside)
