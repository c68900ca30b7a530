-- ===== src/Threads/Mutexes.antt =====
-- What `mutex_lock` and `mutex_unlock` of src/vm/thread.c promise.
use tinyaml.Prelude.{
  ℕ, zero, suc, ◌≡◌, ◌≢◌, ◌<◌, ◌+◌, ◌-◌, arith, refl, Bool, true, false, none, some, List, [], ◌∷◌,
  length, ap, sym, ◌∙◌, inl, inr, subst, Bool-cases, ◌==◌,
}
use tinyaml.Prelude.{ok, trap, Trap}
use tinyaml.Dlist.{Dlist, same_node}
use tinyaml.Dlist.Ends.{same_node_ne}
use tinyaml.Dlist.Seek.{place}
use tinyaml.Threads.{
  Vm, Mutex, Queue, comp_prio, unlink_first, yield_to, release, mutex_unlock, mutex_lock,
}
use tinyaml.Threads.Queue.{ready_threads, running_threads, zombie_threads}
use tinyaml.Threads.Queues.{put, put_self, put_other}
use tinyaml.Threads.Steps.{IsSched, Agree, comp_prio-Agree}
use tinyaml.Threads.Pending.{AreWaiting}
use tinyaml.Threads.Wake.{
  wake_one, wake, Woken, yield_to-Yielded, Yielded-AreWaiting, release_round,
}

length-place :
    (before : ℕ → ℕ → Bool) (n : ℕ) (xs : List ℕ) → length (place before n xs) ≡ suc (length xs)
unfolding place
length-place before n [] = refl
length-place before n (x ∷ xs) = elim (Bool-cases (before n x)) [
  | inl e ↦ rw e
  | inr e ↦ rw e (ap suc (length-place before n xs))
]

-- The loop of `mutex_unlock` wakes the threads that wait, and ends.
release-Woken :
    (ps : List ℕ) (fuel t : ℕ) {v : Vm} {qs : Queue → List ℕ} (m : Mutex)
    → IsSched v qs
    → AreWaiting v qs m.pending ps
    → length (qs ready_threads) + length ps + length ps < fuel
    → (v' : Vm) × (m' : Mutex) × (qs' : Queue → List ℕ) × (release fuel v m (some t) ≡ ok (v', m'))
      × Woken v qs ps v' qs'
      × (m'.pending.head ≡ none)
      × (m'.count ≡ m.count)
      × (m'.owner ≡ m.owner)
unfolding release wake
release-Woken ps zero t m s a enough = absurd (omega arith)
release-Woken [] (suc fuel) t {v} {qs} m s a enough = (
  v,
  m,
  qs,
  rw a.pending.head,
  record {
    sched = s;
    queued = refl;
    running_ones = refl;
    zombies = refl;
    awake = _;
    others = λ u f. refl;
  },
  a.pending.head,
  refl,
  refl,
)
release-Woken (p ∷ ps) (suc fuel) t {v} {qs} m s a enough =
    let (v1, done, b, rest, agree) = wake_one fuel p ps s a (omega arith) in
    let qs1 = put qs ready_threads (place (comp_prio v) p (qs ready_threads)) in
    let y = yield_to-Yielded t p b.sched in
    let v2 = yield_to v1 t p in
    let both : Agree v v2 = record {
      values = λ k. y.agree.values k ∙ agree.values k;
      prios = λ u. y.agree.prios u ∙ agree.prios u;
    } in
    let order : comp_prio v2 ≡ comp_prio v = λ i j k. comp_prio-Agree both j k i in
    let r_running : ready_threads ≢ running_threads = λ k. cc in
    let r_zombie : ready_threads ≢ zombie_threads = λ k. cc in
    let m2 = record m { pending = (unlink_first v.nodes m.pending p).1 } in
    let (v', m', qs', ran, w, empty, count, owner) =
      release-Woken ps fuel t m2 y.sched (Yielded-AreWaiting y rest) (
        omega (
          arith,
          ap length (put_self qs ready_threads (place (comp_prio v) p (qs ready_threads))),
          length-place (comp_prio v) p (qs ready_threads),
        )) in
    (
      v',
      m',
      qs',
      release_round fuel p t v v1 m a.pending.head a.asleep.1 done ∙ ran,
      record {
        sched = w.sched;
        queued =
            w.queued
            ∙ ap (λ f. wake f ps (qs1 ready_threads)) order
            ∙ ap (wake (comp_prio v) ps)
                (put_self qs ready_threads (place (comp_prio v) p (qs ready_threads)));
        running_ones = w.running_ones ∙ put_other qs ready_threads running_threads _ r_running;
        zombies = w.zombies ∙ put_other qs ready_threads zombie_threads _ r_zombie;
        awake = (w.others p a.pending.distinct.0 ∙ y.states p ∙ b.state, w.awake);
        others = λ u f. w.others u f.1 ∙ y.states u ∙ ap (λ x. x.state) (b.others u f.0);
      },
      empty,
      count,
      owner,
    )

-- Unlocking by the owner, the last time, makes every thread that waits ready, by priority behind
-- those of the same one, and leaves the mutex with no owner, no count and no thread that waits. Other
-- threads keep their states. No priority is negative. The loop needs no more rounds than twice the threads that wait and the
-- ready ones, and one.
pub mutex_unlock-Woken :
    (ps : List ℕ) (fuel t : ℕ) {v : Vm} {qs : Queue → List ℕ} (m : Mutex)
    → IsSched v qs
    → AreWaiting v qs m.pending ps
    → m.owner ≡ some t
    → m.count ≡ 1
    → length (qs ready_threads) + length ps + length ps < fuel
    → (v' : Vm) × (m' : Mutex) × (qs' : Queue → List ℕ) × (mutex_unlock fuel v m (some t)
        ≡ ok (0, v', m'))
      × Woken v qs ps v' qs'
      × (m'.pending.head ≡ none)
      × (m'.count ≡ 0)
      × (m'.owner ≡ none)
unfolding mutex_unlock same_node
mutex_unlock-Woken ps fuel t {v} {qs} m s a own once enough =
    let own_self : (t == t) ≡ true = ground arith in
    let less : m.count - 1 ≡ 0 = omega arith in
    let (v', m', qs', ran, w, empty, count, owner) =
      release-Woken ps fuel t (record { pending = m.pending; count = 0; owner = none }) s a
        enough in
    (v', m', qs', rw (own, own_self, less, ran, count), w, empty, count, owner)

-- A mutex with an owner.
abbrev owned : Dlist → ℕ → ℕ → Mutex
owned l n t = record { pending = l; count = n; owner = some t }

relock :
    (fuel t n : ℕ) (v : Vm) (l : Dlist)
    → mutex_lock fuel v (owned l n t) (some t) ≡ ok (true, v, owned l (n + 1) t)
unfolding mutex_lock same_node
relock fuel t n v l = let e : (t == t) ≡ true = ground arith in rw e

unlock_inner :
    (fuel t n : ℕ) (v : Vm) (l : Dlist)
    → 0 < n
    → mutex_unlock fuel v (owned l (n + 1) t) (some t) ≡ ok (n, v, owned l n t)
unfolding mutex_unlock same_node
unlock_inner fuel t n v l h =
    let e : (t == t) ≡ true = ground arith in
    let less : n + 1 - 1 ≡ n = omega arith in
    let some_left : (n == 0) ≡ false = ground arith in rw (e, less, some_left)

-- The owner of a mutex locks it once more at once, and nothing but the count changes; unlocking then
-- gives the mutex back as it was, and the count.
pub mutex_unlock-mutex_lock :
    (fuel t : ℕ) (v : Vm) (m : Mutex)
    → m.owner ≡ some t
    → 0 < m.count
    → (m' : Mutex) × (mutex_lock fuel v m (some t) ≡ ok (true, v, m'))
      × (m'.count ≡ m.count + 1)
      × (m'.owner ≡ some t)
      × (mutex_unlock fuel v m' (some t) ≡ ok (m.count, v, m))
mutex_unlock-mutex_lock fuel t v m own held =
    let is : owned m.pending m.count t ≡ m =
      ap (λ o. record { pending = m.pending; count = m.count; owner = o }) (sym own) in
    (
      owned m.pending (m.count + 1) t,
      subst (λ k. mutex_lock fuel v k (some t) ≡ ok (true, v, owned m.pending (m.count + 1) t)) is
          (relock fuel t m.count v m.pending),
      refl,
      refl,
      unlock_inner fuel t m.count v m.pending held ∙ ap (λ k. ok (m.count, v, k)) is,
    )

-- Nobody but the owner unlocks a mutex: any other call fails the assertion.
pub mutex_unlock_foreign :
    (fuel t u : ℕ) (v : Vm) (m : Mutex)
    → m.owner ≡ some u
    → u ≢ t
    → mutex_unlock fuel v m (some t) ≡ trap Trap.assert_failed
unfolding mutex_unlock
mutex_unlock_foreign fuel t u v m own other = rw (own, same_node_ne u t other)
