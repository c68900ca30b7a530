-- ===== src/Threads/Blocking.antt =====
-- `mutex_lock` of src/vm/thread.c on a mutex that another thread owns.
use native.Mathlib.Decide.{ℕ_discrete}
use tinyaml.Prelude.{
  ℕ, ◌≡◌, ◌≢◌, ◌≤◌, ◌==◌, refl, Bool, false, none, some, List, [], ◌∷◌, length, ap, sym, ◌∙◌, inl,
  inr, subst, Bool-cases,
}
use tinyaml.Prelude.{ok}
use tinyaml.Dlist.{Store, Dlist, same_node, insert_sorted}
use tinyaml.Dlist.Links.{IsFresh, ne-==}
use tinyaml.Dlist.Seek.{place}
use tinyaml.Dlist.Sorted.{IsOrdered, insert_sorted-Holds}
use tinyaml.Threads.{Vm, Mutex, Queue, comp_prio, thread_set_state, mutex_lock}
use tinyaml.Threads.ThreadState.{blocked}
use tinyaml.Threads.Queue.{ready_threads}
use tinyaml.Threads.Queues.{AreApart}
use tinyaml.Threads.Order.{comp_prio-IsOrder}
use tinyaml.Threads.States.{IsFresh-place}
use tinyaml.Threads.Steps.{IsSched, StandsFor, left, comp_prio-Agree, IsSched-current}
use tinyaml.Threads.Transition.{leave-Step, thread_set_state-Became}
use tinyaml.Threads.Pending.{AreBlocked, AreWaiting, with_nodes-IsSched, rest-AreWaiting}

AreBlocked-place :
    (v v' : Vm) (before : ℕ → ℕ → Bool) (t : ℕ) (ps : List ℕ)
    → ((u : ℕ) → v'.threads u ≡ v.threads u)
    → ((m : ℕ) → (v'.nodes m).value ≡ (v.nodes m).value)
    → (v.threads t).state ≡ blocked
    → (v.nodes t).value ≡ t
    → AreBlocked v ps
    → AreBlocked v' (place before t ps)
unfolding place
AreBlocked-place v v' before t [] e g st val b = (ap (λ x. x.state) (e t) ∙ st, g t ∙ val, _)
AreBlocked-place v v' before t (p ∷ ps) e g st val b = elim (Bool-cases (before t p)) [
  | inl y ↦ rw y (ap (λ x. x.state) (e t) ∙ st, g t ∙ val, all (p ∷ ps) b)
  | inr n ↦
      rw n
        (ap (λ x. x.state) (e p) ∙ b.0, g p ∙ b.1, AreBlocked-place v v' before t ps e g st val b.2)
]
  where
    all : (xs : List ℕ) → AreBlocked v xs → AreBlocked v' xs
    all [] c = _
    all (x ∷ xs) c = (ap (λ y. y.state) (e x) ∙ c.0, g x ∙ c.1, all xs c.2)

-- What `mutex_lock` does with a mutex of another owner.
lock_other :
    (fuel t u n : ℕ) (v v' : Vm) (p : Dlist) (h : Store) (l : Dlist)
    → u ≢ t
    → thread_set_state fuel v t blocked ≡ ok v'
    → insert_sorted (comp_prio (record v' { current = none })) fuel v'.nodes p t ≡ ok (h, l)
    → mutex_lock fuel v (record { pending = p; count = n; owner = some u }) (some t)
      ≡ ok (
        false,
        record v' { nodes = h; current = none },
        record { pending = l; count = n; owner = some u },
      )
unfolding mutex_lock same_node
lock_other fuel t u n v v' p h l other done placed =
    let e : (u == t) ≡ false = ne-== u t other in rw (e, done, placed)

lock_branch :
    (fuel t u : ℕ) (v v' : Vm) (m : Mutex) (h : Store) (l : Dlist)
    → m.owner ≡ some u
    → u ≢ t
    → thread_set_state fuel v t blocked ≡ ok v'
    → insert_sorted (comp_prio (record v' { current = none })) fuel v'.nodes m.pending t ≡ ok (h, l)
    → mutex_lock fuel v m (some t)
      ≡ ok (false, record v' { nodes = h; current = none }, record m { pending = l })
lock_branch fuel t u v v' m h l own other done placed =
    subst
      (λ o.
        mutex_lock fuel v (record { pending = m.pending; count = m.count; owner = o }) (some t)
        ≡ ok (
          false,
          record v' { nodes = h; current = none },
          record { pending = l; count = m.count; owner = o },
        ))
      (sym own) (lock_other fuel t u m.count v v' m.pending h l other done placed)

module _ {v : Vm} {qs : Queue → List ℕ} (fuel t : ℕ) (m : Mutex) (ps : List ℕ) where
  -- Locking a mutex that another thread owns blocks the thread: it leaves the list that it stood in,
  -- waits by priority behind those of the same one, and no thread is current. Owner and count stay. No priority is negative.
  -- The loops need no more rounds than there are ready threads, and threads that wait.
  pub mutex_lock-AreWaiting :
      (u : ℕ) (w : StandsFor qs t (v.threads t).state)
      → IsSched v qs
      → AreWaiting v qs m.pending ps
      → IsOrdered (comp_prio v) ps
      → IsFresh t ps
      → (v.nodes t).value ≡ t
      → m.owner ≡ some u
      → u ≢ t
      → length (qs ready_threads) ≤ fuel
      → length ps ≤ fuel
      → (v' : Vm) × (m' : Mutex) × (mutex_lock fuel v m (some t) ≡ ok (false, v', m'))
        × IsSched v' (left qs t (v.threads t).state w)
        × AreWaiting v' (left qs t (v.threads t).state w) m'.pending (place (comp_prio v) t ps)
        × ((v'.threads t).state ≡ blocked)
        × (v'.current ≡ none)
        × (m'.owner ≡ some u)
        × (m'.count ≡ m.count)
  unfolding comp_prio
  mutex_lock-AreWaiting u w s a ordered fresh val own other enough enough' =
      let (v1, done, b) = thread_set_state-Became fuel t blocked w s val enough in
      let (_, _, _, nowhere) = leave-Step t (v.threads t).state w refl s in
      let qs1 = left qs t (v.threads t).state w in
      let rest = rest-AreWaiting t ps blocked a.pending fresh a.apart a.asleep b in
      let v2 = record v1 { current = none } in
      let s2 = IsSched-current none b.sched in
      let order : comp_prio v2 ≡ comp_prio v = λ i x y. comp_prio-Agree b.agree x y i in
      let ordered' = subst (λ f. IsOrdered f ps) (sym order) ordered in
      let ((h, l, placed, held, kept), _) =
        insert_sorted-Holds (comp_prio v2) fuel t ps (comp_prio-IsOrder v2 s2.prios) rest.pending
          fresh ordered' enough' in
      let apart : (q : Queue) → AreApart (t ∷ ps) (qs1 q) = λ q k. elim (ℕ_discrete k t) [
        | yes e ↦ inr (rw e (nowhere q))
        | no n ↦ elim (rest.apart q k) [ inl f ↦ inl (n, f) | inr f ↦ inr f ]
      ] in
      let v3 = record v1 { nodes = h; current = none } in
      (
        v3,
        record m { pending = l },
        lock_branch fuel t u v v1 m h l own other done placed,
        with_nodes-IsSched h (t ∷ ps) s2 kept apart,
        subst (λ f. AreWaiting v3 qs1 l (place f t ps)) order
            (record {
              pending = held;
              apart = λ q k. elim (apart q k) [
                | inl f ↦ inl (IsFresh-place (comp_prio v2) k t ps f)
                | inr f ↦ inr f
              ];
              asleep =
                  AreBlocked-place v1 v3 (comp_prio v2) t ps (λ x. refl) kept.values b.state
                    (b.agree.values t ∙ val) rest.asleep;
            }),
        b.state,
        refl,
        own,
        refl,
      )
