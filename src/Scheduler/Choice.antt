-- ===== src/Scheduler/Choice.antt =====
-- Which thread `_sched_rr` of src/vm/vm.c chooses.
use tinyaml.Prelude.{
  ℕ, ◌≡◌, ◌≤◌, ◌<◌, refl, sym, ◌∙◌, ap, arith, ok, Option, some, none, true, false, ◌⊎◌, inl, inr,
  Bool-cases, Option-cases, >>=-eq-ok, Bool,
}
use tinyaml.Gstack.{biased}
use tinyaml.Threads.{Vm, thread_set_state, set_thread}
use tinyaml.Threads.ThreadState.{running}
use tinyaml.Scheduler.{
  first, settle, takes_over, contend, contend_with, keeps, sched_rr_from, sched_rr, next_running,
  start_slice,
}

ok_snd : {x y : Vm × Option ℕ} → ok x ≡ ok y → x.1 ≡ y.1
ok_snd {x} {y} e = let same : x ≡ y = cc in ap (λ r. r.1) same

ok_fst : {x y : Vm × Option ℕ} → ok x ≡ ok y → x.0 ≡ y.0
ok_fst {x} {y} e = let same : x ≡ y = cc in ap (λ r. r.0) same

-- With a ready thread `tb`, either it is chosen or the thread that the scheduler had settled on stays.
contend_ready :
    (v v' : Vm) (c r : Option ℕ) (tb : ℕ)
    → contend_with (some tb) v c ≡ ok (v', r)
    → ((r ≡ some tb) × (takes_over v c tb ≡ true)) ⊎ ((r ≡ c) × (takes_over v c tb ≡ false))
unfolding contend_with
contend_ready v v' c r tb e = elim (Bool-cases (takes_over v c tb)) [
  | inl wins ↦
      (let (w, run, rest) =
          >>=-eq-ok (thread_set_state 0 (record v { current = some tb }) tb running)
            (rw wins at e) in
        inl (sym (ok_snd rest), wins))
  | inr loses ↦ inr (sym (ok_snd (rw loses at e)), loses)
]

-- What is chosen when the current thread does not keep the processor, and the machine it leaves.
chosen :
    (critical : ℕ → Bool) (v v' : Vm) (c r : Option ℕ)
    → sched_rr_from critical v c ≡ ok (v', r)
    → ((t : ℕ) → c ≡ some t → keeps critical v t ≡ false)
    → (w : Vm) × (contend v (settle v c) ≡ ok (w, r)) × (v' ≡ start_slice w r)
unfolding sched_rr_from
chosen critical v v' none r e yields =
    let (q, run, rest) = >>=-eq-ok (contend v (settle v none)) e in
    let same : q.1 ≡ r = ok_snd rest in
    (q.0, run ∙ ap (λ x. ok (q.0, x)) same, sym (ok_fst rest) ∙ ap (start_slice (q.0)) same)
chosen critical v v' (some t) r e yields =
    let (q, run, rest) = >>=-eq-ok (contend v (settle v (some t))) (rw (yields t refl) at e) in
    let same : q.1 ≡ r = ok_snd rest in
    (q.0, run ∙ ap (λ x. ok (q.0, x)) same, sym (ok_fst rest) ∙ ap (start_slice (q.0)) same)

-- The running thread with the rest of a slice, or in a critical section, stays.
pub sched_rr_kept :
    (critical : ℕ → Bool) (v : Vm) (t : ℕ)
    → v.current ≡ some t
    → keeps critical v t ≡ true
    → sched_rr critical v ≡ ok (v, some t)
unfolding sched_rr sched_rr_from
sched_rr_kept critical v t current kept = ap (λ c. sched_rr_from critical v c) current ∙ rw kept

-- A thread that would run, if there is one, has a priority that is not higher than that of `t`.
abbrev pub NotAbove : Vm → Option ℕ → ℕ → Type 0
NotAbove v none t = Unit {0}
NotAbove v (some u) t = biased (v.threads u).prio ≤ biased (v.threads t).prio

-- The first ready thread takes over just when it is not below the thread that would run.
takes_over-NotAbove : (v : Vm) (c : Option ℕ) (tb : ℕ) → takes_over v c tb ≡ true → NotAbove v c tb
unfolding takes_over
takes_over-NotAbove v none tb e = tt
takes_over-NotAbove v (some u) tb e = ground arith

stays-above :
    (v : Vm) (t tb : ℕ)
    → takes_over v (some t) tb ≡ false
    → biased (v.threads tb).prio < biased (v.threads t).prio
unfolding takes_over
stays-above v t tb e = ground arith

started :
    (w : Vm) (t : ℕ)
    → ((start_slice w (some t)).current ≡ some t)
      × (((start_slice w (some t)).threads t).remaining ≡ (start_slice w (some t)).timeslice)
unfolding start_slice set_thread
started w t = (refl, ground arith)

-- When the current thread does not keep the processor, and `tb` is the first ready thread, the thread
-- that is chosen is `tb`, and none of a higher priority would run, or it is the one that would run, and
-- its priority is higher than that of `tb`. It is the current thread, with a whole slice.
pub sched_rr-prio :
    (critical : ℕ → Bool) (v v' : Vm) (t tb : ℕ)
    → sched_rr critical v ≡ ok (v', some t)
    → ((u : ℕ) → v.current ≡ some u → keeps critical v u ≡ false)
    → first v v.ready_list.head ≡ some tb
    → (((t ≡ tb) × NotAbove v (settle v v.current) tb)
        ⊎ ((settle v v.current ≡ some t)
            × (biased (v.threads tb).prio < biased (v.threads t).prio)))
      × (v'.current ≡ some t)
      × ((v'.threads t).remaining ≡ v'.timeslice)
unfolding sched_rr contend
sched_rr-prio critical v v' t tb e yields there =
    let (w, run, left) = chosen critical v v' v.current (some t) e yields in
    let (now, slice) = started w t in
    (
      elim (contend_ready v w (settle v v.current) (some t) tb
          (sym (ap (λ x. contend_with x v (settle v v.current)) there) ∙ run)) [
            | inl (won, wins) ↦
                inl (some_inj won, takes_over-NotAbove v (settle v v.current) tb wins)
            | inr (same, lost) ↦
                inr (sym same, stays-above v t tb (ap (λ c. takes_over v c tb) same ∙ lost))
          ],
      ap (λ x. x.current) left ∙ now,
      ap (λ x. (x.threads t).remaining) left ∙ slice ∙ ap (λ x. x.timeslice) (sym left),
    )
  where
    some_inj : {x y : ℕ} → some x ≡ some y → x ≡ y
    some_inj h = cc

settle-none : (v : Vm) (c : Option ℕ) → settle v c ≡ none → first v v.running_list.head ≡ none
unfolding settle next_running
settle-none v none e = e
settle-none v (some t) e = ground arith

no_contender : (v w : Vm) (tb : ℕ) (c : Option ℕ) → contend_with (some tb) v c ≡ ok (w, none) → ⊥
unfolding takes_over
no_contender v w tb c e = elim (contend_ready v w c none tb e) [
  | inl (won, _) ↦ cc
  | inr (same, lost) ↦
      (let stays : takes_over v none tb ≡ false = ap (λ x. takes_over v x tb) same ∙ lost in cc)
]

-- When the current thread does not keep the processor, no thread is chosen only if none is ready and
-- none is running.
pub sched_rr_idle :
    (critical : ℕ → Bool) (v v' : Vm)
    → sched_rr critical v ≡ ok (v', none)
    → ((u : ℕ) → v.current ≡ some u → keeps critical v u ≡ false)
    → (first v v.ready_list.head ≡ none) × (first v v.running_list.head ≡ none)
unfolding sched_rr contend
sched_rr_idle critical v v' e yields =
    let (w, run, _) = chosen critical v v' v.current none e yields in
    elim (Option-cases (first v v.ready_list.head)) [
      | inl unready ↦ (
        unready,
        settle-none v v.current
            (ok_snd (sym (ap (λ x. contend_with x v (settle v v.current)) unready) ∙ run)),
      )
      | inr (tb, there) ↦ absurd (
          no_contender v w tb (settle v v.current)
            (sym (ap (λ x. contend_with x v (settle v v.current)) there) ∙ run))
    ]
