-- ===== src/Scheduler/Collector.antt =====
-- The collector of `vm_schedule_cycle`, and the lock of `vm_kill_thread` (src/vm/vm.c).
use tinyaml.Prelude.{ℕ, ◌≡◌, ◌<◌, ◌+◌, sym, ◌∙◌, ap, arith, ok, List, [], ◌∷◌, ◌++◌, >>=-eq-ok}
use tinyaml.Gstack.{word}
use tinyaml.Objects.{Objects}
use tinyaml.Objects.Counts.{Tracks}
use tinyaml.Objects.Free.{Body}
use tinyaml.Objects.Bodies.{held_in_body}
use tinyaml.Scheduler.{State, kill_thread, end_thread, killed, after_kill}
use tinyaml.Threads.{Vm, Mutex}

-- The counts before the object `o` is freed.
abbrev pub total : (ℕ → Body) → (ℕ → ℕ) → ℕ → ℕ → ℕ
total bodies n o q = n q + held_in_body (bodies o) q

module _ (bodies : ℕ → Body) (h : Objects) (n : ℕ → ℕ) (ps : List ℕ) (o : ℕ)
    (t : Tracks h (total bodies n o)) (pending : h.gc_pending ≡ ps ++ o ∷ []) where
  taken : Objects
  taken = record h { gc_pending = ps }

after_kill-lock_depth : (s : State) → 1 < s.threads_count → (after_kill s).lock_depth ≡ s.lock_depth
unfolding after_kill
after_kill-lock_depth s many = ground arith

state_inj : {s s' : State} → ok s ≡ ok s' → s ≡ s'
state_inj e = cc

still_many :
    (s : State) (t : ℕ) (r : Vm × Objects × Mutex)
    → 2 < s.threads_count
    → s.threads_count < word
    → 1 < (killed s t r).threads_count
unfolding killed
still_many s t r many lt = omega arith

-- Killing one of three threads or more, fewer than 2 ^ 64, takes the client lock and does not release
-- it.
pub kill_thread-lock_depth :
    (fuel : ℕ) (s s' : State) (t : ℕ)
    → kill_thread fuel s t ≡ ok s'
    → 2 < s.threads_count
    → s.threads_count < word
    → s'.lock_depth ≡ s.lock_depth + 1
unfolding kill_thread killed
kill_thread-lock_depth fuel s s' t e many lt =
    let (r, run, rest) = >>=-eq-ok (end_thread fuel s t) e in
    let same : after_kill (killed s t r) ≡ s' = state_inj rest in
    ap (λ x. x.lock_depth) (sym same)
    ∙ after_kill-lock_depth (killed s t r) (still_many s t r many lt)
