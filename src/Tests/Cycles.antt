-- ===== src/Tests/Cycles.antt =====
-- Runs of the models of `vm_exec_cycle` and of the scheduler of src/vm/vm.c, and their theorems at
-- concrete inputs.
use tinyaml.Prelude.{
  ℕ, ◌≡◌, ◌<◌, ◌⊎◌, refl, arith, none, some, List, [], ◌∷◌, ◌==◌, ◌||◌, if◌then◌else◌, false, ok,
  trap, replicate, inl,
}
use tinyaml.Gstack.{biased}
use tinyaml.Dynarray.{Dynarray}
use tinyaml.Objects.{Objects, Entry}
use tinyaml.Objects.Free.{Body}
use tinyaml.Objects.Counts.{one}
use tinyaml.Machine.{Machine}
use tinyaml.Threads.{Vm, ThreadState}
use tinyaml.Threads.ThreadState.{dying, running}
use tinyaml.Ops.Control.{add_word}
use tinyaml.Exec.{iterate, iterate_if, advance, state_of}
use tinyaml.Exec.Jumps.{IsInCode, iterate-IsInCode}
use tinyaml.Scheduler.{
  State, Algorithm, sched_rr, sched_rr_from, keeps, settle, contend, contend_with, takes_over,
  start_slice, first, next_running, is_running, kill_thread,
}
use tinyaml.Scheduler.Choice.{NotAbove, sched_rr-prio, sched_rr_idle}
use tinyaml.Tests.Fixtures.{machine_with, vm}

-- Programs of eight instructions, and the machine at the fifth.
abbrev code : ℕ → Dynarray ℕ
code p = record { reserved = 16; size = 16; cells = replicate 16 0 }

abbrev at_fifth : Machine
at_fifth = machine_with [] [] []

fifth-IsInCode : IsInCode code at_fifth
fifth-IsInCode = record {
  here = (refl, omega arith);
  there = inl refl;
  even = λ p. refl;
  small = λ p. omega arith;
}

iterate-IsInCode_example :
    IsInCode code (record at_fifth { ip = 10 })
    × ((record at_fifth { ip = 10 }).jmp_ofs ≡ 0)
    × (running ≡ state_of at_fifth)
unfolding iterate iterate_if advance add_word state_of
iterate-IsInCode_example =
    iterate-IsInCode code at_fifth (record at_fifth { ip = 10 }) 1 running refl fifth-IsInCode refl

abbrev number : ℕ → Entry
number n = record { type = 1; value = n }

abbrev with_stack : List Entry → Machine
with_stack s = record at_fifth { data_stack = s }

-- Thread 1 runs, with priority 50, and thread 2 is ready, with priority 30.
abbrev busy : Vm
busy = record vm {
  threads = λ t.
      if t == 1
      then record { state = running; sync = false; prio = 50; remaining = 0 }
      else record { state = ThreadState.ready; sync = false; prio = 30; remaining = 0 };
  ready_list = record { head = some 2; tail = some 2 };
}

sched_rr-prio_example :
    (((◌≡◌ {A = ℕ} 1 2) × NotAbove busy (settle busy busy.current) 2)
      ⊎ ((settle busy busy.current ≡ some 1)
          × (biased (busy.threads 2).prio < biased (busy.threads 1).prio)))
    × ((start_slice busy (some 1)).current ≡ some 1)
    × (((start_slice busy (some 1)).threads 1).remaining ≡ (start_slice busy (some 1)).timeslice)
unfolding sched_rr sched_rr_from keeps settle contend contend_with takes_over start_slice first
    next_running is_running
sched_rr-prio_example =
    sched_rr-prio (λ t. false) busy (start_slice busy (some 1)) 1 2 refl (λ u e. ground arith) refl

-- No thread is left.
abbrev idle : Vm
idle = record vm { running_list = record { head = none; tail = none }; current = none }

sched_rr_idle_example :
    (first idle idle.ready_list.head ≡ none) × (first idle idle.running_list.head ≡ none)
unfolding sched_rr sched_rr_from keeps settle contend contend_with takes_over start_slice first
    next_running is_running
sched_rr_idle_example =
    sched_rr_idle (λ t. false) idle (start_slice idle none) refl (λ u e. absurd (cc))

-- The objects 9 and 8 wait to be freed, and 8 is an array with the only reference to 7.
abbrev waiting : Objects
waiting = record {
  ref_count = one 7;
  is_object = λ o. o == 7 || o == 8 || o == 9;
  gc_pending = 9 ∷ 8 ∷ [];
}

abbrev bodies : ℕ → Body
bodies o =
    if o == 8
    then Body.array (record { reserved = 2; size = 2; cells = 21 ∷ 7 ∷ [] })
    else Body.plain

-- Three threads, of which thread 1 is dying.
abbrev state : State
state = record {
  vm = record vm {
    threads = λ t. record { state = dying; sync = false; prio = 50; remaining = 9 };
    running_list = record { head = none; tail = none };
  };
  objects = record {
    ref_count = λ o. if 1 == o then 2 else 0;
    is_object = λ o. o == 1;
    gc_pending = [];
  };
  bodies = λ o. Body.plain;
  locals = λ t. [];
  stacks = λ t. [];
  join_mutex =
      λ t. record { pending = record { head = none; tail = none }; count = 1; owner = some t };
  threads_count = 3;
  scheduler = Algorithm.round_robin;
  lock_depth = 1;
  cycles = 0;
}

abbrev after : State
after = elim (kill_thread 1 state 1) [ ok s ↦ s | trap t ↦ state ]
