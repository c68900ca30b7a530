-- ===== src/Tests/Fixtures.antt =====
-- A thread whose stacks are given, in a machine with one array that has one reference.
use tinyaml.Prelude.{ℕ, ◌≡◌, refl, arith, none, some, List, [], ◌==◌, false, replicate}
use tinyaml.Objects.{Objects, Entry, is_pending}
use tinyaml.Objects.Counts.{Tracks, one}
use tinyaml.Machine.{Machine, Frame}
use tinyaml.Threads.{Vm, ThreadState}
use tinyaml.Ops.{Host}

-- The array at the address 7.
abbrev pub array_7 : Entry
array_7 = record { type = 21; value = 7 }

abbrev pub counts : Objects
counts = record { ref_count = one 7; is_object = λ o. o == 7; gc_pending = [] }

abbrev pub nothing : ℕ → ℕ
nothing o = 0

pub counted_once : (n : ℕ → ℕ) → ((o : ℕ) → one 7 o ≡ n o) → Tracks counts n
unfolding is_pending
counted_once n e = record {
  counted = e;
  live = λ o pos. ground (arith, e o);
  null = refl;
  waiting = λ o w. absurd (cc);
  distinct = _;
}

abbrev pub vm : Vm
vm = record {
  threads = λ t. record { state = ThreadState.running; sync = false; prio = 50; remaining = 9 };
  nodes = λ t. record { prev = none; next = none; value = t };
  ready_list = record { head = none; tail = none };
  running_list = record { head = some 1; tail = some 1 };
  zombie_list = record { head = none; tail = none };
  current = some 1;
  timeslice = 100;
  log = [];
}

abbrev pub machine_with : List Entry → List Entry → List Frame → Machine
machine_with stack locals calls = record {
  vm = vm;
  self = 1;
  objects = counts;
  exception = record { type = 0; value = 0 };
  data_stack = stack;
  locals_stack = locals;
  locals_above = [];
  call_stack = calls;
  catch_stack = [];
  closures_stack = [];
  registers = replicate 8 (record { type = 0; value = 0 });
  program = 3;
  ip = 8;
  jmp_seg = 0;
  jmp_ofs = 0;
  exec_flags = 0;
  segments = λ p. record { size = 0; cells = [] };
  functions = λ p. record { cs = 0; ip = 0; closure = none };
  arrays = λ p. record { reserved = 0; size = 0; cells = [] };
}

abbrev pub host : Host
host = record {
  i2f = λ x. x;
  f2i = λ x. x;
  float_word = λ x. x;
  float_add = λ x. λ y. 0;
  float_sub = λ x. λ y. 0;
  float_mul = λ x. λ y. 0;
  float_div = λ x. λ y. 0;
  float_mod = λ x. λ y. 0;
  float_pow = λ x. λ y. 0;
  float_apply = λ f. λ x. 0;
  float_lt = λ x. λ y. false;
  float_le = λ x. λ y. false;
  float_eq = λ x. λ y. false;
  atoi = λ p. none;
  atof = λ p. none;
  first_char = λ p. none;
  literal = λ t. 900;
  symbols_of = λ p. p;
  array_of = λ p. p;
}
