-- ===== src/Exec.antt =====
-- `vm_exec_cycle` of src/vm/vm.c (lines 1131 to 1310): one instruction of the current thread. Traces,
-- which only print, are left out.
pub mod Jumps
pub mod Receiver
use tinyaml.Prelude.{
  ℕ, zero, suc, ◌+◌, ◌-◌, ◌*◌, ◌/◌, ◌%◌, ◌^◌, Bool, true, false, Option, none, some, List, [], ◌∷◌,
  ◌++◌, leb, ltb, ◌==◌, not, if◌then◌else◌, length, take, drop,
}
use tinyaml.Prelude.{Run, ok, trap, ◌>>=◌, ◌>>◌, require, expect, Trap}
use tinyaml.Gstack.{word, negate}
use tinyaml.Dynarray.{Dynarray, load}
use tinyaml.Objects.{Entry}
use tinyaml.OpcodeDict.{Override}
use tinyaml.Threads.{ThreadState, thread_set_state}
use tinyaml.Threads.ThreadState.{blocked, ready, running, dying, zombie, state_max}
use tinyaml.Machine.{
  Machine, data_int, data_char, data_float, data_string, data_obj_fun, data_obj_vobj, peek_at,
  pop_token, push_data, raise_exception,
}
use tinyaml.Ops.{Host, Message, message}
use tinyaml.Ops.Stack.{swap_int}
use tinyaml.Ops.Control.{add_word, call}

-- `opcode_arg_t`
pub data OpcodeArg : Type 0 where
  no_arg arg_int arg_char arg_float arg_ptr arg_label arg_string arg_env_sym : OpcodeArg

-- The state of the thread.
unfoldable pub state_of : Machine → ThreadState
state_of m = (m.vm.threads m.self).state

unfoldable pub is_dying : ThreadState → Bool
is_dying dying = true
is_dying blocked = false
is_dying ready = false
is_dying running = false
is_dying zombie = false
is_dying state_max = false

-- `if(t->state!=ThreadDying) { thread_set_state(vm,t,ThreadDying); }`
unfoldable pub let_die : Machine → Run Machine
unfolding state_of is_dying
let_die m =
    if is_dying (state_of m)
    then ok m
    else (thread_set_state 0 m.vm m.self dying >>= λ v. ok (record m { vm = v }))

-- The `switch` on the offset that takes the receiver of a message off the data stack. The `memmove`
-- of `offset-1` tokens starts one token above the receiver; the reference is not given back.
unfoldable pub move_receiver : ℕ → Machine → Run Machine
unfolding swap_int
move_receiver zero m = ok m
move_receiver (suc zero) m = swap_int m 1
move_receiver (suc (suc n)) m = do
  require Trap.aborted (ltb (suc (suc n)) (length m.data_stack))
  ok (record m {
    data_stack =
        take 2 m.data_stack
        ++ (take (suc n) (drop 1 m.data_stack) ++ drop (suc (suc (suc n))) m.data_stack);
  })

unfoldable pub drop_receiver : ℕ → Machine → Run Machine
unfolding move_receiver pop_token
drop_receiver offset m = do
  m ← move_receiver offset m
  r ← pop_token m.data_stack
  ok (record m { data_stack = r.1 })

-- The operand of the instruction as an argument of the method, and how many that makes.
unfoldable pub push_operand : Host → Machine → OpcodeArg → ℕ → ℕ → Run (ℕ × Machine)
push_operand host m no_arg arg argc = ok (argc, m)
push_operand host m arg_int arg argc =
    push_data m (record { type = data_int; value = arg }) >>= λ m. ok (argc + 1, m)
push_operand host m arg_char arg argc =
    push_data m (record { type = data_char; value = arg }) >>= λ m. ok (argc + 1, m)
push_operand host m arg_float arg argc =
    push_data m (record { type = data_float; value = arg }) >>= λ m. ok (argc + 1, m)
push_operand host m arg_ptr arg argc =
    raise_exception m (message host Message.override_text) >>= λ m. ok (argc, m)
push_operand host m arg_label arg argc =
    push_data m (record { type = data_int; value = arg }) >>= λ m. ok (argc + 1, m)
push_operand host m arg_string arg argc =
    push_data m (record { type = data_string; value = arg }) >>= λ m. ok (argc + 1, m)
push_operand host m arg_env_sym arg argc =
    push_data m (record { type = data_int; value = arg }) >>= λ m. ok (argc + 1, m)

-- The code segments of programs.
module _ (code : ℕ → Dynarray ℕ) where
  -- `t->IP=...` after the instruction, while the thread is still the current one.
  unfoldable pub advance : Machine → Run Machine
  unfolding add_word let_die
  advance m =
      if not (m.jmp_ofs == 0)
      then ok (record m { program = m.jmp_seg; ip = m.jmp_ofs; jmp_ofs = 0 })
      else if m.ip == ((code m.program).size + word - 2) % word
      then let_die m
      else ok (record m { ip = add_word m.ip 2 })

  -- The end of `vm_exec_cycle`, with the state that it returns; the first argument is
  -- `vm->current_thread`. The sign bit is bit 31.
  unfoldable pub iterate_if : Option ℕ → Machine → Run (Machine × ThreadState)
  unfolding advance let_die state_of
  iterate_if none m = ok (m, zombie)
  iterate_if (some t) m = do
    m ← advance m
    m ← if (m.ip / 2 ^ 31) % 2 == 1 then let_die m else ok m
    ok (m, state_of m)

  unfoldable pub iterate : Machine → Run (Machine × ThreadState)
  unfolding iterate_if
  iterate m = iterate_if m.vm.current m

  -- What the stubs do, the type of an opcode's operand, the overrides of a stub, and the method that
  -- `find_override` finds for an object and a target.
  module _ (host : Host) (stub : ℕ → ℕ → Machine → Run Machine) (arg_type : ℕ → OpcodeArg)
      (overrides : ℕ → List Override) (find_override : ℕ → ℕ → Option ℕ) where
    -- The loop over the overrides of a stub: the method, the offset and the number of arguments.
    unfoldable pub find_method : List Override → Machine → Run (Option (ℕ × ℕ × ℕ))
    find_method [] m = ok none
    find_method (o ∷ os) m =
        let rest = find_method os m in
        if leb o.offset (length m.data_stack)
        then (peek_at m.data_stack (negate o.offset) >>= λ d.
            elim (if d.type == data_obj_vobj then find_override d.value o.target else none) [
              | some p ↦ ok (some (p, o.offset, o.argc))
              | none ↦ rest
            ])
        else rest

    -- A method instead of the stub.
    unfoldable pub call_method : ℕ → ℕ → ℕ → ℕ → ℕ → Machine → Run Machine
    unfolding drop_receiver push_operand
    call_method op arg p offset argc m = do
      m ← drop_receiver offset m
      r ← push_operand host m (arg_type op) arg argc
      m ← push_data (r.1) (record { type = data_int; value = r.0 })
      m ← push_data m (record { type = data_obj_fun; value = p })
      call host m

    -- `vm_exec_cycle`, where no trap jumps back into it.
    unfoldable pub exec_cycle : Machine → Run (Machine × ThreadState)
    unfolding find_method call_method iterate
    exec_cycle m = do
      op ← load (code m.program) m.ip
      arg ← load (code m.program) (m.ip + 1)
      m ←
          if op == 0
          then ok m
          else (find_method (overrides op) m >>= λ found. elim found [
            | some (p, offset, argc) ↦ call_method op arg p offset argc m
            | none ↦ stub op arg m
          ])
      iterate m
