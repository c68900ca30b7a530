-- ===== src/Ops/Control.antt =====
-- The opcodes that direct a thread: src/ops/bml_vm.c, lines 259 to 475 and 645 to 679.
use tinyaml.Prelude.{ℕ, ◌+◌, ◌-◌, ◌%◌, true, false, none, some, [], ◌∷◌, ◌==◌, not, if◌then◌else◌}
use tinyaml.Prelude.{Run, ok, ◌>>=◌, ◌>>◌, require, Trap}
use tinyaml.Gstack.{word, minus_one}
use tinyaml.Objects.{obj_new}
use tinyaml.Threads.{thread_set_state, ThreadState}
use tinyaml.Machine.{
  Machine, Frame, DynFunc, data_int, data_obj_array, data_obj_fun, pop_token, sp_of, push_data,
  pop_data, pop_top, peek_data, poke_data, push_caller, pop_caller, peek_caller, push_catcher,
  raise_exception,
}
use tinyaml.Ops.{Host, Message, message, pop_any, pop_obj}

-- The sum of two words, as `IP+data` is.
unfoldable pub add_word : ℕ → ℕ → ℕ
add_word a b = (a + b) % word

-- `vm_op_SNZ` and `vm_op_SZ`
unfoldable pub skip_not_zero : Machine → ℕ → Run Machine
unfolding add_word
skip_not_zero m rel_ofs = do
  d ← peek_data m rel_ofs
  m ← pop_data m 1
  ok (if d.value == 0 then m else record m { ip = add_word m.ip 2 })

unfoldable pub skip_zero : Machine → ℕ → Run Machine
unfolding add_word
skip_zero m rel_ofs = do
  d ← peek_data m rel_ofs
  m ← pop_data m 1
  ok (if d.value == 0 then record m { ip = add_word m.ip 2 } else m)

-- `vm_op_jmp_Label`
unfoldable pub jmp_label : Machine → ℕ → Machine
unfolding add_word
jmp_label m rel_ofs = record m { jmp_ofs = add_word m.ip rel_ofs }

-- `vm_op_call_Label`
unfoldable pub call_label : Machine → ℕ → Run Machine
unfolding add_word
call_label m rel_ofs = do
  m ← push_caller m (record { cs = m.program; ip = m.ip; has_closure = 0; df_callee = none })
  ok (record m { jmp_ofs = add_word m.ip rel_ofs })

-- The end of the thread's main routine: `thread_set_state(vm,t,ThreadDying)`.
unfoldable pub die : Machine → Run Machine
die m = thread_set_state 0 m.vm m.self ThreadState.dying >>= λ v. ok (record m { vm = v })

-- The jump back behind the call.
unfoldable pub return : Machine → Run Machine
unfolding add_word
return m = do
  c ← peek_caller m
  m ← pop_caller m 1
  ok (record m { jmp_seg = c.0; jmp_ofs = add_word (c.1) 2 })

-- `vm_op_ret_Int` and `vm_op_retval_Int`
unfoldable pub ret_int : Machine → ℕ → Run Machine
unfolding return die
ret_int m n =
    if not (sp_of m.call_stack == minus_one) then (pop_data m n >>= λ m. return m) else die m

unfoldable pub retval_int : Machine → ℕ → Run Machine
unfolding return die
retval_int m n =
    if not (sp_of m.call_stack == minus_one)
    then (peek_data m 0 >>= λ d. pop_data m n >>= λ m. poke_data m d >>= λ m. return m)
    else die m

-- `vm_op_instCatcher_Label` and `vm_op_uninstCatcher_Label`
unfoldable pub inst_catcher_label : Machine → ℕ → Machine
unfolding add_word
inst_catcher_label m rel_ofs = push_catcher m m.program (add_word m.ip rel_ofs)

unfoldable pub uninst_catcher_label : Machine → ℕ → Run Machine
unfolding add_word
uninst_catcher_label m rel_ofs = do
  r ← pop_token m.catch_stack
  ok (record m { catch_stack = r.1; jmp_seg = m.program; jmp_ofs = add_word m.ip rel_ofs })

-- `vm_op_getException`
unfoldable pub get_exception : Machine → Run Machine
get_exception m = push_data m m.exception

-- `vm_op_crit_begin` and `vm_op_crit_end`; IN_CRITICAL_SECTION is the lowest flag.
unfoldable pub crit_begin : Machine → Run Machine
crit_begin m = do
  require Trap.assert_failed (m.exec_flags % 2 == 0)
  ok (record m { exec_flags = m.exec_flags + 1 })

unfoldable pub crit_end : Machine → Run Machine
crit_end m = do
  require Trap.assert_failed (m.exec_flags % 2 == 1)
  ok (record m { exec_flags = m.exec_flags - 1 })

-- `vm_op_yield`; the thread is made ready, which takes fuel to find its place.
unfoldable pub yield_op : ℕ → Machine → Run Machine
unfolding add_word
yield_op fuel m = do
  v ← thread_set_state fuel m.vm m.self ThreadState.ready
  ok (record m { ip = add_word m.ip 2; vm = record v { current = none } })

-- A function and an array at an address.
unfoldable pub update {ℓ} : {A : Type ℓ} → (ℕ → A) → ℕ → A → ℕ → A
update f p x q = if p == q then x else f q

module _ (host : Host) where
  -- `vm_op_jmp`
  unfoldable pub jmp : Machine → Run Machine
  unfolding add_word
  jmp m = pop_any host m data_int >>= λ (d, m). ok (record m { jmp_ofs = add_word m.ip d.value })

  -- The frame that a call of the function at `p` pushes.
  unfoldable pub frame_of : Machine → ℕ → ℕ → Frame
  frame_of m p has_closure = record {
    cs = m.program;
    ip = m.ip;
    has_closure = has_closure;
    df_callee = some p;
  }

  -- `vm_op_call`
  unfoldable pub call : Machine → Run Machine
  unfolding frame_of
  call m = do
    r ← pop_obj host m
    let p = (r.0).value
    let fun = (r.1).functions p
    m ← elim fun.closure [
      | some c ↦ push_caller (r.1) (frame_of (r.1) p 1) >>= λ m.
          ok (record m { closures_stack = c ∷ m.closures_stack })
      | none ↦ push_caller (r.1) (frame_of (r.1) p 0)
    ]
    ok (record m { jmp_seg = fun.cs; jmp_ofs = fun.ip })

  -- `vm_op_call_vc`
  unfoldable pub call_vc : Machine → Run Machine
  unfolding frame_of
  call_vc m = do
    r ← pop_any host m data_obj_fun
    let p = (r.0).value
    let fun = (r.1).functions p
    require Trap.assert_failed (elim fun.closure [ none ↦ true | some _ ↦ false ])
    q ← pop_any host (r.1) data_obj_array
    m ← push_caller (q.1) (frame_of (q.1) p 1)
    ok (record m {
      closures_stack = (q.0).value ∷ m.closures_stack;
      jmp_seg = fun.cs;
      jmp_ofs = fun.ip;
    })

  -- `vm_op_throw`
  unfoldable pub throw : Machine → Run Machine
  throw m = elim m.data_stack [
    | [] ↦ raise_exception m (message host Message.no_data_text)
    | _ ∷ _ ↦ pop_top m >>= λ (d, m). raise_exception m d
  ]

  -- `vm_op_dynFunNew_Label` at the address `p` that `vm_dyn_fun_new` gives.
  unfoldable pub dyn_fun_new_label : ℕ → Machine → ℕ → Run Machine
  unfolding add_word update
  dyn_fun_new_label p m rel_ofs = do
    h ← obj_new m.objects p data_obj_fun
    let fun : DynFunc = record { cs = m.program; ip = add_word m.ip rel_ofs; closure = none }
    push_data (record m { objects = h; functions = update m.functions p fun })
        (record { type = data_obj_fun; value = p })
