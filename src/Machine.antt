-- ===== src/Machine.antt =====
-- The state that opcodes work on and the stack operations of src/vm/vm.c (lines 174 to 285 and 964 to
-- 1121): the stacks of the current thread, the machine's exception, and the reference counts.
-- A stack is the list of its tokens, the top first, as the theorems of Gstack have it; a peek takes
-- its `rel_ofs` as a word.
pub mod Roots
pub mod Stacks
pub mod Callers
pub mod Raise
use tinyaml.Prelude.{
  ℕ, zero, suc, ◌+◌, ◌-◌, ◌%◌, ◌^◌, Bool, true, false, Option, none, some, List, [], ◌∷◌, leb, ltb,
  ◌==◌, not, if◌then◌else◌, ◌&&◌, length, get_elem?, set,
}
use tinyaml.Prelude.{Run, ok, trap, ◌>>=◌, ◌>>◌, require, expect, Trap}
use tinyaml.Gstack.{word, minus_one, negate, biased}
use tinyaml.Dynarray.{Dynarray}
use tinyaml.Objects.{Objects, Entry, ref_ptr, deref_ptr, entry_ref, entry_deref}
use tinyaml.Threads.{Vm}

-- `vm_data_type_t`
abbrev pub data_int : ℕ
data_int = 1

abbrev pub data_char : ℕ
data_char = 2

abbrev pub data_float : ℕ
data_float = 3

abbrev pub data_string : ℕ
data_string = 6

abbrev pub data_obj_str : ℕ
data_obj_str = 17

abbrev pub data_obj_symtab : ℕ
data_obj_symtab = 18

abbrev pub data_obj_array : ℕ
data_obj_array = 21

abbrev pub data_obj_env : ℕ
data_obj_env = 22

abbrev pub data_obj_fun : ℕ
data_obj_fun = 25

abbrev pub data_obj_vobj : ℕ
data_obj_vobj = 26

abbrev pub data_obj_vcls : ℕ
data_obj_vcls = 27

-- `struct _call_stack_entry_t`; in a catch stack `has_closure` is the call stack's `sp`.
pub record Frame : Type 0 where
  pub cs : ℕ
  pub ip : ℕ
  pub has_closure : ℕ
  pub df_callee : Option ℕ

-- `struct _vm_dyn_func_t`; a closure is the address of an array.
pub record DynFunc : Type 0 where
  pub cs : ℕ
  pub ip : ℕ
  pub closure : Option ℕ

-- The `data` segment of a program: its size in words, and the block in pairs of words.
pub record Segment : Type 0 where
  pub size : ℕ
  pub cells : List Entry

-- `struct _vm_t` with its lists of threads, and the fields of the current `struct _thread_t`, `self`;
-- the data segments of programs, the functions and the arrays by address. `locals_above` are the
-- tokens that the block of the locals stack holds above its top, the nearest first; all further ones
-- are of zero bytes.
pub record Machine : Type 0 where
  pub vm : Vm
  pub self : ℕ
  pub objects : Objects
  pub exception : Entry
  pub data_stack : List Entry
  pub locals_stack : List Entry
  pub locals_above : List Entry
  pub call_stack : List Frame
  pub catch_stack : List Frame
  pub closures_stack : List ℕ
  pub registers : List Entry
  pub program : ℕ
  pub ip : ℕ
  pub jmp_seg : ℕ
  pub jmp_ofs : ℕ
  pub exec_flags : ℕ
  pub segments : ℕ → Segment
  pub functions : ℕ → DynFunc
  pub arrays : ℕ → Dynarray ℕ

module _ {ℓ} {A : Type ℓ} where
  -- The `sp` of a stack, and `_gpeek` and `_gpop` on the list of its tokens.
  unfoldable pub sp_of : List A → ℕ
  sp_of s = (length s + minus_one) % word

  unfoldable pub peek_at : List A → ℕ → Run A
  peek_at [] rel_ofs = trap Trap.out_of_bounds
  peek_at (x ∷ s) rel_ofs = expect Trap.aborted (get_elem? (x ∷ s) (negate rel_ofs))

  unfoldable pub pop_token : List A → Run (A × List A)
  pop_token [] = trap Trap.assert_failed
  pop_token (x ∷ s) = ok (x, s)

-- `vm_push_data`
unfoldable pub push_data : Machine → Entry → Run Machine
push_data m e = do
  h ← entry_ref m.objects e
  ok (record m { objects = h; data_stack = e ∷ m.data_stack })

-- `vm_peek_data`, and `_vm_peek` at 0.
unfoldable pub peek_data : Machine → ℕ → Run Entry
unfolding peek_at
peek_data m rel_ofs = peek_at m.data_stack rel_ofs

-- `vm_poke_data`
unfoldable pub poke_data : Machine → Entry → Run Machine
unfolding peek_at
poke_data m e = do
  top ← peek_at m.data_stack 0
  h ← entry_deref m.objects top
  h ← entry_ref h e
  ok (record m { objects = h; data_stack = set m.data_stack 0 e })

-- `_vm_pop`
unfoldable pub pop_top : Machine → Run (Entry × Machine)
unfolding pop_token
pop_top m = do
  r ← pop_token m.data_stack
  h ← entry_deref m.objects (r.0)
  ok (r.0, record m { objects = h; data_stack = r.1 })

-- `vm_pop_data`
unfoldable pub pop_data : Machine → ℕ → Run Machine
unfolding pop_top
pop_data m zero = ok m
pop_data m (suc count) = pop_top m >>= λ (_, m'). pop_data m' count

-- `vm_push_caller`
unfoldable pub push_caller : Machine → Frame → Run Machine
push_caller m f = do
  h ← elim f.df_callee [ none ↦ ok m.objects | some p ↦ ref_ptr m.objects p ]
  ok (record m { objects = h; call_stack = f ∷ m.call_stack })

-- `vm_push_catcher`
unfoldable pub push_catcher : Machine → ℕ → ℕ → Machine
unfolding sp_of
push_catcher m seg ofs = record m {
  catch_stack =
      record { cs = seg; ip = ofs; has_closure = sp_of m.call_stack; df_callee = none }
      ∷ m.catch_stack;
}

-- `vm_peek_caller` and `vm_peek_catcher`
unfoldable pub peek_caller : Machine → Run (ℕ × ℕ)
unfolding peek_at
peek_caller m = peek_at m.call_stack 0 >>= λ top. ok (top.cs, top.ip)

unfoldable pub peek_catcher : Machine → Run (ℕ × ℕ)
unfolding peek_at
peek_catcher m = peek_at m.catch_stack 0 >>= λ top. ok (top.cs, top.ip)

-- One round of `vm_pop_caller`: a frame, its closure, and the reference to its function.
unfoldable pub pop_frame : Machine → Run Machine
unfolding pop_token
pop_frame m = do
  r ← pop_token m.call_stack
  c ←
      if (r.0).has_closure == 0
      then ok m.closures_stack
      else (pop_token m.closures_stack >>= λ q. ok (q.1))
  h ← elim (r.0).df_callee [ none ↦ ok m.objects | some p ↦ deref_ptr m.objects p ]
  ok (record m { objects = h; call_stack = r.1; closures_stack = c })

-- `vm_pop_caller` and `vm_pop_catcher`
unfoldable pub pop_caller : Machine → ℕ → Run Machine
unfolding pop_frame
pop_caller m zero = ok m
pop_caller m (suc count) = pop_frame m >>= λ m'. pop_caller m' count

unfoldable pub pop_catcher : Machine → ℕ → Run Machine
unfolding pop_token
pop_catcher m zero = ok m
pop_catcher m (suc count) = do
  r ← pop_token m.catch_stack
  pop_catcher (record m { catch_stack = r.1 }) count

-- The loop of `raise_exception`: callers are popped while the call stack is higher than `limit`.
unfoldable pub unwind : ℕ → Machine → ℕ → Run Machine
unfolding pop_frame sp_of
unwind zero m limit = trap Trap.out_of_fuel
unwind (suc fuel) m limit = elim (ltb (biased limit) (biased (sp_of m.call_stack))) [
  | true ↦ pop_frame m >>= λ m'. unwind fuel m' limit
  | false ↦ ok m
]

-- `raise_exception`; it returns when there is a catcher, and `vm_fatal` does not.
unfoldable pub raise_exception : Machine → Entry → Run Machine
unfolding unwind
raise_exception m exc = do
  h ← entry_ref m.objects exc
  let m = record m { objects = h; exception = exc }
  elim m.catch_stack [
    | [] ↦ trap Trap.aborted
    | cse ∷ rest ↦
        unwind (suc (length m.call_stack))
          (record m { catch_stack = rest; jmp_seg = cse.cs; jmp_ofs = cse.ip }) cse.has_closure
  ]

-- `deref_stack`: the references that a stack's entries hold are given back, the lowest first.
unfoldable pub deref_stack : List Entry → Objects → Run Objects
deref_stack [] h = ok h
deref_stack (d ∷ s) h = do h ← deref_stack s h; if ltb d.type 29 then entry_deref h d else ok h
