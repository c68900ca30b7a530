-- ===== src/Ops/Stack.antt =====
-- The opcodes on the data and locals stacks: src/ops/bml_vm.c, lines 30 to 183.
use tinyaml.Prelude.{
  ℕ, zero, suc, ◌^◌, List, [], ◌∷◌, ◌++◌, leb, ltb, ◌==◌, if◌then◌else◌, ◌||◌, set, take, drop,
  length, replicate, map,
}
use mathlib.Core.List.{reverse}
use tinyaml.Prelude.{Run, ok, trap, ◌>>=◌, ◌>>◌, require, expect, Trap}
use tinyaml.Gstack.{negate, biased}
use tinyaml.Objects.{Entry, managed, entry_deref}
use tinyaml.Machine.{
  Machine, data_int, data_char, data_float, data_string, data_obj_str, peek_at, push_data, pop_top,
  pop_data, peek_data, raise_exception,
}
use tinyaml.Ops.{Host, Message, message, pop_any}

-- `vm_op__set_timeslice_Int`, whose argument counts as a `long` in the test.
unfoldable pub set_timeslice_int : Machine → ℕ → Machine
set_timeslice_int m timeslice =
    if ltb (2 ^ 63) (biased timeslice)
    then record m { vm = record (m.vm) { timeslice = timeslice } }
    else m

-- `vm_op__get_timeslice`
unfoldable pub get_timeslice : Machine → Run Machine
get_timeslice m = push_data m (record { type = data_int; value = m.vm.timeslice })

-- `vm_op_push_Int`, `vm_op_push_Char`, `vm_op_push_Float` and `vm_op_push_String`
unfoldable pub push_int : Machine → ℕ → Run Machine
push_int m w = push_data m (record { type = data_int; value = w })

unfoldable pub push_char : Machine → ℕ → Run Machine
push_char m w = push_data m (record { type = data_char; value = w })

unfoldable pub push_float : Machine → ℕ → Run Machine
push_float m w = push_data m (record { type = data_float; value = w })

unfoldable pub push_string : Machine → ℕ → Run Machine
push_string m w = push_data m (record { type = data_string; value = w })

-- `vm_op_pop` and `vm_op_pop_Int`
unfoldable pub op_pop : Machine → Run Machine
op_pop m = pop_data m 1

unfoldable pub op_pop_int : Machine → ℕ → Run Machine
op_pop_int m count = pop_data m count

-- `vm_op_dup_Int`
unfoldable pub dup_int : Machine → ℕ → Run Machine
dup_int m rel_ofs = peek_data m rel_ofs >>= λ d. push_data m d

-- `vm_op_swap_Int`, whose `offset` is a `long` given as a word: types and values change places.
unfoldable pub swap_int : Machine → ℕ → Run Machine
swap_int m offset =
    if leb (biased offset) (2 ^ 63)
    then ok m
    else (peek_at m.data_stack 0 >>= λ top. peek_at m.data_stack (negate offset) >>= λ swappee.
        ok (record m { data_stack = set (set m.data_stack offset top) 0 swappee }))

-- The tokens that `gstack_grow` finds above the top of the locals stack.
unfoldable pub tokens_above : ℕ → List Entry → List Entry
tokens_above n above = take n (above ++ replicate n (record { type = 0; value = 0 }))

-- `vm_op_enter_Int`: `gstack_grow` on the locals stack.
unfoldable pub enter_int : Machine → ℕ → Run Machine
unfolding tokens_above
enter_int m size = do
  require Trap.assert_failed (ltb size 16384)
  ok (record m {
    locals_stack = reverse (tokens_above size m.locals_above) ++ m.locals_stack;
    locals_above = drop size m.locals_above;
  })

-- A local that is left behind.
unfoldable pub cleared : Entry → Entry
unfolding managed
cleared d = if managed d.type then record { type = data_int; value = 0 } else d

-- The loop of `vm_op_leave_Int` over the `k` locals from the top on.
unfoldable pub clear_locals : ℕ → List Entry → Machine → Run Machine
unfolding entry_deref
clear_locals zero s m = ok m
clear_locals (suc k) [] m = trap Trap.aborted
clear_locals (suc k) (d ∷ s) m = do
  h ← entry_deref m.objects d
  clear_locals k s (record m { objects = h })

-- `vm_op_leave_Int`, for a size below 2 ^ 63 and a stack that is not empty where there is a local to
-- clear.
unfoldable pub leave_int : Machine → ℕ → Run Machine
unfolding clear_locals cleared
leave_int m size = do
  require Trap.out_of_bounds (ltb size (2 ^ 63))
  require Trap.out_of_bounds (size == 0 || ltb 0 (length m.locals_stack))
  m ← clear_locals size m.locals_stack m
  ok (record m {
    locals_stack = drop size m.locals_stack;
    locals_above = reverse (map cleared (take size m.locals_stack)) ++ m.locals_above;
  })

-- `vm_op_chr_Int` and `vm_op_ord_Char`
unfoldable pub chr_int : Machine → ℕ → Run Machine
chr_int m chr = push_data m (record { type = data_char; value = chr })

unfoldable pub ord_char : Machine → ℕ → Run Machine
ord_char m chr = push_data m (record { type = data_int; value = chr })

module _ (host : Host) where
  -- `vm_op__set_timeslice`
  unfoldable pub set_timeslice : Machine → Run Machine
  unfolding set_timeslice_int
  set_timeslice m = pop_any host m data_int >>= λ (d, m). ok (set_timeslice_int m d.value)

  -- `vm_op_popN`
  unfoldable pub pop_n : Machine → Run Machine
  pop_n m = pop_any host m data_int >>= λ (d, m). pop_data m d.value

  -- `vm_op_chr`; it returns after it has thrown.
  unfoldable pub chr : Machine → Run Machine
  chr m = pop_top m >>= λ (d, m).
      if d.type == data_int
      then push_data m (record { type = data_char; value = d.value })
      else if d.type == data_string || d.type == data_obj_str
      then (expect Trap.out_of_bounds (host.first_char d.value) >>= λ c.
          push_data m (record { type = data_char; value = c }))
      else raise_exception m (message host Message.type_text)

  -- `vm_op_ord`
  unfoldable pub ord : Machine → Run Machine
  ord m = pop_any host m data_char >>= λ (d, m).
      push_data m (record { type = data_int; value = d.value })
