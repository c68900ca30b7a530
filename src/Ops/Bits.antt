-- ===== src/Ops/Bits.antt =====
-- src/ops/arithbin.c: operations on the bits of the top of the data stack. A shift by 64 or more,
-- which C leaves open, is by the count modulo 64, as the processor has it.
use Prim.Native.Nat.{bit_and, bit_or, bit_xor}
use tinyaml.Prelude.{ℕ, ◌+◌, ◌-◌, ◌*◌, ◌/◌, ◌%◌, ◌^◌, ◌==◌}
use tinyaml.Prelude.{Run, ok, ◌>>=◌}
use tinyaml.Gstack.{word}
use tinyaml.Machine.{Machine, data_int}
use tinyaml.Ops.{Host, set_top, pop_any, peek_any}
use tinyaml.Ops.Integers.{truth}

module _ (host : Host) where
  -- The operations on the top entry as an integer.
  unfoldable pub update_int : (ℕ → ℕ) → Machine → Run Machine
  unfolding set_top
  update_int f m =
      peek_any host m data_int >>= λ (d, m). ok (set_top m (record d { value = f d.value }))

  unfoldable pub pop_update : (ℕ → ℕ → ℕ) → Machine → Run Machine
  unfolding update_int
  pop_update f m = pop_any host m data_int >>= λ (b, m). update_int (λ a. f a b.value) m

  -- `vm_op_shr_Int` and `vm_op_shl_Int`, `vm_op_vshr` and `vm_op_vshl`, `vm_op_shr` and `vm_op_shl`
  unfoldable pub shr_int : Machine → ℕ → Run Machine
  unfolding update_int
  shr_int m count = update_int (λ a. a / 2 ^ (count % 64)) m

  unfoldable pub shl_int : Machine → ℕ → Run Machine
  unfolding update_int
  shl_int m count = update_int (λ a. a * 2 ^ (count % 64) % word) m

  unfoldable pub vshr : Machine → Run Machine
  unfolding pop_update
  vshr m = pop_update (λ a count. a / 2 ^ (count % 64)) m

  unfoldable pub vshl : Machine → Run Machine
  unfolding pop_update
  vshl m = pop_update (λ a count. a * 2 ^ (count % 64) % word) m

  unfoldable pub shr : Machine → Run Machine
  unfolding update_int
  shr m = update_int (λ a. a / 2) m

  unfoldable pub shl : Machine → Run Machine
  unfolding update_int
  shl m = update_int (λ a. a * 2 % word) m

  -- `vm_op_and`, `vm_op_or`, `vm_op_xor`, and with an operand of the code
  unfoldable pub and_op : Machine → Run Machine
  unfolding pop_update
  and_op m = pop_update bit_and m

  unfoldable pub or_op : Machine → Run Machine
  unfolding pop_update
  or_op m = pop_update bit_or m

  unfoldable pub xor_op : Machine → Run Machine
  unfolding pop_update
  xor_op m = pop_update bit_xor m

  unfoldable pub and_int : Machine → ℕ → Run Machine
  unfolding update_int
  and_int m w = update_int (λ a. bit_and a w) m

  unfoldable pub or_int : Machine → ℕ → Run Machine
  unfolding update_int
  or_int m w = update_int (λ a. bit_or a w) m

  unfoldable pub xor_int : Machine → ℕ → Run Machine
  unfolding update_int
  xor_int m w = update_int (λ a. bit_xor a w) m

  -- `vm_op_not`, `vm_op_neg`, `vm_op_inc` and `vm_op_dec`
  unfoldable pub not_op : Machine → Run Machine
  unfolding update_int
  not_op m = update_int (λ a. truth (a == 0)) m

  unfoldable pub neg : Machine → Run Machine
  unfolding update_int
  neg m = update_int (λ a. word - 1 - a) m

  unfoldable pub inc : Machine → Run Machine
  unfolding update_int
  inc m = update_int (λ a. (a + 1) % word) m

  unfoldable pub dec : Machine → Run Machine
  unfolding update_int
  dec m = update_int (λ a. (a + word - 1) % word) m
