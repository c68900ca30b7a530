-- ===== src/Ops/Arith.antt =====
-- src/ops/arithbin.c: arithmetic and comparisons on the top of the data stack, with
-- `fast_apply_bin_func` of include/fastmath.h.
use tinyaml.Prelude.{ℕ, Bool, ◌==◌, not, if◌then◌else◌}
use tinyaml.Prelude.{Run, ok, ◌>>=◌, ◌>>◌, require, Trap}
use tinyaml.Objects.{Entry}
use tinyaml.Machine.{Machine, data_int, data_float, poke_data, peek_data, raise_exception}
use tinyaml.Ops.{Host, Message, message, set_top, pop_numeric, peek_numeric}
use tinyaml.Ops.Integers.{
  int_add, int_sub, int_mul, int_div, int_mod, int_lt, int_gt, int_le, int_ge, int_eq, int_ne,
  truth,
}

-- `DATA_INT` and `DATA_FLOAT`
unfoldable pub int_entry : ℕ → Entry
int_entry w = record { type = data_int; value = w }

unfoldable pub float_entry : ℕ → Entry
float_entry w = record { type = data_float; value = w }

module _ (host : Host) where
  -- `fast_apply_bin_func`
  unfoldable pub apply_bin : (ℕ → ℕ → Run ℕ) → (ℕ → ℕ → ℕ) → Entry → Entry → Run Entry
  unfolding int_entry float_entry
  apply_bin opi opf a b =
      if a.type == data_float
      then (if b.type == data_float
          then ok (float_entry (opf a.value b.value))
          else ok (float_entry (opf a.value (host.i2f b.value))))
      else (if b.type == data_float
          then ok (float_entry (opf (host.i2f a.value) b.value))
          else (opi a.value b.value >>= λ r. ok (int_entry r)))

  -- The operations whose right side is popped and whose left side is peeked at.
  unfoldable pub bin_op : (ℕ → ℕ → Run ℕ) → (ℕ → ℕ → ℕ) → Machine → Run Machine
  unfolding apply_bin set_top
  bin_op opi opf m = do
    b ← pop_numeric host m
    a ← peek_numeric host (b.1)
    r ← apply_bin opi opf (a.0) (b.0)
    ok (set_top (a.1) r)

  -- The same with the sides the other way round.
  unfoldable pub reverse_op : (ℕ → ℕ → Run ℕ) → (ℕ → ℕ → ℕ) → Machine → Run Machine
  unfolding apply_bin set_top
  reverse_op opi opf m = do
    a ← pop_numeric host m
    b ← peek_numeric host (a.1)
    r ← apply_bin opi opf (a.0) (b.0)
    ok (set_top (b.1) r)

  -- The operations with an operand of the code.
  unfoldable pub operand_op : (ℕ → ℕ → Run ℕ) → (ℕ → ℕ → ℕ) → Machine → Entry → Run Machine
  unfolding apply_bin set_top
  operand_op opi opf m b = do
    a ← peek_numeric host m
    r ← apply_bin opi opf (a.0) b
    ok (set_top (a.1) r)

  -- A comparison of floats stores its result as a float.
  unfoldable pub float_test : (ℕ → ℕ → Bool) → ℕ → ℕ → ℕ
  unfolding truth
  float_test p x y = host.i2f (truth (p x y))

  -- `vm_op_add`, `vm_op_sub`, `vm_op_rsub`, `vm_op_mul`, `vm_op_mod` and `vm_op_rmod`
  unfoldable pub add : Machine → Run Machine
  unfolding bin_op
  add m = bin_op int_add host.float_add m

  unfoldable pub sub : Machine → Run Machine
  unfolding bin_op
  sub m = bin_op int_sub host.float_sub m

  unfoldable pub rsub : Machine → Run Machine
  unfolding reverse_op
  rsub m = reverse_op int_sub host.float_sub m

  unfoldable pub mul : Machine → Run Machine
  unfolding bin_op
  mul m = bin_op int_mul host.float_mul m

  unfoldable pub mod_op : Machine → Run Machine
  unfolding bin_op
  mod_op m = bin_op int_mod host.float_mod m

  unfoldable pub rmod : Machine → Run Machine
  unfolding reverse_op
  rmod m = reverse_op int_mod host.float_mod m

  -- `vm_op_add_Int` to `vm_op_mod_Float`; an immediate float is its bits.
  unfoldable pub add_int : Machine → ℕ → Run Machine
  unfolding operand_op
  add_int m w = operand_op int_add host.float_add m (int_entry w)

  unfoldable pub sub_int : Machine → ℕ → Run Machine
  unfolding operand_op
  sub_int m w = operand_op int_sub host.float_sub m (int_entry w)

  unfoldable pub mul_int : Machine → ℕ → Run Machine
  unfolding operand_op
  mul_int m w = operand_op int_mul host.float_mul m (int_entry w)

  unfoldable pub mod_int : Machine → ℕ → Run Machine
  unfolding operand_op
  mod_int m w = operand_op int_mod host.float_mod m (int_entry w)

  unfoldable pub add_float : Machine → ℕ → Run Machine
  unfolding operand_op
  add_float m w = operand_op int_add host.float_add m (float_entry w)

  unfoldable pub sub_float : Machine → ℕ → Run Machine
  unfolding operand_op
  sub_float m w = operand_op int_sub host.float_sub m (float_entry w)

  unfoldable pub mul_float : Machine → ℕ → Run Machine
  unfolding operand_op
  mul_float m w = operand_op int_mul host.float_mul m (float_entry w)

  unfoldable pub mod_float : Machine → ℕ → Run Machine
  unfolding operand_op
  mod_float m w = operand_op int_mod host.float_mod m (float_entry w)

  -- `vm_op_div`; it goes on after it has thrown.
  unfoldable pub div : Machine → Run Machine
  unfolding apply_bin set_top
  div m = do
    b ← pop_numeric host m
    a ← peek_numeric host (b.1)
    m ←
        if (b.0).value == 0
        then raise_exception (a.1) (message host Message.div_by_zero_text)
        else ok (a.1)
    r ← apply_bin int_div host.float_div (a.0) (b.0)
    ok (set_top m r)

  -- `vm_op_rdiv`, `vm_op_div_Int` and `vm_op_div_Float`, which end the thread instead.
  unfoldable pub rdiv : Machine → Run Machine
  unfolding apply_bin set_top
  rdiv m = do
    a ← pop_numeric host m
    b ← peek_numeric host (a.1)
    require Trap.aborted (not ((b.0).value == 0))
    r ← apply_bin int_div host.float_div (a.0) (b.0)
    ok (set_top (b.1) r)

  unfoldable pub div_operand : Machine → Entry → Run Machine
  unfolding apply_bin set_top
  div_operand m b = do
    a ← peek_numeric host m
    require Trap.aborted (not (b.value == 0))
    r ← apply_bin int_div host.float_div (a.0) b
    ok (set_top (a.1) r)

  unfoldable pub div_int : Machine → ℕ → Run Machine
  unfolding div_operand
  div_int m w = div_operand m (int_entry w)

  unfoldable pub div_float : Machine → ℕ → Run Machine
  unfolding div_operand
  div_float m w = div_operand m (float_entry w)

  -- `vm_op_inf`, `vm_op_infEq`, `vm_op_supEq`, `vm_op_eq`, `vm_op_nEq` and `vm_op_sup`
  unfoldable pub inf : Machine → Run Machine
  unfolding bin_op float_test
  inf m = bin_op int_lt (float_test host.float_lt) m

  unfoldable pub inf_eq : Machine → Run Machine
  unfolding bin_op float_test
  inf_eq m = bin_op int_le (float_test host.float_le) m

  unfoldable pub sup_eq : Machine → Run Machine
  unfolding bin_op float_test
  sup_eq m = bin_op int_ge (float_test (λ x y. host.float_le y x)) m

  unfoldable pub eq : Machine → Run Machine
  unfolding bin_op float_test
  eq m = bin_op int_eq (float_test host.float_eq) m

  unfoldable pub n_eq : Machine → Run Machine
  unfolding bin_op float_test
  n_eq m = bin_op int_ne (float_test (λ x y. not (host.float_eq x y))) m

  unfoldable pub sup : Machine → Run Machine
  unfolding bin_op float_test
  sup m = do
    m ← bin_op int_gt (float_test (λ x y. host.float_lt y x)) m
    a ← peek_data m 0
    poke_data m a
