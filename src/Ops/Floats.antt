-- ===== src/Ops/Floats.antt =====
-- src/ops/arithbin.c: powers, roots, logarithms and the trigonometric functions.
use tinyaml.Prelude.{ℕ, ◌^◌, leb, ◌==◌, if◌then◌else◌, ◌||◌}
use tinyaml.Prelude.{Run, ok, ◌>>=◌}
use tinyaml.Objects.{Entry}
use tinyaml.Machine.{Machine, data_int, data_float, push_data, raise_exception}
use tinyaml.Ops.{Host, FloatFunction, Message, message, set_top, pop_numeric, pop_any, peek_numeric}
use tinyaml.Ops.FloatFunction.{log_function, exp_function}
use tinyaml.Ops.Arith.{float_entry}

module _ (host : Host) where
  -- The conversion of an operand to a float's bits.
  unfoldable pub as_float : Entry → ℕ
  as_float d = if d.type == data_int then host.i2f d.value else d.value

  -- `vm_op_pow`
  unfoldable pub pow : Machine → Run Machine
  unfolding as_float set_top float_entry
  pow m = do
    b ← pop_numeric host m
    a ← peek_numeric host (b.1)
    ok (set_top (a.1) (float_entry (host.float_pow (as_float (a.0)) (as_float (b.0)))))

  -- `vm_op_sin`, `vm_op_cos` and `vm_op_tan`
  unfoldable pub trigonometric : FloatFunction → Machine → Run Machine
  unfolding float_entry
  trigonometric f m =
      pop_any host m data_float >>= λ (d, m). push_data m (float_entry (host.float_apply f d.value))

  -- The test of `vm_op_sqrt` and `vm_op_log`: the sign bit, or no bit at all. They go on after it.
  unfoldable pub check_range : Machine → Entry → Run Machine
  check_range m d =
      if leb (2 ^ 63) d.value || d.value == 0
      then raise_exception m (message host Message.out_of_range_text)
      else ok m

  -- `vm_op_sqrt` and `vm_op_log`
  unfoldable pub ranged : FloatFunction → Machine → Run Machine
  unfolding check_range as_float float_entry
  ranged f m = pop_numeric host m >>= λ (d, m).
      check_range m d >>= λ m. push_data m (float_entry (host.float_apply f (as_float d)))

  -- `vm_op_log_Float`, which stores the quotient as an integer.
  unfoldable pub log_float : Machine → ℕ → Run Machine
  unfolding check_range as_float float_entry
  log_float m base = pop_numeric host m >>= λ (d, m). check_range m d >>= λ m. push_data m (
      float_entry (
        host.f2i (
          host.float_div (host.float_apply log_function (as_float d))
            (host.float_apply log_function base))))

  -- `vm_op_exp`
  unfoldable pub exp : Machine → Run Machine
  unfolding as_float float_entry
  exp m = pop_numeric host m >>= λ (d, m).
      push_data m (float_entry (host.float_apply exp_function (as_float d)))
