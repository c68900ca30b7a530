-- ===== src/Ops.antt =====
-- What the opcodes share: conversions between types and the pops and peeks that convert, of
-- src/vm/vm.c (lines 225 to 415), and the integer and floating point operations that
-- include/fastmath.h puts together.
pub mod Stack
pub mod Control
pub mod Integers
pub mod Arith
pub mod Arrays
pub mod Floats
pub mod Items
pub mod Bits
pub mod Binary
pub mod Division
pub mod Memory
pub mod Variables
pub mod Shuffle
pub mod Returns
pub mod Locals
use tinyaml.Prelude.{
  ℕ, ◌+◌, ◌-◌, ◌*◌, ◌/◌, ◌%◌, ◌^◌, Bool, true, false, Option, none, some, List, [], ◌∷◌, leb, ltb,
  ◌==◌, not, if◌then◌else◌, ◌&&◌, ◌||◌, set,
}
use tinyaml.Prelude.{Run, ok, trap, ◌>>=◌, ◌>>◌, require, expect, Trap}
use tinyaml.Gstack.{word}
use tinyaml.Objects.{Entry}
use tinyaml.Machine.{
  Machine, data_int, data_char, data_float, data_string, data_obj_str, data_obj_symtab,
  data_obj_array, data_obj_env, data_obj_vobj, data_obj_vcls, peek_data, pop_top, raise_exception,
}

-- The string literals that are thrown.
pub data Message : Type 0 where
  type_text div_by_zero_text out_of_range_text no_data_text override_text : Message

-- `sinf`, `cosf`, `tanf`, `sqrtf`, `logf` and `expf`.
pub data FloatFunction : Type 0 where
  sin_function cos_function tan_function sqrt_function log_function exp_function : FloatFunction

-- The C library and the processor, on words that hold the bits of a `tinyaml_float_t`: conversions
-- (`float_word` is the cast of a float to `word_t`), arithmetic and comparisons; `atoi`, `atof` and
-- the first character of the text at an address, if there is one; the addresses of the literals and
-- of the members `symbols` and `data` of an environment.
pub record Host : Type 0 where
  pub i2f : ℕ → ℕ
  pub f2i : ℕ → ℕ
  pub float_word : ℕ → ℕ
  pub float_add : ℕ → ℕ → ℕ
  pub float_sub : ℕ → ℕ → ℕ
  pub float_mul : ℕ → ℕ → ℕ
  pub float_div : ℕ → ℕ → ℕ
  pub float_mod : ℕ → ℕ → ℕ
  pub float_pow : ℕ → ℕ → ℕ
  pub float_apply : FloatFunction → ℕ → ℕ
  pub float_lt : ℕ → ℕ → Bool
  pub float_le : ℕ → ℕ → Bool
  pub float_eq : ℕ → ℕ → Bool
  pub atoi : ℕ → Option ℕ
  pub atof : ℕ → Option ℕ
  pub first_char : ℕ → Option ℕ
  pub literal : Message → ℕ
  pub symbols_of : ℕ → ℕ
  pub array_of : ℕ → ℕ

-- A literal as an exception.
unfoldable pub message : Host → Message → Entry
message host t = record { type = data_string; value = host.literal t }

-- What an entry that was peeked at comes to is written into the stack.
unfoldable pub set_top : Machine → Entry → Machine
set_top m d = record m { data_stack = set m.data_stack 0 d }

module _ (host : Host) where
  -- The inner `switch`es of `dynamic_cast`. From a number or a string, a type that the `switch` does
  -- not name comes to 0.
  unfoldable pub cast_from_int : Entry → ℕ → Run ℕ
  cast_from_int d newtype =
      if newtype == data_char
      then ok d.value
      else if newtype == data_float
      then ok (host.float_word (host.i2f d.value))
      else if newtype == data_string || newtype == data_obj_str
      then expect Trap.out_of_bounds (host.atoi d.value)
      else ok 0

  unfoldable pub cast_from_float : Entry → ℕ → Run ℕ
  cast_from_float d newtype = if newtype == data_int then ok (host.f2i d.value) else ok 0

  unfoldable pub cast_from_text : Entry → ℕ → Run ℕ
  cast_from_text d newtype =
      if newtype == data_int
      then expect Trap.out_of_bounds (host.atoi d.value)
      else if newtype == data_float
      then expect Trap.out_of_bounds (host.atof d.value)
      else if newtype == data_string || newtype == data_obj_str
      then ok d.value
      else ok 0

  -- The case of an environment goes on into the `default` case: `none`.
  unfoldable pub cast_from_env : Entry → ℕ → Option ℕ
  cast_from_env d newtype =
      if newtype == data_obj_symtab
      then some (host.symbols_of d.value)
      else if newtype == data_obj_array
      then some (host.array_of d.value)
      else none

  -- The value that `dynamic_cast` returns with no class; `none` is its `default` case.
  unfoldable pub cast_value : Entry → ℕ → Run (Option ℕ)
  unfolding cast_from_int cast_from_float cast_from_text cast_from_env
  cast_value d newtype =
      if (newtype == data_obj_vobj) && (d.type == data_obj_vobj || d.type == data_obj_vcls)
        || d.type == newtype
        || (d.type == data_obj_vcls && newtype == data_obj_vobj)
      then ok (some d.value)
      else if d.type == data_int
      then (cast_from_int d newtype >>= λ v. ok (some v))
      else if d.type == data_float
      then (cast_from_float d newtype >>= λ v. ok (some v))
      else if d.type == data_string || d.type == data_obj_str
      then (cast_from_text d newtype >>= λ v. ok (some v))
      else if d.type == data_obj_env
      then ok (cast_from_env d newtype)
      else ok none

  -- `dynamic_cast` with `newcls` NULL; `quiet` says that `fail` is given. The results are the value
  -- and what `*fail` is set to.
  unfoldable pub dynamic_cast : Bool → Machine → Entry → ℕ → Run (Machine × ℕ × Bool)
  unfolding cast_value message
  dynamic_cast quiet m d newtype = do
    v ← cast_value d newtype
    elim v [
      | some w ↦ ok (m, w, false)
      | none ↦
          if quiet
          then ok (m, 0, true)
          else (raise_exception m (message host Message.type_text) >>= λ m'. ok (m', 0, false))
    ]

  -- `_safe_numeric`
  unfoldable pub safe_numeric : Machine → Entry → Run (Entry × Machine)
  unfolding dynamic_cast message
  safe_numeric m d =
      if not (d.type == data_int) && not (d.type == data_float)
      then (dynamic_cast true m d data_float >>= λ (m, v, failed).
          if failed
          then (dynamic_cast true m d data_int >>= λ (m, v, failed).
              if failed
              then (raise_exception m (message host Message.type_text) >>= λ m.
                  ok (record d { value = v }, m))
              else ok (record { type = data_int; value = v }, m))
          else ok (record { type = data_float; value = v }, m))
      else ok (d, m)

  -- `_safe_obj`; it returns the entry after it has thrown, too.
  unfoldable pub safe_obj : Machine → Entry → Run (Entry × Machine)
  unfolding message
  safe_obj m d =
      if (d.type / 16) % 2 == 1
      then ok (d, m)
      else (raise_exception m (message host Message.type_text) >>= λ m. ok (d, m))

  -- `_safe_any`
  unfoldable pub safe_any : Machine → ℕ → Entry → Run (Entry × Machine)
  unfolding dynamic_cast
  safe_any m dt d =
      if d.type == dt
      then ok (d, m)
      else (dynamic_cast false m d dt >>= λ (m, v, _). ok (record { type = dt; value = v }, m))

  -- `vm_pop_numeric`, `vm_pop_obj` and `vm_pop_any`
  unfoldable pub pop_numeric : Machine → Run (Entry × Machine)
  unfolding safe_numeric
  pop_numeric m = pop_top m >>= λ (d, m). safe_numeric m d

  unfoldable pub pop_obj : Machine → Run (Entry × Machine)
  unfolding safe_obj
  pop_obj m = pop_top m >>= λ (d, m). safe_obj m d

  unfoldable pub pop_any : Machine → ℕ → Run (Entry × Machine)
  unfolding safe_any
  pop_any m dt = pop_top m >>= λ (d, m). safe_any m dt d

  -- `vm_peek_numeric` and `vm_peek_any`
  unfoldable pub peek_numeric : Machine → Run (Entry × Machine)
  unfolding safe_numeric set_top
  peek_numeric m = do d ← peek_data m 0; r ← safe_numeric m d; ok (r.0, set_top (r.1) (r.0))

  unfoldable pub peek_any : Machine → ℕ → Run (Entry × Machine)
  unfolding safe_any set_top
  peek_any m dt = do d ← peek_data m 0; r ← safe_any m dt d; ok (r.0, set_top (r.1) (r.0))
