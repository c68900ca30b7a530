-- ===== src/Ops/Memory.antt =====
-- src/ops/data.c, lines 36 to 203 and 332 to 374: variables, closures, registers and conversions.
-- A word of a segment or a closure is at an even place for a type and behind it for a value; an index
-- is below 2 ^ 62, so that doubling it does not wrap around.
use tinyaml.Prelude.{
  ℕ, ◌+◌, ◌-◌, ◌*◌, ◌%◌, ◌^◌, leb, ltb, ◌==◌, if◌then◌else◌, length, get_elem?, set,
}
use tinyaml.Prelude.{Run, ok, ◌>>=◌, ◌>>◌, require, expect, Trap}
use tinyaml.Gstack.{word}
use tinyaml.Dynarray.{load, store}
use tinyaml.Objects.{Objects, Entry, entry_ref, entry_deref}
use tinyaml.Machine.{
  Machine, data_int, data_char, data_float, data_string, peek_at, sp_of, push_data, pop_top,
}
use tinyaml.Ops.{Host, pop_any}
use tinyaml.Ops.Control.{update}

-- The reference of a variable is given back, and that of its new value taken.
unfoldable pub replace_entry : Objects → Entry → Entry → Run Objects
replace_entry h old d = do h ← entry_deref h old; entry_ref h d

-- The place below the top of the locals stack that a negative index, as a word, stands for.
unfoldable pub local_index : ℕ → ℕ
local_index n = word - 1 - n

-- `vm_op_getmem_Int`
unfoldable pub getmem_int : Machine → ℕ → Run Machine
getmem_int m n =
    if leb (2 ^ 63) n
    then (peek_at m.locals_stack ((1 + n) % word) >>= λ d. push_data m d)
    else (expect Trap.out_of_bounds (get_elem? (m.segments m.program).cells n) >>= λ d.
        push_data m d)

-- The two branches of `vm_op_setmem_Int`.
unfoldable pub set_local : Machine → ℕ → Entry → Run Machine
unfolding replace_entry local_index
set_local m n top = do
  require Trap.assert_failed (leb (local_index n) (sp_of m.locals_stack))
  var ← peek_at m.locals_stack ((1 + n) % word)
  h ← replace_entry m.objects var top
  ok (record m { objects = h; locals_stack = set m.locals_stack (local_index n) top })

unfoldable pub set_global : Machine → ℕ → Entry → Run Machine
unfolding replace_entry update
set_global m n top = do
  let seg = m.segments m.program
  require Trap.assert_failed (ltb (2 * n) (2 * length seg.cells))
  var ← expect Trap.out_of_bounds (get_elem? seg.cells n)
  h ← replace_entry m.objects var top
  ok (record m {
    objects = h;
    segments = update m.segments m.program (record {
      size = if leb seg.size (2 * n) then 2 * n + 2 else seg.size;
      cells = set seg.cells n top;
    });
  })

-- `vm_op_setmem_Int`
unfoldable pub setmem_int : Machine → ℕ → Run Machine
unfolding set_local set_global
setmem_int m n =
    pop_top m >>= λ (top, m). if leb (2 ^ 63) n then set_local m n top else set_global m n top

-- `vm_op_typeof`
unfoldable pub typeof : Machine → Run Machine
typeof m = pop_top m >>= λ (d, m). push_data m (record { type = data_int; value = d.type })

-- `vm_op_setmem`, `vm_op_getmem` and `vm_op_getClosure` do nothing with an index that is no integer.
unfoldable pub setmem : Machine → Run Machine
unfolding setmem_int
setmem m = pop_top m >>= λ (top, m). if top.type == data_int then setmem_int m top.value else ok m

unfoldable pub getmem : Machine → Run Machine
unfolding getmem_int
getmem m = pop_top m >>= λ (top, m). if top.type == data_int then getmem_int m top.value else ok m

-- `vm_op_getClosure_Int`
unfoldable pub get_closure_int : Machine → ℕ → Run Machine
get_closure_int m index = do
  da ← peek_at m.closures_stack 0
  type ← load (m.arrays da) (2 * index)
  value ← load (m.arrays da) (2 * index + 1)
  push_data m (record { type = type; value = value })

unfoldable pub get_closure : Machine → Run Machine
unfolding get_closure_int
get_closure m =
    pop_top m >>= λ (top, m). if top.type == data_int then get_closure_int m top.value else ok m

-- `vm_op_setClosure_Int`
unfoldable pub set_closure_int : Machine → ℕ → Run Machine
unfolding replace_entry update
set_closure_int m index = do
  r ← pop_top m
  da ← peek_at (r.1).closures_stack 0
  type ← load ((r.1).arrays da) (2 * index)
  value ← load ((r.1).arrays da) (2 * index + 1)
  h ← replace_entry (r.1).objects (record { type = type; value = value }) (r.0)
  a ← store ((r.1).arrays da) (2 * index) (r.0).type
  a ← store a (2 * index + 1) (r.0).value
  ok (record (r.1) { objects = h; arrays = update (r.1).arrays da a })

-- `vm_op_regGet_Int` and `vm_op_regSet_Int`; there are eight registers.
unfoldable pub reg_get_int : Machine → ℕ → Run Machine
reg_get_int m index = do
  require Trap.assert_failed (ltb index 8)
  d ← expect Trap.out_of_bounds (get_elem? m.registers index)
  push_data m d

unfoldable pub reg_set_int : Machine → ℕ → Run Machine
unfolding replace_entry
reg_set_int m index = do
  r ← pop_top m
  require Trap.assert_failed (ltb index 8)
  old ← expect Trap.out_of_bounds (get_elem? (r.1).registers index)
  h ← replace_entry (r.1).objects old (r.0)
  ok (record (r.1) { objects = h; registers = set (r.1).registers index (r.0) })

-- `vm_op_regGet` and `vm_op_regSet`
unfoldable pub reg_get : Machine → Run Machine
unfolding reg_get_int
reg_get m = do
  r ← pop_top m
  require Trap.assert_failed ((r.0).type == data_int)
  reg_get_int (r.1) (r.0).value

unfoldable pub reg_set : Machine → Run Machine
unfolding reg_set_int
reg_set m = do
  r ← pop_top m
  require Trap.assert_failed ((r.0).type == data_int)
  reg_set_int (r.1) (r.0).value

module _ (host : Host) where
  -- `vm_op_setClosure`
  unfoldable pub set_closure : Machine → Run Machine
  unfolding set_closure_int
  set_closure m = pop_any host m data_int >>= λ (top, m). set_closure_int m top.value

  -- `vm_op_toI` and `vm_op_toF`
  unfoldable pub to_i : Machine → Run Machine
  to_i m = do
    r ← pop_top m
    v ←
        if (r.0).type == data_int
        then ok ((r.0).value)
        else if (r.0).type == data_char
        then ok ((r.0).value)
        else if (r.0).type == data_float
        then ok (host.f2i (r.0).value)
        else if (r.0).type == data_string
        then expect Trap.out_of_bounds (host.atoi (r.0).value)
        else ok 0
    push_data (r.1) (record { type = data_int; value = v })

  -- A float that is given as an argument of type `word_t` is converted to an integer.
  unfoldable pub to_f : Machine → Run Machine
  to_f m = do
    r ← pop_top m
    v ←
        if (r.0).type == data_int
        then ok (host.float_word (host.i2f (r.0).value))
        else if (r.0).type == data_float
        then ok ((r.0).value)
        else if (r.0).type == data_string
        then expect Trap.out_of_bounds (host.atof (r.0).value)
        else ok 0
    push_data (r.1) (record { type = data_float; value = v })
