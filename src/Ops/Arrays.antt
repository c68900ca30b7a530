-- ===== src/Ops/Arrays.antt =====
-- The opcodes on arrays, of src/ops/containers.c (lines 45 to 147). An item is a word for its type and
-- a word for its value behind it.
use tinyaml.Prelude.{ℕ, [], zero, suc, ◌+◌, ◌*◌, ◌/◌, ◌%◌, ◌≡◌, ltb, if◌then◌else◌, false}
use tinyaml.Prelude.{Run, ok, trap, ◌>>=◌, ◌>>◌, require, Trap, >>=-eq-ok}
use tinyaml.Gstack.{word}
use tinyaml.Dynarray.{Dynarray, load, store, reserve, dynarray_size}
use tinyaml.Objects.{Entry, obj_new, entry_ref}
use tinyaml.Machine.{Machine, data_int, data_obj_array, push_data, pop_top, peek_data}
use tinyaml.Ops.{Host, dynamic_cast, pop_any, peek_any}
use tinyaml.Ops.Control.{update}
use tinyaml.Ops.Memory.{replace_entry}

-- `vm_op_arrayNew` at the address `p` that `vm_array_new` gives; the array is empty.
unfoldable pub array_new : ℕ → Machine → Run Machine
unfolding update
array_new p m = do
  h ← obj_new m.objects p data_obj_array
  push_data
      (record m {
        objects = h;
        arrays = update m.arrays p (record { reserved = 0; size = 0; cells = [] });
      })
      (record { type = data_obj_array; value = p })

-- The writes of `vm_op_arraySet_Int` at `ofs`.
unfoldable pub put_item : Machine → ℕ → Dynarray ℕ → ℕ → Entry → Run Machine
unfolding update
put_item m p a ofs e = do
  a ← store a ofs e.type
  a ← store a (ofs + 1) e.value
  ok (record m { arrays = update m.arrays p a })

-- The item at `ofs` is replaced, or the array is made longer for it.
unfoldable pub set_item : Machine → ℕ → ℕ → Entry → Run Machine
unfolding replace_entry put_item
set_item m p ofs e =
    if ltb (ofs + 1) (m.arrays p).size
    then (load (m.arrays p) ofs >>= λ type. load (m.arrays p) (ofs + 1) >>= λ value.
        replace_entry m.objects (record { type = type; value = value }) e >>= λ h.
        put_item (record m { objects = h }) p (m.arrays p) ofs e)
    else (entry_ref m.objects e >>= λ h.
        put_item (record m { objects = h }) p
          (record (reserve 0 (m.arrays p) (ofs + 2)) { size = ofs + 2 }) ofs e)

module _ (host : Host) where
  -- `vm_op_arrayResv_Int`
  unfoldable pub array_resv_int : Machine → ℕ → Run Machine
  unfolding update
  array_resv_int m sz = peek_any host m data_obj_array >>= λ (d, m).
      ok (record m {
        arrays = update m.arrays d.value (reserve 0 (m.arrays d.value) (sz * 2 % word));
      })

  -- `vm_op_arrayResv`, which calls itself.
  unfoldable pub array_resv : ℕ → Machine → Run Machine
  array_resv zero m = trap Trap.out_of_fuel
  array_resv (suc fuel) m = pop_any host m data_int >>= λ (d, m). array_resv fuel m

  -- `vm_op_arrayGet_Int` and `vm_op_arrayGet`
  unfoldable pub array_get_int : Machine → ℕ → Run Machine
  array_get_int m index = pop_any host m data_obj_array >>= λ (d, m).
      require Trap.assert_failed (ltb (index * 2 % word + 1) (m.arrays d.value).size)
      >> (load (m.arrays d.value) (index * 2 % word) >>= λ type.
          load (m.arrays d.value) (index * 2 % word + 1) >>= λ value.
          push_data m (record { type = type; value = value }))

  unfoldable pub array_get : Machine → Run Machine
  unfolding array_get_int
  array_get m = pop_any host m data_int >>= λ (d, m). array_get_int m d.value

  -- `vm_op_arraySet_Int` and `vm_op_arraySet`
  unfoldable pub array_set_int : Machine → ℕ → Run Machine
  unfolding set_item
  array_set_int m index = pop_top m >>= λ (e, m). peek_data m 0 >>= λ d.
      dynamic_cast host false m d data_obj_array >>= λ (m, p, _). set_item m p (index * 2 % word) e

  unfoldable pub array_set : Machine → Run Machine
  unfolding array_set_int
  array_set m = pop_any host m data_int >>= λ (d, m). array_set_int m d.value

  -- `vm_op_arraySize`
  unfoldable pub array_size : Machine → Run Machine
  array_size m = pop_top m >>= λ (d, m). dynamic_cast host false m d data_obj_array >>= λ (m, p, _).
      push_data m (record { type = data_int; value = dynarray_size (m.arrays p) / 2 })

  -- `vm_op_arrayResv` does not return, whatever the stack holds.
  pub array_resv_lem : (fuel : ℕ) (m m' : Machine) → array_resv fuel m ≡ ok m' → ⊥
  unfolding array_resv
  array_resv_lem zero m m' e = cc
  array_resv_lem (suc fuel) m m' e =
      let (r, run, rest) = >>=-eq-ok (pop_any host m data_int) e in
      array_resv_lem fuel (r.1) m' rest
