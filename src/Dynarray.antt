-- ===== src/Dynarray.antt =====
-- src/containers/dynarray.c with include/dynarray.h: arrays of words that grow on writing.
-- A word is a value of any type `A`, with the value `blank` that the zero word stands for.
pub mod Inv
pub mod Laws
use tinyaml.Prelude.{
  ℕ, ◌+◌, ◌-◌, ◌*◌, ◌/◌, ◌%◌, ◌^◌, Bool, List, [], ◌∷◌, ◌++◌, ltb, leb, if◌then◌else◌, length,
  get_elem?, set, take, replicate,
}
use tinyaml.Prelude.{Run, ok, ◌>>=◌, ◌>>◌, require, expect, Trap}

-- `struct _dynarray_t`. The block at `data` holds the words of `cells`; it is NULL if there are none.
pub record Dynarray {ℓ} (A : Type ℓ) : Type ℓ where
  pub reserved : ℕ
  pub size : ℕ
  pub cells : List A

-- `DYNARRAY_ALERT_SIZE`
abbrev pub alert_size : ℕ
alert_size = 2 ^ 23

-- `DYNARRAY_QUANTIZE`: the next multiple of 16 above `x`, in 64-bit words.
unfoldable pub quantize : ℕ → ℕ
quantize x = (x + 16) % 2 ^ 64 / 16 * 16

module _ {ℓ} {A : Type ℓ} where
  unfoldable pub init : Dynarray A
  init = record { reserved = 0; size = 0; cells = [] }

  -- `dynarray_deinit`: the words that the callback is given, in order; the block is freed.
  unfoldable pub deinit : Dynarray A → Run (List A)
  deinit d = elim d.cells [
    | [] ↦ ok []
    | _ ∷ _ ↦ require Trap.out_of_bounds (leb d.size (length d.cells)) >> ok (take d.size d.cells)
  ]

  -- `dynarray_size`
  unfoldable pub dynarray_size : Dynarray A → ℕ
  dynarray_size d = d.size

  -- `d->data[i]` and `d->data[i] = v` on the allocated block.
  unfoldable pub load : Dynarray A → ℕ → Run A
  load d i = expect Trap.out_of_bounds (get_elem? d.cells i)

  unfoldable pub store : Dynarray A → ℕ → A → Run (Dynarray A)
  store d i v = do
    require Trap.out_of_bounds (ltb i (length d.cells))
    ok (record d { cells = set d.cells i v })

  -- The update of `size` in `dynarray_set`.
  unfoldable pub extend : Dynarray A → ℕ → Dynarray A
  extend d index = if leb d.size index then record d { size = index + 1 } else d

  module _ (blank : A) where
    -- `dynarray_reserve`: `realloc` keeps the words, and `memset` clears the new ones.
    unfoldable pub reserve : Dynarray A → ℕ → Dynarray A
    reserve d new_size =
        if ltb d.reserved new_size
        then record d {
          reserved = new_size;
          cells = take d.reserved d.cells ++ replicate (new_size - d.reserved) blank;
        }
        else d

    -- The test and the call of `dynarray_reserve` in `dynarray_set`.
    unfoldable pub make_room : Dynarray A → ℕ → Dynarray A
    make_room d index = if leb d.reserved index then reserve d (quantize index) else d

    -- `dynarray_set`
    unfoldable pub write : Dynarray A → ℕ → A → Run (Dynarray A)
    write d index v = do
      require Trap.assert_failed (ltb index alert_size)
      store (extend (make_room d index) index) index v

    -- `dynarray_get`
    unfoldable pub read : Dynarray A → ℕ → Run A
    unfolding load
    read d index = do
      require Trap.assert_failed (ltb index alert_size)
      if ltb index d.size then load d index else ok blank
