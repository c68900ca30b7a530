-- ===== src/Dynarray/Inv.antt =====
-- The representation invariant of src/containers/dynarray.c, kept by every operation.
use tinyaml.Prelude.{
  ℕ, ◌+◌, ◌-◌, ◌≤◌, ◌<◌, ◌≡◌, refl, arith, ltb, length, leb, get_or, set, take, replicate,
  length-append, length-set, length-replicate, take_all, get_or-zero_fill, get_or-set_ne,
}
use tinyaml.Prelude.{ok, inl, inr, Bool-cases, true, ◌∙◌}
use tinyaml.Dynarray.{Dynarray, alert_size, quantize, init, reserve, make_room, extend, store}

-- The block has `reserved` words, and those at `size` and behind are zero.
pub record IsValid {ℓ} {A : Type ℓ} (blank : A) (d : Dynarray A) : Type ℓ where
  pub block : length d.cells ≡ d.reserved
  pub within : d.size ≤ d.reserved
  pub clear : (j : ℕ) → d.size ≤ j → get_or d.cells j blank ≡ blank

-- Rounding up leaves room for the index.
pub quantize_bounds : (x : ℕ) → x < alert_size → (x < quantize x) × (quantize x ≤ x + 16)
unfolding quantize
quantize_bounds x h = omega arith

module _ {ℓ} {A : Type ℓ} (blank : A) where
  pub init-IsValid : IsValid blank (init {A = A})
  unfolding init
  init-IsValid = record { block = refl; within = omega arith; clear = λ j h. refl }

  module _ (d : Dynarray A) (block : length d.cells ≡ d.reserved) where
    whole : take d.reserved d.cells ≡ d.cells
    whole = take_all d.reserved d.cells (omega (arith, block))

    pub reserve-read : (n j : ℕ) → get_or (reserve blank d n).cells j blank ≡ get_or d.cells j blank
    unfolding reserve
    reserve-read n j = elim (Bool-cases (ltb d.reserved n)) [
      | inl h ↦ rw (h, whole) (get_or-zero_fill d.cells (n - d.reserved) j blank)
      | inr h ↦ rw h
    ]

    pub reserve_block : (n : ℕ) → length (reserve blank d n).cells ≡ (reserve blank d n).reserved
    unfolding reserve
    reserve_block n = elim (Bool-cases (ltb d.reserved n)) [
      | inl h ↦
          rw (h, whole)
            (omega (
              arith,
              block,
              length-append d.cells (replicate (n - d.reserved) blank),
              length-replicate (n - d.reserved) blank,
              grown h,
            ))
      | inr h ↦ rw h block
    ]
      where
        grown : ltb d.reserved n ≡ true → d.reserved < n
        grown h = ground arith

    pub reserve_size : (n : ℕ) → (reserve blank d n).size ≡ d.size
    unfolding reserve
    reserve_size n = ground arith

    pub reserve_reserved :
        (n : ℕ) → (d.reserved ≤ (reserve blank d n).reserved) × (n ≤ (reserve blank d n).reserved)
    unfolding reserve
    reserve_reserved n = ground arith

  module _ {d : Dynarray A} (v : IsValid blank d) where
    pub reserve-IsValid : (n : ℕ) → IsValid blank (reserve blank d n)
    reserve-IsValid n = record {
      block = reserve_block d v.block n;
      within = omega (arith, v.within, reserve_size d v.block n, reserve_reserved d v.block n);
      clear =
          λ j h. reserve-read d v.block n j ∙ v.clear j (omega (arith, reserve_size d v.block n));
    }

    pub make_room-IsValid : (i : ℕ) → IsValid blank (make_room blank d i)
    unfolding make_room
    make_room-IsValid i = elim (Bool-cases (leb d.reserved i)) [
      | inl h ↦ rw h (reserve-IsValid (quantize i))
      | inr h ↦ rw h v
    ]

    pub make_room_reserved : (i : ℕ) → i < alert_size → i < (make_room blank d i).reserved
    unfolding make_room
    make_room_reserved i h =
        ground (arith, quantize_bounds i h, reserve_reserved d v.block (quantize i))

    pub make_room_size : (i : ℕ) → (make_room blank d i).size ≡ d.size
    unfolding make_room
    make_room_size i = ground (arith, reserve_size d v.block (quantize i))

    pub make_room-read :
        (i j : ℕ) → get_or (make_room blank d i).cells j blank ≡ get_or d.cells j blank
    unfolding make_room
    make_room-read i j = elim (Bool-cases (leb d.reserved i)) [
      | inl h ↦ rw h (reserve-read d v.block (quantize i) j)
      | inr h ↦ rw h
    ]

    pub extend-IsValid : (i : ℕ) → i < d.reserved → IsValid blank (extend d i)
    unfolding extend
    extend-IsValid i h = elim (Bool-cases (leb d.size i)) [
      | inl e ↦ rw e (record {
        block = v.block;
        within = omega arith;
        clear = λ j k. v.clear j (ground arith);
      })
      | inr e ↦ rw e v
    ]

  module _ {d : Dynarray A} (v : IsValid blank d) (x : A) where
    -- A write below `size` keeps the invariant.
    pub store_lem : (i : ℕ) → i < d.size → store d i x ≡ ok (record d { cells = set d.cells i x })
    unfolding store
    store_lem i h = ground (arith, v.block, v.within)

    pub set-IsValid : (i : ℕ) → i < d.size → IsValid blank (record d { cells = set d.cells i x })
    set-IsValid i h = record {
      block = length-set d.cells i x ∙ v.block;
      within = v.within;
      clear = λ j k. get_or-set_ne d.cells i j x blank (omega arith) ∙ v.clear j k;
    }
