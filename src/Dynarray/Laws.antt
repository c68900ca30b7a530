-- ===== src/Dynarray/Laws.antt =====
-- What src/containers/dynarray.c promises: below the alert size a write never traps, later reads see
-- the last write at each index, and an index that was never written reads as the zero word.
use tinyaml.Prelude.{
  ℕ, ◌+◌, ◌<◌, ◌≡◌, arith, ltb, leb, ◌==◌, if◌then◌else◌, length, get_or, set, get_elem?-eq-get_or,
  get_or-set_self, get_or-set_ne,
}
use Prim.Native.Nat.{max}
use tinyaml.Prelude.{ok, inl, inr, Bool-cases, ◌∙◌, ap, ==_iff, lt→ltb}
use tinyaml.Dynarray.{
  Dynarray, alert_size, dynarray_size, extend, make_room, reserve, load, write, read,
}
use tinyaml.Dynarray.Inv.{
  IsValid, reserve-IsValid, reserve-read, reserve_size, make_room-IsValid, make_room_reserved,
  make_room_size, make_room-read, extend-IsValid, store_lem, set-IsValid,
}

module _ {ℓ} {A : Type ℓ} where
  extend_cells : (d : Dynarray A) (i : ℕ) → (extend d i).cells ≡ d.cells
  unfolding extend
  extend_cells d i = elim (Bool-cases (leb d.size i)) [ inl h ↦ rw h | inr h ↦ rw h ]

  extend_size : (d : Dynarray A) (i : ℕ) → (extend d i).size ≡ max d.size (i + 1)
  unfolding extend
  extend_size d i = ground arith

module _ {ℓ} {A : Type ℓ} (blank : A) where
  -- In a valid array a read is `cells` with the zero word as default.
  pub read_lem :
      {d : Dynarray A}
      → IsValid blank d
      → (i : ℕ) → i < alert_size
      → read blank d i ≡ ok (get_or d.cells i blank)
  unfolding read load
  read_lem {d} v i h = rw (lt→ltb i alert_size h) (elim (Bool-cases (ltb i d.size)) [
    | inl k ↦ rw (k, get_elem?-eq-get_or d.cells i blank (ground (arith, v.block, v.within)))
    | inr k ↦ rw (k, v.clear i (ground arith))
  ])

  -- The array after a write below the alert size.
  written : Dynarray A → ℕ → A → Dynarray A
  written d i x = let r = extend (make_room blank d i) i in record r { cells = set r.cells i x }

  module _ {d : Dynarray A} (v : IsValid blank d) (i : ℕ) (x : A) (h : i < alert_size) where
    roomy-IsValid : IsValid blank (extend (make_room blank d i) i)
    roomy-IsValid =
        extend-IsValid blank (make_room-IsValid blank v i) i (make_room_reserved blank v i h)

    roomy_size : i < (extend (make_room blank d i) i).size
    roomy_size = omega (arith, extend_size (make_room blank d i) i)

    write_lem : write blank d i x ≡ ok (written d i x)
    unfolding write written
    write_lem = rw (lt→ltb i alert_size h) (store_lem blank roomy-IsValid x i roomy_size)

    written-IsValid : IsValid blank (written d i x)
    unfolding written
    written-IsValid = set-IsValid blank roomy-IsValid x i roomy_size

    written_size : (written d i x).size ≡ max d.size (i + 1)
    unfolding written
    written_size = omega (arith, extend_size (make_room blank d i) i, make_room_size blank v i)

    written_read :
        (j : ℕ)
        → get_or (written d i x).cells j blank ≡ (if i == j then x else get_or d.cells j blank)
    unfolding written
    written_read j = elim (Bool-cases (i == j)) [
      | inl e ↦ rw (e, ← (==_iff i j).0 e) (get_or-set_self _ i x blank inside)
      | inr e ↦ rw e (
          get_or-set_ne _ i j x blank (ground arith)
          ∙ ap (λ c. get_or c j blank) (extend_cells (make_room blank d i) i)
          ∙ make_room-read blank v i j)
    ]
      where
        inside : i < length (extend (make_room blank d i) i).cells
        inside = omega (arith, roomy_size, (roomy-IsValid).block, (roomy-IsValid).within)

  -- In a valid array a write below the alert size succeeds, keeps the invariant, and makes the
  -- size the larger of the old one and the index plus one.
  pub write_total :
      {d : Dynarray A} (i : ℕ) (x : A)
      → IsValid blank d
      → i < alert_size
      → (d' : Dynarray A) × (write blank d i x ≡ ok d')
        × IsValid blank d'
        × (dynarray_size d' ≡ max (dynarray_size d) (i + 1))
  unfolding dynarray_size
  write_total {d} i x v h =
      (written d i x, write_lem v i x h, written-IsValid v i x h, written_size v i x h)

  pub write_small : (d d' : Dynarray A) (i : ℕ) (x : A) → write blank d i x ≡ ok d' → i < alert_size
  unfolding write
  write_small d d' i x e = ground arith

  -- After a write that succeeds, a read below the alert size gives the written word at its index,
  -- and at every other index what it gave before.
  pub read-write :
      {d d' : Dynarray A} (i j : ℕ) (x : A)
      → IsValid blank d
      → write blank d i x ≡ ok d'
      → j < alert_size
      → read blank d' j ≡ (if i == j then ok x else read blank d j)
  read-write {d} {d'} i j x v e k =
      let h = write_small d d' i x e in
      let same : d' ≡ written d i x = cc (e, write_lem v i x h) in
      rw (same, read_lem (written-IsValid v i x h) j k, written_read v i x h j, read_lem v j k)
        (elim (Bool-cases (i == j)) [ inl q ↦ rw q | inr q ↦ rw q ])

  -- Reserving words changes neither the size nor any read below the alert size, and keeps the
  -- invariant.
  pub read-reserve :
      {d : Dynarray A} (n j : ℕ)
      → IsValid blank d
      → j < alert_size
      → (read blank (reserve blank d n) j ≡ read blank d j)
        × (dynarray_size (reserve blank d n) ≡ dynarray_size d)
        × IsValid blank (reserve blank d n)
  unfolding dynarray_size
  read-reserve {d} n j v k = (
    rw (read_lem (reserve-IsValid blank v n) j k, read_lem v j k, reserve-read blank d v.block n j),
    reserve_size blank d v.block n,
    reserve-IsValid blank v n,
  )
