-- ===== src/Hashtab/Iter.antt =====
-- The iterator of include/hashtab.h, and the loop of `vm_set_foreach`: what they visit.
use mathlib.Core.List.{tail}
use tinyaml.Prelude.{
  ℕ, zero, suc, ◌+◌, ◌-◌, ◌%◌, ◌^◌, ◌<◌, ◌≤◌, ◌≡◌, refl, arith, Bool, true, false, some, [], ◌∷◌,
  length, get_elem?, get_or, drop, ap, ◌∙◌, Bool-cases, inl, inr, leb, get_elem?-eq-get_or,
  drop_all, drop-get_elem?,
}
use tinyaml.Prelude.{Run, ok}
use tinyaml.Hashtab.{Chain, Table, Iterator, hash_size, next_row, incr, walk, foreach}

module _ {ℓ κ} {K : Type ℓ} {E : Type κ} where
  -- The first entry of each row that has one, in the order of the rows.
  pub heads : Table K E → Chain K E
  heads [] = []
  heads ([] ∷ t) = heads t
  heads ((x ∷ c) ∷ t) = x ∷ heads t

  -- What the loop of `hi_incr` comes to when the next row is `i`: the end of the table, or the first
  -- entry of the next row that has one.
  data Next (t : Table K E) (i : ℕ) (r : Run (Iterator K E × Bool)) : Type (ℓ ⊔ κ) where
    stop :
        heads (drop i t) ≡ []
        → r ≡ ok (record { at_row = hash_size; entry = [] }, false)
        → Next t i r
    visit :
        (j : ℕ) (x : K × E) (c : Chain K E)
        → i ≤ j
        → j < hash_size
        → heads (drop i t) ≡ x ∷ heads (drop (suc j) t)
        → r ≡ ok (record { at_row = j; entry = x ∷ c }, true)
        → Next t i r

  module _ (t : Table K E) (full : length t ≡ hash_size) where
    next_row-Next :
        (fuel r i : ℕ)
        → (r + 1) % 2 ^ 64 ≡ i
        → i ≤ hash_size
        → hash_size < fuel + i
        → Next t i (next_row fuel t r)
    unfolding next_row heads
    next_row-Next zero r i e h k = absurd (omega arith)
    next_row-Next (suc fuel) r i e h k = elim (Bool-cases (leb hash_size i)) [
      | inl g ↦
          stop (ap heads (drop_all i t (ground arith)))
            (rw (e, g) (ap (λ q. ok (record { at_row = q; entry = [] }, false)) (ground arith)))
      | inr g ↦
          here g (get_or t i []) (get_elem?-eq-get_or t i [] (ground arith))
            (next_row-Next fuel i (suc i) (ground arith) (ground arith) (omega arith))
    ]
      where
        here :
            leb hash_size i ≡ false
            → (c : Chain K E) → get_elem? t i ≡ some c
            → Next t (suc i) (next_row fuel t i)
            → Next t i (next_row (suc fuel) t r)
        here g [] s (stop none_left q) =
            stop (ap heads (drop-get_elem? i t [] s) ∙ none_left) (rw (e, g, s, e) q)
        here g [] s (visit j x c below inside eq q) =
            visit j x c (omega arith) inside (ap heads (drop-get_elem? i t [] s) ∙ eq)
              (rw (e, g, s, e) q)
        here g (x ∷ c) s again =
            visit i x c (omega arith) (ground arith) (ap heads (drop-get_elem? i t (x ∷ c) s))
              (rw (e, g, s, e))

    -- From an iterator on a row, the loop visits the first entries of the later rows.
    walk-heads :
        (fuel : ℕ) (hi : Iterator K E)
        → hi.at_row < hash_size
        → hash_size < fuel + hi.at_row
        → walk fuel t hi ≡ ok (heads (drop (suc hi.at_row) t))
    unfolding walk incr
    walk-heads zero hi h k = absurd (omega arith)
    walk-heads (suc fuel) hi h k =
        go (next_row-Next (suc hash_size) hi.at_row (suc hi.at_row) (omega arith) h (omega arith))
          (λ j x c below inside.
            walk-heads fuel (record { at_row = j; entry = x ∷ c }) inside (omega arith))
      where
        go :
            Next t (suc hi.at_row) (next_row (suc hash_size) t hi.at_row)
            → ((j : ℕ) (x : K × E) (c : Chain K E)
                → suc hi.at_row ≤ j
                → j < hash_size
                → walk fuel t (record { at_row = j; entry = x ∷ c }) ≡ ok (heads (drop (suc j) t)))
            → walk (suc fuel) t hi ≡ ok (heads (drop (suc hi.at_row) t))
        go (stop none_left q) again = rw (q, none_left)
        go (visit j x c below inside eq q) again = rw (q, eq, again j x c below inside)

    walk_end : (fuel : ℕ) → walk (suc fuel) t (record { at_row = hash_size; entry = [] }) ≡ ok []
    unfolding walk incr next_row
    walk_end fuel = refl

    -- On a table of 137 rows `vm_set_foreach` ends, and calls its function on the first entries of
    -- the rows that have one, in order, less the very first: neither on that, nor on any entry
    -- behind the first of its row.
    pub foreach-heads : foreach t ≡ ok (tail (heads t))
    unfolding foreach incr
    foreach-heads =
        go (next_row-Next (suc hash_size) (2 ^ 64 - 1) 0 (omega arith) (omega arith) (omega arith))
      where
        go : Next t 0 (next_row (suc hash_size) t (2 ^ 64 - 1)) → foreach t ≡ ok (tail (heads t))
        go (stop none_left q) = rw (q, none_left) (walk_end hash_size)
        go (visit j x c below inside eq q) =
            rw (q, eq)
              (walk-heads (suc hash_size) (record { at_row = j; entry = x ∷ c }) inside
                (omega arith))
