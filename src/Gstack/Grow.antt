-- ===== src/Gstack/Grow.antt =====
-- `gstack_grow` of src/containers/generic_stack.c against the list of tokens.
use tinyaml.Prelude.{
  ℕ, zero, suc, ◌+◌, ◌-◌, ◌*◌, ◌%◌, ◌^◌, ◌≤◌, ◌<◌, ◌≡◌, arith, List, ◌++◌, length, take, drop,
  length-append, take-take, length-drop, length-take, take-append-drop, lt→ltb, ap, ◌∙◌, sym, inl,
  inr,
}
use tinyaml.Prelude.{Run, ok}
use tinyaml.Gstack.{Gstack, word, grow}
use tinyaml.Gstack.Inv.{Holds, mul_bounds, Room, grow_room-Room}

module _ (t tok : ℕ) (h : 0 < t) (k : t < 1024) where
  raised_offset :
      (n count : ℕ)
      → tok ≡ (n * t + (word - t)) % word
      → n ≤ 2 ^ 50
      → count < 16384
      → (tok + t * count) % word ≡ ((n + count) * t + (word - t)) % word
  raised_offset n count e b c = omega (arith, mul_bounds n t h k, mul_bounds count t h k)

  -- The top of `n` tokens starts `n - 1` bytes into the block or later.
  offset_ge : (n sz : ℕ) → tok ≡ (n * t + (word - t)) % word → n ≤ 2 ^ 51 → tok < sz → n ≤ sz
  offset_ge zero sz e b c = omega arith
  offset_ge (suc n) sz e b c = omega (arith, mul_bounds n t h k)

module _ {ℓ} {A : Type ℓ} (blank junk : A) where
  abbrev raised : Gstack A → ℕ → Gstack A
  raised s count = record s {
    sp = (s.sp + count) % word;
    tok_sp = (s.tok_sp + s.token_size * count) % word;
  }

  raised_fits :
      {s : Gstack A} {xs : List A} {count : ℕ} {m : Run (Gstack A)}
      → Holds s xs
      → (r : Room xs (raised s count) 16384 m) → count < 16384
      → length xs + count ≤ r.out.sz
  raised_fits {s} {xs} {count} v r few = elim r.enough [
    | inl e ↦ omega (arith, v.fits)
    | inr lt ↦
        offset_ge s.token_size _ v.wide v.narrow (length xs + count) r.out.sz
          (raised_offset s.token_size s.tok_sp v.wide v.narrow (length xs) count v.offset
            (omega (arith, v.fits, v.bounded)) few)
          (omega (arith, v.fits, v.bounded)) lt
  ]

  -- Growing by fewer than 16384 tokens a stack with at most 2 ^ 50 - 16384 tokens of memory adds that
  -- many on top, whatever they hold.
  pub grow-Holds :
      {s : Gstack A} {xs : List A} (count : ℕ)
      → Holds s xs
      → count < 16384
      → s.sz + 16384 ≤ 2 ^ 50
      → (s' : Gstack A) × (ys : List A) × (grow blank junk s count ≡ ok s')
        × (length ys ≡ count)
        × Holds s' (xs ++ ys)
  unfolding grow
  grow-Holds {s} {xs} count v few small =
      let r = grow_room-Room blank junk (raised s count) xs v.fits v.bounded v.block v.contents in
      let ys = drop (length xs) (take (length xs + count) r.out.block) in
      let fits = raised_fits v r few in
      let len : length ys ≡ count = omega (
        arith,
        length-drop (length xs) (take (length xs + count) r.out.block),
        length-take (length xs + count) r.out.block,
        fits,
        r.full,
      ) in
      let all : xs ++ ys ≡ take (length xs + count) r.out.block =
        ap (λ z. z ++ ys)
          (sym r.holds ∙ sym (take-take (length xs) (length xs + count) r.out.block (omega arith)))
        ∙ take-append-drop (length xs) (take (length xs + count) r.out.block) in
      let long : length (xs ++ ys) ≡ length xs + count = omega (arith, length-append xs ys, len) in
      (
        r.out,
        ys,
        rw (lt→ltb count 16384 few, r.done),
        len,
        record {
          wide = rw r.same.2 v.wide;
          narrow = rw r.same.2 v.narrow;
          top = rw (long, r.same.0) (omega (arith, v.top, v.fits, v.bounded));
          offset =
              rw (long, r.same.1, r.same.2)
                (raised_offset s.token_size s.tok_sp v.wide v.narrow (length xs) count v.offset
                  (omega (arith, v.fits, v.bounded)) few);
          contents = rw long (sym all);
          block = r.full;
          fits = omega (arith, fits, long);
          bounded = omega (arith, r.limit);
        },
      )
