-- ===== src/Gstack/Access.antt =====
-- Reading and lowering the stacks of src/containers/generic_stack.c: `_gpop`, `_gpeek`,
-- `gstack_shrink`, `gstack_grow` and the loop of `gstack_deinit`, against the list of tokens.
use native.Mathlib.Nat.{le-div_iff_mul-le, add-mul}
use mathlib.Core.List.{reverse, reverse-append, reverse-reverse}
use tinyaml.Prelude.{
  none, length-reverse, get_elem?_beyond, leb, true, ◌==◌, false, ℕ, zero, suc, ◌+◌, ◌-◌, ◌*◌, ◌/◌,
  ◌%◌, ◌^◌, ◌≤◌, ◌<◌, ◌≡◌, refl, arith, List, [], ◌∷◌, ◌++◌, length, take, get_elem?, length-append,
  length-snoc, get_elem?-take, get_elem?-middle, take-take, take-append_self, ltb, ap, ◌∙◌, some,
  sym,
}
use tinyaml.Prelude.{ok, trap, Trap}
use tinyaml.Gstack.{
  biased, Gstack, word, minus_one, negate, size, pop, peek, shrink, drain, deinit, token_at,
}
use tinyaml.Gstack.Inv.{Holds, mul_bounds, mul-div, size_lem}

module _ {ℓ} {A : Type ℓ} {s : Gstack A} where
  -- The token at a slot below the top.
  slot :
      (xs : List A) (x : A) (ys : List A)
      → Holds s (xs ++ (x ∷ ys))
      → get_elem? s.block (length xs) ≡ some x
  slot xs x ys v =
      sym (
        get_elem?-take (length (xs ++ (x ∷ ys))) (length xs) s.block
          (omega (arith, length-append xs (x ∷ ys))))
      ∙ ap (λ b. get_elem? b (length xs)) v.contents
      ∙ get_elem?-middle xs x ys

  -- The counters of a stack of `n + 1` tokens.
  top_lem :
      (n : ℕ) (xs : List A)
      → Holds s xs
      → length xs ≡ suc n
      → (s.sp ≡ n) × (s.tok_sp ≡ n * s.token_size)
  top_lem n xs v len = omega (
    arith,
    v.top,
    v.fits,
    v.bounded,
    v.offset,
    v.wide,
    v.narrow,
    ap (λ k. k * s.token_size) len,
    mul_bounds n s.token_size v.wide v.narrow,
  )

-- `tok_sp` after it is lowered by `m` tokens.
lower_offset :
    (n m t : ℕ)
    → 0 < t
    → t < 1024
    → n + m ≤ 2 ^ 50
    → (((n + m) * t + (word - t)) % word + word - t * m % word) % word ≡ (n * t + (word - t)) % word
lower_offset n m t h k b = omega (arith, mul_bounds n t h k, mul_bounds m t h k)

-- The offset that `_gpeek` computes, `m` tokens below the top of `n + m + 1`.
peek_offset :
    (n m t : ℕ) → n + m ≤ 2 ^ 50 → t < 1024 → 0 < t → ((n + m) * t + negate m * t) % word ≡ n * t
peek_offset n zero t b k h = omega (arith, mul_bounds n t h k)
peek_offset n (suc m) t b k h =
    let e : negate (suc m) * t + suc m * t ≡ word * t =
      sym (add-mul (negate (suc m)) (suc m) t) ∙ ap (λ w. w * t) (omega arith) in
    omega (arith, mul_bounds n t h k, e)

module _ {ℓ} {A : Type ℓ} (s : Gstack A) where
  -- The token at an offset that is a multiple of the token size.
  token_at_slot :
      (n : ℕ) (x : A)
      → 0 < s.token_size
      → get_elem? s.block n ≡ some x
      → token_at s (n * s.token_size) ≡ ok x
  unfolding token_at
  token_at_slot n x h e = rw (mul-div n s.token_size h, e)

  -- Lowering the counters by some tokens leaves those below.
  lowered-Holds :
      (xs ys : List A) (sp tok_sp : ℕ)
      → Holds s (xs ++ ys)
      → sp ≡ (s.sp + word - length ys) % word
      → tok_sp ≡ (s.tok_sp + word - s.token_size * length ys % word) % word
      → Holds (record s { sp = sp; tok_sp = tok_sp }) xs
  lowered-Holds xs ys sp tok_sp v p q = record {
    wide = v.wide;
    narrow = v.narrow;
    top = omega (arith, v.top, v.fits, v.bounded, length-append xs ys);
    offset =
        q
        ∙ ap (λ o. (o + word - s.token_size * length ys % word) % word)
            (v.offset
              ∙ ap (λ n. (n * s.token_size + (word - s.token_size)) % word) (length-append xs ys))
        ∙ lower_offset (length xs) (length ys) s.token_size v.wide v.narrow
            (omega (arith, v.fits, v.bounded, length-append xs ys));
    contents =
        sym (take-take (length xs) (length (xs ++ ys)) s.block (omega (arith, length-append xs ys)))
        ∙ ap (take (length xs)) v.contents
        ∙ take-append_self xs ys;
    block = v.block;
    fits = omega (arith, v.fits, length-append xs ys);
    bounded = v.bounded;
  }

module _ {ℓ} {A : Type ℓ} where
  -- The counters after `_gpop`.
  abbrev popped : Gstack A → Gstack A
  popped s = record s {
    sp = (s.sp + minus_one) % word;
    tok_sp = (s.tok_sp + word - s.token_size) % word;
  }

  abbrev shrunk : Gstack A → ℕ → Gstack A
  shrunk s count = record s {
    sp = (s.sp + word - count) % word;
    tok_sp = (s.tok_sp + word - s.token_size * count % word) % word;
  }

  -- Popping a stack that holds a token gives the top one and leaves the others.
  pub pop-Holds :
      {s : Gstack A} (xs : List A) (x : A)
      → Holds s (xs ++ (x ∷ []))
      → (s' : Gstack A) × (pop s ≡ ok (x, s')) × Holds s' xs
  unfolding pop
  pop-Holds {s} xs x v =
      let (sp, tok) = top_lem (length xs) (xs ++ (x ∷ [])) v (length-snoc xs x) in
      (
        popped s,
        rw (nonempty sp, tok, token_at_slot s (length xs) x v.wide (slot xs x [] v)),
        lowered-Holds s xs (x ∷ []) _ _ v (omega (arith, sp)) (omega (arith, v.wide, v.narrow)),
      )
    where
      nonempty : s.sp ≡ length xs → (s.sp == minus_one) ≡ false
      nonempty e = ground (arith, v.fits, v.bounded, length-snoc xs x)

  -- Popping an empty stack fails the assertion.
  pub pop_empty : {s : Gstack A} → Holds s [] → pop s ≡ trap Trap.assert_failed
  unfolding pop
  pop_empty {s} v = ground (arith, v.top)

  -- Peeking below the top gives the token at that depth, and changes nothing.
  pub peek-Holds :
      {s : Gstack A} (xs : List A) (x : A) (ys : List A)
      → Holds s (xs ++ (x ∷ ys))
      → peek s (negate (length ys)) ≡ ok x
  unfolding peek
  peek-Holds {s} xs x ys v =
      let (sp, tok) =
        top_lem (length xs + length ys) (xs ++ (x ∷ ys)) v
          (omega (arith, length-append xs (x ∷ ys))) in
      let small : length xs + length ys ≤ 2 ^ 50 =
        omega (arith, v.fits, v.bounded, length-append xs (x ∷ ys)) in
      let back : negate (negate (length ys)) ≡ length ys = omega arith in
      rw
        (
          back,
          deep sp,
          deep' sp,
          tok,
          peek_offset (length xs) (length ys) s.token_size small v.narrow v.wide,
        )
        (token_at_slot s (length xs) x v.wide (slot xs x ys v))
    where
      deep : s.sp ≡ length xs + length ys → ltb s.sp (length ys) ≡ false
      deep e = ground arith

      deep' : s.sp ≡ length xs + length ys → leb (length ys) s.sp ≡ true
      deep' e = ground arith

  -- Peeking deeper than the tokens of a stack that holds some aborts.
  pub peek_deep :
      {s : Gstack A} (xs : List A) (depth : ℕ)
      → Holds s xs
      → 0 < length xs
      → length xs ≤ depth
      → depth < word
      → peek s (negate depth) ≡ trap Trap.aborted
  unfolding peek
  peek_deep {s} xs depth v some_tokens deep small =
      let (sp, tok) = top_lem (length xs - 1) xs v (omega arith) in
      let back : negate (negate depth) ≡ depth = omega arith in rw (back, under sp)
    where
      under : s.sp ≡ length xs - 1 → ltb s.sp depth ≡ true
      under e = ground arith

  -- Shrinking by a number of tokens that the stack holds drops those from the top.
  pub shrink-Holds :
      {s : Gstack A} (xs ys : List A)
      → Holds s (xs ++ ys)
      → (s' : Gstack A) × (shrink s (length ys) ≡ ok s') × Holds s' xs
  unfolding shrink
  shrink-Holds {s} xs ys v =
      (shrunk s (length ys), rw allowed, lowered-Holds s xs ys _ _ v refl refl)
    where
      allowed : leb (biased ((length ys + minus_one) % word)) (biased s.sp) ≡ true
      allowed = ground (arith, v.top, v.fits, v.bounded, length-append xs ys)

  drain_lem :
      (fuel : ℕ) {s : Gstack A} (ys : List A)
      → Holds s (reverse ys)
      → length ys < fuel
      → drain fuel s ≡ ok ys
  unfolding drain
  drain_lem zero ys v h = absurd (omega arith)
  drain_lem (suc fuel) {s} [] v h = rw (empty, drain)
    where
      empty : (s.sp == minus_one) ≡ true
      empty = ground (arith, v.top)
  drain_lem (suc fuel) {s} (y ∷ ys) v h =
      let w : Holds s (reverse ys ++ (y ∷ [])) = rw (← reverse-append (y ∷ []) ys) v in
      let (s', popped, rest) = pop-Holds (reverse ys) y w in
      rw (full w, drain, popped, drain_lem fuel ys rest (omega arith))
    where
      full : Holds s (reverse ys ++ (y ∷ [])) → (s.sp == minus_one) ≡ false
      full w = ground (arith, w.top, w.fits, w.bounded, length-snoc (reverse ys) y)

  -- Deinitialising a stack with a callback hands it every token, the top one first.
  pub deinit-Holds : {s : Gstack A} {xs : List A} → Holds s xs → deinit s ≡ ok (reverse xs)
  unfolding deinit
  deinit-Holds {s} {xs} v =
      drain_lem (suc (size s)) {s = s} (reverse xs) (rw (reverse-reverse xs) v)
        (omega (arith, size_lem v, length-reverse xs))

  -- Peeking at the top of an empty stack is not caught: it reads outside the block.
  pub peek_empty : {s : Gstack A} → Holds s [] → peek s 0 ≡ trap Trap.out_of_bounds
  unfolding peek token_at
  peek_empty {s} v =
      let far : s.sz ≤ (s.tok_sp + 0 * s.token_size) % word / s.token_size =
        (le-div_iff_mul-le {k = s.token_size} v.wide).1 (
          omega
            (arith, v.offset, v.narrow, v.bounded, mul_bounds s.sz s.token_size v.wide v.narrow)) in
      let gone : get_elem? s.block ((s.tok_sp + 0 * s.token_size) % word / s.token_size) ≡ none =
        get_elem?_beyond s.block _ (rw v.block far) in
      rw (under, over, gone)
    where
      under : ltb s.sp (negate 0) ≡ false
      under = ground arith

      over : leb (negate 0) s.sp ≡ true
      over = ground arith
