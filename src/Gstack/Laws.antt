-- ===== src/Gstack/Laws.antt =====
-- What src/containers/generic_stack.c promises: a stack is the list of its tokens, whatever the
-- memory that `realloc` adds holds, and no offset leaves the block.
use tinyaml.Prelude.{
  length-snoc, ℕ, suc, ◌+◌, ◌/◌, ◌%◌, ◌^◌, ◌≤◌, ◌<◌, ◌≡◌, refl, arith, List, [], ◌∷◌, ◌++◌, length,
  set, length-set, take-suc-set, lt→ltb, ap, ◌∙◌,
}
use tinyaml.Prelude.{Run, ok}
use tinyaml.Gstack.{Gstack, word, minus_one, negate, init, push}
use tinyaml.Gstack.Inv.{Holds, mul_bounds, mul-div, above, Room, push_room-Room}

module _ {ℓ} {A : Type ℓ} where
  -- Initialising a stack for tokens of 1 to 1023 bytes gives the empty stack.
  pub gstack_init-Holds :
      (ts : ℕ) → 0 < ts → ts < 1024 → (s : Gstack A) × (init ts ≡ ok s) × Holds s []
  unfolding init
  gstack_init-Holds ts h k = (
    record { sz = 0; sp = minus_one; tok_sp = negate ts; token_size = ts; block = [] },
    rw (lt→ltb ts 1024 k),
    record {
      wide = h;
      narrow = k;
      top = omega arith;
      offset = omega arith;
      contents = refl;
      block = refl;
      fits = omega arith;
      bounded = omega arith;
    },
  )

  -- The counters of a stack one token higher.
  abbrev lifted : Gstack A → Gstack A
  lifted s = record s { sp = (s.sp + 1) % word; tok_sp = (s.tok_sp + s.token_size) % word }

  -- The stack after the last write of `gpush`.
  abbrev placed : Gstack A → ℕ → A → Gstack A
  placed r i x = record r { block = set r.block i x }

  module _ {s : Gstack A} {xs : List A} (v : Holds s xs) where
    lifted_sp : (lifted s).sp ≡ length xs
    lifted_sp = omega (arith, v.top, v.fits, v.bounded)

    next_token : ((lifted s).tok_sp + s.token_size) / s.token_size ≡ suc (length xs)
    next_token =
        ap (λ k. (k + s.token_size) / s.token_size) (above v)
        ∙ ap (λ k. k / s.token_size) (omega arith)
        ∙ mul-div (suc (length xs)) s.token_size v.wide

    this_token : (lifted s).tok_sp / s.token_size ≡ length xs
    this_token = ap (λ k. k / s.token_size) (above v) ∙ mul-div (length xs) s.token_size v.wide

    -- Writing the token above the top of a block with room for it.
    placed-Holds :
        (x : A) {extra : ℕ} {m : Run (Gstack A)} (r : Room xs (lifted s) extra m)
        → 0 < extra
        → s.sz + extra ≤ 2 ^ 50
        → (length xs < length r.out.block) × Holds (placed r.out (length xs) x) (xs ++ (x ∷ []))
    placed-Holds x r some_room small =
        let inside : length xs < length r.out.block = omega (
          arith,
          r.enough,
          r.full,
          v.fits,
          above v,
          r.limit,
          r.same,
          mul_bounds (length xs) s.token_size v.wide v.narrow,
        ) in
        (
          inside,
          record {
            wide = rw r.same.2 v.wide;
            narrow = rw r.same.2 v.narrow;
            top = rw (length-snoc xs x, r.same.0, lifted_sp) (omega (arith, v.fits, v.bounded));
            offset =
                rw (length-snoc xs x, r.same.1, r.same.2, above v)
                  (omega (
                    arith,
                    v.fits,
                    v.bounded,
                    v.wide,
                    v.narrow,
                    mul_bounds (length xs) s.token_size v.wide v.narrow,
                  ));
            contents =
                rw (length-snoc xs x)
                  (take-suc-set (length xs) r.out.block x inside ∙ ap (λ t. t ++ (x ∷ [])) r.holds);
            block = length-set r.out.block (length xs) x ∙ r.full;
            fits = omega (arith, length-snoc xs x, inside, r.full);
            bounded = omega (arith, r.limit);
          },
        )

module _ {ℓ} {A : Type ℓ} (blank junk : A) where
  -- Pushing onto a stack with at most 2 ^ 50 - 1024 tokens of memory puts the token on top.
  pub push-Holds :
      {s : Gstack A} {xs : List A} (x : A)
      → Holds s xs
      → s.sz + 1024 ≤ 2 ^ 50
      → (s' : Gstack A) × (push blank junk s x ≡ ok s') × Holds s' (xs ++ (x ∷ []))
  unfolding push
  push-Holds {s} {xs} x v small =
      let r =
        push_room-Room blank junk (lifted s) xs v.fits v.bounded v.block v.contents (next_token v)
          (lifted_sp v) in
      let (inside, held) = placed-Holds v x r (omega arith) small in
      (
        placed r.out (length xs) x,
        rw (r.done, r.same.1, r.same.2, this_token v, lt→ltb _ _ inside),
        held,
      )
