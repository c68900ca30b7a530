-- ===== src/Gstack/Inv.antt =====
-- A stack of src/containers/generic_stack.c and the tokens that it holds.
use tinyaml.Prelude.{
  true, false, inl, inr, leb, Bool-cases, ℕ, ◌+◌, ◌-◌, ◌*◌, ◌/◌, ◌%◌, ◌^◌, ◌≤◌, ◌<◌, ◌≡◌, refl,
  arith, List, length, take,
}
use tinyaml.Prelude.{
  zero, suc, Run, ok, set, lt→ltb, ◌∙◌, length-set, take-set, take_all, length-append,
  length-replicate, replicate, take-append, ◌⊎◌,
}
use tinyaml.Gstack.{
  grow_room, push_room, Gstack, word, minus_one, size, clear_from, resize, push_room,
}

-- `s` holds the tokens `xs`, the lowest first: `sp` and `tok_sp` are those of that height, and the
-- block has `sz` tokens, fewer than 2 ^ 50.
pub record Holds {ℓ} {A : Type ℓ} (s : Gstack A) (xs : List A) : Type ℓ where
  pub wide : 0 < s.token_size
  pub narrow : s.token_size < 1024
  pub top : s.sp ≡ (length xs + minus_one) % word
  pub offset : s.tok_sp ≡ (length xs * s.token_size + (word - s.token_size)) % word
  pub contents : take (length xs) s.block ≡ xs
  pub block : length s.block ≡ s.sz
  pub fits : length xs ≤ s.sz
  pub bounded : s.sz ≤ 2 ^ 50

pub mul_bounds : (n t : ℕ) → 0 < t → t < 1024 → (n ≤ n * t) × (n * t ≤ n * 1023)
mul_bounds n t h k = grind arith

pub mul-div : (n t : ℕ) → 0 < t → n * t / t ≡ n
mul-div n t h = grind arith

module _ {ℓ} {A : Type ℓ} {s : Gstack A} {xs : List A} (v : Holds s xs) where
  pub size_lem : size s ≡ length xs
  unfolding size
  size_lem = omega arith

  -- The offset of the token above the top one.
  pub above : (s.tok_sp + s.token_size) % word ≡ length xs * s.token_size
  above = omega (arith, mul_bounds (length xs) s.token_size)

module _ {ℓ} {A : Type ℓ} (blank : A) where
  -- Clearing tokens inside a block succeeds and leaves those below alone.
  pub record Cleared (b : List A) (from : ℕ) (r : Run (List A)) : Type ℓ where
    pub out : List A
    pub done : r ≡ ok out
    pub long : length out ≡ length b
    pub below : (n : ℕ) → n ≤ from → take n out ≡ take n b

  pub clear_from-Cleared :
      (b : List A) (from count : ℕ)
      → from + count ≤ length b
      → Cleared b from (clear_from blank b from count)
  unfolding clear_from
  clear_from-Cleared b from zero h = record {
    out = b;
    done = refl;
    long = refl;
    below = λ n k. refl;
  }
  clear_from-Cleared b from (suc count) h =
      let rest =
        clear_from-Cleared (set b from blank) (from + 1) count
          (omega (arith, length-set b from blank)) in
      record {
        out = rest.out;
        done = rw (lt→ltb from (length b) (omega arith)) rest.done;
        long = rest.long ∙ length-set b from blank;
        below = λ n k. rest.below n (omega arith) ∙ take-set n from b blank k;
      }

module _ {ℓ} {A : Type ℓ} where
  pub length-resize : (junk : A) (b : List A) (n : ℕ) → length b ≤ n → length (resize junk b n) ≡ n
  unfolding resize
  length-resize junk b n h = rw (take_all n b h) (
      omega (
        arith,
        length-append b (replicate (n - length b) junk),
        length-replicate (n - length b) junk,
      ))

  pub take-resize :
      (junk : A) (b : List A) (n k : ℕ)
      → length b ≤ n
      → k ≤ length b
      → take k (resize junk b n) ≡ take k b
  unfolding resize
  take-resize junk b n k h g =
      rw (take_all n b h) (take-append k b (replicate (n - length b) junk) g)

  -- What making room comes to: a block that holds the tokens `xs` and has room above them.
  pub record Room (xs : List A) (s : Gstack A) (extra : ℕ) (r : Run (Gstack A)) : Type ℓ where
    pub out : Gstack A
    pub done : r ≡ ok out
    pub same : (out.sp ≡ s.sp) × (out.tok_sp ≡ s.tok_sp) × (out.token_size ≡ s.token_size)
    pub holds : take (length xs) out.block ≡ xs
    pub full : length out.block ≡ out.sz
    pub room : s.sz ≤ out.sz
    pub limit : out.sz ≤ s.sz + extra
    pub enough : (out.sz ≡ s.sz + extra) ⊎ (s.tok_sp < out.sz)

module _ {ℓ} {A : Type ℓ} (blank junk : A) where
  -- `realloc` to a larger block and `memset` of new tokens keep the tokens below.
  enlarge :
      (b : List A) (new from count n : ℕ)
      → length b ≤ new
      → from + count ≤ new
      → n ≤ from
      → n ≤ length b
      → (out : List A) × (clear_from blank (resize junk b new) from count ≡ ok out)
        × (length out ≡ new)
        × (take n out ≡ take n b)
  enlarge b new from count n h k m q =
      let long = length-resize junk b new h in
      let c = clear_from-Cleared blank (resize junk b new) from count (omega (arith, long)) in
      (c.out, c.done, c.long ∙ long, c.below n m ∙ take-resize junk b new n h q)

  -- The two outcomes of making room: the block serves as it is, or is enlarged.
  module _ (s : Gstack A) (xs : List A) (extra : ℕ) {r : Run (Gstack A)} where
    Room-same :
        r ≡ ok s
        → leb s.sz s.tok_sp ≡ false
        → length s.block ≡ s.sz
        → take (length xs) s.block ≡ xs
        → Room xs s extra r
    Room-same done small block holds = record {
      out = s;
      done = done;
      same = (refl, refl, refl);
      holds = holds;
      full = block;
      room = omega arith;
      limit = omega arith;
      enough = inr (ground arith);
    }

    Room-enlarged :
        (b : List A)
        → r ≡ ok (record s { sz = s.sz + extra; block = b })
        → length b ≡ s.sz + extra
        → take (length xs) b ≡ xs
        → Room xs s extra r
    Room-enlarged b done long holds = record {
      out = record s { sz = s.sz + extra; block = b };
      done = done;
      same = (refl, refl, refl);
      holds = holds;
      full = long;
      room = omega arith;
      limit = omega arith;
      enough = inl refl;
    }

  module _ (s : Gstack A) (xs : List A) (fits : length xs ≤ s.sz) (bounded : s.sz ≤ 2 ^ 50)
      (block : length s.block ≡ s.sz) (holds : take (length xs) s.block ≡ xs) where
    pub push_room-Room :
        (s.tok_sp + s.token_size) / s.token_size ≡ suc (length xs)
        → s.sp ≡ length xs
        → Room xs s 1024 (push_room blank junk s)
    unfolding push_room
    push_room-Room step top = elim (Bool-cases (leb s.sz s.tok_sp)) [
      | inr h ↦ Room-same s xs 1024 (rw h) h block holds
      | inl h ↦
          let (out, done, long, kept) =
            enlarge s.block (s.sz + 1024) (suc (length xs)) (s.sz + 1023 - length xs) (length xs)
              (omega arith) (omega arith) (omega arith) (omega arith) in
          Room-enlarged s xs 1024 out (push_room_big h out done) long (kept ∙ holds)
    ]
      where
        push_room_big :
            leb s.sz s.tok_sp ≡ true
            → (b : List A)
            → clear_from blank
                (resize junk s.block (s.sz + 1024))
                (suc (length xs))
                (s.sz + 1023 - length xs)
              ≡ ok b
            → push_room blank junk s ≡ ok (record s { sz = s.sz + 1024; block = b })
        push_room_big h b done =
            let big : (s.sz + 1024) % word ≡ s.sz + 1024 = omega arith in
            let left : ((s.sz + 1024) + word - s.sp + minus_one) % word ≡ s.sz + 1023 - length xs =
              omega arith in
            rw (h, big, step, left, done)

    pub grow_room-Room : Room xs s 16384 (grow_room blank junk s)
    unfolding grow_room
    grow_room-Room = elim (Bool-cases (leb s.sz s.tok_sp)) [
      | inr h ↦ Room-same s xs 16384 (rw h) h block holds
      | inl h ↦
          let (out, done, long, kept) =
            enlarge s.block (s.sz + 16384) s.sz 16384 (length xs) (omega arith) (omega arith)
              (omega arith) (omega arith) in
          Room-enlarged s xs 16384 out (grow_room_big h out done) long (kept ∙ holds)
    ]
      where
        grow_room_big :
            leb s.sz s.tok_sp ≡ true
            → (b : List A) → clear_from blank (resize junk s.block (s.sz + 16384)) s.sz 16384 ≡ ok b
            → grow_room blank junk s ≡ ok (record s { sz = s.sz + 16384; block = b })
        grow_room_big h b done =
            let big : (s.sz + 16384) % word ≡ s.sz + 16384 = omega arith in rw (h, big, done)
