-- ===== src/Gstack.antt =====
-- src/containers/generic_stack.c with include/generic_stack.h: stacks of tokens of one size.
-- A token is a value of any type `A`; the block at `stack` is cut into tokens, and an address in it
-- is a byte offset, as in the source. `blank` is the token of zero bytes, `junk` what the memory
-- that `realloc` adds holds.
pub mod Inv
pub mod Laws
pub mod Access
pub mod Grow
use tinyaml.Prelude.{
  ℕ, zero, suc, ◌+◌, ◌-◌, ◌*◌, ◌/◌, ◌%◌, ◌^◌, Bool, List, [], ◌∷◌, ◌++◌, true, false, ltb, leb,
  ◌==◌, not, if◌then◌else◌, length, get_elem?, set, take, replicate,
}
use tinyaml.Prelude.{Run, ok, trap, ◌>>=◌, ◌>>◌, require, expect, Trap}

-- `struct _generic_stack_t`
pub record Gstack {ℓ} (A : Type ℓ) : Type ℓ where
  pub sz : ℕ
  pub sp : ℕ
  pub tok_sp : ℕ
  pub token_size : ℕ
  pub block : List A

abbrev pub word : ℕ
word = 2 ^ 64

-- `(word_t)-1`
abbrev pub minus_one : ℕ
minus_one = 2 ^ 64 - 1

-- `-w` on a word.
abbrev pub negate : ℕ → ℕ
negate w = (word - w) % word

-- The value of a word as a `long`, plus 2 ^ 63: comparisons of `long`s are those of these numbers.
abbrev pub biased : ℕ → ℕ
biased w = (w + 2 ^ 63) % word

module _ {ℓ} {A : Type ℓ} where
  -- `gstack_init`
  unfoldable pub init : ℕ → Run (Gstack A)
  init token_size = do
    require Trap.assert_failed (ltb token_size 1024)
    ok (record {
      sz = 0;
      sp = minus_one;
      tok_sp = negate token_size;
      token_size = token_size;
      block = [];
    })

  -- `gstack_size`
  unfoldable pub size : Gstack A → ℕ
  size s = (s.sp + 1) % word

  -- `gstack_is_empty`
  unfoldable pub is_empty : Gstack A → Bool
  is_empty s = s.sp == minus_one

  -- The token that starts `offset` bytes into the block.
  unfoldable pub token_at : Gstack A → ℕ → Run A
  token_at s offset = expect Trap.out_of_bounds (get_elem? s.block (offset / s.token_size))

  -- `_gpop`, with the token at the address that it returns.
  unfoldable pub pop : Gstack A → Run (A × Gstack A)
  unfolding token_at
  pop s = do
    require Trap.assert_failed (not (s.sp == minus_one))
    t ← token_at s s.tok_sp
    ok (
      t,
      record s { sp = (s.sp + minus_one) % word; tok_sp = (s.tok_sp + word - s.token_size) % word },
    )

  -- `_gpeek` at `rel_ofs`, a `long` given as a word, with the token at the address that it returns.
  unfoldable pub peek : Gstack A → ℕ → Run A
  unfolding token_at
  peek s rel_ofs = do
    require Trap.aborted (not (ltb s.sp (negate rel_ofs)))
    require Trap.assert_failed (leb (negate rel_ofs) s.sp)
    token_at s ((s.tok_sp + rel_ofs * s.token_size) % word)

  -- `gstack_shrink`
  unfoldable pub shrink : Gstack A → ℕ → Run (Gstack A)
  shrink s count = do
    require Trap.assert_failed (leb (biased ((count + minus_one) % word)) (biased s.sp))
    ok (record s {
      sp = (s.sp + word - count) % word;
      tok_sp = (s.tok_sp + word - s.token_size * count % word) % word;
    })

  -- The loop of `gstack_deinit`: the tokens that the callback is given.
  unfoldable pub drain : ℕ → Gstack A → Run (List A)
  unfolding pop
  drain zero s = trap Trap.out_of_fuel
  drain (suc fuel) s = elim (s.sp == minus_one) [
    | true ↦ ok []
    | false ↦ pop s >>= λ (t, s'). drain fuel s' >>= λ ts. ok (t ∷ ts)
  ]

  -- `gstack_deinit` with a callback.
  unfoldable pub deinit : Gstack A → Run (List A)
  unfolding drain
  deinit s = drain (suc (size s)) s

  -- `realloc` of the block to `n` tokens.
  unfoldable pub resize : A → List A → ℕ → List A
  resize junk b n = take n b ++ replicate (n - length b) junk

  -- `memset` of `count` tokens to zero, from the token `from` on.
  unfoldable pub clear_from : A → List A → ℕ → ℕ → Run (List A)
  clear_from blank b from zero = ok b
  clear_from blank b from (suc count) = do
    require Trap.out_of_bounds (ltb from (length b))
    clear_from blank (set b from blank) (from + 1) count

  module _ (blank junk : A) where
    -- The test, `realloc` and `memset` of `gpush`.
    unfoldable pub push_room : Gstack A → Run (Gstack A)
    push_room s =
        let sz' = (s.sz + 1024) % word in
        if leb s.sz s.tok_sp
        then (clear_from blank (resize junk s.block sz') ((s.tok_sp + s.token_size) / s.token_size)
              ((sz' + word - s.sp + minus_one) % word)
            >>= λ b. ok (record s { sz = sz'; block = b }))
        else ok s

    -- `gpush`
    unfoldable pub push : Gstack A → A → Run (Gstack A)
    unfolding push_room
    push s w = do
      r ← push_room (record s { sp = (s.sp + 1) % word; tok_sp = (s.tok_sp + s.token_size) % word })
      require Trap.out_of_bounds (ltb (r.tok_sp / r.token_size) (length r.block))
      ok (record r { block = set r.block (r.tok_sp / r.token_size) w })

    -- The test, `realloc` and `memset` of `gstack_grow`.
    unfoldable pub grow_room : Gstack A → Run (Gstack A)
    grow_room s =
        let sz' = (s.sz + 16384) % word in
        if leb s.sz s.tok_sp
        then (clear_from blank (resize junk s.block sz') s.sz 16384 >>= λ b.
            ok (record s { sz = sz'; block = b }))
        else ok s

    -- `gstack_grow`
    unfoldable pub grow : Gstack A → ℕ → Run (Gstack A)
    unfolding grow_room
    grow s count = do
      require Trap.assert_failed (ltb count 16384)
      grow_room (record s {
        sp = (s.sp + count) % word;
        tok_sp = (s.tok_sp + s.token_size * count) % word;
      })
