-- ===== src/Ops/Integers.antt =====
-- The integer operations that src/ops/arithbin.c gives to `fast_apply_bin_func`: `long`s of 64 bits,
-- which wrap around, and division with its remainder, which rounds towards zero.
use tinyaml.Prelude.{
  ℕ, ◌≡◌, ◌≤◌, ◌<◌, ◌+◌, ◌-◌, ◌*◌, ◌/◌, ◌%◌, ◌^◌, Bool, true, false, leb, ltb, ◌==◌, not,
  if◌then◌else◌, ◌&&◌, ◌≢◌, arith, refl, ◌∙◌,
}
use tinyaml.Prelude.{Run, ok, ◌>>◌, require, Trap}
use native.Mathlib.Decide.{dec_lt}
use tinyaml.Gstack.{word, biased}

-- The sign and the size of the `long` that a word is.
unfoldable pub is_negative : ℕ → Bool
is_negative w = leb (2 ^ 63) w

unfoldable pub magnitude : ℕ → ℕ
unfolding is_negative
magnitude w = if is_negative w then word - w else w

-- The word of a size with a sign.
unfoldable pub signed : Bool → ℕ → ℕ
signed negative n = if negative then (word - n) % word else n

-- `_add`, `_sub` and `_mul`
unfoldable pub int_add : ℕ → ℕ → Run ℕ
int_add a b = ok ((a + b) % word)

unfoldable pub int_sub : ℕ → ℕ → Run ℕ
int_sub a b = ok ((a + word - b) % word)

unfoldable pub int_mul : ℕ → ℕ → Run ℕ
int_mul a b = ok (a * b % word)

-- The divisions that the processor refuses: by zero, and of the least `long` by -1.
unfoldable pub divides : ℕ → ℕ → Bool
divides a b = not (b == 0) && not (a == 2 ^ 63 && b == word - 1)

-- Whether two `long`s have different signs.
unfoldable pub opposed : ℕ → ℕ → Bool
unfolding is_negative
opposed a b = if is_negative a then not (is_negative b) else is_negative b

-- `_div` and `m_mod`
unfoldable pub int_div : ℕ → ℕ → Run ℕ
unfolding divides signed magnitude opposed
int_div a b = do
  require Trap.arithmetic (divides a b)
  ok (signed (opposed a b) (magnitude a / magnitude b))

unfoldable pub int_mod : ℕ → ℕ → Run ℕ
unfolding divides signed magnitude is_negative
int_mod a b = do
  require Trap.arithmetic (divides a b)
  ok (signed (is_negative a) (magnitude a % magnitude b))

-- The value of a test.
unfoldable pub truth : Bool → ℕ
truth b = if b then 1 else 0

-- `_inf`, `_sup`, `_eq`, `_neq`, `_infeq` and `_supeq`
unfoldable pub int_lt : ℕ → ℕ → Run ℕ
unfolding truth
int_lt a b = ok (truth (ltb (biased a) (biased b)))

unfoldable pub int_gt : ℕ → ℕ → Run ℕ
unfolding truth
int_gt a b = ok (truth (ltb (biased b) (biased a)))

unfoldable pub int_le : ℕ → ℕ → Run ℕ
unfolding truth
int_le a b = ok (truth (leb (biased a) (biased b)))

unfoldable pub int_ge : ℕ → ℕ → Run ℕ
unfolding truth
int_ge a b = ok (truth (leb (biased b) (biased a)))

unfoldable pub int_eq : ℕ → ℕ → Run ℕ
unfolding truth
int_eq a b = ok (truth (a == b))

unfoldable pub int_ne : ℕ → ℕ → Run ℕ
unfolding truth
int_ne a b = ok (truth (not (a == b)))

magnitude-signed :
    (s : Bool) (n : ℕ) → n ≤ 2 ^ 63 → (s ≡ false → n ≢ 2 ^ 63) → magnitude (signed s n) ≡ n
unfolding magnitude signed
magnitude-signed true n le small = ground arith
magnitude-signed false n le small = ground (arith, small refl)

div_le : (a b : ℕ) → 0 < b → a / b ≤ a
div_le a b pos = grind arith

div_split : (a b : ℕ) → 0 < b → a / b * b + a % b ≡ a
div_split a b pos = grind arith

mod_le : (a b : ℕ) → 0 < b → a % b ≤ a
mod_le a b pos = grind arith

mod_small : (a b : ℕ) → 0 < b → a % b < b
mod_small a b pos = grind arith

div_half : (a b : ℕ) → 1 < b → a / b * 2 ≤ a
div_half a b big = grind arith

is_negative-signed :
    (s : Bool) (n : ℕ)
    → n ≢ 0
    → n ≤ 2 ^ 63
    → (s ≡ false → n ≢ 2 ^ 63)
    → is_negative (signed s n) ≡ s
unfolding is_negative signed
is_negative-signed true n pos le small = ground arith
is_negative-signed false n pos le small = ground (arith, small refl)

module _ (a b : ℕ) (a_word : a < word) (b_word : b < word) (fits : divides a b ≡ true) where
  divisor_pos : 0 < magnitude b
  unfolding magnitude divides
  divisor_pos = ground arith

  quotient_le : magnitude a / magnitude b ≤ 2 ^ 63
  unfolding magnitude
  quotient_le = ground (arith, div_le (magnitude a) (magnitude b) divisor_pos)

  quotient_fits : opposed a b ≡ false → magnitude a / magnitude b ≢ 2 ^ 63
  unfolding magnitude opposed divides
  quotient_fits same e =
      let at_most : magnitude a / magnitude b ≤ magnitude a =
        div_le (magnitude a) (magnitude b) divisor_pos in
      elim (dec_lt 1 (magnitude b)) [
        | yes big ↦ absurd (ground (arith, div_half (magnitude a) (magnitude b) big))
        | no small ↦ absurd (ground (arith, divisor_pos))
      ]

  remainder_le : magnitude a % magnitude b ≤ 2 ^ 63
  unfolding magnitude
  remainder_le = ground (arith, mod_small (magnitude a) (magnitude b) divisor_pos)

  remainder_fits : is_negative a ≡ false → magnitude a % magnitude b ≢ 2 ^ 63
  unfolding magnitude
  remainder_fits same e = ground (arith, mod_le (magnitude a) (magnitude b) divisor_pos)

  -- For two words that the processor divides, quotient and remainder put the dividend together: the quotient is rounded towards zero, and its
  -- sign is that of the product; the remainder is smaller than the divisor, with the dividend's sign.
  pub int_div-int_mod :
      (q : ℕ) × (r : ℕ) × (int_div a b ≡ ok q)
      × (int_mod a b ≡ ok r)
      × (magnitude q * magnitude b + magnitude r ≡ magnitude a)
      × (magnitude r < magnitude b)
      × (magnitude q ≢ 0 → is_negative q ≡ opposed a b)
      × (magnitude r ≢ 0 → is_negative r ≡ is_negative a)
  unfolding int_div int_mod
  int_div-int_mod =
      let x = magnitude a / magnitude b in
      let y = magnitude a % magnitude b in
      let q = magnitude-signed (opposed a b) x quotient_le quotient_fits in
      let r = magnitude-signed (is_negative a) y remainder_le remainder_fits in
      (
        signed (opposed a b) x,
        signed (is_negative a) y,
        rw fits,
        rw fits,
        rw (q, r) (div_split (magnitude a) (magnitude b) divisor_pos),
        rw r (mod_small (magnitude a) (magnitude b) divisor_pos),
        (λ ne. is_negative-signed (opposed a b) x (λ e. ne (q ∙ e)) quotient_le quotient_fits),
        λ ne. is_negative-signed (is_negative a) y (λ e. ne (r ∙ e)) remainder_le remainder_fits,
      )

-- The integer that a word stands for, as a difference of two numbers.
abbrev pub pos_part : ℕ → ℕ
pos_part w = if is_negative w then 0 else w

abbrev pub neg_part : ℕ → ℕ
neg_part w = if is_negative w then word - w else 0

-- The comparison of two words as `long`s is that of the integers that they stand for: the value is 1
-- just when the first integer is the smaller one.
pub int_lt_lem :
    (a b : ℕ)
    → a < word
    → b < word
    → (int_lt a b ≡ ok 1 → pos_part a + neg_part b < pos_part b + neg_part a)
      × (pos_part a + neg_part b < pos_part b + neg_part a → int_lt a b ≡ ok 1)
unfolding int_lt is_negative
int_lt_lem a b a_word b_word = (λ e. ground arith, λ lt. ground arith)
