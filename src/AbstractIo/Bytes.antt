-- ===== src/AbstractIo/Bytes.antt =====
-- The bytes of the words of src/compiler/abstract_io.c, and of its strings.
use tinyaml.Prelude.{
  ℕ, zero, suc, ◌*◌, ◌/◌, ◌%◌, ◌^◌, ◌<◌, ◌≡◌, ◌≢◌, refl, arith, List, [], ◌∷◌, ◌++◌, length, take,
  drop, ◌==◌, ap, false,
}
use tinyaml.Prelude.{ok}
use tinyaml.Hashtab.Keys.{CString}
use tinyaml.AbstractIo.{word_bytes, bytes_word, file_string, buffer_string}

-- 256 ^ n
pub span : ℕ → ℕ
span zero = 1
span (suc n) = 256 * span n

pub bytes_word-word_bytes : (n w : ℕ) → w < span n → bytes_word (word_bytes n w) ≡ w
unfolding bytes_word word_bytes span
bytes_word-word_bytes zero w h = omega arith
bytes_word-word_bytes (suc n) w h = omega (arith, bytes_word-word_bytes n (w / 256) (omega arith))

pub length-word_bytes : (n w : ℕ) → length (word_bytes n w) ≡ n
unfolding word_bytes
length-word_bytes zero w = refl
length-word_bytes (suc n) w = ap suc (length-word_bytes n (w / 256))

pub span_eight : span 8 ≡ 2 ^ 64
unfolding span
span_eight = refl

-- The bytes of a word before others: the first eight bytes are its own.
pub take-word_bytes : (n w : ℕ) (bs : List ℕ) → take n (word_bytes n w ++ bs) ≡ word_bytes n w
unfolding word_bytes
take-word_bytes zero w bs = refl
take-word_bytes (suc n) w bs = ap (λ t. w % 256 ∷ t) (take-word_bytes n (w / 256) bs)

pub drop-word_bytes : (n w : ℕ) (bs : List ℕ) → drop n (word_bytes n w ++ bs) ≡ bs
unfolding word_bytes
drop-word_bytes zero w bs = refl
drop-word_bytes (suc n) w bs = drop-word_bytes n (w / 256) bs

-- The bytes of a C string: none is zero.
abbrev pub IsText : CString → Type 0
IsText [] = Unit {0}
IsText (c ∷ s) = (c ≢ 0) × IsText s

pub file_string_lem :
    (left : ℕ) (s : CString) (bs : List ℕ)
    → IsText s
    → length s < left
    → file_string left (s ++ (0 ∷ bs)) ≡ ok (s, bs)
unfolding file_string
file_string_lem zero s bs t h = absurd (omega arith)
file_string_lem (suc left) [] bs t h = refl
file_string_lem (suc left) (c ∷ s) bs t h =
    rw (nonzero t.0, file_string, file_string_lem left s bs t.1 (omega arith))
  where
    nonzero : c ≢ 0 → (c == 0) ≡ false
    nonzero e = ground arith

pub buffer_string_lem :
    (s : CString) (bs : List ℕ) → IsText s → buffer_string (s ++ (0 ∷ bs)) ≡ ok (s, 0 ∷ bs)
unfolding buffer_string
buffer_string_lem [] bs t = refl
buffer_string_lem (c ∷ s) bs t = rw (nonzero t.0, buffer_string, buffer_string_lem s bs t.1)
  where
    nonzero : c ≢ 0 → (c == 0) ≡ false
    nonzero e = ground arith
