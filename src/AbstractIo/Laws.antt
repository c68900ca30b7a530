-- ===== src/AbstractIo/Laws.antt =====
-- Round trips of src/compiler/abstract_io.c, and where they fail.
use mathlib.Core.List.{reverse}
use tinyaml.Prelude.{
  ap₂, length-reverse, take-append_self, drop-append_self, if◌then◌else◌, ℕ, suc, ◌*◌, ◌%◌, ◌^◌,
  ◌<◌, ◌≡◌, ◌≢◌, refl, arith, List, [], ◌∷◌, ◌++◌, length, take, drop, leb, ap, sym, ◌∙◌, true,
  false, length-append,
}
use tinyaml.Prelude.{ok}
use tinyaml.Hashtab.Keys.{CString}
use tinyaml.AbstractIo.{
  Medium, Reader, Writer, word_bytes, bytes_word, write_word, write_string, read_word, read_string,
  buffy_size, swap_low,
}
use tinyaml.AbstractIo.Bytes.{
  bytes_word-word_bytes, length-word_bytes, span_eight, IsText, file_string_lem, buffer_string_lem,
}

-- Writers to a file with some bytes in it, and readers of some bytes.
abbrev pub file_to : List ℕ → Writer
file_to out = record { medium = Medium.file; room = 0; out = out }

abbrev pub file_from : List ℕ → Reader
file_from bytes = record { medium = Medium.file; swap_endian = false; rest = bytes }

abbrev pub buffer_from : List ℕ → Reader
buffer_from bytes = record { medium = Medium.buffer; swap_endian = false; rest = bytes }

word_lem : (w : ℕ) → w < 2 ^ 64 → bytes_word (word_bytes 8 w) ≡ w
word_lem w h = bytes_word-word_bytes 8 w (rw span_eight h)

-- A read of eight bytes that are there.
read_raw :
    (r : Reader) (bs cs : List ℕ)
    → r.rest ≡ bs ++ cs
    → length bs ≡ 8
    → read_word r
      ≡ ok (
        if r.swap_endian then swap_low (bytes_word bs) else bytes_word bs,
        record r { rest = cs },
      )
unfolding read_word
read_raw r bs cs e h = rw (enough, first, behind)
  where
    enough : leb 8 (length r.rest) ≡ true
    enough = ground (arith, ap length e, length-append bs cs)

    first : take 8 r.rest ≡ bs
    first = ap₂ (λ n l. take n l) (sym h) e ∙ take-append_self bs cs

    behind : drop 8 r.rest ≡ cs
    behind = ap₂ (λ n l. drop n l) (sym h) e ∙ drop-append_self bs cs

-- What `read_word` reads when the bytes of a word come first.
read_bytes :
    (r : Reader) (w : ℕ) (bs : List ℕ)
    → r.rest ≡ word_bytes 8 w ++ bs
    → w < 2 ^ 64
    → read_word r ≡ ok (if r.swap_endian then swap_low w else w, record r { rest = bs })
read_bytes r w bs e h =
    read_raw r (word_bytes 8 w) bs e (length-word_bytes 8 w)
    ∙ ap (λ v. ok (if r.swap_endian then swap_low v else v, record r { rest = bs })) (word_lem w h)

-- A word written to a file is the word that a reader finds there, and the reader goes on with the
-- bytes behind it.
pub read-write_word :
    (w : ℕ) (out bs : List ℕ)
    → w < 2 ^ 64
    → (write_word (file_to out) w ≡ ok (file_to (out ++ word_bytes 8 w)))
      × (read_word (file_from (word_bytes 8 w ++ bs)) ≡ ok (w, file_from bs))
unfolding write_word
read-write_word w out bs h = (refl, read_bytes (file_from (word_bytes 8 w ++ bs)) w bs refl h)

-- A string with no zero byte, and shorter than the reader's buffer, that is written to a file is the
-- string that a reader finds there, and the reader goes on with the bytes behind it.
pub read-write_string :
    (s : CString) (out bs : List ℕ)
    → IsText s
    → length s < buffy_size
    → (write_string (file_to out) s ≡ ok (file_to (out ++ (s ++ (0 ∷ [])))))
      × (read_string (file_from (s ++ (0 ∷ bs))) ≡ ok (s, file_from bs))
unfolding write_string read_string
read-write_string s out bs t h = (refl, rw (file_string_lem buffy_size s bs t h))

seven :
    (w : ℕ) (bs : List ℕ)
    → 0 ∷ (word_bytes 8 w ++ bs) ≡ (0 ∷ word_bytes 7 w) ++ drop 7 (word_bytes 8 w ++ bs)
unfolding word_bytes
seven w bs = refl

low_bytes : (w : ℕ) → bytes_word (0 ∷ word_bytes 7 w) ≡ w * 256 % 2 ^ 64
unfolding bytes_word word_bytes
low_bytes w = omega arith

-- The zero byte and the first seven bytes of a word, read as a word.
early_word :
    (w : ℕ) (bs : List ℕ)
    → read_word (buffer_from (0 ∷ (word_bytes 8 w ++ bs)))
      ≡ ok (w * 256 % 2 ^ 64, buffer_from (drop 7 (word_bytes 8 w ++ bs)))
early_word w bs =
    read_raw (buffer_from (0 ∷ (word_bytes 8 w ++ bs))) (0 ∷ word_bytes 7 w)
      (drop 7 (word_bytes 8 w ++ bs)) (seven w bs) (ap suc (length-word_bytes 7 w))
    ∙ ap (λ v. ok (v, buffer_from (drop 7 (word_bytes 8 w ++ bs)))) (low_bytes w)

-- From a buffer, a word that follows a string with no zero byte is read one byte too early: it
-- comes out multiplied by 256, modulo 2 ^ 64.
pub buffer_word_after_string :
    (s : CString) (w : ℕ) (bs : List ℕ)
    → IsText s
    → (r : Reader) × (r' : Reader) × (read_string (buffer_from (s ++ (0 ∷ (word_bytes 8 w ++ bs))))
        ≡ ok (s, r))
      × (read_word r ≡ ok (w * 256 % 2 ^ 64, r'))
unfolding read_string
buffer_word_after_string s w bs t = (
  buffer_from (0 ∷ (word_bytes 8 w ++ bs)),
  buffer_from (drop 7 (word_bytes 8 w ++ bs)),
  rw (buffer_string_lem s (word_bytes 8 w ++ bs) t),
  early_word w bs,
)

swapped_ne : (w : ℕ) → 0 < w → w < 2 ^ 32 → swap_low (bytes_word (reverse (word_bytes 8 w))) ≢ w
unfolding bytes_word word_bytes swap_low
swapped_ne w h k = omega arith

-- After `reader_swap_endian`, a word from 1 to 2 ^ 32 - 1 that a host of the other byte order wrote
-- is not read back: its bytes come in the opposite order, and only four of the eight are swapped.
pub foreign_word :
    (w : ℕ) (bs : List ℕ)
    → 0 < w
    → w < 2 ^ 32
    → (v : ℕ) × (read_word (record {
      medium = Medium.file;
      swap_endian = true;
      rest = reverse (word_bytes 8 w) ++ bs;
    })
        ≡ ok (v, record { medium = Medium.file; swap_endian = true; rest = bs }))
      × (v ≢ w)
foreign_word w bs h k = (
  swap_low (bytes_word (reverse (word_bytes 8 w))),
  read_raw _ (reverse (word_bytes 8 w)) bs refl
      (length-reverse (word_bytes 8 w) ∙ length-word_bytes 8 w),
  swapped_ne w h k,
)
