-- ===== src/AbstractIo.antt =====
-- src/compiler/abstract_io.c with include/abstract_io.h: writing and reading words and strings, to
-- and from a file or a buffer in memory. A file is the list of its bytes; words are 64-bit and
-- little-endian, as on the hosts that include/config.h describes.
pub mod Bytes
pub mod Laws
use tinyaml.Prelude.{
  ℕ, zero, suc, ◌+◌, ◌-◌, ◌*◌, ◌/◌, ◌%◌, ◌^◌, Bool, true, false, List, [], ◌∷◌, ◌++◌, leb, ◌==◌,
  if◌then◌else◌, length, take, drop,
}
use tinyaml.Prelude.{Run, ok, trap, ◌>>=◌, ◌>>◌, require, Trap}
use tinyaml.Hashtab.Keys.{CString}

-- The bytes of a word, the lowest first, and the word that some bytes make.
unfoldable pub word_bytes : ℕ → ℕ → List ℕ
word_bytes zero w = []
word_bytes (suc n) w = w % 256 ∷ word_bytes n (w / 256)

unfoldable pub bytes_word : List ℕ → ℕ
bytes_word [] = 0
bytes_word (b ∷ bs) = b + 256 * bytes_word bs

-- Which functions a reader or a writer was made with.
pub data Medium : Type 0 where
  file buffer : Medium

-- `struct _reader_t` with the bytes from the file position or the cursor on.
pub record Reader : Type 0 where
  pub medium : Medium
  pub swap_endian : Bool
  pub rest : List ℕ

-- `struct _writer_t` with the bytes written, and the size of the buffer.
pub record Writer : Type 0 where
  pub medium : Medium
  pub room : ℕ
  pub out : List ℕ

unfoldable pub file_writer_new : Writer
file_writer_new = record { medium = Medium.file; room = 0; out = [] }

unfoldable pub buffer_writer_new : ℕ → Writer
buffer_writer_new sz = record { medium = Medium.buffer; room = sz; out = [] }

unfoldable pub file_reader_new : List ℕ → Reader
file_reader_new bytes = record { medium = Medium.file; swap_endian = false; rest = bytes }

unfoldable pub buffer_reader_new : List ℕ → Reader
buffer_reader_new bytes = record { medium = Medium.buffer; swap_endian = false; rest = bytes }

unfoldable pub reader_swap_endian : Reader → Reader
reader_swap_endian r = record r { swap_endian = true }

-- Bytes are added to a file; in a buffer they are stored at the cursor, whose end nothing checks.
unfoldable pub put : Writer → List ℕ → Run Writer
put w bs = elim w.medium [
  | file ↦ ok (record w { out = w.out ++ bs })
  | buffer ↦ do
    require Trap.out_of_bounds (leb (length w.out + length bs) w.room)
    ok (record w { out = w.out ++ bs })
]

-- `write_word`: `file_write_word` and `buffer_write_word`
unfoldable pub write_word : Writer → ℕ → Run Writer
unfolding put
write_word w data_word = put w (word_bytes 8 data_word)

-- `write_string`: `file_write_string` and `buffer_write_string`, with the closing zero byte.
unfoldable pub write_string : Writer → CString → Run Writer
unfolding put
write_string w s = put w (s ++ (0 ∷ []))

-- The two swaps of `read_word` when the byte order differs: bytes 0 and 3, bytes 1 and 2.
unfoldable pub swap_low : ℕ → ℕ
swap_low w =
    w / 2 ^ 32 * 2 ^ 32
    + w % 256 * 2 ^ 24
    + w / 2 ^ 8 % 256 * 2 ^ 16
    + w / 2 ^ 16 % 256 * 2 ^ 8
    + w / 2 ^ 24 % 256

-- `read_word`: `file_read_word` and `buffer_read_word`. A word that the bytes do not suffice for is
-- undefined, here a trap.
unfoldable pub read_word : Reader → Run (ℕ × Reader)
read_word r = do
  require Trap.out_of_bounds (leb 8 (length r.rest))
  let w = bytes_word (take 8 r.rest)
  ok (if r.swap_endian then swap_low w else w, record r { rest = drop 8 r.rest })

-- `BUFFY_SZ`
abbrev pub buffy_size : ℕ
buffy_size = 65536

-- The loop of `file_read_string`, with the places left in the buffer. A failed read is fatal; a
-- string that fills the buffer has no closing zero byte.
unfoldable pub file_string : ℕ → List ℕ → Run (CString × List ℕ)
file_string zero bs = trap Trap.out_of_bounds
file_string (suc left) [] = trap Trap.aborted
file_string (suc left) (c ∷ bs) = elim (c == 0) [
  | true ↦ ok ([], bs)
  | false ↦ file_string left bs >>= λ (s, r). ok (c ∷ s, r)
]

-- The string at the cursor of a buffer, and the bytes from its closing zero byte on.
unfoldable pub buffer_string : List ℕ → Run (CString × List ℕ)
buffer_string [] = trap Trap.out_of_bounds
buffer_string (c ∷ bs) = elim (c == 0) [
  | true ↦ ok ([], c ∷ bs)
  | false ↦ buffer_string bs >>= λ (s, r). ok (c ∷ s, r)
]

-- `read_string`: `file_read_string` and `buffer_read_string`. The latter moves the cursor by
-- `strlen`, which leaves it on the closing zero byte.
unfoldable pub read_string : Reader → Run (CString × Reader)
read_string r = elim r.medium [
  | file ↦ file_string buffy_size r.rest >>= λ (s, bs). ok (s, record r { rest = bs })
  | buffer ↦ buffer_string r.rest >>= λ (s, bs). ok (s, record r { rest = bs })
]
