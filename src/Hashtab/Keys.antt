-- ===== src/Hashtab/Keys.antt =====
-- The hash and comparison functions that the program gives its tables: `hash_str`, `hash_ptr` and
-- `cmp_ptr` of src/compiler/opcode_dict.c, and the C library's `strcmp`.
use tinyaml.Prelude.{
  ℕ, ◌+◌, ◌-◌, ◌*◌, ◌%◌, ◌^◌, ◌<◌, ◌≡◌, refl, arith, Bool, true, false, not, Option, none, some,
  List, [], ◌∷◌, ltb, ◌==◌, if◌then◌else◌, length, ◌||◌,
}
use tinyaml.Hashtab.{KeyOps, Lawful, hash_size}

-- A C string, without its closing zero byte: bytes of which none is zero.
abbrev pub CString : Type 0
CString = List ℕ

-- A `char` as a word: bytes from 128 on are negative.
unfoldable pub char_word : ℕ → ℕ
char_word c = if ltb c 128 then c else 2 ^ 64 - 256 + c

-- The loop of `hash_str`, `ret` being the product so far.
unfoldable pub hash_loop : ℕ → CString → ℕ
unfolding char_word
hash_loop ret [] = ret
hash_loop ret (c ∷ s) = hash_loop (ret * char_word c % 2 ^ 64) s

-- `hash_str`
unfoldable pub hash_str : Option CString → ℕ
unfolding hash_loop
hash_str none = 0
hash_str (some s) = hash_loop (length s % 2 ^ 64) s % hash_size

-- `hash_ptr`
unfoldable pub hash_ptr : ℕ → ℕ
hash_ptr w = w % hash_size

-- `cmp_ptr`, the difference as a word.
unfoldable pub cmp_ptr : ℕ → ℕ → ℕ
cmp_ptr w v = (w + 2 ^ 64 - v) % 2 ^ 64

-- `strcmp(a, b) != 0`
unfoldable pub str_differs : CString → CString → Bool
str_differs [] [] = false
str_differs [] (b ∷ t) = true
str_differs (a ∷ s) [] = true
str_differs (a ∷ s) (b ∷ t) = not (a == b) || str_differs s t

-- The tables keyed by strings, and those keyed by pointers. A pointer is an address below 2 ^ 64,
-- where `cmp_ptr` is zero on equal addresses alone (`cmp_ptr_iff`).
abbrev pub str_ops : KeyOps CString
str_ops = record { hash = λ s. hash_str (some s); differs = str_differs }

abbrev pub ptr_ops : KeyOps ℕ
ptr_ops = record { hash = hash_ptr; differs = λ w v. not (w == v) }

pub str_differs-eq : (s t : CString) → str_differs s t ≡ false → s ≡ t
unfolding str_differs
str_differs-eq [] [] h = refl
str_differs-eq [] (b ∷ t) h = cc
str_differs-eq (a ∷ s) [] h = cc
str_differs-eq (a ∷ s) (b ∷ t) h = ground (arith, str_differs-eq s t)

pub str_differs_self : (s : CString) → str_differs s s ≡ false
unfolding str_differs
str_differs_self [] = refl
str_differs_self (a ∷ s) = ground (arith, str_differs_self s)

pub hash_str-lt : (s : Option CString) → hash_str s < hash_size
unfolding hash_str
hash_str-lt none = omega arith
hash_str-lt (some s) = omega arith

pub str-Lawful : Lawful str_ops
str-Lawful = record {
  row = λ s. hash_str-lt (some s);
  same = str_differs-eq;
  self = str_differs_self;
}

pub ptr-Lawful : Lawful ptr_ops
unfolding hash_ptr
ptr-Lawful = record {
  row = λ w. omega arith;
  same = λ w v h. ground arith;
  self = λ w. ground arith;
}

pub cmp_ptr_iff : (w v : ℕ) → w < 2 ^ 64 → v < 2 ^ 64 → (cmp_ptr w v == 0) ≡ (w == v)
unfolding cmp_ptr
cmp_ptr_iff w v h k = ground arith
