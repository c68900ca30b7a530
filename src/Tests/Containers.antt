-- ===== src/Tests/Containers.antt =====
-- Runs of the models of src/containers/dynarray.c, src/containers/generic_stack.c and
-- include/hashtab.h, and their theorems at concrete inputs.
use mathlib.Core.List.{tail}
use tinyaml.Prelude.{ℕ, ◌-◌, ◌^◌, ◌≡◌, refl, arith, [], ◌∷◌, length, replicate, set, some}
use tinyaml.Prelude.{ok}
use tinyaml.Dynarray
use tinyaml.Dynarray.{Dynarray, write, read, reserve, dynarray_size}
use tinyaml.Dynarray.Inv.{init-IsValid}
use tinyaml.Dynarray.Laws.{read-write}
use tinyaml.Gstack.{Gstack, push, pop}
use tinyaml.Gstack.Inv.{Holds}
use tinyaml.Gstack.Laws.{push-Holds}
use tinyaml.Gstack.Access.{pop-Holds}
use tinyaml.Hashtab.{Table, hash_size, add, find, del}
use tinyaml.Hashtab.Keys.{str_ops, hash_str, str_differs, str-Lawful, CString}
use tinyaml.Hashtab.Laws.{bindings, bindings-add, find-bindings, bindings-del}

-- The array after 7 was written at index 3 of a new one.
abbrev three : Dynarray ℕ
three = record { reserved = 16; size = 4; cells = set (replicate 16 0) 3 7 }

write-three_run : write 0 Dynarray.init 3 7 ≡ ok three
unfolding write Dynarray.init Dynarray.make_room Dynarray.reserve Dynarray.extend Dynarray.store
    Dynarray.quantize
write-three_run = refl

read-write_example : read 0 three 3 ≡ ok 7
read-write_example = read-write 0 3 3 7 (init-IsValid 0) write-three_run (omega arith)

-- A stack of the 8-byte tokens 5, 6 and 7 in a block of four, and an empty one.
abbrev stack : Gstack ℕ
stack = record { sz = 4; sp = 2; tok_sp = 16; token_size = 8; block = 5 ∷ 6 ∷ 7 ∷ 0 ∷ [] }

abbrev no_tokens : Gstack ℕ
no_tokens = record {
  sz = 4;
  sp = 2 ^ 64 - 1;
  tok_sp = 2 ^ 64 - 8;
  token_size = 8;
  block = 0 ∷ 0 ∷ 0 ∷ 0 ∷ [];
}

stack-Holds : Holds stack (5 ∷ 6 ∷ 7 ∷ [])
stack-Holds = record {
  wide = omega arith;
  narrow = omega arith;
  top = refl;
  offset = refl;
  contents = refl;
  block = refl;
  fits = omega arith;
  bounded = omega arith;
}

no_tokens-Holds : Holds no_tokens []
no_tokens-Holds = record {
  wide = omega arith;
  narrow = omega arith;
  top = refl;
  offset = refl;
  contents = refl;
  block = refl;
  fits = omega arith;
  bounded = omega arith;
}

pop_run : pop stack ≡ ok (7, record stack { sp = 1; tok_sp = 8 })
unfolding pop
pop_run = refl

push-Holds_example : (s : Gstack ℕ) × (push 0 9 stack 8 ≡ ok s) × Holds s (5 ∷ 6 ∷ 7 ∷ 8 ∷ [])
push-Holds_example = push-Holds 0 9 8 stack-Holds (omega arith)

pop-Holds_example : (s : Gstack ℕ) × (pop stack ≡ ok (7, s)) × Holds s (5 ∷ 6 ∷ [])
pop-Holds_example = pop-Holds (5 ∷ 6 ∷ []) 7 stack-Holds

-- A table with the values 4 and then 5 under the key "ab".
abbrev table : Table CString ℕ
table = set (replicate hash_size []) 106 (((97 ∷ 98 ∷ []), 5) ∷ ((97 ∷ 98 ∷ []), 4) ∷ [])

find_run : find str_ops 0 (some (97 ∷ 98 ∷ [])) table ≡ ok 5
unfolding find hash_str str_differs
find_run = refl

bindings-add_example :
    (t : Table CString ℕ) × (add str_ops (some (97 ∷ 98 ∷ [])) 6 table ≡ ok t)
    × (length t ≡ hash_size)
    × (bindings str_ops t (97 ∷ 98 ∷ []) ≡ 6 ∷ bindings str_ops table (97 ∷ 98 ∷ []))
unfolding str_differs
bindings-add_example = bindings-add str-Lawful table (97 ∷ 98 ∷ []) (97 ∷ 98 ∷ []) 6 refl

find-bindings_example : find str_ops 0 (some (97 ∷ 98 ∷ [])) table ≡ ok 5
unfolding bindings hash_str str_differs
find-bindings_example = find-bindings str-Lawful 0 table (97 ∷ 98 ∷ []) refl

bindings-del_example :
    (t : Table CString ℕ) × (del str_ops (97 ∷ 98 ∷ []) table ≡ ok t)
    × (length t ≡ hash_size)
    × (bindings str_ops t (97 ∷ 98 ∷ []) ≡ tail (bindings str_ops table (97 ∷ 98 ∷ [])))
unfolding str_differs
bindings-del_example = bindings-del str-Lawful table (97 ∷ 98 ∷ []) (97 ∷ 98 ∷ []) refl
