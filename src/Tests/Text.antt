-- ===== src/Tests/Text.antt =====
-- Runs of the models of src/compiler/abstract_io.c and src/vm/text_seg.c, and their theorems at
-- concrete inputs.
use tinyaml.Prelude.{ℕ, ◌≡◌, refl, arith, none, some, List, [], ◌∷◌, ◌++◌, replicate, set}
use tinyaml.Prelude.{ok}
use tinyaml.Dynarray
use tinyaml.Hashtab
use tinyaml.Hashtab.{hash_size}
use tinyaml.Hashtab.Keys.{CString, hash_str, str_differs}
use tinyaml.AbstractIo.Bytes.{IsText}
use tinyaml.AbstractIo.Laws.{file_to, file_from}
use tinyaml.TextSeg
use tinyaml.TextSeg.{
  TextSeg, find_by_text, find_by_index, text_to_index, copy, serialize, unserialize, enter,
}
use tinyaml.TextSeg.Holds.{Holds}
use tinyaml.TextSeg.Find.{last_index, interned, find_by_text-Holds}
use tinyaml.TextSeg.Intern.{init-Holds}
use tinyaml.TextSeg.Stored.{unserialize-serialize}

-- "ab"
abbrev text : CString
text = 97 ∷ 98 ∷ []

text_zero : IsText text
text_zero = (λ e. omega arith, (λ e. omega arith, _))

-- A new table, and the table with "ab" in it.
abbrev new_table : TextSeg
new_table = record {
  by_index = record { reserved = 16; size = 1; cells = set (replicate 16 none) 0 (some []) };
  by_text = set (replicate hash_size []) 0 (([], 0) ∷ []);
}

init_run : TextSeg.init ≡ ok new_table
unfolding TextSeg.init find_by_text enter Dynarray.init Hashtab.init Hashtab.find Hashtab.add
    Dynarray.write Dynarray.dynarray_size Dynarray.make_room Dynarray.reserve Dynarray.extend
    Dynarray.store Dynarray.quantize hash_str
init_run = refl

table_unique : {ts : TextSeg} → TextSeg.init ≡ ok ts → ts ≡ new_table
table_unique e = cc (e, init_run)

new_table-Holds : Holds new_table ([] ∷ [])
new_table-Holds = let (ts, e, v) = init-Holds in rw (table_unique e) at v

second_held :
    (ts : TextSeg) × (find_by_text new_table text ≡ ok (some text, ts)) × Holds ts ([] ∷ text ∷ [])
unfolding interned last_index str_differs
second_held = find_by_text-Holds new_table-Holds text (omega arith)

-- The table after "ab" was looked up.
abbrev table_of_two : TextSeg
table_of_two = record {
  by_index = record {
    reserved = 16;
    size = 2;
    cells = set (set (replicate 16 none) 0 (some [])) 1 (some text);
  };
  by_text = set (set (replicate hash_size []) 0 (([], 0) ∷ [])) 106 ((text, 1) ∷ []);
}

find_run : find_by_text new_table text ≡ ok (some text, table_of_two)
unfolding find_by_text enter Hashtab.find Hashtab.add Dynarray.write Dynarray.dynarray_size
    Dynarray.make_room Dynarray.reserve Dynarray.extend Dynarray.store Dynarray.quantize hash_str
    str_differs
find_run = refl

second_unique :
    {ts : TextSeg} → find_by_text new_table text ≡ ok (some text, ts) → ts ≡ table_of_two
second_unique e = cc (e, find_run)

table_of_two-Holds : Holds table_of_two ([] ∷ text ∷ [])
table_of_two-Holds = let (ts, e, v) = second_held in rw (second_unique e) at v

unserialize-serialize_example :
    (out : List ℕ) × (ts : TextSeg) × (serialize table_of_two (file_to []) text ≡ ok (file_to out))
    × (unserialize new_table (file_from (out ++ (9 ∷ []))) text ≡ ok (ts, file_from (9 ∷ [])))
    × Holds ts ([] ∷ text ∷ [])
unfolding last_index str_differs
unserialize-serialize_example =
    unserialize-serialize text (text ∷ []) (9 ∷ []) table_of_two-Holds new_table-Holds (refl, _)
      (text_zero, omega arith, _) text_zero (omega arith) (omega arith)
