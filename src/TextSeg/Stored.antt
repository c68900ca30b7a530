-- ===== src/TextSeg/Stored.antt =====
-- The round trip of `text_seg_serialize` and `text_seg_unserialize` of src/vm/text_seg.c by a file.
use tinyaml.Prelude.{
  ℕ, zero, suc, ◌+◌, ◌-◌, ◌<◌, ◌≤◌, ◌≡◌, refl, arith, true, some, none, List, [], ◌∷◌, ◌++◌, ◌==◌,
  length, get_elem?, get_or, drop, ap, sym, ◌∙◌, append_assoc, drop_all, drop-get_elem?,
  get_elem?-eq-get_or,
}
use tinyaml.Prelude.{ok}
use tinyaml.Dynarray
use tinyaml.Dynarray.{alert_size}
use tinyaml.Dynarray.Laws.{read-reserve}
use tinyaml.Hashtab.Keys.{CString, str_differs_self}
use tinyaml.AbstractIo.{write_word, write_string, word_bytes, buffy_size}
use tinyaml.AbstractIo.Bytes.{IsText}
use tinyaml.AbstractIo.Laws.{file_to, file_from, read-write_word, read-write_string}
use tinyaml.TextSeg.{TextSeg, write_loop, serialize, read_loop, unserialize, end_mark}
use tinyaml.TextSeg.Holds.{Holds}
use tinyaml.TextSeg.Find.{find_by_text-Holds}
use tinyaml.TextSeg.Intern.{length-interned}
use tinyaml.TextSeg.Copy.{intern_all, AllNew, intern_all-AllNew}

-- The bytes of the records of some strings, before other bytes.
unfoldable pub records : List CString → List ℕ → List ℕ
records [] bs = bs
records (s ∷ ss) bs = word_bytes 8 (1 + length s) ++ (s ++ (0 ∷ records ss bs))

-- The bytes of a stored table, before other bytes.
unfoldable pub stored : CString → List CString → List ℕ → List ℕ
stored name xs bs =
    name ++ (0 ∷ (word_bytes 8 (length xs) ++ records xs (word_bytes 8 end_mark ++ bs)))

-- Strings with no zero byte that fit in the buffer of a reader.
abbrev pub AllText : List CString → Type 0
AllText [] = Unit {0}
AllText (s ∷ ss) = IsText s × (length s < buffy_size) × AllText ss

-- What a string and a word written to a file are.
pub wrote_word :
    (out : List ℕ) (w : ℕ) → write_word (file_to out) w ≡ ok (file_to (out ++ word_bytes 8 w))
unfolding write_word
wrote_word out w = refl

pub wrote_string :
    (out : List ℕ) (s : CString)
    → write_string (file_to out) s ≡ ok (file_to (out ++ (s ++ (0 ∷ []))))
unfolding write_string
wrote_string out s = refl

pub one_record :
    (out : List ℕ) (s : CString) (bs : List ℕ)
    → ((out ++ word_bytes 8 (1 + length s)) ++ (s ++ (0 ∷ []))) ++ bs
      ≡ out ++ (word_bytes 8 (1 + length s) ++ (s ++ (0 ∷ bs)))
one_record out s bs =
    append_assoc (out ++ word_bytes 8 (1 + length s)) (s ++ (0 ∷ [])) bs
    ∙ append_assoc out (word_bytes 8 (1 + length s)) ((s ++ (0 ∷ [])) ++ bs)
    ∙ ap (λ t. out ++ (word_bytes 8 (1 + length s) ++ t)) (append_assoc s (0 ∷ []) bs)

-- The loop of `text_seg_serialize` writes the records of the strings from `i` on.
write_loop_lem :
    (n i : ℕ) {ts : TextSeg} {xs : List CString} (out : List ℕ)
    → Holds ts xs
    → n + i ≡ length xs
    → length xs ≤ alert_size
    → (out' : List ℕ) × (write_loop n i ts (file_to out) ≡ ok (file_to out'))
      × ((bs : List ℕ) → out' ++ bs ≡ out ++ records (drop i xs) bs)
unfolding write_loop records
write_loop_lem zero i {ts} {xs} out v e small =
    (out, refl, λ bs. ap (λ l. out ++ records l bs) (sym (drop_all i xs (omega arith))))
write_loop_lem (suc n) i {ts} {xs} out v e small =
    let s = get_or xs i [] in
    let there : get_elem? xs i ≡ some s = get_elem?-eq-get_or xs i [] (omega arith) in
    let head = out ++ word_bytes 8 (1 + length s) in
    let (out', looped, said) =
      write_loop_lem n (i + 1) {ts = ts} (head ++ (s ++ (0 ∷ []))) v (omega arith) small in
    (
      out',
      rw (
        v.texts i (omega arith),
        there,
        wrote_word out (1 + length s),
        wrote_string head s,
        looped,
      ),
      λ bs.
          said bs
          ∙ one_record out s (records (drop (i + 1) xs) bs)
          ∙ ap (λ l. out ++ records l bs) (before there),
    )
  where
    before : get_elem? xs i ≡ some (get_or xs i []) → get_or xs i [] ∷ drop (i + 1) xs ≡ drop i xs
    before e =
        let q : i + 1 ≡ suc i = omega arith in
        ap (λ k. get_or xs i [] ∷ drop k xs) q ∙ sym (drop-get_elem? i xs (get_or xs i []) e)

-- The loop of `text_seg_unserialize` looks up the strings whose records come next.
read_loop_lem :
    (ys : List CString) {ts : TextSeg} {xs : List CString} (bs : List ℕ)
    → Holds ts xs
    → AllText ys
    → length xs + length ys ≤ alert_size
    → (ts' : TextSeg) × (read_loop (length ys) ts (file_from (records ys bs))
        ≡ ok (ts', file_from bs))
      × Holds ts' (intern_all ys xs)
unfolding read_loop records intern_all
read_loop_lem [] {ts} bs v t room = (ts, refl, v)
read_loop_lem (y ∷ ys) {ts} {xs} bs v t room =
    let (_, word) =
      read-write_word (1 + length y) [] (y ++ (0 ∷ records ys bs)) (omega (arith, t.1)) in
    let (_, text) = read-write_string y [] (records ys bs) t.0 t.1 in
    let (d, found, held) = find_by_text-Holds v y (omega arith) in
    let (d', looped, held') =
      read_loop_lem ys {ts = d} bs held t.2 (omega (arith, length-interned y xs)) in
    let same : (length y + 1 == 1 + length y) ≡ true = ground arith in
    (d', rw (word, text, same, found, looped), held')

-- What `text_seg_serialize` writes to a file.
serialize_lem :
    (name : CString) {ts : TextSeg} {xs : List CString}
    → Holds ts xs
    → length xs ≤ alert_size
    → (out : List ℕ) × (serialize ts (file_to []) name ≡ ok (file_to out))
      × ((bs : List ℕ) → out ++ bs ≡ stored name xs bs)
unfolding serialize stored
serialize_lem name {ts} {xs} v small =
    let head = name ++ (0 ∷ []) in
    let start = head ++ word_bytes 8 (length xs) in
    let (out, looped, said) = write_loop_lem (length xs) 0 {ts = ts} start v (omega arith) small in
    (
      out ++ word_bytes 8 end_mark,
      rw (
        wrote_string [] name,
        v.count,
        wrote_word head (length xs),
        looped,
        wrote_word out end_mark,
      ),
      λ bs.
          append_assoc out (word_bytes 8 end_mark) bs
          ∙ said (word_bytes 8 end_mark ++ bs)
          ∙ append_assoc head (word_bytes 8 (length xs)) (records xs (word_bytes 8 end_mark ++ bs))
          ∙ append_assoc name (0 ∷ [])
              (word_bytes 8 (length xs) ++ records xs (word_bytes 8 end_mark ++ bs)),
    )

-- Reserving words does not change what a table holds.
reserve-Holds :
    {ts : TextSeg} {xs : List CString} (n : ℕ)
    → Holds ts xs
    → Holds (record ts { by_index = Dynarray.reserve none ts.by_index n }) xs
reserve-Holds {ts} n v = record {
  index = (read-reserve none n 0 v.index (omega arith)).2;
  rows = v.rows;
  count = (read-reserve none n 0 v.index (omega arith)).1 ∙ v.count;
  texts = λ i h. (read-reserve none n i v.index h).0 ∙ v.texts i h;
  bound = v.bound;
}

-- What `text_seg_unserialize` reads from such a file into a new table.
unserialize_lem :
    (name : CString) (ys : List CString) {ts : TextSeg} (bs : List ℕ)
    → Holds ts ([] ∷ [])
    → IsText name
    → length name < buffy_size
    → AllText ys
    → length ys + 2 ≤ alert_size
    → (ts' : TextSeg) × (unserialize ts (file_from (stored name ([] ∷ ys) bs)) name
        ≡ ok (ts', file_from bs))
      × Holds ts' (intern_all ys ([] ∷ []))
unfolding unserialize stored records
unserialize_lem name ys {ts} bs v text small t room =
    let tot = suc (length ys) in
    let tail = word_bytes 8 end_mark ++ bs in
    let back = records ys tail in
    let (_, named) =
      read-write_string name [] (word_bytes 8 tot ++ (word_bytes 8 1 ++ (0 ∷ back))) text small in
    let (_, counted) = read-write_word tot [] (word_bytes 8 1 ++ (0 ∷ back)) (omega arith) in
    let (_, first) = read-write_word 1 [] (0 ∷ back) (omega arith) in
    let (_, empty) = read-write_string [] [] back _ (omega arith) in
    let (_, last) = read-write_word end_mark [] bs (omega arith) in
    let (d, looped, held) =
      read_loop_lem ys {ts = record ts { by_index = Dynarray.reserve none ts.by_index tot }} tail
        (reserve-Holds tot v) t (omega arith) in
    let less : tot - 1 ≡ length ys = omega arith in
    (d, rw (named, str_differs_self name, counted, first, empty, less, looped, last), held)

-- A table with the empty string at index 0 and then distinct strings with no zero byte, that is
-- serialised to a file and read from it into a new table, is the same table again, and the reader
-- goes on with the bytes behind it. The strings and the section's name must fit in the reader's
-- buffer, and the table must stay below the alert size.
pub unserialize-serialize :
    (name : CString) (ys : List CString) {ts new : TextSeg} (bs : List ℕ)
    → Holds ts ([] ∷ ys)
    → Holds new ([] ∷ [])
    → AllNew ([] ∷ []) ys
    → AllText ys
    → IsText name
    → length name < buffy_size
    → length ys + 2 ≤ alert_size
    → (out : List ℕ) × (ts' : TextSeg) × (serialize ts (file_to []) name ≡ ok (file_to out))
      × (unserialize new (file_from (out ++ bs)) name ≡ ok (ts', file_from bs))
      × Holds ts' ([] ∷ ys)
unserialize-serialize name ys {ts} {new} bs v w distinct texts text small room =
    let (out, wrote, said) = serialize_lem name v (omega arith) in
    let (d, back, held) = unserialize_lem name ys bs w text small texts room in
    (out, d, wrote, rw (said bs) back, rw (← intern_all-AllNew ys ([] ∷ []) distinct) held)
