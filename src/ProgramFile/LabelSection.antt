-- ===== src/ProgramFile/LabelSection.antt =====
-- The section of a file of src/vm/program.c that holds the labels, written and read back.
use tinyaml.Prelude.{
  ℕ, suc, ◌+◌, ◌-◌, ◌^◌, ◌<◌, ◌≤◌, ◌≡◌, refl, arith, true, none, some, List, [], ◌∷◌, ◌++◌, ◌==◌,
  length, get_elem?, get_or, ap, sym, ◌∙◌, subst, append_assoc, append-nil, get_elem?-middle,
  length-append,
}
use tinyaml.Prelude.{ok}
use tinyaml.Dynarray
use tinyaml.Dynarray.{alert_size, load}
use tinyaml.Hashtab.Keys.{CString}
use tinyaml.AbstractIo.{word_bytes, buffy_size}
use tinyaml.AbstractIo.Bytes.{IsText}
use tinyaml.AbstractIo.Laws.{file_to, file_from, read-write_word, read-write_string}
use tinyaml.TextSeg.Find.{last_index}
use tinyaml.TextSeg.Stored.{wrote_word, wrote_string}
use tinyaml.Program.{Program, LabelTab, label_to_ofs}
use tinyaml.Program.Labels.{add_label_new}
use tinyaml.Program.LabelTable.{HasLabels, load-HasWords, load-read, label_to_ofs_lem}
use tinyaml.ProgramFile.{write_labels}
use tinyaml.ProgramFile.Reading.{read_labels}

-- The names and the offsets of labels.
abbrev pub names_of : List (CString × ℕ) → List CString
names_of [] = []
names_of ((s, o) ∷ xs) = s ∷ names_of xs

abbrev pub offs_of : List (CString × ℕ) → List ℕ
offs_of [] = []
offs_of ((s, o) ∷ xs) = o ∷ offs_of xs

names_of-append : (xs ys : List (CString × ℕ)) → names_of (xs ++ ys) ≡ names_of xs ++ names_of ys
names_of-append [] ys = refl
names_of-append ((s, o) ∷ xs) ys = ap (λ z. s ∷ z) (names_of-append xs ys)

offs_of-append : (xs ys : List (CString × ℕ)) → offs_of (xs ++ ys) ≡ offs_of xs ++ offs_of ys
offs_of-append [] ys = refl
offs_of-append ((s, o) ∷ xs) ys = ap (λ z. o ∷ z) (offs_of-append xs ys)

length-names_of : (xs : List (CString × ℕ)) → length (names_of xs) ≡ length xs
length-names_of [] = refl
length-names_of (x ∷ xs) = ap suc (length-names_of xs)

length-offs_of : (xs : List (CString × ℕ)) → length (offs_of xs) ≡ length xs
length-offs_of [] = refl
length-offs_of (x ∷ xs) = ap suc (length-offs_of xs)

get_or-middle : (xs ys : List ℕ) (y : ℕ) → get_or (xs ++ (y ∷ ys)) (length xs) 0 ≡ y
get_or-middle [] ys y = refl
get_or-middle (x ∷ xs) ys y = get_or-middle xs ys y

-- Labels that fit in a file: no name has a zero byte, and none is that of a label before it.
abbrev pub AllStorable : List (CString × ℕ) → List (CString × ℕ) → Type 0
AllStorable before [] = Unit {0}
AllStorable before ((s, o) ∷ xs) =
    (IsText s
      × (length s < buffy_size)
      × (o < 2 ^ 64)
      × (last_index 0 s ([] ∷ names_of before) ≡ none))
    × AllStorable (before ++ ((s, o) ∷ [])) xs

-- The bytes of labels, before others.
abbrev label_bytes : List (CString × ℕ) → List ℕ → List ℕ
label_bytes [] bs = bs
label_bytes ((s, o) ∷ xs) bs =
    word_bytes 8 (length s) ++ (s ++ (0 ∷ (word_bytes 8 o ++ label_bytes xs bs)))

-- A table with the labels `xs`.
abbrev pub HasPairs : LabelTab → List (CString × ℕ) → Type 0
HasPairs t xs = HasLabels t (names_of xs) (offs_of xs)

label_at :
    {t : LabelTab} (before after : List (CString × ℕ)) (s : CString) (o : ℕ)
    → HasPairs t (before ++ ((s, o) ∷ after))
    → length (before ++ ((s, o) ∷ after)) + 2 ≤ alert_size
    → (load t.labels.by_index (suc (length before)) ≡ ok (some s))
      × (load t.offsets (suc (length before)) ≡ ok o)
unfolding Dynarray.dynarray_size
label_at {t} before after s o v room =
    let all = before ++ ((s, o) ∷ after) in
    let here : length before < length all = omega (arith, length-append before ((s, o) ∷ after)) in
    (
      load-read none t.labels.by_index (suc (length before))
            (omega (arith, v.table.count, length-names_of all)) (omega arith)
          ∙ v.table.texts (suc (length before)) (omega arith)
          ∙ ap (λ z. ok (get_elem? z (length before))) (names_of-append before ((s, o) ∷ after))
          ∙ ap (λ n. ok (get_elem? (names_of before ++ (s ∷ names_of after)) n))
              (sym (length-names_of before))
          ∙ ap ok (get_elem?-middle (names_of before) s (names_of after)),
      load-HasWords 0 (suc (length before)) v.words (omega (arith, length-offs_of all))
            (omega (arith, length-offs_of all))
          ∙ ap (λ z. ok (get_or z (length before) 0)) (offs_of-append before ((s, o) ∷ after))
          ∙ ap (λ n. ok (get_or (offs_of before ++ (o ∷ offs_of after)) n 0))
              (sym (length-offs_of before))
          ∙ ap ok (get_or-middle (offs_of before) (offs_of after) o),
    )

label_record :
    (out : List ℕ) (s : CString) (o : ℕ) (bs : List ℕ)
    → (((out ++ word_bytes 8 (length s)) ++ (s ++ (0 ∷ []))) ++ word_bytes 8 o) ++ bs
      ≡ out ++ (word_bytes 8 (length s) ++ (s ++ (0 ∷ (word_bytes 8 o ++ bs))))
label_record out s o bs =
    append_assoc ((out ++ word_bytes 8 (length s)) ++ (s ++ (0 ∷ []))) (word_bytes 8 o) bs
    ∙ append_assoc (out ++ word_bytes 8 (length s)) (s ++ (0 ∷ [])) (word_bytes 8 o ++ bs)
    ∙ append_assoc out (word_bytes 8 (length s)) ((s ++ (0 ∷ [])) ++ (word_bytes 8 o ++ bs))
    ∙ ap (λ k. out ++ (word_bytes 8 (length s) ++ k))
        (append_assoc s (0 ∷ []) (word_bytes 8 o ++ bs))

write_labels_lem :
    {t : LabelTab} (before xs : List (CString × ℕ)) (out : List ℕ)
    → HasPairs t (before ++ xs)
    → length (before ++ xs) + 2 ≤ alert_size
    → (out' : List ℕ) × (write_labels (length xs) (suc (length before)) t (file_to out)
        ≡ ok (file_to out'))
      × ((bs : List ℕ) → out' ++ bs ≡ out ++ label_bytes xs bs)
unfolding write_labels
write_labels_lem before [] out v room = (out, refl, λ bs. refl)
write_labels_lem {t} before ((s, o) ∷ xs) out v room =
    let (name, offset) = label_at before xs s o v room in
    let head = out ++ word_bytes 8 (length s) in
    let whole = (head ++ (s ++ (0 ∷ []))) ++ word_bytes 8 o in
    let next = before ++ ((s, o) ∷ []) in
    let at : suc (length before) + 1 ≡ suc (length next) =
      omega (arith, length-append before ((s, o) ∷ [])) in
    let same : next ++ xs ≡ before ++ ((s, o) ∷ xs) = append_assoc before ((s, o) ∷ []) xs in
    let (out', looped, said) =
      write_labels_lem next xs whole (subst (HasPairs t) (sym same) v)
        (subst (λ l. length l + 2 ≤ alert_size) (sym same) room) in
    (
      out',
      rw
          (
            name,
            wrote_word out (length s),
            wrote_string head s,
            offset,
            wrote_word (head ++ (s ++ (0 ∷ []))) o,
          )
          (ap (λ k. write_labels (length xs) k t (file_to whole)) at ∙ looped),
      λ bs. said bs ∙ label_record out s o (label_bytes xs bs),
    )

read_labels_lem :
    (before xs : List (CString × ℕ)) (q : Program) (bs : List ℕ)
    → HasPairs q.labels before
    → AllStorable before xs
    → length before + length xs + 2 ≤ alert_size
    → (q' : Program) × (read_labels (length xs) q (file_from (label_bytes xs bs))
        ≡ ok (q', file_from bs))
      × HasPairs q'.labels (before ++ xs)
unfolding read_labels
read_labels_lem before [] q bs v all room =
    (q, refl, subst (HasPairs q.labels) (sym (append-nil before)) v)
read_labels_lem before ((s, o) ∷ xs) q bs v ((text, small, word, new), others) room =
    let behind = label_bytes xs bs in
    let (_, first) =
      read-write_word (length s) [] (s ++ (0 ∷ (word_bytes 8 o ++ behind))) (omega arith) in
    let (_, second) = read-write_string s [] (word_bytes 8 o ++ behind) text small in
    let (_, third) = read-write_word o [] behind word in
    let (q1, added, held) = add_label_new q o s v (omega (arith, length-names_of before)) new in
    let next = before ++ ((s, o) ∷ []) in
    let held' : HasPairs q1.labels next =
      subst (λ z. HasLabels q1.labels z (offs_of next)) (sym (names_of-append before ((s, o) ∷ [])))
        (subst (HasLabels q1.labels (names_of before ++ (s ∷ [])))
          (sym (offs_of-append before ((s, o) ∷ []))) held) in
    let (q2, looped, held2) =
      read_labels_lem next xs q1 bs held' others
        (omega (arith, length-append before ((s, o) ∷ []))) in
    let same : (length s == length s) ≡ true = ground arith in
    (
      q2,
      rw (first, second, same, third, added, looped),
      subst (HasPairs q2.labels) (append_assoc before ((s, o) ∷ []) xs) held2,
    )

-- Labels that are written to a file, and read from it into a program without labels, have the offsets that
-- they had, and so has every other string, which has none; the reader goes on with the bytes behind. The
-- names are distinct, have no zero byte and fit in the reader's buffer.
pub read_labels-write_labels :
    (p q : Program) (xs : List (CString × ℕ)) (bs : List ℕ)
    → HasPairs p.labels xs
    → HasPairs q.labels []
    → AllStorable [] xs
    → length xs + 2 ≤ alert_size
    → (out : List ℕ) × (q' : Program) × (write_labels
          (Dynarray.dynarray_size p.labels.offsets - 1)
          1
          p.labels
          (file_to [])
        ≡ ok (file_to out))
      × (read_labels (Dynarray.dynarray_size p.labels.offsets - 1) q (file_from (out ++ bs))
          ≡ ok (q', file_from bs))
      × HasPairs q'.labels xs
      × ((s : CString) → label_to_ofs q' s ≡ label_to_ofs p s)
unfolding Dynarray.dynarray_size
read_labels-write_labels p q xs bs v w all room =
    let rounds : p.labels.offsets.size - 1 ≡ length xs =
      omega (arith, v.words.count, length-offs_of xs) in
    let (out, wrote, said) = write_labels_lem [] xs [] v room in
    let (q', looped, held) = read_labels_lem [] xs q bs w all (omega arith) in
    let small : length (names_of xs) + 2 ≤ alert_size = omega (arith, length-names_of xs) in
    (
      out,
      q',
      ap (λ n. write_labels n 1 p.labels (file_to [])) rounds ∙ wrote,
      ap (λ n. read_labels n q (file_from (out ++ bs))) rounds
          ∙ ap (λ k. read_labels (length xs) q (file_from k)) (said bs)
          ∙ looped,
      held,
      λ s. label_to_ofs_lem q' held small s ∙ sym (label_to_ofs_lem p v small s),
    )
