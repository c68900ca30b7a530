-- ===== src/Program/Labels.antt =====
-- The labels of the programs of src/vm/program.c: names in the order of their indices, with offsets.
use tinyaml.Prelude.{
  ℕ, zero, suc, ◌+◌, ◌-◌, ◌^◌, ◌≤◌, ◌≡◌, ◌≢◌, refl, arith, true, false, ◌||◌, none, some, List, [],
  ◌∷◌, ◌++◌, ◌==◌, length, get_elem?, get_or, ap, sym, ◌∙◌, Bool-cases, inl, inr, length-snoc,
  if◌then◌else◌, leb, Option-cases,
}
use tinyaml.Prelude.{ok}
use tinyaml.Dynarray
use tinyaml.Dynarray.{Dynarray, alert_size, load}
use tinyaml.Hashtab.Keys.{CString, str_differs, str_differs-eq}
use tinyaml.TextSeg.{text_to_index}
use tinyaml.TextSeg.Holds.{Holds}
use tinyaml.TextSeg.Find.{
  last_index, get_elem?-last_index, last_index-snoc_self, interned, find_by_text-Holds,
  text_to_index-last_index,
}
use tinyaml.TextSeg.Intern.{init-Holds}
use tinyaml.Program.{Program, CodeWord, new, enter_label, add_label, label_to_ofs}
use tinyaml.Program.Code.{HasCode, init-HasWords, write-HasWords, get_or-snoc}
use tinyaml.Program.LabelTable.{
  HasLabels, is_known, last_index-snoc_other, write_reserved, offset_at, offset_of,
  label_to_ofs_lem,
}

module _ (p : Program) {names : List CString} {offs : List ℕ} (ip : ℕ) (label : CString)
    (v : HasLabels p.labels names offs) (room : length names + 2 ≤ alert_size) where
  -- A label that is known is not entered.
  add_label_known :
      (i : ℕ)
      → last_index 0 label ([] ∷ names) ≡ some i
      → label ≢ []
      → (p' : Program) × (add_label p ip label ≡ ok p') × HasLabels p'.labels names offs
  unfolding add_label enter_label interned Dynarray.dynarray_size
  add_label_known i e ne =
      let (_, there, below) = get_elem?-last_index 0 i label ([] ∷ names) e in
      let (ts, found, held) = find_by_text-Holds v.table label (omega arith) in
      let real : (i == 0) ≡ false = nonzero i there in
      let kept : Holds ts ([] ∷ names) = rw (e, real) at held in
      let inside : leb p.labels.offsets.size i ≡ false = ground (arith, v.words.count, v.same) in
      (
        record p { labels = record p.labels { labels = ts } },
        rw found (rw (text_to_index-last_index kept label) (rw e (rw inside))),
        record { table = kept; words = v.words; same = v.same; block = v.block },
      )
    where
      nonzero : (i : ℕ) → get_elem? ([] ∷ names) (i - 0) ≡ some label → (i == 0) ≡ false
      nonzero zero there = absurd (ne (cc))
      nonzero (suc i) there = ground arith

  -- A label that is not known is entered behind the others.
  pub add_label_new :
      last_index 0 label ([] ∷ names) ≡ none
      → (p' : Program) × (add_label p ip label ≡ ok p')
        × HasLabels p'.labels (names ++ (label ∷ [])) (offs ++ (ip ∷ []))
  unfolding add_label enter_label interned Dynarray.dynarray_size
  add_label_new e =
      let (ts, found, held) = find_by_text-Holds v.table label (omega arith) in
      let kept : Holds ts ([] ∷ (names ++ (label ∷ []))) = rw e at held in
      let (d, wrote, words) = write-HasWords 0 ip v.words (omega (arith, v.same)) in
      let at : (0 + length ([] ∷ names)) ≡ length (0 ∷ offs) = omega (arith, v.same) in
      let index : text_to_index ts label ≡ ok (length (0 ∷ offs)) =
        text_to_index-last_index kept label
        ∙ rw (last_index-snoc_self 0 label ([] ∷ names)) (ap ok at) in
      let behind : leb p.labels.offsets.size (length (0 ∷ offs)) ≡ true =
        ground (arith, v.words.count) in
      (
        record p { labels = record { labels = ts; offsets = d } },
        rw found (rw index (rw behind (rw wrote))),
        record {
          table = kept;
          words = words;
          same = omega (arith, length-snoc names label, length-snoc offs ip, v.same);
          block =
              write_reserved p.labels.offsets d (length (0 ∷ offs)) ip wrote (omega (arith, v.same))
                v.block;
        },
      )

  offset_of_other :
      (s : CString)
      → length names ≡ length offs
      → str_differs label s ≡ true
      → offset_of s (names ++ (label ∷ [])) (offs ++ (ip ∷ [])) ≡ offset_of s names offs
  offset_of_other s same h =
      ap (offset_at (offs ++ (ip ∷ []))) (last_index-snoc_other 0 s label ([] ∷ names) h)
      ∙ elim (Option-cases (last_index 0 s ([] ∷ names))) [
        | inl e ↦ rw e
        | inr (i, e) ↦
            let (_, _, below) = get_elem?-last_index 0 i s ([] ∷ names) e in
            let apart : (length (0 ∷ offs) == i) ≡ false = ground arith in
            rw e (ap ok (get_or-snoc 0 (0 ∷ offs) ip i ∙ rw apart))
      ]

  offset_of_new : offset_of label (names ++ (label ∷ [])) (offs ++ (ip ∷ [])) ≡ ok ip
  offset_of_new =
      let at : (0 + length ([] ∷ names)) ≡ length (0 ∷ offs) = omega (arith, v.same) in
      let here : (length (0 ∷ offs) == length (0 ∷ offs)) ≡ true = ground arith in
      rw (last_index-snoc_self 0 label ([] ∷ names)) (
        ap (λ i. ok (get_or (0 ∷ (offs ++ (ip ∷ []))) i 0)) at
        ∙ ap ok (get_or-snoc 0 (0 ∷ offs) ip (length (0 ∷ offs)) ∙ rw here))

-- Adding a label, not the empty string, succeeds while there are fewer than 2 ^ 23 - 2 labels. Then
-- the label has the given offset if it was not there, and keeps its own if it was; every other string
-- has the offset that it had, and one that is no label still has none.
pub label_to_ofs-add_label :
    (p : Program) {names : List CString} {offs : List ℕ} (ip : ℕ) (label : CString)
    → HasLabels p.labels names offs
    → length names + 3 ≤ alert_size
    → label ≢ []
    → (p' : Program) × (names' : List CString) × (offs' : List ℕ) × (add_label p ip label ≡ ok p')
      × HasLabels p'.labels names' offs'
      × ((s : CString)
          → label_to_ofs p' s
            ≡ (if is_known label names || str_differs label s then label_to_ofs p s else ok ip))
label_to_ofs-add_label p {names} {offs} ip label v room ne =
    elim (Option-cases (last_index 0 label ([] ∷ names))) [
      | inr (i, e) ↦
          let (p', added, held) = add_label_known p ip label v (omega arith) i e ne in
          (
            p',
            names,
            offs,
            added,
            held,
            λ s. rw e (
                label_to_ofs_lem p' held (omega arith) s
                ∙ sym (label_to_ofs_lem p v (omega arith) s)),
          )
      | inl e ↦
          let (p', added, held) = add_label_new p ip label v (omega arith) e in
          (
            p',
            names ++ (label ∷ []),
            offs ++ (ip ∷ []),
            added,
            held,
            λ s. rw e (
                label_to_ofs_lem p' held (omega (arith, length-snoc names label)) s
                ∙ elim (Bool-cases (str_differs label s)) [
                  | inl h ↦ rw h (
                      offset_of_other p ip label v (omega arith) s v.same h
                      ∙ sym (label_to_ofs_lem p v (omega arith) s))
                  | inr h ↦ rw h (
                      ap (λ t. offset_of t (names ++ (label ∷ [])) (offs ++ (ip ∷ [])))
                        (sym (str_differs-eq label s h))
                      ∙ offset_of_new p ip label v (omega arith))
                ]),
          )
    ]

-- A new program has no labels and no code.
pub new-HasLabels : (p : Program) × (new ≡ ok p) × HasLabels p.labels [] [] × HasCode p []
unfolding new Dynarray.init
new-HasLabels =
    let (ts, made, held) = init-Holds in
    let (d, wrote, words) = write-HasWords 0 0 (init-HasWords 0) (omega arith) in
    (
      record {
        env = none;
        loadlibs = ts;
        requires = ts;
        strings = ts;
        labels = record { labels = ts; offsets = d };
        data_seg = Dynarray.init;
        code = Dynarray.init;
      },
      rw (made, wrote),
      record {
        table = held;
        words = words;
        same = refl;
        block = write_reserved Dynarray.init d 0 0 wrote (omega arith) (start refl);
      },
      init-HasWords (CodeWord.number 0),
    )
  where
    start : (Dynarray.init {A = ℕ}).reserved ≡ 0 → (Dynarray.init {A = ℕ}).reserved ≤ 2 ^ 24
    start e = omega arith
