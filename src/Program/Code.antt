-- ===== src/Program/Code.antt =====
-- The code and the data of the programs of src/vm/program.c as lists of words.
use tinyaml.Prelude.{
  ℕ, zero, suc, ◌+◌, ◌<◌, ◌≤◌, ◌≡◌, refl, arith, true, false, List, [], ◌∷◌, ◌++◌, ◌==◌, length,
  get_or, ap, sym, ◌∙◌, Bool-cases, inl, inr, append_assoc, length-append, length-snoc,
  if◌then◌else◌, Bool, ◌⊎◌,
}
use tinyaml.Prelude.{ok, ◌>>=◌, >>=-eq-ok, subst}
use tinyaml.Dynarray
use tinyaml.Dynarray.{Dynarray, alert_size}
use tinyaml.Dynarray.Inv
use tinyaml.Dynarray.Laws.{write_small, write_total, read-write, read_lem, read-reserve}
use tinyaml.Program.{CodeWord, Program, append_pair, write_code, fetch, get_code_size}

-- An array holds the words `xs` from index 0 on, and the zero word behind them.
pub record HasWords {ℓ} {A : Type ℓ} (blank : A) (d : Dynarray A) (xs : List A) : Type ℓ where
  pub valid : Inv.IsValid blank d
  pub count : d.size ≡ length xs
  pub words : (i : ℕ) → i < alert_size → Dynarray.read blank d i ≡ ok (get_or xs i blank)

module _ {ℓ} {A : Type ℓ} (blank : A) where
  pub get_or-snoc :
      (xs : List A) (x : A) (j : ℕ)
      → get_or (xs ++ (x ∷ [])) j blank ≡ (if length xs == j then x else get_or xs j blank)
  get_or-snoc [] x zero = refl
  get_or-snoc [] x (suc j) = ground arith
  get_or-snoc (y ∷ xs) x zero = ground arith
  get_or-snoc (y ∷ xs) x (suc j) = ground (arith, get_or-snoc xs x j)

  -- A write behind the last word appends it.
  pub write-HasWords :
      {d : Dynarray A} {xs : List A} (x : A)
      → HasWords blank d xs
      → length xs < alert_size
      → (d' : Dynarray A) × (Dynarray.write blank d (length xs) x ≡ ok d')
        × HasWords blank d' (xs ++ (x ∷ []))
  unfolding Dynarray.dynarray_size
  write-HasWords {d} {xs} x v room =
      let (d', wrote, valid, size) = write_total blank (length xs) x v.valid room in
      (
        d',
        wrote,
        record {
          valid = valid;
          count = omega (arith, size, v.count, length-snoc xs x);
          words = λ i small.
              read-write blank (length xs) i x v.valid wrote small
              ∙ ap (λ y. if length xs == i then ok x else y) (v.words i small)
              ∙ split (get_or xs i blank) (Bool-cases (length xs == i))
              ∙ ap ok (sym (get_or-snoc xs x i));
        },
      )
    where
      split :
          {b : Bool} (y : A)
          → (b ≡ true) ⊎ (b ≡ false)
          → (if b then ok x else ok y) ≡ ok (if b then x else y)
      split y (inl h) = rw h
      split y (inr h) = rw h

  pub reserve-HasWords :
      {d : Dynarray A} {xs : List A} (n : ℕ)
      → HasWords blank d xs
      → HasWords blank (Dynarray.reserve blank d n) xs
  unfolding Dynarray.dynarray_size
  reserve-HasWords n v = record {
    valid = (read-reserve blank n 0 v.valid (omega arith)).2;
    count = (read-reserve blank n 0 v.valid (omega arith)).1 ∙ v.count;
    words = λ i small. (read-reserve blank n i v.valid small).0 ∙ v.words i small;
  }

  pub init-HasWords : HasWords blank Dynarray.init []
  unfolding Dynarray.init
  init-HasWords = record {
    valid = Inv.init-IsValid blank;
    count = refl;
    words = λ i small. read_lem blank (Inv.init-IsValid blank) i small;
  }

-- Appending an opcode and its argument.
pub append_pair-HasWords :
    {d : Dynarray CodeWord} {xs : List CodeWord} (op arg : CodeWord)
    → HasWords (CodeWord.number 0) d xs
    → length xs + 2 ≤ alert_size
    → (d' : Dynarray CodeWord) × (append_pair d op arg ≡ ok d')
      × HasWords (CodeWord.number 0) d' (xs ++ (op ∷ arg ∷ []))
unfolding append_pair Dynarray.dynarray_size
append_pair-HasWords {d} {xs} op arg v room =
    let z = CodeWord.number 0 in
    let ip = length xs in
    let (d1, wrote1, valid1, size1) = write_total z (ip + 1) arg v.valid (omega arith) in
    let (d2, wrote2, valid2, size2) = write_total z ip op valid1 (omega arith) in
    let two : length (xs ++ (op ∷ arg ∷ [])) ≡ ip + 2 =
      omega (arith, length-append xs (op ∷ arg ∷ [])) in
    (
      d2,
      ap (λ n. Dynarray.write z d (n + 1) arg >>= λ d'. Dynarray.write z d' n op) v.count
          ∙ rw (wrote1, wrote2),
      record {
        valid = valid2;
        count = omega (arith, size1, size2, v.count);
        words = λ i small.
            read-write z ip i op valid1 wrote2 small
            ∙ ap (λ y. if ip == i then ok op else y)
                (read-write z (ip + 1) i arg v.valid wrote1 small
                  ∙ ap (λ y. if ip + 1 == i then ok arg else y) (v.words i small))
            ∙ pair i;
      },
    )
  where
    pair :
        (i : ℕ)
        → (if length xs == i
            then ok op
            else if length xs + 1 == i
            then ok arg
            else ok (get_or xs i (CodeWord.number 0)))
          ≡ ok (get_or (xs ++ (op ∷ arg ∷ [])) i (CodeWord.number 0))
    pair i = ground (
      arith,
      ap (λ (y : List CodeWord). get_or y i (CodeWord.number 0))
          (append_assoc xs (op ∷ []) (arg ∷ [])),
      get_or-snoc (CodeWord.number 0) (xs ++ (op ∷ [])) arg i,
      get_or-snoc (CodeWord.number 0) xs op i,
      length-snoc xs op,
    )

-- The words of a program's code.
abbrev pub HasCode : Program → List CodeWord → Type 0
HasCode p ws = HasWords (CodeWord.number 0) p.code ws

-- The two words of an instruction in the middle of the code.
pub read-HasCode :
    (p : Program) (ws after : List CodeWord) (op arg : CodeWord)
    → HasCode p (ws ++ (op ∷ arg ∷ after))
    → length ws + 2 ≤ alert_size
    → (Dynarray.read (CodeWord.number 0) p.code (length ws) ≡ ok op)
      × (Dynarray.read (CodeWord.number 0) p.code (length ws + 1) ≡ ok arg)
read-HasCode p ws after op arg v small = (
  v.words (length ws) (omega arith) ∙ ap ok (first ws),
  v.words (length ws + 1) (omega arith) ∙ ap ok (second ws),
)
  where
    first :
        (xs : List CodeWord)
        → get_or (xs ++ (op ∷ arg ∷ after)) (length xs) (CodeWord.number 0) ≡ op
    first [] = refl
    first (x ∷ xs) = first xs

    second :
        (xs : List CodeWord)
        → get_or (xs ++ (op ∷ arg ∷ after)) (length xs + 1) (CodeWord.number 0) ≡ arg
    second [] = refl
    second (x ∷ xs) =
        let q : length (x ∷ xs) + 1 ≡ suc (length xs + 1) = omega arith in
        ap (λ k. get_or ((x ∷ xs) ++ (op ∷ arg ∷ after)) k (CodeWord.number 0)) q ∙ second xs

pub fetch-HasCode :
    (p : Program) (ws after : List CodeWord) (op arg : CodeWord)
    → HasCode p (ws ++ (op ∷ arg ∷ after))
    → length ws + 2 ≤ alert_size
    → fetch p (length ws) ≡ ok (op, arg)
unfolding fetch
fetch-HasCode p ws after op arg v small =
    let (one, two) = read-HasCode p ws after op arg v small in rw (two, one)

-- Writing an instruction behind the code succeeds below the alert size; it is fetched at the size that
-- the code had, every other instruction is fetched as before, and the size grows by two.
pub fetch-write_code :
    (p : Program) {ws : List CodeWord} (op arg : CodeWord)
    → HasCode p ws
    → length ws + 2 ≤ alert_size
    → (p' : Program) × (write_code p op arg ≡ ok p')
      × HasCode p' (ws ++ (op ∷ arg ∷ []))
      × (get_code_size p' ≡ get_code_size p + 2)
      × (fetch p' (get_code_size p) ≡ ok (op, arg))
      × ((ip : ℕ) → ip + 1 < length ws → fetch p' ip ≡ fetch p ip)
unfolding write_code get_code_size fetch Dynarray.dynarray_size
fetch-write_code p {ws} op arg v room =
    let z = CodeWord.number 0 in
    let (d, wrote, held) = append_pair-HasWords op arg v room in
    let two : length (ws ++ (op ∷ arg ∷ [])) ≡ length ws + 2 =
      omega (arith, length-append ws (op ∷ arg ∷ [])) in
    (
      record p { code = d },
      rw wrote,
      held,
      omega (arith, held.count, v.count),
      ap (λ n. fetch (record p { code = d }) n) v.count
          ∙ fetch-HasCode (record p { code = d }) ws [] op arg held room,
      λ ip below. rw (
        held.words (ip + 1) (omega arith),
        held.words ip (omega arith),
        v.words (ip + 1) (omega arith),
        v.words ip (omega arith),
        kept ws (ip + 1) (omega arith),
        kept ws ip (omega arith),
      ),
    )
  where
    kept :
        (xs : List CodeWord) (i : ℕ)
        → i < length xs
        → get_or (xs ++ (op ∷ arg ∷ [])) i (CodeWord.number 0) ≡ get_or xs i (CodeWord.number 0)
    kept [] i h = absurd (omega arith)
    kept (x ∷ xs) zero h = refl
    kept (x ∷ xs) (suc i) h = kept xs i (omega arith)

-- Writing that succeeds appends the instruction, below the alert size.
pub write_code-HasCode :
    (p p' : Program) {ws : List CodeWord} (op arg : CodeWord)
    → HasCode p ws
    → write_code p op arg ≡ ok p'
    → HasCode p' (ws ++ (op ∷ arg ∷ [])) × (length ws + 2 ≤ alert_size)
unfolding write_code append_pair Dynarray.dynarray_size
write_code-HasCode p p' {ws} op arg v e =
    let (d, appended, _) = >>=-eq-ok (append_pair p.code op arg) e in
    let (d1, wrote, _) =
      >>=-eq-ok (Dynarray.write (CodeWord.number 0) p.code (p.code.size + 1) arg) appended in
    let small = write_small (CodeWord.number 0) p.code d1 (p.code.size + 1) arg wrote in
    let (p'', run, held, _, _, _) = fetch-write_code p op arg v (omega (arith, v.count)) in
    let same : p'' ≡ p' = cc in
    (subst (λ q. HasCode q (ws ++ (op ∷ arg ∷ []))) same held, omega (arith, v.count))
