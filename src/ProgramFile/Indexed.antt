-- ===== src/ProgramFile/Indexed.antt =====
-- Instructions and the indices of their symbols, for the files of src/vm/program.c.
use mathlib.Core.Option
use tinyaml.Prelude.{
  ℕ, ◌+◌, ◌<◌, ◌≤◌, ◌≡◌, ◌≢◌, refl, arith, true, false, Option, none, some, List, [], ◌∷◌, ◌++◌,
  ◌==◌, length, get_elem?, ap, sym, ◌∙◌, Bool-cases, inl, inr, length-append,
}
use tinyaml.Prelude.{ok, ◌>>=◌, ◌*◌, subst, append_assoc}
use tinyaml.Dynarray.{alert_size, load}
use tinyaml.Hashtab.Keys.{CString, str_differs, str_differs-eq}
use tinyaml.TextSeg.Find.{last_index, last_index-snoc_self, interned}
use tinyaml.OpcodeDict.Holds.{Opcode}
use tinyaml.Program.{Program, CodeWord, number}
use tinyaml.Program.Code.{HasCode, read-HasCode}
use tinyaml.Program.LabelTable.{load-read, last_index-snoc_other}
use tinyaml.ProgramFile.{stubs_from}
use tinyaml.ProgramFile.Section.{flat}

-- The stubs of instructions.
abbrev pub stubs_of : List (ℕ × CodeWord) → List ℕ
stubs_of [] = []
stubs_of ((stub, arg) ∷ xs) = stub ∷ stubs_of xs

-- The two words of an instruction, read from the block.
pub load-HasCode :
    (p : Program) (before after : List CodeWord) (op arg : CodeWord)
    → HasCode p (before ++ (op ∷ arg ∷ after))
    → length before + 2 ≤ alert_size
    → (load p.code (length before) ≡ ok op) × (load p.code (length before + 1) ≡ ok arg)
load-HasCode p before after op arg v small =
    let (one, two) = read-HasCode p before after op arg v small in
    let size = length-append before (op ∷ arg ∷ after) in
    (
      load-read (number 0) p.code (length before) (omega (arith, v.count)) (omega arith) ∙ one,
      load-read (number 0) p.code (length before + 1) (omega (arith, v.count)) (omega arith) ∙ two,
    )

-- An index other than 0 for a string, in a list.
abbrev pub HasIndex : CString → List CString → Type 0
HasIndex s xs = (i : ℕ) × (last_index 0 s xs ≡ some i) × (i ≢ 0)

pub interned_self : (s : CString) (xs : List CString) → 0 < length xs → HasIndex s (interned s xs)
unfolding interned
interned_self s xs h = elim (Bool-cases (Option.get_or (last_index 0 s xs) 0 == 0)) [
  | inl e ↦ rw e (length xs, last_index-snoc_self 0 s xs ∙ ap some (omega arith), omega arith)
  | inr e ↦ rw e (known (last_index 0 s xs) e)
]
  where
    known : (o : Option ℕ) → (Option.get_or o 0 == 0) ≡ false → (i : ℕ) × (o ≡ some i) × (i ≢ 0)
    known none e = absurd (ground arith)
    known (some i) e = (i, refl, ground arith)

pub interned_other :
    (r s : CString) (xs : List CString) → HasIndex r xs → HasIndex r (interned s xs)
unfolding interned
interned_other r s xs (i, at, ne) = elim (Bool-cases (Option.get_or (last_index 0 s xs) 0 == 0)) [
  | inr e ↦ rw e (i, at, ne)
  | inl e ↦ rw e (elim (Bool-cases (str_differs s r)) [
    | inl d ↦ (i, last_index-snoc_other 0 r s xs d ∙ at, ne)
    | inr d ↦
        (let same : s ≡ r = str_differs-eq s r d in
          let zero_there : (Option.get_or (some i) 0 == 0) ≡ true =
            ap (λ o. Option.get_or o 0 == 0) (sym at ∙ ap (λ c. last_index 0 c xs) (sym same))
            ∙ e in
          absurd (ne (ground arith)))
  ])
]

-- The instructions have opcodes of `g`, and the operands of those on symbols are symbols of `names`.
abbrev pub AllNamed : (ℕ → List Opcode) → List CString → List (ℕ × CodeWord) → Type 0
AllNamed g names [] = Unit {0}
AllNamed g names ((stub, arg) ∷ xs) =
    ((a : ℕ) × (i : ℕ) × (s : CString) × (a < 8)
      × (get_elem? (g a) i ≡ some (s, stub))
      × ((a == 7) ≡ true
          → (k : ℕ) × (sym : CString) × (arg ≡ number k)
            × (k < length names)
            × (get_elem? names k ≡ some sym)))
    × AllNamed g names xs

-- The symbols that the instructions use have an index.
abbrev pub AllFiled : (ℕ → List Opcode) → List CString → List CString → List (ℕ × CodeWord) → Type 0
AllFiled g names filed [] = Unit {0}
AllFiled g names filed ((stub, arg) ∷ xs) =
    ((i k : ℕ) (s sym : CString)
      → get_elem? (g 7) i ≡ some (s, stub)
      → arg ≡ number k
      → get_elem? names k ≡ some sym
      → HasIndex sym filed)
    × AllFiled g names filed xs

pub length-le-interned : (s : CString) (xs : List CString) → length xs ≤ length (interned s xs)
unfolding interned
length-le-interned s xs = ground (arith, length-append xs (s ∷ []))

pub sym_path {ℓ} : {A : Type ℓ} {x y z : A} → x ≡ y → x ≡ z → y ≡ z
sym_path e e' = sym e ∙ e'

-- The loop that collects the stubs gets them all.
pub stubs_from_lem :
    (xs : List (ℕ × CodeWord)) (p : Program) (before : List CodeWord)
    → HasCode p (before ++ flat xs)
    → length before + 2 * length xs ≤ alert_size
    → stubs_from (length xs) (length before) p ≡ ok (stubs_of xs)
unfolding stubs_from
stubs_from_lem [] p before code small = refl
stubs_from_lem ((stub, arg) ∷ xs) p before code small =
    let (op, _) = load-HasCode p before (flat xs) (number stub) arg code (omega arith) in
    let next = before ++ (number stub ∷ arg ∷ []) in
    let two : length before + 2 ≡ length next =
      omega (arith, length-append before (number stub ∷ arg ∷ [])) in
    let rest =
      stubs_from_lem xs p next
        (subst (HasCode p) (sym (append_assoc before (number stub ∷ arg ∷ []) (flat xs))) code)
        (omega arith) in
    rw op (ap (λ k. stubs_from (length xs) k p >>= λ stubs. ok (stub ∷ stubs)) two ∙ rw rest)
