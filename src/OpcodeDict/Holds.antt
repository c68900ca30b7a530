-- ===== src/OpcodeDict/Holds.antt =====
-- The dictionary of src/compiler/opcode_dict.c as eight lists of names with their stubs, in the order
-- in which the opcodes were added.
use mathlib.Core.List.{head?}
use tinyaml.Prelude.{
  ℕ, zero, suc, ◌+◌, ◌<◌, ◌≢◌, ◌≡◌, ◌⊎◌, refl, arith, Option, some, List, [], ◌∷◌, ◌++◌, ◌==◌,
  if◌then◌else◌, length, get_elem?, take, ap, sym, ◌∙◌, Bool-cases, inl, inr, get_or-replicate,
  length-replicate, ==_iff,
}
use tinyaml.Prelude.{ok}
use tinyaml.Dynarray
use tinyaml.Dynarray.{Dynarray, alert_size}
use tinyaml.Dynarray.Inv
use tinyaml.Hashtab
use tinyaml.Hashtab.{Table, hash_size, Chain}
use tinyaml.Hashtab.Keys.{CString, str_ops, ptr_ops, str_differs}
use tinyaml.Hashtab.Laws.{bindings, matching}
use tinyaml.OpcodeDict.{OpcodeDict, at_type, init, make_wc}

-- An opcode: its name and its stub.
abbrev pub Opcode : Type 0
Opcode = CString × ℕ

-- The stubs of a name in a list, the last one first.
unfoldable pub named : CString → List Opcode → List ℕ
named s [] = []
named s ((x, p) ∷ l) = named s l ++ (if str_differs x s then [] else p ∷ [])

pub named-snoc :
    (s x : CString) (p : ℕ) (l : List Opcode)
    → named s (l ++ ((x, p) ∷ [])) ≡ (if str_differs x s then named s l else p ∷ named s l)
unfolding named
named-snoc s x p [] = elim (Bool-cases (str_differs x s)) [ inl h ↦ rw h | inr h ↦ rw h ]
named-snoc s x p ((y, q) ∷ l) =
    rw (named-snoc s x p l) (elim (Bool-cases (str_differs x s)) [ inl h ↦ rw h | inr h ↦ rw h ])

-- The dictionary has the opcodes `l a` of each type `a`, a name at most once; a stub has the code of
-- its place and its name.
pub record Holds (od : OpcodeDict) (l : ℕ → List Opcode) : Type 0 where
  pub index : (a : ℕ) → a < 8 → Inv.IsValid 0 (od.stub_by_index a)
  pub count : (a : ℕ) → a < 8 → (od.stub_by_index a).size ≡ length (l a)
  pub small : (a : ℕ) → a < 8 → length (l a) < alert_size + 1
  pub stubs :
      (a i : ℕ) (s : CString) (p : ℕ)
      → a < 8
      → get_elem? (l a) i ≡ some (s, p)
      → (Dynarray.read 0 (od.stub_by_index a) i ≡ ok p) × (p ≢ 0)
  pub name_rows : (a : ℕ) → a < 8 → length (od.stub_by_name a) ≡ hash_size
  pub names : (a : ℕ) (s : CString) → a < 8 → bindings str_ops (od.stub_by_name a) s ≡ named s (l a)
  pub distinct :
      (a i : ℕ) (s : CString) (p : ℕ)
      → a < 8
      → get_elem? (l a) i ≡ some (s, p)
      → named s (take i (l a)) ≡ []
  pub code_rows : length od.wordcode_by_stub ≡ hash_size
  pub codes :
      (a i : ℕ) (s : CString) (p : ℕ)
      → a < 8
      → get_elem? (l a) i ≡ some (s, p)
      → head? (bindings ptr_ops od.wordcode_by_stub p) ≡ some (make_wc a i)
  pub back_rows : length od.name_by_stub ≡ hash_size
  pub back :
      (a i : ℕ) (s : CString) (p : ℕ)
      → a < 8
      → get_elem? (l a) i ≡ some (s, p)
      → head? (bindings ptr_ops od.name_by_stub p) ≡ some (some s)

-- No opcode has the stub.
abbrev pub IsFreshStub : ℕ → (ℕ → List Opcode) → Type 0
IsFreshStub p l = (a i : ℕ) (s : CString) → a < 8 → get_elem? (l a) i ≢ some (s, p)

-- A new dictionary has no opcode.
pub init-Holds : Holds init (λ a. [])
unfolding init Dynarray.init Hashtab.init bindings matching named
init-Holds = record {
  index = λ a lt. Inv.init-IsValid 0;
  count = λ a lt. refl;
  small = λ a lt. omega arith;
  stubs = λ a i s p lt e. cc;
  name_rows = λ a lt. length-replicate {A = Chain CString ℕ} hash_size [];
  names = λ a s lt.
      ap (λ c. matching str_ops c s)
        (get_or-replicate {A = Chain CString ℕ} hash_size (str_ops.hash s) []);
  distinct = λ a i s p lt e. absurd (cc);
  code_rows = length-replicate {A = Chain ℕ ℕ} hash_size [];
  codes = λ a i s p lt e. absurd (cc);
  back_rows = length-replicate {A = Chain ℕ (Option CString)} hash_size [];
  back = λ a i s p lt e. absurd (cc);
}

-- An entry of a list with one more at its end.
pub snoc-cases :
    (xs : List Opcode) (x y : Opcode) (i : ℕ)
    → get_elem? (xs ++ (x ∷ [])) i ≡ some y
    → ((i ≡ length xs) × (x ≡ y)) ⊎ ((i < length xs) × (get_elem? xs i ≡ some y))
snoc-cases [] x y zero e = inl (refl, cc)
snoc-cases [] x y (suc i) e = absurd (cc)
snoc-cases (z ∷ xs) x y zero e = inr (omega arith, e)
snoc-cases (z ∷ xs) x y (suc i) e = elim (snoc-cases xs x y i e) [
  | inl (h, q) ↦ inl (omega arith, q)
  | inr (h, q) ↦ inr (omega arith, q)
]

pub get_elem?-lt : (xs : List Opcode) (i : ℕ) (x : Opcode) → get_elem? xs i ≡ some x → i < length xs
get_elem?-lt [] i x e = absurd (cc)
get_elem?-lt (y ∷ xs) zero x e = omega arith
get_elem?-lt (y ∷ xs) (suc i) x e = omega (arith, get_elem?-lt xs i x e)

module _ (l : ℕ → List Opcode) (a : ℕ) (s : CString) (p : ℕ) where
  -- The lists with one more opcode of the type `a`.
  abbrev pub added : ℕ → List Opcode
  added = at_type l a (l a ++ ((s, p) ∷ []))

  -- An opcode is the new one or an old one.
  pub added-cases :
      (b i : ℕ) (t : CString) (q : ℕ)
      → get_elem? (added b) i ≡ some (t, q)
      → ((a ≡ b) × (i ≡ length (l a)) × (s ≡ t) × (p ≡ q))
        ⊎ ((get_elem? (l b) i ≡ some (t, q)) × (i < length (l b)))
  added-cases b i t q e = elim (Bool-cases (a == b)) [
    | inl h ↦
        (let same : a ≡ b = (==_iff a b).0 h in
          elim (snoc-cases (l a) (s, p) (t, q) i (rw h at e)) [
            | inl (h', e') ↦ inl (same, h', ap (λ x. x.0) e', ap (λ x. x.1) e')
            | inr (h', e') ↦ inr (
              ap (λ x. get_elem? (l x) i) (sym same) ∙ e',
              omega (arith, ap (λ x. length (l x)) same),
            )
          ])
    | inr h ↦
        (let there : get_elem? (l b) i ≡ some (t, q) = rw h at e in
          inr (there, get_elem?-lt (l b) i (t, q) there))
  ]
