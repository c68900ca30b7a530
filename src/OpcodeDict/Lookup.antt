-- ===== src/OpcodeDict/Lookup.antt =====
-- Looking opcodes up in the dictionary of src/compiler/opcode_dict.c, and adding them.
use mathlib.Core.List.{head?}
use mathlib.Core.Option
use tinyaml.Prelude.{
  ℕ, zero, suc, ◌^◌, ◌<◌, ◌≢◌, ◌≡◌, refl, arith, false, none, some, List, [], ◌∷◌, ◌++◌, ◌==◌,
  if◌then◌else◌, length, get_elem?, take, ap, sym, ◌∙◌, Bool-cases, inl, inr, lt→ltb,
}
use tinyaml.Prelude.{ok}
use tinyaml.Dynarray.{alert_size}
use tinyaml.Hashtab.Keys.{CString, str_differs, str_differs_self, str-Lawful, ptr-Lawful}
use tinyaml.Hashtab.Laws.{find-bindings}
use tinyaml.OpcodeDict.{
  OpcodeDict, add, stub_key, stub_by_name, stub_by_code, code_by_stub, name_by_stub, make_wc,
  wc_argtype, wc_op,
}
use tinyaml.OpcodeDict.Holds.{Opcode, Holds, IsFreshStub, named, added, get_elem?-lt}
use tinyaml.OpcodeDict.Enter.{enter-Holds}

-- The parts of a wordcode whose index fits in 28 bits.
pub make_wc_parts :
    (a i : ℕ) → i < 2 ^ 28 → (wc_argtype (make_wc a i) ≡ a) × (wc_op (make_wc a i) ≡ i)
unfolding make_wc wc_argtype wc_op
make_wc_parts a i lt = omega arith

named_absent :
    (s : CString) (l : List Opcode) → ((j q : ℕ) → get_elem? l j ≢ some (s, q)) → named s l ≡ []
unfolding named
named_absent s [] none_there = refl
named_absent s ((x, p) ∷ l) none_there = elim (Bool-cases (str_differs x s)) [
  | inl h ↦ rw h (rw (named_absent s l (λ j q e. none_there (suc j) q e)))
  | inr h ↦ absurd (none_there 0 p (ap (λ y. some (y, p)) (str-Lawful.same x s h)))
]

append-nonempty : (xs : List ℕ) (x : ℕ) → xs ++ (x ∷ []) ≢ []
append-nonempty [] x e = cc
append-nonempty (y ∷ xs) x e = cc

append-empty : (xs ys : List ℕ) → xs ++ ys ≡ [] → xs ≡ []
append-empty [] ys e = refl
append-empty (x ∷ xs) ys e = absurd (cc)

-- The stubs of a name that stands in a list once.
pub named_once :
    (l : List Opcode) (i : ℕ) (s : CString) (p : ℕ)
    → ((j : ℕ) (t : CString) (q : ℕ) → get_elem? l j ≡ some (t, q) → named t (take j l) ≡ [])
    → get_elem? l i ≡ some (s, p)
    → named s l ≡ p ∷ []
unfolding named
named_once [] i s p distinct e = absurd (cc)
named_once ((x, q) ∷ l) zero s p distinct e =
    let name : x ≡ s = cc in
    let stub : q ≡ p = cc in
    let hit : str_differs x s ≡ false = ap (λ y. str_differs y s) name ∙ str_differs_self s in
    let rest : named s l ≡ [] = named_absent s l (λ j r e'. append-nonempty (named s (take j l)) q (
      sym (ap (λ b. named s (take j l) ++ (if b then [] else q ∷ [])) hit)
      ∙ distinct (suc j) s r e')) in
    rw hit (rw rest (ap (λ y. y ∷ []) stub))
named_once ((x, q) ∷ l) (suc i) s p distinct e = elim (Bool-cases (str_differs x s)) [
  | inl h ↦ rw h (
      rw (
        named_once l i s p
          (λ j t r e'. append-empty (named t (take j l)) _ (distinct (suc j) t r e')) e))
  | inr h ↦ absurd (
      append-nonempty (named s (take i l)) q (
        sym (ap (λ b. named s (take i l) ++ (if b then [] else q ∷ [])) h)
        ∙ distinct (suc i) s p e))
]

module _ {od : OpcodeDict} {l : ℕ → List Opcode} (v : Holds od l) where
  pub stub_by_name-named :
      (a : ℕ) (s : CString)
      → a < 8
      → stub_by_name od a (some s) ≡ ok (Option.get_or (head? (named s (l a))) 0)
  unfolding stub_by_name
  stub_by_name-named a s lt = rw (lt→ltb a 8 lt) (
      find-bindings str-Lawful 0 (od.stub_by_name a) s (v.name_rows a lt)
      ∙ ap (λ x. ok (Option.get_or (head? x) 0)) (v.names a s lt))

  module _ (a i : ℕ) (s : CString) (p : ℕ) (lt : a < 8)
      (there : get_elem? (l a) i ≡ some (s, p)) where
    key_lem : stub_key p ≡ some p
    unfolding stub_key
    key_lem = ground (arith, (v.stubs a i s p lt there).1)

    pub small_place : i < alert_size
    small_place = omega (arith, get_elem?-lt (l a) i (s, p) there, v.small a lt)

    -- An opcode of the dictionary is found by its name, its stub has the code of its type and place
    -- and its name, and its code gives back the stub.
    pub stub_by_code-code_by_stub :
        (stub_by_name od a (some s) ≡ ok p)
        × (code_by_stub od p ≡ ok (make_wc a i))
        × (name_by_stub od p ≡ ok (some s))
        × (stub_by_code od (make_wc a i) ≡ ok p)
        × (wc_argtype (make_wc a i) ≡ a)
        × (wc_op (make_wc a i) ≡ i)
    unfolding code_by_stub name_by_stub stub_by_code
    stub_by_code-code_by_stub =
        let (type, op) = make_wc_parts a i (omega (arith, small_place)) in
        (
          stub_by_name-named a s lt
              ∙ ap (λ x. ok (Option.get_or (head? x) 0))
                  (named_once (l a) i s p (λ j t q. v.distinct a j t q lt) there),
          rw key_lem (
              find-bindings ptr-Lawful 0 od.wordcode_by_stub p v.code_rows
              ∙ ap (λ x. ok (Option.get_or x 0)) (v.codes a i s p lt there)),
          rw key_lem (
              find-bindings ptr-Lawful none od.name_by_stub p v.back_rows
              ∙ ap (λ x. ok (Option.get_or x none)) (v.back a i s p lt there)),
          rw type (rw op (rw (lt→ltb a 8 lt) ((v.stubs a i s p lt there).0))),
          type,
          op,
        )

  -- Two places of a stub are one.
  pub same_place :
      (a b i k : ℕ) (s r : CString) (p : ℕ)
      → a < 8
      → b < 8
      → get_elem? (l a) k ≡ some (s, p)
      → get_elem? (l b) i ≡ some (r, p)
      → (b ≡ a) × (i ≡ k)
  same_place a b i k s r p lt lt' here there =
      let one = make_wc_parts a k (omega (arith, small_place a k s p lt here)) in
      let two = make_wc_parts b i (omega (arith, small_place b i r p lt' there)) in
      let code : some (make_wc b i) ≡ some (make_wc a k) =
        sym (v.codes b i r p lt' there) ∙ v.codes a k s p lt here in
      let code' : make_wc b i ≡ make_wc a k = cc in (cc, cc)

  -- Adding an opcode with a name that is new for its type, and a stub that is new and not NULL, puts
  -- it behind the others of its type, of which there are fewer than 2 ^ 23.
  pub add-Holds :
      (a : ℕ) (s : CString) (p : ℕ)
      → a < 8
      → p ≢ 0
      → IsFreshStub p l
      → named s (l a) ≡ []
      → length (l a) < alert_size
      → (od' : OpcodeDict) × (add od a (some s) p ≡ ok od') × Holds od' (added l a s p)
  unfolding add
  add-Holds a s p lt ne fresh new room =
      let (od', entered, held) = enter-Holds v a s p lt ne fresh new room in
      let absent : stub_by_name od a (some s) ≡ ok 0 =
        stub_by_name-named a s lt ∙ ap (λ x. ok (Option.get_or (head? x) 0)) new in
      let real : (p == 0) ≡ false = ground (arith, ne) in
      (od', rw (lt→ltb a 8 lt) (rw real (rw absent entered)), held)

  -- Adding an opcode whose name its type has already, or whose stub is NULL, changes nothing.
  pub add_known :
      (a i : ℕ) (s : CString) (p q : ℕ)
      → a < 8
      → get_elem? (l a) i ≡ some (s, q)
      → (add od a (some s) p ≡ ok od) × (add od a (some s) 0 ≡ ok od)
  unfolding add
  add_known a i s p q lt there =
      let found = (stub_by_code-code_by_stub a i s q lt there).0 in
      let real : (q == 0) ≡ false = ground (arith, (v.stubs a i s q lt there).1) in
      (rw (lt→ltb a 8 lt) (rw found (rw real (ground arith))), rw (lt→ltb a 8 lt))
