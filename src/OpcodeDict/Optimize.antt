-- ===== src/OpcodeDict/Optimize.antt =====
-- `opcode_dict_optimize` of src/compiler/opcode_dict.c: the dictionary of the opcodes that a code uses.
use tinyaml.Prelude.{
  ℕ, zero, suc, ◌+◌, ◌<◌, ◌≤◌, ◌≡◌, ◌≢◌, ◌⊎◌, refl, arith, true, false, some, List, [], ◌∷◌, ◌++◌,
  ◌==◌, length, get_elem?, ap, sym, ◌∙◌, Bool-cases, inl, inr, ==_iff, length-snoc, if◌then◌else◌,
}
use tinyaml.Prelude.{ok, ◌>>=◌}
use tinyaml.Dynarray.{alert_size}
use tinyaml.Hashtab.Keys.{CString, str_differs, str_differs-eq, str_differs_self}
use tinyaml.TextSeg.Holds.{get_elem?-snoc}
use tinyaml.OpcodeDict.{OpcodeDict, add, optimize, optimize_loop}
use tinyaml.OpcodeDict.Holds.{
  Opcode, Holds, IsFreshStub, init-Holds, named, added, added-cases, get_elem?-lt,
}
use tinyaml.OpcodeDict.Lookup.{
  stub_by_code-code_by_stub, same_place, named_once, add-Holds, add_known,
}

-- Every opcode of `l` is one of `g`.
abbrev pub IsWithin : (ℕ → List Opcode) → (ℕ → List Opcode) → Type 0
IsWithin l g =
    (b i : ℕ) (s : CString) (p : ℕ)
    → b < 8
    → get_elem? (l b) i ≡ some (s, p)
    → (j : ℕ) × (get_elem? (g b) j ≡ some (s, p))

-- Every stub of a list is that of an opcode.
abbrev pub AllKnown : (ℕ → List Opcode) → List ℕ → Type 0
AllKnown g [] = Unit {0}
AllKnown g (p ∷ ps) =
    ((a : ℕ) × (i : ℕ) × (s : CString) × (a < 8) × (get_elem? (g a) i ≡ some (s, p)))
    × AllKnown g ps

-- A name that a list has stands at a place of it.
name_or_place :
    (s : CString) (xs : List Opcode)
    → (named s xs ≡ []) ⊎ ((k : ℕ) × (q : ℕ) × (get_elem? xs k ≡ some (s, q)))
unfolding named
name_or_place s [] = inl refl
name_or_place s ((x, p) ∷ xs) = elim (name_or_place s xs) [
  | inr (k, q, e) ↦ inr (suc k, q, e)
  | inl none_there ↦ elim (Bool-cases (str_differs x s)) [
    | inl h ↦ inl (rw none_there (rw h))
    | inr h ↦ inr (0, p, ap (λ y. some (y, p)) (str_differs-eq x s h))
  ]
]

named_present :
    (s : CString) (p k : ℕ) (xs : List Opcode) → get_elem? xs k ≡ some (s, p) → named s xs ≢ []
unfolding named
named_present s p k [] there e = absurd (cc)
named_present s p zero ((x, q) ∷ xs) there e =
    let same : x ≡ s = cc in
    let hit : str_differs x s ≡ false = ap (λ y. str_differs y s) same ∙ str_differs_self s in
    last (named s xs) q (sym (ap (λ b. named s xs ++ (if b then [] else q ∷ [])) hit) ∙ e)
  where
    last : (ys : List ℕ) (y : ℕ) → ys ++ (y ∷ []) ≢ []
    last [] y e' = cc
    last (z ∷ ys) y e' = cc
named_present s p (suc k) ((x, q) ∷ xs) there e =
    named_present s p k xs there (first (named s xs) _ e)
  where
    first : (ys zs : List ℕ) → ys ++ zs ≡ [] → ys ≡ []
    first [] zs e' = refl
    first (y ∷ ys) zs e' = absurd (cc)

module _ (l : ℕ → List Opcode) (a : ℕ) (s : CString) (p : ℕ) where
  old_place :
      (b k : ℕ) (x : Opcode) → get_elem? (l b) k ≡ some x → get_elem? (added l a s p b) k ≡ some x
  old_place b k x e = elim (Bool-cases (a == b)) [
    | inl h ↦
        (let same : a ≡ b = (==_iff a b).0 h in
          let here : get_elem? (l a) k ≡ some x = ap (λ c. get_elem? (l c) k) same ∙ e in
          let below = get_elem?-lt (l a) k x here in
          let apart : (length (l a) == k) ≡ false = ground arith in
          rw h (get_elem?-snoc (l a) (s, p) k ∙ rw apart here))
    | inr h ↦ rw h e
  ]

  new_place : get_elem? (added l a s p a) (length (l a)) ≡ some (s, p)
  new_place =
      let same : (a == a) ≡ true = (==_iff a a).1 refl in
      let here : (length (l a) == length (l a)) ≡ true = ground arith in
      rw same (get_elem?-snoc (l a) (s, p) (length (l a)) ∙ rw here)

  length-added : (b : ℕ) → length (added l a s p b) ≤ length (l b) + 1
  length-added b = elim (Bool-cases (a == b)) [
    | inl h ↦
        rw h (omega (arith, length-snoc (l a) (s, p), ap (λ c. length (l c)) ((==_iff a b).0 h)))
    | inr h ↦ rw h (omega arith)
  ]

module _ {glob : OpcodeDict} {g : ℕ → List Opcode} (w : Holds glob g) where
  -- One stub of the code: afterwards its opcode is there.
  add_stub :
      {od : OpcodeDict} {l : ℕ → List Opcode} (a i : ℕ) (s : CString) (p : ℕ)
      → Holds od l
      → IsWithin l g
      → a < 8
      → get_elem? (g a) i ≡ some (s, p)
      → length (l a) < alert_size
      → (od' : OpcodeDict) × (l' : ℕ → List Opcode) × (add od a (some s) p ≡ ok od')
        × Holds od' l'
        × IsWithin l' g
        × IsWithin l l'
        × ((k : ℕ) × (get_elem? (l' a) k ≡ some (s, p)))
        × ((b : ℕ) → length (l' b) ≤ length (l b) + 1)
  add_stub {od} {l} a i s p v part lt there room = elim (name_or_place s (l a)) [
    | inr (k, q, e) ↦
        (let (j, e') = part a k s q lt e in
          let one = named_once (g a) i s p (λ j' t r. w.distinct a j' t r lt) there in
          let two = named_once (g a) j s q (λ j' t r. w.distinct a j' t r lt) e' in
          let same : q ≡ p = cc in
          (
            od,
            l,
            (add_known v a k s p q lt e).0,
            v,
            part,
            (λ b j' t r lt' e''. (j', e'')),
            (k, e ∙ ap (λ r. some (s, r)) same),
            (λ b. omega arith),
          ))
    | inl new ↦
        (let fresh : IsFreshStub p l = λ b k r lt' e.
            (let (j, e') = part b k r p lt' e in
              let (e1, e2) = same_place w a b j i s r p lt lt' there e' in
              let named_same : some (r, p) ≡ some (s, p) =
                sym e' ∙ ap (λ c. get_elem? (g c) j) e1 ∙ ap (get_elem? (g a)) e2 ∙ there in
              let same : r ≡ s = cc in
              named_present s p k (l a)
                (ap (λ c. get_elem? (l c) k) (sym e1) ∙ e ∙ ap (λ x. some (x, p)) same) new) in
          let (od', put, held) =
            add-Holds v a s p lt ((w.stubs a i s p lt there).1) fresh new room in
          (
            od',
            added l a s p,
            put,
            held,
            (λ b k r q lt' e. elim (added-cases l a s p b k r q e) [
              | inl (e1, e2, e3, e4) ↦ (
                i,
                ap (λ c. get_elem? (g c) i) (sym e1)
                    ∙ there
                    ∙ ap (λ x. some (x, p)) e3
                    ∙ ap (λ x. some (r, x)) e4,
              )
              | inr (e', _) ↦ part b k r q lt' e'
            ]),
            (λ b k r q lt' e. (k, old_place l a s p b k (r, q) e)),
            (length (l a), new_place l a s p),
            length-added l a s p,
          ))
  ]

  optimize_loop_lem :
      (stubs : List ℕ) {od : OpcodeDict} {l : ℕ → List Opcode}
      → Holds od l
      → IsWithin l g
      → AllKnown g stubs
      → ((b : ℕ) → b < 8 → length (l b) + length stubs ≤ alert_size)
      → (od' : OpcodeDict) × (l' : ℕ → List Opcode) × (optimize_loop glob stubs od ≡ ok od')
        × Holds od' l'
        × IsWithin l' g
        × IsWithin l l'
        × AllKnown l' stubs
  unfolding optimize_loop
  optimize_loop_lem [] {od} {l} v part known room =
      (od, l, refl, v, part, (λ b i s p lt e. (i, e)), tt)
  optimize_loop_lem (p ∷ stubs) {od} {l} v part ((a, i, s, lt, there), known) room =
      let found = stub_by_code-code_by_stub w a i s p lt there in
      let (od1, l1, put, held, part1, kept, (k, at), longer) =
        add_stub a i s p v part lt there (omega (arith, room a lt)) in
      let (od2, l2, looped, held2, part2, kept2, all) =
        optimize_loop_lem stubs held part1 known (λ b lt'. omega (arith, room b lt', longer b)) in
      (
        od2,
        l2,
        rw (found.2, found.1)
            (ap (λ c. add od c (some s) p >>= (λ d. optimize_loop glob stubs d)) (found.4)
              ∙ rw (put, looped)),
        held2,
        part2,
        (λ b j r q lt' e. (let (j', e') = kept b j r q lt' e in kept2 b j' r q lt' e')),
        ((let (k', at') = kept2 a k s p lt at in (a, k', s, lt, at')), all),
      )

-- From a dictionary that has the opcodes `g`, a code whose stubs are all in it gets a dictionary with
-- opcodes of `g` alone, and with all of the code. The code is at most 2 ^ 23 instructions long.
pub optimize-Holds :
    {glob : OpcodeDict} {g : ℕ → List Opcode} (stubs : List ℕ)
    → Holds glob g
    → AllKnown g stubs
    → length stubs ≤ alert_size
    → (od : OpcodeDict) × (l : ℕ → List Opcode) × (optimize glob stubs ≡ ok od)
      × Holds od l
      × IsWithin l g
      × AllKnown l stubs
unfolding optimize
optimize-Holds stubs w known room =
    let (od, l, looped, held, part, _, all) =
      optimize_loop_lem w stubs init-Holds (λ b i s p lt e. absurd (cc)) known
        (λ b lt. omega arith) in
    (od, l, looped, held, part, all)
