-- ===== src/OpcodeChain/Passes.antt =====
-- The two passes of `opcode_chain_serialize` in src/compiler/opcode_chain.c over a chain.
use tinyaml.Prelude.{
  ℕ, ◌+◌, ◌*◌, ◌^◌, ◌%◌, ◌<◌, ◌≡◌, refl, arith, Bool, true, false, List, [], ◌∷◌, ◌==◌,
  if◌then◌else◌, ap, ◌∙◌, Bool-cases, inl, inr,
}
use tinyaml.Prelude.{Run, ok, trap, Trap, ◌>>=◌, >>=-eq-ok, expect}
use tinyaml.Hashtab.Keys.{CString, str_differs}
use tinyaml.TextSeg
use tinyaml.Program.{Program, CodeWord, find_string, add_label, enter_label}
use tinyaml.OpcodeChain.{Node, NodeType, is_opcode, is_label, count}
use tinyaml.OpcodeChain.Write.{
  Counts, load_lib, require_file, operand, operand_string, first_char, visit, place,
}

-- The offset behind a node, and behind a chain.
abbrev pub step_ofs : ℕ → Node → ℕ
step_ofs ofs n = if is_opcode n.type then (ofs + 2) % 2 ^ 64 else ofs

unfoldable pub advance : ℕ → List Node → ℕ
advance ofs [] = ofs
advance ofs (n ∷ ns) = advance (step_ofs ofs n) ns

-- The nodes after the first pass.
unfoldable pub placed : ℕ → List Node → List Node
placed ofs [] = []
placed ofs (n ∷ ns) =
    (if is_label n.type then record n { lofs = ofs } else n) ∷ placed (step_ofs ofs n) ns

-- The nodes write code unless they are no instructions: none is `__LL__` or `__RQ__`.
abbrev pub AllWrite : List Node → Type 0
AllWrite [] = Unit {0}
AllWrite (n ∷ ns) =
    (is_opcode n.type ≡ true
      → (n.arg_type == 6) ≡ true
      → (str_differs n.name load_lib ≡ true) × (str_differs n.name require_file ≡ true))
    × AllWrite ns

pub advance_lem :
    (ofs : ℕ) (ns : List Node) → ofs < 2 ^ 64 → advance ofs ns ≡ (ofs + 2 * count ns) % 2 ^ 64
unfolding advance count
advance_lem ofs [] h = omega arith
advance_lem ofs (n ∷ ns) h = elim (Bool-cases (is_opcode n.type)) [
  | inl e ↦ rw e (advance_lem ((ofs + 2) % 2 ^ 64) ns (omega arith) ∙ omega arith)
  | inr e ↦ rw e (advance_lem ofs ns h ∙ omega arith)
]

-- An operand that succeeds leaves the code alone, and is to be written.
abbrev pub Keeps : Program → Run (CodeWord × Program × Bool) → Type 0
Keeps p r =
    (w : CodeWord) (p' : Program) (skip : Bool)
    → r ≡ ok (w, p', skip)
    → (skip ≡ false) × (p'.code ≡ p.code)

module _ (p : Program) where
  ok-Keeps : (w : CodeWord) → Keeps p (ok (w, p, false))
  ok-Keeps w w' p' skip e = (cc, cc)

  if-Keeps :
      (b : Bool) {x y : Run (CodeWord × Program × Bool)}
      → (b ≡ true → Keeps p x)
      → Keeps p y
      → Keeps p (if b then x else y)
  if-Keeps true f g = f refl
  if-Keeps false f g = g

  >>=-Keeps {ℓ} :
      {A : Type ℓ} (m : Run A) {k : A → Run (CodeWord × Program × Bool)}
      → ((x : A) → Keeps p (k x))
      → Keeps p (m >>= k)
  >>=-Keeps (ok x) f w p' skip e = f x w p' skip e
  >>=-Keeps (trap t) f w p' skip e = absurd (cc)

operand_string_lem :
    (name s : CString) (p p' : Program) (w : CodeWord) (skip : Bool)
    → str_differs name load_lib ≡ true
    → str_differs name require_file ≡ true
    → operand_string name s p ≡ ok (w, p', skip)
    → (skip ≡ false) × (p'.code ≡ p.code)
unfolding operand_string find_string
operand_string_lem name s p p' w skip h k e =
    let ((w1, p1), found, e1) = >>=-eq-ok (find_string p s) e in
    let ((r, ts), looked, e2) = >>=-eq-ok (TextSeg.find_by_text p.strings s) found in
    let last : ok (w1, p1, false) ≡ ok (w, p', skip) = rw (h, k) at e1 in (cc, cc)

module _ (atoi atof : CString → ℕ) where
  visit_lem :
      (t : NodeType) (n n' : Node) (c c' : Counts) (p p' : Program)
      → visit atoi atof t n c p ≡ ok (n', c', p')
      → (n' ≡ (if is_label t then record n { lofs = c.ofs } else n))
        × (c'.ofs ≡ (if is_opcode t then (c.ofs + 2) % 2 ^ 64 else c.ofs))
        × (p'.code ≡ p.code)
  unfolding visit add_label
  visit_lem NodeType.node_opcode n n' c c' p p' e = (cc, cc, cc)
  visit_lem NodeType.node_lang_def n n' c c' p p' e = (cc, cc, cc)
  visit_lem NodeType.node_lang_plug n n' c c' p p' e = (cc, cc, cc)
  visit_lem NodeType.node_label n n' c c' p p' e =
      let (p1, added, e') = >>=-eq-ok (add_label p c.ofs n.name) e in
      let (t, entered, e'') = >>=-eq-ok (enter_label p.labels c.ofs n.name) added in (cc, cc, cc)
  visit_lem NodeType.node_data n n' c c' p p' e =
      let (s, there, e') = >>=-eq-ok (expect Trap.null_pointer n.arg) e in (cc, cc, cc)

  pub place_lem :
      (ns ns' : List Node) (c c' : Counts) (p p' : Program)
      → place atoi atof ns c p ≡ ok (ns', c', p')
      → (ns' ≡ placed c.ofs ns) × (p'.code ≡ p.code)
  unfolding place placed
  place_lem [] ns' c c' p p' e = (cc, cc)
  place_lem (n ∷ ns) ns' c c' p p' e =
      let ((n1, c1, p1), visited, e1) = >>=-eq-ok (visit atoi atof n.type n c p) e in
      let ((ns2, c2, p2), later, e2) = >>=-eq-ok (place atoi atof ns c1 p1) e1 in
      let (one, ofs, code) = visit_lem n.type n n1 c c1 p p1 visited in
      let (others, code') = place_lem ns ns2 c1 c2 p1 p2 later in
      (cc (e2, one, others, ap (λ k. placed k ns) ofs), cc (e2, code', code))

  pub operand_lem :
      (oc : List Node) (ip : ℕ) (n : Node) (p : Program)
      → ((n.arg_type == 6) ≡ true
          → (str_differs n.name load_lib ≡ true) × (str_differs n.name require_file ≡ true))
      → Keeps p (operand atoi atof oc ip n p)
  unfolding operand
  operand_lem oc ip n p plain =
      if-Keeps p (n.arg_type == 0) (λ h. ok-Keeps p _)
        (if-Keeps p (n.arg_type == 1)
          (λ h. >>=-Keeps p (expect Trap.null_pointer n.arg) (λ s. ok-Keeps p _))
          (if-Keeps p (n.arg_type == 2)
            (λ h.
              >>=-Keeps p (expect Trap.null_pointer n.arg)
                (λ s. >>=-Keeps p (first_char s) (λ c. ok-Keeps p _)))
            (if-Keeps p (n.arg_type == 3)
              (λ h. >>=-Keeps p (expect Trap.null_pointer n.arg) (λ s. ok-Keeps p _))
              (if-Keeps p (n.arg_type == 6)
                (λ h. >>=-Keeps p (expect Trap.null_pointer n.arg) (λ s w p' skip e.
                  operand_string_lem n.name s p p' w skip ((plain h).0) ((plain h).1) e))
                (if-Keeps p (n.arg_type == 5)
                  (λ h. >>=-Keeps p (expect Trap.null_pointer n.arg) (λ s. ok-Keeps p _))
                  (if-Keeps p (n.arg_type == 7)
                    (λ h. >>=-Keeps p (expect Trap.null_pointer p.env) (λ env.
                      >>=-Keeps p (expect Trap.null_pointer n.arg)
                        (λ s. >>=-Keeps p (TextSeg.text_to_index env s) (λ i. ok-Keeps p _))))
                    (ok-Keeps p _)))))))
