-- ===== src/OpcodeChain/Emitted.antt =====
-- One instruction in the second pass of `opcode_chain_serialize` in src/compiler/opcode_chain.c.
use tinyaml.Prelude.{
  ℕ, suc, ◌+◌, ◌*◌, ◌^◌, ◌%◌, ◌<◌, ◌≤◌, ◌≡◌, refl, arith, Bool, true, false, some, List, [], ◌∷◌,
  ◌++◌, not, ◌&&◌, if◌then◌else◌, length, ap, sym, ◌∙◌, subst, append_assoc, length-append,
}
use tinyaml.Prelude.{ok, >>=-eq-ok}
use tinyaml.Dynarray
use tinyaml.Dynarray.{alert_size}
use tinyaml.Hashtab.Keys.{CString, str_differs, str_differs_self}
use tinyaml.OpcodeDict.{OpcodeDict}
use tinyaml.Program.{Program, CodeWord, number, get_code_size, fetch}
use tinyaml.Program.Code.{HasCode, fetch-HasCode}
use tinyaml.OpcodeChain.{Node, NodeType, is_opcode, is_label, count, label_offset}
use tinyaml.OpcodeChain.Write.{is_relative, operand, opcode_serialize, emit_node, emit, word_diff}
use tinyaml.OpcodeChain.Passes.{step_ofs, advance, placed, AllWrite}
use tinyaml.OpcodeChain.Resolve.{same_code, opcode_serialize_lem, emit_lem, emit-append}

-- No node is the label.
abbrev pub NoLabel : CString → List Node → Type 0
NoLabel label [] = Unit {0}
NoLabel label (n ∷ ns) =
    ((is_label n.type && not (str_differs n.name label)) ≡ false) × NoLabel label ns

-- The offset of the first node that is the label.
pub label_offset-placed :
    (ofs : ℕ) (before after : List Node) (n : Node) (label : CString)
    → NoLabel label before
    → is_label n.type ≡ true
    → n.name ≡ label
    → label_offset (placed ofs (before ++ (n ∷ after))) label ≡ advance ofs before
unfolding placed advance label_offset
label_offset-placed ofs [] after n label none_before type name =
    let hit : str_differs n.name label ≡ false =
      ap (λ s. str_differs s label) name ∙ str_differs_self label in
    rw type (rw type (rw hit))
label_offset-placed ofs (x ∷ before) after n label none_before type name =
    first (is_label x.type) refl
    ∙ label_offset-placed (step_ofs ofs x) before after n label none_before.1 type name
  where
    first :
        (b : Bool)
        → is_label x.type ≡ b
        → (let y = if b then record x { lofs = ofs } else x in
            let rest = label_offset (placed (step_ofs ofs x) (before ++ (n ∷ after))) label in
            if is_label y.type && not (str_differs y.name label) then y.lofs else rest)
          ≡ label_offset (placed (step_ofs ofs x) (before ++ (n ∷ after))) label
    first true e = rw none_before.0
    first false e = rw none_before.0

count-append : (xs ys : List Node) → count (xs ++ ys) ≡ count xs + count ys
unfolding count
count-append [] ys = omega arith
count-append (x ∷ xs) ys = omega (arith, count-append xs ys)

AllWrite-append : (xs ys : List Node) → AllWrite (xs ++ ys) → AllWrite xs × AllWrite ys
AllWrite-append [] ys h = (tt, h)
AllWrite-append (x ∷ xs) ys h = let (a, b) = AllWrite-append xs ys h.1 in ((h.0, a), b)

regroup :
    (p : Program) (xs ys zs : List CodeWord)
    → HasCode p ((xs ++ ys) ++ zs)
    → HasCode p (xs ++ (ys ++ zs))
regroup p xs ys zs v = subst (HasCode p) (append_assoc xs ys zs) v

-- Sums of lengths.
total :
    (w1 w2 b a l c o : ℕ)
    → l ≡ w1 + suc (suc w2)
    → w1 ≡ 2 * b
    → w2 ≡ 2 * a
    → c ≡ b + (o + a)
    → o ≡ 1
    → l ≡ 2 * c
total w1 w2 b a l c o e1 e2 e3 e4 e5 = omega arith

pub behind : (l w k c : ℕ) → l ≡ w + k → k ≡ 2 * c → l ≡ w + 2 * c
behind l w k c e1 e2 = omega arith

below : (l k : ℕ) → l + 2 ≤ alert_size → l ≡ k → k + 2 ≤ alert_size
below l k h e = omega arith

-- An operand leads from where it stands to where it was to lead.
pub leads :
    (b k j : ℕ)
    → (b + 2 * k + word_diff ((b + 2 * j) % 2 ^ 64) ((b + 2 * k) % 2 ^ 64)) % 2 ^ 64
      ≡ (b + 2 * j) % 2 ^ 64
unfolding word_diff
leads b k j = omega arith

pub room_left : (b k : ℕ) → b + 2 * k + 2 ≤ alert_size → b < 2 ^ 64
room_left b k h = omega arith

pub grown :
    (p : Program) (ws ws' : List CodeWord) (c start : ℕ)
    → start ≡ length ws
    → HasCode p (ws ++ ws')
    → length ws' ≡ 2 * c
    → get_code_size p ≡ start + 2 * c
unfolding get_code_size Dynarray.dynarray_size
grown p ws ws' c start at v size = omega (arith, v.count, length-append ws ws')

module _ (atoi atof : CString → ℕ) where
  operand_label :
      (oc : List Node) (ip : ℕ) (n : Node) (p : Program) (label : CString)
      → n.arg_type ≡ 5
      → n.arg ≡ some label
      → is_relative label ≡ false
      → operand atoi atof oc ip n p ≡ ok (number (word_diff (label_offset oc label) ip), p, false)
  unfolding operand
  operand_label oc ip n p label type arg absolute = rw type (rw arg (rw absolute))

  -- The instruction `n` in the second pass.
  pub emit_operand :
      (od : OpcodeDict) (oc before after : List Node) (n : Node) (label : CString) (start : ℕ)
      (p p' : Program) (ws : List CodeWord)
      → HasCode p ws
      → AllWrite (before ++ (n ∷ after))
      → n.type ≡ NodeType.node_opcode
      → n.arg_type ≡ 5
      → n.arg ≡ some label
      → is_relative label ≡ false
      → emit atoi atof od oc (before ++ (n ∷ after)) start p ≡ ok p'
      → (op : ℕ) × (ws' : List CodeWord) × HasCode p' (ws ++ ws')
        × (length ws' ≡ 2 * count (before ++ (n ∷ after)))
        × (fetch p' (length ws + 2 * count before)
            ≡ ok (number op, number (word_diff (label_offset oc label) (advance start before))))
        × (length ws + 2 * count before + 2 ≤ alert_size)
  unfolding emit emit_node count
  emit_operand od oc before after n label start p p' ws v plain opcode type arg absolute e =
      let (plain1, plain2) = AllWrite-append before (n ∷ after) plain in
      let (p1, ws1, held, size, rest) =
        emit-append atoi atof od oc before (n ∷ after) start p p' plain1 v e in
      let ofs = advance start before in
      let ((ofs2, p2), one, later) = >>=-eq-ok (emit_node atoi atof od oc n.type n ofs p1) rest in
      let one' : emit_node atoi atof od oc NodeType.node_opcode n ofs p1 ≡ ok (ofs2, p2) =
        subst (λ t. emit_node atoi atof od oc t n ofs p1 ≡ ok (ofs2, p2)) opcode one in
      let (p3, wrote, _) = >>=-eq-ok (opcode_serialize atoi atof od oc ofs n p1) one' in
      let (op, w, p4, held2, operands, small) =
        opcode_serialize_lem atoi atof od oc n ofs p1 p3 (λ h. plain2.0 (ap is_opcode opcode)) held
          wrote in
      let word : w ≡ number (word_diff (label_offset oc label) ofs) =
        cc (operands, operand_label oc ofs n p1 label type arg absolute) in
      let (ws2, held3, size2) =
        emit_lem atoi atof od oc after ofs2 p2 p' plain2.1 (same_code p3 p2 (cc) held2) later in
      let all = ws1 ++ (number op ∷ w ∷ ws2) in
      let whole : HasCode p' ((ws ++ ws1) ++ (number op ∷ w ∷ ws2)) =
        regroup p' (ws ++ ws1) (number op ∷ w ∷ []) ws2 held3 in
      let at : length (ws ++ ws1) ≡ length ws + 2 * count before =
        behind (length (ws ++ ws1)) (length ws) (length ws1) (count before) (length-append ws ws1)
          size in
      let one_more : (if is_opcode n.type then 1 else 0) ≡ 1 =
        ap (λ t. if is_opcode t then 1 else 0) opcode in
      (
        op,
        all,
        regroup p' ws ws1 (number op ∷ w ∷ ws2) whole,
        total (length ws1) (length ws2) (count before) (count after) (length all) _ _
            (length-append ws1 (number op ∷ w ∷ ws2)) size size2 (count-append before (n ∷ after))
            one_more,
        ap (fetch p') (sym at)
            ∙ fetch-HasCode p' (ws ++ ws1) ws2 (number op) w whole small
            ∙ ap (λ y. ok (number op, y)) word,
        below (length (ws ++ ws1)) (length ws + 2 * count before) small at,
      )
