-- ===== src/OpcodeChain/Operands.antt =====
-- Operands that are labels in src/compiler/opcode_chain.c: they lead from the instruction to the label.
use tinyaml.Prelude.{
  ℕ, ◌+◌, ◌*◌, ◌^◌, ◌%◌, ◌≤◌, ◌≡◌, false, some, List, ◌∷◌, ◌++◌, ◌==◌, if◌then◌else◌, length, ap,
  sym, ◌∙◌, subst,
}
use tinyaml.Prelude.{ok, >>=-eq-ok}
use tinyaml.Dynarray
use tinyaml.Dynarray.{alert_size}
use tinyaml.Hashtab.Keys.{CString}
use tinyaml.OpcodeDict.{OpcodeDict}
use tinyaml.Program.{Program, CodeWord, number, get_code_size, reserve_code, reserve_data, fetch}
use tinyaml.Program.Code.{HasCode, reserve-HasWords}
use tinyaml.OpcodeChain.{Node, NodeType, is_label, count, label_offset}
use tinyaml.OpcodeChain.Write.{Counts, is_relative, place, emit, chain_serialize, word_diff}
use tinyaml.OpcodeChain.Passes.{step_ofs, advance, advance_lem, placed, AllWrite, place_lem}
use tinyaml.OpcodeChain.Resolve.{
  same_code, placed-append, count-placed, advance-placed, placed-AllWrite,
}
use tinyaml.OpcodeChain.Emitted.{
  NoLabel, label_offset-placed, leads, room_left, grown, emit_operand,
}

module _ (atoi atof : CString → ℕ) where
  -- The second pass over the nodes that the first one left.
  emit-placed :
      (od : OpcodeDict) (oc before after before_label after_label : List Node) (n m : Node)
      (label : CString) (p p' : Program) (ws : List CodeWord)
      → HasCode p ws
      → AllWrite oc
      → oc ≡ before ++ (n ∷ after)
      → n.type ≡ NodeType.node_opcode
      → n.arg_type ≡ 5
      → n.arg ≡ some label
      → is_relative label ≡ false
      → oc ≡ before_label ++ (m ∷ after_label)
      → m.type ≡ NodeType.node_label
      → m.name ≡ label
      → NoLabel label before_label
      → emit atoi atof od (placed (length ws) oc) (placed (length ws) oc) (length ws) p ≡ ok p'
      → (op : ℕ) × (ws' : List CodeWord) × HasCode p' (ws ++ ws')
        × (length ws' ≡ 2 * count oc)
        × (fetch p' (length ws + 2 * count before)
            ≡ ok (
              number op,
              number (word_diff (advance (length ws) before_label) (advance (length ws) before)),
            ))
        × (length ws + 2 * count before + 2 ≤ alert_size)
  unfolding placed
  emit-placed od oc before after before_label after_label n m label p p' ws v plain here opcode type
        arg absolute there is_lbl name none_before e =
      let start = length ws in
      let pb = placed start before in
      let pa = placed (step_ofs (advance start before) n) after in
      let kept : (if is_label n.type then record n { lofs = advance start before } else n) ≡ n =
        ap (λ t. if is_label t then record n { lofs = advance start before } else n) opcode in
      let parts : placed start oc ≡ pb ++ (n ∷ pa) =
        ap (placed start) here
        ∙ placed-append start before (n ∷ after)
        ∙ ap (λ t. pb ++ (t ∷ pa)) kept in
      let found : label_offset (placed start oc) label ≡ advance start before_label =
        ap (λ l. label_offset (placed start l) label) there
        ∙ label_offset-placed start before_label after_label m label none_before
            (ap is_label is_lbl) name in
      let (op, ws', held, size, fetched, small) =
        emit_operand atoi atof od (placed start oc) pb pa n label start p p' ws v
          (subst AllWrite parts (placed-AllWrite start oc plain)) opcode type arg absolute
          (subst (λ l. emit atoi atof od (placed start oc) l start p ≡ ok p') parts e) in
      let same : count pb ≡ count before = count-placed start before in
      (
        op,
        ws',
        held,
        size ∙ ap (λ l. 2 * count l) (sym parts) ∙ ap (λ k. 2 * k) (count-placed start oc),
        ap (λ k. fetch p' (start + 2 * k)) (sym same)
            ∙ fetched
            ∙ ap (λ k. ok (number op, number (word_diff k (advance start pb)))) found
            ∙ ap (λ k. ok (number op, number (word_diff (advance start before_label) k)))
                (advance-placed start start before),
        subst (λ k. start + 2 * k + 2 ≤ alert_size) same small,
      )

  -- A chain that is written leaves two words more of code for each of its instructions, if none is
  -- `__LL__` or `__RQ__`. An instruction whose operand is a label of the chain, with no sign before it,
  -- stands behind the code that was there and the instructions before it; its operand, added to its own
  -- offset modulo 2 ^ 64, leads behind the code that was there and the instructions before the first
  -- such label.
  pub chain_serialize-label :
      (oc oc' before after before_label after_label : List Node) (n m : Node) (label : CString)
      (od : OpcodeDict) (p p' : Program) (ws : List CodeWord)
      → HasCode p ws
      → AllWrite oc
      → oc ≡ before ++ (n ∷ after)
      → n.type ≡ NodeType.node_opcode
      → n.arg_type ≡ 5
      → n.arg ≡ some label
      → is_relative label ≡ false
      → oc ≡ before_label ++ (m ∷ after_label)
      → m.type ≡ NodeType.node_label
      → m.name ≡ label
      → NoLabel label before_label
      → chain_serialize atoi atof oc od p ≡ ok (oc', p')
      → (op : ℕ) × (x : ℕ) × (get_code_size p' ≡ get_code_size p + 2 * count oc)
        × (fetch p' (get_code_size p + 2 * count before) ≡ ok (number op, number x))
        × ((get_code_size p + 2 * count before + x) % 2 ^ 64
            ≡ (get_code_size p + 2 * count before_label) % 2 ^ 64)
  unfolding chain_serialize get_code_size reserve_code reserve_data Dynarray.dynarray_size
  chain_serialize-label oc oc' before after before_label after_label n m label od p p' ws v plain
        here opcode type arg absolute there is_lbl name none_before e =
      let start = get_code_size p in
      let none_yet : Counts = record { ofs = start; code_sz = 0; data_sz = 0 } in
      let ((oc1, c1, p1), first, e1) = >>=-eq-ok (place atoi atof oc none_yet p) e in
      let (marked, code) = place_lem atoi atof oc oc1 none_yet c1 p p1 first in
      let room =
        reserve_data (reserve_code p1 c1.code_sz)
          (if c1.data_sz == 0 then 0 else (2 + c1.data_sz) % 2 ^ 64) in
      let (p2, second, e2) = >>=-eq-ok (emit atoi atof od oc1 oc1 start room) e1 in
      let held : HasCode room ws = reserve-HasWords _ _ (same_code p p1 code v) in
      let at : start ≡ length ws = v.count in
      let pass : emit atoi atof od (placed (length ws) oc) (placed (length ws) oc) (length ws) room
          ≡ ok p2 =
        subst (λ k. emit atoi atof od (placed k oc) (placed k oc) k room ≡ ok p2) at
          (subst (λ l. emit atoi atof od l l start room ≡ ok p2) marked second) in
      let (op, ws', done, size, fetched, small) =
        emit-placed od oc before after before_label after_label n m label room p2 ws held plain here
          opcode type arg absolute there is_lbl name none_before pass in
      let last : p2 ≡ p' = cc (e2) in
      (
        op,
        word_diff ((length ws + 2 * count before_label) % 2 ^ 64)
            ((length ws + 2 * count before) % 2 ^ 64),
        grown p' ws ws' (count oc) start at (subst (λ q. HasCode q (ws ++ ws')) last done) size,
        ap (λ k. fetch p' (k + 2 * count before)) at
            ∙ ap (λ q. fetch q (length ws + 2 * count before)) (sym last)
            ∙ fetched
            ∙ ap (λ k. ok (number op, number (word_diff k (advance (length ws) before))))
                (advance_lem (length ws) before_label (room_left (length ws) (count before) small))
            ∙ ap
                (λ k.
                  ok (
                    number op,
                    number (word_diff ((length ws + 2 * count before_label) % 2 ^ 64) k),
                  ))
                (advance_lem (length ws) before (room_left (length ws) (count before) small)),
        subst
            (λ b.
              (b
                  + 2 * count before
                  + word_diff ((length ws + 2 * count before_label) % 2 ^ 64)
                      ((length ws + 2 * count before) % 2 ^ 64))
                % 2 ^ 64
              ≡ (b + 2 * count before_label) % 2 ^ 64)
            (sym at) (leads (length ws) (count before) (count before_label)),
      )
