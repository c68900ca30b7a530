-- ===== src/OpcodeDict/Enter.antt =====
-- `opcode_dict_add` of src/compiler/opcode_dict.c puts an opcode behind the others of its type.
use mathlib.Core.List.{head?}
use tinyaml.Prelude.{
  ℕ, ◌<◌, ◌≢◌, ◌≡◌, refl, arith, true, false, some, List, [], ◌∷◌, ◌++◌, ◌==◌, not, if◌then◌else◌,
  length, get_elem?, take, ap, sym, ◌∙◌, Bool-cases, inl, inr, length-snoc, ==_iff, take-append,
  take-append_self,
}
use tinyaml.Prelude.{ok}
use tinyaml.Dynarray
use tinyaml.Dynarray.{Dynarray, alert_size}
use tinyaml.Dynarray.Laws.{write_total, read-write}
use tinyaml.Hashtab
use tinyaml.Hashtab.{Table, KeyOps, Lawful, hash_size}
use tinyaml.Hashtab.Keys.{CString, str_ops, ptr_ops, str_differs, str-Lawful, ptr-Lawful}
use tinyaml.Hashtab.Laws.{bindings, bindings-add}
use tinyaml.OpcodeDict.{OpcodeDict, at_type, enter, make_wc, stub_key}
use tinyaml.OpcodeDict.Holds.{Opcode, Holds, IsFreshStub, named, named-snoc, added, added-cases}

add-bindings {ℓ κ} :
    {K : Type ℓ} {E : Type κ} {o : KeyOps K} (law : Lawful o) (t t' : Table K E) (k j : K) (e : E)
    → length t ≡ hash_size
    → Hashtab.add o (some k) e t ≡ ok t'
    → bindings o t' j ≡ (if o.differs k j then bindings o t j else e ∷ bindings o t j)
add-bindings {o} law t t' k j e rows run =
    let (t'', run', _, said) = bindings-add law t k j e rows in
    let same : t' ≡ t'' = cc in ap (λ x. bindings o x j) same ∙ said

module _ {od : OpcodeDict} {l : ℕ → List Opcode} (v : Holds od l) (a : ℕ) (s : CString) (p : ℕ)
    (lt : a < 8) (ne : p ≢ 0) (fresh : IsFreshStub p l) (new : named s (l a) ≡ [])
    (room : length (l a) < alert_size) where
  module _ (d : Dynarray ℕ)
      (wrote : Dynarray.write 0 (od.stub_by_index a) (od.stub_by_index a).size p ≡ ok d) where
    read_after :
        (b i : ℕ)
        → i < alert_size
        → Dynarray.read 0 (at_type od.stub_by_index a d b) i ≡ (
            if a == b
            then (if (od.stub_by_index a).size == i
                then ok p
                else Dynarray.read 0 (od.stub_by_index a) i)
            else Dynarray.read 0 (od.stub_by_index b) i)
    read_after b i small = elim (Bool-cases (a == b)) [
      | inl h ↦ rw h (read-write 0 (od.stub_by_index a).size i p (v.index a lt) wrote small)
      | inr h ↦ rw h
    ]

    stubs_after :
        (b i : ℕ) (t : CString) (q : ℕ)
        → b < 8
        → get_elem? (added l a s p b) i ≡ some (t, q)
        → (Dynarray.read 0 (at_type od.stub_by_index a d b) i ≡ ok q) × (q ≢ 0)
    stubs_after b i t q lt' e = elim (added-cases l a s p b i t q e) [
      | inl (e1, e2, e3, e4) ↦ (
        (let here : (a == b) ≡ true = (==_iff a b).1 e1 in
            let there : ((od.stub_by_index a).size == i) ≡ true =
              (==_iff _ i).1 (v.count a lt ∙ sym e2) in
            read_after b i (omega arith) ∙ rw here (rw there (ap ok e4))),
        (λ z. ne (e4 ∙ z)),
      )
      | inr (e', small) ↦ (
        (let below : i < alert_size = omega (arith, v.small b lt') in
            read_after b i below ∙ elim (Bool-cases (a == b)) [
              | inl h ↦
                  (let same : a ≡ b = (==_iff a b).0 h in
                    let apart : ((od.stub_by_index a).size == i) ≡ false =
                      ground (arith, v.count a lt, ap (λ x. length (l x)) same) in
                    rw h (
                      rw apart (
                        ap (λ x. Dynarray.read 0 (od.stub_by_index x) i) same
                        ∙ (v.stubs b i t q lt' e').0)))
              | inr h ↦ rw h ((v.stubs b i t q lt' e').0)
            ]),
        (v.stubs b i t q lt' e').1,
      )
    ]

  distinct_after :
      (b i : ℕ) (t : CString) (q : ℕ)
      → b < 8
      → get_elem? (added l a s p b) i ≡ some (t, q)
      → named t (take i (added l a s p b)) ≡ []
  distinct_after b i t q lt' e = elim (added-cases l a s p b i t q e) [
    | inl (e1, e2, e3, e4) ↦
        (let here : (a == b) ≡ true = (==_iff a b).1 e1 in
          rw here (
            ap (λ n. named t (take n (l a ++ ((s, p) ∷ [])))) e2
            ∙ ap (named t) (take-append_self (l a) ((s, p) ∷ []))
            ∙ ap (λ x. named x (l a)) (sym e3)
            ∙ new))
    | inr (e', small) ↦ elim (Bool-cases (a == b)) [
      | inl h ↦
          (let same : a ≡ b = (==_iff a b).0 h in
            rw h (
              ap (named t)
                (take-append i (l a) ((s, p) ∷ []) (omega (arith, ap (λ x. length (l x)) same)))
              ∙ ap (λ x. named t (take i (l x))) same
              ∙ v.distinct b i t q lt' e'))
      | inr h ↦ rw h (v.distinct b i t q lt' e')
    ]
  ]

  names_after :
      (t : Table CString ℕ)
      → Hashtab.add str_ops (some s) p (od.stub_by_name a) ≡ ok t
      → (b : ℕ) (r : CString) → b < 8
      → bindings str_ops (at_type od.stub_by_name a t b) r ≡ named r (added l a s p b)
  names_after t e b r lt' = elim (Bool-cases (a == b)) [
    | inl h ↦ rw h (
        add-bindings str-Lawful (od.stub_by_name a) t s r p (v.name_rows a lt) e
        ∙ ap (λ x. if str_differs s r then x else p ∷ x) (v.names a r lt)
        ∙ sym (named-snoc r s p (l a)))
    | inr h ↦ rw h (v.names b r lt')
  ]

  -- What the tables by stub have after an addition under the new stub.
  head_after {κ} :
      {E : Type κ} (t t' : Table ℕ E) (x : E) (f : ℕ → ℕ → CString → E)
      → length t ≡ hash_size
      → Hashtab.add ptr_ops (some p) x t ≡ ok t'
      → x ≡ f a (length (l a)) s
      → ((b i : ℕ) (r : CString) (q : ℕ)
          → b < 8
          → get_elem? (l b) i ≡ some (r, q)
          → head? (bindings ptr_ops t q) ≡ some (f b i r))
      → (b i : ℕ) (r : CString) (q : ℕ) → b < 8
      → get_elem? (added l a s p b) i ≡ some (r, q)
      → head? (bindings ptr_ops t' q) ≡ some (f b i r)
  head_after t t' x f rows e here old b i r q lt' there = elim (added-cases l a s p b i r q there) [
    | inl (e1, e2, e3, e4) ↦
        (let hit : (not (p == q)) ≡ false = ground (arith, e4) in
          ap head? (add-bindings ptr-Lawful t t' p q x rows e)
          ∙ rw hit (
              ap some (
                here
                ∙ ap (λ c. f c (length (l a)) s) e1
                ∙ ap (λ n. f b n s) (sym e2)
                ∙ ap (f b i) e3)))
    | inr (e', small) ↦
        (let miss : (not (p == q)) ≡ true =
            ground (arith, λ (z : p ≡ q). fresh b i r lt' (e' ∙ ap (λ y. some (r, y)) (sym z))) in
          ap head? (add-bindings ptr-Lawful t t' p q x rows e) ∙ rw miss (old b i r q lt' e'))
  ]

  stub_key_lem : stub_key p ≡ some p
  unfolding stub_key
  stub_key_lem = ground (arith, ne)

  -- Entering an opcode with a new name and a new stub puts it behind the others of its type.
  pub enter-Holds : (od' : OpcodeDict) × (enter od a s p ≡ ok od') × Holds od' (added l a s p)
  unfolding enter Dynarray.dynarray_size
  enter-Holds =
      let ofs = (od.stub_by_index a).size in
      let (t, named', rows, _) =
        bindings-add str-Lawful (od.stub_by_name a) s s p (v.name_rows a lt) in
      let (c, coded, code_rows, _) =
        bindings-add ptr-Lawful od.wordcode_by_stub p p (make_wc a ofs) v.code_rows in
      let (k, backed, back_rows, _) =
        bindings-add ptr-Lawful od.name_by_stub p p (some s) v.back_rows in
      let (d, wrote, valid, size) =
        write_total 0 ofs p (v.index a lt) (omega (arith, v.count a lt)) in
      (
        record od {
          stub_by_index = at_type od.stub_by_index a d;
          stub_by_name = at_type od.stub_by_name a t;
          wordcode_by_stub = c;
          name_by_stub = k;
        },
        rw named' (rw stub_key_lem (rw coded (rw backed (rw wrote)))),
        record {
          index = λ b lt'. elim (Bool-cases (a == b)) [
            | inl h ↦ rw h valid
            | inr h ↦ rw h (v.index b lt')
          ];
          count = λ b lt'. elim (Bool-cases (a == b)) [
            | inl h ↦ rw h (omega (arith, size, v.count a lt, length-snoc (l a) (s, p)))
            | inr h ↦ rw h (v.count b lt')
          ];
          small = λ b lt'. elim (Bool-cases (a == b)) [
            | inl h ↦ rw h (omega (arith, length-snoc (l a) (s, p)))
            | inr h ↦ rw h (v.small b lt')
          ];
          stubs = stubs_after d wrote;
          name_rows = λ b lt'. elim (Bool-cases (a == b)) [
            | inl h ↦ rw h rows
            | inr h ↦ rw h (v.name_rows b lt')
          ];
          names = names_after t named';
          distinct = distinct_after;
          code_rows = code_rows;
          codes =
              head_after od.wordcode_by_stub c (make_wc a ofs) (λ b i r. make_wc b i) v.code_rows
                coded (ap (make_wc a) (v.count a lt)) v.codes;
          back_rows = back_rows;
          back =
              head_after od.name_by_stub k (some s) (λ b i r. some r) v.back_rows backed refl
                v.back;
        },
      )
