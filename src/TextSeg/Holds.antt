-- ===== src/TextSeg/Holds.antt =====
-- The tables of src/vm/text_seg.c as lists of strings in the order of their indices.
use Prim.Native.Nat.{max}
use tinyaml.Prelude.{
  ℕ, zero, suc, ◌+◌, ◌<◌, ◌≡◌, refl, arith, Option, none, some, List, [], ◌∷◌, ◌++◌, ◌==◌,
  if◌then◌else◌, length, get_elem?, ap, ◌∙◌, Bool-cases, inl, inr, length-snoc,
}
use tinyaml.Prelude.{ok}
use tinyaml.Dynarray
use tinyaml.Dynarray.{Dynarray, alert_size}
use tinyaml.Dynarray.Inv
use tinyaml.Dynarray.Laws.{write_total, read-write}
use tinyaml.Hashtab
use tinyaml.Hashtab.{Table, hash_size}
use tinyaml.Hashtab.Keys.{CString, str_ops, str_differs, str-Lawful}
use tinyaml.Hashtab.Laws.{bindings, bindings-add}
use tinyaml.TextSeg.{TextSeg, enter}

-- The indices of a string in a list, counted from `n`, the last one first.
unfoldable pub positions : ℕ → CString → List CString → List ℕ
positions n s [] = []
positions n s (x ∷ xs) = positions (n + 1) s xs ++ (if str_differs x s then [] else n ∷ [])

-- The table `ts` holds the strings `xs` in this order.
pub record Holds (ts : TextSeg) (xs : List CString) : Type 0 where
  pub index : Inv.IsValid none ts.by_index
  pub rows : length ts.by_text ≡ hash_size
  pub count : Dynarray.dynarray_size ts.by_index ≡ length xs
  pub texts : (i : ℕ) → i < alert_size → Dynarray.read none ts.by_index i ≡ ok (get_elem? xs i)
  pub bound : (s : CString) → bindings str_ops ts.by_text s ≡ positions 0 s xs

pub positions-snoc :
    (n : ℕ) (s x : CString) (xs : List CString)
    → positions n s (xs ++ (x ∷ []))
      ≡ (if str_differs x s then positions n s xs else (n + length xs) ∷ positions n s xs)
unfolding positions
positions-snoc n s x [] = elim (Bool-cases (str_differs x s)) [
  | inl h ↦ rw h
  | inr h ↦ rw h (ap (λ k. k ∷ []) (omega arith))
]
positions-snoc n s x (y ∷ xs) =
    rw (positions-snoc (n + 1) s x xs) (elim (Bool-cases (str_differs x s)) [
      | inl h ↦ rw h
      | inr h ↦ rw h (
          ap (λ k. k ∷ (positions (n + 1) s xs ++ (if str_differs y s then [] else n ∷ [])))
            (omega arith))
    ])

pub get_elem?-snoc {ℓ} :
    {A : Type ℓ} (xs : List A) (x : A) (j : ℕ)
    → get_elem? (xs ++ (x ∷ [])) j ≡ (if length xs == j then some x else get_elem? xs j)
get_elem?-snoc [] x zero = refl
get_elem?-snoc [] x (suc j) = ground arith
get_elem?-snoc (y ∷ xs) x zero = ground arith
get_elem?-snoc (y ∷ xs) x (suc j) = ground (arith, get_elem?-snoc xs x j)

module _ {ts : TextSeg} {xs : List CString} (v : Holds ts xs) (s : CString) where
  enter_ok :
      (t : Table CString ℕ) (d : Dynarray (Option CString))
      → Hashtab.add str_ops (some s) (Dynarray.dynarray_size ts.by_index) ts.by_text ≡ ok t
      → Dynarray.write none ts.by_index (Dynarray.dynarray_size ts.by_index) (some s) ≡ ok d
      → enter ts s ≡ ok (record { by_index = d; by_text = t })
  unfolding enter
  enter_ok t d added wrote = cc

  entered-Holds :
      (t : Table CString ℕ) (d : Dynarray (Option CString))
      → length xs < alert_size
      → Hashtab.add str_ops (some s) (Dynarray.dynarray_size ts.by_index) ts.by_text ≡ ok t
      → length t ≡ hash_size
      → Dynarray.write none ts.by_index (Dynarray.dynarray_size ts.by_index) (some s) ≡ ok d
      → Inv.IsValid none d
      → Dynarray.dynarray_size d
        ≡ max (Dynarray.dynarray_size ts.by_index) (Dynarray.dynarray_size ts.by_index + 1)
      → Holds (record { by_index = d; by_text = t }) (xs ++ (s ∷ []))
  entered-Holds t d room added rows wrote valid size = record {
    index = valid;
    rows = rows;
    count = omega (arith, v.count, size, length-snoc xs s);
    texts = λ i small.
        read-write none (Dynarray.dynarray_size ts.by_index) i (some s) v.index wrote small
        ∙ behind i (v.texts i small);
    bound = λ k.
        let (t', added', _, bound) =
          bindings-add str-Lawful ts.by_text s k (Dynarray.dynarray_size ts.by_index) v.rows in
        ap (λ z. bindings str_ops z k) (same t' added') ∙ bound ∙ later k;
  }
    where
      same :
          (t' : Table CString ℕ)
          → Hashtab.add str_ops (some s) (Dynarray.dynarray_size ts.by_index) ts.by_text ≡ ok t'
          → t ≡ t'
      same t' e = cc

      behind :
          (i : ℕ)
          → Dynarray.read none ts.by_index i ≡ ok (get_elem? xs i)
          → (if Dynarray.dynarray_size ts.by_index == i
              then ok (some s)
              else Dynarray.read none ts.by_index i)
            ≡ ok (get_elem? (xs ++ (s ∷ [])) i)
      behind i e =
          rw (v.count, get_elem?-snoc xs s i, e)
            (elim (Bool-cases (length xs == i)) [ inl h ↦ rw h | inr h ↦ rw h ])

      later :
          (k : CString)
          → (if str_differs s k
              then bindings str_ops ts.by_text k
              else Dynarray.dynarray_size ts.by_index ∷ bindings str_ops ts.by_text k)
            ≡ positions 0 k (xs ++ (s ∷ []))
      later k =
          rw (positions-snoc 0 k s xs, v.bound k, v.count)
            (ap (λ n. if str_differs s k then positions 0 k xs else n ∷ positions 0 k xs)
              (omega arith))

  -- Entering a string puts it behind the others.
  pub enter-Holds :
      length xs < alert_size → (ts' : TextSeg) × (enter ts s ≡ ok ts') × Holds ts' (xs ++ (s ∷ []))
  enter-Holds room =
      let n = Dynarray.dynarray_size ts.by_index in
      let (t, added, rows, _) = bindings-add str-Lawful ts.by_text s s n v.rows in
      let (d, wrote, valid, size) = write_total none n (some s) v.index (omega (arith, v.count)) in
      (
        record { by_index = d; by_text = t },
        enter_ok t d added wrote,
        entered-Holds t d room added rows wrote valid size,
      )
