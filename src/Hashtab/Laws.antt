-- ===== src/Hashtab/Laws.antt =====
-- What include/hashtab.h promises: a table is, for each key, the stack of the values added under it.
-- Adding pushes, deleting pops, and finding reads the top.
use native.Mathlib.Decide.{ℕ_discrete}
use mathlib.Core.List.{tail, head?}
use mathlib.Core.Option
use tinyaml.Prelude.{
  ◌≡◌, refl, arith, true, Option, none, some, List, [], ◌∷◌, if◌then◌else◌, length, get_or, set, ap,
  ◌∙◌, Bool-cases, inl, inr, length-set, get_elem?-eq-get_or, get_or-set_self, get_or-set_ne,
}
use tinyaml.Prelude.{ok}
use tinyaml.Hashtab.{KeyOps, Lawful, Chain, Table, hash_size, row, add, scan, find, unlink, del}

module _ {ℓ κ} {K : Type ℓ} {E : Type κ} (o : KeyOps K) where
  -- The values under a key in a chain and in a table, the latest first.
  unfoldable pub matching : Chain K E → K → List E
  matching [] k = []
  matching ((j, e) ∷ c) k = if o.differs j k then matching c k else e ∷ matching c k

  unfoldable pub bindings : Table K E → K → List E
  unfolding matching
  bindings t k = matching (get_or t (o.hash k) []) k

module _ {ℓ} {K : Type ℓ} {o : KeyOps K} (l : Lawful o) where
  differs_sym : (j k : K) → o.differs j k ≡ true → o.differs k j ≡ true
  differs_sym j k h = elim (Bool-cases (o.differs k j)) [
    | inl e ↦ e
    | inr e ↦ cc (l.same k j e, l.self j)
  ]

module _ {ℓ κ} {K : Type ℓ} {E : Type κ} {o : KeyOps K} (l : Lawful o) where
  scan-matching :
      (c : Chain K E) (k : K) → Option.map (λ x. x.1) (scan o c k) ≡ head? (matching o c k)
  unfolding scan matching
  scan-matching [] k = refl
  scan-matching ((j, e) ∷ c) k = elim (Bool-cases (o.differs j k)) [
    | inl h ↦ rw h (scan-matching c k)
    | inr h ↦ rw h
  ]

  matching-unlink_self :
      (c : Chain K E) (k : K) → matching o (unlink o c k) k ≡ tail (matching o c k)
  unfolding unlink matching
  matching-unlink_self [] k = refl
  matching-unlink_self ((j, e) ∷ c) k = elim (Bool-cases (o.differs j k)) [
    | inl h ↦ rw (h, h) (matching-unlink_self c k)
    | inr h ↦ rw h
  ]

  matching-unlink_ne :
      (c : Chain K E) (k j : K)
      → o.differs k j ≡ true
      → matching o (unlink o c k) j ≡ matching o c j
  unfolding unlink matching
  matching-unlink_ne [] k j d = refl
  matching-unlink_ne ((i, e) ∷ c) k j d = elim (Bool-cases (o.differs i k)) [
    | inl h ↦ rw h (elim (Bool-cases (o.differs i j)) [
      | inl g ↦ rw (g, matching) (matching-unlink_ne c k j d)
      | inr g ↦ rw (g, matching) (ap (λ r. e ∷ r) (matching-unlink_ne c k j d))
    ])
    | inr h ↦ let g : o.differs i j ≡ true = rw (l.same i k h) d in rw (h, g)
  ]

  row_lem : (t : Table K E) (k : K) → length t ≡ hash_size → row o t k ≡ ok (get_or t (o.hash k) [])
  unfolding row
  row_lem t k h = rw (get_elem?-eq-get_or t (o.hash k) [] (omega (arith, l.row k)))

  bindings-set_self :
      (t : Table K E) (k : K) (c : Chain K E)
      → length t ≡ hash_size
      → bindings o (set t (o.hash k) c) k ≡ matching o c k
  unfolding bindings
  bindings-set_self t k c h = rw (get_or-set_self t (o.hash k) c [] (omega (arith, l.row k)))

  -- A new chain for the row of `k` that says the same of `j` leaves what `j` is bound to.
  bindings-set_other :
      (t : Table K E) (k j : K) (c : Chain K E)
      → length t ≡ hash_size
      → matching o c j ≡ matching o (get_or t (o.hash k) []) j
      → bindings o (set t (o.hash k) c) j ≡ bindings o t j
  unfolding bindings
  bindings-set_other t k j c h e = elim (ℕ_discrete (o.hash k) (o.hash j)) [
    | yes p ↦ rw (← p, get_or-set_self t (o.hash k) c [] (omega (arith, l.row k))) e
    | no p ↦ rw (get_or-set_ne t (o.hash k) (o.hash j) c [] p)
  ]

  -- In a table of 137 rows adding succeeds, keeps the rows, and pushes the value on what its key is
  -- bound to; every other key keeps its bindings.
  pub bindings-add :
      (t : Table K E) (k j : K) (e : E)
      → length t ≡ hash_size
      → (t' : Table K E) × (add o (some k) e t ≡ ok t')
        × (length t' ≡ hash_size)
        × (bindings o t' j ≡ (if o.differs k j then bindings o t j else e ∷ bindings o t j))
  unfolding add matching bindings
  bindings-add t k j e h = (
    set t (o.hash k) ((k, e) ∷ get_or t (o.hash k) []),
    rw (row_lem t k h),
    length-set t (o.hash k) _ ∙ h,
    elim (Bool-cases (o.differs k j)) [
      | inl d ↦ rw d (bindings-set_other t k j _ h (skip d))
      | inr d ↦ rw (d, ← l.same k j d) (bindings-set_self t k _ h ∙ hit)
    ],
  )
    where
      skip :
          o.differs k j ≡ true
          → matching o ((k, e) ∷ get_or t (o.hash k) []) j ≡ matching o (get_or t (o.hash k) []) j
      skip d = rw (d, matching)

      hit : matching o ((k, e) ∷ get_or t (o.hash k) []) k ≡ e ∷ bindings o t k
      hit = rw (l.self k, matching)

  -- In a table of 137 rows finding succeeds and gives the value that was added last under the key,
  -- or the given value where there is none.
  pub find-bindings :
      (noval : E) (t : Table K E) (k : K)
      → length t ≡ hash_size
      → find o noval (some k) t ≡ ok (Option.get_or (head? (bindings o t k)) noval)
  unfolding find bindings
  find-bindings noval t k h = rw (row_lem t k h) (value (get_or t (o.hash k) []))
    where
      taken :
          (s : Option (K × E))
          → ok (elim s [ none ↦ noval | some (_, e) ↦ e ])
            ≡ ok (Option.get_or (Option.map (λ x. x.1) s) noval)
      taken none = refl
      taken (some x) = refl

      value :
          (c : Chain K E)
          → ok (elim (scan o c k) [ none ↦ noval | some (_, e) ↦ e ])
            ≡ ok (Option.get_or (head? (matching o c k)) noval)
      value c = rw (← scan-matching c k) (taken (scan o c k))

  -- In a table of 137 rows deleting succeeds, keeps the rows, and uncovers what the key was bound to
  -- before; every other key keeps its bindings.
  pub bindings-del :
      (t : Table K E) (k j : K)
      → length t ≡ hash_size
      → (t' : Table K E) × (del o k t ≡ ok t')
        × (length t' ≡ hash_size)
        × (bindings o t' j ≡ (if o.differs k j then bindings o t j else tail (bindings o t j)))
  unfolding del bindings
  bindings-del t k j h = (
    set t (o.hash k) (unlink o (get_or t (o.hash k) []) k),
    rw (row_lem t k h),
    length-set t (o.hash k) _ ∙ h,
    elim (Bool-cases (o.differs k j)) [
      | inl d ↦
          rw d (bindings-set_other t k j _ h (matching-unlink_ne (get_or t (o.hash k) []) k j d))
      | inr d ↦
          rw (d, ← l.same k j d)
            (bindings-set_self t k _ h ∙ matching-unlink_self (get_or t (o.hash k) []) k)
    ],
  )
