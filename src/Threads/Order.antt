-- ===== src/Threads/Order.antt =====
-- `comp_prio` of src/vm/vm.c orders threads by their priorities, the greater first.
use tinyaml.Prelude.{
  ℕ, ◌^◌, ◌<◌, ◌≡◌, arith, Bool, true, false, List, [], ◌∷◌, ◌++◌, ltb, sym, ◌∙◌, Bool-cases, inl,
  inr,
}
use tinyaml.Dlist.Sorted.{IsOrder, IsOrdered}
use tinyaml.Threads.{Vm, comp_prio}

-- The priority of the thread that a node stands for.
pub prio_of : Vm → ℕ → ℕ
prio_of v a = (v.threads ((v.nodes a).value)).prio

pub comp_prio_lem :
    (v : Vm)
    → ((t : ℕ) → (v.threads t).prio < 2 ^ 63)
    → (a b : ℕ) → comp_prio v a b ≡ ltb (prio_of v b) (prio_of v a)
unfolding comp_prio prio_of
comp_prio_lem v small a b = ground (arith, small ((v.nodes a).value), small ((v.nodes b).value))

-- With priorities from 0 to 2 ^ 63 - 1 `comp_prio` is a strict order.
pub comp_prio-IsOrder : (v : Vm) → ((t : ℕ) → (v.threads t).prio < 2 ^ 63) → IsOrder (comp_prio v)
comp_prio-IsOrder v small = record {
  carry = λ n x y a b.
      carried (prio_of v n) (prio_of v x) (prio_of v y) (rw (comp_prio_lem v small n x) at a)
        (rw (comp_prio_lem v small y x) at b) (comp_prio_lem v small n y);
  asym = λ n x a.
      turned (prio_of v n) (prio_of v x) (rw (comp_prio_lem v small n x) at a)
        (comp_prio_lem v small x n);
}
  where
    carried : (n x y : ℕ) {c : Bool} → ltb x n ≡ true → ltb x y ≡ false → c ≡ ltb y n → c ≡ true
    carried n x y a b e = ground arith

    turned : (n x : ℕ) {c : Bool} → ltb x n ≡ true → c ≡ ltb n x → c ≡ false
    turned n x a e = ground arith

module _ (before : ℕ → ℕ → Bool) where
  pub IsOrdered-agree :
      (before' : ℕ → ℕ → Bool)
      → ((a b : ℕ) → before' a b ≡ before a b)
      → (xs : List ℕ) → IsOrdered before xs
      → IsOrdered before' xs
  IsOrdered-agree before' e [] s = _
  IsOrdered-agree before' e (x ∷ []) s = _
  IsOrdered-agree before' e (x ∷ y ∷ ys) s = (e y x ∙ s.0, IsOrdered-agree before' e (y ∷ ys) s.1)

  -- Sorted nodes stay sorted without one of them.
  pub IsOrdered-remove :
      IsOrder before
      → (xs : List ℕ) (t : ℕ) (ys : List ℕ) → IsOrdered before (xs ++ (t ∷ ys))
      → IsOrdered before (xs ++ ys)
  IsOrdered-remove o [] t [] s = _
  IsOrdered-remove o [] t (y ∷ ys) s = s.1
  IsOrdered-remove o (x ∷ []) t [] s = _
  IsOrdered-remove o (x ∷ []) t (y ∷ ys) s = (
    elim (Bool-cases (before y x)) [
      | inl e ↦ absurd (let c : true ≡ false = sym (o.carry y x t e s.0) ∙ s.1.0 in cc)
      | inr e ↦ e
    ],
    s.1.1,
  )
  IsOrdered-remove o (x ∷ w ∷ ws) t ys s = (s.0, IsOrdered-remove o (w ∷ ws) t ys s.1)
