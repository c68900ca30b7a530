-- ===== src/Dlist/Sorted.antt =====
-- `dlist_insert_sorted` of include/list.h: where the node goes, and that its loop ends.
use tinyaml.Prelude.{
  ℕ, ◌≤◌, arith, ◌≡◌, Bool, true, false, none, some, List, [], ◌∷◌, ◌++◌, ap, sym, ◌∙◌,
  append_assoc, subst, length, Bool-cases, inl, inr,
}
use tinyaml.Prelude.{ok}
use tinyaml.Dlist.{
  Store, Dlist, set_next, set_prev, seek, insert_behind, insert_sorted, insert_head_node,
  insert_tail_node,
}
use tinyaml.Dlist.Links.{IsFresh, Kept, Holds}
use tinyaml.Dlist.Ends.{end_of, last-some}
use tinyaml.Dlist.Seek.{place, IsPast, place-IsPast, place_behind, seek_lem, insert_between}
use tinyaml.Dlist.Insert.{
  placed-Kept, insert_head_node-Holds, insert_tail_node-Holds, placed, single-Holds,
}

module _ (before : ℕ → ℕ → Bool) where
  -- `before` is a strict order in which nodes that it does not order are equal.
  pub record IsOrder : Type 0 where
    pub carry : (n x y : ℕ) → before n x ≡ true → before y x ≡ false → before n y ≡ true
    pub asym : (n x : ℕ) → before n x ≡ true → before x n ≡ false

  -- No node goes before the one in front of it.
  abbrev pub IsOrdered : List ℕ → Type 0
  IsOrdered [] = Unit {0}
  IsOrdered (x ∷ []) = Unit {0}
  IsOrdered (x ∷ y ∷ ys) = (before y x ≡ false) × IsOrdered (y ∷ ys)

  module _ (o : IsOrder) where
    -- A node that does not go before the last of sorted nodes goes before none.
    IsOrdered-IsPast :
        (n x : ℕ) (xs : List ℕ)
        → IsOrdered (x ∷ xs)
        → before n (end_of x xs) ≡ false
        → IsPast before n (x ∷ xs)
    unfolding end_of
    IsOrdered-IsPast n x [] s e = (e, _)
    IsOrdered-IsPast n x (y ∷ ys) s e =
        let past = IsOrdered-IsPast n y ys s.1 e in
        (
          elim (Bool-cases (before n x)) [
            | inl t ↦ absurd (let c : true ≡ false = sym (o.carry n x y t s.0) ∙ past.0 in cc)
            | inr f ↦ f
          ],
          past,
        )

    place-IsOrdered : (n : ℕ) (xs : List ℕ) → IsOrdered xs → IsOrdered (place before n xs)
    unfolding place
    place-IsOrdered n [] s = _
    place-IsOrdered n (x ∷ []) s = elim (Bool-cases (before n x)) [
      | inl t ↦ rw t (o.asym n x t, _)
      | inr f ↦ rw f (f, _)
    ]
    place-IsOrdered n (x ∷ y ∷ ys) s = elim (Bool-cases (before n x)) [
      | inl t ↦ rw t (o.asym n x t, s)
      | inr f ↦ rw f (behind f (place-IsOrdered n (y ∷ ys) s.1))
    ]
      where
        behind :
            before n x ≡ false
            → IsOrdered (place before n (y ∷ ys))
            → IsOrdered (x ∷ place before n (y ∷ ys))
        behind f g = elim (Bool-cases (before n y)) [
          | inl t ↦ rw t (f, (rw t at g))
          | inr u ↦ rw u (s.0, (rw u at g))
        ]

  -- The outcome of `dlist_insert_sorted`.
  abbrev pub Inserted : ℕ → Store → Dlist → ℕ → List ℕ → Type 0
  Inserted fuel h l n xs =
      (h' : Store) × (l' : Dlist) × (insert_sorted before fuel h l n ≡ ok (h', l'))
      × Holds h' l' (place before n xs)
      × Kept h (n ∷ xs) h'

  -- Which insertion `dlist_insert_sorted` comes to.
  module _ (h : Store) (l : Dlist) (fuel n x z : ℕ) (hd : l.head ≡ some x)
      (tl : l.tail ≡ some z) where
    front_branch : before n x ≡ true → insert_sorted before fuel h l n ≡ insert_head_node h l n
    unfolding insert_sorted insert_head_node
    front_branch t =
        let h' = set_prev (set_prev (set_next h n (some x)) n none) x (some n) in
        rw (hd, tl, t) (ap (λ w. ok (h', record { head = some n; tail = w })) (sym tl))

    end_branch :
        before n x ≡ false
        → before n z ≡ false
        → insert_sorted before fuel h l n ≡ insert_tail_node h l n
    unfolding insert_sorted insert_tail_node
    end_branch u w = rw (hd, tl, u, w)

    middle_branch :
        (r : ℕ)
        → before n x ≡ false
        → before n z ≡ true
        → seek before fuel h n x ≡ ok r
        → insert_sorted before fuel h l n ≡ insert_behind before h l n r
    unfolding insert_sorted
    middle_branch r u t found = rw (hd, tl, u, t, found)

  module _ {h : Store} {l : Dlist} (fuel n x : ℕ) (xs : List ℕ) (v : Holds h l (x ∷ xs)) where
    tail_there : l.tail ≡ some (end_of x xs)
    tail_there = v.tail ∙ last-some x xs

    at_front : IsFresh n (x ∷ xs) → before n x ≡ true → Inserted fuel h l n (x ∷ xs)
    unfolding place
    at_front f t =
        let (h', l', done, held, kept) = insert_head_node-Holds n (x ∷ xs) v f in
        (
          h',
          l',
          front_branch h l fuel n x (end_of x xs) v.head tail_there t ∙ done,
          rw t held,
          kept,
        )

    at_end :
        IsFresh n (x ∷ xs)
        → before n x ≡ false
        → before n (end_of x xs) ≡ false
        → IsPast before n (x ∷ xs)
        → Inserted fuel h l n (x ∷ xs)
    at_end f u w past =
        let (h', l', done, held, kept) = insert_tail_node-Holds n (x ∷ xs) v f in
        (
          h',
          l',
          end_branch h l fuel n x (end_of x xs) v.head tail_there u w ∙ done,
          subst (Holds h' l') (sym (place_behind before n (x ∷ xs) past)) held,
          kept,
        )

    in_between :
        IsFresh n (x ∷ xs)
        → before n x ≡ false
        → before n (end_of x xs) ≡ true
        → length xs ≤ fuel
        → Inserted fuel h l n (x ∷ xs)
    in_between f u t enough =
        let (us, z, b, vs, found, here, past, first_one) =
          seek_lem before fuel h none n x xs none v.linked u t enough in
        let here' : x ∷ xs ≡ (us ++ (z ∷ [])) ++ (b ∷ vs) =
          here ∙ sym (append_assoc us (z ∷ []) (b ∷ vs)) in
        let (h', done, held, kept) =
          insert_between before n us z b vs (subst (Holds h l) here' v)
            (subst (IsFresh n) here' f) in
        (
          h',
          l,
          middle_branch h l fuel n x (end_of x xs) v.head tail_there z u t found ∙ done,
          subst (Holds h' l)
              (sym (place-IsPast before n b (us ++ (z ∷ [])) vs past first_one)
                ∙ ap (place before n) (sym here'))
              held,
          subst (λ ys. Kept h (n ∷ ys) h') (sym here') kept,
        )

    inserted :
        IsOrder
        → IsFresh n (x ∷ xs)
        → IsOrdered (x ∷ xs)
        → length xs ≤ fuel
        → Inserted fuel h l n (x ∷ xs)
    inserted o f s enough = elim (Bool-cases (before n x)) [
      | inl t ↦ at_front f t
      | inr u ↦ elim (Bool-cases (before n (end_of x xs))) [
        | inl t ↦ in_between f u t enough
        | inr w ↦ at_end f u w (IsOrdered-IsPast o n x xs s w)
      ]
    ]

  -- Inserting a node that a sorted list does not have puts it before the first node that it goes
  -- before, or at the end; the list stays sorted, and no node changes but that and those of the list.
  -- The loop needs no more rounds than the list has nodes.
  pub insert_sorted-Holds :
      {h : Store} {l : Dlist} (fuel n : ℕ) (xs : List ℕ)
      → IsOrder
      → Holds h l xs
      → IsFresh n xs
      → IsOrdered xs
      → length xs ≤ fuel
      → Inserted fuel h l n xs × IsOrdered (place before n xs)
  unfolding insert_sorted placed place
  insert_sorted-Holds {h} {l} fuel n [] o v f s enough = (
    (
      placed h n none none,
      record { head = some n; tail = some n },
      rw v.head,
      single-Holds h n,
      placed-Kept h n none none [],
    ),
    _,
  )
  insert_sorted-Holds fuel n (x ∷ xs) o v f s enough =
      (inserted fuel n x xs v o f s (omega arith), place-IsOrdered o n (x ∷ xs) s)
