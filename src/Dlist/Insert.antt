-- ===== src/Dlist/Insert.antt =====
-- Inserting at either end of a list of include/list.h.
use tinyaml.Prelude.{
  ℕ, ◌≡◌, ◌≢◌, refl, Option, none, some, List, [], ◌∷◌, ◌++◌, ap, sym, ◌∙◌, append-nil, subst,
}
use tinyaml.Prelude.{ok}
use tinyaml.Dlist.{Store, Dlist, set_next, set_prev, insert_head_node, insert_tail_node}
use tinyaml.Dlist.Links.{
  IsFresh, AreLinked, Kept, Holds, set_next_other, set_prev_other, set_next_self, set_prev_self,
  set_next_value, set_prev_value, AreLinked-set_next, AreLinked-set_prev, AreLinked-append,
  relink_prev, relink_next,
}
use tinyaml.Dlist.Ends.{
  last-some, last_behind, first_before, first-append, AreDistinct-remove, split_last,
  IsFresh-append, append-IsFresh, AreDistinct-insert,
}

-- A new node that was given both links.
unfoldable pub placed : Store → ℕ → Option ℕ → Option ℕ → Store
placed h n p q = set_prev (set_next h n q) n p

module _ (h : Store) (n : ℕ) (p q : Option ℕ) where
  pub placed_prev : (placed h n p q n).prev ≡ p
  unfolding placed
  placed_prev = ap (λ z. z.prev) (set_prev_self (set_next h n q) n p)

  pub placed_next : (placed h n p q n).next ≡ q
  unfolding placed
  placed_next =
      ap (λ z. z.next) (set_prev_self (set_next h n q) n p) ∙ ap (λ z. z.next) (set_next_self h n q)

  pub placed_other : (m : ℕ) → m ≢ n → placed h n p q m ≡ h m
  unfolding placed
  placed_other m e = set_prev_other (set_next h n q) n m p e ∙ set_next_other h n m q e

  pub placed_value : (m : ℕ) → (placed h n p q m).value ≡ (h m).value
  unfolding placed
  placed_value m = set_prev_value (set_next h n q) n p m ∙ set_next_value h n q m

  pub AreLinked-placed :
      (r : Option ℕ) (xs : List ℕ) (s : Option ℕ)
      → IsFresh n xs
      → AreLinked h r xs s
      → AreLinked (placed h n p q) r xs s
  unfolding placed
  AreLinked-placed r xs s f k =
      AreLinked-set_prev (set_next h n q) n p r xs s f (AreLinked-set_next h n q r xs s f k)

-- A list with one node.
pub single-Holds :
    (h : Store) (n : ℕ)
    → Holds (placed h n none none) (record { head = some n; tail = some n }) (n ∷ [])
single-Holds h n = record {
  linked = (placed_prev h n none none, placed_next h n none none, _);
  distinct = (_, _);
  head = refl;
  tail = refl;
}

pub placed-Kept :
    (h : Store) (n : ℕ) (p q : Option ℕ) (xs : List ℕ) → Kept h (n ∷ xs) (placed h n p q)
placed-Kept h n p q xs = record {
  same = λ m f. placed_other h n p q m (f.0);
  values = placed_value h n p q;
}

-- Inserting a node that the list does not have puts it in front, and changes no node but that and
-- those of the list.
pub insert_head_node-Holds :
    {h : Store} {l : Dlist} (n : ℕ) (xs : List ℕ)
    → Holds h l xs
    → IsFresh n xs
    → (h' : Store) × (l' : Dlist) × (insert_head_node h l n ≡ ok (h', l'))
      × Holds h' l' (n ∷ xs)
      × Kept h (n ∷ xs) h'
unfolding insert_head_node placed
insert_head_node-Holds {h} {l} n [] v f = (
  placed h n none none,
  record { head = some n; tail = some n },
  rw (v.tail, v.head),
  single-Holds h n,
  placed-Kept h n none none [],
)
insert_head_node-Holds {h} {l} n (x ∷ xs) v f =
    let h1 = placed h n none (some x) in
    let h2 = set_prev h1 x (some n) in
    let e : h2 n ≡ h1 n = set_prev_other h1 x n (some n) f.0 in
    (
      h2,
      record l { head = some n },
      rw (v.tail, last-some x xs, v.head),
      record {
        linked = (
          ap (λ z. z.prev) e ∙ placed_prev h n none (some x),
          ap (λ z. z.next) e ∙ placed_next h n none (some x),
          relink_prev h1 none (some n) x xs none v.distinct.0
              (AreLinked-placed h n none (some x) none (x ∷ xs) none f v.linked),
        );
        distinct = (f, v.distinct);
        head = refl;
        tail = v.tail;
      },
      record {
        same =
            λ m g. set_prev_other h1 x m (some n) (g.1.0) ∙ placed_other h n none (some x) m (g.0);
        values = λ m. set_prev_value h1 x (some n) m ∙ placed_value h n none (some x) m;
      },
    )

insert_behind_last :
    {h : Store} {l : Dlist} (n : ℕ) (ws : List ℕ) (z : ℕ)
    → Holds h l (ws ++ (z ∷ []))
    → IsFresh n (ws ++ (z ∷ []))
    → (h' : Store) × (l' : Dlist) × (insert_tail_node h l n ≡ ok (h', l'))
      × Holds h' l' ((ws ++ (z ∷ [])) ++ (n ∷ []))
      × Kept h (n ∷ (ws ++ (z ∷ []))) h'
unfolding insert_tail_node placed
insert_behind_last {h} {l} n ws z v f =
    let h1 = placed h n (some z) none in
    let h2 = set_next h1 z (some n) in
    let (a, front) = first_before ws z [] in
    let (fw, fz) = append-IsFresh n ws (z ∷ []) f in
    let e : h2 n ≡ h1 n = set_next_other h1 z n (some n) fz.0 in
    let end = last_behind none ws z [] in
    (
      h2,
      record l { tail = some n },
      rw (v.head, front none, v.tail, end),
      record {
        linked =
            AreLinked-append h2 none (ws ++ (z ∷ [])) (n ∷ []) none
              (relink_next h1 none ws z none (some n) (AreDistinct-remove z ws [] v.distinct).0
                (AreLinked-placed h n (some z) none none (ws ++ (z ∷ [])) none f v.linked))
              (
                ap (λ y. y.prev) e ∙ placed_prev h n (some z) none ∙ sym end,
                ap (λ y. y.next) e ∙ placed_next h n (some z) none,
                _,
              );
        distinct =
            AreDistinct-insert n (ws ++ (z ∷ [])) [] (IsFresh-append n (ws ++ (z ∷ [])) [] f _)
              (rw (append-nil (ws ++ (z ∷ []))) v.distinct);
        head =
            v.head
            ∙ front none
            ∙ sym (front (some n))
            ∙ sym (first-append (ws ++ (z ∷ [])) (n ∷ []) none);
        tail = sym (last_behind none (ws ++ (z ∷ [])) n []);
      },
      record {
        same = λ m g.
            let (_, gz) = append-IsFresh m ws (z ∷ []) g.1 in
            set_next_other h1 z m (some n) gz.0 ∙ placed_other h n (some z) none m (g.0);
        values = λ m. set_next_value h1 z (some n) m ∙ placed_value h n (some z) none m;
      },
    )

-- Inserting a node that the list does not have puts it behind the others, and changes no node but
-- that and those of the list.
pub insert_tail_node-Holds :
    {h : Store} {l : Dlist} (n : ℕ) (xs : List ℕ)
    → Holds h l xs
    → IsFresh n xs
    → (h' : Store) × (l' : Dlist) × (insert_tail_node h l n ≡ ok (h', l'))
      × Holds h' l' (xs ++ (n ∷ []))
      × Kept h (n ∷ xs) h'
unfolding insert_tail_node placed
insert_tail_node-Holds {h} {l} n [] v f = (
  placed h n none none,
  record { head = some n; tail = some n },
  rw (v.tail, v.head),
  single-Holds h n,
  placed-Kept h n none none [],
)
insert_tail_node-Holds {h} {l} n (x ∷ xs) v f =
    let (ws, z, e) = split_last x xs in
    let (h', l', done, held, kept) =
      insert_behind_last n ws z (subst (Holds h l) e v) (subst (IsFresh n) e f) in
    (
      h',
      l',
      done,
      subst (λ ys. Holds h' l' (ys ++ (n ∷ []))) (sym e) held,
      subst (λ ys. Kept h (n ∷ ys) h') (sym e) kept,
    )
