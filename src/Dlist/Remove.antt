-- ===== src/Dlist/Remove.antt =====
-- Removing nodes from a list of include/list.h.
use tinyaml.Prelude.{
  ℕ, ◌≡◌, refl, none, some, List, [], ◌∷◌, ◌++◌, ap, sym, ◌∙◌, append-nil, append_assoc, subst,
  true, false,
}
use tinyaml.Prelude.{ok}
use tinyaml.Dlist.{
  Store, Dlist, set_next, set_prev, same_node, remove_head_no_free, remove_tail_no_free,
  remove_no_free,
}
use tinyaml.Dlist.Links.{
  AreDistinct, Kept, Holds, set_next_other, set_prev_other, set_next_value, set_prev_value,
  AreLinked-set_next, AreLinked-set_prev, AreLinked-append, append-AreLinked, relink_prev,
  relink_next,
}
use tinyaml.Dlist.Ends.{
  end_of, last-some, last_behind, first_before, first-append, split_last, append-IsFresh,
  AreDistinct-remove, IsFresh-end_of, same_node_ne, same_node_self,
}

-- Removing the first node leaves the others, and changes no node outside the list.
pub remove_head_no_free-Holds :
    {h : Store} {l : Dlist} (x : ℕ) (xs : List ℕ)
    → Holds h l (x ∷ xs)
    → (h' : Store) × (l' : Dlist) × (remove_head_no_free h l ≡ ok (h', l'))
      × Holds h' l' xs
      × Kept h (x ∷ xs) h'
unfolding remove_head_no_free
remove_head_no_free-Holds {h} {l} x [] v = (
  h,
  record { head = none; tail = none },
  rw (v.tail, v.head, same_node_self (some x)),
  record { linked = _; distinct = _; head = refl; tail = refl },
  record { same = λ m f. refl; values = λ m. refl },
)
remove_head_no_free-Holds {h} {l} x (y ∷ ys) v = (
  set_prev h y none,
  record l { head = some y },
  rw (
    v.tail,
    v.head,
    last-some y ys,
    same_node_ne (end_of y ys) x (λ e. IsFresh-end_of x y ys v.distinct.0 (sym e)),
    v.linked.1,
  ),
  record {
    linked = relink_prev h (some x) none y ys none v.distinct.1.0 v.linked.2;
    distinct = v.distinct.1;
    head = refl;
    tail = v.tail;
  },
  record { same = λ m f. set_prev_other h y m none f.1.0; values = set_prev_value h y none },
)

remove_last :
    {h : Store} {l : Dlist} (ws : List ℕ) (z x : ℕ)
    → Holds h l ((ws ++ (z ∷ [])) ++ (x ∷ []))
    → same_node (some x) l.head ≡ false
    → (h' : Store) × (l' : Dlist) × (remove_tail_no_free h l ≡ ok (h', l'))
      × Holds h' l' (ws ++ (z ∷ []))
      × Kept h ((ws ++ (z ∷ [])) ++ (x ∷ [])) h'
unfolding remove_tail_no_free
remove_last {h} {l} ws z x v differs =
    let xs = ws ++ (z ∷ []) in
    let (front, back) = append-AreLinked h none xs (x ∷ []) none v.linked in
    let (_, _, rest) = AreDistinct-remove x xs [] v.distinct in
    let d : AreDistinct xs = subst AreDistinct (append-nil xs) rest in
    let (a, begins) = first_before ws z [] in
    (
      set_next h z none,
      record l { tail = some z },
      rw (v.tail ∙ last_behind none xs x [], differs, back.0, last_behind none ws z []),
      record {
        linked = relink_next h none ws z (some x) none (AreDistinct-remove z ws [] d).0 front;
        distinct = d;
        head = v.head ∙ first-append xs (x ∷ []) none ∙ begins (some x) ∙ sym (begins none);
        tail = sym (last_behind none ws z []);
      },
      record {
        same = λ m f.
            let (g, _) = append-IsFresh m xs (x ∷ []) f in
            let (_, e) = append-IsFresh m ws (z ∷ []) g in set_next_other h z m none e.0;
        values = set_next_value h z none;
      },
    )

remove_between :
    {h : Store} {l : Dlist} (ws : List ℕ) (z n y : ℕ) (ys : List ℕ)
    → Holds h l ((ws ++ (z ∷ [])) ++ (n ∷ y ∷ ys))
    → same_node (some n) l.head ≡ false
    → (h' : Store) × (l' : Dlist) × (remove_no_free h l n ≡ ok (h', l'))
      × Holds h' l' ((ws ++ (z ∷ [])) ++ (y ∷ ys))
      × Kept h ((ws ++ (z ∷ [])) ++ (n ∷ y ∷ ys)) h'
unfolding remove_no_free
remove_between {h} {l} ws z n y ys v differs =
    let xs = ws ++ (z ∷ []) in
    let (front, back) = append-AreLinked h none xs (n ∷ y ∷ ys) none v.linked in
    let (n_xs, n_ys, d) = AreDistinct-remove n xs (y ∷ ys) v.distinct in
    let (y_xs, y_ys, _) = AreDistinct-remove y xs ys d in
    let (z_ws, z_ys, _) =
      AreDistinct-remove z ws (y ∷ ys) (subst AreDistinct (append_assoc ws (z ∷ []) (y ∷ ys)) d) in
    let (a, begins) = first_before ws z [] in
    let end = last_behind none ws z [] in
    let prev : (h n).prev ≡ some z = back.0 ∙ end in
    let h1 = set_prev h y (some z) in
    let same : h1 n ≡ h n = set_prev_other h y n (some z) n_ys.0 in
    let h2 = set_next h1 z (some y) in
    (
      h2,
      l,
      rw (
        differs,
        v.tail,
        last_behind none xs n (y ∷ ys),
        last-some y ys,
        same_node_ne n (end_of y ys) (IsFresh-end_of n y ys n_ys),
        back.1,
        prev,
        same,
        prev,
        back.1,
      ),
      record {
        linked =
            AreLinked-append h2 none xs (y ∷ ys) none
              (relink_next h1 none ws z (some n) (some y) z_ws
                (AreLinked-set_prev h y (some z) none xs (some n) y_xs front))
              (rw end (
                AreLinked-set_next h1 z (some y) (some z) (y ∷ ys) none z_ys
                  (relink_prev h (some n) (some z) y ys none y_ys back.2)));
        distinct = d;
        head =
            v.head
            ∙ first-append xs (n ∷ y ∷ ys) none
            ∙ begins (some n)
            ∙ sym (begins (some y))
            ∙ sym (first-append xs (y ∷ ys) none);
        tail = v.tail ∙ last_behind none xs n (y ∷ ys) ∙ sym (last_behind none xs y ys);
      },
      record {
        same = λ m f.
            let (g, k) = append-IsFresh m xs (n ∷ y ∷ ys) f in
            let (_, e) = append-IsFresh m ws (z ∷ []) g in
            set_next_other h1 z m (some y) e.0 ∙ set_prev_other h y m (some z) k.1.0;
        values = λ m. set_next_value h1 z (some y) m ∙ set_prev_value h y (some z) m;
      },
    )

-- Removing a node of a list leaves the others in order, and changes no node outside the list.
pub remove_no_free-Holds :
    {h : Store} {l : Dlist} (n : ℕ) (xs ys : List ℕ)
    → Holds h l (xs ++ (n ∷ ys))
    → (h' : Store) × (l' : Dlist) × (remove_no_free h l n ≡ ok (h', l'))
      × Holds h' l' (xs ++ ys)
      × Kept h (xs ++ (n ∷ ys)) h'
unfolding remove_no_free
remove_no_free-Holds {h} {l} n [] ys v =
    let (h', l', done, held, kept) = remove_head_no_free-Holds n ys v in
    let first_one : same_node (some n) l.head ≡ true =
      ap (same_node (some n)) v.head ∙ same_node_self (some n) in
    (h', l', rw first_one done, held, kept)
remove_no_free-Holds {h} {l} n (w ∷ ws) [] v =
    let (us, z, e) = split_last w ws in
    let (n_xs, _, _) = AreDistinct-remove n (w ∷ ws) [] v.distinct in
    let differs : same_node (some n) l.head ≡ false = rw v.head (same_node_ne n w n_xs.0) in
    let (h', l', done, held, kept) =
      remove_last us z n (subst (λ xs. Holds h l (xs ++ (n ∷ []))) e v) differs in
    let last_one : same_node (some n) l.tail ≡ true =
      ap (same_node (some n)) (v.tail ∙ last_behind none (w ∷ ws) n []) ∙ same_node_self (some n) in
    (
      h',
      l',
      rw (differs, last_one) done,
      subst (λ xs. Holds h' l' xs) (sym e ∙ sym (append-nil (w ∷ ws))) held,
      subst (λ xs. Kept h (xs ++ (n ∷ [])) h') (sym e) kept,
    )
remove_no_free-Holds {h} {l} n (w ∷ ws) (y ∷ ys) v =
    let (us, z, e) = split_last w ws in
    let (n_xs, _, _) = AreDistinct-remove n (w ∷ ws) (y ∷ ys) v.distinct in
    let differs : same_node (some n) l.head ≡ false = rw v.head (same_node_ne n w n_xs.0) in
    let (h', l', done, held, kept) =
      remove_between us z n y ys (subst (λ xs. Holds h l (xs ++ (n ∷ y ∷ ys))) e v) differs in
    (
      h',
      l',
      done,
      subst (λ xs. Holds h' l' (xs ++ (y ∷ ys))) (sym e) held,
      subst (λ xs. Kept h (xs ++ (n ∷ y ∷ ys)) h') (sym e) kept,
    )
