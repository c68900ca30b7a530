-- ===== src/Dlist/Seek.antt =====
-- The loop of `dlist_insert_sorted` of include/list.h, and the insertion behind it.
use tinyaml.Prelude.{
  ℕ, zero, suc, ◌≤◌, arith, ◌≡◌, refl, Bool, true, false, Option, none, some, List, [], ◌∷◌, ◌++◌,
  ap, sym, ◌∙◌, append_assoc, subst, if◌then◌else◌, length, Bool-cases, inl, inr,
}
use tinyaml.Prelude.{ok}
use tinyaml.Dlist.{Store, Dlist, set_next, set_prev, seek, insert_behind}
use tinyaml.Dlist.Links.{
  IsFresh, AreDistinct, last, AreLinked, Kept, Holds, set_next_other, set_prev_other,
  set_next_value, set_prev_value, set_next_self, set_prev_self, AreLinked-set_next,
  AreLinked-set_prev, AreLinked-append, append-AreLinked, relink_prev, relink_next,
}
use tinyaml.Dlist.Ends.{
  end_of, last_behind, first_before, first-append, append-IsFresh, AreDistinct-remove,
  AreDistinct-insert,
}

module _ (before : ℕ → ℕ → Bool) where
  -- The list with `n` in front of the first node that it goes before, or behind all.
  unfoldable pub place : ℕ → List ℕ → List ℕ
  place n [] = n ∷ []
  place n (x ∷ xs) = if before n x then n ∷ x ∷ xs else x ∷ place n xs

  -- `n` goes before none of the nodes `xs`.
  abbrev pub IsPast : ℕ → List ℕ → Type 0
  IsPast n [] = Unit {0}
  IsPast n (x ∷ xs) = (before n x ≡ false) × IsPast n xs

  -- Where `n` goes before the node `b` and before none of those in front of it.
  pub place-IsPast :
      (n b : ℕ) (xs ys : List ℕ)
      → IsPast n xs
      → before n b ≡ true
      → place n (xs ++ (b ∷ ys)) ≡ xs ++ (n ∷ b ∷ ys)
  unfolding place
  place-IsPast n b [] ys past e = rw e
  place-IsPast n b (x ∷ xs) ys past e =
      rw past.0 (ap (λ t. x ∷ t) (place-IsPast n b xs ys past.1 e))

  pub place_behind : (n : ℕ) (xs : List ℕ) → IsPast n xs → place n xs ≡ xs ++ (n ∷ [])
  unfolding place
  place_behind n [] past = refl
  place_behind n (x ∷ xs) past = rw past.0 (ap (λ t. x ∷ t) (place_behind n xs past.1))

  -- What the loop finds: `n` goes before the node behind the one it stops at, and before none up to
  -- that one.
  pub seek_lem :
      (fuel : ℕ) (h : Store) (p : Option ℕ) (n r : ℕ) (xs : List ℕ) (q : Option ℕ)
      → AreLinked h p (r ∷ xs) q
      → before n r ≡ false
      → before n (end_of r xs) ≡ true
      → length xs ≤ fuel
      → (us : List ℕ) × (z b : ℕ) × (vs : List ℕ) × (seek before fuel h n r ≡ ok z)
        × (r ∷ xs ≡ us ++ (z ∷ b ∷ vs))
        × IsPast n (us ++ (z ∷ []))
        × (before n b ≡ true)
  unfolding seek end_of
  seek_lem fuel h p n r [] q k e end enough = absurd (let c : true ≡ false = sym end ∙ e in cc)
  seek_lem zero h p n r (y ∷ ys) q k e end enough = absurd (omega arith)
  seek_lem (suc fuel) h p n r (y ∷ ys) q k e end enough = elim (Bool-cases (before n y)) [
    | inl t ↦ ([], r, y, ys, rw (k.1, t), refl, (e, _), t)
    | inr f ↦
        let (us, z, b, vs, found, here, past, t) =
          seek_lem fuel h (some r) n y ys q k.2 f end (omega arith) in
        (r ∷ us, z, b, vs, rw (k.1, f) found, ap (λ l. r ∷ l) here, (e, past), t)
  ]

  -- Inserting between two nodes.
  pub insert_between :
      {h : Store} {l : Dlist} (n : ℕ) (us : List ℕ) (z b : ℕ) (vs : List ℕ)
      → Holds h l ((us ++ (z ∷ [])) ++ (b ∷ vs))
      → IsFresh n ((us ++ (z ∷ [])) ++ (b ∷ vs))
      → (h' : Store) × (insert_behind before h l n z ≡ ok (h', l))
        × Holds h' l ((us ++ (z ∷ [])) ++ (n ∷ b ∷ vs))
        × Kept h (n ∷ ((us ++ (z ∷ [])) ++ (b ∷ vs))) h'
  unfolding insert_behind
  insert_between {h} {l} n us z b vs v f =
      let xs = us ++ (z ∷ []) in
      let (front, back) = append-AreLinked h none xs (b ∷ vs) none v.linked in
      let (_, mid) = append-AreLinked h none us (z ∷ []) (some b) front in
      let (b_xs, b_vs, _) = AreDistinct-remove b xs vs v.distinct in
      let (z_us, z_vs, _) =
        AreDistinct-remove z us (b ∷ vs)
          (subst AreDistinct (append_assoc us (z ∷ []) (b ∷ vs)) v.distinct) in
      let (n_xs, n_vs) = append-IsFresh n xs (b ∷ vs) f in
      let (n_us, n_z) = append-IsFresh n us (z ∷ []) n_xs in
      let (a, begins) = first_before us z [] in
      let end = last_behind none us z [] in
      let h1 = set_next h n (some b) in
      let h2 = set_prev h1 b (some n) in
      let h3 = set_next h2 z (some n) in
      let h4 = set_prev h3 n (some z) in
      let same : h1 z ≡ h z = set_next_other h n z (some b) (λ e. n_z.0 (sym e)) in
      let next : (h1 z).next ≡ some b = ap (λ y. y.next) same ∙ mid.1 in
      let onward : (h4 n).next ≡ some b =
        ap (λ y. y.next) (set_prev_self h3 n (some z))
        ∙ ap (λ y. y.next) (set_next_other h2 z n (some n) n_z.0)
        ∙ ap (λ y. y.next) (set_prev_other h1 b n (some n) n_vs.0)
        ∙ ap (λ y. y.next) (set_next_self h n (some b)) in
      (
        h4,
        rw (mid.1, next),
        record {
          linked =
              AreLinked-append h4 none xs (n ∷ b ∷ vs) none
                (AreLinked-set_prev h3 n (some z) none xs (some n) n_xs (
                  relink_next h2 none us z (some b) (some n) z_us (
                    AreLinked-set_prev h1 b (some n) none xs (some b) b_xs
                      (AreLinked-set_next h n (some b) none xs (some b) n_xs front))))
                (
                  ap (λ y. y.prev) (set_prev_self h3 n (some z)) ∙ sym end,
                  onward,
                  AreLinked-set_prev h3 n (some z) (some n) (b ∷ vs) none n_vs (
                      AreLinked-set_next h2 z (some n) (some n) (b ∷ vs) none z_vs (
                        relink_prev h1 (last none xs) (some n) b vs none b_vs (
                          AreLinked-set_next h n (some b) (last none xs) (b ∷ vs) none n_vs back))),
                );
          distinct = AreDistinct-insert n xs (b ∷ vs) f v.distinct;
          head =
              v.head
              ∙ first-append xs (b ∷ vs) none
              ∙ begins (some b)
              ∙ sym (begins (some n))
              ∙ sym (first-append xs (n ∷ b ∷ vs) none);
          tail = v.tail ∙ last_behind none xs b vs ∙ sym (last_behind none xs n (b ∷ vs));
        },
        record {
          same = λ m g.
              let (c, d) = append-IsFresh m xs (b ∷ vs) g.1 in
              let (_, e) = append-IsFresh m us (z ∷ []) c in
              set_prev_other h3 n m (some z) g.0
              ∙ set_next_other h2 z m (some n) e.0
              ∙ set_prev_other h1 b m (some n) d.0
              ∙ set_next_other h n m (some b) g.0;
          values = λ m.
              set_prev_value h3 n (some z) m
              ∙ set_next_value h2 z (some n) m
              ∙ set_prev_value h1 b (some n) m
              ∙ set_next_value h n (some b) m;
        },
      )
