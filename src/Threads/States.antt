-- ===== src/Threads/States.antt =====
-- Taking threads out of the lists of the machine, and putting them in.
use native.Mathlib.Decide.{ℕ_discrete}
use tinyaml.Prelude.{
  ℕ, ◌≡◌, ◌≢◌, ◌≤◌, refl, Bool, List, [], ◌∷◌, ◌++◌, length, inl, inr, subst, Bool-cases,
}
use tinyaml.Prelude.{ok}
use tinyaml.Dlist.{Store, Dlist}
use tinyaml.Dlist.Links
use tinyaml.Dlist.Links.{IsFresh, AreDistinct, Kept}
use tinyaml.Dlist.Ends.{IsFresh-append, append-IsFresh, AreDistinct-remove}
use tinyaml.Dlist.Insert.{insert_tail_node-Holds}
use tinyaml.Dlist.Remove.{remove_no_free-Holds}
use tinyaml.Dlist.Seek.{place}
use tinyaml.Dlist.Sorted.{IsOrder, IsOrdered, insert_sorted-Holds}
use tinyaml.Threads.{Vm, Queue, list_of, with_list, comp_prio, remove_from, add_last, add_sorted}
use tinyaml.Threads.Queues.{
  AreApart, AreHeld, put, put_self, put_other, queue_cases, with_list-AreHeld,
}

IsFresh-without :
    (m : ℕ) (xs : List ℕ) (t : ℕ) (ys : List ℕ) → IsFresh m (xs ++ (t ∷ ys)) → IsFresh m (xs ++ ys)
IsFresh-without m xs t ys f =
    let (a, b) = append-IsFresh m xs (t ∷ ys) f in IsFresh-append m xs ys a b.1

pub IsFresh-place :
    (before : ℕ → ℕ → Bool) (m t : ℕ) (xs : List ℕ)
    → IsFresh m (t ∷ xs)
    → IsFresh m (place before t xs)
unfolding place
IsFresh-place before m t [] f = f
IsFresh-place before m t (x ∷ xs) f = elim (Bool-cases (before t x)) [
  | inl e ↦ rw e f
  | inr e ↦ rw e (f.1.0, IsFresh-place before m t xs (f.0, f.1.1))
]

put-IsFresh :
    (qs : Queue → List ℕ) (q : Queue) (xs : List ℕ) (m : ℕ)
    → ((p : Queue) → IsFresh m (qs p))
    → IsFresh m xs
    → (p : Queue) → IsFresh m (put qs q xs p)
put-IsFresh qs q xs m f g p = elim (queue_cases q p) [
  | inl e ↦ subst (λ r. IsFresh m (put qs q xs r)) e (rw (put_self qs q xs) g)
  | inr d ↦ rw (put_other qs q p xs d) (f p)
]

-- The machine with other nodes and another list `q`, whose lists held `qs` and hold `ps`: no node but
-- `t` and those of that list changed, and none but `t` came in.
pub record Changed (v : Vm) (q : Queue) (t : ℕ) (qs ps : Queue → List ℕ) (h : Store) (l : Dlist)
    : Type 0 where
  pub lists : AreHeld (with_list v q h l) ps
  pub values : (m : ℕ) → (h m).value ≡ (v.nodes m).value
  pub outside : (m : ℕ) → m ≢ t → IsFresh m (qs q) → h m ≡ v.nodes m
  pub stays : (m : ℕ) → m ≢ t → ((p : Queue) → IsFresh m (qs p)) → (p : Queue) → IsFresh m (ps p)

module _ {v : Vm} {qs : Queue → List ℕ} (a : AreHeld v qs) (q : Queue) (t : ℕ) where
  -- Taking a thread out of the list that it stands in.
  pub remove_from-Changed :
      (xs ys : List ℕ)
      → qs q ≡ xs ++ (t ∷ ys)
      → (h : Store) × (l : Dlist) × (remove_from v q t ≡ ok (with_list v q h l))
        × Changed v q t qs (put qs q (xs ++ ys)) h l
        × ((p : Queue) → IsFresh t (put qs q (xs ++ ys) p))
  unfolding remove_from
  remove_from-Changed xs ys e =
      let w = subst (Links.Holds v.nodes (list_of v q)) e (a.held q) in
      let (h, l, done, held, kept) = remove_no_free-Holds t xs ys w in
      (
        h,
        l,
        rw done,
        record {
          lists = with_list-AreHeld q (xs ++ (t ∷ ys)) (xs ++ ys) a kept held before (λ p d m.
              elim (before p d m) [ inl f ↦ inl (IsFresh-without m xs t ys f) | inr f ↦ inr f ]);
          values = kept.values;
          outside = λ m d f. kept.same m (subst (IsFresh m) e f);
          stays = λ m d f.
              put-IsFresh qs q (xs ++ ys) m f
                (IsFresh-without m xs t ys (subst (IsFresh m) e (f q)));
        },
        λ p. elim (queue_cases q p) [
          | inl g ↦ subst (λ r. IsFresh t (put qs q (xs ++ ys) r)) g (gone w.distinct)
          | inr d ↦ rw (put_other qs q p (xs ++ ys) d) (elsewhere p d)
        ],
      )
    where
      before : (p : Queue) → q ≢ p → AreApart (xs ++ (t ∷ ys)) (qs p)
      before p d = subst (λ zs. AreApart zs (qs p)) e (a.apart q p d)

      gone : AreDistinct (xs ++ (t ∷ ys)) → IsFresh t (put qs q (xs ++ ys) q)
      gone w =
          let (b, c, _) = AreDistinct-remove t xs ys w in
          rw (put_self qs q (xs ++ ys)) (IsFresh-append t xs ys b c)

      elsewhere : (p : Queue) → q ≢ p → IsFresh t (qs p)
      elsewhere p d = elim (before p d t) [
        | inl f ↦ absurd ((append-IsFresh t xs (t ∷ ys) f).1.0 refl)
        | inr f ↦ f
      ]

  module _ (new : (p : Queue) → IsFresh t (qs p)) where
    -- The thread and those of a list are apart from the other lists.
    apart_with : (p : Queue) → q ≢ p → AreApart (t ∷ qs q) (qs p)
    apart_with p d m = elim (ℕ_discrete m t) [
      | yes e ↦ inr (rw e (new p))
      | no n ↦ elim (a.apart q p d m) [ inl f ↦ inl (n, f) | inr f ↦ inr f ]
    ]

    -- Putting a thread that stands in no list behind those of one.
    pub add_last-Changed :
        (h : Store) × (l : Dlist) × (add_last v q t ≡ ok (with_list v q h l))
        × Changed v q t qs (put qs q (qs q ++ (t ∷ []))) h l
    unfolding add_last
    add_last-Changed =
        let (h, l, done, held, kept) = insert_tail_node-Holds t (qs q) (a.held q) (new q) in
        (
          h,
          l,
          rw done,
          record {
            lists =
                with_list-AreHeld q (t ∷ qs q) (qs q ++ (t ∷ [])) a kept held apart_with (λ p d m.
                  elim (apart_with p d m) [
                    | inl f ↦ inl (IsFresh-append m (qs q) (t ∷ []) f.1 (f.0, _))
                    | inr f ↦ inr f
                  ]);
            values = kept.values;
            outside = λ m d f. kept.same m (d, f);
            stays = λ m d f.
                put-IsFresh qs q (qs q ++ (t ∷ [])) m f
                  (IsFresh-append m (qs q) (t ∷ []) (f q) (d, _));
          },
        )

    -- Putting it where its priority belongs.
    pub add_sorted-Changed :
        (fuel : ℕ)
        → IsOrder (comp_prio v)
        → IsOrdered (comp_prio v) (qs q)
        → length (qs q) ≤ fuel
        → (h : Store) × (l : Dlist) × (add_sorted fuel v q t ≡ ok (with_list v q h l))
          × Changed v q t qs (put qs q (place (comp_prio v) t (qs q))) h l
          × IsOrdered (comp_prio v) (place (comp_prio v) t (qs q))
    unfolding add_sorted
    add_sorted-Changed fuel o s enough =
        let ((h, l, done, held, kept), sorted) =
          insert_sorted-Holds (comp_prio v) fuel t (qs q) o (a.held q) (new q) s enough in
        (
          h,
          l,
          rw done,
          record {
            lists =
                with_list-AreHeld q (t ∷ qs q) (place (comp_prio v) t (qs q)) a kept held apart_with
                  (λ p d m. elim (apart_with p d m) [
                    | inl f ↦ inl (IsFresh-place (comp_prio v) m t (qs q) f)
                    | inr f ↦ inr f
                  ]);
            values = kept.values;
            outside = λ m d f. kept.same m (d, f);
            stays = λ m d f.
                put-IsFresh qs q (place (comp_prio v) t (qs q)) m f
                  (IsFresh-place (comp_prio v) m t (qs q) (d, f q));
          },
          sorted,
        )
