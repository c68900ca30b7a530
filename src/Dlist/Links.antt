-- ===== src/Dlist/Links.antt =====
-- The nodes of a list of include/list.h in order, and what storing to one node does to the links.
use tinyaml.Prelude.{
  ℕ, ◌≡◌, ◌≢◌, refl, arith, true, false, Option, none, some, List, [], ◌∷◌, ◌++◌, ◌==◌, ap, sym,
  ◌∙◌, Bool-cases, inl, inr,
}
use tinyaml.Dlist.{Store, Dlist, set_next, set_prev}

-- The node `n` is none of `xs`, and the nodes of `xs` are distinct.
abbrev pub IsFresh : ℕ → List ℕ → Type 0
IsFresh n [] = Unit {0}
IsFresh n (x ∷ xs) = (n ≢ x) × IsFresh n xs

abbrev pub AreDistinct : List ℕ → Type 0
AreDistinct [] = Unit {0}
AreDistinct (x ∷ xs) = IsFresh x xs × AreDistinct xs

-- The first node of `xs`, and the last: `q` or `p` where there is none.
abbrev pub first : List ℕ → Option ℕ → Option ℕ
first [] q = q
first (x ∷ xs) q = some x

abbrev pub last : Option ℕ → List ℕ → Option ℕ
last p [] = p
last p (x ∷ xs) = last (some x) xs

-- In `h` the nodes `xs` are linked to each other both ways, the first one back to `p` and the last
-- one on to `q`.
abbrev pub AreLinked : Store → Option ℕ → List ℕ → Option ℕ → Type 0
AreLinked h p [] q = Unit {0}
AreLinked h p (x ∷ xs) q = ((h x).prev ≡ p) × ((h x).next ≡ first xs q) × AreLinked h (some x) xs q

-- The stores agree on the nodes outside `xs`, and on the values of all nodes.
pub record Kept (h : Store) (xs : List ℕ) (h' : Store) : Type 0 where
  pub same : (m : ℕ) → IsFresh m xs → h' m ≡ h m
  pub values : (m : ℕ) → (h' m).value ≡ (h m).value

-- The list `l` in `h` has the nodes `xs`, in this order.
pub record Holds (h : Store) (l : Dlist) (xs : List ℕ) : Type 0 where
  pub linked : AreLinked h none xs none
  pub distinct : AreDistinct xs
  pub head : l.head ≡ first xs none
  pub tail : l.tail ≡ last none xs

pub ne-== : (a b : ℕ) → a ≢ b → (a == b) ≡ false
ne-== a b e = ground arith

pub self-== : (a : ℕ) → (a == a) ≡ true
self-== a = ground arith

pub set_next_other : (h : Store) (n m : ℕ) (p : Option ℕ) → m ≢ n → set_next h n p m ≡ h m
unfolding set_next
set_next_other h n m p e = let k : (n == m) ≡ false = ground arith in rw k

pub set_prev_other : (h : Store) (n m : ℕ) (p : Option ℕ) → m ≢ n → set_prev h n p m ≡ h m
unfolding set_prev
set_prev_other h n m p e = let k : (n == m) ≡ false = ground arith in rw k

pub set_next_self :
    (h : Store) (n : ℕ) (p : Option ℕ) → set_next h n p n ≡ record (h n) { next = p }
unfolding set_next
set_next_self h n p = rw (self-== n)

pub set_prev_self :
    (h : Store) (n : ℕ) (p : Option ℕ) → set_prev h n p n ≡ record (h n) { prev = p }
unfolding set_prev
set_prev_self h n p = rw (self-== n)

pub set_next_value :
    (h : Store) (n : ℕ) (p : Option ℕ) (m : ℕ) → (set_next h n p m).value ≡ (h m).value
unfolding set_next
set_next_value h n p m = elim (Bool-cases (n == m)) [ inl e ↦ rw e | inr e ↦ rw e ]

pub set_prev_value :
    (h : Store) (n : ℕ) (p : Option ℕ) (m : ℕ) → (set_prev h n p m).value ≡ (h m).value
unfolding set_prev
set_prev_value h n p m = elim (Bool-cases (n == m)) [ inl e ↦ rw e | inr e ↦ rw e ]

-- Stores that agree on the nodes link them the same way.
pub AreLinked-agree :
    (h h' : Store) (p : Option ℕ) (xs : List ℕ) (q : Option ℕ)
    → ((m : ℕ) → (IsFresh m xs → ⊥) → h' m ≡ h m)
    → AreLinked h p xs q
    → AreLinked h' p xs q
AreLinked-agree h h' p [] q s k = k
AreLinked-agree h h' p (x ∷ xs) q s k =
    let e : h' x ≡ h x = s x (λ f. f.0 refl) in
    (
      ap (λ n. n.prev) e ∙ k.0,
      ap (λ n. n.next) e ∙ k.1,
      AreLinked-agree h h' (some x) xs q (λ m f. s m (λ g. f (g.1))) k.2,
    )

-- Storing to a node that is none of them leaves the links of nodes.
pub AreLinked-set_next :
    (h : Store) (n : ℕ) (r : Option ℕ) (p : Option ℕ) (xs : List ℕ) (q : Option ℕ)
    → IsFresh n xs
    → AreLinked h p xs q
    → AreLinked (set_next h n r) p xs q
AreLinked-set_next h n r p [] q f k = k
AreLinked-set_next h n r p (x ∷ xs) q f k =
    let e = set_next_other h n x r (λ z. f.0 (sym z)) in
    (
      ap (λ n. n.prev) e ∙ k.0,
      ap (λ n. n.next) e ∙ k.1,
      AreLinked-set_next h n r (some x) xs q f.1 k.2,
    )

pub AreLinked-set_prev :
    (h : Store) (n : ℕ) (r : Option ℕ) (p : Option ℕ) (xs : List ℕ) (q : Option ℕ)
    → IsFresh n xs
    → AreLinked h p xs q
    → AreLinked (set_prev h n r) p xs q
AreLinked-set_prev h n r p [] q f k = k
AreLinked-set_prev h n r p (x ∷ xs) q f k =
    let e = set_prev_other h n x r (λ z. f.0 (sym z)) in
    (
      ap (λ n. n.prev) e ∙ k.0,
      ap (λ n. n.next) e ∙ k.1,
      AreLinked-set_prev h n r (some x) xs q f.1 k.2,
    )

-- The links of two runs of nodes, one behind the other.
pub AreLinked-append :
    (h : Store) (p : Option ℕ) (xs ys : List ℕ) (q : Option ℕ)
    → AreLinked h p xs (first ys q)
    → AreLinked h (last p xs) ys q
    → AreLinked h p (xs ++ ys) q
AreLinked-append h p [] ys q k m = m
AreLinked-append h p (x ∷ []) ys q k m = (k.0, k.1, m)
AreLinked-append h p (x ∷ y ∷ xs) ys q k m =
    (k.0, k.1, AreLinked-append h (some x) (y ∷ xs) ys q k.2 m)

pub append-AreLinked :
    (h : Store) (p : Option ℕ) (xs ys : List ℕ) (q : Option ℕ)
    → AreLinked h p (xs ++ ys) q
    → AreLinked h p xs (first ys q) × AreLinked h (last p xs) ys q
append-AreLinked h p [] ys q k = (_, k)
append-AreLinked h p (x ∷ []) ys q k = ((k.0, k.1, _), k.2)
append-AreLinked h p (x ∷ y ∷ xs) ys q k =
    let (a, b) = append-AreLinked h (some x) (y ∷ xs) ys q k.2 in ((k.0, k.1, a), b)

-- Storing the `prev` of the first of some nodes, or the `next` of the last.
pub relink_prev :
    (h : Store) (p p' : Option ℕ) (x : ℕ) (xs : List ℕ) (q : Option ℕ)
    → IsFresh x xs
    → AreLinked h p (x ∷ xs) q
    → AreLinked (set_prev h x p') p' (x ∷ xs) q
relink_prev h p p' x xs q f k =
    let e = set_prev_self h x p' in
    (ap (λ n. n.prev) e, ap (λ n. n.next) e ∙ k.1, AreLinked-set_prev h x p' (some x) xs q f k.2)

pub relink_next :
    (h : Store) (p : Option ℕ) (xs : List ℕ) (z : ℕ) (q q' : Option ℕ)
    → IsFresh z xs
    → AreLinked h p (xs ++ (z ∷ [])) q
    → AreLinked (set_next h z q') p (xs ++ (z ∷ [])) q'
relink_next h p xs z q q' f k =
    let (a, b) = append-AreLinked h p xs (z ∷ []) q k in
    let e = set_next_self h z q' in
    AreLinked-append (set_next h z q') p xs (z ∷ []) q'
      (AreLinked-set_next h z q' p xs (some z) f a)
      (ap (λ n. n.prev) e ∙ b.0, ap (λ n. n.next) e, _)
