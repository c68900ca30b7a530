-- ===== src/Dlist/Ends.antt =====
-- The first and last nodes of lists of nodes, fresh nodes, and distinct ones.
use tinyaml.Prelude.{
  ℕ, ◌≡◌, ◌≢◌, refl, Option, none, some, List, [], ◌∷◌, ◌++◌, ap, sym, true, false,
}
use tinyaml.Dlist.{same_node}
use tinyaml.Dlist.Links.{IsFresh, AreDistinct, first, last, ne-==, self-==}

unfoldable pub end_of : ℕ → List ℕ → ℕ
end_of x [] = x
end_of x (y ∷ ys) = end_of y ys

pub last-some : (x : ℕ) (xs : List ℕ) → last (some x) xs ≡ some (end_of x xs)
unfolding end_of
last-some x [] = refl
last-some x (y ∷ ys) = last-some y ys

pub last_behind :
    (p : Option ℕ) (xs : List ℕ) (z : ℕ) (zs : List ℕ) → last p (xs ++ (z ∷ zs)) ≡ last (some z) zs
last_behind p [] z zs = refl
last_behind p (x ∷ xs) z zs = last_behind (some x) xs z zs

pub first_before :
    (xs : List ℕ) (z : ℕ) (zs : List ℕ)
    → (a : ℕ) × ((q : Option ℕ) → first (xs ++ (z ∷ zs)) q ≡ some a)
first_before [] z zs = (z, λ q. refl)
first_before (x ∷ xs) z zs = (x, λ q. refl)

-- A list with a node has a last one.
pub split_last : (x : ℕ) (xs : List ℕ) → (ws : List ℕ) × (z : ℕ) × (x ∷ xs ≡ ws ++ (z ∷ []))
split_last x [] = ([], x, refl)
split_last x (y ∷ ys) = let (ws, z, e) = split_last y ys in (x ∷ ws, z, ap (λ t. x ∷ t) e)

pub first-append : (xs ys : List ℕ) (q : Option ℕ) → first (xs ++ ys) q ≡ first xs (first ys q)
first-append [] ys q = refl
first-append (x ∷ xs) ys q = refl

pub IsFresh-append : (m : ℕ) (xs ys : List ℕ) → IsFresh m xs → IsFresh m ys → IsFresh m (xs ++ ys)
IsFresh-append m [] ys a b = b
IsFresh-append m (x ∷ xs) ys a b = (a.0, IsFresh-append m xs ys a.1 b)

pub append-IsFresh : (m : ℕ) (xs ys : List ℕ) → IsFresh m (xs ++ ys) → IsFresh m xs × IsFresh m ys
append-IsFresh m [] ys a = (_, a)
append-IsFresh m (x ∷ xs) ys a = let (b, c) = append-IsFresh m xs ys a.1 in ((a.0, b), c)

pub AreDistinct-insert :
    (n : ℕ) (xs ys : List ℕ)
    → IsFresh n (xs ++ ys)
    → AreDistinct (xs ++ ys)
    → AreDistinct (xs ++ (n ∷ ys))
AreDistinct-insert n [] ys f d = (f, d)
AreDistinct-insert n (x ∷ xs) ys f d =
    let (a, b) = append-IsFresh x xs ys d.0 in
    (IsFresh-append x xs (n ∷ ys) a ((λ e. f.0 (sym e)), b), AreDistinct-insert n xs ys f.1 d.1)

-- The node between others is none of them, and without it they are distinct.
pub AreDistinct-remove :
    (n : ℕ) (xs ys : List ℕ)
    → AreDistinct (xs ++ (n ∷ ys))
    → IsFresh n xs × IsFresh n ys × AreDistinct (xs ++ ys)
AreDistinct-remove n [] ys d = (_, d.0, d.1)
AreDistinct-remove n (x ∷ xs) ys d =
    let (a, b) = append-IsFresh x xs (n ∷ ys) d.0 in
    let (e, f, g) = AreDistinct-remove n xs ys d.1 in
    (((λ z. b.0 (sym z)), e), f, (IsFresh-append x xs ys a b.1, g))

pub same_node_ne : (a b : ℕ) → a ≢ b → same_node (some a) (some b) ≡ false
unfolding same_node
same_node_ne a b e = ne-== a b e

pub same_node_self : (p : Option ℕ) → same_node p p ≡ true
unfolding same_node
same_node_self none = refl
same_node_self (some a) = self-== a

pub IsFresh-end_of : (m y : ℕ) (ys : List ℕ) → IsFresh m (y ∷ ys) → m ≢ end_of y ys
unfolding end_of
IsFresh-end_of m y [] f = f.0
IsFresh-end_of m y (z ∷ ys) f = IsFresh-end_of m z ys f.1
