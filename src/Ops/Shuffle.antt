-- ===== src/Ops/Shuffle.antt =====
-- `vm_op_dup_Int` and `vm_op_swap_Int` of src/ops/bml_vm.c.
use tinyaml.Prelude.{
  ℕ, zero, suc, ◌≡◌, ◌<◌, ◌+◌, ◌^◌, refl, sym, ◌∙◌, ap, arith, ok, List, [], ◌∷◌, true, get_elem?,
  set, some, leb, false,
}
use tinyaml.Gstack.{negate, word, biased}
use tinyaml.Objects.{Entry, managed}
use tinyaml.Objects.Counts.{Tracks-congr}
use tinyaml.Objects.Entries.{held_by, held_in, IsLive}
use tinyaml.Machine.{Machine, peek_data, peek_at}
use tinyaml.Machine.Roots.{Counted}
use tinyaml.Machine.Stacks.{Leaves, with_data, push_data-Counted}
use tinyaml.Ops.Stack.{dup_int, swap_int}

pub held_by_self : (d : Entry) → managed d.type ≡ true → held_by d d.value ≡ 1
held_by_self d q = rw q (ground arith)

-- What an entry of a list refers to is counted.
pub held_in-get_elem? :
    (s : List Entry) (k : ℕ) (d : Entry)
    → get_elem? s k ≡ some d
    → managed d.type ≡ true
    → 0 < held_in s d.value
held_in-get_elem? [] k d e q = absurd (cc)
held_in-get_elem? (x ∷ s) zero d e q =
    let same : x ≡ d = cc in omega (arith, ap (λ y. held_by y d.value) same, held_by_self d q)
held_in-get_elem? (x ∷ s) (suc k) d e q = omega (arith, held_in-get_elem? s k d e q)

pub stack-IsLive :
    (elsewhere : ℕ → ℕ) (m : Machine) (s : List Entry) (k : ℕ) (d : Entry)
    → Counted elsewhere m
    → m.data_stack ≡ s
    → get_elem? s k ≡ some d
    → IsLive m.objects d
stack-IsLive elsewhere m s k d t eq e q =
    t.live d.value (omega (arith, ap (λ y. held_in y d.value) eq, held_in-get_elem? s k d e q))

pub negate-negate : (n : ℕ) → n < word → negate (negate n) ≡ n
negate-negate n lt = omega arith

-- A peek at `-k` is the entry `k` places below the top.
pub peek_at-negate :
    (s : List Entry) (k : ℕ) (d : Entry)
    → k < word
    → get_elem? s k ≡ some d
    → peek_at s (negate k) ≡ ok d
unfolding peek_at
peek_at-negate [] k d lt e = absurd (cc)
peek_at-negate (x ∷ s) k d lt e = rw (negate-negate k lt) (rw e)

-- Duplicating the entry `k` places below the top.
pub dup_int-Counted :
    (elsewhere : ℕ → ℕ) (m : Machine) (k : ℕ) (d : Entry)
    → Counted elsewhere m
    → k < word
    → get_elem? m.data_stack k ≡ some d
    → Leaves elsewhere m (dup_int m (negate k)) (d ∷ m.data_stack)
unfolding dup_int peek_data
dup_int-Counted elsewhere m k d t lt e =
    let (h, run, kept, t') =
      push_data-Counted elsewhere m t d (stack-IsLive elsewhere m m.data_stack k d t refl e) in
    (h, rw (peek_at-negate m.data_stack k d lt e) run, kept, t')

-- The entries 0 and `k` of a stack in each other's place.
abbrev pub swapped : List Entry → ℕ → Entry → Entry → List Entry
swapped s k top other = set (set s k top) 0 other

swap_int_run :
    (m : Machine) (k : ℕ) (top other : Entry)
    → 0 < k
    → k < 2 ^ 63
    → get_elem? m.data_stack 0 ≡ some top
    → get_elem? m.data_stack k ≡ some other
    → swap_int m k ≡ ok (with_data m m.objects (swapped m.data_stack k top other))
unfolding swap_int
swap_int_run m k top other pos lt e e' =
    let positive : leb (biased k) (2 ^ 63) ≡ false = ground arith in
    rw positive (
      rw (peek_at-negate m.data_stack 0 top (omega arith) e)
        (rw (peek_at-negate m.data_stack k other (omega arith) e')))

set-set_back :
    (s : List Entry) (k : ℕ) (x y : Entry) → get_elem? s k ≡ some y → set (set s k x) k y ≡ s
set-set_back [] k x y e = refl
set-set_back (z ∷ s) zero x y e = let same : z ≡ y = cc in λ i. sym same i ∷ s
set-set_back (z ∷ s) (suc k) x y e = ap (λ r. z ∷ r) (set-set_back s k x y e)

pub held_in-set :
    (s : List Entry) (k : ℕ) (x y : Entry) (o : ℕ)
    → get_elem? s k ≡ some y
    → held_in (set s k x) o + held_by y o ≡ held_in s o + held_by x o
held_in-set [] k x y o e = absurd (cc)
held_in-set (z ∷ s) zero x y o e =
    let same : z ≡ y = cc in omega (arith, ap (λ r. held_by r o) same)
held_in-set (z ∷ s) (suc k) x y o e = omega (arith, held_in-set s k x y o e)

get_elem?-set_there :
    (s : List Entry) (k : ℕ) (x y : Entry)
    → get_elem? s k ≡ some y
    → get_elem? (set s k x) k ≡ some x
get_elem?-set_there [] k x y e = absurd (cc)
get_elem?-set_there (z ∷ s) zero x y e = refl
get_elem?-set_there (z ∷ s) (suc k) x y e = get_elem?-set_there s k x y e

swapped_lem :
    (s : List Entry) (k : ℕ) (top other : Entry)
    → 0 < k
    → get_elem? s 0 ≡ some top
    → get_elem? s k ≡ some other
    → (get_elem? (swapped s k top other) 0 ≡ some other)
      × (get_elem? (swapped s k top other) k ≡ some top)
      × (swapped (swapped s k top other) k other top ≡ s)
      × ((o : ℕ) → held_in (swapped s k top other) o ≡ held_in s o)
swapped_lem [] k top other pos e e' = absurd (cc)
swapped_lem (x ∷ s) zero top other pos e e' = absurd (omega arith)
swapped_lem (x ∷ s) (suc k) top other pos e e' =
    let same : x ≡ top = cc in
    (
      refl,
      get_elem?-set_there s k top other e',
      (λ i. sym same i ∷ set-set_back s k top other e' i),
      λ o. omega (arith, ap (λ r. held_by r o) same, held_in-set s k top other o e'),
    )

-- Swapping the top with the entry `k` places below it, where `k` is positive and below 2 ^ 63, leaves
-- the two in each other's place and the counts right, and swapping again brings back the machine as
-- it was.
pub swap_int-swap_int :
    (elsewhere : ℕ → ℕ) (m : Machine) (k : ℕ) (top other : Entry)
    → Counted elsewhere m
    → 0 < k
    → k < 2 ^ 63
    → get_elem? m.data_stack 0 ≡ some top
    → get_elem? m.data_stack k ≡ some other
    → (m' : Machine) × (swap_int m k ≡ ok m')
      × Counted elsewhere m'
      × (get_elem? m'.data_stack 0 ≡ some other)
      × (get_elem? m'.data_stack k ≡ some top)
      × (swap_int m' k ≡ ok m)
swap_int-swap_int elsewhere m k top other t pos lt e e' =
    let (at_top, at_k, back, count) = swapped_lem m.data_stack k top other pos e e' in
    let m' = with_data m m.objects (swapped m.data_stack k top other) in
    (
      m',
      swap_int_run m k top other pos lt e e',
      Tracks-congr m.objects _ _ t (λ o. omega (arith, count o)),
      at_top,
      at_k,
      swap_int_run m' k other top pos lt at_top at_k ∙ (λ i. ok (with_data m m.objects (back i))),
    )
