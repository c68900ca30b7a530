-- ===== src/Hashtab.antt =====
-- include/hashtab.h: chained hash tables of 137 rows over any keys and values, with the hash and
-- comparison functions that the program gives them (`hash_str`, `hash_ptr` and `cmp_ptr` of
-- src/compiler/opcode_dict.c), the iterator, and the loop of `vm_set_foreach` (src/vm/objects.c).
pub mod Keys
pub mod Laws
pub mod Iter
use mathlib.Core.List.{head?}
use tinyaml.Prelude.{
  ◌≡◌, ◌≤◌, ◌-◌, ℕ, zero, suc, ◌+◌, ◌%◌, ◌^◌, Bool, true, false, Option, none, some, List, [], ◌∷◌,
  ◌++◌, leb, if◌then◌else◌, get_elem?, set, replicate,
}
use tinyaml.Prelude.{Run, ok, trap, ◌>>=◌, expect, Trap}

-- `HASH_SIZE`
abbrev pub hash_size : ℕ
hash_size = 137

-- The `hash` and `keycmp` of a table; `differs` says that `keycmp` is not zero.
pub record KeyOps {ℓ} (K : Type ℓ) : Type ℓ where
  pub hash : K → ℕ
  pub differs : K → K → Bool

-- What the tables rely on: hashes are rows, and `keycmp` is zero on equal keys alone.
pub record Lawful {ℓ} {K : Type ℓ} (o : KeyOps K) : Type ℓ where
  pub row : (k : K) → suc (o.hash k) ≤ hash_size
  pub same : (j k : K) → o.differs j k ≡ false → j ≡ k
  pub self : (k : K) → o.differs k k ≡ false

-- A row's chain of `struct _htab_entry_struct`, and `table` of `struct _hashtab_t`.
abbrev pub Chain {ℓ κ} : Type ℓ → Type κ → Type (ℓ ⊔ κ)
Chain K E = List (K × E)

abbrev pub Table {ℓ κ} : Type ℓ → Type κ → Type (ℓ ⊔ κ)
Table K E = List (Chain K E)

module _ {ℓ κ} {K : Type ℓ} {E : Type κ} where
  -- `init_hashtab`
  unfoldable pub init : Table K E
  init = replicate hash_size []

  -- `clean_hashtab`: the entries that the callback is given, row by row, and the empty table.
  unfoldable pub entries : Table K E → Chain K E
  entries [] = []
  entries (c ∷ t) = c ++ entries t

  unfoldable pub clean : Table K E → Chain K E × Table K E
  unfolding entries init
  clean t = (entries t, init)

module _ {ℓ κ} {K : Type ℓ} {E : Type κ} (o : KeyOps K) where
  -- `tab->table[i]`
  unfoldable pub row : Table K E → K → Run (Chain K E)
  row t k = expect Trap.out_of_bounds (get_elem? t (o.hash k))

  -- `hash_addelem`; a NULL key aborts.
  unfoldable pub add : Option K → E → Table K E → Run (Table K E)
  unfolding row
  add none e t = trap Trap.aborted
  add (some k) e t = row t k >>= λ c. ok (set t (o.hash k) ((k, e) ∷ c))

  -- The loop of `hash_find_e`.
  unfoldable pub scan : Chain K E → K → Option (K × E)
  scan [] k = none
  scan ((j, e) ∷ c) k = if o.differs j k then scan c k else some (j, e)

  -- `hash_find_e`
  unfoldable pub find_e : Option K → Table K E → Run (Option (K × E))
  unfolding row scan
  find_e none t = ok none
  find_e (some k) t = row t k >>= λ c. ok (scan c k)

  -- `hash_find`, with `noval` for `HASH_NOVAL`.
  unfoldable pub find : E → Option K → Table K E → Run E
  unfolding find_e
  find noval k t = find_e k t >>= λ s. ok (elim s [ none ↦ noval | some (_, e) ↦ e ])

  -- The loop of `hash_delelem` and the unlinking of the entry that it stops at.
  unfoldable pub unlink : Chain K E → K → Chain K E
  unlink [] k = []
  unlink ((j, e) ∷ c) k = if o.differs j k then (j, e) ∷ unlink c k else c

  -- `hash_delelem`
  unfoldable pub del : K → Table K E → Run (Table K E)
  unfolding row unlink
  del k t = row t k >>= λ c. ok (set t (o.hash k) (unlink c k))

-- `struct _htab_iterator`: the row, and the chain from `entry` on (no entry is NULL).
pub record Iterator {ℓ κ} (K : Type ℓ) (E : Type κ) : Type (ℓ ⊔ κ) where
  pub at_row : ℕ
  pub entry : Chain K E

module _ {ℓ κ} {K : Type ℓ} {E : Type κ} where
  -- The loop of `hi_incr` and what follows it: the iterator and the result.
  unfoldable pub next_row : ℕ → Table K E → ℕ → Run (Iterator K E × Bool)
  next_row zero t r = trap Trap.out_of_fuel
  next_row (suc fuel) t r =
      let r' = (r + 1) % 2 ^ 64 in
      let rest = next_row fuel t r' in
      if leb hash_size r'
      then ok (record { at_row = r'; entry = [] }, false)
      else expect Trap.out_of_bounds (get_elem? t r') >>= λ c. elim c [
        | [] ↦ rest
        | x ∷ xs ↦ ok (record { at_row = r'; entry = x ∷ xs }, true)
      ]

  -- `hi_incr`. Its first step moves to the next entry of the chain; the loop moves on from the row
  -- whatever that was, and sets `entry` anew.
  unfoldable pub incr : Table K E → Iterator K E → Run (Iterator K E × Bool)
  incr t hi =
      let hi' = record hi { entry = elim hi.entry [ x ∷ y ∷ xs ↦ y ∷ xs | other ↦ other ] } in
      next_row (suc hash_size) t hi'.at_row

  -- `hi_init`
  unfoldable pub start : Table K E → Run (Iterator K E)
  unfolding incr
  start t = incr t (record { at_row = 2 ^ 64 - 1; entry = [] }) >>= λ r. ok (r.0)

  -- The loop `while(hi_incr(&hi)) f(hi_key(&hi), hi_value(&hi))`: the entries that `f` is given.
  unfoldable pub walk : ℕ → Table K E → Iterator K E → Run (Chain K E)
  unfolding incr
  walk zero t hi = trap Trap.out_of_fuel
  walk (suc fuel) t hi = incr t hi >>= λ (hi', more). elim more [
    | false ↦ ok []
    | true ↦
        expect Trap.null_pointer (head? hi'.entry) >>= λ x. walk fuel t hi' >>= λ xs. ok (x ∷ xs)
  ]

  -- `vm_set_foreach`
  unfoldable pub foreach : Table K E → Run (Chain K E)
  unfolding start
  foreach t = start t >>= λ hi. walk (suc hash_size) t hi
