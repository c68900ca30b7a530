-- ===== src/Dlist.antt =====
-- The doubly linked lists of include/list.h with src/containers/list.c. A node is an address in a
-- store, so that several lists, and the threads that are nodes, share one memory; NULL is `none`.
pub mod Links
pub mod Ends
pub mod Insert
pub mod Remove
pub mod Seek
pub mod Sorted
use tinyaml.Prelude.{
  ℕ, zero, suc, Bool, true, false, Option, none, some, List, [], ◌∷◌, ◌==◌, if◌then◌else◌,
}
use tinyaml.Prelude.{Run, ok, trap, ◌>>=◌, ◌>>◌, require, expect, Trap}

-- `struct _dlist_node_t`
pub record Node : Type 0 where
  pub prev : Option ℕ
  pub next : Option ℕ
  pub value : ℕ

abbrev pub Store : Type 0
Store = ℕ → Node

-- `struct _dlist_t`
pub record Dlist : Type 0 where
  pub head : Option ℕ
  pub tail : Option ℕ

-- `dlist_init`
unfoldable pub init : Dlist
init = record { head = none; tail = none }

-- `n->next = p` and `n->prev = p`.
unfoldable pub set_next : Store → ℕ → Option ℕ → Store
set_next h n p m = if n == m then record (h m) { next = p } else h m

unfoldable pub set_prev : Store → ℕ → Option ℕ → Store
set_prev h n p m = if n == m then record (h m) { prev = p } else h m

-- `p == q`
unfoldable pub same_node : Option ℕ → Option ℕ → Bool
same_node none none = true
same_node none (some b) = false
same_node (some a) none = false
same_node (some a) (some b) = a == b

-- The node that a pointer points to.
abbrev pub node : Option ℕ → Run ℕ
node p = expect Trap.null_pointer p

-- `dlist_insert_head_node`
unfoldable pub insert_head_node : Store → Dlist → ℕ → Run (Store × Dlist)
insert_head_node h l n =
    let h = set_prev (set_next h n l.head) n none in
    elim l.tail [
      | none ↦ ok (h, record { head = some n; tail = some n })
      | some _ ↦ node l.head >>= λ a. ok (set_prev h a (some n), record l { head = some n })
    ]

-- `dlist_insert_tail_node`
unfoldable pub insert_tail_node : Store → Dlist → ℕ → Run (Store × Dlist)
insert_tail_node h l n =
    let h = set_prev (set_next h n none) n l.tail in
    elim l.head [
      | none ↦ ok (h, record { head = some n; tail = some n })
      | some _ ↦ node l.tail >>= λ z. ok (set_next h z (some n), record l { tail = some n })
    ]

-- `dlist_remove_head_no_free`
unfoldable pub remove_head_no_free : Store → Dlist → Run (Store × Dlist)
unfolding same_node
remove_head_no_free h l =
    if same_node l.tail l.head
    then ok (h, record { head = none; tail = none })
    else (node l.head >>= λ a.
        node ((h a).next) >>= λ b. ok (set_prev h b none, record l { head = some b }))

-- `dlist_remove_tail_no_free`
unfoldable pub remove_tail_no_free : Store → Dlist → Run (Store × Dlist)
unfolding same_node
remove_tail_no_free h l =
    if same_node l.tail l.head
    then ok (h, record { head = none; tail = none })
    else (node l.tail >>= λ a.
        node ((h a).prev) >>= λ b. ok (set_next h b none, record l { tail = some b }))

-- `dlist_remove_no_free`
unfoldable pub remove_no_free : Store → Dlist → ℕ → Run (Store × Dlist)
unfolding remove_head_no_free remove_tail_no_free
remove_no_free h l n =
    if same_node (some n) l.head
    then remove_head_no_free h l
    else if same_node (some n) l.tail
    then remove_tail_no_free h l
    else (node ((h n).next) >>= λ b.
        let h1 = set_prev h b ((h n).prev) in
        node ((h1 n).prev) >>= λ a. ok (set_next h1 a ((h1 n).next), l))

module _ (before : ℕ → ℕ → Bool) where
  -- The loop of `dlist_insert_sorted`: the node to insert behind. `before n r` says that the
  -- comparison of `n` with `r` is negative.
  unfoldable pub seek : ℕ → Store → ℕ → ℕ → Run ℕ
  seek zero h n r = trap Trap.out_of_fuel
  seek (suc fuel) h n r =
      node ((h r).next) >>= λ b. elim (before n b) [ true ↦ ok r | false ↦ seek fuel h n b ]

  -- The insertion behind the node `r` that `dlist_insert_sorted` found.
  unfoldable pub insert_behind : Store → Dlist → ℕ → ℕ → Run (Store × Dlist)
  insert_behind h l n r =
      let h1 = set_next h n ((h r).next) in
      node ((h1 r).next) >>= λ b.
      let h2 = set_next (set_prev h1 b (some n)) r (some n) in ok (set_prev h2 n (some r), l)

  -- `dlist_insert_sorted`, with fuel for its loop.
  unfoldable pub insert_sorted : ℕ → Store → Dlist → ℕ → Run (Store × Dlist)
  unfolding seek insert_behind
  insert_sorted fuel h l n = elim l.head [
    | none ↦ ok (set_prev (set_next h n none) n none, record { head = some n; tail = some n })
    | some r ↦
        if before n r
        then ok (
          set_prev (set_prev (set_next h n (some r)) n none) r (some n),
          record l { head = some n },
        )
        else (node l.tail >>= λ z.
            if before n z
            then (seek fuel h n r >>= λ q. insert_behind h l n q)
            else (let h1 = set_prev (set_next h n none) n l.tail in
                ok (set_next h1 z (some n), record l { tail = some n })))
  ]
