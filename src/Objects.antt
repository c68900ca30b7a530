-- ===== src/Objects.antt =====
-- include/object.h with `vm_collect` and `vm_uncollect` of src/vm/vm.c: the reference counts of
-- managed objects, and the list of the objects that wait to be freed. An object is the address that
-- the machine's data holds for it; 0 is NULL.
pub mod Counts
pub mod Entries
pub mod Free
pub mod Released
pub mod Bodies
use tinyaml.Prelude.{
  ℕ, ◌+◌, ◌-◌, ◌/◌, ◌%◌, ◌^◌, Bool, true, false, List, [], ◌∷◌, leb, ltb, ◌==◌, not, if◌then◌else◌,
  ◌&&◌, ◌||◌,
}
use tinyaml.Prelude.{Run, ok, ◌>>=◌, ◌>>◌, require, Trap}

-- `ref_count` and `magic` of `struct _vm_obj_t` for every address (`is_object` is the test of the
-- magic value that `_is_obj_obj` makes), and the values in the list `gc_pending` of `struct _vm_t`.
pub record Objects : Type 0 where
  pub ref_count : ℕ → ℕ
  pub is_object : ℕ → Bool
  pub gc_pending : List ℕ

unfoldable pub set_count : (ℕ → ℕ) → ℕ → ℕ → ℕ → ℕ
set_count f o n p = if o == p then n else f p

-- The searches of `vm_collect` and `vm_uncollect` through `gc_pending`.
unfoldable pub is_pending : List ℕ → ℕ → Bool
is_pending [] o = false
is_pending (p ∷ ps) o = p == o || is_pending ps o

unfoldable pub unlink_pending : List ℕ → ℕ → List ℕ
unlink_pending [] o = []
unlink_pending (p ∷ ps) o = if p == o then ps else p ∷ unlink_pending ps o

-- `vm_collect`
unfoldable pub collect : Objects → ℕ → Run Objects
unfolding is_pending
collect h o = do
  require Trap.assert_failed (h.ref_count o == 0)
  ok (if is_pending h.gc_pending o then h else record h { gc_pending = o ∷ h.gc_pending })

-- `vm_uncollect`
unfoldable pub uncollect : Objects → ℕ → Objects
unfolding unlink_pending
uncollect h o = record h { gc_pending = unlink_pending h.gc_pending o }

-- `vm_obj_ref_ptr`
unfoldable pub ref_ptr : Objects → ℕ → Run Objects
unfolding set_count uncollect
ref_ptr h o = do
  require Trap.assert_failed (h.is_object o)
  let h' = record h { ref_count = set_count h.ref_count o (h.ref_count o + 1) }
  ok (if h'.ref_count o == 1 then uncollect h' o else h')

-- `vm_obj_deref_ptr`
unfoldable pub deref_ptr : Objects → ℕ → Run Objects
unfolding set_count collect
deref_ptr h o = do
  require Trap.assert_failed (not (o == 0))
  require Trap.assert_failed (h.is_object o)
  let h' = record h { ref_count = set_count h.ref_count o (h.ref_count o - 1) }
  if ltb 0 (h.ref_count o)
      then (if h'.ref_count o == 0 then collect h' o else ok h')
      else collect h o

-- `vm_obj_new` at the address that `malloc` gives: no reference yet.
unfoldable pub obj_new : Objects → ℕ → ℕ → Run Objects
unfolding set_count
obj_new h p obj_type = do
  require Trap.assert_failed ((obj_type / 16) % 2 == 1 && ltb obj_type 29)
  ok (record h { ref_count = set_count h.ref_count p 0; is_object = λ q. p == q || h.is_object q })

-- `vm_obj_free_obj` on an object with no `_free`: its address holds no object any more.
unfoldable pub forget : Objects → ℕ → Objects
forget h o = record h { is_object = λ q. not (o == q) && h.is_object q }

-- `struct _data_stack_entry_t`
pub record Entry : Type 0 where
  pub type : ℕ
  pub value : ℕ

-- `type&DataManagedObjectFlag`
unfoldable pub managed : ℕ → Bool
managed t = (t / 16) % 2 == 1

-- The test of a managed type before a reference is taken or given back.
unfoldable pub entry_ref : Objects → Entry → Run Objects
unfolding managed
entry_ref h d = if managed d.type then ref_ptr h d.value else ok h

unfoldable pub entry_deref : Objects → Entry → Run Objects
unfolding managed
entry_deref h d = if managed d.type then deref_ptr h d.value else ok h
