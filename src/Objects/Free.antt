-- ===== src/Objects/Free.antt =====
-- The `_free` of the objects of src/vm/objects.c (lines 101 to 112, 151 to 155, 201 to 223, 376 to 409
-- and 435 to 437): the references of an object that is freed.
use tinyaml.Prelude.{
  ℕ, zero, suc, ◌+◌, ◌/◌, Option, none, some, List, [], ◌∷◌, if◌then◌else◌, Run, ok, ◌>>=◌,
}
use tinyaml.Dynarray.{Dynarray, load}
use tinyaml.Hashtab.{Table, entries}
use tinyaml.Objects.{Objects, Entry, managed, deref_ptr, entry_ref, entry_deref}
use tinyaml.Machine.{deref_stack}

-- What an object holds, by its `_free`; what that does to memory alone is left out. The plain ones give no reference back: strings, which have no
-- `_free`, symbol tables, mutexes, classes, and threads.
pub data Body : Type 0 where
  plain : Body
  array : Dynarray ℕ → Body
  environment : Dynarray ℕ → Body
  set_of : Entry → Entry → Table Entry Entry → Body
  stack : List Entry → Body
  function : Option ℕ → Body
  instance_of : ℕ → Body

-- The loop of `vm_da_deinit` over the items, which are two words each.
unfoldable pub da_loop : ℕ → ℕ → Dynarray ℕ → Objects → Run Objects
da_loop zero i da h = ok h
da_loop (suc n) i da h = do
  type ← load da i
  h ← (if managed type then (load da (i + 1) >>= λ p. deref_ptr h p) else ok h)
  da_loop n (i + 2) da h

-- `vm_da_deinit`
unfoldable pub da_deinit : Dynarray ℕ → Objects → Run Objects
unfolding da_loop
da_deinit da h = da_loop ((da.size + 1) / 2) 0 da h

-- `clean_hashtab` with `clean_set`: the value of an entry, and its key.
unfoldable pub clean_set : List (Entry × Entry) → Objects → Run Objects
clean_set [] h = ok h
clean_set ((key, value) ∷ es) h = do h ← entry_deref h value; h ← entry_deref h key; clean_set es h

-- `vm_set_deinit`; it takes a reference to the functions of the set where it means to give one back.
unfoldable pub set_deinit : Entry → Entry → Table Entry Entry → Objects → Run Objects
unfolding clean_set entries
set_deinit compare hash tab h = do
  h ← clean_set (entries tab) h
  h ← entry_ref h compare
  entry_ref h hash

-- `vm_env_deinit`; the symbols hold no object.
unfoldable pub env_deinit : Dynarray ℕ → Objects → Run Objects
unfolding da_deinit
env_deinit da h = da_deinit da h

-- `vm_stack_deinit`, `vm_df_deinit` and `vm_vor_deinit`
unfoldable pub stack_deinit : List Entry → Objects → Run Objects
unfolding deref_stack
stack_deinit s h = deref_stack s h

unfoldable pub df_deinit : Option ℕ → Objects → Run Objects
df_deinit none h = ok h
df_deinit (some closure) h = deref_ptr h closure

unfoldable pub vor_deinit : ℕ → Objects → Run Objects
vor_deinit members h = deref_ptr h members

-- The call of `o->_free`.
unfoldable pub free_body : Body → Objects → Run Objects
unfolding da_deinit env_deinit set_deinit stack_deinit df_deinit vor_deinit
free_body Body.plain h = ok h
free_body (Body.array da) h = da_deinit da h
free_body (Body.environment da) h = env_deinit da h
free_body (Body.set_of compare hash tab) h = set_deinit compare hash tab h
free_body (Body.stack s) h = stack_deinit s h
free_body (Body.function closure) h = df_deinit closure h
free_body (Body.instance_of members) h = vor_deinit members h
