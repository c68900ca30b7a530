-- ===== src/Ops/Variables.antt =====
-- `vm_op_setmem_Int` and `vm_op_getmem_Int` of src/ops/data.c on local variables.
use tinyaml.Prelude.{
  ℕ, ◌≡◌, ◌<◌, ◌+◌, ◌-◌, ◌%◌, ◌^◌, refl, ◌∙◌, ap, arith, ok, List, ◌∷◌, true, ◌>>=◌, get_elem?, set,
  some, length, leb, get_elem?-set_self,
}
use tinyaml.Gstack.{word, minus_one, negate}
use tinyaml.Objects.{Objects, Entry, managed}
use tinyaml.Objects.Counts.{Tracks, Tracks-congr}
use tinyaml.Objects.Entries.{held_by, IsLive, entry_ref-Tracks, entry_deref-Tracks}
use tinyaml.Machine.{Machine, pop_top, sp_of, push_data}
use tinyaml.Machine.Roots.{Counted, held_by_thread}
use tinyaml.Machine.Stacks.{with_data, pop_top-Counted, push_data-Counted}
use tinyaml.Ops.Shuffle.{stack-IsLive, peek_at-negate, held_in-set}
use tinyaml.Ops.Memory.{replace_entry, local_index, set_local, setmem_int, getmem_int}

-- Replacing a variable's value moves one reference from the old object to the new one.
pub replace_entry-Tracks :
    (h : Objects) (n : ℕ → ℕ) (old d : Entry)
    → Tracks h (λ o. n o + held_by old o)
    → IsLive h d
    → (h' : Objects) × (replace_entry h old d ≡ ok h')
      × (h'.is_object ≡ h.is_object)
      × Tracks h' (λ o. n o + held_by d o)
unfolding replace_entry
replace_entry-Tracks h n old d t live =
    let (h', run, kept, t') = entry_deref-Tracks h n old t in
    let (h'', run', kept', t'') =
      entry_ref-Tracks h' n d t' (λ q. ap (λ f. f d.value) kept ∙ live q) in
    (h'', rw (run, run'), kept' ∙ kept, t'')

abbrev with_locals : Machine → Objects → List Entry → Machine
with_locals m h s = record m { objects = h; locals_stack = s }

-- The index, as a word, of the local `k` places below the top.
abbrev pub local : ℕ → ℕ
local k = word - 1 - k

set_local_run :
    (m : Machine) (k : ℕ) (old top : Entry) (h : Objects)
    → k < length m.locals_stack
    → length m.locals_stack < 2 ^ 63
    → get_elem? m.locals_stack k ≡ some old
    → replace_entry m.objects old top ≡ ok h
    → set_local m (local k) top ≡ ok (with_locals m h (set m.locals_stack k top))
unfolding set_local local_index sp_of
set_local_run m k old top h lt small e run =
    let below : leb k ((length m.locals_stack + minus_one) % word) ≡ true = ground arith in
    let back : word - 1 - (word - 1 - k) ≡ k = omega arith in
    let offset : (1 + (word - 1 - k)) % word ≡ negate k = omega arith in
    rw back
      (rw below (rw offset (rw (peek_at-negate m.locals_stack k old (omega arith) e) (rw run))))

setmem_int_run :
    (m m' m'' : Machine) (k : ℕ) (top : Entry)
    → k < 2 ^ 63
    → pop_top m ≡ ok (top, m')
    → set_local m' (local k) top ≡ ok m''
    → setmem_int m (local k) ≡ ok m''
unfolding setmem_int
setmem_int_run m m' m'' k top lt popped run =
    let negative : leb (2 ^ 63) (local k) ≡ true = ground arith in rw popped (rw negative run)

getmem_int_run :
    (m m' : Machine) (k : ℕ) (d : Entry)
    → k < 2 ^ 63
    → get_elem? m.locals_stack k ≡ some d
    → push_data m d ≡ ok m'
    → getmem_int m (local k) ≡ ok m'
unfolding getmem_int
getmem_int_run m m' k d lt e run =
    let negative : leb (2 ^ 63) (local k) ≡ true = ground arith in
    let offset : (1 + (word - 1 - k)) % word ≡ negate k = omega arith in
    rw negative (rw offset (rw (peek_at-negate m.locals_stack k d (omega arith) e) run))

-- An entry that refers to nothing.
abbrev blank : Entry
blank = record { type = 0; value = 0 }

no_blank : (o : ℕ) → held_by blank o ≡ 0
unfolding managed
no_blank o = refl

-- Storing the top of the stack into a local variable and loading the variable brings the entry back,
-- the variable has it, and the counts are right. There are fewer than 2 ^ 63 locals.
pub getmem_int-setmem_int :
    (elsewhere : ℕ → ℕ) (m : Machine) (k : ℕ) (e old : Entry) (s : List Entry)
    → Counted elsewhere m
    → m.data_stack ≡ e ∷ s
    → get_elem? m.locals_stack k ≡ some old
    → k < length m.locals_stack
    → length m.locals_stack < 2 ^ 63
    → (h : Objects) × ((setmem_int m (local k) >>= λ m'. getmem_int m' (local k))
        ≡ ok (record m { objects = h; data_stack = e ∷ s; locals_stack = set m.locals_stack k e }))
      × Counted elsewhere
          (record m { objects = h; data_stack = e ∷ s; locals_stack = set m.locals_stack k e })
getmem_int-setmem_int elsewhere m k e old s t top there lt small =
    let (h, popped, kept, t') = pop_top-Counted elsewhere m t e s top in
    let m' = with_data m h s in
    let live : IsLive m.objects e = stack-IsLive elsewhere m (e ∷ s) 0 e t top refl in
    let n : ℕ → ℕ =
      λ o. elsewhere o + held_by_thread (with_locals m' h (set m.locals_stack k blank)) o in
    let (h', run, kept', t'') =
      replace_entry-Tracks h n old e
        (Tracks-congr h _ _ t'
          (λ o. omega (arith, held_in-set m.locals_stack k blank old o there, no_blank o)))
        (λ q. ap (λ f. f e.value) kept ∙ live q) in
    let m'' = with_locals m' h' (set m.locals_stack k e) in
    let counted : Counted elsewhere m'' = Tracks-congr h' _ _ t'' (λ o. omega (
      arith,
      held_in-set m.locals_stack k blank old o there,
      no_blank o,
      held_in-set m.locals_stack k e old o there,
    )) in
    let (h'', pushed, kept'', t3) =
      push_data-Counted elsewhere m'' counted e
        (λ q. ap (λ f. f e.value) (kept' ∙ kept) ∙ live q) in
    (
      h'',
      ap (λ r. r >>= λ x. getmem_int x (local k))
            (setmem_int_run m m' m'' k e (omega arith) popped
              (set_local_run m' k old e h' lt small there run))
          ∙ getmem_int_run m'' _ k e (omega arith) (get_elem?-set_self m.locals_stack k e lt)
              pushed,
      t3,
    )
