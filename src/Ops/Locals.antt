-- ===== src/Ops/Locals.antt =====
-- `vm_op_enter_Int` and `vm_op_leave_Int` of src/ops/bml_vm.c: local variables.
use tinyaml.Prelude.{
  ℕ, zero, suc, ◌≡◌, ◌≤◌, ◌<◌, ◌+◌, ◌^◌, refl, sym, ◌∙◌, ap, subst, arith, ok, List, [], ◌∷◌, ◌++◌,
  true, false, drop, take, length, replicate, map, take-append_self, length-reverse, length-take,
  length-replicate, drop-append_self, length-append, ltb, lt→ltb, ◌==◌, ◌||◌,
}
use mathlib.Core.List.{reverse, reverse-append}
use tinyaml.Objects.{Objects, Entry, managed}
use tinyaml.Objects.Counts.{Tracks, Tracks-congr}
use tinyaml.Objects.Entries.{held_in, held_in-append, entry_deref-Tracks}
use tinyaml.Machine.{Machine}
use tinyaml.Machine.Roots.{Counted, held_by_thread}
use tinyaml.Ops.Stack.{tokens_above, enter_int, leave_int, clear_locals, cleared}

-- No entry refers to an object.
abbrev pub AreUnmanaged : List Entry → Type 0
AreUnmanaged [] = Unit {0}
AreUnmanaged (d ∷ ds) = (managed d.type ≡ false) × AreUnmanaged ds

held_in-AreUnmanaged : (ds : List Entry) (o : ℕ) → AreUnmanaged ds → held_in ds o ≡ 0
held_in-AreUnmanaged [] o u = refl
held_in-AreUnmanaged (d ∷ ds) o u = rw (u.0) (omega (arith, held_in-AreUnmanaged ds o (u.1)))

append-AreUnmanaged :
    (ds es : List Entry) → AreUnmanaged ds → AreUnmanaged es → AreUnmanaged (ds ++ es)
append-AreUnmanaged [] es u v = v
append-AreUnmanaged (d ∷ ds) es u v = (u.0, append-AreUnmanaged ds es (u.1) v)

take-AreUnmanaged : (n : ℕ) (ds : List Entry) → AreUnmanaged ds → AreUnmanaged (take n ds)
take-AreUnmanaged zero ds u = _
take-AreUnmanaged (suc n) [] u = _
take-AreUnmanaged (suc n) (d ∷ ds) u = (u.0, take-AreUnmanaged n ds (u.1))

drop-AreUnmanaged : (n : ℕ) (ds : List Entry) → AreUnmanaged ds → AreUnmanaged (drop n ds)
drop-AreUnmanaged zero ds u = u
drop-AreUnmanaged (suc n) [] u = _
drop-AreUnmanaged (suc n) (d ∷ ds) u = drop-AreUnmanaged n ds (u.1)

reverse-AreUnmanaged : (ds : List Entry) → AreUnmanaged ds → AreUnmanaged (reverse ds)
reverse-AreUnmanaged [] u = _
reverse-AreUnmanaged (d ∷ ds) u =
    subst AreUnmanaged (sym (reverse-append (d ∷ []) ds))
      (append-AreUnmanaged (reverse ds) (d ∷ []) (reverse-AreUnmanaged ds (u.1)) (u.0, _))

blank-AreUnmanaged : (n : ℕ) → AreUnmanaged (replicate n (record { type = 0; value = 0 }))
unfolding managed
blank-AreUnmanaged zero = _
blank-AreUnmanaged (suc n) = (refl, blank-AreUnmanaged n)

cleared_type : (d : Entry) → managed (cleared d).type ≡ false
unfolding cleared managed
cleared_type d = ground arith

cleared-AreUnmanaged : (ds : List Entry) → AreUnmanaged (map cleared ds)
cleared-AreUnmanaged [] = _
cleared-AreUnmanaged (d ∷ ds) = (cleared_type d, cleared-AreUnmanaged ds)

tokens_above-AreUnmanaged :
    (n : ℕ) (ds : List Entry) → AreUnmanaged ds → AreUnmanaged (tokens_above n ds)
unfolding tokens_above
tokens_above-AreUnmanaged n ds u =
    take-AreUnmanaged n _ (append-AreUnmanaged ds _ u (blank-AreUnmanaged n))

length-tokens_above : (n : ℕ) (ds : List Entry) → length (tokens_above n ds) ≡ n
unfolding tokens_above
length-tokens_above n ds =
    let blank : Entry = record { type = 0; value = 0 } in
    omega (
      arith,
      length-take n (ds ++ replicate n blank),
      length-append ds (replicate n blank),
      length-replicate n blank,
    )

-- Clearing locals gives back the references that they hold.
clear_locals-Tracks :
    (elsewhere : ℕ → ℕ) (ds rest : List Entry) (m : Machine)
    → Tracks m.objects (λ o. elsewhere o + held_in ds o)
    → (h : Objects) × (clear_locals (length ds) (ds ++ rest) m ≡ ok (record m { objects = h }))
      × Tracks h elsewhere
unfolding clear_locals
clear_locals-Tracks elsewhere [] rest m t =
    (m.objects, refl, Tracks-congr m.objects _ _ t (λ o. omega arith))
clear_locals-Tracks elsewhere (d ∷ ds) rest m t =
    let (h, run, kept, t') =
      entry_deref-Tracks m.objects (λ o. elsewhere o + held_in ds o) d
        (Tracks-congr m.objects _ _ t (λ o. omega arith)) in
    let (h', run', t'') = clear_locals-Tracks elsewhere ds rest (record m { objects = h }) t' in
    (h', rw run run', t'')

abbrev entered : Machine → ℕ → Machine
entered m n = record m {
  locals_stack = reverse (tokens_above n m.locals_above) ++ m.locals_stack;
  locals_above = drop n m.locals_above;
}

-- Entering reserves as many locals as it is told, fewer than 16384, which refer to no object, when no
-- entry above the stack refers to one; the counts stay right.
pub enter_int-Counted :
    (elsewhere : ℕ → ℕ) (m : Machine) (n : ℕ)
    → Counted elsewhere m
    → AreUnmanaged m.locals_above
    → n < 16384
    → (m' : Machine) × (fresh : List Entry) × (enter_int m n ≡ ok m')
      × Counted elsewhere m'
      × (m'.locals_stack ≡ fresh ++ m.locals_stack)
      × (length fresh ≡ n)
      × AreUnmanaged fresh
      × AreUnmanaged m'.locals_above
unfolding enter_int tokens_above
enter_int-Counted elsewhere m n t u lt =
    let fresh = reverse (tokens_above n m.locals_above) in
    let v = reverse-AreUnmanaged _ (tokens_above-AreUnmanaged n m.locals_above u) in
    (
      entered m n,
      fresh,
      rw (lt→ltb n 16384 lt),
      Tracks-congr m.objects _ _ t (λ o.
          omega (arith, held_in-append fresh m.locals_stack o, held_in-AreUnmanaged fresh o v)),
      refl,
      length-reverse (tokens_above n m.locals_above) ∙ length-tokens_above n m.locals_above,
      v,
      drop-AreUnmanaged n m.locals_above u,
    )

leave_int_run :
    (m : Machine) (n : ℕ) (h : Objects)
    → n < 2 ^ 63
    → n ≤ length m.locals_stack
    → clear_locals n m.locals_stack m ≡ ok (record m { objects = h })
    → leave_int m n
      ≡ ok (record m {
        objects = h;
        locals_stack = drop n m.locals_stack;
        locals_above = reverse (map cleared (take n m.locals_stack)) ++ m.locals_above;
      })
unfolding leave_int
leave_int_run m n h lt le run =
    let there : (n == 0 || ltb 0 (length m.locals_stack)) ≡ true = ground arith in
    rw (lt→ltb n (2 ^ 63) lt) (rw there (rw run))

-- Leaving takes the locals `mine` off, fewer than 2 ^ 63, gives back the references that they hold,
-- and leaves no entry that refers to an object above the stack if there was none.
pub leave_int-Counted :
    (elsewhere : ℕ → ℕ) (m : Machine) (mine rest : List Entry)
    → Counted elsewhere m
    → AreUnmanaged m.locals_above
    → m.locals_stack ≡ mine ++ rest
    → length mine < 2 ^ 63
    → (h : Objects) × (above : List Entry) × (leave_int m (length mine)
        ≡ ok (record m { objects = h; locals_stack = rest; locals_above = above }))
      × Counted elsewhere (record m { objects = h; locals_stack = rest })
      × AreUnmanaged above
leave_int-Counted elsewhere m mine rest t u eq lt =
    let others : ℕ → ℕ = λ o. elsewhere o + held_by_thread (record m { locals_stack = rest }) o in
    let (h, run, t') = clear_locals-Tracks others mine rest m (
      Tracks-congr m.objects _ _ t
        (λ o. omega (arith, ap (λ s. held_in s o) eq, held_in-append mine rest o))) in
    let above = reverse (map cleared mine) ++ m.locals_above in
    let left : List Entry → Machine = λ s. record m {
      objects = h;
      locals_stack = drop (length mine) s;
      locals_above = reverse (map cleared (take (length mine) s)) ++ m.locals_above;
    } in
    (
      h,
      above,
      leave_int_run m (length mine) h lt (omega (arith, ap length eq, length-append mine rest))
            (ap (λ s. clear_locals (length mine) s m) eq ∙ run)
          ∙ ap (λ s. ok (left s)) eq
          ∙ (λ i. ok (record m {
            objects = h;
            locals_stack = drop-append_self mine rest i;
            locals_above = reverse (map cleared (take-append_self mine rest i)) ++ m.locals_above;
          })),
      t',
      append-AreUnmanaged _ _ (reverse-AreUnmanaged _ (cleared-AreUnmanaged mine)) u,
    )
