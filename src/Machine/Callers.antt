-- ===== src/Machine/Callers.antt =====
-- The call stack: calling, returning, and unwinding to a catcher (src/vm/vm.c).
use tinyaml.Prelude.{
  ℕ, zero, suc, ◌≡◌, ◌≤◌, ◌<◌, ◌+◌, ◌^◌, refl, sym, ◌∙◌, ap, arith, ok, List, [], ◌∷◌, ◌++◌, true,
  drop, length, Option, none, some, Run, ◌>>=◌, ◌==◌, if◌then◌else◌, ltb, length-append,
  length-drop, drop_all, lt→ltb,
}
use tinyaml.Gstack.{biased}
use tinyaml.Objects.{Objects, ref_ptr, deref_ptr}
use tinyaml.Objects.Counts.{Tracks, Tracks-congr, ref_ptr-Tracks, deref_ptr-Tracks}
use tinyaml.Machine.{Machine, Frame, push_caller, pop_frame, pop_token, unwind, sp_of}
use tinyaml.Machine.Roots.{Counted, held_by_thread, held_by_callee, held_in_callers}

abbrev pub with_calls : Machine → Objects → List Frame → List ℕ → Machine
with_calls m h fs cs = record m { objects = h; call_stack = fs; closures_stack = cs }

-- A run that comes to `m` with the given callers and closures, all else but the objects unchanged,
-- and with the counts right.
abbrev pub LeavesCalls : (ℕ → ℕ) → Machine → Run Machine → List Frame → List ℕ → Type 0
LeavesCalls elsewhere m r fs cs =
    (h : Objects) × (r ≡ ok (with_calls m h fs cs))
    × (h.is_object ≡ m.objects.is_object)
    × Counted elsewhere (with_calls m h fs cs)

-- The function that a frame returns from is an object.
abbrev pub IsCallee : Objects → Option ℕ → Type 0
IsCallee h none = Unit {0}
IsCallee h (some p) = h.is_object p ≡ true

callee_ref-Tracks :
    (h : Objects) (n : ℕ → ℕ) (c : Option ℕ)
    → Tracks h n
    → IsCallee h c
    → (h' : Objects) × (elim c [ none ↦ ok h | some p ↦ ref_ptr h p ] ≡ ok h')
      × (h'.is_object ≡ h.is_object)
      × Tracks h' (λ o. n o + held_by_callee c o)
callee_ref-Tracks h n none t live = (h, refl, refl, Tracks-congr h _ _ t (λ o. omega arith))
callee_ref-Tracks h n (some p) t live = ref_ptr-Tracks h n p t live

callee_deref-Tracks :
    (h : Objects) (n : ℕ → ℕ) (c : Option ℕ)
    → Tracks h (λ o. n o + held_by_callee c o)
    → (h' : Objects) × (elim c [ none ↦ ok h | some p ↦ deref_ptr h p ] ≡ ok h')
      × (h'.is_object ≡ h.is_object)
      × Tracks h' n
callee_deref-Tracks h n none t = (h, refl, refl, Tracks-congr h _ _ t (λ o. omega arith))
callee_deref-Tracks h n (some p) t = deref_ptr-Tracks h n p t

-- The closures that the frames brought.
abbrev pub closure_count : List Frame → ℕ
closure_count [] = 0
closure_count (f ∷ fs) = (if f.has_closure == 0 then 0 else 1) + closure_count fs

abbrev pub closures_left : Frame → List ℕ → List ℕ
closures_left f cs = drop (if f.has_closure == 0 then 0 else 1) cs

closures_pop :
    (f : Frame) (cs : List ℕ)
    → closure_count (f ∷ []) ≤ length cs
    → (if f.has_closure == 0 then ok cs else (pop_token cs >>= λ q. ok (q.1)))
      ≡ ok (closures_left f cs)
unfolding pop_token
closures_pop f [] le = ground arith
closures_pop f (c ∷ cs) le = ground arith

pop_frame_run :
    (m : Machine) (f : Frame) (fs : List Frame) (h : Objects)
    → m.call_stack ≡ f ∷ fs
    → closure_count (f ∷ []) ≤ length m.closures_stack
    → elim f.df_callee [ none ↦ ok m.objects | some p ↦ deref_ptr m.objects p ] ≡ ok h
    → pop_frame m ≡ ok (with_calls m h fs (closures_left f m.closures_stack))
unfolding pop_frame pop_token
pop_frame_run m f fs h top le run = rw top (rw (closures_pop f m.closures_stack le) (rw run))

module _ (elsewhere : ℕ → ℕ) (m : Machine) (t : Counted elsewhere m) where
  -- Calling: the frame's function is kept alive while it runs.
  pub push_caller-Counted :
      (f : Frame)
      → IsCallee m.objects f.df_callee
      → LeavesCalls elsewhere m (push_caller m f) (f ∷ m.call_stack) m.closures_stack
  unfolding push_caller
  push_caller-Counted f live =
      let (h, run, kept, t') = callee_ref-Tracks m.objects _ f.df_callee t live in
      (h, rw run, kept, Tracks-congr h _ _ t' (λ o. omega arith))

  -- Returning from the top frame.
  pub pop_frame-Counted :
      (f : Frame) (fs : List Frame)
      → m.call_stack ≡ f ∷ fs
      → closure_count (f ∷ []) ≤ length m.closures_stack
      → LeavesCalls elsewhere m (pop_frame m) fs (closures_left f m.closures_stack)
  pop_frame-Counted f fs top le =
      let given : Counted (λ o. elsewhere o + held_by_callee f.df_callee o)
          (with_calls m m.objects fs m.closures_stack) =
        Tracks-congr m.objects _ _ t (λ o. omega (arith, ap (λ y. held_in_callers y o) top)) in
      let (h, run, kept, t') =
        callee_deref-Tracks m.objects
          (λ o. elsewhere o + held_by_thread (with_calls m m.objects fs m.closures_stack) o)
          f.df_callee (Tracks-congr m.objects _ _ given (λ o. omega arith)) in
      (h, pop_frame_run m f fs h top le run, kept, t')

drop-drop_some : (b k : ℕ) (cs : List ℕ) → b ≤ 1 → drop k (drop b cs) ≡ drop (b + k) cs
drop-drop_some zero k cs le = ap (λ x. drop x cs) (omega arith)
drop-drop_some (suc b) k [] le =
    drop_all k [] (omega arith) ∙ sym (drop_all (suc b + k) [] (omega arith))
drop-drop_some (suc b) k (c ∷ cs) le =
    let e : b ≡ 0 = omega arith in let e' : suc b + k ≡ suc k = omega arith in rw e' (rw e refl)

closures_left_le :
    (f : Frame) (fs : List Frame) (cs : List ℕ)
    → closure_count (f ∷ fs) ≤ length cs
    → closure_count fs ≤ length (closures_left f cs)
closures_left_le f fs cs le = omega (arith, length-drop (if f.has_closure == 0 then 0 else 1) cs)

biased-sp_of :
    (fs : List Frame) → length fs < 2 ^ 63 → biased (sp_of fs) ≡ length fs + 9223372036854775807
unfolding sp_of
biased-sp_of fs lt = omega arith

above_limit :
    (f : Frame) (fs base : List Frame)
    → length (f ∷ (fs ++ base)) < 2 ^ 63
    → ltb (biased (sp_of base)) (biased (sp_of (f ∷ (fs ++ base)))) ≡ true
above_limit f fs base lt = lt→ltb _ _ (
    omega (
      arith,
      length-append fs base,
      biased-sp_of base (omega (arith, length-append fs base)),
      biased-sp_of (f ∷ (fs ++ base)) lt,
    ))

unwind_more :
    (fuel : ℕ) (m m' : Machine) (limit : ℕ)
    → ltb (biased limit) (biased (sp_of m.call_stack)) ≡ true
    → pop_frame m ≡ ok m'
    → unwind (suc fuel) m limit ≡ unwind fuel m' limit
unfolding unwind
unwind_more fuel m m' limit above run = ground arith

unwind_done :
    (fuel : ℕ) (m : Machine) (base : List Frame)
    → m.call_stack ≡ base
    → unwind (suc fuel) m (sp_of base) ≡ ok m
unfolding unwind
unwind_done fuel m base eq =
    let same : sp_of m.call_stack ≡ sp_of base = ap sp_of eq in ground arith

-- Unwinding pops the callers above `base`, and as many closures as they brought.
pub unwind-Counted :
    (elsewhere : ℕ → ℕ) (above base : List Frame) (extra : ℕ) (m : Machine)
    → Counted elsewhere m
    → m.call_stack ≡ above ++ base
    → length (above ++ base) < 2 ^ 63
    → closure_count above ≤ length m.closures_stack
    → LeavesCalls elsewhere m
        (unwind (suc (length above + extra)) m (sp_of base))
        base
        (drop (closure_count above) m.closures_stack)
unwind-Counted elsewhere [] base extra m t eq lt le = (
  m.objects,
  unwind_done (0 + extra) m base eq ∙ (λ i. ok (record m { call_stack = eq i })),
  refl,
  Tracks-congr m.objects _ _ t (λ o. omega (arith, ap (λ y. held_in_callers y o) eq)),
)
unwind-Counted elsewhere (f ∷ fs) base extra m t eq lt le =
    let (h, run, kept, t') = pop_frame-Counted elsewhere m t f (fs ++ base) eq (omega arith) in
    let m' = with_calls m h (fs ++ base) (closures_left f m.closures_stack) in
    let (h', run', kept', t'') =
      unwind-Counted elsewhere fs base extra m' t' refl (omega arith)
        (closures_left_le f fs m.closures_stack le) in
    (
      h',
      unwind_more (suc (length fs) + extra) m m' (sp_of base)
            (ap (λ x. ltb (biased (sp_of base)) (biased (sp_of x))) eq ∙ above_limit f fs base lt)
            run
          ∙ ap (λ x. unwind x m' (sp_of base)) (omega arith)
          ∙ run'
          ∙ (λ i. ok (
              with_calls m h' base (
                drop-drop_some (if f.has_closure == 0 then 0 else 1) (closure_count fs)
                  m.closures_stack (ground arith) i))),
      kept' ∙ kept,
      t'',
    )
