-- ===== src/Ops/Returns.antt =====
-- `vm_op_ret_Int`, `vm_op_retval_Int` and `vm_op_call_Label` of src/ops/bml_vm.c: what a call leaves
-- on the stacks when it returns.
use tinyaml.Prelude.{
  ℕ, suc, ◌≡◌, ◌≤◌, ◌<◌, ◌^◌, refl, ◌∙◌, ap, arith, ok, List, [], ◌∷◌, ◌++◌, true, drop, length,
  ◌>>=◌, none, length-append, drop-append_self, not, ◌==◌,
}
use tinyaml.Gstack.{minus_one}
use tinyaml.Objects.{Objects, Entry}
use tinyaml.Objects.Counts.{Tracks-congr}
use tinyaml.Objects.Entries.{IsLive, held_in}
use tinyaml.Machine.{
  Machine, Frame, sp_of, peek_at, pop_frame, pop_caller, peek_caller, push_caller, pop_data,
  poke_data, peek_data,
}
use tinyaml.Machine.Roots.{Counted}
use tinyaml.Machine.Stacks.{with_data, pop_data-Counted, poke_data-Counted}
use tinyaml.Machine.Callers.{closure_count, closures_left, pop_frame-Counted}
use tinyaml.Ops.Shuffle.{stack-IsLive}
use tinyaml.Ops.Control.{add_word, return, ret_int, retval_int, call_label}

return_run :
    (m m' : Machine) (f : Frame) (fs : List Frame)
    → m.call_stack ≡ f ∷ fs
    → pop_frame m ≡ ok m'
    → return m ≡ ok (record m' { jmp_seg = f.cs; jmp_ofs = add_word f.ip 2 })
unfolding return peek_caller peek_at pop_caller
return_run m m' f fs top run = rw run (rw top)

not_bottom :
    (m : Machine) (f : Frame) (fs : List Frame)
    → m.call_stack ≡ f ∷ fs
    → length fs < 2 ^ 63
    → not (sp_of m.call_stack == minus_one) ≡ true
unfolding sp_of
not_bottom m f fs top lt =
    let size : length m.call_stack ≡ suc (length fs) = ap length top in ground arith

ret_int_run :
    (m : Machine) (n : ℕ)
    → not (sp_of m.call_stack == minus_one) ≡ true
    → ret_int m n ≡ (pop_data m n >>= λ m'. return m')
unfolding ret_int
ret_int_run m n inside = rw inside

retval_int_run :
    (m : Machine) (n : ℕ) (d : Entry) (s : List Entry)
    → not (sp_of m.call_stack == minus_one) ≡ true
    → m.data_stack ≡ d ∷ s
    → retval_int m n ≡ (pop_data m n >>= λ m'. poke_data m' d >>= λ m''. return m'')
unfolding retval_int peek_data peek_at
retval_int_run m n d s inside top = rw inside (rw top)

-- The machine behind a call: the caller's frame is gone, and the thread is to go on behind the call.
abbrev pub returned : Machine → Objects → List Entry → Frame → List Frame → Machine
returned m h s f fs = record m {
  objects = h;
  data_stack = s;
  call_stack = fs;
  closures_stack = closures_left f m.closures_stack;
  jmp_seg = f.cs;
  jmp_ofs = add_word f.ip 2;
}

module _ (elsewhere : ℕ → ℕ) (m : Machine) (f : Frame) (fs : List Frame) (t : Counted elsewhere m)
    (top : m.call_stack ≡ f ∷ fs) (lt : length fs < 2 ^ 63)
    (le : closure_count (f ∷ []) ≤ length m.closures_stack) where
  -- Returning from the call whose frame is `f` takes the arguments off the data stack.
  pub ret_int-Counted :
      (args rest : List Entry)
      → m.data_stack ≡ args ++ rest
      → (h : Objects) × (ret_int m (length args) ≡ ok (returned m h rest f fs))
        × Counted elsewhere (returned m h rest f fs)
  ret_int-Counted args rest eq =
      let (h, run, kept, t') =
        pop_data-Counted elsewhere (length args) (args ++ rest) m t eq
          (omega (arith, length-append args rest)) in
      let m' = with_data m h (drop (length args) (args ++ rest)) in
      let (h', run', kept', t'') = pop_frame-Counted elsewhere m' t' f fs top le in
      (
        h',
        ret_int_run m (length args) (not_bottom m f fs top lt)
            ∙ ap (λ r. r >>= λ x. return x) run
            ∙ return_run m' _ f fs top run'
            ∙ (λ i. ok (returned m h' (drop-append_self args rest i) f fs)),
        Tracks-congr h' _ _ t''
            (λ o. omega (arith, ap (λ s. held_in s o) (drop-append_self args rest))),
      )

  -- Returning the top of the data stack from the call whose frame is `f`, with the arguments off,
  -- leaves it in the place of the entry below the arguments; the frame and its closure are gone, and
  -- the counts are right. The stack of callers is of fewer than 2 ^ 63 frames.
  pub retval_int-Counted :
      (d x : Entry) (args rest : List Entry)
      → m.data_stack ≡ d ∷ (args ++ x ∷ rest)
      → (h : Objects) × (retval_int m (suc (length args)) ≡ ok (returned m h (d ∷ rest) f fs))
        × Counted elsewhere (returned m h (d ∷ rest) f fs)
  retval_int-Counted d x args rest eq =
      let (h, run, kept, t') =
        pop_data-Counted elsewhere (suc (length args)) (d ∷ (args ++ x ∷ rest)) m t eq
          (omega (arith, length-append args (x ∷ rest))) in
      let m' = with_data m h (drop (length args) (args ++ x ∷ rest)) in
      let live : IsLive h d = λ q.
        ap (λ g. g d.value) kept
        ∙ stack-IsLive elsewhere m (d ∷ (args ++ x ∷ rest)) 0 d t eq refl q in
      let (h', run', kept', t'') =
        poke_data-Counted elsewhere m' t' d x rest (drop-append_self args (x ∷ rest)) live in
      let m'' = with_data m' h' (d ∷ rest) in
      let (h'', run'', kept'', t3) = pop_frame-Counted elsewhere m'' t'' f fs top le in
      (
        h'',
        retval_int_run m (suc (length args)) d (args ++ x ∷ rest) (not_bottom m f fs top lt) eq
            ∙ ap (λ r. r >>= λ y. poke_data y d >>= λ z. return z) run
            ∙ ap (λ r. r >>= λ z. return z) run'
            ∙ return_run m'' _ f fs top run'',
        t3,
      )

-- After `m` called by label and came to a machine `c`, whose callee pushed `args` and called no
-- further, `ret` with as many entries gives back the data, call and closure stacks of `m`, and leads
-- to the instruction behind the call.
pub ret_int-call_label :
    (elsewhere : ℕ → ℕ) (m m' c : Machine) (rel_ofs : ℕ) (args : List Entry)
    → call_label m rel_ofs ≡ ok m'
    → Counted elsewhere c
    → c.call_stack ≡ m'.call_stack
    → c.closures_stack ≡ m'.closures_stack
    → c.data_stack ≡ args ++ m.data_stack
    → length m.call_stack < 2 ^ 63
    → (h : Objects) × (ret_int c (length args)
        ≡ ok (record c {
          objects = h;
          data_stack = m.data_stack;
          call_stack = m.call_stack;
          closures_stack = m.closures_stack;
          jmp_seg = m.program;
          jmp_ofs = add_word m.ip 2;
        }))
      × Counted elsewhere
          (record c { objects = h; data_stack = m.data_stack; call_stack = m.call_stack })
unfolding call_label push_caller
ret_int-call_label elsewhere m m' c rel_ofs args called t calls closures stack lt =
    let f : Frame = record { cs = m.program; ip = m.ip; has_closure = 0; df_callee = none } in
    let top : c.call_stack ≡ f ∷ m.call_stack = calls ∙ cc in
    let same : c.closures_stack ≡ m.closures_stack = closures ∙ cc in
    let (h, run, t') =
      ret_int-Counted elsewhere c f m.call_stack t top lt (omega arith) args m.data_stack stack in
    (
      h,
      run ∙ (λ i.
          ok (record (returned c h m.data_stack f m.call_stack) { closures_stack = same i })),
      t',
    )
