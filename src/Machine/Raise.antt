-- ===== src/Machine/Raise.antt =====
-- Exceptions: `raise_exception` goes back to the innermost catcher (src/vm/vm.c).
use tinyaml.Prelude.{
  ℕ, suc, ◌≡◌, ◌<◌, ◌+◌, ◌^◌, sym, ◌∙◌, ap, arith, ok, trap, Trap, List, [], ◌∷◌, ◌++◌, drop,
  length, length-append, drop-append_self, none,
}
use tinyaml.Objects.{Objects, Entry, entry_ref}
use tinyaml.Objects.Counts.{Tracks-congr}
use tinyaml.Objects.Entries.{held_by, IsLive, entry_ref-Tracks}
use tinyaml.Machine.{Machine, Frame, raise_exception, push_catcher, unwind, sp_of}
use tinyaml.Machine.Roots.{Counted}
use tinyaml.Machine.Callers.{closure_count, unwind-Counted}

-- The machine after the exception is noted, before callers are popped.
abbrev raised : Machine → Objects → Entry → Frame → List Frame → Machine
raised m h exc cse rest = record m {
  objects = h;
  exception = exc;
  catch_stack = rest;
  jmp_seg = cse.cs;
  jmp_ofs = cse.ip;
}

raise_exception_run :
    (m m' : Machine) (h : Objects) (exc : Entry) (cse : Frame) (rest : List Frame)
    → entry_ref m.objects exc ≡ ok h
    → m.catch_stack ≡ cse ∷ rest
    → unwind (suc (length m.call_stack)) (raised m h exc cse rest) cse.has_closure ≡ ok m'
    → raise_exception m exc ≡ ok m'
unfolding raise_exception
raise_exception_run m m' h exc cse rest noted caught run = rw noted (rw caught run)

-- With no catcher the thread fails.
pub raise_exception_uncaught :
    (m : Machine) (h : Objects) (exc : Entry)
    → entry_ref m.objects exc ≡ ok h
    → m.catch_stack ≡ []
    → raise_exception m exc ≡ trap Trap.aborted
unfolding raise_exception
raise_exception_uncaught m h exc noted none_left = rw noted (rw none_left)

-- When `b` installed a catcher at `seg` and `ofs`, and `m` has since called into the frames `above`
-- with the closures `extra`, an exception raised by `m` comes to the catcher: the call, closure and
-- catch stacks are those of `b` again, the jump is to `seg` and `ofs`, the data and locals stacks
-- stay, and the counts are right when the reference of the exception is counted. The stacks of
-- callers are of fewer than 2 ^ 63 frames.
pub raise_exception-push_catcher :
    (elsewhere : ℕ → ℕ) (b m : Machine) (seg ofs : ℕ) (exc : Entry) (above : List Frame)
    (extra : List ℕ)
    → Counted elsewhere m
    → IsLive m.objects exc
    → m.catch_stack ≡ (push_catcher b seg ofs).catch_stack
    → m.call_stack ≡ above ++ b.call_stack
    → length (above ++ b.call_stack) < 2 ^ 63
    → m.closures_stack ≡ extra ++ b.closures_stack
    → length extra ≡ closure_count above
    → (h : Objects) × (raise_exception m exc
        ≡ ok (record m {
          objects = h;
          exception = exc;
          catch_stack = b.catch_stack;
          call_stack = b.call_stack;
          closures_stack = b.closures_stack;
          jmp_seg = seg;
          jmp_ofs = ofs;
        }))
      × Counted
          (λ o. elsewhere o + held_by exc o)
          (record m { objects = h; call_stack = b.call_stack })
unfolding push_catcher
raise_exception-push_catcher elsewhere b m seg ofs exc above extra t live caught calls lt closures
      some =
    let cse : Frame = record {
      cs = seg;
      ip = ofs;
      has_closure = sp_of b.call_stack;
      df_callee = none;
    } in
    let (h, noted, kept, t') = entry_ref-Tracks m.objects _ exc t live in
    let m' = raised m h exc cse b.catch_stack in
    let counted : Counted (λ o. elsewhere o + held_by exc o) m' =
      Tracks-congr h _ _ t' (λ o. omega arith) in
    let (h', run, kept', t'') =
      unwind-Counted (λ o. elsewhere o + held_by exc o) above b.call_stack (length b.call_stack) m'
        counted calls lt
        (omega (arith, ap length closures, length-append extra b.closures_stack)) in
    let fuel : suc (length m.call_stack) ≡ suc (length above + length b.call_stack) =
      omega (arith, ap length calls, length-append above b.call_stack) in
    let rest : drop (closure_count above) m.closures_stack ≡ b.closures_stack =
      ap (λ x. drop (closure_count above) x) closures
      ∙ ap (λ x. drop x (extra ++ b.closures_stack)) (sym some)
      ∙ drop-append_self extra b.closures_stack in
    (
      h',
      raise_exception_run m _ h exc cse b.catch_stack noted caught
            (ap (λ x. unwind x m' (sp_of b.call_stack)) fuel ∙ run)
          ∙ (λ i. ok (record m {
            objects = h';
            exception = exc;
            catch_stack = b.catch_stack;
            call_stack = b.call_stack;
            closures_stack = rest i;
            jmp_seg = seg;
            jmp_ofs = ofs;
          })),
      t'',
    )
