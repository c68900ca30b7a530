-- ===== src/Ops/Division.antt =====
-- `vm_op_div` of src/ops/arithbin.c at zero.
use tinyaml.Prelude.{ℕ, ◌≡◌, ◌<◌, ◌^◌, ◌++◌, trap, Trap, List, [], ◌∷◌, Run, length}
use tinyaml.Objects.{Objects}
use tinyaml.Machine.{Machine, Frame, push_catcher}
use tinyaml.Machine.Callers.{closure_count}

-- A machine without a catcher, or one with a catcher that `b` installed before the frames `above` with
-- the closures `extra` were called.
pub data MayThrow (m : Machine) : Type 0 where
  uncaught : m.catch_stack ≡ [] → MayThrow m
  caught :
      (b : Machine) (seg ofs : ℕ) (above : List Frame) (extra : List ℕ)
      → m.catch_stack ≡ (push_catcher b seg ofs).catch_stack
      → m.call_stack ≡ above ++ b.call_stack
      → length (above ++ b.call_stack) < 2 ^ 63
      → m.closures_stack ≡ extra ++ b.closures_stack
      → length extra ≡ closure_count above
      → MayThrow m

-- How a machine with these catchers ends that throws, and divides by zero where it is caught.
abbrev pub thrown : List Frame → Trap
thrown [] = Trap.aborted
thrown (cse ∷ rest) = Trap.arithmetic

-- The division behind the throw.
abbrev refused : Machine → Run Machine
refused c = trap Trap.arithmetic
