-- ===== src/Tests/Machines.antt =====
-- Runs of the models of include/object.h and of the stacks of src/vm/vm.c, and the theorems on the
-- opcodes at concrete inputs.
use tinyaml.Prelude.{
  ℕ, ◌≡◌, ◌≢◌, ◌<◌, ◌+◌, ◌-◌, ◌*◌, refl, arith, none, List, [], ◌∷◌, ◌++◌, ok, ◌>>=◌, length,
}
use tinyaml.Gstack.{word}
use tinyaml.Objects.{Objects, Entry, managed}
use tinyaml.Objects.Entries.{held_by}
use tinyaml.Machine.{Machine, Frame, raise_exception, push_catcher, push_caller}
use tinyaml.Machine.Roots.{Counted}
use tinyaml.Machine.Stacks.{Leaves}
use tinyaml.Machine.Raise.{raise_exception-push_catcher}
use tinyaml.Ops.Stack.{enter_int, leave_int}
use tinyaml.Ops.Control.{call_label, ret_int, retval_int, add_word}
use tinyaml.Ops.Integers.{
  int_add, int_div, int_mod, int_lt, magnitude, is_negative, opposed, divides, pos_part, neg_part,
  int_div-int_mod, int_lt_lem,
}
use tinyaml.Ops.Arith.{int_entry, bin_op}
use tinyaml.Ops.Memory.{setmem_int, getmem_int}
use tinyaml.Ops.Returns.{ret_int-call_label, retval_int-Counted, returned}
use tinyaml.Ops.Locals.{enter_int-Counted, leave_int-Counted, AreUnmanaged}
use tinyaml.Ops.Variables.{getmem_int-setmem_int, local}
use tinyaml.Ops.Binary.{bin_op-Counted}
use tinyaml.Ops.Arrays.{array_set_int}
use tinyaml.Ops.Items.{array_set_int-Counted}
use tinyaml.Ops.Control.{update}
use tinyaml.Tests.Fixtures.{array_7, counted_once, machine_with, host, nothing}

abbrev number : ℕ → Entry
number n = record { type = 1; value = n }

-- One array on the stack, between numbers.
abbrev three : Machine
three = machine_with (number 4 ∷ array_7 ∷ number 6 ∷ []) [] []

-- The array is in a local variable, and a number on the data stack.
abbrev stored : Machine
stored = machine_with (number 4 ∷ []) (number 5 ∷ array_7 ∷ []) []

stored-Counted : Counted nothing stored
unfolding managed
stored-Counted = counted_once _ (λ o. omega arith)

getmem_int-setmem_int_example :
    (h : Objects) × ((setmem_int stored (local 1) >>= λ m'. getmem_int m' (local 1))
      ≡ ok (record stored {
        objects = h;
        data_stack = number 4 ∷ [];
        locals_stack = number 5 ∷ number 4 ∷ [];
      }))
    × Counted nothing (record stored {
      objects = h;
      data_stack = number 4 ∷ [];
      locals_stack = number 5 ∷ number 4 ∷ [];
    })
getmem_int-setmem_int_example =
    getmem_int-setmem_int nothing stored 1 (number 4) array_7 [] stored-Counted refl refl
      (omega arith) (omega arith)

enter_int-Counted_example :
    (m' : Machine) × (fresh : List Entry) × (enter_int stored 3 ≡ ok m')
    × Counted nothing m'
    × (m'.locals_stack ≡ fresh ++ (number 5 ∷ array_7 ∷ []))
    × (length fresh ≡ 3)
    × AreUnmanaged fresh
    × AreUnmanaged m'.locals_above
enter_int-Counted_example = enter_int-Counted nothing stored 3 stored-Counted _ (omega arith)

leave_int-Counted_example :
    (h : Objects) × (above : List Entry) × (leave_int stored 2
      ≡ ok (record stored { objects = h; locals_stack = []; locals_above = above }))
    × Counted nothing (record stored { objects = h; locals_stack = [] })
    × AreUnmanaged above
leave_int-Counted_example =
    leave_int-Counted nothing stored (number 5 ∷ array_7 ∷ []) [] stored-Counted _ refl
      (omega arith)

-- In the callee, with the array as an argument.
abbrev frame : Frame
frame = record { cs = 3; ip = 8; has_closure = 0; df_callee = none }

abbrev called : Machine
called = machine_with (number 1 ∷ array_7 ∷ number 6 ∷ []) [] (frame ∷ [])

called-Counted : Counted nothing called
unfolding managed
called-Counted = counted_once _ (λ o. omega arith)

retval_int-Counted_example :
    (h : Objects) × (retval_int called 1
      ≡ ok (returned called h (number 1 ∷ number 6 ∷ []) frame []))
    × Counted nothing (returned called h (number 1 ∷ number 6 ∷ []) frame [])
retval_int-Counted_example =
    retval_int-Counted nothing called frame [] called-Counted refl (omega arith) (omega arith)
      (number 1) array_7 [] (number 6 ∷ []) refl

-- The caller, at offset 8 of program 3.
abbrev caller : Machine
caller = record (machine_with (number 6 ∷ []) [] []) { program = 3; ip = 8 }

ret_int-call_label_example :
    (h : Objects) × (ret_int called 2
      ≡ ok (record called {
        objects = h;
        data_stack = number 6 ∷ [];
        call_stack = [];
        closures_stack = [];
        jmp_seg = 3;
        jmp_ofs = add_word 8 2;
      }))
    × Counted nothing (record called { objects = h; data_stack = number 6 ∷ []; call_stack = [] })
unfolding call_label push_caller
ret_int-call_label_example =
    ret_int-call_label nothing caller
      (record caller { call_stack = frame ∷ []; jmp_ofs = add_word 8 20 }) called 20
      (number 1 ∷ array_7 ∷ []) refl called-Counted refl refl refl (omega arith)

-- The thread has called into `frame` since it installed a catcher.
abbrev guarded : Machine
guarded = push_catcher caller 3 40

abbrev thrower : Machine
thrower = record called { catch_stack = guarded.catch_stack }

thrower-Counted : Counted nothing thrower
unfolding managed
thrower-Counted = counted_once _ (λ o. omega arith)

raise_exception-push_catcher_example :
    (h : Objects) × (raise_exception thrower array_7
      ≡ ok (record thrower {
        objects = h;
        exception = array_7;
        catch_stack = [];
        call_stack = [];
        closures_stack = [];
        jmp_seg = 3;
        jmp_ofs = 40;
      }))
    × Counted (λ o. nothing o + held_by array_7 o) (record thrower { objects = h; call_stack = [] })
raise_exception-push_catcher_example =
    raise_exception-push_catcher nothing caller thrower 3 40 array_7 (frame ∷ []) [] thrower-Counted
      (λ e. refl) refl refl (omega arith) refl refl

-- Seven and -2, and nothing that is counted elsewhere than in the array's place.
abbrev numbers : Machine
numbers = machine_with (int_entry 5 ∷ int_entry 7 ∷ array_7 ∷ []) [] []

numbers-Counted : Counted nothing numbers
unfolding managed int_entry
numbers-Counted = counted_once _ (λ o. omega arith)

bin_op-Counted_example :
    Leaves nothing numbers (bin_op host int_add (λ x. λ y. 0) numbers) (int_entry 12 ∷ array_7 ∷ [])
unfolding int_add
bin_op-Counted_example =
    bin_op-Counted host nothing numbers int_add (λ x. λ y. 0) 7 5 12 (array_7 ∷ []) numbers-Counted
      refl refl

int_div-int_mod_example :
    (q : ℕ) × (r : ℕ) × (int_div (word - 7) 2 ≡ ok q)
    × (int_mod (word - 7) 2 ≡ ok r)
    × (magnitude q * magnitude 2 + magnitude r ≡ magnitude (word - 7))
    × (magnitude r < magnitude 2)
    × (magnitude q ≢ 0 → is_negative q ≡ opposed (word - 7) 2)
    × (magnitude r ≢ 0 → is_negative r ≡ is_negative (word - 7))
unfolding divides
int_div-int_mod_example = int_div-int_mod (word - 7) 2 (omega arith) (omega arith) refl

int_lt_lem_example :
    (int_lt (word - 7) 2 ≡ ok 1
      → pos_part (word - 7) + neg_part 2 < pos_part 2 + neg_part (word - 7))
    × (pos_part (word - 7) + neg_part 2 < pos_part 2 + neg_part (word - 7)
        → int_lt (word - 7) 2 ≡ ok 1)
int_lt_lem_example = int_lt_lem (word - 7) 2 (omega arith) (omega arith)

-- Five divided by zero, under a catcher.
abbrev dividing : Machine
dividing = record (machine_with (int_entry 0 ∷ int_entry 5 ∷ array_7 ∷ []) [] []) {
  catch_stack = guarded.catch_stack;
}

-- Arrays of two items, 0 and 9, and a number to store.
abbrev storing : Machine
storing = record (machine_with (number 4 ∷ array_7 ∷ []) [] []) {
  arrays = λ p. record { reserved = 4; size = 4; cells = 1 ∷ 0 ∷ 1 ∷ 9 ∷ [] };
}

storing-Counted : Counted (λ o. nothing o + held_by (number 9) o) storing
unfolding managed
storing-Counted = counted_once _ (λ o. omega arith)

array_set_int-Counted_example :
    (h : Objects) × (array_set_int host storing 1
      ≡ ok (record storing {
        objects = h;
        data_stack = array_7 ∷ [];
        arrays =
            update storing.arrays 7 (record { reserved = 4; size = 4; cells = 1 ∷ 0 ∷ 1 ∷ 4 ∷ [] });
      }))
    × Counted
        (λ o. nothing o + held_by (number 4) o)
        (record storing { objects = h; data_stack = array_7 ∷ [] })
array_set_int-Counted_example =
    array_set_int-Counted host nothing storing 7 1 (number 4) (number 9) [] storing-Counted refl
      refl refl (omega arith) (omega arith) (omega arith)
