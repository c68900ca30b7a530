-- ===== src/Exec/Receiver.antt =====
-- How `vm_exec_cycle` of src/vm/vm.c takes the receiver of a message off the data stack.
use tinyaml.Prelude.{
  suc, ◌≡◌, refl, arith, ok, List, [], ◌∷◌, ◌++◌, length, drop, true, ltb, lt→ltb, length-append,
  take-append_self,
}
use tinyaml.Objects.{Entry}
use tinyaml.Machine.{Machine, pop_token, peek_at}
use tinyaml.Ops.Stack.{swap_int}
use tinyaml.Exec.{move_receiver, drop_receiver}

drop-suc-append :
    (xs : List Entry) (x : Entry) (ys : List Entry) → drop (suc (length xs)) (xs ++ x ∷ ys) ≡ ys
drop-suc-append [] x ys = refl
drop-suc-append (z ∷ xs) x ys = drop-suc-append xs x ys

abbrev with_stack : Machine → List Entry → Machine
with_stack m s = record m { data_stack = s }

-- A receiver that stands right below the top is taken off. One that stands further down, below the
-- entries `a`, `b` and `between`, is taken off too, but `a` is lost and `b` stands there twice.
pub drop_receiver_lem :
    (m : Machine) (a b receiver : Entry) (between rest : List Entry)
    → (drop_receiver 1 (with_stack m (a ∷ receiver ∷ rest)) ≡ ok (with_stack m (a ∷ rest)))
      × (drop_receiver
            (suc (suc (length between)))
            (with_stack m (a ∷ b ∷ (between ++ receiver ∷ rest)))
          ≡ ok (with_stack m (b ∷ b ∷ (between ++ rest))))
unfolding drop_receiver move_receiver pop_token swap_int peek_at
drop_receiver_lem m a b receiver between rest =
    let enough : ltb (suc (suc (length between))) (suc (suc (length (between ++ receiver ∷ rest))))
        ≡ true =
      lt→ltb _ _ (omega (arith, length-append between (receiver ∷ rest))) in
    (
      refl,
      rw enough (
          rw (take-append_self between (receiver ∷ rest))
            (rw (drop-suc-append between receiver rest))),
    )
