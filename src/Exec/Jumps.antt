-- ===== src/Exec/Jumps.antt =====
-- Where a thread goes on: the end of `vm_exec_cycle` of src/vm/vm.c.
use tinyaml.Prelude.{
  ℕ, ◌≡◌, ◌≢◌, ◌≤◌, ◌<◌, ◌+◌, ◌-◌, ◌%◌, ◌/◌, ◌^◌, refl, sym, ◌∙◌, ap, subst, arith, ok, some, true,
  false, ◌==◌, not, >>=-eq-ok, Bool-cases, inl, inr, ◌⊎◌,
}
use tinyaml.Gstack.{word}
use tinyaml.Dynarray.{Dynarray}
use tinyaml.Threads.{ThreadState, thread_set_state}
use tinyaml.Machine.{Machine}
use tinyaml.Ops.Control.{add_word, jmp_label}
use tinyaml.Exec.{advance, iterate, iterate_if, let_die, state_of, is_dying}

-- An offset is that of an instruction in a segment of `size` words.
abbrev pub IsInstruction : ℕ → ℕ → Type 0
IsInstruction size ip = (ip % 2 ≡ 0) × (ip + 2 ≤ size)

ok_inj : {m m' : Machine} → ok m ≡ ok m' → m ≡ m'
ok_inj e = cc

ok_pair_inj : {x y : Machine × ThreadState} → ok x ≡ ok y → (x.0 ≡ y.0) × (x.1 ≡ y.1)
ok_pair_inj {x} {y} e = let same : x ≡ y = cc in (ap (λ r. r.0) same, ap (λ r. r.1) same)

next_lem : (ip : ℕ) → ip < 2 ^ 31 → add_word ip 2 ≡ ip + 2
unfolding add_word
next_lem ip lt = omega arith

module _ (code : ℕ → Dynarray ℕ) where
  -- The thread stands in its code, and so does the jump that it has to make, if any.
  pub record IsInCode (m : Machine) : Type 0 where
    pub here : IsInstruction (code m.program).size m.ip
    pub there : (m.jmp_ofs ≡ 0) ⊎ IsInstruction (code m.jmp_seg).size m.jmp_ofs
    pub even : (p : ℕ) → (code p).size % 2 ≡ 0
    pub small : (p : ℕ) → (code p).size < 2 ^ 31

  -- What a thread's death leaves alone.
  abbrev Stays : Machine → Machine → Type 0
  Stays m m' = (m'.ip ≡ m.ip) × (m'.program ≡ m.program) × (m'.jmp_ofs ≡ m.jmp_ofs)

  let_die_keeps : (m m' : Machine) → let_die m ≡ ok m' → Stays m m'
  unfolding let_die
  let_die_keeps m m' e = elim (Bool-cases (is_dying (state_of m))) [
    | inl d ↦
        (let same : m ≡ m' = ok_inj (rw d at e) in
          (
            ap (λ x. x.ip) (sym same),
            ap (λ x. x.program) (sym same),
            ap (λ x. x.jmp_ofs) (sym same),
          ))
    | inr d ↦
        (let (v, run, same) =
            >>=-eq-ok (thread_set_state 0 m.vm m.self ThreadState.dying) (rw d at e) in
          let q = ok_inj same in
          (ap (λ x. x.ip) (sym q), ap (λ x. x.program) (sym q), ap (λ x. x.jmp_ofs) (sym q)))
  ]

  iterate_run :
      (m m' : Machine) (t : ℕ)
      → m.vm.current ≡ some t
      → advance code m ≡ ok m'
      → m'.ip < 2 ^ 31
      → iterate code m ≡ ok (m', state_of m')
  unfolding iterate iterate_if
  iterate_run m m' t current run lt =
      let positive : ((m'.ip / 2 ^ 31) % 2 == 1) ≡ false = ground arith in
      ap (λ c. iterate_if code c m) current ∙ rw run (rw positive)

  -- A jump to an offset that is not 0 sets the program and the offset.
  pub iterate_jump :
      (m : Machine) (t : ℕ)
      → m.vm.current ≡ some t
      → m.jmp_ofs ≢ 0
      → m.jmp_ofs < 2 ^ 31
      → iterate code m
        ≡ ok (record m { program = m.jmp_seg; ip = m.jmp_ofs; jmp_ofs = 0 }, state_of m)
  unfolding advance
  iterate_jump m t current ne lt =
      let jumps : not (m.jmp_ofs == 0) ≡ true = ground arith in
      iterate_run m (record m { program = m.jmp_seg; ip = m.jmp_ofs; jmp_ofs = 0 }) t current
        (rw jumps) lt

  -- The current thread, when it is to jump to the first instruction of its program from one that is
  -- not the last, goes on behind the jump. The program is shorter than 2 ^ 31 words.
  pub jmp_label_to_start :
      (m : Machine) (t rel_ofs : ℕ)
      → m.vm.current ≡ some t
      → add_word m.ip rel_ofs ≡ 0
      → m.ip + 2 < (code m.program).size
      → (code m.program).size < 2 ^ 31
      → iterate code (jmp_label m rel_ofs)
        ≡ ok (record m { ip = m.ip + 2; jmp_ofs = 0 }, state_of m)
  unfolding advance jmp_label
  jmp_label_to_start m t rel_ofs current start lt small =
      let m' : Machine = jmp_label m rel_ofs in
      let no_jump : not (add_word m.ip rel_ofs == 0) ≡ false = ground arith in
      let inside : (m.ip == ((code m.program).size + word - 2) % word) ≡ false = ground arith in
      let next : add_word m.ip 2 ≡ m.ip + 2 = next_lem m.ip (omega arith) in
      iterate_run m' (record m { ip = m.ip + 2; jmp_ofs = 0 }) t current
        (rw no_jump (rw inside (λ i. ok (record m { ip = next i; jmp_ofs = start i }))))
        (omega arith)

  abbrev Stands : Machine → Type 0
  Stands m = IsInstruction (code m.program).size m.ip × (m.jmp_ofs ≡ 0)

  jump_target :
      (m : Machine) → IsInCode m → m.jmp_ofs ≢ 0 → IsInstruction (code m.jmp_seg).size m.jmp_ofs
  jump_target m c ne = elim c.there [ inl z ↦ absurd (ne z) | inr h ↦ h ]

  next_stands :
      (m : Machine)
      → IsInCode m
      → (m.ip == ((code m.program).size + word - 2) % word) ≡ false
      → IsInstruction (code m.program).size (add_word m.ip 2)
  unfolding add_word
  next_stands m c more =
      let small : (code m.program).size < 2 ^ 31 = c.small m.program in
      let even : (code m.program).size % 2 ≡ 0 = c.even m.program in
      (ground (arith, c.here.0, c.here.1), ground (arith, c.here.0, c.here.1))

  advance-IsInCode :
      (m m' : Machine)
      → IsInCode m
      → advance code m ≡ ok m'
      → IsInstruction (code m'.program).size m'.ip × (m'.jmp_ofs ≡ 0)
  unfolding advance
  advance-IsInCode m m' c e = elim (Bool-cases (not (m.jmp_ofs == 0))) [
    | inl j ↦ subst Stands (ok_inj (rw j at e)) (jump_target m c (ground arith), refl)
    | inr j ↦ elim (Bool-cases (m.ip == ((code m.program).size + word - 2) % word)) [
      | inl last ↦
          (let (ip', program', jmp') = let_die_keeps m m' (rw last at (rw j at e)) in
            let size : (code m'.program).size ≡ (code m.program).size =
              ap (λ p. (code p).size) program' in
            let stands : IsInstruction (code m'.program).size m'.ip =
              (omega (arith, ip', c.here.0), omega (arith, ip', size, c.here.1)) in
            (stands, jmp' ∙ ground arith))
      | inr more ↦
          subst Stands (ok_inj (rw more at (rw j at e))) (next_stands m c more, ground arith)
    ]
  ]

  -- When the current thread stands in its code, and going on does not trap, it stands in its code
  -- again, with no jump pending, and the state that is returned is its own. Every code has an even
  -- number of words, fewer than 2 ^ 31.
  pub iterate-IsInCode :
      (m m' : Machine) (t : ℕ) (st : ThreadState)
      → m.vm.current ≡ some t
      → IsInCode m
      → iterate code m ≡ ok (m', st)
      → IsInCode m' × (m'.jmp_ofs ≡ 0) × (st ≡ state_of m')
  unfolding iterate iterate_if
  iterate-IsInCode m m' t st current c e =
      let (m'', run, rest) =
        >>=-eq-ok (advance code m) (sym (ap (λ x. iterate_if code x m) current) ∙ e) in
      let (here, left) = advance-IsInCode m m'' c run in
      let ends : ok (m'', state_of m'') ≡ ok (m', st) =
        sym (iterate_run m m'' t current run (omega (arith, here.1, c.small m''.program))) ∙ e in
      let (same, state) = ok_pair_inj ends in
      let in_code : IsInCode m'' = record {
        here = here;
        there = inl left;
        even = c.even;
        small = c.small;
      } in
      (
        subst IsInCode same in_code,
        ap (λ x. x.jmp_ofs) (sym same) ∙ left,
        sym state ∙ ap state_of same,
      )
