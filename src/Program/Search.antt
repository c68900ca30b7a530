-- ===== src/Program/Search.antt =====
-- The loop of `lookup_label_by_offset` in src/vm/program.c, on offsets alone.
use tinyaml.Prelude.{
  ℕ, zero, suc, ◌+◌, ◌/◌, ◌<◌, ◌≤◌, ◌≡◌, ◌≢◌, ◌⊎◌, refl, arith, true, false, List, ◌==◌, length,
  get_or, ap, ◌∙◌, Bool-cases, inl, inr, if◌then◌else◌, ltb, ◌&&◌,
}
use tinyaml.Prelude.{ok}
use tinyaml.Dynarray.{Dynarray, alert_size}
use tinyaml.Program.{search_loop}
use tinyaml.Program.Code.{HasWords}
use tinyaml.Program.LabelTable.{load-HasWords}

-- Offsets that do not get smaller.
abbrev pub IsSorted : List ℕ → Type 0
IsSorted xs = (i j : ℕ) → i ≤ j → j < length xs → get_or xs i 0 ≤ get_or xs j 0

module _ {d : Dynarray ℕ} {xs : List ℕ} (v : HasWords 0 d xs) (room : length xs ≤ alert_size)
    (ip : ℕ) where
  -- A result of the search between `lower` and `upper`: an index that has the offset, or 0 where, if
  -- the offsets are sorted, no other index has it.
  abbrev Searched : ℕ → ℕ → ℕ → Type 0
  Searched lower upper r =
      ((r < length xs) × (r ≢ 0) × (get_or xs r 0 ≡ ip))
      ⊎ ((r ≡ 0)
          × (IsSorted xs
              → (lower ≡ 0) ⊎ (get_or xs lower 0 < ip)
              → (j : ℕ) → lower ≤ j
              → j < upper
              → j ≢ 0
              → get_or xs j 0 ≢ ip))

  module _ (lower upper : ℕ) (some_left : lower < upper) (below : upper ≤ length xs) where
    step_hit :
        (fuel : ℕ)
        → get_or xs ((lower + upper) / 2) 0 ≡ ip
        → (r : ℕ) × (search_loop (suc fuel) lower upper d ip ≡ ok r) × Searched lower upper r
    unfolding search_loop
    step_hit fuel hit =
        let mid = (lower + upper) / 2 in
        let same : (get_or xs mid 0 == ip) ≡ true = ground arith in
        (
          mid,
          rw (load-HasWords 0 mid v (omega arith) room) (rw same (last mid refl)),
          elim (Bool-cases (mid == 0)) [
            | inl h ↦
                (let z : mid ≡ 0 = ground arith in
                  inr (z, λ sorted start j h1 h2 h3 e. h3 (omega arith)))
            | inr h ↦ inl (omega arith, ground arith, hit)
          ],
        )
      where
        last :
            (mid : ℕ)
            → mid ≡ (lower + upper) / 2
            → (if (mid == 0) && ltb (lower + 1) upper
                then search_loop fuel lower upper d ip
                else ok mid)
              ≡ ok mid
        last zero e = let short : ltb (lower + 1) upper ≡ false = ground arith in rw short
        last (suc mid) e = ground arith

    step_low :
        (fuel : ℕ)
        → get_or xs ((lower + upper) / 2) 0 < ip
        → search_loop (suc fuel) lower upper d ip ≡ (
            if ltb ((lower + upper) / 2 + 1) upper
            then search_loop fuel ((lower + upper) / 2) upper d ip
            else ok 0)
    unfolding search_loop
    step_low fuel low =
        let mid = (lower + upper) / 2 in
        let miss : (get_or xs mid 0 == ip) ≡ false = ground arith in
        let under : ltb (get_or xs mid 0) ip ≡ true = ground arith in
        let over : ltb ip (get_or xs mid 0) ≡ false = ground arith in
        rw (load-HasWords 0 mid v (omega arith) room) (rw miss (rw under (rw over)))

    step_high :
        (fuel : ℕ)
        → ip < get_or xs ((lower + upper) / 2) 0
        → search_loop (suc fuel) lower upper d ip ≡ (
            if ltb (lower + 1) ((lower + upper) / 2)
            then search_loop fuel lower ((lower + upper) / 2) d ip
            else ok 0)
    unfolding search_loop
    step_high fuel high =
        let mid = (lower + upper) / 2 in
        let miss : (get_or xs mid 0 == ip) ≡ false = ground arith in
        let under : ltb (get_or xs mid 0) ip ≡ false = ground arith in
        let over : ltb ip (get_or xs mid 0) ≡ true = ground arith in
        rw (load-HasWords 0 mid v (omega arith) room) (rw miss (rw under (rw over)))

    -- Offsets at and below a smaller one, and at and above a larger one, are not the one that is sought.
    from_low :
        IsSorted xs
        → get_or xs ((lower + upper) / 2) 0 < ip
        → (j : ℕ) → j < upper
        → get_or xs j 0 ≡ ip
        → (lower + upper) / 2 < j
    from_low sorted low j h e = elim (Bool-cases (ltb ((lower + upper) / 2) j)) [
      | inl p ↦ ground arith
      | inr p ↦
          (let back : j ≤ (lower + upper) / 2 = ground arith in
            absurd (omega (arith, sorted j ((lower + upper) / 2) back (omega arith))))
    ]

    from_high :
        IsSorted xs
        → ip < get_or xs ((lower + upper) / 2) 0
        → (j : ℕ) → j < upper
        → get_or xs j 0 ≡ ip
        → j < (lower + upper) / 2
    from_high sorted high j h e = elim (Bool-cases (ltb j ((lower + upper) / 2))) [
      | inl p ↦ ground arith
      | inr p ↦
          (let back : (lower + upper) / 2 ≤ j = ground arith in
            absurd (omega (arith, sorted ((lower + upper) / 2) j back (omega arith))))
    ]

  pub search_lem :
      (fuel lower upper : ℕ)
      → lower < upper
      → upper ≤ length xs
      → upper ≤ lower + fuel
      → (r : ℕ) × (search_loop fuel lower upper d ip ≡ ok r) × Searched lower upper r
  search_lem zero lower upper h1 h2 h3 = absurd (omega arith)
  search_lem (suc fuel) lower upper h1 h2 h3 =
      let mid = (lower + upper) / 2 in
      elim (Bool-cases (get_or xs mid 0 == ip)) [
        | inl hit ↦ step_hit lower upper h1 h2 fuel (ground arith)
        | inr miss ↦ elim (Bool-cases (ltb (get_or xs mid 0) ip)) [
          | inl low ↦
              (let less : get_or xs mid 0 < ip = ground arith in
                elim (Bool-cases (ltb (mid + 1) upper)) [
                  | inl more ↦
                      let (r, looped, said) =
                        search_lem fuel mid upper (ground arith) h2 (ground arith) in
                      (
                        r,
                        step_low lower upper h1 h2 fuel less ∙ rw more looped,
                        elim said [
                          | inl hit ↦ inl hit
                          | inr (z, none_there) ↦ inr (
                            z,
                            λ sorted start j k1 k2 k3 e.
                                none_there sorted (inr less) j
                                  (omega (arith, from_low lower upper h1 h2 sorted less j k2 e)) k2
                                  k3 e,
                          )
                        ],
                      )
                  | inr done ↦ (
                    0,
                    step_low lower upper h1 h2 fuel less ∙ rw done,
                    inr (
                      refl,
                      λ sorted start j k1 k2 k3 e.
                          (let past = from_low lower upper h1 h2 sorted less j k2 e in
                            absurd (ground arith)),
                    ),
                  )
                ])
          | inr high ↦
              (let more : ip < get_or xs mid 0 = ground arith in
                elim (Bool-cases (ltb (lower + 1) mid)) [
                  | inl again ↦
                      let (r, looped, said) =
                        search_lem fuel lower mid (ground arith) (omega arith) (ground arith) in
                      (
                        r,
                        step_high lower upper h1 h2 fuel more ∙ rw again looped,
                        elim said [
                          | inl hit ↦ inl hit
                          | inr (z, none_there) ↦ inr (
                            z,
                            λ sorted start j k1 k2 k3 e.
                                none_there sorted start j k1
                                  (from_high lower upper h1 h2 sorted more j k2 e) k3 e,
                          )
                        ],
                      )
                  | inr done ↦ (
                    0,
                    step_high lower upper h1 h2 fuel more ∙ rw done,
                    inr (
                      refl,
                      λ sorted start j k1 k2 k3 e.
                          (let before = from_high lower upper h1 h2 sorted more j k2 e in
                            let at : j ≡ lower = ground arith in
                            elim start [
                              | inl z ↦ k3 (at ∙ z)
                              | inr less ↦ absurd (omega (arith, ap (λ k. get_or xs k 0) at))
                            ]),
                    ),
                  )
                ])
        ]
      ]
