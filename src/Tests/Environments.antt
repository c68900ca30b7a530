-- ===== src/Tests/Environments.antt =====
-- The environments of src/vm/text_seg.c at a concrete environment.
use tinyaml.Prelude.{
  length, ℕ, ◌+◌, ◌*◌, ◌≤◌, ◌≡◌, refl, arith, none, [], ◌∷◌, ok, get_or, ◌==◌, if◌then◌else◌,
}
use tinyaml.Dynarray.{Dynarray}
use tinyaml.Objects.{Objects, Entry, managed}
use tinyaml.Objects.Counts.{Tracks, one}
use tinyaml.Objects.Entries.{held_by}
use tinyaml.TextSeg.Intern
use tinyaml.TextSeg.Environment.{DynEnv, env_get, env_set, given_back, env_get-env_set}
use tinyaml.Tests.Fixtures.{counts, counted_once}

-- The block holds the number 3 and, behind its size, the array at 7.
abbrev entries : Dynarray ℕ
entries = record { reserved = 4; size = 2; cells = 1 ∷ 3 ∷ 21 ∷ 7 ∷ [] }

abbrev env : DynEnv
env = record { parent = none; symbols = Intern.init-Holds.0; entries = entries }

abbrev five : Entry
five = record { type = 1; value = 5 }

-- The array is overwritten, and its reference is counted as before.
env_get-env_set_example :
    (h' : Objects) × (env' : DynEnv) × (env_set counts env 1 five ≡ ok (h', env'))
    × (env_get env' 1 ≡ ok five)
    × Tracks h' (λ o. one 7 o + held_by five o)
    × (env'.entries.size ≡ 2)
    × (length env'.entries.cells ≡ env'.entries.reserved)
    × (4 ≤ env'.entries.reserved)
    × ((j : ℕ)
        → get_or env'.entries.cells j 0
          ≡ (if j == 1 * 2 then 1 else (if j == 1 * 2 + 1 then 5 else get_or entries.cells j 0)))
unfolding managed
env_get-env_set_example =
    env_get-env_set counts (one 7) env 1 five refl (omega arith) (omega arith)
      (counted_once (λ o. one 7 o + held_by (given_back entries 1) o) (λ o. omega arith))
      (λ q. absurd (cc))
