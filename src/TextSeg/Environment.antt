-- ===== src/TextSeg/Environment.antt =====
-- The environments of src/vm/text_seg.c (lines 134 to 159): symbols with an entry for each, which is a word
-- for its type and a word for its value.
use tinyaml.Prelude.{
  ℕ, ◌+◌, ◌*◌, ◌%◌, ◌^◌, ◌<◌, ◌≤◌, ◌≡◌, refl, arith, Option, ok, ◌>>=◌, Run, ltb, lt→ltb,
  if◌then◌else◌, get_or, get_or-set_ne, get_or-set_self, ◌==◌, ==_iff, List, set, length,
  length-set, get_elem?-set_self, get_elem?-set_ne, get_elem?-eq-get_or, Bool-cases, inl, inr, ◌∙◌,
  ap,
}
use tinyaml.Gstack.{word}
use tinyaml.Dynarray.{Dynarray, load, store, reserve, dynarray_size}
use tinyaml.Dynarray.Inv.{reserve_size, reserve_reserved, reserve_block, reserve-read}
use tinyaml.Objects.{Objects, Entry, entry_ref, entry_deref}
use tinyaml.Objects.Counts.{Tracks, Tracks-congr}
use tinyaml.Objects.Entries.{held_by, IsLive, entry_ref-Tracks, entry_deref-Tracks}
use tinyaml.Hashtab.Keys.{CString}
use tinyaml.TextSeg.{TextSeg, text_to_index, find_by_index}

-- `struct _vm_dyn_env_t`; its `data` are the entries. The parent is never used.
pub record DynEnv : Type 0 where
  pub parent : Option ℕ
  pub symbols : TextSeg
  pub entries : Dynarray ℕ

-- `env_sym_to_index` and `env_index_to_sym`
unfoldable pub env_sym_to_index : DynEnv → CString → Run ℕ
env_sym_to_index env key = text_to_index env.symbols key

unfoldable pub env_index_to_sym : DynEnv → ℕ → Run (Option CString)
env_index_to_sym env index = find_by_index env.symbols index

-- `env_get`, with the reading of the entry it points to.
unfoldable pub env_get : DynEnv → ℕ → Run Entry
unfolding load
env_get env index = do
  type ← load env.entries (index * 2 % word)
  value ← load env.entries (index * 2 % word + 1)
  ok (record { type = type; value = value })

-- The test in `env_set`: more room, or the reference of the old entry given back.
unfoldable pub make_place : Objects → Dynarray ℕ → ℕ → Run (Objects × Dynarray ℕ)
unfolding load entry_deref
make_place h d ofs =
    if ltb (dynarray_size d) ((ofs + 2) % word)
    then ok (h, reserve 0 d ((ofs + 2) % word))
    else (load d ofs >>= λ type. load d (ofs + 1) >>= λ value.
        entry_deref h (record { type = type; value = value }) >>= λ h. ok (h, d))

-- `env_set`
unfoldable pub env_set : Objects → DynEnv → ℕ → Entry → Run (Objects × DynEnv)
unfolding make_place store entry_ref
env_set h env index e = do
  (h, d) ← make_place h env.entries (index * 2 % word)
  d ← store d (index * 2 % word) e.type
  d ← store d (index * 2 % word + 1) e.value
  h ← entry_ref h e
  ok (h, record env { entries = d })

-- The entry whose reference `env_set` gives back.
abbrev pub given_back : Dynarray ℕ → ℕ → Entry
given_back d index =
    if ltb d.size (index * 2 + 2)
    then record { type = 0; value = 0 }
    else record { type = get_or d.cells (index * 2) 0; value = get_or d.cells (index * 2 + 1) 0 }

make_place_lem :
    (h : Objects) (n : ℕ → ℕ) (d : Dynarray ℕ) (index : ℕ)
    → length d.cells ≡ d.reserved
    → d.size ≤ d.reserved
    → index < 2 ^ 62
    → Tracks h (λ o. n o + held_by (given_back d index) o)
    → (h' : Objects) × (d' : Dynarray ℕ) × (make_place h d (index * 2) ≡ ok (h', d'))
      × (h'.is_object ≡ h.is_object)
      × Tracks h' n
      × (index * 2 + 1 < length d'.cells)
      × (d'.size ≡ d.size)
      × (length d'.cells ≡ d'.reserved)
      × (d.reserved ≤ d'.reserved)
      × ((j : ℕ) → get_or d'.cells j 0 ≡ get_or d.cells j 0)
unfolding make_place load dynarray_size
make_place_lem h n d index block within small t =
    let size : (index * 2 + 2) % word ≡ index * 2 + 2 = omega arith in
    elim (Bool-cases (ltb d.size (index * 2 + 2))) [
      | inl lt ↦ (
        h,
        reserve 0 d (index * 2 + 2),
        rw (size, lt),
        refl,
        Tracks-congr h _ n t (λ o. rw lt (ground (arith))),
        omega (
          arith,
          reserve_block 0 d block (index * 2 + 2),
          reserve_reserved 0 d block (index * 2 + 2),
        ),
        reserve_size 0 d block (index * 2 + 2),
        reserve_block 0 d block (index * 2 + 2),
        (reserve_reserved 0 d block (index * 2 + 2)).0,
        reserve-read 0 d block (index * 2 + 2),
      )
      | inr ge ↦
          (let inside : index * 2 + 1 < length d.cells = ground (arith, block, within) in
            let old : Entry = record {
              type = get_or d.cells (index * 2) 0;
              value = get_or d.cells (index * 2 + 1) 0;
            } in
            let t' = Tracks-congr h _ (λ o. n o + held_by old o) t (λ o. rw ge) in
            let (h', run, kept, t'') = entry_deref-Tracks h n old t' in
            (
              h',
              d,
              rw (
                size,
                ge,
                get_elem?-eq-get_or d.cells (index * 2) 0 (omega arith),
                get_elem?-eq-get_or d.cells (index * 2 + 1) 0 inside,
                run,
              ),
              kept,
              t'',
              inside,
              refl,
              block,
              omega arith,
              (λ j. refl),
            ))
    ]

-- The words of a block in which two neighbours were written.
words_lem :
    (xs : List ℕ) (i j x y : ℕ)
    → i + 1 < length xs
    → get_or (set (set xs i x) (i + 1) y) j 0
      ≡ (if j == i then x else (if j == i + 1 then y else get_or xs j 0))
words_lem xs i j x y room = elim (Bool-cases (j == i)) [
  | inl e ↦
      rw (e, (==_iff j i).0 e)
        (get_or-set_ne (set xs i x) (i + 1) i y 0 (omega arith)
          ∙ get_or-set_self xs i x 0 (omega arith))
  | inr e ↦ rw e (elim (Bool-cases (j == i + 1)) [
    | inl e' ↦
        rw (e', (==_iff j (i + 1)).0 e')
          (get_or-set_self (set xs i x) (i + 1) y 0 (omega (arith, length-set xs i x)))
    | inr e' ↦ rw e' (
        get_or-set_ne (set xs i x) (i + 1) j y 0 (ground arith)
        ∙ get_or-set_ne xs i j x 0 (ground arith))
  ])
]

-- Setting an entry of an environment whose block has as many words as it says, on counts that are
-- right and with an entry whose object is one, succeeds, and getting the entry brings it back. The
-- reference that it holds is taken. That of the old entry is given back if `size` covers it; if not,
-- it is not given back, whatever the words of the old entry are. `size` stays, the block is as large as
-- it says again, and no other entry changes. The index is below 2 ^ 62.
pub env_get-env_set :
    (h : Objects) (n : ℕ → ℕ) (env : DynEnv) (index : ℕ) (e : Entry)
    → length env.entries.cells ≡ env.entries.reserved
    → env.entries.size ≤ env.entries.reserved
    → index < 2 ^ 62
    → Tracks h (λ o. n o + held_by (given_back env.entries index) o)
    → IsLive h e
    → (h' : Objects) × (env' : DynEnv) × (env_set h env index e ≡ ok (h', env'))
      × (env_get env' index ≡ ok e)
      × Tracks h' (λ o. n o + held_by e o)
      × (env'.entries.size ≡ env.entries.size)
      × (length env'.entries.cells ≡ env'.entries.reserved)
      × (env.entries.reserved ≤ env'.entries.reserved)
      × ((j : ℕ)
          → get_or env'.entries.cells j 0 ≡ (
              if j == index * 2
              then e.type
              else (if j == index * 2 + 1 then e.value else get_or env.entries.cells j 0)))
unfolding env_get env_set load store
env_get-env_set h n env index e block within small t live =
    let (h1, d, placed, kept, t1, room, same, whole, more, others) =
      make_place_lem h n env.entries index block within small t in
    let (h2, run, _, t2) = entry_ref-Tracks h1 n e t1 (λ q. ap (λ f. f e.value) kept ∙ live q) in
    let ofs : index * 2 % word ≡ index * 2 = omega arith in
    let one = set d.cells (index * 2) e.type in
    let two = set one (index * 2 + 1) e.value in
    let in_one : index * 2 + 1 < length one =
      omega (arith, length-set d.cells (index * 2) e.type) in
    (
      h2,
      record env { entries = record d { cells = two } },
      rw (
        ofs,
        placed,
        lt→ltb (index * 2) (length d.cells) (omega arith),
        lt→ltb (index * 2 + 1) (length one) in_one,
        run,
      ),
      rw (
        ofs,
        get_elem?-set_ne one (index * 2 + 1) (index * 2) e.value (omega arith)
            ∙ get_elem?-set_self d.cells (index * 2) e.type (omega arith),
        get_elem?-set_self one (index * 2 + 1) e.value in_one,
      ),
      t2,
      same,
      omega (
        arith,
        whole,
        length-set d.cells (index * 2) e.type,
        length-set one (index * 2 + 1) e.value,
      ),
      more,
      λ j. words_lem d.cells (index * 2) j e.type e.value (omega arith) ∙ rw (others j),
    )
