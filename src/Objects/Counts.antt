-- ===== src/Objects/Counts.antt =====
-- Reference counts that are right: taking and giving back a reference to one object
-- (include/object.h, `vm_collect` and `vm_uncollect` of src/vm/vm.c).
use tinyaml.Prelude.{
  ◌≡◌, ◌<◌, ℕ, ◌+◌, ◌-◌, true, false, List, [], ◌∷◌, ◌==◌, if◌then◌else◌, arith, ok, refl, inl, inr,
  Bool-cases, ==_iff, ◌∙◌, ap, subst, sym, ◌≢◌,
}
use native.Mathlib.Decide.{ℕ_discrete}
use tinyaml.Objects.{Objects, set_count, is_pending, unlink_pending, uncollect, ref_ptr, deref_ptr}

-- One reference to `p`, as a count for every object.
abbrev pub one : ℕ → ℕ → ℕ
one p o = if p == o then 1 else 0

-- No address stands twice in the list.
abbrev pub AreDistinct : List ℕ → Type 0
AreDistinct [] = Unit {0}
AreDistinct (p ∷ ps) = (is_pending ps p ≡ false) × AreDistinct ps

-- The objects are counted by `n`: what has a reference is an object, and what waits to be freed, each
-- at most once, has no reference.
pub record Tracks (h : Objects) (n : ℕ → ℕ) : Type 0 where
  pub counted : (o : ℕ) → h.ref_count o ≡ n o
  pub live : (o : ℕ) → 0 < n o → h.is_object o ≡ true
  pub null : h.is_object 0 ≡ false
  pub waiting : (o : ℕ) → is_pending h.gc_pending o ≡ true → n o ≡ 0
  pub distinct : AreDistinct h.gc_pending

pub Tracks-congr : (h : Objects) (n k : ℕ → ℕ) → Tracks h n → ((o : ℕ) → n o ≡ k o) → Tracks h k
Tracks-congr h n k t e = record {
  counted = λ o. t.counted o ∙ e o;
  live = λ o p. t.live o (omega (arith, e o));
  null = t.null;
  waiting = λ o p. omega (arith, e o, t.waiting o p);
  distinct = t.distinct;
}

true_ne_false : true ≢ false
true_ne_false e = cc

unlink_pending_other :
    (ps : List ℕ) (o p : ℕ) → is_pending (unlink_pending ps o) p ≡ true → is_pending ps p ≡ true
unfolding unlink_pending is_pending
unlink_pending_other [] o p h = h
unlink_pending_other (q ∷ ps) o p h = ground (arith, unlink_pending_other ps o p)

unlink_pending_self :
    (ps : List ℕ) (o : ℕ) → AreDistinct ps → is_pending (unlink_pending ps o) o ≡ false
unfolding unlink_pending is_pending
unlink_pending_self [] o d = refl
unlink_pending_self (q ∷ ps) o d = elim (Bool-cases (q == o)) [
  | inl e ↦ rw e (subst (λ x. is_pending ps x ≡ false) ((==_iff q o).0 e) d.0)
  | inr e ↦ rw (e, e) (unlink_pending_self ps o d.1)
]

unlink_pending_distinct : (ps : List ℕ) (o : ℕ) → AreDistinct ps → AreDistinct (unlink_pending ps o)
unfolding unlink_pending
unlink_pending_distinct [] o d = d
unlink_pending_distinct (q ∷ ps) o d = elim (Bool-cases (q == o)) [
  | inl e ↦ rw e d.1
  | inr e ↦ rw e (
    elim (Bool-cases (is_pending (unlink_pending ps o) q)) [
      | inl f ↦ absurd (true_ne_false (sym (unlink_pending_other ps o q f) ∙ d.0))
      | inr f ↦ f
    ],
    unlink_pending_distinct ps o d.1,
  )
]

-- The counts after `n` references to `p` are noted, where `h` counted `m` of them.
bump : (h : Objects) (p n : ℕ) → Objects
bump h p n = record h { ref_count = set_count h.ref_count p n }

bumped :
    (h : Objects) (p n o : ℕ) → (bump h p n).ref_count o ≡ (if p == o then n else h.ref_count o)
unfolding bump set_count
bumped h p n o = refl

ref_ptr_new :
    (h : Objects) (p : ℕ)
    → h.is_object p ≡ true
    → h.ref_count p ≡ 0
    → ref_ptr h p ≡ ok (uncollect (bump h p (h.ref_count p + 1)) p)
unfolding ref_ptr uncollect bump
ref_ptr_new h p live z = ground arith

ref_ptr_more :
    (h : Objects) (p : ℕ)
    → h.is_object p ≡ true
    → h.ref_count p ≢ 0
    → ref_ptr h p ≡ ok (bump h p (h.ref_count p + 1))
unfolding ref_ptr bump
ref_ptr_more h p live z = ground arith

is_pending_tail :
    (ps : List ℕ) (p o : ℕ) → p ≢ o → is_pending (p ∷ ps) o ≡ true → is_pending ps o ≡ true
unfolding is_pending
is_pending_tail ps p o ne q = ground arith

-- Taking a reference: one more for `p`, which no longer waits to be freed.
pub ref_ptr-Tracks :
    (h : Objects) (n : ℕ → ℕ) (p : ℕ)
    → Tracks h n
    → h.is_object p ≡ true
    → (h' : Objects) × (ref_ptr h p ≡ ok h')
      × (h'.is_object ≡ h.is_object)
      × Tracks h' (λ o. n o + one p o)
unfolding uncollect bump set_count
ref_ptr-Tracks h n p t live = elim (ℕ_discrete (h.ref_count p) 0) [
  | yes z ↦ (
    uncollect (bump h p (h.ref_count p + 1)) p,
    ref_ptr_new h p live z,
    refl,
    record {
      counted = λ o. ground (arith, t.counted o, t.counted p);
      live = λ o q. elim (ℕ_discrete p o) [
        | yes e ↦ subst (λ x. h.is_object x ≡ true) e live
        | no e ↦ t.live o (ground arith)
      ];
      null = t.null;
      waiting = λ o q. elim (ℕ_discrete p o) [
        | yes e ↦ absurd (
            true_ne_false (
              sym q
              ∙ subst (λ x. is_pending (unlink_pending h.gc_pending p) x ≡ false) e
                  (unlink_pending_self h.gc_pending p t.distinct)))
        | no e ↦ ground (arith, t.waiting o (unlink_pending_other h.gc_pending p o q))
      ];
      distinct = unlink_pending_distinct h.gc_pending p t.distinct;
    },
  )
  | no z ↦ (
    bump h p (h.ref_count p + 1),
    ref_ptr_more h p live z,
    refl,
    record {
      counted = λ o. ground (arith, t.counted o, t.counted p);
      live = λ o q. elim (ℕ_discrete p o) [
        | yes e ↦ subst (λ x. h.is_object x ≡ true) e live
        | no e ↦ t.live o (ground arith)
      ];
      null = t.null;
      waiting = λ o q. ground (arith, t.waiting o q, t.counted o, t.counted p);
      distinct = t.distinct;
    },
  )
]

-- The object is put in front of those that wait to be freed.
pend : Objects → ℕ → Objects
pend h p = record h { gc_pending = p ∷ h.gc_pending }

deref_ptr_last :
    (h : Objects) (p : ℕ)
    → p ≢ 0
    → h.is_object p ≡ true
    → h.ref_count p ≡ 1
    → is_pending h.gc_pending p ≡ false
    → deref_ptr h p ≡ ok (pend (bump h p (h.ref_count p - 1)) p)
unfolding deref_ptr pend bump
deref_ptr_last h p ne live one absent = ground arith

deref_ptr_more :
    (h : Objects) (p : ℕ)
    → p ≢ 0
    → h.is_object p ≡ true
    → 1 < h.ref_count p
    → deref_ptr h p ≡ ok (bump h p (h.ref_count p - 1))
unfolding deref_ptr bump
deref_ptr_more h p ne live more = ground arith

module _ (h : Objects) (n : ℕ → ℕ) (p : ℕ) (t : Tracks h (λ o. n o + one p o)) where
  held : h.ref_count p ≡ n p + 1
  held = ground (arith, t.counted p)

  held-live : h.is_object p ≡ true
  held-live = t.live p (ground arith)

  held_ne_null : p ≢ 0
  held_ne_null e = true_ne_false (sym held-live ∙ ap h.is_object e ∙ t.null)

  held_absent : is_pending h.gc_pending p ≡ false
  held_absent = elim (Bool-cases (is_pending h.gc_pending p)) [
    | inl e ↦ absurd (ground (arith, t.waiting p e))
    | inr e ↦ e
  ]

  -- Giving back a reference: one less for `p`, which waits to be freed if there is no other.
  pub deref_ptr-Tracks :
      (h' : Objects) × (deref_ptr h p ≡ ok h') × (h'.is_object ≡ h.is_object) × Tracks h' n
  unfolding bump set_count pend
  deref_ptr-Tracks = elim (ℕ_discrete (n p) 0) [
    | yes z ↦ (
      pend (bump h p (h.ref_count p - 1)) p,
      deref_ptr_last h p held_ne_null held-live (omega (arith, held)) held_absent,
      refl,
      record {
        counted = λ o. ground (arith, t.counted o, held);
        live = λ o q. t.live o (omega arith);
        null = t.null;
        waiting = λ o q. elim (ℕ_discrete p o) [
          | yes e ↦ subst (λ x. n x ≡ 0) e z
          | no e ↦ ground (arith, t.waiting o (is_pending_tail h.gc_pending p o e q))
        ];
        distinct = (held_absent, t.distinct);
      },
    )
    | no z ↦ (
      bump h p (h.ref_count p - 1),
      deref_ptr_more h p held_ne_null held-live (omega (arith, held)),
      refl,
      record {
        counted = λ o. ground (arith, t.counted o, held);
        live = λ o q. t.live o (omega arith);
        null = t.null;
        waiting = λ o q. ground (arith, t.waiting o q);
        distinct = t.distinct;
      },
    )
  ]
