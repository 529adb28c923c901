-- ===== src/VClock/Order.antt =====
-- `Compare` of src/kvsrv/vclock/vclock.go against the order of clocks by their versions.
use dynamo_kvsrv_pbs.Prelude.{
  ◌≤◌, ◌<◌, ◌≡◌, refl, ◌↔◌, Bool, true, false, ◌||◌, String, List, [], ◌∷◌, arith, string_eq,
  contains, Bool-cases, inl, inr, any, ltb, ltb→lt, ltb→ge,
}
use dynamo_kvsrv_pbs.VClock.{
  VClock, Cmp, equal, before, after, concurrent, get_version, get_all_nodes, verdict, compare_loop,
  compare,
}
use dynamo_kvsrv_pbs.VClock.Nodes.{get_version_outside}

-- Every version of v is at most that of w.
abbrev pub Below : VClock → VClock → Type 0
Below v w = (n : String) → get_version v n ≤ get_version w n

-- Some version of v is smaller than that of w.
abbrev pub Behind : VClock → VClock → Type 0
Behind v w = (n : String) × (get_version v n < get_version w n)

-- What each result of `Compare` says of the versions.
abbrev pub Compares : Cmp → VClock → VClock → Type 0
Compares equal v w = Below v w × Below w v
Compares before v w = Below v w × Behind v w
Compares after v w = Below w v × Behind w v
Compares concurrent v w = Behind v w × Behind w v

abbrev less_at : VClock → VClock → String → Bool
less_at v w n = ltb (get_version v n) (get_version w n)

verdict_both : verdict true true ≡ concurrent
unfolding verdict
verdict_both = refl

-- The early return of the loop agrees with the tests behind it.
compare_loop-any :
    (v w : VClock) (ns : List String) (b a : Bool)
    → compare_loop v w ns b a ≡ verdict (b || any (less_at v w) ns) (a || any (less_at w v) ns)
unfolding compare_loop
compare_loop-any v w [] b a = ground arith
compare_loop-any v w (n ∷ ns) b a = ground (
  arith,
  verdict_both,
  compare_loop-any v w ns true a,
  compare_loop-any v w ns b true,
  compare_loop-any v w ns b a,
  compare_loop-any v w ns true true,
)

any_witness : (v w : VClock) (ns : List String) → any (less_at v w) ns ≡ true → Behind v w
any_witness v w [] h = cc
any_witness v w (n ∷ ns) h = elim (Bool-cases (less_at v w n)) [
  | inl p ↦ (n, ltb→lt _ _ p)
  | inr p ↦ any_witness v w ns (rw p at h)
]

any_none :
    (v w : VClock) (ns : List String) (n : String)
    → any (less_at v w) ns ≡ false
    → contains ns n ≡ true
    → get_version w n ≤ get_version v n
unfolding contains
any_none v w [] n h c = cc
any_none v w (m ∷ ns) n h c = elim (Bool-cases (less_at v w m)) [
  | inl p ↦ absurd (ground arith)
  | inr p ↦ ground (arith, string_eq.beq_iff m n, ltb→ge _ _ p, any_none v w ns n (rw p at h))
]

Below-of_none :
    (v w : VClock) (ns : List String)
    → ((n : String) → contains ns n ≡ false → (get_version v n ≡ 0) × (get_version w n ≡ 0))
    → any (less_at v w) ns ≡ false
    → Below w v
Below-of_none v w ns out h n = elim (Bool-cases (contains ns n)) [
  | inl c ↦ any_none v w ns n h c
  | inr c ↦ omega (arith, out n c)
]

module _ (v w : VClock) where
  abbrev nodes : List String
  nodes = get_all_nodes v w

  compare-verdict : compare v w ≡ verdict (any (less_at v w) nodes) (any (less_at w v) nodes)
  unfolding compare
  compare-verdict = compare_loop-any v w (get_all_nodes v w) false false

  verdict-Compares :
      (b a : Bool)
      → any (less_at v w) nodes ≡ b
      → any (less_at w v) nodes ≡ a
      → Compares (verdict b a) v w
  unfolding verdict
  verdict-Compares true true p q = (any_witness v w nodes p, any_witness w v nodes q)
  verdict-Compares true false p q = (
    Below-of_none w v nodes (λ n c. let o = get_version_outside v w n c in (o.1, o.0)) q,
    any_witness v w nodes p,
  )
  verdict-Compares false true p q =
      (Below-of_none v w nodes (get_version_outside v w) p, any_witness w v nodes q)
  verdict-Compares false false p q = (
    Below-of_none w v nodes (λ n c. let o = get_version_outside v w n c in (o.1, o.0)) q,
    Below-of_none v w nodes (get_version_outside v w) p,
  )

  pub compare-Compares : Compares (compare v w) v w
  compare-Compares = rw compare-verdict (verdict-Compares _ _ refl refl)

-- The four verdicts exclude one another.
pub Compares-unique : (c d : Cmp) (v w : VClock) → Compares c v w → Compares d v w → c ≡ d
Compares-unique equal equal v w p q = refl
Compares-unique equal before v w p q = absurd (omega (arith, p.1 q.1.0))
Compares-unique equal after v w p q = absurd (omega (arith, p.0 q.1.0))
Compares-unique equal concurrent v w p q = absurd (omega (arith, p.1 q.0.0))
Compares-unique before equal v w p q = absurd (omega (arith, q.1 p.1.0))
Compares-unique before before v w p q = refl
Compares-unique before after v w p q = absurd (omega (arith, p.0 q.1.0))
Compares-unique before concurrent v w p q = absurd (omega (arith, p.0 q.1.0))
Compares-unique after equal v w p q = absurd (omega (arith, q.0 p.1.0))
Compares-unique after before v w p q = absurd (omega (arith, q.0 p.1.0))
Compares-unique after after v w p q = refl
Compares-unique after concurrent v w p q = absurd (omega (arith, p.0 q.0.0))
Compares-unique concurrent equal v w p q = absurd (omega (arith, q.1 p.0.0))
Compares-unique concurrent before v w p q = absurd (omega (arith, q.0 p.1.0))
Compares-unique concurrent after v w p q = absurd (omega (arith, q.0 p.0.0))
Compares-unique concurrent concurrent v w p q = refl

-- Compare returns a verdict exactly when the versions of the two clocks stand in the relation
-- that the verdict names, over all node names.
pub compare_iff : (v w : VClock) (c : Cmp) → (compare v w ≡ c) ↔ Compares c v w
compare_iff v w c =
    (λ e. rw e at (compare-Compares v w), λ h. Compares-unique _ _ v w (compare-Compares v w) h)
