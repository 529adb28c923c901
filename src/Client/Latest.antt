-- ===== src/Client/Latest.antt =====
-- The clerk's choice among siblings: `pickLatestObject` of src/kvsrv/client.go.
use dynamo_kvsrv_pbs.Prelude.{
  ◌≡◌, refl, some, List, [], ◌∷◌, arith, Bool-cases, inl, inr, All, ltb, ◌⊎◌,
}
use native.Mathlib.Nat.{le_trans, le_refl}
use dynamo_kvsrv_pbs.Rpc.Object.{Object}
use dynamo_kvsrv_pbs.Rpc.Object.Seen.{compare_to-flip}
use dynamo_kvsrv_pbs.Rpc.Object.Antichain.{IsConcurrent, IsAntichain}
use dynamo_kvsrv_pbs.Rpc.Object.Sorted.{NotLater}
use dynamo_kvsrv_pbs.Client.{is_later, latest_from, pick_latest_object}

-- The object stands in the list.
abbrev pub IsOneOf : Object → List Object → Type 0
IsOneOf o [] = ⊥
IsOneOf o (x ∷ xs) = (o ≡ x) ⊎ IsOneOf o xs

-- An object of the list with the largest timestamp of the list.
pub record IsLatest (o : Object) (siblings : List Object) : Type 0 where
  pub member : IsOneOf o siblings
  pub latest : All (λ s. NotLater s o) siblings

later_concurrent :
    (s o : Object) → IsConcurrent s o → is_later s o ≡ ltb o.context.timestamp s.context.timestamp
unfolding is_later
later_concurrent s o h = rw (h, is_later)

All-latest :
    (a b : Object) (xs : List Object)
    → NotLater a b
    → All (λ s. NotLater s a) xs
    → All (λ s. NotLater s b) xs
All-latest a b [] h k = tt
All-latest a b (x ∷ xs) h k = (omega (arith, h, k.0), All-latest a b xs h k.1)

latest_from-IsLatest :
    (o : Object) (xs : List Object) → IsAntichain (o ∷ xs) → IsLatest (latest_from o xs) (o ∷ xs)
unfolding latest_from
latest_from-IsLatest o [] a = record {
  member = inl refl;
  latest = (le_refl o.context.timestamp, tt);
}
latest_from-IsLatest o (s ∷ xs) a =
    let apart : IsConcurrent s o = rw (compare_to-flip o s, a.0.0) in
    let test = later_concurrent s o apart in
    elim (Bool-cases (is_later s o)) [
      | inl e ↦
          let k = latest_from-IsLatest s xs a.1 in
          let first = k.latest.0 in
          rw e (record {
            member = inr k.member;
            latest = (le_trans (ground (arith, e, test)) first, k.latest);
          })
      | inr e ↦
          let k = latest_from-IsLatest o xs (a.0.1, a.1.1) in
          let first = k.latest.0 in
          rw e (record {
            member = elim k.member [ inl i ↦ inl i | inr i ↦ inr (inr i) ];
            latest = (first, (le_trans (ground (arith, e, test)) first, k.latest.1));
          })
    ]

-- Of pairwise concurrent siblings the clerk takes one with the largest timestamp.
pub pick_latest_object-IsLatest :
    (sibling : Object) (siblings : List Object)
    → IsAntichain (sibling ∷ siblings)
    → (o : Object) × (pick_latest_object (sibling ∷ siblings) ≡ some o)
      × IsLatest o (sibling ∷ siblings)
unfolding pick_latest_object
pick_latest_object-IsLatest sibling siblings a =
    (latest_from sibling siblings, refl, latest_from-IsLatest sibling siblings a)
