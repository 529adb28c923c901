-- ===== src/Rpc/Object/Antichain.antt =====
-- Pairwise concurrent siblings, under `AddObject` of src/kvsrv/rpc/object.go.
use dynamo_kvsrv_pbs.Prelude.{
  ◌≡◌, Bool, true, false, List, [], ◌∷◌, arith, Bool-cases, inl, inr, All, none,
}
use dynamo_kvsrv_pbs.VClock.{concurrent, before_or_equal}
use dynamo_kvsrv_pbs.Rpc.Object.{
  Object, SortFunc, sort_or_default, compare_to, can_be_added_to, add_loop, add_object, add_new,
}
use dynamo_kvsrv_pbs.Rpc.Object.Seen.{Cmp-cases, All-add_loop-true, All-add_loop, compare_to-flip}

-- Neither version includes the other.
abbrev pub IsConcurrent : Object → Object → Type 0
IsConcurrent x y = compare_to x y ≡ concurrent

abbrev pub IsAntichain : List Object → Type 0
IsAntichain [] = Unit
IsAntichain (x ∷ xs) = All (IsConcurrent x) xs × IsAntichain xs

module _ (sort : Object → Object → Bool) (c : Object) where
  pub can_be_added_to-cons :
      (s : Object) (ss : List Object)
      → can_be_added_to c (s ∷ ss) ≡ true
      → (before_or_equal (compare_to c s) ≡ false) × (can_be_added_to c ss ≡ true)
  unfolding can_be_added_to
  can_be_added_to-cons s ss h = ground arith

  IsConcurrent-add_loop :
      (ss : List Object)
      → can_be_added_to c ss ≡ true
      → All (IsConcurrent c) (add_loop sort c true ss)
  unfolding add_loop
  IsConcurrent-add_loop [] h = tt
  IsConcurrent-add_loop (s ∷ ss) h =
      let k = can_be_added_to-cons s ss h in
      elim (Cmp-cases (compare_to c s)) [
        | inl e ↦ absurd (ground arith)
        | inr (inl e) ↦ absurd (ground arith)
        | inr (inr (inl e)) ↦ rw (e, All) (IsConcurrent-add_loop ss k.1)
        | inr (inr (inr e)) ↦ rw (e, All) (e, IsConcurrent-add_loop ss k.1)
      ]

  IsAntichain-true : (ss : List Object) → IsAntichain ss → IsAntichain (add_loop sort c true ss)
  unfolding add_loop
  IsAntichain-true [] h = tt
  IsAntichain-true (s ∷ ss) h = elim (Cmp-cases (compare_to c s)) [
    | inl e ↦
        rw (e, IsAntichain)
          (All-add_loop-true sort c (IsConcurrent s) ss h.0, IsAntichain-true ss h.1)
    | inr (inl e) ↦
        rw (e, IsAntichain)
          (All-add_loop-true sort c (IsConcurrent s) ss h.0, IsAntichain-true ss h.1)
    | inr (inr (inl e)) ↦ rw (e, IsAntichain) (IsAntichain-true ss h.1)
    | inr (inr (inr e)) ↦
        rw (e, IsAntichain)
          (All-add_loop-true sort c (IsConcurrent s) ss h.0, IsAntichain-true ss h.1)
  ]

  IsAntichain-false :
      (ss : List Object)
      → can_be_added_to c ss ≡ true
      → IsAntichain ss
      → IsAntichain (add_loop sort c false ss)
  unfolding add_loop
  IsAntichain-false [] h k = (tt, tt)
  IsAntichain-false (s ∷ ss) h k =
      let d = can_be_added_to-cons s ss h in
      elim (Cmp-cases (compare_to c s)) [
        | inl e ↦ absurd (ground arith)
        | inr (inl e) ↦ absurd (ground arith)
        | inr (inr (inl e)) ↦ rw (e, IsAntichain) (IsAntichain-false ss d.1 k.1)
        | inr (inr (inr e)) ↦
            let later = All-add_loop-true sort c (IsConcurrent s) ss k.0 in
            elim (Bool-cases (sort c s)) [
              | inl q ↦
                  rw (e, q, IsAntichain)
                    ((e, IsConcurrent-add_loop ss d.1), (later, IsAntichain-true ss k.1))
              | inr q ↦
                  rw (e, q, IsAntichain)
                    (
                      All-add_loop sort c (IsConcurrent s) ss (ground (arith, compare_to-flip c s))
                          k.0,
                      IsAntichain-false ss d.1 k.1,
                    )
            ]
      ]

-- Adding an object that CanBeAddedTo admits leaves the siblings pairwise concurrent.
pub add_object-IsAntichain :
    (ss : List Object) (c : Object) (sort : SortFunc)
    → can_be_added_to c ss ≡ true
    → IsAntichain ss
    → IsAntichain (add_object ss c sort)
unfolding add_object
add_object-IsAntichain ss c sort h k = IsAntichain-false (sort_or_default sort) c ss h k

-- The merge loop leaves the siblings pairwise concurrent, whatever comes in.
pub add_new-IsAntichain : (ss objs : List Object) → IsAntichain ss → IsAntichain (add_new ss objs)
unfolding add_new
add_new-IsAntichain ss [] h = h
add_new-IsAntichain ss (o ∷ objs) h = elim (Bool-cases (can_be_added_to o ss)) [
  | inl e ↦
      rw (e, IsAntichain)
        (add_new-IsAntichain (add_object ss o none) objs (add_object-IsAntichain ss o none e h))
  | inr e ↦ rw (e, IsAntichain) (add_new-IsAntichain ss objs h)
]
