-- ===== src/Rpc/Object/Sorted.antt =====
-- Siblings in the order of their timestamps, under `AddObject` of src/kvsrv/rpc/object.go.
use dynamo_kvsrv_pbs.Prelude.{
  ◌≡◌, ◌≤◌, Bool, true, false, List, [], ◌∷◌, arith, Bool-cases, inl, inr, All, none, ltb,
}
use dynamo_kvsrv_pbs.Rpc.Object.{Object, compare_to, can_be_added_to, add_loop, add_object, add_new}
use dynamo_kvsrv_pbs.Rpc.Object.Seen.{Cmp-cases, All-add_loop-true, All-add_loop}
use dynamo_kvsrv_pbs.Rpc.Object.Antichain.{can_be_added_to-cons}

abbrev pub NotLater : Object → Object → Type 0
NotLater x y = x.context.timestamp ≤ y.context.timestamp

-- Sorted by timestamp.
abbrev pub IsSorted : List Object → Type 0
IsSorted [] = Unit
IsSorted (x ∷ xs) = All (NotLater x) xs × IsSorted xs

All-trans :
    (x y : Object) (zs : List Object) → NotLater x y → All (NotLater y) zs → All (NotLater x) zs
All-trans x y [] h k = tt
All-trans x y (z ∷ zs) h k = (omega arith, All-trans x y zs h k.1)

abbrev by_time : Object → Object → Bool
by_time x y = ltb x.context.timestamp y.context.timestamp

module _ (c : Object) where
  IsSorted-true : (ss : List Object) → IsSorted ss → IsSorted (add_loop by_time c true ss)
  unfolding add_loop
  IsSorted-true [] h = tt
  IsSorted-true (s ∷ ss) h = elim (Cmp-cases (compare_to c s)) [
    | inl e ↦
        rw (e, IsSorted) (All-add_loop-true by_time c (NotLater s) ss h.0, IsSorted-true ss h.1)
    | inr (inl e) ↦
        rw (e, IsSorted) (All-add_loop-true by_time c (NotLater s) ss h.0, IsSorted-true ss h.1)
    | inr (inr (inl e)) ↦ rw (e, IsSorted) (IsSorted-true ss h.1)
    | inr (inr (inr e)) ↦
        rw (e, IsSorted) (All-add_loop-true by_time c (NotLater s) ss h.0, IsSorted-true ss h.1)
  ]

  IsSorted-false :
      (ss : List Object)
      → can_be_added_to c ss ≡ true
      → IsSorted ss
      → IsSorted (add_loop by_time c false ss)
  unfolding add_loop
  IsSorted-false [] h k = (tt, tt)
  IsSorted-false (s ∷ ss) h k =
      let d = can_be_added_to-cons by_time c s ss h in
      elim (Cmp-cases (compare_to c s)) [
        | inl e ↦ absurd (ground arith)
        | inr (inl e) ↦ absurd (ground arith)
        | inr (inr (inl e)) ↦ rw (e, IsSorted) (IsSorted-false ss d.1 k.1)
        | inr (inr (inr e)) ↦ elim (Bool-cases (by_time c s)) [
          | inl q ↦
              let lt : NotLater c s = ground arith in
              rw (e, q, IsSorted)
                (
                  (lt, All-add_loop-true by_time c (NotLater c) ss (All-trans c s ss lt k.0)),
                  (All-add_loop-true by_time c (NotLater s) ss k.0, IsSorted-true ss k.1),
                )
          | inr q ↦
              let ge : NotLater s c = ground arith in
              rw (e, q, IsSorted)
                (All-add_loop by_time c (NotLater s) ss ge k.0, IsSorted-false ss d.1 k.1)
        ]
      ]

-- Adding an object that CanBeAddedTo admits, with no sort function given, keeps the siblings in
-- the order of their timestamps.
pub add_object-IsSorted :
    (ss : List Object) (c : Object)
    → can_be_added_to c ss ≡ true
    → IsSorted ss
    → IsSorted (add_object ss c none)
unfolding add_object
add_object-IsSorted ss c h k = IsSorted-false c ss h k

-- The merge loop keeps the siblings in the order of their timestamps.
pub add_new-IsSorted : (ss objs : List Object) → IsSorted ss → IsSorted (add_new ss objs)
unfolding add_new
add_new-IsSorted ss [] h = h
add_new-IsSorted ss (o ∷ objs) h = elim (Bool-cases (can_be_added_to o ss)) [
  | inl e ↦
      rw (e, IsSorted) (add_new-IsSorted (add_object ss o none) objs (add_object-IsSorted ss o e h))
  | inr e ↦ rw (e, IsSorted) (add_new-IsSorted ss objs h)
]
