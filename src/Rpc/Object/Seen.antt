-- ===== src/Rpc/Object/Seen.antt =====
-- Which versions a list of siblings accounts for, under `CanBeAddedTo` and `AddObject` of
-- src/kvsrv/rpc/object.go.
use dynamo_kvsrv_pbs.Prelude.{
  ◌≡◌, ◌⊎◌, refl, Bool, true, false, ◌||◌, not, List, [], ◌∷◌, arith, Bool-cases, inl, inr, any,
  All, none,
}
use mathlib.Core.Path.{sym, subst}
use dynamo_kvsrv_pbs.VClock.{Cmp, before_or_equal, equal, before, after, concurrent}
use dynamo_kvsrv_pbs.VClock.Laws.{flip, compare-flip, seen_refl, seen_trans}
use dynamo_kvsrv_pbs.Rpc.Context.{compare}
use dynamo_kvsrv_pbs.Rpc.Object.{
  Object, SortFunc, sort_or_default, compare_to, can_be_added_to, add_loop, add_object, add_new,
}

pub Cmp-cases : (c : Cmp) → (c ≡ equal) ⊎ (c ≡ before) ⊎ (c ≡ after) ⊎ (c ≡ concurrent)
Cmp-cases equal = inl refl
Cmp-cases before = inr (inl refl)
Cmp-cases after = inr (inr (inl refl))
Cmp-cases concurrent = inr (inr (inr refl))

-- The version of y includes that of x.
abbrev pub seen_by : Object → Object → Bool
seen_by x y = before_or_equal (compare_to x y)

-- Some object of the list includes the version of x.
abbrev pub seen_in : Object → List Object → Bool
seen_in x ys = any (seen_by x) ys

pub seen_by_refl : (x : Object) → seen_by x x ≡ true
unfolding compare
seen_by_refl x = seen_refl x.context.vc

pub seen_by_trans : (x y z : Object) → seen_by x y ≡ true → seen_by y z ≡ true → seen_by x z ≡ true
unfolding compare
seen_by_trans x y z = seen_trans x.context.vc y.context.vc z.context.vc

pub compare_to-flip : (x y : Object) → compare_to y x ≡ flip (compare_to x y)
unfolding compare
compare_to-flip x y = compare-flip x.context.vc y.context.vc

pub seen_in_trans :
    (x y : Object) (zs : List Object)
    → seen_by x y ≡ true
    → seen_in y zs ≡ true
    → seen_in x zs ≡ true
seen_in_trans x y [] h k = cc
seen_in_trans x y (z ∷ zs) h k = elim (Bool-cases (seen_by y z)) [
  | inl p ↦ rw (seen_by_trans x y z h p)
  | inr p ↦ ground (arith, seen_in_trans x y zs h (rw p at k))
]

-- An object can be added exactly when no sibling includes its version.
pub can_be_added_to-seen_in :
    (x : Object) (ys : List Object) → can_be_added_to x ys ≡ not (seen_in x ys)
unfolding can_be_added_to
can_be_added_to-seen_in x [] = refl
can_be_added_to-seen_in x (y ∷ ys) = ground (arith, can_be_added_to-seen_in x ys)

module _ (sort : Object → Object → Bool) (c : Object) where
  seen_in-add_loop_self : (ss : List Object) → seen_in c (add_loop sort c false ss) ≡ true
  unfolding add_loop
  seen_in-add_loop_self [] = rw (seen_by_refl c)
  seen_in-add_loop_self (s ∷ ss) = ground (arith, seen_in-add_loop_self ss, seen_by_refl c)

  seen_in-add_loop :
      (x : Object) (added : Bool) (ss : List Object)
      → seen_in x ss ≡ true
      → (seen_by x c || seen_in x (add_loop sort c added ss)) ≡ true
  unfolding add_loop
  seen_in-add_loop x added [] h = cc
  seen_in-add_loop x added (s ∷ ss) h = ground (
    arith,
    seen_in-add_loop x true ss,
    seen_in-add_loop x added ss,
    compare_to-flip c s,
    seen_by_trans x s c,
  )

  module _ {ℓ} (P : Object → Type ℓ) where
    pub All-add_loop-true : (ss : List Object) → All P ss → All P (add_loop sort c true ss)
    unfolding add_loop
    All-add_loop-true [] h = tt
    All-add_loop-true (s ∷ ss) h =
        elim (compare_to c s)
          as (λ r. All P (elim r [
            | after ↦ add_loop sort c true ss
            | equal ↦ s ∷ add_loop sort c true ss
            | before ↦ s ∷ add_loop sort c true ss
            | concurrent ↦ s ∷ add_loop sort c true ss
          ])) [
            | after ↦ All-add_loop-true ss h.1
            | equal ↦ (h.0, All-add_loop-true ss h.1)
            | before ↦ (h.0, All-add_loop-true ss h.1)
            | concurrent ↦ (h.0, All-add_loop-true ss h.1)
          ]

    pub All-add_loop : (ss : List Object) → P c → All P ss → All P (add_loop sort c false ss)
    unfolding add_loop
    All-add_loop [] p h = (p, tt)
    All-add_loop (s ∷ ss) p h = elim (Cmp-cases (compare_to c s)) [
      | inl e ↦ rw (e, All) (h.0, All-add_loop-true ss h.1)
      | inr (inl e) ↦ rw (e, All) (p, (h.0, All-add_loop-true ss h.1))
      | inr (inr (inl e)) ↦ rw (e, All) (All-add_loop ss p h.1)
      | inr (inr (inr e)) ↦ elim (Bool-cases (sort c s)) [
        | inl q ↦ rw (e, q, All) (p, (h.0, All-add_loop-true ss h.1))
        | inr q ↦ rw (e, q, All) (h.0, All-add_loop ss p h.1)
      ]
    ]

module _ (ss : List Object) (c : Object) (sort : SortFunc) where
  -- After `AddObject` the candidate's version is included.
  pub seen_in-add_object_self : seen_in c (add_object ss c sort) ≡ true
  unfolding add_object
  seen_in-add_object_self = seen_in-add_loop_self (sort_or_default sort) c ss

  -- AddObject loses no version: what some sibling included before, some sibling includes after.
  pub seen_in-add_object :
      (x : Object) → seen_in x ss ≡ true → seen_in x (add_object ss c sort) ≡ true
  unfolding add_object
  seen_in-add_object x h = ground (
    arith,
    seen_in-add_loop (sort_or_default sort) c x false ss h,
    seen_in_trans x c (add_loop (sort_or_default sort) c false ss),
    seen_in-add_loop_self (sort_or_default sort) c ss,
  )

  -- `AddObject` invents nothing.
  pub All-add_object {ℓ} : (P : Object → Type ℓ) → P c → All P ss → All P (add_object ss c sort)
  unfolding add_object
  All-add_object P p h = All-add_loop (sort_or_default sort) c P ss p h

pub seen_in-add_new :
    (x : Object) (ss objs : List Object) → seen_in x ss ≡ true → seen_in x (add_new ss objs) ≡ true
unfolding add_new
seen_in-add_new x ss [] h = h
seen_in-add_new x ss (o ∷ objs) h = elim (Bool-cases (can_be_added_to o ss)) [
  | inl e ↦ rw e (seen_in-add_new x (add_object ss o none) objs (seen_in-add_object ss o none x h))
  | inr e ↦ rw e (seen_in-add_new x ss objs h)
]

add_new_step :
    (ss objs : List Object) (o : Object)
    → (ss' : List Object) × (add_new ss (o ∷ objs) ≡ add_new ss' objs) × (seen_in o ss' ≡ true)
unfolding add_new
add_new_step ss objs o = elim (Bool-cases (can_be_added_to o ss)) [
  | inl e ↦ (add_object ss o none, rw e, seen_in-add_object_self ss o none)
  | inr e ↦ (ss, rw e, ground (arith, can_be_added_to-seen_in o ss))
]

-- After the merge loop every incoming version is included.
pub seen_in-add_new_incoming :
    (ss objs : List Object) → All (λ o. seen_in o (add_new ss objs) ≡ true) objs
seen_in-add_new_incoming ss [] = tt
seen_in-add_new_incoming ss (o ∷ objs) =
    let (ss', e, own) = add_new_step ss objs o in
    subst (λ r. All (λ x. seen_in x r ≡ true) (o ∷ objs)) (sym e)
      (seen_in-add_new o ss' objs own, seen_in-add_new_incoming ss' objs)

-- The merge loop keeps what holds of every sibling and of every incoming object.
pub All-add_new {ℓ} :
    (P : Object → Type ℓ) (ss objs : List Object) → All P ss → All P objs → All P (add_new ss objs)
unfolding add_new
All-add_new P ss [] h k = h
All-add_new P ss (o ∷ objs) h k = elim (Bool-cases (can_be_added_to o ss)) [
  | inl e ↦
      rw (e, All) (All-add_new P (add_object ss o none) objs (All-add_object ss o none P k.0 h) k.1)
  | inr e ↦ rw (e, All) (All-add_new P ss objs h k.1)
]
