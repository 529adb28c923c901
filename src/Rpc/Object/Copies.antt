-- ===== src/Rpc/Object/Copies.antt =====
-- The versions of the copies that `CopyObjects` of src/kvsrv/rpc/object.go makes.
use dynamo_kvsrv_pbs.Prelude.{◌≡◌, ◌∙◌, refl, List, [], ◌∷◌, arith, All}
use dynamo_kvsrv_pbs.VClock.Laws.{compare-copy, compare-copy_right}
use dynamo_kvsrv_pbs.Rpc.Context.{compare, copy}
use dynamo_kvsrv_pbs.Rpc.Object.{Object, compare_to, copy_object, copy_objects}
use dynamo_kvsrv_pbs.Rpc.Object.Seen.{seen_in}
use dynamo_kvsrv_pbs.Rpc.Object.Antichain.{IsConcurrent, IsAntichain}
use dynamo_kvsrv_pbs.Rpc.Object.Sorted.{NotLater, IsSorted}

pub compare_to-copy_object :
    (x y : Object) → compare_to (copy_object x) (copy_object y) ≡ compare_to x y
unfolding compare copy copy_object
compare_to-copy_object x y = compare-copy x.context.vc y.context.vc

pub compare_to-copy_right : (x y : Object) → compare_to x (copy_object y) ≡ compare_to x y
unfolding compare copy copy_object
compare_to-copy_right x y = compare-copy_right x.context.vc y.context.vc

-- A version is included in the copies exactly when it is included in the objects.
pub seen_in-copy_objects :
    (x : Object) (ys : List Object) → seen_in x (copy_objects ys) ≡ seen_in x ys
unfolding copy_objects
seen_in-copy_objects x [] = refl
seen_in-copy_objects x (y ∷ ys) =
    ground (arith, compare_to-copy_right x y, seen_in-copy_objects x ys)

IsConcurrent-copies :
    (x : Object) (ys : List Object)
    → All (IsConcurrent x) ys
    → All (IsConcurrent (copy_object x)) (copy_objects ys)
unfolding copy_objects
IsConcurrent-copies x [] h = tt
IsConcurrent-copies x (y ∷ ys) h = (compare_to-copy_object x y ∙ h.0, IsConcurrent-copies x ys h.1)

pub copy_objects-IsAntichain : (xs : List Object) → IsAntichain xs → IsAntichain (copy_objects xs)
unfolding copy_objects
copy_objects-IsAntichain [] h = tt
copy_objects-IsAntichain (x ∷ xs) h =
    (IsConcurrent-copies x xs h.0, copy_objects-IsAntichain xs h.1)

later-copies :
    (x : Object) (ys : List Object)
    → All (NotLater x) ys
    → All (NotLater (copy_object x)) (copy_objects ys)
unfolding copy_objects copy
later-copies x [] h = tt
later-copies x (y ∷ ys) h = (h.0, later-copies x ys h.1)

pub copy_objects-IsSorted : (xs : List Object) → IsSorted xs → IsSorted (copy_objects xs)
unfolding copy_objects
copy_objects-IsSorted [] h = tt
copy_objects-IsSorted (x ∷ xs) h = (later-copies x xs h.0, copy_objects-IsSorted xs h.1)
