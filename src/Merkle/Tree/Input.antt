-- ===== src/Merkle/Tree/Input.antt =====
-- What a leaf of the Merkle tree of src/kvsrv/merkle.go hashes: equal inputs come from equal buckets.
use dynamo_kvsrv_pbs.Prelude.{
  ℕ, ◌≡◌, ◌≢◌, refl, sym, ◌∙◌, ap, String, List, [], ◌∷◌, ◌++◌, map, length, Bytes, arith, All,
  Bool-cases, inl, inr, is_sorted, before_string, length-sort_by,
}
use mathlib.Core.List.{append_assoc}
use dynamo_kvsrv_pbs.Rpc.Object.{Object}
use dynamo_kvsrv_pbs.Merkle.Encode.{
  write_uint64, write_string, write_objects, write_object, ordered, write_kv_pair,
}
use dynamo_kvsrv_pbs.Merkle.Encode.Lengths.{length-ordered}
use dynamo_kvsrv_pbs.Merkle.Encode.Injective.{
  IsReadable, IsUint64, IsFitString, IsFitObject, ObjectView, view_object, write_uint64-IsReadable,
  seq-IsReadable, list-IsReadable, write_string-IsReadable, write_object-IsReadable,
}
use dynamo_kvsrv_pbs.Merkle.Tree.{sorted_keys, write_pairs, leaf_input, empty_mark}

-- A key with its versions, and what is written of it.
abbrev Pair : Type 0
Pair = String × List Object

abbrev view_pair : Pair → String × List ObjectView
view_pair pair = (pair.0, map view_object (ordered pair.1))

abbrev IsFitPair : Pair → Type 0
IsFitPair pair = IsFitString pair.0 × IsUint64 (length pair.1) × All IsFitObject (ordered pair.1)

write_kv_pair-IsReadable : IsReadable IsFitPair (λ pair. write_kv_pair pair.0 pair.1) view_pair
unfolding write_kv_pair write_objects
write_kv_pair-IsReadable x y u v h k e =
    let head : Pair → Bytes = λ p. write_string p.0 ++ write_uint64 (length p.1) in
    let p =
      seq-IsReadable (λ (q : Pair). IsFitString q.0) (λ q. IsUint64 (length q.1))
        (λ q. write_string q.0) (λ q. write_uint64 (length q.1)) (λ q. q.0) (λ q. length q.1)
        (λ a b. write_string-IsReadable a.0 b.0)
        (λ a b. write_uint64-IsReadable (length a.1) (length b.1)) x y
        (write_objects (ordered x.1) ++ u) (write_objects (ordered y.1) ++ v) (h.0, h.1) (k.0, k.1)
        (sym (append_assoc (head x) (write_objects (ordered x.1)) u)
          ∙ e
          ∙ append_assoc (head y) (write_objects (ordered y.1)) v) in
    let keys = ap (λ q. q.0) p.0 in
    let counts = ap (λ q. q.1) p.0 in
    let q =
      list-IsReadable IsFitObject write_object view_object write_object-IsReadable write_objects
        refl (λ o os. refl) (ordered x.1) (ordered y.1) u v
        (length-ordered x.1 ∙ counts ∙ sym (length-ordered y.1)) h.2 k.2 p.1 in
    (cc (keys, q.0), q.1)

all_pairs : List Pair → Bytes
all_pairs [] = []
all_pairs (p ∷ ps) = write_kv_pair p.0 p.1 ++ all_pairs ps

abbrev pairs_of : (String → List Object) → List String → List Pair
pairs_of siblings keys = map (λ key. (key, siblings key)) keys

write_pairs-all_pairs :
    (siblings : String → List Object) (keys : List String)
    → write_pairs siblings keys ≡ all_pairs (pairs_of siblings keys)
unfolding write_pairs all_pairs
write_pairs-all_pairs siblings [] = refl
write_pairs-all_pairs siblings (key ∷ keys) =
    ap (write_kv_pair key (siblings key) ++◌) (write_pairs-all_pairs siblings keys)

length-pairs_of :
    (siblings : String → List Object) (keys : List String)
    → length (pairs_of siblings keys) ≡ length keys
length-pairs_of siblings [] = refl
length-pairs_of siblings (key ∷ keys) = omega (arith, length-pairs_of siblings keys)

pub length-sorted_keys : (keys : List String) → length (sorted_keys keys) ≡ length keys
unfolding sorted_keys
length-sorted_keys keys = elim (Bool-cases (is_sorted before_string keys)) [
  | inl e ↦ rw e refl
  | inr e ↦ rw e (length-sort_by before_string keys)
]

-- What a leaf's input shows of a bucket: its keys in order, each with its versions as they are
-- written, in order.
abbrev pub view_bucket : (String → List Object) → List String → List (String × List ObjectView)
view_bucket siblings keys = map view_pair (pairs_of siblings (sorted_keys keys))

-- Every length and number that is written of a bucket is a uint64.
pub record IsFitBucket (siblings : String → List Object) (keys : List String) : Type 0 where
  pub count : IsUint64 (length keys)
  pub pairs : All IsFitPair (pairs_of siblings (sorted_keys keys))

-- What a leaf hashes determines the bucket: two buckets with one input have the same keys, each
-- with the same values, timestamps and clocks, if all lengths and numbers that are written of
-- them fit in a uint64.
pub leaf_input_injective :
    (siblings other : String → List Object) (keys other_keys : List String)
    → IsFitBucket siblings keys
    → IsFitBucket other other_keys
    → leaf_input siblings keys ≡ leaf_input other other_keys
    → view_bucket siblings keys ≡ view_bucket other other_keys
unfolding leaf_input all_pairs
leaf_input_injective siblings other keys other_keys f g e =
    let first = write_pairs siblings (sorted_keys keys) in
    let second = write_pairs other (sorted_keys other_keys) in
    let marks = empty_mark ++ empty_mark in
    let regroup : (n : ℕ) (b : Bytes)
        → write_uint64 n ++ b ++ empty_mark ++ empty_mark ≡ write_uint64 n ++ (b ++ marks) =
      λ n b.
        append_assoc (write_uint64 n ++ b) empty_mark empty_mark
        ∙ append_assoc (write_uint64 n) b marks in
    let p =
      write_uint64-IsReadable (length keys) (length other_keys) (first ++ marks) (second ++ marks)
        f.count g.count
        (sym (regroup (length keys) first) ∙ e ∙ regroup (length other_keys) second) in
    let counts =
      length-pairs_of siblings (sorted_keys keys)
      ∙ length-sorted_keys keys
      ∙ p.0
      ∙ sym (length-sorted_keys other_keys)
      ∙ sym (length-pairs_of other (sorted_keys other_keys)) in
    (list-IsReadable IsFitPair (λ pair. write_kv_pair pair.0 pair.1) view_pair
      write_kv_pair-IsReadable all_pairs refl (λ q qs. refl) (pairs_of siblings (sorted_keys keys))
      (pairs_of other (sorted_keys other_keys)) marks marks counts f.pairs g.pairs
      (ap (λ q. q ++ marks) (sym (write_pairs-all_pairs siblings (sorted_keys keys)))
        ∙ p.1
        ∙ ap (λ q. q ++ marks) (write_pairs-all_pairs other (sorted_keys other_keys)))).0

-- What is written first shows whether there are keys.
pub leaf_input_nonempty :
    (siblings : String → List Object) (keys : List String)
    → IsUint64 (length keys)
    → keys ≢ []
    → leaf_input siblings keys ≢ write_uint64 0 ++ empty_mark ++ empty_mark
unfolding leaf_input
leaf_input_nonempty siblings [] f n e = n refl
leaf_input_nonempty siblings (key ∷ keys) f n e =
    let marks = empty_mark ++ empty_mark in
    let pairs = write_pairs siblings (sorted_keys (key ∷ keys)) in
    let regroup : write_uint64 (length (key ∷ keys)) ++ pairs ++ empty_mark ++ empty_mark
        ≡ write_uint64 (length (key ∷ keys)) ++ (pairs ++ marks) =
      append_assoc (write_uint64 (length (key ∷ keys)) ++ pairs) empty_mark empty_mark
      ∙ append_assoc (write_uint64 (length (key ∷ keys))) pairs marks in
    let p =
      write_uint64-IsReadable (length (key ∷ keys)) 0 (pairs ++ marks) marks f (omega arith)
        (sym regroup ∙ e ∙ append_assoc (write_uint64 0) empty_mark empty_mark) in
    absurd (omega (arith, p.0))
