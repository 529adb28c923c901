-- ===== src/Merkle/Encode/Lengths.antt =====
-- Lengths of what src/kvsrv/merkle.go writes into a hash, and of what it sorts before.
use dynamo_kvsrv_pbs.Prelude.{
  ℕ, zero, suc, ◌+◌, ◌/◌, ◌≡◌, refl, ◌∙◌, Bool, List, [], ◌∷◌, none, length, length-append, Bytes,
  arith, if◌then◌else◌, Bool-cases, inl, inr,
}
use dynamo_kvsrv_pbs.Rpc.Object.{
  Object, copy_objects, swaps, sweep, sort_rounds, sort_or_default, sort_objects, is_ordered,
}
use dynamo_kvsrv_pbs.Merkle.Encode.{little_endian, write_uint64, write_bytes, ordered}

pub length-little_endian : (n x : ℕ) → length (little_endian n x) ≡ n
unfolding little_endian
length-little_endian zero x = refl
length-little_endian (suc n) x = omega (arith, length-little_endian n (x / 256))

pub length-write_bytes : (b : Bytes) → length (write_bytes b) ≡ 8 + length b
unfolding write_bytes write_uint64
length-write_bytes b =
    omega (arith, length-append (write_uint64 (length b)) b, length-little_endian 8 (length b))

length-copy_objects : (objs : List Object) → length (copy_objects objs) ≡ length objs
unfolding copy_objects
length-copy_objects [] = refl
length-copy_objects (o ∷ objs) = omega (arith, length-copy_objects objs)

length-sweep :
    (sort : Object → Object → Bool) (x : Object) (ys : List Object)
    → length (sweep sort x ys).1 ≡ length ys
unfolding sweep
length-sweep sort x [] = refl
length-sweep sort x (y ∷ ys) = omega (arith, length-sweep sort (if swaps sort y x then y else x) ys)

length-sort_rounds :
    (sort : Object → Object → Bool) (n : ℕ) (objs : List Object)
    → length (sort_rounds sort n objs) ≡ length objs
unfolding sort_rounds
length-sort_rounds sort zero objs = refl
length-sort_rounds sort (suc n) [] = refl
length-sort_rounds sort (suc n) (x ∷ ys) =
    omega (arith, length-sort_rounds sort n (sweep sort x ys).1, length-sweep sort x ys)

pub length-ordered : (objs : List Object) → length (ordered objs) ≡ length objs
unfolding ordered sort_objects
length-ordered objs = elim (Bool-cases (is_ordered objs none)) [
  | inl e ↦ rw e refl
  | inr e ↦ rw e (
      length-sort_rounds (sort_or_default none) (length objs) (copy_objects objs)
      ∙ length-copy_objects objs)
]
