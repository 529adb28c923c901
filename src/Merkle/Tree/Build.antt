-- ===== src/Merkle/Tree/Build.antt =====
-- The tree that `buildMerkleTreeFromSnapshot` of src/kvsrv/merkle.go builds of a sector whose number
-- of buckets is a power of two.
use dynamo_kvsrv_pbs.Prelude.{
  ℕ, zero, suc, ◌+◌, ◌*◌, ◌^◌, ◌≤◌, ◌<◌, ◌≡◌, refl, sym, ◌∙◌, ap, String, List, [], ◌∷◌, ◌++◌, map,
  length, some, Bytes, arith, All, string_eq,
}
use mathlib.Core.Path.{subst}
use mathlib.Core.List.{append_assoc, append-nil}
use native.Mathlib.Numerals.{unary_clauses}
use dynamo_kvsrv_pbs.GoMap.{get_or}
use dynamo_kvsrv_pbs.Merkle.Tree.{
  MerkleNode, leaf_input, SectorSnapshot, make_merkle_leaf_from_snapshot,
  make_merkle_internal_node_from_snapshot, make_leaves, upper_nodes, build_levels,
  build_merkle_tree_from_snapshot,
}
use dynamo_kvsrv_pbs.Merkle.Diff.Collide.{HasSize}
use dynamo_kvsrv_pbs.Merkle.Tree.LevelOrder.{
  leaf_hashes, all_leaf_hashes, IsFull, full_leaf, full_inner,
}

power_suc : (d : ℕ) → 2 ^ suc d ≡ 2 ^ d * 2
power_suc d = simp unary_clauses (omega arith)

power_pos : (d : ℕ) → 1 ≤ 2 ^ d
power_pos zero = omega arith
power_pos (suc d) = omega (arith, power_suc d, power_pos d)

lt_power : (d : ℕ) → d < 2 ^ d
lt_power zero = omega arith
lt_power (suc d) = omega (arith, power_suc d, lt_power d)

-- The digest of a bucket in a snapshot.
abbrev pub bucket_hash : (Bytes → Bytes) → SectorSnapshot → List String → Bytes
bucket_hash sha256 snap keys = sha256 (leaf_input (λ key. get_or snap.siblings key []) keys)

module _ (sha256 : Bytes → Bytes) (size : HasSize sha256) where
  make_leaves-IsFull :
      (sector bucket : ℕ) (buckets : List (List String)) (snap : SectorSnapshot)
      → All (IsFull sha256 0) (make_leaves sha256 sector bucket buckets snap)
        × (length (make_leaves sha256 sector bucket buckets snap) ≡ length buckets)
        × (all_leaf_hashes (make_leaves sha256 sector bucket buckets snap)
            ≡ map (bucket_hash sha256 snap) buckets)
  unfolding make_leaves make_merkle_leaf_from_snapshot
  make_leaves-IsFull sector bucket [] snap = (tt, refl, refl)
  make_leaves-IsFull sector bucket (keys ∷ buckets) snap =
      let r = make_leaves-IsFull sector (bucket + 1) buckets snap in
      (
        (full_leaf sector bucket _ (size _), r.0),
        omega (arith, r.1),
        ap (bucket_hash sha256 snap keys ∷◌) r.2,
      )

  upper_nodes-IsFull :
      (n h : ℕ) (ts : List MerkleNode)
      → length ts ≡ n * 2
      → All (IsFull sha256 h) ts
      → All (IsFull sha256 (suc h)) (upper_nodes sha256 ts)
        × (length (upper_nodes sha256 ts) ≡ n)
        × (all_leaf_hashes (upper_nodes sha256 ts) ≡ all_leaf_hashes ts)
  unfolding upper_nodes make_merkle_internal_node_from_snapshot
  upper_nodes-IsFull zero h [] e f = (tt, refl, refl)
  upper_nodes-IsFull zero h (t ∷ ts) e f = absurd (omega (arith, e))
  upper_nodes-IsFull (suc n) h [] e f = absurd (omega (arith, e))
  upper_nodes-IsFull (suc n) h (t ∷ []) e f = absurd (omega (arith, e))
  upper_nodes-IsFull (suc n) h (t ∷ u ∷ ts) e f =
      let r = upper_nodes-IsFull n h ts (omega (arith, e)) f.1.1 in
      (
        (full_inner h _ _ t u _ (size _) refl f.0 f.1.0, r.0),
        omega (arith, r.1),
        ap (leaf_hashes t ++ leaf_hashes u ++◌) r.2
            ∙ append_assoc (leaf_hashes t) (leaf_hashes u) (all_leaf_hashes ts),
      )

  build_levels-IsFull :
      (d fuel h : ℕ) (ts : List MerkleNode)
      → length ts ≡ 2 ^ d
      → d ≤ fuel
      → All (IsFull sha256 h) ts
      → (root : MerkleNode) × (build_levels sha256 fuel ts ≡ some root)
        × IsFull sha256 (d + h) root
        × (leaf_hashes root ≡ all_leaf_hashes ts)
  unfolding build_levels
  build_levels-IsFull d fuel h [] e l f = absurd (omega (arith, e, power_pos d))
  build_levels-IsFull zero fuel h (t ∷ []) e l f =
      let height : h ≡ 0 + h = omega arith in
      (t, refl, subst (λ n. IsFull sha256 n t) height f.0, sym (append-nil (leaf_hashes t)))
  build_levels-IsFull zero fuel h (t ∷ u ∷ ts) e l f = absurd (omega (arith, e))
  build_levels-IsFull (suc d) fuel h (t ∷ []) e l f =
      absurd (omega (arith, e, power_suc d, power_pos d))
  build_levels-IsFull (suc d) zero h (t ∷ u ∷ ts) e l f = absurd (omega (arith, l))
  build_levels-IsFull (suc d) (suc fuel) h (t ∷ u ∷ ts) e l f =
      let up = upper_nodes-IsFull (2 ^ d) h (t ∷ u ∷ ts) (omega (arith, e, power_suc d)) f in
      let (root, k, full, leaves) =
        build_levels-IsFull d fuel (suc h) (upper_nodes sha256 (t ∷ u ∷ ts)) up.1 (omega (arith, l))
          up.0 in
      let height : d + suc h ≡ suc d + h = omega arith in
      (root, k, subst (λ n. IsFull sha256 n root) height full, leaves ∙ up.2)

-- Of a snapshot whose number of buckets is a power of two, buildMerkleTreeFromSnapshot returns a full
-- tree with a leaf for each bucket, in order, whose hash is the digest of the bucket's versions.
pub build_merkle_tree-IsFull :
    (sha256 : Bytes → Bytes) (d sector : ℕ) (snap : SectorSnapshot)
    → HasSize sha256
    → length snap.keys_per_bucket ≡ 2 ^ d
    → (root : MerkleNode) × (build_merkle_tree_from_snapshot sha256 sector snap ≡ some root)
      × IsFull sha256 d root
      × (leaf_hashes root ≡ map (bucket_hash sha256 snap) snap.keys_per_bucket)
unfolding build_merkle_tree_from_snapshot
build_merkle_tree-IsFull sha256 d sector snap size e =
    let (full, n, leaves) = make_leaves-IsFull sha256 size sector 0 snap.keys_per_bucket snap in
    let (root, k, f, l) =
      build_levels-IsFull sha256 size d (length snap.keys_per_bucket) 0
        (make_leaves sha256 sector 0 snap.keys_per_bucket snap) (n ∙ e)
        (omega (arith, e, lt_power d)) full in
    let height : d + 0 ≡ d = omega arith in
    (root, k, subst (λ n. IsFull sha256 n root) height f, l ∙ leaves)
