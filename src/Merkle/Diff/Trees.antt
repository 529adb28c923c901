-- ===== src/Merkle/Diff/Trees.antt =====
-- `findDiffBuckets` of src/kvsrv/anti_entropy.go on the trees that src/kvsrv/merkle.go builds of two
-- snapshots of a sector.
use dynamo_kvsrv_pbs.Prelude.{
  All-mono, ℕ, zero, suc, ◌+◌, ◌*◌, ◌/◌, ◌^◌, ◌<◌, ◌≡◌, ◌≢◌, ◌⊎◌, ◌∙◌, inl, inr, refl, sym, ap,
  String, true, List, [], ◌∷◌, some, map, length, length-append, get_elem?, contains, nat_eq, eqb,
  eqb_iff, Bool-cases, Bytes, arith, All, string_eq,
}
use mathlib.Core.Option
use mathlib.Core.Path.{subst}
use dynamo_kvsrv_pbs.GoMap.{get_or}
use dynamo_kvsrv_pbs.Rpc.Object.{Object}
use dynamo_kvsrv_pbs.Merkle.Tree.{
  MerkleNode, SectorSnapshot, leaf_input, empty_hash, to_summary, build_merkle_tree_from_snapshot,
}
use dynamo_kvsrv_pbs.Merkle.Tree.Input.{
  view_bucket, IsFitBucket, leaf_input_injective, leaf_input_nonempty,
}
use dynamo_kvsrv_pbs.Merkle.Tree.LevelOrder.{
  IsLevelOrder, leaf_hashes, hash_at-behind, to_summary-IsLevelOrder,
}
use dynamo_kvsrv_pbs.Merkle.Tree.Build.{bucket_hash, build_merkle_tree-IsFull}
use dynamo_kvsrv_pbs.Merkle.Diff.{find_diff_buckets}
use dynamo_kvsrv_pbs.Merkle.Diff.Visit.{hash_at, same_or_not}
use dynamo_kvsrv_pbs.Merkle.Diff.Collide.{HasSize, Collision, IsHashTree, find_diff_buckets_lem}

-- The keys of a bucket in a snapshot.
abbrev pub keys_at : SectorSnapshot → ℕ → List String
keys_at snap bucket = Option.get_or (get_elem? snap.keys_per_bucket bucket) []

abbrev pub siblings_at : SectorSnapshot → String → List Object
siblings_at snap key = get_or snap.siblings key []

hash_at-map :
    (sha256 : Bytes → Bytes) (snap : SectorSnapshot) (buckets : List (List String)) (b : ℕ)
    → b < length buckets
    → hash_at (map (bucket_hash sha256 snap) buckets) b
      ≡ bucket_hash sha256 snap (Option.get_or (get_elem? buckets b) [])
hash_at-map sha256 snap [] b h = absurd (omega (arith, h))
hash_at-map sha256 snap (keys ∷ buckets) zero h = refl
hash_at-map sha256 snap (keys ∷ buckets) (suc b) h =
    hash_at-map sha256 snap buckets b (omega (arith, h))

hash_at-All :
    (P : Bytes → Type 0) (hashes : List Bytes) (i : ℕ)
    → All P hashes
    → i < length hashes
    → P (hash_at hashes i)
hash_at-All P [] i a h = absurd (omega (arith, h))
hash_at-All P (x ∷ hashes) zero a h = a.0
hash_at-All P (x ∷ hashes) (suc i) a h = hash_at-All P hashes i a.1 (omega (arith, h))

contains-All : (P : ℕ → Type 0) (xs : List ℕ) (x : ℕ) → All P xs → contains xs x ≡ true → P x
unfolding contains
contains-All P [] x a h = absurd (cc h)
contains-All P (y ∷ xs) x a h = elim (Bool-cases (eqb y x)) [
  | inl e ↦ subst P ((eqb_iff y x).0 e) a.0
  | inr e ↦ contains-All P xs x a.1 (ground (arith, h, e))
]

length-map : {A B : Type 0} (f : A → B) (xs : List A) → length (map f xs) ≡ length xs
length-map f [] = refl
length-map f (x ∷ xs) = omega (arith, length-map f xs)

-- The positions in a summary.
record IsSummary (sha256 : Bytes → Bytes) (leaves hashes : List Bytes) : Type 0 where
  odd : length hashes ≡ suc (length hashes / 2 * 2)
  half : suc (length hashes / 2) ≡ length leaves
  tree : IsHashTree sha256 hashes
  leaf_at : (b : ℕ) → hash_at hashes (b + length hashes / 2) ≡ hash_at leaves b

IsLevelOrder-IsSummary :
    (sha256 : Bytes → Bytes) (leaves hashes : List Bytes)
    → IsLevelOrder sha256 0 leaves hashes
    → IsSummary sha256 leaves hashes
IsLevelOrder-IsSummary sha256 leaves hashes o =
    let total : length hashes ≡ length o.upper + length leaves =
      ap length o.split ∙ length-append o.upper leaves in
    let middle : length hashes / 2 ≡ length o.upper = omega (arith, total, o.count) in
    record {
      odd = omega (arith, total, o.count);
      half = omega (arith, total, o.count);
      tree = record {
        above = λ pos h.
            let left : pos * 2 + 0 + 1 ≡ pos * 2 + 1 = omega arith in
            let right : pos * 2 + 0 + 2 ≡ pos * 2 + 2 = omega arith in
            o.above pos (omega (arith, h, middle)) ∙ cc (left, right);
        sizes = λ pos h. hash_at-All (λ hash. length hash ≡ 32) hashes pos o.sizes h;
      };
      leaf_at = λ b.
          let place : b + length hashes / 2 ≡ length o.upper + b = omega (arith, middle) in
          ap (hash_at hashes) place
          ∙ ap (λ q. hash_at q (length o.upper + b)) o.split
          ∙ hash_at-behind o.upper leaves b;
    }

-- A built tree, and where its summary has the hashes of the buckets.
record IsBuilt (sha256 : Bytes → Bytes) (sector : ℕ) (snap : SectorSnapshot) (root : MerkleNode)
    : Type 0 where
  built : build_merkle_tree_from_snapshot sha256 sector snap ≡ some root
  summary :
      IsSummary sha256 (map (bucket_hash sha256 snap) snap.keys_per_bucket) (to_summary root).hashes

build-IsBuilt :
    (sha256 : Bytes → Bytes) (d sector : ℕ) (snap : SectorSnapshot)
    → HasSize sha256
    → length snap.keys_per_bucket ≡ 2 ^ d
    → (root : MerkleNode) × IsBuilt sha256 sector snap root
build-IsBuilt sha256 d sector snap size e =
    let (root, b, full, leaves) = build_merkle_tree-IsFull sha256 d sector snap size e in
    (
      root,
      record {
        built = b;
        summary =
            subst (λ q. IsSummary sha256 q (to_summary root).hashes) leaves
              (IsLevelOrder-IsSummary sha256 (leaf_hashes root) (to_summary root).hashes
                (to_summary-IsLevelOrder sha256 d root full));
      },
    )

-- Two inputs with one digest are equal, or a collision.
same_digest :
    (sha256 : Bytes → Bytes) (x y : Bytes) → sha256 x ≡ sha256 y → Collision sha256 ⊎ (x ≡ y)
same_digest sha256 x y e = elim (same_or_not x y) [ inl p ↦ inr p | inr n ↦ inl (x, y, n, e) ]

-- The inputs of the leaves of a bucket.
abbrev pub input_at : SectorSnapshot → ℕ → Bytes
input_at snap b = leaf_input (siblings_at snap) (keys_at snap b)

abbrev pub IsFound : (Bytes → Bytes) → ℕ → SectorSnapshot → SectorSnapshot → List ℕ → Type 0
IsFound sha256 sector mine theirs buckets =
    (my_root : MerkleNode) × (their_root : MerkleNode) × (build_merkle_tree_from_snapshot sha256
        sector mine
      ≡ some my_root)
    × (build_merkle_tree_from_snapshot sha256 sector theirs ≡ some their_root)
    × (find_diff_buckets (empty_hash sha256) (to_summary my_root) (to_summary their_root)
        ≡ some buckets)

module _ (sha256 : Bytes → Bytes) (d sector : ℕ) (mine theirs : SectorSnapshot)
    (size : HasSize sha256) (my_count : length mine.keys_per_bucket ≡ 2 ^ d)
    (their_count : length theirs.keys_per_bucket ≡ 2 ^ d) where
  -- What findDiffBuckets finds, in the terms of the snapshots.
  trees-IsFound :
      (buckets : List ℕ) × IsFound sha256 sector mine theirs buckets
      × All (λ b. (b < 2 ^ d) × (sha256 (input_at mine b) ≢ sha256 (input_at theirs b))) buckets
      × ((b : ℕ)
          → b < 2 ^ d
          → sha256 (input_at mine b) ≢ sha256 (input_at theirs b)
          → sha256 (input_at mine b) ≢ empty_hash sha256
          → Collision sha256 ⊎ (contains buckets b ≡ true))
  trees-IsFound =
      let (my_root, my_built) = build-IsBuilt sha256 d sector mine size my_count in
      let (their_root, their_built) = build-IsBuilt sha256 d sector theirs size their_count in
      let m = my_built.summary in
      let t = their_built.summary in
      let my_leaves = length-map (bucket_hash sha256 mine) mine.keys_per_bucket in
      let their_leaves = length-map (bucket_hash sha256 theirs) theirs.keys_per_bucket in
      let same_half : length (to_summary my_root).hashes / 2
          ≡ length (to_summary their_root).hashes / 2 =
        omega (arith, m.half, t.half, my_leaves, their_leaves, my_count, their_count) in
      let my_hash : (b : ℕ)
          → b < 2 ^ d
          → hash_at (to_summary my_root).hashes (b + length (to_summary my_root).hashes / 2)
            ≡ sha256 (input_at mine b) =
        λ b h.
          m.leaf_at b
          ∙ hash_at-map sha256 mine mine.keys_per_bucket b (omega (arith, h, my_count)) in
      let their_hash : (b : ℕ)
          → b < 2 ^ d
          → hash_at (to_summary their_root).hashes (b + length (to_summary my_root).hashes / 2)
            ≡ sha256 (input_at theirs b) =
        λ b h.
          ap (λ n. hash_at (to_summary their_root).hashes (b + n)) same_half
          ∙ t.leaf_at b
          ∙ hash_at-map sha256 theirs theirs.keys_per_bucket b (omega (arith, h, their_count)) in
      let (buckets, found, sound, complete) =
        find_diff_buckets_lem sha256 (to_summary my_root) (to_summary their_root) size
          (record { odd = m.odd; even_lengths = omega (arith, same_half, m.odd, t.odd) }) m.tree
          t.tree in
      let in_range : (b : ℕ)
          → b < 2 ^ d
          → b + length (to_summary my_root).hashes / 2 < length (to_summary my_root).hashes =
        λ b h. omega (arith, h, m.half, m.odd, my_leaves, my_count) in
      (
        buckets,
        (my_root, their_root, my_built.built, their_built.built, found),
        All-mono
            (λ b h.
              let below : b < 2 ^ d = omega (arith, h.0, m.half, m.odd, my_leaves, my_count) in
              (below, λ e. h.1 (my_hash b below ∙ e ∙ sym (their_hash b below))))
            buckets sound,
        λ b h n f.
            complete b (in_range b h, λ e. n (sym (my_hash b h) ∙ e ∙ their_hash b h))
              (λ e. f (sym (my_hash b h) ∙ e)),
      )

-- findDiffBuckets on the trees of two snapshots of a sector, whose number of buckets is a power
-- of two, returns, without an index out of range, buckets that do differ: what a leaf hashes of
-- one is not the same in the two snapshots, if the digest has 32 bytes.
pub find_diff_buckets_sound :
    (sha256 : Bytes → Bytes) (d sector : ℕ) (mine theirs : SectorSnapshot)
    → HasSize sha256
    → length mine.keys_per_bucket ≡ 2 ^ d
    → length theirs.keys_per_bucket ≡ 2 ^ d
    → (buckets : List ℕ) × IsFound sha256 sector mine theirs buckets
      × All (λ b. (b < 2 ^ d) × (input_at mine b ≢ input_at theirs b)) buckets
find_diff_buckets_sound sha256 d sector mine theirs size m t =
    let (buckets, trees, sound, complete) = trees-IsFound sha256 d sector mine theirs size m t in
    (buckets, trees, All-mono (λ b h. (h.0, λ e. h.1 (ap sha256 e))) buckets sound)

-- Of the trees of two snapshots of a sector, whose number of buckets is a power of two,
-- findDiffBuckets returns each bucket in which the first has keys and the two differ in a key, a
-- value, a timestamp or a clock, or the digest has a collision, if the digest has 32 bytes and
-- all lengths and numbers of the bucket fit in a uint64.
pub find_diff_buckets_finds :
    (sha256 : Bytes → Bytes) (d sector : ℕ) (mine theirs : SectorSnapshot) (b : ℕ)
    → HasSize sha256
    → length mine.keys_per_bucket ≡ 2 ^ d
    → length theirs.keys_per_bucket ≡ 2 ^ d
    → b < 2 ^ d
    → IsFitBucket (siblings_at mine) (keys_at mine b)
    → IsFitBucket (siblings_at theirs) (keys_at theirs b)
    → keys_at mine b ≢ []
    → view_bucket (siblings_at mine) (keys_at mine b)
      ≢ view_bucket (siblings_at theirs) (keys_at theirs b)
    → (buckets : List ℕ) × IsFound sha256 sector mine theirs buckets
      × (Collision sha256 ⊎ (contains buckets b ≡ true))
unfolding empty_hash
find_diff_buckets_finds sha256 d sector mine theirs b size m t below f g n v =
    let (buckets, trees, sound, complete) = trees-IsFound sha256 d sector mine theirs size m t in
    (
      buckets,
      trees,
      elim (same_or_not (sha256 (input_at mine b)) (sha256 (input_at theirs b))) [
        | inl e ↦ elim (same_digest sha256 _ _ e) [
          | inl c ↦ inl c
          | inr same ↦ absurd (
              v (
                leaf_input_injective (siblings_at mine) (siblings_at theirs) (keys_at mine b)
                  (keys_at theirs b) f g same))
        ]
        | inr e ↦ elim (same_or_not (sha256 (input_at mine b)) (empty_hash sha256)) [
          | inl k ↦ elim (same_digest sha256 _ _ k) [
            | inl c ↦ inl c
            | inr same ↦
                absurd (leaf_input_nonempty (siblings_at mine) (keys_at mine b) f.count n same)
          ]
          | inr k ↦ complete b below e k
        ]
      ],
    )
