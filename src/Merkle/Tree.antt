-- ===== src/Merkle/Tree.antt =====
-- The Merkle tree of a sector: src/kvsrv/merkle.go. `sha256` is the digest of `crypto/sha256`. The
-- pointer to a parent is left out: nothing but `IsRoot` reads it.
pub mod Input
pub mod LevelOrder
pub mod Build
use dynamo_kvsrv_pbs.Prelude.{
  ℕ, zero, suc, ◌+◌, String, Bool, true, false, not, List, [], ◌∷◌, ◌++◌, Option, none, some,
  length, get_elem?, if◌then◌else◌, Bytes, is_sorted, sort_by, before_string, string_eq,
}
use dynamo_kvsrv_pbs.GoMap.{GoMap, get_or, put}
use dynamo_kvsrv_pbs.Rpc.Object.{Object}
use dynamo_kvsrv_pbs.Rpc.Messages.{TreeSummary}
use dynamo_kvsrv_pbs.Merkle.Encode.{write_uint64, write_string, write_bytes, write_kv_pair}

-- A leaf, a node without a right child, and one with both children. A leaf has level 0 and a bucket.
pub data MerkleNode : Type 0 where
  leaf : (sector bucket : ℕ) → (hash : Bytes) → MerkleNode
  half : (level sector : ℕ) → MerkleNode → (hash : Bytes) → MerkleNode
  inner : (level sector : ℕ) → MerkleNode → MerkleNode → (hash : Bytes) → MerkleNode

abbrev pub hash_of : MerkleNode → Bytes
hash_of (leaf sector bucket hash) = hash
hash_of (half level sector left hash) = hash
hash_of (inner level sector left right hash) = hash

abbrev pub level_of : MerkleNode → ℕ
level_of (leaf sector bucket hash) = 0
level_of (half level sector left hash) = level
level_of (inner level sector left right hash) = level

abbrev pub sector_of : MerkleNode → ℕ
sector_of (leaf sector bucket hash) = sector
sector_of (half level sector left hash) = sector
sector_of (inner level sector left right hash) = sector

unfoldable pub is_leaf : MerkleNode → Bool
is_leaf (leaf _ _ _) = true
is_leaf _ = false

-- Both children are there.
unfoldable pub is_internal : MerkleNode → Bool
is_internal (inner _ _ _ _ _) = true
is_internal _ = false

-- The versions of a sector at one moment.
pub record SectorSnapshot : Type 0 where
  pub keys_per_bucket : List (List String)
  pub siblings : GoMap String (List Object)

abbrev pub empty_mark : Bytes
empty_mark = write_string "empty"

-- The keys of a bucket in order.
unfoldable pub sorted_keys : List String → List String
sorted_keys keys = if not (is_sorted before_string keys) then sort_by before_string keys else keys

unfoldable pub write_pairs : (String → List Object) → List String → Bytes
write_pairs siblings [] = []
write_pairs siblings (key ∷ keys) = write_kv_pair key (siblings key) ++ write_pairs siblings keys

-- What a leaf hashes.
unfoldable pub leaf_input : (String → List Object) → List String → Bytes
unfolding sorted_keys write_pairs
leaf_input siblings keys =
    write_uint64 (length keys)
    ++ write_pairs siblings (sorted_keys keys)
    ++ empty_mark
    ++ empty_mark

-- What a node above the leaves hashes; a missing child is marked.
unfoldable pub child_input : Option MerkleNode → Bytes
child_input none = empty_mark
child_input (some node) = write_bytes (hash_of node)

unfoldable pub node_input : Bytes → Bytes → Bytes
node_input left right = write_bytes left ++ write_bytes right

module _ (sha256 : Bytes → Bytes) where
  unfoldable pub make_merkle_leaf_from_snapshot : ℕ → ℕ → List String → SectorSnapshot → MerkleNode
  unfolding leaf_input
  make_merkle_leaf_from_snapshot sector bucket keys snap =
      leaf sector bucket (sha256 (leaf_input (λ key. get_or snap.siblings key []) keys))

  unfoldable pub make_merkle_internal_node_from_snapshot :
      MerkleNode → Option MerkleNode → MerkleNode
  unfolding child_input
  make_merkle_internal_node_from_snapshot left none =
      half (level_of left + 1) (sector_of left) left
        (sha256 (write_bytes (hash_of left) ++ child_input none))
  make_merkle_internal_node_from_snapshot left (some right) =
      inner (level_of left + 1) (sector_of left) left right
        (sha256 (node_input (hash_of left) (hash_of right)))

  -- The leaves of the buckets from `bucket` on.
  unfoldable pub make_leaves : ℕ → ℕ → List (List String) → SectorSnapshot → List MerkleNode
  unfolding make_merkle_leaf_from_snapshot
  make_leaves sector bucket [] snap = []
  make_leaves sector bucket (keys ∷ buckets) snap =
      make_merkle_leaf_from_snapshot sector bucket keys snap
      ∷ make_leaves sector (bucket + 1) buckets snap

  -- One round of the loop: the nodes above a level.
  unfoldable pub upper_nodes : List MerkleNode → List MerkleNode
  unfolding make_merkle_internal_node_from_snapshot
  upper_nodes [] = []
  upper_nodes (left ∷ []) = make_merkle_internal_node_from_snapshot left none ∷ []
  upper_nodes (left ∷ right ∷ rest) =
      make_merkle_internal_node_from_snapshot left (some right) ∷ upper_nodes rest

  -- The loop over the levels; each round leaves fewer nodes. `none` is the index out of range on a
  -- sector without buckets, or a want of fuel.
  unfoldable pub build_levels : ℕ → List MerkleNode → Option MerkleNode
  unfolding upper_nodes
  build_levels fuel [] = none
  build_levels fuel (node ∷ []) = some node
  build_levels zero (node ∷ other ∷ rest) = none
  build_levels (suc fuel) (node ∷ other ∷ rest) =
      build_levels fuel (upper_nodes (node ∷ other ∷ rest))

  unfoldable pub build_merkle_tree_from_snapshot : ℕ → SectorSnapshot → Option MerkleNode
  unfolding build_levels make_leaves
  build_merkle_tree_from_snapshot sector snap =
      build_levels (length snap.keys_per_bucket) (make_leaves sector 0 snap.keys_per_bucket snap)

  -- `IsEmptyHash`: the hash of a bucket without keys.
  unfoldable pub empty_hash : Bytes
  empty_hash = sha256 (write_uint64 0 ++ empty_mark ++ empty_mark)

-- How many nodes a queue of nodes holds.
unfoldable pub node_count : MerkleNode → ℕ
node_count (leaf _ _ _) = 1
node_count (half _ _ left _) = suc (node_count left)
node_count (inner _ _ left right _) = suc (node_count left + node_count right)

-- The children that `ToSummary` appends to its queue: those of a node with two.
unfoldable pub next_nodes : MerkleNode → List MerkleNode
next_nodes (inner _ _ left right _) = left ∷ right ∷ []
next_nodes _ = []

-- The loop of `ToSummary` on its queue. In a tree no node is visited twice.
unfoldable pub summary_loop : ℕ → List MerkleNode → List Bytes
unfolding next_nodes
summary_loop fuel [] = []
summary_loop zero (node ∷ queue) = []
summary_loop (suc fuel) (node ∷ queue) = hash_of node ∷ summary_loop fuel (queue ++ next_nodes node)

unfoldable pub to_summary : MerkleNode → TreeSummary
unfolding summary_loop node_count
to_summary root = record {
  sector = sector_of root;
  hashes = summary_loop (node_count root) (root ∷ []);
}
