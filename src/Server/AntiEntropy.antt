-- ===== src/Server/AntiEntropy.antt =====
-- The Merkle trees of a server in src/kvsrv/merkle.go, and the repair of the differences that they
-- show, src/kvsrv/anti_entropy.go. `sha256` is the digest of `crypto/sha256`; `none` is an index out of
-- range, on a sector without buckets or on an empty summary.
pub mod Converge
pub mod Exchange
pub mod Buckets
pub mod Refresh
use dynamo_kvsrv_pbs.Prelude.{
  ℕ, ◌+◌, String, Bool, true, false, not, Option, none, some, List, [], ◌∷◌, ◌++◌, length,
  if◌then◌else◌, Bytes, string_eq, nat_eq, get_elem?,
}
use dynamo_kvsrv_pbs.GoMap.{GoMap, get, put}
use dynamo_kvsrv_pbs.Ring
use dynamo_kvsrv_pbs.Rpc.Object.{Object, copy_objects}
use dynamo_kvsrv_pbs.Rpc.Messages.{
  Err, ok, err_no_hash_value, KeyInfo, RepairArgs, RepairGetDiffArgs, RepairGetDiffReply,
}
use dynamo_kvsrv_pbs.Merkle.Tree.{
  MerkleNode, leaf, half, inner, hash_of, level_of, sector_of, SectorSnapshot, leaf_input,
  node_input, child_input, build_merkle_tree_from_snapshot, empty_hash, to_summary,
}
use dynamo_kvsrv_pbs.Merkle.Diff.{same_bytes, find_diff_buckets}
use dynamo_kvsrv_pbs.Server.{KvServer, siblings_of, get_siblings, row, get_keys_from_bucket}
use dynamo_kvsrv_pbs.Server.Store.{drain_dirty_sectors, merge_objects_core, repair_put}

-- The loops of `snapshotSector` over the keys of a bucket, and over the buckets.
unfoldable pub snapshot_keys :
    KvServer → List String → GoMap String (List Object) → GoMap String (List Object)
snapshot_keys kv [] siblings = siblings
snapshot_keys kv (k ∷ keys) siblings =
    snapshot_keys kv keys (put siblings k (copy_objects (siblings_of kv k)))

unfoldable pub snapshot_buckets :
    KvServer → List (List String) → GoMap String (List Object) → GoMap String (List Object)
unfolding snapshot_keys
snapshot_buckets kv [] siblings = siblings
snapshot_buckets kv (bucket ∷ buckets) siblings =
    snapshot_buckets kv buckets (snapshot_keys kv bucket siblings)

unfoldable pub snapshot_sector : KvServer → ℕ → SectorSnapshot
unfolding snapshot_buckets
snapshot_sector kv sector = record {
  keys_per_bucket = row kv.keys_in_buckets sector;
  siblings = snapshot_buckets kv (row kv.keys_in_buckets sector) [];
}

unfoldable pub get_merkle_root : KvServer → ℕ → Option MerkleNode
get_merkle_root kv sector = get kv.merkle_roots sector

-- The sectors from `first` on, one for each row of the table.
unfoldable pub sectors_from {ℓ} : {A : Type ℓ} → ℕ → List A → List ℕ
sectors_from first [] = []
sectors_from first (row ∷ rows) = first ∷ sectors_from (first + 1) rows

-- The loops of `RepairGetDiff` over the keys of a bucket, and over the buckets.
unfoldable pub key_infos : KvServer → List String → List KeyInfo
key_infos kv [] = []
key_infos kv (key ∷ keys) = record { key = key; objects = get_siblings kv key } ∷ key_infos kv keys

unfoldable pub bucket_infos : KvServer → ℕ → List ℕ → List KeyInfo
unfolding key_infos
bucket_infos kv sector [] = []
bucket_infos kv sector (bucket ∷ buckets) =
    key_infos kv (get_keys_from_bucket kv sector bucket) ++ bucket_infos kv sector buckets

module _ (sha256 : Bytes → Bytes) where
  -- `MakeMerkleLeaf` with the digest of `GetNodeDigest`.
  unfoldable pub make_merkle_leaf : KvServer → ℕ → ℕ → MerkleNode
  unfolding leaf_input
  make_merkle_leaf kv sector bucket =
      leaf sector bucket
        (sha256 (leaf_input (get_siblings kv) (get_keys_from_bucket kv sector bucket)))

  -- `MakeMerkleInternalNode` with the digest of `GetNodeDigest`.
  unfoldable pub make_merkle_internal_node : MerkleNode → Option MerkleNode → MerkleNode
  unfolding child_input
  make_merkle_internal_node left none =
      half (level_of left + 1) (sector_of left) left
        (sha256 (child_input (some left) ++ child_input none))
  make_merkle_internal_node left (some right) =
      inner (level_of left + 1) (sector_of left) left right
        (sha256 (child_input (some left) ++ child_input (some right)))

  unfoldable pub build_merkle_tree : KvServer → ℕ → Option MerkleNode
  unfolding build_merkle_tree_from_snapshot snapshot_sector
  build_merkle_tree kv sector =
      build_merkle_tree_from_snapshot sha256 sector (snapshot_sector kv sector)

  unfoldable pub rebuild_merkle_tree_for_sector : KvServer → ℕ → Option KvServer
  unfolding build_merkle_tree
  rebuild_merkle_tree_for_sector kv sector = elim (build_merkle_tree kv sector) [
    | none ↦ none
    | some root ↦ some (record kv { merkle_roots = put kv.merkle_roots sector root })
  ]

  -- The loops over sectors of `flushDirtyMerkle`.
  unfoldable pub rebuild_all : KvServer → List ℕ → Option KvServer
  unfolding rebuild_merkle_tree_for_sector
  rebuild_all kv [] = some kv
  rebuild_all kv (sector ∷ sectors) = elim (rebuild_merkle_tree_for_sector kv sector) [
    | none ↦ none
    | some kv' ↦ rebuild_all kv' sectors
  ]

  unfoldable pub flush_dirty_merkle : KvServer → Option KvServer
  unfolding rebuild_all
  flush_dirty_merkle kv = let (kv', sectors) = drain_dirty_sectors kv in rebuild_all kv' sectors

  unfoldable pub build_all_merkle_trees : KvServer → Option KvServer
  unfolding rebuild_all sectors_from
  build_all_merkle_trees kv = rebuild_all kv (sectors_from 0 kv.keys_in_buckets)

  unfoldable pub repair_get_diff : KvServer → RepairGetDiffArgs → Option RepairGetDiffReply
  unfolding find_diff_buckets bucket_infos same_bytes
  repair_get_diff kv args = elim (get_merkle_root kv args.sector) [
    | none ↦ some (record { diff_key_infos = []; err = err_no_hash_value })
    | some my_root ↦ elim (get_elem? args.summary.hashes 0) [
      | none ↦ none
      | some first ↦
          if same_bytes (hash_of my_root) first
          then some (record { diff_key_infos = []; err = ok })
          else elim (find_diff_buckets (empty_hash sha256) (to_summary my_root) args.summary) [
            | none ↦ none
            | some diff_buckets ↦
                some
                  (record { diff_key_infos = bucket_infos kv args.sector diff_buckets; err = ok })
          ]
    ]
  ]

-- What `Reconcile` sends to the owner of the neighbor sector, if the sector has a tree.
unfoldable pub reconcile_request : KvServer → ℕ → Option RepairGetDiffArgs
unfolding get_merkle_root to_summary
reconcile_request kv sector = elim (get_merkle_root kv sector) [
  | none ↦ none
  | some root ↦ some (record { sector = sector; summary = to_summary root })
]

-- The call of `RepairPut` for one key, where the merge has left objects.
unfoldable pub first_call : String → List Object → List RepairArgs → List RepairArgs
first_call key [] calls = calls
first_call key (o ∷ rest) calls =
    record { key = key; objects = o ∷ rest; is_delete = false } ∷ calls

-- `ApplyDiff`: the merges, and the calls of `RepairPut` in their order.
unfoldable pub apply_diff : List KeyInfo → KvServer → KvServer × List RepairArgs
unfolding first_call
apply_diff [] kv = (kv, [])
apply_diff (key_info ∷ infos) kv =
    let (kv', merged) = merge_objects_core kv key_info.key key_info.objects in
    let (kv'', calls) = apply_diff infos kv' in (kv'', first_call key_info.key merged calls)

-- `Reconcile` from the reply on; `none` is a failed call. The reply's error is not looked at where it
-- brings no differences: applying none does nothing.
unfoldable pub reconcile : KvServer → Option RepairGetDiffReply → KvServer × List RepairArgs
unfolding apply_diff
reconcile kv none = (kv, [])
reconcile kv (some reply) = elim reply.err [
  | err_no_hash_value ↦ (kv, [])
  | _ ↦ apply_diff reply.diff_key_infos kv
]

-- The neighbor after the calls of `RepairPut`.
unfoldable pub repair_all : List RepairArgs → KvServer → KvServer
repair_all [] kv = kv
repair_all (args ∷ calls) kv = repair_all calls (repair_put kv args).0
