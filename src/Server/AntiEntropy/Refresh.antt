-- ===== src/Server/AntiEntropy/Refresh.antt =====
-- The refresh of the trees of dirty sectors: `flushDirtyMerkle` of src/kvsrv/merkle.go.
use dynamo_kvsrv_pbs.Prelude.{
  if◌then◌else◌, ℕ, ◌^◌, ◌≡◌, inl, inr, refl, sym, ◌∙◌, ap, String, true, false, List, [], ◌∷◌,
  some, length, contains, nat_eq, string_eq, eqb, eqb_iff, Bool-cases, Bytes, arith, All,
}
use dynamo_kvsrv_pbs.GoMap.{GoMap, get, put, get-put}
use dynamo_kvsrv_pbs.Rpc.Object.{Object}
use dynamo_kvsrv_pbs.Merkle.Tree.{MerkleNode, build_merkle_tree_from_snapshot}
use dynamo_kvsrv_pbs.Merkle.Tree.Build.{build_merkle_tree-IsFull}
use dynamo_kvsrv_pbs.Merkle.Diff.Collide.{HasSize}
use dynamo_kvsrv_pbs.Server.{KvServer, siblings_of, row}
use dynamo_kvsrv_pbs.Server.Store.{drain_dirty_sectors}
use dynamo_kvsrv_pbs.Server.AntiEntropy.{
  get_merkle_root, snapshot_keys, snapshot_buckets, snapshot_sector, build_merkle_tree,
  rebuild_merkle_tree_for_sector, rebuild_all, flush_dirty_merkle,
}

-- A server with other trees and the same store.
abbrev with_roots : KvServer → GoMap ℕ MerkleNode → KvServer
with_roots kv roots = record kv { merkle_roots = roots }

snapshot_keys_with :
    (kv : KvServer) (roots : GoMap ℕ MerkleNode) (keys : List String)
    (siblings : GoMap String (List Object))
    → snapshot_keys (with_roots kv roots) keys siblings ≡ snapshot_keys kv keys siblings
unfolding snapshot_keys siblings_of
snapshot_keys_with kv roots [] siblings = refl
snapshot_keys_with kv roots (k ∷ keys) siblings = snapshot_keys_with kv roots keys _

snapshot_buckets_with :
    (kv : KvServer) (roots : GoMap ℕ MerkleNode) (buckets : List (List String))
    (siblings : GoMap String (List Object))
    → snapshot_buckets (with_roots kv roots) buckets siblings ≡ snapshot_buckets kv buckets siblings
unfolding snapshot_buckets
snapshot_buckets_with kv roots [] siblings = refl
snapshot_buckets_with kv roots (bucket ∷ buckets) siblings =
    ap (snapshot_buckets (with_roots kv roots) buckets)
      (snapshot_keys_with kv roots bucket siblings)
    ∙ snapshot_buckets_with kv roots buckets (snapshot_keys kv bucket siblings)

-- A tree does not depend on the trees that the server has.
build_merkle_tree_with :
    (sha256 : Bytes → Bytes) (kv : KvServer) (roots : GoMap ℕ MerkleNode) (sector : ℕ)
    → build_merkle_tree sha256 (with_roots kv roots) sector ≡ build_merkle_tree sha256 kv sector
unfolding build_merkle_tree snapshot_sector
build_merkle_tree_with sha256 kv roots sector =
    ap
      (λ siblings.
        build_merkle_tree_from_snapshot sha256 sector
          (record { keys_per_bucket = row kv.keys_in_buckets sector; siblings = siblings }))
      (snapshot_buckets_with kv roots (row kv.keys_in_buckets sector) [])

module _ (sha256 : Bytes → Bytes) (size : HasSize sha256) (d : ℕ) (kv : KvServer) where
  -- The trees after the rebuilding of some sectors.
  record IsRebuilt (roots : GoMap ℕ MerkleNode) (sectors : List ℕ) (roots' : GoMap ℕ MerkleNode)
      : Type 0 where
    rebuilt : (s : ℕ) → contains sectors s ≡ true → get roots' s ≡ build_merkle_tree sha256 kv s
    kept : (s : ℕ) → contains sectors s ≡ false → get roots' s ≡ get roots s

  counted :
      (sector : ℕ)
      → length (row kv.keys_in_buckets sector) ≡ 2 ^ d
      → length (snapshot_sector kv sector).keys_per_bucket ≡ 2 ^ d
  unfolding snapshot_sector
  counted sector e = e

  built_now :
      (sector : ℕ) (root : MerkleNode)
      → build_merkle_tree_from_snapshot sha256 sector (snapshot_sector kv sector) ≡ some root
      → build_merkle_tree sha256 kv sector ≡ some root
  unfolding build_merkle_tree
  built_now sector root e = e

  rebuild_all-IsRebuilt :
      (sectors : List ℕ) (roots : GoMap ℕ MerkleNode)
      → All (λ s. length (row kv.keys_in_buckets s) ≡ 2 ^ d) sectors
      → (roots' : GoMap ℕ MerkleNode) × (rebuild_all sha256 (with_roots kv roots) sectors
          ≡ some (with_roots kv roots'))
        × IsRebuilt roots sectors roots'
  unfolding rebuild_all rebuild_merkle_tree_for_sector contains
  rebuild_all-IsRebuilt [] roots h =
      (roots, refl, record { rebuilt = λ s k. absurd (cc k); kept = λ s k. refl })
  rebuild_all-IsRebuilt (sector ∷ sectors) roots h =
      let (root, built, _, _) =
        build_merkle_tree-IsFull sha256 d sector (snapshot_sector kv sector) size
          (counted sector h.0) in
      let (roots', done, r) = rebuild_all-IsRebuilt sectors (put roots sector root) h.1 in
      let here : build_merkle_tree sha256 (with_roots kv roots) sector ≡ some root =
        build_merkle_tree_with sha256 kv roots sector ∙ built_now sector root built in
      (
        roots',
        rw (here, rebuild_all, rebuild_merkle_tree_for_sector) done,
        record {
          rebuilt = λ s k. elim (Bool-cases (contains sectors s)) [
            | inl e ↦ r.rebuilt s e
            | inr e ↦
                let same : eqb sector s ≡ true = ground (arith, k, e) in
                r.kept s e
                ∙ get-put roots sector root s
                ∙ rw same (
                    sym (built_now sector root built)
                    ∙ ap (build_merkle_tree sha256 kv) ((eqb_iff sector s).0 same))
          ];
          kept = λ s k.
              let other : eqb sector s ≡ false = ground (arith, k) in
              let rest : contains sectors s ≡ false = ground (arith, k) in
              r.kept s rest ∙ get-put roots sector root s ∙ rw other refl;
        },
      )

-- flushDirtyMerkle returns and leaves no sector dirty: a sector that was dirty has the tree that
-- it would build now, and the tree of any other sector is what it was, if the number of buckets
-- of each dirty sector is the same power of two and the digest has 32 bytes.
pub flush_dirty_merkle_lem :
    (sha256 : Bytes → Bytes) (d : ℕ) (kv : KvServer) (s : ℕ)
    → HasSize sha256
    → All (λ t. length (row kv.keys_in_buckets t) ≡ 2 ^ d) kv.dirty_sectors
    → (kv' : KvServer) × (flush_dirty_merkle sha256 kv ≡ some kv')
      × (kv'.dirty_sectors ≡ [])
      × (get_merkle_root kv' s ≡ (
          if contains kv.dirty_sectors s
          then build_merkle_tree sha256 kv' s
          else get_merkle_root kv s))
unfolding flush_dirty_merkle drain_dirty_sectors get_merkle_root
flush_dirty_merkle_lem sha256 d kv s size h =
    let drained : KvServer = record kv { dirty_sectors = [] } in
    let (roots, done, r) =
      rebuild_all-IsRebuilt sha256 size d drained kv.dirty_sectors kv.merkle_roots h in
    (
      with_roots drained roots,
      done,
      refl,
      elim (Bool-cases (contains kv.dirty_sectors s)) [
        | inl k ↦ rw k (r.rebuilt s k ∙ sym (build_merkle_tree_with sha256 drained roots s))
        | inr k ↦ rw k (r.kept s k)
      ],
    )
