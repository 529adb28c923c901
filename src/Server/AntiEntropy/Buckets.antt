-- ===== src/Server/AntiEntropy/Buckets.antt =====
-- One reconciliation of two servers whose Merkle trees are up to date: src/kvsrv/anti_entropy.go on the
-- trees of src/kvsrv/merkle.go.
use dynamo_kvsrv_pbs.Prelude.{
  ℕ, ◌^◌, ◌<◌, ◌≡◌, ◌≢◌, ◌⊎◌, inl, inr, refl, sym, ◌∙◌, ap, String, true, false, List, [], ◌∷◌,
  ◌++◌, some, length, get_elem?, contains, string_eq, nat_eq, eqb, eqb_iff, Bool-cases, Bytes,
  arith, All, ◌==◌,
}
use mathlib.Core.Path.{subst}
use dynamo_kvsrv_pbs.Rpc.Messages.{ok, TreeSummary, RepairGetDiffArgs, RepairGetDiffReply}
use dynamo_kvsrv_pbs.Merkle.Encode.Injective.{ObjectView}
use dynamo_kvsrv_pbs.Merkle.Tree.{
  MerkleNode, leaf, half, inner, hash_of, node_count, summary_loop, to_summary, empty_hash,
}
use dynamo_kvsrv_pbs.Merkle.Tree.Input.{view_bucket, IsFitBucket}
use dynamo_kvsrv_pbs.Merkle.Diff.{same_bytes, visit, diff_loop, find_diff_buckets}
use dynamo_kvsrv_pbs.Merkle.Diff.Collide.{HasSize, Collision}
use dynamo_kvsrv_pbs.Merkle.Diff.Trees.{keys_at, siblings_at, find_diff_buckets_finds}
use dynamo_kvsrv_pbs.Server.{KvServer, row, get_keys_from_bucket}
use dynamo_kvsrv_pbs.Server.AntiEntropy.{
  get_merkle_root, snapshot_sector, build_merkle_tree, key_infos, bucket_infos, repair_get_diff,
  reconcile_request, reconcile, repair_all,
}
use dynamo_kvsrv_pbs.Rpc.Object.{Object}
use dynamo_kvsrv_pbs.Server.AntiEntropy.Converge.{Holds}
use dynamo_kvsrv_pbs.Server.AntiEntropy.Exchange.{
  IsFilled, IsAgreedOn, IsAgreed, reconcile_converges,
}

-- The server's tree of a sector is the one that it would build now.
abbrev pub IsCurrent : (Bytes → Bytes) → ℕ → KvServer → Type 0
IsCurrent sha256 sector kv = get_merkle_root kv sector ≡ build_merkle_tree sha256 kv sector

-- The keys of a bucket, each with its versions as the digest sees them.
abbrev pub bucket_view : KvServer → ℕ → ℕ → List (String × List ObjectView)
bucket_view kv sector bucket =
    view_bucket (siblings_at (snapshot_sector kv sector))
      (keys_at (snapshot_sector kv sector) bucket)

to_summary-head :
    (root : MerkleNode) → (rest : List Bytes) × ((to_summary root).hashes ≡ hash_of root ∷ rest)
unfolding to_summary summary_loop node_count
to_summary-head (leaf sector bucket hash) = (_, refl)
to_summary-head (half level sector left hash) = (_, refl)
to_summary-head (inner level sector left right hash) = (_, refl)

-- Where the roots have one hash the loop finds nothing.
diff_loop_same :
    (empty h h' : Bytes) (xs ys : List Bytes)
    → same_bytes h h' ≡ true
    → diff_loop (length (h ∷ xs)) empty (h ∷ xs) (h' ∷ ys) [] (0 ∷ []) ≡ some []
unfolding diff_loop visit
diff_loop_same empty h h' xs ys e = rw (e, diff_loop, visit) refl

find_diff_buckets_same :
    (empty h h' : Bytes) (xs ys : List Bytes) (my neighbor : TreeSummary)
    → my.hashes ≡ h ∷ xs
    → neighbor.hashes ≡ h' ∷ ys
    → same_bytes h h' ≡ true
    → find_diff_buckets empty my neighbor ≡ some []
unfolding find_diff_buckets
find_diff_buckets_same empty h h' xs ys my neighbor m n e =
    cc (m, n, diff_loop_same empty h h' xs ys e)

key_infos-All :
    (P : String → Type 0) (kv : KvServer) (keys : List String) (key : String)
    → contains keys key ≡ true
    → All (λ i. P i.key) (key_infos kv keys)
    → P key
unfolding key_infos contains
key_infos-All P kv [] key h a = absurd (cc h)
key_infos-All P kv (k ∷ keys) key h a = elim (Bool-cases (k == key)) [
  | inl e ↦ subst P ((string_eq.beq_iff k key).0 e) a.0
  | inr e ↦ key_infos-All P kv keys key (ground (arith, h, e)) a.1
]

All-split : {A : Type 0} (P : A → Type 0) (xs ys : List A) → All P (xs ++ ys) → All P xs × All P ys
All-split P [] ys a = (tt, a)
All-split P (x ∷ xs) ys a = let r = All-split P xs ys a.1 in ((a.0, r.0), r.1)

bucket_infos-All :
    (P : String → Type 0) (kv : KvServer) (sector : ℕ) (buckets : List ℕ) (bucket : ℕ)
    (key : String)
    → contains buckets bucket ≡ true
    → contains (get_keys_from_bucket kv sector bucket) key ≡ true
    → All (λ i. P i.key) (bucket_infos kv sector buckets)
    → P key
unfolding bucket_infos contains
bucket_infos-All P kv sector [] bucket key h k a = absurd (cc h)
bucket_infos-All P kv sector (b ∷ buckets) bucket key h k a =
    let r =
      All-split (λ i. P i.key) (key_infos kv (get_keys_from_bucket kv sector b))
        (bucket_infos kv sector buckets) a in
    elim (Bool-cases (eqb b bucket)) [
      | inl e ↦
          key_infos-All P kv (get_keys_from_bucket kv sector b) key
            (subst (λ i. contains (get_keys_from_bucket kv sector i) key ≡ true)
              (sym ((eqb_iff b bucket).0 e)) k)
            r.0
      | inr e ↦ bucket_infos-All P kv sector buckets bucket key (ground (arith, h, e)) k r.1
    ]

-- The two ways in which RepairGetDiff answers where both have a tree.
answer :
    (sha256 : Bytes → Bytes) (b : KvServer) (sector : ℕ) (my_root their_root : MerkleNode)
    (buckets : List ℕ)
    → get_merkle_root b sector ≡ some my_root
    → find_diff_buckets (empty_hash sha256) (to_summary my_root) (to_summary their_root)
      ≡ some buckets
    → (reply : RepairGetDiffReply) × (repair_get_diff sha256 b
          (record { sector = sector; summary = to_summary their_root })
        ≡ some reply)
      × ((buckets ≡ []) ⊎ (reply.diff_key_infos ≡ bucket_infos b sector buckets))
unfolding repair_get_diff
answer sha256 b sector my_root their_root buckets g f =
    let (mine, m) = to_summary-head my_root in
    let (theirs, t) = to_summary-head their_root in
    let first : get_elem? (to_summary their_root).hashes 0 ≡ some (hash_of their_root) =
      ap (λ hs. get_elem? hs 0) t in
    elim (Bool-cases (same_bytes (hash_of my_root) (hash_of their_root))) [
      | inl e ↦
          let found =
            find_diff_buckets_same (empty_hash sha256) (hash_of my_root) (hash_of their_root) mine
              theirs (to_summary my_root) (to_summary their_root) m t e in
          (
            record { diff_key_infos = []; err = ok },
            rw (g, first, e, repair_get_diff) refl,
            inl (cc (sym f ∙ found)),
          )
      | inr e ↦ (
        record { diff_key_infos = bucket_infos b sector buckets; err = ok },
        rw (g, first, e, f, repair_get_diff) refl,
        inr refl,
      )
    ]

-- One reconciliation repairs a bucket: if two servers have the same power of two of buckets in a
-- sector, each with an up-to-date tree, and in one bucket, which is not empty at the neighbor,
-- they differ in a key, a value, a timestamp or a clock, then Reconcile has a request,
-- RepairGetDiff answers it, and after the merges and repairs both hold a version that either
-- held of a key that the neighbor has in the bucket, or the digest has a collision; if the
-- digest has 32 bytes, no key of the neighbor's is without versions, and all lengths and numbers
-- of the bucket fit in a uint64.
pub reconcile_bucket :
    (sha256 : Bytes → Bytes) (d : ℕ) (a b : KvServer) (sector bucket : ℕ) (key : String)
    (x : Object)
    → HasSize sha256
    → length (row a.keys_in_buckets sector) ≡ 2 ^ d
    → length (row b.keys_in_buckets sector) ≡ 2 ^ d
    → bucket < 2 ^ d
    → IsCurrent sha256 sector a
    → IsCurrent sha256 sector b
    → IsFilled b
    → IsFitBucket
        (siblings_at (snapshot_sector a sector))
        (keys_at (snapshot_sector a sector) bucket)
    → IsFitBucket
        (siblings_at (snapshot_sector b sector))
        (keys_at (snapshot_sector b sector) bucket)
    → contains (get_keys_from_bucket b sector bucket) key ≡ true
    → bucket_view b sector bucket ≢ bucket_view a sector bucket
    → (Holds a key x) ⊎ (Holds b key x)
    → (args : RepairGetDiffArgs) × (reply : RepairGetDiffReply) × (reconcile_request a sector
        ≡ some args)
      × (repair_get_diff sha256 b args ≡ some reply)
      × (Collision sha256
          ⊎ (Holds (reconcile a (some reply)).0 key x
              × Holds (repair_all (reconcile a (some reply)).1 b) key x))
unfolding snapshot_sector get_keys_from_bucket build_merkle_tree reconcile_request contains
reconcile_bucket sha256 d a b sector bucket key x size na nb below ca cb filled fa fb has differ
      held =
    let (buckets, (my_root, their_root, my_built, their_built, found), c) =
      find_diff_buckets_finds sha256 d sector (snapshot_sector b sector) (snapshot_sector a sector)
        bucket size nb na below fb fa
        (λ e. (let k : false ≡ true = subst (λ ks. contains ks key ≡ true) e has in cc k)) differ in
    let (reply, replied, shape) =
      answer sha256 b sector my_root their_root buckets (cb ∙ my_built) found in
    let args : RepairGetDiffArgs = record { sector = sector; summary = to_summary their_root } in
    let request = ca ∙ their_built in
    (
      args,
      reply,
      rw (request, reconcile_request) refl,
      replied,
      elim c [
        | inl collision ↦ inl collision
        | inr k ↦ elim shape [
          | inl e ↦
              (let n : false ≡ true = subst (λ bs. contains bs bucket ≡ true) e k in absurd (cc n))
          | inr e ↦
              let (_, _, agreed) = reconcile_converges sha256 a b args reply filled replied in
              let agreed_key : IsAgreedOn a b (reconcile a (some reply)).0
                  (repair_all (reconcile a (some reply)).1 b) key =
                bucket_infos-All (IsAgreedOn a b _ _) b sector buckets bucket key k has (
                  subst
                    (All (
                      IsAgreed a b (reconcile a (some reply)).0
                        (repair_all (reconcile a (some reply)).1 b)))
                    e agreed) in
              inr (agreed_key x held)
        ]
      ],
    )
