-- ===== src/Server/AntiEntropy/Exchange.antt =====
-- One reconciliation from the request to the last repair: `Reconcile` and `RepairGetDiff` of
-- src/kvsrv/anti_entropy.go.
use dynamo_kvsrv_pbs.Prelude.{
  All-mono, ℕ, ◌≡◌, ◌≢◌, ◌⊎◌, ◌∙◌, refl, sym, ap, String, true, none, some, List, [], ◌∷◌, arith,
  string_eq, Bool-cases, Option-cases, inl, inr, All, All-append, Bytes, contains, get_elem?,
}
use mathlib.Core.Path.{subst}
use dynamo_kvsrv_pbs.Rpc.Object.{Object, copy_objects}
use dynamo_kvsrv_pbs.Rpc.Object.Copies.{seen_in-copy_objects}
use dynamo_kvsrv_pbs.Rpc.Messages.{
  Err, no_err, ok, err_rpc_failure, err_no_key, err_version, err_maybe, err_not_coordinator,
  err_read_quorum_not_met, err_write_quorum_not_met, err_no_hash_value, KeyInfo, RepairArgs,
  RepairGetDiffArgs, RepairGetDiffReply,
}
use dynamo_kvsrv_pbs.Merkle.Tree.{hash_of, to_summary, empty_hash}
use dynamo_kvsrv_pbs.Merkle.Diff.{same_bytes, find_diff_buckets}
use dynamo_kvsrv_pbs.Server.{KvServer, siblings_of, get_siblings, get_keys_from_bucket}
use dynamo_kvsrv_pbs.Server.AntiEntropy.{
  get_merkle_root, key_infos, bucket_infos, repair_get_diff, apply_diff, reconcile, repair_all,
}
use dynamo_kvsrv_pbs.Server.AntiEntropy.Converge.{
  Holds, Keeps, IsReconciled, HasObjects, apply_diff_converges, apply_diff-Keeps,
  apply_diff-KeepsKey, repair_all-Keeps,
}

-- No key of a bucket is without versions.
pub record IsFilled (kv : KvServer) : Type 0 where
  pub filled :
      (sector bucket : ℕ) (key : String)
      → contains (get_keys_from_bucket kv sector bucket) key ≡ true
      → siblings_of kv key ≢ []

-- An info with the versions that a server has of its key, and there are some.
abbrev IsInfoOf : KvServer → KeyInfo → Type 0
IsInfoOf kv info = (info.objects ≡ get_siblings kv info.key) × (siblings_of kv info.key ≢ [])

key_infos-IsInfoOf :
    (kv : KvServer) (keys : List String)
    → ((key : String) → contains keys key ≡ true → siblings_of kv key ≢ [])
    → All (IsInfoOf kv) (key_infos kv keys)
unfolding key_infos contains
key_infos-IsInfoOf kv [] h = tt
key_infos-IsInfoOf kv (key ∷ keys) h = (
  (refl, h key (ground (arith, string_eq.beq_iff key key))),
  key_infos-IsInfoOf kv keys (λ k e. h k (ground (arith, e))),
)

bucket_infos-IsInfoOf :
    (kv : KvServer) (sector : ℕ) (buckets : List ℕ)
    → IsFilled kv
    → All (IsInfoOf kv) (bucket_infos kv sector buckets)
unfolding bucket_infos
bucket_infos-IsInfoOf kv sector [] f = tt
bucket_infos-IsInfoOf kv sector (bucket ∷ buckets) f =
    All-append (IsInfoOf kv) (key_infos kv (get_keys_from_bucket kv sector bucket))
      (bucket_infos kv sector buckets)
      (key_infos-IsInfoOf kv (get_keys_from_bucket kv sector bucket) (f.filled sector bucket))
      (bucket_infos-IsInfoOf kv sector buckets f)

-- What `RepairGetDiff` answers: nothing, or what it has of the buckets that differ.
data Answer (sha256 : Bytes → Bytes) (b : KvServer) (args : RepairGetDiffArgs)
    (reply : RepairGetDiffReply) : Type 0 where
  no_difference : reply.diff_key_infos ≡ [] → Answer sha256 b args reply
  differences :
      (buckets : List ℕ)
      → reply ≡ record { diff_key_infos = bucket_infos b args.sector buckets; err = ok }
      → Answer sha256 b args reply

reply_injective : (r s : RepairGetDiffReply) → some r ≡ some s → s ≡ r
reply_injective r s e = cc e

module _ (sha256 : Bytes → Bytes) (b : KvServer) (args : RepairGetDiffArgs) where
  repair_get_diff-Answer :
      (reply : RepairGetDiffReply)
      → repair_get_diff sha256 b args ≡ some reply
      → Answer sha256 b args reply
  unfolding repair_get_diff
  repair_get_diff-Answer reply h = elim (Option-cases (get_merkle_root b args.sector)) [
    | inl e ↦
        no_difference
          (ap (λ r. r.diff_key_infos) (reply_injective _ reply (rw (e, repair_get_diff) at h)))
    | inr (root, e) ↦ elim (Option-cases (get_elem? args.summary.hashes 0)) [
      | inl f ↦ let k : none ≡ some reply = rw (e, f, repair_get_diff) at h in absurd (cc k)
      | inr (first, f) ↦ elim (Bool-cases (same_bytes (hash_of root) first)) [
        | inl s ↦ no_difference (
            ap (λ r. r.diff_key_infos)
              (reply_injective _ reply (rw (e, f, s, repair_get_diff) at h)))
        | inr s ↦
            elim (Option-cases
              (find_diff_buckets (empty_hash sha256) (to_summary root) args.summary)) [
                | inl g ↦
                    let k : none ≡ some reply = rw (e, f, s, g, repair_get_diff) at h in
                    absurd (cc k)
                | inr (buckets, g) ↦
                    differences buckets
                      (reply_injective _ reply (rw (e, f, s, g, repair_get_diff) at h))
              ]
      ]
    ]
  ]

-- Both servers hold afterwards what either held of the key.
abbrev pub IsAgreedOn : KvServer → KvServer → KvServer → KvServer → String → Type 0
IsAgreedOn a b a' b' key =
    (x : Object) → (Holds a key x) ⊎ (Holds b key x) → Holds a' key x × Holds b' key x

abbrev pub IsAgreed : KvServer → KvServer → KvServer → KvServer → KeyInfo → Type 0
IsAgreed a b a' b' info = IsAgreedOn a b a' b' info.key

has_objects : (ss : List Object) → ss ≢ [] → copy_objects ss ≢ []
unfolding copy_objects
has_objects [] n e = n refl
has_objects (s ∷ ss) n e = cc e

IsInfoOf-HasObjects : (b : KvServer) (info : KeyInfo) → IsInfoOf b info → HasObjects info
unfolding get_siblings
IsInfoOf-HasObjects b info h e = has_objects (siblings_of b info.key) h.1 (sym h.0 ∙ e)

IsReconciled-IsAgreed :
    (a b a' b' : KvServer) (info : KeyInfo)
    → IsInfoOf b info
    → IsReconciled a a' b' info
    → IsAgreed a b a' b' info
unfolding get_siblings
IsReconciled-IsAgreed a b a' b' info h r x p =
    r x (elim p [ inl q ↦ inl q | inr q ↦ inr (rw h.0 (rw seen_in-copy_objects q)) ])

All-both :
    {P Q R : KeyInfo → Type 0}
    → ((i : KeyInfo) → P i → Q i → R i)
    → (is : List KeyInfo) → All P is
    → All Q is
    → All R is
All-both f [] p q = tt
All-both f (i ∷ is) p q = (f i p.0 q.0, All-both f is p.1 q.1)

abbrev Done : KvServer → KvServer → List KeyInfo → KvServer × List RepairArgs → Type 0
Done a b infos r =
    Keeps a r.0 × Keeps b (repair_all r.1 b) × All (IsAgreed a b r.0 (repair_all r.1 b)) infos

reconcile-some :
    (a : KvServer) (infos : List KeyInfo) (err : Err)
    → (reconcile a (some (record { diff_key_infos = infos; err = err })) ≡ (a, []))
      ⊎ (reconcile a (some (record { diff_key_infos = infos; err = err })) ≡ apply_diff infos a)
unfolding reconcile
reconcile-some a infos no_err = inr refl
reconcile-some a infos ok = inr refl
reconcile-some a infos err_rpc_failure = inr refl
reconcile-some a infos err_no_key = inr refl
reconcile-some a infos err_version = inr refl
reconcile-some a infos err_maybe = inr refl
reconcile-some a infos err_not_coordinator = inr refl
reconcile-some a infos err_read_quorum_not_met = inr refl
reconcile-some a infos err_write_quorum_not_met = inr refl
reconcile-some a infos err_no_hash_value = inl refl

apply_diff-Done :
    (a b : KvServer) (infos : List KeyInfo)
    → All (IsInfoOf b) infos
    → Done a b infos (reconcile a (some (record { diff_key_infos = infos; err = ok })))
unfolding reconcile
apply_diff-Done a b infos h = (
  apply_diff-Keeps infos a,
  repair_all-Keeps _ b (apply_diff-KeepsKey infos a),
  All-both (λ i. IsReconciled-IsAgreed a b _ _ i) infos h
      (apply_diff_converges infos a b (All-mono (IsInfoOf-HasObjects b) infos h)),
)

-- Neither server loses a version in a reconciliation, and of every key in the reply to
-- RepairGetDiff both servers hold afterwards what either held before, if no key stands in a
-- bucket of the neighbor without versions.
pub reconcile_converges :
    (sha256 : Bytes → Bytes) (a b : KvServer) (args : RepairGetDiffArgs)
    (reply : RepairGetDiffReply)
    → IsFilled b
    → repair_get_diff sha256 b args ≡ some reply
    → Keeps a (reconcile a (some reply)).0
      × Keeps b (repair_all (reconcile a (some reply)).1 b)
      × All
          (IsAgreed a b (reconcile a (some reply)).0 (repair_all (reconcile a (some reply)).1 b))
          reply.diff_key_infos
reconcile_converges sha256 a b args reply f h =
    elim (repair_get_diff-Answer sha256 b args reply h) [
      | no_difference e ↦
          subst (λ is. Done a b is (reconcile a (some reply))) (sym e)
            (elim (reconcile-some a reply.diff_key_infos reply.err) [
              | inl p ↦
                  subst (Done a b []) (sym p) (λ k x q. q, (unfold repair_all in λ k x q. q), tt)
              | inr p ↦ subst (Done a b []) (sym p) (
                apply_diff-Keeps reply.diff_key_infos a,
                repair_all-Keeps _ b (apply_diff-KeepsKey reply.diff_key_infos a),
                tt,
              )
            ])
      | differences buckets e ↦
          subst (λ r. Done a b r.diff_key_infos (reconcile a (some r))) (sym e)
            (apply_diff-Done a b (bucket_infos b args.sector buckets)
              (bucket_infos-IsInfoOf b args.sector buckets f))
    ]
