-- ===== src/Server/Coordinator/Quorums.antt =====
-- Read and write quorums that meet: what a read by `CoordGet` of src/kvsrv/server.go returns after a
-- write quorum has taken a version.
use dynamo_kvsrv_pbs.Prelude.{
  ℕ, suc, ◌+◌, ◌≤◌, ◌<◌, ◌≡◌, ◌⊎◌, inl, inr, refl, sym, ◌∙◌, ap, String, Bool, true, false, not,
  some, List, [], ◌∷◌, ◌++◌, map, length, if◌then◌else◌, contains, string_eq, ◌==◌, arith,
  Bool-cases, Option-cases, All, IsDistinct,
}
use mathlib.Core.Path.{subst}
use dynamo_kvsrv_pbs.GoMap.{get, get_or}
use dynamo_kvsrv_pbs.Rpc.Object.{Object}
use dynamo_kvsrv_pbs.Rpc.Object.Seen.{seen_in}
use dynamo_kvsrv_pbs.Rpc.Object.Copies.{seen_in-copy_objects}
use dynamo_kvsrv_pbs.Rpc.Messages.{ok, GetReply, ForwardGetResult}
use dynamo_kvsrv_pbs.Server.{KvServer, siblings_of}
use dynamo_kvsrv_pbs.Server.Store.{replica_get}
use dynamo_kvsrv_pbs.Server.ReadRepair.{has_objects}
use dynamo_kvsrv_pbs.Server.ReadRepair.Convergence.{Includes}
use dynamo_kvsrv_pbs.Server.AntiEntropy.Converge.{seen_in-All}
use dynamo_kvsrv_pbs.Server.Coordinator.{coord_get}
use dynamo_kvsrv_pbs.Server.Coordinator.ReadLoop.{count_if}
use dynamo_kvsrv_pbs.Server.Coordinator.Reads.{coord_get_ok}

-- The list without the first occurrence of a.
abbrev without : List String → String → List String
without [] a = []
without (x ∷ xs) a = if x == a then xs else x ∷ without xs a

contains-without :
    (xs : List String) (a b : String)
    → (b == a) ≡ false
    → contains xs b ≡ true
    → contains (without xs a) b ≡ true
unfolding contains
contains-without [] a b n h = h
contains-without (x ∷ xs) a b n h = elim (Bool-cases (x == a)) [
  | inl e ↦
      let other : (x == b) ≡ false = elim (Bool-cases (x == b)) [
        | inr f ↦ f
        | inl f ↦
            let same : x ≡ b = (string_eq.beq_iff x b).0 f in
            let k : (b == a) ≡ true = subst (λ q. (q == a) ≡ true) same e in absurd (cc (k, n))
      ] in
      rw e (ground (arith, h, other))
  | inr e ↦ rw e (ground (arith, h, contains-without xs a b n))
]

count_if-without :
    (q : String → Bool) (xs : List String) (a : String)
    → contains xs a ≡ true
    → q a ≡ true
    → count_if q xs ≡ suc (count_if q (without xs a))
unfolding contains
count_if-without q [] a h k = absurd (cc h)
count_if-without q (x ∷ xs) a h k = elim (Bool-cases (x == a)) [
  | inl e ↦
      let same : q x ≡ q a = ap q ((string_eq.beq_iff x a).0 e) in rw e (ground (arith, same, k))
  | inr e ↦ rw e (ground (arith, e, h, count_if-without q xs a))
]

-- Distinct servers of the list that pass a test are no more than there are in the list.
count_if-distinct :
    (p : ForwardGetResult → Bool) (q : String → Bool) (results : List ForwardGetResult)
    (pref : List String)
    → IsDistinct (map (λ res. res.server_id) results)
    → All (λ res. contains pref res.server_id ≡ true) results
    → All (λ res. p res ≡ true → q res.server_id ≡ true) results
    → count_if p results ≤ count_if q pref
unfolding contains
count_if-distinct p q [] pref d m t = omega arith
count_if-distinct p q (res ∷ results) pref d m t = elim (Bool-cases (p res)) [
  | inr e ↦ rw e (omega (arith, count_if-distinct p q results pref d.1 m.1 t.1))
  | inl e ↦
      let fewer =
        count_if-distinct p q results (without pref res.server_id) d.1
          (members results pref res.server_id d.0 m.1) t.1 in
      rw e (omega (arith, fewer, count_if-without q pref res.server_id m.0 (t.0 e)))
]
  where
    members :
        (results : List ForwardGetResult) (pref : List String) (a : String)
        → contains (map (λ res. res.server_id) results) a ≡ false
        → All (λ res. contains pref res.server_id ≡ true) results
        → All (λ res. contains (without pref a) res.server_id ≡ true) results
    members [] pref a n m = tt
    members (res ∷ results) pref a n m = (
      contains-without pref a res.server_id (ground (arith, n)) m.0,
      members results pref a (ground (arith, n)) m.1,
    )

-- A reply that was delivered is what the replica's store says.
abbrev pub IsServedBy : (String → KvServer) → String → ForwardGetResult → Type 0
IsServedBy servers key res =
    has_objects res ≡ true → res.reply ≡ replica_get (servers res.server_id) key

abbrev pub holds : KvServer → String → Object → Bool
holds kv key x = seen_in x (siblings_of kv key)

replica_get-holds :
    (kv : KvServer) (key : String) (x : Object)
    → holds kv key x ≡ true
    → seen_in x (replica_get kv key).objects ≡ true
unfolding replica_get siblings_of get_or
replica_get-holds kv key x h = elim (Option-cases (get kv.kv key)) [
  | inl e ↦ let k : seen_in x [] ≡ true = rw e at h in absurd (cc k)
  | inr (siblings, e) ↦
      let k : seen_in x siblings ≡ true = rw e at h in
      rw (e, replica_get) (seen_in-copy_objects x siblings ∙ k)
]

module _ (servers : String → KvServer) (key : String) (x : Object) (objects : List Object) where
  -- Either the merged objects include x, or no reply came from a server that includes it.
  hit_or_miss :
      (results : List ForwardGetResult)
      → All (Includes objects) results
      → All (IsServedBy servers key) results
      → (seen_in x objects ≡ true)
        ⊎ All
            (λ res. has_objects res ≡ true → not (holds (servers res.server_id) key x) ≡ true)
            results
  hit_or_miss [] i s = inr tt
  hit_or_miss (res ∷ results) i s = elim (hit_or_miss results i.1 s.1) [
    | inl h ↦ inl h
    | inr miss ↦ elim (Bool-cases (holds (servers res.server_id) key x)) [
      | inr e ↦ inr ((λ h. rw e refl), miss)
      | inl e ↦ elim (Bool-cases (has_objects res)) [
        | inr f ↦ inr ((λ h. absurd (cc (h, f))), miss)
        | inl f ↦ inl (
            seen_in-All x res.reply.objects objects (i.0 f) (
              subst (λ reply. seen_in x reply.objects ≡ true) (sym (s.0 f))
                (replica_get-holds (servers res.server_id) key x e)))
      ]
    ]
  ]

All-prefix : {A : Type 0} (P : A → Type 0) (xs ys : List A) → All P (xs ++ ys) → All P xs
All-prefix P [] ys a = tt
All-prefix P (x ∷ xs) ys a = (a.0, All-prefix P xs ys a.1)

IsDistinct-prefix :
    (f : ForwardGetResult → String) (xs ys : List ForwardGetResult)
    → IsDistinct (map f (xs ++ ys))
    → IsDistinct (map f xs)
unfolding contains
IsDistinct-prefix f [] ys d = tt
IsDistinct-prefix f (x ∷ xs) ys d = (absent xs d.0, IsDistinct-prefix f xs ys d.1)
  where
    absent :
        (zs : List ForwardGetResult)
        → contains (map f (zs ++ ys)) (f x) ≡ false
        → contains (map f zs) (f x) ≡ false
    absent [] h = refl
    absent (z ∷ zs) h = ground (arith, h, absent zs)

count_if-not :
    (q : String → Bool) (xs : List String)
    → count_if q xs + count_if (λ s. not (q s)) xs ≡ length xs
count_if-not q [] = omega arith
count_if-not q (x ∷ xs) = ground (arith, count_if-not q xs)

-- A read that is replied OK returns what a write quorum holds: if so many servers of a list
-- include the version x under the key that, with a positive read quorum, they meet every read
-- quorum of the list, and the replies come from different servers of the list and say what those
-- servers hold, then some object of the reply includes x.
pub coord_get_fresh :
    (kv : KvServer) (job_id : ℕ) (key : String) (now done : ℕ) (arrivals : List ForwardGetResult)
    (servers : String → KvServer) (pref : List String) (x : Object) (r : KvServer × GetReply)
    → 0 < kv.read_quorum
    → length pref < kv.read_quorum + count_if (λ s. holds (servers s) key x) pref
    → IsDistinct (map (λ res. res.server_id) arrivals)
    → All (λ res. contains pref res.server_id ≡ true) arrivals
    → All (IsServedBy servers key) arrivals
    → coord_get kv job_id key now done arrivals ≡ some r
    → r.1.err ≡ ok
    → seen_in x r.1.objects ≡ true
coord_get_fresh kv job_id key now done arrivals servers pref x r q meet d m s h e =
    let v = coord_get_ok kv job_id key now done arrivals r q h e in
    let holder = λ (id : String). holds (servers id) key x in
    elim (hit_or_miss servers key x r.1.objects v.results v.included (
      All-prefix (IsServedBy servers key) v.results v.rest
        (subst (All (IsServedBy servers key)) (sym v.first) s))) [
          | inl hit ↦ hit
          | inr miss ↦
              let few =
                count_if-distinct has_objects (λ id. not (holder id)) v.results pref
                  (IsDistinct-prefix (λ res. res.server_id) v.results v.rest
                    (subst (λ q. IsDistinct (map (λ res. res.server_id) q)) (sym v.first) d))
                  (All-prefix (λ res. contains pref res.server_id ≡ true) v.results v.rest
                    (subst (All (λ res. contains pref res.server_id ≡ true)) (sym v.first) m))
                  miss in
              absurd (omega (arith, few, v.enough, meet, count_if-not holder pref))
        ]
