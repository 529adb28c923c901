-- ===== src/Server/AntiEntropy/Converge.antt =====
-- What a reconciliation of two servers leaves at both: `ApplyDiff` of src/kvsrv/anti_entropy.go and the
-- calls of `RepairPut` that it makes.
use dynamo_kvsrv_pbs.Prelude.{
  All-mono, ◌≡◌, ◌≢◌, ◌⊎◌, ◌∙◌, refl, sym, String, true, false, List, [], ◌∷◌, arith, string_eq,
  ◌==◌, Bool-cases, inl, inr, All,
}
use mathlib.Core.Path.{subst}
use dynamo_kvsrv_pbs.Rpc.Object.{Object, add_new}
use dynamo_kvsrv_pbs.Rpc.Object.Seen.{seen_by, seen_in, seen_in_trans}
use dynamo_kvsrv_pbs.Rpc.Object.Copies.{seen_in-copy_objects}
use dynamo_kvsrv_pbs.Rpc.Messages.{KeyInfo, RepairArgs}
use dynamo_kvsrv_pbs.Server.{KvServer, siblings_of}
use dynamo_kvsrv_pbs.Server.Store.{merge_objects_core, merge_view, repair_put}
use dynamo_kvsrv_pbs.Server.Store.Merge.{
  merge_objects_core_complete, merge_view-add_new, seen_in-merge_objects_core,
}
use dynamo_kvsrv_pbs.Server.AntiEntropy.{first_call, apply_diff, repair_all}

-- Some sibling of the key includes the version of x.
abbrev pub Holds : KvServer → String → Object → Type 0
Holds kv key x = seen_in x (siblings_of kv key) ≡ true

-- The second server holds what the first one does.
abbrev pub Keeps : KvServer → KvServer → Type 0
Keeps kv kv' = (key : String) (x : Object) → Holds kv key x → Holds kv' key x

pub seen_in-All :
    (x : Object) (xs ys : List Object)
    → All (λ o. seen_in o ys ≡ true) xs
    → seen_in x xs ≡ true
    → seen_in x ys ≡ true
seen_in-All x [] ys h e = absurd (cc)
seen_in-All x (o ∷ xs) ys h e = elim (Bool-cases (seen_by x o)) [
  | inl p ↦ seen_in_trans x o ys p h.0
  | inr p ↦ seen_in-All x xs ys h.1 (rw p at e)
]

pub merge_objects_core-Keeps :
    (kv : KvServer) (key : String) (incoming : List Object)
    → Keeps kv (merge_objects_core kv key incoming).0
merge_objects_core-Keeps kv key incoming j x h = elim (Bool-cases (key == j)) [
  | inl e ↦
      subst (λ k. Holds kv k x → Holds (merge_objects_core kv key incoming).0 k x)
        ((string_eq.beq_iff key j).0 e) ((merge_objects_core_complete kv key incoming).0 x) h
  | inr e ↦
      rw
        ((merge_objects_core_complete kv key incoming).2 j
          (λ p. ground (arith, string_eq.beq_iff key j, p, e)))
        h
]

merged_siblings :
    (kv : KvServer) (key : String) (o : Object) (incoming : List Object) (x : Object)
    → seen_in x (merge_objects_core kv key (o ∷ incoming)).1
      ≡ seen_in x (add_new (siblings_of kv key) (o ∷ incoming))
unfolding merge_objects_core
merged_siblings kv key o incoming x = elim (Bool-cases (merge_view kv key (o ∷ incoming)).1) [
  | inl e ↦ rw (e, merge_view-add_new)
  | inr e ↦ rw (e, seen_in-copy_objects, merge_view-add_new)
]

-- The siblings that `mergeObjectsCore` returns hold what the server holds afterwards.
merged_result :
    (kv : KvServer) (key : String) (o : Object) (incoming : List Object) (x : Object)
    → seen_in x (merge_objects_core kv key (o ∷ incoming)).1
      ≡ seen_in x (siblings_of (merge_objects_core kv key (o ∷ incoming)).0 key)
merged_result kv key o incoming x =
    merged_siblings kv key o incoming x ∙ sym (seen_in-merge_objects_core kv key (o ∷ incoming) x)

-- No call deletes the key.
abbrev pub KeepsKey : RepairArgs → Type 0
KeepsKey args = args.is_delete ≡ false

repair_put-merges :
    (kv : KvServer) (args : RepairArgs)
    → KeepsKey args
    → (repair_put kv args).0 ≡ (merge_objects_core kv args.key args.objects).0
unfolding repair_put
repair_put-merges kv args h = rw h

pub repair_all-Keeps :
    (calls : List RepairArgs) (kv : KvServer) → All KeepsKey calls → Keeps kv (repair_all calls kv)
unfolding repair_all
repair_all-Keeps [] kv h key x p = p
repair_all-Keeps (args ∷ calls) kv h key x p =
    repair_all-Keeps calls (repair_put kv args).0 h.1 key x (
      rw (repair_put-merges kv args h.0)
        (merge_objects_core-Keeps kv args.key args.objects key x p))

-- The neighbor after the call for one key.
after_first : String → List Object → KvServer → KvServer
after_first key [] b = b
after_first key (o ∷ rest) b =
    (repair_put b (record { key = key; objects = o ∷ rest; is_delete = false })).0

repair_all-first_call :
    (key : String) (m : List Object) (calls : List RepairArgs) (b : KvServer)
    → repair_all (first_call key m calls) b ≡ repair_all calls (after_first key m b)
unfolding repair_all first_call after_first
repair_all-first_call key [] calls b = refl
repair_all-first_call key (o ∷ rest) calls b = refl

first_call-KeepsKey :
    (key : String) (m : List Object) (calls : List RepairArgs)
    → All KeepsKey calls
    → All KeepsKey (first_call key m calls)
unfolding first_call
first_call-KeepsKey key [] calls h = h
first_call-KeepsKey key (o ∷ rest) calls h = (refl, h)

-- The neighbor holds what it is sent.
after_first-Holds :
    (key : String) (m : List Object) (b : KvServer) (x : Object)
    → seen_in x m ≡ true
    → Holds (after_first key m b) key x
unfolding after_first
after_first-Holds key [] b x h = absurd (cc)
after_first-Holds key (o ∷ rest) b x h =
    let args : RepairArgs = record { key = key; objects = o ∷ rest; is_delete = false } in
    rw (repair_put-merges b args refl) (
      seen_in-All x (o ∷ rest) (siblings_of (merge_objects_core b key (o ∷ rest)).0 key)
        (merge_objects_core_complete b key (o ∷ rest)).1 h)

pub apply_diff-Keeps : (infos : List KeyInfo) (kv : KvServer) → Keeps kv (apply_diff infos kv).0
unfolding apply_diff
apply_diff-Keeps [] kv key x h = h
apply_diff-Keeps (i ∷ infos) kv key x h =
    apply_diff-Keeps infos (merge_objects_core kv i.key i.objects).0 key x
      (merge_objects_core-Keeps kv i.key i.objects key x h)

pub apply_diff-KeepsKey :
    (infos : List KeyInfo) (kv : KvServer) → All KeepsKey (apply_diff infos kv).1
unfolding apply_diff
apply_diff-KeepsKey [] kv = tt
apply_diff-KeepsKey (i ∷ infos) kv =
    first_call-KeepsKey i.key (merge_objects_core kv i.key i.objects).1 _
      (apply_diff-KeepsKey infos (merge_objects_core kv i.key i.objects).0)

-- Both servers hold what the initiator held, and what came with the key.
abbrev pub IsReconciled : KvServer → KvServer → KvServer → KeyInfo → Type 0
IsReconciled a a' b' info =
    (x : Object)
    → (Holds a info.key x) ⊎ (seen_in x info.objects ≡ true)
    → Holds a' info.key x × Holds b' info.key x

-- The key comes with objects.
abbrev pub HasObjects : KeyInfo → Type 0
HasObjects info = info.objects ≢ []

-- What the merge of a key leaves at the initiator, and what it returns.
merge_key :
    (a : KvServer) (info : KeyInfo) (x : Object)
    → (Holds a info.key x) ⊎ (seen_in x info.objects ≡ true)
    → Holds (merge_objects_core a info.key info.objects).0 info.key x
merge_key a info x (inl h) = merge_objects_core-Keeps a info.key info.objects info.key x h
merge_key a info x (inr h) =
    seen_in-All x info.objects (siblings_of (merge_objects_core a info.key info.objects).0 info.key)
      (merge_objects_core_complete a info.key info.objects).1 h

merge_returns :
    (a : KvServer) (key : String) (objects : List Object) (x : Object)
    → objects ≢ []
    → Holds (merge_objects_core a key objects).0 key x
    → seen_in x (merge_objects_core a key objects).1 ≡ true
merge_returns a key [] x n h = absurd (n refl)
merge_returns a key (o ∷ rest) x n h = merged_result a key o rest x ∙ h

pub apply_diff_converges :
    (infos : List KeyInfo) (a b : KvServer)
    → All HasObjects infos
    → All (IsReconciled a (apply_diff infos a).0 (repair_all (apply_diff infos a).1 b)) infos
unfolding apply_diff
apply_diff_converges [] a b h = tt
apply_diff_converges (i ∷ infos) a b h =
    let a1 = (merge_objects_core a i.key i.objects).0 in
    let m = (merge_objects_core a i.key i.objects).1 in
    let calls = (apply_diff infos a1).1 in
    let a' = (apply_diff infos a1).0 in
    let b1 = after_first i.key m b in
    let rest = apply_diff_converges infos a1 b1 h.1 in
    let head : IsReconciled a a' (repair_all calls b1) i = λ x p.
      let q = merge_key a i x p in
      (
        apply_diff-Keeps infos a1 i.key x q,
        repair_all-Keeps calls b1 (apply_diff-KeepsKey infos a1) i.key x
            (after_first-Holds i.key m b x (merge_returns a i.key i.objects x h.0 q)),
      ) in
    let tail : All (IsReconciled a a' (repair_all calls b1)) infos =
      All-mono
        (λ j r x p. r x (elim p [
          | inl k ↦ inl (merge_objects_core-Keeps a i.key i.objects j.key x k)
          | inr k ↦ inr k
        ]))
        infos rest in
    subst (λ z. All (IsReconciled a a' z) (i ∷ infos)) (sym (repair_all-first_call i.key m calls b))
      (head, tail)
