-- ===== src/Server/Store/Merge.antt =====
-- Merging versions into a server: `mergeObjectsCore` and `RepairPut` of src/kvsrv/server.go and
-- src/kvsrv/readrepair.go.
use dynamo_kvsrv_pbs.Prelude.{
  ◌≡◌, ◌≢◌, ◌∙◌, refl, String, Bool, true, false, List, [], ◌∷◌, arith, ◌==◌, string_eq,
  if◌then◌else◌, Bool-cases, inl, inr, All, none,
}
use dynamo_kvsrv_pbs.Rpc.Object.{Object, can_be_added_to, add_object, add_new}
use dynamo_kvsrv_pbs.Rpc.Object.Seen.{
  seen_in, can_be_added_to-seen_in, seen_in-add_new, seen_in-add_new_incoming,
}
use mathlib.Core.Path.{subst}
use dynamo_kvsrv_pbs.Rpc.Object.Copies.{seen_in-copy_objects}
use dynamo_kvsrv_pbs.Server.{KvServer, siblings_of}
use dynamo_kvsrv_pbs.Server.Store.{install_objects, merge_loop, merge_view, merge_objects_core}
use dynamo_kvsrv_pbs.Server.Store.Siblings.{
  IsWellKept, add_new-IsWell, copy_objects-IsWell, siblings-install_objects,
}

-- The list that the loop with the flag computes.
merge_loop-add_new :
    (merged : List Object) (changed : Bool) (incoming : List Object)
    → (merge_loop merged changed incoming).0 ≡ add_new merged incoming
unfolding merge_loop add_new
merge_loop-add_new merged changed [] = refl
merge_loop-add_new merged changed (o ∷ incoming) =
    let add = can_be_added_to o merged in
    merge_loop-add_new (if add then add_object merged o none else merged)
      (if add then true else changed) incoming

All-map :
    {P Q : Object → Type 0} → ((o : Object) → P o → Q o) → (xs : List Object) → All P xs → All Q xs
All-map f [] h = tt
All-map f (x ∷ xs) h = (f x h.0, All-map f xs h.1)

-- Once the flag is set it stays set, and where it stays down nothing was added.
merge_loop_unchanged :
    (merged : List Object) (changed : Bool) (incoming : List Object)
    → (merge_loop merged changed incoming).1 ≡ false
    → (changed ≡ false) × (add_new merged incoming ≡ merged)
unfolding merge_loop add_new
merge_loop_unchanged merged changed [] h = (h, refl)
merge_loop_unchanged merged changed (o ∷ incoming) h =
    let add = can_be_added_to o merged in
    let rest =
      merge_loop_unchanged (if add then add_object merged o none else merged)
        (if add then true else changed) incoming h in
    elim (Bool-cases (can_be_added_to o merged)) [
      | inl e ↦ let k : true ≡ false = rw e at rest.0 in absurd (cc)
      | inr e ↦ rw e (rw e at rest)
    ]

pub merge_view-add_new :
    (kv : KvServer) (key : String) (incoming : List Object)
    → (merge_view kv key incoming).0 ≡ add_new (siblings_of kv key) incoming
unfolding merge_view
merge_view-add_new kv key incoming = merge_loop-add_new (siblings_of kv key) false incoming

-- Where the merge finds nothing new, every incoming version was included already.
pub merge_view-unchanged :
    (kv : KvServer) (key : String) (incoming : List Object)
    → (merge_view kv key incoming).1 ≡ false
    → All (λ o. seen_in o (siblings_of kv key) ≡ true) incoming
unfolding merge_view
merge_view-unchanged kv key incoming e =
    let siblings = siblings_of kv key in
    let same = (merge_loop_unchanged siblings false incoming e).1 in
    subst (λ ss. All (λ o. seen_in o ss ≡ true) incoming) same
      (seen_in-add_new_incoming siblings incoming)

-- The two outcomes of a merge: every incoming version was included already and the server is as it
-- was, or the merged siblings are installed.
pub data Merged (kv : KvServer) (key : String) (incoming : List Object) (kv' : KvServer)
    : Type 0 where
  unchanged :
      add_new (siblings_of kv key) incoming ≡ siblings_of kv key
      → kv' ≡ kv
      → Merged kv key incoming kv'
  installed :
      kv' ≡ install_objects kv key (add_new (siblings_of kv key) incoming)
      → Merged kv key incoming kv'

module _ (kv : KvServer) (key : String) where
  pub merge_objects_core-Merged :
      (incoming : List Object) → Merged kv key incoming (merge_objects_core kv key incoming).0
  unfolding merge_objects_core
  merge_objects_core-Merged [] = unchanged (unfold add_new in refl) refl
  merge_objects_core-Merged (o ∷ incoming) =
      elim (Bool-cases (merge_view kv key (o ∷ incoming)).1) [
        | inl e ↦ installed (rw (e, merge_view-add_new))
        | inr e ↦
            unchanged (merge_loop_unchanged (siblings_of kv key) false (o ∷ incoming) e).1 (rw e)
      ]

  -- A merge keeps the siblings of every key pairwise concurrent and in the order of their
  -- timestamps, whatever comes in.
  pub merge_objects_core-IsWellKept :
      (incoming : List Object) → IsWellKept kv → IsWellKept (merge_objects_core kv key incoming).0
  merge_objects_core-IsWellKept incoming w = elim (merge_objects_core-Merged incoming) [
    | unchanged a e ↦ rw e w
    | installed e ↦ rw e (record {
      at_key = λ j. rw siblings-install_objects (elim (Bool-cases (key == j)) [
        | inl same ↦
            rw same
              (copy_objects-IsWell _ (add_new-IsWell (siblings_of kv key) incoming (w.at_key key)))
        | inr other ↦ rw other (w.at_key j)
      ]);
    })
  ]

  -- What some sibling of a key includes after a merge is what the merged siblings of that key include.
  pub seen_in-merge_objects_core :
      (incoming : List Object) (x : Object)
      → seen_in x (siblings_of (merge_objects_core kv key incoming).0 key)
        ≡ seen_in x (add_new (siblings_of kv key) incoming)
  seen_in-merge_objects_core incoming x = elim (merge_objects_core-Merged incoming) [
    | unchanged a e ↦ rw (e, a)
    | installed e ↦
        rw (e, siblings-install_objects, (string_eq.beq_iff key key).1 refl, seen_in-copy_objects)
  ]

  pub siblings-merge_objects_core_ne :
      (incoming : List Object) (j : String)
      → key ≢ j
      → siblings_of (merge_objects_core kv key incoming).0 j ≡ siblings_of kv j
  siblings-merge_objects_core_ne incoming j ne = elim (merge_objects_core-Merged incoming) [
    | unchanged a e ↦ rw e
    | installed e ↦ rw (e, siblings-install_objects) (ground (arith, string_eq.beq_iff key j))
  ]

  -- A merge loses no version and takes in every incoming one: afterwards some sibling of the key
  -- includes each version that was included before and each incoming version, and the siblings
  -- of the other keys are what they were.
  pub merge_objects_core_complete :
      (incoming : List Object)
      → ((x : Object)
          → seen_in x (siblings_of kv key) ≡ true
          → seen_in x (siblings_of (merge_objects_core kv key incoming).0 key) ≡ true)
        × All
            (λ o. seen_in o (siblings_of (merge_objects_core kv key incoming).0 key) ≡ true)
            incoming
        × ((j : String)
            → key ≢ j
            → siblings_of (merge_objects_core kv key incoming).0 j ≡ siblings_of kv j)
  merge_objects_core_complete incoming = (
    λ x h.
        seen_in-merge_objects_core incoming x ∙ seen_in-add_new x (siblings_of kv key) incoming h,
    All-map (λ o h. seen_in-merge_objects_core incoming o ∙ h) incoming
        (seen_in-add_new_incoming (siblings_of kv key) incoming),
    siblings-merge_objects_core_ne incoming,
  )

merge_loop-All_seen :
    (merged incoming : List Object)
    → All (λ o. seen_in o merged ≡ true) incoming
    → (merge_loop merged false incoming).1 ≡ false
unfolding merge_loop
merge_loop-All_seen merged [] h = refl
merge_loop-All_seen merged (o ∷ incoming) h =
    let e : can_be_added_to o merged ≡ false = rw can_be_added_to-seen_in (rw h.0) in
    rw (e, merge_loop) (merge_loop-All_seen merged incoming h.1)

merge-All_seen :
    (kv : KvServer) (key : String) (incoming : List Object)
    → All (λ o. seen_in o (siblings_of kv key) ≡ true) incoming
    → (merge_objects_core kv key incoming).0 ≡ kv
unfolding merge_objects_core
merge-All_seen kv key [] h = refl
merge-All_seen kv key (o ∷ incoming) h =
    rw (merge_loop-All_seen (siblings_of kv key) (o ∷ incoming) h)

-- Merging the same versions a second time leaves the whole server as the first merge left it.
pub merge_objects_core_twice :
    (kv : KvServer) (key : String) (incoming : List Object)
    → (merge_objects_core (merge_objects_core kv key incoming).0 key incoming).0
      ≡ (merge_objects_core kv key incoming).0
merge_objects_core_twice kv key incoming =
    merge-All_seen (merge_objects_core kv key incoming).0 key incoming
      (merge_objects_core_complete kv key incoming).1
