-- ===== src/Server/Store/Siblings.antt =====
-- The versions that a server holds, and what `ReplicaPut` and `installObjects` of
-- src/kvsrv/server.go do to them.
use dynamo_kvsrv_pbs.Prelude.{
  ℕ, ◌≡◌, ◌≢◌, ◌⊎◌, ◌∙◌, refl, ap, String, true, false, none, List, [], ◌∷◌, arith, ◌==◌, string_eq,
  nat_eq, if◌then◌else◌, Bool-cases, inl, inr,
}
use dynamo_kvsrv_pbs.GoMap.{GoMap, get_or, put, delete, has, get-put, get-delete}
use dynamo_kvsrv_pbs.Rpc.Context
use dynamo_kvsrv_pbs.Rpc.Object.{Object, can_be_added_to, add_object, add_new, copy_objects}
use dynamo_kvsrv_pbs.Rpc.Object.Seen.{
  seen_by, seen_in, seen_in_trans, can_be_added_to-seen_in, seen_in-add_object,
  seen_in-add_object_self,
}
use dynamo_kvsrv_pbs.Rpc.Object.Antichain.{IsAntichain, add_object-IsAntichain, add_new-IsAntichain}
use dynamo_kvsrv_pbs.Rpc.Object.Sorted.{IsSorted, add_object-IsSorted, add_new-IsSorted}
use dynamo_kvsrv_pbs.Rpc.Object.Copies.{copy_objects-IsAntichain, copy_objects-IsSorted}
use dynamo_kvsrv_pbs.Rpc.Messages.{Err, ok, err_no_key, err_version, PutArgs}
use dynamo_kvsrv_pbs.Server.{KvServer, siblings_of, index_key}
use dynamo_kvsrv_pbs.Server.Store.{replica_put, install_put, install_objects, mark_sector_dirty}

-- Siblings are pairwise concurrent and in the order of their timestamps.
pub record IsWell (ss : List Object) : Type 0 where
  pub antichain : IsAntichain ss
  pub sorted : IsSorted ss

-- The siblings of every key are well formed.
pub record IsWellKept (kv : KvServer) : Type 0 where
  pub at_key : (key : String) → IsWell (siblings_of kv key)

-- The request as an object under the context that the client read.
abbrev pub base_of : PutArgs → Object
base_of args = record { value = args.object.value; context = args.base_context }

add_object-IsWell :
    (ss : List Object) (c : Object)
    → can_be_added_to c ss ≡ true
    → IsWell ss
    → IsWell (add_object ss c none)
add_object-IsWell ss c h w = record {
  antichain = add_object-IsAntichain ss c none h w.antichain;
  sorted = add_object-IsSorted ss c h w.sorted;
}

pub add_new-IsWell : (ss objs : List Object) → IsWell ss → IsWell (add_new ss objs)
add_new-IsWell ss objs w = record {
  antichain = add_new-IsAntichain ss objs w.antichain;
  sorted = add_new-IsSorted ss objs w.sorted;
}

pub copy_objects-IsWell : (ss : List Object) → IsWell ss → IsWell (copy_objects ss)
copy_objects-IsWell ss w = record {
  antichain = copy_objects-IsAntichain ss w.antichain;
  sorted = copy_objects-IsSorted ss w.sorted;
}

pub nil-IsWell : IsWell []
nil-IsWell = record { antichain = tt; sorted = tt }

kv-index_key :
    (f : List String → String → List String) (kv : KvServer) (key : String)
    → (index_key f kv key).kv ≡ kv.kv
unfolding index_key
kv-index_key f kv key = refl

kv-mark_sector_dirty : (kv : KvServer) (s : ℕ) → (mark_sector_dirty kv s).kv ≡ kv.kv
unfolding mark_sector_dirty
kv-mark_sector_dirty kv s = ground arith

lookup : GoMap String (List Object) → String → List Object
unfolding get_or
lookup m key = get_or m key []

lookup-put :
    (m : GoMap String (List Object)) (k j : String) (v : List Object)
    → lookup (put m k v) j ≡ (if k == j then v else lookup m j)
unfolding lookup
lookup-put m k j v = rw get-put (ground arith)

lookup-delete :
    (m : GoMap String (List Object)) (k j : String)
    → lookup (delete m k) j ≡ (if k == j then [] else lookup m j)
unfolding lookup
lookup-delete m k j = rw get-delete (ground arith)

kv-install_put :
    (kv : KvServer) (args : PutArgs)
    → (install_put kv args).kv
      ≡ put kv.kv args.key (add_object (siblings_of kv args.key) args.object none)
unfolding install_put
kv-install_put kv args = elim (Bool-cases (Context.is_initial args.base_context)) [
  | inl e ↦ rw (e, kv-index_key)
  | inr e ↦ rw e
]

-- What an accepted put leaves at each key.
pub siblings-install_put :
    (kv : KvServer) (args : PutArgs) (key : String)
    → siblings_of (install_put kv args) key ≡ (
        if args.key == key
        then add_object (siblings_of kv args.key) args.object none
        else siblings_of kv key)
unfolding siblings_of lookup
siblings-install_put kv args key =
    ap (λ m. lookup m key) (kv-install_put kv args)
    ∙ lookup-put kv.kv args.key key (add_object (siblings_of kv args.key) args.object none)

kv-install_nil : (kv : KvServer) (key : String) → (install_objects kv key []).kv ≡ delete kv.kv key
unfolding install_objects
kv-install_nil kv key = rw kv-mark_sector_dirty (rw kv-index_key)

kv-install_cons :
    (kv : KvServer) (key : String) (o : Object) (objects : List Object)
    → (install_objects kv key (o ∷ objects)).kv ≡ put kv.kv key (copy_objects (o ∷ objects))
unfolding install_objects
kv-install_cons kv key o objects = elim (Bool-cases (has kv.kv key)) [
  | inl e ↦ rw (e, kv-mark_sector_dirty)
  | inr e ↦ rw (e, kv-mark_sector_dirty, kv-index_key)
]

-- `installObjects` leaves copies of the objects at the key, and every other key as it was.
pub siblings-install_objects :
    (kv : KvServer) (key : String) (objects : List Object) (j : String)
    → siblings_of (install_objects kv key objects) j
      ≡ (if key == j then copy_objects objects else siblings_of kv j)
unfolding siblings_of lookup copy_objects
siblings-install_objects kv key [] j =
    ap (λ m. lookup m j) (kv-install_nil kv key) ∙ lookup-delete kv.kv key j
siblings-install_objects kv key (o ∷ objects) j =
    ap (λ m. lookup m j) (kv-install_cons kv key o objects)
    ∙ lookup-put kv.kv key j (copy_objects (o ∷ objects))

-- What the put of a request that extends its base context does to the siblings of the key.
add_put-IsWell :
    (ss : List Object) (args : PutArgs)
    → seen_by (base_of args) args.object ≡ true
    → can_be_added_to (base_of args) ss ≡ true
    → can_be_added_to args.object ss ≡ true
add_put-IsWell ss args h k = elim (Bool-cases (seen_in args.object ss)) [
  | inl e ↦ absurd (
      ground (
        arith,
        can_be_added_to-seen_in (base_of args) ss,
        seen_in_trans (base_of args) args.object ss h e,
      ))
  | inr e ↦ ground (arith, can_be_added_to-seen_in args.object ss)
]

-- The three outcomes of `ReplicaPut`, each with the state that it leaves: a missing key and a base
-- context with a version; a sibling that includes the base context; and otherwise the object among
-- the siblings.
pub data Put (kv : KvServer) (args : PutArgs) (r : KvServer × Err) : Type 0 where
  no_key :
      has kv.kv args.key ≡ false
      → Context.is_initial args.base_context ≡ false
      → r ≡ (kv, err_no_key)
      → Put kv args r
  version :
      (has kv.kv args.key ≡ true) ⊎ (Context.is_initial args.base_context ≡ true)
      → seen_in (base_of args) (siblings_of kv args.key) ≡ true
      → r ≡ (kv, err_version)
      → Put kv args r
  accepted :
      (has kv.kv args.key ≡ true) ⊎ (Context.is_initial args.base_context ≡ true)
      → seen_in (base_of args) (siblings_of kv args.key) ≡ false
      → r ≡ (install_put kv args, ok)
      → Put kv args r

module _ (kv : KvServer) (args : PutArgs) where
  Put-checked :
      (has kv.kv args.key ≡ true) ⊎ (Context.is_initial args.base_context ≡ true)
      → Put kv args (replica_put kv args)
  unfolding replica_put
  Put-checked g = elim (Bool-cases (can_be_added_to (base_of args) (siblings_of kv args.key))) [
    | inl c ↦
        accepted g
          (ground (arith, can_be_added_to-seen_in (base_of args) (siblings_of kv args.key)))
          (ground arith)
    | inr c ↦
        version g (ground (arith, can_be_added_to-seen_in (base_of args) (siblings_of kv args.key)))
          (ground arith)
  ]

  pub replica_put-Put : Put kv args (replica_put kv args)
  unfolding replica_put
  replica_put-Put = elim (Bool-cases (has kv.kv args.key)) [
    | inl h ↦ Put-checked (inl h)
    | inr h ↦ elim (Bool-cases (Context.is_initial args.base_context)) [
      | inl i ↦ Put-checked (inr i)
      | inr i ↦ no_key h i (ground arith)
    ]
  ]

  install_put-IsWellKept :
      seen_by (base_of args) args.object ≡ true
      → seen_in (base_of args) (siblings_of kv args.key) ≡ false
      → IsWellKept kv
      → IsWellKept (install_put kv args)
  install_put-IsWellKept h n w = record {
    at_key = λ key. rw siblings-install_put (elim (Bool-cases (args.key == key)) [
      | inl e ↦ rw e (
          add_object-IsWell _ args.object (fresh (rw can_be_added_to-seen_in (rw n)))
            (w.at_key args.key))
      | inr e ↦ rw e (w.at_key key)
    ]);
  }
    where
      fresh :
          can_be_added_to (base_of args) (siblings_of kv args.key) ≡ true
          → can_be_added_to args.object (siblings_of kv args.key) ≡ true
      fresh = add_put-IsWell (siblings_of kv args.key) args h

  -- ReplicaPut keeps the siblings of every key pairwise concurrent and in the order of their
  -- timestamps, if the object's clock includes that of the base context.
  pub replica_put-IsWellKept :
      seen_by (base_of args) args.object ≡ true → IsWellKept kv → IsWellKept (replica_put kv args).0
  replica_put-IsWellKept h w = elim replica_put-Put [
    | no_key a b e ↦ rw e w
    | version a b e ↦ rw e w
    | accepted a b e ↦ rw e (install_put-IsWellKept h b w)
  ]

  -- ReplicaPut loses no version: what some sibling of a key included before, some sibling
  -- includes after.
  pub replica_put_keeps :
      (x : Object) (key : String)
      → seen_in x (siblings_of kv key) ≡ true
      → seen_in x (siblings_of (replica_put kv args).0 key) ≡ true
  replica_put_keeps x key h = elim replica_put-Put [
    | no_key a b e ↦ rw e h
    | version a b e ↦ rw e h
    | accepted a b e ↦ rw e (
        rw siblings-install_put (
          ground (
            arith,
            string_eq.beq_iff args.key key,
            seen_in-add_object (siblings_of kv key) args.object none x h,
          )))
  ]

  -- After ReplicaPut replies OK some sibling of the key includes the version of the object, and
  -- the siblings of the other keys are what they were.
  pub replica_put_accepted :
      (replica_put kv args).1 ≡ ok
      → (seen_in args.object (siblings_of (replica_put kv args).0 args.key) ≡ true)
        × ((key : String)
            → args.key ≢ key
            → siblings_of (replica_put kv args).0 key ≡ siblings_of kv key)
  replica_put_accepted h = elim replica_put-Put [
    | no_key a b e ↦ let k : err_no_key ≡ ok = rw e at h in absurd (cc)
    | version a b e ↦ let k : err_version ≡ ok = rw e at h in absurd (cc)
    | accepted a b e ↦ rw e (
      rw siblings-install_put (
          ground (
            arith,
            string_eq.beq_iff args.key args.key,
            seen_in-add_object_self (siblings_of kv args.key) args.object none,
          )),
      λ key ne. rw siblings-install_put (ground (arith, string_eq.beq_iff args.key key)),
    )
  ]
