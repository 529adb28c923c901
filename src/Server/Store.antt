-- ===== src/Server/Store.antt =====
-- The handlers of src/kvsrv/server.go and src/kvsrv/readrepair.go that read and change the versions that a
-- server holds: `ReplicaGet`, `ReplicaPut`, `installObjects`, `mergeObjectsCore`, `RepairPut`.
pub mod Siblings
pub mod Buckets
pub mod Index
pub mod Merge
pub mod Race
pub mod Dirty
use dynamo_kvsrv_pbs.Prelude.{
  ℕ, String, Bool, true, false, not, ◌&&◌, Option, none, some, List, [], ◌∷◌, ◌==◌, string_eq,
  nat_eq, if◌then◌else◌, contains, ◌++◌,
}
use dynamo_kvsrv_pbs.GoMap.{GoMap, get, put, delete, has}
use dynamo_kvsrv_pbs.Ring
use dynamo_kvsrv_pbs.Rpc.Context
use dynamo_kvsrv_pbs.Rpc.Object.{Object, can_be_added_to, add_object, add_new, copy_objects}
use dynamo_kvsrv_pbs.Rpc.Messages.{
  Err, ok, err_no_key, err_version, no_err, PutArgs, GetReply, RepairArgs,
}
use dynamo_kvsrv_pbs.Server.{KvServer, siblings_of, index_key, append_unique_key, remove_key}

unfoldable pub replica_get : KvServer → String → GetReply
replica_get kv key = elim (get kv.kv key) [
  | none ↦ record { objects = []; err = err_no_key }
  | some siblings ↦ record { objects = copy_objects siblings; err = ok }
]

-- The end of `ReplicaPut`: the versions are written, and a first version enters the bucket index.
unfoldable pub install_put : KvServer → PutArgs → KvServer
install_put kv args =
    let kv' : KvServer = record kv {
      kv = put kv.kv args.key (add_object (siblings_of kv args.key) args.object none);
    } in
    if Context.is_initial args.base_context then index_key append_unique_key kv' args.key else kv'

unfoldable pub replica_put : KvServer → PutArgs → KvServer × Err
unfolding install_put
replica_put kv args =
    let base : Object = record { value = args.object.value; context = args.base_context } in
    if not (has kv.kv args.key) && not (Context.is_initial args.base_context)
    then (kv, err_no_key)
    else if not (can_be_added_to base (siblings_of kv args.key))
    then (kv, err_version)
    else (install_put kv args, ok)

-- The set of dirty sectors as a list without repetitions.
unfoldable pub mark_sector_dirty : KvServer → ℕ → KvServer
mark_sector_dirty kv sector =
    if contains kv.dirty_sectors sector
    then kv
    else record kv { dirty_sectors = kv.dirty_sectors ++ sector ∷ [] }

unfoldable pub drain_dirty_sectors : KvServer → KvServer × List ℕ
drain_dirty_sectors kv = (record kv { dirty_sectors = [] }, kv.dirty_sectors)

unfoldable pub install_objects : KvServer → String → List Object → KvServer
install_objects kv key [] =
    mark_sector_dirty (index_key remove_key (record kv { kv = delete kv.kv key }) key)
      (Ring.get_location kv.ring key).0
install_objects kv key (o ∷ objects) =
    let kv' : KvServer = record kv { kv = put kv.kv key (copy_objects (o ∷ objects)) } in
    mark_sector_dirty (if has kv.kv key then kv' else index_key append_unique_key kv' key)
      (Ring.get_location kv.ring key).0

-- The loop of `mergeObjectsCore`, which also notes whether it has added an object.
unfoldable pub merge_loop : List Object → Bool → List Object → List Object × Bool
merge_loop merged changed [] = (merged, changed)
merge_loop merged changed (obj ∷ incoming) =
    let add = can_be_added_to obj merged in
    merge_loop (if add then add_object merged obj none else merged) (if add then true else changed)
      incoming

-- What `mergeObjectsCore` computes under the lock, before it gives the lock up.
unfoldable pub merge_view : KvServer → String → List Object → List Object × Bool
unfolding merge_loop
merge_view kv key incoming = merge_loop (siblings_of kv key) false incoming

-- With no other handler between the two critical sections. The result is that of
-- `returnSiblings`; `mergeObjectsAndDiscard` drops it.
unfoldable pub merge_objects_core : KvServer → String → List Object → KvServer × List Object
unfolding merge_view install_objects
merge_objects_core kv key [] = (kv, [])
merge_objects_core kv key (o ∷ incoming) =
    let (merged, changed) = merge_view kv key (o ∷ incoming) in
    if changed then (install_objects kv key merged, merged) else (kv, copy_objects merged)

unfoldable pub repair_put : KvServer → RepairArgs → KvServer × Err
unfolding merge_objects_core
repair_put kv args =
    if args.is_delete
    then (install_objects kv args.key [], ok)
    else ((merge_objects_core kv args.key args.objects).0, ok)
