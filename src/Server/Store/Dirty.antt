-- ===== src/Server/Store/Dirty.antt =====
-- Which sectors are marked for the refresh of their Merkle trees: `markSectorDirty` of src/kvsrv/merkle.go
-- under the handlers of src/kvsrv/server.go.
use dynamo_kvsrv_pbs.Prelude.{
  ℕ, ◌≡◌, ◌∙◌, String, true, List, [], ◌∷◌, arith, Bool-cases, inl, inr, contains, contains-append,
  eqb_iff, nat_eq, ap,
}
use dynamo_kvsrv_pbs.Ring
use dynamo_kvsrv_pbs.Rpc.Object.{Object}
use dynamo_kvsrv_pbs.Rpc.Messages.{PutArgs}
use dynamo_kvsrv_pbs.Server.{KvServer, index_key}
use dynamo_kvsrv_pbs.Server.Store.{replica_put, install_put, install_objects, mark_sector_dirty}
use dynamo_kvsrv_pbs.Server.Store.Siblings.{no_key, version, accepted, replica_put-Put}

marked : (kv : KvServer) (s : ℕ) → contains (mark_sector_dirty kv s).dirty_sectors s ≡ true
unfolding mark_sector_dirty contains
marked kv s = elim (Bool-cases (contains kv.dirty_sectors s)) [
  | inl e ↦ rw (e, mark_sector_dirty) e
  | inr e ↦ rw (e, mark_sector_dirty, contains-append) (ground (arith, eqb_iff s s))
]

install_objects_marked :
    (kv : KvServer) (key : String) (objects : List Object)
    → contains (install_objects kv key objects).dirty_sectors (Ring.get_location kv.ring key).0
      ≡ true
unfolding install_objects
install_objects_marked kv key [] = marked _ (Ring.get_location kv.ring key).0
install_objects_marked kv key (o ∷ objects) = marked _ (Ring.get_location kv.ring key).0

install_put_unmarked :
    (kv : KvServer) (args : PutArgs) → (install_put kv args).dirty_sectors ≡ kv.dirty_sectors
unfolding install_put index_key
install_put_unmarked kv args = ground arith

-- ReplicaPut, also when it writes a version, leaves the set of dirty sectors as it was, while
-- installObjects always leaves the sector of its key in the set.
pub replica_put_unmarked :
    (kv : KvServer) (args : PutArgs) (key : String) (objects : List Object)
    → ((replica_put kv args).0.dirty_sectors ≡ kv.dirty_sectors)
      × (contains (install_objects kv key objects).dirty_sectors (Ring.get_location kv.ring key).0
          ≡ true)
replica_put_unmarked kv args key objects = (
  elim (replica_put-Put kv args) [
    | no_key a b e ↦ ap (λ r. r.0.dirty_sectors) e
    | version a b e ↦ ap (λ r. r.0.dirty_sectors) e
    | accepted a b e ↦ ap (λ r. r.0.dirty_sectors) e ∙ install_put_unmarked kv args
  ],
  install_objects_marked kv key objects,
)
