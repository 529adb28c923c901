-- ===== src/Tests/Store.antt =====
-- The store's theorems on a server that holds one sibling.
use dynamo_kvsrv_pbs.Prelude.{
  ◌≡◌, ◌≢◌, refl, sym, ◌∙◌, String, true, false, [], ◌∷◌, All, Bool-cases, inl, inr, arith, ◌==◌,
  string_eq, contains, nat_eq,
}
use dynamo_kvsrv_pbs.GoMap.{has, get, get_or}
use dynamo_kvsrv_pbs.VClock
use dynamo_kvsrv_pbs.Rpc.Context
use dynamo_kvsrv_pbs.Rpc.Object.{Object, add_new, can_be_added_to}
use dynamo_kvsrv_pbs.Rpc.Object.Seen.{seen_by, seen_in}
use dynamo_kvsrv_pbs.Rpc.Messages.{ok, RepairArgs}
use dynamo_kvsrv_pbs.Server.{make_kv_server, siblings_of, get_keys_from_bucket}
use dynamo_kvsrv_pbs.Ring
use dynamo_kvsrv_pbs.Server.Store.{replica_put, install_objects, merge_objects_core, repair_put}
use dynamo_kvsrv_pbs.Server.Store.Siblings.{
  IsWellKept, base_of, replica_put-IsWellKept, replica_put_keeps, replica_put_accepted,
}
use dynamo_kvsrv_pbs.Server.Store.Merge.{
  merge_objects_core-IsWellKept, merge_objects_core_complete, merge_objects_core_twice,
}
use dynamo_kvsrv_pbs.Server.Store.Dirty.{replica_put_unmarked}
use dynamo_kvsrv_pbs.Server.Store.Race.{put_inside_merge, put_inside_merge_lost}
use dynamo_kvsrv_pbs.Server.Store.Index.{IsIndexed, replica_put-IsIndexed, repair_put-IsIndexed}
use dynamo_kvsrv_pbs.Server.Start.{make_kv_server_starts}
use dynamo_kvsrv_pbs.Server.Membership.Sync.{IsTable}
use dynamo_kvsrv_pbs.Tests.Data.{ring, left, right, left_twice, put_left, server}

put_left_extends : seen_by (base_of put_left) put_left.object ≡ true
unfolding Context.compare VClock.compare VClock.get_all_nodes VClock.add_nodes VClock.compare_loop
    VClock.verdict VClock.get_version contains get_or get
put_left_extends = refl

server-IsWellKept : IsWellKept server
unfolding siblings_of get_or get
server-IsWellKept = record {
  at_key = λ key. elim (Bool-cases ("k" == key)) [
    | inl e ↦ rw e (record { antichain = (tt, tt); sorted = (tt, tt) })
    | inr e ↦ rw e (record { antichain = tt; sorted = tt })
  ];
}

right_seen : seen_in right (siblings_of server "k") ≡ true
unfolding siblings_of get_or get Context.compare VClock.compare contains VClock.get_version
right_seen = refl

put_left_accepted : (replica_put server put_left).1 ≡ ok
unfolding replica_put siblings_of get_or get has can_be_added_to Context.compare VClock.compare
    contains VClock.get_version
put_left_accepted = refl

left_unseen : seen_in left (siblings_of server "k") ≡ false
unfolding siblings_of get_or get Context.compare VClock.compare contains VClock.get_version
left_unseen = refl

left_is_new : ¬ All (λ o. seen_in o (siblings_of server "k") ≡ true) (left ∷ [])
left_is_new h = let c : true ≡ false = sym h.0 ∙ left_unseen in absurd (cc)

server-IsIndexed : IsIndexed server
unfolding has get contains get_keys_from_bucket Ring.get_location
server-IsIndexed = record {
  sector_in = λ key. omega arith;
  bucket_in = λ key. omega arith;
  distinct = λ key. (refl, tt);
  holds = λ key. ground arith;
}

repair : RepairArgs
repair = record { key = "k"; objects = left ∷ []; is_delete = false }

replica_put-IsWellKept_example : IsWellKept (replica_put server put_left).0
replica_put-IsWellKept_example =
    replica_put-IsWellKept server put_left put_left_extends server-IsWellKept

replica_put_keeps_example : seen_in right (siblings_of (replica_put server put_left).0 "k") ≡ true
replica_put_keeps_example = replica_put_keeps server put_left right "k" right_seen

replica_put_accepted_example :
    (seen_in left_twice (siblings_of (replica_put server put_left).0 "k") ≡ true)
    × ((key : String)
        → "k" ≢ key
        → siblings_of (replica_put server put_left).0 key ≡ siblings_of server key)
replica_put_accepted_example = replica_put_accepted server put_left put_left_accepted

merge_objects_core-IsWellKept_example :
    IsWellKept (merge_objects_core server "k" (left ∷ left_twice ∷ [])).0
merge_objects_core-IsWellKept_example =
    merge_objects_core-IsWellKept server "k" (left ∷ left_twice ∷ []) server-IsWellKept

merge_objects_core_complete_example :
    ((x : Object)
      → seen_in x (siblings_of server "k") ≡ true
      → seen_in x (siblings_of (merge_objects_core server "k" (left ∷ [])).0 "k") ≡ true)
    × All
        (λ o. seen_in o (siblings_of (merge_objects_core server "k" (left ∷ [])).0 "k") ≡ true)
        (left ∷ [])
    × ((j : String)
        → "k" ≢ j
        → siblings_of (merge_objects_core server "k" (left ∷ [])).0 j ≡ siblings_of server j)
merge_objects_core_complete_example = merge_objects_core_complete server "k" (left ∷ [])

merge_objects_core_twice_example :
    (merge_objects_core (merge_objects_core server "k" (left ∷ [])).0 "k" (left ∷ [])).0
    ≡ (merge_objects_core server "k" (left ∷ [])).0
merge_objects_core_twice_example = merge_objects_core_twice server "k" (left ∷ [])

put_inside_merge_lost_example :
    (seen_in left_twice (siblings_of (replica_put server put_left).0 "k") ≡ true)
    × (seen_in left_twice (siblings_of (put_inside_merge server put_left (left ∷ [])) "k")
        ≡ seen_in left_twice (add_new (siblings_of server "k") (left ∷ [])))
put_inside_merge_lost_example =
    put_inside_merge_lost server put_left (left ∷ []) put_left_accepted left_is_new

replica_put-IsIndexed_example : IsIndexed (replica_put server put_left).0
replica_put-IsIndexed_example = replica_put-IsIndexed server put_left server-IsIndexed

repair_put-IsIndexed_example : IsIndexed (repair_put server repair).0
repair_put-IsIndexed_example = repair_put-IsIndexed server repair server-IsIndexed

replica_put_unmarked_example :
    ((replica_put server put_left).0.dirty_sectors ≡ server.dirty_sectors)
    × (contains
          (install_objects server "k" (left ∷ [])).dirty_sectors
          (Ring.get_location server.ring "k").0
        ≡ true)
replica_put_unmarked_example = replica_put_unmarked server put_left "k" (left ∷ [])

make_kv_server_starts_example :
    IsWellKept (make_kv_server "a" ring 2 1 ("a" ∷ "b" ∷ []) 5)
    × IsIndexed (make_kv_server "a" ring 2 1 ("a" ∷ "b" ∷ []) 5)
    × IsTable (make_kv_server "a" ring 2 1 ("a" ∷ "b" ∷ []) 5)
make_kv_server_starts_example =
    make_kv_server_starts "a" ring 2 1 ("a" ∷ "b" ∷ []) 5 (λ key. omega arith) (omega arith)
      (omega arith) (omega arith)
