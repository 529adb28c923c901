-- ===== src/Server/Store/Race.antt =====
-- `mergeObjectsCore` of src/kvsrv/server.go gives the lock up between its two critical sections: another
-- handler may run in between.
use dynamo_kvsrv_pbs.Prelude.{
  ◌≡◌, refl, true, List, [], ◌∷◌, string_eq, All, Bool-cases, inl, inr, if◌then◌else◌,
}
use dynamo_kvsrv_pbs.Rpc.Object.{Object, add_new}
use dynamo_kvsrv_pbs.Rpc.Object.Seen.{seen_in}
use dynamo_kvsrv_pbs.Rpc.Object.Copies.{seen_in-copy_objects}
use dynamo_kvsrv_pbs.Rpc.Messages.{ok, PutArgs}
use dynamo_kvsrv_pbs.Server.{KvServer, siblings_of}
use dynamo_kvsrv_pbs.Server.Store.{replica_put, install_objects, merge_view}
use dynamo_kvsrv_pbs.Server.Store.Siblings.{siblings-install_objects, replica_put_accepted}
use dynamo_kvsrv_pbs.Server.Store.Merge.{merge_view-add_new, merge_view-unchanged}

-- `mergeObjectsCore` of the incoming versions where the put, of the same key, runs after the first
-- critical section: the merge returns before it if nothing came in, and writes nothing if it has
-- found nothing new.
unfoldable pub put_inside_merge : KvServer → PutArgs → List Object → KvServer
put_inside_merge kv args [] = (replica_put kv args).0
put_inside_merge kv args (o ∷ incoming) =
    let kv' = (replica_put kv args).0 in
    let (merged, changed) = merge_view kv args.key (o ∷ incoming) in
    if changed then install_objects kv' args.key merged else kv'

-- Where some incoming version is new, the merged siblings are installed over those of the put.
put_inside_merge-installed :
    (kv : KvServer) (args : PutArgs) (incoming : List Object)
    → ¬ All (λ o. seen_in o (siblings_of kv args.key) ≡ true) incoming
    → put_inside_merge kv args incoming
      ≡ install_objects (replica_put kv args).0 args.key (merge_view kv args.key incoming).0
unfolding put_inside_merge
put_inside_merge-installed kv args [] news = absurd (news tt)
put_inside_merge-installed kv args (o ∷ incoming) news =
    elim (Bool-cases (merge_view kv args.key (o ∷ incoming)).1) [
      | inl e ↦ rw e
      | inr e ↦ absurd (news (merge_view-unchanged kv args.key (o ∷ incoming) e))
    ]

-- A put that replies OK between the critical sections of a merge of the same key is rolled back,
-- if the merge brings a version that was not included before: the put's version is included
-- right after the reply, and after the merge only if the merge had it already.
pub put_inside_merge_lost :
    (kv : KvServer) (args : PutArgs) (incoming : List Object)
    → (replica_put kv args).1 ≡ ok
    → ¬ All (λ o. seen_in o (siblings_of kv args.key) ≡ true) incoming
    → (seen_in args.object (siblings_of (replica_put kv args).0 args.key) ≡ true)
      × (seen_in args.object (siblings_of (put_inside_merge kv args incoming) args.key)
          ≡ seen_in args.object (add_new (siblings_of kv args.key) incoming))
put_inside_merge_lost kv args incoming h news = (
  (replica_put_accepted kv args h).0,
  rw (
    put_inside_merge-installed kv args incoming news,
    siblings-install_objects,
    (string_eq.beq_iff args.key args.key).1 refl,
    seen_in-copy_objects,
    merge_view-add_new,
  ),
)
