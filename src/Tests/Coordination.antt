-- ===== src/Tests/Coordination.antt =====
-- The theorems on the coordinator and on read repair on a concrete server.
use dynamo_kvsrv_pbs.Prelude.{
  ◌+◌, ◌<◌, ◌≡◌, ◌⊎◌, refl, String, true, List, [], ◌∷◌, ◌++◌, some, arith, length, IsDistinct, All,
  map, contains, string_eq,
}
use dynamo_kvsrv_pbs.GoMap.{has, get, get_or}
use dynamo_kvsrv_pbs.VClock.{get_version, u64_mod, after}
use dynamo_kvsrv_pbs.Rpc.Context
use dynamo_kvsrv_pbs.Rpc.Messages.{
  ok, err_version, err_read_quorum_not_met, PutArgs, GetReply, ForwardGetResult, ForwardPutResult,
}
use dynamo_kvsrv_pbs.Ring
use dynamo_kvsrv_pbs.Server.{KvServer}
use dynamo_kvsrv_pbs.Server.Membership.{filter_dead_members}
use dynamo_kvsrv_pbs.Server.ReadRepair.{finish_coord_get_read_repair}
use dynamo_kvsrv_pbs.Server.ReadRepair.Convergence.{
  Includes, IsServed, finish_read_repair_converges,
}
use dynamo_kvsrv_pbs.Server.Coordinator.{
  coord_get, finish_read, collect_reads, get_reply, put_plans, collect_writes, stamp,
}
use dynamo_kvsrv_pbs.Server.Coordinator.ReadLoop.{count_if}
use dynamo_kvsrv_pbs.Server.Coordinator.Reads.{
  IsVouched, HasNoQuorum, coord_get_ok, coord_get_failed,
}
use dynamo_kvsrv_pbs.Rpc.Object.Seen.{seen_in}
use dynamo_kvsrv_pbs.Server.Coordinator.Quorums.{IsServedBy, holds, coord_get_fresh}
use dynamo_kvsrv_pbs.Server.Coordinator.Plans.{callee, IsPlan, IsNamed, put_plans_lem}
use dynamo_kvsrv_pbs.Server.Coordinator.Writes.{
  is_put_ok, is_put_version, is_put_no_key, verdict, collect_writes_counts,
}
use dynamo_kvsrv_pbs.Tests.Data.{left, server, reply_found, job, replied}

abbrev hash : String → String
hash value = value

abbrev read_result : KvServer × GetReply
read_result = finish_read server 0 "k" 5 6 (collect_reads 1 [] 0 0 [] (reply_found ∷ []))

read_returns : coord_get server 0 "k" 5 6 (reply_found ∷ []) ≡ some read_result
unfolding coord_get Ring.get_preference_list Ring.get_neighbors contains Ring.owner get_or get
    Ring.get_location dynamo_kvsrv_pbs.Server.Membership.is_in_preference_list filter_dead_members
read_returns = refl

read_is_ok : read_result.1.err ≡ ok
unfolding finish_read collect_reads dynamo_kvsrv_pbs.Server.Coordinator.reply_kind
read_is_ok = refl

abbrev read_failure : KvServer × GetReply
read_failure = (server, get_reply [] err_read_quorum_not_met)

read_fails : coord_get server 0 "k" 5 6 [] ≡ some read_failure
unfolding coord_get finish_read collect_reads Ring.get_preference_list Ring.get_neighbors contains
    Ring.owner get_or get Ring.get_location dynamo_kvsrv_pbs.Server.Membership.is_in_preference_list
    filter_dead_members
read_fails = refl

pref_list : Ring.get_preference_list server.ring "k" ≡ some ("a" ∷ "b" ∷ [])
unfolding Ring.get_preference_list Ring.get_neighbors contains Ring.owner get_or get
    Ring.get_location
pref_list = refl

pref-IsDistinct : IsDistinct {A = String} ("a" ∷ "b" ∷ [])
unfolding contains
pref-IsDistinct = (refl, (refl, tt))

server-IsNamed : IsNamed server
unfolding contains has get
server-IsNamed = record { distinct = (refl, (refl, (refl, tt))); named = refl }

job-Includes : All (Includes job.canonical_siblings) job.results
unfolding Context.compare dynamo_kvsrv_pbs.VClock.compare contains get_version get_or get
job-Includes = ((λ h. (refl, tt)), tt)

-- The clerk's put: the context of the object is the one that was read.
abbrev put_again : PutArgs
put_again = record { key = "k"; object = left; base_context = left.context }

version_fits : get_version put_again.object.context.vc server.id + 1 < u64_mod
unfolding get_version get_or get
version_fits = omega arith

abbrev results : List ForwardPutResult
results = replied err_version ∷ replied ok ∷ []

coord_get_ok_example : IsVouched server.read_quorum (reply_found ∷ []) read_result.1
coord_get_ok_example =
    coord_get_ok server 0 "k" 5 6 (reply_found ∷ []) read_result (omega arith) read_returns
      read_is_ok

coord_get_failed_example :
    (length (filter_dead_members server ("a" ∷ "b" ∷ [])) < server.read_quorum)
    ⊎ HasNoQuorum server.read_quorum []
coord_get_failed_example =
    coord_get_failed server 0 "k" 5 6 [] read_failure ("a" ∷ "b" ∷ []) (omega arith) pref_list
      read_fails refl

put_plans_lem_example :
    IsDistinct (map callee (put_plans server ("a" ∷ "b" ∷ [])))
    × All (IsPlan server ("a" ∷ "b" ∷ [])) (put_plans server ("a" ∷ "b" ∷ []))
put_plans_lem_example = put_plans_lem server server-IsNamed ("a" ∷ "b" ∷ []) pref-IsDistinct

collect_writes_counts_example :
    collect_writes 1 0 0 0 results
    ≡ verdict 1
        (count_if is_put_ok results)
        (count_if is_put_version results)
        (count_if is_put_no_key results)
collect_writes_counts_example = collect_writes_counts 1 results (omega arith)

finish_read_repair_converges_example :
    All (Includes (finish_coord_get_read_repair job).args.objects) (job.results ++ job.ch)
    × All
        (IsServed
          (finish_coord_get_read_repair job).stale_replicas
          (finish_coord_get_read_repair job).args.objects)
        (job.results ++ job.ch)
finish_read_repair_converges_example = finish_read_repair_converges job job-Includes

-- Both replicas hold `left`, and the one that is not dead replies.
abbrev holder : KvServer
holder = record server { kv = ("k", left ∷ []) ∷ [] }

holders_meet :
    2 < server.read_quorum + count_if {A = String} (λ s. holds holder "k" left) ("a" ∷ "b" ∷ [])
unfolding dynamo_kvsrv_pbs.Server.siblings_of get_or get Context.compare
    dynamo_kvsrv_pbs.VClock.compare contains get_version
holders_meet = omega arith

left_served : All (IsServedBy (λ id. holder) "k") (reply_found ∷ [])
unfolding dynamo_kvsrv_pbs.Server.Store.replica_get get dynamo_kvsrv_pbs.Rpc.Object.copy_objects
    Context.copy dynamo_kvsrv_pbs.VClock.copy dynamo_kvsrv_pbs.GoMap.put
left_served = ((λ h. refl), tt)

one_reply : IsDistinct (map (λ (res : ForwardGetResult). res.server_id) (reply_found ∷ []))
unfolding contains
one_reply = (refl, tt)

from_pref :
    All
      (λ (res : ForwardGetResult). contains {A = String} ("a" ∷ "b" ∷ []) res.server_id ≡ true)
      (reply_found ∷ [])
unfolding contains
from_pref = (refl, tt)

coord_get_fresh_example : seen_in left read_result.1.objects ≡ true
coord_get_fresh_example =
    coord_get_fresh server 0 "k" 5 6 (reply_found ∷ []) (λ id. holder) ("a" ∷ "b" ∷ []) left
      read_result (omega arith) holders_meet one_reply from_pref left_served read_returns read_is_ok
