-- ===== src/Server/Coordinator.antt =====
-- `CoordGet` and `CoordPut` of src/kvsrv/server.go. The network is a parameter: `arrivals` is what
-- the channel of replies delivers, in the order of delivery, one reply for each server that was
-- called. `none` means that the loop of the ring does not end. `now`, `stamped` and `done` are what
-- the calls of `time.Now` return. The latency samples of the calls are left out.
pub mod ReadLoop
pub mod Reads
pub mod Plans
pub mod Writes
pub mod Quorums
use dynamo_kvsrv_pbs.Prelude.{
  ℕ, ◌+◌, String, Bool, true, false, not, Option, none, some, List, [], ◌∷◌, ◌++◌, length, ltb, leb,
  if◌then◌else◌,
}
use dynamo_kvsrv_pbs.Ring
use dynamo_kvsrv_pbs.Rpc.Context
use dynamo_kvsrv_pbs.Rpc.Object.{Object, add_new, copy_objects}
use dynamo_kvsrv_pbs.Rpc.Messages.{
  Err, ok, err_no_key, err_version, err_not_coordinator, err_read_quorum_not_met,
  err_write_quorum_not_met, PutArgs, GetReply, ForwardGetResult, ForwardPutResult,
}
use dynamo_kvsrv_pbs.Eval.Collector.{
  new_completed_read, new_completed_write, observe_completed_read, observe_completed_write,
}
use dynamo_kvsrv_pbs.Server.{KvServer, ReadRepairJob}
use dynamo_kvsrv_pbs.Server.ReadRepair.{schedule_read_repair}
use dynamo_kvsrv_pbs.Server.Membership.{is_in_preference_list, filter_dead_members}
use dynamo_kvsrv_pbs.Server.Handoff.{is_dead, choose_handoff_node}

-- How the loop of `CoordGet` ends: with what it has, the results so far, and the replies that are
-- still to come.
pub data ReadOutcome : Type 0 where
  read_ok : List Object → List ForwardGetResult → List ForwardGetResult → ReadOutcome
  read_no_key : List ForwardGetResult → List ForwardGetResult → ReadOutcome
  read_failed : ReadOutcome

-- The tests of the loop on one result: not delivered or another error, objects, or no key.
pub data ReplyKind : Type 0 where
  failed found missing : ReplyKind

unfoldable pub reply_kind : ForwardGetResult → ReplyKind
reply_kind res =
    if not res.is_ok
    then failed
    else elim res.reply.err [ ok ↦ found | err_no_key ↦ missing | _ ↦ failed ]

unfoldable pub collect_reads :
    ℕ → List ForwardGetResult → ℕ → ℕ → List Object → List ForwardGetResult → ReadOutcome
collect_reads quorum results successes no_keys siblings [] = read_failed
collect_reads quorum results successes no_keys siblings (res ∷ arrivals) =
    let results' = results ++ res ∷ [] in
    let merged = add_new siblings res.reply.objects in
    let skip = collect_reads quorum results' successes no_keys siblings arrivals in
    let after_ok = collect_reads quorum results' (successes + 1) no_keys merged arrivals in
    let after_no_key = collect_reads quorum results' successes (no_keys + 1) siblings arrivals in
    elim (reply_kind res) [
      | failed ↦ skip
      | found ↦ if leb quorum (successes + 1) then read_ok merged results' arrivals else after_ok
      | missing ↦ if leb quorum (no_keys + 1) then read_no_key results' arrivals else after_no_key
    ]

-- The repair of what a read has seen, if repairs are enabled; the draining of the channel otherwise
-- changes nothing.
unfoldable pub leave_repair :
    KvServer → ℕ → String → List Object → List ForwardGetResult → List ForwardGetResult → KvServer
leave_repair kv job_id key canonical results rest =
    if kv.read_repair_enabled
    then schedule_read_repair kv (record {
      id = job_id;
      key = key;
      canonical_siblings = canonical;
      results = results;
      ch = rest;
    })
    else kv

abbrev pub get_reply : List Object → Err → GetReply
get_reply objects err = record { objects = objects; err = err }

unfoldable pub finish_read : KvServer → ℕ → String → ℕ → ℕ → ReadOutcome → KvServer × GetReply
unfolding leave_repair
finish_read kv job_id key now done (read_ok siblings results rest) =
    let kv' = leave_repair kv job_id key (copy_objects siblings) results rest in
    (
      record kv' {
        collector =
            observe_completed_read kv'.collector
              (new_completed_read key now done (copy_objects siblings));
      },
      get_reply (copy_objects siblings) ok,
    )
finish_read kv job_id key now done (read_no_key results rest) =
    (leave_repair kv job_id key [] results rest, get_reply [] err_no_key)
finish_read kv job_id key now done read_failed = (kv, get_reply [] err_read_quorum_not_met)

unfoldable pub coord_get :
    KvServer → ℕ → String → ℕ → ℕ → List ForwardGetResult → Option (KvServer × GetReply)
coord_get kv job_id key now done arrivals = elim (Ring.get_preference_list kv.ring key) [
  | none ↦ none
  | some pref_list ↦
      if not (is_in_preference_list kv pref_list)
      then some (kv, get_reply [] err_not_coordinator)
      else if ltb (length (filter_dead_members kv pref_list)) kv.read_quorum
      then some (kv, get_reply [] err_read_quorum_not_met)
      else some
          (finish_read kv job_id key now done (collect_reads kv.read_quorum [] 0 0 [] arrivals))
]

-- The empty handoff server means that the target itself is called.
pub record PutPlan : Type 0 where
  pub target_server : String
  pub handoff_server : String

-- The loop that makes the plans: the servers that are taken, and the plans.
unfoldable pub make_plans : KvServer → List String → List String → List PutPlan
make_plans kv used [] = []
make_plans kv used (server_id ∷ rest) =
    let skip = make_plans kv used rest in
    let handoff = choose_handoff_node kv used in
    if is_dead kv server_id
    then (if not kv.hinted_handoff_enabled then skip else elim handoff [
      | none ↦ skip
      | some s ↦
          record { target_server = server_id; handoff_server = s } ∷ make_plans kv (s ∷ used) rest
    ])
    else record { target_server = server_id; handoff_server = "" } ∷ skip

unfoldable pub put_plans : KvServer → List String → List PutPlan
unfolding make_plans
put_plans kv pref_list = make_plans kv pref_list pref_list

-- The errors behind the loop of `CoordPut`.
unfoldable pub put_failure : ℕ → ℕ → ℕ → Err
put_failure quorum versions no_keys =
    if leb quorum versions
    then err_version
    else if leb quorum no_keys
    then err_no_key
    else err_write_quorum_not_met

-- The tests of the loop of `CoordPut` on one result.
pub data PutKind : Type 0 where
  not_put put_ok put_version put_no_key : PutKind

unfoldable pub put_kind : ForwardPutResult → PutKind
put_kind res = if not res.is_ok then not_put else elim res.err [
  | ok ↦ put_ok
  | err_version ↦ put_version
  | err_no_key ↦ put_no_key
  | _ ↦ not_put
]

-- The loop of `CoordPut` over the results, and the errors behind it.
unfoldable pub collect_writes : ℕ → ℕ → ℕ → ℕ → List ForwardPutResult → Err
unfolding put_failure
collect_writes quorum successes versions no_keys [] = put_failure quorum versions no_keys
collect_writes quorum successes versions no_keys (res ∷ arrivals) =
    let skip = collect_writes quorum successes versions no_keys arrivals in
    let after_ok = collect_writes quorum (successes + 1) versions no_keys arrivals in
    let after_version = collect_writes quorum successes (versions + 1) no_keys arrivals in
    let after_no_key = collect_writes quorum successes versions (no_keys + 1) arrivals in
    elim (put_kind res) [
      | not_put ↦ skip
      | put_ok ↦ if leb quorum (successes + 1) then ok else after_ok
      | put_version ↦ after_version
      | put_no_key ↦ after_no_key
    ]

-- The object of the request under its new context.
unfoldable pub stamp : (String → String) → ℕ → KvServer → PutArgs → PutArgs
stamp hash now kv args = record args {
  object = record (args.object) {
    context = Context.update hash now args.object.context kv.id args.object.value;
  };
}

unfoldable pub finish_write : KvServer → PutArgs → ℕ → ℕ → Err → KvServer × Err
finish_write kv args now done err = elim err [
  | ok ↦ (
    record kv {
      collector =
          observe_completed_write kv.collector (new_completed_write args.key now done args.object);
    },
    ok,
  )
  | e ↦ (kv, e)
]

-- `network` is what the channel delivers once the plans are carried out.
unfoldable pub coord_put :
    (String → String)
    → KvServer
    → PutArgs
    → ℕ
    → ℕ
    → ℕ
    → (PutArgs → List PutPlan → List ForwardPutResult)
    → Option (KvServer × Err)
coord_put hash kv args now stamped done network = elim (Ring.get_preference_list kv.ring args.key) [
  | none ↦ none
  | some pref_list ↦
      if not (is_in_preference_list kv pref_list)
      then some (kv, err_not_coordinator)
      else let args' = stamp hash stamped kv args in
        let plans = put_plans kv pref_list in
        if ltb (length plans) kv.write_quorum
        then some (kv, err_write_quorum_not_met)
        else some (
            finish_write kv args' now done
              (collect_writes kv.write_quorum 0 0 0 (network args' plans)))
]
