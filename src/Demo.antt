-- ===== src/Demo.antt =====
-- src/kvsrv/pbs_demo.go: the schedule of failures and the choices of the experiment with fresh reads.
-- Durations are int64 in bit patterns: their sums wrap and their order is signed. What starts servers,
-- network and workers, draws random numbers or writes files is left out.
pub mod Failures
pub mod Schedule
use dynamo_kvsrv_pbs.Prelude.{
  ℕ, zero, suc, ◌+◌, ◌-◌, ◌%◌, ◌^◌, Bool, true, false, not, ◌&&◌, ◌||◌, String, Option, none, some,
  List, [], ◌∷◌, ◌++◌, length, get_elem?, ltb, leb, eqb, if◌then◌else◌, contains, string_eq, ◌==◌,
  add64, less64, is_negative,
}
use dynamo_kvsrv_pbs.GoMap.{get, put}
use dynamo_kvsrv_pbs.VClock
use dynamo_kvsrv_pbs.Rpc.Context
use dynamo_kvsrv_pbs.Rpc.Context.{Context}
use dynamo_kvsrv_pbs.Rpc.MemberInfo.{MemberInfo, NodeStatus}
use dynamo_kvsrv_pbs.Rpc.Messages.{
  Err, ok, err_no_key, err_version, err_write_quorum_not_met, GetReply,
}
use dynamo_kvsrv_pbs.Client
use dynamo_kvsrv_pbs.Ring
use dynamo_kvsrv_pbs.Ring.{Ring}
use dynamo_kvsrv_pbs.Server.{KvServer}
use dynamo_kvsrv_pbs.Server.Handoff.{is_dead}

pub record PbsDemoScenario : Type 0 where
  pub name : String
  pub label : String
  pub enable_read_repair : Bool
  pub enable_anti_entropy : Bool
  pub enable_hinted_handoff : Bool
  pub failure_mode : String

-- The options that the failures depend on.
pub record PbsDemoOptions : Type 0 where
  pub keys : List String
  pub workload_duration : ℕ
  pub failure_start_after : ℕ
  pub failure_down_duration : ℕ
  pub failure_up_duration : ℕ
  pub failure_recover_after : ℕ
  pub failure_overlap : ℕ

unfoldable pub default_scenarios : List PbsDemoScenario
default_scenarios =
    let scenario : String → Bool → Bool → Bool → PbsDemoScenario =
      λ name read_repair anti_entropy hinted_handoff. record {
        name = name;
        label = name;
        enable_read_repair = read_repair;
        enable_anti_entropy = anti_entropy;
        enable_hinted_handoff = hinted_handoff;
        failure_mode = "single_dead_replica";
      } in
    scenario "observe_baseline" false false false
    ∷ scenario "observe_read_repair" true false false
    ∷ scenario "observe_anti_entropy" false true false
    ∷ scenario "observe_hinted_handoff" false false true
    ∷ []

unfoldable pub scenarios_use_single_dead_replica : List PbsDemoScenario → Bool
scenarios_use_single_dead_replica [] = false
scenarios_use_single_dead_replica (s ∷ scenarios) =
    let rest = scenarios_use_single_dead_replica scenarios in
    if s.failure_mode == "single_dead_replica" then true else rest

-- The reason why the options are refused, or `none`.
pub data Refusal : Type 0 where
  up_without_down overlap_negative overlap_without_up overlap_too_long recovery_too_early : Refusal

unfoldable pub validate_failure_options : PbsDemoOptions → Option Refusal
validate_failure_options opts =
    if less64 0 opts.failure_up_duration && not (less64 0 opts.failure_down_duration)
    then some up_without_down
    else if is_negative opts.failure_overlap
    then some overlap_negative
    else if less64 0 opts.failure_overlap && not (less64 0 opts.failure_up_duration)
    then some overlap_without_up
    else if less64 0 opts.failure_overlap
        && not (less64 opts.failure_overlap opts.failure_down_duration)
    then some overlap_too_long
    else if less64 0 opts.failure_start_after
        && less64 0 opts.failure_recover_after
        && eqb opts.failure_down_duration 0
        && not (less64 opts.failure_start_after opts.failure_recover_after)
    then some recovery_too_early
    else none

-- One of the servers in the preference list, drawn at random: `draw` is what `Intn` gives. The error is
-- `none`, no dead replica the empty name.
unfoldable pub select_single_dead_replica_id :
    String → Ring → PbsDemoScenario → (ℕ → ℕ) → Option String
select_single_dead_replica_id key ring scenario draw =
    if scenario.failure_mode == "" || scenario.failure_mode == "none"
    then some ""
    else if not (scenario.failure_mode == "single_dead_replica")
    then none
    else elim (Ring.get_preference_list ring key) [
      | none ↦ none
      | some pref_list ↦
          if ltb (length pref_list) 2 then none else get_elem? pref_list (draw (length pref_list))
    ]

-- The candidates that the first one does not take for dead, or all.
unfoldable pub live_candidates : KvServer → List KvServer → List KvServer
live_candidates ref [] = []
live_candidates ref (c ∷ cands) =
    let rest = live_candidates ref cands in if not (is_dead ref c.id) then c ∷ rest else rest

unfoldable pub live_coordinator_candidates : List KvServer → List KvServer
unfolding live_candidates
live_coordinator_candidates [] = []
live_coordinator_candidates (ref ∷ cands) = elim (live_candidates ref (ref ∷ cands)) [
  | [] ↦ ref ∷ cands
  | c ∷ out ↦ c ∷ out
]

-- The loop of `uniqueStringIDs` with the set of the ids seen so far.
unfoldable pub unique_loop : List String → List String → List String
unfolding contains
unique_loop seen [] = []
unique_loop seen (id ∷ ids) =
    let skip = unique_loop seen ids in
    let take = id ∷ unique_loop (id ∷ seen) ids in
    if id == "" then skip else if contains seen id then skip else take

unfoldable pub unique_string_ids : List String → List String
unfolding unique_loop
unique_string_ids ids = unique_loop [] ids

-- The loop over the starts of the phases. `none` is a want of fuel.
unfoldable pub count_loop : ℕ → ℕ → ℕ → ℕ → Option ℕ
count_loop zero ts step t_run = if less64 ts t_run then none else some 0
count_loop (suc fuel) ts step t_run =
    let rest = count_loop fuel (add64 ts step) step t_run in
    if not (less64 ts t_run) then some 0 else elim rest [ none ↦ none | some n ↦ some (suc n) ]

-- `countPBSDemoScheduledFailurePhases`. Where no start wraps, each round of its loop takes at least a
-- nanosecond, and the fuel is enough.
unfoldable pub count_scheduled_failure_phases : PbsDemoOptions → Option ℕ
unfolding count_loop
count_scheduled_failure_phases o =
    if eqb o.failure_start_after 0
      && eqb o.failure_down_duration 0
      && eqb o.failure_up_duration 0
      && eqb o.failure_recover_after 0
    then some 1
    else if less64 0 o.failure_up_duration
    then (if not (less64 o.failure_start_after o.workload_duration)
        then some 0
        else count_loop o.workload_duration o.failure_start_after
            (add64 o.failure_down_duration o.failure_up_duration) o.workload_duration)
    else if not (less64 o.failure_start_after o.workload_duration)
    then some 0
    else some 1

-- The loop of `buildPBSFailureReplicaSequence` from i on, over a list that is not empty.
unfoldable pub replicas_from : List String → ℕ → ℕ → List String
replicas_from pref_list i zero = []
replicas_from pref_list i (suc n) =
    let rest = replicas_from pref_list (i + 1) n in
    elim (get_elem? pref_list (i % length pref_list)) [ none ↦ rest | some id ↦ id ∷ rest ]

-- `buildPBSFailureReplicaSequence`; an error is `none`.
unfoldable pub build_failure_replica_sequence :
    String → Ring → ℕ → PbsDemoScenario → Option (List String)
unfolding replicas_from
build_failure_replica_sequence key ring zero scenario = some []
build_failure_replica_sequence key ring (suc n) scenario =
    if not (scenario.failure_mode == "single_dead_replica")
    then none
    else elim (Ring.get_preference_list ring key) [
      | none ↦ none
      | some pref_list ↦
          if ltb (length pref_list) 2 then none else some (replicas_from pref_list 0 (suc n))
    ]

-- The context of a writer's next put; the version and the timestamp are uint64.
unfoldable pub next_demo_context : Context → String → Context
next_demo_context ctx writer_label =
    let next = Context.copy ctx in
    record next {
      vc =
          VClock.set_version next.vc writer_label
            ((VClock.get_version next.vc writer_label + 1) % 2 ^ 64);
      timestamp = (next.timestamp + 1) % 2 ^ 64;
    }

-- `now` is the clock.
unfoldable pub mark_member_status : KvServer → String → NodeStatus → ℕ → KvServer
mark_member_status kv server_id status now = elim (get kv.members server_id) [
  | none ↦ kv
  | some member ↦ record kv {
    members = put kv.members server_id (record member { status = status });
    member_last_updated = put kv.member_last_updated server_id now;
  }
]

-- The key and the victims of `RunPBSDemoScenario`; an error is `none`.
unfoldable pub first_key : List String → String
first_key [] = "pbs-demo-key"
first_key (key ∷ keys) = key

unfoldable pub scenario_victims : PbsDemoOptions → PbsDemoScenario → Ring → Option (List String)
unfolding first_key validate_failure_options scenarios_use_single_dead_replica
    count_scheduled_failure_phases build_failure_replica_sequence
scenario_victims opts scenario ring =
    if not (less64 0 opts.workload_duration) then none else elim (validate_failure_options opts) [
      | some refusal ↦ none
      | none ↦
          if not (scenarios_use_single_dead_replica (scenario ∷ []))
          then some []
          else elim (count_scheduled_failure_phases opts) [
            | none ↦ none
            | some n ↦ build_failure_replica_sequence (first_key opts.keys) ring n scenario
          ]
    ]

-- What `demoGet` makes of the reply to its read; its error is `none`.
unfoldable pub demo_get : GetReply → Option Err
demo_get reply = elim reply.err [
  | ok ↦ elim reply.objects [ [] ↦ none | o ∷ objects ↦ some ok ]
  | _ ↦ some reply.err
]

-- A context, none that could be read, or the error.
pub data LatestContext : Type 0 where
  latest : Context → LatestContext
  not_read without_objects : LatestContext

unfoldable pub demo_get_latest_context : GetReply → LatestContext
unfolding Client.pick_latest_object
demo_get_latest_context reply = elim reply.err [
  | ok ↦ elim (Client.pick_latest_object reply.objects) [
    | none ↦ without_objects
    | some o ↦ latest (Context.copy o.context)
  ]
  | _ ↦ not_read
]

-- The loop of `writeInitialValue` with the attempts that are left: `puts` is what demoPut returns, an
-- error and a context for each attempt.
unfoldable pub initial_loop : ℕ → List (Err × Context) → Option Context
initial_loop zero puts = none
initial_loop (suc attempts) [] = none
initial_loop (suc attempts) ((err, ctx) ∷ puts) =
    let again = initial_loop attempts puts in
    elim err [
      | ok ↦ some ctx
      | err_write_quorum_not_met ↦ again
      | err_no_key ↦ again
      | err_version ↦ again
      | _ ↦ none
    ]

unfoldable pub write_initial_value : List (Err × Context) → Option Context
unfolding initial_loop
write_initial_value puts = initial_loop 50 puts
