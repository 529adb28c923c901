-- ===== src/Tests/Experiment.antt =====
-- The theorems on the experiment, its simulation and its measures on concrete inputs.
use dynamo_kvsrv_pbs.Prelude.{
  ℕ, ◌+◌, ◌*◌, ◌≤◌, ◌<◌, ◌≡◌, ◌⊎◌, refl, String, true, [], ◌∷◌, Option, none, some, arith, ◌-◌, ◌^◌,
  add64,
}
use dynamo_kvsrv_pbs.Rpc.Object.Seen.{seen_in}
use dynamo_kvsrv_pbs.Eval.Stimulator.{
  SimulationConfig, Sample, simulate_trial, validate_delta_p_config,
}
use dynamo_kvsrv_pbs.Eval.Stimulator.Quorum.{simulate_trial_strict}
use dynamo_kvsrv_pbs.Eval.Observer.{is_consistent}
use dynamo_kvsrv_pbs.Eval.Observer.Fresh.{is_consistent_iff}
use dynamo_kvsrv_pbs.Demo.{
  PbsDemoOptions, validate_failure_options, count_loop, count_scheduled_failure_phases,
}
use dynamo_kvsrv_pbs.Demo.Schedule.{
  count_scheduled_failure_phases_lem, count_scheduled_failure_phases_endless,
}
use dynamo_kvsrv_pbs.Demo.Failures.{failure_loop}
use dynamo_kvsrv_pbs.Demo.Failures.Quiet.{after_events, no_trouble}
use dynamo_kvsrv_pbs.Demo.Failures.Recovery.{failure_loop_recovers}
use dynamo_kvsrv_pbs.Tests.Data.{left, left_twice, right}

-- Two of three replicas write and two read; the third write request is late.
abbrev config : SimulationConfig
config = record {
  num_replicas = 3;
  read_quorum = 2;
  write_quorum = 2;
  delta = 0;
  delta_points = 0;
  k = 1;
  iterations = 1;
}

abbrev sample : ℕ → ℕ → Sample
sample write read = record {
  write_request = write;
  write_ack = 1;
  read_request = read;
  read_response = 1;
}

config_valid : validate_delta_p_config config ≡ none
unfolding validate_delta_p_config
config_valid = refl

simulate_trial_strict_example :
    simulate_trial config (sample 2 5 ∷ sample 3 1 ∷ sample 90 1 ∷ []) ≡ some true
simulate_trial_strict_example =
    simulate_trial_strict config (sample 2 5 ∷ sample 3 1 ∷ sample 90 1 ∷ []) 91 config_valid refl
      ((omega arith, omega arith), ((omega arith, omega arith), ((omega arith, omega arith), tt)))
      (omega arith) (omega arith)

is_consistent_iff_example :
    is_consistent left (right ∷ left_twice ∷ []) ≡ seen_in left (right ∷ left_twice ∷ [])
unfolding dynamo_kvsrv_pbs.Rpc.Context.compare dynamo_kvsrv_pbs.VClock.compare
    dynamo_kvsrv_pbs.Prelude.contains dynamo_kvsrv_pbs.VClock.get_version
    dynamo_kvsrv_pbs.GoMap.get_or dynamo_kvsrv_pbs.GoMap.get
is_consistent_iff_example = is_consistent_iff left (right ∷ left_twice ∷ []) ((refl, tt), (tt, tt))

-- A failure of 2 from time 1 on, every 5 of 12, each overlapping with the next one.
abbrev options : PbsDemoOptions
options = record {
  keys = "k" ∷ [];
  workload_duration = 12;
  failure_start_after = 1;
  failure_down_duration = 2;
  failure_up_duration = 3;
  failure_recover_after = 0;
  failure_overlap = 1;
}

count_scheduled_failure_phases_lem_example :
    (n : ℕ) × (count_scheduled_failure_phases options ≡ some n)
    × (12 ≤ 1 + n * (2 + 3))
    × ((n ≡ 0) ⊎ (1 + n * (2 + 3) < 12 + (2 + 3)))
count_scheduled_failure_phases_lem_example =
    count_scheduled_failure_phases_lem options (omega arith) (omega arith) (omega arith)

failure_loop_recovers_example :
    after_events (failure_loop options ("a" ∷ "b" ∷ "c" ∷ []) 4) "a" no_trouble ≡ no_trouble
failure_loop_recovers_example = failure_loop_recovers options ("a" ∷ "b" ∷ "c" ∷ []) 4 "a"

-- Down for a nanosecond, and up for the longest time.
abbrev up_for_ever : PbsDemoOptions
up_for_ever = record options {
  failure_down_duration = 1;
  failure_up_duration = 2 ^ 63 - 1;
  failure_overlap = 0;
}

count_scheduled_failure_phases_endless_example :
    (validate_failure_options up_for_ever ≡ none)
    × (count_loop 1000 1 (add64 1 (2 ^ 63 - 1)) 12 ≡ none)
count_scheduled_failure_phases_endless_example =
    count_scheduled_failure_phases_endless up_for_ever 1000 (omega arith) (omega arith)
      (omega arith) refl (omega arith) (omega arith)
