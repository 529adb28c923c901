-- ===== src/Eval/Stimulator.antt =====
-- src/kvsrv_eval/stimulator.go: the simulation of writes and reads by the latencies of their messages.
-- Durations are int64 in bit patterns: their sums wrap and their order is signed. Of the configuration
-- the counts of int are at least 0, since the validation refuses the others as it refuses 0. The
-- floating-point ratios are not in the model.
-- Which of equal latencies the sort puts first is not fixed by Go; here it is the earlier one.
pub mod Counts
pub mod Quorum
use dynamo_kvsrv_pbs.Prelude.{
  ℕ, zero, suc, ◌+◌, ◌-◌, Bool, true, false, ◌||◌, String, Option, none, some, List, [], ◌∷◌, ◌++◌,
  map, length, get_elem?, ltb, leb, eqb, if◌then◌else◌, sort_by, not, add64, less64, is_negative,
}
use mathlib.Core.Option

pub record SimulationConfig : Type 0 where
  pub num_replicas : ℕ
  pub read_quorum : ℕ
  pub write_quorum : ℕ
  pub delta : ℕ
  pub delta_points : ℕ
  pub k : ℕ
  pub iterations : ℕ

-- The error of `validateDeltaPConfig`, or `none`.
unfoldable pub validate_delta_p_config : SimulationConfig → Option String
validate_delta_p_config config =
    if eqb config.num_replicas 0
    then some "NumReplicas must be > 0"
    else if eqb config.read_quorum 0 || ltb config.num_replicas config.read_quorum
    then some "ReadQuorum must be in [1, NumReplicas]"
    else if eqb config.write_quorum 0 || ltb config.num_replicas config.write_quorum
    then some "WriteQuorum must be in [1, NumReplicas]"
    else if is_negative config.delta
    then some "Delta must be >= 0"
    else if is_negative config.delta_points
    then some "DeltaPoints must be >= 0"
    else if eqb config.iterations 0
    then some "Iterations must be > 0"
    else if eqb config.k 0
    then some "K must be > 0"
    else none

-- The latencies that the samplers give for one replica in one trial.
pub record Sample : Type 0 where
  pub write_request : ℕ
  pub write_ack : ℕ
  pub read_request : ℕ
  pub read_response : ℕ

abbrev pub write_latency : Sample → ℕ
write_latency sample = add64 sample.write_request sample.write_ack

abbrev pub read_latency : Sample → ℕ
read_latency sample = add64 sample.read_request sample.read_response

-- `xs[:k]`
abbrev pub take {ℓ} : {A : Type ℓ} → ℕ → List A → List A
take zero xs = []
take (suc k) [] = []
take (suc k) (x ∷ xs) = x ∷ take k xs

-- `none` is an index out of range.
unfoldable pub nth_smallest : List ℕ → ℕ → Option ℕ
nth_smallest values n = get_elem? (sort_by less64 values) (n - 1)

unfoldable pub indices_from : ℕ → ℕ → List ℕ
indices_from i zero = []
indices_from i (suc n) = i ∷ indices_from (i + 1) n

abbrev pub at : List ℕ → ℕ → ℕ
at values i = Option.get_or (get_elem? values i) 0

unfoldable pub first_k_indices : List ℕ → ℕ → List ℕ
unfolding indices_from
first_k_indices values k =
    take k (sort_by (λ i j. less64 (at values i) (at values j)) (indices_from 0 (length values)))

-- The loop over the first replies: whether one comes from a replica that the write has reached.
unfoldable pub some_fresh : List Sample → ℕ → ℕ → List ℕ → Bool
some_fresh samples write_finish delta [] = false
some_fresh samples write_finish delta (i ∷ replies) =
    let read_request = at (map (λ s. s.read_request) samples) i in
    let write_request = at (map (λ s. s.write_request) samples) i in
    let rest = some_fresh samples write_finish delta replies in
    if not (less64 (add64 (add64 write_finish read_request) delta) write_request)
    then true
    else rest

-- A trial with a sample for each replica.
unfoldable pub simulate_trial : SimulationConfig → List Sample → Option Bool
unfolding nth_smallest first_k_indices some_fresh
simulate_trial config samples =
    elim (nth_smallest (map write_latency samples) config.write_quorum) [
      | none ↦ none
      | some write_finish ↦ some (
          some_fresh samples write_finish config.delta
            (first_k_indices (map read_latency samples) config.read_quorum))
    ]

-- The consistent trials of `SimulateDeltaP`.
unfoldable pub consistent_trials : SimulationConfig → List (List Sample) → Option ℕ
unfolding simulate_trial
consistent_trials config [] = some 0
consistent_trials config (samples ∷ trials) = elim (simulate_trial config samples) [
  | none ↦ none
  | some consistent ↦ elim (consistent_trials config trials) [
    | none ↦ none
    | some n ↦ some ((if consistent then 1 else 0) + n)
  ]
]

-- `SimulateDeltaP` without its ratio; `none` is the panic on a configuration that is not valid.
unfoldable pub simulate_delta_p : SimulationConfig → List (List Sample) → Option ℕ
unfolding validate_delta_p_config consistent_trials
simulate_delta_p config trials = elim (validate_delta_p_config config) [
  | some err ↦ none
  | none ↦ consistent_trials config trials
]
