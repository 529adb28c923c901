-- ===== src/Eval/Stimulator/Quorum.antt =====
-- What the simulation of src/kvsrv_eval/stimulator.go says of strict quorums.
use dynamo_kvsrv_pbs.Prelude.{
  ℕ, zero, suc, ◌+◌, ◌-◌, ◌≤◌, ◌<◌, ◌≡◌, inl, inr, refl, ◌∙◌, ap, Bool, true, false, none, some,
  List, [], ◌∷◌, map, length, get_elem?, ltb, leb, sort_by, length-sort_by, arith, Bool-cases, All,
  All-mono, less64, add64_small, less64_small, ◌^◌,
}
use dynamo_kvsrv_pbs.Eval.Stimulator.{
  SimulationConfig, Sample, write_latency, read_latency, nth_smallest, indices_from, at,
  first_k_indices, some_fresh, simulate_trial, validate_delta_p_config,
}
use dynamo_kvsrv_pbs.Eval.Stimulator.Counts.{
  count, count-sort_by, count-take, length-take, Ascends-sort_onto, count-Ascends, All-sort_onto,
  sort_onto-less64,
}

get_elem?-some : (xs : List ℕ) (n : ℕ) → n < length xs → get_elem? xs n ≡ some (at xs n)
get_elem?-some [] n h = absurd (omega (arith, h))
get_elem?-some (x ∷ xs) zero h = refl
get_elem?-some (x ∷ xs) (suc n) h = get_elem?-some xs n (omega (arith, h))

All-at : (longest : ℕ) (xs : List ℕ) (i : ℕ) → All (λ x. x ≤ longest) xs → at xs i ≤ longest
All-at longest [] i a = omega arith
All-at longest (x ∷ xs) zero a = a.0
All-at longest (x ∷ xs) (suc i) a = All-at longest xs i a.1

-- No write and no request of a read takes longer than `longest`.
abbrev pub IsWithin : ℕ → Sample → Type 0
IsWithin longest s = (s.write_request + s.write_ack ≤ longest) × (s.read_request ≤ longest)

module _ (longest : ℕ) (fit : longest < 2 ^ 63) where
  write_latencies_within :
      (samples : List Sample)
      → All (IsWithin longest) samples
      → All (λ x. x ≤ longest) (map write_latency samples)
  write_latencies_within [] a = tt
  write_latencies_within (s ∷ samples) a =
      (omega (arith, fit, a.0.0), write_latencies_within samples a.1)

  read_requests_within :
      (samples : List Sample)
      → All (IsWithin longest) samples
      → All (λ x. x ≤ longest) (map (λ s. s.read_request) samples)
  read_requests_within [] a = tt
  read_requests_within (s ∷ samples) a = (a.0.1, read_requests_within samples a.1)

-- At least n of the values are at most the n-th smallest.
pub nth_smallest_lem :
    (longest : ℕ) (values : List ℕ) (n : ℕ)
    → 1 ≤ n
    → n ≤ length values
    → longest < 2 ^ 63
    → All (λ x. x ≤ longest) values
    → (v : ℕ) × (nth_smallest values n ≡ some v) × (v ≤ longest) × (n ≤ count (λ x. leb x v) values)
unfolding nth_smallest sort_by
nth_smallest_lem longest values n l h fit low =
    let sorted = sort_by ltb values in
    let small : All (λ x. x < 2 ^ 63) values = All-mono (λ x b. omega (arith, fit, b)) values low in
    let same : sort_by less64 values ≡ sorted = sort_onto-less64 [] values tt small in
    let e = get_elem?-some sorted (n - 1) (omega (arith, l, h, length-sort_by ltb values)) in
    let c = count-Ascends 0 (n - 1) (at sorted (n - 1)) sorted (Ascends-sort_onto [] values tt) e in
    (
      at sorted (n - 1),
      rw same e,
      All-at longest sorted (n - 1) (All-sort_onto (λ x. x ≤ longest) ltb [] values tt low),
      omega (arith, l, c.1, count-sort_by ltb (λ x. leb x (at sorted (n - 1))) values),
    )

count-split : (v : ℕ) (xs : List ℕ) → count (λ x. leb x v) xs + count (ltb v) xs ≡ length xs
count-split v [] = omega arith
count-split v (x ∷ xs) = ground (arith, count-split v xs)

count-indices :
    (p : ℕ → Bool) (f : ℕ → ℕ) (k : ℕ) (xs : List ℕ)
    → ((j : ℕ) → f (k + j) ≡ at xs j)
    → count (λ i. p (f i)) (indices_from k (length xs)) ≡ count p xs
unfolding indices_from
count-indices p f k [] h = refl
count-indices p f k (x ∷ xs) h =
    let start : k ≡ k + 0 = omega arith in
    let first : f k ≡ x = ap f start ∙ h 0 in
    let step : (j : ℕ) → f (k + 1 + j) ≡ at xs j =
      λ j. (let e : k + 1 + j ≡ k + suc j = omega arith in ap f e ∙ h (suc j)) in
    rw first (omega (arith, count-indices p f (k + 1) xs step))

length-map : {A B : Type 0} (f : A → B) (xs : List A) → length (map f xs) ≡ length xs
length-map f [] = refl
length-map f (x ∷ xs) = omega (arith, length-map f xs)

request_below_latency :
    (longest : ℕ) (samples : List Sample) (i : ℕ)
    → longest < 2 ^ 63
    → All (IsWithin longest) samples
    → at (map (λ s. s.write_request) samples) i ≤ at (map write_latency samples) i
request_below_latency longest [] i fit a = omega arith
request_below_latency longest (s ∷ samples) zero fit a = omega (arith, fit, a.0.0)
request_below_latency longest (s ∷ samples) (suc i) fit a =
    request_below_latency longest samples i fit a.1

-- Where no reply is fresh, all come from replicas whose write latency is above the write's finish.
some_fresh_none :
    (longest : ℕ) (samples : List Sample) (write_finish delta : ℕ) (replies : List ℕ)
    → longest + longest + delta < 2 ^ 63
    → All (IsWithin longest) samples
    → write_finish ≤ longest
    → some_fresh samples write_finish delta replies ≡ false
    → count (λ i. ltb write_finish (at (map write_latency samples) i)) replies ≡ length replies
unfolding some_fresh
some_fresh_none longest samples write_finish delta [] fit a w h = refl
some_fresh_none longest samples write_finish delta (i ∷ replies) fit a w h =
    let short : longest < 2 ^ 63 = omega (arith, fit) in
    let request = at (map (λ s. s.read_request) samples) i in
    let read = All-at longest _ i (read_requests_within longest short samples a) in
    let write = All-at longest _ i (write_latencies_within longest short samples a) in
    let below = request_below_latency longest samples i short a in
    let first = add64_small write_finish request (omega (arith, fit, read, w)) in
    let sum = add64_small (write_finish + request) delta (omega (arith, fit, read, w)) in
    let order =
      less64_small (write_finish + request + delta) (at (map (λ s. s.write_request) samples) i)
        (omega (arith, fit, read, w)) (omega (arith, short, below, write)) in
    let f = rw (first, sum, order) at h in
    ground (arith, f, some_fresh_none longest samples write_finish delta replies fit a w, below)

-- The numbers of a valid configuration.
record IsValid (config : SimulationConfig) : Type 0 where
  reads : 1 ≤ config.read_quorum
  reads_bound : config.read_quorum ≤ config.num_replicas
  writes : 1 ≤ config.write_quorum
  writes_bound : config.write_quorum ≤ config.num_replicas

validate-IsValid :
    (config : SimulationConfig) → validate_delta_p_config config ≡ none → IsValid config
unfolding validate_delta_p_config
validate-IsValid config valid = record {
  reads = ground (arith, valid);
  reads_bound = ground (arith, valid);
  writes = ground (arith, valid);
  writes_bound = ground (arith, valid);
}

simulate_trial-some :
    (config : SimulationConfig) (samples : List Sample) (write_finish : ℕ)
    → nth_smallest (map write_latency samples) config.write_quorum ≡ some write_finish
    → simulate_trial config samples
      ≡ some (
          some_fresh samples write_finish config.delta
            (first_k_indices (map read_latency samples) config.read_quorum))
unfolding simulate_trial
simulate_trial-some config samples write_finish e = rw (e, simulate_trial) refl

-- Of the first k replies at most as many are bad as are bad at all, for a test on the write latencies.
count-first_k_indices :
    (p : ℕ → Bool) (values others : List ℕ) (k : ℕ)
    → length values ≡ length others
    → count (λ i. p (at others i)) (first_k_indices values k) ≤ count p others
unfolding first_k_indices
count-first_k_indices p values others k n =
    let less = λ (i j : ℕ). less64 (at values i) (at values j) in
    let indices = indices_from 0 (length values) in
    let bad = λ (i : ℕ). p (at others i) in
    let whole : count bad (indices_from 0 (length others)) ≡ count p others =
      count-indices p (at others) 0 others
        (λ j. (let e : 0 + j ≡ j = omega arith in ap (at others) e)) in
    let same : count bad indices ≡ count bad (indices_from 0 (length others)) =
      ap (λ m. count bad (indices_from 0 m)) n in
    omega
      (arith, count-take bad k (sort_by less indices), count-sort_by less bad indices, same, whole)

length-indices_from : (i n : ℕ) → length (indices_from i n) ≡ n
unfolding indices_from
length-indices_from i zero = refl
length-indices_from i (suc n) = omega (arith, length-indices_from (i + 1) n)

length-first_k_indices :
    (values : List ℕ) (k : ℕ) → k ≤ length values → length (first_k_indices values k) ≡ k
unfolding first_k_indices
length-first_k_indices values k h =
    let less = λ (i j : ℕ). less64 (at values i) (at values j) in
    length-take k (sort_by less (indices_from 0 (length values))) (
      omega (
        arith,
        h,
        length-sort_by less (indices_from 0 (length values)),
        length-indices_from 0 (length values),
      ))

-- With quorums of which any two meet, a trial of the simulation is consistent in a valid
-- configuration with a sample for each replica, if no write and no request of a read takes
-- longer than a bound that, twice and with the delta, is below 2^63 nanoseconds, so that no sum
-- wraps.
pub simulate_trial_strict :
    (config : SimulationConfig) (samples : List Sample) (longest : ℕ)
    → validate_delta_p_config config ≡ none
    → length samples ≡ config.num_replicas
    → All (IsWithin longest) samples
    → longest + longest + config.delta < 2 ^ 63
    → config.num_replicas < config.read_quorum + config.write_quorum
    → simulate_trial config samples ≡ some true
simulate_trial_strict config samples longest valid n within fit strict =
    let v = validate-IsValid config valid in
    let writes = map write_latency samples in
    let reads = map read_latency samples in
    let write_count = length-map write_latency samples in
    let read_count = length-map read_latency samples in
    let short : longest < 2 ^ 63 = omega (arith, fit) in
    let (write_finish, e, soon, low) =
      nth_smallest_lem longest writes config.write_quorum v.writes
        (omega (arith, v.writes_bound, n, write_count)) short
        (write_latencies_within longest short samples within) in
    let replies = first_k_indices reads config.read_quorum in
    simulate_trial-some config samples write_finish e
    ∙ elim (Bool-cases (some_fresh samples write_finish config.delta replies)) [
      | inl fresh ↦ ap some fresh
      | inr none_fresh ↦
          let all_bad =
            some_fresh_none longest samples write_finish config.delta replies fit within soon
              none_fresh in
          let few =
            count-first_k_indices (ltb write_finish) reads writes config.read_quorum
              (omega (arith, write_count, read_count)) in
          absurd (
            omega (
              arith,
              strict,
              n,
              low,
              few,
              all_bad,
              count-split write_finish writes,
              write_count,
              length-first_k_indices reads config.read_quorum
                  (omega (arith, v.reads_bound, n, read_count)),
            ))
    ]
