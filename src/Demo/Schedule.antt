-- ===== src/Demo/Schedule.antt =====
-- How many failures the experiment of src/kvsrv/pbs_demo.go schedules.
use dynamo_kvsrv_pbs.Prelude.{
  ℕ, zero, suc, ◌+◌, ◌*◌, ◌≤◌, ◌<◌, ◌≡◌, refl, ◌∙◌, none, some, ltb, leb, arith, Bool-cases, inl,
  inr, ◌⊎◌, leb→le, ltb→lt, ltb→ge, true, false, eqb, add64, less64, add64_small, less64_small, ◌^◌,
}
use dynamo_kvsrv_pbs.Demo.{
  PbsDemoOptions, validate_failure_options, count_loop, count_scheduled_failure_phases,
}

suc-mul : (n k : ℕ) → suc n * k ≡ n * k + k
suc-mul n k = omega arith

zero-mul : (k : ℕ) → 0 * k ≡ 0
zero-mul k = omega arith

count_loop-suc :
    (fuel ts step t_run n : ℕ)
    → less64 ts t_run ≡ true
    → add64 ts step ≡ ts + step
    → count_loop fuel (ts + step) step t_run ≡ some n
    → count_loop (suc fuel) ts step t_run ≡ some (suc n)
unfolding count_loop
count_loop-suc fuel ts step t_run n before next k = rw (before, next, k) refl

-- The loop ends, and counts the starts ts, ts + step, … before t_run, if none of them wraps.
count_loop_lem :
    (fuel ts step t_run : ℕ)
    → 1 ≤ step
    → t_run + step ≤ 2 ^ 63
    → t_run ≤ ts + fuel
    → ts < t_run + step
    → (n : ℕ) × (count_loop fuel ts step t_run ≡ some n)
      × (t_run ≤ ts + n * step)
      × (ts + n * step < t_run + step)
unfolding count_loop
count_loop_lem zero ts step t_run s fit f h =
    let order = less64_small ts t_run (omega (arith, fit, h)) (omega (arith, fit, s)) in
    (0, ground (arith, f, order), omega (arith, f, zero-mul step), omega (arith, h, zero-mul step))
count_loop_lem (suc fuel) ts step t_run s fit f h =
    let order = less64_small ts t_run (omega (arith, fit, h)) (omega (arith, fit, s)) in
    elim (Bool-cases (ltb ts t_run)) [
      | inl e ↦
          let l = ltb→lt ts t_run e in
          let next = add64_small ts step (omega (arith, fit, l)) in
          let (n, k, lo, hi) =
            count_loop_lem fuel (ts + step) step t_run s fit (omega (arith, s, f))
              (omega (arith, l)) in
          (
            suc n,
            count_loop-suc fuel ts step t_run n (order ∙ e) next k,
            omega (arith, lo, suc-mul n step),
            omega (arith, hi, suc-mul n step),
          )
      | inr e ↦ (
        0,
        rw (order, e) refl,
        omega (arith, ltb→ge ts t_run e, zero-mul step),
        omega (arith, h, zero-mul step),
      )
    ]

pub count_scheduled_failure_phases_lem :
    (o : PbsDemoOptions)
    → 1 ≤ o.failure_up_duration
    → o.failure_start_after < 2 ^ 63
    → o.workload_duration + (o.failure_down_duration + o.failure_up_duration) < 2 ^ 63
    → (n : ℕ) × (count_scheduled_failure_phases o ≡ some n)
      × (o.workload_duration
          ≤ o.failure_start_after + n * (o.failure_down_duration + o.failure_up_duration))
      × ((n ≡ 0)
          ⊎ (o.failure_start_after + n * (o.failure_down_duration + o.failure_up_duration)
              < o.workload_duration + (o.failure_down_duration + o.failure_up_duration)))
unfolding count_scheduled_failure_phases
count_scheduled_failure_phases_lem o u start fit =
    let step = o.failure_down_duration + o.failure_up_duration in
    let cycle = add64_small o.failure_down_duration o.failure_up_duration (omega (arith, fit)) in
    let up : less64 0 o.failure_up_duration ≡ true =
      ground (arith, u, less64_small 0 o.failure_up_duration (omega arith) (omega (arith, fit))) in
    let some_set : eqb o.failure_up_duration 0 ≡ false = ground (arith, u) in
    let order =
      less64_small o.failure_start_after o.workload_duration start (omega (arith, fit, u)) in
    elim (Bool-cases (leb o.workload_duration o.failure_start_after)) [
      | inl e ↦
          let late : ltb o.failure_start_after o.workload_duration ≡ false = ground (arith, e) in
          (
            0,
            rw (order, late, up) (ground (arith, some_set)),
            omega (arith, leb→le _ _ e, zero-mul step),
            inl refl,
          )
      | inr e ↦
          let soon : ltb o.failure_start_after o.workload_duration ≡ true = ground (arith, e) in
          let early = ltb→lt _ _ soon in
          let (n, k, lo, hi) =
            count_loop_lem o.workload_duration o.failure_start_after step o.workload_duration
              (omega (arith, u)) (omega (arith, fit)) (omega arith) (omega (arith, early)) in
          (n, rw (order, soon, up, cycle, k) (ground (arith, some_set)), lo, inr hi)
    ]

-- Two steps of 2^63 come back to the same start, so the loop does not end.
endless_loop :
    (fuel ts t_run : ℕ)
    → ts < t_run
    → t_run < 2 ^ 63
    → (count_loop fuel ts (2 ^ 63) t_run ≡ none)
      × (count_loop fuel (ts + 2 ^ 63) (2 ^ 63) t_run ≡ none)
unfolding count_loop
endless_loop zero ts t_run h fit =
    let before : less64 ts t_run ≡ true = ground (arith, h, fit) in
    let negative : less64 (ts + 2 ^ 63) t_run ≡ true = ground (arith, h, fit) in
    (rw before refl, rw negative refl)
endless_loop (suc fuel) ts t_run h fit =
    let before : less64 ts t_run ≡ true = ground (arith, h, fit) in
    let negative : less64 (ts + 2 ^ 63) t_run ≡ true = ground (arith, h, fit) in
    let there : add64 ts (2 ^ 63) ≡ ts + 2 ^ 63 = omega (arith, h, fit) in
    let back : add64 (ts + 2 ^ 63) (2 ^ 63) ≡ ts = omega (arith, h, fit) in
    let rest = endless_loop fuel ts t_run h fit in
    (rw (before, there, rest.1) refl, rw (negative, back, rest.0) refl)

pub count_scheduled_failure_phases_endless :
    (o : PbsDemoOptions) (fuel : ℕ)
    → 1 ≤ o.failure_down_duration
    → o.failure_down_duration < 2 ^ 63
    → o.failure_down_duration + o.failure_up_duration ≡ 2 ^ 63
    → o.failure_overlap ≡ 0
    → o.failure_start_after < o.workload_duration
    → o.workload_duration < 2 ^ 63
    → (validate_failure_options o ≡ none)
      × (count_loop fuel o.failure_start_after
            (add64 o.failure_down_duration o.failure_up_duration)
            o.workload_duration
          ≡ none)
unfolding validate_failure_options
count_scheduled_failure_phases_endless o fuel down short cycle calm early run =
    let step : add64 o.failure_down_duration o.failure_up_duration ≡ 2 ^ 63 =
      omega (arith, cycle) in
    let d : less64 0 o.failure_down_duration ≡ true = ground (arith, down, short) in
    let n : eqb o.failure_down_duration 0 ≡ false = ground (arith, down) in
    (
      rw (calm, d, n) (ground arith),
      rw step (endless_loop fuel o.failure_start_after o.workload_duration early run).0,
    )
