-- ===== src/Server/Handoff/Replay.antt =====
-- Which hints `replayHints` of src/kvsrv/hinted_handoff.go drops.
use dynamo_kvsrv_pbs.Prelude.{
  ℕ, ◌+◌, ◌≤◌, ◌≡◌, ◌≢◌, ◌⊎◌, ◌∙◌, refl, ap, String, true, false, ◌&&◌, some, none, List, [], ◌∷◌,
  arith, string_eq, if◌then◌else◌, Bool-cases, Option-cases, inl, inr, length,
}
use mathlib.Core.Path.{subst}
use dynamo_kvsrv_pbs.Rpc.Messages.{
  Err, ok, no_err, err_rpc_failure, err_no_key, err_version, err_maybe, err_not_coordinator,
  err_read_quorum_not_met, err_write_quorum_not_met, err_no_hash_value, PutArgs, ForwardPutResult,
}
use dynamo_kvsrv_pbs.Server.{KvServer}
use dynamo_kvsrv_pbs.Server.ReadRepair.{is_ok_err}
use dynamo_kvsrv_pbs.Server.Handoff.{
  hints_for, is_alive, matches, without_match, remove_hint, get_hints, replay_loop, replay_hints,
}
use dynamo_kvsrv_pbs.Server.Handoff.Matches.{
  IsSamePut, alike, alike-without_match, alike-none, alike-copy, matches-IsSamePut, matches_self,
}
use dynamo_kvsrv_pbs.Server.Handoff.Laws.{
  remove_hint_ne, remove_hint_cases, hints_for-set_hints, length-without_match,
}

abbrev pub IsIn : PutArgs → List PutArgs → Type 0
IsIn x [] = ⊥
IsIn x (y ∷ ys) = (x ≡ y) ⊎ IsIn x ys

-- The request was sent, and the target has replied OK to it: the results are those of the requests
-- in their order.
abbrev pub IsDelivered : PutArgs → List PutArgs → List ForwardPutResult → Type 0
IsDelivered d [] results = ⊥
IsDelivered d (sent ∷ requests) [] = ⊥
IsDelivered d (sent ∷ requests) (res ∷ results) =
    ((d ≡ sent) × (res.is_ok ≡ true) × (res.err ≡ ok)) ⊎ IsDelivered d requests results

-- Only a hint that matches goes.
without_match_keeps :
    (hints : List PutArgs) (matched : PutArgs) (hints' : List PutArgs) (x : PutArgs)
    → without_match hints matched ≡ some hints'
    → IsIn x hints
    → IsIn x hints' ⊎ (matches x matched ≡ true)
unfolding without_match
without_match_keeps [] matched hints' x e i = absurd i
without_match_keeps (hint ∷ hints) matched hints' x e i = elim (Bool-cases (matches hint matched)) [
  | inl m ↦
      let f : some hints ≡ some hints' = rw m at e in
      let same : hints ≡ hints' = cc f in
      elim i [ inl here ↦ inr (rw here m) | inr there ↦ inl (subst (IsIn x) same there) ]
  | inr m ↦ elim (Option-cases (without_match hints matched)) [
    | inl n ↦ let f : none ≡ some hints' = rw (m, n) at e in absurd (cc f)
    | inr (rest, n) ↦
        let f : some (hint ∷ rest) ≡ some hints' = rw (m, n) at e in
        let same : hint ∷ rest ≡ hints' = cc f in
        elim i [
          | inl here ↦ inl (subst (IsIn x) same (inl here))
          | inr there ↦ elim (without_match_keeps hints matched rest x n there) [
            | inl kept ↦ inl (subst (IsIn x) same (inr kept))
            | inr same_put ↦ inr same_put
          ]
        ]
  ]
]

remove_hint_keeps :
    (kv : KvServer) (target : String) (matched x : PutArgs)
    → IsIn x (hints_for kv target)
    → IsIn x (hints_for (remove_hint kv target matched) target) ⊎ (matches x matched ≡ true)
remove_hint_keeps kv target matched x i = elim (remove_hint_cases kv target matched) [
  | inl k ↦ inl (rw k i)
  | inr (hints, e, k) ↦ elim (without_match_keeps (hints_for kv target) matched hints x e i) [
    | inr m ↦ inr m
    | inl kept ↦ inl (rw (k, hints_for-set_hints, (string_eq.beq_iff target target).1 refl) kept)
  ]
]

remove_hint-some :
    (kv : KvServer) (target : String) (matched : PutArgs) (hints : List PutArgs)
    → without_match (hints_for kv target) matched ≡ some hints
    → hints_for (remove_hint kv target matched) target ≡ hints
unfolding remove_hint
remove_hint-some kv target matched hints w =
    rw (w, remove_hint, hints_for-set_hints, (string_eq.beq_iff target target).1 refl) refl

-- The replies OK to the requests that were sent.
abbrev pub delivered : List PutArgs → List ForwardPutResult → ℕ
delivered [] results = 0
delivered (sent ∷ requests) [] = 0
delivered (sent ∷ requests) (res ∷ results) =
    (if res.is_ok && is_ok_err res.err then 1 else 0) + delivered requests results

-- As many hints go as were delivered, while there are hints enough that match the requests.
replay_loop_exact :
    (kv : KvServer) (target : String) (requests : List PutArgs) (results : List ForwardPutResult)
    → ((x : PutArgs) → alike x requests ≤ alike x (hints_for kv target))
    → length (hints_for kv target)
      ≡ length (hints_for (replay_loop kv target requests results) target)
        + delivered requests results
unfolding replay_loop
replay_loop_exact kv target [] results enough = omega arith
replay_loop_exact kv target (h ∷ requests) [] enough = omega arith
replay_loop_exact kv target (h ∷ requests) (res ∷ results) enough =
    elim (Bool-cases (res.is_ok && is_ok_err res.err)) [
      | inr e ↦
          let ih = replay_loop_exact kv target requests results (λ x. omega (arith, enough x)) in
          rw e (omega (arith, ih))
      | inl e ↦ elim (Option-cases (without_match (hints_for kv target) h)) [
        | inl n ↦
            absurd (ground (arith, enough h, matches_self h, alike-none (hints_for kv target) h n))
        | inr (hints', n) ↦
            let kv' = remove_hint kv target h in
            let k = remove_hint-some kv target h hints' n in
            let ih = replay_loop_exact kv' target requests results (λ x.
              rw k (
                omega (arith, enough x, alike-without_match (hints_for kv target) h hints' x n))) in
            let l = length-without_match (hints_for kv target) h hints' n in
            rw e (omega (arith, l, ih, ap length k))
      ]
    ]

replay_loop_ne :
    (kv : KvServer) (target : String) (hints : List PutArgs) (results : List ForwardPutResult)
    (other : String)
    → target ≢ other
    → hints_for (replay_loop kv target hints results) other ≡ hints_for kv other
unfolding replay_loop
replay_loop_ne kv target [] results other ne = refl
replay_loop_ne kv target (hint ∷ hints) [] other ne = refl
replay_loop_ne kv target (hint ∷ hints) (res ∷ results) other ne =
    elim (Bool-cases (res.is_ok && is_ok_err res.err)) [
      | inl e ↦ rw e (
          replay_loop_ne (remove_hint kv target hint) target hints results other ne
          ∙ remove_hint_ne kv target hint other ne)
      | inr e ↦ rw e (replay_loop_ne kv target hints results other ne)
    ]

ok_reply : (e : Err) → is_ok_err e ≡ true → e ≡ ok
ok_reply ok h = refl
ok_reply no_err h = absurd (cc)
ok_reply err_rpc_failure h = absurd (cc)
ok_reply err_no_key h = absurd (cc)
ok_reply err_version h = absurd (cc)
ok_reply err_maybe h = absurd (cc)
ok_reply err_not_coordinator h = absurd (cc)
ok_reply err_read_quorum_not_met h = absurd (cc)
ok_reply err_write_quorum_not_met h = absurd (cc)
ok_reply err_no_hash_value h = absurd (cc)

-- Only a hint whose put was delivered goes.
replay_loop_keeps :
    (kv : KvServer) (target : String) (hints : List PutArgs) (results : List ForwardPutResult)
    (x : PutArgs)
    → IsIn x (hints_for kv target)
    → IsIn x (hints_for (replay_loop kv target hints results) target)
      ⊎ ((d : PutArgs) × IsDelivered d hints results × IsSamePut x d)
unfolding replay_loop
replay_loop_keeps kv target [] results x i = inl i
replay_loop_keeps kv target (hint ∷ hints) [] x i = inl i
replay_loop_keeps kv target (hint ∷ hints) (res ∷ results) x i =
    elim (Bool-cases (res.is_ok && is_ok_err res.err)) [
      | inl e ↦ elim (remove_hint_keeps kv target hint x i) [
        | inr m ↦ inr (
          hint,
          inl (refl, ground (arith, e), ok_reply res.err (ground (arith, e))),
          matches-IsSamePut x hint m,
        )
        | inl kept ↦
            elim (replay_loop_keeps (remove_hint kv target hint) target hints results x kept) [
              | inl i' ↦ inl (rw e i')
              | inr (d, sent, same) ↦ inr (d, inr sent, same)
            ]
      ]
      | inr e ↦ elim (replay_loop_keeps kv target hints results x i) [
        | inl i' ↦ inl (rw e i')
        | inr (d, sent, same) ↦ inr (d, inr sent, same)
      ]
    ]

-- A replay drops the hints that the target has replied OK to: a hint that is gone is of a put
-- (the same key, value and contexts) that was sent and replied OK, exactly as many hints are
-- gone as sent puts were replied OK, the hints for other servers are what they were, and while
-- the target is not alive nothing changes.
pub replay_hints_lem :
    (kv : KvServer) (target : String) (results : List ForwardPutResult)
    → ((x : PutArgs)
        → IsIn x (hints_for kv target)
        → IsIn x (hints_for (replay_hints kv target results) target)
          ⊎ ((d : PutArgs) × IsDelivered d (get_hints kv target) results × IsSamePut x d))
      × (length (hints_for kv target)
          ≡ length (hints_for (replay_hints kv target results) target)
            + (if is_alive kv target then delivered (get_hints kv target) results else 0))
      × ((other : String)
          → target ≢ other
          → hints_for (replay_hints kv target results) other ≡ hints_for kv other)
      × (is_alive kv target ≡ false → replay_hints kv target results ≡ kv)
unfolding get_hints
replay_hints_lem kv target results = elim (Bool-cases (is_alive kv target)) [
  | inl e ↦
      let sent = get_hints kv target in
      let k : replay_hints kv target results ≡ replay_loop kv target sent results =
        unfold replay_hints in rw e in
      (
        λ x i. rw k (replay_loop_keeps kv target sent results x i),
        rw (k, e)
            (replay_loop_exact kv target sent results
              (λ x. omega (arith, alike-copy (hints_for kv target) x))),
        λ other ne. rw k (replay_loop_ne kv target sent results other ne),
        λ down. let c : true ≡ false = rw e at down in absurd (cc),
      )
  | inr e ↦
      let k : replay_hints kv target results ≡ kv = unfold replay_hints in rw e in
      (λ x i. rw k (inl i), rw (k, e) (omega arith), λ other ne. rw k, λ _. k)
]
