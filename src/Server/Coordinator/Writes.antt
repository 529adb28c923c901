-- ===== src/Server/Coordinator/Writes.antt =====
-- What `CoordPut` of src/kvsrv/server.go promises of its reply.
use dynamo_kvsrv_pbs.Prelude.{
  ℕ, ◌+◌, ◌<◌, ◌≡◌, ◌∙◌, refl, sym, String, Bool, true, false, List, [], ◌∷◌, arith, leb,
  if◌then◌else◌, ◌&&◌,
}
use native.Mathlib.Nat.{zero-add}
use mathlib.Core.Path.{subst}
use dynamo_kvsrv_pbs.VClock
use dynamo_kvsrv_pbs.VClock.{u64_mod, get_version, before_or_equal, after, increment}
use dynamo_kvsrv_pbs.VClock.Laws.{compare-increment, compare-copy_right, get_version-copy}
use dynamo_kvsrv_pbs.Rpc.Context
use dynamo_kvsrv_pbs.Rpc.Messages.{
  Err, no_err, ok, err_rpc_failure, err_no_key, err_version, err_maybe, err_not_coordinator,
  err_read_quorum_not_met, err_write_quorum_not_met, err_no_hash_value, PutArgs, ForwardPutResult,
}
use dynamo_kvsrv_pbs.Server.{KvServer}
use dynamo_kvsrv_pbs.Server.Store.Siblings.{base_of}
use dynamo_kvsrv_pbs.Rpc.Object.Seen.{seen_by, compare_to-flip}
use dynamo_kvsrv_pbs.Server.Coordinator.{
  put_ok, put_version, put_no_key, put_kind, put_failure, collect_writes, stamp,
}
use dynamo_kvsrv_pbs.Server.Coordinator.ReadLoop.{count_if}

-- The results of each kind: calls that were answered, by their error.
abbrev pub is_put_ok : ForwardPutResult → Bool
is_put_ok res = res.is_ok && elim res.err [ ok ↦ true | _ ↦ false ]

abbrev pub is_put_version : ForwardPutResult → Bool
is_put_version res = res.is_ok && elim res.err [ err_version ↦ true | _ ↦ false ]

abbrev pub is_put_no_key : ForwardPutResult → Bool
is_put_no_key res = res.is_ok && elim res.err [ err_no_key ↦ true | _ ↦ false ]

-- The reply by the numbers of results of each kind.
abbrev pub verdict : ℕ → ℕ → ℕ → ℕ → Err
verdict quorum oks versions no_keys =
    if leb quorum oks
    then ok
    else if leb quorum versions
    then err_version
    else if leb quorum no_keys
    then err_no_key
    else err_write_quorum_not_met

-- The same by the kind that the loop gives a result.
abbrev kind_ok : ForwardPutResult → Bool
kind_ok res = elim (put_kind res) [ put_ok ↦ true | _ ↦ false ]

abbrev kind_version : ForwardPutResult → Bool
kind_version res = elim (put_kind res) [ put_version ↦ true | _ ↦ false ]

abbrev kind_no_key : ForwardPutResult → Bool
kind_no_key res = elim (put_kind res) [ put_no_key ↦ true | _ ↦ false ]

-- The loop's kind of a result agrees with the three tests.
put_kind-tests :
    (res : ForwardPutResult) (answered : Bool) (e : Err)
    → res.is_ok ≡ answered
    → res.err ≡ e
    → (kind_ok res ≡ is_put_ok res)
      × (kind_version res ≡ is_put_version res)
      × (kind_no_key res ≡ is_put_no_key res)
unfolding put_kind
put_kind-tests res false e a h = rw (a, put_kind) (refl, refl, refl)
put_kind-tests res true ok a h = rw (a, h, put_kind) (refl, refl, refl)
put_kind-tests res true err_version a h = rw (a, h, put_kind) (refl, refl, refl)
put_kind-tests res true err_no_key a h = rw (a, h, put_kind) (refl, refl, refl)
put_kind-tests res true no_err a h = rw (a, h, put_kind) (refl, refl, refl)
put_kind-tests res true err_rpc_failure a h = rw (a, h, put_kind) (refl, refl, refl)
put_kind-tests res true err_maybe a h = rw (a, h, put_kind) (refl, refl, refl)
put_kind-tests res true err_not_coordinator a h = rw (a, h, put_kind) (refl, refl, refl)
put_kind-tests res true err_read_quorum_not_met a h = rw (a, h, put_kind) (refl, refl, refl)
put_kind-tests res true err_write_quorum_not_met a h = rw (a, h, put_kind) (refl, refl, refl)
put_kind-tests res true err_no_hash_value a h = rw (a, h, put_kind) (refl, refl, refl)

collect_writes-verdict :
    (quorum o v n : ℕ) (arrivals : List ForwardPutResult)
    → o < quorum
    → collect_writes quorum o v n arrivals
      ≡ verdict quorum
          (o + count_if kind_ok arrivals)
          (v + count_if kind_version arrivals)
          (n + count_if kind_no_key arrivals)
unfolding collect_writes put_failure
collect_writes-verdict quorum o v n [] h = ground arith
collect_writes-verdict quorum o v n (res ∷ arrivals) h = ground (
  arith,
  collect_writes-verdict quorum o v n arrivals h,
  collect_writes-verdict quorum (o + 1) v n arrivals,
  collect_writes-verdict quorum o (v + 1) n arrivals h,
  collect_writes-verdict quorum o v (n + 1) arrivals h,
)

count_if-ext :
    (p q : ForwardPutResult → Bool) (arrivals : List ForwardPutResult)
    → ((res : ForwardPutResult) → p res ≡ q res)
    → count_if p arrivals ≡ count_if q arrivals
count_if-ext p q [] h = refl
count_if-ext p q (res ∷ arrivals) h = rw (h res, count_if-ext p q arrivals h) refl

-- The reply of CoordPut to the results of its calls depends, with a positive write quorum, on
-- their numbers alone and not on the order in which they arrive: OK with a write quorum of
-- accepted puts; otherwise ErrVersion with a quorum of those, ErrNoKey with a quorum of those,
-- and else ErrWriteQuorumNotMet.
pub collect_writes_counts :
    (quorum : ℕ) (arrivals : List ForwardPutResult)
    → 0 < quorum
    → collect_writes quorum 0 0 0 arrivals
      ≡ verdict quorum
          (count_if is_put_ok arrivals)
          (count_if is_put_version arrivals)
          (count_if is_put_no_key arrivals)
collect_writes_counts quorum arrivals q =
    let e = collect_writes-verdict quorum 0 0 0 arrivals q in
    let tests = λ (res : ForwardPutResult). put_kind-tests res res.is_ok res.err refl refl in
    rw
      (
        sym (count_if-ext kind_ok is_put_ok arrivals (λ res. (tests res).0)),
        sym (count_if-ext kind_version is_put_version arrivals (λ res. (tests res).1)),
        sym (count_if-ext kind_no_key is_put_no_key arrivals (λ res. (tests res).2)),
      )
      (simp zero-add at e)

module _ (hash : String → String) (now : ℕ) (kv : KvServer) (args : PutArgs) where
  abbrev stamped : PutArgs
  stamped = stamp hash now kv args

  -- The object that `CoordPut` sends to the replicas has a clock after the one that the client sent,
  -- if the coordinator's version in that clock is not the largest uint64.
  pub stamp-after :
      get_version args.object.context.vc kv.id + 1 < u64_mod
      → Context.compare stamped.object.context args.object.context ≡ after
  unfolding stamp Context.compare Context.update
  stamp-after h =
      let vc = args.object.context.vc in
      sym (compare-copy_right (increment (VClock.copy vc) kv.id) vc)
      ∙ compare-increment (VClock.copy vc) kv.id (rw get_version-copy h)

  -- A put whose object has the context that the client has read carries a base that its object
  -- has seen once CoordPut has stamped it, if the version of the coordinator does not overflow.
  pub stamp-seen :
      args.object.context ≡ args.base_context
      → get_version args.object.context.vc kv.id + 1 < u64_mod
      → seen_by (base_of stamped) stamped.object ≡ true
  unfolding stamp
  stamp-seen e h =
      let k : Context.compare stamped.object.context args.base_context ≡ after =
        subst (λ c. Context.compare stamped.object.context c ≡ after) e (stamp-after h) in
      rw (compare_to-flip stamped.object (base_of stamped), k)
