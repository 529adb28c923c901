-- ===== src/Server/Coordinator/Reads.antt =====
-- What `CoordGet` of src/kvsrv/server.go promises of its reply.
use dynamo_kvsrv_pbs.Prelude.{
  All-mono, ℕ, ◌≤◌, ◌<◌, ◌≡◌, ◌∙◌, ◌⊎◌, refl, sym, String, not, none, some, List, [], ◌++◌, arith,
  length, ltb, if◌then◌else◌, Bool-cases, Option-cases, inl, inr, ltb→lt, All,
}
use mathlib.Core.Path.{subst}
use dynamo_kvsrv_pbs.Rpc.Object.{Object, copy_objects}
use dynamo_kvsrv_pbs.Rpc.Object.Copies.{seen_in-copy_objects}
use dynamo_kvsrv_pbs.Rpc.Messages.{
  ok, err_not_coordinator, err_read_quorum_not_met, GetReply, ForwardGetResult,
}
use dynamo_kvsrv_pbs.Ring
use dynamo_kvsrv_pbs.Server.{KvServer}
use dynamo_kvsrv_pbs.Server.Membership.{is_in_preference_list, filter_dead_members}
use dynamo_kvsrv_pbs.Server.ReadRepair.Convergence.{Includes}
use dynamo_kvsrv_pbs.Server.ReadRepair.{has_objects}
use dynamo_kvsrv_pbs.Server.Store.Siblings.{IsWell, copy_objects-IsWell, nil-IsWell}
use dynamo_kvsrv_pbs.Server.Coordinator.ReadLoop.{
  has_no_key, count_if, Going, Ended, collect_reads-Ended,
}
use dynamo_kvsrv_pbs.Server.Coordinator.{
  ReadOutcome, read_ok, read_no_key, read_failed, collect_reads, finish_read, coord_get, get_reply,
}

module _ (kv : KvServer) (job_id : ℕ) (key : String) (now done : ℕ)
    (arrivals : List ForwardGetResult) where
  -- The three ways in which `CoordGet` returns.
  pub data Returned (r : KvServer × GetReply) : Type 0 where
    not_coordinator : r ≡ (kv, get_reply [] err_not_coordinator) → Returned r
    too_few_alive :
        (pref : List String)
        → Ring.get_preference_list kv.ring key ≡ some pref
        → length (filter_dead_members kv pref) < kv.read_quorum
        → r ≡ (kv, get_reply [] err_read_quorum_not_met)
        → Returned r
    collected :
        r ≡ finish_read kv job_id key now done (collect_reads kv.read_quorum [] 0 0 [] arrivals)
        → Returned r

  pub coord_get-Returned :
      (r : KvServer × GetReply) → coord_get kv job_id key now done arrivals ≡ some r → Returned r
  unfolding coord_get
  coord_get-Returned r h = elim (Option-cases (Ring.get_preference_list kv.ring key)) [
    | inl e ↦ let k : none ≡ some r = rw (e, coord_get) at h in absurd (cc)
    | inr (pref, e) ↦ by_tests pref e (rw (e, coord_get) at h)
  ]
    where
      by_tests :
          (pref : List String)
          → Ring.get_preference_list kv.ring key ≡ some pref
          → (if not (is_in_preference_list kv pref)
              then some (kv, get_reply [] err_not_coordinator)
              else if ltb (length (filter_dead_members kv pref)) kv.read_quorum
              then some (kv, get_reply [] err_read_quorum_not_met)
              else some (
                  finish_read kv job_id key now done
                    (collect_reads kv.read_quorum [] 0 0 [] arrivals)))
            ≡ some r
          → Returned r
      by_tests pref list k = elim (Bool-cases (is_in_preference_list kv pref)) [
        | inr out ↦ not_coordinator (ground arith)
        | inl in_list ↦
            elim (Bool-cases (ltb (length (filter_dead_members kv pref)) kv.read_quorum)) [
              | inl few ↦ too_few_alive pref list (ltb→lt _ _ few) (ground arith)
              | inr enough ↦ collected (ground arith)
            ]
      ]

-- A reply that the replies of a read quorum vouch for: they are the first of the arrivals, at least
-- `quorum` of them came with objects, the objects of the reply are pairwise concurrent and in the
-- order of their timestamps, and they include every version of those replies.
pub record IsVouched (quorum : ℕ) (arrivals : List ForwardGetResult) (reply : GetReply)
    : Type 0 where
  pub results : List ForwardGetResult
  pub rest : List ForwardGetResult
  pub first : results ++ rest ≡ arrivals
  pub enough : quorum ≤ count_if has_objects results
  pub well : IsWell reply.objects
  pub included : All (Includes reply.objects) results

-- Neither `quorum` replies with objects nor `quorum` replies without the key are there.
abbrev pub HasNoQuorum : ℕ → List ForwardGetResult → Type 0
HasNoQuorum quorum arrivals =
    (quorum ≤ count_if has_objects arrivals → ⊥) × (quorum ≤ count_if has_no_key arrivals → ⊥)

Includes-copy :
    (siblings : List Object) (res : ForwardGetResult)
    → Includes siblings res
    → Includes (copy_objects siblings) res
Includes-copy siblings res h e =
    All-mono (λ o p. seen_in-copy_objects o siblings ∙ p) res.reply.objects (h e)

Going-start : Going [] 0 0 []
Going-start = record { oks = refl; misses = refl; well = nil-IsWell; included = tt }

module _ (kv : KvServer) (job_id : ℕ) (key : String) (now done : ℕ)
    (arrivals : List ForwardGetResult) where
  finish_read_ok :
      (o : ReadOutcome)
      → Ended kv.read_quorum arrivals o
      → (finish_read kv job_id key now done o).1.err ≡ ok
      → IsVouched kv.read_quorum arrivals (finish_read kv job_id key now done o).1
  unfolding finish_read
  finish_read_ok (read_ok siblings results rest) h e = record {
    results = results;
    rest = rest;
    first = h.0;
    enough = h.1;
    well = copy_objects-IsWell siblings h.2;
    included = All-mono (λ r. Includes-copy siblings r) results h.3;
  }
  finish_read_ok (read_no_key results rest) h e = absurd (cc)
  finish_read_ok read_failed h e = absurd (cc)

  finish_read_failed :
      (o : ReadOutcome)
      → Ended kv.read_quorum arrivals o
      → (finish_read kv job_id key now done o).1.err ≡ err_read_quorum_not_met
      → HasNoQuorum kv.read_quorum arrivals
  unfolding finish_read
  finish_read_failed (read_ok siblings results rest) h e = absurd (cc)
  finish_read_failed (read_no_key results rest) h e = absurd (cc)
  finish_read_failed read_failed h e = h

  collected-Ended :
      0 < kv.read_quorum
      → Ended kv.read_quorum arrivals (collect_reads kv.read_quorum [] 0 0 [] arrivals)
  collected-Ended q = collect_reads-Ended kv.read_quorum [] 0 0 [] arrivals q q Going-start

  -- When CoordGet replies OK, with a positive read quorum, a read quorum vouches for the objects
  -- of the reply: they include every version that the replies read so far came with, and no
  -- object makes another one superfluous.
  pub coord_get_ok :
      (r : KvServer × GetReply)
      → 0 < kv.read_quorum
      → coord_get kv job_id key now done arrivals ≡ some r
      → r.1.err ≡ ok
      → IsVouched kv.read_quorum arrivals r.1
  coord_get_ok r q h e = elim (coord_get-Returned kv job_id key now done arrivals r h) [
    | not_coordinator p ↦ let k : err_not_coordinator ≡ ok = rw p at e in absurd (cc)
    | too_few_alive _ _ _ p ↦ let k : err_read_quorum_not_met ≡ ok = rw p at e in absurd (cc)
    | collected p ↦
        subst (λ (x : KvServer × GetReply). IsVouched kv.read_quorum arrivals x.1) (sym p)
          (finish_read_ok _ (collected-Ended q) (rw p at e))
  ]

  pub coord_get_failed :
      (r : KvServer × GetReply) (pref : List String)
      → 0 < kv.read_quorum
      → Ring.get_preference_list kv.ring key ≡ some pref
      → coord_get kv job_id key now done arrivals ≡ some r
      → r.1.err ≡ err_read_quorum_not_met
      → (length (filter_dead_members kv pref) < kv.read_quorum)
        ⊎ HasNoQuorum kv.read_quorum arrivals
  coord_get_failed r pref q list h e =
      elim (coord_get-Returned kv job_id key now done arrivals r h) [
        | not_coordinator p ↦
            let k : err_not_coordinator ≡ err_read_quorum_not_met = rw p at e in absurd (cc)
        | too_few_alive pref' list' few p ↦
            let same : some pref ≡ some pref' = sym list ∙ list' in
            let k : pref ≡ pref' = cc same in inl (rw k few)
        | collected p ↦ inr (finish_read_failed _ (collected-Ended q) (rw p at e))
      ]
