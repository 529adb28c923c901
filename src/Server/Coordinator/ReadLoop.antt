-- ===== src/Server/Coordinator/ReadLoop.antt =====
-- The loop of `CoordGet` of src/kvsrv/server.go: what holds while it reads replies, and when it ends.
use dynamo_kvsrv_pbs.Prelude.{
  All-mono, ℕ, ◌+◌, ◌≤◌, ◌<◌, ◌≡◌, ◌⊎◌, refl, Bool, true, false, ◌&&◌, List, [], ◌∷◌, ◌++◌, arith,
  leb, if◌then◌else◌, Bool-cases, inl, inr, leb→le, All, All-append,
}
use mathlib.Core.List.{append_assoc, append-nil}
use dynamo_kvsrv_pbs.Rpc.Object.{Object, add_new}
use dynamo_kvsrv_pbs.Rpc.Object.Seen.{seen_in-add_new_incoming}
use dynamo_kvsrv_pbs.Rpc.Messages.{Err, err_no_key, ForwardGetResult}
use dynamo_kvsrv_pbs.Server.ReadRepair.Convergence.{Includes, Includes-add_new}
use dynamo_kvsrv_pbs.Server.ReadRepair.{has_objects}
use dynamo_kvsrv_pbs.Server.Store.Siblings.{IsWell, add_new-IsWell}
use dynamo_kvsrv_pbs.Server.Coordinator.{
  ReplyKind, failed, found, missing, reply_kind, ReadOutcome, read_ok, read_no_key, read_failed,
  collect_reads,
}

abbrev pub is_no_key_err : Err → Bool
is_no_key_err e = elim e [ err_no_key ↦ true | _ ↦ false ]

abbrev pub has_no_key : ForwardGetResult → Bool
has_no_key res = res.is_ok && is_no_key_err res.reply.err

abbrev pub count_if {ℓ} : {A : Type ℓ} → (A → Bool) → List A → ℕ
count_if p [] = 0
count_if p (x ∷ xs) = (if p x then 1 else 0) + count_if p xs

pub count_if-append {ℓ} :
    {A : Type ℓ} (p : A → Bool) (xs ys : List A)
    → count_if p (xs ++ ys) ≡ count_if p xs + count_if p ys
count_if-append p [] ys = omega arith
count_if-append p (x ∷ xs) ys = omega (arith, count_if-append p xs ys)

-- What holds when the loop has read `results` and goes on.
pub record Going (results : List ForwardGetResult) (successes no_keys : ℕ) (siblings : List Object)
    : Type 0 where
  pub oks : count_if has_objects results ≡ successes
  pub misses : count_if has_no_key results ≡ no_keys
  pub well : IsWell siblings
  pub included : All (Includes siblings) results

-- What holds when the loop ends.
abbrev pub Ended : ℕ → List ForwardGetResult → ReadOutcome → Type 0
Ended quorum arrivals (read_ok siblings results rest) =
    (results ++ rest ≡ arrivals)
    × (quorum ≤ count_if has_objects results)
    × IsWell siblings
    × All (Includes siblings) results
Ended quorum arrivals (read_no_key results rest) =
    (results ++ rest ≡ arrivals) × (quorum ≤ count_if has_no_key results)
Ended quorum arrivals read_failed =
    (quorum ≤ count_if has_objects arrivals → ⊥) × (quorum ≤ count_if has_no_key arrivals → ⊥)

Ended-append :
    (quorum : ℕ) (results : List ForwardGetResult) (res : ForwardGetResult)
    (arrivals : List ForwardGetResult) (o : ReadOutcome)
    → Ended quorum ((results ++ res ∷ []) ++ arrivals) o
    → Ended quorum (results ++ res ∷ arrivals) o
Ended-append quorum results res arrivals o h = rw (append_assoc results (res ∷ []) arrivals) at h

count_next :
    (p : ForwardGetResult → Bool) (results : List ForwardGetResult) (res : ForwardGetResult)
    → count_if p (results ++ res ∷ [])
      ≡ (if p res then count_if p results + 1 else count_if p results)
count_next p results res = rw count_if-append (ground arith)

module _ (results : List ForwardGetResult) (successes no_keys : ℕ) (siblings : List Object)
    (res : ForwardGetResult) (g : Going results successes no_keys siblings) where
  Going-skip :
      has_objects res ≡ false
      → has_no_key res ≡ false
      → Going (results ++ res ∷ []) successes no_keys siblings
  Going-skip a b = record {
    oks = ground (arith, count_next has_objects results res, g.oks);
    misses = ground (arith, count_next has_no_key results res, g.misses);
    well = g.well;
    included =
        All-append (Includes siblings) results (res ∷ []) g.included
          ((λ h. let k : false ≡ true = rw a at h in absurd (cc)), tt);
  }

  Going-no_key :
      has_objects res ≡ false
      → has_no_key res ≡ true
      → Going (results ++ res ∷ []) successes (no_keys + 1) siblings
  Going-no_key a b = record {
    oks = ground (arith, count_next has_objects results res, g.oks);
    misses = ground (arith, count_next has_no_key results res, g.misses);
    well = g.well;
    included =
        All-append (Includes siblings) results (res ∷ []) g.included
          ((λ h. let k : false ≡ true = rw a at h in absurd (cc)), tt);
  }

  Going-ok :
      has_objects res ≡ true
      → has_no_key res ≡ false
      → Going (results ++ res ∷ []) (successes + 1) no_keys (add_new siblings res.reply.objects)
  Going-ok a b = record {
    oks = ground (arith, count_next has_objects results res, g.oks);
    misses = ground (arith, count_next has_no_key results res, g.misses);
    well = add_new-IsWell siblings res.reply.objects g.well;
    included =
        All-append (Includes (add_new siblings res.reply.objects)) results (res ∷ [])
          (All-mono (λ r. Includes-add_new siblings res.reply.objects r) results g.included)
          ((λ h. seen_in-add_new_incoming siblings res.reply.objects), tt);
  }

kind_objects :
    (res : ForwardGetResult)
    → (has_objects res ≡ elim (reply_kind res) [ found ↦ true | _ ↦ false ])
      × (has_no_key res ≡ elim (reply_kind res) [ missing ↦ true | _ ↦ false ])
unfolding reply_kind
kind_objects res = ground arith

Kind-cases : (k : ReplyKind) → (k ≡ failed) ⊎ (k ≡ found) ⊎ (k ≡ missing)
Kind-cases failed = inl refl
Kind-cases found = inr (inl refl)
Kind-cases missing = inr (inr refl)

-- The invariant of the loop gives what holds when it ends.
pub collect_reads-Ended :
    (quorum : ℕ) (results : List ForwardGetResult) (successes no_keys : ℕ) (siblings : List Object)
    (arrivals : List ForwardGetResult)
    → successes < quorum
    → no_keys < quorum
    → Going results successes no_keys siblings
    → Ended quorum
        (results ++ arrivals)
        (collect_reads quorum results successes no_keys siblings arrivals)
unfolding collect_reads
collect_reads-Ended quorum results successes no_keys siblings [] s n g =
    rw append-nil (λ h. omega (arith, g.oks, h), λ h. omega (arith, g.misses, h))
collect_reads-Ended quorum results successes no_keys siblings (res ∷ arrivals) s n g =
    let results' : List ForwardGetResult = results ++ res ∷ [] in
    let merged : List Object = add_new siblings res.reply.objects in
    let kinds = kind_objects res in
    let skip = collect_reads-Ended quorum results' successes no_keys siblings arrivals in
    let next = collect_reads-Ended quorum results' (successes + 1) no_keys merged arrivals in
    let miss = collect_reads-Ended quorum results' successes (no_keys + 1) siblings arrivals in
    Ended-append quorum results res arrivals _ (elim (Kind-cases (reply_kind res)) [
      | inl e ↦
          rw (e, Ended)
            (skip s n (
              Going-skip results successes no_keys siblings res g (rw e at kinds.0)
                (rw e at kinds.1)))
      | inr (inl e) ↦
          let g' =
            Going-ok results successes no_keys siblings res g (rw e at kinds.0) (rw e at kinds.1) in
          elim (Bool-cases (leb quorum (successes + 1))) [
            | inl q ↦
                rw (e, q, Ended) (refl, omega (arith, g'.oks, leb→le _ _ q), g'.well, g'.included)
            | inr q ↦ rw (e, q, Ended) (next (ground arith) n g')
          ]
      | inr (inr e) ↦
          let g' =
            Going-no_key results successes no_keys siblings res g (rw e at kinds.0)
              (rw e at kinds.1) in
          elim (Bool-cases (leb quorum (no_keys + 1))) [
            | inl q ↦ rw (e, q, Ended) (refl, omega (arith, g'.misses, leb→le _ _ q))
            | inr q ↦ rw (e, q, Ended) (miss s (ground arith) g')
          ]
    ])
