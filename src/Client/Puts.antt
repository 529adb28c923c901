-- ===== src/Client/Puts.antt =====
-- What the clerk's replies say of a put: the retry loop of `CoordPut` in src/kvsrv/client.go.
use dynamo_kvsrv_pbs.Prelude.{
  ℕ, zero, suc, ◌+◌, ◌≤◌, ◌<◌, ◌≡◌, ◌≢◌, ◌∙◌, refl, sym, Bool, true, false, Option, none, some,
  arith, if◌then◌else◌, Bool-cases, inl, inr, eqb, eqb_iff,
}
use mathlib.Core.Path.{subst}
use dynamo_kvsrv_pbs.Rpc.Messages.{
  Err, no_err, ok, err_rpc_failure, err_no_key, err_version, err_maybe, err_not_coordinator,
  err_read_quorum_not_met, err_write_quorum_not_met, err_no_hash_value,
}
use dynamo_kvsrv_pbs.Client.{max_retry, coord_put_loop, coord_put}

-- The attempts from `first` on and before `last` were answered by a server that is no coordinator.
abbrev pub AllTurnedDown : (ℕ → Option Err) → ℕ → ℕ → Type 0
AllTurnedDown call first last = (i : ℕ) → first ≤ i → i < last → call i ≡ some err_not_coordinator

-- How the loop goes on after one attempt.
data Attempt (call : ℕ → Option Err) (left retry : ℕ) (answered lost : Bool) (r : Err)
    : Type 0 where
  failed :
      call retry ≡ none
      → r ≡ coord_put_loop call left (retry + 1) false true
      → Attempt call left retry answered lost r
  turned_down :
      call retry ≡ some err_not_coordinator
      → r ≡ coord_put_loop call left (retry + 1) true lost
      → Attempt call left retry answered lost r
  conflict :
      call retry ≡ some err_version
      → r ≡ (if lost then err_maybe else err_version)
      → Attempt call left retry answered lost r
  settled :
      (e : Err)
      → call retry ≡ some e
      → e ≢ err_version
      → r ≡ e
      → Attempt call left retry answered lost r

module _ (call : ℕ → Option Err) where
  attempt :
      (left retry : ℕ) (answered lost : Bool) (x : Option Err)
      → call retry ≡ x
      → Attempt call left retry answered lost (coord_put_loop call (suc left) retry answered lost)
  unfolding coord_put_loop
  attempt left retry answered lost none e = failed e (rw (e, coord_put_loop))
  attempt left retry answered lost (some err_not_coordinator) e =
      turned_down e (rw (e, coord_put_loop))
  attempt left retry answered lost (some err_version) e = conflict e (rw (e, coord_put_loop))
  attempt left retry answered lost (some no_err) e =
      settled no_err e (λ p. absurd (cc)) (rw (e, coord_put_loop))
  attempt left retry answered lost (some ok) e =
      settled ok e (λ p. absurd (cc)) (rw (e, coord_put_loop))
  attempt left retry answered lost (some err_rpc_failure) e =
      settled err_rpc_failure e (λ p. absurd (cc)) (rw (e, coord_put_loop))
  attempt left retry answered lost (some err_no_key) e =
      settled err_no_key e (λ p. absurd (cc)) (rw (e, coord_put_loop))
  attempt left retry answered lost (some err_maybe) e =
      settled err_maybe e (λ p. absurd (cc)) (rw (e, coord_put_loop))
  attempt left retry answered lost (some err_read_quorum_not_met) e =
      settled err_read_quorum_not_met e (λ p. absurd (cc)) (rw (e, coord_put_loop))
  attempt left retry answered lost (some err_write_quorum_not_met) e =
      settled err_write_quorum_not_met e (λ p. absurd (cc)) (rw (e, coord_put_loop))
  attempt left retry answered lost (some err_no_hash_value) e =
      settled err_no_hash_value e (λ p. absurd (cc)) (rw (e, coord_put_loop))

  -- After a failed call the loop does not report a conflict.
  lost_put :
      (left retry : ℕ) (answered : Bool)
      → coord_put_loop call left retry answered true ≢ err_version
  unfolding coord_put_loop
  lost_put zero retry true h = absurd (cc)
  lost_put zero retry false h = absurd (cc)
  lost_put (suc left) retry answered h = elim (attempt left retry answered true (call retry) refl) [
    | failed e p ↦ lost_put left (retry + 1) false (sym p ∙ h)
    | turned_down e p ↦ lost_put left (retry + 1) true (sym p ∙ h)
    | conflict e p ↦ let k : err_maybe ≡ err_version = sym p ∙ h in absurd (cc)
    | settled x e n p ↦ n (sym p ∙ h)
  ]

  AllTurnedDown-step :
      (first last : ℕ)
      → call first ≡ some err_not_coordinator
      → AllTurnedDown call (first + 1) last
      → AllTurnedDown call first last
  AllTurnedDown-step first last e h i lo hi = elim (Bool-cases (eqb first i)) [
    | inl same ↦ subst (λ x. call x ≡ some err_not_coordinator) ((eqb_iff first i).0 same) e
    | inr other ↦ h i (ground (arith, lo, other)) hi
  ]

  conflict_found :
      (left retry : ℕ) (answered : Bool)
      → coord_put_loop call left retry answered false ≡ err_version
      → (j : ℕ) × (j < retry + left) × (call j ≡ some err_version) × AllTurnedDown call retry j
  unfolding coord_put_loop
  conflict_found zero retry true h = absurd (cc)
  conflict_found zero retry false h = absurd (cc)
  conflict_found (suc left) retry answered h =
      elim (attempt left retry answered false (call retry) refl) [
        | failed e p ↦ absurd (lost_put left (retry + 1) false (sym p ∙ h))
        | turned_down e p ↦
            let (j, lt, found, before) = conflict_found left (retry + 1) true (sym p ∙ h) in
            (j, omega (arith, lt), found, AllTurnedDown-step retry j e before)
        | conflict e p ↦ (retry, omega arith, e, λ i lo hi. absurd (omega (arith, lo, hi)))
        | settled x e n p ↦ absurd (n (sym p ∙ h))
      ]

-- The clerk reports ErrVersion only if a coordinator has refused the put with it, and every
-- attempt before that one was turned down by a server that is not the coordinator: none was lost
-- on the network.
pub coord_put_conflict :
    (call : ℕ → Option Err)
    → coord_put call ≡ err_version
    → (j : ℕ) × (j < max_retry) × (call j ≡ some err_version) × AllTurnedDown call 0 j
unfolding coord_put
coord_put_conflict call h = conflict_found call 3 0 false h
