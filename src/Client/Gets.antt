-- ===== src/Client/Gets.antt =====
-- What the clerk's replies say of a read: the retry loop of `CoordGet` in src/kvsrv/client.go.
use dynamo_kvsrv_pbs.Prelude.{
  ℕ, zero, suc, ◌+◌, ◌≤◌, ◌<◌, ◌≡◌, ◌≢◌, ◌↔◌, ◌⊎◌, ◌∙◌, refl, sym, ap, Bool, true, false, Option,
  none, some, List, [], ◌∷◌, arith, Bool-cases, inl, inr, eqb, eqb_iff,
}
use mathlib.Core.Path.{subst}
use dynamo_kvsrv_pbs.Rpc.Object.{Object}
use dynamo_kvsrv_pbs.Rpc.Messages.{
  Err, no_err, ok, err_rpc_failure, err_no_key, err_version, err_maybe, err_not_coordinator,
  GetReply, err_read_quorum_not_met, err_write_quorum_not_met, err_no_hash_value,
}
use dynamo_kvsrv_pbs.Client.{is_turned_down, max_retry, coord_get_loop, coord_get}

-- An attempt that failed on the network or reached a server that is no coordinator.
abbrev pub IsLost : Option GetReply → Type 0
IsLost x = (x ≡ none) ⊎ ((r : GetReply) × (x ≡ some r) × (r.err ≡ err_not_coordinator))

-- A coordinator's reply that brings no objects, whatever its error.
abbrev pub IsWithoutObjects : Option GetReply → Type 0
IsWithoutObjects x =
    (r : GetReply) × (x ≡ some r) × (r.err ≢ err_not_coordinator) × (r.objects ≡ [])

turned_down_iff : (e : Err) → (is_turned_down e ≡ true) ↔ (e ≡ err_not_coordinator)
turned_down_iff no_err = (λ h. absurd (cc), λ h. absurd (cc))
turned_down_iff ok = (λ h. absurd (cc), λ h. absurd (cc))
turned_down_iff err_rpc_failure = (λ h. absurd (cc), λ h. absurd (cc))
turned_down_iff err_no_key = (λ h. absurd (cc), λ h. absurd (cc))
turned_down_iff err_version = (λ h. absurd (cc), λ h. absurd (cc))
turned_down_iff err_maybe = (λ h. absurd (cc), λ h. absurd (cc))
turned_down_iff err_not_coordinator = (λ h. refl, λ h. refl)
turned_down_iff err_read_quorum_not_met = (λ h. absurd (cc), λ h. absurd (cc))
turned_down_iff err_write_quorum_not_met = (λ h. absurd (cc), λ h. absurd (cc))
turned_down_iff err_no_hash_value = (λ h. absurd (cc), λ h. absurd (cc))

module _ (call : ℕ → Option GetReply) where
  -- How the loop goes on after one attempt.
  data Attempt (left retry : ℕ) (r : Option (List Object) × Err) : Type 0 where
    lost :
        (answered : Bool)
        → IsLost (call retry)
        → r ≡ coord_get_loop call left (retry + 1) answered
        → Attempt left retry r
    without_objects : IsWithoutObjects (call retry) → r ≡ (none, err_no_key) → Attempt left retry r
    found :
        (reply : GetReply) (o : Object) (objects : List Object)
        → call retry ≡ some reply
        → reply.err ≢ err_not_coordinator
        → reply.objects ≡ o ∷ objects
        → r ≡ (some (o ∷ objects), ok)
        → Attempt left retry r

  answered-Attempt :
      (left retry : ℕ) (answered : Bool) (reply : GetReply) (objects : List Object)
      → call retry ≡ some reply
      → is_turned_down reply.err ≡ false
      → reply.objects ≡ objects
      → Attempt left retry (coord_get_loop call (suc left) retry answered)
  unfolding coord_get_loop
  answered-Attempt left retry answered reply [] e t n =
      let other : reply.err ≢ err_not_coordinator =
        λ same. (let k = (turned_down_iff reply.err).1 same in absurd (ground (arith, k, t))) in
      without_objects (reply, e, other, n) (rw (e, t, n, coord_get_loop))
  answered-Attempt left retry answered reply (o ∷ objects) e t n =
      let other : reply.err ≢ err_not_coordinator =
        λ same. (let k = (turned_down_iff reply.err).1 same in absurd (ground (arith, k, t))) in
      found reply o objects e other n (rw (e, t, n, coord_get_loop))

  attempt :
      (left retry : ℕ) (answered : Bool) (x : Option GetReply)
      → call retry ≡ x
      → Attempt left retry (coord_get_loop call (suc left) retry answered)
  unfolding coord_get_loop
  attempt left retry answered none e = lost false (inl e) (rw (e, coord_get_loop))
  attempt left retry answered (some reply) e = elim (Bool-cases (is_turned_down reply.err)) [
    | inl t ↦
        lost true (inr (reply, e, (turned_down_iff reply.err).0 t)) (rw (e, t, coord_get_loop))
    | inr t ↦ answered-Attempt left retry answered reply reply.objects e t refl
  ]

  -- The first attempt from `retry` on that was not lost came without objects.
  abbrev FirstWithoutObjects : ℕ → ℕ → Type 0
  FirstWithoutObjects retry last =
      (j : ℕ) × (retry ≤ j)
      × (j < last)
      × IsWithoutObjects (call j)
      × ((i : ℕ) → retry ≤ i → i < j → IsLost (call i))

  IsLost-from :
      (retry j : ℕ)
      → IsLost (call retry)
      → ((i : ℕ) → retry + 1 ≤ i → i < j → IsLost (call i))
      → (i : ℕ) → retry ≤ i
      → i < j
      → IsLost (call i)
  IsLost-from retry j l h i lo hi = elim (Bool-cases (eqb retry i)) [
    | inl same ↦ subst (λ x. IsLost (call x)) ((eqb_iff retry i).0 same) l
    | inr other ↦ h i (ground (arith, lo, other)) hi
  ]

  no_key_found :
      (left retry : ℕ) (answered : Bool)
      → (coord_get_loop call left retry answered).1 ≡ err_no_key
      → FirstWithoutObjects retry (retry + left)
  unfolding coord_get_loop
  no_key_found zero retry true h = absurd (cc)
  no_key_found zero retry false h = absurd (cc)
  no_key_found (suc left) retry answered h = elim (attempt left retry answered (call retry) refl) [
    | lost b l p ↦
        let (j, lo, hi, empty, before) =
          no_key_found left (retry + 1) b (sym (ap (λ r. r.1) p) ∙ h) in
        (j, omega (arith, lo), omega (arith, hi), empty, IsLost-from retry j l before)
    | without_objects w p ↦
        (retry, omega arith, omega arith, w, λ i lo hi. absurd (omega (arith, lo, hi)))
    | found reply o objects e t n p ↦
        let k : ok ≡ err_no_key = sym (ap (λ r. r.1) p) ∙ h in absurd (cc)
  ]

  lost_not_answered : (x : Option GetReply) → IsLost x → ¬ IsWithoutObjects x
  lost_not_answered x (inl e) (r, k, n, m) = let c : none ≡ some r = sym e ∙ k in absurd (cc)
  lost_not_answered x (inr (s, e, t)) (r, k, n, m) =
      let c : some s ≡ some r = sym e ∙ k in
      let same : s ≡ r = cc c in n (sym (ap (λ q. q.err) same) ∙ t)

  no_key_reported :
      (left retry : ℕ) (answered : Bool)
      → FirstWithoutObjects retry (retry + left)
      → (coord_get_loop call left retry answered).1 ≡ err_no_key
  no_key_reported zero retry answered (j, lo, hi, w, before) = absurd (omega (arith, lo, hi))
  no_key_reported (suc left) retry answered (j, lo, hi, w, before) =
      elim (attempt left retry answered (call retry) refl) [
        | without_objects w' p ↦ ap (λ r. r.1) p
        | lost b l p ↦ elim (Bool-cases (eqb retry j)) [
          | inl same ↦
              let k = (eqb_iff retry j).0 same in
              absurd (lost_not_answered (call j) (subst (λ x. IsLost (call x)) k l) w)
          | inr other ↦
              ap (λ r. r.1) p
              ∙ no_key_reported left (retry + 1) b (
                j,
                ground (arith, lo, other),
                omega (arith, hi),
                w,
                λ i lo' hi'. before i (omega (arith, lo')) hi',
              )
        ]
        | found reply o objects e t n p ↦ elim (Bool-cases (eqb retry j)) [
          | inl same ↦
              let (r, k, m, none_there) =
                subst (λ x. IsWithoutObjects (call x)) (sym ((eqb_iff retry j).0 same)) w in
              let c : some reply ≡ some r = sym e ∙ k in
              let alike : reply ≡ r = cc c in
              let d : o ∷ objects ≡ [] = sym n ∙ ap (λ q. q.objects) alike ∙ none_there in
              absurd (cc)
          | inr other ↦
              let l = before retry (omega arith) (ground (arith, lo, other)) in
              absurd (elim l [
                | inl x ↦ let c : some reply ≡ none = sym e ∙ x in absurd (cc)
                | inr (s, x, y) ↦
                    let c : some reply ≡ some s = sym e ∙ x in
                    let alike : reply ≡ s = cc c in t (ap (λ q. q.err) alike ∙ y)
              ])
        ]
      ]

-- The clerk reports ErrNoKey for a read exactly if the first attempt that neither failed on the
-- network nor was turned down with ErrNotCoordinator came without objects, whatever the error of
-- that reply is.
pub coord_get_no_key :
    (call : ℕ → Option GetReply)
    → ((coord_get call).1 ≡ err_no_key) ↔ (
        (j : ℕ) × (0 ≤ j)
        × (j < max_retry)
        × IsWithoutObjects (call j)
        × ((i : ℕ) → 0 ≤ i → i < j → IsLost (call i)))
unfolding coord_get
coord_get_no_key call =
    (no_key_found call max_retry 0 false, no_key_reported call max_retry 0 false)
