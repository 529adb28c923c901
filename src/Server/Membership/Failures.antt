-- ===== src/Server/Membership/Failures.antt =====
-- The failure detector: `detectMemberFailures` of src/kvsrv/membership.go.
use dynamo_kvsrv_pbs.Prelude.{
  ℕ, ◌+◌, ◌≡◌, ◌∙◌, refl, ap, String, Bool, true, false, not, ◌&&◌, some, [], ◌∷◌, arith, leb, ◌==◌,
  string_eq, if◌then◌else◌, Bool-cases, Option-cases, inl, inr, contains, IsDistinct,
}
use mathlib.Core.Path.{subst, ap₂}
use mathlib.Core.Option
use dynamo_kvsrv_pbs.GoMap.{GoMap, keys, get, get_or, put, get-put}
use dynamo_kvsrv_pbs.Rpc.MemberInfo
use dynamo_kvsrv_pbs.Rpc.MemberInfo.{MemberInfo, NodeStatus, alive, suspect, dead, is_status}
use dynamo_kvsrv_pbs.Server.{KvServer}
use dynamo_kvsrv_pbs.Server.Membership.{
  zero_member, update_member_info, judge, detect_member, detect_loop, detect_member_failures,
}
use dynamo_kvsrv_pbs.Server.Membership.Gossip.{entry, entry-update_self}
use dynamo_kvsrv_pbs.Server.Membership.Sync.{IsTable}

-- The status of a member that was last heard of at `t`.
abbrev pub judged : ℕ → ℕ → ℕ → ℕ → NodeStatus → NodeStatus
judged cleanup failure now t s =
    if leb (t + cleanup) now
    then dead
    else if leb (t + failure) now && is_status s alive
    then suspect
    else s

-- What the detector reads of one member and of its settings.
record Same (kv kv' : KvServer) (id : String) : Type 0 where
  entries : entry kv' id ≡ entry kv id
  times : get kv'.member_last_updated id ≡ get kv.member_last_updated id
  cleanup : kv'.cleanup_timeout ≡ kv.cleanup_timeout
  failure : kv'.failure_timeout ≡ kv.failure_timeout
  own : kv'.id ≡ kv.id

update-Same :
    (kv : KvServer) (now : ℕ) (s : String) (h : ℕ) (st : NodeStatus) (id : String)
    → (s == id) ≡ false
    → Same kv (update_member_info kv now s h st) id
unfolding update_member_info
update-Same kv now s h st id i = record {
  entries = rw (get-put, i);
  times = rw (get-put, i);
  cleanup = refl;
  failure = refl;
  own = refl;
}

Same-refl : (kv : KvServer) (id : String) → Same kv kv id
Same-refl kv id = record {
  entries = refl;
  times = refl;
  cleanup = refl;
  failure = refl;
  own = refl;
}

Same-trans : (a b c : KvServer) (id : String) → Same a b id → Same b c id → Same a c id
Same-trans a b c id p q = record {
  entries = q.entries ∙ p.entries;
  times = q.times ∙ p.times;
  cleanup = q.cleanup ∙ p.cleanup;
  failure = q.failure ∙ p.failure;
  own = q.own ∙ p.own;
}

-- What holds of both branches holds of the test.
if_both : (P : KvServer → Type 0) (b : Bool) (x y : KvServer) → P x → P y → P (if b then x else y)
if_both P true x y p q = p
if_both P false x y p q = q

judge-Same :
    (kv : KvServer) (now : ℕ) (s : String) (m : MemberInfo) (t : ℕ) (id : String)
    → (s == id) ≡ false
    → Same kv (judge kv now s m t) id
unfolding judge
judge-Same kv now s m t id i =
    let P : KvServer → Type 0 = λ z. Same kv z id in
    let k = update-Same kv now s m.heartbeat dead id i in
    let j = update-Same kv now s m.heartbeat suspect id i in
    let r = Same-refl kv id in
    let worse = update_member_info kv now s m.heartbeat dead in
    let bad = update_member_info kv now s m.heartbeat suspect in
    let to_dead = if not (is_status m.status dead) then worse else kv in
    let to_suspect = if is_status m.status alive then bad else kv in
    if_both P (leb (t + kv.cleanup_timeout) now) to_dead
      (if leb (t + kv.failure_timeout) now then to_suspect else kv)
      (if_both P (not (is_status m.status dead)) worse kv k r)
      (if_both P (leb (t + kv.failure_timeout) now) to_suspect kv
        (if_both P (is_status m.status alive) bad kv j r) r)

detect_member-Same :
    (now : ℕ) (s : String) (m : MemberInfo) (kv : KvServer) (id : String)
    → (s == id) ≡ false
    → Same kv (detect_member now s m kv) id
unfolding detect_member
detect_member-Same now s m kv id i = elim (Bool-cases (s == kv.id)) [
  | inl e ↦ rw e (Same-refl kv id)
  | inr e ↦ elim (Option-cases (get kv.member_last_updated s)) [
    | inl n ↦
        let kv' : KvServer = record kv { member_last_updated = put kv.member_last_updated s now } in
        let p : Same kv kv' id = record {
          entries = refl;
          times = rw (get-put, i);
          cleanup = refl;
          failure = refl;
          own = refl;
        } in
        rw (e, n) (Same-trans kv kv' (judge kv' now s m now) id p (judge-Same kv' now s m now id i))
    | inr (t, n) ↦ rw (e, n) (judge-Same kv now s m t id i)
  ]
]

detect_loop-Same :
    (now : ℕ) (members : GoMap String MemberInfo) (kv : KvServer) (id : String)
    → contains (keys members) id ≡ false
    → Same kv (detect_loop now members kv) id
unfolding detect_loop contains
detect_loop-Same now [] kv id c = Same-refl kv id
detect_loop-Same now ((s, m) ∷ members) kv id c =
    let kv' = detect_member now s m kv in
    Same-trans kv kv' (detect_loop now members kv') id
      (detect_member-Same now s m kv id (ground (arith, c)))
      (detect_loop-Same now members kv' id (ground (arith, c)))

is_status-eq : (s t : NodeStatus) → is_status s t ≡ true → s ≡ t
is_status-eq alive alive e = refl
is_status-eq suspect suspect e = refl
is_status-eq dead dead e = refl
is_status-eq alive suspect e = absurd (cc)
is_status-eq alive dead e = absurd (cc)
is_status-eq suspect alive e = absurd (cc)
is_status-eq suspect dead e = absurd (cc)
is_status-eq dead alive e = absurd (cc)
is_status-eq dead suspect e = absurd (cc)

update_self :
    (kv : KvServer) (now : ℕ) (s : String) (m : MemberInfo) (st : NodeStatus)
    → entry kv s ≡ some m
    → entry (update_member_info kv now s m.heartbeat st) s ≡ some (record m { status = st })
unfolding get_or MemberInfo.update
update_self kv now s m st e =
    entry-update_self kv now s m.heartbeat st
    ∙ ap (λ z. some (MemberInfo.update (Option.get_or z zero_member) m.heartbeat st)) e

judge_self :
    (kv : KvServer) (now : ℕ) (s : String) (m : MemberInfo) (t : ℕ)
    → entry kv s ≡ some m
    → entry (judge kv now s m t) s
      ≡ some (record m { status = judged kv.cleanup_timeout kv.failure_timeout now t m.status })
unfolding judge
judge_self kv now s m t e = elim (Bool-cases (leb (t + kv.cleanup_timeout) now)) [
  | inl c ↦ elim (Bool-cases (is_status m.status dead)) [
    | inl d ↦
        rw (c, d) (e ∙ ap (λ z. some (record m { status = z })) (is_status-eq m.status dead d))
    | inr d ↦ rw (c, d) (update_self kv now s m dead e)
  ]
  | inr c ↦ elim (Bool-cases (leb (t + kv.failure_timeout) now)) [
    | inl f ↦ elim (Bool-cases (is_status m.status alive)) [
      | inl a ↦ rw (c, f, a) (update_self kv now s m suspect e)
      | inr a ↦ rw (c, f, a) e
    ]
    | inr f ↦ rw (c, f) e
  ]
]

detect_member_self :
    (now : ℕ) (s : String) (m : MemberInfo) (kv : KvServer) (t : ℕ)
    → entry kv s ≡ some m
    → get kv.member_last_updated s ≡ some t
    → (s == kv.id) ≡ false
    → entry (detect_member now s m kv) s
      ≡ some (record m { status = judged kv.cleanup_timeout kv.failure_timeout now t m.status })
unfolding detect_member
detect_member_self now s m kv t e l i = rw (i, l) (judge_self kv now s m t e)

some_injective : (n m : MemberInfo) → some n ≡ some m → n ≡ m
some_injective n m k = ground (arith, k)

detect_loop_self :
    (now : ℕ) (members : GoMap String MemberInfo) (kv : KvServer) (id : String) (m : MemberInfo)
    (t : ℕ)
    → IsDistinct (keys members)
    → get members id ≡ some m
    → entry kv id ≡ some m
    → get kv.member_last_updated id ≡ some t
    → (id == kv.id) ≡ false
    → entry (detect_loop now members kv) id
      ≡ some (record m { status = judged kv.cleanup_timeout kv.failure_timeout now t m.status })
unfolding detect_loop get
detect_loop_self now [] kv id m t d h e l i = absurd (ground (arith, h))
detect_loop_self now ((s, n) ∷ members) kv id m t d h e l i = elim (Bool-cases (s == id)) [
  | inl j ↦
      let own : s ≡ id = (string_eq.beq_iff s id).0 j in
      let k : some n ≡ some m = rw j at h in
      let q : n ≡ m = some_injective n m k in
      let kv' = detect_member now s n kv in
      let out : contains (keys members) id ≡ false =
        subst (λ x. contains (keys members) x ≡ false) own d.0 in
      let f = detect_loop-Same now members kv' id out in
      f.entries
      ∙ ap₂ (λ x y. entry (detect_member now x y kv) id) own q
      ∙ detect_member_self now id m kv t e l i
  | inr j ↦
      let f = detect_member-Same now s n kv id j in
      let kv' = detect_member now s n kv in
      let r =
        detect_loop_self now members kv' id m t d.1 (rw j at h) (f.entries ∙ e) (f.times ∙ l)
          (rw f.own i) in
      r ∙ ap₂ (λ x y. some (record m { status = judged x y now t m.status })) f.cleanup f.failure
]

-- What the failure detector makes of another member that it has a time for, in a member map that
-- holds each server once and under its own name: dead from the cleanup timeout on, suspect from
-- the failure timeout on if it was alive, and else as it was; its heartbeat stays.
pub detect_member_failures_lem :
    (now : ℕ) (kv : KvServer) (id : String) (m : MemberInfo) (t : ℕ)
    → IsTable kv
    → entry kv id ≡ some m
    → get kv.member_last_updated id ≡ some t
    → (id == kv.id) ≡ false
    → entry (detect_member_failures now kv) id
      ≡ some (record m { status = judged kv.cleanup_timeout kv.failure_timeout now t m.status })
unfolding detect_member_failures
detect_member_failures_lem now kv id m t w e l i =
    detect_loop_self now kv.members kv id m t w.distinct e e l i
