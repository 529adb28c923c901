-- ===== src/Demo/Failures/Quiet.antt =====
-- Which servers the failure loop of src/kvsrv/pbs_demo.go leaves alone.
use dynamo_kvsrv_pbs.Prelude.{
  ℕ, zero, suc, ◌-◌, ◌≡◌, refl, ◌∙◌, ap, Bool, false, not, ◌&&◌, String, some, List, [], ◌∷◌, ◌++◌,
  length, ltb, eqb, if◌then◌else◌, contains, string_eq, ◌==◌, arith, Bool-cases, Option-cases, inl,
  inr, All, All-append,
}
use mathlib.Core.Path.{subst}
use dynamo_kvsrv_pbs.Rpc.MemberInfo.{NodeStatus, alive}
use dynamo_kvsrv_pbs.Eval.Stimulator.{take}
use dynamo_kvsrv_pbs.Demo.{PbsDemoOptions}
use dynamo_kvsrv_pbs.Demo.Failures.{
  Event, pause_gossip, mark, isolate, sleep, take_down, bring_up, sleep_for, next_victim,
  sleep_between, one_phase, two_phases, phases, single_phase, schedule,
}

-- What a server suffers from: its status in the member maps, whether it is cut off the network and
-- whether its gossip is paused.
pub record Trouble : Type 0 where
  pub status : NodeStatus
  pub isolated : Bool
  pub paused : Bool

abbrev pub no_trouble : Trouble
no_trouble = record { status = alive; isolated = false; paused = false }

abbrev pub touch : Event → String → Trouble → Trouble
touch (pause_gossip v b) id t = if v == id then record t { paused = b } else t
touch (mark v st) id t = if v == id then record t { status = st } else t
touch (isolate v b) id t = if v == id then record t { isolated = b } else t
touch (sleep d) id t = t

-- The trouble of one server after some events.
abbrev pub after_events : List Event → String → Trouble → Trouble
after_events [] id t = t
after_events (e ∷ es) id t = after_events es id (touch e id t)

pub after_events-append :
    (es fs : List Event) (id : String) (t : Trouble)
    → after_events (es ++ fs) id t ≡ after_events fs id (after_events es id t)
after_events-append [] fs id t = refl
after_events-append (e ∷ es) fs id t = after_events-append es fs id (touch e id t)

-- The event is not about the server.
abbrev pub IsQuiet : String → Event → Type 0
IsQuiet id (pause_gossip v b) = (v == id) ≡ false
IsQuiet id (mark v st) = (v == id) ≡ false
IsQuiet id (isolate v b) = (v == id) ≡ false
IsQuiet id (sleep d) = Unit

touch-IsQuiet : (e : Event) (id : String) (t : Trouble) → IsQuiet id e → touch e id t ≡ t
touch-IsQuiet (pause_gossip v b) id t q = rw q refl
touch-IsQuiet (mark v st) id t q = rw q refl
touch-IsQuiet (isolate v b) id t q = rw q refl
touch-IsQuiet (sleep d) id t q = refl

pub IsQuiet-take :
    (n : ℕ) (es : List Event) (id : String) (t : Trouble)
    → All (IsQuiet id) es
    → after_events (take n es) id t ≡ t
IsQuiet-take zero es id t q = refl
IsQuiet-take (suc n) [] id t q = refl
IsQuiet-take (suc n) (e ∷ es) id t q =
    ap (after_events (take n es) id) (touch-IsQuiet e id t q.0) ∙ IsQuiet-take n es id t q.1

-- The server is no victim.
abbrev pub IsSpared : List String → String → Type 0
IsSpared victims id = (contains victims id && not (id == "")) ≡ false

take_down-IsQuiet : (v id : String) → (v == id) ≡ false → All (IsQuiet id) (take_down v)
unfolding take_down
take_down-IsQuiet v id e = (e, (e, (e, tt)))

bring_up-IsQuiet : (v id : String) → (v == id) ≡ false → All (IsQuiet id) (bring_up v)
unfolding bring_up
bring_up-IsQuiet v id e = (e, (e, (e, tt)))

sleep_for-IsQuiet : (d : ℕ) (id : String) → All (IsQuiet id) (sleep_for d)
unfolding sleep_for
sleep_for-IsQuiet d id = elim (Bool-cases (eqb d 0)) [ inl e ↦ rw e tt | inr e ↦ rw e (tt, tt) ]

sleep_between-IsQuiet :
    (d : ℕ) (ids : List String) (id : String) → All (IsQuiet id) (sleep_between d ids)
unfolding sleep_between
sleep_between-IsQuiet d [] id = tt
sleep_between-IsQuiet d (v ∷ ids) id = sleep_for-IsQuiet d id

IsSpared-head :
    (v : String) (rest : List String) (id : String)
    → IsSpared (v ∷ rest) id
    → (v == "") ≡ false
    → (v == id) ≡ false
unfolding contains
IsSpared-head v rest id s n = elim (Bool-cases (v == id)) [
  | inr e ↦ e
  | inl e ↦
      let named : (id == "") ≡ false =
        subst (λ q. (q == "") ≡ false) ((string_eq.beq_iff v id).0 e) n in
      ground (arith, s, e, named)
]

IsSpared-rest :
    (v : String) (rest : List String) (id : String) → IsSpared (v ∷ rest) id → IsSpared rest id
unfolding contains
IsSpared-rest v rest id s = ground (arith, s)

next_victim-IsSpared :
    (ids : List String) (next : String) (behind : List String) (id : String)
    → IsSpared ids id
    → next_victim ids ≡ some (next, behind)
    → ((next == id) ≡ false) × IsSpared behind id
unfolding next_victim
next_victim-IsSpared [] next behind id s e = absurd (cc e)
next_victim-IsSpared (v ∷ ids) next behind id s e = elim (Bool-cases (v == "")) [
  | inl n ↦ next_victim-IsSpared ids next behind id (IsSpared-rest v ids id s) (rw n at e)
  | inr n ↦
      let f : some (v, ids) ≡ some (next, behind) = rw n at e in
      let first : v ≡ next = cc f in
      let rest : ids ≡ behind = cc f in
      (
        subst (λ q. (q == id) ≡ false) first (IsSpared-head v ids id s n),
        subst (λ q. IsSpared q id) rest (IsSpared-rest v ids id s),
      )
]

one_phase-IsQuiet :
    (opts : PbsDemoOptions) (v id : String)
    → (v == id) ≡ false
    → All (IsQuiet id) (one_phase opts v)
unfolding one_phase
one_phase-IsQuiet opts v id e =
    All-append (IsQuiet id) (take_down v ++ sleep_for opts.failure_down_duration) (bring_up v)
      (All-append (IsQuiet id) (take_down v) (sleep_for opts.failure_down_duration)
        (take_down-IsQuiet v id e) (sleep_for-IsQuiet opts.failure_down_duration id))
      (bring_up-IsQuiet v id e)

two_phases-IsQuiet :
    (opts : PbsDemoOptions) (v w id : String)
    → (v == id) ≡ false
    → (w == id) ≡ false
    → All (IsQuiet id) (two_phases opts v w)
unfolding two_phases
two_phases-IsQuiet opts v w id e f =
    let Q = IsQuiet id in
    let alone = sleep_for (opts.failure_down_duration - opts.failure_overlap) in
    let both = sleep_for opts.failure_overlap in
    let calm = sleep_for-IsQuiet (opts.failure_down_duration - opts.failure_overlap) id in
    All-append Q (take_down v ++ alone ++ take_down w ++ both ++ bring_up v ++ alone) (bring_up w)
      (All-append Q (take_down v ++ alone ++ take_down w ++ both ++ bring_up v) alone
        (All-append Q (take_down v ++ alone ++ take_down w ++ both) (bring_up v)
          (All-append Q (take_down v ++ alone ++ take_down w) both
            (All-append Q (take_down v ++ alone) (take_down w)
              (All-append Q (take_down v) alone (take_down-IsQuiet v id e) calm)
              (take_down-IsQuiet w id f))
            (sleep_for-IsQuiet opts.failure_overlap id))
          (bring_up-IsQuiet v id e))
        calm)
      (bring_up-IsQuiet w id f)

phases-IsQuiet :
    (fuel : ℕ) (opts : PbsDemoOptions) (victims : List String) (id : String)
    → IsSpared victims id
    → All (IsQuiet id) (phases fuel opts victims)
unfolding phases
phases-IsQuiet zero opts [] id s = tt
phases-IsQuiet (suc fuel) opts [] id s = tt
phases-IsQuiet zero opts (v ∷ rest) id s = tt
phases-IsQuiet (suc fuel) opts (v ∷ rest) id s = elim (Bool-cases (v == "")) [
  | inl e ↦ rw e (phases-IsQuiet fuel opts rest id (IsSpared-rest v rest id s))
  | inr e ↦
      let here = IsSpared-head v rest id s e in
      let alone =
        All-append (IsQuiet id) (one_phase opts v ++ sleep_between opts.failure_up_duration rest)
          (phases fuel opts rest)
          (All-append (IsQuiet id) (one_phase opts v) (sleep_between opts.failure_up_duration rest)
            (one_phase-IsQuiet opts v id here)
            (sleep_between-IsQuiet opts.failure_up_duration rest id))
          (phases-IsQuiet fuel opts rest id (IsSpared-rest v rest id s)) in
      elim (Option-cases (next_victim rest)) [
        | inl n ↦ rw (e, n, phases) alone
        | inr ((next, behind), n) ↦
            let r = next_victim-IsSpared rest next behind id (IsSpared-rest v rest id s) n in
            elim (Bool-cases
              (ltb 0 opts.failure_overlap && ltb opts.failure_overlap opts.failure_down_duration)) [
                | inr o ↦ rw (e, n, o, phases) alone
                | inl o ↦
                    rw (e, n, o, phases)
                      (All-append (IsQuiet id)
                        (two_phases opts v next ++ sleep_between opts.failure_up_duration behind)
                        (phases fuel opts behind)
                        (All-append (IsQuiet id) (two_phases opts v next)
                          (sleep_between opts.failure_up_duration behind)
                          (two_phases-IsQuiet opts v next id here r.0)
                          (sleep_between-IsQuiet opts.failure_up_duration behind id))
                        (phases-IsQuiet fuel opts behind id r.1))
              ]
      ]
]

single_phase-IsQuiet :
    (opts : PbsDemoOptions) (victims : List String) (id : String)
    → IsSpared victims id
    → All (IsQuiet id) (single_phase opts victims)
unfolding single_phase
single_phase-IsQuiet opts [] id s = tt
single_phase-IsQuiet opts (v ∷ rest) id s = elim (Bool-cases (v == "")) [
  | inl e ↦ rw e tt
  | inr e ↦
      let here = IsSpared-head v rest id s e in
      let timed : (d : ℕ) → All (IsQuiet id) (take_down v ++ sleep_for d ++ bring_up v) = λ d.
        All-append (IsQuiet id) (take_down v ++ sleep_for d) (bring_up v)
          (All-append (IsQuiet id) (take_down v) (sleep_for d) (take_down-IsQuiet v id here)
            (sleep_for-IsQuiet d id))
          (bring_up-IsQuiet v id here) in
      elim (Bool-cases (ltb 0 opts.failure_down_duration)) [
        | inl d ↦ rw (e, d) (timed opts.failure_down_duration)
        | inr d ↦ elim (Bool-cases (ltb 0 opts.failure_recover_after)) [
          | inl r ↦ rw (e, d, r) (timed (opts.failure_recover_after - opts.failure_start_after))
          | inr r ↦ rw (e, d, r) (take_down-IsQuiet v id here)
        ]
      ]
]

pub schedule-IsQuiet :
    (opts : PbsDemoOptions) (victims : List String) (id : String)
    → IsSpared victims id
    → All (IsQuiet id) (schedule opts victims)
unfolding schedule
schedule-IsQuiet opts victims id s =
    All-append (IsQuiet id) (sleep_for opts.failure_start_after) _
      (sleep_for-IsQuiet opts.failure_start_after id)
      (elim (Bool-cases (ltb 0 opts.failure_up_duration)) [
        | inl e ↦ rw e (phases-IsQuiet (length victims) opts victims id s)
        | inr e ↦ rw e (single_phase-IsQuiet opts victims id s)
      ])
