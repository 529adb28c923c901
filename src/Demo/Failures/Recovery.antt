-- ===== src/Demo/Failures/Recovery.antt =====
-- What the failures of src/kvsrv/pbs_demo.go leave behind.
use dynamo_kvsrv_pbs.Prelude.{
  ℕ, ◌≡◌, ◌⊎◌, refl, ◌∙◌, ap, true, not, ◌&&◌, String, List, [], ◌∷◌, contains, string_eq, ◌==◌,
  arith, Bool-cases, inl, inr,
}
use dynamo_kvsrv_pbs.Eval.Stimulator.{take}
use dynamo_kvsrv_pbs.Demo.{PbsDemoOptions, unique_loop, unique_string_ids}
use dynamo_kvsrv_pbs.Demo.Failures.{schedule, restore, failure_loop}
use dynamo_kvsrv_pbs.Demo.Failures.Quiet.{
  Trouble, no_trouble, touch, after_events, after_events-append, IsQuiet-take, schedule-IsQuiet,
}

unique_loop-contains :
    (seen ids : List String) (id : String)
    → contains (unique_loop seen ids) id
      ≡ (contains ids id && not (id == "") && not (contains seen id))
unfolding unique_loop contains
unique_loop-contains seen [] id = refl
unique_loop-contains seen (v ∷ ids) id = elim (Bool-cases (v == id)) [
  | inr e ↦
      ground (arith, e, unique_loop-contains seen ids id, unique_loop-contains (v ∷ seen) ids id)
  | inl e ↦
      let same : v ≡ id = (string_eq.beq_iff v id).0 e in
      let named : (v == "") ≡ (id == "") = ap (λ q. q == "") same in
      let known : contains seen v ≡ contains seen id = ap (contains seen) same in
      ground (
        arith,
        e,
        named,
        known,
        unique_loop-contains seen ids id,
        unique_loop-contains (v ∷ seen) ids id,
      )
]

restored :
    (v id : String) (t : Trouble)
    → (v == id) ≡ true
    → after_events (restore (v ∷ [])) id t ≡ no_trouble
unfolding restore
restored v id t e = rw (e, touch) refl

-- Restoring leaves a server without trouble if it is among the restored, or had none.
restore_after :
    (ids : List String) (id : String) (t : Trouble)
    → (contains ids id ≡ true) ⊎ (t ≡ no_trouble)
    → after_events (restore ids) id t ≡ no_trouble
unfolding restore contains
restore_after [] id t (inl c) = absurd (cc c)
restore_after [] id t (inr e) = e
restore_after (v ∷ ids) id t h = elim (Bool-cases (v == id)) [
  | inl e ↦
      ap (after_events (restore ids) id) (restored v id t e)
      ∙ restore_after ids id no_trouble (inr refl)
  | inr e ↦
      ap (after_events (restore ids) id) (IsQuiet-take 3 (restore (v ∷ [])) id t (e, (e, (e, tt))))
      ∙ restore_after ids id t (elim h [ inl c ↦ inl (ground (arith, c, e)) | inr n ↦ inr n ])
]

-- Whenever the experiment ends, the failure loop has left every server alive, on the network and
-- with its gossip running, if the servers were so before.
pub failure_loop_recovers :
    (opts : PbsDemoOptions) (victims : List String) (steps : ℕ) (id : String)
    → after_events (failure_loop opts victims steps) id no_trouble ≡ no_trouble
unfolding failure_loop unique_string_ids contains
failure_loop_recovers opts [] steps id = refl
failure_loop_recovers opts (vid ∷ rest) steps id =
    let victims = vid ∷ rest in
    let events = take steps (schedule opts victims) in
    after_events-append events (restore (unique_string_ids victims)) id no_trouble
    ∙ elim (Bool-cases (contains victims id && not (id == ""))) [
      | inl e ↦
          restore_after (unique_string_ids victims) id (after_events events id no_trouble)
            (inl (unique_loop-contains [] victims id ∙ rw e refl))
      | inr e ↦
          ap (after_events (restore (unique_string_ids victims)) id) (
            IsQuiet-take steps (schedule opts victims) id no_trouble
              (schedule-IsQuiet opts victims id e))
          ∙ restore_after (unique_string_ids victims) id no_trouble (inr refl)
    ]
