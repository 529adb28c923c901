-- ===== src/Server/Coordinator/Plans.antt =====
-- The plans of `CoordPut` in src/kvsrv/server.go: which server takes the copy of each replica.
use dynamo_kvsrv_pbs.Prelude.{
  ◌≡◌, ◌⊎◌, ◌∙◌, refl, sym, String, true, false, ◌||◌, List, [], ◌∷◌, arith, ◌==◌, string_eq,
  if◌then◌else◌, Bool-cases, Option-cases, inl, inr, All, contains, IsDistinct, map,
}
use dynamo_kvsrv_pbs.GoMap.{has, keys}
use dynamo_kvsrv_pbs.Server.{KvServer}
use dynamo_kvsrv_pbs.Server.Handoff.{is_dead, choose_handoff_node}
use dynamo_kvsrv_pbs.Server.Handoff.Laws.{IsUsable, choose_handoff_node-IsUsable}
use dynamo_kvsrv_pbs.Server.Coordinator.{PutPlan, make_plans, put_plans}

-- The server that a plan calls.
abbrev pub callee : PutPlan → String
callee p = if p.handoff_server == "" then p.target_server else p.handoff_server

-- A live replica is called itself; a dead one has its hint taken by a member that is not dead and
-- not a replica.
abbrev pub IsPlan : KvServer → List String → PutPlan → Type 0
IsPlan kv pref p =
    ((p.handoff_server ≡ "") × (is_dead kv p.target_server ≡ false))
    ⊎ ((is_dead kv p.target_server ≡ true) × IsUsable pref kv.members p.handoff_server)

-- Go's maps hold a key once, and no server is named by the empty string.
pub record IsNamed (kv : KvServer) : Type 0 where
  pub distinct : IsDistinct (keys kv.members)
  pub named : has kv.members "" ≡ false

module _ (kv : KvServer) (named : IsNamed kv) where
  name_of_usable :
      (used : List String) (s : String) → IsUsable used kv.members s → (s == "") ≡ false
  unfolding has
  name_of_usable used s u = ground (arith, string_eq.beq_iff s "", named.named, u.found)

  -- What one round of the loop does.
  data Round (used : List String) (s : String) (rest : List String) (ps : List PutPlan)
      : Type 0 where
    direct :
        is_dead kv s ≡ false
        → ps ≡ record { target_server = s; handoff_server = "" } ∷ make_plans kv used rest
        → Round used s rest ps
    skipped : ps ≡ make_plans kv used rest → Round used s rest ps
    hinted :
        (h : String)
        → is_dead kv s ≡ true
        → IsUsable used kv.members h
        → ps ≡ record { target_server = s; handoff_server = h } ∷ make_plans kv (h ∷ used) rest
        → Round used s rest ps

  round :
      (used : List String) (s : String) (rest : List String)
      → Round used s rest (make_plans kv used (s ∷ rest))
  unfolding make_plans
  round used s rest = elim (Bool-cases (is_dead kv s)) [
    | inr up ↦ direct up (rw up)
    | inl down ↦ elim (Bool-cases kv.hinted_handoff_enabled) [
      | inr off ↦ skipped (ground arith)
      | inl on ↦ elim (Option-cases (choose_handoff_node kv used)) [
        | inl n ↦ skipped (ground arith)
        | inr (h, e) ↦
            hinted h down ((choose_handoff_node-IsUsable kv used named.distinct).0 h e)
              (ground arith)
      ]
    ]
  ]

  abbrev callees : List PutPlan → List String
  callees ps = map callee ps

  -- Every server of the first list is in the second.
  abbrev Within : List String → List String → Type 0
  Within xs ys = (c : String) → contains xs c ≡ true → contains ys c ≡ true

  contains-nil : (c : String) → contains {A = String} [] c ≡ false
  unfolding contains
  contains-nil c = refl

  contains-cons :
      (x : String) (xs : List String) (c : String) → contains (x ∷ xs) c ≡ (x == c || contains xs c)
  unfolding contains
  contains-cons x xs c = refl

  contains-callees :
      (p : PutPlan) (ps : List PutPlan) (c : String)
      → contains (callees (p ∷ ps)) c ≡ (callee p == c || contains (callees ps) c)
  unfolding contains
  contains-callees p ps c = refl

  -- A callee is a replica that was left, or was not taken.
  callee_fresh :
      (used rest : List String) (c : String)
      → contains (callees (make_plans kv used rest)) c ≡ true
      → (contains rest c ≡ true) ⊎ (contains used c ≡ false)
  callee_fresh used [] c h =
      let k : contains (callees []) c ≡ true = unfold make_plans in h in
      let k' : false ≡ true = sym (contains-nil c) ∙ k in absurd (cc)
  callee_fresh used (s ∷ rest) c h = elim (round used s rest) [
    | direct up e ↦
        let p : PutPlan = record { target_server = s; handoff_server = "" } in
        let k : (s == c || contains (callees (make_plans kv used rest)) c) ≡ true =
          sym (contains-callees p (make_plans kv used rest) c) ∙ (rw e at h) in
        ground (arith, callee_fresh used rest c, contains-cons s rest c)
    | skipped e ↦ ground (arith, callee_fresh used rest c (rw e at h), contains-cons s rest c)
    | hinted t down u e ↦
        let p : PutPlan = record { target_server = s; handoff_server = t } in
        let k : (callee p == c || contains (callees (make_plans kv (t ∷ used) rest)) c) ≡ true =
          sym (contains-callees p (make_plans kv (t ∷ used) rest) c) ∙ (rw e at h) in
        let k' : (t == c || contains (callees (make_plans kv (t ∷ used) rest)) c) ≡ true =
          rw (name_of_usable used t u) at k in
        ground (
          arith,
          callee_fresh (t ∷ used) rest c,
          u.free,
          string_eq.beq_iff t c,
          contains-cons s rest c,
          contains-cons t used c,
        )
  ]

  not_callee :
      (used rest : List String) (c : String)
      → contains rest c ≡ false
      → contains used c ≡ true
      → contains (callees (make_plans kv used rest)) c ≡ false
  not_callee used rest c out taken =
      elim (Bool-cases (contains (callees (make_plans kv used rest)) c)) [
        | inl e ↦ elim (callee_fresh used rest c e) [
          | inl p ↦ absurd (ground arith)
          | inr p ↦ absurd (ground arith)
        ]
        | inr e ↦ e
      ]

  contains_first : (x : String) (xs : List String) → contains (x ∷ xs) x ≡ true
  contains_first x xs = rw contains-cons (ground (arith, string_eq.beq_iff x x))

  contains_later :
      (x : String) (xs : List String) (c : String)
      → contains xs c ≡ true
      → contains (x ∷ xs) c ≡ true
  contains_later x xs c h = rw contains-cons (ground arith)

  callees-IsDistinct :
      (used rest : List String)
      → IsDistinct rest
      → Within rest used
      → IsDistinct (callees (make_plans kv used rest))
  callees-IsDistinct used [] d w = unfold make_plans in tt
  callees-IsDistinct used (s ∷ rest) d w =
      let w' : Within rest used = λ c h. w c (contains_later s rest c h) in
      elim (round used s rest) [
        | direct up e ↦ rw e (
            (
              not_callee used rest s d.0 (w s (contains_first s rest)),
              callees-IsDistinct used rest d.1 w',
            ))
        | skipped e ↦ rw e (callees-IsDistinct used rest d.1 w')
        | hinted t down u e ↦
            let apart : contains rest t ≡ false = elim (Bool-cases (contains rest t)) [
              | inl c ↦ let k : false ≡ true = sym u.free ∙ w' t c in absurd (cc)
              | inr c ↦ c
            ] in
            rw e (
              rw (name_of_usable used t u) (
                not_callee (t ∷ used) rest t apart (contains_first t used),
                callees-IsDistinct (t ∷ used) rest d.1 (λ c h. contains_later t used c (w' c h)),
              ))
      ]

  plans-IsPlan :
      (pref used rest : List String)
      → Within pref used
      → All (IsPlan kv pref) (make_plans kv used rest)
  plans-IsPlan pref used [] w = unfold make_plans in tt
  plans-IsPlan pref used (s ∷ rest) w = elim (round used s rest) [
    | direct up e ↦ rw e (inl (refl, up), plans-IsPlan pref used rest w)
    | skipped e ↦ rw e (plans-IsPlan pref used rest w)
    | hinted t down u e ↦
        let free : contains pref t ≡ false = elim (Bool-cases (contains pref t)) [
          | inl c ↦ let k : false ≡ true = sym u.free ∙ w t c in absurd (cc)
          | inr c ↦ c
        ] in
        rw e (
          inr (down, record { free = free; member = u.member; found = u.found; up = u.up }),
          plans-IsPlan pref (t ∷ used) rest (λ c h. contains_later t used c (w c h)),
        )
  ]

  pub put_plans_lem :
      (pref : List String)
      → IsDistinct pref
      → IsDistinct (map callee (put_plans kv pref)) × All (IsPlan kv pref) (put_plans kv pref)
  unfolding put_plans
  put_plans_lem pref d =
      (callees-IsDistinct pref pref d (λ c h. h), plans-IsPlan pref pref pref (λ c h. h))
