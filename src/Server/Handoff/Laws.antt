-- ===== src/Server/Handoff/Laws.antt =====
-- What src/kvsrv/hinted_handoff.go promises of the hints, and of the server that it chooses for one.
use dynamo_kvsrv_pbs.Prelude.{
  ◌+◌, ◌≡◌, ◌≢◌, ◌⊎◌, refl, ap, String, true, false, none, some, List, [], ◌∷◌, ◌++◌, arith, ◌==◌,
  string_eq, if◌then◌else◌, Bool-cases, Option-cases, inl, inr, contains, IsDistinct, length,
}
use dynamo_kvsrv_pbs.GoMap.{GoMap, get, get_or, keys, get-put, get-delete}
use dynamo_kvsrv_pbs.Rpc.MemberInfo.{MemberInfo, dead, is_status}
use dynamo_kvsrv_pbs.Rpc.Messages
use dynamo_kvsrv_pbs.Rpc.Messages.{PutArgs, ForwardPutResult, HintedPutArgs}
use dynamo_kvsrv_pbs.Server.{KvServer}
use dynamo_kvsrv_pbs.Server.Handoff.{
  hints_for, hinted_put, first_sorted, set_hints, matches, without_match, remove_hint,
  before_string, least_string, handoff_candidates, choose_handoff_node,
}

contains-least_string :
    (best : String) (rest : List String) → contains (best ∷ rest) (least_string best rest) ≡ true
unfolding contains least_string
contains-least_string best [] = ground (arith, string_eq.beq_iff best best)
contains-least_string best (s ∷ rest) = elim (Bool-cases (before_string s best)) [
  | inl e ↦ rw e (ground (arith, contains-least_string s rest))
  | inr e ↦ rw e (ground (arith, contains-least_string best rest))
]

-- A member that may take a hint: not dead, and not excluded.
pub record IsUsable (exclude : List String) (members : GoMap String MemberInfo) (s : String)
    : Type 0 where
  pub free : contains exclude s ≡ false
  pub member : MemberInfo
  pub found : get members s ≡ some member
  pub up : is_status member.status dead ≡ false

module _ (exclude : List String) where
  candidate-key :
      (members : GoMap String MemberInfo) (s : String)
      → contains (handoff_candidates exclude members) s ≡ true
      → contains (keys members) s ≡ true
  unfolding handoff_candidates contains
  candidate-key [] s h = cc
  candidate-key ((j, m) ∷ members) s h = ground (arith, candidate-key members s)

  candidate-IsUsable :
      (members : GoMap String MemberInfo) (s : String)
      → IsDistinct (keys members)
      → contains (handoff_candidates exclude members) s ≡ true
      → IsUsable exclude members s
  unfolding handoff_candidates contains get
  candidate-IsUsable [] s d h = absurd (cc)
  candidate-IsUsable ((j, m) ∷ members) s d h = elim (Bool-cases (j == s)) [
    | inl e ↦
        let out : contains (handoff_candidates exclude members) s ≡ false =
          ground (arith, string_eq.beq_iff j s, candidate-key members s) in
        record {
          free = ground (arith, string_eq.beq_iff j s);
          member = m;
          found = rw e;
          up = ground (arith, string_eq.beq_iff j s);
        }
    | inr e ↦
        let u = candidate-IsUsable members s d.1 (ground arith) in
        record { free = u.free; member = u.member; found = rw e u.found; up = u.up }
  ]

  usable-candidate :
      (members : GoMap String MemberInfo) (s : String)
      → IsUsable exclude members s
      → contains (handoff_candidates exclude members) s ≡ true
  unfolding handoff_candidates contains get
  usable-candidate [] s u = let k : none ≡ some u.member = u.found in cc k
  usable-candidate ((j, m) ∷ members) s u = elim (Bool-cases (j == s)) [
    | inl e ↦
        let same : some m ≡ some u.member = rw e at u.found in
        let k : m ≡ u.member = cc same in
        let up : is_status m.status dead ≡ false = rw k u.up in
        let free : contains exclude j ≡ false = rw ((string_eq.beq_iff j s).0 e) u.free in
        rw (free, up) (rw e)
    | inr e ↦
        let ih =
          usable-candidate members s
            (record { free = u.free; member = u.member; found = rw e at u.found; up = u.up }) in
        ground (arith, ih)
  ]

chosen : (cs : List String) (s : String) → first_sorted cs ≡ some s → contains cs s ≡ true
unfolding first_sorted
chosen [] s h = absurd (cc)
chosen (c ∷ cs) s h = let k : least_string c cs ≡ s = cc h in rw k at (contains-least_string c cs)

none_chosen : (cs : List String) (s : String) → first_sorted cs ≡ none → contains cs s ≡ false
unfolding first_sorted contains
none_chosen [] s h = refl
none_chosen (c ∷ cs) s h = absurd (cc)

-- chooseHandoffNode chooses a member that is not dead and not excluded, and finds none only when
-- there is none, if the member map holds a key once.
pub choose_handoff_node-IsUsable :
    (kv : KvServer) (exclude : List String)
    → IsDistinct (keys kv.members)
    → ((s : String) → choose_handoff_node kv exclude ≡ some s → IsUsable exclude kv.members s)
      × (choose_handoff_node kv exclude ≡ none → (s : String) → ¬ IsUsable exclude kv.members s)
unfolding choose_handoff_node
choose_handoff_node-IsUsable kv exclude d = (
  λ s h. candidate-IsUsable exclude kv.members s d (chosen _ s h),
  λ h s u. absurd (ground (arith, none_chosen _ s h, usable-candidate exclude kv.members s u)),
)

-- The first match goes, and nothing else.
pub length-without_match :
    (hints : List PutArgs) (matched : PutArgs) (hints' : List PutArgs)
    → without_match hints matched ≡ some hints'
    → length hints ≡ length hints' + 1
unfolding without_match
length-without_match [] matched hints' h = absurd (cc)
length-without_match (hint ∷ hints) matched hints' h = elim (Bool-cases (matches hint matched)) [
  | inl e ↦
      let same : some hints ≡ some hints' = rw e at h in
      let k : hints ≡ hints' = cc same in omega (arith, ap length k)
  | inr e ↦ elim (Option-cases (without_match hints matched)) [
    | inl n ↦ let k : none ≡ some hints' = rw (e, n) at h in absurd (cc)
    | inr (rest, n) ↦
        let same : some (hint ∷ rest) ≡ some hints' = rw (e, n) at h in
        let k : hint ∷ rest ≡ hints' = cc same in
        omega (arith, ap length k, length-without_match hints matched rest n)
  ]
]

module _ (kv : KvServer) (target : String) where
  pub hints_for-set_hints :
      (hints : List PutArgs) (other : String)
      → hints_for (set_hints kv target hints) other
        ≡ (if target == other then hints else hints_for kv other)
  unfolding set_hints hints_for get_or
  hints_for-set_hints [] other = rw get-delete (ground arith)
  hints_for-set_hints (h ∷ hints) other = rw get-put (ground arith)

  pub remove_hint_cases :
      (matched : PutArgs)
      → (remove_hint kv target matched ≡ kv)
        ⊎ ((hints : List PutArgs) × (without_match (hints_for kv target) matched ≡ some hints)
            × (remove_hint kv target matched ≡ set_hints kv target hints))
  unfolding remove_hint
  remove_hint_cases matched = elim (Option-cases (without_match (hints_for kv target) matched)) [
    | inl e ↦ inl (rw (e, remove_hint))
    | inr (hints, e) ↦ inr (hints, e, rw (e, remove_hint))
  ]

  -- `removeHint` drops no hint of another server.
  pub remove_hint_ne :
      (matched : PutArgs) (other : String)
      → target ≢ other
      → hints_for (remove_hint kv target matched) other ≡ hints_for kv other
  remove_hint_ne matched other ne = elim (remove_hint_cases matched) [
    | inl k ↦ rw k
    | inr (hints, e, k) ↦
        rw (k, hints_for-set_hints) (ground (arith, string_eq.beq_iff target other))
  ]

  -- HintedPut keeps the request behind the hints of its target, and no other server's hints
  -- change.
  pub hinted_put_lem :
      (args : PutArgs) (other : String)
      → hints_for (hinted_put kv (record { target_server = target; put_args = args })).0 other ≡ (
          if target == other
          then hints_for kv target ++ Messages.copy args ∷ []
          else hints_for kv other)
  unfolding hinted_put hints_for get_or
  hinted_put_lem args other = rw get-put (ground arith)
