-- ===== src/Server/Handoff/Matches.antt =====
-- When `removeHint` of src/kvsrv/hinted_handoff.go takes two hints for the same put, and how many hints
-- of a put it leaves.
use dynamo_kvsrv_pbs.Prelude.{
  ◌≡◌, ◌∙◌, refl, sym, String, true, false, arith, string_eq, Bool-cases, inl, inr, eqb_iff, ℕ, ◌+◌,
  some, none, List, [], ◌∷◌, if◌then◌else◌, Option-cases, map,
}
use dynamo_kvsrv_pbs.VClock
use dynamo_kvsrv_pbs.VClock.{Cmp, get_version, equal, before, after, concurrent}
use dynamo_kvsrv_pbs.VClock.Order.{compare_iff}
use dynamo_kvsrv_pbs.VClock.Laws.{compare-copy_right}
use dynamo_kvsrv_pbs.Rpc.Context
use dynamo_kvsrv_pbs.Rpc.Context.{Context, is_equal_cmp}
use dynamo_kvsrv_pbs.Rpc.Messages
use dynamo_kvsrv_pbs.Rpc.Messages.{
  Err, ok, no_err, err_rpc_failure, err_no_key, err_version, err_maybe, err_not_coordinator,
  err_read_quorum_not_met, err_write_quorum_not_met, err_no_hash_value, PutArgs, ForwardPutResult,
}
use dynamo_kvsrv_pbs.Server.Handoff.{matches, without_match}

-- The contexts have the same versions of all nodes, timestamps and etags.
abbrev pub IsSameContext : Context → Context → Type 0
IsSameContext c d =
    ((node : String) → get_version c.vc node ≡ get_version d.vc node)
    × (c.timestamp ≡ d.timestamp)
    × (c.etag ≡ d.etag)

-- The hints are of the same put.
abbrev pub IsSamePut : PutArgs → PutArgs → Type 0
IsSamePut h d =
    (h.key ≡ d.key)
    × (h.object.value ≡ d.object.value)
    × IsSameContext h.object.context d.object.context
    × IsSameContext h.base_context d.base_context

is_equal_cmp-equal : (c : Cmp) → is_equal_cmp c ≡ true → c ≡ equal
is_equal_cmp-equal equal h = refl
is_equal_cmp-equal before h = absurd (cc)
is_equal_cmp-equal after h = absurd (cc)
is_equal_cmp-equal concurrent h = absurd (cc)

is_equal-IsSameContext : (c d : Context) → Context.is_equal c d ≡ true → IsSameContext c d
unfolding Context.is_equal Context.compare
is_equal-IsSameContext c d h =
    let e = is_equal_cmp-equal (VClock.compare c.vc d.vc) (ground (arith, h)) in
    let b = (compare_iff c.vc d.vc equal).0 e in
    (
      λ node. omega (arith, b.0 node, b.1 node),
      (eqb_iff c.timestamp d.timestamp).0 (ground (arith, h)),
      (string_eq.beq_iff c.etag d.etag).0 (ground (arith, h)),
    )

pub matches-IsSamePut : (h d : PutArgs) → matches h d ≡ true → IsSamePut h d
unfolding matches
matches-IsSamePut h d m = (
  (string_eq.beq_iff h.key d.key).0 (ground (arith, m)),
  (string_eq.beq_iff h.object.value d.object.value).0 (ground (arith, m)),
  is_equal-IsSameContext h.object.context d.object.context (ground (arith, m)),
  is_equal-IsSameContext h.base_context d.base_context (ground (arith, m)),
)

compare_self : (v : VClock.VClock) → VClock.compare v v ≡ equal
compare_self v = (compare_iff v v equal).1 (λ n. omega arith, λ n. omega arith)

is_equal-copy : (c : Context) → Context.is_equal c (Context.copy c) ≡ true
unfolding Context.is_equal Context.compare Context.copy
is_equal-copy c =
    rw (compare-copy_right, compare_self)
      (ground (arith, eqb_iff c.timestamp c.timestamp, string_eq.beq_iff c.etag c.etag))

is_equal_self : (c : Context) → Context.is_equal c c ≡ true
unfolding Context.is_equal Context.compare
is_equal_self c =
    rw compare_self
      (ground (arith, eqb_iff c.timestamp c.timestamp, string_eq.beq_iff c.etag c.etag))

-- A hint matches the copy of it that is sent.
pub matches-copy : (h : PutArgs) → matches h (Messages.copy h) ≡ true
unfolding matches Messages.copy
matches-copy h = ground (
  arith,
  string_eq.beq_iff h.key h.key,
  string_eq.beq_iff h.object.value h.object.value,
  is_equal_self h.object.context,
  is_equal-copy h.base_context,
)

pub matches_self : (h : PutArgs) → matches h h ≡ true
unfolding matches
matches_self h = ground (
  arith,
  string_eq.beq_iff h.key h.key,
  string_eq.beq_iff h.object.value h.object.value,
  is_equal_self h.object.context,
  is_equal_self h.base_context,
)

IsSameContext-is_equal : (c d : Context) → IsSameContext c d → Context.is_equal c d ≡ true
unfolding Context.is_equal Context.compare
IsSameContext-is_equal c d s =
    let e =
      (compare_iff c.vc d.vc equal).1 (λ n. omega (arith, s.0 n), λ n. omega (arith, s.0 n)) in
    rw e (
      ground
        (arith, (eqb_iff c.timestamp d.timestamp).1 s.1, (string_eq.beq_iff c.etag d.etag).1 s.2))

IsSamePut-matches : (h d : PutArgs) → IsSamePut h d → matches h d ≡ true
unfolding matches
IsSamePut-matches h d s = ground (
  arith,
  (string_eq.beq_iff h.key d.key).1 s.0,
  (string_eq.beq_iff h.object.value d.object.value).1 s.1,
  IsSameContext-is_equal h.object.context d.object.context s.2,
  IsSameContext-is_equal h.base_context d.base_context s.3,
)

IsSameContext-sym : (c d : Context) → IsSameContext c d → IsSameContext d c
IsSameContext-sym c d s = (λ n. sym (s.0 n), sym s.1, sym s.2)

IsSameContext-trans : (b c d : Context) → IsSameContext b c → IsSameContext c d → IsSameContext b d
IsSameContext-trans b c d s t = (λ n. s.0 n ∙ t.0 n, s.1 ∙ t.1, s.2 ∙ t.2)

IsSamePut-sym : (h d : PutArgs) → IsSamePut h d → IsSamePut d h
IsSamePut-sym h d s = (sym s.0, sym s.1, IsSameContext-sym _ _ s.2, IsSameContext-sym _ _ s.3)

IsSamePut-trans : (g h d : PutArgs) → IsSamePut g h → IsSamePut h d → IsSamePut g d
IsSamePut-trans g h d s t =
    (s.0 ∙ t.0, s.1 ∙ t.1, IsSameContext-trans _ _ _ s.2 t.2, IsSameContext-trans _ _ _ s.3 t.3)

-- Puts that match each other match the same puts.
pub matches-alike : (y h x : PutArgs) → matches y h ≡ true → matches y x ≡ matches h x
matches-alike y h x m =
    let same = matches-IsSamePut y h m in
    elim (Bool-cases (matches h x)) [
      | inl e ↦ IsSamePut-matches y x (IsSamePut-trans y h x same (matches-IsSamePut h x e)) ∙ sym e
      | inr e ↦ elim (Bool-cases (matches y x)) [
        | inr f ↦ f ∙ sym e
        | inl f ↦
            let k =
              IsSamePut-matches h x
                (IsSamePut-trans h y x (IsSamePut-sym y h same) (matches-IsSamePut y x f)) in
            let c : true ≡ false = sym k ∙ e in absurd (cc)
      ]
    ]

-- How many of the puts match x.
abbrev pub alike : PutArgs → List PutArgs → ℕ
alike x [] = 0
alike x (y ∷ ys) = (if matches y x then 1 else 0) + alike x ys

pub alike-without_match :
    (hints : List PutArgs) (m : PutArgs) (hints' : List PutArgs) (x : PutArgs)
    → without_match hints m ≡ some hints'
    → alike x hints ≡ alike x hints' + (if matches m x then 1 else 0)
unfolding without_match
alike-without_match [] m hints' x e = absurd (cc e)
alike-without_match (hint ∷ hints) m hints' x e = elim (Bool-cases (matches hint m)) [
  | inl k ↦
      let f : some hints ≡ some hints' = rw k at e in
      let same : hints ≡ hints' = cc f in rw (sym same, matches-alike hint m x k) (omega arith)
  | inr k ↦ elim (Option-cases (without_match hints m)) [
    | inl n ↦ let f : none ≡ some hints' = rw (k, n) at e in absurd (cc f)
    | inr (rest, n) ↦
        let f : some (hint ∷ rest) ≡ some hints' = rw (k, n) at e in
        let same : hint ∷ rest ≡ hints' = cc f in
        rw (sym same) (omega (arith, alike-without_match hints m rest x n))
  ]
]

pub alike-none :
    (hints : List PutArgs) (m : PutArgs) → without_match hints m ≡ none → alike m hints ≡ 0
unfolding without_match
alike-none [] m e = refl
alike-none (hint ∷ hints) m e = elim (Bool-cases (matches hint m)) [
  | inl k ↦ let f : some hints ≡ none = rw k at e in absurd (cc f)
  | inr k ↦ elim (Option-cases (without_match hints m)) [
    | inl n ↦ rw k (omega (arith, alike-none hints m n))
    | inr (rest, n) ↦ let f : some (hint ∷ rest) ≡ none = rw (k, n) at e in absurd (cc f)
  ]
]

pub alike-copy :
    (hints : List PutArgs) (x : PutArgs) → alike x (map Messages.copy hints) ≡ alike x hints
alike-copy [] x = refl
alike-copy (h ∷ hints) x =
    rw (sym (matches-alike h (Messages.copy h) x (matches-copy h)), alike-copy hints x) refl
