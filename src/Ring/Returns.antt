-- ===== src/Ring/Returns.antt =====
-- When the walk of `GetNeighbors` in src/kvsrv/chr/ring.go ends.
use native.Mathlib.Nat.{mod-eq_of_lt, mod_self}
use mathlib.Core.Path.{subst}
use dynamo_kvsrv_pbs.Prelude.{
  ℕ, zero, suc, ◌+◌, ◌%◌, ◌<◌, ◌≤◌, ◌≡◌, ◌≢◌, ◌⊎◌, ◌∙◌, ap, String, true, false, ◌||◌, none, some,
  List, [], ◌∷◌, ◌++◌, arith, ltb, eqb, eqb_iff, length, contains, contains-append, IsDistinct,
  string_eq, ◌==◌, Bool-cases, inl, inr, ltb→lt, ltb→ge,
}
use dynamo_kvsrv_pbs.Ring.{
  Ring, owner, neighbors_loop, get_neighbors, target_neighbors, delete_from_slice,
}

length-delete_from_slice :
    (ys : List String) (x : String)
    → contains ys x ≡ true
    → length ys ≡ suc (length (delete_from_slice ys x))
unfolding delete_from_slice contains
length-delete_from_slice [] x h = absurd (cc)
length-delete_from_slice (y ∷ ys) x h = elim (Bool-cases (y == x)) [
  | inl e ↦ rw e
  | inr e ↦ rw e (omega (arith, length-delete_from_slice ys x (rw e at h)))
]

contains-delete_from_slice :
    (ys : List String) (x c : String)
    → contains ys c ≡ true
    → (x == c) ≡ false
    → contains (delete_from_slice ys x) c ≡ true
unfolding delete_from_slice contains
contains-delete_from_slice [] x c h n = h
contains-delete_from_slice (y ∷ ys) x c h n = elim (Bool-cases (y == x)) [
  | inl e ↦
      rw e (ground (arith, string_eq.beq_iff y x, string_eq.beq_iff y c, string_eq.beq_iff x c))
  | inr e ↦ rw (e, contains) (ground (arith, contains-delete_from_slice ys x c))
]

-- A list without repetitions whose elements are all in another list is no longer than that one.
length_within :
    (xs ys : List String)
    → IsDistinct xs
    → ((c : String) → contains xs c ≡ true → contains ys c ≡ true)
    → length xs ≤ length ys
unfolding contains
length_within [] ys d h = omega arith
length_within (x ∷ xs) ys d h =
    let first : contains ys x ≡ true = h x (ground (arith, string_eq.beq_iff x x)) in
    let rest = length_within xs (delete_from_slice ys x) d.1 (λ c k.
      contains-delete_from_slice ys x c (h c (ground (arith, k)))
        (ground (arith, k, d.0, string_eq.beq_iff x c))) in
    omega (arith, rest, length-delete_from_slice ys x first)

-- The sectors that `fuel` rounds from `sector` on visit in a ring of `n` sectors.
abbrev IsVisited : ℕ → ℕ → ℕ → ℕ → Type 0
IsVisited n fuel sector s = ((sector ≤ s) × (s < sector + fuel)) ⊎ (s + n < sector + fuel)

-- A walk that runs out of fuel knows too few nodes, and the owners of all sectors that it visited.
record IsStuck (chr : Ring) (target fuel sector : ℕ) (nodes : List String) : Type 0 where
  found : List String
  few : length found < target
  grown : (c : String) → contains nodes c ≡ true → contains found c ≡ true
  seen :
      (s : ℕ)
      → s < chr.num_sectors
      → IsVisited chr.num_sectors fuel sector s
      → contains found (owner chr s) ≡ true

last_in : (nodes : List String) (x : String) → (contains nodes x || contains (x ∷ []) x) ≡ true
unfolding contains
last_in nodes x = ground (arith, string_eq.beq_iff x x)

everywhere : (n sector s : ℕ) → s < n → IsVisited n n sector s
everywhere n sector s h = elim (Bool-cases (ltb s sector)) [
  | inl e ↦ inr (omega (arith, h, ltb→lt s sector e))
  | inr e ↦ let k = ltb→ge s sector e in inl (k, omega (arith, h, k))
]

module _ (chr : Ring) (target : ℕ) where
  abbrev next_sector : ℕ → ℕ
  next_sector sector = (sector + 1) % chr.num_sectors

  next_cases :
      (sector : ℕ)
      → sector < chr.num_sectors
      → ((sector + 1 < chr.num_sectors) × (next_sector sector ≡ sector + 1))
        ⊎ ((sector + 1 ≡ chr.num_sectors) × (next_sector sector ≡ 0))
  next_cases sector h = elim (Bool-cases (ltb (sector + 1) chr.num_sectors)) [
    | inl e ↦ let lt = ltb→lt (sector + 1) chr.num_sectors e in inl (lt, mod-eq_of_lt lt)
    | inr e ↦
        let last : sector + 1 ≡ chr.num_sectors =
          omega (arith, h, ltb→ge (sector + 1) chr.num_sectors e) in
        inr (last, ap (λ z. z % chr.num_sectors) last ∙ mod_self chr.num_sectors)
  ]

  next_in : (sector : ℕ) → sector < chr.num_sectors → next_sector sector < chr.num_sectors
  next_in sector h = elim (next_cases sector h) [
    | inl (lt, e) ↦ omega (arith, lt, e)
    | inr (last, e) ↦ omega (arith, h, e)
  ]

  -- A sector that is visited is the present one, or is visited from the next one on.
  IsVisited-next :
      (fuel sector s : ℕ)
      → sector < chr.num_sectors
      → s < chr.num_sectors
      → IsVisited chr.num_sectors (suc fuel) sector s
      → (sector ≡ s) ⊎ IsVisited chr.num_sectors fuel (next_sector sector) s
  IsVisited-next fuel sector s h k v = elim (Bool-cases (eqb sector s)) [
    | inl e ↦ inl ((eqb_iff sector s).0 e)
    | inr n ↦ elim (next_cases sector h) [
      | inl (lt, e) ↦ elim v [
        | inl (a, b) ↦ inr (inl (ground (arith, a, n, e), omega (arith, b, e)))
        | inr c ↦ inr (inr (omega (arith, c, e)))
      ]
      | inr (last, e) ↦ elim v [
        | inl (a, b) ↦ absurd (ground (arith, a, n, k, last))
        | inr c ↦ inr (inl (omega (arith, e), omega (arith, c, e, last)))
      ]
    ]
  ]

  IsStuck-before :
      (fuel sector : ℕ) (nodes nodes' : List String)
      → sector < chr.num_sectors
      → ((c : String) → contains nodes c ≡ true → contains nodes' c ≡ true)
      → contains nodes' (owner chr sector) ≡ true
      → IsStuck chr target fuel (next_sector sector) nodes'
      → IsStuck chr target (suc fuel) sector nodes
  IsStuck-before fuel sector nodes nodes' h grow here r = record {
    found = r.found;
    few = r.few;
    grown = λ c k. r.grown c (grow c k);
    seen = λ s k v. elim (IsVisited-next fuel sector s h k v) [
      | inl e ↦
          subst (λ x. contains r.found (owner chr x) ≡ true) e (r.grown (owner chr sector) here)
      | inr v' ↦ r.seen s k v'
    ];
  }

  stuck :
      (fuel : ℕ) (nodes : List String) (sectors : List ℕ) (sector : ℕ)
      → sector < chr.num_sectors
      → neighbors_loop fuel chr target nodes sectors sector ≡ none
      → IsStuck chr target fuel sector nodes
  unfolding neighbors_loop
  stuck zero nodes sectors sector h e = elim (Bool-cases (ltb (length nodes) target)) [
    | inr n ↦ let k : some (nodes, sectors) ≡ none = rw (n, neighbors_loop) at e in absurd (cc)
    | inl n ↦ record {
      found = nodes;
      few = ltb→lt (length nodes) target n;
      grown = λ c k. k;
      seen = λ s k v. elim v [
        | inl (a, b) ↦ absurd (omega (arith, a, b))
        | inr c ↦ absurd (omega (arith, c, h))
      ];
    }
  ]
  stuck (suc fuel) nodes sectors sector h e = elim (Bool-cases (ltb (length nodes) target)) [
    | inr n ↦ let k : some (nodes, sectors) ≡ none = rw (n, neighbors_loop) at e in absurd (cc)
    | inl n ↦ elim (Bool-cases (contains nodes (owner chr sector))) [
      | inl c ↦
          IsStuck-before fuel sector nodes nodes h (λ d k. k) c
            (stuck fuel nodes sectors (next_sector sector) (next_in sector h)
              (rw (n, c, neighbors_loop) at e))
      | inr c ↦
          let nodes' = nodes ++ owner chr sector ∷ [] in
          IsStuck-before fuel sector nodes nodes' h (λ d k. rw contains-append (ground (arith, k)))
            (rw contains-append (last_in nodes (owner chr sector)))
            (stuck fuel nodes' (sectors ++ sector ∷ []) (next_sector sector) (next_in sector h)
              (rw (n, c, neighbors_loop) at e))
    ]
  ]

-- GetNeighbors returns: its loop finds the nodes that it asks for within one round for each
-- sector, if the sector is in the ring and at least as many different nodes own a sector.
pub get_neighbors_returns :
    (chr : Ring) (sector : ℕ) (nodes : List String)
    → sector < chr.num_sectors
    → IsDistinct nodes
    → target_neighbors chr ≤ length nodes
    → ((o : String) → contains nodes o ≡ true → (s : ℕ) × (s < chr.num_sectors) × (owner chr s ≡ o))
    → get_neighbors chr sector ≢ none
unfolding get_neighbors
get_neighbors_returns chr sector nodes h d enough own e =
    let r = stuck chr (target_neighbors chr) chr.num_sectors [] [] sector h e in
    let within = length_within nodes r.found d (λ o k.
      let (s, lt, at_s) = own o k in
      subst (λ x. contains r.found x ≡ true) at_s
        (r.seen s lt (everywhere chr.num_sectors sector s lt))) in
    let few = r.few in omega (arith, within, few, enough)
