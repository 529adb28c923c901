-- ===== src/Merkle/Diff/Visit.antt =====
-- What one round of the loop of `findDiffBuckets` of src/kvsrv/anti_entropy.go does.
use dynamo_kvsrv_pbs.Prelude.{
  ℕ, zero, suc, ◌+◌, ◌*◌, ◌/◌, ◌-◌, ◌≤◌, ◌<◌, ◌≡◌, ◌≢◌, ◌⊎◌, ◌↔◌, ◌∙◌, inl, inr, refl, true, false,
  List, [], ◌∷◌, ◌++◌, some, length, get_elem?, ltb, eqb_iff, if◌then◌else◌, Bytes, arith,
  Bool-cases, ltb→lt, ltb→ge,
}
use mathlib.Core.Option
use dynamo_kvsrv_pbs.Merkle.Diff.{same_bytes, pushed, visit_diff, visit}

pub same_bytes_iff : (xs ys : Bytes) → (same_bytes xs ys ≡ true) ↔ (xs ≡ ys)
unfolding same_bytes
same_bytes_iff [] [] = ground arith
same_bytes_iff [] (y ∷ ys) = (λ h. absurd (cc h), λ h. absurd (cc h))
same_bytes_iff (x ∷ xs) [] = (λ h. absurd (cc h), λ h. absurd (cc h))
same_bytes_iff (x ∷ xs) (y ∷ ys) = ground (arith, eqb_iff x y, same_bytes_iff xs ys)

pub same_or_not : (xs ys : Bytes) → (xs ≡ ys) ⊎ (xs ≢ ys)
same_or_not xs ys = elim (Bool-cases (same_bytes xs ys)) [
  | inl e ↦ inl ((same_bytes_iff xs ys).0 e)
  | inr e ↦ inr (λ p. ground (arith, same_bytes_iff xs ys))
]

pub differs : (xs ys : Bytes) → same_bytes xs ys ≡ false → xs ≢ ys
differs xs ys e p = ground (arith, same_bytes_iff xs ys)

-- `hashes[pos]` where it is in range
abbrev pub hash_at : List Bytes → ℕ → Bytes
hash_at hashes pos = Option.get_or (get_elem? hashes pos) []

pub get_elem?-hash_at :
    (hashes : List Bytes) (pos : ℕ)
    → pos < length hashes
    → get_elem? hashes pos ≡ some (hash_at hashes pos)
get_elem?-hash_at [] pos h = absurd (omega (arith, h))
get_elem?-hash_at (x ∷ hashes) zero h = refl
get_elem?-hash_at (x ∷ hashes) (suc pos) h = get_elem?-hash_at hashes pos (omega (arith, h))

-- The children that a round appends: those whose hash is not `empty`.
abbrev pub children_of : Bytes → List Bytes → ℕ → List ℕ
unfolding same_bytes
children_of empty my pos =
    (if same_bytes (hash_at my (pos * 2 + 1)) empty then [] else (pos * 2 + 1) ∷ [])
    ++ (if same_bytes (hash_at my (pos * 2 + 2)) empty then [] else (pos * 2 + 2) ∷ [])

-- A round at a position appends these children and these buckets.
pub data IsVisit (empty : Bytes) (my neighbor : List Bytes) (pos : ℕ)
    : List ℕ × List ℕ → Type 0 where
  same : hash_at my pos ≡ hash_at neighbor pos → IsVisit empty my neighbor pos ([], [])
  internal :
      hash_at my pos ≢ hash_at neighbor pos
      → pos < length my / 2
      → IsVisit empty my neighbor pos (children_of empty my pos, [])
  bucket :
      hash_at my pos ≢ hash_at neighbor pos
      → length my / 2 ≤ pos
      → IsVisit empty my neighbor pos ([], (pos - length my / 2) ∷ [])

-- Two summaries of the same full tree: one node more than twice as many as are above the leaves.
pub record IsPair (my neighbor : List Bytes) : Type 0 where
  pub odd : length my ≡ suc (length my / 2 * 2)
  pub even_lengths : length neighbor ≡ length my

module _ (empty : Bytes) (my neighbor : List Bytes) where
  pushed-some :
      (child : ℕ) (hash : Bytes)
      → get_elem? my child ≡ some hash
      → pushed empty my child ≡ some (if same_bytes hash empty then [] else child ∷ [])
  unfolding pushed
  pushed-some child hash h = rw (h, pushed) refl

  pushed_lem :
      (child : ℕ)
      → child < length my
      → pushed empty my child
        ≡ some (if same_bytes (hash_at my child) empty then [] else child ∷ [])
  pushed_lem child h = pushed-some child (hash_at my child) (get_elem?-hash_at my child h)

  visit_diff_internal :
      (pos : ℕ)
      → IsPair my neighbor
      → pos < length my / 2
      → ltb pos (length my / 2) ≡ true
      → visit_diff empty my pos ≡ some (children_of empty my pos, [])
  unfolding visit_diff
  visit_diff_internal pos p h l =
      rw
        (
          l,
          pushed_lem (pos * 2 + 1) (omega (arith, h, p.odd)),
          pushed_lem (pos * 2 + 2) (omega (arith, h, p.odd)),
          visit_diff,
        )
        refl

  visit-some :
      (pos : ℕ) (mine theirs : Bytes)
      → get_elem? my pos ≡ some mine
      → get_elem? neighbor pos ≡ some theirs
      → visit empty my neighbor pos
        ≡ (if same_bytes mine theirs then some ([], []) else visit_diff empty my pos)
  unfolding visit
  visit-some pos mine theirs h k = rw (h, k, visit) refl

  pub visit-IsVisit :
      (pos : ℕ)
      → IsPair my neighbor
      → pos < length my
      → (r : List ℕ × List ℕ) × (visit empty my neighbor pos ≡ some r)
        × IsVisit empty my neighbor pos r
  unfolding visit_diff
  visit-IsVisit pos p h =
      let v =
        visit-some pos (hash_at my pos) (hash_at neighbor pos) (get_elem?-hash_at my pos h)
          (get_elem?-hash_at neighbor pos (omega (arith, h, p.even_lengths))) in
      elim (Bool-cases (same_bytes (hash_at my pos) (hash_at neighbor pos))) [
        | inl e ↦ (_, v ∙ rw e refl, same ((same_bytes_iff _ _).0 e))
        | inr e ↦ elim (Bool-cases (ltb pos (length my / 2))) [
          | inl l ↦
              let below = ltb→lt pos (length my / 2) l in
              (_, v ∙ rw e (visit_diff_internal pos p below l), internal (differs _ _ e) below)
          | inr l ↦ (
            _,
            v ∙ rw e (rw (l, visit_diff) refl),
            bucket (differs _ _ e) (ltb→ge pos (length my / 2) l),
          )
        ]
      ]
