-- ===== src/Merkle/Diff/Collide.antt =====
-- `findDiffBuckets` of src/kvsrv/anti_entropy.go on the summaries of two trees of hashes: a bucket
-- that it misses comes with a collision of the digest.
use dynamo_kvsrv_pbs.Prelude.{
  ℕ, zero, suc, ◌+◌, ◌*◌, ◌/◌, ◌%◌, ◌-◌, ◌≤◌, ◌<◌, ◌≡◌, ◌≢◌, ◌⊎◌, inl, inr, refl, sym, ◌∙◌, ap,
  Bool, true, false, List, [], ◌∷◌, ◌++◌, some, length, length-append, append_injective, eqb,
  if◌then◌else◌, Bytes, arith, Bool-cases, All, contains, nat_eq,
}
use mathlib.Core.Path.{subst}
use dynamo_kvsrv_pbs.Rpc.Messages.{TreeSummary}
use dynamo_kvsrv_pbs.Merkle.Encode.{little_endian, write_uint64, write_bytes, write_string}
use dynamo_kvsrv_pbs.Merkle.Encode.Lengths.{length-little_endian, length-write_bytes}
use dynamo_kvsrv_pbs.Merkle.Tree.{node_input, empty_hash, empty_mark}
use dynamo_kvsrv_pbs.Merkle.Diff.{same_bytes, find_diff_buckets}
use dynamo_kvsrv_pbs.Merkle.Diff.Visit.{same_bytes_iff, same_or_not, hash_at, children_of, IsPair}
use dynamo_kvsrv_pbs.Merkle.Diff.Loop.{
  Way, here, down, IsDifferent, Runs, Runs-IsDifferent, Runs-Way, find_diff_buckets-Runs,
}

-- Two inputs with one digest.
abbrev pub Collision : (Bytes → Bytes) → Type 0
Collision sha256 = (x : Bytes) × (y : Bytes) × (x ≢ y) × (sha256 x ≡ sha256 y)

write_bytes_injective : (a b : Bytes) → length a ≡ length b → write_bytes a ≡ write_bytes b → a ≡ b
unfolding write_bytes write_uint64
write_bytes_injective a b h e =
    (append_injective (little_endian 8 (length a)) (little_endian 8 (length b)) a b
      (omega (arith, length-little_endian 8 (length a), length-little_endian 8 (length b))) e).1

length-node_input : (l r : Bytes) → length (node_input l r) ≡ 16 + length l + length r
unfolding node_input
length-node_input l r = omega (
  arith,
  length-append (write_bytes l) (write_bytes r),
  length-write_bytes l,
  length-write_bytes r,
)

pub node_input_injective :
    (l r l' r' : Bytes)
    → length l ≡ length l'
    → length r ≡ length r'
    → node_input l r ≡ node_input l' r'
    → (l ≡ l') × (r ≡ r')
unfolding node_input
node_input_injective l r l' r' h k e =
    let p =
      append_injective (write_bytes l) (write_bytes l') (write_bytes r) (write_bytes r')
        (omega (arith, h, length-write_bytes l, length-write_bytes l')) e in
    (write_bytes_injective l l' h p.0, write_bytes_injective r r' k p.1)

-- What `crypto/sha256` documents: a digest has 32 bytes.
abbrev pub HasSize : (Bytes → Bytes) → Type 0
HasSize sha256 = (x : Bytes) → length (sha256 x) ≡ 32

-- The hashes of a tree in breadth-first order: a node above the leaves has the digest of its
-- children's hashes.
pub record IsHashTree (sha256 : Bytes → Bytes) (hashes : List Bytes) : Type 0 where
  pub above :
      (pos : ℕ)
      → pos < length hashes / 2
      → hash_at hashes pos
        ≡ sha256 (node_input (hash_at hashes (pos * 2 + 1)) (hash_at hashes (pos * 2 + 2)))
  pub sizes : (pos : ℕ) → pos < length hashes → length (hash_at hashes pos) ≡ 32

pub length-empty_input : length (write_uint64 0 ++ empty_mark ++ empty_mark) ≡ 34
unfolding write_uint64 little_endian write_bytes write_string
length-empty_input = refl

pushed_child :
    (a b : Bool) (left right child : ℕ)
    → ((child ≡ left) × (a ≡ false)) ⊎ ((child ≡ right) × (b ≡ false))
    → contains ((if a then [] else left ∷ []) ++ (if b then [] else right ∷ [])) child ≡ true
unfolding contains
pushed_child a b left right child (inl (e, f)) = ground (arith, e, f)
pushed_child a b left right child (inr (e, f)) = ground (arith, e, f)

-- A child is the left or the right one of its parent.
parent : (p : ℕ) → (suc p ≡ p / 2 * 2 + 1) ⊎ (suc p ≡ p / 2 * 2 + 2)
parent p = elim (Bool-cases (eqb (p % 2) 0)) [
  | inl e ↦ inl (ground arith)
  | inr e ↦ inr (ground arith)
]

children_of_child :
    {empty : Bytes} (my : List Bytes) (q child : ℕ)
    → hash_at my child ≢ empty
    → (child ≡ q * 2 + 1) ⊎ (child ≡ q * 2 + 2)
    → contains (children_of empty my q) child ≡ true
unfolding same_bytes
children_of_child {empty} my q child n c =
    let kept : same_bytes (hash_at my child) empty ≡ false =
      ground (arith, n, same_bytes_iff (hash_at my child) empty) in
    pushed_child (same_bytes (hash_at my (q * 2 + 1)) empty)
      (same_bytes (hash_at my (q * 2 + 2)) empty) (q * 2 + 1) (q * 2 + 2) child
      (elim c [
        | inl k ↦ inl (k, subst (λ i. same_bytes (hash_at my i) empty ≡ false) k kept)
        | inr k ↦ inr (k, subst (λ i. same_bytes (hash_at my i) empty ≡ false) k kept)
      ])

module _ (sha256 : Bytes → Bytes) (size : HasSize sha256) (my neighbor : List Bytes)
    (p : IsPair my neighbor) (t : IsHashTree sha256 my) (u : IsHashTree sha256 neighbor) where
  -- A child that differs under a parent that does not.
  parent_collides :
      (q : ℕ)
      → q < length my / 2
      → (hash_at my (q * 2 + 1) ≢ hash_at neighbor (q * 2 + 1))
        ⊎ (hash_at my (q * 2 + 2) ≢ hash_at neighbor (q * 2 + 2))
      → hash_at my q ≡ hash_at neighbor q
      → Collision sha256
  parent_collides q h d e =
      let size_of : (i : ℕ) → i < length my → length (hash_at my i) ≡ length (hash_at neighbor i) =
        λ i l. omega (arith, t.sizes i l, u.sizes i (omega (arith, l, p.even_lengths))) in
      let split : node_input (hash_at my (q * 2 + 1)) (hash_at my (q * 2 + 2))
            ≡ node_input (hash_at neighbor (q * 2 + 1)) (hash_at neighbor (q * 2 + 2))
          → (hash_at my (q * 2 + 1) ≡ hash_at neighbor (q * 2 + 1))
            × (hash_at my (q * 2 + 2) ≡ hash_at neighbor (q * 2 + 2)) =
        node_input_injective (hash_at my (q * 2 + 1)) (hash_at my (q * 2 + 2))
          (hash_at neighbor (q * 2 + 1)) (hash_at neighbor (q * 2 + 2))
          (size_of (q * 2 + 1) (omega (arith, h, p.odd)))
          (size_of (q * 2 + 2) (omega (arith, h, p.odd))) in
      (
        node_input (hash_at my (q * 2 + 1)) (hash_at my (q * 2 + 2)),
        node_input (hash_at neighbor (q * 2 + 1)) (hash_at neighbor (q * 2 + 2)),
        λ k. elim d [ inl n ↦ n (split k).0 | inr n ↦ n (split k).1 ],
        sym (t.above q h) ∙ e ∙ u.above q (omega (arith, h, p.even_lengths)),
      )

  -- A node above the leaves with the hash of an empty leaf.
  empty_collides : (q : ℕ) → q < length my / 2 → hash_at my q ≡ empty_hash sha256 → Collision sha256
  unfolding empty_hash
  empty_collides q h e = (
    node_input (hash_at my (q * 2 + 1)) (hash_at my (q * 2 + 2)),
    write_uint64 0 ++ empty_mark ++ empty_mark,
    λ k. omega (
      arith,
      ap length k,
      length-empty_input,
      length-node_input (hash_at my (q * 2 + 1)) (hash_at my (q * 2 + 2)),
      t.sizes (q * 2 + 1) (omega (arith, h, p.odd)),
      t.sizes (q * 2 + 2) (omega (arith, h, p.odd)),
    ),
    sym (t.above q h) ∙ e,
  )

  -- From a node that differs the way up leads to the root, through differences, or to a collision.
  climb :
      (bound pos goal : ℕ)
      → pos ≤ bound
      → pos < length my
      → hash_at my pos ≢ hash_at neighbor pos
      → hash_at my pos ≢ empty_hash sha256
      → Way (empty_hash sha256) my neighbor pos goal
      → Collision sha256 ⊎ Way (empty_hash sha256) my neighbor 0 goal
  climb bound zero goal b l d n w = inr w
  climb zero (suc pos) goal b l d n w = absurd (omega (arith, b))
  climb (suc bound) (suc pos) goal b l d n w =
      let q = pos / 2 in
      let child_differs : (suc pos ≡ q * 2 + 1) ⊎ (suc pos ≡ q * 2 + 2)
          → (hash_at my (q * 2 + 1) ≢ hash_at neighbor (q * 2 + 1))
            ⊎ (hash_at my (q * 2 + 2) ≢ hash_at neighbor (q * 2 + 2)) =
        λ c. elim c [
          | inl k ↦ inl (subst (λ i. hash_at my i ≢ hash_at neighbor i) k d)
          | inr k ↦ inr (subst (λ i. hash_at my i ≢ hash_at neighbor i) k d)
        ] in
      let below : pos / 2 < length my / 2 = omega (arith, l, p.odd) in
      elim (same_or_not (hash_at my q) (hash_at neighbor q)) [
        | inl e ↦ inl (parent_collides q below (child_differs (parent pos)) e)
        | inr e ↦ elim (same_or_not (hash_at my q) (empty_hash sha256)) [
          | inl f ↦ inl (empty_collides q below f)
          | inr f ↦
              climb bound q goal (omega (arith, b)) (omega (arith, l)) e f
                (down q (suc pos) goal e below (children_of_child my q (suc pos) n (parent pos)) w)
        ]
      ]

  missed_collides :
      (buckets : List ℕ) (b : ℕ)
      → Runs (empty_hash sha256) my neighbor [] (0 ∷ []) buckets
      → IsDifferent (empty_hash sha256) my neighbor b
      → hash_at my (b + length my / 2) ≢ empty_hash sha256
      → Collision sha256 ⊎ (contains buckets b ≡ true)
  unfolding contains
  missed_collides buckets b runs d n =
      let goal = b + length my / 2 in
      elim (climb goal goal goal (omega arith) d.0 d.1 n (here goal)) [
        | inl c ↦ inl c
        | inr w ↦
            let back : goal - length my / 2 ≡ b = omega arith in
            inr (
              subst (λ i. contains buckets i ≡ true) back
                (Runs-Way (empty_hash sha256) my neighbor [] (0 ∷ []) buckets 0 goal runs refl w d.1
                  (omega arith)))
      ]

-- findDiffBuckets returns: of two summaries of full trees with the same number of leaves it gives
-- buckets whose leaf hashes differ, and each bucket whose leaf hashes differ, if the leaf of the first
-- summary is not that of an empty bucket, or the digest has a collision.
pub find_diff_buckets_lem :
    (sha256 : Bytes → Bytes) (my_summary neighbor_summary : TreeSummary)
    → HasSize sha256
    → IsPair my_summary.hashes neighbor_summary.hashes
    → IsHashTree sha256 my_summary.hashes
    → IsHashTree sha256 neighbor_summary.hashes
    → (buckets : List ℕ) × (find_diff_buckets (empty_hash sha256) my_summary neighbor_summary
        ≡ some buckets)
      × All (IsDifferent (empty_hash sha256) my_summary.hashes neighbor_summary.hashes) buckets
      × ((b : ℕ)
          → IsDifferent (empty_hash sha256) my_summary.hashes neighbor_summary.hashes b
          → hash_at my_summary.hashes (b + length my_summary.hashes / 2) ≢ empty_hash sha256
          → Collision sha256 ⊎ (contains buckets b ≡ true))
find_diff_buckets_lem sha256 my neighbor size p t u =
    let (buckets, e, runs) = find_diff_buckets-Runs (empty_hash sha256) my neighbor p in
    (
      buckets,
      e,
      Runs-IsDifferent (empty_hash sha256) my.hashes neighbor.hashes [] (0 ∷ []) buckets runs tt,
      λ b. missed_collides sha256 size my.hashes neighbor.hashes p t u buckets b runs,
    )
