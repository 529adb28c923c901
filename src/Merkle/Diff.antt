-- ===== src/Merkle/Diff.antt =====
-- `findDiffBuckets` of src/kvsrv/anti_entropy.go: the buckets in which two summaries differ. `none` is
-- an index out of range, or a want of fuel.
pub mod Visit
pub mod Loop
pub mod Collide
pub mod Trees
use dynamo_kvsrv_pbs.Prelude.{
  ℕ, zero, suc, ◌+◌, ◌*◌, ◌/◌, ◌-◌, Bool, true, false, List, [], ◌∷◌, ◌++◌, Option, none, some,
  length, get_elem?, ltb, eqb, if◌then◌else◌, Bytes, ◌&&◌,
}
use dynamo_kvsrv_pbs.Rpc.Messages.{TreeSummary}

-- `==` on hashes
unfoldable pub same_bytes : Bytes → Bytes → Bool
same_bytes [] [] = true
same_bytes (x ∷ xs) (y ∷ ys) = eqb x y && same_bytes xs ys
same_bytes _ _ = false

-- What the test of one child appends to the queue. `empty` is the hash that `IsEmptyHash` compares
-- with.
unfoldable pub pushed : Bytes → List Bytes → ℕ → Option (List ℕ)
unfolding same_bytes
pushed empty my_hashes child = elim (get_elem? my_hashes child) [
  | none ↦ none
  | some hash ↦ some (if same_bytes hash empty then [] else child ∷ [])
]

-- What one round of the loop appends to the queue, and to the buckets, where the hashes at `pos`
-- differ.
unfoldable pub visit_diff : Bytes → List Bytes → ℕ → Option (List ℕ × List ℕ)
unfolding pushed
visit_diff empty my_hashes pos =
    if ltb pos (length my_hashes / 2)
    then elim (pushed empty my_hashes (pos * 2 + 1)) [
      | none ↦ none
      | some left ↦ elim (pushed empty my_hashes (pos * 2 + 2)) [
        | none ↦ none
        | some right ↦ some (left ++ right, [])
      ]
    ]
    else some ([], (pos - length my_hashes / 2) ∷ [])

-- One round of the loop.
unfoldable pub visit : Bytes → List Bytes → List Bytes → ℕ → Option (List ℕ × List ℕ)
unfolding visit_diff same_bytes
visit empty my_hashes neighbor_hashes pos = elim (get_elem? my_hashes pos) [
  | none ↦ none
  | some mine ↦ elim (get_elem? neighbor_hashes pos) [
    | none ↦ none
    | some theirs ↦ if same_bytes mine theirs then some ([], []) else visit_diff empty my_hashes pos
  ]
]

-- The loop over the queue of positions.
unfoldable pub diff_loop : ℕ → Bytes → List Bytes → List Bytes → List ℕ → List ℕ → Option (List ℕ)
unfolding visit
diff_loop fuel empty my_hashes neighbor_hashes diff_buckets [] = some diff_buckets
diff_loop zero empty my_hashes neighbor_hashes diff_buckets (pos ∷ queue) = none
diff_loop (suc fuel) empty my_hashes neighbor_hashes diff_buckets (pos ∷ queue) =
    elim (visit empty my_hashes neighbor_hashes pos) [
      | none ↦ none
      | some (children, found) ↦
          diff_loop fuel empty my_hashes neighbor_hashes (diff_buckets ++ found) (queue ++ children)
    ]

-- One round for each node.
unfoldable pub find_diff_buckets : Bytes → TreeSummary → TreeSummary → Option (List ℕ)
unfolding diff_loop
find_diff_buckets empty my_summary neighbor_summary =
    diff_loop (length my_summary.hashes) empty my_summary.hashes neighbor_summary.hashes [] (0 ∷ [])
