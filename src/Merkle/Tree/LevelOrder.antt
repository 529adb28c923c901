-- ===== src/Merkle/Tree/LevelOrder.antt =====
-- The hashes that `ToSummary` of src/kvsrv/merkle.go collects from a full tree: which node stands at
-- which position.
use dynamo_kvsrv_pbs.Prelude.{
  ℕ, zero, suc, ◌+◌, ◌*◌, ◌≤◌, ◌<◌, ◌≡◌, refl, sym, ◌∙◌, ap, List, [], ◌∷◌, ◌++◌, length,
  length-append, Bytes, arith, All, All-append,
}
use mathlib.Core.Path.{subst}
use mathlib.Core.List.{append_assoc, append-nil}
use dynamo_kvsrv_pbs.Merkle.Tree.{
  MerkleNode, leaf, half, inner, hash_of, node_input, node_count, next_nodes, summary_loop,
  to_summary,
}
use dynamo_kvsrv_pbs.Merkle.Diff.Visit.{hash_at}

-- The hashes of the leaves, from left to right.
abbrev pub leaf_hashes : MerkleNode → List Bytes
leaf_hashes (leaf _ _ hash) = hash ∷ []
leaf_hashes (half _ _ left _) = leaf_hashes left
leaf_hashes (inner _ _ left right _) = leaf_hashes left ++ leaf_hashes right

abbrev pub all_leaf_hashes : List MerkleNode → List Bytes
all_leaf_hashes [] = []
all_leaf_hashes (t ∷ ts) = leaf_hashes t ++ all_leaf_hashes ts

-- A full tree of a height, whose nodes have digests of 32 bytes, above the leaves those of their
-- children's hashes.
pub data IsFull (sha256 : Bytes → Bytes) : ℕ → MerkleNode → Type 0 where
  full_leaf :
      (sector bucket : ℕ) (hash : Bytes)
      → length hash ≡ 32
      → IsFull sha256 0 (leaf sector bucket hash)
  full_inner :
      (height level sector : ℕ) (left right : MerkleNode) (hash : Bytes)
      → length hash ≡ 32
      → hash ≡ sha256 (node_input (hash_of left) (hash_of right))
      → IsFull sha256 height left
      → IsFull sha256 height right
      → IsFull sha256 (suc height) (inner level sector left right hash)

abbrev queue_count : List MerkleNode → ℕ
queue_count [] = 0
queue_count (t ∷ ts) = node_count t + queue_count ts

queue_count-append :
    (ts us : List MerkleNode) → queue_count (ts ++ us) ≡ queue_count ts + queue_count us
queue_count-append [] us = omega arith
queue_count-append (t ∷ ts) us = omega (arith, queue_count-append ts us)

queue_count-next : (t : MerkleNode) → suc (queue_count (next_nodes t)) ≤ node_count t
unfolding next_nodes node_count
queue_count-next (leaf _ _ _) = omega arith
queue_count-next (half _ _ left _) = omega arith
queue_count-next (inner _ _ left right _) = omega arith

hash_at-cons :
    (x : Bytes) (xs : List Bytes) (i j : ℕ) → i ≡ suc j → hash_at (x ∷ xs) i ≡ hash_at xs j
hash_at-cons x xs i j e = ap (hash_at (x ∷ xs)) e

hash_at-append : (xs ys : List Bytes) (i : ℕ) → i < length xs → hash_at (xs ++ ys) i ≡ hash_at xs i
hash_at-append [] ys i h = absurd (omega (arith, h))
hash_at-append (x ∷ xs) ys zero h = refl
hash_at-append (x ∷ xs) ys (suc i) h = hash_at-append xs ys i (omega (arith, h))

pub hash_at-behind :
    (xs ys : List Bytes) (i : ℕ) → hash_at (xs ++ ys) (length xs + i) ≡ hash_at ys i
hash_at-behind [] ys i = let e : 0 + i ≡ i = omega arith in ap (hash_at ys) e
hash_at-behind (x ∷ xs) ys i =
    hash_at-cons x (xs ++ ys) (suc (length xs) + i) (length xs + i) (omega arith)
    ∙ hash_at-behind xs ys i

-- The hash of a node stands in the loop's output where the node stands in the queue.
queue-hash_at :
    (fuel : ℕ) (ts us : List MerkleNode) (x : MerkleNode)
    → queue_count (ts ++ x ∷ us) ≤ fuel
    → hash_at (summary_loop fuel (ts ++ x ∷ us)) (length ts) ≡ hash_of x
unfolding summary_loop
queue-hash_at zero [] us x h = absurd (omega (arith, h, queue_count-next x))
queue-hash_at zero (t ∷ ts) us x h = absurd (omega (arith, h, queue_count-next t))
queue-hash_at (suc fuel) [] us x h = refl
queue-hash_at (suc fuel) (t ∷ ts) us x h =
    let regroup = append_assoc ts (x ∷ us) (next_nodes t) in
    ap (λ q. hash_at (summary_loop fuel q) (length ts)) regroup
    ∙ queue-hash_at fuel ts (us ++ next_nodes t) x (
        subst (λ q. queue_count q ≤ fuel) regroup
          (omega (arith, h, queue_count-next t, queue_count-append (ts ++ x ∷ us) (next_nodes t))))

next-enough :
    (t : MerkleNode) (ts us : List MerkleNode) (fuel : ℕ)
    → node_count t + queue_count (ts ++ us) ≤ suc fuel
    → queue_count (ts ++ (us ++ next_nodes t)) ≤ fuel
next-enough t ts us fuel h =
    let whole = queue_count-append ts (us ++ next_nodes t) in
    let part = queue_count-append us (next_nodes t) in
    omega (arith, h, whole, part, queue_count-append ts us, queue_count-next t)

all_leaf_hashes-pair :
    (us : List MerkleNode) (left right : MerkleNode) (rest : List Bytes)
    → all_leaf_hashes (us ++ left ∷ right ∷ []) ++ rest
      ≡ all_leaf_hashes us ++ (leaf_hashes left ++ leaf_hashes right ++ rest)
all_leaf_hashes-pair [] left right rest =
    ap (λ q. leaf_hashes left ++ q ++ rest) (append-nil (leaf_hashes right))
all_leaf_hashes-pair (u ∷ us) left right rest =
    append_assoc (leaf_hashes u) (all_leaf_hashes (us ++ left ∷ right ∷ [])) rest
    ∙ ap (leaf_hashes u ++◌) (all_leaf_hashes-pair us left right rest)
    ∙ sym (
        append_assoc (leaf_hashes u) (all_leaf_hashes us)
          (leaf_hashes left ++ leaf_hashes right ++ rest))

-- The loop's output from a queue whose first node has position k, in a tree with these leaves.
pub record IsLevelOrder (sha256 : Bytes → Bytes) (k : ℕ) (leaves out : List Bytes) : Type 0 where
  pub upper : List Bytes
  pub split : out ≡ upper ++ leaves
  pub count : suc (k + length upper) ≡ length leaves
  pub above :
      (i : ℕ)
      → i < length upper
      → hash_at out i
        ≡ sha256 (node_input (hash_at out (i * 2 + k + 1)) (hash_at out (i * 2 + k + 2)))
  pub sizes : All (λ hash. length hash ≡ 32) out

module _ (sha256 : Bytes → Bytes) where
  -- A node above the leaves in front of the rest of the output, which begins k places before its
  -- children.
  in_front :
      (k : ℕ) (hash left right : Bytes) (leaves out : List Bytes)
      → length hash ≡ 32
      → hash ≡ sha256 (node_input left right)
      → hash_at out k ≡ left
      → hash_at out (suc k) ≡ right
      → IsLevelOrder sha256 (suc k) leaves out
      → IsLevelOrder sha256 k leaves (hash ∷ out)
  in_front k hash left right leaves out s e l r o = record {
    upper = hash ∷ o.upper;
    split = ap (hash ∷◌) o.split;
    count = omega (arith, o.count);
    above = go;
    sizes = (s, o.sizes);
  }
    where
      go :
          (i : ℕ)
          → i < suc (length o.upper)
          → hash_at (hash ∷ out) i
            ≡ sha256 (
                node_input
                  (hash_at (hash ∷ out) (i * 2 + k + 1))
                  (hash_at (hash ∷ out) (i * 2 + k + 2)))
      go zero h =
          let p = hash_at-cons hash out (0 * 2 + k + 1) k (omega arith) ∙ l in
          let q = hash_at-cons hash out (0 * 2 + k + 2) (suc k) (omega arith) ∙ r in e ∙ cc (p, q)
      go (suc i) h =
          let p = hash_at-cons hash out (suc i * 2 + k + 1) (i * 2 + suc k + 1) (omega arith) in
          let q = hash_at-cons hash out (suc i * 2 + k + 2) (i * 2 + suc k + 2) (omega arith) in
          o.above i (omega (arith, h)) ∙ cc (p, q)

  leaves_alone :
      (fuel : ℕ) (ts : List MerkleNode)
      → All (IsFull sha256 0) ts
      → queue_count ts ≤ fuel
      → (summary_loop fuel ts ≡ all_leaf_hashes ts)
        × (length ts ≡ length (all_leaf_hashes ts))
        × All (λ hash. length hash ≡ 32) (all_leaf_hashes ts)
  unfolding summary_loop next_nodes node_count
  leaves_alone fuel [] a h = (refl, refl, tt)
  leaves_alone zero (_ ∷ ts) (full_leaf _ _ _ _, a) h = absurd (omega (arith, h))
  leaves_alone (suc fuel) (_ ∷ ts) (full_leaf sector bucket hash s, a) h =
      let r = leaves_alone fuel ts a (omega (arith, h)) in
      (ap (hash ∷◌) (ap (summary_loop fuel) (append-nil ts) ∙ r.0), omega (arith, r.1), (s, r.2))

  -- One round, at the first node of the queue.
  round :
      (fuel k h : ℕ) (t : MerkleNode) (ts us : List MerkleNode)
      → IsFull sha256 (suc h) t
      → length ts + length us ≡ k
      → node_count t + queue_count (ts ++ us) ≤ suc fuel
      → IsLevelOrder sha256
          (suc k)
          (all_leaf_hashes (us ++ next_nodes t) ++ all_leaf_hashes ts)
          (summary_loop fuel (ts ++ (us ++ next_nodes t)))
      → IsLevelOrder sha256 k
          (all_leaf_hashes us ++ (leaf_hashes t ++ all_leaf_hashes ts))
          (hash_of t ∷ summary_loop fuel (ts ++ us ++ next_nodes t))
  unfolding next_nodes node_count
  round fuel k h _ ts us (full_inner _ level sector left right hash s e fl fr) len c o =
      let pair = left ∷ right ∷ [] in
      let enough : queue_count (ts ++ us ++ pair) ≤ fuel =
        omega (arith, c, queue_count-append (ts ++ us) pair) in
      let regroup : ts ++ us ++ pair ≡ (ts ++ us ++ left ∷ []) ++ right ∷ [] =
        sym (append_assoc (ts ++ us) (left ∷ []) (right ∷ [])) in
      let at_left = queue-hash_at fuel (ts ++ us) (right ∷ []) left enough in
      let at_right =
        queue-hash_at fuel (ts ++ us ++ left ∷ []) [] right
          (subst (λ q. queue_count q ≤ fuel) regroup enough) in
      let before = length-append ts us in
      let before_right = length-append (ts ++ us) (left ∷ []) in
      let first : length (ts ++ us) ≡ k = omega (arith, before, len) in
      let second : length (ts ++ us ++ left ∷ []) ≡ suc k = omega (arith, first, before_right) in
      in_front k hash (hash_of left) (hash_of right) _ _ s e
        (subst (λ i. hash_at (summary_loop fuel (ts ++ us ++ pair)) i ≡ hash_of left) first at_left)
        (subst (λ i. hash_at (summary_loop fuel (ts ++ us ++ pair)) i ≡ hash_of right) second
          (subst
            (λ q. hash_at (summary_loop fuel q) (length (ts ++ us ++ left ∷ [])) ≡ hash_of right)
            (sym regroup) at_right))
        (subst (λ q. IsLevelOrder sha256 (suc k) q (summary_loop fuel (ts ++ us ++ pair)))
          (all_leaf_hashes-pair us left right (all_leaf_hashes ts))
          (subst
            (λ q.
              IsLevelOrder sha256 (suc k) (all_leaf_hashes (us ++ pair) ++ all_leaf_hashes ts)
                (summary_loop fuel q))
            (sym (append_assoc ts us pair)) o))

  next_nodes-IsFull :
      (h : ℕ) (t : MerkleNode)
      → IsFull sha256 (suc h) t
      → All (IsFull sha256 h) (next_nodes t) × (length (next_nodes t) ≡ 2)
  unfolding next_nodes
  next_nodes-IsFull h _ (full_inner _ level sector left right hash s e fl fr) =
      ((fl, (fr, tt)), refl)

  -- From a queue of nodes of one height, then of the next lower one.
  summary_loop-IsLevelOrder :
      (fuel k h : ℕ) (ts us : List MerkleNode)
      → All (IsFull sha256 (suc h)) ts
      → All (IsFull sha256 h) us
      → length ts + length us ≡ suc k
      → queue_count (ts ++ us) ≤ fuel
      → IsLevelOrder sha256 k
          (all_leaf_hashes us ++ all_leaf_hashes ts)
          (summary_loop fuel (ts ++ us))
  unfolding summary_loop
  summary_loop-IsLevelOrder zero k h (t ∷ ts) us ft fu len c =
      absurd (omega (arith, c, queue_count-next t))
  summary_loop-IsLevelOrder zero k h [] (t ∷ us) ft fu len c =
      absurd (omega (arith, c, queue_count-next t))
  summary_loop-IsLevelOrder fuel k h [] [] ft fu len c = absurd (omega (arith, len))
  summary_loop-IsLevelOrder (suc fuel) k h (t ∷ ts) us ft fu len c =
      let (children, two) = next_nodes-IsFull h t ft.0 in
      round fuel k h t ts us ft.0 (omega (arith, len)) c (
        summary_loop-IsLevelOrder fuel (suc k) h ts (us ++ next_nodes t) ft.1
          (All-append (IsFull sha256 h) us (next_nodes t) fu children)
          (omega (arith, len, length-append us (next_nodes t), two)) (next-enough t ts us fuel c))
  summary_loop-IsLevelOrder (suc fuel) k zero [] (t ∷ us) ft fu len c =
      subst (λ q. IsLevelOrder sha256 k q (summary_loop (suc fuel) (t ∷ us)))
        (sym (append-nil (all_leaf_hashes (t ∷ us))))
        (let (same, n, s) = leaves_alone (suc fuel) (t ∷ us) fu c in
          record {
            upper = [];
            split = same;
            count = omega (arith, n, len);
            above = λ i h. absurd (omega (arith, h));
            sizes = subst (All (λ hash. length hash ≡ 32)) (sym same) s;
          })
  summary_loop-IsLevelOrder (suc fuel) k (suc h) [] (t ∷ us) ft fu len c =
      let (children, two) = next_nodes-IsFull h t fu.0 in
      subst (λ q. IsLevelOrder sha256 k q (summary_loop (suc fuel) (t ∷ us)))
        (sym (append-nil (all_leaf_hashes (t ∷ us))))
        (subst
          (λ q.
            IsLevelOrder sha256 k (all_leaf_hashes (t ∷ us))
              (hash_of t ∷ summary_loop fuel (q ++ next_nodes t)))
          (append-nil us)
          (round fuel k h t us [] fu.0 (omega (arith, len))
            (omega (arith, c, queue_count-append us []))
            (summary_loop-IsLevelOrder fuel (suc k) h us (next_nodes t) fu.1 children
              (omega (arith, len, two))
              (omega (arith, c, queue_count-next t, queue_count-append us (next_nodes t))))))

-- The hashes of a full tree in the order of `ToSummary`.
pub to_summary-IsLevelOrder :
    (sha256 : Bytes → Bytes) (h : ℕ) (root : MerkleNode)
    → IsFull sha256 h root
    → IsLevelOrder sha256 0 (leaf_hashes root) (to_summary root).hashes
unfolding to_summary
to_summary-IsLevelOrder sha256 h root f =
    subst (λ q. IsLevelOrder sha256 0 q (to_summary root).hashes)
      (append-nil (leaf_hashes root ++ []) ∙ append-nil (leaf_hashes root))
      (summary_loop-IsLevelOrder sha256 (node_count root) 0 h [] (root ∷ []) tt (f, tt) refl
        (omega arith))
