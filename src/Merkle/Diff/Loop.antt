-- ===== src/Merkle/Diff/Loop.antt =====
-- The loop of `findDiffBuckets` of src/kvsrv/anti_entropy.go: that it ends, and which buckets it finds.
use dynamo_kvsrv_pbs.Prelude.{
  ℕ, zero, suc, ◌+◌, ◌*◌, ◌/◌, ◌-◌, ◌≤◌, ◌<◌, ◌≡◌, ◌≢◌, ◌⊎◌, inl, inr, refl, sym, Bool, true, false,
  List, [], ◌∷◌, ◌++◌, some, length, eqb, eqb_iff, if◌then◌else◌, Bytes, arith, Bool-cases, All,
  All-append, contains, contains-append, nat_eq,
}
use mathlib.Core.Path.{subst}
use dynamo_kvsrv_pbs.Rpc.Messages.{TreeSummary}
use dynamo_kvsrv_pbs.Merkle.Diff.{same_bytes, diff_loop, find_diff_buckets}
use dynamo_kvsrv_pbs.Merkle.Diff.Visit.{
  hash_at, children_of, IsVisit, same, internal, bucket, IsPair, visit-IsVisit,
}

-- Increasing positions from lo to hi, below n.
abbrev Rising : ℕ → ℕ → ℕ → List ℕ → Type 0
Rising lo hi n [] = Unit
Rising lo hi n (x ∷ xs) = (lo ≤ x) × (x ≤ hi) × (x < n) × Rising (suc x) hi n xs

Rising-weaken :
    (lo lo' hi hi' n : ℕ) (xs : List ℕ)
    → lo' ≤ lo
    → hi ≤ hi'
    → Rising lo hi n xs
    → Rising lo' hi' n xs
Rising-weaken lo lo' hi hi' n [] l h r = tt
Rising-weaken lo lo' hi hi' n (x ∷ xs) l h r = (
  omega (arith, l, r.0),
  omega (arith, h, r.1),
  r.2,
  Rising-weaken (suc x) (suc x) hi hi' n xs (omega arith) h r.3,
)

Rising-append :
    (lo mid hi n : ℕ) (xs ys : List ℕ)
    → lo ≤ suc mid
    → mid ≤ hi
    → Rising lo mid n xs
    → Rising (suc mid) hi n ys
    → Rising lo hi n (xs ++ ys)
Rising-append lo mid hi n [] ys l h r s = Rising-weaken (suc mid) lo hi hi n ys l (omega arith) s
Rising-append lo mid hi n (x ∷ xs) ys l h r s = (
  r.0,
  omega (arith, h, r.1),
  r.2,
  Rising-append (suc x) mid hi n xs ys (omega (arith, r.1)) h r.3 s,
)

pair-Rising :
    (a b : Bool) (pos n : ℕ)
    → pos * 2 + 2 < n
    → Rising
        (suc (pos * 2))
        (pos * 2 + 2)
        n
        ((if a then [] else (pos * 2 + 1) ∷ []) ++ (if b then [] else (pos * 2 + 2) ∷ []))
pair-Rising true true pos n h = tt
pair-Rising true false pos n h = (omega arith, omega arith, h, tt)
pair-Rising false true pos n h = (omega arith, omega arith, omega (arith, h), tt)
pair-Rising false false pos n h =
    (omega arith, omega arith, omega (arith, h), (omega arith, omega arith, h, tt))

module _ (empty : Bytes) (my neighbor : List Bytes) where
  -- The loop's rounds from these buckets and this queue to the buckets that it returns.
  pub data Runs : List ℕ → List ℕ → List ℕ → Type 0 where
    stop : (found : List ℕ) → Runs found [] found
    round :
        (found queue buckets : List ℕ) (pos : ℕ) (r : List ℕ × List ℕ)
        → pos < length my
        → IsVisit empty my neighbor pos r
        → Runs (found ++ r.1) (queue ++ r.0) buckets
        → Runs found (pos ∷ queue) buckets

  next_queue :
      (pos : ℕ) (r : List ℕ × List ℕ)
      → IsPair my neighbor
      → IsVisit empty my neighbor pos r
      → Rising (suc (pos * 2)) (suc pos * 2) (length my) r.0
  unfolding same_bytes
  next_queue pos _ p (same e) = tt
  next_queue pos _ p (bucket d l) = tt
  next_queue pos _ p (internal d l) =
      Rising-weaken (suc (pos * 2)) (suc (pos * 2)) (pos * 2 + 2) (suc pos * 2) (length my)
        (children_of empty my pos) (omega arith) (omega arith)
        (pair-Rising (same_bytes (hash_at my (pos * 2 + 1)) empty)
          (same_bytes (hash_at my (pos * 2 + 2)) empty) pos (length my) (omega (arith, l, p.odd)))

  -- The loop ends if its fuel brings the first position to the number of hashes.
  loop-Runs :
      (fuel lo : ℕ) (found queue : List ℕ)
      → IsPair my neighbor
      → length my ≤ lo + fuel
      → Rising lo (lo * 2) (length my) queue
      → (buckets : List ℕ) × (diff_loop fuel empty my neighbor found queue ≡ some buckets)
        × Runs found queue buckets
  unfolding diff_loop
  loop-Runs fuel lo found [] p f h = (found, refl, stop found)
  loop-Runs zero lo found (pos ∷ queue) p f h = absurd (omega (arith, f, h.0, h.2))
  loop-Runs (suc fuel) lo found (pos ∷ queue) p f h =
      let (r, e, v) = visit-IsVisit empty my neighbor pos p h.2 in
      let (buckets, k, runs) =
        loop-Runs fuel (suc pos) (found ++ r.1) (queue ++ r.0) p (omega (arith, f, h.0)) (
          Rising-append (suc pos) (pos * 2) (suc pos * 2) (length my) queue r.0 (omega arith)
            (omega arith)
            (Rising-weaken (suc pos) (suc pos) (lo * 2) (pos * 2) (length my) queue (omega arith)
              (omega (arith, h.0)) h.3)
            (next_queue pos r p v)) in
      (buckets, rw (e, diff_loop) k, round found queue buckets pos r h.2 v runs)

  -- A bucket of the summaries, with different leaf hashes.
  abbrev pub IsDifferent : ℕ → Type 0
  IsDifferent b =
      (b + length my / 2 < length my)
      × (hash_at my (b + length my / 2) ≢ hash_at neighbor (b + length my / 2))

  visit-IsDifferent :
      (pos : ℕ) (r : List ℕ × List ℕ)
      → pos < length my
      → IsVisit empty my neighbor pos r
      → All IsDifferent r.1
  visit-IsDifferent pos _ h (same e) = tt
  visit-IsDifferent pos _ h (internal d l) = tt
  visit-IsDifferent pos _ h (bucket d l) =
      let back : pos - length my / 2 + length my / 2 ≡ pos = omega (arith, l) in
      ((omega (arith, h, l), λ e. d (subst (λ q. hash_at my q ≡ hash_at neighbor q) back e)), tt)

  pub Runs-IsDifferent :
      (found queue buckets : List ℕ)
      → Runs found queue buckets
      → All IsDifferent found
      → All IsDifferent buckets
  Runs-IsDifferent _ _ _ (stop found) h = h
  Runs-IsDifferent _ _ _ (round found queue buckets pos r l v runs) h =
      Runs-IsDifferent (found ++ r.1) (queue ++ r.0) buckets runs
        (All-append IsDifferent found r.1 h (visit-IsDifferent pos r l v))

  Runs-keeps :
      (found queue buckets : List ℕ) (b : ℕ)
      → Runs found queue buckets
      → contains found b ≡ true
      → contains buckets b ≡ true
  Runs-keeps _ _ _ b (stop found) h = h
  Runs-keeps _ _ _ b (round found queue buckets pos r l v runs) h =
      Runs-keeps (found ++ r.1) (queue ++ r.0) buckets b runs
        (ground (arith, contains-append found r.1 b, h))

  -- The way down from a position to another, through differences, along children that are appended.
  pub data Way : ℕ → ℕ → Type 0 where
    here : (p : ℕ) → Way p p
    down :
        (p child q : ℕ)
        → hash_at my p ≢ hash_at neighbor p
        → p < length my / 2
        → contains (children_of empty my p) child ≡ true
        → Way child q
        → Way p q

  -- What one visit does with a way that starts at its position.
  visit-Way :
      (found : List ℕ) (pos goal : ℕ) (r : List ℕ × List ℕ)
      → IsVisit empty my neighbor pos r
      → Way pos goal
      → hash_at my goal ≢ hash_at neighbor goal
      → length my / 2 ≤ goal
      → (contains (found ++ r.1) (goal - length my / 2) ≡ true)
        ⊎ ((child : ℕ) × (contains r.0 child ≡ true) × Way child goal)
  unfolding contains
  visit-Way found _ _ _ (same e) (here pos) d l = absurd (d e)
  visit-Way found _ _ _ (internal e h) (here pos) d l = absurd (omega (arith, h, l))
  visit-Way found _ _ _ (bucket e h) (here pos) d l = inl (
      ground (
        arith,
        contains-append found ((pos - length my / 2) ∷ []) (pos - length my / 2),
        eqb_iff (pos - length my / 2) (pos - length my / 2),
      ))
  visit-Way found _ _ _ (same e) (down pos child goal d' h c w) d l = absurd (d' e)
  visit-Way found _ _ _ (internal e h') (down pos child goal d' h c w) d l = inr (child, c, w)
  visit-Way found _ _ _ (bucket e h') (down pos child goal d' h c w) d l =
      absurd (omega (arith, h, h'))

  -- A leaf that differs is found if a way leads to it from the queue.
  pub Runs-Way :
      (found queue buckets : List ℕ) (p goal : ℕ)
      → Runs found queue buckets
      → contains queue p ≡ true
      → Way p goal
      → hash_at my goal ≢ hash_at neighbor goal
      → length my / 2 ≤ goal
      → contains buckets (goal - length my / 2) ≡ true
  unfolding contains
  Runs-Way _ _ _ p goal (stop found) c w d l = absurd (cc c)
  Runs-Way _ _ _ p goal (round found queue buckets pos r h v runs) c w d l =
      elim (Bool-cases (eqb pos p)) [
        | inr e ↦
            Runs-Way (found ++ r.1) (queue ++ r.0) buckets p goal runs
              (ground (arith, contains-append queue r.0 p, c, e)) w d l
        | inl e ↦
            elim (visit-Way found pos goal r v
              (subst (λ q. Way q goal) (sym ((eqb_iff pos p).0 e)) w) d l) [
                | inl k ↦ Runs-keeps (found ++ r.1) (queue ++ r.0) buckets _ runs k
                | inr (child, k, w') ↦
                    Runs-Way (found ++ r.1) (queue ++ r.0) buckets child goal runs
                      (ground (arith, contains-append queue r.0 child, k)) w' d l
              ]
      ]

-- findDiffBuckets returns, within one round for each hash and without an index out of range, if the
-- two summaries are of the same full tree, that is with one hash more than twice as many as are above
-- the leaves.
pub find_diff_buckets-Runs :
    (empty : Bytes) (my_summary neighbor_summary : TreeSummary)
    → IsPair my_summary.hashes neighbor_summary.hashes
    → (buckets : List ℕ) × (find_diff_buckets empty my_summary neighbor_summary ≡ some buckets)
      × Runs empty my_summary.hashes neighbor_summary.hashes [] (0 ∷ []) buckets
unfolding find_diff_buckets
find_diff_buckets-Runs empty my neighbor p =
    loop-Runs empty my.hashes neighbor.hashes (length my.hashes) 0 [] (0 ∷ []) p (omega arith)
      (omega arith, omega arith, omega (arith, p.odd), tt)
