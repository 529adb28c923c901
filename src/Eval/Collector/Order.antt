-- ===== src/Eval/Collector/Order.antt =====
-- The order of the completed operations under `ObserveCompletedWrite` and `ObserveCompletedRead` of
-- src/kvsrv_eval/pbsCollector.go.
use mathlib.Core.Path.{subst}
use dynamo_kvsrv_pbs.Prelude.{
  ℕ, zero, suc, ◌+◌, ◌/◌, ◌<◌, ◌≤◌, ◌≡◌, ◌≢◌, ◌∙◌, refl, ap, Bool, some, List, [], ◌∷◌, arith, ltb,
  length, get_elem?, Bool-cases, inl, inr, ltb→lt, ltb→ge, All,
}
use dynamo_kvsrv_pbs.Eval.Collector.{
  CompletedWrite, CompletedRead, PbsCollector, search_between, insert_at, test_at, search_index,
  observe_completed_write, observe_completed_read,
}

module _ {A : Type 0} (f : A → ℕ) where
  -- In the order of `f`.
  abbrev pub IsOrdered : List A → Type 0
  IsOrdered [] = Unit
  IsOrdered (x ∷ xs) = All (λ y. f x ≤ f y) xs × IsOrdered xs

  -- Before `i` nothing is above k.
  abbrev Low : ℕ → List A → ℕ → Type 0
  Low k xs i = (j : ℕ) (x : A) → j < i → get_elem? xs j ≡ some x → f x ≤ k

  -- From `i` on everything is above k.
  abbrev High : ℕ → List A → ℕ → Type 0
  High k xs i = (j : ℕ) (x : A) → i ≤ j → get_elem? xs j ≡ some x → k < f x

  All-index : (k : ℕ) (xs : List A) → High k xs 0 → All (λ y. k ≤ f y) xs
  All-index k [] h = tt
  All-index k (x ∷ xs) h = (
    omega (arith, h 0 x (omega arith) refl),
    All-index k xs (λ j y p e. h (suc j) y (omega arith) e),
  )

  All-insert_at :
      (P : A → Type 0) (xs : List A) (i : ℕ) (w : A) → All P xs → P w → All P (insert_at xs i w)
  unfolding insert_at
  All-insert_at P xs zero w h p = (p, h)
  All-insert_at P [] (suc i) w h p = (p, tt)
  All-insert_at P (x ∷ xs) (suc i) w h p = (h.0, All-insert_at P xs i w h.1 p)

  IsOrdered-insert_at :
      (xs : List A) (i : ℕ) (w : A)
      → IsOrdered xs
      → Low (f w) xs i
      → High (f w) xs i
      → IsOrdered (insert_at xs i w)
  unfolding insert_at
  IsOrdered-insert_at xs zero w o l h = (All-index (f w) xs h, o)
  IsOrdered-insert_at [] (suc i) w o l h = (tt, tt)
  IsOrdered-insert_at (x ∷ xs) (suc i) w o l h = (
    All-insert_at (λ y. f x ≤ f y) xs i w o.0 (l 0 x (omega arith) refl),
    IsOrdered-insert_at xs i w o.1 (λ j y p e. l (suc j) y (omega (arith, p)) e)
        (λ j y p e. h (suc j) y (omega (arith, p)) e),
  )

  some_injective : (a b : A) → some a ≡ some b → a ≡ b
  some_injective a b e = cc e

  test_at_found :
      (p : A → Bool) (xs : List A) (i : ℕ) (x : A) → get_elem? xs i ≡ some x → test_at p xs i ≡ p x
  test_at_found p xs i x e = rw (e, test_at)

  All-get_elem? :
      (P : A → Type 0) (xs : List A) (j : ℕ) (y : A) → All P xs → get_elem? xs j ≡ some y → P y
  All-get_elem? P [] j y h e = absurd (cc)
  All-get_elem? P (x ∷ xs) zero y h e = subst P (some_injective x y e) h.0
  All-get_elem? P (x ∷ xs) (suc j) y h e = All-get_elem? P xs j y h.1 e

  ordered_index :
      (xs : List A) (i j : ℕ) (x y : A)
      → IsOrdered xs
      → i ≤ j
      → get_elem? xs i ≡ some x
      → get_elem? xs j ≡ some y
      → f x ≤ f y
  ordered_index [] i j x y o h p q = absurd (cc)
  ordered_index (z ∷ xs) zero zero x y o h p q =
      let a = some_injective z x p in let b = some_injective z y q in omega (arith, ap f a, ap f b)
  ordered_index (z ∷ xs) zero (suc j) x y o h p q =
      let a = some_injective z x p in
      let b = All-get_elem? (λ v. f z ≤ f v) xs j y o.0 q in omega (arith, ap f a, b)
  ordered_index (z ∷ xs) (suc i) zero x y o h p q = absurd (omega (arith, h))
  ordered_index (z ∷ xs) (suc i) (suc j) x y o h p q =
      ordered_index xs i j x y o.1 (omega (arith, h)) p q

  get_elem?-in : (xs : List A) (i : ℕ) → i < length xs → (x : A) × (get_elem? xs i ≡ some x)
  get_elem?-in [] i h = absurd (omega (arith, h))
  get_elem?-in (x ∷ xs) zero h = (x, refl)
  get_elem?-in (x ∷ xs) (suc i) h = get_elem?-in xs i (omega (arith, h))

  outside : (xs : List A) (i : ℕ) (x : A) → length xs ≤ i → get_elem? xs i ≢ some x
  outside [] i x h e = cc e
  outside (y ∷ xs) zero x h e = absurd (omega (arith, h))
  outside (y ∷ xs) (suc i) x h e = outside xs i x (omega (arith, h)) e

  search_between_lem :
      (k : ℕ) (xs : List A) (fuel lo hi : ℕ)
      → IsOrdered xs
      → lo ≤ hi
      → hi ≤ lo + fuel
      → hi ≤ length xs
      → Low k xs lo
      → High k xs hi
      → Low k xs (search_between fuel (test_at (λ x. ltb k (f x)) xs) lo hi)
        × High k xs (search_between fuel (test_at (λ x. ltb k (f x)) xs) lo hi)
  unfolding search_between
  search_between_lem k xs zero lo hi o a b n l h = (l, λ j x p e. h j x (omega (arith, a, b, p)) e)
  search_between_lem k xs (suc fuel) lo hi o a b n l h = elim (Bool-cases (ltb lo hi)) [
    | inr t ↦ let ge = ltb→ge lo hi t in rw t (l, λ j x p e. h j x (omega (arith, a, ge, p)) e)
    | inl t ↦
        let lt = ltb→lt lo hi t in
        let mid = (lo + hi) / 2 in
        let (x, e) = get_elem?-in xs mid (omega (arith, lt, n)) in
        let found = test_at_found (λ y. ltb k (f y)) xs mid x e in
        elim (Bool-cases (ltb k (f x))) [
          | inl u ↦
              let above : High k xs mid =
                λ j y p q. omega (arith, ltb→lt k (f x) u, ordered_index xs mid j x y o p e q) in
              rw (t, found ∙ u)
                (search_between_lem k xs fuel lo mid o (omega (arith, lt)) (omega (arith, lt, b))
                  (omega (arith, lt, n)) l above)
          | inr u ↦
              let below : Low k xs (mid + 1) = λ j y p q.
                omega
                  (arith, ltb→ge k (f x) u, ordered_index xs j mid y x o (omega (arith, p)) q e) in
              rw (t, found ∙ u)
                (search_between_lem k xs fuel (mid + 1) hi o (omega (arith, lt))
                  (omega (arith, lt, b)) n below h)
        ]
  ]

  IsOrdered-search :
      (xs : List A) (w : A)
      → IsOrdered xs
      → IsOrdered (insert_at xs (search_index (λ x. ltb (f w) (f x)) xs) w)
  unfolding search_index
  IsOrdered-search xs w o =
      let r =
        search_between_lem (f w) xs (length xs) 0 (length xs) o (omega arith) (omega arith)
          (omega arith) (λ j x p e. absurd (omega (arith, p)))
          (λ j x p e. absurd (outside xs j x p e)) in
      IsOrdered-insert_at xs
        (search_between (length xs) (test_at (λ x. ltb (f w) (f x)) xs) 0 (length xs)) w o r.0 r.1

-- The completed writes of a collector in the order of their commits, and the reads in the order of
-- their returns.
pub record IsChronicle (c : PbsCollector) : Type 0 where
  pub writes : IsOrdered CompletedWrite.committed_at c.writes
  pub reads : IsOrdered CompletedRead.returned_at c.reads

-- Observing a completed write and a completed read keeps the writes in the order of their
-- commits and the reads in the order of their returns.
pub observe_completed-IsChronicle :
    (c : PbsCollector) (w : CompletedWrite) (r : CompletedRead)
    → IsChronicle c
    → IsChronicle (observe_completed_write c w) × IsChronicle (observe_completed_read c r)
unfolding observe_completed_write observe_completed_read
observe_completed-IsChronicle c w r h = (
  record { writes = IsOrdered-search (λ x. x.committed_at) c.writes w h.writes; reads = h.reads },
  record { writes = h.writes; reads = IsOrdered-search (λ x. x.returned_at) c.reads r h.reads },
)
