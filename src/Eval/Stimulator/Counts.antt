-- ===== src/Eval/Stimulator/Counts.antt =====
-- Counts of sorted lists, for the order statistics of src/kvsrv_eval/stimulator.go.
use dynamo_kvsrv_pbs.Prelude.{
  ℕ, zero, suc, ◌+◌, ◌≤◌, ◌≡◌, inl, inr, refl, Bool, some, List, [], ◌∷◌, length, get_elem?, ltb,
  leb, ltb→lt, ltb→ge, if◌then◌else◌, sort_by, sort_onto, insert_sorted, arith, Bool-cases, All,
  less64, less64_small, ◌<◌, ◌^◌,
}
use dynamo_kvsrv_pbs.Eval.Stimulator.{take}

-- How many elements pass the test.
abbrev pub count {ℓ} : {A : Type ℓ} → (A → Bool) → List A → ℕ
count p [] = 0
count p (x ∷ xs) = (if p x then 1 else 0) + count p xs

module _ {ℓ} {A : Type ℓ} (less : A → A → Bool) (p : A → Bool) where
  pub count-insert_sorted :
      (x : A) (ys : List A) → count p (insert_sorted less x ys) ≡ count p (x ∷ ys)
  unfolding insert_sorted
  count-insert_sorted x [] = refl
  count-insert_sorted x (y ∷ ys) = elim (Bool-cases (less x y)) [
    | inl e ↦ rw e refl
    | inr e ↦ rw e (omega (arith, count-insert_sorted x ys))
  ]

  pub count-sort_onto :
      (sorted xs : List A) → count p (sort_onto less sorted xs) ≡ count p sorted + count p xs
  unfolding sort_onto
  count-sort_onto sorted [] = omega arith
  count-sort_onto sorted (x ∷ xs) =
      omega (arith, count-sort_onto (insert_sorted less x sorted) xs, count-insert_sorted x sorted)

  -- A sort changes no count.
  pub count-sort_by : (xs : List A) → count p (sort_by less xs) ≡ count p xs
  unfolding sort_by
  count-sort_by xs = omega (arith, count-sort_onto [] xs)

pub count-take :
    {A : Type 0} (p : A → Bool) (k : ℕ) (xs : List A) → count p (take k xs) ≤ count p xs
count-take p zero xs = omega arith
count-take p (suc k) [] = omega arith
count-take p (suc k) (x ∷ xs) = omega (arith, count-take p k xs)

pub length-take : {A : Type 0} (k : ℕ) (xs : List A) → k ≤ length xs → length (take k xs) ≡ k
length-take zero xs h = refl
length-take (suc k) [] h = absurd (omega (arith, h))
length-take (suc k) (x ∷ xs) h = omega (arith, length-take k xs (omega (arith, h)))

module _ {ℓ κ} {A : Type ℓ} (P : A → Type κ) (less : A → A → Bool) where
  All-insert_sorted : (x : A) (ys : List A) → P x → All P ys → All P (insert_sorted less x ys)
  unfolding insert_sorted
  All-insert_sorted x [] h a = (h, tt)
  All-insert_sorted x (y ∷ ys) h a = elim (Bool-cases (less x y)) [
    | inl e ↦ rw e (h, a)
    | inr e ↦ rw e (a.0, All-insert_sorted x ys h a.1)
  ]

  pub All-sort_onto :
      (sorted xs : List A) → All P sorted → All P xs → All P (sort_onto less sorted xs)
  unfolding sort_onto
  All-sort_onto sorted [] a b = a
  All-sort_onto sorted (x ∷ xs) a b =
      All-sort_onto (insert_sorted less x sorted) xs (All-insert_sorted x sorted b.0 a) b.1

-- On numbers that are not negative the signed order sorts as the order of ℕ does.
insert_sorted-less64 :
    (x : ℕ) (ys : List ℕ)
    → x < 2 ^ 63
    → All (λ y. y < 2 ^ 63) ys
    → insert_sorted less64 x ys ≡ insert_sorted ltb x ys
unfolding insert_sorted
insert_sorted-less64 x [] h a = refl
insert_sorted-less64 x (y ∷ ys) h a =
    rw (less64_small x y h a.0, insert_sorted-less64 x ys h a.1) refl

pub sort_onto-less64 :
    (sorted xs : List ℕ)
    → All (λ y. y < 2 ^ 63) sorted
    → All (λ y. y < 2 ^ 63) xs
    → sort_onto less64 sorted xs ≡ sort_onto ltb sorted xs
unfolding sort_onto
sort_onto-less64 sorted [] a b = refl
sort_onto-less64 sorted (x ∷ xs) a b = rw (insert_sorted-less64 x sorted b.0 a) (
    sort_onto-less64 (insert_sorted ltb x sorted) xs
      (All-insert_sorted (λ y. y < 2 ^ 63) ltb x sorted b.0 a) b.1)

-- From lo upwards.
abbrev pub Ascends : ℕ → List ℕ → Type 0
Ascends lo [] = Unit
Ascends lo (x ∷ xs) = (lo ≤ x) × Ascends x xs

pub Ascends-insert_sorted :
    (lo x : ℕ) (ys : List ℕ) → lo ≤ x → Ascends lo ys → Ascends lo (insert_sorted ltb x ys)
unfolding insert_sorted
Ascends-insert_sorted lo x [] h a = (h, tt)
Ascends-insert_sorted lo x (y ∷ ys) h a = elim (Bool-cases (ltb x y)) [
  | inl e ↦ rw e (h, (omega (arith, ltb→lt x y e), a.1))
  | inr e ↦ rw e (a.0, Ascends-insert_sorted y x ys (ltb→ge x y e) a.1)
]

pub Ascends-sort_onto :
    (sorted xs : List ℕ) → Ascends 0 sorted → Ascends 0 (sort_onto ltb sorted xs)
unfolding sort_onto
Ascends-sort_onto sorted [] a = a
Ascends-sort_onto sorted (x ∷ xs) a =
    Ascends-sort_onto (insert_sorted ltb x sorted) xs
      (Ascends-insert_sorted 0 x sorted (omega arith) a)

-- As many elements are at most the one at n as stand before it, and one more.
pub count-Ascends :
    (lo n v : ℕ) (xs : List ℕ)
    → Ascends lo xs
    → get_elem? xs n ≡ some v
    → (lo ≤ v) × (suc n ≤ count (λ x. leb x v) xs)
count-Ascends lo n v [] a e = absurd (cc e)
count-Ascends lo zero v (x ∷ xs) a e =
    let same : x ≡ v = cc e in (omega (arith, a.0, same), ground (arith, same))
count-Ascends lo (suc n) v (x ∷ xs) a e =
    let r = count-Ascends x n v xs a.1 e in (omega (arith, a.0, r.0), ground (arith, r.0, r.1))
