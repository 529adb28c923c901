-- ===== src/GoMap.antt =====
-- Go's `map[K]V`: an association list, whose order is the order in which `range` visits the keys.
use dynamo_kvsrv_pbs.Prelude.{
  ◌≡◌, refl, Bool, true, false, Option, none, some, List, [], ◌∷◌, arith, map, Eq, ◌==◌,
  if◌then◌else◌, contains,
}
use mathlib.Core.Option

abbrev pub GoMap {ℓ} : Type ℓ → Type ℓ → Type ℓ
GoMap K V = List (K × V)

-- The keys in the order of `range m`.
abbrev pub keys {ℓ} : {K V : Type ℓ} → GoMap K V → List K
keys = map (λ e. e.0)

module _ {ℓ} {K V : Type ℓ} ⦃e : Eq K⦄ where
  -- `v, ok := m[k]`
  unfoldable pub get : GoMap K V → K → Option V
  get [] k = none
  get ((j, v) ∷ m) k = if j == k then some v else get m k

  -- `m[k] = v`
  unfoldable pub put : GoMap K V → K → V → GoMap K V
  put [] k v = (k, v) ∷ []
  put ((j, w) ∷ m) k v = if j == k then (k, v) ∷ m else (j, w) ∷ put m k v

  -- `delete(m, k)`
  unfoldable pub delete : GoMap K V → K → GoMap K V
  delete [] k = []
  delete ((j, w) ∷ m) k = let rest = delete m k in if j == k then rest else (j, w) ∷ rest

  -- `m[k]`, with the zero value of V
  unfoldable pub get_or : GoMap K V → K → V → V
  get_or m k d = Option.get_or (get m k) d

  -- `_, ok := m[k]`
  unfoldable pub has : GoMap K V → K → Bool
  has m k = elim (get m k) [ none ↦ false | some _ ↦ true ]

  pub get-put :
      (m : GoMap K V) (k : K) (v : V) (j : K)
      → get (put m k v) j ≡ (if k == j then some v else get m j)
  unfolding get put
  get-put [] k v j = refl
  get-put ((i, w) ∷ m) k v j =
      ground (arith, e.beq_iff k j, e.beq_iff i k, e.beq_iff i j, get-put m k v j)

  pub get-delete :
      (m : GoMap K V) (k : K) (j : K) → get (delete m k) j ≡ (if k == j then none else get m j)
  unfolding get delete
  get-delete [] k j = ground arith
  get-delete ((i, w) ∷ m) k j =
      ground (arith, e.beq_iff k j, e.beq_iff i k, e.beq_iff i j, get-delete m k j)

  pub get-put_self : (m : GoMap K V) (k : K) (v : V) → get (put m k v) k ≡ some v
  get-put_self m k v = rw (get-put, (e.beq_iff k k).1 refl)

  -- `range m` visits the keys that a lookup finds.
  pub has-contains : (m : GoMap K V) (k : K) → contains (keys m) k ≡ has m k
  unfolding contains has get
  has-contains [] k = refl
  has-contains ((i, w) ∷ m) k = ground (arith, has-contains m k)
