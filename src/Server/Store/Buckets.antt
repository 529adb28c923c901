-- ===== src/Server/Store/Buckets.antt =====
-- The bucket table of src/kvsrv/server.go: `appendUniqueKey`, `removeKey`, and a bucket written in place.
use dynamo_kvsrv_pbs.Prelude.{
  ℕ, zero, suc, ◌<◌, ◌≡◌, refl, ap, String, not, ◌&&◌, ◌||◌, List, [], ◌∷◌, arith, ◌==◌, string_eq,
  if◌then◌else◌, Bool-cases, inl, inr, contains, IsDistinct, length, eqb, eqb_iff,
}
use dynamo_kvsrv_pbs.Server.{row, update_at, append_unique_key, remove_key}

pub contains-append_unique_key :
    (ks : List String) (k j : String)
    → contains (append_unique_key ks k) j ≡ (k == j || contains ks j)
unfolding append_unique_key contains
contains-append_unique_key [] k j = refl
contains-append_unique_key (x ∷ ks) k j = ground (
  arith,
  contains-append_unique_key ks k j,
  string_eq.beq_iff x k,
  string_eq.beq_iff x j,
  string_eq.beq_iff k j,
)

pub append_unique_key-IsDistinct :
    (ks : List String) (k : String) → IsDistinct ks → IsDistinct (append_unique_key ks k)
unfolding append_unique_key contains
append_unique_key-IsDistinct [] k h = (refl, tt)
append_unique_key-IsDistinct (x ∷ ks) k h = elim (Bool-cases (x == k)) [
  | inl e ↦ rw (e, IsDistinct) h
  | inr e ↦
      rw (e, IsDistinct)
        (
          ground (
            arith,
            contains-append_unique_key ks k x,
            string_eq.beq_iff x k,
            string_eq.beq_iff k x,
          ),
          append_unique_key-IsDistinct ks k h.1,
        )
]

pub contains-remove_key :
    (ks : List String) (k j : String)
    → IsDistinct ks
    → contains (remove_key ks k) j ≡ (not (k == j) && contains ks j)
unfolding remove_key contains
contains-remove_key [] k j h = ground arith
contains-remove_key (x ∷ ks) k j h = ground (
  arith,
  contains-remove_key ks k j h.1,
  string_eq.beq_iff x k,
  string_eq.beq_iff x j,
  string_eq.beq_iff k j,
)

pub remove_key-IsDistinct :
    (ks : List String) (k : String) → IsDistinct ks → IsDistinct (remove_key ks k)
unfolding remove_key contains
remove_key-IsDistinct [] k h = tt
remove_key-IsDistinct (x ∷ ks) k h = elim (Bool-cases (x == k)) [
  | inl e ↦ rw (e, IsDistinct) h.1
  | inr e ↦
      rw (e, IsDistinct)
        (ground (arith, contains-remove_key ks k x h.1), remove_key-IsDistinct ks k h.1)
]

-- The buckets with the entry at one place changed.
pub row-update_at :
    {A : Type 0} (xs : List (List A)) (i : ℕ) (f : List A → List A) (j : ℕ)
    → i < length xs
    → row (update_at xs i f) j ≡ (if eqb i j then f (row xs i) else row xs j)
unfolding update_at
row-update_at [] i f j h = absurd (omega arith)
row-update_at (x ∷ xs) zero f zero h = refl
row-update_at (x ∷ xs) zero f (suc j) h = ground arith
row-update_at (x ∷ xs) (suc i) f zero h = ground arith
row-update_at (x ∷ xs) (suc i) f (suc j) h = ground (arith, row-update_at xs i f j)

pub cell-update_at :
    (rows : List (List (List String))) (s b : ℕ) (g : List String → List String) (s' b' : ℕ)
    → s < length rows
    → b < length (row rows s)
    → row (row (update_at rows s (λ bs. update_at bs b g)) s') b'
      ≡ (if eqb s s' && eqb b b' then g (row (row rows s') b') else row (row rows s') b')
cell-update_at rows s b g s' b' hs hb = elim (Bool-cases (eqb s s')) [
  | inl e ↦
      rw (row-update_at rows s (λ bs. update_at bs b g) s' hs, e)
        (rw (row-update_at (row rows s) b g b' hb, (eqb_iff s s').0 e) (same (row rows s') b b' g))
  | inr e ↦ rw (row-update_at rows s (λ bs. update_at bs b g) s' hs, e)
]
  where
    same :
        (r : List (List String)) (i j : ℕ) (h : List String → List String)
        → (if eqb i j then h (row r i) else row r j) ≡ (if eqb i j then h (row r j) else row r j)
    same r i j h = elim (Bool-cases (eqb i j)) [ inl e ↦ rw (e, (eqb_iff i j).0 e) | inr e ↦ rw e ]

pub length-update_at {ℓ} :
    {A : Type ℓ} (xs : List A) (i : ℕ) (f : A → A) → length (update_at xs i f) ≡ length xs
unfolding update_at
length-update_at [] i f = refl
length-update_at (x ∷ xs) zero f = refl
length-update_at (x ∷ xs) (suc i) f = ap suc (length-update_at xs i f)
