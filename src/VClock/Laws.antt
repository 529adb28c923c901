-- ===== src/VClock/Laws.antt =====
-- The operations of src/kvsrv/vclock/vclock.go under the order of clocks.
use dynamo_kvsrv_pbs.Prelude.{
  ℕ, ◌+◌, ◌<◌, max, ◌≡◌, refl, ◌↔◌, true, String, List, [], ◌∷◌, arith, string_eq, contains,
  Bool-cases, inl, inr, if◌then◌else◌, ◌==◌,
}
use native.Mathlib.Nat.{mod-eq_of_lt}
use dynamo_kvsrv_pbs.GoMap.{get, put, get_or, get-put}
use dynamo_kvsrv_pbs.VClock.{
  VClock, Cmp, equal, before, after, concurrent, get_version, get_all_nodes, before_or_equal,
  compare, increment, copy, is_initial, merge, merge_loop, u64_mod,
}
use dynamo_kvsrv_pbs.VClock.Nodes.{get_version_outside}
use dynamo_kvsrv_pbs.VClock.Order.{
  Below, Behind, Compares, compare-Compares, Compares-unique, compare_iff,
}

abbrev pub flip : Cmp → Cmp
flip before = after
flip after = before
flip c = c

module _ (v w : VClock) where
  flip-Compares : (c : Cmp) → Compares c v w → Compares (flip c) w v
  flip-Compares equal h = (h.1, h.0)
  flip-Compares before h = h
  flip-Compares after h = h
  flip-Compares concurrent h = (h.1, h.0)

  -- `Compare` with the clocks exchanged has the mirrored verdict.
  pub compare-flip : compare w v ≡ flip (compare v w)
  compare-flip =
      Compares-unique _ _ w v (compare-Compares w v) (flip-Compares _ (compare-Compares v w))

  Below-of_seen : (c : Cmp) → Compares c v w → before_or_equal c ≡ true → Below v w
  Below-of_seen equal h e = h.0
  Below-of_seen before h e = h.0
  Below-of_seen after h e = cc
  Below-of_seen concurrent h e = cc

  seen_of_Below : (c : Cmp) → Compares c v w → Below v w → before_or_equal c ≡ true
  seen_of_Below equal h b = refl
  seen_of_Below before h b = refl
  seen_of_Below after h b = absurd (omega (arith, b h.1.0))
  seen_of_Below concurrent h b = absurd (omega (arith, b h.1.0))

  pub before_or_equal_iff : (before_or_equal (compare v w) ≡ true) ↔ Below v w
  before_or_equal_iff =
      (Below-of_seen _ (compare-Compares v w), seen_of_Below _ (compare-Compares v w))

pub seen_refl : (v : VClock) → before_or_equal (compare v v) ≡ true
seen_refl v = (before_or_equal_iff v v).1 (λ n. omega arith)

pub seen_trans :
    (u v w : VClock)
    → before_or_equal (compare u v) ≡ true
    → before_or_equal (compare v w) ≡ true
    → before_or_equal (compare u w) ≡ true
seen_trans u v w p q =
    (before_or_equal_iff u w).1
      (λ n. omega (arith, (before_or_equal_iff u v).0 p n, (before_or_equal_iff v w).0 q n))

-- Clocks with the same versions compare alike.
pub compare_ext :
    (v v' w w' : VClock)
    → ((n : String) → get_version v n ≡ get_version v' n)
    → ((n : String) → get_version w n ≡ get_version w' n)
    → compare v w ≡ compare v' w'
compare_ext v v' w w' p q =
    Compares-unique _ _ v' w' (move (compare v w) (compare-Compares v w)) (compare-Compares v' w')
  where
    low : Below v w → Below v' w'
    low h n = omega (arith, h n, p n, q n)

    high : Below w v → Below w' v'
    high h n = omega (arith, h n, p n, q n)

    ahead : Behind v w → Behind v' w'
    ahead (n, h) = (n, omega (arith, h, p n, q n))

    back : Behind w v → Behind w' v'
    back (n, h) = (n, omega (arith, h, p n, q n))

    move : (c : Cmp) → Compares c v w → Compares c v' w'
    move equal (a, b) = (low a, high b)
    move before (a, b) = (low a, ahead b)
    move after (a, b) = (high a, back b)
    move concurrent (a, b) = (ahead a, back b)

get-copy : (v : VClock) (n : String) → get (copy v) n ≡ get v n
unfolding copy get
get-copy [] n = refl
get-copy ((m, k) ∷ rest) n = rw get-put (ground (arith, get-copy rest n))

pub get_version-copy : (v : VClock) (n : String) → get_version (copy v) n ≡ get_version v n
unfolding get_version get_or
get_version-copy v n = rw get-copy

pub compare-copy_left : (v w : VClock) → compare (copy v) w ≡ compare v w
compare-copy_left v w = compare_ext (copy v) v w w (get_version-copy v) (λ n. refl)

pub compare-copy_right : (v w : VClock) → compare v (copy w) ≡ compare v w
compare-copy_right v w = compare_ext v v (copy w) w (λ n. refl) (get_version-copy w)

pub compare-copy : (v w : VClock) → compare (copy v) (copy w) ≡ compare v w
compare-copy v w = compare_ext (copy v) v (copy w) w (get_version-copy v) (get_version-copy w)

pub get_version-put :
    (v : VClock) (n : String) (k : ℕ) (m : String)
    → get_version (put v n k) m ≡ (if n == m then k else get_version v m)
unfolding get_version get_or
get_version-put v n k m = rw get-put (ground arith)

pub get_version-increment :
    (v : VClock) (n m : String)
    → get_version v n + 1 < u64_mod
    → get_version (increment v n) m ≡ (if n == m then get_version v n + 1 else get_version v m)
unfolding increment
get_version-increment v n m h = rw (get_version-put, mod-eq_of_lt h)

-- After Increment of a version that does not overflow, the clock is after what it was.
pub compare-increment :
    (v : VClock) (n : String) → get_version v n + 1 < u64_mod → compare (increment v n) v ≡ after
compare-increment v n h = (compare_iff (increment v n) v after).1 (
  λ m. ground (arith, get_version-increment v n m h, string_eq.beq_iff n m),
  (n, ground (arith, get_version-increment v n n h, string_eq.beq_iff n n)),
)

max_twice : (a b : ℕ) → max (max a b) b ≡ max a b
max_twice a b = omega arith

get_version-merge_loop :
    (v w : VClock) (ns : List String) (n : String)
    → get_version (merge_loop v w ns) n
      ≡ (if contains ns n then max (get_version v n) (get_version w n) else get_version v n)
unfolding merge_loop contains
get_version-merge_loop v w [] n = refl
get_version-merge_loop v w (m ∷ ns) n =
    let v' : VClock = put v m (max (get_version v m) (get_version w m)) in
    rw (get_version-merge_loop v' w ns n, get_version-put)
      (ground (arith, string_eq.beq_iff m n, max_twice (get_version v n) (get_version w n)))

-- `Merge` takes the larger version of every node.
pub get_version-merge :
    (v w : VClock) (n : String)
    → get_version (merge v w) n ≡ max (get_version v n) (get_version w n)
unfolding merge
get_version-merge v w n = elim (Bool-cases (contains (get_all_nodes v w) n)) [
  | inl c ↦ rw (get_version-merge_loop, c)
  | inr c ↦ rw (get_version-merge_loop, c) (omega (arith, get_version_outside v w n c))
]

-- Merge gives the least clock that neither of the two clocks is ahead of.
pub merge_least :
    (v w u : VClock)
    → Below v (merge v w) × Below w (merge v w) × (Below v u → Below w u → Below (merge v w) u)
merge_least v w u = (
  λ n. omega (arith, get_version-merge v w n),
  λ n. omega (arith, get_version-merge v w n),
  λ p q n. omega (arith, get_version-merge v w n, p n, q n),
)

initial_version : (v : VClock) (n : String) → is_initial v ≡ true → get_version v n ≡ 0
unfolding is_initial get_version get_or get
initial_version [] n h = refl
initial_version ((m, k) ∷ rest) n h = ground (arith, initial_version rest n)

-- A clock that `IsInitial` accepts is seen by every clock.
pub is_initial-Below : (v w : VClock) → is_initial v ≡ true → Below v w
is_initial-Below v w h n = omega (arith, initial_version v n h)
