-- ===== src/Ring/Location.antt =====
-- `GetLocation` of src/kvsrv/chr/ring.go.
use dynamo_kvsrv_pbs.Prelude.{ℕ, ◌+◌, ◌*◌, ◌/◌, ◌%◌, ◌^◌, ◌≤◌, ◌<◌, ◌≡◌, String, arith}
use dynamo_kvsrv_pbs.Ring.{Ring, get_location}

-- The key's position in a ring of `total` buckets, in integers without a word size.
abbrev pub position : ℕ → ℕ → ℕ
position total hash = total * hash / 2 ^ 32

scaled : (t h : ℕ) → h < 2 ^ 32 → 0 < t → t * h < t * 2 ^ 32
scaled t h p q = grind arith

positive : (a b : ℕ) → 0 < a → 0 < b → 0 < a * b
positive a b p q = grind arith

quotient : (p n b : ℕ) → 0 < b → p < n * b → p / b < n
quotient p n b h q = grind arith

recompose : (p b : ℕ) → 0 < b → (p % b < b) × (p / b * b + p % b ≡ p)
recompose p b h = grind arith

no_wrap :
    (t h : ℕ)
    → h < 2 ^ 32
    → 0 < t
    → t ≤ 2 ^ 32
    → (t * h % 2 ^ 64 / 2 ^ 32 ≡ position t h) × (position t h < t)
no_wrap t h p q r = omega (arith, scaled t h p q)

module _ (chr : Ring) (key : String) where
  -- The location of a key lies in the table of sectors and buckets, and sector * buckets +
  -- bucket is the hash scaled to the number of buckets, if the hash is a uint32, there are
  -- sectors and buckets, and at most 2^32 buckets in all.
  pub get_location_bounds :
      chr.hash_func key < 2 ^ 32
      → 0 < chr.buckets_per_sector
      → 0 < chr.num_sectors
      → chr.num_sectors * chr.buckets_per_sector ≤ 2 ^ 32
      → ((get_location chr key).0 < chr.num_sectors)
        × ((get_location chr key).1 < chr.buckets_per_sector)
        × ((get_location chr key).0 * chr.buckets_per_sector + (get_location chr key).1
            ≡ position (chr.num_sectors * chr.buckets_per_sector) (chr.hash_func key))
  unfolding get_location
  get_location_bounds h b s t =
      let total : ℕ = chr.num_sectors * chr.buckets_per_sector in
      let w = no_wrap total (chr.hash_func key) h (positive _ _ s b) t in
      let r = recompose (position total (chr.hash_func key)) chr.buckets_per_sector b in
      rw w.0 (quotient _ _ _ b w.1, r.0, r.1)
