-- ===== src/Tests/Trees.antt =====
-- The theorems on Merkle trees and anti-entropy on concrete inputs.
use dynamo_kvsrv_pbs.Prelude.{
  ℕ, zero, suc, ◌+◌, ◌^◌, ◌<◌, ◌≡◌, ◌≢◌, ◌⊎◌, inr, if◌then◌else◌, refl, ap, String, Bool, true,
  false, List, [], ◌∷◌, ◌++◌, Option, none, some, length, get_elem?, Bytes, All, arith, contains,
  ◌==◌, string_eq, nat_eq,
}
use dynamo_kvsrv_pbs.GoMap.{get, put, get_or}
use dynamo_kvsrv_pbs.Rpc.Object.{Object}
use dynamo_kvsrv_pbs.Merkle.Encode.{little_endian}
use dynamo_kvsrv_pbs.Merkle.Tree.{SectorSnapshot, leaf_input, sorted_keys}
use dynamo_kvsrv_pbs.Merkle.Encode.Injective.{ObjectView}
use dynamo_kvsrv_pbs.Merkle.Tree.Input.{IsFitBucket, view_bucket, leaf_input_injective}
use dynamo_kvsrv_pbs.Merkle.Diff.Collide.{HasSize, Collision}
use dynamo_kvsrv_pbs.Merkle.Diff.Trees.{
  IsFound, keys_at, siblings_at, input_at, find_diff_buckets_sound, find_diff_buckets_finds,
}
use dynamo_kvsrv_pbs.Prelude.{is_sorted, sort_by}
use dynamo_kvsrv_pbs.Rpc.Object.{copy_objects, is_ordered}
use dynamo_kvsrv_pbs.VClock.{to_vc_entries}
use dynamo_kvsrv_pbs.Merkle.Encode.{ordered, write_kv_pair}
use dynamo_kvsrv_pbs.Merkle.Tree.{leaf, to_summary, empty_hash, build_merkle_tree_from_snapshot}
use dynamo_kvsrv_pbs.Rpc.Messages.{ok, RepairGetDiffArgs, RepairGetDiffReply}
use dynamo_kvsrv_pbs.Server.{KvServer, get_siblings, siblings_of, get_keys_from_bucket}
use dynamo_kvsrv_pbs.Server.AntiEntropy.{
  repair_get_diff, reconcile_request, reconcile, repair_all, flush_dirty_merkle, snapshot_sector,
  get_merkle_root, build_merkle_tree,
}
use dynamo_kvsrv_pbs.Server.AntiEntropy.Converge.{Holds, Keeps}
use dynamo_kvsrv_pbs.Server.AntiEntropy.Exchange.{IsFilled, IsAgreed, reconcile_converges}
use dynamo_kvsrv_pbs.Server.AntiEntropy.Buckets.{IsCurrent, bucket_view, reconcile_bucket}
use dynamo_kvsrv_pbs.Server.AntiEntropy.Refresh.{flush_dirty_merkle_lem}
use dynamo_kvsrv_pbs.Tests.Data.{left, right, server}

-- A digest that is 32 bytes of its input, from the first version's value on.
abbrev behind : ℕ → Bytes → Bytes
behind zero bytes = bytes
behind (suc n) [] = []
behind (suc n) (b ∷ bytes) = behind n bytes

abbrev padded : ℕ → Bytes → Bytes
padded zero bytes = []
padded (suc n) [] = 0 ∷ padded n []
padded (suc n) (b ∷ bytes) = b ∷ padded n bytes

abbrev digest : Bytes → Bytes
digest bytes = padded 32 (behind 33 bytes)

length-padded : (n : ℕ) (bytes : Bytes) → length (padded n bytes) ≡ n
length-padded zero bytes = refl
length-padded (suc n) [] = omega (arith, length-padded n [])
length-padded (suc n) (b ∷ bytes) = omega (arith, length-padded n bytes)

digest-HasSize : HasSize digest
digest-HasSize bytes = length-padded 32 (behind 33 bytes)

-- Two buckets, of which the first differs.
abbrev mine : SectorSnapshot
mine = record { keys_per_bucket = ("k" ∷ []) ∷ [] ∷ []; siblings = ("k", right ∷ []) ∷ [] }

abbrev theirs : SectorSnapshot
theirs = record { keys_per_bucket = [] ∷ [] ∷ []; siblings = [] }

mine-IsFitBucket : IsFitBucket (siblings_at mine) (keys_at mine 0)
unfolding dynamo_kvsrv_pbs.Merkle.Tree.sorted_keys dynamo_kvsrv_pbs.Prelude.is_sorted get_or get
    dynamo_kvsrv_pbs.Merkle.Encode.ordered dynamo_kvsrv_pbs.Rpc.Object.is_ordered
    dynamo_kvsrv_pbs.VClock.to_vc_entries dynamo_kvsrv_pbs.Prelude.sort_by
mine-IsFitBucket = record {
  count = omega arith;
  pairs = (
    (
      omega arith,
      omega arith,
      ((omega arith, omega arith, omega arith, ((omega arith, omega arith), tt)), tt),
    ),
    tt,
  );
}

theirs-IsFitBucket : IsFitBucket (siblings_at theirs) (keys_at theirs 0)
unfolding dynamo_kvsrv_pbs.Merkle.Tree.sorted_keys dynamo_kvsrv_pbs.Prelude.is_sorted
theirs-IsFitBucket = record { count = omega arith; pairs = tt }

views_differ :
    view_bucket (siblings_at mine) (keys_at mine 0)
    ≢ view_bucket (siblings_at theirs) (keys_at theirs 0)
unfolding sorted_keys is_sorted sort_by get_or get ordered is_ordered to_vc_entries
views_differ e = let n : 1 ≡ 0 = ap length e in absurd (omega (arith, n))

find_diff_buckets_sound_example :
    (buckets : List ℕ) × IsFound digest 0 mine theirs buckets
    × All (λ b. (b < 2 ^ 1) × (input_at mine b ≢ input_at theirs b)) buckets
find_diff_buckets_sound_example =
    find_diff_buckets_sound digest 1 0 mine theirs digest-HasSize refl refl

find_diff_buckets_finds_example :
    (buckets : List ℕ) × IsFound digest 0 mine theirs buckets
    × (Collision digest ⊎ (contains buckets 0 ≡ true))
find_diff_buckets_finds_example =
    find_diff_buckets_finds digest 1 0 mine theirs 0 digest-HasSize refl refl (omega arith)
      mine-IsFitBucket theirs-IsFitBucket (λ e. cc e) views_differ

-- The same keys in another order.
abbrev shuffled : SectorSnapshot
shuffled = record {
  keys_per_bucket = ("k" ∷ "a" ∷ []) ∷ [];
  siblings = ("k", right ∷ []) ∷ ("a", left ∷ []) ∷ [];
}

abbrev ordered_keys : SectorSnapshot
ordered_keys = record shuffled { keys_per_bucket = ("a" ∷ "k" ∷ []) ∷ [] }

shuffled-IsFitBucket : IsFitBucket (siblings_at shuffled) (keys_at shuffled 0)
unfolding sorted_keys is_sorted sort_by get_or get ordered is_ordered to_vc_entries
shuffled-IsFitBucket = record {
  count = omega arith;
  pairs = (
    (
      omega arith,
      omega arith,
      ((omega arith, omega arith, omega arith, ((omega arith, omega arith), tt)), tt),
    ),
    (
      (
        omega arith,
        omega arith,
        ((omega arith, omega arith, omega arith, ((omega arith, omega arith), tt)), tt),
      ),
      tt,
    ),
  );
}

ordered-IsFitBucket : IsFitBucket (siblings_at ordered_keys) (keys_at ordered_keys 0)
unfolding sorted_keys is_sorted sort_by get_or get ordered is_ordered to_vc_entries
ordered-IsFitBucket = record {
  count = omega arith;
  pairs = (
    (
      omega arith,
      omega arith,
      ((omega arith, omega arith, omega arith, ((omega arith, omega arith), tt)), tt),
    ),
    (
      (
        omega arith,
        omega arith,
        ((omega arith, omega arith, omega arith, ((omega arith, omega arith), tt)), tt),
      ),
      tt,
    ),
  );
}

same_input :
    leaf_input (siblings_at shuffled) (keys_at shuffled 0)
    ≡ leaf_input (siblings_at ordered_keys) (keys_at ordered_keys 0)
unfolding leaf_input dynamo_kvsrv_pbs.Prelude.is_sorted dynamo_kvsrv_pbs.Prelude.sort_by sorted_keys
    get_or get
same_input = refl

leaf_input_injective_example :
    view_bucket (siblings_at shuffled) (keys_at shuffled 0)
    ≡ view_bucket (siblings_at ordered_keys) (keys_at ordered_keys 0)
leaf_input_injective_example =
    leaf_input_injective (siblings_at shuffled) (siblings_at ordered_keys) (keys_at shuffled 0)
      (keys_at ordered_keys 0) shuffled-IsFitBucket ordered-IsFitBucket same_input

-- Server a holds `left` and server b `right` under the key k.
abbrev b : KvServer
b = record server {
  merkle_roots = (0, leaf 0 0 (digest (leaf_input (λ key. right ∷ []) ("k" ∷ [])))) ∷ [];
}

abbrev a : KvServer
a = record server {
  kv = ("k", left ∷ []) ∷ [];
  merkle_roots = (0, leaf 0 0 (digest (leaf_input (λ key. left ∷ []) ("k" ∷ [])))) ∷ [];
}

a-IsCurrent : IsCurrent digest 0 a
unfolding build_merkle_tree build_merkle_tree_from_snapshot get_merkle_root get get_or put
    snapshot_sector siblings_of copy_objects leaf_input write_kv_pair sorted_keys is_sorted sort_by
    ordered is_ordered to_vc_entries dynamo_kvsrv_pbs.Rpc.Context.copy dynamo_kvsrv_pbs.VClock.copy
a-IsCurrent = refl

b-IsCurrent : IsCurrent digest 0 b
unfolding build_merkle_tree build_merkle_tree_from_snapshot get_merkle_root get get_or put
    snapshot_sector siblings_of copy_objects leaf_input write_kv_pair sorted_keys is_sorted sort_by
    ordered is_ordered to_vc_entries dynamo_kvsrv_pbs.Rpc.Context.copy dynamo_kvsrv_pbs.VClock.copy
b-IsCurrent = refl

k-IsFilled : (key : String) → ("k" == key) ≡ true → siblings_of b key ≢ []
unfolding siblings_of get_or get
k-IsFilled key h e = let k : right ∷ [] ≡ [] = rw h at e in cc k

b-IsFilled : IsFilled b
unfolding get_keys_from_bucket contains
b-IsFilled = record { filled = filled }
  where
    filled :
        (sector bucket : ℕ) (key : String)
        → contains (get_keys_from_bucket b sector bucket) key ≡ true
        → siblings_of b key ≢ []
    filled zero zero key h = k-IsFilled key (ground (arith, h))
    filled zero (suc bucket) key h = absurd (cc h)
    filled (suc zero) zero key h = absurd (cc h)
    filled (suc zero) (suc bucket) key h = absurd (cc h)
    filled (suc (suc sector)) bucket key h = absurd (cc h)

abbrev first_stamp : List (String × List ObjectView) → ℕ
first_stamp ((key, (value, stamp, entries) ∷ views) ∷ rest) = stamp
first_stamp _ = 0

b_stamp : first_stamp (bucket_view b 0 0) ≡ 2
unfolding sorted_keys is_sorted snapshot_sector ordered is_ordered get_or get put copy_objects
    siblings_of dynamo_kvsrv_pbs.Rpc.Context.copy
b_stamp = refl

a_stamp : first_stamp (bucket_view a 0 0) ≡ 1
unfolding sorted_keys is_sorted snapshot_sector ordered is_ordered get_or get put copy_objects
    siblings_of dynamo_kvsrv_pbs.Rpc.Context.copy
a_stamp = refl

view_differs : bucket_view b 0 0 ≢ bucket_view a 0 0
view_differs e = absurd (omega (arith, b_stamp, a_stamp, ap first_stamp e))

a-IsFitBucket : IsFitBucket (siblings_at (snapshot_sector a 0)) (keys_at (snapshot_sector a 0) 0)
unfolding snapshot_sector sorted_keys is_sorted sort_by get_or get put siblings_of copy_objects
    ordered is_ordered to_vc_entries dynamo_kvsrv_pbs.Rpc.Context.copy dynamo_kvsrv_pbs.VClock.copy
a-IsFitBucket = record {
  count = omega arith;
  pairs = (
    (
      omega arith,
      omega arith,
      ((omega arith, omega arith, omega arith, ((omega arith, omega arith), tt)), tt),
    ),
    tt,
  );
}

b-IsFitBucket : IsFitBucket (siblings_at (snapshot_sector b 0)) (keys_at (snapshot_sector b 0) 0)
unfolding snapshot_sector sorted_keys is_sorted sort_by get_or get put siblings_of copy_objects
    ordered is_ordered to_vc_entries dynamo_kvsrv_pbs.Rpc.Context.copy dynamo_kvsrv_pbs.VClock.copy
b-IsFitBucket = record {
  count = omega arith;
  pairs = (
    (
      omega arith,
      omega arith,
      ((omega arith, omega arith, omega arith, ((omega arith, omega arith), tt)), tt),
    ),
    tt,
  );
}

b-Holds : Holds b "k" right
unfolding siblings_of get_or get dynamo_kvsrv_pbs.Rpc.Context.compare
    dynamo_kvsrv_pbs.VClock.compare contains dynamo_kvsrv_pbs.VClock.get_version
b-Holds = refl

reconcile_bucket_example :
    (args : RepairGetDiffArgs) × (reply : RepairGetDiffReply) × (reconcile_request a 0 ≡ some args)
    × (repair_get_diff digest b args ≡ some reply)
    × (Collision digest
        ⊎ (Holds (reconcile a (some reply)).0 "k" right
            × Holds (repair_all (reconcile a (some reply)).1 b) "k" right))
unfolding contains get_keys_from_bucket
reconcile_bucket_example =
    reconcile_bucket digest 0 a b 0 0 "k" right digest-HasSize refl refl (omega arith) a-IsCurrent
      b-IsCurrent b-IsFilled a-IsFitBucket b-IsFitBucket refl view_differs (inr b-Holds)

-- What a asks, and what b replies.
abbrev request : RepairGetDiffArgs
request = record {
  sector = 0;
  summary = record { sector = 0; hashes = digest (leaf_input (λ key. left ∷ []) ("k" ∷ [])) ∷ [] };
}

abbrev answered : RepairGetDiffReply
answered = record { diff_key_infos = record { key = "k"; objects = right ∷ [] } ∷ []; err = ok }

request-answered : repair_get_diff digest b request ≡ some answered
unfolding repair_get_diff get_merkle_root get get_or leaf_input sorted_keys is_sorted sort_by
    write_kv_pair ordered is_ordered to_summary empty_hash get_keys_from_bucket get_siblings
    siblings_of copy_objects dynamo_kvsrv_pbs.Merkle.Encode.write_uint64
    dynamo_kvsrv_pbs.Merkle.Encode.write_string dynamo_kvsrv_pbs.Merkle.Encode.write_object
    dynamo_kvsrv_pbs.Rpc.Context.copy dynamo_kvsrv_pbs.VClock.copy put
request-answered = refl

reconcile_converges_example :
    Keeps a (reconcile a (some answered)).0
    × Keeps b (repair_all (reconcile a (some answered)).1 b)
    × All
        (IsAgreed a b
          (reconcile a (some answered)).0
          (repair_all (reconcile a (some answered)).1 b))
        answered.diff_key_infos
reconcile_converges_example =
    reconcile_converges digest a b request answered b-IsFilled request-answered

abbrev dirty : KvServer
dirty = record b { dirty_sectors = 0 ∷ []; merkle_roots = [] }

flush_dirty_merkle_lem_example :
    (kv' : KvServer) × (flush_dirty_merkle digest dirty ≡ some kv')
    × (kv'.dirty_sectors ≡ [])
    × (get_merkle_root kv' 0 ≡ (
        if contains dirty.dirty_sectors 0
        then build_merkle_tree digest kv' 0
        else get_merkle_root dirty 0))
flush_dirty_merkle_lem_example = flush_dirty_merkle_lem digest 0 dirty 0 digest-HasSize (refl, tt)
