-- ===== src/Server.antt =====
-- src/kvsrv/server.go: the state of a server, its constructor and its accessors. The handlers and the
-- background work are in the modules below.
pub mod Start
pub mod Store
pub mod Coordinator
pub mod ReadRepair
pub mod Membership
pub mod Handoff
pub mod AntiEntropy
use dynamo_kvsrv_pbs.Prelude.{
  ℕ, zero, suc, ◌+◌, String, Bool, true, false, Option, none, some, List, [], ◌∷◌, ◌++◌, get_elem?,
  length, ltb, ◌==◌, string_eq, nat_eq, if◌then◌else◌,
}
use mathlib.Core.Option
use dynamo_kvsrv_pbs.GoMap.{GoMap, get, get_or, put, has, keys}
use dynamo_kvsrv_pbs.Ring
use dynamo_kvsrv_pbs.Ring.{Ring}
use dynamo_kvsrv_pbs.Rpc.Object.{Object, copy_objects}
use dynamo_kvsrv_pbs.Rpc.MemberInfo.{MemberInfo, alive}
use dynamo_kvsrv_pbs.Rpc.Messages.{PutArgs, ForwardGetResult}
use dynamo_kvsrv_pbs.Merkle.Tree.{MerkleNode}
use dynamo_kvsrv_pbs.Eval.Collector.{PbsCollector, new_pbs_collector}

-- A read-repair job; `id` stands for the pointer to it, and `ch` for what the channel of the
-- replies has yet to deliver.
pub record ReadRepairJob : Type 0 where
  pub id : ℕ
  pub key : String
  pub canonical_siblings : List Object
  pub results : List ForwardGetResult
  pub ch : List ForwardGetResult

pub record KvServer : Type 0 where
  pub id : String
  pub kv : GoMap String (List Object)
  pub ring : Ring
  pub write_quorum : ℕ
  pub read_quorum : ℕ
  pub read_repair_job_ch : List ReadRepairJob
  pub read_repair_coalesce : GoMap String ReadRepairJob
  pub merkle_roots : GoMap ℕ MerkleNode
  pub keys_in_buckets : List (List (List String))
  pub dirty_sectors : List ℕ
  pub members : GoMap String MemberInfo
  pub member_last_updated : GoMap String ℕ
  pub num_neighbors : ℕ
  pub heartbeat_counter : ℕ
  pub failure_timeout : ℕ
  pub cleanup_timeout : ℕ
  pub hints : GoMap String (List PutArgs)
  pub collector : PbsCollector
  pub read_repair_enabled : Bool
  pub hinted_handoff_enabled : Bool

abbrev pub replicate {ℓ} : {A : Type ℓ} → ℕ → A → List A
replicate zero a = []
replicate (suc n) a = a ∷ replicate n a

-- The loop of `MakeKVServer` over the servers, all alive at first.
unfoldable pub init_members : ℕ → List String → KvServer → KvServer
init_members now [] kv = kv
init_members now (node ∷ nodes) kv = init_members now nodes (record kv {
  members = put kv.members node (record { server_id = node; heartbeat = 0; status = alive });
  member_last_updated = put kv.member_last_updated node now;
})

-- The server before its members are known, over a table of empty buckets. Durations are in
-- nanoseconds.
unfoldable pub empty_server : String → Ring → ℕ → ℕ → KvServer
empty_server server_id ring write_quorum read_quorum = record {
  id = server_id;
  kv = [];
  ring = ring;
  write_quorum = write_quorum;
  read_quorum = read_quorum;
  read_repair_job_ch = [];
  read_repair_coalesce = [];
  merkle_roots = [];
  keys_in_buckets = replicate ring.num_sectors (replicate ring.buckets_per_sector []);
  dirty_sectors = [];
  members = [];
  member_last_updated = [];
  num_neighbors = 2;
  heartbeat_counter = 0;
  failure_timeout = 5000000000;
  cleanup_timeout = 15000000000;
  hints = [];
  collector = new_pbs_collector;
  read_repair_enabled = true;
  hinted_handoff_enabled = true;
}

-- `ends` are the names of the servers that can be called.
unfoldable pub make_kv_server : String → Ring → ℕ → ℕ → List String → ℕ → KvServer
unfolding init_members empty_server
make_kv_server server_id ring write_quorum read_quorum ends now =
    let kv = init_members now ends (empty_server server_id ring write_quorum read_quorum) in
    if has kv.members server_id then kv else init_members now (server_id ∷ []) kv

-- `kv.kv[key]`, nil where the key is missing
unfoldable pub siblings_of : KvServer → String → List Object
siblings_of kv key = get_or kv.kv key []

unfoldable pub get_siblings : KvServer → String → List Object
unfolding siblings_of
get_siblings kv key = copy_objects (siblings_of kv key)

-- `s[i]` where the program has checked that i is in range; nil stands for what cannot be read.
abbrev pub row {ℓ} : {A : Type ℓ} → List (List A) → ℕ → List A
row rows i = Option.get_or (get_elem? rows i) []

-- `s[i] = f(s[i])`
unfoldable pub update_at {ℓ} : {A : Type ℓ} → List A → ℕ → (A → A) → List A
update_at [] i f = []
update_at (x ∷ xs) zero f = f x ∷ xs
update_at (x ∷ xs) (suc i) f = x ∷ update_at xs i f

-- `kv.keysInBuckets[sector][bucket]`
unfoldable pub get_keys_from_bucket : KvServer → ℕ → ℕ → List String
get_keys_from_bucket kv sector bucket = row (row kv.keys_in_buckets sector) bucket

unfoldable pub concat : List (List String) → List String
concat [] = []
concat (keys ∷ buckets) = keys ++ concat buckets

unfoldable pub get_keys_from_sector : KvServer → ℕ → List String
unfolding concat
get_keys_from_sector kv sector = concat (row kv.keys_in_buckets sector)

-- The loops of `CopyKV` and `CopySectorKeys`.
unfoldable pub copy_kv : GoMap String (List Object) → GoMap String (List Object)
copy_kv [] = []
copy_kv ((k, objs) ∷ entries) = (k, copy_objects objs) ∷ copy_kv entries

unfoldable pub sector_keys_from : ℕ → List (List (List String)) → GoMap ℕ (List String)
unfolding concat
sector_keys_from sector [] = []
sector_keys_from sector (buckets ∷ rest) =
    (sector, concat buckets) ∷ sector_keys_from (sector + 1) rest

unfoldable pub copy_sector_keys : KvServer → GoMap ℕ (List String)
unfolding sector_keys_from
copy_sector_keys kv = sector_keys_from 0 kv.keys_in_buckets

unfoldable pub copy_keys_in_sector : KvServer → ℕ → List (List String)
copy_keys_in_sector kv sector = row kv.keys_in_buckets sector

unfoldable pub nonempty_from : ℕ → List (List String) → List ℕ
nonempty_from i [] = []
nonempty_from i (keys ∷ buckets) =
    let rest = nonempty_from (i + 1) buckets in if ltb 0 (length keys) then i ∷ rest else rest

unfoldable pub get_buckets_from_sector : KvServer → ℕ → List ℕ
unfolding nonempty_from
get_buckets_from_sector kv sector = nonempty_from 0 (row kv.keys_in_buckets sector)

unfoldable pub append_unique_key : List String → String → List String
append_unique_key [] key = key ∷ []
append_unique_key (existing ∷ keys) key =
    if existing == key then existing ∷ keys else existing ∷ append_unique_key keys key

unfoldable pub remove_key : List String → String → List String
remove_key [] key = []
remove_key (existing ∷ keys) key = if existing == key then keys else existing ∷ remove_key keys key

-- `kv.keysInBuckets[sector][bucket] = f(kv.keysInBuckets[sector][bucket], key)` at the location of
-- the key.
unfoldable pub index_key : (List String → String → List String) → KvServer → String → KvServer
unfolding update_at
index_key f kv key =
    let (sector, bucket) = Ring.get_location kv.ring key in
    record kv {
      keys_in_buckets =
          update_at kv.keys_in_buckets sector
            (λ buckets. update_at buckets bucket (λ keys. f keys key));
    }

unfoldable pub get_responsible_sectors : KvServer → List ℕ
get_responsible_sectors kv = Ring.sectors_of kv.ring kv.id

unfoldable pub copy_preference_list : KvServer → String → Option (List String)
copy_preference_list kv key = Ring.get_preference_list kv.ring key
