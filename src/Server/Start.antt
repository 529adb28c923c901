-- ===== src/Server/Start.antt =====
-- What `MakeKVServer` of src/kvsrv/server.go starts with.
use mathlib.Core.Path.{subst}
use dynamo_kvsrv_pbs.Prelude.{
  ℕ, zero, suc, ◌*◌, ◌^◌, ◌<◌, ◌≤◌, ◌≡◌, ◌∙◌, refl, sym, ap, String, Bool, true, false, List, [],
  ◌∷◌, arith, contains, IsDistinct, length, string_eq, if◌then◌else◌,
}
use dynamo_kvsrv_pbs.GoMap.{get, get_or, put, has}
use dynamo_kvsrv_pbs.Ring
use dynamo_kvsrv_pbs.Ring.{Ring}
use dynamo_kvsrv_pbs.Ring.Location.{get_location_bounds}
use dynamo_kvsrv_pbs.Rpc.MemberInfo.{MemberInfo, alive}
use dynamo_kvsrv_pbs.Server.{
  KvServer, replicate, empty_server, init_members, make_kv_server, siblings_of, row,
  get_keys_from_bucket,
}
use dynamo_kvsrv_pbs.Server.Store.Siblings.{IsWell, IsWellKept, nil-IsWell}
use dynamo_kvsrv_pbs.Server.Store.Index.{IsIndexed, bucket_of}
use dynamo_kvsrv_pbs.Server.Membership.Sync.{IsTable, IsDistinct-put, IsKeyed-put}

-- A server without versions, over a table of empty buckets.
record IsEmpty (ring : Ring) (kv : KvServer) : Type 0 where
  versions : kv.kv ≡ []
  rings : kv.ring ≡ ring
  table : kv.keys_in_buckets ≡ replicate ring.num_sectors (replicate ring.buckets_per_sector [])
  members : IsTable kv

init_members-IsEmpty :
    (ring : Ring) (now : ℕ) (nodes : List String) (kv : KvServer)
    → IsEmpty ring kv
    → IsEmpty ring (init_members now nodes kv)
unfolding init_members
init_members-IsEmpty ring now [] kv f = f
init_members-IsEmpty ring now (node ∷ nodes) kv f =
    let info : MemberInfo = record { server_id = node; heartbeat = 0; status = alive } in
    let kv' : KvServer = record kv {
      members = put kv.members node info;
      member_last_updated = put kv.member_last_updated node now;
    } in
    init_members-IsEmpty ring now nodes kv' (record {
      versions = f.versions;
      rings = f.rings;
      table = f.table;
      members = record {
        distinct = IsDistinct-put kv.members node info f.members.distinct;
        keyed = IsKeyed-put kv.members node info f.members.keyed refl;
      };
    })

either : (P : KvServer → Type 0) (b : Bool) (x y : KvServer) → P x → P y → P (if b then x else y)
either P true x y p q = p
either P false x y p q = q

make_kv_server-IsEmpty :
    (server_id : String) (ring : Ring) (write_quorum read_quorum : ℕ) (ends : List String) (now : ℕ)
    → IsEmpty ring (make_kv_server server_id ring write_quorum read_quorum ends now)
unfolding make_kv_server empty_server
make_kv_server-IsEmpty server_id ring write_quorum read_quorum ends now =
    let first : KvServer = empty_server server_id ring write_quorum read_quorum in
    let kv = init_members now ends first in
    let f : IsEmpty ring first = record {
      versions = refl;
      rings = refl;
      table = refl;
      members = record { distinct = tt; keyed = tt };
    } in
    let g = init_members-IsEmpty ring now ends first f in
    either (IsEmpty ring) (has kv.members server_id) kv (init_members now (server_id ∷ []) kv) g
      (init_members-IsEmpty ring now (server_id ∷ []) kv g)

length-replicate : {A : Type 0} (n : ℕ) (a : A) → length (replicate n a) ≡ n
length-replicate zero a = refl
length-replicate (suc n) a = ap suc (length-replicate n a)

row-replicate : {A : Type 0} (n : ℕ) (xs : List A) (i : ℕ) → i < n → row (replicate n xs) i ≡ xs
row-replicate zero xs i h = absurd (omega (arith, h))
row-replicate (suc n) xs zero h = refl
row-replicate (suc n) xs (suc i) h = row-replicate n xs i (omega (arith, h))

IsEmpty-IsWellKept : (ring : Ring) (kv : KvServer) → IsEmpty ring kv → IsWellKept kv
unfolding siblings_of get_or get
IsEmpty-IsWellKept ring kv f = record {
  at_key = λ key. subst (λ m. IsWell (get_or m key [])) (sym f.versions) nil-IsWell;
}

IsEmpty-IsIndexed :
    (ring : Ring) (kv : KvServer)
    → IsEmpty ring kv
    → ((key : String) → (Ring.get_location ring key).0 < ring.num_sectors)
    → ((key : String) → (Ring.get_location ring key).1 < ring.buckets_per_sector)
    → IsIndexed kv
unfolding get_keys_from_bucket has get contains
IsEmpty-IsIndexed ring kv f hs hb = record {
  sector_in = λ key.
      at_location (λ l. l.0 < length kv.keys_in_buckets) key
        (subst (λ t. (Ring.get_location ring key).0 < length t) (sym f.table) (sector_lt key));
  bucket_in = λ key.
      at_location (λ l. l.1 < length (row kv.keys_in_buckets l.0)) key
        (subst (λ t. (Ring.get_location ring key).1 < length (row t (Ring.get_location ring key).0))
          (sym f.table) (bucket_lt key));
  distinct = λ key. subst IsDistinct (sym (no_keys key)) tt;
  holds = λ key. ap (λ b. contains b key) (no_keys key) ∙ sym (ap (λ m. has m key) f.versions);
}
  where
    buckets : List (List String)
    buckets = replicate ring.buckets_per_sector []

    sectors : List (List (List String))
    sectors = replicate ring.num_sectors buckets

    at_location :
        (P : ℕ × ℕ → Type 0) (key : String)
        → P (Ring.get_location ring key)
        → P (Ring.get_location kv.ring key)
    at_location P key = subst (λ r. P (Ring.get_location r key)) (sym f.rings)

    sector_lt : (key : String) → (Ring.get_location ring key).0 < length sectors
    sector_lt key = omega (arith, hs key, length-replicate ring.num_sectors buckets)

    in_sector : (key : String) → row sectors (Ring.get_location ring key).0 ≡ buckets
    in_sector key = row-replicate ring.num_sectors buckets (Ring.get_location ring key).0 (hs key)

    bucket_lt :
        (key : String)
        → (Ring.get_location ring key).1 < length (row sectors (Ring.get_location ring key).0)
    bucket_lt key =
        subst (λ b. (Ring.get_location ring key).1 < length b) (sym (in_sector key))
          (omega (arith, hb key, length-replicate {A = List String} ring.buckets_per_sector []))

    no_keys : (key : String) → bucket_of kv key ≡ []
    no_keys key =
        at_location (λ l. row (row kv.keys_in_buckets l.0) l.1 ≡ []) key
          (subst
            (λ t. row (row t (Ring.get_location ring key).0) (Ring.get_location ring key).1 ≡ [])
            (sym f.table)
            (ap (λ b. row b (Ring.get_location ring key).1) (in_sector key)
              ∙ row-replicate ring.buckets_per_sector [] (Ring.get_location ring key).1 (hb key)))

-- A new server satisfies the invariants of its store, its bucket index and its member map, if
-- the keys' hashes are uint32, the ring has sectors and buckets, and at most 2^32 buckets in
-- all.
pub make_kv_server_starts :
    (server_id : String) (ring : Ring) (write_quorum read_quorum : ℕ) (ends : List String) (now : ℕ)
    → ((key : String) → ring.hash_func key < 2 ^ 32)
    → 0 < ring.buckets_per_sector
    → 0 < ring.num_sectors
    → ring.num_sectors * ring.buckets_per_sector ≤ 2 ^ 32
    → IsWellKept (make_kv_server server_id ring write_quorum read_quorum ends now)
      × IsIndexed (make_kv_server server_id ring write_quorum read_quorum ends now)
      × IsTable (make_kv_server server_id ring write_quorum read_quorum ends now)
make_kv_server_starts server_id ring write_quorum read_quorum ends now h b s t =
    let kv = make_kv_server server_id ring write_quorum read_quorum ends now in
    let f = make_kv_server-IsEmpty server_id ring write_quorum read_quorum ends now in
    let bounds = λ (key : String). get_location_bounds ring key (h key) b s t in
    (
      IsEmpty-IsWellKept ring kv f,
      IsEmpty-IsIndexed ring kv f (λ key. (bounds key).0) (λ key. (bounds key).1),
      f.members,
    )
