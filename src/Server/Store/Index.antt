-- ===== src/Server/Store/Index.antt =====
-- The bucket index of src/kvsrv/server.go against the keys that the server has versions of.
use dynamo_kvsrv_pbs.Prelude.{
  ℕ, ◌<◌, ◌≡◌, ◌≢◌, ◌⊎◌, ◌∙◌, sym, String, Bool, true, false, not, ◌&&◌, ◌||◌, List, [], ◌∷◌, arith,
  ◌==◌, string_eq, nat_eq, if◌then◌else◌, Bool-cases, inl, inr, contains, IsDistinct, length, eqb,
  eqb_iff,
}
use dynamo_kvsrv_pbs.GoMap.{GoMap, put, delete, has, get-put, get-delete}
use dynamo_kvsrv_pbs.Ring
use dynamo_kvsrv_pbs.Rpc.Context
use dynamo_kvsrv_pbs.Rpc.Object.{Object}
use dynamo_kvsrv_pbs.Rpc.Messages.{PutArgs, RepairArgs}
use dynamo_kvsrv_pbs.Server.{
  KvServer, row, update_at, index_key, append_unique_key, remove_key, get_keys_from_bucket,
}
use dynamo_kvsrv_pbs.Server.Store.Siblings.{no_key, version, accepted, replica_put-Put}
use dynamo_kvsrv_pbs.Server.Store.Merge.{unchanged, installed, merge_objects_core-Merged}
use dynamo_kvsrv_pbs.Server.Store.Buckets.{
  contains-append_unique_key, append_unique_key-IsDistinct, contains-remove_key,
  remove_key-IsDistinct, row-update_at, cell-update_at, length-update_at,
}
use dynamo_kvsrv_pbs.Server.Store.{
  replica_put, install_put, install_objects, mark_sector_dirty, repair_put,
}

abbrev location : KvServer → String → ℕ × ℕ
location kv key = Ring.get_location kv.ring key

-- The bucket that the key belongs to.
abbrev pub bucket_of : KvServer → String → List String
bucket_of kv key = get_keys_from_bucket kv (location kv key).0 (location kv key).1

-- The place of every key is in the table, no bucket holds a key twice, and a key is in its bucket
-- exactly when the server has versions of it.
pub record IsIndexed (kv : KvServer) : Type 0 where
  pub sector_in : (key : String) → (location kv key).0 < length kv.keys_in_buckets
  pub bucket_in :
      (key : String) → (location kv key).1 < length (row kv.keys_in_buckets (location kv key).0)
  pub distinct : (key : String) → IsDistinct (bucket_of kv key)
  pub holds : (key : String) → contains (bucket_of kv key) key ≡ has kv.kv key

length-index :
    (rows : List (List (List String))) (s b : ℕ) (g : List String → List String) (i : ℕ)
    → s < length rows
    → length (row (update_at rows s (λ bs. update_at bs b g)) i) ≡ length (row rows i)
length-index rows s b g i h =
    rw row-update_at (ground (arith, eqb_iff s i, length-update_at (row rows s) b g))

choose {ℓ} : {A : Type 0} (P : A → Type ℓ) (b : Bool) {x y : A} → P x → P y → P (if b then x else y)
choose P true p q = p
choose P false p q = q

module _ (kv : KvServer) (m : GoMap String (List Object)) (key : String) where
  abbrev same_bucket : String → String → Bool
  same_bucket k j =
      eqb (location kv k).0 (location kv j).0 && eqb (location kv k).1 (location kv j).1

  bucket-index_key :
      (f : List String → String → List String)
      → IsIndexed kv
      → (j : String)
      → bucket_of (index_key f (record kv { kv = m }) key) j
        ≡ (if same_bucket key j then f (bucket_of kv j) key else bucket_of kv j)
  unfolding index_key get_keys_from_bucket
  bucket-index_key f w j =
      cell-update_at kv.keys_in_buckets (location kv key).0 (location kv key).1 (λ ks. f ks key)
        (location kv j).0 (location kv j).1 (w.sector_in key) (w.bucket_in key)

  -- A change of the versions, and of the index at the key, that agree.
  index_key-IsIndexed :
      (f : List String → String → List String)
      → IsIndexed kv
      → ((ks : List String) → IsDistinct ks → IsDistinct (f ks key))
      → ((j : String) → IsDistinct (bucket_of kv j) → contains (f (bucket_of kv j) key) j ≡ has m j)
      → ((j : String) → key ≢ j → has m j ≡ has kv.kv j)
      → IsIndexed (index_key f (record kv { kv = m }) key)
  unfolding index_key
  index_key-IsIndexed f w keep here others = record {
    sector_in = λ j. rw length-update_at (w.sector_in j);
    bucket_in = λ j.
        rw
          (length-index kv.keys_in_buckets (location kv key).0 (location kv key).1 (λ ks. f ks key)
            (location kv j).0 (w.sector_in key))
          (w.bucket_in j);
    distinct = λ j.
        rw (bucket-index_key f w j)
          (choose IsDistinct (same_bucket key j) (keep _ (w.distinct j)) (w.distinct j));
    holds = λ j. rw (bucket-index_key f w j) (elim (Bool-cases (same_bucket key j)) [
      | inl e ↦ rw e (here j (w.distinct j))
      | inr e ↦ rw e (w.holds j ∙ sym (others j (λ p. other_key p e)))
    ]);
  }
    where
      other_key : {j : String} → key ≡ j → same_bucket key j ≡ false → ⊥
      other_key {j} p e = ground (
        arith,
        eqb_iff (location kv key).0 (location kv j).0,
        eqb_iff (location kv key).1 (location kv j).1,
      )

mark_sector_dirty-IsIndexed :
    (kv : KvServer) (s : ℕ) → IsIndexed kv → IsIndexed (mark_sector_dirty kv s)
unfolding mark_sector_dirty get_keys_from_bucket
mark_sector_dirty-IsIndexed kv s w = elim (Bool-cases (contains kv.dirty_sectors s)) [
  | inl e ↦ rw e w
  | inr e ↦ rw e (record {
    sector_in = w.sector_in;
    bucket_in = w.bucket_in;
    distinct = w.distinct;
    holds = w.holds;
  })
]

module _ (kv : KvServer) where
  -- A change of the versions at keys that are there before and after.
  same_keys-IsIndexed :
      (m : GoMap String (List Object))
      → ((j : String) → has m j ≡ has kv.kv j)
      → IsIndexed kv
      → IsIndexed (record kv { kv = m })
  unfolding get_keys_from_bucket
  same_keys-IsIndexed m e w = record {
    sector_in = w.sector_in;
    bucket_in = w.bucket_in;
    distinct = w.distinct;
    holds = λ j. w.holds j ∙ sym (e j);
  }

  has-put :
      (k : String) (v : List Object) (j : String) → has (put kv.kv k v) j ≡ (k == j || has kv.kv j)
  unfolding has
  has-put k v j = ground (arith, get-put kv.kv k v j)

  has-delete : (k j : String) → has (delete kv.kv k) j ≡ (not (k == j) && has kv.kv j)
  unfolding has
  has-delete k j = ground (arith, get-delete kv.kv k j)

  add_key-IsIndexed :
      (k : String) (v : List Object)
      → IsIndexed kv
      → IsIndexed (index_key append_unique_key (record kv { kv = put kv.kv k v }) k)
  add_key-IsIndexed k v w =
      index_key-IsIndexed kv (put kv.kv k v) k append_unique_key w
        (λ ks d. append_unique_key-IsDistinct ks k d)
        (λ j d.
          ground (arith, contains-append_unique_key (bucket_of kv j) k j, has-put k v j, w.holds j))
        (λ j ne. ground (arith, has-put k v j, string_eq.beq_iff k j))

  drop_key-IsIndexed :
      (k : String)
      → IsIndexed kv
      → IsIndexed (index_key remove_key (record kv { kv = delete kv.kv k }) k)
  drop_key-IsIndexed k w =
      index_key-IsIndexed kv (delete kv.kv k) k remove_key w (λ ks d. remove_key-IsDistinct ks k d)
        (λ j d.
          ground (arith, contains-remove_key (bucket_of kv j) k j d, has-delete k j, w.holds j))
        (λ j ne. ground (arith, has-delete k j, string_eq.beq_iff k j))

  old_key-IsIndexed :
      (k : String) (v : List Object)
      → has kv.kv k ≡ true
      → IsIndexed kv
      → IsIndexed (record kv { kv = put kv.kv k v })
  old_key-IsIndexed k v h w =
      same_keys-IsIndexed (put kv.kv k v)
        (λ j. ground (arith, has-put k v j, string_eq.beq_iff k j)) w

  install_put-IsIndexed :
      (args : PutArgs)
      → (has kv.kv args.key ≡ true) ⊎ (Context.is_initial args.base_context ≡ true)
      → IsIndexed kv
      → IsIndexed (install_put kv args)
  unfolding install_put
  install_put-IsIndexed args g w = elim (Bool-cases (Context.is_initial args.base_context)) [
    | inl i ↦ rw i (add_key-IsIndexed args.key _ w)
    | inr i ↦ rw i (old_key-IsIndexed args.key _ (ground arith) w)
  ]

  -- ReplicaPut keeps the bucket index exact: a key is in its bucket, once, exactly when the
  -- server has versions of it.
  pub replica_put-IsIndexed : (args : PutArgs) → IsIndexed kv → IsIndexed (replica_put kv args).0
  replica_put-IsIndexed args w = elim (replica_put-Put kv args) [
    | no_key a b e ↦ rw e w
    | version a b e ↦ rw e w
    | accepted a b e ↦ rw e (install_put-IsIndexed args a w)
  ]

  -- installObjects keeps the bucket index exact, also where it deletes the key.
  pub install_objects-IsIndexed :
      (key : String) (objects : List Object)
      → IsIndexed kv
      → IsIndexed (install_objects kv key objects)
  unfolding install_objects
  install_objects-IsIndexed key [] w = mark_sector_dirty-IsIndexed _ _ (drop_key-IsIndexed key w)
  install_objects-IsIndexed key (o ∷ objects) w = elim (Bool-cases (has kv.kv key)) [
    | inl e ↦ rw e (mark_sector_dirty-IsIndexed _ _ (old_key-IsIndexed key _ e w))
    | inr e ↦ rw e (mark_sector_dirty-IsIndexed _ _ (add_key-IsIndexed key _ w))
  ]

  -- RepairPut, whether it merges or deletes, keeps the bucket index exact.
  pub repair_put-IsIndexed : (args : RepairArgs) → IsIndexed kv → IsIndexed (repair_put kv args).0
  unfolding repair_put
  repair_put-IsIndexed args w = elim (Bool-cases args.is_delete) [
    | inl e ↦ rw e (install_objects-IsIndexed args.key [] w)
    | inr e ↦ rw e (elim (merge_objects_core-Merged kv args.key args.objects) [
      | unchanged a u ↦ rw u w
      | installed u ↦ rw u (install_objects-IsIndexed args.key _ w)
    ])
  ]
