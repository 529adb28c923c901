-- ===== src/VClock/Nodes.antt =====
-- The nodes that `GetAllNodes` of src/kvsrv/vclock/vclock.go collects.
use dynamo_kvsrv_pbs.Prelude.{
  ◌≡◌, false, ◌||◌, String, List, [], ◌∷◌, ◌++◌, arith, string_eq, contains, contains-append,
  Bool-cases, inl, inr,
}
use dynamo_kvsrv_pbs.GoMap.{keys, get_or, has, has-contains}
use dynamo_kvsrv_pbs.VClock.{VClock, get_version, add_nodes, get_all_nodes}

contains-add_nodes :
    (nodes ns : List String) (a : String)
    → contains (add_nodes nodes ns) a ≡ (contains nodes a || contains ns a)
unfolding add_nodes contains
contains-add_nodes nodes [] a = ground arith
contains-add_nodes nodes (n ∷ ns) a = elim (Bool-cases (contains nodes n)) [
  | inl old ↦ rw old (ground (arith, contains-add_nodes nodes ns a, string_eq.beq_iff n a))
  | inr new ↦
      rw new (
        ground (arith, contains-add_nodes (nodes ++ n ∷ []) ns a, contains-append nodes (n ∷ []) a))
]

get_version_absent : (v : VClock) (n : String) → contains (keys v) n ≡ false → get_version v n ≡ 0
unfolding get_version get_or has
get_version_absent v n h = ground (arith, has-contains v n)

module _ (v w : VClock) (n : String) where
  -- A node outside `GetAllNodes` has version 0 in both clocks.
  pub get_version_outside :
      contains (get_all_nodes v w) n ≡ false → (get_version v n ≡ 0) × (get_version w n ≡ 0)
  unfolding get_all_nodes
  get_version_outside h = (
    get_version_absent v n (ground (arith, outer, inner)),
    get_version_absent w n (ground (arith, outer, inner)),
  )
    where
      inner : contains (add_nodes [] (keys v)) n ≡ contains (keys v) n
      inner = unfold contains in contains-add_nodes [] (keys v) n

      outer :
          contains (add_nodes (add_nodes [] (keys v)) (keys w)) n
          ≡ (contains (add_nodes [] (keys v)) n || contains (keys w) n)
      outer = contains-add_nodes (add_nodes [] (keys v)) (keys w) n
