-- ===== src/VClock.antt =====
-- src/kvsrv/vclock/vclock.go: vector clocks.
pub mod Nodes
pub mod Order
pub mod Laws
use dynamo_kvsrv_pbs.Prelude.{
  ℕ, ◌+◌, ◌%◌, ◌^◌, max, String, Bool, true, false, ◌&&◌, List, [], ◌∷◌, ◌++◌, ltb, eqb, not,
  if◌then◌else◌, contains, string_eq, before_string, sort_by,
}
use dynamo_kvsrv_pbs.GoMap.{GoMap, keys, get_or, put}

abbrev pub VClock : Type 0
VClock = GoMap String ℕ

-- The result of `Compare`.
pub data Cmp : Type 0 where
  equal before after concurrent : Cmp

-- `cmp == vclock.Before || cmp == vclock.Equal`
abbrev pub before_or_equal : Cmp → Bool
before_or_equal before = true
before_or_equal equal = true
before_or_equal _ = false

abbrev pub u64_mod : ℕ
u64_mod = 2 ^ 64

abbrev pub new_vclock : VClock
new_vclock = []

-- `v[node]`
unfoldable pub get_version : VClock → String → ℕ
get_version v node = get_or v node 0

-- `v[node]++` on a uint64
unfoldable pub increment : VClock → String → VClock
increment v node = put v node ((get_version v node + 1) % u64_mod)

unfoldable pub set_version : VClock → String → ℕ → VClock
set_version v node version = put v node version

-- One loop of `GetAllNodes`: the keys that the set does not hold yet are added.
unfoldable pub add_nodes : List String → List String → List String
add_nodes nodes [] = nodes
add_nodes nodes (n ∷ ns) = add_nodes (if contains nodes n then nodes else nodes ++ n ∷ []) ns

unfoldable pub get_all_nodes : VClock → VClock → List String
unfolding add_nodes
get_all_nodes v other = add_nodes (add_nodes [] (keys v)) (keys other)

unfoldable pub get_nodes : VClock → List String
get_nodes v = keys v

-- `Copy` puts each entry into a new map. Go leaves the order of `range` open; here the last entry
-- comes first.
unfoldable pub copy : VClock → VClock
copy [] = new_vclock
copy ((node, ver) ∷ rest) = put (copy rest) node ver

unfoldable pub is_initial : VClock → Bool
is_initial [] = true
is_initial ((node, ver) ∷ rest) = if eqb ver 0 then is_initial rest else false

-- The tests after the loop of `Compare`.
unfoldable pub verdict : Bool → Bool → Cmp
verdict has_before has_after =
    if has_before && not has_after
    then before
    else if not has_before && has_after
    then after
    else if not has_before && not has_after
    then equal
    else concurrent

-- The loop of `Compare` over the nodes that are left.
unfoldable pub compare_loop : VClock → VClock → List String → Bool → Bool → Cmp
unfolding verdict
compare_loop v other [] has_before has_after = verdict has_before has_after
compare_loop v other (node ∷ nodes) has_before has_after =
    let a = get_version v node in
    let b = get_version other node in
    let has_before' = if ltb a b then true else has_before in
    let has_after' = if ltb a b then has_after else if ltb b a then true else has_after in
    let rest = compare_loop v other nodes has_before' has_after' in
    if has_before' && has_after' then concurrent else rest

unfoldable pub compare : VClock → VClock → Cmp
unfolding compare_loop get_all_nodes
compare v other = compare_loop v other (get_all_nodes v other) false false

-- The loop of `Merge`.
unfoldable pub merge_loop : VClock → VClock → List String → VClock
merge_loop v other [] = v
merge_loop v other (node ∷ nodes) =
    merge_loop (put v node (max (get_version v node) (get_version other node))) other nodes

unfoldable pub merge : VClock → VClock → VClock
unfolding merge_loop get_all_nodes
merge v other = merge_loop v other (get_all_nodes v other)

-- `vcEntry`: a node and its version.
abbrev pub VcEntry : Type 0
VcEntry = String × ℕ

-- `SortByNodeName(a, b) < 0`
unfoldable pub sort_by_node_name : VcEntry → VcEntry → Bool
sort_by_node_name a b = before_string a.0 b.0

-- `ToVCEntries(nil)`: the entries in the order of their nodes.
unfoldable pub to_vc_entries : VClock → List VcEntry
unfolding sort_by_node_name
to_vc_entries v = sort_by sort_by_node_name v
