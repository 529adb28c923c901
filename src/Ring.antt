-- ===== src/Ring.antt =====
-- src/kvsrv/chr/ring.go: the consistent-hashing ring. `hash_func` is CRC-32, a function into the
-- unsigned 32-bit integers; `none` stands for a panic, or for a loop that does not end.
pub mod Location
pub mod Neighbors
pub mod Returns
use dynamo_kvsrv_pbs.Prelude.{
  ℕ, zero, suc, ◌+◌, ◌*◌, ◌/◌, ◌%◌, ◌^◌, ◌-◌, String, Bool, true, false, Option, none, some, List,
  [], ◌∷◌, ◌++◌, length, get_elem?, contains, ltb, eqb, ◌==◌, if◌then◌else◌, string_eq, nat_eq,
  ◌||◌,
}
use dynamo_kvsrv_pbs.GoMap.{GoMap, get, get_or, put, delete, has}

pub record Ring : Type 0 where
  pub num_replicas : ℕ
  pub num_backups : ℕ
  pub num_sectors : ℕ
  pub num_servers : ℕ
  pub buckets_per_sector : ℕ
  pub hash_func : String → ℕ
  pub node_ids : List String
  pub nodes : GoMap String (List ℕ)
  pub sector_map : GoMap ℕ String

-- The sector and the bucket of a key; the product is a uint64.
unfoldable pub get_location : Ring → String → ℕ × ℕ
get_location chr key =
    let hash = chr.hash_func key in
    let total_buckets = chr.num_sectors * chr.buckets_per_sector in
    let position = (total_buckets * hash) % 2 ^ 64 / 2 ^ 32 in
    (position / chr.buckets_per_sector, position % chr.buckets_per_sector)

-- `chr.sectorMap[sectorID]`
unfoldable pub owner : Ring → ℕ → String
owner chr sector = get_or chr.sector_map sector ""

-- `chr.nodes[nodeID]`
unfoldable pub sectors_of : Ring → String → List ℕ
sectors_of chr node = get_or chr.nodes node []

-- The first loop of `MakeConsistentHashRing`.
unfoldable pub empty_nodes : GoMap String (List ℕ) → List String → GoMap String (List ℕ)
empty_nodes nodes [] = nodes
empty_nodes nodes (node ∷ rest) = empty_nodes (put nodes node []) rest

-- Gives sector `i` to a node.
unfoldable pub assign : Ring → ℕ → String → Ring
assign chr i node = record chr {
  nodes = put chr.nodes node (get_or chr.nodes node [] ++ i ∷ []);
  sector_map = put chr.sector_map i node;
}

-- The second loop: `rounds` sectors are left, and `i` is the next.
unfoldable pub distribute : ℕ → ℕ → Ring → Option Ring
distribute zero i chr = some chr
distribute (suc rounds) i chr = elim (get_elem? chr.node_ids (i % chr.num_servers)) [
  | none ↦ none
  | some node ↦ distribute rounds (i + 1) (assign chr i node)
]

unfoldable pub make_ring : (String → ℕ) → ℕ → ℕ → ℕ → List String → Option Ring
make_ring hash_func num_replicas num_sectors num_servers node_ids =
    distribute num_sectors 0 (record {
      num_replicas = num_replicas;
      num_backups = 0;
      num_sectors = num_sectors;
      num_servers = num_servers;
      buckets_per_sector = 256;
      hash_func = hash_func;
      node_ids = node_ids;
      nodes = empty_nodes [] node_ids;
      sector_map = [];
    })

unfoldable pub target_neighbors : Ring → ℕ
target_neighbors chr =
    let target = chr.num_replicas + chr.num_backups in
    if ltb chr.num_servers target then chr.num_servers else target

-- The loop of `GetNeighbors` with fuel for its rounds. A node that is in the list is passed over.
unfoldable pub neighbors_loop :
    ℕ → Ring → ℕ → List String → List ℕ → ℕ → Option (List String × List ℕ)
neighbors_loop zero chr target nodes sectors sector =
    if ltb (length nodes) target then none else some (nodes, sectors)
neighbors_loop (suc fuel) chr target nodes sectors sector =
    let node = owner chr sector in
    let repeated = contains nodes node in
    let rest =
      neighbors_loop fuel chr target (if repeated then nodes else nodes ++ node ∷ [])
        (if repeated then sectors else sectors ++ sector ∷ []) ((sector + 1) % chr.num_sectors) in
    if ltb (length nodes) target then rest else some (nodes, sectors)

-- One round for each sector.
unfoldable pub get_neighbors : Ring → ℕ → Option (List String × List ℕ)
unfolding neighbors_loop target_neighbors
get_neighbors chr sector = neighbors_loop chr.num_sectors chr (target_neighbors chr) [] [] sector

unfoldable pub get_preference_list : Ring → String → Option (List String)
get_preference_list chr key = elim (get_neighbors chr (get_location chr key).0) [
  | none ↦ none
  | some (nodes, _) ↦ some nodes
]

unfoldable pub get_coordinator : Ring → String → String
unfolding owner
get_coordinator chr key = owner chr (get_location chr key).0

-- The loop of `GetRichestNode`, with the richest node so far.
unfoldable pub richest_from : Ring → String → ℕ → List String → String
richest_from chr richest max_sectors [] = richest
richest_from chr richest max_sectors (node ∷ rest) =
    let count = length (sectors_of chr node) in
    let better = richest == "" || ltb max_sectors count in
    richest_from chr (if better then node else richest) (if better then count else max_sectors) rest

unfoldable pub get_richest_node : Ring → String
unfolding richest_from
get_richest_node chr = richest_from chr "" 0 chr.node_ids

-- The first sector of a node; on a node without one the index is out of range.
unfoldable pub take_sector_from : Ring → String → Option (ℕ × Ring)
take_sector_from chr node = elim (sectors_of chr node) [
  | [] ↦ none
  | sector ∷ rest ↦ some (sector, record chr { nodes = put chr.nodes node rest })
]

-- The loop of `AddNode`.
unfoldable pub move_sectors : ℕ → Ring → String → Option Ring
move_sectors zero chr new_node = some chr
move_sectors (suc rounds) chr new_node = elim (take_sector_from chr (get_richest_node chr)) [
  | none ↦ none
  | some (sector, chr') ↦ move_sectors rounds (assign chr' sector new_node) new_node
]

unfoldable pub add_node : Ring → String → Option Ring
add_node chr new_node =
    if has chr.nodes new_node
    then some chr
    else elim (move_sectors (chr.num_sectors / (chr.num_servers + 1)) chr new_node) [
      | none ↦ none
      | some chr' ↦ some (record chr' {
        node_ids = chr'.node_ids ++ new_node ∷ [];
        num_servers = chr'.num_servers + 1;
      })
    ]

unfoldable pub delete_from_slice : List String → String → List String
delete_from_slice [] id = []
delete_from_slice (v ∷ slice) id = if v == id then slice else v ∷ delete_from_slice slice id

-- The loop of `RemoveNode` over the sectors from position `i` on.
unfoldable pub redistribute : ℕ → List ℕ → Ring → Option Ring
redistribute i [] chr = some chr
redistribute i (sector ∷ sectors) chr = elim (get_elem? chr.node_ids (i % chr.num_servers)) [
  | none ↦ none
  | some node ↦ redistribute (i + 1) sectors (assign chr sector node)
]

-- The number of servers is a signed integer in Go; it is positive while a node is removed.
unfoldable pub remove_node : Ring → String → Option Ring
remove_node chr node = redistribute 0 (sectors_of chr node) (record chr {
  nodes = delete chr.nodes node;
  node_ids = delete_from_slice chr.node_ids node;
  num_servers = chr.num_servers - 1;
})
