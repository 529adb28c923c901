-- ===== src/Tests/Clocks.antt =====
-- The theorems on clocks, objects and the ring on concrete data.
use dynamo_kvsrv_pbs.Prelude.{
  All, Bool, Bool-cases, IsDistinct, List, String, [], arith, contains, false, inl, inr, length,
  none, refl, some, string_eq, true, ℕ, ◌*◌, ◌+◌, ◌<◌, ◌==◌, ◌↔◌, ◌∷◌, ◌≡◌, ◌≢◌, ◌≤◌,
}
use dynamo_kvsrv_pbs.GoMap.{get, get_or}
use dynamo_kvsrv_pbs.VClock.{VClock, concurrent, compare, merge, get_version, u64_mod}
use dynamo_kvsrv_pbs.VClock.Order.{Compares, Below, compare_iff}
use dynamo_kvsrv_pbs.VClock.Laws.{merge_least}
use dynamo_kvsrv_pbs.Rpc.Context
use dynamo_kvsrv_pbs.Rpc.Object.{can_be_added_to}
use dynamo_kvsrv_pbs.Rpc.Object.Seen.{seen_in}
use dynamo_kvsrv_pbs.Ring.{get_location, get_neighbors, target_neighbors, owner}
use dynamo_kvsrv_pbs.Ring.Location.{position, get_location_bounds}
use dynamo_kvsrv_pbs.Ring.Neighbors.{IsWalk, get_neighbors_lem}
use dynamo_kvsrv_pbs.Ring.Returns.{get_neighbors_returns}
use dynamo_kvsrv_pbs.Tests.Data.{left, right, left_twice, ring}

abbrev clock_a : VClock
clock_a = ("a", 1) ∷ []

abbrev clock_b : VClock
clock_b = ("b", 1) ∷ []

small_version : get_version clock_a "a" + 1 < u64_mod
unfolding get_version get_or get
small_version = omega arith

right_addable : can_be_added_to right (left ∷ []) ≡ true
unfolding can_be_added_to Context.compare compare dynamo_kvsrv_pbs.Prelude.contains get_version
    get_or get
right_addable = refl

left_seen : seen_in left (left_twice ∷ []) ≡ true
unfolding Context.compare compare dynamo_kvsrv_pbs.Prelude.contains get_version get_or get
left_seen = refl

ring_walk : get_neighbors ring 1 ≡ some ("b" ∷ "a" ∷ [], 1 ∷ 0 ∷ [])
unfolding get_neighbors dynamo_kvsrv_pbs.Prelude.contains dynamo_kvsrv_pbs.Ring.owner get_or get
ring_walk = refl

abbrev ring_nodes : List String
ring_nodes = "a" ∷ "b" ∷ []

ring_nodes-IsDistinct : IsDistinct ring_nodes
unfolding contains
ring_nodes-IsDistinct = (refl, (refl, tt))

ring_owners :
    (o : String)
    → contains ring_nodes o ≡ true
    → (s : ℕ) × (s < ring.num_sectors) × (owner ring s ≡ o)
unfolding contains owner get_or get
ring_owners o h = elim (Bool-cases ("a" == o)) [
  | inl e ↦ (0, omega arith, (string_eq.beq_iff "a" o).0 e)
  | inr e ↦ (1, omega arith, (string_eq.beq_iff "b" o).0 (ground (arith, h, e)))
]

get_neighbors_returns_example : get_neighbors ring 1 ≢ none
unfolding target_neighbors
get_neighbors_returns_example =
    get_neighbors_returns ring 1 ring_nodes (omega arith) ring_nodes-IsDistinct (omega arith)
      ring_owners

compare_iff_example : (compare clock_a clock_b ≡ concurrent) ↔ Compares concurrent clock_a clock_b
compare_iff_example = compare_iff clock_a clock_b concurrent

merge_least_example :
    Below clock_a (merge clock_a clock_b)
    × Below clock_b (merge clock_a clock_b)
    × (Below clock_a clock_b → Below clock_b clock_b → Below (merge clock_a clock_b) clock_b)
merge_least_example = merge_least clock_a clock_b clock_b

get_location_bounds_example :
    ((get_location ring "k").0 < 2)
    × ((get_location ring "k").1 < 1)
    × ((get_location ring "k").0 * 1 + (get_location ring "k").1 ≡ position (2 * 1) 0)
get_location_bounds_example =
    get_location_bounds ring "k" (omega arith) (omega arith) (omega arith) (omega arith)

get_neighbors_lem_example : IsWalk ring ("b" ∷ "a" ∷ []) (1 ∷ 0 ∷ []) × (2 ≡ target_neighbors ring)
get_neighbors_lem_example = get_neighbors_lem ring 1 ("b" ∷ "a" ∷ []) (1 ∷ 0 ∷ []) ring_walk
