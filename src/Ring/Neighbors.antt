-- ===== src/Ring/Neighbors.antt =====
-- The walk of `GetNeighbors` in src/kvsrv/chr/ring.go.
use dynamo_kvsrv_pbs.Prelude.{
  ℕ, zero, suc, ◌+◌, ◌%◌, ◌≤◌, ◌≡◌, refl, String, false, Option, none, some, List, [], ◌∷◌, ◌++◌,
  arith, ltb, length, map, length-append, contains, contains-append, IsDistinct, string_eq,
  Bool-cases, inl, inr, ltb→lt, ltb→ge,
}
use mathlib.Core.Path.{subst}
use dynamo_kvsrv_pbs.Ring.{Ring, owner, neighbors_loop, get_neighbors, target_neighbors}

-- The nodes are the owners of the sectors, and no node is there twice.
pub record IsWalk (chr : Ring) (nodes : List String) (sectors : List ℕ) : Type 0 where
  pub owners : nodes ≡ map (owner chr) sectors
  pub distinct : IsDistinct nodes

map-append : (f : ℕ → String) (xs ys : List ℕ) → map f (xs ++ ys) ≡ map f xs ++ map f ys
map-append f [] ys = refl
map-append f (x ∷ xs) ys = rw (map-append f xs ys)

IsDistinct-append :
    (xs : List String) (y : String)
    → IsDistinct xs
    → contains xs y ≡ false
    → IsDistinct (xs ++ y ∷ [])
unfolding contains
IsDistinct-append [] y d h = (refl, tt)
IsDistinct-append (x ∷ xs) y d h = (
  rw contains-append (ground (arith, string_eq.beq_iff x y, string_eq.beq_iff y x, d.0)),
  IsDistinct-append xs y d.1 (ground arith),
)

-- What a result of the walk is.
Walked : Ring → ℕ → Option (List String × List ℕ) → Type 0
Walked chr target none = Unit
Walked chr target (some (ns, ss)) = IsWalk chr ns ss × (length ns ≡ target)

neighbors_loop-Walked :
    (fuel : ℕ) (chr : Ring) (target : ℕ) (nodes : List String) (sectors : List ℕ) (sector : ℕ)
    → IsWalk chr nodes sectors
    → length nodes ≤ target
    → Walked chr target (neighbors_loop fuel chr target nodes sectors sector)
unfolding neighbors_loop Walked
neighbors_loop-Walked zero chr target nodes sectors sector w h =
    elim (Bool-cases (ltb (length nodes) target)) [
      | inl e ↦ rw (e, Walked) tt
      | inr e ↦ rw (e, Walked) (w, (omega (arith, h, ltb→ge (length nodes) target e)))
    ]
neighbors_loop-Walked (suc fuel) chr target nodes sectors sector w h =
    elim (Bool-cases (ltb (length nodes) target)) [
      | inr e ↦ rw (e, Walked) (w, (omega (arith, h, ltb→ge (length nodes) target e)))
      | inl e ↦ elim (Bool-cases (contains nodes (owner chr sector))) [
        | inl c ↦
            rw (e, c, Walked)
              (neighbors_loop-Walked fuel chr target nodes sectors ((sector + 1) % chr.num_sectors)
                w h)
        | inr c ↦
            let nodes' = nodes ++ owner chr sector ∷ [] in
            let sectors' = sectors ++ sector ∷ [] in
            let w' : IsWalk chr nodes' sectors' = record {
              owners = rw (map-append (owner chr) sectors (sector ∷ []), w.owners);
              distinct = IsDistinct-append nodes (owner chr sector) w.distinct c;
            } in
            rw (e, c, Walked)
              (neighbors_loop-Walked fuel chr target nodes' sectors'
                ((sector + 1) % chr.num_sectors) w'
                (omega (
                  arith,
                  length-append nodes (owner chr sector ∷ []),
                  ltb→lt (length nodes) target e,
                )))
      ]
    ]

-- What GetNeighbors returns when its walk ends: pairwise different nodes, as many as the ring
-- asks for, each the owner of the sector at its position.
pub get_neighbors_lem :
    (chr : Ring) (sector : ℕ) (ns : List String) (ss : List ℕ)
    → get_neighbors chr sector ≡ some (ns, ss)
    → IsWalk chr ns ss × (length ns ≡ target_neighbors chr)
unfolding get_neighbors
get_neighbors_lem chr sector ns ss e =
    let w : IsWalk chr [] [] = record { owners = refl; distinct = tt } in
    let k =
      neighbors_loop-Walked chr.num_sectors chr (target_neighbors chr) [] [] sector w
        (omega arith) in
    unfold Walked in subst (Walked chr (target_neighbors chr)) e k
