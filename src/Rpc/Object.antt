-- ===== src/Rpc/Object.antt =====
-- src/kvsrv/rpc/object.go: versions of a value, and the list of siblings.
pub mod Seen
pub mod Antichain
pub mod Sorted
pub mod Copies
use dynamo_kvsrv_pbs.Prelude.{
  ℕ, zero, suc, String, Bool, true, false, ◌&&◌, ◌||◌, not, Option, none, some, List, [], ◌∷◌, map,
  ltb, if◌then◌else◌, length,
}
use mathlib.Core.Option
use dynamo_kvsrv_pbs.VClock.{Cmp, before_or_equal, equal, before, after, concurrent}
use dynamo_kvsrv_pbs.Rpc.Context
use dynamo_kvsrv_pbs.Rpc.Context.{Context}

pub record Object : Type 0 where
  pub value : String
  pub context : Context

-- A sort function, or nil.
abbrev pub SortFunc : Type 0
SortFunc = Option (Object → Object → Bool)

unfoldable pub sort_by_timestamp : Object → Object → Bool
sort_by_timestamp i j = ltb i.context.timestamp j.context.timestamp

-- The default for a nil sort function.
unfoldable pub sort_or_default : SortFunc → Object → Object → Bool
unfolding sort_by_timestamp
sort_or_default sort = Option.get_or sort sort_by_timestamp

abbrev pub compare_to : Object → Object → Cmp
compare_to obj other = Context.compare obj.context other.context

unfoldable pub can_be_added_to : Object → List Object → Bool
can_be_added_to obj [] = true
can_be_added_to obj (other ∷ others) =
    if before_or_equal (compare_to obj other) then false else can_be_added_to obj others

-- The loop of `AddObject` over the siblings that are left, and the append behind it: what is kept.
unfoldable pub add_loop : (Object → Object → Bool) → Object → Bool → List Object → List Object
add_loop sort candidate added [] = if added then [] else candidate ∷ []
add_loop sort candidate added (sibling ∷ siblings) = elim (compare_to candidate sibling) [
  | after ↦ add_loop sort candidate added siblings
  | equal ↦ sibling ∷ add_loop sort candidate true siblings
  | before ↦
      if not added
      then candidate ∷ sibling ∷ add_loop sort candidate true siblings
      else sibling ∷ add_loop sort candidate added siblings
  | concurrent ↦
      if not added && sort candidate sibling
      then candidate ∷ sibling ∷ add_loop sort candidate true siblings
      else sibling ∷ add_loop sort candidate added siblings
]

unfoldable pub add_object : List Object → Object → SortFunc → List Object
unfolding add_loop sort_or_default
add_object siblings candidate sort = add_loop (sort_or_default sort) candidate false siblings

-- One of the two loops of `MergeObjects`.
unfoldable pub add_all : List Object → List Object → List Object
unfolding add_object
add_all merged [] = merged
add_all merged (obj ∷ objects) = add_all (add_object merged obj none) objects

unfoldable pub merge_objects : List Object → List Object → List Object
unfolding add_all
merge_objects objects other_objects = add_all (add_all [] objects) other_objects

-- The loop `if obj.CanBeAddedTo(siblings) { siblings = AddObject(siblings, obj, nil) }`.
unfoldable pub add_new : List Object → List Object → List Object
add_new siblings [] = siblings
add_new siblings (obj ∷ objects) =
    add_new (if can_be_added_to obj siblings then add_object siblings obj none else siblings)
      objects

unfoldable pub copy_object : Object → Object
copy_object sibling = record { value = sibling.value; context = Context.copy sibling.context }

unfoldable pub copy_objects : List Object → List Object
unfolding copy_object
copy_objects siblings = map copy_object siblings

unfoldable pub is_equal : Object → Object → Bool
is_equal obj other = Context.is_equal obj.context other.context

abbrev is_after : Cmp → Bool
is_after c = elim c [ after ↦ true | _ ↦ false ]

-- The loop of `IsOrdered`, from the sibling before the current one.
unfoldable pub ordered_from : (Object → Object → Bool) → Object → List Object → Bool
ordered_from sort prev [] = true
ordered_from sort prev (cur ∷ rest) =
    if is_after (compare_to prev cur)
    then false
    else if not (sort prev cur)
    then false
    else ordered_from sort cur rest

unfoldable pub is_ordered : List Object → SortFunc → Bool
unfolding ordered_from
is_ordered [] sort = true
is_ordered (first ∷ rest) sort = ordered_from (sort_or_default sort) first rest

-- The test of `SortObjects` on copied[j] and copied[i].
unfoldable pub swaps : (Object → Object → Bool) → Object → Object → Bool
swaps sort y x = elim (compare_to y x) [
  | before ↦ true
  | equal ↦ sort y x
  | concurrent ↦ sort y x
  | after ↦ false
]

-- The inner loop of `SortObjects`: what stands at i, and behind it, after the swaps.
unfoldable pub sweep : (Object → Object → Bool) → Object → List Object → Object × List Object
sweep sort x [] = (x, [])
sweep sort x (y ∷ ys) =
    let swap = swaps sort y x in
    let (head, rest) = sweep sort (if swap then y else x) ys in
    (head, (if swap then x else y) ∷ rest)

-- The outer loop; a round for each position.
unfoldable pub sort_rounds : (Object → Object → Bool) → ℕ → List Object → List Object
unfolding sweep
sort_rounds sort zero objects = objects
sort_rounds sort (suc n) [] = []
sort_rounds sort (suc n) (x ∷ ys) =
    let (head, rest) = sweep sort x ys in head ∷ sort_rounds sort n rest

unfoldable pub sort_objects : List Object → SortFunc → List Object
unfolding sort_rounds copy_objects
sort_objects siblings sort =
    sort_rounds (sort_or_default sort) (length siblings) (copy_objects siblings)
