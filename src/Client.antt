-- ===== src/Client.antt =====
-- src/kvsrv/client.go: the clerk. `call` is the network: what the call of each attempt, counted from 0,
-- brings; `none` is a failed call. The ring and the coordinator's name stand behind `call`.
pub mod Gets
pub mod Latest
pub mod Puts
use dynamo_kvsrv_pbs.Prelude.{
  ℕ, zero, suc, ◌+◌, String, Bool, true, false, not, ◌&&◌, ◌||◌, Option, none, some, List, [], ◌∷◌,
  ltb, if◌then◌else◌,
}
use dynamo_kvsrv_pbs.VClock.{Cmp, equal, before, after, concurrent}
use dynamo_kvsrv_pbs.Rpc.Context
use dynamo_kvsrv_pbs.Rpc.Context.{Context}
use dynamo_kvsrv_pbs.Rpc.Object.{Object, compare_to}
use dynamo_kvsrv_pbs.Rpc.Messages.{
  Err, ok, err_rpc_failure, err_no_key, err_version, err_maybe, err_not_coordinator, PutArgs,
  GetReply,
}

abbrev pub max_retry : ℕ
max_retry = 3

-- The two tests of the loop of `pickLatestObject`.
unfoldable pub is_later : Object → Object → Bool
is_later sibling latest = elim (compare_to sibling latest) [
  | after ↦ true
  | before ↦ false
  | _ ↦ ltb latest.context.timestamp sibling.context.timestamp
]

unfoldable pub latest_from : Object → List Object → Object
latest_from latest [] = latest
latest_from latest (sibling ∷ siblings) =
    latest_from (if is_later sibling latest then sibling else latest) siblings

-- `none` is the panic on an empty slice.
unfoldable pub pick_latest_object : List Object → Option Object
unfolding latest_from
pick_latest_object [] = none
pick_latest_object (sibling ∷ siblings) = some (latest_from sibling siblings)

abbrev pub is_turned_down : Err → Bool
is_turned_down err_not_coordinator = true
is_turned_down _ = false

-- The loop of `CoordGet` with the attempts that are left; `answered` is its variable `ok`.
unfoldable pub coord_get_loop : (ℕ → Option GetReply) → ℕ → ℕ → Bool → Option (List Object) × Err
coord_get_loop call zero retry answered =
    (none, if not answered then err_rpc_failure else err_not_coordinator)
coord_get_loop call (suc left) retry answered =
    let failed = coord_get_loop call left (retry + 1) false in
    let turned_down = coord_get_loop call left (retry + 1) true in
    elim (call retry) [
      | none ↦ failed
      | some reply ↦ if is_turned_down reply.err then turned_down else elim reply.objects [
        | [] ↦ (none, err_no_key)
        | o ∷ objects ↦ (some (o ∷ objects), ok)
      ]
    ]

unfoldable pub coord_get : (ℕ → Option GetReply) → Option (List Object) × Err
unfolding coord_get_loop
coord_get call = coord_get_loop call max_retry 0 false

unfoldable pub put_args : String → String → Context → PutArgs
put_args key value context = record {
  key = key;
  object = record { value = value; context = context };
  base_context = context;
}

-- The loop of `CoordPut` with the attempts that are left; `answered` is its variable `ok`.
unfoldable pub coord_put_loop : (ℕ → Option Err) → ℕ → ℕ → Bool → Bool → Err
coord_put_loop call zero retry answered had_rpc_failure =
    if not answered then err_maybe else err_not_coordinator
coord_put_loop call (suc left) retry answered had_rpc_failure =
    let failed = coord_put_loop call left (retry + 1) false true in
    let turned_down = coord_put_loop call left (retry + 1) true had_rpc_failure in
    elim (call retry) [
      | none ↦ failed
      | some err_not_coordinator ↦ turned_down
      | some err_version ↦ if had_rpc_failure then err_maybe else err_version
      | some err ↦ err
    ]

-- `call` stands for the calls with the arguments of `put_args`.
unfoldable pub coord_put : (ℕ → Option Err) → Err
unfolding coord_put_loop
coord_put call = coord_put_loop call max_retry 0 false false

-- `Get`: the value, its context and the error; `none` is a panic.
unfoldable pub get : (ℕ → Option GetReply) → ℕ → Option (String × Context × Err)
unfolding coord_get
get call now =
    let (found, err) = coord_get call in
    elim found [
      | none ↦ some ("", Context.new_context now, err)
      | some siblings ↦ elim siblings [
        | o ∷ [] ↦ some (o.value, o.context, err)
        | several ↦ elim (pick_latest_object several) [
          | none ↦ none
          | some o ↦ some (o.value, o.context, err)
        ]
      ]
    ]
