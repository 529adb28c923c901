-- ===== src/Server/Handoff.antt =====
-- src/kvsrv/hinted_handoff.go: puts that are kept for a server that is down.
pub mod Laws
pub mod Matches
pub mod Replay
use dynamo_kvsrv_pbs.Prelude.{
  ℕ, String, Bool, true, false, not, ◌&&◌, ◌||◌, Option, none, some, List, [], ◌∷◌, ◌++◌, ◌==◌,
  string_eq, if◌then◌else◌, contains, map, before_string,
}
use dynamo_kvsrv_pbs.GoMap.{GoMap, get, get_or, put, delete, keys}
use dynamo_kvsrv_pbs.Rpc.Context
use dynamo_kvsrv_pbs.Rpc.MemberInfo.{MemberInfo, alive, dead, is_status}
use dynamo_kvsrv_pbs.Rpc.Messages
use dynamo_kvsrv_pbs.Rpc.Messages.{Err, ok, PutArgs, HintedPutArgs, ForwardPutResult}
use dynamo_kvsrv_pbs.Server.{KvServer}
use dynamo_kvsrv_pbs.Server.ReadRepair.{is_ok_err}

-- `kv.hints[target]`
unfoldable pub hints_for : KvServer → String → List PutArgs
hints_for kv target = get_or kv.hints target []

unfoldable pub hinted_put : KvServer → HintedPutArgs → KvServer × Err
hinted_put kv args = (
  record kv {
    hints =
        put kv.hints args.target_server
          (hints_for kv args.target_server ++ Messages.copy args.put_args ∷ []);
  },
  ok,
)

unfoldable pub is_alive : KvServer → String → Bool
is_alive kv server_id = elim (get kv.members server_id) [
  | none ↦ false
  | some member ↦ is_status member.status alive
]

unfoldable pub is_dead : KvServer → String → Bool
is_dead kv server_id = elim (get kv.members server_id) [
  | none ↦ false
  | some member ↦ is_status member.status dead
]

unfoldable pub matches : PutArgs → PutArgs → Bool
matches hint matched =
    hint.key == matched.key
    && hint.object.value == matched.object.value
    && Context.is_equal hint.object.context matched.object.context
    && Context.is_equal hint.base_context matched.base_context

-- The loop of `removeHint`: the hints without the first match, if there is one.
unfoldable pub without_match : List PutArgs → PutArgs → Option (List PutArgs)
without_match [] matched = none
without_match (hint ∷ hints) matched =
    let rest = without_match hints matched in
    if matches hint matched
    then some hints
    else elim rest [ none ↦ none | some hints' ↦ some (hint ∷ hints') ]

-- `kv.hints[target] = hints`, or the deletion of the key where no hint is left.
unfoldable pub set_hints : KvServer → String → List PutArgs → KvServer
set_hints kv target [] = record kv { hints = delete kv.hints target }
set_hints kv target (h ∷ hints) = record kv { hints = put kv.hints target (h ∷ hints) }

unfoldable pub remove_hint : KvServer → String → PutArgs → KvServer
remove_hint kv target matched = elim (without_match (hints_for kv target) matched) [
  | none ↦ kv
  | some hints ↦ set_hints kv target hints
]

unfoldable pub get_hints : KvServer → String → List PutArgs
get_hints kv target = map Messages.copy (hints_for kv target)

unfoldable pub get_all_targets : KvServer → List String
get_all_targets kv = keys kv.hints

-- The loop of `replayHints`, with what each call of `ReplicaPut` at the target comes to.
unfoldable pub replay_loop : KvServer → String → List PutArgs → List ForwardPutResult → KvServer
replay_loop kv target [] results = kv
replay_loop kv target (hint ∷ hints) [] = kv
replay_loop kv target (hint ∷ hints) (res ∷ results) =
    replay_loop (if res.is_ok && is_ok_err res.err then remove_hint kv target hint else kv) target
      hints results

unfoldable pub replay_hints : KvServer → String → List ForwardPutResult → KvServer
unfolding replay_loop
replay_hints kv target results =
    if not (is_alive kv target) then kv else replay_loop kv target (get_hints kv target) results

-- `candidates[0]` after `sort.Strings`: the least of the candidates.
unfoldable pub least_string : String → List String → String
least_string best [] = best
least_string best (s ∷ rest) = least_string (if before_string s best then s else best) rest

-- `candidates` of `chooseHandoffNode`.
unfoldable pub handoff_candidates : List String → GoMap String MemberInfo → List String
handoff_candidates exclude [] = []
handoff_candidates exclude ((server_id, member) ∷ members) =
    let rest = handoff_candidates exclude members in
    if contains exclude server_id || is_status member.status dead then rest else server_id ∷ rest

-- `candidates[0]`, if there is a candidate.
unfoldable pub first_sorted : List String → Option String
unfolding least_string
first_sorted [] = none
first_sorted (s ∷ rest) = some (least_string s rest)

unfoldable pub choose_handoff_node : KvServer → List String → Option String
choose_handoff_node kv exclude = first_sorted (handoff_candidates exclude kv.members)
