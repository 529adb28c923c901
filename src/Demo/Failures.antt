-- ===== src/Demo/Failures.antt =====
-- `pbsSingleReplicaFailureLoop` of src/kvsrv/pbs_demo.go: which server it takes down and brings back,
-- and when. The victims are servers of the experiment, and no duration of the options is negative.
pub mod Quiet
pub mod Recovery
use dynamo_kvsrv_pbs.Prelude.{
  ℕ, zero, suc, ◌+◌, ◌-◌, Bool, true, false, not, ◌&&◌, String, Option, none, some, List, [], ◌∷◌,
  ◌++◌, length, ltb, eqb, if◌then◌else◌, string_eq, ◌==◌,
}
use dynamo_kvsrv_pbs.Rpc.MemberInfo.{NodeStatus, alive, dead}
use dynamo_kvsrv_pbs.Demo.{PbsDemoOptions, unique_string_ids}
use dynamo_kvsrv_pbs.Eval.Stimulator.{take}

-- What the loop does: it pauses a server's membership gossip or resumes it, marks a server in all
-- member maps, cuts it off the network or connects it, and sleeps.
pub data Event : Type 0 where
  pause_gossip : String → Bool → Event
  mark : String → NodeStatus → Event
  isolate : String → Bool → Event
  sleep : ℕ → Event

unfoldable pub take_down : String → List Event
take_down id = pause_gossip id true ∷ mark id dead ∷ isolate id true ∷ []

unfoldable pub bring_up : String → List Event
bring_up id = mark id alive ∷ isolate id false ∷ pause_gossip id false ∷ []

unfoldable pub sleep_for : ℕ → List Event
sleep_for d = if eqb d 0 then [] else sleep d ∷ []

-- The next victim with a name, and the victims behind it.
unfoldable pub next_victim : List String → Option (String × List String)
next_victim [] = none
next_victim (id ∷ ids) = let rest = next_victim ids in if id == "" then rest else some (id, ids)

-- The sleep between two phases.
unfoldable pub sleep_between : ℕ → List String → List Event
unfolding sleep_for
sleep_between up [] = []
sleep_between up (id ∷ ids) = sleep_for up

-- A phase with one victim, and two phases that overlap.
unfoldable pub one_phase : PbsDemoOptions → String → List Event
unfolding take_down bring_up sleep_for
one_phase opts id = take_down id ++ sleep_for opts.failure_down_duration ++ bring_up id

unfoldable pub two_phases : PbsDemoOptions → String → String → List Event
unfolding take_down bring_up sleep_for
two_phases opts id next =
    let alone = sleep_for (opts.failure_down_duration - opts.failure_overlap) in
    take_down id
    ++ alone
    ++ take_down next
    ++ sleep_for opts.failure_overlap
    ++ bring_up id
    ++ alone
    ++ bring_up next

-- The loop over the victims. Its fuel is their number, and each round takes one at least.
unfoldable pub phases : ℕ → PbsDemoOptions → List String → List Event
unfolding one_phase two_phases next_victim sleep_between
phases fuel opts [] = []
phases zero opts (vid ∷ rest) = []
phases (suc fuel) opts (vid ∷ rest) =
    let alone =
      one_phase opts vid ++ sleep_between opts.failure_up_duration rest ++ phases fuel opts rest in
    let skip = phases fuel opts rest in
    let overlap =
      ltb 0 opts.failure_overlap && ltb opts.failure_overlap opts.failure_down_duration in
    if vid == "" then skip else elim (next_victim rest) [
      | none ↦ alone
      | some (next, behind) ↦
          let both =
            two_phases opts vid next
            ++ sleep_between opts.failure_up_duration behind
            ++ phases fuel opts behind in
          if overlap then both else alone
    ]

-- The one phase where no time between phases is set. With neither a duration nor a time of recovery
-- the victim stays down until the experiment ends.
unfoldable pub single_phase : PbsDemoOptions → List String → List Event
unfolding take_down bring_up sleep_for
single_phase opts [] = []
single_phase opts (vid ∷ rest) =
    if vid == ""
    then []
    else if ltb 0 opts.failure_down_duration
    then take_down vid ++ sleep_for opts.failure_down_duration ++ bring_up vid
    else if ltb 0 opts.failure_recover_after
    then take_down vid
      ++ sleep_for (opts.failure_recover_after - opts.failure_start_after)
      ++ bring_up vid
    else take_down vid

unfoldable pub schedule : PbsDemoOptions → List String → List Event
unfolding phases single_phase sleep_for
schedule opts victims =
    sleep_for opts.failure_start_after
    ++ (if ltb 0 opts.failure_up_duration
        then phases (length victims) opts victims
        else single_phase opts victims)

-- The deferred function.
unfoldable pub restore : List String → List Event
restore [] = []
restore (id ∷ ids) = pause_gossip id false ∷ mark id alive ∷ isolate id false ∷ restore ids

-- `steps` is how many events come before the experiment ends.
unfoldable pub failure_loop : PbsDemoOptions → List String → ℕ → List Event
unfolding schedule restore
failure_loop opts [] steps = []
failure_loop opts (vid ∷ rest) steps =
    take steps (schedule opts (vid ∷ rest)) ++ restore (unique_string_ids (vid ∷ rest))
