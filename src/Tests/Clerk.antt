-- ===== src/Tests/Clerk.antt =====
-- The theorems on the clerk on concrete replies.
use dynamo_kvsrv_pbs.Prelude.{
  ℕ, zero, suc, ◌≤◌, ◌<◌, ◌≡◌, ◌↔◌, refl, List, [], ◌∷◌, Option, none, some,
}
use dynamo_kvsrv_pbs.Rpc.Object.Antichain.{IsAntichain}
use dynamo_kvsrv_pbs.Rpc.Messages.{
  Err, err_no_key, err_version, err_not_coordinator, err_read_quorum_not_met, GetReply,
}
use dynamo_kvsrv_pbs.Client.{max_retry, coord_put, coord_get}
use dynamo_kvsrv_pbs.Client.Puts.{AllTurnedDown, coord_put_conflict}
use dynamo_kvsrv_pbs.Client.Gets.{IsLost, IsWithoutObjects, coord_get_no_key}
use dynamo_kvsrv_pbs.Tests.Data.{left, right}

-- The first attempt is turned down, and the later ones find a conflict.
abbrev put_replies : ℕ → Option Err
put_replies zero = some err_not_coordinator
put_replies (suc i) = some err_version

-- The first attempt fails, and the later ones find no read quorum.
abbrev read_replies : ℕ → Option GetReply
read_replies zero = none
read_replies (suc i) = some (record { objects = []; err = err_read_quorum_not_met })

put_conflicts : coord_put put_replies ≡ err_version
unfolding coord_put
put_conflicts = refl

two-IsAntichain : IsAntichain (left ∷ right ∷ [])
unfolding dynamo_kvsrv_pbs.Rpc.Context.compare dynamo_kvsrv_pbs.VClock.compare
    dynamo_kvsrv_pbs.Prelude.contains dynamo_kvsrv_pbs.VClock.get_version
    dynamo_kvsrv_pbs.GoMap.get_or dynamo_kvsrv_pbs.GoMap.get
two-IsAntichain = ((refl, tt), (tt, tt))

coord_put_conflict_example :
    (j : ℕ) × (j < max_retry) × (put_replies j ≡ some err_version) × AllTurnedDown put_replies 0 j
coord_put_conflict_example = coord_put_conflict put_replies put_conflicts

coord_get_no_key_example : ((coord_get read_replies).1 ≡ err_no_key) ↔ (
    (j : ℕ) × (0 ≤ j)
    × (j < max_retry)
    × IsWithoutObjects (read_replies j)
    × ((i : ℕ) → 0 ≤ i → i < j → IsLost (read_replies i)))
coord_get_no_key_example = coord_get_no_key read_replies
