-- ===== src/Tests/Members.antt =====
-- The theorems on membership and hinted handoff on concrete servers.
use dynamo_kvsrv_pbs.Prelude.{
  ◌+◌, ◌≡◌, ◌≢◌, ◌⊎◌, refl, String, false, if◌then◌else◌, ◌&&◌, [], ◌∷◌, some, length, IsDistinct,
  contains, ◌==◌, string_eq,
}
use dynamo_kvsrv_pbs.GoMap.{keys, get}
use dynamo_kvsrv_pbs.Rpc.MemberInfo.{alive, suspect}
use dynamo_kvsrv_pbs.Rpc.Messages.{ok, PutArgs}
use dynamo_kvsrv_pbs.Server.{KvServer}
use dynamo_kvsrv_pbs.Server.Membership.{
  merge_members, gossip_sync_members, get_all_members, detect_member_failures,
}
use dynamo_kvsrv_pbs.Server.Membership.Gossip.{behind, entry, all_behind, merge_members_least}
use dynamo_kvsrv_pbs.Server.Membership.Sync.{said, IsTable, gossip_sync_agrees}
use dynamo_kvsrv_pbs.Server.Membership.Failures.{judged, detect_member_failures_lem}
use dynamo_kvsrv_pbs.Server.Handoff.{hints_for, get_hints, is_alive, replay_hints}
use dynamo_kvsrv_pbs.Server.Handoff.Matches.{IsSamePut}
use dynamo_kvsrv_pbs.Server.Handoff.Replay.{IsIn, IsDelivered, delivered, replay_hints_lem}
use dynamo_kvsrv_pbs.Tests.Data.{member_of, server, other_server, put_left, replied}

server-IsDistinct : IsDistinct (keys server.members)
unfolding contains
server-IsDistinct = (refl, (refl, (refl, tt)))

server-IsTable : IsTable server
server-IsTable = record { distinct = server-IsDistinct; keyed = (refl, (refl, (refl, tt))) }

other_server-IsTable : IsTable other_server
unfolding contains
other_server-IsTable = record {
  distinct = (refl, (refl, (refl, tt)));
  keyed = (refl, (refl, (refl, tt)));
}

server_has_c : entry server "c" ≡ some (member_of "c" 3 alive)
unfolding get
server_has_c = refl

server_time_c : get server.member_last_updated "c" ≡ some 5
unfolding get
server_time_c = refl

c_is_other : ("c" == server.id) ≡ false
c_is_other = refl

-- Server a with one hint for c.
abbrev hinting : KvServer
hinting = record server { hints = ("c", put_left ∷ []) ∷ [] }

merge_members_least_example :
    behind
      (entry (merge_members 20 (member_of "b" 2 suspect ∷ []) server) "b")
      (some (member_of "b" 2 suspect))
    ≡ (behind (entry server "b") (some (member_of "b" 2 suspect))
        && all_behind "b" (member_of "b" 2 suspect ∷ []) (some (member_of "b" 2 suspect)))
merge_members_least_example =
    merge_members_least 20 (member_of "b" 2 suspect ∷ []) server "b"
      (some (member_of "b" 2 suspect))

gossip_sync_agrees_example :
    said (
      entry
        (merge_members 21 (gossip_sync_members 20 (get_all_members server) other_server).1 server)
        "b")
    ≡ said (entry (gossip_sync_members 20 (get_all_members server) other_server).0 "b")
gossip_sync_agrees_example =
    gossip_sync_agrees 20 21 server other_server "b" server-IsTable other_server-IsTable

detect_member_failures_lem_example :
    entry (detect_member_failures 9 server) "c"
    ≡ some (record (member_of "c" 3 alive) { status = judged 10 3 9 5 alive })
detect_member_failures_lem_example =
    detect_member_failures_lem 9 server "c" (member_of "c" 3 alive) 5 server-IsTable server_has_c
      server_time_c c_is_other

replay_hints_lem_example :
    ((x : PutArgs)
      → IsIn x (hints_for hinting "c")
      → IsIn x (hints_for (replay_hints hinting "c" (replied ok ∷ [])) "c")
        ⊎ ((d : PutArgs) × IsDelivered d (get_hints hinting "c") (replied ok ∷ []) × IsSamePut x d))
    × (length (hints_for hinting "c")
        ≡ length (hints_for (replay_hints hinting "c" (replied ok ∷ [])) "c")
          + (if is_alive hinting "c"
              then delivered (get_hints hinting "c") (replied ok ∷ [])
              else 0))
    × ((other : String)
        → "c" ≢ other
        → hints_for (replay_hints hinting "c" (replied ok ∷ [])) other ≡ hints_for hinting other)
    × (is_alive hinting "c" ≡ false → replay_hints hinting "c" (replied ok ∷ []) ≡ hinting)
replay_hints_lem_example = replay_hints_lem hinting "c" (replied ok ∷ [])
