-- ===== src/Server/Membership.antt =====
-- src/kvsrv/membership.go: heartbeats, gossip and the failure detector. `now` is `time.Now()`.
pub mod Gossip
pub mod Sync
pub mod Failures
use dynamo_kvsrv_pbs.Prelude.{
  ℕ, ◌+◌, ◌%◌, ◌<◌, String, Bool, true, false, not, ◌&&◌, ◌||◌, Option, none, some, List, [], ◌∷◌,
  ltb, leb, eqb, ◌==◌, string_eq, if◌then◌else◌, contains, length, map,
}
use dynamo_kvsrv_pbs.GoMap.{GoMap, get, get_or, put}
use dynamo_kvsrv_pbs.VClock.{u64_mod}
use dynamo_kvsrv_pbs.Ring
use dynamo_kvsrv_pbs.Rpc.MemberInfo
use dynamo_kvsrv_pbs.Rpc.MemberInfo.{
  MemberInfo, NodeStatus, alive, suspect, dead, is_worse, is_status,
}
use dynamo_kvsrv_pbs.Server.{KvServer}

-- `rpc.MemberInfo{}`
abbrev pub zero_member : MemberInfo
zero_member = record { server_id = ""; heartbeat = 0; status = alive }

unfoldable pub update_member_info : KvServer → ℕ → String → ℕ → NodeStatus → KvServer
update_member_info kv now server_id heartbeat status =
    let member = MemberInfo.update (get_or kv.members server_id zero_member) heartbeat status in
    record kv {
      members = put kv.members server_id member;
      member_last_updated = put kv.member_last_updated server_id now;
    }

unfoldable pub bump_local_heartbeat : KvServer → ℕ → KvServer
unfolding update_member_info
bump_local_heartbeat kv now =
    let counter = (kv.heartbeat_counter + 1) % u64_mod in
    update_member_info (record kv { heartbeat_counter = counter }) now kv.id counter alive

-- The test of `mergeMembers`: a higher heartbeat, or the same one with a worse status.
unfoldable pub supersedes : MemberInfo → MemberInfo → Bool
supersedes member mine =
    ltb mine.heartbeat member.heartbeat
    || eqb member.heartbeat mine.heartbeat && is_worse member mine

-- One round of the loop of `mergeMembers`.
unfoldable pub merge_member : ℕ → MemberInfo → KvServer → KvServer
unfolding supersedes
merge_member now member kv = elim (get kv.members member.server_id) [
  | none ↦ record kv {
    members = put kv.members member.server_id member;
    member_last_updated = put kv.member_last_updated member.server_id now;
  }
  | some mine ↦
      if supersedes member mine
      then update_member_info kv now member.server_id member.heartbeat member.status
      else kv
]

unfoldable pub merge_members : ℕ → List MemberInfo → KvServer → KvServer
merge_members now [] kv = kv
merge_members now (member ∷ infos) kv = merge_members now infos (merge_member now member kv)

unfoldable pub get_all_members : KvServer → List MemberInfo
get_all_members kv = map (λ e. e.1) kv.members

unfoldable pub gossip_sync_members : ℕ → List MemberInfo → KvServer → KvServer × List MemberInfo
gossip_sync_members now infos kv =
    let kv' = merge_members now infos kv in (kv', get_all_members kv')

-- The `switch` of `detectMemberFailures`. A span of time since t is at least d when t + d is not
-- after now.
unfoldable pub judge : KvServer → ℕ → String → MemberInfo → ℕ → KvServer
judge kv now server_id member last_updated =
    if leb (last_updated + kv.cleanup_timeout) now
    then (if not (is_status member.status dead)
        then update_member_info kv now server_id member.heartbeat dead
        else kv)
    else if leb (last_updated + kv.failure_timeout) now
    then (if is_status member.status alive
        then update_member_info kv now server_id member.heartbeat suspect
        else kv)
    else kv

-- One round of the loop of `detectMemberFailures`; a member without a time gets the present one.
unfoldable pub detect_member : ℕ → String → MemberInfo → KvServer → KvServer
unfolding judge
detect_member now server_id member kv =
    if server_id == kv.id then kv else elim (get kv.member_last_updated server_id) [
      | none ↦
          judge (record kv { member_last_updated = put kv.member_last_updated server_id now }) now
            server_id member now
      | some last_updated ↦ judge kv now server_id member last_updated
    ]

-- The loop over the entries that `range kv.members` visits.
unfoldable pub detect_loop : ℕ → GoMap String MemberInfo → KvServer → KvServer
detect_loop now [] kv = kv
detect_loop now ((server_id, member) ∷ members) kv =
    detect_loop now members (detect_member now server_id member kv)

unfoldable pub detect_member_failures : ℕ → KvServer → KvServer
unfolding detect_loop
detect_member_failures now kv = detect_loop now kv.members kv

-- `candidates` of `GetRandomNeighbors`.
unfoldable pub other_members : String → List MemberInfo → List MemberInfo
other_members id [] = []
other_members id (member ∷ members) =
    let rest = other_members id members in if member.server_id == id then rest else member ∷ rest

unfoldable pub take {ℓ} : {A : Type ℓ} → ℕ → List A → List A
take ℕ.zero xs = []
take (ℕ.suc n) [] = []
take (ℕ.suc n) (x ∷ xs) = x ∷ take n xs

-- `shuffle` is `rand.Shuffle`.
unfoldable pub get_random_neighbors :
    (List MemberInfo → List MemberInfo) → KvServer → List MemberInfo
unfolding other_members take
get_random_neighbors shuffle kv =
    let candidates = shuffle (other_members kv.id (get_all_members kv)) in
    let n = kv.num_neighbors in
    take (if eqb n 0 || ltb (length candidates) n then length candidates else n) candidates

unfoldable pub is_in_preference_list : KvServer → List String → Bool
is_in_preference_list kv pref_list = contains pref_list kv.id

unfoldable pub filter_dead_members : KvServer → List String → List String
filter_dead_members kv [] = []
filter_dead_members kv (server_id ∷ rest) =
    let filtered = filter_dead_members kv rest in
    elim (get kv.members server_id) [
      | none ↦ filtered
      | some member ↦ if is_status member.status dead then filtered else server_id ∷ filtered
    ]
