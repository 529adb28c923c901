-- ===== src/Rpc/MemberInfo.antt =====
-- src/kvsrv/rpc/memberInfo.go
use dynamo_kvsrv_pbs.Prelude.{
  ℕ, String, Bool, true, false, List, [], ◌∷◌, ltb, if◌then◌else◌, ◌==◌, string_eq,
}

pub data NodeStatus : Type 0 where
  alive suspect dead : NodeStatus

-- The numbers of `iota`.
abbrev pub rank : NodeStatus → ℕ
rank alive = 0
rank suspect = 1
rank dead = 2

pub record MemberInfo : Type 0 where
  pub server_id : String
  pub heartbeat : ℕ
  pub status : NodeStatus

unfoldable pub update : MemberInfo → ℕ → NodeStatus → MemberInfo
update m heartbeat status = record m { heartbeat = heartbeat; status = status }

unfoldable pub is_in : MemberInfo → List MemberInfo → Bool
is_in m [] = false
is_in m (selected ∷ rest) = if m.server_id == selected.server_id then true else is_in m rest

-- `m.Status > other.Status`
unfoldable pub is_worse : MemberInfo → MemberInfo → Bool
is_worse m other = ltb (rank other.status) (rank m.status)

abbrev pub is_status : NodeStatus → NodeStatus → Bool
is_status alive alive = true
is_status suspect suspect = true
is_status dead dead = true
is_status _ _ = false

unfoldable pub is_alive : MemberInfo → Bool
is_alive m = is_status m.status alive

unfoldable pub is_suspect : MemberInfo → Bool
is_suspect m = is_status m.status suspect

unfoldable pub is_dead : MemberInfo → Bool
is_dead m = is_status m.status dead
