-- ===== src/Server/Membership/Sync.antt =====
-- One exchange of member lists: `SyncMembers` and `GossipSyncMembers` of src/kvsrv/membership.go.
use dynamo_kvsrv_pbs.Prelude.{
  ℕ, ◌≡◌, refl, sym, ap, String, true, false, ◌||◌, Option, none, some, List, [], ◌∷◌, arith, ◌==◌,
  string_eq, Bool-cases, Option-cases, inl, inr, All, contains, IsDistinct, map,
}
use mathlib.Core.Path.{subst, ap₂}
use mathlib.Core.Option
use dynamo_kvsrv_pbs.GoMap.{GoMap, keys, get, get_or, has, put, get-put, has-contains}
use dynamo_kvsrv_pbs.Rpc.MemberInfo
use dynamo_kvsrv_pbs.Rpc.MemberInfo.{MemberInfo, NodeStatus, alive, suspect, dead, rank}
use dynamo_kvsrv_pbs.Server.{KvServer}
use dynamo_kvsrv_pbs.Server.Membership.{
  zero_member, supersedes, update_member_info, merge_member, merge_members, get_all_members,
  gossip_sync_members,
}
use dynamo_kvsrv_pbs.Server.Membership.Gossip.{
  merge_member_new, merge_member_known, behind, entry, all_behind, merge_members_least,
}

-- The heartbeat and the status of an entry.
abbrev pub said : Option MemberInfo → Option (ℕ × NodeStatus)
said none = none
said (some m) = some (m.heartbeat, m.status)

-- Every entry of the map is about the server that is its key.
abbrev pub IsKeyed : GoMap String MemberInfo → Type 0
IsKeyed members = All (λ e. e.1.server_id ≡ e.0) members

-- The member map of a server.
pub record IsTable (kv : KvServer) : Type 0 where
  pub distinct : IsDistinct (keys kv.members)
  pub keyed : IsKeyed kv.members

rank_injective : (s t : NodeStatus) → rank s ≡ rank t → s ≡ t
rank_injective alive alive e = refl
rank_injective alive suspect e = absurd (omega (arith, e))
rank_injective alive dead e = absurd (omega (arith, e))
rank_injective suspect alive e = absurd (omega (arith, e))
rank_injective suspect suspect e = refl
rank_injective suspect dead e = absurd (omega (arith, e))
rank_injective dead alive e = absurd (omega (arith, e))
rank_injective dead suspect e = absurd (omega (arith, e))
rank_injective dead dead e = refl

-- An entry is known by what it is behind.
said_least :
    (x y : Option MemberInfo)
    → ((u : Option MemberInfo) → behind x u ≡ behind y u)
    → said x ≡ said y
said_least none none h = refl
said_least none (some n) h = let k : true ≡ false = h none in absurd (cc)
said_least (some m) none h = let k : false ≡ true = h none in absurd (cc)
said_least (some m) (some n) h =
    let p = h (some m) in
    let q = h (some n) in
    let hb : m.heartbeat ≡ n.heartbeat = ground (arith, p, q) in
    let st : m.status ≡ n.status = rank_injective m.status n.status (ground (arith, p, q)) in
    ap₂ (λ a b. some (a, b)) hb st

absent_behind :
    (members : GoMap String MemberInfo) (id : String) (u : Option MemberInfo)
    → contains (keys members) id ≡ false
    → behind (get members id) u ≡ true
unfolding has
absent_behind members id u h = elim (Option-cases (get members id)) [
  | inl e ↦ ap (λ z. behind z u) e
  | inr (m, e) ↦ absurd (ground (arith, has-contains members id))
]

all_behind-list :
    (members : GoMap String MemberInfo) (id : String) (u : Option MemberInfo)
    → IsDistinct (keys members)
    → IsKeyed members
    → all_behind id (map (λ e. e.1) members) u ≡ behind (get members id) u
unfolding get
all_behind-list [] id u d k = refl
all_behind-list ((j, m) ∷ rest) id u d k = elim (Bool-cases (j == id)) [
  | inl i ↦
      let same : (m.server_id == id) ≡ true = rw (k.0) i in
      let out : contains (keys rest) id ≡ false =
        subst (λ x. contains (keys rest) x ≡ false) ((string_eq.beq_iff j id).0 i) d.0 in
      rw (i, behind)
        (ground (arith, same, all_behind-list rest id u d.1 k.1, absent_behind rest id u out))
  | inr i ↦
      let other : (m.server_id == id) ≡ false = rw (k.0) i in
      rw (i, behind) (ground (arith, other, all_behind-list rest id u d.1 k.1))
]

contains-keys-put :
    (m : GoMap String MemberInfo) (k : String) (v : MemberInfo) (j : String)
    → contains (keys (put m k v)) j ≡ (k == j || contains (keys m) j)
unfolding has
contains-keys-put m k v j =
    ground (arith, has-contains (put m k v) j, has-contains m j, get-put m k v j)

pub IsDistinct-put :
    (m : GoMap String MemberInfo) (k : String) (v : MemberInfo)
    → IsDistinct (keys m)
    → IsDistinct (keys (put m k v))
unfolding put contains
IsDistinct-put [] k v d = (refl, tt)
IsDistinct-put ((j, w) ∷ m) k v d = elim (Bool-cases (j == k)) [
  | inl e ↦
      rw (e, IsDistinct)
        (subst (λ x. contains (keys m) x ≡ false) ((string_eq.beq_iff j k).0 e) d.0, d.1)
  | inr e ↦
      rw (e, IsDistinct)
        (
          ground
              (arith, contains-keys-put m k v j, string_eq.beq_iff j k, string_eq.beq_iff k j, d.0),
          IsDistinct-put m k v d.1,
        )
]

pub IsKeyed-put :
    (m : GoMap String MemberInfo) (k : String) (v : MemberInfo)
    → IsKeyed m
    → v.server_id ≡ k
    → IsKeyed (put m k v)
unfolding put
IsKeyed-put [] k v h e = (e, tt)
IsKeyed-put ((j, w) ∷ m) k v h e = elim (Bool-cases (j == k)) [
  | inl i ↦ rw (i, IsKeyed, All) (e, h.1)
  | inr i ↦ rw (i, IsKeyed, All) (h.0, IsKeyed-put m k v h.1 e)
]

keyed_entry :
    (m : GoMap String MemberInfo) (k : String) (v : MemberInfo)
    → IsKeyed m
    → get m k ≡ some v
    → v.server_id ≡ k
unfolding get
keyed_entry [] k v h e = absurd (ground arith)
keyed_entry ((j, w) ∷ m) k v h e = elim (Bool-cases (j == k)) [
  | inl i ↦ let k' : some w ≡ some v = rw i at e in ground (arith, k', h.0, string_eq.beq_iff j k)
  | inr i ↦ keyed_entry m k v h.1 (rw i at e)
]

members-update_known :
    (kv : KvServer) (now : ℕ) (s : String) (h : ℕ) (st : NodeStatus) (mine : MemberInfo)
    → entry kv s ≡ some mine
    → put kv.members s (MemberInfo.update mine h st) ≡ (update_member_info kv now s h st).members
unfolding update_member_info get_or
members-update_known kv now s h st mine e =
    sym (ap (λ z. put kv.members s (MemberInfo.update (Option.get_or z zero_member) h st)) e)

update_known-IsTable :
    (kv : KvServer) (now : ℕ) (s : String) (h : ℕ) (st : NodeStatus) (mine : MemberInfo)
    → entry kv s ≡ some mine
    → IsTable kv
    → IsTable (update_member_info kv now s h st)
unfolding MemberInfo.update
update_known-IsTable kv now s h st mine e t =
    let k = members-update_known kv now s h st mine e in
    let new = MemberInfo.update mine h st in
    record {
      distinct = subst (λ m. IsDistinct (keys m)) k (IsDistinct-put kv.members s new t.distinct);
      keyed =
          subst IsKeyed k
            (IsKeyed-put kv.members s new t.keyed (keyed_entry kv.members s mine t.keyed e));
    }

merge_member-IsTable :
    (now : ℕ) (info : MemberInfo) (kv : KvServer) → IsTable kv → IsTable (merge_member now info kv)
merge_member-IsTable now info kv t = elim (Option-cases (entry kv info.server_id)) [
  | inl e ↦
      let k = sym (merge_member_new now info kv e) in
      record {
        distinct =
            subst (λ m. IsDistinct (keys m)) k
              (IsDistinct-put kv.members info.server_id info t.distinct);
        keyed = subst IsKeyed k (IsKeyed-put kv.members info.server_id info t.keyed refl);
      }
  | inr (mine, e) ↦
      let k = sym (merge_member_known now info mine kv e) in
      elim (Bool-cases (supersedes info mine)) [
        | inl s ↦
            let d =
              update_known-IsTable kv now info.server_id info.heartbeat info.status mine e t in
            subst IsTable k (rw s d)
        | inr s ↦ subst IsTable k (rw s t)
      ]
]

-- mergeMembers keeps each server in the member map once, and under its own name.
pub merge_members-IsTable :
    (now : ℕ) (infos : List MemberInfo) (kv : KvServer)
    → IsTable kv
    → IsTable (merge_members now infos kv)
unfolding merge_members
merge_members-IsTable now [] kv t = t
merge_members-IsTable now (info ∷ infos) kv t =
    merge_members-IsTable now infos (merge_member now info kv) (merge_member-IsTable now info kv t)

behind-members :
    (kv : KvServer) (id : String) (u : Option MemberInfo)
    → IsTable kv
    → all_behind id (get_all_members kv) u ≡ behind (entry kv id) u
unfolding get_all_members
behind-members kv id u t = all_behind-list kv.members id u t.distinct t.keyed

-- After a has sent its members to b and has merged the reply of GossipSyncMembers, while no
-- other message changes them, the two servers say the same of every member (the same heartbeat
-- and the same status, or nothing), if their member maps hold each server once and under its own
-- name.
pub gossip_sync_agrees :
    (now later : ℕ) (a b : KvServer) (id : String)
    → IsTable a
    → IsTable b
    → said (entry (merge_members later (gossip_sync_members now (get_all_members a) b).1 a) id)
      ≡ said (entry (gossip_sync_members now (get_all_members a) b).0 id)
unfolding gossip_sync_members
gossip_sync_agrees now later a b id s t =
    let b' = merge_members now (get_all_members a) b in
    let t' = merge_members-IsTable now (get_all_members a) b t in
    said_least (entry (merge_members later (get_all_members b') a) id) (entry b' id) (λ u. ground (
      arith,
      merge_members_least later (get_all_members b') a id u,
      merge_members_least now (get_all_members a) b id u,
      behind-members a id u s,
      behind-members b' id u t',
    ))

-- The order in which two lists of infos are merged does not matter to the heartbeat and the
-- status that a server holds of a member.
pub merge_members_commute :
    (now later : ℕ) (xs ys : List MemberInfo) (kv : KvServer) (id : String)
    → said (entry (merge_members later ys (merge_members now xs kv)) id)
      ≡ said (entry (merge_members later xs (merge_members now ys kv)) id)
merge_members_commute now later xs ys kv id =
    said_least (entry (merge_members later ys (merge_members now xs kv)) id)
      (entry (merge_members later xs (merge_members now ys kv)) id)
      (λ u. ground (
        arith,
        merge_members_least later ys (merge_members now xs kv) id u,
        merge_members_least now xs kv id u,
        merge_members_least later xs (merge_members now ys kv) id u,
        merge_members_least now ys kv id u,
      ))
