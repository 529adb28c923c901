-- ===== src/Server/Membership/Gossip.antt =====
-- Merging the member lists that gossip brings: `mergeMembers` and `GossipSyncMembers` of
-- src/kvsrv/membership.go.
use dynamo_kvsrv_pbs.Prelude.{
  ℕ, ◌≡◌, ◌∙◌, refl, sym, ap, String, Bool, true, false, not, ◌&&◌, ◌||◌, Option, none, some, List,
  [], ◌∷◌, arith, ltb, leb, eqb, ◌==◌, string_eq, if◌then◌else◌, Bool-cases, Option-cases, inl, inr,
}
use mathlib.Core.Path.{subst}
use dynamo_kvsrv_pbs.GoMap.{get, get_or, put, get-put, get-put_self}
use dynamo_kvsrv_pbs.Rpc.MemberInfo
use dynamo_kvsrv_pbs.Rpc.MemberInfo.{MemberInfo, NodeStatus, alive, suspect, dead, rank, is_worse}
use dynamo_kvsrv_pbs.Server.{KvServer}
use dynamo_kvsrv_pbs.Server.Membership.{
  zero_member, supersedes, update_member_info, merge_member, merge_members,
}

-- What is said of a member, in the order of heartbeats and then of how bad the status is.
abbrev pub behind : Option MemberInfo → Option MemberInfo → Bool
behind none u = true
behind (some m) none = false
behind (some m) (some n) =
    ltb m.heartbeat n.heartbeat
    || eqb m.heartbeat n.heartbeat && leb (rank m.status) (rank n.status)

-- The entry of a server.
abbrev pub entry : KvServer → String → Option MemberInfo
entry kv id = get kv.members id

-- Whatever the list says of a server is behind `u`.
abbrev pub all_behind : String → List MemberInfo → Option MemberInfo → Bool
all_behind id [] u = true
all_behind id (info ∷ infos) u =
    (not (info.server_id == id) || behind (some info) u) && all_behind id infos u

entry-update :
    (kv : KvServer) (now : ℕ) (s : String) (h : ℕ) (st : NodeStatus) (id : String)
    → entry (update_member_info kv now s h st) id ≡ (
        if s == id
        then some (MemberInfo.update (get_or kv.members s zero_member) h st)
        else entry kv id)
unfolding update_member_info
entry-update kv now s h st id = rw get-put

pub entry-update_self :
    (kv : KvServer) (now : ℕ) (s : String) (h : ℕ) (st : NodeStatus)
    → entry (update_member_info kv now s h st) s
      ≡ some (MemberInfo.update (get_or kv.members s zero_member) h st)
unfolding update_member_info
entry-update_self kv now s h st =
    get-put_self kv.members s (MemberInfo.update (get_or kv.members s zero_member) h st)

behind-supersedes :
    (m mine : MemberInfo) (u : Option MemberInfo)
    → (behind (some mine) u && behind (some m) u)
      ≡ (if supersedes m mine then behind (some m) u else behind (some mine) u)
unfolding supersedes is_worse
behind-supersedes m mine none = ground arith
behind-supersedes m mine (some n) = ground arith

pub merge_member_new :
    (now : ℕ) (info : MemberInfo) (kv : KvServer)
    → entry kv info.server_id ≡ none
    → (merge_member now info kv).members ≡ put kv.members info.server_id info
unfolding merge_member
merge_member_new now info kv e = rw (e, merge_member)

pub merge_member_known :
    (now : ℕ) (info mine : MemberInfo) (kv : KvServer)
    → entry kv info.server_id ≡ some mine
    → merge_member now info kv ≡ (
        if supersedes info mine
        then update_member_info kv now info.server_id info.heartbeat info.status
        else kv)
unfolding merge_member
merge_member_known now info mine kv e = rw (e, merge_member)

behind-update :
    (m info : MemberInfo) (u : Option MemberInfo)
    → behind (some (MemberInfo.update m info.heartbeat info.status)) u ≡ behind (some info) u
unfolding MemberInfo.update
behind-update m info none = refl
behind-update m info (some n) = refl

-- The entry after a merge into an entry that is there, by whether the info supersedes it.
entry_known :
    (now : ℕ) (info mine : MemberInfo) (kv : KvServer) (b : Bool) (id : String)
    → entry kv info.server_id ≡ some mine
    → supersedes info mine ≡ b
    → entry (merge_member now info kv) id
      ≡ entry
          (if b then update_member_info kv now info.server_id info.heartbeat info.status else kv)
          id
entry_known now info mine kv b id e s =
    ap (λ z. entry z id) (merge_member_known now info mine kv e)
    ∙ ap
        (λ c.
          entry
            (if c then update_member_info kv now info.server_id info.heartbeat info.status else kv)
            id)
        s

-- What a merge does to the entry of the server that it is about.
entry_merged :
    (now : ℕ) (info : MemberInfo) (kv : KvServer) (u : Option MemberInfo)
    → behind (entry (merge_member now info kv) info.server_id) u
      ≡ (behind (entry kv info.server_id) u && behind (some info) u)
entry_merged now info kv u = elim (Option-cases (entry kv info.server_id)) [
  | inl e ↦
      let x : entry (merge_member now info kv) info.server_id ≡ some info =
        ap (λ m. get m info.server_id) (merge_member_new now info kv e)
        ∙ get-put_self kv.members info.server_id info in
      ap (λ z. behind z u) x ∙ sym (ap (λ z. behind z u && behind (some info) u) e)
  | inr (mine, e) ↦
      let y : behind (entry kv info.server_id) u ≡ behind (some mine) u = ap (λ z. behind z u) e in
      elim (Bool-cases (supersedes info mine)) [
        | inl s ↦
            let x = ap (λ z. behind z u) (entry_known now info mine kv true info.server_id e s) in
            let x' =
              ap (λ z. behind z u)
                (entry-update_self kv now info.server_id info.heartbeat info.status) in
            let x'' = behind-update (get_or kv.members info.server_id zero_member) info u in
            ground (arith, x ∙ x' ∙ x'', y, behind-supersedes info mine u)
        | inr s ↦
            let x = ap (λ z. behind z u) (entry_known now info mine kv false info.server_id e s) in
            ground (arith, x, y, behind-supersedes info mine u)
      ]
]

entry_other :
    (now : ℕ) (info : MemberInfo) (kv : KvServer) (id : String)
    → (info.server_id == id) ≡ false
    → entry (merge_member now info kv) id ≡ entry kv id
entry_other now info kv id i = elim (Option-cases (entry kv info.server_id)) [
  | inl e ↦
      ap (λ m. get m id) (merge_member_new now info kv e)
      ∙ rw (get-put kv.members info.server_id info id, i)
  | inr (mine, e) ↦ elim (Bool-cases (supersedes info mine)) [
    | inl s ↦
        entry_known now info mine kv true id e s
        ∙ rw (entry-update kv now info.server_id info.heartbeat info.status id, i)
    | inr s ↦ entry_known now info mine kv false id e s
  ]
]

behind-merge_member :
    (now : ℕ) (info : MemberInfo) (kv : KvServer) (id : String) (u : Option MemberInfo)
    → behind (entry (merge_member now info kv) id) u
      ≡ (behind (entry kv id) u && (not (info.server_id == id) || behind (some info) u))
behind-merge_member now info kv id u = elim (Bool-cases (info.server_id == id)) [
  | inl i ↦
      let j : info.server_id ≡ id = (string_eq.beq_iff info.server_id id).0 i in
      let k : behind (entry (merge_member now info kv) id) u
          ≡ (behind (entry kv id) u && behind (some info) u) =
        subst
          (λ x.
            behind (entry (merge_member now info kv) x) u
            ≡ (behind (entry kv x) u && behind (some info) u))
          j (entry_merged now info kv u) in
      ground (arith, k)
  | inr i ↦ let k = ap (λ z. behind z u) (entry_other now info kv id i) in ground (arith, k)
]

-- What a server holds of a member after mergeMembers is the least that is no older than what it
-- held and no older than what each of the infos says of that member.
pub merge_members_least :
    (now : ℕ) (infos : List MemberInfo) (kv : KvServer) (id : String) (u : Option MemberInfo)
    → behind (entry (merge_members now infos kv) id) u
      ≡ (behind (entry kv id) u && all_behind id infos u)
unfolding merge_members
merge_members_least now [] kv id u = ground arith
merge_members_least now (info ∷ infos) kv id u = ground (
  arith,
  merge_members_least now infos (merge_member now info kv) id u,
  behind-merge_member now info kv id u,
)
