-- ===== src/Rpc/Context.antt =====
-- src/kvsrv/rpc/context.go: the context of a version. The time `time.Now().UnixNano()` and the hash of
-- a value (hex of SHA-256) are arguments.
use dynamo_kvsrv_pbs.Prelude.{ℕ, String, Bool, ◌&&◌, eqb, ◌==◌, string_eq}
use dynamo_kvsrv_pbs.VClock
use dynamo_kvsrv_pbs.VClock.{VClock, Cmp, equal}

pub record Context : Type 0 where
  pub vc : VClock
  pub timestamp : ℕ
  pub etag : String

-- `cmp == vclock.Equal`
abbrev pub is_equal_cmp : Cmp → Bool
is_equal_cmp c = elim c [ equal ↦ Bool.true | _ ↦ Bool.false ]

unfoldable pub new_context : ℕ → Context
new_context now = record { vc = VClock.new_vclock; timestamp = now; etag = "" }

unfoldable pub new_context_from_vclock : ℕ → VClock → Context
new_context_from_vclock now vc = record { vc = VClock.copy vc; timestamp = now; etag = "" }

unfoldable pub copy : Context → Context
copy ctx = record { vc = VClock.copy ctx.vc; timestamp = ctx.timestamp; etag = ctx.etag }

unfoldable pub is_initial : Context → Bool
is_initial ctx = VClock.is_initial ctx.vc && ctx.etag == ""

unfoldable pub compare : Context → Context → Cmp
compare ctx other = VClock.compare ctx.vc other.vc

unfoldable pub is_equal : Context → Context → Bool
is_equal ctx other =
    is_equal_cmp (compare ctx other) && eqb ctx.timestamp other.timestamp && ctx.etag == other.etag

module _ (hash : String → String) (now : ℕ) where
  unfoldable pub update : Context → String → String → Context
  update ctx node value = record {
    vc = VClock.increment (VClock.copy ctx.vc) node;
    timestamp = now;
    etag = hash value;
  }

  unfoldable pub merge : Context → Context → String → Context
  unfolding new_context_from_vclock
  merge ctx other new_value =
      let merged = new_context_from_vclock now (VClock.copy ctx.vc) in
      record merged { vc = VClock.merge merged.vc other.vc; timestamp = now; etag = hash new_value }
