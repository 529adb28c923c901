-- ===== src/Rpc/Messages.antt =====
-- src/kvsrv/rpc/rpc.go: the arguments and replies of the calls, less the trace times.
use dynamo_kvsrv_pbs.Prelude.{ℕ, String, Bool, List, Bytes}
use dynamo_kvsrv_pbs.Rpc.Context
use dynamo_kvsrv_pbs.Rpc.Context.{Context}
use dynamo_kvsrv_pbs.Rpc.Object.{Object}
use dynamo_kvsrv_pbs.Rpc.MemberInfo.{MemberInfo}

-- `no_err` is the empty string, the zero value of `Err`.
pub data Err : Type 0 where
  no_err ok err_rpc_failure err_no_key err_version err_maybe err_not_coordinator : Err
  err_read_quorum_not_met err_write_quorum_not_met err_no_hash_value : Err

pub record PutArgs : Type 0 where
  pub key : String
  pub object : Object
  pub base_context : Context

-- `Copy` shares the object and copies the base context.
unfoldable pub copy : PutArgs → PutArgs
copy args = record args { base_context = Context.copy args.base_context }

pub record GetReply : Type 0 where
  pub objects : List Object
  pub err : Err

pub record ForwardGetResult : Type 0 where
  pub server_id : String
  pub is_ok : Bool
  pub reply : GetReply

pub record ForwardPutResult : Type 0 where
  pub is_ok : Bool
  pub err : Err

pub record RepairArgs : Type 0 where
  pub key : String
  pub objects : List Object
  pub is_delete : Bool

-- A hash is the bytes of a SHA-256 digest.
pub record TreeSummary : Type 0 where
  pub sector : ℕ
  pub hashes : List Bytes

pub record KeyInfo : Type 0 where
  pub key : String
  pub objects : List Object

pub record RepairGetDiffArgs : Type 0 where
  pub sector : ℕ
  pub summary : TreeSummary

pub record RepairGetDiffReply : Type 0 where
  pub diff_key_infos : List KeyInfo
  pub err : Err

pub record HintedPutArgs : Type 0 where
  pub target_server : String
  pub put_args : PutArgs

abbrev pub MemberInfos : Type 0
MemberInfos = List MemberInfo
