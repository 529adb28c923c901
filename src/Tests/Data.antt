-- ===== src/Tests/Data.antt =====
-- The servers, objects and requests of the tests.
use dynamo_kvsrv_pbs.Prelude.{ℕ, String, true, [], ◌∷◌}
use dynamo_kvsrv_pbs.VClock.{VClock}
use dynamo_kvsrv_pbs.Rpc.Object.{Object}
use dynamo_kvsrv_pbs.Rpc.MemberInfo.{MemberInfo, NodeStatus, alive, suspect, dead}
use dynamo_kvsrv_pbs.Rpc.Messages.{Err, ok, err_no_key, PutArgs, ForwardGetResult, ForwardPutResult}
use dynamo_kvsrv_pbs.Ring.{Ring}
use dynamo_kvsrv_pbs.Server.{KvServer, ReadRepairJob}
use dynamo_kvsrv_pbs.Eval.Collector.{new_pbs_collector}

abbrev pub object_of : String → VClock → ℕ → Object
object_of value vc timestamp = record {
  value = value;
  context = record { vc = vc; timestamp = timestamp; etag = "" };
}

-- `left_twice` is a later version of `left`; `right` is concurrent with both.
abbrev pub left : Object
left = object_of "x" (("a", 1) ∷ []) 1

abbrev pub right : Object
right = object_of "y" (("b", 1) ∷ []) 2

abbrev pub left_twice : Object
left_twice = object_of "z" (("a", 2) ∷ []) 3

-- A put that extends `left`.
abbrev pub put_left : PutArgs
put_left = record { key = "k"; object = left_twice; base_context = left.context }

-- Two nodes and two sectors of one bucket; every key is in sector 0.
abbrev pub ring : Ring
ring = record {
  num_replicas = 2;
  num_backups = 0;
  num_sectors = 2;
  num_servers = 2;
  buckets_per_sector = 1;
  hash_func = λ key. 0;
  node_ids = "a" ∷ "b" ∷ [];
  nodes = ("a", 0 ∷ []) ∷ ("b", 1 ∷ []) ∷ [];
  sector_map = (0, "a") ∷ (1, "b") ∷ [];
}

abbrev pub member_of : String → ℕ → NodeStatus → MemberInfo
member_of server_id heartbeat status = record {
  server_id = server_id;
  heartbeat = heartbeat;
  status = status;
}

-- Server a, which holds `right` under the key k, beside b, which is dead, and c.
abbrev pub server : KvServer
server = record {
  id = "a";
  kv = ("k", right ∷ []) ∷ [];
  ring = ring;
  write_quorum = 1;
  read_quorum = 1;
  read_repair_job_ch = [];
  read_repair_coalesce = [];
  merkle_roots = [];
  keys_in_buckets = (("k" ∷ []) ∷ []) ∷ ([] ∷ []) ∷ [];
  dirty_sectors = [];
  members =
      ("a", member_of "a" 4 alive)
      ∷ ("b", member_of "b" 2 dead)
      ∷ ("c", member_of "c" 3 alive)
      ∷ [];
  member_last_updated = ("a", 9) ∷ ("b", 1) ∷ ("c", 5) ∷ [];
  num_neighbors = 2;
  heartbeat_counter = 4;
  failure_timeout = 3;
  cleanup_timeout = 10;
  hints = [];
  collector = new_pbs_collector;
  read_repair_enabled = true;
  hinted_handoff_enabled = true;
}

-- Server c, which knows less of a and more of b.
abbrev pub other_server : KvServer
other_server = record server {
  id = "c";
  members =
      ("c", member_of "c" 4 alive)
      ∷ ("a", member_of "a" 1 suspect)
      ∷ ("b", member_of "b" 5 alive)
      ∷ [];
}

-- The replies to a read: `left` from a, nothing from b.
abbrev pub reply_found : ForwardGetResult
reply_found = record {
  server_id = "a";
  is_ok = true;
  reply = record { objects = left ∷ []; err = ok };
}

abbrev pub reply_missing : ForwardGetResult
reply_missing = record {
  server_id = "b";
  is_ok = true;
  reply = record { objects = []; err = err_no_key };
}

abbrev pub job : ReadRepairJob
job = record {
  id = 0;
  key = "k";
  canonical_siblings = left ∷ [];
  results = reply_found ∷ [];
  ch = reply_missing ∷ [];
}

abbrev pub replied : Err → ForwardPutResult
replied err = record { is_ok = true; err = err }
