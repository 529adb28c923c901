-- ===== src/Server/ReadRepair.antt =====
-- src/kvsrv/readrepair.go: the jobs that a read leaves behind, and which replicas they repair. The
-- timers and the workers are steps that the schedule chooses.
pub mod Convergence
use dynamo_kvsrv_pbs.Prelude.{
  ℕ, String, Bool, true, false, not, ◌&&◌, Option, none, some, List, [], ◌∷◌, ◌++◌, length, ltb,
  eqb, string_eq, if◌then◌else◌, any,
}
use dynamo_kvsrv_pbs.GoMap.{GoMap, get, put, delete, has}
use dynamo_kvsrv_pbs.Rpc.Object.{Object, add_new, is_equal}
use dynamo_kvsrv_pbs.Rpc.Messages.{Err, ok, ForwardGetResult, RepairArgs}
use dynamo_kvsrv_pbs.Server.{KvServer, ReadRepairJob}

abbrev pub read_repair_queue_capacity : ℕ
read_repair_queue_capacity = 128

-- `err == rpc.OK`
abbrev pub is_ok_err : Err → Bool
is_ok_err e = elim e [ ok ↦ true | _ ↦ false ]

-- A job that waits under the key is dropped: its replies are drained and nothing else happens.
unfoldable pub schedule_read_repair : KvServer → ReadRepairJob → KvServer
schedule_read_repair kv job =
    let waiting =
      if has kv.read_repair_coalesce job.key
      then delete kv.read_repair_coalesce job.key
      else kv.read_repair_coalesce in
    record kv { read_repair_coalesce = put waiting job.key job }

-- The timer of a job: the job goes to the queue, if it is still the one that waits under the key and
-- the queue has room.
unfoldable pub try_flush_read_repair_coalesce_key :
    KvServer → String → ReadRepairJob → KvServer × Bool
try_flush_read_repair_coalesce_key kv key expect_job = elim (get kv.read_repair_coalesce key) [
  | none ↦ (kv, false)
  | some job ↦
      if not (eqb job.id expect_job.id)
      then (kv, false)
      else if ltb (length kv.read_repair_job_ch) read_repair_queue_capacity
      then (
        record kv {
          read_repair_job_ch = kv.read_repair_job_ch ++ expect_job ∷ [];
          read_repair_coalesce = delete kv.read_repair_coalesce key;
        },
        true,
      )
      else (kv, false)
]

-- A worker takes the first job of the queue.
unfoldable pub take_job : KvServer → Option (ReadRepairJob × KvServer)
take_job kv = elim kv.read_repair_job_ch [
  | [] ↦ none
  | job ∷ jobs ↦ some (job, record kv { read_repair_job_ch = jobs })
]

unfoldable pub drain_read_repair_pipeline : KvServer → KvServer
drain_read_repair_pipeline kv = record kv { read_repair_coalesce = []; read_repair_job_ch = [] }

-- `res.OK && res.Reply.Err == rpc.OK`
abbrev pub has_objects : ForwardGetResult → Bool
has_objects res = res.is_ok && is_ok_err res.reply.err

-- The loop over the replies that are still to come: the siblings, and all results.
unfoldable pub collect_remaining :
    List Object
    → List ForwardGetResult
    → List ForwardGetResult
    → List Object × List ForwardGetResult
collect_remaining canonical results [] = (canonical, results)
collect_remaining canonical results (res ∷ ch) =
    collect_remaining (if has_objects res then add_new canonical res.reply.objects else canonical)
      (results ++ res ∷ []) ch

unfoldable pub is_same_siblings_loop : List Object → List Object → Bool
is_same_siblings_loop [] other = true
is_same_siblings_loop (sibling ∷ siblings) other =
    if any (is_equal sibling) other then is_same_siblings_loop siblings other else false

unfoldable pub is_same_siblings : List Object → List Object → Bool
unfolding is_same_siblings_loop
is_same_siblings siblings other =
    if not (eqb (length siblings) (length other))
    then false
    else is_same_siblings_loop siblings other

unfoldable pub find_stale_replicas : List Object → List ForwardGetResult → List String
find_stale_replicas canonical [] = []
find_stale_replicas canonical (res ∷ results) =
    let rest = find_stale_replicas canonical results in
    if not res.is_ok
    then rest
    else if not (is_ok_err res.reply.err)
    then res.server_id ∷ rest
    else if not (is_same_siblings canonical res.reply.objects)
    then res.server_id ∷ rest
    else rest

-- The calls of `RepairPut` that a job ends with: the servers, and the arguments for each of them.
pub record Repairs : Type 0 where
  pub stale_replicas : List String
  pub args : RepairArgs

unfoldable pub finish_coord_get_read_repair : ReadRepairJob → Repairs
unfolding collect_remaining find_stale_replicas
finish_coord_get_read_repair job =
    let (canonical, results) = collect_remaining job.canonical_siblings job.results job.ch in
    record {
      stale_replicas = elim canonical [
        | [] ↦ []
        | o ∷ rest ↦ find_stale_replicas (o ∷ rest) results
      ];
      args = record { key = job.key; objects = canonical; is_delete = false };
    }
