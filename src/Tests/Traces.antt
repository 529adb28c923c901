-- ===== src/Tests/Traces.antt =====
-- The theorem on the collector on concrete operations.
use dynamo_kvsrv_pbs.Prelude.{ℕ, [], ◌∷◌, arith}
use dynamo_kvsrv_pbs.Eval.Collector.{
  CompletedWrite, CompletedRead, PbsCollector, empty_trace, observe_completed_write,
  observe_completed_read,
}
use dynamo_kvsrv_pbs.Eval.Collector.Order.{IsChronicle, observe_completed-IsChronicle}
use dynamo_kvsrv_pbs.Tests.Data.{left, right}

abbrev write_at : ℕ → CompletedWrite
write_at time = record { key = "k"; started_at = 0; committed_at = time; object = left }

abbrev read_at : ℕ → CompletedRead
read_at time = record {
  key = "k";
  started_at = 0;
  returned_at = time;
  returned_objects = right ∷ [];
}

abbrev collector : PbsCollector
collector = record {
  trace = empty_trace;
  writes = write_at 3 ∷ write_at 8 ∷ [];
  reads = read_at 2 ∷ read_at 7 ∷ [];
}

collector-IsChronicle : IsChronicle collector
collector-IsChronicle = record {
  writes = ((omega arith, tt), (tt, tt));
  reads = ((omega arith, tt), (tt, tt));
}

observe_completed-IsChronicle_example :
    IsChronicle (observe_completed_write collector (write_at 5))
    × IsChronicle (observe_completed_read collector (read_at 5))
observe_completed-IsChronicle_example =
    observe_completed-IsChronicle collector (write_at 5) (read_at 5) collector-IsChronicle
