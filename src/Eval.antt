-- ===== src/Eval.antt =====
-- kvsrv_eval: the collector of reads and writes, the measures of staleness over them, and the
-- simulation that predicts it.
pub mod Collector
pub mod Observer
pub mod Stimulator
