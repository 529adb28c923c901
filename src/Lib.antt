-- ===== src/Lib.antt =====
-- A Dynamo-style replicated key-value store (kvsrv) and its probabilistically-bounded-staleness
-- evaluation (kvsrv_eval). Paths are from the repository's root.
--
-- The program's parts and the files that model them:
--   * src/kvsrv/vclock/vclock.go: VClock. A clock is an association list from node names to versions, and
--     a missing name has version 0. `compare` and `merge` are Compare and Merge with their loops over
--     the names of both clocks; `increment` wraps at 2^64. VClock/Order relates the verdicts to the
--     versions, VClock/Laws has the laws of the operations.
--   * src/kvsrv/rpc: Rpc. Rpc/Context is context.go, Rpc/Object object.go (CanBeAddedTo, AddObject and the
--     other operations on siblings), Rpc/MemberInfo memberInfo.go, Rpc/Messages rpc.go. The modules
--     under Rpc/Object follow siblings through AddObject: Seen (which versions are accounted for),
--     Antichain (pairwise concurrent), Sorted (by timestamp), Copies.
--   * src/kvsrv/chr/ring.go: Ring. The walk of GetNeighbors has the number of sectors as fuel: after that
--     many rounds it has seen every sector, and goes on only if too few nodes own one, in which case
--     the Go loop does not end (Ring/Returns). `none` is that, or a panic.
--   * src/kvsrv/server.go: Server (state, constructor, accessors), Server/Start (what the constructor
--     makes), Server/Store (ReplicaGet, ReplicaPut, installObjects, mergeObjectsCore, and RepairPut
--     of readrepair.go), Server/Coordinator (CoordGet, CoordPut; Quorums puts a read behind the writes
--     that a quorum holds). A handler is a function from the server's state and its arguments to the
--     new state and the reply; its critical sections are atomic. mergeObjectsCore has two critical
--     sections, and Server/Store/Race runs a put between them, with the tests that come before
--     and after the first.
--   * src/kvsrv/readrepair.go: Server/ReadRepair; src/kvsrv/membership.go: Server/Membership;
--     src/kvsrv/hinted_handoff.go: Server/Handoff, with Matches (when two hints are of the same put)
--     and Replay (which hints go).
--   * src/kvsrv/merkle.go and anti_entropy.go: Merkle has what does not need a server: Merkle/Encode is
--     what is written into a hash, a list of bytes, Merkle/Tree the nodes, buildMerkleTreeFromSnapshot
--     and ToSummary, Merkle/Diff findDiffBuckets. Server/AntiEntropy has the snapshots, the rebuilding
--     of dirty sectors, Reconcile, RepairGetDiff and ApplyDiff. The number of leaves is enough fuel for
--     the loop over the levels, the number of nodes for those of ToSummary and findDiffBuckets, which
--     are walks in breadth-first order: Merkle/Tree/LevelOrder says which node has which position,
--     Merkle/Tree/Build what is built of 2^d buckets, Merkle/Tree/Input what a leaf's input shows,
--     Merkle/Diff/Visit, Loop, Collide and Trees what the differences are. sha256 is a parameter; that
--     it has no collisions is never assumed. A string has a character for each byte.
--   * src/kvsrv/client.go: Client.
--   * src/kvsrv_eval/pbsCollector.go, observer.go and stimulator.go: Eval/Collector, Eval/Observer and
--     Eval/Stimulator. The simulation takes the samples that the random numbers choose as a parameter.
--     Its durations, and those of the demo program, are int64 in bit patterns, whose sums wrap and whose
--     order is signed (Prelude/Durations).
--   * src/kvsrv/pbs_demo.go: Demo, with the loop that takes servers down in Demo/Failures, as the list of
--     what it does. The number of victims is enough fuel for it, and the duration of the experiment for
--     the count of its phases, each of which takes a nanosecond at least where no sum wraps; where one
--     wraps the Go loop may not end, and `none` is a want of fuel. The options of Demo/Failures are not
--     negative.
--
-- What the parts share is in Prelude (names of the libraries, Boolean tests, lists) and GoMap (Go's
-- maps as association lists, whose order is the order in which `range` visits the keys).
--
-- How the parts interact: a clerk calls the coordinator of a key, the coordinator asks the ring for
-- the preference list and calls ReplicaGet, ReplicaPut or HintedPut on the servers of it; a read
-- leaves a repair job behind, whose repairs call RepairPut. In the background a server compares the
-- Merkle tree of a sector with a neighbor's by RepairGetDiff, merges what differs, and calls
-- RepairPut. The network is a parameter throughout: the results of the calls come in as a list in
-- the order in which the channel delivers them, and `none` or a false `is_ok` is a failed call. The clock (`now`), the hash of values, the hash of keys
-- and the shuffle of members are parameters too. Times and durations are in nanoseconds.
--
-- Not modelled: floating-point numbers, that is the ratios and sweeps of kvsrv_eval and its plots; the
-- workers and the cluster of the demo program; goroutines, timers, jitter and locks other than
-- through the order of the operations; labrpc, labgob and tester, which are copies of another
-- project's libraries.
pub mod Prelude
pub mod GoMap
pub mod VClock
pub mod Rpc
pub mod Ring
pub mod Merkle
pub mod Eval
pub mod Client
pub mod Server
pub mod Demo
pub mod Tests
