-- ===== src/Eval/Observer.antt =====
-- src/kvsrv_eval/observer.go: which reads are fresh enough. Times are nanoseconds, and the zero time
-- is 0; a commit is before `read.StartedAt - delta` when commit + delta is before the start.
pub mod Fresh
use dynamo_kvsrv_pbs.Prelude.{
  ℕ, zero, suc, ◌+◌, Bool, true, false, ◌&&◌, not, List, [], ◌∷◌, ◌++◌, length, ltb, ◌==◌,
  string_eq, if◌then◌else◌, Option, none, some,
}
use dynamo_kvsrv_pbs.VClock
use dynamo_kvsrv_pbs.VClock.{equal, before, after, concurrent}
use dynamo_kvsrv_pbs.Rpc.Object.{Object, compare_to}
use dynamo_kvsrv_pbs.Eval.Collector.{CompletedRead, CompletedWrite, new_completed_write}

-- The first returned object that is not concurrent with the write decides.
unfoldable pub is_consistent : Object → List Object → Bool
is_consistent write_obj [] = false
is_consistent write_obj (read_obj ∷ rest) = elim (compare_to write_obj read_obj) [
  | after ↦ false
  | equal ↦ true
  | before ↦ true
  | concurrent ↦ is_consistent write_obj rest
]

unfoldable pub overlaps : CompletedRead → CompletedWrite → Bool
overlaps read write =
    ltb write.started_at read.returned_at && ltb read.started_at write.committed_at

-- `rpc.Object{}`
abbrev pub zero_object : Object
zero_object = record {
  value = "";
  context = record { vc = VClock.new_vclock; timestamp = 0; etag = "" };
}

-- The loop of `isDeltaRegular`, with the latest write before the cutoff so far, and the test
-- behind it.
unfoldable pub delta_loop : CompletedRead → ℕ → CompletedWrite → List CompletedWrite → Bool
delta_loop read delta latest [] = is_consistent latest.object read.returned_objects
delta_loop read delta latest (write ∷ writes) =
    let fresh = is_consistent write.object read.returned_objects in
    let skip = delta_loop read delta latest writes in
    let stale =
      delta_loop read delta (if ltb latest.committed_at write.committed_at then write else latest)
        writes in
    if not (write.key == read.key)
    then skip
    else if overlaps read write
    then (if fresh then true else skip)
    else if ltb read.started_at write.committed_at && not (ltb write.started_at read.returned_at)
    then skip
    else if ltb (write.committed_at + delta) read.started_at
    then stale
    else if fresh
    then true
    else skip

unfoldable pub is_delta_regular : CompletedRead → List CompletedWrite → ℕ → Bool
unfolding delta_loop
is_delta_regular read writes delta =
    delta_loop read delta (new_completed_write read.key 0 0 zero_object) writes

-- The stalest candidate: the first of those with the least commit time.
unfoldable pub stalest_from : List CompletedWrite → ℕ → CompletedWrite → ℕ → ℕ
stalest_from [] stalest best i = stalest
stalest_from (w ∷ rest) stalest best i =
    let earlier = ltb w.committed_at best.committed_at in
    stalest_from rest (if earlier then i else stalest) (if earlier then w else best) (i + 1)

unfoldable pub replace_at {ℓ} : {A : Type ℓ} → List A → ℕ → A → List A
replace_at [] i v = []
replace_at (x ∷ xs) zero v = v ∷ xs
replace_at (x ∷ xs) (suc i) v = x ∷ replace_at xs i v

-- A write goes into the k candidates; with k = 0 the store into the empty slice panics.
unfoldable pub keep_latest : List CompletedWrite → ℕ → CompletedWrite → Option (List CompletedWrite)
unfolding stalest_from replace_at
keep_latest candidates k write =
    if ltb (length candidates) k then some (candidates ++ write ∷ []) else elim candidates [
      | [] ↦ none
      | first ∷ rest ↦ some (replace_at (first ∷ rest) (stalest_from rest 0 first 1) write)
    ]

-- The first loop of `isKRegular`: the overlapping writes, and the k candidates.
unfoldable pub k_loop :
    CompletedRead
    → ℕ
    → List CompletedWrite
    → List CompletedWrite
    → List CompletedWrite
    → Option (List CompletedWrite × List CompletedWrite)
k_loop read k candidates overlapped [] = some (candidates, overlapped)
k_loop read k candidates overlapped (write ∷ writes) =
    let skip = k_loop read k candidates overlapped writes in
    let overlap = k_loop read k candidates (overlapped ++ write ∷ []) writes in
    if not (write.key == read.key)
    then skip
    else if overlaps read write
    then overlap
    else if not (ltb read.started_at write.committed_at)
    then elim (keep_latest candidates k write) [
      | none ↦ none
      | some candidates' ↦ k_loop read k candidates' overlapped writes
    ]
    else skip

unfoldable pub some_consistent : CompletedRead → List CompletedWrite → Bool
some_consistent read [] = false
some_consistent read (write ∷ writes) =
    if is_consistent write.object read.returned_objects then true else some_consistent read writes

unfoldable pub is_k_regular : CompletedRead → List CompletedWrite → ℕ → Option Bool
unfolding k_loop some_consistent
is_k_regular read writes k = elim (k_loop read k [] [] writes) [
  | none ↦ none
  | some (candidates, overlapped) ↦
      some (if some_consistent read overlapped then true else some_consistent read candidates)
]

-- The numerator of the measure; the denominator is the number of reads.
unfoldable pub count_delta_regular : List CompletedRead → List CompletedWrite → ℕ → ℕ
count_delta_regular [] writes delta = 0
count_delta_regular (read ∷ reads) writes delta =
    (if is_delta_regular read writes delta then 1 else 0) + count_delta_regular reads writes delta
