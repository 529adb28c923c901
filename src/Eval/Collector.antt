-- ===== src/Eval/Collector.antt =====
-- src/kvsrv_eval/pbsCollector.go: the samples and the completed operations that a server records.
-- A `time.Time` is its nanoseconds, and 0 the zero time; durations are natural numbers.
pub mod Order
use dynamo_kvsrv_pbs.Prelude.{
  ℕ, zero, suc, ◌+◌, ◌-◌, ◌/◌, String, Bool, false, Option, none, some, List, [], ◌∷◌, ◌++◌,
  get_elem?, length, ltb, eqb, if◌then◌else◌,
}
use dynamo_kvsrv_pbs.Rpc.Object.{Object, copy_object, copy_objects}

pub record MessageTrace : Type 0 where
  pub sent_at : ℕ
  pub arrived_at : ℕ
  pub responded_at : ℕ
  pub received_at : ℕ

-- The errors of `Validate`; `valid` is nil.
pub data TraceError : Type 0 where
  valid missing_sent_at missing_arrived_at missing_responded_at missing_received_at : TraceError
  arrived_before_sent responded_before_arrived received_before_responded : TraceError

unfoldable pub validate : MessageTrace → TraceError
validate m =
    if eqb m.sent_at 0
    then missing_sent_at
    else if eqb m.arrived_at 0
    then missing_arrived_at
    else if eqb m.responded_at 0
    then missing_responded_at
    else if eqb m.received_at 0
    then missing_received_at
    else if ltb m.arrived_at m.sent_at
    then arrived_before_sent
    else if ltb m.responded_at m.arrived_at
    then responded_before_arrived
    else if ltb m.received_at m.responded_at
    then received_before_responded
    else valid

-- Called on traces that `Validate` accepts, where the difference is not negative.
unfoldable pub request_latency : MessageTrace → ℕ
request_latency m = m.arrived_at - m.sent_at

unfoldable pub response_latency : MessageTrace → ℕ
response_latency m = m.received_at - m.responded_at

pub record WarsTrace : Type 0 where
  pub write_requests : List ℕ
  pub write_acks : List ℕ
  pub read_requests : List ℕ
  pub read_responses : List ℕ

abbrev pub empty_trace : WarsTrace
empty_trace = record {
  write_requests = [];
  write_acks = [];
  read_requests = [];
  read_responses = [];
}

pub record CompletedWrite : Type 0 where
  pub key : String
  pub started_at : ℕ
  pub committed_at : ℕ
  pub object : Object

pub record CompletedRead : Type 0 where
  pub key : String
  pub started_at : ℕ
  pub returned_at : ℕ
  pub returned_objects : List Object

unfoldable pub new_completed_write : String → ℕ → ℕ → Object → CompletedWrite
new_completed_write key started_at committed_at object = record {
  key = key;
  started_at = started_at;
  committed_at = committed_at;
  object = copy_object object;
}

unfoldable pub new_completed_read : String → ℕ → ℕ → List Object → CompletedRead
new_completed_read key started_at returned_at returned_objects = record {
  key = key;
  started_at = started_at;
  returned_at = returned_at;
  returned_objects = copy_objects returned_objects;
}

pub record PbsCollector : Type 0 where
  pub trace : WarsTrace
  pub writes : List CompletedWrite
  pub reads : List CompletedRead

abbrev pub new_pbs_collector : PbsCollector
new_pbs_collector = record { trace = empty_trace; writes = []; reads = [] }

unfoldable pub reset : PbsCollector → PbsCollector
reset c = record { trace = empty_trace; writes = []; reads = [] }

unfoldable pub add_write_sample : PbsCollector → ℕ → ℕ → PbsCollector
add_write_sample c request ack = record c {
  trace = record (c.trace) {
    write_requests = c.trace.write_requests ++ request ∷ [];
    write_acks = c.trace.write_acks ++ ack ∷ [];
  };
}

unfoldable pub add_read_sample : PbsCollector → ℕ → ℕ → PbsCollector
add_read_sample c request response = record c {
  trace = record (c.trace) {
    read_requests = c.trace.read_requests ++ request ∷ [];
    read_responses = c.trace.read_responses ++ response ∷ [];
  };
}

unfoldable pub observe_write_latency : PbsCollector → MessageTrace → PbsCollector × TraceError
unfolding add_write_sample
observe_write_latency c m = elim (validate m) [
  | valid ↦ (add_write_sample c (request_latency m) (response_latency m), valid)
  | e ↦ (c, e)
]

unfoldable pub observe_read_latency : PbsCollector → MessageTrace → PbsCollector × TraceError
unfolding add_read_sample
observe_read_latency c m = elim (validate m) [
  | valid ↦ (add_read_sample c (request_latency m) (response_latency m), valid)
  | e ↦ (c, e)
]

-- Go's `sort.Search` between lo and hi: the fuel is at least the length of the interval.
unfoldable pub search_between : ℕ → (ℕ → Bool) → ℕ → ℕ → ℕ
search_between zero f lo hi = lo
search_between (suc fuel) f lo hi =
    let mid = (lo + hi) / 2 in
    let rest = search_between fuel f (if f mid then lo else mid + 1) (if f mid then mid else hi) in
    if ltb lo hi then rest else lo

-- Grows the list by one, shifts what stands from `index` on, and writes `v` there.
unfoldable pub insert_at {ℓ} : {A : Type ℓ} → List A → ℕ → A → List A
insert_at xs zero v = v ∷ xs
insert_at [] (suc index) v = v ∷ []
insert_at (x ∷ xs) (suc index) v = x ∷ insert_at xs index v

-- `f(xs[i])` of the closure that `sort.Search` calls with i in range.
abbrev pub test_at {ℓ} : {A : Type ℓ} → (A → Bool) → List A → ℕ → Bool
test_at p xs i = elim (get_elem? xs i) [ none ↦ false | some x ↦ p x ]

unfoldable pub search_index {ℓ} : {A : Type ℓ} → (A → Bool) → List A → ℕ
unfolding search_between
search_index p xs = search_between (length xs) (test_at p xs) 0 (length xs)

unfoldable pub observe_completed_write : PbsCollector → CompletedWrite → PbsCollector
observe_completed_write c w = record c {
  writes = insert_at c.writes (search_index (λ x. ltb w.committed_at x.committed_at) c.writes) w;
}

unfoldable pub observe_completed_read : PbsCollector → CompletedRead → PbsCollector
observe_completed_read c r = record c {
  reads = insert_at c.reads (search_index (λ x. ltb r.returned_at x.returned_at) c.reads) r;
}

-- A sampler over observed latencies; `none` for the error of an empty slice.
unfoldable pub new_empirical_sampler : List ℕ → Option (List ℕ)
new_empirical_sampler [] = none
new_empirical_sampler (x ∷ samples) = some (x ∷ samples)

pub record WarsSamplers : Type 0 where
  pub write_request : List ℕ
  pub write_ack : List ℕ
  pub read_request : List ℕ
  pub read_response : List ℕ

infixl 5 ◌>>=◌
abbrev pub ◌>>=◌ {ℓ} : {A B : Type ℓ} → Option A → (A → Option B) → Option B
none >>= f = none
some a >>= f = f a

unfoldable pub new_wars_samplers : WarsTrace → Option WarsSamplers
new_wars_samplers trace = do
  write_request ← new_empirical_sampler trace.write_requests
  write_ack ← new_empirical_sampler trace.write_acks
  read_request ← new_empirical_sampler trace.read_requests
  read_response ← new_empirical_sampler trace.read_responses
  some (record {
    write_request = write_request;
    write_ack = write_ack;
    read_request = read_request;
    read_response = read_response;
  })

-- `draw` is what `Intn` gives; `none` is the panic on an empty sampler.
unfoldable pub get_sample : List ℕ → (ℕ → ℕ) → Option ℕ
get_sample samples draw =
    if eqb (length samples) 0 then none else get_elem? samples (draw (length samples))

-- `GetSamplers`; `none` is its panic.
unfoldable pub get_samplers : PbsCollector → Option WarsSamplers
unfolding new_wars_samplers
get_samplers c = new_wars_samplers c.trace
