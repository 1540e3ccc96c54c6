-- ===== src/Metrics.antt =====
-- metrics.go: the built-in collector. A latency is what `time.Since` gives, and none where the start
-- is the zero time; the lock is not modelled.
pub mod Samples
pub mod Counts
pub mod Snapshot
use bursthttp.Base.{
  ltb, leb, length, get_elem?, take, drop, ℕ, Bool, Option, none, some, List, [], ℤ, pos, negsuc,
  to_int, ◌==◌, if◌then◌else◌, ◌+◌, ◌-◌, ◌*◌, ◌/◌, ◌%◌, ◌^◌, ◌&&◌, ◌∷◌, ◌++◌,
}
use bursthttp.Input.{Outcome, done, panics, ◌>>=◌}

pub data PoolEvent : Type 0 where
  conn_created conn_closed conn_reused conn_failed : PoolEvent

pub record MetricsSnapshot : Type 0 where
  pub requests_total : ℕ
  pub requests_ok : ℕ
  pub requests_error : ℕ
  pub requests_4xx : ℕ
  pub requests_5xx : ℕ
  pub requests_1xx : ℕ
  pub requests_3xx : ℕ
  pub retries_total : ℕ
  pub bytes_written : ℕ
  pub bytes_read : ℕ
  pub latency_p50 : ℕ
  pub latency_p95 : ℕ
  pub latency_p99 : ℕ
  pub latency_avg : ℤ
  pub latency_min : ℕ
  pub latency_max : ℕ
  pub conns_created : ℕ
  pub conns_closed : ℕ
  pub conns_reused : ℕ
  pub conns_failed : ℕ

-- The counters are those of a snapshot that has no latencies yet.
pub record BuiltinMetrics : Type 0 where
  pub counters : MetricsSnapshot
  pub latencies : List ℕ
  pub max_samples : ℕ

unfoldable pub new_builtin_metrics : BuiltinMetrics
new_builtin_metrics = record {
  counters = record {
    requests_total = 0;
    requests_ok = 0;
    requests_error = 0;
    requests_4xx = 0;
    requests_5xx = 0;
    requests_1xx = 0;
    requests_3xx = 0;
    retries_total = 0;
    bytes_written = 0;
    bytes_read = 0;
    latency_p50 = 0;
    latency_p95 = 0;
    latency_p99 = 0;
    latency_avg = pos 0;
    latency_min = 0;
    latency_max = 0;
    conns_created = 0;
    conns_closed = 0;
    conns_reused = 0;
    conns_failed = 0;
  };
  latencies = [];
  max_samples = 10000;
}

-- The switch of `RecordResponse`. A status without a class counts nowhere.
unfoldable pub count_class : ℕ → Bool → MetricsSnapshot → MetricsSnapshot
count_class status failed c =
    if failed && status == 0
    then record c { requests_error = c.requests_error + 1 }
    else if leb 100 status && ltb status 200
    then record c { requests_1xx = c.requests_1xx + 1 }
    else if leb 200 status && ltb status 300
    then record c { requests_ok = c.requests_ok + 1 }
    else if leb 300 status && ltb status 400
    then record c { requests_3xx = c.requests_3xx + 1 }
    else if leb 400 status && ltb status 500
    then record c { requests_4xx = c.requests_4xx + 1 }
    else if leb 500 status
    then record c { requests_5xx = c.requests_5xx + 1 }
    else c

-- The first half of the samples is dropped, and of an odd number the newest too.
abbrev pub trimmed : ℕ → List ℕ → List ℕ
trimmed limit ls =
    if leb limit (length ls) then take (length ls / 2) (drop (length ls / 2) ls) else ls

unfoldable pub add_sample : ℕ → Option ℕ → List ℕ → List ℕ
add_sample limit none ls = ls
add_sample limit (some d) ls = trimmed limit ls ++ d ∷ []

abbrev pub count_response : ℕ → ℕ → MetricsSnapshot → MetricsSnapshot
count_response written got c = record c {
  requests_total = c.requests_total + 1;
  bytes_written = c.bytes_written + written;
  bytes_read = c.bytes_read + got;
}

unfoldable pub record_response : ℕ → Bool → Option ℕ → ℕ → ℕ → BuiltinMetrics → BuiltinMetrics
record_response status failed latency written got m = record m {
  counters = count_class status failed (count_response written got m.counters);
  latencies = add_sample m.max_samples latency m.latencies;
}

unfoldable pub count_event : PoolEvent → MetricsSnapshot → MetricsSnapshot
count_event conn_created c = record c { conns_created = c.conns_created + 1 }
count_event conn_closed c = record c { conns_closed = c.conns_closed + 1 }
count_event conn_reused c = record c { conns_reused = c.conns_reused + 1 }
count_event conn_failed c = record c { conns_failed = c.conns_failed + 1 }

abbrev pub record_pool_event : PoolEvent → BuiltinMetrics → BuiltinMetrics
record_pool_event e m = record m { counters = count_event e m.counters }

unfoldable pub record_retry : BuiltinMetrics → BuiltinMetrics
record_retry m = record m {
  counters = record m.counters { retries_total = m.counters.retries_total + 1 };
}

-- `sort.Slice` on numbers
abbrev pub insert_sample : ℕ → List ℕ → List ℕ
insert_sample a [] = a ∷ []
insert_sample a (x ∷ xs) =
    let rest = insert_sample a xs in if leb a x then a ∷ (x ∷ xs) else x ∷ rest

unfoldable pub sort_samples : List ℕ → List ℕ
sort_samples [] = []
sort_samples (x ∷ xs) = insert_sample x (sort_samples xs)

-- `sorted[i]`
abbrev pub in_range : Option ℕ → Outcome ℕ
in_range none = panics
in_range (some d) = done d

-- The sum of the durations, as a bit pattern of 64 bits.
abbrev pub total_pattern : List ℕ → ℕ
total_pattern [] = 0
total_pattern (d ∷ ds) = (d + total_pattern ds) % 2 ^ 64

-- The quotient of the sum, toward zero.
abbrev pub mean : ℤ → ℕ → ℤ
mean (pos t) n = pos (t / n)
mean (negsuc t) n = if (t + 1) / n == 0 then pos 0 else negsuc ((t + 1) / n - 1)

abbrev pub p99_index : ℕ → ℕ
p99_index n = if leb n (n * 99 / 100) then n - 1 else n * 99 / 100

unfoldable pub summarise : MetricsSnapshot → List ℕ → Outcome MetricsSnapshot
summarise c sorted =
    let n = length sorted in
    do
      least ← in_range (get_elem? sorted 0)
      most ← in_range (get_elem? sorted (n - 1))
      p50 ← in_range (get_elem? sorted (n * 50 / 100))
      p95 ← in_range (get_elem? sorted (n * 95 / 100))
      p99 ← in_range (get_elem? sorted (p99_index n))
      done (record c {
        latency_p50 = p50;
        latency_p95 = p95;
        latency_p99 = p99;
        latency_avg = mean (to_int (total_pattern sorted)) n;
        latency_min = least;
        latency_max = most;
      })

-- `Snapshot`
unfoldable pub snapshot : BuiltinMetrics → Outcome MetricsSnapshot
snapshot m =
    if ltb 0 (length m.latencies)
    then summarise m.counters (sort_samples m.latencies)
    else done m.counters
