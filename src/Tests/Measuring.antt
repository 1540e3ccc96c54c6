-- ===== src/Tests/Measuring.antt =====
-- A collector behind four calls.
use bursthttp.Base.{length, refl, true, false, none, some, List, [], ◌+◌, ◌≤◌, ◌≡◌, ◌∷◌}
use bursthttp.Input.{done}
use bursthttp.Metrics.{
  record_response, add_sample, sort_samples, MetricsSnapshot, conn_created, new_builtin_metrics,
  snapshot,
}
use bursthttp.Metrics.Counts.{
  Recorded, responded, pooled, record_all, responses, classless, class_sum,
}
use bursthttp.Metrics.Snapshot.{Spans, record_all-snapshot}

abbrev calls : List Recorded
calls =
    responded 200 false (some 7) 10 20
    ∷ pooled conn_created
    ∷ responded 503 false (some 3) 1 2
    ∷ responded 0 true none 0 0
    ∷ []

record_all-snapshot_example :
    (s : MetricsSnapshot) × (snapshot (record_all calls new_builtin_metrics) ≡ done s)
    × (s.requests_total ≡ responses calls)
    × (class_sum s + classless calls ≡ responses calls)
    × (length (record_all calls new_builtin_metrics).latencies ≤ 10000)
    × Spans (record_all calls new_builtin_metrics).latencies s
record_all-snapshot_example = record_all-snapshot calls

latencies_run : (record_all calls new_builtin_metrics).latencies ≡ 7 ∷ 3 ∷ []
unfolding record_response new_builtin_metrics add_sample
latencies_run = refl

median_run : sort_samples (7 ∷ 3 ∷ 5 ∷ []) ≡ 3 ∷ 5 ∷ 7 ∷ []
unfolding sort_samples
median_run = refl
