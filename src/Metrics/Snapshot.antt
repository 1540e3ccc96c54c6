-- ===== src/Metrics/Snapshot.antt =====
-- What the snapshot of metrics.go says of the responses that were recorded.
use bursthttp.Base.{
  ltb, Bool-cases, length, get_or, All, ℕ, refl, inl, inr, false, List, [], arith, to_int, ◌+◌, ◌-◌,
  ◌*◌, ◌/◌, ◌≤◌, ◌<◌, ◌≡◌, ◌∷◌,
}
use bursthttp.Input.{done}
use bursthttp.Metrics.{
  MetricsSnapshot, BuiltinMetrics, new_builtin_metrics, total_pattern, mean, p99_index, summarise,
  snapshot, sort_samples,
}
use bursthttp.Metrics.Samples.{
  IsSorted, length-sort, sort-IsSorted, in_range-get, IsSorted-get, All-of_get, All-sort_back,
}
use bursthttp.Metrics.Counts.{
  Recorded, record_all, responses, classless, class_sum, Ordered, Runs, record_all-Runs,
}

-- What a snapshot says of the samples that are kept.
abbrev pub Spans : List ℕ → MetricsSnapshot → Type 0
Spans ls s = Ordered s × All (λ d. (s.latency_min ≤ d) × (d ≤ s.latency_max)) ls

abbrev summary : MetricsSnapshot → List ℕ → MetricsSnapshot
summary c xs = record c {
  latency_p50 = get_or xs (length xs * 50 / 100) 0;
  latency_p95 = get_or xs (length xs * 95 / 100) 0;
  latency_p99 = get_or xs (p99_index (length xs)) 0;
  latency_avg = mean (to_int (total_pattern xs)) (length xs);
  latency_min = get_or xs 0 0;
  latency_max = get_or xs (length xs - 1) 0;
}

p99_index-below : (n : ℕ) → 0 < n → (n * 95 / 100 ≤ p99_index n) × (p99_index n < n)
p99_index-below n h = ground (arith, h)

summarise-summary :
    (c : MetricsSnapshot) (xs : List ℕ) → 0 < length xs → summarise c xs ≡ done (summary c xs)
unfolding summarise
summarise-summary c xs k =
    let n = length xs in
    rw
      (
        in_range-get xs 0 k,
        in_range-get xs (n - 1) (omega (arith, k)),
        in_range-get xs (n * 50 / 100) (omega (arith, k)),
        in_range-get xs (n * 95 / 100) (omega (arith, k)),
        in_range-get xs (p99_index n) (p99_index-below n k).1,
      )
      refl

summary-Ordered :
    (c : MetricsSnapshot) (xs : List ℕ) → 0 < length xs → IsSorted xs → Ordered (summary c xs)
summary-Ordered c xs k o =
    let n = length xs in
    let (above, below) = p99_index-below n k in
    (
      IsSorted-get xs 0 (n * 50 / 100) o (omega arith) (omega (arith, k)),
      IsSorted-get xs (n * 50 / 100) (n * 95 / 100) o (omega arith) (omega (arith, k)),
      IsSorted-get xs (n * 95 / 100) (p99_index n) o above below,
      IsSorted-get xs (p99_index n) (n - 1) o (omega (arith, below)) (omega (arith, k)),
    )

summary-Spans :
    (c : MetricsSnapshot) (ls : List ℕ) → 0 < length ls → Spans ls (summary c (sort_samples ls))
summary-Spans c ls h =
    let xs = sort_samples ls in
    let o = sort-IsSorted ls in
    let k : 0 < length xs = omega (arith, length-sort ls, h) in
    (
      summary-Ordered c xs k o,
      All-sort_back (λ d. (get_or xs 0 0 ≤ d) × (d ≤ get_or xs (length xs - 1) 0)) ls
          (All-of_get _ xs (λ i l. (
            IsSorted-get xs 0 i o (omega arith) l,
            IsSorted-get xs i (length xs - 1) o (omega (arith, l)) (omega (arith, k)),
          ))),
    )

snapshot-Runs :
    (t n : ℕ) (m : BuiltinMetrics)
    → Runs t n m
    → (s : MetricsSnapshot) × (snapshot m ≡ done s)
      × (s.requests_total ≡ t)
      × (class_sum s + n ≡ t)
      × Spans m.latencies s
unfolding snapshot
snapshot-Runs t n m r = elim (Bool-cases (ltb 0 (length m.latencies))) [
  | inl f ↦
      let h : 0 < length m.latencies = ground (arith, f) in
      let xs = sort_samples m.latencies in
      (
        summary m.counters xs,
        rw f (summarise-summary m.counters xs (omega (arith, length-sort m.latencies, h))),
        r.total,
        r.classes,
        summary-Spans m.counters m.latencies h,
      )
  | inr f ↦ (m.counters, rw f refl, r.total, r.classes, (r.ordered, nothing _ m.latencies f))
]
  where
    nothing : (P : ℕ → Type 0) (ls : List ℕ) → ltb 0 (length ls) ≡ false → All P ls
    nothing P [] f = tt
    nothing P (x ∷ xs) f = absurd (ground (arith, f))

new-Runs : Runs 0 0 new_builtin_metrics
unfolding new_builtin_metrics
new-Runs = record {
  total = refl;
  classes = refl;
  ordered = (omega arith, omega arith, omega arith, omega arith);
  limit = refl;
  few = omega arith;
}

-- After any calls of the collector, from a new one on, Snapshot does not panic: the total is the
-- number of responses recorded, the six classes make up that total less the responses without a
-- class (a status below 100, unless it is 0 with an error), at most 10000 samples are kept, all
-- of them lie between the least and the greatest latency, and least, P50, P95, P99 and greatest
-- are in this order.
pub record_all-snapshot :
    (rs : List Recorded)
    → (s : MetricsSnapshot) × (snapshot (record_all rs new_builtin_metrics) ≡ done s)
      × (s.requests_total ≡ responses rs)
      × (class_sum s + classless rs ≡ responses rs)
      × (length (record_all rs new_builtin_metrics).latencies ≤ 10000)
      × Spans (record_all rs new_builtin_metrics).latencies s
record_all-snapshot rs =
    let r = record_all-Runs rs 0 0 new_builtin_metrics new-Runs in
    let (s, e, t, c, w) = snapshot-Runs (0 + responses rs) (0 + classless rs) _ r in
    (s, e, omega (arith, t), omega (arith, c), r.few, w)
