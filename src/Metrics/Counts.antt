-- ===== src/Metrics/Counts.antt =====
-- The counters and the samples of metrics.go behind any calls of the collector.
use bursthttp.Base.{
  leb, Bool-cases, length, length-append, take, drop, length-take, ℕ, suc, inl, inr, Bool, Option,
  none, some, List, [], arith, ◌==◌, if◌then◌else◌, ◌+◌, ◌/◌, ◌≤◌, ◌<◌, ◌≡◌, ◌&&◌, ◌||◌, ◌∷◌,
}
use bursthttp.Metrics.{
  PoolEvent, MetricsSnapshot, BuiltinMetrics, record_response, record_pool_event, record_retry,
  count_class, count_event, count_response, add_sample,
}

-- A call of the collector.
pub data Recorded : Type 0 where
  responded : ℕ → Bool → Option ℕ → ℕ → ℕ → Recorded
  pooled : PoolEvent → Recorded
  retried : Recorded

abbrev pub record_one : Recorded → BuiltinMetrics → BuiltinMetrics
record_one (responded status failed latency written got) m =
    record_response status failed latency written got m
record_one (pooled e) m = record_pool_event e m
record_one retried m = record_retry m

abbrev pub record_all : List Recorded → BuiltinMetrics → BuiltinMetrics
record_all [] m = m
record_all (r ∷ rs) m = record_all rs (record_one r m)

-- A failure without a status, or a status from 100 on.
abbrev pub has_class : ℕ → Bool → Bool
has_class status failed = (failed && status == 0) || leb 100 status

-- The responses of a list, and those of them without a class.
abbrev pub responses : List Recorded → ℕ
responses [] = 0
responses (responded status failed latency written got ∷ rs) = suc (responses rs)
responses (pooled e ∷ rs) = responses rs
responses (retried ∷ rs) = responses rs

abbrev pub classless : List Recorded → ℕ
classless [] = 0
classless (responded status failed latency written got ∷ rs) =
    (if has_class status failed then 0 else 1) + classless rs
classless (pooled e ∷ rs) = classless rs
classless (retried ∷ rs) = classless rs

abbrev pub class_sum : MetricsSnapshot → ℕ
class_sum s =
    s.requests_error + s.requests_1xx + s.requests_ok + s.requests_3xx + s.requests_4xx
    + s.requests_5xx

count_class-total :
    (status : ℕ) (failed : Bool) (c : MetricsSnapshot)
    → (count_class status failed c).requests_total ≡ c.requests_total
unfolding count_class
count_class-total status failed c = ground arith

count_class-sum :
    (status : ℕ) (failed : Bool) (c : MetricsSnapshot)
    → class_sum (count_class status failed c) + (if has_class status failed then 0 else 1)
      ≡ class_sum c + 1
unfolding count_class
count_class-sum status failed c = ground arith

-- The samples left are fewer than the limit, or as many.
add_sample-bounded :
    (limit : ℕ) (d : Option ℕ) (ls : List ℕ)
    → 1 < limit
    → length ls ≤ limit
    → length (add_sample limit d ls) ≤ limit
unfolding add_sample
add_sample-bounded limit none ls p h = h
add_sample-bounded limit (some d) ls p h = elim (Bool-cases (leb limit (length ls))) [
  | inl t ↦ rw t (
      omega (
        arith,
        p,
        h,
        length-append (take (length ls / 2) (drop (length ls / 2) ls)) (d ∷ []),
        length-take (length ls / 2) (drop (length ls / 2) ls),
      ))
  | inr f ↦
      let l : length ls < limit = ground (arith, f) in
      rw f (omega (arith, l, length-append ls (d ∷ [])))
]

-- The latencies of a snapshot are in order.
abbrev pub Ordered : MetricsSnapshot → Type 0
Ordered s =
    (s.latency_min ≤ s.latency_p50)
    × (s.latency_p50 ≤ s.latency_p95)
    × (s.latency_p95 ≤ s.latency_p99)
    × (s.latency_p99 ≤ s.latency_max)

count_class-Ordered :
    (status : ℕ) (failed : Bool) (c : MetricsSnapshot)
    → Ordered c
    → Ordered (count_class status failed c)
unfolding count_class
count_class-Ordered status failed c h = ground (arith, h)

-- A state of the collector behind `t` responses, `n` of them without a class.
pub record Runs (t n : ℕ) (m : BuiltinMetrics) : Type 0 where
  pub total : m.counters.requests_total ≡ t
  pub classes : class_sum m.counters + n ≡ t
  pub ordered : Ordered m.counters
  pub limit : m.max_samples ≡ 10000
  pub few : length m.latencies ≤ 10000

responded-Runs :
    (status t n written got : ℕ) (failed : Bool) (latency : Option ℕ) (m : BuiltinMetrics)
    → Runs t n m
    → Runs
        (t + 1)
        (n + (if has_class status failed then 0 else 1))
        (record_response status failed latency written got m)
unfolding record_response
responded-Runs status t n written got failed latency m r =
    let c = count_response written got m.counters in
    record {
      total = omega (arith, count_class-total status failed c, r.total);
      classes = omega (arith, count_class-sum status failed c, r.classes);
      ordered = count_class-Ordered status failed c r.ordered;
      limit = r.limit;
      few = rw r.limit (add_sample-bounded 10000 latency m.latencies (omega arith) r.few);
    }

pooled-Runs :
    (e : PoolEvent) (t n : ℕ) (m : BuiltinMetrics) → Runs t n m → Runs t n (record_pool_event e m)
unfolding count_event
pooled-Runs PoolEvent.conn_created t n m r = record {
  total = r.total;
  classes = r.classes;
  ordered = r.ordered;
  limit = r.limit;
  few = r.few;
}
pooled-Runs PoolEvent.conn_closed t n m r = record {
  total = r.total;
  classes = r.classes;
  ordered = r.ordered;
  limit = r.limit;
  few = r.few;
}
pooled-Runs PoolEvent.conn_reused t n m r = record {
  total = r.total;
  classes = r.classes;
  ordered = r.ordered;
  limit = r.limit;
  few = r.few;
}
pooled-Runs PoolEvent.conn_failed t n m r = record {
  total = r.total;
  classes = r.classes;
  ordered = r.ordered;
  limit = r.limit;
  few = r.few;
}

retried-Runs : (t n : ℕ) (m : BuiltinMetrics) → Runs t n m → Runs t n (record_retry m)
unfolding record_retry
retried-Runs t n m r = record {
  total = r.total;
  classes = r.classes;
  ordered = r.ordered;
  limit = r.limit;
  few = r.few;
}

pub record_all-Runs :
    (rs : List Recorded) (t n : ℕ) (m : BuiltinMetrics)
    → Runs t n m
    → Runs (t + responses rs) (n + classless rs) (record_all rs m)
record_all-Runs [] t n m r = record {
  total = omega (arith, r.total);
  classes = omega (arith, r.classes);
  ordered = r.ordered;
  limit = r.limit;
  few = r.few;
}
record_all-Runs (responded status failed latency written got ∷ rs) t n m r =
    let s = record_all-Runs rs _ _ _ (responded-Runs status t n written got failed latency m r) in
    record {
      total = omega (arith, s.total);
      classes = omega (arith, s.classes);
      ordered = s.ordered;
      limit = s.limit;
      few = s.few;
    }
record_all-Runs (pooled e ∷ rs) t n m r = record_all-Runs rs t n _ (pooled-Runs e t n m r)
record_all-Runs (retried ∷ rs) t n m r = record_all-Runs rs t n _ (retried-Runs t n m r)
