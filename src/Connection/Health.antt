-- ===== src/Connection/Health.antt =====
-- The health window, the score and the pipeline depth of a connection, in every state it reaches.
use bursthttp.Base.{ℕ, true, arith, ◌==◌, if◌then◌else◌, ◌+◌, ◌*◌, ◌/◌, ◌≤◌, ◌<◌, ◌≡◌}
use bursthttp.Connection.{
  HealthConfig, Connection, health_window_size, or_ten, new_connection, smooth, latency_penalty,
  window_score, advance_health_window, max_depth, tune_pipeline_depth, record_success, record_error,
  health,
}

-- What a finished request does to a connection.
pub data Finishes (cfg : HealthConfig) : Connection → Connection → Type 0 where
  succeeds : (c : Connection) (ns : ℕ) → Finishes cfg c (record_success cfg ns c)
  errs : (c : Connection) → Finishes cfg c (record_error cfg c)

-- The states of a connection, from its creation.
pub data Reaches (cfg : HealthConfig) : Connection → Type 0 where
  created : (id : ℕ) → Reaches cfg (new_connection cfg id)
  later : {c c' : Connection} → Reaches cfg c → Finishes cfg c c' → Reaches cfg c'

pub record WellFormed (cfg : HealthConfig) (c : Connection) : Type 0 where
  pub window : c.total_window < health_window_size
  pub errors : c.error_count ≤ c.total_window
  pub score : c.health_score ≤ 100
  pub shallow : 1 ≤ c.pipeline_depth
  pub deep : c.pipeline_depth ≤ or_ten cfg.max_pipelined_requests

window_score_bounds : (ewma errors : ℕ) → window_score ewma errors ≤ 100
unfolding window_score
window_score_bounds ewma errors = omega arith

-- What the window needs before it advances, which an error has raised already.
record Counted (cfg : HealthConfig) (c : Connection) : Type 0 where
  window : c.total_window < health_window_size
  errors : c.error_count ≤ c.total_window + 1
  score : c.health_score ≤ 100
  shallow : 1 ≤ c.pipeline_depth
  deep : c.pipeline_depth ≤ or_ten cfg.max_pipelined_requests

advance_health_window-WellFormed :
    (cfg : HealthConfig) (c : Connection) → Counted cfg c → WellFormed cfg (advance_health_window c)
unfolding advance_health_window
advance_health_window-WellFormed cfg c k =
    ground (arith, window_score_bounds c.latency_ewma c.error_count)

or_ten_positive : (n : ℕ) → 1 ≤ or_ten n
or_ten_positive n = ground arith

tune_pipeline_depth-WellFormed :
    (cfg : HealthConfig) (ewma : ℕ) (c : Connection)
    → WellFormed cfg c
    → WellFormed cfg (tune_pipeline_depth cfg ewma c)
unfolding tune_pipeline_depth max_depth
tune_pipeline_depth-WellFormed cfg ewma c f =
    ground (arith, or_ten_positive cfg.max_pipelined_requests)

new_connection-WellFormed : (cfg : HealthConfig) (id : ℕ) → WellFormed cfg (new_connection cfg id)
unfolding new_connection
new_connection-WellFormed cfg id = ground (arith, or_ten_positive cfg.max_pipelined_requests)

step-WellFormed :
    (cfg : HealthConfig) {c c' : Connection}
    → Finishes cfg c c'
    → WellFormed cfg c
    → WellFormed cfg c'
step-WellFormed cfg (succeeds c ns) f =
    unfold record_success in
    let ewma = if c.latency_ewma == 0 then ns else smooth c.latency_ewma ns in
    let counted : Counted cfg (record c { latency_ewma = ewma }) = record {
      window = f.window;
      errors = omega (arith, f.errors);
      score = f.score;
      shallow = f.shallow;
      deep = f.deep;
    } in
    let advanced =
      advance_health_window-WellFormed cfg (record c { latency_ewma = ewma }) counted in
    ground (
      arith,
      advanced,
      tune_pipeline_depth-WellFormed cfg ewma
          (advance_health_window (record c { latency_ewma = ewma })) advanced,
      f,
    )
step-WellFormed cfg (errs c) f =
    unfold record_error in
    let counted : Counted cfg (record c { error_count = c.error_count + 1 }) = record {
      window = f.window;
      errors = omega (arith, f.errors);
      score = f.score;
      shallow = f.shallow;
      deep = f.deep;
    } in
    ground (
      arith,
      advance_health_window-WellFormed cfg (record c { error_count = c.error_count + 1 }) counted,
      f,
    )

-- In every state that a connection reaches by finished requests, the window holds fewer than 50
-- requests and no more errors than requests, the health score is at most 100, and the pipeline
-- depth is at least 1 and at most the configured one.
pub Reaches-WellFormed : (cfg : HealthConfig) (c : Connection) → Reaches cfg c → WellFormed cfg c
Reaches-WellFormed cfg c (created id) = new_connection-WellFormed cfg id
Reaches-WellFormed cfg c (later r s) = step-WellFormed cfg s (Reaches-WellFormed cfg _ r)

latency_penalty_bounds : (ms : ℕ) → latency_penalty ms ≤ 60
unfolding latency_penalty
latency_penalty_bounds ms = ground arith

-- For a window with at most 50 errors, the score and the two penalties add up to exactly 100:
-- the cut of a negative score never applies.
pub window_score_exact :
    (ewma errors : ℕ)
    → errors ≤ health_window_size
    → window_score ewma errors
        + latency_penalty (ewma / 1000000)
        + (40 * errors) / health_window_size
      ≡ 100
unfolding window_score
window_score_exact ewma errors h = ground (arith, latency_penalty_bounds (ewma / 1000000))

-- The smoothed latency lies between any bounds that hold for both the old one and the new
-- sample.
pub smooth-between :
    (old ns low high : ℕ)
    → low ≤ old
    → low ≤ ns
    → old ≤ high
    → ns ≤ high
    → (low ≤ smooth old ns) × (smooth old ns ≤ high)
unfolding smooth
smooth-between old ns low high a b c d = grind arith

-- With health scoring on, a new connection reports the score 100, and after its first successful
-- request, of any positive duration, the score 0.
pub fresh_score_drops :
    (cfg : HealthConfig) (id ns : ℕ)
    → cfg.enable_health_scoring ≡ true
    → 0 < ns
    → (health (new_connection cfg id) ≡ 100)
      × (health (record_success cfg ns (new_connection cfg id)) ≡ 0)
unfolding health record_success new_connection advance_health_window tune_pipeline_depth
fresh_score_drops cfg id ns h p = ground arith
