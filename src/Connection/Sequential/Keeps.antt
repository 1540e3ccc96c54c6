-- ===== src/Connection/Sequential/Keeps.antt =====
-- What the steps of `doSequential` of connection.go leave of the counts that the pool reads.
use bursthttp.Base.{
  ltb, ℕ, refl, Bool, true, false, not, pos_part, ◌==◌, if◌then◌else◌, ◌+◌, ◌/◌, ◌%◌, ◌^◌, ◌≡◌, ◌∙◌,
  ◌&&◌,
}
use bursthttp.Errors.{Error}
use bursthttp.Response.{Response}
use bursthttp.Response.Lookup.{is_connection_close}
use bursthttp.Connection.{
  Connection, HealthConfig, record_success, record_error, advance_health_window,
  tune_pipeline_depth, health_window_size, smooth,
}
use bursthttp.Connection.Link.{LinkConfig, Link, set_healthy, update_time_cache}
use bursthttp.Connection.Sequential.{Result, read_broken, count_request, closes, succeeded}

-- Neither the count nor the mark of the pool differs.
pub record Keeps (h k : Connection) : Type 0 where
  pub active : k.active_reqs ≡ h.active_reqs
  pub same_claim : k.pool_claimed ≡ h.pool_claimed

pub Keeps-refl : (h : Connection) → Keeps h h
Keeps-refl h = record { active = refl; same_claim = refl }

same_fields :
    (h k : Connection) → k.active_reqs ≡ h.active_reqs → k.pool_claimed ≡ h.pool_claimed → Keeps h k
same_fields h k a c = record { active = a; same_claim = c }

pub Keeps-trans : (h k m : Connection) → Keeps h k → Keeps k m → Keeps h m
Keeps-trans h k m a b = record {
  active = b.active ∙ a.active;
  same_claim = b.same_claim ∙ a.same_claim;
}

Keeps-if :
    (h : Connection) (b : Bool) (k m : Connection)
    → Keeps h k
    → Keeps h m
    → Keeps h (if b then k else m)
Keeps-if h true k m a c = a
Keeps-if h false k m a c = c

advance-Keeps : (h : Connection) → Keeps h (advance_health_window h)
unfolding advance_health_window
advance-Keeps h =
    Keeps-if h (ltb (h.total_window + 1) health_window_size) _ _
      (record { active = refl; same_claim = refl }) (record { active = refl; same_claim = refl })

record_error-Keeps : (cfg : HealthConfig) (h : Connection) → Keeps h (record_error cfg h)
unfolding record_error
record_error-Keeps cfg h =
    let bumped : Connection = record h { error_count = h.error_count + 1 } in
    Keeps-if h cfg.enable_health_scoring _ h
      (Keeps-trans h bumped _ (same_fields h bumped refl refl) (advance-Keeps bumped))
      (Keeps-refl h)

tune-Keeps :
    (cfg : HealthConfig) (ewma : ℕ) (h : Connection) → Keeps h (tune_pipeline_depth cfg ewma h)
unfolding tune_pipeline_depth
tune-Keeps cfg ewma h =
    Keeps-if h (ltb (ewma / 1000000) 10) _ _ (same_fields h _ refl refl)
      (Keeps-if h (ltb 100 (ewma / 1000000)) _ _ (same_fields h _ refl refl) (Keeps-refl h))

record_success-Keeps :
    (cfg : HealthConfig) (ns : ℕ) (h : Connection) → Keeps h (record_success cfg ns h)
unfolding record_success
record_success-Keeps cfg ns h =
    let ewma : ℕ = if h.latency_ewma == 0 then ns else smooth h.latency_ewma ns in
    let timed : Connection = record h { latency_ewma = ewma } in
    let advanced : Connection = advance_health_window timed in
    let a = Keeps-trans h timed advanced (same_fields h timed refl refl) (advance-Keeps timed) in
    Keeps-if h (not cfg.enable_health_scoring) h _ (Keeps-refl h) (
      Keeps-if h (cfg.enable_pipeline_auto_tune && cfg.enable_pipelining) _ _
        (Keeps-trans h advanced _ a (tune-Keeps cfg ewma advanced)) a)

-- The same of a link, and of what a call leaves.
abbrev pub KeepsLink : Link → Link → Type 0
KeepsLink l k = Keeps l.state k.state

abbrev pub Steady : Link → Result → Type 0
Steady l out = KeepsLink l out.1

pub link_if :
    (l : Link) (b : Bool) (k m : Link)
    → KeepsLink l k
    → KeepsLink l m
    → KeepsLink l (if b then k else m)
link_if l true k m a c = a
link_if l false k m a c = c

pub Steady-if :
    (l : Link) (b : Bool) (k m : Result) → Steady l k → Steady l m → Steady l (if b then k else m)
Steady-if l true k m a c = a
Steady-if l false k m a c = c

pub down-Keeps : (b : Bool) (l : Link) → KeepsLink l (set_healthy b l)
down-Keeps b l = same_fields l.state _ refl refl

clock-Keeps : (now : ℕ) (l : Link) → KeepsLink l (update_time_cache now l)
unfolding update_time_cache
clock-Keeps now l =
    link_if l ((l.time_counter + 1) % 2 ^ 32 % 128 == 0) _ _ (Keeps-refl l.state)
      (Keeps-refl l.state)

pub count_request-Keeps : (now : ℕ) (l : Link) → KeepsLink l (count_request now l)
count_request-Keeps now l = clock-Keeps now (record l { reqs_on_conn = l.reqs_on_conn + 1 })

closes-Keeps : (r : Response) (l : Link) → KeepsLink l (closes r l)
closes-Keeps r l =
    link_if l (is_connection_close r.headers) _ l (down-Keeps false l) (Keeps-refl l.state)

pub succeeded-Keeps :
    (cfg : LinkConfig) (now elapsed sent : ℕ) (l : Link) (r : Response)
    → KeepsLink l (succeeded cfg now elapsed sent l r)
succeeded-Keeps cfg now elapsed sent l r =
    let k : Link = count_request now l in
    let good : Connection = record_success cfg.health_config elapsed k.state in
    Keeps-trans l.state k.state _ (count_request-Keeps now l) (
      Keeps-trans k.state good _ (record_success-Keeps cfg.health_config elapsed k.state) (
        closes-Keeps r (record k {
          state = good;
          bytes_written = k.bytes_written + sent;
          bytes_read = k.bytes_read + pos_part r.content_length;
        })))

pub read_broken-Keeps : (cfg : LinkConfig) (l : Link) (e : Error) → Steady l (read_broken cfg l e)
read_broken-Keeps cfg l e =
    let down : Link = set_healthy false l in
    Keeps-trans l.state down.state _ (down-Keeps false l)
      (record_error-Keeps cfg.health_config down.state)
