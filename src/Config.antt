-- ===== src/Config.antt =====
-- config.go: the configuration, its presets and `Validate`. A duration is a number of nanoseconds. The
-- `*tls.Config`, the metrics collector and the rate of the limiter are left out; the multiplier of the
-- retries is a `float64`, whose type, test of the sign and constant 2.0 are parameters.
pub mod Valid
use bursthttp.Base.{
  Bytes, codes, ℕ, Bool, true, false, List, [], ℤ, pos, negsuc, leb_ℤ, ltb_ℤ, nonempty, ◌==◌,
  if◌then◌else◌, ◌*◌, ◌^◌, ◌∷◌,
}

abbrev pub in_seconds : ℕ → ℤ
in_seconds n = pos (n * 10 ^ 9)

abbrev pub milliseconds : ℕ → ℤ
milliseconds n = pos (n * 10 ^ 6)

abbrev pub minutes : ℕ → ℤ
minutes n = pos (n * (60 * 10 ^ 9))

abbrev pub version_tls12 : ℕ
version_tls12 = 771

abbrev pub version_tls13 : ℕ
version_tls13 = 772

pub record Config (F : Type 0) : Type 0 where
  pub host : Bytes
  pub port : ℤ
  pub use_tls : Bool
  pub pool_size : ℤ
  pub max_requests_per_conn : ℤ
  pub idle_timeout : ℤ
  pub dial_timeout : ℤ
  pub read_timeout : ℤ
  pub write_timeout : ℤ
  pub tls_handshake_timeout : ℤ
  pub read_buffer_size : ℤ
  pub write_buffer_size : ℤ
  pub header_buffer_size : ℤ
  pub header_read_chunk_size : ℤ
  pub body_read_chunk_size : ℤ
  pub max_request_body_size : ℤ
  pub max_response_body_size : ℤ
  pub enable_compression : Bool
  pub compression_level : ℤ
  pub tls_min_version : ℕ
  pub tls_max_version : ℕ
  pub insecure_skip_verify : Bool
  pub tls_client_session_cache_size : ℤ
  pub proxy_url : Bytes
  pub proxy_username : Bytes
  pub proxy_password : Bytes
  pub proxy_connect_timeout : ℤ
  pub proxy_read_timeout : ℤ
  pub socks5_addr : Bytes
  pub socks5_username : Bytes
  pub socks5_password : Bytes
  pub keep_alive : Bool
  pub disable_keep_alive : Bool
  pub max_idle_conns_per_host : ℤ
  pub enable_pipelining : Bool
  pub max_pipelined_requests : ℤ
  pub max_retries : ℤ
  pub retry_base_delay : ℤ
  pub retry_max_delay : ℤ
  pub retry_multiplier : F
  pub retry_jitter : Bool
  pub retryable_status : List ℕ
  pub enable_dns_cache : Bool
  pub dns_cache_ttl : ℤ
  pub dns_negative_ttl : ℤ
  pub enable_scheduler : Bool
  pub scheduler_workers : ℤ
  pub scheduler_queue_depth : ℤ
  pub enable_health_scoring : Bool
  pub idle_check_interval : ℤ
  pub enable_response_streaming : Bool
  pub tcp_no_delay : Bool
  pub tcp_keep_alive : Bool
  pub tcp_keep_alive_period : ℤ
  pub tcp_fast_open : Bool
  pub tcp_reuse_port : Bool
  pub enable_pipeline_auto_tune : Bool
  pub enable_logging : Bool
  pub burst_size : ℤ

-- `if c.X <= 0 { c.X = d }`
abbrev pub positive_or : ℤ → ℤ → ℤ
positive_or d x = if leb_ℤ x (pos 0) then d else x

abbrev pub host_or : Bytes → Bytes
host_or host = if nonempty host then host else codes "localhost"

abbrev pub is_zero : ℤ → Bool
is_zero (pos n) = n == 0
is_zero (negsuc n) = false

abbrev pub port_or_default : Bool → ℤ → ℤ
port_or_default use_tls port = if is_zero port then (if use_tls then pos 443 else pos 80) else port

-- The nested tests of the two timeouts of a proxy, on the dial timeout that stands by then.
abbrev pub timeout_or : ℤ → ℤ → ℤ
timeout_or dial x = if leb_ℤ x (pos 0) then positive_or (in_seconds 10) dial else x

abbrev pub version_or : ℕ → ℕ → ℕ
version_or d v = if v == 0 then d else v

abbrev pub not_negative : ℤ → ℤ
not_negative x = if ltb_ℤ x (pos 0) then pos 0 else x

abbrev pub multiplier_or : {F : Type 0} → (F → Bool) → F → F → F
multiplier_or positive two x = if positive x then x else two

module _ {F : Type 0} (positive : F → Bool) (two : F) where
  abbrev pub default_config : Config F
  default_config = record {
    host = codes "localhost";
    port = pos 443;
    use_tls = true;
    pool_size = pos 512;
    max_requests_per_conn = pos 0;
    idle_timeout = in_seconds 90;
    dial_timeout = in_seconds 10;
    read_timeout = in_seconds 30;
    write_timeout = in_seconds 10;
    tls_handshake_timeout = in_seconds 10;
    read_buffer_size = pos (64 * 1024);
    write_buffer_size = pos (64 * 1024);
    header_buffer_size = pos (16 * 1024);
    header_read_chunk_size = pos (4 * 1024);
    body_read_chunk_size = pos (64 * 1024);
    max_request_body_size = pos (10 * 1024 * 1024);
    max_response_body_size = pos (10 * 1024 * 1024);
    enable_compression = false;
    compression_level = pos 6;
    tls_min_version = version_tls12;
    tls_max_version = version_tls13;
    insecure_skip_verify = false;
    tls_client_session_cache_size = pos 4096;
    proxy_url = [];
    proxy_username = [];
    proxy_password = [];
    proxy_connect_timeout = in_seconds 10;
    proxy_read_timeout = in_seconds 10;
    socks5_addr = [];
    socks5_username = [];
    socks5_password = [];
    keep_alive = true;
    disable_keep_alive = false;
    max_idle_conns_per_host = pos 512;
    enable_pipelining = true;
    max_pipelined_requests = pos 10;
    max_retries = pos 0;
    retry_base_delay = milliseconds 100;
    retry_max_delay = in_seconds 5;
    retry_multiplier = two;
    retry_jitter = true;
    retryable_status = 429 ∷ 502 ∷ 503 ∷ 504 ∷ [];
    enable_dns_cache = false;
    dns_cache_ttl = minutes 5;
    dns_negative_ttl = in_seconds 5;
    enable_scheduler = false;
    scheduler_workers = pos 0;
    scheduler_queue_depth = pos 0;
    enable_health_scoring = true;
    idle_check_interval = in_seconds 30;
    enable_response_streaming = false;
    tcp_no_delay = true;
    tcp_keep_alive = true;
    tcp_keep_alive_period = in_seconds 30;
    tcp_fast_open = false;
    tcp_reuse_port = false;
    enable_pipeline_auto_tune = false;
    enable_logging = false;
    burst_size = pos 0;
  }

  abbrev pub high_throughput_config : Config F
  high_throughput_config =
      let d : Config F = default_config in
      record d {
        pool_size = pos 1024;
        read_buffer_size = pos (128 * 1024);
        write_buffer_size = pos (128 * 1024);
        header_read_chunk_size = pos (8 * 1024);
        body_read_chunk_size = pos (64 * 1024);
        tls_client_session_cache_size = pos 8192;
        max_idle_conns_per_host = pos 1024;
        max_pipelined_requests = pos 16;
        enable_dns_cache = true;
        enable_scheduler = true;
        enable_health_scoring = true;
        idle_check_interval = in_seconds 15;
        enable_pipeline_auto_tune = true;
      }

  abbrev pub resilient_config : Config F
  resilient_config =
      let d : Config F = default_config in
      record d {
        max_retries = pos 3;
        retry_base_delay = milliseconds 200;
        retry_max_delay = in_seconds 10;
        retry_multiplier = two;
        retry_jitter = true;
        retryable_status = 429 ∷ 502 ∷ 503 ∷ 504 ∷ [];
        enable_dns_cache = true;
      }

  -- `Validate`, whose error is always nil.
  unfoldable pub validate : Config F → Config F
  validate c = record c {
    host = host_or c.host;
    port = port_or_default c.use_tls c.port;
    pool_size = positive_or (pos 512) c.pool_size;
    idle_timeout = positive_or (in_seconds 90) c.idle_timeout;
    dial_timeout = positive_or (in_seconds 10) c.dial_timeout;
    read_timeout = positive_or (in_seconds 30) c.read_timeout;
    write_timeout = positive_or (in_seconds 10) c.write_timeout;
    tls_handshake_timeout = positive_or (in_seconds 10) c.tls_handshake_timeout;
    read_buffer_size = positive_or (pos (64 * 1024)) c.read_buffer_size;
    write_buffer_size = positive_or (pos (64 * 1024)) c.write_buffer_size;
    header_buffer_size = positive_or (pos (16 * 1024)) c.header_buffer_size;
    header_read_chunk_size = positive_or (pos (4 * 1024)) c.header_read_chunk_size;
    body_read_chunk_size = positive_or (pos (64 * 1024)) c.body_read_chunk_size;
    max_request_body_size = positive_or (pos (10 * 1024 * 1024)) c.max_request_body_size;
    max_response_body_size = positive_or (pos (10 * 1024 * 1024)) c.max_response_body_size;
    tls_min_version = version_or version_tls12 c.tls_min_version;
    tls_max_version = version_or version_tls13 c.tls_max_version;
    tls_client_session_cache_size = positive_or (pos 4096) c.tls_client_session_cache_size;
    proxy_connect_timeout =
        timeout_or (positive_or (in_seconds 10) c.dial_timeout) c.proxy_connect_timeout;
    proxy_read_timeout =
        timeout_or (positive_or (in_seconds 10) c.dial_timeout) c.proxy_read_timeout;
    max_pipelined_requests = positive_or (pos 10) c.max_pipelined_requests;
    max_retries = not_negative c.max_retries;
    retry_base_delay = positive_or (milliseconds 100) c.retry_base_delay;
    retry_max_delay = positive_or (in_seconds 5) c.retry_max_delay;
    retry_multiplier = multiplier_or positive two c.retry_multiplier;
    dns_cache_ttl = positive_or (minutes 5) c.dns_cache_ttl;
    dns_negative_ttl = positive_or (in_seconds 5) c.dns_negative_ttl;
    idle_check_interval = positive_or (in_seconds 30) c.idle_check_interval;
  }
