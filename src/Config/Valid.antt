-- ===== src/Config/Valid.antt =====
-- What `Validate` of config.go makes sure of.
use bursthttp.Base.{ℕ, suc, Bool, true, ℤ, pos, nonempty, ◌<◌, ◌≡◌, ◌≢◌}
use bursthttp.Config.{Config}

abbrev pub IsPositive : ℤ → Type 0
IsPositive x = (n : ℕ) × (x ≡ pos (suc n))

abbrev pub IsNatural : ℤ → Type 0
IsNatural x = (n : ℕ) × (x ≡ pos n)

module _ {F : Type 0} (positive : F → Bool) where
  -- Something for the host, a port and versions that are not 0, and the signs of the other values.
  pub record IsValid (c : Config F) : Type 0 where
    host_ok : nonempty c.host ≡ true
    port_ok : c.port ≢ pos 0
    pool_size_ok : IsPositive c.pool_size
    idle_timeout_ok : IsPositive c.idle_timeout
    dial_timeout_ok : IsPositive c.dial_timeout
    read_timeout_ok : IsPositive c.read_timeout
    write_timeout_ok : IsPositive c.write_timeout
    tls_handshake_timeout_ok : IsPositive c.tls_handshake_timeout
    read_buffer_size_ok : IsPositive c.read_buffer_size
    write_buffer_size_ok : IsPositive c.write_buffer_size
    header_buffer_size_ok : IsPositive c.header_buffer_size
    header_read_chunk_size_ok : IsPositive c.header_read_chunk_size
    body_read_chunk_size_ok : IsPositive c.body_read_chunk_size
    max_request_body_size_ok : IsPositive c.max_request_body_size
    max_response_body_size_ok : IsPositive c.max_response_body_size
    tls_min_version_ok : 0 < c.tls_min_version
    tls_max_version_ok : 0 < c.tls_max_version
    tls_client_session_cache_size_ok : IsPositive c.tls_client_session_cache_size
    proxy_connect_timeout_ok : IsPositive c.proxy_connect_timeout
    proxy_read_timeout_ok : IsPositive c.proxy_read_timeout
    max_pipelined_requests_ok : IsPositive c.max_pipelined_requests
    max_retries_ok : IsNatural c.max_retries
    retry_base_delay_ok : IsPositive c.retry_base_delay
    retry_max_delay_ok : IsPositive c.retry_max_delay
    retry_multiplier_ok : positive c.retry_multiplier ≡ true
    dns_cache_ttl_ok : IsPositive c.dns_cache_ttl
    dns_negative_ttl_ok : IsPositive c.dns_negative_ttl
    idle_check_interval_ok : IsPositive c.idle_check_interval
