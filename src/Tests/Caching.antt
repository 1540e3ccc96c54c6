-- ===== src/Tests/Caching.antt =====
-- The DNS cache on one host, and the validation of a configuration.
use bursthttp.Base.{
  ltb, Bytes, codes, eq_bytes, ℕ, refl, Bool, false, some, [], arith, pos, negsuc, ◌≡◌, ◌∷◌,
}
use bursthttp.Base.Dict.{get}
use bursthttp.Input.{failed}
use bursthttp.Errors.{eof}
use bursthttp.Dns.{
  DnsCache, DnsEntry, found, lookup_failed, new_dns_cache, no_such_host, lookup_host, refresh,
}
use bursthttp.Dns.Safety.{made, looked, IsResult, lookup_host-IsResult}
use bursthttp.Dns.Negative.{start, refreshed, Meanwhile-refused}
use bursthttp.Config.{Config, default_config, high_throughput_config, resilient_config, validate}

abbrev no_ip : Bytes → Bool
no_ip host = false

abbrev two_addresses : DnsEntry
two_addresses = record { addrs = codes "A" ∷ codes "B" ∷ []; expires = 100; idx = 4294967295 }

abbrev cache : DnsCache
cache = record {
  ttl = 100;
  negative_ttl = 10;
  entries = (codes "h", two_addresses) ∷ [];
  negative = [];
}

abbrev empty_cache : DnsCache
empty_cache = new_dns_cache 100 10

lookup_host-IsResult_example :
    IsResult
      (lookup_host no_ip
        (lookup_host no_ip empty_cache (codes "h") (found (codes "A" ∷ [])) 1 2).cache
        (codes "h")
        (lookup_failed eof)
        200
        201).result
lookup_host-IsResult_example =
    lookup_host-IsResult no_ip
      (lookup_host no_ip empty_cache (codes "h") (found (codes "A" ∷ [])) 1 2).cache (codes "h")
      (lookup_failed eof) 200 201
      (looked empty_cache (codes "h") (found (codes "A" ∷ [])) 1 2 (omega arith) (made 100 10)) tt

-- The cache once a lookup has failed, and then a refresh has found an address.
abbrev failed_cache : DnsCache
failed_cache = record {
  ttl = 100;
  negative_ttl = 10;
  entries = [];
  negative = (codes "h", 15) ∷ [];
}

failed_marked : get failed_cache.negative (codes "h") ≡ some 15
unfolding get eq_bytes
failed_marked = refl

Meanwhile-refused_example :
    (lookup_host no_ip
      (refresh failed_cache (codes "h") (found (codes "A" ∷ [])) 6).1
      (codes "h")
      (found [])
      7
      7).result
    ≡ failed no_such_host
Meanwhile-refused_example =
    Meanwhile-refused no_ip (codes "h") 15 failed_cache
      (refresh failed_cache (codes "h") (found (codes "A" ∷ [])) 6).1 (found []) 7 7 refl
      failed_marked
      (refreshed failed_cache failed_cache (codes "h") (found (codes "A" ∷ [])) 6
        (start failed_cache))
      (omega arith)

-- A multiplier in tenths.
abbrev some_tenths : ℕ → Bool
some_tenths n = ltb 0 n

abbrev bad_config : Config ℕ
bad_config =
    let d : Config ℕ = default_config some_tenths 20 in
    record d { host = []; port = pos 0; max_retries = negsuc 4; retry_multiplier = 0 }

presets_run :
    (validate some_tenths 20 (default_config some_tenths 20) ≡ default_config some_tenths 20)
    × (validate some_tenths 20 (high_throughput_config some_tenths 20)
        ≡ high_throughput_config some_tenths 20)
    × (validate some_tenths 20 (resilient_config some_tenths 20) ≡ resilient_config some_tenths 20)
unfolding validate
presets_run = (refl, refl, refl)
