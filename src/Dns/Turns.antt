-- ===== src/Dns/Turns.antt =====
-- The addresses of a fresh entry of dns.go, one lookup after the other.
use bursthttp.Base.{length, Bytes, ℕ, Bool, false, none, some, List, [], ◌^◌, ◌<◌, ◌≡◌, ◌∷◌}
use bursthttp.Base.Dict.{get}
use bursthttp.Input.{Outcome}
use bursthttp.Dns.{DnsCache, DnsEntry, Resolved, Looked, lookup_host}

module _ (is_ip : Bytes → Bool) (host : Bytes) (answer : Resolved) where
  -- Lookups of the host at these times: what each of them gives, and whether it starts
  -- `backgroundRefresh`. The cache of the next one is that of the last, so it must not.
  unfoldable pub lookups : DnsCache → List ℕ → List (Outcome (List Bytes) × Bool)
  lookups c [] = []
  lookups c (now ∷ times) =
      let l : Looked = lookup_host is_ip c host answer now now in
      (l.result, l.refreshes) ∷ lookups l.cache times

  -- The host has an entry with addresses and no mark.
  pub record Cached (c : DnsCache) (e : DnsEntry) : Type 0 where
    pub a_name : is_ip host ≡ false
    pub unmarked : get c.negative host ≡ none
    pub entry_is : get c.entries host ≡ some e
    pub some_address : 0 < length e.addrs
    pub index_fits : e.idx < 2 ^ 32
