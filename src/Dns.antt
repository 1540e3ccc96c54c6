-- ===== src/Dns.antt =====
-- dns.go: the cache of host addresses. A time is a number of nanoseconds; `net.ParseIP` and
-- `net.LookupHost` are parameters: the test for an address, and the answer of one call. The clock does not
-- run backwards, so an entry that is fresh expires within its time to live. A call runs without
-- another one for the same host in between, so that no lookup is in flight when it starts; the state
-- of the locks and the channel of a flight are left out.
pub mod Turns
pub mod Safety
pub mod Negative
use bursthttp.Base.{
  ltb, length, get_or, Bytes, ℕ, Bool, false, not, Option, none, some, List, [], ◌==◌,
  if◌then◌else◌, ◌+◌, ◌-◌, ◌*◌, ◌/◌, ◌%◌, ◌^◌, ◌&&◌, ◌∷◌,
}
use bursthttp.Base.Dict.{Dict, get, delete, put}
use bursthttp.Errors.{Error, other}
use bursthttp.Input.{Outcome, done, failed, panics}

pub record DnsEntry : Type 0 where
  pub addrs : List Bytes
  pub expires : ℕ
  pub idx : ℕ

pub record DnsCache : Type 0 where
  pub ttl : ℕ
  pub negative_ttl : ℕ
  pub entries : Dict DnsEntry
  pub negative : Dict ℕ

-- `NewDNSCache`, for durations that are not negative.
abbrev pub new_dns_cache : ℕ → ℕ → DnsCache
new_dns_cache ttl negative_ttl = record {
  ttl = if ttl == 0 then 5 * 60 * 10 ^ 9 else ttl;
  negative_ttl = if negative_ttl == 0 then 5 * 10 ^ 9 else negative_ttl;
  entries = [];
  negative = [];
}

-- `&net.DNSError{Err: "no such host (negative cache)", …}`
abbrev pub no_such_host : Error
no_such_host = other 10

-- What `net.LookupHost` answers.
pub data Resolved : Type 0 where
  found : List Bytes → Resolved
  lookup_failed : Error → Resolved

-- What a call gives back: its result, the cache, and whether it started `backgroundRefresh`.
pub record Looked : Type 0 where
  pub result : Outcome (List Bytes)
  pub cache : DnsCache
  pub refreshes : Bool

abbrev pub plain_result : Outcome (List Bytes) → DnsCache → Looked
plain_result r c = record { result = r; cache = c; refreshes = false }

-- `addrs[i%uint32(len(addrs))]`, which divides by zero when there are none.
abbrev pub pick : List Bytes → ℕ → Outcome (List Bytes)
pick [] i = panics
pick (a ∷ more) i = done (get_or (a ∷ more) (i % length (a ∷ more)) [] ∷ [])

abbrev pub advance : DnsEntry → DnsEntry
advance e = record e { idx = (e.idx + 1) % 2 ^ 32 }

-- The branch on a fresh entry: `atomic.AddUint32(&entry.idx, 1) - 1` and the test of the age.
abbrev pub hit : DnsCache → Bytes → DnsEntry → ℕ → Looked
hit c host e now = record {
  result = pick e.addrs (((advance e).idx + (2 ^ 32 - 1)) % 2 ^ 32);
  cache = record c { entries = put c.entries host (advance e) };
  refreshes = ltb (c.ttl * 4 / 5) (c.ttl - (e.expires - now));
}

-- `c.entries[host] = &dnsEntry{…}`
abbrev pub put_entry : DnsCache → Bytes → List Bytes → ℕ → ℕ → DnsCache
put_entry c host addrs idx now = record c {
  entries = put c.entries host (record { addrs = addrs; expires = now + c.ttl; idx = idx });
}

abbrev pub unmark : DnsCache → Bytes → DnsCache
unmark c host = record c { negative = delete c.negative host }

-- `[]string{addrs[0]}`
abbrev pub first_of : List Bytes → Outcome (List Bytes)
first_of [] = panics
first_of (a ∷ more) = done (a ∷ [])

-- What follows the lookup of a host that has no fresh entry, from the addresses of a stale one.
unfoldable pub looked_up : DnsCache → Bytes → Option (List Bytes) → Resolved → ℕ → Looked
looked_up c host (some stale) (lookup_failed e) later = plain_result (done stale) c
looked_up c host none (lookup_failed e) later =
    plain_result (failed e) (record c { negative = put c.negative host (later + c.negative_ttl) })
looked_up c host stale (found addrs) later =
    plain_result (first_of addrs) (put_entry (unmark c host) host addrs 0 later)

abbrev pub is_fresh : ℕ → DnsEntry → Bool
is_fresh now e = ltb now e.expires

abbrev pub is_before : ℕ → Option ℕ → Bool
is_before now none = false
is_before now (some exp) = ltb now exp

unfoldable pub with_entry : DnsCache → Bytes → Option DnsEntry → Resolved → ℕ → ℕ → Looked
with_entry c host none answer now later = looked_up c host none answer later
with_entry c host (some e) answer now later =
    if is_fresh now e then hit c host e now else looked_up c host (some e.addrs) answer later

module _ (is_ip : Bytes → Bool) where
  -- `LookupHost` at the time `now`, with the answer of `net.LookupHost` at the time `later` if it is called.
  unfoldable pub lookup_host : DnsCache → Bytes → Resolved → ℕ → ℕ → Looked
  unfolding with_entry
  lookup_host c host answer now later =
      if is_ip host
      then plain_result (done (host ∷ [])) c
      else if is_before now (get c.negative host)
      then plain_result (failed no_such_host) c
      else with_entry c host (get c.entries host) answer now later

-- What a call that waits for the lookup of another gives: `fl.addrs[:1]`, or what it has.
unfoldable pub waited : Option (List Bytes) → Resolved → Outcome (List Bytes)
waited (some stale) (lookup_failed e) = done stale
waited none (lookup_failed e) = failed e
waited stale (found addrs) = first_of addrs

abbrev pub kept_idx : Option DnsEntry → ℕ
kept_idx none = 0
kept_idx (some e) = e.idx

-- `backgroundRefresh`, which no other lookup of the host runs beside.
unfoldable pub background_refresh : DnsCache → Bytes → Resolved → ℕ → DnsCache
background_refresh c host (lookup_failed e) now = c
background_refresh c host (found []) now = c
background_refresh c host (found (a ∷ more)) now =
    put_entry (unmark c host) host (a ∷ more) (kept_idx (get c.entries host)) now

unfoldable pub refresh : DnsCache → Bytes → Resolved → ℕ → Outcome (List Bytes) × DnsCache
refresh c host (lookup_failed e) now = (failed e, c)
refresh c host (found addrs) now = (done addrs, put_entry c host addrs 0 now)

abbrev pub invalidate : DnsCache → Bytes → DnsCache
invalidate c host = record c { entries = delete c.entries host }

abbrev pub clear : DnsCache → DnsCache
clear c = record c { entries = [] }

-- The interval of the ticker of `janitor`.
abbrev pub janitor_interval : DnsCache → ℕ
janitor_interval c = if ltb (c.ttl / 4) (10 ^ 9) then 10 ^ 9 else c.ttl / 4

-- The entries that a tick of `janitor` leaves, and the hosts that it prefetches.
unfoldable pub sweep_entries : Dict DnsEntry → ℕ → Dict DnsEntry
sweep_entries [] now = []
sweep_entries ((host, e) ∷ es) now =
    let rest = sweep_entries es now in if ltb e.expires now then rest else (host, e) ∷ rest

unfoldable pub prefetched : Dict DnsEntry → ℕ → ℕ → List Bytes
prefetched [] threshold now = []
prefetched ((host, e) ∷ es) threshold now =
    let rest = prefetched es threshold now in
    if not (ltb e.expires now) && ltb (e.expires - now) threshold then host ∷ rest else rest

unfoldable pub sweep_negative : Dict ℕ → ℕ → Dict ℕ
sweep_negative [] now = []
sweep_negative ((host, exp) ∷ es) now =
    let rest = sweep_negative es now in if ltb exp now then rest else (host, exp) ∷ rest

-- One tick of `janitor`: the swept cache, and the hosts whose `backgroundRefresh` it starts.
abbrev pub janitor_tick : DnsCache → ℕ → DnsCache × List Bytes
janitor_tick c now = (
  record c { entries = sweep_entries c.entries now; negative = sweep_negative c.negative now },
  prefetched c.entries (c.ttl / 5) now,
)
