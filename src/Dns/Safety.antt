-- ===== src/Dns/Safety.antt =====
-- The states that the calls of dns.go lead to, and what a lookup gives in them.
use bursthttp.Base.{
  ltb, Bool-cases, length, get_or, Bytes, ℕ, refl, inl, inr, Bool, Option, none, some, List, [],
  arith, ◌+◌, ◌-◌, ◌%◌, ◌^◌, ◌<◌, ◌≡◌, ◌⊎◌, ◌∷◌,
}
use bursthttp.Base.Dict.{Dict, get, Every, delete-Every, get-Every}
use bursthttp.Errors.{Error}
use bursthttp.Input.{Outcome, done, failed}
use bursthttp.Dns.{
  DnsCache, DnsEntry, Resolved, found, lookup_failed, Looked, no_such_host, is_before, is_fresh,
  looked_up, with_entry, lookup_host, refresh, background_refresh, invalidate, clear, sweep_entries,
  janitor_tick, new_dns_cache, pick, first_of, advance, kept_idx, put_entry,
}

-- `net.LookupHost` gives an address when it gives no error.
abbrev pub IsAnswer : Resolved → Type 0
IsAnswer (found addrs) = 0 < length addrs
IsAnswer (lookup_failed e) = Unit

-- An error, or an address at least.
abbrev pub IsResult : Outcome (List Bytes) → Type 0
IsResult o =
    ((addrs : List Bytes) × (o ≡ done addrs) × (0 < length addrs)) ⊎ ((e : Error) × (o ≡ failed e))

abbrev HasAddress : DnsEntry → Type 0
HasAddress e = 0 < length e.addrs

abbrev AllHave : DnsCache → Type 0
AllHave c = Every HasAddress c.entries

sweep_entries-Every :
    (m : Dict DnsEntry) (now : ℕ) → Every HasAddress m → Every HasAddress (sweep_entries m now)
unfolding sweep_entries
sweep_entries-Every [] now h = tt
sweep_entries-Every ((host, e) ∷ m) now (h, hs) = elim (Bool-cases (ltb e.expires now)) [
  | inl t ↦ rw t (sweep_entries-Every m now hs)
  | inr t ↦ rw t (h, sweep_entries-Every m now hs)
]

put_entry-AllHave :
    (c : DnsCache) (host : Bytes) (addrs : List Bytes) (idx now : ℕ)
    → AllHave c
    → 0 < length addrs
    → AllHave (put_entry c host addrs idx now)
put_entry-AllHave c host addrs idx now h a = (a, delete-Every HasAddress c.entries host h)

-- What a lookup leaves and gives.
abbrev Sound : Looked → Type 0
Sound l = AllHave l.cache × IsResult l.result

first_of-IsResult : (addrs : List Bytes) → 0 < length addrs → IsResult (first_of addrs)
first_of-IsResult [] h = absurd (omega arith)
first_of-IsResult (a ∷ more) h = inl (a ∷ [], refl, omega arith)

pick-IsResult : (addrs : List Bytes) (i : ℕ) → 0 < length addrs → IsResult (pick addrs i)
pick-IsResult [] i h = absurd (omega arith)
pick-IsResult (a ∷ more) i h =
    inl (get_or (a ∷ more) (i % length (a ∷ more)) [] ∷ [], refl, omega arith)

looked_up-Sound :
    (c : DnsCache) (host : Bytes) (answer : Resolved) (later : ℕ)
    → AllHave c
    → IsAnswer answer
    → Sound (looked_up c host none answer later)
unfolding looked_up
looked_up-Sound c host (lookup_failed e) later h a = (h, inr (e, refl))
looked_up-Sound c host (found addrs) later h a =
    (put_entry-AllHave c host addrs 0 later h a, first_of-IsResult addrs a)

looked_up_stale-Sound :
    (c : DnsCache) (host : Bytes) (stale : List Bytes) (answer : Resolved) (later : ℕ)
    → AllHave c
    → IsAnswer answer
    → 0 < length stale
    → Sound (looked_up c host (some stale) answer later)
unfolding looked_up
looked_up_stale-Sound c host stale (lookup_failed e) later h a s = (h, inl (stale, refl, s))
looked_up_stale-Sound c host stale (found addrs) later h a s =
    (put_entry-AllHave c host addrs 0 later h a, first_of-IsResult addrs a)

with_entry-Sound :
    (c : DnsCache) (host : Bytes) (o : Option DnsEntry) (answer : Resolved) (now later : ℕ)
    → AllHave c
    → IsAnswer answer
    → get c.entries host ≡ o
    → Sound (with_entry c host o answer now later)
unfolding with_entry
with_entry-Sound c host none answer now later h a e = looked_up-Sound c host answer later h a
with_entry-Sound c host (some x) answer now later h a e =
    let s = get-Every HasAddress c.entries host x h e in
    elim (Bool-cases (is_fresh now x)) [
      | inl t ↦ rw t (
        (s, delete-Every HasAddress c.entries host h),
        pick-IsResult x.addrs (((advance x).idx + (2 ^ 32 - 1)) % 2 ^ 32) s,
      )
      | inr t ↦ rw t (looked_up_stale-Sound c host x.addrs answer later h a s)
    ]

module _ (is_ip : Bytes → Bool) where
  lookup_host-Sound :
      (c : DnsCache) (host : Bytes) (answer : Resolved) (now later : ℕ)
      → AllHave c
      → IsAnswer answer
      → Sound (lookup_host is_ip c host answer now later)
  unfolding lookup_host
  lookup_host-Sound c host answer now later h a = elim (Bool-cases (is_ip host)) [
    | inl t ↦ rw t (h, inl (host ∷ [], refl, omega arith))
    | inr t ↦ elim (Bool-cases (is_before now (get c.negative host))) [
      | inl u ↦ rw (t, u) (h, inr (no_such_host, refl))
      | inr u ↦ rw (t, u) (with_entry-Sound c host (get c.entries host) answer now later h a refl)
    ]
  ]

  -- The caches that calls in any order lead to.
  pub data Reachable : DnsCache → Type 0 where
    made : (ttl negative_ttl : ℕ) → Reachable (new_dns_cache ttl negative_ttl)
    looked :
        (c : DnsCache) (host : Bytes) (answer : Resolved) (now later : ℕ)
        → IsAnswer answer
        → Reachable c
        → Reachable (lookup_host is_ip c host answer now later).cache
    renewed :
        (c : DnsCache) (host : Bytes) (answer : Resolved) (now : ℕ)
        → Reachable c
        → Reachable (background_refresh c host answer now)
    refreshed :
        (c : DnsCache) (host : Bytes) (answer : Resolved) (now : ℕ)
        → IsAnswer answer
        → Reachable c
        → Reachable (refresh c host answer now).1
    invalidated : (c : DnsCache) (host : Bytes) → Reachable c → Reachable (invalidate c host)
    cleared : (c : DnsCache) → Reachable c → Reachable (clear c)
    ticked : (c : DnsCache) (now : ℕ) → Reachable c → Reachable (janitor_tick c now).0

  background_refresh-AllHave :
      (c : DnsCache) (host : Bytes) (answer : Resolved) (now : ℕ)
      → AllHave c
      → AllHave (background_refresh c host answer now)
  unfolding background_refresh
  background_refresh-AllHave c host (lookup_failed e) now h = h
  background_refresh-AllHave c host (found []) now h = h
  background_refresh-AllHave c host (found (a ∷ more)) now h =
      put_entry-AllHave c host (a ∷ more) (kept_idx (get c.entries host)) now h (omega arith)

  refresh-AllHave :
      (c : DnsCache) (host : Bytes) (answer : Resolved) (now : ℕ)
      → IsAnswer answer
      → AllHave c
      → AllHave (refresh c host answer now).1
  unfolding refresh
  refresh-AllHave c host (lookup_failed e) now a h = h
  refresh-AllHave c host (found addrs) now a h = put_entry-AllHave c host addrs 0 now h a

  Reachable-AllHave : (c : DnsCache) → Reachable c → AllHave c
  Reachable-AllHave _ (made ttl negative_ttl) = tt
  Reachable-AllHave _ (looked c host answer now later a r) =
      (lookup_host-Sound c host answer now later (Reachable-AllHave c r) a).0
  Reachable-AllHave _ (renewed c host answer now r) =
      background_refresh-AllHave c host answer now (Reachable-AllHave c r)
  Reachable-AllHave _ (refreshed c host answer now a r) =
      refresh-AllHave c host answer now a (Reachable-AllHave c r)
  Reachable-AllHave _ (invalidated c host r) =
      delete-Every HasAddress c.entries host (Reachable-AllHave c r)
  Reachable-AllHave _ (cleared c r) = tt
  Reachable-AllHave _ (ticked c now r) = sweep_entries-Every c.entries now (Reachable-AllHave c r)

  -- In every state that the calls of the cache lead to in any order, where the resolver gives an
  -- address whenever it gives no error, LookupHost does not panic: it gives an error, or at
  -- least one address.
  pub lookup_host-IsResult :
      (c : DnsCache) (host : Bytes) (answer : Resolved) (now later : ℕ)
      → Reachable c
      → IsAnswer answer
      → IsResult (lookup_host is_ip c host answer now later).result
  lookup_host-IsResult c host answer now later r a =
      (lookup_host-Sound c host answer now later (Reachable-AllHave c r) a).1
