-- ===== src/Dns/Negative.antt =====
-- The hosts that failed, in the cache of dns.go.
use bursthttp.Base.{
  ltb, lt→ltb, Bool-cases, Bytes, eq_bytes, ℕ, refl, sym, ap, inl, inr, Bool, false, Option, none,
  some, List, [], arith, ◌+◌, ◌≤◌, ◌<◌, ◌≡◌, ◌∙◌, ◌≢◌, ◌∷◌,
}
use bursthttp.Base.Dict.{Dict, get, get-put_other, get-delete_other, get_hit, get_miss}
use bursthttp.Input.{failed}
use bursthttp.Dns.{
  DnsCache, DnsEntry, Resolved, found, lookup_failed, Looked, plain_result, no_such_host, is_before,
  is_fresh, looked_up, with_entry, lookup_host, refresh, invalidate, clear, sweep_negative,
  janitor_tick,
}

module _ (is_ip : Bytes → Bool) (host : Bytes) (exp : ℕ) where
  -- What may happen to the cache until `exp`, but for a refresh of the host in the background.
  pub data Meanwhile : DnsCache → DnsCache → Type 0 where
    start : (c : DnsCache) → Meanwhile c c
    refreshed :
        (c d : DnsCache) (h : Bytes) (answer : Resolved) (now : ℕ)
        → Meanwhile c d
        → Meanwhile c (refresh d h answer now).1
    invalidated : (c d : DnsCache) (h : Bytes) → Meanwhile c d → Meanwhile c (invalidate d h)
    cleared : (c d : DnsCache) → Meanwhile c d → Meanwhile c (clear d)
    ticked :
        (c d : DnsCache) (now : ℕ) → now ≤ exp → Meanwhile c d → Meanwhile c (janitor_tick d now).0
    looked :
        (c d : DnsCache) (answer : Resolved) (now later : ℕ)
        → now < exp
        → Meanwhile c d
        → Meanwhile c (lookup_host is_ip d host answer now later).cache
    looked_other :
        (c d : DnsCache) (h : Bytes) (answer : Resolved) (now later : ℕ)
        → h ≢ host
        → Meanwhile c d
        → Meanwhile c (lookup_host is_ip d h answer now later).cache

  abbrev Marked : DnsCache → Type 0
  Marked c = get c.negative host ≡ some exp

  refresh-negative :
      (c : DnsCache) (h : Bytes) (answer : Resolved) (now : ℕ)
      → (refresh c h answer now).1.negative ≡ c.negative
  unfolding refresh
  refresh-negative c h (lookup_failed e) now = refl
  refresh-negative c h (found addrs) now = refl

  not_expired : (x now : ℕ) → x ≡ exp → now ≤ exp → ltb x now ≡ false
  not_expired x now e h = ground arith

  sweep_negative-get :
      (m : Dict ℕ) (now : ℕ)
      → now ≤ exp
      → get m host ≡ some exp
      → get (sweep_negative m now) host ≡ some exp
  unfolding sweep_negative get
  sweep_negative-get [] now h e = e
  sweep_negative-get ((k, x) ∷ m) now h e = elim (Bool-cases (eq_bytes k host)) [
    | inl t ↦
        let e' : some x ≡ some exp = sym (get_hit k x m host t) ∙ e in
        let same : x ≡ exp = cc in
        rw (not_expired x now same h) (get_hit k x (sweep_negative m now) host t ∙ e')
    | inr t ↦
        let e' : get (sweep_negative m now) host ≡ some exp =
          sweep_negative-get m now h (sym (get_miss k x m host t) ∙ e) in
        elim (Bool-cases (ltb x now)) [
          | inl u ↦ rw u e'
          | inr u ↦ rw u (get_miss k x (sweep_negative m now) host t ∙ e')
        ]
  ]

  -- A marked host is refused, and nothing changes.
  pub lookup_host_marked :
      (c : DnsCache) (answer : Resolved) (now later : ℕ)
      → is_ip host ≡ false
      → get c.negative host ≡ some exp
      → now < exp
      → lookup_host is_ip c host answer now later ≡ plain_result (failed no_such_host) c
  unfolding lookup_host
  lookup_host_marked c answer now later i m h = rw (i, m, lt→ltb now exp h) refl

  looked_up-other :
      (c : DnsCache) (h : Bytes) (stale : Option (List Bytes)) (answer : Resolved) (later : ℕ)
      → h ≢ host
      → get (looked_up c h stale answer later).cache.negative host ≡ get c.negative host
  unfolding looked_up
  looked_up-other c h (some s) (lookup_failed e) later n = refl
  looked_up-other c h none (lookup_failed e) later n =
      get-put_other c.negative h host (later + c.negative_ttl) n
  looked_up-other c h (some s) (found addrs) later n = get-delete_other c.negative h host n
  looked_up-other c h none (found addrs) later n = get-delete_other c.negative h host n

  with_entry-other :
      (c : DnsCache) (h : Bytes) (o : Option DnsEntry) (answer : Resolved) (now later : ℕ)
      → h ≢ host
      → get (with_entry c h o answer now later).cache.negative host ≡ get c.negative host
  unfolding with_entry
  with_entry-other c h none answer now later n = looked_up-other c h none answer later n
  with_entry-other c h (some e) answer now later n = elim (Bool-cases (is_fresh now e)) [
    | inl t ↦ rw t refl
    | inr t ↦ rw t (looked_up-other c h (some e.addrs) answer later n)
  ]

  lookup_host-other :
      (c : DnsCache) (h : Bytes) (answer : Resolved) (now later : ℕ)
      → h ≢ host
      → get (lookup_host is_ip c h answer now later).cache.negative host ≡ get c.negative host
  unfolding lookup_host
  lookup_host-other c h answer now later n = elim (Bool-cases (is_ip h)) [
    | inl t ↦ rw t refl
    | inr t ↦ elim (Bool-cases (is_before now (get c.negative h))) [
      | inl u ↦ rw (t, u) refl
      | inr u ↦ rw (t, u) (with_entry-other c h (get c.entries h) answer now later n)
    ]
  ]

  Meanwhile-Marked : (c d : DnsCache) → is_ip host ≡ false → Marked c → Meanwhile c d → Marked d
  Meanwhile-Marked c _ i m (start _) = m
  Meanwhile-Marked c _ i m (refreshed _ d h answer now s) =
      ap (λ n. get n host) (refresh-negative d h answer now) ∙ Meanwhile-Marked c d i m s
  Meanwhile-Marked c _ i m (invalidated _ d h s) = Meanwhile-Marked c d i m s
  Meanwhile-Marked c _ i m (cleared _ d s) = Meanwhile-Marked c d i m s
  Meanwhile-Marked c _ i m (ticked _ d now l s) =
      sweep_negative-get d.negative now l (Meanwhile-Marked c d i m s)
  Meanwhile-Marked c _ i m (looked _ d answer now later l s) =
      let m' = Meanwhile-Marked c d i m s in
      ap (λ (x : Looked). get x.cache.negative host) (lookup_host_marked d answer now later i m' l)
      ∙ m'
  Meanwhile-Marked c _ i m (looked_other _ d h answer now later n s) =
      lookup_host-other d h answer now later n ∙ Meanwhile-Marked c d i m s

  -- A host that has failed is refused by every lookup until its mark expires, whatever
  -- refreshes, invalidations, clearings, ticks of the janitor and lookups come in between,
  -- successful refreshes of the host itself included; only a refresh in the background would end
  -- it.
  pub Meanwhile-refused :
      (c d : DnsCache) (answer : Resolved) (now later : ℕ)
      → is_ip host ≡ false
      → get c.negative host ≡ some exp
      → Meanwhile c d
      → now < exp
      → (lookup_host is_ip d host answer now later).result ≡ failed no_such_host
  Meanwhile-refused c d answer now later i m s l =
      ap (λ (x : Looked). x.result)
        (lookup_host_marked d answer now later i (Meanwhile-Marked c d i m s) l)
