-- ===== src/Pool/Shared/Counters.antt =====
-- The two counters of a host's pool, between the steps of pool.go and at rest.
use bursthttp.Base.{
  length, length-append, ℕ, refl, sym, ap, some, List, [], arith, ◌+◌, ◌%◌, ◌^◌, ◌≤◌, ◌<◌, ◌≡◌, ◌∙◌,
  ◌∷◌, ◌++◌,
}
use bursthttp.Pool.{HostPool, kept, removed}
use bursthttp.Pool.Counts.{Counted, length-kept, length-update}
use bursthttp.Pool.Shared.{
  Shared, Steps, Reachable, reserve, reserves, give_back, publish, count_idle, unlist,
  uncount_active, uncount_idle, fails_to_dial, publishes, counts, unlists, uncounts_active,
  uncounts_idle, changes, empty, step,
}

abbrev pub sum : List ℕ → ℕ
sum [] = 0
sum (n ∷ ns) = n + sum ns

sum-split : (before after : List ℕ) (n : ℕ) → sum (before ++ n ∷ after) ≡ n + sum (before ++ after)
sum-split [] after n = refl
sum-split (m ∷ before) after n = omega (arith, sum-split before after n)

pub record Bounded (max_idle : ℕ) (s : Shared) : Type 0 where
  pub active : s.pool.active_count ≡ length s.pool.connections + s.dialling + sum s.unlisted
  pub idle :
      (s.pool.idle_count + s.published) % 2 ^ 32
      ≡ (length s.pool.connections + sum s.unlisted + sum s.uncounted) % 2 ^ 32
  pub idle_small : s.pool.idle_count < 2 ^ 32
  pub limited : s.pool.active_count ≤ s.pool.max_idle
  pub same_limit : s.pool.max_idle ≡ max_idle

reserve_takes :
    (hp hp' : HostPool)
    → reserve hp ≡ some hp'
    → (hp.active_count < hp.max_idle) × (record hp { active_count = hp.active_count + 1 } ≡ hp')
unfolding reserve
reserve_takes hp hp' h = ground arith

Steps-Bounded : (m : ℕ) {s s' : Shared} → Steps s s' → Bounded m s → Bounded m s'
Steps-Bounded m (reserves s hp e) b =
    let (free, same) = reserve_takes s.pool hp e in
    rw (← same) (record {
      active = omega (arith, b.active);
      idle = b.idle;
      idle_small = b.idle_small;
      limited = omega (arith, free);
      same_limit = b.same_limit;
    })
Steps-Bounded m (fails_to_dial s n e) b =
    unfold give_back in
    record {
      active = omega (arith, b.active, e);
      idle = b.idle;
      idle_small = b.idle_small;
      limited = omega (arith, b.limited);
      same_limit = b.same_limit;
    }
Steps-Bounded m (publishes s n c e) b =
    unfold publish in
    let l = length-append s.pool.connections (c ∷ []) in
    record {
      active = omega (arith, b.active, e, l);
      idle = omega (arith, b.idle, b.idle_small, l);
      idle_small = b.idle_small;
      limited = b.limited;
      same_limit = b.same_limit;
    }
Steps-Bounded m (counts s n e) b =
    unfold count_idle in
    record {
      active = b.active;
      idle = omega (arith, b.idle, b.idle_small, e);
      idle_small = omega arith;
      limited = b.limited;
      same_limit = b.same_limit;
    }
Steps-Bounded m (unlists s us p) b =
    unfold unlist in
    let l = length-kept us s.pool.connections in
    let same : length (kept us s.pool.connections)
          + (removed us s.pool.connections + sum s.unlisted)
          + sum s.uncounted
        ≡ length s.pool.connections + sum s.unlisted + sum s.uncounted =
      omega (arith, l) in
    record {
      active = omega (arith, b.active, l);
      idle = b.idle ∙ ap (λ n. n % 2 ^ 32) (sym same);
      idle_small = b.idle_small;
      limited = b.limited;
      same_limit = b.same_limit;
    }
Steps-Bounded m (uncounts_active s before after n e) b =
    unfold uncount_active in
    let l = ap sum e ∙ sum-split before after n in
    let same : length s.pool.connections + sum (before ++ after) + (n + sum s.uncounted)
        ≡ length s.pool.connections + sum s.unlisted + sum s.uncounted =
      omega (arith, l) in
    record {
      active = omega (arith, b.active, l);
      idle = b.idle ∙ ap (λ k. k % 2 ^ 32) (sym same);
      idle_small = b.idle_small;
      limited = omega (arith, b.limited);
      same_limit = b.same_limit;
    }
Steps-Bounded m (uncounts_idle s before after n e) b =
    unfold uncount_idle in
    let l = ap sum e ∙ sum-split before after n in
    record {
      active = b.active;
      idle = omega (arith, b.idle, b.idle_small, l);
      idle_small = omega arith;
      limited = b.limited;
      same_limit = b.same_limit;
    }
Steps-Bounded m (changes s index c) b =
    let l = length-update c s.pool.connections in
    record {
      active = omega (arith, b.active, l);
      idle = b.idle ∙ ap (λ k. (k + sum s.unlisted + sum s.uncounted) % 2 ^ 32) (sym l);
      idle_small = b.idle_small;
      limited = b.limited;
      same_limit = b.same_limit;
    }

-- However the atomic steps of creating, dropping and claiming connections of one host
-- interleave, from an empty pool on: the active count is the number of connections listed, of
-- calls that hold a place and have none yet, and of those taken off the list but not off this
-- count, and is never above maxIdle; the idle count and the connections listed but not yet
-- counted in it are, modulo 2 ^ 32, as many as those listed and those taken off the list but not
-- off this count.
pub Reachable-Bounded : (max_idle : ℕ) (s : Shared) → Reachable max_idle s → Bounded max_idle s
Reachable-Bounded m s empty = record {
  active = refl;
  idle = refl;
  idle_small = omega arith;
  limited = omega arith;
  same_limit = refl;
}
Reachable-Bounded m s (step r t) = Steps-Bounded m t (Reachable-Bounded m _ r)

-- With a limit below 2 ^ 31, whenever the goroutines of one host, interleaved in any way from an
-- empty pool on, have all come to the end of their calls of createConnection and
-- removeUnhealthyConnections, both counters are the number of connections listed, and that is at
-- most maxIdle.
pub Reachable-Counted :
    (max_idle : ℕ) (s : Shared)
    → max_idle < 2 ^ 31
    → Reachable max_idle s
    → s.dialling ≡ 0
    → s.published ≡ 0
    → s.unlisted ≡ []
    → s.uncounted ≡ []
    → Counted s.pool
Reachable-Counted m s small r d p u c =
    let b = Reachable-Bounded m s r in
    let eu = ap sum u in
    let ec = ap sum c in
    record {
      active = omega (arith, b.active, d, eu);
      idle =
          omega
            (arith, b.idle, b.idle_small, b.active, b.limited, b.same_limit, small, d, p, eu, ec);
      limited = omega (arith, b.active, b.limited, d, eu);
    }
