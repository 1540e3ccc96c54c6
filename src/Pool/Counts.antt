-- ===== src/Pool/Counts.antt =====
-- The counters of a host's pool and its limit, in every state that it reaches.
use bursthttp.Base.{
  Option-cases, length, length-append, ℕ, suc, refl, sym, ap, inl, inr, Option, List, [], arith,
  ◌+◌, ◌≤◌, ◌≡◌, ◌∙◌, ◌∷◌,
}
use bursthttp.Connection.{HealthConfig, Connection}
use bursthttp.Pool.{
  HostPool, kept, removed, remove_unhealthy_connections, create_connection, claimed, update,
  take_connection,
}

-- Both counters count the connections, and there are no more than the limit.
pub record Counted (hp : HostPool) : Type 0 where
  pub active : hp.active_count ≡ length hp.connections
  pub idle : hp.idle_count ≡ length hp.connections
  pub limited : length hp.connections ≤ hp.max_idle

pub length-kept : (us cs : List Connection) → length (kept us cs) + removed us cs ≡ length cs
unfolding kept removed
length-kept us [] = refl
length-kept us (c ∷ cs) = ground (arith, length-kept us cs)

pub length-update : (c : Connection) (cs : List Connection) → length (update c cs) ≡ length cs
unfolding update
length-update c [] = refl
length-update c (d ∷ ds) = ap suc (length-update c ds)

pub remove_unhealthy_connections-Counted :
    (us : List Connection) (hp : HostPool)
    → Counted hp
    → Counted (remove_unhealthy_connections us hp)
unfolding remove_unhealthy_connections
remove_unhealthy_connections-Counted us hp k = ground (arith, length-kept us hp.connections)

pub create_connection-Counted :
    (connect : Connection → Option Connection) (fresh : Connection) (hp : HostPool)
    → Counted hp
    → Counted (create_connection connect fresh hp).0
unfolding create_connection
create_connection-Counted connect fresh hp k = elim (Option-cases (connect fresh)) [
  | inl e ↦ ground (arith, e)
  | inr (c, e) ↦ ground (arith, e, length-append hp.connections (c ∷ []))
]

pub take_connection-Counted :
    (cfg : HealthConfig) (count at : ℕ) (c : Connection) (hp : HostPool)
    → Counted hp
    → Counted (take_connection cfg count c at hp).0
unfolding take_connection
take_connection-Counted cfg count at c hp k = record {
  active = k.active ∙ sym (length-update (claimed cfg c) hp.connections);
  idle = k.idle ∙ sym (length-update (claimed cfg c) hp.connections);
  limited = omega (arith, k.limited, length-update (claimed cfg c) hp.connections);
}
