-- ===== src/SessionBroker/Transports/Evictions.antt =====
-- The eviction of a tenant's sessions, after one of its secrets changed.
use botwork.Common.{
  ℕ, ◌+◌, ◌≡◌, refl, ap, ◌∙◌, inl, inr, Bool, false, Option, none, some, List, [], ◌∷◌, arith,
  if◌then◌else◌, Bool-cases, Option-cases, is_some, ◌==◌, nat_eq, list_eq, option_eq, pair_eq,
}
use botwork.Common.Text.{Text}
use botwork.Common.Map
use botwork.Common.Map.{Map, get-insert, get-remove, get-retain}
use botwork.SessionBroker.Transports.{
  AppState, TransportState, tombstone_ttl, evict, evict_all, evict_sessions_for_tenant,
}
use botwork.SessionBroker.Transports.Routing.{evict-routing}

module _ {Json : Type 0} where
  evict_all-get :
      (ts : List (Text × TransportState Json)) (now : ℕ) (s : AppState Json) (id : Text)
      → let hit = is_some (Map.get id ts) in
        (Map.get id (evict_all ts now s).transport_sessions
          ≡ (if hit then none else Map.get id s.transport_sessions))
        × (Map.get id (evict_all ts now s).tombstones
            ≡ (if hit then some (now + tombstone_ttl) else Map.get id s.tombstones))
  evict_all-get [] now s id = (refl, refl)
  evict_all-get ((k, t) ∷ ts) now s id =
      let (gone, held) = evict_all-get ts now (evict s k t now) id in
      let effect = evict-routing s k t now in
      (
        gone
            ∙ rw (ap (λ r. r.1) effect) ground (
              arith,
              get-remove k id s.transport_sessions,
              Bool-cases (k == id),
              Option-cases (Map.get id ts),
            ),
        held
            ∙ rw (ap (λ r. r.0) effect) ground (
              arith,
              get-insert k id (now + tombstone_ttl) s.tombstones,
              Bool-cases (k == id),
              Option-cases (Map.get id ts),
            ),
      )

  abbrev pub belongs_to : Text → Option (TransportState Json) → Bool
  belongs_to tenant none = false
  belongs_to tenant (some t) = t.tenant_name == tenant

  -- The eviction of a tenant takes exactly the sessions of this tenant out of the routing table and
  -- puts a tombstone of 300 seconds on each; the sessions and tombstones of all other ids stay as
  -- they were. The table has one entry for each id.
  pub evict_sessions_for_tenant_lem :
      (s : AppState Json) (tenant id : Text) (now : ℕ)
      → Map.Distinct s.transport_sessions
      → let hit = belongs_to tenant (Map.get id s.transport_sessions) in
        let s' = (evict_sessions_for_tenant s tenant now).1 in
        (Map.get id s'.transport_sessions ≡ (if hit then none else Map.get id s.transport_sessions))
        × (Map.get id s'.tombstones
            ≡ (if hit then some (now + tombstone_ttl) else Map.get id s.tombstones))
  unfolding evict_sessions_for_tenant
  evict_sessions_for_tenant_lem s tenant id now distinct =
      let theirs : Text → TransportState Json → Bool = λ _ t. t.tenant_name == tenant in
      let listed = get-retain theirs id s.transport_sessions distinct in
      let (gone, held) = evict_all-get (Map.retain theirs s.transport_sessions) now s id in
      elim (Option-cases (Map.get id s.transport_sessions)) [
        | inl absent ↦ ground (arith, gone, held, listed, absent)
        | inr (t, found) ↦ ground (arith, gone, held, listed, found)
      ]
