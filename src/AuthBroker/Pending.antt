-- ===== src/AuthBroker/Pending.antt =====
-- auth-broker/src/auth/pending.rs: the map of login handshakes in flight. An `Instant` is a number
-- of nanoseconds, a `Uuid` a number, and the mutex makes each method one step on the map.
pub mod Laws
mod Tests
use botwork.Common.{
  ℕ, ◌-◌, ◌*◌, ◌^◌, ◌≡◌, ◌≢◌, Bool, Option, none, some, List, [], ◌∷◌, ltb, leb, if◌then◌else◌,
  length, nat_eq, list_eq, Result, ok, err,
}
use botwork.Common.Map
use botwork.Common.Map.{Map}

-- `ServerLoginState` wraps the state of the OPAQUE library; the map needs its byte form, and that
-- the bytes of a state read back as that state.
pub record LoginStates : Type 1 where
  pub State : Type 0
  pub to_bytes : State → List ℕ
  pub from_bytes : List ℕ → Option State
  pub from_bytes-to_bytes : (s : State) → from_bytes (to_bytes s) ≡ some s

-- 60 seconds.
abbrev pub pending_ttl : ℕ
pending_ttl = 60 * 10 ^ 9

pub data PendingError : Type 0 where
  not_found expired collision : PendingError

pub record Pending (State : Type 0) : Type 0 where
  pub tenant_id : Option ℕ
  pub state : State
  pub lease_seconds_requested : ℕ
  pub created_at : ℕ

pub record PendingTaken (State : Type 0) : Type 0 where
  pub tenant_id : Option ℕ
  pub state : State
  pub lease_seconds_requested : ℕ

pub record PendingEntry : Type 0 where
  pub tenant_id : Option ℕ
  pub state_bytes : List ℕ
  pub lease_seconds_requested : ℕ
  pub created_at : ℕ

abbrev pub PendingMap : Type 0
PendingMap = Map ℕ PendingEntry

pub is_fresh : ℕ → PendingEntry → Bool
is_fresh now entry = leb (now - entry.created_at) pending_ttl

-- `retain` keeps the entries that are not older than the limit, and the count is of those dropped.
pub sweep : PendingMap → ℕ → ℕ × PendingMap
unfolding is_fresh
sweep m now =
    let kept = Map.retain (λ _ entry. is_fresh now entry) m in (length m - length kept, kept)

module _ (codec : LoginStates) where
  open codec use {State, to_bytes, from_bytes}

  pub stored : Pending State → PendingEntry
  stored p = record {
    tenant_id = p.tenant_id;
    state_bytes = to_bytes p.state;
    lease_seconds_requested = p.lease_seconds_requested;
    created_at = p.created_at;
  }

  pub insert : PendingMap → ℕ → Pending State → Result PendingError Unit × PendingMap
  unfolding stored
  insert m handshake_id p = elim (Map.get handshake_id m) [
    | some _ ↦ (err collision, m)
    | none ↦ (ok tt, Map.insert handshake_id (stored p) m)
  ]

  -- What `take` answers for the entry that it has removed.
  pub answer : ℕ → PendingEntry → Result PendingError (PendingTaken State)
  answer now entry =
      if ltb pending_ttl (now - entry.created_at)
      then err expired
      else elim (from_bytes entry.state_bytes) [
        | none ↦ err not_found
        | some state ↦ ok (record {
          tenant_id = entry.tenant_id;
          state = state;
          lease_seconds_requested = entry.lease_seconds_requested;
        })
      ]

  -- The entry is removed first, also when it turns out to be too old.
  pub take : PendingMap → ℕ → ℕ → Result PendingError (PendingTaken State) × PendingMap
  unfolding answer
  take m handshake_id now = elim (Map.get handshake_id m) [
    | none ↦ (err not_found, m)
    | some entry ↦ (answer now entry, Map.remove handshake_id m)
  ]

  -- What a client gets back of what it stored.
  abbrev pub taken : Pending State → PendingTaken State
  taken p = record {
    tenant_id = p.tenant_id;
    state = p.state;
    lease_seconds_requested = p.lease_seconds_requested;
  }

  -- The calls that the handlers and the prune task make on the map, in any order.
  pub data Call : Type 0 where
    inserts : ℕ → Pending State → Call
    takes : ℕ → ℕ → Call
    sweeps : ℕ → Call

  pub step : PendingMap → Call → PendingMap
  unfolding insert take sweep
  step m (inserts id p) = (insert m id p).1
  step m (takes id now) = (take m id now).1
  step m (sweeps now) = (sweep m now).1

  pub run : PendingMap → List Call → PendingMap
  run m [] = m
  run m (c ∷ cs) = run (step m c) cs

  -- No call of the list inserts under the id.
  abbrev pub NoInsert : ℕ → List Call → Type 0
  NoInsert id [] = Unit
  NoInsert id (inserts j p ∷ cs) = (j ≢ id) × NoInsert id cs
  NoInsert id (takes j now ∷ cs) = NoInsert id cs
  NoInsert id (sweeps now ∷ cs) = NoInsert id cs
