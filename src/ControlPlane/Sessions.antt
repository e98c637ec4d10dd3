-- ===== src/ControlPlane/Sessions.antt =====
-- control-plane/src/sessions.rs: `SessionStore`, the table of running sessions with its two version
-- counters. Each method is one step (the source's lock); the waiting for an acknowledgement is a
-- walk over the events that happen meanwhile. Counters are u64.
pub mod Laws
pub mod Waiting
mod Tests
use botwork.Common.{
  ℕ, ◌+◌, ◌-◌, ◌%◌, ◌^◌, Bool, true, false, ◌||◌, Option, none, some, List, [], ◌∷◌, ltb, leb,
  if◌then◌else◌, is_some, ◌==◌, nat_eq, list_eq, Result, ok, err,
}
use botwork.Common.Text.{Text}
use botwork.Common.Map
use botwork.Common.Map.{Map}

-- An `Ipv4Addr` is a number below 2 ^ 32; the egress policy is JSON that the store does not read.
pub record SessionRecord (Json : Type 0) : Type 0 where
  pub session_id : Text
  pub container_ip : ℕ
  pub tenant : Text
  pub workspace : Text
  pub plugin : Text
  pub egress_policy : Json

pub data StoreError : Type 0 where
  already_exists not_found : Text → StoreError

pub data AckWaitError : Type 0 where
  no_subscriber : AckWaitError
  timeout : ℕ → AckWaitError

pub record SessionStore (Json : Type 0) : Type 0 where
  pub inner : Map Text (SessionRecord Json)
  pub generation : ℕ
  pub acked_version : ℕ
  pub xds_subscribers : ℕ

abbrev pub u64_mod : ℕ
u64_mod = 2 ^ 64

module _ {Json : Type 0} where
  abbrev pub new : SessionStore Json
  new = record { inner = []; generation = 0; acked_version = 0; xds_subscribers = 0 }

  -- `wrapping_add(1)`
  unfoldable pub bump : SessionStore Json → SessionStore Json
  bump s = record s { generation = (s.generation + 1) % u64_mod }

  -- The new counter, and whether receivers are woken (`send_if_modified`).
  unfoldable pub record_acked_version : SessionStore Json → ℕ → SessionStore Json × Bool
  record_acked_version s version =
      if ltb s.acked_version version
      then (record s { acked_version = version }, true)
      else (s, false)

  unfoldable pub insert :
      SessionStore Json → SessionRecord Json → Result StoreError Unit × SessionStore Json
  unfolding bump
  insert s r = elim (Map.get r.session_id s.inner) [
    | some _ ↦ (err (already_exists r.session_id), s)
    | none ↦ (ok tt, bump (record s { inner = Map.insert r.session_id r s.inner }))
  ]

  unfoldable pub remove :
      SessionStore Json → Text → Result StoreError (SessionRecord Json) × SessionStore Json
  unfolding bump
  remove s id = elim (Map.get id s.inner) [
    | none ↦ (err (not_found id), s)
    | some r ↦ (ok r, bump (record s { inner = Map.remove id s.inner }))
  ]

  -- The loop of `bulk_seed`: the first duplicate ends it, and what was inserted stays.
  seed_from :
      ℕ
      → Map Text (SessionRecord Json)
      → List (SessionRecord Json)
      → Result StoreError ℕ × Map Text (SessionRecord Json)
  seed_from n inner [] = (ok n, inner)
  seed_from n inner (r ∷ records) =
      let rest = seed_from (n + 1) (Map.insert r.session_id r inner) records in
      if is_some (Map.get r.session_id inner)
      then (err (already_exists r.session_id), inner)
      else rest

  -- The counter moves only when the whole batch went in.
  seeded :
      SessionStore Json
      → Result StoreError ℕ × Map Text (SessionRecord Json)
      → Result StoreError ℕ × SessionStore Json
  unfolding bump
  seeded s (ok n, inner) = (ok n, bump (record s { inner = inner }))
  seeded s (err e, inner) = (err e, record s { inner = inner })

  pub bulk_seed :
      SessionStore Json → List (SessionRecord Json) → Result StoreError ℕ × SessionStore Json
  unfolding seed_from seeded
  bulk_seed s records = seeded s (seed_from 0 s.inner records)

  abbrev pub get : SessionStore Json → Text → Option (SessionRecord Json)
  get s id = Map.get id s.inner

  -- `XdsSubscriberGuard`: `fetch_add` when an ADS stream opens, `fetch_sub` when it ends. Both wrap.
  unfoldable pub subscribe : SessionStore Json → SessionStore Json
  subscribe s = record s { xds_subscribers = (s.xds_subscribers + 1) % u64_mod }

  unfoldable pub unsubscribe : SessionStore Json → SessionStore Json
  unsubscribe s = record s { xds_subscribers = (s.xds_subscribers + u64_mod - 1) % u64_mod }

-- What can happen while a handler waits: the xDS task acknowledges a version, streams open and
-- close, other handlers change the table, the waiting task is polled after the channel changed, or
-- the store is dropped.
pub data Event (Json : Type 0) : Type 0 where
  acks : ℕ → Event Json
  connects disconnects wakes closes : Event Json
  posts : SessionRecord Json → Event Json
  removes : Text → Event Json

module _ {Json : Type 0} where
  -- The loop of `wait_for_ack`, over the events up to the timeout. `unseen` says that the channel
  -- changed since the task read it last: only then does a poll come out of `changed()`.
  unfoldable pub wait_loop :
      ℕ
      → Bool
      → SessionStore Json
      → List (Event Json)
      → Result AckWaitError Unit × SessionStore Json
  unfolding record_acked_version subscribe unsubscribe insert remove
  wait_loop target unseen s [] = (err (timeout target), s)
  wait_loop target unseen s (acks v ∷ es) =
      let (s', woken) = record_acked_version s v in wait_loop target (unseen || woken) s' es
  wait_loop target unseen s (connects ∷ es) = wait_loop target unseen (subscribe s) es
  wait_loop target unseen s (disconnects ∷ es) = wait_loop target unseen (unsubscribe s) es
  wait_loop target unseen s (posts r ∷ es) = wait_loop target unseen (insert s r).1 es
  wait_loop target unseen s (removes id ∷ es) = wait_loop target unseen (remove s id).1 es
  wait_loop target unseen s (closes ∷ es) = (err no_subscriber, s)
  wait_loop target unseen s (wakes ∷ es) =
      let again = wait_loop target false s es in
      let asleep = wait_loop target unseen s es in
      if unseen
      then (if leb target s.acked_version
          then (ok tt, s)
          else if s.xds_subscribers == 0
          then (err no_subscriber, s)
          else again)
      else asleep

  unfoldable pub wait_for_ack :
      ℕ → List (Event Json) → SessionStore Json → Result AckWaitError Unit × SessionStore Json
  wait_for_ack target events s =
      if s.xds_subscribers == 0
      then (err no_subscriber, s)
      else if leb target s.acked_version
      then (ok tt, s)
      else wait_loop target false s events
