-- ===== src/SessionBroker/Transports/Tombstones.antt =====
-- A session that has ended stays unknown, and the sweeps do not change that.
use botwork.Common.{
  ℕ, ◌+◌, ◌≤◌, ◌<◌, ◌≡◌, ap, ◌⊎◌, inl, inr, true, some, arith, ltb, Bool-cases, Option-cases, ◌==◌,
  nat_eq, list_eq, option_eq, pair_eq,
}
use botwork.Common.Text.{Text, text_iff}
use botwork.Common.Map
use botwork.Common.Map.{Map, get-insert, get-remove, get-retain, get-insert_self}
use botwork.SessionBroker.Transports.{
  AppState, tombstone_ttl, count_up, liveness_remove, is_tombstoned, prune_expired,
}
use botwork.SessionBroker.Transports.Steps.{
  ◌⟶◌, ◌⟶*◌, passes, installs, counts_up, cancels, counts_down, arms, seeds, forgets, buries,
  unlists, emits, asks, inspects, sweeps_tombstones, sweeps_cache, here, after,
}
use botwork.SessionBroker.Transports.Routing.{
  cancel-routing, count_down-routing, arm-routing, seeds-routing, asks-routing,
}

-- Until `due`, the id is tombstoned, at least up to then.
abbrev pub HoldsUntil : Text → ℕ → ℕ → Map Text ℕ → Type 0
HoldsUntil id due now m = (due ≤ now) ⊎ ((held : ℕ) × (Map.get id m ≡ some held) × (due ≤ held))

bury-holds :
    (id k : Text) (due now : ℕ) (m : Map Text ℕ)
    → due ≤ now + tombstone_ttl
    → HoldsUntil id due now m
    → HoldsUntil id due now (Map.insert k (now + tombstone_ttl) m)
bury-holds id k due now m bound (inl past) = inl past
bury-holds id k due now m bound (inr (held, found, long)) = elim (Bool-cases (k == id)) [
  | inl same ↦
      inr
        (now + tombstone_ttl, ground (arith, get-insert k id (now + tombstone_ttl) m, same), bound)
  | inr other ↦
      inr (held, ground (arith, get-insert k id (now + tombstone_ttl) m, other, found), long)
]

pub buried-holds :
    (id : Text) (now : ℕ) (m : Map Text ℕ)
    → HoldsUntil id (now + tombstone_ttl) now (Map.insert id (now + tombstone_ttl) m)
buried-holds id now m =
    inr (now + tombstone_ttl, get-insert_self id (now + tombstone_ttl) m, omega arith)

-- A sweep takes only tombstones that are over.
swept-holds :
    (id : Text) (due now : ℕ) (m : Map Text ℕ)
    → HoldsUntil id due now m
    → HoldsUntil id due now (prune_expired m now).1
unfolding prune_expired
swept-holds id due now m (inl past) = inl past
swept-holds id due now m (inr (held, found, long)) = elim (Bool-cases (ltb now held)) [
  | inl ahead ↦
      inr (held, Map.get-retain-some (λ expires_at. ltb now expires_at) id held m found ahead, long)
  | inr over ↦ inl (ground (arith, over, long))
]

module _ {Json : Type 0} where
  -- What a sweep removes, a request would have removed or passed over: pruning the tombstones before
  -- an id is asked for changes no answer, if the question is not asked before the sweep.
  pub is_tombstoned-prune_expired :
      (s : AppState Json) (id : Text) (swept now : ℕ)
      → Map.Distinct s.tombstones
      → swept ≤ now
      → (is_tombstoned (record s { tombstones = (prune_expired s.tombstones swept).1 }) id now).0
        ≡ (is_tombstoned s id now).0
  unfolding is_tombstoned prune_expired
  is_tombstoned-prune_expired s id swept now distinct later =
      let kept = get-retain (λ _ expires_at. ltb swept expires_at) id s.tombstones distinct in
      elim (Option-cases (Map.get id s.tombstones)) [
        | inl absent ↦ ground (arith, absent, kept)
        | inr (due, found) ↦ ground (arith, found, kept)
      ]

  -- Only a tombstone that is over is removed.
  asks-holds :
      (id k : Text) (due now : ℕ) (s : AppState Json)
      → HoldsUntil id due now s.tombstones
      → HoldsUntil id due now (is_tombstoned s k now).1.tombstones
  unfolding is_tombstoned
  asks-holds id k due now s (inl past) = inl past
  asks-holds id k due now s (inr (held, found, long)) =
      elim (Option-cases (Map.get k s.tombstones)) [
        | inl absent ↦ rw (is_tombstoned, absent) (inr (held, found, long))
        | inr (over, e) ↦ elim (Bool-cases (ltb now over)) [
          | inl ahead ↦ rw (is_tombstoned, e, ahead) (inr (held, found, long))
          | inr past ↦
              rw (is_tombstoned, e, past)
                elim (Bool-cases (k == id)) [
                  | inl same ↦ inl (ground (arith, e, past, found, long, text_iff k id, same))
                  | inr other ↦
                      inr (held, ground (arith, get-remove k id s.tombstones, other, found), long)
                ]
        ]
      ]

  step-holds :
      (id : Text) (due : ℕ) {m n : ℕ × AppState Json}
      → m ⟶ n
      → due ≤ m.0 + tombstone_ttl
      → HoldsUntil id due m.0 m.1.tombstones
      → (due ≤ n.0 + tombstone_ttl) × HoldsUntil id due n.0 n.1.tombstones
  unfolding count_up liveness_remove
  step-holds id due (passes time) bound (inl past) =
      (omega (arith, bound), inl (omega (arith, past)))
  step-holds id due (passes time) bound (inr h) = (omega (arith, bound), inr h)
  step-holds id due (installs k t) bound h = (bound, h)
  step-holds id due (counts_up k) bound h = (bound, h)
  step-holds id due (cancels {now = now} {s = s} k) bound h =
      (bound, rw (ap (λ r. r.0) (cancel-routing s k)) h)
  step-holds id due (counts_down {now = now} {s = s} k) bound h =
      (bound, rw (ap (λ r. r.0) (count_down-routing s k)) h)
  step-holds id due (arms {now = now} {s = s} k) bound h =
      (bound, rw (ap (λ r. r.0) (arm-routing s k now)) h)
  step-holds id due (seeds {now = now} {s = s}) bound h =
      (bound, rw (ap (λ r. r.0) (seeds-routing s now)) h)
  step-holds id due (forgets k) bound h = (bound, h)
  step-holds id due (buries {now = now} {s = s} k) bound h =
      (bound, bury-holds id k due now s.tombstones bound h)
  step-holds id due (unlists k) bound h = (bound, h)
  step-holds id due (emits e) bound h = (bound, h)
  step-holds id due (asks {now = now} {s = s} k) bound h = (bound, asks-holds id k due now s h)
  step-holds id due (inspects {now = now} {s = s} answer name) bound h =
      (bound, rw (ap (λ r. r.0) (asks-routing answer s name now)) h)
  step-holds id due (sweeps_tombstones {now = now} {s = s}) bound h =
      (bound, swept-holds id due now s.tombstones h)
  step-holds id due sweeps_cache bound h = (bound, h)

  pub run-holds :
      (id : Text) (due : ℕ) {m n : ℕ × AppState Json}
      → m ⟶* n
      → due ≤ m.0 + tombstone_ttl
      → HoldsUntil id due m.0 m.1.tombstones
      → HoldsUntil id due n.0 n.1.tombstones
  run-holds id due here bound h = h
  run-holds id due (after step rest) bound h =
      let (bound', h') = step-holds id due step bound h in run-holds id due rest bound' h'

  -- What is held at a later moment answers the request.
  pub holds_answer :
      (id : Text) (due now : ℕ) (s : AppState Json)
      → HoldsUntil id due now s.tombstones
      → now < due
      → (is_tombstoned s id now).0 ≡ true
  unfolding is_tombstoned
  holds_answer id due now s (inl past) early = absurd (omega (arith, past, early))
  holds_answer id due now s (inr (held, found, long)) early = ground (arith, found, long, early)
