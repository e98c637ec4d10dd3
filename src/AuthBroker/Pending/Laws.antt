-- ===== src/AuthBroker/Pending/Laws.antt =====
-- Handshakes are single use and short lived (auth-broker/src/auth/pending.rs).
use botwork.Common.{
  ℕ, ◌+◌, ◌≤◌, ◌≡◌, ◌⊎◌, Bool, none, List, [], ◌∷◌, arith, leb, if◌then◌else◌, eqb_iff, length,
  ◌==◌, nat_eq, list_eq, option_eq, ok, err,
}
use botwork.Common.Map
use botwork.Common.Map.{Map}
use botwork.AuthBroker.Pending.{
  LoginStates, not_found, expired, Pending, PendingEntry, PendingMap, pending_ttl, is_fresh, sweep,
  stored, insert, take, taken, Call, inserts, takes, sweeps, step, run, NoInsert,
}

-- A sweep reports how many entries it dropped, and keeps exactly those not older than the limit.
pub sweep_lem :
    (m : PendingMap) (id now : ℕ)
    → Map.Distinct m
    → ((sweep m now).0 + length (sweep m now).1 ≡ length m)
      × (Map.get id (sweep m now).1 ≡ Map.keep_if (λ _ entry. is_fresh now entry) id (Map.get id m))
unfolding sweep
sweep_lem m id now d =
    let fresh : ℕ → PendingEntry → Bool = λ _ entry. is_fresh now entry in
    let kept = Map.length-retain-le fresh m in (omega (arith, kept), Map.get-retain fresh id m d)

module _ (codec : LoginStates) where
  open codec use {State, to_bytes, from_bytes, from_bytes-to_bytes}

  -- The handshake that was inserted is handed out with its tenant, its state and its lease window
  -- if it is not older than the limit, and is reported as expired if it is. Either way it is gone:
  -- a second `take` of the id finds nothing.
  pub take-insert :
      (m m' : PendingMap) (id now later : ℕ) (p : Pending State)
      → insert codec m id p ≡ (ok tt, m')
      → ((take codec m' id now).0
          ≡ (if leb now (p.created_at + pending_ttl) then ok (taken codec p) else err expired))
        × ((take codec (take codec m' id now).1 id later).0 ≡ err not_found)
  unfolding insert take
  take-insert m m' id now later p h =
      ground (
        arith,
        from_bytes-to_bytes p.state,
        Map.get-remove id id (Map.insert id (stored codec p) m),
      )

  -- Whatever the map holds, a `take` leaves nothing under its id, and every other entry as it was.
  pub get-take :
      (m : PendingMap) (id j now : ℕ)
      → (Map.get id (take codec m id now).1 ≡ none)
        × (Map.get j (take codec m id now).1 ≡ (if id == j then none else Map.get j m))
  unfolding take
  get-take m id j now = ground (arith, Map.get-remove id id m, Map.get-remove id j m, eqb_iff id j)

  step-Distinct : (m : PendingMap) (c : Call codec) → Map.Distinct m → Map.Distinct (step codec m c)
  unfolding step
  step-Distinct m (inserts id p) d = ground (arith, Map.insert-Distinct id (stored codec p) m d)
  step-Distinct m (takes id now) d = ground (arith, Map.remove-Distinct id m d)
  step-Distinct m (sweeps now) d = Map.retain-Distinct (λ _ entry. is_fresh now entry) m d

  get-step-none :
      (id : ℕ) (m : PendingMap) (c : Call codec)
      → NoInsert codec id (c ∷ [])
      → Map.Distinct m
      → Map.get id m ≡ none
      → Map.get id (step codec m c) ≡ none
  unfolding step
  get-step-none id m (inserts j p) n d h =
      ground (arith, Map.get-insert j id (stored codec p) m, n.0)
  get-step-none id m (takes j now) n d h = ground (arith, Map.get-remove j id m)
  get-step-none id m (sweeps now) n d h =
      ground (arith, Map.get-retain (λ _ entry. is_fresh now entry) id m d)

  get-run-none :
      (id : ℕ) (m : PendingMap) (cs : List (Call codec))
      → NoInsert codec id cs
      → Map.Distinct m
      → Map.get id m ≡ none
      → Map.get id (run codec m cs) ≡ none
  unfolding run
  get-run-none id m [] n d h = h
  get-run-none id m (inserts j p ∷ cs) n d h =
      get-run-none id (step codec m (inserts j p)) cs n.1 (step-Distinct m (inserts j p) d)
        (get-step-none id m (inserts j p) (n.0, tt) d h)
  get-run-none id m (takes j now ∷ cs) n d h =
      get-run-none id (step codec m (takes j now)) cs n (step-Distinct m (takes j now) d)
        (get-step-none id m (takes j now) tt d h)
  get-run-none id m (sweeps now ∷ cs) n d h =
      get-run-none id (step codec m (sweeps now)) cs n (step-Distinct m (sweeps now) d)
        (get-step-none id m (sweeps now) tt d h)

  -- A handshake id that was taken once is never handed out again, whatever calls follow, unless
  -- one of them inserts under that id.
  pub take-run-take :
      (m : PendingMap) (id now later : ℕ) (cs : List (Call codec))
      → Map.Distinct m
      → NoInsert codec id cs
      → (take codec (run codec (take codec m id now).1 cs) id later).0 ≡ err not_found
  unfolding take
  take-run-take m id now later cs d n = ground (arith, gone)
    where
      gone : Map.get id (run codec (take codec m id now).1 cs) ≡ none
      gone =
          get-run-none id _ cs n (unfold step in step-Distinct m (takes id now) d)
            (get-take m id id now).0

  -- A sweep is invisible to a later `take`, except that an entry it dropped is reported as unknown
  -- where it would have been reported as expired.
  pub take-sweep :
      (m : PendingMap) (id now later : ℕ)
      → Map.Distinct m
      → now ≤ later
      → ((take codec (sweep m now).1 id later).0 ≡ (take codec m id later).0)
        ⊎ (((take codec m id later).0 ≡ err expired)
            × ((take codec (sweep m now).1 id later).0 ≡ err not_found))
  unfolding take is_fresh
  take-sweep m id now later d h = ground (arith, sweep_lem m id now d)
