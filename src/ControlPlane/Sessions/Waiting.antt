-- ===== src/ControlPlane/Sessions/Waiting.antt =====
-- What a wait for envoy's acknowledgement guarantees (control-plane/src/sessions.rs).
use botwork.Common.{
  ℕ, ◌≤◌, ◌<◌, max, ◌≡◌, ◌≢◌, inl, inr, Bool, true, false, ◌||◌, List, [], ◌∷◌, arith, leb,
  Bool-cases, nat_eq, list_eq, ok,
}
use botwork.Common.Text.{Text}
use botwork.ControlPlane.Sessions.{
  SessionRecord, SessionStore, record_acked_version, subscribe, unsubscribe, insert, remove, Event,
  acks, connects, disconnects, wakes, closes, posts, removes, wait_loop, wait_for_ack,
}

module _ {Json : Type 0} where
  acked-record :
      (s : SessionStore Json) (v : ℕ)
      → (record_acked_version s v).0.acked_version ≡ max s.acked_version v
  unfolding record_acked_version
  acked-record s v = ground arith

  acked-insert :
      (s : SessionStore Json) (r : SessionRecord Json)
      → (insert s r).1.acked_version ≡ s.acked_version
  unfolding insert
  acked-insert s r = ground arith

  acked-remove :
      (s : SessionStore Json) (id : Text) → (remove s id).1.acked_version ≡ s.acked_version
  unfolding remove
  acked-remove s id = ground arith

  wait_loop_sound :
      (target : ℕ) (unseen : Bool) (s : SessionStore Json) (es : List (Event Json))
      → (wait_loop target unseen s es).0 ≡ ok tt
      → target ≤ (wait_loop target unseen s es).1.acked_version
  unfolding wait_loop
  wait_loop_sound target unseen s [] h = cc
  wait_loop_sound target unseen s (acks v ∷ es) h = wait_loop_sound target _ _ es h
  wait_loop_sound target unseen s (connects ∷ es) h = wait_loop_sound target _ _ es h
  wait_loop_sound target unseen s (disconnects ∷ es) h = wait_loop_sound target _ _ es h
  wait_loop_sound target unseen s (posts r ∷ es) h = wait_loop_sound target _ _ es h
  wait_loop_sound target unseen s (removes id ∷ es) h = wait_loop_sound target _ _ es h
  wait_loop_sound target unseen s (closes ∷ es) h = cc
  wait_loop_sound target unseen s (wakes ∷ es) h =
      ground (arith, wait_loop_sound target false s es, wait_loop_sound target unseen s es)

  -- A wait that succeeds ends in a state whose acknowledged version has reached the target,
  -- whatever happened meanwhile.
  pub wait_for_ack_sound :
      (target : ℕ) (events : List (Event Json)) (s : SessionStore Json)
      → (wait_for_ack target events s).0 ≡ ok tt
      → target ≤ (wait_for_ack target events s).1.acked_version
  unfolding wait_for_ack
  wait_for_ack_sound target events s h = ground (arith, wait_loop_sound target false s events)

  wait_loop_mono :
      (target : ℕ) (unseen : Bool) (s : SessionStore Json) (es : List (Event Json))
      → s.acked_version ≤ (wait_loop target unseen s es).1.acked_version
  unfolding wait_loop
  wait_loop_mono target unseen s [] = omega arith
  wait_loop_mono target unseen s (acks v ∷ es) = omega (
    arith,
    acked-record s v,
    wait_loop_mono target (unseen || (record_acked_version s v).1) (record_acked_version s v).0 es,
  )
  wait_loop_mono target unseen s (connects ∷ es) =
      unfold subscribe in wait_loop_mono target unseen (subscribe s) es
  wait_loop_mono target unseen s (disconnects ∷ es) =
      unfold unsubscribe in wait_loop_mono target unseen (unsubscribe s) es
  wait_loop_mono target unseen s (posts r ∷ es) =
      omega (arith, acked-insert s r, wait_loop_mono target unseen (insert s r).1 es)
  wait_loop_mono target unseen s (removes id ∷ es) =
      omega (arith, acked-remove s id, wait_loop_mono target unseen (remove s id).1 es)
  wait_loop_mono target unseen s (closes ∷ es) = omega arith
  wait_loop_mono target unseen s (wakes ∷ es) =
      ground (arith, wait_loop_mono target false s es, wait_loop_mono target unseen s es)

  -- An acknowledgement of the target or of a later version arrives, and the waiting task is polled
  -- after it, before any stream opens or closes. `seen` says that it has arrived already.
  abbrev pub served : ℕ → Bool → List (Event Json) → Bool
  served target seen [] = false
  served target seen (acks v ∷ es) = served target (seen || leb target v) es
  served target seen (wakes ∷ es) = seen || served target seen es
  served target seen (posts r ∷ es) = served target seen es
  served target seen (removes id ∷ es) = served target seen es
  served target seen (_ ∷ es) = false

  -- What the loop knows: once the version has arrived, the channel has changed unseen.
  record Knows (target : ℕ) (seen unseen : Bool) (s : SessionStore Json) : Type 0 where
    attached : s.xds_subscribers ≢ 0
    arrived : seen ≡ true → (unseen ≡ true) × (target ≤ s.acked_version)
    awaited : seen ≡ false → s.acked_version < target

  Knows-acks :
      (target v : ℕ) (seen unseen : Bool) (s : SessionStore Json)
      → Knows target seen unseen s
      → Knows target
          (seen || leb target v)
          (unseen || (record_acked_version s v).1)
          (record_acked_version s v).0
  unfolding record_acked_version
  Knows-acks target v seen unseen s k = ground (arith, k.arrived, k.awaited)

  Knows-insert :
      (target : ℕ) (seen unseen : Bool) (s : SessionStore Json) (r : SessionRecord Json)
      → Knows target seen unseen s
      → Knows target seen unseen (insert s r).1
  unfolding insert
  Knows-insert target seen unseen s r k = ground (arith, k.arrived, k.awaited)

  Knows-remove :
      (target : ℕ) (seen unseen : Bool) (s : SessionStore Json) (id : Text)
      → Knows target seen unseen s
      → Knows target seen unseen (remove s id).1
  unfolding remove
  Knows-remove target seen unseen s id k = ground (arith, k.arrived, k.awaited)

  wait_loop_live :
      (target : ℕ) (seen unseen : Bool) (s : SessionStore Json) (es : List (Event Json))
      → Knows target seen unseen s
      → served target seen es ≡ true
      → (wait_loop target unseen s es).0 ≡ ok tt
  unfolding wait_loop
  wait_loop_live target seen unseen s [] k h = cc
  wait_loop_live target seen unseen s (acks v ∷ es) k h =
      wait_loop_live target (seen || leb target v) (unseen || (record_acked_version s v).1)
        (record_acked_version s v).0 es (Knows-acks target v seen unseen s k) h
  wait_loop_live target seen unseen s (connects ∷ es) k h = cc
  wait_loop_live target seen unseen s (disconnects ∷ es) k h = cc
  wait_loop_live target seen unseen s (closes ∷ es) k h = cc
  wait_loop_live target seen unseen s (posts r ∷ es) k h =
      wait_loop_live target seen unseen (insert s r).1 es (Knows-insert target seen unseen s r k) h
  wait_loop_live target seen unseen s (removes id ∷ es) k h =
      wait_loop_live target seen unseen (remove s id).1 es (Knows-remove target seen unseen s id k)
        h
  wait_loop_live target seen unseen s (wakes ∷ es) k h = ground (
    arith,
    k.arrived,
    k.awaited,
    wait_loop_live target seen false s es,
    wait_loop_live target seen unseen s es k,
  )

  Knows-start :
      (target : ℕ) (s : SessionStore Json)
      → s.xds_subscribers ≢ 0
      → leb target s.acked_version ≡ false
      → Knows target false false s
  Knows-start target s attached h = record {
    attached = attached;
    arrived = λ e. cc;
    awaited = λ _. ground arith;
  }

  -- With a stream attached, a wait ends well if an acknowledgement of the target or of a later
  -- version arrives and the task is polled after it, before any stream opens or closes and before
  -- the time is up.
  pub wait_for_ack_live :
      (target : ℕ) (events : List (Event Json)) (s : SessionStore Json)
      → s.xds_subscribers ≢ 0
      → served target false events ≡ true
      → (wait_for_ack target events s).0 ≡ ok tt
  unfolding wait_for_ack
  wait_for_ack_live target events s attached h = elim (Bool-cases (leb target s.acked_version)) [
    | inl reached ↦ ground arith
    | inr awaited ↦
        let live =
          wait_loop_live target false false s events (Knows-start target s attached awaited) h in
        ground (arith, live)
  ]
