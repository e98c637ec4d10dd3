-- ===== src/ControlPlane/Handler/Rollback.antt =====
-- A failed request leaves the table as it was (control-plane/src/handler.rs).
use botwork.Common.{
  ℕ, ◌≡◌, refl, inl, inr, Bool, false, ◌&&◌, ◌||◌, Option, none, some, List, [], ◌∷◌, arith,
  if◌then◌else◌, Option-cases, ◌==◌, nat_eq, list_eq, ok,
}
use botwork.Common.Text.{Text}
use botwork.Common.Map
use botwork.ControlPlane.Sessions.{
  SessionRecord, SessionStore, bump, insert, remove, get, Event, acks, connects, disconnects, wakes,
  closes, posts, removes, wait_loop, wait_for_ack, record_acked_version, subscribe, unsubscribe,
}
use botwork.ControlPlane.Handler.{
  status, validate, post_session, wait_for_xds_ack, post_record, delete_known, delete_session,
  rollback_after_ack_failure, PostBody,
}

-- No other handler changes the table.
abbrev pub Quiet : {Json : Type 0} → List (Event Json) → Type 0
Quiet [] = Unit
Quiet (posts r ∷ es) = ⊥
Quiet (removes id ∷ es) = ⊥
Quiet (_ ∷ es) = Quiet es

module _ {Json : Type 0} where
  inner-wait_loop :
      (target : ℕ) (unseen : Bool) (s : SessionStore Json) (es : List (Event Json))
      → Quiet es
      → (wait_loop target unseen s es).1.inner ≡ s.inner
  unfolding wait_loop
  inner-wait_loop target unseen s [] q = refl
  inner-wait_loop target unseen s (acks v ∷ es) q = ground (
    arith,
    inner-wait_loop target (unseen || (record_acked_version s v).1) (record_acked_version s v).0 es
        q,
  )
  inner-wait_loop target unseen s (connects ∷ es) q =
      unfold subscribe in inner-wait_loop target unseen (subscribe s) es q
  inner-wait_loop target unseen s (disconnects ∷ es) q =
      unfold unsubscribe in inner-wait_loop target unseen (unsubscribe s) es q
  inner-wait_loop target unseen s (closes ∷ es) q = refl
  inner-wait_loop target unseen s (posts r ∷ es) q = elim q [ ]
  inner-wait_loop target unseen s (removes id ∷ es) q = elim q [ ]
  inner-wait_loop target unseen s (wakes ∷ es) q =
      ground (arith, inner-wait_loop target false s es q, inner-wait_loop target unseen s es q)

  inner-wait_for_ack :
      (target : ℕ) (es : List (Event Json)) (s : SessionStore Json)
      → Quiet es
      → (wait_for_ack target es s).1.inner ≡ s.inner
  unfolding wait_for_ack
  inner-wait_for_ack target es s q = ground (arith, inner-wait_loop target false s es q)

  get-post_record :
      (ack_disabled : Bool) (events : List (Event Json)) (r : SessionRecord Json)
      (s : SessionStore Json) (id : Text)
      → Quiet events
      → get (post_record ack_disabled events r s).1 id ≡ (
          if status (post_record ack_disabled events r s).0 == 201 && r.session_id == id
          then some r
          else get s id)
  unfolding post_record wait_for_xds_ack rollback_after_ack_failure insert bump remove
  get-post_record ack_disabled events r s id q =
      let s' = (insert s r).1 in
      ground (
        arith,
        inner-wait_for_ack s'.generation events s' q,
        Map.get-insert r.session_id id r s.inner,
        Map.get-remove-insert r.session_id id r s.inner,
      )

  -- If no other handler changes the table meanwhile, a POST of a valid body adds its record if the
  -- answer is 201, and leaves every lookup as it was if the answer is another, whichever failure
  -- it was.
  pub get-post_session :
      (null : Json) (ack_disabled : Bool) (events : List (Event Json))
      (body : Option (PostBody Json)) (s : SessionStore Json) (r : SessionRecord Json) (id : Text)
      → Quiet events
      → validate null body ≡ ok r
      → let (response, s') = post_session null ack_disabled events body s in
        get s' id ≡ (if status response == 201 && r.session_id == id then some r else get s id)
  unfolding post_session
  get-post_session null ack_disabled events body s r id q e =
      ground (arith, get-post_record ack_disabled events r s id q)

  gone_of_record :
      (ack_disabled : Bool) (events : List (Event Json)) (r : SessionRecord Json)
      (s : SessionStore Json)
      → status (post_record ack_disabled events r s).0 ≡ 503
      → get (post_record ack_disabled events r s).1 r.session_id ≡ none
  unfolding post_record rollback_after_ack_failure remove bump
  gone_of_record ack_disabled events r s h =
      let s' = (insert s r).1 in
      let waited = (wait_for_xds_ack ack_disabled events s'.generation r.session_id s').1 in
      ground (arith, Map.get-remove_self r.session_id waited.inner)

  -- Whatever the other handlers do meanwhile, a POST of a valid body that ends in a 503 leaves no
  -- record under its id.
  pub unacked_is_gone :
      (null : Json) (ack_disabled : Bool) (events : List (Event Json))
      (body : Option (PostBody Json)) (s : SessionStore Json) (r : SessionRecord Json)
      → validate null body ≡ ok r
      → status (post_session null ack_disabled events body s).0 ≡ 503
      → get (post_session null ack_disabled events body s).1 r.session_id ≡ none
  unfolding post_session
  unacked_is_gone null ack_disabled events body s r e h =
      ground (arith, gone_of_record ack_disabled events r s)

  -- Every record stands under its own id.
  abbrev pub IsKeyed : SessionStore Json → Type 0
  IsKeyed s = (id : Text) (r : SessionRecord Json) → get s id ≡ some r → r.session_id ≡ id

  get-delete_known :
      (ack_disabled : Bool) (events : List (Event Json)) (id j : Text) (s : SessionStore Json)
      → Quiet events
      → IsKeyed s
      → get (delete_known ack_disabled events id s).1 j ≡ (
          if status (delete_known ack_disabled events id s).0 == 200 && id == j
          then none
          else get s j)
  unfolding delete_known wait_for_xds_ack insert bump remove
  get-delete_known ack_disabled events id j s q k = elim (Option-cases (get s id)) [
    | inl e ↦ ground arith
    | inr (r, e) ↦
        let s' = (remove s id).1 in
        ground (
          arith,
          inner-wait_for_ack s'.generation events s' q,
          Map.get-remove id j s.inner,
          Map.get-insert-remove id r.session_id j r s.inner (k id r e) e,
        )
  ]

  -- If no other handler changes the table meanwhile and every record stands under its own id, a
  -- DELETE takes the record under its id away if the answer is 200, and leaves every lookup as it
  -- was if the answer is another: a removal that envoy did not acknowledge is undone.
  pub get-delete_session :
      (ack_disabled : Bool) (events : List (Event Json)) (id j : Text) (s : SessionStore Json)
      → Quiet events
      → IsKeyed s
      → let (response, s') = delete_session ack_disabled events id s in
        get s' j ≡ (if status response == 200 && id == j then none else get s j)
  unfolding delete_session
  get-delete_session ack_disabled events id j s q k =
      ground (arith, get-delete_known ack_disabled events id j s q k)
