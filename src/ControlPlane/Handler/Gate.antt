-- ===== src/ControlPlane/Handler/Gate.antt =====
-- A success means that envoy has the policy (control-plane/src/handler.rs).
use botwork.Common.{◌+◌, ◌%◌, ◌≤◌, ◌≡◌, false, Option, List, arith, nat_eq, list_eq, ok}
use botwork.Common.Text.{Text}
use botwork.ControlPlane.Sessions.{
  SessionRecord, SessionStore, u64_mod, bump, insert, remove, Event,
}
use botwork.ControlPlane.Sessions.Waiting.{wait_for_ack_sound}
use botwork.ControlPlane.Handler.{
  stored, removed, validate, post_session, delete_session, wait_for_xds_ack, post_record,
  delete_known, PostBody,
}

module _ {Json : Type 0} where
  record_is_acked :
      (events : List (Event Json)) (r : SessionRecord Json) (s : SessionStore Json) (id : Text)
      → (post_record false events r s).0 ≡ stored id
      → ((s.generation + 1) % u64_mod ≤ (post_record false events r s).1.acked_version)
        × (id ≡ r.session_id)
  unfolding post_record wait_for_xds_ack insert bump
  record_is_acked events r s id h =
      let s' = (insert s r).1 in ground (arith, wait_for_ack_sound s'.generation events s')

  -- A 201 with the gate on means that envoy has acknowledged the generation that the insert of this
  -- record made, or a later one, and the id in the answer is that of the record in the body.
  pub stored_is_acked :
      (null : Json) (events : List (Event Json)) (body : Option (PostBody Json))
      (s : SessionStore Json) (r : SessionRecord Json) (id : Text)
      → validate null body ≡ ok r
      → (post_session null false events body s).0 ≡ stored id
      → ((s.generation + 1) % u64_mod ≤ (post_session null false events body s).1.acked_version)
        × (id ≡ r.session_id)
  unfolding post_session
  stored_is_acked null events body s r id e h = ground (arith, record_is_acked events r s id)

  known_is_acked :
      (events : List (Event Json)) (id : Text) (s : SessionStore Json)
      → (delete_known false events id s).0 ≡ removed id
      → (s.generation + 1) % u64_mod ≤ (delete_known false events id s).1.acked_version
  unfolding delete_known wait_for_xds_ack remove bump
  known_is_acked events id s h =
      let s' = (remove s id).1 in ground (arith, wait_for_ack_sound s'.generation events s')

  -- A 200 for a DELETE with the gate on means that envoy has acknowledged the generation that the
  -- removal made, or a later one.
  pub removed_is_acked :
      (events : List (Event Json)) (id : Text) (s : SessionStore Json)
      → (delete_session false events id s).0 ≡ removed id
      → (s.generation + 1) % u64_mod ≤ (delete_session false events id s).1.acked_version
  unfolding delete_session
  removed_is_acked events id s h = ground (arith, known_is_acked events id s)
