-- ===== src/ControlPlane/Handler.antt =====
-- control-plane/src/handler.rs: the handlers of `POST /sessions`, `DELETE /sessions/<id>` and
-- `GET /sessions/<id>`. A response keeps its status, its machine code and the field or id that its
-- message names. Between the change of the table and the read of its generation no other handler
-- runs; what happens during the wait is the list of events.
mod Requests
pub mod Gate
pub mod Rollback
mod Tests
unfoldable pub use Requests.{valid_session_id, valid_name, validate}
pub use Requests.{
  Field, session_id_field, container_ip_field, tenant_field, workspace_field, plugin_field, Invalid,
  no_body, missing, malformed, PostBody, egress-validate, IsWellShaped,
}
use botwork.Common.{
  ℕ, zero, suc, ◌+◌, ◌-◌, ◌*◌, ◌/◌, ◌%◌, ◌^◌, ◌≤◌, ◌<◌, min, max, String, ◌≡◌, refl, sym, ap, ◌∙◌,
  ◌≢◌, ◌↔◌, ◌⊎◌, inl, inr, Bool, true, false, not, ◌&&◌, ◌||◌, Option, none, some, List, [], ◌∷◌,
  ◌++◌, map, arith, ltb, leb, eqb, if◌then◌else◌, ltb→lt, lt→ltb, leb→le, eqb_iff, Bool-cases,
  Option-cases, is_none, is_some, length, is_empty, all, any, count, length-append, All, Eq, ◌==◌,
  nat_eq, list_eq, Result, ok, err, ◌>>=◌, ◌>>◌, Result-cases,
}
use botwork.Common.Text.{Text}
use botwork.ControlPlane.Sessions.{
  SessionRecord, SessionStore, AckWaitError, no_subscriber, timeout, insert, remove, get, Event,
  wait_for_ack,
}

pub data Response (Json : Type 0) : Type 0 where
  stored removed already_exists not_found no_xds_subscriber : Text → Response Json
  xds_ack_timeout : ℕ → Text → Response Json
  found : SessionRecord Json → Response Json
  invalid_request : Invalid → Response Json

abbrev pub status : {Json : Type 0} → Response Json → ℕ
status (stored _) = 201
status (removed _) = 200
status (already_exists _) = 409
status (not_found _) = 404
status (no_xds_subscriber _) = 503
status (xds_ack_timeout _ _) = 503
status (found _) = 200
status (invalid_request _) = 400

module _ {Json : Type 0} where
  -- The 503 of `wait_for_xds_ack`, by the reason of the failed wait.
  abbrev pub ack_failure : Text → AckWaitError → Response Json
  ack_failure id no_subscriber = no_xds_subscriber id
  ack_failure id (timeout version) = xds_ack_timeout version id

  abbrev acknowledged :
      Text
      → Result AckWaitError Unit × SessionStore Json
      → Result (Response Json) Unit × SessionStore Json
  acknowledged id (ok _, s) = (ok tt, s)
  acknowledged id (err e, s) = (err (ack_failure id e), s)

  -- With the gate disabled nothing is waited for.
  pub wait_for_xds_ack :
      Bool
      → List (Event Json)
      → ℕ
      → Text
      → SessionStore Json
      → Result (Response Json) Unit × SessionStore Json
  wait_for_xds_ack ack_disabled events target id s =
      let waited = acknowledged id (wait_for_ack target events s) in
      if ack_disabled then (ok tt, s) else waited

  -- A record that envoy did not agree to is taken out again; a failure of that is only logged.
  pub rollback_after_ack_failure : SessionStore Json → Text → SessionStore Json
  rollback_after_ack_failure s id = (remove s id).1

  post_waited :
      Text → Result (Response Json) Unit × SessionStore Json → Response Json × SessionStore Json
  unfolding rollback_after_ack_failure
  post_waited id (ok _, s) = (stored id, s)
  post_waited id (err response, s) = (response, rollback_after_ack_failure s id)

  -- `insert` reports no other error than a record that is there already.
  post_record :
      Bool
      → List (Event Json)
      → SessionRecord Json
      → SessionStore Json
      → Response Json × SessionStore Json
  unfolding post_waited
  post_record ack_disabled events r s =
      let (done, s') = insert s r in
      let waited = wait_for_xds_ack ack_disabled events s'.generation r.session_id s' in
      elim done [
        | err _ ↦ (already_exists r.session_id, s')
        | ok _ ↦ post_waited r.session_id waited
      ]

  pub post_session :
      Json
      → Bool
      → List (Event Json)
      → Option (PostBody Json)
      → SessionStore Json
      → Response Json × SessionStore Json
  unfolding post_record
  post_session null ack_disabled events body s = elim (validate null body) [
    | err why ↦ (invalid_request why, s)
    | ok r ↦ post_record ack_disabled events r s
  ]

  -- Without the acknowledgement the record goes back in; a failure of that is only logged.
  delete_waited :
      SessionRecord Json
      → Text
      → Result (Response Json) Unit × SessionStore Json
      → Response Json × SessionStore Json
  delete_waited r id (ok _, s) = (removed id, s)
  delete_waited r id (err response, s) = (response, (insert s r).1)

  delete_known :
      Bool → List (Event Json) → Text → SessionStore Json → Response Json × SessionStore Json
  unfolding delete_waited
  delete_known ack_disabled events id s =
      let (taken, s') = remove s id in
      let waited = wait_for_xds_ack ack_disabled events s'.generation id s' in
      elim taken [ err _ ↦ (not_found id, s') | ok r ↦ delete_waited r id waited ]

  pub delete_session :
      Bool → List (Event Json) → Text → SessionStore Json → Response Json × SessionStore Json
  unfolding delete_known
  delete_session ack_disabled events id s =
      if valid_session_id id
      then delete_known ack_disabled events id s
      else (invalid_request (malformed session_id_field), s)

  answer : Text → Option (SessionRecord Json) → Response Json
  answer id none = not_found id
  answer id (some r) = found r

  pub get_session : Text → SessionStore Json → Response Json
  unfolding answer
  get_session id s =
      if valid_session_id id
      then answer id (get s id)
      else invalid_request (malformed session_id_field)
