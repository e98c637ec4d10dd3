-- ===== src/ControlPlane/Handler/Tests.antt =====
-- The handlers at concrete inputs; a policy is a number here, and `null` is 0.
use botwork.Common.{
  ℕ, ◌+◌, ◌%◌, ◌≤◌, ◌≡◌, refl, false, ◌&&◌, Option, none, some, [], ◌∷◌, arith, if◌then◌else◌, ◌==◌,
  nat_eq, list_eq, ok,
}
use botwork.Common.Text.{bytes, split}
use botwork.Common.Ipv4.{parse_ipv4}
use botwork.ControlPlane.Sessions.{
  SessionRecord, SessionStore, u64_mod, insert, remove, get, acks, wakes, wait_loop, wait_for_ack,
  record_acked_version, subscribe, unsubscribe, bump,
}
use botwork.ControlPlane.Handler.{
  stored, removed, status, validate, valid_session_id, valid_name, post_session, delete_session,
  wait_for_xds_ack, PostBody, rollback_after_ack_failure,
}
use botwork.ControlPlane.Handler.Gate.{stored_is_acked, removed_is_acked}
use botwork.ControlPlane.Handler.Rollback.{
  get-post_session, unacked_is_gone, IsKeyed, get-delete_session,
}

abbrev shell : SessionRecord ℕ
shell = record {
  session_id = bytes "mcp_session_a1";
  container_ip = 167772161;
  tenant = bytes "acme";
  workspace = bytes "main";
  plugin = bytes "shell";
  egress_policy = 0;
}

abbrev shell_body : Option (PostBody ℕ)
shell_body = some (record {
  session_id = some (bytes "mcp_session_a1");
  container_ip = some (bytes "10.0.0.1");
  tenant = some (bytes "acme");
  workspace = some (bytes "main");
  plugin = some (bytes "shell");
  egress_policy = none;
})

abbrev attached : SessionStore ℕ
attached = record { inner = []; generation = 0; acked_version = 0; xds_subscribers = 1 }

abbrev one_session : SessionStore ℕ
one_session = record {
  inner = (bytes "mcp_session_a1", shell) ∷ [];
  generation = 1;
  acked_version = 1;
  xds_subscribers = 1;
}

shell_is_valid : validate 0 shell_body ≡ ok shell
unfolding validate valid_session_id valid_name parse_ipv4 split
shell_is_valid = refl

handlers : Unit {0}
unfolding validate valid_session_id valid_name parse_ipv4 split insert remove bump wait_for_ack
    wait_loop record_acked_version subscribe unsubscribe post_session delete_session
    wait_for_xds_ack rollback_after_ack_failure
handlers = tt

post_runs :
    (post_session 0 false (acks 1 ∷ wakes ∷ []) shell_body attached).0
    ≡ stored (bytes "mcp_session_a1")
unfolding handlers
post_runs = refl

post_times_out : status (post_session 0 false (acks 1 ∷ []) shell_body attached).0 ≡ 503
unfolding handlers
post_times_out = refl

delete_runs :
    (delete_session false (acks 2 ∷ wakes ∷ []) (bytes "mcp_session_a1") one_session).0
    ≡ removed (bytes "mcp_session_a1")
unfolding handlers
delete_runs = refl

stored_is_acked_example :
    ((attached.generation + 1) % u64_mod
      ≤ (post_session 0 false (acks 1 ∷ wakes ∷ []) shell_body attached).1.acked_version)
    × (bytes "mcp_session_a1" ≡ shell.session_id)
stored_is_acked_example =
    stored_is_acked 0 (acks 1 ∷ wakes ∷ []) shell_body attached shell (bytes "mcp_session_a1")
      shell_is_valid post_runs

removed_is_acked_example :
    (one_session.generation + 1) % u64_mod
    ≤ (delete_session false
        (acks 2 ∷ wakes ∷ [])
        (bytes "mcp_session_a1")
        one_session).1.acked_version
removed_is_acked_example =
    removed_is_acked (acks 2 ∷ wakes ∷ []) (bytes "mcp_session_a1") one_session delete_runs

get-post_session_example :
    let (response, s') = post_session 0 false (acks 1 ∷ []) shell_body attached in
    get s' (bytes "mcp_session_a1") ≡ (
      if status response == 201 && shell.session_id == bytes "mcp_session_a1"
      then some shell
      else get attached (bytes "mcp_session_a1"))
get-post_session_example =
    get-post_session 0 false (acks 1 ∷ []) shell_body attached shell (bytes "mcp_session_a1") tt
      shell_is_valid

unacked_is_gone_example :
    get (post_session 0 false (acks 1 ∷ []) shell_body attached).1 shell.session_id ≡ none
unacked_is_gone_example =
    unacked_is_gone 0 false (acks 1 ∷ []) shell_body attached shell shell_is_valid post_times_out

one_session-IsKeyed : IsKeyed one_session
one_session-IsKeyed id r e = ground (arith, list_eq.same_iff (bytes "mcp_session_a1") id)

get-delete_session_example :
    let (response, s') = delete_session false [] (bytes "mcp_session_a1") one_session in
    get s' (bytes "mcp_session_a1") ≡ (
      if status response == 200 && bytes "mcp_session_a1" == bytes "mcp_session_a1"
      then none
      else get one_session (bytes "mcp_session_a1"))
get-delete_session_example =
    get-delete_session false [] (bytes "mcp_session_a1") (bytes "mcp_session_a1") one_session tt
      one_session-IsKeyed
