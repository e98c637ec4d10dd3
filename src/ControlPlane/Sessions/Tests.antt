-- ===== src/ControlPlane/Sessions/Tests.antt =====
-- The session table at concrete inputs; a policy is a number here.
use botwork.Common.{ℕ, ◌≡◌, refl, [], ◌∷◌, arith, nat_eq, list_eq, option_eq, pair_eq, ok, err}
use botwork.Common.Text.{bytes}
use botwork.ControlPlane.Sessions.{
  SessionRecord, SessionStore, already_exists, timeout, insert, bulk_seed, acks, wakes, posts,
  wait_loop, wait_for_ack, record_acked_version, bump,
}
use botwork.ControlPlane.Sessions.Waiting.{wait_for_ack_live}

abbrev shell : SessionRecord ℕ
shell = record {
  session_id = bytes "mcp_session_a1";
  container_ip = 167772161;
  tenant = bytes "acme";
  workspace = bytes "main";
  plugin = bytes "shell";
  egress_policy = 0;
}

abbrev files : SessionRecord ℕ
files = record shell { session_id = bytes "mcp_session_b2"; container_ip = 167772162 }

abbrev one_session : SessionStore ℕ
one_session = record {
  inner = (bytes "mcp_session_a1", shell) ∷ [];
  generation = 1;
  acked_version = 0;
  xds_subscribers = 1;
}

abbrev attached : SessionStore ℕ
attached = record { inner = []; generation = 0; acked_version = 0; xds_subscribers = 1 }

insert_stores : insert attached shell ≡ (ok tt, one_session)
unfolding insert bump
insert_stores = refl

insert_twice :
    insert one_session shell ≡ (err (already_exists (bytes "mcp_session_a1")), one_session)
unfolding insert
insert_twice = refl

bulk_seed_runs :
    (bulk_seed attached (shell ∷ files ∷ shell ∷ [])).0
    ≡ err (already_exists (bytes "mcp_session_a1"))
unfolding bulk_seed
bulk_seed_runs = refl

wait_runs : (wait_for_ack 1 (acks 1 ∷ wakes ∷ []) one_session).0 ≡ ok tt
unfolding wait_for_ack wait_loop record_acked_version
wait_runs = refl

wait_too_short : (wait_for_ack 2 (acks 1 ∷ wakes ∷ []) one_session).0 ≡ err (timeout 2)
unfolding wait_for_ack wait_loop record_acked_version
wait_too_short = refl

wait_for_ack_live_example :
    (wait_for_ack 1 (posts files ∷ acks 4 ∷ wakes ∷ []) one_session).0 ≡ ok tt
wait_for_ack_live_example =
    wait_for_ack_live 1 (posts files ∷ acks 4 ∷ wakes ∷ []) one_session (omega arith) refl
