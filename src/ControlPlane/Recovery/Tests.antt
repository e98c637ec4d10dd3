-- ===== src/ControlPlane/Recovery/Tests.antt =====
-- A database that is not up yet at the first attempt, with a live worker and a reaped one.
use mathlib.Core.List.Memᴰ.{head}
use botwork.Common.{
  ℕ, ◌≤◌, ◌≡◌, refl, true, false, none, some, [], ◌∷◌, arith, leb, is_some, filter, nat_eq, list_eq,
  option_eq, pair_eq, ok, err, succeeded,
}
use botwork.Common.Text.{bytes, split}
use botwork.Common.Ipv4.{parse_ipv4}
use botwork.Common.Database.{Table}
use botwork.Common.Database.Memory.{in_memory, Store}
use botwork.SessionBroker.Workers.{Worker}
use botwork.ControlPlane.Sessions.{SessionRecord, get, new, insert, bump}
use botwork.ControlPlane.Recovery.{
  Joined, is_live, grace, fetch_live_sessions, into_session_record, records_of, seed_store, bad_row,
  run_from, run_with_retries_config, max_attempts,
}
use botwork.ControlPlane.Recovery.Rows.{IsFrom}
use botwork.ControlPlane.Recovery.Attempts.{
  run_with_retries_ends, recovered_is_live, live_is_recovered,
}

abbrev table : Table (Joined ℕ)
table = in_memory (Joined ℕ)

abbrev worker : Worker
worker = record {
  id = 1;
  agent_session_id = some 7;
  plugin_id = 3;
  container_name = bytes "mcp_session_a1";
  container_ip = bytes "10.0.0.1";
  mcp_session_id = bytes "m1";
  spawned_at = 5;
  reaped_at = none;
}

abbrev live : Joined ℕ
live = record {
  worker = worker;
  state = grace;
  tenant = bytes "acme";
  workspace = bytes "main";
  plugin = bytes "shell";
  egress = 0;
}

abbrev gone : Joined ℕ
gone = record live {
  worker = record worker { id = 2; mcp_session_id = bytes "m2"; reaped_at = some 9 };
}

abbrev broken : Joined ℕ
broken = record live {
  worker = record worker { id = 3; mcp_session_id = bytes "m3"; container_ip = bytes "nowhere" };
}

abbrev databases : ℕ → Store (Joined ℕ)
databases k = (leb 2 k, live ∷ gone ∷ [])

abbrev session : SessionRecord ℕ
session = record {
  session_id = bytes "m1";
  container_ip = 167772161;
  tenant = bytes "acme";
  workspace = bytes "main";
  plugin = bytes "shell";
  egress_policy = 0;
}

recovery : Unit {0}
unfolding split fetch_live_sessions into_session_record records_of seed_store run_from
    run_with_retries_config parse_ipv4 insert bump
recovery = tt

recovery_runs : (run_with_retries_config table tt databases max_attempts new).0 ≡ ok 1
unfolding recovery
recovery_runs = refl

recovery_gives_up : succeeded (run_with_retries_config table tt databases 1 new).0 ≡ false
unfolding recovery
recovery_gives_up = refl

bad_row_fails :
    fetch_live_sessions table (true, live ∷ broken ∷ [])
    ≡ err (bad_row (bytes "nowhere") (bytes "m3"))
unfolding recovery
bad_row_fails = refl

read_at_two : succeeded (fetch_live_sessions table (databases 2)) ≡ true
unfolding recovery
read_at_two = refl

found :
    get (run_with_retries_config table tt databases max_attempts new).1 (bytes "m1") ≡ some session
unfolding recovery
found = refl

run_with_retries_ends_example :
    succeeded (run_with_retries_config table tt databases max_attempts new).0 ≡ true
run_with_retries_ends_example =
    run_with_retries_ends table tt databases max_attempts 2 new (omega arith) (omega arith)
      read_at_two

recovered_is_live_example :
    (k : ℕ) × (1 ≤ k) × (k ≤ max_attempts) × IsFrom (filter is_live (live ∷ gone ∷ [])) session
recovered_is_live_example =
    recovered_is_live table tt databases max_attempts 1 (bytes "m1") session recovery_runs found

live_is_recovered_example :
    is_some (get (run_with_retries_config table tt databases max_attempts new).1 (bytes "m1"))
    ≡ true
live_is_recovered_example =
    live_is_recovered table tt databases max_attempts 1 (live ∷ gone ∷ []) live (λ k. refl)
      recovery_runs (head refl) refl
