-- ===== src/SessionBroker/Workers/Tests.antt =====
-- One container, reaped, in a table in memory.
use botwork.Common.{
  ◌≡◌, refl, true, false, none, some, List, [], ◌∷◌, map, any, ◌==◌, nat_eq, list_eq, option_eq,
  pair_eq, ok,
}
use botwork.Common.Text.{bytes}
use botwork.Common.Database.{Table}
use botwork.Common.Database.Memory.{in_memory, Store}
use botwork.SessionBroker.Workers.{
  Worker, LiveWorker, record_spawn_inner, find_by_container_name, record_mcp_session_id_inner,
  record_agent_binding_inner, record_reap_inner, mark_reaped, list_live,
}
use botwork.SessionBroker.Workers.Reaping.{Request, spawns, names_session, reaps, marks, run}
use botwork.SessionBroker.Workers.Times.{AreReapedAt, reaped_at_stays}

abbrev table : Table Worker
table = in_memory Worker

abbrev worker : Worker
worker = record {
  id = 1;
  agent_session_id = none;
  plugin_id = 3;
  container_name = bytes "a";
  container_ip = bytes "10.0.0.1";
  mcp_session_id = [];
  spawned_at = 5;
  reaped_at = none;
}

abbrev store : Store Worker
store = (true, worker ∷ [])

abbrev other_worker : LiveWorker
other_worker = record {
  container_name = bytes "b";
  container_ip = bytes "10.0.0.2";
  mcp_session_id = bytes "m";
  plugin_id = 3;
  agent_session_id = none;
}

abbrev later_requests : List Request
later_requests =
    spawns 3 2 (bytes "b") (bytes "10.0.0.2") 20
    ∷ names_session (bytes "b") (bytes "m")
    ∷ names_session (bytes "a") (bytes "n")
    ∷ reaps (bytes "a") 22
    ∷ marks 7 25
    ∷ []

workers : Unit {0}
unfolding record_spawn_inner find_by_container_name record_mcp_session_id_inner
    record_agent_binding_inner record_reap_inner list_live
workers = tt

reaped : (record_reap_inner table (bytes "a") 10 store).0 ≡ ok tt
unfolding workers
reaped = refl

listing :
    list_live table (run table later_requests (record_reap_inner table (bytes "a") 10 store).1)
    ≡ ok (other_worker ∷ [])
unfolding workers
listing = refl

-- Two reaps whose SELECTs both come first: the later UPDATE moves the time.
time_moved :
    map
      (λ w. w.reaped_at)
      (mark_reaped table 1 25 (record_reap_inner table (bytes "a") 10 store).1).1.1
    ≡ some 25 ∷ []
unfolding workers
time_moved = refl

reaped_at_stays_example :
    let first = (record_reap_inner table (bytes "a") 10 store).1 in
    let after = run table later_requests first in
    AreReapedAt (bytes "a") 1 10 first.1
    × AreReapedAt (bytes "a") 1 10 after.1
    × (any (λ w. w.container_name == bytes "a") (other_worker ∷ []) ≡ false)
    × ((record_reap_inner table (bytes "a") 30 after).1.1 ≡ after.1)
reaped_at_stays_example =
    reaped_at_stays table (bytes "a") 1 10 30 later_requests store (other_worker ∷ []) refl reaped
      (refl, refl, (refl, tt)) listing
