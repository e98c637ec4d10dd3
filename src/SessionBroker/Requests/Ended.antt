-- ===== src/SessionBroker/Requests/Ended.antt =====
-- A session that has ended gets no request any more.
use botwork.Common.{
  ℕ, ◌+◌, ◌<◌, ◌≡◌, ap, Bool, true, false, Option, some, List, arith, nat_eq, list_eq, option_eq,
  pair_eq,
}
use botwork.Common.Text.{Text, bytes}
use botwork.SessionBroker.Routes.{HeaderValue, extract_headers}
use botwork.SessionBroker.Transports.{
  AppState, TransportState, tombstone_ttl, bury, is_tombstoned, teardown_of, teardown_session,
  liveness_remove, evict_dead_session,
}
use botwork.SessionBroker.Exits.{find_container, handle_container_exit}
use botwork.SessionBroker.Transports.Routing.{teardown-routing, evict-routing}
use botwork.SessionBroker.Transports.Steps.{◌⟶*◌}
use botwork.SessionBroker.Transports.Tombstones.{HoldsUntil, buried-holds, run-holds, holds_answer}
use botwork.SessionBroker.Requests.{
  PerStreamState, Response, spawns, immediate_response, read_headers, Admission, admit_stream,
  admit_delete, owned, alive, with_session, handle_get, handle_delete, handle_post,
  handle_request_headers,
}
use botwork.SessionBroker.Requests.Isolation.{is_route}

module _ {Json : Type 0} where
  tombstoned_refused :
      (missing : Response) (serve : Admission Json) (now : ℕ) (stream : PerStreamState)
      (s : AppState Json) (id : Text)
      → stream.mcp_session_id ≡ some id
      → (is_tombstoned s id now).0 ≡ true
      → is_route (with_session missing serve now stream s stream.mcp_session_id).0 ≡ false
  tombstoned_refused missing serve now stream s id named gone = ground (arith, named, gone)

  get_refused :
      (now : ℕ) (stream : PerStreamState) (s : AppState Json) (id : Text)
      → stream.mcp_session_id ≡ some id
      → (is_tombstoned s id now).0 ≡ true
      → is_route (handle_get now stream s).0 ≡ false
  unfolding handle_get
  get_refused now stream s id named gone =
      tombstoned_refused (immediate_response 400 (bytes "missing Mcp-Session-Id header"))
        (owned admit_stream) now stream s id named gone

  delete_refused :
      (inspect : Text → Option Bool) (now : ℕ) (stream : PerStreamState) (s : AppState Json)
      (id : Text)
      → stream.mcp_session_id ≡ some id
      → (is_tombstoned s id now).0 ≡ true
      → is_route (handle_delete inspect now stream s).0 ≡ false
  unfolding handle_delete
  delete_refused inspect now stream s id named gone =
      tombstoned_refused (immediate_response 404 (bytes "missing Mcp-Session-Id header"))
        (alive admit_delete inspect now) now stream s id named gone

  post_refused :
      (inspect : Text → Option Bool) (now : ℕ) (stream : PerStreamState) (s : AppState Json)
      (id : Text)
      → stream.mcp_session_id ≡ some id
      → (is_tombstoned s id now).0 ≡ true
      → is_route (handle_post inspect now stream s).0 ≡ false
  unfolding handle_post
  post_refused inspect now stream s id named gone =
      tombstoned_refused spawns (alive admit_stream inspect now) now stream s id named gone

  -- The states that an end of the session leaves: the moment of its tombstone in whatever function,
  -- a whole teardown, an eviction, and the exit of its container.
  pub data Ends (id : Text) (now : ℕ) : AppState Json → Type 0 where
    buried : (s : AppState Json) → Ends id now (bury s id now)
    torn_down :
        (s : AppState Json) (t : TransportState Json)
        → Ends id now (teardown_session s (teardown_of id t) now)
    evicted :
        (s : AppState Json) (t : TransportState Json) → Ends id now (evict_dead_session s id t now)
    exited :
        (s : AppState Json) (container_name : Text) (t : TransportState Json)
        → find_container container_name s.transport_sessions ≡ some (id, t)
        → Ends id now (handle_container_exit s container_name now).1

  Ends-holds :
      (id : Text) (now : ℕ) {s : AppState Json}
      → Ends id now s
      → HoldsUntil id (now + tombstone_ttl) now s.tombstones
  unfolding evict_dead_session liveness_remove handle_container_exit
  Ends-holds id now (buried s) = buried-holds id now s.tombstones
  Ends-holds id now (torn_down s t) =
      rw (ap (λ r. r.0) (teardown-routing s (teardown_of id t) now))
        (buried-holds id now s.tombstones)
  Ends-holds id now (evicted s t) =
      rw (ap (λ r. r.0) (evict-routing s id t now)) (buried-holds id now s.tombstones)
  Ends-holds id now (exited s container_name t found) =
      rw (handle_container_exit, found) (buried-holds id now s.tombstones)

  -- A request that names a session which was torn down or evicted, or whose container has exited, is
  -- not routed for 300 seconds after its tombstone was set, whatever steps of whatever tasks came
  -- between, the sweeper's included, even if its id were installed again.
  pub ended_is_unroutable :
      (id : Text) (now : ℕ) (s : AppState Json) (end : ℕ × AppState Json)
      (from_utf8_lossy : Text → Text) (inspect : Text → Option Bool) (headers : List HeaderValue)
      (stream : PerStreamState)
      → Ends id now s
      → (now, s) ⟶* end
      → end.0 < now + tombstone_ttl
      → (read_headers (extract_headers from_utf8_lossy headers) stream).mcp_session_id ≡ some id
      → is_route (handle_request_headers from_utf8_lossy inspect end.0 headers stream end.1).0
        ≡ false
  unfolding handle_request_headers
  ended_is_unroutable id now s end from_utf8_lossy inspect headers stream ends run early named =
      let stream' = read_headers (extract_headers from_utf8_lossy headers) stream in
      let held = run-holds id (now + tombstone_ttl) run (omega arith) (Ends-holds id now ends) in
      let gone = holds_answer id (now + tombstone_ttl) end.0 end.1 held early in
      ground (
        arith,
        get_refused end.0 stream' end.1 id named gone,
        delete_refused inspect end.0 stream' end.1 id named gone,
        post_refused inspect end.0 stream' end.1 id named gone,
      )
