-- ===== src/SessionBroker/Spawning/Served.antt =====
-- What follows from the gate for the caller of a spawn, and for the whole handler of request headers.
use botwork.Common.{
  ℕ, ◌≡◌, sym, ◌∙◌, ◌⊎◌, inl, inr, Bool, false, Option, List, arith, is_none, nat_eq, list_eq,
  option_eq, pair_eq,
}
use botwork.Common.Text.{Text}
use botwork.SessionBroker.Routes.{extract_headers, HeaderValue}
use botwork.SessionBroker.Clients.{Services}
use botwork.SessionBroker.Requests.{
  spawns, request_headers_continue, handle_request_headers, read_headers, PerStreamState, Response,
  request_headers_route, immediate_response,
}
use botwork.SessionBroker.Requests.Isolation.{is_route, IsOwn, routed-IsOwn}
use botwork.SessionBroker.Transports.{AppState}
use botwork.SessionBroker.Launching.{SpawnState}
use botwork.SessionBroker.Spawning.{request_headers, spawn_or_answer, Answer, spawn}
use botwork.SessionBroker.Spawning.Gate.{IsAnnounced, IsWithdrawn, IsGated, spawn-IsGated}

module _ {Json Resources : Type 0} (services : Services Json Resources) where
  route_of :
      (stream_id : Text) (stream : PerStreamState) (s : SpawnState Json Resources)
      (a : Answer services) (to path : Text) (authorization : Option Text) (strip : Bool)
      → IsGated services stream_id stream s a
      → a.0 ≡ request_headers_route to path authorization strip
      → IsAnnounced services stream_id stream s a.2 to authorization
        × (strip ≡ is_none authorization)
  route_of stream_id stream s (r, stream', s') to path authorization strip (inl (refused, left)) h =
      absurd (ground (arith, h, refused))
  route_of stream_id stream s (r, stream', s') to path authorization strip
        (inr (to', path', authorization', is_route_of, waiting)) h =
      let same = sym is_route_of ∙ h in
      let to_same : to' ≡ to = ground (arith, same) in
      let authorization_same : authorization' ≡ authorization = ground (arith, same) in
      (rw (← to_same, ← authorization_same) waiting, ground (arith, same))

  refusal_of :
      (stream_id : Text) (stream : PerStreamState) (s : SpawnState Json Resources)
      (a : Answer services)
      → IsGated services stream_id stream s a
      → is_route a.0 ≡ false
      → IsWithdrawn services stream.trusted_tenant s a.2
  refusal_of stream_id stream s a (inl (refused, left)) h = left
  refusal_of stream_id stream s a (inr (to, path, authorization, route, waiting)) h =
      absurd (ground (arith, h, route))

  -- A container that a spawn routes to was announced to control-plane and accepted there, under the
  -- trusted tenant and the workspace and plugin of the path, which config-broker resolved; it is the
  -- container that was launched, it waits for its session id under the stream's id, and it gets the
  -- authorization that the plugin's settings and the fetched secrets say, the client's own being
  -- removed where there is none.
  pub served-IsAnnounced :
      (stream_id : Text) (stream : PerStreamState) (s : SpawnState Json Resources) (to path : Text)
      (authorization : Option Text) (strip : Bool)
      → (spawn services stream_id stream s).0 ≡ request_headers_route to path authorization strip
      → IsAnnounced services stream_id stream s
          (spawn services stream_id stream s).2
          to
          authorization
        × (strip ≡ is_none authorization)
  served-IsAnnounced stream_id stream s to path authorization strip =
      route_of stream_id stream s (spawn services stream_id stream s) to path authorization strip
        (spawn-IsGated services stream_id stream s)

  -- A spawn that does not end in a route leaves no container waiting, and either did not ask the
  -- launcher, or got a failure from it, or asked it to tear down the container that it launched.
  pub refused-IsWithdrawn :
      (stream_id : Text) (stream : PerStreamState) (s : SpawnState Json Resources)
      → is_route (spawn services stream_id stream s).0 ≡ false
      → IsWithdrawn services stream.trusted_tenant s (spawn services stream_id stream s).2
  refused-IsWithdrawn stream_id stream s h =
      refusal_of stream_id stream s (spawn services stream_id stream s)
        (spawn-IsGated services stream_id stream s) h

  -- Both ways in which the whole handler routes.
  spawned_or_answered :
      (stream_id : Text) (r : Response) (stream : PerStreamState) (state : AppState Json)
      (s : SpawnState Json Resources) (to path : Text) (authorization : Option Text) (strip : Bool)
      → (spawn_or_answer services stream_id r stream state s).0
        ≡ request_headers_route to path authorization strip
      → (r ≡ request_headers_route to path authorization strip)
        ⊎ IsAnnounced services stream_id stream s
            (spawn_or_answer services stream_id r stream state s).3
            to
            authorization
  unfolding spawn_or_answer
  spawned_or_answered stream_id spawns stream state s to path authorization strip h =
      inr (served-IsAnnounced stream_id stream s to path authorization strip h).0
  spawned_or_answered stream_id (immediate_response code body) stream state s to path a strip h =
      inl h
  spawned_or_answered stream_id (request_headers_route t p a b) stream state s to path c strip h =
      inl h
  spawned_or_answered stream_id request_headers_continue stream state s to path a strip h = inl h

  -- The handler of request headers, spawns included, routes only to the container of a listed
  -- session of the trusted tenant that the request names, or to a container that was just announced
  -- to control-plane and accepted.
  pub routed-IsAllowed :
      (inspect : Text → Option Bool) (now : ℕ) (headers : List HeaderValue) (stream_id : Text)
      (stream : PerStreamState) (state : AppState Json) (s : SpawnState Json Resources)
      (to path : Text) (authorization : Option Text) (strip : Bool)
      → (request_headers services inspect now headers stream_id stream state s).0
        ≡ request_headers_route to path authorization strip
      → IsOwn
          (read_headers (extract_headers services.from_utf8_lossy headers) stream)
          state.transport_sessions
          to
          authorization
          strip
        ⊎ IsAnnounced services stream_id
            (handle_request_headers services.from_utf8_lossy inspect now headers stream state).1
            s
            (request_headers services inspect now headers stream_id stream state s).3
            to
            authorization
  unfolding request_headers spawn_or_answer
  routed-IsAllowed inspect now headers stream_id stream state s to path authorization strip h =
      let handled =
        handle_request_headers services.from_utf8_lossy inspect now headers stream state in
      elim (spawned_or_answered stream_id handled.0 handled.1 handled.2 s to path authorization
        strip h) [
          | inl answered ↦ inl (
              routed-IsOwn services.from_utf8_lossy inspect now headers stream state to path
                authorization strip answered)
          | inr waiting ↦ inr waiting
        ]
