-- ===== src/SessionBroker/Requests/Isolation.antt =====
-- A request reaches only the container of a session of its own tenant.
use botwork.Common.{
  ℕ, ◌≡◌, refl, sym, ap, ◌⊎◌, inl, inr, Bool, true, false, not, Option, none, some, List, arith,
  if◌then◌else◌, Bool-cases, on_branches, Option-cases, is_empty, ◌==◌, nat_eq, list_eq, option_eq,
  pair_eq,
}
use botwork.Common.Text.{Text, bytes, text_iff}
use botwork.Common.Map
use botwork.SessionBroker.Routes.{
  is_part, HeaderValue, extract_headers, parse_tenant_workspace_plugin,
  route_authorization_for_transport,
}
use botwork.SessionBroker.Transports.{
  AppState, TransportState, is_tombstoned, check_container_liveness,
}
use botwork.SessionBroker.Requests.{
  with_session, Admission, served, PerStreamState, Response, immediate_response,
  request_headers_route, request_headers_continue, spawns, unknown, read_headers, check_path,
  check_owner, upstream_of, route, Handled, admit_stream, admit_delete, owned, alive, known,
  handle_get, handle_delete, handle_post, by_method, handle_request_headers,
}

-- The names in the path, where it has three, are those of the tenant and of the workspace.
abbrev pub PathAllows : Text → Text → Option (Text × Text × Text) → Type 0
PathAllows tenant workspace o =
    (o ≡ none) ⊎ ((plugin : Text) × (o ≡ some (tenant, workspace, plugin)))

check_path_allows :
    (o : Option (Text × Text × Text)) (tenant workspace : Text)
    → check_path o tenant workspace ≡ none
    → PathAllows tenant workspace o
check_path_allows none tenant workspace h = inl refl
check_path_allows (some (a, b, c)) tenant workspace h =
    inr (c, ground (arith, h, text_iff a tenant, text_iff b workspace))

abbrev pub is_route : Response → Bool
is_route (request_headers_route to path authorization strip) = true
is_route (immediate_response code body) = false
is_route request_headers_continue = false
is_route spawns = false

check_path_refuses :
    (o : Option (Text × Text × Text)) (tenant workspace : Text) (r : Response)
    → check_path o tenant workspace ≡ some r
    → is_route r ≡ false
check_path_refuses none tenant workspace r h = cc
check_path_refuses (some (a, b, c)) tenant workspace r h = ground (arith, h)

module _ {Json : Type 0} where
  -- The session that a routed request belongs to.
  pub record IsOwn (stream : PerStreamState) (table : Map.Map Text (TransportState Json))
      (to : Text) (authorization : Option Text) (strip : Bool) : Type 0 where
    pub id : Text
    pub transport : TransportState Json
    pub names_session : stream.mcp_session_id ≡ some id
    pub is_listed : Map.get id table ≡ some transport
    pub same_tenant : transport.tenant_name ≡ stream.trusted_tenant
    pub path_allows :
        PathAllows stream.trusted_tenant transport.workspace
          (parse_tenant_workspace_plugin stream.path)
    pub goes_to : to ≡ upstream_of transport
    pub authorizes :
        (authorization, strip)
        ≡ route_authorization_for_transport transport.upstream_auth transport.upstream_authorization

  abbrev IsSafe : PerStreamState → Map.Map Text (TransportState Json) → Response → Type 0
  IsSafe stream table r =
      (to path : Text) (authorization : Option Text) (strip : Bool)
      → r ≡ request_headers_route to path authorization strip
      → IsOwn stream table to authorization strip

  owner_matches :
      (stream : PerStreamState) (t : TransportState Json)
      → check_owner stream t ≡ none
      → (t.tenant_name ≡ stream.trusted_tenant)
        × (check_path (parse_tenant_workspace_plugin stream.path) stream.trusted_tenant t.workspace
            ≡ none)
  owner_matches stream t h = elim (Bool-cases (t.tenant_name == stream.trusted_tenant)) [
    | inl same ↦ ((text_iff t.tenant_name stream.trusted_tenant).0 same, ground (arith, h, same))
    | inr other ↦ absurd (ground (arith, h, other))
  ]

  route-IsSafe :
      (stream : PerStreamState) (table : Map.Map Text (TransportState Json)) (id : Text)
      (t : TransportState Json)
      → stream.mcp_session_id ≡ some id
      → Map.get id table ≡ some t
      → check_owner stream t ≡ none
      → IsSafe stream table (route stream t)
  route-IsSafe stream table id t named listed owner to path authorization strip h = record {
    id = id;
    transport = t;
    names_session = named;
    is_listed = listed;
    same_tenant = (owner_matches stream t owner).0;
    path_allows =
        check_path_allows _ stream.trusted_tenant t.workspace (owner_matches stream t owner).1;
    goes_to = ground (arith, h);
    authorizes = ground (arith, h);
  }

  refusal-IsSafe :
      (stream : PerStreamState) (table : Map.Map Text (TransportState Json)) (r : Response)
      → is_route r ≡ false
      → IsSafe stream table r
  refusal-IsSafe stream table r refused to path authorization strip h =
      absurd (ground (arith, h, refused))

  abbrev Routes : Admission Json → Type 0
  Routes admit =
      (stream : PerStreamState) (s : AppState Json) (id : Text) (t : TransportState Json)
      → (admit stream s id t).0 ≡ route stream t

  abbrev IsSafeAdmission : Admission Json → Type 0
  IsSafeAdmission serve =
      (stream : PerStreamState) (s : AppState Json) (table : Map.Map Text (TransportState Json))
      (id : Text) (t : TransportState Json)
      → stream.mcp_session_id ≡ some id
      → Map.get id table ≡ some t
      → IsSafe stream table (serve stream s id t).0

  owned-IsSafe : (admit : Admission Json) → Routes admit → IsSafeAdmission (owned admit)
  owned-IsSafe admit routes stream s table id t named listed =
      elim (Option-cases (check_owner stream t)) [
        | inl owner ↦
            rw (owned, owner, routes stream s id t)
              (route-IsSafe stream table id t named listed owner)
        | inr (r, refused) ↦
            let path = parse_tenant_workspace_plugin stream.path in
            let closed = check_path_refuses path stream.trusted_tenant t.workspace r in
            rw (owned, refused) (refusal-IsSafe stream table r (ground (arith, refused, closed)))
      ]

  asked_table :
      (s : AppState Json) (id : Text) (now : ℕ)
      → (is_tombstoned s id now).1.transport_sessions ≡ s.transport_sessions
  unfolding is_tombstoned
  asked_table s id now = elim (Option-cases (Map.get id s.tombstones)) [
    | inl absent ↦ ground (arith, absent)
    | inr (due, found) ↦ ground (arith, found)
  ]

  alive-IsSafe :
      (admit : Admission Json) (inspect : Text → Option Bool) (now : ℕ)
      → Routes admit
      → IsSafeAdmission (alive admit inspect now)
  alive-IsSafe admit inspect now routes stream s table id t named listed =
      let (is_running, s') =
        check_container_liveness (inspect t.container_name) s t.container_name now in
      on_branches (λ (h : Handled Json). IsSafe stream table h.0) (not is_running)
        (refusal-IsSafe stream table unknown refl)
        (owned-IsSafe admit routes stream s' table id t named listed)

  served-IsSafe :
      (serve : Admission Json) (stream : PerStreamState) (s : AppState Json)
      (table : Map.Map Text (TransportState Json)) (id : Text)
      (found : Option (TransportState Json))
      → IsSafeAdmission serve
      → stream.mcp_session_id ≡ some id
      → Map.get id table ≡ found
      → IsSafe stream table (served serve stream s id found).0
  served-IsSafe serve stream s table id none safe named listed =
      refusal-IsSafe stream table unknown refl
  served-IsSafe serve stream s table id (some t) safe named listed =
      safe stream s table id t named listed

  known-IsSafe :
      (serve : Admission Json) (now : ℕ) (stream : PerStreamState) (s : AppState Json) (id : Text)
      → IsSafeAdmission serve
      → stream.mcp_session_id ≡ some id
      → IsSafe stream s.transport_sessions (known serve now stream s id).0
  known-IsSafe serve now stream s id safe named =
      let (tombstoned, s') = is_tombstoned s id now in
      on_branches (λ (h : Handled Json). IsSafe stream s.transport_sessions h.0) tombstoned
        (refusal-IsSafe stream s.transport_sessions unknown refl)
        (served-IsSafe serve stream s' s.transport_sessions id (Map.get id s'.transport_sessions)
          safe named (ap (Map.get id) (sym (asked_table s id now))))

  with_session-IsSafe :
      (missing : Response) (serve : Admission Json) (now : ℕ) (stream : PerStreamState)
      (s : AppState Json) (id : Option Text)
      → is_route missing ≡ false
      → IsSafeAdmission serve
      → stream.mcp_session_id ≡ id
      → IsSafe stream s.transport_sessions (with_session missing serve now stream s id).0
  with_session-IsSafe missing serve now stream s none refuses safe named =
      refusal-IsSafe stream s.transport_sessions missing refuses
  with_session-IsSafe missing serve now stream s (some id) refuses safe named =
      known-IsSafe serve now stream s id safe named

  get-IsSafe :
      (now : ℕ) (stream : PerStreamState) (s : AppState Json)
      → IsSafe stream s.transport_sessions (handle_get now stream s).0
  unfolding handle_get
  get-IsSafe now stream s =
      with_session-IsSafe (immediate_response 400 (bytes "missing Mcp-Session-Id header"))
        (owned admit_stream) now stream s stream.mcp_session_id refl
        (owned-IsSafe admit_stream (λ _ _ _ _. refl)) refl

  delete-IsSafe :
      (inspect : Text → Option Bool) (now : ℕ) (stream : PerStreamState) (s : AppState Json)
      → IsSafe stream s.transport_sessions (handle_delete inspect now stream s).0
  unfolding handle_delete
  delete-IsSafe inspect now stream s =
      with_session-IsSafe (immediate_response 404 (bytes "missing Mcp-Session-Id header"))
        (alive admit_delete inspect now) now stream s stream.mcp_session_id refl
        (alive-IsSafe admit_delete inspect now (λ _ _ _ _. refl)) refl

  post-IsSafe :
      (inspect : Text → Option Bool) (now : ℕ) (stream : PerStreamState) (s : AppState Json)
      → IsSafe stream s.transport_sessions (handle_post inspect now stream s).0
  unfolding handle_post
  post-IsSafe inspect now stream s =
      with_session-IsSafe spawns (alive admit_stream inspect now) now stream s stream.mcp_session_id
        refl (alive-IsSafe admit_stream inspect now (λ _ _ _ _. refl)) refl

  branch-IsSafe :
      (stream : PerStreamState) (table : Map.Map Text (TransportState Json)) (b : Bool)
      (x y : Handled Json)
      → IsSafe stream table x.0
      → IsSafe stream table y.0
      → IsSafe stream table (if b then x else y).0
  branch-IsSafe stream table true x y p q = p
  branch-IsSafe stream table false x y p q = q

  method-IsSafe :
      (inspect : Text → Option Bool) (now : ℕ) (stream : PerStreamState) (s : AppState Json)
      → IsSafe stream s.transport_sessions (by_method inspect now stream s).0
  method-IsSafe inspect now stream s =
      let branch = branch-IsSafe stream s.transport_sessions in
      let other = refusal-IsSafe stream s.transport_sessions request_headers_continue refl in
      branch (stream.method == bytes "GET") (handle_get now stream s) _ (get-IsSafe now stream s) (
        branch (stream.method == bytes "DELETE") (handle_delete inspect now stream s) _
          (delete-IsSafe inspect now stream s)
          (branch (stream.method == bytes "POST") (handle_post inspect now stream s)
            (request_headers_continue, stream, s) (post-IsSafe inspect now stream s) other))

  -- A request is routed only if it names a session that is in the table and belongs to the tenant of
  -- the trusted header, and the path, where it has the form of one, names this tenant and the
  -- session's workspace. It then goes to that session's container, with the authorization that the
  -- session's settings say.
  pub routed-IsOwn :
      (from_utf8_lossy : Text → Text) (inspect : Text → Option Bool) (now : ℕ)
      (headers : List HeaderValue) (stream : PerStreamState) (s : AppState Json) (to path : Text)
      (authorization : Option Text) (strip : Bool)
      → (handle_request_headers from_utf8_lossy inspect now headers stream s).0
        ≡ request_headers_route to path authorization strip
      → IsOwn
          (read_headers (extract_headers from_utf8_lossy headers) stream)
          s.transport_sessions
          to
          authorization
          strip
  unfolding handle_request_headers
  routed-IsOwn from_utf8_lossy inspect now headers stream s to path authorization strip =
      let stream' = read_headers (extract_headers from_utf8_lossy headers) stream in
      let branch = branch-IsSafe stream' s.transport_sessions in
      let refused = refusal-IsSafe stream' s.transport_sessions in
      let served = by_method inspect now stream' s in
      let invalid : Handled Json =
        (immediate_response 400 (bytes "invalid x-botwork-tenant header"), stream', s) in
      let missing : Handled Json =
        (immediate_response 401 (bytes "missing x-botwork-tenant header"), stream', s) in
      branch (is_empty stream'.trusted_tenant) missing
        (if not (is_part stream'.trusted_tenant) then invalid else served) (refused missing.0 refl)
        (branch (not (is_part stream'.trusted_tenant)) invalid served (refused invalid.0 refl)
          (method-IsSafe inspect now stream' s))
        to path authorization strip
