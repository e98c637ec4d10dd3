-- ===== src/SessionBroker/Spawning/Gate.antt =====
-- What a spawn leaves behind: a container that serves was announced to control-plane, and one that
-- does not serve is torn down.
use botwork.Common.{
  ℕ, ◌≡◌, refl, ap, ◌∙◌, ◌⊎◌, inl, inr, Bool, true, false, not, Option, none, some, List, ◌∷◌, ◌++◌,
  if◌then◌else◌, is_none, is_empty, ◌==◌, nat_eq, list_eq, option_eq, pair_eq, Result, ok, err,
}
use botwork.Common.Text.{Text, bytes, text_iff}
use botwork.Common.Map
use botwork.SessionBroker.Routes.{upstream, is_part, parse_tenant_workspace_plugin, forward_path}
use botwork.SessionBroker.Secrets.{build_secret_pairs, FetchedSecret}
use botwork.SessionBroker.Clients.{
  LaunchRequest, LauncherError, ControlPlaneError, PluginDescriptor, PendingInit, Services,
}
use botwork.SessionBroker.Requests.{
  PerStreamState, Response, request_headers_route, immediate_response,
}
use botwork.SessionBroker.Requests.Isolation.{is_route}
use botwork.SessionBroker.Launching.{
  call, teardown_unannounced_container, SpawnState, launch_called, launch_request, announced,
  teardown_called, record_spawn, container_name, staging, post_request, pending_of, Spawned,
  announce, after_launch, spawn_new_container, is_ready,
}
use botwork.SessionBroker.Spawning.{
  config_env, Answer, initialize, authorized, with_secrets, with_cap, resolved, named, spawn,
  resolve_spawn_upstream_authorization,
}

module _ {Json Resources : Type 0} (services : Services Json Resources) where
  -- The container serves a session that control-plane accepted, of the names in the path.
  pub record IsAnnounced (stream_id : Text) (stream : PerStreamState)
      (s s' : SpawnState Json Resources) (to : Text) (authorization : Option Text) : Type 0 where
    pub workspace : Text
    pub plugin_name : Text
    pub container_ip : Text
    pub cap : Text
    pub descriptor : PluginDescriptor Json Resources
    pub secrets : List FetchedSecret
    pub path_names :
        parse_tenant_workspace_plugin stream.path
        ≡ some (stream.trusted_tenant, workspace, plugin_name)
    pub is_resolved : services.resolve stream.trusted_tenant workspace plugin_name ≡ ok descriptor
    pub has_cap : stream.cap ≡ some cap
    pub are_fetched : services.fetch_secrets cap ≡ some secrets
    pub authorizes :
        resolve_spawn_upstream_authorization services.from_utf8 descriptor.upstream_auth secrets
        ≡ ok authorization
    pub is_launched :
        services.launch_session (
          launch_request services stream.trusted_tenant workspace plugin_name descriptor
            (descriptor.env ++ config_env descriptor.config_blob)
            (build_secret_pairs services.from_utf8_lossy secrets))
        ≡ ok container_ip
    pub is_accepted :
        services.post_session (
          post_request services stream.trusted_tenant workspace plugin_name descriptor container_ip)
        ≡ ok tt
    pub goes_to : to ≡ upstream (container_name services) descriptor.port
    pub calls_are :
        s'.calls
        ≡ record_spawn plugin_name (container_name services) container_ip
          ∷ announced (
              post_request services stream.trusted_tenant workspace plugin_name descriptor
                container_ip)
          ∷ launch_called (container_name services) (staging services stream.trusted_tenant)
          ∷ s.calls
    pub waits :
        Map.get stream_id s'.pending_init
        ≡ some (
            pending_of services stream.trusted_tenant workspace plugin_name descriptor authorization
              container_ip)

  -- The launcher was not asked, or it reported a failure, or it was asked to tear down what it
  -- launched; no container waits for its session.
  abbrev pub IsWithdrawn : Text → SpawnState Json Resources → SpawnState Json Resources → Type 0
  IsWithdrawn tenant_name s s' =
      (s' ≡ s)
      ⊎ ((request : LaunchRequest Resources) × (request.name ≡ container_name services)
          × (((e : LauncherError) × (services.launch_session request ≡ err e)
                × (s' ≡ record s {
                  calls =
                      launch_called (container_name services) (staging services tenant_name)
                      ∷ s.calls;
                }))
              ⊎ ((container_ip : Text) × (services.launch_session request ≡ ok container_ip)
                  × (s' ≡ record s {
                    calls =
                        teardown_called (container_name services) (staging services tenant_name)
                        ∷ launch_called (container_name services) (staging services tenant_name)
                        ∷ s.calls;
                  }))))

  -- How a launch may end.
  module _ (tenant_name workspace plugin_name : Text) (descriptor : PluginDescriptor Json Resources)
      (authorization : Option Text) (env secrets : List (Text × Text))
      (s : SpawnState Json Resources) where
    abbrev request : LaunchRequest Resources
    request = launch_request services tenant_name workspace plugin_name descriptor env secrets

    abbrev asked : SpawnState Json Resources
    asked = call services (launch_called (container_name services) (staging services tenant_name)) s

    abbrev Settled : Spawned services → Type 0
    Settled (err e, s') = IsWithdrawn tenant_name s s'
    Settled (ok pending, s') =
        (container_ip : Text) × (pending
          ≡ pending_of services tenant_name workspace plugin_name descriptor authorization
              container_ip)
        × (services.launch_session
              (launch_request services tenant_name workspace plugin_name descriptor env secrets)
            ≡ ok container_ip)
        × (services.post_session
              (post_request services tenant_name workspace plugin_name descriptor container_ip)
            ≡ ok tt)
        × (s'.calls
            ≡ record_spawn plugin_name (container_name services) container_ip
              ∷ announced
                  (post_request services tenant_name workspace plugin_name descriptor container_ip)
              ∷ launch_called (container_name services) (staging services tenant_name)
              ∷ s.calls)

    announce-Settled :
        (container_ip : Text) (answer : Result ControlPlaneError (Unit {0}))
        → services.launch_session
            (launch_request services tenant_name workspace plugin_name descriptor env secrets)
          ≡ ok container_ip
        → services.post_session
            (post_request services tenant_name workspace plugin_name descriptor container_ip)
          ≡ answer
        → Settled (
            announce services
              (post_request services tenant_name workspace plugin_name descriptor container_ip)
              (staging services tenant_name)
              (pending_of services tenant_name workspace plugin_name descriptor authorization
                container_ip)
              answer
              asked)
    unfolding teardown_unannounced_container announce launch_request
    announce-Settled ip (err e) launched h = inr (request, refl, inr (ip, launched, refl))
    announce-Settled ip (ok u) launched h = (ip, refl, launched, h, refl)

    branch-Settled :
        (b : Bool) (x y : Spawned services) → Settled x → Settled y → Settled (if b then x else y)
    branch-Settled true x y hx hy = hx
    branch-Settled false x y hx hy = hy

    after_launch-Settled :
        (answer : Result LauncherError Text)
        → services.launch_session
            (launch_request services tenant_name workspace plugin_name descriptor env secrets)
          ≡ answer
        → Settled (
            after_launch services tenant_name workspace plugin_name descriptor authorization answer
              asked)
    unfolding teardown_unannounced_container after_launch launch_request
    after_launch-Settled (err e) h = inr (request, refl, inl (e, h, refl))
    after_launch-Settled (ok ip) h =
        branch-Settled (not (is_ready services ip descriptor.port)) _ _
          (inr (request, refl, inr (ip, h, refl))) (announce-Settled ip _ h refl)

  -- A refusal withdraws what it asked for, a route an announced container.
  abbrev pub IsGated : Text → PerStreamState → SpawnState Json Resources → Answer services → Type 0
  IsGated stream_id stream s (r, stream', s') =
      ((is_route r ≡ false) × IsWithdrawn stream.trusted_tenant s s')
      ⊎ (((to : Text) × (path : Text) × (authorization : Option Text) × (r
            ≡ request_headers_route to path authorization (is_none authorization))
          × IsAnnounced stream_id stream s s' to authorization))

  refusal-IsGated :
      (stream_id : Text) (stream : PerStreamState) (s : SpawnState Json Resources) (code : ℕ)
      (body : Text)
      → IsGated stream_id stream s (immediate_response code body, stream, s)
  refusal-IsGated stream_id stream s code body = inl (refl, inl refl)

  branch-IsGated :
      (stream_id : Text) (stream : PerStreamState) (s : SpawnState Json Resources) (b : Bool)
      (x y : Answer services)
      → IsGated stream_id stream s x
      → IsGated stream_id stream s y
      → IsGated stream_id stream s (if b then x else y)
  branch-IsGated stream_id stream s true x y hx hy = hx
  branch-IsGated stream_id stream s false x y hx hy = hy

  module _ (stream_id : Text) (stream : PerStreamState) (s : SpawnState Json Resources)
      (workspace plugin_name : Text) (descriptor : PluginDescriptor Json Resources)
      (path_names : parse_tenant_workspace_plugin stream.path
        ≡ some (stream.trusted_tenant, workspace, plugin_name))
      (is_resolved : services.resolve stream.trusted_tenant workspace plugin_name
        ≡ ok descriptor) where
    initialize-IsGated :
        (cap : Text) (secrets : List FetchedSecret) (authorization : Option Text)
        → stream.cap ≡ some cap
        → services.fetch_secrets cap ≡ some secrets
        → resolve_spawn_upstream_authorization services.from_utf8 descriptor.upstream_auth secrets
          ≡ ok authorization
        → (spawned : Spawned services)
        → Settled stream.trusted_tenant workspace plugin_name descriptor authorization
            (descriptor.env ++ config_env descriptor.config_blob)
            (build_secret_pairs services.from_utf8_lossy secrets)
            s
            spawned
        → IsGated stream_id stream s (
            initialize services stream_id (forward_path stream.path descriptor.path) stream spawned)
    unfolding initialize upstream forward_path
    initialize-IsGated held secrets authorization has_cap fetched authorizes (err e, s') settled =
        inl (refl, settled)
    initialize-IsGated held secrets authorization has_cap fetched authorizes (ok pending, s')
          (ip, is_pending, launched, accepted, calls) =
        inr (
          _,
          _,
          authorization,
          ap route is_pending,
          record {
            workspace = workspace;
            plugin_name = plugin_name;
            container_ip = ip;
            cap = held;
            descriptor = descriptor;
            secrets = secrets;
            path_names = path_names;
            is_resolved = is_resolved;
            has_cap = has_cap;
            are_fetched = fetched;
            authorizes = authorizes;
            is_launched = launched;
            is_accepted = accepted;
            goes_to = refl;
            calls_are = calls;
            waits = Map.get-insert_self stream_id pending s'.pending_init ∙ ap some is_pending;
          },
        )
      where
        route : PendingInit Json Resources → Response
        route p =
            request_headers_route (upstream p.container_name p.descriptor.port)
              (forward_path stream.path descriptor.path) p.upstream_authorization
              (is_none p.upstream_authorization)

    authorized-IsGated :
        (cap : Text) (secrets : List FetchedSecret) (answer : Result Text (Option Text))
        → stream.cap ≡ some cap
        → services.fetch_secrets cap ≡ some secrets
        → resolve_spawn_upstream_authorization services.from_utf8 descriptor.upstream_auth secrets
          ≡ answer
        → IsGated stream_id stream s
            (authorized services stream_id workspace plugin_name descriptor secrets stream answer s)
    unfolding authorized spawn_new_container
    authorized-IsGated held secrets (err message) has_cap fetched authorizes =
        refusal-IsGated stream_id stream s 500 message
    authorized-IsGated held secrets (ok authorization) has_cap fetched authorizes =
        initialize-IsGated held secrets authorization has_cap fetched authorizes _ (
          after_launch-Settled stream.trusted_tenant workspace plugin_name descriptor authorization
            (descriptor.env ++ config_env descriptor.config_blob)
            (build_secret_pairs services.from_utf8_lossy secrets) s _ refl)

    with_secrets-IsGated :
        (cap : Text) (answer : Option (List FetchedSecret))
        → stream.cap ≡ some cap
        → services.fetch_secrets cap ≡ answer
        → IsGated stream_id stream s
            (with_secrets services stream_id workspace plugin_name descriptor stream answer s)
    unfolding with_secrets
    with_secrets-IsGated held none has_cap fetched = refusal-IsGated stream_id stream s 503 _
    with_secrets-IsGated held (some secrets) has_cap fetched =
        authorized-IsGated held secrets _ has_cap fetched refl

    with_cap-IsGated :
        (cap : Option Text)
        → stream.cap ≡ cap
        → IsGated stream_id stream s
            (with_cap services stream_id workspace plugin_name descriptor stream cap s)
    unfolding with_cap
    with_cap-IsGated none has_cap = refusal-IsGated stream_id stream s 503 _
    with_cap-IsGated (some held) has_cap =
        branch-IsGated stream_id stream s (is_empty held) _ _
          (refusal-IsGated stream_id stream s 503 _) (with_secrets-IsGated held _ has_cap refl)

  resolved-IsGated :
      (stream_id : Text) (stream : PerStreamState) (s : SpawnState Json Resources)
      (workspace plugin_name : Text) (answer : Result (ℕ × Text) (PluginDescriptor Json Resources))
      → parse_tenant_workspace_plugin stream.path
        ≡ some (stream.trusted_tenant, workspace, plugin_name)
      → services.resolve stream.trusted_tenant workspace plugin_name ≡ answer
      → IsGated stream_id stream s
          (resolved services stream_id workspace plugin_name stream answer s)
  unfolding resolved with_cap
  resolved-IsGated stream_id stream s workspace plugin_name (err (status, message)) names found =
      refusal-IsGated stream_id stream s status message
  resolved-IsGated stream_id stream s workspace plugin_name (ok descriptor) names found =
      with_cap-IsGated stream_id stream s workspace plugin_name descriptor names found stream.cap
        refl

  named-IsGated :
      (stream_id : Text) (stream : PerStreamState) (s : SpawnState Json Resources)
      (names : Option (Text × Text × Text))
      → parse_tenant_workspace_plugin stream.path ≡ names
      → IsGated stream_id stream s (named services stream_id stream names s)
  named-IsGated stream_id stream s none h = refusal-IsGated stream_id stream s 400 _
  named-IsGated stream_id stream s (some (tenant, workspace, plugin_name)) h =
      branch-IsGated stream_id stream s (not (is_part workspace)) _ _
        (refusal-IsGated stream_id stream s 400 _) (tenant-IsGated _ refl)
    where
      tenant-IsGated :
          (b : Bool)
          → (tenant == stream.trusted_tenant) ≡ b
          → IsGated stream_id stream s (
              if not b
              then (immediate_response 403 (bytes "tenant path/header mismatch"), stream, s)
              else resolved services stream_id workspace plugin_name stream
                  (services.resolve stream.trusted_tenant workspace plugin_name)
                  s)
      tenant-IsGated false other = refusal-IsGated stream_id stream s 403 _
      tenant-IsGated true same =
          resolved-IsGated stream_id stream s workspace plugin_name _
            (h
              ∙ ap (λ t. some (t, workspace, plugin_name))
                  ((text_iff tenant stream.trusted_tenant).0 same))
            refl

  pub spawn-IsGated :
      (stream_id : Text) (stream : PerStreamState) (s : SpawnState Json Resources)
      → IsGated stream_id stream s (spawn services stream_id stream s)
  unfolding spawn
  spawn-IsGated stream_id stream s = named-IsGated stream_id stream s _ refl
