-- ===== src/Launcher/Validate/Tests.antt =====
-- The launcher's checks at concrete inputs.
use botwork.Common.{
  ◌≡◌, refl, ◌⊎◌, Bool, true, false, if◌then◌else◌, nat_eq, list_eq, option_eq, pair_eq, ok, err,
}
use botwork.Common.Text.{Text, bytes, split}
use botwork.AuthBroker.Grammar.{
  validate_tenant_name, validate_workspace_name, validate_name, name_re,
}
use botwork.ControlPlane.Handler
use botwork.Launcher.Validate.{
  new, bad_request, tenant_re, valid_name, below, valid_staging_path, normalize_path, pushed,
  safe_staging_path, valid_label_name, valid_env_name,
}
use botwork.Launcher.Validate.Confinement.{IsStagingPath, safe_staging_path_lem}
use botwork.Launcher.Validate.Names.{names_agree}

abbrev any_image : Text → Bool
any_image image = true

abbrev staged : Text
staged = bytes "/var/lib/botwork/tenants/acme/staging/0123456789ab"

accepted : valid_staging_path (new any_image) staged ≡ true
unfolding valid_staging_path below split
accepted = refl

climbing :
    valid_staging_path (new any_image) (bytes "/var/lib/botwork/tenants/acme/staging/../etc")
    ≡ false
unfolding valid_staging_path below split
climbing = refl

normalized : normalize_path (bytes "/a/./b//../c/") ≡ bytes "/a/c"
unfolding normalize_path pushed split
normalized = refl

labels :
    (valid_label_name (bytes "io.botworkz.tenant") ≡ true)
    × (valid_label_name (bytes "io.botworkz.") ≡ false)
unfolding valid_label_name
labels = (refl, refl)

env_names :
    (valid_env_name (bytes "MY_VAR") ≡ true)
    × (valid_env_name (bytes "PATH") ≡ false)
    × (valid_env_name (bytes "DOCKER_HOST") ≡ false)
unfolding valid_env_name
env_names = (refl, refl, refl)

safe_staging_path_lem_example :
    let valid = valid_staging_path (new any_image) staged in
    (safe_staging_path (new any_image) staged
      ≡ (if valid then ok staged else err (bad_request (bytes "invalid staging_path"))))
    × ((valid ≡ false) ⊎ IsStagingPath staged)
safe_staging_path_lem_example = safe_staging_path_lem any_image staged

abbrev agent : Text
agent = bytes "/var/lib/botwork/tenants/acme/workspaces/main/agents/A1"

names_agree_example :
    (tenant_re (bytes "acme") ≡ Handler.valid_name (bytes "acme"))
    × ((tenant_re (bytes "acme") ≡ false) ⊎ (validate_workspace_name (bytes "acme") ≡ ok tt))
    × ((valid_name (bytes "acme") ≡ false) ⊎ (Handler.valid_session_id (bytes "acme") ≡ true))
names_agree_example = names_agree (bytes "acme")

-- A tenant that can be registered and that the launcher refuses.
capitals : (validate_tenant_name (bytes "Acme") ≡ ok tt) × (tenant_re (bytes "Acme") ≡ false)
unfolding validate_name name_re
capitals = (refl, refl)
