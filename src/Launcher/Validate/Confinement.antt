-- ===== src/Launcher/Validate/Confinement.antt =====
-- Accepted paths stay where they belong (launcher/src/validate.rs).
use botwork.Common.{
  ◌≡◌, refl, ◌⊎◌, inl, inr, Bool, true, false, Option, none, some, List, [], ◌∷◌, ◌++◌, arith,
  if◌then◌else◌, false_or, Option-cases, nat_eq, list_eq, option_eq, ok, err,
}
use botwork.Common.Text.{
  Text, text_iff, bytes, starts_with, strip_prefix, strip_prefix-some, join, join-split,
}
use botwork.Launcher.Validate.{
  new, tenants, bad_request, tenant_re, is_token, is_agent, below, is_staging, valid_staging_path,
  is_agent_dir, valid_agent_dir, normalize_path, safe_path, safe_staging_path, safe_agent_dir,
}
use botwork.Launcher.Validate.Normal.{
  tenant-IsPart, token-IsPart, agent-IsPart, staging_path, agent_path, normalize-staging,
  normalize-agent,
}

-- What lies below the base, put together again.
below-some :
    (base value : Text) (segments : List Text)
    → below base value ≡ some segments
    → value ≡ (base ++ b'/' ∷ []) ++ join b'/' segments
unfolding below
below-some base value segments h = elim (Option-cases (strip_prefix (base ++ b'/' ∷ []) value)) [
  | inl e ↦ ground (arith, e)
  | inr (rest, e) ↦
      ground (arith, e, strip_prefix-some (base ++ b'/' ∷ []) value rest e, join-split b'/' rest)
]

abbrev pub IsStagingPath : Text → Type 0
IsStagingPath value =
    (t : Text) × (token : Text) × (tenant_re t ≡ true)
    × (is_token token ≡ true)
    × (value ≡ staging_path t token)

staging_shape :
    (value : Text) (segments : Option (List Text))
    → below tenants value ≡ segments
    → is_staging segments ≡ true
    → IsStagingPath value
staging_shape value none e h = cc
staging_shape value (some []) e h = cc
staging_shape value (some (t ∷ [])) e h = cc
staging_shape value (some (t ∷ word ∷ [])) e h = cc
staging_shape value (some (t ∷ word ∷ token ∷ [])) e h =
    let same = below-some tenants value (t ∷ word ∷ token ∷ []) e in
    (
      t,
      token,
      ground (arith, h),
      ground (arith, h),
      ground (arith, same, text_iff word (bytes "staging"), h),
    )
staging_shape value (some (t ∷ word ∷ token ∷ more ∷ rest)) e h = cc

abbrev pub IsAgentPath : Text → Type 0
IsAgentPath value =
    (t : Text) × (w : Text) × (agent : Text) × (tenant_re t ≡ true)
    × (tenant_re w ≡ true)
    × (is_agent agent ≡ true)
    × (value ≡ agent_path t w agent)

agent_shape :
    (value : Text) (segments : Option (List Text))
    → below tenants value ≡ segments
    → is_agent_dir segments ≡ true
    → IsAgentPath value
agent_shape value none e h = cc
agent_shape value (some []) e h = cc
agent_shape value (some (t ∷ [])) e h = cc
agent_shape value (some (t ∷ word ∷ [])) e h = cc
agent_shape value (some (t ∷ word ∷ w ∷ [])) e h = cc
agent_shape value (some (t ∷ word ∷ w ∷ word' ∷ [])) e h = cc
agent_shape value (some (t ∷ word ∷ w ∷ word' ∷ agent ∷ [])) e h =
    let same = below-some tenants value (t ∷ word ∷ w ∷ word' ∷ agent ∷ []) e in
    (
      t,
      w,
      agent,
      ground (arith, h),
      ground (arith, h),
      ground (arith, h),
      ground (arith, same, text_iff word (bytes "workspaces"), text_iff word' (bytes "agents"), h),
    )
agent_shape value (some (t ∷ word ∷ w ∷ word' ∷ agent ∷ more ∷ rest)) e h = cc

-- The check on a path that is in its normal form and below the base.
safe_path-ok :
    (valid : Bool) (base message value : Text)
    → (valid ≡ true → normalize_path value ≡ value)
    → (valid ≡ true → starts_with (base ++ b'/' ∷ []) value ≡ true)
    → safe_path valid base message value ≡ (if valid then ok value else err (bad_request message))
safe_path-ok true base message value normal inside = ground (arith, normal refl, inside refl)
safe_path-ok false base message value normal inside = refl

starts_with-append : (p s : Text) → starts_with p (p ++ s) ≡ true
starts_with-append [] s = refl
starts_with-append (c ∷ p) s = ground (arith, starts_with-append p s)

IsStagingPath-normal :
    (value : Text)
    → IsStagingPath value
    → (normalize_path value ≡ value) × (starts_with (tenants ++ b'/' ∷ []) value ≡ true)
IsStagingPath-normal value (t, token, ht, hk, e) =
    (rw (e, normalize-staging t token (tenant-IsPart t ht) (token-IsPart token hk)) refl, rw e refl)

IsAgentPath-normal :
    (value : Text)
    → IsAgentPath value
    → (normalize_path value ≡ value) × (starts_with (tenants ++ b'/' ∷ []) value ≡ true)
IsAgentPath-normal value (t, w, agent, ht, hw, ha, e) = (
  rw
      (
        e,
        normalize-agent t w agent (tenant-IsPart t ht) (tenant-IsPart w hw) (agent-IsPart agent ha),
      )
      refl,
  rw e refl,
)

-- The launcher accepts exactly the staging paths that pass the pattern, all of which have the shape
-- `/var/lib/botwork/tenants/<tenant>/staging/<token>`, and hands them on unchanged: taking `.`,
-- `..` and empty segments out of such a path changes nothing.
pub safe_staging_path_lem :
    (image_re : Text → Bool) (value : Text)
    → let valid = valid_staging_path (new image_re) value in
      (safe_staging_path (new image_re) value
        ≡ (if valid then ok value else err (bad_request (bytes "invalid staging_path"))))
      × ((valid ≡ false) ⊎ IsStagingPath value)
unfolding safe_staging_path valid_staging_path
safe_staging_path_lem image_re value =
    let shape = staging_shape value (below tenants value) refl in
    let valid = is_staging (below tenants value) in
    (
      safe_path-ok valid tenants (bytes "invalid staging_path") value
          (λ h. (IsStagingPath-normal value (shape h)).0)
          (λ h. (IsStagingPath-normal value (shape h)).1),
      false_or valid shape,
    )

-- The launcher accepts exactly the agent directories that pass the pattern, all of which have the
-- shape `/var/lib/botwork/tenants/<tenant>/workspaces/<workspace>/agents/<agent>`, and hands them
-- on unchanged.
pub safe_agent_dir_lem :
    (image_re : Text → Bool) (value : Text)
    → let valid = valid_agent_dir (new image_re) value in
      (safe_agent_dir (new image_re) value
        ≡ (if valid then ok value else err (bad_request (bytes "invalid agent_dir"))))
      × ((valid ≡ false) ⊎ IsAgentPath value)
unfolding safe_agent_dir valid_agent_dir
safe_agent_dir_lem image_re value =
    let shape = agent_shape value (below tenants value) refl in
    let valid = is_agent_dir (below tenants value) in
    (
      safe_path-ok valid tenants (bytes "invalid agent_dir") value
          (λ h. (IsAgentPath-normal value (shape h)).0)
          (λ h. (IsAgentPath-normal value (shape h)).1),
      false_or valid shape,
    )
