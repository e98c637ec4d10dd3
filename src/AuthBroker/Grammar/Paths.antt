-- ===== src/AuthBroker/Grammar/Paths.antt =====
-- Which paths name a tenant, and which tenant (auth-broker/src/grammar.rs).
use botwork.Common.{
  ◌≡◌, refl, ◌↔◌, ◌⊎◌, inl, inr, Bool, true, false, not, ◌&&◌, ◌||◌, Option, none, some, List, [],
  ◌∷◌, ◌++◌, arith, eqb, on_branches, is_empty, all, any, ◌==◌, nat_eq, list_eq, option_eq, Result,
  ok, err,
}
use botwork.Common.Text.{
  is_piece, split-pieces, split-append, Text, text_iff, bytes, starts_with, trim_start_matches,
  split, non_empty,
}
use botwork.AuthBroker.Grammar.{
  NameError, reserved, ParsedPath, api_auth_login, api_auth_protected, api, spa, mcp, is_name_byte,
  name_re, validate_name, validate_tenant_name, validate_workspace_name, validate_plugin_name,
  segments_of, api_tenant, api_path, is_ok, tenant_path, parse_original_path,
}

name_is_piece : (s : Text) → all is_name_byte s ≡ true → is_piece b'/' s ≡ true
name_is_piece [] h = refl
name_is_piece (c ∷ s) h = ground (arith, name_is_piece s)

starts_with-append :
    (w u t r : Text)
    → all is_name_byte w ≡ true
    → all is_name_byte t ≡ true
    → starts_with (w ++ b'/' ∷ u) (t ++ b'/' ∷ r) ≡ ((w == t) && starts_with u r)
starts_with-append [] u [] r h g = ground arith
starts_with-append [] u (c ∷ t) r h g = ground arith
starts_with-append (d ∷ w) u [] r h g = ground arith
starts_with-append (d ∷ w) u (c ∷ t) r h g = ground (arith, starts_with-append w u t r)

any_slash : (t r : Text) → any (eqb b'/') (t ++ b'/' ∷ r) ≡ true
any_slash [] r = refl
any_slash (c ∷ t) r = ground (arith, any_slash t r)

name_bytes :
    (name : Text) (checks_reserved : Bool)
    → validate_name name checks_reserved ≡ ok tt
    → (all is_name_byte name ≡ true) × (is_empty name ≡ false)
unfolding validate_name name_re
name_bytes [] r h = ground arith
name_bytes (c ∷ name) r h = ground arith

api_refused : validate_tenant_name (bytes "api") ≡ err reserved
unfolding validate_name name_re
api_refused = refl

not_api : (t : Text) → validate_tenant_name t ≡ ok tt → (bytes "api" == t) ≡ false
not_api t h = ground (arith, text_iff (bytes "api") t, api_refused)

-- A text that starts otherwise is another text.
starts_otherwise :
    (p s x : Text) → starts_with p s ≡ false → starts_with p x ≡ true → (s == x) ≡ false
starts_otherwise p s x h g = ground (arith, text_iff s x)

not_under_api :
    (t r u : Text)
    → validate_tenant_name t ≡ ok tt
    → starts_with (bytes "/api/" ++ u) (b'/' ∷ t ++ b'/' ∷ r) ≡ false
not_under_api t r u h =
    rw (starts_with-append (bytes "api") u t r refl (name_bytes t true h).0, not_api t h) refl

slash_not_api : (t r : Text) → (t ++ b'/' ∷ r) == bytes "api" ≡ false
slash_not_api t r = ground (arith, text_iff (t ++ b'/' ∷ r) (bytes "api"), any_slash t r)

-- A tenant's path is outside `/api`.
outside_api :
    (t r : Text)
    → validate_tenant_name t ≡ ok tt
    → parse_original_path (b'/' ∷ t ++ b'/' ∷ r) ≡ tenant_path (segments_of (b'/' ∷ t ++ b'/' ∷ r))
unfolding parse_original_path
outside_api t r h =
    let path = b'/' ∷ t ++ b'/' ∷ r in
    let outside = not_under_api t r [] h in
    rw
      (
        starts_otherwise (bytes "/api/") path (bytes "/api/auth/login") outside refl,
        not_under_api t r (bytes "auth/login/") h,
        starts_otherwise (bytes "/api/") path (bytes "/api/auth") outside refl,
        not_under_api t r (bytes "auth/") h,
        outside,
        slash_not_api t r,
      )
      refl

segments-append :
    (s rest : Text) (checks_reserved : Bool)
    → validate_name s checks_reserved ≡ ok tt
    → segments_of (s ++ b'/' ∷ rest) ≡ s ∷ segments_of rest
segments-append s rest checks_reserved h =
    let (bytes_ok, full) = name_bytes s checks_reserved h in
    rw (split-append b'/' s rest (name_is_piece s bytes_ok))
      (non_empty-cons s (split b'/' rest) full)
  where
    non_empty-cons :
        (s : Text) (pieces : List Text)
        → is_empty s ≡ false
        → non_empty (s ∷ pieces) ≡ s ∷ non_empty pieces
    non_empty-cons [] pieces h = cc
    non_empty-cons (c ∷ s) pieces h = refl

segments-slash : (s : Text) → segments_of (b'/' ∷ s) ≡ segments_of s
unfolding split
segments-slash s = let (piece, pieces, h) = split-pieces b'/' s in rw h refl

abbrev pub mcp_path : Text → Text → Text → Text → Text
mcp_path t n p rest = b'/' ∷ (t ++ (b'/' ∷ (n ++ (b'/' ∷ (p ++ (b'/' ∷ rest))))))

-- A path `/tenant/workspace/plugin/...` of valid names is read as these three names, whatever
-- follows.
pub parse-mcp_path :
    (t n p rest : Text)
    → validate_tenant_name t ≡ ok tt
    → validate_workspace_name n ≡ ok tt
    → validate_plugin_name p ≡ ok tt
    → parse_original_path (mcp_path t n p rest) ≡ some (mcp t n p)
parse-mcp_path t n p rest ht hn hp =
    let after_p = b'/' ∷ rest in
    let after_n = b'/' ∷ (p ++ after_p) in
    rw
      (
        outside_api t (n ++ after_n) ht,
        segments-slash (t ++ b'/' ∷ (n ++ after_n)),
        segments-append t (n ++ after_n) true ht,
        segments-append n (p ++ after_p) false hn,
        segments-append p rest false hp,
        ht,
        hn,
        hp,
      )
      refl

-- What a parsed path promises of the names it carries.
abbrev pub NamesAreValid : ParsedPath → Type 0
NamesAreValid api_auth_login = Unit
NamesAreValid api_auth_protected = Unit
NamesAreValid (api none) = Unit
NamesAreValid (api (some t)) = validate_tenant_name t ≡ ok tt
NamesAreValid (spa t) = validate_tenant_name t ≡ ok tt
NamesAreValid (mcp t n p) =
    (validate_tenant_name t ≡ ok tt)
    × (validate_workspace_name n ≡ ok tt)
    × (validate_plugin_name p ≡ ok tt)

is_ok_iff : (r : Result NameError Unit) → (is_ok r ≡ true) ↔ (r ≡ ok tt)
is_ok_iff (ok u) = ground arith
is_ok_iff (err e) = ground arith

tenant_path-names :
    (segments : List Text) (parsed : ParsedPath)
    → tenant_path segments ≡ some parsed
    → NamesAreValid parsed
tenant_path-names [] parsed h = cc
tenant_path-names (t ∷ []) parsed h = ground (arith, is_ok_iff (validate_tenant_name t))
tenant_path-names (t ∷ n ∷ []) parsed h = cc
tenant_path-names (t ∷ n ∷ p ∷ rest) parsed h = ground (
  arith,
  is_ok_iff (validate_tenant_name t),
  is_ok_iff (validate_workspace_name n),
  is_ok_iff (validate_plugin_name p),
)

api_tenant-names :
    (segments : List Text) (parsed : ParsedPath)
    → api_tenant segments ≡ some parsed
    → NamesAreValid parsed
api_tenant-names [] parsed h = ground arith
api_tenant-names (w ∷ []) parsed h = ground arith
api_tenant-names (w ∷ t ∷ rest) parsed h = ground (arith, is_ok_iff (validate_tenant_name t))

api_path-names :
    (segments : List Text) (parsed : ParsedPath)
    → api_path segments ≡ some parsed
    → NamesAreValid parsed
api_path-names [] parsed h = cc
api_path-names (first ∷ segments) parsed h = api_tenant-names segments parsed h

-- Whatever path is parsed, each tenant, workspace and plugin name in the result is valid in its
-- own grammar, so that no reserved tenant name comes out.
pub parse-NamesAreValid :
    (path : Text) (parsed : ParsedPath)
    → parse_original_path path ≡ some parsed
    → NamesAreValid parsed
unfolding parse_original_path
parse-NamesAreValid path parsed =
    let Valid = λ (o : Option ParsedPath). o ≡ some parsed → NamesAreValid parsed in
    on_branches Valid
      (path == bytes "/api/auth/login" || starts_with (bytes "/api/auth/login/") path)
      (λ h. ground arith)
      (on_branches Valid (path == bytes "/api/auth") (λ h. cc)
        (on_branches Valid (starts_with (bytes "/api/auth/") path)
          (on_branches Valid (not (is_empty (trim_start_matches (bytes "/api/auth/") path)))
            (λ h. ground arith) (λ h. cc))
          (on_branches Valid (path == bytes "/api" || starts_with (bytes "/api/") path)
            (api_path-names (segments_of path) parsed)
            (tenant_path-names (segments_of path) parsed))))

-- A path under `/api/auth/` is the login, a protected call or refused: it never names a tenant.
pub auth_path_lem :
    (path : Text)
    → starts_with (bytes "/api/auth/") path ≡ true
    → (parse_original_path path ≡ some api_auth_login)
      ⊎ ((parse_original_path path ≡ some api_auth_protected) ⊎ (parse_original_path path ≡ none))
unfolding parse_original_path
auth_path_lem path h =
    let Closed = λ (o : Option ParsedPath).
      (o ≡ some api_auth_login) ⊎ ((o ≡ some api_auth_protected) ⊎ (o ≡ none)) in
    rw h (
      on_branches Closed
        (path == bytes "/api/auth/login" || starts_with (bytes "/api/auth/login/") path) (inl refl)
        (on_branches Closed (path == bytes "/api/auth") (inr (inr refl)) (
          on_branches Closed (not (is_empty (trim_start_matches (bytes "/api/auth/") path)))
            (inr (inl refl)) (inr (inr refl)))))
