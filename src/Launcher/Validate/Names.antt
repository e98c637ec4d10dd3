-- ===== src/Launcher/Validate/Names.antt =====
-- The names of the launcher beside those of control-plane/src/handler.rs and
-- auth-broker/src/grammar.rs.
use botwork.Common.{
  ℕ, ◌≡◌, refl, ◌⊎◌, inl, inr, Bool, true, false, ◌||◌, [], ◌∷◌, arith, false_or, Option-cases, all,
  nat_eq, list_eq, option_eq, ok,
}
use botwork.Common.Text.{Text, bytes, is_lower, is_digit, strip_prefix}
use botwork.AuthBroker.Grammar.{is_name_byte, name_re, validate_workspace_name, validate_name}
use botwork.ControlPlane.Handler
use botwork.Launcher.Validate.{tenant_re, is_tenant_byte, is_hex, valid_name}

implied_bytes :
    (p q : ℕ → Bool) (s : Text)
    → ((c : ℕ) → p c ≡ true → q c ≡ true)
    → all p s ≡ true
    → all q s ≡ true
implied_bytes p q [] f h = refl
implied_bytes p q (c ∷ s) f h = ground (arith, f c, implied_bytes p q s f)

-- The launcher and the control plane take the same texts for tenants and workspaces.
tenant_re_agrees : (s : Text) → tenant_re s ≡ Handler.valid_name s
unfolding Handler.valid_name
tenant_re_agrees [] = refl
tenant_re_agrees (c ∷ s) = refl

tenant_is_name : (s : Text) → tenant_re s ≡ true → validate_workspace_name s ≡ ok tt
unfolding validate_name name_re
tenant_is_name [] h = cc
tenant_is_name (c ∷ s) h =
    ground (arith, implied_bytes is_tenant_byte is_name_byte s (λ d g. ground arith))

token_is_session : (s : Text) → valid_name s ≡ true → Handler.valid_session_id s ≡ true
unfolding Handler.valid_session_id
token_is_session s h = elim (Option-cases (strip_prefix (bytes "mcp_session_") s)) [
  | inl e ↦ ground (arith, e)
  | inr ([], e) ↦ ground (arith, e)
  | inr (c ∷ token, e) ↦
      ground
        (arith, e, implied_bytes is_hex (λ d. is_lower d || is_digit d) token (λ d g. ground arith))
]

-- The launcher's tenant names are those of the control plane, and each is a valid workspace name
-- for the authorisation filter. A container name that the launcher accepts is a session id that the
-- control plane accepts.
pub names_agree :
    (s : Text)
    → (tenant_re s ≡ Handler.valid_name s)
      × ((tenant_re s ≡ false) ⊎ (validate_workspace_name s ≡ ok tt))
      × ((valid_name s ≡ false) ⊎ (Handler.valid_session_id s ≡ true))
names_agree s = (
  tenant_re_agrees s,
  false_or (tenant_re s) (tenant_is_name s),
  false_or (valid_name s) (token_is_session s),
)
