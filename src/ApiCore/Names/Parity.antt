-- ===== src/ApiCore/Names/Parity.antt =====
-- api-core/src/names.rs beside auth-broker/src/grammar.rs.
use botwork.Common.{
  ◌≡◌, refl, Bool, true, false, not, ◌&&◌, if◌then◌else◌, nat_eq, list_eq, option_eq, Result, ok,
  err,
}
use botwork.Common.{◌>>◌}
use botwork.Common.Text.{Text}
use botwork.AuthBroker.Grammar
use botwork.ApiCore.Names.{
  NameError, invalid, reserved, name_regex, validate_tenant_name, validate_workspace_name,
  validate_plugin_name,
}

-- The same verdict, in the words of the other crate.
abbrev pub as_grammar : Result NameError Unit → Result Grammar.NameError Unit
as_grammar (ok u) = ok u
as_grammar (err invalid) = err Grammar.invalid
as_grammar (err reserved) = err Grammar.reserved

-- Either code over the two tests it makes, and whether reserved names count.
verdicts :
    (format taken : Bool)
    → (as_grammar
          ((if format then ok tt else err invalid) >> (if taken then err reserved else ok tt))
        ≡ (if not format
            then err Grammar.invalid
            else if true && taken
            then err Grammar.reserved
            else ok tt))
      × (as_grammar (if format then ok tt else err invalid) ≡ (
          if not format
          then err Grammar.invalid
          else if false && taken
          then err Grammar.reserved
          else ok tt))
verdicts true true = (refl, refl)
verdicts true false = (refl, refl)
verdicts false taken = (refl, refl)

-- The API and the authorisation filter give every name the same verdict as a tenant, as a
-- workspace and as a plugin.
pub validators_agree :
    (name : Text)
    → (as_grammar (validate_tenant_name name) ≡ Grammar.validate_tenant_name name)
      × (as_grammar (validate_workspace_name name) ≡ Grammar.validate_workspace_name name)
      × (as_grammar (validate_plugin_name name) ≡ Grammar.validate_plugin_name name)
unfolding name_regex Grammar.name_re Grammar.validate_name
validators_agree name =
    let both = verdicts (name_regex name) (Grammar.is_reserved name) in (both.0, both.1, both.1)
