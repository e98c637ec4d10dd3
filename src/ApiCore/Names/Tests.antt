-- ===== src/ApiCore/Names/Tests.antt =====
-- Both validators on one name.
use botwork.Common.{◌≡◌, nat_eq, list_eq, option_eq}
use botwork.Common.Text.{bytes}
use botwork.AuthBroker.Grammar
use botwork.ApiCore.Names.{validate_tenant_name, validate_workspace_name, validate_plugin_name}
use botwork.ApiCore.Names.Parity.{as_grammar, validators_agree}

validators_agree_example :
    (as_grammar (validate_tenant_name (bytes "Stats"))
      ≡ Grammar.validate_tenant_name (bytes "Stats"))
    × (as_grammar (validate_workspace_name (bytes "Stats"))
        ≡ Grammar.validate_workspace_name (bytes "Stats"))
    × (as_grammar (validate_plugin_name (bytes "Stats"))
        ≡ Grammar.validate_plugin_name (bytes "Stats"))
validators_agree_example = validators_agree (bytes "Stats")
