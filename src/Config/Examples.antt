-- ===== src/Config/Examples.antt =====
-- The validation of internal/config on a configuration with two targets.
use aws_cost_exporter.Base.{◌≡◌, refl, true, false, map, All, Any}
use aws_cost_exporter.Base.Keys.{list_same}
use aws_cost_exporter.Base.Dict.{has, find}
use aws_cost_exporter.Base.Float.{is_nan, is_inf, float_lt, float_eq}
use aws_cost_exporter.Base.Text.{Text, trim_space, is_empty, is_space}
use aws_cost_exporter.Domain.Identity.{is_valid}
use aws_cost_exporter.Errors.{ok}
use aws_cost_exporter.Snapshot.Validate.{contains}
use aws_cost_exporter.Snapshot.Labels.{Distinct}
use aws_cost_exporter.Config.Patterns.{target_name, account_id_pattern}
use aws_cost_exporter.Config.Checks.{
  validate_server, validate_base, server_checks, base_checks, reserved_metrics_path,
  first_validation_error,
}
use aws_cost_exporter.Config.Strings.{unique_strings, validate_unique_strings}
use aws_cost_exporter.Config.Credentials.{
  validate_credential_sources, validate_sources, validate_source, validate_default_chain,
  validate_assume_role,
}
use aws_cost_exporter.Config.Tags.{
  validate_cur, validate_tags, validate_enabled_tags, validate_keys, validate_cur_series_budget,
}
use aws_cost_exporter.Config.Targets.{
  validate, validate_targets, validate_each, validate_target, direct_source, validate_settings,
  validate_filters, validate_organizations, validate_budgets, validate_bases,
}
use aws_cost_exporter.Config.Names.{validate-names}
use aws_cost_exporter.Samples.{config, bare_environment}

pub config_accepted : validate bare_environment config ≡ ok tt
unfolding validate validate_server server_checks validate_base base_checks reserved_metrics_path
    first_validation_error trim_space is_space is_nan is_inf float_lt float_eq list_same
    validate_credential_sources validate_sources validate_source validate_default_chain
    validate_targets validate_each validate_target target_name account_id_pattern contains has find
    validate_assume_role direct_source validate_settings validate_filters validate_organizations
    validate_budgets validate_cur validate_tags validate_enabled_tags validate_keys
    validate_cur_series_budget validate_bases validate_unique_strings unique_strings
config_accepted = refl

validate-names_example :
    Distinct (map (λ t. t.name) config.targets)
    × Distinct (map (λ t. t.account_id) config.targets)
    × All
        (λ t.
          (name : Text)
          → trim_space name ≡ name
          → is_empty name ≡ false
          → is_valid (record { target = t.name; name = name }) ≡ true)
        config.targets
    × Any (λ t. (t.required ≡ true) × (t.cost_explorer.enabled ≡ true)) config.targets
validate-names_example = validate-names bare_environment config config_accepted
