-- ===== src/Config/Targets.antt =====
-- validateTargets of internal/config/validation.go with what it calls for each target, and Validate.
use aws_cost_exporter.Base.{
  ℕ, suc, ◌+◌, ◌*◌, Bool, ◌&&◌, ◌||◌, not, List, [], ◌∷◌, ◌++◌, if◌then◌else◌, ◌=?◌, length, ◌==◌,
  none, some,
}
use aws_cost_exporter.Base.Int.{ℤ, pos, ltb_ℤ}
use aws_cost_exporter.Base.Text.{Text, text, text_same}
use aws_cost_exporter.Base.Dict.{has}
use aws_cost_exporter.Errors.{Result, ok, err, ◌>>=◌, ◌>>◌, fail_if}
use aws_cost_exporter.Snapshot.Validate.{contains}
use aws_cost_exporter.Config.Schema.{TargetConfig, FiltersConfig}
use aws_cost_exporter.Config.Collection.{Config}
use aws_cost_exporter.Config.Patterns.{target_name, account_id_pattern}
use aws_cost_exporter.Config.Checks.{validate_server, validate_base}
use aws_cost_exporter.Config.Strings.{at, at_index, any_text, validate_unique_strings}
use aws_cost_exporter.Config.Credentials.{
  Environment, validate_assume_role, validate_credential_sources,
}
use aws_cost_exporter.Config.Tags.{validate_cur, validate_tags, validate_cur_series_budget}

-- `validateFilters`
unfoldable pub validate_filters : Text → FiltersConfig → Result (Unit {0})
validate_filters path filters = do
  validate_unique_strings (path ++ text ".linked_account_ids") filters.linked_account_ids
      account_id_pattern
  validate_unique_strings (path ++ text ".services") filters.services any_text
  validate_unique_strings (path ++ text ".regions") filters.regions any_text

-- `validateBudgets`
unfoldable pub validate_budgets : Text → TargetConfig → ℤ → Result (Unit {0})
validate_budgets path target limit =
    if not target.budgets.enabled
    then ok tt
    else if length target.budgets.names == 0
    then err (at (path ++ text ".budgets.names"))
    else if ltb_ℤ limit (pos (length target.budgets.names * 3))
    then err (at (path ++ text ".budgets.names"))
    else validate_unique_strings (path ++ text ".budgets.names") target.budgets.names any_text

-- `validateOrganizations`
unfoldable pub validate_organizations : Text → TargetConfig → Config → Result (Unit {0})
validate_organizations path target value =
    let ids = target.organizations.account_ids in
    let here = path ++ text ".organizations.account_ids" in
    let limit = value.collection.organizations.series_limit in
    if not target.organizations.enabled
    then ok tt
    else if length ids == 0
    then if not target.cost_explorer.enabled
        || not value.collection.cost_explorer.collectors.account
      then err (at here)
      else fail_if (ltb_ℤ limit value.collection.cost_explorer.dimensions.series_limit)
          (at (text "collection.organizations.series_limit"))
    else if ltb_ℤ limit (pos (length ids))
    then err (at here)
    else validate_unique_strings here ids account_id_pattern

-- The sets and the count that the loop of `validateTargets` keeps
pub record Seen : Type 0 where
  pub names : List Text
  pub accounts : List Text
  pub roles : List Text
  pub direct_sources : List Text
  pub required_cost_targets : ℕ

abbrev pub integrations : TargetConfig → Bool
integrations t =
    t.cost_explorer.enabled || t.organizations.enabled || t.budgets.enabled || t.commitments.enabled
    || t.anomalies.enabled || t.cur.enabled || t.tags.enabled

-- A direct target, without a role, has its credential source for itself.
unfoldable pub direct_source : Text → TargetConfig → List Text → Result (List Text)
direct_source path target sources = elim target.credentials.assume_role [
  | some role ↦ ok sources
  | none ↦
      if contains sources target.credentials.source
      then err (at (path ++ text ".credentials.source"))
      else ok (target.credentials.source ∷ sources)
]

-- The checks of one target that keep nothing for the next
unfoldable pub validate_settings : Environment → Config → Text → TargetConfig → Result (Unit {0})
validate_settings env value path target = do
  validate_filters (path ++ text ".cost_explorer.filters") target.cost_explorer.filters
  validate_organizations path target value
  validate_budgets path target value.collection.budgets.series_limit
  validate_cur env path target value.aws.request_timeout value.collection.cur.refresh_interval
  validate_tags path target value.collection.tags.series_limit
      (length value.collection.cost_explorer.cost_bases) value.collection.cur.max_currencies
  validate_cur_series_budget target value.collection.cur.series_limit
      (length value.collection.cost_explorer.cost_bases) value.collection.cur.max_currencies

-- The loop body of `validateTargets`
unfoldable pub validate_target : Environment → Config → ℕ → TargetConfig → Seen → Result Seen
unfolding validate_settings direct_source
validate_target env value index target seen = do
  let path = at_index (text "targets") index
  fail_if (not (target_name target.name)) (at (path ++ text ".name"))
  fail_if (contains seen.names target.name) (at (path ++ text ".name"))
  fail_if (not (account_id_pattern target.account_id)) (at (path ++ text ".account_id"))
  fail_if (contains seen.accounts target.account_id) (at (path ++ text ".account_id"))
  fail_if (not (target_name target.credentials.source)) (at (path ++ text ".credentials.source"))
  fail_if (not (has target.credentials.source value.aws.credentials.sources))
      (at (path ++ text ".credentials.source"))
  fail_if (not (integrations target)) (at path)
  fail_if (target.required && not target.cost_explorer.enabled) (at (path ++ text ".required"))
  roles ← validate_assume_role env (path ++ text ".credentials") target seen.roles
  direct_sources ← direct_source path target seen.direct_sources
  validate_settings env value path target
  ok (record {
    names = target.name ∷ seen.names;
    accounts = target.account_id ∷ seen.accounts;
    roles = roles;
    direct_sources = direct_sources;
    required_cost_targets = (if target.required then 1 else 0) + seen.required_cost_targets;
  })

unfoldable pub validate_each : Environment → Config → ℕ → List TargetConfig → Seen → Result Seen
validate_each env value index [] seen = ok seen
validate_each env value index (target ∷ targets) seen = do
  after ← validate_target env value index target seen
  validate_each env value (suc index) targets after

-- The loop of `validateTargets` over the cost bases
unfoldable pub validate_bases : ℕ → List Text → Result (Unit {0})
validate_bases index [] = ok tt
validate_bases index (basis ∷ bases) = do
  fail_if
      (not (basis =? text "unblended")
        && not (basis =? text "amortized")
        && not (basis =? text "net"))
      (at (at_index (text "collection.cost_explorer.cost_bases") index))
  validate_bases (suc index) bases

abbrev pub none_seen : Seen
none_seen = record {
  names = [];
  accounts = [];
  roles = [];
  direct_sources = [];
  required_cost_targets = 0;
}

-- `validateTargets`
unfoldable pub validate_targets : Environment → Config → Result (Unit {0})
validate_targets env value = do
  seen ← validate_each env value 0 value.targets none_seen
  validate_bases 0 value.collection.cost_explorer.cost_bases
  validate_unique_strings (text "collection.cost_explorer.cost_bases")
      value.collection.cost_explorer.cost_bases any_text
  fail_if (seen.required_cost_targets == 0) (at (text "targets"))

-- `Validate`
unfoldable pub validate : Environment → Config → Result (Unit {0})
validate env value = do
  validate_server value.server
  validate_base value
  validate_credential_sources env value.aws.credentials
  validate_targets env value
