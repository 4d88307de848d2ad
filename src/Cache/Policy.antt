-- ===== src/Cache/Policy.antt =====
-- The organization policies of internal/cache/memory/store.go, and mergeParts, which bounds the
-- account metadata that is published.
use mathlib.Core.List.{Perm}
use aws_cost_exporter.Base.{
  ℕ, ◌+◌, ◌==◌, Bool, false, ◌&&◌, ◌||◌, not, List, [], ◌∷◌, ◌++◌, map, if◌then◌else◌, ◌=?◌, leb,
  every,
}
use aws_cost_exporter.Base.Int.{ℤ, pos, leb_ℤ, ltb_ℤ}
use aws_cost_exporter.Base.Text.{Text, text_same, is_empty, byte_length}
use aws_cost_exporter.Base.Dict.{Dict, find, find_or, put}
use aws_cost_exporter.Domain.Identity.{TargetId, CollectorId}
use aws_cost_exporter.Domain.Dimension.{dimension_account}
use aws_cost_exporter.Domain.Cost.{Cost}
use aws_cost_exporter.Domain.Records.{Account}
use aws_cost_exporter.Errors.{
  Result, ok, ◌>>◌, fail_if, invalid_cache_config, organization_series_limit,
}
use aws_cost_exporter.Snapshot.{Snapshot, merge, new_with_data}
use aws_cost_exporter.Snapshot.Validate.{validate_unique, contains}
use mathlib.Core.Option.{none, some}

-- OrganizationPolicy
pub record Policy : Type 0 where
  pub account_ids : List Text
  pub series_limit : ℤ

-- The map `organizationPolicies`
abbrev pub Policies : Type 0
Policies = Dict TargetId Policy

unfoldable pub install : Policies → Policies → Result Policies
install [] installed = ok installed
install ((target, policy) ∷ values) installed = do
  fail_if (is_empty target || leb_ℤ policy.series_limit (pos 0)) invalid_cache_config
  install values (put target policy installed)

-- WithOrganizationPolicies
unfoldable pub with_organization_policies : Policies → Result Policies
with_organization_policies values = install values []

-- `accountID`
unfoldable pub is_account_id : Text → Bool
is_account_id value =
    byte_length value == 12 && every (λ digit. leb b'0' digit && leb digit b'9') value

-- A map to sets of texts, which are lists.
abbrev pub Sets : Type 0
Sets = Dict TargetId (List Text)

-- The account IDs for which a target reports costs.
unfoldable pub observe : List Cost → Sets → Sets
observe [] observed = observed
observe (c ∷ cs) observed = observe cs (
    if not (c.dimension.kind =? dimension_account) || not (is_account_id c.dimension.value)
    then observed
    else put c.target (c.dimension.value ∷ find_or [] c.target observed) observed)

-- The account IDs that each target may publish.
unfoldable pub allow : Policies → Sets → Sets → Sets
allow [] observed allowed = allowed
allow ((target, policy) ∷ policies) observed allowed = allow policies observed (
    put target (elim policy.account_ids [ [] ↦ find_or [] target observed | id ∷ ids ↦ id ∷ ids ])
      allowed)

pub record Chosen : Type 0 where
  pub selected : List Account
  pub counts : Dict TargetId ℕ

-- `set, configured := allowed[target]` and `_, include := set[id]`
unfoldable pub included : Sets → Account → Bool
included allowed a = elim (find a.target allowed) [
  | none ↦ false
  | some set ↦ contains set a.account_id
]

unfoldable pub choose_one : Sets → Account → Chosen → Chosen
unfolding included
choose_one allowed a chosen =
    if included allowed a
    then record {
      selected = chosen.selected ++ a ∷ [];
      counts = put a.target (find_or 0 a.target chosen.counts + 1) chosen.counts;
    }
    else chosen

unfoldable pub choose : Sets → List Account → Chosen → Chosen
choose allowed [] chosen = chosen
choose allowed (a ∷ rest) chosen = choose allowed rest (choose_one allowed a chosen)

abbrev pub no_policy : Policy
no_policy = record { account_ids = []; series_limit = pos 0 }

-- Does a count exceed the limit of its target?
unfoldable pub exceeded : Policies → Dict TargetId ℕ → Bool
exceeded policies [] = false
exceeded policies ((target, count) ∷ counts) =
    ltb_ℤ (find_or no_policy target policies).series_limit (pos count) || exceeded policies counts

-- What of the accounts of a merged snapshot may be published.
unfoldable pub chosen_accounts : Policies → Snapshot → Chosen
chosen_accounts policies merged =
    choose (allow policies (observe merged.costs []) []) merged.accounts
      (record { selected = []; counts = [] })

-- `mergeParts`, from the merged snapshot on
unfoldable pub bound_accounts : Policies → Snapshot → Result Snapshot
bound_accounts [] merged = ok merged
bound_accounts (p ∷ ps) merged = do
  let chosen = chosen_accounts (p ∷ ps) merged
  fail_if (exceeded (p ∷ ps) chosen.counts) organization_series_limit
  let result = new_with_data (record merged { accounts = chosen.selected })
  validate_unique result
  ok result

-- The order in which one range over the map of the parts goes, which Go chooses anew each time
pub record MapOrder : Type 0 where
  pub visit : Dict CollectorId Snapshot → Dict CollectorId Snapshot
  pub same_entries : (parts : Dict CollectorId Snapshot) → Perm (visit parts) parts

-- `mergeParts`, of the parts in the order in which its range visits them
unfoldable pub merge_parts : Policies → Dict CollectorId Snapshot → Result Snapshot
merge_parts policies parts = do
  let merged = merge (map (λ part. part.1) parts)
  validate_unique merged
  bound_accounts policies merged
