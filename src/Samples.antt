-- ===== src/Samples.antt =====
-- Values on which the examples run the model.
use mathlib.Core.List.Perm
use aws_cost_exporter.Base.{true, false, none, ◌*◌, ◌+◌, List, [], ◌∷◌}
use aws_cost_exporter.Base.Int.{pos}
use aws_cost_exporter.Base.Text.{Text, text}
use aws_cost_exporter.Base.Float.{Float64}
use aws_cost_exporter.Domain.Identity.{TargetId, CollectorId}
use aws_cost_exporter.Domain.Money.{Money}
use aws_cost_exporter.Domain.Period.{Time, day_length}
use aws_cost_exporter.Domain.Dimension.{
  dimension_account, dimension_total, provider_cost_explorer, unblended,
}
use aws_cost_exporter.Domain.Cost.{Cost, daily}
use aws_cost_exporter.Domain.Records.{Account}
use aws_cost_exporter.Snapshot.{Snapshot, no_snapshot}
use aws_cost_exporter.Cache.Policy.{MapOrder}
use aws_cost_exporter.Config.Schema.{TargetConfig, CredentialSourceConfig}
use aws_cost_exporter.Config.Collection.{Config}
use aws_cost_exporter.Config.Credentials.{Environment}
use aws_cost_exporter.Config.Defaults.{default_config}

abbrev pub one : Float64
one = 0x3ff0_0000_0000_0000

abbrev pub two : Float64
two = 0x4000_0000_0000_0000

abbrev pub usd : Float64 → Money
usd amount = record { amount = amount; currency = text "USD" }

abbrev pub prod : TargetId
prod = text "prod"

abbrev pub dev : TargetId
dev = text "dev"

abbrev pub first_account : Text
first_account = text "111122223333"

abbrev pub second_account : Text
second_account = text "222233334444"

-- 15 February 2026, at noon
abbrev pub noon : Time
noon = 739_661 * day_length + 43_200_000_000_000

abbrev pub account_total : TargetId → Text → Float64 → Cost
account_total target account amount = record {
  target = target;
  provider = provider_cost_explorer;
  basis = unblended;
  window = daily;
  period = record { start = 739_661 * day_length; end = 739_662 * day_length };
  dimension = record { kind = dimension_account; value = account };
  amount = usd amount;
}

abbrev pub total : TargetId → Float64 → Cost
total target amount = record (account_total target first_account amount) {
  dimension = record { kind = dimension_total; value = [] };
}

abbrev pub account : TargetId → Text → Account
account target id = record {
  target = target;
  account_id = id;
  name = text "workload";
  status = text "ACTIVE";
}

abbrev pub costs_of : List Cost → Snapshot
costs_of costs = record no_snapshot { costs = costs }

abbrev pub accounts_of : List Account → Snapshot
accounts_of accounts = record no_snapshot { accounts = accounts }

abbrev pub collector : TargetId → Text → CollectorId
collector target name = record { target = target; name = name }

abbrev pub prod_costs : Snapshot
prod_costs =
    costs_of (account_total prod second_account one ∷ account_total prod first_account two ∷ [])

abbrev pub prod_accounts : Snapshot
prod_accounts = accounts_of (account prod second_account ∷ account prod first_account ∷ [])

abbrev pub dev_costs : Snapshot
dev_costs = costs_of (total dev one ∷ [])

abbrev pub bare_environment : Environment
bare_environment = record { lookup_env = λ _. none; parse_url = λ _. none; is_ip = λ _. false }

-- A target of its own, with Cost Explorer and two accounts of its organization
abbrev pub prod_target : TargetConfig
prod_target = record {
  name = prod;
  account_id = first_account;
  required = true;
  credentials = record { source = text "main"; assume_role = none };
  cost_explorer = record {
    enabled = true;
    filters = record { linked_account_ids = first_account ∷ []; services = []; regions = [] };
  };
  organizations = record { enabled = true; account_ids = first_account ∷ second_account ∷ [] };
  budgets = record { enabled = true; names = text "monthly" ∷ [] };
  commitments = record { enabled = false };
  anomalies = record { enabled = false };
  cur = record {
    enabled = false;
    region = [];
    database = [];
    table = [];
    workgroup = [];
    output_location = [];
    query_timeout = pos 0;
    poll_interval = pos 0;
    tag_columns = [];
  };
  tags = record { enabled = true; keys = record { key = text "team"; max_values = pos 50 } ∷ [] };
}

abbrev pub dev_target : TargetConfig
dev_target = record prod_target {
  name = dev;
  account_id = second_account;
  required = false;
  credentials = record { source = text "other"; assume_role = none };
}

abbrev pub source : CredentialSourceConfig
source = record {
  type = text "default_chain";
  profile = [];
  access_key_id_env = [];
  secret_access_key_env = [];
  session_token_env = [];
}

abbrev pub config : Config
config = record default_config {
  aws = record default_config.aws {
    credentials = record { sources = (text "main", source) ∷ (text "other", source) ∷ [] };
  };
  targets = prod_target ∷ dev_target ∷ [];
}

-- A range that goes along the list
abbrev pub in_order : MapOrder
in_order = record { visit = λ parts. parts; same_entries = λ parts. Perm.refl parts }
