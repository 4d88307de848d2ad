-- ===== src/Config/Schema.antt =====
-- The structs of internal/config/schema.go for the server, the AWS access and the targets.
use aws_cost_exporter.Base.{Bool, List, Option}
use aws_cost_exporter.Base.Int.{ℤ}
use aws_cost_exporter.Base.Float.{Float64}
use aws_cost_exporter.Base.Text.{Text}
use aws_cost_exporter.Base.Dict.{Dict}

-- `time.Duration`, in nanoseconds
abbrev pub Duration : Type 0
Duration = ℤ

pub record DebugConfig : Type 0 where
  pub enabled : Bool

pub record ServerConfig : Type 0 where
  pub listen_address : Text
  pub metrics_path : Text
  pub read_header_timeout : Duration
  pub read_timeout : Duration
  pub write_timeout : Duration
  pub idle_timeout : Duration
  pub shutdown_timeout : Duration
  pub max_in_flight : ℤ
  pub debug : DebugConfig

pub record LogConfig : Type 0 where
  pub level : Text
  pub format : Text
  pub add_source : Bool

pub record CredentialSourceConfig : Type 0 where
  pub type : Text
  pub profile : Text
  pub access_key_id_env : Text
  pub secret_access_key_env : Text
  pub session_token_env : Text

pub record CredentialsConfig : Type 0 where
  pub sources : Dict Text CredentialSourceConfig

pub record EndpointsConfig : Type 0 where
  pub sts : Text
  pub cost_explorer : Text
  pub organizations : Text
  pub budgets : Text
  pub athena : Text

pub record RetryConfig : Type 0 where
  pub max_attempts : ℤ
  pub base_delay : Duration
  pub max_backoff : Duration

pub record RateLimitConfig : Type 0 where
  pub global_requests_per_second : Float64
  pub global_burst : ℤ
  pub target_requests_per_second : Float64
  pub target_burst : ℤ

pub record AwsConfig : Type 0 where
  pub region : Text
  pub credentials : CredentialsConfig
  pub request_timeout : Duration
  pub endpoints : EndpointsConfig
  pub retry : RetryConfig
  pub rate_limit : RateLimitConfig

pub record AssumeRoleConfig : Type 0 where
  pub role_arn : Text
  pub external_id_env : Text
  pub session_name : Text

pub record TargetCredentialsConfig : Type 0 where
  pub source : Text
  pub assume_role : Option AssumeRoleConfig

pub record FiltersConfig : Type 0 where
  pub linked_account_ids : List Text
  pub services : List Text
  pub regions : List Text

pub record TargetCostExplorerConfig : Type 0 where
  pub enabled : Bool
  pub filters : FiltersConfig

pub record TargetOrganizationsConfig : Type 0 where
  pub enabled : Bool
  pub account_ids : List Text

pub record TargetBudgetsConfig : Type 0 where
  pub enabled : Bool
  pub names : List Text

pub record TargetCommitmentsConfig : Type 0 where
  pub enabled : Bool

pub record TargetAnomaliesConfig : Type 0 where
  pub enabled : Bool

pub record CurTagColumn : Type 0 where
  pub key : Text
  pub column : Text

pub record TargetCurConfig : Type 0 where
  pub enabled : Bool
  pub region : Text
  pub database : Text
  pub table : Text
  pub workgroup : Text
  pub output_location : Text
  pub query_timeout : Duration
  pub poll_interval : Duration
  pub tag_columns : List CurTagColumn

pub record TagKeyConfig : Type 0 where
  pub key : Text
  pub max_values : ℤ

pub record TargetTagsConfig : Type 0 where
  pub enabled : Bool
  pub keys : List TagKeyConfig

pub record TargetConfig : Type 0 where
  pub name : Text
  pub account_id : Text
  pub required : Bool
  pub credentials : TargetCredentialsConfig
  pub cost_explorer : TargetCostExplorerConfig
  pub organizations : TargetOrganizationsConfig
  pub budgets : TargetBudgetsConfig
  pub commitments : TargetCommitmentsConfig
  pub anomalies : TargetAnomaliesConfig
  pub cur : TargetCurConfig
  pub tags : TargetTagsConfig
