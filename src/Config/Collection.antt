-- ===== src/Config/Collection.antt =====
-- The structs of internal/config/schema.go for the collection, and the whole configuration.
use aws_cost_exporter.Base.{Bool, List}
use aws_cost_exporter.Base.Int.{ℤ}
use aws_cost_exporter.Base.Float.{Float64}
use aws_cost_exporter.Base.Text.{Text}
use aws_cost_exporter.Config.Schema.{Duration, ServerConfig, LogConfig, AwsConfig, TargetConfig}

pub record BackoffConfig : Type 0 where
  pub max_attempts : ℤ
  pub initial : Duration
  pub max : Duration
  pub multiplier : Float64

pub record CollectorsConfig : Type 0 where
  pub total : Bool
  pub service : Bool
  pub region : Bool
  pub account : Bool
  pub forecast : Bool

pub record DimensionsConfig : Type 0 where
  pub series_limit : ℤ
  pub overflow : Text
  pub overflow_label : Text

pub record CollectionCostExplorerConfig : Type 0 where
  pub cost_bases : List Text
  pub max_pages : ℤ
  pub prediction_interval : ℤ
  pub collectors : CollectorsConfig
  pub dimensions : DimensionsConfig

pub record CollectionOrganizationsConfig : Type 0 where
  pub refresh_interval : Duration
  pub max_pages : ℤ
  pub series_limit : ℤ

pub record CollectionBudgetsConfig : Type 0 where
  pub refresh_interval : Duration
  pub max_pages : ℤ
  pub series_limit : ℤ

pub record CollectionCommitmentsConfig : Type 0 where
  pub refresh_interval : Duration
  pub max_pages : ℤ
  pub series_limit : ℤ

pub record CollectionAnomaliesConfig : Type 0 where
  pub refresh_interval : Duration
  pub max_pages : ℤ
  pub series_limit : ℤ

pub record CollectionTagsConfig : Type 0 where
  pub refresh_interval : Duration
  pub max_pages : ℤ
  pub series_limit : ℤ

pub record CollectionCurConfig : Type 0 where
  pub refresh_interval : Duration
  pub max_pages : ℤ
  pub max_rows : ℤ
  pub max_currencies : ℤ
  pub series_limit : ℤ

pub record CollectionConfig : Type 0 where
  pub refresh_interval : Duration
  pub startup_refresh : Bool
  pub jitter_ratio : Float64
  pub max_concurrency : ℤ
  pub failure_backoff : BackoffConfig
  pub cost_explorer : CollectionCostExplorerConfig
  pub organizations : CollectionOrganizationsConfig
  pub budgets : CollectionBudgetsConfig
  pub commitments : CollectionCommitmentsConfig
  pub anomalies : CollectionAnomaliesConfig
  pub tags : CollectionTagsConfig
  pub cur : CollectionCurConfig

pub record CacheConfig : Type 0 where
  pub freshness_ttl : Duration
  pub stale_after : Duration

pub record TelemetryConfig : Type 0 where
  pub include_go_collector : Bool
  pub include_process_collector : Bool

pub record Config : Type 0 where
  pub server : ServerConfig
  pub log : LogConfig
  pub aws : AwsConfig
  pub targets : List TargetConfig
  pub collection : CollectionConfig
  pub cache : CacheConfig
  pub telemetry : TelemetryConfig
