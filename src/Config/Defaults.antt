-- ===== src/Config/Defaults.antt =====
-- `Default` of internal/config/schema.go.
use aws_cost_exporter.Base.{
  ℕ, ◌*◌, ◌≤◌, ◌≡◌, ◌==◌, ◌||◌, ltb, refl, true, false, List, [], ◌∷◌, arith, length,
}
use aws_cost_exporter.Base.Keys.{list_same}
use aws_cost_exporter.Base.Int.{pos}
use aws_cost_exporter.Base.Float.{Float64, is_nan, is_inf, float_lt, float_eq}
use aws_cost_exporter.Base.Text.{text, trim_space, is_space}
use aws_cost_exporter.Errors.{ok}
use aws_cost_exporter.Config.Schema.{Duration, ServerConfig, AwsConfig, TargetConfig}
use aws_cost_exporter.Config.Collection.{Config, CollectionConfig}
use aws_cost_exporter.Config.Checks.{
  validate_server, validate_base, server_checks, base_checks, reserved_metrics_path, half, one,
  first_validation_error,
}

abbrev pub seconds : ℕ → Duration
seconds n = pos (n * 1_000_000_000)

abbrev pub minutes : ℕ → Duration
minutes n = pos (n * 60_000_000_000)

abbrev pub hours : ℕ → Duration
hours n = pos (n * 3_600_000_000_000)

-- 0.1 and 2
abbrev pub tenth : Float64
tenth = 0x3fb9_9999_9999_999a

abbrev pub two : Float64
two = 0x4000_0000_0000_0000

abbrev default_server : ServerConfig
default_server = record {
  listen_address = text ":8080";
  metrics_path = text "/metrics";
  read_header_timeout = seconds 5;
  read_timeout = seconds 15;
  write_timeout = seconds 30;
  idle_timeout = minutes 1;
  shutdown_timeout = seconds 15;
  max_in_flight = pos 20;
  debug = record { enabled = false };
}

abbrev default_aws : AwsConfig
default_aws = record {
  region = text "us-east-1";
  credentials = record { sources = [] };
  request_timeout = seconds 30;
  endpoints = record {
    sts = [];
    cost_explorer = [];
    organizations = [];
    budgets = [];
    athena = [];
  };
  retry = record { max_attempts = pos 5; base_delay = seconds 1; max_backoff = seconds 30 };
  rate_limit = record {
    global_requests_per_second = one;
    global_burst = pos 2;
    target_requests_per_second = half;
    target_burst = pos 1;
  };
}

abbrev default_collection : CollectionConfig
default_collection = record {
  refresh_interval = hours 6;
  startup_refresh = true;
  jitter_ratio = tenth;
  max_concurrency = pos 4;
  failure_backoff = record {
    max_attempts = pos 3;
    initial = minutes 1;
    max = minutes 30;
    multiplier = two;
  };
  cost_explorer = record {
    cost_bases = text "unblended" ∷ [];
    max_pages = pos 50;
    prediction_interval = pos 80;
    collectors = record {
      total = true;
      service = true;
      region = true;
      account = true;
      forecast = true;
    };
    dimensions = record {
      series_limit = pos 1000;
      overflow = text "aggregate";
      overflow_label = text "__other__";
    };
  };
  organizations = record {
    refresh_interval = hours 24;
    max_pages = pos 20;
    series_limit = pos 1000;
  };
  budgets = record { refresh_interval = hours 6; max_pages = pos 20; series_limit = pos 100 };
  commitments = record { refresh_interval = hours 24; max_pages = pos 20; series_limit = pos 20 };
  anomalies = record { refresh_interval = hours 6; max_pages = pos 20; series_limit = pos 10 };
  tags = record { refresh_interval = hours 6; max_pages = pos 50; series_limit = pos 500 };
  cur = record {
    refresh_interval = hours 24;
    max_pages = pos 50;
    max_rows = pos 5000;
    max_currencies = pos 1;
    series_limit = pos 2000;
  };
}

-- `Default`
abbrev pub default_config : Config
default_config = record {
  server = default_server;
  log = record { level = text "info"; format = text "json"; add_source = false };
  aws = default_aws;
  targets = [];
  collection = default_collection;
  cache = record { freshness_ttl = hours 12; stale_after = hours 24 };
  telemetry = record { include_go_collector = true; include_process_collector = true };
}

bounded_count : (n : ℕ) → 1 ≤ n → n ≤ 20 → (n == 0 || ltb 20 n) ≡ false
bounded_count n h k = ground arith

-- The defaults pass ValidateServer, and with one to twenty targets, whichever they are, they pass
-- validateBase: only the targets and their credential sources remain to be configured.
default_config-validate_base :
    (targets : List TargetConfig)
    → 1 ≤ length targets
    → length targets ≤ 20
    → (validate_server default_config.server ≡ ok tt)
      × (validate_base (record default_config { targets = targets }) ≡ ok tt)
unfolding validate_server server_checks validate_base base_checks reserved_metrics_path
    first_validation_error trim_space is_space is_nan is_inf float_lt float_eq list_same
default_config-validate_base targets h k = (refl, rw (bounded_count (length targets) h k) refl)
