-- ===== src/Server/Probes.antt =====
-- The server with its default configuration and one required collector.
use aws_cost_exporter.Base.{◌≡◌, ◌+◌, refl, false, true, [], ◌∷◌, inl, inr, arith}
use aws_cost_exporter.Base.Int.{pos}
use aws_cost_exporter.Base.Keys.{list_same}
use aws_cost_exporter.Base.Text.{text, trim_space, is_space}
use aws_cost_exporter.Domain.Identity.{CollectorId, is_valid}
use aws_cost_exporter.Errors.{ok}
use aws_cost_exporter.Snapshot.{no_snapshot}
use aws_cost_exporter.Cache.{Store, load}
use aws_cost_exporter.Cache.Age.{unset}
use aws_cost_exporter.Config.Checks.{
  validate_server, first_validation_error, server_checks, reserved_metrics_path,
}
use aws_cost_exporter.Config.Defaults.{default_config}
use aws_cost_exporter.Server.Response.{Library, Info, write_header}
use aws_cost_exporter.Server.Routes.{Server, new, check_required}
use aws_cost_exporter.Server.Probe.{new-probe, new-methods, Probed, Answers}
use aws_cost_exporter.Samples.{prod, collector, noon}

-- Stand-ins that write a code, and a body where one is asked for.
abbrev library : Library
library = record {
  metrics = λ timeout in_flight request w. write_header 200 w;
  not_found = λ request w. write_header 404 w;
  error_response = λ message code w. write_header code w;
  status_text = λ code. [];
  profile = λ request w. w;
  symbol = λ request w. w;
  trace = λ request w. w;
  profiles = λ request w. w;
  encode_status = λ payload. payload.status;
  encode_info = λ info. info.version;
}

abbrev sample_build : Info
sample_build = record {
  version = text "dev";
  revision = text "unknown";
  build_date = text "unknown";
  go_version = text "go";
}

abbrev total_collector : CollectorId
total_collector = collector prod (text "total")

abbrev server : Server
server = record {
  config = default_config.server;
  required = total_collector ∷ [];
  build_info = sample_build;
  draining = false;
}

abbrev store : Store
store = record {
  freshness_ttl = pos 10;
  stale_after = pos 20;
  policies = [];
  current = record {
    snapshot = no_snapshot;
    parts = [];
    statuses =
        (
          total_collector,
          record {
            last_attempt = noon;
            last_success = noon;
            up = true;
            freshness = unset;
            series = 0;
          },
        )
        ∷ [];
  };
}

started : new false false default_config.server (total_collector ∷ []) sample_build ≡ ok server
unfolding new check_required validate_server first_validation_error server_checks
    reserved_metrics_path trim_space is_space is_valid list_same
started = refl

new-probe_example : Probed library server (total_collector ∷ []) store (noon + 20) (text "GET")
new-probe_example =
    new-probe library false false default_config.server (total_collector ∷ []) sample_build server
      store (noon + 20) (text "GET") started (ground arith) (inl refl)

new-methods_example : Answers library server (load store noon) (text "POST") (text "/ready")
new-methods_example =
    new-methods library false false default_config.server (total_collector ∷ []) sample_build server
      (load store noon) (text "/ready") (text "POST") started (inr (inl refl))
