-- ===== src/App/Examples.antt =====
-- A start with a configuration of two targets.
use aws_cost_exporter.Base.{List, refl, inl, ◌≡◌, true, false, [], ◌∷◌, arith, some}
use aws_cost_exporter.Base.Int.{pos}
use aws_cost_exporter.Base.Text.{text}
use aws_cost_exporter.Errors.{ok}
use aws_cost_exporter.Cache.{Store, new}
use aws_cost_exporter.Config.Examples.{config_accepted}
use aws_cost_exporter.Scheduler.Jobs.{Job, refused}
use aws_cost_exporter.App.{organization_policies, runner_config}
use aws_cost_exporter.App.Startup.{validate-new, validate-refused}
use aws_cost_exporter.Base.Float.{Float64}
use aws_cost_exporter.Domain.Records.{TagCost}
use aws_cost_exporter.Domain.Cost.{daily}
use aws_cost_exporter.Domain.Dimension.{provider_cost_explorer, unblended}
use aws_cost_exporter.Collector.Tags.{TagReader, TagCollector, new_tags, collect_tags}
use aws_cost_exporter.App.TagSeries.{tag_collector, all_collected, validate-all_collected}
use aws_cost_exporter.Samples.{
  prod_target, noon, usd, one, config, bare_environment, prod, collector,
}

validate-new_example :
    (store : Store) × (new config.cache.freshness_ttl config.cache.stale_after
        (organization_policies config ∷ [])
      ≡ ok store)
validate-new_example = validate-new bare_environment config config_accepted

abbrev job : Job
job = record {
  collector = some (collector prod (text "total"));
  interval = pos 1;
  startup_refresh = true;
}

validate-refused_example : refused (job ∷ []) (runner_config config) ≡ false
validate-refused_example =
    validate-refused bare_environment config (job ∷ []) config_accepted (omega arith)

abbrev plus : Float64 → Float64 → Float64
plus a b = a

-- A reader that finds a value of the tag in every query
abbrev rows : List TagCost
rows =
    record {
      target = [];
      provider = provider_cost_explorer;
      basis = unblended;
      window = daily;
      tag_key = text "team";
      tag_value = text "core";
      amount = usd one;
    }
    ∷ []

abbrev tag_reader : TagReader
tag_reader query key = ok rows

abbrev tags : TagCollector
tags = record {
  target = prod;
  reader = tag_reader;
  bases = config.collection.cost_explorer.cost_bases;
  keys = prod_target.tags.keys;
  series_limit = config.collection.tags.series_limit;
  overflow = config.collection.cost_explorer.dimensions.overflow_label;
}

tags_made : tag_collector config prod_target tag_reader ≡ ok tags
unfolding tag_collector new_tags
tags_made = refl

validate-all_collected_example : collect_tags plus tags noon ≡ all_collected plus tags noon
validate-all_collected_example =
    validate-all_collected bare_environment config prod_target tag_reader tags plus noon
      config_accepted (inl refl) refl tags_made
