-- ===== src/Collector/Grouped.antt =====
-- internal/collector/grouped.go. What the context says before the call for a query and what the
-- reader then returns are arguments, by the query: the two queries of a collection differ.
use aws_cost_exporter.Base.{List, [], ◌∷◌, ◌++◌, map, Option, none, some}
use aws_cost_exporter.Base.Int.{ℤ}
use aws_cost_exporter.Base.Float.{Float64}
use aws_cost_exporter.Base.Text.{Text, text, trim_space, is_empty}
use aws_cost_exporter.Domain.Identity.{TargetId}
use aws_cost_exporter.Domain.Dimension.{DimensionKind}
use aws_cost_exporter.Domain.Period.{Time}
use aws_cost_exporter.Domain.Cost.{Cost}
use aws_cost_exporter.Errors.{Result, ok, err, Error, ◌>>=◌, ◌>>◌, fail_if, invalid_overflow_label}
use aws_cost_exporter.Snapshot
use aws_cost_exporter.Snapshot.{Snapshot}
use aws_cost_exporter.Collector.Queries.{CostQuery, build_daily_and_mtd_queries}
use aws_cost_exporter.Collector.Cardinality.{Overflow, Limited, limit_dimensions}

-- `DefaultOverflowLabel`
abbrev pub default_overflow_label : Text
default_overflow_label = text "__other__"

-- `ValidateOverflowLabel`
unfoldable pub validate_overflow_label : Text → Result (Unit {0})
validate_overflow_label label = fail_if (is_empty (trim_space label)) invalid_overflow_label

-- GroupedReader under a context
pub record GroupedReader : Type 0 where
  pub context_error : CostQuery → Option Error
  pub answer : CostQuery → Result (List Cost)

-- `if err := ctx.Err(); err != nil { return err }`
abbrev pub unless_done : Option Error → Result (Unit {0})
unless_done none = ok tt
unless_done (some e) = err e

-- A partial snapshot, and what the observers have been told
pub record Collected : Type 0 where
  pub snapshot : Snapshot
  pub overflows : List Overflow

-- The arguments of CollectGrouped that stay the same over its loop. A nil mutate is the identity,
-- and a nil validate accepts.
pub record Plan : Type 0 where
  pub target : TargetId
  pub series_limit : ℤ
  pub overflow_label : Text
  pub mutate : CostQuery → CostQuery
  pub check : List Cost → Result (Unit {0})

-- `values[index].Target = target`
abbrev pub retarget : TargetId → Cost → Cost
retarget target c = record c { target = target }

module _ (plus : Float64 → Float64 → Float64) (plan : Plan) (reader : GroupedReader) where
  -- One round of the loop, with the query that mutate has changed
  unfoldable pub collect_query : CostQuery → Result Limited
  collect_query query = do
    unless_done (reader.context_error query)
    values ← reader.answer query
    plan.check values
    bounded ← limit_dimensions plus values plan.series_limit plan.overflow_label
    ok (record bounded { values = map (retarget plan.target) bounded.values })

  -- The loop over the queries
  unfoldable pub collect_queries : List CostQuery → Result Limited
  collect_queries [] = ok (record { values = []; overflows = [] })
  collect_queries (query ∷ queries) = do
    first ← collect_query (plan.mutate query)
    rest ← collect_queries queries
    ok (record {
      values = first.values ++ rest.values;
      overflows = first.overflows ++ rest.overflows;
    })

  -- `CollectGrouped`
  unfoldable pub collect_grouped : Time → DimensionKind → Result Collected
  collect_grouped reference group_by = do
    validate_overflow_label plan.overflow_label
    queries ← build_daily_and_mtd_queries reference group_by
    collected ← collect_queries queries
    ok (record {
      snapshot = Snapshot.new collected.values [] [] [];
      overflows = collected.overflows;
    })
