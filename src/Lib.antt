-- ===== src/Lib.antt =====
-- aws-cost-exporter reads AWS billing data per configured target (an AWS account), keeps the last
-- good partial snapshot of every collector in memory, and serves the merged snapshot as Prometheus
-- metrics. This library models the parts of the program in which that data is validated, merged,
-- kept and published.
--
-- The parts, and how they interact:
--   Base       what the modules share: Go strings as lists of code points, signed numbers, floats by
--              their bit patterns, maps as association lists, stable sorting.
--   Errors     the sentinel errors, and a result type for functions that return (value, error).
--   Domain     internal/domain/identity, cost, organization, budget, commitment, anomaly, tagcost:
--              the records that collectors produce, their constructors and their sort orders.
--   Snapshot   internal/domain/snapshot/snapshot.go: the aggregate of the records. NewWithData sorts,
--              Merge concatenates and sorts, ValidatePartial and ValidateUnique guard publication.
--              Snapshot.Series lists the series of a snapshot without the code's joined texts.
--   Cache      internal/cache/memory/store.go: Publish puts one collector's partial in the place of
--              its last, merges all parts anew (Cache.Policy has mergeParts with the organization
--              policies) and swaps the state; RecordFailure touches one status; Load gives a view
--              with the age of each status (Cache.Age).
--   Config     internal/config/schema.go and validation.go: the structs (Config.Schema for the server,
--              the AWS access and the targets, Config.Collection for the rest), Default (Config.Defaults)
--              and Validate (Config.Checks for the lists of checks, Config.Credentials, Config.Tags
--              and Config.Targets for what is checked per target, Config.Patterns for the regular
--              expressions).
--   Scheduler  internal/scheduler/runner.go: NewJobs (Scheduler.Jobs), one refresh of a collector with
--              its attempts, its backoff, its tokens and its calls of the store (Scheduler.Collect),
--              and the two goroutines of one job, schedule with dispatch and worker, as a step relation
--              (Scheduler.Flight). Scheduler.Promise states what the two promise together as a relation
--              of its own, which the steps refine; Scheduler.Shutdown follows them after the context is
--              done.
--   Collector  internal/collector: the registry (Collector.Registry), the queries of a reference time
--              (Collector.Queries), LimitDimensions (Collector.Cardinality), CollectGrouped
--              (Collector.Grouped) and the eleven collectors: total, service, region and account
--              (Collector.Costs), forecast, anomaly, budget and organization (Collector.Simple),
--              commitment (Collector.Commitments), tag (Collector.Tags) and cur (Collector.Cur). A
--              collector reads through a reader, which is an argument; its partial snapshot is what
--              the scheduler publishes.
--   Aws        internal/aws: Read of the paginator of costexplorer/pagination.go (Aws.Pagination),
--              whose loop has no bound of its own and runs on fuel for one call more than the limit of
--              pages, which is enough, as Aws.Pages shows; MapUsage of mapping.go (Aws.Mapping) with
--              the requests and ReadCosts of usage.go (Aws.Usage); the reader of
--              organizations/reader.go (Aws.Organizations); and ClassifyError and the backoff of
--              common (Aws.Failures). What the API answers is an argument.
--   Server     internal/httpserver/server.go: the handlers as functions on a response writer
--              (Server.Response), New, readiness and the routes (Server.Routes). A request is served
--              with the view that Load of the store gives.
--   App        internal/app/bootstrap.go: what Run makes of a configuration for the store and the
--              runner (App.Startup), the tag collector of a target (App.TagSeries), and the reader
--              that filters by the cost bases of a target (App.Reader), which joins the usage adapter
--              to the collectors.
--   Samples    values on which the Examples modules run the model.
--
-- A function that fails returns a Result, and a method that changes an object takes its state and
-- returns the new one. Go maps are association lists; where the program ranges over a map, the model
-- goes along the list. The order in which mergeParts ranges over the parts is an argument of each
-- Publish (Cache.Policy.MapOrder), so that two writes may range in different orders;
-- Snapshot.Deterministic says of which results that order does not matter.
-- Times are nanoseconds from the start of year 1 in UTC, so that the zero time is 0. Floats are bit
-- patterns; a sum of floats and the reading of a decimal number are parameters, since the library
-- that computes them is not part of the repository. So are time.Parse and Time.Format, url.Parse,
-- net.ParseIP, the process environment, the JSON encoder and the handlers of net/http, and what the
-- world does in an attempt of a refresh: which branch a select takes, what the collector returns, when
-- the context is canceled. The loop of a refresh runs on the attempts that are left, which start as
-- MaxAttempts, and that of ReadAccounts on the pages that are left, which start as its limit: the
-- bounds that the loops themselves have; the loop of BackoffDelay runs on the steps before the attempt,
-- its doubling wraps at 64 bits, and the random scaling of its result is an argument.
-- The others, but for Read, run along lists.
--
-- Of an error that configuration validation reports, the path is kept and the message left out. The
-- decimal digits of an index in such a path run on fuel for 20 digits; an index has at most 19.
--
-- Not modelled: several jobs that share the semaphore of the scheduler, and the jitter of its delays; the
-- forecast, tag, anomaly and commitment adapters of Cost Explorer, and those of Athena and Budgets; the
-- construction of SDK clients and their instrumentation; listening and shutting down of the HTTP server
-- and the metrics exporter, which mostly call net/http and the Prometheus client; logging, the reading
-- of configuration files, the command line and the documentation tools.
pub mod Base
pub mod Errors
pub mod Domain
pub mod Snapshot
pub mod Cache
pub mod Config
pub mod Scheduler
pub mod Collector
pub mod Aws
pub mod Server
pub mod App
pub mod Samples
