-- ===== src/Server/Routes.antt =====
-- internal/httpserver/server.go: New, the readiness of a view and the routes. A request is served
-- with the view that the reader's Load gives at that time.
use aws_cost_exporter.Base.{
  ℕ, ◌==◌, ◌/◌, suc, Bool, true, false, ◌||◌, not, List, [], ◌∷◌, if◌then◌else◌, ◌=?◌, length,
  Option, none, some,
}
use mathlib.Core.Option
use aws_cost_exporter.Base.Int.{ℤ, pos, negsuc, sub_ℕ}
use aws_cost_exporter.Base.Text.{Text, text, text_same}
use aws_cost_exporter.Base.Dict.{find}
use aws_cost_exporter.Domain.Identity.{CollectorId, collector_id_same, is_valid}
use aws_cost_exporter.Domain.Period.{is_zero}
use aws_cost_exporter.Errors.{Result, ok, ◌>>◌, fail_if, is_ok, invalid_http_config}
use aws_cost_exporter.Cache.{View, Status}
use aws_cost_exporter.Cache.Age.{Freshness, unset, missing, fresh, aging, stale}
use aws_cost_exporter.Config.Schema.{ServerConfig}
use aws_cost_exporter.Config.Checks.{validate_server}
use aws_cost_exporter.Config.Patterns.{has_prefix}
use aws_cost_exporter.Server.Response.{
  Request, Writer, Handler, Info, StatusResponse, Library, set_header, write_json, get_only,
  serve_pprof,
}

-- `Server`, with what the handlers that New makes have captured
pub record Server : Type 0 where
  pub config : ServerConfig
  pub required : List CollectorId
  pub build_info : Info
  pub draining : Bool

is_among : List CollectorId → CollectorId → Bool
is_among [] id = false
is_among (k ∷ known) id = k =? id || is_among known id

-- The loop of `New` over the identities, with those so far
unfoldable pub check_required : List CollectorId → List CollectorId → Result (Unit {0})
unfolding is_among
check_required known [] = ok tt
check_required known (id ∷ ids) = do
  fail_if (not (is_valid id) || is_among known id) invalid_http_config
  check_required (id ∷ known) ids

-- `New`; the first two arguments are what isNil finds of the gatherer and of the reader.
unfoldable pub new : Bool → Bool → ServerConfig → List CollectorId → Info → Result Server
unfolding check_required
new gatherer_nil reader_nil value required build = do
  fail_if (gatherer_nil || reader_nil || length required == 0) invalid_http_config
  fail_if (not (is_ok (validate_server value))) invalid_http_config
  check_required [] required
  ok (record { config = value; required = required; build_info = build; draining = false })

-- `BeginShutdown`
unfoldable pub begin_shutdown : Server → Server
begin_shutdown server = record server { draining = true }

abbrev pub not_ready : Text → ℕ × StatusResponse
not_ready reason = (503, record { status = text "not_ready"; reason = reason })

abbrev pub readiness_of : Freshness → Option (ℕ × StatusResponse)
readiness_of fresh = none
readiness_of aging = none
readiness_of stale = some (not_ready (text "stale"))
readiness_of missing = some (not_ready (text "missing"))
readiness_of unset = some (not_ready (text "missing"))

unfoldable pub status_answer : Status → Option (ℕ × StatusResponse)
status_answer status =
    if is_zero status.last_success
    then some (not_ready (text "missing"))
    else readiness_of status.freshness

abbrev pub answer_for : Option Status → Option (ℕ × StatusResponse)
answer_for none = some (not_ready (text "missing"))
answer_for (some status) = status_answer status

-- One round of the loop of `readiness`, with what it returns
unfoldable pub unready : View → CollectorId → Option (ℕ × StatusResponse)
unfolding status_answer
unready view id = answer_for (find id view.collectors)

-- `readiness`
unfoldable pub readiness : View → List CollectorId → ℕ × StatusResponse
unfolding unready
readiness view [] = (200, record { status = text "ready"; reason = [] })
readiness view (id ∷ required) = Option.get_or (unready view id) (readiness view required)

abbrev pub status_handler : Library → ℕ → StatusResponse → Handler
status_handler lib code payload request = write_json request code (lib.encode_status payload)

-- The handler of /ready
unfoldable pub ready : Library → Server → View → Handler
unfolding readiness
ready lib server view =
    if server.draining
    then status_handler lib 503
        (record { status = text "not_ready"; reason = text "shutting_down" })
    else let answer = readiness view server.required in status_handler lib (answer.0) (answer.1)

abbrev half_of : ℤ → ℤ
half_of (pos n) = pos (n / 2)
half_of (negsuc n) = sub_ℕ 0 (suc n / 2)

-- The second switch of the root handler
unfoldable pub route : Library → Server → View → Handler
unfolding ready write_json get_only
route lib server view request =
    if request.path =? server.config.metrics_path
    then get_only lib
        (lib.metrics (half_of server.config.write_timeout) server.config.max_in_flight) request
    else if request.path =? text "/healthz"
    then get_only lib (status_handler lib 200 (record { status = text "ok"; reason = [] })) request
    else if request.path =? text "/ready"
    then get_only lib (ready lib server view) request
    else if request.path =? text "/version"
    then get_only lib (λ r. write_json r 200 (lib.encode_info server.build_info)) request
    else lib.not_found request

-- The root handler
unfoldable pub root : Library → Server → View → Handler
unfolding route serve_pprof
root lib server view request =
    if server.config.debug.enabled
    then if request.path =? text "/debug"
      then get_only lib (status_handler lib 200 (record { status = text "enabled"; reason = [] }))
          request
      else if request.path =? text "/debug/pprof" || has_prefix request.path (text "/debug/pprof/")
      then get_only lib (serve_pprof lib) request
      else route lib server view request
    else route lib server view request

-- The handler of the server, on a response to which nothing was written
unfoldable pub serve : Library → Server → View → Request → Writer
unfolding root
serve lib server view request = root lib server view request (
    set_header (text "X-Content-Type-Options") (text "nosniff")
      (record { headers = []; code = none; body = []; discards = false }))
