-- ===== src/Server/Accepted.antt =====
-- What New has checked, and that the fixed paths reach their handlers.
use aws_cost_exporter.Base.{
  ◌≡◌, inl, inr, refl, sym, Bool, false, not, ◌||◌, ◌==◌, length, List, [], ◌=?◌, none, arith,
  Bool-cases, same_ne,
}
use aws_cost_exporter.Base.Keys.{list_same}
use aws_cost_exporter.Base.Text.{Text, text, text_same}
use aws_cost_exporter.Domain.Identity.{CollectorId, collector_id_same}
use aws_cost_exporter.Errors.{
  Result, ok, err, is_ok, bind_ok, check_passed, ok_injective, invalid_http_config,
}
use aws_cost_exporter.Cache.{View}
use aws_cost_exporter.Config.Schema.{ServerConfig}
use aws_cost_exporter.Config.Checks.{
  validate_server, first_validation_error-ok, server_checks, reserved_metrics_path,
}
use aws_cost_exporter.Server.Response.{
  Request, Writer, Library, Info, write_json, get_only, Handler, set_header,
}
use aws_cost_exporter.Server.Routes.{
  Server, new, check_required, status_handler, ready, route, root, serve,
}

-- The metrics path of an accepted configuration is none of the fixed paths.
abbrev pub IsApart : ServerConfig → Type 0
IsApart value =
    ((value.metrics_path =? text "/healthz") ≡ false)
    × ((value.metrics_path =? text "/ready") ≡ false)
    × ((value.metrics_path =? text "/version") ≡ false)

reserved-IsApart : (value : ServerConfig) → reserved_metrics_path value ≡ false → IsApart value
unfolding reserved_metrics_path
reserved-IsApart value h = (ground arith, ground arith, ground arith)

validate_server-IsApart : (value : ServerConfig) → validate_server value ≡ ok tt → IsApart value
unfolding validate_server server_checks reserved_metrics_path
validate_server-IsApart value h =
    reserved-IsApart value ((first_validation_error-ok (server_checks value)).0 h).1.1.0

ok_of : (r : Result (Unit {0})) → not (is_ok r) ≡ false → r ≡ ok tt
ok_of (ok u) h = refl
ok_of (err e) h = cc

-- A server that New accepts is not draining, holds the identities and has an accepted configuration.
pub new-ok :
    (a b : Bool) (value : ServerConfig) (required : List CollectorId) (build : Info)
    (server : Server)
    → new a b value required build ≡ ok server
    → IsApart value
      × (server
          ≡ record { config = value; required = required; build_info = build; draining = false })
unfolding new
new-ok a b value required build server h =
    let (_, h1) = check_passed (a || b || length required == 0) invalid_http_config _ h in
    let (passed, h2) =
      check_passed (not (is_ok (validate_server value))) invalid_http_config _ h1 in
    let (_, _, h3) = bind_ok (check_required [] required) _ h2 in
    (validate_server-IsApart value (ok_of (validate_server value) passed), sym (ok_injective h3))

flip_other : (a b : Text) → (a =? b) ≡ false → (b =? a) ≡ false
flip_other a b h = same_ne b a (λ e. ground (arith, (text_same.same_iff a b).1 (sym e)))

abbrev pub untouched : Writer
untouched = record { headers = []; code = none; body = []; discards = false }

abbrev pub begun : Writer
begun = set_header (text "X-Content-Type-Options") (text "nosniff") untouched

abbrev pub at_path : Text → Text → Request
at_path method path = record { method = method; path = path }

-- The three fixed paths reach their handlers, with and without debugging.
pub routed :
    (lib : Library) (server : Server) (view : View) (method : Text)
    → IsApart server.config
    → let get : Text → Request = at_path method in
      let info : Handler = λ r. write_json r 200 (lib.encode_info server.build_info) in
      (serve lib server view (get (text "/healthz"))
        ≡ get_only lib
            (status_handler lib 200 (record { status = text "ok"; reason = [] }))
            (get (text "/healthz"))
            begun)
      × (serve lib server view (get (text "/ready"))
          ≡ get_only lib (ready lib server view) (get (text "/ready")) begun)
      × (serve lib server view (get (text "/version"))
          ≡ get_only lib info (get (text "/version")) begun)
unfolding serve root route list_same
routed lib server view method h = elim (Bool-cases server.config.debug.enabled) [
  | inl on ↦ rw on (
    rw (flip_other server.config.metrics_path (text "/healthz") h.0) refl,
    rw (flip_other server.config.metrics_path (text "/ready") h.1) refl,
    rw (flip_other server.config.metrics_path (text "/version") h.2) refl,
  )
  | inr off ↦ rw off (
    rw (flip_other server.config.metrics_path (text "/healthz") h.0) refl,
    rw (flip_other server.config.metrics_path (text "/ready") h.1) refl,
    rw (flip_other server.config.metrics_path (text "/version") h.2) refl,
  )
]
