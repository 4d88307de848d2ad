-- ===== src/Server/Response.antt =====
-- internal/httpserver/server.go: the handlers, as functions of a request and of what was written to
-- the response so far. net/http, the JSON encoder, the Prometheus handler and the profiler are not
-- part of the repository: what they write is a parameter.
use aws_cost_exporter.Base.{ℕ, Bool, true, ◌&&◌, not, ◌++◌, if◌then◌else◌, ◌=?◌, Option, none, some}
use aws_cost_exporter.Base.Int.{ℤ}
use aws_cost_exporter.Base.Text.{Text, text, text_same}
use aws_cost_exporter.Base.Dict.{Dict, put}

-- The parts of `http.Request` that the handlers read
pub record Request : Type 0 where
  pub method : Text
  pub path : Text

-- `http.ResponseWriter`; `discards` is set below a headWriter.
pub record Writer : Type 0 where
  pub headers : Dict Text Text
  pub code : Option ℕ
  pub body : Text
  pub discards : Bool

-- `http.Handler`
abbrev pub Handler : Type 0
Handler = Request → Writer → Writer

-- version.Info
pub record Info : Type 0 where
  pub version : Text
  pub revision : Text
  pub build_date : Text
  pub go_version : Text

pub record StatusResponse : Type 0 where
  pub status : Text
  pub reason : Text

-- What the handlers call outside the repository
pub record Library : Type 0 where
  pub metrics : ℤ → ℤ → Handler
  pub not_found : Handler
  pub error_response : Text → ℕ → Writer → Writer
  pub status_text : ℕ → Text
  pub profile : Handler
  pub symbol : Handler
  pub trace : Handler
  pub profiles : Handler
  pub encode_status : StatusResponse → Text
  pub encode_info : Info → Text

-- `Header().Set`
abbrev pub set_header : Text → Text → Writer → Writer
set_header key value w = record w { headers = put key value w.headers }

-- `WriteHeader`, of which the first call counts
abbrev pub write_header : ℕ → Writer → Writer
write_header code w = elim w.code [ none ↦ record w { code = some code } | some _ ↦ w ]

-- `Write`, and that of headWriter
unfoldable pub write : Text → Writer → Writer
write body w =
    if w.discards
    then w
    else let begun = write_header 200 w in record begun { body = begun.body ++ body }

-- `writeJSON`, of a value that is encoded
unfoldable pub write_json : Request → ℕ → Text → Writer → Writer
unfolding write
write_json request code encoded w =
    let begun = write_header code (set_header (text "Content-Type") (text "application/json") w) in
    if not (request.method =? text "HEAD") then write encoded begun else begun

-- `next.ServeHTTP(headWriter{ResponseWriter: response}, request)`
abbrev pub headless : Handler → Handler
headless next request w = record (next request (record w { discards = true })) {
  discards = w.discards;
}

-- `getOnly`
unfoldable pub get_only : Library → Handler → Handler
get_only lib next request w =
    if not (request.method =? text "GET") && not (request.method =? text "HEAD")
    then lib.error_response (lib.status_text 405) 405
        (set_header (text "Allow") (text "GET, HEAD") w)
    else if request.method =? text "HEAD"
    then headless next request w
    else next request w

-- `servePprof`
unfoldable pub serve_pprof : Library → Handler
serve_pprof lib request =
    if request.path =? text "/debug/pprof/cmdline"
    then lib.not_found request
    else if request.path =? text "/debug/pprof/profile"
    then lib.profile request
    else if request.path =? text "/debug/pprof/symbol"
    then lib.symbol request
    else if request.path =? text "/debug/pprof/trace"
    then lib.trace request
    else lib.profiles request
