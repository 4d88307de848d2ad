-- ===== src/Server/Probe.antt =====
-- The answers of an accepted server on its fixed paths.
use aws_cost_exporter.Base.{
  ℕ, ◌≡◌, ◌≢◌, ◌↔◌, ◌⊎◌, inl, inr, refl, sym, ap, subst, ◌∙◌, Bool, true, false, List, [],
  if◌then◌else◌, All, All-mono, none, some, arith, Bool-cases, same_ne,
}
use aws_cost_exporter.Base.Int.{◌≤ℤ◌}
use aws_cost_exporter.Base.Keys.{list_same}
use aws_cost_exporter.Base.Text.{Text, text, text_same}
use aws_cost_exporter.Domain.Identity.{CollectorId, collector_id_same}
use aws_cost_exporter.Domain.Period.{Time}
use aws_cost_exporter.Errors.{ok}
use aws_cost_exporter.Cache.{Store, View, load}
use aws_cost_exporter.Config.Schema.{ServerConfig}
use aws_cost_exporter.Server.Response.{
  Writer, Library, Info, StatusResponse, write_json, write, get_only, Handler, set_header,
}
use aws_cost_exporter.Server.Routes.{
  Server, new, begin_shutdown, status_handler, unready, readiness, ready, serve,
}
use aws_cost_exporter.Server.Ready.{IsCurrent, unready-IsCurrent, readiness-code}
use aws_cost_exporter.Server.Accepted.{IsApart, new-ok, begun, at_path, routed}

abbrev pub IsGet : Text → Type 0
IsGet method = (method ≡ text "GET") ⊎ (method ≡ text "HEAD")

written_code :
    (lib : Library) (code : ℕ) (payload : StatusResponse) (path : Text) (method : Text) (w : Writer)
    → w.code ≡ none
    → (status_handler lib code payload (at_path method path) w).code ≡ some code
unfolding write_json write
written_code lib code payload path method w h = rw h (ground arith)

got_code :
    (lib : Library) (code : ℕ) (payload : StatusResponse) (path : Text) (method : Text)
    → IsGet method
    → (get_only lib (status_handler lib code payload) (at_path method path) begun).code ≡ some code
unfolding get_only list_same
got_code lib code payload path method (inl get) =
    rw get (written_code lib code payload path (text "GET") begun refl)
got_code lib code payload path method (inr head) =
    rw head
      (written_code lib code payload path (text "HEAD") (record begun { discards = true }) refl)

unready-All :
    (store : Store) (now : Time) (ids : List CollectorId)
    → store.freshness_ttl ≤ℤ store.stale_after
    → All (λ id. unready (load store now) id ≡ none) ids ↔ All (IsCurrent store now) ids
unready-All store now ids h = (
  All-mono (λ id. (unready-IsCurrent store now id h).0) ids,
  All-mono (λ id. (unready-IsCurrent store now id h).1) ids,
)

abbrev shutting_down : StatusResponse
shutting_down = record { status = text "not_ready"; reason = text "shutting_down" }

ready_code :
    (lib : Library) (server : Server) (view : View) (method : Text)
    → IsApart server.config
    → IsGet method
    → (serve lib server view (at_path method (text "/ready"))).code
      ≡ some (if server.draining then 503 else (readiness view server.required).0)
unfolding ready
ready_code lib server view method apart get = elim (Bool-cases server.draining) [
  | inl down ↦
      rw (routed lib server view method apart).1
        (rw down (got_code lib 503 shutting_down (text "/ready") method get))
  | inr up ↦ rw (routed lib server view method apart).1 (
      rw up (
        got_code lib (readiness view server.required).0 (readiness view server.required).1
          (text "/ready") method get))
]

some_injective : {a b : ℕ} → some a ≡ some b → a ≡ b
some_injective h = cc

abbrev pub Probed : Library → Server → List CollectorId → Store → Time → Text → Type 0
Probed lib server required store now method =
    let request = at_path method (text "/ready") in
    let code = (serve lib server (load store now) request).code in
    ((code ≡ some 200) ↔ All (IsCurrent store now) required)
    × ((code ≡ some 200) ⊎ (code ≡ some 503))
    × ((serve lib (begin_shutdown server) (load store now) request).code ≡ some 503)

abbrev fresh_server : ServerConfig → List CollectorId → Info → Server
fresh_server value required build = record {
  config = value;
  required = required;
  build_info = build;
  draining = false;
}

probe_of :
    (lib : Library) (value : ServerConfig) (required : List CollectorId) (build : Info)
    (store : Store) (now : Time) (method : Text)
    → IsApart value
    → store.freshness_ttl ≤ℤ store.stale_after
    → IsGet method
    → Probed lib (fresh_server value required build) required store now method
unfolding begin_shutdown
probe_of lib value required build store now method apart ordered get =
    let server = fresh_server value required build in
    let view = load store now in
    let code = ready_code lib server view method apart get in
    let counted = readiness-code view required in
    let current = unready-All store now required ordered in
    (
      (
        λ e. current.0 (counted.0.0 (some_injective (sym code ∙ e))),
        λ h. code ∙ ap some (counted.0.1 (current.1 h)),
      ),
      elim counted.1 [ inl e ↦ inl (code ∙ ap some e) | inr e ↦ inr (code ∙ ap some e) ],
      ready_code lib (begin_shutdown server) view method apart get,
    )

-- A server that New has accepted answers a probe of /ready, by GET or by HEAD, with 200 or 503: with
-- 200 exactly when every required collector has had a success, no longer ago than the second
-- threshold of the store that it reads. Once the shutdown has begun, the answer is 503, whatever the
-- store holds.
pub new-probe :
    (lib : Library) (gatherer_nil reader_nil : Bool) (value : ServerConfig)
    (required : List CollectorId) (build : Info) (server : Server) (store : Store) (now : Time)
    (method : Text)
    → new gatherer_nil reader_nil value required build ≡ ok server
    → store.freshness_ttl ≤ℤ store.stale_after
    → IsGet method
    → let request = at_path method (text "/ready") in
      let code = (serve lib server (load store now) request).code in
      ((code ≡ some 200) ↔ All (IsCurrent store now) required)
      × ((code ≡ some 200) ⊎ (code ≡ some 503))
      × ((serve lib (begin_shutdown server) (load store now) request).code ≡ some 503)
new-probe lib a b value required build server store now method made ordered get =
    let (apart, same) = new-ok a b value required build server made in
    subst (λ s. Probed lib s required store now method) (sym same)
      (probe_of lib value required build store now method apart ordered get)

abbrev pub IsFixed : Text → Type 0
IsFixed path = (path ≡ text "/healthz") ⊎ (path ≡ text "/ready") ⊎ (path ≡ text "/version")

headed :
    (lib : Library) (code : ℕ) (encoded : Text) (path : Text)
    → let handler : Handler = λ r. write_json r code encoded in
      get_only lib handler (at_path (text "HEAD") path) begun
      ≡ record (get_only lib handler (at_path (text "GET") path) begun) { body = [] }
unfolding get_only write_json write list_same
headed lib code encoded path = refl

headed_ready :
    (lib : Library) (server : Server) (view : View) (path : Text)
    → get_only lib (ready lib server view) (at_path (text "HEAD") path) begun
      ≡ record (get_only lib (ready lib server view) (at_path (text "GET") path) begun) {
        body = [];
      }
unfolding ready
headed_ready lib server view path = elim (Bool-cases server.draining) [
  | inl down ↦ rw down (headed lib 503 _ path)
  | inr up ↦ rw up (headed lib (readiness view server.required).0 _ path)
]

refused_method :
    (lib : Library) (handler : Handler) (path : Text) (method : Text)
    → method ≢ text "GET"
    → method ≢ text "HEAD"
    → get_only lib handler (at_path method path) begun
      ≡ lib.error_response
          (lib.status_text 405)
          405
          (set_header (text "Allow") (text "GET, HEAD") begun)
unfolding get_only
refused_method lib handler path method no_get no_head =
    rw (same_ne method (text "GET") no_get) (rw (same_ne method (text "HEAD") no_head) refl)

abbrev pub Answers : Library → Server → View → Text → Text → Type 0
Answers lib server view method path =
    (serve lib server view (at_path (text "HEAD") path)
      ≡ record (serve lib server view (at_path (text "GET") path)) { body = [] })
    × (method ≢ text "GET"
        → method ≢ text "HEAD"
        → serve lib server view (at_path method path)
          ≡ lib.error_response (lib.status_text 405) 405
              (set_header (text "Allow") (text "GET, HEAD") begun))

answers :
    (lib : Library) (server : Server) (view : View) (method path : Text) (handler : Handler)
    → ((m : Text)
        → serve lib server view (at_path m path) ≡ get_only lib handler (at_path m path) begun)
    → get_only lib handler (at_path (text "HEAD") path) begun
      ≡ record (get_only lib handler (at_path (text "GET") path) begun) { body = [] }
    → Answers lib server view method path
answers lib server view method path handler reached same = (
  reached (text "HEAD")
      ∙ same
      ∙ ap (λ (w : Writer). record w { body = [] }) (sym (reached (text "GET"))),
  λ no_get no_head. reached method ∙ refused_method lib handler path method no_get no_head,
)

-- On the paths /healthz, /ready and /version, a HEAD of an accepted server has the code and the
-- headers of a GET and no body, and a method that is neither is refused with 405 and the header
-- Allow, before anything else is written but the header that all responses have.
pub new-methods :
    (lib : Library) (gatherer_nil reader_nil : Bool) (value : ServerConfig)
    (required : List CollectorId) (build : Info) (server : Server) (view : View)
    (path method : Text)
    → new gatherer_nil reader_nil value required build ≡ ok server
    → IsFixed path
    → (serve lib server view (at_path (text "HEAD") path)
        ≡ record (serve lib server view (at_path (text "GET") path)) { body = [] })
      × (method ≢ text "GET"
          → method ≢ text "HEAD"
          → serve lib server view (at_path method path)
            ≡ lib.error_response
                (lib.status_text 405)
                405
                (set_header (text "Allow") (text "GET, HEAD") begun))
new-methods lib a b value required build server view path method made fixed =
    let (apart, same) = new-ok a b value required build server made in
    let config_apart : IsApart server.config =
      subst (λ (s : Server). IsApart s.config) (sym same) apart in
    let reached = λ (m : Text). routed lib server view m config_apart in
    elim fixed [
      | inl p ↦ subst (Answers lib server view method) (sym p) (
          answers lib server view method (text "/healthz") _ (λ m. (reached m).0)
            (headed lib 200 _ (text "/healthz")))
      | inr (inl p) ↦ subst (Answers lib server view method) (sym p) (
          answers lib server view method (text "/ready") _ (λ m. (reached m).1)
            (headed_ready lib server view (text "/ready")))
      | inr (inr p) ↦ subst (Answers lib server view method) (sym p) (
          answers lib server view method (text "/version") _ (λ m. (reached m).2)
            (headed lib 200 _ (text "/version")))
    ]
