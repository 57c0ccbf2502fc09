-- ===== src/Service/Endpoints.antt =====
-- service.rs: the endpoints that are built in. Telemetry and OpenAPI are features; both are on here.
use flatbed.Base.{
  Bool, not, Option, none, some, List, [], ◌∷◌, ◌++◌, ◌||◌, ◌==◌, list_keys, number_keys,
  if◌then◌else◌, Text, to_lowercase, codes, last, Result, ok, err,
}
use flatbed.Http.{HttpLibrary, Response, typed_response, build_not_found, build_error_response}
use flatbed.Service.Context.{ServiceContext, is_ready, blocked_gates}
use flatbed.Supervisor.{WorkerState, running, backing_off, failed, disabled}

-- `eq_ignore_ascii_case`.
abbrev pub is_get_or_head : Text → Bool
is_get_or_head method =
    (to_lowercase method == codes "get") || (to_lowercase method == codes "head")

abbrev pub text_of_state : WorkerState → Text
text_of_state running = codes "running"
text_of_state backing_off = codes "backing-off"
text_of_state failed = codes "failed"
text_of_state disabled = codes "disabled"

abbrev pub state_line : Text → WorkerState → Text
state_line name running = []
state_line name state = 10 ∷ name ++ (codes ": " ++ text_of_state state)

unfoldable pub health_body : Text → List (Text × WorkerState) → Text
health_body verdict [] = verdict
health_body verdict ((name, state) ∷ states) = health_body (verdict ++ state_line name state) states

abbrev pub latest_version : List Text → Text
latest_version versions = elim (last versions) [ some v ↦ v | none ↦ codes "v1" ]

module _ {H : Type 0} ⦃http : HttpLibrary H⦄ where
  unfoldable pub metrics : Result Text Text → Response H
  unfolding build_error_response
  metrics (ok feed) = typed_response 200 (codes "text/plain; version=0.0.4; charset=utf-8") feed
  metrics (err e) = build_error_response 500 (codes "METRICS_ERROR") e

  abbrev pub json_response : Text → Response H
  json_response body = typed_response 200 (codes "application/json") body

  abbrev pub versioned : (Text → Text) → List Text → Text → Option (Response H)
  versioned openapi_json [] path = none
  versioned openapi_json (v ∷ vs) path =
      let rest = versioned openapi_json vs path in
      if path == codes "/" ++ (v ++ codes "/openapi.json")
      then some (json_response (openapi_json v))
      else rest

  abbrev pub or_next : Option (Response H) → Option (Response H) → Option (Response H)
  or_next none o = o
  or_next (some r) o = some r

module _ {H C : Type 0} ⦃http : HttpLibrary H⦄ where
  unfoldable pub handle_splash_endpoint : ServiceContext H C → Text → Text → Option (Response H)
  handle_splash_endpoint ctx method path =
      if not (is_get_or_head method) || not (path == codes "/") then none else elim ctx.splash [
        | none ↦ none
        | some splash ↦ some (typed_response 200 (codes "text/plain; charset=utf-8") splash)
      ]

  unfoldable pub healthz : ServiceContext H C → Response H
  unfolding health_body
  healthz ctx =
      if ctx.healthy
      then typed_response 200 (codes "text/plain") (health_body (codes "OK") ctx.worker_states)
      else typed_response 503 (codes "text/plain")
          (health_body (codes "Not Healthy") ctx.worker_states)

  unfoldable pub readyz : ServiceContext H C → Response H
  unfolding is_ready blocked_gates
  readyz ctx =
      if is_ready ctx
      then typed_response 200 (codes "text/plain") (codes "Ready")
      else elim (blocked_gates ctx) [
        | some gates ↦ typed_response 503 (codes "text/plain") (codes "Not Ready: " ++ gates)
        | none ↦ typed_response 503 (codes "text/plain") (codes "Not Ready")
      ]

  unfoldable pub handle_telemetry_endpoint : ServiceContext H C → Text → Text → Option (Response H)
  unfolding healthz readyz metrics
  handle_telemetry_endpoint ctx method path =
      if not (is_get_or_head method) then none else elim ctx.telemetry [
        | none ↦ none
        | some feed ↦
            if path == codes "/healthz"
            then some (healthz ctx)
            else (if path == codes "/readyz"
                then some (readyz ctx)
                else (if path == codes "/metrics" then some (metrics feed) else none))
      ]

  unfoldable pub handle_openapi_endpoint : ServiceContext H C → Text → Text → Option (Response H)
  handle_openapi_endpoint ctx method path =
      if not (is_get_or_head method)
      then none
      else (if path == codes "/openapi.json"
          then some (json_response (ctx.openapi_json (latest_version ctx.versions)))
          else versioned ctx.openapi_json ctx.versions path)

  unfoldable pub handle_schema_endpoint : ServiceContext H C → Text → Text → Option (Response H)
  unfolding build_not_found
  handle_schema_endpoint ctx method path =
      if not (is_get_or_head method) || not (path == codes "/schema.bfbs")
      then none
      else elim ctx.schema_bfbs [
        | none ↦ some build_not_found
        | some bfbs ↦ some (typed_response 200 (codes "application/octet-stream") bfbs)
      ]

  -- The first endpoint that answers.
  unfoldable pub builtin : ServiceContext H C → Text → Text → Option (Response H)
  unfolding handle_splash_endpoint handle_telemetry_endpoint handle_openapi_endpoint
      handle_schema_endpoint
  builtin ctx method path = or_next (handle_splash_endpoint ctx method path) (
      or_next (handle_telemetry_endpoint ctx method path) (
        or_next (handle_openapi_endpoint ctx method path) (handle_schema_endpoint ctx method path)))
