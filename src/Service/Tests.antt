-- ===== src/Service/Tests.antt =====
-- service.rs: small runs, and the theorems at concrete inputs.
use flatbed.Base.{ℕ, ◌≡◌, ◌↔◌, refl, true, none, some, [], ◌∷◌, length, Text, codes, ok}
use flatbed.Http.{build_method_not_allowed}
use flatbed.Http.Samples.{Headers, list_headers, get_header}
use flatbed.Readiness
use flatbed.Readiness.{Readiness}
use flatbed.Router.{
  RouterNode, node, no_children, no_param, no_params, new_node, match_route, descend, reach,
  get_allowed_methods,
}
use flatbed.Service.Codec.{json, codec_named}
use flatbed.Service.Context.{
  Answer, Request, RouteEntry, handler_error, failed_with, ServiceContext, is_ready,
}
use flatbed.Service.Endpoints.{
  builtin, handle_splash_endpoint, handle_telemetry_endpoint, handle_openapi_endpoint,
  handle_schema_endpoint, health_body,
}
use flatbed.Supervisor.{running, backing_off, failed}
use flatbed.Service.Answering.{request_parts, strip_body_for_head}
use flatbed.Service.Dispatch.{unmatched, dispatch, handle_request, handle_matched}
use flatbed.Service.Head.{handle_request_head}
use flatbed.Service.Guards.{Reaches, calls_handler, handler_called_iff}

abbrev no_gates : Readiness
no_gates = record { gates = []; blocking = 0; pending = [] }

abbrev failing : RouteEntry Headers ℕ
failing = record {
  route = codes "/";
  handler = λ parts body content_type app. failed_with (handler_error (codes "lost"));
}

abbrev service : RouterNode (RouteEntry Headers ℕ) → ServiceContext Headers ℕ
service router = record {
  router = router;
  healthy = true;
  booted = true;
  readiness = no_gates;
  context = some 7;
  static_routes = [];
  disk = λ path. none;
  splash = none;
  telemetry = some (ok (codes "up 1"));
  worker_states = [];
  versions = codes "v1" ∷ [];
  openapi_json = λ version. codes "{}";
  schema_bfbs = none;
  before_request = none;
}

-- A `GET` route at `/`.
abbrev one_route : RouterNode (RouteEntry Headers ℕ)
one_route = node no_children no_param ((codes "GET", failing) ∷ [])

abbrev ask : Text → Text → Request Headers
ask method path = record {
  method = method;
  path = path;
  query = none;
  headers = [];
  body = ok [];
  fresh_id = codes "id";
}

lines_of_health :
    health_body
      (codes "Not Healthy")
      ((codes "healthy", running) ∷ (codes "retrying", backing_off) ∷ (codes "dead", failed) ∷ [])
    ≡ codes "Not Healthy\nretrying: backing-off\ndead: failed"
unfolding health_body
lines_of_health = refl

-- The second spelling of FlatBuffers comes first, but the third entry is the one that is looked at.
later_spelling :
    codec_named (codes "application/x-flat-buffers, application/json, application/x-flatbuffers")
    ≡ some json
unfolding codec_named
later_spelling = refl

-- `HEAD` of a route that is declared for `GET` alone is refused.
head_of_get_route :
    (handle_request (service one_route) (ask (codes "HEAD") (codes "/"))).response.status ≡ 405
unfolding handle_request dispatch strip_body_for_head builtin handle_splash_endpoint
    handle_telemetry_endpoint handle_openapi_endpoint handle_schema_endpoint is_ready
    Readiness.is_ready unmatched match_route descend get_allowed_methods reach
    build_method_not_allowed
head_of_get_route = refl

handle_request_head_example :
    ((handle_request (service new_node) (ask (codes "HEAD") (codes "/"))).response.status
      ≡ (handle_request (service new_node) (ask (codes "GET") (codes "/"))).response.status)
    × ((handle_request (service new_node) (ask (codes "HEAD") (codes "/"))).response.body ≡ [])
    × (get_header
          (codes "content-length")
          (handle_request (service new_node) (ask (codes "HEAD") (codes "/"))).response.headers
        ≡ some (
            length (handle_request (service new_node) (ask (codes "GET") (codes "/"))).response.body
            ∷ []))
unfolding get_allowed_methods reach
handle_request_head_example =
    handle_request_head (service new_node) (ask (codes "GET") (codes "/")) refl

handler_called_iff_example :
    (calls_handler (dispatch (service one_route) (ask (codes "GET") (codes "/"))) ≡ true)
    ↔ Reaches (service one_route) (ask (codes "GET") (codes "/"))
handler_called_iff_example = handler_called_iff (service one_route) (ask (codes "GET") (codes "/"))

-- What the route's handler, which fails, makes of a request.
abbrev failed_answer : Answer Headers
failed_answer =
    handle_matched (service one_route) (ask (codes "GET") (codes "/")) failing
      (request_parts (ask (codes "GET") (codes "/")) no_params)
