-- ===== src/Service/Dispatch.antt =====
-- service.rs: `dispatch` and `handle_request`.
use flatbed.Base.{
  not, none, some, ◌++◌, ◌||◌, ◌&&◌, ◌==◌, list_keys, number_keys, if◌then◌else◌, Text, codes,
  is_empty, ok, err,
}
use flatbed.Http.{
  HttpLibrary, Response, wire_code, build_success_response, build_not_found,
  build_method_not_allowed, build_unsupported_media_type, build_route_error_response,
  build_error_response,
}
use flatbed.Router.{match_route, get_allowed_methods}
use flatbed.StaticFiles.{serve}
use flatbed.Service.Codec.{is_json, is_flatbuffer}
use flatbed.Service.Context.{
  Request, RequestParts, RouteEntry, ServiceContext, RouteRequest, hook_called, body_read,
  handler_called, Answer, reply, after, is_ready, blocked_gates,
}
use flatbed.Service.Endpoints.{is_get_or_head, builtin}
use flatbed.Service.Answering.{
  unread, needs_body, content_type_of, request_parts, respond_flatbuffer, fail_route,
  finish_handled, strip_body_for_head,
}

module _ {H C : Type 0} ⦃http : HttpLibrary H⦄ where
  module _ (ctx : ServiceContext H C) (req : Request H) (entry : RouteEntry H C)
      (parts : RequestParts H) where
    abbrev pub route_request : RouteRequest
    route_request = record {
      method = req.method;
      route = entry.route;
      path = req.path;
      request_id = parts.request_id;
    }

    unfoldable pub run_handler : Text → Answer H
    unfolding finish_handled
    run_handler body = after handler_called (
        finish_handled route_request (respond_flatbuffer req)
          (entry.handler parts body (content_type_of req) ctx.context))

    unfoldable pub read_body : Answer H
    unfolding run_handler build_unsupported_media_type build_route_error_response
    read_body =
        if needs_body req.method
          && not (is_json (content_type_of req) || is_flatbuffer (content_type_of req))
        then reply build_unsupported_media_type
        else after body_read (elim req.body [
          | ok body ↦ run_handler body
          | err e ↦
              reply
                (build_route_error_response (unread e) (respond_flatbuffer req) parts.request_id)
        ])

    unfoldable pub handle_matched : Answer H
    unfolding read_body fail_route
    handle_matched = elim ctx.before_request [
      | none ↦ read_body
      | some hook ↦ after hook_called (elim (hook parts) [
        | ok u ↦ read_body
        | err e ↦ fail_route route_request (wire_code e) e (respond_flatbuffer req)
      ])
    ]

  unfoldable pub not_ready : ServiceContext H C → Response H
  unfolding blocked_gates build_error_response
  not_ready ctx = elim (blocked_gates ctx) [
    | some gates ↦ build_error_response 503 (codes "NOT_READY") (codes "Waiting on " ++ gates)
    | none ↦
        build_error_response 503 (codes "BOOTING")
          (codes "Server is starting up, please retry shortly")
  ]

  unfoldable pub unmatched : ServiceContext H C → Text → Text → Response H
  unfolding build_method_not_allowed build_not_found build_success_response
  unmatched ctx method path =
      let allowed = get_allowed_methods path ctx.router in
      if not (is_empty allowed)
      then build_method_not_allowed allowed
      else (if is_get_or_head method && not (is_empty ctx.static_routes)
          then elim (serve ctx.disk ctx.static_routes path) [
            | some made ↦ build_success_response made
            | none ↦ build_not_found
          ]
          else build_not_found)

  unfoldable pub dispatch : ServiceContext H C → Request H → Answer H
  unfolding builtin is_ready not_ready unmatched handle_matched request_parts
  dispatch ctx req = elim (builtin ctx req.method req.path) [
    | some r ↦ reply r
    | none ↦
        if not (is_ready ctx)
        then reply (not_ready ctx)
        else elim (match_route req.path req.method ctx.router) [
          | none ↦ reply (unmatched ctx req.method req.path)
          | some (entry, params) ↦ handle_matched ctx req entry (request_parts req params)
        ]
  ]

  unfoldable pub handle_request : ServiceContext H C → Request H → Answer H
  unfolding dispatch strip_body_for_head
  handle_request ctx req =
      let answer = dispatch ctx req in
      if req.method == codes "HEAD"
      then record { events = answer.events; response = strip_body_for_head answer.response }
      else answer
