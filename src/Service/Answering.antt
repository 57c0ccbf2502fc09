-- ===== src/Service/Answering.antt =====
-- service.rs: the parts that a request is read in, and the answers to it.
use flatbed.Base.{
  ℕ, Bool, Option, none, some, [], ◌∷◌, ◌++◌, list_keys, number_keys, if◌then◌else◌, length, Text,
  one_of, to_uppercase, codes,
}
use flatbed.Http.{
  HttpLibrary, FlatbedRouteError, Response, is_server_error, error_with, insert_all,
  build_success_response, build_route_error_response,
}
use flatbed.Router.{Params}
use flatbed.Service.Codec.{get_text, accepted_codec, wants_flatbuffer, query_params}
use flatbed.Service.Context.{
  Request, RequestParts, Error, deserialization_error, serialization_error, handler_error, custom,
  Handled, returned, failed_with, panicked, RouteRequest, error_reported, panic_reported, Answer,
  reply, after,
}

-- `Display` of an error.
abbrev pub text_of_error : Error → Text
text_of_error (deserialization_error msg) = codes "Deserialization error: " ++ msg
text_of_error (serialization_error msg) = codes "Serialization error: " ++ msg
text_of_error (handler_error msg) = codes "Handler error: " ++ msg
text_of_error (custom msg) = msg

abbrev pub status_of_error : Error → ℕ × Text
status_of_error (deserialization_error msg) = (400, codes "BAD_REQUEST")
status_of_error (serialization_error msg) = (500, codes "SERIALIZATION_ERROR")
status_of_error (handler_error msg) = (500, codes "HANDLER_ERROR")
status_of_error (custom msg) = (500, codes "INTERNAL_ERROR")

abbrev pub needs_body : Text → Bool
needs_body method = one_of (to_uppercase method) (codes "POST" ∷ codes "PUT" ∷ codes "PATCH" ∷ [])

abbrev pub text_or_empty : Option Text → Text
text_or_empty none = []
text_or_empty (some t) = t

module _ {H : Type 0} ⦃http : HttpLibrary H⦄ where
  -- Of a header that comes more than once, the first counts as the content type; the copy keeps the last.
  abbrev pub content_type_of : Request H → Text
  content_type_of req = text_or_empty (get_text (codes "content-type") req.headers)

  abbrev pub copied_headers : Request H → H
  copied_headers req = insert_all (http.pairs req.headers) http.empty

  abbrev pub request_id_of : Request H → Text
  request_id_of req = elim (get_text (codes "x-request-id") (copied_headers req)) [
    | some id ↦ id
    | none ↦ req.fresh_id
  ]

  unfoldable pub request_parts : Request H → Params → RequestParts H
  unfolding query_params
  request_parts req path_params = record {
    headers = copied_headers req;
    method = req.method;
    path = req.path;
    path_params = path_params;
    query_params = query_params req.query;
    request_id = request_id_of req;
  }

  unfoldable pub respond_flatbuffer : Request H → Bool
  unfolding accepted_codec
  respond_flatbuffer req =
      wants_flatbuffer (accepted_codec (copied_headers req)) (content_type_of req)

  -- An error is reported if it is the server's, and answered.
  unfoldable pub fail_route : RouteRequest → Text → FlatbedRouteError H → Bool → Answer H
  unfolding build_route_error_response
  fail_route route code e flat =
      let answer = reply (build_route_error_response e flat route.request_id) in
      if is_server_error e.status
      then after
          (error_reported
            (record { request = route; status = e.status; code = code; message = e.message }))
          answer
      else answer

  abbrev pub error_of : Error → FlatbedRouteError H
  error_of e = error_with (status_of_error e).0 (text_of_error e) (status_of_error e).1

  abbrev pub unread : Text → FlatbedRouteError H
  unread e = error_with 400 (codes "Failed to read request body: " ++ e) (codes "BODY_READ_ERROR")

  unfoldable pub finish_handled : RouteRequest → Bool → Handled H → Answer H
  unfolding fail_route build_success_response
  finish_handled route flat (returned made) = reply (build_success_response made)
  finish_handled route flat (failed_with e) =
      fail_route route (status_of_error e).1 (error_of e) flat
  finish_handled route flat (panicked message) = after (panic_reported route message) (
      reply (
        build_route_error_response (error_with 500 (codes "handler panicked") (codes "PANIC")) flat
          route.request_id))

  unfoldable pub strip_body_for_head : Response H → Response H
  strip_body_for_head r = record {
    status = r.status;
    headers = http.insert (codes "content-length") (http.number_value (length r.body)) r.headers;
    body = [];
  }
