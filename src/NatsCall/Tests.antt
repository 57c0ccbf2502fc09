-- ===== src/NatsCall/Tests.antt =====
-- nats_route.rs, nats_request.rs: small runs, and the theorems at concrete inputs.
use flatbed.Base.{ℕ, ◌≡◌, refl, some, none, [], ◌∷◌, ◌++◌, Text, codes, ok, err, arith}
use flatbed.Http.{FlatbedRouteError}
use flatbed.NatsHeaders.{flatten, header_value, from_nats_headers}
use flatbed.NatsHeaders.Laws.{arrived}
use flatbed.NatsHeaders.Samples.{list_map, list_laws, Pairs}
use flatbed.NatsRoute.{NatsRouteInfo}
use flatbed.NatsCall.{Payload, json, flat_buffer, from_content_type}
use flatbed.NatsCall.Reply.{
  DetailsPayload, CallRequest, Outcome, returned, failed, RouteResponse, reply_err, nats_handler,
}
use flatbed.NatsCall.Responder.{parse_u16, dispatch, NatsMessage, route_error}
use flatbed.NatsCall.Client.{NatsRequest, into_future, reply_error, read_reply}
use flatbed.NatsCall.Replies.{IsSendable}
use flatbed.NatsCall.Rejections.{Carries}
use flatbed.NatsCall.Answers.{responder, into_future_refused, into_future_returned}
use flatbed.NatsCall.Reports.{dispatch-told}
use flatbed.NatsCall.Lost.{read_reply_wide}

abbrev plain : Payload Text
plain = record {
  to_json = λ t. ok t;
  to_flatbuffer = λ t. t;
  from_json = λ t. ok t;
  from_flatbuffer = λ t. ok t;
}

abbrev no_details : DetailsPayload Text
no_details = record {
  error_body = λ code message details. ok (code ++ message);
  to_flatbuffer = λ t. t;
}

abbrev status_route : NatsRouteInfo
status_route = record {
  subject = codes "call.status";
  wire_subject = codes "call.status";
  params = [];
}

abbrev gone : FlatbedRouteError Pairs
gone = record {
  status = 503;
  code = codes "GONE";
  message = codes "no such" ++ 10 ∷ codes "satellite" ++ 10 ∷ [];
  headers = (codes "x-trace", codes "t-9") ∷ (codes "x-error-status", codes "200") ∷ [];
}

abbrev refuse : CallRequest Text ℕ → Outcome Text Text
refuse r = failed gone none

abbrev pong : RouteResponse Text
pong = record {
  body = codes "pong";
  headers = (codes "x-error-code", codes "LIE") ∷ [];
  raw = none;
}

abbrev reply_pong : CallRequest Text ℕ → Outcome Text Text
reply_pong r = returned pong

abbrev asking : NatsRequest Text
asking = record {
  subject = codes "call.status";
  body = codes "ping";
  encoding = json;
  timeout = 5000;
  headers = [];
}

flatten_run : flatten (97 ∷ 10 ∷ 194 ∷ 133 ∷ 194 ∷ 169 ∷ []) ≡ 97 ∷ 32 ∷ 32 ∷ 194 ∷ 169 ∷ []
unfolding flatten
flatten_run = refl

parse_u16_run : (parse_u16 (codes "+503") ≡ some 503) × (parse_u16 (codes "65536") ≡ none)
unfolding parse_u16
parse_u16_run = (refl, refl)

gone-IsSendable : IsSendable gone
gone-IsSendable = record {
  status_from = omega arith;
  status_to = omega arith;
  ascii_code = refl;
  ascii_message = refl;
}

into_future_refused_example :
    (r : FlatbedRouteError Pairs) × ((into_future plain
          (responder plain plain no_details
            (codes "App")
            refuse
            status_route
            7
            (codes "id-1")
            (codes "_INBOX"))
          (codes "id-2")
          asking
          plain
        ≡ err (reply_error (codes "call.status") r))
      × Carries gone r)
into_future_refused_example =
    into_future_refused plain plain no_details (codes "App") refuse status_route 7 (codes "id-1")
      (codes "_INBOX") (codes "id-2") asking (codes "ping") gone none refl refl (λ r e. refl)
      gone-IsSendable

into_future_returned_example :
    into_future plain
      (responder plain plain no_details
        (codes "App")
        reply_pong
        status_route
        7
        (codes "id-1")
        (codes "_INBOX"))
      (codes "id-2")
      asking
      plain
    ≡ ok (codes "pong")
into_future_returned_example =
    into_future_returned plain plain no_details (codes "App") reply_pong status_route 7
      (codes "id-1") (codes "_INBOX") (codes "id-2") asking (codes "ping") (codes "pong") pong refl
      refl (λ r e. refl) refl refl refl

abbrev asked_over : NatsMessage
asked_over = record {
  subject = codes "call.status";
  reply = some (codes "_INBOX");
  headers = some ((codes "x-request-id", codes "id-3" ∷ []) ∷ []);
  payload = codes "ping";
}

dispatch-told_example :
    (dispatch no_details status_route
      (nats_handler plain plain no_details (codes "App") refuse)
      (codes "id-1")
      asked_over
      (some 7)).told
    ≡ route_error (record {
      route = codes "call.status";
      path = codes "call.status";
      request_id = codes "id-3";
      status = 503;
      code = some (codes "GONE");
      message = codes "no such satellite ";
    })
      ∷ []
unfolding flatten header_value from_nats_headers from_content_type
dispatch-told_example =
    dispatch-told plain no_details plain (codes "App") refuse status_route (codes "id-1") asked_over
      7 (codes "ping") (failed gone none) refl (λ r e. refl) gone-IsSendable

-- An error whose code is an accented letter.
abbrev accented : FlatbedRouteError Pairs
accented = record { status = 404; code = 195 ∷ 169 ∷ []; message = []; headers = [] }

read_reply_wide_example :
    read_reply plain
      (codes "call.status")
      flat_buffer
      (arrived (reply_err no_details flat_buffer (codes "id-1") accented none).headers, [])
    ≡ ok []
unfolding flatten
read_reply_wide_example =
    read_reply_wide no_details plain flat_buffer (codes "call.status") (codes "id-1") [] accented
      none refl refl
