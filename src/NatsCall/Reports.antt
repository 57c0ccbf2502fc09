-- ===== src/NatsCall/Reports.antt =====
-- crates/flatbed/src/nats_route.rs: what dispatch reports, and an error code that a requester does not see.
use flatbed.Base.{
  ℕ, ◌≡◌, refl, ap, ◌∙◌, Bool, true, false, Option, some, none, List, [], ◌∷◌, ◌<◌, number_keys,
  if◌then◌else◌, leb, Text, arith, ok, ◌>>=◌,
}
use flatbed.Http.{FlatbedRouteError, wire_code}
use flatbed.NatsHeaders.{
  HeaderLibrary, header_value, from_nats_headers, flatten, error_code_header, error_message_header,
  error_status_header, content_type_header, request_id_header,
}
use flatbed.NatsHeaders.Laws.{HeaderLaws, values, digits, is_plain_name}
use flatbed.NatsHeaders.Flatten.{flatten-printable}
use flatbed.NatsHeaders.Hop.{header_value-values, visible_first}
use flatbed.NatsRoute.{NatsRouteInfo, extract_params}
use flatbed.NatsCall.{NatsEncoding, Payload, encode, decode, from_content_type}
use flatbed.NatsCall.Reply.{
  DetailsPayload, NatsRequestParts, CallRequest, Outcome, returned, failed, panicked, reply_err,
  reply_ok, nats_handler, success, reply_body, reply_made, reply_to,
}
use flatbed.NatsCall.Responder.{
  dispatch, conclude_dispatch, NatsMessage, or_default, parse_u16, failure_status, server_status,
  failures, NatsReport, route_error, route_panic,
}
use flatbed.NatsCall.Replies.{
  IsSendable, digits-printable, reply_err-code, reply_err-message, reply_err-status,
  success-error_names,
}
use flatbed.NatsCall.Answers.{AnswersWith, nats_handler-outcome}

parse_u16-digits : (n : ℕ) → n < 1000 → parse_u16 (digits n) ≡ some n
unfolding parse_u16
parse_u16-digits n small = ground arith

module _ ⦃http : HeaderLibrary⦄ ⦃laws : HeaderLaws⦄ where
  header_value-only :
      (t v : Text) (h : http.Map)
      → is_plain_name t ≡ true
      → http.is_visible v ≡ true
      → values t h ≡ v ∷ []
      → header_value t h ≡ some v
  header_value-only t v h plain good only =
      header_value-values t h plain ∙ ap visible_first only ∙ rw good

  header_value-nothing :
      (t : Text) (h : http.Map) → is_plain_name t ≡ true → values t h ≡ [] → header_value t h ≡ none
  header_value-nothing t h plain absent = header_value-values t h plain ∙ ap visible_first absent

  module _ {D : Type 0} (p : DetailsPayload D) (encoding : NatsEncoding) (id : Text)
      (e : FlatbedRouteError http.Map) (details : Option D) where
    abbrev refusing : http.Map
    refusing = (reply_err p encoding id e details).headers

    abbrev pub failure_of : Text → Text → NatsReport
    failure_of route path = route_error (record {
      route = route;
      path = path;
      request_id = id;
      status = e.status;
      code = some (flatten (wire_code e));
      message = flatten e.message;
    })

    abbrev pub failure_due : Text → Text → List NatsReport
    failure_due route path = if leb 500 e.status then failure_of route path ∷ [] else []

    shown :
        (b : Bool) (route path : Text)
        → header_value error_code_header refusing ≡ some (flatten (wire_code e))
        → header_value error_message_header refusing ≡ some (flatten e.message)
        → failures route path id refusing (if b then some e.status else none)
          ≡ (if b then failure_of route path ∷ [] else [])
    shown true route path code message = rw (code, message)
    shown false route path code message = refl

    reply_err-failures :
        (route path : Text)
        → IsSendable e
        → failures route path id refusing (failure_status refusing) ≡ failure_due route path
    unfolding failure_status
    reply_err-failures route path good =
        let code =
          header_value-only error_code_header (flatten (wire_code e)) refusing refl
            (laws.printable-visible _ (flatten-printable (wire_code e) good.ascii_code))
            (reply_err-code p encoding id e details good.ascii_code) in
        let message =
          header_value-only error_message_header (flatten e.message) refusing refl
            (laws.printable-visible _ (flatten-printable e.message good.ascii_message))
            (reply_err-message p encoding id e details good.ascii_message) in
        let status =
          header_value-only error_status_header (digits e.status) refusing refl
            (laws.printable-visible _ (digits-printable e.status good.status_to))
            (reply_err-status p encoding id e details good.status_from good.status_to) in
        ap (λ s. failures route path id refusing (server_status (s >>= parse_u16))) status
        ∙ ap (λ n. failures route path id refusing (server_status n))
            (parse_u16-digits e.status good.status_to)
        ∙ shown (leb 500 e.status) route path code message

  success-failures :
      (route path id shown_id : Text) (h : http.Map) (made : Text × Text)
      → failures route path id
          (success shown_id h made).headers
          (failure_status (success shown_id h made).headers)
        ≡ []
  unfolding failure_status
  success-failures route path id shown_id h made =
      let headers = (success shown_id h made).headers in
      ap (λ s. failures route path id headers (server_status (s >>= parse_u16)))
        (header_value-nothing error_status_header headers refl
          (success-error_names error_status_header shown_id h made refl refl refl))

  module _ {R D : Type 0} (s : Payload R) (p : DetailsPayload D) where
    -- The outcomes whose reply is the handler's own: a success that can be encoded, an error that
    -- can be sent, or a panic.
    abbrev pub IsExpressible : NatsEncoding → Outcome R D → Type 0
    IsExpressible encoding (returned made) =
        (body : Text × Text) × (reply_body encoding made.raw (encode s encoding made.body)
          ≡ ok body)
    IsExpressible encoding (failed e details) = IsSendable e
    IsExpressible encoding (panicked message) = Unit

    abbrev pub due : NatsEncoding → Text → Text → Text → Outcome R D → List NatsReport
    due encoding id route path (returned made) = []
    due encoding id route path (failed e details) = failure_due p encoding id e details route path
    due encoding id route path (panicked message) = route_panic route path id message ∷ []

    module _ {T C : Type 0} (q : Payload T) (context_type : Text)
        (handler : CallRequest T C → Outcome R D) (route : NatsRouteInfo) where
      conclude_dispatch-told :
          (encoding : NatsEncoding) (id path : Text) (o : Outcome R D)
          → IsExpressible encoding o
          → (conclude_dispatch p route
              (nats_handler q s p context_type handler)
              encoding
              id
              path
              (reply_to q s p context_type handler encoding id o)).told
            ≡ due encoding id route.subject path o
      unfolding reply_ok
      conclude_dispatch-told encoding id path (returned made) (body, same) =
          ap
            (λ b.
              (conclude_dispatch p route (nats_handler q s p context_type handler) encoding id path
                (ok (reply_made p encoding id made.headers b))).told)
            same
          ∙ success-failures route.subject path id id made.headers body
      conclude_dispatch-told encoding id path (failed e details) good =
          reply_err-failures p encoding id e details route.subject path good
      conclude_dispatch-told encoding id path (panicked message) done = refl

      abbrev pub encoding_of : NatsMessage → NatsEncoding
      encoding_of message =
          from_content_type (header_value content_type_header (from_nats_headers message.headers))

      abbrev pub id_of : (fresh_id : Text) → NatsMessage → Text
      id_of fresh_id message =
          or_default (header_value request_id_header (from_nats_headers message.headers)) fresh_id

      -- For a message whose payload decodes and whose handler panics, fails with an error that can
      -- be sent or returns a response that can be encoded, exactly the panics and the errors of
      -- status 500 and above are reported, under the route, the subject and the identifier of the
      -- request, an error with its status, code and message.
      pub dispatch-told :
          (fresh_id : Text) (message : NatsMessage) (c : C) (body : T) (o : Outcome R D)
          → decode q (encoding_of message) message.payload ≡ ok body
          → AnswersWith handler body o
          → IsExpressible (encoding_of message) o
          → (dispatch p route
              (nats_handler q s p context_type handler)
              fresh_id
              message
              (some c)).told
            ≡ due (encoding_of message) (id_of fresh_id message) route.subject message.subject o
      unfolding dispatch
      dispatch-told fresh_id message c body o known does fits =
          let encoding = encoding_of message in
          let id = id_of fresh_id message in
          let parts : NatsRequestParts = record {
            subject = message.subject;
            params = extract_params route.params message.subject;
            headers = from_nats_headers message.headers;
            request_id = id;
            encoding = encoding;
          } in
          ap
            (λ r.
              (conclude_dispatch p route (nats_handler q s p context_type handler) encoding id
                message.subject r).told)
            (nats_handler-outcome q s p context_type handler parts message.payload c body o known
              does)
          ∙ conclude_dispatch-told encoding id message.subject o fits
