-- ===== src/NatsCall/Answers.antt =====
-- crates/flatbed/src/nats_request.rs, nats_route.rs: a request, its handler and the answer, from end to end.
use flatbed.Base.{ℕ, ◌≡◌, refl, ap, ◌∙◌, Option, some, none, Text, Result, ok, err}
use flatbed.Http.{FlatbedRouteError}
use flatbed.NatsHeaders.{
  HeaderLibrary, header_value, error_code_header, content_type_header, request_id_header,
}
use flatbed.NatsHeaders.Laws.{HeaderLaws, arrived}
use flatbed.NatsHeaders.Hop.{header_value-absent}
use flatbed.NatsHeaders.Values.{filter_list}
use flatbed.NatsRoute.{NatsRouteInfo, extract_params}
use flatbed.NatsCall.{NatsEncoding, Payload, encode, decode, from_content_type, content_type}
use flatbed.NatsCall.Reply.{
  DetailsPayload, NatsReply, NatsRequestParts, CallRequest, Outcome, returned, failed,
  RouteResponse, reply_err, reply_ok, nats_handler, success, reply_to, handle_decoded, reply_made,
  reply_body,
}
use flatbed.NatsCall.Responder.{dispatch, conclude_dispatch, Dispatched, or_default}
use flatbed.NatsCall.Client.{
  NatsRequest, NatsRequestError, reply_error, read_reply, decoded, into_future, send_encoded,
  request_headers, rejection, Answered, RequestErrorKind,
}
use flatbed.NatsCall.Replies.{IsSendable, success-error_names}
use flatbed.NatsCall.Rejections.{Carries, hop, refused, rejection-Carries, read_reply-rejection}
use flatbed.NatsCall.Sending.{request_headers-encoding, answering}

module _ ⦃http : HeaderLibrary⦄ where
  -- A handler whose outcome on a body is known.
  abbrev pub AnswersWith :
      {T R D C : Type 0} → (CallRequest T C → Outcome R D) → T → Outcome R D → Type 0
  AnswersWith {T} {R} {D} {C} handler x o = (r : CallRequest T C) → r.body ≡ x → handler r ≡ o

module _ ⦃http : HeaderLibrary⦄ ⦃laws : HeaderLaws⦄ where
  -- A success is decoded.
  read_reply-success :
      {R : Type 0} (response : Payload R) (encoding : NatsEncoding) (subject id : Text)
      (h : http.Map) (made : Text × Text)
      → read_reply response subject encoding (arrived (success id h made).headers, made.0)
        ≡ decoded response subject (decode response encoding made.0)
  unfolding read_reply
  read_reply-success response encoding subject id h made = rw (
      header_value-absent error_code_header (success id h made).headers refl (
        ap (filter_list http.is_visible)
          (success-error_names error_code_header id h made refl refl refl)))

  module _ {T R D C : Type 0} (q : Payload T) (s : Payload R) (p : DetailsPayload D)
      (context_type : Text) (handler : CallRequest T C → Outcome R D) where
    pub nats_handler-outcome :
        (parts : NatsRequestParts) (payload : Text) (c : C) (x : T) (o : Outcome R D)
        → decode q parts.encoding payload ≡ ok x
        → AnswersWith handler x o
        → nats_handler q s p context_type handler parts payload (some c)
          ≡ reply_to q s p context_type handler parts.encoding parts.request_id o
    unfolding nats_handler
    nats_handler-outcome parts payload c x o known does =
        let asked : CallRequest T C = record {
          body = x;
          ctx = c;
          headers = parts.headers;
          path = parts.subject;
          path_params = parts.params;
          request_id = parts.request_id;
        } in
        ap (handle_decoded q s p context_type handler parts (some c)) known
        ∙ ap (reply_to q s p context_type handler parts.encoding parts.request_id) (does asked refl)

    module _ (route : NatsRouteInfo) (c : C) (fresh_id : Text) (inbox : Text) where
      abbrev pub responder :
          Text → Text → http.Wire → ℕ → Result {0, 0} (RequestErrorKind × Text) Answered
      responder =
          answering p route (nats_handler q s p context_type handler) (some c) fresh_id inbox

      -- What the responder sends for the outcome of its handler.
      abbrev pub sent : Dispatched → Answered
      sent done = (arrived done.reply.headers, done.reply.payload)

      abbrev pub concluded : NatsEncoding → Text → Text → Outcome R D → Dispatched
      concluded encoding id subject o =
          conclude_dispatch p route (nats_handler q s p context_type handler) encoding id subject
            (reply_to q s p context_type handler encoding id o)

      -- A request whose body can be encoded and read again reaches the handler, and what the handler
      -- makes of it is what the requester reads.
      pub into_future-responder :
          (own_id : Text) (request : NatsRequest T) (bytes : Text) (o : Outcome R D)
          → encode q request.encoding request.body ≡ ok bytes
          → decode q request.encoding bytes ≡ ok request.body
          → AnswersWith handler request.body o
          → (id : Text) × (into_future s responder own_id request q
              ≡ read_reply s request.subject request.encoding
                  (sent (concluded request.encoding id request.subject o)))
      unfolding into_future dispatch
      into_future-responder own_id request bytes o encoded known does =
          let headers = hop (request_headers request.encoding own_id request.headers) in
          let e = from_content_type (header_value content_type_header headers) in
          let id = or_default (header_value request_id_header headers) fresh_id in
          let same : e ≡ request.encoding =
            request_headers-encoding request.encoding own_id request.headers in
          let parts : NatsRequestParts = record {
            subject = request.subject;
            params = extract_params route.params request.subject;
            headers = headers;
            request_id = id;
            encoding = e;
          } in
          let handled =
            nats_handler-outcome parts bytes c request.body o
              (ap (λ k. decode q k bytes) same ∙ known) does in
          let handle = nats_handler q s p context_type handler in
          let read : Dispatched → Result {0, 0} NatsRequestError R =
            λ done. read_reply s request.subject request.encoding (sent done) in
          (
            id,
            ap (send_encoded s responder own_id request) encoded
                ∙ ap (λ r. read (conclude_dispatch p route handle e id request.subject r)) handled
                ∙ ap (λ k. read (concluded k id request.subject o)) same,
          )

      -- Where the body of a request can be encoded and read again and the handler of the responder
      -- answers it with an error of a three-digit status and an ASCII code and message, the
      -- requester gets a rejection of the same status, whose code and message are those of the
      -- error with each control character made a blank and trimmed as the client trims what it
      -- parses, and whose headers are the visible ones of the error, trimmed too, but for those
      -- that the framework sets.
      pub into_future_refused :
          (own_id : Text) (request : NatsRequest T) (bytes : Text) (e : FlatbedRouteError http.Map)
          (details : Option D)
          → encode q request.encoding request.body ≡ ok bytes
          → decode q request.encoding bytes ≡ ok request.body
          → AnswersWith handler request.body (failed e details)
          → IsSendable e
          → (r : FlatbedRouteError http.Map) × ((into_future s responder own_id request q
                ≡ err (reply_error request.subject r))
              × Carries e r)
      into_future_refused own_id request bytes e details encoded known does good =
          let (id, same) =
            into_future-responder own_id request bytes (failed e details) encoded known does in
          let reply = reply_err p request.encoding id e details in
          (
            rejection (refused p request.encoding id e details good),
            (
              same
                  ∙ read_reply-rejection p request.encoding id e details good s request.subject
                      reply.payload,
              rejection-Carries p request.encoding id e details good,
            ),
          )

      -- Where the bodies of a request and of the response can be encoded and read again in the
      -- encoding of the request, and the response of the handler is not raw, the requester gets the
      -- body that the handler returned, whatever headers the handler set.
      pub into_future_returned :
          (own_id : Text) (request : NatsRequest T) (bytes answer : Text) (made : RouteResponse R)
          → encode q request.encoding request.body ≡ ok bytes
          → decode q request.encoding bytes ≡ ok request.body
          → AnswersWith handler request.body (returned made)
          → made.raw ≡ none
          → encode s request.encoding made.body ≡ ok answer
          → decode s request.encoding answer ≡ ok made.body
          → into_future s responder own_id request q ≡ ok made.body
      unfolding reply_ok
      into_future_returned own_id request bytes answer made encoded known does plain written read =
          let (id, same) =
            into_future-responder own_id request bytes (returned made) encoded known does in
          let body =
            ap (λ raw. reply_body request.encoding raw (encode s request.encoding made.body)) plain
            ∙ ap (reply_body request.encoding none) written in
          let answers : NatsReply → Answered = λ reply. (arrived reply.headers, reply.payload) in
          same
          ∙ ap
              (λ b.
                read_reply s request.subject request.encoding
                  (answers (reply_made p request.encoding id made.headers b)))
              body
          ∙ read_reply-success s request.encoding request.subject id made.headers
              (answer, content_type request.encoding)
          ∙ ap (decoded s request.subject) read
