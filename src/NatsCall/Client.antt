-- ===== src/NatsCall/Client.antt =====
-- crates/flatbed/src/nats_request.rs: a typed request. The connection is given as what sending comes to.
use flatbed.Base.{
  ℕ, Option, some, none, List, [], ◌∷◌, ◌++◌, if◌then◌else◌, ◌>>=◌, Text, codes, is_some, Result,
  ok, err,
}
use flatbed.Http.{FlatbedRouteError}
use flatbed.NatsHeaders.{
  HeaderLibrary, header_value, set_header, remove_all, from_nats_headers, to_nats_headers,
  content_type_header, request_id_header, error_code_header, error_message_header,
  error_status_header,
}
use flatbed.NatsCall.{NatsEncoding, flat_buffer, content_type, Payload, encode, decode}
use flatbed.NatsCall.Reply.{route_error_of}
use flatbed.NatsCall.Responder.{or_default}

pub data RequestErrorKind : Type 0 where
  timed_out no_responders other : RequestErrorKind

abbrev pub framework_headers : List Text
framework_headers =
    content_type_header ∷ request_id_header ∷ error_code_header ∷ error_message_header
    ∷ error_status_header ∷ []

abbrev pub or_internal : Option ℕ → ℕ
or_internal none = 500
or_internal (some status) = status

module _ ⦃http : HeaderLibrary⦄ where
  pub data NatsRequestError : Type 0 where
    encode_error : (subject message : Text) → NatsRequestError
    no_responders_error : (subject : Text) → NatsRequestError
    timeout_error : (subject : Text) → (timeout : ℕ) → NatsRequestError
    transport_failure : (subject message : Text) → NatsRequestError
    reply_error : (subject : Text) → FlatbedRouteError http.Map → NatsRequestError
    decode_error : (subject message : Text) → NatsRequestError

  pub record NatsRequest (T : Type 0) : Type 0 where
    pub subject : Text
    pub body : T
    pub encoding : NatsEncoding
    pub timeout : ℕ
    pub headers : http.Map

  -- The timeout is in milliseconds.
  pub typed_request : {T : Type 0} → Text → T → NatsRequest T
  typed_request subject body = record {
    subject = subject;
    body = body;
    encoding = flat_buffer;
    timeout = 5000;
    headers = http.empty;
  }

  abbrev pub set_encoding : {T : Type 0} → NatsEncoding → NatsRequest T → NatsRequest T
  set_encoding encoding request = record request { encoding = encoding }

  abbrev pub set_timeout : {T : Type 0} → ℕ → NatsRequest T → NatsRequest T
  set_timeout timeout request = record request { timeout = timeout }

  pub header : {T : Type 0} → Text → Text → NatsRequest T → NatsRequest T
  unfolding set_header
  header name value request = record request { headers = set_header name value request.headers }

  abbrev pub with_request_id : Option Text → (fresh_id : Text) → http.Map → http.Map
  with_request_id (some id) fresh_id headers = headers
  with_request_id none fresh_id headers = set_header request_id_header fresh_id headers

  unfoldable pub request_headers : NatsEncoding → (fresh_id : Text) → http.Map → http.Map
  unfolding header_value set_header
  request_headers encoding fresh_id headers =
      set_header content_type_header (content_type encoding)
        (with_request_id (header_value request_id_header headers) fresh_id headers)

  unfoldable pub transport_error : Text → ℕ → RequestErrorKind → Text → NatsRequestError
  transport_error subject timeout timed_out message = timeout_error subject timeout
  transport_error subject timeout no_responders message = no_responders_error subject
  transport_error subject timeout other message = transport_failure subject message

  unfoldable pub rejection : http.Map → FlatbedRouteError http.Map
  unfolding header_value remove_all
  rejection headers = record {
    status =
        or_internal (do status ← header_value error_status_header headers; http.status_from status);
    code = or_default (header_value error_code_header headers) (codes "ERROR");
    message = or_default (header_value error_message_header headers) [];
    headers = remove_all framework_headers headers;
  }

  -- The answer of a responder: its headers and its payload.
  abbrev pub Answered : Type 0
  Answered = Option http.Wire × Text

  module _ {R : Type 0} (response : Payload R) where
    abbrev pub decoded : Text → Result {0, 0} Text R → Result {0, 0} NatsRequestError R
    decoded subject (ok body) = ok body
    decoded subject (err message) = err (decode_error subject message)

    unfoldable pub read_reply : Text → NatsEncoding → Answered → Result {0, 0} NatsRequestError R
    unfolding from_nats_headers header_value rejection
    read_reply subject encoding (wire, payload) =
        let headers = from_nats_headers wire in
        if is_some (header_value error_code_header headers)
        then err (reply_error subject (rejection headers))
        else decoded subject (decode response encoding payload)

    abbrev pub received :
        Text
        → ℕ
        → NatsEncoding
        → Result {0, 0} (RequestErrorKind × Text) Answered
        → Result {0, 0} NatsRequestError R
    received subject timeout encoding (err (kind, message)) =
        err (transport_error subject timeout kind message)
    received subject timeout encoding (ok answer) = read_reply subject encoding answer

    -- `send` is what `send_request` comes to.
    module _ {T : Type 0}
        (send : (subject payload : Text)
          → http.Wire
          → (timeout : ℕ) → Result {0, 0} (RequestErrorKind × Text) Answered)
        (fresh_id : Text) (request : NatsRequest T) where
      abbrev pub send_encoded : Result {0, 0} Text Text → Result {0, 0} NatsRequestError R
      send_encoded (err message) = err (encode_error request.subject message)
      send_encoded (ok payload) = received request.subject request.timeout request.encoding (
          send request.subject payload
            (to_nats_headers (request_headers request.encoding fresh_id request.headers))
            request.timeout)

      unfoldable pub into_future : Payload T → Result {0, 0} NatsRequestError R
      unfolding request_headers to_nats_headers transport_error read_reply
      into_future body = send_encoded (encode body request.encoding request.body)

  module _ (debug_duration : ℕ → Text) (debug_error : FlatbedRouteError http.Map → Text) where
    -- `Display`.
    abbrev pub to_text : NatsRequestError → Text
    to_text (encode_error subject message) =
        codes "request to '" ++ (subject ++ (codes "' could not be encoded: " ++ message))
    to_text (no_responders_error subject) =
        codes "no responder is subscribed to '" ++ (subject ++ codes "'")
    to_text (timeout_error subject timeout) =
        codes "no reply on '" ++ (subject ++ (codes "' within " ++ debug_duration timeout))
    to_text (transport_failure subject message) =
        codes "request to '" ++ (subject ++ (codes "' failed: " ++ message))
    to_text (reply_error subject error) =
        codes "'" ++ (subject ++ (codes "' rejected the request: " ++ debug_error error))
    to_text (decode_error subject message) =
        codes "reply on '" ++ (subject ++ (codes "' could not be decoded: " ++ message))

    -- `From<NatsRequestError>`.
    unfoldable pub to_route_error : NatsRequestError → FlatbedRouteError http.Map
    to_route_error (encode_error subject message) =
        route_error_of 500 (to_text (encode_error subject message)) (codes "NATS_ENCODE_ERROR")
    to_route_error (no_responders_error subject) =
        route_error_of 502 (to_text (no_responders_error subject)) (codes "NATS_NO_RESPONDERS")
    to_route_error (timeout_error subject timeout) =
        route_error_of 504 (to_text (timeout_error subject timeout)) (codes "NATS_TIMEOUT")
    to_route_error (transport_failure subject message) =
        route_error_of 502 (to_text (transport_failure subject message))
          (codes "NATS_TRANSPORT_ERROR")
    to_route_error (reply_error subject error) = error
    to_route_error (decode_error subject message) =
        route_error_of 502 (to_text (decode_error subject message)) (codes "NATS_DECODE_ERROR")
