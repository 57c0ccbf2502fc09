-- ===== src/NatsCall/Responder.antt =====
-- crates/flatbed/src/nats_route.rs: dispatch, and the loop of run_nats_route over the messages of its
-- subscription. What the broker delivers is given, and each message is answered on a task of its own.
use flatbed.Base.{
  ℕ, Option, some, none, List, [], ◌∷◌, ◌+◌, ◌-◌, ◌*◌, ◌&&◌, ◌==◌, number_keys, if◌then◌else◌, leb,
  ◌>>=◌, Text, codes, Result, ok, err,
}
use flatbed.NatsHeaders.{
  HeaderLibrary, header_value, from_nats_headers, to_nats_headers, content_type_header,
  request_id_header, error_code_header, error_message_header, error_status_header,
}
use flatbed.NatsRoute.{NatsRouteInfo, extract_params}
use flatbed.NatsCall.{NatsEncoding, from_content_type}
use flatbed.NatsCall.Reply.{NatsReply, NatsRequestParts, route_error_of, reply_err, DetailsPayload}

pub record NatsFailure : Type 0 where
  pub route : Text
  pub path : Text
  pub request_id : Text
  pub status : ℕ
  pub code : Option Text
  pub message : Text

-- What is reported.
pub data NatsReport : Type 0 where
  route_error : NatsFailure → NatsReport
  route_panic : (route path request_id message : Text) → NatsReport

-- The digits that follow a number.
abbrev pub parse_digits : Text → ℕ → Option ℕ
parse_digits [] n = some n
parse_digits (c ∷ cs) n =
    let rest = parse_digits cs (n * 10 + (c - 48)) in if leb 48 c && leb c 57 then rest else none

abbrev pub some_digits : Text → Option ℕ
some_digits [] = none
some_digits (c ∷ cs) = parse_digits (c ∷ cs) 0

abbrev pub fits_u16 : ℕ → Option ℕ
fits_u16 n = if leb n 65535 then some n else none

-- `str::parse::<u16>`: digits after an optional plus.
unfoldable pub parse_u16 : Text → Option ℕ
parse_u16 [] = none
parse_u16 (c ∷ cs) = do n ← some_digits (if c == 43 then cs else c ∷ cs); fits_u16 n

abbrev pub server_status : Option ℕ → Option ℕ
server_status none = none
server_status (some status) = if leb 500 status then some status else none

abbrev pub or_default : Option Text → Text → Text
or_default none t = t
or_default (some s) t = s

module _ ⦃http : HeaderLibrary⦄ where
  pub record NatsMessage : Type 0 where
    pub subject : Text
    pub reply : Option Text
    pub headers : Option http.Wire
    pub payload : Text

  pub record Dispatched : Type 0 where
    pub reply : NatsReply
    pub told : List NatsReport

  -- The status that the reply is reported with.
  unfoldable pub failure_status : http.Map → Option ℕ
  unfolding header_value parse_u16
  failure_status headers =
      server_status (do status ← header_value error_status_header headers; parse_u16 status)

  abbrev pub failures : Text → Text → Text → http.Map → Option ℕ → List NatsReport
  failures route path request_id headers none = []
  failures route path request_id headers (some status) =
      route_error (record {
        route = route;
        path = path;
        request_id = request_id;
        status = status;
        code = header_value error_code_header headers;
        message = or_default (header_value error_message_header headers) [];
      })
      ∷ []

  module _ {A D : Type 0} (details : DetailsPayload D) (route : NatsRouteInfo)
      (handler : NatsRequestParts → Text → A → Result {0, 0} Text NatsReply) where
    abbrev pub panic_reply : NatsEncoding → Text → NatsReply
    panic_reply encoding request_id =
        reply_err details encoding request_id
          (route_error_of 500 (codes "handler panicked") (codes "PANIC")) none

    abbrev pub conclude_dispatch :
        NatsEncoding → Text → Text → Result {0, 0} Text NatsReply → Dispatched
    conclude_dispatch encoding request_id path (ok reply) = record {
      reply = reply;
      told = failures route.subject path request_id reply.headers (failure_status reply.headers);
    }
    conclude_dispatch encoding request_id path (err message) = record {
      reply = panic_reply encoding request_id;
      told = route_panic route.subject path request_id message ∷ [];
    }

    unfoldable pub dispatch : (fresh_id : Text) → NatsMessage → A → Dispatched
    unfolding from_nats_headers header_value from_content_type failure_status reply_err
    dispatch fresh_id message ctx =
        let headers = from_nats_headers message.headers in
        let encoding = from_content_type (header_value content_type_header headers) in
        let request_id = or_default (header_value request_id_header headers) fresh_id in
        conclude_dispatch encoding request_id message.subject (
          handler
            (record {
              subject = message.subject;
              params = extract_params route.params message.subject;
              headers = headers;
              request_id = request_id;
              encoding = encoding;
            })
            message.payload ctx)

    pub record Published : Type 0 where
      pub subject : Text
      pub headers : http.Wire
      pub payload : Text

    abbrev pub published : Text → NatsReply → Published
    published subject reply = record {
      subject = subject;
      headers = to_nats_headers reply.headers;
      payload = reply.payload;
    }

    abbrev pub answer_to : Option Text → Dispatched → List Published → List Published
    answer_to none done rest = rest
    answer_to (some subject) done rest = published subject done.reply ∷ rest

    -- The answers to the messages that ask for one.
    pub answer_all : A → List (Text × NatsMessage) → List Published
    unfolding dispatch
    answer_all ctx [] = []
    answer_all ctx ((fresh_id, message) ∷ messages) =
        answer_to message.reply (dispatch fresh_id message ctx) (answer_all ctx messages)

    -- What was published, and the code of the error that the worker ends with.
    pub run_nats_route :
        (context : Option A)
        → (subscribed : Result {0, 0} Text (List (Text × NatsMessage))) → List Published × Text
    unfolding answer_all
    run_nats_route none subscribed = ([], codes "nats_route_context")
    run_nats_route (some ctx) (err e) = ([], codes "nats_route_subscribe")
    run_nats_route (some ctx) (ok messages) =
        (answer_all ctx messages, codes "nats_route_subscription_ended")
