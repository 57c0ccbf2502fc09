-- ===== src/NatsCall/Reply.antt =====
-- crates/flatbed/src/nats_route.rs: how replies are built; flatbed_macros/src/nats_route.rs: the wrapper
-- that the macro puts around a handler.
use flatbed.Base.{ℕ, Option, some, none, List, [], ◌∷◌, ◌++◌, Text, codes, Result, ok, err}
use flatbed.Http.{FlatbedRouteError, wire_code}
use flatbed.NatsHeaders.{
  HeaderLibrary, copy_headers, set_header, remove_all, content_type_header, request_id_header,
  error_code_header, error_message_header, error_status_header,
}
use flatbed.NatsCall.{NatsEncoding, json, flat_buffer, content_type, Payload, encode, decode}
use flatbed.Router.{Params}

-- What an error's details are encoded by: `serde_json::to_vec` of an ErrorBody, and ToFlatBuffer.
pub record DetailsPayload (D : Type 0) : Type 0 where
  pub error_body : (code message : Text) → Option D → Result {0, 0} Text Text
  pub to_flatbuffer : D → Text

abbrev pub or_empty : Result {0, 0} Text Text → Text
or_empty (ok bytes) = bytes
or_empty (err e) = []

abbrev pub error_names : List Text
error_names = error_code_header ∷ error_message_header ∷ error_status_header ∷ []

abbrev pub error_payload :
    {D : Type 0} → DetailsPayload D → NatsEncoding → (code message : Text) → Option D → Text
error_payload p json code message details = or_empty (p.error_body code message details)
error_payload p flat_buffer code message none = []
error_payload p flat_buffer code message (some details) = p.to_flatbuffer details

module _ ⦃http : HeaderLibrary⦄ where
  pub record NatsReply : Type 0 where
    pub payload : Text
    pub headers : http.Map

  pub record NatsRequestParts : Type 0 where
    pub subject : Text
    pub headers : http.Map
    pub params : Params
    pub request_id : Text
    pub encoding : NatsEncoding

  -- `Response<T>` of a handler; a raw one has its own bytes and content type.
  pub record RouteResponse (T : Type 0) : Type 0 where
    pub body : T
    pub headers : http.Map
    pub raw : Option (Text × Text)

  pub record CallRequest (T C : Type 0) : Type 0 where
    pub body : T
    pub ctx : C
    pub headers : http.Map
    pub path : Text
    pub path_params : Params
    pub request_id : Text

  -- What comes of a handler.
  pub data Outcome (R D : Type 0) : Type 0 where
    returned : RouteResponse R → Outcome R D
    failed : FlatbedRouteError http.Map → (details : Option D) → Outcome R D
    panicked : (message : Text) → Outcome R D

  abbrev pub route_error_of : ℕ → Text → Text → FlatbedRouteError http.Map
  route_error_of status message code = record {
    status = status;
    code = code;
    message = message;
    headers = http.empty;
  }

  abbrev pub with_framing : NatsEncoding → Text → http.Map → http.Map
  with_framing encoding request_id headers =
      set_header request_id_header request_id
        (set_header content_type_header (content_type encoding) (copy_headers headers))

  unfoldable pub reply_err :
      {D : Type 0}
      → DetailsPayload D
      → NatsEncoding
      → Text
      → FlatbedRouteError http.Map
      → (details : Option D) → NatsReply
  reply_err p encoding request_id e details = record {
    payload = error_payload p encoding (wire_code e) e.message details;
    headers = set_header error_status_header (http.status_str e.status) (
        set_header error_message_header e.message (
          set_header error_code_header (wire_code e) (with_framing encoding request_id e.headers)));
  }

  abbrev pub reply_body :
      NatsEncoding
      → Option (Text × Text)
      → Result {0, 0} Text Text
      → Result {0, 0} Text (Text × Text)
  reply_body encoding (some raw) encoded = ok raw
  reply_body encoding none (ok bytes) = ok (bytes, content_type encoding)
  reply_body encoding none (err e) = err e

  abbrev pub success : Text → http.Map → Text × Text → NatsReply
  success request_id headers made = record {
    payload = made.0;
    headers =
        set_header request_id_header request_id
          (set_header content_type_header made.1 (remove_all error_names (copy_headers headers)));
  }

  abbrev pub reply_made :
      {D : Type 0}
      → DetailsPayload D
      → NatsEncoding
      → Text
      → http.Map
      → Result {0, 0} Text (Text × Text)
      → NatsReply
  reply_made d encoding request_id headers (ok made) = success request_id headers made
  reply_made d encoding request_id headers (err e) =
      reply_err d encoding request_id
        (route_error_of 500 (codes "JSON serialization error: " ++ e) (codes "SERIALIZATION_ERROR"))
        none

  unfoldable pub reply_ok :
      {T D : Type 0}
      → Payload T
      → DetailsPayload D
      → NatsEncoding
      → Text
      → RouteResponse T
      → NatsReply
  unfolding reply_err
  reply_ok p d encoding request_id response =
      reply_made d encoding request_id response.headers
        (reply_body encoding response.raw (encode p encoding response.body))

  abbrev pub body_error : NatsEncoding → Text → FlatbedRouteError http.Map
  body_error json e =
      route_error_of 400 (codes "JSON deserialization error: " ++ e) (codes "DESERIALIZATION_ERROR")
  body_error flat_buffer e =
      route_error_of 400 (codes "FlatBuffer deserialization error: " ++ e)
        (codes "DESERIALIZATION_ERROR")

  abbrev pub mismatch : Text → FlatbedRouteError http.Map
  mismatch context_type =
      route_error_of 500 (codes "nats_route context type mismatch: expected " ++ context_type)
        (codes "CONTEXT_TYPE_MISMATCH")

  module _ {T R D C : Type 0} (request : Payload T) (response : Payload R)
      (details : DetailsPayload D) (context_type : Text)
      (handler : CallRequest T C → Outcome R D) where
    abbrev pub reply_to : NatsEncoding → Text → Outcome R D → Result {0, 0} Text NatsReply
    reply_to encoding request_id (returned made) =
        ok (reply_ok response details encoding request_id made)
    reply_to encoding request_id (failed e more) = ok (reply_err details encoding request_id e more)
    reply_to encoding request_id (panicked message) = err message

    -- The context is none where it is of another type.
    abbrev pub handle_decoded :
        NatsRequestParts → Option C → Result {0, 0} Text T → Result {0, 0} Text NatsReply
    handle_decoded parts ctx (err e) =
        ok (reply_err details parts.encoding parts.request_id (body_error parts.encoding e) none)
    handle_decoded parts none (ok body) =
        ok (reply_err details parts.encoding parts.request_id (mismatch context_type) none)
    handle_decoded parts (some c) (ok body) = reply_to parts.encoding parts.request_id (
        handler (record {
          body = body;
          ctx = c;
          headers = parts.headers;
          path = parts.subject;
          path_params = parts.params;
          request_id = parts.request_id;
        }))

    -- The error of the result is the message of a panic.
    unfoldable pub nats_handler : NatsRequestParts → Text → Option C → Result {0, 0} Text NatsReply
    unfolding reply_ok reply_err
    nats_handler parts payload ctx =
        handle_decoded parts ctx (decode request parts.encoding payload)
