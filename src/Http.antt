-- ===== src/Http.antt =====
-- crates/flatbed/src/lib.rs: the parts of a response and the errors of routes; service.rs: how responses
-- are built. What these use of the crates http and serde_json is an interface; a header map is of a type
-- `H` of http.
pub mod Samples
use flatbed.Base.{
  ℕ, ◌≡◌, Bool, Option, some, List, [], ◌∷◌, Text, codes, if◌then◌else◌, is_empty, join, leb, ltb,
  ◌&&◌,
}

pub record HttpLibrary (H : Type 0) : Type 0 where
  pub empty : H
  pub insert : Text → Text → H → H
  pub append : Text → Text → H → H
  pub get : Text → H → Option Text
  pub pairs : H → List (Text × Text)
  -- `HeaderValue::try_from` gives a value, and `HeaderValue::to_str` a text.
  pub is_value : Text → Bool
  pub is_visible : Text → Bool
  -- `HeaderValue::from` of a number.
  pub number_value : ℕ → Text
  -- `serde_json::json!` of a code and a message.
  pub error_json : Text → Text → Text
  pub get-insert : (k v : Text) (h : H) → get k (insert k v h) ≡ some v

pub record ResponseParts (H : Type 0) : Type 0 where
  pub body : Text
  pub status : ℕ
  pub headers : H
  pub content_type : Text

pub record FlatbedRouteError (H : Type 0) : Type 0 where
  pub status : ℕ
  pub code : Text
  pub message : Text
  pub headers : H

pub record Response (H : Type 0) : Type 0 where
  pub status : ℕ
  pub headers : H
  pub body : Text

abbrev pub is_server_error : ℕ → Bool
is_server_error status = leb 500 status && ltb status 600

-- The code on the wire: its own, or `ERROR`.
abbrev pub wire_code : {H : Type 0} → FlatbedRouteError H → Text
wire_code e = if is_empty e.code then codes "ERROR" else e.code

module _ {H : Type 0} ⦃http : HttpLibrary H⦄ where
  abbrev pub response_ok : Text → Text → ResponseParts H
  response_ok body content_type = record {
    body = body;
    status = 200;
    headers = http.empty;
    content_type = content_type;
  }

  abbrev pub error_with : ℕ → Text → Text → FlatbedRouteError H
  error_with status message code = record {
    status = status;
    code = code;
    message = message;
    headers = http.empty;
  }

  abbrev pub typed_response : ℕ → Text → Text → Response H
  typed_response status content_type body = record {
    status = status;
    headers = http.append (codes "content-type") content_type http.empty;
    body = body;
  }

  -- Headers whose values are no text are left out.
  abbrev pub append_visible : List (Text × Text) → H → H
  append_visible [] h = h
  append_visible ((k, v) ∷ kvs) h =
      append_visible kvs (if http.is_visible v then http.append k v h else h)

  abbrev pub insert_all : List (Text × Text) → H → H
  insert_all [] h = h
  insert_all ((k, v) ∷ kvs) h = insert_all kvs (http.insert k v h)

  abbrev pub insert_value : Text → Text → H → H
  insert_value k v h = if http.is_value v then http.insert k v h else h

  abbrev pub build_failed : Response H
  build_failed = record {
    status = 500;
    headers = http.empty;
    body = codes "Failed to build response";
  }

  unfoldable pub build_success_response : ResponseParts H → Response H
  build_success_response made =
      if http.is_value made.content_type
      then record {
        status = made.status;
        headers =
            append_visible (http.pairs made.headers)
              (http.append (codes "content-type") made.content_type http.empty);
        body = made.body;
      }
      else build_failed

  unfoldable pub build_not_found : Response H
  build_not_found = typed_response 404 (codes "text/plain") (codes "Not Found")

  unfoldable pub build_method_not_allowed : List Text → Response H
  build_method_not_allowed allowed =
      let plain = typed_response 405 (codes "text/plain") (codes "Method Not Allowed") in
      record plain {
        headers = http.append (codes "allow") (join (codes ", ") allowed) plain.headers;
      }

  unfoldable pub build_unsupported_media_type : Response H
  build_unsupported_media_type =
      typed_response 415 (codes "text/plain")
        (codes "Content-Type must be application/json or application/x-flatbuffers")

  unfoldable pub build_route_error_response : FlatbedRouteError H → Bool → Text → Response H
  build_route_error_response e is_flatbuffer request_id =
      let own =
        insert_all (http.pairs e.headers)
          (insert_value (codes "x-request-id") request_id http.empty) in
      let coded =
        insert_value (codes "x-error-message") e.message
          (insert_value (codes "x-error-code") (wire_code e) own) in
      if is_flatbuffer
      then record {
        status = e.status;
        headers =
            append_visible (http.pairs coded)
              (http.append (codes "content-type") (codes "application/x-flatbuffers") http.empty);
        body = [];
      }
      else record {
        status = e.status;
        headers =
            append_visible (http.pairs own)
              (http.append (codes "content-type") (codes "application/json") http.empty);
        body = http.error_json (wire_code e) e.message;
      }

  unfoldable pub build_error_response : ℕ → Text → Text → Response H
  build_error_response status code message =
      typed_response status (codes "application/json") (http.error_json code message)
