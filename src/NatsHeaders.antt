-- ===== src/NatsHeaders.antt =====
-- crates/flatbed/src/nats_route.rs: headers between the crate http, whose names are lower-case and whose
-- values may be no text, and those of a NATS message. Both crates are interfaces.
pub mod Laws
pub mod Values
pub mod Flatten
pub mod Hop
pub mod Samples
use flatbed.Base.{
  ℕ, Bool, false, Option, some, none, List, [], ◌∷◌, ◌&&◌, ◌||◌, ◌==◌, number_keys, if◌then◌else◌,
  ltb, leb, ◌>>=◌, Text, codes,
}

pub record HeaderLibrary : Type 1 where
  -- `HeaderName`, `HeaderMap` and `async_nats::HeaderMap`.
  pub Name : Type 0
  pub Map : Type 0
  pub Wire : Type 0
  pub parse : Text → Option Name
  pub as_str : Name → Text
  pub empty : Map
  pub append : Name → Text → Map → Map
  pub insert : Name → Text → Map → Map
  pub remove : Name → Map → Map
  pub get : Name → Map → Option Text
  pub pairs : Map → List (Name × Text)
  -- `HeaderValue::try_from` gives a value, and `HeaderValue::to_str` a text.
  pub is_value : Text → Bool
  pub is_visible : Text → Bool
  pub wire_empty : Wire
  pub wire_append : Text → Text → Wire → Wire
  pub entries : Wire → List (Text × List Text)
  -- The headers that the client of the other side parses, and what it makes of a value: async-nats
  -- takes the blanks from its ends (`str::trim`).
  pub arrives : Wire → Wire
  pub trim : Text → Text
  -- `StatusCode::as_str` and `StatusCode::from_bytes`.
  pub status_str : ℕ → Text
  pub status_from : Text → Option ℕ

abbrev pub content_type_header : Text
content_type_header = codes "content-type"

abbrev pub request_id_header : Text
request_id_header = codes "x-request-id"

abbrev pub error_code_header : Text
error_code_header = codes "x-error-code"

abbrev pub error_message_header : Text
error_message_header = codes "x-error-message"

abbrev pub error_status_header : Text
error_status_header = codes "x-error-status"

-- `char::is_control`, of a character of one byte and of the second byte of one that begins with 194.
abbrev pub is_control : ℕ → Bool
is_control c = ltb c 32 || c == 127

abbrev pub continues_control : Text → Bool
continues_control [] = false
continues_control (c ∷ cs) = leb 128 c && ltb c 160

abbrev pub blank : ℕ → ℕ
blank c = if is_control c then 32 else c

abbrev pub drop_first : Text → Text
drop_first [] = []
drop_first (c ∷ cs) = cs

-- Each control character becomes a blank.
unfoldable pub flatten : Text → Text
flatten [] = []
flatten (c ∷ cs) =
    let rest = flatten cs in
    if (c == 194) && continues_control cs then 32 ∷ drop_first rest else blank c ∷ rest

module _ ⦃http : HeaderLibrary⦄ where
  abbrev pub copy_pairs : List (http.Name × Text) → http.Map → http.Map
  copy_pairs [] headers = headers
  copy_pairs ((name, value) ∷ source) headers = copy_pairs source (http.append name value headers)

  unfoldable pub copy_headers : http.Map → http.Map
  copy_headers source = copy_pairs (http.pairs source) http.empty

  abbrev pub insert_named : Option http.Name → Text → http.Map → http.Map
  insert_named none value headers = headers
  insert_named (some name) value headers =
      if http.is_value value then http.insert name value headers else headers

  unfoldable pub set_header : Text → Text → http.Map → http.Map
  unfolding flatten
  set_header name value headers = insert_named (http.parse name) (flatten value) headers

  -- `get` and `to_str`.
  unfoldable pub header_value : Text → http.Map → Option Text
  header_value name headers = do
    n ← http.parse name
    value ← http.get n headers
    (if http.is_visible value then some value else none)

  abbrev pub remove_parsed : Option http.Name → http.Map → http.Map
  remove_parsed none headers = headers
  remove_parsed (some name) headers = http.remove name headers

  unfoldable pub remove_all : List Text → http.Map → http.Map
  remove_all [] headers = headers
  remove_all (name ∷ names) headers = remove_all names (remove_parsed (http.parse name) headers)

  abbrev pub append_values : http.Name → List Text → http.Map → http.Map
  append_values name [] headers = headers
  append_values name (value ∷ values) headers =
      append_values name values
        (if http.is_value value then http.append name value headers else headers)

  abbrev pub append_entry : Option http.Name → List Text → http.Map → http.Map
  append_entry none values headers = headers
  append_entry (some name) values headers = append_values name values headers

  abbrev pub append_entries : List (Text × List Text) → http.Map → http.Map
  append_entries [] headers = headers
  append_entries ((name, values) ∷ source) headers =
      append_entries source (append_entry (http.parse name) values headers)

  unfoldable pub from_nats_headers : Option http.Wire → http.Map
  from_nats_headers none = http.empty
  from_nats_headers (some source) = append_entries (http.entries source) http.empty

  abbrev pub send_pairs : List (http.Name × Text) → http.Wire → http.Wire
  send_pairs [] wire = wire
  send_pairs ((name, value) ∷ source) wire =
      send_pairs source
        (if http.is_visible value then http.wire_append (http.as_str name) value wire else wire)

  unfoldable pub to_nats_headers : http.Map → http.Wire
  to_nats_headers source = send_pairs (http.pairs source) http.wire_empty
