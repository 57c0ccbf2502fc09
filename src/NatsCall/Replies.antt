-- ===== src/NatsCall/Replies.antt =====
-- crates/flatbed/src/nats_route.rs: the headers of replies.
use flatbed.Base.{
  ℕ, ◌≡◌, refl, ap, ◌∙◌, Bool, true, false, Option, [], ◌∷◌, ◌||◌, ◌==◌, ◌≤◌, ◌<◌, list_keys,
  number_keys, if◌then◌else◌, Text, arith,
}
use flatbed.Http.{FlatbedRouteError, wire_code}
use flatbed.NatsHeaders.{
  HeaderLibrary, set_header, copy_headers, flatten, content_type_header, request_id_header,
  error_code_header, error_message_header, error_status_header, remove_all,
}
use flatbed.NatsHeaders.Laws.{HeaderLaws, values, holds_all, is_printable, is_graphic, digits}
use flatbed.NatsHeaders.Flatten.{is_ascii, flatten-printable, flatten_printable}
use flatbed.NatsHeaders.Hop.{set_header-values, set_header-others, one_of_names, values-remove_all}
use flatbed.NatsHeaders.Values.{values-copy_headers}
use flatbed.NatsCall.{NatsEncoding, content_type}
use flatbed.NatsCall.Reply.{DetailsPayload, reply_err, with_framing, success, error_names}
use flatbed.NatsCall.Client.{framework_headers}

pub digits-printable : (n : ℕ) → n < 1000 → holds_all is_printable (digits n) ≡ true
digits-printable n h = ground arith

pub digits-graphic : (n : ℕ) → n < 1000 → holds_all is_graphic (digits n) ≡ true
digits-graphic n h = ground arith

-- The errors that a reply can carry.
pub record IsSendable {H : Type 0} (e : FlatbedRouteError H) : Type 0 where
  pub status_from : 100 ≤ e.status
  pub status_to : e.status < 1000
  pub ascii_code : holds_all is_ascii (wire_code e) ≡ true
  pub ascii_message : holds_all is_ascii e.message ≡ true

not_first : (a b : Bool) → (a || b) ≡ false → (a ≡ false) × (b ≡ false)
not_first true b e = cc e
not_first false b e = (refl, e)

module _ ⦃http : HeaderLibrary⦄ ⦃laws : HeaderLaws⦄ where
  pub with_framing-others :
      (t : Text) (encoding : NatsEncoding) (id : Text) (h : http.Map)
      → (content_type_header == t) ≡ false
      → (request_id_header == t) ≡ false
      → values t (with_framing encoding id h) ≡ values t h
  with_framing-others t encoding id h not_type not_id =
      let typed = set_header content_type_header (content_type encoding) (copy_headers h) in
      set_header-others t request_id_header id typed refl not_id
      ∙ set_header-others t content_type_header (content_type encoding) (copy_headers h) refl
          not_type
      ∙ values-copy_headers t h

  module _ {D : Type 0} (p : DetailsPayload D) (encoding : NatsEncoding) (id : Text)
      (e : FlatbedRouteError http.Map) (details : Option D) where
    abbrev pub coded : http.Map
    coded = set_header error_code_header (wire_code e) (with_framing encoding id e.headers)

    abbrev pub worded : http.Map
    worded = set_header error_message_header e.message coded

    pub reply_err-code :
        holds_all is_ascii (wire_code e) ≡ true
        → values error_code_header (reply_err p encoding id e details).headers
          ≡ flatten (wire_code e) ∷ []
    unfolding reply_err
    reply_err-code ascii =
        set_header-others error_code_header error_status_header (http.status_str e.status) worded
          refl refl
        ∙ set_header-others error_code_header error_message_header e.message coded refl refl
        ∙ set_header-values error_code_header error_code_header (wire_code e)
            (with_framing encoding id e.headers) refl (flatten-printable (wire_code e) ascii)

    pub reply_err-message :
        holds_all is_ascii e.message ≡ true
        → values error_message_header (reply_err p encoding id e details).headers
          ≡ flatten e.message ∷ []
    unfolding reply_err
    reply_err-message ascii =
        set_header-others error_message_header error_status_header (http.status_str e.status) worded
          refl refl
        ∙ set_header-values error_message_header error_message_header e.message coded refl
            (flatten-printable e.message ascii)

    pub reply_err-status :
        100 ≤ e.status
        → e.status < 1000
        → values error_status_header (reply_err p encoding id e details).headers
          ≡ digits e.status ∷ []
    unfolding reply_err
    reply_err-status low high =
        let same = laws.status_str-digits e.status low high in
        let good = digits-printable e.status high in
        let plain = ap flatten same ∙ flatten_printable (digits e.status) good in
        set_header-values error_status_header error_status_header (http.status_str e.status) worded
          refl (ap (holds_all is_printable) plain ∙ good)
        ∙ ap (λ v. v ∷ []) plain

    -- The handler's own headers ride along.
    pub reply_err-others :
        (t : Text)
        → one_of_names t framework_headers ≡ false
        → values t (reply_err p encoding id e details).headers ≡ values t e.headers
    unfolding reply_err
    reply_err-others t other =
        let (not_type, other1) = not_first (content_type_header == t) _ other in
        let (not_id, other2) = not_first (request_id_header == t) _ other1 in
        let (not_code, other3) = not_first (error_code_header == t) _ other2 in
        let (not_message, other4) = not_first (error_message_header == t) _ other3 in
        let (not_status, other5) = not_first (error_status_header == t) _ other4 in
        set_header-others t error_status_header (http.status_str e.status) worded refl not_status
        ∙ set_header-others t error_message_header e.message coded refl not_message
        ∙ set_header-others t error_code_header (wire_code e) (with_framing encoding id e.headers)
            refl not_code
        ∙ with_framing-others t encoding id e.headers not_type not_id

  -- A success carries no error header, whatever the handler set.
  pub success-error_names :
      (t id : Text) (h : http.Map) (made : Text × Text)
      → one_of_names t error_names ≡ true
      → (content_type_header == t) ≡ false
      → (request_id_header == t) ≡ false
      → values t (success id h made).headers ≡ []
  success-error_names t id h made error not_type not_id =
      let bare = remove_all error_names (copy_headers h) in
      set_header-others t request_id_header id (set_header content_type_header made.1 bare) refl
        not_id
      ∙ set_header-others t content_type_header made.1 bare refl not_type
      ∙ values-remove_all t error_names (copy_headers h) refl
      ∙ ap (λ b. if b then [] else values t (copy_headers h)) error
