-- ===== src/NatsCall/Sending.antt =====
-- crates/flatbed/src/nats_request.rs, nats_route.rs: a request that reaches a responder with its encoding.
use flatbed.Base.{ℕ, ◌≡◌, refl, ap, ◌∙◌, true, some, [], ◌∷◌, Text, Result, ok}
use flatbed.NatsHeaders.{
  HeaderLibrary, set_header, content_type_header, header_value, from_nats_headers,
  request_id_header,
}
use flatbed.NatsHeaders.Laws.{HeaderLaws, holds_all, is_printable, is_graphic, arrived}
use flatbed.NatsHeaders.Flatten.{flatten_printable}
use flatbed.NatsHeaders.Hop.{set_header-values, header_value-hop}
use flatbed.NatsRoute.{NatsRouteInfo}
use flatbed.NatsCall.{NatsEncoding, json, flat_buffer, content_type, from_content_type}
use flatbed.NatsCall.Reply.{DetailsPayload, NatsReply, NatsRequestParts}
use flatbed.NatsCall.Responder.{NatsMessage, dispatch}
use flatbed.NatsCall.Client.{request_headers, with_request_id, Answered, RequestErrorKind}

from_content_type_lem : (e : NatsEncoding) → from_content_type (some (content_type e)) ≡ e
unfolding from_content_type
from_content_type_lem json = refl
from_content_type_lem flat_buffer = refl

content_type-graphic : (e : NatsEncoding) → holds_all is_graphic (content_type e) ≡ true
content_type-graphic json = refl
content_type-graphic flat_buffer = refl

content_type-printable : (e : NatsEncoding) → holds_all is_printable (content_type e) ≡ true
content_type-printable json = refl
content_type-printable flat_buffer = refl

module _ ⦃http : HeaderLibrary⦄ where
  module _ {A D : Type 0} (details : DetailsPayload D) (route : NatsRouteInfo)
      (handler : NatsRequestParts → Text → A → Result {0, 0} Text NatsReply) (ctx : A)
      (fresh_id inbox : Text) where
    abbrev pub asked : Text → Text → http.Wire → NatsMessage
    asked subject payload wire = record {
      subject = subject;
      reply = some inbox;
      headers = some wire;
      payload = payload;
    }

    -- A connection on which one responder answers. What either side sends, the other parses.
    abbrev pub answering :
        Text → Text → http.Wire → ℕ → Result {0, 0} (RequestErrorKind × Text) Answered
    answering subject payload wire timeout =
        let done =
          dispatch details route handler fresh_id (asked subject payload (http.arrives wire)) ctx in
        ok (arrived done.reply.headers, done.reply.payload)

module _ ⦃http : HeaderLibrary⦄ ⦃laws : HeaderLaws⦄ where
  pub request_headers-encoding :
      (encoding : NatsEncoding) (fresh_id : Text) (h : http.Map)
      → from_content_type (
          header_value content_type_header
            (from_nats_headers (arrived (request_headers encoding fresh_id h))))
        ≡ encoding
  unfolding request_headers
  request_headers-encoding encoding fresh_id h =
      let good = content_type-printable encoding in
      let same = flatten_printable (content_type encoding) good in
      let own = with_request_id (header_value request_id_header h) fresh_id h in
      ap from_content_type (
        header_value-hop content_type_header (content_type encoding)
          (set_header content_type_header (content_type encoding) own) refl
          (laws.printable-visible (content_type encoding) good)
          (set_header-values content_type_header content_type_header (content_type encoding) own
              refl (ap (holds_all is_printable) same ∙ good)
            ∙ ap (λ v. v ∷ []) same)
        ∙ ap some (laws.trim-graphic (content_type encoding) (content_type-graphic encoding)))
      ∙ from_content_type_lem encoding
