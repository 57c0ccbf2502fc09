-- ===== src/NatsCall/Lost.antt =====
-- crates/flatbed/src/nats_route.rs, nats_request.rs: an error code that the requester does not see.
use flatbed.Base.{
  ◌≡◌, refl, ap, ◌∙◌, true, false, Bool-cases, Option, [], ◌∷◌, ◌==◌, list_keys, number_keys,
  if◌then◌else◌, Text, inl, inr, beq_refl,
}
use flatbed.Http.{FlatbedRouteError, wire_code}
use flatbed.NatsHeaders.{
  HeaderLibrary, set_header, insert_named, flatten, error_code_header, error_message_header,
  error_status_header,
}
use flatbed.NatsHeaders.Laws.{HeaderLaws, values, holds_all, is_plain_name, arrived}
use flatbed.NatsHeaders.Flatten.{is_ascii}
use flatbed.NatsHeaders.Values.{filter_list}
use flatbed.NatsHeaders.Hop.{header_value-absent, set_header-others}
use flatbed.NatsCall.{NatsEncoding, Payload, decode}
use flatbed.NatsCall.Reply.{DetailsPayload, reply_err, with_framing}
use flatbed.NatsCall.Client.{read_reply, decoded}
use flatbed.NatsCall.Replies.{with_framing-others, worded, coded}

module _ ⦃http : HeaderLibrary⦄ ⦃laws : HeaderLaws⦄ where
  set_header_wide :
      (t v : Text) (h : http.Map)
      → is_plain_name t ≡ true
      → holds_all is_ascii (flatten v) ≡ false
      → values t h ≡ []
      → filter_list http.is_visible (values t (set_header t v h)) ≡ []
  unfolding set_header
  set_header_wide t v h plain wide bare =
      let (n, (e, same)) = laws.parse-plain t plain in
      let visible = filter_list http.is_visible in
      ap (λ o. visible (values t (insert_named o (flatten v) h))) e
      ∙ elim (Bool-cases (http.is_value (flatten v))) [
        | inl f ↦
            ap (λ b. visible (values t (if b then http.insert n (flatten v) h else h))) f
            ∙ ap visible (
                laws.values-insert t n (flatten v) h
                ∙ ap (λ u. if u == t then flatten v ∷ [] else values t h) same)
            ∙ rw (beq_refl t, laws.wide-visible (flatten v) wide)
        | inr f ↦
            ap (λ b. visible (values t (if b then http.insert n (flatten v) h else h))) f
            ∙ ap visible bare
      ]

  -- An error reply whose code is not ASCII after its control characters are blanks, and whose own
  -- headers hold no error code, is read by the requester as a success: its payload is decoded as
  -- the body of the response.
  pub read_reply_wide :
      {D R : Type 0} (p : DetailsPayload D) (response : Payload R) (encoding : NatsEncoding)
      (subject id payload : Text) (e : FlatbedRouteError http.Map) (details : Option D)
      → holds_all is_ascii (flatten (wire_code e)) ≡ false
      → values error_code_header e.headers ≡ []
      → read_reply response subject encoding
          (arrived (reply_err p encoding id e details).headers, payload)
        ≡ decoded response subject (decode response encoding payload)
  unfolding read_reply reply_err
  read_reply_wide p response encoding subject id payload e details wide bare =
      let own = with_framing encoding id e.headers in
      let absent =
        ap (filter_list http.is_visible) (
          set_header-others error_code_header error_status_header (http.status_str e.status)
            (worded p encoding id e details) refl refl
          ∙ set_header-others error_code_header error_message_header e.message
              (coded p encoding id e details) refl refl)
        ∙ set_header_wide error_code_header (wire_code e) own refl wide
            (with_framing-others error_code_header encoding id e.headers refl refl ∙ bare) in
      rw (
        header_value-absent error_code_header (reply_err p encoding id e details).headers refl
          absent)
