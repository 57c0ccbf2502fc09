-- ===== src/NatsCall/Rejections.antt =====
-- crates/flatbed/src/nats_request.rs, nats_route.rs: what a requester reads of a reply.
use flatbed.Base.{
  ◌≡◌, refl, ap, ◌∙◌, Bool, true, false, Option, some, List, [], Text, codes, if◌then◌else◌, err,
  ◌>>=◌,
}
use flatbed.Http.{FlatbedRouteError, wire_code}
use flatbed.NatsHeaders.{
  HeaderLibrary, header_value, from_nats_headers, flatten, error_code_header, error_message_header,
  error_status_header,
}
use flatbed.NatsHeaders.Laws.{HeaderLaws, values, digits, arrived, trimmed}
use flatbed.NatsHeaders.Flatten.{flatten-printable}
use flatbed.NatsHeaders.Values.{filter_list, values-hop}
use flatbed.NatsHeaders.Hop.{header_value-hop, one_of_names, values-remove_all}
use flatbed.NatsCall.{NatsEncoding, Payload}
use flatbed.NatsCall.Reply.{DetailsPayload, reply_err}
use flatbed.NatsCall.Client.{reply_error, rejection, read_reply, or_internal, framework_headers}
use flatbed.NatsCall.Replies.{
  IsSendable, digits-printable, digits-graphic, reply_err-code, reply_err-message, reply_err-status,
  reply_err-others,
}
use flatbed.NatsCall.Responder.{or_default}

unless :
    (b : Bool) (vs ws : List Text)
    → (b ≡ false → vs ≡ ws)
    → (if b then [] else vs) ≡ (if b then [] else ws)
unless true vs ws same = refl
unless false vs ws same = same refl

pub record Carries ⦃http : HeaderLibrary⦄ (e r : FlatbedRouteError http.Map) : Type 0 where
  pub same_status : r.status ≡ e.status
  pub same_code : r.code ≡ http.trim (flatten (wire_code e))
  pub same_message : r.message ≡ http.trim (flatten e.message)
  pub own_headers :
      (t : Text)
      → values t r.headers ≡ (
          if one_of_names t framework_headers
          then []
          else trimmed (filter_list http.is_visible (values t e.headers)))

module _ ⦃http : HeaderLibrary⦄ where
  abbrev pub hop : http.Map → http.Map
  hop h = from_nats_headers (arrived h)

module _ ⦃http : HeaderLibrary⦄ ⦃laws : HeaderLaws⦄ where
  module _ {D : Type 0} (p : DetailsPayload D) (encoding : NatsEncoding) (id : Text)
      (e : FlatbedRouteError http.Map) (details : Option D) (good : IsSendable e) where
    abbrev pub refused : http.Map
    refused = hop (reply_err p encoding id e details).headers

    pub code_arrives :
        header_value error_code_header refused ≡ some (http.trim (flatten (wire_code e)))
    code_arrives =
        header_value-hop error_code_header (flatten (wire_code e)) _ refl
          (laws.printable-visible _ (flatten-printable (wire_code e) good.ascii_code))
          (reply_err-code p encoding id e details good.ascii_code)

    pub message_arrives :
        header_value error_message_header refused ≡ some (http.trim (flatten e.message))
    message_arrives =
        header_value-hop error_message_header (flatten e.message) _ refl
          (laws.printable-visible _ (flatten-printable e.message good.ascii_message))
          (reply_err-message p encoding id e details good.ascii_message)

    pub status_arrives : header_value error_status_header refused ≡ some (digits e.status)
    status_arrives =
        header_value-hop error_status_header (digits e.status) _ refl
          (laws.printable-visible _ (digits-printable e.status good.status_to))
          (reply_err-status p encoding id e details good.status_from good.status_to)
        ∙ ap some (laws.trim-graphic (digits e.status) (digits-graphic e.status good.status_to))

    own_arrive :
        (t : Text)
        → values t (rejection refused).headers ≡ (
            if one_of_names t framework_headers
            then []
            else trimmed (filter_list http.is_visible (values t e.headers)))
    unfolding rejection
    own_arrive t =
        values-remove_all t framework_headers refused refl
        ∙ unless (one_of_names t framework_headers) (values t refused) _ (λ other.
          values-hop t (reply_err p encoding id e details).headers
          ∙ ap (λ vs. trimmed (filter_list http.is_visible vs))
              (reply_err-others p encoding id e details t other))

    pub rejection-Carries : Carries e (rejection refused)
    unfolding rejection
    rejection-Carries = record {
      same_status =
          ap (λ s. or_internal (s >>= http.status_from)) status_arrives
          ∙ ap or_internal (laws.status_from-digits e.status good.status_from good.status_to);
      same_code = ap (λ c. or_default c (codes "ERROR")) code_arrives;
      same_message = ap (λ m. or_default m []) message_arrives;
      own_headers = own_arrive;
    }

    -- An error reply is read as the error that the handler chose.
    pub read_reply-rejection :
        {R : Type 0} (response : Payload R) (subject payload : Text)
        → read_reply response subject encoding
            (arrived (reply_err p encoding id e details).headers, payload)
          ≡ err (reply_error subject (rejection refused))
    unfolding read_reply
    read_reply-rejection response subject payload = rw code_arrives
