-- ===== src/NatsCall.antt =====
-- crates/flatbed/src/nats_route.rs, nats_request.rs: a request to a subject and its answer. This file has
-- the two encodings and what a type offers for them.
pub mod Reply
pub mod Responder
pub mod Client
mod Sending
mod Replies
mod Rejections
mod Answers
mod Reports
mod Lost
mod Tests
use flatbed.Base.{Bool, Option, some, none, if◌then◌else◌, Text, codes, contains, Result, ok, err}

pub data NatsEncoding : Type 0 where
  json flat_buffer : NatsEncoding

unfoldable pub from_content_type : Option Text → NatsEncoding
from_content_type none = flat_buffer
from_content_type (some ct) = if contains (codes "application/json") ct then json else flat_buffer

abbrev pub content_type : NatsEncoding → Text
content_type json = codes "application/json"
content_type flat_buffer = codes "application/x-flatbuffers"

-- `serde_json::to_vec` and `from_slice`, and the traits ToFlatBuffer and FromFlatBuffer.
pub record Payload (T : Type 0) : Type 0 where
  pub to_json : T → Result {0, 0} Text Text
  pub to_flatbuffer : T → Text
  pub from_json : Text → Result {0, 0} Text T
  pub from_flatbuffer : Text → Result {0, 0} Text T

module _ {T : Type 0} (p : Payload T) where
  abbrev pub encode : NatsEncoding → T → Result {0, 0} Text Text
  encode json body = p.to_json body
  encode flat_buffer body = ok (p.to_flatbuffer body)

  abbrev pub decode : NatsEncoding → Text → Result {0, 0} Text T
  decode json payload = p.from_json payload
  decode flat_buffer payload = p.from_flatbuffer payload
