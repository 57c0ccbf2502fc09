-- ===== src/Consumers/Acks.antt =====
-- nats.rs: which messages are acknowledged and which are handled.
use flatbed.Base.{◌≡◌, refl, ap, ◌∙◌, List, [], ◌∷◌, Text, Result, ok, err}
use flatbed.Consumers.{
  NatsResult, ack, skip, retry, Delivery, receive_error, message, Deed, handles, acknowledges, deal,
  consume,
}

module _ {M : Type 0} where
  abbrev pub acknowledged : List (Deed M) → List Text
  acknowledged [] = []
  acknowledged (handles m ∷ ds) = acknowledged ds
  acknowledged (acknowledges p ∷ ds) = p ∷ acknowledged ds

  abbrev pub handled : List (Deed M) → List M
  handled [] = []
  handled (handles m ∷ ds) = m ∷ handled ds
  handled (acknowledges p ∷ ds) = handled ds

  -- The messages that are done with: those that do not parse, and those whose handler asks for no retry.
  abbrev pub settled_by : Result {0, 0} Text M → Text → NatsResult → List Text → List Text
  settled_by (err e) p answer rest = p ∷ rest
  settled_by (ok m) p (retry reason) rest = rest
  settled_by (ok m) p ack rest = p ∷ rest
  settled_by (ok m) p (skip reason) rest = p ∷ rest

  abbrev pub parsed_by : Result {0, 0} Text M → List M → List M
  parsed_by (err e) rest = rest
  parsed_by (ok m) rest = m ∷ rest

  deal-acknowledged :
      (r : Result {0, 0} Text M) (p : Text) (answer : NatsResult) (rest : List (Deed M))
      → acknowledged (deal r p answer rest) ≡ settled_by r p answer (acknowledged rest)
  deal-acknowledged (err e) p answer rest = refl
  deal-acknowledged (ok m) p ack rest = refl
  deal-acknowledged (ok m) p (skip reason) rest = refl
  deal-acknowledged (ok m) p (retry reason) rest = refl

  deal-handled :
      (r : Result {0, 0} Text M) (p : Text) (answer : NatsResult) (rest : List (Deed M))
      → handled (deal r p answer rest) ≡ parsed_by r (handled rest)
  deal-handled (err e) p answer rest = refl
  deal-handled (ok m) p ack rest = refl
  deal-handled (ok m) p (skip reason) rest = refl
  deal-handled (ok m) p (retry reason) rest = refl

module _ {M : Type 0} (parse : Text → Result {0, 0} Text M) where
  abbrev pub settled : List Delivery → List Text
  settled [] = []
  settled (receive_error e ∷ ds) = settled ds
  settled (message p answer ∷ ds) = settled_by (parse p) p answer (settled ds)

  abbrev pub parsed : List Delivery → List M
  parsed [] = []
  parsed (receive_error e ∷ ds) = parsed ds
  parsed (message p answer ∷ ds) = parsed_by (parse p) (parsed ds)

  -- The messages that a consumer acknowledges are, in order, all it receives but those that parse
  -- and whose handler asks for a retry; those it handles are, in order, all that parse.
  pub consume-settled :
      (ds : List Delivery)
      → (acknowledged (consume parse ds) ≡ settled ds) × (handled (consume parse ds) ≡ parsed ds)
  unfolding consume
  consume-settled [] = (refl, refl)
  consume-settled (receive_error e ∷ ds) = consume-settled ds
  consume-settled (message p answer ∷ ds) =
      let rest = consume parse ds in
      let (a, h) = consume-settled ds in
      (
        deal-acknowledged (parse p) p answer rest ∙ ap (settled_by (parse p) p answer) a,
        deal-handled (parse p) p answer rest ∙ ap (parsed_by (parse p)) h,
      )
