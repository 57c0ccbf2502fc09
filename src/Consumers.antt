-- ===== src/Consumers.antt =====
-- crates/flatbed/src/nats.rs and kv.rs: the loop of a consumer of messages, and that of a watch of keys and
-- values. What the broker delivers and what the handlers answer is given.
pub mod Acks
pub mod Loops
mod Tests
use flatbed.Base.{
  ℕ, suc, ◌+◌, min, Bool, true, false, Option, none, some, List, [], ◌∷◌, ◌++◌, get_elem?, Text,
  Result, ok, err, if◌then◌else◌,
}

pub data NatsResult : Type 0 where
  ack : NatsResult
  skip retry : (reason : Text) → NatsResult

-- What the stream of messages yields, with the answer that the handler gives if it is called.
pub data Delivery : Type 0 where
  receive_error : (error : Text) → Delivery
  message : (payload : Text) (answer : NatsResult) → Delivery

pub data Deed (M : Type 0) : Type 0 where
  handles : M → Deed M
  acknowledges : (payload : Text) → Deed M

abbrev pub settle : {M : Type 0} → Text → NatsResult → List (Deed M) → List (Deed M)
settle payload ack rest = acknowledges payload ∷ rest
settle payload (skip reason) rest = acknowledges payload ∷ rest
settle payload (retry reason) rest = rest

abbrev pub backoff_ms : List ℕ
backoff_ms = 100 ∷ 250 ∷ 500 ∷ 1_000 ∷ 2_000 ∷ 5_000 ∷ []

abbrev pub stream_delay : ℕ → ℕ
stream_delay attempt = elim (get_elem? backoff_ms (min attempt 5)) [ some d ↦ d | none ↦ 0 ]

-- The answers of `get_stream`, and the delays between them; none if the stream is still missing.
pub wait_for_stream : ℕ → List Bool → Option (List ℕ)
wait_for_stream attempt [] = none
wait_for_stream attempt (found ∷ later) =
    let rest = wait_for_stream (suc attempt) later in
    if found
    then some []
    else elim rest [ none ↦ none | some ds ↦ some (stream_delay attempt ∷ ds) ]

-- A message that does not parse is acknowledged to skip it.
abbrev pub deal :
    {M : Type 0} → Result {0, 0} Text M → Text → NatsResult → List (Deed M) → List (Deed M)
deal (err e) payload answer rest = acknowledges payload ∷ rest
deal (ok m) payload answer rest = handles m ∷ settle payload answer rest

module _ {M : Type 0} (parse : Text → Result {0, 0} Text M) where
  pub consume : List Delivery → List (Deed M)
  consume [] = []
  consume (receive_error e ∷ later) = consume later
  consume (message payload answer ∷ later) =
      let rest = consume later in deal (parse payload) payload answer rest

pub data Operation : Type 0 where
  put delete purge : Operation

pub data KvEvent : Type 0 where
  put_event : (key value : Text) → KvEvent
  delete_event : (key : Text) → KvEvent

abbrev pub map_operation : Operation → Text → Text → KvEvent
map_operation put key value = put_event key value
map_operation delete key value = delete_event key
map_operation purge key value = delete_event key

pub data KvCall (V : Type 0) : Type 0 where
  on_put : (key : Text) → V → KvCall V
  on_delete : (key : Text) → KvCall V

pub data WatchEntry : Type 0 where
  entry_error : (error : Text) → WatchEntry
  entry : Operation → (key value : Text) → WatchEntry

module _ {V : Type 0} (parse_value : Text → Result {0, 0} Text V) where
  abbrev pub dispatch_event : KvEvent → List (KvCall V)
  dispatch_event (put_event key value) = elim (parse_value value) [
    | ok v ↦ on_put key v ∷ []
    | err e ↦ []
  ]
  dispatch_event (delete_event key) = on_delete key ∷ []

  pub watched : List WatchEntry → List (KvCall V) × Bool
  watched [] = ([], false)
  watched (entry_error e ∷ later) = ([], true)
  watched (entry op key value ∷ later) =
      let rest = watched later in (dispatch_event (map_operation op key value) ++ rest.0, rest.1)

  -- The calls of one watch, and whether it ended with the long backoff.
  pub watch_cycle : Result {0, 0} Text (List WatchEntry) → List (KvCall V) × Bool
  unfolding watched
  watch_cycle (err e) = ([], true)
  watch_cycle (ok entries) = watched entries
