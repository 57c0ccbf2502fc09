-- ===== src/Connector.antt =====
-- crates/flatbed/src/nats_connect.rs: the first connect to NATS with its retries, and the gate that the
-- connection drives. Durations are nanoseconds. What a dial answers and how long it takes is given.
pub mod Retries
mod Tests
use flatbed.Base.{
  ℕ, suc, ◌+◌, ◌-◌, ◌*◌, ◌/◌, ◌%◌, ◌^◌, min, Bool, true, false, Option, none, some, List, [], ◌∷◌,
  if◌then◌else◌, ltb, leb, Text, Result, ok, err,
}
use flatbed.Supervisor.{saturating_mul, u64_max}

abbrev pub max_backoff_shift : ℕ
max_backoff_shift = 16

-- `entropy` is the hash that is drawn.
abbrev pub spread : ℕ → (entropy : ℕ) → ℕ
spread span entropy =
    let nanos : ℕ = min span u64_max in if leb nanos 0 then 0 else entropy % suc (nanos - 1)

abbrev pub capped : (lo hi attempt : ℕ) → ℕ
capped lo hi attempt = min (saturating_mul lo (2 ^ min (attempt - 1) max_backoff_shift)) hi

unfoldable pub backoff : (lo hi attempt entropy : ℕ) → ℕ
backoff lo hi attempt entropy =
    let half : ℕ = capped lo hi attempt / 2 in half + spread half entropy

pub record Connector : Type 0 where
  pub min_backoff : ℕ
  pub max_backoff : ℕ
  pub deadline : ℕ
  pub attempt_timeout : ℕ
  -- Whether the credentials can be read, and parse.
  pub read_credentials : Result {0, 0} Text Unit
  pub options : Result {0, 0} Text Unit

-- One attempt: how long the dial would take, its failure if it has one, the hash of the delay after it,
-- and how much later than asked for the next round begins.
pub record Attempt : Type 0 where
  pub took : ℕ
  pub failure : Option Text
  pub entropy : ℕ
  pub late : ℕ

pub data Connected : Type 0 where
  client : (attempts : ℕ) → Connected
  credentials_unreadable credentials_invalid : (source : Text) → Connected
  unreachable : (attempts elapsed : ℕ) (source : Option Text) → Connected
  connecting : Connected

-- `Option::or`, and the attempts as a `u32`.
abbrev pub option_or : Option Text → Option Text → Option Text
option_or none o = o
option_or (some e) o = some e

abbrev pub next_attempts : ℕ → ℕ
next_attempts n = (n + 1) % 2 ^ 32

abbrev pub source_of : Option (Option Text) → Option Text → Option Text
source_of none last = last
source_of (some e) last = option_or e last

module _ (c : Connector) where
  abbrev pub limit : ℕ → ℕ
  limit elapsed = min (c.deadline - elapsed) c.attempt_timeout

  -- The failure of an attempt: none at all, the dial's, or that it timed out.
  abbrev pub failed_dial : ℕ → Attempt → Option (Option Text)
  failed_dial elapsed a =
      if ltb a.took (limit elapsed)
      then elim a.failure [ none ↦ none | some e ↦ some (some e) ]
      else some none

  unfoldable pub connect_loop : ℕ → ℕ → Option Text → List Attempt → Connected
  unfolding backoff
  connect_loop elapsed attempts last [] =
      if leb c.deadline elapsed then unreachable attempts elapsed last else connecting
  connect_loop elapsed attempts last (a ∷ later) =
      let dialled = elapsed + min a.took (limit elapsed) in
      let count = next_attempts attempts in
      let delay = backoff c.min_backoff c.max_backoff count a.entropy in
      let source = source_of (failed_dial elapsed a) last in
      let rest = connect_loop (dialled + delay + a.late) count source later in
      if leb c.deadline elapsed then unreachable attempts elapsed last else elim c.options [
        | err e ↦ credentials_invalid e
        | ok u ↦ elim (failed_dial elapsed a) [
          | none ↦ client count
          | some e ↦
              if leb c.deadline (dialled + delay) then unreachable count dialled source else rest
        ]
      ]

  pub connect_with_retry : List Attempt → Connected
  unfolding connect_loop
  connect_with_retry attempts = elim c.read_credentials [
    | err e ↦ credentials_unreadable e
    | ok u ↦ connect_loop 0 0 none attempts
  ]

pub data Event : Type 0 where
  connected disconnected draining closed other : Event

-- What the gate is set to, if it is.
abbrev pub on_event : Event → Option Bool
on_event connected = some true
on_event disconnected = some false
on_event draining = some false
on_event closed = some false
on_event other = none
