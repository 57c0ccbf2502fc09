-- ===== src/LocalQueue/Executor.antt =====
-- local_queue.rs, the executor: `attempt`, the body of `handle_messages`, and `serve`. What the
-- worker's `handle` does is its input: how long it ran, and how it ended. A `System` is the queue
-- with the place where the executor's task stands; producers and leadership move it between.
pub mod Schedule
pub mod Wakes
pub mod Attempts
pub mod Coherent
mod Tests
use flatbed.Base.{
  ℕ, suc, String, Bool, true, false, Option, none, some, List, [], ◌∷◌, HasEq, leb, if◌then◌else◌,
  Result, ok, err,
}
use Prim.Native.String.{◌++◌}
use flatbed.LocalQueue.{
  Worker, DeadLetterCause, timed_out, failed, DeadLetter, State, Shared, new_sender, send, requeue,
  forget, next, retry, fail, release_in_flight, clear,
}

pub data LocalQueueResult : Type 0 where
  done : LocalQueueResult
  retry_later : String → LocalQueueResult

-- How one call of `handle` ended, a panic by its message.
pub data Ending : Type 0 where
  returned : LocalQueueResult → Ending
  returned_err : String → Ending
  panicked : String → Ending

pub record Handling : Type 0 where
  pub elapsed : ℕ
  pub ending : Ending

ending_result : Ending → Result DeadLetterCause LocalQueueResult
ending_result (returned outcome) = ok outcome
ending_result (returned_err e) = err (failed e)
ending_result (panicked p) = err (failed ("panicked: " ++ p))

-- `tokio::time::timeout` polls the handler before the clock.
pub attempt : Option ℕ → Handling → Result DeadLetterCause LocalQueueResult
unfolding ending_result
attempt none run = ending_result run.ending
attempt (some after) run =
    if leb run.elapsed after then ending_result run.ending else err (timed_out after)

-- Where the task of `serve` stands.
pub data Phase (M : Type 0) : Type 0 where
  following : Phase M
  settling : Phase M
  polling : Phase M
  waiting : Phase M
  handling : M → ℕ → Phase M
  sleeping : Phase M
  hooking : M → DeadLetter → Phase M

pub record System (K M : Type 0) : Type 0 where
  pub shared : Shared K M
  pub open shared use *
  pub phase : Phase M

pub data Move (K M : Type 0) : Type 0 where
  sends : M → Move K M
  requeues forgets : K → Move K M
  settles polls wakes : Move K M
  handles : Handling → (now : ℕ) → Move K M
  wakes_up hook_ends : Move K M
  gains_leadership loses_leadership restarts : Move K M

module _ {M : Type 0} where
  abbrev pub enter : Option (M × ℕ) → Phase M
  enter none = waiting
  enter (some (msg, attempts)) = handling msg attempts

  -- After a retry with no letter the task sleeps; a letter goes to the hook.
  abbrev pub after_letter : M → Option DeadLetter → Phase M → Phase M
  after_letter msg none idle = idle
  after_letter msg (some letter) idle = hooking msg letter

module _ {K M : Type 0} where
  abbrev pub set_state : Shared K M → State K M → Shared K M
  set_state h s = record h { state = s }

module _ {K M : Type 0} ⦃eq : HasEq K⦄ (w : Worker K M) where
  -- The `match` of `handle_messages` on the attempt's result.
  pub conclude : M → ℕ → Result DeadLetterCause LocalQueueResult → Shared K M → System K M
  conclude msg now (ok done) h = record {
    shared = set_state h (release_in_flight h.state);
    phase = polling;
  }
  conclude msg now (ok (retry_later reason)) h =
      let (letter, s) = retry w msg reason now h.state in
      record { shared = set_state h s; phase = after_letter msg letter sleeping }
  conclude msg now (err cause) h =
      let (letter, s) = fail w msg cause now h.state in
      record { shared = set_state h s; phase = after_letter msg letter polling }

  pub poll : Shared K M → System K M
  poll h = let (taken, s) = next h.state in record { shared = set_state h s; phase = enter taken }

  -- A waiting task goes on when it can take the permit.
  pub wake_up : Bool → Shared K M → System K M
  wake_up true h = record { shared = record h { wake = false }; phase = polling }
  wake_up false h = record { shared = h; phase = waiting }

  pub advance : Move K M → Phase M → Shared K M → System K M
  unfolding conclude poll wake_up
  advance (sends msg) p h = record { shared = (send w msg h).1; phase = p }
  advance (requeues k) p h = record { shared = (requeue w k h).1; phase = p }
  advance (forgets k) p h = record { shared = (forget k h).1; phase = p }
  advance settles settling h = record { shared = h; phase = polling }
  advance polls polling h = poll h
  advance wakes waiting h = wake_up h.wake h
  advance (handles run now) (handling msg n) h = conclude msg now (attempt w.handle_timeout run) h
  advance wakes_up sleeping h = record { shared = h; phase = polling }
  advance hook_ends (hooking msg letter) h = record { shared = h; phase = polling }
  advance gains_leadership following h = record { shared = h; phase = settling }
  advance loses_leadership following h = record { shared = h; phase = following }
  advance loses_leadership _ h = record {
    shared = set_state h (clear h.state).1;
    phase = following;
  }
  advance restarts p h = record {
    shared = set_state h (release_in_flight h.state);
    phase = following;
  }
  advance _ p h = record { shared = h; phase = p }

  -- A move that the task is not ready for changes nothing.
  pub step : System K M → Move K M → System K M
  unfolding advance
  step c mv = advance mv c.phase c.shared

  pub run : System K M → List (Move K M) → System K M
  run c [] = c
  run c (mv ∷ mvs) = run (step c mv) mvs

  abbrev pub start : System K M
  start = record { shared = new_sender; phase = following }
