-- ===== src/LocalQueue/Executor/Tests.antt =====
-- local_queue.rs on small inputs.
use flatbed.Base.{
  number_keys, ◌++◌, ℕ, ◌/◌, ◌≡◌, ◌↔◌, refl, true, none, some, List, [], ◌∷◌, arith, err,
}
use flatbed.LocalQueue.{
  Worker, KeyStatus, dead_lettered, SendError, is_dead_lettered, Entry, InHand, timed_out, failed,
  DeadLetter, State, Shared, status, send, next, fail, set_aside,
}
use flatbed.Base.Keyed.{position}
use flatbed.LocalQueue.Keys.{IsKeyed}
use flatbed.LocalQueue.Invariant.{IsValid}
use flatbed.LocalQueue.Status.{next-status}
use flatbed.LocalQueue.Letters.{IsSetAside, fail-IsSetAside, send_refused_iff}
use flatbed.LocalQueue.Executor.{
  done, returned, panicked, Handling, handling, hooking, Move, sends, settles, polls, wakes,
  handles, hook_ends, gains_leadership, step, run, start, attempt,
}
use flatbed.LocalQueue.Executor.Schedule.{run-IsValid}
use flatbed.LocalQueue.Executor.Wakes.{waiting_takes_front}
use flatbed.LocalQueue.Executor.Coherent.{run-handles-phase, outcome_phase}

-- Messages are numbers, keyed by their tens.
abbrev jobs : Worker ℕ ℕ
jobs = record {
  key = λ m. m / 10;
  name = "jobs";
  capacity = 2;
  max_attempts = some 1;
  handle_timeout = some 300;
  dead_letter_capacity = 1;
}

abbrev to_handling : List (Move ℕ ℕ)
to_handling = gains_leadership ∷ settles ∷ sends 15 ∷ sends 27 ∷ polls ∷ []

abbrev to_waiting : List (Move ℕ ℕ)
to_waiting = gains_leadership ∷ settles ∷ polls ∷ sends 15 ∷ []

abbrev slow : Handling
slow = record { elapsed = 400; ending = returned done }

runs_to_handling : (run jobs (start jobs) to_handling).phase ≡ handling 15 1
unfolding run step send next fail set_aside position status attempt
runs_to_handling = refl

full_queue :
    (send jobs 31 (run jobs (start jobs) to_handling).shared).0
    ≡ err (SendError.full (record { worker = "jobs"; capacity = 2 }))
unfolding run step send next fail set_aside position status attempt
full_queue = refl

times_out :
    (run jobs (start jobs) (to_handling ++ handles slow 9 ∷ [])).phase
    ≡ hooking 15 (record { cause = timed_out 300; attempts = 1; last_reason = none; set_at = 9 })
unfolding run step send next fail set_aside position status attempt
times_out = refl

run-IsValid_example : IsValid jobs (run jobs (start jobs) to_handling).state
run-IsValid_example = run-IsValid jobs to_handling

run-handles-phase_example :
    (hand : InHand ℕ) × ((run jobs (start jobs) to_handling).in_flight ≡ some hand)
    × ((step jobs (run jobs (start jobs) to_handling) (handles slow 9)).phase
        ≡ outcome_phase (some 1) 15 1 hand.last_reason 9 (some 300) slow)
run-handles-phase_example =
    run-handles-phase jobs (omega arith) to_handling 15 1 slow 9 runs_to_handling

waiting_takes_front_example :
    ((run jobs (start jobs) to_waiting).wake ≡ true)
    × ((run jobs (run jobs (start jobs) to_waiting) (wakes ∷ polls ∷ [])).phase ≡ handling 15 1)
unfolding run step send next fail set_aside position status attempt
waiting_takes_front_example =
    waiting_takes_front jobs to_waiting
      (record { key = 1; msg = 15; attempts = 0; last_reason = none }) [] refl refl

abbrev one_entry : ℕ → ℕ → Entry ℕ ℕ
one_entry k m = record { key = k; msg = m; attempts = 0; last_reason = none }

abbrev two_in_line : State ℕ ℕ
two_in_line = record { queued = one_entry 1 15 ∷ one_entry 2 27 ∷ []; in_flight = none; dead = [] }

next-status_example : status (next two_in_line).1 2 ≡ KeyStatus.queued 1
unfolding status position
next-status_example = next-status two_in_line 2 2 refl refl

-- 31 has failed and is set aside; 15 is in hand, for the first time, and 27 is in line.
abbrev to_busy : List (Move ℕ ℕ)
to_busy =
    gains_leadership
    ∷ settles
    ∷ sends 31
    ∷ polls
    ∷ handles (record { elapsed = 3; ending = panicked "boom" }) 4
    ∷ hook_ends
    ∷ sends 15
    ∷ sends 27
    ∷ polls
    ∷ []

abbrev busy : Shared ℕ ℕ
busy = (run jobs (start jobs) to_busy).shared

abbrev held_one : InHand ℕ
held_one = record { key = 1; attempts = 1; last_reason = none }

boom_letter :
    status busy.state 3
    ≡ dead_lettered (record {
      cause = failed "panicked: boom";
      attempts = 1;
      last_reason = some "panicked: boom";
      set_at = 4;
    })
unfolding run step send next fail set_aside position status attempt
boom_letter = refl

busy-IsKeyed : IsKeyed busy.state
busy-IsKeyed = (run-IsValid jobs to_busy).keyed

busy_hand : busy.in_flight ≡ some held_one
unfolding run step send next fail set_aside position status attempt
busy_hand = refl

send_refused_iff_example :
    ((send jobs 31 busy).0 ≡ err is_dead_lettered)
    ↔ ((letter : DeadLetter) × (status busy.state 3 ≡ dead_lettered letter))
send_refused_iff_example = send_refused_iff jobs 31 busy busy-IsKeyed

fail-IsSetAside_example :
    IsSetAside held_one (timed_out 300) (fail jobs 15 (timed_out 300) 9 busy.state)
fail-IsSetAside_example =
    fail-IsSetAside jobs held_one 15 9 busy.state busy-IsKeyed busy_hand (omega arith)
      (timed_out 300)

abbrev patient : Worker ℕ ℕ
patient = record jobs { max_attempts = some 5 }
