-- ===== src/LocalQueue/Executor/Coherent.antt =====
-- local_queue.rs: in every reachable state the task holds exactly the message it handles, so each
-- outcome of `handle` ends where the module's documentation says.
use flatbed.Base.{
  ℕ, ◌≡◌, refl, Bool, true, false, Option, none, some, List, [], ◌∷◌, HasEq, inl, inr, arith,
  Bool-cases, Result, ok, err, if◌then◌else◌, String, subst, ◌∙◌, not, ltb, leb,
}
use Prim.Native.String.{◌++◌}
use flatbed.LocalQueue.{
  Worker, InHand, DeadLetter, DeadLetterCause, State, Shared, clear, is_exhausted, back_in_line,
  set_aside, retry_hand, retry, fail, release_in_flight, with_reason, exhausted, failed, timed_out,
}
use flatbed.LocalQueue.Executor.Attempts.{
  IsMax, IsBelow-of_fresh, IsHand, InPhase, IsLined, IsCoherent, send-IsLined, requeue-IsLined,
  forget-IsLined, poll-IsCoherent, set_aside-IsLined, back_in_line-IsLined,
}
use flatbed.LocalQueue.Executor.{
  LocalQueueResult, done, retry_later, Phase, following, settling, polling, waiting, handling,
  sleeping, hooking, System, Move, sends, requeues, forgets, settles, polls, wakes, handles,
  wakes_up, hook_ends, gains_leadership, loses_leadership, restarts, attempt, conclude, wake_up,
  advance, step, run, start, Handling, Ending, returned, returned_err, panicked, ending_result,
}

-- What the documentation says of each outcome: a message done is finished; a retry sleeps, or on
-- the last attempt sets aside; a failure, a panic or a timeout sets aside. A letter carries the
-- attempts made and the latest reason that was given.
abbrev pub letter_of : DeadLetterCause → ℕ → Option String → ℕ → DeadLetter
letter_of cause n reason now = record {
  cause = cause;
  attempts = n;
  last_reason = reason;
  set_at = now;
}

abbrev pub reason_of : DeadLetterCause → Option String → Option String
reason_of (failed reason) last = some reason
reason_of _ last = last

-- Whether a limit on attempts leaves no other.
abbrev pub reaches : Option ℕ → ℕ → Bool
reaches none n = false
reaches (some most) n = not (ltb n most)

module _ {M : Type 0} (most : Option ℕ) (msg : M) (n : ℕ) (last : Option String) (now : ℕ) where
  -- Where a handler that was not cut off leads.
  abbrev pub ended_phase : Ending → Phase M
  ended_phase (returned done) = polling
  ended_phase (returned (retry_later reason)) =
      if reaches most n then hooking msg (letter_of exhausted n (some reason) now) else sleeping
  ended_phase (returned_err e) = hooking msg (letter_of (failed e) n (some e) now)
  ended_phase (panicked p) =
      let told = "panicked: " ++ p in hooking msg (letter_of (failed told) n (some told) now)

  -- Where one call leads: a handler that ran for longer than its timeout is cut off.
  abbrev pub outcome_phase : Option ℕ → Handling → Phase M
  outcome_phase none r = ended_phase r.ending
  outcome_phase (some after) r =
      if ltb after r.elapsed
      then hooking msg (letter_of (timed_out after) n last now)
      else ended_phase r.ending

  abbrev result_phase : Result DeadLetterCause LocalQueueResult → Phase M
  result_phase (ok done) = polling
  result_phase (ok (retry_later reason)) =
      if is_exhausted most n
      then hooking msg (letter_of exhausted n (some reason) now)
      else sleeping
  result_phase (err cause) = hooking msg (letter_of cause n (reason_of cause last) now)

is_exhausted-reaches : (most : Option ℕ) (n : ℕ) → is_exhausted most n ≡ reaches most n
unfolding is_exhausted
is_exhausted-reaches none n = refl
is_exhausted-reaches (some most) n = ground arith

module _ {M : Type 0} (most : Option ℕ) (msg : M) (n : ℕ) (last : Option String) (now : ℕ) where
  ending_result-phase :
      (e : Ending)
      → result_phase most msg n last now (ending_result e) ≡ ended_phase most msg n last now e
  unfolding ending_result
  ending_result-phase (returned done) = refl
  ending_result-phase (returned (retry_later reason)) = rw (is_exhausted-reaches most n)
  ending_result-phase (returned_err e) = refl
  ending_result-phase (panicked p) = refl

  attempt-phase :
      (timeout : Option ℕ) (r : Handling)
      → result_phase most msg n last now (attempt timeout r)
        ≡ outcome_phase most msg n last now timeout r
  unfolding attempt
  attempt-phase none r = ending_result-phase r.ending
  attempt-phase (some after) r = elim (Bool-cases (ltb after r.elapsed)) [
    | inl t ↦ let late : leb r.elapsed after ≡ false = ground arith in rw (t, late)
    | inr f ↦
        let timely : leb r.elapsed after ≡ true = ground arith in
        rw (f, timely) (ending_result-phase r.ending)
  ]

module _ {K M : Type 0} ⦃eq : HasEq K⦄ (w : Worker K M) where
  with_reason_keeps :
      (cause : DeadLetterCause) (hand : InHand K)
      → ((with_reason cause hand).key ≡ hand.key)
        × ((with_reason cause hand).attempts ≡ hand.attempts)
  with_reason_keeps exhausted hand = (refl, refl)
  with_reason_keeps (timed_out after) hand = (refl, refl)
  with_reason_keeps (failed reason) hand = (refl, refl)

  release-IsLined : (s : State K M) → IsLined w s → IsLined w (release_in_flight s)
  unfolding release_in_flight
  release-IsLined s v = record { line = v.line; aside = v.aside }

  back_in_line-in_flight :
      (hand : InHand K) (msg : M) (s : State K M)
      → (back_in_line hand msg s).in_flight ≡ s.in_flight
  unfolding back_in_line
  back_in_line-in_flight hand msg s = ground arith

  module _ (msg : M) (n now : ℕ) (h : Shared K M) (v : IsLined w h.state)
      (hd : IsHand w msg n h.in_flight) where
    retry-IsCoherent :
        (reason : String) → IsCoherent w (conclude w msg now (ok (retry_later reason)) h)
    unfolding conclude retry retry_hand set_aside release_in_flight
    retry-IsCoherent reason =
        let (hand, e, k, a, within) = hd in
        let told : InHand K = record hand { last_reason = some reason } in
        let l = release-IsLined h.state v in
        elim (Bool-cases (is_exhausted w.max_attempts hand.attempts)) [
          | inl t ↦ rw (e, retry, t) (set_aside-IsLined w told msg exhausted now _ k l, refl)
          | inr f ↦
              rw (e, retry, f)
                (
                  back_in_line-IsLined w told msg _ k
                      (IsBelow-of_fresh w.max_attempts hand.attempts f) l,
                  back_in_line-in_flight told msg _,
                )
        ]

    fail-IsCoherent : (cause : DeadLetterCause) → IsCoherent w (conclude w msg now (err cause) h)
    unfolding conclude fail set_aside release_in_flight
    fail-IsCoherent cause =
        let (hand, e, k, a, within) = hd in
        rw (e, fail)
          (
            set_aside-IsLined w (with_reason cause hand) msg cause now _
                ((with_reason_keeps cause hand).0 ∙ k) (release-IsLined h.state v),
            refl,
          )

    conclude-IsCoherent :
        (r : Result DeadLetterCause LocalQueueResult) → IsCoherent w (conclude w msg now r h)
    unfolding conclude release_in_flight
    conclude-IsCoherent (ok done) = (release-IsLined h.state v, refl)
    conclude-IsCoherent (ok (retry_later reason)) = retry-IsCoherent reason
    conclude-IsCoherent (err cause) = fail-IsCoherent cause

  conclude-phase :
      (hand : InHand K) (msg : M) (now : ℕ) (h : Shared K M)
      (r : Result DeadLetterCause LocalQueueResult)
      → h.in_flight ≡ some hand
      → (conclude w msg now r h).phase
        ≡ result_phase w.max_attempts msg hand.attempts hand.last_reason now r
  unfolding conclude retry retry_hand fail set_aside
  conclude-phase hand msg now h (ok done) e = refl
  conclude-phase hand msg now h (ok (retry_later reason)) e =
      elim (Bool-cases (is_exhausted w.max_attempts hand.attempts)) [
        | inl t ↦ rw (e, retry, t)
        | inr f ↦ rw (e, retry, f)
      ]
  conclude-phase hand msg now h (err exhausted) e = rw (e, fail)
  conclude-phase hand msg now h (err (timed_out after)) e = rw (e, fail)
  conclude-phase hand msg now h (err (failed reason)) e = rw (e, fail)

  same-InPhase : (p : Phase M) (o r : Option (InHand K)) → r ≡ o → InPhase w p o → InPhase w p r
  same-InPhase p o r e v = rw e v

  wake_up-IsCoherent :
      (b : Bool) (h : Shared K M)
      → IsLined w h.state
      → h.in_flight ≡ none
      → IsCoherent w (wake_up w b h)
  unfolding wake_up
  wake_up-IsCoherent true h l e = (l, e)
  wake_up-IsCoherent false h l e = (l, e)

  module _ (max : IsMax w.max_attempts) where
    advance-IsCoherent :
        (mv : Move K M) (p : Phase M) (h : Shared K M)
        → IsCoherent w (record { shared = h; phase = p })
        → IsCoherent w (advance w mv p h)
    unfolding advance release_in_flight clear
    advance-IsCoherent (sends msg) p h (l, v) =
        let (l', e) = send-IsLined w max msg h l in (l', same-InPhase p _ _ e v)
    advance-IsCoherent (requeues k) p h (l, v) =
        let (l', e) = requeue-IsLined w max k h l in (l', same-InPhase p _ _ e v)
    advance-IsCoherent (forgets k) p h (l, v) =
        let (l', e) = forget-IsLined w k h l in (l', same-InPhase p _ _ e v)
    advance-IsCoherent settles settling h v = v
    advance-IsCoherent polls polling h (l, v) = poll-IsCoherent w h l v
    advance-IsCoherent wakes waiting h (l, v) = wake_up-IsCoherent h.wake h l v
    advance-IsCoherent (handles r now) (handling msg n) h (l, v) =
        conclude-IsCoherent msg n now h l v (attempt w.handle_timeout r)
    advance-IsCoherent wakes_up sleeping h v = v
    advance-IsCoherent hook_ends (hooking msg letter) h v = v
    advance-IsCoherent gains_leadership following h v = v
    advance-IsCoherent loses_leadership following h v = v
    advance-IsCoherent loses_leadership _ h v = (record { line = tt; aside = tt }, refl)
    advance-IsCoherent restarts p h (l, v) = (release-IsLined h.state l, refl)
    advance-IsCoherent _ p h v = v

    run_from-IsCoherent :
        (c : System K M) (mvs : List (Move K M)) → IsCoherent w c → IsCoherent w (run w c mvs)
    unfolding run step
    run_from-IsCoherent c [] v = v
    run_from-IsCoherent c (mv ∷ mvs) v =
        run_from-IsCoherent (step w c mv) mvs (advance-IsCoherent mv c.phase c.shared v)

    run-IsCoherent : (mvs : List (Move K M)) → IsCoherent w (run w (start w) mvs)
    run-IsCoherent mvs = run_from-IsCoherent (start w) mvs (record { line = tt; aside = tt }, refl)

    -- After any interleaving, a message being handled is the one in hand, under its own key and
    -- attempt count, and with a limit on attempts (from 1 to the largest u32) the count is at most
    -- the limit.
    pub run-IsHand :
        (mvs : List (Move K M)) (msg : M) (n : ℕ)
        → (run w (start w) mvs).phase ≡ handling msg n
        → IsHand w msg n (run w (start w) mvs).in_flight
    run-IsHand mvs msg n e =
        subst (λ p. InPhase w p (run w (start w) mvs).in_flight) e (run-IsCoherent mvs).1

    step_handles :
        (c : System K M) (msg : M) (n : ℕ) (r : Handling) (now : ℕ)
        → c.phase ≡ handling msg n
        → (step w c (handles r now)).phase
          ≡ (conclude w msg now (attempt w.handle_timeout r) c.shared).phase
    unfolding step advance
    step_handles c msg n r now e = rw (e, advance)

    -- After any interleaving, when the handler of a message ends, the task goes where its run says:
    -- one that took longer than the timeout of the worker, failed or panicked leads to the dead-
    -- letter hook with a letter of that cause, one that is done on to the next message, and one
    -- that asks for a retry to sleep, or to the hook where the attempts have reached the limit; a
    -- letter carries the attempts made and the latest reason. The limit on attempts, where there is
    -- one, is a number from 1 to the largest u32.
    pub run-handles-phase :
        (mvs : List (Move K M)) (msg : M) (n : ℕ) (r : Handling) (now : ℕ)
        → (run w (start w) mvs).phase ≡ handling msg n
        → (hand : InHand K) × ((run w (start w) mvs).in_flight ≡ some hand)
          × ((step w (run w (start w) mvs) (handles r now)).phase
              ≡ outcome_phase w.max_attempts msg n hand.last_reason now w.handle_timeout r)
    run-handles-phase mvs msg n r now e =
        let (hand, held, k, a, within) = run-IsHand mvs msg n e in
        let p =
          conclude-phase hand msg now (run w (start w) mvs).shared (attempt w.handle_timeout r)
            held in
        (
          hand,
          held,
          step_handles _ msg n r now e
              ∙ (rw a at p)
              ∙ attempt-phase w.max_attempts msg n hand.last_reason now w.handle_timeout r,
        )
