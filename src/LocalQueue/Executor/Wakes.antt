-- ===== src/LocalQueue/Executor/Wakes.antt =====
-- local_queue.rs: the `Notify` that a producer leaves for the waiting task.
use flatbed.Base.{
  ℕ, ◌≡◌, refl, Bool, true, false, List, [], ◌∷◌, HasEq, inl, inr, arith, Bool-cases, Result, ok,
  err, saturating_suc,
}
use flatbed.LocalQueue.{Worker, Entry, State, Shared, send, requeue, requeue_aside, forget, next}
use flatbed.LocalQueue.Executor.{
  LocalQueueResult, done, retry_later, Phase, following, settling, polling, waiting, handling,
  sleeping, hooking, System, Move, sends, requeues, forgets, settles, polls, wakes, handles,
  wakes_up, hook_ends, gains_leadership, loses_leadership, restarts, attempt, conclude, poll,
  wake_up, advance, step, run, start, enter,
}

module _ {K M : Type 0} ⦃eq : HasEq K⦄ (w : Worker K M) where
  -- A waiting task with no permit to take has nothing to take.
  abbrev pub IsAwake : System K M → Type 0
  IsAwake c = c.phase ≡ waiting → c.wake ≡ false → c.queued ≡ []

  send_quiet : (msg : M) (h : Shared K M) → (send w msg h).1.wake ≡ false → (send w msg h).1 ≡ h
  unfolding send
  send_quiet msg h e = ground arith

  requeue_quiet : (k : K) (h : Shared K M) → (requeue w k h).1.wake ≡ false → (requeue w k h).1 ≡ h
  unfolding requeue requeue_aside
  requeue_quiet k h e = ground arith

  forget_keeps :
      (k : K) (h : Shared K M) → ((forget k h).1.wake ≡ h.wake) × ((forget k h).1.queued ≡ h.queued)
  unfolding forget
  forget_keeps k h = ground arith

  next_empty : (s : State K M) → enter (next s).0 ≡ waiting → (next s).1.queued ≡ []
  unfolding next
  next_empty s e = ground arith

  conclude_busy :
      (msg : M) (now : ℕ) (r : Result _ LocalQueueResult) (h : Shared K M)
      → IsAwake (conclude w msg now r h)
  unfolding conclude
  conclude_busy msg now (ok done) h e = absurd (ground arith)
  conclude_busy msg now (ok (retry_later reason)) h e = absurd (ground arith)
  conclude_busy msg now (err cause) h e = absurd (ground arith)

  wake_up-IsAwake :
      (b : Bool) (h : Shared K M)
      → h.wake ≡ b
      → (b ≡ false → h.queued ≡ [])
      → IsAwake (wake_up w b h)
  unfolding wake_up
  wake_up-IsAwake true h e q p f = cc
  wake_up-IsAwake false h e q p f = q refl

  advance-IsAwake :
      (mv : Move K M) (p : Phase M) (h : Shared K M)
      → IsAwake (record { shared = h; phase = p })
      → IsAwake (advance w mv p h)
  unfolding advance
  advance-IsAwake (sends msg) p h v e f =
      let same = send_quiet msg h f in rw same (v e (rw same at f))
  advance-IsAwake (requeues k) p h v e f =
      let same = requeue_quiet k h f in rw same (v e (rw same at f))
  advance-IsAwake (forgets k) p h v e f = let (a, b) = forget_keeps k h in rw b (v e (rw a at f))
  advance-IsAwake settles settling h v e f = cc
  advance-IsAwake polls polling h v e f = next_empty h.state e
  advance-IsAwake wakes waiting h v e f = wake_up-IsAwake h.wake h refl (v refl) e f
  advance-IsAwake (handles r now) (handling msg n) h v e f =
      conclude_busy msg now (attempt w.handle_timeout r) h e f
  advance-IsAwake wakes_up sleeping h v e f = cc
  advance-IsAwake hook_ends (hooking msg letter) h v e f = cc
  advance-IsAwake gains_leadership following h v e f = cc
  advance-IsAwake loses_leadership following h v e f = cc
  advance-IsAwake loses_leadership _ h v e f = cc
  advance-IsAwake restarts p h v e f = cc
  advance-IsAwake _ p h v e f = v e f

  run_from-IsAwake : (c : System K M) (mvs : List (Move K M)) → IsAwake c → IsAwake (run w c mvs)
  unfolding run step
  run_from-IsAwake c [] v = v
  run_from-IsAwake c (mv ∷ mvs) v =
      run_from-IsAwake (step w c mv) mvs (advance-IsAwake mv c.phase c.shared v)

  take_front :
      (c : System K M) (x : Entry K M) (rest : List (Entry K M))
      → c.phase ≡ waiting
      → c.wake ≡ true
      → c.queued ≡ x ∷ rest
      → (run w c (wakes ∷ polls ∷ [])).phase ≡ handling x.msg (saturating_suc x.attempts)
  unfolding run step advance poll next wake_up
  take_front c x rest e t q = ground arith

  -- No wake-up is lost: after any interleaving, if the task waits while something is in line, the
  -- permit is there, and the next two moves of the task take the front message as its next attempt.
  pub waiting_takes_front :
      (mvs : List (Move K M)) (x : Entry K M) (rest : List (Entry K M))
      → (run w (start w) mvs).phase ≡ waiting
      → (run w (start w) mvs).queued ≡ x ∷ rest
      → ((run w (start w) mvs).wake ≡ true)
        × ((run w (run w (start w) mvs) (wakes ∷ polls ∷ [])).phase
            ≡ handling x.msg (saturating_suc x.attempts))
  waiting_takes_front mvs x rest e q = (permit, take_front _ x rest e permit q)
    where
      permit : (run w (start w) mvs).wake ≡ true
      permit = elim (Bool-cases (run w (start w) mvs).wake) [
        | inl t ↦ t
        | inr f ↦ cc (q, run_from-IsAwake (start w) mvs (λ p. cc) e f)
      ]
