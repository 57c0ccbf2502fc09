-- ===== src/LocalQueue/Executor/Schedule.antt =====
-- local_queue.rs: what holds after every interleaving of producers, the executor and leadership.
use flatbed.Base.{ℕ, ◌≡◌, refl, Bool, true, false, List, [], ◌∷◌, HasEq, Result, ok, err}
use flatbed.LocalQueue.{Worker, Shared, clear, new_sender}
use flatbed.LocalQueue.Invariant.{
  IsValid, send-IsValid, requeue-IsValid, forget-IsValid, next-IsValid, retry-IsValid, fail-IsValid,
  release_in_flight-IsValid, clear-IsValid,
}
use flatbed.LocalQueue.Executor.{
  LocalQueueResult, done, retry_later, Phase, following, settling, polling, waiting, handling,
  sleeping, hooking, System, Move, sends, requeues, forgets, settles, polls, wakes, handles,
  wakes_up, hook_ends, gains_leadership, loses_leadership, restarts, attempt, conclude, wake_up,
  advance, step, run, start,
}

module _ {K M : Type 0} ⦃eq : HasEq K⦄ (w : Worker K M) where
  conclude-IsValid :
      (msg : M) (now : ℕ) (r : Result _ LocalQueueResult) (h : Shared K M)
      → IsValid w h.state
      → IsValid w (conclude w msg now r h).state
  unfolding conclude
  conclude-IsValid msg now (ok done) h v = release_in_flight-IsValid w h.state v
  conclude-IsValid msg now (ok (retry_later reason)) h v = retry-IsValid w msg reason now h.state v
  conclude-IsValid msg now (err cause) h v = fail-IsValid w msg cause now h.state v

  wake_up-state : (b : Bool) (h : Shared K M) → (wake_up w b h).state ≡ h.state
  unfolding wake_up
  wake_up-state true h = refl
  wake_up-state false h = refl

  advance-IsValid :
      (mv : Move K M) (p : Phase M) (h : Shared K M)
      → IsValid w h.state
      → IsValid w (advance w mv p h).state
  unfolding advance
  advance-IsValid (sends msg) p h v = send-IsValid w msg h v
  advance-IsValid (requeues k) p h v = requeue-IsValid w k h v
  advance-IsValid (forgets k) p h v = forget-IsValid w k h v
  advance-IsValid settles settling h v = v
  advance-IsValid polls polling h v = next-IsValid w h.state v
  advance-IsValid wakes waiting h v = rw (wake_up-state h.wake h) v
  advance-IsValid (handles r now) (handling msg n) h v =
      conclude-IsValid msg now (attempt w.handle_timeout r) h v
  advance-IsValid wakes_up sleeping h v = v
  advance-IsValid hook_ends (hooking msg letter) h v = v
  advance-IsValid gains_leadership following h v = v
  advance-IsValid loses_leadership following h v = v
  advance-IsValid loses_leadership _ h v = clear-IsValid w h.state
  advance-IsValid restarts p h v = release_in_flight-IsValid w h.state v
  advance-IsValid _ p h v = v

  run_from-IsValid :
      (c : System K M) (mvs : List (Move K M)) → IsValid w c.state → IsValid w (run w c mvs).state
  unfolding run step
  run_from-IsValid c [] v = v
  run_from-IsValid c (mv ∷ mvs) v =
      run_from-IsValid (step w c mv) mvs (advance-IsValid mv c.phase c.shared v)

  -- After any interleaving of producers, the executor and leadership changes, no key stands twice
  -- in line or twice aside, none is both in line and aside, the key in hand is not aside, the
  -- messages held are at most the capacity, and the dead letters at most theirs.
  pub run-IsValid : (mvs : List (Move K M)) → IsValid w (run w (start w) mvs).state
  unfolding clear
  run-IsValid mvs = run_from-IsValid (start w) mvs (clear-IsValid w new_sender.state)
