-- ===== src/Server/Shutdown.antt =====
-- hyper/server.rs: how the server ends, and how long it takes.
use flatbed.Base.{
  ℕ, ◌≡◌, ◌≤◌, ◌⊎◌, inl, inr, Any, ok, err, ◌+◌, ◌-◌, refl, ◌∙◌, String, true, List, [], ◌∷◌, Text,
  arith,
}
use flatbed.Server.Accepting.{refusals}
use flatbed.Server.{
  ServerState, stopped, Move, boot_step, spawner_step, server_step, signalled, worker_ends,
  accepted, accept_fails, refused, accept, step, step_boot, step_spawner, step_server, run,
  end_worker, started, flush_timeout,
}
use flatbed.Server.Timing.{
  steps_left, longest, server_steps, Timed, Keeps, step_boot-Keeps, step_spawner-Keeps,
  end_worker-Keeps, Keeps-Timed, step_server-Timed, step_server-steps, accept-steps, accept-Timed,
  none_left, stopped_time, steps_over, later_steps, same_steps,
}

module _ {C : Type 0} (registered enabled : List String) (budget : ℕ) where
  abbrev then_run : List (Move C) → ServerState C → ServerState C
  then_run ms s = run registered enabled budget ms s

  step-Timed :
      (m : Move C) (s : ServerState C)
      → Timed budget s
      → Timed budget (step registered enabled budget m s)
  unfolding step
  step-Timed (boot_step boot) s timed =
      Keeps-Timed budget s (step_boot boot s.boot_task s) (step_boot-Keeps boot s.boot_task s) timed
  step-Timed spawner_step s timed =
      Keeps-Timed budget s (step_spawner registered s.spawner s)
        (step_spawner-Keeps registered s.spawner s) timed
  step-Timed (server_step seconds) s timed =
      step_server-Timed enabled budget seconds s.server s timed timed
  step-Timed signalled s timed = timed
  step-Timed (worker_ends stops) s timed =
      Keeps-Timed budget s (end_worker stops s.spawner s) (end_worker-Keeps stops s.spawner s) timed
  step-Timed accepted s timed = accept-Timed budget (ok tt) s.server s timed timed
  step-Timed (accept_fails e) s timed = accept-Timed budget (err e) s.server s timed timed

  run-Timed :
      (ms : List (Move C)) (s : ServerState C) → Timed budget s → Timed budget (then_run ms s)
  unfolding run
  run-Timed [] s timed = timed
  run-Timed (m ∷ ms) s timed =
      run-Timed ms (step registered enabled budget m s) (step-Timed m s timed)

  fewer_steps :
      (ms : List (Move C)) (s t : ServerState C)
      → steps_left t.server ≤ steps_left s.server
      → steps_left (then_run ms t).server ≤ steps_left t.server - server_steps ms
      → steps_left (then_run ms t).server ≤ steps_left s.server - server_steps ms
  fewer_steps ms s t l left =
      same_steps (steps_left s.server) (steps_left t.server) (server_steps ms) _ left l

  Keeps-steps : (s t : ServerState C) → Keeps s t → steps_left t.server ≤ steps_left s.server
  Keeps-steps s t (e, f, h) = rw e (omega arith)

  run-steps :
      (ms : List (Move C)) (s : ServerState C)
      → s.shutdown ≡ true
      → steps_left (then_run ms s).server ≤ steps_left s.server - server_steps ms
  unfolding run step
  run-steps [] s h = omega arith
  run-steps (boot_step boot ∷ ms) s h =
      let keeps = step_boot-Keeps boot s.boot_task s in
      let t : ServerState C = step_boot boot s.boot_task s in
      fewer_steps ms s t (Keeps-steps s t keeps) (run-steps ms t (keeps.2 h))
  run-steps (spawner_step ∷ ms) s h =
      let keeps = step_spawner-Keeps registered s.spawner s in
      let t : ServerState C = step_spawner registered s.spawner s in
      fewer_steps ms s t (Keeps-steps s t keeps) (run-steps ms t (keeps.2 h))
  run-steps (server_step seconds ∷ ms) s h =
      let (fewer, down) = step_server-steps enabled budget seconds s.server s refl h in
      let t : ServerState C = step_server enabled budget seconds s.server s in
      later_steps (steps_left s.server) (steps_left t.server) (server_steps ms) _
        (run-steps ms t down) (rw fewer (omega arith))
  run-steps (accepted ∷ ms) s h =
      let (fewer, down) = accept-steps (ok tt) s.server s refl in
      let t : ServerState C = accept (ok tt) s.server s in
      fewer_steps ms s t fewer (run-steps ms t (down ∙ h))
  run-steps (accept_fails e ∷ ms) s h =
      let (fewer, down) = accept-steps (err e) s.server s refl in
      let t : ServerState C = accept (err e) s.server s in
      fewer_steps ms s t fewer (run-steps ms t (down ∙ h))
  run-steps (signalled ∷ ms) s h = run-steps ms (record s { shutdown = true }) refl
  run-steps (worker_ends stops ∷ ms) s h =
      let keeps = end_worker-Keeps stops s.spawner s in
      let t : ServerState C = end_worker stops s.spawner s in
      fewer_steps ms s t (Keeps-steps s t keeps) (run-steps ms t (keeps.2 h))

  -- Once the shutdown was asked for, by a signal or by a worker whose end stops the process, and
  -- the task of the server has taken four more steps, its branch for the shutdown and the three
  -- waits after it, the server has stopped, or it has ended with an error that accept gave, however
  -- many connections it accepted and whatever the other tasks did between those steps; from the
  -- moment it stops accepting this takes at most the two seconds of the flush and the larger of the
  -- budget and one second more than the epilogue.
  pub run-stopped :
      (before after : List (Move C))
      → (then_run before started).shutdown ≡ true
      → 4 ≤ server_steps after
      → let end = then_run after (then_run before started) in
        ((end.server ≡ stopped)
          ⊎ ((e : Text) × (end.server ≡ refused e)
              × (Any (λ m. m ≡ accept_fails e) before ⊎ Any (λ m. m ≡ accept_fails e) after)))
        × (end.spent ≤ flush_timeout + longest budget)
  run-stopped before after down enough =
      let s = then_run before started in
      let left = run-steps after s down in
      let over = steps_over s.server (server_steps after) enough in
      let none : steps_left (then_run after s).server ≡ 0 = omega (arith, left, over) in
      (
        elim (none_left _ none) [
          | inl e ↦ inl e
          | inr (e, f) ↦ inr (e, f, refusals registered enabled budget before after e f)
        ],
        stopped_time budget _ _ (run-Timed after s (run-Timed before started refl)) none,
      )
