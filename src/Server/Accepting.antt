-- ===== src/Server/Accepting.antt =====
-- hyper/server.rs: the accept loop. Only an error of `accept` ends the server without a shutdown.
use flatbed.Base.{
  ◌≡◌, ◌⊎◌, inl, inr, refl, sym, ap, ◌∙◌, String, ℕ, Bool, true, false, List, [], ◌∷◌, Any, Text,
  Result, ok, err, Bool-cases, arith,
}
use flatbed.Server.{
  ServerState, ServerTask, accepts, flushes, drains, sleeps, stopped, refused, Spawner, spawned,
  awaits_boot, reads_context, without_context, channel_closed, BootTask, marks_alive, boots, stores,
  announces, awaits_server, ended, Move, boot_step, spawner_step, server_step, signalled, accepted,
  accept_fails, worker_ends, step, step_boot, step_spawner, step_server, run, drained, end_worker,
  accept, run_worker_drains, started,
}

module _ {C : Type 0} where
  -- What the tasks of the boot function and the workers leave as it is.
  step_boot-server :
      (boot : Result {0, 0} Text C) (t : BootTask C) (s : ServerState C)
      → (step_boot boot t s).server ≡ s.server
  unfolding step_boot
  step_boot-server boot marks_alive s = refl
  step_boot-server boot boots s = refl
  step_boot-server boot (stores c) s = refl
  step_boot-server boot announces s = refl
  step_boot-server boot awaits_server s = refl
  step_boot-server boot (ended r) s = refl

  step_spawner-server :
      (registered : List String) (t : Spawner C) (s : ServerState C)
      → (step_spawner registered t s).server ≡ s.server
  unfolding step_spawner
  step_spawner-server registered awaits_boot s = ground arith
  step_spawner-server registered reads_context s = refl
  step_spawner-server registered (spawned c workers) s = refl
  step_spawner-server registered without_context s = refl
  step_spawner-server registered channel_closed s = refl

  end_worker-server :
      (stops : Bool) (t : Spawner C) (s : ServerState C) → (end_worker stops t s).server ≡ s.server
  end_worker-server stops (spawned c (w ∷ workers)) s = refl
  end_worker-server stops (spawned c []) s = refl
  end_worker-server stops awaits_boot s = refl
  end_worker-server stops reads_context s = refl
  end_worker-server stops without_context s = refl
  end_worker-server stops channel_closed s = refl

  drained-server :
      (enabled : List String) (budget seconds : ℕ) (ran : Bool) (s : ServerState C) (e : Text)
      → (drained enabled budget seconds ran s).server ≡ refused e
      → s.server ≡ refused e
  drained-server enabled budget seconds true s e h = cc h
  drained-server enabled budget seconds false s e h = cc h

  step_server-refused :
      (enabled : List String) (budget seconds : ℕ) (t : ServerTask) (s : ServerState C) (e : Text)
      → s.server ≡ t
      → (step_server enabled budget seconds t s).server ≡ refused e
      → s.server ≡ refused e
  unfolding step_server
  step_server-refused enabled budget seconds accepts s e k h = elim (Bool-cases s.shutdown) [
    | inl d ↦ cc (rw d at h)
    | inr d ↦ rw d at h
  ]
  step_server-refused enabled budget seconds flushes s e k h = cc h
  step_server-refused enabled budget seconds drains s e k h =
      drained-server enabled budget seconds (run_worker_drains enabled s.context) s e h
  step_server-refused enabled budget seconds (sleeps wait) s e k h = cc h
  step_server-refused enabled budget seconds stopped s e k h = h
  step_server-refused enabled budget seconds (refused f) s e k h = h

  accept-refused :
      (r : Result {0, 0} Text Unit) (t : ServerTask) (s : ServerState C) (e : Text)
      → (accept r t s).server ≡ refused e
      → (s.server ≡ refused e) ⊎ (r ≡ err e)
  unfolding accept
  accept-refused (ok u) accepts s e h = inl h
  accept-refused (err f) accepts s e h = let same : f ≡ e = cc h in inr (ap err same)
  accept-refused r flushes s e h = inl h
  accept-refused r drains s e h = inl h
  accept-refused r (sleeps wait) s e h = inl h
  accept-refused r stopped s e h = inl h
  accept-refused r (refused f) s e h = inl h

  module _ (registered enabled : List String) (budget : ℕ) where
    step-refused :
        (m : Move C) (s : ServerState C) (e : Text)
        → (step registered enabled budget m s).server ≡ refused e
        → (s.server ≡ refused e) ⊎ (m ≡ accept_fails e)
    unfolding step
    step-refused (boot_step boot) s e h = inl (sym (step_boot-server boot s.boot_task s) ∙ h)
    step-refused spawner_step s e h = inl (sym (step_spawner-server registered s.spawner s) ∙ h)
    step-refused (server_step seconds) s e h =
        inl (step_server-refused enabled budget seconds s.server s e refl h)
    step-refused accepted s e h = elim (accept-refused (ok tt) s.server s e h) [
      | inl k ↦ inl k
      | inr k ↦ cc k
    ]
    step-refused (accept_fails f) s e h = elim (accept-refused (err f) s.server s e h) [
      | inl k ↦ inl k
      | inr k ↦ let same : f ≡ e = cc k in inr (ap accept_fails same)
    ]
    step-refused signalled s e h = inl h
    step-refused (worker_ends stops) s e h = inl (sym (end_worker-server stops s.spawner s) ∙ h)

    run-refused :
        (ms : List (Move C)) (s : ServerState C) (e : Text)
        → (run registered enabled budget ms s).server ≡ refused e
        → (s.server ≡ refused e) ⊎ Any (λ m. m ≡ accept_fails e) ms
    unfolding run
    run-refused [] s e h = inl h
    run-refused (m ∷ ms) s e h = elim (run-refused ms (step registered enabled budget m s) e h) [
      | inr k ↦ inr (inr k)
      | inl k ↦ elim (step-refused m s e k) [ inl i ↦ inl i | inr i ↦ inr (inl i) ]
    ]

    -- A server that was refused a connection was refused it by a move.
    pub refusals :
        (before after : List (Move C)) (e : Text)
        → (run registered enabled budget after
            (run registered enabled budget before started)).server
          ≡ refused e
        → Any (λ m. m ≡ accept_fails e) before ⊎ Any (λ m. m ≡ accept_fails e) after
    refusals before after e h = elim (run-refused after _ e h) [
      | inr k ↦ inr k
      | inl k ↦ elim (run-refused before started e k) [ inl i ↦ cc i | inr i ↦ inl i ]
    ]
