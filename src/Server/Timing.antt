-- ===== src/Server/Timing.antt =====
-- hyper/server.rs: what each step does to the time that the server takes to end, and to the steps left.
use flatbed.Base.{
  ℕ, suc, ◌≡◌, ◌≤◌, ◌⊎◌, inl, inr, ok, err, ◌+◌, ◌-◌, refl, sym, ap, subst, min, max, String, Bool,
  true, false, List, [], ◌∷◌, if◌then◌else◌, Text, arith, Result,
}
use flatbed.Server.{
  ServerState, ServerTask, accepts, flushes, drains, sleeps, stopped, Spawner, spawned, awaits_boot,
  reads_context, without_context, channel_closed, BootTask, marks_alive, boots, stores, announces,
  awaits_server, ended, has_ended, Move, boot_step, spawner_step, server_step, signalled,
  worker_ends, accepted, accept_fails, refused, accept, step_boot, step_spawner, step_server,
  drained, end_worker, epilogue, drain_budget, run_worker_drains, flush_timeout,
}

-- The steps that a server has yet to take once it is to shut down.
abbrev pub steps_left : ServerTask → ℕ
steps_left accepts = 4
steps_left flushes = 3
steps_left drains = 2
steps_left (sleeps wait) = 1
steps_left stopped = 0
steps_left (refused e) = 0

-- The most that drains and the wait for connections take.
abbrev pub longest : (budget : ℕ) → ℕ
longest budget = max budget (epilogue budget + 1)

abbrev IsTimed : (budget : ℕ) → ServerTask → (spent : ℕ) → Type 0
IsTimed budget accepts spent = spent ≡ 0
IsTimed budget flushes spent = spent ≡ 0
IsTimed budget drains spent = spent ≤ flush_timeout
IsTimed budget (sleeps wait) spent = spent + wait ≤ flush_timeout + longest budget
IsTimed budget stopped spent = spent ≤ flush_timeout + longest budget
IsTimed budget (refused e) spent = spent ≡ 0

drain_time :
    (budget seconds spent : ℕ)
    → spent ≤ 2
    → spent + min seconds (drain_budget budget) + epilogue budget ≤ 2 + longest budget
drain_time budget seconds spent h = omega arith

flush_time : (seconds spent : ℕ) → spent ≡ 0 → spent + min seconds flush_timeout ≤ flush_timeout
flush_time seconds spent h = omega arith

rest_time : (budget spent : ℕ) → spent ≤ 2 → spent + budget ≤ 2 + longest budget
rest_time budget spent h = omega arith

abbrev pub server_steps : {C : Type 0} → List (Move C) → ℕ
server_steps [] = 0
server_steps (server_step seconds ∷ ms) = suc (server_steps ms)
server_steps (boot_step boot ∷ ms) = server_steps ms
server_steps (spawner_step ∷ ms) = server_steps ms
server_steps (signalled ∷ ms) = server_steps ms
server_steps (worker_ends stops ∷ ms) = server_steps ms
server_steps (accepted ∷ ms) = server_steps ms
server_steps (accept_fails e ∷ ms) = server_steps ms

module _ {C : Type 0} where
  abbrev pub Timed : (budget : ℕ) → ServerState C → Type 0
  Timed budget s = IsTimed budget s.server s.spent

  -- What the other tasks leave as it is.
  abbrev pub Keeps : ServerState C → ServerState C → Type 0
  Keeps s t = (t.server ≡ s.server) × (t.spent ≡ s.spent) × (s.shutdown ≡ true → t.shutdown ≡ true)

  either-Keeps :
      (b : Bool) (s x y : ServerState C) → Keeps s x → Keeps s y → Keeps s (if b then x else y)
  either-Keeps true s x y f g = f
  either-Keeps false s x y f g = g

  pub step_boot-Keeps :
      (boot : Result {0, 0} Text C) (t : BootTask C) (s : ServerState C)
      → Keeps s (step_boot boot t s)
  unfolding step_boot
  step_boot-Keeps boot marks_alive s = (refl, refl, λ h. h)
  step_boot-Keeps boot boots s = (refl, refl, λ h. h)
  step_boot-Keeps boot (stores c) s = (refl, refl, λ h. h)
  step_boot-Keeps boot announces s = (refl, refl, λ h. h)
  step_boot-Keeps boot awaits_server s = (refl, refl, λ h. h)
  step_boot-Keeps boot (ended r) s = (refl, refl, λ h. h)

  pub step_spawner-Keeps :
      (registered : List String) (t : Spawner C) (s : ServerState C)
      → Keeps s (step_spawner registered t s)
  unfolding step_spawner
  step_spawner-Keeps registered awaits_boot s =
      either-Keeps s.booted s _ _ (refl, refl, λ h. h)
        (either-Keeps (has_ended s.boot_task) s _ s (refl, refl, λ h. h) (refl, refl, λ h. h))
  step_spawner-Keeps registered reads_context s = (refl, refl, λ h. h)
  step_spawner-Keeps registered (spawned c workers) s = (refl, refl, λ h. h)
  step_spawner-Keeps registered without_context s = (refl, refl, λ h. h)
  step_spawner-Keeps registered channel_closed s = (refl, refl, λ h. h)

  pub end_worker-Keeps :
      (stops : Bool) (t : Spawner C) (s : ServerState C) → Keeps s (end_worker stops t s)
  end_worker-Keeps true (spawned c (w ∷ workers)) s = (refl, refl, λ h. refl)
  end_worker-Keeps false (spawned c (w ∷ workers)) s = (refl, refl, λ h. h)
  end_worker-Keeps stops (spawned c []) s = (refl, refl, λ h. h)
  end_worker-Keeps stops awaits_boot s = (refl, refl, λ h. h)
  end_worker-Keeps stops reads_context s = (refl, refl, λ h. h)
  end_worker-Keeps stops without_context s = (refl, refl, λ h. h)
  end_worker-Keeps stops channel_closed s = (refl, refl, λ h. h)

  pub Keeps-Timed : (budget : ℕ) (s t : ServerState C) → Keeps s t → Timed budget s → Timed budget t
  Keeps-Timed budget s t (e, f, h) timed =
      subst (λ server. IsTimed budget server t.spent) (sym e)
        (subst (IsTimed budget s.server) (sym f) timed)

  module _ (enabled : List String) (budget : ℕ) where
    either-Timed :
        (b : Bool) (x y : ServerState C)
        → Timed budget x
        → Timed budget y
        → Timed budget (if b then x else y)
    either-Timed true x y f g = f
    either-Timed false x y f g = g

    drained-Timed :
        (seconds : ℕ) (ran : Bool) (s : ServerState C)
        → s.spent ≤ flush_timeout
        → Timed budget (drained enabled budget seconds ran s)
    drained-Timed seconds false s h = rest_time budget s.spent h
    drained-Timed seconds true s h = drain_time budget seconds s.spent h

    pub step_server-Timed :
        (seconds : ℕ) (t : ServerTask) (s : ServerState C)
        → IsTimed budget t s.spent
        → Timed budget s
        → Timed budget (step_server enabled budget seconds t s)
    unfolding step_server
    step_server-Timed seconds accepts s now timed = either-Timed s.shutdown _ s now timed
    step_server-Timed seconds flushes s now timed = flush_time seconds s.spent now
    step_server-Timed seconds drains s now timed =
        drained-Timed seconds (run_worker_drains enabled s.context) s now
    step_server-Timed seconds (sleeps wait) s now timed = now
    step_server-Timed seconds stopped s now timed = timed
    step_server-Timed seconds (refused e) s now timed = timed

    drained-steps :
        (seconds : ℕ) (ran : Bool) (s : ServerState C)
        → s.shutdown ≡ true
        → (steps_left (drained enabled budget seconds ran s).server ≡ 1)
          × ((drained enabled budget seconds ran s).shutdown ≡ true)
    drained-steps seconds false s h = (refl, h)
    drained-steps seconds true s h = (refl, h)

    pub step_server-steps :
        (seconds : ℕ) (t : ServerTask) (s : ServerState C)
        → s.server ≡ t
        → s.shutdown ≡ true
        → (steps_left (step_server enabled budget seconds t s).server ≡ steps_left t - 1)
          × ((step_server enabled budget seconds t s).shutdown ≡ true)
    unfolding step_server
    step_server-steps seconds accepts s e h = rw h (refl, refl)
    step_server-steps seconds flushes s e h = (refl, h)
    step_server-steps seconds drains s e h =
        drained-steps seconds (run_worker_drains enabled s.context) s h
    step_server-steps seconds (sleeps wait) s e h = (refl, h)
    step_server-steps seconds stopped s e h = (ap steps_left e, h)
    step_server-steps seconds (refused f) s e h = (ap steps_left e, h)

  -- A connection leaves the server with as many steps, and an error with none.
  pub accept-steps :
      (r : Result {0, 0} Text Unit) (t : ServerTask) (s : ServerState C)
      → s.server ≡ t
      → (steps_left (accept r t s).server ≤ steps_left t) × ((accept r t s).shutdown ≡ s.shutdown)
  unfolding accept
  accept-steps (ok u) accepts s e = (rw e (omega arith), refl)
  accept-steps (err f) accepts s e = (omega arith, refl)
  accept-steps r flushes s e = (rw e (omega arith), refl)
  accept-steps r drains s e = (rw e (omega arith), refl)
  accept-steps r (sleeps wait) s e = (rw e (omega arith), refl)
  accept-steps r stopped s e = (rw e (omega arith), refl)
  accept-steps r (refused f) s e = (rw e (omega arith), refl)

  pub accept-Timed :
      (budget : ℕ) (r : Result {0, 0} Text Unit) (t : ServerTask) (s : ServerState C)
      → IsTimed budget t s.spent
      → Timed budget s
      → Timed budget (accept r t s)
  unfolding accept
  accept-Timed budget (ok u) accepts s now timed = timed
  accept-Timed budget (err e) accepts s now timed = now
  accept-Timed budget r flushes s now timed = timed
  accept-Timed budget r drains s now timed = timed
  accept-Timed budget r (sleeps wait) s now timed = timed
  accept-Timed budget r stopped s now timed = timed
  accept-Timed budget r (refused e) s now timed = timed

-- A server that has no step left has stopped, or was refused a connection.
pub none_left : (t : ServerTask) → steps_left t ≡ 0 → (t ≡ stopped) ⊎ ((e : Text) × (t ≡ refused e))
none_left accepts h = cc h
none_left flushes h = cc h
none_left drains h = cc h
none_left (sleeps wait) h = cc h
none_left stopped h = inl refl
none_left (refused e) h = inr (e, refl)

pub stopped_time :
    (budget : ℕ) (t : ServerTask) (spent : ℕ)
    → IsTimed budget t spent
    → steps_left t ≡ 0
    → spent ≤ flush_timeout + longest budget
stopped_time budget accepts spent timed h = cc h
stopped_time budget flushes spent timed h = cc h
stopped_time budget drains spent timed h = cc h
stopped_time budget (sleeps wait) spent timed h = cc h
stopped_time budget stopped spent timed h = timed
stopped_time budget (refused e) spent timed h = omega (arith, timed)

pub steps_over : (t : ServerTask) (n : ℕ) → 4 ≤ n → steps_left t - n ≡ 0
steps_over accepts n h = omega arith
steps_over flushes n h = omega arith
steps_over drains n h = omega arith
steps_over (sleeps wait) n h = omega arith
steps_over stopped n h = omega arith
steps_over (refused e) n h = omega arith

pub later_steps : (a b n k : ℕ) → k ≤ b - n → b ≤ a - 1 → k ≤ a - suc n
later_steps a b n k h l = omega arith

pub same_steps : (a b n k : ℕ) → k ≤ b - n → b ≤ a → k ≤ a - n
same_steps a b n k h l = omega arith
