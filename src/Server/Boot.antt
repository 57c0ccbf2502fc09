-- ===== src/Server/Boot.antt =====
-- lib.rs, hyper/server.rs: what holds of the context and the workers after any interleaving of the tasks.
use flatbed.Base.{
  both, ℕ, ◌≡◌, ◌≢◌, ◌⊎◌, inl, inr, refl, sym, subst, String, Bool, true, false, Option, none, some,
  List, [], ◌∷◌, if◌then◌else◌, Text, Result, ok, err, Bool-cases,
}
use flatbed.Server.{
  ServerState, BootTask, marks_alive, boots, stores, announces, awaits_server, ended, after_boot,
  after_server, accepts, flushes, drains, sleeps, stopped, ServerTask, Spawner, awaits_boot,
  reads_context, spawned, without_context, channel_closed, has_ended, read_context, Move, boot_step,
  spawner_step, server_step, accepted, accept_fails, refused, accept, signalled, worker_ends, step,
  step_boot, step_spawner, step_server, run, started, drained, end_worker, service_of,
  run_worker_drains, launch, checked, after_address, StartError, conflicting_routes,
  conflicting_types, conflicting_subjects,
}
use flatbed.Registry.{RouteInfo, validate_routes, validate_type_registry}
use flatbed.NatsRoute.{NatsRouteInfo, validate_nats_routes}
use flatbed.Service.Context.{ServiceContext, is_ready}

module _ {C : Type 0} where
  abbrev BootFits : BootTask C → Bool → Option C → Type 0
  BootFits marks_alive booted context = booted ≡ false
  BootFits boots booted context = booted ≡ false
  BootFits (stores c) booted context = booted ≡ false
  BootFits announces booted context = (booted ≡ false) × ((c : C) × (context ≡ some c))
  BootFits awaits_server booted context = (c : C) × (context ≡ some c)
  BootFits (ended r) booted context = (booted ≡ false) ⊎ ((c : C) × (context ≡ some c))

module _ {C : Type 0} (registered : List String) where
  abbrev SpawnerFits : Spawner C → Bool → Option C → Type 0
  SpawnerFits awaits_boot booted context = Unit
  SpawnerFits reads_context booted context = booted ≡ true
  SpawnerFits (spawned c workers) booted context =
      (booted ≡ true) × (context ≡ some c) × (workers ≡ registered)
  SpawnerFits without_context booted context = ⊥
  SpawnerFits channel_closed booted context = Unit

  abbrev Fits : ServerState C → Type 0
  Fits s = BootFits s.boot_task s.booted s.context × SpawnerFits s.spawner s.booted s.context

  booted-stored :
      (t : BootTask C) (context : Option C) → BootFits t true context → (c : C) × (context ≡ some c)
  booted-stored marks_alive context h = cc h
  booted-stored boots context h = cc h
  booted-stored (stores c) context h = cc h
  booted-stored announces context (h, stored) = stored
  booted-stored awaits_server context stored = stored
  booted-stored (ended r) context (inl h) = cc h
  booted-stored (ended r) context (inr stored) = stored

  after_boot-BootFits :
      (boot : Result {0, 0} Text C) (b : Bool) (context : Option C)
      → b ≡ false
      → BootFits (after_boot boot) b context
  after_boot-BootFits (err e) b context h = inl h
  after_boot-BootFits (ok c) b context h = h

  after_server-BootFits :
      (server : ServerTask) (b : Bool) (context : Option C)
      → (c : C) × (context ≡ some c)
      → BootFits (after_server server) b context
  after_server-BootFits stopped b context stored = inr stored
  after_server-BootFits (refused e) b context stored = inr stored
  after_server-BootFits accepts b context stored = stored
  after_server-BootFits flushes b context stored = stored
  after_server-BootFits drains b context stored = stored
  after_server-BootFits (sleeps n) b context stored = stored

  -- Before the latch is set, the context may be stored.
  store-SpawnerFits :
      (t : Spawner C) (b : Bool) (context stored : Option C)
      → b ≡ false
      → SpawnerFits t b context
      → SpawnerFits t b stored
  store-SpawnerFits awaits_boot b context stored h f = tt
  store-SpawnerFits reads_context b context stored h f = f
  store-SpawnerFits (spawned c workers) b context stored h (f, e, w) = cc (h, f)
  store-SpawnerFits without_context b context stored h f = elim f [ ]
  store-SpawnerFits channel_closed b context stored h f = tt

  announce-SpawnerFits :
      (t : Spawner C) (b : Bool) (context : Option C)
      → SpawnerFits t b context
      → SpawnerFits t true context
  announce-SpawnerFits awaits_boot b context f = tt
  announce-SpawnerFits reads_context b context f = refl
  announce-SpawnerFits (spawned c workers) b context (f, e, w) = (refl, e, w)
  announce-SpawnerFits without_context b context f = elim f [ ]
  announce-SpawnerFits channel_closed b context f = tt

  step_boot-Fits :
      (boot : Result {0, 0} Text C) (t : BootTask C) (s : ServerState C)
      → BootFits t s.booted s.context
      → Fits s
      → Fits (step_boot boot t s)
  unfolding step_boot
  step_boot-Fits boot marks_alive s now (f, g) = (now, g)
  step_boot-Fits boot boots s now (f, g) = (after_boot-BootFits boot s.booted s.context now, g)
  step_boot-Fits boot (stores c) s now (f, g) =
      ((now, (c, refl)), store-SpawnerFits s.spawner s.booted s.context (some c) now g)
  step_boot-Fits boot announces s (h, stored) (f, g) =
      (stored, announce-SpawnerFits s.spawner s.booted s.context g)
  step_boot-Fits boot awaits_server s now (f, g) =
      (after_server-BootFits s.server s.booted s.context now, g)
  step_boot-Fits boot (ended r) s now fits = fits

  read_context-SpawnerFits :
      (b : Bool) (context : Option C)
      → b ≡ true
      → (c : C) × (context ≡ some c)
      → SpawnerFits (read_context registered context) b context
  read_context-SpawnerFits b none h (c, stored) = cc stored
  read_context-SpawnerFits b (some c) h stored = (h, refl, refl)

  either-Fits :
      (b : Bool) (x y : ServerState C)
      → (b ≡ true → Fits x)
      → (b ≡ false → Fits y)
      → Fits (if b then x else y)
  either-Fits true x y f g = f refl
  either-Fits false x y f g = g refl

  step_spawner-Fits :
      (t : Spawner C) (s : ServerState C)
      → SpawnerFits t s.booted s.context
      → Fits s
      → Fits (step_spawner registered t s)
  unfolding step_spawner
  step_spawner-Fits awaits_boot s now (f, g) =
      either-Fits s.booted _ _ (λ h. (f, h))
        (λ h. either-Fits (has_ended s.boot_task) _ s (λ k. (f, tt)) (λ k. (f, g)))
  step_spawner-Fits reads_context s now (f, g) = (
    f,
    read_context-SpawnerFits s.booted s.context now
        (booted-stored s.boot_task s.context (subst (λ b. BootFits s.boot_task b s.context) now f)),
  )
  step_spawner-Fits (spawned c workers) s now fits = fits
  step_spawner-Fits without_context s now fits = elim now [ ]
  step_spawner-Fits channel_closed s now fits = fits

  end_worker-Fits :
      (stops : Bool) (t : Spawner C) (s : ServerState C) → Fits s → Fits (end_worker stops t s)
  end_worker-Fits stops (spawned c (w ∷ workers)) s fits = fits
  end_worker-Fits stops (spawned c []) s fits = fits
  end_worker-Fits stops awaits_boot s fits = fits
  end_worker-Fits stops reads_context s fits = fits
  end_worker-Fits stops without_context s fits = fits
  end_worker-Fits stops channel_closed s fits = fits

  accept-Fits :
      (r : Result {0, 0} Text Unit) (t : ServerTask) (s : ServerState C)
      → Fits s
      → Fits (accept r t s)
  unfolding accept
  accept-Fits (ok u) accepts s fits = fits
  accept-Fits (err e) accepts s fits = fits
  accept-Fits r flushes s fits = fits
  accept-Fits r drains s fits = fits
  accept-Fits r (sleeps n) s fits = fits
  accept-Fits r stopped s fits = fits
  accept-Fits r (refused e) s fits = fits

  module _ (enabled : List String) (budget : ℕ) where
    drained-Fits :
        (seconds : ℕ) (ran : Bool) (s : ServerState C)
        → Fits s
        → Fits (drained enabled budget seconds ran s)
    drained-Fits seconds false s fits = fits
    drained-Fits seconds true s fits = fits

    step_server-Fits :
        (seconds : ℕ) (t : ServerTask) (s : ServerState C)
        → Fits s
        → Fits (step_server enabled budget seconds t s)
    unfolding step_server
    step_server-Fits seconds accepts s fits = elim (Bool-cases s.shutdown) [
      | inl h ↦ rw h fits
      | inr h ↦ rw h fits
    ]
    step_server-Fits seconds flushes s fits = fits
    step_server-Fits seconds drains s fits =
        drained-Fits seconds (run_worker_drains enabled s.context) s fits
    step_server-Fits seconds (sleeps n) s fits = fits
    step_server-Fits seconds stopped s fits = fits
    step_server-Fits seconds (refused e) s fits = fits

    step-Fits :
        (m : Move C) (s : ServerState C) → Fits s → Fits (step registered enabled budget m s)
    unfolding step
    step-Fits (boot_step boot) s (f, g) = step_boot-Fits boot s.boot_task s f (f, g)
    step-Fits spawner_step s (f, g) = step_spawner-Fits s.spawner s g (f, g)
    step-Fits (server_step seconds) s fits = step_server-Fits seconds s.server s fits
    step-Fits accepted s fits = accept-Fits (ok tt) s.server s fits
    step-Fits (accept_fails e) s fits = accept-Fits (err e) s.server s fits
    step-Fits signalled s fits = fits
    step-Fits (worker_ends stops) s fits = end_worker-Fits stops s.spawner s fits

    run-Fits :
        (ms : List (Move C)) (s : ServerState C)
        → Fits s
        → Fits (run registered enabled budget ms s)
    unfolding run
    run-Fits [] s fits = fits
    run-Fits (m ∷ ms) s fits = run-Fits ms (step registered enabled budget m s) (step-Fits m s fits)

  -- What a server that was started shows.
  pub record IsLaunched {H : Type 0} (base : ServiceContext H C) (s : ServerState C) : Type 0 where
    pub answers_with_context : is_ready (service_of base s) ≡ true → (c : C) × (s.context ≡ some c)
    pub finds_context : s.spawner ≢ without_context
    pub starts_workers :
        (c : C) (workers : List String)
        → s.spawner ≡ spawned c workers
        → (s.booted ≡ true) × (s.context ≡ some c) × (workers ≡ registered)

  Fits-IsLaunched :
      {H : Type 0} (base : ServiceContext H C) (s : ServerState C) → Fits s → IsLaunched base s
  unfolding is_ready
  Fits-IsLaunched base s (f, g) = record {
    answers_with_context = λ h.
        booted-stored s.boot_task s.context
          (subst (λ b. BootFits s.boot_task b s.context) (both s.booted _ h).0 f);
    finds_context = λ e. subst (λ t. SpawnerFits t s.booted s.context) e g;
    starts_workers = λ c workers e. subst (λ t. SpawnerFits t s.booted s.context) e g;
  }

  run-IsLaunched :
      {H : Type 0} (enabled : List String) (budget : ℕ) (base : ServiceContext H C)
      (ms : List (Move C))
      → IsLaunched base (run registered enabled budget ms started)
  run-IsLaunched enabled budget base ms =
      Fits-IsLaunched base (run registered enabled budget ms started)
        (run-Fits enabled budget ms started (refl, tt))

checked-ok :
    {E A : Type 0} {a : A} (r : Result {0, 0} E Unit) (refuse : E → StartError)
    (next : Result {0, 0} StartError A)
    → checked r refuse next ≡ ok a
    → (r ≡ ok tt) × (next ≡ ok a)
checked-ok (err e) refuse next h = cc h
checked-ok (ok u) refuse next h = (refl, h)

after_address-started :
    {C : Type 0} (address : Option Text) (s : ServerState C)
    → after_address address ≡ ok s
    → s ≡ started
after_address-started none s h = cc h
after_address-started (some a) s h = cc h

module _ {H C : Type 0} (routes : List RouteInfo) (types enums unions : List (Text × Text))
    (nats_routes : List NatsRouteInfo) (address : Option Text) (registered enabled : List String)
    (budget : ℕ) (base : ServiceContext H C) where
  -- A server that starts has passed the checks of routes, types and NATS subjects, and after any
  -- interleaving of its tasks: where the service is ready for requests the context of the boot
  -- function is stored, the task that starts the workers never misses the context, and workers that
  -- were started are those registered, after the boot latch was set, with the context that is
  -- stored.
  pub launch-IsLaunched :
      (s : ServerState C)
      → launch routes types enums unions nats_routes address ≡ ok s
      → (validate_routes routes ≡ ok tt)
        × (validate_type_registry types enums unions ≡ ok tt)
        × (validate_nats_routes nats_routes ≡ ok tt)
        × ((ms : List (Move C)) → IsLaunched registered base (run registered enabled budget ms s))
  unfolding launch
  launch-IsLaunched s h =
      let (a, h1) = checked-ok (validate_routes routes) conflicting_routes _ h in
      let (b, h2) = checked-ok (validate_type_registry types enums unions) conflicting_types _ h1 in
      let (c, h3) = checked-ok (validate_nats_routes nats_routes) conflicting_subjects _ h2 in
      (
        a,
        b,
        c,
        λ ms.
            subst (λ t. IsLaunched registered base (run registered enabled budget ms t))
              (sym (after_address-started address s h3))
              (run-IsLaunched registered enabled budget base ms),
      )
