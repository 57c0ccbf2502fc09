-- ===== src/Server.antt =====
-- crates/flatbed/src/lib.rs: Flatbed::run; hyper/server.rs: the tasks of AutoServer::serve. Each move is one
-- step of a task between two of its waits. The boot function, the signals, the workers and the time that
-- drains take are given.
pub mod Boot
pub mod Accepting
pub mod Timing
pub mod Shutdown
pub mod Controller
mod Tests
use flatbed.Base.{
  ℕ, suc, ◌+◌, ◌-◌, String, Bool, true, false, not, Option, none, some, List, [], ◌∷◌, ◌++◌, ◌&&◌,
  if◌then◌else◌, is_empty, Text, codes, max, min, Result, ok, err,
}
use flatbed.Service.Context.{ServiceContext}
use flatbed.Supervisor.{World, is_disabled}
use flatbed.Registry.{
  RouteInfo, RouteConflict, TypeConflict, validate_routes, validate_type_registry,
}
use flatbed.NatsRoute.{NatsRouteInfo, NatsRouteConflict, validate_nats_routes}

-- `Flatbed::run` after the server was spawned: what it does next.
pub data BootTask (C : Type 0) : Type 0 where
  marks_alive boots : BootTask C
  stores : C → BootTask C
  announces awaits_server : BootTask C
  ended : Result {0, 0} Text Unit → BootTask C

-- The task that starts the workers.
pub data Spawner (C : Type 0) : Type 0 where
  awaits_boot reads_context : Spawner C
  spawned : C → (workers : List String) → Spawner C
  without_context channel_closed : Spawner C

pub data ServerTask : Type 0 where
  accepts flushes drains : ServerTask
  sleeps : (seconds : ℕ) → ServerTask
  stopped : ServerTask
  -- `accept` has returned an error.
  refused : Text → ServerTask

pub record ServerState (C : Type 0) : Type 0 where
  pub boot_task : BootTask C
  pub spawner : Spawner C
  pub server : ServerTask
  pub healthy : Bool
  pub booted : Bool
  pub shutdown : Bool
  pub context : Option C
  -- The seconds since the server stopped accepting.
  pub spent : ℕ
  -- The connections that were accepted.
  pub connections : ℕ

pub data Move (C : Type 0) : Type 0 where
  boot_step : (boot : Result {0, 0} Text C) → Move C
  spawner_step : Move C
  -- The `select!` of the server takes either branch where both are ready: a `server_step` is the
  -- branch of the shutdown, or a wait after it.
  server_step : (seconds : ℕ) → Move C
  accepted : Move C
  accept_fails : Text → Move C
  signalled : Move C
  -- A supervised worker ends for good, in a way that stops the process or not.
  worker_ends : (stops : Bool) → Move C

-- Times are in seconds.
abbrev pub flush_timeout : ℕ
flush_timeout = 2

abbrev pub connection_epilogue : ℕ
connection_epilogue = 2

abbrev pub epilogue : (budget : ℕ) → ℕ
epilogue budget = min connection_epilogue budget

abbrev pub drain_budget : (budget : ℕ) → ℕ
drain_budget budget = max (budget - epilogue budget) 1

-- The drains of workers that are not disabled.
pub enabled_drains : List String → World → List String
enabled_drains [] world = []
enabled_drains (name ∷ names) world =
    let rest = enabled_drains names world in if is_disabled name world then rest else name ∷ rest

pub data StartError : Type 0 where
  conflicting_routes : RouteConflict → StartError
  conflicting_types : TypeConflict → StartError
  conflicting_subjects : NatsRouteConflict → StartError
  invalid_address : StartError

abbrev pub checked :
    {E A : Type 0}
    → Result {0, 0} E Unit
    → (E → StartError)
    → Result {0, 0} StartError A
    → Result {0, 0} StartError A
checked (err e) refuse next = err (refuse e)
checked (ok u) refuse next = next

module _ {C : Type 0} where
  abbrev pub started : ServerState C
  started = record {
    boot_task = marks_alive;
    spawner = awaits_boot;
    server = accepts;
    healthy = false;
    booted = false;
    shutdown = false;
    context = none;
    spent = 0;
    connections = 0;
  }

  abbrev pub after_address : Option Text → Result {0, 0} StartError (ServerState C)
  after_address none = err invalid_address
  after_address (some address) = ok started

  abbrev pub after_boot : Result {0, 0} Text C → BootTask C
  after_boot (err e) = ended (err (codes "Boot error: " ++ e))
  after_boot (ok c) = stores c

  -- The server task is awaited when everything else is done.
  abbrev pub after_server : ServerTask → BootTask C
  after_server stopped = ended (ok tt)
  after_server (refused e) = ended (err (codes "Server error: " ++ e))
  after_server accepts = awaits_server
  after_server flushes = awaits_server
  after_server drains = awaits_server
  after_server (sleeps seconds) = awaits_server

  unfoldable pub step_boot : Result {0, 0} Text C → BootTask C → ServerState C → ServerState C
  step_boot boot marks_alive s = record s { boot_task = boots; healthy = true }
  step_boot boot boots s = record s { boot_task = after_boot boot }
  step_boot boot (stores c) s = record s { boot_task = announces; context = some c }
  step_boot boot announces s = record s { boot_task = awaits_server; booted = true }
  step_boot boot awaits_server s = record s { boot_task = after_server s.server }
  step_boot boot (ended r) s = s

  -- The sender of the boot latch is dropped when `run` returns.
  abbrev pub has_ended : BootTask C → Bool
  has_ended (ended r) = true
  has_ended marks_alive = false
  has_ended boots = false
  has_ended (stores c) = false
  has_ended announces = false
  has_ended awaits_server = false

  module _ (registered : List String) where
    abbrev pub read_context : Option C → Spawner C
    read_context none = without_context
    read_context (some c) = spawned c registered

    unfoldable pub step_spawner : Spawner C → ServerState C → ServerState C
    step_spawner awaits_boot s =
        if s.booted
        then record s { spawner = reads_context }
        else (if has_ended s.boot_task then record s { spawner = channel_closed } else s)
    step_spawner reads_context s = record s { spawner = read_context s.context }
    step_spawner (spawned c workers) s = s
    step_spawner without_context s = s
    step_spawner channel_closed s = s

  -- Whether any drain ran.
  unfoldable pub run_worker_drains : (enabled : List String) → Option C → Bool
  run_worker_drains enabled none = false
  run_worker_drains enabled (some c) = not (is_empty enabled)

  module _ (enabled : List String) (budget : ℕ) where
    -- `ran` says whether drains ran; the wait for them ends after their budget.
    abbrev pub drained : (seconds : ℕ) (ran : Bool) → ServerState C → ServerState C
    drained seconds false s = record s { server = sleeps budget }
    drained seconds true s = record s {
      server = sleeps (epilogue budget);
      spent = s.spent + min seconds (drain_budget budget);
    }

    -- `seconds` is the time that the flush or the drains would take.
    unfoldable pub step_server : (seconds : ℕ) → ServerTask → ServerState C → ServerState C
    unfolding run_worker_drains
    step_server seconds accepts s = if s.shutdown then record s { server = flushes } else s
    step_server seconds flushes s = record s {
      server = drains;
      spent = s.spent + min seconds flush_timeout;
    }
    step_server seconds drains s = drained seconds (run_worker_drains enabled s.context) s
    step_server seconds (sleeps wait) s = record s { server = stopped; spent = s.spent + wait }
    step_server seconds stopped s = s
    step_server seconds (refused e) s = s

  -- Only a server that accepts takes a connection, whether the shutdown was asked for or not.
  unfoldable pub accept : Result {0, 0} Text Unit → ServerTask → ServerState C → ServerState C
  accept (ok u) accepts s = record s { connections = suc s.connections }
  accept (err e) accepts s = record s { server = refused e }
  accept r flushes s = s
  accept r drains s = s
  accept r (sleeps seconds) s = s
  accept r stopped s = s
  accept r (refused e) s = s

  -- Only a worker that was started ends: `fail` of supervisor.rs, with the sender of the shutdown
  -- or without.
  abbrev pub end_worker : (stops : Bool) → Spawner C → ServerState C → ServerState C
  end_worker stops (spawned c (w ∷ workers)) s = record s {
    healthy = false;
    shutdown = if stops then true else s.shutdown;
  }
  end_worker stops (spawned c []) s = s
  end_worker stops awaits_boot s = s
  end_worker stops reads_context s = s
  end_worker stops without_context s = s
  end_worker stops channel_closed s = s

  module _ (registered enabled : List String) (budget : ℕ) where
    unfoldable pub step : Move C → ServerState C → ServerState C
    unfolding step_boot step_spawner step_server accept
    step (boot_step boot) s = step_boot boot s.boot_task s
    step spawner_step s = step_spawner registered s.spawner s
    step (server_step seconds) s = step_server enabled budget seconds s.server s
    step accepted s = accept (ok tt) s.server s
    step (accept_fails e) s = accept (err e) s.server s
    step signalled s = record s { shutdown = true }
    step (worker_ends stops) s = end_worker stops s.spawner s

    unfoldable pub run : List (Move C) → ServerState C → ServerState C
    unfolding step
    run [] s = s
    run (m ∷ ms) s = run ms (step m s)

  -- What the service is given of the state for a request.
  abbrev pub service_of : {H : Type 0} → ServiceContext H C → ServerState C → ServiceContext H C
  service_of base s = record base { healthy = s.healthy; booted = s.booted; context = s.context }

  module _ (routes : List RouteInfo) (types enums unions : List (Text × Text))
      (nats_routes : List NatsRouteInfo) (address : Option Text) where
    -- What `Flatbed::run` does before the server is spawned. The address is none where it does not parse.
    unfoldable pub launch : Result {0, 0} StartError (ServerState C)
    launch = checked (validate_routes routes) conflicting_routes (
        checked (validate_type_registry types enums unions) conflicting_types
          (checked (validate_nats_routes nats_routes) conflicting_subjects (after_address address)))
