-- ===== src/Server/Tests.antt =====
-- lib.rs, hyper/server.rs: small runs, and the theorems at concrete inputs.
use flatbed.Base.{
  ℕ, ◌≡◌, ◌≤◌, ◌⊎◌, Any, Text, refl, String, false, none, some, List, [], ◌∷◌, codes, ok, arith,
}
use flatbed.Http.Samples.{Headers}
use flatbed.Router.{node, no_children, no_param}
use flatbed.Service.Context.{ServiceContext}
use flatbed.Registry.{validate_routes, validate_type_registry, first_conflict, find_name_collision}
use flatbed.NatsRoute.{validate_nats_routes, find_conflict}
use flatbed.Server.{
  Move, ServerState, accepted, accept_fails, refused, accept, boot_step, spawner_step, server_step,
  signalled, started, run, step, step_boot, step_spawner, step_server, run_worker_drains, spawned,
  stopped, launch,
}
use flatbed.Server.Boot.{IsLaunched, launch-IsLaunched}
use flatbed.Server.Shutdown.{run-stopped}

abbrev booting : List (Move ℕ)
booting =
    spawner_step
    ∷ boot_step (ok 7)
    ∷ boot_step (ok 7)
    ∷ boot_step (ok 7)
    ∷ spawner_step
    ∷ boot_step (ok 7)
    ∷ spawner_step
    ∷ spawner_step
    ∷ []

abbrev workers : List String
workers = "mailer" ∷ []

boot_run : (run workers workers 30 booting started).spawner ≡ spawned 7 workers
unfolding run step step_boot step_spawner
boot_run = refl

abbrev ending : List (Move ℕ)
ending =
    accepted ∷ server_step 9 ∷ spawner_step ∷ server_step 9 ∷ server_step 99 ∷ server_step 0 ∷ []

-- Without a context no drains run, and the whole budget is slept after two seconds of flushing.
slow_end : (run workers workers 30 (signalled ∷ ending) started).spent ≡ 32
unfolding run step step_server run_worker_drains step_spawner accept
slow_end = refl

abbrev context : ServiceContext Headers ℕ
context = record {
  router = node no_children no_param [];
  healthy = false;
  booted = false;
  readiness = record { gates = []; blocking = 0; pending = [] };
  context = none;
  static_routes = [];
  disk = λ path. none;
  splash = none;
  telemetry = none;
  worker_states = [];
  versions = [];
  openapi_json = λ version. codes "{}";
  schema_bfbs = none;
  before_request = none;
}

launch-IsLaunched_example :
    (validate_routes [] ≡ ok tt)
    × (validate_type_registry [] [] [] ≡ ok tt)
    × (validate_nats_routes [] ≡ ok tt)
    × ((ms : List (Move ℕ)) → IsLaunched workers context (run workers workers 30 ms started))
unfolding launch validate_routes validate_type_registry validate_nats_routes find_conflict
    first_conflict find_name_collision
launch-IsLaunched_example =
    launch-IsLaunched [] [] [] [] [] (some (codes "0.0.0.0:80")) workers workers 30 context started
      refl

-- A connection is taken after the signal.
abbrev ended_run : ServerState ℕ
ended_run = run workers workers 30 ending (run workers workers 30 (signalled ∷ []) started)

run-stopped_example :
    ((ended_run.server ≡ stopped)
      ⊎ ((e : Text) × (ended_run.server ≡ refused e)
          × (Any {A = Move ℕ} (λ m. m ≡ accept_fails e) (signalled ∷ [])
              ⊎ Any {A = Move ℕ} (λ m. m ≡ accept_fails e) ending)))
    × (ended_run.spent ≤ 32)
unfolding run step
run-stopped_example = run-stopped workers workers 30 (signalled ∷ []) ending refl (omega arith)
