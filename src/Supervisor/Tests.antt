-- ===== src/Supervisor/Tests.antt =====
-- supervisor.rs: the theorems at concrete workers.
use flatbed.Base.{◌≤◌, ◌≡◌, refl, arith, true, false, none, some, List, [], ◌∷◌, ok}
use flatbed.Supervisor.{
  RestartPolicy, backoff, cap, delay, failed_with, World, Run, terminal, supervise, supervise_loop,
}
use flatbed.Supervisor.Backoff.{delay_bounds}
use flatbed.Supervisor.Restarts.{Shows, OthersKept, supervise-Shows}
use flatbed.Supervisor.Bound.{loop_bound, GivenUp, supervise_loop-GivenUp}

-- A second at first, at most a minute, and two restarts.
abbrev policy : RestartPolicy
policy = record (backoff 1_000_000_000 60_000_000_000) { max_restarts = 2 }

abbrev quiet : World
quiet = record { states = λ name. none; healthy = true; shutdown = false; reports = []; waits = [] }

abbrev rapid : Run
rapid = record {
  exit = some (failed_with "unreachable");
  elapsed = 5;
  shutdown_seen = false;
  woken = false;
  offset = 12345;
}

abbrev long : Run
long = record rapid { elapsed = 90_000_000_000 }

abbrev three : List Run
three = rapid ∷ rapid ∷ rapid ∷ []

delay_bounds_example : (policy.min_backoff ≤ delay policy 3) × (delay policy 3 ≤ cap policy)
delay_bounds_example = delay_bounds policy 3 (omega arith)

third_delay : delay policy 3 ≡ 4_000_000_000
unfolding delay
third_delay = refl

gives_up : (supervise "mailer" (some policy) (ok true) three quiet).0 ≡ terminal
unfolding supervise supervise_loop
gives_up = refl

supervise-Shows_example :
    Shows "mailer" quiet
      (supervise "mailer" (some policy) (ok true) three quiet).0
      (supervise "mailer" (some policy) (ok true) three quiet).1
    × OthersKept "mailer" quiet (supervise "mailer" (some policy) (ok true) three quiet).1
supervise-Shows_example = supervise-Shows "mailer" (some policy) (ok true) three quiet

loop_bound_example : (supervise_loop "mailer" (some policy) 0 three quiet).0 ≡ terminal
unfolding cap
loop_bound_example = loop_bound "mailer" policy 0 three quiet (omega arith) (omega arith) (
  ((_, refl), refl, omega arith, refl),
  (((_, refl), refl, omega arith, refl), (((_, refl), refl, omega arith, refl), tt)),
)

supervise_loop-GivenUp_example :
    GivenUp "mailer" three
      (supervise_loop "mailer" (some policy) 0 three quiet).0
      (supervise_loop "mailer" (some policy) 0 three quiet).1
supervise_loop-GivenUp_example = supervise_loop-GivenUp "mailer" policy 0 three quiet
