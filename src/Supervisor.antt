-- ===== src/Supervisor.antt =====
-- crates/flatbed/src/supervisor.rs: the restart policy, and the loop of `supervise` over the runs of
-- one worker. A duration is a number of nanoseconds. What the worker does in each run, when the
-- process shuts down, and the hash that spreads the backoff are inputs; the state map, the health
-- and shutdown channels, the reports that were made and the backoffs that were begun are the `World`.
pub mod Backoff
pub mod Bound
pub mod Restarts
mod Tests
use flatbed.Base.{
  ℕ, zero, suc, ◌+◌, ◌-◌, ◌*◌, ◌/◌, ◌%◌, ◌^◌, min, String, Bool, true, false, Option, none, some,
  List, [], ◌∷◌, ◌++◌, ◌==◌, text_keys, ltb, leb, if◌then◌else◌, saturating_suc, Result, ok, err,
}

pub data WorkerState : Type 0 where
  running backing_off failed disabled : WorkerState

pub record RestartPolicy : Type 0 where
  pub min_backoff : ℕ
  pub max_backoff : ℕ
  pub max_restarts : ℕ

-- `Duration::MAX`, and the milliseconds that a `u64` holds.
abbrev pub duration_max : ℕ
duration_max = 2 ^ 64 * 1_000_000_000 - 1

abbrev pub u64_max : ℕ
u64_max = 2 ^ 64 - 1

abbrev pub nanos_per_milli : ℕ
nanos_per_milli = 1_000_000

abbrev pub default_max_restarts : ℕ
default_max_restarts = 10

abbrev pub backoff : ℕ → ℕ → RestartPolicy
backoff lo hi = record { min_backoff = lo; max_backoff = hi; max_restarts = default_max_restarts }

pub cap : RestartPolicy → ℕ
cap p = if ltb p.min_backoff p.max_backoff then p.max_backoff else p.min_backoff

-- `Duration::saturating_mul`.
abbrev pub saturating_mul : ℕ → ℕ → ℕ
saturating_mul d k = min (d * k) duration_max

pub delay : RestartPolicy → ℕ → ℕ
unfolding cap
delay p attempt = min (saturating_mul p.min_backoff (2 ^ min (attempt - 1) 31)) (cap p)

-- `offset` is the hash of the worker and the attempt.
pub jittered : ℕ → ℕ → ℕ
jittered d offset =
    let half : ℕ = min (d / nanos_per_milli) u64_max / 2 in
    if leb half 0 then d else (half + offset % suc half) * nanos_per_milli

pub data Exit : Type 0 where
  completed : Exit
  failed_with panicked : String → Exit

pub data Report : Type 0 where
  panic_report : (worker panic : String) → Report
  worker_failure : (worker : String) (error : Option String) (restarts_exhausted : Bool) → Report

pub record World : Type 0 where
  pub states : String → Option WorkerState
  pub healthy : Bool
  pub shutdown : Bool
  pub reports : List Report
  pub waits : List ℕ

pub set_state : String → WorkerState → World → World
set_state name st o = record o {
  states = λ other. if name == other then some st else o.states other;
}

pub is_disabled : String → World → Bool
is_disabled name o = elim (o.states name) [ some disabled ↦ true | _ ↦ false ]

report : List Report → World → World
report rs o = record o { reports = o.reports ++ rs }

-- A panic that exhausts the policy is reported twice.
pub exit_reports : String → Exit → Bool → List Report
exit_reports name completed exhausted = worker_failure name none exhausted ∷ []
exit_reports name (failed_with e) exhausted = worker_failure name (some e) exhausted ∷ []
exit_reports name (panicked p) false = panic_report name p ∷ []
exit_reports name (panicked p) true = panic_report name p ∷ worker_failure name none true ∷ []

pub report_exit : String → Exit → Bool → World → World
unfolding report exit_reports
report_exit name exit exhausted o = report (exit_reports name exit exhausted) o

pub fail : String → Bool → World → World
unfolding set_state
fail name stops o = record (set_state name failed o) {
  healthy = false;
  shutdown = if stops then true else o.shutdown;
}

-- Only an exit that is an error begins the shutdown.
pub stops_process : Exit → Bool
stops_process completed = false
stops_process _ = true

pub terminate : String → Exit → World → World
unfolding fail report_exit stops_process
terminate name exit o = fail name (stops_process exit) (report_exit name exit false o)

-- One run of the worker. No exit is a cancelled task; `shutdown_seen` is the shutdown flag when the
-- run ended, `woken` whether shutdown came during the backoff, and `offset` the hash that spreads it.
pub record Run : Type 0 where
  pub exit : Option Exit
  pub elapsed : ℕ
  pub shutdown_seen : Bool
  pub woken : Bool
  pub offset : ℕ

pub data Stop : Type 0 where
  cancelled in_shutdown terminal in_backoff not_enabled still_running : Stop

-- After a run under a policy: the count of consecutive failures that it makes.
pub next_attempt : RestartPolicy → ℕ → Run → ℕ
unfolding cap
next_attempt p attempt r = saturating_suc (if leb (cap p) r.elapsed then 0 else attempt)

-- What a worker that will be restarted leaves, with the backoff that starts.
pub back_off : String → RestartPolicy → ℕ → Run → Exit → World → World
unfolding jittered delay report_exit set_state
back_off name p attempt r exit o =
    let wait : ℕ = jittered (delay p attempt) r.offset in
    let reported = report_exit name exit false o in
    record (set_state name backing_off reported) { waits = o.waits ++ wait ∷ [] }

-- The body of the loop from the exit on; `none` goes round again.
pub after_exit : String → Option RestartPolicy → ℕ → Run → Exit → World → Option Stop × World
unfolding terminate report_exit fail back_off next_attempt
after_exit name none attempt r exit o = (some terminal, terminate name exit o)
after_exit name (some p) attempt r exit o =
    if ltb p.max_restarts (next_attempt p attempt r)
    then (some terminal, fail name true (report_exit name exit true o))
    else (
      if r.woken then some in_backoff else none,
      back_off name p (next_attempt p attempt r) r exit o,
    )

pub round : String → Option RestartPolicy → ℕ → Run → World → Option Stop × World
unfolding set_state after_exit
round name policy attempt r o =
    let started : World = set_state name running o in
    elim r.exit [
      | none ↦ (some cancelled, started)
      | some exit ↦
          if r.shutdown_seen
          then (some in_shutdown, started)
          else after_exit name policy attempt r exit started
    ]

abbrev pub attempt_after : Option RestartPolicy → ℕ → Run → ℕ
unfolding next_attempt
attempt_after none attempt r = attempt
attempt_after (some p) attempt r = next_attempt p attempt r

-- The loop, over the runs that the worker makes; without another run it is still running.
pub supervise_loop : String → Option RestartPolicy → ℕ → List Run → World → Stop × World
unfolding round next_attempt
supervise_loop name policy attempt [] o = (still_running, set_state name running o)
supervise_loop name policy attempt (r ∷ rs) o =
    let (stop, o') = round name policy attempt r o in
    let rest = supervise_loop name policy (attempt_after policy attempt r) rs o' in
    elim stop [ some s ↦ (s, o') | none ↦ rest ]

-- `enabled` is what the worker's check returned, or the panic that it raised.
pub supervise : String → Option RestartPolicy → Result String Bool → List Run → World → Stop × World
unfolding set_state terminate
supervise name policy (ok true) rs o = supervise_loop name policy 0 rs o
supervise name policy (ok false) rs o = (not_enabled, set_state name disabled o)
supervise name policy (err panic) rs o = (terminal, terminate name (panicked panic) o)
