-- ===== src/Readiness.antt =====
-- crates/flatbed/src/readiness.rs: the gates, and the counter of those that are not ready. A gate and
-- its counter are two atomics: each move is one atomic access, and what a thread has yet to do to the
-- counter or the registry waits in `pending`. Gates are named by their place in the registry.
pub mod Counter
mod Tests
use flatbed.Base.{
  ℕ, zero, suc, ◌+◌, ◌-◌, ◌%◌, ◌^◌, ◌≡◌, String, Bool, true, false, not, Option, none, some, List,
  [], ◌∷◌, ◌++◌, map, if◌then◌else◌, get_elem?, modify, remove, ◌&&◌, leb,
}

pub record GateState : Type 0 where
  pub name : String
  pub ready : Bool

-- What a thread in `gate` or in `set_ready` has yet to do.
pub data Pending : Type 0 where
  pushing : (name : String) → Pending
  subtracting adding : Pending

pub record Readiness : Type 0 where
  pub gates : List GateState
  pub blocking : ℕ
  pub pending : List Pending

pub new_readiness : Readiness
new_readiness = record { gates = []; blocking = 0; pending = [] }

abbrev pub usize_count : ℕ
usize_count = 2 ^ 64

-- `fetch_add(1)` and `fetch_sub(1)` wrap around.
abbrev pub fetch_add : ℕ → ℕ
fetch_add n = (n + 1) % usize_count

abbrev pub fetch_sub : ℕ → ℕ
fetch_sub n = (n + (usize_count - 1)) % usize_count

-- `gate`, up to the push.
pub gate : String → Readiness → Readiness
gate name s = record s { blocking = fetch_add s.blocking; pending = s.pending ++ pushing name ∷ [] }

abbrev pub same_bool : Bool → Bool → Bool
same_bool true b = b
same_bool false b = not b

-- `set_ready`, up to the counter: a swap that changes nothing returns.
pub set_ready : ℕ → Bool → Readiness → Readiness
set_ready i ready s = elim (get_elem? s.gates i) [
  | none ↦ s
  | some g ↦ if same_bool g.ready ready then s else record s {
    gates = modify (λ old. record old { ready = ready }) s.gates i;
    pending = s.pending ++ (if ready then subtracting else adding) ∷ [];
  }
]

pub perform : Pending → Readiness → Readiness
perform (pushing name) s = record s {
  gates = s.gates ++ record { name = name; ready = false } ∷ [];
}
perform subtracting s = record s { blocking = fetch_sub s.blocking }
perform adding s = record s { blocking = fetch_add s.blocking }

-- The rest of a call, of the thread at place `j`.
pub finish_call : ℕ → Readiness → Readiness
unfolding perform
finish_call j s = elim (get_elem? s.pending j) [
  | none ↦ s
  | some p ↦ perform p (record s { pending = remove s.pending j })
]

unfoldable pub is_ready : Readiness → Bool
is_ready s = leb s.blocking 0

pub blocked_on : List GateState → List String
blocked_on [] = []
blocked_on (g ∷ gs) = let rest = blocked_on gs in if g.ready then rest else g.name ∷ rest

pub data Move : Type 0 where
  calls_gate : String → Move
  calls_set_ready : ℕ → Bool → Move
  finishes : ℕ → Move

pub step : Move → Readiness → Readiness
unfolding gate set_ready finish_call
step (calls_gate name) s = gate name s
step (calls_set_ready i ready) s = set_ready i ready s
step (finishes j) s = finish_call j s

pub run : List Move → Readiness → Readiness
unfolding step
run [] s = s
run (m ∷ ms) s = run ms (step m s)
