-- ===== src/Readiness/Tests.antt =====
-- readiness.rs: the theorems at a concrete interleaving.
use flatbed.Base.{◌^◌, ◌-◌, ◌≡◌, ◌↔◌, refl, arith, true, false, List, [], ◌∷◌}
use flatbed.Readiness.{
  new_readiness, is_ready, blocked_on, Move, calls_gate, calls_set_ready, finishes, step, run, gate,
  set_ready, finish_call, perform,
}
use flatbed.Readiness.Counter.{run-is_ready}

-- Two threads report the gate ready and not ready, and the counter goes below zero on the way.
abbrev crossing : List Move
crossing =
    calls_gate "nats"
    ∷ finishes 0
    ∷ calls_set_ready 0 true
    ∷ calls_set_ready 0 false
    ∷ calls_set_ready 0 true
    ∷ finishes 0
    ∷ finishes 1
    ∷ []

abbrev settled_moves : List Move
settled_moves =
    calls_gate "nats"
    ∷ finishes 0
    ∷ calls_set_ready 0 true
    ∷ calls_set_ready 0 false
    ∷ calls_set_ready 0 true
    ∷ finishes 0
    ∷ finishes 1
    ∷ finishes 0
    ∷ []

wraps : (run crossing new_readiness).blocking ≡ 2 ^ 64 - 1
unfolding run new_readiness step gate set_ready finish_call perform
wraps = refl

run-is_ready_example :
    (is_ready (run settled_moves new_readiness) ≡ true)
    ↔ (blocked_on (run settled_moves new_readiness).gates ≡ [])
unfolding run new_readiness step gate set_ready finish_call perform
run-is_ready_example = run-is_ready settled_moves refl (omega arith)
