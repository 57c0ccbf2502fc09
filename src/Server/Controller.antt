-- ===== src/Server/Controller.antt =====
-- crates/flatbed/src/hyper/shutdown.rs: shutting down from code.
use flatbed.Base.{◌≡◌, refl, Bool, true, false, List, [], ◌∷◌, ◌++◌}
use flatbed.Reconciler.{Watch, wait_until}

-- The receiver, with the values that it is still to see.
abbrev ShutdownController : Type 0
ShutdownController = Watch

new_controller : ShutdownController
new_controller = record { now = false; later = [] }

abbrev subscribe : ShutdownController → Watch
subscribe c = c

abbrev request_shutdown : ShutdownController → ShutdownController
request_shutdown c = record c { later = c.later ++ true ∷ [] }

-- Whether the shutdown was asked for, and not only the sender dropped.
wait_for_shutdown : ShutdownController → Bool × Watch
unfolding wait_until
wait_for_shutdown c = wait_until true c.now c.later

wait_until_requested :
    (now : Bool) (later : List Bool) → (wait_until true now (later ++ true ∷ [])).0 ≡ true
unfolding wait_until
wait_until_requested true [] = refl
wait_until_requested false [] = refl
wait_until_requested true (v ∷ vs) = refl
wait_until_requested false (v ∷ vs) = wait_until_requested v vs

-- A wait that begins after the shutdown was asked for ends by it, whatever was sent before.
wait_for_shutdown-request_shutdown :
    (c : ShutdownController) → (wait_for_shutdown (request_shutdown (subscribe c))).0 ≡ true
unfolding wait_for_shutdown
wait_for_shutdown-request_shutdown c = wait_until_requested c.now c.later
