-- ===== src/Reconciler/Watchers.antt =====
-- crates/flatbed/src/k8s.rs: the loop of run_kube_native_reconciler, the watchers of resources that others
-- own, and the drains.
use flatbed.Base.{
  ◌≡◌, refl, ap, Bool, true, false, Option, List, [], ◌∷◌, ◌++◌, inl, inr, if◌then◌else◌, Text,
  codes, Result, ok, err, All,
}
use flatbed.Reconciler.{
  Watch, Round, Ending, returned, running, wait_until, wait_for_leadership, after_round,
  run_kube_reconciler,
}
use flatbed.Reconciler.Leadership.{wait_until-Waited}

-- For each round of leadership, whether the controller ends by itself.
unfoldable run_kube_native_reconciler : List (Option Watch) → Watch → Ending
unfolding wait_until
run_kube_native_reconciler [] w = if (wait_for_leadership w).0 then running else returned (ok tt)
run_kube_native_reconciler (r ∷ rs) w =
    let led = wait_for_leadership w in
    let rest = run_kube_native_reconciler rs (after_round r led.1) in
    if led.0 then rest else returned (ok tt)

abbrev with_stream : Option Watch → Round
with_stream ended = record { stream = ok tt; ended = ended }

abbrev with_streams : List (Option Watch) → List Round
with_streams [] = []
with_streams (r ∷ rs) = with_stream r ∷ with_streams rs

-- Without a stream to create, the loop goes as that of a reconciler.
run_kube_native_reconciler_lem :
    (rs : List (Option Watch)) (w : Watch)
    → run_kube_native_reconciler rs w ≡ run_kube_reconciler (with_streams rs) w
unfolding run_kube_native_reconciler run_kube_reconciler
run_kube_native_reconciler_lem [] w = refl
run_kube_native_reconciler_lem (r ∷ rs) w =
    ap (λ e. if (wait_for_leadership w).0 then e else returned (ok tt))
      (run_kube_native_reconciler_lem rs (after_round r (wait_for_leadership w).1))

pub data WatchEvent (R : Type 0) : Type 0 where
  apply delete init_apply : R → WatchEvent R
  init init_done : WatchEvent R
  watch_error : Text → WatchEvent R

pub data Callback (R : Type 0) : Type 0 where
  on_apply on_delete on_init_apply : R → Callback R
  on_init on_init_done : Callback R

-- A round of a watcher: the events until its stream ends or the leadership is lost.
pub record WatchRound (R : Type 0) : Type 0 where
  pub events : List (WatchEvent R)
  pub ended : Option Watch

module _ {R : Type 0} where
  -- An error is logged; the stream lists again by itself.
  unfoldable dispatch_kube_event : WatchEvent R → List (Callback R)
  dispatch_kube_event (apply obj) = on_apply obj ∷ []
  dispatch_kube_event (delete obj) = on_delete obj ∷ []
  dispatch_kube_event (init_apply obj) = on_init_apply obj ∷ []
  dispatch_kube_event init = on_init ∷ []
  dispatch_kube_event init_done = on_init_done ∷ []
  dispatch_kube_event (watch_error e) = []

  unfoldable drive_kube_watcher : List (WatchEvent R) → List (Callback R)
  unfolding dispatch_kube_event
  drive_kube_watcher [] = []
  drive_kube_watcher (e ∷ events) = dispatch_kube_event e ++ drive_kube_watcher events

  -- The callbacks of each round, with the receiver as it begins.
  unfoldable run_gated : List (WatchRound R) → Watch → List (Watch × List (Callback R)) × Ending
  unfolding wait_until drive_kube_watcher
  run_gated [] w = ([], if (wait_for_leadership w).0 then running else returned (ok tt))
  run_gated (r ∷ rs) w =
      let led = wait_for_leadership w in
      let rest = run_gated rs (after_round r.ended led.1) in
      if led.0
      then ((led.1, drive_kube_watcher r.events) ∷ rest.0, rest.1)
      else ([], returned (ok tt))

  unfoldable run_ungated : List (WatchRound R) → Watch → List (Watch × List (Callback R)) × Ending
  unfolding drive_kube_watcher
  run_ungated [] w = ([], running)
  run_ungated (r ∷ rs) w =
      let rest = run_ungated rs w in ((w, drive_kube_watcher r.events) ∷ rest.0, rest.1)

  run_kube_watcher :
      (leader_gated : Bool)
      → List (WatchRound R)
      → Watch
      → List (Watch × List (Callback R)) × Ending
  unfolding run_gated run_ungated
  run_kube_watcher true rounds w = run_gated rounds w
  run_kube_watcher false rounds w = run_ungated rounds w

  abbrev ends_of : List (WatchRound R) → List (Option Watch)
  ends_of [] = []
  ends_of (r ∷ rs) = r.ended ∷ ends_of rs

  abbrev Leads : Watch × List (Callback R) → Type 0
  Leads p = p.0.now ≡ true

  -- A watcher that is gated calls back only in rounds that begin as leader, and its loop goes as that of
  -- a reconciler.
  run_kube_watcher-Leads :
      (rounds : List (WatchRound R)) (w : Watch)
      → All Leads (run_kube_watcher true rounds w).0
        × ((run_kube_watcher true rounds w).1
            ≡ run_kube_reconciler (with_streams (ends_of rounds)) w)
  unfolding run_kube_watcher run_gated run_kube_reconciler
  run_kube_watcher-Leads [] w = (tt, refl)
  run_kube_watcher-Leads (r ∷ rs) w =
      let led = wait_for_leadership w in
      let (all, same) = run_kube_watcher-Leads rs (after_round r.ended led.1) in
      let (f, l, o) = wait_until-Waited true w.now w.later in
      elim o [
        | inl (came, leads) ↦ rw came ((leads, all), same)
        | inr (came, follows, closed) ↦ rw came (tt, refl)
      ]

-- The drain of a reconciler, native or not; that of a watcher gives its error itself.
pub record WorkerError : Type 0 where
  pub code : Text
  pub message : Text

run_kube_reconciler_drain : Result {0, 0} Text Unit → Result {0, 0} WorkerError Unit
run_kube_reconciler_drain (ok u) = ok tt
run_kube_reconciler_drain (err message) =
    err (record { code = codes "DRAIN_ERROR"; message = message })
