-- ===== src/Supervisor/Restarts.antt =====
-- supervisor.rs: what a supervised worker leaves behind, and how often it is restarted.
use flatbed.Base.{
  ℕ, ◌≡◌, ◌≢◌, subst, refl, ◌∙◌, ap, String, Bool, true, false, Option, none, some, List, [], ◌∷◌,
  arith, inl, inr, ◌⊎◌, Bool-cases, Option-cases, ltb, beq_refl, beq_ne, text_keys, Result, ok, err,
}
use flatbed.Supervisor.{
  WorkerState, report_exit, report, running, backing_off, failed, disabled, RestartPolicy, Exit,
  panicked, World, set_state, back_off, fail, terminate, Run, Stop, cancelled, in_shutdown,
  terminal, in_backoff, not_enabled, still_running, next_attempt, after_exit, round, attempt_after,
  supervise_loop, supervise,
}

-- What the process shows for a worker that was supervised from `o` on: dead and unhealthy, disabled
-- and untouched, or alive and untouched.
abbrev pub Shows : String → World → Stop → World → Type 0
Shows name o terminal o' = (o'.healthy ≡ false) × (o'.states name ≡ some failed)
Shows name o not_enabled o' =
    (o'.healthy ≡ o.healthy)
    × (o'.shutdown ≡ o.shutdown)
    × (o'.reports ≡ o.reports)
    × (o'.waits ≡ o.waits)
    × (o'.states name ≡ some disabled)
Shows name o _ o' =
    (o'.healthy ≡ o.healthy)
    × (o'.shutdown ≡ o.shutdown)
    × ((o'.states name ≡ some running) ⊎ (o'.states name ≡ some backing_off))

abbrev RoundShows : String → World → Option Stop → World → Type 0
RoundShows name o none o' = (o'.healthy ≡ o.healthy) × (o'.shutdown ≡ o.shutdown)
RoundShows name o (some s) o' = Shows name o s o'

terminate-Shows :
    (name : String) (exit : Exit) (o o' : World) → Shows name o' terminal (terminate name exit o)
unfolding terminate fail set_state
terminate-Shows name exit o o' = (refl, rw (beq_refl name))

after_exit-Shows :
    (name : String) (policy : Option RestartPolicy) (a : ℕ) (r : Run) (exit : Exit) (o : World)
    → let out = after_exit name policy a r exit (set_state name running o) in
      RoundShows name o out.0 out.1
unfolding after_exit set_state back_off
after_exit-Shows name none a r exit o = terminate-Shows name exit (set_state name running o) o
after_exit-Shows name (some p) a r exit o =
    elim (Bool-cases (ltb p.max_restarts (next_attempt p a r))) [
      | inl t ↦ rw t (refl, rw (beq_refl name))
      | inr f ↦ elim (Bool-cases r.woken) [
        | inl w ↦ rw (f, w) (refl, refl, inr (rw (beq_refl name)))
        | inr w ↦ rw (f, w) (refl, refl)
      ]
    ]

module _ (name : String) (policy : Option RestartPolicy) (a : ℕ) (r : Run) (o : World) where
  pub round_cancelled :
      r.exit ≡ none → round name policy a r o ≡ (some cancelled, set_state name running o)
  unfolding round
  round_cancelled e = simp (round, e)

  pub round_in_shutdown :
      (exit : Exit)
      → r.exit ≡ some exit
      → r.shutdown_seen ≡ true
      → round name policy a r o ≡ (some in_shutdown, set_state name running o)
  unfolding round
  round_in_shutdown exit e s = simp (round, e, s)

  pub round_ended :
      (exit : Exit)
      → r.exit ≡ some exit
      → r.shutdown_seen ≡ false
      → round name policy a r o ≡ after_exit name policy a r exit (set_state name running o)
  unfolding round
  round_ended exit e s = simp (round, e, s)

  round-Shows : RoundShows name o (round name policy a r o).0 (round name policy a r o).1
  unfolding set_state
  round-Shows = elim (Option-cases r.exit) [
    | inl e ↦ rw (round_cancelled e) (refl, refl, inl (rw (beq_refl name)))
    | inr (exit, e) ↦ elim (Bool-cases r.shutdown_seen) [
      | inl s ↦ rw (round_in_shutdown exit e s) (refl, refl, inl (rw (beq_refl name)))
      | inr s ↦ rw (round_ended exit e s) (after_exit-Shows name policy a r exit o)
    ]
  ]

Shows-trans :
    (name : String) (s : Stop) (o o' o'' : World)
    → o'.healthy ≡ o.healthy
    → o'.shutdown ≡ o.shutdown
    → s ≢ not_enabled
    → Shows name o' s o''
    → Shows name o s o''
Shows-trans name terminal o o' o'' h k n v = v
Shows-trans name not_enabled o o' o'' h k n v = absurd (n refl)
Shows-trans name cancelled o o' o'' h k n (a, b, c) = (a ∙ h, b ∙ k, c)
Shows-trans name in_shutdown o o' o'' h k n (a, b, c) = (a ∙ h, b ∙ k, c)
Shows-trans name in_backoff o o' o'' h k n (a, b, c) = (a ∙ h, b ∙ k, c)
Shows-trans name still_running o o' o'' h k n (a, b, c) = (a ∙ h, b ∙ k, c)

-- Only the check before the loop finds a worker not enabled.
after_exit_enabled :
    (name : String) (policy : Option RestartPolicy) (a : ℕ) (r : Run) (exit : Exit) (o : World)
    → (after_exit name policy a r exit o).0 ≢ some not_enabled
unfolding after_exit
after_exit_enabled name none a r exit o e = cc
after_exit_enabled name (some p) a r exit o e = ground arith

round_enabled :
    (name : String) (policy : Option RestartPolicy) (a : ℕ) (r : Run) (o : World)
    → (round name policy a r o).0 ≢ some not_enabled
round_enabled name policy a r o = elim (Option-cases r.exit) [
  | inl e ↦ rw (round_cancelled name policy a r o e) (λ h. cc)
  | inr (exit, e) ↦ elim (Bool-cases r.shutdown_seen) [
    | inl s ↦ rw (round_in_shutdown name policy a r o exit e s) (λ h. cc)
    | inr s ↦
        rw (round_ended name policy a r o exit e s)
          (after_exit_enabled name policy a r exit (set_state name running o))
  ]
]

module _ (name : String) (policy : Option RestartPolicy) (a : ℕ) (r : Run) (rs : List Run)
    (o : World) where
  pub supervise_loop_stops :
      (s : Stop)
      → (round name policy a r o).0 ≡ some s
      → supervise_loop name policy a (r ∷ rs) o ≡ (s, (round name policy a r o).1)
  unfolding supervise_loop
  supervise_loop_stops s n = simp (supervise_loop, n)

  pub supervise_loop_again :
      (round name policy a r o).0 ≡ none
      → supervise_loop name policy a (r ∷ rs) o
        ≡ supervise_loop name policy (attempt_after policy a r) rs (round name policy a r o).1
  unfolding supervise_loop
  supervise_loop_again n = simp (supervise_loop, n)

supervise_loop_enabled :
    (name : String) (policy : Option RestartPolicy) (a : ℕ) (rs : List Run) (o : World)
    → (supervise_loop name policy a rs o).0 ≢ not_enabled
unfolding supervise_loop
supervise_loop_enabled name policy a [] o = λ e. cc
supervise_loop_enabled name policy a (r ∷ rs) o = elim (Option-cases (round name policy a r o).0) [
  | inl n ↦
      rw (supervise_loop_again name policy a r rs o n) (
        supervise_loop_enabled name policy (attempt_after policy a r) rs
          (round name policy a r o).1)
  | inr (s, n) ↦
      rw (supervise_loop_stops name policy a r rs o s n)
        (λ e. round_enabled name policy a r o (n ∙ ap some e))
]

supervise_loop-Shows :
    (name : String) (policy : Option RestartPolicy) (a : ℕ) (rs : List Run) (o : World)
    → let out = supervise_loop name policy a rs o in Shows name o out.0 out.1
unfolding supervise_loop set_state
supervise_loop-Shows name policy a [] o = (refl, refl, inl (rw (beq_refl name)))
supervise_loop-Shows name policy a (r ∷ rs) o =
    let next = (round name policy a r o).1 in
    let rest = supervise_loop name policy (attempt_after policy a r) rs next in
    let shown = round-Shows name policy a r o in
    elim (Option-cases (round name policy a r o).0) [
      | inl n ↦
          let (h, k) = subst (λ s. RoundShows name o s next) n shown in
          rw (supervise_loop_again name policy a r rs o n) (
            Shows-trans name rest.0 o next rest.1 h k
              (supervise_loop_enabled name policy (attempt_after policy a r) rs next)
              (supervise_loop-Shows name policy (attempt_after policy a r) rs next))
      | inr (s, n) ↦
          rw (supervise_loop_stops name policy a r rs o s n)
            (subst (λ s. RoundShows name o s next) n shown)
    ]

-- Every other worker is shown as before.
abbrev pub OthersKept : String → World → World → Type 0
OthersKept name o o' = (other : String) → name ≢ other → o'.states other ≡ o.states other

set_state-OthersKept :
    (name : String) (st : WorkerState) (o : World) → OthersKept name o (set_state name st o)
unfolding set_state
set_state-OthersKept name st o other ne = rw (beq_ne name other ne)

terminate-OthersKept :
    (name : String) (exit : Exit) (o : World) → OthersKept name o (terminate name exit o)
unfolding terminate fail set_state report_exit report
terminate-OthersKept name exit o other ne = rw (beq_ne name other ne)

after_exit-OthersKept :
    (name : String) (policy : Option RestartPolicy) (a : ℕ) (r : Run) (exit : Exit) (o : World)
    → OthersKept name o (after_exit name policy a r exit o).1
unfolding after_exit fail set_state back_off report_exit report
after_exit-OthersKept name none a r exit o other ne = terminate-OthersKept name exit o other ne
after_exit-OthersKept name (some p) a r exit o other ne =
    elim (Bool-cases (ltb p.max_restarts (next_attempt p a r))) [
      | inl t ↦ rw t (rw (beq_ne name other ne))
      | inr f ↦ rw f (rw (beq_ne name other ne))
    ]

round-OthersKept :
    (name : String) (policy : Option RestartPolicy) (a : ℕ) (r : Run) (o : World)
    → OthersKept name o (round name policy a r o).1
round-OthersKept name policy a r o other ne =
    let begun = set_state-OthersKept name running o other ne in
    elim (Option-cases r.exit) [
      | inl e ↦ rw (round_cancelled name policy a r o e) begun
      | inr (exit, e) ↦ elim (Bool-cases r.shutdown_seen) [
        | inl s ↦ rw (round_in_shutdown name policy a r o exit e s) begun
        | inr s ↦
            rw (round_ended name policy a r o exit e s) (
              after_exit-OthersKept name policy a r exit (set_state name running o) other ne
              ∙ begun)
      ]
    ]

supervise_loop-OthersKept :
    (name : String) (policy : Option RestartPolicy) (a : ℕ) (rs : List Run) (o : World)
    → OthersKept name o (supervise_loop name policy a rs o).1
unfolding supervise_loop
supervise_loop-OthersKept name policy a [] o other ne = set_state-OthersKept name running o other ne
supervise_loop-OthersKept name policy a (r ∷ rs) o other ne =
    let next = (round name policy a r o).1 in
    let kept = round-OthersKept name policy a r o other ne in
    elim (Option-cases (round name policy a r o).0) [
      | inl n ↦
          rw (supervise_loop_again name policy a r rs o n) (
            supervise_loop-OthersKept name policy (attempt_after policy a r) rs next other ne
            ∙ kept)
      | inr (s, n) ↦ rw (supervise_loop_stops name policy a r rs o s n) kept
    ]

-- However long a worker is supervised: if it ended for good, the process is unhealthy and the
-- worker shown as failed; if its check turned it away, it is shown as disabled, and health,
-- shutdown, reports and backoffs are as they were; in every other case health and shutdown are as
-- they were, and it is shown as running or as backing off. Every other worker is shown as before.
pub supervise-Shows :
    (name : String) (policy : Option RestartPolicy) (enabled : Result String Bool) (rs : List Run)
    (o : World)
    → let out = supervise name policy enabled rs o in
      Shows name o out.0 out.1 × OthersKept name o out.1
unfolding supervise set_state
supervise-Shows name policy (ok true) rs o =
    (supervise_loop-Shows name policy 0 rs o, supervise_loop-OthersKept name policy 0 rs o)
supervise-Shows name policy (ok false) rs o =
    ((refl, refl, refl, refl, rw (beq_refl name)), set_state-OthersKept name disabled o)
supervise-Shows name policy (err p) rs o =
    (terminate-Shows name (panicked p) o o, terminate-OthersKept name (panicked p) o)
