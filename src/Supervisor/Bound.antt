-- ===== src/Supervisor/Bound.antt =====
-- supervisor.rs: how often `supervise` restarts a worker, and how it gives one up.
use flatbed.Base.{
  ℕ, suc, ◌+◌, ◌≤◌, ◌<◌, ◌≡◌, refl, sym, ◌∙◌, ap, String, true, false, Option, none, subst, some,
  List, [], ◌∷◌, ◌++◌, Any, beq_refl, text_keys, arith, inl, inr, Bool-cases, Option-cases, ltb,
  if◌then◌else◌, u32_max, length, All, lt→ltb, le→ltb, ltb→lt,
}
use flatbed.Supervisor.{
  RestartPolicy, cap, Exit, completed, failed_with, panicked, Report, worker_failure, panic_report,
  failed, cancelled, in_shutdown, not_enabled, World, set_state, running, back_off, report_exit,
  exit_reports, Run, Stop, terminal, in_backoff, still_running, next_attempt, after_exit, round,
  attempt_after, supervise_loop, report, fail,
}
use flatbed.Supervisor.Restarts.{
  round_cancelled, round_in_shutdown, round_ended, supervise_loop_stops, supervise_loop_again,
}

-- A run that ended by itself, sooner than the policy's cap, in a process that goes on.
abbrev pub IsRapid : RestartPolicy → Run → Type 0
IsRapid p r =
    ((exit : Exit) × (r.exit ≡ some exit))
    × (r.shutdown_seen ≡ false)
    × (r.elapsed < cap p)
    × (r.woken ≡ false)

module _ (name : String) (p : RestartPolicy) (a : ℕ) (r : Run) (exit : Exit) (o : World) where
  after_exit_exhausted :
      p.max_restarts < next_attempt p a r
      → after_exit name (some p) a r exit o
        ≡ (some terminal, fail name true (report_exit name exit true o))
  unfolding after_exit
  after_exit_exhausted h = simp (after_exit, lt→ltb p.max_restarts (next_attempt p a r) h)

  after_exit_retried :
      next_attempt p a r ≤ p.max_restarts
      → after_exit name (some p) a r exit o
        ≡ (if r.woken then some in_backoff else none, back_off name p (next_attempt p a r) r exit o)
  unfolding after_exit
  after_exit_retried h = simp (after_exit, le→ltb (next_attempt p a r) p.max_restarts h)

next_attempt_rapid :
    (p : RestartPolicy) (a : ℕ) (r : Run)
    → r.elapsed < cap p
    → a < u32_max
    → next_attempt p a r ≡ suc a
unfolding next_attempt
next_attempt_rapid p a r h k = ground arith

next_attempt_long :
    (p : RestartPolicy) (a : ℕ) (r : Run) → cap p ≤ r.elapsed → next_attempt p a r ≡ 1
unfolding next_attempt
next_attempt_long p a r h = ground arith

loop_nil :
    (name : String) (policy : Option RestartPolicy) (a : ℕ) (o : World)
    → supervise_loop name policy a [] o ≡ (still_running, set_state name running o)
unfolding supervise_loop
loop_nil name policy a o = refl

module _ (name : String) (p : RestartPolicy) (a : ℕ) (r : Run) (rs : List Run) (exit : Exit)
    (o : World) (e : r.exit ≡ some exit) (s : r.shutdown_seen ≡ false) where
  loop_exhausted :
      p.max_restarts < next_attempt p a r
      → supervise_loop name (some p) a (r ∷ rs) o
        ≡ (terminal, fail name true (report_exit name exit true (set_state name running o)))
  loop_exhausted h =
      let body =
        round_ended name (some p) a r o exit e s
        ∙ after_exit_exhausted name p a r exit (set_state name running o) h in
      supervise_loop_stops name (some p) a r rs o terminal (ap (λ x. x.0) body)
      ∙ ap (λ x. (terminal, x.1)) body

  loop_retried :
      next_attempt p a r ≤ p.max_restarts
      → r.woken ≡ false
      → supervise_loop name (some p) a (r ∷ rs) o
        ≡ supervise_loop name
            (some p)
            (next_attempt p a r)
            rs
            (back_off name p (next_attempt p a r) r exit (set_state name running o))
  unfolding attempt_after next_attempt supervise_loop
  loop_retried h w =
      let woken_not =
        ap
          (λ b. (
            if b then some in_backoff else none,
            back_off name p (next_attempt p a r) r exit (set_state name running o),
          ))
          w in
      let body =
        round_ended name (some p) a r o exit e s
        ∙ after_exit_retried name p a r exit (set_state name running o) h
        ∙ woken_not in
      supervise_loop_again name (some p) a r rs o (ap (λ x. x.0) body)
      ∙ ap (λ x. supervise_loop name (some p) (next_attempt p a r) rs x.1) body

-- With a policy whose bound is below the largest u32 and every run a rapid failure, the loop
-- entered with no more failures than the bound ends for good exactly when the failures counted and
-- the runs together exceed the bound on restarts, and is otherwise still running the worker.
pub loop_bound :
    (name : String) (p : RestartPolicy) (a : ℕ) (rs : List Run) (o : World)
    → p.max_restarts < u32_max
    → a ≤ p.max_restarts
    → All (IsRapid p) rs
    → (supervise_loop name (some p) a rs o).0
      ≡ (if ltb p.max_restarts (a + length rs) then terminal else still_running)
loop_bound name p a [] o m h q =
    rw (loop_nil name (some p) a o, le→ltb (a + 0) p.max_restarts (omega arith))
loop_bound name p a (r ∷ rs) o m h (((exit, e), s, l, w), q) =
    let n = next_attempt_rapid p a r l (omega arith) in
    elim (Bool-cases (ltb p.max_restarts (suc a))) [
      | inl t ↦ rw (
        loop_exhausted name p a r rs exit o e s (omega (arith, n, ltb→lt p.max_restarts (suc a) t)),
        lt→ltb p.max_restarts (a + suc (length rs))
            (omega (arith, ltb→lt p.max_restarts (suc a) t)),
      )
      | inr t ↦
          let k : suc a ≤ p.max_restarts = ground arith in
          let f = loop_retried name p a r rs exit o e s (rw n k) w in
          let z : a + suc (length rs) ≡ suc a + length rs = omega arith in
          let left : World = back_off name p (suc a) r exit (set_state name running o) in
          rw (f, n, z) (loop_bound name p (suc a) rs left m k q)
    ]

-- The reports that end with the announcement that a worker is given up after an exit.
abbrev pub Announces : String → Exit → List Report → List Report → Type 0
Announces name completed before reports = reports ≡ before ++ worker_failure name none true ∷ []
Announces name (failed_with e) before reports =
    reports ≡ before ++ worker_failure name (some e) true ∷ []
Announces name (panicked p) before reports =
    reports ≡ before ++ panic_report name p ∷ worker_failure name none true ∷ []

-- What is left of a worker whose policy is exhausted by one of its runs.
abbrev pub GivenUp : String → List Run → Stop → World → Type 0
GivenUp name rs terminal o =
    (o.shutdown ≡ true)
    × (o.healthy ≡ false)
    × (o.states name ≡ some failed)
    × ((before : List Report) × (exit : Exit) × Any (λ r. r.exit ≡ some exit) rs
        × Announces name exit before o.reports)
GivenUp name rs _ o = Unit

GivenUp-more :
    (name : String) (r : Run) (rs : List Run) (s : Stop) (o : World)
    → GivenUp name rs s o
    → GivenUp name (r ∷ rs) s o
GivenUp-more name r rs terminal o (h, k, st, (before, exit, x, y)) =
    (h, k, st, (before, exit, inr x, y))
GivenUp-more name r rs cancelled o h = tt
GivenUp-more name r rs in_shutdown o h = tt
GivenUp-more name r rs in_backoff o h = tt
GivenUp-more name r rs not_enabled o h = tt
GivenUp-more name r rs still_running o h = tt

abbrev RoundGivenUp : String → List Run → Option Stop → World → Type 0
RoundGivenUp name rs none o = Unit
RoundGivenUp name rs (some s) o = GivenUp name rs s o

exhausted-Announces :
    (name : String) (exit : Exit) (o : World)
    → Announces name exit o.reports (fail name true (report_exit name exit true o)).reports
unfolding fail report_exit exit_reports report set_state
exhausted-Announces name completed o = refl
exhausted-Announces name (failed_with e) o = refl
exhausted-Announces name (panicked p) o = refl

fail-GivenUp :
    (name : String) (r : Run) (rs : List Run) (exit : Exit) (o : World)
    → r.exit ≡ some exit
    → GivenUp name (r ∷ rs) terminal (fail name true (report_exit name exit true o))
unfolding fail set_state
fail-GivenUp name r rs exit o e =
    (refl, refl, rw (beq_refl name), (o.reports, exit, inl e, exhausted-Announces name exit o))

after_exit-GivenUp :
    (name : String) (p : RestartPolicy) (a : ℕ) (r : Run) (rs : List Run) (exit : Exit) (o : World)
    → r.exit ≡ some exit
    → let out = after_exit name (some p) a r exit o in RoundGivenUp name (r ∷ rs) out.0 out.1
after_exit-GivenUp name p a r rs exit o e =
    elim (Bool-cases (ltb p.max_restarts (next_attempt p a r))) [
      | inl t ↦
          rw (after_exit_exhausted name p a r exit o (ltb→lt p.max_restarts (next_attempt p a r) t))
            (fail-GivenUp name r rs exit o e)
      | inr f ↦ elim (Bool-cases r.woken) [
        | inl w ↦ rw (after_exit_retried name p a r exit o (ground arith), w) tt
        | inr w ↦ rw (after_exit_retried name p a r exit o (ground arith), w) tt
      ]
    ]

round-GivenUp :
    (name : String) (p : RestartPolicy) (a : ℕ) (r : Run) (rs : List Run) (o : World)
    → let out = round name (some p) a r o in RoundGivenUp name (r ∷ rs) out.0 out.1
round-GivenUp name p a r rs o = elim (Option-cases r.exit) [
  | inl e ↦ rw (round_cancelled name (some p) a r o e) tt
  | inr (exit, e) ↦ elim (Bool-cases r.shutdown_seen) [
    | inl s ↦ rw (round_in_shutdown name (some p) a r o exit e s) tt
    | inr s ↦
        rw (round_ended name (some p) a r o exit e s)
          (after_exit-GivenUp name p a r rs exit (set_state name running o) e)
  ]
]

-- A worker with a policy that ends for good leaves a process that is unhealthy and has begun its
-- shutdown, and is shown as failed, and the last report is of the exit of one of its runs: of a
-- completion or an error the failure of that worker, marked as an exhaustion, and of a panic the
-- panic and then such a failure without an error.
pub supervise_loop-GivenUp :
    (name : String) (p : RestartPolicy) (a : ℕ) (rs : List Run) (o : World)
    → let out = supervise_loop name (some p) a rs o in GivenUp name rs out.0 out.1
supervise_loop-GivenUp name p a [] o = rw (loop_nil name (some p) a o) tt
supervise_loop-GivenUp name p a (r ∷ rs) o =
    let next = (round name (some p) a r o).1 in
    let rest = supervise_loop name (some p) (attempt_after (some p) a r) rs next in
    let shown = round-GivenUp name p a r rs o in
    elim (Option-cases (round name (some p) a r o).0) [
      | inl n ↦ rw (supervise_loop_again name (some p) a r rs o n) (
          GivenUp-more name r rs rest.0 rest.1
            (supervise_loop-GivenUp name p (attempt_after (some p) a r) rs next))
      | inr (s, n) ↦
          rw (supervise_loop_stops name (some p) a r rs o s n)
            (subst (λ s. RoundGivenUp name (r ∷ rs) s next) n shown)
    ]

module _ (name : String) (p : RestartPolicy) (a b : ℕ) (r : Run) (long : cap p ≤ r.elapsed) where
  next_attempt_same : next_attempt p a r ≡ next_attempt p b r
  next_attempt_same = next_attempt_long p a r long ∙ sym (next_attempt_long p b r long)

  after_exit_same :
      (exit : Exit) (o : World)
      → after_exit name (some p) a r exit o ≡ after_exit name (some p) b r exit o
  unfolding after_exit
  after_exit_same exit o =
      ap
        (λ n.
          if ltb p.max_restarts n
          then (some terminal, fail name true (report_exit name exit true o))
          else (if r.woken then some in_backoff else none, back_off name p n r exit o))
        next_attempt_same

  round_same : (o : World) → round name (some p) a r o ≡ round name (some p) b r o
  round_same o = elim (Option-cases r.exit) [
    | inl e ↦ round_cancelled name (some p) a r o e ∙ sym (round_cancelled name (some p) b r o e)
    | inr (exit, e) ↦ elim (Bool-cases r.shutdown_seen) [
      | inl s ↦
          round_in_shutdown name (some p) a r o exit e s
          ∙ sym (round_in_shutdown name (some p) b r o exit e s)
      | inr s ↦
          rw (round_ended name (some p) a r o exit e s, round_ended name (some p) b r o exit e s)
            (after_exit_same exit (set_state name running o))
    ]
  ]

  -- A run that lasted at least the policy's cap wipes out the count of failures before it: all that
  -- follows is the same whatever the count was.
  pub long_run_resets :
      (rs : List Run) (o : World)
      → supervise_loop name (some p) a (r ∷ rs) o ≡ supervise_loop name (some p) b (r ∷ rs) o
  unfolding supervise_loop attempt_after
  long_run_resets rs o =
      ap {A = ℕ × (Option Stop × World)}
        (λ q.
          let rest = supervise_loop name (some p) q.0 rs q.1.1 in
          elim q.1.0 [ some s ↦ (s, q.1.1) | none ↦ rest ])
        (λ i. (next_attempt_same i, round_same o i))
