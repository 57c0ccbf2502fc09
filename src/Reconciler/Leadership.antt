-- ===== src/Reconciler/Leadership.antt =====
-- k8s.rs: waiting for leadership.
use flatbed.Base.{
  ◌≤◌, ◌<◌, ◌≡◌, ◌⊎◌, refl, sym, ap, subst, ◌∙◌, Bool, true, false, not, none, List, [], ◌∷◌,
  length, ok, All, if◌then◌else◌, arith, inl, inr,
}
use flatbed.Reconciler.{
  Watch, wait_until, wait_for_leadership_loss, Round, Ending, returned, running,
  run_kube_reconciler,
}

-- The value that the channel is left with.
abbrev pub final : Bool → List Bool → Bool
final now [] = now
final now (v ∷ vs) = final v vs

abbrev pub final_of : Watch → Bool
final_of w = final w.now w.later

-- Rounds that end by the loss of leadership, with the stream there.
abbrev pub Lost : Round → Type 0
Lost r = (r.stream ≡ ok tt) × (r.ended ≡ none)

-- What a wait tells of the channel it started with.
abbrev pub Waited : Bool → Bool → List Bool → Bool × Watch → Type 0
Waited wanted now later (came, w) =
    (final_of w ≡ final now later)
    × (length w.later ≤ length later)
    × (((came ≡ true) × (w.now ≡ wanted))
        ⊎ ((came ≡ false) × (w.now ≡ not wanted) × (w.later ≡ [])))

pub wait_until-Waited :
    (wanted now : Bool) (later : List Bool) → Waited wanted now later (wait_until wanted now later)
unfolding wait_until
wait_until-Waited true true [] = (refl, omega arith, inl (refl, refl))
wait_until-Waited true false [] = (refl, omega arith, inr (refl, refl, refl))
wait_until-Waited false true [] = (refl, omega arith, inr (refl, refl, refl))
wait_until-Waited false false [] = (refl, omega arith, inl (refl, refl))
wait_until-Waited true true (v ∷ vs) = (refl, omega arith, inl (refl, refl))
wait_until-Waited false false (v ∷ vs) = (refl, omega arith, inl (refl, refl))
wait_until-Waited true false (v ∷ vs) =
    let (f, l, o) = wait_until-Waited true v vs in (f, omega (arith, l), o)
wait_until-Waited false true (v ∷ vs) =
    let (f, l, o) = wait_until-Waited false v vs in (f, omega (arith, l), o)

-- Once the channel is closed with this pod leading, round follows round.
closed-running :
    (rs : List Round)
    → All Lost rs
    → run_kube_reconciler rs (record { now = true; later = [] }) ≡ running
unfolding run_kube_reconciler wait_until
closed-running [] h = refl
closed-running (r ∷ rs) ((s, e), h) =
    let closed : Watch = record { now = true; later = [] } in
    let same : run_kube_reconciler (r ∷ rs) closed ≡ run_kube_reconciler rs closed =
      simp (run_kube_reconciler, s, e) in
    same ∙ closed-running rs h

abbrev expected : Bool → Ending
expected leads = if leads then running else returned (ok tt)

-- What is left of the rounds after a leader's loss, if the rest of them is right for every channel.
after_loss :
    (rs : List Round)
    → All Lost rs
    → ((now : Bool) (later : List Bool)
        → length later < length rs
        → run_kube_reconciler rs (record { now = now; later = later }) ≡ expected (final now later))
    → (later : List Bool) → length later ≤ length rs
    → run_kube_reconciler rs (wait_for_leadership_loss (record { now = true; later = later }))
      ≡ expected (final true later)
unfolding wait_until
after_loss rs h ih [] k = closed-running rs h
after_loss rs h ih (v ∷ vs) k =
    let w = (wait_until false v vs).1 in
    let (f, l, o) = wait_until-Waited false v vs in
    ih w.now w.later (omega (arith, l, k)) ∙ ap expected f

-- Where the stream is there and every round of leadership ends with its loss, in more rounds than
-- the channel still has values, the loop has returned without an error if the value that the
-- channel closes with is that of a follower, and still runs if it is that of the leader.
pub run_kube_reconciler-final :
    (rs : List Round) (now : Bool) (later : List Bool)
    → All Lost rs
    → length later < length rs
    → run_kube_reconciler rs (record { now = now; later = later })
      ≡ (if final now later then running else returned (ok tt))
unfolding run_kube_reconciler
run_kube_reconciler-final [] now later h k = absurd (omega arith)
run_kube_reconciler-final (r ∷ rs) now later ((s, e), h) k =
    let w = (wait_until true now later).1 in
    let (f, l, o) = wait_until-Waited true now later in
    elim o [
      | inl (came, leads) ↦
          let same : run_kube_reconciler (r ∷ rs) (record { now = now; later = later })
              ≡ run_kube_reconciler rs (wait_for_leadership_loss w) =
            simp (run_kube_reconciler, came, s, e) in
          let next =
            after_loss rs h (λ n ls j. run_kube_reconciler-final rs n ls h j) w.later
              (omega (arith, l, k)) in
          same
          ∙ (subst
                (λ b.
                  run_kube_reconciler rs
                    (wait_for_leadership_loss (record { now = b; later = w.later }))
                  ≡ expected (final b w.later))
                (sym leads) next
              ∙ ap expected f)
      | inr (came, follows, closed) ↦
          let same : run_kube_reconciler (r ∷ rs) (record { now = now; later = later })
              ≡ returned (ok tt) =
            simp (run_kube_reconciler, came) in
          let last : final w.now w.later ≡ false = ap (λ ls. final w.now ls) closed ∙ follows in
          same ∙ ap expected (sym last ∙ f)
    ]
