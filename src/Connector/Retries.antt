-- ===== src/Connector/Retries.antt =====
-- nats_connect.rs: the retries end.
use flatbed.Base.{
  ℕ, ◌+◌, ◌-◌, ◌*◌, ◌/◌, ◌^◌, ◌≤◌, ◌≡◌, min, sym, subst, true, Option, none, List, [], ◌∷◌, length,
  Text, Result-cases, leb, Bool-cases, Option-cases, arith, inl, inr,
}
use native.Mathlib.Nat.{one-le-pow, le-mul_of_pos_right}
use flatbed.Supervisor.{duration_max}
use flatbed.Connector.{
  Connector, Attempt, Connected, client, credentials_unreadable, credentials_invalid, unreachable,
  connecting, backoff, max_backoff_shift, next_attempts, limit, source_of, failed_dial,
  connect_loop, connect_with_retry,
}

-- Half of the smaller bound is always waited for.
half-le-backoff :
    (lo hi attempt entropy : ℕ)
    → lo ≤ hi
    → lo ≤ duration_max
    → lo / 2 ≤ backoff lo hi attempt entropy
unfolding backoff
half-le-backoff lo hi attempt entropy h k =
    let step : ℕ = min (attempt - 1) max_backoff_shift in
    let a = le-mul_of_pos_right {m = 2 ^ step} lo (one-le-pow step 2 (omega arith)) in
    omega (arith, a, h, k)

-- The connect has an end: a client or an error.
abbrev pub IsEnded : Connected → Type 0
IsEnded (client n) = Unit
IsEnded (credentials_unreadable e) = Unit
IsEnded (credentials_invalid e) = Unit
IsEnded (unreachable n t e) = Unit
IsEnded connecting = ⊥

connect_loop-IsEnded :
    (c : Connector) (elapsed attempts : ℕ) (last : Option Text) (dials : List Attempt)
    → c.min_backoff ≤ c.max_backoff
    → c.min_backoff ≤ duration_max
    → c.deadline ≤ elapsed + length dials * (c.min_backoff / 2)
    → IsEnded (connect_loop c elapsed attempts last dials)
unfolding connect_loop
connect_loop-IsEnded c elapsed attempts last [] h k b =
    let over : leb c.deadline elapsed ≡ true = ground arith in simp (connect_loop, over) tt
connect_loop-IsEnded c elapsed attempts last (a ∷ dials) h k b =
    let dialled = elapsed + min a.took (limit c elapsed) in
    let count = next_attempts attempts in
    let wait = backoff c.min_backoff c.max_backoff count a.entropy in
    let waited = half-le-backoff c.min_backoff c.max_backoff count a.entropy h k in
    let source = source_of (failed_dial c elapsed a) last in
    let rest =
      connect_loop-IsEnded c (dialled + wait + a.late) count source dials h k
        (omega (arith, b, waited)) in
    elim (Bool-cases (leb c.deadline elapsed)) [
      | inl t ↦ simp (connect_loop, t) tt
      | inr t ↦ elim (Result-cases c.options) [
        | inr (e, o) ↦ simp (connect_loop, t, o) tt
        | inl (u, o) ↦ elim (Option-cases (failed_dial c elapsed a)) [
          | inl f ↦ simp (connect_loop, t, o, f) tt
          | inr (e, f) ↦ elim (Bool-cases (leb c.deadline (dialled + wait))) [
            | inl g ↦ simp (connect_loop, t, o, f, g) tt
            | inr g ↦
                let same : connect_loop c elapsed attempts last (a ∷ dials)
                    ≡ connect_loop c (dialled + wait + a.late) count source dials =
                  simp (connect_loop, t, o, f, g) in
                subst IsEnded (sym same) rest
          ]
        ]
      ]
    ]

-- Where the smaller bound of the backoff is a duration that Rust can hold and at most the larger
-- one, connecting has ended with a client or an error after as many dials as halves of the smaller
-- bound make up the deadline, whatever the dials answer, however long they take and whatever delays
-- are drawn.
pub connect_with_retry-IsEnded :
    (c : Connector) (dials : List Attempt)
    → c.min_backoff ≤ c.max_backoff
    → c.min_backoff ≤ duration_max
    → c.deadline ≤ length dials * (c.min_backoff / 2)
    → IsEnded (connect_with_retry c dials)
unfolding connect_with_retry
connect_with_retry-IsEnded c dials h k b = elim (Result-cases c.read_credentials) [
  | inr (e, r) ↦ rw r tt
  | inl (u, r) ↦ rw r (connect_loop-IsEnded c 0 0 none dials h k (omega (arith, b)))
]
