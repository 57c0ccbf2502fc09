-- ===== src/Readiness/Counter.antt =====
-- readiness.rs: the counter against the gates, after any interleaving of the calls.
use flatbed.Base.{
  ℕ, zero, suc, ◌+◌, ◌%◌, ◌≤◌, ◌<◌, ◌≡◌, ◌↔◌, refl, sym, ap, ◌∙◌, subst, arith, String, Bool, true,
  false, not, some, List, [], ◌∷◌, ◌++◌, if◌then◌else◌, get_elem?, modify, remove, length, leb→le,
  Option-cases, Bool-cases, inl, inr,
}
use flatbed.Readiness.{
  GateState, Pending, pushing, subtracting, adding, Readiness, new_readiness, usize_count, gate,
  same_bool, set_ready, perform, finish_call, is_ready, blocked_on, Move, calls_gate,
  calls_set_ready, finishes, step, run,
}

total {ℓ} : {A : Type ℓ} → (A → ℕ) → List A → ℕ
total f [] = 0
total f (x ∷ xs) = f x + total f xs

total-append {ℓ} :
    {A : Type ℓ} (f : A → ℕ) (xs : List A) (x : A) → total f (xs ++ x ∷ []) ≡ total f xs + f x
unfolding total
total-append f [] x = omega arith
total-append f (y ∷ xs) x = omega (arith, total-append f xs x)

total-remove {ℓ} :
    {A : Type ℓ} (f : A → ℕ) (xs : List A) (i : ℕ) (x : A)
    → get_elem? xs i ≡ some x
    → total f xs ≡ f x + total f (remove xs i)
unfolding total
total-remove f [] i x e = cc
total-remove f (y ∷ xs) zero x e = let same : y ≡ x = cc e in ap (λ z. f z + total f xs) same
total-remove f (y ∷ xs) (suc i) x e = omega (arith, total-remove f xs i x e)

total-modify {ℓ} :
    {A : Type ℓ} (f : A → ℕ) (h : A → A) (xs : List A) (i : ℕ) (x : A)
    → get_elem? xs i ≡ some x
    → total f (modify h xs i) + f x ≡ total f xs + f (h x)
unfolding total
total-modify f h [] i x e = cc
total-modify f h (y ∷ xs) zero x e = let same : y ≡ x = cc e in rw same (omega arith)
total-modify f h (y ∷ xs) (suc i) x e = omega (arith, total-modify f h xs i x e)

abbrev unready : GateState → ℕ
unready g = if g.ready then 0 else 1

abbrev owes_sub : Pending → ℕ
owes_sub (pushing name) = 1
owes_sub subtracting = 1
owes_sub adding = 0

abbrev owes_add : Pending → ℕ
owes_add (pushing name) = 0
owes_add subtracting = 0
owes_add adding = 1

-- Up to the additions still to be made, the counter is the number of gates that are not ready, of those
-- still to be pushed, and of the subtractions still to be made.
pub IsCounted : Readiness → Type 0
unfolding total
IsCounted s =
    (s.blocking < usize_count)
    × ((s.blocking + total owes_add s.pending) % usize_count
        ≡ (total unready s.gates + total owes_sub s.pending) % usize_count)

gate-IsCounted : (name : String) (s : Readiness) → IsCounted s → IsCounted (gate name s)
unfolding IsCounted gate
gate-IsCounted name s (b, e) = (
  omega arith,
  rw
      (
        total-append owes_add s.pending (pushing name),
        total-append owes_sub s.pending (pushing name),
      )
      (omega (arith, b, e)),
)

perform-IsCounted :
    (j : ℕ) (p : Pending) (s : Readiness)
    → get_elem? s.pending j ≡ some p
    → IsCounted s
    → IsCounted (perform p (record s { pending = remove s.pending j }))
unfolding IsCounted perform
perform-IsCounted j (pushing name) s e (b, c) =
    let a = total-remove owes_add s.pending j (pushing name) e in
    let d = total-remove owes_sub s.pending j (pushing name) e in
    (
      b,
      rw (total-append unready s.gates (record { name = name; ready = false }))
          (omega (arith, a, d, c)),
    )
perform-IsCounted j subtracting s e (b, c) =
    let a = total-remove owes_add s.pending j subtracting e in
    let d = total-remove owes_sub s.pending j subtracting e in
    (omega arith, omega (arith, a, d, b, c))
perform-IsCounted j adding s e (b, c) =
    let a = total-remove owes_add s.pending j adding e in
    let d = total-remove owes_sub s.pending j adding e in (omega arith, omega (arith, a, d, b, c))

same_bool→eq : (a b : Bool) → same_bool a b ≡ false → a ≡ not b
same_bool→eq true true e = cc
same_bool→eq true false e = refl
same_bool→eq false true e = refl
same_bool→eq false false e = cc

set_ready-IsCounted :
    (i : ℕ) (ready : Bool) (s : Readiness) → IsCounted s → IsCounted (set_ready i ready s)
unfolding IsCounted set_ready
set_ready-IsCounted i ready s (b, c) = elim (Option-cases (get_elem? s.gates i)) [
  | inl n ↦ simp (n, set_ready) (b, c)
  | inr (g, q) ↦ elim (Bool-cases (same_bool g.ready ready)) [
    | inl t ↦ simp (q, t, set_ready) (b, c)
    | inr t ↦ simp (q, t, set_ready) (b, swapped ready g (same_bool→eq g.ready ready t) q)
  ]
]
  where
    swapped :
        (ready : Bool) (g : GateState)
        → g.ready ≡ not ready
        → get_elem? s.gates i ≡ some g
        → (s.blocking + total owes_add (s.pending ++ (if ready then subtracting else adding) ∷ []))
            % usize_count
          ≡ (total unready (modify (λ old. record old { ready = ready }) s.gates i)
              + total owes_sub (s.pending ++ (if ready then subtracting else adding) ∷ []))
            % usize_count
    swapped true g r q =
        let h = total-modify unready (λ old. record old { ready = true }) s.gates i g q in
        let was : unready g ≡ 1 = rw r refl in
        rw
          (total-append owes_add s.pending subtracting, total-append owes_sub s.pending subtracting)
          (omega (arith, h, was, c))
    swapped false g r q =
        let h = total-modify unready (λ old. record old { ready = false }) s.gates i g q in
        let was : unready g ≡ 0 = rw r refl in
        rw (total-append owes_add s.pending adding, total-append owes_sub s.pending adding)
          (omega (arith, h, was, c))

step-IsCounted : (m : Move) (s : Readiness) → IsCounted s → IsCounted (step m s)
unfolding step finish_call
step-IsCounted (calls_gate name) s c = gate-IsCounted name s c
step-IsCounted (calls_set_ready i ready) s c = set_ready-IsCounted i ready s c
step-IsCounted (finishes j) s c = elim (Option-cases (get_elem? s.pending j)) [
  | inl n ↦ simp (n, finish_call) c
  | inr (p, q) ↦ simp (q, finish_call) (perform-IsCounted j p s q c)
]

run_from : (ms : List Move) (s : Readiness) → IsCounted s → IsCounted (run ms s)
unfolding run
run_from [] s c = c
run_from (m ∷ ms) s c = run_from ms (step m s) (step-IsCounted m s c)

-- After any interleaving, modulo 2^64, the counter with the additions still to be made is the
-- number of gates that are not ready, of the gates still to be pushed and of the subtractions still
-- to be made; the counter is below 2^64.
pub run-IsCounted : (ms : List Move) → IsCounted (run ms new_readiness)
unfolding IsCounted new_readiness total
run-IsCounted ms = run_from ms new_readiness (omega arith, refl)

unready-le : (gs : List GateState) → total unready gs ≤ length gs
unfolding total
unready-le [] = omega arith
unready-le (g ∷ gs) = elim (Bool-cases g.ready) [
  | inl t ↦ rw t (omega (arith, unready-le gs))
  | inr t ↦ rw t (omega (arith, unready-le gs))
]

unready_iff : (gs : List GateState) → (total unready gs ≡ 0) ↔ (blocked_on gs ≡ [])
unfolding total blocked_on
unready_iff [] = ((λ e. refl), (λ e. refl))
unready_iff (g ∷ gs) = elim (Bool-cases g.ready) [
  | inl t ↦
      let (to, from) = unready_iff gs in
      rw t ((λ e. to (omega (arith, e))), (λ e. omega (arith, from e)))
  | inr t ↦ rw t ((λ e. absurd (omega (arith, e))), (λ e. cc))
]

le-zero : (n : ℕ) → n ≤ 0 → n ≡ 0
le-zero n h = omega arith

settled :
    (s : Readiness)
    → IsCounted s
    → s.pending ≡ []
    → length s.gates < usize_count
    → s.blocking ≡ total unready s.gates
unfolding IsCounted total
settled s (b, c) quiet few =
    let none_left =
      subst
        (λ p.
          (s.blocking + total owes_add p) % usize_count
          ≡ (total unready s.gates + total owes_sub p) % usize_count)
        quiet c in
    omega (arith, none_left, unready-le s.gates, b, few)

-- After any interleaving of registrations and reports in which every call has ended, with fewer
-- than 2^64 gates, the registry is ready exactly when no gate is listed as blocking.
pub run-is_ready :
    (ms : List Move)
    → (run ms new_readiness).pending ≡ []
    → length (run ms new_readiness).gates < usize_count
    → (is_ready (run ms new_readiness) ≡ true) ↔ (blocked_on (run ms new_readiness).gates ≡ [])
unfolding is_ready
run-is_ready ms quiet few =
    let s = run ms new_readiness in
    let same = settled s (run-IsCounted ms) quiet few in
    let (to, from) = unready_iff s.gates in
    (
      (λ r. to (sym same ∙ le-zero s.blocking (leb→le s.blocking 0 r))),
      (λ e. rw (same ∙ from e) refl),
    )
