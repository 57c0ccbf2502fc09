-- ===== src/Supervisor/Backoff.antt =====
-- supervisor.rs: `RestartPolicy::delay` and `jittered`.
use flatbed.Base.{
  ℕ, zero, suc, ◌+◌, ◌-◌, ◌*◌, ◌/◌, ◌^◌, ◌≤◌, ◌≡◌, refl, min, arith, inl, inr, Bool-cases, leb,
}
use native.Mathlib.Nat.{
  pow-suc, one-le-pow, pow-le-pow_right, mul-le-mul_left, le-mul_of_pos_right, mod-lt,
}
use flatbed.Supervisor.{
  RestartPolicy, cap, delay, jittered, duration_max, u64_max, nanos_per_milli, saturating_mul,
}

delay_lem :
    (p : RestartPolicy) (attempt : ℕ)
    → delay p attempt ≡ min (saturating_mul p.min_backoff (2 ^ min (attempt - 1) 31)) (cap p)
unfolding delay
delay_lem p attempt = refl

min-le-cap : (p : RestartPolicy) → p.min_backoff ≤ cap p
unfolding cap
min-le-cap p = ground arith

-- Where the smaller bound of the policy is a duration that Rust can hold, every delay lies between
-- it and the effective cap of the policy.
pub delay_bounds :
    (p : RestartPolicy) (attempt : ℕ)
    → p.min_backoff ≤ duration_max
    → (p.min_backoff ≤ delay p attempt) × (delay p attempt ≤ cap p)
delay_bounds p attempt h =
    let k : ℕ = min (attempt - 1) 31 in
    let a = le-mul_of_pos_right {m = 2 ^ k} p.min_backoff (one-le-pow k 2 (omega arith)) in
    (omega (arith, a, min-le-cap p, delay_lem p attempt), omega (arith, delay_lem p attempt))

-- From the first to the thirty-first attempt, where the cap is a duration that Rust can hold, a
-- further attempt doubles the delay up to the cap: the two saturations never show.
pub delay_doubles :
    (p : RestartPolicy) (attempt : ℕ)
    → cap p ≤ duration_max
    → 1 ≤ attempt
    → attempt ≤ 31
    → delay p (attempt + 1) ≡ min (2 * delay p attempt) (cap p)
delay_doubles p zero h l u = absurd (omega arith)
delay_doubles p (suc n) h l u =
    let next : min (suc n + 1 - 1) 31 ≡ suc n = omega arith in
    let this : min (suc n - 1) 31 ≡ n = omega arith in
    rw (delay_lem p (suc n + 1), delay_lem p (suc n), next, this, pow-suc 2 n) (omega arith)

pub delay_mono : (p : RestartPolicy) (a b : ℕ) → a ≤ b → delay p a ≤ delay p b
delay_mono p a b h =
    let q : min (a - 1) 31 ≤ min (b - 1) 31 = omega arith in
    let m = mul-le-mul_left p.min_backoff (pow-le-pow_right {n = 2} (omega arith) q) in
    omega (arith, m, delay_lem p a, delay_lem p b)

-- Where its milliseconds fit a u64, the jittered delay is at most the delay, and twice the jittered
-- delay falls short of the delay by two milliseconds at most.
pub jittered_bounds :
    (d offset : ℕ)
    → d / nanos_per_milli ≤ u64_max
    → (jittered d offset ≤ d) × (d ≤ 2 * jittered d offset + 2 * nanos_per_milli)
unfolding jittered
jittered_bounds d offset h =
    let half : ℕ = min (d / nanos_per_milli) u64_max / 2 in
    elim (Bool-cases (leb half 0)) [
      | inl t ↦ rw (t, jittered) (omega arith)
      | inr f ↦ rw (f, jittered) (omega (arith, mod-lt offset {m = suc half} (omega arith)))
    ]
