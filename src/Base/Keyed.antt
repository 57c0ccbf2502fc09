-- ===== src/Base/Keyed.antt =====
-- Lists of records searched by a key, as `iter().position(|x| x.key == key)` does.
use Prim.Native.Nat.{ℕ, zero, suc, ◌≤◌, ◌<◌}
use mathlib.Core.Path.{◌≡◌, refl, sym, ap, subst, ◌∙◌}
use mathlib.Core.Logic.{◌≢◌, inl, inr}
use mathlib.Core.Option
use mathlib.Core.Option.{Option, none, some}
use mathlib.Core.List.{List, [], ◌∷◌, ◌++◌}
use native.Mathlib.Omega.{arith}
use flatbed.Base.Tests.{HasEq, ◌==◌, if◌then◌else◌, beq_refl, beq_ne, beq_cases, Option-cases}
use flatbed.Base.Lists.{length, get_elem?, remove, modify, All, All-append, All-remove, All-modify}

module _ {ℓ κ} {A : Type ℓ} {K : Type κ} ⦃e : HasEq K⦄ (key : A → K) where
  unfoldable pub position : K → List A → Option ℕ
  position k [] = none
  position k (x ∷ xs) = if key x == k then some 0 else Option.map suc (position k xs)

  abbrev pub Absent : K → List A → Type κ
  Absent k xs = All (λ x. key x ≢ k) xs

  -- No two elements have the same key.
  abbrev pub Distinct : List A → Type κ
  Distinct [] = Unit
  Distinct (x ∷ xs) = Absent (key x) xs × Distinct xs

  pub Absent-position : (k : K) (xs : List A) → Absent k xs → position k xs ≡ none
  unfolding position
  Absent-position k [] h = refl
  Absent-position k (x ∷ xs) (ne, h) = rw (beq_ne (key x) k ne, Absent-position k xs h)

  -- What a search returns.
  abbrev pub Found : K → List A → Option ℕ → Type (ℓ ⊔ κ)
  Found k xs none = Unit
  Found k xs (some i) = (x : A) × (get_elem? xs i ≡ some x) × (key x ≡ k)

  Found-suc :
      (k : K) (x : A) (xs : List A) (o : Option ℕ)
      → Found k xs o
      → Found k (x ∷ xs) (Option.map suc o)
  Found-suc k x xs none f = tt
  Found-suc k x xs (some i) f = f

  pub position-Found : (k : K) (xs : List A) → Found k xs (position k xs)
  unfolding position
  position-Found k [] = tt
  position-Found k (x ∷ xs) = elim (beq_cases (key x) k) [
    | inl (t, p) ↦ rw t (x, refl, p)
    | inr (f, p) ↦ rw f (Found-suc k x xs (position k xs) (position-Found k xs))
  ]

  pub position-Absent : (k : K) (xs : List A) → position k xs ≡ none → Absent k xs
  unfolding position
  position-Absent k [] h = tt
  position-Absent k (x ∷ xs) h = elim (beq_cases (key x) k) [
    | inl (t, p) ↦ cc (rw t at h)
    | inr (f, p) ↦ (p, position-Absent k xs (ground arith))
  ]

  pub position-lt : (k : K) (xs : List A) (i : ℕ) → position k xs ≡ some i → i < length xs
  unfolding position
  position-lt k [] i h = cc
  position-lt k (x ∷ xs) i h = elim (Option-cases (position k xs)) [
    | inl n ↦ ground arith
    | inr (j, s) ↦ ground (arith, position-lt k xs j s)
  ]

  pub length-remove : (xs : List A) (i : ℕ) → i < length xs → suc (length (remove xs i)) ≡ length xs
  length-remove [] i h = absurd (omega arith)
  length-remove (x ∷ xs) zero h = refl
  length-remove (x ∷ xs) (suc i) h = ap suc (length-remove xs i (omega arith))

  pub length-remove-le : (xs : List A) (i : ℕ) → length (remove xs i) ≤ length xs
  length-remove-le [] i = omega arith
  length-remove-le (x ∷ xs) zero = omega arith
  length-remove-le (x ∷ xs) (suc i) = omega (arith, length-remove-le xs i)

  pub Distinct-remove : (xs : List A) (i : ℕ) → Distinct xs → Distinct (remove xs i)
  Distinct-remove [] i d = tt
  Distinct-remove (x ∷ xs) zero (a, d) = d
  Distinct-remove (x ∷ xs) (suc i) (a, d) =
      (All-remove (λ y. key y ≢ key x) xs i a, Distinct-remove xs i d)

  -- The element that a search found was the only one of its key.
  pub Absent-remove-position :
      (k : K) (xs : List A) (i : ℕ) → Distinct xs → position k xs ≡ some i → Absent k (remove xs i)
  unfolding position
  Absent-remove-position k [] i d h = cc
  Absent-remove-position k (x ∷ xs) i (a, d) h = elim (beq_cases (key x) k) [
    | inl (t, p) ↦ let z : i ≡ 0 = ground arith in rw z (subst (λ j. Absent j xs) p a)
    | inr (f, p) ↦ elim (Option-cases (position k xs)) [
      | inl n ↦ absurd (ground arith)
      | inr (j, s) ↦ let z : i ≡ suc j = ground arith in rw z (p, Absent-remove-position k xs j d s)
    ]
  ]

  pub Distinct-append :
      (xs : List A) (x : A) → Distinct xs → Absent (key x) xs → Distinct (xs ++ x ∷ [])
  Distinct-append [] x d a = (tt, tt)
  Distinct-append (y ∷ xs) x (b, d) (ne, a) = (
    All-append (λ z. key z ≢ key y) xs (x ∷ []) b ((λ p. ne (sym p)), tt),
    Distinct-append xs x d a,
  )

  pub Absent-append :
      (k : K) (xs : List A) (x : A) → Absent k xs → key x ≢ k → Absent k (xs ++ x ∷ [])
  Absent-append k xs x h ne = All-append (λ z. key z ≢ k) xs (x ∷ []) h (ne, tt)

  module _ (f : A → A) (same : (x : A) → key (f x) ≡ key x) where
    pub Absent-modify : (k : K) (xs : List A) (i : ℕ) → Absent k xs → Absent k (modify f xs i)
    Absent-modify k xs i = All-modify (λ z. key z ≢ k) f xs i (λ z ne p. ne (sym (same z) ∙ p))

    pub Distinct-modify : (xs : List A) (i : ℕ) → Distinct xs → Distinct (modify f xs i)
    Distinct-modify [] i d = tt
    Distinct-modify (x ∷ xs) zero (a, d) = (rw (same x) a, d)
    Distinct-modify (x ∷ xs) (suc i) (a, d) = (Absent-modify (key x) xs i a, Distinct-modify xs i d)

    pub position-modify : (k : K) (xs : List A) (i : ℕ) → position k (modify f xs i) ≡ position k xs
    unfolding position
    position-modify k [] i = refl
    position-modify k (x ∷ xs) zero = rw (same x)
    position-modify k (x ∷ xs) (suc i) = rw (position-modify k xs i)

  pub position-append :
      (k : K) (xs : List A) (x : A) (i : ℕ)
      → position k xs ≡ some i
      → position k (xs ++ x ∷ []) ≡ some i
  unfolding position
  position-append k [] x i h = cc
  position-append k (y ∷ xs) x i h = elim (Option-cases (position k xs)) [
    | inl n ↦ ground arith
    | inr (j, s) ↦ ground (arith, position-append k xs x j s)
  ]

  -- A new element of another key does not show up in a search.
  pub position-append_ne :
      (k : K) (xs : List A) (x : A) → key x ≢ k → position k (xs ++ x ∷ []) ≡ position k xs
  unfolding position
  position-append_ne k [] x ne = rw (beq_ne (key x) k ne)
  position-append_ne k (y ∷ xs) x ne = rw (position-append_ne k xs x ne)

  -- A new element of the key is found at the end, if the key was absent.
  pub position-append_self :
      (xs : List A) (x : A) → Absent (key x) xs → position (key x) (xs ++ x ∷ []) ≡ some (length xs)
  unfolding position
  position-append_self [] x a = rw (beq_refl (key x))
  position-append_self (y ∷ xs) x (ne, a) =
      rw (beq_ne (key y) (key x) ne, position-append_self xs x a)

  -- The first element of a key.
  unfoldable pub find : K → List A → Option A
  find k [] = none
  find k (x ∷ xs) = if key x == k then some x else find k xs

  pub find-position-some :
      (k : K) (xs : List A) (i : ℕ) → position k xs ≡ some i → get_elem? xs i ≡ find k xs
  unfolding position find
  find-position-some k [] i e = cc
  find-position-some k (x ∷ xs) i e = elim (beq_cases (key x) k) [
    | inl (t, p) ↦ let z : i ≡ 0 = ground arith in rw (z, t)
    | inr (f, p) ↦ elim (Option-cases (position k xs)) [
      | inl n ↦ absurd (ground arith)
      | inr (j, s) ↦ let z : i ≡ suc j = ground arith in rw (z, f) (find-position-some k xs j s)
    ]
  ]

  pub find-position-none : (k : K) (xs : List A) → position k xs ≡ none → find k xs ≡ none
  unfolding position find
  find-position-none k [] e = refl
  find-position-none k (x ∷ xs) e = elim (beq_cases (key x) k) [
    | inl (t, p) ↦ absurd (ground arith)
    | inr (f, p) ↦ rw f (find-position-none k xs (ground arith))
  ]

  pub find-Absent : (k : K) (xs : List A) → Absent k xs → find k xs ≡ none
  find-Absent k xs h = find-position-none k xs (Absent-position k xs h)

  pub find-remove_ne :
      (j k : K) (xs : List A) (i : ℕ)
      → position j xs ≡ some i
      → j ≢ k
      → find k (remove xs i) ≡ find k xs
  unfolding position find
  find-remove_ne j k [] i e ne = refl
  find-remove_ne j k (x ∷ xs) i e ne = elim (beq_cases (key x) j) [
    | inl (t, p) ↦ let z : i ≡ 0 = ground arith in rw (z, beq_ne (key x) k (λ q. ne (sym p ∙ q)))
    | inr (f, p) ↦ elim (Option-cases (position j xs)) [
      | inl n ↦ absurd (ground arith)
      | inr (m, s) ↦ let z : i ≡ suc m = ground arith in rw (z, find-remove_ne j k xs m s ne)
    ]
  ]

  pub find-append :
      (k : K) (xs : List A) (x : A)
      → Absent k xs
      → find k (xs ++ x ∷ []) ≡ (if key x == k then some x else none)
  unfolding find
  find-append k [] x a = refl
  find-append k (y ∷ xs) x (ne, a) = rw (beq_ne (key y) k ne) (find-append k xs x a)
