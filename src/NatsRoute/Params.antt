-- ===== src/NatsRoute/Params.antt =====
-- nats_route.rs: the parameters that `extract_params` reads from a subject.
use flatbed.Base.{
  Text, split, dot, ℕ, ◌≡◌, refl, subst, ◌∙◌, Option, none, List, [], ◌∷◌, ◌>>=◌, number_keys,
  list_keys, beq_ne, beq_cases, Option-cases, inl, inr, get_elem?,
}
use flatbed.Base.Keyed.{Absent, Distinct, find}
use flatbed.NatsRoute.{collect_params, extract_params}

abbrev name_of : Text × ℕ → Text
name_of p = p.0

collect_params-Absent :
    (tokens : List Text) (params : List (Text × ℕ)) (m : Text → Option Text) (name : Text)
    → Absent name_of name params
    → collect_params tokens params m name ≡ m name
unfolding collect_params
collect_params-Absent tokens [] m name a = refl
collect_params-Absent tokens ((n, i) ∷ params) m name (ne, a) =
    elim (Option-cases (get_elem? tokens i)) [
      | inl e ↦ rw e (collect_params-Absent tokens params m name a)
      | inr (t, e) ↦
          rw e (collect_params-Absent tokens params _ name a ∙ (rw (beq_ne n name ne) refl))
    ]

collect_params-find :
    (tokens : List Text) (params : List (Text × ℕ)) (m : Text → Option Text) (name : Text)
    → Distinct name_of params
    → m name ≡ none
    → collect_params tokens params m name ≡ (find name_of name params >>= λ p. get_elem? tokens p.1)
unfolding collect_params find
collect_params-find tokens [] m name d z = z
collect_params-find tokens ((n, i) ∷ params) m name (a, d) z = elim (beq_cases n name) [
  | inl (t, p) ↦
      let absent = subst (λ k. Absent name_of k params) p a in
      elim (Option-cases (get_elem? tokens i)) [
        | inl e ↦ rw (t, e) (collect_params-Absent tokens params m name absent ∙ z)
        | inr (token, e) ↦ rw (t, e) (collect_params-Absent tokens params _ name absent ∙ rw t refl)
      ]
  | inr (t, p) ↦ elim (Option-cases (get_elem? tokens i)) [
    | inl e ↦ rw (t, e) (collect_params-find tokens params m name d z)
    | inr (token, e) ↦ rw (t, e) (collect_params-find tokens params _ name d (rw t z))
  ]
]

-- Where the parameter names of a route are distinct, a parameter that is read from a subject is the
-- token of the subject at the index declared for its name; a name that was not declared, or an
-- index beyond the last token, gives nothing.
pub extract_params-find :
    (params : List (Text × ℕ)) (subject name : Text)
    → Distinct (λ (p : Text × ℕ). p.0) params
    → extract_params params subject name
      ≡ (find (λ (p : Text × ℕ). p.0) name params >>= λ p. get_elem? (split dot subject) p.1)
unfolding extract_params find
extract_params-find [] subject name d = refl
extract_params-find (p ∷ params) subject name d =
    collect_params-find (split dot subject) (p ∷ params) (λ n. none) name d refl
