-- ===== src/Router/Matching.antt =====
-- router.rs: which routes a request can be given to, and which methods are allowed.
use flatbed.Base.{
  ◌≡◌, ◌⊎◌, sym, ap, ◌∙◌, true, false, Option, none, some, List, [], ◌∷◌, list_keys, number_keys,
  Bool-cases, Option-cases, beq_cases, inl, inr, Text, is_empty, to_uppercase, Any, went_on,
}
use flatbed.Router.{is_param, Params, match_route, segments}
use flatbed.Router.Table.{
  Route, literals, parametric, oldest_name, ending, next_table, narrow, lookup, router_of, table_of,
}
use flatbed.Router.Trie.{match_route-lookup}

-- A pattern takes a path: literal segments are the same, a parameter takes any.
abbrev pub SegmentMatches : Text → Text → Type 0
SegmentMatches p s = (is_param p ≡ true) ⊎ ((is_param p ≡ false) × (p ≡ s))

abbrev pub Matches : List Text → List Text → Type 0
Matches [] [] = Unit
Matches (p ∷ ps) (s ∷ ss) = SegmentMatches p s × Matches ps ss
Matches _ _ = ⊥

module _ {A : Type 0} where
  -- A route that may answer: its pattern takes the segments, its method and entry are these.
  abbrev pub Serves : List Text → Text → A → Route A → Type 0
  Serves ss m a (pattern, method, entry) =
      Matches pattern ss × (to_uppercase method ≡ m) × (entry ≡ a)

  ending-Any :
      (m : Text) (a : A) (rs : List (Route A)) → ending m rs ≡ some a → Any (Serves [] m a) rs
  unfolding ending
  ending-Any m a [] e = cc
  ending-Any m a (([], k, b) ∷ rs) e = elim (beq_cases (to_uppercase k) m) [
    | inl (t, p) ↦ inl (tt, p, cc (rw t at e))
    | inr (t, p) ↦ inr (ending-Any m a rs (rw t at e))
  ]
  ending-Any m a ((p ∷ ps, k, b) ∷ rs) e = inr (ending-Any m a rs e)

  literals-Any :
      (s : Text) (ss : List Text) (m : Text) (a : A) (rs : List (Route A))
      → Any (Serves ss m a) (literals s rs)
      → Any (Serves (s ∷ ss) m a) rs
  unfolding literals
  literals-Any s ss m a [] h = h
  literals-Any s ss m a (([], k, b) ∷ rs) h = inr (literals-Any s ss m a rs h)
  literals-Any s ss m a ((p ∷ ps, k, b) ∷ rs) h = elim (Bool-cases (is_param p)) [
    | inl t ↦ inr (literals-Any s ss m a rs (rw t at h))
    | inr t ↦ elim (beq_cases p s) [
      | inl (q, r) ↦
          let h' : Any (Serves ss m a) ((ps, k, b) ∷ literals s rs) = rw (t, q) at h in
          elim h' [
            | inl (x, y, z) ↦ inl ((inr (t, r), x), y, z)
            | inr x ↦ inr (literals-Any s ss m a rs x)
          ]
      | inr (q, r) ↦ inr (literals-Any s ss m a rs (rw (t, q) at h))
    ]
  ]

  parametric-Any :
      (s : Text) (ss : List Text) (m : Text) (a : A) (rs : List (Route A))
      → Any (Serves ss m a) (parametric rs)
      → Any (Serves (s ∷ ss) m a) rs
  unfolding parametric
  parametric-Any s ss m a [] h = h
  parametric-Any s ss m a (([], k, b) ∷ rs) h = inr (parametric-Any s ss m a rs h)
  parametric-Any s ss m a ((p ∷ ps, k, b) ∷ rs) h = elim (Bool-cases (is_param p)) [
    | inl t ↦
        let h' : Any (Serves ss m a) ((ps, k, b) ∷ parametric rs) = rw t at h in
        elim h' [
          | inl (x, y, z) ↦ inl ((inl t, x), y, z)
          | inr x ↦ inr (parametric-Any s ss m a rs x)
        ]
    | inr t ↦ inr (parametric-Any s ss m a rs (rw t at h))
  ]

  next_table-Any :
      (s : Text) (ss : List Text) (m : Text) (a : A) (rs rest : List (Route A)) (name : Option Text)
      → next_table s rs ≡ some (rest, name)
      → Any (Serves ss m a) rest
      → Any (Serves (s ∷ ss) m a) rs
  unfolding next_table
  next_table-Any s ss m a rs rest name e h = elim (Bool-cases (is_empty (literals s rs))) [
    | inl t ↦ elim (Option-cases (oldest_name rs)) [
      | inl o ↦ cc (rw (next_table, t, o) at e)
      | inr (n, o) ↦
          let same : parametric rs ≡ rest = cc (rw (next_table, t, o) at e) in
          parametric-Any s ss m a rs (rw same h)
    ]
    | inr t ↦
        let same : literals s rs ≡ rest = cc (rw (next_table, t) at e) in
        literals-Any s ss m a rs (rw same h)
  ]

  narrow-Any :
      (ss : List Text) (m : Text) (a : A) (rs rest : List (Route A)) (params out : Params)
      → narrow ss rs params ≡ some (rest, out)
      → ending m rest ≡ some a
      → Any (Serves ss m a) rs
  unfolding narrow
  narrow-Any [] m a rs rest params out e h =
      let same : rs ≡ rest = cc e in ending-Any m a rs (rw same h)
  narrow-Any (s ∷ ss) m a rs rest params out e h =
      let ((next, name), n, e') = went_on (next_table s rs) _ e in
      next_table-Any s ss m a rs next name n (narrow-Any ss m a next rest _ out e' h)

  -- A request is only given to the entry of a registered route whose method, in upper case, is that
  -- of the request and whose pattern takes the path segment for segment, a literal by being the
  -- same and a parameter by any.
  pub match_route_sound :
      (path method : Text) (routes : List (Text × Text × A)) (a : A) (params : Params)
      → match_route path method (router_of routes) ≡ some (a, params)
      → Any (Serves (segments path) (to_uppercase method) a) (table_of routes)
  unfolding lookup
  match_route_sound path method routes a params e =
      let rs = table_of routes in
      let ((rest, out), n, e₁) =
        went_on (narrow (segments path) rs (λ name. none)) _
          (sym (match_route-lookup path method routes) ∙ e) in
      let (b, found, e₂) = went_on (ending (to_uppercase method) rest) _ e₁ in
      let same : b ≡ a = cc e₂ in
      narrow-Any (segments path) (to_uppercase method) a rs rest _ out n (found ∙ ap some same)
