-- ===== src/Router/Complete.antt =====
-- router.rs: when a registered route is found. The walk takes the literal child for a segment where
-- there is one and does not come back, so that a parameter is passed over there.
use flatbed.Base.{
  ◌≡◌, ◌⊎◌, refl, true, false, none, some, List, [], ◌∷◌, ◌==◌, list_keys, number_keys, Bool-cases,
  Option-cases, beq_refl, inl, inr, if◌then◌else◌, Text, is_empty, to_uppercase, Any, is_some,
}
use flatbed.Router.{is_param, Params, bind_param, match_route, segments}
use flatbed.Router.Table.{
  Route, literals, parametric, oldest_name, ending, next_table, narrow, lookup, router_of, table_of,
}
use flatbed.Router.Trie.{match_route-lookup, oldest_name-none}
use flatbed.Router.Matching.{Matches}

module _ {A : Type 0} where
  -- Where the pattern has a parameter, no route that is still possible has the segment as a literal.
  abbrev pub IsUnshadowed : List Text → List Text → List (Route A) → Type 0
  IsUnshadowed [] ss rs = Unit
  IsUnshadowed (p ∷ ps) [] rs = Unit
  IsUnshadowed (p ∷ ps) (s ∷ ss) rs =
      if is_param p
      then ((literals s rs ≡ []) × IsUnshadowed ps ss (parametric rs))
      else IsUnshadowed ps ss (literals s rs)

  abbrev pub IsReachable : List Text → Text → List (Route A) → Route A → Type 0
  IsReachable ss m rs (pattern, method, entry) =
      Matches pattern ss × (to_uppercase method ≡ m) × IsUnshadowed pattern ss rs

  IsReachable-step :
      (s : Text) (ss : List Text) (m : Text) (rs qs : List (Route A))
      → Any (IsReachable (s ∷ ss) m rs) qs
      → Any (IsReachable ss m (literals s rs)) (literals s qs)
        ⊎ ((literals s rs ≡ []) × Any (IsReachable ss m (parametric rs)) (parametric qs))
  unfolding literals parametric
  IsReachable-step s ss m rs (([], k, a) ∷ qs) (inl (f, _, _)) = absurd f
  IsReachable-step s ss m rs (([], k, a) ∷ qs) (inr h) = IsReachable-step s ss m rs qs h
  IsReachable-step s ss m rs ((p ∷ ps, k, a) ∷ qs) (inl ((inl t, x), y, u)) =
      let (z, v) = rw t at u in inr (z, rw t (inl (x, y, v)))
  IsReachable-step s ss m rs ((p ∷ ps, k, a) ∷ qs) (inl ((inr (t, q), x), y, u)) =
      inl (rw (t, q, beq_refl s) (inl (x, y, rw t at u)))
  IsReachable-step s ss m rs ((p ∷ ps, k, a) ∷ qs) (inr h) =
      elim (IsReachable-step s ss m rs qs h) [
        | inl x ↦ elim (Bool-cases (is_param p)) [
          | inl t ↦ rw t (inl x)
          | inr t ↦ elim (Bool-cases (p == s)) [
            | inl q ↦ rw (t, q) (inl (inr x))
            | inr q ↦ rw (t, q) (inl x)
          ]
        ]
        | inr (z, x) ↦ elim (Bool-cases (is_param p)) [
          | inl t ↦ rw t (inr (z, inr x))
          | inr t ↦ rw t (inr (z, x))
        ]
      ]
  IsReachable-step s ss m rs [] h = absurd h

  ending-found :
      (m : Text) (rs qs : List (Route A))
      → Any (IsReachable [] m rs) qs
      → (a : A) × (ending m qs ≡ some a)
  unfolding ending
  ending-found m rs [] h = absurd h
  ending-found m rs (([], k, a) ∷ qs) (inl (x, y, z)) = (a, rw (y, beq_refl m))
  ending-found m rs (([], k, a) ∷ qs) (inr h) = elim (Bool-cases (to_uppercase k == m)) [
    | inl t ↦ (a, rw t)
    | inr t ↦ let (b, e) = ending-found m rs qs h in (b, rw t e)
  ]
  ending-found m rs ((p ∷ ps, k, a) ∷ qs) (inl (f, _, _)) = absurd f
  ending-found m rs ((p ∷ ps, k, a) ∷ qs) (inr h) = ending-found m rs qs h

  Any-nonempty : (P : Route A → Type 0) (rs : List (Route A)) → Any P rs → is_empty rs ≡ false
  Any-nonempty P [] h = absurd h
  Any-nonempty P (r ∷ rs) h = refl

  next_table-literal :
      (s : Text) (rs : List (Route A))
      → is_empty (literals s rs) ≡ false
      → next_table s rs ≡ some (literals s rs, none)
  unfolding next_table
  next_table-literal s rs e = simp e

  next_table-param :
      (P : Route A → Type 0) (s : Text) (rs : List (Route A))
      → literals s rs ≡ []
      → Any P (parametric rs)
      → (name : Text) × (next_table s rs ≡ some (parametric rs, some name))
  unfolding next_table
  next_table-param P s rs z x = elim (Option-cases (oldest_name rs)) [
    | inl o ↦ cc (Any-nonempty P (parametric rs) x, oldest_name-none rs o)
    | inr (name, o) ↦ (name, simp (z, o))
  ]

  narrow-found :
      (ss : List Text) (m : Text) (rs : List (Route A)) (params : Params)
      → Any (IsReachable ss m rs) rs
      → (rest : List (Route A)) × (out : Params) × (a : A) × (narrow ss rs params
          ≡ some (rest, out))
        × (ending m rest ≡ some a)
  unfolding narrow
  narrow-found [] m rs params h = let (a, e) = ending-found m rs rs h in (rs, params, a, refl, e)
  narrow-found (s ∷ ss) m rs params h = elim (IsReachable-step s ss m rs rs h) [
    | inl x ↦
        let e = next_table-literal s rs (Any-nonempty _ (literals s rs) x) in
        let (rest, out, a, n, f) = narrow-found ss m (literals s rs) (bind_param none s params) x in
        (rest, out, a, rw (narrow, e) n, f)
    | inr (z, x) ↦
        let (name, e) = next_table-param _ s rs z x in
        let (rest, out, a, n, f) =
          narrow-found ss m (parametric rs) (bind_param (some name) s params) x in
        (rest, out, a, rw (narrow, e) n, f)
  ]

  -- A request finds an entry where some registered route has its method and a pattern that takes
  -- its path, and nowhere along the path does a route that is still possible have as a literal the
  -- segment that the pattern takes as a parameter.
  pub match_route_complete :
      (path method : Text) (routes : List (Text × Text × A))
      → Any (IsReachable (segments path) (to_uppercase method) (table_of routes)) (table_of routes)
      → is_some (match_route path method (router_of routes)) ≡ true
  unfolding lookup
  match_route_complete path method routes h =
      let (rest, out, a, n, f) =
        narrow-found (segments path) (to_uppercase method) (table_of routes) (λ name. none) h in
      rw (match_route-lookup path method routes, lookup, n, f) refl
