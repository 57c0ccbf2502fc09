-- ===== src/Router/Allowed.antt =====
-- router.rs: `get_allowed_methods` against `match_route`.
use flatbed.Base.{
  ◌≡◌, ◌↔◌, refl, true, Option, none, some, List, [], ◌∷◌, list_keys, number_keys, Option-cases,
  beq_cases, inl, inr, Text, to_uppercase, ◌>>=◌, Any, is_some,
}
use flatbed.Router.{
  RouterNode, Params, bind_param, Handlers, find_handler, next_node, descend, reach, handlers_of,
  methods_of, match_route, get_allowed_methods, segments,
}

module _ {A : Type 0} where
  abbrev node_only : Option (RouterNode A × Params) → Option (RouterNode A)
  node_only none = none
  node_only (some (n, params)) = some n

  reach-descend :
      (ss : List Text) (n : RouterNode A) (params : Params)
      → reach ss n ≡ node_only (descend ss n params)
  unfolding reach descend
  reach-descend [] n params = refl
  reach-descend (s ∷ ss) n params = elim (Option-cases (next_node s n)) [
    | inl e ↦ simp e
    | inr ((below, name), e) ↦ simp e (reach-descend ss below (bind_param name s params))
  ]

  methods_of_iff :
      (m : Text) (hs : Handlers A)
      → (is_some (find_handler m hs) ≡ true) ↔ Any (λ k. k ≡ m) (methods_of hs)
  methods_of_iff m [] = ((λ e. cc), (λ h. absurd h))
  methods_of_iff m ((k, b) ∷ hs) =
      let (to, from) = methods_of_iff m hs in
      elim (beq_cases k m) [
        | inl (t, p) ↦ rw t ((λ e. inl p), (λ h. refl))
        | inr (t, p) ↦
            rw t ((λ e. inr (to e)), (λ h. elim h [ inl q ↦ absurd (p q) | inr q ↦ from q ]))
      ]

  abbrev allowed_at : Option (RouterNode A) → List Text
  allowed_at none = []
  allowed_at (some n) = methods_of (handlers_of n)

  allowed_at_iff :
      (m : Text) (o : Option (RouterNode A × Params))
      → (is_some {A = A × Params}
            (o >>= λ x. find_handler m (handlers_of x.0) >>= λ entry. some (entry, x.1))
          ≡ true)
        ↔ Any (λ k. k ≡ m) (allowed_at (node_only o))
  allowed_at_iff m none = ((λ e. cc), (λ h. absurd h))
  allowed_at_iff m (some (n, params)) =
      let (to, from) = methods_of_iff m (handlers_of n) in
      elim (Option-cases (find_handler m (handlers_of n))) [
        | inl f ↦ rw f ((λ e. cc), (λ h. cc (f, from h)))
        | inr (a, f) ↦ rw f ((λ e. to (rw f refl)), (λ h. refl))
      ]

  get_allowed_methods_lem :
      (path : Text) (root : RouterNode A)
      → get_allowed_methods path root ≡ allowed_at (reach (segments path) root)
  unfolding get_allowed_methods
  get_allowed_methods_lem path root = elim (Option-cases (reach (segments path) root)) [
    | inl e ↦ simp (get_allowed_methods, e)
    | inr (n, e) ↦ simp (get_allowed_methods, e)
  ]

  -- In every trie, a request finds an entry exactly when its method, in upper case, is among the
  -- allowed methods of its path.
  pub get_allowed_methods_iff :
      (path method : Text) (root : RouterNode A)
      → (is_some (match_route path method root) ≡ true)
        ↔ Any (λ k. k ≡ to_uppercase method) (get_allowed_methods path root)
  unfolding match_route
  get_allowed_methods_iff path method root =
      let params : Params = λ name. none in
      rw (get_allowed_methods_lem path root, reach-descend (segments path) root params)
        (allowed_at_iff (to_uppercase method) (descend (segments path) root params))
