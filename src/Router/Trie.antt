-- ===== src/Router/Trie.antt =====
-- router.rs: the trie that was built from a table answers as the table does.
use flatbed.Base.{
  ◌≡◌, refl, sym, ap, ◌∙◌, Option, none, some, List, [], ◌∷◌, ◌==◌, list_keys, number_keys,
  Bool-cases, Option-cases, beq_cases, beq_ne, inl, inr, if◌then◌else◌, Text, is_empty,
  to_uppercase,
}
use flatbed.Router.{
  RouterNode, node, Children, no_children, child, ParamChild, no_param, param, Handlers,
  insert_handler, find_handler, new_node, is_param, param_name, Params, bind_param, at_child,
  at_param, add_at, get_child, next_node, descend, handlers_of, match_route, segments, add_route,
}
use flatbed.Router.Table.{
  Route, literals, parametric, oldest_name, ending, next_table, narrow, lookup, build, router_of,
  table_of,
}

module _ {ℓ} {A : Type ℓ} where
  abbrev children_of : RouterNode A → Children A
  children_of (node cs p hs) = cs

  abbrev param_of : RouterNode A → ParamChild A
  param_of (node cs p hs) = p

  abbrev or_new : Option (RouterNode A) → RouterNode A
  or_new none = new_node
  or_new (some n) = n

  get_child-at_child :
      (s p : Text) (f : RouterNode A → RouterNode A) (cs : Children A)
      → get_child s (at_child p f cs)
        ≡ (if p == s then some (f (or_new (get_child s cs))) else get_child s cs)
  unfolding get_child at_child
  get_child-at_child s p f no_children = refl
  get_child-at_child s p f (child t n cs) = elim (beq_cases t p) [
    | inl (e, q) ↦ elim (Bool-cases (t == s)) [
      | inl g ↦ rw (e, ← q, g) refl
      | inr g ↦ rw (e, ← q, g) refl
    ]
    | inr (e, q) ↦ elim (beq_cases t s) [
      | inl (g, r) ↦ rw (e, g, beq_ne p s (λ z. q (r ∙ sym z))) refl
      | inr (g, r) ↦ rw (e, g) (get_child-at_child s p f cs)
    ]
  ]

  children_of-add_at :
      (p : Text) (ps : List Text) (m : Text) (a : A) (n : RouterNode A)
      → children_of (add_at (p ∷ ps) m a n)
        ≡ (if is_param p then children_of n else at_child p (add_at ps m a) (children_of n))
  unfolding add_at
  children_of-add_at p ps m a (node cs q hs) = elim (Bool-cases (is_param p)) [
    | inl e ↦ rw e refl
    | inr e ↦ rw e refl
  ]

  param_of-add_at :
      (p : Text) (ps : List Text) (m : Text) (a : A) (n : RouterNode A)
      → param_of (add_at (p ∷ ps) m a n)
        ≡ (if is_param p then at_param (param_name p) (add_at ps m a) (param_of n) else param_of n)
  unfolding add_at
  param_of-add_at p ps m a (node cs q hs) = elim (Bool-cases (is_param p)) [
    | inl e ↦ rw e refl
    | inr e ↦ rw e refl
  ]

  handlers_of-add_at :
      (p : Text) (ps : List Text) (m : Text) (a : A) (n : RouterNode A)
      → handlers_of (add_at (p ∷ ps) m a n) ≡ handlers_of n
  unfolding add_at
  handlers_of-add_at p ps m a (node cs q hs) = elim (Bool-cases (is_param p)) [
    | inl e ↦ rw e refl
    | inr e ↦ rw e refl
  ]

  children_of-end :
      (m : Text) (a : A) (n : RouterNode A) → children_of (add_at [] m a n) ≡ children_of n
  unfolding add_at
  children_of-end m a (node cs q hs) = refl

  param_of-end : (m : Text) (a : A) (n : RouterNode A) → param_of (add_at [] m a n) ≡ param_of n
  unfolding add_at
  param_of-end m a (node cs q hs) = refl

  handlers_of-end :
      (m : Text) (a : A) (n : RouterNode A)
      → handlers_of (add_at [] m a n) ≡ insert_handler (to_uppercase m) a (handlers_of n)
  unfolding add_at
  handlers_of-end m a (node cs q hs) = refl

  abbrev child_view : List (Route A) → Option (RouterNode A)
  child_view rs = if is_empty rs then none else some (build rs)

  or_new-child_view : (rs : List (Route A)) → or_new (child_view rs) ≡ build rs
  unfolding build
  or_new-child_view [] = refl
  or_new-child_view (r ∷ rs) = refl

  -- The literal child for a segment is the router of the routes that begin with it.
  get_child-build :
      (s : Text) (rs : List (Route A))
      → get_child s (children_of (build rs)) ≡ child_view (literals s rs)
  unfolding build literals get_child
  get_child-build s [] = refl
  get_child-build s (([], m, a) ∷ rs) =
      ap (get_child s) (children_of-end m a (build rs)) ∙ get_child-build s rs
  get_child-build s ((p ∷ ps, m, a) ∷ rs) = elim (Bool-cases (is_param p)) [
    | inl e ↦ rw (children_of-add_at p ps m a (build rs), e) (get_child-build s rs)
    | inr e ↦
        let g = get_child-at_child s p (add_at ps m a) (children_of (build rs)) in
        elim (Bool-cases (p == s)) [
          | inl q ↦
              rw
                (
                  children_of-add_at p ps m a (build rs),
                  e,
                  g,
                  q,
                  get_child-build s rs,
                  or_new-child_view (literals s rs),
                )
                refl
          | inr q ↦ rw (children_of-add_at p ps m a (build rs), e, g, q) (get_child-build s rs)
        ]
  ]

  pub oldest_name-none : (rs : List (Route A)) → oldest_name rs ≡ none → parametric rs ≡ []
  unfolding oldest_name parametric
  oldest_name-none [] e = refl
  oldest_name-none (([], m, a) ∷ rs) e = oldest_name-none rs e
  oldest_name-none ((p ∷ ps, m, a) ∷ rs) e = elim (Option-cases (oldest_name rs)) [
    | inl n ↦ elim (Bool-cases (is_param p)) [
      | inl q ↦ cc (rw (n, q) at e)
      | inr q ↦ rw q (oldest_name-none rs n)
    ]
    | inr (name, n) ↦ cc (rw n at e)
  ]

  abbrev param_view : Option Text → List (Route A) → ParamChild A
  param_view none rs = no_param
  param_view (some name) rs = param name (build rs)

  -- The parameter child is the router of the routes that begin with one, under the oldest name.
  param_of-build :
      (rs : List (Route A)) → param_of (build rs) ≡ param_view (oldest_name rs) (parametric rs)
  unfolding build oldest_name parametric at_param
  param_of-build [] = refl
  param_of-build (([], m, a) ∷ rs) = param_of-end m a (build rs) ∙ param_of-build rs
  param_of-build ((p ∷ ps, m, a) ∷ rs) = elim (Bool-cases (is_param p)) [
    | inl e ↦ elim (Option-cases (oldest_name rs)) [
      | inl n ↦
          rw
            (param_of-add_at p ps m a (build rs), e, param_of-build rs, n, e, oldest_name-none rs n)
            refl
      | inr (name, n) ↦ rw (param_of-add_at p ps m a (build rs), e, param_of-build rs, n) refl
    ]
    | inr e ↦ elim (Option-cases (oldest_name rs)) [
      | inl n ↦ rw (param_of-add_at p ps m a (build rs), e, param_of-build rs, n, e) refl
      | inr (name, n) ↦ rw (param_of-add_at p ps m a (build rs), e, param_of-build rs, n) refl
    ]
  ]

  find_handler-insert_handler :
      (k m : Text) (a : A) (hs : Handlers A)
      → find_handler k (insert_handler m a hs) ≡ (if m == k then some a else find_handler k hs)
  find_handler-insert_handler k m a [] = refl
  find_handler-insert_handler k m a ((j, b) ∷ hs) = elim (beq_cases j m) [
    | inl (e, q) ↦ elim (Bool-cases (j == k)) [
      | inl g ↦ rw (e, ← q, g) refl
      | inr g ↦ rw (e, ← q, g) refl
    ]
    | inr (e, q) ↦ elim (beq_cases j k) [
      | inl (g, r) ↦ rw (e, g, beq_ne m k (λ z. q (r ∙ sym z))) refl
      | inr (g, r) ↦ rw (e, g) (find_handler-insert_handler k m a hs)
    ]
  ]

  find_handler-build :
      (m : Text) (rs : List (Route A)) → find_handler m (handlers_of (build rs)) ≡ ending m rs
  unfolding build ending
  find_handler-build m [] = refl
  find_handler-build m (([], k, a) ∷ rs) =
      rw
        (
          handlers_of-end k a (build rs),
          find_handler-insert_handler m (to_uppercase k) a (handlers_of (build rs)),
          find_handler-build m rs,
        )
        refl
  find_handler-build m ((p ∷ ps, k, a) ∷ rs) =
      rw (handlers_of-add_at p ps k a (build rs)) (find_handler-build m rs)

  abbrev built : Option (List (Route A) × Option Text) → Option (RouterNode A × Option Text)
  built none = none
  built (some (rs, name)) = some (build rs, name)

  next_node-view :
      (s : Text) (n : RouterNode A) (rs : List (Route A))
      → get_child s (children_of n) ≡ child_view (literals s rs)
      → param_of n ≡ param_view (oldest_name rs) (parametric rs)
      → next_node s n ≡ built (next_table s rs)
  unfolding next_node next_table
  next_node-view s (node cs p hs) rs c q = elim (Bool-cases (is_empty (literals s rs))) [
    | inl e ↦
        let c' : get_child s cs ≡ none =
          c ∙ ap (λ b. if b then none else some (build (literals s rs))) e in
        elim (Option-cases (oldest_name rs)) [
          | inl o ↦
              let q' : p ≡ no_param = q ∙ ap (λ o. param_view o (parametric rs)) o in
              simp (next_node, c', q', next_table, e, o)
          | inr (name, o) ↦
              let q' : p ≡ param name (build (parametric rs)) =
                q ∙ ap (λ o. param_view o (parametric rs)) o in
              simp (next_node, c', q', next_table, e, o)
        ]
    | inr e ↦
        let c' : get_child s cs ≡ some (build (literals s rs)) =
          c ∙ ap (λ b. if b then none else some (build (literals s rs))) e in
        simp (next_node, c', next_table, e)
  ]

  next_node-build :
      (s : Text) (rs : List (Route A)) → next_node s (build rs) ≡ built (next_table s rs)
  next_node-build s rs = next_node-view s (build rs) rs (get_child-build s rs) (param_of-build rs)

  abbrev built_params : Option (List (Route A) × Params) → Option (RouterNode A × Params)
  built_params none = none
  built_params (some (rs, params)) = some (build rs, params)

  pub descend-build :
      (ss : List Text) (rs : List (Route A)) (params : Params)
      → descend ss (build rs) params ≡ built_params (narrow ss rs params)
  unfolding descend narrow
  descend-build [] rs params = refl
  descend-build (s ∷ ss) rs params = elim (Option-cases (next_table s rs)) [
    | inl n ↦ simp (next_node-build s rs, n)
    | inr ((rest, name), n) ↦
        simp (next_node-build s rs, n) (descend-build ss rest (bind_param name s params))
  ]

  match_route-build :
      (path method : Text) (rs : List (Route A))
      → match_route path method (build rs) ≡ lookup path method rs
  unfolding match_route lookup
  match_route-build path method rs =
      let down = descend-build (segments path) rs (λ name. none) in
      elim (Option-cases (narrow (segments path) rs (λ name. none))) [
        | inl n ↦ simp (down, n)
        | inr ((rest, params), n) ↦ simp (down, n, find_handler-build (to_uppercase method) rest)
      ]

  router_of-table_of :
      (routes : List (Text × Text × A)) → router_of routes ≡ build (table_of routes)
  unfolding router_of build add_route
  router_of-table_of [] = refl
  router_of-table_of ((path, m, a) ∷ rs) = ap (add_at (segments path) m a) (router_of-table_of rs)

  -- The trie that routes were added to answers every request as their table does: the table keeps,
  -- for each segment, the rest of the routes that begin with it as a literal, or if there are none
  -- of those that begin with a parameter, under the name that the oldest of them gave, and at the
  -- end answers with the newest route of the method.
  pub match_route-lookup :
      (path method : Text) (routes : List (Text × Text × A))
      → match_route path method (router_of routes) ≡ lookup path method (table_of routes)
  match_route-lookup path method routes =
      ap (match_route path method) (router_of-table_of routes)
      ∙ match_route-build path method (table_of routes)
