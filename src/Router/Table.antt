-- ===== src/Router/Table.antt =====
-- router.rs: the routes as a table, the newest first, and what is left of it after each segment of a
-- path. A pattern is a list of segments, some of them `{name}`.
use flatbed.Base.{
  Option, none, some, List, [], ◌∷◌, ◌==◌, list_keys, number_keys, if◌then◌else◌, Text, is_empty,
  to_uppercase, ◌>>=◌,
}
use flatbed.Router.{
  RouterNode, new_node, is_param, param_name, Params, bind_param, add_at, add_route, segments,
}

abbrev pub Route {ℓ} : Type ℓ → Type ℓ
Route A = List Text × Text × A

module _ {ℓ} {A : Type ℓ} where
  -- The routes that begin with this literal segment, and what follows it.
  unfoldable pub literals : Text → List (Route A) → List (Route A)
  literals s [] = []
  literals s (([], method, entry) ∷ rs) = literals s rs
  literals s ((p ∷ ps, method, entry) ∷ rs) =
      let rest = literals s rs in
      if is_param p then rest else (if p == s then (ps, method, entry) ∷ rest else rest)

  -- The routes that begin with a parameter.
  unfoldable pub parametric : List (Route A) → List (Route A)
  parametric [] = []
  parametric (([], method, entry) ∷ rs) = parametric rs
  parametric ((p ∷ ps, method, entry) ∷ rs) =
      let rest = parametric rs in if is_param p then (ps, method, entry) ∷ rest else rest

  -- The name that the oldest of them gave.
  unfoldable pub oldest_name : List (Route A) → Option Text
  oldest_name [] = none
  oldest_name (([], method, entry) ∷ rs) = oldest_name rs
  oldest_name ((p ∷ ps, method, entry) ∷ rs) =
      let rest = oldest_name rs in
      elim rest [ some name ↦ some name | none ↦ if is_param p then some (param_name p) else none ]

  -- The newest route that ends here, of a method.
  unfoldable pub ending : Text → List (Route A) → Option A
  ending m [] = none
  ending m (([], method, entry) ∷ rs) =
      let rest = ending m rs in if to_uppercase method == m then some entry else rest
  ending m ((p ∷ ps, method, entry) ∷ rs) = ending m rs

  unfoldable pub next_table : Text → List (Route A) → Option (List (Route A) × Option Text)
  unfolding literals parametric oldest_name
  next_table s rs =
      if is_empty (literals s rs)
      then elim (oldest_name rs) [ none ↦ none | some name ↦ some (parametric rs, some name) ]
      else some (literals s rs, none)

  unfoldable pub narrow : List Text → List (Route A) → Params → Option (List (Route A) × Params)
  unfolding next_table bind_param
  narrow [] rs params = some (rs, params)
  narrow (s ∷ ss) rs params = do
    (rest, name) ← next_table s rs
    narrow ss rest (bind_param name s params)

  unfoldable pub lookup : Text → Text → List (Route A) → Option (A × Params)
  unfolding narrow ending
  lookup path method rs = do
    (rest, params) ← narrow (segments path) rs (λ name. none)
    entry ← ending (to_uppercase method) rest
    some (entry, params)

  -- The router that the routes were added to, the oldest first.
  unfoldable pub build : List (Route A) → RouterNode A
  unfolding add_at
  build [] = new_node
  build ((pattern, method, entry) ∷ rs) = add_at pattern method entry (build rs)

  -- The same for routes given by their paths, and their table.
  unfoldable pub router_of : List (Text × Text × A) → RouterNode A
  unfolding add_route
  router_of [] = new_node
  router_of ((path, method, entry) ∷ rs) = add_route path method entry (router_of rs)

  abbrev pub table_of : List (Text × Text × A) → List (Route A)
  table_of [] = []
  table_of ((path, method, entry) ∷ rs) = (segments path, method, entry) ∷ table_of rs
