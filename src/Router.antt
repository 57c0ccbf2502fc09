-- ===== src/Router.antt =====
-- crates/flatbed/src/hyper/router.rs: the trie of routes. An entry is a route's information and its
-- handler, which the router only hands on; it is the type `A`. A hash map is a list of pairs.
pub mod Table
pub mod Trie
pub mod Matching
pub mod Complete
pub mod Allowed
mod Tests
use flatbed.Base.{
  ℕ, Bool, true, false, not, Option, none, some, List, [], ◌∷◌, map, ◌&&◌, ◌==◌, list_keys,
  number_keys, if◌then◌else◌, Text, split, slash, is_empty, starts_with, ends_with, drop_last, drop,
  to_uppercase, ◌>>=◌,
}

-- `split('/')` without the empty segments.
abbrev pub nonempty : List Text → List Text
nonempty [] = []
nonempty (s ∷ ss) = if is_empty s then nonempty ss else s ∷ nonempty ss

abbrev pub segments : Text → List Text
segments path = nonempty (split slash path)

abbrev pub is_param : Text → Bool
is_param s = starts_with 123 s && ends_with 125 s

abbrev pub param_name : Text → Text
param_name s = drop_last (drop 1 s)

-- `HashMap::insert` of a handler, by its method.
abbrev pub Handlers {ℓ} : Type ℓ → Type ℓ
Handlers A = List (Text × A)

abbrev pub insert_handler {ℓ} : {A : Type ℓ} → Text → A → Handlers A → Handlers A
insert_handler m a [] = (m, a) ∷ []
insert_handler m a ((k, b) ∷ hs) = if k == m then (m, a) ∷ hs else (k, b) ∷ insert_handler m a hs

abbrev pub find_handler {ℓ} : {A : Type ℓ} → Text → Handlers A → Option A
find_handler m [] = none
find_handler m ((k, b) ∷ hs) = if k == m then some b else find_handler m hs

mutual
  pub data RouterNode {ℓ} (A : Type ℓ) : Type ℓ where
    node :
        (children : Children A) (param_child : ParamChild A) (handlers : Handlers A) → RouterNode A

  pub data Children {ℓ} (A : Type ℓ) : Type ℓ where
    no_children : Children A
    child : Text → RouterNode A → Children A → Children A

  pub data ParamChild {ℓ} (A : Type ℓ) : Type ℓ where
    no_param : ParamChild A
    param : (name : Text) → RouterNode A → ParamChild A

-- The parameters of a match, as a map: a later insert of the same name wins.
abbrev pub Params : Type 0
Params = Text → Option Text

abbrev pub insert_param : Text → Text → Params → Params
insert_param name value params other = if name == other then some value else params other

abbrev pub no_params : Params
no_params name = none

pub bind_param : Option Text → Text → Params → Params
bind_param none value params = params
bind_param (some name) value params = insert_param name value params

module _ {ℓ} {A : Type ℓ} where
  abbrev pub new_node : RouterNode A
  new_node = node no_children no_param []

  -- `children.entry(segment).or_insert_with(new)`, and what is done to the node there.
  pub at_child : Text → (RouterNode A → RouterNode A) → Children A → Children A
  at_child s f no_children = child s (f new_node) no_children
  at_child s f (child t n cs) = if t == s then child t (f n) cs else child t n (at_child s f cs)

  -- The first route that comes by names the parameter.
  pub at_param : Text → (RouterNode A → RouterNode A) → ParamChild A → ParamChild A
  at_param name f no_param = param name (f new_node)
  at_param name f (param first n) = param first (f n)

  pub add_at : List Text → Text → A → RouterNode A → RouterNode A
  unfolding at_child at_param
  add_at [] method entry (node cs p hs) = node cs p (insert_handler (to_uppercase method) entry hs)
  add_at (s ∷ ss) method entry (node cs p hs) =
      let below = add_at ss method entry in
      if is_param s
      then node cs (at_param (param_name s) below p) hs
      else node (at_child s below cs) p hs

  pub add_route : Text → Text → A → RouterNode A → RouterNode A
  unfolding add_at
  add_route path method entry root = add_at (segments path) method entry root

  pub get_child : Text → Children A → Option (RouterNode A)
  get_child s no_children = none
  get_child s (child t n cs) = if t == s then some n else get_child s cs

  -- The node for the next segment, and the name of the parameter, if it is one.
  pub next_node : Text → RouterNode A → Option (RouterNode A × Option Text)
  unfolding get_child
  next_node s (node cs p hs) = elim (get_child s cs) [
    | some n ↦ some (n, none)
    | none ↦ elim p [ param name n ↦ some (n, some name) | no_param ↦ none ]
  ]

  unfoldable pub descend : List Text → RouterNode A → Params → Option (RouterNode A × Params)
  unfolding next_node bind_param
  descend [] n params = some (n, params)
  descend (s ∷ ss) n params = do
    (below, name) ← next_node s n
    descend ss below (bind_param name s params)

  abbrev pub handlers_of : RouterNode A → Handlers A
  handlers_of (node cs p hs) = hs

  unfoldable pub match_route : Text → Text → RouterNode A → Option (A × Params)
  unfolding descend
  match_route path method root = do
    (n, params) ← descend (segments path) root no_params
    entry ← find_handler (to_uppercase method) (handlers_of n)
    some (entry, params)

  -- The same walk without the parameters.
  unfoldable pub reach : List Text → RouterNode A → Option (RouterNode A)
  unfolding next_node
  reach [] n = some n
  reach (s ∷ ss) n = do (below, name) ← next_node s n; reach ss below

  abbrev pub methods_of : Handlers A → List Text
  methods_of [] = []
  methods_of ((k, b) ∷ hs) = k ∷ methods_of hs

  unfoldable pub get_allowed_methods : Text → RouterNode A → List Text
  unfolding reach
  get_allowed_methods path root = elim (reach (segments path) root) [
    | none ↦ []
    | some n ↦ methods_of (handlers_of n)
  ]
