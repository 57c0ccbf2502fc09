-- ===== src/Registry.antt =====
-- crates/flatbed/src/lib.rs: what is checked at startup of the registered types and routes.
pub mod Conflicts
mod Tests
use flatbed.Base.{
  ℕ, ◌≡◌, ◌↔◌, refl, ap, ◌∙◌, sym, Bool, true, false, not, Option, none, some, List, [], ◌∷◌, ◌++◌,
  ◌&&◌, ◌==◌, HasEq, list_keys, number_keys, if◌then◌else◌, Text, codes, Result, ok, err, beq_refl,
  Bool-cases, inl, inr,
}

pub data HttpMethod : Type 0 where
  get post put delete patch head options : HttpMethod

abbrev pub as_str : HttpMethod → Text
as_str get = codes "GET"
as_str post = codes "POST"
as_str put = codes "PUT"
as_str delete = codes "DELETE"
as_str patch = codes "PATCH"
as_str head = codes "HEAD"
as_str options = codes "OPTIONS"

-- The derived `Eq`, by the place of a method in the enum.
abbrev pub place_of : HttpMethod → ℕ
place_of get = 0
place_of post = 1
place_of put = 2
place_of delete = 3
place_of patch = 4
place_of head = 5
place_of options = 6

abbrev pub method_at : ℕ → HttpMethod
method_at n =
    if n == 0
    then get
    else (if n == 1
        then post
        else (if n == 2
            then put
            else (if n == 3
                then delete
                else (if n == 4 then patch else (if n == 5 then head else options)))))

pub method_at-place_of : (m : HttpMethod) → method_at (place_of m) ≡ m
method_at-place_of get = refl
method_at-place_of post = refl
method_at-place_of put = refl
method_at-place_of delete = refl
method_at-place_of patch = refl
method_at-place_of head = refl
method_at-place_of options = refl

pub method_eq_iff : (m n : HttpMethod) → ((place_of m == place_of n) ≡ true) ↔ (m ≡ n)
method_eq_iff m n = (
  (λ h.
      let same : place_of m ≡ place_of n = (number_keys.eqb_iff (place_of m) (place_of n)).0 h in
      sym (method_at-place_of m) ∙ (ap method_at same ∙ method_at-place_of n)),
  (λ p. (number_keys.eqb_iff (place_of m) (place_of n)).1 (ap place_of p)),
)

instance abbrev pub method_keys : HasEq HttpMethod
method_keys = record { eqb = λ m n. place_of m == place_of n; eqb_iff = method_eq_iff }

pub both_iff {ℓ κ} :
    {A : Type ℓ} {B : Type κ} ⦃d : HasEq A⦄ ⦃e : HasEq B⦄ (p q : A × B)
    → (((p.0 == q.0) && (p.1 == q.1)) ≡ true) ↔ (p ≡ q)
both_iff ⦃d⦄ ⦃e⦄ p q = (
  (λ h. elim (Bool-cases (p.0 == q.0)) [
    | inl t ↦ elim (Bool-cases (p.1 == q.1)) [
      | inl u ↦ λ i. ((d.eqb_iff p.0 q.0).0 t i, (e.eqb_iff p.1 q.1).0 u i)
      | inr u ↦ cc (rw (t, u) at h)
    ]
    | inr t ↦ cc (rw t at h)
  ]),
  (λ r. rw r (rw (beq_refl q.0, beq_refl q.1) refl)),
)

instance abbrev pub pair_keys {ℓ κ} :
    {A : Type ℓ} {B : Type κ} ⦃d : HasEq A⦄ ⦃e : HasEq B⦄ → HasEq (A × B)
pair_keys = record { eqb = λ p q. (p.0 == q.0) && (p.1 == q.1); eqb_iff = both_iff }

-- The map of what has been seen, by its key; a later insert replaces.
abbrev pub insert_seen :
    {A K : Type 0} ⦃d : HasEq K⦄ (key : A → K) → A → (K → Option A) → K → Option A
insert_seen key a seen k = if key a == k then some a else seen k

module _ {A K V : Type 0} ⦃d : HasEq K⦄ ⦃e : HasEq V⦄ (key : A → K) (value : A → V) where
  unfoldable pub first_conflict : (K → Option A) → List A → Option (A × A)
  first_conflict seen [] = none
  first_conflict seen (a ∷ rest) =
      let further = first_conflict (insert_seen key a seen) rest in
      elim (seen (key a)) [
        | none ↦ further
        | some b ↦ if value b == value a then further else some (b, a)
      ]

pub record TypeEntry : Type 0 where
  pub name : Text
  pub namespace : Text
  pub kind : Text

pub record TypeConflict : Type 0 where
  pub name : Text
  pub first_namespace : Text
  pub second_namespace : Text
  pub first_kind : Text
  pub second_kind : Text

abbrev pub type_conflict : TypeEntry → TypeEntry → TypeConflict
type_conflict a b = record {
  name = b.name;
  first_namespace = a.namespace;
  second_namespace = b.namespace;
  first_kind = a.kind;
  second_kind = b.kind;
}

abbrev pub type_name : TypeEntry → Text
type_name a = a.name

abbrev pub type_namespace : TypeEntry → Text
type_namespace a = a.namespace

unfoldable pub find_name_collision : List TypeEntry → Result {0, 0} TypeConflict Unit
unfolding first_conflict
find_name_collision entries =
    elim (first_conflict type_name type_namespace (λ name. none) entries) [
      | none ↦ ok tt
      | some (a, b) ↦ err (type_conflict a b)
    ]

abbrev pub entries_of : Text → List (Text × Text) → List TypeEntry
entries_of kind [] = []
entries_of kind ((name, namespace) ∷ rest) =
    record { name = name; namespace = namespace; kind = kind } ∷ entries_of kind rest

-- The names and namespaces of the three registries, one after the other.
unfoldable pub validate_type_registry :
    (types enums unions : List (Text × Text)) → Result {0, 0} TypeConflict Unit
unfolding find_name_collision
validate_type_registry types enums unions = find_name_collision (
    entries_of (codes "type") types
    ++ (entries_of (codes "enum") enums ++ entries_of (codes "union") unions))

pub record RouteInfo : Type 0 where
  pub path : Text
  pub method : HttpMethod
  pub request_type : Text
  pub response_type : Text

pub record RouteConflict : Type 0 where
  pub path : Text
  pub method : HttpMethod
  pub first_request : Text
  pub first_response : Text
  pub second_request : Text
  pub second_response : Text

abbrev pub route_conflict : RouteInfo → RouteInfo → RouteConflict
route_conflict a b = record {
  path = b.path;
  method = b.method;
  first_request = a.request_type;
  first_response = a.response_type;
  second_request = b.request_type;
  second_response = b.response_type;
}

abbrev pub route_key : RouteInfo → Text × HttpMethod
route_key r = (r.path, r.method)

abbrev pub route_types : RouteInfo → Text × Text
route_types r = (r.request_type, r.response_type)

unfoldable pub validate_routes : List RouteInfo → Result {0, 0} RouteConflict Unit
unfolding first_conflict
validate_routes routes = elim (first_conflict route_key route_types (λ key. none) routes) [
  | none ↦ ok tt
  | some (a, b) ↦ err (route_conflict a b)
]
