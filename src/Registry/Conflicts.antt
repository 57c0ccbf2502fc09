-- ===== src/Registry/Conflicts.antt =====
-- lib.rs: the two validations find a conflict exactly when there is one.
use flatbed.Base.{
  ◌≡◌, ◌≢◌, ◌⊎◌, refl, sym, ap, subst, ◌∙◌, Option, none, some, List, [], ◌∷◌, HasEq, list_keys,
  number_keys, Result, ok, err, All, Any, Option-cases, beq_cases, inl, inr,
}
use flatbed.Registry.{
  insert_seen, first_conflict, pair_keys, method_keys, TypeEntry, TypeConflict, type_conflict,
  route_conflict, type_name, type_namespace, route_key, route_types, find_name_collision, RouteInfo,
  RouteConflict, validate_routes,
}

module _ {A K V : Type 0} ⦃d : HasEq K⦄ ⦃e : HasEq V⦄ (key : A → K) (value : A → V) where
  -- Two elements that are no conflict.
  abbrev pub Agree : A → A → Type 0
  Agree a b = (key a ≢ key b) ⊎ (value a ≡ value b)

  abbrev pub Consistent : List A → Type 0
  Consistent [] = Unit
  Consistent (a ∷ rest) = All (Agree a) rest × Consistent rest

  -- What a search for a conflict says of the elements.
  abbrev pub Verdict : List A → Option (A × A) → Type 0
  Verdict es none = Consistent es
  Verdict es (some (a, b)) =
      Any (λ x. x ≡ a) es × Any (λ x. x ≡ b) es × (key a ≡ key b) × (value a ≢ value b)

  abbrev AgreesOption : Option A → A → Type 0
  AgreesOption none b = Unit
  AgreesOption (some a) b = value a ≡ value b

  abbrev AgreesSeen : (K → Option A) → A → Type 0
  AgreesSeen seen b = AgreesOption (seen (key b)) b

  AgreesOption-value :
      (o : Option A) (a b : A) → AgreesOption o a → value a ≡ value b → AgreesOption o b
  AgreesOption-value none a b h p = tt
  AgreesOption-value (some c) a b h p = h ∙ p

  -- What agrees with the map after an insert agrees with the element, and with the map before if the
  -- element did.
  insert_seen-Agree :
      (seen : K → Option A) (a b : A)
      → AgreesSeen seen a
      → AgreesSeen (insert_seen key a seen) b
      → Agree a b × AgreesSeen seen b
  insert_seen-Agree seen a b g h = elim (beq_cases (key a) (key b)) [
    | inl (t, p) ↦
        let same : value a ≡ value b = rw t at h in
        (
          inr same,
          AgreesOption-value (seen (key b)) a b (subst (λ k. AgreesOption (seen k) a) p g) same,
        )
    | inr (t, p) ↦ (inl p, rw t at h)
  ]

  insert_seen-All :
      (seen : K → Option A) (a : A) (bs : List A)
      → AgreesSeen seen a
      → All (AgreesSeen (insert_seen key a seen)) bs
      → All (Agree a) bs × All (AgreesSeen seen) bs
  insert_seen-All seen a [] g h = (tt, tt)
  insert_seen-All seen a (b ∷ bs) g (h, hs) =
      let (x, y) = insert_seen-Agree seen a b g h in
      let (xs, ys) = insert_seen-All seen a bs g hs in ((x, xs), (y, ys))

  -- What a search that started with a map says of it and of the elements.
  abbrev Found : (K → Option A) → List A → Option (A × A) → Type 0
  Found seen es none = All (AgreesSeen seen) es × Consistent es
  Found seen es (some (a, b)) =
      (seen (key b) ≡ some a ⊎ (Any (λ x. x ≡ a) es × (key a ≡ key b)))
      × Any (λ x. x ≡ b) es
      × (value a ≢ value b)

  Found-insert :
      (seen : K → Option A) (a : A) (es : List A) (o : Option (A × A))
      → AgreesSeen seen a
      → Found (insert_seen key a seen) es o
      → Found seen (a ∷ es) o
  Found-insert seen a es none g (h, c) =
      let (x, y) = insert_seen-All seen a es g h in ((g, y), (x, c))
  Found-insert seen a es (some (b, c)) g (inr (h, p), y, z) = (inr (inr h, p), inr y, z)
  Found-insert seen a es (some (b, c)) g (inl h, y, z) = elim (beq_cases (key a) (key c)) [
    | inl (t, p) ↦
        let same : a ≡ b = cc (rw t at h) in
        (inr (inl same, subst (λ x. key x ≡ key c) same p), inr y, z)
    | inr (t, p) ↦ (inl (rw t at h), inr y, z)
  ]

  first_conflict-Found :
      (seen : K → Option A) (es : List A) → Found seen es (first_conflict key value seen es)
  unfolding first_conflict
  first_conflict-Found seen [] = (tt, tt)
  first_conflict-Found seen (a ∷ es) =
      let further = first_conflict key value (insert_seen key a seen) es in
      let found = first_conflict-Found (insert_seen key a seen) es in
      elim (Option-cases (seen (key a))) [
        | inl n ↦
            let same : first_conflict key value seen (a ∷ es) ≡ further =
              simp (first_conflict, n) in
            subst (Found seen (a ∷ es)) (sym same)
              (Found-insert seen a es further (subst (λ o. AgreesOption o a) (sym n) tt) found)
        | inr (b, s) ↦ elim (beq_cases (value b) (value a)) [
          | inl (t, p) ↦
              let same : first_conflict key value seen (a ∷ es) ≡ further =
                simp (first_conflict, s, t) in
              subst (Found seen (a ∷ es)) (sym same)
                (Found-insert seen a es further (subst (λ o. AgreesOption o a) (sym s) p) found)
          | inr (t, p) ↦
              let same : first_conflict key value seen (a ∷ es) ≡ some (b, a) =
                simp (first_conflict, s, t) in
              subst (Found seen (a ∷ es)) (sym same) (inl s, inl refl, p)
        ]
      ]

  All-Consistent : (es : List A) (o : Option (A × A)) → Found (λ k. none) es o → Verdict es o
  All-Consistent es none (h, c) = c
  All-Consistent es (some (a, b)) (inl n, y, z) = cc n
  All-Consistent es (some (a, b)) (inr (h, p), y, z) = (h, y, p, z)

  -- Without a conflict, no two elements of the same key differ; a conflict is two that do.
  pub first_conflict-Verdict : (es : List A) → Verdict es (first_conflict key value (λ k. none) es)
  first_conflict-Verdict es =
      All-Consistent es (first_conflict key value (λ k. none) es)
        (first_conflict-Found (λ k. none) es)

-- A report names the key of both, and what each of them has, the one seen first first.
abbrev pub ReportsTypes : TypeConflict → TypeEntry → TypeEntry → Type 0
ReportsTypes c a b =
    (c.name ≡ a.name)
    × (c.name ≡ b.name)
    × (c.first_namespace ≡ a.namespace)
    × (c.second_namespace ≡ b.namespace)
    × (c.first_kind ≡ a.kind)
    × (c.second_kind ≡ b.kind)

abbrev pub ReportsRoutes : RouteConflict → RouteInfo → RouteInfo → Type 0
ReportsRoutes c a b =
    (c.path ≡ a.path)
    × (c.path ≡ b.path)
    × (c.method ≡ a.method)
    × (c.method ≡ b.method)
    × (c.first_request ≡ a.request_type)
    × (c.first_response ≡ a.response_type)
    × (c.second_request ≡ b.request_type)
    × (c.second_response ≡ b.response_type)

-- Accepted registries have no name in two namespaces; a conflict is of two registered entries.
abbrev pub TypeVerdict : List TypeEntry → Result {0, 0} TypeConflict Unit → Type 0
TypeVerdict entries (ok u) = Consistent type_name type_namespace entries
TypeVerdict entries (err c) =
    (a : TypeEntry) × (b : TypeEntry) × ReportsTypes c a b
    × Verdict type_name type_namespace entries (some (a, b))

abbrev pub RouteVerdict : List RouteInfo → Result {0, 0} RouteConflict Unit → Type 0
RouteVerdict routes (ok u) = Consistent route_key route_types routes
RouteVerdict routes (err c) =
    (a : RouteInfo) × (b : RouteInfo) × ReportsRoutes c a b
    × Verdict route_key route_types routes (some (a, b))

-- The validation accepts the registered names only if no name stands in two namespaces, and
-- otherwise reports the name, namespaces and kinds of two registered entries that share a name and
-- not a namespace.
pub find_name_collision-Verdict :
    (entries : List TypeEntry) → TypeVerdict entries (find_name_collision entries)
unfolding find_name_collision
find_name_collision-Verdict entries =
    let found = first_conflict type_name type_namespace (λ name. none) entries in
    let v = first_conflict-Verdict type_name type_namespace entries in
    elim (Option-cases found) [
      | inl n ↦
          let same : find_name_collision entries ≡ ok tt = simp (find_name_collision, n) in
          subst (TypeVerdict entries) (sym same)
            (subst (Verdict type_name type_namespace entries) n v)
      | inr ((a, b), s) ↦
          let same : find_name_collision entries ≡ err (type_conflict a b) =
            simp (find_name_collision, s) in
          subst (TypeVerdict entries) (sym same) (
            let (x, y, k, n) = subst (Verdict type_name type_namespace entries) s v in
            (a, b, (sym k, refl, refl, refl, refl, refl), (x, y, k, n)))
    ]

-- The validation accepts the routes only if no two with the same path and method differ in their
-- request or response types, and otherwise reports the path and method of two registered routes
-- that share them, with the request and response types of the one and of the other, which differ.
pub validate_routes-Verdict :
    (routes : List RouteInfo) → RouteVerdict routes (validate_routes routes)
unfolding validate_routes
validate_routes-Verdict routes =
    let found = first_conflict route_key route_types (λ key. none) routes in
    let v = first_conflict-Verdict route_key route_types routes in
    elim (Option-cases found) [
      | inl n ↦
          let same : validate_routes routes ≡ ok tt = simp (validate_routes, n) in
          subst (RouteVerdict routes) (sym same) (subst (Verdict route_key route_types routes) n v)
      | inr ((a, b), s) ↦
          let same : validate_routes routes ≡ err (route_conflict a b) =
            simp (validate_routes, s) in
          subst (RouteVerdict routes) (sym same) (
            let (x, y, k, n) = subst (Verdict route_key route_types routes) s v in
            let path = ap (λ q. q.0) (sym k) in
            let method = ap (λ q. q.1) (sym k) in
            (a, b, (path, refl, method, refl, refl, refl, refl, refl), (x, y, k, n)))
    ]
