-- ===== src/Registry/Tests.antt =====
-- lib.rs: the validations at small registries.
use flatbed.Base.{◌≡◌, refl, [], ◌∷◌, codes, ok, err}
use flatbed.Registry.{
  get, TypeEntry, type_conflict, RouteInfo, first_conflict, find_name_collision, validate_routes,
}
use flatbed.Registry.Conflicts.{RouteVerdict, validate_routes-Verdict}

abbrev old_foo : TypeEntry
old_foo = record { name = codes "Foo"; namespace = codes "v_1"; kind = codes "enum" }

abbrev new_foo : TypeEntry
new_foo = record { name = codes "Foo"; namespace = codes "v_2"; kind = codes "union" }

shared_name :
    find_name_collision (old_foo ∷ old_foo ∷ new_foo ∷ []) ≡ err (type_conflict old_foo new_foo)
unfolding find_name_collision first_conflict
shared_name = refl

abbrev users : RouteInfo
users = record {
  path = codes "/users";
  method = get;
  request_type = codes "Query";
  response_type = codes "Users";
}

-- The same route twice is accepted, as long as the types are the same.
twice : validate_routes (users ∷ users ∷ []) ≡ ok tt
unfolding validate_routes first_conflict
twice = refl

validate_routes-Verdict_example :
    RouteVerdict (users ∷ users ∷ []) (validate_routes (users ∷ users ∷ []))
validate_routes-Verdict_example = validate_routes-Verdict (users ∷ users ∷ [])
