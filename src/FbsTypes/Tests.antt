-- ===== src/FbsTypes/Tests.antt =====
-- reflection.rs, fbs_types.rs: small runs, and the theorem at a concrete schema.
use flatbed.Base.{◌≡◌, refl, some, List, [], ◌∷◌, Text, codes, ok, err}
use flatbed.FbsTypes.{
  ReflectedSchema, ReflectedType, vector, object, int, bare_name, unknown_field,
  fbs_type_to_rust_type, fbs_type_to_rust_serde, is_vector_type, vector_inner_type, scalar_type,
  reflection_type_to_fbs_string, scalar_or_obj_to_fbs_string,
}
use flatbed.FbsTypes.Kinds.{IsName, vector_of, table_named}
use flatbed.FbsTypes.Reflected.{IsNamed}
use flatbed.FbsTypes.Classified.{IsClassified, reflection_type-IsClassified}

abbrev schema : ReflectedSchema
schema = record { objects = codes "v.Address" ∷ []; enums = codes "v.a.Level" ∷ [] }

abbrev addresses : ReflectedType
addresses = record { base_type = vector; element = object; index = some 0 }

abbrev tables : List Text
tables = codes "Address" ∷ []

abbrev enums : List Text
enums = codes "Level" ∷ []

level_run :
    reflection_type_to_fbs_string schema (record { base_type = int; element = int; index = some 0 })
    ≡ ok (codes "Level")
unfolding reflection_type_to_fbs_string scalar_or_obj_to_fbs_string bare_name
level_run = refl

unknown_run :
    fbs_type_to_rust_type (codes "Levell") tables enums ≡ err (unknown_field (codes "Levell"))
unfolding fbs_type_to_rust_type fbs_type_to_rust_serde is_vector_type vector_inner_type scalar_type
unknown_run = refl

address-IsName : IsName (codes "Address")
unfolding scalar_type
address-IsName = record { no_scalar = refl; no_string = refl; no_start = refl; no_end = refl }

level-IsName : IsName (codes "Level")
unfolding scalar_type
level-IsName = record { no_scalar = refl; no_string = refl; no_start = refl; no_end = refl }

schema-IsNamed : IsNamed schema tables enums
unfolding bare_name
schema-IsNamed = record {
  objects_named = ((address-IsName, refl), tt);
  enums_named = ((level-IsName, refl, refl), tt);
}

reflection_type-IsClassified_example :
    (reflection_type_to_fbs_string schema addresses ≡ ok (codes "[Address]"))
    × IsClassified schema tables enums
        (codes "[Address]")
        (vector_of (table_named (codes "Address")))
unfolding bare_name
reflection_type-IsClassified_example =
    reflection_type-IsClassified schema tables enums addresses
      (vector_of (table_named (codes "Address"))) schema-IsNamed refl
