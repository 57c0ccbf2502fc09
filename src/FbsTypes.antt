-- ===== src/FbsTypes.antt =====
-- crates/flatbed_build/src/reflection.rs: the name that a reflected type is given; fbs_types.rs: the Rust
-- type that a name becomes. The reflection of a schema is read by the crate flatbuffers; a text is its
-- UTF-8 bytes.
pub mod Kinds
mod RustTypes
mod Reflected
pub mod Classified
mod Tests
use flatbed.Base.{
  ℕ, Bool, true, false, not, Option, none, some, List, [], ◌∷◌, ◌++◌, ◌&&◌, ◌||◌, ◌==◌, number_keys,
  list_keys, if◌then◌else◌, Text, codes, one_of, starts_with, ends_with, trim_start, trim_end,
  is_empty, dot, get_elem?, Result, ok, err,
}

pub data BaseType : Type 0 where
  no_type union_tag bool byte ubyte short ushort int uint long ulong float double text vector object
        union array vector64 :
      BaseType

-- `index` is none where it is negative.
pub record ReflectedType : Type 0 where
  pub base_type : BaseType
  pub element : BaseType
  pub index : Option ℕ

-- The qualified names of the tables and the enums of a schema.
pub record ReflectedSchema : Type 0 where
  pub objects : List Text
  pub enums : List Text

pub data Panic : Type 0 where
  out_of_range : Panic
  unsupported_base : BaseType → Panic
  unknown_field unsupported_element : (name : Text) → Panic

-- What stands after the last dot.
abbrev pub after_dot : Text → Option Text
after_dot [] = none
after_dot (c ∷ cs) = elim (after_dot cs) [
  | some t ↦ some t
  | none ↦ if c == dot then some cs else none
]

abbrev pub or_whole : Option Text → Text → Text
or_whole (some t) whole = t
or_whole none whole = whole

unfoldable pub bare_name : Text → Text
bare_name qualified = or_whole (after_dot qualified) qualified

abbrev pub is_integer_base : BaseType → Bool
is_integer_base byte = true
is_integer_base ubyte = true
is_integer_base short = true
is_integer_base ushort = true
is_integer_base int = true
is_integer_base uint = true
is_integer_base long = true
is_integer_base ulong = true
is_integer_base _ = false

abbrev pub bare_found : Option Text → Result {0, 0} Panic Text
unfolding bare_name
bare_found none = err out_of_range
bare_found (some qualified) = ok (bare_name qualified)

abbrev pub named_in : List Text → Option ℕ → Result {0, 0} Panic Text
unfolding bare_found
named_in names none = err out_of_range
named_in names (some i) = bare_found (get_elem? names i)

abbrev pub base_string : ReflectedSchema → BaseType → Option ℕ → Result {0, 0} Panic Text
base_string schema bool index = ok (codes "bool")
base_string schema byte index = ok (codes "int8")
base_string schema ubyte index = ok (codes "uint8")
base_string schema short index = ok (codes "int16")
base_string schema ushort index = ok (codes "uint16")
base_string schema int index = ok (codes "int32")
base_string schema uint index = ok (codes "uint32")
base_string schema long index = ok (codes "int64")
base_string schema ulong index = ok (codes "uint64")
base_string schema float index = ok (codes "float32")
base_string schema double index = ok (codes "float64")
base_string schema text index = ok (codes "string")
base_string schema object index = named_in schema.objects index
base_string schema no_type index = err (unsupported_base no_type)
base_string schema union_tag index = err (unsupported_base union_tag)
base_string schema vector index = err (unsupported_base vector)
base_string schema union index = err (unsupported_base union)
base_string schema array index = err (unsupported_base array)
base_string schema vector64 index = err (unsupported_base vector64)

-- An integer with an index is of an enum.
unfoldable pub scalar_or_obj_to_fbs_string :
    ReflectedSchema → BaseType → Option ℕ → Result {0, 0} Panic Text
scalar_or_obj_to_fbs_string schema base none = base_string schema base none
scalar_or_obj_to_fbs_string schema base (some i) =
    if is_integer_base base
    then named_in schema.enums (some i)
    else base_string schema base (some i)

abbrev pub bracketed : Text → Text
bracketed name = 91 ∷ (name ++ 93 ∷ [])

abbrev pub bracket : Result {0, 0} Panic Text → Result {0, 0} Panic Text
bracket (ok name) = ok (bracketed name)
bracket (err e) = err e

abbrev pub by_base :
    BaseType → (vector union other : Result {0, 0} Panic Text) → Result {0, 0} Panic Text
by_base vector v u o = v
by_base union v u o = u
by_base _ v u o = o

unfoldable pub reflection_type_to_fbs_string :
    ReflectedSchema → ReflectedType → Result {0, 0} Panic Text
unfolding scalar_or_obj_to_fbs_string
reflection_type_to_fbs_string schema ty =
    by_base ty.base_type (bracket (scalar_or_obj_to_fbs_string schema ty.element ty.index))
      (named_in schema.enums ty.index) (scalar_or_obj_to_fbs_string schema ty.base_type ty.index)

abbrev pub words : List (Text × Text)
words =
    (codes "bool", codes "bool")
    ∷ (codes "byte", codes "i8")
    ∷ (codes "int8", codes "i8")
    ∷ (codes "ubyte", codes "u8")
    ∷ (codes "uint8", codes "u8")
    ∷ (codes "short", codes "i16")
    ∷ (codes "int16", codes "i16")
    ∷ (codes "ushort", codes "u16")
    ∷ (codes "uint16", codes "u16")
    ∷ (codes "int", codes "i32")
    ∷ (codes "int32", codes "i32")
    ∷ (codes "uint", codes "u32")
    ∷ (codes "uint32", codes "u32")
    ∷ (codes "long", codes "i64")
    ∷ (codes "int64", codes "i64")
    ∷ (codes "ulong", codes "u64")
    ∷ (codes "uint64", codes "u64")
    ∷ (codes "float", codes "f32")
    ∷ (codes "float32", codes "f32")
    ∷ (codes "double", codes "f64")
    ∷ (codes "float64", codes "f64")
    ∷ []

abbrev pub word_in : Text → List (Text × Text) → Option Text
word_in name [] = none
word_in name ((word, rust) ∷ rest) = if word == name then some rust else word_in name rest

-- The Rust type of a scalar.
unfoldable pub scalar_type : Text → Option Text
scalar_type name = word_in name words

abbrev pub or_nothing : Option Text → Text
or_nothing none = []
or_nothing (some t) = t

abbrev pub vec_of : Text → Text
vec_of inner = codes "Option<Vec<" ++ (inner ++ codes ">>")

abbrev pub option_of : Text → Text
option_of inner = codes "Option<" ++ (inner ++ codes ">")

unfoldable pub is_vector_type : Text → Bool
is_vector_type fbs = starts_with 91 fbs && ends_with 93 fbs

unfoldable pub vector_inner_type : Text → Text
vector_inner_type fbs = trim_end 93 (trim_start 91 fbs)

abbrev pub vec_found : Option Text → Text
vec_found none = []
vec_found (some rust) = vec_of rust

unfoldable pub fbs_type_to_rust_serde : Text → Text
unfolding is_vector_type vector_inner_type scalar_type
fbs_type_to_rust_serde fbs =
    let inner = vector_inner_type fbs in
    if is_vector_type fbs
    then (if inner == codes "string"
        then vec_of (codes "String")
        else vec_found (scalar_type inner))
    else (if fbs == codes "string"
        then option_of (codes "String")
        else or_nothing (scalar_type fbs))

module _ (fbs : Text) (table_names enum_names : List Text) where
  abbrev pub vector_type : Result {0, 0} Panic Text
  unfolding vector_inner_type
  vector_type =
      let inner = vector_inner_type fbs in
      if one_of inner table_names
      then ok (vec_of inner)
      else (if one_of inner enum_names then ok (vec_of inner) else err (unsupported_element inner))

  abbrev pub single_type : Result {0, 0} Panic Text
  single_type =
      if one_of fbs table_names
      then ok (option_of fbs)
      else (if one_of fbs enum_names then ok fbs else err (unknown_field fbs))

  unfoldable pub fbs_type_to_rust_type : Result {0, 0} Panic Text
  unfolding fbs_type_to_rust_serde is_vector_type vector_type
  fbs_type_to_rust_type =
      if is_empty (fbs_type_to_rust_serde fbs)
      then (if is_vector_type fbs then vector_type else single_type)
      else ok (fbs_type_to_rust_serde fbs)

module _ (fbs : Text) (names : List Text) where
  -- `is_table_type` and `is_enum_type`, of the names of tables and of enums.
  unfoldable pub is_named_type : Bool
  unfolding fbs_type_to_rust_serde is_vector_type
  is_named_type =
      is_empty (fbs_type_to_rust_serde fbs) && (not (is_vector_type fbs) && one_of fbs names)

  -- `is_table_vector` and `is_enum_vector`.
  unfoldable pub is_named_vector : Bool
  unfolding is_vector_type vector_inner_type
  is_named_vector = is_vector_type fbs && one_of (vector_inner_type fbs) names

unfoldable pub is_optional_type : Text → Bool
unfolding is_vector_type
is_optional_type fbs = (fbs == codes "string") || is_vector_type fbs
