-- ===== src/FbsTypes/Kinds.antt =====
-- reflection.rs, fbs_types.rs: what a reflected type can be, and the names and Rust types of that.
use flatbed.Base.{
  ◌≡◌, true, false, Option, none, some, List, ◌==◌, number_keys, list_keys, Text, codes, one_of,
  starts_with, ends_with, is_empty,
}
use flatbed.FbsTypes.{
  BaseType, bool, byte, ubyte, short, ushort, int, uint, long, ulong, float, double, text,
  bracketed, scalar_type, vec_of, option_of,
}

-- What a type that is no vector is: a scalar of Rust, a string, or an enum or table by its name.
pub data Kind : Type 0 where
  scalar : (word rust : Text) → Kind
  string : Kind
  enum_named table_named : (name : Text) → Kind

pub data Shape : Type 0 where
  one vector_of : Kind → Shape

abbrev pub base_kind : BaseType → Option Kind
base_kind bool = some (scalar (codes "bool") (codes "bool"))
base_kind byte = some (scalar (codes "int8") (codes "i8"))
base_kind ubyte = some (scalar (codes "uint8") (codes "u8"))
base_kind short = some (scalar (codes "int16") (codes "i16"))
base_kind ushort = some (scalar (codes "uint16") (codes "u16"))
base_kind int = some (scalar (codes "int32") (codes "i32"))
base_kind uint = some (scalar (codes "uint32") (codes "u32"))
base_kind long = some (scalar (codes "int64") (codes "i64"))
base_kind ulong = some (scalar (codes "uint64") (codes "u64"))
base_kind float = some (scalar (codes "float32") (codes "f32"))
base_kind double = some (scalar (codes "float64") (codes "f64"))
base_kind text = some string
base_kind _ = none

abbrev pub name_of : Kind → Text
name_of (scalar word rust) = word
name_of string = codes "string"
name_of (enum_named name) = name
name_of (table_named name) = name

abbrev pub rust_of : Shape → Text
rust_of (one (scalar word rust)) = rust
rust_of (one string) = codes "Option<String>"
rust_of (one (enum_named name)) = name
rust_of (one (table_named name)) = option_of name
rust_of (vector_of (scalar word rust)) = vec_of rust
rust_of (vector_of string) = codes "Option<Vec<String>>"
rust_of (vector_of (enum_named name)) = vec_of name
rust_of (vector_of (table_named name)) = vec_of name

abbrev pub shape_name : Shape → Text
shape_name (one k) = name_of k
shape_name (vector_of k) = bracketed (name_of k)

-- A name that is neither a word of FlatBuffers nor in brackets.
pub record IsName (name : Text) : Type 0 where
  pub no_scalar : scalar_type name ≡ none
  pub no_string : (name == codes "string") ≡ false
  pub no_start : starts_with 91 name ≡ false
  pub no_end : ends_with 93 name ≡ false

pub record IsScalar (word rust : Text) : Type 0 where
  pub found : scalar_type word ≡ some rust
  pub no_text : (word == codes "string") ≡ false
  pub opens : starts_with 91 word ≡ false
  pub closes : ends_with 93 word ≡ false
  pub has_rust : is_empty rust ≡ false

abbrev pub IsKind : (tables enums : List Text) → Kind → Type 0
IsKind tables enums (scalar word rust) = IsScalar word rust
IsKind tables enums string = Unit
IsKind tables enums (enum_named name) =
    IsName name × (one_of name tables ≡ false) × (one_of name enums ≡ true)
IsKind tables enums (table_named name) = IsName name × (one_of name tables ≡ true)
