-- ===== src/FbsTypes/Classified.antt =====
-- reflection.rs, fbs_types.rs: the Rust type of a reflected type, through the name that stands for it.
use flatbed.Base.{
  ℕ, ◌≡◌, refl, ap, subst, ◌∙◌, Bool, true, false, not, Option, none, some, List, ◌&&◌, ◌==◌,
  number_keys, list_keys, Text, codes, one_of, starts_with, is_empty, Result, ok,
}
use flatbed.FbsTypes.{
  BaseType, vector, union, ReflectedType, ReflectedSchema, Panic, named_in,
  scalar_or_obj_to_fbs_string, bracketed, bracket, by_base, reflection_type_to_fbs_string,
  is_vector_type, fbs_type_to_rust_serde, fbs_type_to_rust_type, is_named_type, is_optional_type,
}
use flatbed.FbsTypes.Kinds.{
  IsKind, IsName, Kind, Shape, name_of, rust_of, scalar, shape_name, string, scalar, string,
  enum_named, table_named, one, vector_of,
}
use flatbed.FbsTypes.RustTypes.{
  bracketed_vector, plain_single, serde_single, single_rust, string_serde, vector_rust,
}
use flatbed.FbsTypes.Reflected.{
  IsNamed, Means, and_false, element-Means, element_kind, or_true, some_shape,
}

module _ (schema : ReflectedSchema) (tables enums : List Text) where
  abbrev map_shape : (Kind → Shape) → Option Kind → Option Shape
  map_shape f none = none
  map_shape f (some k) = some (f k)

  abbrev shape_at : BaseType → (element own : Option Kind) → Option Shape
  shape_at vector element own = map_shape vector_of element
  shape_at union element own = none
  shape_at _ element own = map_shape one own

  -- What a reflected type is; a union is none.
  abbrev pub shape_of : ReflectedType → Option Shape
  shape_of ty =
      shape_at ty.base_type (element_kind schema ty.element ty.index)
        (element_kind schema ty.base_type ty.index)

  abbrev pub is_optional : Shape → Bool
  is_optional (one string) = true
  is_optional (one (scalar word rust)) = false
  is_optional (one (enum_named name)) = false
  is_optional (one (table_named name)) = false
  is_optional (vector_of k) = true

  abbrev pub is_table : Shape → Bool
  is_table (one (table_named name)) = true
  is_table (one string) = false
  is_table (one (scalar word rust)) = false
  is_table (one (enum_named name)) = false
  is_table (vector_of k) = false

  -- What the code generator takes a name for.
  pub record IsClassified (fbs : Text) (sh : Shape) : Type 0 where
    pub rust_type : fbs_type_to_rust_type fbs tables enums ≡ ok (rust_of sh)
    pub optional : is_optional_type fbs ≡ is_optional sh
    pub table : is_named_type fbs tables ≡ is_table sh

  serde_table :
      (fbs serde : Text)
      → fbs_type_to_rust_serde fbs ≡ serde
      → is_empty serde ≡ false
      → is_named_type fbs tables ≡ false
  unfolding is_named_type
  serde_table fbs serde e h = rw (e, h)

  name_table : (n : Text) → IsName n → is_named_type n tables ≡ one_of n tables
  unfolding is_named_type
  name_table n h =
      rw (serde_single n none h.no_start h.no_string h.no_scalar, plain_single n h.no_start)

  vector_table : (n : Text) → is_named_type (bracketed n) tables ≡ false
  unfolding is_named_type
  vector_table n =
      ap
        (λ v.
          is_empty (fbs_type_to_rust_serde (bracketed n)) && (not v && one_of (bracketed n) tables))
        (bracketed_vector n)
      ∙ and_false (is_empty (fbs_type_to_rust_serde (bracketed n)))

  single_optional :
      (n : Text)
      → starts_with 91 n ≡ false
      → (n == codes "string") ≡ false
      → is_optional_type n ≡ false
  unfolding is_optional_type
  single_optional n h s = rw (plain_single n h, s)

  vector_optional : (n : Text) → is_optional_type (bracketed n) ≡ true
  unfolding is_optional_type
  vector_optional n = rw (bracketed_vector n, or_true (bracketed n == codes "string"))

  one-IsClassified : (k : Kind) → IsKind tables enums k → IsClassified (name_of k) (one k)
  unfolding is_optional_type is_vector_type
  one-IsClassified (scalar w r) h = record {
    rust_type = single_rust tables enums (scalar w r) h;
    optional = single_optional w h.opens h.no_text;
    table = serde_table w r (serde_single w (some r) h.opens h.no_text h.found) h.has_rust;
  }
  one-IsClassified string h = record {
    rust_type = single_rust tables enums string h;
    optional = refl;
    table = serde_table (codes "string") (codes "Option<String>") string_serde refl;
  }
  one-IsClassified (enum_named n) (h, a, b) = record {
    rust_type = single_rust tables enums (enum_named n) (h, a, b);
    optional = single_optional n h.no_start h.no_string;
    table = name_table n h ∙ a;
  }
  one-IsClassified (table_named n) (h, a) = record {
    rust_type = single_rust tables enums (table_named n) (h, a);
    optional = single_optional n h.no_start h.no_string;
    table = name_table n h ∙ a;
  }

  vector-IsClassified :
      (k : Kind) → IsKind tables enums k → IsClassified (bracketed (name_of k)) (vector_of k)
  vector-IsClassified k h = record {
    rust_type = vector_rust tables enums k h;
    optional = vector_optional (name_of k);
    table = vector_table (name_of k);
  }

  abbrev IsRead : Result {0, 0} Panic Text → Shape → Type 0
  IsRead r sh = (r ≡ ok (shape_name sh)) × IsClassified (shape_name sh) sh

  one-IsRead :
      (r : Result {0, 0} Panic Text) (o : Option Kind) (sh : Shape)
      → ((k : Kind) → o ≡ some k → Means tables enums r k)
      → map_shape one o ≡ some sh
      → IsRead r sh
  one-IsRead r none sh means h = cc h
  one-IsRead r (some k) sh means h =
      let (e, is_kind) = means k refl in
      subst (IsRead r) (some_shape (one k) sh h) (e, one-IsClassified k is_kind)

  vector-IsRead :
      (r : Result {0, 0} Panic Text) (o : Option Kind) (sh : Shape)
      → ((k : Kind) → o ≡ some k → Means tables enums r k)
      → map_shape vector_of o ≡ some sh
      → IsRead (bracket r) sh
  vector-IsRead r none sh means h = cc h
  vector-IsRead r (some k) sh means h =
      let (e, is_kind) = means k refl in
      subst (IsRead (bracket r)) (some_shape (vector_of k) sh h)
        (ap bracket e, vector-IsClassified k is_kind)

  shape-IsRead :
      (base element : BaseType) (index : Option ℕ) (sh : Shape)
      → IsNamed schema tables enums
      → shape_at base (element_kind schema element index) (element_kind schema base index) ≡ some sh
      → IsRead
          (by_base base
            (bracket (scalar_or_obj_to_fbs_string schema element index))
            (named_in schema.enums index)
            (scalar_or_obj_to_fbs_string schema base index))
          sh
  shape-IsRead vector element index sh good h =
      vector-IsRead _ (element_kind schema element index) sh
        (λ k e. element-Means schema tables enums element index k good e) h
  shape-IsRead union element index sh good h = cc h
  shape-IsRead base element index sh good h =
      one-IsRead _ (element_kind schema base index) sh
        (λ k e. element-Means schema tables enums base index k good e) h

  -- Where the bare names of the tables and enums of a schema are no words of FlatBuffers, stand in
  -- no brackets, are known to the code generator and no enum has the name of a table, every
  -- reflected type that is a scalar, a string, an enum, a table or a vector of one of these is
  -- given a name which the code generator reads back as exactly that: its Rust type is the scalar,
  -- the enum, an optional string or table, or an optional vector, and it is taken for optional
  -- exactly where it is a string or a vector, and for a table exactly where it is one.
  pub reflection_type-IsClassified :
      (ty : ReflectedType) (sh : Shape)
      → IsNamed schema tables enums
      → shape_of ty ≡ some sh
      → (reflection_type_to_fbs_string schema ty ≡ ok (shape_name sh))
        × IsClassified (shape_name sh) sh
  unfolding reflection_type_to_fbs_string
  reflection_type-IsClassified ty sh good h =
      shape-IsRead ty.base_type ty.element ty.index sh good h
