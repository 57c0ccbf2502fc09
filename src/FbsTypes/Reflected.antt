-- ===== src/FbsTypes/Reflected.antt =====
-- reflection.rs: the name of what a reflected type is.
use flatbed.Base.{
  ℕ, zero, suc, ◌≡◌, refl, sym, ap, subst, Bool, true, false, Option, none, some, List, [], ◌∷◌,
  ◌&&◌, ◌||◌, ◌==◌, number_keys, list_keys, if◌then◌else◌, Text, codes, one_of, starts_with,
  ends_with, is_empty, Bool-cases, get_elem?, Result, ok, All, inl, inr,
}
use flatbed.FbsTypes.{
  BaseType, bool, byte, ubyte, short, ushort, int, uint, long, ulong, float, double, text, object,
  ReflectedSchema, Panic, bare_name, is_integer_base, named_in, bare_found, base_string,
  scalar_or_obj_to_fbs_string, scalar_type,
}
use flatbed.FbsTypes.Kinds.{
  IsKind, IsName, IsScalar, Kind, Shape, base_kind, name_of, scalar, string, scalar, string,
  enum_named, table_named,
}

-- The names of a schema, where no two kinds of types share one.
pub record IsNamed (schema : ReflectedSchema) (tables enums : List Text) : Type 0 where
  pub objects_named :
      All (λ q. IsName (bare_name q) × (one_of (bare_name q) tables ≡ true)) schema.objects
  pub enums_named :
      All
        (λ q.
          IsName (bare_name q)
          × (one_of (bare_name q) tables ≡ false)
          × (one_of (bare_name q) enums ≡ true))
        schema.enums

abbrev pub kind_found : (Text → Kind) → Option Text → Option Kind
kind_found named none = none
kind_found named (some qualified) = some (named (bare_name qualified))

abbrev pub kind_named : (Text → Kind) → List Text → ℕ → Option Kind
kind_named named names i = kind_found named (get_elem? names i)

abbrev pub is_object : BaseType → Bool
is_object object = true
is_object _ = false

-- What a base type with an index stands for; an integer with one is of an enum.
abbrev pub element_kind : ReflectedSchema → BaseType → Option ℕ → Option Kind
element_kind schema base none = base_kind base
element_kind schema base (some i) =
    if is_integer_base base
    then kind_named enum_named schema.enums i
    else (if is_object base then kind_named table_named schema.objects i else base_kind base)

abbrev pub Means : (tables enums : List Text) → Result {0, 0} Panic Text → Kind → Type 0
Means tables enums r k = (r ≡ ok (name_of k)) × IsKind tables enums k

pub some_kind : (a k : Kind) → some a ≡ some k → a ≡ k
some_kind a k h = cc h

pub some_shape : (a k : Shape) → some a ≡ some k → a ≡ k
some_shape a k h = cc h

pub some_text : (a k : Text) → some a ≡ some k → a ≡ k
some_text a k h = cc h

pub known :
    {w r : Text}
    → scalar_type w ≡ some r
    → (w == codes "string") ≡ false
    → starts_with 91 w ≡ false
    → ends_with 93 w ≡ false
    → is_empty r ≡ false
    → IsScalar w r
known a b c d e = record { found = a; no_text = b; opens = c; closes = d; has_rust = e }

pub from_some :
    (tables enums : List Text) (r : Result {0, 0} Panic Text) (a k : Kind)
    → some a ≡ some k
    → Means tables enums r a
    → Means tables enums r k
from_some tables enums r a k h m = subst (Means tables enums r) (some_kind a k h) m

pub get-All :
    (P : Text → Type 0) (names : List Text) (i : ℕ) (q : Text)
    → All P names
    → get_elem? names i ≡ some q
    → P q
get-All P [] i q h e = cc e
get-All P (x ∷ xs) zero q (p, h) e = subst P (some_text x q e) p
get-All P (x ∷ xs) (suc i) q (p, h) e = get-All P xs i q h e

pub and_false : (b : Bool) → (b && false) ≡ false
and_false true = refl
and_false false = refl

pub or_true : (b : Bool) → (b || true) ≡ true
or_true true = refl
or_true false = refl

module _ (schema : ReflectedSchema) (tables enums : List Text) where
  pub scalar-Means :
      (index : Option ℕ) (base : BaseType) (k : Kind)
      → base_kind base ≡ some k
      → Means tables enums (base_string schema base index) k
  unfolding scalar_type
  scalar-Means index bool k h =
      from_some tables enums _ (scalar (codes "bool") (codes "bool")) k h
        (refl, known refl refl refl refl refl)
  scalar-Means index byte k h =
      from_some tables enums _ (scalar (codes "int8") (codes "i8")) k h
        (refl, known refl refl refl refl refl)
  scalar-Means index ubyte k h =
      from_some tables enums _ (scalar (codes "uint8") (codes "u8")) k h
        (refl, known refl refl refl refl refl)
  scalar-Means index short k h =
      from_some tables enums _ (scalar (codes "int16") (codes "i16")) k h
        (refl, known refl refl refl refl refl)
  scalar-Means index ushort k h =
      from_some tables enums _ (scalar (codes "uint16") (codes "u16")) k h
        (refl, known refl refl refl refl refl)
  scalar-Means index int k h =
      from_some tables enums _ (scalar (codes "int32") (codes "i32")) k h
        (refl, known refl refl refl refl refl)
  scalar-Means index uint k h =
      from_some tables enums _ (scalar (codes "uint32") (codes "u32")) k h
        (refl, known refl refl refl refl refl)
  scalar-Means index long k h =
      from_some tables enums _ (scalar (codes "int64") (codes "i64")) k h
        (refl, known refl refl refl refl refl)
  scalar-Means index ulong k h =
      from_some tables enums _ (scalar (codes "uint64") (codes "u64")) k h
        (refl, known refl refl refl refl refl)
  scalar-Means index float k h =
      from_some tables enums _ (scalar (codes "float32") (codes "f32")) k h
        (refl, known refl refl refl refl refl)
  scalar-Means index double k h =
      from_some tables enums _ (scalar (codes "float64") (codes "f64")) k h
        (refl, known refl refl refl refl refl)
  scalar-Means index text k h = from_some tables enums _ string k h (refl, tt)
  scalar-Means index _ k h = cc h

  pub found-Means :
      (named : Text → Kind) (q : Option Text) (k : Kind)
      → ((n : Text) → name_of (named n) ≡ n)
      → ((n : Text) → q ≡ some n → IsKind tables enums (named (bare_name n)))
      → kind_found named q ≡ some k
      → Means tables enums (bare_found q) k
  unfolding bare_found
  found-Means named none k same good h = cc h
  found-Means named (some n) k same good h =
      from_some tables enums _ (named (bare_name n)) k h
        (ap ok (sym (same (bare_name n))), good n refl)

  pub named-Means :
      (named : Text → Kind) (names : List Text) (i : ℕ) (k : Kind)
      → ((n : Text) → name_of (named n) ≡ n)
      → All (λ q. IsKind tables enums (named (bare_name q))) names
      → kind_named named names i ≡ some k
      → Means tables enums (named_in names (some i)) k
  unfolding named_in
  named-Means named names i k same all h =
      found-Means named (get_elem? names i) k same
        (λ n e. get-All (λ p. IsKind tables enums (named (bare_name p))) names i n all e) h

  pub object_only :
      (base : BaseType) (index : Option ℕ)
      → is_object base ≡ true
      → base_string schema base index ≡ named_in schema.objects index
  object_only object index h = refl
  object_only _ index h = cc h

  pub element-Means :
      (base : BaseType) (index : Option ℕ) (k : Kind)
      → IsNamed schema tables enums
      → element_kind schema base index ≡ some k
      → Means tables enums (scalar_or_obj_to_fbs_string schema base index) k
  unfolding scalar_or_obj_to_fbs_string
  element-Means base none k good h = scalar-Means none base k h
  element-Means base (some i) k good h = elim (Bool-cases (is_integer_base base)) [
    | inl e ↦
        rw e (named-Means enum_named schema.enums i k (λ n. refl) good.enums_named (rw e at h))
    | inr e ↦ elim (Bool-cases (is_object base)) [
      | inl f ↦
          rw (e, object_only base (some i) f)
            (named-Means table_named schema.objects i k (λ n. refl) good.objects_named
              (rw (e, f) at h))
      | inr f ↦ rw e (scalar-Means (some i) base k (rw (e, f) at h))
    ]
  ]
