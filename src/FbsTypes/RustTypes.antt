-- ===== src/FbsTypes/RustTypes.antt =====
-- fbs_types.rs: the Rust type of a name, in brackets or not.
use flatbed.Base.{
  ℕ, ◌≡◌, refl, ap, ◌∙◌, true, false, Option, none, some, List, [], ◌∷◌, ◌++◌, ◌==◌, number_keys,
  list_keys, if◌then◌else◌, Text, codes, starts_with, ends_with, trim_start, trim_end, is_empty, ok,
}
use flatbed.FbsTypes.{
  bracketed, scalar_type, vec_of, is_vector_type, vector_inner_type, vec_found, or_nothing,
  fbs_type_to_rust_serde, fbs_type_to_rust_type, vector_type, single_type,
}
use flatbed.FbsTypes.Kinds.{
  IsKind, IsName, Kind, name_of, rust_of, scalar, string, scalar, string, enum_named, table_named,
  one, vector_of,
}

pub starts_with-trim : (c : ℕ) (t : Text) → starts_with c t ≡ false → trim_start c t ≡ t
starts_with-trim c [] h = refl
starts_with-trim c (x ∷ xs) h = rw h

pub starts_with-close :
    (n : Text) → starts_with 91 n ≡ false → starts_with 91 (n ++ 93 ∷ []) ≡ false
starts_with-close [] h = refl
starts_with-close (x ∷ xs) h = h

pub ends_with-trim : (n : Text) → ends_with 93 n ≡ false → trim_end 93 (n ++ 93 ∷ []) ≡ n
ends_with-trim [] h = refl
ends_with-trim (x ∷ []) h = rw h
ends_with-trim (x ∷ y ∷ xs) h = rw (ends_with-trim (y ∷ xs) h)

pub ends_with-close : (c : ℕ) (n : Text) → ends_with 93 (c ∷ (n ++ 93 ∷ [])) ≡ true
ends_with-close c [] = refl
ends_with-close c (x ∷ xs) = ends_with-close x xs

pub inner_back :
    (n : Text)
    → starts_with 91 n ≡ false
    → ends_with 93 n ≡ false
    → vector_inner_type (bracketed n) ≡ n
unfolding vector_inner_type
inner_back n a b =
    ap (trim_end 93) (starts_with-trim 91 (n ++ 93 ∷ []) (starts_with-close n a))
    ∙ ends_with-trim n b

pub bracketed_vector : (n : Text) → is_vector_type (bracketed n) ≡ true
unfolding is_vector_type
bracketed_vector n = ends_with-close 91 n

pub plain_single : (n : Text) → starts_with 91 n ≡ false → is_vector_type n ≡ false
unfolding is_vector_type
plain_single n h = rw h

pub serde_single :
    (n : Text) (found : Option Text)
    → starts_with 91 n ≡ false
    → (n == codes "string") ≡ false
    → scalar_type n ≡ found
    → fbs_type_to_rust_serde n ≡ or_nothing found
unfolding fbs_type_to_rust_serde
serde_single n found h s e = rw (plain_single n h, s, e)

pub serde_vector :
    (n : Text) (found : Option Text)
    → starts_with 91 n ≡ false
    → ends_with 93 n ≡ false
    → (n == codes "string") ≡ false
    → scalar_type n ≡ found
    → fbs_type_to_rust_serde (bracketed n) ≡ vec_found found
unfolding fbs_type_to_rust_serde
serde_vector n found a b s e = rw (bracketed_vector n, inner_back n a b, s, e)

pub string_serde : fbs_type_to_rust_serde (codes "string") ≡ codes "Option<String>"
unfolding fbs_type_to_rust_serde is_vector_type
string_serde = refl

pub strings_serde :
    fbs_type_to_rust_serde (bracketed (codes "string")) ≡ codes "Option<Vec<String>>"
unfolding fbs_type_to_rust_serde is_vector_type vector_inner_type
strings_serde = refl

module _ (tables enums : List Text) where
  pub rust_type_empty :
      (fbs : Text)
      → fbs_type_to_rust_serde fbs ≡ []
      → fbs_type_to_rust_type fbs tables enums ≡ (
          if is_vector_type fbs then vector_type fbs tables enums else single_type fbs tables enums)
  unfolding fbs_type_to_rust_type vector_type
  rust_type_empty fbs e = rw e

  pub rust_type_found :
      (fbs rust : Text)
      → fbs_type_to_rust_serde fbs ≡ rust
      → is_empty rust ≡ false
      → fbs_type_to_rust_type fbs tables enums ≡ ok rust
  unfolding fbs_type_to_rust_type
  rust_type_found fbs rust e h = rw (e, h)

  pub single_rust :
      (k : Kind)
      → IsKind tables enums k
      → fbs_type_to_rust_type (name_of k) tables enums ≡ ok (rust_of (one k))
  single_rust (scalar w r) h =
      rust_type_found w r (serde_single w (some r) h.opens h.no_text h.found) h.has_rust
  single_rust string h = rust_type_found (codes "string") (codes "Option<String>") string_serde refl
  single_rust (enum_named n) (h, a, b) =
      rust_type_empty n (serde_single n none h.no_start h.no_string h.no_scalar)
      ∙ ap (λ v. if v then vector_type n tables enums else single_type n tables enums)
          (plain_single n h.no_start)
      ∙ rw (a, b)
  single_rust (table_named n) (h, a) =
      rust_type_empty n (serde_single n none h.no_start h.no_string h.no_scalar)
      ∙ ap (λ v. if v then vector_type n tables enums else single_type n tables enums)
          (plain_single n h.no_start)
      ∙ rw a

  pub empty_vector :
      (n : Text)
      → IsName n
      → fbs_type_to_rust_type (bracketed n) tables enums ≡ vector_type (bracketed n) tables enums
  empty_vector n h =
      rust_type_empty (bracketed n)
        (serde_vector n none h.no_start h.no_end h.no_string h.no_scalar)
      ∙ ap
          (λ v.
            if v
            then vector_type (bracketed n) tables enums
            else single_type (bracketed n) tables enums)
          (bracketed_vector n)

  pub vector_rust :
      (k : Kind)
      → IsKind tables enums k
      → fbs_type_to_rust_type (bracketed (name_of k)) tables enums ≡ ok (rust_of (vector_of k))
  unfolding vector_type
  vector_rust (scalar w r) h =
      rust_type_found (bracketed w) (vec_of r)
        (serde_vector w (some r) h.opens h.closes h.no_text h.found) refl
  vector_rust string h =
      rust_type_found (bracketed (codes "string")) (codes "Option<Vec<String>>") strings_serde refl
  vector_rust (enum_named n) (h, a, b) =
      empty_vector n h ∙ rw (inner_back n h.no_start h.no_end, a, b)
  vector_rust (table_named n) (h, a) = empty_vector n h ∙ rw (inner_back n h.no_start h.no_end, a)
