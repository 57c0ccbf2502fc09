-- ===== src/StaticFiles/Serving.antt =====
-- static_files.rs: what a request for a file is answered with.
use flatbed.Base.{
  ◌≡◌, ◌⊎◌, refl, ap, subst, ◌∙◌, true, false, Option, none, some, List, [], ◌∷◌, ◌++◌, list_keys,
  number_keys, Text, slash, is_empty, All, Bool-cases, Option-cases, beq_cases, inl, inr,
  passed_not, went_on, trim_start, trim_end, strip_prefix,
}
use flatbed.Http.{HttpLibrary, ResponseParts}
use flatbed.StaticFiles.{
  StaticRouteInfo, read, under, build, is_known_asset, strip_mount, sanitize, from_fallback,
  from_mount, serve_one, serve,
}
use flatbed.StaticFiles.Paths.{IsName, join_names, sanitize-IsName}

strip_prefix-append : (p t rest : Text) → strip_prefix p t ≡ some rest → t ≡ p ++ rest
strip_prefix-append [] t rest e = cc e
strip_prefix-append (x ∷ p) [] rest e = cc e
strip_prefix-append (x ∷ p) (c ∷ t) rest e = elim (beq_cases c x) [
  | inl (u, q) ↦ rw q (ap (λ r. x ∷ r) (strip_prefix-append p t rest (rw u at e)))
  | inr (u, q) ↦ cc (rw u at e)
]

-- The path is below the mount, at a boundary: the mount itself, or a slash and more follow it.
abbrev pub InMount : Text → Text → Text → Type 0
InMount mount path rel =
    ((trim_end slash mount ≡ []) × (rel ≡ trim_start slash path))
    ⊎ (((path ≡ trim_end slash mount) × (rel ≡ [])) ⊎ (path ≡ trim_end slash mount ++ slash ∷ rel))

empty : (t : Text) → is_empty t ≡ true → t ≡ []
empty [] e = refl
empty (c ∷ t) e = cc e

pub strip_mount-InMount :
    (mount path rel : Text) → strip_mount mount path ≡ some rel → InMount mount path rel
unfolding strip_mount
strip_mount-InMount mount path rel e =
    let m = trim_end slash mount in
    elim (Bool-cases (is_empty m)) [
      | inl t ↦ inl (empty m t, cc (rw t at e))
      | inr t ↦ elim (beq_cases path m) [
        | inl (u, p) ↦ inr (inl (p, cc (rw (t, u) at e)))
        | inr (u, p) ↦
            let (rest, found, e') = went_on (strip_prefix m path) _ (rw (t, u) at e) in
            inr (
              inr (
                strip_prefix-append m path rest found
                ∙ ap (λ r. m ++ r) (strip_prefix-append (slash ∷ []) rest rel e')))
      ]
    ]

module _ {H : Type 0} ⦃http : HttpLibrary H⦄ (disk : Text → Option Text) where
  -- The file that was asked for.
  abbrev pub IsFile : StaticRouteInfo → Text → ResponseParts H → Type 0
  IsFile route relative made =
      (bytes : Text) × (read disk route.source relative ≡ some bytes)
      × (made ≡ build bytes relative)

  -- The fallback, for a miss that is neither a known asset nor below a prefix without fallback.
  abbrev pub IsFallback : StaticRouteInfo → Text → Text → ResponseParts H → Type 0
  IsFallback route rel relative made =
      (file : Text) × (bytes : Text) × ((relative ≡ [])
        ⊎ ((read disk route.source relative ≡ none) × (is_known_asset relative ≡ false)))
      × (under rel route.no_fallback ≡ false)
      × (route.fallback ≡ some file)
      × (read disk route.source file ≡ some bytes)
      × (made ≡ build bytes file)

  abbrev pub Answers : StaticRouteInfo → Text → ResponseParts H → Type 0
  Answers route path made =
      (rel : Text) × (names : List Text) × InMount route.mount path rel
      × All IsName names
      × (IsFile route (join_names names) made ⊎ IsFallback route rel (join_names names) made)

  -- The first mount that answers.
  abbrev pub FirstAnswers : List StaticRouteInfo → Text → ResponseParts H → Type 0
  FirstAnswers [] path made = ⊥
  FirstAnswers (route ∷ routes) path made =
      Answers route path made
      ⊎ ((serve_one {H = H} disk route path ≡ none) × FirstAnswers routes path made)

  from_fallback-IsFallback :
      (route : StaticRouteInfo) (rel relative : Text) (made : ResponseParts H)
      → (relative ≡ [])
        ⊎ ((read disk route.source relative ≡ none) × (is_known_asset relative ≡ false))
      → from_fallback disk route rel ≡ some made
      → IsFallback route rel relative made
  unfolding from_fallback
  from_fallback-IsFallback route rel relative made miss e =
      let (free, e₁) = passed_not (under rel route.no_fallback) _ e in
      let (file, f, e₂) = went_on route.fallback _ e₁ in
      let (bytes, r, e₃) = went_on (read disk route.source file) _ e₂ in
      (file, bytes, miss, free, f, r, cc e₃)

  from_mount-IsFile :
      (route : StaticRouteInfo) (rel relative : Text) (made : ResponseParts H)
      → from_mount disk route rel relative ≡ some made
      → IsFile route relative made ⊎ IsFallback route rel relative made
  unfolding from_mount
  from_mount-IsFile route rel relative made e = elim (Bool-cases (is_empty relative)) [
    | inl t ↦
        inr (from_fallback-IsFallback route rel relative made (inl (empty relative t)) (rw t at e))
    | inr t ↦ elim (Option-cases (read disk route.source relative)) [
      | inl r ↦
          let (u, e') = passed_not (is_known_asset relative) _ (rw (t, r) at e) in
          inr (from_fallback-IsFallback route rel relative made (inr (r, u)) e')
      | inr (bytes, r) ↦ inl (bytes, r, cc (rw (t, r) at e))
    ]
  ]

  serve_one-Answers :
      (route : StaticRouteInfo) (path : Text) (made : ResponseParts H)
      → serve_one disk route path ≡ some made
      → Answers route path made
  unfolding serve_one
  serve_one-Answers route path made e =
      let (rel, s, e₁) = went_on (strip_mount route.mount path) _ e in
      let (relative, z, e₂) = went_on (sanitize rel) _ e₁ in
      let (names, plain, same) = sanitize-IsName rel relative z in
      (
        rel,
        names,
        strip_mount-InMount route.mount path rel s,
        plain,
        subst (λ p. IsFile route p made ⊎ IsFallback route rel p made) same
            (from_mount-IsFile route rel relative made e₂),
      )

  -- What a request for a file is answered with comes from the first mount that answers: the path is
  -- below the mount at a boundary, the rest of it resolves to joined names none of which is empty,
  -- `.`, `..` or has a slash, and the answer is either the file of that name or the fallback, and
  -- this only where the path names the mount itself or a missing file that is not a known asset,
  -- and the rest begins with no prefix that has no fallback.
  pub serve_sound :
      (routes : List StaticRouteInfo) (path : Text) (made : ResponseParts H)
      → serve disk routes path ≡ some made
      → FirstAnswers routes path made
  unfolding serve
  serve_sound [] path made e = cc e
  serve_sound (route ∷ routes) path made e =
      elim (Option-cases (serve_one {H = H} disk route path)) [
        | inl n ↦ inr (n, serve_sound routes path made (rw (n, serve) at e))
        | inr (other, s) ↦
            let same : other ≡ made = cc (rw (s, serve) at e) in
            inl (serve_one-Answers route path made (s ∙ ap some same))
      ]
