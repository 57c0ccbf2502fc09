-- ===== src/StaticFiles/Paths.antt =====
-- static_files.rs: which paths are resolved, and to what.
use flatbed.Base.{
  ℕ, ◌≡◌, ◌≢◌, refl, sym, ap, ◌∙◌, Bool, true, false, none, some, List, [], ◌∷◌, ◌++◌, append_assoc,
  ◌||◌, ◌==◌, list_keys, number_keys, if◌then◌else◌, Text, split, push, slash, is_empty,
  starts_with, ends_with, any, one_of, codes, All, join, Bool-cases, beq_cases, inl, inr,
  passed_not,
}
use flatbed.StaticFiles.{parts, leading, push_part, push_normal, sanitize}

-- The segments that name something: not empty and not `.`.
abbrev pub named : List Text → List Text
named [] = []
named (s ∷ ss) = let rest = named ss in if one_of s ([] ∷ codes "." ∷ []) then rest else s ∷ rest

abbrev pub climbs : List Text → Bool
climbs [] = false
climbs (s ∷ ss) = (s == codes "..") || climbs ss

abbrev pub has_slash : Text → Bool
has_slash t = any (λ c. c == slash) t

abbrev pub NoSlash : Text → Type 0
NoSlash s = has_slash s ≡ false

abbrev pub join_names : List Text → Text
join_names ps = join (slash ∷ []) ps

push-NoSlash :
    (c : ℕ) (ts : List Text) → (c == slash) ≡ false → All NoSlash ts → All NoSlash (push c ts)
push-NoSlash c [] e h = (rw e, tt)
push-NoSlash c (t ∷ ts) e (p, h) = (rw e p, h)

pub split-NoSlash : (t : Text) → All NoSlash (split slash t)
split-NoSlash [] = (refl, tt)
split-NoSlash (c ∷ cs) = elim (Bool-cases (c == slash)) [
  | inl t ↦ rw t (refl, split-NoSlash cs)
  | inr t ↦ rw t (push-NoSlash c (split slash cs) t (split-NoSlash cs))
]

NoSlash-ends_with : (t : Text) → NoSlash t → ends_with slash t ≡ false
NoSlash-ends_with [] h = refl
NoSlash-ends_with (c ∷ []) h = elim (Bool-cases (c == slash)) [ inl t ↦ cc (rw t at h) | inr t ↦ t ]
NoSlash-ends_with (c ∷ d ∷ cs) h = elim (Bool-cases (c == slash)) [
  | inl t ↦ cc (rw t at h)
  | inr t ↦ NoSlash-ends_with (d ∷ cs) (rw t at h)
]

ends_with-append :
    (out p : Text) → is_empty p ≡ false → ends_with slash (out ++ p) ≡ ends_with slash p
ends_with-append [] p h = refl
ends_with-append (c ∷ []) [] h = cc h
ends_with-append (c ∷ []) (d ∷ p) h = refl
ends_with-append (c ∷ d ∷ out) p h = ends_with-append (d ∷ out) p h

-- What is resolved when `out` came before.
abbrev onto : Text → List Text → Text
onto out [] = out
onto out (p ∷ ps) = if is_empty out then join_names (p ∷ ps) else out ++ slash ∷ join_names (p ∷ ps)

push_part-onto :
    (out p : Text) (ps : List Text)
    → ends_with slash out ≡ false
    → is_empty p ≡ false
    → onto (push_part out p) ps ≡ onto out (p ∷ ps)
push_part-onto [] p [] e h = refl
push_part-onto [] [] (q ∷ ps) e h = cc h
push_part-onto [] (c ∷ p) (q ∷ ps) e h = refl
push_part-onto (c ∷ out) p [] e h = rw e
push_part-onto (c ∷ out) p (q ∷ ps) e h =
    rw e (ap (λ t. c ∷ t) (append_assoc out (slash ∷ p) (slash ∷ join_names (q ∷ ps))))

push_part-ends_with :
    (out p : Text)
    → ends_with slash out ≡ false
    → is_empty p ≡ false
    → NoSlash p
    → ends_with slash (push_part out p) ≡ false
push_part-ends_with [] p e h k = NoSlash-ends_with p k
push_part-ends_with (c ∷ out) [] e h k = cc h
push_part-ends_with (c ∷ out) (d ∷ p) e h k =
    rw (e, ends_with-append (c ∷ out) (slash ∷ d ∷ p) refl) (NoSlash-ends_with (d ∷ p) k)

neither : (a b : Bool) → (a || b) ≡ false → (a ≡ false) × (b ≡ false)
neither true b e = cc e
neither false b e = (refl, e)

is_named : (s : Text) → one_of s ([] ∷ codes "." ∷ []) ≡ false → is_empty s ≡ false
is_named [] h = cc h
is_named (c ∷ s) h = refl

not_climbing : (s : Text) → one_of s ([] ∷ codes "." ∷ []) ≡ true → (s == codes "..") ≡ false
not_climbing s h = elim (beq_cases s []) [
  | inl (t, p) ↦ rw p
  | inr (t, p) ↦ elim (beq_cases s (codes ".")) [
    | inl (u, q) ↦ rw q
    | inr (u, q) ↦ cc (rw (t, u) at h)
  ]
]

push_normal-parts :
    (out : Text) (ss : List Text)
    → ends_with slash out ≡ false
    → All NoSlash ss
    → push_normal out (parts ss) ≡ (if climbs ss then none else some (onto out (named ss)))
push_normal-parts out [] e h = refl
push_normal-parts out (s ∷ ss) e (k, h) = elim (Bool-cases (one_of s ([] ∷ codes "." ∷ []))) [
  | inl t ↦ rw (t, not_climbing s t) (push_normal-parts out ss e h)
  | inr t ↦ elim (Bool-cases (s == codes "..")) [
    | inl u ↦ rw (t, u)
    | inr u ↦
        let full : is_empty s ≡ false = is_named s t in
        let below = push_normal-parts (push_part out s) ss (push_part-ends_with out s e full k) h in
        rw (t, u)
          (below
            ∙ ap (λ o. if climbs ss then none else some o) (push_part-onto out s (named ss) e full))
  ]
]

onto_nothing : (ps : List Text) → onto [] ps ≡ join_names ps
onto_nothing [] = refl
onto_nothing (p ∷ ps) = refl

push_normal-leading : (ss : List Text) → push_normal [] (leading ss) ≡ push_normal [] (parts ss)
push_normal-leading [] = refl
push_normal-leading (s ∷ ss) = elim (beq_cases s (codes ".")) [
  | inl (t, p) ↦ rw p
  | inr (t, p) ↦ rw t
]

-- A relative path is refused exactly when it begins with a slash or has a segment `..`; else it
-- resolves to its segments that are neither empty nor `.`, joined by slashes.
pub sanitize_iff :
    (rel : Text)
    → sanitize rel ≡ (
        if starts_with slash rel || climbs (split slash rel)
        then none
        else some (join_names (named (split slash rel))))
unfolding sanitize
sanitize_iff rel = elim (Bool-cases (starts_with slash rel)) [
  | inl t ↦ rw t
  | inr t ↦
      let ss = split slash rel in
      rw (
        t,
        push_normal-leading ss,
        push_normal-parts [] ss refl (split-NoSlash rel),
        onto_nothing (named ss),
      )
]

-- A name of a file or directory: it neither climbs nor leads elsewhere.
abbrev pub IsName : Text → Type 0
IsName s = NoSlash s × (s ≢ []) × (s ≢ codes ".") × (s ≢ codes "..")

named-IsName : (ss : List Text) → All NoSlash ss → climbs ss ≡ false → All IsName (named ss)
named-IsName [] h e = tt
named-IsName (s ∷ ss) (k, h) e =
    let (above, rest) = neither (s == codes "..") (climbs ss) e in
    elim (Bool-cases (one_of s ([] ∷ codes "." ∷ []))) [
      | inl t ↦ rw t (named-IsName ss h rest)
      | inr t ↦ rw t (
        (k, (λ p. cc (rw p at t)), (λ p. cc (rw p at t)), (λ p. cc (rw p at above))),
        named-IsName ss h rest,
      )
    ]

-- What is resolved is names, joined.
pub sanitize-IsName :
    (rel relative : Text)
    → sanitize rel ≡ some relative
    → (names : List Text) × All IsName names × (relative ≡ join_names names)
sanitize-IsName rel relative e =
    let ss = split slash rel in
    let (fine, same) =
      passed_not (starts_with slash rel || climbs ss) _ (sym (sanitize_iff rel) ∙ e) in
    let (f, g) = neither (starts_with slash rel) (climbs ss) fine in
    (named ss, named-IsName ss (split-NoSlash rel) g, cc same)
