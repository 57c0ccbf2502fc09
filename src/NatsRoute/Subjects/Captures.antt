-- ===== src/NatsRoute/Subjects/Captures.antt =====
-- crates/flatbed_macros/src/nats_route.rs: what the segments of an accepted pattern capture.
use flatbed.Base.{
  ℕ, zero, suc, ◌≡◌, refl, sym, ap, subst, ◌∙◌, Bool, true, false, Bool-cases, Option, none, some,
  Option-cases, List, [], ◌∷◌, ◌++◌, ◌||◌, ◌==◌, ◌>>=◌, number_keys, list_keys, if◌then◌else◌, Text,
  split, dot, join, codes, is_empty, Result, Result-cases, ok, err, beq_cases, beq_refl, beq_ne,
  append_assoc, get_elem?, inl, inr, drop, first,
}
use mathlib.Core.Option
use mathlib.Core.List.{append-nil}
use flatbed.Base.Keyed.{Absent, Distinct, Distinct-append, find}
use flatbed.NatsRoute.{star, extract_params}
use flatbed.NatsRoute.Params.{extract_params-find}
use flatbed.NatsRoute.Subjects.{
  SubjectPattern, SubjectError, strip_end, capture, read_token, read_captured, has_name,
  parse_tokens, take_token, Parsed, parse_subject, to_pattern, any_code, is_special, has_blank,
  is_name,
}

abbrev pub braced : Text → Text
braced name = 123 ∷ (name ++ 125 ∷ [])

-- The token of a subject that stands where a pattern names a segment.
abbrev pub read_by : List Text → List Text → Text → Option Text
read_by [] tokens name = none
read_by (p ∷ ps) [] name = none
read_by (p ∷ ps) (t ∷ ts) name = if p == braced name then some t else read_by ps ts name

abbrev pub wire_of : Text → Option Text → Text
wire_of token none = token
wire_of token (some name) = star

-- A named segment becomes a star.
abbrev pub wire_tokens : List Text → List Text
wire_tokens [] = []
wire_tokens (p ∷ ps) = wire_of p (capture p) ∷ wire_tokens ps

abbrev added : Option Text → ℕ → List (Text × ℕ) → List (Text × ℕ)
added none i rest = rest
added (some name) i rest = (name, i) ∷ rest

abbrev declared : List Text → ℕ → List (Text × ℕ)
declared [] i = []
declared (p ∷ ps) i = added (capture p) i (declared ps (suc i))

abbrev IsDistinct : List (Text × ℕ) → Type 0
IsDistinct params = Distinct (λ (p : Text × ℕ). p.0) params

went_through :
    {A : Type 0} {x : A} (b : Bool) (e : SubjectError) (y : Result {0, 0} SubjectError A)
    → (if b then err e else y) ≡ ok x
    → (b ≡ false) × (y ≡ ok x)
went_through true e y h = cc
went_through false e y h = (refl, h)

some_inj : (x y : Text) → some x ≡ some y → x ≡ y
some_inj x y h = cc

ok_inj : {A : Type 0} (x y : A) (r : Result {0, 0} SubjectError A) → r ≡ ok x → r ≡ ok y → x ≡ y
ok_inj x y r h k = cc

read_captured-ok : (t : Text) (c o : Option Text) → read_captured t c ≡ ok o → c ≡ o
read_captured-ok t none o h =
    let (a, rest) = went_through (any_code is_special t) _ _ h in
    let (b, last) = went_through (has_blank t) _ _ rest in ok_inj none o _ refl last
read_captured-ok t (some name) o h = elim (Bool-cases (is_name name)) [
  | inl e ↦ ok_inj (some name) o _ (rw e) h
  | inr e ↦ cc (rw e at h)
]

read_token-ok : (t : Text) (o : Option Text) → read_token t ≡ ok o → capture t ≡ o
unfolding read_token
read_token-ok t o h =
    let (a, rest) = went_through (is_empty t) _ _ h in
    let (b, last) = went_through ((t == star) || (t == 62 ∷ [])) _ _ rest in
    read_captured-ok t (capture t) o last

has_name-Absent :
    (name : Text) (params : List (Text × ℕ))
    → has_name name params ≡ false
    → Absent (λ (p : Text × ℕ). p.0) name params
has_name-Absent name [] h = tt
has_name-Absent name ((n, i) ∷ params) h = elim (beq_cases n name) [
  | inl (e, p) ↦ cc (rw e at h)
  | inr (e, p) ↦ (p, has_name-Absent name params (rw e at h))
]

strip_end-braced : (c : ℕ) (n : Text) → strip_end c (n ++ c ∷ []) ≡ some n
strip_end-braced c [] = rw (beq_refl c)
strip_end-braced c (x ∷ []) = rw (beq_refl c)
strip_end-braced c (x ∷ y ∷ n) = rw (strip_end-braced c (y ∷ n))

strip_end-back : (c : ℕ) (t n : Text) → strip_end c t ≡ some n → t ≡ n ++ c ∷ []
strip_end-back c [] n h = cc
strip_end-back c (x ∷ []) n h = elim (beq_cases x c) [
  | inl (e, p) ↦ ap (λ y. y ∷ []) p ∙ ap (λ m. m ++ c ∷ []) (some_inj [] n (sym (rw e) ∙ h))
  | inr (e, p) ↦ cc (rw e at h)
]
strip_end-back c (x ∷ y ∷ t) n h = elim (Option-cases (strip_end c (y ∷ t))) [
  | inl e ↦ cc (ap (Option.map (λ u. x ∷ u)) (sym e) ∙ h)
  | inr (m, e) ↦
      ap (λ u. x ∷ u) (strip_end-back c (y ∷ t) m e)
      ∙ ap (λ u. u ++ c ∷ []) (some_inj (x ∷ m) n (ap (Option.map (λ u. x ∷ u)) (sym e) ∙ h))
]

capture-braced : (name : Text) → capture (braced name) ≡ some name
capture-braced name = strip_end-braced 125 name

capture-back : (t name : Text) → capture t ≡ some name → t ≡ braced name
capture-back [] name h = cc
capture-back (c ∷ cs) name h = elim (beq_cases c 123) [
  | inl (e, p) ↦
      ap (λ d. d ∷ cs) p ∙ ap (λ u. 123 ∷ u) (strip_end-back 125 cs name (sym (rw e) ∙ h))
  | inr (e, p) ↦ cc (rw e at h)
]

-- What is left to parse is parsed, and what was parsed is kept.
abbrev IsParsed : List Text → ℕ → List Text → List (Text × ℕ) → List Text → List (Text × ℕ) → Type 0
IsParsed ps i w params wires made =
    (wires ≡ w ++ wire_tokens ps) × (made ≡ params ++ declared ps i) × IsDistinct made

parse_tokens-IsParsed :
    (ps : List Text) (i : ℕ) (w : List Text) (params : List (Text × ℕ)) (wires : List Text)
    (made : List (Text × ℕ))
    → parse_tokens ps i w params ≡ ok (wires, made)
    → IsDistinct params
    → IsParsed ps i w params wires made
unfolding parse_tokens
parse_tokens-IsParsed [] i w params wires made h d =
    let same = ok_inj (w, params) (wires, made) (ok (w, params)) refl h in
    (
      sym (ap (λ q. q.0) same) ∙ sym (append-nil w),
      sym (ap (λ q. q.1) same) ∙ sym (append-nil params),
      subst IsDistinct (ap (λ q. q.1) same) d,
    )
parse_tokens-IsParsed (p ∷ ps) i w params wires made h d =
    let literal = parse_tokens ps (suc i) (w ++ p ∷ []) params in
    let named : Text → Parsed =
      λ name. parse_tokens ps (suc i) (w ++ star ∷ []) (params ++ (name, i) ∷ []) in
    elim (Result-cases (read_token p)) [
      | inl (none, e) ↦
          let went = sym (ap (λ r. take_token r params literal named) e) ∙ h in
          let (a, b, c) = parse_tokens-IsParsed ps (suc i) (w ++ p ∷ []) params wires made went d in
          let captured = read_token-ok p none e in
          (
            a
                ∙ append_assoc w (p ∷ []) (wire_tokens ps)
                ∙ ap (λ o. w ++ wire_of p o ∷ wire_tokens ps) (sym captured),
            b ∙ ap (λ o. params ++ added o i (declared ps (suc i))) (sym captured),
            c,
          )
      | inl (some name, e) ↦
          let went = sym (ap (λ r. take_token r params literal named) e) ∙ h in
          let (fresh, rest) = went_through (has_name name params) _ _ went in
          let distinct =
            Distinct-append (λ (q : Text × ℕ). q.0) params (name, i) d
              (has_name-Absent name params fresh) in
          let (a, b, c) =
            parse_tokens-IsParsed ps (suc i) (w ++ star ∷ []) (params ++ (name, i) ∷ []) wires made
              rest distinct in
          let captured = read_token-ok p (some name) e in
          (
            a
                ∙ append_assoc w (star ∷ []) (wire_tokens ps)
                ∙ ap (λ o. w ++ wire_of p o ∷ wire_tokens ps) (sym captured),
            b
                ∙ append_assoc params ((name, i) ∷ []) (declared ps (suc i))
                ∙ ap (λ o. params ++ added o i (declared ps (suc i))) (sym captured),
            c,
          )
      | inr (x, e) ↦ cc (sym (ap (λ r. take_token r params literal named) e) ∙ h)
    ]

abbrev rest_after : List Text → List Text
rest_after [] = []
rest_after (t ∷ ts) = ts

drop-suc : (i : ℕ) (ts : List Text) → drop (suc i) ts ≡ rest_after (drop i ts)
drop-suc zero [] = refl
drop-suc zero (t ∷ ts) = refl
drop-suc (suc i) [] = refl
drop-suc (suc i) (t ∷ ts) = drop-suc i ts

get_elem?-drop : (i : ℕ) (ts : List Text) → get_elem? ts i ≡ first (drop i ts)
get_elem?-drop zero [] = refl
get_elem?-drop zero (t ∷ ts) = refl
get_elem?-drop (suc i) [] = refl
get_elem?-drop (suc i) (t ∷ ts) = get_elem?-drop i ts

read_by-[] : (ps : List Text) (name : Text) → read_by ps [] name ≡ none
read_by-[] [] name = refl
read_by-[] (p ∷ ps) name = refl

read_by-step :
    (p name : Text) (ps ts : List Text)
    → read_by (p ∷ ps) ts name
      ≡ (if p == braced name then first ts else read_by ps (rest_after ts) name)
read_by-step p name ps [] = elim (Bool-cases (p == braced name)) [
  | inl e ↦ rw e
  | inr e ↦ rw (e, read_by-[] ps name)
]
read_by-step p name ps (t ∷ ts) = refl

abbrev pick : Text → List Text → List (Text × ℕ) → Option Text
pick name ts params = find (λ (q : Text × ℕ). q.0) name params >>= λ q. get_elem? ts q.1

pick-step :
    (b : Bool) (name n : Text) (i : ℕ) (ts : List Text) (rest : List (Text × ℕ))
    → (n == name) ≡ b
    → pick name ts ((n, i) ∷ rest) ≡ (if n == name then first (drop i ts) else pick name ts rest)
unfolding find
pick-step true name n i ts rest e = rw (e, get_elem?-drop i ts)
pick-step false name n i ts rest e = rw e

not_named : (p name : Text) → capture p ≡ none → (p == braced name) ≡ false
not_named p name e = beq_ne p (braced name) (λ q. cc (sym e ∙ ap capture q ∙ capture-braced name))

named_as : (p name n : Text) → capture p ≡ some n → (p == braced name) ≡ (n == name)
named_as p name n e = elim (beq_cases n name) [
  | inl (f, q) ↦
      ap (λ u. u == braced name) (capture-back p n e ∙ ap braced q) ∙ beq_refl (braced name) ∙ sym f
  | inr (f, q) ↦
      beq_ne p (braced name) (λ r. q (some_inj n name (sym e ∙ ap capture r ∙ capture-braced name)))
      ∙ sym f
]

pick-declared :
    (name : Text) (ts ps : List Text) (i : ℕ)
    → pick name ts (declared ps i) ≡ read_by ps (drop i ts) name
unfolding find
pick-declared name ts [] i = refl
pick-declared name ts (p ∷ ps) i =
    let later = pick-declared name ts ps (suc i) ∙ ap (λ us. read_by ps us name) (drop-suc i ts) in
    elim (Option-cases (capture p)) [
      | inl e ↦
          ap (λ o. pick name ts (added o i (declared ps (suc i)))) e
          ∙ later
          ∙ sym (
              read_by-step p name ps (drop i ts)
              ∙ ap (λ b. if b then first (drop i ts) else read_by ps (rest_after (drop i ts)) name)
                  (not_named p name e))
      | inr (n, e) ↦
          ap (λ o. pick name ts (added o i (declared ps (suc i)))) e
          ∙ pick-step (n == name) name n i ts (declared ps (suc i)) refl
          ∙ ap (λ o. if n == name then first (drop i ts) else o) later
          ∙ sym (
              read_by-step p name ps (drop i ts)
              ∙ ap (λ b. if b then first (drop i ts) else read_by ps (rest_after (drop i ts)) name)
                  (named_as p name n e))
    ]

-- Where a subject pattern is accepted, its wire form is the pattern with each segment that names a
-- parameter made a star, and the parameter of a name that the run time reads from any subject is
-- the token of the subject that stands where the pattern names it, and nothing where the pattern
-- does not or the subject is too short.
pub parse_subject-captures :
    (pattern : Text) (parsed : SubjectPattern)
    → parse_subject pattern ≡ ok parsed
    → (parsed.wire ≡ join (codes ".") (wire_tokens (split dot pattern)))
      × ((subject name : Text)
          → extract_params parsed.params subject name
            ≡ read_by (split dot pattern) (split dot subject) name)
unfolding parse_subject
parse_subject-captures pattern parsed h =
    let (full, rest) = went_through (is_empty pattern) _ _ h in
    elim (Result-cases (parse_tokens (split dot pattern) 0 [] [])) [
      | inl ((wires, made), e) ↦
          let (a, b, c) = parse_tokens-IsParsed (split dot pattern) 0 [] [] wires made e tt in
          let same = ok_inj _ parsed _ (ap to_pattern e) rest in
          (
            sym (ap (λ (q : SubjectPattern). q.wire) same) ∙ ap (join (codes ".")) a,
            λ subject name.
                ap (λ (q : SubjectPattern). extract_params q.params subject name) (sym same)
                ∙ extract_params-find made subject name c
                ∙ ap (pick name (split dot subject)) b
                ∙ pick-declared name (split dot subject) (split dot pattern) 0,
          )
      | inr (x, e) ↦ cc (sym (ap to_pattern e) ∙ rest)
    ]
