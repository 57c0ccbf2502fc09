-- ===== src/NatsRoute/Subjects.antt =====
-- crates/flatbed_macros/src/nats_route.rs: the subject patterns that a responder may declare. A text is
-- its UTF-8 bytes.
pub mod Captures
use flatbed.Base.{
  ℕ, suc, Bool, true, false, not, Option, none, some, List, [], ◌∷◌, ◌++◌, ◌&&◌, ◌||◌, ◌==◌,
  number_keys, list_keys, if◌then◌else◌, ltb, leb, Text, split, dot, join, codes, is_empty, Result,
  ok, err,
}
use mathlib.Core.Option
use flatbed.NatsRoute.{star}

pub record SubjectPattern : Type 0 where
  pub wire : Text
  pub params : List (Text × ℕ)

pub data SubjectError : Type 0 where
  empty_subject empty_token : SubjectError
  raw_wildcard partial_capture blank_token bad_name duplicate_name : (token : Text) → SubjectError

-- `strip_suffix` of a character.
abbrev pub strip_end : ℕ → Text → Option Text
strip_end c [] = none
strip_end c (x ∷ xs) =
    let rest = Option.map (λ t. x ∷ t) (strip_end c xs) in
    if is_empty xs then (if x == c then some [] else none) else rest

abbrev pub capture : Text → Option Text
capture [] = none
capture (c ∷ cs) = if c == 123 then strip_end 125 cs else none

-- `{`, `}`, `*` and `>`.
abbrev pub is_special : ℕ → Bool
is_special c = (c == 123) || ((c == 125) || ((c == 42) || (c == 62)))

abbrev pub any_code : (ℕ → Bool) → Text → Bool
any_code p [] = false
any_code p (c ∷ cs) = p c || any_code p cs

-- Whether a text begins with a character for which `is_whitespace` or `is_control`: a blank or a control
-- character of ASCII, one from U+0080 to U+00A0, or one of the wider blanks.
abbrev pub starts_blank : Text → Bool
starts_blank [] = false
starts_blank (c ∷ []) = leb c 32 || c == 127
starts_blank (c ∷ d ∷ []) = leb c 32 || ((c == 127) || ((c == 194) && (leb 128 d && leb d 160)))
starts_blank (c ∷ d ∷ e ∷ _) =
    leb c 32
    || (c == 127)
    || ((c == 194) && (leb 128 d && leb d 160))
    || ((c == 225) && ((d == 154) && (e == 128)))
    || ((c == 226)
        && ((d == 128) && ((leb 128 e && leb e 138) || ((e == 168) || ((e == 169) || (e == 175))))))
    || ((c == 226) && ((d == 129) && (e == 159)))
    || ((c == 227) && ((d == 128) && (e == 128)))

abbrev pub has_blank : Text → Bool
has_blank [] = false
has_blank (c ∷ cs) = starts_blank (c ∷ cs) || has_blank cs

abbrev pub is_name_code : ℕ → Bool
is_name_code c =
    (leb 48 c && leb c 57) || ((leb 65 c && leb c 90) || ((leb 97 c && leb c 122) || (c == 95)))

abbrev pub is_name : Text → Bool
is_name name = not (is_empty name) && not (any_code (λ c. not (is_name_code c)) name)

abbrev pub read_literal : Text → Result {0, 0} SubjectError (Option Text)
read_literal token =
    if any_code is_special token
    then err (partial_capture token)
    else (if has_blank token then err (blank_token token) else ok none)

abbrev pub read_captured : Text → Option Text → Result {0, 0} SubjectError (Option Text)
read_captured token none = read_literal token
read_captured token (some name) = if is_name name then ok (some name) else err (bad_name token)

-- The name that a token captures, if it captures one.
unfoldable pub read_token : Text → Result {0, 0} SubjectError (Option Text)
read_token token =
    if is_empty token
    then err empty_token
    else (if (token == star) || (token == 62 ∷ [])
        then err (raw_wildcard token)
        else read_captured token (capture token))

abbrev pub has_name : Text → List (Text × ℕ) → Bool
has_name name [] = false
has_name name ((n, i) ∷ params) = (n == name) || has_name name params

abbrev pub Parsed : Type 0
Parsed = Result {0, 0} SubjectError (List Text × List (Text × ℕ))

-- The rest of a pattern after a literal token, and after one that captures a name.
abbrev pub take_token :
    Result {0, 0} SubjectError (Option Text)
    → List (Text × ℕ)
    → (literal : Parsed) (named : Text → Parsed) → Parsed
take_token (err e) params literal named = err e
take_token (ok none) params literal named = literal
take_token (ok (some name)) params literal named =
    if has_name name params then err (duplicate_name name) else named name

-- `wire` and `params` hold what the tokens before came to.
unfoldable pub parse_tokens :
    List Text → (index : ℕ) (wire : List Text) (params : List (Text × ℕ)) → Parsed
unfolding read_token
parse_tokens [] index wire params = ok (wire, params)
parse_tokens (token ∷ tokens) index wire params =
    take_token (read_token token) params
      (parse_tokens tokens (suc index) (wire ++ token ∷ []) params)
      (λ name. parse_tokens tokens (suc index) (wire ++ star ∷ []) (params ++ (name, index) ∷ []))

abbrev pub to_pattern : Parsed → Result {0, 0} SubjectError SubjectPattern
to_pattern (err e) = err e
to_pattern (ok (wire, params)) = ok (record { wire = join (codes ".") wire; params = params })

unfoldable pub parse_subject : Text → Result {0, 0} SubjectError SubjectPattern
unfolding parse_tokens
parse_subject pattern =
    if is_empty pattern
    then err empty_subject
    else to_pattern (parse_tokens (split dot pattern) 0 [] [])
