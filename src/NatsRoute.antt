-- ===== src/NatsRoute.antt =====
-- crates/flatbed/src/nats_route.rs: the subjects of NATS responders, the check that no two of them can
-- match one message, and the parameters read from a message's subject. A character is its code.
pub mod Overlap
pub mod Params
pub mod Subjects
mod Tests
use flatbed.Base.{
  Text, split, dot, ℕ, zero, suc, ◌≡◌, Bool, true, false, Option, none, some, List, [], ◌∷◌, ◌++◌,
  map, ◌&&◌, ◌||◌, ◌==◌, number_keys, if◌then◌else◌, Result, ok, err, length, get_elem?, HasEq,
  list_keys,
}

-- The token `*`.
abbrev pub star : Text
star = 42 ∷ []

pub record NatsRouteInfo : Type 0 where
  pub subject : Text
  pub wire_subject : Text
  pub params : List (Text × ℕ)

pub record NatsRouteConflict : Type 0 where
  pub first_subject : Text
  pub second_subject : Text

pub token_overlap : Text → Text → Bool
token_overlap a b = (a == star) || ((b == star) || (a == b))

-- `zip` and `all`, of lists of the same length.
pub tokens_overlap : List Text → List Text → Bool
unfolding token_overlap
tokens_overlap [] [] = true
tokens_overlap (a ∷ ps) (b ∷ qs) = token_overlap a b && tokens_overlap ps qs
tokens_overlap _ _ = false

pub subjects_overlap : Text → Text → Bool
unfolding tokens_overlap
subjects_overlap first second = tokens_overlap (split dot first) (split dot second)

pub conflict_with : NatsRouteInfo → List NatsRouteInfo → Option NatsRouteConflict
unfolding subjects_overlap
conflict_with first [] = none
conflict_with first (second ∷ rest) =
    if subjects_overlap first.wire_subject second.wire_subject
    then some (record { first_subject = first.subject; second_subject = second.subject })
    else conflict_with first rest

unfoldable pub find_conflict : List NatsRouteInfo → Option NatsRouteConflict
unfolding conflict_with
find_conflict [] = none
find_conflict (first ∷ rest) =
    let later = find_conflict rest in
    elim (conflict_with first rest) [ some conflict ↦ some conflict | none ↦ later ]

unfoldable pub validate_nats_routes : List NatsRouteInfo → Result NatsRouteConflict (Unit {0})
unfolding find_conflict
validate_nats_routes routes = elim (find_conflict routes) [
  | some conflict ↦ err conflict
  | none ↦ ok tt
]

-- The map that `collect` fills: a later parameter of the same name wins.
pub collect_params : List Text → List (Text × ℕ) → (Text → Option Text) → Text → Option Text
collect_params tokens [] m = m
collect_params tokens ((name, index) ∷ params) m =
    collect_params tokens params (elim (get_elem? tokens index) [
      | none ↦ m
      | some token ↦ λ other. if name == other then some token else m other
    ])

pub extract_params : List (Text × ℕ) → Text → Text → Option Text
unfolding collect_params
extract_params [] subject = λ name. none
extract_params (p ∷ params) subject = collect_params (split dot subject) (p ∷ params) (λ name. none)
