-- ===== src/NatsRoute/Overlap.antt =====
-- nats_route.rs: `subjects_overlap` and `find_conflict` against the subjects that a message can have.
use flatbed.Base.{
  Text, split, dot, ◌≡◌, ◌≢◌, ◌↔◌, ◌⊎◌, refl, sym, Bool, true, false, Option, none, some, List, [],
  ◌∷◌, ◌&&◌, ◌||◌, ◌==◌, number_keys, list_keys, list_beq_iff, beq_refl, beq_cases, Bool-cases, inl,
  inr, All, Result, ok, err,
}
use flatbed.NatsRoute.{
  star, NatsRouteInfo, NatsRouteConflict, token_overlap, tokens_overlap, subjects_overlap,
  conflict_with, find_conflict, validate_nats_routes,
}

-- The tokens of a subscription match a token of a message: `*` matches every one.
abbrev pub TokenMatches : Text → Text → Type 0
TokenMatches pattern token = (pattern ≡ star) ⊎ (pattern ≡ token)

abbrev pub TokensMatch : List Text → List Text → Type 0
TokensMatch [] [] = Unit
TokensMatch (p ∷ ps) (t ∷ ts) = TokenMatches p t × TokensMatch ps ts
TokensMatch _ _ = ⊥

-- Some message, whose tokens are not wildcards, is delivered to both subscriptions.
abbrev pub BothReceive : Text → Text → Type 0
BothReceive first second =
    (message : List Text) × All (λ t. t ≢ star) message
    × TokensMatch (split dot first) message
    × TokensMatch (split dot second) message

or_true : (a : Bool) → (a || true) ≡ true
or_true true = refl
or_true false = refl

both_true : (a b : Bool) → (a && b) ≡ true → (a ≡ true) × (b ≡ true)
both_true true b e = (refl, e)
both_true false b e = cc

token_overlap-message :
    (a b : Text)
    → token_overlap a b ≡ true
    → (t : Text) × (t ≢ star) × TokenMatches a t × TokenMatches b t
unfolding token_overlap
token_overlap-message a b e = elim (beq_cases a star) [
  | inl (_, p) ↦ elim (beq_cases b star) [
    | inl (_, q) ↦ (120 ∷ [], (λ x. cc ((list_beq_iff (120 ∷ []) star).1 x)), inl p, inl q)
    | inr (_, q) ↦ (b, q, inl p, inr refl)
  ]
  | inr (f, p) ↦ elim (beq_cases b star) [
    | inl (_, q) ↦ (a, p, inr refl, inl q)
    | inr (g, q) ↦ elim (beq_cases a b) [
      | inl (_, s) ↦ (a, p, inr refl, inr (sym s))
      | inr (h, s) ↦ cc (rw (f, g, h) at e)
    ]
  ]
]

message-token_overlap :
    (a b t : Text) → t ≢ star → TokenMatches a t → TokenMatches b t → token_overlap a b ≡ true
unfolding token_overlap
message-token_overlap a b t n (inl p) q = rw (p, beq_refl star) refl
message-token_overlap a b t n (inr p) (inl q) = rw (q, beq_refl star) (or_true (a == star))
message-token_overlap a b t n (inr p) (inr q) =
    rw (p, q, beq_refl t) (rw (or_true (t == star)) (or_true (t == star)))

tokens_overlap-message :
    (ps qs : List Text)
    → tokens_overlap ps qs ≡ true
    → (message : List Text) × All (λ t. t ≢ star) message
      × TokensMatch ps message
      × TokensMatch qs message
unfolding tokens_overlap
tokens_overlap-message [] [] e = ([], tt, tt, tt)
tokens_overlap-message [] (b ∷ qs) e = cc
tokens_overlap-message (a ∷ ps) [] e = cc
tokens_overlap-message (a ∷ ps) (b ∷ qs) e =
    let (h, k) = both_true (token_overlap a b) (tokens_overlap ps qs) e in
    let (t, n, p, q) = token_overlap-message a b h in
    let (ts, ns, ms, os) = tokens_overlap-message ps qs k in (t ∷ ts, (n, ns), (p, ms), (q, os))

message-tokens_overlap :
    (ps qs message : List Text)
    → All (λ t. t ≢ star) message
    → TokensMatch ps message
    → TokensMatch qs message
    → tokens_overlap ps qs ≡ true
unfolding tokens_overlap
message-tokens_overlap [] [] [] n p q = refl
message-tokens_overlap [] (b ∷ qs) [] n p q = absurd q
message-tokens_overlap (a ∷ ps) qs [] n p q = absurd p
message-tokens_overlap [] qs (t ∷ ts) n p q = absurd p
message-tokens_overlap (a ∷ ps) [] (t ∷ ts) n p q = absurd q
message-tokens_overlap (a ∷ ps) (b ∷ qs) (t ∷ ts) (n, ns) (p, ms) (q, os) =
    rw (message-token_overlap a b t n p q) (message-tokens_overlap ps qs ts ns ms os)

-- Two wire subjects overlap exactly when some message, none of whose tokens is a wildcard, is
-- delivered to both subscriptions, where a pattern token matches by being a star or by being the
-- same token.
pub subjects_overlap_iff : (a b : Text) → (subjects_overlap a b ≡ true) ↔ BothReceive a b
unfolding subjects_overlap
subjects_overlap_iff a b = (
  tokens_overlap-message (split dot a) (split dot b),
  (λ (m, n, p, q). message-tokens_overlap (split dot a) (split dot b) m n p q),
)

-- Among the responders, no two receive one message.
abbrev pub IsConflictFree : List NatsRouteInfo → Type 0
IsConflictFree [] = Unit
IsConflictFree (r ∷ rs) =
    All (λ s. ¬ BothReceive r.wire_subject s.wire_subject) rs × IsConflictFree rs

-- The conflict names two responders, the first before the second, that receive one message.
abbrev pub ClashesWith : NatsRouteConflict → NatsRouteInfo → List NatsRouteInfo → Type 0
ClashesWith conflict first [] = ⊥
ClashesWith conflict first (second ∷ rest) =
    (BothReceive first.wire_subject second.wire_subject
      × (conflict.first_subject ≡ first.subject)
      × (conflict.second_subject ≡ second.subject))
    ⊎ ClashesWith conflict first rest

abbrev pub Clashes : NatsRouteConflict → List NatsRouteInfo → Type 0
Clashes conflict [] = ⊥
Clashes conflict (first ∷ rest) = ClashesWith conflict first rest ⊎ Clashes conflict rest

abbrev pub Verdict : List NatsRouteInfo → Result NatsRouteConflict (Unit {0}) → Type 0
Verdict routes (ok _) = IsConflictFree routes
Verdict routes (err conflict) = Clashes conflict routes

abbrev WithVerdict : NatsRouteInfo → List NatsRouteInfo → Option NatsRouteConflict → Type 0
WithVerdict first rest none = All (λ s. ¬ BothReceive first.wire_subject s.wire_subject) rest
WithVerdict first rest (some conflict) = ClashesWith conflict first rest

abbrev FoundVerdict : List NatsRouteInfo → Option NatsRouteConflict → Type 0
FoundVerdict routes none = IsConflictFree routes
FoundVerdict routes (some conflict) = Clashes conflict routes

later-WithVerdict :
    (first second : NatsRouteInfo) (rest : List NatsRouteInfo) (o : Option NatsRouteConflict)
    → ¬ BothReceive first.wire_subject second.wire_subject
    → WithVerdict first rest o
    → WithVerdict first (second ∷ rest) o
later-WithVerdict first second rest none n v = (n, v)
later-WithVerdict first second rest (some conflict) n v = inr v

conflict_with-WithVerdict :
    (first : NatsRouteInfo) (rest : List NatsRouteInfo)
    → WithVerdict first rest (conflict_with first rest)
unfolding conflict_with
conflict_with-WithVerdict first [] = tt
conflict_with-WithVerdict first (second ∷ rest) =
    let (to, from) = subjects_overlap_iff first.wire_subject second.wire_subject in
    elim (Bool-cases (subjects_overlap first.wire_subject second.wire_subject)) [
      | inl t ↦ rw t (inl (to t, refl, refl))
      | inr f ↦ rw f (
          later-WithVerdict first second rest (conflict_with first rest) (λ both. cc (f, from both))
            (conflict_with-WithVerdict first rest))
    ]

joined-FoundVerdict :
    (first : NatsRouteInfo) (rest : List NatsRouteInfo) (o later : Option NatsRouteConflict)
    → WithVerdict first rest o
    → FoundVerdict rest later
    → FoundVerdict (first ∷ rest) (elim o [ some conflict ↦ some conflict | none ↦ later ])
joined-FoundVerdict first rest (some conflict) later v w = inl v
joined-FoundVerdict first rest none none v w = (v, w)
joined-FoundVerdict first rest none (some conflict) v w = inr w

find_conflict-FoundVerdict :
    (routes : List NatsRouteInfo) → FoundVerdict routes (find_conflict routes)
unfolding find_conflict
find_conflict-FoundVerdict [] = tt
find_conflict-FoundVerdict (first ∷ rest) =
    joined-FoundVerdict first rest (conflict_with first rest) (find_conflict rest)
      (conflict_with-WithVerdict first rest) (find_conflict-FoundVerdict rest)

result-Verdict :
    (routes : List NatsRouteInfo) (o : Option NatsRouteConflict)
    → FoundVerdict routes o
    → Verdict routes (elim o [ some conflict ↦ err conflict | none ↦ ok tt ])
result-Verdict routes none v = v
result-Verdict routes (some conflict) v = v

-- The validation accepts the responders only if no message is delivered to two of them, and
-- otherwise names two responders, the first before the second, that receive one message.
pub validate_nats_routes-Verdict :
    (routes : List NatsRouteInfo) → Verdict routes (validate_nats_routes routes)
unfolding validate_nats_routes
validate_nats_routes-Verdict routes =
    result-Verdict routes (find_conflict routes) (find_conflict-FoundVerdict routes)
