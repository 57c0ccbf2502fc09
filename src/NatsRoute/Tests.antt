-- ===== src/NatsRoute/Tests.antt =====
-- nats_route.rs: the theorems at concrete subjects.
use flatbed.Base.{
  Text, ℕ, ◌≡◌, ◌↔◌, refl, codes, split, dot, ok, err, List, [], ◌∷◌, true, number_keys, list_keys,
}
use flatbed.NatsRoute.{
  tokens_overlap, token_overlap, NatsRouteInfo, subjects_overlap, validate_nats_routes,
  extract_params,
}
use flatbed.NatsRoute.Overlap.{
  BothReceive, subjects_overlap_iff, Verdict, validate_nats_routes-Verdict,
}
use flatbed.NatsRoute.Subjects.{
  SubjectPattern, parse_subject, parse_tokens, read_token, duplicate_name, blank_token,
}
use flatbed.NatsRoute.Subjects.Captures.{parse_subject-captures, read_by}

-- `a.*` and `a.b`.
abbrev any_child : Text
any_child = 97 ∷ 46 ∷ 42 ∷ []

abbrev one_child : Text
one_child = 97 ∷ 46 ∷ 98 ∷ []

abbrev params : List (Text × ℕ)
params = (120 ∷ [], 1) ∷ []

abbrev routes : List NatsRouteInfo
routes =
    record { subject = any_child; wire_subject = any_child; params = params }
    ∷ record { subject = one_child; wire_subject = one_child; params = [] }
    ∷ []

overlapping : subjects_overlap any_child one_child ≡ true
unfolding subjects_overlap tokens_overlap token_overlap
overlapping = refl

subjects_overlap_iff_example :
    (subjects_overlap any_child one_child ≡ true) ↔ BothReceive any_child one_child
subjects_overlap_iff_example = subjects_overlap_iff any_child one_child

validate_nats_routes-Verdict_example : Verdict routes (validate_nats_routes routes)
validate_nats_routes-Verdict_example = validate_nats_routes-Verdict routes

-- `call.{id}`.
abbrev captured : Text
captured = codes "call.{id}"

abbrev captured_pattern : SubjectPattern
captured_pattern = record { wire = codes "call.*"; params = (codes "id", 1) ∷ [] }

parsed_run : parse_subject captured ≡ ok captured_pattern
unfolding parse_subject parse_tokens read_token
parsed_run = refl

refused_run : parse_subject (codes "a.{x}.{x}") ≡ err (duplicate_name (codes "x"))
unfolding parse_subject parse_tokens read_token
refused_run = refl

blank_run :
    parse_subject (97 ∷ 226 ∷ 128 ∷ 168 ∷ []) ≡ err (blank_token (97 ∷ 226 ∷ 128 ∷ 168 ∷ []))
unfolding parse_subject parse_tokens read_token
blank_run = refl

parse_subject-captures_example :
    (captured_pattern.wire ≡ codes "call.*")
    × ((subject name : Text)
        → extract_params captured_pattern.params subject name
          ≡ read_by (codes "call" ∷ codes "{id}" ∷ []) (split dot subject) name)
parse_subject-captures_example = parse_subject-captures captured captured_pattern parsed_run
