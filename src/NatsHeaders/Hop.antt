-- ===== src/NatsHeaders/Hop.antt =====
-- crates/flatbed/src/nats_route.rs: reading and setting headers by their texts, before and after they are
-- sent.
use flatbed.Base.{
  both, ◌≡◌, refl, ap, ◌∙◌, Bool, true, false, Option, some, none, List, [], ◌∷◌, ◌&&◌, ◌||◌, ◌==◌,
  list_keys, number_keys, if◌then◌else◌, Text, Bool-cases, ◌>>=◌, first, inl, inr,
}
use flatbed.NatsHeaders.{
  HeaderLibrary, set_header, insert_named, header_value, remove_all, remove_parsed, flatten,
  from_nats_headers,
}
use flatbed.NatsHeaders.Laws.{
  HeaderLaws, values, is_plain_name, holds_all, is_printable, arrived, trimmed,
}
use flatbed.NatsHeaders.Values.{filter_list, values-hop}

abbrev pub one_of_names : Text → List Text → Bool
one_of_names t [] = false
one_of_names t (s ∷ ss) = (s == t) || one_of_names t ss

abbrev pub all_plain : List Text → Bool
all_plain [] = true
all_plain (t ∷ ts) = is_plain_name t && all_plain ts

drop_either :
    (a b : Bool) (vs : List Text)
    → (if b then [] else (if a then [] else vs)) ≡ (if a || b then [] else vs)
drop_either true true vs = refl
drop_either true false vs = refl
drop_either false b vs = refl

module _ ⦃http : HeaderLibrary⦄ where
  abbrev pub visible_first : List Text → Option Text
  visible_first vs = do v ← first vs; (if http.is_visible v then some v else none)

module _ ⦃http : HeaderLibrary⦄ ⦃laws : HeaderLaws⦄ where
  pub header_value-values :
      (t : Text) (h : http.Map)
      → is_plain_name t ≡ true
      → header_value t h ≡ visible_first (values t h)
  unfolding header_value
  header_value-values t h plain =
      let (n, (e, same)) = laws.parse-plain t plain in rw (e, laws.get-values n h, same)

  -- A value that may be sent as it is takes the place of those there were.
  pub set_header-values :
      (s t v : Text) (h : http.Map)
      → is_plain_name t ≡ true
      → holds_all is_printable (flatten v) ≡ true
      → values s (set_header t v h) ≡ (if t == s then flatten v ∷ [] else values s h)
  unfolding set_header
  set_header-values s t v h plain good =
      let (n, (e, same)) = laws.parse-plain t plain in
      let carried = laws.visible-value (flatten v) (laws.printable-visible (flatten v) good) in
      ap (λ o. values s (insert_named o (flatten v) h)) e
      ∙ ap (λ b. values s (if b then http.insert n (flatten v) h else h)) carried
      ∙ laws.values-insert s n (flatten v) h
      ∙ ap (λ u. if u == s then flatten v ∷ [] else values s h) same

  -- Whatever is set under a name, the values under others stay.
  pub set_header-others :
      (s t v : Text) (h : http.Map)
      → is_plain_name t ≡ true
      → (t == s) ≡ false
      → values s (set_header t v h) ≡ values s h
  unfolding set_header
  set_header-others s t v h plain other =
      let (n, (e, same)) = laws.parse-plain t plain in
      ap (λ o. values s (insert_named o (flatten v) h)) e
      ∙ elim (Bool-cases (http.is_value (flatten v))) [
        | inl f ↦
            ap (λ b. values s (if b then http.insert n (flatten v) h else h)) f
            ∙ laws.values-insert s n (flatten v) h
            ∙ rw (same, other)
        | inr f ↦ ap (λ b. values s (if b then http.insert n (flatten v) h else h)) f
      ]

  pub values-remove_all :
      (s : Text) (ts : List Text) (h : http.Map)
      → all_plain ts ≡ true
      → values s (remove_all ts h) ≡ (if one_of_names s ts then [] else values s h)
  unfolding remove_all
  values-remove_all s [] h plain = refl
  values-remove_all s (t ∷ ts) h plain =
      let (one, rest) = both (is_plain_name t) (all_plain ts) plain in
      let (n, (e, same)) = laws.parse-plain t one in
      ap (λ o. values s (remove_all ts (remove_parsed o h))) e
      ∙ values-remove_all s ts (http.remove n h) rest
      ∙ ap (λ vs. if one_of_names s ts then [] else vs)
          (laws.values-remove s n h ∙ ap (λ u. if u == s then [] else values s h) same)
      ∙ drop_either (t == s) (one_of_names s ts) (values s h)

  -- A header of one text arrives, trimmed.
  pub header_value-hop :
      (t v : Text) (h : http.Map)
      → is_plain_name t ≡ true
      → http.is_visible v ≡ true
      → values t h ≡ v ∷ []
      → header_value t (from_nats_headers (arrived h)) ≡ some (http.trim v)
  header_value-hop t v h plain good only =
      header_value-values t (from_nats_headers (arrived h)) plain
      ∙ ap visible_first (values-hop t h ∙ ap (λ vs. trimmed (filter_list http.is_visible vs)) only)
      ∙ rw (good, laws.trim-visible v good)

  -- A header without a value does not.
  pub header_value-absent :
      (t : Text) (h : http.Map)
      → is_plain_name t ≡ true
      → filter_list http.is_visible (values t h) ≡ []
      → header_value t (from_nats_headers (arrived h)) ≡ none
  header_value-absent t h plain absent =
      header_value-values t (from_nats_headers (arrived h)) plain
      ∙ ap visible_first (values-hop t h ∙ ap trimmed absent)
