-- ===== src/NatsHeaders/Values.antt =====
-- crates/flatbed/src/nats_route.rs: the values under a name after headers are copied, set, removed and
-- sent.
use flatbed.Base.{
  both, ◌≡◌, refl, sym, ap, ◌∙◌, Bool, true, false, List, [], ◌∷◌, ◌++◌, ◌&&◌, ◌==◌, list_keys,
  number_keys, if◌then◌else◌, Text, append_assoc, Option-cases, beq_cases, subst, Bool-cases,
  beq_refl, inl, inr,
}
use mathlib.Core.List.{append-nil}
use flatbed.NatsHeaders.{
  HeaderLibrary, copy_pairs, copy_headers, append_values, append_entry, append_entries,
  from_nats_headers, send_pairs, to_nats_headers,
}
use flatbed.NatsHeaders.Laws.{
  HeaderLaws, named, entered, every_name, texts, values, is_kept, is_kept_name, arrived, trimmed,
  all_visible, IsLines,
}

abbrev pub filter_list : (Text → Bool) → List Text → List Text
filter_list p [] = []
filter_list p (v ∷ vs) = if p v then v ∷ filter_list p vs else filter_list p vs

grow :
    (b : Bool) (xs : List Text) (v : Text) (ys : List Text)
    → (if b then xs ++ v ∷ [] else xs) ++ ys ≡ xs ++ (if b then v ∷ ys else ys)
grow true xs v ys = append_assoc xs (v ∷ []) ys
grow false xs v ys = refl

under_if :
    (b : Bool) (vs ws : List Text) → (if b then vs else []) ++ ws ≡ (if b then vs ++ ws else ws)
under_if true vs ws = refl
under_if false vs ws = refl

chosen :
    (b c : Bool) (p : Text → Bool) (v : Text) (vs : List Text)
    → p v ≡ b
    → (if b && c then v ∷ filter_list p vs else filter_list p vs)
      ≡ filter_list p (if c then v ∷ vs else vs)
chosen b true p v vs e = elim (Bool-cases b) [ inl f ↦ rw (e, f) | inr f ↦ rw (e, f) ]
chosen true false p v vs e = refl
chosen false false p v vs e = refl

module _ ⦃http : HeaderLibrary⦄ ⦃laws : HeaderLaws⦄ where
  pub values-copy_pairs :
      (t : Text) (ps : List (http.Name × Text)) (h : http.Map)
      → values t (copy_pairs ps h) ≡ values t h ++ named t (texts ps)
  values-copy_pairs t [] h = sym (append-nil (values t h))
  values-copy_pairs t ((n, v) ∷ ps) h =
      values-copy_pairs t ps (http.append n v h)
      ∙ ap (λ xs. xs ++ named t (texts ps)) (laws.values-append t n v h)
      ∙ grow (http.as_str n == t) (values t h) v (named t (texts ps))

  pub values-copy_headers : (t : Text) (h : http.Map) → values t (copy_headers h) ≡ values t h
  unfolding copy_headers
  values-copy_headers t h =
      values-copy_pairs t (http.pairs h) http.empty
      ∙ ap (λ xs. xs ++ values t h) (laws.values-empty t)

  -- A text is still a value when it is trimmed.
  filter_list-trimmed :
      (vs : List Text)
      → filter_list http.is_value (trimmed (filter_list http.is_visible vs))
        ≡ trimmed (filter_list http.is_visible vs)
  filter_list-trimmed [] = refl
  filter_list-trimmed (v ∷ vs) = elim (Bool-cases (http.is_visible v)) [
    | inl e ↦
        rw (e, laws.visible-value (http.trim v) (laws.trim-visible v e), filter_list-trimmed vs)
    | inr e ↦ rw (e, filter_list-trimmed vs)
  ]

  filter_list-all_visible : (vs : List Text) → all_visible (filter_list http.is_visible vs) ≡ true
  filter_list-all_visible [] = refl
  filter_list-all_visible (v ∷ vs) = elim (Bool-cases (http.is_visible v)) [
    | inl e ↦ rw (e, e, filter_list-all_visible vs)
    | inr e ↦ rw (e, filter_list-all_visible vs)
  ]

  append_if-values :
      (n : http.Name) (v : Text) (h : http.Map) (b : Bool)
      → values (http.as_str n) (if b then http.append n v h else h)
        ≡ (if b then values (http.as_str n) h ++ v ∷ [] else values (http.as_str n) h)
  append_if-values n v h true =
      laws.values-append (http.as_str n) n v h ∙ rw (beq_refl (http.as_str n))
  append_if-values n v h false = refl

  values-append_values :
      (n : http.Name) (vs : List Text) (h : http.Map)
      → values (http.as_str n) (append_values n vs h)
        ≡ values (http.as_str n) h ++ filter_list http.is_value vs
  values-append_values n [] h = sym (append-nil (values (http.as_str n) h))
  values-append_values n (v ∷ vs) h =
      let b = http.is_value v in
      let rest = filter_list http.is_value vs in
      values-append_values n vs (if b then http.append n v h else h)
      ∙ ap (λ xs. xs ++ rest) (append_if-values n v h b)
      ∙ grow b (values (http.as_str n) h) v rest

  append_if-others :
      (t : Text) (n : http.Name) (v : Text) (h : http.Map) (b : Bool)
      → (http.as_str n == t) ≡ false
      → values t (if b then http.append n v h else h) ≡ values t h
  append_if-others t n v h true other = laws.values-append t n v h ∙ rw other
  append_if-others t n v h false other = refl

  append_values-others :
      (t : Text) (n : http.Name) (vs : List Text) (h : http.Map)
      → (http.as_str n == t) ≡ false
      → values t (append_values n vs h) ≡ values t h
  append_values-others t n [] h other = refl
  append_values-others t n (v ∷ vs) h other =
      append_values-others t n vs (if http.is_value v then http.append n v h else h) other
      ∙ append_if-others t n v h (http.is_value v) other

  filter_list-append :
      (p : Text → Bool) (xs ys : List Text)
      → filter_list p (xs ++ ys) ≡ filter_list p xs ++ filter_list p ys
  filter_list-append p [] ys = refl
  filter_list-append p (x ∷ xs) ys = elim (Bool-cases (p x)) [
    | inl e ↦ rw (e, filter_list-append p xs ys)
    | inr e ↦ rw (e, filter_list-append p xs ys)
  ]

  -- A name that is read as it is written adds its values under itself.
  append_entry-values :
      (t s : Text) (vs : List Text) (h : http.Map)
      → is_kept s ≡ true
      → values t (append_entry (http.parse s) vs h)
        ≡ values t h ++ filter_list http.is_value (if s == t then vs else [])
  append_entry-values t s vs h kept = elim (Option-cases (http.parse s)) [
    | inl e ↦ cc (kept, ap (λ o. is_kept_name o s) e)
    | inr (n, e) ↦
        let same =
          (list_keys.eqb_iff (http.as_str n) s).0 (sym (ap (λ o. is_kept_name o s) e) ∙ kept) in
        elim (beq_cases s t) [
          | inl (e1, p) ↦
              ap (λ o. values t (append_entry o vs h)) e
              ∙ subst
                  (λ u.
                    values u (append_values n vs h) ≡ values u h ++ filter_list http.is_value vs)
                  (same ∙ p) (values-append_values n vs h)
              ∙ rw e1
          | inr (e1, p) ↦
              ap (λ o. values t (append_entry o vs h)) e
              ∙ append_values-others t n vs h (ap (λ u. u == t) same ∙ e1)
              ∙ sym (append-nil (values t h))
              ∙ rw e1
        ]
  ]

  values-append_entries :
      (t : Text) (es : List (Text × List Text)) (h : http.Map)
      → every_name is_kept es ≡ true
      → values t (append_entries es h) ≡ values t h ++ filter_list http.is_value (entered t es)
  values-append_entries t [] h kept = sym (append-nil (values t h))
  values-append_entries t ((s, vs) ∷ es) h kept =
      let (first_kept, rest_kept) = both (is_kept s) (every_name is_kept es) kept in
      let rest = filter_list http.is_value (entered t es) in
      values-append_entries t es (append_entry (http.parse s) vs h) rest_kept
      ∙ ap (λ xs. xs ++ rest) (append_entry-values t s vs h first_kept)
      ∙ append_assoc (values t h) (filter_list http.is_value (if s == t then vs else [])) rest
      ∙ ap (λ xs. values t h ++ xs)
          (sym (filter_list-append http.is_value (if s == t then vs else []) (entered t es)))
      ∙ ap (λ xs. values t h ++ filter_list http.is_value xs) (under_if (s == t) vs (entered t es))

  send_if-entered :
      (t s v : Text) (w : http.Wire) (b : Bool)
      → entered t (http.entries (if b then http.wire_append s v w else w)) ≡ (
          if b && (s == t)
          then entered t (http.entries w) ++ v ∷ []
          else entered t (http.entries w))
  send_if-entered t s v w true = laws.entered-append t s v w
  send_if-entered t s v w false = refl

  entered-send_pairs :
      (t : Text) (ps : List (http.Name × Text)) (w : http.Wire)
      → entered t (http.entries (send_pairs ps w))
        ≡ entered t (http.entries w) ++ filter_list http.is_visible (named t (texts ps))
  entered-send_pairs t [] w = sym (append-nil (entered t (http.entries w)))
  entered-send_pairs t ((n, v) ∷ ps) w =
      let b = http.is_visible v in
      let sent = if b then http.wire_append (http.as_str n) v w else w in
      let rest = filter_list http.is_visible (named t (texts ps)) in
      entered-send_pairs t ps sent
      ∙ ap (λ xs. xs ++ rest) (send_if-entered t (http.as_str n) v w b)
      ∙ grow (b && (http.as_str n == t)) (entered t (http.entries w)) v rest
      ∙ ap (λ xs. entered t (http.entries w) ++ xs)
          (chosen b (http.as_str n == t) http.is_visible v (named t (texts ps)) refl)

  send_if-kept :
      (n : http.Name) (v : Text) (w : http.Wire) (b : Bool)
      → every_name is_kept (http.entries (if b then http.wire_append (http.as_str n) v w else w))
        ≡ every_name is_kept (http.entries w)
  send_if-kept n v w true =
      laws.every_name-append is_kept (http.as_str n) v w
      ∙ rw (laws.parse-as_str n, beq_refl (http.as_str n))
  send_if-kept n v w false = refl

  send_pairs-kept :
      (ps : List (http.Name × Text)) (w : http.Wire)
      → every_name is_kept (http.entries (send_pairs ps w)) ≡ every_name is_kept (http.entries w)
  send_pairs-kept [] w = refl
  send_pairs-kept ((n, v) ∷ ps) w =
      send_pairs-kept ps (if http.is_visible v then http.wire_append (http.as_str n) v w else w)
      ∙ send_if-kept n v w (http.is_visible v)

  entered-to_nats_headers :
      (t : Text) (h : http.Map)
      → entered t (http.entries (to_nats_headers h)) ≡ filter_list http.is_visible (values t h)
  unfolding to_nats_headers
  entered-to_nats_headers t h =
      entered-send_pairs t (http.pairs h) http.wire_empty
      ∙ ap (λ es. entered t es ++ filter_list http.is_visible (values t h)) laws.entries-empty

  to_nats_headers-IsLines : (h : http.Map) → IsLines (to_nats_headers h)
  to_nats_headers-IsLines h t =
      ap all_visible (entered-to_nats_headers t h) ∙ filter_list-all_visible (values t h)

  to_nats_headers-kept :
      (h : http.Map) → every_name is_kept (http.entries (to_nats_headers h)) ≡ true
  unfolding to_nats_headers
  to_nats_headers-kept h =
      send_pairs-kept (http.pairs h) http.wire_empty ∙ ap (every_name is_kept) laws.entries-empty

  -- What headers become on the way from one service to another: the values that are text, trimmed.
  pub values-hop :
      (t : Text) (h : http.Map)
      → values t (from_nats_headers (arrived h))
        ≡ trimmed (filter_list http.is_visible (values t h))
  unfolding from_nats_headers
  values-hop t h =
      let wire = http.arrives (to_nats_headers h) in
      let lines = to_nats_headers-IsLines h in
      values-append_entries t (http.entries wire) http.empty
        (laws.every_name-arrives is_kept (to_nats_headers h) lines ∙ to_nats_headers-kept h)
      ∙ ap (λ xs. xs ++ filter_list http.is_value (entered t (http.entries wire)))
          (laws.values-empty t)
      ∙ ap (filter_list http.is_value) (
          laws.entered-arrives t (to_nats_headers h) lines
          ∙ ap trimmed (entered-to_nats_headers t h))
      ∙ filter_list-trimmed (values t h)
