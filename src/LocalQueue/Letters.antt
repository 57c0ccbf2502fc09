-- ===== src/LocalQueue/Letters.antt =====
-- local_queue.rs: how a message is set aside, and who may send its key again.
use flatbed.Base.{
  ℕ, ◌+◌, ◌≤◌, ◌≡◌, ◌↔◌, refl, sym, subst, ◌∙◌, ap, true, false, Option, none, some, List, [], ◌∷◌,
  ◌++◌, HasEq, inl, inr, arith, Option-cases, Bool-cases, beq_cases, beq_refl, beq_ne, err, ltb,
  length, String,
}
use flatbed.Base.Keyed.{
  position, find, find-position-some, find-append, Absent, position-Absent, Absent-position,
  position-append_self, position-modify, Found, position-Found, Absent-remove-position,
}
use flatbed.LocalQueue.{
  Worker, KeyStatus, dead_lettered, is_dead_lettered, InHand, DeadLetterCause, exhausted, timed_out,
  failed, Aside, DeadLetter, State, Shared, queued_index, dead_index, dead_status, entry_key,
  aside_key, is_in_hand, has_room, status, send, evict, remove_at, set_aside, fail, retry,
  retry_hand, is_exhausted, release_in_flight, back_in_line, take_over,
}
use flatbed.LocalQueue.Keys.{IsKeyed, release_in_flight-IsKeyed}
use flatbed.LocalQueue.Status.{status_line, status_aside}

-- The place of a key with a resend at `i`, or with none in a line of `len`.
abbrev pub place_after : Option ℕ → ℕ → KeyStatus
place_after none len = KeyStatus.queued (len + 1)
place_after (some i) len = KeyStatus.queued (i + 1)

module _ {K M : Type 0} ⦃eq : HasEq K⦄ where
  -- The newest dead letter is never the one evicted.
  find-evict_last :
      (cap : ℕ) (xs : List (Aside K M)) (a : Aside K M)
      → 1 ≤ cap
      → Absent aside_key a.key xs
      → find aside_key a.key (evict cap (xs ++ a ∷ [])) ≡ some a
  unfolding evict find
  find-evict_last cap [] a h b = rw (lt_false cap h) (rw (beq_refl a.key))
    where
      lt_false : (c : ℕ) → 1 ≤ c → ltb c 1 ≡ false
      lt_false c h = ground arith
  find-evict_last cap (x ∷ xs) a h (ne, b) =
      elim (Bool-cases (ltb cap (length (x ∷ xs ++ a ∷ [])))) [
        | inl t ↦ rw t (find-evict_last cap xs a h b)
        | inr f ↦
            rw (f, beq_ne x.key a.key ne) (find-append aside_key a.key xs a b ∙ rw (beq_refl a.key))
      ]

  remove_at-Absent :
      (s : State K M) (k : K) (o : Option ℕ)
      → IsKeyed s
      → queued_index s k ≡ o
      → position entry_key k (remove_at s.queued o) ≡ none
  remove_at-Absent s k none v e = e
  remove_at-Absent s k (some i) v e =
      Absent-position entry_key k _ (Absent-remove-position entry_key k s.queued i v.distinct e)

  -- A key that is set aside is neither in hand nor in line.
  module _ {s : State K M} (v : IsKeyed s) (k : K) (i : ℕ) (e : dead_index s k ≡ some i) where
    not_in_hand : is_in_hand k s.in_flight ≡ false
    not_in_hand = go s.in_flight refl
      where
        go : (o : Option (InHand K)) → s.in_flight ≡ o → is_in_hand k o ≡ false
        go none p = unfold is_in_hand in refl
        go (some hand) p = elim (beq_cases hand.key k) [
          | inl (_, q) ↦ absurd (
              cc (
                e,
                Absent-position aside_key k s.dead
                    (subst (λ j. Absent aside_key j s.dead) q (v.hand_apart hand p)),
              ))
          | inr (f, _) ↦ unfold is_in_hand in f
        ]

    not_in_line : queued_index s k ≡ none
    not_in_line = elim (v.apart k) [
      | inl c ↦ Absent-position entry_key k s.queued c
      | inr c ↦ absurd (cc (e, Absent-position aside_key k s.dead c))
    ]

  -- The message of the hand becomes the dead letter of its key, and a resend of it is dropped.
  abbrev pub IsSetAside : InHand K → DeadLetterCause → Option DeadLetter × State K M → Type 0
  IsSetAside hand cause r =
      (letter : DeadLetter) × (r.0 ≡ some letter)
      × (letter.cause ≡ cause)
      × (letter.attempts ≡ hand.attempts)
      × (status r.1 hand.key ≡ dead_lettered letter)

module _ {K M : Type 0} ⦃eq : HasEq K⦄ (w : Worker K M) where
  set_aside-status :
      (hand : InHand K) (msg : M) (cause : DeadLetterCause) (now : ℕ) (s : State K M)
      → IsKeyed s
      → s.in_flight ≡ none
      → Absent aside_key hand.key s.dead
      → 1 ≤ w.dead_letter_capacity
      → status (set_aside w hand msg cause now s).1 hand.key
        ≡ dead_lettered (set_aside w hand msg cause now s).0
  unfolding set_aside
  set_aside-status hand msg cause now s v idle b cap =
      status_aside (set_aside w hand msg cause now s).1 hand.key (unfold is_in_hand in rw idle)
        (remove_at-Absent s hand.key (queued_index s hand.key) v refl)
      ∙ ap dead_status (find-evict_last w.dead_letter_capacity s.dead _ cap b)

  module _ (hand : InHand K) (msg : M) (now : ℕ) (s : State K M) (v : IsKeyed s)
      (e : s.in_flight ≡ some hand) (cap : 1 ≤ w.dead_letter_capacity) where
    aside_now :
        (told : InHand K) (cause : DeadLetterCause)
        → told.key ≡ hand.key
        → status (set_aside w told msg cause now (record s { in_flight = none })).1 told.key
          ≡ dead_lettered (set_aside w told msg cause now (record s { in_flight = none })).0
    aside_now told cause k =
        set_aside-status told msg cause now _
          (unfold release_in_flight in release_in_flight-IsKeyed v) refl
          (rw k (v.hand_apart hand e)) cap

    -- Where the keys stand in one place each and the dead letters have room for one, failing the
    -- message in hand, whatever the cause, returns a letter with that cause and the attempt count
    -- and makes it the status of the key, so that a queued resend is gone.
    pub fail-IsSetAside : (cause : DeadLetterCause) → IsSetAside hand cause (fail w msg cause now s)
    unfolding fail
    fail-IsSetAside exhausted =
        rw (e, fail)
          (
            _,
            refl,
            unfold set_aside in refl,
            unfold set_aside in refl,
            aside_now hand exhausted refl,
          )
    fail-IsSetAside (timed_out after) =
        rw (e, fail)
          (
            _,
            refl,
            unfold set_aside in refl,
            unfold set_aside in refl,
            aside_now hand (timed_out after) refl,
          )
    fail-IsSetAside (failed reason) =
        rw (e, fail)
          (
            _,
            refl,
            unfold set_aside in refl,
            unfold set_aside in refl,
            aside_now (record hand { last_reason = some reason }) (failed reason) refl,
          )

    -- Where the keys stand in one place each and the dead letters have room for one, a retry of the
    -- message in hand on its last attempt returns a letter that says the attempts are exhausted and
    -- makes it the status of the key, so that a queued resend is gone.
    pub retry-IsSetAside :
        (reason : String)
        → is_exhausted w.max_attempts hand.attempts ≡ true
        → IsSetAside hand exhausted (retry w msg reason now s)
    unfolding retry retry_hand
    retry-IsSetAside reason t =
        rw (e, retry, t)
          (
            _,
            refl,
            unfold set_aside in refl,
            unfold set_aside in refl,
            aside_now (record hand { last_reason = some reason }) exhausted refl,
          )

  -- A retry with attempts left returns no letter and leaves the key in line, at the place of its
  -- resend if there is one and at the end of the line otherwise.
  pub retry-place :
      (hand : InHand K) (msg : M) (reason : String) (now : ℕ) (s : State K M)
      → s.in_flight ≡ some hand
      → is_exhausted w.max_attempts hand.attempts ≡ false
      → ((retry w msg reason now s).0 ≡ none)
        × (status (retry w msg reason now s).1 hand.key
            ≡ place_after (queued_index s hand.key) (length s.queued))
  unfolding retry retry_hand back_in_line
  retry-place hand msg reason now s e f = elim (Option-cases (queued_index s hand.key)) [
    | inl q ↦
        rw (e, retry, f, q, back_in_line)
          (
            refl,
            status_line _ hand.key (length s.queued) (unfold is_in_hand in refl) (
                position-append_self entry_key s.queued _
                  (position-Absent entry_key hand.key s.queued q)),
          )
    | inr (i, q) ↦
        rw (e, retry, f, q, back_in_line)
          (
            refl,
            status_line _ hand.key i (unfold is_in_hand in refl) (
                position-modify entry_key (take_over (record hand { last_reason = some reason }))
                  (λ x. unfold take_over in refl) hand.key s.queued i
                ∙ q),
          )
  ]

  -- Where the keys stand in one place each, a send is refused as dead-lettered exactly while status
  -- shows the dead letter of its key.
  pub send_refused_iff :
      (msg : M) (h : Shared K M)
      → IsKeyed h.state
      → ((send w msg h).0 ≡ err is_dead_lettered)
        ↔ ((letter : DeadLetter) × (status h.state (w.key msg) ≡ dead_lettered letter))
  unfolding send has_room
  send_refused_iff msg h v = elim (Option-cases (dead_index h.state (w.key msg))) [
    | inr (i, e) ↦
        let (a, here, same) =
          subst (Found aside_key (w.key msg) h.dead) e
            (position-Found aside_key (w.key msg) h.dead) in
        (
          λ _. (
            a.letter,
            status_aside h.state (w.key msg) (not_in_hand v (w.key msg) i e)
                  (not_in_line v (w.key msg) i e)
                ∙ ap dead_status (sym (find-position-some aside_key (w.key msg) h.dead i e) ∙ here),
          ),
          λ _. rw (e, send),
        )
    | inl e ↦ (λ r. absurd (ground arith), λ p. absurd (unfold status in ground (arith, p.1)))
  ]
