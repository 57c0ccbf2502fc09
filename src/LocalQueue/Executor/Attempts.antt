-- ===== src/LocalQueue/Executor/Attempts.antt =====
-- local_queue.rs: the executor's task and the queue agree on the message in hand and its count.
use flatbed.Base.{
  ℕ, suc, ◌≤◌, ◌≡◌, refl, false, Option, none, some, List, [], ◌∷◌, HasEq, inl, inr, arith,
  Option-cases, Bool-cases, ltb, saturating_suc, u32_max, All, All-append, All-remove, All-modify,
  All-get_elem?, get_elem?, subst,
}
use flatbed.LocalQueue.{
  Worker, Entry, Aside, InHand, DeadLetterCause, State, Shared, dead_index, queued_index, held,
  send, requeue, requeue_aside, forget, next, has_room, new_entry, is_exhausted, take_over,
  back_in_line, set_aside, remove_at,
}
use flatbed.LocalQueue.Keys.{All-evict}
use flatbed.LocalQueue.Executor.{Phase, handling, System, poll}

-- `Option<NonZeroU32>`.
abbrev pub IsMax : Option ℕ → Type 0
IsMax none = Unit
IsMax (some most) = (1 ≤ most) × (most ≤ u32_max)

abbrev pub IsBelow : Option ℕ → ℕ → Type 0
IsBelow none n = Unit
IsBelow (some most) n = suc n ≤ most

abbrev pub IsWithin : Option ℕ → ℕ → Type 0
IsWithin none n = Unit
IsWithin (some most) n = n ≤ most

IsBelow-zero : (most : Option ℕ) → IsMax most → IsBelow most 0
IsBelow-zero none h = tt
IsBelow-zero (some most) h = h.0

IsWithin-saturating_suc :
    (most : Option ℕ) (n : ℕ) → IsBelow most n → IsWithin most (saturating_suc n)
IsWithin-saturating_suc none n h = tt
IsWithin-saturating_suc (some most) n h = ground arith

pub IsBelow-of_fresh : (most : Option ℕ) (n : ℕ) → is_exhausted most n ≡ false → IsBelow most n
unfolding is_exhausted
IsBelow-of_fresh none n h = tt
IsBelow-of_fresh (some most) n h = ground arith

module _ {K M : Type 0} ⦃eq : HasEq K⦄ (w : Worker K M) where
  -- An entry stands under its message's key, with attempts left.
  abbrev pub IsEntry : Entry K M → Type 0
  IsEntry x = (x.key ≡ w.key x.msg) × IsBelow w.max_attempts x.attempts

  abbrev pub IsAside : Aside K M → Type 0
  IsAside a = a.key ≡ w.key a.msg

  abbrev pub IsHand : M → ℕ → Option (InHand K) → Type 0
  IsHand msg n o =
      (hand : InHand K) × (o ≡ some hand)
      × (hand.key ≡ w.key msg)
      × (hand.attempts ≡ n)
      × IsWithin w.max_attempts n

  -- The hand is full exactly while the task handles a message, and holds that message's key.
  abbrev pub InPhase : Phase M → Option (InHand K) → Type 0
  InPhase (handling msg n) o = IsHand msg n o
  InPhase _ o = o ≡ none

  pub record IsLined (s : State K M) : Type 0 where
    pub line : All IsEntry s.queued
    pub aside : All IsAside s.dead

  abbrev pub IsCoherent : System K M → Type 0
  IsCoherent c = IsLined c.state × InPhase c.phase c.in_flight

  module _ (max : IsMax w.max_attempts) where
    new-IsEntry : (msg : M) → IsEntry (new_entry (w.key msg) msg)
    new-IsEntry msg = (refl, IsBelow-zero w.max_attempts max)

    pub send-IsLined :
        (msg : M) (h : Shared K M)
        → IsLined h.state
        → IsLined (send w msg h).1.state × ((send w msg h).1.in_flight ≡ h.in_flight)
    unfolding send has_room
    send-IsLined msg h v = elim (Option-cases (dead_index h.state (w.key msg))) [
      | inr (i, e) ↦ rw (e, send) (v, refl)
      | inl e ↦ elim (Option-cases (queued_index h.state (w.key msg))) [
        | inr (i, f) ↦ rw (e, f, send) (v, refl)
        | inl f ↦ elim (Bool-cases (ltb (held h.state) w.capacity)) [
          | inr g ↦ rw (e, f, g, send) (v, refl)
          | inl g ↦
              rw (e, f, g, send)
                (
                  record {
                    line = All-append IsEntry h.queued _ v.line (new-IsEntry msg, tt);
                    aside = v.aside;
                  },
                  refl,
                )
        ]
      ]
    ]

    pub requeue-IsLined :
        (k : K) (h : Shared K M)
        → IsLined h.state
        → IsLined (requeue w k h).1.state × ((requeue w k h).1.in_flight ≡ h.in_flight)
    unfolding requeue has_room requeue_aside
    requeue-IsLined k h v = elim (Option-cases (dead_index h.state k)) [
      | inl e ↦ rw (e, requeue) (v, refl)
      | inr (i, e) ↦ elim (Bool-cases (ltb (held h.state) w.capacity)) [
        | inr g ↦ rw (e, g, requeue) (v, refl)
        | inl g ↦ elim (Option-cases (get_elem? h.dead i)) [
          | inl f ↦ rw (e, g, f, requeue) (v, refl)
          | inr (a, f) ↦
              rw (e, g, f, requeue)
                (
                  record {
                    line = All-append IsEntry h.queued _ v.line (
                      (All-get_elem? IsAside h.dead i a v.aside f, IsBelow-zero w.max_attempts max),
                      tt,
                    );
                    aside = All-remove IsAside h.dead i v.aside;
                  },
                  refl,
                )
        ]
      ]
    ]

  pub forget-IsLined :
      (k : K) (h : Shared K M)
      → IsLined h.state
      → IsLined (forget k h).1.state × ((forget k h).1.in_flight ≡ h.in_flight)
  unfolding forget
  forget-IsLined k h v = elim (Option-cases (dead_index h.state k)) [
    | inl e ↦ rw (e, forget) (v, refl)
    | inr (i, e) ↦
        rw (e, forget) (record { line = v.line; aside = All-remove IsAside h.dead i v.aside }, refl)
  ]

  pub poll-IsCoherent :
      (h : Shared K M) → IsLined h.state → h.in_flight ≡ none → IsCoherent (poll w h)
  unfolding poll next
  poll-IsCoherent h v idle = from h.queued refl
    where
      from : (q : List (Entry K M)) → h.queued ≡ q → IsCoherent (poll w h)
      from [] e = rw (e, poll, next) (v, idle)
      from (x ∷ rest) e =
          let ((k, below), l) = subst (All IsEntry) e v.line in
          rw (e, poll, next)
            (
              record { line = l; aside = v.aside },
              (_, refl, k, refl, IsWithin-saturating_suc w.max_attempts x.attempts below),
            )

  pub set_aside-IsLined :
      (hand : InHand K) (msg : M) (cause : DeadLetterCause) (now : ℕ) (s : State K M)
      → hand.key ≡ w.key msg
      → IsLined s
      → IsLined (set_aside w hand msg cause now s).1
  unfolding set_aside
  set_aside-IsLined hand msg cause now s k v = record {
    line = line (queued_index s hand.key);
    aside =
        All-evict IsAside w.dead_letter_capacity _ (All-append IsAside s.dead _ v.aside (k, tt));
  }
    where
      line : (o : Option ℕ) → All IsEntry (remove_at s.queued o)
      line none = v.line
      line (some i) = All-remove IsEntry s.queued i v.line

  pub back_in_line-IsLined :
      (hand : InHand K) (msg : M) (s : State K M)
      → hand.key ≡ w.key msg
      → IsBelow w.max_attempts hand.attempts
      → IsLined s
      → IsLined (back_in_line hand msg s)
  unfolding back_in_line
  back_in_line-IsLined hand msg s k below v = elim (Option-cases (queued_index s hand.key)) [
    | inl e ↦
        rw (e, back_in_line)
          (record { line = All-append IsEntry s.queued _ v.line ((k, below), tt); aside = v.aside })
    | inr (i, e) ↦
        rw (e, back_in_line)
          (record {
            line =
                All-modify IsEntry (take_over hand) s.queued i
                  (λ x p. unfold take_over in (p.0, below)) v.line;
            aside = v.aside;
          })
  ]
