-- ===== src/LocalQueue/Invariant.antt =====
-- local_queue.rs: what holds of the queue whatever its users call, in whatever order.
use flatbed.Base.{
  ℕ, suc, ◌≤◌, ◌≡◌, inl, inr, refl, subst, String, Option, none, some, List, [], ◌∷◌, HasEq, ltb,
  arith, length, length-append, length-modify, Bool-cases, Option-cases, ltb→lt,
}
use flatbed.Base.Keyed.{
  Absent, Found, position-Found, position-Absent, Absent-position, Absent-remove-position,
  length-remove-le,
}
use flatbed.LocalQueue.Keys.{
  IsKeyed, push-IsKeyed, remove_dead-IsKeyed, release_in_flight-IsKeyed, bury-IsKeyed, next-IsKeyed,
  back_in_line-IsKeyed, forget-IsKeyed, length-evict-le,
}
use flatbed.LocalQueue.{
  Worker, DeadLetterCause, Entry, InHand, State, Shared, with_reason, failed, timed_out, entry_key,
  aside_key, new_entry, remove_at, queued_index, dead_index, held, has_room, set_aside, send,
  requeue_aside, requeue, forget, next, is_exhausted, take_over, back_in_line, retry_hand, retry,
  fail, release_in_flight, clear, exhausted,
}

module _ {K M : Type 0} ⦃eq : HasEq K⦄ (w : Worker K M) where
  -- The keys stand in one place each, and the queue and the dead letters are within their limits.
  pub record IsValid (s : State K M) : Type 0 where
    pub keyed : IsKeyed s
    pub room : held s ≤ w.capacity
    pub dead_room : length s.dead ≤ w.dead_letter_capacity

  pub send-IsValid : (msg : M) (h : Shared K M) → IsValid h.state → IsValid (send w msg h).1.state
  unfolding send has_room
  send-IsValid msg h v = elim (Option-cases (dead_index h.state (w.key msg))) [
    | inr (i, e) ↦ rw (e, send) v
    | inl e ↦ elim (Option-cases (queued_index h.state (w.key msg))) [
      | inr (i, f) ↦ rw (e, f, send) v
      | inl f ↦ elim (Bool-cases (ltb (held h.state) w.capacity)) [
        | inr g ↦ rw (e, f, g, send) v
        | inl g ↦
            rw (e, f, g, send)
              (record {
                keyed =
                    push-IsKeyed (new_entry (w.key msg) msg) v.keyed
                      (position-Absent entry_key (w.key msg) h.queued f)
                      (position-Absent aside_key (w.key msg) h.dead e);
                room =
                    omega (
                      arith,
                      ltb→lt _ _ g,
                      length-append h.queued (new_entry (w.key msg) msg ∷ []),
                    );
                dead_room = v.dead_room;
              })
      ]
    ]
  ]

  pub requeue-IsValid : (k : K) (h : Shared K M) → IsValid h.state → IsValid (requeue w k h).1.state
  unfolding requeue has_room requeue_aside
  requeue-IsValid k h v = elim (Option-cases (dead_index h.state k)) [
    | inl e ↦ rw (e, requeue) v
    | inr (i, e) ↦ elim (Bool-cases (ltb (held h.state) w.capacity)) [
      | inr g ↦ rw (e, g, requeue) v
      | inl g ↦
          let (a, here, same) =
            subst (Found aside_key k h.dead) e (position-Found aside_key k h.dead) in
          rw (e, g, here, requeue)
            (record {
              keyed =
                  push-IsKeyed (new_entry a.key a.msg) (remove_dead-IsKeyed i v.keyed)
                    (rw same (not_queued i e))
                    (rw same (Absent-remove-position aside_key k h.dead i v.keyed.dead_distinct e));
              room =
                  omega (arith, ltb→lt _ _ g, length-append h.queued (new_entry a.key a.msg ∷ []));
              dead_room = omega (arith, v.dead_room, length-remove-le aside_key h.dead i);
            })
    ]
  ]
    where
      not_queued : (i : ℕ) → dead_index h.state k ≡ some i → Absent entry_key k h.queued
      not_queued i e = elim (v.keyed.apart k) [
        | inl c ↦ c
        | inr c ↦ absurd (cc (e, Absent-position aside_key k h.dead c))
      ]

  pub forget-IsValid : (k : K) (h : Shared K M) → IsValid h.state → IsValid (forget k h).1.state
  unfolding forget
  forget-IsValid k h v = record {
    keyed = forget-IsKeyed k h v.keyed;
    room = ground (arith, v.room);
    dead_room = elim (Option-cases (dead_index h.state k)) [
      | inl e ↦ rw (e, forget) v.dead_room
      | inr (i, e) ↦
          rw (e, forget) (omega (arith, v.dead_room, length-remove-le aside_key h.dead i))
    ];
  }

  pub next-IsValid : (s : State K M) → IsValid s → IsValid (next s).1
  unfolding next
  next-IsValid s v = record {
    keyed = next-IsKeyed v.keyed;
    room = ground (arith, v.room);
    dead_room = ground (arith, v.dead_room);
  }

  length-remove_at-le : (xs : List (Entry K M)) (o : Option ℕ) → length (remove_at xs o) ≤ length xs
  length-remove_at-le xs none = omega arith
  length-remove_at-le xs (some i) = length-remove-le entry_key xs i

  -- Setting aside the message that was taken from the hand.
  set_aside-IsValid :
      (hand : InHand K) (msg : M) (cause : DeadLetterCause) (now : ℕ) (s : State K M)
      → IsValid s
      → s.in_flight ≡ none
      → Absent aside_key hand.key s.dead
      → IsValid (set_aside w hand msg cause now s).1
  unfolding set_aside
  set_aside-IsValid hand msg cause now s v idle b = record {
    keyed = bury-IsKeyed w.dead_letter_capacity _ (queued_index s hand.key) refl v.keyed idle b;
    room = omega (arith, v.room, length-remove_at-le s.queued (queued_index s hand.key));
    dead_room = length-evict-le w.dead_letter_capacity _;
  }

  pub release_in_flight-IsValid : (s : State K M) → IsValid s → IsValid (release_in_flight s)
  unfolding release_in_flight
  release_in_flight-IsValid s v = record {
    keyed = release_in_flight-IsKeyed v.keyed;
    room = omega (arith, v.room);
    dead_room = v.dead_room;
  }

  -- With nothing in hand and room for one more.
  back_in_line-IsValid :
      (hand : InHand K) (msg : M) (s : State K M)
      → IsValid s
      → suc (held s) ≤ w.capacity
      → Absent aside_key hand.key s.dead
      → IsValid (back_in_line hand msg s)
  unfolding back_in_line
  back_in_line-IsValid hand msg s v space b = record {
    keyed = back_in_line-IsKeyed hand msg v.keyed b;
    room = elim (Option-cases (queued_index s hand.key)) [
      | inl e ↦ rw (e, back_in_line) (omega (arith, space, length-append {0} s.queued))
      | inr (i, e) ↦ rw (e, back_in_line, length-modify (take_over hand) s.queued i) v.room
    ];
    dead_room = elim (Option-cases (queued_index s hand.key)) [
      | inl e ↦ rw (e, back_in_line) v.dead_room
      | inr (i, e) ↦ rw (e, back_in_line) v.dead_room
    ];
  }

  module _ {s : State K M} (v : IsValid s) (hand : InHand K) (e : s.in_flight ≡ some hand) where
    -- A message in hand leaves room for itself.
    free-room : suc (held (release_in_flight s)) ≤ w.capacity
    unfolding release_in_flight
    free-room = ground (arith, v.room)

  pub retry-IsValid :
      (msg : M) (reason : String) (now : ℕ) (s : State K M)
      → IsValid s
      → IsValid (retry w msg reason now s).1
  unfolding retry retry_hand release_in_flight
  retry-IsValid msg reason now s v = elim (Option-cases s.in_flight) [
    | inl e ↦ rw (e, retry) v
    | inr (hand, e) ↦
        let told : InHand K = record hand { last_reason = some reason } in
        let b = v.keyed.hand_apart hand e in
        elim (Bool-cases (is_exhausted w.max_attempts hand.attempts)) [
          | inl t ↦
              rw (e, retry, t)
                (set_aside-IsValid told msg exhausted now _ (release_in_flight-IsValid s v) refl b)
          | inr f ↦
              rw (e, retry, f)
                (back_in_line-IsValid told msg _ (release_in_flight-IsValid s v)
                  (free-room v hand e) b)
        ]
  ]

  with_reason-key :
      (cause : DeadLetterCause) (hand : InHand K) → (with_reason cause hand).key ≡ hand.key
  with_reason-key exhausted hand = refl
  with_reason-key (timed_out after) hand = refl
  with_reason-key (failed reason) hand = refl

  pub fail-IsValid :
      (msg : M) (cause : DeadLetterCause) (now : ℕ) (s : State K M)
      → IsValid s
      → IsValid (fail w msg cause now s).1
  unfolding fail release_in_flight
  fail-IsValid msg cause now s v = elim (Option-cases s.in_flight) [
    | inl e ↦ rw (e, fail) v
    | inr (hand, e) ↦
        rw (e, fail)
          (set_aside-IsValid (with_reason cause hand) msg cause now _
            (release_in_flight-IsValid s v) refl
            (rw (with_reason-key cause hand) (v.keyed.hand_apart hand e)))
  ]

  pub clear-IsValid : (s : State K M) → IsValid (clear s).1
  unfolding clear
  clear-IsValid s = record {
    keyed = record {
      distinct = tt;
      dead_distinct = tt;
      apart = λ k. inl tt;
      hand_apart = λ hand e. cc;
    };
    room = omega arith;
    dead_room = omega arith;
  }
