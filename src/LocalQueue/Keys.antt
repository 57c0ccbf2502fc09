-- ===== src/LocalQueue/Keys.antt =====
-- local_queue.rs: where each key of the queue stands, and that every method keeps it in one place.
use flatbed.Base.{
  ℕ, ◌≤◌, ◌≡◌, ◌≢◌, ◌⊎◌, inl, inr, refl, subst, Option, none, some, List, [], ◌∷◌, ◌++◌, HasEq, ltb,
  arith, length, All, All-remove, remove, Bool-cases, Option-cases, beq_cases,
}
use flatbed.Base.Keyed.{
  Absent, Distinct, position-Absent, Distinct-remove, Absent-remove-position, Distinct-append,
  Absent-append, Absent-modify, Distinct-modify,
}
use flatbed.LocalQueue.{
  Entry, InHand, Aside, State, Shared, entry_key, aside_key, evict, remove_at, queued_index,
  dead_index, forget, next, take_over, back_in_line, release_in_flight,
}

module _ {K M : Type 0} where
  pub All-evict :
      (P : Aside K M → Type 0) (cap : ℕ) (xs : List (Aside K M)) → All P xs → All P (evict cap xs)
  unfolding evict
  All-evict P cap [] h = tt
  All-evict P cap (x ∷ xs) h = elim (Bool-cases (ltb cap (length (x ∷ xs)))) [
    | inl t ↦ rw t (All-evict P cap xs h.1)
    | inr f ↦ rw f h
  ]

  pub length-evict-le : (cap : ℕ) (xs : List (Aside K M)) → length (evict cap xs) ≤ cap
  unfolding evict
  length-evict-le cap [] = omega arith
  length-evict-le cap (x ∷ xs) = ground (arith, length-evict-le cap xs)

module _ {K M : Type 0} ⦃eq : HasEq K⦄ where
  Distinct-evict :
      (cap : ℕ) (xs : List (Aside K M)) → Distinct aside_key xs → Distinct aside_key (evict cap xs)
  unfolding evict
  Distinct-evict cap [] d = tt
  Distinct-evict cap (x ∷ xs) d = elim (Bool-cases (ltb cap (length (x ∷ xs)))) [
    | inl t ↦ rw t (Distinct-evict cap xs d.1)
    | inr f ↦ rw f d
  ]

  -- Every key stands in one place: once in line, or once set aside. The key in hand is not set
  -- aside, though it may be in line again.
  pub record IsKeyed (s : State K M) : Type 0 where
    pub distinct : Distinct entry_key s.queued
    pub dead_distinct : Distinct aside_key s.dead
    pub apart : (k : K) → Absent entry_key k s.queued ⊎ Absent aside_key k s.dead
    pub hand_apart : (hand : InHand K) → s.in_flight ≡ some hand → Absent aside_key hand.key s.dead

  pub push-IsKeyed :
      {s : State K M} (x : Entry K M)
      → IsKeyed s
      → Absent entry_key x.key s.queued
      → Absent aside_key x.key s.dead
      → IsKeyed (record s { queued = s.queued ++ x ∷ [] })
  push-IsKeyed {s} x v a b = record {
    distinct = Distinct-append entry_key s.queued x v.distinct a;
    dead_distinct = v.dead_distinct;
    apart = λ k. elim (beq_cases x.key k) [
      | inl (_, p) ↦ inr (subst (λ j. Absent aside_key j s.dead) p b)
      | inr (_, ne) ↦ elim (v.apart k) [
        | inl c ↦ inl (Absent-append entry_key k s.queued x c ne)
        | inr c ↦ inr c
      ]
    ];
    hand_apart = v.hand_apart;
  }

  pub remove-IsKeyed :
      {s : State K M} (i : ℕ) → IsKeyed s → IsKeyed (record s { queued = remove s.queued i })
  remove-IsKeyed {s} i v = record {
    distinct = Distinct-remove entry_key s.queued i v.distinct;
    dead_distinct = v.dead_distinct;
    apart = λ k. elim (v.apart k) [
      | inl c ↦ inl (All-remove (λ x. x.key ≢ k) s.queued i c)
      | inr c ↦ inr c
    ];
    hand_apart = v.hand_apart;
  }

  pub remove_dead-IsKeyed :
      {s : State K M} (i : ℕ) → IsKeyed s → IsKeyed (record s { dead = remove s.dead i })
  remove_dead-IsKeyed {s} i v = record {
    distinct = v.distinct;
    dead_distinct = Distinct-remove aside_key s.dead i v.dead_distinct;
    apart = λ k. elim (v.apart k) [
      | inl c ↦ inl c
      | inr c ↦ inr (All-remove (λ x. x.key ≢ k) s.dead i c)
    ];
    hand_apart = λ hand e. All-remove (λ x. x.key ≢ hand.key) s.dead i (v.hand_apart hand e);
  }

  pub release_in_flight-IsKeyed : {s : State K M} → IsKeyed s → IsKeyed (release_in_flight s)
  unfolding release_in_flight
  release_in_flight-IsKeyed v = record {
    distinct = v.distinct;
    dead_distinct = v.dead_distinct;
    apart = v.apart;
    hand_apart = λ hand e. cc;
  }

  -- The key joins the dead letters and leaves the line.
  pub bury-IsKeyed :
      {s : State K M} (cap : ℕ) (a : Aside K M) (o : Option ℕ)
      → queued_index s a.key ≡ o
      → IsKeyed s
      → s.in_flight ≡ none
      → Absent aside_key a.key s.dead
      → IsKeyed (record s { queued = remove_at s.queued o; dead = evict cap (s.dead ++ a ∷ []) })
  bury-IsKeyed {s} cap a o found v idle b = record {
    distinct = distinct o;
    dead_distinct =
        Distinct-evict cap (s.dead ++ a ∷ [])
          (Distinct-append aside_key s.dead a v.dead_distinct b);
    apart = λ k. elim (beq_cases a.key k) [
      | inl (_, p) ↦ inl (subst (λ j. Absent entry_key j (remove_at s.queued o)) p (gone o found))
      | inr (_, ne) ↦ elim (v.apart k) [
        | inl c ↦ inl (kept k o c)
        | inr c ↦ inr (All-evict (λ x. x.key ≢ k) cap _ (Absent-append aside_key k s.dead a c ne))
      ]
    ];
    hand_apart = λ hand e. cc;
  }
    where
      distinct : (r : Option ℕ) → Distinct entry_key (remove_at s.queued r)
      distinct none = v.distinct
      distinct (some i) = Distinct-remove entry_key s.queued i v.distinct

      gone :
          (r : Option ℕ) → queued_index s a.key ≡ r → Absent entry_key a.key (remove_at s.queued r)
      gone none e = position-Absent entry_key a.key s.queued e
      gone (some i) e = Absent-remove-position entry_key a.key s.queued i v.distinct e

      kept :
          (k : K) (r : Option ℕ)
          → Absent entry_key k s.queued
          → Absent entry_key k (remove_at s.queued r)
      kept k none c = c
      kept k (some i) c = All-remove (λ x. x.key ≢ k) s.queued i c

  pub next-IsKeyed : {s : State K M} → IsKeyed s → IsKeyed (next s).1
  unfolding next
  next-IsKeyed {s} v = from s.queued refl
    where
      from : (q : List (Entry K M)) → s.queued ≡ q → IsKeyed (next s).1
      from [] e = rw (e, next) v
      from (x ∷ rest) e =
          let d = subst (Distinct entry_key) e v.distinct in
          rw (e, next)
            (record {
              distinct = d.1;
              dead_distinct = v.dead_distinct;
              apart = λ k. elim (v.apart k) [
                | inl c ↦ inl (subst (Absent entry_key k) e c).1
                | inr c ↦ inr c
              ];
              hand_apart = λ hand h. elim (v.apart x.key) [
                | inl c ↦ absurd ((subst (Absent entry_key x.key) e c).0 refl)
                | inr c ↦
                    let same : x.key ≡ hand.key = ground arith in
                    subst (λ j. Absent aside_key j s.dead) same c
              ];
            })

  pub back_in_line-IsKeyed :
      {s : State K M} (hand : InHand K) (msg : M)
      → IsKeyed s
      → Absent aside_key hand.key s.dead
      → IsKeyed (back_in_line hand msg s)
  unfolding back_in_line
  back_in_line-IsKeyed {s} hand msg v b = elim (Option-cases (queued_index s hand.key)) [
    | inl e ↦
        rw (e, back_in_line) (push-IsKeyed _ v (position-Absent entry_key hand.key s.queued e) b)
    | inr (i, e) ↦
        rw (e, back_in_line)
          (record {
            distinct = Distinct-modify entry_key (take_over hand) (λ x. refl) s.queued i v.distinct;
            dead_distinct = v.dead_distinct;
            apart = λ k. elim (v.apart k) [
              | inl c ↦ inl (Absent-modify entry_key (take_over hand) (λ x. refl) k s.queued i c)
              | inr c ↦ inr c
            ];
            hand_apart = v.hand_apart;
          })
  ]

  pub forget-IsKeyed : (k : K) (h : Shared K M) → IsKeyed h.state → IsKeyed (forget k h).1.state
  unfolding forget
  forget-IsKeyed k h v = elim (Option-cases (dead_index h.state k)) [
    | inl e ↦ rw (e, forget) v
    | inr (i, e) ↦ rw (e, forget) (remove_dead-IsKeyed i v)
  ]
