-- ===== src/LocalQueue/Status.antt =====
-- local_queue.rs: the methods as producers see them, through `status`.
use flatbed.Base.{
  ℕ, zero, suc, ◌+◌, ◌≡◌, ◌≢◌, refl, sym, ◌∙◌, ap, true, false, Option, none, some, List, [], ◌∷◌,
  HasEq, inl, inr, arith, Option-cases, beq_cases,
}
use flatbed.Base.Keyed.{position, find, find-position-some, find-position-none}
use flatbed.LocalQueue.{
  KeyStatus, in_hand, absent, Entry, Aside, State, queued_index, dead_index, dead_status, entry_key,
  aside_key, is_in_hand, status, next,
}
use native.Mathlib.Numerals.{add-one}

-- A place in line moves up by one; the first goes into the hand.
abbrev pub moved_up : ℕ → KeyStatus
moved_up zero = absent
moved_up (suc zero) = in_hand
moved_up (suc (suc n)) = KeyStatus.queued (suc n)

module _ {K M : Type 0} ⦃eq : HasEq K⦄ where
  -- The three ways in which `status` answers.
  pub status_hand : (s : State K M) (k : K) → is_in_hand k s.in_flight ≡ true → status s k ≡ in_hand
  unfolding status
  status_hand s k h = rw h

  pub status_line :
      (s : State K M) (k : K) (i : ℕ)
      → is_in_hand k s.in_flight ≡ false
      → queued_index s k ≡ some i
      → status s k ≡ KeyStatus.queued (i + 1)
  unfolding status
  status_line s k i h e = rw (h, e, status)

  pub status_aside :
      (s : State K M) (k : K)
      → is_in_hand k s.in_flight ≡ false
      → queued_index s k ≡ none
      → status s k ≡ dead_status (find aside_key k s.dead)
  unfolding status
  status_aside s k h e = elim (Option-cases (dead_index s k)) [
    | inl d ↦ rw (h, e, d, status, find-position-none aside_key k s.dead d)
    | inr (i, d) ↦ rw (h, e, d, status, find-position-some aside_key k s.dead i d)
  ]

  dead_status-ne-queued : (o : Option (Aside K M)) (n : ℕ) → dead_status o ≢ KeyStatus.queued n
  dead_status-ne-queued none n e = cc
  dead_status-ne-queued (some a) n e = cc

  -- A place in line is the position in the queue, counted from 1.
  place_of_status :
      (s : State K M) (k : K) (n : ℕ)
      → s.in_flight ≡ none
      → status s k ≡ KeyStatus.queued n
      → (i : ℕ) × (queued_index s k ≡ some i) × (n ≡ suc i)
  unfolding is_in_hand
  place_of_status s k n idle e =
      let h : is_in_hand k s.in_flight ≡ false = rw idle in
      elim (Option-cases (queued_index s k)) [
        | inl q ↦
            absurd
              (dead_status-ne-queued (find aside_key k s.dead) n (sym (status_aside s k h q) ∙ e))
        | inr (i, q) ↦ (i, q, ground (arith, status_line s k i h q))
      ]

  next_front :
      (s : State K M) (x : Entry K M) (rest : List (Entry K M)) (k : K) (i : ℕ)
      → s.queued ≡ x ∷ rest
      → queued_index s k ≡ some i
      → status (next s).1 k ≡ moved_up (suc i)
  unfolding next
  next_front s x rest k i e q = elim (beq_cases x.key k) [
    | inl (t, p) ↦
        let first : i ≡ 0 = unfold position in ground (arith, ap (position entry_key k) e) in
        rw first (status_hand (next s).1 k (unfold is_in_hand in rw (e, next) t))
    | inr (f, p) ↦ elim (Option-cases (position entry_key k rest)) [
      | inl n ↦ absurd (unfold position in ground (arith, ap (position entry_key k) e))
      | inr (j, r) ↦
          let later : i ≡ suc j = unfold position in ground (arith, ap (position entry_key k) e) in
          rw (later, ← add-one)
            (status_line (next s).1 k j (unfold is_in_hand in rw (e, next) f) (rw (e, next) r))
    ]
  ]

  -- First in, first out: with nothing in hand, next takes the key whose status is place 1 and moves
  -- every other key in line up one place.
  pub next-status :
      (s : State K M) (k : K) (n : ℕ)
      → s.in_flight ≡ none
      → status s k ≡ KeyStatus.queued n
      → status (next s).1 k ≡ moved_up n
  next-status s k n idle st = from s.queued refl (place_of_status s k n idle st)
    where
      from :
          (q : List (Entry K M))
          → s.queued ≡ q
          → ((i : ℕ) × (queued_index s k ≡ some i) × (n ≡ suc i))
          → status (next s).1 k ≡ moved_up n
      from [] e (i, q, same) =
          absurd (unfold position in ground (arith, ap (position entry_key k) e))
      from (x ∷ rest) e (i, q, same) = rw same (next_front s x rest k i e q)
