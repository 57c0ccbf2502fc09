-- ===== src/LocalQueue/Calls.antt =====
-- local_queue.rs: what the calls of a producer and the end of an attempt do to every key's status.
use flatbed.Base.{
  ℕ, ◌+◌, ◌≡◌, refl, sym, subst, ◌∙◌, Bool, true, false, ◌&&◌, Option, none, some, [], ◌∷◌, ◌++◌,
  HasEq, ◌==◌, inl, inr, Option-cases, Bool-cases, beq_cases, Result, ok, err, ltb, length, remove,
}
use flatbed.Base.Keyed.{
  find, find-position-none, find-Absent, find-remove_ne, Absent, position-Absent,
  position-append_ne, position-append_self, Absent-remove-position,
}
use flatbed.LocalQueue.{
  Worker, KeyStatus, in_hand, dead_lettered, absent, SendError, Aside, State, Shared, queued_index,
  dead_index, dead_status, entry_key, aside_key, new_entry, is_in_hand, has_room, held, status,
  send, forget,
}
use flatbed.LocalQueue.Keys.{IsKeyed}
use flatbed.LocalQueue.Status.{status_hand, status_line, status_aside}

-- What a send makes of the status of a key: only its own key moves, from nowhere to the end.
abbrev pub after_send : Result SendError (Unit {0}) → Bool → ℕ → KeyStatus → KeyStatus
after_send (ok _) true len absent = KeyStatus.queued (len + 1)
after_send _ _ _ st = st

-- What a `forget` that returned `true` makes of the status of its key.
abbrev pub after_forget : Bool → KeyStatus → KeyStatus
after_forget true (dead_lettered letter) = absent
after_forget _ st = st

module _ {K M : Type 0} where
  abbrev view : Bool → Option ℕ → Option (Aside K M) → KeyStatus
  view true place found = in_hand
  view false (some i) found = KeyStatus.queued (i + 1)
  view false none found = dead_status found

  after_send-ne-absent :
      (r : Result SendError (Unit {0})) (b : Bool) (len : ℕ) (hand : Bool) (i : ℕ)
      (found : Option (Aside K M))
      → after_send r b len (view hand (some i) found) ≡ view hand (some i) found
  after_send-ne-absent (ok _) true len true i found = refl
  after_send-ne-absent (ok _) true len false i found = refl
  after_send-ne-absent (ok _) false len hand i found = refl
  after_send-ne-absent (err e) b len hand i found = refl

  after_send-new :
      (len : ℕ) (hand : Bool) (found : Option (Aside K M))
      → found ≡ none
      → view hand (some len) found ≡ after_send (ok tt) true len (view hand none found)
  after_send-new len true found e = refl
  after_send-new len false found e = rw e

  after_forget-gone :
      (hand : Bool) (place : Option ℕ) (found : Option (Aside K M))
      → view hand place none ≡ after_forget true (view hand place found)
  after_forget-gone true place found = refl
  after_forget-gone false (some i) found = refl
  after_forget-gone false none none = refl
  after_forget-gone false none (some a) = refl

module _ {K M : Type 0} ⦃eq : HasEq K⦄ where
  status-view :
      (s : State K M) (k : K)
      → status s k ≡ view (is_in_hand k s.in_flight) (queued_index s k) (find aside_key k s.dead)
  status-view s k = elim (Bool-cases (is_in_hand k s.in_flight)) [
    | inl t ↦ rw t (status_hand s k t)
    | inr f ↦ elim (Option-cases (queued_index s k)) [
      | inl n ↦ rw (f, n) (status_aside s k f n)
      | inr (i, e) ↦ rw (f, e) (status_line s k i f e)
    ]
  ]

  -- Where the keys stand in one place each, forgetting a key makes its dead letter absent and
  -- changes no other status.
  pub forget-status :
      (k j : K) (h : Shared K M)
      → IsKeyed h.state
      → status (forget k h).1.state j ≡ after_forget ((forget k h).0 && (k == j)) (status h.state j)
  unfolding forget
  forget-status k j h v = elim (Option-cases (dead_index h.state k)) [
    | inl e ↦ rw (e, forget)
    | inr (i, e) ↦ elim (beq_cases k j) [
      | inr (f, ne) ↦
          rw (e, forget, f, status-view h.state j)
            (status-view _ j ∙ rw (find-remove_ne aside_key k j h.dead i e ne))
      | inl (t, p) ↦
          rw (e, forget, t, status-view h.state j)
            (status-view _ j
              ∙ rw
                  (find-Absent aside_key j (remove h.dead i) (
                    subst (λ x. Absent aside_key x (remove h.dead i)) p
                      (Absent-remove-position aside_key k h.dead i v.dead_distinct e)))
                  (after_forget-gone _ _ _))
    ]
  ]

  coalesced-status :
      (s : State K M) (key k : K) (i len : ℕ)
      → queued_index s key ≡ some i
      → status s k ≡ after_send (ok tt) (key == k) len (status s k)
  coalesced-status s key k i len f = elim (beq_cases key k) [
    | inr (b, ne) ↦ rw b
    | inl (b, p) ↦
        let q : queued_index s k ≡ some i = subst (λ x. queued_index s x ≡ some i) p f in
        rw (b, status-view s k, q) (sym (after_send-ne-absent (ok tt) true len _ i _))
  ]

  pushed-status :
      (s : State K M) (msg : M) (key k : K)
      → queued_index s key ≡ none
      → dead_index s key ≡ none
      → status (record s { queued = s.queued ++ new_entry key msg ∷ [] }) k
        ≡ after_send (ok tt) (key == k) (length s.queued) (status s k)
  pushed-status s msg key k f e = elim (beq_cases key k) [
    | inr (b, ne) ↦
        rw (b, status-view s k)
          (status-view _ k ∙ rw (position-append_ne entry_key k s.queued (new_entry key msg) ne))
    | inl (b, p) ↦
        rw (b, ← p, status-view s key, f, find-position-none aside_key key s.dead e)
          (status-view _ key
            ∙ rw
                (
                  position-append_self entry_key s.queued (new_entry key msg)
                      (position-Absent entry_key key s.queued f),
                  find-position-none aside_key key s.dead e,
                )
                (after_send-new (length s.queued) _ none refl))
  ]

module _ {K M : Type 0} ⦃eq : HasEq K⦄ (w : Worker K M) where
  -- A send that succeeds on a key that stood nowhere puts it at the end of the line; whatever a
  -- send returns, no other status changes.
  pub send-status :
      (msg : M) (k : K) (h : Shared K M)
      → status (send w msg h).1.state k
        ≡ after_send (send w msg h).0 (w.key msg == k) (length h.queued) (status h.state k)
  unfolding send has_room
  send-status msg k h = elim (Option-cases (dead_index h.state (w.key msg))) [
    | inr (i, e) ↦ rw (e, send)
    | inl e ↦ elim (Option-cases (queued_index h.state (w.key msg))) [
      | inr (i, f) ↦ rw (e, f, send) (coalesced-status h.state (w.key msg) k i (length h.queued) f)
      | inl f ↦ elim (Bool-cases (ltb (held h.state) w.capacity)) [
        | inr g ↦ rw (e, f, g, send)
        | inl g ↦ rw (e, f, g, send) (pushed-status h.state msg (w.key msg) k f e)
      ]
    ]
  ]
