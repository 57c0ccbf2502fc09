-- ===== src/LocalQueue.antt =====
-- crates/flatbed/src/local_queue.rs: the bounded, keyed queue of one `LocalQueueWorker` type.
-- `State` is what the mutex guards and `Shared` adds the `Notify` permit. A method takes the lock
-- once, so each is one function from the guarded state to the next; `SystemTime::now()` is an
-- argument, and the worker's associated constants and `key` are a record.
pub mod Keys
pub mod Invariant
pub mod Status
pub mod Calls
pub mod Letters
pub mod Executor
use flatbed.Base.{
  ℕ, zero, suc, ◌+◌, String, Bool, true, false, Option, none, some, List, [], ◌∷◌, ◌++◌, HasEq, ltb,
  leb, if◌then◌else◌, is_some, Result, ok, err, length, get_elem?, remove, modify, saturating_suc,
}
use flatbed.Base.Keyed.{position}

-- The constants and the `key` of a `LocalQueueWorker`. `max_attempts` holds a non-zero number.
pub record Worker (K M : Type 0) : Type 0 where
  pub key : M → K
  pub name : String
  pub capacity : ℕ
  pub max_attempts : Option ℕ
  pub handle_timeout : Option ℕ
  pub dead_letter_capacity : ℕ

pub data DeadLetterCause : Type 0 where
  exhausted : DeadLetterCause
  timed_out : (after : ℕ) → DeadLetterCause
  failed : String → DeadLetterCause

pub record DeadLetter : Type 0 where
  pub cause : DeadLetterCause
  pub attempts : ℕ
  pub last_reason : Option String
  pub set_at : ℕ

pub data KeyStatus : Type 0 where
  in_hand : KeyStatus
  queued : ℕ → KeyStatus
  dead_lettered : DeadLetter → KeyStatus
  absent : KeyStatus

pub record LocalQueueFull : Type 0 where
  pub worker : String
  pub capacity : ℕ

pub data SendError : Type 0 where
  full : LocalQueueFull → SendError
  is_dead_lettered : SendError

pub record Entry (K M : Type 0) : Type 0 where
  pub key : K
  pub msg : M
  pub attempts : ℕ
  pub last_reason : Option String

pub record InHand (K : Type 0) : Type 0 where
  pub key : K
  pub attempts : ℕ
  pub last_reason : Option String

pub record Aside (K M : Type 0) : Type 0 where
  pub key : K
  pub msg : M
  pub letter : DeadLetter

pub record State (K M : Type 0) : Type 0 where
  pub queued : List (Entry K M)
  pub in_flight : Option (InHand K)
  pub dead : List (Aside K M)

-- `wake` is the permit that `notify_one` leaves and `notified` takes.
pub record Shared (K M : Type 0) : Type 0 where
  pub state : State K M
  pub open state use *
  pub wake : Bool

-- `W::MAX_ATTEMPTS.is_some_and(|max| attempts >= max.get())`
pub is_exhausted : Option ℕ → ℕ → Bool
is_exhausted none attempts = false
is_exhausted (some most) attempts = leb most attempts

module _ {K : Type 0} where
  abbrev pub in_flight_count : Option (InHand K) → ℕ
  in_flight_count none = 0
  in_flight_count (some h) = 1

  abbrev with_reason : DeadLetterCause → InHand K → InHand K
  with_reason (failed reason) hand = record hand { last_reason = some reason }
  with_reason _ hand = hand

module _ {K : Type 0} ⦃eq : HasEq K⦄ where
  pub is_in_hand : K → Option (InHand K) → Bool
  is_in_hand k none = false
  is_in_hand k (some hand) = eq.eqb hand.key k

module _ {K M : Type 0} where
  abbrev pub entry_key : Entry K M → K
  entry_key x = x.key

  abbrev pub aside_key : Aside K M → K
  aside_key x = x.key

  abbrev pub new_entry : K → M → Entry K M
  new_entry k m = record { key = k; msg = m; attempts = 0; last_reason = none }

  abbrev pub new_sender : Shared K M
  new_sender = record { state = record { queued = []; in_flight = none; dead = [] }; wake = false }

  -- `while self.dead.len() > capacity { self.dead.pop_front() }`
  pub evict : ℕ → List (Aside K M) → List (Aside K M)
  evict cap [] = []
  evict cap (x ∷ xs) = if ltb cap (length (x ∷ xs)) then evict cap xs else x ∷ xs

  -- `state.dead[index].letter`, as the status that it makes.
  abbrev pub dead_status : Option (Aside K M) → KeyStatus
  dead_status none = absent
  dead_status (some a) = dead_lettered a.letter

  abbrev remove_at : List (Entry K M) → Option ℕ → List (Entry K M)
  remove_at xs none = xs
  remove_at xs (some i) = remove xs i

  abbrev pub held : State K M → ℕ
  held s = length s.queued + in_flight_count s.in_flight

  -- One round of the loop in `next`: what it returns, or nothing when it is to wait.
  pub next : State K M → Option (M × ℕ) × State K M
  next s = elim s.queued [
    | [] ↦ (none, s)
    | x ∷ rest ↦ (
      some (x.msg, saturating_suc x.attempts),
      record s {
        queued = rest;
        in_flight = some (record {
          key = x.key;
          attempts = saturating_suc x.attempts;
          last_reason = x.last_reason;
        });
      },
    )
  ]

  -- A resend that stands in for the message in hand takes over its count and its reason.
  take_over : InHand K → Entry K M → Entry K M
  take_over hand x = record x { attempts = hand.attempts; last_reason = hand.last_reason }

  pub release_in_flight : State K M → State K M
  release_in_flight s = record s { in_flight = none }

  pub clear : State K M → (ℕ × ℕ) × State K M
  clear s = ((held s, length s.dead), record { queued = []; in_flight = none; dead = [] })

module _ {K M : Type 0} ⦃eq : HasEq K⦄ where
  abbrev pub queued_index : State K M → K → Option ℕ
  queued_index s k = position entry_key k s.queued

  abbrev pub dead_index : State K M → K → Option ℕ
  dead_index s k = position aside_key k s.dead

  pub status : State K M → K → KeyStatus
  unfolding is_in_hand
  status s k = if is_in_hand k s.in_flight then in_hand else elim (queued_index s k) [
    | some i ↦ KeyStatus.queued (i + 1)
    | none ↦ elim (dead_index s k) [ some i ↦ dead_status (get_elem? s.dead i) | none ↦ absent ]
  ]

  pub forget : K → Shared K M → Bool × Shared K M
  forget k h = elim (dead_index h.state k) [
    | none ↦ (false, h)
    | some i ↦ (true, record h { state = record (h.state) { dead = remove h.dead i } })
  ]

  pub back_in_line : InHand K → M → State K M → State K M
  unfolding take_over
  back_in_line hand msg s = elim (queued_index s hand.key) [
    | none ↦
        let entry : Entry K M = record {
          key = hand.key;
          msg = msg;
          attempts = hand.attempts;
          last_reason = hand.last_reason;
        } in
        record s { queued = s.queued ++ entry ∷ [] }
    | some i ↦ record s { queued = modify (take_over hand) s.queued i }
  ]

module _ {K M : Type 0} ⦃eq : HasEq K⦄ (w : Worker K M) where
  has_room : State K M → Result LocalQueueFull (Unit {0})
  has_room s =
      if ltb (held s) w.capacity
      then ok tt
      else err (record { worker = w.name; capacity = w.capacity })

  pub set_aside : InHand K → M → DeadLetterCause → ℕ → State K M → DeadLetter × State K M
  unfolding evict
  set_aside hand msg cause now s =
      let letter : DeadLetter = record {
        cause = cause;
        attempts = hand.attempts;
        last_reason = hand.last_reason;
        set_at = now;
      } in
      let aside : Aside K M = record { key = hand.key; msg = msg; letter = letter } in
      (
        letter,
        record s {
          queued = remove_at s.queued (queued_index s hand.key);
          dead = evict w.dead_letter_capacity (s.dead ++ aside ∷ []);
        },
      )

  pub send : M → Shared K M → Result SendError (Unit {0}) × Shared K M
  unfolding has_room
  send msg h =
      if is_some (dead_index h.state (w.key msg))
      then (err is_dead_lettered, h)
      else if is_some (queued_index h.state (w.key msg))
      then (ok tt, h)
      else elim (has_room h.state) [
        | err f ↦ (err (full f), h)
        | ok _ ↦ (
          ok tt,
          record {
            state = record (h.state) { queued = h.queued ++ new_entry (w.key msg) msg ∷ [] };
            wake = true;
          },
        )
      ]

  requeue_aside :
      ℕ → Shared K M → Option (Aside K M) → Result LocalQueueFull (Unit {0}) × Shared K M
  requeue_aside i h none = (ok tt, h)
  requeue_aside i h (some a) = (
    ok tt,
    record {
      state = record (h.state) {
        dead = remove h.dead i;
        queued = h.queued ++ new_entry a.key a.msg ∷ [];
      };
      wake = true;
    },
  )

  pub requeue : K → Shared K M → Result LocalQueueFull (Unit {0}) × Shared K M
  unfolding has_room requeue_aside
  requeue k h = elim (dead_index h.state k) [
    | none ↦ (ok tt, h)
    | some i ↦ elim (has_room h.state) [
      | err f ↦ (err f, h)
      | ok _ ↦ requeue_aside i h (get_elem? h.dead i)
    ]
  ]

  retry_hand : InHand K → M → ℕ → State K M → Option DeadLetter × State K M
  unfolding is_exhausted
  retry_hand hand msg now s =
      if is_exhausted w.max_attempts hand.attempts
      then (let (letter, t) = set_aside hand msg exhausted now s in (some letter, t))
      else (none, back_in_line hand msg s)

  pub retry : M → String → ℕ → State K M → Option DeadLetter × State K M
  unfolding retry_hand
  retry msg reason now s = elim s.in_flight [
    | none ↦ (none, s)
    | some hand ↦
        retry_hand (record hand { last_reason = some reason }) msg now
          (record s { in_flight = none })
  ]

  pub fail : M → DeadLetterCause → ℕ → State K M → Option DeadLetter × State K M
  fail msg cause now s = elim s.in_flight [
    | none ↦ (none, s)
    | some hand ↦
        let (letter, t) =
          set_aside (with_reason cause hand) msg cause now (record s { in_flight = none }) in
        (some letter, t)
  ]
