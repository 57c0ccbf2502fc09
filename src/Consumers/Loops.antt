-- ===== src/Consumers/Loops.antt =====
-- crates/flatbed/src/nats.rs: the loop of run_stream_worker over changes of leadership; kv.rs: that of
-- run_kv_worker over watches. Times are in milliseconds.
use flatbed.Base.{
  ℕ, ◌+◌, ◌≤◌, ◌≡◌, Bool, true, false, List, [], ◌∷◌, Text, Result, ok, err, All, arith,
  if◌then◌else◌, inl, inr,
}
use flatbed.Reconciler.{
  Watch, Ending, returned, running, wait_until, wait_for_follower, wait_for_follower_loss,
}
use flatbed.Reconciler.Leadership.{wait_until-Waited}
use flatbed.Consumers.{Delivery, Deed, consume, WatchEntry, KvCall, watch_cycle}

-- How a round of consuming ends: by itself, with the receiver in some state, or by leadership.
pub data RoundEnd : Type 0 where
  consumer_ended : Result {0, 0} Text Unit → Watch → RoundEnd
  became_leader : RoundEnd

pub record StreamRound : Type 0 where
  pub deliveries : List Delivery
  pub ended : RoundEnd

module _ {M : Type 0} (parse : Text → Result {0, 0} Text M) where
  abbrev then_round :
      Watch × List (Deed M)
      → List (Watch × List (Deed M)) × Ending
      → List (Watch × List (Deed M)) × Ending
  then_round r (rest, ending) = (r ∷ rest, ending)

  abbrev after_end :
      RoundEnd
      → Watch
      → (Watch → List (Watch × List (Deed M)) × Ending)
      → List (Watch × List (Deed M)) × Ending
  after_end (consumer_ended (err reason) seen) w next = ([], returned (err reason))
  after_end (consumer_ended (ok u) seen) w next = next seen
  after_end became_leader w next = next (wait_for_follower_loss w)

  -- The deeds of each round, with the receiver as it begins.
  unfoldable follow : List StreamRound → Watch → List (Watch × List (Deed M)) × Ending
  unfolding consume wait_until
  follow [] w = ([], if (wait_for_follower w).0 then running else returned (ok tt))
  follow (r ∷ rs) w =
      let followed = wait_for_follower w in
      let rest = after_end r.ended followed.1 (λ seen. follow rs seen) in
      if followed.0
      then then_round (followed.1, consume parse r.deliveries) rest
      else ([], returned (ok tt))

  -- Without high availability there is one round, whatever the leadership.
  run_stream_worker :
      (ha_enabled : Bool)
      → Result {0, 0} Text Unit
      → List StreamRound
      → Watch
      → List (Watch × List (Deed M)) × Ending
  unfolding follow consume
  run_stream_worker true standalone rounds w = follow rounds w
  run_stream_worker false standalone [] w = ([], running)
  run_stream_worker false standalone (r ∷ rs) w =
      ((w, consume parse r.deliveries) ∷ [], returned standalone)

  abbrev Follows : Watch × List (Deed M) → Type 0
  Follows p = p.0.now ≡ false

  after_end-Follows :
      (e : RoundEnd) (w : Watch) (next : Watch → List (Watch × List (Deed M)) × Ending)
      → ((seen : Watch) → All Follows (next seen).0)
      → All Follows (after_end e w next).0
  after_end-Follows (consumer_ended (err reason) seen) w next all = tt
  after_end-Follows (consumer_ended (ok u) seen) w next all = all seen
  after_end-Follows became_leader w next all = all (wait_for_follower_loss w)

  -- With high availability, messages are consumed only in rounds that begin as follower.
  run_stream_worker-Follows :
      (standalone : Result {0, 0} Text Unit) (rounds : List StreamRound) (w : Watch)
      → All Follows (run_stream_worker true standalone rounds w).0
  unfolding run_stream_worker follow
  run_stream_worker-Follows standalone [] w = tt
  run_stream_worker-Follows standalone (r ∷ rs) w =
      let (f, l, o) = wait_until-Waited false w.now w.later in
      let rest =
        after_end-Follows r.ended (wait_for_follower w).1 (λ seen. follow rs seen)
          (λ seen. run_stream_worker-Follows standalone rs seen) in
      elim o [
        | inl (came, follows) ↦ rw came (follows, rest)
        | inr (came, leads, closed) ↦ rw came tt
      ]

-- What the lookup of the bucket answers, and then its watch.
pub data KvRound : Type 0 where
  no_bucket : (error : Text) → KvRound
  bucket : Result {0, 0} Text (List WatchEntry) → KvRound

abbrev lookup_backoff : ℕ
lookup_backoff = 5_000

abbrev watch_failure_backoff : ℕ
watch_failure_backoff = 5_000

abbrev reopen_delay : ℕ
reopen_delay = 1_000

module _ {V : Type 0} (parse_value : Text → Result {0, 0} Text V) where
  abbrev waited : List (KvCall V) × Bool → List (KvCall V) × ℕ
  waited (calls, failed) = (calls, (if failed then watch_failure_backoff else 0) + reopen_delay)

  -- The calls of each round, and the wait before the next one.
  run_kv_worker : List KvRound → List (List (KvCall V) × ℕ)
  unfolding watch_cycle
  run_kv_worker [] = []
  run_kv_worker (no_bucket e ∷ rounds) = ([], lookup_backoff) ∷ run_kv_worker rounds
  run_kv_worker (bucket watch ∷ rounds) =
      waited (watch_cycle parse_value watch) ∷ run_kv_worker rounds

  abbrev Waits : List (KvCall V) × ℕ → Type 0
  Waits p = reopen_delay ≤ p.1

  waited-Waits : (r : List (KvCall V) × Bool) → Waits (waited r)
  waited-Waits (calls, true) = omega arith
  waited-Waits (calls, false) = omega arith

  -- However often the bucket or its watch fails, a second passes before it is looked up again.
  run_kv_worker-Waits : (rounds : List KvRound) → All Waits (run_kv_worker rounds)
  unfolding run_kv_worker
  run_kv_worker-Waits [] = tt
  run_kv_worker-Waits (no_bucket e ∷ rounds) = (omega arith, run_kv_worker-Waits rounds)
  run_kv_worker-Waits (bucket watch ∷ rounds) =
      (waited-Waits (watch_cycle parse_value watch), run_kv_worker-Waits rounds)
