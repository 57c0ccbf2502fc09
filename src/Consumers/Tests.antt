-- ===== src/Consumers/Tests.antt =====
-- nats.rs and kv.rs: small runs.
use flatbed.Base.{ℕ, ◌≡◌, refl, true, false, some, List, [], ◌∷◌, Text, codes, Result, ok, err}
use flatbed.Consumers.{
  ack, retry, Delivery, receive_error, message, consume, wait_for_stream, put, delete, purge, entry,
  entry_error, on_put, on_delete, watched, watch_cycle,
}
use flatbed.Consumers.Acks.{acknowledged}

-- A message is a text of one byte, and stands for it.
abbrev one_byte : Text → Result {0, 0} Text ℕ
one_byte (c ∷ []) = ok c
one_byte t = err t

abbrev deliveries : List Delivery
deliveries =
    message (7 ∷ []) ack
    ∷ message [] ack
    ∷ receive_error (codes "gone")
    ∷ message (8 ∷ []) (retry (codes "later"))
    ∷ []

acked : acknowledged (consume one_byte deliveries) ≡ (7 ∷ []) ∷ [] ∷ []
unfolding consume
acked = refl

late_stream :
    wait_for_stream 4 (false ∷ false ∷ false ∷ true ∷ []) ≡ some (2_000 ∷ 5_000 ∷ 5_000 ∷ [])
unfolding wait_for_stream
late_stream = refl

-- Nothing is read after an error of the watch.
watch_error :
    watch_cycle one_byte (
      ok (
        entry put (codes "a") (5 ∷ [])
        ∷ entry put (codes "b") []
        ∷ entry purge (codes "a") []
        ∷ entry_error (codes "gone")
        ∷ entry delete (codes "c") []
        ∷ []))
    ≡ (on_put (codes "a") 5 ∷ on_delete (codes "a") ∷ [], true)
unfolding watch_cycle watched
watch_error = refl
