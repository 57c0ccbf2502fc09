-- ===== src/Connector/Tests.antt =====
-- nats_connect.rs: small runs.
use flatbed.Base.{◌≡◌, refl, none, some, [], ◌∷◌, codes, ok, arith}
use flatbed.Connector.{
  Connector, Attempt, client, unreachable, backoff, connect_loop, connect_with_retry,
}
use flatbed.Connector.Retries.{IsEnded, connect_with_retry-IsEnded}

-- A budget of 20 with delays from 8 up to 16.
abbrev short : Connector
short = record {
  min_backoff = 8;
  max_backoff = 16;
  deadline = 20;
  attempt_timeout = 5;
  read_credentials = ok tt;
  options = ok tt;
}

abbrev refused : Attempt
refused = record { took = 1; failure = some (codes "refused"); entropy = 6; late = 0 }

abbrev accepted : Attempt
accepted = record { took = 2; failure = none; entropy = 0; late = 0 }

-- A dial that hangs is given up after the attempt's timeout.
abbrev hanging : Attempt
hanging = record { took = 1_000; failure = none; entropy = 0; late = 0 }

second_dial : connect_with_retry short (refused ∷ accepted ∷ []) ≡ client 2
unfolding connect_with_retry connect_loop backoff
second_dial = refl

gives_up :
    connect_with_retry short (refused ∷ hanging ∷ []) ≡ unreachable 2 12 (some (codes "refused"))
unfolding connect_with_retry connect_loop backoff
gives_up = refl

connect_with_retry-IsEnded_example :
    IsEnded (connect_with_retry short (refused ∷ hanging ∷ hanging ∷ hanging ∷ hanging ∷ []))
connect_with_retry-IsEnded_example =
    connect_with_retry-IsEnded short (refused ∷ hanging ∷ hanging ∷ hanging ∷ hanging ∷ [])
      (omega arith) (omega arith) (omega arith)
