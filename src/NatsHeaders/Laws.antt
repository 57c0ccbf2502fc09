-- ===== src/NatsHeaders/Laws.antt =====
-- What is assumed of the header maps of the crates http and async-nats.
use flatbed.Base.{
  ℕ, ◌≡◌, Bool, true, false, Option, some, none, List, [], ◌∷◌, ◌++◌, ◌&&◌, ◌||◌, ◌==◌, ◌+◌, ◌/◌,
  ◌%◌, ◌≤◌, ◌<◌, number_keys, list_keys, if◌then◌else◌, ltb, leb, Text, first, length,
}
use flatbed.NatsHeaders.{HeaderLibrary, to_nats_headers}

-- The values under a name, in order.
abbrev pub named : Text → List (Text × Text) → List Text
named t [] = []
named t ((s, v) ∷ ps) = if s == t then v ∷ named t ps else named t ps

abbrev pub entered : Text → List (Text × List Text) → List Text
entered t [] = []
entered t ((s, vs) ∷ es) = if s == t then vs ++ entered t es else entered t es

abbrev pub every_name : (Text → Bool) → List (Text × List Text) → Bool
every_name p [] = true
every_name p ((s, vs) ∷ es) = p s && every_name p es

abbrev pub holds_all : (ℕ → Bool) → Text → Bool
holds_all p [] = true
holds_all p (c ∷ cs) = p c && holds_all p cs

-- A lower-case letter or a dash.
abbrev pub is_plain : ℕ → Bool
is_plain c = (leb 97 c && leb c 122) || c == 45

-- At most 64 lower-case letters and dashes.
abbrev pub is_plain_name : Text → Bool
is_plain_name [] = false
is_plain_name (c ∷ cs) = holds_all is_plain (c ∷ cs) && leb (length cs) 63

abbrev pub is_printable : ℕ → Bool
is_printable c = leb 32 c && ltb c 127

-- A printable character but the blank.
abbrev pub is_graphic : ℕ → Bool
is_graphic c = ltb 32 c && ltb c 127

abbrev pub digits : ℕ → Text
digits n = (48 + n / 100) ∷ (48 + n / 10 % 10) ∷ (48 + n % 10) ∷ []

module _ ⦃http : HeaderLibrary⦄ where
  abbrev pub texts : List (http.Name × Text) → List (Text × Text)
  texts [] = []
  texts ((n, v) ∷ ps) = (http.as_str n, v) ∷ texts ps

  -- The values of a map under a name.
  abbrev pub values : Text → http.Map → List Text
  values t h = named t (texts (http.pairs h))

  abbrev pub is_kept_name : Option http.Name → Text → Bool
  is_kept_name none t = false
  is_kept_name (some n) t = http.as_str n == t

  -- A name that is read as it is written.
  abbrev pub is_kept : Text → Bool
  is_kept t = is_kept_name (http.parse t) t

  abbrev pub all_visible : List Text → Bool
  all_visible [] = true
  all_visible (v ∷ vs) = http.is_visible v && all_visible vs

  -- Headers whose values are all text, so that each is one line of the message.
  abbrev pub IsLines : http.Wire → Type 0
  IsLines w = (t : Text) → all_visible (entered t (http.entries w)) ≡ true

  abbrev pub trimmed : List Text → List Text
  trimmed [] = []
  trimmed (v ∷ vs) = http.trim v ∷ trimmed vs

  -- The headers of a message that was sent with those of a map, as the other side has them.
  abbrev pub arrived : http.Map → Option http.Wire
  arrived h = some (http.arrives (to_nats_headers h))

pub record HeaderLaws ⦃http : HeaderLibrary⦄ : Type 0 where
  pub parse-as_str : (n : http.Name) → http.parse (http.as_str n) ≡ some n
  pub parse-plain :
      (t : Text)
      → is_plain_name t ≡ true
      → (n : http.Name) × ((http.parse t ≡ some n) × (http.as_str n ≡ t))
  pub get-values : (n : http.Name) (h : http.Map) → http.get n h ≡ first (values (http.as_str n) h)
  pub values-empty : (t : Text) → values t http.empty ≡ []
  pub values-append :
      (t : Text) (n : http.Name) (v : Text) (h : http.Map)
      → values t (http.append n v h)
        ≡ (if http.as_str n == t then values t h ++ v ∷ [] else values t h)
  pub values-insert :
      (t : Text) (n : http.Name) (v : Text) (h : http.Map)
      → values t (http.insert n v h) ≡ (if http.as_str n == t then v ∷ [] else values t h)
  pub values-remove :
      (t : Text) (n : http.Name) (h : http.Map)
      → values t (http.remove n h) ≡ (if http.as_str n == t then [] else values t h)
  pub entries-empty : http.entries http.wire_empty ≡ []
  pub entered-append :
      (t s v : Text) (w : http.Wire)
      → entered t (http.entries (http.wire_append s v w))
        ≡ (if s == t then entered t (http.entries w) ++ v ∷ [] else entered t (http.entries w))
  pub every_name-append :
      (p : Text → Bool) (s v : Text) (w : http.Wire)
      → every_name p (http.entries (http.wire_append s v w))
        ≡ (p s && every_name p (http.entries w))
  pub entered-arrives :
      (t : Text) (w : http.Wire)
      → IsLines w
      → entered t (http.entries (http.arrives w)) ≡ trimmed (entered t (http.entries w))
  pub every_name-arrives :
      (p : Text → Bool) (w : http.Wire)
      → IsLines w
      → every_name p (http.entries (http.arrives w)) ≡ every_name p (http.entries w)
  pub trim-visible : (v : Text) → http.is_visible v ≡ true → http.is_visible (http.trim v) ≡ true
  pub trim-graphic : (v : Text) → holds_all is_graphic v ≡ true → http.trim v ≡ v
  pub visible-value : (v : Text) → http.is_visible v ≡ true → http.is_value v ≡ true
  pub printable-visible : (v : Text) → holds_all is_printable v ≡ true → http.is_visible v ≡ true
  -- A value with a byte that is not ASCII is no text.
  pub wide-visible : (v : Text) → holds_all (λ c. ltb c 128) v ≡ false → http.is_visible v ≡ false
  pub status_str-digits : (n : ℕ) → 100 ≤ n → n < 1000 → http.status_str n ≡ digits n
  pub status_from-digits : (n : ℕ) → 100 ≤ n → n < 1000 → http.status_from (digits n) ≡ some n
