-- ===== src/Pagination.antt =====
-- crates/flatbed/src/pagination.rs: the page cursors. A byte string is a list of numbers. The
-- MAC, base64, JSON and FlatBuffers codecs are third-party or generated code and are the fields of
-- `Codec`.
pub mod Framing
pub mod Cursors
pub mod Serve
use flatbed.Base.{
  ℕ, zero, suc, ◌+◌, ◌-◌, ◌*◌, ◌/◌, ◌%◌, ◌^◌, ◌<◌, ◌≡◌, ◌↔◌, min, String, Bool, true, false, not,
  Option, none, some, List, [], ◌∷◌, ◌++◌, map, reverse, ◌==◌, HasEq, number_keys, ltb, leb,
  if◌then◌else◌, Result, ok, err, length, take, drop, All, u32_max, saturating_suc, is_some, ◌>>=◌,
}

abbrev pub Bytes : Type 0
Bytes = List ℕ

abbrev pub version : ℕ
version = 1

-- `b"flatbed.page-cursor"`.
abbrev pub label : Bytes
label =
    102 ∷ 108 ∷ 97 ∷ 116 ∷ 98 ∷ 101 ∷ 100 ∷ 46 ∷ 112 ∷ 97 ∷ 103 ∷ 101 ∷ 45 ∷ 99 ∷ 117 ∷ 114 ∷ 115
    ∷ 111 ∷ 114 ∷ []

abbrev pub tag_len : ℕ
tag_len = 16

abbrev pub header_len : ℕ
header_len = 4

abbrev pub max_cursor_chars : ℕ
max_cursor_chars = 4096

abbrev pub u16_max : ℕ
u16_max = 65535

pub data Direction : Type 0 where
  forward backward : Direction

abbrev pub byte : Direction → ℕ
byte forward = 0
byte backward = 1

pub record Binding : Type 0 where
  pub method : Bytes
  pub path : Bytes
  pub caller : Bytes

-- The code that the pager calls. `authenticate` is the MAC under the pager's secret, and `verify`
-- its comparison with the left part of a tag.
pub record Codec (Req K : Type 0) : Type 0 where
  pub authenticate : Bytes → Bytes
  pub verify : (message tag : Bytes) → Bool
  pub encode : Bytes → Bytes
  pub decode : Bytes → Option Bytes
  pub key_to_json : K → Option Bytes
  pub key_from_json : Bytes → Option K
  pub to_flatbuffer : Req → Bytes
  pub from_flatbuffer : Bytes → Option Req

-- What the pager relies on: the codecs undo each other, a tag has 32 bytes, and a part of 16 bytes
-- verifies exactly when it is the left half of the tag.
pub record CodecLaws {Req K : Type 0} (c : Codec Req K) : Type 0 where
  pub json_back : (k : K) (b : Bytes) → c.key_to_json k ≡ some b → c.key_from_json b ≡ some k
  pub filters_back : (f : Req) → c.from_flatbuffer (c.to_flatbuffer f) ≡ some f
  pub decode-encode : (b : Bytes) → c.decode (c.encode b) ≡ some b
  pub mac_length : (m : Bytes) → length (c.authenticate m) ≡ 32
  pub verify_iff :
      (m t : Bytes) → length t ≡ 16 → (c.verify m t ≡ true) ↔ (t ≡ take 16 (c.authenticate m))

pub data PageError (E : Type 0) : Type 0 where
  invalid_cursor cursor_with_filters key_does_not_serialize key_too_long : PageError E
  fetch_failed : E → PageError E

-- `to_be_bytes` of a number of `w` bytes.
abbrev pub be_bytes : ℕ → ℕ → Bytes
be_bytes zero n = []
be_bytes (suc w) n = n / 256 ^ w % 256 ∷ be_bytes w n

pub framed : Bytes → Bytes
framed part = be_bytes 8 (length part) ++ part

-- What the tag of a payload is computed from.
pub signed : Binding → Bytes → Bytes
unfolding framed
signed b payload =
    label ++ (framed b.method ++ (framed b.path ++ (framed b.caller ++ framed payload)))

-- `match (*version, *direction)`.
pub read_direction : ℕ → ℕ → Option Direction
read_direction v d =
    if v == version
    then (if d == 0 then some forward else (if d == 1 then some backward else none))
    else none

module _ {Req K : Type 0} (c : Codec Req K) where
  abbrev pub tag : Binding → Bytes → Bytes
  tag b payload = take tag_len (c.authenticate (signed b payload))

  pub payload : Direction → Bytes → Req → Bytes
  payload dir key filters =
      version ∷ byte dir ∷ be_bytes 2 (length key) ++ key ++ c.to_flatbuffer filters

  mint_json : {E : Type 0} → Direction → Bytes → Req → Binding → Result (PageError E) Bytes
  unfolding payload signed
  mint_json dir key filters b =
      let body = payload dir key filters in
      if leb (length key) u16_max then ok (c.encode (body ++ tag b body)) else err key_too_long

  pub mint : {E : Type 0} → Direction → K → Req → Binding → Result (PageError E) Bytes
  unfolding mint_json
  mint dir key filters b = elim (c.key_to_json key) [
    | none ↦ err key_does_not_serialize
    | some json ↦ mint_json dir json filters b
  ]

  pub read_parts : Direction → ℕ → Bytes → Option (Req × Direction × K)
  read_parts dir key_len rest = do
    key ← c.key_from_json (take key_len rest)
    filters ← c.from_flatbuffer (drop key_len rest)
    some (filters, dir, key)

  pub read_payload : Bytes → Option (Req × Direction × K)
  unfolding read_direction read_parts
  read_payload (v ∷ d ∷ hi ∷ lo ∷ rest) = do
    dir ← read_direction v d
    let key_len : ℕ = hi * 256 + lo
    if ltb (length rest) key_len then none else read_parts dir key_len rest
  read_payload _ = none

  pub read_bytes : Binding → Bytes → Option (Req × Direction × K)
  unfolding read_payload signed
  read_bytes b bytes =
      let split : ℕ = length bytes - tag_len in
      if ltb (length bytes) tag_len
      then none
      else (if ltb split header_len
          then none
          else (if c.verify (signed b (take split bytes)) (drop split bytes)
              then read_payload (take split bytes)
              else none))

  pub read_cursor : Binding → Bytes → Option (Req × Direction × K)
  unfolding read_bytes
  read_cursor b cursor = do
    bytes ← (if ltb max_cursor_chars (length cursor) then none else c.decode cursor)
    read_bytes b bytes

  -- Every failure is the same `invalid()`.
  pub open_cursor : {E : Type 0} → Binding → Bytes → Result (PageError E) (Req × Direction × K)
  unfolding read_cursor
  open_cursor b cursor = elim (read_cursor b cursor) [ none ↦ err invalid_cursor | some x ↦ ok x ]
