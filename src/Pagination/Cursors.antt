-- ===== src/Pagination/Cursors.antt =====
-- pagination.rs: what `Pager::open` makes of a cursor, minted or not.
use flatbed.Base.{
  ℕ, ◌+◌, ◌-◌, ◌*◌, ◌/◌, ◌%◌, ◌^◌, ◌≤◌, ◌≡◌, ◌≢◌, refl, sym, ◌∙◌, ap, arith, true, false, none,
  some, ◌++◌, inl, inr, Bool-cases, Option-cases, ltb, leb, le→ltb, leb→le, ltb-false→le, passed,
  passed_not, went_on, take-append-drop, length-drop, if◌then◌else◌, ok, err, length, take, drop,
  take-append, drop-append, length-append, length-take,
}
use flatbed.Pagination.{
  Bytes, version, max_cursor_chars, u16_max, Direction, forward, backward, byte, Binding, Codec,
  CodecLaws, invalid_cursor, key_too_long, signed, tag, payload, mint_json, mint, read_direction,
  read_parts, read_payload, read_bytes, read_cursor, open_cursor,
}

read_direction-byte : (d : Direction) → read_direction version (byte d) ≡ some d
unfolding read_direction
read_direction-byte forward = refl
read_direction-byte backward = refl

be_two : (n : ℕ) → n ≤ u16_max → n / 256 ^ 1 % 256 * 256 + n / 256 ^ 0 % 256 ≡ n
be_two n h = omega arith

module _ {Req K : Type 0} (c : Codec Req K) (laws : CodecLaws c) where
  read_payload-payload :
      (dir : Direction) (k : K) (json : Bytes) (f : Req)
      → c.key_to_json k ≡ some json
      → length json ≤ u16_max
      → read_payload c (payload c dir json f) ≡ some (f, dir, k)
  unfolding read_payload payload read_parts
  read_payload-payload dir k json f e h =
      let rest = json ++ c.to_flatbuffer f in
      let n = be_two (length json) h in
      let room : ltb (length rest) (length json) ≡ false =
        le→ltb (length json) (length rest)
          (omega (arith, length-append json (c.to_flatbuffer f))) in
      rw (
        read_direction-byte dir,
        n,
        room,
        take-append json (c.to_flatbuffer f),
        drop-append json (c.to_flatbuffer f),
        laws.json_back k json e,
        laws.filters_back f,
      )

  length-tag : (b : Binding) (body : Bytes) → length (tag c b body) ≡ 16
  length-tag b body =
      length-take 16 (c.authenticate (signed b body))
        (omega (arith, laws.mac_length (signed b body)))

  -- What `open` cuts off the end, where it verifies, is a tag.
  read_bytes_parts :
      (b : Binding) (bytes body t : Bytes)
      → length bytes ≡ length body + 16
      → take (length bytes - 16) bytes ≡ body
      → drop (length bytes - 16) bytes ≡ t
      → 4 ≤ length body
      → c.verify (signed b body) t ≡ true
      → read_bytes c b bytes ≡ read_payload c body
  unfolding read_bytes
  read_bytes_parts b bytes body t n front back h good =
      let m : length bytes - 16 ≡ length body = omega (arith, n) in
      let long : ltb (length bytes) 16 ≡ false = le→ltb 16 (length bytes) (omega (arith, n)) in
      let head : ltb (length bytes - 16) 4 ≡ false =
        le→ltb 4 (length bytes - 16) (omega (arith, n)) in
      simp (read_bytes, long, head, front, back, good)

  read_bytes-tag :
      (b : Binding) (body : Bytes)
      → 4 ≤ length body
      → read_bytes c b (body ++ tag c b body) ≡ read_payload c body
  read_bytes-tag b body h =
      let t = tag c b body in
      let n : length (body ++ t) ≡ length body + 16 =
        length-append body t ∙ ap (λ m. length body + m) (length-tag b body) in
      let split : length (body ++ t) - 16 ≡ length body = omega (arith, n) in
      let good = (laws.verify_iff (signed b body) t (length-tag b body)).1 refl in
      read_bytes_parts b (body ++ t) body t n (rw split (take-append body t))
        (rw split (drop-append body t)) h good

  mint-none :
      {E : Type 0} (dir : Direction) (k : K) (f : Req) (b : Binding) (cursor : Bytes)
      → c.key_to_json k ≡ none
      → mint c {E = E} dir k f b ≢ ok cursor
  unfolding mint
  mint-none dir k f b cursor n = rw (mint, n) (λ e. cc)

  minted :
      {E : Type 0} (dir : Direction) (k : K) (f : Req) (b : Binding) (json : Bytes)
      → c.key_to_json k ≡ some json
      → mint c {E = E} dir k f b ≡ (
          if leb (length json) u16_max
          then ok (c.encode (payload c dir json f ++ tag c b (payload c dir json f)))
          else err key_too_long)
  unfolding mint mint_json
  minted dir k f b json j = simp (mint, j)

  -- What a minted cursor is made of.
  mint-inv :
      {E : Type 0} (dir : Direction) (k : K) (f : Req) (b : Binding) (cursor : Bytes)
      → mint c {E = E} dir k f b ≡ ok cursor
      → (json : Bytes) × (c.key_to_json k ≡ some json)
        × (length json ≤ u16_max)
        × (cursor ≡ c.encode (payload c dir json f ++ tag c b (payload c dir json f)))
  mint-inv {E} dir k f b cursor e = elim (Option-cases (c.key_to_json k)) [
    | inl n ↦ absurd (mint-none dir k f b cursor n e)
    | inr (json, j) ↦
        let m = minted {E = E} dir k f b json j in
        elim (Bool-cases (leb (length json) u16_max)) [
          | inl t ↦ (json, j, leb→le (length json) u16_max t, cc (e, rw t at m))
          | inr w ↦ absurd (cc (e, rw w at m))
        ]
  ]

  read_cursor-encode :
      (b : Binding) (cursor bytes : Bytes)
      → c.decode cursor ≡ some bytes
      → read_cursor c b cursor
        ≡ (if ltb max_cursor_chars (length cursor) then none else read_bytes c b bytes)
  unfolding read_cursor
  read_cursor-encode b cursor bytes e = elim (Bool-cases (ltb max_cursor_chars (length cursor))) [
    | inl t ↦ rw (t, read_cursor)
    | inr f ↦ rw (f, e, read_cursor)
  ]

  length-payload : (dir : Direction) (json : Bytes) (f : Req) → 4 ≤ length (payload c dir json f)
  unfolding payload
  length-payload dir json f = omega arith

  -- A cursor that was minted opens, under the same binding, to the filters, direction and key it
  -- was minted from, and is invalid exactly when it is longer than the limit, which minting does
  -- not check, where the codecs undo each other.
  pub open_cursor-mint :
      {E : Type 0} (dir : Direction) (k : K) (f : Req) (b : Binding) (cursor : Bytes)
      → mint c {E = E} dir k f b ≡ ok cursor
      → open_cursor c {E = E} b cursor
        ≡ (if ltb max_cursor_chars (length cursor) then err invalid_cursor else ok (f, dir, k))
  unfolding open_cursor
  open_cursor-mint dir k f b cursor e =
      let (json, j, h, made) = mint-inv dir k f b cursor e in
      let body = payload c dir json f in
      let decoded = ap (λ x. c.decode x) made ∙ laws.decode-encode (body ++ tag c b body) in
      let read = read_cursor-encode b cursor (body ++ tag c b body) decoded in
      let back =
        read_bytes-tag b body (length-payload dir json f) ∙ read_payload-payload dir k json f j h in
      elim (Bool-cases (ltb max_cursor_chars (length cursor))) [
        | inl t ↦
            let r : read_cursor c b cursor ≡ none =
              read ∙ ap (λ q. if q then none else read_bytes c b (body ++ tag c b body)) t in
            rw (r, t, open_cursor)
        | inr t ↦
            let r : read_cursor c b cursor ≡ some (f, dir, k) =
              read ∙ ap (λ q. if q then none else read_bytes c b (body ++ tag c b body)) t ∙ back in
            rw (r, t, open_cursor)
      ]

  opened :
      {E : Type 0} (b : Binding) (cursor : Bytes) (x : Req × Direction × K)
      → open_cursor c {E = E} b cursor ≡ ok x
      → read_cursor c b cursor ≡ some x
  unfolding open_cursor
  opened b cursor x e = elim (Option-cases (read_cursor c b cursor)) [
    | inl n ↦ cc (rw (open_cursor, n) at e)
    | inr (y, n) ↦ n ∙ ap some (cc (rw (open_cursor, n) at e))
  ]

  read_bytes_sound :
      (b : Binding) (bytes : Bytes) (x : Req × Direction × K)
      → read_bytes c b bytes ≡ some x
      → (body : Bytes) × (bytes ≡ body ++ tag c b body) × (read_payload c body ≡ some x)
  unfolding read_bytes
  read_bytes_sound b bytes x e =
      let n : ℕ = length bytes - 16 in
      let body = take n bytes in
      let (long, e₁) = passed_not (ltb (length bytes) 16) _ e in
      let (head, e₂) = passed_not (ltb n 4) _ e₁ in
      let (good, read) = passed (c.verify (signed b body) (drop n bytes)) _ e₂ in
      let cut : length (drop n bytes) ≡ 16 =
        omega (arith, length-drop n bytes, ltb-false→le (length bytes) 16 long) in
      let same = (laws.verify_iff (signed b body) (drop n bytes) cut).0 good in
      (body, sym (take-append-drop n bytes) ∙ ap (λ t. body ++ t) same, read)

  -- A cursor that opens is within the length limit and decodes to a payload, which reads as what
  -- was opened, followed by the tag of that payload under the same binding, where a part of sixteen
  -- bytes verifies exactly when it is the left half of the tag.
  pub open_cursor_sound :
      {E : Type 0} (b : Binding) (cursor : Bytes) (x : Req × Direction × K)
      → open_cursor c {E = E} b cursor ≡ ok x
      → (body : Bytes) × (length cursor ≤ max_cursor_chars)
        × (c.decode cursor ≡ some (body ++ tag c b body))
        × (read_payload c body ≡ some x)
  unfolding open_cursor read_cursor
  open_cursor_sound b cursor x e =
      let (bytes, e₁, e₂) = went_on _ _ (opened b cursor x e) in
      let (short, decoded) = passed_not (ltb max_cursor_chars (length cursor)) _ e₁ in
      let (body, cut, read) = read_bytes_sound b bytes x e₂ in
      (body, ltb-false→le max_cursor_chars (length cursor) short, decoded ∙ ap some cut, read)
