-- ===== src/NatsHeaders/Flatten.antt =====
-- crates/flatbed/src/nats_route.rs: what set_header makes of a value.
use flatbed.Base.{
  both, ℕ, ◌≡◌, refl, ap, ◌∙◌, Bool, true, false, [], ◌∷◌, ◌==◌, number_keys, ltb, Text, arith,
}
use flatbed.NatsHeaders.{flatten, blank}
use flatbed.NatsHeaders.Laws.{holds_all, is_printable}

abbrev pub is_ascii : ℕ → Bool
is_ascii c = ltb c 128

ascii_narrow : (c : ℕ) → is_ascii c ≡ true → (c == 194) ≡ false
ascii_narrow c e = ground arith

blank-is_printable : (c : ℕ) → is_ascii c ≡ true → is_printable (blank c) ≡ true
blank-is_printable c e = ground arith

printable_kept : (c : ℕ) → is_printable c ≡ true → (is_ascii c ≡ true) × (blank c ≡ c)
printable_kept c e = ground arith

flatten_ascii : (c : ℕ) (cs : Text) → is_ascii c ≡ true → flatten (c ∷ cs) ≡ blank c ∷ flatten cs
unfolding flatten
flatten_ascii c cs e = rw (ascii_narrow c e)

-- An ASCII text becomes a printable one.
pub flatten-printable :
    (t : Text) → holds_all is_ascii t ≡ true → holds_all is_printable (flatten t) ≡ true
unfolding flatten
flatten-printable [] e = refl
flatten-printable (c ∷ cs) e =
    let (one, rest) = both (is_ascii c) (holds_all is_ascii cs) e in
    ap (holds_all is_printable) (flatten_ascii c cs one)
    ∙ rw (blank-is_printable c one, flatten-printable cs rest)

-- A printable text stays as it is.
pub flatten_printable : (t : Text) → holds_all is_printable t ≡ true → flatten t ≡ t
unfolding flatten
flatten_printable [] e = refl
flatten_printable (c ∷ cs) e =
    let (one, rest) = both (is_printable c) (holds_all is_printable cs) e in
    let (narrow, same) = printable_kept c one in
    flatten_ascii c cs narrow ∙ rw (same, flatten_printable cs rest)
