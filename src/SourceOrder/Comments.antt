-- ===== src/SourceOrder/Comments.antt =====
-- source_order.rs: what is left when the comments are gone.
use flatbed.Base.{
  ℕ, ◌≡◌, ◌⊎◌, refl, sym, ap, subst, ◌∙◌, false, [], ◌∷◌, ◌==◌, ◌&&◌, number_keys, Text, Bool-cases,
  beq_cases, inl, inr,
}
use flatbed.SourceOrder.{
  Place, code, in_line, in_block, in_quotes, Begins, a_line, a_block, a_quote, plain, begins,
  newline, quote, slash_byte, asterisk, Quoted, ends, escapes, goes_on, quoted, strip,
  strip_fbs_comments,
}

Begins-cases : (b : Begins) → (b ≡ a_line) ⊎ ((b ≡ a_block) ⊎ ((b ≡ a_quote) ⊎ (b ≡ plain)))
Begins-cases a_line = inl refl
Begins-cases a_block = inr (inl refl)
Begins-cases a_quote = inr (inr (inl refl))
Begins-cases plain = inr (inr (inr refl))

Quoted-cases : (q : Quoted) → (q ≡ ends) ⊎ ((q ≡ escapes) ⊎ (q ≡ goes_on))
Quoted-cases ends = inl refl
Quoted-cases escapes = inr (inl refl)
Quoted-cases goes_on = inr (inr refl)

-- Nothing begins at a byte of code, whatever follows.
abbrev pub NothingBegins : ℕ → Text → Type 0
NothingBegins c [] = Unit
NothingBegins c (d ∷ t) = begins c d ≡ plain

pub strip-plain : (c : ℕ) (t : Text) → NothingBegins c t → strip code (c ∷ t) ≡ c ∷ strip code t
unfolding strip
strip-plain c [] h = refl
strip-plain c (d ∷ t) h = simp (strip, h)

pub plain_byte :
    (c : ℕ) (t : Text) → (c == slash_byte) ≡ false → (c == quote) ≡ false → NothingBegins c t
unfolding begins
plain_byte c [] e f = tt
plain_byte c (d ∷ t) e f = rw (e, f)

-- Code that does not begin with a slash keeps its first byte.
abbrev Keeps : Place → ℕ → Text → Type 0
Keeps p d t = (rest : Text) × (strip p (d ∷ t) ≡ d ∷ rest)

not_slash : (d e : ℕ) → (d == slash_byte) ≡ false → (begins d e ≡ a_quote) ⊎ (begins d e ≡ plain)
unfolding begins
not_slash d e f = elim (Bool-cases (d == quote)) [
  | inl t ↦ inl (rw (f, t))
  | inr t ↦ inr (rw (f, t))
]

code-Keeps : (d : ℕ) (t : Text) → (d == slash_byte) ≡ false → Keeps code d t
unfolding strip
code-Keeps d [] f = ([], refl)
code-Keeps d (e ∷ t) f = elim (not_slash d e f) [
  | inl b ↦ (strip in_quotes (e ∷ t), simp (strip, b))
  | inr b ↦ (strip code (e ∷ t), simp (strip, b))
]

in_quotes-Keeps : (d : ℕ) (t : Text) → Keeps in_quotes d t
unfolding strip
in_quotes-Keeps d [] = ([], refl)
in_quotes-Keeps d (e ∷ t) = elim (Quoted-cases (quoted d)) [
  | inl q ↦ (strip code (e ∷ t), simp (strip, q))
  | inr (inl q) ↦ (e ∷ strip in_quotes t, simp (strip, q))
  | inr (inr q) ↦ (strip in_quotes (e ∷ t), simp (strip, q))
]

-- Where nothing began, nothing begins when what follows is stripped.
strip-NothingBegins :
    (c d : ℕ) (t : Text) → begins c d ≡ plain → NothingBegins c (strip code (d ∷ t))
unfolding begins
strip-NothingBegins c d t h = elim (Bool-cases (c == slash_byte)) [
  | inl e ↦ elim (Bool-cases (d == slash_byte)) [
    | inl f ↦ cc (rw (e, f) at h)
    | inr f ↦ let (rest, k) = code-Keeps d t f in subst (NothingBegins c) (sym k) h
  ]
  | inr e ↦ elim (Bool-cases (c == quote)) [
    | inl f ↦ cc (rw (e, f) at h)
    | inr f ↦ plain_byte c (strip code (d ∷ t)) e f
  ]
]

strip-ends : (c : ℕ) (t : Text) → quoted c ≡ ends → strip in_quotes (c ∷ t) ≡ c ∷ strip code t
unfolding strip
strip-ends c [] q = refl
strip-ends c (d ∷ t) q = simp (strip, q)

-- Where stripped text is read again.
abbrev resumed : Place → Place
resumed code = code
resumed in_line = code
resumed in_block = code
resumed in_quotes = in_quotes

-- A text is left as it is by being stripped.
abbrev Stripped : Place → Text → Type 0
Stripped p t = strip p t ≡ t

strip-newline : (t : Text) → Stripped code t → Stripped code (newline ∷ t)
strip-newline t h = strip-plain newline t (plain_byte newline t refl refl) ∙ ap (λ r. newline ∷ r) h

strip-Stripped : (p : Place) (t : Text) → Stripped (resumed p) (strip p t)
unfolding strip
strip-Stripped code [] = refl
strip-Stripped code (c ∷ []) = refl
strip-Stripped code (c ∷ d ∷ t) = elim (Begins-cases (begins c d)) [
  | inl b ↦
      let same : strip code (c ∷ d ∷ t) ≡ strip in_line t = simp (strip, b) in
      subst (Stripped code) (sym same) (strip-Stripped in_line t)
  | inr (inl b) ↦
      let same : strip code (c ∷ d ∷ t) ≡ strip in_block t = simp (strip, b) in
      subst (Stripped code) (sym same) (strip-Stripped in_block t)
  | inr (inr (inl b)) ↦
      let same : strip code (c ∷ d ∷ t) ≡ c ∷ strip in_quotes (d ∷ t) = simp (strip, b) in
      let (rest, k) = in_quotes-Keeps d t in
      let opens : strip code (c ∷ d ∷ rest) ≡ c ∷ strip in_quotes (d ∷ rest) = simp (strip, b) in
      let inside = subst (Stripped in_quotes) k (strip-Stripped in_quotes (d ∷ t)) in
      subst (Stripped code) (sym (same ∙ ap (λ r. c ∷ r) k)) (opens ∙ ap (λ r. c ∷ r) inside)
  | inr (inr (inr b)) ↦
      let same : strip code (c ∷ d ∷ t) ≡ c ∷ strip code (d ∷ t) = simp (strip, b) in
      let step = strip-plain c (strip code (d ∷ t)) (strip-NothingBegins c d t b) in
      subst (Stripped code) (sym same) (step ∙ ap (λ r. c ∷ r) (strip-Stripped code (d ∷ t)))
]
strip-Stripped in_line [] = refl
strip-Stripped in_line (c ∷ t) = elim (beq_cases c newline) [
  | inl (e, p) ↦
      let same : strip in_line (c ∷ t) ≡ newline ∷ strip code t =
        subst (λ n. strip in_line (n ∷ t) ≡ newline ∷ strip code t) (sym p) refl in
      subst (Stripped code) (sym same) (strip-newline (strip code t) (strip-Stripped code t))
  | inr (e, p) ↦
      let same : strip in_line (c ∷ t) ≡ strip in_line t = simp (strip, e) in
      subst (Stripped code) (sym same) (strip-Stripped in_line t)
]
strip-Stripped in_block [] = refl
strip-Stripped in_block (c ∷ []) = refl
strip-Stripped in_block (c ∷ d ∷ t) = elim (Bool-cases ((c == asterisk) && (d == slash_byte))) [
  | inl b ↦
      let same : strip in_block (c ∷ d ∷ t) ≡ strip code t = simp (strip, b) in
      subst (Stripped code) (sym same) (strip-Stripped code t)
  | inr b ↦ elim (beq_cases c newline) [
    | inl (e, p) ↦
        let same : strip in_block (c ∷ d ∷ t) ≡ newline ∷ strip in_block (d ∷ t) =
          subst (λ n. strip in_block (n ∷ d ∷ t) ≡ newline ∷ strip in_block (d ∷ t)) (sym p) refl in
        subst (Stripped code) (sym same)
          (strip-newline (strip in_block (d ∷ t)) (strip-Stripped in_block (d ∷ t)))
    | inr (e, p) ↦
        let same : strip in_block (c ∷ d ∷ t) ≡ strip in_block (d ∷ t) = simp (strip, b, e) in
        subst (Stripped code) (sym same) (strip-Stripped in_block (d ∷ t))
  ]
]
strip-Stripped in_quotes [] = refl
strip-Stripped in_quotes (c ∷ []) = refl
strip-Stripped in_quotes (c ∷ d ∷ t) = elim (Quoted-cases (quoted c)) [
  | inl q ↦
      let same : strip in_quotes (c ∷ d ∷ t) ≡ c ∷ strip code (d ∷ t) = simp (strip, q) in
      subst (Stripped in_quotes) (sym same)
        (strip-ends c (strip code (d ∷ t)) q ∙ ap (λ r. c ∷ r) (strip-Stripped code (d ∷ t)))
  | inr (inl q) ↦
      let same : strip in_quotes (c ∷ d ∷ t) ≡ c ∷ d ∷ strip in_quotes t = simp (strip, q) in
      let rest = strip in_quotes t in
      let step : strip in_quotes (c ∷ d ∷ rest) ≡ c ∷ d ∷ strip in_quotes rest = simp (strip, q) in
      subst (Stripped in_quotes) (sym same)
        (step ∙ ap (λ r. c ∷ d ∷ r) (strip-Stripped in_quotes t))
  | inr (inr q) ↦
      let same : strip in_quotes (c ∷ d ∷ t) ≡ c ∷ strip in_quotes (d ∷ t) = simp (strip, q) in
      let (rest, k) = in_quotes-Keeps d t in
      let step : strip in_quotes (c ∷ d ∷ rest) ≡ c ∷ strip in_quotes (d ∷ rest) =
        simp (strip, q) in
      let inside = subst (Stripped in_quotes) k (strip-Stripped in_quotes (d ∷ t)) in
      subst (Stripped in_quotes) (sym (same ∙ ap (λ r. c ∷ r) k)) (step ∙ ap (λ r. c ∷ r) inside)
]

-- A schema text whose comments were stripped is left as it is when it is stripped again: no comment
-- is left, and what is in quotes is not taken for one.
pub strip_fbs_comments-again :
    (text : Text) → strip_fbs_comments (strip_fbs_comments text) ≡ strip_fbs_comments text
strip_fbs_comments-again text = strip-Stripped code text
