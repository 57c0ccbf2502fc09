-- ===== src/SourceOrder/Schemas.antt =====
-- source_order.rs: schemas of declarations with a word for a body, each followed by a comment, and what is left
-- of them without the comments.
use flatbed.Base.{
  ℕ, ◌≡◌, refl, ap, ◌∙◌, true, false, List, [], ◌∷◌, ◌++◌, ◌&&◌, ◌||◌, ◌==◌, number_keys, leb,
  codes, Text, All, arith,
}
use flatbed.SourceOrder.{code, in_line, begins, quote, slash_byte, strip, is_word, is_whitespace}
use flatbed.SourceOrder.Comments.{strip-plain, plain_byte}

pub data Keyword : Type 0 where
  table enum : Keyword

abbrev pub spelled : Keyword → Text
spelled table = codes "table"
spelled enum = codes "enum"

-- A declaration with a word in its body and a comment after it; its name is not empty.
pub record Decl : Type 0 where
  pub keyword : Keyword
  pub first : ℕ
  pub more : Text
  pub word : Text
  pub comment : Text

abbrev pub name_of : Decl → Text
name_of d = d.first ∷ d.more

-- `table Name {word} //comment` and a newline.
abbrev pub schema_of : List Decl → Text
schema_of [] = []
schema_of (d ∷ ds) =
    spelled d.keyword
    ++ 32
      ∷ (name_of d ++ 32 ∷ 123 ∷ (d.word ++ 125 ∷ 32 ∷ 47 ∷ 47 ∷ (d.comment ++ 10 ∷ schema_of ds)))

abbrev pub names_of : List Decl → List Text
names_of [] = []
names_of (d ∷ ds) = name_of d ∷ names_of ds

-- An underscore, a letter or a digit.
abbrev pub IsNameByte : ℕ → Type 0
IsNameByte c =
    ((c == 95) || ((leb 97 c && leb c 122) || ((leb 65 c && leb c 90) || (leb 48 c && leb c 57))))
    ≡ true

-- A word that begins with another letter than the keywords do.
abbrev pub IsApart : Text → Type 0
IsApart [] = Unit
IsApart (c ∷ cs) = ((c == 116) ≡ false) × ((c == 101) ≡ false)

abbrev pub IsWritten : Decl → Type 0
IsWritten d =
    All IsNameByte (name_of d)
    × (All IsNameByte d.word × IsApart d.word)
    × All (λ c. (c == 10) ≡ false) d.comment

pub name_byte-is_word : (c : ℕ) → IsNameByte c → is_word c ≡ true
name_byte-is_word c h = ground arith

pub name_byte-is_whitespace : (c : ℕ) → IsNameByte c → is_whitespace c ≡ false
name_byte-is_whitespace c h = ground arith

name_byte-slash : (c : ℕ) → IsNameByte c → (c == slash_byte) ≡ false
name_byte-slash c h = ground arith

name_byte-quote : (c : ℕ) → IsNameByte c → (c == quote) ≡ false
name_byte-quote c h = ground arith

-- A schema without its comments.
abbrev pub bare_of : List Decl → Text
bare_of [] = []
bare_of (d ∷ ds) =
    spelled d.keyword ++ 32 ∷ (name_of d ++ 32 ∷ 123 ∷ (d.word ++ 125 ∷ 32 ∷ 10 ∷ bare_of ds))

strip-name : (t rest : Text) → All IsNameByte t → strip code (t ++ rest) ≡ t ++ strip code rest
strip-name [] rest h = refl
strip-name (c ∷ cs) rest (h, hs) =
    strip-plain c (cs ++ rest)
      (plain_byte c (cs ++ rest) (name_byte-slash c h) (name_byte-quote c h))
    ∙ ap (λ t. c ∷ t) (strip-name cs rest hs)

strip-comment :
    (comment rest : Text)
    → All (λ c. (c == 10) ≡ false) comment
    → strip in_line (comment ++ 10 ∷ rest) ≡ 10 ∷ strip code rest
unfolding strip
strip-comment [] rest h = refl
strip-comment (c ∷ cs) rest (h, hs) =
    let same : strip in_line (c ∷ (cs ++ 10 ∷ rest)) ≡ strip in_line (cs ++ 10 ∷ rest) =
      simp (strip, h) in
    same ∙ strip-comment cs rest hs

strip-spelled :
    (k : Keyword) (c : ℕ) (t : Text)
    → strip code (spelled k ++ 32 ∷ c ∷ t) ≡ spelled k ++ 32 ∷ strip code (c ∷ t)
unfolding strip begins
strip-spelled table c t = refl
strip-spelled enum c t = refl

strip-open : (t : Text) → strip code (32 ∷ 123 ∷ t) ≡ 32 ∷ 123 ∷ strip code t
unfolding strip begins
strip-open t = ap (λ r. 32 ∷ r) (strip-plain 123 t (plain_byte 123 t refl refl))

strip-close : (t : Text) → strip code (125 ∷ 32 ∷ 47 ∷ 47 ∷ t) ≡ 125 ∷ 32 ∷ strip in_line t
unfolding strip begins
strip-close t = refl

strip-body :
    (word comment rest : Text)
    → All IsNameByte word
    → All (λ c. (c == 10) ≡ false) comment
    → strip code (32 ∷ 123 ∷ (word ++ 125 ∷ 32 ∷ 47 ∷ 47 ∷ (comment ++ 10 ∷ rest)))
      ≡ 32 ∷ 123 ∷ (word ++ 125 ∷ 32 ∷ 10 ∷ strip code rest)
strip-body word comment rest h told =
    let tail : Text = comment ++ 10 ∷ rest in
    strip-open (word ++ 125 ∷ 32 ∷ 47 ∷ 47 ∷ tail)
    ∙ ap (λ t. 32 ∷ 123 ∷ t)
        (strip-name word (125 ∷ 32 ∷ 47 ∷ 47 ∷ tail) h
          ∙ ap (λ t. word ++ t)
              (strip-close tail ∙ ap (λ t. 125 ∷ 32 ∷ t) (strip-comment comment rest told)))

pub strip-schema_of : (ds : List Decl) → All IsWritten ds → strip code (schema_of ds) ≡ bare_of ds
unfolding strip
strip-schema_of [] h = refl
strip-schema_of (d ∷ ds) ((named, (spelt, apart), told), hs) =
    let body : Text =
      32 ∷ 123 ∷ (d.word ++ 125 ∷ 32 ∷ 47 ∷ 47 ∷ (d.comment ++ 10 ∷ schema_of ds)) in
    strip-spelled d.keyword d.first (d.more ++ body)
    ∙ ap (λ t. spelled d.keyword ++ 32 ∷ t)
        (strip-name (name_of d) body named
          ∙ ap (λ t. name_of d ++ t)
              (strip-body d.word d.comment (schema_of ds) spelt told
                ∙ ap (λ t. 32 ∷ 123 ∷ (d.word ++ 125 ∷ 32 ∷ 10 ∷ t)) (strip-schema_of ds hs)))
