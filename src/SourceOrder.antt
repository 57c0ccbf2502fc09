-- ===== src/SourceOrder.antt =====
-- crates/flatbed_build/src/source_order.rs: the order of declarations in a schema's text. The text is its
-- bytes; an index into them is what is left of them, with the byte before.
pub mod Comments
pub mod Scan
pub mod Schemas
pub mod Order
mod Tests
use flatbed.Base.{
  ℕ, suc, zero, Bool, true, false, not, Option, none, some, List, [], ◌∷◌, ◌++◌, ◌&&◌, ◌||◌, ◌==◌,
  number_keys, if◌then◌else◌, leb, length, drop, Text, codes, is_empty, strip_prefix, one_of,
}

-- Where the loops of `strip_fbs_comments` are, and what begins at a byte of code.
pub data Place : Type 0 where
  code in_line in_block in_quotes : Place

pub data Begins : Type 0 where
  a_line a_block a_quote plain : Begins

abbrev pub newline : ℕ
newline = 10

abbrev pub quote : ℕ
quote = 34

abbrev pub backslash : ℕ
backslash = 92

abbrev pub slash_byte : ℕ
slash_byte = 47

abbrev pub asterisk : ℕ
asterisk = 42

unfoldable pub begins : ℕ → ℕ → Begins
begins c d =
    if (c == slash_byte) && (d == slash_byte)
    then a_line
    else (if (c == slash_byte) && (d == asterisk)
        then a_block
        else (if c == quote then a_quote else plain))

pub data Quoted : Type 0 where
  ends escapes goes_on : Quoted

unfoldable pub quoted : ℕ → Quoted
quoted c = if c == quote then ends else (if c == backslash then escapes else goes_on)

pub strip : Place → Text → Text
unfolding begins quoted
strip code [] = []
strip code (c ∷ []) = c ∷ []
strip code (c ∷ d ∷ cs) = elim (begins c d) [
  | a_line ↦ strip in_line cs
  | a_block ↦ strip in_block cs
  | a_quote ↦ c ∷ strip in_quotes (d ∷ cs)
  | plain ↦ c ∷ strip code (d ∷ cs)
]
strip in_line [] = []
-- The newline is code again, and stays.
strip in_line (c ∷ cs) = elim (c == newline) [ true ↦ c ∷ strip code cs | false ↦ strip in_line cs ]
strip in_block [] = []
strip in_block (c ∷ []) = []
strip in_block (c ∷ d ∷ cs) = elim ((c == asterisk) && (d == slash_byte)) [
  | true ↦ strip code cs
  | false ↦ if c == newline then c ∷ strip in_block (d ∷ cs) else strip in_block (d ∷ cs)
]
strip in_quotes [] = []
strip in_quotes (c ∷ []) = c ∷ []
strip in_quotes (c ∷ d ∷ cs) = elim (quoted c) [
  | ends ↦ c ∷ strip code (d ∷ cs)
  | escapes ↦ c ∷ d ∷ strip in_quotes cs
  | goes_on ↦ c ∷ strip in_quotes (d ∷ cs)
]

abbrev pub strip_fbs_comments : Text → Text
strip_fbs_comments text = strip code text

abbrev pub is_alphanumeric : ℕ → Bool
is_alphanumeric c = (leb 48 c && leb c 57) || ((leb 65 c && leb c 90) || (leb 97 c && leb c 122))

-- A letter, a digit or an underscore.
abbrev pub is_word : ℕ → Bool
is_word c = is_alphanumeric c || (c == 95)

abbrev pub is_whitespace : ℕ → Bool
is_whitespace c = (c == 32) || ((leb 9 c && leb c 10) || (leb 12 c && leb c 13))

abbrev pub option_word : Option ℕ → Bool
option_word none = false
option_word (some c) = is_word c

abbrev pub first_word : Text → Bool
first_word [] = false
first_word (c ∷ cs) = is_word c

abbrev pub Position : Type 0
Position = Option ℕ × Text

abbrev pub at_word_boundary : Position → Text → Bool
at_word_boundary (before, rest) kw = elim (strip_prefix kw rest) [
  | none ↦ false
  | some after ↦ not (option_word before) && not (first_word after)
]

abbrev pub past_keyword : ℕ → Option ℕ → Text → Position
past_keyword zero before rest = (before, rest)
past_keyword (suc n) before [] = (before, [])
past_keyword (suc n) before (c ∷ cs) = past_keyword n (some c) cs

abbrev pub skip_while : (ℕ → Bool) → Option ℕ → Text → Position
skip_while p before [] = (before, [])
skip_while p before (c ∷ cs) = elim (p c) [
  | true ↦ skip_while p (some c) cs
  | false ↦ (before, c ∷ cs)
]

abbrev pub take_while : (ℕ → Bool) → Text → Text
take_while p [] = []
take_while p (c ∷ cs) = elim (p c) [ true ↦ c ∷ take_while p cs | false ↦ [] ]

abbrev pub skip_at : (ℕ → Bool) → Position → Position
skip_at p (before, rest) = skip_while p before rest

-- One keyword at a position: the names found, and where the scan goes on.
unfoldable pub declaration : Text → Position → List Text × Position
declaration kw (before, rest) =
    if at_word_boundary (before, rest) kw
    then (let start = skip_at is_whitespace (past_keyword (length kw) before rest) in
        let name = take_while is_word start.1 in
        ((if is_empty name then [] else name ∷ []), skip_at is_word start))
    else ([], (before, rest))

-- Both keywords, one after the other.
unfoldable pub declarations : Position → List Text × Text
unfolding declaration
declarations at =
    let table = declaration (codes "table") at in
    let enum = declaration (codes "enum") table.1 in (table.0 ++ enum.0, enum.1.1)

abbrev pub found_then : List Text → Option (List Text) → Option (List Text)
found_then names none = none
found_then names (some more) = some (names ++ more)

-- The loop; none where the fuel runs out before it ends.
unfoldable pub scan : ℕ → Option ℕ → Text → Option (List Text)
unfolding declarations
scan zero before rest = none
scan (suc n) before [] = some []
scan (suc n) before (c ∷ cs) =
    let found = declarations (before, c ∷ cs) in
    found_then found.0 (elim found.1 [ [] ↦ some [] | d ∷ ds ↦ scan n (some d) ds ])

pub source_decl_order : Text → Option (List Text)
unfolding strip scan
source_decl_order text =
    let cleaned = strip_fbs_comments text in scan (suc (length cleaned)) none cleaned
