-- ===== src/NatsHeaders/Samples.antt =====
-- Header maps as lists, for the tests.
use flatbed.Base.{
  both, ℕ, ◌≡◌, refl, sym, ap, ◌∙◌, Bool, true, false, Option, some, none, List, [], ◌∷◌, ◌++◌,
  ◌&&◌, ◌==◌, ◌+◌, ◌*◌, ◌-◌, ◌<◌, list_keys, number_keys, if◌then◌else◌, Text, arith, ltb, first,
  beq_cases, beq_ne, inl, inr, append_assoc, ◌/◌, ◌%◌, trim_start, trim_end, is_empty, Bool-cases,
}
use flatbed.NatsHeaders.{HeaderLibrary}
use flatbed.NatsHeaders.Laws.{
  HeaderLaws, named, entered, every_name, holds_all, digits, is_printable, is_graphic, trimmed,
  texts,
}

abbrev pub Pairs : Type 0
Pairs = List (Text × Text)

abbrev Entries : Type 0
Entries = List (Text × List Text)

abbrev drop_named : Text → Pairs → Pairs
drop_named t [] = []
drop_named t ((s, v) ∷ ps) = if s == t then drop_named t ps else (s, v) ∷ drop_named t ps

abbrev from_digits : Text → Option ℕ
from_digits (a ∷ b ∷ c ∷ []) = some ((a - 48) * 100 + (b - 48) * 10 + (c - 48))
from_digits _ = none

abbrev trim_blanks : Text → Text
trim_blanks v = trim_end 32 (trim_start 32 v)

abbrev trim_all : List Text → List Text
trim_all [] = []
trim_all (v ∷ vs) = trim_blanks v ∷ trim_all vs

abbrev trim_entries : Entries → Entries
trim_entries [] = []
trim_entries ((s, vs) ∷ w) = (s, trim_all vs) ∷ trim_entries w

instance abbrev pub list_map : HeaderLibrary
list_map = record {
  Name = Text;
  Map = Pairs;
  Wire = Entries;
  parse = λ t. some t;
  as_str = λ t. t;
  empty = [];
  append = λ n v h. h ++ (n, v) ∷ [];
  insert = λ n v h. (n, v) ∷ drop_named n h;
  remove = drop_named;
  get = λ n h. first (named n h);
  pairs = λ h. h;
  is_value = λ v. true;
  is_visible = holds_all (λ c. ltb c 128);
  wire_empty = [];
  wire_append = λ s v w. w ++ (s, v ∷ []) ∷ [];
  entries = λ w. w;
  arrives = trim_entries;
  trim = trim_blanks;
  status_str = digits;
  status_from = from_digits;
}

swap : (a b c : Bool) → (a && (b && c)) ≡ (b && (a && c))
swap true b c = refl
swap false true c = refl
swap false false c = refl

regroup :
    (a b : Bool) (vs xs : List Text) (v : Text)
    → (if a then vs ++ (if b then xs ++ v ∷ [] else xs) else (if b then xs ++ v ∷ [] else xs))
      ≡ (if b then (if a then vs ++ xs else xs) ++ v ∷ [] else (if a then vs ++ xs else xs))
regroup true true vs xs v = sym (append_assoc vs xs (v ∷ []))
regroup true false vs xs v = refl
regroup false b vs xs v = refl

narrow : (c : ℕ) → is_printable c ≡ true → ltb c 128 ≡ true
narrow c e = ground arith

digits_back :
    (n : ℕ)
    → n < 1000
    → (48 + n / 100 - 48) * 100 + (48 + n / 10 % 10 - 48) * 10 + (48 + n % 10 - 48) ≡ n
digits_back n high = omega arith

texts_lem : (ps : Pairs) → texts ps ≡ ps
texts_lem [] = refl
texts_lem ((n, v) ∷ ps) = ap (λ qs. (n, v) ∷ qs) (texts_lem ps)

named-append :
    (t n v : Text) (h : Pairs)
    → named t (h ++ (n, v) ∷ []) ≡ (if n == t then named t h ++ v ∷ [] else named t h)
named-append t n v [] = refl
named-append t n v ((s, w) ∷ h) = elim (beq_cases s t) [
  | inl (e, p) ↦ elim (beq_cases n t) [
    | inl (f, q) ↦ rw (e, named-append t n v h, f)
    | inr (f, q) ↦ rw (e, named-append t n v h, f)
  ]
  | inr (e, p) ↦ rw (e, named-append t n v h)
]

empty_both : (b : Bool) (xs : List Text) → xs ≡ (if b then xs else xs)
empty_both true xs = refl
empty_both false xs = refl

named-drop_named :
    (t n : Text) (h : Pairs) → named t (drop_named n h) ≡ (if n == t then [] else named t h)
named-drop_named t n [] = empty_both (n == t) []
named-drop_named t n ((s, w) ∷ h) = elim (beq_cases s n) [
  | inl (e, p) ↦ elim (beq_cases n t) [
    | inl (f, q) ↦ rw (e, named-drop_named t n h, f)
    | inr (f, q) ↦ rw (e, ap (λ u. u == t) p ∙ f, named-drop_named t n h, f)
  ]
  | inr (e, p) ↦ elim (beq_cases n t) [
    | inl (f, q) ↦ rw (e, beq_ne s t (λ r. p (r ∙ sym q)), named-drop_named t n h, f)
    | inr (f, q) ↦ rw (e, named-drop_named t n h, f)
  ]
]

named-insert :
    (t n v : Text) (h : Pairs)
    → named t ((n, v) ∷ drop_named n h) ≡ (if n == t then v ∷ [] else named t h)
named-insert t n v h = elim (beq_cases n t) [
  | inl (e, p) ↦ rw (e, named-drop_named t n h, e)
  | inr (e, p) ↦ rw (e, named-drop_named t n h, e)
]

every_name-end :
    (p : Text → Bool) (s v : Text) (w : Entries)
    → every_name p (w ++ (s, v ∷ []) ∷ []) ≡ (p s && every_name p w)
every_name-end p s v [] = refl
every_name-end p s v ((r, vs) ∷ w) =
    ap (λ b. p r && b) (every_name-end p s v w) ∙ swap (p r) (p s) (every_name p w)

entered-end :
    (t s v : Text) (w : Entries)
    → entered t (w ++ (s, v ∷ []) ∷ []) ≡ (if s == t then entered t w ++ v ∷ [] else entered t w)
entered-end t s v [] = refl
entered-end t s v ((r, vs) ∷ w) =
    ap (λ xs. if r == t then vs ++ xs else xs) (entered-end t s v w)
    ∙ regroup (r == t) (s == t) vs (entered t w) v

printable_ascii : (v : Text) → holds_all is_printable v ≡ true → holds_all (λ c. ltb c 128) v ≡ true
printable_ascii [] e = refl
printable_ascii (c ∷ cs) e =
    let (one, rest) = both (is_printable c) (holds_all is_printable cs) e in
    rw (narrow c one, printable_ascii cs rest)

trim_start-ascii :
    (v : Text)
    → holds_all (λ c. ltb c 128) v ≡ true
    → holds_all (λ c. ltb c 128) (trim_start 32 v) ≡ true
trim_start-ascii [] e = refl
trim_start-ascii (c ∷ cs) e =
    let (one, rest) = both (ltb c 128) (holds_all (λ c. ltb c 128) cs) e in
    elim (Bool-cases (c == 32)) [ inl t ↦ rw t (trim_start-ascii cs rest) | inr t ↦ rw t e ]

trim_end-ascii :
    (v : Text)
    → holds_all (λ c. ltb c 128) v ≡ true
    → holds_all (λ c. ltb c 128) (trim_end 32 v) ≡ true
trim_end-ascii [] e = refl
trim_end-ascii (c ∷ cs) e =
    let (one, rest) = both (ltb c 128) (holds_all (λ c. ltb c 128) cs) e in
    elim (Bool-cases (is_empty (trim_end 32 cs) && (c == 32))) [
      | inl t ↦ rw t
      | inr t ↦ rw (t, one, trim_end-ascii cs rest)
    ]

not_blank : (c : ℕ) → is_graphic c ≡ true → (c == 32) ≡ false
not_blank c e = ground arith

and_false : (b : Bool) → (b && false) ≡ false
and_false true = refl
and_false false = refl

trim_end-graphic : (v : Text) → holds_all is_graphic v ≡ true → trim_end 32 v ≡ v
trim_end-graphic [] e = refl
trim_end-graphic (c ∷ cs) e =
    let (one, rest) = both (is_graphic c) (holds_all is_graphic cs) e in
    rw (trim_end-graphic cs rest, not_blank c one, and_false (is_empty cs))

trim_blanks-graphic : (v : Text) → holds_all is_graphic v ≡ true → trim_blanks v ≡ v
trim_blanks-graphic [] e = refl
trim_blanks-graphic (c ∷ cs) e =
    let (one, rest) = both (is_graphic c) (holds_all is_graphic cs) e in
    rw (not_blank c one) (trim_end-graphic (c ∷ cs) e)

trim_all-append : (vs ws : List Text) → trim_all (vs ++ ws) ≡ trim_all vs ++ trim_all ws
trim_all-append [] ws = refl
trim_all-append (v ∷ vs) ws = ap (λ xs. trim_blanks v ∷ xs) (trim_all-append vs ws)

trimmed_lem : (vs : List Text) → trim_all vs ≡ trimmed vs
trimmed_lem [] = refl
trimmed_lem (v ∷ vs) = ap (λ xs. trim_blanks v ∷ xs) (trimmed_lem vs)

entered-trim_entries :
    (t : Text) (w : Entries) → entered t (trim_entries w) ≡ trim_all (entered t w)
entered-trim_entries t [] = refl
entered-trim_entries t ((s, vs) ∷ w) = elim (Bool-cases (s == t)) [
  | inl e ↦ rw (e, entered-trim_entries t w, trim_all-append vs (entered t w))
  | inr e ↦ rw (e, entered-trim_entries t w)
]

every_name-trim_entries :
    (p : Text → Bool) (w : Entries) → every_name p (trim_entries w) ≡ every_name p w
every_name-trim_entries p [] = refl
every_name-trim_entries p ((s, vs) ∷ w) = ap (λ b. p s && b) (every_name-trim_entries p w)

instance pub list_laws : HeaderLaws
list_laws = record {
  parse-as_str = λ n. refl;
  parse-plain = λ t e. (t, (refl, refl));
  get-values = λ n h. ap (λ ps. first (named n ps)) (sym (texts_lem h));
  values-empty = λ t. refl;
  values-append = λ t n v h.
      ap (named t) (texts_lem (h ++ (n, v) ∷ []))
      ∙ named-append t n v h
      ∙ ap (λ ps. if n == t then named t ps ++ v ∷ [] else named t ps) (sym (texts_lem h));
  values-insert = λ t n v h.
      ap (named t) (texts_lem ((n, v) ∷ drop_named n h))
      ∙ named-insert t n v h
      ∙ ap (λ ps. if n == t then v ∷ [] else named t ps) (sym (texts_lem h));
  values-remove = λ t n h.
      ap (named t) (texts_lem (drop_named n h))
      ∙ named-drop_named t n h
      ∙ ap (λ ps. if n == t then [] else named t ps) (sym (texts_lem h));
  entries-empty = refl;
  entered-append = entered-end;
  every_name-append = every_name-end;
  entered-arrives = λ t w lines. entered-trim_entries t w ∙ trimmed_lem (entered t w);
  every_name-arrives = λ p w lines. every_name-trim_entries p w;
  trim-visible = λ v e. trim_end-ascii (trim_start 32 v) (trim_start-ascii v e);
  trim-graphic = trim_blanks-graphic;
  visible-value = λ v e. refl;
  printable-visible = printable_ascii;
  wide-visible = λ v e. e;
  status_str-digits = λ n low high. refl;
  status_from-digits = λ n low high. ap some (digits_back n high);
}
