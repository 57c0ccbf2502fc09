-- ===== src/SourceOrder/Scan.antt =====
-- source_order.rs: the fuel of the scan for declarations.
use flatbed.Base.{
  ℕ, zero, suc, ◌≤◌, ◌≡◌, ◌⊎◌, refl, sym, ap, subst, ◌∙◌, Bool, Option, none, some, [], ◌∷◌, ◌++◌,
  length, codes, Text, Bool-cases, Option-cases, arith, inl, inr, List, ◌<◌,
}
use flatbed.SourceOrder.{
  Position, at_word_boundary, past_keyword, skip_while, skip_at, is_word, is_whitespace,
  declaration, declarations, found_then, scan, source_decl_order, strip_fbs_comments,
}

length-past_keyword :
    (n : ℕ) (before : Option ℕ) (t : Text) → length (past_keyword n before t).1 ≤ length t
length-past_keyword zero before t = omega arith
length-past_keyword (suc n) before [] = omega arith
length-past_keyword (suc n) before (c ∷ t) = omega (arith, length-past_keyword n (some c) t)

length-skip_while :
    (p : ℕ → Bool) (before : Option ℕ) (t : Text) → length (skip_while p before t).1 ≤ length t
length-skip_while p before [] = omega arith
length-skip_while p before (c ∷ t) = elim (Bool-cases (p c)) [
  | inl e ↦ simp (skip_while, e) (omega (arith, length-skip_while p (some c) t))
  | inr e ↦ simp (skip_while, e) (omega arith)
]

length-skip_at : (p : ℕ → Bool) (at : Position) → length (skip_at p at).1 ≤ length at.1
length-skip_at p (before, t) = length-skip_while p before t

length-declaration : (kw : Text) (at : Position) → length (declaration kw at).1.1 ≤ length at.1
unfolding declaration
length-declaration kw (before, t) =
    let keyword = past_keyword (length kw) before t in
    let start = skip_at is_whitespace keyword in
    elim (Bool-cases (at_word_boundary (before, t) kw)) [
      | inl e ↦ rw e (
          omega (
            arith,
            length-skip_at is_word start,
            length-skip_at is_whitespace keyword,
            length-past_keyword (length kw) before t,
          ))
      | inr e ↦ rw e (omega arith)
    ]

length-declarations : (at : Position) → length (declarations at).1 ≤ length at.1
unfolding declarations
length-declarations at = omega (
  arith,
  length-declaration (codes "table") at,
  length-declaration (codes "enum") (declaration (codes "table") at).1,
)

List-cases : (t : Text) → (t ≡ []) ⊎ ((d : ℕ) × (ds : Text) × (t ≡ d ∷ ds))
List-cases [] = inl refl
List-cases (d ∷ ds) = inr (d, ds, refl)

module _ (n : ℕ) (before : Option ℕ) (c : ℕ) (t : Text) where
  -- One round of the loop, where it is the last one and where it is not.
  scan_last :
      (declarations (before, c ∷ t)).1 ≡ []
      → scan (suc n) before (c ∷ t) ≡ found_then (declarations (before, c ∷ t)).0 (some [])
  unfolding scan
  scan_last e = simp (scan, e)

  pub scan_next :
      (d : ℕ) (ds : Text)
      → (declarations (before, c ∷ t)).1 ≡ d ∷ ds
      → scan (suc n) before (c ∷ t)
        ≡ found_then (declarations (before, c ∷ t)).0 (scan n (some d) ds)
  unfolding scan
  scan_next d ds e = simp (scan, e)

-- With more fuel than bytes the scan ends.
scan_ends :
    (n : ℕ) (before : Option ℕ) (t : Text)
    → length t < n
    → (names : List Text) × (scan n before t ≡ some names)
unfolding scan
scan_ends zero before t h = absurd (omega arith)
scan_ends (suc n) before [] h = ([], refl)
scan_ends (suc n) before (c ∷ t) h =
    let found = declarations (before, c ∷ t) in
    let shorter = length-declarations (before, c ∷ t) in
    elim (List-cases found.1) [
      | inl e ↦ (found.0 ++ [], scan_last n before c t e)
      | inr (d, ds, e) ↦
          let less : suc (length ds) ≤ suc (length t) =
            subst (λ r. length r ≤ suc (length t)) e shorter in
          let (names, k) = scan_ends n (some d) ds (omega (arith, less)) in
          (found.0 ++ names, scan_next n before c t d ds e ∙ ap (found_then found.0) k)
    ]

-- What the scan has found stays with more fuel.
pub scan_more :
    (n m : ℕ) (before : Option ℕ) (t : Text) (names : List Text)
    → n ≤ m
    → scan n before t ≡ some names
    → scan m before t ≡ some names
unfolding scan
scan_more zero m before t names h k = cc k
scan_more (suc n) zero before t names h k = absurd (omega arith)
scan_more (suc n) (suc m) before [] names h k = k
scan_more (suc n) (suc m) before (c ∷ t) names h k =
    let found = declarations (before, c ∷ t) in
    elim (List-cases found.1) [
      | inl e ↦ scan_last m before c t e ∙ sym (scan_last n before c t e) ∙ k
      | inr (d, ds, e) ↦
          let left = scan_next n before c t d ds e in
          let right = scan_next m before c t d ds e in
          elim (Option-cases (scan n (some d) ds)) [
            | inl q ↦ cc (sym (left ∙ ap (found_then found.0) q) ∙ k)
            | inr (more, q) ↦
                let same = scan_more n m (some d) ds more (omega arith) q in
                right ∙ ap (found_then found.0) same ∙ sym (left ∙ ap (found_then found.0) q) ∙ k
          ]
    ]

-- The scan of a text ends, whatever the text.
source_decl_order_ends : (text : Text) → (names : List Text) × (source_decl_order text ≡ some names)
unfolding source_decl_order
source_decl_order_ends text =
    let cleaned = strip_fbs_comments text in
    scan_ends (suc (length cleaned)) none cleaned (omega arith)
