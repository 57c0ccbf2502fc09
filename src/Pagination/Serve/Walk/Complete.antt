-- ===== src/Pagination/Serve/Walk/Complete.antt =====
-- pagination.rs: following the `next` cursors visits every row of the list once, in order.
use flatbed.Base.{
  first, last, ℕ, zero, suc, ◌≤◌, ◌<◌, ◌≡◌, refl, sym, ◌∙◌, ap, subst, arith, true, Option, none,
  some, List, [], ◌∷◌, ◌++◌, inl, inr, Bool-cases, ltb, ltb→lt, Result, ok, length, take, drop, map,
  is_some, u32_max, saturating_suc, HasEq, append_assoc, take-append-drop, length-drop,
  ltb-false→le,
}
use mathlib.Core.List.{map-append}
use flatbed.Base.Keyed.{Distinct}
use flatbed.Pagination.{
  Bytes, Binding, max_cursor_chars, Direction, forward, backward, Codec, CodecLaws, mint,
}
use flatbed.Pagination.Serve.{
  PageRequest, ListQuery, Pager, effective_page_size, start, list_query, mint_for, page,
}
use flatbed.Pagination.Serve.Pages.{mint-start}
use flatbed.Pagination.Serve.Walk.{
  rows_after, rows_after-append, split_last, last-append, take-take, take-all, more, mint_for-ok,
  mint_for-unwanted, mint_for-wanted, page_forward, made, walk, walk_last, walk_on,
}

-- Every key gives a cursor, in both directions, that `open` accepts.
abbrev pub IsMintable : {Req K : Type 0} → Type 0 → Codec Req K → Binding → Req → K → Type 0
IsMintable E c b f k =
    (dir : Direction)
    → (x : ℕ) × (xs : Bytes) × (mint c {E = E} dir k f b ≡ ok (x ∷ xs))
      × (length (x ∷ xs) ≤ max_cursor_chars)

-- The fetch of a table, for one set of filters: at most so many of the rows after the key.
abbrev pub Honours :
    {Req K Item E : Type 0}
    → ⦃h : HasEq K⦄ → List (Item × K)
    → Req
    → (ListQuery Req K → Result E (List (Item × K)))
    → Type 0
Honours {Req} {K} table request fetch =
    (q : ListQuery Req K)
    → q.direction ≡ forward
    → q.request ≡ request
    → fetch q ≡ ok (take q.limit (rows_after (λ row. row.1) q.after table))

cut_last {ℓ} :
    {A : Type ℓ} (n : ℕ) (xs : List A)
    → 1 ≤ n
    → n ≤ length xs
    → (before : List A) × (row : A) × (take n xs ≡ before ++ row ∷ [])
cut_last zero xs l h = absurd (omega arith)
cut_last (suc n) xs l h = split_last n xs h

glued {ℓ} :
    {A : Type ℓ} (table before rest pre : List A) (row : A) (size : ℕ)
    → table ≡ before ++ rest
    → take size rest ≡ pre ++ row ∷ []
    → table ≡ (before ++ pre) ++ row ∷ drop size rest
glued table before rest pre row size l cut =
    let left = drop size rest in
    let split =
      sym (take-append-drop size rest)
      ∙ ap (λ z. z ++ left) cut
      ∙ append_assoc pre (row ∷ []) left in
    l ∙ ap (λ z. before ++ z) split ∙ sym (append_assoc before pre (row ∷ left))

-- A page that does not end the list: its last row, from whose key the rest of the list goes on.
page_cut :
    {Item K : Type 0} ⦃h : HasEq K⦄ (table before rest : List (Item × K)) (size : ℕ)
    → Distinct (λ (row : Item × K). row.1) table
    → table ≡ before ++ rest
    → 1 ≤ size
    → size < length rest
    → (done : List (Item × K)) × (row : Item × K) × (last (take size rest) ≡ some row)
      × (table ≡ done ++ drop size rest)
      × (rows_after (λ (row : Item × K). row.1) (some row.1) table ≡ drop size rest)
page_cut table before rest size distinct l least long =
    let (pre, row, cut) = cut_last size rest least (omega (arith, long)) in
    let left = drop size rest in
    let whole = glued table before rest pre row size l cut in
    let later =
      subst (λ l. rows_after (λ row. row.1) (some row.1) l ≡ left) (sym whole)
        (rows_after-append (λ row. row.1) (before ++ pre) row left
          (subst (λ l. Distinct (λ row. row.1) l) whole distinct)) in
    (
      (before ++ pre) ++ row ∷ [],
      row,
      rw cut (last-append pre row),
      whole ∙ sym (append_assoc (before ++ pre) (row ∷ []) left),
      later,
    )

module _ {Req K Item E : Type 0} ⦃e : HasEq K⦄ (c : Codec Req K) (laws : CodecLaws c)
    (r : PageRequest Req) (p : Pager) (b : Binding) (table : List (Item × K))
    (distinct : Distinct (λ row. row.1) table) (f empty : Req)
    (no_filters : r.same empty r.default ≡ true) (asked : ℕ)
    (least : 1 ≤ effective_page_size p asked) (most : effective_page_size p asked < u32_max)
    (fetch : ListQuery Req K → Result E (List (Item × K)))
    (honours : Honours table (r.set_page_size (effective_page_size p asked) f) fetch)
    (mintable : (k : K) → IsMintable E c b f k) (next : Bytes → Req)
    (next_page : (t : Bytes) → r.take_page (next t) ≡ (empty, some t, asked)) where
  fetched :
      (after : Option K)
      → fetch (list_query c r (effective_page_size p asked) (f, forward, after))
        ≡ ok (take (suc (effective_page_size p asked)) (rows_after (λ row. row.1) after table))
  unfolding list_query
  fetched after =
      let size = effective_page_size p asked in
      let limit : saturating_suc size ≡ suc size = ground (arith, most) in
      honours (list_query c r size (f, forward, after)) refl refl
      ∙ ap (λ n. ok (take n (rows_after (λ (row : Item × K). row.1) after table))) limit

  walk_from :
      (n : ℕ) (body : Req) (filters : Req) (cursor : Option Bytes) (after : Option K)
      (before rest : List (Item × K))
      → r.take_page body ≡ (filters, cursor, asked)
      → start c r {E = E} b (filters, cursor) ≡ ok (f, forward, after)
      → table ≡ before ++ rest
      → rows_after (λ row. row.1) after table ≡ rest
      → length rest < n
      → walk (page c r {E = E} p b fetch) next n body ≡ some (map (λ row. row.0) rest)
  walk_from zero body filters cursor after before rest t s l a h = absurd (omega (arith, h))
  walk_from (suc n) body filters cursor after before rest t s l a h =
      let size = effective_page_size p asked in
      let rows = take (suc size) rest in
      let shown : take size rows ≡ take size rest = take-take size rest in
      let got : fetch (list_query c r size (f, forward, after)) ≡ ok rows =
        fetched after ∙ ap (λ l. ok (take (suc size) l)) a in
      let minted : (k : K) → (t : Bytes) × (mint c {E = E} backward k f b ≡ ok t) =
        λ k. let (x, xs, m, _) = mintable k backward in (x ∷ xs, m) in
      let (prev, m) =
        mint_for-ok {Item = Item} {E = E} c r b f backward (first (take size rows)) (is_some after)
          minted in
      elim (Bool-cases (ltb size (length rest))) [
        | inl q ↦
            let long = ltb→lt size (length rest) q in
            let (done, row, at_end, whole, later) =
              page_cut table before rest size distinct l least long in
            let (x, xs, minted_next, short) = mintable row.1 forward in
            let ending : last (take size rows) ≡ some row = rw shown at_end in
            let wanted : mint_for c r {Item = Item} {E = E} b f forward (last (take size rows))
                  (ltb size (length rows))
                ≡ ok (some (x ∷ xs)) =
              rw (ending, more size rest, q)
                (mint_for-wanted {Item = Item} {E = E} c r b f forward row (x ∷ xs) minted_next) in
            let served =
              page_forward {E = E} c r b p fetch body filters cursor asked f after rows
                (some (x ∷ xs)) prev t s got m wanted in
            let left = drop size rest in
            let shorter : length left < n = omega (arith, h, length-drop size rest, long) in
            let on =
              mint-start c r laws empty no_filters {E = E} b f forward row.1 x xs minted_next
                short in
            let tail =
              walk_from n (next (x ∷ xs)) empty (some (x ∷ xs)) (some row.1) done left
                (next_page (x ∷ xs)) on whole later shorter in
            walk_on (page c r {E = E} p b fetch) next n body
              (made r size f (take size rows) prev (some (x ∷ xs))) (x ∷ xs)
              (map (λ row. row.0) left) served refl tail
            ∙ ap some (
                sym (map-append (λ row. row.0) (take size rows) left)
                ∙ ap (λ z. map (λ row. row.0) z)
                    (ap (λ z. z ++ left) shown ∙ take-append-drop size rest))
        | inr q ↦
            let quiet : mint_for c r {Item = Item} {E = E} b f forward (last (take size rows))
                  (ltb size (length rows))
                ≡ ok none =
              rw (more size rest, q)
                (mint_for-unwanted {Item = Item} {E = E} c r b f forward (last (take size rows))) in
            let served =
              page_forward {E = E} c r b p fetch body filters cursor asked f after rows none prev t
                s got m quiet in
            let all_of : take size rows ≡ rest =
              shown ∙ take-all size rest (ltb-false→le size (length rest) q) in
            walk_last (page c r {E = E} p b fetch) next n body
              (made r size f (take size rows) prev none) served refl
            ∙ ap (λ l. some (map (λ row. row.0) l)) all_of
      ]

  -- A client that asks for the first page and follows the next cursors gets every row of the list
  -- once and in order, in at most one page more than there are rows, where the keys of the list are
  -- distinct, the page size is at least one and below the largest u32, the fetch returns the rows
  -- after the key up to its limit, every key makes a cursor within the length limit, the codecs
  -- undo each other, and the follow-up requests carry the cursor, the same page size and no
  -- filters.
  pub walk_visits_all :
      (body : Req) (n : ℕ)
      → r.take_page body ≡ (f, none, asked)
      → length table < n
      → walk (page c r {E = E} p b fetch) next n body ≡ some (map (λ row. row.0) table)
  unfolding start rows_after
  walk_visits_all body n t h = walk_from n body f none none [] table t refl refl refl h
