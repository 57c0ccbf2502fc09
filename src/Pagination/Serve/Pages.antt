-- ===== src/Pagination/Serve/Pages.antt =====
-- pagination.rs: the pages that `Pager::page` serves, and where their cursors lead.
use flatbed.Base.{
  first, last, ℕ, suc, ◌≤◌, ◌≡◌, ◌⊎◌, refl, sym, ◌∙◌, ap, arith, Bool, true, false, Option, none,
  some, List, [], ◌∷◌, inl, inr, ltb, le→ltb, if◌then◌else◌, Result, ok, err, length, take, map,
  is_some, length-reverse, length-take-le,
}
use flatbed.Pagination.{
  Bytes, Binding, max_cursor_chars, Direction, forward, backward, Codec, CodecLaws, PageError,
  invalid_cursor, mint,
}
use flatbed.Pagination.Serve.{
  PageRequest, ListQuery, Pager, effective_page_size, Page, continues, displayed, start, list_query,
  mint_for, finish, page,
}
use flatbed.Pagination.Cursors.{open_cursor-mint}

length-map {ℓ κ} :
    {A : Type ℓ} {B : Type κ} (f : A → B) (xs : List A) → length (map f xs) ≡ length xs
length-map f [] = refl
length-map f (x ∷ xs) = ap suc (length-map f xs)

length-displayed {ℓ} :
    {A : Type ℓ} (size : ℕ) (dir : Direction) (rows : List A)
    → length (displayed size dir rows) ≤ size
unfolding displayed
length-displayed size forward rows = length-take-le size rows
length-displayed size backward rows =
    rw (length-reverse (take size rows)) (length-take-le size rows)

Result-cases {ℓ κ} :
    {E : Type κ} {A : Type ℓ} (x : Result E A) → ((a : A) × (x ≡ ok a)) ⊎ ((e : E) × (x ≡ err e))
Result-cases (ok a) = inl (a, refl)
Result-cases (err e) = inr (e, refl)

ok-inj {ℓ κ} : {E : Type κ} {A : Type ℓ} {a b : A} → ◌≡◌ {A = Result E A} (ok a) (ok b) → a ≡ b
ok-inj e = cc

module _ {Req K : Type 0} (c : Codec Req K) (r : PageRequest Req) where
  -- What a page is made of.
  finish-inv :
      {Item E : Type 0} (b : Binding) (size : ℕ) (f : Req) (dir : Direction) (after : Option K)
      (rows : List (Item × K)) (pg : Page Req Item)
      → finish c r {Item = Item} {E = E} b size (f, dir, after) rows ≡ ok pg
      → let shown = displayed size dir rows in
        let wanted = continues dir (is_some after) (ltb size (length rows)) in
        (pg.items ≡ map (λ row. row.0) shown)
        × (mint_for c r {Item = Item} {E = E} b f backward (first shown) wanted.0
            ≡ ok pg.previous_page)
        × (mint_for c r {Item = Item} {E = E} b f forward (last shown) wanted.1 ≡ ok pg.next_page)
  unfolding finish
  finish-inv {Item} {E} b size f dir after rows pg e =
      let shown = displayed size dir rows in
      let wanted = continues dir (is_some after) (ltb size (length rows)) in
      elim (Result-cases (mint_for c r {Item = Item} {E = E} b f backward (first shown) wanted.0)) [
        | inl (prev, m) ↦
            elim (Result-cases
              (mint_for c r {Item = Item} {E = E} b f forward (last shown) wanted.1)) [
                | inl (next, n) ↦
                    let made : Page Req Item = record {
                      items = map (λ row. row.0) shown;
                      next_page = next;
                      previous_page = prev;
                      applied = r.set_page_size size f;
                    } in
                    let q : ◌≡◌ {A = Result (PageError E) (Page Req Item)} (ok made) (ok pg) =
                      rw (finish, m, n) at e in
                    let same = ok-inj q in
                    (
                      ap (λ g. g.items) (sym same),
                      m ∙ ap (λ g. ok g.previous_page) same,
                      n ∙ ap (λ g. ok g.next_page) same,
                    )
                | inr (x, n) ↦ absurd (cc (rw (finish, m, n) at e))
              ]
        | inr (x, m) ↦ absurd (cc (rw (finish, m) at e))
      ]

  mint-cases :
      {E : Type 0} (b : Binding) (f : Req) (dir : Direction) (k : K) (t : Bytes)
      (x : Result (PageError E) Bytes)
      → ◌≡◌ {A = Result (PageError E) (Option Bytes)}
          (elim x [ ok cursor ↦ ok (some cursor) | err e ↦ err e ])
          (ok (some t))
      → x ≡ ok t
  mint-cases b f dir k t (ok u) e = cc
  mint-cases b f dir k t (err u) e = cc

  -- A cursor that a page carries was minted for the row at its end.
  mint_for-inv :
      {Item E : Type 0} (b : Binding) (f : Req) (dir : Direction) (o : Option (Item × K))
      (wanted : Bool) (t : Bytes)
      → mint_for c r {Item = Item} {E = E} b f dir o wanted ≡ ok (some t)
      → (row : Item × K) × (o ≡ some row) × (wanted ≡ true) × (mint c {E = E} dir row.1 f b ≡ ok t)
  unfolding mint_for
  mint_for-inv b f dir none wanted t e = cc
  mint_for-inv b f dir (some (item, key)) false t e = cc
  mint_for-inv {Item} {E} b f dir (some (item, key)) true t e =
      ((item, key), refl, refl, mint-cases b f dir key t (mint c {E = E} dir key f b) e)

  -- The steps of a page that is served.
  page-inv :
      {Item E : Type 0} (p : Pager) (b : Binding)
      (fetch : ListQuery Req K → Result E (List (Item × K))) (body : Req) (pg : Page Req Item)
      → page c r p b fetch body ≡ ok pg
      → let (filters, cursor, asked) = r.take_page body in
        let size = effective_page_size p asked in
        (from : Req × Direction × Option K) × (rows : List (Item × K)) × (start c r {E = E} b
            (filters, cursor)
          ≡ ok from)
        × (fetch (list_query c r size from) ≡ ok rows)
        × (finish c r {Item = Item} {E = E} b size from rows ≡ ok pg)
  unfolding page
  page-inv {Item} {E} p b fetch body pg e =
      let taken = r.take_page body in
      let size = effective_page_size p taken.2 in
      elim (Result-cases (start c r {E = E} b (taken.0, taken.1))) [
        | inl (from, s) ↦ elim (Result-cases (fetch (list_query c r size from))) [
          | inl (rows, g) ↦ (from, rows, s, g, rw (page, s, g) at e)
          | inr (x, g) ↦ absurd (cc (rw (page, s, g) at e))
        ]
        | inr (x, s) ↦ absurd (cc (rw (page, s) at e))
      ]

  -- A page that is served has at most as many items as the largest page size of the pager, however
  -- many rows the fetch returned.
  pub page-items :
      {Item E : Type 0} (p : Pager) (b : Binding)
      (fetch : ListQuery Req K → Result E (List (Item × K))) (body : Req) (pg : Page Req Item)
      → page c r p b fetch body ≡ ok pg
      → length pg.items ≤ p.max_page_size
  unfolding effective_page_size
  page-items p b fetch body pg e =
      let (from, rows, s, g, made) = page-inv p b fetch body pg e in
      let size = effective_page_size p (r.take_page body).2 in
      let (items, _, _) = finish-inv b size from.0 from.1 from.2 rows pg made in
      let shown = displayed size from.1 rows in
      rw (items, length-map (λ row. row.0) shown) (omega (arith, length-displayed size from.1 rows))

  module _ (laws : CodecLaws c) (empty : Req) (no_filters : r.same empty r.default ≡ true) where
    pub mint-start :
        {E : Type 0} (b : Binding) (f : Req) (dir : Direction) (k : K) (x : ℕ) (xs : Bytes)
        → mint c {E = E} dir k f b ≡ ok (x ∷ xs)
        → length (x ∷ xs) ≤ max_cursor_chars
        → start c r {E = E} b (empty, some (x ∷ xs)) ≡ ok (f, dir, some k)
    unfolding start
    mint-start {E} b f dir k x xs m h =
        let short = le→ltb (length (x ∷ xs)) max_cursor_chars h in
        let opened =
          open_cursor-mint c laws {E = E} dir k f b (x ∷ xs) m
          ∙ ap (λ q. if q then err invalid_cursor else ok (f, dir, k)) short in
        rw (no_filters, opened)

    -- The next cursor of a served page, within the length limit and sent back without filters,
    -- starts a page of the same filters that reads forward from the key of the last row shown,
    -- where the codecs undo each other.
    pub page_next :
        {Item E : Type 0} (p : Pager) (b : Binding)
        (fetch : ListQuery Req K → Result E (List (Item × K))) (body : Req) (pg : Page Req Item)
        (x : ℕ) (xs : Bytes)
        → page c r p b fetch body ≡ ok pg
        → pg.next_page ≡ some (x ∷ xs)
        → length (x ∷ xs) ≤ max_cursor_chars
        → let (filters, cursor, asked) = r.take_page body in
          let size = effective_page_size p asked in
          (from : Req × Direction × Option K) × (rows : List (Item × K)) × (row : Item × K) × (start
              c r {E = E} b
              (filters, cursor)
            ≡ ok from)
          × (fetch (list_query c r size from) ≡ ok rows)
          × (last (displayed size from.1 rows) ≡ some row)
          × (start c r {E = E} b (empty, some (x ∷ xs)) ≡ ok (from.0, forward, some row.1))
    page_next {Item} {E} p b fetch body pg x xs e n h =
        let (from, rows, s, g, made) = page-inv p b fetch body pg e in
        let size = effective_page_size p (r.take_page body).2 in
        let (_, _, m) = finish-inv {E = E} b size from.0 from.1 from.2 rows pg made in
        let wanted = continues from.1 (is_some from.2) (ltb size (length rows)) in
        let (row, at_end, _, minted) =
          mint_for-inv {E = E} b from.0 forward (last (displayed size from.1 rows)) wanted.1
            (x ∷ xs) (m ∙ ap (λ o. ok o) n) in
        (from, rows, row, s, g, at_end, mint-start b from.0 forward row.1 x xs minted h)

    -- The previous cursor of a served page, within the length limit and sent back without filters,
    -- starts a page of the same filters that reads backward from the key of the first row shown,
    -- where the codecs undo each other.
    pub page_previous :
        {Item E : Type 0} (p : Pager) (b : Binding)
        (fetch : ListQuery Req K → Result E (List (Item × K))) (body : Req) (pg : Page Req Item)
        (x : ℕ) (xs : Bytes)
        → page c r p b fetch body ≡ ok pg
        → pg.previous_page ≡ some (x ∷ xs)
        → length (x ∷ xs) ≤ max_cursor_chars
        → let (filters, cursor, asked) = r.take_page body in
          let size = effective_page_size p asked in
          (from : Req × Direction × Option K) × (rows : List (Item × K)) × (row : Item × K) × (start
              c r {E = E} b
              (filters, cursor)
            ≡ ok from)
          × (fetch (list_query c r size from) ≡ ok rows)
          × (first (displayed size from.1 rows) ≡ some row)
          × (start c r {E = E} b (empty, some (x ∷ xs)) ≡ ok (from.0, backward, some row.1))
    page_previous {Item} {E} p b fetch body pg x xs e n h =
        let (from, rows, s, g, made) = page-inv p b fetch body pg e in
        let size = effective_page_size p (r.take_page body).2 in
        let (_, m, _) = finish-inv {E = E} b size from.0 from.1 from.2 rows pg made in
        let wanted = continues from.1 (is_some from.2) (ltb size (length rows)) in
        let (row, at_start, _, minted) =
          mint_for-inv {E = E} b from.0 backward (first (displayed size from.1 rows)) wanted.0
            (x ∷ xs) (m ∙ ap (λ o. ok o) n) in
        (from, rows, row, s, g, at_start, mint-start b from.0 backward row.1 x xs minted h)
