-- ===== src/Pagination/Serve/Walk.antt =====
-- pagination.rs: a client that follows the `next` cursors of a list, page by page.
pub mod Complete
use flatbed.Base.{
  first, last, ℕ, zero, suc, ◌+◌, ◌-◌, ◌≤◌, ◌<◌, ◌≡◌, ◌≢◌, refl, sym, ◌∙◌, ap, subst, arith, Bool,
  true, false, Option, none, some, List, [], ◌∷◌, ◌++◌, inl, inr, Bool-cases, ltb, leb, ltb→lt,
  lt→ltb, le→ltb, if◌then◌else◌, Result, ok, err, length, take, drop, map, is_some, u32_max,
  saturating_suc, HasEq, ◌==◌, beq_refl, beq_ne, beq_cases, All, length-append, take-append-drop,
  append_assoc,
}
use flatbed.Base.Keyed.{Absent, Distinct}
use flatbed.Pagination.{
  Bytes, Binding, max_cursor_chars, Direction, forward, backward, Codec, CodecLaws, PageError, mint,
}
use flatbed.Pagination.Serve.{
  PageRequest, ListQuery, Pager, effective_page_size, Page, start, list_query, mint_for, finish,
  page, displayed, continues,
}
use flatbed.Pagination.Serve.Pages.{mint-start}

module _ {ℓ κ} {A : Type ℓ} {K : Type κ} ⦃e : HasEq K⦄ (key : A → K) where
  -- The rows strictly after a key, in the order of the list.
  unfoldable pub rows_after : Option K → List A → List A
  rows_after none rows = rows
  rows_after (some k) [] = []
  rows_after (some k) (row ∷ rows) = if key row == k then rows else rows_after (some k) rows

  middle :
      (before : List A) (row : A) (rest : List A) (k : K)
      → Absent key k (before ++ row ∷ rest)
      → key row ≢ k
  middle [] row rest k (ne, a) = ne
  middle (x ∷ before) row rest k (ne, a) = middle before row rest k a

  pub rows_after-append :
      (before : List A) (row : A) (rest : List A)
      → Distinct key (before ++ row ∷ rest)
      → rows_after (some (key row)) (before ++ row ∷ rest) ≡ rest
  unfolding rows_after
  rows_after-append [] row rest d = rw (beq_refl (key row))
  rows_after-append (x ∷ before) row rest (a, d) =
      rw (beq_ne (key x) (key row) (λ q. middle before row rest (key x) a (sym q)))
        (rows_after-append before row rest d)

pub split_last {ℓ} :
    {A : Type ℓ} (n : ℕ) (xs : List A)
    → suc n ≤ length xs
    → (before : List A) × (row : A) × (take (suc n) xs ≡ before ++ row ∷ [])
split_last n [] h = absurd (omega arith)
split_last zero (x ∷ xs) h = ([], x, refl)
split_last (suc n) (x ∷ xs) h =
    let (before, row, e) = split_last n xs (omega arith) in (x ∷ before, row, ap (λ l. x ∷ l) e)

pub last-append {ℓ} :
    {A : Type ℓ} (before : List A) (row : A) → last (before ++ row ∷ []) ≡ some row
last-append [] row = refl
last-append (x ∷ []) row = refl
last-append (x ∷ y ∷ before) row = last-append (y ∷ before) row

pub take-take {ℓ} : {A : Type ℓ} (n : ℕ) (xs : List A) → take n (take (suc n) xs) ≡ take n xs
take-take zero xs = refl
take-take (suc n) [] = refl
take-take (suc n) (x ∷ xs) = ap (λ l. x ∷ l) (take-take n xs)

pub take-all {ℓ} : {A : Type ℓ} (n : ℕ) (xs : List A) → length xs ≤ n → take n xs ≡ xs
take-all zero [] h = refl
take-all zero (x ∷ xs) h = absurd (omega arith)
take-all (suc n) [] h = refl
take-all (suc n) (x ∷ xs) h = ap (λ l. x ∷ l) (take-all n xs (omega arith))

pub more {ℓ} :
    {A : Type ℓ} (n : ℕ) (xs : List A) → ltb n (length (take (suc n) xs)) ≡ ltb n (length xs)
more n [] = refl
more zero (x ∷ xs) = ground arith
more (suc n) (x ∷ xs) = ground (arith, more n xs)

abbrev pub made :
    {Req K Item : Type 0}
    → PageRequest Req
    → ℕ
    → Req
    → List (Item × K)
    → Option Bytes
    → Option Bytes
    → Page Req Item
made r size f shown prev next = record {
  items = map (λ row. row.0) shown;
  next_page = next;
  previous_page = prev;
  applied = r.set_page_size size f;
}

-- A client asks for a page, and goes on with the request `next` makes of its `next` cursor.
with_rest :
    {Req Item E : Type 0}
    → (Bytes → Option (List Item))
    → Result (PageError E) (Page Req Item)
    → Option (List Item)
with_rest rest (err e) = none
with_rest rest (ok pg) = elim pg.next_page [
  | none ↦ some pg.items
  | some t ↦ elim (rest t) [ none ↦ none | some xs ↦ some (pg.items ++ xs) ]
]

unfoldable pub walk :
    {Req Item E : Type 0}
    → (Req → Result (PageError E) (Page Req Item))
    → (Bytes → Req)
    → ℕ
    → Req
    → Option (List Item)
unfolding with_rest
walk serve next zero body = none
walk serve next (suc n) body = with_rest (λ t. walk serve next n (next t)) (serve body)

module _ {Req K Item E : Type 0} (c : Codec Req K) (r : PageRequest Req) (b : Binding) where
  -- An end of a page for which a cursor can be minted.
  pub mint_for-ok :
      (f : Req) (dir : Direction) (o : Option (Item × K)) (wanted : Bool)
      → ((k : K) → (t : Bytes) × (mint c {E = E} dir k f b ≡ ok t))
      → (cursor : Option Bytes) × (mint_for c r {Item = Item} {E = E} b f dir o wanted ≡ ok cursor)
  unfolding mint_for
  mint_for-ok f dir none wanted h = (none, refl)
  mint_for-ok f dir (some (item, k)) false h = (none, refl)
  mint_for-ok f dir (some (item, k)) true h = let (t, m) = h k in (some t, rw (mint_for, m) refl)

  pub mint_for-unwanted :
      (f : Req) (dir : Direction) (o : Option (Item × K))
      → mint_for c r {Item = Item} {E = E} b f dir o false ≡ ok none
  unfolding mint_for
  mint_for-unwanted f dir none = refl
  mint_for-unwanted f dir (some (item, k)) = refl

  pub mint_for-wanted :
      (f : Req) (dir : Direction) (row : Item × K) (t : Bytes)
      → mint c {E = E} dir row.1 f b ≡ ok t
      → mint_for c r {Item = Item} {E = E} b f dir (some row) true ≡ ok (some t)
  unfolding mint_for
  mint_for-wanted f dir (item, k) t m = rw (mint_for, m) refl

  -- A page read forward, from the rows that its fetch returned.
  page_read :
      (p : Pager) (fetch : ListQuery Req K → Result E (List (Item × K))) (body : Req) (f : Req)
      (after : Option K) (rows : List (Item × K)) (next prev : Option Bytes)
      → let (filters, cursor, asked) = r.take_page body in
        let size = effective_page_size p asked in
        let shown = take size rows in
        start c r {E = E} b (filters, cursor) ≡ ok (f, forward, after)
        → fetch (list_query c r size (f, forward, after)) ≡ ok rows
        → mint_for c r {Item = Item} {E = E} b f backward (first shown) (is_some after) ≡ ok prev
        → mint_for c r {Item = Item} {E = E} b f forward (last shown) (ltb size (length rows))
          ≡ ok next
        → page c r p b fetch body ≡ ok (made r size f shown prev next)
  unfolding page finish displayed continues
  page_read p fetch body f after rows next prev s g m n = rw (page, s, g, finish, m, n) refl

  pub page_forward :
      (p : Pager) (fetch : ListQuery Req K → Result E (List (Item × K))) (body : Req)
      (filters : Req) (cursor : Option Bytes) (asked : ℕ) (f : Req) (after : Option K)
      (rows : List (Item × K)) (next prev : Option Bytes)
      → r.take_page body ≡ (filters, cursor, asked)
      → let size = effective_page_size p asked in
        let shown = take size rows in
        start c r {E = E} b (filters, cursor) ≡ ok (f, forward, after)
        → fetch (list_query c r size (f, forward, after)) ≡ ok rows
        → mint_for c r {Item = Item} {E = E} b f backward (first shown) (is_some after) ≡ ok prev
        → mint_for c r {Item = Item} {E = E} b f forward (last shown) (ltb size (length rows))
          ≡ ok next
        → page c r p b fetch body ≡ ok (made r size f shown prev next)
  page_forward p fetch body filters cursor asked f after rows next prev t s g m n =
      let read =
        page_read p fetch body f after rows next prev (rw t s) (rw t g) (rw t m) (rw t n) in
      rw t at read

-- What a served page makes of the walk.
pub walk_last :
    {Req Item E : Type 0} (serve : Req → Result (PageError E) (Page Req Item)) (next : Bytes → Req)
    (n : ℕ) (body : Req) (pg : Page Req Item)
    → serve body ≡ ok pg
    → pg.next_page ≡ none
    → walk serve next (suc n) body ≡ some pg.items
unfolding walk with_rest
walk_last serve next n body pg s e = rw (walk, s, with_rest, e) refl

pub walk_on :
    {Req Item E : Type 0} (serve : Req → Result (PageError E) (Page Req Item)) (next : Bytes → Req)
    (n : ℕ) (body : Req) (pg : Page Req Item) (t : Bytes) (xs : List Item)
    → serve body ≡ ok pg
    → pg.next_page ≡ some t
    → walk serve next n (next t) ≡ some xs
    → walk serve next (suc n) body ≡ some (pg.items ++ xs)
unfolding walk with_rest
walk_on serve next n body pg t xs s e w = rw (walk, s, with_rest, e, w) refl
