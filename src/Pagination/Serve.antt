-- ===== src/Pagination/Serve.antt =====
-- pagination.rs: `Pager::page`, in its steps: where a page starts, what is asked of the fetch, and what is
-- made of its rows. A generated request type gives the operations of `PageRequest`.
pub mod Pages
pub mod Walk
mod Tests
use flatbed.Base.{
  first, last, ℕ, zero, suc, min, Bool, true, false, Option, none, some, List, [], ◌∷◌, map,
  reverse, ltb, leb, if◌then◌else◌, Result, ok, err, length, take, saturating_suc, is_some,
}
use flatbed.Pagination.{
  Bytes, Binding, Direction, forward, backward, Codec, PageError, cursor_with_filters, fetch_failed,
  mint, open_cursor,
}

pub record ListQuery (Req K : Type 0) : Type 0 where
  pub request : Req
  pub direction : Direction
  pub after : Option K
  pub limit : ℕ

-- The trait that `flatbed_build` implements for a paginated request.
pub record PageRequest (Req : Type 0) : Type 0 where
  pub default : Req
  pub same : Req → Req → Bool
  pub take_page : Req → Req × Option Bytes × ℕ
  pub set_page_size : ℕ → Req → Req

pub record Pager : Type 0 where
  pub default_page_size : ℕ
  pub max_page_size : ℕ

abbrev pub new_pager : Pager
new_pager = record { default_page_size = 50; max_page_size = 200 }

pub effective_page_size : Pager → ℕ → ℕ
effective_page_size p requested =
    min (if leb requested 0 then p.default_page_size else requested) p.max_page_size

-- What `from_page` is given.
pub record Page (Req Item : Type 0) : Type 0 where
  pub items : List Item
  pub next_page : Option Bytes
  pub previous_page : Option Bytes
  pub applied : Req

-- Which ends of the list the page does not touch: before it, and after it.
pub continues : Direction → Bool → Bool → Bool × Bool
continues forward from_cursor has_more = (from_cursor, has_more)
continues backward from_cursor has_more = (has_more, true)

-- The rows in display order.
pub displayed {ℓ} : {A : Type ℓ} → ℕ → Direction → List A → List A
displayed size forward rows = take size rows
displayed size backward rows = reverse (take size rows)

module _ {Req K : Type 0} (c : Codec Req K) (r : PageRequest Req) where
  -- Where the page starts: the filters, the direction and the key.
  pub start :
      {E : Type 0}
      → Binding
      → Req × Option Bytes
      → Result (PageError E) (Req × Direction × Option K)
  unfolding open_cursor
  start b (filters, none) = ok (filters, forward, none)
  start b (filters, some []) = ok (filters, forward, none)
  start b (filters, some (x ∷ xs)) =
      if r.same filters r.default
      then elim (open_cursor c b (x ∷ xs)) [
        | ok (f, dir, key) ↦ ok (f, dir, some key)
        | err e ↦ err e
      ]
      else err cursor_with_filters

  pub list_query : ℕ → Req × Direction × Option K → ListQuery Req K
  list_query size (filters, dir, after) = record {
    request = r.set_page_size size filters;
    direction = dir;
    after = after;
    limit = saturating_suc size;
  }

  -- The closure `mint`, with its `transpose`.
  pub mint_for :
      {Item E : Type 0}
      → Binding
      → Req
      → Direction
      → Option (Item × K)
      → Bool
      → Result (PageError E) (Option Bytes)
  unfolding mint
  mint_for b filters dir none wanted = ok none
  mint_for b filters dir (some (item, key)) false = ok none
  mint_for b filters dir (some (item, key)) true = elim (mint c dir key filters b) [
    | ok cursor ↦ ok (some cursor)
    | err e ↦ err e
  ]

  pub finish :
      {Item E : Type 0}
      → Binding
      → ℕ
      → Req × Direction × Option K
      → List (Item × K)
      → Result (PageError E) (Page Req Item)
  unfolding mint_for continues displayed
  finish b size (filters, dir, after) rows =
      let shown = displayed size dir rows in
      let wanted = continues dir (is_some after) (ltb size (length rows)) in
      elim (mint_for b filters backward (first shown) wanted.0) [
        | err e ↦ err e
        | ok previous ↦ elim (mint_for b filters forward (last shown) wanted.1) [
          | err e ↦ err e
          | ok next ↦ ok record {
            items = map (λ row. row.0) shown;
            next_page = next;
            previous_page = previous;
            applied = r.set_page_size size filters;
          }
        ]
      ]

  pub page :
      {Item E : Type 0}
      → Pager
      → Binding
      → (ListQuery Req K → Result E (List (Item × K)))
      → Req
      → Result (PageError E) (Page Req Item)
  unfolding effective_page_size start list_query finish
  page p b fetch body =
      let taken = r.take_page body in
      let size : ℕ = effective_page_size p taken.2 in
      elim (start b (taken.0, taken.1)) [
        | err e ↦ err e
        | ok from ↦ elim (fetch (list_query size from)) [
          | err e ↦ err (fetch_failed e)
          | ok rows ↦ finish b size from rows
        ]
      ]
