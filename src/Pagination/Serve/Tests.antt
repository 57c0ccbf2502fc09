-- ===== src/Pagination/Serve/Tests.antt =====
-- pagination.rs: the theorems at a small table, with codecs that stand in for the real ones.
use flatbed.Base.{
  last, ℕ, zero, suc, ◌≤◌, ◌≡◌, refl, sym, ◌∙◌, ap, arith, Bool, true, false, Option, none, some,
  List, [], ◌∷◌, ◌++◌, ◌&&◌, take, length, HasEq, number_keys, ◌==◌, Result, ok, nat_beq_iff,
  beq_refl, beq_cases, length-append, inl, inr, String,
}
use flatbed.Base.Keyed.{Distinct}
use flatbed.Pagination.{
  Bytes, Binding, max_cursor_chars, Direction, forward, backward, byte, Codec, CodecLaws, mint,
  mint_json, payload, be_bytes, open_cursor, signed, framed, read_cursor, read_bytes,
  read_direction, read_parts, tag, read_payload,
}
use flatbed.Pagination.Serve.{
  PageRequest, ListQuery, new_pager, effective_page_size, finish, Page, page, start, list_query,
  displayed,
}
use flatbed.Pagination.Framing.{signed-inj}
use flatbed.Pagination.Cursors.{open_cursor-mint, open_cursor_sound}
use flatbed.Pagination.Serve.Pages.{page_next}
use flatbed.Pagination.Serve.Walk.{rows_after, walk}
use flatbed.Pagination.Serve.Walk.Complete.{IsMintable, walk_visits_all}

data Rank : Type 0 where
  low middle high : Rank

abbrev code : Rank → ℕ
code low = 0
code middle = 1
code high = 2

abbrev rank_at : ℕ → Rank
rank_at zero = low
rank_at (suc zero) = middle
rank_at (suc (suc n)) = high

rank_at-code : (a : Rank) → rank_at (code a) ≡ a
rank_at-code low = refl
rank_at-code middle = refl
rank_at-code high = refl

code-inj : (a b : Rank) → code a ≡ code b → a ≡ b
code-inj a b e = sym (rank_at-code a) ∙ ap rank_at e ∙ rank_at-code b

instance abbrev rank_keys : HasEq Rank
rank_keys = record {
  eqb = λ a b. code a == code b;
  eqb_iff = λ a b. (
    (λ t. code-inj a b ((nat_beq_iff (code a) (code b)).0 t)),
    (λ q. (nat_beq_iff (code a) (code b)).1 (ap code q)),
  );
}

abbrev rank_of : Bytes → Option Rank
rank_of (n ∷ []) = some (rank_at n)
rank_of _ = none

-- A request with a filter, a cursor and a page size.
abbrev Ask : Type 0
Ask = ℕ × Option Bytes × ℕ

abbrev ask_bytes : Ask → Bytes
ask_bytes (f, none, n) = f ∷ n ∷ []
ask_bytes (f, some t, n) = f ∷ n ∷ 1 ∷ t

abbrev ask_of : Bytes → Option Ask
ask_of (f ∷ n ∷ []) = some (f, none, n)
ask_of (f ∷ n ∷ m ∷ t) = some (f, some t, n)
ask_of _ = none

abbrev same_bytes : Bytes → Bytes → Bool
same_bytes [] [] = true
same_bytes (x ∷ xs) (y ∷ ys) = (x == y) && same_bytes xs ys
same_bytes _ _ = false

same_bytes_refl : (xs : Bytes) → same_bytes xs xs ≡ true
same_bytes_refl [] = refl
same_bytes_refl (x ∷ xs) = rw (beq_refl x) (same_bytes_refl xs)

same_bytes→eq : (xs ys : Bytes) → same_bytes xs ys ≡ true → xs ≡ ys
same_bytes→eq [] [] e = refl
same_bytes→eq [] (y ∷ ys) e = cc
same_bytes→eq (x ∷ xs) [] e = cc
same_bytes→eq (x ∷ xs) (y ∷ ys) e = elim (beq_cases x y) [
  | inl (t, p) ↦ λ i. p i ∷ same_bytes→eq xs ys (rw t at e) i
  | inr (t, p) ↦ cc (rw t at e)
]

-- Stands in for a MAC; nothing here relies on its strength.
abbrev mac : Bytes → Bytes
mac message = be_bytes 16 (length message) ++ be_bytes 16 (length message)

abbrev codec : Codec Ask Rank
codec = record {
  authenticate = mac;
  verify = λ message part. same_bytes part (take 16 (mac message));
  encode = λ b. b;
  decode = λ b. some b;
  key_to_json = λ k. some (code k ∷ []);
  key_from_json = rank_of;
  to_flatbuffer = ask_bytes;
  from_flatbuffer = ask_of;
}

ask_of-ask_bytes : (a : Ask) → ask_of (ask_bytes a) ≡ some a
ask_of-ask_bytes (f, none, n) = refl
ask_of-ask_bytes (f, some t, n) = refl

codec-laws : CodecLaws codec
codec-laws = record {
  json_back = λ k b e. let same : code k ∷ [] ≡ b = cc e in rw (← same) (ap some (rank_at-code k));
  filters_back = ask_of-ask_bytes;
  decode-encode = λ b. refl;
  mac_length = λ m. length-append (be_bytes 16 (length m)) (be_bytes 16 (length m));
  verify_iff =
      λ m t h. (same_bytes→eq t (take 16 (mac m)), (λ q. rw q (same_bytes_refl (take 16 (mac m)))));
}

abbrev asks : PageRequest Ask
asks = record {
  default = (0, none, 0);
  same = λ a b. a.0 == b.0;
  take_page = λ a. ((a.0, none, 0), a.1, a.2);
  set_page_size = λ n a. (a.0, a.1, n);
}

abbrev table : List (String × Rank)
table = ("ant", low) ∷ ("bee", middle) ∷ ("cat", high) ∷ []

abbrev binding : Binding
binding = record { method = 1 ∷ []; path = 2 ∷ 3 ∷ []; caller = 4 ∷ [] }

abbrev fetch : ListQuery Ask Rank → Result String (List (String × Rank))
fetch q = ok (take q.limit (rows_after (λ row. row.1) q.after table))

abbrev rest_of : Bytes → Ask
rest_of t = (0, some t, 1)

mintable : (k : Rank) → IsMintable String codec binding (7, none, 0) k
unfolding mint mint_json payload
mintable k dir = (1, _, refl, omega arith)

distinct : Distinct (λ (row : String × Rank). row.1) table
distinct = (((λ e. cc), ((λ e. cc), tt)), (((λ e. cc), tt), (tt, tt)))

walk_visits_all_example :
    walk (page codec asks {E = String} new_pager binding fetch) rest_of 4 (7, none, 1)
    ≡ some ("ant" ∷ "bee" ∷ "cat" ∷ [])
unfolding effective_page_size
walk_visits_all_example =
    walk_visits_all codec codec-laws asks new_pager binding table distinct (7, none, 0) (0, none, 0)
      refl 1 (omega arith) (omega arith) fetch (λ q d a. refl) mintable rest_of (λ t. refl)
      (7, none, 1) 4 refl (omega arith)

abbrev cursor_tail : Direction → Rank → Bytes
cursor_tail dir k =
    let body : Bytes = 1 ∷ byte dir ∷ 0 ∷ 1 ∷ code k ∷ 7 ∷ 0 ∷ [] in
    byte dir ∷ 0 ∷ 1 ∷ code k ∷ 7 ∷ 0 ∷ take 16 (mac (signed binding body))

abbrev minted : Bytes
minted = 1 ∷ cursor_tail forward middle

minted_is : mint codec {E = String} forward middle (7, none, 0) binding ≡ ok minted
unfolding mint mint_json payload signed
minted_is = refl

-- The page after the first, one row long.
abbrev second : Page Ask String
second = record {
  items = "bee" ∷ [];
  next_page = some minted;
  previous_page = some (1 ∷ cursor_tail backward middle);
  applied = (7, none, 1);
}

abbrev ask_second : Ask
ask_second = (0, some (1 ∷ cursor_tail forward low), 1)

second_is : page codec asks {E = String} new_pager binding fetch ask_second ≡ ok second
unfolding page start open_cursor read_cursor read_bytes read_payload read_direction read_parts
    signed framed effective_page_size finish rows_after
second_is = refl

page_next_example :
    let size = effective_page_size new_pager 1 in
    (from : Ask × Direction × Option Rank) × (rows : List (String × Rank)) × (row : String × Rank)
    × (start codec asks {E = String} binding ((0, none, 0), ask_second.1) ≡ ok from)
    × (fetch (list_query codec asks size from) ≡ ok rows)
    × (last (displayed size from.1 rows) ≡ some row)
    × (start codec asks {E = String} binding ((0, none, 0), some minted)
        ≡ ok (from.0, forward, some row.1))
unfolding signed
page_next_example =
    page_next codec asks codec-laws (0, none, 0) refl new_pager binding fetch ask_second second 1
      (cursor_tail forward middle) second_is refl (omega arith)

open_cursor-mint_example :
    open_cursor codec {E = String} binding minted ≡ ok ((7, none, 0), forward, middle)
unfolding signed
open_cursor-mint_example =
    open_cursor-mint codec codec-laws forward middle (7, none, 0) binding minted minted_is

open_cursor_sound_example :
    (body : Bytes) × (length minted ≤ max_cursor_chars)
    × (codec.decode minted ≡ some (body ++ tag codec binding body))
    × (read_payload codec body ≡ some ((7, none, 0), forward, middle))
open_cursor_sound_example =
    open_cursor_sound codec codec-laws {E = String} binding minted ((7, none, 0), forward, middle)
      open_cursor-mint_example

abbrev other : Binding
other = record { method = 1 ∷ []; path = 2 ∷ 3 ∷ []; caller = 4 ∷ [] }

signed-inj_example : (binding ≡ other) × ◌≡◌ {A = Bytes} (5 ∷ []) (5 ∷ [])
signed-inj_example =
    signed-inj binding other (5 ∷ []) (5 ∷ [])
      (omega arith, (omega arith, (omega arith, (omega arith, tt))))
      (omega arith, (omega arith, (omega arith, (omega arith, tt)))) refl
