-- ===== src/SourceOrder/Order.antt =====
-- source_order.rs: the scan of a schema finds its declarations in their order.
use flatbed.Base.{ℕ, suc, ◌≡◌, Option, some, List, [], ◌∷◌, number_keys, Text}
use flatbed.SourceOrder.{declaration}
use flatbed.SourceOrder.Schemas.{Keyword, spelled, Decl}

abbrev last_of : Option ℕ → Text → Option ℕ
last_of before [] = before
last_of before (c ∷ cs) = last_of (some c) cs

abbrev DeclaresNothing : Option ℕ → Text → Type 0
DeclaresNothing before t = (k : Keyword) → declaration (spelled k) (before, t) ≡ ([], (before, t))

abbrev longer : Text → ℕ → ℕ
longer [] n = n
longer (c ∷ cs) n = suc (longer cs n)

-- One step for a declaration, and one for each byte of its body.
abbrev steps_of : List Decl → ℕ
steps_of [] = 1
steps_of (d ∷ ds) = suc (suc (longer d.word (suc (suc (suc (steps_of ds))))))
