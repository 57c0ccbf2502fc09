-- ===== src/SourceOrder/Tests.antt =====
-- source_order.rs: small schemas.
use flatbed.Base.{◌≡◌, refl, some, List, [], ◌∷◌, codes}
use flatbed.SourceOrder.{source_decl_order, strip, begins, quoted, scan, declarations, declaration}
use flatbed.SourceOrder.Schemas.{Decl, table, enum}

in_order :
    source_decl_order
      (codes "table First { x: int; }\nenum E : byte { A }\n/* table No {} */ table Second {}")
    ≡ some (codes "First" ∷ codes "E" ∷ codes "Second" ∷ [])
unfolding source_decl_order strip begins quoted scan declarations declaration
in_order = refl

-- A keyword in a string counts as a declaration.
in_string : source_decl_order (codes "attribute \"table Inner\";") ≡ some (codes "Inner" ∷ [])
unfolding source_decl_order strip begins quoted scan declarations declaration
in_string = refl

abbrev declared : List Decl
declared =
    record {
      keyword = table;
      first = 66;
      more = codes "ox";
      word = codes "subtable";
      comment = codes " enum Lid {";
    }
    ∷ record { keyword = enum; first = 65; more = []; word = []; comment = codes "\"/* table No" }
    ∷ []
