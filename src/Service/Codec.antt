-- ===== src/Service/Codec.antt =====
-- crates/flatbed/src/lib.rs and hyper/service.rs: what a request says of its encodings and its query.
use flatbed.Base.{
  ℕ, Option, none, some, Bool, true, false, List, [], ◌∷◌, ◌||◌, ◌==◌, number_keys, if◌then◌else◌,
  ltb, Text, split, is_empty, find_text, contains, codes, ◌>>=◌,
}
use flatbed.Http.{HttpLibrary}
use flatbed.Router.{Params, no_params, insert_param}

pub data Codec : Type 0 where
  json flat_buffer : Codec

-- `get` and `to_str`.
abbrev pub get_text : {H : Type 0} ⦃http : HttpLibrary H⦄ → Text → H → Option Text
get_text ⦃http⦄ name h = do v ← http.get name h; (if http.is_visible v then some v else none)

abbrev pub or_else : Option ℕ → Option ℕ → Option ℕ
or_else none o = o
or_else (some i) o = some i

abbrev pub earlier_codec : Option ℕ → Option ℕ → Option Codec
earlier_codec (some j) (some f) = if ltb f j then some flat_buffer else some json
earlier_codec (some j) none = some json
earlier_codec none (some f) = some flat_buffer
earlier_codec none none = none

unfoldable pub codec_named : Text → Option Codec
codec_named accept = earlier_codec (find_text (codes "application/json") accept) (
    or_else (find_text (codes "application/x-flatbuffers") accept)
      (find_text (codes "application/x-flat-buffers") accept))

unfoldable pub accepted_codec : {H : Type 0} ⦃http : HttpLibrary H⦄ → H → Option Codec
unfolding codec_named
accepted_codec headers = do accept ← get_text (codes "accept") headers; codec_named accept

abbrev pub is_json : Text → Bool
is_json content_type = contains (codes "application/json") content_type

abbrev pub is_flatbuffer : Text → Bool
is_flatbuffer content_type =
    contains (codes "application/x-flatbuffers") content_type
    || contains (codes "application/x-flat-buffers") content_type

abbrev pub wants_flatbuffer : Option Codec → Text → Bool
wants_flatbuffer (some json) content_type = false
wants_flatbuffer (some flat_buffer) content_type = true
wants_flatbuffer none content_type = is_flatbuffer content_type

-- `splitn(2, '=')`; without `=` the value is empty.
abbrev pub split_pair : Text → Text × Text
split_pair [] = ([], [])
split_pair (c ∷ cs) = let rest = split_pair cs in if c == 61 then ([], cs) else (c ∷ rest.0, rest.1)

-- The last value of a key is kept; pairs without a key are left out.
abbrev pub collect_query : List Text → Params → Params
collect_query [] params = params
collect_query (pair ∷ pairs) params =
    let kv = split_pair pair in
    collect_query pairs (if is_empty kv.0 then params else insert_param kv.0 kv.1 params)

unfoldable pub query_params : Option Text → Params
query_params none = no_params
query_params (some query) = collect_query (split 38 query) no_params
