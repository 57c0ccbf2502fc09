-- ===== src/Http/Samples.antt =====
-- Header maps as lists, for the tests.
use flatbed.Base.{
  ◌≡◌, true, ◌++◌, Option, none, some, List, [], ◌∷◌, ◌==◌, list_keys, number_keys, if◌then◌else◌,
  Text, beq_refl,
}
use flatbed.Http.{HttpLibrary}

abbrev pub Headers : Type 0
Headers = List (Text × Text)

abbrev pub get_header : Text → Headers → Option Text
get_header k [] = none
get_header k ((j, v) ∷ h) = if j == k then some v else get_header k h

pub get_header-cons : (k v : Text) (h : Headers) → get_header k ((k, v) ∷ h) ≡ some v
get_header-cons k v h = rw (beq_refl k)

instance abbrev pub list_headers : HttpLibrary Headers
list_headers = record {
  empty = [];
  append = λ k v h. h ++ (k, v) ∷ [];
  pairs = λ h. h;
  is_value = λ v. true;
  is_visible = λ v. true;
  number_value = λ n. n ∷ [];
  error_json = λ code message. code ++ message;
  insert = λ k v h. (k, v) ∷ h;
  get = get_header;
  get-insert = get_header-cons;
}
