-- ===== src/StaticFiles.antt =====
-- crates/flatbed/src/hyper/static_files.rs: the files of the mounts. The disk and a directory in the
-- binary are functions from a path to the bytes of the file there.
pub mod Paths
pub mod Serving
mod Tests
use flatbed.Base.{
  ℕ, Bool, true, false, not, Option, none, some, List, [], ◌∷◌, ◌++◌, ◌||◌, ◌==◌, list_keys,
  number_keys, if◌then◌else◌, Text, split, slash, dot, is_empty, starts_with, ends_with, last, any,
  one_of, codes, to_lowercase, trim_start, trim_end, strip_prefix, is_some, ◌>>=◌, length,
}
use flatbed.Http.{HttpLibrary, ResponseParts, response_ok}

pub data StaticSource : Type 0 where
  dir : Text → StaticSource
  embedded : (get_file : Text → Option Text) → StaticSource

pub record StaticRouteInfo : Type 0 where
  pub mount : Text
  pub source : StaticSource
  pub fallback : Option Text
  pub no_fallback : List Text

pub strip_mount : Text → Text → Option Text
strip_mount mount path =
    let mount = trim_end slash mount in
    if is_empty mount
    then some (trim_start slash path)
    else (if path == mount then some [] else strip_prefix mount path >>= strip_prefix (slash ∷ []))

-- `std::path::Path::components`, on Unix: empty and `.` segments are left out, but for a first `.`.
pub data Component : Type 0 where
  root_dir cur_dir parent_dir : Component
  normal : Text → Component

abbrev pub parts : List Text → List Component
parts [] = []
parts (s ∷ ss) =
    let rest = parts ss in
    if one_of s ([] ∷ codes "." ∷ [])
    then rest
    else (if s == codes ".." then parent_dir ∷ rest else normal s ∷ rest)

abbrev pub leading : List Text → List Component
leading [] = []
leading (s ∷ ss) = if s == codes "." then cur_dir ∷ parts ss else parts (s ∷ ss)

abbrev pub components : Text → List Component
components path =
    if starts_with slash path
    then root_dir ∷ parts (split slash path)
    else leading (split slash path)

-- `PathBuf::push` of a part of a path.
abbrev pub push_part : Text → Text → Text
push_part out part =
    if is_empty out || ends_with slash out then out ++ part else out ++ slash ∷ part

abbrev pub push_normal : Text → List Component → Option Text
push_normal out [] = some out
push_normal out (normal part ∷ cs) = push_normal (push_part out part) cs
push_normal out (cur_dir ∷ cs) = push_normal out cs
push_normal out (parent_dir ∷ cs) = none
push_normal out (root_dir ∷ cs) = none

pub sanitize : Text → Option Text
sanitize rel = push_normal [] (components rel)

-- `Path::extension`: what follows the last dot of the last component, but for a dot at its start.
abbrev pub after_dot : Text → Option Text
after_dot name = elim (split dot name) [
  | [] ↦ none
  | _ ∷ [] ↦ none
  | before ∷ after ∷ [] ↦ if is_empty before then none else some after
  | _ ∷ _ ∷ after ∷ more ↦ last (after ∷ more)
]

pub extension : Text → Option Text
extension path = elim (last (components path)) [
  | some (normal name) ↦ do e ← after_dot name; some (to_lowercase e)
  | _ ↦ none
]

abbrev pub octet_stream : Text
octet_stream = codes "application/octet-stream"

abbrev pub media_types : List (List Text × Text)
media_types =
    (codes "html" ∷ [], codes "text/html; charset=utf-8")
    ∷ (codes "js" ∷ codes "mjs" ∷ [], codes "text/javascript; charset=utf-8")
    ∷ (codes "css" ∷ [], codes "text/css; charset=utf-8")
    ∷ (codes "json" ∷ codes "map" ∷ [], codes "application/json")
    ∷ (codes "xml" ∷ [], codes "application/xml")
    ∷ (codes "webmanifest" ∷ [], codes "application/manifest+json")
    ∷ (codes "svg" ∷ [], codes "image/svg+xml")
    ∷ (codes "png" ∷ [], codes "image/png")
    ∷ (codes "jpg" ∷ codes "jpeg" ∷ [], codes "image/jpeg")
    ∷ (codes "gif" ∷ [], codes "image/gif")
    ∷ (codes "webp" ∷ [], codes "image/webp")
    ∷ (codes "ico" ∷ [], codes "image/x-icon")
    ∷ (codes "woff2" ∷ [], codes "font/woff2")
    ∷ (codes "woff" ∷ [], codes "font/woff")
    ∷ (codes "ttf" ∷ [], codes "font/ttf")
    ∷ (codes "wasm" ∷ [], codes "application/wasm")
    ∷ (codes "txt" ∷ [], codes "text/plain; charset=utf-8")
    ∷ []

abbrev pub media_type : Text → List (List Text × Text) → Text
media_type e [] = octet_stream
media_type e ((es, t) ∷ ts) = let rest = media_type e ts in if one_of e es then t else rest

pub content_type : Text → Text
unfolding extension
content_type path = elim (extension path) [
  | none ↦ octet_stream
  | some e ↦ media_type e media_types
]

pub is_known_asset : Text → Bool
unfolding content_type
is_known_asset path = not (content_type path == octet_stream)

abbrev pub fresh_extensions : List Text
fresh_extensions =
    codes "html" ∷ codes "json" ∷ codes "txt" ∷ codes "ico" ∷ codes "xml" ∷ codes "webmanifest" ∷ []

pub cache_control : Text → Text
unfolding extension
cache_control path = elim (extension path) [
  | none ↦ codes "no-cache"
  | some e ↦
      if one_of e fresh_extensions
      then codes "no-cache"
      else codes "public, max-age=31536000, immutable"
]

-- `Path::join`.
abbrev pub join_path : Text → Text → Text
join_path base path = if starts_with slash path then path else push_part base path

abbrev pub read : (disk : Text → Option Text) → StaticSource → Text → Option Text
read disk (dir d) relative = disk (join_path d relative)
read disk (embedded get_file) relative = get_file relative

abbrev pub under : Text → List Text → Bool
under rel prefixes = any (λ p. is_some (strip_prefix (trim_start slash p) rel)) prefixes

module _ {H : Type 0} ⦃http : HttpLibrary H⦄ where
  pub build : Text → Text → ResponseParts H
  unfolding content_type cache_control
  build bytes path =
      let made = response_ok bytes (content_type path) in
      record made {
        headers = http.insert (codes "cache-control") (cache_control path) made.headers;
      }

  module _ (disk : Text → Option Text) where
    pub from_fallback : StaticRouteInfo → Text → Option (ResponseParts H)
    unfolding build
    from_fallback route rel = if under rel route.no_fallback then none else (do
      fallback ← route.fallback
      bytes ← read disk route.source fallback
      some (build bytes fallback))

    pub from_mount : StaticRouteInfo → Text → Text → Option (ResponseParts H)
    unfolding from_fallback is_known_asset
    from_mount route rel relative =
        if is_empty relative
        then from_fallback route rel
        else elim (read disk route.source relative) [
          | some bytes ↦ some (build bytes relative)
          | none ↦ if is_known_asset relative then none else from_fallback route rel
        ]

    pub serve_one : StaticRouteInfo → Text → Option (ResponseParts H)
    unfolding strip_mount sanitize from_mount
    serve_one route path = do
      rel ← strip_mount route.mount path
      relative ← sanitize rel
      from_mount route rel relative

    pub serve : List StaticRouteInfo → Text → Option (ResponseParts H)
    unfolding serve_one
    serve [] path = none
    serve (route ∷ routes) path =
        let rest = serve routes path in
        elim (serve_one route path) [ some parts ↦ some parts | none ↦ rest ]
