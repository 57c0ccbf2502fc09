-- ===== src/StaticFiles/Tests.antt =====
-- static_files.rs: its operations on small inputs.
use flatbed.Base.{
  ◌≡◌, refl, true, none, some, [], ◌∷◌, Option, Text, codes, if◌then◌else◌, starts_with, split,
  slash, ◌||◌, ◌==◌, list_keys, number_keys,
}
use flatbed.Http.{ResponseParts}
use flatbed.Http.Samples.{Headers, list_headers}
use flatbed.StaticFiles.{
  StaticRouteInfo, dir, strip_mount, sanitize, extension, content_type, is_known_asset, build,
  cache_control, from_fallback, from_mount, serve_one, serve,
}
use flatbed.StaticFiles.Paths.{named, climbs, join_names, sanitize_iff}
use flatbed.StaticFiles.Serving.{FirstAnswers, serve_sound}

strip_mount_boundary : strip_mount (codes "/assets") (codes "/assetsX") ≡ none
unfolding strip_mount
strip_mount_boundary = refl

strip_mount_inside : strip_mount (codes "/assets") (codes "/assets/app.js") ≡ some (codes "app.js")
unfolding strip_mount
strip_mount_inside = refl

sanitize_dots : sanitize (codes "a/./b//c") ≡ some (codes "a/b/c")
unfolding sanitize
sanitize_dots = refl

sanitize_up : sanitize (codes "a/../b") ≡ none
unfolding sanitize
sanitize_up = refl

extension_lower : extension (codes "x/a.b.JS") ≡ some (codes "js")
unfolding extension
extension_lower = refl

hidden_file : extension (codes "x/.env") ≡ none
unfolding extension
hidden_file = refl

wasm_asset : is_known_asset (codes "pkg/app.wasm") ≡ true
unfolding is_known_asset content_type extension
wasm_asset = refl

sanitize_iff_example : sanitize (codes "a//./b") ≡ (
    if starts_with slash (codes "a//./b") || climbs (split slash (codes "a//./b"))
    then none
    else some (join_names (named (split slash (codes "a//./b")))))
sanitize_iff_example = sanitize_iff (codes "a//./b")

-- An app with its page shell at `www/index.html`, and no other file.
abbrev disk : Text → Option Text
disk path = if path == codes "www/index.html" then some (codes "shell") else none

abbrev app : StaticRouteInfo
app = record {
  mount = codes "/app/";
  source = dir (codes "www");
  fallback = some (codes "index.html");
  no_fallback = codes "/api/" ∷ [];
}

abbrev shell : ResponseParts Headers
shell = build (codes "shell") (codes "index.html")

shell_for_page : serve disk (app ∷ []) (codes "/app/users/7") ≡ some shell
unfolding serve serve_one strip_mount sanitize from_mount from_fallback is_known_asset content_type
    extension build cache_control
shell_for_page = refl

no_shell_for_api : serve {H = Headers} disk (app ∷ []) (codes "/app/api/users") ≡ none
unfolding serve serve_one strip_mount sanitize from_mount from_fallback is_known_asset content_type
    extension
no_shell_for_api = refl

-- A first `.` is left out of the file's name but not of the text that the prefixes are compared to.
shell_for_dotted_api : serve disk (app ∷ []) (codes "/app/./api/users") ≡ some shell
unfolding serve serve_one strip_mount sanitize from_mount from_fallback is_known_asset content_type
    extension build cache_control
shell_for_dotted_api = refl

serve_sound_example : FirstAnswers disk (app ∷ []) (codes "/app/users/7") shell
serve_sound_example = serve_sound disk (app ∷ []) (codes "/app/users/7") shell shell_for_page
