-- ===== src/Server/Http.antt =====
-- http_method.go, the decoding of settings_api.go, and from main.go the guards and the paths of the
-- embedded pages.
use womprat.Base.{
  Bytes, codes, Bool, not, ◌&&◌, ◌||◌, Option, none, some, [], ◌∷◌, ◌++◌, ◌==◌, ◌!=◌, bytes_eq,
  if◌then◌else◌, Result, ok, err,
}
use womprat.Text.Search.{has_prefix, has_suffix, contains, trim_prefix}
use womprat.Text.Path.{clean}
use womprat.Server.Defs.{json_value, json_empty, json_invalid, Request, Response, failure}

abbrev pub is_read : Bytes → Bool
is_read method = method == codes "GET" || method == codes "HEAD"

pub require_get : Bytes → Option Response
require_get method =
    if is_read method then none else some (failure 405 (codes "method not allowed"))

unfoldable pub require_post : Bytes → Option Response
require_post method =
    if method == codes "POST" then none else some (failure 405 (codes "method not allowed"))

-- The destination keeps its `default` where an empty body is allowed.
unfoldable pub decode_settings_json_internal :
    {B : Type 0} → Option B → Request B → Result Response B
decode_settings_json_internal default r = elim r.body [
  | json_invalid ↦ err (failure 400 (codes "invalid JSON"))
  | json_empty ↦ elim default [ some b ↦ ok b | none ↦ err (failure 400 (codes "invalid JSON")) ]
  | json_value b ↦
      if r.ends then ok b else err (failure 400 (codes "invalid JSON: multiple JSON values"))
]

unfoldable pub decode_settings_json : {B : Type 0} → Request B → Result Response B
unfolding decode_settings_json_internal
decode_settings_json r = decode_settings_json_internal none r

pub resource_name_from_path : Bytes → Bytes → Option Bytes
resource_name_from_path path prefix =
    let name = trim_prefix path prefix in
    if not (has_prefix path prefix)
    then none
    else if name == [] || contains name (codes "/") || contains name (codes "\\")
    then none
    else some name

-- `localHostGuard`: whether a request for this host is passed on
unfoldable pub local_host_guard : Bytes → Bytes → Bool
local_host_guard address host = host == address

abbrev pub presented : Bytes → Bytes → Bytes
presented header query = if header == [] then query else header

-- `authMiddleware`: `none` passes the request on. The comparison is `subtle.ConstantTimeCompare`.
unfoldable pub auth_middleware : Bytes → Bool → Bytes → Bytes → Bytes → Option Response
auth_middleware session_token locked path header query =
    if presented header query != session_token
    then some (failure 403 (codes "Invalid session token"))
    else if locked && path != codes "/api/auth/status" && path != codes "/api/auth/unlock"
    then some
        (failure 423 (codes "Unlock womprat before accessing protected settings or credentials"))
    else none

abbrev index_page : Bytes
index_page = codes "frontend/index.html"

-- the tests of `frontendAssetPath` on the path as it came
pub is_foreign_path : Bytes → Bool
is_foreign_path path =
    not (has_prefix path (codes "/"))
    || contains path (codes "\\")
    || contains path (0 ∷ [])
    || has_prefix path (codes "/api/")
    || contains path (codes "/../")
    || has_suffix path (codes "/..")

-- and on the cleaned path
pub cleaned_asset : Bytes → Option Bytes
cleaned_asset cleaned =
    let name = trim_prefix cleaned (codes "/") in
    if cleaned == codes "." || cleaned == codes "/"
    then some index_page
    else if has_prefix cleaned (codes "/../")
        || cleaned == codes "/.."
        || contains cleaned (codes "/../")
    then none
    else if name == [] || has_prefix name (codes "..")
    then none
    else some (codes "frontend/" ++ name)

pub frontend_asset_path : Bytes → Option Bytes
frontend_asset_path path =
    if path == [] || path == codes "/"
    then some index_page
    else if is_foreign_path path
    then none
    else cleaned_asset (clean path)
