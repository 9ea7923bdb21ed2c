-- ===== src/Server/Csrf.antt =====
-- `CSRFMiddleware` and `ensureCSRFCookie` of src/server/middleware.go: the double-submit cookie. Texts
-- are lists of bytes; what the handler behind the middleware does is outside.

pub mod EndToEnd
use caslink.Prelude.{
  Text, codes, text_eq, strip_prefix, Bool, true, false, not, List, [], ◌∷◌, ◌++◌, ◌||◌, ◌&&◌,
  Option, none, some, if◌then◌else◌, any, is_nil, is_some, or_else,
}

-- What the middleware reads: the path, the method, the headers `Authorization` and `X-CSRF-Token`
-- (empty if missing), the cookie, and the form field `_csrf`.
pub record Request : Type 0 where
  pub path : Text
  pub method : Text
  pub authorization : Text
  pub token_header : Text
  pub cookie : Option Text
  pub form_field : Text

-- The next handler runs, with the `csrf_token` cookie that the response sets, or 403.
pub data Answer : Type 0 where
  next : Option Text → Answer
  forbidden : Answer

abbrev pub has_prefix : Text → Text → Bool
has_prefix s prefix = is_some (strip_prefix prefix s)

abbrev pub is_safe_method : Text → Bool
is_safe_method method =
    any (text_eq method) (codes "GET" ∷ codes "HEAD" ∷ codes "OPTIONS" ∷ codes "TRACE" ∷ [])

-- `r.Cookie` with its value, or the empty text for `http.ErrNoCookie`.
abbrev pub cookie_value : Option Text → Text
cookie_value cookie = or_else cookie []

-- `ensureCSRFCookie`, with the random token that it would generate.
unfoldable pub ensure_cookie : Text → Request → Option Text
ensure_cookie fresh r = if is_nil (cookie_value r.cookie) then some fresh else none

unfoldable pub is_exempt : Text → Text → Bool
is_exempt api_base_path path =
    has_prefix path (codes "/.well-known/")
    || text_eq path (codes "/server/healthz")
    || has_prefix path (api_base_path ++ codes "/server/healthz")

-- The header, or else the form field.
abbrev pub submitted : Request → Text
submitted r = if is_nil r.token_header then r.form_field else r.token_header

unfoldable pub csrf_middleware : Text → Text → Request → Answer
unfolding ensure_cookie
csrf_middleware api_base_path fresh r =
    if is_exempt api_base_path r.path
    then next none
    else if is_safe_method r.method
    then next (ensure_cookie fresh r)
    else if has_prefix r.authorization (codes "Bearer ")
    then next none
    else if is_nil (cookie_value r.cookie)
    then forbidden
    else if is_nil (submitted r) || not (text_eq (submitted r) (cookie_value r.cookie))
    then forbidden
    else next none
