-- ===== src/Server/Csrf/EndToEnd.antt =====
-- The patched `window.fetch` against `CSRFMiddleware`: what the page sends is what the server checks.
use mathlib.Core.Bool.{false≢true}
use caslink.Prelude.{
  strip_prefix, Text, codes, text_eq, text_eq_refl, text_eq_iff, false, List, [], ◌∷◌, ◌≡◌, ◌≢◌,
  arith, Option, none, some, is_nil,
}
use caslink.Platform.{Platform}
use caslink.Csrf.{Page, get_csrf_token}
use caslink.Csrf.Fetch.{
  Init, address, method_or_get, is_safe, patched_init, sent_headers, values_of,
}
use caslink.Csrf.Fetch.Laws.{token_name, IsBare, is_array, patched_init-HasToken}
use caslink.Server.Csrf.{
  Request, forbidden, csrf_middleware, is_safe_method, is_exempt, cookie_value,
}

-- `Header.Get`: the first value.
abbrev pub first_value : List Text → Text
first_value [] = []
first_value (v ∷ vs) = v

-- The request that the server sees of a call with an address and an `init`: the browser adds the
-- cookie, and `form` is what `FormValue` reads of `_csrf` in the query and the body.
abbrev pub received : Text → Text → Option Text → Init → Request
received path form cookie init = record {
  path = path;
  method = method_or_get init.method;
  authorization =
      first_value (values_of (codes "authorization") (sent_headers (address []) init.headers));
  token_header = first_value (values_of token_name (sent_headers (address []) init.headers));
  cookie = cookie;
  form_field = form;
}

-- `newPageData` fills the meta element with the cookie of the request that asked for the page.
abbrev pub csrf_token : Option Text → Text
csrf_token cookie = cookie_value cookie

auth-ne-token : codes "authorization" ≢ token_name
unfolding text_eq
auth-ne-token h = false≢true ((text_eq_iff (codes "authorization") token_name).1 h)

module _ (p : Platform) (base fresh : Text) where
  passes :
      (path form token : Text) (sent : Init)
      → values_of token_name (sent_headers (address []) sent.headers) ≡ token ∷ []
      → is_nil token ≡ false
      → csrf_middleware base fresh (received path form (some token) sent) ≢ forbidden
  unfolding csrf_middleware
  passes path form token sent e t = rw (e, t, text_eq_refl token) (ground arith)

  rejects :
      (path form token : Text) (sent : Init)
      → values_of token_name (sent_headers (address []) sent.headers) ≡ [] ∷ []
      → values_of (codes "authorization") (sent_headers (address []) sent.headers) ≡ []
      → is_exempt base path ≡ false
      → is_safe_method (method_or_get sent.method) ≡ false
      → text_eq form token ≡ false
      → csrf_middleware base fresh (received path form (some token) sent) ≡ forbidden
  unfolding csrf_middleware strip_prefix
  rejects path form token sent e f x m other = rw (x, m, f, e, other) (ground arith)

  -- On a page that was asked for with a CSRF cookie, a call with a method that is not safe and with
  -- headers that are no array and hold neither `Authorization` nor a token passes the middleware,
  -- whatever its path and its form fields.
  pub csrf_middleware-patched_init :
      (page : Page) (token path form : Text) (init : Init)
      → page.meta ≡ some (csrf_token (some token))
      → is_nil token ≡ false
      → is_safe (p.to_upper_case (method_or_get init.method)) ≡ false
      → is_array init.headers ≡ false
      → IsBare init.headers
      → (sent : Init) × (patched_init p page init ≡ some sent)
        × (csrf_middleware base fresh (received path form (some token) sent) ≢ forbidden)
  csrf_middleware-patched_init page token path form init e t m a b =
      let (sent, q, _, has) =
        patched_init-HasToken p page init token m a b (unfold get_csrf_token in rw e) in
      (sent, q, passes path form token sent has.0 t)

  -- On a page that was asked for without a CSRF cookie, as on a first visit, a call outside the
  -- exempt paths is answered 403, though the browser holds the cookie by then, if its method is
  -- safe neither in the script nor on the server, its query and body do not carry the cookie's
  -- value as `_csrf`, and its headers are no array and hold neither `Authorization` nor a token:
  -- the empty meta element hides the cookie from `getCSRFToken`.
  pub csrf_middleware-first_visit :
      (page : Page) (token path form : Text) (init : Init)
      → page.meta ≡ some (csrf_token none)
      → is_nil token ≡ false
      → is_safe (p.to_upper_case (method_or_get init.method)) ≡ false
      → is_safe_method (method_or_get init.method) ≡ false
      → is_exempt base path ≡ false
      → text_eq form token ≡ false
      → is_array init.headers ≡ false
      → IsBare init.headers
      → (sent : Init) × (patched_init p page init ≡ some sent)
        × (csrf_middleware base fresh (received path form (some token) sent) ≡ forbidden)
  csrf_middleware-first_visit page token path form init e t m m' x other a b =
      let (sent, q, same, has) =
        patched_init-HasToken p page init [] m a b (unfold get_csrf_token in rw e) in
      (
        sent,
        q,
        rejects path form token sent has.0 (rw (has.1 (codes "authorization") auth-ne-token, b.0)) x
            (rw same m') other,
      )
