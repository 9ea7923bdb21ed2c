-- ===== src/Csrf/Fetch.antt =====
-- The function that replaces `window.fetch`, and what the platform then sends.
pub mod Laws
use caslink.Prelude.{
  Text, codes, text_eq, Bool, true, false, not, List, [], ◌∷◌, ◌++◌, ◌||◌, ◌&&◌, Option, none, some,
  if◌then◌else◌, any, is_nil, is_some, map,
}
use caslink.Platform.{Platform, lower_unit}
use caslink.Csrf.{
  Page, get_csrf_token, Pairs, HeadersInit, absent, headers_object, pair_array, plain_object,
  lookup, set_header, is_truthy,
}

-- The first argument: an address, or a `Request` with a method and headers of its own.
pub data Input : Type 0 where
  address : Text → Input
  request : Text → Text → Pairs → Input

-- The second argument; `none` is a missing `method`.
pub record Init : Type 0 where
  pub method : Option Text
  pub headers : HeadersInit

-- `init.method || 'GET'`
abbrev pub method_or_get : Option Text → Text
method_or_get none = codes "GET"
method_or_get (some m) = if is_nil m then codes "GET" else m

abbrev pub safe_methods : List Text
safe_methods = codes "GET" ∷ codes "HEAD" ∷ codes "OPTIONS" ∷ codes "TRACE" ∷ []

-- `safeMethods.indexOf(method) !== -1`
unfoldable pub is_safe : Text → Bool
unfolding text_eq
is_safe method = any (text_eq method) safe_methods

-- `headers instanceof Headers` looks names up without regard to case; a property name is exact.
unfoldable pub has_auth : HeadersInit → Bool
has_auth absent = false
has_auth (headers_object hs) = is_some (lookup (codes "authorization") hs)
has_auth (pair_array ps props) =
    is_truthy (lookup (codes "Authorization") props)
    || is_truthy (lookup (codes "authorization") props)
has_auth (plain_object ps) =
    is_truthy (lookup (codes "Authorization") ps) || is_truthy (lookup (codes "authorization") ps)

unfoldable pub has_token : HeadersInit → Bool
has_token absent = false
has_token (headers_object hs) = is_some (lookup (codes "x-csrf-token") hs)
has_token (pair_array ps props) = is_truthy (lookup (codes "X-CSRF-Token") props)
has_token (plain_object ps) = is_truthy (lookup (codes "X-CSRF-Token") ps)

-- On an array the token becomes a property of the array object.
unfoldable pub put_token : Text → HeadersInit → HeadersInit
put_token token absent = plain_object ((codes "X-CSRF-Token", token) ∷ [])
put_token token (headers_object hs) = headers_object (set_header (codes "x-csrf-token") token hs)
put_token token (pair_array ps props) =
    pair_array ps (set_header (codes "X-CSRF-Token") token props)
put_token token (plain_object ps) = plain_object (set_header (codes "X-CSRF-Token") token ps)

-- `init.headers || {}`
abbrev pub headers_or_empty : HeadersInit → HeadersInit
headers_or_empty absent = plain_object []
headers_or_empty hs = hs

abbrev pub with_token : Init → HeadersInit → Option Text → Option Init
with_token init hs none = none
with_token init hs (some token) = some (record init { headers = put_token token hs })

module _ (p : Platform) (page : Page) where
  -- The `init` that the patched function hands to `_origFetch`, beside the unchanged `input`; `none`
  -- if reading the token threw. Nothing in it depends on `input`.
  unfoldable pub patched_init : Init → Option Init
  patched_init init =
      if is_safe (p.to_upper_case (method_or_get init.method))
      then some init
      else if has_auth (headers_or_empty init.headers) || has_token (headers_or_empty init.headers)
      then some (record init { headers = headers_or_empty init.headers })
      else with_token init (headers_or_empty init.headers) (get_csrf_token p page)

-- Header names go out in lower case.
abbrev pub on_wire : Pairs → Pairs
on_wire = map (λ h. (map lower_unit h.0, h.1))

-- The headers of the request that the platform makes of `input` and `init`: those of `init`, if it
-- has any, in place of those of a `Request`. Of an array only the pairs count.
unfoldable pub sent_headers : Input → HeadersInit → Pairs
sent_headers (address url) absent = []
sent_headers (request url method hs) absent = on_wire hs
sent_headers input (headers_object hs) = on_wire hs
sent_headers input (pair_array ps props) = on_wire ps
sent_headers input (plain_object ps) = on_wire ps

-- Every value that is sent under a name. The platform joins them by ", ".
unfoldable pub values_of : Text → Pairs → List Text
values_of name [] = []
values_of name ((k, v) ∷ rest) =
    if text_eq k name then v ∷ values_of name rest else values_of name rest
