-- ===== src/Csrf.antt =====
-- The CSRF token on the page and the patched `window.fetch` of src/server/tmpl/static/js/app.js.
-- Texts are lists of UTF-16 code units. A request that leaves the page is recorded as what
-- `_origFetch` is called with.
pub mod Cookie
pub mod Fetch
use caslink.Prelude.{
  ℕ, Text, codes, text_eq, strip_prefix, take_while, drop_while, Bool, true, false, not, List, [],
  ◌∷◌, ◌||◌, ◌&&◌, Option, none, some, if◌then◌else◌, ◌==◌, leb, any, is_nil, or_else,
}
use caslink.Platform.{Platform}

-- `\s` of a JavaScript regular expression.
abbrev pub is_white : ℕ → Bool
is_white c =
    (leb 9 c && leb c 13)
    || c == 32
    || c == 0xa0
    || c == 0x1680
    || (leb 0x2000 c && leb c 0x200a)
    || c == 0x2028
    || c == 0x2029
    || c == 0x202f
    || c == 0x205f
    || c == 0x3000
    || c == 0xfeff

abbrev pub not_semicolon : ℕ → Bool
not_semicolon c = not (c == b';')

-- `([^;]+)`: a group of at least one unit.
abbrev pub nonempty : Text → Option Text
nonempty [] = none
nonempty (c ∷ s) = some (c ∷ s)

abbrev pub captured : Option Text → Option Text
captured none = none
captured (some s) = nonempty (take_while not_semicolon s)

-- `csrf_token=([^;]+)` at the start of a text, and its group.
unfoldable pub token_here : Text → Option Text
unfolding strip_prefix take_while
token_here s = captured (strip_prefix (codes "csrf_token=") s)

abbrev pub first_of_two : Option Text → Option Text → Option Text
first_of_two none later = later
first_of_two (some t) later = some t

-- The expression at the semicolons of a text, from left to right. Behind a semicolon `\s*` takes all
-- the white space: the name that must follow starts with none.
unfoldable pub token_behind : Text → Option Text
unfolding token_here drop_while
token_behind [] = none
token_behind (c ∷ s) =
    let later = token_behind s in
    if c == b';' then first_of_two (token_here (drop_while is_white s)) later else later

-- `document.cookie.match(/(?:^|;\s*)csrf_token=([^;]+)/)`: at the start, or else behind a semicolon.
unfoldable pub match_token : Text → Option Text
unfolding token_here token_behind
match_token cookie = first_of_two (token_here cookie) (token_behind cookie)

-- What `getCSRFToken` reads: the `content` of <meta name="csrf-token">, if the page has that element,
-- and `document.cookie`. The templates give the element a `content` always.
pub record Page : Type 0 where
  pub meta : Option Text
  pub cookie : Text

abbrev pub decoded : Platform → Option Text → Option Text
decoded p none = some []
decoded p (some t) = p.decode_uri_component t

-- `getCSRFToken`; `none` is the error that `decodeURIComponent` throws.
unfoldable pub get_csrf_token : Platform → Page → Option Text
unfolding match_token
get_csrf_token p page = elim page.meta [
  | some content ↦ some content
  | none ↦ decoded p (match_token page.cookie)
]

-- Name and value of a header.
abbrev pub Pairs : Type 0
Pairs = List (Text × Text)

-- `init.headers`: absent, a `Headers` object, an array of pairs with the properties set on it, or
-- another object. The names in a `Headers` object are lower case.
pub data HeadersInit : Type 0 where
  absent : HeadersInit
  headers_object : Pairs → HeadersInit
  pair_array : Pairs → Pairs → HeadersInit
  plain_object : Pairs → HeadersInit

unfoldable pub lookup : Text → Pairs → Option Text
lookup name [] = none
lookup name ((k, v) ∷ rest) = if text_eq k name then some v else lookup name rest

-- An assignment to a property, and `Headers.set`.
unfoldable pub set_header : Text → Text → Pairs → Pairs
set_header name value [] = (name, value) ∷ []
set_header name value ((k, v) ∷ rest) =
    if text_eq k name then (name, value) ∷ rest else (k, v) ∷ set_header name value rest

-- A property that is there and not the empty string.
abbrev pub is_truthy : Option Text → Bool
is_truthy none = false
is_truthy (some t) = not (is_nil t)
