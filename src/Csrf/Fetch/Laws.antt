-- ===== src/Csrf/Fetch/Laws.antt =====
-- What the patched function sends.
use mathlib.Core.List.{append-nil}
use caslink.Prelude.{
  Text, codes, text_eq, text_eq_iff, text_eq_refl, text_eq-eq-false, Bool, true, false, [], ◌∷◌,
  ◌++◌, ◌≡◌, ◌≢◌, refl, arith, ap, sym, ◌∙◌, Option, none, some, if◌then◌else◌, map, Bool-cases,
  inl, inr,
}
use caslink.Platform.{Platform, lower_unit}
use caslink.Csrf.{
  Page, get_csrf_token, Pairs, HeadersInit, absent, headers_object, pair_array, plain_object,
  lookup, set_header,
}
use caslink.Csrf.Fetch.{
  Input, Init, address, request, method_or_get, is_safe, has_auth, has_token, put_token,
  headers_or_empty, patched_init, on_wire, sent_headers, values_of,
}

abbrev pub token_name : Text
token_name = codes "x-csrf-token"

-- A property whose lower-case name is not sent is not there.
lookup_of_missing :
    (name key : Text) (hs : Pairs)
    → map lower_unit key ≡ name
    → values_of name (on_wire hs) ≡ []
    → lookup key hs ≡ none
unfolding lookup values_of
lookup_of_missing name key [] e h = refl
lookup_of_missing name key ((k, v) ∷ hs) e h = elim (Bool-cases (text_eq k key)) [
  | inl same ↦
      let sent : text_eq (map lower_unit k) name ≡ true =
        (text_eq_iff _ _).1 (ap (map lower_unit) ((text_eq_iff k key).0 same) ∙ e) in
      ground arith
  | inr other ↦ rw other (lookup_of_missing name key hs e (ground arith))
]

set_header_of_missing :
    (key value : Text) (hs : Pairs)
    → lookup key hs ≡ none
    → set_header key value hs ≡ hs ++ (key, value) ∷ []
unfolding lookup set_header
set_header_of_missing key value [] h = refl
set_header_of_missing key value ((k, v) ∷ hs) h = ground (arith, set_header_of_missing key value hs)

values_of-append :
    (name key value : Text) (hs : Pairs)
    → values_of name (on_wire (hs ++ (key, value) ∷ []))
      ≡ values_of name (on_wire hs)
        ++ (if text_eq (map lower_unit key) name then value ∷ [] else [])
unfolding values_of
values_of-append name key value [] = refl
values_of-append name key value ((k, v) ∷ hs) = ground (arith, values_of-append name key value hs)

-- One more header under `key`, and nothing else changed.
values_of-set_header :
    (key value : Text) (hs : Pairs)
    → map lower_unit key ≡ token_name
    → values_of token_name (on_wire hs) ≡ []
    → (values_of token_name (on_wire (set_header key value hs)) ≡ value ∷ [])
      × ((name : Text)
          → name ≢ token_name
          → values_of name (on_wire (set_header key value hs)) ≡ values_of name (on_wire hs))
values_of-set_header key value hs e h =
    rw (set_header_of_missing key value hs (lookup_of_missing token_name key hs e h)) (
      rw (values_of-append token_name key value hs, h, e, text_eq_refl token_name),
      λ name ne.
          rw
            (
              values_of-append name key value hs,
              e,
              text_eq-eq-false token_name name (λ q. ne (sym q)),
            )
            (append-nil (values_of name (on_wire hs))),
    )

-- No `Authorization` and no `X-CSRF-Token` is sent, in any spelling.
abbrev pub IsBare : HeadersInit → Type 0
IsBare hs =
    (values_of (codes "authorization") (sent_headers (address []) hs) ≡ [])
    × (values_of token_name (sent_headers (address []) hs) ≡ [])

-- `init.headers` is no array.
abbrev pub is_array : HeadersInit → Bool
is_array (pair_array ps props) = true
is_array _ = false

-- With the token the headers are the same and one more.
abbrev pub HasToken : Text → HeadersInit → HeadersInit → Type 0
HasToken token before after =
    (values_of token_name (sent_headers (address []) after) ≡ token ∷ [])
    × ((name : Text)
        → name ≢ token_name
        → values_of name (sent_headers (address []) after)
          ≡ values_of name (sent_headers (address []) before))

put_token-HasToken :
    (token : Text) (hs : HeadersInit)
    → is_array hs ≡ false
    → IsBare hs
    → (has_auth (headers_or_empty hs) ≡ false)
      × (has_token (headers_or_empty hs) ≡ false)
      × HasToken token hs (put_token token (headers_or_empty hs))
unfolding has_auth has_token put_token sent_headers
put_token-HasToken token absent a b = (
  rw (
    lookup_of_missing (codes "authorization") (codes "Authorization") [] refl b.0,
    lookup_of_missing (codes "authorization") (codes "authorization") [] refl b.0,
  ),
  rw (lookup_of_missing token_name (codes "X-CSRF-Token") [] refl b.1),
  values_of-set_header (codes "X-CSRF-Token") token [] refl b.1,
)
put_token-HasToken token (headers_object hs) a (b, c) = (
  rw (lookup_of_missing (codes "authorization") (codes "authorization") hs refl b),
  rw (lookup_of_missing token_name token_name hs refl c),
  values_of-set_header token_name token hs refl c,
)
put_token-HasToken token (pair_array ps props) a b = cc
put_token-HasToken token (plain_object hs) a (b, c) = (
  rw (
    lookup_of_missing (codes "authorization") (codes "Authorization") hs refl b,
    lookup_of_missing (codes "authorization") (codes "authorization") hs refl b,
  ),
  rw (lookup_of_missing token_name (codes "X-CSRF-Token") hs refl c),
  values_of-set_header (codes "X-CSRF-Token") token hs refl c,
)

module _ (p : Platform) (page : Page) where
  -- Called with an address, a method other than GET, HEAD, OPTIONS and TRACE, and headers that are
  -- no array and hold neither `Authorization` nor `X-CSRF-Token`, on a page whose token can be
  -- read, the patched function sends that token once under `X-CSRF-Token`, leaves method and other
  -- headers alone, and does so whatever the address.
  pub patched_init-HasToken :
      (init : Init) (token : Text)
      → is_safe (p.to_upper_case (method_or_get init.method)) ≡ false
      → is_array init.headers ≡ false
      → IsBare init.headers
      → get_csrf_token p page ≡ some token
      → (sent : Init) × (patched_init p page init ≡ some sent)
        × (sent.method ≡ init.method)
        × HasToken token init.headers sent.headers
  unfolding patched_init
  patched_init-HasToken init token m a b e =
      let (auth, tok, has) = put_token-HasToken token init.headers a b in
      (
        record init { headers = put_token token (headers_or_empty init.headers) },
        rw (m, auth, tok, e),
        refl,
        has,
      )

  -- A call without `method` in its second argument goes out as it is, whatever its headers.
  pub patched_init-no_method :
      (init : Init) → init.method ≡ none → patched_init p page init ≡ some init
  unfolding patched_init is_safe text_eq
  patched_init-no_method init e = rw (e, p.upper_ascii (codes "GET") (omega arith)) refl

  -- Of headers given as an array, the pairs go out as they are if the function does not throw: the
  -- token is not added to them.
  pub sent_headers-pair_array :
      (method : Option Text) (ps props : Pairs) (input : Input) (sent : Init)
      → patched_init p page (record { method = method; headers = pair_array ps props }) ≡ some sent
      → sent_headers input sent.headers ≡ on_wire ps
  unfolding patched_init sent_headers put_token
  sent_headers-pair_array method ps props (address url) sent h = ground arith
  sent_headers-pair_array method ps props (request url m hs) sent h = ground arith

  headers_or_empty_of_auth : (hs : HeadersInit) → has_auth hs ≡ true → headers_or_empty hs ≡ hs
  unfolding has_auth
  headers_or_empty_of_auth absent h = cc
  headers_or_empty_of_auth (headers_object hs) h = refl
  headers_or_empty_of_auth _ h = refl

  -- With an `Authorization` header the call goes out as it is.
  pub patched_init-has_auth :
      (init : Init) → has_auth init.headers ≡ true → patched_init p page init ≡ some init
  unfolding patched_init
  patched_init-has_auth init h = rw (headers_or_empty_of_auth init.headers h, h) (ground arith)
