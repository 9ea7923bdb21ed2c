-- ===== src/Tests/Requests.antt =====
-- Calls of the page: tokens, headers, base64 and passkeys.
use caslink.Prelude.{
  ℕ, Text, codes, text_eq, strip_prefix, true, false, List, [], ◌∷◌, ◌≡◌, ◌≢◌, ◌⊎◌, refl, arith,
  none, some,
}
use caslink.Platform.{ascii_platform}
use caslink.Csrf.{Page, Pairs, plain_object, get_csrf_token, match_token}
use caslink.Csrf.Cookie.{serialize, find_token, match_token-serialize}
use caslink.Csrf.Fetch.{Init, is_safe, patched_init, sent_headers, values_of}
use caslink.Csrf.Fetch.Laws.{HasToken, patched_init-HasToken}
use caslink.Server.Csrf.{forbidden, csrf_middleware, is_exempt}
use caslink.Server.Csrf.EndToEnd.{
  received, csrf_middleware-patched_init, csrf_middleware-first_visit,
}
use caslink.Base64.{btoa, atob, buffer_encode, buffer_decode}
use caslink.Base64.RoundTrip.{buffer_decode-buffer_encode, atob-btoa}
use caslink.Passkey.{resolved, rejected, Options, World, on_click, success, decode_options}
use caslink.Passkey.Laws.{
  Succeeds, HasDanger, on_click_lem, encode_options, decode_options-encode_options,
}

abbrev token : Text
token = codes "c5f1"

abbrev page : Page
page = record { meta = some token; cookie = [] }

abbrev json_header : Pairs
json_header = (codes "Content-Type", codes "application/json") ∷ []

-- The call of the create form.
abbrev create_call : Init
create_call = record { method = some (codes "POST"); headers = plain_object json_header }

patched_init-HasToken_example :
    (sent : Init) × (patched_init ascii_platform page create_call ≡ some sent)
    × (sent.method ≡ create_call.method)
    × HasToken token create_call.headers sent.headers
unfolding is_safe text_eq values_of sent_headers get_csrf_token
patched_init-HasToken_example =
    patched_init-HasToken ascii_platform page create_call token refl refl (refl, refl) refl

abbrev jar : Pairs
jar = (codes "theme", codes "dark") ∷ (codes "csrf_token", token) ∷ (codes "a", codes "b=c") ∷ []

match_token-serialize_example : match_token (serialize jar) ≡ find_token jar
match_token-serialize_example = match_token-serialize jar (
  (refl, omega arith, omega arith, omega arith),
  (
    (refl, omega arith, omega arith, omega arith),
    ((refl, omega arith, omega arith, omega arith), tt),
  ),
)

abbrev base : Text
base = codes "/api/v1"

abbrev urls_path : Text
urls_path = codes "/api/v1/urls"

csrf_middleware-patched_init_example :
    (sent : Init) × (patched_init ascii_platform page create_call ≡ some sent)
    × (csrf_middleware base (codes "new") (received urls_path [] (some token) sent) ≢ forbidden)
unfolding is_safe text_eq values_of sent_headers
csrf_middleware-patched_init_example =
    csrf_middleware-patched_init ascii_platform base (codes "new") page token urls_path []
      create_call refl refl refl refl (refl, refl)

abbrev first_page : Page
first_page = record { meta = some []; cookie = codes "csrf_token=c5f1" }

csrf_middleware-first_visit_example :
    (sent : Init) × (patched_init ascii_platform first_page create_call ≡ some sent)
    × (csrf_middleware base (codes "new") (received urls_path [] (some token) sent) ≡ forbidden)
unfolding is_safe text_eq values_of sent_headers is_exempt strip_prefix
csrf_middleware-first_visit_example =
    csrf_middleware-first_visit ascii_platform base (codes "new") first_page token urls_path []
      create_call refl refl refl refl refl refl refl (refl, refl)

abbrev some_bytes : List ℕ
some_bytes = 255 ∷ 0 ∷ 251 ∷ 7 ∷ []

-- The bytes 251, 255 need both replaced characters.
url_alphabet : buffer_encode (251 ∷ 255 ∷ 254 ∷ []) ≡ codes "-__-"
unfolding buffer_encode
url_alphabet = refl

buffer_decode-buffer_encode_example : buffer_decode (buffer_encode some_bytes) ≡ some some_bytes
buffer_decode-buffer_encode_example = buffer_decode-buffer_encode some_bytes (omega arith)

atob-btoa_example : atob (btoa some_bytes) ≡ some some_bytes
atob-btoa_example = atob-btoa some_bytes (omega arith)

abbrev server_options : Options (List ℕ)
server_options = record { challenge = some_bytes; user_id = 7 ∷ []; exclude = none }

decode_options-encode_options_example :
    decode_options (codes "bad") (encode_options server_options) ≡ resolved server_options
decode_options-encode_options_example =
    decode_options-encode_options (codes "bad") server_options (omega arith, omega arith, tt)

-- A browser whose user cancels.
abbrev cancelled : World
cancelled = record {
  begin_register =
      resolved (record {
        is_ok = true;
        message = [];
        error = [];
        payload = encode_options server_options;
      });
  create = λ o. rejected (codes "cancelled");
  finish_register = λ name b. rejected [];
  atob_message = codes "bad";
}

on_click_lem_example :
    (Succeeds cancelled (codes "Passkey")
      × ((on_click cancelled []).disabled ≡ true)
      × ((on_click cancelled []).reloads ≡ true)
      × ((m : Text) × ((on_click cancelled []).status ≡ success m)))
    ⊎ (¬ Succeeds cancelled (codes "Passkey")
        × ((on_click cancelled []).disabled ≡ false)
        × ((on_click cancelled []).reloads ≡ false)
        × ((on_click cancelled []).label ≡ codes "Register Passkey")
        × HasDanger (on_click cancelled []).status)
on_click_lem_example = on_click_lem cancelled []
