-- ===== src/Widgets/Consent.antt =====
-- The cookie consent banner of src/server/tmpl/static/js/app.js. The choice is posted with the
-- original `fetch`, so nothing is added to the call.
use caslink.Prelude.{
  ℕ, Text, codes, text_eq, Bool, true, false, not, List, [], ◌∷◌, ◌≡◌, refl, ◌∙◌, arith, Option,
  none, some, All, ◌&&◌,
}
use caslink.Csrf.{plain_object}
use caslink.Csrf.Fetch.{Init, address, sent_headers, values_of}
use caslink.Csrf.Fetch.Laws.{token_name}

-- What `_origFetch` is called with.
pub record Call : Type 0 where
  pub url : Text
  pub init : Init
  pub body : Text

-- Whether the page still has the banner, the calls made, the latest first, and the forms, by their
-- numbers, that were submitted by plain navigation, the latest first.
pub record State : Type 0 where
  pub has_banner : Bool
  pub calls : List Call
  pub navigations : List ℕ

-- A form of the banner is submitted, with its fields as URL-encoded text; or the call for a form is
-- settled, by an answer of some status or by a network error.
pub data Event : Type 0 where
  submit : Text → Event
  settled : ℕ → Option ℕ → Event

abbrev pub consent_call : Text → Call
consent_call body = record {
  url = codes "/server/consent";
  init = record {
    method = some (codes "POST");
    headers = plain_object ((codes "Content-Type", codes "application/x-www-form-urlencoded") ∷ []);
  };
  body = body;
}

unfoldable pub on_submit : Text → State → State
on_submit body s = record s { calls = consent_call body ∷ s.calls }

-- `banner.remove()`, whatever the status, or `form.submit()`.
unfoldable pub on_settled : ℕ → Option ℕ → State → State
on_settled form (some status) s = record s { has_banner = false }
on_settled form none s = record s { navigations = form ∷ s.navigations }

unfoldable pub step : State → Event → State
step s (submit body) = on_submit body s
step s (settled form answer) = on_settled form answer s

unfoldable pub run : State → List Event → State
run s [] = s
run s (e ∷ es) = run (step s e) es

-- Some call was answered, by any status.
abbrev pub is_answered : List Event → Bool
is_answered [] = false
is_answered (settled form (some status) ∷ es) = true
is_answered (_ ∷ es) = is_answered es

-- The forms whose calls met a network error, the latest first, before those of a list.
abbrev pub failed_before : List Event → List ℕ → List ℕ
failed_before [] fs = fs
failed_before (settled form none ∷ es) fs = failed_before es (form ∷ fs)
failed_before (_ ∷ es) fs = failed_before es fs

-- A POST without the CSRF token.
abbrev pub IsPlainPost : Call → Type 0
IsPlainPost c =
    (c.init.method ≡ some (codes "POST"))
    × (values_of token_name (sent_headers (address c.url) c.init.headers) ≡ [])

-- From a page with the banner on: the banner stays exactly until some call is answered, by whatever
-- status; each network error leads to one plain submission of its form, and no answer does; and
-- every call is a POST that carries no CSRF token, if those before were.
pub run_lem :
    (es : List Event) (s : State)
    → All IsPlainPost s.calls
    → ((run s es).has_banner ≡ (s.has_banner && not (is_answered es)))
      × ((run s es).navigations ≡ failed_before es s.navigations)
      × All IsPlainPost (run s es).calls
unfolding run step on_submit on_settled
run_lem [] s h = (ground arith, refl, h)
run_lem (submit body ∷ es) s h =
    run_lem es (on_submit body s) ((refl, unfold values_of sent_headers text_eq in refl), h)
run_lem (settled form none ∷ es) s h = run_lem es (on_settled form none s) h
run_lem (settled form (some status) ∷ es) s h =
    let (banner, navigated, posted) = run_lem es (on_settled form (some status) s) h in
    (banner ∙ ground arith, navigated, posted)
