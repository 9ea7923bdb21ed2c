-- ===== src/Tests/Offline.antt =====
-- The service worker.
use caslink.Prelude.{codes, text_eq, strip_prefix, [], ◌∷◌, ◌≡◌, ◌⊎◌, refl, none, some}
use caslink.Worker.{
  Response, Network, Request, on_install, is_handled, on_fetch, find_any, find, fetch_all, put,
  put_all, update,
}
use caslink.Worker.History.{install, run, step, empty, Answered, on_fetch-Answered}
use caslink.Worker.Offline.{on_fetch-on_install}

abbrev style : Response
style = record { status = 200; body = codes "body {}" }

abbrev online : Network
online url = some style

abbrev offline : Network
offline url = none

abbrev style_request : Request
style_request = record {
  method = codes "GET";
  url = codes "/static/css/app.css";
  pathname = codes "/static/css/app.css";
}

on_fetch-Answered_example :
    (offline (codes "/static/css/app.css") ≡ some style)
    ⊎ Answered (install online ∷ []) (codes "/static/css/app.css") style
unfolding on_fetch run step on_install fetch_all put_all put update find_any find is_handled text_eq
on_fetch-Answered_example =
    on_fetch-Answered (install online ∷ []) offline style_request style
      (unfold strip_prefix in refl)

on_fetch-on_install_example :
    (r : Response) × (on_fetch offline style_request (on_install online empty).0
      ≡ ((on_install online empty).0, some r))
unfolding on_install fetch_all is_handled text_eq strip_prefix
on_fetch-on_install_example = on_fetch-on_install online offline empty style_request refl refl refl
