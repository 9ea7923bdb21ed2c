-- ===== src/Tests/Visits.antt =====
-- Visits of short links.
use caslink.Prelude.{
  sym, arith, inl, inr, text_eq_refl, Text, ◌≡◌, refl, codes, text_eq, true, false, inr, none, some,
  [], ◌∷◌, contains, strip_prefix, map,
}
use caslink.Platform.{lower_unit, upper_unit}
use caslink.Redirect.{
  Target, Visit, redirect, Server, find_target, select, get_url_by_code_for_owner,
  select_destination, detect_device_type, geo_allowed, apply_utm, is_blocked, destination, follow,
  redirect_url, Host,
}
use caslink.Redirect.Served.{MayFollow, redirect_url-MayFollow}
use caslink.Redirect.Reached.{redirect_url_of_MayFollow}

-- A host that knows ASCII, adds no parameter, takes a hash for the password and knows one country.
abbrev host : Host
host = record {
  to_lower = map lower_unit;
  to_upper = map upper_unit;
  equal_fold = λ a b. text_eq (map lower_unit a) (map lower_unit b);
  add_utm = λ dest utm. dest;
  verify_password = text_eq;
  look_up_country = λ address. codes "de";
}

-- A link of the organisation 3 with a password, for visitors from Germany.
abbrev docs : Target
docs = record {
  id = 1;
  short_code = codes "docs";
  user_id = none;
  org_id = some 3;
  expires_at = some 50;
  password_hash = some (codes "secret");
  geo_mode = codes "allow";
  geo_countries = codes "FR" ∷ codes "DE" ∷ [];
  long_url = codes "https://a.example/";
  mobile_url = some (codes "https://m.example/");
  tablet_url = some [];
  desktop_url = none;
  utm = none ∷ [];
}

abbrev server : Server
server = record { targets = docs ∷ []; fails = false; now = 50 }

abbrev phone : Visit
phone = record {
  code = codes "docs";
  domain_owner = some (codes "org", 3);
  is_post = true;
  posted_password = some (codes "secret");
  query_password = [];
  accept = codes "text/html";
  user_agent = codes "Mozilla iPhone";
  address = codes "1.2.3.4";
}

phone-redirect : (redirect_url host server false phone).0 ≡ redirect (codes "https://m.example/")
unfolding redirect_url follow get_url_by_code_for_owner select find_target text_eq contains
    strip_prefix detect_device_type select_destination apply_utm is_blocked geo_allowed
phone-redirect = refl

redirect_url-MayFollow_example :
    (u : Target) × MayFollow host server phone u
    × (codes "https://m.example/" ≡ destination host u phone)
redirect_url-MayFollow_example =
    redirect_url-MayFollow host server false phone (codes "https://m.example/") phone-redirect

docs-MayFollow : MayFollow host server phone docs
unfolding text_eq
docs-MayFollow = record {
  is_there = inl refl;
  has_that_code = refl;
  is_owned = inr (refl, refl);
  is_fresh = λ t e. (let same : 50 ≡ t = cc in omega (arith, same));
  is_open = λ h e n. (codes "secret", inl (refl, refl), same_text h e);
  is_allowed = ((λ m k. refl), (λ m k. absurd (cc)));
}
  where
    same_text : (h : Text) → some (codes "secret") ≡ some h → text_eq (codes "secret") h ≡ true
    same_text h e =
        (let same : codes "secret" ≡ h = cc in rw (sym same) (text_eq_refl (codes "secret")))

redirect_url_of_MayFollow_example :
    redirect_url host server false phone
    ≡ (redirect (destination host docs phone), some (1, codes "1.2.3.4"))
redirect_url_of_MayFollow_example =
    redirect_url_of_MayFollow host server false phone docs (tt, tt) refl refl docs-MayFollow
