-- ===== src/Redirect.antt =====
-- Following a short link: `RedirectURL` and `unlockURLOrPrompt` of src/server/handler/url.go, with
-- the queries and the link options of src/server/service/url.go. The table of links is a list whose
-- first row that fits a query is its answer. `ApplyUTM` behind its test, the check of a password hash,
-- the country of an address and the text functions of Go are arguments.
pub mod Rules
pub mod Served
pub mod Reached
use caslink.Prelude.{
  ℕ, ◌<◌, ◌≡◌, Text, codes, text_eq, Bool, true, false, not, ◌&&◌, ◌||◌, ◌==◌, ltb, if◌then◌else◌,
  Option, none, some, is_some, List, [], ◌∷◌, any, is_nil, contains,
}
use caslink.Links.{is_id}

-- A `model.URL`. Times are nanoseconds.
pub record Target : Type 0 where
  pub id : ℕ
  pub short_code : Text
  pub user_id : Option ℕ
  pub org_id : Option ℕ
  pub expires_at : Option ℕ
  pub password_hash : Option Text
  pub geo_mode : Text
  pub geo_countries : List Text
  pub long_url : Text
  pub mobile_url : Option Text
  pub tablet_url : Option Text
  pub desktop_url : Option Text
  pub utm : List (Option Text)

-- The request, with what the middleware has attached: the owner of a custom domain. A posted form
-- that cannot be parsed has no password; no password in the query is the empty one.
pub record Visit : Type 0 where
  pub code : Text
  pub domain_owner : Option (Text × ℕ)
  pub is_post : Bool
  pub posted_password : Option Text
  pub query_password : Text
  pub accept : Text
  pub user_agent : Text
  pub address : Text

pub data Answer : Type 0 where
  not_found server_error unauthorized : Answer
  prompt : Bool → Answer
  redirect : Text → Answer

-- The link and the address of a click.
abbrev pub Click : Type 0
Click = ℕ × Text

-- The rows of `urls` where a query does not fail.
pub data Query : Type 0 where
  row : Target → Query
  no_row expired query_error : Query

unfoldable pub find_target : (Target → Bool) → List Target → Query
find_target p [] = no_row
find_target p (u ∷ us) = if p u then row u else find_target p us

-- `time.Now().After(*u.ExpiresAt)`
abbrev pub is_past : ℕ → Option ℕ → Bool
is_past now none = false
is_past now (some t) = ltb t now

abbrev pub unless_expired : ℕ → Query → Query
unless_expired now (row u) = if is_past now u.expires_at then expired else row u
unless_expired now answer = answer

abbrev pub has_code : Text → Target → Bool
has_code code u = text_eq u.short_code code

-- The database, and the time.
pub record Server : Type 0 where
  pub targets : List Target
  pub fails : Bool
  pub now : ℕ

-- `SELECT`
unfoldable pub select : Server → (Target → Bool) → Query
unfolding find_target
select s p = if s.fails then query_error else find_target p s.targets

-- `GetURLByCode`
unfoldable pub get_url_by_code : Server → Text → Query
unfolding select
get_url_by_code s code = unless_expired s.now (select s (has_code code))

-- `GetURLByCodeForOwner`
unfoldable pub get_url_by_code_for_owner : Server → Text → Text → ℕ → Query
unfolding select
get_url_by_code_for_owner s code owner_type owner_id =
    if text_eq owner_type (codes "user")
    then unless_expired s.now (select s (λ u. has_code code u && is_id u.user_id owner_id))
    else if text_eq owner_type (codes "org")
    then unless_expired s.now (select s (λ u. has_code code u && is_id u.org_id owner_id))
    else no_row

-- On a custom domain only the links of its owner are looked at.
abbrev pub look_up : Server → Text → Option (Text × ℕ) → Query
look_up s code none = get_url_by_code s code
look_up s code (some (owner_type, owner_id)) = get_url_by_code_for_owner s code owner_type owner_id

-- `URLRequiresPassword`
abbrev pub requires_password : Option Text → Bool
requires_password none = false
requires_password (some hash) = not (is_nil hash)

pub data Device : Type 0 where
  mobile tablet desktop : Device

-- An override that is set and not empty.
abbrev pub override_or : Option Text → Text → Text
override_or none long_url = long_url
override_or (some []) long_url = long_url
override_or (some (c ∷ s)) long_url = c ∷ s

-- `SelectDestination`
unfoldable pub select_destination : Target → Device → Text
select_destination u mobile = override_or u.mobile_url u.long_url
select_destination u tablet = override_or u.tablet_url u.long_url
select_destination u desktop = override_or u.desktop_url u.long_url

-- What stands on the Unicode tables, the libraries and the configuration.
pub record Host : Type 0 where
  pub to_lower : Text → Text
  pub to_upper : Text → Text
  pub equal_fold : Text → Text → Bool
  pub add_utm : Text → List (Option Text) → Text
  pub verify_password : Text → Text → Bool
  pub look_up_country : Text → Text

module _ (host : Host) where
  -- `VerifyURLPassword`
  abbrev pub verify_url_password : Option Text → Text → Bool
  verify_url_password none plaintext = false
  verify_url_password (some hash) plaintext =
      if is_nil hash then false else host.verify_password plaintext hash

  -- `DetectDeviceType`
  unfoldable pub detect_device_type : Text → Device
  unfolding contains
  detect_device_type user_agent =
      let ua = host.to_lower user_agent in
      if contains (codes "ipad") ua
        || contains (codes "tablet") ua
        || (contains (codes "android") ua && not (contains (codes "mobile") ua))
      then tablet
      else if contains (codes "mobi") ua
          || contains (codes "iphone") ua
          || contains (codes "ipod") ua
          || contains (codes "android") ua
      then mobile
      else desktop

  -- `GeoAllowed`
  unfoldable pub geo_allowed : Target → Text → Bool
  geo_allowed u country_code =
      let in_list = any (λ c. host.equal_fold c (host.to_upper country_code)) u.geo_countries in
      if is_nil u.geo_mode || text_eq u.geo_mode (codes "none") || is_nil country_code
      then true
      else if text_eq u.geo_mode (codes "allow")
      then in_list
      else if text_eq u.geo_mode (codes "deny")
      then not in_list
      else true

  -- `ApplyUTM`
  unfoldable pub apply_utm : Text → Target → Text
  apply_utm dest u = if any is_some u.utm then host.add_utm dest u.utm else dest

  -- `provided` and `submitted` of `unlockURLOrPrompt`: none is not submitted.
  abbrev pub provided_password : Visit → Option Text
  provided_password r =
      if r.is_post
      then r.posted_password
      else if is_nil r.query_password
      then none
      else some r.query_password

  abbrev pub is_unlocked_by : Option Text → Option Text → Bool
  is_unlocked_by password_hash none = false
  is_unlocked_by password_hash (some provided) = verify_url_password password_hash provided

  -- What `unlockURLOrPrompt` answers where it returns false.
  unfoldable pub locked : Visit → Answer
  locked r =
      if text_eq r.accept (codes "application/json")
      then unauthorized
      else prompt (is_some (provided_password r))

  -- The test of the country, which is looked up only where the link asks for it.
  unfoldable pub is_blocked : Target → Visit → Bool
  unfolding geo_allowed
  is_blocked u r =
      if is_nil u.geo_mode || text_eq u.geo_mode (codes "none")
      then false
      else not (geo_allowed u (host.look_up_country r.address))

  abbrev pub destination : Target → Visit → Text
  destination u r = apply_utm (select_destination u (detect_device_type r.user_agent)) u

  -- Behind the query. The click is dropped where all workers are busy.
  unfoldable pub follow : Bool → Target → Visit → Answer × Option Click
  unfolding locked is_blocked
  follow workers_busy u r =
      if requires_password u.password_hash
        && not (is_unlocked_by u.password_hash (provided_password r))
      then (locked r, none)
      else if is_blocked u r
      then (not_found, none)
      else (redirect (destination u r), if workers_busy then none else some (u.id, r.address))

  abbrev pub by_query : Bool → Visit → Query → Answer × Option Click
  by_query workers_busy r (row u) = follow workers_busy u r
  by_query workers_busy r no_row = (not_found, none)
  by_query workers_busy r expired = (not_found, none)
  by_query workers_busy r query_error = (server_error, none)

  -- `RedirectURL`: the answer, and the click that is recorded.
  unfoldable pub redirect_url : Server → Bool → Visit → Answer × Option Click
  unfolding follow
  redirect_url s workers_busy r =
      if is_nil r.code
      then (not_found, none)
      else by_query workers_busy r (look_up s r.code r.domain_owner)
