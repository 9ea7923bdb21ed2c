-- ===== src/Links.antt =====
-- Who may see, change and own a link: `CanView` of src/server/service/url.go, `checkURLOwnership`,
-- `canViewURL` and the choice of an owner in src/server/handler/url.go, and their counterparts in
-- src/graphql/resolvers.go. Identifiers of users and organisations are row numbers.
pub mod Access
use caslink.Prelude.{
  ℕ, Text, codes, text_eq, String, Bool, true, false, not, [], ◌==◌, if◌then◌else◌, Option, none,
  some, map,
}
use caslink.Platform.{lower_unit}

-- The owner and the visibility of a `model.URL`.
pub record Link : Type 0 where
  pub user_id : Option ℕ
  pub org_id : Option ℕ
  pub visibility : Text

-- The owner of the bearer's token, of a `TokenRecord`.
pub record Bearer : Type 0 where
  pub owner_type : Text
  pub owner_id : ℕ

-- `strings.EqualFold` against a word that has no letter with a fold outside ASCII.
abbrev pub equal_fold : Text → String → Bool
equal_fold s word = text_eq (map lower_unit s) (codes word)

abbrev pub is_admin : Bearer → Bool
is_admin b = equal_fold b.owner_type "admin"

abbrev pub is_org : Bearer → Bool
is_org b = equal_fold b.owner_type "org"

abbrev pub is_user : Bearer → Bool
is_user b = equal_fold b.owner_type "user"

-- `id != nil && *id == owner_id`
abbrev pub is_id : Option ℕ → ℕ → Bool
is_id none owner_id = false
is_id (some id) owner_id = id == owner_id

-- `id == nil || *id != owner_id`
abbrev pub is_other : Option ℕ → ℕ → Bool
is_other none owner_id = true
is_other (some id) owner_id = not (id == owner_id)

-- `CanView`, where the caller is nobody or the bearer of a token.
unfoldable pub can_view : Link → Bool → Text → ℕ → Bool
can_view u admin owner_type owner_id =
    if text_eq u.visibility (codes "private")
    then if admin
      then true
      else if equal_fold owner_type "org"
      then is_id u.org_id owner_id
      else is_id u.user_id owner_id
    else true

-- `canViewURL` and the resolver's `canView`
unfoldable pub can_view_url : Option Bearer → Link → Bool
unfolding can_view
can_view_url none u = can_view u false [] 0
can_view_url (some b) u = can_view u (is_admin b) b.owner_type b.owner_id

-- What `GetURLByCodeAny` finds.
pub data Lookup : Type 0 where
  found : Link → Lookup
  not_found lookup_error : Lookup

-- `checkOwnership` of the resolver: none lets the caller go on.
abbrev pub owner_error : Bearer → Link → Option Text
owner_error b existing =
    if is_org b
    then (if is_other existing.org_id b.owner_id then some (codes "URL not found") else none)
    else if is_other existing.user_id b.owner_id
    then some (codes "URL not found")
    else none

abbrev pub lookup_owner_error : Bearer → Lookup → Option Text
lookup_owner_error b (found existing) = owner_error b existing
lookup_owner_error b not_found = some (codes "URL not found")
lookup_owner_error b lookup_error = some (codes "failed to load URL")

unfoldable pub check_ownership : Option Bearer → Lookup → Option Text
check_ownership none existing = some (codes "bearer token required")
check_ownership (some b) existing = if is_admin b then none else lookup_owner_error b existing

-- `checkURLOwnership` of the handler: none is `true`, a status is an answer that ends the request.
abbrev pub lookup_status : Bearer → Lookup → Option ℕ
lookup_status b (found existing) =
    if is_org b
    then (if is_other existing.org_id b.owner_id then some 404 else none)
    else if is_other existing.user_id b.owner_id
    then some 404
    else none
lookup_status b not_found = some 404
lookup_status b lookup_error = some 500

unfoldable pub check_url_ownership : Option Bearer → Lookup → Option ℕ
check_url_ownership none existing = some 401
check_url_ownership (some b) existing = if is_admin b then none else lookup_status b existing

-- The owner that `CreateURL` and `resolveCreateURL` give a new link.
unfoldable pub created_for : Option Bearer → Text → Link
created_for none visibility = record { user_id = none; org_id = none; visibility = visibility }
created_for (some b) visibility =
    if is_user b
    then record { user_id = some b.owner_id; org_id = none; visibility = visibility }
    else if is_org b
    then record { user_id = none; org_id = some b.owner_id; visibility = visibility }
    else record { user_id = none; org_id = none; visibility = visibility }
