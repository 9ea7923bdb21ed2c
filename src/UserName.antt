-- ===== src/UserName.antt =====
-- User names on the server: `ValidateUsername` of src/server/validate/username.go. Texts are lists of
-- bytes.
pub mod Namespace
pub mod Format
pub mod Legal
pub mod Email
use caslink.Prelude.{
  ℕ, Text, codes, text_eq, Bool, true, false, [], ◌∷◌, ◌||◌, ◌&&◌, Option, none, some, String, List,
  if◌then◌else◌, ◌==◌, ltb, length, contains, is_lower,
}
use caslink.Blocklist.{username_blocklist}
use caslink.Slug.{is_slug_char, is_dash}
use caslink.OrgSlug.{GoText, find_reserved}

pub data NameError : Type 0 where
  too_short too_long bad_format consecutive : NameError
  blocked : String → NameError

abbrev pub is_underscore : ℕ → Bool
is_underscore c = c == b'_'

-- `usernameRegex`, ^[a-z][a-z0-9_-]*[a-z0-9]$: what follows the first character.
abbrev pub name_rest : Text → Bool
name_rest [] = false
name_rest (c ∷ []) = is_slug_char c
name_rest (c ∷ d ∷ s) = (is_slug_char c || is_underscore c || is_dash c) && name_rest (d ∷ s)

unfoldable pub match_username : Text → Bool
match_username [] = false
match_username (c ∷ s) = is_lower c && name_rest s

-- `consecutiveRegex`, __|--|_-|-_
unfoldable pub has_consecutive : Text → Bool
has_consecutive s =
    contains (codes "__") s
    || contains (codes "--") s
    || contains (codes "_-") s
    || contains (codes "-_") s

abbrev pub critical_terms : List String
critical_terms = "admin" ∷ "root" ∷ "system" ∷ "mod" ∷ "official" ∷ "verified" ∷ []

abbrev pub report_blocked : Option String → Option String → Option NameError
report_blocked (some word) critical = some (blocked word)
report_blocked none (some term) = some (blocked term)
report_blocked none none = none

module _ (go : GoText) where
  open go use {to_lower, trim_space}

  -- The loop over the critical terms: the first one that occurs in the name.
  unfoldable pub find_critical : Text → List String → Option String
  find_critical username [] = none
  find_critical username (critical ∷ rest) =
      if contains (to_lower (codes critical)) username
      then some critical
      else find_critical username rest

  -- The checks of `ValidateUsername` on the normalised name; `none` is `nil`.
  unfoldable pub check_username : Text → Option NameError
  check_username username =
      if ltb (length username) 3
      then some too_short
      else if ltb 32 (length username)
      then some too_long
      else if match_username username
      then (if has_consecutive username
          then some consecutive
          else report_blocked (find_reserved go username username_blocklist)
              (find_critical username critical_terms))
      else some bad_format

  unfoldable pub validate_username : Text → Bool → Option NameError
  unfolding check_username
  validate_username username is_admin =
      if is_admin then none else check_username (to_lower (trim_space username))
