-- ===== src/OrgSlug.antt =====
-- Organisation slugs on the server: src/server/validate/slug.go, and `generateSlug` of
-- src/server/service/org.go. Texts are lists of bytes. A run of runes outside [a-z0-9] is the same
-- run of bytes, since in UTF-8 a byte below 128 is always a character of its own.
pub mod Legal
pub mod Agreement
use caslink.Prelude.{
  ℕ, ◌<◌, ◌≤◌, Text, codes, text_eq, Bool, true, false, [], ◌∷◌, ◌||◌, ◌&&◌, ◌≡◌, refl, map, All,
  Option, none, some, String, List, if◌then◌else◌, ltb, any, length, take, contains,
}
use caslink.Platform.{IsAscii, lower_unit}
use caslink.Blocklist.{username_blocklist}
use caslink.Slug.{is_slug_char, is_dash, collapse_from, trim_dashes}

-- `strings.ToLower` and `strings.TrimSpace` of Go, which stand on the Unicode tables, with their
-- documented behaviour on ASCII and on text of visible ASCII.
pub record GoText : Type 0 where
  pub to_lower : Text → Text
  pub trim_space : Text → Text
  pub lower_ascii : (t : Text) → IsAscii t → to_lower t ≡ map lower_unit t
  pub trim_visible : (t : Text) → All (λ c. (32 < c) × (c < 127)) t → trim_space t ≡ t

-- The text that knows ASCII only and trims nothing.
abbrev pub ascii_text : GoText
ascii_text = record {
  to_lower = map lower_unit;
  trim_space = λ t. t;
  lower_ascii = λ t h. refl;
  trim_visible = λ t h. refl;
}

pub data SlugError : Type 0 where
  bad_length bad_format consecutive_hyphens : SlugError
  reserved : String → SlugError

abbrev pub report : Option String → Option SlugError
report none = none
report (some blocked) = some (reserved blocked)

-- `orgSlugRegex`, ^[a-z0-9]([a-z0-9-]*[a-z0-9])?$: what follows the first character.
abbrev pub slug_rest : Text → Bool
slug_rest [] = true
slug_rest (c ∷ []) = is_slug_char c
slug_rest (c ∷ d ∷ s) = (is_slug_char c || is_dash c) && slug_rest (d ∷ s)

unfoldable pub match_org_slug : Text → Bool
match_org_slug [] = false
match_org_slug (c ∷ s) = is_slug_char c && slug_rest s

-- `-+` replaced by `-`; the flag says that a dash stands before.
unfoldable pub squeeze_dashes : Bool → Text → Text
squeeze_dashes after_dash [] = []
squeeze_dashes after_dash (c ∷ s) =
    let rest = squeeze_dashes (is_dash c) s in if is_dash c && after_dash then rest else c ∷ rest

module _ (go : GoText) where
  open go use {to_lower, trim_space}

  -- The loop over the blocklist: the first word that equals the slug.
  unfoldable pub find_reserved : Text → List String → Option String
  find_reserved slug [] = none
  find_reserved slug (blocked ∷ rest) =
      if text_eq slug (to_lower (codes blocked)) then some blocked else find_reserved slug rest

  -- The checks of `ValidateOrgSlug` on the normalised slug; `none` is `nil`.
  unfoldable pub check_org_slug : Text → Option SlugError
  check_org_slug slug =
      if ltb (length slug) 2 || ltb 39 (length slug)
      then some bad_length
      else if match_org_slug slug
      then (if contains (codes "--") slug
          then some consecutive_hyphens
          else report (find_reserved slug username_blocklist))
      else some bad_format

  unfoldable pub validate_org_slug : Text → Option SlugError
  unfolding check_org_slug
  validate_org_slug slug = check_org_slug (to_lower (trim_space slug))

  unfoldable pub generate_slug : Text → Text
  generate_slug name =
      let slug = trim_dashes (squeeze_dashes false (collapse_from false (to_lower name))) in
      if ltb 39 (length slug) then trim_dashes (take 39 slug) else slug
