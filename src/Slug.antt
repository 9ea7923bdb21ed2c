-- ===== src/Slug.antt =====
-- Organisation slugs in the browser: the "Org slug auto-generation" block of
-- src/server/tmpl/static/js/app.js. `toLowerCase` is the parameter `lower`, since the case tables
-- of Unicode are not part of the repository; texts are lists of UTF-16 code units.
pub mod Shape
pub mod Form
use caslink.Prelude.{
  ℕ, Text, Bool, true, false, [], ◌∷◌, ◌||◌, ◌&&◌, if◌then◌else◌, ◌==◌, is_digit, is_lower, is_nil,
  drop_while, take,
}

-- [a-z0-9]
abbrev pub is_slug_char : ℕ → Bool
is_slug_char c = is_lower c || is_digit c

abbrev pub is_dash : ℕ → Bool
is_dash c = c == b'-'

-- `.replace(/[^a-z0-9]+/g, '-')`: each maximal run of other units becomes one dash. The flag says
-- that the unit before belongs to such a run.
unfoldable pub collapse_from : Bool → Text → Text
collapse_from in_run [] = []
collapse_from in_run (c ∷ s) =
    let kept = c ∷ collapse_from false s in
    let skipped = collapse_from true s in
    let dashed = b'-' ∷ collapse_from true s in
    if is_slug_char c then kept else if in_run then skipped else dashed

-- The branch `-+$` of `.replace(/^-+|-+$/g, '')`.
unfoldable pub trim_end : Text → Text
trim_end [] = []
trim_end (c ∷ s) = let rest = trim_end s in if is_dash c && is_nil rest then [] else c ∷ rest

-- `.replace(/^-+|-+$/g, '')`
unfoldable pub trim_dashes : Text → Text
unfolding trim_end drop_while
trim_dashes s = trim_end (drop_while is_dash s)

module _ (lower : Text → Text) where
  -- The text before `slice`.
  unfoldable pub slug_body : Text → Text
  unfolding collapse_from trim_dashes
  slug_body v = trim_dashes (collapse_from false (lower v))

  -- The value that the handler writes into the slug field.
  unfoldable pub slugify : Text → Text
  unfolding slug_body
  slugify v = take 40 (slug_body v)
