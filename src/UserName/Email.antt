-- ===== src/UserName/Email.antt =====
-- `ValidateEmail` of src/server/validate/username.go. The parts of its regular expression are tried
-- at each byte, as a search with backtracking does.
pub mod Shape
use caslink.Prelude.{
  Text, codes, Bool, true, false, [], ◌∷◌, ◌||◌, ◌&&◌, ◌==◌, leb, Option, none, some, if◌then◌else◌,
  length, all, any, is_lower, is_nil, ℕ,
}
use caslink.Slug.{is_slug_char}
use caslink.OrgSlug.{GoText}

pub data EmailError : Type 0 where
  required invalid : EmailError

-- [a-z0-9._%+-]
abbrev pub is_local : ℕ → Bool
is_local c = is_slug_char c || any (c ==◌) (codes "._%+-")

-- [a-z0-9.-]
abbrev pub is_host : ℕ → Bool
is_host c = is_slug_char c || any (c ==◌) (codes ".-")

-- \.[a-z]{2,}$
abbrev pub match_top : Text → Bool
match_top [] = false
match_top (c ∷ s) = c == b'.' && (leb 2 (length s) && all is_lower s)

-- [a-z0-9.-]+ and what follows.
unfoldable pub match_host : Text → Bool
match_host [] = false
match_host (c ∷ s) = is_host c && (match_top s || match_host s)

-- The @ and what follows.
abbrev pub match_at : Text → Bool
match_at [] = false
match_at (c ∷ s) = c == b'@' && match_host s

-- [a-z0-9._%+-]+ and what follows.
unfoldable pub match_email : Text → Bool
unfolding match_host
match_email [] = false
match_email (c ∷ s) = is_local c && (match_at s || match_email s)

unfoldable pub check_email : Text → Option EmailError
unfolding match_email
check_email email =
    if is_nil email then some required else if match_email email then none else some invalid

-- `ValidateEmail`; `none` is `nil`.
unfoldable pub validate_email : GoText → Text → Option EmailError
unfolding check_email
validate_email go email = check_email (go.to_lower (go.trim_space email))
