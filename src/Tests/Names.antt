-- ===== src/Tests/Names.antt =====
-- User names, short codes and the install prompt.
use caslink.Prelude.{
  zero, suc, [], arith, inl, inr, Text, Option, Bool, ℕ, codes, true, false, ◌≡◌, ◌⊎◌, ◌↔◌, refl,
  none, some, text_eq, contains, strip_prefix,
}
use caslink.Blocklist.{username_blocklist}
use caslink.OrgSlug.{ascii_text, find_reserved}
use caslink.UserName.{validate_username, match_username, has_consecutive, find_critical}
use caslink.UserName.Email.{validate_email, required}
use caslink.UserName.Email.Shape.{IsAddress, validate_email_iff}
use caslink.ShortCode.{generated, exhausted, generate_random_code}
use caslink.ShortCode.Generated.{IsNewCode, AreTaken, generate_random_code_lem}

-- An accepted name, run.
jane_accepted : validate_username ascii_text (codes "Jane-Doe") false ≡ none
unfolding validate_username find_reserved username_blocklist match_username has_consecutive
    find_critical text_eq contains strip_prefix
jane_accepted = refl

-- The sixth letter always, and a collision at the first try only.
abbrev sixth : ℕ → ℕ → Option ℕ
sixth retry k = some 5

abbrev taken_once : ℕ → Text → Option Bool
taken_once zero code = some true
taken_once (suc retry) code = some false

second_try : generate_random_code sixth taken_once ≡ generated (codes "fffffff")
unfolding generate_random_code
second_try = refl

taken_or_not :
    (retry : ℕ) (code : Text)
    → (taken_once retry code ≡ some true) ⊎ (taken_once retry code ≡ some false)
taken_or_not zero code = inl refl
taken_or_not (suc retry) code = inr refl

generate_random_code_lem_example :
    ((code : Text) × (generate_random_code sixth taken_once ≡ generated code)
      × IsNewCode ascii_text taken_once code)
    ⊎ ((generate_random_code sixth taken_once ≡ exhausted) × AreTaken taken_once 0 10)
generate_random_code_lem_example =
    generate_random_code_lem ascii_text sixth taken_once (λ r k. (5, omega arith, refl))
      taken_or_not

validate_email_iff_example :
    ((validate_email ascii_text (codes "Jane@mail.example.org") ≡ none)
      ↔ IsAddress (codes "jane@mail.example.org"))
    × ((validate_email ascii_text (codes "Jane@mail.example.org") ≡ some required)
        ↔ (codes "jane@mail.example.org" ≡ []))
validate_email_iff_example = validate_email_iff ascii_text (codes "Jane@mail.example.org")
