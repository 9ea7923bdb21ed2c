-- ===== src/UserName/Legal.antt =====
-- When the server accepts a user name.
use caslink.Prelude.{◌≤◌, Text, codes, true, false, ◌≡◌, ◌≢◌, length, contains, All}
use caslink.Blocklist.{username_blocklist}
use caslink.OrgSlug.{GoText}
use caslink.UserName.{critical_terms}
use caslink.UserName.Format.{is_tidy, ends_special, starts_lower}

-- A name of 3 to 32 units that starts with a letter, ends in a letter or digit, has single underscores
-- or dashes between, is not reserved and contains no critical term.
pub record IsLegalName (go : GoText) (name : Text) : Type 0 where
  pub long_enough : 3 ≤ length name
  pub short_enough : length name ≤ 32
  pub starts : starts_lower name ≡ true
  pub tidy : is_tidy true name ≡ true
  pub closed : ends_special name ≡ false
  pub free : All (λ w. name ≢ go.to_lower (codes w)) username_blocklist
  pub harmless : All (λ w. contains (go.to_lower (codes w)) name ≡ false) critical_terms
