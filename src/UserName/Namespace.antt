-- ===== src/UserName/Namespace.antt =====
-- Users and organisations share a namespace: which user names could be slugs too, and which names no
-- user can take.
use caslink.Prelude.{
  ◌≤◌, Text, codes, true, false, [], ◌∷◌, ◌≡◌, ◌≢◌, refl, arith, String, Option, none, some, length,
  contains, All,
}
use caslink.Blocklist.{username_blocklist}
use caslink.OrgSlug.{
  GoText, match_org_slug, slug_rest, find_reserved, check_org_slug, validate_org_slug,
}
use caslink.UserName.{
  name_rest, match_username, has_consecutive, critical_terms, report_blocked, find_critical,
  check_username, validate_username,
}

slug_rest_of_name_rest :
    (s : Text) → All (λ c. c ≢ b'_') s → name_rest s ≡ true → slug_rest s ≡ true
slug_rest_of_name_rest [] u h = cc
slug_rest_of_name_rest (c ∷ []) u h = h
slug_rest_of_name_rest (c ∷ d ∷ s) u h = ground (arith, u.0, slug_rest_of_name_rest (d ∷ s) u.1)

match_org_slug_of_match_username :
    (s : Text) → All (λ c. c ≢ b'_') s → match_username s ≡ true → match_org_slug s ≡ true
unfolding match_username match_org_slug
match_org_slug_of_match_username [] u h = cc
match_org_slug_of_match_username (c ∷ s) u h = ground (arith, slug_rest_of_name_rest s u.1)

no_dashes : (s : Text) → has_consecutive s ≡ false → contains (codes "--") s ≡ false
unfolding has_consecutive
no_dashes s h = ground arith

-- What a name that passes the checks has.
pub record Passes (go : GoText) (name : Text) : Type 0 where
  pub long_enough : 3 ≤ length name
  pub short_enough : length name ≤ 32
  pub matches : match_username name ≡ true
  pub spread : has_consecutive name ≡ false
  pub free : find_reserved go name username_blocklist ≡ none
  pub harmless : find_critical go name critical_terms ≡ none

report_blocked-eq-none : (w c : Option String) → report_blocked w c ≡ none → (w ≡ none) × (c ≡ none)
report_blocked-eq-none none none h = (refl, refl)
report_blocked-eq-none none (some t) h = cc
report_blocked-eq-none (some w) c h = cc

pub check_username-Passes : (go : GoText) (t : Text) → check_username go t ≡ none → Passes go t
unfolding check_username
check_username-Passes go t h =
    let (free, harmless) =
      report_blocked-eq-none (find_reserved go t username_blocklist)
        (find_critical go t critical_terms) (ground arith) in
    record {
      long_enough = ground arith;
      short_enough = ground arith;
      matches = ground arith;
      spread = ground arith;
      free = free;
      harmless = harmless;
    }

check_org_slug_of_Passes :
    (go : GoText) (t : Text) → All (λ c. c ≢ b'_') t → Passes go t → check_org_slug go t ≡ none
unfolding check_org_slug
check_org_slug_of_Passes go t u k =
    let long = k.long_enough in
    let short = k.short_enough in
    let matched = match_org_slug_of_match_username t u k.matches in
    let single = no_dashes t k.spread in rw (matched, single, k.free) (ground arith)

module _ (go : GoText) where
  -- A user name that is accepted, and whose lower-case text without surrounding space has no
  -- underscore, is accepted as the slug of an organisation too.
  pub validate_org_slug_of_username :
      (name : Text)
      → validate_username go name false ≡ none
      → All (λ c. c ≢ b'_') (go.to_lower (go.trim_space name))
      → validate_org_slug go name ≡ none
  unfolding validate_username validate_org_slug
  validate_org_slug_of_username name h u =
      check_org_slug_of_Passes go _ u (check_username-Passes go _ h)
