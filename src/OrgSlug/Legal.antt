-- ===== src/OrgSlug/Legal.antt =====
-- When the server accepts a slug.
use caslink.Prelude.{
  ℕ, ◌≤◌, Text, codes, Bool, true, false, not, [], ◌∷◌, ◌||◌, ◌&&◌, ◌≡◌, ◌↔◌, refl, arith, String,
  Option, none, some, length, contains, is_nil,
}
use caslink.Blocklist.{username_blocklist}
use caslink.Slug.{is_slug_char, is_dash}
use caslink.Slug.Shape.{is_clean, ends_in_dash}
use caslink.OrgSlug.{
  GoText, match_org_slug, slug_rest, report, find_reserved, check_org_slug, validate_org_slug,
}

-- A slug of 2 to 39 letters, digits and single inner dashes that is no reserved name.
pub record IsLegal (go : GoText) (slug : Text) : Type 0 where
  pub long_enough : 2 ≤ length slug
  pub short_enough : length slug ≤ 39
  pub clean : is_clean true slug ≡ true
  pub closed : ends_in_dash slug ≡ false
  pub free : find_reserved go slug username_blocklist ≡ none

contains-dashes :
    (c d : ℕ) (s : Text)
    → contains (codes "--") (c ∷ d ∷ s)
      ≡ ((is_dash c && is_dash d) || contains (codes "--") (d ∷ s))
unfolding contains
contains-dashes c d s = ground arith

pub slug_char-ne-dash : (c : ℕ) → (is_slug_char c && is_dash c) ≡ false
slug_char-ne-dash c = ground arith

pub regroup :
    (p q p' q' rest twice clean open_end : Bool)
    → (p' && q') ≡ false
    → (rest && not twice) ≡ (((p' || q') && clean) && not open_end)
    → (((p || q) && rest) && not ((q && q') || twice))
      ≡ (((p || q) && ((p' || (q' && not q)) && clean)) && not open_end)
regroup true true true true rest twice clean open_end h k = cc
regroup p q p' q' rest twice clean open_end h k = ground arith

pub regroup_first :
    (p q p' q' rest twice clean open_end : Bool)
    → (p && q) ≡ false
    → (p' && q') ≡ false
    → (rest && not twice) ≡ (((p' || q') && clean) && not open_end)
    → ((p && rest) && not ((q && q') || twice))
      ≡ (((p || (q && false)) && ((p' || (q' && not q)) && clean)) && not open_end)
regroup_first true true p' q' rest twice clean open_end h k l = cc
regroup_first p q true true rest twice clean open_end h k l = cc
regroup_first p q p' q' rest twice clean open_end h k l = ground arith

pub regroup_one : (p q : Bool) → (p && q) ≡ false → (p && true) ≡ (((p || q) && true) && not q)
regroup_one p q h = ground arith

pub regroup_single :
    (p q : Bool)
    → (p && q) ≡ false
    → ((p && true) && true) ≡ (((p || (q && false)) && true) && not q)
regroup_single p q h = ground arith

contains-dashes_one : (c : ℕ) → contains (codes "--") (c ∷ []) ≡ false
unfolding contains
contains-dashes_one c = ground arith

-- Behind a letter or digit, what the expression and the search for "--" leave.
slug_rest-and-not-contains :
    (c : ℕ) (s : Text)
    → (slug_rest (c ∷ s) && not (contains (codes "--") (c ∷ s)))
      ≡ (((is_slug_char c || is_dash c) && is_clean (is_dash c) s) && not (ends_in_dash (c ∷ s)))
slug_rest-and-not-contains c [] =
    rw (contains-dashes_one c) (regroup_one (is_slug_char c) (is_dash c) (slug_char-ne-dash c))
slug_rest-and-not-contains c (d ∷ s) = rw (contains-dashes c d s) (
    regroup (is_slug_char c) (is_dash c) (is_slug_char d) (is_dash d) (slug_rest (d ∷ s))
      (contains (codes "--") (d ∷ s)) (is_clean (is_dash d) s) (ends_in_dash (d ∷ s))
      (slug_char-ne-dash d) (slug_rest-and-not-contains d s))

-- Two descriptions of the format: the expression without "--", and clean with no dash at its ends.
format-eq-is_clean :
    (t : Text)
    → (match_org_slug t && not (contains (codes "--") t))
      ≡ (not (is_nil t) && (is_clean true t && not (ends_in_dash t)))
unfolding match_org_slug
format-eq-is_clean [] = refl
format-eq-is_clean (c ∷ []) =
    rw (contains-dashes_one c) (regroup_single (is_slug_char c) (is_dash c) (slug_char-ne-dash c))
format-eq-is_clean (c ∷ d ∷ s) = rw (contains-dashes c d s) (
    regroup_first (is_slug_char c) (is_dash c) (is_slug_char d) (is_dash d) (slug_rest (d ∷ s))
      (contains (codes "--") (d ∷ s)) (is_clean (is_dash d) s) (ends_in_dash (d ∷ s))
      (slug_char-ne-dash c) (slug_char-ne-dash d) (slug_rest-and-not-contains d s))

module _ (go : GoText) where
  report-eq-none : (w : Option String) → report w ≡ none → w ≡ none
  report-eq-none none h = refl
  report-eq-none (some b) h = cc

  check_org_slug_sound : (t : Text) → check_org_slug go t ≡ none → IsLegal go t
  unfolding check_org_slug
  check_org_slug_sound t h =
      let e = format-eq-is_clean t in
      record {
        long_enough = ground arith;
        short_enough = ground arith;
        clean = ground arith;
        closed = ground arith;
        free = report-eq-none _ (ground arith);
      }

  check_org_slug_complete : (t : Text) → IsLegal go t → check_org_slug go t ≡ none
  unfolding check_org_slug
  check_org_slug_complete [] l = absurd (omega (arith, l.long_enough))
  check_org_slug_complete (c ∷ s) l = let e = format-eq-is_clean (c ∷ s) in ground arith

  -- On every text, `ValidateOrgSlug` returns nil exactly if the lower-case text without surrounding
  -- space has 2 to 39 letters, digits and single inner dashes and is no reserved name.
  pub validate_org_slug_iff :
      (slug : Text)
      → (validate_org_slug go slug ≡ none) ↔ IsLegal go (go.to_lower (go.trim_space slug))
  unfolding validate_org_slug
  validate_org_slug_iff slug = (
    check_org_slug_sound (go.to_lower (go.trim_space slug)),
    check_org_slug_complete (go.to_lower (go.trim_space slug)),
  )
