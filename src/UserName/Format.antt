-- ===== src/UserName/Format.antt =====
-- The format of a user name: the two expressions of the source against a direct description.
use caslink.Prelude.{
  ℕ, Text, codes, Bool, true, false, not, [], ◌∷◌, ◌||◌, ◌&&◌, ◌≡◌, refl, arith, contains, ◌==◌, ap,
  ◌∙◌, strip_prefix, is_lower,
}
use caslink.Slug.{is_slug_char, is_dash}
use caslink.OrgSlug.Legal.{regroup, regroup_first}
use caslink.UserName.{is_underscore, name_rest, match_username, has_consecutive}

abbrev pub is_special : ℕ → Bool
is_special c = is_underscore c || is_dash c

-- Only letters, digits, underscores and dashes, no two of the latter in a row; `after_special` says
-- what stands before.
abbrev pub is_tidy : Bool → Text → Bool
is_tidy after_special [] = true
is_tidy after_special (c ∷ s) =
    (is_slug_char c || (is_special c && not after_special)) && is_tidy (is_special c) s

abbrev pub ends_special : Text → Bool
ends_special [] = false
ends_special (c ∷ []) = is_special c
ends_special (c ∷ d ∷ s) = ends_special (d ∷ s)

abbrev pub starts_lower : Text → Bool
starts_lower [] = false
starts_lower (c ∷ s) = is_lower c

contains_two :
    (a b c d : ℕ) (s : Text)
    → contains (a ∷ b ∷ []) (c ∷ d ∷ s) ≡ ((c == a && d == b) || contains (a ∷ b ∷ []) (d ∷ s))
unfolding contains strip_prefix
contains_two a b c d s = ground arith

contains_two_one : (a b c : ℕ) → contains (a ∷ b ∷ []) (c ∷ []) ≡ false
unfolding contains strip_prefix
contains_two_one a b c = ground arith

four_ways :
    (u v u' v' p q r t : Bool)
    → (((((u && u') || p) || ((v && v') || q)) || ((u && v') || r)) || ((v && u') || t))
      ≡ (((u || v) && (u' || v')) || (((p || q) || r) || t))
four_ways u v u' v' p q r t = ground arith

has_consecutive-cons :
    (c d : ℕ) (s : Text)
    → has_consecutive (c ∷ d ∷ s) ≡ ((is_special c && is_special d) || has_consecutive (d ∷ s))
unfolding has_consecutive
has_consecutive-cons c d s =
    rw
      (
        contains_two b'_' b'_' c d s,
        contains_two b'-' b'-' c d s,
        contains_two b'_' b'-' c d s,
        contains_two b'-' b'_' c d s,
      )
      (four_ways (is_underscore c) (is_dash c) (is_underscore d) (is_dash d)
        (contains (codes "__") (d ∷ s)) (contains (codes "--") (d ∷ s))
        (contains (codes "_-") (d ∷ s)) (contains (codes "-_") (d ∷ s)))

has_consecutive_one : (c : ℕ) → has_consecutive (c ∷ []) ≡ false
unfolding has_consecutive
has_consecutive_one c =
    rw
      (
        contains_two_one b'_' b'_' c,
        contains_two_one b'-' b'-' c,
        contains_two_one b'_' b'-' c,
        contains_two_one b'-' b'_' c,
      )
      refl

slug_char-ne-special : (c : ℕ) → (is_slug_char c && is_special c) ≡ false
slug_char-ne-special c = ground arith

lower-ne-special : (c : ℕ) → (is_lower c && is_special c) ≡ false
lower-ne-special c = ground arith

or_assoc : (p u v : Bool) → ((p || u) || v) ≡ (p || (u || v))
or_assoc p u v = ground arith

one_unit : (p q : Bool) → (p && q) ≡ false → (p && true) ≡ (((p || q) && true) && not q)
one_unit p q h = ground arith

-- Behind a letter or digit, what the two expressions leave.
name_rest-and-not-has_consecutive :
    (c : ℕ) (s : Text)
    → (name_rest (c ∷ s) && not (has_consecutive (c ∷ s))) ≡ (
        ((is_slug_char c || is_special c) && is_tidy (is_special c) s)
        && not (ends_special (c ∷ s)))
name_rest-and-not-has_consecutive c [] =
    rw (has_consecutive_one c) (one_unit (is_slug_char c) (is_special c) (slug_char-ne-special c))
name_rest-and-not-has_consecutive c (d ∷ s) =
    rw (has_consecutive-cons c d s, or_assoc (is_slug_char c) (is_underscore c) (is_dash c))
      (regroup (is_slug_char c) (is_special c) (is_slug_char d) (is_special d) (name_rest (d ∷ s))
        (has_consecutive (d ∷ s)) (is_tidy (is_special d) s) (ends_special (d ∷ s))
        (slug_char-ne-special d) (name_rest-and-not-has_consecutive d s))

letter_first :
    (l p q rest : Bool)
    → (l && q) ≡ false
    → (l && not p) ≡ false
    → (((l || (q && false)) && rest)) ≡ (l && ((p || (q && false)) && rest))
letter_first true false q rest h k = cc
letter_first l p q rest h k = ground arith

lower-slug_char : (c : ℕ) → (is_lower c && not (is_slug_char c)) ≡ false
lower-slug_char c = ground arith

and_assoc : (a b c : Bool) → ((a && b) && c) ≡ (a && (b && c))
and_assoc a b c = ground arith

-- Two descriptions of the format of a name that has two units or more.
pub format-eq-is_tidy :
    (c d : ℕ) (s : Text)
    → (match_username (c ∷ d ∷ s) && not (has_consecutive (c ∷ d ∷ s)))
      ≡ ((is_lower c && is_tidy true (c ∷ d ∷ s)) && not (ends_special (c ∷ d ∷ s)))
unfolding match_username
format-eq-is_tidy c d s = rw (has_consecutive-cons c d s) (
    regroup_first (is_lower c) (is_special c) (is_slug_char d) (is_special d) (name_rest (d ∷ s))
      (has_consecutive (d ∷ s)) (is_tidy (is_special d) s) (ends_special (d ∷ s))
      (lower-ne-special c) (slug_char-ne-special d) (name_rest-and-not-has_consecutive d s)
    ∙ ap (λ b. b && not (ends_special (d ∷ s)))
        (letter_first (is_lower c) (is_slug_char c) (is_special c) (is_tidy (is_special c) (d ∷ s))
          (lower-ne-special c) (lower-slug_char c)))
