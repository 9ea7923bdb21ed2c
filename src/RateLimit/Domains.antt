-- ===== src/RateLimit/Domains.antt =====
-- The rules of `RateLimitMiddleware` in force: how many domain verifications one address gets.
use mathlib.Core.Bool.{false≢true}
use caslink.Prelude.{
  ℕ, Text, codes, text_eq, Bool, true, false, [], ◌∷◌, ◌++◌, ◌&&◌, ◌||◌, ◌==◌, ◌≡◌, inl, inr, refl,
  sym, ◌∙◌, arith, Option, none, some, if◌then◌else◌, All, Bool-cases, contains,
}
use caslink.RateLimit.{Rule, hour, rule_for, rule_within, has_suffix}

-- The two units that can follow an address in a key.
abbrev pub is_separator : ℕ → Bool
is_separator c = c == b'/' || c == b'|'

abbrev pub starts_separated : Text → Bool
starts_separated [] = false
starts_separated (c ∷ s) = is_separator c

abbrev pub starts_slash : Text → Bool
starts_slash [] = false
starts_slash (c ∷ s) = c == b'/'

slash_separates : (s : Text) → starts_slash s ≡ true → starts_separated s ≡ true
slash_separates [] h = h
slash_separates (c ∷ s) h = ground arith

-- An address without them.
abbrev pub IsAddress : Text → Type 0
IsAddress ip = All (λ c. is_separator c ≡ false) ip

pub text_eq-append :
    (a b s t : Text)
    → IsAddress a
    → IsAddress b
    → starts_separated s ≡ true
    → starts_separated t ≡ true
    → text_eq (a ++ s) (b ++ t) ≡ (text_eq a b && text_eq s t)
unfolding text_eq
text_eq-append [] [] s t ha hb hs ht = refl
text_eq-append [] (d ∷ b) [] t ha hb hs ht = cc
text_eq-append [] (d ∷ b) (c ∷ s) t ha hb hs ht = ground (arith, hb.0)
text_eq-append (c ∷ a) [] s [] ha hb hs ht = cc
text_eq-append (c ∷ a) [] s (d ∷ t) ha hb hs ht = ground (arith, ha.0)
text_eq-append (c ∷ a) (d ∷ b) s t ha hb hs ht =
    ground (arith, text_eq-append a b s t ha.1 hb.1 hs ht)

abbrev pub verify_suffix : Text
verify_suffix = codes "|domain_verify"

abbrev pub verify_name : Text
verify_name = codes "domain_verify"

-- What a rule that is found looks like: the key is the address and a text behind it, which is that of
-- the verifications exactly if the rule is.
pub record IsFound (ip : Text) (key : Text) (rule : Rule) : Type 0 where
  pub suffix : Text
  pub built : key ≡ ip ++ suffix
  pub separated : starts_separated suffix ≡ true
  pub is_verify : text_eq suffix verify_suffix ≡ text_eq rule.name verify_name
  pub limits : text_eq rule.name verify_name ≡ true → (rule.limit ≡ 15) × (rule.window ≡ hour)

abbrev pub Found : Text → Option (Text × Rule) → Type 0
Found ip none = Unit
Found ip (some (key, rule)) = IsFound ip key rule

path_ne_suffix : (path : Text) → starts_slash path ≡ true → text_eq path verify_suffix ≡ false
unfolding text_eq
path_ne_suffix [] h = refl
path_ne_suffix (c ∷ s) h = ground arith

by_path :
    (ip path : Text) (rule : Rule)
    → starts_slash path ≡ true
    → text_eq rule.name verify_name ≡ false
    → IsFound ip (ip ++ path) rule
by_path ip path rule h k = record {
  suffix = path;
  built = refl;
  separated = slash_separates path h;
  is_verify = path_ne_suffix path h ∙ sym k;
  limits = λ e. absurd (false≢true (sym k ∙ e));
}

if_Found :
    (ip path : Text) (b : Bool) (rule : Rule) (others : Option (Text × Rule))
    → starts_slash path ≡ true
    → text_eq rule.name verify_name ≡ false
    → Found ip others
    → Found ip (if b then some (ip ++ path, rule) else others)
if_Found ip path true rule others h k f = by_path ip path rule h k
if_Found ip path false rule others h k f = f

rule_within-Found : (ip path : Text) → starts_slash path ≡ true → Found ip (rule_within ip path)
unfolding text_eq
rule_within-Found ip path h = if_Found ip path (contains (codes "/login") path) _ _ h refl (
    if_Found ip path (contains (codes "/register") path) _ _ h refl (
      if_Found ip path (contains (codes "/password") path) _ _ h refl
        (if_Found ip path (contains (codes "/2fa") path) _ _ h refl tt)))

pub rule_for-Found : (ip path : Text) → starts_slash path ≡ true → Found ip (rule_for ip path)
unfolding rule_for text_eq
rule_for-Found ip path h = elim (Bool-cases (has_suffix (codes "/domains") path)) [
  | inl add ↦ rw add (record {
    suffix = codes "|domain_add";
    built = refl;
    separated = refl;
    is_verify = refl;
    limits = λ e. absurd (false≢true e);
  })
  | inr not_add ↦
      elim (Bool-cases (contains (codes "/domains/") path && has_suffix (codes "/verify") path)) [
        | inl verify ↦
            rw (not_add, verify)
              (record {
                suffix = verify_suffix;
                built = refl;
                separated = refl;
                is_verify = refl;
                limits = λ e. (refl, refl);
              })
        | inr not_verify ↦ rw (not_add, not_verify) (rule_within-Found ip path h)
      ]
]
