-- ===== src/Tests/Keys.antt =====
-- Recovery keys.
use caslink.Prelude.{
  All-mono, ℕ, ◌≡◌, ◌≢◌, refl, sym, ◌∙◌, ap, arith, Text, codes, text_eq, Bool, true, false,
  Bool-cases, inl, inr, ◌==◌, ==_iff, if◌then◌else◌, none, some, List, [], ◌∷◌, ◌++◌, All,
}
use mathlib.Core.List.{append_assoc}
use caslink.OrgSlug.{ascii_text}
use caslink.Totp.{
  recovery_key, join_from, backup_codes_json, Account, enable_totp, remaining_count, IsPlainHash,
  is_hash_char, JsonTexts, use_recovery_key, matched_index,
}
use caslink.Totp.Codes.{codes_json, spend, AreHashes, Holds}
use caslink.Totp.Count.{remaining_count-Holds}
use caslink.Totp.Lists.{AreDistinct}
use caslink.Totp.Spend.{
  LeftHolding, attempts, use_recovery_key-LeftHolding, use_recovery_key-single,
}

-- The texts between quotes; the flag says that one is open.
abbrev cons_first : ℕ → List Text → List Text
cons_first c [] = []
cons_first c (s ∷ ss) = (c ∷ s) ∷ ss

quoted : Bool → Text → List Text
quoted true [] = [] ∷ []
quoted false [] = []
quoted true (c ∷ s) =
    let further = cons_first c (quoted true s) in
    let closed = quoted false s in if c == b'"' then [] ∷ closed else further
quoted false (c ∷ s) = quoted (c == b'"') s

-- What stands in front of the quotes of a list, and the list.
quoted-plain :
    (h s : Text) → All (λ c. c ≢ b'"') h → quoted true (h ++ b'"' ∷ s) ≡ h ∷ quoted false s
unfolding quoted
quoted-plain [] s plain = refl
quoted-plain (c ∷ h) s plain = elim (Bool-cases (c == b'"')) [
  | inl e ↦ absurd (plain.0 ((==_iff c b'"').0 e))
  | inr e ↦ rw (e, quoted-plain h s plain.1) refl
]

no_quote : (h : Text) → IsPlainHash h → All (λ c. c ≢ b'"') h
no_quote [] plain = absurd plain
no_quote (c ∷ h) plain = (
  (λ e. dollar (sym plain.0 ∙ e)),
  All-mono (λ d. is_hash_char d ≡ true) (λ d. d ≢ b'"') h
      (λ d is_char e. quote_is_none (sym (ap is_hash_char e) ∙ is_char)) plain.1,
)
  where
    dollar : ◌≢◌ {A = ℕ} b'$' b'"'
    dollar e = absurd (omega (arith, e))

    quote_is_none : is_hash_char b'"' ≢ true
    quote_is_none e = cc

quoted-join :
    (h : Text) (hs : List Text)
    → All IsPlainHash (h ∷ hs)
    → quoted true (join_from h hs ++ b'"' ∷ b']' ∷ []) ≡ h ∷ hs
unfolding quoted
quoted-join h [] plain = quoted-plain h (b']' ∷ []) (no_quote h plain.0)
quoted-join h (g ∷ hs) plain =
    let behind : Text = join_from g hs ++ b'"' ∷ b']' ∷ [] in
    let one : quoted true (h ++ b'"' ∷ b',' ∷ b'"' ∷ behind) ≡ h ∷ quoted true behind =
      quoted-plain h (b',' ∷ b'"' ∷ behind) (no_quote h plain.0) in
    ap (quoted true) (append_assoc h (b'"' ∷ b',' ∷ b'"' ∷ join_from g hs) (b'"' ∷ b']' ∷ []))
    ∙ one
    ∙ ap (h ∷◌) (quoted-join g hs plain.1)

read_back :
    (h : Text) (hs : List Text)
    → All IsPlainHash (h ∷ hs)
    → some (quoted false (backup_codes_json (h ∷ hs))) ≡ some (h ∷ hs)
unfolding backup_codes_json quoted
read_back h hs plain = ap some (quoted-join h hs plain)

read_empty : some (quoted false (codes "[]")) ≡ some []
unfolding quoted
read_empty = refl

-- Reading what stands between quotes, and writing as the enrolment does.
abbrev plain_json : JsonTexts
plain_json = record {
  unmarshal = λ s. some (quoted false s);
  marshal = codes_json;
  unmarshal_array = read_back;
  unmarshal_empty = read_empty;
  marshal_array = λ h hs plain. refl;
  marshal_empty = refl;
}

-- A hash that is a dollar and the key.
abbrev plain_verify : Text → Text → Bool
plain_verify key [] = false
plain_verify key (c ∷ h) = text_eq key h

abbrev first_bytes : List ℕ
first_bytes = 161 ∷ 178 ∷ 195 ∷ 212 ∷ 229 ∷ 246 ∷ []

abbrev first_key : Text
first_key = codes "a1b2c3d4-e5f6"

abbrev second_key : Text
second_key = codes "00000000-ffff"

abbrev hashes : List Text
hashes = (b'$' ∷ first_key) ∷ (b'$' ∷ second_key) ∷ []

abbrev user : Account
user =
    (enable_totp true true (codes "JBSWY3DPEHPK3PXP") 0 hashes
      (record { row = none; totp_enabled = false })).1

first_key-eq : recovery_key first_bytes ≡ first_key
unfolding recovery_key
first_key-eq = refl

abbrev keys : List Text
keys = first_key ∷ second_key ∷ []

first_plain : IsPlainHash (b'$' ∷ first_key)
first_plain = (refl, ground arith)

second_plain : IsPlainHash (b'$' ∷ second_key)
second_plain = (refl, ground arith)

user-hashes : AreHashes plain_verify keys hashes
user-hashes = ((first_plain, λ key. refl), ((second_plain, λ key. refl), tt))

user-Holds : Holds plain_verify keys user
unfolding enable_totp
user-Holds = record {
  row = _;
  hashes = hashes;
  is_row = refl;
  is_enabled = refl;
  are_codes = refl;
  are_hashes = user-hashes;
}

use_recovery_key-LeftHolding_example :
    LeftHolding ascii_text plain_json plain_verify
      (spend second_key keys)
      (use_recovery_key ascii_text plain_json plain_verify (codes "00000000-FFFF") user)
use_recovery_key-LeftHolding_example =
    use_recovery_key-LeftHolding ascii_text plain_json plain_verify (codes "00000000-FFFF") keys
      user user-Holds

remaining_count-Holds_example : remaining_count user ≡ some 2
remaining_count-Holds_example = remaining_count-Holds plain_verify keys user user-Holds

-- The user with one key left.
abbrev left_user : Account
left_user = (enable_totp true true (codes "JBSWY3DPEHPK3PXP") 0 ((b'$' ∷ second_key) ∷ []) user).1

use_first : use_recovery_key ascii_text plain_json plain_verify first_key user ≡ some left_user
unfolding use_recovery_key enable_totp matched_index text_eq backup_codes_json quoted
use_first = refl

keys-distinct : AreDistinct keys
unfolding spend text_eq
keys-distinct = (refl, (refl, tt))

use_recovery_key-single_example :
    use_recovery_key ascii_text plain_json plain_verify first_key
      (attempts ascii_text plain_json plain_verify (second_key ∷ first_key ∷ []) left_user).1
    ≡ none
use_recovery_key-single_example =
    use_recovery_key-single ascii_text plain_json plain_verify first_key
      (second_key ∷ first_key ∷ []) keys user left_user user-Holds keys-distinct use_first
