-- ===== src/ShortCode.antt =====
-- The short codes of src/server/service/url.go: `validateCustomCode` and `generateRandomCode`. The
-- random numbers and the query for a code are arguments; both may fail. Texts are bytes.
pub mod Generated
use caslink.Prelude.{
  ℕ, zero, suc, ◌+◌, ◌-◌, Text, codes, text_eq, Bool, true, false, not, List, [], ◌∷◌, ◌||◌, Option,
  none, some, if◌then◌else◌, ltb, length, any, all, is_digit, is_lower, is_upper,
}
use caslink.OrgSlug.{GoText}

pub data CodeError : Type 0 where
  invalid_custom_code reserved_word : CodeError

abbrev pub reserved_words : List Text
reserved_words =
    codes "api"
    ∷ codes "admin"
    ∷ codes "www"
    ∷ codes "app"
    ∷ codes "help"
    ∷ codes "about"
    ∷ codes "setup"
    ∷ codes "login"
    ∷ codes "register"
    ∷ codes "dashboard"
    ∷ codes "health"
    ∷ codes "version"
    ∷ []

abbrev pub is_alphanumeric : ℕ → Bool
is_alphanumeric c = is_lower c || is_upper c || is_digit c

module _ (go : GoText) where
  -- `validateCustomCode`; `none` is `nil`.
  unfoldable pub validate_custom_code : Text → Option CodeError
  validate_custom_code code =
      if ltb (length code) 3 || ltb 50 (length code)
      then some invalid_custom_code
      else if any (text_eq (go.to_lower code)) reserved_words
      then some reserved_word
      else if all is_alphanumeric code
      then none
      else some invalid_custom_code

abbrev pub charset : Text
charset = codes "abcdefghjkmnpqrstuvwxyzABCDEFGHJKMNPQRSTUVWXYZ23456789"

abbrev pub byte_at : ℕ → Text → Option ℕ
byte_at n [] = none
byte_at zero (c ∷ s) = some c
byte_at (suc n) (c ∷ s) = byte_at n s

-- A code, an error of the random numbers or of the query, codes that all exist, or a panic.
pub data CodeResult : Type 0 where
  generated : Text → CodeResult
  random_failed check_failed exhausted panics : CodeResult

-- The bytes of one code, from index `i` on.
abbrev pub with_byte : Option ℕ → CodeResult → CodeResult
with_byte (some c) (generated code) = generated (c ∷ code)
with_byte (some c) other = other
with_byte none other = panics

abbrev pub with_number : Option ℕ → CodeResult → CodeResult
with_number none other = random_failed
with_number (some n) other = with_byte (byte_at n charset) other

unfoldable pub random_code : (ℕ → Option ℕ) → ℕ → ℕ → CodeResult
random_code numbers zero i = generated []
random_code numbers (suc count) i = with_number (numbers i) (random_code numbers count (i + 1))

abbrev pub code_length : ℕ → ℕ
code_length retry = if ltb 8 (6 + retry) then 8 else 6 + retry

abbrev pub by_answer : Option Bool → Text → CodeResult → CodeResult
by_answer none code retried = check_failed
by_answer (some true) code retried = retried
by_answer (some false) code retried = generated code

-- A code is taken if it does not exist.
abbrev pub if_new : (Text → Option Bool) → CodeResult → CodeResult → CodeResult
if_new exists (generated code) retried = by_answer (exists code) code retried
if_new exists other retried = other

module _ (numbers : ℕ → ℕ → Option ℕ) (exists : ℕ → Text → Option Bool) where
  -- The loop, with the number of rounds left.
  unfoldable pub generate_from : ℕ → ℕ → CodeResult
  unfolding random_code
  generate_from zero retry = exhausted
  generate_from (suc rounds) retry =
      if_new (exists retry) (random_code (numbers retry) (code_length retry) 0)
        (generate_from rounds (retry + 1))

  -- `generateRandomCode`; numbers and answers may differ from one retry to the next.
  unfoldable pub generate_random_code : CodeResult
  unfolding generate_from
  generate_random_code = generate_from 10 0
