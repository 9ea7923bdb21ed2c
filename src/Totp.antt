-- ===== src/Totp.antt =====
-- Two-factor authentication of one user, src/server/service/totp.go: the recovery keys, the row of
-- `totp_secrets` and the mirrored column of `users`. The text of Go, the JSON of a list of texts and
-- `verifyPasswordArgon2id`, which is a few calls of the Argon2 library, are arguments, and so is which
-- writes of an enrolment succeed. `UseRecoveryKey` is one transaction, here one that commits.
pub mod Codes
pub mod Count
pub mod Lists
pub mod Spend
pub mod Enrol
use caslink.Prelude.{
  ℕ, zero, suc, ◌+◌, ◌-◌, ◌/◌, ◌%◌, ◌<◌, ◌≤◌, ◌≡◌, ◌≢◌, Text, codes, Bool, true, false, ◌&&◌, ◌||◌,
  ◌==◌, ltb, if◌then◌else◌, Option, none, some, List, [], ◌∷◌, ◌++◌, map, length, take, All, is_nil,
  drop_while, is_lower, is_upper, is_digit, any,
}
use caslink.OrgSlug.{GoText}

-- `hex.EncodeToString`
abbrev pub hex_digit : ℕ → ℕ
hex_digit n = if ltb n 10 then n + b'0' else n - 10 + b'a'

abbrev pub hex : List ℕ → Text
hex [] = []
hex (b ∷ bs) = hex_digit (b / 16) ∷ hex_digit (b % 16) ∷ hex bs

abbrev pub drop : ℕ → Text → Text
drop zero s = s
drop (suc n) [] = []
drop (suc n) (c ∷ s) = drop n s

-- One key of `GenerateRecoveryKeys`, from six random bytes.
unfoldable pub recovery_key : List ℕ → Text
recovery_key bytes = take 8 (hex bytes) ++ b'-' ∷ drop 8 (hex bytes)

-- `strings.Join(hashes, "\",\"")`
abbrev pub join_from : Text → List Text → Text
join_from h [] = h
join_from h (g ∷ hs) = h ++ b'"' ∷ b',' ∷ b'"' ∷ join_from g hs

abbrev pub join : List Text → Text
join [] = []
join (h ∷ hs) = join_from h hs

-- What `EnableTOTP` stores.
unfoldable pub backup_codes_json : List Text → Text
backup_codes_json hashes = b'[' ∷ b'"' ∷ join hashes ++ b'"' ∷ b']' ∷ []

-- A row of `totp_secrets`.
pub record Row : Type 0 where
  pub secret : Text
  pub enabled : Bool
  pub backup_codes : Text
  pub key_version : ℕ

-- The rows of one user.
pub record Account : Type 0 where
  pub row : Option Row
  pub totp_enabled : Bool

-- `EnableTOTP` behind the generator, the hashes and the encryption: whether it returns without an
-- error, and the rows. The statements are no transaction: whether the first and the second succeed is
-- given, and where only the first does, the row is written and the user's column is not.
unfoldable pub enable_totp : Bool → Bool → Text → ℕ → List Text → Account → Bool × Account
unfolding backup_codes_json
enable_totp row_written column_written stored_secret key_version hashed_keys account =
    let written : Row = record {
      secret = stored_secret;
      enabled = true;
      backup_codes = backup_codes_json hashed_keys;
      key_version = key_version;
    } in
    if row_written
    then (
      column_written,
      record {
        row = some written;
        totp_enabled = if column_written then true else account.totp_enabled;
      },
    )
    else (false, account)

-- `DisableTOTP`, likewise.
unfoldable pub disable_totp : Bool → Bool → Account → Bool × Account
disable_totp row_deleted column_written account =
    if row_deleted
    then (
      column_written,
      record { row = none; totp_enabled = if column_written then false else account.totp_enabled },
    )
    else (false, account)

abbrev pub row_enabled : Option Row → Bool
row_enabled none = false
row_enabled (some r) = r.enabled

-- `HasTOTP`
unfoldable pub has_totp : Account → Bool
has_totp account = row_enabled account.row

-- The row that `... AND enabled = 1` selects.
abbrev pub if_enabled : Option Row → Option Row
if_enabled none = none
if_enabled (some r) = if r.enabled then some r else none

abbrev pub shift : Option ℕ → Option ℕ
shift none = none
shift (some i) = some (suc i)

-- `matchedIndex`, where none is -1.
unfoldable pub matched_index : (Text → Bool) → List Text → Option ℕ
matched_index p [] = none
matched_index p (h ∷ hashes) =
    let later = shift (matched_index p hashes) in if p h then some zero else later

-- `append(hashes[:i], hashes[i+1:]...)`
abbrev pub remove_at : ℕ → List Text → List Text
remove_at i [] = []
remove_at zero (h ∷ hashes) = hashes
remove_at (suc i) (h ∷ hashes) = h ∷ remove_at i hashes

abbrev pub remove_matched : Option ℕ → List Text → Option (List Text)
remove_matched none hashes = none
remove_matched (some i) hashes = some (remove_at i hashes)

abbrev pub is_bracket : ℕ → Bool
is_bracket c = c == b'[' || c == b']'

unfoldable pub trim_end : Text → Text
trim_end [] = []
trim_end (c ∷ s) = let rest = trim_end s in if is_nil rest && is_bracket c then [] else c ∷ rest

-- `strings.Trim(codes, "[]")`
unfoldable pub trim_brackets : Text → Text
unfolding trim_end drop_while
trim_brackets s = trim_end (drop_while is_bracket s)

-- `len(strings.Split(codes, "\",\""))`
unfoldable pub parts : Text → ℕ
parts (a ∷ b ∷ c ∷ s) =
    let behind = parts s in
    let further = parts (b ∷ c ∷ s) in
    if a == b'"' && (b == b',' && c == b'"') then suc behind else further
parts _ = 1

-- `GetRemainingRecoveryKeyCount`: none is the error.
abbrev pub count_codes : Text → ℕ
count_codes [] = 0
count_codes (c ∷ s) = parts (c ∷ s)

abbrev pub count_row : Option Row → Option ℕ
count_row none = none
count_row (some r) = some (count_codes (trim_brackets r.backup_codes))

unfoldable pub remaining_count : Account → Option ℕ
unfolding trim_brackets parts
remaining_count account = count_row (if_enabled account.row)

-- The characters of an Argon2id hash in its text form, and the dash: JSON writes them as they are.
abbrev pub is_hash_char : ℕ → Bool
is_hash_char c = is_lower c || is_upper c || is_digit c || any (c ==◌) (codes "$+/=,-")

-- A hash as `hashPasswordArgon2id` writes it begins with a dollar.
abbrev pub IsPlainHash : Text → Type 0
IsPlainHash [] = ⊥
IsPlainHash (c ∷ s) = (c ≡ b'$') × All (λ d. is_hash_char d ≡ true) s

-- `json.Unmarshal` and `json.Marshal` on lists of such hashes.
pub record JsonTexts : Type 0 where
  pub unmarshal : Text → Option (List Text)
  pub marshal : List Text → Text
  pub unmarshal_array :
      (h : Text) (hs : List Text)
      → All IsPlainHash (h ∷ hs)
      → unmarshal (backup_codes_json (h ∷ hs)) ≡ some (h ∷ hs)
  pub unmarshal_empty : unmarshal (codes "[]") ≡ some []
  pub marshal_array :
      (h : Text) (hs : List Text)
      → All IsPlainHash (h ∷ hs)
      → marshal (h ∷ hs) ≡ backup_codes_json (h ∷ hs)
  pub marshal_empty : marshal [] ≡ codes "[]"

abbrev pub normal : GoText → Text → Text
normal go key = go.to_lower (go.trim_space key)

-- No text at all reads as no hash.
abbrev pub stored_hashes : JsonTexts → Text → Option (List Text)
stored_hashes json [] = some []
stored_hashes json (c ∷ s) = json.unmarshal (c ∷ s)

abbrev pub with_codes : JsonTexts → Account → Row → Option (List Text) → Option Account
with_codes json account r none = none
with_codes json account r (some hashes) = some (record {
  row = some (record {
    secret = r.secret;
    enabled = r.enabled;
    backup_codes = json.marshal hashes;
    key_version = r.key_version;
  });
  totp_enabled = account.totp_enabled;
})

-- The hashes that are left, none where the text is no list or nothing matches.
abbrev pub hashes_left : (Text → Bool) → Option (List Text) → Option (List Text)
hashes_left matches none = none
hashes_left matches (some hashes) = remove_matched (matched_index matches hashes) hashes

module _ (go : GoText) (json : JsonTexts) (verify_password : Text → Text → Bool) where
  -- `VerifyRecoveryKey`
  abbrev pub verify_recovery_key : Text → Text → Bool
  verify_recovery_key key hash = verify_password (normal go key) hash

  abbrev pub use_row : Text → Account → Option Row → Option Account
  use_row key account none = none
  use_row key account (some r) =
      with_codes json account r
        (hashes_left (verify_recovery_key (normal go key)) (stored_hashes json r.backup_codes))

  -- `UseRecoveryKey`: none is the error.
  unfoldable pub use_recovery_key : Text → Account → Option Account
  unfolding matched_index
  use_recovery_key key account = use_row key account (if_enabled account.row)
