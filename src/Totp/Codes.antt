-- ===== src/Totp/Codes.antt =====
-- The stored text of a list of hashes, and what it holds.
use caslink.Prelude.{
  ℕ, ◌≡◌, refl, Text, codes, text_eq, Bool, true, Bool-cases, inl, inr, if◌then◌else◌, Option, none,
  some, List, [], ◌∷◌, All,
}
use caslink.Totp.{
  backup_codes_json, Row, Account, matched_index, shift, remove_matched, IsPlainHash,
}

abbrev pub codes_json : List Text → Text
codes_json [] = codes "[]"
codes_json (h ∷ hs) = backup_codes_json (h ∷ hs)

-- Behind an element that stays.
abbrev pub kept : Text → Option (List Text) → Option (List Text)
kept x none = none
kept x (some rest) = some (x ∷ rest)

-- The abstract operation: the first key that is the text is taken out, none if there is none.
unfoldable pub spend : Text → List Text → Option (List Text)
spend key [] = none
spend key (k ∷ ks) = let later = kept k (spend key ks) in if text_eq key k then some ks else later

remove_matched-shift :
    (o : Option ℕ) (h : Text) (hs : List Text)
    → remove_matched (shift o) (h ∷ hs) ≡ kept h (remove_matched o hs)
remove_matched-shift none h hs = refl
remove_matched-shift (some i) h hs = refl

module _ (verify_password : Text → Text → Bool) where
  -- A hash of a key that the key alone verifies against.
  abbrev pub IsHash : Text → Text → Type 0
  IsHash k h = IsPlainHash h × ((key : Text) → verify_password key h ≡ text_eq key k)

  abbrev pub AreHashes : List Text → List Text → Type 0
  AreHashes [] [] = Unit
  AreHashes [] (h ∷ hs) = ⊥
  AreHashes (k ∷ ks) [] = ⊥
  AreHashes (k ∷ ks) (h ∷ hs) = IsHash k h × AreHashes ks hs

  -- The user's row is enabled and stores a hash of each key.
  pub record Holds (ks : List Text) (account : Account) : Type 0 where
    pub row : Row
    pub hashes : List Text
    pub is_row : account.row ≡ some row
    pub is_enabled : row.enabled ≡ true
    pub are_codes : row.backup_codes ≡ codes_json hashes
    pub are_hashes : AreHashes ks hashes

  pub AreHashes-plain : (ks hs : List Text) → AreHashes ks hs → All IsPlainHash hs
  AreHashes-plain [] [] h = tt
  AreHashes-plain [] (x ∷ hs) h = absurd h
  AreHashes-plain (k ∷ ks) [] h = absurd h
  AreHashes-plain (k ∷ ks) (x ∷ hs) h = (h.0.0, AreHashes-plain ks hs h.1)

  -- Both fail, or both are left with a key for each hash.
  abbrev pub AreHashesLeft : Option (List Text) → Option (List Text) → Type 0
  AreHashesLeft none none = Unit
  AreHashesLeft none (some hs) = ⊥
  AreHashesLeft (some ks) none = ⊥
  AreHashesLeft (some ks) (some hs) = AreHashes ks hs

  kept-AreHashesLeft :
      (k x : Text) (o p : Option (List Text))
      → IsHash k x
      → AreHashesLeft o p
      → AreHashesLeft (kept k o) (kept x p)
  kept-AreHashesLeft k x none none h left = tt
  kept-AreHashesLeft k x none (some hs) h left = absurd left
  kept-AreHashesLeft k x (some ks) none h left = absurd left
  kept-AreHashesLeft k x (some ks) (some hs) h left = (h, left)

  pub spend-AreHashesLeft :
      (key : Text) (ks hs : List Text)
      → AreHashes ks hs
      → AreHashesLeft
          (spend key ks)
          (remove_matched (matched_index (λ x. verify_password key x) hs) hs)
  unfolding spend matched_index
  spend-AreHashesLeft key [] [] h = tt
  spend-AreHashesLeft key [] (x ∷ hs) h = absurd h
  spend-AreHashesLeft key (k ∷ ks) [] h = absurd h
  spend-AreHashesLeft key (k ∷ ks) (x ∷ hs) h = elim (Bool-cases (text_eq key k)) [
    | inl e ↦ rw (h.0.1 key, e) h.1
    | inr e ↦
        rw (h.0.1 key, e, remove_matched-shift (matched_index (λ y. verify_password key y) hs) x hs)
          (kept-AreHashesLeft k x (spend key ks) _ h.0 (spend-AreHashesLeft key ks hs h.1))
  ]
