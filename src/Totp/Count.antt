-- ===== src/Totp/Count.antt =====
-- The count of the keys that are left, read off the stored text.
use caslink.Prelude.{
  All-mono, ℕ, suc, ◌≡◌, ◌≢◌, refl, sym, ◌∙◌, ap, arith, Text, Bool, true, false, Bool-cases, inl,
  inr, ◌==◌, ==_iff, ◌&&◌, if◌then◌else◌, some, List, [], ◌∷◌, ◌++◌, All, length, is_nil,
  drop_while,
}
use mathlib.Core.List.{append_assoc}
use caslink.Totp.{
  join_from, backup_codes_json, Account, is_bracket, trim_end, trim_brackets, parts, count_codes,
  count_row, if_enabled, remaining_count, IsPlainHash, is_hash_char,
}
use caslink.Totp.Codes.{codes_json, Holds, AreHashes, AreHashes-plain}

ne_quote : (c : ℕ) → c ≢ b'"' → (c == b'"') ≡ false
ne_quote c h = elim (Bool-cases (c == b'"')) [
  | inl e ↦ absurd (h ((==_iff c b'"').0 e))
  | inr e ↦ e
]

-- A byte that is no quote begins no separator, and so a quote before one that is no comma.
parts-plain : (c : ℕ) (s : Text) → c ≢ b'"' → parts (c ∷ s) ≡ parts s
unfolding parts
parts-plain c [] h = refl
parts-plain c (a ∷ []) h = refl
parts-plain c (a ∷ b ∷ s) h = rw (ne_quote c h) refl

parts-quote : (c : ℕ) (s : Text) → (c == b',') ≡ false → parts (b'"' ∷ c ∷ s) ≡ parts (c ∷ s)
unfolding parts
parts-quote c [] h = refl
parts-quote c (a ∷ s) h = rw h refl

parts-append : (h s : Text) → All (λ c. c ≢ b'"') h → parts (h ++ s) ≡ parts s
parts-append [] s plain = refl
parts-append (c ∷ h) s plain = parts-plain c (h ++ s) plain.0 ∙ parts-append h s plain.1

hash-plain : (h : Text) → IsPlainHash h → All (λ c. c ≢ b'"') h
hash-plain [] plain = absurd plain
hash-plain (c ∷ h) plain = (
  (λ e. dollar (sym plain.0 ∙ e)),
  All-mono (λ d. is_hash_char d ≡ true) (λ d. d ≢ b'"') h
      (λ d is_char e. no_quote (sym (ap is_hash_char e) ∙ is_char)) plain.1,
)
  where
    dollar : ◌≢◌ {A = ℕ} b'$' b'"'
    dollar e = absurd (omega (arith, e))

    no_quote : is_hash_char b'"' ≢ true
    no_quote e = cc

join_from-append :
    (h : Text) (hs : List Text)
    → All IsPlainHash (h ∷ hs)
    → parts (join_from h hs ++ b'"' ∷ []) ≡ length (h ∷ hs)
unfolding parts
join_from-append h [] plain = parts-append h (b'"' ∷ []) (hash-plain h plain.0)
join_from-append h (g ∷ hs) plain =
    let behind : Text = join_from g hs ++ b'"' ∷ [] in
    let one : parts (h ++ b'"' ∷ b',' ∷ b'"' ∷ behind) ≡ suc (parts behind) =
      parts-append h (b'"' ∷ b',' ∷ b'"' ∷ behind) (hash-plain h plain.0) in
    ap parts (append_assoc h (b'"' ∷ b',' ∷ b'"' ∷ join_from g hs) (b'"' ∷ []))
    ∙ one
    ∙ ap suc (join_from-append g hs plain.1)

-- The text starts with a dollar.
starts_plain :
    (h : Text) (hs : List Text)
    → IsPlainHash h
    → parts (b'"' ∷ join_from h hs ++ b'"' ∷ []) ≡ parts (join_from h hs ++ b'"' ∷ [])
starts_plain [] hs plain = absurd plain
starts_plain (c ∷ h) [] plain = parts-quote c _ (rw plain.0 refl)
starts_plain (c ∷ h) (g ∷ hs) plain = parts-quote c _ (rw plain.0 refl)

trim_end-append :
    (s : Text) (c d : ℕ)
    → is_bracket c ≡ false
    → is_bracket d ≡ true
    → trim_end (s ++ c ∷ d ∷ []) ≡ s ++ c ∷ []
unfolding trim_end
trim_end-append [] c d plain bracket = rw (plain, bracket) refl
trim_end-append (a ∷ s) c d plain bracket = rw (trim_end-append s c d plain bracket) (kept_by s)
  where
    kept_by :
        (t : Text)
        → (if is_nil (t ++ c ∷ []) && is_bracket a then [] else a ∷ (t ++ c ∷ []))
          ≡ a ∷ (t ++ c ∷ [])
    kept_by [] = refl
    kept_by (b ∷ t) = refl

trim_brackets-json :
    (s : Text) → trim_brackets (b'[' ∷ b'"' ∷ s ++ b'"' ∷ b']' ∷ []) ≡ b'"' ∷ s ++ b'"' ∷ []
unfolding trim_brackets drop_while trim_end
trim_brackets-json s = trim_end-append (b'"' ∷ s) b'"' b']' refl refl

count-codes_json :
    (hs : List Text) → All IsPlainHash hs → count_codes (trim_brackets (codes_json hs)) ≡ length hs
unfolding backup_codes_json
count-codes_json [] plain = unfold trim_brackets drop_while trim_end in refl
count-codes_json (h ∷ hs) plain =
    ap count_codes (trim_brackets-json (join_from h hs))
    ∙ starts_plain h hs plain.0
    ∙ join_from-append h hs plain

length-AreHashes :
    (verify_password : Text → Text → Bool) (ks hs : List Text)
    → AreHashes verify_password ks hs
    → length hs ≡ length ks
length-AreHashes verify_password [] [] h = refl
length-AreHashes verify_password [] (x ∷ hs) h = absurd h
length-AreHashes verify_password (k ∷ ks) [] h = absurd h
length-AreHashes verify_password (k ∷ ks) (x ∷ hs) h =
    ap suc (length-AreHashes verify_password ks hs h.1)

-- Where the account holds a hash of each of some keys, the count that is read off the stored text is
-- their number.
pub remaining_count-Holds :
    (verify_password : Text → Text → Bool) (ks : List Text) (a : Account)
    → Holds verify_password ks a
    → remaining_count a ≡ some (length ks)
unfolding remaining_count
remaining_count-Holds verify_password ks a h =
    let plain = AreHashes-plain verify_password ks h.hashes h.are_hashes in
    let row : if_enabled a.row ≡ some h.row = ap if_enabled h.is_row ∙ rw h.is_enabled refl in
    ap count_row row
    ∙ ap (λ (s : Text). some (count_codes (trim_brackets s))) h.are_codes
    ∙ ap some (count-codes_json h.hashes plain)
    ∙ ap some (length-AreHashes verify_password ks h.hashes h.are_hashes)
