-- ===== src/Base64/Bits.antt =====
-- Bytes and six-bit groups, and the alphabet.
use caslink.Prelude.{
  ℕ, ◌+◌, ◌*◌, ◌/◌, ◌<◌, ◌≡◌, ◌≢◌, refl, arith, Bool, false, List, [], ◌∷◌, ◌||◌, All, length, some,
  ◌==◌, is_lower, is_upper, is_digit,
}
use caslink.Base64.{sextets, octets, encode_sextet, decode_unit, is_space}

abbrev pub IsBytes : List ℕ → Type 0
IsBytes bs = All (λ b. b < 256) bs

pub octets-sextets : (bs : List ℕ) → IsBytes bs → octets (sextets bs) ≡ bs
unfolding octets sextets
octets-sextets [] h = refl
octets-sextets (a ∷ []) h = ground arith
octets-sextets (a ∷ b ∷ []) h = ground arith
octets-sextets (a ∷ b ∷ c ∷ r) (ha, (hb, (hc, h))) = ground (arith, octets-sextets r h)

pub sextets-lt : (bs : List ℕ) → IsBytes bs → All (λ n. n < 64) (sextets bs)
unfolding sextets
sextets-lt [] h = tt
sextets-lt (a ∷ []) h = omega arith
sextets-lt (a ∷ b ∷ []) h = omega arith
sextets-lt (a ∷ b ∷ c ∷ r) (ha, (hb, (hc, h))) =
    (omega arith, (omega arith, (omega arith, (omega arith, sextets-lt r h))))

pub length-sextets : (bs : List ℕ) → length (sextets bs) ≡ (4 * length bs + 2) / 3
unfolding sextets
length-sextets [] = omega arith
length-sextets (a ∷ []) = omega arith
length-sextets (a ∷ b ∷ []) = omega arith
length-sextets (a ∷ b ∷ c ∷ r) = omega (arith, length-sextets r)

pub decode_unit-encode_sextet : (n : ℕ) → n < 64 → decode_unit (encode_sextet n) ≡ some n
unfolding decode_unit encode_sextet
decode_unit-encode_sextet n h = ground arith

-- The alphabet has no sign that the scripts replace or that the decoder skips.
pub encode_sextet-ne :
    (n : ℕ)
    → (encode_sextet n ≢ b'=')
      × (encode_sextet n ≢ b'-')
      × (encode_sextet n ≢ b'_')
      × (is_space (encode_sextet n) ≡ false)
unfolding encode_sextet
encode_sextet-ne n = (ground arith, ground arith, ground arith, ground arith)

-- [A-Za-z0-9_-]
abbrev pub is_url_safe : ℕ → Bool
is_url_safe c = is_upper c || is_lower c || is_digit c || c == b'-' || c == b'_'
