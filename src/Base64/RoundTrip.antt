-- ===== src/Base64/RoundTrip.antt =====
-- The encoder's texts are safe in a URL, and decoding gives the bytes back.
use mathlib.Core.List.{map-append, append-nil}
use caslink.Prelude.{keep_if-append}
use caslink.Prelude.{
  ℕ, ◌+◌, ◌*◌, ◌/◌, ◌%◌, ◌<◌, ◌≡◌, refl, ap, arith, Text, true, not, List, [], ◌∷◌, ◌++◌, All,
  length, length-map, some, ◌==◌, keep_if, map, if◌then◌else◌,
}
use caslink.Base64.{
  sextets, encode_sextet, is_space, padding, btoa, strip_padding, decode_units, atob_units, atob,
  replace_unit, buffer_encode, buffer_decode,
}
use caslink.Base64.Bits.{
  IsBytes, octets-sextets, sextets-lt, length-sextets, decode_unit-encode_sextet, encode_sextet-ne,
  is_url_safe,
}

-- The unit for a group in the URL-safe alphabet.
abbrev url_unit : ℕ → ℕ
url_unit n =
    let c = encode_sextet n in
    let d = if c == b'+' then b'-' else c in if d == b'/' then b'_' else d

replace_unit-append :
    (a b : ℕ) (s t : Text) → replace_unit a b (s ++ t) ≡ replace_unit a b s ++ replace_unit a b t
unfolding replace_unit
replace_unit-append a b s t = map-append _ s t

encoded_padding :
    (bs : List ℕ)
    → keep_if (λ c. not (c == b'=')) (replace_unit b'/' b'_' (replace_unit b'+' b'-' (padding bs)))
      ≡ []
unfolding padding replace_unit
encoded_padding [] = refl
encoded_padding (a ∷ []) = refl
encoded_padding (a ∷ b ∷ []) = refl
encoded_padding (a ∷ b ∷ c ∷ r) = encoded_padding r

encoded_units :
    (ns : List ℕ)
    → keep_if
        (λ c. not (c == b'='))
        (replace_unit b'/' b'_' (replace_unit b'+' b'-' (map encode_sextet ns)))
      ≡ map url_unit ns
unfolding replace_unit
encoded_units [] = refl
encoded_units (n ∷ ns) = ground (arith, encoded_units ns, encode_sextet-ne n)

-- The text for some bytes is the URL-safe unit of each group, without padding.
buffer_encode-eq-map : (bs : List ℕ) → buffer_encode bs ≡ map url_unit (sextets bs)
unfolding buffer_encode btoa
buffer_encode-eq-map bs = simp (
  replace_unit-append,
  keep_if-append,
  encoded_units (sextets bs),
  encoded_padding bs,
  append-nil,
)

decoded_units :
    (ns : List ℕ)
    → replace_unit b'_' b'/' (replace_unit b'-' b'+' (map url_unit ns)) ≡ map encode_sextet ns
unfolding replace_unit
decoded_units [] = refl
decoded_units (n ∷ ns) = ground (arith, decoded_units ns, encode_sextet-ne n)

kept_units :
    (ns : List ℕ) → keep_if (λ c. not (is_space c)) (map encode_sextet ns) ≡ map encode_sextet ns
kept_units [] = refl
kept_units (n ∷ ns) = rw ((encode_sextet-ne n).3, kept_units ns)

strip_padding_units : (ns : List ℕ) → strip_padding (map encode_sextet ns) ≡ map encode_sextet ns
unfolding strip_padding
strip_padding_units [] = refl
strip_padding_units (n ∷ []) = ground (arith, encode_sextet-ne n)
strip_padding_units (n ∷ m ∷ []) = ground (arith, encode_sextet-ne m)
strip_padding_units (n ∷ m ∷ k ∷ ns) = ap (encode_sextet n ∷◌) (strip_padding_units (m ∷ k ∷ ns))

decode_units_lem :
    (ns : List ℕ) → All (λ n. n < 64) ns → decode_units (map encode_sextet ns) ≡ some ns
unfolding decode_units
decode_units_lem [] h = refl
decode_units_lem (n ∷ ns) (hn, h) = rw (decode_unit-encode_sextet n hn, decode_units_lem ns h)

atob_units_lem : (bs : List ℕ) → IsBytes bs → atob_units (map encode_sextet (sextets bs)) ≡ some bs
unfolding atob_units
atob_units_lem bs h =
    rw
      (
        length-map (sextets bs) encode_sextet,
        length-sextets bs,
        decode_units_lem (sextets bs) (sextets-lt bs h),
        octets-sextets bs h,
      )
      (ground arith)

-- For numbers below 256, decoding what `bufferEncode` made of them gives them back.
pub buffer_decode-buffer_encode :
    (bs : List ℕ) → IsBytes bs → buffer_decode (buffer_encode bs) ≡ some bs
unfolding buffer_decode atob
buffer_decode-buffer_encode bs h =
    rw
      (
        buffer_encode-eq-map bs,
        decoded_units (sextets bs),
        kept_units (sextets bs),
        strip_padding_units (sextets bs),
      )
      (ground (arith, atob_units_lem bs h))

url_unit_safe : (n : ℕ) → is_url_safe (url_unit n) ≡ true
unfolding encode_sextet
url_unit_safe n = ground arith

url_units_safe : (ns : List ℕ) → All (λ c. is_url_safe c ≡ true) (map url_unit ns)
url_units_safe [] = tt
url_units_safe (n ∷ ns) = (url_unit_safe n, url_units_safe ns)

-- The text for some bytes holds only letters, digits, `-` and `_`, and for n bytes it has
-- (4 n + 2) / 3 units, rounded down.
pub buffer_encode_safe :
    (bs : List ℕ)
    → All (λ c. is_url_safe c ≡ true) (buffer_encode bs)
      × (length (buffer_encode bs) ≡ (4 * length bs + 2) / 3)
buffer_encode_safe bs =
    rw (buffer_encode-eq-map bs, length-map (sextets bs) url_unit, length-sextets bs)
      (url_units_safe (sextets bs), refl)

btoa_quads :
    (bs : List ℕ)
    → (strip_padding (btoa bs) ≡ map encode_sextet (sextets bs)) × (length (btoa bs) % 4 ≡ 0)
unfolding strip_padding btoa
btoa_quads [] = (refl, omega arith)
btoa_quads (a ∷ []) = (ground (arith, encode_sextet-ne (a % 4 * 16)), omega arith)
btoa_quads (a ∷ b ∷ []) = (ground (arith, encode_sextet-ne (b % 16 * 4)), omega arith)
btoa_quads (a ∷ b ∷ c ∷ []) =
    (ground (arith, encode_sextet-ne (c % 64), encode_sextet-ne (b % 16 * 4 + c / 64)), omega arith)
btoa_quads (a ∷ b ∷ c ∷ d ∷ []) = (refl, refl)
btoa_quads (a ∷ b ∷ c ∷ d ∷ e ∷ []) = let (ih, n) = btoa_quads (d ∷ e ∷ []) in (cc ih, refl)
btoa_quads (a ∷ b ∷ c ∷ d ∷ e ∷ f ∷ r) =
    let (ih, n) = btoa_quads (d ∷ e ∷ f ∷ r) in (cc ih, omega (arith, n))

kept_padding : (bs : List ℕ) → keep_if (λ c. not (is_space c)) (padding bs) ≡ padding bs
unfolding padding
kept_padding [] = refl
kept_padding (a ∷ []) = refl
kept_padding (a ∷ b ∷ []) = refl
kept_padding (a ∷ b ∷ c ∷ r) = kept_padding r

kept_btoa : (bs : List ℕ) → keep_if (λ c. not (is_space c)) (btoa bs) ≡ btoa bs
unfolding btoa
kept_btoa bs = rw (keep_if-append, kept_units (sextets bs), kept_padding bs)

-- The platform's padded encoding of some bytes decodes to them too.
pub atob-btoa : (bs : List ℕ) → IsBytes bs → atob (btoa bs) ≡ some bs
unfolding atob
atob-btoa bs h = let (e, n) = btoa_quads bs in rw (kept_btoa bs, n, e) (atob_units_lem bs h)
