-- ===== src/Base64.antt =====
-- `bufferEncode` and `bufferDecode` of src/server/tmpl/static/js/app.js, on the `btoa` and `atob`
-- of the platform as the WHATWG standards define them. An ArrayBuffer is its list of bytes; the limit
-- on the number of arguments of `String.fromCharCode.apply` is left out.
pub mod Bits
pub mod RoundTrip
use caslink.Prelude.{
  ℕ, ◌+◌, ◌-◌, ◌*◌, ◌/◌, ◌%◌, Text, Bool, true, false, not, List, [], ◌∷◌, ◌++◌, map, Option, none,
  some, ◌||◌, if◌then◌else◌, ◌==◌, ltb, length, keep_if, replicate, is_lower, is_upper, is_digit,
}

-- The six-bit groups of a list of bytes; the last one is filled up with zero bits.
unfoldable pub sextets : List ℕ → List ℕ
sextets [] = []
sextets (a ∷ []) = (a / 4) ∷ (a % 4 * 16) ∷ []
sextets (a ∷ b ∷ []) = (a / 4) ∷ (a % 4 * 16 + b / 16) ∷ (b % 16 * 4) ∷ []
sextets (a ∷ b ∷ c ∷ r) =
    (a / 4) ∷ (a % 4 * 16 + b / 16) ∷ (b % 16 * 4 + c / 64) ∷ (c % 64) ∷ sextets r

-- The bytes of a list of six-bit groups. One group left over would be six bits, too few for a byte.
unfoldable pub octets : List ℕ → List ℕ
octets [] = []
octets (p ∷ []) = []
octets (p ∷ q ∷ []) = (p * 4 + q / 16) ∷ []
octets (p ∷ q ∷ r ∷ []) = (p * 4 + q / 16) ∷ (q % 16 * 16 + r / 4) ∷ []
octets (p ∷ q ∷ r ∷ s ∷ t) = (p * 4 + q / 16) ∷ (q % 16 * 16 + r / 4) ∷ (r % 4 * 64 + s) ∷ octets t

-- The alphabet A-Z a-z 0-9 + /.
unfoldable pub encode_sextet : ℕ → ℕ
encode_sextet n =
    if ltb n 26
    then n + 65
    else if ltb n 52
    then n + 71
    else if ltb n 62
    then n - 4
    else if n == 62
    then b'+'
    else b'/'

unfoldable pub decode_unit : ℕ → Option ℕ
decode_unit c =
    if is_upper c
    then some (c - 65)
    else if is_lower c
    then some (c - 71)
    else if is_digit c
    then some (c + 4)
    else if c == b'+'
    then some 62
    else if c == b'/'
    then some 63
    else none

unfoldable pub padding : List ℕ → Text
padding [] = []
padding (a ∷ []) = b'=' ∷ b'=' ∷ []
padding (a ∷ b ∷ []) = b'=' ∷ []
padding (a ∷ b ∷ c ∷ r) = padding r

unfoldable pub btoa : List ℕ → Text
unfolding sextets encode_sextet padding
btoa bytes = map encode_sextet (sextets bytes) ++ padding bytes

-- ASCII whitespace: tab, line feed, form feed, carriage return, space.
abbrev pub is_space : ℕ → Bool
is_space c = c == 9 || c == 10 || c == 12 || c == 13 || c == 32

-- One or two `=` at the end, which `atob` drops from a text whose length is a multiple of four.
unfoldable pub strip_padding : Text → Text
strip_padding [] = []
strip_padding (c ∷ []) = if c == b'=' then [] else c ∷ []
strip_padding (c ∷ d ∷ []) = if d == b'=' then (if c == b'=' then [] else c ∷ []) else c ∷ d ∷ []
strip_padding (c ∷ d ∷ e ∷ s) = c ∷ strip_padding (d ∷ e ∷ s)

abbrev pub cons_both : Option ℕ → Option (List ℕ) → Option (List ℕ)
cons_both (some n) (some ns) = some (n ∷ ns)
cons_both _ _ = none

unfoldable pub decode_units : Text → Option (List ℕ)
decode_units [] = some []
decode_units (c ∷ s) = cons_both (decode_unit c) (decode_units s)

abbrev pub map_octets : Option (List ℕ) → Option (List ℕ)
map_octets none = none
map_octets (some ns) = some (octets ns)

-- The forgiving decoder behind `atob`; `none` is a thrown `InvalidCharacterError`.
unfoldable pub atob_units : Text → Option (List ℕ)
unfolding decode_units octets decode_unit
atob_units s = if length s % 4 == 1 then none else map_octets (decode_units s)

unfoldable pub atob : Text → Option (List ℕ)
unfolding atob_units strip_padding
atob text =
    let s = keep_if (λ c. not (is_space c)) text in
    atob_units (if length s % 4 == 0 then strip_padding s else s)

-- `.replace(/a/g, 'b')` for two units.
unfoldable pub replace_unit : ℕ → ℕ → Text → Text
replace_unit a b s = map (λ c. if c == a then b else c) s

unfoldable pub buffer_encode : List ℕ → Text
unfolding btoa replace_unit
buffer_encode bytes =
    keep_if (λ c. not (c == b'=')) (replace_unit b'/' b'_' (replace_unit b'+' b'-' (btoa bytes)))

unfoldable pub buffer_decode : Text → Option (List ℕ)
unfolding atob replace_unit
buffer_decode value = atob (replace_unit b'_' b'/' (replace_unit b'-' b'+' value))
