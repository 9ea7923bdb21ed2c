-- ===== src/Platform.antt =====
-- What the front end takes from the JavaScript engine and cannot be written out here: the Unicode
-- case tables behind `toLowerCase` and `toUpperCase`, and the percent decoding of
-- `decodeURIComponent`, whose `none` is a thrown `URIError`. The laws are the documented behaviour on
-- ASCII; `ascii_platform` meets them.
use caslink.Prelude.{
  ℕ, ◌+◌, ◌-◌, ◌<◌, Text, ◌≡◌, ◌≢◌, refl, Option, some, map, All, if◌then◌else◌, is_lower, is_upper,
}

abbrev pub IsAscii : Text → Type 0
IsAscii t = All (λ c. c < 128) t

abbrev pub lower_unit : ℕ → ℕ
lower_unit c = if is_upper c then c + 32 else c

abbrev pub upper_unit : ℕ → ℕ
upper_unit c = if is_lower c then c - 32 else c

pub record Platform : Type 0 where
  pub to_lower_case : Text → Text
  pub to_upper_case : Text → Text
  pub decode_uri_component : Text → Option Text
  pub lower_ascii : (t : Text) → IsAscii t → to_lower_case t ≡ map lower_unit t
  pub upper_ascii : (t : Text) → IsAscii t → to_upper_case t ≡ map upper_unit t
  pub decode_plain : (t : Text) → All (λ c. c ≢ b'%') t → decode_uri_component t ≡ some t

-- The platform that knows ASCII only and decodes no escape.
abbrev pub ascii_platform : Platform
ascii_platform = record {
  to_lower_case = map lower_unit;
  to_upper_case = map upper_unit;
  decode_uri_component = some;
  lower_ascii = λ t h. refl;
  upper_ascii = λ t h. refl;
  decode_plain = λ t h. refl;
}
