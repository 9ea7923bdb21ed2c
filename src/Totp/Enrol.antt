-- ===== src/Totp/Enrol.antt =====
-- The keys that enrolment hands out.
use caslink.Prelude.{ℕ, ◌<◌, ◌≡◌, refl, ◌∙◌, ap, arith, Text, [], ◌∷◌, map, All, All-mono}
use caslink.Platform.{IsAscii, lower_unit, upper_unit}
use caslink.OrgSlug.{GoText}
use caslink.Totp.{normal}

-- Visible, and the same in either case once it is lowered.
abbrev pub IsKeyChar : ℕ → Type 0
IsKeyChar c =
    (32 < c)
    × (c < 127)
    × (lower_unit c ≡ c)
    × (32 < upper_unit c)
    × (upper_unit c < 127)
    × (lower_unit (upper_unit c) ≡ c)

map-lower-upper : (s : Text) → All IsKeyChar s → map lower_unit (map upper_unit s) ≡ s
map-lower-upper [] h = refl
map-lower-upper (c ∷ s) h = rw (h.0.5, map-lower-upper s h.1) refl

map-lower : (s : Text) → All IsKeyChar s → map lower_unit s ≡ s
map-lower [] h = refl
map-lower (c ∷ s) h = rw (h.0.2, map-lower s h.1) refl

All-upper : (s : Text) → All IsKeyChar s → All (λ c. (32 < c) × (c < 127)) (map upper_unit s)
All-upper [] h = tt
All-upper (c ∷ s) h = ((h.0.3, h.0.4), All-upper s h.1)

module _ (go : GoText) where
  IsAscii-of_visible : (s : Text) → All (λ c. (32 < c) × (c < 127)) s → IsAscii s
  IsAscii-of_visible s h = All-mono _ _ s (λ c v. omega (arith, v.1)) h

  normal-visible : (s : Text) → All (λ c. (32 < c) × (c < 127)) s → normal go s ≡ map lower_unit s
  normal-visible s h =
      ap go.to_lower (go.trim_visible s h) ∙ go.lower_ascii s (IsAscii-of_visible s h)

  -- A key typed in capitals is the key.
  pub normal-upper : (s : Text) → All IsKeyChar s → normal go (normal go (map upper_unit s)) ≡ s
  normal-upper s h =
      let first : normal go (map upper_unit s) ≡ s =
        normal-visible (map upper_unit s) (All-upper s h) ∙ map-lower-upper s h in
      let visible : All (λ c. (32 < c) × (c < 127)) s =
        All-mono IsKeyChar _ s (λ c v. (v.0, v.1)) h in
      ap (normal go) first ∙ normal-visible s visible ∙ map-lower s h
