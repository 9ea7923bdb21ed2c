-- ===== src/OrgSlug/Agreement.antt =====
-- How the slugs of the browser and the slugs of the server fit together.
use caslink.Prelude.{
  ◌≤◌, ◌<◌, Text, Bool, true, false, [], ◌∷◌, ◌≡◌, refl, sym, ◌∙◌, arith, none, some, length,
  length-take, map, All, All-mono,
}
use caslink.Blocklist.{username_blocklist}
use caslink.Platform.{Platform, IsAscii, lower_unit}
use caslink.Slug.{is_dash, slug_body, slugify, trim_dashes, collapse_from}
use caslink.Slug.Shape.{
  is_clean, is_clean-slug_body, ends_in_dash-slug_body, slugify_shape, slugify-eq-slug_body,
  slugify_of_is_clean, is_clean-collapse_from,
}
use caslink.OrgSlug.{
  GoText, find_reserved, check_org_slug, validate_org_slug, generate_slug, squeeze_dashes,
  bad_length,
}
use caslink.OrgSlug.Legal.{IsLegal, validate_org_slug_iff}

is_clean-IsVisible : (b : Bool) (t : Text) → is_clean b t ≡ true → All (λ c. (32 < c) × (c < 127)) t
is_clean-IsVisible b [] h = tt
is_clean-IsVisible b (c ∷ t) h =
    ((ground arith, ground arith), is_clean-IsVisible (is_dash c) t (ground arith))

is_clean-lower_unit : (b : Bool) (t : Text) → is_clean b t ≡ true → map lower_unit t ≡ t
is_clean-lower_unit b [] h = refl
is_clean-lower_unit b (c ∷ t) h = ground (arith, is_clean-lower_unit (is_dash c) t)

is_clean-IsAscii : (b : Bool) (t : Text) → is_clean b t ≡ true → IsAscii t
is_clean-IsAscii b t h =
    All-mono (λ c. (32 < c) × (c < 127)) _ t (λ c p. omega arith) (is_clean-IsVisible b t h)

squeeze_dashes_of_is_clean : (b : Bool) (t : Text) → is_clean b t ≡ true → squeeze_dashes b t ≡ t
unfolding squeeze_dashes
squeeze_dashes_of_is_clean b [] h = refl
squeeze_dashes_of_is_clean b (c ∷ t) h = ground (arith, squeeze_dashes_of_is_clean (is_dash c) t)

module _ (p : Platform) (go : GoText) where
  open p use {to_lower_case}

  -- The server's normalisation leaves a clean text alone.
  normalize_of_is_clean : (t : Text) → is_clean true t ≡ true → go.to_lower (go.trim_space t) ≡ t
  normalize_of_is_clean t h =
      rw
        (
          go.trim_visible t (is_clean-IsVisible true t h),
          go.lower_ascii t (is_clean-IsAscii true t h),
        )
        (is_clean-lower_unit true t h)

  -- A generated slug passes the server's check if the text before `slice` has 2 to 39 units and is
  -- no reserved name.
  pub validate_org_slug-slugify :
      (v : Text)
      → 2 ≤ length (slug_body to_lower_case v)
      → length (slug_body to_lower_case v) ≤ 39
      → find_reserved go (slug_body to_lower_case v) username_blocklist ≡ none
      → validate_org_slug go (slugify to_lower_case v) ≡ none
  validate_org_slug-slugify v h k f = rw (slugify-eq-slug_body to_lower_case v (omega arith)) (
      (validate_org_slug_iff go _).1 (
        rw (normalize_of_is_clean _ (is_clean-slug_body to_lower_case v)) record {
          long_enough = h;
          short_enough = k;
          clean = is_clean-slug_body to_lower_case v;
          closed = ends_in_dash-slug_body to_lower_case v;
          free = f;
        }))

  -- If the text before `slice` has 40 units or more, the generated slug has 40 and the server
  -- answers that its length is wrong.
  pub validate_org_slug-slugify_too_long :
      (v : Text)
      → 40 ≤ length (slug_body to_lower_case v)
      → (length (slugify to_lower_case v) ≡ 40)
        × (validate_org_slug go (slugify to_lower_case v) ≡ some bad_length)
  unfolding validate_org_slug check_org_slug
  validate_org_slug-slugify_too_long v h =
      let n : length (slugify to_lower_case v) ≡ 40 =
        unfold slugify in omega (arith, length-take 40 (slug_body to_lower_case v)) in
      (n, rw (normalize_of_is_clean _ (slugify_shape to_lower_case v).0) (ground arith))

  -- The script leaves a slug alone that the server would accept as it stands.
  pub slugify_of_IsLegal : (t : Text) → IsLegal go t → slugify to_lower_case t ≡ t
  slugify_of_IsLegal t l =
      slugify_of_is_clean to_lower_case t
        (p.lower_ascii t (is_clean-IsAscii true t l.clean) ∙ is_clean-lower_unit true t l.clean)
        l.clean l.closed (omega (arith, l.short_enough))

  generate_slug_body :
      (name : Text)
      → trim_dashes (squeeze_dashes false (collapse_from false (go.to_lower name)))
        ≡ slug_body go.to_lower name
  unfolding slug_body
  generate_slug_body name =
      rw (squeeze_dashes_of_is_clean false _ (is_clean-collapse_from false (go.to_lower name)))

  -- For an ASCII name whose slug has at most 39 units, script and server generate the same slug.
  pub generate_slug-eq-slugify :
      (name : Text)
      → IsAscii name
      → length (slug_body to_lower_case name) ≤ 39
      → generate_slug go name ≡ slugify to_lower_case name
  unfolding generate_slug
  generate_slug-eq-slugify name a h =
      let same : go.to_lower name ≡ to_lower_case name =
        go.lower_ascii name a ∙ sym (p.lower_ascii name a) in
      let body : slug_body go.to_lower name ≡ slug_body to_lower_case name =
        (unfold slug_body in rw same) in
      rw (generate_slug_body name, body, slugify-eq-slug_body to_lower_case name (omega arith))
        (ground arith)
