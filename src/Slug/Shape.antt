-- ===== src/Slug/Shape.antt =====
-- What the generated slugs look like.
use native.Mathlib.Decide.{dec_le}
use mathlib.Core.Bool.{false≢true}
use caslink.Prelude.{
  ◌≤◌, ◌<◌, sym, ◌∙◌, length, length-take, take_of_length-le, ℕ, Text, Bool, true, false, not, [],
  ◌∷◌, ◌||◌, ◌&&◌, ◌≡◌, refl, arith, suc, zero, drop_while, take,
}
use caslink.Slug.{trim_dashes, slug_body, slugify, is_slug_char, is_dash, collapse_from, trim_end}

-- Only letters, digits and dashes, no two dashes in a row; `after_dash` says what stands before.
abbrev pub is_clean : Bool → Text → Bool
is_clean after_dash [] = true
is_clean after_dash (c ∷ s) =
    (is_slug_char c || (is_dash c && not after_dash)) && is_clean (is_dash c) s

abbrev pub ends_in_dash : Text → Bool
ends_in_dash [] = false
ends_in_dash (c ∷ []) = is_dash c
ends_in_dash (c ∷ d ∷ s) = ends_in_dash (d ∷ s)

pub is_clean-collapse_from :
    (in_run : Bool) (s : Text) → is_clean in_run (collapse_from in_run s) ≡ true
unfolding collapse_from
is_clean-collapse_from in_run [] = refl
is_clean-collapse_from in_run (c ∷ s) =
    ground (arith, is_clean-collapse_from false s, is_clean-collapse_from true s)

pub is_clean_weaken : (b : Bool) (s : Text) → is_clean true s ≡ true → is_clean b s ≡ true
is_clean_weaken b [] h = refl
is_clean_weaken b (c ∷ s) h = ground arith

is_clean-drop_while :
    (b : Bool) (s : Text) → is_clean b s ≡ true → is_clean true (drop_while is_dash s) ≡ true
unfolding drop_while
is_clean-drop_while b [] h = refl
is_clean-drop_while b (c ∷ s) h = ground (arith, is_clean-drop_while (is_dash c) s)

is_clean-trim_end : (b : Bool) (s : Text) → is_clean b s ≡ true → is_clean b (trim_end s) ≡ true
unfolding trim_end
is_clean-trim_end b [] h = refl
is_clean-trim_end b (c ∷ s) h = ground (arith, is_clean-trim_end (is_dash c) s)

pub is_clean-take :
    (b : Bool) (n : ℕ) (s : Text) → is_clean b s ≡ true → is_clean b (take n s) ≡ true
is_clean-take b zero s h = refl
is_clean-take b (suc n) [] h = refl
is_clean-take b (suc n) (c ∷ s) h = ground (arith, is_clean-take (is_dash c) n s)

ends_in_dash-trim_end : (s : Text) → ends_in_dash (trim_end s) ≡ false
unfolding trim_end
ends_in_dash-trim_end [] = refl
ends_in_dash-trim_end (c ∷ s) = ground (arith, ends_in_dash-trim_end s)

drop_while_of_is_clean : (s : Text) → is_clean true s ≡ true → drop_while is_dash s ≡ s
unfolding drop_while
drop_while_of_is_clean [] h = refl
drop_while_of_is_clean (c ∷ s) h = ground arith

trim_end_of_ends : (s : Text) → ends_in_dash s ≡ false → trim_end s ≡ s
unfolding trim_end
trim_end_of_ends [] h = refl
trim_end_of_ends (c ∷ []) h = ground arith
trim_end_of_ends (c ∷ d ∷ s) h = ground (arith, trim_end_of_ends (d ∷ s) h)

collapse_from_of_is_clean : (b : Bool) (s : Text) → is_clean b s ≡ true → collapse_from b s ≡ s
unfolding collapse_from
collapse_from_of_is_clean b [] h = refl
collapse_from_of_is_clean b (c ∷ s) h =
    ground (arith, collapse_from_of_is_clean false s, collapse_from_of_is_clean true s)

-- The text before `slice` is clean and has no dash at its ends.
pub is_clean-trim_dashes :
    (b : Bool) (s : Text) → is_clean b s ≡ true → is_clean true (trim_dashes s) ≡ true
unfolding trim_dashes
is_clean-trim_dashes b s h =
    is_clean-trim_end true (drop_while is_dash s) (is_clean-drop_while b s h)

pub ends_in_dash-trim_dashes : (s : Text) → ends_in_dash (trim_dashes s) ≡ false
unfolding trim_dashes
ends_in_dash-trim_dashes s = ends_in_dash-trim_end (drop_while is_dash s)

pub trim_dashes_of_is_clean :
    (s : Text) → is_clean true s ≡ true → ends_in_dash s ≡ false → trim_dashes s ≡ s
unfolding trim_dashes
trim_dashes_of_is_clean s h k = rw (drop_while_of_is_clean s h) (trim_end_of_ends s k)

module _ (lower : Text → Text) where
  pub is_clean-slug_body : (v : Text) → is_clean true (slug_body lower v) ≡ true
  unfolding slug_body
  is_clean-slug_body v =
      is_clean-trim_dashes false (collapse_from false (lower v))
        (is_clean-collapse_from false (lower v))

  pub ends_in_dash-slug_body : (v : Text) → ends_in_dash (slug_body lower v) ≡ false
  unfolding slug_body
  ends_in_dash-slug_body v = ends_in_dash-trim_dashes (collapse_from false (lower v))

  -- Whatever is typed, and whatever `toLowerCase` does, the generated slug consists of lower-case
  -- letters, digits and dashes, starts with no dash, has no two dashes in a row and at most 40
  -- units; it ends in a dash only if the text before `slice` had more than 40 units.
  pub slugify_shape :
      (v : Text)
      → (is_clean true (slugify lower v) ≡ true)
        × (length (slugify lower v) ≤ 40)
        × (ends_in_dash (slugify lower v) ≡ true → 40 < length (slug_body lower v))
  unfolding slugify
  slugify_shape v = (
    is_clean-take true 40 (slug_body lower v) (is_clean-slug_body v),
    omega (arith, length-take 40 (slug_body lower v)),
    λ e. elim (dec_le (length (slug_body lower v)) 40) [
      | yes h ↦ absurd (
          false≢true
            (sym (ends_in_dash-slug_body v) ∙ rw (take_of_length-le 40 (slug_body lower v) h) at e))
      | no h ↦ omega arith
    ],
  )

  pub slugify-eq-slug_body :
      (v : Text) → length (slug_body lower v) ≤ 40 → slugify lower v ≡ slug_body lower v
  unfolding slugify
  slugify-eq-slug_body v h = take_of_length-le 40 (slug_body lower v) h

  -- A clean text that the platform's `toLowerCase` leaves alone is its own slug.
  pub slugify_of_is_clean :
      (t : Text)
      → lower t ≡ t
      → is_clean true t ≡ true
      → ends_in_dash t ≡ false
      → length t ≤ 40
      → slugify lower t ≡ t
  unfolding slugify slug_body
  slugify_of_is_clean t e h k l =
      rw
        (
          e,
          collapse_from_of_is_clean false t (is_clean_weaken false t h),
          trim_dashes_of_is_clean t h k,
        )
        (take_of_length-le 40 t l)
