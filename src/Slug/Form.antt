-- ===== src/Slug/Form.antt =====
-- The two input handlers of the "Org slug auto-generation" block: the name field fills the slug
-- field until the user types into the slug field, which sets `dataset.edited`.
use caslink.Prelude.{
  Text, Bool, true, false, List, [], ◌∷◌, ◌≡◌, refl, Option, none, some, if◌then◌else◌, or_else,
  arith,
}
use caslink.Slug.{slugify}

-- What the two fields hold.
pub record SlugForm : Type 0 where
  pub source : Text
  pub slug : Text
  pub edited : Bool

-- An `input` event of either field, with the field's new value.
pub data Input : Type 0 where
  source_input slug_input : Text → Input

module _ (lower : Text → Text) where
  unfoldable pub on_input : SlugForm → Input → SlugForm
  on_input f (source_input v) =
      if f.edited then record f { source = v } else record f { source = v; slug = slugify lower v }
  on_input f (slug_input v) = record f { slug = v; edited = true }

  unfoldable pub type_all : SlugForm → List Input → SlugForm
  type_all f [] = f
  type_all f (i ∷ is) = type_all (on_input f i) is

-- The last value that the user typed into a field.
abbrev pub last_slug : List Input → Option Text
last_slug [] = none
last_slug (source_input v ∷ is) = last_slug is
last_slug (slug_input v ∷ is) = some (or_else (last_slug is) v)

abbrev pub last_source : List Input → Option Text
last_source [] = none
last_source (slug_input v ∷ is) = last_source is
last_source (source_input v ∷ is) = some (or_else (last_source is) v)

abbrev pub slug_or : (Text → Text) → Option Text → Text → Text
slug_or lower none d = d
slug_or lower (some v) d = slugify lower v

module _ (lower : Text → Text) where
  slug-type_all_edited :
      (is : List Input) (f : SlugForm)
      → f.edited ≡ true
      → (type_all lower f is).slug ≡ or_else (last_slug is) f.slug
  unfolding type_all on_input
  slug-type_all_edited [] f h = refl
  slug-type_all_edited (source_input v ∷ is) f h =
      ground (arith, slug-type_all_edited is (record f { source = v }) h)
  slug-type_all_edited (slug_input v ∷ is) f h =
      slug-type_all_edited is (record f { slug = v; edited = true }) refl

  -- After any typing that starts from an unedited form, the slug field holds what the user last
  -- typed into it; if the user typed nothing into it, the slug of the last name typed, and with no
  -- name typed either, what the page was served with.
  pub slug-type_all :
      (is : List Input) (f : SlugForm)
      → f.edited ≡ false
      → (type_all lower f is).slug ≡ or_else (last_slug is) (slug_or lower (last_source is) f.slug)
  unfolding type_all on_input
  slug-type_all [] f h = refl
  slug-type_all (source_input v ∷ is) f h =
      ground (arith, slug-type_all is (record f { source = v; slug = slugify lower v }) h)
  slug-type_all (slug_input v ∷ is) f h =
      slug-type_all_edited is (record f { slug = v; edited = true }) refl
