-- ===== src/Theme/Laws.antt =====
-- The cycle of themes, and the restore on page load.
use caslink.Prelude.{
  Text, text_eq, ne_of_text_eq, [], ◌∷◌, ◌≡◌, ◌≢◌, ◌⊎◌, inl, inr, refl, arith, Option, none, some,
}
use caslink.Theme.{
  Page, Toggle, dark, light, auto, relabel, cookie_write, apply_theme, next_theme, cycle_theme,
  restore,
}

-- What the user sees and what the browser keeps, without the cookie assignments.
abbrev pub shown : Page → Text × Option Text × Option Toggle
shown page = (page.attribute, page.storage, page.toggle)

relabel-relabel : (t u : Text) (b : Option Toggle) → relabel u (relabel t b) ≡ relabel u b
relabel-relabel t u none = refl
relabel-relabel t u (some b) = refl

relabel_again :
    (t u v : Text) (b : Option Toggle)
    → relabel t (relabel v (relabel u (relabel t b))) ≡ relabel t b
relabel_again t u v none = refl
relabel_again t u v (some b) = refl

-- A page load shows the theme that was applied last, and changes nothing that is shown, kept or
-- written on the button; the empty text is no theme.
pub restore-apply_theme :
    (theme : Text) (page : Page)
    → theme ≢ []
    → shown (restore (apply_theme theme page)) ≡ shown (apply_theme theme page)
unfolding restore apply_theme
restore-apply_theme [] page h = absurd (h refl)
restore-apply_theme (c ∷ theme) page h =
    λ i. (c ∷ theme, some (c ∷ theme), relabel-relabel (c ∷ theme) (c ∷ theme) page.toggle i)

-- From each of the three themes three clicks on the toggle lead through the two others back to the
-- same page.
pub cycle_theme_thrice :
    (theme : Text) (page : Page)
    → (theme ≡ auto) ⊎ ((theme ≡ dark) ⊎ (theme ≡ light))
    → let once = cycle_theme (apply_theme theme page) in
      let twice = cycle_theme once in
      (once.attribute ≢ theme)
      × (twice.attribute ≢ theme)
      × (twice.attribute ≢ once.attribute)
      × (shown (cycle_theme twice) ≡ shown (apply_theme theme page))
unfolding cycle_theme apply_theme next_theme text_eq
cycle_theme_thrice theme page (inl h) = rw h (
  ne_of_text_eq dark auto refl,
  ne_of_text_eq light auto refl,
  ne_of_text_eq light dark refl,
  λ i. (auto, some auto, relabel_again auto dark light page.toggle i),
)
cycle_theme_thrice theme page (inr (inl h)) = rw h (
  ne_of_text_eq light dark refl,
  ne_of_text_eq auto dark refl,
  ne_of_text_eq auto light refl,
  λ i. (dark, some dark, relabel_again dark light auto page.toggle i),
)
cycle_theme_thrice theme page (inr (inr h)) = rw h (
  ne_of_text_eq auto light refl,
  ne_of_text_eq dark light refl,
  ne_of_text_eq dark auto refl,
  λ i. (light, some light, relabel_again light auto dark page.toggle i),
)

-- Whatever is stored, one click stores one of the three themes, shows what it stores, and assigns the
-- cookie once: the deletion for `auto`, the value for the others.
pub cycle_theme_lem :
    (page : Page)
    → let after = cycle_theme page in
      (after.storage ≡ some after.attribute)
      × (after.cookie_writes ≡ cookie_write after.attribute ∷ page.cookie_writes)
      × ((after.attribute ≡ auto) ⊎ ((after.attribute ≡ dark) ⊎ (after.attribute ≡ light)))
unfolding cycle_theme apply_theme next_theme
cycle_theme_lem page = (refl, refl, ground (arith))
