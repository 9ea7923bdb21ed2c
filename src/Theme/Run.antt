-- ===== src/Theme/Run.antt =====
-- What page, storage, cookie and toggle button show at any time after the first load.
use caslink.Prelude.{Text, codes, List, [], ◌∷◌, ◌++◌, ◌≡◌, ◌≢◌, Option, none, some}
use caslink.Theme.{Page, Toggle}

abbrev pub last_write : List Text → Option Text
last_write [] = none
last_write (w ∷ ws) = some w

-- The assignment that makes the browser send a theme, or none where the system decides.
abbrev pub IsSent : Text → Option Text → Type 0
IsSent theme write =
    (theme ≡ codes "auto" → write ≡ some (codes "theme=; path=/; max-age=0; SameSite=Lax"))
    × (theme ≢ codes "auto"
        → write
          ≡ some (codes "theme=" ++ theme ++ codes "; path=/; max-age=31536000; SameSite=Lax"))

-- A sun for the dark theme, a moon for the light one and a screen for any other, with the theme in
-- the title.
abbrev pub IsLabelled : Text → Option Toggle → Type 0
IsLabelled theme none = Unit
IsLabelled theme (some b) =
    (theme ≡ codes "dark" → b.label ≡ 0x2600 ∷ 0xfe0f ∷ [])
    × (theme ≡ codes "light" → b.label ≡ 0xd83c ∷ 0xdf19 ∷ [])
    × (theme ≢ codes "dark" → theme ≢ codes "light" → b.label ≡ 0xd83d ∷ 0xdda5 ∷ 0xfe0f ∷ [])
    × (b.title ≡ codes "Switch theme (current: " ++ theme ++ codes ")")

-- They all show the theme of the document; a page without the button stays without.
pub record Agrees (page : Page) : Type 0 where
  pub kept : page.storage ≡ some page.attribute
  pub sent : IsSent page.attribute (last_write page.cookie_writes)
  pub labelled : IsLabelled page.attribute page.toggle
