-- ===== src/Theme.antt =====
-- Theme management, src/server/tmpl/static/js/app.js: `applyTheme`, `cycleTheme`, the restore on page
-- load and the theme buttons of the settings page. Object literals are read at their own keys; the
-- names that every object inherits are no themes.
pub mod Laws
pub mod Run
use caslink.Prelude.{
  Text, codes, text_eq, Bool, true, false, List, [], ◌∷◌, ◌++◌, Option, none, some, if◌then◌else◌,
  is_nil,
}

-- What the toggle button shows.
pub record Toggle : Type 0 where
  pub label : Text
  pub title : Text

-- The attribute `data-theme` of the document, what has been assigned to `document.cookie`, the latest
-- first, the entry `cl_theme` of `localStorage`, and the toggle button, if the page has one.
pub record Page : Type 0 where
  pub attribute : Text
  pub cookie_writes : List Text
  pub storage : Option Text
  pub toggle : Option Toggle

abbrev pub dark : Text
dark = codes "dark"

abbrev pub light : Text
light = codes "light"

abbrev pub auto : Text
auto = codes "auto"

-- `icons[theme]`, or the screen: the sun U+2600 with U+FE0F, the moon U+1F319 and the screen U+1F5A5
-- with U+FE0F, as UTF-16 units.
unfoldable pub icon : Text → Text
icon theme =
    if text_eq theme dark
    then (0x2600 ∷ 0xfe0f ∷ [])
    else if text_eq theme light
    then (0xd83c ∷ 0xdf19 ∷ [])
    else (0xd83d ∷ 0xdda5 ∷ 0xfe0f ∷ [])

abbrev pub relabel : Text → Option Toggle → Option Toggle
relabel theme none = none
relabel theme (some b) =
    some
      (record { label = icon theme; title = codes "Switch theme (current: " ++ theme ++ codes ")" })

abbrev pub cookie_write : Text → Text
cookie_write theme =
    if text_eq theme auto
    then codes "theme=; path=/; max-age=0; SameSite=Lax"
    else codes "theme=" ++ theme ++ codes "; path=/; max-age=31536000; SameSite=Lax"

unfoldable pub apply_theme : Text → Page → Page
apply_theme theme page = record {
  attribute = theme;
  cookie_writes = cookie_write theme ∷ page.cookie_writes;
  storage = some theme;
  toggle = relabel theme page.toggle;
}

-- `localStorage.getItem(THEME_KEY) || 'auto'`
abbrev pub stored_or_auto : Option Text → Text
stored_or_auto none = auto
stored_or_auto (some t) = if is_nil t then auto else t

-- `{ auto: 'dark', dark: 'light', light: 'auto' }[current] || 'auto'`
unfoldable pub next_theme : Text → Text
next_theme current =
    if text_eq current auto then dark else if text_eq current dark then light else auto

unfoldable pub cycle_theme : Page → Page
cycle_theme page = apply_theme (next_theme (stored_or_auto page.storage)) page

-- The restore on page load.
unfoldable pub restore : Page → Page
restore page = apply_theme (stored_or_auto page.storage) page

-- A button of the settings page, with its attribute `data-theme-set`.
unfoldable pub choose_theme : Text → Page → Page
choose_theme theme page = apply_theme theme page

-- The page is loaded, the toggle is clicked, or a button of the settings page is.
pub data Event : Type 0 where
  load toggle_click : Event
  choose : Text → Event

unfoldable pub step : Page → Event → Page
step page load = restore page
step page toggle_click = cycle_theme page
step page (choose theme) = choose_theme theme page

unfoldable pub run : Page → List Event → Page
run page [] = page
run page (e ∷ es) = run (step page e) es
