-- ===== src/Tests/Pages.antt =====
-- Themes, copy buttons and the recovery keys page.
use caslink.Prelude.{[], none, some}
use caslink.Theme.{Page, dark, auto, cookie_write, apply_theme, cycle_theme, restore}

abbrev page : Page
page = record {
  attribute = auto;
  cookie_writes = [];
  storage = none;
  toggle = some (record { label = []; title = [] });
}
