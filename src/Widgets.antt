-- ===== src/Widgets.antt =====
-- The smaller blocks of src/server/tmpl/static/js/app.js.
pub mod Create
pub mod Install
pub mod Consent
pub mod Flash
pub mod Language
