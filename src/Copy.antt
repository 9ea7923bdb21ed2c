-- ===== src/Copy.antt =====
-- The copy-to-clipboard buttons of src/server/tmpl/static/js/app.js. Both ways to the clipboard, the
-- asynchronous API and the hidden text area, are the write of one text; their failures are ignored
-- by the source.
pub mod Labels
use caslink.Prelude.{
  Text, codes, Bool, true, false, List, [], ◌∷◌, ◌++◌, Option, none, some, if◌then◌else◌, is_nil,
  is_some, or_else,
}

-- A button: the attributes `data-copy` and `data-copy-text`, its label, the labels that pending
-- timers will restore, the oldest first (all have the same delay), and what was copied, the latest
-- first.
pub record Button : Type 0 where
  pub copy : Option Text
  pub copy_text : Option Text
  pub label : Text
  pub timers : List Text
  pub copied : List Text

-- `querySelectorAll('[data-copy]')`: only a button with that attribute gets the handler.
abbrev pub is_wired : Button → Bool
is_wired b = is_some b.copy

-- The text of an element, by its id.
abbrev pub Elements : Type 0
Elements = Text → Option Text

unfoldable pub text_to_copy : Elements → Button → Text
text_to_copy elements b =
    let target = or_else b.copy [] in
    if is_nil target then or_else b.copy_text [] else or_else (elements target) target

abbrev pub copied_label : Text
copied_label = codes "Copied!"

unfoldable pub click : Elements → Button → Button
unfolding text_to_copy
click elements b =
    if is_wired b
    then record b {
      label = copied_label;
      timers = b.timers ++ b.label ∷ [];
      copied = text_to_copy elements b ∷ b.copied;
    }
    else b

abbrev pub restore_first : List Text → Button → Button
restore_first [] b = b
restore_first (t ∷ ts) b = record b { label = t; timers = ts }

-- The oldest timer goes off.
unfoldable pub fire : Button → Button
fire b = restore_first b.timers b

pub data Event : Type 0 where
  press tick : Event

unfoldable pub step : Elements → Button → Event → Button
step elements b press = click elements b
step elements b tick = fire b

unfoldable pub run : Elements → Button → List Event → Button
run elements b [] = b
run elements b (e ∷ es) = run elements (step elements b e) es
