-- ===== src/Recovery.antt =====
-- The recovery keys page of src/server/tmpl/static/js/app.js: the numbered text that is downloaded or
-- copied, and the continue button. `JSON.parse` of the keys is outside.
pub mod RoundTrip
pub mod Label
use caslink.Prelude.{
  ℕ, zero, suc, ◌+◌, ◌/◌, ◌%◌, Text, codes, Bool, true, false, not, List, [], ◌∷◌, ◌++◌, Option,
  none, some, if◌then◌else◌, ltb, length,
}

-- The decimal digits of a number. One step of fuel for each digit, so the number itself is enough.
unfoldable pub decimal_with : ℕ → ℕ → Text
decimal_with zero n = (n % 10 + b'0') ∷ []
decimal_with (suc fuel) n =
    let more = decimal_with fuel (n / 10) ++ (n % 10 + b'0') ∷ [] in
    if ltb n 10 then (n + b'0') ∷ [] else more

unfoldable pub decimal : ℕ → Text
unfolding decimal_with
decimal n = decimal_with n n

-- `(i + 1) + '. ' + k`
unfoldable pub numbered : ℕ → Text → Text
unfolding decimal
numbered i k = decimal (i + 1) ++ b'.' ∷ b' ' ∷ k

-- `keys.map(…)`, from index `i` on.
unfoldable pub number_all : ℕ → List Text → List Text
unfolding numbered
number_all i [] = []
number_all i (k ∷ ks) = numbered i k ∷ number_all (i + 1) ks

-- `.join('\n')`
unfoldable pub join_lines : List Text → Text
join_lines [] = []
join_lines (l ∷ []) = l
join_lines (l ∷ m ∷ ls) = l ++ b'\n' ∷ join_lines (m ∷ ls)

unfoldable pub keys_text : List Text → Text
unfolding number_all join_lines
keys_text keys = join_lines (number_all 0 keys)

-- The box "confirmed" and the button "continue": `continueBtn.disabled = !confirmed.checked` on every
-- change of the box.
pub record Continue : Type 0 where
  pub checked : Bool
  pub disabled : Bool

unfoldable pub on_change : Bool → Continue → Continue
on_change checked c = record { checked = checked; disabled = not checked }

-- The buttons of the page: the label of the copy button, the clipboard writes that are not settled, the
-- timers that will restore the label, what was copied, and the files downloaded, by name and text, all
-- the latest first.
pub record Buttons : Type 0 where
  pub label : Text
  pub writes : ℕ
  pub timers : ℕ
  pub copied : List Text
  pub downloads : List (Text × Text)

abbrev pub copy_label : Text
copy_label = codes "Copy All Keys"

abbrev pub copied_label : Text
copied_label = codes "Copied!"

unfoldable pub on_download : Text → Buttons → Buttons
on_download text b = record b {
  downloads = (codes "caslink-recovery-keys.txt", text) ∷ b.downloads;
}

-- Without `navigator.clipboard` the handler throws and nothing changes.
unfoldable pub on_copy : Bool → Buttons → Buttons
on_copy has_clipboard b = if has_clipboard then record b { writes = suc b.writes } else b

abbrev pub settle_write : ℕ → Bool → Text → Buttons → Buttons
settle_write zero is_written text b = b
settle_write (suc n) false text b = record b { writes = n }
settle_write (suc n) true text b = record b {
  label = copied_label;
  writes = n;
  timers = suc b.timers;
  copied = text ∷ b.copied;
}

-- A write is settled; a rejected one is not handled.
unfoldable pub on_written : Bool → Text → Buttons → Buttons
on_written is_written text b = settle_write b.writes is_written text b

abbrev pub fire_timer : ℕ → Buttons → Buttons
fire_timer zero b = b
fire_timer (suc n) b = record b { label = copy_label; timers = n }

unfoldable pub on_timer : Buttons → Buttons
on_timer b = fire_timer b.timers b

pub data Event : Type 0 where
  download copy timer : Event
  written : Bool → Event

module _ (text : Text) (has_clipboard : Bool) where
  unfoldable pub step : Buttons → Event → Buttons
  step b download = on_download text b
  step b copy = on_copy has_clipboard b
  step b (written is_written) = on_written is_written text b
  step b timer = on_timer b

  unfoldable pub run : Buttons → List Event → Buttons
  run b [] = b
  run b (e ∷ es) = run (step b e) es
