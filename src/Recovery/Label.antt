-- ===== src/Recovery/Label.antt =====
-- The copy button of the recovery keys page over time.
use caslink.Prelude.{
  ℕ, zero, suc, ◌<◌, Text, Bool, true, false, List, [], ◌∷◌, ◌≡◌, ◌⊎◌, inl, inr, refl, arith, All,
}
use caslink.Recovery.{
  Buttons, copy_label, copied_label, on_download, on_copy, settle_write, on_written, fire_timer,
  on_timer, Event, download, copy, timer, written, step, run,
}

-- The label is its own or, while a timer runs, "Copied!"; only the keys are ever copied or saved.
pub record IsSound (text : Text) (b : Buttons) : Type 0 where
  pub labelled : (b.label ≡ copy_label) ⊎ ((b.label ≡ copied_label) × (0 < b.timers))
  pub keys_copied : All (λ t. t ≡ text) b.copied
  pub keys_saved : All (λ d. d.1 ≡ text) b.downloads

settle_write-IsSound :
    (text : Text) (n : ℕ) (w : Bool) (b : Buttons)
    → IsSound text b
    → IsSound text (settle_write n w text b)
settle_write-IsSound text zero w b h = h
settle_write-IsSound text (suc n) false b h = record {
  labelled = h.labelled;
  keys_copied = h.keys_copied;
  keys_saved = h.keys_saved;
}
settle_write-IsSound text (suc n) true b h = record {
  labelled = inr (refl, omega arith);
  keys_copied = (refl, h.keys_copied);
  keys_saved = h.keys_saved;
}

fire_timer-IsSound :
    (text : Text) (n : ℕ) (b : Buttons) → IsSound text b → IsSound text (fire_timer n b)
fire_timer-IsSound text zero b h = h
fire_timer-IsSound text (suc n) b h = record {
  labelled = inl refl;
  keys_copied = h.keys_copied;
  keys_saved = h.keys_saved;
}

module _ (text : Text) (has_clipboard : Bool) where
  on_copy-IsSound : (c : Bool) (b : Buttons) → IsSound text b → IsSound text (on_copy c b)
  unfolding on_copy
  on_copy-IsSound true b h = record {
    labelled = h.labelled;
    keys_copied = h.keys_copied;
    keys_saved = h.keys_saved;
  }
  on_copy-IsSound false b h = h

  step-IsSound :
      (b : Buttons) (e : Event) → IsSound text b → IsSound text (step text has_clipboard b e)
  unfolding step on_download on_written on_timer
  step-IsSound b download h = record {
    labelled = h.labelled;
    keys_copied = h.keys_copied;
    keys_saved = (refl, h.keys_saved);
  }
  step-IsSound b copy h = on_copy-IsSound has_clipboard b h
  step-IsSound b (written w) h = settle_write-IsSound text b.writes w b h
  step-IsSound b timer h = fire_timer-IsSound text b.timers b h

  -- However the buttons are pressed, and however writes and timers fall in between, the copy button
  -- shows "Copied!" only while a timer is running and its own label otherwise, and whatever is copied
  -- or downloaded is the text of the keys.
  pub run-IsSound :
      (es : List Event) (b : Buttons) → IsSound text b → IsSound text (run text has_clipboard b es)
  unfolding run
  run-IsSound [] b h = h
  run-IsSound (e ∷ es) b h = run-IsSound es (step text has_clipboard b e) (step-IsSound b e h)
