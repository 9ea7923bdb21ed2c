-- ===== src/Confirm.antt =====
-- The confirm-before-submit forms of src/server/tmpl/static/js/app.js: `buildConfirmDialog`,
-- `askConfirm`, `onClose` and the `submit` handler, with the form submission algorithm of the HTML
-- standard around them. Forms are numbers. While the modal dialog is open the rest of the page is
-- inert, so the user submits no form then.
pub mod Modern
pub mod Fallbacks
use caslink.Prelude.{
  ℕ, zero, suc, Bool, true, false, not, List, [], ◌∷◌, ◌++◌, Option, none, some, if◌then◌else◌,
  ◌==◌, keep_if, any,
}

-- What the browser offers: `<dialog>.showModal`, and `form.requestSubmit`.
pub record Engine : Type 0 where
  pub show_modal : Bool
  pub request_submit : Bool

-- The dialog's `returnValue`.
pub data ReturnValue : Type 0 where
  cancel confirm : ReturnValue

-- The shared dialog: whether it is open, its return value, and its listeners for `close`, each by the
-- form that its `onConfirm` submits.
pub record Dialog : Type 0 where
  pub is_open : Bool
  pub return_value : ReturnValue
  pub listeners : List ℕ

-- `confirmDialog`, the forms with the attribute `data-confirmed`, the form whose submission events
-- are being fired, and the forms submitted so far, the latest first.
pub record State : Type 0 where
  pub dialog : Option Dialog
  pub confirmed : List ℕ
  pub firing : Option ℕ
  pub submitted : List ℕ

abbrev pub start : State
start = record { dialog = none; confirmed = []; firing = none; submitted = [] }

abbrev pub has : ℕ → List ℕ → Bool
has f fs = any (λ g. g == f) fs

abbrev pub without : ℕ → List ℕ → List ℕ
without f fs = keep_if (λ g. not (g == f)) fs

-- `buildConfirmDialog`: a closed dialog without listeners.
abbrev pub build_dialog : Dialog
build_dialog = record { is_open = false; return_value = cancel; listeners = [] }

abbrev pub dialog_or_built : Option Dialog → Dialog
dialog_or_built none = build_dialog
dialog_or_built (some d) = d

-- `addEventListener`, `returnValue = 'cancel'`, `showModal()`.
abbrev pub open_for : ℕ → Dialog → Dialog
open_for f d = record { is_open = true; return_value = cancel; listeners = d.listeners ++ f ∷ [] }

-- `form.submit()`: no events are fired, so no handler runs.
unfoldable pub submit_directly : ℕ → State → State
submit_directly f s = record s { submitted = f ∷ s.submitted }

abbrev pub is_firing : Option ℕ → ℕ → Bool
is_firing none f = false
is_firing (some g) f = g == f

module _ (engine : Engine) where
  -- `submit_form n` is a submission with events, by the user or by `requestSubmit`; one that comes
  -- while such events of the form are being fired is ignored by the standard. `n` bounds how deep
  -- such submissions are nested: a nested one is ignored, so two is enough (`submit_form_enough`).
  -- The `submit` handler takes away `data-confirmed` and lets the submission through, or prevents
  -- it and asks; `askConfirm` without `showModal` calls `onConfirm` at once.
  unfoldable pub submit_form : ℕ → ℕ → State → State
  submit_form zero f s = s
  submit_form (suc n) f s =
      let passed = record s { confirmed = without f s.confirmed; submitted = f ∷ s.submitted } in
      let asking = record s { dialog = some (dialog_or_built s.dialog); firing = some f } in
      let marked = record asking { confirmed = f ∷ without f s.confirmed } in
      let resubmitted = record (submit_form n f marked) { firing = s.firing } in
      let direct = record (submit_directly f marked) { firing = s.firing } in
      let asked = record s { dialog = some (open_for f (dialog_or_built s.dialog)) } in
      if is_firing s.firing f
      then s
      else if has f s.confirmed
      then passed
      else if engine.show_modal
      then asked
      else if engine.request_submit
      then resubmitted
      else direct

  -- `onConfirm` when the dialog has closed: nothing is being fired then.
  unfoldable pub on_confirm : ℕ → State → State
  on_confirm f s =
      let marked = record s { confirmed = f ∷ without f s.confirmed } in
      if engine.request_submit then submit_form 2 f marked else submit_directly f marked

  -- The `close` event: each listener removes itself and acts on the return value.
  unfoldable pub run_listeners : ReturnValue → List ℕ → State → State
  run_listeners v [] s = s
  run_listeners cancel (f ∷ fs) s = run_listeners cancel fs s
  run_listeners confirm (f ∷ fs) s = run_listeners confirm fs (on_confirm f s)

-- How the dialog is closed: by one of its buttons, whose value becomes the return value, or by
-- Escape, which leaves it.
pub data Closing : Type 0 where
  button : ReturnValue → Closing
  escape : Closing

abbrev pub value_after : Closing → Dialog → ReturnValue
value_after (button v) d = v
value_after escape d = d.return_value

pub data Event : Type 0 where
  user_submit : ℕ → Event
  close : Closing → Event

abbrev pub is_open : Option Dialog → Bool
is_open none = false
is_open (some d) = d.is_open

abbrev pub closed : ReturnValue → Dialog
closed v = record { is_open = false; return_value = v; listeners = [] }

module _ (engine : Engine) where
  unfoldable pub close_dialog : Closing → Option Dialog → State → State
  close_dialog c none s = s
  close_dialog c (some d) s =
      if d.is_open
      then run_listeners engine (value_after c d) d.listeners
          (record s { dialog = some (closed (value_after c d)) })
      else s

  unfoldable pub step : State → Event → State
  step s (user_submit f) = if is_open s.dialog then s else submit_form engine 2 f s
  step s (close c) = close_dialog c s.dialog s

  unfoldable pub run : State → List Event → State
  run s [] = s
  run s (e ∷ es) = run (step s e) es
