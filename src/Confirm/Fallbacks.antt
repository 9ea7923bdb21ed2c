-- ===== src/Confirm/Fallbacks.antt =====
-- Browsers that lack `showModal` or `requestSubmit`.
use caslink.Prelude.{ℕ, true, false, List, [], ◌∷◌, ◌≡◌, refl, ap, arith, Option, none, some, ◌==◌}
use caslink.Confirm.{
  Engine, confirm, Dialog, State, has, without, dialog_or_built, closed, submit_directly,
  submit_form, on_confirm, run_listeners, button, user_submit, close, is_open, close_dialog, step,
}

-- No dialog is open, and no event is being fired.
pub record IsResting (s : State) : Type 0 where
  pub resting : is_open s.dialog ≡ false
  pub silent : s.firing ≡ none

eq_self : (f : ℕ) → (f == f) ≡ true
eq_self f = ground arith

is_open-dialog_or_built :
    (d : Option Dialog) → is_open d ≡ false → is_open (some (dialog_or_built d)) ≡ false
is_open-dialog_or_built none h = refl
is_open-dialog_or_built (some d) h = h

-- A mark on a form lets its next submission through, with any browser.
step_of_marked :
    (engine : Engine) (s : State) (f : ℕ)
    → IsResting s
    → has f s.confirmed ≡ true
    → (step engine s (user_submit f)).submitted ≡ f ∷ s.submitted
unfolding step submit_form
step_of_marked engine s f r h = rw (r.resting, r.silent, h)

abbrev marked : ℕ → Option Dialog → List ℕ → State → State
marked f d fs s = record {
  dialog = d;
  confirmed = f ∷ without f s.confirmed;
  firing = none;
  submitted = fs;
}

marked_again :
    (engine : Engine) (f : ℕ) (d : Option Dialog) (fs : List ℕ) (s t : State)
    → t ≡ marked f d fs s
    → is_open d ≡ false
    → (has f t.confirmed ≡ true) × ((step engine t (user_submit f)).submitted ≡ f ∷ t.submitted)
marked_again engine f d fs s t e o =
    let m : has f t.confirmed ≡ true = rw (e, eq_self f) in
    (m, step_of_marked engine t f (record { resting = rw e o; silent = rw e }) m)

step_lost :
    (s : State) (f : ℕ)
    → IsResting s
    → has f s.confirmed ≡ false
    → step (record { show_modal = false; request_submit = true }) s (user_submit f)
      ≡ marked f (some (dialog_or_built s.dialog)) s.submitted s
unfolding step submit_form
step_lost s f r h = rw (r.resting, r.silent, h, eq_self f)

-- Without `showModal` but with `requestSubmit`, while no dialog is open and the form is not marked,
-- the first submission is lost: the nested `requestSubmit` is ignored, so nothing is submitted and
-- only the mark stays. The second one is let through without a question.
pub step_no_dialog :
    (s : State) (f : ℕ)
    → IsResting s
    → has f s.confirmed ≡ false
    → let engine : Engine = record { show_modal = false; request_submit = true } in
      let once = step engine s (user_submit f) in
      (once.submitted ≡ s.submitted)
      × (has f once.confirmed ≡ true)
      × ((step engine once (user_submit f)).submitted ≡ f ∷ once.submitted)
step_no_dialog s f r h =
    let e = step_lost s f r h in
    let (m, t) =
      marked_again _ f _ s.submitted s _ e (is_open-dialog_or_built s.dialog r.resting) in
    (ap (λ (u : State). u.submitted) e, m, t)

step_direct :
    (s : State) (f : ℕ)
    → IsResting s
    → has f s.confirmed ≡ false
    → step (record { show_modal = false; request_submit = false }) s (user_submit f)
      ≡ marked f (some (dialog_or_built s.dialog)) (f ∷ s.submitted) s
unfolding step submit_form submit_directly
step_direct s f r h = rw (r.resting, r.silent, h)

step_confirmed :
    (s : State) (f : ℕ) (d : Option Dialog)
    → s.dialog ≡ d
    → IsResting s
    → has f s.confirmed ≡ false
    → (dialog_or_built d).listeners ≡ []
    → step
        (record { show_modal = true; request_submit = false })
        (step (record { show_modal = true; request_submit = false }) s (user_submit f))
        (close (button confirm))
      ≡ marked f (some (closed confirm)) (f ∷ s.submitted) s
unfolding step submit_form close_dialog run_listeners on_confirm submit_directly
step_confirmed s f d e r h l = rw (r.resting, r.silent, h, e, l)

-- Without `requestSubmit`, for a form that is not marked while no dialog is open, the mark outlives
-- the submission, whether the user was asked (for a dialog without old listeners) or not: the form
-- is submitted, and its next submission goes through without a question.
pub step_no_request_submit :
    (s : State) (f : ℕ)
    → IsResting s
    → has f s.confirmed ≡ false
    → (dialog_or_built s.dialog).listeners ≡ []
    → let asking : Engine = record { show_modal = true; request_submit = false } in
      let silent : Engine = record { show_modal = false; request_submit = false } in
      let after = step asking (step asking s (user_submit f)) (close (button confirm)) in
      let once = step silent s (user_submit f) in
      (after.submitted ≡ f ∷ s.submitted)
      × (once.submitted ≡ f ∷ s.submitted)
      × ((step asking after (user_submit f)).submitted ≡ f ∷ after.submitted)
      × ((step silent once (user_submit f)).submitted ≡ f ∷ once.submitted)
step_no_request_submit s f r h l =
    let e = step_confirmed s f s.dialog refl r h l in
    let e' = step_direct s f r h in
    (
      ap (λ (u : State). u.submitted) e,
      ap (λ (u : State). u.submitted) e',
      (marked_again _ f _ (f ∷ s.submitted) s _ e refl).1,
      (marked_again _ f _ (f ∷ s.submitted) s _ e' (is_open-dialog_or_built s.dialog r.resting)).1,
    )
