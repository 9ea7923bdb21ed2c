-- ===== src/Confirm/Modern.antt =====
-- With `showModal` and `requestSubmit` the scripts do what they promise: a form is submitted exactly
-- when the user confirms.
use caslink.Prelude.{ℕ, suc, true, List, [], ◌∷◌, ◌≡◌, refl, arith, Option, none, some}
use caslink.Confirm.{
  Engine, ReturnValue, cancel, confirm, Dialog, State, start, open_for, closed, submit_form,
  on_confirm, run_listeners, Closing, button, escape, Event, user_submit, close, close_dialog, step,
  run,
}

-- A submission is nested at most once, so the bound two is enough.
pub submit_form_enough :
    (engine : Engine) (n f : ℕ) (s : State)
    → submit_form engine (suc (suc n)) f s ≡ submit_form engine 2 f s
unfolding submit_form
submit_form_enough engine n f s = ground arith

abbrev pub modern : Engine
modern = record { show_modal = true; request_submit = true }

-- What the forms promise: the form that the user is asked about, and the submissions.
pub record Promise : Type 0 where
  pub asking : Option ℕ
  pub submitted : List ℕ

abbrev pub answered : Closing → ℕ → List ℕ → List ℕ
answered (button confirm) f fs = f ∷ fs
answered (button cancel) f fs = fs
answered escape f fs = fs

abbrev pub closing : Closing → Option ℕ → List ℕ → Promise
closing c none fs = record { asking = none; submitted = fs }
closing c (some f) fs = record { asking = none; submitted = answered c f fs }

abbrev pub asked : ℕ → Option ℕ → Option ℕ
asked f none = some f
asked f (some g) = some g

unfoldable pub promise_step : Promise → Event → Promise
promise_step a (user_submit f) = record a { asking = asked f a.asking }
promise_step a (close c) = closing c a.asking a.submitted

unfoldable pub promise_run : Promise → List Event → Promise
promise_run a [] = a
promise_run a (e ∷ es) = promise_run (promise_step a e) es

abbrev page : Option Dialog → List ℕ → State
page d fs = record { dialog = d; confirmed = []; firing = none; submitted = fs }

-- The page keeps the promise: its dialog is not built, closed without listeners, or open for the one
-- form that the user is asked about; nothing is marked as confirmed, and no event is being fired.
pub data Keeps : State → Promise → Type 0 where
  fresh : (fs : List ℕ) → Keeps (page none fs) (record { asking = none; submitted = fs })
  idle :
      (v : ReturnValue) (fs : List ℕ)
      → Keeps (page (some (closed v)) fs) (record { asking = none; submitted = fs })
  waiting :
      (f : ℕ) (fs : List ℕ)
      → Keeps
          (page (some (open_for f (closed cancel))) fs)
          (record { asking = some f; submitted = fs })

on_confirm_lem :
    (f : ℕ) (d : Option Dialog) (fs : List ℕ) → on_confirm modern f (page d fs) ≡ page d (f ∷ fs)
unfolding on_confirm submit_form
on_confirm_lem f d fs = ground arith

step-Keeps :
    {s : State} {a : Promise} (e : Event) → Keeps s a → Keeps (step modern s e) (promise_step a e)
unfolding step promise_step close_dialog run_listeners submit_form
step-Keeps (user_submit f) (fresh fs) = waiting f fs
step-Keeps (user_submit f) (idle v fs) = waiting f fs
step-Keeps (user_submit f) (waiting g fs) = waiting g fs
step-Keeps (close c) (fresh fs) = fresh fs
step-Keeps (close c) (idle v fs) = idle v fs
step-Keeps (close escape) (waiting g fs) = idle cancel fs
step-Keeps (close (button cancel)) (waiting g fs) = idle cancel fs
step-Keeps (close (button confirm)) (waiting g fs) =
    rw (on_confirm_lem g (some (closed confirm)) fs) (idle confirm (g ∷ fs))

-- With `showModal` and `requestSubmit`, from a state that keeps the promise on, the page keeps it
-- whatever the user does: a form is submitted when and only when the user presses the confirm
-- button of a dialog that was opened for it, each press submits it once, and at most one form is
-- asked about at a time.
pub run-Keeps :
    (es : List Event) {s : State} {a : Promise}
    → Keeps s a
    → Keeps (run modern s es) (promise_run a es)
unfolding run promise_run
run-Keeps [] k = k
run-Keeps (e ∷ es) k = run-Keeps es (step-Keeps e k)

-- From a freshly loaded page.
pub submitted-run :
    (es : List Event)
    → (run modern start es).submitted
      ≡ (promise_run (record { asking = none; submitted = [] }) es).submitted
submitted-run es = same (run-Keeps es (fresh []))
  where
    same : {s : State} {a : Promise} → Keeps s a → s.submitted ≡ a.submitted
    same (fresh fs) = refl
    same (idle v fs) = refl
    same (waiting f fs) = refl
