-- ===== src/Copy/Labels.antt =====
-- The label of a copy button over time.
use mathlib.Core.Path.{subst}
use caslink.Prelude.{
  Bool-cases, inl, inr, Text, List, [], ◌∷◌, ◌++◌, ◌≡◌, refl, sym, ◌∙◌, Option, some, All,
  All-append, ℕ, zero, suc,
}
use caslink.Copy.{
  Button, is_wired, Elements, copied_label, click, fire, restore_first, Event, press, tick, step,
  run,
}

-- Presses that wait for the label to come back.
abbrev pub patient : ℕ → List Event
patient zero = []
patient (suc n) = press ∷ tick ∷ patient n

press_tick :
    (elements : Elements) (b : Button)
    → b.timers ≡ []
    → ((fire (click elements b)).label ≡ b.label) × ((fire (click elements b)).timers ≡ [])
unfolding click fire
press_tick elements b h = elim (Bool-cases (is_wired b)) [
  | inl wired ↦ rw (wired, h) (refl, refl)
  | inr not_wired ↦ rw (not_wired, h) (refl, refl)
]

-- On a button without pending timers, after any number of presses, each followed by its timer
-- before the next press, the label is the one before and no timer is pending.
pub label-run-patient :
    (elements : Elements) (n : ℕ) (b : Button)
    → b.timers ≡ []
    → ((run elements b (patient n)).label ≡ b.label) × ((run elements b (patient n)).timers ≡ [])
unfolding run step
label-run-patient elements zero b h = (refl, h)
label-run-patient elements (suc n) b h =
    let (same, none_left) = press_tick elements b h in
    let (later, empty) = label-run-patient elements n (fire (click elements b)) none_left in
    (later ∙ same, empty)

-- The label and every label to be restored read "Copied!".
pub record IsStuck (b : Button) : Type 0 where
  pub shown : b.label ≡ copied_label
  pub pending : All (λ t. t ≡ copied_label) b.timers

restore_first-IsStuck :
    (ts : List Text) (b : Button)
    → All (λ t. t ≡ copied_label) ts
    → IsStuck b
    → IsStuck (restore_first ts b)
restore_first-IsStuck [] b h k = k
restore_first-IsStuck (t ∷ ts) b h k = record { shown = h.0; pending = h.1 }

step-IsStuck :
    (elements : Elements) (e : Event) (b : Button) → IsStuck b → IsStuck (step elements b e)
unfolding step click fire
step-IsStuck elements press b k = elim (Bool-cases (is_wired b)) [
  | inl wired ↦ rw wired (record {
    shown = refl;
    pending = All-append (λ t. t ≡ copied_label) b.timers (b.label ∷ []) k.pending (k.shown, tt);
  })
  | inr not_wired ↦ rw not_wired k
]
step-IsStuck elements tick b k = restore_first-IsStuck b.timers b k.pending k

run-IsStuck :
    (elements : Elements) (es : List Event) (b : Button) → IsStuck b → IsStuck (run elements b es)
unfolding run
run-IsStuck elements [] b k = k
run-IsStuck elements (e ∷ es) b k =
    run-IsStuck elements es (step elements b e) (step-IsStuck elements e b k)

IsStuck-after_two :
    (elements : Elements) (target label : Text) (copy_text : Option Text) (copied : List Text)
    → IsStuck (
        run elements
          (record {
            copy = some target;
            copy_text = copy_text;
            label = label;
            timers = [];
            copied = copied;
          })
          (press ∷ press ∷ tick ∷ tick ∷ []))
unfolding run step click fire
IsStuck-after_two elements target label copy_text copied = record { shown = refl; pending = tt }

run-append :
    (elements : Elements) (b : Button) (ds es : List Event)
    → run elements b (ds ++ es) ≡ run elements (run elements b ds) es
unfolding run
run-append elements b [] es = refl
run-append elements b (d ∷ ds) es = run-append elements (step elements b d) ds es

-- On a button with `data-copy` and without pending timers, two presses before the first timer goes
-- off lose the label for good: from the second timer on the button reads "Copied!", whatever is
-- pressed and whatever timers go off later.
pub label-run_hasty :
    (elements : Elements) (b : Button) (target : Text) (es : List Event)
    → b.copy ≡ some target
    → b.timers ≡ []
    → (run elements b (press ∷ press ∷ tick ∷ tick ∷ es)).label ≡ copied_label
label-run_hasty elements b target es w h =
    let as_record : b ≡ record {
      copy = some target;
      copy_text = b.copy_text;
      label = b.label;
      timers = [];
      copied = b.copied;
    } =
      (λ i. record {
        copy = w i;
        copy_text = b.copy_text;
        label = b.label;
        timers = h i;
        copied = b.copied;
      }) in
    let stuck =
      subst (λ x. IsStuck (run elements x (press ∷ press ∷ tick ∷ tick ∷ []))) (sym as_record)
        (IsStuck-after_two elements target b.label b.copy_text b.copied) in
    rw (run-append elements b (press ∷ press ∷ tick ∷ tick ∷ []) es)
      (run-IsStuck elements es _ stuck).shown
