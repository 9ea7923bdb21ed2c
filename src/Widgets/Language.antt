-- ===== src/Widgets/Language.antt =====
-- The language selector of src/server/tmpl/static/js/app.js, a field with `data-autosubmit`.
use caslink.Prelude.{
  ℕ, zero, suc, Text, List, ◌∷◌, ◌++◌, ◌≡◌, refl, ap, ◌∙◌, Option, none, some, replicate,
}

-- The form of the field, if it stands in one, and the forms that have been submitted, the latest
-- first. `submit` fires no submit event, so the handlers of the page do not see these submissions.
pub record Selector : Type 0 where
  pub form : Option Text
  pub submitted : List Text

abbrev pub submit : Option Text → List Text → List Text
submit none submitted = submitted
submit (some form) submitted = form ∷ submitted

unfoldable pub on_change : Selector → Selector
on_change s = record s { submitted = submit s.form s.submitted }

unfoldable pub run : ℕ → Selector → Selector
run zero s = s
run (suc n) s = on_change (run n s)

form-run : (n : ℕ) (s : Selector) → (run n s).form ≡ s.form
unfolding run on_change
form-run zero s = refl
form-run (suc n) s = form-run n s

-- Each change in a form submits that form once.
pub submitted-run :
    (n : ℕ) (s : Selector) (form : Text)
    → s.form ≡ some form
    → (run n s).submitted ≡ replicate n form ++ s.submitted
unfolding run on_change
submitted-run zero s form h = refl
submitted-run (suc n) s form h =
    ap (λ f. submit f (run n s).submitted) (form-run n s ∙ h)
    ∙ ap (λ ts. form ∷ ts) (submitted-run n s form h)
