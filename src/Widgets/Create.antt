-- ===== src/Widgets/Create.antt =====
-- The short-link create form of the dashboard. `j` is the JSON answer of POST /api/v1/urls; the server
-- sends an object always.
use caslink.Prelude.{Bool-cases, ℕ, zero, suc, ◌≤◌, length}
use caslink.Prelude.{
  Text, codes, Bool, false, List, [], ◌∷◌, ◌++◌, ◌≡◌, ◌≢◌, ◌⊎◌, inl, inr, refl, arith, Option, none,
  some, if◌then◌else◌, is_nil, or_else, ◌&&◌, not,
}
use caslink.Copy.{Button, Elements, click}

-- What is posted: `custom_code` only if it is not empty.
pub record Order : Type 0 where
  pub long_url : Text
  pub custom_code : Option Text

-- The answer; empty texts stand for missing or empty fields, as `&&` and `||` read them.
pub record Answer : Type 0 where
  pub is_ok : Bool
  pub short_url : Option Text
  pub message : Text
  pub error : Text

-- The form's two fields, the link and the copy button of the result box, whether that box is hidden,
-- and the toasts shown, as class suffix and text.
pub record View : Type 0 where
  pub long_url : Text
  pub custom_code : Text
  pub href : Text
  pub copy_button : Button
  pub is_hidden : Bool
  pub toasts : List (Text × Text)

unfoldable pub order : View → Order
order v = record {
  long_url = v.long_url;
  custom_code = if is_nil v.custom_code then none else some v.custom_code;
}

-- `j.data.short_url`, if it is not empty.
abbrev pub short_url_of : Answer → Text
short_url_of j = or_else j.short_url []

-- `j.message || j.error || 'Failed to create link'`
abbrev pub failure_text : Answer → Text
failure_text j =
    if is_nil j.message
    then (if is_nil j.error then codes "Failed to create link" else j.error)
    else j.message

abbrev pub show_toast : Text → Text → View → View
show_toast msg type v = record v { toasts = (type, msg) ∷ v.toasts }

-- The answer to the submission; `none` is a network error, or an answer that is no JSON. `form.reset`
-- empties the fields, which the template leaves empty.
unfoldable pub on_answer : Option Answer → View → View
on_answer none v =
    show_toast (codes "Network error " ++ 0x2014 ∷ codes " check your connection") (codes "danger")
      v
on_answer (some j) v =
    if j.is_ok && not (is_nil (short_url_of j))
    then record {
      long_url = [];
      custom_code = [];
      href = short_url_of j;
      copy_button = record (v.copy_button) { copy_text = some (short_url_of j) };
      is_hidden = false;
      toasts = v.toasts;
    }
    else show_toast (failure_text j) (codes "danger") v

abbrev pub drop_oldest {ℓ} : {A : Type ℓ} → List A → List A
drop_oldest [] = []
drop_oldest (t ∷ []) = []
drop_oldest (t ∷ u ∷ ts) = t ∷ drop_oldest (u ∷ ts)

-- A timer of five seconds goes off. The timers go off in the order of their toasts, and each removes
-- its own, which is the oldest.
unfoldable pub on_toast_timer : View → View
on_toast_timer v = record v { toasts = drop_oldest v.toasts }

unfoldable pub run_timers : ℕ → View → View
run_timers zero v = v
run_timers (suc n) v = run_timers n (on_toast_timer v)

length-drop_oldest {ℓ} :
    {A : Type ℓ} (ts : List A) (n : ℕ) → length ts ≤ suc n → length (drop_oldest ts) ≤ n
length-drop_oldest [] n h = omega arith
length-drop_oldest (t ∷ []) n h = omega arith
length-drop_oldest (t ∷ u ∷ ts) (suc n) h =
    omega (arith, length-drop_oldest (u ∷ ts) n (omega (arith, h)))
length-drop_oldest (t ∷ u ∷ ts) zero h = absurd (omega (arith, h))

-- When as many timers have gone off as there were toasts, none is left.
pub toasts-run_timers : (n : ℕ) (v : View) → length v.toasts ≤ n → (run_timers n v).toasts ≡ []
unfolding run_timers on_toast_timer
toasts-run_timers zero v h = no_toast v.toasts h
  where
    no_toast : (ts : List (Text × Text)) → length ts ≤ zero → ts ≡ []
    no_toast [] l = refl
    no_toast (t ∷ ts) l = absurd (omega (arith, l))
toasts-run_timers (suc n) v h =
    toasts-run_timers n (on_toast_timer v) (length-drop_oldest v.toasts n h)

ne_nil : (t : Text) → is_nil t ≡ false → t ≢ []
ne_nil [] h = λ e. cc
ne_nil (c ∷ t) h = λ e. cc

failure_text-ne-nil :
    (message error : Text)
    → (if is_nil message
        then (if is_nil error then codes "Failed to create link" else error)
        else message)
      ≢ []
failure_text-ne-nil [] [] = λ e. cc
failure_text-ne-nil [] (c ∷ t) = λ e. cc
failure_text-ne-nil (c ∷ t) error = λ e. cc

-- Every answer either shows the new link, empties the form and shows no toast, or shows exactly one
-- error toast with a text and leaves form, link and result box as they were.
pub on_answer_lem :
    (answer : Option Answer) (v : View)
    → let v' = on_answer answer v in
      ((v'.toasts ≡ v.toasts)
        × (v'.is_hidden ≡ false)
        × (v'.href ≢ [])
        × (v'.long_url ≡ [])
        × (v'.copy_button.copy_text ≡ some v'.href))
      ⊎ ((msg : Text) × (msg ≢ []) × (v' ≡ show_toast msg (codes "danger") v))
unfolding on_answer
on_answer_lem none v = inr (_, (λ e. cc), refl)
on_answer_lem (some j) v = elim (Bool-cases (j.is_ok && not (is_nil (short_url_of j)))) [
  | inl h ↦
      inl
        (rw h refl, rw h refl, rw h (ne_nil (short_url_of j) (ground arith)), rw h refl, rw h refl)
  | inr h ↦ inr (failure_text j, failure_text-ne-nil j.message j.error, rw h refl)
]

-- The dashboard's copy button has `data-copy-text` and no `data-copy`. It gets no handler: after a
-- link is created a press copies nothing and changes nothing.
pub click-on_answer :
    (elements : Elements) (answer : Option Answer) (v : View)
    → v.copy_button.copy ≡ none
    → click elements (on_answer answer v).copy_button ≡ (on_answer answer v).copy_button
unfolding click on_answer
click-on_answer elements none v h = ground arith
click-on_answer elements (some j) v h =
    elim (Bool-cases (j.is_ok && not (is_nil (short_url_of j)))) [
      | inl good ↦ rw (good, h) refl
      | inr bad ↦ rw (bad, h) refl
    ]
