-- ===== src/Widgets/Install.antt =====
-- The install prompt of src/server/tmpl/static/js/app.js: every `beforeinstallprompt` event adds one
-- more click listener to the button, which the style sheet hides at first.
use caslink.Prelude.{
  ℕ, zero, suc, ◌+◌, Bool, true, false, List, [], ◌∷◌, ◌++◌, ◌≡◌, ◌⊎◌, inl, inr, refl, ap, arith,
  Option, none, ◌∙◌, some, if◌then◌else◌, replicate, Option-cases, is_some,
}

-- `deferredInstallPrompt` (the event by its number), the click listeners on the button, whether the
-- button is shown, the calls of `prompt()` by event, the latest first, and the `userChoice` promises
-- that the listeners wait for.
pub record State : Type 0 where
  pub deferred : Option ℕ
  pub listeners : ℕ
  pub is_shown : Bool
  pub prompts : List ℕ
  pub choices : ℕ

abbrev pub start : State
start = record { deferred = none; listeners = 0; is_shown = false; prompts = []; choices = 0 }

-- The browser's event; the page has the button.
unfoldable pub on_before_install : ℕ → State → State
on_before_install e s = record s { deferred = some e; listeners = suc s.listeners; is_shown = true }

-- One listener; without an event it throws a `TypeError`, which ends it.
abbrev pub one_listener : Option ℕ → State → State
one_listener none s = s
one_listener (some e) s = record s { prompts = e ∷ s.prompts; choices = suc s.choices }

unfoldable pub run_listeners : ℕ → State → State
run_listeners zero s = s
run_listeners (suc n) s = run_listeners n (one_listener s.deferred s)

-- A click on the button, if it is shown.
unfoldable pub on_click : State → State
unfolding run_listeners
on_click s = if s.is_shown then run_listeners s.listeners s else s

abbrev pub settle_with : ℕ → State → State
settle_with zero s = s
settle_with (suc n) s = record s { deferred = none; is_shown = false; choices = n }

-- A `userChoice` promise that settles.
unfoldable pub on_choice : State → State
on_choice s = settle_with s.choices s

pub data Event : Type 0 where
  before_install : ℕ → Event
  press choice : Event

unfoldable pub step : State → Event → State
step s (before_install e) = on_before_install e s
step s press = on_click s
step s choice = on_choice s

unfoldable pub run : State → List Event → State
run s [] = s
run s (e ∷ es) = run (step s e) es

-- How often the browser has offered an installation.
abbrev pub offers : List Event → ℕ
offers [] = 0
offers (before_install e ∷ es) = suc (offers es)
offers (_ ∷ es) = offers es

-- What the run of the listeners leaves.
abbrev prompted : ℕ → ℕ → State → State
prompted n e s = record s { prompts = replicate n e ++ s.prompts; choices = n + s.choices }

replicate-append : (n e : ℕ) (ps : List ℕ) → replicate n e ++ e ∷ ps ≡ e ∷ (replicate n e ++ ps)
replicate-append zero e ps = refl
replicate-append (suc n) e ps = ap (λ qs. e ∷ qs) (replicate-append n e ps)

run_listeners-some :
    (n e : ℕ) (s : State) → s.deferred ≡ some e → run_listeners n s ≡ prompted n e s
unfolding run_listeners
run_listeners-some zero e s h =
    let none_more : s.choices ≡ 0 + s.choices = omega arith in
    λ i. record s { choices = none_more i }
run_listeners-some (suc n) e s h =
    let once = record s { prompts = e ∷ s.prompts; choices = suc s.choices } in
    let counted : n + suc s.choices ≡ suc n + s.choices = omega arith in
    ap (λ d. run_listeners n (one_listener d s)) h
    ∙ run_listeners-some n e once h
    ∙ (λ i. record s { prompts = replicate-append n e s.prompts i; choices = counted i })

-- The button is shown exactly while there is an event to prompt, and it has so many listeners.
pub record IsReady (n : ℕ) (s : State) : Type 0 where
  pub ready : s.is_shown ≡ is_some s.deferred
  pub counted : s.listeners ≡ n

is_shown-none : (s : State) → s.is_shown ≡ is_some s.deferred → s.deferred ≡ none → on_click s ≡ s
unfolding on_click
is_shown-none s r h = let hidden : s.is_shown ≡ false = r ∙ ap is_some h in rw hidden refl

on_click-some :
    (e : ℕ) (s : State)
    → s.is_shown ≡ is_some s.deferred
    → s.deferred ≡ some e
    → on_click s ≡ prompted s.listeners e s
unfolding on_click
on_click-some e s r h =
    let shown : s.is_shown ≡ true = r ∙ ap is_some h in
    ap (λ b. if b then run_listeners s.listeners s else s) shown
    ∙ run_listeners-some s.listeners e s h

on_click-IsReady : (n : ℕ) (s : State) → IsReady n s → IsReady n (on_click s)
on_click-IsReady n s k = elim (Option-cases s.deferred) [
  | inl missing ↦ rw (is_shown-none s k.ready missing) k
  | inr (e, offered) ↦
      rw (on_click-some e s k.ready offered) (record { ready = k.ready; counted = k.counted })
]

settle_with-IsReady : (n c : ℕ) (s : State) → IsReady n s → IsReady n (settle_with c s)
settle_with-IsReady n zero s k = k
settle_with-IsReady n (suc c) s k = record { ready = refl; counted = k.counted }

run-IsReady :
    (es : List Event) (n : ℕ) (s : State) → IsReady n s → IsReady (n + offers es) (run s es)
unfolding run step on_before_install on_choice
run-IsReady [] n s k = let same : n + 0 ≡ n = omega arith in rw same k
run-IsReady (before_install e ∷ es) n s k =
    let more : n + suc (offers es) ≡ suc n + offers es = omega arith in
    rw more (
      run-IsReady es (suc n) (on_before_install e s)
        (record { ready = refl; counted = ap suc k.counted }))
run-IsReady (press ∷ es) n s k = run-IsReady es n (on_click s) (on_click-IsReady n s k)
run-IsReady (choice ∷ es) n s k =
    run-IsReady es n (on_choice s) (settle_with-IsReady n s.choices s k)

-- After any sequence of events on a page, either the button is hidden and a click changes nothing, or
-- there is an event to prompt, so that no listener throws, and a click prompts that event once for
-- each time that the browser has offered an installation.
pub on_click-run :
    (es : List Event)
    → let s = run start es in
      ((s.is_shown ≡ false) × (on_click s ≡ s))
      ⊎ ((e : ℕ) × (s.deferred ≡ some e)
          × ((on_click s).prompts ≡ replicate (offers es) e ++ s.prompts))
on_click-run es =
    let k = run-IsReady es 0 start (record { ready = refl; counted = refl }) in
    let none_before : 0 + offers es ≡ offers es = omega arith in
    elim (Option-cases (run start es).deferred) [
      | inl missing ↦
          inl (k.ready ∙ ap is_some missing, is_shown-none (run start es) k.ready missing)
      | inr (e, offered) ↦ inr (
        e,
        offered,
        ap (λ (t : State). t.prompts) (on_click-some e (run start es) k.ready offered)
            ∙ ap (λ n. replicate n e ++ (run start es).prompts) (k.counted ∙ none_before),
      )
    ]
