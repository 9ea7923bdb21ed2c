-- ===== src/Widgets/Flash.antt =====
-- Messages that hide themselves, src/server/tmpl/static/js/app.js: `parseInt` of `data-autohide`, and
-- the two timers. Times are milliseconds after the page is ready; a number above the range of a timer
-- is left out.
use caslink.Prelude.{
  ℕ, zero, suc, ◌+◌, ◌*◌, ◌-◌, ◌≤◌, ◌<◌, Text, codes, true, false, [], ◌∷◌, ◌++◌, ◌≡◌, ◌↔◌, ◌∙◌,
  ◌/◌, ◌%◌, Bool-cases, inl, inr, refl, arith, if◌then◌else◌, ◌==◌, is_nil, is_digit, ltb,
  take_while, drop_while, All,
}
use caslink.Csrf.{is_white}
use caslink.Recovery.{decimal, decimal_with}
use caslink.Recovery.RoundTrip.{value, value-decimal_with, decimal_with-digits}

-- The digits of a text as a number, behind digits read already.
unfoldable pub digits_value : ℕ → Text → ℕ
digits_value n [] = n
digits_value n (c ∷ s) = digits_value (n * 10 + (c - b'0')) s

-- Without a digit the number is `NaN`, which a timer takes as 0.
abbrev pub leading_number : Text → ℕ
leading_number s = digits_value 0 (take_while is_digit s)

-- A number below zero gives a timer of no delay too.
abbrev pub signed_number : Text → ℕ
signed_number [] = 0
signed_number (c ∷ s) =
    if c == b'-' then 0 else if c == b'+' then leading_number s else leading_number (c ∷ s)

-- `parseInt(text, 10)` as the delay of `setTimeout`.
unfoldable pub parse_delay : Text → ℕ
unfolding take_while drop_while digits_value
parse_delay text = signed_number (drop_while is_white text)

-- `getAttribute('data-autohide') || '4000'`; the selector asks for the attribute.
unfoldable pub delay_of : Text → ℕ
unfolding parse_delay
delay_of attribute = parse_delay (if is_nil attribute then codes "4000" else attribute)

-- What has become of a message: it is there, its opacity has been set to 0, or it is removed.
pub data Shown : Type 0 where
  visible fading removed : Shown

unfoldable pub shown_at : Text → ℕ → Shown
shown_at attribute time =
    if ltb time (delay_of attribute)
    then visible
    else if ltb time (delay_of attribute + 400)
    then fading
    else removed

take_while_self : (s : Text) → All (λ c. is_digit c ≡ true) s → take_while is_digit s ≡ s
unfolding take_while
take_while_self [] h = refl
take_while_self (c ∷ s) h = rw (h.0, take_while_self s h.1)

digits_value-eq-value : (n : ℕ) (s : Text) → digits_value n s ≡ value n s
unfolding digits_value value
digits_value-eq-value n [] = refl
digits_value-eq-value n (c ∷ s) = digits_value-eq-value (n * 10 + (c - b'0')) s

not_white : (c : ℕ) → is_digit c ≡ true → is_white c ≡ false
not_white c h = ground arith

delay_of-digits :
    (s : Text) → All (λ c. is_digit c ≡ true) s → is_nil s ≡ false → delay_of s ≡ value 0 s
unfolding delay_of parse_delay drop_while
delay_of-digits [] h k = cc
delay_of-digits (c ∷ s) h k =
    let minus : (c == b'-') ≡ false = ground (arith, h.0) in
    let plus : (c == b'+') ≡ false = ground (arith, h.0) in
    rw (not_white c h.0, minus, plus, take_while_self (c ∷ s) h) (digits_value-eq-value 0 (c ∷ s))

is_nil-append : (s : Text) (c : ℕ) → is_nil (s ++ c ∷ []) ≡ false
is_nil-append [] c = refl
is_nil-append (d ∷ s) c = refl

decimal_with-ne-nil : (fuel n : ℕ) → is_nil (decimal_with fuel n) ≡ false
unfolding decimal_with
decimal_with-ne-nil zero n = refl
decimal_with-ne-nil (suc fuel) n = elim (Bool-cases (ltb n 10)) [
  | inl small ↦ rw small refl
  | inr large ↦ rw large (is_nil-append (decimal_with fuel (n / 10)) (n % 10 + b'0'))
]

delay_of-decimal : (n : ℕ) → delay_of (decimal n) ≡ n
unfolding decimal
delay_of-decimal n =
    delay_of-digits (decimal_with n n) (decimal_with-digits n n) (decimal_with-ne-nil n n)
    ∙ value-decimal_with n n (omega arith)

-- A message with a number n in `data-autohide` is visible exactly before n milliseconds, and removed
-- exactly from n + 400 milliseconds on.
pub shown_at-decimal :
    (n time : ℕ)
    → ((shown_at (decimal n) time ≡ visible) ↔ (time < n))
      × ((shown_at (decimal n) time ≡ removed) ↔ (n + 400 ≤ time))
unfolding shown_at
shown_at-decimal n time = rw (delay_of-decimal n) (ground arith)
