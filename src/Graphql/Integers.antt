-- ===== src/Graphql/Integers.antt =====
-- Integers that are printed are read by `ParseInt`.
use caslink.Prelude.{
  ℕ, zero, suc, ◌+◌, ◌*◌, ◌-◌, ◌/◌, ◌%◌, ◌≡◌, ◌≢◌, refl, ap, ◌∙◌, arith, Text, true, false, [], ◌∷◌,
  ◌++◌, ltb, All, all, is_digit, some, ◌==◌, Bool-cases, inl, inr,
}
use caslink.Recovery.{decimal_with, decimal}
use caslink.Recovery.RoundTrip.{value, decimal_with-digits, value-decimal_with}
use caslink.Cron.{ℤ, pos, negsuc, digits_number, is_number, plain_number, signed, atoi}
use caslink.Graphql.Printer.{int_text, IsInt64}

digits_number-eq-value : (n : ℕ) (t : Text) → digits_number n t ≡ value n t
unfolding digits_number value
digits_number-eq-value n [] = refl
digits_number-eq-value n (c ∷ t) = digits_number-eq-value (n * 10 + (c - b'0')) t

all_digits : (t : Text) → All (λ c. is_digit c ≡ true) t → all is_digit t ≡ true
all_digits [] h = refl
all_digits (c ∷ t) h = rw h.0 (all_digits t h.1)

is_number_of_digits : (t : Text) → t ≢ [] → All (λ c. is_digit c ≡ true) t → is_number t ≡ true
is_number_of_digits [] e h = absurd (e refl)
is_number_of_digits (c ∷ t) e h = all_digits (c ∷ t) h

signed_of_digits :
    (t : Text)
    → t ≢ []
    → All (λ c. is_digit c ≡ true) t
    → signed t ≡ plain_number (digits_number 0 t)
signed_of_digits [] e h = absurd (e refl)
signed_of_digits (c ∷ t) e h =
    let no_minus : (c == b'-') ≡ false = ground (arith, h.0) in
    let no_plus : (c == b'+') ≡ false = ground (arith, h.0) in
    rw (no_minus, no_plus, all_digits (c ∷ t) h) refl

append-ne-nil : (s t : Text) (c : ℕ) → s ++ c ∷ t ≢ []
append-ne-nil [] t c = λ e. cc
append-ne-nil (d ∷ s) t c = λ e. cc

pub decimal-ne-nil : (n : ℕ) → decimal n ≢ []
unfolding decimal decimal_with
decimal-ne-nil zero = λ e. cc
decimal-ne-nil (suc n) = elim (Bool-cases (ltb (suc n) 10)) [
  | inl small ↦ rw small (λ e. cc)
  | inr large ↦ rw large (append-ne-nil (decimal_with n (suc n / 10)) [] (suc n % 10 + b'0'))
]

digits_number-decimal : (n : ℕ) → digits_number 0 (decimal n) ≡ n
unfolding decimal
digits_number-decimal n =
    digits_number-eq-value 0 (decimal_with n n) ∙ value-decimal_with n n (omega arith)

pub decimal-digits : (n : ℕ) → All (λ c. is_digit c ≡ true) (decimal n)
unfolding decimal
decimal-digits n = decimal_with-digits n n

pub atoi-int_text : (n : ℤ) → IsInt64 n → atoi (int_text n) ≡ some n
unfolding atoi
atoi-int_text (pos n) h =
    signed_of_digits (decimal n) (decimal-ne-nil n) (decimal-digits n)
    ∙ ap plain_number (digits_number-decimal n)
    ∙ ground (arith, h)
atoi-int_text (negsuc n) h =
    let there : is_number (decimal (n + 1)) ≡ true =
      is_number_of_digits (decimal (n + 1)) (decimal-ne-nil (n + 1)) (decimal-digits (n + 1)) in
    let as_suc : n + 1 ≡ suc n = omega arith in
    rw (there, digits_number-decimal (n + 1), as_suc) (ground (arith, h))
