-- ===== src/ShortCode/Generated.antt =====
-- What the random codes are.
use mathlib.Core.Bool.{false≢true}
use mathlib.Core.Path.{subst}
use caslink.Prelude.{
  ℕ, zero, suc, ◌+◌, ◌≤◌, ◌<◌, Text, text_eq, text_eq_iff, Bool, true, false, not, List, [], ◌∷◌,
  ◌||◌, ◌&&◌, ◌≡◌, ◌⊎◌, inl, inr, refl, ap, sym, ◌∙◌, arith, Option, none, some, ltb, length, any,
  all, map, Bool-cases, ◌==◌,
}
use caslink.Platform.{IsAscii, lower_unit}
use caslink.OrgSlug.{GoText}
use caslink.ShortCode.{
  reserved_words, is_alphanumeric, validate_custom_code, charset, byte_at, CodeResult, generated,
  random_failed, check_failed, exhausted, panics, with_byte, with_number, random_code, code_length,
  generate_from, generate_random_code,
}

abbrev is_left_out : ℕ → Bool
is_left_out c = c == b'i' || c == b'l' || c == b'o'

-- ASCII, allowed, and not one of the letters that the alphabet leaves out.
abbrev is_clear : ℕ → Bool
is_clear c = is_alphanumeric c && not (is_left_out (lower_unit c)) && ltb c 128

-- Each reserved word has such a letter or is shorter than any code.
abbrev is_no_code : Text → Bool
is_no_code t = any is_left_out t || ltb (length t) 6

charset_clear : all is_clear charset ≡ true
charset_clear = refl

reserved_no_code : all is_no_code reserved_words ≡ true
reserved_no_code = refl

byte_at-all :
    (p : ℕ → Bool) (n : ℕ) (s : Text) {c : ℕ} → all p s ≡ true → byte_at n s ≡ some c → p c ≡ true
byte_at-all p n [] h e = cc
byte_at-all p zero (d ∷ s) {c} h e = let same : d ≡ c = cc in rw (sym same) (ground (arith, h))
byte_at-all p (suc n) (d ∷ s) h e = byte_at-all p n s (ground (arith, h)) e

text_eq_apart :
    (p : Text → Bool) (t : Text) (ws : List Text)
    → p t ≡ false
    → all p ws ≡ true
    → any (text_eq t) ws ≡ false
text_eq_apart p t [] h k = refl
text_eq_apart p t (w ∷ ws) h k = elim (Bool-cases (text_eq t w)) [
  | inl same ↦ absurd (false≢true (sym h ∙ ap p ((text_eq_iff t w).0 same) ∙ ground (arith, k)))
  | inr other ↦ rw other (text_eq_apart p t ws h (ground (arith, k)))
]

-- A code of `count` bytes of the alphabet, or no code.
abbrev IsCode : ℕ → CodeResult → Type 0
IsCode count (generated code) = (all is_clear code ≡ true) × (length code ≡ count)
IsCode count other = Unit

with_number-IsCode :
    (o : Option ℕ) (count : ℕ) (r : CodeResult)
    → IsCode count r
    → IsCode (suc count) (with_number o r)
with_number-IsCode none count r h = tt
with_number-IsCode (some n) count r h =
    placed (byte_at n charset) r (λ c e. byte_at-all is_clear n charset charset_clear e) h
  where
    placed :
        (o : Option ℕ) (r : CodeResult)
        → ((c : ℕ) → o ≡ some c → is_clear c ≡ true)
        → IsCode count r
        → IsCode (suc count) (with_byte o r)
    placed none r f h = tt
    placed (some c) (generated code) f h = (ground (arith, f c refl, h.0), omega (arith, h.1))
    placed (some c) random_failed f h = tt
    placed (some c) check_failed f h = tt
    placed (some c) exhausted f h = tt
    placed (some c) panics f h = tt

random_code-IsCode :
    (numbers : ℕ → Option ℕ) (count i : ℕ) → IsCode count (random_code numbers count i)
unfolding random_code
random_code-IsCode numbers zero i = (refl, refl)
random_code-IsCode numbers (suc count) i =
    with_number-IsCode (numbers i) count (random_code numbers count (i + 1))
      (random_code-IsCode numbers count (i + 1))

three : (a b : Bool) {d : Bool} → (a && not b && d) ≡ true → (d ≡ true) × (b ≡ false) × (a ≡ true)
three a b h = ground (arith, h)

clear_lower :
    (c : ℕ)
    → is_clear c ≡ true
    → (c < 128) × (is_left_out (lower_unit c) ≡ false) × (is_alphanumeric c ≡ true)
clear_lower c h =
    let (small, kept, allowed) = three (is_alphanumeric c) (is_left_out (lower_unit c)) h in
    (ground (arith, small), kept, allowed)

clear_code :
    (s : Text)
    → all is_clear s ≡ true
    → IsAscii s
      × (any is_left_out (map lower_unit s) ≡ false)
      × (all is_alphanumeric s ≡ true)
      × (length (map lower_unit s) ≡ length s)
clear_code [] h = (tt, refl, refl, refl)
clear_code (c ∷ s) h =
    let head : is_clear c ≡ true = ground (arith, h) in
    let (small, kept, allowed) = clear_lower c head in
    let (ascii, others_kept, others_allowed, same) = clear_code s (ground (arith, h)) in
    ((small, ascii), rw kept others_kept, rw allowed others_allowed, ap suc same)

module _ (go : GoText) where
  code_is_valid :
      (s : Text)
      → all is_clear s ≡ true
      → 6 ≤ length s
      → length s ≤ 8
      → validate_custom_code go s ≡ none
  unfolding validate_custom_code
  code_is_valid s h l u =
      let (ascii, kept, allowed, same) = clear_code s h in
      let long : (ltb (length s) 3 || ltb 50 (length s)) ≡ false = ground (arith, l, u) in
      let long_enough : ltb (length (map lower_unit s)) 6 ≡ false = ground (arith, same, l) in
      let apart : any (text_eq (map lower_unit s)) reserved_words ≡ false =
        text_eq_apart is_no_code (map lower_unit s) reserved_words (rw (kept, long_enough) refl)
          reserved_no_code in
      let free : any (text_eq (go.to_lower s)) reserved_words ≡ false =
        ap (λ t. any (text_eq t) reserved_words) (go.lower_ascii s ascii) ∙ apart in
      rw (long, free, allowed) refl

byte_at_total : (n : ℕ) (s : Text) → n < length s → (c : ℕ) × (byte_at n s ≡ some c)
byte_at_total n [] h = absurd (omega (arith, h))
byte_at_total zero (c ∷ s) h = (c, refl)
byte_at_total (suc n) (c ∷ s) h = byte_at_total n s (omega (arith, h))

random_code_total :
    (numbers : ℕ → Option ℕ) (count i : ℕ)
    → ((k : ℕ) → (n : ℕ) × (n < 54) × (numbers k ≡ some n))
    → (code : Text) × (random_code numbers count i ≡ generated code)
unfolding random_code
random_code_total numbers zero i h = ([], refl)
random_code_total numbers (suc count) i h =
    let (code, e) = random_code_total numbers count (i + 1) h in
    let (n, small, f) = h i in
    let (c, g) = byte_at_total n charset small in (c ∷ code, rw (f, g, e) refl)

code_length_lem : (retry : ℕ) → (6 ≤ code_length retry) × (code_length retry ≤ 8)
code_length_lem retry = (ground arith, ground arith)

-- A code that is valid as a custom one too and was new when it was looked up.
abbrev pub IsNewCode : GoText → (ℕ → Text → Option Bool) → Text → Type 0
IsNewCode go exists code =
    (validate_custom_code go code ≡ none) × ((retry : ℕ) × (exists retry code ≡ some false))

-- Each retry met a code that existed.
abbrev pub AreTaken : (ℕ → Text → Option Bool) → ℕ → ℕ → Type 0
AreTaken exists retry rounds =
    (k : ℕ) → k < rounds → (code : Text) × (exists (retry + k) code ≡ some true)

module _ (go : GoText) (numbers : ℕ → ℕ → Option ℕ) (exists : ℕ → Text → Option Bool)
    (in_range : (retry k : ℕ) → (n : ℕ) × (n < 54) × (numbers retry k ≡ some n))
    (answers : (retry : ℕ) (code : Text)
      → (exists retry code ≡ some true) ⊎ (exists retry code ≡ some false)) where
  next_round :
      (code : Text) (retry rounds : ℕ)
      → exists retry code ≡ some true
      → AreTaken exists (retry + 1) rounds
      → AreTaken exists retry (suc rounds)
  next_round code retry rounds e h zero l =
      let here : retry + 0 ≡ retry = omega arith in (code, rw here e)
  next_round code retry rounds e h (suc k) l =
      let there : retry + suc k ≡ retry + 1 + k = omega arith in rw there (h k (omega (arith, l)))

  generate_from_lem :
      (rounds retry : ℕ)
      → ((code : Text) × (generate_from numbers exists rounds retry ≡ generated code)
          × IsNewCode go exists code)
        ⊎ ((generate_from numbers exists rounds retry ≡ exhausted) × AreTaken exists retry rounds)
  unfolding generate_from
  generate_from_lem zero retry = inr (refl, λ k l. absurd (omega (arith, l)))
  generate_from_lem (suc rounds) retry =
      let count = code_length retry in
      let (code, e) = random_code_total (numbers retry) count 0 (in_range retry) in
      let (clear, size) = subst (IsCode count) e (random_code-IsCode (numbers retry) count 0) in
      let bounds = code_length_lem retry in
      elim (answers retry code) [
        | inl taken ↦ elim (generate_from_lem rounds (retry + 1)) [
          | inl (found, f, new) ↦ inl (found, rw (e, taken) f, new)
          | inr (f, all_taken) ↦ inr (rw (e, taken) f, next_round code retry rounds taken all_taken)
        ]
        | inr free ↦ inl (
          code,
          rw (e, free) refl,
          (
            code_is_valid go code clear (omega (arith, size, bounds.0))
                (omega (arith, size, bounds.1)),
            (retry, free),
          ),
        )
      ]

  -- When the random numbers are in range and the look-ups succeed, the result is a code that did not
  -- exist and that is valid as a custom code, reserved words included, or an error after ten codes
  -- that all existed.
  pub generate_random_code_lem :
      ((code : Text) × (generate_random_code numbers exists ≡ generated code)
        × IsNewCode go exists code)
      ⊎ ((generate_random_code numbers exists ≡ exhausted) × AreTaken exists 0 10)
  unfolding generate_random_code
  generate_random_code_lem = generate_from_lem 10 0
