-- ===== src/Recovery/RoundTrip.antt =====
-- The text keeps every key: who splits it into lines and drops the numbers has the keys again.
use caslink.Prelude.{take_while, ◌*◌, ◌-◌, ◌≤◌, All-mono}
use caslink.Prelude.{
  ℕ, zero, suc, ◌+◌, ◌/◌, ◌%◌, Text, codes, true, List, [], ◌∷◌, ◌++◌, ◌≡◌, ◌≢◌, refl, arith, ap,
  if◌then◌else◌, ◌==◌, is_digit, drop_while, strip_prefix, All, All-append, Bool-cases, inl, inr,
  ltb, or_else,
}
use caslink.Recovery.{decimal_with, decimal, numbered, number_all, join_lines, keys_text}

-- Splitting at line feeds: the first line, and the others.
pub record Lines : Type 0 where
  pub first : Text
  pub others : List Text

abbrev pub add_unit : ℕ → Lines → Lines
add_unit c r =
    if c == b'\n'
    then record { first = []; others = r.first ∷ r.others }
    else record { first = c ∷ r.first; others = r.others }

unfoldable pub split_lines : Text → Lines
split_lines [] = record { first = []; others = [] }
split_lines (c ∷ s) = add_unit c (split_lines s)

-- The number that digits stand for, behind a number read already.
unfoldable pub value : ℕ → Text → ℕ
value n [] = n
value n (c ∷ s) = value (n * 10 + (c - b'0')) s

-- A line as its number and the rest behind ". ".
abbrev pub read_line : Text → ℕ × Text
read_line l = (
  value 0 (take_while is_digit l),
  or_else (strip_prefix (codes ". ") (drop_while is_digit l)) [],
)

unfoldable pub read_all : List Text → List (ℕ × Text)
read_all [] = []
read_all (l ∷ ls) = read_line l ∷ read_all ls

-- The keys with their numbers.
abbrev pub enumerate : ℕ → List Text → List (ℕ × Text)
enumerate n [] = []
enumerate n (k ∷ ks) = (n, k) ∷ enumerate (n + 1) ks

-- The reader of a whole text; the empty text has no keys.
abbrev pub lines_of : Lines → List Text
lines_of r = r.first ∷ r.others

pub decimal_with-digits : (fuel n : ℕ) → All (λ c. is_digit c ≡ true) (decimal_with fuel n)
unfolding decimal_with
decimal_with-digits zero n = (ground arith, tt)
decimal_with-digits (suc fuel) n = elim (Bool-cases (ltb n 10)) [
  | inl small ↦ rw small (ground arith, tt)
  | inr large ↦ rw large (
      All-append (λ c. is_digit c ≡ true) (decimal_with fuel (n / 10)) ((n % 10 + b'0') ∷ [])
        (decimal_with-digits fuel (n / 10)) (ground arith, tt))
]

drop_while-digits :
    (ds r : Text)
    → All (λ c. is_digit c ≡ true) ds
    → drop_while is_digit (ds ++ b'.' ∷ r) ≡ b'.' ∷ r
unfolding drop_while
drop_while-digits [] r h = refl
drop_while-digits (d ∷ ds) r h = rw h.0 (drop_while-digits ds r h.1)

take_while-digits :
    (ds r : Text) → All (λ c. is_digit c ≡ true) ds → take_while is_digit (ds ++ b'.' ∷ r) ≡ ds
unfolding take_while
take_while-digits [] r h = refl
take_while-digits (d ∷ ds) r h = rw (h.0, take_while-digits ds r h.1)

value-append : (n : ℕ) (s : Text) (c : ℕ) → value n (s ++ c ∷ []) ≡ value n s * 10 + (c - b'0')
unfolding value
value-append n [] c = refl
value-append n (d ∷ s) c = value-append (n * 10 + (d - b'0')) s c

-- The decimal digits stand for their number.
pub value-decimal_with : (fuel n : ℕ) → n ≤ fuel → value 0 (decimal_with fuel n) ≡ n
unfolding decimal_with
value-decimal_with zero n h = unfold value in omega arith
value-decimal_with (suc fuel) n h = elim (Bool-cases (ltb n 10)) [
  | inl small ↦ rw small (unfold value in omega arith)
  | inr large ↦
      rw (large, value-append 0 (decimal_with fuel (n / 10)) (n % 10 + b'0'))
        (ground (arith, value-decimal_with fuel (n / 10)))
]

read_line-numbered : (i : ℕ) (k : Text) → read_line (numbered i k) ≡ (i + 1, k)
unfolding numbered decimal strip_prefix
read_line-numbered i k = rw (
  drop_while-digits (decimal_with (i + 1) (i + 1)) (b' ' ∷ k) (decimal_with-digits (i + 1) (i + 1)),
  take_while-digits (decimal_with (i + 1) (i + 1)) (b' ' ∷ k) (decimal_with-digits (i + 1) (i + 1)),
  value-decimal_with (i + 1) (i + 1) (omega arith),
)

-- No line feed.
abbrev pub IsLine : Text → Type 0
IsLine t = All (λ c. c ≢ b'\n') t

split_lines-append :
    (l r : Text)
    → IsLine l
    → split_lines (l ++ b'\n' ∷ r) ≡ record { first = l; others = lines_of (split_lines r) }
unfolding split_lines
split_lines-append [] r h = refl
split_lines-append (c ∷ l) r h = ground (arith, h.0, split_lines-append l r h.1)

split_lines_self : (l : Text) → IsLine l → split_lines l ≡ record { first = l; others = [] }
unfolding split_lines
split_lines_self [] h = refl
split_lines_self (c ∷ l) h = ground (arith, h.0, split_lines_self l h.1)

lines_of-join_lines :
    (l : Text) (ls : List Text)
    → IsLine l
    → All IsLine ls
    → lines_of (split_lines (join_lines (l ∷ ls))) ≡ l ∷ ls
unfolding join_lines
lines_of-join_lines l [] h hs = rw (split_lines_self l h)
lines_of-join_lines l (m ∷ ls) h hs =
    rw (split_lines-append l (join_lines (m ∷ ls)) h)
      (ap (l ∷◌) (lines_of-join_lines m ls hs.0 hs.1))

numbered-IsLine : (i : ℕ) (k : Text) → IsLine k → IsLine (numbered i k)
unfolding numbered decimal
numbered-IsLine i k h =
    All-append (λ c. c ≢ b'\n') (decimal_with (i + 1) (i + 1)) (b'.' ∷ b' ' ∷ k)
      (All-mono (λ c. is_digit c ≡ true) (λ c. c ≢ b'\n') (decimal_with (i + 1) (i + 1))
        (λ c p. ground arith) (decimal_with-digits (i + 1) (i + 1)))
      ((λ e. cc), ((λ e. cc), h))

number_all-IsLine : (i : ℕ) (ks : List Text) → All IsLine ks → All IsLine (number_all i ks)
unfolding number_all
number_all-IsLine i [] h = tt
number_all-IsLine i (k ∷ ks) h = (numbered-IsLine i k h.0, number_all-IsLine (i + 1) ks h.1)

read_all-number_all : (i : ℕ) (ks : List Text) → read_all (number_all i ks) ≡ enumerate (i + 1) ks
unfolding read_all number_all
read_all-number_all i [] = refl
read_all-number_all i (k ∷ ks) = rw (read_line-numbered i k, read_all-number_all (i + 1) ks)

-- If no key holds a line feed, splitting the text into lines and reading each as a number and a key
-- gives all keys back in their order, numbered from 1.
pub read_all-keys_text :
    (k : Text) (ks : List Text)
    → IsLine k
    → All IsLine ks
    → read_all (lines_of (split_lines (keys_text (k ∷ ks)))) ≡ enumerate 1 (k ∷ ks)
unfolding keys_text
read_all-keys_text k ks h hs =
    let (first, others) = number_all-IsLine 0 (k ∷ ks) (h, hs) in
    rw (lines_of-join_lines (numbered 0 k) (number_all 1 ks) first others)
      (read_all-number_all 0 (k ∷ ks))
