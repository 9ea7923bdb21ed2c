-- ===== src/Cron.antt =====
-- The cron schedules of src/scheduler/cronexpr.go: `parseCronSchedule` and `Next`. An `int` has 64
-- bits. `strings.Fields` and `time.ParseDuration` are arguments, and so is what a time shows in a
-- location. Times are nanoseconds since the zero time.
pub mod Range
pub mod Part
pub mod Field
pub mod Next
use caslink.Prelude.{
  ℕ, zero, suc, ◌+◌, ◌-◌, ◌*◌, ◌/◌, ◌^◌, ◌≤◌, ◌<◌, ◌≡◌, Text, codes, text_eq, strip_prefix, Bool,
  true, false, List, [], ◌∷◌, ◌||◌, ◌&&◌, Option, none, some, if◌then◌else◌, ◌==◌, ltb, leb, length,
  contains, is_digit, all, is_nil, replicate,
}
use caslink.OrgSlug.{GoText}

-- `negsuc n` is -(n + 1).
pub data ℤ : Type 0 where
  pos : ℕ → ℤ
  negsuc : ℕ → ℤ

abbrev pub int_limit : ℕ
int_limit = 2 ^ 63

unfoldable pub digits_number : ℕ → Text → ℕ
digits_number n [] = n
digits_number n (c ∷ s) = digits_number (n * 10 + (c - b'0')) s

abbrev pub minus_number : ℕ → Option ℤ
minus_number zero = some (pos 0)
minus_number (suc n) = if ltb n int_limit then some (negsuc n) else none

abbrev pub plain_number : ℕ → Option ℤ
plain_number n = if ltb n int_limit then some (pos n) else none

-- Digits only, and at least one.
abbrev pub is_number : Text → Bool
is_number [] = false
is_number (c ∷ s) = all is_digit (c ∷ s)

abbrev pub signed : Text → Option ℤ
signed [] = none
signed (c ∷ s) =
    if c == b'-'
    then (if is_number s then minus_number (digits_number 0 s) else none)
    else if c == b'+'
    then (if is_number s then plain_number (digits_number 0 s) else none)
    else if is_number (c ∷ s)
    then plain_number (digits_number 0 (c ∷ s))
    else none

-- `strconv.Atoi`
unfoldable pub atoi : Text → Option ℤ
unfolding digits_number
atoi s = signed s

abbrev pub cons_first : ℕ → Option (Text × Text) → Option (Text × Text)
cons_first c none = none
cons_first c (some (a, b)) = some (c ∷ a, b)

-- The texts before and behind the first separator: `strings.Index`, and `strings.SplitN` with 2.
unfoldable pub cut : ℕ → Text → Option (Text × Text)
cut sep [] = none
cut sep (c ∷ s) = let later = cons_first c (cut sep s) in if c == sep then some ([], s) else later

abbrev pub add_first : ℕ → List Text → List Text
add_first c [] = (c ∷ []) ∷ []
add_first c (t ∷ ts) = (c ∷ t) ∷ ts

-- `strings.Split` at one unit.
unfoldable pub split_on : ℕ → Text → List Text
split_on sep [] = [] ∷ []
split_on sep (c ∷ s) = let rest = split_on sep s in if c == sep then [] ∷ rest else add_first c rest

-- A field's table.
abbrev pub Bits : Type 0
Bits = List Bool

abbrev pub bit_at : ℕ → Bits → Bool
bit_at v [] = false
bit_at zero (b ∷ bs) = b
bit_at (suc v) (b ∷ bs) = bit_at v bs

-- `if v < len(bits) { bits[v] = true }`
abbrev pub set_bit : ℕ → Bits → Bits
set_bit v [] = []
set_bit zero (b ∷ bs) = true ∷ bs
set_bit (suc v) (b ∷ bs) = b ∷ set_bit v bs

-- A result, an error, or a panic.
pub data Parsed {ℓ} (A : Type ℓ) : Type ℓ where
  parsed : A → Parsed A
  invalid panics : Parsed A

-- `for v := lo; v <= hi; v += step`. The counter grows, so `hi + 1` steps of fuel are enough from any
-- start. When the sum overflows the counter is negative: it passes both tests, and the index panics.
unfoldable pub mark : ℕ → ℕ → ℕ → ℕ → Bits → Parsed Bits
mark zero step hi v bits = parsed bits
mark (suc fuel) step hi v bits =
    let rest = mark fuel step hi (v + step) (set_bit v bits) in
    if ltb hi v then parsed bits else if leb int_limit (v + step) then panics else rest

abbrev pub positive : Option ℤ → Option ℕ
positive (some (pos (suc n))) = some (suc n)
positive _ = none

abbrev pub with_step : Text → Option ℕ → Option (Text × ℕ)
with_step range_part none = none
with_step range_part (some n) = some (range_part, n)

abbrev pub step_behind : Text → Option (Text × Text) → Option (Text × ℕ)
step_behind part none = some (part, 1)
step_behind part (some (range_part, behind)) = with_step range_part (positive (atoi behind))

-- The range part and the step.
unfoldable pub range_step : Text → Option (Text × ℕ)
unfolding cut atoi
range_step part = step_behind part (cut b'/' part)

abbrev pub both : Option ℤ → Option ℤ → Option (ℤ × ℤ)
both (some l) (some h) = some (l, h)
both _ _ = none

abbrev pub bounds_of : Text → Option (Text × Text) → Option (ℤ × ℤ)
bounds_of range_part (some (a, b)) = both (atoi a) (atoi b)
bounds_of range_part none = both (atoi range_part) (atoi range_part)

unfoldable pub range_bounds : ℕ → ℕ → Text → Option (ℤ × ℤ)
unfolding cut atoi
range_bounds min max range_part =
    if text_eq range_part (codes "*")
    then some (pos min, pos max)
    else bounds_of range_part (cut b'-' range_part)

-- The check of the range, and the loop. A bound below zero is out of range, since `min` is not.
abbrev pub mark_range : ℕ → ℕ → ℕ → Option (ℤ × ℤ) → Bits → Parsed Bits
mark_range min max step (some (pos lo, pos hi)) bits =
    if ltb lo min || ltb max hi || ltb hi lo then invalid else mark (suc hi) step hi lo bits
mark_range min max step _ bits = invalid

abbrev pub mark_part : ℕ → ℕ → Option (Text × ℕ) → Bits → Parsed Bits
mark_part min max none bits = invalid
mark_part min max (some (range_part, step)) bits =
    mark_range min max step (range_bounds min max range_part) bits

unfoldable pub parse_cron_range : Text → ℕ → ℕ → Bits → Parsed Bits
unfolding range_step range_bounds mark
parse_cron_range part min max bits = mark_part min max (range_step part) bits

infixl 5 ◌>>=◌
abbrev pub ◌>>=◌ {ℓ κ} : {A : Type ℓ} {B : Type κ} → Parsed A → (A → Parsed B) → Parsed B
parsed value >>= next = next value
invalid >>= next = invalid
panics >>= next = panics

unfoldable pub parse_parts : List Text → ℕ → ℕ → Bits → Parsed Bits
parse_parts [] min max bits = parsed bits
parse_parts (part ∷ parts) min max bits = do
  marked ← parse_cron_range part min max bits
  parse_parts parts min max marked

unfoldable pub parse_cron_field : Text → ℕ → ℕ → Bits → Parsed Bits
unfolding split_on parse_parts
parse_cron_field field min max bits = parse_parts (split_on b',' field) min max bits

pub record Fields : Type 0 where
  pub minutes : Bits
  pub hours : Bits
  pub days : Bits
  pub months : Bits
  pub weekdays : Bits

-- `cronSchedule`: an interval, or the tables.
pub data Schedule : Type 0 where
  every : ℕ → Schedule
  at_fields : Fields → Schedule

abbrev pub empty_bits : ℕ → Bits
empty_bits n = replicate n false

-- The five fields.
unfoldable pub parse_five : List Text → Parsed Schedule
unfolding parse_cron_field
parse_five (minute ∷ hour ∷ day ∷ month ∷ weekday ∷ []) = do
  minutes ← parse_cron_field minute 0 59 (empty_bits 60)
  hours ← parse_cron_field hour 0 23 (empty_bits 24)
  days ← parse_cron_field day 1 31 (empty_bits 32)
  months ← parse_cron_field month 1 12 (empty_bits 13)
  weekdays ← parse_cron_field weekday 0 6 (empty_bits 7)
  parsed (
      at_fields (record {
        minutes = minutes;
        hours = hours;
        days = days;
        months = months;
        weekdays = weekdays;
      }))
parse_five _ = invalid

module _ (go : GoText) (text_fields : Text → List Text) (parse_duration : Text → Option ℤ) where
  abbrev pub every_of : Option ℤ → Parsed Schedule
  every_of (some (pos (suc d))) = parsed (every (suc d))
  every_of _ = invalid

  abbrev pub shorthand_or_five : Text → Option Text → Parsed Schedule
  shorthand_or_five expr (some duration) = every_of (parse_duration (go.trim_space duration))
  shorthand_or_five expr none =
      if text_eq expr (codes "@hourly")
      then parse_five (text_fields (codes "0 * * * *"))
      else if text_eq expr (codes "@daily") || text_eq expr (codes "@midnight")
      then parse_five (text_fields (codes "0 0 * * *"))
      else if text_eq expr (codes "@weekly")
      then parse_five (text_fields (codes "0 0 * * 0"))
      else if text_eq expr (codes "@monthly")
      then parse_five (text_fields (codes "0 0 1 * *"))
      else parse_five (text_fields expr)

  -- `parseCronSchedule`. Its calls of itself have texts without surrounding space that are no
  -- shorthand, so they go to the five fields at once.
  unfoldable pub parse_cron_schedule : Text → Parsed Schedule
  unfolding parse_five strip_prefix
  parse_cron_schedule expr =
      shorthand_or_five (go.trim_space expr) (strip_prefix (codes "@every ") (go.trim_space expr))

abbrev pub minute_ns : ℕ
minute_ns = 60_000_000_000

-- What a time shows in a location: the time zones are data outside the repository.
pub record Zone : Type 0 where
  pub minute_of : ℕ → ℕ
  pub hour_of : ℕ → ℕ
  pub day_of : ℕ → ℕ
  pub month_of : ℕ → ℕ
  pub weekday_of : ℕ → ℕ

abbrev pub rounds_of_year : ℕ
rounds_of_year = 366 * 24 * 60 + 1

-- `from.In(loc).Truncate(time.Minute).Add(time.Minute)`; `Truncate` counts from the zero time.
abbrev pub next_minute : ℕ → ℕ
next_minute from = from / minute_ns * minute_ns + minute_ns

abbrev pub found_or : ℕ → Option ℕ → ℕ
found_or t none = t
found_or t (some found) = found

module _ (zone : Zone) where
  unfoldable pub matches : Fields → ℕ → Bool
  matches f t =
      bit_at (zone.minute_of t) f.minutes
      && bit_at (zone.hour_of t) f.hours
      && bit_at (zone.day_of t) f.days
      && bit_at (zone.month_of t) f.months
      && bit_at (zone.weekday_of t) f.weekdays

  -- The loop of `Next`, with the number of rounds left.
  unfoldable pub first_match : ℕ → Fields → ℕ → Option ℕ
  unfolding matches
  first_match zero f t = none
  first_match (suc rounds) f t =
      let rest = first_match rounds f (t + minute_ns) in if matches f t then some t else rest

  unfoldable pub next : Schedule → ℕ → ℕ
  next (every d) from = from + d
  next (at_fields f) from =
      found_or (from + minute_ns) (first_match rounds_of_year f (next_minute from))
