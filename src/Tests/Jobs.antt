-- ===== src/Tests/Jobs.antt =====
-- The scheduler and the backups.
use caslink.Prelude.{
  ℕ, ◌+◌, ◌/◌, ◌%◌, ◌≤◌, ◌<◌, ◌≡◌, ◌⊎◌, ◌↔◌, refl, arith, codes, text_eq, true, false, List, [],
  ◌∷◌, some, replicate,
}
use caslink.Cron.{
  Bits, bit_at, set_bit, parsed, Fields, at_fields, empty_bits, parse_cron_field, parse_cron_range,
  split_on, parse_five, Zone, next, minute_ns, rounds_of_year,
}
use caslink.Cron.Part.{IsMeantByOne}
use caslink.Cron.Range.{bit_at-set_bit}
use caslink.Cron.Field.{bit_at-empty_bits, parse_cron_field_iff}
use caslink.Cron.Next.{IsFirst, Misses, IsNever, next_lem}
use caslink.Retention.{
  Backup, Retention, Calendar, Removal, gone, keep_periodic, marked, apply_retention,
}
use caslink.Retention.Insertion.{by_insertion, by_insertion-Sorts}
use caslink.Retention.Survivors.{
  HasNewest, IsCapped, apply_retention-HasNewest, apply_retention-IsCapped,
}

-- Every other day of the week, from Monday to Friday.
abbrev odd_days : Bits
odd_days = false ∷ true ∷ false ∷ true ∷ false ∷ true ∷ false ∷ []

odd_days_parse : parse_cron_field (codes "1-5/2") 0 6 (empty_bits 7) ≡ parsed odd_days
unfolding parse_cron_field parse_cron_range text_eq
odd_days_parse = refl

parse_cron_field_iff_example :
    (bit_at 3 odd_days ≡ true) ↔ IsMeantByOne 0 6 (split_on b',' (codes "1-5/2")) 3
parse_cron_field_iff_example =
    parse_cron_field_iff (codes "1-5/2") 0 6 7 odd_days (omega arith) odd_days_parse 3

-- A calendar of twelve months of 28 days.
abbrev flat : Zone
flat = record {
  minute_of = λ t. t / minute_ns % 60;
  hour_of = λ t. t / minute_ns / 60 % 24;
  day_of = λ t. t / minute_ns / 1440 % 28 + 1;
  month_of = λ t. t / minute_ns / 40320 % 12 + 1;
  weekday_of = λ t. t / minute_ns / 1440 % 7;
}

-- The tables of "0 0 30 2 *".
abbrev never : Fields
never = record {
  minutes = set_bit 0 (empty_bits 60);
  hours = set_bit 0 (empty_bits 24);
  days = set_bit 30 (empty_bits 32);
  months = set_bit 2 (empty_bits 13);
  weekdays = replicate 7 true;
}

never_parses :
    parse_five (codes "0" ∷ codes "0" ∷ codes "30" ∷ codes "2" ∷ codes "*" ∷ [])
    ≡ parsed (at_fields never)
unfolding parse_five parse_cron_range text_eq
never_parses = refl

only_bit : (u v n : ℕ) → bit_at u (set_bit v (empty_bits n)) ≡ true → u ≡ v
only_bit u v n h = ground (arith, bit_at-set_bit u v (empty_bits n), bit_at-empty_bits u n)

never-IsNever : IsNever flat never
never-IsNever = record {
  in_february = λ v h. only_bit v 2 13 h;
  late = λ v h. omega (arith, only_bit v 30 32 h);
}

next_lem_example :
    (12345 < minute_ns)
    × (minute_ns ≤ 12345 + minute_ns)
    × (IsFirst flat never rounds_of_year minute_ns (next flat (at_fields never) 12345)
        ⊎ (Misses flat never rounds_of_year minute_ns
            × (next flat (at_fields never) 12345 ≡ 12345 + minute_ns)))
next_lem_example = next_lem flat never 12345

abbrev plain_calendar : Calendar
plain_calendar = record {
  year_of = λ d. d / 336;
  month_of = λ d. d / 28 % 12 + 1;
  day_of = λ d. d % 28 + 1;
  weekday_of = λ d. d % 7;
  iso_week_of = λ d. (d / 364, d / 7 % 52);
}

abbrev backup_of : ℕ → Backup
backup_of d = record { path = d ∷ []; date = d; size = 100 }

abbrev policy : Retention
policy = record {
  max_backups = 2;
  keep_weekly = 1;
  keep_monthly = 0;
  keep_yearly = 0;
  cap = some 250;
}

abbrev all_go : Backup → Removal
all_go b = gone

abbrev three_backups : List Backup
three_backups = backup_of 7 ∷ backup_of 9 ∷ backup_of 8 ∷ []

apply_retention-HasNewest_example :
    HasNewest
      (apply_retention plain_calendar by_insertion all_go policy three_backups).left
      three_backups
apply_retention-HasNewest_example =
    apply_retention-HasNewest plain_calendar by_insertion all_go by_insertion-Sorts policy
      (backup_of 7) (backup_of 9 ∷ backup_of 8 ∷ [])

apply_retention-IsCapped_example :
    IsCapped 250 (apply_retention plain_calendar by_insertion all_go policy three_backups)
unfolding apply_retention marked keep_periodic text_eq
apply_retention-IsCapped_example =
    apply_retention-IsCapped plain_calendar by_insertion all_go by_insertion-Sorts policy 250
      three_backups refl refl
