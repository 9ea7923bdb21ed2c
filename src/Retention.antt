-- ===== src/Retention.antt =====
-- Backup retention: `ApplyRetention` and `keepPeriodic` of src/backup/retention.go. The directory has
-- been read: a backup is its path, its date as a number of days, and its size. `time` and `sort.Slice`
-- are outside the repository, and so are the files: which removals fail is an argument. The size cap
-- is given in bytes, since reading it takes floating point and the disk.
pub mod Sorts
pub mod Insertion
pub mod Periods
pub mod Survivors
use caslink.Prelude.{
  ℕ, zero, suc, ◌+◌, ◌-◌, ◌≤◌, ◌<◌, ◌≡◌, ◌↔◌, ◌⊎◌, Text, text_eq, Bool, true, false, not, List, [],
  ◌∷◌, ◌++◌, Option, none, some, ◌&&◌, if◌then◌else◌, ◌==◌, ltb, leb, length, take, any, keep_if,
  map, All,
}

pub record Backup : Type 0 where
  pub path : Text
  pub date : ℕ
  pub size : ℕ

-- `Retention`. A number below zero acts as zero in the source, so the numbers are natural; `none` is
-- a disabled cap.
pub record Retention : Type 0 where
  pub max_backups : ℕ
  pub keep_weekly : ℕ
  pub keep_monthly : ℕ
  pub keep_yearly : ℕ
  pub cap : Option ℕ

-- What `time` says of a date.
pub record Calendar : Type 0 where
  pub year_of : ℕ → ℕ
  pub month_of : ℕ → ℕ
  pub day_of : ℕ → ℕ
  pub weekday_of : ℕ → ℕ
  pub iso_week_of : ℕ → ℕ × ℕ

-- A bucket. The source writes its two numbers as a text, which determines them.
abbrev pub Bucket : Type 0
Bucket = ℕ × ℕ

abbrev pub same_bucket : Bucket → Bucket → Bool
same_bucket a b = a.0 == b.0 && a.1 == b.1

abbrev pub is_seen : Bucket → List Bucket → Bool
is_seen b seen = any (same_bucket b) seen

-- No candidate, or a bucket that has been seen, is passed over.
abbrev pub by_bucket {ℓ} : {A : Type ℓ} → Option Bucket → List Bucket → A → (Bucket → A) → A
by_bucket none seen passed_over first = passed_over
by_bucket (some k) seen passed_over first = if is_seen k seen then passed_over else first k

-- The loop of `keepPeriodic` behind the test of `n`: the paths that it marks.
unfoldable pub keep_periodic_from : ℕ → (ℕ → Option Bucket) → List Bucket → List Backup → List Text
keep_periodic_from n bucket_of seen [] = []
keep_periodic_from n bucket_of seen (b ∷ bs) =
    let chosen =
      by_bucket (bucket_of b.date) seen (keep_periodic_from n bucket_of seen bs)
        (λ k. b.path ∷ keep_periodic_from n bucket_of (k ∷ seen) bs) in
    if leb n (length seen) then [] else chosen

-- `keepPeriodic`; for `n` zero the loop stops at once too.
unfoldable pub keep_periodic : ℕ → (ℕ → Option Bucket) → List Backup → List Text
unfolding keep_periodic_from
keep_periodic n bucket_of backups = keep_periodic_from n bucket_of [] backups

module _ (calendar : Calendar) where
  abbrev pub weekly : ℕ → Option Bucket
  weekly date = if calendar.weekday_of date == 0 then some (calendar.iso_week_of date) else none

  abbrev pub monthly : ℕ → Option Bucket
  monthly date =
      if calendar.day_of date == 1
      then some (calendar.year_of date, calendar.month_of date)
      else none

  abbrev pub yearly : ℕ → Option Bucket
  yearly date =
      if calendar.month_of date == 1 && calendar.day_of date == 1
      then some (calendar.year_of date, 0)
      else none

  abbrev pub paths : List Backup → List Text
  paths bs = map (λ b. b.path) bs

  -- The daily mark: at least one.
  abbrev pub daily : ℕ → List Backup → List Text
  daily n newest = paths (take (if ltb n 1 then 1 else n) newest)

  -- Everything marked, of the backups from the newest on.
  unfoldable pub marked : Retention → List Backup → List Text
  marked r newest =
      daily r.max_backups newest
      ++ keep_periodic r.keep_weekly weekly newest
      ++ keep_periodic r.keep_monthly monthly newest
      ++ keep_periodic r.keep_yearly yearly newest

abbrev pub is_kept : List Text → Backup → Bool
is_kept keep b = any (text_eq b.path) keep

-- `deleteBackup`: both files go, or the archive stays, or the archive goes and the manifest fails.
pub data Removal : Type 0 where
  gone stays manifest_fails : Removal

-- The backups left, and whether no error ended the run.
pub record Run : Type 0 where
  pub left : List Backup
  pub is_ok : Bool

-- What a removal leaves: the run goes on, or ends with the archive there or gone.
abbrev pub after_removal : Removal → Run → List Backup → List Backup → Run
after_removal gone further with_archive without = further
after_removal stays further with_archive without = record { left = with_archive; is_ok = false }
after_removal manifest_fails further with_archive without = record { left = without; is_ok = false }

module _ (remove : Backup → Removal) where
  -- The loop that deletes what is not marked, over those that are not.
  unfoldable pub delete_each : List Backup → Run
  delete_each [] = record { left = []; is_ok = true }
  delete_each (b ∷ bs) = after_removal (remove b) (delete_each bs) (b ∷ bs) bs

  -- The loop that enforces the cap, with the total, the oldest first.
  unfoldable pub trim : ℕ → ℕ → List Backup → Run
  trim cap total [] = record { left = []; is_ok = true }
  trim cap total (b ∷ []) = record { left = b ∷ []; is_ok = true }
  trim cap total (b ∷ c ∷ bs) =
      let further = trim cap (total - b.size) (c ∷ bs) in
      if ltb cap total
      then after_removal (remove b) further (b ∷ c ∷ bs) (c ∷ bs)
      else record { left = b ∷ c ∷ bs; is_ok = true }

abbrev pub total_size : List Backup → ℕ
total_size [] = 0
total_size (b ∷ bs) = b.size + total_size bs

-- The two uses of `sort.Slice`, which is not stable.
pub record Sorting : Type 0 where
  pub newest_first : List Backup → List Backup
  pub oldest_first : List Backup → List Backup

module _ (calendar : Calendar) (sorting : Sorting) (remove : Backup → Removal) where
  -- Behind the deletion: the kept ones are sorted again and the cap is enforced.
  abbrev pub capped : Option ℕ → List Backup → Run
  capped none kept = record { left = kept; is_ok = true }
  capped (some cap) kept = trim remove cap (total_size kept) (sorting.oldest_first kept)

  abbrev pub behind_deletion : Option ℕ → List Backup → Run → Run
  behind_deletion cap kept first =
      if first.is_ok then capped cap kept else record { left = kept ++ first.left; is_ok = false }

  -- `ApplyRetention`, on the backups of the directory. Without any it returns at once.
  unfoldable pub apply_retention : Retention → List Backup → Run
  unfolding delete_each trim
  apply_retention r backups =
      let newest = sorting.newest_first backups in
      let keep = marked calendar r newest in
      behind_deletion r.cap (keep_if (is_kept keep) newest)
        (delete_each remove (keep_if (λ b. not (is_kept keep b)) newest))
