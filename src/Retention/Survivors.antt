-- ===== src/Retention/Survivors.antt =====
-- Which backups survive `ApplyRetention`.
use mathlib.Core.Bool.{false≢true}
use caslink.Prelude.{
  ℕ, zero, suc, ◌-◌, ◌≤◌, ◌≡◌, ◌⊎◌, refl, sym, Text, text_eq, text_eq_refl, Bool, true, List, [],
  ◌∷◌, ◌++◌, Option, none, some, if◌then◌else◌, ltb, length, take, any, keep_if, map, All, All-mono,
  arith, Bool-cases, inl, inr,
}
use caslink.Retention.{
  Backup, Retention, Calendar, marked, is_kept, Removal, after_removal, gone, stays, manifest_fails,
  Run, trim, total_size, Sorting, capped, behind_deletion, apply_retention, daily,
}
use caslink.Retention.Sorts.{
  Among, Among-append_left, Among-keep_if, IsAscending, IsDescending, Sorts,
}

-- Some backup of the list is at least as new as all of another list.
pub record HasNewest (left all : List Backup) : Type 0 where
  pub newest : Backup
  pub survives : Among newest left
  pub latest : All (λ b. b.date ≤ newest.date) all

last_newest : (b : Backup) (bs : List Backup) → IsAscending (b ∷ bs) → HasNewest (b ∷ bs) (b ∷ bs)
last_newest b [] h = record { newest = b; survives = inl refl; latest = (omega arith, tt) }
last_newest b (c ∷ bs) h =
    let r = last_newest c bs h.1 in
    record {
      newest = r.newest;
      survives = inr r.survives;
      latest = (omega (arith, h.0.0, r.latest.0), r.latest);
    }

one_older :
    (b c : Backup) (bs left : List Backup)
    → IsAscending (b ∷ c ∷ bs)
    → HasNewest left (c ∷ bs)
    → HasNewest left (b ∷ c ∷ bs)
one_older b c bs left h r = record {
  newest = r.newest;
  survives = r.survives;
  latest = (omega (arith, h.0.0, r.latest.0), r.latest);
}

removal-HasNewest :
    (b c : Backup) (bs : List Backup)
    → IsAscending (b ∷ c ∷ bs)
    → (r : Removal) (further : Run) → HasNewest further.left (c ∷ bs)
    → HasNewest (after_removal r further (b ∷ c ∷ bs) (c ∷ bs)).left (b ∷ c ∷ bs)
removal-HasNewest b c bs h gone further k = one_older b c bs _ h k
removal-HasNewest b c bs h stays further k = last_newest b (c ∷ bs) h
removal-HasNewest b c bs h manifest_fails further k = one_older b c bs _ h (last_newest c bs h.1)

-- A bound holds for what is left, if the run ends without an error.
abbrev pub IsCapped : ℕ → Run → Type 0
IsCapped cap run = (total_size run.left ≤ cap) ⊎ (length run.left ≤ 1)

removal-IsCapped :
    (cap : ℕ) (r : Removal) (further : Run) (with_archive without : List Backup)
    → (after_removal r further with_archive without).is_ok ≡ true
    → (further.is_ok ≡ true → IsCapped cap further)
    → IsCapped cap (after_removal r further with_archive without)
removal-IsCapped cap gone further a b k f = f k
removal-IsCapped cap stays further a b k f = cc
removal-IsCapped cap manifest_fails further a b k f = cc

module _ (remove : Backup → Removal) where
  -- Whichever removals fail, the newest one is left.
  trim-HasNewest :
      (cap total : ℕ) (b : Backup) (bs : List Backup)
      → IsAscending (b ∷ bs)
      → HasNewest (trim remove cap total (b ∷ bs)).left (b ∷ bs)
  unfolding trim
  trim-HasNewest cap total b [] h = last_newest b [] h
  trim-HasNewest cap total b (c ∷ bs) h = elim (Bool-cases (ltb cap total)) [
    | inl over ↦
        rw over
          (removal-HasNewest b c bs h (remove b) _ (trim-HasNewest cap (total - b.size) c bs h.1))
    | inr fits ↦ rw fits (last_newest b (c ∷ bs) h)
  ]

  -- If no removal fails, the cap is kept or one backup is left.
  trim-IsCapped :
      (cap total : ℕ) (bs : List Backup)
      → total ≡ total_size bs
      → (trim remove cap total bs).is_ok ≡ true
      → IsCapped cap (trim remove cap total bs)
  unfolding trim
  trim-IsCapped cap total [] e k = inr (omega arith)
  trim-IsCapped cap total (b ∷ []) e k = inr (omega arith)
  trim-IsCapped cap total (b ∷ c ∷ bs) e k = elim (Bool-cases (ltb cap total)) [
    | inl over ↦ rw over (
        removal-IsCapped cap (remove b) _ _ _ (rw over at k)
          (trim-IsCapped cap (total - b.size) (c ∷ bs) (omega (arith, e))))
    | inr fits ↦ rw fits (inl (ground arith))
  ]

any-append_left : (p : Text → Bool) (s t : List Text) → any p s ≡ true → any p (s ++ t) ≡ true
any-append_left p [] t h = cc
any-append_left p (x ∷ s) t h = ground (arith, any-append_left p s t)

take_first :
    (n : ℕ) (b : Backup) (bs : List Backup)
    → 1 ≤ n
    → any (text_eq b.path) (map (λ c. c.path) (take n (b ∷ bs))) ≡ true
take_first zero b bs h = absurd (omega (arith, h))
take_first (suc n) b bs h = rw (text_eq_refl b.path) refl

newest_is_kept :
    (calendar : Calendar) (r : Retention) (b : Backup) (bs : List Backup)
    → is_kept (marked calendar r (b ∷ bs)) b ≡ true
unfolding marked
newest_is_kept calendar r b bs = any-append_left (text_eq b.path) _ _ (
    any-append_left (text_eq b.path) _ _ (
      any-append_left (text_eq b.path) (daily calendar r.max_backups (b ∷ bs)) _
        (take_first (if ltb r.max_backups 1 then 1 else r.max_backups) b bs (ground arith))))

All-Among :
    (n : ℕ) (bs : List Backup) (b : Backup) → All (λ c. c.date ≤ n) bs → Among b bs → b.date ≤ n
All-Among n [] b h a = elim a [ ]
All-Among n (c ∷ bs) b h (inl e) = rw e h.0
All-Among n (c ∷ bs) b h (inr a) = All-Among n bs b h.1 a

Among-All :
    (n : ℕ) (bs : List Backup) → ((b : Backup) → Among b bs → b.date ≤ n) → All (λ c. c.date ≤ n) bs
Among-All n [] f = tt
Among-All n (b ∷ bs) f = (f b (inl refl), Among-All n bs (λ c a. f c (inr a)))

module _ (calendar : Calendar) (sorting : Sorting) (remove : Backup → Removal)
    (sorts : Sorts sorting) where
  trimmed-HasNewest :
      (cap total : ℕ) (kept all oldest : List Backup) (h : Backup)
      → sorting.oldest_first kept ≡ oldest
      → Among h kept
      → All (λ b. b.date ≤ h.date) all
      → HasNewest (trim remove cap total oldest).left all
  trimmed-HasNewest cap total kept all [] h e a k = absurd (rw e at (sorts.oldest_among h kept).0 a)
  trimmed-HasNewest cap total kept all (o ∷ os) h e a k =
      let r = trim-HasNewest remove cap total o os (rw e at (sorts.oldest_in_order kept)) in
      let latest =
        All-Among r.newest.date (o ∷ os) h r.latest (rw e at (sorts.oldest_among h kept).0 a) in
      record {
        newest = r.newest;
        survives = r.survives;
        latest =
            All-mono (λ b. b.date ≤ h.date) (λ b. b.date ≤ r.newest.date) all
              (λ b l. omega (arith, l, latest)) k;
      }

  behind-HasNewest :
      (cap : Option ℕ) (kept all : List Backup) (first : Run) (h : Backup)
      → Among h kept
      → All (λ b. b.date ≤ h.date) all
      → HasNewest (behind_deletion calendar sorting remove cap kept first).left all
  behind-HasNewest cap kept all first h a k = elim (Bool-cases first.is_ok) [
    | inl good ↦ rw good (by_cap cap)
    | inr failed ↦
        rw failed
          (record { newest = h; survives = Among-append_left h kept first.left a; latest = k })
  ]
    where
      by_cap : (o : Option ℕ) → HasNewest (capped calendar sorting remove o kept).left all
      by_cap none = record { newest = h; survives = a; latest = k }
      by_cap (some n) = trimmed-HasNewest n (total_size kept) kept all _ h refl a k

  kept_newest :
      (r : Retention) (b : Backup) (bs newest : List Backup) (first : Run)
      → sorting.newest_first (b ∷ bs) ≡ newest
      → HasNewest
          (behind_deletion calendar sorting remove r.cap
            (keep_if (is_kept (marked calendar r newest)) newest)
            first).left
          (b ∷ bs)
  kept_newest r b bs [] first e = absurd (rw e at ((sorts.newest_among b (b ∷ bs)).0 (inl refl)))
  kept_newest r b bs (h ∷ t) first e =
      let order : IsDescending (h ∷ t) = rw e at (sorts.newest_in_order (b ∷ bs)) in
      behind-HasNewest r.cap _ (b ∷ bs) first h
        (Among-keep_if (is_kept (marked calendar r (h ∷ t))) h (h ∷ t) (inl refl)
          (newest_is_kept calendar r h t))
        (Among-All h.date (b ∷ bs) (λ c a.
          All-Among h.date (h ∷ t) c (omega arith, order.0)
            (rw e at ((sorts.newest_among c (b ∷ bs)).0 a))))

  -- When both sorts sort by date and the directory has a backup, a backup is left that is as new as
  -- any there was, whatever the policy, whichever removals fail and wherever the run ends.
  pub apply_retention-HasNewest :
      (r : Retention) (b : Backup) (bs : List Backup)
      → HasNewest (apply_retention calendar sorting remove r (b ∷ bs)).left (b ∷ bs)
  unfolding apply_retention
  apply_retention-HasNewest r b bs = kept_newest r b bs _ _ refl

  behind-IsCapped :
      (n : ℕ) (kept : List Backup) (first : Run)
      → (behind_deletion calendar sorting remove (some n) kept first).is_ok ≡ true
      → IsCapped n (behind_deletion calendar sorting remove (some n) kept first)
  behind-IsCapped n kept first k = elim (Bool-cases first.is_ok) [
    | inl good ↦ rw good (
        trim-IsCapped remove n (total_size kept) (sorting.oldest_first kept)
          (sym (sorts.oldest_total kept)) (rw good at k))
    | inr failed ↦ absurd (false≢true (rw failed at k))
  ]

  -- When both sorts sort by date, a run with a cap that ends without an error leaves backups of at
  -- most that size together, or one backup at most.
  pub apply_retention-IsCapped :
      (r : Retention) (n : ℕ) (bs : List Backup)
      → r.cap ≡ some n
      → (apply_retention calendar sorting remove r bs).is_ok ≡ true
      → IsCapped n (apply_retention calendar sorting remove r bs)
  unfolding apply_retention
  apply_retention-IsCapped r n bs e k = rw e (behind-IsCapped n _ _ (rw e at k))
