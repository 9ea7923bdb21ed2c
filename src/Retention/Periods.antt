-- ===== src/Retention/Periods.antt =====
-- What `keepPeriodic` marks.
use caslink.Prelude.{
  ℕ, zero, suc, ◌-◌, ◌≡◌, refl, ap, ◌∙◌, Text, false, List, [], ◌∷◌, Option, none, some, leb,
  length, take, map, arith, Bool-cases, inl, inr,
}
use caslink.Retention.{Backup, Bucket, is_seen, by_bucket, keep_periodic_from, keep_periodic}

-- The first backup of each bucket that has not been seen, without any bound.
unfoldable pub first_of_bucket : (ℕ → Option Bucket) → List Bucket → List Backup → List Backup
first_of_bucket bucket_of seen [] = []
first_of_bucket bucket_of seen (b ∷ bs) =
    by_bucket (bucket_of b.date) seen (first_of_bucket bucket_of seen bs)
      (λ k. b ∷ first_of_bucket bucket_of (k ∷ seen) bs)

-- The paths of the first `n` backups.
abbrev pub first_paths : ℕ → List Backup → List Text
first_paths n bs = map (λ b. b.path) (take n bs)

take-nil : (m : ℕ) → take {A = Backup} m [] ≡ []
take-nil zero = refl
take-nil (suc m) = refl

one_round :
    (n : ℕ) (o : Option Bucket) (seen : List Bucket) (b : Backup) (over : List Text)
    (rest : List Backup)
    → (first : Bucket → List Text) (firsts : Bucket → List Backup) → leb n (length seen) ≡ false
    → over ≡ first_paths (n - length seen) rest
    → ((k : Bucket) → first k ≡ first_paths (n - suc (length seen)) (firsts k))
    → by_bucket o seen over (λ k. b.path ∷ first k)
      ≡ first_paths (n - length seen) (by_bucket o seen rest (λ k. b ∷ firsts k))
one_round n none seen b over rest first firsts free h g = h
one_round n (some k) seen b over rest first firsts free h g = elim (Bool-cases (is_seen k seen)) [
  | inl old ↦ rw old h
  | inr new ↦
      let room : n - length seen ≡ suc (n - suc (length seen)) = ground arith in
      rw (new, room) (ap (b.path ∷◌) (g k))
]

module _ (n : ℕ) (bucket_of : ℕ → Option Bucket) where
  keep_periodic_from-eq-take :
      (bs : List Backup) (seen : List Bucket)
      → keep_periodic_from n bucket_of seen bs
        ≡ first_paths (n - length seen) (first_of_bucket bucket_of seen bs)
  unfolding keep_periodic_from first_of_bucket
  keep_periodic_from-eq-take [] seen = rw (take-nil (n - length seen)) refl
  keep_periodic_from-eq-take (b ∷ bs) seen = elim (Bool-cases (leb n (length seen))) [
    | inl full ↦ let no_room : n - length seen ≡ 0 = ground arith in rw (full, no_room) refl
    | inr free ↦ rw free (
        one_round n (bucket_of b.date) seen b _ _ _ _ free (keep_periodic_from-eq-take bs seen)
          (λ k. keep_periodic_from-eq-take bs (k ∷ seen)))
  ]

  -- `keepPeriodic` marks the newest backup of each of the first `n` buckets, and nothing else.
  pub keep_periodic-eq-take :
      (bs : List Backup)
      → keep_periodic n bucket_of bs ≡ first_paths n (first_of_bucket bucket_of [] bs)
  unfolding keep_periodic
  keep_periodic-eq-take bs =
      let all_room : n - 0 ≡ n = omega arith in
      keep_periodic_from-eq-take bs []
      ∙ ap (λ m. first_paths m (first_of_bucket bucket_of [] bs)) all_room
