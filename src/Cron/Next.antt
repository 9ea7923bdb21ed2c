-- ===== src/Cron/Next.antt =====
-- Which time `Next` returns.
use mathlib.Core.Bool.{false≢true}
use caslink.Prelude.{
  ℕ, zero, suc, ◌+◌, ◌*◌, ◌≤◌, ◌<◌, ◌≡◌, ◌⊎◌, inl, inr, refl, sym, ◌∙◌, true, false, none, some,
  arith, Bool-cases,
}
use caslink.Cron.{
  bit_at, Fields, at_fields, minute_ns, Zone, matches, first_match, rounds_of_year, next_minute,
  next,
}

module _ (zone : Zone) (f : Fields) where
  -- The rounds up to `n`, from `t` on, find no match.
  abbrev pub Misses : ℕ → ℕ → Type 0
  Misses n t = (k : ℕ) → k < n → matches zone f (t + k * minute_ns) ≡ false

  -- The match at round `k`, and none before.
  pub record IsFirst (n t found : ℕ) : Type 0 where
    pub round : ℕ
    pub in_time : round < n
    pub at_round : found ≡ t + round * minute_ns
    pub match : matches zone f found ≡ true
    pub earlier : Misses round t

  one_later : (n t : ℕ) → matches zone f t ≡ false → Misses n (t + minute_ns) → Misses (suc n) t
  one_later n t h m zero l = let here : t + 0 * minute_ns ≡ t = omega arith in rw here h
  one_later n t h m (suc k) l =
      let there : t + suc k * minute_ns ≡ t + minute_ns + k * minute_ns = omega arith in
      rw there (m k (omega (arith, l)))

  later_IsFirst :
      (n t found : ℕ)
      → matches zone f t ≡ false
      → IsFirst n (t + minute_ns) found
      → IsFirst (suc n) t found
  later_IsFirst n t found h r = record {
    round = suc r.round;
    in_time = omega (arith, r.in_time);
    at_round = omega (arith, r.at_round);
    match = r.match;
    earlier = one_later r.round t h r.earlier;
  }

  first_match_lem :
      (n t : ℕ)
      → ((found : ℕ) × (first_match zone n f t ≡ some found) × IsFirst n t found)
        ⊎ ((first_match zone n f t ≡ none) × Misses n t)
  unfolding first_match
  first_match_lem zero t = inr (refl, λ k l. absurd (omega (arith, l)))
  first_match_lem (suc n) t = elim (Bool-cases (matches zone f t)) [
    | inl hit ↦ inl (
      t,
      rw hit refl,
      record {
        round = 0;
        in_time = omega arith;
        at_round = omega arith;
        match = hit;
        earlier = λ k l. absurd (omega (arith, l));
      },
    )
    | inr miss ↦ elim (first_match_lem n (t + minute_ns)) [
      | inl (found, e, r) ↦ inl (found, rw miss e, later_IsFirst n t found miss r)
      | inr (e, m) ↦ inr (rw miss e, one_later n t miss m)
    ]
  ]

  -- For fields, `Next` returns the first full minute after `from` that they match, if there is one
  -- among the next 527041; if there is none, it returns `from` plus a minute, whether that is a full
  -- minute or not.
  pub next_lem :
      (from : ℕ)
      → let start = next_minute from in
        let found = next zone (at_fields f) from in
        (from < start)
        × (start ≤ from + minute_ns)
        × (IsFirst rounds_of_year start found
            ⊎ (Misses rounds_of_year start × (found ≡ from + minute_ns)))
  unfolding next
  next_lem from = (
    omega arith,
    omega arith,
    elim (first_match_lem rounds_of_year (next_minute from)) [
      | inl (found, e, r) ↦ inl (rw e r)
      | inr (e, m) ↦ inr (m, rw e refl)
    ],
  )

  -- Months and days that no calendar has: only February, and only the 30th or 31st.
  pub record IsNever : Type 0 where
    pub in_february : (v : ℕ) → bit_at v f.months ≡ true → v ≡ 2
    pub late : (v : ℕ) → bit_at v f.days ≡ true → 30 ≤ v

  never_matches :
      IsNever
      → ((t : ℕ) → zone.month_of t ≡ 2 → zone.day_of t ≤ 29)
      → (t : ℕ) → matches zone f t ≡ false
  unfolding matches
  never_matches h short t =
      ground (arith, h.in_february (zone.month_of t), h.late (zone.day_of t), short t)

  -- Fields that parse but match no day, such as "0 0 30 2 *", make a task run every minute: in a
  -- location whose Februaries have at most 29 days, `Next` returns `from` plus a minute always.
  pub next_of_IsNever :
      IsNever
      → ((t : ℕ) → zone.month_of t ≡ 2 → zone.day_of t ≤ 29)
      → (from : ℕ) → next zone (at_fields f) from ≡ from + minute_ns
  next_of_IsNever h short from = elim (next_lem from).2 [
    | inl r ↦
        absurd (false≢true (sym (never_matches h short (next zone (at_fields f) from)) ∙ r.match))
    | inr (m, e) ↦ e
  ]
