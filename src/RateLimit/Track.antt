-- ===== src/RateLimit/Track.antt =====
-- One bucket against the stamps of all requests that it let pass.
use mathlib.Core.List.{append-nil}
use caslink.Prelude.{
  ℕ, ◌+◌, ◌≤◌, ◌<◌, Bool, true, List, [], ◌∷◌, ◌++◌, ◌&&◌, ◌≡◌, refl, sym, ◌∙◌, arith,
  if◌then◌else◌, ltb, leb, length, keep_if, All, All-append, All-mono, All-keep_if, keep_if-append,
  keep_if-keep_if, length-keep_if_mono, length-append, Bool-cases, inl, inr,
}
use caslink.RateLimit.{Bucket, is_fresh, allow, last_before}

-- Whether a stamp lies in the window that starts at `x`.
abbrev pub is_in : ℕ → ℕ → ℕ → Bool
is_in window x a = leb x a && ltb a (x + window)

-- The number of stamps in that window.
abbrev pub count_in : ℕ → ℕ → List ℕ → ℕ
count_in window x stamps = length (keep_if (is_in window x) stamps)

abbrev pub IsSorted : List ℕ → Type 0
IsSorted [] = Unit
IsSorted (a ∷ b) = All (λ t. a ≤ t) b × IsSorted b

keep_if-IsSorted : (p : ℕ → Bool) (b : List ℕ) → IsSorted b → IsSorted (keep_if p b)
keep_if-IsSorted p [] h = tt
keep_if-IsSorted p (a ∷ b) h = elim (Bool-cases (p a)) [
  | inl kept ↦ rw kept ((All-keep_if p (λ t. a ≤ t) b h.0, keep_if-IsSorted p b h.1))
  | inr dropped ↦ rw dropped (keep_if-IsSorted p b h.1)
]

append-IsSorted : (b : List ℕ) (t : ℕ) → IsSorted b → All (λ a. a ≤ t) b → IsSorted (b ++ t ∷ [])
append-IsSorted [] t h k = (tt, tt)
append-IsSorted (a ∷ b) t h k =
    (All-append (λ u. a ≤ u) b (t ∷ []) h.0 (k.0, tt), append-IsSorted b t h.1 k.1)

-- If the last request is old, all are.
pub All-old :
    (now age : ℕ) (b : List ℕ)
    → IsSorted b
    → last_before now age b ≡ true
    → All (λ a. a + age < now) b
All-old now age [] h k = tt
All-old now age (a ∷ []) h k = (ground arith, tt)
All-old now age (a ∷ t ∷ b) h k =
    let rest = All-old now age (t ∷ b) h.1 k in (omega (arith, h.0.0, rest.0), rest)

none_fresh :
    (window now : ℕ) (b : List ℕ)
    → All (λ a. a + window ≤ now) b
    → keep_if (is_fresh window now) b ≡ []
none_fresh window now [] h = refl
none_fresh window now (a ∷ b) h = ground (arith, h.0, none_fresh window now b h.1)

fresh_before :
    (window now now' t : ℕ)
    → now ≤ now'
    → is_fresh window now' t ≡ true
    → is_fresh window now t ≡ true
fresh_before window now now' t h k = ground arith

in_window-fresh :
    (window now later x t : ℕ)
    → now ≤ later
    → is_in window x later ≡ true
    → is_in window x t ≡ true
    → is_fresh window now t ≡ true
in_window-fresh window now later x t h k l = ground arith

module _ (limit window : ℕ) where
  -- A bucket at a time, against the stamps of all that has passed: from then on the two agree on
  -- what is fresh, and no window has more than `limit` stamps.
  pub record Tracks (T : ℕ) (b : Bucket) (seen : List ℕ) : Type 0 where
    pub agree :
        (now : ℕ) → T ≤ now → keep_if (is_fresh window now) b ≡ keep_if (is_fresh window now) seen
    pub sorted : IsSorted b
    pub past : All (λ a. a ≤ T) b
    pub bounded : (x : ℕ) → count_in window x seen ≤ limit

  pub later_Tracks :
      {T T' : ℕ} {b : Bucket} {seen : List ℕ} → T ≤ T' → Tracks T b seen → Tracks T' b seen
  later_Tracks {T} {T'} {b} h k = record {
    agree = λ now l. k.agree now (omega (arith, h, l));
    sorted = k.sorted;
    past = All-mono (λ a. a ≤ T) (λ a. a ≤ T') b (λ a l. omega (arith, h, l)) k.past;
    bounded = k.bounded;
  }

  evict :
      {T now : ℕ} {b : Bucket} {seen : List ℕ}
      → T ≤ now
      → Tracks T b seen
      → Tracks now (keep_if (is_fresh window now) b) seen
  evict {T} {now} {b} h k = record {
    agree = λ now' l.
        keep_if-keep_if (is_fresh window now') (is_fresh window now)
          (λ t. fresh_before window now now' t l) b
        ∙ k.agree now' (omega (arith, h, l));
    sorted = keep_if-IsSorted (is_fresh window now) b k.sorted;
    past = All-keep_if (is_fresh window now) (λ a. a ≤ now) b (later_Tracks h k).past;
    bounded = k.bounded;
  }

  one_more :
      (now later x : ℕ) (seen : List ℕ)
      → now ≤ later
      → length (keep_if (is_fresh window now) seen) < limit
      → count_in window x seen ≤ limit
      → count_in window x (seen ++ later ∷ []) ≤ limit
  one_more now later x seen h k l =
      rw (keep_if-append (is_in window x) seen (later ∷ []), length-append)
        (elim (Bool-cases (is_in window x later)) [
          | inl inside ↦ rw inside (
              omega (
                arith,
                k,
                length-keep_if_mono (is_in window x) (is_fresh window now)
                    (λ t. in_window-fresh window now later x t h inside) seen,
              ))
          | inr outside ↦ rw outside (omega (arith, l))
        ])

  record_request :
      {now later : ℕ} {b : Bucket} {seen : List ℕ}
      → now ≤ later
      → length b < limit
      → keep_if (is_fresh window now) b ≡ b
      → Tracks now b seen
      → Tracks later (b ++ later ∷ []) (seen ++ later ∷ [])
  record_request {now} {later} {b} {seen} h few same k = record {
    agree = λ now' l.
        rw
          (
            keep_if-append (is_fresh window now') b (later ∷ []),
            keep_if-append (is_fresh window now') seen (later ∷ []),
            k.agree now' (omega (arith, h, l)),
          )
          refl;
    sorted = append-IsSorted b later k.sorted (later_Tracks h k).past;
    past = All-append (λ a. a ≤ later) b (later ∷ []) (later_Tracks h k).past (omega arith, tt);
    bounded = λ x.
        one_more now later x seen h (rw⁻¹ (k.agree now (omega arith)) (rw same few)) (k.bounded x);
  }

  pub allow-Tracks :
      {T now later : ℕ} {b : Bucket} {seen : List ℕ}
      → T ≤ now
      → now ≤ later
      → Tracks T b seen
      → let (b', answer) = allow limit window now later b in
        Tracks later b' (seen ++ (if answer then later ∷ [] else []))
  unfolding allow
  allow-Tracks {T} {now} {later} {b} {seen} h l k =
      elim (Bool-cases (leb limit (length (keep_if (is_fresh window now) b)))) [
        | inl full ↦ rw (full, append-nil seen) (later_Tracks l (evict h k))
        | inr free ↦ rw free (
            record_request l (ground arith)
              (keep_if-keep_if (is_fresh window now) (is_fresh window now) (λ t e. e) b)
              (evict h k))
      ]

  pub forget :
      {T now : ℕ} {b : Bucket} {seen : List ℕ}
      → T ≤ now
      → Tracks T b seen
      → All (λ a. a + window ≤ now) b
      → Tracks now [] seen
  forget {T} {now} {b} h k old = record {
    agree = λ now' l.
        sym (
          none_fresh window now' b (
            All-mono (λ a. a + window ≤ now) (λ a. a + window ≤ now') b (λ a q. omega (arith, q, l))
              old))
        ∙ k.agree now' (omega (arith, h, l));
    sorted = tt;
    past = tt;
    bounded = k.bounded;
  }
