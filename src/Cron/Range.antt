-- ===== src/Cron/Range.antt =====
-- What the loop of `parseCronRange` marks.
use caslink.Prelude.{
  ℕ, zero, suc, ◌+◌, ◌*◌, ◌≤◌, ◌<◌, ◌≡◌, ◌⊎◌, inl, inr, refl, ap, ◌∙◌, true, arith, Bool-cases,
  ◌&&◌, ◌||◌, ◌==◌, ltb, leb, length, [], ◌∷◌,
}
use caslink.Cron.{int_limit, Bits, bit_at, set_bit, parsed, panics, mark}

length-set_bit : (v : ℕ) (bits : Bits) → length (set_bit v bits) ≡ length bits
length-set_bit v [] = refl
length-set_bit zero (b ∷ bits) = refl
length-set_bit (suc v) (b ∷ bits) = ap suc (length-set_bit v bits)

pub bit_at-set_bit :
    (u v : ℕ) (bits : Bits)
    → bit_at u (set_bit v bits) ≡ (bit_at u bits || (u == v && ltb u (length bits)))
bit_at-set_bit u v [] = ground arith
bit_at-set_bit zero zero (b ∷ bits) = ground arith
bit_at-set_bit zero (suc v) (b ∷ bits) = ground arith
bit_at-set_bit (suc u) zero (b ∷ bits) = ground arith
bit_at-set_bit (suc u) (suc v) (b ∷ bits) = ground (arith, bit_at-set_bit u v bits)

-- `u` is reached from `v` in steps, and not beyond `hi`.
pub record IsReached (step hi v u : ℕ) : Type 0 where
  pub count : ℕ
  pub there : u ≡ v + count * step
  pub within : u ≤ hi

-- The table has the old marks and those that are reached, and its length.
pub record Marks (step hi v : ℕ) (before after : Bits) : Type 0 where
  pub same_length : length after ≡ length before
  pub sound : (u : ℕ) → bit_at u after ≡ true → (bit_at u before ≡ true) ⊎ IsReached step hi v u
  pub keeps : (u : ℕ) → bit_at u before ≡ true → bit_at u after ≡ true
  pub complete : (u : ℕ) → IsReached step hi v u → u < length before → bit_at u after ≡ true

Marks-nothing : (step hi v : ℕ) (bits : Bits) → hi < v → Marks step hi v bits bits
Marks-nothing step hi v bits h = record {
  same_length = refl;
  sound = λ u e. inl e;
  keeps = λ u e. e;
  complete = λ u r l. absurd (grind (arith, r.there, r.within, h));
}

set_before :
    (u v : ℕ) (bits : Bits) (step hi : ℕ)
    → v ≤ hi
    → bit_at u (set_bit v bits) ≡ true
    → (bit_at u bits ≡ true) ⊎ IsReached step hi v u
set_before u v bits step hi h e = elim (Bool-cases (bit_at u bits)) [
  | inl old ↦ inl old
  | inr new ↦
      let same : u ≡ v = ground (arith, bit_at-set_bit u v bits) in
      inr (record { count = 0; there = omega (arith, same); within = omega (arith, same, h) })
]

reached_later :
    (u v : ℕ) (bits after : Bits) (step hi : ℕ)
    → Marks step hi (v + step) (set_bit v bits) after
    → u < length bits
    → u ≤ hi
    → (k : ℕ) → u ≡ v + k * step
    → bit_at u after ≡ true
reached_later u v bits after step hi m l w zero e =
    let same : u ≡ v = omega (arith, e) in m.keeps u (ground (arith, bit_at-set_bit u v bits))
reached_later u v bits after step hi m l w (suc k) e =
    m.complete u (record { count = k; there = grind (arith, e); within = w })
      (rw (length-set_bit v bits) l)

Marks-more :
    (step hi v : ℕ) (bits after : Bits)
    → v ≤ hi
    → Marks step hi (v + step) (set_bit v bits) after
    → Marks step hi v bits after
Marks-more step hi v bits after h m = record {
  same_length = m.same_length ∙ length-set_bit v bits;
  sound = λ u e. elim (m.sound u e) [
    | inl old ↦ set_before u v bits step hi h old
    | inr r ↦
        inr (record { count = suc r.count; there = grind (arith, r.there); within = r.within })
  ];
  keeps = λ u e. m.keeps u (rw (bit_at-set_bit u v bits, e) refl);
  complete = λ u r l. reached_later u v bits after step hi m l r.within r.count r.there;
}

-- With a step above zero and enough fuel the loop marks the table, or panics, which it does only if
-- the counter can overflow below `hi`.
pub mark_lem :
    (fuel step hi v : ℕ) (bits : Bits)
    → 1 ≤ step
    → hi < v + fuel
    → ((after : Bits) × (mark fuel step hi v bits ≡ parsed after) × Marks step hi v bits after)
      ⊎ ((mark fuel step hi v bits ≡ panics) × (int_limit ≤ hi + step))
unfolding mark
mark_lem zero step hi v bits p h = inl (bits, refl, Marks-nothing step hi v bits (omega (arith, h)))
mark_lem (suc fuel) step hi v bits p h = elim (Bool-cases (ltb hi v)) [
  | inl past ↦ inl (bits, rw past refl, Marks-nothing step hi v bits (ground arith))
  | inr here ↦ elim (Bool-cases (leb int_limit (v + step))) [
    | inl over ↦ inr (rw (here, over) refl, ground arith)
    | inr fits ↦ elim (mark_lem fuel step hi (v + step) (set_bit v bits) p (omega (arith, p, h))) [
      | inl (after, e, m) ↦
          inl (after, rw (here, fits) e, Marks-more step hi v bits after (ground arith) m)
      | inr (e, o) ↦ inr (rw (here, fits) e, o)
    ]
  ]
]
