-- ===== src/Cron/Part.antt =====
-- Which values a part of a field of a cron expression means.
use caslink.Prelude.{
  ℕ, zero, suc, ◌+◌, ◌*◌, ◌≤◌, ◌<◌, ◌≡◌, ◌⊎◌, inl, inr, refl, sym, ap, ◌∙◌, true, Option, none,
  some, arith, Bool-cases, ◌||◌, ltb, length, List, [], ◌∷◌, Text,
}
use caslink.Cron.{
  ℤ, pos, negsuc, Bits, bit_at, Parsed, parsed, invalid, panics, range_step, range_bounds,
  mark_range, mark_part, with_step, positive, step_behind, atoi, cut, parse_cron_range,
}
use caslink.Cron.Range.{IsReached, Marks, mark_lem}

-- What a part of a field means: its bounds and its step, and that a value is among them.
pub record IsMeant (min max : ℕ) (part : Text) (u : ℕ) : Type 0 where
  pub range_part : Text
  pub step : ℕ
  pub lo : ℕ
  pub hi : ℕ
  pub stepped : range_step part ≡ some (range_part, step)
  pub bounded : range_bounds min max range_part ≡ some (pos lo, pos hi)
  pub above : min ≤ lo
  pub below : hi ≤ max
  pub reached : IsReached step hi lo u

-- One of the parts means the value.
abbrev pub IsMeantByOne : ℕ → ℕ → List Text → ℕ → Type 0
IsMeantByOne min max [] u = ⊥
IsMeantByOne min max (part ∷ parts) u = IsMeant min max part u ⊎ IsMeantByOne min max parts u

pub record Fills (meant : ℕ → Type 0) (before after : Bits) : Type 0 where
  pub same_length : length after ≡ length before
  pub sound : (u : ℕ) → bit_at u after ≡ true → (bit_at u before ≡ true) ⊎ meant u
  pub keeps : (u : ℕ) → bit_at u before ≡ true → bit_at u after ≡ true
  pub complete : (u : ℕ) → meant u → bit_at u after ≡ true

with_step-positive :
    (a : Text) (z : Option ℤ) (range_part : Text) (n : ℕ)
    → with_step a (positive z) ≡ some (range_part, n)
    → 1 ≤ n
with_step-positive a none r n e = cc
with_step-positive a (some (negsuc m)) r n e = cc
with_step-positive a (some (pos zero)) r n e = cc
with_step-positive a (some (pos (suc m))) r n e = ground (arith, e)

step_behind_positive :
    (part : Text) (o : Option (Text × Text)) (range_part : Text) (n : ℕ)
    → step_behind part o ≡ some (range_part, n)
    → 1 ≤ n
step_behind_positive part none r n e = ground (arith, e)
step_behind_positive part (some (a, b)) r n e = with_step-positive a (atoi b) r n e

range_step_positive :
    (part range_part : Text) (n : ℕ) → range_step part ≡ some (range_part, n) → 1 ≤ n
unfolding range_step
range_step_positive part r n e = step_behind_positive part (cut b'/' part) r n e

-- The meaning of a part is its own: bounds and step are those that were read.
meant-IsReached :
    (part range_part : Text) (min max step lo hi u : ℕ)
    → range_step part ≡ some (range_part, step)
    → range_bounds min max range_part ≡ some (pos lo, pos hi)
    → IsMeant min max part u
    → IsReached step hi lo u
meant-IsReached part range_part min max step lo hi u s b m =
    let read : ◌≡◌ {A = Option (Text × ℕ)} (some (m.range_part, m.step)) (some (range_part, step)) =
      sym m.stepped ∙ s in
    let same_part : m.range_part ≡ range_part = cc in
    let same_step : m.step ≡ step = cc in
    let bounds : ◌≡◌ {A = Option (ℤ × ℤ)} (some (pos m.lo, pos m.hi)) (some (pos lo, pos hi)) =
      sym m.bounded ∙ ap (range_bounds min max) same_part ∙ b in
    let same_lo : m.lo ≡ lo = cc in
    let same_hi : m.hi ≡ hi = cc in
    record {
      count = m.reached.count;
      there = m.reached.there ∙ (λ i. same_lo i + m.reached.count * same_step i);
      within = rw (sym same_hi) m.reached.within;
    }

fill_range :
    (part range_part : Text) (min max step lo hi : ℕ) (bits after : Bits)
    → max < length bits
    → range_step part ≡ some (range_part, step)
    → range_bounds min max range_part ≡ some (pos lo, pos hi)
    → min ≤ lo
    → hi ≤ max
    → Marks step hi lo bits after
    → Fills (IsMeant min max part) bits after
fill_range part range_part min max step lo hi bits after l s b a c m = record {
  same_length = m.same_length;
  sound = λ u e. elim (m.sound u e) [
    | inl old ↦ inl old
    | inr r ↦ inr (record {
      range_part = range_part;
      step = step;
      lo = lo;
      hi = hi;
      stepped = s;
      bounded = b;
      above = a;
      below = c;
      reached = r;
    })
  ];
  keeps = m.keeps;
  complete = λ u q.
      let r = meant-IsReached part range_part min max step lo hi u s b q in
      m.complete u r (omega (arith, r.within, c, l));
}

mark_range-Fills :
    (part range_part : Text) (min max step : ℕ) (o : Option (ℤ × ℤ)) (bits after : Bits)
    → max < length bits
    → range_step part ≡ some (range_part, step)
    → range_bounds min max range_part ≡ o
    → mark_range min max step o bits ≡ parsed after
    → Fills (IsMeant min max part) bits after
mark_range-Fills part r min max step none bits after l s b e = cc
mark_range-Fills part r min max step (some (pos lo, negsuc h)) bits after l s b e = cc
mark_range-Fills part r min max step (some (negsuc lo, h)) bits after l s b e = cc
mark_range-Fills part r min max step (some (pos lo, pos hi)) bits after l s b e =
    elim (Bool-cases (ltb lo min || ltb max hi || ltb hi lo)) [
      | inl out ↦ absurd (out_of_range (rw out at e))
      | inr in_range ↦
          elim (mark_lem (suc hi) step hi lo bits (range_step_positive part r step s)
            (omega arith)) [
              | inl (marked, f, m) ↦
                  let result : ◌≡◌ {A = Parsed Bits} (parsed marked) (parsed after) =
                    sym f ∙ (rw in_range at e) in
                  let same : marked ≡ after = cc in
                  fill_range part r min max step lo hi bits after l s b (ground arith)
                    (ground arith) (rw (sym same) m)
              | inr (f, o) ↦ absurd (no_panic (sym f ∙ (rw in_range at e)))
            ]
    ]
  where
    out_of_range : ◌≡◌ {A = Parsed Bits} invalid (parsed after) → ⊥
    out_of_range q = cc

    no_panic : ◌≡◌ {A = Parsed Bits} panics (parsed after) → ⊥
    no_panic q = cc

mark_part-Fills :
    (part : Text) (min max : ℕ) (o : Option (Text × ℕ)) (bits after : Bits)
    → max < length bits
    → range_step part ≡ o
    → mark_part min max o bits ≡ parsed after
    → Fills (IsMeant min max part) bits after
mark_part-Fills part min max none bits after l s e = cc
mark_part-Fills part min max (some (r, step)) bits after l s e =
    mark_range-Fills part r min max step (range_bounds min max r) bits after l s refl e

pub parse_cron_range-Fills :
    (part : Text) (min max : ℕ) (bits after : Bits)
    → max < length bits
    → parse_cron_range part min max bits ≡ parsed after
    → Fills (IsMeant min max part) bits after
unfolding parse_cron_range
parse_cron_range-Fills part min max bits after l e =
    mark_part-Fills part min max (range_step part) bits after l refl e
