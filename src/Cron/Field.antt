-- ===== src/Cron/Field.antt =====
-- Which values a field of a cron expression means, and which parts panic.
use mathlib.Core.Bool.{false≢true}
use caslink.Prelude.{
  ℕ, zero, suc, ◌+◌, ◌≤◌, ◌<◌, ◌≡◌, ◌↔◌, inl, inr, refl, sym, ap, ◌∙◌, true, false, some, arith,
  ◌||◌, ltb, leb, length, List, [], ◌∷◌, Text,
}
use caslink.Cron.{
  pos, int_limit, Bits, bit_at, Parsed, parsed, invalid, panics, mark, range_step, range_bounds,
  ◌>>=◌, empty_bits, parse_cron_range, split_on, parse_parts, parse_cron_field,
}
use caslink.Cron.Part.{IsMeantByOne, Fills, parse_cron_range-Fills}

parse_rest-Fills :
    (part : Text) (parts : List Text) (min max : ℕ) (o : Parsed Bits) (bits after : Bits)
    → max < length bits
    → parse_cron_range part min max bits ≡ o
    → (o >>= parse_parts parts min max) ≡ parsed after
    → ((marked : Bits)
        → max < length marked
        → parse_parts parts min max marked ≡ parsed after
        → Fills (IsMeantByOne min max parts) marked after)
    → Fills (IsMeantByOne min max (part ∷ parts)) bits after
parse_rest-Fills part parts min max invalid bits after l s e k = cc
parse_rest-Fills part parts min max panics bits after l s e k = cc
parse_rest-Fills part parts min max (parsed marked) bits after l s e k =
    let first = parse_cron_range-Fills part min max bits marked l s in
    let others = k marked (rw first.same_length l) e in
    record {
      same_length = others.same_length ∙ first.same_length;
      sound = λ u q. elim (others.sound u q) [
        | inl old ↦ elim (first.sound u old) [ inl older ↦ inl older | inr here ↦ inr (inl here) ]
        | inr there ↦ inr (inr there)
      ];
      keeps = λ u q. others.keeps u (first.keeps u q);
      complete = λ u q. elim q [
        | inl here ↦ others.keeps u (first.complete u here)
        | inr there ↦ others.complete u there
      ];
    }

parse_parts-Fills :
    (parts : List Text) (min max : ℕ) (bits after : Bits)
    → max < length bits
    → parse_parts parts min max bits ≡ parsed after
    → Fills (IsMeantByOne min max parts) bits after
unfolding parse_parts
parse_parts-Fills [] min max bits after l e =
    let same : bits ≡ after = cc in
    record {
      same_length = ap length (sym same);
      sound = λ u q. inl (rw same q);
      keeps = λ u q. rw (sym same) q;
      complete = λ u q. elim q [ ];
    }
parse_parts-Fills (part ∷ parts) min max bits after l e =
    parse_rest-Fills part parts min max (parse_cron_range part min max bits) bits after l refl e
      (λ marked m q. parse_parts-Fills parts min max marked after m q)

pub bit_at-empty_bits : (u n : ℕ) → bit_at u (empty_bits n) ≡ false
bit_at-empty_bits u zero = refl
bit_at-empty_bits zero (suc n) = refl
bit_at-empty_bits (suc u) (suc n) = bit_at-empty_bits u n

length-empty_bits : (n : ℕ) → length (empty_bits n) ≡ n
length-empty_bits zero = refl
length-empty_bits (suc n) = ap suc (length-empty_bits n)

-- A field that is accepted, with a table that has room for its greatest value, marks exactly the
-- values that one of its parts means: those that start at the part's lower bound, go on by its step
-- and end at its upper bound, where both bounds are in range.
pub parse_cron_field_iff :
    (field : Text) (min max n : ℕ) (after : Bits)
    → max < n
    → parse_cron_field field min max (empty_bits n) ≡ parsed after
    → (u : ℕ) → (bit_at u after ≡ true) ↔ IsMeantByOne min max (split_on b',' field) u
unfolding parse_cron_field
parse_cron_field_iff field min max n after l e u =
    let fills =
      parse_parts-Fills (split_on b',' field) min max (empty_bits n) after
        (rw (length-empty_bits n) l) e in
    (
      (λ q. elim (fills.sound u q) [
        | inl old ↦ absurd (false≢true (sym (bit_at-empty_bits u n) ∙ old))
        | inr meant ↦ meant
      ]),
      fills.complete u,
    )

in_range :
    (min max lo hi : ℕ)
    → min ≤ lo
    → lo ≤ hi
    → hi ≤ max
    → (ltb lo min || ltb max hi || ltb hi lo) ≡ false
in_range min max lo hi a b c = ground arith

leb_of_le : (a b : ℕ) → a ≤ b → leb a b ≡ true
leb_of_le a b h = ground arith

not_past : (lo hi : ℕ) → lo ≤ hi → ltb hi lo ≡ false
not_past lo hi h = ground arith

mark_overflow :
    (fuel step hi v : ℕ) (bits : Bits)
    → v ≤ hi
    → int_limit ≤ v + step
    → mark (suc fuel) step hi v bits ≡ panics
unfolding mark
mark_overflow fuel step hi v bits h o = rw (not_past v hi h, leb_of_le int_limit (v + step) o) refl

-- A part whose bounds are in range and whose step added to the lower bound is beyond the greatest
-- `int` panics: the counter wraps to a negative index.
pub parse_cron_range_of_overflow :
    (part range_part : Text) (min max step lo hi : ℕ) (bits : Bits)
    → range_step part ≡ some (range_part, step)
    → range_bounds min max range_part ≡ some (pos lo, pos hi)
    → min ≤ lo
    → lo ≤ hi
    → hi ≤ max
    → int_limit ≤ lo + step
    → parse_cron_range part min max bits ≡ panics
unfolding parse_cron_range
parse_cron_range_of_overflow part range_part min max step lo hi bits s b a c d o =
    rw (s, b, in_range min max lo hi a c d) (mark_overflow hi step hi lo bits c o)
