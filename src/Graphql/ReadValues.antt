-- ===== src/Graphql/ReadValues.antt =====
-- What is printed is read.
use caslink.Prelude.{
  ℕ, zero, suc, ◌+◌, ◌≤◌, ◌<◌, ◌≡◌, refl, arith, Text, text_eq, Bool, true, false, ◌∷◌, ◌==◌,
}
use caslink.Graphql.Integers.{atoi-int_text}
use caslink.Graphql.{
  punct, Value, variable, string, float, int, bool, null, list, object, Values, no_values, value,
  Entries, no_entries, entry, done,
}
use caslink.Graphql.Parser.{Tokens, starts, parse_value, parse_values, parse_entries}
use caslink.Graphql.Printer.{
  emit_value, emit_values, emit_entries, IsPrintable, ArePrintable, HasPrintable,
}

-- Enough fuel.
unfoldable mutual
  pub weight : Value → ℕ
  weight (list vs) = suc (weight_values vs)
  weight (object es) = suc (weight_entries es)
  weight _ = 1

  pub weight_values : Values → ℕ
  weight_values no_values = 1
  weight_values (value v vs) = suc (weight v + weight_values vs)

  pub weight_entries : Entries → ℕ
  weight_entries no_entries = 1
  weight_entries (entry k v es) = suc (weight v + weight_entries es)

pub weight_pos : (v : Value) → 0 < weight v
unfolding weight
weight_pos (list vs) = omega arith
weight_pos (object es) = omega arith
weight_pos (variable x) = omega arith
weight_pos (string s) = omega arith
weight_pos (float s) = omega arith
weight_pos (int n) = omega arith
weight_pos (bool b) = omega arith
weight_pos null = omega arith

pub weight_values_pos : (vs : Values) → 0 < weight_values vs
unfolding weight
weight_values_pos no_values = omega arith
weight_values_pos (value v vs) = omega arith

pub weight_entries_pos : (es : Entries) → 0 < weight_entries es
unfolding weight
weight_entries_pos no_entries = omega arith
weight_entries_pos (entry k v es) = omega arith

not_closed : (v : Value) (ts : Tokens) → starts b']' (emit_value v ts) ≡ false
unfolding emit_value
not_closed (variable x) ts = refl
not_closed (string s) ts = refl
not_closed (float s) ts = refl
not_closed (int n) ts = refl
not_closed (bool b) ts = refl
not_closed null ts = refl
not_closed (list vs) ts = refl
not_closed (object es) ts = refl

module _ (is_float : Text → Bool) where
  mutual
    unfolding parse_value emit_value weight text_eq

    pub parse_value-emit :
        (v : Value) (f : ℕ) (ts : Tokens)
        → weight v ≤ f
        → IsPrintable is_float v
        → parse_value is_float f (emit_value v ts) ≡ done (v, ts)
    parse_value-emit (variable x) (suc f) ts l h = refl
    parse_value-emit (string x) (suc f) ts l h = refl
    parse_value-emit (float x) (suc f) ts l h = rw h refl
    parse_value-emit (int n) (suc f) ts l h = rw (atoi-int_text n h) refl
    parse_value-emit (bool true) (suc f) ts l h = refl
    parse_value-emit (bool false) (suc f) ts l h = refl
    parse_value-emit null (suc f) ts l h = refl
    parse_value-emit (list vs) (suc f) ts l h =
        rw (parse_values-emit vs f ts (omega (arith, l)) h) refl
    parse_value-emit (object es) (suc f) ts l h =
        rw (parse_entries-emit es b'}' f ts (omega (arith, l)) h) refl
    parse_value-emit v zero ts l h = absurd (omega (arith, l, weight_pos v))

    parse_values-emit :
        (vs : Values) (f : ℕ) (ts : Tokens)
        → weight_values vs ≤ f
        → ArePrintable is_float vs
        → parse_values is_float f (emit_values vs (punct b']' ∷ ts)) ≡ done (vs, ts)
    parse_values-emit no_values (suc f) ts l h = refl
    parse_values-emit (value v vs) (suc f) ts l h =
        let after = emit_values vs (punct b']' ∷ ts) in
        rw
          (
            not_closed v after,
            parse_value-emit v f after (omega (arith, l)) h.0,
            parse_values-emit vs f ts (omega (arith, l)) h.1,
          )
          refl
    parse_values-emit vs zero ts l h = absurd (omega (arith, l, weight_values_pos vs))

    pub parse_entries-emit :
        (es : Entries) (close f : ℕ) (ts : Tokens)
        → weight_entries es ≤ f
        → HasPrintable is_float es
        → parse_entries is_float f close (emit_entries es (punct close ∷ ts)) ≡ done (es, ts)
    parse_entries-emit no_entries close (suc f) ts l h =
        let same : (close == close) ≡ true = ground arith in rw same refl
    parse_entries-emit (entry k v es) close (suc f) ts l h =
        rw
          (
            parse_value-emit v f (emit_entries es (punct close ∷ ts)) (omega (arith, l)) h.0,
            parse_entries-emit es close f ts (omega (arith, l)) h.1,
          )
          refl
    parse_entries-emit es close zero ts l h = absurd (omega (arith, l, weight_entries_pos es))
