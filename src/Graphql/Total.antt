-- ===== src/Graphql/Total.antt =====
-- Every text is read or refused: fields, documents and the lexer.
use caslink.Prelude.{
  ℕ, zero, suc, ◌+◌, ◌*◌, ◌≤◌, ◌<◌, arith, Text, Bool, [], ◌∷◌, length, ◌==◌, Bool-cases, inl, inr,
  Option, none, some,
}
use caslink.Graphql.{
  punct, string_token, name, int_token, float_token, null, no_entries, no_fields, Document,
  Operation, Outcome,
}
use caslink.Graphql.Parser.{
  Tokens, tail, starts, skip_type, skip_bang, alias_or_name, named, more_fields, directive, if_more,
  parse_value, parse_entries, skip_directives, parse_field, parse_fields, parse_selection_set,
  skip_variables, with_operation, operation_of, selected, parse_operation, at_end, parse_tokens,
  skip_name,
}
use caslink.Graphql.Fuel.{
  Yields, result, error, Yields->>=, Yields-mono, Shorter, NoLonger, tail-le, tail_of_starts,
  expect_punct-Yields, expect_name-Yields, until-Yields, optional-Yields, parse_value-Yields,
  parse_entries-Yields,
}

-- Outcomes that are only what is left.
abbrev Left : Tokens → Tokens → Type 0
Left ts r = length r ≤ length ts

skip_bang-le : (ts : Tokens) → length (skip_bang ts) ≤ length ts
skip_bang-le ts = elim (Bool-cases (starts b'!' ts)) [
  | inl e ↦ rw e (tail-le ts)
  | inr e ↦ rw e (omega arith)
]

skip_type-Yields : (ts : Tokens) → Yields (Left ts) (skip_type ts)
unfolding skip_type
skip_type-Yields (punct c ∷ ts) = elim (Bool-cases (c == b'[')) [
  | inl e ↦ rw e (
      Yields->>= (λ r p. result (omega (arith, p, skip_bang-le r)))
        (Yields->>=
          (λ r p.
            Yields-mono {Q = λ r₁. length r₁ ≤ length ts} (λ r₁ p₁. omega (arith, p, p₁))
              (expect_punct-Yields b']' r))
          (skip_type-Yields ts)))
  | inr e ↦ rw e error
]
skip_type-Yields (name n ∷ ts) = result (omega (arith, skip_bang-le ts))
skip_type-Yields (string_token s ∷ ts) = error
skip_type-Yields (int_token s ∷ ts) = error
skip_type-Yields (float_token s ∷ ts) = error
skip_type-Yields [] = error

named-Yields : (ts : Tokens) → Yields (λ r. length r.1.1 < length ts) (named ts)
named-Yields ts = Yields->>= (λ r p. behind r.0 r.1 p) (expect_name-Yields ts)
  where
    behind :
        (first : Text) (us : Tokens)
        → length us < length ts
        → Yields (λ r. length r.1.1 < length ts) (alias_or_name first us)
    behind first us l = elim (Bool-cases (starts b':' us)) [
      | inl e ↦ rw e (
          Yields->>= (λ r p. result (omega (arith, l, p, tail-le us)))
            (expect_name-Yields (tail us)))
      | inr e ↦ rw e (result l)
    ]

if_more-Yields :
    (c : ℕ) (k : Tokens → Outcome Tokens) (ts : Tokens)
    → (length (tail ts) < length ts → Yields (Left ts) (k ts))
    → Yields (Left ts) (if_more (starts c ts) k ts)
if_more-Yields c k ts h = elim (Bool-cases (starts c ts)) [
  | inl e ↦ rw e (h (tail_of_starts c ts e))
  | inr e ↦ rw e (result (omega arith))
]

module _ (is_float : Text → Bool) where
  skip_directives-Yields :
      (f : ℕ) (ts : Tokens) → 2 * length ts < f → Yields (Left ts) (skip_directives is_float f ts)
  unfolding skip_directives
  skip_directives-Yields zero ts l = absurd (omega (arith, l))
  skip_directives-Yields (suc f) ts l =
      if_more-Yields b'@' (directive (parse_entries is_float f b')') (skip_directives is_float f))
        ts
        (λ shorter.
          Yields->>=
            (λ r p.
              Yields->>=
                (λ r₁ p₁.
                  Yields-mono (λ r₂ p₂. omega (arith, shorter, p, p₁, p₂))
                    (skip_directives-Yields f r₁.1 (omega (arith, l, shorter, p, p₁))))
                (optional-Yields b'(' no_entries (parse_entries is_float f b')') r.1 (λ q.
                  parse_entries-Yields is_float f b')' (tail r.1)
                    (omega (arith, l, shorter, p, q)))))
            (expect_name-Yields (tail ts)))

  mutual
    unfolding parse_field

    parse_field-Yields :
        (f : ℕ) (ts : Tokens) → 2 * length ts < f → Yields (Shorter ts) (parse_field is_float f ts)
    parse_field-Yields zero ts l = absurd (omega (arith, l))
    parse_field-Yields (suc f) ts l =
        Yields->>=
          (λ r p.
            Yields->>=
              (λ r₁ p₁.
                Yields->>=
                  (λ r₂ p₂.
                    Yields->>= (λ r₃ p₃. result (omega (arith, p, p₁, p₂, p₃)))
                      (optional-Yields b'{' no_fields (parse_fields is_float f) r₂
                        (λ q. parse_fields-Yields f (tail r₂) (omega (arith, l, p, p₁, p₂, q)))))
                  (skip_directives-Yields f r₁.1 (omega (arith, l, p, p₁))))
              (optional-Yields b'(' no_entries (parse_entries is_float f b')') r.1.1
                (λ q. parse_entries-Yields is_float f b')' (tail r.1.1) (omega (arith, l, p, q)))))
          (named-Yields ts)

    parse_fields-Yields :
        (f : ℕ) (ts : Tokens)
        → 2 * length ts + 1 < f
        → Yields (NoLonger ts) (parse_fields is_float f ts)
    parse_fields-Yields zero ts l = absurd (omega (arith, l))
    parse_fields-Yields (suc f) ts l =
        until-Yields b'}' no_fields (more_fields (parse_field is_float f) (parse_fields is_float f))
          ts
          (Yields->>=
            (λ r p.
              Yields->>= (λ r₁ p₁. result (omega (arith, p, p₁)))
                (parse_fields-Yields f r.1 (omega (arith, l, p))))
            (parse_field-Yields f ts (omega (arith, l))))

  skip_variables-Yields :
      (f : ℕ) (ts : Tokens) → 2 * length ts < f → Yields (Left ts) (skip_variables is_float f ts)
  unfolding skip_variables
  skip_variables-Yields zero ts l = absurd (omega (arith, l))
  skip_variables-Yields (suc f) ts l = elim (Bool-cases (starts b')' ts)) [
    | inl e ↦ rw e (result (tail-le ts))
    | inr e ↦ rw e (
        Yields->>=
          (λ r p.
            Yields->>=
              (λ r₁ p₁.
                Yields->>=
                  (λ r₂ p₂.
                    Yields->>=
                      (λ r₃ p₃.
                        Yields->>=
                          (λ r₄ p₄.
                            Yields-mono (λ r₅ p₅. omega (arith, p, p₁, p₂, p₃, p₄, p₅))
                              (skip_variables-Yields f r₄.1 (omega (arith, l, p, p₁, p₂, p₃, p₄))))
                          (optional-Yields b'=' null (parse_value is_float f) r₃ (λ q.
                            Yields-mono (λ r₅ p₅. omega (arith, p₅))
                              (parse_value-Yields is_float f (tail r₃)
                                (omega (arith, l, p, p₁, p₂, p₃, q))))))
                      (skip_type-Yields r₂))
                  (expect_punct-Yields b':' r₁.1))
              (expect_name-Yields r))
          (expect_punct-Yields b'$' ts))
  ]

  selection_set-Yields :
      (o : Operation) (f : ℕ) (ts : Tokens)
      → 2 * length ts < f
      → Yields
          (λ r. length r.1 ≤ length ts)
          (selected is_float o (parse_selection_set is_float f ts))
  unfolding parse_selection_set
  selection_set-Yields o f ts l =
      Yields->>= (λ r p. result p)
        (Yields->>=
          (λ r p.
            Yields-mono {Q = λ r₁. length r₁.1 ≤ length ts} (λ r₁ p₁. omega (arith, p, p₁))
              (parse_fields-Yields f r (omega (arith, l, p))))
          (expect_punct-Yields b'{' ts))

  skip_name-le : (ts : Tokens) → length (skip_name ts) ≤ length ts
  skip_name-le (name n ∷ ts) = omega arith
  skip_name-le (punct c ∷ ts) = omega arith
  skip_name-le (string_token s ∷ ts) = omega arith
  skip_name-le (int_token s ∷ ts) = omega arith
  skip_name-le (float_token s ∷ ts) = omega arith
  skip_name-le [] = omega arith

  with_operation-Yields :
      (f : ℕ) (o : Option Operation) (ts : Tokens)
      → 2 * length ts + 1 < f
      → Yields (λ r. length r.1 ≤ length ts) (with_operation is_float f o ts)
  with_operation-Yields f none ts l = error
  with_operation-Yields f (some o) ts l =
      Yields->>=
        (λ r p.
          Yields-mono (λ r₁ p₁. omega (arith, p, p₁, skip_name-le ts))
            (selection_set-Yields o f r (omega (arith, l, p, skip_name-le ts))))
        (if_more-Yields b'(' (λ us. skip_variables is_float f (tail us)) (skip_name ts)
          (λ q.
            Yields-mono (λ r p. omega (arith, p, q))
              (skip_variables-Yields f (tail (skip_name ts))
                (omega (arith, l, q, skip_name-le ts)))))

  parse_operation-Yields :
      (f : ℕ) (ts : Tokens)
      → 2 * length ts + 1 < f
      → Yields (λ r. length r.1 ≤ length ts) (parse_operation is_float f ts)
  unfolding parse_operation
  parse_operation-Yields f (punct c ∷ ts) l =
      selection_set-Yields Operation.query f (punct c ∷ ts) (omega (arith, l))
  parse_operation-Yields f (name n ∷ ts) l =
      Yields-mono (λ r p. omega (arith, p))
        (with_operation-Yields f (operation_of n) ts (omega (arith, l)))
  parse_operation-Yields f (string_token s ∷ ts) l = error
  parse_operation-Yields f (int_token s ∷ ts) l = error
  parse_operation-Yields f (float_token s ∷ ts) l = error
  parse_operation-Yields f [] l = error

  at_end-Yields : (d : Document) (ts : Tokens) → Yields (λ r. Unit {0}) (at_end is_float (d, ts))
  at_end-Yields d [] = result tt
  at_end-Yields d (t ∷ ts) = error

  pub parse_tokens-Yields : (ts : Tokens) → Yields (λ r. Unit {0}) (parse_tokens is_float ts)
  unfolding parse_tokens
  parse_tokens-Yields ts =
      Yields->>= (λ r p. at_end-Yields r.0 r.1)
        (parse_operation-Yields (2 * length ts + 3) ts (omega arith))
