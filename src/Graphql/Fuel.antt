-- ===== src/Graphql/Fuel.antt =====
-- The bounds on the recursion are never reached.
use caslink.Prelude.{
  ℕ, zero, suc, ◌+◌, ◌*◌, ◌≤◌, ◌<◌, ◌≡◌, ◌≢◌, arith, Text, text_eq, codes, Bool, true, [], ◌∷◌,
  length, Bool-cases, inl, inr, Option, none, some,
}
use caslink.Cron.{atoi}
use caslink.Graphql.{
  punct, string_token, name, int_token, float_token, Values, Entries, Outcome, done, refused,
  out_of_fuel, ◌>>=◌,
}
use caslink.Graphql.Parser.{
  Tokens, tail, starts, expect_punct, expect_name, until, optional, int_value, name_value, Opening,
  of_variable, of_list, of_object, of_nothing, opening, opened, more_values, more_entries,
  parse_value, parse_values, parse_entries,
}

-- An outcome within the bound, whose result, if there is one, satisfies `P`.
pub data Yields {ℓ κ} {A : Type ℓ} (P : A → Type κ) : Outcome A → Type (ℓ ⊔ κ) where
  result : {a : A} → P a → Yields P (done a)
  error : Yields P refused

pub Yields-ne {ℓ κ} : {A : Type ℓ} {P : A → Type κ} {o : Outcome A} → Yields P o → o ≢ out_of_fuel
Yields-ne (result p) = λ e. cc
Yields-ne error = λ e. cc

pub Yields->>= {ℓ κ ℓ₁ κ₁} :
    {A : Type ℓ} {B : Type ℓ₁} {P : A → Type κ} {Q : B → Type κ₁} {o : Outcome A}
    {k : A → Outcome B}
    → ((a : A) → P a → Yields Q (k a))
    → Yields P o
    → Yields Q (o >>= k)
Yields->>= f (result {a} p) = f a p
Yields->>= f error = error

pub Yields-mono {ℓ κ κ₁} :
    {A : Type ℓ} {P : A → Type κ} {Q : A → Type κ₁} {o : Outcome A}
    → ((a : A) → P a → Q a)
    → Yields P o
    → Yields Q o
Yields-mono f (result {a} p) = result (f a p)
Yields-mono f error = error

-- What is left is shorter, or at most as long.
abbrev pub Shorter : {A : Type 0} → Tokens → A × Tokens → Type 0
Shorter ts r = length r.1 < length ts

abbrev pub NoLonger : {A : Type 0} → Tokens → A × Tokens → Type 0
NoLonger ts r = length r.1 ≤ length ts

pub tail-le : (ts : Tokens) → length (tail ts) ≤ length ts
tail-le [] = omega arith
tail-le (t ∷ ts) = omega arith

pub tail_of_starts : (c : ℕ) (ts : Tokens) → starts c ts ≡ true → length (tail ts) < length ts
tail_of_starts c (t ∷ ts) h = omega arith
tail_of_starts c [] h = cc

pub expect_punct-Yields :
    (c : ℕ) (ts : Tokens) → Yields (λ r. length r < length ts) (expect_punct c ts)
expect_punct-Yields c ts = elim (Bool-cases (starts c ts)) [
  | inl found ↦ rw found (result (tail_of_starts c ts found))
  | inr other ↦ rw other error
]

pub expect_name-Yields : (ts : Tokens) → Yields (Shorter ts) (expect_name ts)
expect_name-Yields (name n ∷ ts) = result (omega arith)
expect_name-Yields (punct c ∷ ts) = error
expect_name-Yields (string_token s ∷ ts) = error
expect_name-Yields (int_token s ∷ ts) = error
expect_name-Yields (float_token s ∷ ts) = error
expect_name-Yields [] = error

pub until-Yields :
    {A : Type 0} (c : ℕ) (nothing : A) (k : Tokens → Outcome (A × Tokens)) (ts : Tokens)
    → Yields (NoLonger ts) (k ts)
    → Yields (NoLonger ts) (until (starts c ts) nothing k ts)
until-Yields c nothing k ts h = elim (Bool-cases (starts c ts)) [
  | inl found ↦ rw found (result (tail-le ts))
  | inr other ↦ rw other h
]

-- A part that is read only behind a mark.
pub optional-Yields :
    {A : Type 0} (c : ℕ) (nothing : A) (part : Tokens → Outcome (A × Tokens)) (ts : Tokens)
    → (length (tail ts) < length ts → Yields (NoLonger (tail ts)) (part (tail ts)))
    → Yields (NoLonger ts) (optional (starts c ts) nothing part ts)
optional-Yields c nothing part ts h = elim (Bool-cases (starts c ts)) [
  | inl found ↦
      rw found (Yields-mono (λ r p. omega (arith, p, tail-le ts)) (h (tail_of_starts c ts found)))
  | inr other ↦ rw other (result (omega arith))
]

opened-Yields :
    (o : Opening) (vs : Tokens → Outcome (Values × Tokens))
    (es : Tokens → Outcome (Entries × Tokens)) (ts : Tokens)
    → Yields (NoLonger ts) (vs ts)
    → Yields (NoLonger ts) (es ts)
    → Yields (NoLonger ts) (opened o vs es ts)
opened-Yields of_variable vs es ts h k =
    Yields->>= (λ r p. result (omega (arith, p))) (expect_name-Yields ts)
opened-Yields of_list vs es ts h k = Yields->>= (λ r p. result p) h
opened-Yields of_object vs es ts h k = Yields->>= (λ r p. result p) k
opened-Yields of_nothing vs es ts h k = error

name_value-Yields : (n : Text) (ts : Tokens) → Yields (NoLonger ts) (name_value n ts)
name_value-Yields n ts = elim (Bool-cases (text_eq n (codes "true"))) [
  | inl e ↦ rw e (result (omega arith))
  | inr e ↦ elim (Bool-cases (text_eq n (codes "false"))) [
    | inl e₁ ↦ rw (e, e₁) (result (omega arith))
    | inr e₁ ↦ elim (Bool-cases (text_eq n (codes "null"))) [
      | inl e₂ ↦ rw (e, e₁, e₂) (result (omega arith))
      | inr e₂ ↦ rw (e, e₁, e₂) error
    ]
  ]
]

int_value-Yields : (o : Option caslink.Cron.ℤ) (ts : Tokens) → Yields (NoLonger ts) (int_value o ts)
int_value-Yields none ts = error
int_value-Yields (some n) ts = result (omega arith)

module _ (is_float : Text → Bool) where
  mutual
    unfolding parse_value

    pub parse_value-Yields :
        (f : ℕ) (ts : Tokens) → 2 * length ts < f → Yields (Shorter ts) (parse_value is_float f ts)
    parse_value-Yields zero ts l = absurd (omega (arith, l))
    parse_value-Yields (suc f) [] l = error
    parse_value-Yields (suc f) (punct c ∷ ts) l =
        Yields-mono (λ r p. omega (arith, p))
          (opened-Yields (opening c) (parse_values is_float f) (parse_entries is_float f b'}') ts
            (parse_values-Yields f ts (omega (arith, l)))
            (parse_entries-Yields f b'}' ts (omega (arith, l))))
    parse_value-Yields (suc f) (string_token s ∷ ts) l = result (omega arith)
    parse_value-Yields (suc f) (int_token s ∷ ts) l =
        Yields-mono (λ r p. omega (arith, p)) (int_value-Yields (atoi s) ts)
    parse_value-Yields (suc f) (float_token s ∷ ts) l = elim (Bool-cases (is_float s)) [
      | inl e ↦ rw e (result (omega arith))
      | inr e ↦ rw e error
    ]
    parse_value-Yields (suc f) (name n ∷ ts) l =
        Yields-mono (λ r p. omega (arith, p)) (name_value-Yields n ts)

    parse_values-Yields :
        (f : ℕ) (ts : Tokens)
        → 2 * length ts + 1 < f
        → Yields (NoLonger ts) (parse_values is_float f ts)
    parse_values-Yields zero ts l = absurd (omega (arith, l))
    parse_values-Yields (suc f) ts l =
        until-Yields b']' _ (more_values (parse_value is_float f) (parse_values is_float f)) ts (
          Yields->>=
            (λ r p.
              Yields->>= (λ r₁ p₁. result (omega (arith, p, p₁)))
                (parse_values-Yields f r.1 (omega (arith, l, p))))
            (parse_value-Yields f ts (omega (arith, l))))

    pub parse_entries-Yields :
        (f close : ℕ) (ts : Tokens)
        → 2 * length ts + 1 < f
        → Yields (NoLonger ts) (parse_entries is_float f close ts)
    parse_entries-Yields zero close ts l = absurd (omega (arith, l))
    parse_entries-Yields (suc f) close ts l =
        until-Yields close _
          (more_entries (parse_value is_float f) (parse_entries is_float f close)) ts
          (Yields->>=
            (λ r p.
              Yields->>=
                (λ r₁ p₁.
                  Yields->>=
                    (λ r₂ p₂.
                      Yields->>= (λ r₃ p₃. result (omega (arith, p, p₁, p₂, p₃)))
                        (parse_entries-Yields f close r₂.1 (omega (arith, l, p, p₁, p₂))))
                    (parse_value-Yields f r₁ (omega (arith, l, p, p₁))))
                (expect_punct-Yields b':' r.1))
            (expect_name-Yields ts))
