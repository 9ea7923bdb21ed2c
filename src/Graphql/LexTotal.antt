-- ===== src/Graphql/LexTotal.antt =====
-- The lexer ends within the length of the text.
use caslink.Prelude.{
  ℕ, zero, suc, ◌≤◌, ◌≢◌, refl, arith, Text, Bool, true, false, List, [], ◌∷◌, length, ◌==◌,
  if◌then◌else◌, ◌||◌, Bool-cases, inl, inr, Option, none, some, any, drop_while, is_digit,
}
use caslink.Graphql.{Token, Outcome, done, refused, out_of_fuel}
use caslink.Graphql.Lexer.{
  gql_punct_chars, is_name_start, is_blank, goes_on, number_rest, unescaped, cons_string,
  read_string, string_read, read_token, push, then_lex, lex_with, lex_graphql,
}
use caslink.Graphql.Parser.{parse_document}
use caslink.Graphql.Fuel.{Yields, result, error, Yields-ne, Yields->>=}
use caslink.Graphql.Total.{parse_tokens-Yields}

length-drop_while : (p : ℕ → Bool) (s : Text) → length (drop_while p s) ≤ length s
unfolding drop_while
length-drop_while p [] = omega arith
length-drop_while p (c ∷ s) = elim (Bool-cases (p c)) [
  | inl e ↦ rw e (omega (arith, length-drop_while p s))
  | inr e ↦ rw e (omega arith)
]

length-number_rest : (previous : ℕ) (s : Text) → length (number_rest previous s).1 ≤ length s
unfolding number_rest
length-number_rest previous [] = omega arith
length-number_rest previous (c ∷ s) = elim (Bool-cases (goes_on previous c)) [
  | inl e ↦ rw e (omega (arith, length-number_rest c s))
  | inr e ↦ rw e (omega arith)
]

-- What is left is no longer than `n`.
abbrev LeavesAtMost : {A : Type 0} → ℕ → Option (A × Text) → Type 0
LeavesAtMost n none = Unit
LeavesAtMost n (some (a, rest)) = length rest ≤ n

cons_string-LeavesAtMost :
    (n m c : ℕ) (o : Option (Text × Text))
    → n ≤ m
    → LeavesAtMost n o
    → LeavesAtMost m (cons_string c o)
cons_string-LeavesAtMost n m c none l h = tt
cons_string-LeavesAtMost n m c (some (s, rest)) l h = omega (arith, l, h)

read_string-LeavesAtMost : (s : Text) → LeavesAtMost (length s) (read_string s)
unfolding read_string
read_string-LeavesAtMost [] = tt
read_string-LeavesAtMost (c ∷ []) = elim (Bool-cases (c == b'"')) [
  | inl e ↦ rw e (omega arith)
  | inr e ↦ rw e tt
]
read_string-LeavesAtMost (c ∷ d ∷ s) = elim (Bool-cases (c == b'"')) [
  | inl e ↦ rw e (omega arith)
  | inr e ↦ elim (Bool-cases (c == b'\\')) [
    | inl e₁ ↦
        rw (e, e₁)
          (cons_string-LeavesAtMost (length s) _ (unescaped d) (read_string s) (omega arith)
            (read_string-LeavesAtMost s))
    | inr e₁ ↦
        rw (e, e₁)
          (cons_string-LeavesAtMost (suc (length s)) _ c (read_string (d ∷ s)) (omega arith)
            (read_string-LeavesAtMost (d ∷ s)))
  ]
]

string_read-LeavesAtMost :
    (n : ℕ) (o : Option (Text × Text)) → LeavesAtMost n o → LeavesAtMost n (string_read o)
string_read-LeavesAtMost n none h = tt
string_read-LeavesAtMost n (some (s, rest)) h = h

if_LeavesAtMost :
    (n : ℕ) (b : Bool) (x y : Option (Option Token × Text))
    → LeavesAtMost n x
    → LeavesAtMost n y
    → LeavesAtMost n (if b then x else y)
if_LeavesAtMost n true x y h k = h
if_LeavesAtMost n false x y h k = k

read_token-LeavesAtMost : (c : ℕ) (s : Text) → LeavesAtMost (length s) (read_token c s)
unfolding read_token
read_token-LeavesAtMost c s = if_LeavesAtMost _ (is_blank c) _ _ (omega arith) (
    if_LeavesAtMost _ (c == b'#') _ _ (length-drop_while _ s) (
      if_LeavesAtMost _ (any (c ==◌) gql_punct_chars) _ _ (omega arith) (
        if_LeavesAtMost _ (c == b'"') _ _
          (string_read-LeavesAtMost _ (read_string s) (read_string-LeavesAtMost s))
          (if_LeavesAtMost _ (is_name_start c) _ _ (length-drop_while _ s)
            (if_LeavesAtMost _ (c == b'-' || is_digit c) _ none (length-number_rest c s) tt)))))

push-Yields :
    (t : Option Token) (o : Outcome (List Token))
    → Yields (λ r. Unit {0}) o
    → Yields (λ r. Unit {0}) (push t o)
push-Yields (some t) (done ts) h = result tt
push-Yields (some t) refused h = error
push-Yields (some t) out_of_fuel h = absurd (Yields-ne h refl)
push-Yields none o h = h

then_lex-Yields :
    (n : ℕ) (o : Option (Option Token × Text)) (further : Text → Outcome (List Token))
    → LeavesAtMost n o
    → ((rest : Text) → length rest ≤ n → Yields (λ r. Unit {0}) (further rest))
    → Yields (λ r. Unit {0}) (then_lex o further)
then_lex-Yields n none further h total = error
then_lex-Yields n (some (t, rest)) further h total = push-Yields t (further rest) (total rest h)

lex_with-Yields : (f : ℕ) (s : Text) → length s ≤ f → Yields (λ r. Unit {0}) (lex_with f s)
unfolding lex_with
lex_with-Yields f [] l = result tt
lex_with-Yields zero (c ∷ s) l = absurd (omega (arith, l))
lex_with-Yields (suc f) (c ∷ s) l =
    then_lex-Yields (length s) (read_token c s) (lex_with f) (read_token-LeavesAtMost c s)
      (λ rest h. lex_with-Yields f rest (omega (arith, l, h)))

-- Whatever the text and whichever floats are accepted, the document is read or refused: the fuel of
-- the lexer and the parser, which the program does not have, is always enough.
pub parse_document-ne-out_of_fuel :
    (is_float : Text → Bool) (input : Text) → parse_document is_float input ≢ out_of_fuel
unfolding parse_document lex_graphql
parse_document-ne-out_of_fuel is_float input = Yields-ne (
    Yields->>= (λ ts p. parse_tokens-Yields is_float ts)
      (lex_with-Yields (length input) input (omega arith)))
