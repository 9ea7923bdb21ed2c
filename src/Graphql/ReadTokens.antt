-- ===== src/Graphql/ReadTokens.antt =====
-- The lexer reads back what is spelled.
use caslink.Prelude.{
  ℕ, suc, ◌≡◌, refl, ◌∙◌, arith, Text, Bool, true, false, List, [], ◌∷◌, ◌++◌, ◌==◌, ==_iff, ◌||◌,
  All, any, take_while, drop_while, is_digit, some, Bool-cases, inl, inr,
}
use caslink.Graphql.{Token, punct, string_token, name, int_token, float_token, done}
use caslink.Graphql.Lexer.{
  gql_punct_chars, is_name_start, is_name_cont, is_blank, is_float_char, number_rest, number_token,
  token_read, unescaped, read_string, read_token, lex_with,
}
use caslink.Graphql.Spelling.{escape, escaped, spell, GoesOn, IsSpelled}

-- A backslash and a byte that it escapes.
read_string_backslash :
    (d c : ℕ) (s rest behind : Text)
    → unescaped d ≡ c
    → read_string s ≡ some (rest, behind)
    → read_string (b'\\' ∷ d ∷ s) ≡ some (c ∷ rest, behind)
unfolding read_string
read_string_backslash d c s rest behind e h = rw (h, e) refl

read_string_plain :
    (c : ℕ) (s rest behind : Text)
    → (c == b'"') ≡ false
    → (c == b'\\') ≡ false
    → read_string s ≡ some (rest, behind)
    → read_string (c ∷ s) ≡ some (c ∷ rest, behind)
unfolding read_string
read_string_plain c [] rest behind quote slash h = cc
read_string_plain c (d ∷ s) rest behind quote slash h = rw (quote, slash, h) refl

read_string-escape :
    (c : ℕ) (s rest behind : Text)
    → read_string s ≡ some (rest, behind)
    → read_string (escape c s) ≡ some (c ∷ rest, behind)
read_string-escape c s rest behind h = elim (Bool-cases (c == b'"')) [
  | inl e ↦ rw e (read_string_backslash b'"' c s rest behind (omega (arith, (==_iff c b'"').0 e)) h)
  | inr quote ↦ elim (Bool-cases (c == b'\\')) [
    | inl e ↦
        rw (quote, e)
          (read_string_backslash b'\\' c s rest behind (omega (arith, (==_iff c b'\\').0 e)) h)
    | inr slash ↦ elim (Bool-cases (c == 10)) [
      | inl e ↦
          rw (quote, slash, e)
            (read_string_backslash b'n' c s rest behind (omega (arith, (==_iff c 10).0 e)) h)
      | inr feed ↦ elim (Bool-cases (c == 9)) [
        | inl e ↦
            rw (quote, slash, feed, e)
              (read_string_backslash b't' c s rest behind (omega (arith, (==_iff c 9).0 e)) h)
        | inr tab ↦ rw (quote, slash, feed, tab) (read_string_plain c s rest behind quote slash h)
      ]
    ]
  ]
]

read_string-escaped : (s rest : Text) → read_string (escaped s (b'"' ∷ rest)) ≡ some (s, rest)
unfolding escaped read_string
read_string-escaped [] [] = refl
read_string-escaped [] (d ∷ rest) = refl
read_string-escaped (c ∷ s) rest =
    read_string-escape c (escaped s (b'"' ∷ rest)) s rest (read_string-escaped s rest)

module _ (p : ℕ → Bool) (stops : p 32 ≡ false) where
  take_while-append : (s rest : Text) → All (λ c. p c ≡ true) s → take_while p (s ++ 32 ∷ rest) ≡ s
  unfolding take_while
  take_while-append [] rest h = rw stops refl
  take_while-append (c ∷ s) rest h = rw (h.0, take_while-append s rest h.1) refl

  drop_while-append :
      (s rest : Text) → All (λ c. p c ≡ true) s → drop_while p (s ++ 32 ∷ rest) ≡ 32 ∷ rest
  unfolding drop_while
  drop_while-append [] rest h = rw stops refl
  drop_while-append (c ∷ s) rest h = rw (h.0, drop_while-append s rest h.1) refl

number_rest-append :
    (previous : ℕ) (s rest : Text)
    → GoesOn previous s
    → number_rest previous (s ++ 32 ∷ rest) ≡ (s, 32 ∷ rest)
unfolding number_rest
number_rest-append previous [] rest h = refl
number_rest-append previous (c ∷ s) rest h = rw (h.0, number_rest-append c s rest h.1) refl

GoesOn-of_digits : (previous : ℕ) (s : Text) → All (λ d. is_digit d ≡ true) s → GoesOn previous s
GoesOn-of_digits previous [] h = tt
GoesOn-of_digits previous (c ∷ s) h = (rw h.0 refl, GoesOn-of_digits c s h.1)

no_float_char : (s : Text) → All (λ d. is_digit d ≡ true) s → any is_float_char s ≡ false
no_float_char [] h = refl
no_float_char (c ∷ s) h = let head = h.0 in let there = no_float_char s h.1 in ground arith

-- A byte that a name can begin with begins nothing else, and so for a number.
name_begins :
    (c : ℕ)
    → is_name_start c ≡ true
    → (is_blank c ≡ false)
      × ((c == b'#') ≡ false)
      × (any (c ==◌) gql_punct_chars ≡ false)
      × ((c == b'"') ≡ false)
name_begins c h = (ground arith, ground arith, ground arith, ground arith)

number_begins :
    (c : ℕ)
    → (c == b'-' || is_digit c) ≡ true
    → (is_blank c ≡ false)
      × ((c == b'#') ≡ false)
      × (any (c ==◌) gql_punct_chars ≡ false)
      × ((c == b'"') ≡ false)
      × (is_name_start c ≡ false)
number_begins c h = (ground arith, ground arith, ground arith, ground arith, ground arith)

punct_begins :
    (c : ℕ) → any (c ==◌) gql_punct_chars ≡ true → (is_blank c ≡ false) × ((c == b'#') ≡ false)
punct_begins c h = (ground arith, ground arith)

-- A name, behind a byte that begins one.
read_token_name :
    (c : ℕ) (s rest : Text)
    → is_name_start c ≡ true
    → All (λ d. is_name_cont d ≡ true) s
    → read_token c (s ++ 32 ∷ rest) ≡ some (some (name (c ∷ s)), 32 ∷ rest)
unfolding read_token
read_token_name c s rest first others =
    let b = name_begins c first in
    rw
      (
        b.0,
        b.1,
        b.2,
        b.3,
        first,
        take_while-append is_name_cont refl s rest others,
        drop_while-append is_name_cont refl s rest others,
      )
      refl

read_token_number :
    (c : ℕ) (s rest : Text)
    → (c == b'-' || is_digit c) ≡ true
    → GoesOn c s
    → read_token c (s ++ 32 ∷ rest) ≡ token_read (number_token c (s, 32 ∷ rest))
unfolding read_token
read_token_number c s rest first others =
    let b = number_begins c first in
    rw (b.0, b.1, b.2, b.3, b.4, first, number_rest-append c s rest others) refl

read_token_punct :
    (c : ℕ) (s : Text)
    → any (c ==◌) gql_punct_chars ≡ true
    → read_token c s ≡ some (some (punct c), s)
unfolding read_token
read_token_punct c s h = let b = punct_begins c h in rw (b.0, b.1, h) refl

read_token_string :
    (s rest : Text) → read_token b'"' (escaped s (b'"' ∷ rest)) ≡ some (some (string_token s), rest)
unfolding read_token
read_token_string s rest = rw (read_string-escaped s rest) refl

-- A round at a token that is spelled, and one at the space behind it.
lex_with-round :
    (c f : ℕ) (s rest : Text) (t : Token) (ts : List Token)
    → read_token c s ≡ some (some t, 32 ∷ rest)
    → lex_with f rest ≡ done ts
    → lex_with (suc (suc f)) (c ∷ s) ≡ done (t ∷ ts)
unfolding lex_with read_token
lex_with-round c f s rest t ts one others = rw (one, others) refl

pub lex_with-spell :
    (f : ℕ) (t : Token) (ts : List Token) (rest : Text)
    → IsSpelled t
    → lex_with f rest ≡ done ts
    → lex_with (suc (suc f)) (spell t (32 ∷ rest)) ≡ done (t ∷ ts)
lex_with-spell f (punct c) ts rest h others =
    lex_with-round c f (32 ∷ rest) rest _ ts (read_token_punct c (32 ∷ rest) h) others
lex_with-spell f (string_token s) ts rest h others =
    lex_with-round b'"' f _ rest _ ts (read_token_string s (32 ∷ rest)) others
lex_with-spell f (name []) ts rest h others = absurd h
lex_with-spell f (name (c ∷ s)) ts rest h others =
    lex_with-round c f _ rest _ ts (read_token_name c s rest h.0 h.1) others
lex_with-spell f (int_token []) ts rest h others = absurd h
lex_with-spell f (int_token (c ∷ s)) ts rest h others =
    let one = read_token_number c s rest h.0 (GoesOn-of_digits c s h.1) in
    let kind = no_float_char s h.1 in lex_with-round c f _ rest _ ts (one ∙ rw kind refl) others
lex_with-spell f (float_token []) ts rest h others = absurd h
lex_with-spell f (float_token (c ∷ s)) ts rest h others =
    let one = read_token_number c s rest h.0 h.1 in
    let kind = h.2 in lex_with-round c f _ rest _ ts (one ∙ rw kind refl) others
