-- ===== src/Graphql/Spelling.antt =====
-- An independent spelling of tokens: each with a space behind it.
use caslink.Prelude.{
  ℕ, ◌≡◌, Text, true, List, [], ◌∷◌, ◌++◌, ◌==◌, ◌||◌, if◌then◌else◌, any, is_digit, All,
}
use caslink.Graphql.{Token, punct, string_token, name, int_token, float_token}
use caslink.Graphql.Lexer.{gql_punct_chars, is_name_start, is_name_cont, goes_on, is_float_char}

-- A byte of a string: a quote, a backslash, a line feed and a tab are escaped.
abbrev pub escape : ℕ → Text → Text
escape c s =
    if c == b'"'
    then b'\\' ∷ b'"' ∷ s
    else if c == b'\\'
    then b'\\' ∷ b'\\' ∷ s
    else if c == 10
    then b'\\' ∷ b'n' ∷ s
    else if c == 9
    then b'\\' ∷ b't' ∷ s
    else c ∷ s

unfoldable pub escaped : Text → Text → Text
escaped [] rest = rest
escaped (c ∷ s) rest = escape c (escaped s rest)

-- What follows is given.
abbrev pub spell : Token → Text → Text
spell (punct c) rest = c ∷ rest
spell (string_token s) rest = b'"' ∷ escaped s (b'"' ∷ rest)
spell (name n) rest = n ++ rest
spell (int_token s) rest = s ++ rest
spell (float_token s) rest = s ++ rest

unfoldable pub spell_all : List Token → Text
unfolding escaped
spell_all [] = []
spell_all (t ∷ ts) = spell t (32 ∷ spell_all ts)

abbrev pub IsName : Text → Type 0
IsName [] = ⊥
IsName (c ∷ s) = (is_name_start c ≡ true) × All (λ d. is_name_cont d ≡ true) s

-- Digits behind a digit or a minus.
abbrev pub IsIntText : Text → Type 0
IsIntText [] = ⊥
IsIntText (c ∷ s) = ((c == b'-' || is_digit c) ≡ true) × All (λ d. is_digit d ≡ true) s

-- Each byte goes on with the number behind the byte before it.
abbrev pub GoesOn : ℕ → Text → Type 0
GoesOn previous [] = Unit
GoesOn previous (c ∷ s) = (goes_on previous c ≡ true) × GoesOn c s

abbrev pub IsFloatText : Text → Type 0
IsFloatText [] = ⊥
IsFloatText (c ∷ s) = ((c == b'-' || is_digit c) ≡ true) × GoesOn c s × (any is_float_char s ≡ true)

-- What the grammar asks of a token. A string is any text.
abbrev pub IsSpelled : Token → Type 0
IsSpelled (punct c) = any (c ==◌) gql_punct_chars ≡ true
IsSpelled (string_token s) = Unit
IsSpelled (name n) = IsName n
IsSpelled (int_token s) = IsIntText s
IsSpelled (float_token s) = IsFloatText s
