-- ===== src/Graphql/Lexer.antt =====
-- `lexGraphQL`. Each round consumes at least one byte, so the length of the text is enough fuel.
use caslink.Prelude.{
  ℕ, zero, suc, Text, codes, Bool, not, List, [], ◌∷◌, ◌||◌, ◌&&◌, ◌==◌, Option, none, some,
  if◌then◌else◌, any, length, is_digit, is_lower, is_upper, take_while, drop_while,
}
use caslink.Graphql.{
  Token, punct, string_token, name, int_token, float_token, Outcome, done, refused, out_of_fuel,
}

abbrev pub gql_punct_chars : Text
gql_punct_chars = codes "{}():$!=[]@"

abbrev pub is_name_start : ℕ → Bool
is_name_start c = c == b'_' || is_lower c || is_upper c

abbrev pub is_name_cont : ℕ → Bool
is_name_cont c = is_name_start c || is_digit c

abbrev pub is_blank : ℕ → Bool
is_blank c = c == 32 || c == 9 || c == 10 || c == 13 || c == b','

abbrev pub is_exponent : ℕ → Bool
is_exponent c = c == b'e' || c == b'E'

-- Whether a number goes on with `c` behind `previous`.
abbrev pub goes_on : ℕ → ℕ → Bool
goes_on previous c =
    is_digit c || c == b'.' || is_exponent c || ((c == b'+' || c == b'-') && is_exponent previous)

abbrev pub cons_first : ℕ → Text × Text → Text × Text
cons_first c (s, rest) = (c ∷ s, rest)

-- The rest of a number, and what is behind it.
unfoldable pub number_rest : ℕ → Text → Text × Text
number_rest previous [] = ([], [])
number_rest previous (c ∷ s) =
    let more = cons_first c (number_rest c s) in if goes_on previous c then more else ([], c ∷ s)

abbrev pub is_float_char : ℕ → Bool
is_float_char c = c == b'.' || is_exponent c

abbrev pub number_token : ℕ → Text × Text → Token × Text
number_token c (s, rest) =
    (if any is_float_char s then float_token (c ∷ s) else int_token (c ∷ s), rest)

-- What an escaped byte stands for.
abbrev pub unescaped : ℕ → ℕ
unescaped c = if c == b'n' then 10 else if c == b't' then 9 else c

abbrev pub cons_string : ℕ → Option (Text × Text) → Option (Text × Text)
cons_string c none = none
cons_string c (some (s, rest)) = some (c ∷ s, rest)

-- A string behind its first quote, and what is behind its last; none if that is missing.
unfoldable pub read_string : Text → Option (Text × Text)
read_string [] = none
read_string (c ∷ []) = if c == b'"' then some ([], []) else none
read_string (c ∷ d ∷ s) =
    let plain = cons_string c (read_string (d ∷ s)) in
    let escape = cons_string (unescaped d) (read_string s) in
    if c == b'"' then some ([], d ∷ s) else if c == b'\\' then escape else plain

abbrev pub string_read : Option (Text × Text) → Option (Option Token × Text)
string_read none = none
string_read (some (s, rest)) = some (some (string_token s), rest)

abbrev pub token_read : Token × Text → Option (Option Token × Text)
token_read (t, rest) = some (some t, rest)

-- One round at the byte `c`: a token or none, and the rest; or an error.
unfoldable pub read_token : ℕ → Text → Option (Option Token × Text)
unfolding number_rest read_string
read_token c s =
    if is_blank c
    then some (none, s)
    else if c == b'#'
    then some (none, drop_while (λ d. not (d == 10)) s)
    else if any (c ==◌) gql_punct_chars
    then some (some (punct c), s)
    else if c == b'"'
    then string_read (read_string s)
    else if is_name_start c
    then some (some (name (c ∷ take_while is_name_cont s)), drop_while is_name_cont s)
    else if c == b'-' || is_digit c
    then token_read (number_token c (number_rest c s))
    else none

abbrev pub push : Option Token → Outcome (List Token) → Outcome (List Token)
push (some t) (done ts) = done (t ∷ ts)
push _ outcome = outcome

abbrev pub then_lex :
    Option (Option Token × Text) → (Text → Outcome (List Token)) → Outcome (List Token)
then_lex none further = refused
then_lex (some (t, rest)) further = push t (further rest)

unfoldable pub lex_with : ℕ → Text → Outcome (List Token)
unfolding read_token
lex_with fuel [] = done []
lex_with zero (c ∷ s) = out_of_fuel
lex_with (suc fuel) (c ∷ s) = then_lex (read_token c s) (lex_with fuel)

unfoldable pub lex_graphql : Text → Outcome (List Token)
unfolding lex_with
lex_graphql input = lex_with (length input) input
