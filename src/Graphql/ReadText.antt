-- ===== src/Graphql/ReadText.antt =====
-- A document that is printed and spelled is read back from its text.
use caslink.Prelude.{
  ℕ, zero, suc, ◌+◌, ◌≤◌, ◌≡◌, refl, arith, Text, Bool, List, [], ◌∷◌, length, length-append, All,
}
use caslink.Graphql.{Token, punct, string_token, name, int_token, float_token, Document, done}
use caslink.Graphql.Lexer.{lex_with, lex_graphql}
use caslink.Graphql.Parser.{parse_document}
use caslink.Graphql.Printer.{emit_document, ArePrintableFields}
use caslink.Graphql.Spelling.{escape, escaped, spell, spell_all, IsSpelled}
use caslink.Graphql.ReadTokens.{lex_with-spell}
use caslink.Graphql.ReadDocuments.{parse_tokens-emit}
use caslink.Graphql.Names.{AreWritableFields, emit_document-AreSpelled}

length-escape : (c : ℕ) (s : Text) → length s ≤ length (escape c s)
length-escape c s = ground arith

length-escaped : (s rest : Text) → length rest ≤ length (escaped s rest)
unfolding escaped
length-escaped [] rest = omega arith
length-escaped (c ∷ s) rest = omega (arith, length-escape c (escaped s rest), length-escaped s rest)

length-spell : (t : Token) (rest : Text) → IsSpelled t → length rest + 1 ≤ length (spell t rest)
length-spell (punct c) rest h = omega arith
length-spell (string_token s) rest h = omega (arith, length-escaped s (_ ∷ rest))
length-spell (name []) rest h = absurd h
length-spell (name (c ∷ s)) rest h = omega (arith, length-append s rest)
length-spell (int_token []) rest h = absurd h
length-spell (int_token (c ∷ s)) rest h = omega (arith, length-append s rest)
length-spell (float_token []) rest h = absurd h
length-spell (float_token (c ∷ s)) rest h = omega (arith, length-append s rest)

lex_with-spell_all :
    (ts : List Token) (f : ℕ)
    → All IsSpelled ts
    → length (spell_all ts) ≤ f
    → lex_with f (spell_all ts) ≡ done ts
unfolding spell_all lex_with
lex_with-spell_all [] zero h l = refl
lex_with-spell_all [] (suc f) h l = refl
lex_with-spell_all (t ∷ ts) zero h l =
    absurd (omega (arith, l, length-spell t (_ ∷ spell_all ts) h.0))
lex_with-spell_all (t ∷ ts) (suc zero) h l =
    absurd (omega (arith, l, length-spell t (_ ∷ spell_all ts) h.0))
lex_with-spell_all (t ∷ ts) (suc (suc f)) h l =
    let enough : length (spell_all ts) ≤ f =
      omega (arith, l, length-spell t (_ ∷ spell_all ts) h.0) in
    lex_with-spell f t ts (spell_all ts) h.0 (lex_with-spell_all ts f h.1 enough)

-- Tokens that the grammar allows, spelled with a space behind each, are read back by the lexer.
pub lex_graphql-spell_all :
    (ts : List Token) → All IsSpelled ts → lex_graphql (spell_all ts) ≡ done ts
unfolding lex_graphql
lex_graphql-spell_all ts h = lex_with-spell_all ts (length (spell_all ts)) h (omega arith)

-- Parsing the text of a document gives the document back, where its integers have 64 bits, its
-- floats are spelled as floats and accepted, and its names are names: every operation, alias,
-- argument, nested selection, list, object, and string with quotes, backslashes, tabs or line feeds.
pub parse_document-spell_all :
    (is_float : Text → Bool) (d : Document)
    → ArePrintableFields is_float d.selection
    → AreWritableFields d.selection
    → parse_document is_float (spell_all (emit_document d)) ≡ done d
unfolding parse_document
parse_document-spell_all is_float d h w =
    rw (lex_graphql-spell_all (emit_document d) (emit_document-AreSpelled d w))
      (parse_tokens-emit is_float d h)
