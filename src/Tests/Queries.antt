-- ===== src/Tests/Queries.antt =====
-- GraphQL documents.
use caslink.Prelude.{
  ℕ, ◌+◌, ◌-◌, sym, ap, ◌≡◌, refl, ◌≢◌, arith, Text, codes, Bool, true, [], text_eq, take_while,
  drop_while,
}
use caslink.Cron.{negsuc}
use caslink.Graphql.{
  Token, Value, variable, string, float, int, bool, null, list, object, Values, no_values, value,
  Entries, no_entries, entry, Field, field, Fields, no_fields, also, Operation, query, mutation,
  Document, Outcome, done, refused, out_of_fuel,
}
use caslink.Graphql.Lexer.{lex_graphql, number_rest, read_string, read_token, lex_with}
use caslink.Graphql.Parser.{parse_document, parse_tokens}
use caslink.Graphql.Printer.{emit_document, ArePrintableFields}
use caslink.Graphql.Spelling.{spell_all}
use caslink.Graphql.ReadText.{parse_document-spell_all}
use caslink.Graphql.Names.{AreWritableFields}
use caslink.Graphql.LexTotal.{parse_document-ne-out_of_fuel}
use caslink.Graphql.Resolve.{nothing, plain_bool}
use caslink.Graphql.Execute.{answer, failure, Resolvers, execute, execute-query}

abbrev any_float : Text → Bool
any_float s = true

-- mutation { made: createURL(input: {url: "a\"b", limit: -12, tags: [$x, null]}) { id } }
abbrev creation : Document
creation = record {
  operation = mutation;
  selection =
      also
        (field (codes "made") (codes "createURL")
          (entry (codes "input")
            (object (
              entry (codes "url") (string (codes "a\"b")) (
                entry (codes "limit") (int (negsuc 11)) (
                  entry (codes "tags") (list (value (variable (codes "x")) (value null no_values)))
                    no_entries))))
            no_entries)
          (also (field [] (codes "id") no_entries no_fields) no_fields))
        no_fields;
}

creation-printable : ArePrintableFields any_float creation.selection
creation-printable = omega arith

creation-writable : AreWritableFields creation.selection
creation-writable = ground arith

parse_document-spell_all_example :
    parse_document any_float (spell_all (emit_document creation)) ≡ done creation
parse_document-spell_all_example =
    parse_document-spell_all any_float creation creation-printable creation-writable

parse_document-ne-out_of_fuel_example :
    parse_document any_float (codes "{ url(code: [[1") ≢ out_of_fuel
parse_document-ne-out_of_fuel_example =
    parse_document-ne-out_of_fuel any_float (codes "{ url(code: [[1")

-- The number of links, and the last time a token was used: creating a link adds one.
abbrev counting : Resolvers (ℕ × ℕ)
counting = record {
  health = λ f s. nothing;
  version = λ f s. nothing;
  url = λ f s. (answer (plain_bool true), (s.0, s.1 + 1));
  urls = λ f s. (failure (codes "bearer user or org token required"), s);
  create_url = λ f s. (answer (plain_bool true), (s.0 + 1, s.1 + 1));
  update_url = λ f s. (answer (plain_bool true), (s.0, s.1 + 1));
  delete_url = λ f s. (answer (plain_bool true), (s.0 - 1, s.1 + 1));
}

abbrev reading : Text
reading = codes "{ a: url(code: \"x\") urls }"

abbrev operation_read : Outcome Document → Operation
operation_read (done d) = d.operation
operation_read _ = query

reading-query : (d : Document) → parse_document any_float reading ≡ done d → d.operation ≡ query
unfolding parse_document lex_graphql lex_with read_token read_string number_rest parse_tokens
    caslink.Graphql.Parser.parse_operation text_eq take_while drop_while
reading-query d e = sym (ap operation_read e)

execute-query_example : (execute counting any_float reading (5, 0)).1.0 ≡ 5
execute-query_example =
    execute-query counting (λ s. s.0) (λ f s. refl) (λ f s. refl) any_float reading (5, 0)
      reading-query
