-- ===== src/Graphql/ReadDocuments.antt =====
-- A document that is printed needs no more fuel than the parser has.
use caslink.Prelude.{Bool, ◌+◌, ◌*◌, ◌≤◌, ◌<◌, ◌≡◌, refl, arith, Text, [], ◌∷◌, length}
use caslink.Graphql.{
  name, Value, variable, string, float, int, bool, null, list, object, Values, no_values, value,
  Entries, no_entries, entry, Field, field, Fields, no_fields, also, Document, done,
}
use caslink.Graphql.Parser.{Tokens, parse_tokens}
use caslink.Graphql.Printer.{
  emit_value, emit_values, emit_entries, emit_alias, emit_arguments, emit_field, emit_fields,
  emit_selection, emit_document, ArePrintableFields,
}
use caslink.Graphql.ReadValues.{weight, weight_values, weight_entries}
use caslink.Graphql.ReadFields.{weight_field, weight_fields, parse_operation-emit}

mutual
  unfolding emit_value weight

  weight-emit :
      (v : Value) (ts : Tokens) → weight v + 2 * length ts + 1 ≤ 2 * length (emit_value v ts)
  weight-emit (variable x) ts = omega arith
  weight-emit (string s) ts = omega arith
  weight-emit (float s) ts = omega arith
  weight-emit (int n) ts = omega arith
  weight-emit (bool b) ts = omega arith
  weight-emit null ts = omega arith
  weight-emit (list vs) ts = omega (arith, weight_values-emit vs (_ ∷ ts))
  weight-emit (object es) ts = omega (arith, weight_entries-emit es (_ ∷ ts))

  weight_values-emit :
      (vs : Values) (ts : Tokens)
      → weight_values vs + 2 * length ts ≤ 2 * length (emit_values vs ts) + 1
  weight_values-emit no_values ts = omega arith
  weight_values-emit (value v vs) ts =
      omega (arith, weight-emit v (emit_values vs ts), weight_values-emit vs ts)

  weight_entries-emit :
      (es : Entries) (ts : Tokens)
      → weight_entries es + 2 * length ts ≤ 2 * length (emit_entries es ts) + 1
  weight_entries-emit no_entries ts = omega arith
  weight_entries-emit (entry k v es) ts =
      omega (arith, weight-emit v (emit_entries es ts), weight_entries-emit es ts)

arguments-emit :
    (args : Entries) (ts : Tokens)
    → weight_entries args + 2 * length ts ≤ 2 * length (emit_arguments args ts) + 1
unfolding emit_arguments weight
arguments-emit no_entries ts = omega arith
arguments-emit (entry k v es) ts = omega (arith, weight_entries-emit (entry k v es) (_ ∷ ts))

emit_alias-le : (alias : Text) (ts : Tokens) → length ts ≤ length (emit_alias alias ts)
emit_alias-le [] ts = omega arith
emit_alias-le (c ∷ s) ts = omega arith

arguments-le : (args : Entries) (ts : Tokens) → length ts ≤ length (emit_arguments args ts)
unfolding emit_arguments weight
arguments-le no_entries ts = omega arith
arguments-le (entry k v es) ts = omega (arith, weight_entries-emit (entry k v es) (_ ∷ ts))

weight_field_pos : (x : Field) → 0 < weight_field x
unfolding weight_field
weight_field_pos (field alias n args fs) = omega arith

weight_fields_pos : (fs : Fields) → 0 < weight_fields fs
unfolding weight_field
weight_fields_pos no_fields = omega arith
weight_fields_pos (also x fs) = omega arith

selection-emit :
    (fs : Fields) (ts : Tokens)
    → ((us : Tokens) → weight_fields fs + 2 * length us ≤ 2 * length (emit_fields fs us) + 1)
    → weight_fields fs + 2 * length ts ≤ 2 * length (emit_selection fs ts) + 1
unfolding emit_field weight_field
selection-emit no_fields ts h = omega arith
selection-emit (also x fs) ts h = omega (arith, h (_ ∷ ts))

mutual
  unfolding emit_field weight_field

  weight_field-emit :
      (x : Field) (ts : Tokens) → weight_field x + 2 * length ts ≤ 2 * length (emit_field x ts)
  weight_field-emit (field alias n args fs) ts =
      let behind = emit_selection fs ts in
      let small = emit_alias-le alias (name n ∷ emit_arguments args behind) in
      omega (
        arith,
        small,
        arguments-emit args behind,
        arguments-le args behind,
        selection-emit fs ts (λ us. weight_fields-emit fs us),
        weight_fields_pos fs,
      )

  weight_fields-emit :
      (fs : Fields) (ts : Tokens)
      → weight_fields fs + 2 * length ts ≤ 2 * length (emit_fields fs ts) + 1
  weight_fields-emit no_fields ts = omega arith
  weight_fields-emit (also x fs) ts = omega (
    arith,
    weight_field-emit x (emit_fields fs ts),
    weight_fields-emit fs ts,
    weight_field_pos x,
    weight_fields_pos fs,
  )

-- Printing and reading a document gives it back.
pub parse_tokens-emit :
    (is_float : Text → Bool) (d : Document)
    → ArePrintableFields is_float d.selection
    → parse_tokens is_float (emit_document d) ≡ done d
unfolding parse_tokens emit_document
parse_tokens-emit is_float d h =
    let enough : weight_fields d.selection ≤ 2 * length (emit_document d) + 3 =
      omega (arith, weight_fields-emit d.selection (_ ∷ [])) in
    rw (parse_operation-emit is_float d (2 * length (emit_document d) + 3) enough h) refl
