-- ===== src/Graphql/Execute.antt =====
-- `Resolver.Execute` and its two dispatchers, src/graphql/resolvers.go. The seven resolvers are an
-- argument: what they read and change is a state `S`. Those of `url` and `urls` change it as well: a
-- bearer token that they accept gets a new `last_used_at`.
use caslink.Prelude.{
  ◌∙◌, Bool-cases, inl, inr, Text, codes, text_eq, ◌≡◌, refl, Bool, Option, none, some,
  if◌then◌else◌, List, [], ◌∷◌, ◌++◌,
}
use caslink.Graphql.{
  Field, field, Fields, no_fields, also, Operation, query, mutation, Document, Outcome, done,
  refused, out_of_fuel,
}
use caslink.Graphql.Parser.{parse_document}
use caslink.Graphql.Printer.{ArePrintableFields, emit_document}
use caslink.Graphql.Spelling.{spell_all}
use caslink.Graphql.Names.{AreWritableFields}
use caslink.Graphql.ReadText.{parse_document-spell_all}
use caslink.Graphql.Resolve.{
  Plain, nothing, PlainEntries, no_plain_entries, plain_entry, lookup_plain, read,
}

-- A value, or an error with its message.
pub data Reply : Type 0 where
  answer : Plain → Reply
  failure : Text → Reply

pub record Resolvers (S : Type 0) : Type 0 where
  pub health : Field → S → Plain
  pub version : Field → S → Plain
  pub url : Field → S → Reply × S
  pub urls : Field → S → Reply × S
  pub create_url : Field → S → Reply × S
  pub update_url : Field → S → Reply × S
  pub delete_url : Field → S → Reply × S

abbrev pub field_name : Field → Text
field_name (field alias n args fs) = n

abbrev pub alias_or : Text → Text → Text
alias_or [] n = n
alias_or (c ∷ s) n = c ∷ s

-- The key of a field in the response; `project` names sub-fields the same way.
abbrev pub response_key : Field → Text
response_key (field alias n args fs) = alias_or alias n

-- `project` on the fields that are asked for.
unfoldable pub project_fields : PlainEntries → Fields → PlainEntries
unfolding lookup_plain
project_fields obj no_fields = no_plain_entries
project_fields obj (also f fs) =
    plain_entry (response_key f) (read (lookup_plain (field_name f) obj)) (project_fields obj fs)

unfoldable pub project : PlainEntries → Fields → PlainEntries
unfolding project_fields
project obj no_fields = obj
project obj (also f fs) = project_fields obj (also f fs)

-- A message, and the key of the field that failed.
pub record Problem : Type 0 where
  pub message : Text
  pub path : Option Text

-- The response. The data are writes to a map, or nil; no errors is no member `errors`.
pub record Response : Type 0 where
  pub result : Option PlainEntries
  pub errors : List Problem

abbrev pub value_of : Reply → Plain
value_of (answer v) = v
value_of (failure message) = nothing

abbrev pub problems_of : Text → Reply → List Problem
problems_of key (answer v) = []
problems_of key (failure message) = record { message = message; path = some key } ∷ []

abbrev pub parse_error : Response
parse_error = record {
  result = none;
  errors = record { message = codes "Invalid GraphQL query"; path = none } ∷ [];
}

abbrev pub no_selection : Response
no_selection = record {
  result = none;
  errors = record { message = codes "GraphQL document has no selected fields"; path = none } ∷ [];
}

module _ {S : Type 0} (resolvers : Resolvers S) where
  -- The message is without the name of the field, which the program quotes in it.
  unfoldable pub resolve_query_field : Field → S → Reply × S
  resolve_query_field f s =
      if text_eq (field_name f) (codes "health")
      then (answer (resolvers.health f s), s)
      else if text_eq (field_name f) (codes "version")
      then (answer (resolvers.version f s), s)
      else if text_eq (field_name f) (codes "url")
      then resolvers.url f s
      else if text_eq (field_name f) (codes "urls")
      then resolvers.urls f s
      else (failure (codes "unknown query field"), s)

  unfoldable pub resolve_mutation_field : Field → S → Reply × S
  resolve_mutation_field f s =
      if text_eq (field_name f) (codes "createURL")
      then resolvers.create_url f s
      else if text_eq (field_name f) (codes "updateURL")
      then resolvers.update_url f s
      else if text_eq (field_name f) (codes "deleteURL")
      then resolvers.delete_url f s
      else (failure (codes "unknown mutation field"), s)

  unfoldable pub resolve_field : Operation → Field → S → Reply × S
  unfolding resolve_query_field resolve_mutation_field
  resolve_field mutation f s = resolve_mutation_field f s
  resolve_field query f s = resolve_query_field f s

  -- The loop over the selection: writes, problems, and the state at the end.
  unfoldable pub run_fields : Operation → Fields → S → PlainEntries × List Problem × S
  unfolding resolve_field
  run_fields o no_fields s = (no_plain_entries, [], s)
  run_fields o (also f fs) s =
      let one = resolve_field o f s in
      let others = run_fields o fs one.1 in
      (
        plain_entry (response_key f) (value_of one.0) others.0,
        problems_of (response_key f) one.0 ++ others.1,
        others.2,
      )

  abbrev pub responded : PlainEntries × List Problem × S → Response × S
  responded (writes, problems, s) = (record { result = some writes; errors = problems }, s)

  -- Behind the parser.
  unfoldable pub execute_selection : Operation → Fields → S → Response × S
  unfolding run_fields
  execute_selection o no_fields s = (no_selection, s)
  execute_selection o (also f fs) s = responded (run_fields o (also f fs) s)

  -- The bound on the parser's recursion is never used up.
  abbrev pub execute_parsed : Outcome Document → S → Response × S
  execute_parsed (done d) s = execute_selection d.operation d.selection s
  execute_parsed refused s = (parse_error, s)
  execute_parsed out_of_fuel s = (parse_error, s)

  unfoldable pub execute : (Text → Bool) → Text → S → Response × S
  unfolding execute_selection parse_document
  execute is_float input s = execute_parsed (parse_document is_float input) s

  -- A part of the state that the resolvers of `url` and `urls` leave alone.
  module _ {V : Type 0} (view : S → V)
      (url_keeps : (f : Field) (s : S) → view (resolvers.url f s).1 ≡ view s)
      (urls_keeps : (f : Field) (s : S) → view (resolvers.urls f s).1 ≡ view s) where
    resolve_query_field-keeps : (f : Field) (s : S) → view (resolve_query_field f s).1 ≡ view s
    unfolding resolve_query_field
    resolve_query_field-keeps f s = elim (Bool-cases (text_eq (field_name f) (codes "health"))) [
      | inl e ↦ rw e refl
      | inr e ↦ elim (Bool-cases (text_eq (field_name f) (codes "version"))) [
        | inl e1 ↦ rw (e, e1) refl
        | inr e1 ↦ elim (Bool-cases (text_eq (field_name f) (codes "url"))) [
          | inl e2 ↦ rw (e, e1, e2) (url_keeps f s)
          | inr e2 ↦ elim (Bool-cases (text_eq (field_name f) (codes "urls"))) [
            | inl e3 ↦ rw (e, e1, e2, e3) (urls_keeps f s)
            | inr e3 ↦ rw (e, e1, e2, e3) refl
          ]
        ]
      ]
    ]

    run_fields-query : (fs : Fields) (s : S) → view (run_fields query fs s).2 ≡ view s
    unfolding run_fields resolve_field
    run_fields-query no_fields s = refl
    run_fields-query (also f fs) s =
        run_fields-query fs (resolve_query_field f s).1 ∙ resolve_query_field-keeps f s

    execute_selection-query : (fs : Fields) (s : S) → view (execute_selection query fs s).1 ≡ view s
    unfolding execute_selection
    execute_selection-query no_fields s = refl
    execute_selection-query (also f fs) s = run_fields-query (also f fs) s

    execute_parsed-query :
        (o : Outcome Document) (s : S)
        → ((d : Document) → o ≡ done d → d.operation ≡ query)
        → view (execute_parsed o s).1 ≡ view s
    execute_parsed-query (done d) s h = rw (h d refl) (execute_selection-query d.selection s)
    execute_parsed-query refused s h = refl
    execute_parsed-query out_of_fuel s h = refl

    -- Unless a text is read as a mutation, executing it leaves each part of the state alone that the
    -- resolvers of `url` and `urls` leave alone, whatever the resolvers of mutations do.
    pub execute-query :
        (is_float : Text → Bool) (input : Text) (s : S)
        → ((d : Document) → parse_document is_float input ≡ done d → d.operation ≡ query)
        → view (execute is_float input s).1 ≡ view s
    unfolding execute
    execute-query is_float input s h = execute_parsed-query (parse_document is_float input) s h

  -- Executing the text of a document, printed and spelled, runs the fields of its selection in
  -- order, each as a query or a mutation as the document says, and changes the state as they do; no
  -- field at all is an error.
  pub execute-spell_all :
      (is_float : Text → Bool) (d : Document) (s : S)
      → ArePrintableFields is_float d.selection
      → AreWritableFields d.selection
      → execute is_float (spell_all (emit_document d)) s
        ≡ execute_selection d.operation d.selection s
  unfolding execute
  execute-spell_all is_float d s h w = rw (parse_document-spell_all is_float d h w) refl
