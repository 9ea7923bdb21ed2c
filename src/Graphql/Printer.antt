-- ===== src/Graphql/Printer.antt =====
-- An independent printer of documents: what the parser is meant to read.
use caslink.Prelude.{◌+◌, ◌<◌, ◌≡◌, Text, codes, Bool, true, false, [], ◌∷◌}
use caslink.Recovery.{decimal}
use caslink.Cron.{ℤ, pos, negsuc, int_limit}
use caslink.Graphql.{
  punct, string_token, name, int_token, float_token, Value, variable, string, float, int, bool,
  null, list, object, Values, no_values, value, Entries, no_entries, entry, Field, field, Fields,
  no_fields, also, Operation, query, mutation, Document,
}
use caslink.Graphql.Parser.{Tokens}

abbrev pub int_text : ℤ → Text
int_text (pos n) = decimal n
int_text (negsuc n) = b'-' ∷ decimal (n + 1)

abbrev pub bool_text : Bool → Text
bool_text true = codes "true"
bool_text false = codes "false"

-- Each printer is given the tokens that follow.
unfoldable mutual
  pub emit_value : Value → Tokens → Tokens
  emit_value (variable x) ts = punct b'$' ∷ name x ∷ ts
  emit_value (string s) ts = string_token s ∷ ts
  emit_value (float s) ts = float_token s ∷ ts
  emit_value (int n) ts = int_token (int_text n) ∷ ts
  emit_value (bool b) ts = name (bool_text b) ∷ ts
  emit_value null ts = name (codes "null") ∷ ts
  emit_value (list vs) ts = punct b'[' ∷ emit_values vs (punct b']' ∷ ts)
  emit_value (object es) ts = punct b'{' ∷ emit_entries es (punct b'}' ∷ ts)

  pub emit_values : Values → Tokens → Tokens
  emit_values no_values ts = ts
  emit_values (value v vs) ts = emit_value v (emit_values vs ts)

  pub emit_entries : Entries → Tokens → Tokens
  emit_entries no_entries ts = ts
  emit_entries (entry k v es) ts = name k ∷ punct b':' ∷ emit_value v (emit_entries es ts)

abbrev pub emit_alias : Text → Tokens → Tokens
emit_alias [] ts = ts
emit_alias (c ∷ s) ts = name (c ∷ s) ∷ punct b':' ∷ ts

unfoldable pub emit_arguments : Entries → Tokens → Tokens
unfolding emit_value
emit_arguments no_entries ts = ts
emit_arguments (entry k v es) ts = punct b'(' ∷ emit_entries (entry k v es) (punct b')' ∷ ts)

unfoldable mutual
  unfolding emit_arguments

  pub emit_field : Field → Tokens → Tokens
  emit_field (field alias n args fs) ts =
      emit_alias alias (name n ∷ emit_arguments args (emit_selection fs ts))

  pub emit_fields : Fields → Tokens → Tokens
  emit_fields no_fields ts = ts
  emit_fields (also x fs) ts = emit_field x (emit_fields fs ts)

  -- Braces, unless there is nothing between them.
  pub emit_selection : Fields → Tokens → Tokens
  emit_selection no_fields ts = ts
  emit_selection (also x fs) ts = punct b'{' ∷ emit_field x (emit_fields fs (punct b'}' ∷ ts))

abbrev pub operation_text : Operation → Text
operation_text query = codes "query"
operation_text mutation = codes "mutation"

unfoldable pub emit_document : Document → Tokens
unfolding emit_field
emit_document d =
    name (operation_text d.operation) ∷ punct b'{' ∷ emit_fields d.selection (punct b'}' ∷ [])

abbrev pub IsInt64 : ℤ → Type 0
IsInt64 (pos n) = n < int_limit
IsInt64 (negsuc n) = n < int_limit

-- Integers have 64 bits and floats are texts that `ParseFloat` accepts.
module _ (is_float : Text → Bool) where
  abbrev mutual
    pub IsPrintable : Value → Type 0
    IsPrintable (int n) = IsInt64 n
    IsPrintable (float s) = is_float s ≡ true
    IsPrintable (list vs) = ArePrintable vs
    IsPrintable (object es) = HasPrintable es
    IsPrintable _ = Unit

    pub ArePrintable : Values → Type 0
    ArePrintable no_values = Unit
    ArePrintable (value v vs) = IsPrintable v × ArePrintable vs

    pub HasPrintable : Entries → Type 0
    HasPrintable no_entries = Unit
    HasPrintable (entry k v es) = IsPrintable v × HasPrintable es

  abbrev mutual
    pub IsPrintableField : Field → Type 0
    IsPrintableField (field alias n args fs) = HasPrintable args × ArePrintableFields fs

    pub ArePrintableFields : Fields → Type 0
    ArePrintableFields no_fields = Unit
    ArePrintableFields (also x fs) = IsPrintableField x × ArePrintableFields fs
