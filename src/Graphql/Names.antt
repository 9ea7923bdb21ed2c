-- ===== src/Graphql/Names.antt =====
-- A document whose names are names and whose floats are floats is printed as tokens that can be
-- spelled.
use caslink.Prelude.{
  ◌+◌, ◌≡◌, ◌≢◌, refl, arith, Text, codes, Bool, true, false, [], ◌∷◌, All, is_digit,
}
use caslink.Recovery.{decimal}
use caslink.Cron.{ℤ, pos, negsuc}
use caslink.Graphql.{
  name, punct, Value, variable, string, float, int, bool, null, list, object, Values, no_values,
  value, Entries, no_entries, entry, Field, field, Fields, no_fields, also, Operation, query,
  mutation, Document,
}
use caslink.Graphql.Parser.{Tokens}
use caslink.Graphql.Printer.{
  int_text, bool_text, emit_value, emit_values, emit_entries, emit_alias, emit_arguments,
  emit_field, emit_fields, emit_selection, operation_text, emit_document,
}
use caslink.Graphql.Integers.{decimal-digits, decimal-ne-nil}
use caslink.Graphql.Spelling.{IsName, IsIntText, IsFloatText, IsSpelled}

abbrev mutual
  pub IsWritable : Value → Type 0
  IsWritable (variable x) = IsName x
  IsWritable (float s) = IsFloatText s
  IsWritable (list vs) = AreWritable vs
  IsWritable (object es) = HasWritable es
  IsWritable _ = Unit

  pub AreWritable : Values → Type 0
  AreWritable no_values = Unit
  AreWritable (value v vs) = IsWritable v × AreWritable vs

  pub HasWritable : Entries → Type 0
  HasWritable no_entries = Unit
  HasWritable (entry k v es) = IsName k × IsWritable v × HasWritable es

-- An alias is empty or a name.
abbrev pub IsAlias : Text → Type 0
IsAlias [] = Unit
IsAlias (c ∷ s) = IsName (c ∷ s)

abbrev mutual
  pub IsWritableField : Field → Type 0
  IsWritableField (field alias n args fs) =
      IsAlias alias × IsName n × HasWritable args × AreWritableFields fs

  pub AreWritableFields : Fields → Type 0
  AreWritableFields no_fields = Unit
  AreWritableFields (also x fs) = IsWritableField x × AreWritableFields fs

abbrev AreSpelled : Tokens → Type 0
AreSpelled ts = All IsSpelled ts

-- A digit or a minus and digits.
IsIntText-of_digits : (s : Text) → All (λ c. is_digit c ≡ true) s → s ≢ [] → IsIntText s
IsIntText-of_digits [] h some_digit = absurd (some_digit refl)
IsIntText-of_digits (c ∷ s) h some_digit = (rw h.0 (ground arith), h.1)

int_text-IsIntText : (n : ℤ) → IsIntText (int_text n)
int_text-IsIntText (pos n) = IsIntText-of_digits (decimal n) (decimal-digits n) (decimal-ne-nil n)
int_text-IsIntText (negsuc n) = (refl, decimal-digits (n + 1))

-- A literal that is a name.
bool_text-IsName : (b : Bool) → IsName (bool_text b)
bool_text-IsName true = (refl, (refl, (refl, (refl, tt))))
bool_text-IsName false = (refl, (refl, (refl, (refl, (refl, tt)))))

operation_text-IsName : (o : Operation) → IsName (operation_text o)
operation_text-IsName query = (refl, (refl, (refl, (refl, (refl, tt)))))
operation_text-IsName mutation = (refl, (refl, (refl, (refl, (refl, (refl, (refl, (refl, tt))))))))

null-IsName : IsName (codes "null")
null-IsName = (refl, (refl, (refl, (refl, tt))))

mutual
  unfolding emit_value

  emit_value-AreSpelled :
      (v : Value) (ts : Tokens) → IsWritable v → AreSpelled ts → AreSpelled (emit_value v ts)
  emit_value-AreSpelled (variable x) ts w h = (refl, (w, h))
  emit_value-AreSpelled (string s) ts w h = (tt, h)
  emit_value-AreSpelled (float s) ts w h = (w, h)
  emit_value-AreSpelled (int n) ts w h = (int_text-IsIntText n, h)
  emit_value-AreSpelled (bool b) ts w h = (bool_text-IsName b, h)
  emit_value-AreSpelled null ts w h = (null-IsName, h)
  emit_value-AreSpelled (list vs) ts w h = (refl, emit_values-AreSpelled vs (_ ∷ ts) w (refl, h))
  emit_value-AreSpelled (object es) ts w h = (refl, emit_entries-AreSpelled es (_ ∷ ts) w (refl, h))

  emit_values-AreSpelled :
      (vs : Values) (ts : Tokens) → AreWritable vs → AreSpelled ts → AreSpelled (emit_values vs ts)
  emit_values-AreSpelled no_values ts w h = h
  emit_values-AreSpelled (value v vs) ts w h =
      emit_value-AreSpelled v (emit_values vs ts) w.0 (emit_values-AreSpelled vs ts w.1 h)

  emit_entries-AreSpelled :
      (es : Entries) (ts : Tokens)
      → HasWritable es
      → AreSpelled ts
      → AreSpelled (emit_entries es ts)
  emit_entries-AreSpelled no_entries ts w h = h
  emit_entries-AreSpelled (entry k v es) ts w h =
      let others = emit_entries-AreSpelled es ts w.2 h in
      (w.0, (refl, emit_value-AreSpelled v (emit_entries es ts) w.1 others))

emit_alias-AreSpelled :
    (alias : Text) (ts : Tokens) → IsAlias alias → AreSpelled ts → AreSpelled (emit_alias alias ts)
emit_alias-AreSpelled [] ts w h = h
emit_alias-AreSpelled (c ∷ s) ts w h = (w, (refl, h))

emit_arguments-AreSpelled :
    (args : Entries) (ts : Tokens)
    → HasWritable args
    → AreSpelled ts
    → AreSpelled (emit_arguments args ts)
unfolding emit_arguments
emit_arguments-AreSpelled no_entries ts w h = h
emit_arguments-AreSpelled (entry k v es) ts w h =
    (refl, emit_entries-AreSpelled (entry k v es) (_ ∷ ts) w (refl, h))

mutual
  unfolding emit_field

  emit_field-AreSpelled :
      (x : Field) (ts : Tokens) → IsWritableField x → AreSpelled ts → AreSpelled (emit_field x ts)
  emit_field-AreSpelled (field alias n args fs) ts w h =
      let behind = emit_selection-AreSpelled fs ts w.3 h in
      let arguments = emit_arguments-AreSpelled args (emit_selection fs ts) w.2 behind in
      emit_alias-AreSpelled alias (name n ∷ emit_arguments args (emit_selection fs ts)) w.0
        (w.1, arguments)

  emit_fields-AreSpelled :
      (fs : Fields) (ts : Tokens)
      → AreWritableFields fs
      → AreSpelled ts
      → AreSpelled (emit_fields fs ts)
  emit_fields-AreSpelled no_fields ts w h = h
  emit_fields-AreSpelled (also x fs) ts w h =
      emit_field-AreSpelled x (emit_fields fs ts) w.0 (emit_fields-AreSpelled fs ts w.1 h)

  emit_selection-AreSpelled :
      (fs : Fields) (ts : Tokens)
      → AreWritableFields fs
      → AreSpelled ts
      → AreSpelled (emit_selection fs ts)
  emit_selection-AreSpelled no_fields ts w h = h
  emit_selection-AreSpelled (also x fs) ts w h =
      let closed : AreSpelled (punct b'}' ∷ ts) = (refl, h) in
      let others = emit_fields-AreSpelled fs (punct b'}' ∷ ts) w.1 closed in
      (refl, emit_field-AreSpelled x (emit_fields fs (punct b'}' ∷ ts)) w.0 others)

pub emit_document-AreSpelled :
    (d : Document) → AreWritableFields d.selection → All IsSpelled (emit_document d)
unfolding emit_document
emit_document-AreSpelled d w = (
  operation_text-IsName d.operation,
  (refl, emit_fields-AreSpelled d.selection (punct b'}' ∷ []) w (refl, tt)),
)
