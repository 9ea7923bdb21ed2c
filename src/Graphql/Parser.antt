-- ===== src/Graphql/Parser.antt =====
-- `gqlParser`: recursive descent on the tokens that are left. The program has no bound on its
-- recursion; here every call costs one unit of fuel.
use caslink.Prelude.{
  ℕ, zero, suc, ◌+◌, ◌*◌, Text, codes, text_eq, Bool, true, false, List, [], ◌∷◌, ◌==◌, Option,
  none, some, if◌then◌else◌, length,
}
use caslink.Cron.{ℤ, atoi}
use caslink.Graphql.{
  Token, punct, string_token, name, int_token, float_token, Value, variable, string, float, int,
  bool, null, list, object, Values, no_values, value, Entries, no_entries, entry, Field, field,
  Fields, no_fields, also, Operation, query, mutation, Document, Outcome, done, refused,
  out_of_fuel, ◌>>=◌,
}
use caslink.Graphql.Lexer.{lex_graphql}

abbrev pub Tokens : Type 0
Tokens = List Token

abbrev pub tail : Tokens → Tokens
tail [] = []
tail (t ∷ ts) = ts

-- `p.peek()` is that mark.
abbrev pub starts : ℕ → Tokens → Bool
starts c (punct d ∷ ts) = d == c
starts c _ = false

abbrev pub expect_punct : ℕ → Tokens → Outcome Tokens
expect_punct c ts = if starts c ts then done (tail ts) else refused

abbrev pub expect_name : Tokens → Outcome (Text × Tokens)
expect_name (name n ∷ ts) = done (n, ts)
expect_name _ = refused

-- A loop that ends at a mark, and a part that a mark opens.
module _ {A : Type 0} where
  abbrev pub until : Bool → A → (Tokens → Outcome (A × Tokens)) → Tokens → Outcome (A × Tokens)
  until true nothing further ts = done (nothing, tail ts)
  until false nothing further ts = further ts

  abbrev pub optional : Bool → A → (Tokens → Outcome (A × Tokens)) → Tokens → Outcome (A × Tokens)
  optional true nothing part ts = part (tail ts)
  optional false nothing part ts = done (nothing, ts)

abbrev pub int_value : Option ℤ → Tokens → Outcome (Value × Tokens)
int_value none ts = refused
int_value (some n) ts = done (int n, ts)

abbrev pub name_value : Text → Tokens → Outcome (Value × Tokens)
name_value n ts =
    if text_eq n (codes "true")
    then done (bool true, ts)
    else if text_eq n (codes "false")
    then done (bool false, ts)
    else if text_eq n (codes "null")
    then done (null, ts)
    else refused

-- What a mark begins.
pub data Opening : Type 0 where
  of_variable of_list of_object of_nothing : Opening

abbrev pub opening : ℕ → Opening
opening c =
    if c == b'$'
    then of_variable
    else if c == b'['
    then of_list
    else if c == b'{'
    then of_object
    else of_nothing

abbrev pub opened :
    Opening
    → (Tokens → Outcome (Values × Tokens))
    → (Tokens → Outcome (Entries × Tokens))
    → Tokens
    → Outcome (Value × Tokens)
opened of_variable values entries ts = do (x, rest) ← expect_name ts; done (variable x, rest)
opened of_list values entries ts = do (vs, rest) ← values ts; done (list vs, rest)
opened of_object values entries ts = do (es, rest) ← entries ts; done (object es, rest)
opened of_nothing values entries ts = refused

-- One round of the loop of a list.
abbrev pub more_values :
    (Tokens → Outcome (Value × Tokens))
    → (Tokens → Outcome (Values × Tokens))
    → Tokens
    → Outcome (Values × Tokens)
more_values one others ts = do (v, ts₁) ← one ts; (vs, ts₂) ← others ts₁; done (value v vs, ts₂)

-- One round of the loop of an object or of arguments.
abbrev pub more_entries :
    (Tokens → Outcome (Value × Tokens))
    → (Tokens → Outcome (Entries × Tokens))
    → Tokens
    → Outcome (Entries × Tokens)
more_entries one others ts = do
  (k, ts₁) ← expect_name ts
  ts₂ ← expect_punct b':' ts₁
  (v, ts₃) ← one ts₂
  (es, ts₄) ← others ts₃
  done (entry k v es, ts₄)

-- `skipType`
abbrev pub closed_type : Outcome Tokens → Outcome Tokens
closed_type inner = do ts ← inner; expect_punct b']' ts

abbrev pub skip_bang : Tokens → Tokens
skip_bang ts = if starts b'!' ts then tail ts else ts

unfoldable pub skip_type : Tokens → Outcome Tokens
skip_type (punct c ∷ ts) =
    let inner = closed_type (skip_type ts) in
    do rest ← if c == b'[' then inner else refused; done (skip_bang rest)
skip_type (name n ∷ ts) = done (skip_bang ts)
skip_type _ = refused

-- The alias, the name and the rest, behind the first name.
abbrev pub alias_or_name : Text → Tokens → Outcome (Text × (Text × Tokens))
alias_or_name first ts =
    if starts b':' ts
    then (do (n, rest) ← expect_name (tail ts); done (first, (n, rest)))
    else done ([], (first, ts))

-- Alias and name.
abbrev pub named : Tokens → Outcome (Text × (Text × Tokens))
named ts = do (first, ts₁) ← expect_name ts; alias_or_name first ts₁

-- `parseField`, with the parsers of its parts.
abbrev pub field_with :
    (Tokens → Outcome (Entries × Tokens))
    → (Tokens → Outcome Tokens)
    → (Tokens → Outcome (Fields × Tokens))
    → Tokens
    → Outcome (Field × Tokens)
field_with arguments directives selection ts = do
  (alias, own) ← named ts
  (args, ts₃) ← optional (starts b'(' own.1) no_entries arguments own.1
  ts₄ ← directives ts₃
  (fs, ts₅) ← optional (starts b'{' ts₄) no_fields selection ts₄
  done (field alias own.0 args fs, ts₅)

abbrev pub more_fields :
    (Tokens → Outcome (Field × Tokens))
    → (Tokens → Outcome (Fields × Tokens))
    → Tokens
    → Outcome (Fields × Tokens)
more_fields one others ts = do (x, ts₁) ← one ts; (fs, ts₂) ← others ts₁; done (also x fs, ts₂)

-- Directives are read and forgotten.
abbrev pub directive :
    (Tokens → Outcome (Entries × Tokens)) → (Tokens → Outcome Tokens) → Tokens → Outcome Tokens
directive arguments others ts = do
  (n, ts₁) ← expect_name (tail ts)
  (args, ts₂) ← optional (starts b'(' ts₁) no_entries arguments ts₁
  others ts₂

abbrev pub if_more : Bool → (Tokens → Outcome Tokens) → Tokens → Outcome Tokens
if_more true further ts = further ts
if_more false further ts = done ts

-- A default value behind a variable, and the variable.
abbrev pub variable_definition :
    (Tokens → Outcome (Value × Tokens)) → (Tokens → Outcome Tokens) → Tokens → Outcome Tokens
variable_definition default others ts = do
  ts₁ ← expect_punct b'$' ts
  (x, ts₂) ← expect_name ts₁
  ts₃ ← expect_punct b':' ts₂
  ts₄ ← skip_type ts₃
  (v, ts₅) ← optional (starts b'=' ts₄) null default ts₄
  others ts₅

abbrev pub if_closed : Bool → (Tokens → Outcome Tokens) → Tokens → Outcome Tokens
if_closed true further ts = done (tail ts)
if_closed false further ts = further ts

abbrev pub operation_of : Text → Option Operation
operation_of n =
    if text_eq n (codes "query")
    then some query
    else if text_eq n (codes "mutation")
    then some mutation
    else none

abbrev pub skip_name : Tokens → Tokens
skip_name (name n ∷ ts) = ts
skip_name ts = ts

-- `is_float` says which texts `ParseFloat` accepts.
module _ (is_float : Text → Bool) where
  unfoldable mutual
    pub parse_value : ℕ → Tokens → Outcome (Value × Tokens)
    parse_value zero ts = out_of_fuel
    parse_value (suc f) (punct c ∷ ts) =
        opened (opening c) (parse_values f) (parse_entries f b'}') ts
    parse_value (suc f) (string_token s ∷ ts) = done (string s, ts)
    parse_value (suc f) (int_token s ∷ ts) = int_value (atoi s) ts
    parse_value (suc f) (float_token s ∷ ts) = if is_float s then done (float s, ts) else refused
    parse_value (suc f) (name n ∷ ts) = name_value n ts
    parse_value (suc f) [] = refused

    pub parse_values : ℕ → Tokens → Outcome (Values × Tokens)
    parse_values zero ts = out_of_fuel
    parse_values (suc f) ts =
        until (starts b']' ts) no_values (more_values (parse_value f) (parse_values f)) ts

    -- The loops of an object and of arguments, which differ in the mark at the end.
    pub parse_entries : ℕ → ℕ → Tokens → Outcome (Entries × Tokens)
    parse_entries zero close ts = out_of_fuel
    parse_entries (suc f) close ts =
        until (starts close ts) no_entries (more_entries (parse_value f) (parse_entries f close)) ts

  unfoldable pub skip_directives : ℕ → Tokens → Outcome Tokens
  unfolding parse_value
  skip_directives zero ts = out_of_fuel
  skip_directives (suc f) ts =
      if_more (starts b'@' ts) (directive (parse_entries f b')') (skip_directives f)) ts

  -- `parseField` and the loop of `parseSelectionSet`
  unfoldable mutual
    unfolding skip_directives

    pub parse_field : ℕ → Tokens → Outcome (Field × Tokens)
    parse_field zero ts = out_of_fuel
    parse_field (suc f) ts =
        field_with (parse_entries f b')') (skip_directives f) (parse_fields f) ts

    pub parse_fields : ℕ → Tokens → Outcome (Fields × Tokens)
    parse_fields zero ts = out_of_fuel
    parse_fields (suc f) ts =
        until (starts b'}' ts) no_fields (more_fields (parse_field f) (parse_fields f)) ts

  unfoldable pub parse_selection_set : ℕ → Tokens → Outcome (Fields × Tokens)
  unfolding parse_field
  parse_selection_set f ts = do ts₁ ← expect_punct b'{' ts; parse_fields f ts₁

  -- `skipVariableDefinitions` behind its first parenthesis
  unfoldable pub skip_variables : ℕ → Tokens → Outcome Tokens
  unfolding parse_value skip_type
  skip_variables zero ts = out_of_fuel
  skip_variables (suc f) ts =
      if_closed (starts b')' ts) (variable_definition (parse_value f) (skip_variables f)) ts

  abbrev pub selected : Operation → Outcome (Fields × Tokens) → Outcome (Document × Tokens)
  selected o outcome = do
    (fs, rest) ← outcome
    done (record { operation = o; selection = fs }, rest)

  abbrev pub with_operation : ℕ → Option Operation → Tokens → Outcome (Document × Tokens)
  with_operation f none ts = refused
  with_operation f (some o) ts = do
    ts₁ ← if_more (starts b'(' (skip_name ts)) (λ us. skip_variables f (tail us)) (skip_name ts)
    selected o (parse_selection_set f ts₁)

  -- `p.parseDocument`
  unfoldable pub parse_operation : ℕ → Tokens → Outcome (Document × Tokens)
  unfolding parse_selection_set skip_variables
  parse_operation f (punct c ∷ ts) = selected query (parse_selection_set f (punct c ∷ ts))
  parse_operation f (name n ∷ ts) = with_operation f (operation_of n) ts
  parse_operation f _ = refused

  abbrev pub at_end : Document × Tokens → Outcome Document
  at_end (d, []) = done d
  at_end (d, t ∷ ts) = refused

  -- With twice the number of tokens as fuel, and three more.
  unfoldable pub parse_tokens : Tokens → Outcome Document
  unfolding parse_operation
  parse_tokens ts = do found ← parse_operation (2 * length ts + 3) ts; at_end found

  -- `parseDocument`
  unfoldable pub parse_document : Text → Outcome Document
  unfolding lex_graphql parse_tokens
  parse_document input = do ts ← lex_graphql input; parse_tokens ts
