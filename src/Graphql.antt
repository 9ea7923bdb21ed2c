-- ===== src/Graphql.antt =====
-- GraphQL documents, src/graphql/parser.go: what the lexer and the parser make. A map is the list of
-- its writes in their order, and the last one for a key counts.
pub mod Lexer
pub mod Parser
pub mod Printer
pub mod Integers
pub mod ReadValues
pub mod ReadFields
pub mod ReadDocuments
pub mod Fuel
pub mod Total
pub mod LexTotal
pub mod Spelling
pub mod ReadTokens
pub mod Names
pub mod ReadText
pub mod Resolve
pub mod Execute
use caslink.Prelude.{
  ℕ, Text, codes, Bool, true, false, List, [], ◌∷◌, if◌then◌else◌, text_eq, Option, none, some,
}
use caslink.Cron.{ℤ}

-- A token; the one for the end of the input is the end of the list.
pub data Token : Type 0 where
  punct : ℕ → Token
  string_token name int_token float_token : Text → Token

-- `valueNode`. What `ParseFloat` makes of a text is left as the text.
mutual
  pub data Value : Type 0 where
    variable string float : Text → Value
    int : ℤ → Value
    bool : Bool → Value
    null : Value
    list : Values → Value
    object : Entries → Value

  pub data Values : Type 0 where
    no_values : Values
    value : Value → Values → Values

  pub data Entries : Type 0 where
    no_entries : Entries
    entry : Text → Value → Entries → Entries

-- `astField`: alias, name, arguments and selection. An empty alias is none.
mutual
  pub data Field : Type 0 where
    field : Text → Text → Entries → Fields → Field

  pub data Fields : Type 0 where
    no_fields : Fields
    also : Field → Fields → Fields

pub data Operation : Type 0 where
  query mutation : Operation

-- `astDocument`
pub record Document : Type 0 where
  pub operation : Operation
  pub selection : Fields

-- A result, an error, or a bound on the recursion that is used up, which the program does not have.
pub data Outcome {ℓ} (A : Type ℓ) : Type ℓ where
  done : A → Outcome A
  refused out_of_fuel : Outcome A

infixl 5 ◌>>=◌
abbrev pub ◌>>=◌ {ℓ κ} : {A : Type ℓ} {B : Type κ} → Outcome A → (A → Outcome B) → Outcome B
done found >>= further = further found
refused >>= further = refused
out_of_fuel >>= further = out_of_fuel
