-- ===== src/Graphql/Resolve.antt =====
-- `valueNode.resolve` and the arguments of a resolver, src/graphql/resolvers.go.
use caslink.Prelude.{
  Text, text_eq, ◌≡◌, refl, sym, Bool, true, false, Option, none, some, if◌then◌else◌, [], is_nil,
}
use caslink.Cron.{ℤ}
use caslink.Graphql.{
  Value, variable, string, float, int, bool, null, list, object, Values, no_values, value, Entries,
  no_entries, entry,
}

-- `interface{}`: a number of the document keeps its kind, and one of the variables is a float.
mutual
  pub data Plain : Type 0 where
    nothing : Plain
    plain_int : ℤ → Plain
    plain_float plain_text : Text → Plain
    plain_bool : Bool → Plain
    plain_list : Plains → Plain
    plain_map : PlainEntries → Plain

  pub data Plains : Type 0 where
    no_plains : Plains
    plain : Plain → Plains → Plains

  pub data PlainEntries : Type 0 where
    no_plain_entries : PlainEntries
    plain_entry : Text → Plain → PlainEntries → PlainEntries

-- The last write counts.
abbrev pub or_later : Option Plain → Bool → Plain → Option Plain
or_later (some later) is_key v = some later
or_later none is_key v = if is_key then some v else none

unfoldable pub lookup_plain : Text → PlainEntries → Option Plain
lookup_plain k no_plain_entries = none
lookup_plain k (plain_entry key v es) = or_later (lookup_plain k es) (text_eq key k) v

abbrev pub or_later_value : Option Value → Bool → Value → Option Value
or_later_value (some later) is_key v = some later
or_later_value none is_key v = if is_key then some v else none

unfoldable pub lookup_value : Text → Entries → Option Value
lookup_value k no_entries = none
lookup_value k (entry key v es) = or_later_value (lookup_value k es) (text_eq key k) v

-- A map, or nil; a missing key reads as nil.
abbrev pub read : Option Plain → Plain
read none = nothing
read (some v) = v

abbrev pub variable_value : Option PlainEntries → Text → Plain
variable_value none x = nothing
variable_value (some vars) x = read (lookup_plain x vars)

module _ (vars : Option PlainEntries) where
  unfoldable mutual
    pub resolve : Value → Plain
    resolve (variable x) = variable_value vars x
    resolve (int n) = plain_int n
    resolve (float s) = plain_float s
    resolve (string s) = plain_text s
    resolve (bool b) = plain_bool b
    resolve null = nothing
    resolve (list vs) = plain_list (resolve_list vs)
    resolve (object es) = plain_map (resolve_object es)

    pub resolve_list : Values → Plains
    resolve_list no_values = no_plains
    resolve_list (value v vs) = plain (resolve v) (resolve_list vs)

    pub resolve_object : Entries → PlainEntries
    resolve_object no_entries = no_plain_entries
    resolve_object (entry k v es) = plain_entry k (resolve v) (resolve_object es)

  abbrev pub resolved : Option Value → Option Plain
  resolved none = none
  resolved (some v) = some (resolve v)

  -- `argValue`: none is `false`.
  unfoldable pub arg_value : Text → Entries → Option Plain
  unfolding resolve
  arg_value x args = resolved (lookup_value x args)

-- `toString`
abbrev pub to_string : Plain → Text
to_string (plain_text s) = s
to_string _ = []

-- `toStringPtr`
abbrev pub to_string_ptr : Plain → Option Text
to_string_ptr (plain_text s) = some s
to_string_ptr _ = none

-- `stringArg` with `required`: none is the error.
unfoldable pub string_arg : Option PlainEntries → Text → Entries → Option Text
unfolding arg_value
string_arg vars x args =
    let s = to_string (read (arg_value vars x args)) in if is_nil s then none else some s

-- An object, nil, or anything else.
abbrev pub object_of : Plain → Option PlainEntries
object_of (plain_map es) = some es
object_of _ = none

-- `objectArg` with `required`: none is the error.
unfoldable pub object_arg : Option PlainEntries → Text → Entries → Option PlainEntries
unfolding arg_value
object_arg vars x args = object_of (read (arg_value vars x args))

resolved-or_later_value :
    (vars : Option PlainEntries) (o : Option Value) (is_key : Bool) (v : Value)
    → resolved vars (or_later_value o is_key v) ≡ or_later (resolved vars o) is_key (resolve vars v)
resolved-or_later_value vars (some later) is_key v = refl
resolved-or_later_value vars none true v = refl
resolved-or_later_value vars none false v = refl

lookup_plain-resolve_object :
    (vars : Option PlainEntries) (x : Text) (es : Entries)
    → lookup_plain x (resolve_object vars es) ≡ resolved vars (lookup_value x es)
unfolding lookup_plain lookup_value resolve
lookup_plain-resolve_object vars x no_entries = refl
lookup_plain-resolve_object vars x (entry k v es) =
    let others = lookup_plain-resolve_object vars x es in
    rw others (sym (resolved-or_later_value vars (lookup_value x es) (text_eq k x) v))

-- An object literal as an argument reaches the resolver as a map in which each key has the value of
-- that key in the literal, its variables replaced; of equal keys the last counts, in both.
pub object_arg-literal :
    (vars : Option PlainEntries) (x : Text) (args es : Entries)
    → lookup_value x args ≡ some (object es)
    → (object_arg vars x args ≡ some (resolve_object vars es))
      × ((k : Text) → lookup_plain k (resolve_object vars es) ≡ arg_value vars k es)
unfolding object_arg arg_value
object_arg-literal vars x args es h = (rw h refl, λ k. lookup_plain-resolve_object vars k es)
