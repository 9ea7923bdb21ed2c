-- ===== src/Graphql/ReadFields.antt =====
-- Fields and documents that are printed are read.
use caslink.Prelude.{
  ℕ, zero, suc, max, ◌≤◌, ◌<◌, ◌≡◌, refl, arith, Text, text_eq, Bool, false, [], ◌∷◌,
}
use caslink.Graphql.{
  Token, punct, name, Value, Entries, no_entries, entry, Field, field, Fields, no_fields, also,
  Operation, query, mutation, Document, Outcome, done, refused, out_of_fuel,
}
use caslink.Graphql.Parser.{
  Tokens, starts, optional, parse_value, parse_entries, skip_directives, parse_field, parse_fields,
  parse_selection_set, parse_operation, parse_tokens, alias_or_name,
}
use caslink.Graphql.Printer.{
  emit_alias, emit_arguments, emit_field, emit_fields, emit_selection, emit_document, HasPrintable,
  IsPrintableField, ArePrintableFields,
}
use caslink.Graphql.ReadValues.{weight, weight_entries, weight_entries_pos, parse_entries-emit}

-- None of the marks that could go on with a field.
abbrev IsSeparate : Tokens → Type 0
IsSeparate ts =
    (starts b':' ts ≡ false)
    × (starts b'(' ts ≡ false)
    × (starts b'@' ts ≡ false)
    × (starts b'{' ts ≡ false)

emit_field-IsSeparate : (x : Field) (ts : Tokens) → IsSeparate (emit_field x ts)
unfolding emit_field
emit_field-IsSeparate (field [] n args fs) ts = (refl, refl, refl, refl)
emit_field-IsSeparate (field (c ∷ s) n args fs) ts = (refl, refl, refl, refl)

not_closed : (x : Field) (ts : Tokens) → starts b'}' (emit_field x ts) ≡ false
unfolding emit_field
not_closed (field [] n args fs) ts = refl
not_closed (field (c ∷ s) n args fs) ts = refl

emit_fields-IsSeparate :
    (fs : Fields) (ts : Tokens) → IsSeparate ts → IsSeparate (emit_fields fs ts)
unfolding emit_field
emit_fields-IsSeparate no_fields ts h = h
emit_fields-IsSeparate (also x fs) ts h = emit_field-IsSeparate x (emit_fields fs ts)

-- Behind the arguments.
after_arguments :
    (fs : Fields) (ts : Tokens)
    → IsSeparate ts
    → (starts b':' (emit_selection fs ts) ≡ false)
      × (starts b'(' (emit_selection fs ts) ≡ false)
      × (starts b'@' (emit_selection fs ts) ≡ false)
unfolding emit_field
after_arguments no_fields ts h = (h.0, h.1, h.2)
after_arguments (also x fs) ts h = (refl, refl, refl)

after_name :
    (args : Entries) (ts : Tokens)
    → starts b':' ts ≡ false
    → starts b':' (emit_arguments args ts) ≡ false
unfolding emit_arguments
after_name no_entries ts h = h
after_name (entry k v es) ts h = refl

-- Enough fuel.
unfoldable mutual
  unfolding weight

  pub weight_field : Field → ℕ
  weight_field (field alias n args fs) = suc (max (weight_entries args) (weight_fields fs))

  pub weight_fields : Fields → ℕ
  weight_fields no_fields = 1
  weight_fields (also x fs) = suc (max (weight_field x) (weight_fields fs))

alias-emit :
    (alias n : Text) (ts : Tokens)
    → starts b':' ts ≡ false
    → caslink.Graphql.Parser.named (emit_alias alias (name n ∷ ts)) ≡ done (alias, (n, ts))
alias-emit [] n ts h = rw h refl
alias-emit (c ∷ s) n ts h = refl

module _ (is_float : Text → Bool) where
  arguments-emit :
      (args : Entries) (f : ℕ) (ts : Tokens)
      → weight_entries args ≤ f
      → HasPrintable is_float args
      → starts b'(' ts ≡ false
      → optional
          (starts b'(' (emit_arguments args ts))
          no_entries
          (parse_entries is_float f b')')
          (emit_arguments args ts)
        ≡ done (args, ts)
  unfolding emit_arguments
  arguments-emit no_entries f ts l h s = rw s refl
  arguments-emit (entry k v es) f ts l h s =
      parse_entries-emit is_float (entry k v es) b')' f ts l h

  no_directives :
      (f : ℕ) (ts : Tokens)
      → 0 < f
      → starts b'@' ts ≡ false
      → skip_directives is_float f ts ≡ done ts
  unfolding skip_directives
  no_directives zero ts l h = absurd (omega (arith, l))
  no_directives (suc f) ts l h = rw h refl

  selection-emit :
      (fs : Fields) (f : ℕ) (ts : Tokens)
      → IsSeparate ts
      → parse_fields is_float f (emit_fields fs (punct b'}' ∷ ts)) ≡ done (fs, ts)
      → optional
          (starts b'{' (emit_selection fs ts))
          no_fields
          (parse_fields is_float f)
          (emit_selection fs ts)
        ≡ done (fs, ts)
  unfolding emit_field
  selection-emit no_fields f ts s read = rw s.3 refl
  selection-emit (also x fs) f ts s read = read

  mutual
    unfolding parse_field emit_field weight_field

    parse_field-emit :
        (x : Field) (f : ℕ) (ts : Tokens)
        → weight_field x ≤ f
        → IsPrintableField is_float x
        → IsSeparate ts
        → parse_field is_float f (emit_field x ts) ≡ done (x, ts)
    parse_field-emit (field alias n args fs) zero ts l h s = absurd (omega (arith, l))
    parse_field-emit (field alias n args fs) (suc f) ts l h s =
        let behind = after_arguments fs ts s in
        rw
          (
            alias-emit alias n (emit_arguments args (emit_selection fs ts))
                (after_name args (emit_selection fs ts) behind.0),
            arguments-emit args f (emit_selection fs ts) (omega (arith, l)) h.0 behind.1,
            no_directives f (emit_selection fs ts) (omega (arith, l, weight_entries_pos args))
                behind.2,
            selection-emit fs f ts s (parse_fields-emit fs f ts (omega (arith, l)) h.1),
          )
          refl

    parse_fields-emit :
        (fs : Fields) (f : ℕ) (ts : Tokens)
        → weight_fields fs ≤ f
        → ArePrintableFields is_float fs
        → parse_fields is_float f (emit_fields fs (punct b'}' ∷ ts)) ≡ done (fs, ts)
    parse_fields-emit no_fields zero ts l h = absurd (omega (arith, l))
    parse_fields-emit (also x fs) zero ts l h = absurd (omega (arith, l))
    parse_fields-emit no_fields (suc f) ts l h = refl
    parse_fields-emit (also x fs) (suc f) ts l h =
        let after = emit_fields fs (punct b'}' ∷ ts) in
        rw
          (
            not_closed x after,
            parse_field-emit x f after (omega (arith, l)) h.0
                (emit_fields-IsSeparate fs (punct b'}' ∷ ts) (refl, refl, refl, refl)),
            parse_fields-emit fs f ts (omega (arith, l)) h.1,
          )
          refl

  pub parse_operation-emit :
      (d : Document) (f : ℕ)
      → weight_fields d.selection ≤ f
      → ArePrintableFields is_float d.selection
      → parse_operation is_float f (emit_document d) ≡ done (d, [])
  unfolding parse_operation emit_document text_eq
  parse_operation-emit d f l h =
      named_operation d.operation d.selection (parse_fields-emit d.selection f [] l h)
    where
      named_operation :
          (o : Operation) (fs : Fields)
          → parse_fields is_float f (emit_fields fs (punct b'}' ∷ [])) ≡ done (fs, [])
          → parse_operation is_float f (emit_document (record { operation = o; selection = fs }))
            ≡ done (record { operation = o; selection = fs }, [])
      named_operation query fs e = rw e refl
      named_operation mutation fs e = rw e refl
