-- ===== src/Totp/Spend.antt =====
-- Using recovery keys takes them out of a list, one at a time.
use caslink.Prelude.{
  ℕ, ◌+◌, ◌≡◌, refl, ◌∙◌, ap, arith, Text, Bool, true, Option, none, some, List, [], ◌∷◌, All,
  length,
}
use mathlib.Core.Path.{subst}
use caslink.OrgSlug.{GoText}
use caslink.Totp.{
  backup_codes_json, Row, Account, if_enabled, IsPlainHash, JsonTexts, normal, stored_hashes,
  with_codes, use_recovery_key,
}
use caslink.Totp.Codes.{
  codes_json, spend, Holds, AreHashes-plain, AreHashesLeft, spend-AreHashesLeft,
}
use caslink.Totp.Lists.{length-spend, spend-none_back, AreDistinct, spend_of_AreDistinct}

module _ (go : GoText) (json : JsonTexts) (verify_password : Text → Text → Bool) where
  -- The stored text reads back as the hashes, and the hashes are written as it.
  stored_hashes-codes_json :
      (hs : List Text) → All IsPlainHash hs → stored_hashes json (codes_json hs) ≡ some hs
  unfolding backup_codes_json
  stored_hashes-codes_json [] h = json.unmarshal_empty
  stored_hashes-codes_json (x ∷ hs) h = json.unmarshal_array x hs h

  marshal-codes_json : (hs : List Text) → All IsPlainHash hs → json.marshal hs ≡ codes_json hs
  marshal-codes_json [] h = json.marshal_empty
  marshal-codes_json (x ∷ hs) h = json.marshal_array x hs h

  -- Both fail, or the account holds what is left.
  abbrev pub LeftHolding : Option (List Text) → Option Account → Type 0
  LeftHolding none none = Unit
  LeftHolding none (some a) = ⊥
  LeftHolding (some ks) none = ⊥
  LeftHolding (some ks) (some a) = Holds verify_password ks a

  with_codes-LeftHolding :
      (a : Account) (r : Row) (o p : Option (List Text))
      → r.enabled ≡ true
      → AreHashesLeft verify_password o p
      → LeftHolding o (with_codes json a r p)
  with_codes-LeftHolding a r none none e h = tt
  with_codes-LeftHolding a r none (some hs) e h = absurd h
  with_codes-LeftHolding a r (some ks) none e h = absurd h
  with_codes-LeftHolding a r (some ks) (some hs) e h = record {
    row = _;
    hashes = hs;
    is_row = refl;
    is_enabled = e;
    are_codes = marshal-codes_json hs (AreHashes-plain verify_password ks hs h);
    are_hashes = h;
  }

  -- Where the account holds a hash of each of some keys, using a key takes the first such key out,
  -- whatever its case and the space around it, and the account holds the others; a key that is not
  -- among them is an error.
  pub use_recovery_key-LeftHolding :
      (key : Text) (ks : List Text) (a : Account)
      → Holds verify_password ks a
      → LeftHolding
          (spend (normal go (normal go key)) ks)
          (use_recovery_key go json verify_password key a)
  unfolding use_recovery_key
  use_recovery_key-LeftHolding key ks a h =
      let row : if_enabled a.row ≡ some h.row = ap if_enabled h.is_row ∙ rw h.is_enabled refl in
      let plain = AreHashes-plain verify_password ks h.hashes h.are_hashes in
      let stored : stored_hashes json h.row.backup_codes ≡ some h.hashes =
        ap (stored_hashes json) h.are_codes ∙ stored_hashes-codes_json h.hashes plain in
      let entered = normal go (normal go key) in
      rw (row, stored)
        (with_codes-LeftHolding a h.row (spend entered ks) _ h.is_enabled
          (spend-AreHashesLeft verify_password entered ks h.hashes h.are_hashes))

  -- One attempt, which changes nothing where it fails: whether it succeeds, and the account.
  abbrev pub attempted : Account → Option Account → ℕ × Account
  attempted a none = (0, a)
  attempted a (some left) = (1, left)

  -- How many of some attempts in a row succeed, and the account at the end.
  unfoldable pub attempts : List Text → Account → ℕ × Account
  unfolding use_recovery_key
  attempts [] a = (0, a)
  attempts (key ∷ keys) a =
      let one = attempted a (use_recovery_key go json verify_password key a) in
      let others = attempts keys one.1 in (one.0 + others.0, others.1)

  -- What some attempts that begin with `ks` leave: as many keys fewer as succeed, and no key back.
  pub record Leaves (ks : List Text) (outcome : ℕ × Account) : Type 0 where
    pub left : List Text
    pub holds : Holds verify_password left outcome.1
    pub budget : outcome.0 + length left ≡ length ks
    pub none_back : (key : Text) → spend key ks ≡ none → spend key left ≡ none

  attempted-Leaves :
      (key : Text) (ks : List Text) (a : Account) (o : Option (List Text)) (p : Option Account)
      → Holds verify_password ks a
      → spend key ks ≡ o
      → LeftHolding o p
      → Leaves ks (attempted a p)
  attempted-Leaves key ks a none none h e left = record {
    left = ks;
    holds = h;
    budget = omega arith;
    none_back = λ other absent. absent;
  }
  attempted-Leaves key ks a none (some b) h e left = absurd left
  attempted-Leaves key ks a (some rest) none h e left = absurd left
  attempted-Leaves key ks a (some rest) (some b) h e left = record {
    left = rest;
    holds = left;
    budget = length-spend key ks rest e;
    none_back = λ other absent. spend-none_back other key ks rest e absent;
  }

  pub attempts-Leaves :
      (keys ks : List Text) (a : Account) → Holds verify_password ks a → Leaves ks (attempts keys a)
  unfolding attempts
  attempts-Leaves [] ks a h = record {
    left = ks;
    holds = h;
    budget = omega arith;
    none_back = λ other absent. absent;
  }
  attempts-Leaves (key ∷ keys) ks a h =
      let entered = normal go (normal go key) in
      let one =
        attempted-Leaves entered ks a _ _ h refl (use_recovery_key-LeftHolding key ks a h) in
      let others = attempts-Leaves keys one.left _ one.holds in
      record {
        left = others.left;
        holds = others.holds;
        budget = omega (arith, one.budget, others.budget);
        none_back = λ other absent. others.none_back other (one.none_back other absent);
      }

  use_none :
      (key : Text) (ks : List Text) (a : Account)
      → Holds verify_password ks a
      → spend (normal go (normal go key)) ks ≡ none
      → use_recovery_key go json verify_password key a ≡ none
  use_none key ks a h absent = none_of (use_recovery_key go json verify_password key a) (
      subst (λ o. LeftHolding o (use_recovery_key go json verify_password key a)) absent
        (use_recovery_key-LeftHolding key ks a h))
    where
      none_of : (p : Option Account) → LeftHolding none p → p ≡ none
      none_of none left = refl
      none_of (some b) left = absurd left

  -- A key that was used is refused for ever, whatever other attempts follow: the account holds
  -- hashes of keys that differ.
  pub use_recovery_key-single :
      (key : Text) (keys ks : List Text) (a left : Account)
      → Holds verify_password ks a
      → AreDistinct ks
      → use_recovery_key go json verify_password key a ≡ some left
      → use_recovery_key go json verify_password key (attempts keys left).1 ≡ none
  use_recovery_key-single key keys ks a left h distinct e =
      let entered = normal go (normal go key) in
      let one =
        holding (spend entered ks) left
          (subst (LeftHolding (spend entered ks)) e (use_recovery_key-LeftHolding key ks a h)) in
      let later = attempts-Leaves keys one.0 left one.2 in
      let absent = spend_of_AreDistinct entered ks one.0 distinct one.1 in
      use_none key later.left (attempts keys left).1 later.holds (later.none_back entered absent)
    where
      holding :
          (o : Option (List Text)) (b : Account)
          → LeftHolding o (some b)
          → (rest : List Text) × (o ≡ some rest) × Holds verify_password rest b
      holding none b left = absurd left
      holding (some rest) b left = (rest, refl, left)
