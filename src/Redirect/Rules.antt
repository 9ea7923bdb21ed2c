-- ===== src/Redirect/Rules.antt =====
-- The rules of a link, said without the code, and the tests of the code.
use caslink.Prelude.{
  ℕ, ◌≤◌, ◌≡◌, ◌≢◌, ◌↔◌, ◌⊎◌, refl, sym, ◌∙◌, ap, arith, Text, codes, text_eq, text_eq_iff, Bool,
  true, false, inl, inr, not, ◌||◌, ltb, if◌then◌else◌, Option, none, some, [], ◌∷◌, any, is_nil,
}
use caslink.Redirect.{
  Target, Visit, is_past, requires_password, Host, is_unlocked_by, provided_password, geo_allowed,
  is_blocked,
}

-- What the owner of a visit may see: on a custom domain a link of its owner.
abbrev pub IsOwned : Option (Text × ℕ) → Target → Type 0
IsOwned none u = Unit
IsOwned (some (owner_type, owner_id)) u =
    ((owner_type ≡ codes "user") × (u.user_id ≡ some owner_id))
    ⊎ ((owner_type ≡ codes "org") × (u.org_id ≡ some owner_id))

abbrev pub IsFresh : ℕ → Option ℕ → Type 0
IsFresh now expires_at = (t : ℕ) → expires_at ≡ some t → now ≤ t

-- A visit brings a password in a posted form, or else in the query.
abbrev pub Gives : Visit → Text → Type 0
Gives r given =
    ((r.is_post ≡ true) × (r.posted_password ≡ some given))
    ⊎ ((r.is_post ≡ false) × (r.query_password ≡ given) × (given ≢ []))

-- A link with the hash of a password is opened by one that verifies against it.
abbrev pub IsOpen : Host → Visit → Option Text → Type 0
IsOpen host r hash =
    (h : Text)
    → hash ≡ some h
    → h ≢ []
    → (given : Text) × Gives r given × (host.verify_password given h ≡ true)

-- The country of the visitor is on the list of the link.
abbrev pub lists_country : Host → Target → Visit → Bool
lists_country host u r =
    any (λ c. host.equal_fold c (host.to_upper (host.look_up_country r.address))) u.geo_countries

-- A known country is on a list of the allowed, and not on a list of the denied.
abbrev pub IsAllowed : Host → Target → Visit → Type 0
IsAllowed host u r =
    (u.geo_mode ≡ codes "allow"
      → host.look_up_country r.address ≢ []
      → lists_country host u r ≡ true)
    × (u.geo_mode ≡ codes "deny"
        → host.look_up_country r.address ≢ []
        → lists_country host u r ≡ false)

pub is_past_iff : (now : ℕ) (o : Option ℕ) → (is_past now o ≡ false) ↔ IsFresh now o
is_past_iff now none = ((λ h t e. absurd (cc)), (λ h. refl))
is_past_iff now (some t) = (
  (λ h t' e. (let same : t ≡ t' = cc in rw (sym same) (not_before h))),
  (λ h. (let late = h t refl in ground arith)),
)
  where
    not_before : ltb t now ≡ false → now ≤ t
    not_before h = ground arith

-- The choice between the form and the query.
given_by :
    (is_post : Bool) (posted : Option Text) (query given : Text)
    → (if is_post then posted else if is_nil query then none else some query) ≡ some given
    → ((is_post ≡ true) × (posted ≡ some given))
      ⊎ ((is_post ≡ false) × (query ≡ given) × (given ≢ []))
given_by true posted query given e = inl (refl, e)
given_by false posted [] given e = absurd (cc)
given_by false posted (c ∷ s) given e =
    let same : c ∷ s ≡ given = cc in inr (refl, same, (λ n. filled (same ∙ n)))
  where
    filled : ¬ (c ∷ s ≡ [])
    filled n = cc

by_given :
    (is_post : Bool) (posted : Option Text) (query given : Text)
    → ((is_post ≡ true) × (posted ≡ some given))
      ⊎ ((is_post ≡ false) × (query ≡ given) × (given ≢ []))
    → (if is_post then posted else if is_nil query then none else some query) ≡ some given
by_given is_post posted query given (inl g) = rw g.0 g.1
by_given is_post posted [] given (inr g) = absurd (g.2 (sym g.1))
by_given is_post posted (c ∷ s) given (inr g) = rw g.0 (ap some g.1)

filled_is_nil : (s : Text) → s ≢ [] → is_nil s ≡ false
filled_is_nil [] n = absurd (n refl)
filled_is_nil (c ∷ s) n = refl

is_nil_filled : (s : Text) → is_nil s ≡ false → s ≢ []
is_nil_filled [] h = λ e. absurd (cc)
is_nil_filled (c ∷ s) h = λ e. cc

module _ (host : Host) (r : Visit) where
  open_of :
      (hash provided : Option Text)
      → provided_password host r ≡ provided
      → ((requires_password hash ≡ false) ⊎ (is_unlocked_by host hash provided ≡ true))
      → IsOpen host r hash
  open_of none provided e g h there n = absurd (cc)
  open_of (some []) provided e g h there n = absurd (n (cc))
  open_of (some (c ∷ s)) provided e (inl free) h there n = absurd (cc)
  open_of (some (c ∷ s)) none e (inr unlocked) h there n = absurd (cc)
  open_of (some (c ∷ s)) (some given) e (inr unlocked) h there n =
      let same : c ∷ s ≡ h = cc in
      (given, given_by r.is_post r.posted_password r.query_password given e, rw (sym same) unlocked)

  of_open :
      (hash : Option Text)
      → IsOpen host r hash
      → ((requires_password hash ≡ false)
          ⊎ (is_unlocked_by host hash (provided_password host r) ≡ true))
  of_open none h = inl refl
  of_open (some []) h = inl refl
  of_open (some (c ∷ s)) h =
      let opened = h (c ∷ s) refl (λ n. cc) in
      let provided = by_given r.is_post r.posted_password r.query_password opened.0 opened.1 in
      inr (ap (is_unlocked_by host (some (c ∷ s))) provided ∙ opened.2)

  pub is_unlocked_by_iff :
      (u : Target)
      → ((requires_password u.password_hash ≡ false)
          ⊎ (is_unlocked_by host u.password_hash (provided_password host r) ≡ true))
        ↔ IsOpen host r u.password_hash
  is_unlocked_by_iff u =
      (open_of u.password_hash (provided_password host r) refl, of_open u.password_hash)

-- The rule on the Booleans that it tests: the mode allows, denies or does neither, the country is not
-- known, and it is on the list.
abbrev blocks : Bool → Bool → Bool → Bool → Bool → Bool
blocks without allows denies unknown listed =
    if without
    then false
    else not (
        if without || unknown
        then true
        else if allows
        then listed
        else if denies
        then not listed
        else true)

allowed_of :
    (without denies listed : Bool)
    → without ≡ false
    → blocks without true denies false listed ≡ false
    → listed ≡ true
allowed_of true denies listed e h = absurd (cc)
allowed_of false denies true e h = refl
allowed_of false denies false e h = absurd (cc)

denied_of :
    (without listed : Bool)
    → without ≡ false
    → blocks without false true false listed ≡ false
    → listed ≡ false
denied_of true listed e h = absurd (cc)
denied_of false true e h = absurd (cc)
denied_of false false e h = refl

of_rule :
    (without allows denies unknown listed : Bool)
    → (allows ≡ true → unknown ≡ false → listed ≡ true)
    → (denies ≡ true → unknown ≡ false → listed ≡ false)
    → blocks without allows denies unknown listed ≡ false
of_rule true allows denies unknown listed a d = refl
of_rule false allows denies true listed a d = refl
of_rule false true denies false listed a d = rw (a refl refl) refl
of_rule false false true false listed a d = rw (d refl refl) refl
of_rule false false false false listed a d = refl

module _ (host : Host) (r : Visit) (u : Target) where
  abbrev country : Text
  country = host.look_up_country r.address

  -- The tests at a mode.
  abbrev at : Text → Bool → Bool
  at mode unknown =
      blocks (is_nil mode || text_eq mode (codes "none")) (text_eq mode (codes "allow"))
        (text_eq mode (codes "deny")) unknown (lists_country host u r)

  of_blocks : is_blocked host u r ≡ false → IsAllowed host u r
  unfolding is_blocked geo_allowed text_eq
  of_blocks h = (
    (λ mode known.
        allowed_of false (text_eq u.geo_mode (codes "deny")) (lists_country host u r) refl
          (at_mode (codes "allow") mode known)),
    (λ mode known.
        denied_of false (lists_country host u r) refl (at_mode (codes "deny") mode known)),
  )
    where
      at_mode : (mode : Text) → u.geo_mode ≡ mode → country ≢ [] → at mode false ≡ false
      at_mode mode e known =
          ap (at mode) (sym (filled_is_nil country known))
          ∙ ap (λ (m : Text). at m (is_nil country)) (sym e)
          ∙ h

  pub is_blocked_iff : (is_blocked host u r ≡ false) ↔ IsAllowed host u r
  unfolding is_blocked geo_allowed
  is_blocked_iff = (
    of_blocks,
    (λ h.
        of_rule (is_nil u.geo_mode || text_eq u.geo_mode (codes "none"))
          (text_eq u.geo_mode (codes "allow")) (text_eq u.geo_mode (codes "deny")) (is_nil country)
          (lists_country host u r)
          (λ allows known.
            h.0 ((text_eq_iff u.geo_mode (codes "allow")).0 allows) (is_nil_filled country known))
          (λ denies known.
            h.1 ((text_eq_iff u.geo_mode (codes "deny")).0 denies) (is_nil_filled country known))),
  )
