-- ===== src/RateLimit/VerifyPaths.antt =====
-- The paths that ask `RateLimitMiddleware` for the rule on verifications, src/server/middleware.go.
use caslink.Prelude.{
  contains, ◌≢◌, ℕ, Text, codes, text_eq, text_eq_iff, Bool, true, false, [], ◌∷◌, ◌&&◌, ◌≡◌, refl,
  ap, sym, ◌∙◌, arith, Option, none, some, if◌then◌else◌, Bool-cases, inl, inr,
}
use caslink.RateLimit.{has_suffix, rule_within, Rule, rule_for}
use caslink.RateLimit.Domains.{verify_name}

abbrev pub is_named : Option (Text × Rule) → Bool
is_named none = false
is_named (some (key, rule)) = text_eq rule.name verify_name

-- A path that names a domain of a list and asks for its verification.
abbrev pub is_verify_path : Text → Bool
is_verify_path path = contains (codes "/domains/") path && has_suffix (codes "/verify") path

-- The last character.
last_of : Text → ℕ
last_of [] = 0
last_of (c ∷ []) = c
last_of (c ∷ d ∷ s) = last_of (d ∷ s)

last_of-has_suffix :
    (x : ℕ) (suffix s : Text) → has_suffix (x ∷ suffix) s ≡ true → last_of s ≡ last_of (x ∷ suffix)
unfolding text_eq last_of
last_of-has_suffix x suffix [] h = cc
last_of-has_suffix x suffix (c ∷ []) h = elim (Bool-cases (text_eq (x ∷ suffix) (c ∷ []))) [
  | inl e ↦ sym (ap last_of ((text_eq_iff (x ∷ suffix) (c ∷ [])).0 e))
  | inr e ↦ absurd (no_end (sym (if_false e) ∙ h))
]
  where
    no_end : false ≢ true
    no_end e = cc

    if_false : {b : Bool} → b ≡ false → (if b then true else false) ≡ false
    if_false e = rw e refl
last_of-has_suffix x suffix (c ∷ d ∷ s) h = elim (Bool-cases (text_eq (x ∷ suffix) (c ∷ d ∷ s))) [
  | inl e ↦ sym (ap last_of ((text_eq_iff (x ∷ suffix) (c ∷ d ∷ s)).0 e))
  | inr e ↦
      last_of-has_suffix x suffix (d ∷ s)
        (sym (ap (λ (b : Bool). if b then true else has_suffix (x ∷ suffix) (d ∷ s)) e) ∙ h)
]

one_end :
    (path : Text)
    → has_suffix (codes "/domains") path ≡ true
    → has_suffix (codes "/verify") path ≡ true
    → ⊥
unfolding last_of
one_end path h k =
    let ends : ◌≡◌ {A = ℕ} b's' b'y' =
      sym (last_of-has_suffix b'/' (codes "domains") path h)
      ∙ last_of-has_suffix b'/' (codes "verify") path k in
    absurd (omega (arith, ends))

within-is_named : (ip path : Text) → is_named (rule_within ip path) ≡ false
unfolding text_eq
within-is_named ip path = elim (Bool-cases (contains (codes "/login") path)) [
  | inl e ↦ rw e refl
  | inr e ↦ elim (Bool-cases (contains (codes "/register") path)) [
    | inl e1 ↦ rw (e, e1) refl
    | inr e1 ↦ elim (Bool-cases (contains (codes "/password") path)) [
      | inl e2 ↦ rw (e, e1, e2) refl
      | inr e2 ↦ elim (Bool-cases (contains (codes "/2fa") path)) [
        | inl e3 ↦ rw (e, e1, e2, e3) refl
        | inr e3 ↦ rw (e, e1, e2, e3) refl
      ]
    ]
  ]
]

-- The rule is the one for verifications exactly on those paths.
pub is_verify_path-is_named : (ip path : Text) → is_named (rule_for ip path) ≡ is_verify_path path
unfolding rule_for text_eq
is_verify_path-is_named ip path = elim (Bool-cases (has_suffix (codes "/domains") path)) [
  | inl listing ↦ elim (Bool-cases (has_suffix (codes "/verify") path)) [
    | inl verify ↦ absurd (one_end path listing verify)
    | inr other ↦ rw (listing, other) (sym (and_false (contains (codes "/domains/") path)))
  ]
  | inr other ↦
      elim (Bool-cases (contains (codes "/domains/") path && has_suffix (codes "/verify") path)) [
        | inl verify ↦ rw (other, verify) refl
        | inr neither ↦ rw (other, neither) (within-is_named ip path)
      ]
]
  where
    and_false : (b : Bool) → (b && false) ≡ false
    and_false true = refl
    and_false false = refl
