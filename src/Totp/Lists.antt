-- ===== src/Totp/Lists.antt =====
-- A key is taken out of a list once.
use caslink.Prelude.{
  ◌+◌, ◌≡◌, ◌⊎◌, refl, arith, Text, text_eq, text_eq_iff, true, false, Bool-cases, Option-cases,
  inl, inr, none, some, List, [], ◌∷◌, length,
}
use caslink.Totp.Codes.{spend}

spend-none :
    (key k : Text) (ks : List Text)
    → spend key (k ∷ ks) ≡ none
    → (text_eq key k ≡ false) × (spend key ks ≡ none)
unfolding spend
spend-none key k ks h = elim (Bool-cases (text_eq key k)) [
  | inl e ↦ absurd (cc)
  | inr e ↦ elim (Option-cases (spend key ks)) [ inl f ↦ (e, f) | inr f ↦ absurd (ground arith) ]
]

spend-absent :
    (key k : Text) (ks : List Text)
    → text_eq key k ≡ false
    → spend key ks ≡ none
    → spend key (k ∷ ks) ≡ none
unfolding spend
spend-absent key k ks e f = rw (e, f) refl

-- The first key is taken, or a later one.
spend-some :
    (key k : Text) (ks rest : List Text)
    → spend key (k ∷ ks) ≡ some rest
    → ((text_eq key k ≡ true) × (rest ≡ ks))
      ⊎ ((r : List Text) × (text_eq key k ≡ false) × (spend key ks ≡ some r) × (rest ≡ k ∷ r))
unfolding spend
spend-some key k ks rest h = elim (Bool-cases (text_eq key k)) [
  | inl e ↦ inl (e, ground arith)
  | inr e ↦ elim (Option-cases (spend key ks)) [
    | inl f ↦ absurd (ground arith)
    | inr f ↦ inr (f.0, e, f.1, ground arith)
  ]
]

pub length-spend :
    (key : Text) (ks rest : List Text) → spend key ks ≡ some rest → 1 + length rest ≡ length ks
length-spend key [] rest h = absurd (unfold spend in cc)
length-spend key (k ∷ ks) rest h = elim (spend-some key k ks rest h) [
  | inl e ↦ rw e.1 (omega arith)
  | inr e ↦ rw e.3 (omega (arith, length-spend key ks e.0 e.2))
]

pub spend-none_back :
    (other key : Text) (ks rest : List Text)
    → spend key ks ≡ some rest
    → spend other ks ≡ none
    → spend other rest ≡ none
spend-none_back other key [] rest h absent = absurd (unfold spend in cc)
spend-none_back other key (k ∷ ks) rest h absent =
    let later = spend-none other k ks absent in
    elim (spend-some key k ks rest h) [
      | inl e ↦ rw e.1 later.1
      | inr e ↦
          rw e.3 (spend-absent other k e.0 later.0 (spend-none_back other key ks e.0 e.2 later.1))
    ]

-- No key occurs twice.
abbrev pub AreDistinct : List Text → Type 0
AreDistinct [] = Unit
AreDistinct (k ∷ ks) = (spend k ks ≡ none) × AreDistinct ks

pub spend_of_AreDistinct :
    (key : Text) (ks rest : List Text)
    → AreDistinct ks
    → spend key ks ≡ some rest
    → spend key rest ≡ none
spend_of_AreDistinct key [] rest d h = absurd (unfold spend in cc)
spend_of_AreDistinct key (k ∷ ks) rest d h = elim (spend-some key k ks rest h) [
  | inl e ↦ rw (e.1, (text_eq_iff key k).0 e.0) d.0
  | inr e ↦ rw e.3 (spend-absent key k e.0 e.1 (spend_of_AreDistinct key ks e.0 d.1 e.2))
]
