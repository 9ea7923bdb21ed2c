-- ===== src/Redirect/Reached.antt =====
-- The links that may be followed are reached.
use caslink.Prelude.{
  ℕ, ◌≡◌, ◌≢◌, refl, sym, ◌∙◌, ap, arith, Text, text_eq, text_eq_iff, text_eq_refl, Bool, true,
  false, Bool-cases, inl, inr, ◌&&◌, if◌then◌else◌, Option, none, some, List, [], ◌∷◌, All, is_nil,
}
use mathlib.Core.Path.{subst}
use caslink.Links.{is_id}
use caslink.Redirect.{
  Target, Visit, redirect, row, find_target, unless_expired, has_code, Server, select,
  get_url_by_code, get_url_by_code_for_owner, look_up, requires_password, Host, destination, follow,
  redirect_url,
}
use caslink.Redirect.Rules.{IsOwned, IsFresh, is_past_iff, is_unlocked_by_iff, is_blocked_iff}
use caslink.Redirect.Served.{IsIn, MayFollow}

-- No code occurs twice, which the table of links demands.
abbrev pub AreUnique : List Target → Type 0
AreUnique [] = Unit
AreUnique (v ∷ us) = All (λ w. w.short_code ≢ v.short_code) us × AreUnique us

All-IsIn : (P : Target → Type 0) (u : Target) (us : List Target) → All P us → IsIn u us → P u
All-IsIn P u [] h there = absurd there
All-IsIn P u (v ∷ us) h (inl same) = subst P same h.0
All-IsIn P u (v ∷ us) h (inr there) = All-IsIn P u us h.1 there

-- The only row with the code is found, if the query asks for the code and the row passes.
find_target_of_IsIn :
    (p : Target → Bool) (us : List Target) (u : Target)
    → AreUnique us
    → IsIn u us
    → p u ≡ true
    → ((v : Target) → p v ≡ true → v.short_code ≡ u.short_code)
    → find_target p us ≡ row u
unfolding find_target
find_target_of_IsIn p [] u unique there passes only = absurd there
find_target_of_IsIn p (v ∷ us) u unique (inl same) passes only =
    rw (ap p same ∙ passes) (ap row same)
find_target_of_IsIn p (v ∷ us) u unique (inr there) passes only = elim (Bool-cases (p v)) [
  | inl first ↦
      absurd (All-IsIn (λ w. w.short_code ≢ v.short_code) u us unique.0 there (sym (only v first)))
  | inr other ↦ rw other (find_target_of_IsIn p us u unique.1 there passes only)
]

both_true : (a b : Bool) → a ≡ true → b ≡ true → a && b ≡ true
both_true a b h k = rw (h, k) refl

first_true : (a b : Bool) → a && b ≡ true → a ≡ true
first_true true b h = refl
first_true false b h = h

is_id_own : (n : ℕ) → is_id (some n) n ≡ true
is_id_own n = ground arith

module _ (s : Server) (u : Target) (code : Text) (unique : AreUnique s.targets)
    (works : s.fails ≡ false) (there : IsIn u s.targets) (has_it : u.short_code ≡ code)
    (fresh : IsFresh s.now u.expires_at) where
  has_own_code : has_code code u ≡ true
  has_own_code = ap (λ (c : Text). text_eq c code) has_it ∙ text_eq_refl code

  -- A query for the code and more.
  found_by :
      (p : Target → Bool)
      → p u ≡ true
      → ((v : Target) → p v ≡ true → has_code code v ≡ true)
      → unless_expired s.now (select s p) ≡ row u
  unfolding select
  found_by p passes asks =
      let found : find_target p s.targets ≡ row u =
        find_target_of_IsIn p s.targets u unique there passes
          (λ v h. (text_eq_iff v.short_code code).0 (asks v h) ∙ sym has_it) in
      rw (works, found, (is_past_iff s.now u.expires_at).1 fresh) refl

  pub look_up_of_IsOwned : (o : Option (Text × ℕ)) → IsOwned o u → look_up s code o ≡ row u
  unfolding get_url_by_code get_url_by_code_for_owner text_eq
  look_up_of_IsOwned none owned = found_by (has_code code) has_own_code (λ v h. h)
  look_up_of_IsOwned (some (owner_type, owner_id)) (inl owned) = rw owned.0 (
      found_by (λ v. has_code code v && is_id v.user_id owner_id)
        (both_true _ _ has_own_code
          (ap (λ (o : Option ℕ). is_id o owner_id) owned.1 ∙ is_id_own owner_id))
        (λ v. first_true (has_code code v) (is_id v.user_id owner_id)))
  look_up_of_IsOwned (some (owner_type, owner_id)) (inr owned) = rw owned.0 (
      found_by (λ v. has_code code v && is_id v.org_id owner_id)
        (both_true _ _ has_own_code
          (ap (λ (o : Option ℕ). is_id o owner_id) owned.1 ∙ is_id_own owner_id))
        (λ v. first_true (has_code code v) (is_id v.org_id owner_id)))

-- Conversely, where no code occurs twice in the table, the database answers and the code is not empty,
-- a visit that may follow a link is redirected to its destination, and the click is recorded unless
-- all workers are busy.
pub redirect_url_of_MayFollow :
    (host : Host) (s : Server) (workers_busy : Bool) (r : Visit) (u : Target)
    → AreUnique s.targets
    → s.fails ≡ false
    → is_nil r.code ≡ false
    → MayFollow host s r u
    → redirect_url host s workers_busy r
      ≡ (redirect (destination host u r), if workers_busy then none else some (u.id, r.address))
unfolding redirect_url follow
redirect_url_of_MayFollow host s workers_busy r u unique works code may =
    let there =
      look_up_of_IsOwned s u r.code unique works may.is_there may.has_that_code may.is_fresh
        r.domain_owner may.is_owned in
    let allowed = (is_blocked_iff host r u).1 may.is_allowed in
    elim ((is_unlocked_by_iff host r u).1 may.is_open) [
      | inl free ↦ rw (code, there, free, allowed) refl
      | inr unlocked ↦ elim (Bool-cases (requires_password u.password_hash)) [
        | inl needs ↦ rw (code, there, needs, unlocked, allowed) refl
        | inr free ↦ rw (code, there, free, allowed) refl
      ]
    ]
