-- ===== src/Redirect/Served.antt =====
-- Which visits are redirected, and where to.
use caslink.Prelude.{
  ℕ, ◌≡◌, ◌≢◌, ◌⊎◌, refl, sym, ◌∙◌, ap, arith, Text, codes, text_eq, text_eq_iff, Bool, true, false,
  inl, inr, not, ◌&&◌, if◌then◌else◌, Option, none, some, is_some, List, [], ◌∷◌, is_nil,
}
use caslink.Links.{is_id}
use caslink.Redirect.Rules.{
  IsOwned, IsFresh, IsOpen, IsAllowed, is_past_iff, is_unlocked_by_iff, is_blocked_iff,
}
use caslink.Redirect.{
  Target, Visit, Answer, not_found, unauthorized, prompt, redirect, Click, Query, row, no_row,
  expired, query_error, find_target, is_past, unless_expired, has_code, Server, select,
  get_url_by_code, get_url_by_code_for_owner, look_up, requires_password, Host, is_unlocked_by,
  provided_password, locked, is_blocked, destination, follow, by_query, redirect_url,
}

abbrev pub IsIn : Target → List Target → Type 0
IsIn u [] = ⊥
IsIn u (v ∷ us) = (v ≡ u) ⊎ IsIn u us

-- What may be followed on a visit: a link of the table with the code, that the owner of the domain
-- owns, whose time is not over, whose password is given, if it has one, and whose rule lets the
-- visitor's country in.
pub record MayFollow (host : Host) (s : Server) (r : Visit) (u : Target) : Type 0 where
  pub is_there : IsIn u s.targets
  pub has_that_code : u.short_code ≡ r.code
  pub is_owned : IsOwned r.domain_owner u
  pub is_fresh : IsFresh s.now u.expires_at
  pub is_open : IsOpen host r u.password_hash
  pub is_allowed : IsAllowed host u r

-- One step of the search.
if_row :
    (p : Target → Bool) (v u : Target) (b : Bool) (later : Query)
    → p v ≡ b
    → (us : List Target) → (later ≡ row u → IsIn u us × (p u ≡ true))
    → (if b then row v else later) ≡ row u
    → IsIn u (v ∷ us) × (p u ≡ true)
if_row p v u true later h us further e = (let same : v ≡ u = cc in (inl same, sym (ap p same) ∙ h))
if_row p v u false later h us further e = (let found = further e in (inr found.0, found.1))

find_target-row :
    (p : Target → Bool) (us : List Target) (u : Target)
    → find_target p us ≡ row u
    → IsIn u us × (p u ≡ true)
unfolding find_target
find_target-row p [] u e = absurd (cc)
find_target-row p (v ∷ us) u e =
    if_row p v u (p v) (find_target p us) refl us (find_target-row p us u) e

if_fails : (b : Bool) (q : Query) (u : Target) → (if b then query_error else q) ≡ row u → q ≡ row u
if_fails true q u e = absurd (cc)
if_fails false q u e = e

select-row :
    (s : Server) (p : Target → Bool) (u : Target)
    → select s p ≡ row u
    → IsIn u s.targets × (p u ≡ true)
unfolding select
select-row s p u e = find_target-row p s.targets u (if_fails s.fails (find_target p s.targets) u e)

if_expired :
    (now : ℕ) (b : Bool) (v u : Target)
    → is_past now v.expires_at ≡ b
    → (if b then expired else row v) ≡ row u
    → (row v ≡ row u) × (is_past now u.expires_at ≡ false)
if_expired now true v u h e = absurd (cc)
if_expired now false v u h e =
    (e, (let same : v ≡ u = cc in sym (ap (λ (w : Target). is_past now w.expires_at) same) ∙ h))

unless_expired-row :
    (now : ℕ) (q : Query) (u : Target)
    → unless_expired now q ≡ row u
    → (q ≡ row u) × (is_past now u.expires_at ≡ false)
unless_expired-row now (row v) u e = if_expired now (is_past now v.expires_at) v u refl e
unless_expired-row now no_row u e = absurd (cc)
unless_expired-row now expired u e = absurd (cc)
unless_expired-row now query_error u e = absurd (cc)

-- A row that a query finds has passed its test and is fresh.
found-row :
    (s : Server) (p : Target → Bool) (u : Target)
    → unless_expired s.now (select s p) ≡ row u
    → IsIn u s.targets × (p u ≡ true) × IsFresh s.now u.expires_at
found-row s p u e =
    let found = unless_expired-row s.now (select s p) u e in
    let chosen = select-row s p u found.0 in
    (chosen.0, chosen.1, (is_past_iff s.now u.expires_at).0 found.1)

both : (a b : Bool) → a && b ≡ true → (a ≡ true) × (b ≡ true)
both true b h = (refl, h)
both false b h = absurd (cc)

is_id-some : (o : Option ℕ) (n : ℕ) → is_id o n ≡ true → o ≡ some n
is_id-some none n h = absurd (cc)
is_id-some (some m) n h = ap some (ground arith)

-- The branches of the query for an owner.
IsOwned-row :
    (s : Server) (code owner_type : Text) (owner_id : ℕ) (u : Target) (is_user is_org : Bool)
    → text_eq owner_type (codes "user") ≡ is_user
    → text_eq owner_type (codes "org") ≡ is_org
    → (if is_user
        then unless_expired s.now (select s (λ v. has_code code v && is_id v.user_id owner_id))
        else if is_org
        then unless_expired s.now (select s (λ v. has_code code v && is_id v.org_id owner_id))
        else no_row)
      ≡ row u
    → IsIn u s.targets
      × (u.short_code ≡ code)
      × IsOwned (some (owner_type, owner_id)) u
      × IsFresh s.now u.expires_at
IsOwned-row s code owner_type owner_id u true is_org user org e =
    let found = found-row s (λ v. has_code code v && is_id v.user_id owner_id) u e in
    let parts = both (has_code code u) (is_id u.user_id owner_id) found.1 in
    (
      found.0,
      (text_eq_iff u.short_code code).0 parts.0,
      inl ((text_eq_iff owner_type (codes "user")).0 user, is_id-some u.user_id owner_id parts.1),
      found.2,
    )
IsOwned-row s code owner_type owner_id u false true user org e =
    let found = found-row s (λ v. has_code code v && is_id v.org_id owner_id) u e in
    let parts = both (has_code code u) (is_id u.org_id owner_id) found.1 in
    (
      found.0,
      (text_eq_iff u.short_code code).0 parts.0,
      inr ((text_eq_iff owner_type (codes "org")).0 org, is_id-some u.org_id owner_id parts.1),
      found.2,
    )
IsOwned-row s code owner_type owner_id u false false user org e = absurd (cc)

look_up-row :
    (s : Server) (code : Text) (o : Option (Text × ℕ)) (u : Target)
    → look_up s code o ≡ row u
    → IsIn u s.targets × (u.short_code ≡ code) × IsOwned o u × IsFresh s.now u.expires_at
unfolding get_url_by_code get_url_by_code_for_owner
look_up-row s code none u e =
    let found = found-row s (has_code code) u e in
    (found.0, (text_eq_iff u.short_code code).0 found.1, tt, found.2)
look_up-row s code (some (owner_type, owner_id)) u e =
    IsOwned-row s code owner_type owner_id u _ _ refl refl e

abbrev answer_of : Answer × Option Click → Answer
answer_of outcome = outcome.0

module _ (host : Host) (s : Server) (workers_busy : Bool) (r : Visit) where
  locked-ne-redirect : (dest : Text) → locked host r ≢ redirect dest
  unfolding locked
  locked-ne-redirect dest = branches (text_eq r.accept (codes "application/json"))
    where
      branches :
          (b : Bool)
          → (if b then unauthorized else prompt (is_some (provided_password host r)))
            ≢ redirect dest
      branches true e = cc
      branches false e = cc

  -- The tests behind the query, on Booleans.
  tests :
      (needs unlocked blocked : Bool) (lock : Answer) (there : Text) (click : Option Click)
      (dest : Text)
      → lock ≢ redirect dest
      → answer_of (
          if needs && not unlocked
          then (lock, none)
          else if blocked
          then (not_found, none)
          else (redirect there, click))
        ≡ redirect dest
      → ((needs ≡ false) ⊎ (unlocked ≡ true)) × (blocked ≡ false) × (dest ≡ there)
  tests true false blocked lock there click dest h e = absurd (h e)
  tests true true true lock there click dest h e = absurd (cc)
  tests true true false lock there click dest h e = (inr refl, refl, cc)
  tests false unlocked true lock there click dest h e = absurd (cc)
  tests false unlocked false lock there click dest h e = (inl refl, refl, cc)

  by_query-redirect :
      (q : Query) (dest : Text)
      → look_up s r.code r.domain_owner ≡ q
      → (by_query host workers_busy r q).0 ≡ redirect dest
      → (u : Target) × MayFollow host s r u × (dest ≡ destination host u r)
  unfolding follow
  by_query-redirect (row u) dest there e =
      let found = look_up-row s r.code r.domain_owner u there in
      let passed =
        tests (requires_password u.password_hash)
          (is_unlocked_by host u.password_hash (provided_password host r)) (is_blocked host u r)
          (locked host r) (destination host u r)
          (if workers_busy then none else some (u.id, r.address)) dest (locked-ne-redirect dest)
          e in
      (
        u,
        record {
          is_there = found.0;
          has_that_code = found.1;
          is_owned = found.2;
          is_fresh = found.3;
          is_open = (is_unlocked_by_iff host r u).0 passed.0;
          is_allowed = (is_blocked_iff host r u).0 passed.1;
        },
        passed.2,
      )
  by_query-redirect no_row dest there e = absurd (cc)
  by_query-redirect expired dest there e = absurd (cc)
  by_query-redirect query_error dest there e = absurd (cc)

  if_code :
      (b : Bool) (dest : Text) (x : Answer × Option Click)
      → answer_of (if b then (not_found, none) else x) ≡ redirect dest
      → x.0 ≡ redirect dest
  if_code true dest x e = absurd (cc)
  if_code false dest x e = e

  -- A visit is redirected only to the destination of a link of the table that has the code, has not
  -- expired, on a custom domain belongs to the domain's owner, is opened by the password given if it
  -- has one, and whose list of countries lets the visitor in, if the country is known.
  pub redirect_url-MayFollow :
      (dest : Text)
      → (redirect_url host s workers_busy r).0 ≡ redirect dest
      → (u : Target) × MayFollow host s r u × (dest ≡ destination host u r)
  unfolding redirect_url
  redirect_url-MayFollow dest e = by_query-redirect (look_up s r.code r.domain_owner) dest refl (
      if_code (is_nil r.code) dest (by_query host workers_busy r (look_up s r.code r.domain_owner))
        e)
