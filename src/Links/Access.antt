-- ===== src/Links/Access.antt =====
-- What the checks on a link grant and what they give away.
use caslink.Prelude.{
  not, [], ◌<◌, ℕ, Text, codes, text_eq, ◌≡◌, ◌≢◌, ◌⊎◌, inl, inr, refl, sym, ap, ◌∙◌, arith, Bool,
  true, false, Bool-cases, Option, none, some, ==_iff, ◌==◌, if◌then◌else◌, map, text_eq_iff,
  text_eq-eq-false,
}
use caslink.Platform.{lower_unit}
use caslink.Links.{
  equal_fold, Link, Bearer, is_admin, is_org, is_user, is_id, is_other, can_view, can_view_url,
  Lookup, found, not_found, lookup_error, lookup_owner_error, check_ownership, lookup_status,
  check_url_ownership, created_for,
}

-- The status that the handler sends where the resolver has this message.
abbrev pub status_of : Text → ℕ
status_of message =
    if text_eq message (codes "bearer token required")
    then 401
    else if text_eq message (codes "URL not found")
    then 404
    else 500

abbrev pub status : Option Text → Option ℕ
status none = none
status (some message) = some (status_of message)

status-if :
    (b : Bool) (x y : Option Text)
    → status (if b then x else y) ≡ (if b then status x else status y)
status-if true x y = refl
status-if false x y = refl

lookup_status-eq :
    (b : Bearer) (existing : Lookup)
    → lookup_status b existing ≡ status (lookup_owner_error b existing)
unfolding text_eq
lookup_status-eq b (found u) = ground arith
lookup_status-eq b not_found = refl
lookup_status-eq b lookup_error = refl

-- The handler and the GraphQL resolver let the same callers change the same links, and where they
-- refuse, the handler's status is the one that the resolver's message stands for.
pub check_url_ownership-eq-status :
    (who : Option Bearer) (existing : Lookup)
    → check_url_ownership who existing ≡ status (check_ownership who existing)
unfolding check_url_ownership check_ownership text_eq
check_url_ownership-eq-status none existing = refl
check_url_ownership-eq-status (some b) existing =
    rw (lookup_status-eq b existing, status-if (is_admin b) none (lookup_owner_error b existing))
      refl

-- The test of an identifier that lets pass is passed.
is_id_of_none :
    (o : Option ℕ) (n : ℕ) (message : Text)
    → (if is_other o n then some message else none) ≡ none
    → is_id o n ≡ true
is_id_of_none none n message h = cc
is_id_of_none (some m) n message h = ground arith

-- The tests of both checks, on the Booleans that they share.
view_of_change :
    (admin org private : Bool) (o u : Option ℕ) (n : ℕ) (message : Text)
    → (if admin
        then none
        else if org
        then (if is_other o n then some message else none)
        else if is_other u n
        then some message
        else none)
      ≡ none
    → (if private then if admin then true else if org then is_id o n else is_id u n else true)
      ≡ true
view_of_change admin org false o u n message h = refl
view_of_change true org true o u n message h = refl
view_of_change false true true o u n message h = is_id_of_none o n message h
view_of_change false false true o u n message h = is_id_of_none u n message h

is_other_of_ne : (o : Option ℕ) (n : ℕ) → o ≢ some n → is_other o n ≡ true
is_other_of_ne none n h = refl
is_other_of_ne (some m) n h = elim (Bool-cases (m == n)) [
  | inl e ↦ absurd (h (ap some ((==_iff m n).0 e)))
  | inr e ↦ rw e refl
]

own-is_id : (n : ℕ) → is_id (some n) n ≡ true
own-is_id n = ground arith

own-is_other : (n : ℕ) → is_other (some n) n ≡ false
own-is_other n = ground arith

if_same : (b : Bool) → ◌≡◌ {A = Option Text} (if b then none else none) none
if_same true = refl
if_same false = refl

-- Whoever may change a link that is there may view it, private or not.
pub can_view_url_of_check_ownership :
    (who : Option Bearer) (u : Link)
    → check_ownership who (found u) ≡ none
    → can_view_url who u ≡ true
unfolding can_view_url can_view check_ownership
can_view_url_of_check_ownership none u h = cc
can_view_url_of_check_ownership (some b) u h =
    view_of_change (is_admin b) (is_org b) (text_eq u.visibility (codes "private")) u.org_id
      u.user_id b.owner_id _ h

-- A bearer is the admin or the owner.
abbrev pub MayChange : Bearer → Link → Type 0
MayChange b u =
    (is_admin b ≡ true)
    ⊎ ((is_org b ≡ true) × (u.org_id ≡ some b.owner_id))
    ⊎ ((is_org b ≡ false) × (u.user_id ≡ some b.owner_id))

-- To a bearer that is neither the admin nor the owner, a link that is there looks like one that is
-- not.
pub check_ownership-hides :
    (b : Bearer) (u : Link)
    → ¬ MayChange b u
    → check_ownership (some b) (found u) ≡ check_ownership (some b) not_found
unfolding check_ownership
check_ownership-hides b u h = elim (Bool-cases (is_admin b)) [
  | inl admin ↦ absurd (h (inl admin))
  | inr other ↦ elim (Bool-cases (is_org b)) [
    | inl org ↦
        rw (other, org, is_other_of_ne u.org_id b.owner_id (λ e. h (inr (inl (org, e))))) refl
    | inr user ↦
        rw (other, user, is_other_of_ne u.user_id b.owner_id (λ e. h (inr (inr (user, e))))) refl
  ]
]

false-ne-true : false ≢ true
false-ne-true e = cc

-- The words of the two kinds of owners differ.
is_org_of_is_user : (b : Bearer) → is_user b ≡ true → is_org b ≡ false
is_org_of_is_user b h =
    text_eq-eq-false (map lower_unit b.owner_type) (codes "org")
      (λ e. words_differ (sym e ∙ (text_eq_iff (map lower_unit b.owner_type) (codes "user")).0 h))
  where
    words_differ : codes "org" ≢ codes "user"
    words_differ e = cc

change_created_for :
    (b : Bearer) (visibility : Text)
    → (is_user b ≡ true) ⊎ (is_org b ≡ true)
    → check_ownership (some b) (found (created_for (some b) visibility)) ≡ none
unfolding check_ownership created_for
change_created_for b visibility (inl user) =
    rw (user, is_org_of_is_user b user, own-is_other b.owner_id) (if_same (is_admin b))
change_created_for b visibility (inr org) = elim (Bool-cases (is_user b)) [
  | inl user ↦ (let no_org = is_org_of_is_user b user in absurd (false-ne-true (sym no_org ∙ org)))
  | inr other ↦ rw (other, org, own-is_other b.owner_id) (if_same (is_admin b))
]

unowned_view :
    (visibility : Text) (b : Bool)
    → b ≡ false
    → (if text_eq visibility (codes "private") then b else true)
      ≡ not (text_eq visibility (codes "private"))
unowned_view visibility b h = elim (Bool-cases (text_eq visibility (codes "private"))) [
  | inl hidden ↦ rw (hidden, h) refl
  | inr shown ↦ rw shown refl
]

no_word_is_org : equal_fold [] "org" ≡ false
unfolding text_eq
no_word_is_org = refl

-- No row has the number 0.
no_row : (n : ℕ) → 0 < n → is_id (some n) 0 ≡ false
no_row n h = elim (Bool-cases (n == 0)) [
  | inl e ↦ absurd (omega (arith, h, (==_iff n 0).0 e))
  | inr e ↦ e
]

-- A reader without a bearer.
no_bearer_view :
    (b : Bearer) (visibility : Text)
    → 0 < b.owner_id
    → can_view_url none (created_for (some b) visibility)
      ≡ not (text_eq visibility (codes "private"))
unfolding can_view_url can_view created_for
no_bearer_view b visibility h = elim (Bool-cases (is_user b)) [
  | inl user ↦
      rw (user, no_word_is_org)
        (unowned_view visibility (is_id (some b.owner_id) 0) (no_row b.owner_id h))
  | inr other ↦ elim (Bool-cases (is_org b)) [
    | inl org ↦ rw (other, org, no_word_is_org) (unowned_view visibility false refl)
    | inr neither ↦ rw (other, neither, no_word_is_org) (unowned_view visibility false refl)
  ]
]

-- A user or an organisation, with a row number above 0, passes both ownership checks on each link
-- that it creates, the handler's and the resolver's, whatever the visibility, and the test of who
-- may view it where its bearer is handed to that test; where none is, as on GET /urls/{code}, the
-- test refuses a private link, and only such a link.
pub check_ownership-created_for :
    (b : Bearer) (visibility : Text)
    → 0 < b.owner_id
    → (is_user b ≡ true) ⊎ (is_org b ≡ true)
    → (check_ownership (some b) (found (created_for (some b) visibility)) ≡ none)
      × (check_url_ownership (some b) (found (created_for (some b) visibility)) ≡ none)
      × (can_view_url (some b) (created_for (some b) visibility) ≡ true)
      × (can_view_url none (created_for (some b) visibility)
          ≡ not (text_eq visibility (codes "private")))
check_ownership-created_for b visibility is_row h =
    let change = change_created_for b visibility h in
    let created = found (created_for (some b) visibility) in
    (
      change,
      check_url_ownership-eq-status (some b) created ∙ ap status change,
      can_view_url_of_check_ownership (some b) (created_for (some b) visibility) change,
      no_bearer_view b visibility is_row,
    )
