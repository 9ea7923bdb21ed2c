-- ===== src/UserName/Email/Shape.antt =====
-- The texts that pass as addresses.
use caslink.Prelude.{
  ℕ, ◌≤◌, ◌≡◌, ◌≢◌, ◌↔◌, refl, ◌∙◌, ap, arith, Text, Bool, true, false, [], ◌∷◌, ◌++◌, ◌||◌, ◌&&◌,
  ◌==◌, ==_iff, leb, Option, none, some, if◌then◌else◌, length, all, All, is_lower,
}
use caslink.OrgSlug.{GoText}
use caslink.UserName.Email.{
  EmailError, required, invalid, is_local, is_host, match_top, match_host, match_at, match_email,
  check_email, validate_email,
}

-- A name, an at sign, a host, a dot and a top domain of two letters or more.
pub record IsAddress (t : Text) : Type 0 where
  pub name : Text
  pub host : Text
  pub top : Text
  pub split : t ≡ name ++ b'@' ∷ host ++ b'.' ∷ top
  pub some_name : name ≢ []
  pub some_host : host ≢ []
  pub is_name : All (λ c. is_local c ≡ true) name
  pub is_domain : All (λ c. is_host c ≡ true) host
  pub two_letters : 2 ≤ length top
  pub are_letters : All (λ c. is_lower c ≡ true) top

both : (a b : Bool) → a && b ≡ true → (a ≡ true) × (b ≡ true)
both true b h = (refl, h)
both false b h = absurd (cc)

all-All : (s : Text) → all is_lower s ≡ true → All (λ c. is_lower c ≡ true) s
all-All [] h = tt
all-All (c ∷ s) h = let parts = both (is_lower c) (all is_lower s) h in (parts.0, all-All s parts.1)

All-all : (s : Text) → All (λ c. is_lower c ≡ true) s → all is_lower s ≡ true
All-all [] h = refl
All-all (c ∷ s) h = rw (h.0, All-all s h.1) refl

-- A host and a top domain.
record IsDomain (t : Text) : Type 0 where
  host : Text
  top : Text
  split : t ≡ host ++ b'.' ∷ top
  some_host : host ≢ []
  is_domain : All (λ c. is_host c ≡ true) host
  two_letters : 2 ≤ length top
  are_letters : All (λ c. is_lower c ≡ true) top

match_top-letters :
    (c : ℕ) (s : Text)
    → match_top (c ∷ s) ≡ true
    → (c ≡ b'.') × (2 ≤ length s) × All (λ d. is_lower d ≡ true) s
match_top-letters c s h =
    let first = both (c == b'.') (leb 2 (length s) && all is_lower s) h in
    let rest = both (leb 2 (length s)) (all is_lower s) first.1 in
    ((==_iff c b'.').0 first.0, (let enough = rest.0 in ground arith), all-All s rest.1)

match_host-IsDomain : (s : Text) → match_host s ≡ true → IsDomain s
unfolding match_host
match_host-IsDomain [] h = absurd (cc)
match_host-IsDomain (c ∷ s) h =
    let parts = both (is_host c) (match_top s || match_host s) h in
    behind c s parts.0 (match_top s) (match_host s) refl parts.1 (match_host-IsDomain s)
  where
    behind :
        (c : ℕ) (s : Text)
        → is_host c ≡ true
        → (b d : Bool) → match_top s ≡ b
        → b || d ≡ true
        → (d ≡ true → IsDomain s)
        → IsDomain (c ∷ s)
    behind c [] first true d e h later = absurd (cc)
    behind c (a ∷ s) first true d e h later =
        let top = match_top-letters a s e in
        record {
          host = c ∷ [];
          top = s;
          split = ap (λ (x : ℕ). c ∷ x ∷ s) top.0;
          some_host = λ nothing. cc;
          is_domain = (first, tt);
          two_letters = top.1;
          are_letters = top.2;
        }
    behind c s first false d e h later =
        let l = later h in
        record {
          host = c ∷ l.host;
          top = l.top;
          split = ap (c ∷◌) l.split;
          some_host = λ nothing. cc;
          is_domain = (first, l.is_domain);
          two_letters = l.two_letters;
          are_letters = l.are_letters;
        }

or_true : (b : Bool) → b || true ≡ true
or_true true = refl
or_true false = refl

match_host-later :
    (c : ℕ) (s : Text) → is_host c ≡ true → match_host s ≡ true → match_host (c ∷ s) ≡ true
unfolding match_host
match_host-later c s first later = rw (first, later) (or_true (match_top s))

match_email-later :
    (c : ℕ) (s : Text) → is_local c ≡ true → match_email s ≡ true → match_email (c ∷ s) ≡ true
unfolding match_email
match_email-later c s first later = rw (first, later) (or_true (match_at s))

IsDomain-match_host : (s : Text) → IsDomain s → match_host s ≡ true
IsDomain-match_host s d = ap match_host d.split ∙ long d.host d.some_host d.is_domain
  where
    at_top : match_top (b'.' ∷ d.top) ≡ true
    at_top =
        let enough : leb 2 (length d.top) ≡ true = (let h = d.two_letters in ground arith) in
        rw (enough, All-all d.top d.are_letters) refl

    long :
        (h : Text) → h ≢ [] → All (λ c. is_host c ≡ true) h → match_host (h ++ b'.' ∷ d.top) ≡ true
    long [] some_host hosts = absurd (some_host refl)
    long (c ∷ []) some_host hosts = unfold match_host in rw (hosts.0, at_top) refl
    long (c ∷ e ∷ h) some_host hosts =
        match_host-later c (e ∷ h ++ b'.' ∷ d.top) hosts.0 (long (e ∷ h) (λ nothing. cc) hosts.1)

IsAddress-behind :
    (c : ℕ) (s : Text)
    → is_local c ≡ true
    → (b d : Bool) → match_at s ≡ b
    → b || d ≡ true
    → (d ≡ true → IsAddress s)
    → IsAddress (c ∷ s)
IsAddress-behind c [] first true d e h later = absurd (cc)
IsAddress-behind c (a ∷ s) first true d e h later =
    let at = both (a == b'@') (match_host s) e in
    let domain = match_host-IsDomain s at.1 in
    record {
      name = c ∷ [];
      host = domain.host;
      top = domain.top;
      split =
          ap (λ (x : ℕ). c ∷ x ∷ s) ((==_iff a b'@').0 at.0)
          ∙ ap (λ (t : Text). c ∷ b'@' ∷ t) domain.split;
      some_name = λ nothing. cc;
      some_host = domain.some_host;
      is_name = (first, tt);
      is_domain = domain.is_domain;
      two_letters = domain.two_letters;
      are_letters = domain.are_letters;
    }
IsAddress-behind c s first false d e h later =
    let l = later h in
    record {
      name = c ∷ l.name;
      host = l.host;
      top = l.top;
      split = ap (c ∷◌) l.split;
      some_name = λ nothing. cc;
      some_host = l.some_host;
      is_name = (first, l.is_name);
      is_domain = l.is_domain;
      two_letters = l.two_letters;
      are_letters = l.are_letters;
    }

match_email-IsAddress : (s : Text) → match_email s ≡ true → IsAddress s
unfolding match_email
match_email-IsAddress [] h = absurd (cc)
match_email-IsAddress (c ∷ s) h =
    let parts = both (is_local c) (match_at s || match_email s) h in
    IsAddress-behind c s parts.0 (match_at s) (match_email s) refl parts.1 (match_email-IsAddress s)

IsAddress-match_email : (s : Text) → IsAddress s → match_email s ≡ true
IsAddress-match_email s a = ap match_email a.split ∙ long a.name a.some_name a.is_name
  where
    behind : match_host (a.host ++ b'.' ∷ a.top) ≡ true
    behind = IsDomain-match_host (a.host ++ b'.' ∷ a.top) (record {
      host = a.host;
      top = a.top;
      split = refl;
      some_host = a.some_host;
      is_domain = a.is_domain;
      two_letters = a.two_letters;
      are_letters = a.are_letters;
    })

    long :
        (n : Text)
        → n ≢ []
        → All (λ c. is_local c ≡ true) n
        → match_email (n ++ b'@' ∷ a.host ++ b'.' ∷ a.top) ≡ true
    long [] some_name names = absurd (some_name refl)
    long (c ∷ []) some_name names = unfold match_email in rw (names.0, behind) refl
    long (c ∷ e ∷ n) some_name names =
        match_email-later c (e ∷ n ++ b'@' ∷ a.host ++ b'.' ∷ a.top) names.0
          (long (e ∷ n) (λ nothing. cc) names.1)

-- What is said of a text that is not empty.
abbrev verdict : Bool → Option EmailError
verdict matched = if matched then none else some invalid

verdict-cases :
    (c : ℕ) (s : Text) (matched : Bool)
    → ((verdict matched ≡ none) ↔ (matched ≡ true))
      × ((verdict matched ≡ some required) ↔ (c ∷ s ≡ []))
verdict-cases c s true = ((λ h. refl, λ h. refl), (λ h. absurd (cc), λ h. absurd (cc)))
verdict-cases c s false =
    ((λ h. absurd (cc), λ h. absurd (cc)), (λ h. absurd (cc), λ h. absurd (cc)))

check_email_cases :
    (s : Text)
    → ((check_email s ≡ none) ↔ (match_email s ≡ true))
      × ((check_email s ≡ some required) ↔ (s ≡ []))
unfolding check_email match_email
check_email_cases [] = ((λ h. absurd (cc), λ h. absurd (cc)), (λ h. refl, λ h. refl))
check_email_cases (c ∷ s) = verdict-cases c s (match_email (c ∷ s))

-- On every text, `ValidateEmail` returns nil exactly if the lower-case text without surrounding space
-- is a name, an at sign, a host, a dot and a top domain of two letters or more, and it says that an
-- address is required exactly if nothing is left of the text.
pub validate_email_iff :
    (go : GoText) (email : Text)
    → ((validate_email go email ≡ none) ↔ IsAddress (go.to_lower (go.trim_space email)))
      × ((validate_email go email ≡ some required) ↔ (go.to_lower (go.trim_space email) ≡ []))
unfolding validate_email check_email
validate_email_iff go email =
    let left = go.to_lower (go.trim_space email) in
    let cases = check_email_cases left in
    (
      (
        λ h. match_email-IsAddress left (cases.0.0 h),
        λ a. cases.0.1 (IsAddress-match_email left a),
      ),
      cases.1,
    )
