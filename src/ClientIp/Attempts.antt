-- ===== src/ClientIp/Attempts.antt =====
-- The address of a client and the limiter together.
use caslink.Prelude.{
  ℕ, ◌<◌, Text, codes, text_eq, strip_prefix, Bool, true, false, List, [], ◌∷◌, ◌++◌, ◌≡◌, ◌≢◌,
  refl, Option, none, All, replicate, length, contains, map,
}
use caslink.OrgSlug.{GoText}
use caslink.ClientIp.{Request, real_ip, real_ip_middleware}
use caslink.ClientIp.Peers.{IsWithout, real_ip-claimed}
use caslink.RateLimit.{
  Bucket, Buckets, Answer, next, minute, allow, stored, allow_key, store, rule_for, answered,
  limited, rate_limit_middleware,
}
use caslink.RateLimit.Domains.{IsAddress, text_eq-append}

-- A request without the address.
abbrev pub post_to : Text → Text → caslink.RateLimit.Request
post_to path ip = record { method = codes "POST"; ip = ip; path = path }

module _ (go : GoText) (is_trusted : Text → Bool) where
  -- Requests to a path through `realIPMiddleware` and then `RateLimitMiddleware`, all at one time.
  unfoldable pub attempts : Text → ℕ → Buckets → List Request → List Answer
  attempts path now s [] = []
  attempts path now s (r ∷ rs) =
      let ip = real_ip go (real_ip_middleware go is_trusted r) in
      let (s', answer) = rate_limit_middleware (post_to path ip) now now s in
      answer ∷ attempts path now s' rs

abbrev pub login_path : Text
login_path = codes "/server/auth/login"

-- What a trusted proxy that appends its peer makes of a claim.
abbrev pub forwarded : Text → Text → Text → Request
forwarded proxy peer claim = record {
  remote_addr = proxy;
  x_forwarded_for = claim ++ b',' ∷ b' ' ∷ peer;
  x_real_ip = [];
}

-- A claim that looks like an address.
pub record IsClaim (claim : Text) : Type 0 where
  pub without_comma : IsWithout b',' claim
  pub visible : All (λ c. (32 < c) × (c < 127)) claim
  pub is_address : IsAddress claim
  pub some_text : claim ≢ []

-- Each differs from all behind it.
abbrev pub AreDistinct : List Text → Type 0
AreDistinct [] = Unit
AreDistinct (c ∷ cs) = All (λ d. text_eq c d ≡ false) cs × AreDistinct cs

-- No attempt under these claims yet.
abbrev Fresh : Buckets → List Text → Type 0
Fresh s cs = All (λ c. s (c ++ login_path) ≡ none) cs

first_attempt :
    (ip : Text) (now : ℕ) (s : Buckets)
    → s (ip ++ login_path) ≡ none
    → rate_limit_middleware (post_to login_path ip) now now s
      ≡ (store (ip ++ login_path) (now ∷ []) s, next)
unfolding rate_limit_middleware rule_for allow_key allow text_eq strip_prefix contains
first_attempt ip now s h = rw h refl

keeps_Fresh :
    (ip : Text) (b : Bucket) (s : Buckets) (cs : List Text)
    → IsAddress ip
    → All IsClaim cs
    → All (λ d. text_eq ip d ≡ false) cs
    → Fresh s cs
    → Fresh (store (ip ++ login_path) b s) cs
keeps_Fresh ip b s [] a hs ds f = tt
keeps_Fresh ip b s (c ∷ cs) a hs ds f = (
  rw (text_eq-append ip c login_path login_path a hs.0.is_address refl refl, ds.0) f.0,
  keeps_Fresh ip b s cs a hs.1 ds.1 f.1,
)

module _ (go : GoText) (is_trusted : Text → Bool) (proxy peer : Text)
    (trusted : is_trusted proxy ≡ true) where
  attempts-Fresh :
      (now : ℕ) (cs : List Text) (s : Buckets)
      → All IsClaim cs
      → AreDistinct cs
      → Fresh s cs
      → attempts go is_trusted login_path now s (map (forwarded proxy peer) cs)
        ≡ replicate (length cs) next
  unfolding attempts
  attempts-Fresh now [] s hs ds f = refl
  attempts-Fresh now (c ∷ cs) s hs ds f =
      rw
        (
          real_ip-claimed go is_trusted c peer (forwarded proxy peer c) hs.0.without_comma
              hs.0.visible hs.0.some_text refl trusted,
          first_attempt c now s f.0,
          attempts-Fresh now cs (store (c ++ login_path) (now ∷ []) s) hs.1 ds.1
              (keeps_Fresh c (now ∷ []) s cs hs.0.is_address hs.1 ds.0 f.1),
        )
        refl

  -- Behind a trusted proxy that appends the address of its peer to the header `X-Forwarded-For`,
  -- one client passes the limiter with as many attempts to log in as it likes at one time, if it
  -- writes another text into the header with each: visible ASCII without a comma, slash or bar, and
  -- not empty.
  pub attempts-forwarded :
      (now : ℕ) (cs : List Text)
      → All IsClaim cs
      → AreDistinct cs
      → attempts go is_trusted login_path now (λ k. none) (map (forwarded proxy peer) cs)
        ≡ replicate (length cs) next
  attempts-forwarded now cs hs ds = attempts-Fresh now cs (λ k. none) hs ds (none_yet cs)
    where
      none_yet : (cs : List Text) → All (λ c. ◌≡◌ {A = Option Bucket} none none) cs
      none_yet [] = tt
      none_yet (c ∷ cs) = (refl, none_yet cs)
