-- ===== src/RateLimit.antt =====
-- The rate limiter of src/server/middleware.go: `rateBucket`, `RateLimiter`, and the choice of the
-- rule in `RateLimitMiddleware`. Times are nanoseconds. Here a request takes its bucket from the
-- map and asks it in one step, which holds as long as no collection comes between the two; Halves
-- has the two steps. The metrics are left out.
pub mod Track
pub mod Window
pub mod Halves
pub mod Domains
pub mod VerifyPaths
pub mod Verifications
use caslink.Prelude.{
  ℕ, ◌+◌, ◌*◌, Text, codes, text_eq, strip_prefix, Bool, true, false, List, [], ◌∷◌, ◌++◌, ◌&&◌,
  Option, none, some, if◌then◌else◌, ltb, leb, length, keep_if, is_nil, is_some, or_else, contains,
}

abbrev pub minute : ℕ
minute = 60 * 1_000_000_000

abbrev pub hour : ℕ
hour = 60 * minute

-- `requests` of a bucket, the oldest first.
abbrev pub Bucket : Type 0
Bucket = List ℕ

-- `t.After(time.Now().Add(-window))`
abbrev pub is_fresh : ℕ → ℕ → ℕ → Bool
is_fresh window now t = ltb now (t + window)

-- `allow`: `now` is the first reading of the clock and `later` the second.
unfoldable pub allow : ℕ → ℕ → ℕ → ℕ → Bucket → Bucket × Bool
allow limit window now later b =
    let valid = keep_if (is_fresh window now) b in
    if leb limit (length valid) then (valid, false) else (valid ++ later ∷ [], true)

-- `buckets`
abbrev pub Buckets : Type 0
Buckets = Text → Option Bucket

abbrev pub store : Text → Bucket → Buckets → Buckets
store key b s k = if text_eq key k then some b else s k

abbrev pub stored : Text → Bucket × Bool → Buckets → Buckets × Bool
stored key (b, answer) s = (store key b s, answer)

-- `Allow`, with no collection between its halves; a missing bucket is made empty.
unfoldable pub allow_key : Text → ℕ → ℕ → ℕ → ℕ → Buckets → Buckets × Bool
unfolding allow
allow_key key limit window now later s =
    stored key (allow limit window now later (or_else (s key) [])) s

abbrev pub last_before : ℕ → ℕ → Bucket → Bool
last_before now age [] = true
last_before now age (t ∷ []) = ltb (t + age) now
last_before now age (t ∷ u ∷ b) = last_before now age (u ∷ b)

abbrev pub unless_stale : ℕ → Option Bucket → Option Bucket
unless_stale now none = none
unless_stale now (some b) = if last_before now (2 * hour) b then none else some b

-- One pass of `gc`: buckets without a request, or whose last request is older than two hours, are
-- deleted.
unfoldable pub collect : ℕ → Buckets → Buckets
collect now s key = unless_stale now (s key)

-- A rule: limit, window and name.
pub record Rule : Type 0 where
  pub limit : ℕ
  pub window : ℕ
  pub name : Text

abbrev pub has_suffix : Text → Text → Bool
has_suffix suffix [] = text_eq suffix []
has_suffix suffix (c ∷ s) = if text_eq suffix (c ∷ s) then true else has_suffix suffix s

-- The rules for a text within the path, with a bucket for each address and path.
abbrev pub rule_within : Text → Text → Option (Text × Rule)
rule_within ip path =
    if contains (codes "/login") path
    then some (ip ++ path, record { limit = 5; window = 15 * minute; name = codes "login" })
    else if contains (codes "/register") path
    then some (ip ++ path, record { limit = 5; window = hour; name = codes "register" })
    else if contains (codes "/password") path
    then some (ip ++ path, record { limit = 3; window = hour; name = codes "password" })
    else if contains (codes "/2fa") path
    then some (ip ++ path, record { limit = 5; window = 15 * minute; name = codes "2fa" })
    else none

-- The switch of `RateLimitMiddleware`: the key of the bucket and the rule, or none, which lets the
-- request pass. The rules for domains come first, with one bucket for each address.
unfoldable pub rule_for : Text → Text → Option (Text × Rule)
rule_for ip path =
    if has_suffix (codes "/domains") path
    then some
        (ip ++ codes "|domain_add", record { limit = 10; window = hour; name = codes "domain_add" })
    else if contains (codes "/domains/") path && has_suffix (codes "/verify") path
    then some (
      ip ++ codes "|domain_verify",
      record { limit = 15; window = hour; name = codes "domain_verify" },
    )
    else rule_within ip path

pub record Request : Type 0 where
  pub method : Text
  pub ip : Text
  pub path : Text

pub data Answer : Type 0 where
  next too_many_requests : Answer

abbrev pub answered : Buckets × Bool → Buckets × Answer
answered (s, true) = (s, next)
answered (s, false) = (s, too_many_requests)

abbrev pub limited : Option (Text × Rule) → ℕ → ℕ → Buckets → Buckets × Answer
limited none now later s = (s, next)
limited (some (key, r)) now later s = answered (allow_key key r.limit r.window now later s)

-- `RateLimitMiddleware`: the next handler runs, or 429.
unfoldable pub rate_limit_middleware : Request → ℕ → ℕ → Buckets → Buckets × Answer
rate_limit_middleware r now later s =
    if text_eq r.method (codes "GET") then (s, next) else limited (rule_for r.ip r.path) now later s
