-- ===== src/Tests/Limits.antt =====
-- The rate limiter.
use caslink.Prelude.{
  Bool, text_eq, strip_prefix, true, Option, ◌++◌, ℕ, ◌*◌, ◌≤◌, ◌≡◌, refl, arith, Text, codes, List,
  [], ◌∷◌, none,
}
use caslink.RateLimit.{allow_key, Request, minute, hour}
use caslink.RateLimit.Track.{count_in}
use caslink.RateLimit.Window.{Event, request, collection, stamps}
use caslink.RateLimit.Halves.{Limiter, bucket, allow_taken, gc, allow_both, halves, no_buckets}
use caslink.RateLimit.Halves.Agreement.{count_in-halves}
use caslink.RateLimit.Domains.{IsAddress}
use caslink.RateLimit.Verifications.{Call, call, pass, verified, count_in-verified}

abbrev login : Text
login = codes "1.2.3.4/server/auth/login"

abbrev attempts : List Event
attempts =
    request login 2 (15 * minute) 5 5
    ∷ request login 2 (15 * minute) 6 6
    ∷ collection 7
    ∷ request login 2 (15 * minute) 8 9
    ∷ []

-- The third attempt is refused.
two_pass : stamps login (λ k. none) attempts ≡ 5 ∷ 6 ∷ []
unfolding stamps allow_key text_eq caslink.RateLimit.collect caslink.RateLimit.allow
two_pass = refl

count_in-halves_example : count_in (15 * minute) 5 (halves login no_buckets attempts) ≤ 2
count_in-halves_example =
    count_in-halves 2 (15 * minute) login attempts 5 (omega arith) (omega arith)
      (same, (same, (same, tt)))
  where
    same : login ≡ login → (◌≡◌ {A = ℕ} 2 2) × (15 * minute ≡ 15 * minute)
    same e = (refl, refl)

-- A request that has taken its bucket when the collection deletes the entry.
abbrev orphaned : Limiter × Bool
orphaned = let (i, l) = bucket login no_buckets in allow_taken i 1 minute 6 6 (gc 5 l)

-- With a limit of one, that request passes and so does the next.
both_pass : (orphaned.1 ≡ true) × ((allow_both login 1 minute 7 7 orphaned.0).1 ≡ true)
unfolding bucket allow_taken gc caslink.RateLimit.allow text_eq
both_pass = (refl, refl)

abbrev address : Text
address = codes "1.2.3.4"

-- A request that posts to a path.
abbrev post : Text → Request
post path = record { method = codes "POST"; ip = address; path = path }

abbrev calls : List Call
calls =
    call (post (codes "/orgs/a/domains/b/verify")) 5 6
    ∷ call (post (codes "/orgs/a/domains")) 7 7
    ∷ pass 8
    ∷ call (post (codes "/orgs/a/domains/c/verify")) 9 9
    ∷ []

-- Two of the requests verify a domain.
two_verified : verified address (λ k. none) calls ≡ 6 ∷ 9 ∷ []
unfolding verified caslink.RateLimit.rate_limit_middleware caslink.RateLimit.rule_for
    caslink.RateLimit.collect caslink.RateLimit.allow_key caslink.RateLimit.allow text_eq
    strip_prefix caslink.Prelude.contains
two_verified = refl

count_in-verified_example : count_in hour 6 (verified address (λ k. none) calls) ≤ 15
count_in-verified_example =
    count_in-verified address calls 6 is_address
      (is_address, refl, (is_address, refl, (is_address, refl, tt))) (omega arith)
  where
    is_address : IsAddress address
    is_address = (refl, (refl, (refl, (refl, (refl, (refl, (refl, tt)))))))
