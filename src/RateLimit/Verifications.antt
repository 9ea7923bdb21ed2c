-- ===== src/RateLimit/Verifications.antt =====
-- How many domain verifications of one address pass `RateLimitMiddleware`.
use caslink.Prelude.{
  ℕ, ◌≤◌, Text, codes, text_eq, text_eq_iff, Bool, true, false, not, List, [], ◌∷◌, ◌++◌, ◌&&◌, ◌≡◌,
  refl, ap, sym, ◌∙◌, arith, Option, none, some, if◌then◌else◌, Bool-cases, inl, inr,
}
use caslink.RateLimit.{
  Buckets, Rule, Request, Answer, next, too_many_requests, hour, allow_key, collect, rule_for,
  answered, limited, rate_limit_middleware,
}
use caslink.RateLimit.Track.{count_in}
use caslink.RateLimit.Window.{
  Event, request, collection, passed, IsOrdered, IsUnder, stamps, count_in-stamps,
}
use caslink.RateLimit.Domains.{
  starts_slash, IsAddress, text_eq-append, verify_suffix, verify_name, IsFound, Found,
  rule_for-Found,
}
use caslink.RateLimit.VerifyPaths.{is_named, is_verify_path, is_verify_path-is_named}

-- A request at the two readings of the clock, or a pass of the collection.
pub data Call : Type 0 where
  call : Request → ℕ → ℕ → Call
  pass : ℕ → Call

-- A request that asks for the verification of a domain.
abbrev pub is_verification : Request → Bool
is_verification r = not (text_eq r.method (codes "GET")) && is_verify_path r.path

abbrev pub stamp_if : Bool → ℕ → Answer → List ℕ
stamp_if b later next = if b then later ∷ [] else []
stamp_if b later too_many_requests = []

-- The stamps of the verifications from `ip` that reach the next handler.
unfoldable pub verified : Text → Buckets → List Call → List ℕ
verified ip s [] = []
verified ip s (call r now later ∷ cs) =
    let (s', answer) = rate_limit_middleware r now later s in
    stamp_if (is_verification r && text_eq r.ip ip) later answer ++ verified ip s' cs
verified ip s (pass now ∷ cs) = verified ip (collect now s) cs

-- Addresses hold neither a slash nor a bar, and paths start with a slash.
abbrev pub IsClean : List Call → Type 0
IsClean [] = Unit
IsClean (call r now later ∷ cs) = IsAddress r.ip × (starts_slash r.path ≡ true) × IsClean cs
IsClean (pass now ∷ cs) = IsClean cs

-- The clock never goes back.
abbrev pub IsInOrder : ℕ → List Call → Type 0
IsInOrder T [] = Unit
IsInOrder T (call r now later ∷ cs) = (T ≤ now) × (now ≤ later) × IsInOrder later cs
IsInOrder T (pass now ∷ cs) = (T ≤ now) × IsInOrder now cs

abbrev event_of : Option (Text × Rule) → ℕ → ℕ → List Event
event_of none now later = []
event_of (some (key, rule)) now later = request key rule.limit rule.window now later ∷ []

abbrev events_of_call : Request → ℕ → ℕ → List Event
events_of_call r now later =
    if text_eq r.method (codes "GET") then [] else event_of (rule_for r.ip r.path) now later

-- What the limiter sees.
abbrev events_of : List Call → List Event
events_of [] = []
events_of (call r now later ∷ cs) = events_of_call r now later ++ events_of cs
events_of (pass now ∷ cs) = collection now ∷ events_of cs

IsOrdered-earlier : (T T' : ℕ) (es : List Event) → T ≤ T' → IsOrdered T' es → IsOrdered T es
IsOrdered-earlier T T' [] l h = tt
IsOrdered-earlier T T' (request k n w now later ∷ es) l h = (omega (arith, l, h.0), h.1, h.2)
IsOrdered-earlier T T' (collection now ∷ es) l h = (omega (arith, l, h.0), h.1)

event_of-IsOrdered :
    (T now later : ℕ) (o : Option (Text × Rule)) (es : List Event)
    → T ≤ now
    → now ≤ later
    → IsOrdered later es
    → IsOrdered T (event_of o now later ++ es)
event_of-IsOrdered T now later none es l m h = IsOrdered-earlier T later es (omega (arith, l, m)) h
event_of-IsOrdered T now later (some (key, rule)) es l m h = (l, m, h)

events_of-IsOrdered : (T : ℕ) (cs : List Call) → IsInOrder T cs → IsOrdered T (events_of cs)
events_of-IsOrdered T [] h = tt
events_of-IsOrdered T (call r now later ∷ cs) h =
    elim (Bool-cases (text_eq r.method (codes "GET"))) [
      | inl get ↦ rw get (
          IsOrdered-earlier T later (events_of cs) (omega (arith, h.0, h.1))
            (events_of-IsOrdered later cs h.2))
      | inr other ↦ rw other (
          event_of-IsOrdered T now later (rule_for r.ip r.path) (events_of cs) h.0 h.1
            (events_of-IsOrdered later cs h.2))
    ]
events_of-IsOrdered T (pass now ∷ cs) h = (h.0, events_of-IsOrdered now cs h.1)

swapped : (a : Bool) {b c : Bool} → b ≡ c → (a && b) ≡ (c && a)
swapped a {b} {c} e = ground (arith, e)

both_hold : {b c : Bool} → (b && c) ≡ true → (b ≡ true) × (c ≡ true)
both_hold {b} {c} e = ground (arith, e)

answered_state : (p : Buckets × Bool) → (answered p).0 ≡ p.0
answered_state (s, true) = refl
answered_state (s, false) = refl

module _ (ip : Text) (is_address : IsAddress ip) where
  abbrev key : Text
  key = ip ++ verify_suffix

  same_key :
      (ip' key' : Text) (rule : Rule)
      → IsAddress ip'
      → IsFound ip' key' rule
      → text_eq key' key ≡ (text_eq rule.name verify_name && text_eq ip' ip)
  same_key ip' key' rule a f =
      ap (λ k. text_eq k key) f.built
      ∙ text_eq-append ip' ip f.suffix verify_suffix a is_address f.separated refl
      ∙ swapped (text_eq ip' ip) f.is_verify

  event_of-IsUnder :
      (ip' : Text) (o : Option (Text × Rule)) (now later : ℕ) (es : List Event)
      → IsAddress ip'
      → Found ip' o
      → IsUnder key 15 hour es
      → IsUnder key 15 hour (event_of o now later ++ es)
  event_of-IsUnder ip' none now later es a f h = h
  event_of-IsUnder ip' (some (key', rule)) now later es a f h = (
    (λ e. f.limits (both_hold (sym (same_key ip' key' rule a f) ∙ (text_eq_iff key' key).1 e)).0),
    h,
  )

  events_of-IsUnder : (cs : List Call) → IsClean cs → IsUnder key 15 hour (events_of cs)
  events_of-IsUnder [] h = tt
  events_of-IsUnder (call r now later ∷ cs) h = elim (Bool-cases (text_eq r.method (codes "GET"))) [
    | inl get ↦ rw get (events_of-IsUnder cs h.2)
    | inr other ↦ rw other (
        event_of-IsUnder r.ip (rule_for r.ip r.path) now later (events_of cs) h.0
          (rule_for-Found r.ip r.path h.1) (events_of-IsUnder cs h.2))
  ]
  events_of-IsUnder (pass now ∷ cs) h = events_of-IsUnder cs h

  answered-passed :
      (key' : Text) (p : Buckets × Bool) (b : Bool) (later : ℕ)
      → text_eq key' key ≡ b
      → stamp_if b later (answered p).1 ≡ passed key key' later p.1
  answered-passed key' (s, true) b later e = rw e refl
  answered-passed key' (s, false) b later e = refl

  limited-stamps :
      (ip' : Text) (o : Option (Text × Rule)) (now later : ℕ) (s : Buckets) (cs : List Call)
      → IsAddress ip'
      → Found ip' o
      → ((s' : Buckets) → verified ip s' cs ≡ stamps key s' (events_of cs))
      → (let (s', answer) = limited o now later s in
          stamp_if (is_named o && text_eq ip' ip) later answer ++ verified ip s' cs)
        ≡ stamps key s (event_of o now later ++ events_of cs)
  unfolding stamps
  limited-stamps ip' none now later s cs a f rest = rest s
  limited-stamps ip' (some (key', rule)) now later s cs a f rest =
      let p = allow_key key' rule.limit rule.window now later s in
      rw
        (
          answered-passed key' p _ later (same_key ip' key' rule a f),
          rest (answered p).0,
          answered_state p,
        )
        refl

  verified-stamps :
      (cs : List Call) (s : Buckets) → IsClean cs → verified ip s cs ≡ stamps key s (events_of cs)
  unfolding verified rate_limit_middleware stamps
  verified-stamps [] s h = refl
  verified-stamps (call r now later ∷ cs) s h = elim (Bool-cases (text_eq r.method (codes "GET"))) [
    | inl get ↦ rw get (verified-stamps cs s h.2)
    | inr other ↦ rw other (
        rw (sym (is_verify_path-is_named r.ip r.path)) (
          limited-stamps r.ip (rule_for r.ip r.path) now later s cs h.0
            (rule_for-Found r.ip r.path h.1) (λ s'. verified-stamps cs s' h.2)))
  ]
  verified-stamps (pass now ∷ cs) s h = verified-stamps cs (collect now s) h

-- When the addresses of the requests hold neither a slash nor a bar, their paths start with a slash,
-- the clock never goes back and no collection comes between the moment a request takes its bucket
-- and the one it asks it, at most 15 requests of an address that ask for the verification of a
-- domain reach the next handler in any hour, whatever else it asks for, whatever the others do and
-- whenever else the collection passes.
pub count_in-verified :
    (ip : Text) (cs : List Call) (x : ℕ)
    → IsAddress ip
    → IsClean cs
    → IsInOrder 0 cs
    → count_in hour x (verified ip (λ k. none) cs) ≤ 15
count_in-verified ip cs x a h o = rw (verified-stamps ip a cs (λ k. none) h) (
    count_in-stamps 15 hour (key ip a) (events_of cs) x (omega arith) (events_of-IsOrdered 0 cs o)
      (events_of-IsUnder ip a cs h))
