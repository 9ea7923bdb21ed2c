-- ===== src/RateLimit/Halves.antt =====
-- `RateLimiter.Allow` in its two halves, src/server/middleware.go: `bucket`, under the lock of the
-- map, and `allow`, under the lock of the bucket. The map holds references to buckets, so a request
-- keeps the bucket that it took when a collection deletes its entry.
pub mod Sound
pub mod Agreement
use caslink.Prelude.{
  ℕ, suc, ◌*◌, ◌≤◌, ◌<◌, Text, text_eq, text_eq_iff, text_eq_refl, Bool, true, false, List, [], ◌∷◌,
  ◌++◌, ◌≡◌, refl, sym, ap, ◌∙◌, arith, Option, none, some, if◌then◌else◌, or_else, Bool-cases, inl,
  inr, ◌==◌, ==_iff, ◌≢◌,
}
use mathlib.Core.Path.{fun_ext}
use caslink.RateLimit.{
  hour, Bucket, Buckets, allow, stored, allow_key, last_before, collect, unless_stale,
}
use caslink.RateLimit.Track.{count_in}
use caslink.RateLimit.Window.{
  Event, request, collection, passed, IsOrdered, IsUnder, stamps, count_in-stamps,
}

-- `buckets` with the references, the buckets that they are to, and the next free reference.
pub record Limiter : Type 0 where
  pub ids : Text → Option ℕ
  pub heap : ℕ → Bucket
  pub free : ℕ

abbrev pub put : ℕ → Bucket → (ℕ → Bucket) → ℕ → Bucket
put i b heap j = if i == j then b else heap j

abbrev pub taken : Text → Limiter → Option ℕ → ℕ × Limiter
taken key l (some i) = (i, l)
taken key l none = (
  l.free,
  record {
    ids = λ k. if text_eq key k then some l.free else l.ids k;
    heap = put l.free [] l.heap;
    free = suc l.free;
  },
)

-- The first half: a missing bucket is made.
unfoldable pub bucket : Text → Limiter → ℕ × Limiter
bucket key l = taken key l (l.ids key)

abbrev pub kept : ℕ → Bucket × Bool → Limiter → Limiter × Bool
kept i (b, answer) l = (record l { heap = put i b l.heap }, answer)

-- The second half, on the bucket that the first half took.
unfoldable pub allow_taken : ℕ → ℕ → ℕ → ℕ → ℕ → Limiter → Limiter × Bool
allow_taken i limit window now later l = kept i (allow limit window now later (l.heap i)) l

abbrev pub live : ℕ → (ℕ → Bucket) → Option ℕ → Option ℕ
live now heap none = none
live now heap (some i) = if last_before now (2 * hour) (heap i) then none else some i

-- One pass of `gc`.
unfoldable pub gc : ℕ → Limiter → Limiter
gc now l = record l { ids = λ k. live now l.heap (l.ids k) }

-- `Allow` where nothing comes between the halves.
abbrev pub allow_both : Text → ℕ → ℕ → ℕ → ℕ → Limiter → Limiter × Bool
allow_both key limit window now later l =
    let (i, l') = bucket key l in allow_taken i limit window now later l'

-- The stamps of what passes under `key`.
unfoldable pub halves : Text → Limiter → List Event → List ℕ
unfolding bucket allow_taken gc
halves key l [] = []
halves key l (request k n w now later ∷ es) =
    let (l', answer) = allow_both k n w now later l in passed key k later answer ++ halves key l' es
halves key l (collection now ∷ es) = halves key (gc now l) es

abbrev pub no_buckets : Limiter
no_buckets = record { ids = λ k. none; heap = λ i. []; free = 0 }

-- References are below the next free one, and no two keys share one.
pub record IsSound (l : Limiter) : Type 0 where
  pub below : (k : Text) (i : ℕ) → l.ids k ≡ some i → i < l.free
  pub apart : (k k' : Text) (i : ℕ) → l.ids k ≡ some i → l.ids k' ≡ some i → k ≡ k'

abbrev pub at : (ℕ → Bucket) → Option ℕ → Option Bucket
at heap none = none
at heap (some i) = some (heap i)

-- The buckets by their keys.
abbrev pub view : Limiter → Buckets
view l k = at l.heap (l.ids k)
