-- ===== src/RateLimit/Halves/Agreement.antt =====
-- The limiter with its references, src/server/middleware.go, against a map from keys to buckets.
use caslink.Prelude.{
  ℕ, ◌*◌, ◌≤◌, Text, text_eq, text_eq_iff, text_eq_refl, Bool, true, false, List, [], ◌∷◌, ◌++◌,
  ◌≡◌, refl, sym, ap, ◌∙◌, arith, Option, none, some, or_else, Bool-cases, inl, inr, ◌==◌, ==_iff,
  ◌≢◌,
}
use mathlib.Core.Path.{fun_ext}
use caslink.RateLimit.{
  hour, Bucket, Buckets, allow, stored, allow_key, last_before, collect, unless_stale,
}
use caslink.RateLimit.Track.{count_in}
use caslink.RateLimit.Window.{
  Event, request, collection, passed, IsOrdered, IsUnder, stamps, count_in-stamps,
}
use caslink.RateLimit.Halves.{
  Limiter, put, taken, bucket, kept, allow_taken, live, gc, allow_both, halves, no_buckets, IsSound,
  at, view,
}
use caslink.RateLimit.Halves.Sound.{kept-IsSound, taken-IsSound, gc-IsSound, empty-IsSound}

put_same : (i : ℕ) (b : Bucket) (heap : ℕ → Bucket) → put i b heap i ≡ b
put_same i b heap = rw ((==_iff i i).1 refl) refl

put_other : (i j : ℕ) (b : Bucket) (heap : ℕ → Bucket) → i ≢ j → put i b heap j ≡ heap j
put_other i j b heap h = elim (Bool-cases (i == j)) [
  | inl e ↦ absurd (h ((==_iff i j).0 e))
  | inr e ↦ rw e refl
]

at_other :
    (i : ℕ) (b : Bucket) (heap : ℕ → Bucket) (o : Option ℕ)
    → o ≢ some i
    → at (put i b heap) o ≡ at heap o
at_other i b heap none h = refl
at_other i b heap (some j) h = ap some (put_other i j b heap (λ e. h (ap some (sym e))))

-- A request that has its bucket.
kept-stored :
    (key : Text) (i : ℕ) (r : Bucket × Bool) (l : Limiter)
    → IsSound l
    → l.ids key ≡ some i
    → (k : Text) → view (kept i r l).0 k ≡ (stored key r (view l)).0 k
kept-stored key i (b, answer) l sound e k = elim (Bool-cases (text_eq key k)) [
  | inl same ↦
      rw (same, sym (ap l.ids ((text_eq_iff key k).0 same)) ∙ e) (ap some (put_same i b l.heap))
  | inr other ↦
      rw other (at_other i b l.heap (l.ids k) (λ h. differ other (sound.apart key k i e h)))
]
  where
    differ : {k : Text} → text_eq key k ≡ false → key ≢ k
    differ {k} other same = clash (sym other ∙ (text_eq_iff key k).1 same)
      where
        clash : false ≢ true
        clash h = cc

taken-id :
    (key : Text) (l : Limiter) (o : Option ℕ)
    → l.ids key ≡ o
    → (taken key l o).1.ids key ≡ some (taken key l o).0
taken-id key l (some i) e = e
taken-id key l none e = rw (text_eq_refl key) refl

taken-heap :
    (key : Text) (l : Limiter) (o : Option ℕ)
    → (taken key l o).1.heap (taken key l o).0 ≡ or_else (at l.heap o) []
taken-heap key l (some i) = refl
taken-heap key l none = put_same l.free [] l.heap

-- Making an empty bucket shows under its own key only.
taken-stored :
    (key : Text) (l : Limiter) (o : Option ℕ) (r : Bucket × Bool)
    → l.ids key ≡ o
    → IsSound l
    → (k : Text) → (stored key r (view (taken key l o).1)).0 k ≡ (stored key r (view l)).0 k
taken-stored key l (some i) r e sound k = refl
taken-stored key l none (b, answer) e sound k = elim (Bool-cases (text_eq key k)) [
  | inl same ↦ rw same refl
  | inr other ↦
      rw other
        (at_other l.free [] l.heap (l.ids k) (λ h. absurd (omega (arith, sound.below k l.free h))))
]

answer-stored :
    (key : Text) (i : ℕ) (r : Bucket × Bool) (l : Limiter) (s : Buckets)
    → (kept i r l).1 ≡ (stored key r s).1
answer-stored key i (b, answer) l s = refl

module _ (key : Text) (n w now later : ℕ) (l : Limiter) (sound : IsSound l) where
  abbrev own : ℕ × Limiter
  own = taken key l (l.ids key)

  abbrev result : Bucket × Bool
  result = allow n w now later (own.1.heap own.0)

  result-is : result ≡ allow n w now later (or_else (view l key) [])
  result-is = ap (allow n w now later) (taken-heap key l (l.ids key))

  both-IsSound : IsSound (allow_both key n w now later l).0
  unfolding bucket allow_taken
  both-IsSound = kept-IsSound own.0 result own.1 (taken-IsSound key l (l.ids key) refl sound)

  both-answer : (allow_both key n w now later l).1 ≡ (allow_key key n w now later (view l)).1
  unfolding bucket allow_taken allow_key
  both-answer =
      answer-stored key own.0 result own.1 (view l)
      ∙ ap (λ (r : Bucket × Bool). (stored key r (view l)).1) result-is

  both-view : view (allow_both key n w now later l).0 ≡ (allow_key key n w now later (view l)).0
  unfolding bucket allow_taken allow_key
  both-view = fun_ext (λ k.
      kept-stored key own.0 result own.1 (taken-IsSound key l (l.ids key) refl sound)
        (taken-id key l (l.ids key) refl) k
      ∙ taken-stored key l (l.ids key) result refl sound k
      ∙ ap (λ (r : Bucket × Bool). (stored key r (view l)).0 k) result-is)

at-live :
    (now : ℕ) (heap : ℕ → Bucket) (o : Option ℕ)
    → at heap (live now heap o) ≡ unless_stale now (at heap o)
at-live now heap none = refl
at-live now heap (some i) = elim (Bool-cases (last_before now (2 * hour) (heap i))) [
  | inl stale ↦ rw stale refl
  | inr recent ↦ rw recent refl
]

gc-view : (now : ℕ) (l : Limiter) → view (gc now l) ≡ collect now (view l)
unfolding gc collect
gc-view now l = fun_ext (λ k. at-live now l.heap (l.ids k))

halves_from :
    (key : Text) (es : List Event) (l : Limiter)
    → IsSound l
    → halves key l es ≡ stamps key (view l) es
unfolding halves stamps
halves_from key [] l sound = refl
halves_from key (request k n w now later ∷ es) l sound =
    let (l', answer) = allow_both k n w now later l in
    ap (λ (b : Bool). passed key k later b ++ halves key l' es)
      (both-answer k n w now later l sound)
    ∙ ap (passed key k later (allow_key k n w now later (view l)).1 ++◌) (
        halves_from key es l' (both-IsSound k n w now later l sound)
        ∙ ap (λ (s : Buckets). stamps key s es) (both-view k n w now later l sound))
halves_from key (collection now ∷ es) l sound =
    halves_from key es (gc now l) (gc-IsSound now l sound)
    ∙ ap (λ (s : Buckets). stamps key s es) (gc-view now l)

pub halves-stamps :
    (key : Text) (es : List Event) → halves key no_buckets es ≡ stamps key (λ k. none) es
halves-stamps key es = halves_from key es no_buckets empty-IsSound

-- Under any history of requests and collections, with no collection between the two halves of a
-- request, the clock never going back and a window of at most two hours, each key whose requests come
-- with one limit and one window has at most `limit` requests pass in any window of time.
pub count_in-halves :
    (limit window : ℕ) (key : Text) (es : List Event) (x : ℕ)
    → window ≤ 2 * hour
    → IsOrdered 0 es
    → IsUnder key limit window es
    → count_in window x (halves key no_buckets es) ≤ limit
count_in-halves limit window key es x w h u =
    rw (halves-stamps key es) (count_in-stamps limit window key es x w h u)
