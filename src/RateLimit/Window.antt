-- ===== src/RateLimit/Window.antt =====
-- How many requests pass in a window of time.
use mathlib.Core.List.{append-nil, append_assoc}
use caslink.Prelude.{
  ℕ, ◌+◌, ◌*◌, ◌≤◌, ◌<◌, Text, text_eq, text_eq_iff, Bool, true, false, List, [], ◌∷◌, ◌++◌, ◌≡◌,
  refl, sym, arith, Option, none, some, if◌then◌else◌, or_else, All-mono, Bool-cases, inl, inr,
}
use caslink.RateLimit.{hour, Bucket, Buckets, stored, allow_key, last_before, unless_stale, collect}
use caslink.RateLimit.Track.{count_in, Tracks, All-old, later_Tracks, allow-Tracks, forget}

-- What happens to the limiter: a request under a key, a limit and a window, at the two readings of the
-- clock, or a pass of the collection.
pub data Event : Type 0 where
  request : Text → ℕ → ℕ → ℕ → ℕ → Event
  collection : ℕ → Event

-- The stamps of the requests under a key that pass.
abbrev pub passed : Text → Text → ℕ → Bool → List ℕ
passed key k later true = if text_eq k key then later ∷ [] else []
passed key k later false = []

-- Each reading of the clock is at or after `T` and those before.
abbrev pub IsOrdered : ℕ → List Event → Type 0
IsOrdered T [] = Unit
IsOrdered T (request k n w now later ∷ es) = (T ≤ now) × (now ≤ later) × IsOrdered later es
IsOrdered T (collection now ∷ es) = (T ≤ now) × IsOrdered now es

-- The requests under `key` come with one limit and one window.
abbrev pub IsUnder : Text → ℕ → ℕ → List Event → Type 0
IsUnder key limit window [] = Unit
IsUnder key limit window (request k n w now later ∷ es) =
    (k ≡ key → (n ≡ limit) × (w ≡ window)) × IsUnder key limit window es
IsUnder key limit window (collection now ∷ es) = IsUnder key limit window es

-- The stamps of what passes under `key` in a history.
unfoldable pub stamps : Text → Buckets → List Event → List ℕ
stamps key s [] = []
stamps key s (request k n w now later ∷ es) =
    let (s', answer) = allow_key k n w now later s in passed key k later answer ++ stamps key s' es
stamps key s (collection now ∷ es) = stamps key (collect now s) es

passed_same :
    (key k : Text) (later : ℕ) (answer : Bool)
    → text_eq k key ≡ true
    → passed key k later answer ≡ (if answer then later ∷ [] else [])
passed_same key k later true h = rw h refl
passed_same key k later false h = refl

passed_other :
    (key k : Text) (later : ℕ) (answer : Bool)
    → text_eq k key ≡ false
    → passed key k later answer ≡ []
passed_other key k later true h = rw h refl
passed_other key k later false h = refl

module _ (limit window : ℕ) where
  stored_same :
      (key k : Text) (s : Buckets) (r : Bucket × Bool) (seen : List ℕ) {later : ℕ}
      → text_eq k key ≡ true
      → Tracks limit window later r.0 (seen ++ (if r.1 then later ∷ [] else []))
      → Tracks limit window later
          (or_else ((stored k r s).0 key) [])
          (seen ++ passed key k later (stored k r s).1)
  stored_same key k s (b, answer) seen {later} h t = rw (passed_same key k later answer h, h) t

  stored_other :
      (key k : Text) (s : Buckets) (r : Bucket × Bool) (seen : List ℕ) {later : ℕ}
      → text_eq k key ≡ false
      → Tracks limit window later (or_else (s key) []) seen
      → Tracks limit window later
          (or_else ((stored k r s).0 key) [])
          (seen ++ passed key k later (stored k r s).1)
  stored_other key k s (b, answer) seen {later} h t =
      rw (passed_other key k later answer h, h, append-nil seen) t

  request-Tracks :
      (key k : Text) (n w : ℕ) (s : Buckets) {T now later : ℕ} {seen : List ℕ}
      → T ≤ now
      → now ≤ later
      → (k ≡ key → (n ≡ limit) × (w ≡ window))
      → Tracks limit window T (or_else (s key) []) seen
      → let (s', answer) = allow_key k n w now later s in
        Tracks limit window later (or_else (s' key) []) (seen ++ passed key k later answer)
  unfolding allow_key
  request-Tracks key k n w s {T} {now} {later} {seen} h l u t = elim (Bool-cases (text_eq k key)) [
    | inl same ↦
        let own : Tracks limit window T (or_else (s k) []) seen =
          rw ((text_eq_iff k key).0 same) t in
        let (n_is, w_is) = u ((text_eq_iff k key).0 same) in
        stored_same key k s _ seen same (rw (n_is, w_is) (allow-Tracks limit window h l own))
    | inr other ↦
        stored_other key k s _ seen other (later_Tracks limit window (omega (arith, h, l)) t)
  ]

  collect-Tracks :
      (key : Text) (s : Buckets) {T now : ℕ} {seen : List ℕ}
      → window ≤ 2 * hour
      → T ≤ now
      → Tracks limit window T (or_else (s key) []) seen
      → Tracks limit window now (or_else (collect now s key) []) seen
  unfolding collect
  collect-Tracks key s {T} {now} {seen} w h t = collected (s key) t
    where
      collected :
          (o : Option Bucket)
          → Tracks limit window T (or_else o []) seen
          → Tracks limit window now (or_else (unless_stale now o) []) seen
      collected none u = later_Tracks limit window h u
      collected (some b) u = elim (Bool-cases (last_before now (2 * hour) b)) [
        | inl stale ↦ rw stale (
            forget limit window h u (
              All-mono (λ a. a + 2 * hour < now) (λ a. a + window ≤ now) b
                (λ a q. omega (arith, w, q)) (All-old now (2 * hour) b u.sorted stale)))
        | inr recent ↦ rw recent (later_Tracks limit window h u)
      ]

  all_bounded :
      (key : Text) (es : List Event) (s : Buckets) (seen : List ℕ) {T : ℕ}
      → window ≤ 2 * hour
      → IsOrdered T es
      → IsUnder key limit window es
      → Tracks limit window T (or_else (s key) []) seen
      → (x : ℕ) → count_in window x (seen ++ stamps key s es) ≤ limit
  unfolding stamps
  all_bounded key [] s seen w h u t x = rw (append-nil seen) (t.bounded x)
  all_bounded key (request k n v now later ∷ es) s seen w h u t x =
      let (s', answer) = allow_key k n v now later s in
      rw (sym (append_assoc seen (passed key k later answer) (stamps key s' es))) (
        all_bounded key es s' (seen ++ passed key k later answer) w h.2 u.1
          (request-Tracks key k n v s h.0 h.1 u.0 t) x)
  all_bounded key (collection now ∷ es) s seen w h u t x =
      all_bounded key es (collect now s) seen w h.1 u (collect-Tracks key s w h.0 t) x

  -- Under any history of requests and collections, with the clock never going back and a window of
  -- at most two hours, each key has at most `limit` requests pass in any window of time. A request
  -- here is one step, with no collection within it.
  pub count_in-stamps :
      (key : Text) (es : List Event) (x : ℕ)
      → window ≤ 2 * hour
      → IsOrdered 0 es
      → IsUnder key limit window es
      → count_in window x (stamps key (λ k. none) es) ≤ limit
  count_in-stamps key es x w h u =
      all_bounded key es (λ k. none) [] w h u
        (record { agree = λ now l. refl; sorted = tt; past = tt; bounded = λ y. omega arith }) x
