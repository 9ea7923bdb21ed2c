-- ===== src/RateLimit/Halves/Sound.antt =====
-- The references of the limiter stay apart, src/server/middleware.go.
use caslink.Prelude.{
  ℕ, suc, ◌*◌, ◌<◌, Text, text_eq, text_eq_iff, Bool, true, false, ◌≡◌, refl, sym, ap, ◌∙◌, arith,
  Option, none, some, if◌then◌else◌, or_else, Bool-cases, inl, inr, ◌≢◌,
}
use caslink.RateLimit.{hour, Bucket, last_before}
use caslink.RateLimit.Halves.{Limiter, taken, kept, live, gc, no_buckets, IsSound}

pub kept-IsSound : (i : ℕ) (r : Bucket × Bool) (l : Limiter) → IsSound l → IsSound (kept i r l).0
kept-IsSound i (b, answer) l sound = record { below = sound.below; apart = sound.apart }

pub taken-IsSound :
    (key : Text) (l : Limiter) (o : Option ℕ)
    → l.ids key ≡ o
    → IsSound l
    → IsSound (taken key l o).1
taken-IsSound key l (some i) e sound = sound
taken-IsSound key l none e sound = record { below = below_next; apart = apart_next }
  where
    ids : Text → Option ℕ
    ids k = if text_eq key k then some l.free else l.ids k

    same_id : (k : Text) → text_eq key k ≡ true → ids k ≡ some l.free
    same_id k h = rw h refl

    other_id : (k : Text) → text_eq key k ≡ false → ids k ≡ l.ids k
    other_id k h = rw h refl

    id_of : {i j : ℕ} → some i ≡ some j → i ≡ j
    id_of h = ap (λ (o : Option ℕ). or_else o 0) h

    below_next : (k : Text) (i : ℕ) → ids k ≡ some i → i < suc l.free
    below_next k i h = elim (Bool-cases (text_eq key k)) [
      | inl same ↦ omega (arith, id_of (sym (same_id k same) ∙ h))
      | inr other ↦ omega (arith, sound.below k i (sym (other_id k other) ∙ h))
    ]

    apart_next : (k k' : Text) (i : ℕ) → ids k ≡ some i → ids k' ≡ some i → k ≡ k'
    apart_next k k' i h h' = elim (Bool-cases (text_eq key k)) [
      | inl same ↦ elim (Bool-cases (text_eq key k')) [
        | inl same' ↦ sym ((text_eq_iff key k).0 same) ∙ (text_eq_iff key k').0 same'
        | inr other' ↦ absurd (
            omega (
              arith,
              id_of (sym (same_id k same) ∙ h),
              sound.below k' i (sym (other_id k' other') ∙ h'),
            ))
      ]
      | inr other ↦ elim (Bool-cases (text_eq key k')) [
        | inl same' ↦ absurd (
            omega (
              arith,
              id_of (sym (same_id k' same') ∙ h'),
              sound.below k i (sym (other_id k other) ∙ h),
            ))
        | inr other' ↦
            sound.apart k k' i (sym (other_id k other) ∙ h) (sym (other_id k' other') ∙ h')
      ]
    ]

live_is :
    (now : ℕ) (heap : ℕ → Bucket) (o : Option ℕ) (i : ℕ) → live now heap o ≡ some i → o ≡ some i
live_is now heap none i h = h
live_is now heap (some j) i h = elim (Bool-cases (last_before now (2 * hour) (heap j))) [
  | inl stale ↦ absurd (gone (sym (dropped stale) ∙ h))
  | inr recent ↦ sym (held recent) ∙ h
]
  where
    dropped : last_before now (2 * hour) (heap j) ≡ true → live now heap (some j) ≡ none
    dropped e = rw e refl

    held : last_before now (2 * hour) (heap j) ≡ false → live now heap (some j) ≡ some j
    held e = rw e refl

    gone : ◌≢◌ {A = Option ℕ} none (some i)
    gone e = cc

pub gc-IsSound : (now : ℕ) (l : Limiter) → IsSound l → IsSound (gc now l)
unfolding gc
gc-IsSound now l sound = record {
  below = λ k i h. sound.below k i (live_is now l.heap (l.ids k) i h);
  apart = λ k k' i h h'.
      sound.apart k k' i (live_is now l.heap (l.ids k) i h) (live_is now l.heap (l.ids k') i h');
}

pub empty-IsSound : IsSound no_buckets
empty-IsSound = record { below = λ k i h. cc; apart = λ k k' i h h'. cc }
