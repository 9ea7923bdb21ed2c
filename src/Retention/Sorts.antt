-- ===== src/Retention/Sorts.antt =====
-- Sorted lists of backups, and a sort to run.
use caslink.Prelude.{
  ◌≤◌, ◌≡◌, ◌⊎◌, ◌↔◌, ap, ◌∙◌, sym, Bool, true, List, [], ◌∷◌, ◌++◌, keep_if, All, Bool-cases, inl,
  inr,
}
use caslink.Retention.{Backup, Sorting, total_size}

-- To be one of the elements, by recursion.
abbrev pub Among : Backup → List Backup → Type 0
Among a [] = ⊥
Among a (x ∷ xs) = (a ≡ x) ⊎ Among a xs

pub Among-append_left : (a : Backup) (xs ys : List Backup) → Among a xs → Among a (xs ++ ys)
Among-append_left a [] ys h = elim h [ ]
Among-append_left a (x ∷ xs) ys (inl e) = inl e
Among-append_left a (x ∷ xs) ys (inr h) = inr (Among-append_left a xs ys h)

pub Among-keep_if :
    (p : Backup → Bool) (a : Backup) (xs : List Backup)
    → Among a xs
    → p a ≡ true
    → Among a (keep_if p xs)
Among-keep_if p a [] h t = elim h [ ]
Among-keep_if p a (x ∷ xs) (inl e) t = let kept : p x ≡ true = ap p (sym e) ∙ t in rw kept (inl e)
Among-keep_if p a (x ∷ xs) (inr h) t = elim (Bool-cases (p x)) [
  | inl kept ↦ rw kept (inr (Among-keep_if p a xs h t))
  | inr dropped ↦ rw dropped (Among-keep_if p a xs h t)
]

pub Among-of_keep_if :
    (p : Backup → Bool) (a : Backup) (xs : List Backup) → Among a (keep_if p xs) → Among a xs
Among-of_keep_if p a (x ∷ xs) h = elim (Bool-cases (p x)) [
  | inl kept ↦ elim (rw kept at h) [ inl e ↦ inl e | inr t ↦ inr (Among-of_keep_if p a xs t) ]
  | inr dropped ↦ inr (Among-of_keep_if p a xs (rw dropped at h))
]
Among-of_keep_if p a [] h = h

-- Each element in a relation with all behind it.
abbrev pub IsOrdered : (Backup → Backup → Type 0) → List Backup → Type 0
IsOrdered R [] = Unit
IsOrdered R (b ∷ bs) = All (R b) bs × IsOrdered R bs

abbrev pub IsAscending : List Backup → Type 0
IsAscending bs = IsOrdered (λ b c. b.date ≤ c.date) bs

abbrev pub IsDescending : List Backup → Type 0
IsDescending bs = IsOrdered (λ b c. c.date ≤ b.date) bs

-- The documented behaviour of `sort.Slice`: the same elements in order.
pub record Sorts (sorting : Sorting) : Type 0 where
  pub newest_among :
      (b : Backup) (bs : List Backup) → Among b bs ↔ Among b (sorting.newest_first bs)
  pub newest_in_order : (bs : List Backup) → IsDescending (sorting.newest_first bs)
  pub oldest_among :
      (b : Backup) (bs : List Backup) → Among b bs ↔ Among b (sorting.oldest_first bs)
  pub oldest_in_order : (bs : List Backup) → IsAscending (sorting.oldest_first bs)
  pub oldest_total : (bs : List Backup) → total_size (sorting.oldest_first bs) ≡ total_size bs
