-- ===== src/Retention/Insertion.antt =====
-- A sorting that behaves as documented: by insertion.
use caslink.Prelude.{
  ◌+◌, ◌≤◌, ◌≡◌, ◌⊎◌, ◌↔◌, refl, Bool, true, false, List, [], ◌∷◌, if◌then◌else◌, leb, All,
  All-mono, arith, Bool-cases, inl, inr,
}
use caslink.Retention.{Backup, Sorting, total_size}
use caslink.Retention.Sorts.{Among, IsOrdered, Sorts}

past : {B C D E : Type 0} → (B ⊎ D) ↔ E → (B ⊎ (C ⊎ D)) ↔ (C ⊎ E)
past (f, g) = (
  (λ h. elim h [
    | inl b ↦ inr (f (inl b))
    | inr r ↦ elim r [ inl c ↦ inl c | inr d ↦ inr (f (inr d)) ]
  ]),
  (λ h. elim h [
    | inl c ↦ inr (inl c)
    | inr e ↦ elim (g e) [ inl b ↦ inl b | inr d ↦ inr (inr d) ]
  ]),
)

onward : {B C D E : Type 0} → C ↔ D → (B ⊎ D) ↔ E → (B ⊎ C) ↔ E
onward (f, f') (g, g') = (
  (λ h. elim h [ inl b ↦ g (inl b) | inr c ↦ g (inr (f c)) ]),
  (λ e. elim (g' e) [ inl b ↦ inl b | inr d ↦ inr (f' d) ]),
)

module _ (le : Backup → Backup → Bool) where
  abbrev pub insert : Backup → List Backup → List Backup
  insert b [] = b ∷ []
  insert b (c ∷ cs) = if le b c then b ∷ c ∷ cs else c ∷ insert b cs

  abbrev pub sort : List Backup → List Backup
  sort [] = []
  sort (b ∷ bs) = insert b (sort bs)

  Among-insert : (x b : Backup) (cs : List Backup) → ((x ≡ b) ⊎ Among x cs) ↔ Among x (insert b cs)
  Among-insert x b [] = ((λ h. h), (λ h. h))
  Among-insert x b (c ∷ cs) = elim (Bool-cases (le b c)) [
    | inl here ↦ rw here ((λ h. h), (λ h. h))
    | inr there ↦ rw there (past (Among-insert x b cs))
  ]

  Among-sort : (x : Backup) (bs : List Backup) → Among x bs ↔ Among x (sort bs)
  Among-sort x [] = ((λ h. h), (λ h. h))
  Among-sort x (b ∷ bs) = onward (Among-sort x bs) (Among-insert x b (sort bs))

  total_size-insert :
      (b : Backup) (cs : List Backup) → total_size (insert b cs) ≡ b.size + total_size cs
  total_size-insert b [] = refl
  total_size-insert b (c ∷ cs) = ground (arith, total_size-insert b cs)

  total_size-sort : (bs : List Backup) → total_size (sort bs) ≡ total_size bs
  total_size-sort [] = refl
  total_size-sort (b ∷ bs) = omega (arith, total_size-insert b (sort bs), total_size-sort bs)

-- The test decides the relation, which is transitive.
module _ (R : Backup → Backup → Type 0) (le : Backup → Backup → Bool)
    (is_so : (b c : Backup) → le b c ≡ true → R b c)
    (or_else_so : (b c : Backup) → le b c ≡ false → R c b)
    (trans : (b c d : Backup) → R b c → R c d → R b d) where
  All-insert :
      (P : Backup → Type 0) (b : Backup) (cs : List Backup)
      → P b
      → All P cs
      → All P (insert le b cs)
  All-insert P b [] h k = (h, tt)
  All-insert P b (c ∷ cs) h k = elim (Bool-cases (le b c)) [
    | inl here ↦ rw here (h, k)
    | inr there ↦ rw there (k.0, All-insert P b cs h k.1)
  ]

  insert-IsOrdered : (b : Backup) (cs : List Backup) → IsOrdered R cs → IsOrdered R (insert le b cs)
  insert-IsOrdered b [] h = (tt, tt)
  insert-IsOrdered b (c ∷ cs) h = elim (Bool-cases (le b c)) [
    | inl here ↦
        let r = is_so b c here in
        rw here ((r, All-mono (R c) (R b) cs (λ d q. trans b c d r q) h.0), h)
    | inr there ↦
        rw there (All-insert (R c) b cs (or_else_so b c there) h.0, insert-IsOrdered b cs h.1)
  ]

  sort-IsOrdered : (bs : List Backup) → IsOrdered R (sort le bs)
  sort-IsOrdered [] = tt
  sort-IsOrdered (b ∷ bs) = insert-IsOrdered b (sort le bs) (sort-IsOrdered bs)

abbrev pub newer : Backup → Backup → Bool
newer b c = leb c.date b.date

abbrev pub older : Backup → Backup → Bool
older b c = leb b.date c.date

abbrev pub by_insertion : Sorting
by_insertion = record { newest_first = sort newer; oldest_first = sort older }

pub by_insertion-Sorts : Sorts by_insertion
by_insertion-Sorts = record {
  newest_among = Among-sort newer;
  newest_in_order =
      sort-IsOrdered (λ b c. c.date ≤ b.date) newer (λ b c h. ground arith) (λ b c h. ground arith)
        (λ b c d h k. omega (arith, h, k));
  oldest_among = Among-sort older;
  oldest_in_order =
      sort-IsOrdered (λ b c. b.date ≤ c.date) older (λ b c h. ground arith) (λ b c h. ground arith)
        (λ b c d h k. omega (arith, h, k));
  oldest_total = total_size-sort older;
}
