-- ===== src/Worker/Caches.antt =====
-- The laws of the caches.
use caslink.Prelude.{
  Text, text_eq, text_eq_iff, Bool, true, List, [], ◌∷◌, ◌++◌, ◌≡◌, refl, arith, some,
  if◌then◌else◌, keep_if, Bool-cases, Option-cases, ◌∙◌, inl, inr, is_some,
}
use caslink.Worker.{Response, Cache, Caches, put, find, update, find_any, put_all}

-- `put`, then `match`.
pub find-put :
    (url u : Text) (r : Response) (c : Cache)
    → find u (put url r c) ≡ (if text_eq url u then some r else find u c)
unfolding find put
find-put url u r [] = refl
find-put url u r ((v, q) ∷ c) =
    ground (arith, text_eq_iff url u, text_eq_iff v url, text_eq_iff v u, find-put url u r c)

-- An update that leaves an address alone in every cache, and one that makes it known.
pub find_any-update :
    (u name : Text) (f : Cache → Cache) (cs : Caches)
    → ((c : Cache) → find u (f c) ≡ find u c)
    → find_any u (update name f cs) ≡ find_any u cs
unfolding find_any update
find_any-update u name f [] h = rw (h []) (unfold find in refl)
find_any-update u name f ((n, c) ∷ cs) h = ground (arith, h c, find_any-update u name f cs h)

pub is_some-find_any-update :
    (u name : Text) (f : Cache → Cache) (cs : Caches)
    → ((c : Cache) → is_some (find u (f c)) ≡ true)
    → is_some (find_any u (update name f cs)) ≡ true
unfolding find_any update
is_some-find_any-update u name f [] h = ground (arith, h [])
is_some-find_any-update u name f ((n, c) ∷ cs) h =
    ground (arith, h c, is_some-find_any-update u name f cs h)

abbrev pub urls : Cache → List Text
urls [] = []
urls ((u, r) ∷ c) = u ∷ urls c

is_some-find-put :
    (url u : Text) (r : Response) (c : Cache)
    → is_some (find u c) ≡ true
    → is_some (find u (put url r c)) ≡ true
is_some-find-put url u r c h = rw (find-put url u r c) (ground arith)

is_some-find-put_all_old :
    (u : Text) (rs c : Cache) → is_some (find u c) ≡ true → is_some (find u (put_all rs c)) ≡ true
unfolding put_all
is_some-find-put_all_old u [] c h = h
is_some-find-put_all_old u ((v, r) ∷ rs) c h =
    is_some-find-put_all_old u rs (put v r c) (is_some-find-put v u r c h)

-- After `addAll` each of its addresses is there.
pub is_some-find-put_all :
    (u : Text) (rs c : Cache) → is_some (find u rs) ≡ true → is_some (find u (put_all rs c)) ≡ true
unfolding put_all find
is_some-find-put_all u [] c h = cc
is_some-find-put_all u ((v, r) ∷ rs) c h = elim (Bool-cases (text_eq v u)) [
  | inl same ↦ is_some-find-put_all_old u rs (put v r c) (rw (find-put v u r c, same) refl)
  | inr other ↦ is_some-find-put_all u rs (put v r c) (rw other at h)
]

-- What holds of every entry of a cache, and of all caches.
module _ (P : Text → Response → Type 0) where
  abbrev pub Entries : Cache → Type 0
  Entries [] = Unit
  Entries ((u, r) ∷ c) = P u r × Entries c

  abbrev pub AllEntries : Caches → Type 0
  AllEntries [] = Unit
  AllEntries ((n, c) ∷ cs) = Entries c × AllEntries cs

  pub Entries-put : (u : Text) (r : Response) (c : Cache) → P u r → Entries c → Entries (put u r c)
  unfolding put
  Entries-put u r [] p h = (p, tt)
  Entries-put u r ((v, q) ∷ c) p h = elim (Bool-cases (text_eq v u)) [
    | inl same ↦ rw same (p, h.1)
    | inr other ↦ rw other (h.0, Entries-put u r c p h.1)
  ]

  pub Entries-put_all : (rs c : Cache) → Entries rs → Entries c → Entries (put_all rs c)
  unfolding put_all
  Entries-put_all [] c g h = h
  Entries-put_all ((u, r) ∷ rs) c g h = Entries-put_all rs (put u r c) g.1 (Entries-put u r c g.0 h)

  pub Entries-append : (a b : Cache) → Entries a → Entries b → Entries (a ++ b)
  Entries-append [] b g h = h
  Entries-append ((u, r) ∷ a) b g h = (g.0, Entries-append a b g.1 h)

  pub AllEntries-update :
      (name : Text) (f : Cache → Cache) (cs : Caches)
      → ((c : Cache) → Entries c → Entries (f c))
      → AllEntries cs
      → AllEntries (update name f cs)
  unfolding update
  AllEntries-update name f [] k h = (k [] tt, tt)
  AllEntries-update name f ((n, c) ∷ cs) k h = elim (Bool-cases (text_eq n name)) [
    | inl same ↦ rw same (k c h.0, h.1)
    | inr other ↦ rw other (h.0, AllEntries-update name f cs k h.1)
  ]

  pub AllEntries-keep_if :
      (test : Text × Cache → Bool) (cs : Caches) → AllEntries cs → AllEntries (keep_if test cs)
  AllEntries-keep_if test [] h = tt
  AllEntries-keep_if test (c ∷ cs) h = elim (Bool-cases (test c)) [
    | inl kept ↦ rw kept (h.0, AllEntries-keep_if test cs h.1)
    | inr gone ↦ rw gone (AllEntries-keep_if test cs h.1)
  ]

  pub Entries-find : (u : Text) (c : Cache) {r : Response} → Entries c → find u c ≡ some r → P u r
  unfolding find
  Entries-find u [] h e = cc
  Entries-find u ((v, q) ∷ c) {r} h e = elim (Bool-cases (text_eq v u)) [
    | inl same ↦
        let at_u : v ≡ u = (text_eq_iff v u).0 same in
        let is_r : q ≡ r = ground arith in rw (← at_u, ← is_r) h.0
    | inr other ↦ Entries-find u c h.1 (rw other at e)
  ]

  pub AllEntries-find_any :
      (u : Text) (cs : Caches) {r : Response} → AllEntries cs → find_any u cs ≡ some r → P u r
  unfolding find_any
  AllEntries-find_any u [] h e = cc
  AllEntries-find_any u ((n, c) ∷ cs) {r} h e = elim (Option-cases (find u c)) [
    | inl missed ↦ AllEntries-find_any u cs h.1 (rw missed at e)
    | inr (q, found) ↦ Entries-find u c h.0 (found ∙ (rw found at e))
  ]
