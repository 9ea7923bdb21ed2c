-- ===== src/Worker/History.antt =====
-- Sequences of events from an empty storage: where responses come from, and how long they stay.
use caslink.Prelude.{
  Text, Bool, true, false, List, [], ◌∷◌, ◌≡◌, refl, arith, Option, none, some, Bool-cases,
  Option-cases, inl, inr, ◌⊎◌, sym, ◌∙◌,
}
use mathlib.Core.Path.{subst}
use caslink.Worker.{
  write_first, Response, Cache, State, Network, Request, cache_name, precache, put, find_any,
  fetch_all, put_all, is_ok, add_response, install_with, on_install, on_activate, is_handled,
  on_fetch, settle, cached_or_fetched, from_network,
}
use caslink.Worker.Caches.{
  Entries, AllEntries, Entries-put, Entries-put_all, Entries-append, AllEntries-update,
  AllEntries-keep_if, AllEntries-find_any,
}

-- What the browser hands to the worker, with the network as it is at that time, and a pending write.
pub data Event : Type 0 where
  install : Network → Event
  activate : Event
  fetch : Network → Request → Event
  write : Event

unfoldable pub step : State → Event → State
step s (install net) = (on_install net s).0
step s activate = on_activate s
step s (fetch net req) = (on_fetch net req s).0
step s write = settle s

unfoldable pub run : State → List Event → State
run s [] = s
run s (e ∷ es) = run (step s e) es

abbrev pub empty : State
empty = record { caches = []; pending = [] }

-- The network gave this response for this address, in one of the events.
abbrev pub Gave : Event → Text → Response → Type 0
Gave (install net) u r = net u ≡ some r
Gave activate u r = ⊥
Gave (fetch net req) u r = net u ≡ some r
Gave write u r = ⊥

abbrev pub Answered : List Event → Text → Response → Type 0
Answered [] u r = ⊥
Answered (e ∷ es) u r = Gave e u r ⊎ Answered es u r

-- Every entry and every pending write satisfies `P`.
pub record Holds (P : Text → Response → Type 0) (s : State) : Type 0 where
  pub stored : AllEntries P s.caches
  pub waiting : Entries P s.pending

module _ (P : Text → Response → Type 0) where
  add_response-Entries :
      (u : Text) (o : Option Response) (rest : Option Cache) (rs : Cache)
      → ((r : Response) → o ≡ some r → P u r)
      → ((c : Cache) → rest ≡ some c → Entries P c)
      → add_response u o rest ≡ some rs
      → Entries P rs
  add_response-Entries u none rest rs k g e = cc
  add_response-Entries u (some r) none rs k g e = cc
  add_response-Entries u (some r) (some c) rs k g e = elim (Bool-cases (is_ok r)) [
    | inl good ↦
        let listed : ◌≡◌ {A = Cache} ((u, r) ∷ c) rs = ground arith in
        subst (Entries P) listed (k r refl, g c refl)
    | inr bad ↦ absurd (ground arith)
  ]

  fetch_all-Entries :
      (net : Network) (us : List Text) (rs : Cache)
      → ((u : Text) (r : Response) → net u ≡ some r → P u r)
      → fetch_all net us ≡ some rs
      → Entries P rs
  unfolding fetch_all
  fetch_all-Entries net [] rs k e =
      let listed : ◌≡◌ {A = Cache} [] rs = ground arith in subst (Entries P) listed tt
  fetch_all-Entries net (u ∷ us) rs k e =
      add_response-Entries u (net u) (fetch_all net us) rs (k u)
        (λ c q. fetch_all-Entries net us c k q) e

  write_first-Holds :
      (w : List (Text × Response)) (s : State) → Entries P w → Holds P s → Holds P (write_first w s)
  write_first-Holds [] s g h = h
  write_first-Holds ((u, r) ∷ w) s g h = record {
    stored =
        AllEntries-update P cache_name (put u r) s.caches (λ c. Entries-put P u r c g.0) h.stored;
    waiting = g.1;
  }

  install_with-Holds :
      (s : State) (o : Option Cache)
      → ((rs : Cache) → o ≡ some rs → Entries P rs)
      → Holds P s
      → Holds P (install_with s o).0
  install_with-Holds s none k h = record {
    stored = AllEntries-update P cache_name (λ c. c) s.caches (λ c g. g) h.stored;
    waiting = h.waiting;
  }
  install_with-Holds s (some rs) k h = record {
    stored =
        AllEntries-update P cache_name (put_all rs) s.caches
          (λ c. Entries-put_all P rs c (k rs refl)) h.stored;
    waiting = h.waiting;
  }

  cached_or_fetched-Holds :
      (net : Network) (s : State) (u : Text) (o answer : Option Response)
      → net u ≡ answer
      → ((r : Response) → net u ≡ some r → P u r)
      → Holds P s
      → Holds P (cached_or_fetched net s u o).0
  cached_or_fetched-Holds net s u (some r) answer e k h = h
  cached_or_fetched-Holds net s u none none e k h = rw e h
  cached_or_fetched-Holds net s u none (some r) e k h = rw e (record {
    stored = h.stored;
    waiting = Entries-append P s.pending ((u, r) ∷ []) h.waiting (k r e, tt);
  })

  on_fetch-Holds :
      (net : Network) (req : Request) (s : State)
      → ((r : Response) → net req.url ≡ some r → P req.url r)
      → Holds P s
      → Holds P (on_fetch net req s).0
  unfolding on_fetch
  on_fetch-Holds net req s k h = elim (Bool-cases (is_handled req)) [
    | inl yes_handled ↦
        rw yes_handled
          (cached_or_fetched-Holds net s req.url (find_any req.url s.caches) (net req.url) refl k h)
    | inr not_handled ↦ rw not_handled h
  ]

  step-Holds :
      (s : State) (e : Event)
      → ((u : Text) (r : Response) → Gave e u r → P u r)
      → Holds P s
      → Holds P (step s e)
  unfolding step on_install on_activate settle
  step-Holds s (install net) k h =
      install_with-Holds s (fetch_all net precache) (λ rs. fetch_all-Entries net precache rs k) h
  step-Holds s activate k h = record {
    stored = AllEntries-keep_if P _ s.caches h.stored;
    waiting = h.waiting;
  }
  step-Holds s (fetch net req) k h = on_fetch-Holds net req s (k req.url) h
  step-Holds s write k h = write_first-Holds s.pending s h.waiting h

  run-Holds :
      (s : State) (es : List Event)
      → ((u : Text) (r : Response) → Answered es u r → P u r)
      → Holds P s
      → Holds P (run s es)
  unfolding run
  run-Holds s [] k h = h
  run-Holds s (e ∷ es) k h =
      run-Holds (step s e) es (λ u r a. k u r (inr a)) (step-Holds s e (λ u r g. k u r (inl g)) h)

from_network-snd : (s : State) (u : Text) (o : Option Response) → (from_network s u o).1 ≡ o
from_network-snd s u none = refl
from_network-snd s u (some r) = refl

-- Whatever events came before, from an empty storage on, a response that the page gets for an
-- address is one that the network gave for that address, now or in one of the events.
pub on_fetch-Answered :
    (es : List Event) (net : Network) (req : Request) (r : Response)
    → (on_fetch net req (run empty es)).1 ≡ some r
    → (net req.url ≡ some r) ⊎ Answered es req.url r
unfolding on_fetch
on_fetch-Answered es net req r e = by_case (is_handled req) refl
  where
    kept : Holds (Answered es) (run empty es)
    kept = run-Holds (Answered es) empty es (λ u q a. a) (record { stored = tt; waiting = tt })

    by_case : (b : Bool) → is_handled req ≡ b → (net req.url ≡ some r) ⊎ Answered es req.url r
    by_case true h = elim (Option-cases (find_any req.url (run empty es).caches)) [
      | inl missed ↦ inl (sym (from_network-snd _ req.url (net req.url)) ∙ (rw (h, missed) at e))
      | inr (q, found) ↦
          inr
            (AllEntries-find_any (Answered es) req.url _ kept.stored (found ∙ (rw (h, found) at e)))
    ]
    by_case false h = inl (rw h at e)
