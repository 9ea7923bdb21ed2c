-- ===== src/Worker/Offline.antt =====
-- What the worker answers from its caches.
use mathlib.Core.Path.{subst}
use caslink.Prelude.{
  Text, text_eq, text_eq_iff, text_eq_refl, true, false, List, [], ◌∷◌, ◌≡◌, ◌≢◌, refl, arith,
  Option, none, some, if◌then◌else◌, keep_if, Bool-cases, Option-cases, inl, inr, All, All-append,
  any, is_some, ◌∙◌,
}
use caslink.Worker.{
  Response, Cache, Caches, State, Network, Request, cache_name, precache, put, find, update,
  find_any, fetch_all, put_all, is_ok, add_response, install_with, on_install, on_activate,
  is_handled, on_fetch, settle, write_first, cached_or_fetched, from_network,
}
use caslink.Worker.Caches.{find-put, find_any-update, is_some-find_any-update, is_some-find-put_all}
use caslink.Worker.History.{Event, install, activate, fetch, write, step, run}

abbrev pub names : Caches → List Text
names [] = []
names ((n, c) ∷ cs) = n ∷ names cs

-- The first cache of the script's name.
unfoldable pub own : Caches → Option Cache
own [] = none
own ((n, c) ∷ cs) = if text_eq n cache_name then some c else own cs

keep_if-own :
    (cs : Caches)
    → All (λ n. n ≡ cache_name) (names (keep_if (λ c. text_eq c.0 cache_name) cs))
      × (own (keep_if (λ c. text_eq c.0 cache_name) cs) ≡ own cs)
unfolding own
keep_if-own [] = (tt, refl)
keep_if-own ((n, c) ∷ cs) = elim (Bool-cases (text_eq n cache_name)) [
  | inl same ↦ rw same ((((text_eq_iff n cache_name).0 same, (keep_if-own cs).0)), rw same)
  | inr other ↦ rw other (keep_if-own cs)
]

-- Activation leaves the caches of the script's own name and no other, keeps the contents of its own
-- cache, and drops no pending write.
pub on_activate_lem :
    (s : State)
    → All (λ n. n ≡ cache_name) (names (on_activate s).caches)
      × (own (on_activate s).caches ≡ own s.caches)
      × ((on_activate s).pending ≡ s.pending)
unfolding on_activate
on_activate_lem s = let (a, b) = keep_if-own s.caches in (a, b, refl)

add_response-find :
    (u v : Text) (o : Option Response) (rest : Option Cache) (rs : Cache)
    → add_response v o rest ≡ some rs
    → ((c : Cache) → rest ≡ some c → text_eq v u ≡ false → is_some (find u c) ≡ true)
    → is_some (find u rs) ≡ true
unfolding find
add_response-find u v none rest rs e k = cc
add_response-find u v (some r) none rs e k = cc
add_response-find u v (some r) (some c) rs e k = elim (Bool-cases (is_ok r)) [
  | inl good ↦
      let listed : ◌≡◌ {A = Cache} ((v, r) ∷ c) rs = ground arith in
      subst (λ l. is_some (find u l) ≡ true) listed
        (elim (Bool-cases (text_eq v u)) [
          | inl same ↦ rw same
          | inr other ↦ rw other (k c refl other)
        ])
  | inr bad ↦ absurd (ground arith)
]

find-fetch_all :
    (net : Network) (u : Text) (us : List Text) (rs : Cache)
    → any (λ v. text_eq v u) us ≡ true
    → fetch_all net us ≡ some rs
    → is_some (find u rs) ≡ true
unfolding fetch_all
find-fetch_all net u [] rs m e = cc
find-fetch_all net u (v ∷ us) rs m e =
    add_response-find u v (net v) (fetch_all net us) rs e
      (λ c q other. find-fetch_all net u us c (rw other at m) q)

install_with-find :
    (u : Text) (s : State) (o : Option Cache)
    → (install_with s o).1 ≡ true
    → ((rs : Cache) → o ≡ some rs → is_some (find u rs) ≡ true)
    → is_some (find_any u (install_with s o).0.caches) ≡ true
install_with-find u s none ok k = cc
install_with-find u s (some rs) ok k =
    is_some-find_any-update u cache_name (put_all rs) s.caches
      (λ c. is_some-find-put_all u rs c (k rs refl))

on_fetch_cached :
    (net : Network) (req : Request) (s : State)
    → is_handled req ≡ true
    → is_some (find_any req.url s.caches) ≡ true
    → (r : Response) × (on_fetch net req s ≡ (s, some r))
unfolding on_fetch
on_fetch_cached net req s h f = elim (Option-cases (find_any req.url s.caches)) [
  | inl missed ↦ absurd (ground arith)
  | inr (r, found) ↦ (r, rw (h, found))
]

-- After a successful installation each GET request for a precached address below /static/ is
-- answered without the network, and the answer changes nothing.
pub on_fetch-on_install :
    (net offline : Network) (s : State) (req : Request)
    → (on_install net s).1 ≡ true
    → any (λ v. text_eq v req.url) precache ≡ true
    → is_handled req ≡ true
    → (r : Response) × (on_fetch offline req (on_install net s).0 ≡ ((on_install net s).0, some r))
unfolding on_install
on_fetch-on_install net offline s req ok m h = on_fetch_cached offline req _ h (
    install_with-find req.url s (fetch_all net precache) ok
      (λ rs. find-fetch_all net req.url precache rs m))

-- A page is open: it fetches, and pending writes are made.
abbrev pub IsPageEvent : Event → Type 0
IsPageEvent (fetch net req) = Unit
IsPageEvent write = Unit
IsPageEvent (install net) = ⊥
IsPageEvent activate = ⊥

-- The address is answered by `r` and no write is pending for it.
pub record IsFixed (u : Text) (r : Response) (s : State) : Type 0 where
  pub stored : find_any u s.caches ≡ some r
  pub waiting : All (λ w. w.0 ≢ u) s.pending

find_any-put_ne :
    (u v : Text) (q : Response) (cs : Caches)
    → v ≢ u
    → find_any u (update cache_name (put v q) cs) ≡ find_any u cs
find_any-put_ne u v q cs h =
    find_any-update u cache_name (put v q) cs
      (λ c. find-put v u q c ∙ ground (arith, text_eq_iff v u))

find_any-put :
    (u : Text) (q : Response) (cs : Caches)
    → find_any u cs ≡ none
    → find_any u (update cache_name (put u q) cs) ≡ some q
unfolding find_any update
find_any-put u q [] h = rw (find-put u u q [], text_eq_refl u)
find_any-put u q ((n, c) ∷ cs) h =
    ground (arith, find-put u u q c, text_eq_refl u, find_any-put u q cs)

module _ (u : Text) (r : Response) where
  write_first-IsFixed :
      (w : List (Text × Response)) (s : State)
      → All (λ x. x.0 ≢ u) w
      → IsFixed u r s
      → IsFixed u r (write_first w s)
  write_first-IsFixed [] s g f = f
  write_first-IsFixed ((v, q) ∷ w) s g f = record {
    stored = find_any-put_ne u v q s.caches g.0 ∙ f.stored;
    waiting = g.1;
  }

  from_network-IsFixed :
      (v : Text) (o : Option Response) (s : State)
      → v ≢ u
      → IsFixed u r s
      → IsFixed u r (from_network s v o).0
  from_network-IsFixed v none s ne f = f
  from_network-IsFixed v (some q) s ne f = record {
    stored = f.stored;
    waiting = All-append (λ w. w.0 ≢ u) s.pending ((v, q) ∷ []) f.waiting (ne, tt);
  }

  cached_or_fetched-IsFixed :
      (net : Network) (v : Text) (o : Option Response) (s : State)
      → find_any v s.caches ≡ o
      → IsFixed u r s
      → IsFixed u r (cached_or_fetched net s v o).0
  cached_or_fetched-IsFixed net v (some q) s e f = f
  cached_or_fetched-IsFixed net v none s e f = from_network-IsFixed v (net v) s (λ q. cc) f

  on_fetch-IsFixed :
      (net : Network) (req : Request) (s : State)
      → IsFixed u r s
      → IsFixed u r (on_fetch net req s).0
  unfolding on_fetch
  on_fetch-IsFixed net req s f = elim (Bool-cases (is_handled req)) [
    | inl it_is ↦
        rw it_is (cached_or_fetched-IsFixed net req.url (find_any req.url s.caches) s refl f)
    | inr it_is ↦ rw it_is f
  ]

  run-IsFixed :
      (es : List Event) (s : State) → All IsPageEvent es → IsFixed u r s → IsFixed u r (run s es)
  unfolding run step settle
  run-IsFixed [] s p f = f
  run-IsFixed (fetch net req ∷ es) s p f = run-IsFixed es _ p.1 (on_fetch-IsFixed net req s f)
  run-IsFixed (write ∷ es) s p f =
      run-IsFixed es _ p.1 (write_first-IsFixed s.pending s f.waiting f)
  run-IsFixed (install net ∷ es) s p f = absurd p.0
  run-IsFixed (activate ∷ es) s p f = absurd p.0

-- The first response for a static address that was not cached, of whatever status, with no other
-- write pending, answers every later request for that address once it has been written, as long as
-- the page only fetches and writes: whatever the network would say by then, and whatever else is
-- fetched.
pub on_fetch_forever :
    (net net' : Network) (req : Request) (s : State) (r : Response) (es : List Event)
    → is_handled req ≡ true
    → find_any req.url s.caches ≡ none
    → s.pending ≡ []
    → net req.url ≡ some r
    → All IsPageEvent es
    → let s' = run s (fetch net req ∷ write ∷ es) in on_fetch net' req s' ≡ (s', some r)
unfolding on_fetch run step settle
on_fetch_forever net net' req s r es h m p e pe =
    let first : (on_fetch net req s).0 ≡ record { caches = s.caches; pending = (req.url, r) ∷ [] } =
      rw (h, m, e, p) in
    let fixed : IsFixed req.url r (run (settle (on_fetch net req s).0) es) = rw first (
      run-IsFixed req.url r es _ pe
        (record { stored = find_any-put req.url r s.caches m; waiting = tt })) in
    rw (h, fixed.stored)
