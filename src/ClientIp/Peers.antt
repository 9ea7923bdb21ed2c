-- ===== src/ClientIp/Peers.antt =====
-- Who decides which address the limiter sees.
use caslink.Prelude.{
  ℕ, ◌<◌, Text, Bool, true, false, not, [], ◌∷◌, ◌++◌, ◌≡◌, ◌≢◌, refl, ap, ◌∙◌, arith, none, some,
  ◌==◌, is_nil, take_while, All, All-append,
}
use caslink.OrgSlug.{GoText}
use caslink.ClientIp.{Request, before_last, without_port, real_ip, real_ip_middleware}

abbrev pub IsWithout : ℕ → Text → Type 0
IsWithout sep t = All (λ c. c ≢ sep) t

before_last_of_without : (sep : ℕ) (t : Text) → IsWithout sep t → before_last sep t ≡ none
unfolding before_last
before_last_of_without sep [] h = refl
before_last_of_without sep (c ∷ t) h = rw (before_last_of_without sep t h.1) (ground (arith, h.0))

before_last-append :
    (sep : ℕ) (s t : Text) → IsWithout sep t → before_last sep (s ++ sep ∷ t) ≡ some s
unfolding before_last
before_last-append sep [] t h = rw (before_last_of_without sep t h) (ground arith)
before_last-append sep (c ∷ s) t h = rw (before_last-append sep s t h) refl

without_port-append : (s t : Text) → IsWithout b':' t → without_port (s ++ b':' ∷ t) ≡ s
unfolding without_port
without_port-append s t h = rw (before_last-append b':' s t h) refl

take_while-append :
    (s t : Text) → IsWithout b',' s → take_while (λ c. not (c == b',')) (s ++ b',' ∷ t) ≡ s
unfolding take_while
take_while-append [] t h = refl
take_while-append (c ∷ s) t h = ground (arith, h.0, take_while-append s t h.1)

some_behind : (s t : Text) (c : ℕ) → is_nil (s ++ c ∷ t) ≡ false
some_behind [] t c = refl
some_behind (d ∷ s) t c = refl

ne_nil-is_nil : (s : Text) → s ≢ [] → is_nil s ≡ false
ne_nil-is_nil [] h = absurd (h refl)
ne_nil-is_nil (c ∷ s) h = refl

module _ (go : GoText) (is_trusted : Text → Bool) where
  real_ip_of_header :
      (r : Request) (first rest : Text)
      → IsWithout b',' first
      → r.x_forwarded_for ≡ first ++ b',' ∷ rest
      → real_ip go r ≡ go.trim_space first
  unfolding real_ip
  real_ip_of_header r first rest h e =
      rw (e, some_behind first rest b',') (ap go.trim_space (take_while-append first rest h))

  real_ip_of_peer :
      (r : Request)
      → r.x_forwarded_for ≡ []
      → r.x_real_ip ≡ []
      → real_ip go r ≡ without_port r.remote_addr
  unfolding real_ip
  real_ip_of_peer r e f = rw (e, f) refl

  middleware_of_trusted :
      (r : Request)
      → is_trusted r.remote_addr ≡ true
      → is_nil (real_ip go r) ≡ false
      → real_ip_middleware go is_trusted r ≡ record r { remote_addr = real_ip go r }
  unfolding real_ip_middleware
  middleware_of_trusted r u h = rw (u, h) refl

  -- A client whose address is a host, a colon and a port without a colon, and that is no trusted
  -- proxy, is seen under its own host, whatever headers it sends.
  pub real_ip-untrusted :
      (host port : Text) (r : Request)
      → r.remote_addr ≡ host ++ b':' ∷ port
      → IsWithout b':' port
      → is_trusted r.remote_addr ≡ false
      → real_ip go (real_ip_middleware go is_trusted r) ≡ host
  unfolding real_ip real_ip_middleware
  real_ip-untrusted host port r e h u = rw u (ap without_port e ∙ without_port-append host port h)

  -- Behind a trusted proxy that appends the address of its peer to the header `X-Forwarded-For` a
  -- client is seen under whatever it has written into that header itself.
  pub real_ip-claimed :
      (claim peer : Text) (r : Request)
      → IsWithout b',' claim
      → All (λ c. (32 < c) × (c < 127)) claim
      → claim ≢ []
      → r.x_forwarded_for ≡ claim ++ b',' ∷ b' ' ∷ peer
      → is_trusted r.remote_addr ≡ true
      → real_ip go (real_ip_middleware go is_trusted r) ≡ claim
  real_ip-claimed claim peer r h visible some_text e u =
      let found = real_ip_of_header r claim (b' ' ∷ peer) h e ∙ go.trim_visible claim visible in
      let kept = middleware_of_trusted r u (ap is_nil found ∙ ne_nil-is_nil claim some_text) in
      ap (real_ip go) kept
      ∙ real_ip_of_header (record r { remote_addr = real_ip go r }) claim (b' ' ∷ peer) h e
      ∙ go.trim_visible claim visible

  -- A peer that is trusted, sends neither header and has an IPv6 address in brackets and a port is
  -- seen without the last group of its address: all that differ in that group only are seen as one.
  pub real_ip-ipv6_collide :
      (network group port : Text) (r : Request)
      → r.x_forwarded_for ≡ []
      → r.x_real_ip ≡ []
      → r.remote_addr ≡ (b'[' ∷ network ++ (b':' ∷ group ++ b']' ∷ [])) ++ b':' ∷ port
      → IsWithout b':' group
      → IsWithout b':' port
      → is_trusted r.remote_addr ≡ true
      → real_ip go (real_ip_middleware go is_trusted r) ≡ b'[' ∷ network
  real_ip-ipv6_collide network group port r e f a h k u =
      let host = b'[' ∷ network ++ (b':' ∷ group ++ b']' ∷ []) in
      let found = real_ip_of_peer r e f ∙ ap without_port a ∙ without_port-append host port k in
      ap (real_ip go) (middleware_of_trusted r u (ap is_nil found))
      ∙ real_ip_of_peer (record r { remote_addr = real_ip go r }) e f
      ∙ ap without_port found
      ∙ without_port-append (b'[' ∷ network) (group ++ b']' ∷ [])
          (All-append (λ c. c ≢ b':') group (b']' ∷ []) h (omega arith, tt))
