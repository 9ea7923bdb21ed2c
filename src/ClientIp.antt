-- ===== src/ClientIp.antt =====
-- The address of a client in src/server/middleware.go: `realIPMiddleware` and `realIP`, which the
-- limiter calls behind it. Whether a peer is a trusted proxy is an argument: it takes the networks of
-- `net`. A header that is missing is empty, as `Header.Get` reads it.
pub mod Peers
pub mod Attempts
use caslink.Prelude.{
  Text, Bool, not, List, [], ◌∷◌, Option, none, some, if◌then◌else◌, ◌==◌, is_nil, or_else,
  take_while, ℕ,
}
use caslink.OrgSlug.{GoText}

-- What the two functions read and write of a request.
pub record Request : Type 0 where
  pub remote_addr : Text
  pub x_forwarded_for : Text
  pub x_real_ip : Text

abbrev pub cons_or : ℕ → ℕ → Option Text → Option Text
cons_or sep c (some t) = some (c ∷ t)
cons_or sep c none = if c == sep then some [] else none

-- `addr[:idx]` at the last separator: `strings.LastIndex`.
unfoldable pub before_last : ℕ → Text → Option Text
before_last sep [] = none
before_last sep (c ∷ s) = cons_or sep c (before_last sep s)

unfoldable pub without_port : Text → Text
unfolding before_last
without_port addr = or_else (before_last b':' addr) addr

module _ (go : GoText) where
  -- `realIP`
  unfoldable pub real_ip : Request → Text
  unfolding without_port
  real_ip r =
      if not (is_nil r.x_forwarded_for)
      then go.trim_space (take_while (λ c. not (c == b',')) r.x_forwarded_for)
      else if not (is_nil r.x_real_ip)
      then r.x_real_ip
      else without_port r.remote_addr

module _ (go : GoText) (is_trusted : Text → Bool) where
  -- `realIPMiddleware`: the request that the next handler gets.
  unfoldable pub real_ip_middleware : Request → Request
  real_ip_middleware r =
      if is_trusted r.remote_addr
      then (if is_nil (real_ip go r) then r else record r { remote_addr = real_ip go r })
      else record r { x_forwarded_for = []; x_real_ip = [] }
