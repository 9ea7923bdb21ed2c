-- ===== src/Csrf/Cookie.antt =====
-- The token in `document.cookie`: the regular expression of `getCSRFToken` against a plain search in
-- the list of cookies that the browser writes into that text.
use caslink.Prelude.{
  Text, codes, text_eq, strip_prefix, take_while, drop_while, Bool, true, false, [], ◌∷◌, ◌++◌, ◌≡◌,
  ◌≢◌, refl, arith, ap, ◌∙◌, Option, none, some, if◌then◌else◌, All,
}
use caslink.Csrf.{
  Pairs, is_white, not_semicolon, nonempty, token_here, first_of_two, token_behind, match_token,
}

-- `document.cookie` for a list of cookies: `name=value`, joined by a semicolon and a space.
unfoldable pub serialize : Pairs → Text
serialize [] = []
serialize ((n, v) ∷ []) = n ++ b'=' ∷ v
serialize ((n, v) ∷ c ∷ jar) = n ++ b'=' ∷ (v ++ b';' ∷ b' ' ∷ serialize (c ∷ jar))

abbrev pub token_cookie : Text
token_cookie = codes "csrf_token"

-- The first cookie of that name with a value.
unfoldable pub find_token : Pairs → Option Text
find_token [] = none
find_token ((n, v) ∷ jar) =
    first_of_two (if text_eq n token_cookie then nonempty v else none) (find_token jar)

abbrev pub starts_white : Text → Bool
starts_white [] = true
starts_white (c ∷ s) = is_white c

-- What RFC 6265 and the browsers keep of cookies: a name is not empty, does not start with white
-- space and holds no `=` and no semicolon, a value holds no semicolon.
abbrev pub IsCookie : Text × Text → Type 0
IsCookie c =
    (starts_white c.0 ≡ false)
    × All (λ u. u ≢ b'=') c.0
    × All (λ u. u ≢ b';') c.0
    × All (λ u. u ≢ b';') c.1

strip_prefix_name :
    (k n r : Text)
    → All (λ u. u ≢ b'=') k
    → All (λ u. u ≢ b'=') n
    → strip_prefix (k ++ b'=' ∷ []) (n ++ b'=' ∷ r) ≡ (if text_eq n k then some r else none)
unfolding strip_prefix text_eq
strip_prefix_name [] [] r h g = refl
strip_prefix_name [] (c ∷ n) r h g = ground (arith, g.0)
strip_prefix_name (a ∷ k) [] r h g = ground (arith, h.0)
strip_prefix_name (a ∷ k) (c ∷ n) r h g = ground (arith, strip_prefix_name k n r h.1 g.1)

take_while-append :
    (v r : Text) → All (λ u. u ≢ b';') v → take_while not_semicolon (v ++ b';' ∷ r) ≡ v
unfolding take_while
take_while-append [] r h = refl
take_while-append (c ∷ v) r h = ground (arith, h.0, take_while-append v r h.1)

take_while_self : (v : Text) → All (λ u. u ≢ b';') v → take_while not_semicolon v ≡ v
unfolding take_while
take_while_self [] h = refl
take_while_self (c ∷ v) h = ground (arith, h.0, take_while_self v h.1)

token_behind-append : (s t : Text) → All (λ u. u ≢ b';') s → token_behind (s ++ t) ≡ token_behind t
unfolding token_behind
token_behind-append [] t h = refl
token_behind-append (c ∷ s) t h = ground (arith, h.0, token_behind-append s t h.1)

token_here_name :
    (n r : Text)
    → All (λ u. u ≢ b'=') n
    → token_here (n ++ b'=' ∷ r)
      ≡ (if text_eq n token_cookie then nonempty (take_while not_semicolon r) else none)
unfolding token_here
token_here_name n r h = rw (strip_prefix_name token_cookie n r (omega arith) h) (ground arith)

drop_while_name :
    (n r : Text) → starts_white n ≡ false → drop_while is_white (b' ' ∷ (n ++ r)) ≡ n ++ r
unfolding drop_while
drop_while_name [] r h = cc
drop_while_name (c ∷ n) r h = rw h

drop_while-serialize :
    (jar : Pairs) → All IsCookie jar → drop_while is_white (b' ' ∷ serialize jar) ≡ serialize jar
unfolding serialize
drop_while-serialize [] h = unfold drop_while in refl
drop_while-serialize ((n, v) ∷ []) h = drop_while_name n (b'=' ∷ v) h.0.0
drop_while-serialize ((n, v) ∷ c ∷ jar) h = drop_while_name n _ h.0.0

token_behind_space : (s : Text) → token_behind (b' ' ∷ s) ≡ token_behind s
unfolding token_behind
token_behind_space s = refl

token_behind_name :
    (n r : Text) → All (λ u. u ≢ b';') n → token_behind (n ++ b'=' ∷ r) ≡ token_behind r
token_behind_name n r h = token_behind-append n (b'=' ∷ r) h ∙ (unfold token_behind in refl)

token_behind_of_plain : (v : Text) → All (λ u. u ≢ b';') v → token_behind v ≡ none
unfolding token_behind
token_behind_of_plain [] h = refl
token_behind_of_plain (c ∷ v) h = ground (arith, h.0, token_behind_of_plain v h.1)

token_behind-serialize :
    (jar : Pairs)
    → All IsCookie jar
    → token_behind (b';' ∷ b' ' ∷ serialize jar) ≡ match_token (serialize jar)
unfolding token_behind match_token
token_behind-serialize jar h = rw (drop_while-serialize jar h)

match_token-cons :
    (n v r : Text)
    → IsCookie (n, v)
    → match_token (n ++ b'=' ∷ (v ++ b';' ∷ r))
      ≡ first_of_two (if text_eq n token_cookie then nonempty v else none) (token_behind (b';' ∷ r))
unfolding match_token
match_token-cons n v r (w, e, s, t) =
    rw
      (
        token_here_name n (v ++ b';' ∷ r) e,
        take_while-append v r t,
        token_behind_name n (v ++ b';' ∷ r) s,
      )
      (ap (first_of_two (if text_eq n token_cookie then nonempty v else none))
        (token_behind-append v (b';' ∷ r) t))

-- In the text that a browser makes of its cookies the expression finds the first cookie named
-- `csrf_token` that has a value, and nothing if there is none.
pub match_token-serialize :
    (jar : Pairs) → All IsCookie jar → match_token (serialize jar) ≡ find_token jar
unfolding serialize find_token
match_token-serialize [] h = unfold match_token token_here token_behind in refl
match_token-serialize ((n, v) ∷ []) ((w, e, s, t), h) =
    unfold match_token in
    rw (
      token_here_name n v e,
      take_while_self v t,
      token_behind_name n v s,
      token_behind_of_plain v t,
    )
match_token-serialize ((n, v) ∷ c ∷ jar) (k, h) =
    match_token-cons n v (b' ' ∷ serialize (c ∷ jar)) k
    ∙ ap (first_of_two (if text_eq n token_cookie then nonempty v else none))
        (token_behind-serialize (c ∷ jar) h ∙ match_token-serialize (c ∷ jar) h)
