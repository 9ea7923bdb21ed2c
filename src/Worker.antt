-- ===== src/Worker.antt =====
-- The service worker, src/server/tmpl/static/sw.js, on the Cache API of the browser: named caches in
-- the order of their creation, each a list of entries by address. Writing a fetched response to the
-- cache is a promise that the handler does not wait for, so such writes are pending until a step
-- of their own. An address of the site's own origin is written without the origin, as the script
-- writes it; requests and cache entries are compared by address only.
pub mod Caches
pub mod History
pub mod Offline
use caslink.Prelude.{
  ℕ, Text, codes, text_eq, strip_prefix, Bool, true, false, not, List, [], ◌∷◌, ◌++◌, ◌&&◌, Option,
  none, some, if◌then◌else◌, is_some, keep_if, leb, ltb,
}

-- A response, as its status and its body.
pub record Response : Type 0 where
  pub status : ℕ
  pub body : Text

abbrev pub Cache : Type 0
Cache = List (Text × Response)

abbrev pub Caches : Type 0
Caches = List (Text × Cache)

-- The caches, and the writes that `c.put` has yet to make.
pub record State : Type 0 where
  pub caches : Caches
  pub pending : List (Text × Response)

abbrev pub cache_name : Text
cache_name = codes "caslink-v1"

abbrev pub precache : List Text
precache = codes "/static/css/app.css" ∷ codes "/static/js/app.js" ∷ []

-- What the network answers to a request for an address; `none` is a network error.
abbrev pub Network : Type 0
Network = Text → Option Response

-- `cache.put`: the entry of that address is replaced.
unfoldable pub put : Text → Response → Cache → Cache
put url r [] = (url, r) ∷ []
put url r ((u, q) ∷ c) = if text_eq u url then (url, r) ∷ c else (u, q) ∷ put url r c

-- `cache.match`
unfoldable pub find : Text → Cache → Option Response
find url [] = none
find url ((u, q) ∷ c) = if text_eq u url then some q else find url c

-- `caches.open(name)`, which makes a missing cache, and a write to the cache.
unfoldable pub update : Text → (Cache → Cache) → Caches → Caches
update name f [] = (name, f []) ∷ []
update name f ((n, c) ∷ cs) = if text_eq n name then (n, f c) ∷ cs else (n, c) ∷ update name f cs

abbrev pub first_found : Option Response → Option Response → Option Response
first_found none later = later
first_found (some r) later = some r

-- `caches.match`: the caches in order.
unfoldable pub find_any : Text → Caches → Option Response
find_any url [] = none
find_any url ((n, c) ∷ cs) = first_found (find url c) (find_any url cs)

-- `response.ok`: a status from 200 to 299.
abbrev pub is_ok : Response → Bool
is_ok r = leb 200 r.status && ltb r.status 300

abbrev pub add_response : Text → Option Response → Option Cache → Option Cache
add_response url (some r) (some rest) = if is_ok r then some ((url, r) ∷ rest) else none
add_response url _ _ = none

-- The responses for `addAll`, which fails if one of them is missing or not ok.
unfoldable pub fetch_all : Network → List Text → Option Cache
fetch_all net [] = some []
fetch_all net (url ∷ urls) = add_response url (net url) (fetch_all net urls)

unfoldable pub put_all : Cache → Cache → Cache
put_all [] c = c
put_all ((u, r) ∷ rs) c = put_all rs (put u r c)

abbrev pub install_with : State → Option Cache → State × Bool
install_with s none = (record s { caches = update cache_name (λ c. c) s.caches }, false)
install_with s (some rs) = (record s { caches = update cache_name (put_all rs) s.caches }, true)

-- The `install` event, and whether it succeeded. `skipWaiting` concerns no state of the script.
unfoldable pub on_install : Network → State → State × Bool
on_install net s = install_with s (fetch_all net precache)

-- The `activate` event: every other cache is deleted.
unfoldable pub on_activate : State → State
on_activate s = record s { caches = keep_if (λ c. text_eq c.0 cache_name) s.caches }

-- The request of a `fetch` event: method, address, and the path in the address.
pub record Request : Type 0 where
  pub method : Text
  pub url : Text
  pub pathname : Text

-- The two early returns: GET requests below /static/ only.
unfoldable pub is_handled : Request → Bool
unfolding strip_prefix
is_handled req =
    text_eq req.method (codes "GET") && is_some (strip_prefix (codes "/static/") req.pathname)

abbrev pub from_network : State → Text → Option Response → State × Option Response
from_network s url none = (s, none)
from_network s url (some r) = (record s { pending = s.pending ++ (url, r) ∷ [] }, some r)

abbrev pub cached_or_fetched : Network → State → Text → Option Response → State × Option Response
cached_or_fetched net s url (some r) = (s, some r)
cached_or_fetched net s url none = from_network s url (net url)

-- The `fetch` event, with the response that the page gets. Without `respondWith` the browser asks
-- the network itself.
unfoldable pub on_fetch : Network → Request → State → State × Option Response
on_fetch net req s =
    if is_handled req
    then cached_or_fetched net s req.url (find_any req.url s.caches)
    else (s, net req.url)

abbrev pub write_first : List (Text × Response) → State → State
write_first [] s = s
write_first ((url, r) ∷ rest) s = record {
  caches = update cache_name (put url r) s.caches;
  pending = rest;
}

-- The first pending write is made: `caches.open(CACHE)`, then `c.put`.
unfoldable pub settle : State → State
settle s = write_first s.pending s
