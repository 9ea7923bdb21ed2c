-- ===== src/Lib.antt =====
-- caslink: the browser side of the short-link server, with the parts of the server that it meets.
--
-- The front end is two scripts without a bundler. src/server/tmpl/static/js/app.js runs on every
-- page: it patches `window.fetch` so that calls carry the CSRF token, keeps the theme, and wires
-- copy buttons, forms that ask before they submit, the slug field of a new organisation, the
-- create form of the dashboard, the recovery keys page and passkey registration.
-- src/server/tmpl/static/sw.js is the service worker that answers for static files. On the server,
-- `CSRFMiddleware` of src/server/middleware.go checks the token that the patched `fetch` sends,
-- `csrfToken` of src/server/handler/helpers.go fills the meta element that the script reads, and
-- `ValidateOrgSlug` of src/server/validate/slug.go and `generateSlug` of src/server/service/org.go
-- judge and make the slugs that the script proposes. Users and organisations share a namespace, so
-- `ValidateUsername` of src/server/validate/username.go stands beside them, and so do the short
-- codes of src/server/service/url.go. `RateLimitMiddleware`, in the file of the CSRF check,
-- answers 429 to too many requests, and `realIPMiddleware` there decides which address it counts.
-- Two parts of the server run on the clock: src/scheduler/scheduler.go starts tasks when the
-- schedules of src/scheduler/cronexpr.go are due, and src/backup/retention.go says which archives
-- stay after a backup.
--
-- `RedirectURL` of src/server/handler/url.go sends a visitor on, by the queries and the link
-- options of src/server/service/url.go. A link has an owner; src/server/handler/url.go and
-- src/graphql/resolvers.go check in the same way who may change it, and `CanView` says who may see
-- it. The GraphQL endpoint parses a document by src/graphql/parser.go and runs its fields one by
-- one. src/server/service/totp.go keeps a user's second factor and the recovery keys, whose page
-- in the browser is part of app.js.
--
-- Files, one per component, with its theorems in the files of its folder:
--   Prelude    shared names, Boolean tests, lists, and texts as lists of code units or bytes
--   Platform   what stands on Unicode tables or percent decoding, as a record with laws on ASCII
--   Csrf       getCSRFToken and its regular expression; Csrf/Fetch the patched window.fetch
--   Server     Server/Csrf: CSRFMiddleware, ensureCSRFCookie; EndToEnd: with the page's calls
--   Confirm    buildConfirmDialog, askConfirm, onClose and the submit handler
--   Worker     install, activate and fetch handlers of the service worker
--   Base64     bufferEncode, bufferDecode on btoa and atob
--   Passkey    the promise chain behind the register button
--   Slug       the slug field in the browser; Slug/Form its two input handlers
--   OrgSlug    ValidateOrgSlug and generateSlug; Blocklist the reserved names
--   UserName   ValidateUsername; Namespace: names against slugs; Email: ValidateEmail
--   ShortCode  validateCustomCode and generateRandomCode; Generated: what the random codes are
--   RateLimit  rateBucket.allow, RateLimiter.Allow and gc, and RateLimitMiddleware; Track: one bucket;
--              Window: one key over a history; Halves: Allow in its two steps, on references to
--              buckets; Halves/Sound, Halves/Agreement: against a map of buckets; Domains,
--              VerifyPaths, Verifications: the rules in force
--   ClientIp   realIPMiddleware and realIP; Peers: who decides the address; Attempts: with the limiter
--   Scheduler  addTasks, loadOrInitTaskState, tick, runTask, SetTaskEnabled, RunNow; Locked, Critical:
--              the tasks that stay enabled; Retries, CatchUp
--   Cron       parseCronSchedule, parseCronField, parseCronRange; Range, Part, Field: what they accept;
--              Next: the next run
--   Retention  ApplyRetention and keepPeriodic; Sorts, Insertion: sorting; Periods, Survivors: what stays
--   Links      CanView, canViewURL, checkURLOwnership, checkOwnership, the owner of a new link; Access:
--              what the checks grant and hide
--   Redirect   RedirectURL, unlockURLOrPrompt, GetURLByCode and GetURLByCodeForOwner, DetectDeviceType,
--              SelectDestination, GeoAllowed; Rules: who may follow a link, in words; Served: who is redirected,
--              and where to; Reached: who is not refused
--   Graphql    valueNode, astField, astDocument; Lexer: lexGraphQL; Parser: gqlParser; Printer, Spelling:
--              a printer of documents and tokens; Integers, ReadValues, ReadFields, ReadDocuments,
--              ReadTokens, Names, ReadText: reading back what is printed; Fuel, Total, LexTotal: the
--              bounds are enough; Resolve: arguments; Execute: Execute, the dispatchers and project
--   Totp       EnableTOTP, DisableTOTP, UseRecoveryKey, GetRemainingRecoveryKeyCount, HasTOTP; Codes,
--              Lists, Spend: keys as a list; Count, Enrol
--   Recovery   the numbered text of the recovery keys, its download and copy, the continue button
--   Theme      applyTheme, cycleTheme, the restore on page load and the theme buttons
--   Copy       the copy-to-clipboard buttons and their timers
--   Widgets    Create: the create form of the dashboard; Install: the install prompt; Consent: the
--              consent banner; Flash: the messages that hide themselves; Language: the selector
--   Tests      runs at concrete inputs
--
-- State is passed explicitly: a page, a dialog, a button or a cache storage is a record, an event
-- handler a function on it, and what the user or the browser does a list of events. Timers and
-- unfinished cache writes are queues, fired by an event of their own. A promise chain is a result
-- type with `>>=`. What the browser's standards fix (the form submission algorithm, the headers
-- that a call sends, the Cache API, the forgiving base64 decoder) is written out where a handler
-- depends on it.
--
-- Loops are structural but for six. Confirm.submit_form nests a submission within itself; its
-- bound is two, since a nested submission of the same form is ignored. Recovery.decimal_with takes
-- one step for each digit and is given the number itself. Cron.mark takes one step for each value
-- that it passes, and the values grow, so the upper bound and one more is enough; the results on
-- fields include that it is. Cron.first_match has the 527041 rounds that the loop of `Next` is
-- written with.
--
-- Times are nanoseconds as natural numbers, an `int` has 64 bits, and sizes are natural numbers.
-- The lexer of GraphQL has a round for each byte and its parser twice as many calls on top of each
-- other as there are tokens, and three; the program has no such bounds, and a result on documents is
-- that they are never used up. Maps of arguments and data are lists of their writes, of which the
-- last for a key counts. The rows of two-factor authentication are those of one user; enrolling and
-- giving up are two statements each, whose outcomes are given, and the use of a key is one
-- transaction, which commits.
--
-- The map of buckets is a function from keys. In RateLimit a request takes its bucket and asks it
-- in one step, which stands for the two steps of the code as long as no collection comes between
-- them: RateLimit/Halves has both steps, with references to buckets, and the agreement of the two.
-- With a collection between them the code lets one request more pass, which a run in Tests shows.
--
-- Arguments that stand for code outside the repository: the case tables of Unicode and the
-- trimming of spaces (Platform), the network and the authenticator, random numbers,
-- `strings.Fields`, `time.ParseDuration`, the calendar and the time zones, `sort.Slice`, which
-- peers are trusted proxies, which texts `ParseFloat` accepts, JSON of a list of texts, the check
-- of a password hash, `net/url`, the country of an address, what the query of an owner's check
-- answers, and which removals of files, writes of rows and runs of tasks fail.
--
-- Not modelled: layout, style and focus; the failures of the clipboard of the copy buttons, which
-- the script ignores; the middleware of the limiter with a collection of buckets between the two
-- halves of a request; how ApplyRetention reads the directory and the size cap; what the tasks of
-- the scheduler do, their history and the lock of a cluster; the resolvers of GraphQL fields; the
-- encryption and the six-digit codes of two-factor authentication; the rest of the Go server, its
-- command line client and its templates, which are mostly SQL, files and calls of libraries.
pub mod Prelude
pub mod Platform
pub mod Blocklist
pub mod Slug
pub mod OrgSlug
pub mod UserName
pub mod Graphql
pub mod Links
pub mod Totp
pub mod Redirect
pub mod ClientIp
pub mod RateLimit
pub mod Cron
pub mod Retention
pub mod ShortCode
pub mod Scheduler
pub mod Base64
pub mod Csrf
pub mod Server
pub mod Worker
pub mod Confirm
pub mod Widgets
pub mod Passkey
pub mod Recovery
pub mod Theme
pub mod Copy
pub mod Tests
