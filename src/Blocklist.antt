-- ===== src/Blocklist.antt =====
-- The names that neither a user nor an organisation may take: `UsernameBlocklist` of
-- src/server/validate/username.go, in the order of the source.
use caslink.Prelude.{String, List, [], ◌∷◌}

unfoldable pub username_blocklist : List String
username_blocklist =
    "admin" ∷ "administrator" ∷ "root" ∷ "system" ∷ "sysadmin" ∷ "superuser" ∷ "master" ∷ "owner"
    ∷ "operator" ∷ "manager" ∷ "moderator" ∷ "mod" ∷ "staff" ∷ "support" ∷ "helpdesk" ∷ "help"
    ∷ "service" ∷ "daemon" ∷ "server" ∷ "host" ∷ "node" ∷ "cluster" ∷ "api" ∷ "www" ∷ "web" ∷ "mail"
    ∷ "email" ∷ "smtp" ∷ "ftp" ∷ "ssh" ∷ "dns" ∷ "proxy" ∷ "gateway" ∷ "router" ∷ "firewall"
    ∷ "localhost" ∷ "local" ∷ "internal" ∷ "external" ∷ "public" ∷ "private" ∷ "network"
    ∷ "database" ∷ "db" ∷ "cache" ∷ "redis" ∷ "mysql" ∷ "postgres" ∷ "mongodb" ∷ "elastic" ∷ "nginx"
    ∷ "apache" ∷ "docker" ∷ "app" ∷ "application" ∷ "bot" ∷ "robot" ∷ "crawler" ∷ "spider"
    ∷ "scraper" ∷ "webhook" ∷ "callback" ∷ "cron" ∷ "scheduler" ∷ "worker" ∷ "queue" ∷ "job"
    ∷ "task" ∷ "process" ∷ "service" ∷ "microservice" ∷ "lambda" ∷ "function" ∷ "auth"
    ∷ "authentication" ∷ "login" ∷ "logout" ∷ "signin" ∷ "signout" ∷ "signup" ∷ "register"
    ∷ "password" ∷ "passwd" ∷ "token" ∷ "oauth" ∷ "sso" ∷ "saml" ∷ "ldap" ∷ "kerberos" ∷ "security"
    ∷ "secure" ∷ "ssl" ∷ "tls" ∷ "certificate" ∷ "cert" ∷ "key" ∷ "secret" ∷ "credential"
    ∷ "session" ∷ "guest" ∷ "anonymous" ∷ "anon" ∷ "user" ∷ "users" ∷ "member" ∷ "members"
    ∷ "subscriber" ∷ "editor" ∷ "author" ∷ "contributor" ∷ "reviewer" ∷ "auditor" ∷ "analyst"
    ∷ "developer" ∷ "dev" ∷ "devops" ∷ "engineer" ∷ "architect" ∷ "designer" ∷ "tester" ∷ "qa"
    ∷ "billing" ∷ "finance" ∷ "legal" ∷ "hr" ∷ "sales" ∷ "marketing" ∷ "ceo" ∷ "cto" ∷ "cfo" ∷ "coo"
    ∷ "founder" ∷ "cofounder" ∷ "account" ∷ "accounts" ∷ "profile" ∷ "profiles" ∷ "settings"
    ∷ "config" ∷ "configuration" ∷ "dashboard" ∷ "panel" ∷ "console" ∷ "portal" ∷ "home" ∷ "index"
    ∷ "main" ∷ "default" ∷ "null" ∷ "nil" ∷ "undefined" ∷ "void" ∷ "true" ∷ "false" ∷ "test"
    ∷ "testing" ∷ "debug" ∷ "demo" ∷ "example" ∷ "sample" ∷ "temp" ∷ "temporary" ∷ "tmp" ∷ "backup"
    ∷ "archive" ∷ "log" ∷ "logs" ∷ "audit" ∷ "report" ∷ "reports" ∷ "analytics" ∷ "stats" ∷ "status"
    ∷ "api" ∷ "rest" ∷ "graphql" ∷ "grpc" ∷ "websocket" ∷ "ws" ∷ "wss" ∷ "http" ∷ "https"
    ∷ "endpoint" ∷ "endpoints" ∷ "route" ∷ "routes" ∷ "path" ∷ "url" ∷ "uri" ∷ "callback" ∷ "hook"
    ∷ "hooks" ∷ "event" ∷ "events" ∷ "stream" ∷ "blog" ∷ "news" ∷ "article" ∷ "articles" ∷ "post"
    ∷ "posts" ∷ "page" ∷ "pages" ∷ "feed" ∷ "rss" ∷ "atom" ∷ "sitemap" ∷ "robots" ∷ "favicon"
    ∷ "static" ∷ "assets" ∷ "images" ∷ "image" ∷ "img" ∷ "media" ∷ "upload" ∷ "uploads" ∷ "download"
    ∷ "downloads" ∷ "file" ∷ "files" ∷ "document" ∷ "documents" ∷ "contact" ∷ "message" ∷ "messages"
    ∷ "chat" ∷ "notification" ∷ "notifications" ∷ "alert" ∷ "alerts" ∷ "inbox" ∷ "outbox" ∷ "sent"
    ∷ "draft" ∷ "drafts" ∷ "spam" ∷ "abuse" ∷ "report" ∷ "flag" ∷ "block" ∷ "mute" ∷ "ban" ∷ "shop"
    ∷ "store" ∷ "cart" ∷ "checkout" ∷ "order" ∷ "orders" ∷ "invoice" ∷ "invoices" ∷ "payment"
    ∷ "payments" ∷ "subscription" ∷ "subscriptions" ∷ "plan" ∷ "plans" ∷ "pricing" ∷ "billing"
    ∷ "refund" ∷ "coupon" ∷ "discount" ∷ "follow" ∷ "follower" ∷ "followers" ∷ "following"
    ∷ "friend" ∷ "friends" ∷ "like" ∷ "likes" ∷ "share" ∷ "shares" ∷ "comment" ∷ "comments"
    ∷ "reply" ∷ "mention" ∷ "mentions" ∷ "tag" ∷ "tags" ∷ "group" ∷ "groups" ∷ "team" ∷ "teams"
    ∷ "community" ∷ "communities" ∷ "forum" ∷ "forums" ∷ "channel" ∷ "channels" ∷ "official"
    ∷ "verified" ∷ "trusted" ∷ "partner" ∷ "affiliate" ∷ "sponsor" ∷ "brand" ∷ "trademark"
    ∷ "copyright" ∷ "legal" ∷ "terms" ∷ "privacy" ∷ "policy" ∷ "policies" ∷ "tos" ∷ "eula" ∷ "gdpr"
    ∷ "dmca" ∷ "abuse" ∷ "fuck" ∷ "shit" ∷ "ass" ∷ "bitch" ∷ "bastard" ∷ "damn" ∷ "cunt" ∷ "dick"
    ∷ "penis" ∷ "vagina" ∷ "sex" ∷ "porn" ∷ "xxx" ∷ "nude" ∷ "naked" ∷ "nsfw" ∷ "kill" ∷ "murder"
    ∷ "death" ∷ "die" ∷ "suicide" ∷ "hate" ∷ "nazi" ∷ "hitler" ∷ "racist" ∷ "racism" ∷ "terrorist"
    ∷ "terrorism" ∷ "isis" ∷ "alqaeda" ∷ "0" ∷ "1" ∷ "123" ∷ "1234" ∷ "12345" ∷ "000" ∷ "111"
    ∷ "666" ∷ "911" ∷ "420" ∷ "69" ∷ "info" ∷ "noreply" ∷ "no-reply" ∷ "donotreply" ∷ "mailer"
    ∷ "postmaster" ∷ "webmaster" ∷ "hostmaster" ∷ "abuse" ∷ "spam" ∷ "junk" ∷ "trash" ∷ "caslink"
    ∷ "webappsgo" ∷ []
