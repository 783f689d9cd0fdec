-- ===== src/Routes.antt =====
-- server/main.py: the guards that every route goes through, and the response headers. A connection
-- is what they read of a `Request` or a `WebSocket`.
pub mod Origin
pub mod Server
pub mod Ending
pub mod Terminal
pub mod Keys
pub mod Refusals
pub mod Attached
pub mod Opening
pub mod Sparing
pub mod Messages
pub mod Serving
pub mod Watching
mod Tests
use wterm.Prelude.{
  ℕ, Bool, true, false, ◌&&◌, ◌||◌, not, Option, none, some, List, [], ◌∷◌, if◌then◌else◌, Text,
  codes, is_nil, ◌==◌, nat_key, list_key,
}
use wterm.Config.{Config, truthy, tls_enabled}
use wterm.Url.{Checks, Url, lower, rstrip_char, startswith, urlsplit}
use wterm.OrderedDict.{OrderedDict, get, put}

pub record Conn : Type 0 where
  pub client : Text
  -- the headers `origin`, `host` and `x-forwarded-proto`
  pub origin : Option Text
  pub host : Option Text
  pub forwarded_proto : Option Text
  -- `url.scheme`, which the server has corrected behind a proxy
  pub scheme : Text
  pub cookie : Option Text

abbrev pub is_tls_scheme : Text → Bool
is_tls_scheme scheme = scheme == codes "https" || scheme == codes "wss"

abbrev pub get_or : Text → Option Text → Text
get_or default none = default
get_or default (some value) = value

-- `_is_secure`
unfoldable pub is_secure : Config → Conn → Bool
is_secure config conn =
    if truthy config.uds
    then is_tls_scheme (lower (get_or (codes "https") conn.forwarded_proto))
    else if tls_enabled config
    then true
    else is_tls_scheme conn.scheme

unfoldable pub member : Text → List Text → Bool
member t [] = false
member t (u ∷ us) = t == u || member t us

-- The rule without a list: the authority is the Host header, and https is asked of a secure request.
abbrev pub matches_host : Config → Conn → Text → Url → Bool
matches_host config conn host parts =
    parts.netloc == lower host
    && (if is_secure config conn then parts.scheme == codes "https" else true)

abbrev pub same_host : Checks → Config → Conn → Text → Option Bool
same_host checks config conn origin = elim conn.host [
  | none ↦ some false
  | some host ↦ if is_nil host then some false else elim (urlsplit checks origin) [
    | none ↦ none
    | some parts ↦ some (matches_host config conn host parts)
  ]
]

abbrev pub judge_origin : Checks → Config → Conn → Text → Option Bool
judge_origin checks config conn origin =
    if is_nil config.allowed_origins
    then same_host checks config conn origin
    else some (member origin config.allowed_origins)

abbrev pub judge_sent : Checks → Config → Conn → Option Text → Option Bool
judge_sent checks config conn none = some false
judge_sent checks config conn (some origin) =
    if is_nil origin
    then some false
    else judge_origin checks config conn (lower (rstrip_char b'/' origin))

-- `origin_allowed`; `none` is the ValueError of `urlsplit`, which nothing catches.
unfoldable pub origin_allowed : Checks → Config → Conn → Option Bool
origin_allowed checks config conn = judge_sent checks config conn conn.origin

-- `_no_cache_path`
unfoldable pub no_cache_path : Text → Bool
no_cache_path path = path == codes "/" || startswith (codes "/static/") path

-- headers.setdefault(name, value)
abbrev pub setdefault : Text → Text → OrderedDict Text Text → OrderedDict Text Text
setdefault name value headers = elim (get name headers) [
  | none ↦ put name value headers
  | some old ↦ headers
]

abbrev pub security_headers : OrderedDict Text Text
security_headers =
    (
      codes "Content-Security-Policy",
      codes
          "default-src 'self'; script-src 'self'; style-src 'self' 'unsafe-inline'; img-src 'self'; font-src 'self'; connect-src 'self'; base-uri 'none'; form-action 'self'; frame-ancestors 'none'; object-src 'none'",
    )
    ∷ (codes "X-Content-Type-Options", codes "nosniff")
    ∷ (codes "Referrer-Policy", codes "no-referrer")
    ∷ (codes "X-Frame-Options", codes "DENY")
    ∷ (codes "Cross-Origin-Opener-Policy", codes "same-origin")
    ∷ (
      codes "Permissions-Policy",
      codes
          "accelerometer=(), camera=(), geolocation=(), gyroscope=(), microphone=(), payment=(), usb=()",
    )
    ∷ (codes "Cross-Origin-Resource-Policy", codes "same-origin")
    ∷ []

unfoldable pub set_each : OrderedDict Text Text → OrderedDict Text Text → OrderedDict Text Text
set_each [] headers = headers
set_each ((name, value) ∷ rest) headers = set_each rest (setdefault name value headers)

-- `add_security_headers` on the headers of the route's response. They are compared as the program
-- spells them, which is how all of its own responses do.
unfoldable pub add_security_headers : Text → OrderedDict Text Text → OrderedDict Text Text
unfolding set_each no_cache_path
add_security_headers path headers =
    let secured = set_each security_headers headers in
    if startswith (codes "/api/") path
    then setdefault (codes "Cache-Control") (codes "no-store") secured
    else if no_cache_path path
    then setdefault (codes "Cache-Control") (codes "no-cache") secured
    else secured
