-- ===== src/Routes/Origin.antt =====
-- server/main.py, `origin_allowed` on what browsers send.
use wterm.Prelude.{
  ℕ, ◌≡◌, ◌≢◌, refl, ap, ◌∙◌, true, false, ◌&&◌, not, some, [], ◌∷◌, ◌++◌, if◌then◌else◌, all_chars,
  Text, codes, is_nil, ◌==◌, nat_key, list_key, arith, eqb,
}
use wterm.Config.{Config}
use wterm.Url.{Checks, lower_char, lower, rstrip_char, is_scheme}
use wterm.Url.Origin.{
  replicate, origin_text, is_authority_char, all_chars-imp, lower-append, lower_idem,
  lower-is_scheme, lower-authority, urlsplit-origin_text, rstrip_char-append, rstrip_char-none,
  rstrip_char-replicate,
}
use wterm.Routes.{Conn, is_secure, same_host, judge_origin, judge_sent, member, origin_allowed}

origin_text-rstrip :
    (scheme authority : Text) (slashes : ℕ)
    → all_chars is_authority_char authority ≡ true
    → authority ≢ []
    → rstrip_char b'/' (origin_text scheme authority ++ replicate slashes b'/')
      ≡ origin_text scheme authority
origin_text-rstrip scheme authority slashes h full =
    let no_slash : all_chars (λ c. not (eqb c b'/')) authority ≡ true =
      all_chars-imp is_authority_char (λ c. not (eqb c b'/')) authority (λ c h'. ground arith) h in
    rstrip_char-replicate b'/' slashes (origin_text scheme authority)
    ∙ rstrip_char-append b'/' scheme (codes "://" ++ authority)
        (rstrip_char-append b'/' (codes "://") authority (rstrip_char-none b'/' authority no_slash)
          full)
        (λ e. cc)

origin_text-lower :
    (scheme authority : Text)
    → lower (origin_text scheme authority) ≡ origin_text (lower scheme) (lower authority)
unfolding lower_char
origin_text-lower scheme authority = lower-append scheme (codes "://" ++ authority)

-- The comparison on an origin that is lower-cased; an empty host is the host of no authority.
same_host-origin_text :
    (checks : Checks) (config : Config) (conn : Conn) (scheme authority host : Text)
    → conn.host ≡ some host
    → is_scheme scheme ≡ true
    → all_chars is_authority_char authority ≡ true
    → authority ≢ []
    → same_host checks config conn (origin_text scheme authority)
      ≡ some (
          authority == lower host
          && (if is_secure config conn then lower scheme == codes "https" else true))
same_host-origin_text checks config conn scheme [] host header hs ha full = absurd (full refl)
same_host-origin_text checks config conn scheme (a ∷ authority) [] header hs ha full = rw header
same_host-origin_text checks config conn scheme (a ∷ authority) (h ∷ host) header hs ha full =
    rw (header, urlsplit-origin_text checks scheme (a ∷ authority) hs ha)

lower-nil : (t : Text) → t ≢ [] → lower t ≢ []
lower-nil [] full = absurd (full refl)
lower-nil (c ∷ t) full = λ e. cc

sent-is_nil :
    (scheme authority : Text) (slashes : ℕ)
    → is_scheme scheme ≡ true
    → is_nil (origin_text scheme authority ++ replicate slashes b'/') ≡ false
unfolding is_scheme
sent-is_nil [] authority slashes h = absurd (cc)
sent-is_nil (c ∷ scheme) authority slashes h = refl

sent-judged :
    (checks : Checks) (config : Config) (conn : Conn) (origin lowered : Text)
    → config.allowed_origins ≡ []
    → is_nil origin ≡ false
    → lower (rstrip_char b'/' origin) ≡ lowered
    → judge_sent checks config conn (some origin) ≡ same_host checks config conn lowered
sent-judged checks config conn origin lowered none_listed full same = rw full (
    ap (judge_origin checks config conn) same
    ∙ ap (λ l. if is_nil l then same_host checks config conn lowered else some (member lowered l))
        none_listed)

-- An origin of a scheme and an authority of visible ASCII characters, in any case and with any
-- number of slashes behind it, is allowed where no origin is configured exactly if the authority
-- is the Host header up to case, and the scheme is https if the request is secure.
pub origin_allowed-same_origin :
    (checks : Checks) (config : Config) (conn : Conn) (scheme authority host : Text) (slashes : ℕ)
    → config.allowed_origins ≡ []
    → conn.origin ≡ some (origin_text scheme authority ++ replicate slashes b'/')
    → conn.host ≡ some host
    → is_scheme scheme ≡ true
    → all_chars is_authority_char authority ≡ true
    → authority ≢ []
    → origin_allowed checks config conn
      ≡ some (
          lower authority == lower host
          && (if is_secure config conn then lower scheme == codes "https" else true))
unfolding origin_allowed
origin_allowed-same_origin checks config conn scheme authority host slashes none_listed sent header
      hs ha full =
    let lowered : lower (rstrip_char b'/' (origin_text scheme authority ++ replicate slashes b'/'))
        ≡ origin_text (lower scheme) (lower authority) =
      ap lower (origin_text-rstrip scheme authority slashes ha full)
      ∙ origin_text-lower scheme authority in
    ap (judge_sent checks config conn) sent
    ∙ sent-judged checks config conn _ _ none_listed (sent-is_nil scheme authority slashes hs)
        lowered
    ∙ same_host-origin_text checks config conn (lower scheme) (lower authority) host header
        (lower-is_scheme scheme hs) (lower-authority authority ha) (lower-nil authority full)
    ∙ ap
        (λ s. some (
          lower authority == lower host
          && (if is_secure config conn then s == codes "https" else true)))
        (lower_idem scheme)
