-- ===== src/Config/Accepted.antt =====
-- server/config.py: what `load_config` lets through.
use wterm.Prelude.{
  [], ◌∷◌, subst, ◌*◌, ◌≤◌, ◌≡◌, refl, sym, Bool, true, false, ◌&&◌, not, Option, none, some,
  if◌then◌else◌, Text, codes, is_some, Bool-cases, inl, inr, nat_key, list_key, arith,
}
use wterm.Json.{Json, Members, find}
use wterm.Url.{startswith}
use wterm.Config.{Config, truthy, tls_enabled, integer, optional_string}
use wterm.Config.Values.{integer-bounds, optional_string-text}
use wterm.Config.Origins.{allowed_origins}
use wterm.Config.Load.{
  Outside, is_valid_hash, checked_hash, password_hash, host_of, is_loopback_host, is_refused,
  differs, bool_value, projects_value, load_members, load_config,
}
use wterm.Config.Names.{>>=-some, IsUnique, projects_value-IsUnique}

-- Whether other hosts reach the listener, and the file does not accept the risk.
abbrev pub is_exposed : Outside → Config → Bool
is_exposed world c =
    not (is_some c.uds) && not (is_loopback_host world c.host) && not c.allow_insecure_tcp

abbrev pub IsHash : Outside → Option Text → Type 0
IsHash world none = Unit
IsHash world (some hash) =
    (startswith (codes "$argon2id$") hash ≡ true) × (is_valid_hash (world.hash_check hash) ≡ true)

pub record IsAccepted (world : Outside) (c : Config) : Type 0 where
  pub port_low : 1 ≤ c.port
  pub port_high : c.port ≤ 65535
  pub grace : c.grace_seconds ≤ 24 * 60 * 60
  pub idle : c.idle_seconds ≤ 365 * 24 * 60 * 60
  pub hash : IsHash world c.password_hash
  pub paired : truthy c.tls_certfile ≡ truthy c.tls_keyfile
  pub unique : IsUnique c.projects
  pub socket : is_some c.uds ≡ truthy c.uds
  pub protected :
      is_exposed world c ≡ true → (is_some c.password_hash ≡ true) × (tls_enabled c ≡ true)

checked_hash-IsHash :
    (world : Outside) (value hash : Option Text)
    → checked_hash world value ≡ some hash
    → IsHash world hash
checked_hash-IsHash world none hash h =
    (let same : none ≡ hash = cc in subst (IsHash world) same tt)
checked_hash-IsHash world (some value) hash h =
    elim (Bool-cases
      (startswith (codes "$argon2id$") value && is_valid_hash (world.hash_check value))) [
        | inr bad ↦ absurd (let gone : none ≡ some hash = (rw bad at h) in cc)
        | inl fine ↦
            let here : some (some value) ≡ some hash = (rw fine at h) in
            let same : some value ≡ hash = cc in
            subst (IsHash world) same (ground (arith, fine), ground (arith, fine))
      ]

password_hash-IsHash :
    (world : Outside) (raw : Members) (hash : Option Text)
    → password_hash world raw ≡ some hash
    → IsHash world hash
unfolding password_hash
password_hash-IsHash world raw hash h =
    let (value, _, h1) = >>=-some (optional_string raw (codes "password_hash")) _ hash h in
    checked_hash-IsHash world value hash h1

not_none {ℓ} :
    {A : Type ℓ} (b : Bool) (o : Option A) (a : A)
    → (if b then none else o) ≡ some a
    → (b ≡ false) × (o ≡ some a)
not_none true o a h = absurd (cc)
not_none false o a h = (refl, h)

some-injective : (a b : Config) → some a ≡ some b → a ≡ b
some-injective a b h = cc

-- An optional text that is accepted is not empty.
given-truthy :
    (raw : Members) (name : Text) (value : Option Text)
    → optional_string raw name ≡ some value
    → is_some value ≡ truthy value
given-truthy raw name none h = refl
given-truthy raw name (some []) h =
    absurd (let (full, _, _) = optional_string-text raw name [] h in full refl)
given-truthy raw name (some (c ∷ t)) h = refl

differs-same : (a b : Bool) → differs a b ≡ false → a ≡ b
differs-same true b h = ground (arith, h)
differs-same false b h = sym h

accepted-protected :
    (world : Outside) (c : Config)
    → is_refused world c ≡ false
    → is_exposed world c ≡ true
    → (is_some c.password_hash ≡ true) × (tls_enabled c ≡ true)
accepted-protected world c fine exposed = ground arith

load_members-IsAccepted :
    (world : Outside) (raw : Members) (c : Config)
    → load_members world raw ≡ some c
    → IsAccepted world c
unfolding load_members
load_members-IsAccepted world raw c h =
    let (host, e1, h1) = >>=-some (host_of raw) _ c h in
    let (port, e2, h2) = >>=-some (integer raw (codes "port") 8877 1 65535) _ c h1 in
    let (grace, e3, h3) =
      >>=-some (integer raw (codes "grace_seconds") 60 0 (24 * 60 * 60)) _ c h2 in
    let (idle, e4, h4) =
      >>=-some (integer raw (codes "idle_seconds") 0 0 (365 * 24 * 60 * 60)) _ c h3 in
    let (uds, e5, h5) = >>=-some (optional_string raw (codes "uds")) _ c h4 in
    let (hash, e6, h6) = >>=-some (password_hash world raw) _ c h5 in
    let (origins, e7, h7) = >>=-some (allowed_origins world.checks raw) _ c h6 in
    let (certfile, e8, h8) = >>=-some (optional_string raw (codes "tls_certfile")) _ c h7 in
    let (keyfile, e9, h9) = >>=-some (optional_string raw (codes "tls_keyfile")) _ c h8 in
    let (pair, h9') = not_none (differs (truthy certfile) (truthy keyfile)) _ c h9 in
    let (insecure, e10, h10) =
      >>=-some (bool_value (find (codes "allow_insecure_tcp") raw)) _ c h9' in
    let (projects, e11, h11) =
      >>=-some (projects_value world (find (codes "projects") raw)) _ c h10 in
    let made : Config = record {
      host = host;
      port = port;
      uds = uds;
      grace_seconds = grace;
      idle_seconds = idle;
      password_hash = hash;
      allowed_origins = origins;
      tls_certfile = certfile;
      tls_keyfile = keyfile;
      allow_insecure_tcp = insecure;
      projects = projects;
    } in
    let (fine, here) = not_none (is_refused world made) (some made) c h11 in
    let (low, high, _) = integer-bounds raw (codes "port") 8877 1 65535 port e2 in
    subst (IsAccepted world) (some-injective made c here) (record {
      port_low = low;
      port_high = high;
      grace = (integer-bounds raw (codes "grace_seconds") 60 0 (24 * 60 * 60) grace e3).1;
      idle = (integer-bounds raw (codes "idle_seconds") 0 0 (365 * 24 * 60 * 60) idle e4).1;
      hash = password_hash-IsHash world raw hash e6;
      paired = differs-same (truthy certfile) (truthy keyfile) pair;
      unique = projects_value-IsUnique world (find (codes "projects") raw) projects e11;
      socket = given-truthy raw (codes "uds") uds e5;
      protected = accepted-protected world made fine;
    })

-- A configuration that is accepted is sound. The port and the two spans are within their bounds; a
-- password hash has the form of Argon2id, and the library reads it; the certificate and the key are
-- there together or not at all; the path of a Unix socket is not empty; no two projects have the same name; and if the server listens on an
-- address that is no loopback, without a Unix socket and without `allow_insecure_tcp`, then it has
-- a password hash and TLS.
pub load_config-IsAccepted :
    (world : Outside) (value : Json) (c : Config)
    → load_config world value ≡ some c
    → IsAccepted world c
unfolding load_config
load_config-IsAccepted world (Json.object raw) c h = load_members-IsAccepted world raw c h
load_config-IsAccepted world Json.null c h = absurd (cc)
load_config-IsAccepted world (Json.bool b) c h = absurd (cc)
load_config-IsAccepted world (Json.int n) c h = absurd (cc)
load_config-IsAccepted world Json.float c h = absurd (cc)
load_config-IsAccepted world (Json.str t) c h = absurd (cc)
load_config-IsAccepted world (Json.array items) c h = absurd (cc)
