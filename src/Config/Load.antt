-- ===== src/Config/Load.antt =====
-- server/config.py: `load_config` on the value that the file holds. Reading the file is not part of
-- it. The Argon2 library, `Path.resolve` with `is_dir`, and Python's parser of IPv6 addresses are
-- arguments. `none` is the ValueError that refuses the file.
use wterm.Prelude.{
  ℕ, zero, suc, ◌*◌, Bool, true, false, ◌&&◌, ◌||◌, not, Option, none, some, List, [], ◌∷◌, ◌++◌,
  leb, eqb, if◌then◌else◌, length, Text, codes, is_nil, is_some, all_chars, read_onto, ◌==◌,
  nat_key, list_key,
}
use wterm.Json
use wterm.Json.{Json, Items, Members, find}
use wterm.OrderedDict.{OrderedDict}
use wterm.Url.{Checks, lower, contains, split_at, startswith}
use wterm.Config.{
  Project, Config, truthy, strip, project_args, project_env, integer, optional_string,
}
use wterm.Config.Origins.{allowed_origins, is_listed}

infixl 5 ◌>>=◌
-- An exception ends the function.
abbrev pub ◌>>=◌ {ℓ κ} : {A : Type ℓ} {B : Type κ} → Option A → (A → Option B) → Option B
none >>= f = none
some a >>= f = f a

-- What the library says of a hash: it verifies the probe or refuses it, or the hash is no hash.
pub data HashCheck : Type 0 where
  verified mismatch invalid : HashCheck

pub record Outside : Type 0 where
  pub hash_check : Text → HashCheck
  -- `Path.resolve`, which may raise, as for a path with a NUL: the resolved path, if it is a directory
  pub directory : Text → Option (Option Text)
  pub is_loopback_v6 : Text → Bool
  pub checks : Checks

abbrev pub is_valid_hash : HashCheck → Bool
is_valid_hash verified = true
is_valid_hash mismatch = true
is_valid_hash invalid = false

abbrev pub checked_hash : Outside → Option Text → Option (Option Text)
checked_hash world none = some none
checked_hash world (some value) =
    if startswith (codes "$argon2id$") value && is_valid_hash (world.hash_check value)
    then some (some value)
    else none

-- `_password_hash`
unfoldable pub password_hash : Outside → Members → Option (Option Text)
unfolding optional_string
password_hash world raw = optional_string raw (codes "password_hash") >>= checked_hash world

abbrev pub is_digits : Text → Bool
is_digits t = not (is_nil t) && all_chars (λ c. leb b'0' c && leb c b'9') t

abbrev pub is_leading_zero : Text → Bool
is_leading_zero [] = false
is_leading_zero (c ∷ t) = eqb c b'0' && not (is_nil t)

-- A number of a dotted address.
unfoldable pub is_octet : Text → Bool
is_octet t = is_digits t && leb (length t) 3 && not (is_leading_zero t) && leb (read_onto 0 t) 255

-- So many octets between dots.
unfoldable pub are_octets : ℕ → Text → Bool
unfolding is_octet
are_octets zero t = is_octet t
are_octets (suc n) t = elim (split_at b'.' t) [
  | none ↦ false
  | some (octet, rest) ↦ is_octet octet && are_octets n rest
]

-- `ipaddress.IPv4Address(host).is_loopback`: 127.0.0.0/8
unfoldable pub is_loopback_v4 : Text → Bool
is_loopback_v4 host = startswith (codes "127.") host && are_octets 3 host

-- `_is_loopback_host`
unfoldable pub is_loopback_host : Outside → Text → Bool
unfolding is_loopback_v4
is_loopback_host world host =
    lower host == codes "localhost"
    || is_loopback_v4 host
    || (contains b':' host && world.is_loopback_v6 host)

abbrev pub non_blank : Text → Option Text
non_blank t = let text = strip t in if is_nil text then none else some text

-- A value that must be a text with something in it.
abbrev pub text_value : Option Json → Option Text
text_value (some (Json.str t)) = non_blank t
text_value other = none

unfoldable pub host_of : Members → Option Text
unfolding strip
host_of raw = elim (find (codes "host") raw) [
  | none ↦ some (codes "127.0.0.1")
  | some value ↦ text_value (some value)
]

-- The field `ssh`: missing or null is none.
abbrev pub ssh_value : Option Json → Option (Option Text)
ssh_value none = some none
ssh_value (some Json.null) = some none
ssh_value (some (Json.str t)) = non_blank t >>= (λ text. some (some text))
ssh_value (some other) = none

abbrev pub project_at :
    Text → Text → Option Text → OrderedDict Text (List Text) → OrderedDict Text Text → Project
project_at name path ssh args env = record {
  name = name;
  path = path;
  ssh = ssh;
  args = args;
  env = env;
}

-- A local directory that does not exist is left out with a warning.
abbrev pub place :
    Outside
    → Text
    → Text
    → Option Text
    → OrderedDict Text (List Text)
    → OrderedDict Text Text
    → Option (Option Project)
place world name path (some host) args env = some (some (project_at name path (some host) args env))
place world name path none args env = elim (world.directory path) [
  | none ↦ none
  | some none ↦ some none
  | some (some resolved) ↦ some (some (project_at name resolved none args env))
]

-- The fields of a project after its name, and the project unless it is left out.
abbrev pub project_fields : Outside → Text → Members → Option (Option Project)
project_fields world name item = do
  path ← text_value (find (codes "path") item)
  ssh ← ssh_value (find (codes "ssh") item)
  args ← project_args (find (codes "args") item)
  env ← project_env (find (codes "env") item)
  place world name path ssh args env

abbrev pub append_some : List Project → Option Project → List Project
append_some projects none = projects
append_some projects (some p) = projects ++ p ∷ []

-- The loop over the projects, with the names and the projects so far.
unfoldable pub projects_onto : Outside → List Text → List Project → Items → Option (List Project)
unfolding is_listed
projects_onto world names projects Json.nil = some projects
projects_onto world names projects (Json.item (Json.object item) rest) =
    text_value (find (codes "name") item) >>= (λ name.
      if is_listed name names
      then none
      else project_fields world name item
        >>= (λ p. projects_onto world (names ++ name ∷ []) (append_some projects p) rest))
projects_onto world names projects (Json.item other rest) = none

abbrev pub projects_value : Outside → Option Json → Option (List Project)
projects_value world none = some []
projects_value world (some (Json.array items)) = projects_onto world [] [] items
projects_value world (some other) = none

abbrev pub bool_value : Option Json → Option Bool
bool_value none = some false
bool_value (some (Json.bool b)) = some b
bool_value (some other) = none

-- The policy for a listener that other hosts reach.
abbrev pub is_refused : Outside → Config → Bool
is_refused world c =
    not (is_some c.uds)
    && not (is_loopback_host world c.host)
    && not c.allow_insecure_tcp
    && (not (is_some c.password_hash) || not (truthy c.tls_certfile && truthy c.tls_keyfile))

abbrev pub differs : Bool → Bool → Bool
differs true b = not b
differs false b = b

unfoldable pub load_members : Outside → Members → Option Config
unfolding host_of integer optional_string password_hash allowed_origins find projects_onto
    is_loopback_host
load_members world raw = do
  host ← host_of raw
  port ← integer raw (codes "port") 8877 1 65535
  grace ← integer raw (codes "grace_seconds") 60 0 (24 * 60 * 60)
  idle ← integer raw (codes "idle_seconds") 0 0 (365 * 24 * 60 * 60)
  uds ← optional_string raw (codes "uds")
  hash ← password_hash world raw
  origins ← allowed_origins world.checks raw
  certfile ← optional_string raw (codes "tls_certfile")
  keyfile ← optional_string raw (codes "tls_keyfile")
  if differs (truthy certfile) (truthy keyfile) then none else (do
    insecure ← bool_value (find (codes "allow_insecure_tcp") raw)
    projects ← projects_value world (find (codes "projects") raw)
    let c : Config = record {
      host = host;
      port = port;
      uds = uds;
      grace_seconds = grace;
      idle_seconds = idle;
      password_hash = hash;
      allowed_origins = origins;
      tls_certfile = certfile;
      tls_keyfile = keyfile;
      allow_insecure_tcp = insecure;
      projects = projects;
    }
    if is_refused world c then none else some c)

-- `load_config`, from the value of the file.
unfoldable pub load_config : Outside → Json → Option Config
unfolding load_members
load_config world (Json.object raw) = load_members world raw
load_config world other = none
