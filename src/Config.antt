-- ===== src/Config.antt =====
-- server/config.py: the checks of the fields of projects.json, and the look-up of a project. `none`
-- is the ValueError that refuses the file; its message is not kept.
pub mod Entries
pub mod Arguments
pub mod Values
pub mod Origins
pub mod Load
pub mod Names
pub mod Accepted
mod Tests
use wterm.Prelude.{
  ℕ, Bool, true, false, ◌&&◌, ◌||◌, not, Option, none, some, List, [], ◌∷◌, leb, eqb, if◌then◌else◌,
  Text, codes, is_nil, ◌==◌, nat_key, list_key,
}
use wterm.Prelude.Int.{ℤ, pos, negsuc}
use wterm.Json
use wterm.Json.{Json, Items, Members, find}
use wterm.OrderedDict.{OrderedDict, get}

pub record Project : Type 0 where
  pub name : Text
  pub path : Text
  pub ssh : Option Text
  pub args : OrderedDict Text (List Text)
  pub env : OrderedDict Text Text

-- The accepted configuration.
pub record Config : Type 0 where
  pub host : Text
  pub port : ℕ
  pub uds : Option Text
  pub grace_seconds : ℕ
  pub idle_seconds : ℕ
  pub password_hash : Option Text
  pub allowed_origins : List Text
  pub tls_certfile : Option Text
  pub tls_keyfile : Option Text
  pub allow_insecure_tcp : Bool
  pub projects : List Project

-- bool(text) for an optional text
abbrev pub truthy : Option Text → Bool
truthy none = false
truthy (some t) = not (is_nil t)

-- `Config.tls_enabled`
abbrev pub tls_enabled : Config → Bool
tls_enabled config = truthy config.tls_certfile && truthy config.tls_keyfile

-- self.args.get(agent, ())
unfoldable pub args_for : Text → Project → List Text
unfolding get
args_for agent p = elim (get agent p.args) [ none ↦ [] | some args ↦ args ]

-- `Config.find_project`
unfoldable pub find_project : Text → List Project → Option Project
find_project name [] = none
find_project name (p ∷ projects) = if p.name == name then some p else find_project name projects

unfoldable pub has_nul : Text → Bool
has_nul [] = false
has_nul (c ∷ t) = eqb c 0 || has_nul t

abbrev pub is_letter : ℕ → Bool
is_letter c = (leb b'a' c && leb c b'z') || (leb b'A' c && leb c b'Z') || eqb c b'_'

unfoldable pub all_name_chars : Text → Bool
all_name_chars [] = true
all_name_chars (c ∷ t) = (is_letter c || (leb b'0' c && leb c b'9')) && all_name_chars t

-- ENV_NAME_RE.fullmatch
unfoldable pub is_env_name : Text → Bool
unfolding all_name_chars
is_env_name [] = false
is_env_name (c ∷ t) = is_letter c && all_name_chars t

abbrev pub is_env_entry : Text → Text → Bool
is_env_entry key value = is_env_name key && not (key == codes "TERM") && not (has_nul value)

unfoldable pub env_value : Text → Json → Option Text
env_value key (Json.str value) = if is_env_entry key value then some value else none
env_value key other = none

abbrev pub cons_entry {ℓ} :
    {A : Type ℓ} → Text → Option A → Option (OrderedDict Text A) → Option (OrderedDict Text A)
cons_entry key none rest = none
cons_entry key (some value) none = none
cons_entry key (some value) (some rest) = some ((key, value) ∷ rest)

unfoldable pub env_entries : Members → Option (OrderedDict Text Text)
unfolding env_value
env_entries Json.end = some []
env_entries (Json.member key value rest) = cons_entry key (env_value key value) (env_entries rest)

-- `_project_env`: a missing value, or null, is an empty environment.
unfoldable pub project_env : Option Json → Option (OrderedDict Text Text)
unfolding env_entries
project_env none = some []
project_env (some Json.null) = some []
project_env (some (Json.object members)) = env_entries members
project_env (some other) = none

abbrev pub is_arg : Text → Bool
is_arg value = not (has_nul value) && not (value == codes "--")

abbrev pub cons_arg : Bool → Text → Option (List Text) → Option (List Text)
cons_arg fine value none = none
cons_arg fine value (some rest) = if fine then some (value ∷ rest) else none

unfoldable pub arg_items : Items → Option (List Text)
arg_items Json.nil = some []
arg_items (Json.item (Json.str value) rest) = cons_arg (is_arg value) value (arg_items rest)
arg_items (Json.item other rest) = none

abbrev pub is_agent : Text → Bool
is_agent agent = agent == codes "claude" || agent == codes "codex"

unfoldable pub arg_values : Text → Json → Option (List Text)
unfolding arg_items
arg_values agent (Json.array items) = if is_agent agent then arg_items items else none
arg_values agent other = none

unfoldable pub arg_entries : Members → Option (OrderedDict Text (List Text))
unfolding arg_values
arg_entries Json.end = some []
arg_entries (Json.member agent values rest) =
    cons_entry agent (arg_values agent values) (arg_entries rest)

-- `_project_args`
unfoldable pub project_args : Option Json → Option (OrderedDict Text (List Text))
unfolding arg_entries
project_args none = some []
project_args (some Json.null) = some []
project_args (some (Json.object members)) = arg_entries members
project_args (some other) = none

abbrev pub in_range : ℕ → ℕ → ℕ → Option ℕ
in_range minimum maximum value = if leb minimum value && leb value maximum then some value else none

-- The type and range of a value; no bound of the program is negative.
unfoldable pub checked_integer : ℕ → ℕ → Json → Option ℕ
checked_integer minimum maximum (Json.int (pos value)) = in_range minimum maximum value
checked_integer minimum maximum other = none

-- `_integer`
unfoldable pub integer : Members → Text → ℕ → ℕ → ℕ → Option ℕ
unfolding checked_integer find
integer raw name default minimum maximum = elim (find name raw) [
  | none ↦ in_range minimum maximum default
  | some value ↦ checked_integer minimum maximum value
]

-- The characters that `str.strip` takes for white space.
unfoldable pub is_space : ℕ → Bool
is_space c =
    (leb 9 c && leb c 13)
    || (leb 28 c && leb c 32)
    || eqb c 0x85
    || eqb c 0xa0
    || eqb c 0x1680
    || (leb 0x2000 c && leb c 0x200a)
    || eqb c 0x2028
    || eqb c 0x2029
    || eqb c 0x202f
    || eqb c 0x205f
    || eqb c 0x3000

unfoldable pub lstrip : Text → Text
lstrip [] = []
lstrip (c ∷ t) = let rest = lstrip t in if is_space c then rest else c ∷ t

unfoldable pub rstrip : Text → Text
rstrip [] = []
rstrip (c ∷ t) = let rest = rstrip t in if is_nil rest && is_space c then [] else c ∷ rest

-- value.strip()
unfoldable pub strip : Text → Text
unfolding lstrip rstrip
strip t = rstrip (lstrip t)

abbrev pub non_empty : Text → Option Text
non_empty t = if is_nil t then none else some t

-- The outer `none` is the ValueError, the inner one a null or a text of white space.
unfoldable pub optional_value : Json → Option (Option Text)
unfolding strip
optional_value Json.null = some none
optional_value (Json.str value) = some (non_empty (strip value))
optional_value other = none

-- `_optional_string`
unfoldable pub optional_string : Members → Text → Option (Option Text)
unfolding optional_value find
optional_string raw name = elim (find name raw) [
  | none ↦ some none
  | some value ↦ optional_value value
]
