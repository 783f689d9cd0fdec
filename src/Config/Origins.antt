-- ===== src/Config/Origins.antt =====
-- server/config.py: `_allowed_origins`.
use wterm.Prelude.{
  Bool, false, ◌&&◌, ◌||◌, not, Option, none, some, List, [], ◌∷◌, ◌++◌, if◌then◌else◌, Text, codes,
  is_nil, ◌==◌, nat_key, list_key,
}
use wterm.Json
use wterm.Json.{Json, Items, Members, find}
use wterm.Url.{Url, Checks, lower, contains, urlsplit, hostinfo, port_fine}
use wterm.Config.{is_space, strip}

unfoldable pub any_space : Text → Bool
unfolding is_space
any_space [] = false
any_space (c ∷ t) = is_space c || any_space t

-- What is refused: another scheme, no host, a user or a password, and whatever follows the authority.
abbrev pub is_origin : Url → Bool
is_origin parts =
    (lower parts.scheme == codes "http" || lower parts.scheme == codes "https")
    && not (is_nil (hostinfo parts.netloc).0)
    && not (contains b'@' parts.netloc)
    && is_nil parts.path
    && is_nil parts.query
    && is_nil parts.fragment
    && not (any_space parts.netloc)

-- f"{parts.scheme.lower()}://{parts.netloc.lower()}"
abbrev pub normalized : Url → Text
normalized parts = lower parts.scheme ++ (codes "://" ++ lower parts.netloc)

unfoldable pub is_listed : Text → List Text → Bool
is_listed t [] = false
is_listed t (u ∷ us) = u == t || is_listed t us

-- One origin of the file, which is not white space.
unfoldable pub origin_of : Checks → Text → Option Text
unfolding any_space
origin_of checks value = elim (urlsplit checks (strip value)) [
  | none ↦ none
  | some parts ↦ if port_fine parts.netloc && is_origin parts then some (normalized parts) else none
]

abbrev pub append_new : List Text → Text → List Text
append_new result origin = if is_listed origin result then result else result ++ origin ∷ []

abbrev pub origin_item : Checks → Json → Option Text
origin_item checks (Json.str value) = if is_nil (strip value) then none else origin_of checks value
origin_item checks other = none

-- The loop over the array, with the result so far.
unfoldable pub origins_onto : Checks → List Text → Items → Option (List Text)
unfolding origin_of is_listed
origins_onto checks result Json.nil = some result
origins_onto checks result (Json.item value rest) = elim (origin_item checks value) [
  | none ↦ none
  | some origin ↦ origins_onto checks (append_new result origin) rest
]

abbrev pub origins_value : Checks → Json → Option (List Text)
origins_value checks (Json.array items) = origins_onto checks [] items
origins_value checks other = none

-- `_allowed_origins`
unfoldable pub allowed_origins : Checks → Members → Option (List Text)
unfolding origins_onto find
allowed_origins checks raw = elim (find (codes "allowed_origins") raw) [
  | none ↦ some []
  | some value ↦ origins_value checks value
]
