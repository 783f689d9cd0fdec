-- ===== src/Url.antt =====
-- Python's `urllib.parse.urlsplit` on a text, as server/main.py and server/config.py use it, and
-- the parts of an authority. The checks of an address in brackets and of a non-ASCII authority
-- (by its compatibility form) are arguments. A text is Latin-1, as a header is: `lower` leaves the
-- letters beyond it alone.
pub mod Origin
use wterm.Prelude.{
  ℕ, ◌+◌, Bool, true, false, ◌&&◌, ◌||◌, not, Option, none, some, List, [], ◌∷◌, ltb, leb, eqb,
  if◌then◌else◌, filter_by, map, all_chars, Text, is_nil, read_onto, codes,
}

unfoldable pub lower_char : ℕ → ℕ
lower_char c =
    if (leb b'A' c && leb c b'Z') || (leb 0xc0 c && leb c 0xde && not (eqb c 0xd7))
    then c + 32
    else c

-- text.lower()
abbrev pub lower : Text → Text
lower = map lower_char

-- text.rstrip("/"), for any one character
unfoldable pub rstrip_char : ℕ → Text → Text
rstrip_char d [] = []
rstrip_char d (c ∷ t) =
    let rest = rstrip_char d t in if is_nil rest && eqb c d then [] else c ∷ rest

-- text.startswith(prefix)
unfoldable pub startswith : Text → Text → Bool
startswith [] text = true
startswith (p ∷ prefix) [] = false
startswith (p ∷ prefix) (c ∷ text) = eqb p c && startswith prefix text

abbrev pub contains : ℕ → Text → Bool
contains d t = not (all_chars (λ c. not (eqb c d)) t)

abbrev cons_first : ℕ → Option (Text × Text) → Option (Text × Text)
cons_first c none = none
cons_first c (some (before, after)) = some (c ∷ before, after)

-- The text before the first `d`, and what follows it.
unfoldable pub split_at : ℕ → Text → Option (Text × Text)
split_at d [] = none
split_at d (c ∷ t) = let rest = split_at d t in if eqb c d then some ([], t) else cons_first c rest

-- text.partition(d), without its middle
abbrev pub partition : ℕ → Text → Text × Text
partition d t = elim (split_at d t) [ none ↦ (t, []) | some parts ↦ parts ]

abbrev pub is_alpha : ℕ → Bool
is_alpha c = (leb b'a' c && leb c b'z') || (leb b'A' c && leb c b'Z')

-- `scheme_chars`
abbrev pub is_scheme_char : ℕ → Bool
is_scheme_char c =
    is_alpha c || (leb b'0' c && leb c b'9') || eqb c b'+' || eqb c b'-' || eqb c b'.'

unfoldable pub is_scheme : Text → Bool
is_scheme [] = false
is_scheme (c ∷ t) = is_alpha c && all_chars is_scheme_char (c ∷ t)

-- `url.lstrip` of the control characters and the space
unfoldable pub drop_controls : Text → Text
drop_controls [] = []
drop_controls (c ∷ t) = let rest = drop_controls t in if leb c 32 then rest else c ∷ t

-- `_UNSAFE_URL_BYTES_TO_REMOVE`: tab, CR and LF
abbrev pub is_kept : ℕ → Bool
is_kept c = not (eqb c 9 || eqb c 10 || eqb c 13)

unfoldable pub split_scheme : Text → Text × Text
unfolding split_at is_scheme
split_scheme url = elim (split_at b':' url) [
  | none ↦ ([], url)
  | some (before, after) ↦ if is_scheme before then (lower before, after) else ([], url)
]

abbrev pub ends_netloc : ℕ → Bool
ends_netloc c = eqb c b'/' || eqb c b'?' || eqb c b'#'

-- `_splitnetloc`
unfoldable pub split_netloc : Text → Text × Text
split_netloc [] = ([], [])
split_netloc (c ∷ t) =
    let (before, after) = split_netloc t in
    if ends_netloc c then ([], c ∷ t) else (c ∷ before, after)

-- The authority after `//`, and the rest.
unfoldable pub authority : Text → Text × Text
authority (c ∷ d ∷ t) = if eqb c b'/' && eqb d b'/' then split_netloc t else ([], c ∷ d ∷ t)
authority url = ([], url)

pub record Url : Type 0 where
  pub scheme : Text
  pub netloc : Text
  pub path : Text
  pub query : Text
  pub fragment : Text

unfoldable pub is_ascii : Text → Bool
is_ascii = all_chars (λ c. ltb c 128)

-- `_checknetloc` and `_check_bracketed_netloc`, for what they look into.
pub record Checks : Type 0 where
  pub bracketed_fine : Text → Bool
  pub compatible : Text → Bool

abbrev pub netloc_fine : Checks → Text → Bool
netloc_fine checks netloc =
    let opens = contains b'[' netloc in
    let closes = contains b']' netloc in
    (if opens then closes && checks.bracketed_fine netloc else not closes)
    && (is_ascii netloc || checks.compatible netloc)

-- `none` is the ValueError.
unfoldable pub urlsplit : Checks → Text → Option Url
urlsplit checks text =
    let (scheme, rest) = split_scheme (filter_by is_kept (drop_controls text)) in
    let (netloc, rest') = authority rest in
    let (rest'', fragment) = partition b'#' rest' in
    let (path, query) = partition b'?' rest'' in
    if netloc_fine checks netloc
    then some (record {
      scheme = scheme;
      netloc = netloc;
      path = path;
      query = query;
      fragment = fragment;
    })
    else none

-- `netloc.rpartition("@")[2]`
unfoldable pub after_last_at : Text → Text
after_last_at [] = []
after_last_at (c ∷ t) =
    let rest = after_last_at t in if contains b'@' t then rest else if eqb c b'@' then t else c ∷ t

-- `_hostinfo`: the host name and the port, each as a text that may be empty.
unfoldable pub hostinfo : Text → Text × Text
unfolding after_last_at
hostinfo netloc =
    let info = after_last_at netloc in
    elim (split_at b'[' info) [
      | none ↦ partition b':' info
      | some (before, bracketed) ↦
          let (host, rest) = partition b']' bracketed in (host, (partition b':' rest).1)
    ]

-- `port`, as far as it is a ValueError.
unfoldable pub port_fine : Text → Bool
unfolding hostinfo
port_fine netloc =
    let port = (hostinfo netloc).1 in
    is_nil port || (all_chars (λ c. leb b'0' c && leb c b'9') port && leb (read_onto 0 port) 65535)
