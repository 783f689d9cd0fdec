-- ===== src/Session/History.antt =====
-- server/session.py: the look-ups of earlier conversations, on this machine and on a remote one. What
-- the directories hold and how `ssh` ended are arguments.
pub mod Staleness
use wterm.Prelude.{
  subst, All, ◌≤◌, ℕ, ◌-◌, ◌*◌, ◌<◌, ◌≡◌, ◌⊎◌, refl, Bool, true, false, ◌||◌, Option, none, some,
  List, [], ◌∷◌, ◌++◌, ltb, leb, eqb, if◌then◌else◌, Text, codes, second, ◌==◌, nat_key, list_key,
  tests, Bool-cases, inl, inr,
}
use wterm.Prelude.Int.{ℤ, pos, negsuc}
use wterm.Json.{Json, find}
use wterm.Session.Command.{quote, munge_cwd}
use wterm.Session.Lifecycle.{Signal, term, kill}
use wterm.Session.Frame.{unicode_escape}

-- The newest of the files, the first one of those with the same time.
abbrev pub newer : Text × ℕ → Option (Text × ℕ) → Text × ℕ
newer (stem, time) none = (stem, time)
newer (stem, time) (some (stem', time')) = if ltb time time' then (stem', time') else (stem, time)

unfoldable pub newest : List (Text × ℕ) → Option (Text × ℕ)
newest [] = none
newest (file ∷ files) = some (newer file (newest files))

-- `latest_session_id`: the files of the directory with their times, if there is one.
unfoldable pub latest_session_id : Option (List (Text × ℕ)) → Option Text
unfolding newest
latest_session_id none = none
latest_session_id (some files) = elim (newest files) [ none ↦ none | some (stem, time) ↦ some stem ]

abbrev pub codex_cache_ttl : ℕ
codex_cache_ttl = 30 * second

abbrev pub text_of : Option Json → Option Text
text_of (some (Json.str t)) = some t
text_of other = none

abbrev pub payload_cwd : Option Json → Option Text
payload_cwd (some (Json.object payload)) = text_of (find (codes "cwd") payload)
payload_cwd other = none

abbrev pub is_meta : Option Text → Bool
is_meta none = false
is_meta (some kind) = kind == codes "session_meta"

-- The `cwd` of a file, from its first line.
unfoldable pub cwd_of : Json → Option Text
unfolding find
cwd_of (Json.object meta) =
    if is_meta (text_of (find (codes "type") meta))
    then payload_cwd (find (codes "payload") meta)
    else none
cwd_of other = none

-- `_scan_codex_cwds`: the files in any order; one that cannot be read, or is not JSON, is `none`.
unfoldable pub scan_codex_cwds : List (Option Json) → List Text
unfolding cwd_of
scan_codex_cwds [] = []
scan_codex_cwds (none ∷ files) = scan_codex_cwds files
scan_codex_cwds (some meta ∷ files) = elim (cwd_of meta) [
  | none ↦ scan_codex_cwds files
  | some cwd ↦ cwd ∷ scan_codex_cwds files
]

-- `_codex_cwds` and `_codex_scanned_at`; `none` is minus infinity.
pub record Cache : Type 0 where
  pub cwds : List Text
  pub scanned_at : Option ℕ

abbrev pub empty : Cache
empty = record { cwds = []; scanned_at = none }

abbrev pub is_old : ℕ → Option ℕ → Bool
is_old now none = true
is_old now (some scanned_at) = leb codex_cache_ttl (now - scanned_at)

unfoldable pub is_among : Text → List Text → Bool
is_among cwd [] = false
is_among cwd (c ∷ cwds) = c == cwd || is_among cwd cwds

-- `has_codex_history` at a time, with the time at which a scan ends and what it finds.
unfoldable pub has_codex_history : ℕ → ℕ → List Text → Text → Cache → Cache × Bool
unfolding is_among
has_codex_history now ended found cwd cache =
    let current =
      if is_old now cache.scanned_at
      then record { cwds = found; scanned_at = some ended }
      else cache in
    (current, is_among cwd current.cwds)

-- A character in a JSON string that is not kept to ASCII.
unfoldable pub json_char : ℕ → Text
json_char c =
    if eqb c 34
    then 92 ∷ 34 ∷ []
    else if eqb c 92
    then 92 ∷ 92 ∷ []
    else if eqb c 10
    then 92 ∷ b'n' ∷ []
    else if eqb c 13
    then 92 ∷ b'r' ∷ []
    else if eqb c 9
    then 92 ∷ b't' ∷ []
    else if eqb c 12
    then 92 ∷ b'f' ∷ []
    else if eqb c 8
    then 92 ∷ b'b' ∷ []
    else if ltb c 0x20
    then unicode_escape c
    else c ∷ []

unfoldable pub json_chars : Text → Text
unfolding json_char
json_chars [] = []
json_chars (c ∷ t) = json_char c ++ json_chars t

-- json.dumps({"cwd": cwd}, ensure_ascii=False, separators=(",", ":"))[1:-1]
unfoldable pub needle : Text → Text
unfolding json_chars
needle cwd = codes "\"cwd\":\"" ++ (json_chars cwd ++ codes "\"")

-- The command that the remote host runs.
unfoldable pub check_cmd : Text → Text → Text
unfolding needle quote munge_cwd
check_cmd cwd agent =
    if agent == codes "codex"
    then codes "[ -d ~/.codex/sessions ] || exit 1; grep -rlF -m1 -- "
      ++ (quote (needle cwd) ++ codes " ~/.codex/sessions >/dev/null 2>&1")
    else codes "set -- ~/.claude/projects/" ++ (munge_cwd cwd ++ codes "/*.jsonl; [ -e \"$1\" ]")

-- How the `ssh` process ended: it did not start, ran out of time, or exited.
pub data Probe : Type 0 where
  not_started timed_out : Probe
  exited : ℤ → Probe

-- `HistoryState`
pub data HistoryState : Type 0 where
  present absent error : HistoryState

-- The result of `remote_has_history`.
abbrev pub remote_has_history : Probe → HistoryState
remote_has_history not_started = error
remote_has_history timed_out = error
remote_has_history (exited (negsuc n)) = error
remote_has_history (exited (pos code)) =
    if eqb code 0 then present else if eqb code 1 then absent else error

-- `_reap_subprocess`: the signals for a process, by whether it has ended, and ends within a second.
abbrev pub reap_subprocess : Bool → Bool → List Signal
reap_subprocess ended in_time =
    if ended then [] else if in_time then term ∷ [] else term ∷ kill ∷ []
