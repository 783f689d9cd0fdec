-- ===== src/Session/Command.antt =====
-- server/session.py: `_agent_cmd` and `_command`, the argument vector that `spawn` executes, with
-- `shlex.quote` and `shlex.join`. The login shell of the user is an argument.
pub mod Shell
pub mod Quoting
pub mod Remote
mod Tests
use wterm.Prelude.{
  ℕ, Bool, true, false, ◌&&◌, ◌||◌, Option, none, some, List, [], ◌∷◌, ◌++◌, map, leb, eqb,
  if◌then◌else◌, join, Text, codes, is_nil, ◌==◌, nat_key, list_key,
}
use wterm.OrderedDict.{OrderedDict}
use wterm.Session.{Session}

-- The class [\w@%+=:,./-] in ASCII.
unfoldable pub is_safe : ℕ → Bool
is_safe c =
    (leb b'a' c && leb c b'z')
    || (leb b'A' c && leb c b'Z')
    || (leb b'+' c && leb c b':')
    || eqb c b'_'
    || eqb c b'@'
    || eqb c b'%'
    || eqb c b'='

unfoldable pub all_safe : Text → Bool
all_safe [] = true
all_safe (c ∷ t) = is_safe c && all_safe t

-- s.replace("'", "'\"'\"'")
unfoldable pub replace_quotes : Text → Text
replace_quotes [] = []
replace_quotes (c ∷ t) =
    let rest = replace_quotes t in if eqb c 39 then 39 ∷ 34 ∷ 39 ∷ 34 ∷ 39 ∷ rest else c ∷ rest

-- shlex.quote(s)
unfoldable pub quote : Text → Text
unfolding all_safe replace_quotes
quote s =
    if is_nil s then 39 ∷ 39 ∷ [] else if all_safe s then s else 39 ∷ (replace_quotes s ++ 39 ∷ [])

-- shlex.join(argv)
unfoldable pub shlex_join : List Text → Text
unfolding quote
shlex_join argv = join (b' ' ∷ []) (map quote argv)

-- The options that turn the notifications of an agent on.
abbrev pub notify_args : Text → List Text
notify_args agent =
    if agent == codes "claude"
    then codes "--settings" ∷ codes "{\"preferredNotifChannel\":\"terminal_bell\"}" ∷ []
    else if agent == codes "codex"
    then codes "-c" ∷ codes "tui.notifications=true" ∷ []
    else []

unfoldable pub agent_cmd : List Text → Session → List Text
agent_cmd extra_args s = s.agent ∷ (s.command_args ++ (notify_args s.agent ++ extra_args))

abbrev pub is_shell : Session → Bool
is_shell s = s.agent == codes "shell"

unfoldable pub assignments : OrderedDict Text Text → List Text
assignments [] = []
assignments ((key, value) ∷ env) = (key ++ (b'=' ∷ value)) ∷ assignments env

-- The command that a remote host runs, with its environment.
abbrev pub base_cmd : List Text → Session → List Text
base_cmd extra_args s =
    let plain = if is_shell s then codes "bash" ∷ codes "-l" ∷ [] else agent_cmd extra_args s in
    if is_nil s.project_env then plain else codes "env" ∷ (assignments s.project_env ++ plain)

-- cd <cwd> && exec <command>
abbrev pub change_and_exec : List Text → Session → Text
change_and_exec extra_args s =
    codes "cd " ++ (quote s.cwd ++ (codes " && exec " ++ shlex_join (base_cmd extra_args s)))

abbrev pub remote_cmd : List Text → Session → Text
remote_cmd extra_args s =
    let inner = change_and_exec extra_args s in
    if is_shell s then inner else codes "exec bash -lc " ++ quote inner

unfoldable pub command : Text → List Text → Session → List Text
unfolding agent_cmd quote shlex_join assignments
command login_shell extra_args s = elim s.ssh [
  | some host ↦ codes "ssh" ∷ codes "-t" ∷ host ∷ remote_cmd extra_args s ∷ []
  | none ↦ if is_shell s then login_shell ∷ codes "-l" ∷ [] else agent_cmd extra_args s
]

-- `munge_cwd`: the directory name that Claude Code makes of a path.
unfoldable pub munge_cwd : Text → Text
munge_cwd = map (λ c.
    if (leb b'a' c && leb c b'z') || (leb b'A' c && leb c b'Z') || (leb b'0' c && leb c b'9')
    then c
    else b'-')
