-- ===== src/Session/Command/Tests.antt =====
-- Runs of the command line at concrete inputs.
use wterm.Prelude.{◌≡◌, refl, some, [], ◌∷◌, if◌then◌else◌, Text, codes, join, nat_key, list_key}
use wterm.Session.{Session, Spec, create}
use wterm.Session.Command.{
  command, is_shell, quote, all_safe, is_safe, replace_quotes, shlex_join, munge_cwd,
}
use wterm.Session.Command.Shell.{word, between, read}
use wterm.Session.Command.Remote.{meant, command_remote}

-- A path that tries to break out, and a token with a quote in the environment.
abbrev remote : Spec
remote = record {
  project_name = codes "web:claude";
  cwd = codes "/srv/a b; rm -rf '~'";
  grace_seconds = 30;
  idle_seconds = 600;
  ssh = some (codes "user@host");
  agent = codes "claude";
  command_args = codes "--model" ∷ codes "opus" ∷ [];
  project_env = (codes "TOKEN", codes "it's $HOME") ∷ [];
}

abbrev session : Session
session = create 0 remote

command_remote_example :
    (line : Text) × (command (codes "/bin/zsh") (codes "--continue" ∷ []) session
      ≡ codes "ssh" ∷ codes "-t" ∷ codes "user@host" ∷ line ∷ [])
    × ((inner : Text) × (read between inner ≡ some (meant (codes "--continue" ∷ []) session))
        × (read between line ≡ (
            if is_shell session
            then some (meant (codes "--continue" ∷ []) session)
            else some (
                word (codes "exec") ∷ word (codes "bash") ∷ word (codes "-lc") ∷ word inner ∷ []))))
unfolding create
command_remote_example =
    command_remote (codes "/bin/zsh") (codes "--continue" ∷ []) session (codes "user@host") refl

joined : shlex_join (codes "env" ∷ codes "A=it's" ∷ [] ∷ []) ≡ codes "env 'A=it'\"'\"'s' ''"
unfolding shlex_join quote all_safe is_safe replace_quotes join
joined = refl

munged : munge_cwd (codes "/srv/a_b.c") ≡ codes "-srv-a-b-c"
unfolding munge_cwd
munged = refl
