-- ===== src/Session/Child.antt =====
-- server/session.py: `login_shell`, and what the child of `spawn` executes. The environment of the
-- server and the answers of `chdir` and `execvpe` are arguments.
use wterm.Prelude.{
  ℕ, ◌≡◌, refl, sym, ap, ◌∙◌, Bool, true, false, Option, none, some, List, [], ◌∷◌, Text, codes,
  is_some, if◌then◌else◌, ◌==◌, nat_key, list_key, ==_cases, Bool-cases, inl, inr,
}
use wterm.OrderedDict.{OrderedDict, get, put}
use wterm.OrderedDict.Laws.{get-put}
use wterm.OrderedDict.Distinct.{Distinct}
use wterm.Session.{Session}
use wterm.Session.Command.{command}

abbrev pub non_empty_or : Text → Text → Text
non_empty_or default [] = default
non_empty_or default (c ∷ t) = c ∷ t

-- `login_shell`, with $SHELL and the shell of the user's entry in the password database, if any.
unfoldable pub login_shell : Option Text → Option Text → Text
login_shell (some (c ∷ shell)) entry = c ∷ shell
login_shell other none = codes "/bin/sh"
login_shell other (some pw_shell) = non_empty_or (codes "/bin/sh") pw_shell

-- env.update(entries)
unfoldable pub update : OrderedDict Text Text → OrderedDict Text Text → OrderedDict Text Text
update [] env = env
update ((key, value) ∷ entries) env = update entries (put key value env)

abbrev pub term : Text
term = codes "xterm-256color"

unfoldable pub child_env : OrderedDict Text Text → Session → OrderedDict Text Text
unfolding update
child_env environ s =
    put (codes "TERM") term (if is_some s.ssh then environ else update s.project_env environ)

-- The child executes a command, in a directory if it is a local one, or exits.
pub data Child : Type 0 where
  executes : Option Text → List Text → OrderedDict Text Text → Child
  exits : ℕ → Child

abbrev pub execute : Bool → Option Text → Text → List Text → OrderedDict Text Text → Session → Child
execute true directory shell extra_args environ s =
    executes directory (command shell extra_args s) (child_env environ s)
execute false directory shell extra_args environ s = exits 127

-- The child of `spawn`, by whether its directory and its program are there.
unfoldable pub child : Bool → Bool → Text → List Text → OrderedDict Text Text → Session → Child
unfolding child_env
child changes runs shell extra_args environ s = elim s.ssh [
  | some host ↦ execute runs none shell extra_args environ s
  | none ↦ if changes then execute runs (some s.cwd) shell extra_args environ s else exits 127
]

abbrev pub first_of : Option Text → Option Text → Option Text
first_of none other = other
first_of (some v) other = some v

get-update :
    (k : Text) (entries env : OrderedDict Text Text)
    → Distinct entries
    → get k (update entries env) ≡ first_of (get k entries) (get k env)
unfolding update get
get-update k [] env d = refl
get-update k ((key, value) ∷ entries) env (new, d) = elim (==_cases key k) [
  | inl (same, known) ↦
      let missing : get k entries ≡ none = ap (λ x. get x entries) (sym known) ∙ new in
      rw (same, get-update k entries (put key value env) d, missing, get-put key k value env, same)
  | inr other ↦
      rw (other, get-update k entries (put key value env) d, get-put key k value env, other)
]

-- The variables of a child. TERM is the one of the terminal, whatever the project says. Any other
-- variable of a local session is the project's if the project sets it, and the server's if not; the
-- `ssh` of a remote session has the server's.
pub get-child_env :
    (k : Text) (environ : OrderedDict Text Text) (s : Session)
    → Distinct s.project_env
    → get k (child_env environ s) ≡ (
        if codes "TERM" == k
        then some term
        else if is_some s.ssh
        then get k environ
        else first_of (get k s.project_env) (get k environ))
unfolding child_env
get-child_env k environ s d = elim (Bool-cases (is_some s.ssh)) [
  | inl remote ↦ rw remote (get-put (codes "TERM") k term environ)
  | inr local ↦ rw local (
      rw (
        get-put (codes "TERM") k term (update s.project_env environ),
        get-update k s.project_env environ d,
      ))
]
