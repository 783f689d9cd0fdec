-- ===== src/Session/Command/Remote.antt =====
-- The command line of a session on a remote host, and of one on this machine.
use wterm.Prelude.{
  ◌≡◌, sym, ap, ◌∙◌, Bool, true, false, Option, some, List, [], ◌∷◌, ◌++◌, map, append-nil,
  if◌then◌else◌, Text, codes, nat_key, list_key,
}
use wterm.Session.{Session}
use wterm.Session.Command.{
  quote, shlex_join, base_cmd, is_shell, change_and_exec, remote_cmd, command,
}
use wterm.Session.Command.Shell.{Token, word, and_if, between, emit, read}
use wterm.Session.Command.Quoting.{read-quote, read-shlex_join, read_cd, read_and_exec, read_bash}

-- What the remote shell is meant to do: change the directory, and execute the command.
abbrev pub meant : List Text → Session → List Token
meant extra_args s =
    word (codes "cd") ∷ word s.cwd ∷ and_if ∷ word (codes "exec") ∷ map word (base_cmd extra_args s)

read-change_and_exec :
    (extra_args : List Text) (s : Session)
    → read between (change_and_exec extra_args s) ≡ some (meant extra_args s)
read-change_and_exec extra_args s =
    read_cd (quote s.cwd ++ (codes " && exec " ++ shlex_join (base_cmd extra_args s)))
    ∙ ap (emit (word (codes "cd") ∷ [])) (
        read-quote s.cwd (codes " && exec " ++ shlex_join (base_cmd extra_args s))
        ∙ read_and_exec s.cwd (shlex_join (base_cmd extra_args s))
        ∙ ap (emit (word s.cwd ∷ and_if ∷ word (codes "exec") ∷ []))
            (read-shlex_join (base_cmd extra_args s)))

read-wrapped :
    (inner : Text)
    → read between (codes "exec bash -lc " ++ quote inner)
      ≡ some (word (codes "exec") ∷ word (codes "bash") ∷ word (codes "-lc") ∷ word inner ∷ [])
unfolding read
read-wrapped inner =
    read_bash (quote inner)
    ∙ ap (emit (word (codes "exec") ∷ word (codes "bash") ∷ word (codes "-lc") ∷ []))
        (ap (read between) (sym (append-nil (quote inner))) ∙ read-quote inner [])

read-if :
    (b : Bool) (x y : Text) (u v : Option (List Token))
    → read between x ≡ u
    → read between y ≡ v
    → read between (if b then x else y) ≡ (if b then u else v)
read-if true x y u v h k = h
read-if false x y u v h k = k

-- Nothing breaks out of the command line of a session on a remote host. Whatever the path, the
-- environment and the arguments hold, `ssh` is given the host and one line, which the remote shell
-- reads as a change to the path and the execution of exactly the meant words; for an agent the line
-- has a login shell execute such a line, which stands in it as one word.
pub command_remote :
    (login_shell : Text) (extra_args : List Text) (s : Session) (host : Text)
    → s.ssh ≡ some host
    → (line : Text) × (command login_shell extra_args s
        ≡ codes "ssh" ∷ codes "-t" ∷ host ∷ line ∷ [])
      × ((inner : Text) × (read between inner ≡ some (meant extra_args s))
          × (read between line ≡ (
              if is_shell s
              then some (meant extra_args s)
              else some (
                  word (codes "exec")
                  ∷ word (codes "bash")
                  ∷ word (codes "-lc")
                  ∷ word inner
                  ∷ []))))
unfolding command
command_remote login_shell extra_args s host remote =
    let inner = change_and_exec extra_args s in
    (
      remote_cmd extra_args s,
      rw (remote, command),
      (
        inner,
        read-change_and_exec extra_args s,
        read-if (is_shell s) inner (codes "exec bash -lc " ++ quote inner) _ _
            (read-change_and_exec extra_args s) (read-wrapped inner),
      ),
    )
