-- ===== src/Startup/Main.antt =====
-- server/main.py: `main`, what it does in which order and what it listens on; the certificate; and the
-- warning about the permissions of the configuration. What the log handlers write is left out.
use wterm.Prelude.{
  ℕ, ◌%◌, ◌≡◌, ◌≢◌, ◌⊎◌, refl, sym, subst, All, ◌∙◌, Bool, true, false, not, ◌&&◌, ◌||◌, Option,
  none, some, List, [], ◌∷◌, ◌++◌, if◌then◌else◌, Text, codes, is_some, eqb, decimal, Bool-cases,
  inl, inr, nat_key, list_key,
}
use wterm.Json.{Json}
use wterm.Audit.{text, number, flag, audit}
use wterm.Config.{Config, truthy, tls_enabled}
use wterm.Config.Load.{Outside, is_loopback_host, load_config}
use wterm.Config.Accepted.{IsAccepted, load_config-IsAccepted}
use wterm.Routes.{get_or}

-- The argument of `uvicorn.run`.
pub data Listener : Type 0 where
  unix : Text → Listener
  tcp : Text → ℕ → Bool → Listener

abbrev pub listener : Config → Listener
listener c = if truthy c.uds then unix (get_or [] c.uds) else tcp c.host c.port (tls_enabled c)

pub data Effect : Type 0 where
  setup_logging warn_permissions claim_pid_file release_pid_file : Effect
  log_line : Text → Effect
  handle_sigterm setup_tls : Effect
  wait_for_host_address : Text → Effect
  warn_tls_ignored raised : Effect
  make_parent unlink_socket : Text → Effect
  run : Listener → Effect
  exit : ℕ → Effect

abbrev pub listen_text : Config → Text
listen_text c = if truthy c.uds then get_or [] c.uds else c.host ++ (b':' ∷ decimal c.port)

abbrev pub start_line : ℕ → Config → Text
start_line pid c = audit (codes "server-start") (
    (codes "pid", some (number pid))
    ∷ (codes "listen", some (text (listen_text c)))
    ∷ (codes "tls", some (flag (tls_enabled c && not (truthy c.uds))))
    ∷ (codes "auth", some (flag (is_some c.password_hash)))
    ∷ [])

-- Whether the server is served; a certificate that cannot be read is an exception.
abbrev pub is_served : Bool → Config → Bool
is_served readable c = truthy c.uds || (not (tls_enabled c) || readable)

-- Over a Unix socket the certificate is passed over, and a socket file that is left is removed.
abbrev pub serve_effects : Bool → Bool → Config → List Effect
serve_effects readable stale c =
    if truthy c.uds
    then (if tls_enabled c then warn_tls_ignored ∷ [] else [])
      ++ (make_parent (get_or [] c.uds)
            ∷ (if stale then unlink_socket (get_or [] c.uds) ∷ [] else [])
          ++ run (listener c) ∷ [])
    else (if tls_enabled c then setup_tls ∷ (if readable then [] else raised ∷ []) else [])
      ++ (if is_served readable c then run (listener c) ∷ [] else [])

-- `main`, with the PID, whether the PID file is claimed, whether the certificate can be read, and
-- whether a socket file is left.
unfoldable pub main : ℕ → Bool → Bool → Bool → Config → List Effect
main pid claimed readable stale c =
    setup_logging
    ∷ warn_permissions
    ∷ claim_pid_file
    ∷ (if claimed
        then log_line (start_line pid c)
          ∷ handle_sigterm
          ∷ ((if truthy c.uds then [] else wait_for_host_address c.host ∷ [])
              ++ serve_effects readable stale c)
        else exit 3 ∷ [])

abbrev pub stop_line : ℕ → Text
stop_line pid = audit (codes "server-stop") ((codes "pid", some (number pid)) ∷ [])

-- `_exit_success`, the handler of SIGTERM
abbrev pub exit_success : ℕ → List Effect
exit_success pid = log_line (stop_line pid) ∷ release_pid_file ∷ exit 0 ∷ []

-- The certificate of the server, if it has one. The argument is what `load_cert_chain` read.
unfoldable pub on_sighup : Option Text → Option Text → Option Text
on_sighup read none = none
on_sighup read (some old) = some (get_or old read)

-- `_warn_on_config_permissions`: whether it warns of a mode.
abbrev pub warns : Option ℕ → Bool
warns none = false
warns (some mode) = not (eqb (mode % 512 % 64) 0)

-- The listeners that `main` runs.
unfoldable pub listeners : List Effect → List Listener
listeners [] = []
listeners (run l ∷ effects) = l ∷ listeners effects
listeners (setup_logging ∷ effects) = listeners effects
listeners (warn_permissions ∷ effects) = listeners effects
listeners (claim_pid_file ∷ effects) = listeners effects
listeners (release_pid_file ∷ effects) = listeners effects
listeners (log_line t ∷ effects) = listeners effects
listeners (handle_sigterm ∷ effects) = listeners effects
listeners (setup_tls ∷ effects) = listeners effects
listeners (wait_for_host_address host ∷ effects) = listeners effects
listeners (warn_tls_ignored ∷ effects) = listeners effects
listeners (raised ∷ effects) = listeners effects
listeners (make_parent path ∷ effects) = listeners effects
listeners (unlink_socket path ∷ effects) = listeners effects
listeners (exit code ∷ effects) = listeners effects

abbrev pub wanted : Bool → Bool → Config → List Listener
wanted claimed readable c = if claimed && is_served readable c then listener c ∷ [] else []

main-listeners :
    (pid : ℕ) (claimed readable stale : Bool) (c : Config)
    → listeners (main pid claimed readable stale c) ≡ wanted claimed readable c
unfolding main listeners
main-listeners pid false readable stale c = refl
main-listeners pid true readable stale c = elim (Bool-cases (truthy c.uds)) [
  | inl local ↦ elim (Bool-cases (tls_enabled c)) [
    | inl tls ↦ elim (Bool-cases stale) [
      | inl left ↦ rw (local, tls, left)
      | inr clean ↦ rw (local, tls, clean)
    ]
    | inr plain ↦ elim (Bool-cases stale) [
      | inl left ↦ rw (local, plain, left)
      | inr clean ↦ rw (local, plain, clean)
    ]
  ]
  | inr remote ↦ elim (Bool-cases (tls_enabled c)) [
    | inl tls ↦ elim (Bool-cases readable) [
      | inl good ↦ rw (remote, tls, good)
      | inr bad ↦ rw (remote, tls, bad)
    ]
    | inr plain ↦ rw (remote, plain)
  ]
]

-- A listener that may be run without more ado, or one with TLS and a password.
abbrev pub IsGuarded : Outside → Config → Listener → Type 0
IsGuarded world c (unix path) = path ≢ []
IsGuarded world c (tcp host port tls) =
    (is_loopback_host world host ≡ true)
    ⊎ (c.allow_insecure_tcp ≡ true)
    ⊎ ((tls ≡ true) × (is_some c.password_hash ≡ true))

truthy-path : (path : Option Text) → truthy path ≡ true → get_or [] path ≢ []
truthy-path none h = absurd (cc)
truthy-path (some []) h = absurd (cc)
truthy-path (some (c ∷ t)) h = λ e. cc

listener-IsGuarded :
    (world : Outside) (c : Config) → IsAccepted world c → IsGuarded world c (listener c)
listener-IsGuarded world c a = elim (Bool-cases (truthy c.uds)) [
  | inl local ↦ rw local (truthy-path c.uds local)
  | inr remote ↦ elim (Bool-cases (is_loopback_host world c.host)) [
    | inl loopback ↦ rw remote (inl loopback)
    | inr public ↦ elim (Bool-cases c.allow_insecure_tcp) [
      | inl accepted ↦ rw remote (inr (inl accepted))
      | inr strict ↦
          let (hash, tls) = a.protected (rw (a.socket ∙ remote, public, strict)) in
          rw remote (inr (inr (tls, hash)))
    ]
  ]
]

wanted-IsGuarded :
    (world : Outside) (value : Json) (c : Config) (served : Bool)
    → load_config world value ≡ some c
    → All (IsGuarded world c) (if served then listener c ∷ [] else [])
wanted-IsGuarded world value c false h = tt
wanted-IsGuarded world value c true h =
    (listener-IsGuarded world c (load_config-IsAccepted world value c h), tt)

-- The server does not serve the world in the clear. Whatever the file holds, if `load_config` accepts
-- it: `main` listens on nothing but a Unix socket, a loopback address, an address for which the file
-- accepts the risk, or one with TLS and a password; and it listens, once, exactly if it has claimed the
-- PID file and a certificate that it needs can be read.
pub main-IsGuarded :
    (world : Outside) (value : Json) (c : Config) (pid : ℕ) (claimed readable stale : Bool)
    → load_config world value ≡ some c
    → All (IsGuarded world c) (listeners (main pid claimed readable stale c))
      × (listeners (main pid claimed readable stale c) ≡ wanted claimed readable c)
main-IsGuarded world value c pid claimed readable stale h =
    let plan = main-listeners pid claimed readable stale c in
    let guarded = wanted-IsGuarded world value c (claimed && is_served readable c) h in
    (subst (All (IsGuarded world c)) (sym plan) guarded, plan)
