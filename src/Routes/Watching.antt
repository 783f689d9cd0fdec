-- ===== src/Routes/Watching.antt =====
-- server/main.py, `project_status_ws`: the socket on which a browser watches the list of projects.
use wterm.Prelude.{
  ℕ, ◌≡◌, ◌≢◌, ◌⊎◌, Bool, true, false, Option, none, some, List, [], ◌∷◌, Text, codes, nat_key,
}
use wterm.Audit.{text, audit}
use wterm.Auth.{register_socket, unregister_socket}
use wterm.Status.{Hub, computing, add, discard}
use wterm.Status.Freshness.{Event, is_told, run}
use wterm.Routes.{Conn}
use wterm.Routes.Server.{
  Server, Env, Gate, broken, foreign, stranger, welcome, note, origin_fields, gate, checked,
}

-- An exception, a close before or after the socket was accepted, or a subscription with the key that
-- its watchdog checks.
pub data Watched : Type 0 where
  raised : Watched
  refused : Bool → ℕ → Watched
  watching : Option Text → Watched

abbrev pub watch_line : Text → Conn → Text
watch_line event conn = audit event ((codes "client", some (text conn.client)) ∷ [])

abbrev pub watch_gated : Env → ℕ → Conn → Gate → Server → Hub → Server × Hub × Watched × List Text
watch_gated env ws conn broken s h = (s, h, raised, [])
watch_gated env ws conn foreign s h =
    let (s', lines) =
      note env (codes "project-status-ws-reject") conn (codes "origin") (origin_fields conn) s in
    (s', h, refused false 4403, lines)
watch_gated env ws conn stranger s h =
    let (s', lines) =
      note env (codes "project-status-ws-reject") conn (codes "unauthorized") []
        (checked env conn s) in
    (s', h, refused true 4401, lines)
watch_gated env ws conn welcome s h =
    let s' = checked env conn s in
    let (auth, watchdog) = register_socket env.sha256 ws conn.cookie none s'.auth in
    (
      record s' { auth = auth },
      add ws h,
      watching watchdog,
      watch_line (codes "project-status-ws-open") conn ∷ [],
    )

-- `project_status_ws` up to its loop, which takes no notice of what it receives.
unfoldable pub watch_open : Env → ℕ → Conn → Server → Hub → Server × Hub × Watched × List Text
unfolding gate register_socket add
watch_open env ws conn s h = watch_gated env ws conn (gate env conn s) s h

-- Its `finally`
unfoldable pub watch_leave : ℕ → Conn → Server → Hub → Server × Hub × List Text
watch_leave ws conn s h = (
  record s { auth = unregister_socket ws s.auth },
  discard ws h,
  watch_line (codes "project-status-ws-close") conn ∷ [],
)

-- What becomes of the hub, and of the socket in later events.
abbrev pub IsWatched : ℕ → List Event → Gate → Hub → Hub → Type 0
IsWatched ws events g h h' =
    ((g ≡ welcome)
      × ((is_told ws false events h' ≡ true)
          ⊎ ((run events h').dirty ≡ true)
          ⊎ ((run events h').phase ≡ computing true)))
    ⊎ ((g ≢ welcome) × (h' ≡ h))
