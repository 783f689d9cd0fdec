-- ===== src/Auth.antt =====
-- server/auth.py: the state of `AuthManager`, its tokens and its open WebSockets.
-- `hashlib.sha256` and the token source are arguments; sockets are numbers. The clock counts
-- milliseconds; the program's floats hold these times without loss.
pub mod Tokens
pub mod Backoff
pub mod Login
pub mod Sockets
pub mod Narrows
pub mod Steps
pub mod Begun
pub mod Handed
pub mod History
mod Tests
use wterm.Prelude.{
  ℕ, suc, ◌+◌, ◌-◌, ◌*◌, ◌≡◌, Bool, true, false, ◌||◌, not, Option, none, some, List, [], ◌∷◌, ◌++◌,
  map, ltb, leb, eqb, if◌then◌else◌, length, filter_by, Text, codes, second, is_some, ◌==◌, nat_key,
  list_key, is_nil,
}
use wterm.OrderedDict.{OrderedDict, get, put, remove, trim}

abbrev pub token_ttl : ℕ
token_ttl = 30 * 24 * 3600 * second

abbrev pub max_tokens : ℕ
max_tokens = 512

-- The pair `(fails, unblock_at)` of a client.
pub record Fails : Type 0 where
  pub count : ℕ
  pub unblock_at : ℕ

pub record Auth : Type 0 where
  pub password_hash : Option Text
  pub valid_tokens : OrderedDict Text ℕ
  pub tokens_changed : Bool
  pub ws_tokens : OrderedDict ℕ Text
  -- the session whose writer closes the socket
  pub ws_closers : OrderedDict ℕ ℕ
  pub login_fails : OrderedDict Text Fails

-- AuthManager(password_hash)
unfoldable pub init : Option Text → Auth
init hash = record {
  password_hash = hash;
  valid_tokens = [];
  tokens_changed = false;
  ws_tokens = [];
  ws_closers = [];
  login_fails = [];
}

-- A close that the manager asks for: of which socket, through which session, and why.
pub record Closing : Type 0 where
  pub socket : ℕ
  pub through : Option ℕ
  pub code : ℕ
  pub reason : Text

abbrev pub unauthed_code : ℕ
unauthed_code = 4401

abbrev pub is_live : ℕ → Text × ℕ → Bool
is_live now (key, issued_at) = not (leb token_ttl (now - issued_at))

unfoldable pub drop_expired : ℕ → OrderedDict Text ℕ → OrderedDict Text ℕ
drop_expired now = filter_by (is_live now)

-- `_key_valid`: an expired token is dropped where it is found.
unfoldable pub key_valid : ℕ → Text → Auth → Auth × Bool
key_valid now key a = elim (get key a.valid_tokens) [
  | none ↦ (a, false)
  | some issued_at ↦
      if leb token_ttl (now - issued_at)
      then (record a { valid_tokens = remove key a.valid_tokens; tokens_changed = true }, false)
      else (a, true)
]

-- `_close_unauthed`; an exception of the close is swallowed.
unfoldable pub close_unauthed : Auth → ℕ → Text → Closing
close_unauthed a ws reason = record {
  socket = ws;
  through = get ws a.ws_closers;
  code = unauthed_code;
  reason = reason;
}

-- The sockets whose token has the key.
unfoldable pub victims : Text → OrderedDict ℕ Text → List ℕ
victims key [] = []
victims key ((ws, socket_key) ∷ rest) =
    let others = victims key rest in if socket_key == key then ws ∷ others else others

unfoldable pub revoke_token_sockets : Auth → Text → List Closing
unfolding close_unauthed victims
revoke_token_sockets a key =
    map (λ ws. close_unauthed a ws (codes "세션이 폐기되었습니다")) (victims key a.ws_tokens)

-- One round of `_watchdog` for a socket: `woken` says that the event was set, and not that the
-- wait timed out. The last component is the close that ends the loop.
unfoldable pub watchdog_round : ℕ → Bool → ℕ → Text → Auth → Auth × Option Closing
unfolding close_unauthed key_valid
watchdog_round now woken ws key a =
    let cleared = record a { tokens_changed = if woken then false else a.tokens_changed } in
    let (a', valid) = key_valid now key cleared in
    (a', if valid then none else some (close_unauthed a' ws (codes "인증이 만료되었습니다")))

abbrev pub put_closer : ℕ → Option ℕ → OrderedDict ℕ ℕ → OrderedDict ℕ ℕ
put_closer ws none closers = closers
put_closer ws (some session) closers = put ws session closers

module _ (sha256 : Text → Text) where
  -- `_issue_token`: the state with the token that the source gave.
  unfoldable pub issue_token : ℕ → Text → Auth → Auth
  unfolding drop_expired
  issue_token now token a =
      let kept = drop_expired now a.valid_tokens in
      let grown = put (sha256 token) now kept in
      let removed = ltb (length kept) (length a.valid_tokens) || ltb max_tokens (length grown) in
      record a {
        valid_tokens = trim max_tokens grown;
        tokens_changed = a.tokens_changed || removed;
      }

  abbrev pub check_cookie : ℕ → Option Text → Auth → Auth × Bool
  check_cookie now none a = (a, false)
  check_cookie now (some token) a = key_valid now (sha256 token) a

  -- `is_authed`: the cookie is the one named `wterm_token`.
  unfoldable pub is_authed : ℕ → Option Text → Auth → Auth × Bool
  is_authed now cookie a = elim a.password_hash [
    | none ↦ (a, true)
    | some hash ↦ check_cookie now cookie a
  ]

  -- `register_socket`: the key that its watchdog checks, if it gets one. An empty cookie is none.
  unfoldable pub register_socket : ℕ → Option Text → Option ℕ → Auth → Auth × Option Text
  register_socket ws cookie closer a = elim (if is_some a.password_hash then cookie else none) [
    | none ↦ (a, none)
    | some token ↦ if is_nil token then (a, none) else (
      record a {
        ws_tokens = put ws (sha256 token) a.ws_tokens;
        ws_closers = put_closer ws closer a.ws_closers;
      },
      some (sha256 token),
    )
  ]

-- `unregister_socket`; its watchdog is cancelled.
unfoldable pub unregister_socket : ℕ → Auth → Auth
unregister_socket ws a = record a {
  ws_tokens = remove ws a.ws_tokens;
  ws_closers = remove ws a.ws_closers;
}
