-- ===== src/Auth/Narrows.antt =====
-- Operations on the authentication state that hand no token out.
use wterm.Prelude.{
  ℕ, ◌≤◌, ◌≡◌, ◌⊎◌, refl, Bool, false, Option, none, some, arith, if◌then◌else◌, length, Text,
  is_nil, is_some, nat_key, list_key, Option-cases, Bool-cases, inl, inr,
}
use wterm.OrderedDict.{get, remove}
use wterm.OrderedDict.Laws.{get-remove, length-remove-le}
use wterm.OrderedDict.Distinct.{Distinct, put-Distinct, remove-Distinct}
use wterm.Auth.{Auth, is_authed, key_valid, watchdog_round, register_socket, unregister_socket}
use wterm.Auth.Tokens.{IsSound, get-key_valid, key_valid-IsSound, key_valid_frame}
use wterm.Auth.Backoff.{
  bucket_limit, record_login_failure, length-record_login_failure-le, record_login_failure_frame,
}
use wterm.Auth.Login.{Request, logout}

-- What every history keeps: the tables are bounded and hold no key twice.
pub record IsKept (a : Auth) : Type 0 where
  pub tokens : IsSound a.valid_tokens
  pub fails : length a.login_fails ≤ bucket_limit
  pub sockets : Distinct a.ws_tokens

-- An operation that hands no token out: the tables stay sound, and no key appears.
pub record Narrows (a b : Auth) : Type 0 where
  pub kept : IsKept b
  pub same_hash : b.password_hash ≡ a.password_hash
  pub fewer :
      (key : Text)
      → (get key b.valid_tokens ≡ get key a.valid_tokens) ⊎ (get key b.valid_tokens ≡ none)

pub Narrows-refl : (a : Auth) → IsKept a → Narrows a a
Narrows-refl a k = record { kept = k; same_hash = refl; fewer = λ key. inl refl }

-- Whatever is done to the other tables does not matter.
pub key_valid-Narrows :
    (now : ℕ) (key : Text) (a : Auth) → IsKept a → Narrows a (key_valid now key a).0
key_valid-Narrows now key a k = record {
  kept = record {
    tokens = key_valid-IsSound now key a k.tokens;
    fails = rw (key_valid_frame now key a).0 k.fails;
    sockets = rw (key_valid_frame now key a).1 k.sockets;
  };
  same_hash = (key_valid_frame now key a).2;
  fewer = λ other. get-key_valid now key other a;
}

pub remove_token-Narrows :
    (key : Text) (a : Auth)
    → IsKept a
    → Narrows a (record a { valid_tokens = remove key a.valid_tokens })
remove_token-Narrows key a k = record {
  kept = record {
    tokens = record {
      bounded = omega (arith, k.tokens.bounded, length-remove-le key a.valid_tokens);
      distinct = remove-Distinct key a.valid_tokens k.tokens.distinct;
    };
    fails = k.fails;
    sockets = k.sockets;
  };
  same_hash = refl;
  fewer = λ other. ground (arith, get-remove key other a.valid_tokens);
}

pub watchdog_round-Narrows :
    (now : ℕ) (woken : Bool) (ws : ℕ) (key : Text) (a : Auth)
    → IsKept a
    → Narrows a (watchdog_round now woken ws key a).0
unfolding watchdog_round
watchdog_round-Narrows now woken ws key a k =
    let cleared : Auth = record a { tokens_changed = if woken then false else a.tokens_changed } in
    let n =
      key_valid-Narrows now key cleared
        (record { tokens = k.tokens; fails = k.fails; sockets = k.sockets }) in
    record { kept = n.kept; same_hash = n.same_hash; fewer = n.fewer }

pub unregister_socket-Narrows : (ws : ℕ) (a : Auth) → IsKept a → Narrows a (unregister_socket ws a)
unfolding unregister_socket
unregister_socket-Narrows ws a k = record {
  kept = record {
    tokens = k.tokens;
    fails = k.fails;
    sockets = remove-Distinct ws a.ws_tokens k.sockets;
  };
  same_hash = refl;
  fewer = λ key. inl refl;
}

pub record_login_failure-Narrows :
    (client : Text) (now : ℕ) (a : Auth)
    → IsKept a
    → Narrows a (record_login_failure client now a).0
record_login_failure-Narrows client now a k =
    let (same_tokens, same_sockets, same) = record_login_failure_frame client now a in
    record {
      kept = record {
        tokens = rw same_tokens k.tokens;
        fails = length-record_login_failure-le client now a k.fails;
        sockets = rw same_sockets k.sockets;
      };
      same_hash = same;
      fewer = λ key. inl (rw same_tokens);
    }

module _ (sha256 : Text → Text) where
  pub logout-Narrows : (r : Request) (a : Auth) → IsKept a → Narrows a (logout sha256 r a).0
  unfolding logout
  logout-Narrows r a k = elim (Bool-cases r.origin_allowed) [
    | inr foreign ↦ simp (foreign, logout) (Narrows-refl a k)
    | inl own ↦ elim (Option-cases r.cookie) [
      | inl bare ↦ simp (own, bare, logout) (Narrows-refl a k)
      | inr (token, sent) ↦ elim (Bool-cases (is_nil token)) [
        | inl empty ↦ simp (own, sent, empty, logout) (Narrows-refl a k)
        | inr real ↦ simp (own, sent, real, logout) (remove_token-Narrows (sha256 token) a k)
      ]
    ]
  ]

  pub is_authed-Narrows :
      (now : ℕ) (cookie : Option Text) (a : Auth)
      → IsKept a
      → Narrows a (is_authed sha256 now cookie a).0
  unfolding is_authed
  is_authed-Narrows now none a k = elim (Option-cases a.password_hash) [
    | inl open_door ↦ simp (open_door, is_authed) (Narrows-refl a k)
    | inr (hash, locked) ↦ simp (locked, is_authed) (Narrows-refl a k)
  ]
  is_authed-Narrows now (some token) a k = elim (Option-cases a.password_hash) [
    | inl open_door ↦ simp (open_door, is_authed) (Narrows-refl a k)
    | inr (hash, locked) ↦ simp (locked, is_authed) (key_valid-Narrows now (sha256 token) a k)
  ]

  pub register_socket-Narrows :
      (ws : ℕ) (cookie : Option Text) (closer : Option ℕ) (a : Auth)
      → IsKept a
      → Narrows a (register_socket sha256 ws cookie closer a).0
  unfolding register_socket
  register_socket-Narrows ws cookie closer a k =
      elim (Option-cases (if is_some a.password_hash then cookie else none)) [
        | inl bare ↦ rw (bare, register_socket) (Narrows-refl a k)
        | inr (token, sent) ↦ elim (Bool-cases (is_nil token)) [
          | inl empty ↦ rw (sent, register_socket, empty) (Narrows-refl a k)
          | inr real ↦
              rw (sent, register_socket, real)
                (record {
                  kept = record {
                    tokens = k.tokens;
                    fails = k.fails;
                    sockets = put-Distinct ws (sha256 token) a.ws_tokens k.sockets;
                  };
                  same_hash = refl;
                  fewer = λ key. inl refl;
                })
        ]
      ]
