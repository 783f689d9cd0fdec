-- ===== src/Auth/Login/Outcomes.antt =====
-- What a login and a logout answer and leave behind.
use wterm.Prelude.{
  isdigit, to_int, ℕ, ◌+◌, ◌*◌, ◌/◌, ◌≤◌, ◌<◌, ◌≡◌, refl, ◌≢◌, ap, ◌∙◌, Bool, true, false, none,
  some, [], arith, Text, second, is_nil, ◌==◌, nat_key, list_key, inl, inr, lt→ltb, le→ltb,
}
use wterm.Json.{Json}
use wterm.OrderedDict.{get, remove}
use wterm.OrderedDict.Distinct.{Distinct}
use wterm.OrderedDict.Newest.{get-remove_self}
use wterm.Auth.{Auth, is_authed, revoke_token_sockets}
use wterm.Auth.Tokens.{is_authed_absent}
use wterm.Auth.Sockets.{closes, revoke_token_sockets-closes}
use wterm.Auth.Backoff.{login_block_remaining, record_login_failure}
use wterm.Auth.Login.{
  Request, Response, reply, keep, set_token, answered, Verdict, matches, login_body_limit,
  login_begin, login_finish, login, logout,
}
use wterm.Auth.Login.Checks.{
  IsChecked, login_begin-IsChecked, Started-cases, login_begin-keep, login_finish-token,
}

block_over :
    (client : Text) (now seconds : ℕ) (a : Auth)
    → login_block_remaining client now a ≤ seconds * second
    → login_block_remaining client (now + seconds * second) a ≡ 0
unfolding login_block_remaining
block_over client now seconds a h = ground arith

-- The answer to a blocked client.
abbrev too_many : ℕ → Response
too_many wait = record {
  status = 429;
  retry_after = some (wait / second + 1);
  cookie = keep;
  clear_site_data = false;
}

login_begin_blocked :
    (repr : Json → Text) (now : ℕ) (hash declared : Text) (size : ℕ) (r : Request) (a : Auth)
    → r.origin_allowed ≡ true
    → a.password_hash ≡ some hash
    → r.content_length ≡ some declared
    → isdigit declared ≡ true
    → to_int declared ≡ some size
    → size ≤ login_body_limit
    → 0 < login_block_remaining r.client now a
    → login_begin repr now r a
      ≡ answered (reply (too_many (login_block_remaining r.client now a))) []
unfolding login_begin
login_begin_blocked repr now hash declared size r a own configured given digits int small blocked =
    simp (own, configured, given, login_begin, digits, int, le→ltb _ _ small, lt→ltb _ _ blocked)

module _ (sha256 : Text → Text) (repr : Json → Text) (verify : Text → Text → Verdict) where
  -- Whoever is handed a token has sent the right password from an allowed origin, within the size
  -- limit and outside a block; and the token that is handed out is a new one of the source.
  pub login-set_token :
      (now later ttl : ℕ) (token handed : Text) (secure : Bool) (r : Request) (a : Auth)
      (answer : Response)
      → (login sha256 repr verify now later token r a).1 ≡ reply answer
      → answer.cookie ≡ set_token handed ttl secure
      → (hash : Text) × (password : Text) × IsChecked repr now r a hash password
        × (verify hash password ≡ matches)
        × (handed ≡ token)
  unfolding login login_finish
  login-set_token now later ttl token handed secure r a answer e c =
      elim (Started-cases (login_begin repr now r a)) [
        | inl (o, lines, begun) ↦
            let early : o ≡ reply answer = rw (begun, login) at e in
            let kept =
              login_begin-keep repr now r a answer lines
                (begun ∙ ap (λ x. answered x lines) early) in
            absurd (cc)
        | inr (hash, password, begun) ↦
            let (right, same) =
              login_finish-token sha256 later ttl token handed secure r (verify hash password) a
                answer (rw (begun, login) at e) c in
            (hash, password, login_begin-IsChecked repr now r a hash password begun, right, same)
      ]

  -- A request that comes while its client is blocked is turned away before its password is looked at.
  -- If it is from an allowed origin, with a declared length within the limit and a password set, and
  -- `login` finds the client blocked when it checks, then the answer is 429, whatever the verification
  -- would answer; the state stays as it is, and after the seconds that the answer names the block is
  -- over. A request that has passed the check before the block began is not meant.
  pub login_blocked :
      (now later : ℕ) (token hash declared : Text) (size : ℕ) (r : Request) (a : Auth)
      → r.origin_allowed ≡ true
      → a.password_hash ≡ some hash
      → r.content_length ≡ some declared
      → isdigit declared ≡ true
      → to_int declared ≡ some size
      → size ≤ login_body_limit
      → 0 < login_block_remaining r.client now a
      → (answer : Response) × (login sha256 repr verify now later token r a ≡ (a, reply answer, []))
        × (answer.status ≡ 429)
        × ((wait : ℕ) × (answer.retry_after ≡ some wait)
            × (login_block_remaining r.client (now + wait * second) a ≡ 0))
  unfolding login
  login_blocked now later token hash declared size r a own configured given digits int small
        blocked =
      let wait = login_block_remaining r.client now a in
      (
        too_many wait,
        rw (
          login_begin_blocked repr now hash declared size r a own configured given digits int small
              blocked,
          login,
        ),
        refl,
        (wait / second + 1, refl, block_over r.client now (wait / second + 1) a (omega arith)),
      )

module _ (sha256 : Text → Text) where
  -- A wrong password, or a verification that fails, leaves every token as it was.
  pub login_finish-valid_tokens :
      (later : ℕ) (token : Text) (r : Request) (verdict : Verdict) (a : Auth)
      → verdict ≢ matches
      → (login_finish sha256 later token r verdict a).0.valid_tokens ≡ a.valid_tokens
  unfolding login_finish record_login_failure
  login_finish-valid_tokens later token r verdict a h = ground arith

  -- After a logout from an allowed origin with a token, with a password set and no socket
  -- registered twice, the token opens nothing, at any time, and of the sockets exactly those that
  -- were opened with it are closed.
  pub logout-is_authed :
      (later ws : ℕ) (token hash : Text) (r : Request) (a : Auth)
      → r.origin_allowed ≡ true
      → r.cookie ≡ some token
      → is_nil token ≡ false
      → a.password_hash ≡ some hash
      → Distinct a.ws_tokens
      → ((is_authed sha256 later (some token) (logout sha256 r a).0).1 ≡ false)
        × (closes ws (logout sha256 r a).1
            ≡ elim (get ws a.ws_tokens) [ none ↦ false | some k ↦ k == sha256 token ])
  unfolding logout
  logout-is_authed later ws token hash r a own sent real configured d =
      let left : Auth = record a { valid_tokens = remove (sha256 token) a.valid_tokens } in
      let done : logout sha256 r a ≡ (
        left,
        revoke_token_sockets left (sha256 token),
        (logout sha256 r a).2,
        (logout sha256 r a).3,
      ) =
        simp (own, logout, sent, real) in
      rw done (
        is_authed_absent sha256 later token hash left configured
            (get-remove_self (sha256 token) a.valid_tokens),
        revoke_token_sockets-closes left (sha256 token) ws d,
      )
