-- ===== src/Auth/Login.antt =====
-- server/auth.py: `login` and `logout`. The Argon2 verification and Python's `str` of a value that
-- is no text are arguments. `login` has two parts, before and after the verification in a
-- worker thread, since other requests run in between.
pub mod Checks
pub mod Outcomes
use wterm.Prelude.{
  isdigit, to_int, ℕ, suc, ◌+◌, ◌-◌, ◌*◌, ◌/◌, ◌≡◌, Bool, true, false, ◌&&◌, ◌||◌, not, Option,
  none, some, List, [], ◌∷◌, ◌++◌, ltb, leb, eqb, if◌then◌else◌, length, Text, codes, second,
  is_nil, ◌==◌, nat_key, list_key, read_onto,
}
use wterm.Json
use wterm.Json.{Json, find}
use wterm.OrderedDict.{get, remove}
use wterm.Audit.{Value, text, number, audit}
use wterm.Auth.{Auth, Fails, Closing, token_ttl, issue_token, revoke_token_sockets}
use wterm.Auth.Backoff.{Recorded, delayed, overflow, login_block_remaining, record_login_failure}

abbrev pub login_body_limit : ℕ
login_body_limit = 4096

-- What the handlers read of a request. A body that is not JSON is `none`.
pub record Request : Type 0 where
  pub client : Text
  pub origin_allowed : Bool
  pub origin : Option Text
  pub host : Option Text
  pub content_length : Option Text
  pub body : Option Json
  pub cookie : Option Text
  pub is_secure : Bool

pub data Cookie : Type 0 where
  keep : Cookie
  set_token : Text → ℕ → Bool → Cookie
  delete_token : Bool → Cookie

pub record Response : Type 0 where
  pub status : ℕ
  pub retry_after : Option ℕ
  pub cookie : Cookie
  pub clear_site_data : Bool

-- An exception that the handler does not catch is a plain 500 of the framework.
pub data Outcome : Type 0 where
  reply : Response → Outcome
  raised : Outcome

abbrev pub plain : ℕ → Response
plain status = record {
  status = status;
  retry_after = none;
  cookie = keep;
  clear_site_data = false;
}

-- How far `login` comes before the verification.
pub data Started : Type 0 where
  answered : Outcome → List Text → Started
  verifying : Text → Text → Started

abbrev pub shown : Option Text → Option Value
shown none = none
shown (some t) = some (text t)

abbrev pub origin_line : Request → Text
origin_line r = audit (codes "login-reject") (
    (codes "reason", some (text (codes "origin")))
    ∷ (codes "client", some (text r.client))
    ∷ (codes "origin", shown r.origin)
    ∷ (codes "host", shown r.host)
    ∷ [])

module _ (repr : Json → Text) where
  -- str(value)
  abbrev pub str_json : Json → Text
  str_json (Json.str t) = t
  str_json value = repr value

  -- str(body["password"]); `none` is a KeyError or a TypeError.
  unfoldable pub password_of : Json → Option Text
  unfolding find
  password_of (Json.object members) = elim (find (codes "password") members) [
    | none ↦ none
    | some value ↦ some (str_json value)
  ]
  password_of other = none

  abbrev pub body_step : Text → Request → Started
  body_step hash r = elim r.body [
    | none ↦ answered (reply (plain 400)) []
    | some body ↦ elim (password_of body) [
      | none ↦ answered (reply (plain 400)) []
      | some password ↦ verifying hash password
    ]
  ]

  abbrev pub wait_step : Text → ℕ → Request → Auth → Started
  wait_step hash now r a =
      let wait = login_block_remaining r.client now a in
      if ltb 0 wait
      then answered
          (reply (record {
            status = 429;
            retry_after = some (wait / second + 1);
            cookie = keep;
            clear_site_data = false;
          }))
          []
      else body_step hash r

  abbrev pub length_step : Text → ℕ → Request → Auth → Text → Started
  length_step hash now r a declared =
      if not (isdigit declared) then answered (reply (plain 411)) [] else elim (to_int declared) [
        | none ↦ answered raised []
        | some size ↦
            if ltb login_body_limit size
            then answered (reply (plain 413)) []
            else wait_step hash now r a
      ]

  -- `login` up to the verification; it changes no state.
  unfoldable pub login_begin : ℕ → Request → Auth → Started
  login_begin now r a =
      if not r.origin_allowed
      then answered (reply (plain 403)) (origin_line r ∷ [])
      else elim a.password_hash [
        | none ↦ answered (reply (plain 200)) []
        | some hash ↦ elim r.content_length [
          | none ↦ answered (reply (plain 411)) []
          | some declared ↦ length_step hash now r a declared
        ]
      ]

-- What the verification answers: a match, one of the two exceptions that `login` catches, or any
-- other exception.
pub data Verdict : Type 0 where
  matches mismatch failed : Verdict

abbrev client_line : Text → Request → Text
client_line event r = audit event ((codes "client", some (text r.client)) ∷ [])

abbrev pub blocked_lines : Request → ℕ → Auth → Recorded → List Text
blocked_lines r fails a overflow = []
blocked_lines r fails a (delayed delay) =
    if eqb delay 0
    then []
    else audit (codes "login-blocked") (
        (codes "client", some (text r.client))
        ∷ (codes "fails", some (number fails))
        ∷ (codes "seconds", some (number (delay / second)))
        ∷ [])
      ∷ []

abbrev pub recorded_outcome : Recorded → Outcome
recorded_outcome overflow = raised
recorded_outcome (delayed d) = reply (plain 401)

abbrev count_of : Option Fails → ℕ
count_of none = 0
count_of (some entry) = entry.count

module _ (sha256 : Text → Text) where
  -- `login` after the verification: the new state, the answer and the audit lines.
  unfoldable pub login_finish : ℕ → Text → Request → Verdict → Auth → Auth × Outcome × List Text
  login_finish now token r matches a = (
    issue_token sha256 now token (record a { login_fails = remove r.client a.login_fails }),
    reply (record {
      status = 200;
      retry_after = none;
      cookie = set_token token token_ttl r.is_secure;
      clear_site_data = false;
    }),
    client_line (codes "login-ok") r ∷ [],
  )
  login_finish now token r mismatch a =
      let (a', result) = record_login_failure r.client now a in
      (
        a',
        recorded_outcome result,
        client_line (codes "login-fail") r
            ∷ blocked_lines r (count_of (get r.client a'.login_fails)) a' result,
      )
  login_finish now token r failed a = (a, raised, [])

  abbrev pub after_begin :
      (Text → Text → Verdict) → ℕ → Text → Request → Auth → Started → Auth × Outcome × List Text
  after_begin verify later token r a (answered outcome lines) = (a, outcome, lines)
  after_begin verify later token r a (verifying hash password) =
      login_finish later token r (verify hash password) a

  -- `login` when no other request runs during its verification.
  unfoldable pub login :
      (Json → Text)
      → (Text → Text → Verdict)
      → ℕ
      → ℕ
      → Text
      → Request
      → Auth
      → Auth × Outcome × List Text
  login repr verify now later token r a =
      after_begin verify later token r a (login_begin repr now r a)

  abbrev logout_line : Request → ℕ → Text
  logout_line r closed =
      audit (codes "logout")
        ((codes "client", some (text r.client)) ∷ (codes "sockets", some (number closed)) ∷ [])

  -- `if token:` asks for a cookie that is not empty.
  abbrev pub forget : Option Text → Auth → Auth × List Closing
  forget none a = (a, [])
  forget (some token) a =
      if is_nil token
      then (a, [])
      else let a' = record a { valid_tokens = remove (sha256 token) a.valid_tokens } in
        (a', revoke_token_sockets a' (sha256 token))

  -- `logout`: the new state, the sockets that are closed, the answer and the audit lines.
  unfoldable pub logout : Request → Auth → Auth × List Closing × Response × List Text
  logout r a =
      if not r.origin_allowed
      then (a, [], plain 403, [])
      else let (a', closed) = forget r.cookie a in
        (
          a',
          closed,
          record {
            status = 200;
            retry_after = none;
            cookie = delete_token r.is_secure;
            clear_site_data = true;
          },
          logout_line r (length closed) ∷ [],
        )
