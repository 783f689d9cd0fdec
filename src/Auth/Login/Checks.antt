-- ===== src/Auth/Login/Checks.antt =====
-- What `login` has checked when it verifies a password, and which answers carry a cookie.
use wterm.Prelude.{
  isdigit, to_int, ℕ, ◌≤◌, ◌≡◌, ◌⊎◌, refl, ◌≢◌, ap, ◌∙◌, Bool, true, some, List, arith, Text,
  nat_key, list_key, Option-cases, Bool-cases, inl, inr,
}
use wterm.Json.{Json}
use wterm.Auth.{Auth}
use wterm.Auth.Backoff.{login_block_remaining}
use wterm.Auth.Login.{
  Request, Response, Outcome, reply, keep, set_token, Started, answered, verifying, Verdict,
  matches, mismatch, failed, login_body_limit, password_of, login_begin, login_finish, body_step,
  wait_step, length_step,
}

-- What `login` has checked when it comes to the verification.
pub record IsChecked (repr : Json → Text) (now : ℕ) (r : Request) (a : Auth) (hash password : Text)
    : Type 0 where
  pub same_origin : r.origin_allowed ≡ true
  pub configured : a.password_hash ≡ some hash
  pub not_blocked : login_block_remaining r.client now a ≡ 0
  pub sized :
      (declared : Text) × (size : ℕ) × (r.content_length ≡ some declared)
      × (isdigit declared ≡ true)
      × (to_int declared ≡ some size)
      × (size ≤ login_body_limit)
  pub sent : (body : Json) × (r.body ≡ some body) × (password_of repr body ≡ some password)

module _ (repr : Json → Text) (now : ℕ) (r : Request) (a : Auth) where
  body_step_checks :
      (hash h password : Text)
      → body_step repr hash r ≡ verifying h password
      → (hash ≡ h)
        × ((body : Json) × (r.body ≡ some body) × (password_of repr body ≡ some password))
  body_step_checks hash h password e = ground arith

  wait_step_checks :
      (hash h password : Text)
      → wait_step repr hash now r a ≡ verifying h password
      → (login_block_remaining r.client now a ≡ 0) × (body_step repr hash r ≡ verifying h password)
  wait_step_checks hash h password e = ground arith

  length_step_checks :
      (hash h password declared : Text)
      → length_step repr hash now r a declared ≡ verifying h password
      → (isdigit declared ≡ true)
        × ((size : ℕ) × (to_int declared ≡ some size) × (size ≤ login_body_limit))
        × (wait_step repr hash now r a ≡ verifying h password)
  length_step_checks hash h password declared e = ground arith

  -- The verification of a password is reached only past every earlier check.
  pub login_begin-IsChecked :
      (hash password : Text)
      → login_begin repr now r a ≡ verifying hash password
      → IsChecked repr now r a hash password
  unfolding login_begin
  login_begin-IsChecked hash password e = elim (Bool-cases r.origin_allowed) [
    | inr foreign ↦ absurd (ground arith)
    | inl own ↦ elim (Option-cases a.password_hash) [
      | inl open_door ↦ absurd (ground arith)
      | inr (h, configured) ↦ elim (Option-cases r.content_length) [
        | inl missing ↦ absurd (ground arith)
        | inr (declared, given) ↦
            let reached : length_step repr h now r a declared ≡ verifying hash password =
              rw (own, configured, given, login_begin) at e in
            let (digits, small, later) = length_step_checks h hash password declared reached in
            let (free, last) = wait_step_checks h hash password later in
            let (same, body) = body_step_checks h hash password last in
            record {
              same_origin = own;
              configured = configured ∙ ap some same;
              not_blocked = free;
              sized = (declared, small.0, given, digits, small.1, small.2);
              sent = body;
            }
      ]
    ]
  ]

pub Started-cases :
    (s : Started)
    → ((o : Outcome) × (lines : List Text) × (s ≡ answered o lines))
      ⊎ ((hash : Text) × (password : Text) × (s ≡ verifying hash password))
Started-cases (answered o lines) = inl (o, lines, refl)
Started-cases (verifying hash password) = inr (hash, password, refl)

Verdict-cases : (v : Verdict) → (v ≡ matches) ⊎ (v ≢ matches)
Verdict-cases matches = inl refl
Verdict-cases mismatch = inr (λ e. cc)
Verdict-cases failed = inr (λ e. cc)

-- No answer before the verification carries a cookie.
length_step-keep :
    (repr : Json → Text) (hash : Text) (now : ℕ) (r : Request) (a : Auth) (declared : Text)
    (answer : Response) (lines : List Text)
    → length_step repr hash now r a declared ≡ answered (reply answer) lines
    → answer.cookie ≡ keep
length_step-keep repr hash now r a declared answer lines e = ground arith

pub login_begin-keep :
    (repr : Json → Text) (now : ℕ) (r : Request) (a : Auth) (answer : Response) (lines : List Text)
    → login_begin repr now r a ≡ answered (reply answer) lines
    → answer.cookie ≡ keep
unfolding login_begin
login_begin-keep repr now r a answer lines e = elim (Bool-cases r.origin_allowed) [
  | inr foreign ↦ ground arith
  | inl own ↦ elim (Option-cases a.password_hash) [
    | inl open_door ↦ ground arith
    | inr (h, configured) ↦ elim (Option-cases r.content_length) [
      | inl missing ↦ ground arith
      | inr (declared, given) ↦
          length_step-keep repr h now r a declared answer lines
            (rw (own, configured, given, login_begin) at e)
    ]
  ]
]

-- Nor does an answer after a password that does not match.
pub login_finish-keep :
    (sha256 : Text → Text) (later : ℕ) (token : Text) (r : Request) (verdict : Verdict) (a : Auth)
    (answer : Response)
    → verdict ≢ matches
    → (login_finish sha256 later token r verdict a).1 ≡ reply answer
    → answer.cookie ≡ keep
unfolding login_finish
login_finish-keep sha256 later token r matches a answer h e = absurd (h refl)
login_finish-keep sha256 later token r mismatch a answer h e = ground arith
login_finish-keep sha256 later token r failed a answer h e = cc

pub login_finish-token :
    (sha256 : Text → Text) (later ttl : ℕ) (token handed : Text) (secure : Bool) (r : Request)
    (verdict : Verdict) (a : Auth) (answer : Response)
    → (login_finish sha256 later token r verdict a).1 ≡ reply answer
    → answer.cookie ≡ set_token handed ttl secure
    → (verdict ≡ matches) × (handed ≡ token)
unfolding login_finish
login_finish-token sha256 later ttl token handed secure r matches a answer e c =
    (refl, ground arith)
login_finish-token sha256 later ttl token handed secure r mismatch a answer e c =
    absurd (let k = login_finish-keep sha256 later token r mismatch a answer (λ p. cc) e in cc)
login_finish-token sha256 later ttl token handed secure r failed a answer e c = absurd (cc)
