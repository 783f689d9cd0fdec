-- ===== src/Auth/Tests.antt =====
-- Runs of the authentication at concrete inputs, with an injective map for SHA-256 and the hash of a
-- password being the password.
use wterm.Prelude.{
  isdigit, to_int, is_digit, all_chars, ℕ, ◌+◌, ◌-◌, ◌*◌, ◌^◌, ◌<◌, min, ◌≡◌, refl, true, false,
  none, some, List, [], ◌∷◌, arith, ltb, if◌then◌else◌, Text, codes, second, ◌==◌, nat_key,
  list_key, read_onto, filter_by,
}
use wterm.Json
use wterm.Json.{Json, Members, find}
use wterm.OrderedDict.{get, put, remove, trim}
use wterm.OrderedDict.Distinct.{Distinct}
use wterm.Auth.{
  Auth, init, token_ttl, issue_token, is_authed, key_valid, register_socket, drop_expired,
  revoke_token_sockets, victims, close_unauthed,
}
use wterm.Auth.Tokens.{is_authed-issue_token}
use wterm.Auth.Sockets.{closes}
use wterm.Auth.Narrows.{IsKept}
use wterm.Auth.Backoff.{
  free_attempts, backoff_max, login_block_remaining, record_login_failure, delayed, overflow,
  delay_after, record_login_failure_schedule, record_login_failure_overflow,
}
use wterm.Auth.Login.{
  Request, Response, reply, set_token, Verdict, matches, mismatch, login, logout, login_begin,
  login_finish, password_of,
}
use wterm.Auth.Login.Checks.{IsChecked}
use wterm.Auth.Login.Outcomes.{login-set_token, login_blocked, logout-is_authed}
use wterm.Auth.Steps.{Op, World, begin, begins, finishes, checks, take_out, run, step, Issued}
use wterm.Auth.History.{is_authed-Issued, run-init-IsKept}

abbrev sha : Text → Text
sha t = b'#' ∷ t

abbrev repr : Json → Text
repr value = []

abbrev verify : Text → Text → Verdict
verify hash password = if hash == password then matches else mismatch

abbrev secret : Text
secret = codes "secret"

abbrev token : Text
token = codes "tok"

abbrev body : Text → Json
body password = Json.object (Json.member (codes "password") (Json.str password) Json.end)

abbrev request : Text → Request
request password = record {
  client = codes "10.0.0.1";
  origin_allowed = true;
  origin = none;
  host = none;
  content_length = some (codes "21");
  body = some (body password);
  cookie = some token;
  is_secure = true;
}

abbrev start : Auth
start = init (some secret)

-- The right password is sent, and verified, while a guess is still being verified.
abbrev history : List Op
history =
    checks 30 none
    ∷ finishes 0 26 (codes "other")
    ∷ finishes 1 25 token
    ∷ begins 11 (request secret)
    ∷ begins 10 (request (codes "guess"))
    ∷ []

abbrev after_history : World
after_history = run sha repr verify history (begin start)

let_in : (is_authed sha 40 (some token) after_history.auth).1 ≡ true
unfolding init run step take_out is_authed key_valid login_begin login_finish login_block_remaining
    record_login_failure delay_after isdigit is_digit all_chars to_int read_onto password_of find
    get put remove trim issue_token drop_expired filter_by
let_in = refl

is_authed-Issued_example :
    (t : ℕ) × Issued sha repr verify (sha token) t history (begin start) × (40 - t < token_ttl)
is_authed-Issued_example = is_authed-Issued sha repr verify secret token 40 history let_in

run-init-IsKept_example : IsKept after_history.auth
run-init-IsKept_example = run-init-IsKept sha repr verify secret history

is_authed-issue_token_example :
    (is_authed sha 100 (some token) (issue_token sha 25 token start)).1 ≡ ltb (100 - 25) token_ttl
unfolding init get
is_authed-issue_token_example = is_authed-issue_token sha 25 100 token secret start refl refl

abbrev welcome : Response
welcome = record {
  status = 200;
  retry_after = none;
  cookie = set_token token token_ttl true;
  clear_site_data = false;
}

welcomed : (login sha repr verify 20 25 token (request secret) start).1 ≡ reply welcome
unfolding init login login_begin login_finish login_block_remaining isdigit is_digit all_chars
    to_int read_onto password_of find get
welcomed = refl

login-set_token_example :
    (hash : Text) × (password : Text) × IsChecked repr 20 (request secret) start hash password
    × (verify hash password ≡ matches)
    × (token ≡ token)
login-set_token_example =
    login-set_token sha repr verify 20 25 token_ttl token token true (request secret) start welcome
      welcomed refl

abbrev client : Text
client = codes "10.0.0.1"

-- A client that has failed so often, the last time at 0.
abbrev failed_so_often : ℕ → ℕ → Auth
failed_so_often count until = record start {
  login_fails = (client, record { count = count; unblock_at = until }) ∷ [];
}

abbrev blocked : Auth
blocked = failed_so_often 7 4000

login_blocked_example :
    (answer : Response) × (login sha repr verify 500 600 token (request secret) blocked
      ≡ (blocked, reply answer, []))
    × (answer.status ≡ 429)
    × ((wait : ℕ) × (answer.retry_after ≡ some wait)
        × (login_block_remaining client (500 + wait * second) blocked ≡ 0))
unfolding init isdigit is_digit all_chars to_int read_onto login_block_remaining get
login_blocked_example =
    login_blocked sha repr verify 500 600 token secret (codes "21") 21 (request secret) blocked refl
      refl refl refl refl (omega arith) (omega arith)

-- A device with its socket, and another device with its own.
abbrev two_devices : Auth
two_devices =
    (register_socket sha 2 (some (codes "other")) none
      (register_socket sha 1 (some token) (some 9) start).0).0

two_sockets : two_devices.ws_tokens ≡ (1, sha token) ∷ (2, sha (codes "other")) ∷ []
unfolding init register_socket put
two_sockets = refl

apart : Distinct two_devices.ws_tokens
unfolding init register_socket put get
apart = (refl, (refl, tt))

logout-is_authed_example :
    ((is_authed sha 50 (some token) (logout sha (request secret) two_devices).0).1 ≡ false)
    × (closes 2 (logout sha (request secret) two_devices).1
        ≡ elim (get 2 two_devices.ws_tokens) [ none ↦ false | some k ↦ k == sha token ])
unfolding init register_socket
logout-is_authed_example =
    logout-is_authed sha 50 2 token secret (request secret) two_devices refl refl refl refl apart

only_one_closed :
    (closes 1 (logout sha (request secret) two_devices).1 ≡ true)
    × (closes 2 (logout sha (request secret) two_devices).1 ≡ false)
unfolding init register_socket logout revoke_token_sockets victims close_unauthed closes put
only_one_closed = (refl, refl)

record_login_failure_schedule_example :
    let delay =
      if ltb free_attempts 8 then min (2 ^ (8 - free_attempts) * second) backoff_max else 0 in
    let after = record_login_failure client 5000 blocked in
    (get client after.0.login_fails ≡ some (record { count = 8; unblock_at = 5000 + delay }))
    × (after.1 ≡ delayed delay)
    × (login_block_remaining client 5000 after.0 ≡ delay)
unfolding init get
record_login_failure_schedule_example =
    record_login_failure_schedule client 5000 blocked (record { count = 7; unblock_at = 4000 }) refl
      (omega arith) (omega arith)

abbrev worn_out : Auth
worn_out = failed_so_often 1028 900000

record_login_failure_overflow_example :
    ((record_login_failure client 900000 worn_out).1 ≡ overflow)
    × (get client (record_login_failure client 900000 worn_out).0.login_fails ≡ none)
unfolding init get
record_login_failure_overflow_example =
    record_login_failure_overflow client 900000 worn_out
      (record { count = 1028; unblock_at = 900000 }) refl (omega arith) (omega arith)
