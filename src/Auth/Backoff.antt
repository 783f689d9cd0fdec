-- ===== src/Auth/Backoff.antt =====
-- server/auth.py: `_login_block_remaining` and `_record_login_failure`, the login back-off.
use wterm.Prelude.{
  ℕ, ◌+◌, ◌-◌, ◌*◌, ◌^◌, ◌≤◌, ◌<◌, min, ◌≡◌, refl, Option, none, some, arith, ltb, if◌then◌else◌,
  length, Text, second, Option-cases, Bool-cases, inl, inr, list_key, nat_key, lt→ltb, le→ltb,
}
use wterm.OrderedDict.{get, put, remove, trim}
use wterm.OrderedDict.Laws.{length-trim-le, length-remove-le}
use wterm.OrderedDict.Newest.{get-trim-put_new, get-remove_self}
use wterm.Auth.{Auth, Fails}

abbrev pub free_attempts : ℕ
free_attempts = 5

abbrev pub backoff_max : ℕ
backoff_max = 900 * second

abbrev pub fail_decay : ℕ
fail_decay = 900 * second

abbrev pub bucket_limit : ℕ
bucket_limit = 1024

-- `2.0 ** n` is a float up to the exponent 1023, and an OverflowError beyond.
abbrev pub float_exponent_max : ℕ
float_exponent_max = 1023

unfoldable pub backoff : ℕ → Option ℕ
backoff exponent =
    if ltb float_exponent_max exponent then none else some (min (2 ^ exponent * second) backoff_max)

-- The delay after so many failures; `none` is the OverflowError.
unfoldable pub delay_after : ℕ → Option ℕ
unfolding backoff
delay_after fails = if ltb free_attempts fails then backoff (fails - free_attempts) else some 0

abbrev pub remaining : Option Fails → ℕ → ℕ
remaining none now = 0
remaining (some entry) now = entry.unblock_at - now

unfoldable pub login_block_remaining : Text → ℕ → Auth → ℕ
login_block_remaining client now a = remaining (get client a.login_fails) now

abbrev pub next_count : Option Fails → ℕ → ℕ
next_count none now = 1
next_count (some entry) now = if ltb fail_decay (now - entry.unblock_at) then 1 else entry.count + 1

-- What `_record_login_failure` does: `delayed d` is a return with the delay `d`, and `overflow`
-- the exception of the power, which leaves the client's entry popped.
pub data Recorded : Type 0 where
  delayed : ℕ → Recorded
  overflow : Recorded

unfoldable pub record_login_failure : Text → ℕ → Auth → Auth × Recorded
record_login_failure client now a =
    let fails = next_count (get client a.login_fails) now in
    let popped = remove client a.login_fails in
    elim (delay_after fails) [
      | none ↦ (record a { login_fails = popped }, overflow)
      | some delay ↦ (
        record a {
          login_fails =
              trim bucket_limit
                (put client (record { count = fails; unblock_at = now + delay }) popped);
        },
        delayed delay,
      )
    ]

delay_after-le : (fails : ℕ) (d : ℕ) → delay_after fails ≡ some d → d ≤ backoff_max
unfolding delay_after
delay_after-le fails d h = ground arith

delay_after_few :
    (fails : ℕ)
    → fails ≤ free_attempts + float_exponent_max
    → delay_after fails
      ≡ some (
          if ltb free_attempts fails
          then min (2 ^ (fails - free_attempts) * second) backoff_max
          else 0)
unfolding delay_after backoff
delay_after_few fails h = elim (Bool-cases (ltb free_attempts fails)) [
  | inl some_delay ↦
      rw (some_delay, le→ltb float_exponent_max (fails - free_attempts) (omega arith))
  | inr free ↦ rw free
]

delay_after_many :
    (fails : ℕ) → free_attempts + float_exponent_max < fails → delay_after fails ≡ none
unfolding delay_after
delay_after_many fails h = rw (
  lt→ltb free_attempts fails (omega arith),
  lt→ltb float_exponent_max (fails - free_attempts) (omega arith),
)

record_delayed :
    (client : Text) (now delay : ℕ) (a : Auth)
    → delay_after (next_count (get client a.login_fails) now) ≡ some delay
    → let entry : Fails = record {
      count = next_count (get client a.login_fails) now;
      unblock_at = now + delay;
    } in
      (get client (record_login_failure client now a).0.login_fails ≡ some entry)
      × ((record_login_failure client now a).1 ≡ delayed delay)
unfolding record_login_failure
record_delayed client now delay a h =
    rw (h, record_login_failure)
      (
        get-trim-put_new client _ 1023 (remove client a.login_fails)
            (get-remove_self client a.login_fails),
        refl,
      )

-- The schedule, up to the 1028th failure in a row. A failure of a client whose last entry has not
-- decayed is counted on top of it; up to five failures do not block, the next ones block for 2, 4,
-- 8, … seconds, and for fifteen minutes at most; the entry is kept, whatever other clients are in
-- the table.
pub record_login_failure_schedule :
    (client : Text) (now : ℕ) (a : Auth) (entry : Fails)
    → get client a.login_fails ≡ some entry
    → now - entry.unblock_at ≤ fail_decay
    → entry.count < free_attempts + float_exponent_max
    → let delay =
        if ltb free_attempts (entry.count + 1)
        then min (2 ^ (entry.count + 1 - free_attempts) * second) backoff_max
        else 0 in
      let after = record_login_failure client now a in
      (get client after.0.login_fails
        ≡ some (record { count = entry.count + 1; unblock_at = now + delay }))
      × (after.1 ≡ delayed delay)
      × (login_block_remaining client now after.0 ≡ delay)
unfolding login_block_remaining
record_login_failure_schedule client now a entry found recent few =
    let delay =
      if ltb free_attempts (entry.count + 1)
      then min (2 ^ (entry.count + 1 - free_attempts) * second) backoff_max
      else 0 in
    let step : next_count (get client a.login_fails) now ≡ entry.count + 1 =
      rw (found, le→ltb _ _ recent) in
    let wait : delay_after (entry.count + 1) ≡ some delay =
      delay_after_few (entry.count + 1) (omega arith) in
    let (kept, result) = record_delayed client now delay a (rw step wait) in
    let kept' = rw step at kept in (kept', result, rw kept' (omega arith))

-- The number of buckets is bounded, whoever fails.
pub length-record_login_failure-le :
    (client : Text) (now : ℕ) (a : Auth)
    → length a.login_fails ≤ bucket_limit
    → length (record_login_failure client now a).0.login_fails ≤ bucket_limit
unfolding record_login_failure
length-record_login_failure-le client now a h =
    elim (Option-cases (delay_after (next_count (get client a.login_fails) now))) [
      | inl raised ↦
          rw (raised, record_login_failure) (omega (arith, length-remove-le client a.login_fails))
      | inr (delay, fine) ↦ rw (fine, record_login_failure) (length-trim-le bucket_limit _)
    ]

-- The 1029th failure in a row, and any later one, of a client whose last entry has not decayed
-- raises an exception, and the entry is gone.
pub record_login_failure_overflow :
    (client : Text) (now : ℕ) (a : Auth) (entry : Fails)
    → get client a.login_fails ≡ some entry
    → now - entry.unblock_at ≤ fail_decay
    → free_attempts + float_exponent_max ≤ entry.count
    → ((record_login_failure client now a).1 ≡ overflow)
      × (get client (record_login_failure client now a).0.login_fails ≡ none)
unfolding record_login_failure
record_login_failure_overflow client now a entry found recent many =
    let step : next_count (get client a.login_fails) now ≡ entry.count + 1 =
      rw (found, le→ltb _ _ recent) in
    rw (step, delay_after_many (entry.count + 1) (omega arith), record_login_failure)
      (refl, get-remove_self client a.login_fails)

-- Right after a failure no client is blocked for more than fifteen minutes, whatever was recorded
-- before.
pub block_bounded :
    (client : Text) (now : ℕ) (a : Auth)
    → login_block_remaining client now (record_login_failure client now a).0 ≤ backoff_max
unfolding record_login_failure login_block_remaining
block_bounded client now a =
    elim (Option-cases (delay_after (next_count (get client a.login_fails) now))) [
      | inl raised ↦
          rw (raised, record_login_failure, get-remove_self client a.login_fails) (omega arith)
      | inr (delay, fine) ↦
          rw ((record_delayed client now delay a fine).0)
            (omega (arith, delay_after-le _ delay fine))
    ]

-- A failure touches the failures alone.
pub record_login_failure_frame :
    (client : Text) (now : ℕ) (a : Auth)
    → ((record_login_failure client now a).0.valid_tokens ≡ a.valid_tokens)
      × ((record_login_failure client now a).0.ws_tokens ≡ a.ws_tokens)
      × ((record_login_failure client now a).0.password_hash ≡ a.password_hash)
unfolding record_login_failure
record_login_failure_frame client now a = ground arith
