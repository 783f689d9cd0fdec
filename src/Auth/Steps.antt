-- ===== src/Auth/Steps.antt =====
-- server/auth.py: every handler and every watchdog round as a step of the state, with a login cut at
-- its verification, and what one step can do to the table of tokens.
use wterm.Prelude.{
  ℕ, ◌≡◌, ◌⊎◌, Bool, Option, some, List, [], ◌∷◌, Text, nat_key, list_key, zero, suc, none, ◌++◌,
}
use wterm.Json.{Json}
use wterm.Auth.{Auth, is_authed, watchdog_round, register_socket, unregister_socket}
use wterm.Auth.Login.{
  Request, Verdict, matches, Started, answered, verifying, login_begin, login_finish, logout,
}
use wterm.Auth.Login.Checks.{IsChecked}

-- A login whose password is being verified, while other requests run.
pub record Verifying : Type 0 where
  pub request : Request
  pub hash : Text
  pub password : Text

pub record World : Type 0 where
  pub auth : Auth
  pub verifications : List Verifying

abbrev pub begin : Auth → World
begin a = record { auth = a; verifications = [] }

-- A login begins, and the verification of a login that began before is over: the n-th of those that
-- are still going on, in any order.
pub data Op : Type 0 where
  begins : ℕ → Request → Op
  finishes : ℕ → ℕ → Text → Op
  logouts : Request → Op
  checks : ℕ → Option Text → Op
  watches : ℕ → Bool → ℕ → Text → Op
  registers : ℕ → Option Text → Option ℕ → Op
  unregisters : ℕ → Op

unfoldable pub take_out : ℕ → List Verifying → Option (Verifying × List Verifying)
take_out n [] = none
take_out zero (p ∷ ps) = some (p, ps)
take_out (suc n) (p ∷ ps) = elim (take_out n ps) [
  | none ↦ none
  | some (q, rest) ↦ some (q, p ∷ rest)
]

abbrev pub noted : Request → World → Started → World
noted r w (answered outcome lines) = w
noted r w (verifying hash password) = record w {
  verifications = w.verifications ++ record { request = r; hash = hash; password = password } ∷ [];
}

module _ (sha256 : Text → Text) (repr : Json → Text) (verify : Text → Text → Verdict) where
  abbrev pub finished : ℕ → Text → World → Option (Verifying × List Verifying) → World
  finished later token w none = w
  finished later token w (some (p, rest)) = record {
    auth = (login_finish sha256 later token p.request (verify p.hash p.password) w.auth).0;
    verifications = rest;
  }

  unfoldable pub step : Op → World → World
  unfolding take_out
  step (begins now r) w = noted r w (login_begin repr now r w.auth)
  step (finishes n later token) w = finished later token w (take_out n w.verifications)
  step (logouts r) w = record w { auth = (logout sha256 r w.auth).0 }
  step (checks now cookie) w = record w { auth = (is_authed sha256 now cookie w.auth).0 }
  step (watches now woken ws key) w = record w { auth = (watchdog_round now woken ws key w.auth).0 }
  step (registers ws cookie closer) w = record w {
    auth = (register_socket sha256 ws cookie closer w.auth).0;
  }
  step (unregisters ws) w = record w { auth = unregister_socket ws w.auth }

  -- A history has its latest operation first.
  unfoldable pub run : List Op → World → World
  run [] w = w
  run (op ∷ before) w = step op (run before w)

  -- The login passed every check when it began, in the state of that moment.
  abbrev pub BegunBy : Verifying → Op → World → Type 0
  BegunBy p (begins now r) w = (p.request ≡ r) × IsChecked repr now r w.auth p.hash p.password
  BegunBy p other w = ⊥

  abbrev pub Begun : Verifying → List Op → World → Type 0
  Begun p [] w = ⊥
  Begun p (op ∷ before) w = BegunBy p op (run before w) ⊎ Begun p before w

  -- The token with the key was handed out at `t` by the operation, to a login that had begun and whose
  -- password was right.
  abbrev pub IssuedBy : Text → ℕ → Op → List Op → World → Type 0
  IssuedBy key t (finishes n later token) before w =
      (later ≡ t)
      × (sha256 token ≡ key)
      × ((p : Verifying) × (rest : List Verifying) × (take_out n (run before w).verifications
            ≡ some (p, rest))
          × Begun p before w
          × (verify p.hash p.password ≡ matches))
  IssuedBy key t other before w = ⊥

  abbrev pub Issued : Text → ℕ → List Op → World → Type 0
  Issued key t [] w = ⊥
  Issued key t (op ∷ before) w = IssuedBy key t op before w ⊎ Issued key t before w
