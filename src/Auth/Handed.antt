-- ===== src/Auth/Handed.antt =====
-- server/auth.py: what one step of the state can do to its tables, and which logins hand a token out.
use wterm.Prelude.{
  ℕ, ◌≡◌, ◌⊎◌, refl, sym, subst, ◌∙◌, Option, some, List, arith, Text, nat_key, list_key, inl, inr,
  none, ap, Option-cases,
}
use wterm.Json.{Json}
use wterm.OrderedDict.{get, remove}
use wterm.OrderedDict.Laws.{length-remove-le}
use wterm.Auth.{Auth, issue_token}
use wterm.Auth.Tokens.{get-issue_token, issue_token-IsSound}
use wterm.Auth.Backoff.{record_login_failure_frame}
use wterm.Auth.Narrows.{
  IsKept, Narrows, watchdog_round-Narrows, unregister_socket-Narrows, record_login_failure-Narrows,
  logout-Narrows, is_authed-Narrows, register_socket-Narrows,
}
use wterm.Auth.Login.{
  Request, Verdict, matches, mismatch, failed, Started, answered, verifying, login_begin,
  login_finish,
}
use wterm.Auth.Steps.{
  Verifying, World, begin, Op, begins, finishes, logouts, checks, watches, registers, unregisters,
  take_out, noted, finished, step, run, IssuedBy,
}
use wterm.Auth.Begun.{take_out-AreBegun, run-AreBegun}

module _ (sha256 : Text → Text) (repr : Json → Text) (verify : Text → Text → Verdict) where
  login_finish-IsKept :
      (later : ℕ) (token : Text) (r : Request) (verdict : Verdict) (a : Auth)
      → IsKept a
      → IsKept (login_finish sha256 later token r verdict a).0
  unfolding login_finish issue_token
  login_finish-IsKept later token r matches a k = record {
    tokens =
        issue_token-IsSound sha256 later token
          (record a { login_fails = remove r.client a.login_fails }) k.tokens;
    fails = omega (arith, k.fails, length-remove-le r.client a.login_fails);
    sockets = k.sockets;
  }
  login_finish-IsKept later token r mismatch a k =
      (record_login_failure-Narrows r.client later a k).kept
  login_finish-IsKept later token r failed a k = k

  login_finish-issued :
      (key : Text) (t later : ℕ) (token : Text) (r : Request) (verdict : Verdict) (a : Auth)
      → IsKept a
      → get key (login_finish sha256 later token r verdict a).0.valid_tokens ≡ some t
      → (get key a.valid_tokens ≡ some t)
        ⊎ ((later ≡ t) × (sha256 token ≡ key) × (verdict ≡ matches))
  unfolding login_finish
  login_finish-issued key t later token r matches a k h =
      elim (get-issue_token sha256 later token key
        (record a { login_fails = remove r.client a.login_fails }) t k.tokens.distinct h) [
          | inl (same, now) ↦ inr (sym now, same, refl)
          | inr before ↦ inl before
        ]
  login_finish-issued key t later token r mismatch a k h =
      elim ((record_login_failure-Narrows r.client later a k).fewer key) [
        | inl same ↦ inl (sym same ∙ h)
        | inr gone ↦ absurd (cc)
      ]
  login_finish-issued key t later token r failed a k h = inl h

  -- What an operation that hands no token out leaves was there before.
  narrowed :
      (key : Text) (t : ℕ) (a b : Auth)
      → Narrows a b
      → get key b.valid_tokens ≡ some t
      → get key a.valid_tokens ≡ some t
  narrowed key t a b n h = elim (n.fewer key) [ inl same ↦ sym same ∙ h | inr gone ↦ absurd (cc) ]

  finished-IsKept :
      (later : ℕ) (token : Text) (w : World) (found : Option (Verifying × List Verifying))
      → IsKept w.auth
      → IsKept (finished sha256 repr verify later token w found).auth
  finished-IsKept later token w none k = k
  finished-IsKept later token w (some (p, rest)) k =
      login_finish-IsKept later token p.request (verify p.hash p.password) w.auth k

  noted-auth : (r : Request) (w : World) (s : Started) → (noted r w s).auth ≡ w.auth
  noted-auth r w (answered outcome lines) = refl
  noted-auth r w (verifying hash password) = refl

  pub step-IsKept :
      (op : Op) (w : World) → IsKept w.auth → IsKept (step sha256 repr verify op w).auth
  unfolding step
  step-IsKept (begins now r) w k =
      subst IsKept (sym (noted-auth r w (login_begin repr now r w.auth))) k
  step-IsKept (finishes n later token) w k =
      finished-IsKept later token w (take_out n w.verifications) k
  step-IsKept (logouts r) w k = (logout-Narrows sha256 r w.auth k).kept
  step-IsKept (checks now cookie) w k = (is_authed-Narrows sha256 now cookie w.auth k).kept
  step-IsKept (watches now woken ws key) w k =
      (watchdog_round-Narrows now woken ws key w.auth k).kept
  step-IsKept (registers ws cookie closer) w k =
      (register_socket-Narrows sha256 ws cookie closer w.auth k).kept
  step-IsKept (unregisters ws) w k = (unregister_socket-Narrows ws w.auth k).kept

  finished-issued :
      (key : Text) (t n later : ℕ) (token : Text) (before : List Op) (a : Auth)
      → let w : World = run sha256 repr verify before (begin a) in
        IsKept w.auth
        → get key
            (finished sha256 repr verify later token w
              (take_out n w.verifications)).auth.valid_tokens
          ≡ some t
        → (get key w.auth.valid_tokens ≡ some t)
          ⊎ IssuedBy sha256 repr verify key t (finishes n later token) before (begin a)
  finished-issued key t n later token before a k h =
      let w : World = run sha256 repr verify before (begin a) in
      elim (Option-cases (take_out n w.verifications)) [
        | inl gone ↦ inl (rw gone at h)
        | inr ((p, rest), there) ↦
            elim (login_finish-issued key t later token p.request (verify p.hash p.password) w.auth
              k (rw there at h)) [
                | inl kept ↦ inl kept
                | inr (now, same, right) ↦
                    let (begun, _) =
                      take_out-AreBegun sha256 repr verify before (begin a) n w.verifications p rest
                        (run-AreBegun sha256 repr verify before a) there in
                    inr (now, same, (p, rest, there, begun, right))
              ]
      ]

  pub step-issued :
      (key : Text) (t : ℕ) (op : Op) (before : List Op) (a : Auth)
      → let w : World = run sha256 repr verify before (begin a) in
        IsKept w.auth
        → get key (step sha256 repr verify op w).auth.valid_tokens ≡ some t
        → (get key w.auth.valid_tokens ≡ some t)
          ⊎ IssuedBy sha256 repr verify key t op before (begin a)
  unfolding step
  step-issued key t (begins now r) before a k h =
      let w : World = run sha256 repr verify before (begin a) in
      let same = noted-auth r w (login_begin repr now r w.auth) in
      inl (subst (λ (b : Auth). get key b.valid_tokens ≡ some t) same h)
  step-issued key t (finishes n later token) before a k h =
      finished-issued key t n later token before a k h
  step-issued key t (logouts r) before a k h = inl (
      narrowed key t _ _ (logout-Narrows sha256 r (run sha256 repr verify before (begin a)).auth k)
        h)
  step-issued key t (checks now cookie) before a k h = inl (
      narrowed key t _ _
        (is_authed-Narrows sha256 now cookie (run sha256 repr verify before (begin a)).auth k) h)
  step-issued key t (watches now woken ws key') before a k h = inl (
      narrowed key t _ _
        (watchdog_round-Narrows now woken ws key' (run sha256 repr verify before (begin a)).auth k)
        h)
  step-issued key t (registers ws cookie closer) before a k h = inl (
      narrowed key t _ _
        (register_socket-Narrows sha256 ws cookie closer
          (run sha256 repr verify before (begin a)).auth k)
        h)
  step-issued key t (unregisters ws) before a k h = inl (
      narrowed key t _ _
        (unregister_socket-Narrows ws (run sha256 repr verify before (begin a)).auth k) h)

  login_finish-password_hash :
      (later : ℕ) (token : Text) (r : Request) (verdict : Verdict) (a : Auth)
      → (login_finish sha256 later token r verdict a).0.password_hash ≡ a.password_hash
  unfolding login_finish issue_token
  login_finish-password_hash later token r matches a = refl
  login_finish-password_hash later token r mismatch a =
      (record_login_failure_frame r.client later a).2
  login_finish-password_hash later token r failed a = refl

  finished-password_hash :
      (later : ℕ) (token : Text) (w : World) (found : Option (Verifying × List Verifying))
      → (finished sha256 repr verify later token w found).auth.password_hash ≡ w.auth.password_hash
  finished-password_hash later token w none = refl
  finished-password_hash later token w (some (p, rest)) =
      login_finish-password_hash later token p.request (verify p.hash p.password) w.auth

  pub step-password_hash :
      (op : Op) (w : World)
      → IsKept w.auth
      → (step sha256 repr verify op w).auth.password_hash ≡ w.auth.password_hash
  unfolding step
  step-password_hash (begins now r) w k =
      ap (λ (b : Auth). b.password_hash) (noted-auth r w (login_begin repr now r w.auth))
  step-password_hash (finishes n later token) w k =
      finished-password_hash later token w (take_out n w.verifications)
  step-password_hash (logouts r) w k = (logout-Narrows sha256 r w.auth k).same_hash
  step-password_hash (checks now cookie) w k =
      (is_authed-Narrows sha256 now cookie w.auth k).same_hash
  step-password_hash (watches now woken ws key) w k =
      (watchdog_round-Narrows now woken ws key w.auth k).same_hash
  step-password_hash (registers ws cookie closer) w k =
      (register_socket-Narrows sha256 ws cookie closer w.auth k).same_hash
  step-password_hash (unregisters ws) w k = (unregister_socket-Narrows ws w.auth k).same_hash
