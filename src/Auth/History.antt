-- ===== src/Auth/History.antt =====
-- Histories of the authentication state: every handler and every watchdog round in any order.
use wterm.Prelude.{
  ℕ, ◌-◌, ◌<◌, ◌≡◌, ◌⊎◌, refl, sym, ◌∙◌, true, none, some, List, [], ◌∷◌, arith, Text, nat_key,
  list_key, inl, inr,
}
use wterm.Json.{Json}
use wterm.OrderedDict.{get}
use wterm.Auth.{Auth, init, token_ttl, is_authed}
use wterm.Auth.Tokens.{is_authed_cookie, key_valid_iff}
use wterm.Auth.Narrows.{IsKept}
use wterm.Auth.Login.{Verdict}
use wterm.Auth.Steps.{Op, World, begin, run, Issued}
use wterm.Auth.Handed.{step-IsKept, step-issued, step-password_hash}

module _ (sha256 : Text → Text) (repr : Json → Text) (verify : Text → Text → Verdict) where
  run-IsKept :
      (ops : List Op) (w : World) → IsKept w.auth → IsKept (run sha256 repr verify ops w).auth
  unfolding run
  run-IsKept [] w k = k
  run-IsKept (op ∷ before) w k =
      step-IsKept sha256 repr verify op (run sha256 repr verify before w) (run-IsKept before w k)

  run-password_hash :
      (ops : List Op) (w : World)
      → IsKept w.auth
      → (run sha256 repr verify ops w).auth.password_hash ≡ w.auth.password_hash
  unfolding run
  run-password_hash [] w k = refl
  run-password_hash (op ∷ before) w k =
      step-password_hash sha256 repr verify op (run sha256 repr verify before w)
        (run-IsKept before w k)
      ∙ run-password_hash before w k

  run-Issued :
      (key : Text) (t : ℕ) (ops : List Op) (a : Auth)
      → IsKept a
      → get key (run sha256 repr verify ops (begin a)).auth.valid_tokens ≡ some t
      → (get key a.valid_tokens ≡ some t) ⊎ Issued sha256 repr verify key t ops (begin a)
  unfolding run
  run-Issued key t [] a k h = inl h
  run-Issued key t (op ∷ before) a k h =
      elim (step-issued sha256 repr verify key t op before a (run-IsKept before (begin a) k) h) [
        | inr here ↦ inr (inl here)
        | inl kept ↦ elim (run-Issued key t before a k kept) [
          | inl first ↦ inl first
          | inr issued ↦ inr (inr issued)
        ]
      ]

  init-IsKept : (hash : Text) → IsKept (init (some hash))
  unfolding init
  init-IsKept hash = record {
    tokens = record { bounded = omega arith; distinct = tt };
    fails = omega arith;
    sockets = tt;
  }

  init_hash : (hash : Text) → (init (some hash)).password_hash ≡ some hash
  unfolding init
  init_hash hash = refl

  init_empty : (hash key : Text) → get key (init (some hash)).valid_tokens ≡ none
  unfolding init get
  init_empty hash key = refl

  -- With a password set, nothing but a right password opens the door. Whatever handlers and
  -- watchdogs have run since the start, in any order, with other requests between the beginning of a
  -- login and the end of its verification: a cookie that is let in has the key of a token that was
  -- handed out, less than thirty days before, at the end of a login that had passed every check when
  -- it began and whose password was verified.
  pub is_authed-Issued :
      (hash token : Text) (now : ℕ) (ops : List Op)
      → (is_authed sha256 now
          (some token)
          (run sha256 repr verify ops (begin (init (some hash)))).auth).1
        ≡ true
      → (t : ℕ) × Issued sha256 repr verify (sha256 token) t ops (begin (init (some hash)))
        × (now - t < token_ttl)
  is_authed-Issued hash token now ops h =
      let start : World = begin (init (some hash)) in
      let end : Auth = (run sha256 repr verify ops start).auth in
      let kept = init-IsKept hash in
      let locked =
        is_authed_cookie sha256 now token hash end
          (run-password_hash ops start kept ∙ init_hash hash) in
      let (t, found, young) = (key_valid_iff now (sha256 token) end).0 (sym locked ∙ h) in
      elim (run-Issued (sha256 token) t ops (init (some hash)) kept found) [
        | inl before ↦ absurd (cc (init_empty hash (sha256 token)))
        | inr issued ↦ (t, issued, young)
      ]

  -- Every history, from the start with a password, keeps the tables sound, also when other requests
  -- run between the beginning of a login and the end of its verification: 512 tokens and 1024 clients
  -- with failed logins at most, with no token's key and no socket twice.
  pub run-init-IsKept :
      (hash : Text) (ops : List Op)
      → IsKept (run sha256 repr verify ops (begin (init (some hash)))).auth
  run-init-IsKept hash ops = run-IsKept ops (begin (init (some hash))) (init-IsKept hash)
