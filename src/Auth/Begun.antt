-- ===== src/Auth/Begun.antt =====
-- server/auth.py: every login that is being verified has passed the checks before.
use wterm.Prelude.{
  ℕ, ◌≡◌, refl, subst, some, List, [], ◌∷◌, Text, nat_key, list_key, inl, inr, zero, suc, All,
  All-append, Option-cases,
}
use wterm.Json.{Json}
use wterm.Auth.{Auth}
use wterm.Auth.Login.{Request, Verdict, login_begin}
use wterm.Auth.Login.Checks.{login_begin-IsChecked, Started-cases}
use wterm.Auth.Steps.{
  Verifying, World, begin, Op, begins, finishes, logouts, checks, watches, registers, unregisters,
  take_out, noted, finished, step, run, Begun,
}

module _ (sha256 : Text → Text) (repr : Json → Text) (verify : Text → Text → Verdict) where
  -- Every login that is being verified has begun.
  abbrev pub AreBegun : List Op → World → List Verifying → Type 0
  AreBegun before w ps = All (λ p. Begun sha256 repr verify p before w) ps

  later-AreBegun :
      (op : Op) (before : List Op) (w : World) (ps : List Verifying)
      → AreBegun before w ps
      → AreBegun (op ∷ before) w ps
  later-AreBegun op before w [] b = tt
  later-AreBegun op before w (p ∷ ps) (b, bs) = (inr b, later-AreBegun op before w ps bs)

  pub take_out-AreBegun :
      (before : List Op) (w : World) (n : ℕ) (ps : List Verifying) (p : Verifying)
      (rest : List Verifying)
      → AreBegun before w ps
      → take_out n ps ≡ some (p, rest)
      → Begun sha256 repr verify p before w × AreBegun before w rest
  unfolding take_out
  take_out-AreBegun before w n [] p rest b e = absurd (cc)
  take_out-AreBegun before w zero (q ∷ ps) p rest (b, bs) e =
      let here : q ≡ p = cc in
      let left : ps ≡ rest = cc in
      (subst (λ x. Begun sha256 repr verify x before w) here b, subst (AreBegun before w) left bs)
  take_out-AreBegun before w (suc n) (q ∷ ps) p rest (b, bs) e =
      elim (Option-cases (take_out n ps)) [
        | inl gone ↦ absurd (let h = rw gone at e in cc)
        | inr ((x, others), there) ↦
            let h = rw there at e in
            let same : x ≡ p = cc in
            let left : q ∷ others ≡ rest = cc in
            let (begun, more) = take_out-AreBegun before w n ps x others bs there in
            (
              subst (λ y. Begun sha256 repr verify y before w) same begun,
              subst (AreBegun before w) left (b, more),
            )
      ]

  noted-AreBegun :
      (now : ℕ) (r : Request) (before : List Op) (w : World)
      → AreBegun before w (run sha256 repr verify before w).verifications
      → AreBegun
          (begins now r ∷ before)
          w
          (noted r
            (run sha256 repr verify before w)
            (login_begin repr now r (run sha256 repr verify before w).auth)).verifications
  noted-AreBegun now r before w b =
      elim (Started-cases (login_begin repr now r (run sha256 repr verify before w).auth)) [
        | inl (o, lines, answer) ↦ rw answer (
            later-AreBegun (begins now r) before w (run sha256 repr verify before w).verifications
              b)
        | inr (hash, password, begun) ↦
            let p : Verifying = record { request = r; hash = hash; password = password } in
            let checked =
              login_begin-IsChecked repr now r (run sha256 repr verify before w).auth hash password
                begun in
            rw begun (
              All-append (λ x. Begun sha256 repr verify x (begins now r ∷ before) w)
                (run sha256 repr verify before w).verifications (p ∷ [])
                (later-AreBegun (begins now r) before w
                  (run sha256 repr verify before w).verifications b)
                (inl (refl, checked), tt))
      ]

  finished-AreBegun :
      (n later : ℕ) (token : Text) (before : List Op) (w : World)
      → AreBegun before w (run sha256 repr verify before w).verifications
      → AreBegun
          (finishes n later token ∷ before)
          w
          (finished sha256 repr verify later token
            (run sha256 repr verify before w)
            (take_out n (run sha256 repr verify before w).verifications)).verifications
  finished-AreBegun n later token before w b =
      let ps = (run sha256 repr verify before w).verifications in
      elim (Option-cases (take_out n ps)) [
        | inl gone ↦ rw gone (later-AreBegun (finishes n later token) before w ps b)
        | inr ((p, rest), there) ↦ rw there (
            later-AreBegun (finishes n later token) before w rest
              (take_out-AreBegun before w n ps p rest b there).1)
      ]

  pub run-AreBegun :
      (ops : List Op) (a : Auth)
      → AreBegun ops (begin a) (run sha256 repr verify ops (begin a)).verifications
  unfolding run step
  run-AreBegun [] a = tt
  run-AreBegun (begins now r ∷ before) a =
      noted-AreBegun now r before (begin a) (run-AreBegun before a)
  run-AreBegun (finishes n later token ∷ before) a =
      finished-AreBegun n later token before (begin a) (run-AreBegun before a)
  run-AreBegun (logouts r ∷ before) a =
      later-AreBegun (logouts r) before (begin a) _ (run-AreBegun before a)
  run-AreBegun (checks now cookie ∷ before) a =
      later-AreBegun (checks now cookie) before (begin a) _ (run-AreBegun before a)
  run-AreBegun (watches now woken ws key ∷ before) a =
      later-AreBegun (watches now woken ws key) before (begin a) _ (run-AreBegun before a)
  run-AreBegun (registers ws cookie closer ∷ before) a =
      later-AreBegun (registers ws cookie closer) before (begin a) _ (run-AreBegun before a)
  run-AreBegun (unregisters ws ∷ before) a =
      later-AreBegun (unregisters ws) before (begin a) _ (run-AreBegun before a)
