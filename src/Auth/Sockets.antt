-- ===== src/Auth/Sockets.antt =====
-- server/auth.py: which WebSockets a revoked token closes.
use wterm.Prelude.{
  ℕ, ◌≡◌, refl, Bool, true, false, none, some, List, [], ◌∷◌, map, arith, if◌then◌else◌, Text,
  codes, ◌==◌, list_key, nat_key, eqb_iff,
}
use wterm.OrderedDict.{OrderedDict, get}
use wterm.OrderedDict.Distinct.{Distinct}
use wterm.Auth.{Auth, Closing, victims, close_unauthed, revoke_token_sockets}

-- Whether a socket is among the closes.
unfoldable pub closes : ℕ → List Closing → Bool
closes ws [] = false
closes ws (c ∷ rest) = let others = closes ws rest in if c.socket == ws then true else others

-- A revoked key closes exactly the sockets that are registered under it.
closes-victims :
    (a : Auth) (reason : Text) (ws : ℕ) (key : Text) (sockets : OrderedDict ℕ Text)
    → Distinct sockets
    → closes ws (map (λ s. close_unauthed a s reason) (victims key sockets))
      ≡ elim (get ws sockets) [ none ↦ false | some k ↦ k == key ]
unfolding closes victims get close_unauthed
closes-victims a reason ws key [] d = refl
closes-victims a reason ws key ((s, k) ∷ sockets) d =
    ground (arith, closes-victims a reason ws key sockets d.1, eqb_iff s ws)

pub revoke_token_sockets-closes :
    (a : Auth) (key : Text) (ws : ℕ)
    → Distinct a.ws_tokens
    → closes ws (revoke_token_sockets a key)
      ≡ elim (get ws a.ws_tokens) [ none ↦ false | some k ↦ k == key ]
unfolding revoke_token_sockets
revoke_token_sockets-closes a key ws d = closes-victims a (codes "세션이 폐기되었습니다") ws key a.ws_tokens d
