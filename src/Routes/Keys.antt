-- ===== src/Routes/Keys.antt =====
-- server/main.py: the keys of sessions.
use wterm.Prelude.{
  ◌≡◌, refl, ap₂, Bool, true, false, not, [], ◌∷◌, ◌++◌, Text, codes, arith, eqb, all_chars,
  equal_list_iff, nat_key, list_key,
}
use wterm.Routes.{member}
use wterm.Routes.Ending.{agents, session_key}

abbrev no_hash : Text → Bool
no_hash = all_chars (λ c. not (eqb c b'#'))

no_hash-append : (t u : Text) → no_hash (t ++ b'#' ∷ u) ≡ false
unfolding all_chars
no_hash-append [] u = refl
no_hash-append (c ∷ t) u = ground (arith, no_hash-append t u)

cut_at_hash :
    (name other a b : Text)
    → no_hash a ≡ true
    → no_hash b ≡ true
    → name ++ b'#' ∷ a ≡ other ++ b'#' ∷ b
    → (name ≡ other) × (a ≡ b)
cut_at_hash [] [] a b ha hb same = (refl, cc)
cut_at_hash [] (d ∷ other) a b ha hb same =
    absurd (let tail : a ≡ other ++ b'#' ∷ b = cc in let no = no_hash-append other b in cc)
cut_at_hash (c ∷ name) [] a b ha hb same =
    absurd (let tail : name ++ b'#' ∷ a ≡ b = cc in let no = no_hash-append name a in cc)
cut_at_hash (c ∷ name) (d ∷ other) a b ha hb same =
    let head : c ≡ d = cc in
    let (names, agents_same) = cut_at_hash name other a b ha hb (cc) in
    (ap₂ (λ x xs. x ∷ xs) head names, agents_same)

member-no_hash : (agent : Text) → member agent agents ≡ true → no_hash agent ≡ true
unfolding member all_chars
member-no_hash agent h = ground (
  arith,
  equal_list_iff agent (codes "claude"),
  equal_list_iff agent (codes "codex"),
  equal_list_iff agent (codes "shell"),
)

-- Two sessions of accepted agents have the same key only if their projects and their agents are the
-- same, even where the name of a project holds a number sign.
pub session_key-injective :
    (project other agent agent' : Text)
    → member agent agents ≡ true
    → member agent' agents ≡ true
    → session_key project agent ≡ session_key other agent'
    → (project ≡ other) × (agent ≡ agent')
session_key-injective project other agent agent' h h' same =
    cut_at_hash project other agent agent' (member-no_hash agent h) (member-no_hash agent' h') same
