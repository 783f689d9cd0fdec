-- ===== src/Auth/Tokens.antt =====
-- server/auth.py: what issuing a token and checking a key do to the table of tokens.
use wterm.Prelude.{
  ℕ, ◌-◌, ◌≤◌, ◌<◌, ◌≡◌, ◌↔◌, ◌⊎◌, refl, true, false, none, some, [], ◌∷◌, arith, tests, ltb, leb,
  length, Text, Option-cases, Bool-cases, inl, inr, list_key, nat_key, lt→ltb, le→ltb, filter_by,
  equal_list_iff, leb→le, leb→lt,
}
use wterm.OrderedDict.{OrderedDict, get, put}
use wterm.OrderedDict.Laws.{length-trim-le, length-remove-le, get-remove, get-put}
use wterm.OrderedDict.Newest.{get-trim-put_new}
use wterm.OrderedDict.Distinct.{Distinct, get-trim, trim-Distinct, put-Distinct, remove-Distinct}
use wterm.Auth.{
  Auth, token_ttl, max_tokens, is_live, drop_expired, issue_token, key_valid, is_authed,
}

-- The table is within its limit and holds no key twice.
pub record IsSound (tokens : OrderedDict Text ℕ) : Type 0 where
  pub bounded : length tokens ≤ max_tokens
  pub distinct : Distinct tokens

-- Dropping the expired entries hides them and nothing else.
get-drop_expired :
    (now : ℕ) (key : Text) (tokens : OrderedDict Text ℕ)
    → Distinct tokens
    → (get key (drop_expired now tokens) ≡ get key tokens)
      ⊎ (get key (drop_expired now tokens) ≡ none)
unfolding drop_expired filter_by get
get-drop_expired now key [] d = inl refl
get-drop_expired now key ((k, t) ∷ tokens) d =
    ground (arith, get-drop_expired now key tokens d.1, equal_list_iff k key)

get-drop_expired-none :
    (now : ℕ) (key : Text) (tokens : OrderedDict Text ℕ)
    → get key tokens ≡ none
    → get key (drop_expired now tokens) ≡ none
unfolding drop_expired filter_by get
get-drop_expired-none now key [] h = refl
get-drop_expired-none now key ((k, t) ∷ tokens) h =
    ground (arith, get-drop_expired-none now key tokens)

drop_expired-Distinct :
    (now : ℕ) (tokens : OrderedDict Text ℕ) → Distinct tokens → Distinct (drop_expired now tokens)
unfolding drop_expired filter_by
drop_expired-Distinct now [] d = d
drop_expired-Distinct now ((k, t) ∷ tokens) d = elim (Bool-cases (is_live now (k, t))) [
  | inl live ↦
      rw live (get-drop_expired-none now k tokens d.0, drop_expired-Distinct now tokens d.1)
  | inr dead ↦ rw dead (drop_expired-Distinct now tokens d.1)
]

pub key_valid-IsSound :
    (now : ℕ) (key : Text) (a : Auth)
    → IsSound a.valid_tokens
    → IsSound (key_valid now key a).0.valid_tokens
unfolding key_valid
key_valid-IsSound now key a s = elim (Option-cases (get key a.valid_tokens)) [
  | inl missing ↦ rw (missing, key_valid) s
  | inr (t, found) ↦ elim (Bool-cases (leb token_ttl (now - t))) [
    | inl old ↦
        rw (found, key_valid, old)
          (record {
            bounded = omega (arith, s.bounded, length-remove-le key a.valid_tokens);
            distinct = remove-Distinct key a.valid_tokens s.distinct;
          })
    | inr young ↦ rw (found, key_valid, young) s
  ]
]

-- A key is valid exactly if it is in the table and younger than thirty days.
pub key_valid_iff :
    (now : ℕ) (key : Text) (a : Auth)
    → ((key_valid now key a).1 ≡ true)
      ↔ ((t : ℕ) × (get key a.valid_tokens ≡ some t) × (now - t < token_ttl))
unfolding key_valid
key_valid_iff now key a = elim (Option-cases (get key a.valid_tokens)) [
  | inl missing ↦ rw (missing, key_valid) ((λ p. absurd (cc)), λ (t, found, _). absurd (cc))
  | inr (t, found) ↦ elim (Bool-cases (leb token_ttl (now - t))) [
    | inl old ↦
        rw (found, key_valid, old) ((λ p. absurd (cc)), λ (u, same, young). absurd (ground arith))
    | inr young ↦ rw (found, key_valid, young) ((λ _. (t, refl, omega tests)), λ _. refl)
  ]
]

-- A check never adds a key, and keeps every other one.
pub get-key_valid :
    (now : ℕ) (key other : Text) (a : Auth)
    → (get other (key_valid now key a).0.valid_tokens ≡ get other a.valid_tokens)
      ⊎ (get other (key_valid now key a).0.valid_tokens ≡ none)
unfolding key_valid
get-key_valid now key other a = elim (Option-cases (get key a.valid_tokens)) [
  | inl missing ↦ rw (missing, key_valid) (inl refl)
  | inr (t, found) ↦ elim (Bool-cases (leb token_ttl (now - t))) [
    | inl old ↦ rw (found, key_valid, old) (ground (arith, get-remove key other a.valid_tokens))
    | inr young ↦ rw (found, key_valid, young) (inl refl)
  ]
]

-- A check touches the tokens alone.
pub key_valid_frame :
    (now : ℕ) (key : Text) (a : Auth)
    → ((key_valid now key a).0.login_fails ≡ a.login_fails)
      × ((key_valid now key a).0.ws_tokens ≡ a.ws_tokens)
      × ((key_valid now key a).0.password_hash ≡ a.password_hash)
unfolding key_valid
key_valid_frame now key a = ground arith

module _ (sha256 : Text → Text) where
  pub issue_token-IsSound :
      (now : ℕ) (token : Text) (a : Auth)
      → IsSound a.valid_tokens
      → IsSound (issue_token sha256 now token a).valid_tokens
  unfolding issue_token
  issue_token-IsSound now token a s = record {
    bounded = length-trim-le max_tokens _;
    distinct =
        trim-Distinct max_tokens _ (put-Distinct _ now _ (drop_expired-Distinct now _ s.distinct));
  }

  -- What is in the table after an issue is the new token or was there before.
  pub get-issue_token :
      (now : ℕ) (token key : Text) (a : Auth) (t : ℕ)
      → Distinct a.valid_tokens
      → get key (issue_token sha256 now token a).valid_tokens ≡ some t
      → ((sha256 token ≡ key) × (t ≡ now)) ⊎ (get key a.valid_tokens ≡ some t)
  unfolding issue_token
  get-issue_token now token key a t d h =
      let kept = drop_expired now a.valid_tokens in
      let sound =
        put-Distinct (sha256 token) now kept (drop_expired-Distinct now a.valid_tokens d) in
      ground (
        arith,
        get-trim key max_tokens (put (sha256 token) now kept) sound,
        get-put (sha256 token) key now kept,
        get-drop_expired now key a.valid_tokens d,
        equal_list_iff (sha256 token) key,
      )

  -- A token that is issued for the first time is in the table, however many there are.
  pub get-issue_token_self :
      (now : ℕ) (token : Text) (a : Auth)
      → get (sha256 token) a.valid_tokens ≡ none
      → get (sha256 token) (issue_token sha256 now token a).valid_tokens ≡ some now
  unfolding issue_token
  get-issue_token_self now token a new =
      get-trim-put_new (sha256 token) now 511 (drop_expired now a.valid_tokens)
        (get-drop_expired-none now (sha256 token) a.valid_tokens new)

  -- With a password set, a token whose key is not in the table opens the door from the moment that
  -- it is issued until thirty days later, and not a millisecond longer.
  pub is_authed-issue_token :
      (now later : ℕ) (token hash : Text) (a : Auth)
      → a.password_hash ≡ some hash
      → get (sha256 token) a.valid_tokens ≡ none
      → (is_authed sha256 later (some token) (issue_token sha256 now token a)).1
        ≡ ltb (later - now) token_ttl
  unfolding is_authed key_valid issue_token
  is_authed-issue_token now later token hash a p new =
      let kept = get-issue_token_self now token a new in
      let same_hash : (issue_token sha256 now token a).password_hash ≡ some hash = p in
      elim (Bool-cases (leb token_ttl (later - now))) [
        | inl old ↦ rw (same_hash, is_authed, kept, key_valid, old, le→ltb _ _ (leb→le _ _ old))
        | inr young ↦
            rw (same_hash, is_authed, kept, key_valid, young, lt→ltb _ _ (leb→lt _ _ young))
      ]

  -- A cookie whose key is not in the table opens nothing.
  pub is_authed_absent :
      (later : ℕ) (token hash : Text) (a : Auth)
      → a.password_hash ≡ some hash
      → get (sha256 token) a.valid_tokens ≡ none
      → (is_authed sha256 later (some token) a).1 ≡ false
  unfolding is_authed key_valid
  is_authed_absent later token hash a p missing = rw (p, is_authed, missing, key_valid)

  -- With a password set, a cookie is let in exactly if its key is valid.
  pub is_authed_cookie :
      (now : ℕ) (token hash : Text) (a : Auth)
      → a.password_hash ≡ some hash
      → (is_authed sha256 now (some token) a).1 ≡ (key_valid now (sha256 token) a).1
  unfolding is_authed
  is_authed_cookie now token hash a p = simp (p, is_authed)
