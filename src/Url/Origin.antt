-- ===== src/Url/Origin.antt =====
-- urlsplit on an origin as a browser writes it: a scheme and an authority, and nothing else.
use wterm.Prelude.{
  ℕ, zero, suc, ◌≡◌, refl, ap, ap₂, Bool, true, false, ◌&&◌, not, some, [], ◌∷◌, ◌++◌, ◌≢◌, ltb,
  eqb, filter_by, map, all_chars, Text, codes, is_nil, arith,
}
use wterm.Url.{
  lower_char, lower, rstrip_char, split_at, is_alpha, is_scheme_char, is_scheme, drop_controls,
  is_kept, split_scheme, ends_netloc, split_netloc, authority, is_ascii, Checks, netloc_fine,
  urlsplit,
}

-- A visible ASCII character that ends no authority and is no bracket.
abbrev pub is_authority_char : ℕ → Bool
is_authority_char c =
    ltb 32 c && ltb c 127 && not (ends_netloc c) && not (eqb c b'[') && not (eqb c b']')

pub all_chars-imp :
    (p q : ℕ → Bool) (t : Text)
    → ((c : ℕ) → p c ≡ true → q c ≡ true)
    → all_chars p t ≡ true
    → all_chars q t ≡ true
unfolding all_chars
all_chars-imp p q [] f h = refl
all_chars-imp p q (c ∷ t) f h = ground (arith, f c, all_chars-imp p q t f)

all_chars-append :
    (p : ℕ → Bool) (t u : Text)
    → all_chars p t ≡ true
    → all_chars p u ≡ true
    → all_chars p (t ++ u) ≡ true
unfolding all_chars
all_chars-append p [] u ht hu = hu
all_chars-append p (c ∷ t) u ht hu = ground (arith, all_chars-append p t u)

all_chars-map :
    (p : ℕ → Bool) (f : ℕ → ℕ) (t : Text)
    → ((c : ℕ) → p c ≡ true → p (f c) ≡ true)
    → all_chars p t ≡ true
    → all_chars p (map f t) ≡ true
unfolding all_chars
all_chars-map p f [] g h = refl
all_chars-map p f (c ∷ t) g h = ground (arith, g c, all_chars-map p f t g)

filter_by-all : (p : ℕ → Bool) (t : Text) → all_chars p t ≡ true → filter_by p t ≡ t
unfolding all_chars filter_by
filter_by-all p [] h = refl
filter_by-all p (c ∷ t) h = ground (arith, filter_by-all p t)

lower_char-alpha : (c : ℕ) → is_alpha c ≡ true → is_alpha (lower_char c) ≡ true
unfolding lower_char
lower_char-alpha c h = ground arith

lower_char-scheme : (c : ℕ) → is_scheme_char c ≡ true → is_scheme_char (lower_char c) ≡ true
unfolding lower_char
lower_char-scheme c h = ground arith

lower_char-authority :
    (c : ℕ) → is_authority_char c ≡ true → is_authority_char (lower_char c) ≡ true
unfolding lower_char
lower_char-authority c h = ground arith

lower_char_idem : (c : ℕ) → lower_char (lower_char c) ≡ lower_char c
unfolding lower_char
lower_char_idem c = ground arith

pub lower_idem : (t : Text) → lower (lower t) ≡ lower t
lower_idem [] = refl
lower_idem (c ∷ t) = ap₂ (λ x y. x ∷ y) (lower_char_idem c) (lower_idem t)

pub lower-append : (t u : Text) → lower (t ++ u) ≡ lower t ++ lower u
lower-append [] u = refl
lower-append (c ∷ t) u = ap (λ v. lower_char c ∷ v) (lower-append t u)

pub lower-is_scheme : (t : Text) → is_scheme t ≡ true → is_scheme (lower t) ≡ true
unfolding is_scheme all_chars
lower-is_scheme [] h = absurd (cc)
lower-is_scheme (c ∷ t) h = ground (
  arith,
  lower_char-alpha c,
  lower_char-scheme c,
  all_chars-map is_scheme_char lower_char t lower_char-scheme,
)

pub lower-authority :
    (t : Text) → all_chars is_authority_char t ≡ true → all_chars is_authority_char (lower t) ≡ true
lower-authority t h = all_chars-map is_authority_char lower_char t lower_char-authority h

pub split_at-found :
    (d : ℕ) (t u : Text)
    → all_chars (λ c. not (eqb c d)) t ≡ true
    → split_at d (t ++ d ∷ u) ≡ some (t, u)
unfolding split_at all_chars
split_at-found d [] u h = ground arith
split_at-found d (c ∷ t) u h = ground (arith, split_at-found d t u)

split_netloc-whole :
    (t : Text) → all_chars (λ c. not (ends_netloc c)) t ≡ true → split_netloc t ≡ (t, [])
unfolding split_netloc all_chars
split_netloc-whole [] h = refl
split_netloc-whole (c ∷ t) h = ground (arith, split_netloc-whole t)

-- The characters of a scheme and of an authority are none that `urlsplit` drops or splits at.
scheme_char-plain : (c : ℕ) → is_scheme_char c ≡ true → (is_kept c && not (eqb c b':')) ≡ true
scheme_char-plain c h = ground arith

authority_char-plain :
    (c : ℕ)
    → is_authority_char c ≡ true
    → (is_kept c && not (ends_netloc c) && ltb c 128 && not (eqb c b'[') && not (eqb c b']')) ≡ true
authority_char-plain c h = ground arith

-- An origin as a browser writes it.
abbrev pub origin_text : Text → Text → Text
origin_text scheme host = scheme ++ (codes "://" ++ host)

origin-drop_controls :
    (scheme host : Text)
    → is_scheme scheme ≡ true
    → drop_controls (origin_text scheme host) ≡ origin_text scheme host
unfolding drop_controls is_scheme
origin-drop_controls [] host h = absurd (cc)
origin-drop_controls (c ∷ t) host h = ground arith

scheme-chars : (t : Text) → is_scheme t ≡ true → all_chars is_scheme_char t ≡ true
unfolding is_scheme
scheme-chars [] h = absurd (cc)
scheme-chars (c ∷ t) h = ground arith

origin-kept :
    (scheme host : Text)
    → is_scheme scheme ≡ true
    → all_chars is_authority_char host ≡ true
    → filter_by is_kept (origin_text scheme host) ≡ origin_text scheme host
unfolding all_chars
origin-kept scheme host hs hh =
    let host_kept : all_chars is_kept host ≡ true =
      all_chars-imp is_authority_char is_kept host (λ c h. ground (arith, authority_char-plain c))
        hh in
    let scheme_kept : all_chars is_kept scheme ≡ true =
      all_chars-imp is_scheme_char is_kept scheme (λ c h. ground (arith, scheme_char-plain c))
        (scheme-chars scheme hs) in
    filter_by-all is_kept (origin_text scheme host) (
      all_chars-append is_kept scheme (codes "://" ++ host) scheme_kept
        (all_chars-append is_kept (codes "://") host refl host_kept))

origin-split_scheme :
    (scheme host : Text)
    → is_scheme scheme ≡ true
    → split_scheme (origin_text scheme host) ≡ (lower scheme, codes "//" ++ host)
unfolding split_scheme
origin-split_scheme scheme host h =
    let no_colon : all_chars (λ c. not (eqb c b':')) scheme ≡ true =
      all_chars-imp is_scheme_char (λ c. not (eqb c b':')) scheme
        (λ c h'. ground (arith, scheme_char-plain c)) (scheme-chars scheme h) in
    rw (split_scheme, split_at-found b':' scheme (codes "//" ++ host) no_colon, h)

authority-netloc_fine :
    (checks : Checks) (host : Text)
    → all_chars is_authority_char host ≡ true
    → netloc_fine checks host ≡ true
unfolding is_ascii
authority-netloc_fine checks host h =
    let ascii : all_chars (λ c. ltb c 128) host ≡ true =
      all_chars-imp is_authority_char (λ c. ltb c 128) host
        (λ c h'. ground (arith, authority_char-plain c)) h in
    let no_open : all_chars (λ c. not (eqb c b'[')) host ≡ true =
      all_chars-imp is_authority_char (λ c. not (eqb c b'[')) host
        (λ c h'. ground (arith, authority_char-plain c)) h in
    let no_close : all_chars (λ c. not (eqb c b']')) host ≡ true =
      all_chars-imp is_authority_char (λ c. not (eqb c b']')) host
        (λ c h'. ground (arith, authority_char-plain c)) h in
    rw (no_open, no_close, ascii)

-- An origin that is written out of a scheme and an authority of visible ASCII characters is split
-- into the lower-cased scheme and that authority, with nothing left over, whatever the checks are.
pub urlsplit-origin_text :
    (checks : Checks) (scheme host : Text)
    → is_scheme scheme ≡ true
    → all_chars is_authority_char host ≡ true
    → urlsplit checks (origin_text scheme host)
      ≡ some (record { scheme = lower scheme; netloc = host; path = []; query = []; fragment = [] })
unfolding urlsplit authority split_at
urlsplit-origin_text checks scheme host hs hh =
    let whole : all_chars (λ c. not (ends_netloc c)) host ≡ true =
      all_chars-imp is_authority_char (λ c. not (ends_netloc c)) host
        (λ c h'. ground (arith, authority_char-plain c)) hh in
    rw (
      origin-drop_controls scheme host hs,
      origin-kept scheme host hs hh,
      origin-split_scheme scheme host hs,
      split_netloc-whole host whole,
      authority-netloc_fine checks host hh,
    )

append-is_nil : (t u : Text) → u ≢ [] → is_nil (t ++ u) ≡ false
append-is_nil (c ∷ t) u full = refl
append-is_nil [] (c ∷ u) full = refl
append-is_nil [] [] full = absurd (full refl)

-- `replicate n d` is `d * n` of a character.
abbrev pub replicate : ℕ → ℕ → Text
replicate zero d = []
replicate (suc n) d = d ∷ replicate n d

-- `rstrip_char` takes the characters off the end, and stops before any other.
pub rstrip_char-append :
    (d : ℕ) (t u : Text) → rstrip_char d u ≡ u → u ≢ [] → rstrip_char d (t ++ u) ≡ t ++ u
unfolding rstrip_char
rstrip_char-append d [] u same full = same
rstrip_char-append d (c ∷ t) u same full =
    rw (rstrip_char-append d t u same full, append-is_nil t u full)

pub rstrip_char-none :
    (d : ℕ) (t : Text) → all_chars (λ c. not (eqb c d)) t ≡ true → rstrip_char d t ≡ t
unfolding rstrip_char all_chars
rstrip_char-none d [] h = refl
rstrip_char-none d (c ∷ t) h = ground (arith, rstrip_char-none d t)

pub rstrip_char-replicate :
    (d n : ℕ) (t : Text) → rstrip_char d (t ++ replicate n d) ≡ rstrip_char d t
unfolding rstrip_char
rstrip_char-replicate d zero [] = refl
rstrip_char-replicate d (suc n) [] = rw (rstrip_char-replicate d n []) (ground arith)
rstrip_char-replicate d n (c ∷ t) = rw (rstrip_char-replicate d n t)
