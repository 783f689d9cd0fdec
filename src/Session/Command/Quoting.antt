-- ===== src/Session/Command/Quoting.antt =====
-- What a shell makes of the lines that `_command` builds: the words that went into them.
use wterm.Prelude.{
  ℕ, ◌≡◌, refl, sym, ap, ◌∙◌, true, Option, none, some, List, [], ◌∷◌, ◌++◌, map, append-nil,
  append_assoc, eqb, eqb_iff, join, Text, codes, Bool-cases, inl, inr, arith, nat_key, list_key,
}
use wterm.Session.Command.{is_safe, all_safe, replace_quotes, quote, shlex_join}
use wterm.Session.Command.Shell.{
  Token, word, and_if, Place, between, bare, single, double, next, emit, read,
}

emit-nil : (r : Option (List Token)) → emit [] r ≡ r
emit-nil none = refl
emit-nil (some ts) = refl

-- A safe character is none that the reader treats in a special way.
next_safe : (w : Text) (c : ℕ) → is_safe c ≡ true → next (bare w) c ≡ some ([], bare (w ++ c ∷ []))
unfolding next is_safe
next_safe w c h = ground arith

next_first : (c : ℕ) → is_safe c ≡ true → next between c ≡ some ([], bare (c ∷ []))
unfolding next is_safe
next_first c h = ground arith

read_step : (p q : Place) (c : ℕ) (t : Text) → next p c ≡ some ([], q) → read p (c ∷ t) ≡ read q t
unfolding read
read_step p q c t h = rw (h, read) (emit-nil (read q t))

read_safe :
    (w s rest : Text) → all_safe s ≡ true → read (bare w) (s ++ rest) ≡ read (bare (w ++ s)) rest
unfolding all_safe
read_safe w [] rest h = ap (λ v. read (bare v) rest) (sym (append-nil w))
read_safe w (c ∷ s) rest h =
    read_step (bare w) (bare (w ++ c ∷ [])) c (s ++ rest) (next_safe w c (ground arith))
    ∙ read_safe (w ++ c ∷ []) s rest (ground arith)
    ∙ ap (λ v. read (bare v) rest) (append_assoc w (c ∷ []) s)

read_replaced :
    (w s rest : Text) → read (single w) (replace_quotes s ++ 39 ∷ rest) ≡ read (bare (w ++ s)) rest
unfolding replace_quotes next
read_replaced w [] rest =
    read_step (single w) (bare w) 39 rest refl ∙ ap (λ v. read (bare v) rest) (sym (append-nil w))
read_replaced w (c ∷ s) rest = elim (Bool-cases (eqb c 39)) [
  | inr other ↦ rw other (
      read_step (single w) (single (w ++ c ∷ [])) c (replace_quotes s ++ 39 ∷ rest) (rw other)
      ∙ read_replaced (w ++ c ∷ []) s rest
      ∙ ap (λ v. read (bare v) rest) (append_assoc w (c ∷ []) s))
  | inl same ↦
      let tail = replace_quotes s ++ 39 ∷ rest in
      rw same (
        read_step (single w) (bare w) 39 (34 ∷ 39 ∷ 34 ∷ 39 ∷ tail) refl
        ∙ read_step (bare w) (double w) 34 (39 ∷ 34 ∷ 39 ∷ tail) refl
        ∙ read_step (double w) (double (w ++ 39 ∷ [])) 39 (34 ∷ 39 ∷ tail) refl
        ∙ read_step (double (w ++ 39 ∷ [])) (bare (w ++ 39 ∷ [])) 34 (39 ∷ tail) refl
        ∙ read_step (bare (w ++ 39 ∷ [])) (single (w ++ 39 ∷ [])) 39 tail refl
        ∙ read_replaced (w ++ 39 ∷ []) s rest
        ∙ ap (λ v. read (bare v) rest)
            (append_assoc w (39 ∷ []) s ∙ ap (λ k. w ++ k ∷ s) (sym ((eqb_iff c 39).0 same))))
]

-- A quoted text is read as one word, whatever follows.
pub read-quote : (s rest : Text) → read between (quote s ++ rest) ≡ read (bare s) rest
unfolding quote all_safe next
read-quote [] rest =
    read_step between (single []) 39 (39 ∷ rest) refl ∙ read_step (single []) (bare []) 39 rest refl
read-quote (c ∷ s) rest = elim (Bool-cases (all_safe (c ∷ s))) [
  | inl safe ↦ rw safe (
      read_step between (bare (c ∷ [])) c (s ++ rest) (next_first c (ground arith))
      ∙ read_safe (c ∷ []) s rest (ground arith))
  | inr unsafe ↦
      rw (unsafe, append_assoc)
        (read_step between (single []) 39 _ refl ∙ read_replaced [] (c ∷ s) rest)
]

-- The reader of Session/Command/Shell gives back the arguments of `shlex.join`, with spaces, quotes,
-- operators, line breaks or nothing in them.
pub read-shlex_join : (argv : List Text) → read between (shlex_join argv) ≡ some (map word argv)
unfolding shlex_join join read next
read-shlex_join [] = refl
read-shlex_join (s ∷ []) = ap (read between) (sym (append-nil (quote s))) ∙ read-quote s []
read-shlex_join (s ∷ u ∷ argv) =
    read-quote s (b' ' ∷ shlex_join (u ∷ argv))
    ∙ ap (emit (word s ∷ [])) (read-shlex_join (u ∷ argv))

-- Two emissions after each other.
emit-emit : (ts us : List Token) (r : Option (List Token)) → emit ts (emit us r) ≡ emit (ts ++ us) r
emit-emit ts us none = refl
emit-emit ts us (some vs) = ap some (sym (append_assoc ts us vs))

pub read_cd :
    (rest : Text)
    → read between (codes "cd " ++ rest) ≡ emit (word (codes "cd") ∷ []) (read between rest)
unfolding read next is_safe
read_cd rest = simp (emit-nil)

pub read_and_exec :
    (w rest : Text)
    → read (bare w) (codes " && exec " ++ rest)
      ≡ emit (word w ∷ and_if ∷ word (codes "exec") ∷ []) (read between rest)
unfolding read next is_safe
read_and_exec w rest = simp (emit-nil, emit-emit)

pub read_bash :
    (rest : Text)
    → read between (codes "exec bash -lc " ++ rest)
      ≡ emit
          (word (codes "exec") ∷ word (codes "bash") ∷ word (codes "-lc") ∷ [])
          (read between rest)
unfolding read next is_safe
read_bash rest = simp (emit-nil, emit-emit)
