-- ===== src/Session/Command/Shell.antt =====
-- How a POSIX shell splits a line into words, as far as the lines go that `_command` builds: words of
-- plain characters, quotes and the operator `&&`. On anything else the reader gives up.
use wterm.Prelude.{ℕ, Bool, ◌||◌, Option, none, some, List, [], ◌∷◌, ◌++◌, eqb, if◌then◌else◌, Text}
use wterm.Session.Command.{is_safe}

pub data Token : Type 0 where
  word : Text → Token
  and_if : Token

-- Where the reader is: between two words, after one `&`, or in a word, with what it has of it.
pub data Place : Type 0 where
  between : Place
  after_and : Place
  bare : Text → Place
  single : Text → Place
  double : Text → Place

-- In double quotes a shell still expands what begins with one of these.
abbrev pub expands : ℕ → Bool
expands c = eqb c b'$' || eqb c 96 || eqb c 92 || eqb c b'!'

abbrev pub opens_quote : Text → ℕ → Option Place
opens_quote w c = if eqb c 39 then some (single w) else if eqb c 34 then some (double w) else none

abbrev pub outside : ℕ → Option Place → Option (List Token × Place)
outside c (some quoted) = some ([], quoted)
outside c none =
    if eqb c b' '
    then some ([], between)
    else if eqb c b'&'
    then some ([], after_and)
    else if is_safe c
    then some ([], bare (c ∷ []))
    else none

abbrev pub inside : Text → ℕ → Option Place → Option (List Token × Place)
inside w c (some quoted) = some ([], quoted)
inside w c none =
    if eqb c b' '
    then some (word w ∷ [], between)
    else if is_safe c
    then some ([], bare (w ++ c ∷ []))
    else none

-- What the reader does with a character: the tokens that it ends, and where it is then.
unfoldable pub next : Place → ℕ → Option (List Token × Place)
next between c = outside c (opens_quote [] c)
next after_and c = if eqb c b'&' then some (and_if ∷ [], between) else none
next (bare w) c = inside w c (opens_quote w c)
next (single w) c = if eqb c 39 then some ([], bare w) else some ([], single (w ++ c ∷ []))
next (double w) c =
    if eqb c 34
    then some ([], bare w)
    else if expands c
    then none
    else some ([], double (w ++ c ∷ []))

abbrev pub finish : Place → Option (List Token)
finish between = some []
finish (bare w) = some (word w ∷ [])
finish other = none

abbrev pub emit : List Token → Option (List Token) → Option (List Token)
emit ts none = none
emit ts (some rest) = some (ts ++ rest)

unfoldable pub read : Place → Text → Option (List Token)
unfolding next
read p [] = finish p
read p (c ∷ t) = elim (next p c) [ none ↦ none | some (ts, q) ↦ emit ts (read q t) ]
