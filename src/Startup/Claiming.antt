-- ===== src/Startup/Claiming.antt =====
-- server/main.py, `_claim_pid_file`: a start comes to an end.
use wterm.Prelude.{
  ℕ, zero, suc, ◌+◌, ◌-◌, ◌*◌, ◌≤◌, ◌≡◌, refl, sym, ap, subst, Bool, true, false, Option, none,
  some, List, [], ◌∷◌, All, if◌then◌else◌, Bool-cases, inl, inr, ◌==◌, ==_refl, ==_cases, nat_key,
  arith,
}
use wterm.Startup.PidFile.{
  Process, absent, trying, opened, locked, verified, serving, released, refused, World, becomes,
  open_at, is_free, is_at, act_from, act, is_own, release_from, release, Move, acts, releases, dies,
  removes, step,
}

unfoldable pub run : List Move → World → World
unfolding step
run [] w = w
run (move ∷ moves) w = run moves (step move w)

-- The steps that a process has left at most, until it serves or is refused.
abbrev pub left_of : Process → ℕ
left_of absent = 17
left_of (trying n) = 3 * n + 1
left_of (opened n i) = 3 * n + 3
left_of (locked n i) = 3 * n + 2
left_of (verified i) = 1
left_of (serving i) = 0
left_of (released i) = 0
left_of refused = 0

abbrev pub is_settled : Process → Bool
is_settled (serving i) = true
is_settled (released i) = true
is_settled refused = true
is_settled other = false

-- Whether the move is a step of the process, as a number.
abbrev pub turn : ℕ → Move → ℕ
turn p (acts q) = if q == p then 1 else 0
turn p (releases q) = 0
turn p (dies q) = 0
turn p removes = 0

abbrev pub turns : ℕ → List Move → ℕ
turns p [] = 0
turns p (move ∷ moves) = turn p move + turns p moves

-- The process is not killed.
abbrev pub Spared : ℕ → Move → Type 0
Spared p (acts q) = Unit
Spared p (releases q) = Unit
Spared p (dies q) = (q == p) ≡ false
Spared p removes = Unit

open_at-process :
    (p left q : ℕ) (found : Option ℕ) (w : World)
    → (p == q) ≡ false
    → (open_at p left found w).process q ≡ w.process q
open_at-process p left q none w other = rw other
open_at-process p left q (some i) w other = rw other

-- A step of one process moves no other.
act_from-other :
    (p q : ℕ) (state : Process) (w : World)
    → (p == q) ≡ false
    → (act_from p state w).process q ≡ w.process q
act_from-other p q absent w other = rw other
act_from-other p q (trying zero) w other = rw other
act_from-other p q (trying (suc left)) w other = open_at-process p left q w.path w other
act_from-other p q (opened left i) w other = elim (Bool-cases (is_free p (w.owner i))) [
  | inl free ↦ rw (free, other)
  | inr busy ↦ rw (busy, other)
]
act_from-other p q (locked left i) w other = elim (Bool-cases (is_at i w.path)) [
  | inl there ↦ rw (there, other)
  | inr gone ↦ rw (gone, other)
]
act_from-other p q (verified i) w other = rw other
act_from-other p q (serving i) w other = refl
act_from-other p q (released i) w other = refl
act_from-other p q refused w other = refl

becomes_self : (p : ℕ) (state : Process) (w : World) → (becomes p state w).process p ≡ state
becomes_self p state w = rw (==_refl p)

open_at-left :
    (p left : ℕ) (found : Option ℕ) (w : World)
    → left_of ((open_at p left found w).process p) ≡ 3 * left + 3
open_at-left p left none w = rw (==_refl p)
open_at-left p left (some i) w = rw (==_refl p)

act_from-left :
    (p : ℕ) (state : Process) (w : World)
    → w.process p ≡ state
    → left_of ((act_from p state w).process p) ≤ left_of state - 1
act_from-left p absent w here = omega (arith, ap left_of (becomes_self p (trying 5) w))
act_from-left p (trying zero) w here = omega (arith, ap left_of (becomes_self p refused w))
act_from-left p (trying (suc left)) w here = omega (arith, open_at-left p left w.path w)
act_from-left p (opened left i) w here = elim (Bool-cases (is_free p (w.owner i))) [
  | inl free ↦ rw (free, ==_refl p) (omega arith)
  | inr busy ↦ rw (busy, ==_refl p) (omega arith)
]
act_from-left p (locked left i) w here = elim (Bool-cases (is_at i w.path)) [
  | inl there ↦ rw (there, ==_refl p) (omega arith)
  | inr gone ↦ rw (gone, ==_refl p) (omega arith)
]
act_from-left p (verified i) w here = rw (==_refl p) (omega arith)
act_from-left p (serving i) w here = rw here (omega arith)
act_from-left p (released i) w here = rw here (omega arith)
act_from-left p refused w here = rw here (omega arith)

serving-left :
    (p q i : ℕ) (w : World)
    → w.process q ≡ serving i
    → left_of ((release_from q (serving i) w).process p) ≤ left_of (w.process p)
serving-left p q i w here = elim (Bool-cases (is_own q (w.content i))) [
  | inl own ↦ elim (Bool-cases (q == p)) [
    | inl same ↦ rw (own, same) (omega arith)
    | inr other ↦ rw (own, other) (omega arith)
  ]
  | inr foreign ↦ elim (Bool-cases (q == p)) [
    | inl same ↦ rw (foreign, same) (omega arith)
    | inr other ↦ rw (foreign, other) (omega arith)
  ]
]

release_from-left :
    (p q : ℕ) (state : Process) (w : World)
    → w.process q ≡ state
    → left_of ((release_from q state w).process p) ≤ left_of (w.process p)
release_from-left p q (serving i) w here = serving-left p q i w here
release_from-left p q absent w here = omega arith
release_from-left p q (trying n) w here = omega arith
release_from-left p q (opened n i) w here = omega arith
release_from-left p q (locked n i) w here = omega arith
release_from-left p q (verified i) w here = omega arith
release_from-left p q (released i) w here = omega arith
release_from-left p q refused w here = omega arith

-- A step of the process brings it nearer to its end, and no other move takes it back.
step-left :
    (p : ℕ) (move : Move) (w : World)
    → Spared p move
    → left_of ((step move w).process p) ≤ left_of (w.process p) - turn p move
unfolding step act release
step-left p (acts q) w spared = elim (==_cases q p) [
  | inl (same, e) ↦ rw same (
      subst (λ k. left_of ((act_from k (w.process k) w).process p) ≤ left_of (w.process p) - 1)
        (sym e) (act_from-left p (w.process p) w refl))
  | inr other ↦ rw other (omega (arith, ap left_of (act_from-other q p (w.process q) w other)))
]
step-left p (releases q) w spared = omega (arith, release_from-left p q (w.process q) w refl)
step-left p (dies q) w spared = rw spared (omega arith)
step-left p removes w spared = omega arith

run-left :
    (p : ℕ) (moves : List Move) (w : World)
    → All (Spared p) moves
    → left_of ((run moves w).process p) ≤ left_of (w.process p) - turns p moves
unfolding run
run-left p [] w spared = omega arith
run-left p (move ∷ moves) w spared =
    omega (arith, run-left p moves (step move w) spared.1, step-left p move w spared.0)

settled : (state : Process) → left_of state ≡ 0 → is_settled state ≡ true
settled absent h = absurd (omega arith)
settled (trying n) h = absurd (omega arith)
settled (opened n i) h = absurd (omega arith)
settled (locked n i) h = absurd (omega arith)
settled (verified i) h = absurd (omega arith)
settled (serving i) h = refl
settled (released i) h = refl
settled refused h = refl

-- A start ends. Whatever other processes do in between, and however often the file is replaced under
-- its hands: after seventeen steps of its own, a process that is not killed serves, has stopped
-- serving, or is refused.
pub claim-is_settled :
    (p : ℕ) (moves : List Move) (w : World)
    → w.process p ≡ absent
    → All (Spared p) moves
    → 17 ≤ turns p moves
    → is_settled ((run moves w).process p) ≡ true
claim-is_settled p moves w new spared enough =
    settled ((run moves w).process p) (omega (arith, run-left p moves w spared, ap left_of new))
