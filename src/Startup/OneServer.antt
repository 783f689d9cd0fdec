-- ===== src/Startup/OneServer.antt =====
-- server/main.py, `_claim_pid_file`: at most one process serves.
use wterm.Prelude.{
  ℕ, zero, suc, ◌≡◌, refl, sym, ap, ◌∙◌, false, Option, none, some, if◌then◌else◌, ◌==◌, ==_refl,
  nat_key, eqb_iff,
}
use wterm.Startup.PidFile.{
  Process, absent, trying, opened, locked, verified, serving, released, refused, World, init,
  becomes, act_from, act, is_own, release_from, release, die, remove, Move, acts, releases, dies,
  removes, step, holds, Allowed, Reach, begin, next,
}
use wterm.Startup.Safety.{
  IsSafe, fine-IsSafe, becomes-IsSafe, open_at-IsSafe, apart, lock_file-IsSafe, check_file-IsSafe,
  write_pid-IsSafe,
}

act_from-IsSafe :
    (p : ℕ) (state : Process) (w : World)
    → w.process p ≡ state
    → IsSafe w
    → IsSafe (act_from p state w)
act_from-IsSafe p absent w here s = becomes-IsSafe p (trying 5) w (λ i. refl) (λ i l e. cc) s
act_from-IsSafe p (trying zero) w here s = becomes-IsSafe p refused w (λ i. refl) (λ i l e. cc) s
act_from-IsSafe p (trying (suc left)) w here s = open_at-IsSafe p left w.path w refl s
act_from-IsSafe p (opened left i) w here s = lock_file-IsSafe p left i w s
act_from-IsSafe p (locked left i) w here s = check_file-IsSafe p left i w here s
act_from-IsSafe p (verified i) w here s = write_pid-IsSafe p i w here s
act_from-IsSafe p (serving i) w here s = s
act_from-IsSafe p (released i) w here s = s
act_from-IsSafe p refused w here s = s

release-unlinks :
    (p i : ℕ) (w : World)
    → w.process p ≡ serving i
    → IsSafe w
    → release_from p (serving i) w ≡ becomes p (released i) (record w { path = none })
release-unlinks p i w here s = rw (s.written p i here, ==_refl p)

release_from-IsSafe :
    (p : ℕ) (state : Process) (w : World)
    → w.process p ≡ state
    → IsSafe w
    → IsSafe (release_from p state w)
release_from-IsSafe p (serving i) w here s =
    let own = s.held p i (ap (holds i) here ∙ ==_refl i) in
    let w' : World = becomes p (released i) (record w { path = none }) in
    rw (release-unlinks p i w here s) (
      fine-IsSafe p (released i) w w' (record {
        same = λ q. refl;
        own_held = λ j h. absurd (cc);
        own_lock = λ j l e. absurd (cc);
        own_written = λ j e. absurd (cc);
        other_held = λ q j other h. absurd (
            let (path, owns) = s.held q j h in
            let file : some i ≡ some j = sym own.0 ∙ path in
            let same_file : i ≡ j = cc in
            let two = apart p q i j w other own.1 owns in let on = (eqb_iff i j).1 same_file in cc);
        other_lock = λ q j l other. s.locks q j l;
        other_written = λ q j other. s.written q j;
      }))
release_from-IsSafe p absent w here s = s
release_from-IsSafe p (trying left) w here s = s
release_from-IsSafe p (opened left i) w here s = s
release_from-IsSafe p (locked left i) w here s = s
release_from-IsSafe p (verified i) w here s = s
release_from-IsSafe p (released i) w here s = s
release_from-IsSafe p refused w here s = s

-- The locks that are left when a process dies.
survives :
    (p q i : ℕ) (owner : Option ℕ)
    → (p == q) ≡ false
    → owner ≡ some q
    → (if is_own p owner then none else owner) ≡ some q
survives p q i none other owns = owns
survives p q i (some r) other owns =
    (let same : r ≡ q = cc in
      let not_own : (p == r) ≡ false = ap (λ k. p == k) same ∙ other in rw not_own owns)

die-IsSafe : (p : ℕ) (w : World) → IsSafe w → IsSafe (die p w)
die-IsSafe p w s = fine-IsSafe p absent w (die p w) (record {
  same = λ q. refl;
  own_held = λ i h. absurd (cc);
  own_lock = λ i l e. absurd (cc);
  own_written = λ i e. absurd (cc);
  other_held = λ q i other h.
      (let (path, owner) = s.held q i h in (path, survives p q i (w.owner i) other owner));
  other_lock = λ q i l other e. survives p q i (w.owner i) other (s.locks q i l e);
  other_written = λ q i other. s.written q i;
})

remove-IsSafe : (w : World) → Allowed removes w → IsSafe w → IsSafe (remove w)
remove-IsSafe w nobody s = record {
  held = λ p i h. absurd (let off = nobody p i in cc);
  locks = s.locks;
  written = s.written;
}

step-IsSafe : (move : Move) (w : World) → Allowed move w → IsSafe w → IsSafe (step move w)
unfolding step act release
step-IsSafe (acts p) w allowed s = act_from-IsSafe p (w.process p) w refl s
step-IsSafe (releases p) w allowed s = release_from-IsSafe p (w.process p) w refl s
step-IsSafe (dies p) w allowed s = die-IsSafe p w s
step-IsSafe removes w allowed s = remove-IsSafe w allowed s

pub reach-IsSafe : (w : World) → Reach w → IsSafe w
reach-IsSafe init begin = record {
  held = λ p i h. absurd (cc);
  locks = λ p i l e. absurd (cc);
  written = λ p i e. absurd (cc);
}
reach-IsSafe _ (next move w before allowed) = step-IsSafe move w allowed (reach-IsSafe w before)

-- There is one server. However processes start, claim the file, release it and die, in any
-- interleaving of their system calls, and whenever the scripts remove the file while no server has
-- it: two processes that serve are the same one, and its PID is in the file at the path.
pub one_server :
    (w : World) (p q i j : ℕ)
    → Reach w
    → w.process p ≡ serving i
    → w.process q ≡ serving j
    → (p ≡ q) × (w.path ≡ some i) × (w.content i ≡ some p)
one_server w p q i j reached hp hq =
    let s = reach-IsSafe w reached in
    let (path, owner) = s.held p i (ap (holds i) hp ∙ ==_refl i) in
    let (path', owner') = s.held q j (ap (holds j) hq ∙ ==_refl j) in
    let file : some i ≡ some j = sym path ∙ path' in
    let same : i ≡ j = cc in
    let both : some p ≡ some q = sym owner ∙ ap w.owner same ∙ owner' in
    (cc, path, s.written p i hp)

-- A server that stops leaves no file behind: the file that it unlinks is its own.
pub release-path :
    (w : World) (p i : ℕ)
    → Reach w
    → w.process p ≡ serving i
    → (w.path ≡ some i) × ((release p w).path ≡ none) × ((release p w).process p ≡ released i)
unfolding release
release-path w p i reached here =
    let s = reach-IsSafe w reached in
    let (path, owner) = s.held p i (ap (holds i) here ∙ ==_refl i) in
    let after = ap (λ state. release_from p state w) here ∙ release-unlinks p i w here s in
    (path, ap (λ k. k.path) after, ap (λ k. k.process p) after ∙ rw (==_refl p))
