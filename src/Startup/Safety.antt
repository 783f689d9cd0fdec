-- ===== src/Startup/Safety.antt =====
-- server/main.py, `_claim_pid_file`: what a process has at each point of its start.
use wterm.Prelude.{
  ℕ, suc, ◌≡◌, ◌≢◌, refl, sym, ap, ◌∙◌, true, false, Option, none, some, Bool-cases, inl, inr, ◌==◌,
  ==_refl, ==_cases, nat_key, eqb_iff,
}
use wterm.Startup.PidFile.{
  Process, trying, opened, locked, verified, serving, refused, World, set, becomes, open_at,
  is_free, lock_file, is_at, check_file, write_pid, holds,
}

-- A process past its check has the file at the path and its lock, a process before its check has
-- the lock of the file that it opened, and a serving process has its PID in its file.
pub record IsSafe (w : World) : Type 0 where
  pub held : (p i : ℕ) → holds i (w.process p) ≡ true → (w.path ≡ some i) × (w.owner i ≡ some p)
  pub locks : (p i left : ℕ) → w.process p ≡ locked left i → w.owner i ≡ some p
  pub written : (p i : ℕ) → w.process p ≡ serving i → w.content i ≡ some p

-- A step of one process: what it needs itself, and what it leaves of the others.
pub record IsFine (p : ℕ) (state : Process) (w w' : World) : Type 0 where
  pub same : (q : ℕ) → w'.process q ≡ set p state w.process q
  pub own_held : (i : ℕ) → holds i state ≡ true → (w'.path ≡ some i) × (w'.owner i ≡ some p)
  pub own_lock : (i left : ℕ) → state ≡ locked left i → w'.owner i ≡ some p
  pub own_written : (i : ℕ) → state ≡ serving i → w'.content i ≡ some p
  pub other_held :
      (q i : ℕ)
      → (p == q) ≡ false
      → holds i (w.process q) ≡ true
      → (w'.path ≡ some i) × (w'.owner i ≡ some q)
  pub other_lock :
      (q i left : ℕ) → (p == q) ≡ false → w.process q ≡ locked left i → w'.owner i ≡ some q
  pub other_written : (q i : ℕ) → (p == q) ≡ false → w.process q ≡ serving i → w'.content i ≡ some q

pub fine-IsSafe : (p : ℕ) (state : Process) (w w' : World) → IsFine p state w w' → IsSafe w'
fine-IsSafe p state w w' f = record {
  held = λ q i h. elim (==_cases p q) [
    | inl (same, e) ↦
        let here : w'.process q ≡ state = f.same q ∙ rw same in
        let (path, owner) = f.own_held i (sym (ap (holds i) here) ∙ h) in (path, owner ∙ ap some e)
    | inr other ↦
        let here : w'.process q ≡ w.process q = f.same q ∙ rw other in
        f.other_held q i other (sym (ap (holds i) here) ∙ h)
  ];
  locks = λ q i left h. elim (==_cases p q) [
    | inl (same, e) ↦
        let here : w'.process q ≡ state = f.same q ∙ rw same in
        f.own_lock i left (sym here ∙ h) ∙ ap some e
    | inr other ↦
        let here : w'.process q ≡ w.process q = f.same q ∙ rw other in
        f.other_lock q i left other (sym here ∙ h)
  ];
  written = λ q i h. elim (==_cases p q) [
    | inl (same, e) ↦
        let here : w'.process q ≡ state = f.same q ∙ rw same in
        f.own_written i (sym here ∙ h) ∙ ap some e
    | inr other ↦
        let here : w'.process q ≡ w.process q = f.same q ∙ rw other in
        f.other_written q i other (sym here ∙ h)
  ];
}

-- A process that changes its state and nothing else, to one that needs nothing.
pub becomes-IsSafe :
    (p : ℕ) (state : Process) (w : World)
    → ((i : ℕ) → holds i state ≡ false)
    → ((i left : ℕ) → state ≢ locked left i)
    → IsSafe w
    → IsSafe (becomes p state w)
becomes-IsSafe p state w idle unlocked s = fine-IsSafe p state w (becomes p state w) (record {
  same = λ q. refl;
  own_held = λ i h. absurd (let off = idle i in cc);
  own_lock = λ i left e. absurd (unlocked i left e);
  own_written = λ i e.
      absurd (let off = idle i in let on : holds i state ≡ true = ap (holds i) e ∙ ==_refl i in cc);
  other_held = λ q i other. s.held q i;
  other_lock = λ q i left other. s.locks q i left;
  other_written = λ q i other. s.written q i;
})

at-path : (i j : ℕ) (path : Option ℕ) → is_at i path ≡ true → i ≡ j → path ≡ some j
at-path i j none h e = absurd (cc)
at-path i j (some k) h e = ap some (sym ((eqb_iff i k).0 h) ∙ e)

pub open_at-IsSafe :
    (p left : ℕ) (found : Option ℕ) (w : World)
    → w.path ≡ found
    → IsSafe w
    → IsSafe (open_at p left found w)
open_at-IsSafe p left (some i) w there s =
    becomes-IsSafe p (opened left i) w (λ j. refl) (λ j l e. cc) s
open_at-IsSafe p left none w nothing s =
    let w' : World = record w { path = some w.fresh; fresh = suc w.fresh } in
    fine-IsSafe p (opened left w.fresh) w (becomes p (opened left w.fresh) w') (record {
      same = λ q. refl;
      own_held = λ i h. absurd (cc);
      own_lock = λ i l e. absurd (cc);
      own_written = λ i e. absurd (cc);
      other_held = λ q i other h. absurd (let (path, _) = s.held q i h in cc);
      other_lock = λ q i l other. s.locks q i l;
      other_written = λ q i other. s.written q i;
    })

-- Another owner of a file than the process that locks it.
taken :
    (p q i j : ℕ) (w : World)
    → (p == q) ≡ false
    → is_free p (w.owner i) ≡ true
    → w.owner j ≡ some q
    → set i (some p) w.owner j ≡ some q
taken p q i j w other free owns = elim (==_cases i j) [
  | inr different ↦ rw different owns
  | inl (_, e) ↦
      let own : w.owner i ≡ some q = ap w.owner e ∙ owns in
      let clash : is_free p (some q) ≡ true = sym (ap (is_free p) own) ∙ free in absurd (cc)
]

pub lock_file-IsSafe : (p left i : ℕ) (w : World) → IsSafe w → IsSafe (lock_file p left i w)
lock_file-IsSafe p left i w s = elim (Bool-cases (is_free p (w.owner i))) [
  | inr busy ↦ rw busy (becomes-IsSafe p refused w (λ j. refl) (λ j l e. cc) s)
  | inl free ↦
      let w' : World = becomes p (locked left i) (record w { owner = set i (some p) w.owner }) in
      rw free (
        fine-IsSafe p (locked left i) w w' (record {
          same = λ q. refl;
          own_held = λ j h. absurd (cc);
          own_lock = λ j l e. (let here : i ≡ j = cc in rw ((eqb_iff i j).1 here));
          own_written = λ j e. absurd (cc);
          other_held = λ q j other h.
              (let (path, owner) = s.held q j h in (path, taken p q i j w other free owner));
          other_lock = λ q j l other e. taken p q i j w other free (s.locks q j l e);
          other_written = λ q j other. s.written q j;
        }))
]

-- Two processes own two files.
pub apart :
    (p q i j : ℕ) (w : World)
    → (p == q) ≡ false
    → w.owner i ≡ some p
    → w.owner j ≡ some q
    → (i == j) ≡ false
apart p q i j w other mine owns = elim (==_cases i j) [
  | inr different ↦ different
  | inl (_, e) ↦
      let both : some p ≡ some q = sym mine ∙ ap w.owner e ∙ owns in
      let same : p ≡ q = cc in absurd (let on = (eqb_iff p q).1 same in cc)
]

-- A process that gives its own lock back takes nobody else's.
kept :
    (p q i j : ℕ) (w : World)
    → (p == q) ≡ false
    → w.owner i ≡ some p
    → w.owner j ≡ some q
    → set i none w.owner j ≡ some q
kept p q i j w other mine owns = rw (apart p q i j w other mine owns) owns

pub check_file-IsSafe :
    (p left i : ℕ) (w : World)
    → w.process p ≡ locked left i
    → IsSafe w
    → IsSafe (check_file p left i w)
check_file-IsSafe p left i w here s = elim (Bool-cases (is_at i w.path)) [
  | inl there ↦ rw there (
      fine-IsSafe p (verified i) w (becomes p (verified i) w) (record {
        same = λ q. refl;
        own_held = λ j h. (
          let e : i ≡ j = sym ((eqb_iff j i).0 h) in at-path i j w.path there e,
          ap w.owner ((eqb_iff j i).0 h) ∙ s.locks p i left here,
        );
        own_lock = λ j l e. absurd (cc);
        own_written = λ j e. absurd (cc);
        other_held = λ q j other. s.held q j;
        other_lock = λ q j l other. s.locks q j l;
        other_written = λ q j other. s.written q j;
      }))
  | inr gone ↦
      let w' : World = becomes p (trying left) (record w { owner = set i none w.owner }) in
      let mine = s.locks p i left here in
      rw gone (
        fine-IsSafe p (trying left) w w' (record {
          same = λ q. refl;
          own_held = λ j h. absurd (cc);
          own_lock = λ j l e. absurd (cc);
          own_written = λ j e. absurd (cc);
          other_held = λ q j other h.
              (let (path, owner) = s.held q j h in (path, kept p q i j w other mine owner));
          other_lock = λ q j l other e. kept p q i j w other mine (s.locks q j l e);
          other_written = λ q j other. s.written q j;
        }))
]

pub write_pid-IsSafe :
    (p i : ℕ) (w : World) → w.process p ≡ verified i → IsSafe w → IsSafe (write_pid p i w)
write_pid-IsSafe p i w here s =
    let own = s.held p i (ap (holds i) here ∙ ==_refl i) in
    fine-IsSafe p (serving i) w (write_pid p i w) (record {
      same = λ q. refl;
      own_held = λ j h.
          (let e : i ≡ j = sym ((eqb_iff j i).0 h) in
            (own.0 ∙ ap some e, ap w.owner (sym e) ∙ own.1));
      own_lock = λ j l e. absurd (cc);
      own_written = λ j e. (let same : i ≡ j = cc in rw ((eqb_iff i j).1 same));
      other_held = λ q j other. s.held q j;
      other_lock = λ q j l other. s.locks q j l;
      other_written = λ q j other e.
          (let owns = (s.held q j (ap (holds j) e ∙ ==_refl j)).1 in
            rw (apart p q i j w other own.1 owns) (s.written q j e));
    })
