-- ===== src/Startup/PidFile.antt =====
-- server/main.py: `_claim_pid_file`, a system call at a time, and `_release_pid_file` as one step,
-- with the kernel's files and locks. A lock belongs to a process and an inode and goes with the process. Other
-- failures of the system calls than a lock that is held are left out.
use wterm.Prelude.{
  ℕ, zero, suc, ◌≡◌, Bool, true, false, Option, none, some, if◌then◌else◌, ◌==◌, nat_key,
}

-- Where a process is. The numbers are the attempts that are left, and inodes.
pub data Process : Type 0 where
  absent : Process
  trying : ℕ → Process
  opened : ℕ → ℕ → Process
  locked : ℕ → ℕ → Process
  -- the file is at the path, and the PID is not written yet
  verified : ℕ → Process
  serving : ℕ → Process
  released : ℕ → Process
  refused : Process

pub record World : Type 0 where
  -- the inode at the path
  pub path : Option ℕ
  pub fresh : ℕ
  pub owner : ℕ → Option ℕ
  pub content : ℕ → Option ℕ
  pub process : ℕ → Process

abbrev pub init : World
init = record {
  path = none;
  fresh = 0;
  owner = λ i. none;
  content = λ i. none;
  process = λ p. absent;
}

-- A function with one value changed.
abbrev pub set {ℓ} : {A : Type ℓ} → ℕ → A → (ℕ → A) → ℕ → A
set i a f j = if i == j then a else f j

abbrev pub becomes : ℕ → Process → World → World
becomes p state w = record w { process = set p state w.process }

abbrev pub open_at : ℕ → ℕ → Option ℕ → World → World
open_at p left (some i) w = becomes p (opened left i) w
open_at p left none w =
    becomes p (opened left w.fresh) (record w { path = some w.fresh; fresh = suc w.fresh })

-- os.open(PID_FILE, O_RDWR | O_CREAT)
abbrev pub open_file : ℕ → ℕ → World → World
open_file p left w = open_at p left w.path w

abbrev pub is_free : ℕ → Option ℕ → Bool
is_free p none = true
is_free p (some q) = p == q

-- fcntl.lockf(fd, LOCK_EX | LOCK_NB): a lock that another process has ends the start.
abbrev pub lock_file : ℕ → ℕ → ℕ → World → World
lock_file p left i w =
    if is_free p (w.owner i)
    then becomes p (locked left i) (record w { owner = set i (some p) w.owner })
    else becomes p refused w

abbrev pub is_at : ℕ → Option ℕ → Bool
is_at i none = false
is_at i (some j) = i == j

-- The comparison of fstat and stat; a file that is not at the path any more is closed, and with it
-- goes the lock.
abbrev pub check_file : ℕ → ℕ → ℕ → World → World
check_file p left i w =
    if is_at i w.path
    then becomes p (verified i) w
    else becomes p (trying left) (record w { owner = set i none w.owner })

-- ftruncate, write and fsync
abbrev pub write_pid : ℕ → ℕ → World → World
write_pid p i w = becomes p (serving i) (record w { content = set i (some p) w.content })

abbrev pub act_from : ℕ → Process → World → World
act_from p absent w = becomes p (trying 5) w
act_from p (trying zero) w = becomes p refused w
act_from p (trying (suc left)) w = open_file p left w
act_from p (opened left i) w = lock_file p left i w
act_from p (locked left i) w = check_file p left i w
act_from p (verified i) w = write_pid p i w
act_from p (serving i) w = w
act_from p (released i) w = w
act_from p refused w = w

-- `_claim_pid_file`: the next step of the process.
unfoldable pub act : ℕ → World → World
act p w = act_from p (w.process p) w

abbrev pub is_own : ℕ → Option ℕ → Bool
is_own p none = false
is_own p (some q) = p == q

abbrev pub release_from : ℕ → Process → World → World
release_from p (serving i) w =
    if is_own p (w.content i)
    then becomes p (released i) (record w { path = none })
    else becomes p (released i) w
release_from p other w = w

-- `_release_pid_file`: whatever is at the path is unlinked if the own file holds the own PID.
unfoldable pub release : ℕ → World → World
release p w = release_from p (w.process p) w

-- However a process dies, the kernel takes its locks back.
abbrev pub die : ℕ → World → World
die p w =
    becomes p absent (record w { owner = λ i. if is_own p (w.owner i) then none else w.owner i })

-- The file is removed from outside, as by start.sh and stop.sh.
abbrev pub remove : World → World
remove w = record w { path = none }

pub data Move : Type 0 where
  acts : ℕ → Move
  releases : ℕ → Move
  dies : ℕ → Move
  removes : Move

unfoldable pub step : Move → World → World
unfolding act release
step (acts p) w = act p w
step (releases p) w = release p w
step (dies p) w = die p w
step removes w = remove w

abbrev pub holds : ℕ → Process → Bool
holds i (verified j) = i == j
holds i (serving j) = i == j
holds i other = false

-- The scripts remove the file only if no server has it.
abbrev pub Allowed : Move → World → Type 0
Allowed removes w = (p i : ℕ) → holds i (w.process p) ≡ false
Allowed (acts p) w = Unit
Allowed (releases p) w = Unit
Allowed (dies p) w = Unit

-- The worlds that any interleaving of any processes comes to.
pub data Reach : World → Type 0 where
  begin : Reach init
  next : (move : Move) (w : World) → Reach w → Allowed move w → Reach (step move w)
