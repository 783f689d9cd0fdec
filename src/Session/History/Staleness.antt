-- ===== src/Session/History/Staleness.antt =====
-- server/session.py: how old an answer of `has_codex_history` can be.
use wterm.Prelude.{
  ◌≤◌, ℕ, ◌-◌, ◌<◌, ◌≡◌, ◌⊎◌, Bool, true, false, some, List, [], ◌∷◌, Text, nat_key, list_key,
}
use wterm.Session.History.{Cache, is_among, codex_cache_ttl, has_codex_history}

-- A query at a time, with the end of the scan that it may start and what that scan finds.
abbrev pub Query : Type 0
Query = ℕ × ℕ × List Text × Text

-- The cache after queries.
abbrev pub run : List Query → Cache → Cache
run [] cache = cache
run ((now, ended, found, cwd) ∷ queries) cache =
    run queries (has_codex_history now ended found cwd cache).0

-- What the disk holds at each time.
module _ (disk : ℕ → List Text) where
  -- What a scan finds, over files that are only added while it runs: what is there when it begins, and
  -- nothing that is not there when it ends.
  pub record IsRead (began over : ℕ) (found : List Text) : Type 0 where
    pub ordered : began ≤ over
    pub complete : (cwd : Text) → is_among cwd (disk began) ≡ true → is_among cwd found ≡ true
    pub sound : (cwd : Text) → is_among cwd found ≡ true → is_among cwd (disk over) ≡ true

  abbrev pub IsReadQuery : Query → Type 0
  IsReadQuery (now, ended, found, cwd) = IsRead now ended found

  abbrev IsScan : Cache → Type 0
  IsScan cache =
      (over : ℕ) → cache.scanned_at ≡ some over → (began : ℕ) × IsRead began over cache.cwds

  -- A yes was true at the end of a scan, and a no at its beginning; the scan is the one of this query,
  -- or has ended less than thirty seconds before it.
  abbrev pub IsAnswer : ℕ → ℕ → Text → Bool → Type 0
  IsAnswer now ended cwd answer =
      (began : ℕ) × (over : ℕ) × (began ≤ over)
      × (((answer ≡ true) × (is_among cwd (disk over) ≡ true))
          ⊎ ((answer ≡ false) × (is_among cwd (disk began) ≡ false)))
      × (((began ≡ now) × (over ≡ ended)) ⊎ (now - over < codex_cache_ttl))
