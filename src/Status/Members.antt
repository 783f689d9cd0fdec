-- ===== src/Status/Members.antt =====
-- server/project_status.py: which sockets are subscribed after a step.
use wterm.Prelude.{
  ℕ, ◌≡◌, refl, ◌∙◌, true, false, not, List, [], ◌∷◌, ◌++◌, filter_by, is_nil, inl, inr, arith,
  ◌==◌, nat_key, list_key, Bool-cases, ==_cases,
}
use wterm.Status.{Hub, changed, contains, add, discard, drop_all}

pub contains-append :
    (ws : ℕ) (sockets more : List ℕ)
    → contains ws sockets ≡ true
    → contains ws (sockets ++ more) ≡ true
unfolding contains
contains-append ws [] more h = absurd (cc)
contains-append ws (x ∷ sockets) more h = ground (arith, contains-append ws sockets more)

pub add-contains :
    (ws other : ℕ) (h : Hub)
    → contains ws h.sockets ≡ true
    → contains ws (add other h).sockets ≡ true
unfolding add changed
add-contains ws other h there = elim (Bool-cases (contains other h.sockets)) [
  | inl known ↦ rw known there
  | inr new ↦ rw new (contains-append ws h.sockets (other ∷ []) there)
]

pub filter-contains :
    (ws other : ℕ) (sockets : List ℕ)
    → (other == ws) ≡ false
    → contains ws (filter_by (λ x. not (x == other)) sockets) ≡ contains ws sockets
unfolding contains filter_by
filter-contains ws other [] apart = refl
filter-contains ws other (x ∷ sockets) apart = elim (==_cases x other) [
  | inl (same, e) ↦ ground (arith, filter-contains ws other sockets apart, e)
  | inr differs ↦ ground (arith, filter-contains ws other sockets apart, differs)
]

pub discard-contains :
    (ws other : ℕ) (h : Hub)
    → (other == ws) ≡ false
    → contains ws (discard other h).sockets ≡ contains ws h.sockets
unfolding discard
discard-contains ws other h apart = filter-contains ws other h.sockets apart

pub drop_all-contains :
    (ws : ℕ) (failed : List ℕ) (h : Hub)
    → contains ws failed ≡ false
    → contains ws (drop_all failed h).sockets ≡ contains ws h.sockets
unfolding drop_all contains
drop_all-contains ws [] h apart = refl
drop_all-contains ws (x ∷ failed) h apart = elim (Bool-cases (x == ws)) [
  | inl same ↦ absurd (ground arith)
  | inr other ↦
      drop_all-contains ws failed (discard x h) (ground arith) ∙ discard-contains ws x h other
]

pub drop_all-dirty : (failed : List ℕ) (h : Hub) → (drop_all failed h).dirty ≡ h.dirty
unfolding drop_all discard
drop_all-dirty [] h = refl
drop_all-dirty (x ∷ failed) h = drop_all-dirty failed (discard x h)

pub not_nil : (ws : ℕ) (sockets : List ℕ) → contains ws sockets ≡ true → is_nil sockets ≡ false
unfolding contains
not_nil ws [] h = absurd (cc)
not_nil ws (x ∷ sockets) h = refl
