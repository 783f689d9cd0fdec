-- ===== src/Status/Silence.antt =====
-- server/project_status.py: a socket that is not subscribed is sent nothing.
use wterm.Prelude.{
  ℕ, ◌≡◌, refl, Bool, false, ◌||◌, not, List, [], ◌∷◌, ◌++◌, All, filter_by, Text, arith, ◌==◌,
  nat_key, Bool-cases, inl, inr,
}
use wterm.Status.{
  Phase, waiting, computing, sending, Hub, changed, contains, add, discard, wake_from, wake,
  time_out_from, time_out, is_last, compute_from, compute, fail_from, fail, drop_all, finish_from,
  finish,
}
use wterm.Status.Freshness.{
  Event, changes, adds, discards, wakes, times_out, computes, fails, finishes, step, sent_to,
}

abbrev pub is_sent : ℕ → List Event → Hub → Bool
is_sent ws [] h = false
is_sent ws (e ∷ events) h = contains ws (sent_to e h) || is_sent ws events (step e h)

-- The socket is not subscribed anew.
abbrev pub StaysOut : ℕ → Event → Type 0
StaysOut ws (adds other) = (other == ws) ≡ false
StaysOut ws other = Unit

append-contains :
    (ws other : ℕ) (sockets : List ℕ)
    → (other == ws) ≡ false
    → contains ws sockets ≡ false
    → contains ws (sockets ++ other ∷ []) ≡ false
unfolding contains
append-contains ws other [] apart h = ground arith
append-contains ws other (x ∷ sockets) apart h =
    ground (arith, append-contains ws other sockets apart)

add-contains :
    (ws other : ℕ) (h : Hub)
    → (other == ws) ≡ false
    → contains ws h.sockets ≡ false
    → contains ws (add other h).sockets ≡ false
unfolding add changed
add-contains ws other h apart out = elim (Bool-cases (contains other h.sockets)) [
  | inl known ↦ rw known out
  | inr new ↦ rw new (append-contains ws other h.sockets apart out)
]

filter-contains :
    (ws : ℕ) (p : ℕ → Bool) (sockets : List ℕ)
    → contains ws sockets ≡ false
    → contains ws (filter_by p sockets) ≡ false
unfolding contains filter_by
filter-contains ws p [] h = refl
filter-contains ws p (x ∷ sockets) h = ground (arith, filter-contains ws p sockets)

discard-contains :
    (ws other : ℕ) (h : Hub)
    → contains ws h.sockets ≡ false
    → contains ws (discard other h).sockets ≡ false
unfolding discard
discard-contains ws other h out = filter-contains ws (λ x. not (x == other)) h.sockets out

drop_all-contains :
    (ws : ℕ) (failed : List ℕ) (h : Hub)
    → contains ws h.sockets ≡ false
    → contains ws (drop_all failed h).sockets ≡ false
unfolding drop_all
drop_all-contains ws [] h out = out
drop_all-contains ws (x ∷ failed) h out =
    drop_all-contains ws failed (discard x h) (discard-contains ws x h out)

wake-contains :
    (ws : ℕ) (p : Phase) (h : Hub)
    → contains ws h.sockets ≡ false
    → contains ws (wake_from p h).sockets ≡ false
wake-contains ws waiting h out = ground arith
wake-contains ws (computing triggered) h out = out
wake-contains ws sending h out = out

time_out-contains :
    (ws : ℕ) (p : Phase) (h : Hub)
    → contains ws h.sockets ≡ false
    → contains ws (time_out_from p h).sockets ≡ false
time_out-contains ws waiting h out = ground arith
time_out-contains ws (computing triggered) h out = out
time_out-contains ws sending h out = out

compute-contains :
    (ws : ℕ) (p : Phase) (payload : Text) (h : Hub)
    → contains ws h.sockets ≡ false
    → (contains ws (compute_from p payload h).0.sockets ≡ false)
      × (contains ws (compute_from p payload h).1 ≡ false)
unfolding contains
compute-contains ws waiting payload h out = (out, refl)
compute-contains ws (computing triggered) payload h out =
    elim (Bool-cases (triggered || not (is_last h.last_payload payload))) [
      | inl sent ↦ rw sent (out, out)
      | inr same ↦ rw same (out, refl)
    ]
compute-contains ws sending payload h out = (out, refl)

fail-contains :
    (ws : ℕ) (p : Phase) (h : Hub)
    → contains ws h.sockets ≡ false
    → contains ws (fail_from p h).sockets ≡ false
fail-contains ws waiting h out = out
fail-contains ws (computing triggered) h out = out
fail-contains ws sending h out = out

finish-contains :
    (ws : ℕ) (p : Phase) (failed : List ℕ) (h : Hub)
    → contains ws h.sockets ≡ false
    → contains ws (finish_from p failed h).sockets ≡ false
finish-contains ws waiting failed h out = out
finish-contains ws (computing triggered) failed h out = out
finish-contains ws sending failed h out = drop_all-contains ws failed h out

step-contains :
    (ws : ℕ) (e : Event) (h : Hub)
    → StaysOut ws e
    → contains ws h.sockets ≡ false
    → (contains ws (step e h).sockets ≡ false) × (contains ws (sent_to e h) ≡ false)
unfolding step changed wake time_out compute fail finish contains
step-contains ws changes h stays out = (out, refl)
step-contains ws (adds other) h stays out = (add-contains ws other h stays out, refl)
step-contains ws (discards other) h stays out = (discard-contains ws other h out, refl)
step-contains ws wakes h stays out = (wake-contains ws h.phase h out, refl)
step-contains ws times_out h stays out = (time_out-contains ws h.phase h out, refl)
step-contains ws (computes payload) h stays out = compute-contains ws h.phase payload h out
step-contains ws fails h stays out = (fail-contains ws h.phase h out, refl)
step-contains ws (finishes failed) h stays out = (finish-contains ws h.phase failed h out, refl)

-- Whatever happens, a socket that is not subscribed, and does not subscribe, is sent nothing.
pub unsubscribed-is_sent :
    (ws : ℕ) (events : List Event) (h : Hub)
    → All (StaysOut ws) events
    → contains ws h.sockets ≡ false
    → is_sent ws events h ≡ false
unsubscribed-is_sent ws [] h stays out = refl
unsubscribed-is_sent ws (e ∷ events) h (here, stays) out =
    let (still, silent) = step-contains ws e h here out in
    rw silent (unsubscribed-is_sent ws events (step e h) stays still)
