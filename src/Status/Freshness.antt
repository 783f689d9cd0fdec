-- ===== src/Status/Freshness.antt =====
-- server/project_status.py: the news of a subscriber of the hub. A snapshot that raises loses what it
-- was computed for, so the steps here have none.
use wterm.Prelude.{
  ◌&&◌, ℕ, ◌≡◌, ◌⊎◌, Bool, true, false, ◌||◌, List, [], ◌∷◌, Text, ◌==◌, nat_key, list_key,
}
use wterm.Status.{
  Phase, waiting, computing, Hub, changed, contains, add, discard, wake, time_out, compute, fail,
  finish,
}

pub data Event : Type 0 where
  changes : Event
  adds : ℕ → Event
  discards : ℕ → Event
  wakes : Event
  times_out : Event
  computes : Text → Event
  fails : Event
  finishes : List ℕ → Event

unfoldable pub step : Event → Hub → Hub
step changes h = changed h
step (adds ws) h = add ws h
step (discards ws) h = discard ws h
step wakes h = wake h
step times_out h = time_out h
step (computes payload) h = (compute payload h).0
step fails h = fail h
step (finishes failed) h = finish failed h

unfoldable pub run : List Event → Hub → Hub
run [] h = h
run (e ∷ events) h = run events (step e h)

-- The sockets that a step sends a snapshot to.
abbrev pub sent_to : Event → Hub → List ℕ
sent_to (computes payload) h = (compute payload h).1
sent_to other h = []

abbrev is_waiting : Phase → Bool
is_waiting waiting = true
is_waiting other = false

abbrev is_computing : Phase → Bool
is_computing (computing triggered) = true
is_computing other = false

-- Whether a snapshot begins in the step.
abbrev pub begins : Event → Hub → Bool
begins wakes h = is_waiting h.phase && is_computing (wake h).phase
begins times_out h = is_waiting h.phase && is_computing (time_out h).phase
begins other h = false

-- Whether a socket is sent a snapshot that has begun in these steps, `begun` saying that the snapshot
-- that is being computed has.
abbrev pub is_told : ℕ → Bool → List Event → Hub → Bool
is_told ws begun [] h = false
is_told ws begun (e ∷ events) h =
    (begun && contains ws (sent_to e h)) || is_told ws (begun || begins e h) events (step e h)

-- No snapshot raises, and the socket neither leaves nor fails.
abbrev pub Stays : ℕ → Event → Type 0
Stays ws fails = ⊥
Stays ws (discards other) = (other == ws) ≡ false
Stays ws (finishes failed) = contains ws failed ≡ false
Stays ws other = Unit

-- The event is set, or a snapshot that has begun since the news is going to be sent whatever it says.
abbrev IsOwed : Bool → Hub → Type 0
IsOwed begun h = (h.dirty ≡ true) ⊎ ((begun ≡ true) × (h.phase ≡ computing true))

-- Either the step sends the socket such a snapshot, or one is still owed to it.
abbrev StepsOn : ℕ → Bool → Bool → List ℕ → Hub → Type 0
StepsOn ws begun begun' sent h =
    ((begun && contains ws sent) ≡ true) ⊎ ((contains ws h.sockets ≡ true) × IsOwed begun' h)
