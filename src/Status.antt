-- ===== src/Status.antt =====
-- server/project_status.py, class `ProjectStatusHub`: the list of projects that browsers watch. A
-- snapshot is the text that it becomes; sockets are numbers. The task of `run` is cut at its awaits.
pub mod Members
pub mod Freshness
pub mod Silence
pub mod Snapshot
mod Tests
use wterm.Prelude.{
  ℕ, suc, Bool, true, false, ◌||◌, not, Option, none, some, List, [], ◌∷◌, ◌++◌, if◌then◌else◌,
  filter_by, Text, is_nil, ◌==◌, nat_key, list_key,
}

-- Where `run` is: at a wait, at a snapshot that a change has caused or not, or at a broadcast.
pub data Phase : Type 0 where
  waiting : Phase
  computing : Bool → Phase
  sending : Phase

pub record Hub : Type 0 where
  pub dirty : Bool
  pub sockets : List ℕ
  pub last_payload : Option Text
  pub phase : Phase

unfoldable pub start : Hub
start = record { dirty = false; sockets = []; last_payload = none; phase = waiting }

unfoldable pub changed : Hub → Hub
changed h = record h { dirty = true }

unfoldable pub contains : ℕ → List ℕ → Bool
contains ws [] = false
contains ws (x ∷ sockets) = x == ws || contains ws sockets

-- A set holds a socket once.
unfoldable pub add : ℕ → Hub → Hub
unfolding changed contains
add ws h =
    changed
      (record h { sockets = if contains ws h.sockets then h.sockets else h.sockets ++ ws ∷ [] })

unfoldable pub discard : ℕ → Hub → Hub
unfolding filter_by
discard ws h = record h { sockets = filter_by (λ x. not (x == ws)) h.sockets }

abbrev pub wake_from : Phase → Hub → Hub
wake_from waiting h =
    if h.dirty
    then record h { dirty = false; phase = if is_nil h.sockets then waiting else computing true }
    else h
wake_from other h = h

-- The event is set: the wait is over, with or without a timeout.
unfoldable pub wake : Hub → Hub
wake h = wake_from h.phase h

abbrev pub time_out_from : Phase → Hub → Hub
time_out_from waiting h = if is_nil h.sockets then h else record h { phase = computing false }
time_out_from other h = h

-- The refresh interval is over; only a wait with subscribers has one.
unfoldable pub time_out : Hub → Hub
time_out h = time_out_from h.phase h

abbrev pub is_last : Option Text → Text → Bool
is_last none payload = false
is_last (some last) payload = last == payload

abbrev pub compute_from : Phase → Text → Hub → Hub × List ℕ
compute_from (computing triggered) payload h =
    if triggered || not (is_last h.last_payload payload)
    then (
      record h {
        last_payload = some payload;
        phase = if is_nil h.sockets then waiting else sending;
      },
      h.sockets,
    )
    else (record h { last_payload = some payload; phase = waiting }, [])
compute_from other payload h = (h, [])

-- The snapshot is there: the sockets that it is sent to.
unfoldable pub compute : Text → Hub → Hub × List ℕ
compute payload h = compute_from h.phase payload h

abbrev pub fail_from : Phase → Hub → Hub
fail_from (computing triggered) h = record h { phase = waiting }
fail_from other h = h

-- The snapshot raises.
unfoldable pub fail : Hub → Hub
fail h = fail_from h.phase h

unfoldable pub drop_all : List ℕ → Hub → Hub
unfolding discard
drop_all [] h = h
drop_all (ws ∷ failed) h = drop_all failed (discard ws h)

abbrev pub finish_from : Phase → List ℕ → Hub → Hub
finish_from sending failed h = record (drop_all failed h) { phase = waiting }
finish_from other failed h = h

-- The sends are over: the sockets whose send failed are dropped.
unfoldable pub finish : List ℕ → Hub → Hub
unfolding drop_all
finish failed h = finish_from h.phase failed h
