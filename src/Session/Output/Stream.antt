-- ===== src/Session/Output/Stream.antt =====
-- What an attached client receives: the output in its order, with nothing lost.
use wterm.Prelude.{
  ◌≡◌, refl, sym, ◌∙◌, true, false, Option, List, [], ◌∷◌, ◌++◌, arith, is_some, some, none,
  append-nil, append_assoc, Option-cases, inl, inr, nat_key,
}
use wterm.Session.{Session, Bytes, Outbound, bytes, text, close}
use wterm.Session.Output.{
  ReadResult, got, nothing_yet, read_error, keep_recent, on_pty_readable, enqueue_outbound,
  count_in, pause_pty_reader, resume_pty_reader, writer_take, writer_done, settle, ends_writer,
}
use wterm.Session.Output.Pressure.{Event, reads, tells, closes, takes, sends, stops, step}

abbrev pub content : Outbound → Bytes
content (bytes chunk) = chunk
content other = []

abbrev pub content? : Option Outbound → Bytes
content? none = []
content? (some item) = content item

abbrev pub contents : List Outbound → Bytes
contents [] = []
contents (item ∷ queue) = content item ++ contents queue

abbrev pub contents? : Option (List Outbound) → Bytes
contents? none = []
contents? (some queue) = contents queue

-- The bytes on their way to the client.
abbrev pub on_the_way : Session → Bytes
on_the_way s = content? s.in_flight ++ contents? s.out_queue

contents-append :
    (queue : List Outbound) (item : Outbound)
    → contents (queue ++ item ∷ []) ≡ contents queue ++ content item
contents-append [] item = append-nil (content item)
contents-append (x ∷ queue) item =
    rw (contents-append queue item) (sym (append_assoc (content x) (contents queue) (content item)))

-- What an event hands to the client.
abbrev pub delivered : Event → Session → Bytes
delivered (sends true) s = content? s.in_flight
delivered other s = []

abbrev produced_by : ReadResult → Bytes
produced_by (got chunk) = chunk
produced_by other = []

-- What an event adds.
abbrev pub produced : Event → Bytes
produced (reads now r) = produced_by r
produced other = []

-- An attached client whose writer runs: no step of `attach`, `detach` or a close is in between.
pub record IsAttached (s : Session) : Type 0 where
  pub present : is_some s.websocket ≡ true
  pub writing : is_some s.out_queue ≡ true
  pub open_end : (item : Outbound) → s.in_flight ≡ some item → ends_writer item ≡ false

-- The writer's send succeeds, and its task is not cancelled.
abbrev pub IsSmooth : Event → Type 0
IsSmooth (sends false) = ⊥
IsSmooth (stops ws) = ⊥
IsSmooth other = Unit

pub count_in-rest :
    (item : Outbound) (s : Session)
    → ((count_in item s).in_flight ≡ s.in_flight) × ((count_in item s).out_queue ≡ s.out_queue)
unfolding pause_pty_reader
count_in-rest (bytes chunk) s = ground arith
count_in-rest (text t) s = (refl, refl)
count_in-rest (close code reason) s = (refl, refl)

pub enqueue-on_the_way :
    (item : Outbound) (s : Session)
    → is_some s.out_queue ≡ true
    → on_the_way (enqueue_outbound item s) ≡ on_the_way s ++ content item
unfolding enqueue_outbound
enqueue-on_the_way item s writing = elim (Option-cases s.out_queue) [
  | inl gone ↦ absurd (ground arith)
  | inr (queue, there) ↦
      simp (there, enqueue_outbound, (count_in-rest item s).0, contents-append queue item)
        (sym (append_assoc (content? s.in_flight) (contents queue) (content item)))
]

take-on_the_way :
    (current : Option Outbound) (queue : Option (List Outbound)) (s : Session)
    → s.in_flight ≡ current
    → s.out_queue ≡ queue
    → on_the_way (writer_take s) ≡ on_the_way s
unfolding writer_take
take-on_the_way (some item) queue s e q = simp (e, writer_take)
take-on_the_way none none s e q = simp (e, q, writer_take)
take-on_the_way none (some []) s e q = simp (e, q, writer_take)
take-on_the_way none (some (item ∷ queue)) s e q = simp (e, q, writer_take)

pub settle-rest :
    (item : Outbound) (s : Session)
    → ((settle item s).in_flight ≡ none) × ((settle item s).out_queue ≡ s.out_queue)
unfolding resume_pty_reader
settle-rest (bytes chunk) s = ground arith
settle-rest (text t) s = (refl, refl)
settle-rest (close code reason) s = (refl, refl)

done-on_the_way :
    (current : Option Outbound) (s : Session)
    → s.in_flight ≡ current
    → ((item : Outbound) → s.in_flight ≡ some item → ends_writer item ≡ false)
    → content? s.in_flight ++ on_the_way (writer_done true s) ≡ on_the_way s
unfolding writer_done
done-on_the_way none s e goes_on = simp (e, writer_done)
done-on_the_way (some item) s e goes_on =
    simp (e, writer_done, goes_on item e, (settle-rest item s).0, (settle-rest item s).1)

-- Nothing is lost between the PTY and a client that is attached, whose writer runs and is not sending a
-- close, in a step other than a send that fails or a writer that is stopped: what the step hands over,
-- with what is then on its way, is what was on its way before and then what the step has read.
pub step-on_the_way :
    (e : Event) (s : Session)
    → IsSmooth e
    → IsAttached s
    → delivered e s ++ on_the_way (step e s) ≡ on_the_way s ++ produced e
unfolding step on_pty_readable
step-on_the_way (reads now nothing_yet) s h a = sym (append-nil _)
step-on_the_way (reads now read_error) s h a = sym (append-nil _)
step-on_the_way (reads now (got [])) s h a = sym (append-nil _)
step-on_the_way (reads now (got (b ∷ chunk))) s h a = simp (a.present) (
    enqueue-on_the_way (bytes (b ∷ chunk))
      (record s { last_activity = now; buffer = keep_recent (s.buffer ++ b ∷ chunk) }) a.writing)
step-on_the_way (tells message) s h a = enqueue-on_the_way (text message) s a.writing
step-on_the_way (closes code reason) s h a = enqueue-on_the_way (close code reason) s a.writing
step-on_the_way takes s h a =
    take-on_the_way s.in_flight s.out_queue s refl refl ∙ sym (append-nil _)
step-on_the_way (sends true) s h a =
    done-on_the_way s.in_flight s refl a.open_end ∙ sym (append-nil _)
step-on_the_way (sends false) s h a = absurd h
step-on_the_way (stops ws) s h a = absurd h
