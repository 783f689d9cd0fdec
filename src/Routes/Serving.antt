-- ===== src/Routes/Serving.antt =====
-- server/main.py, `terminal_ws`: which frames count, and what the end of a terminal leaves behind.
use wterm.Prelude.{
  ◌⊎◌, Option, Text, codes, list_key, ==_cases, ℕ, ◌≡◌, ◌≢◌, refl, sym, ap, ◌∙◌, none, some, List,
  [], ◌∷◌, nat_key, inl, inr, ==_refl,
}
use wterm.Prelude.Int.{ℤ}
use wterm.Json.{Json, Members, find}
use wterm.OrderedDict.{get}
use wterm.OrderedDict.Laws.{get-remove}
use wterm.Auth.{Auth, unregister_socket}
use wterm.Session.{Session}
use wterm.Session.Input.{WriteResult}
use wterm.Session.Lifecycle.Attachment.{detach_grace}
use wterm.Routes.Messages.{
  Frame, parsed, malformed, binary, unparsable, closed, quiet, goes_on, as_text, as_int, both_ints,
  message_of_kind, message_of_members, message_of, obey, hear, Frames, listen, leave, serve,
}

abbrev IsText : Option Json → Type 0
IsText (some (Json.str t)) = Unit
IsText other = ⊥

-- An integer, as Python has it: a Boolean is one.
abbrev IsInteger : Option Json → Type 0
IsInteger (some (Json.int n)) = Unit
IsInteger (some (Json.bool b)) = Unit
IsInteger other = ⊥

-- An input with a text, or a resize with two integers, by the values of "type", "data", "cols", "rows".
abbrev IsForm : Option Json → Option Json → Option Json → Option Json → Type 0
IsForm (some (Json.str kind)) data_ cols rows =
    ((kind ≡ codes "input") × IsText data_)
    ⊎ ((kind ≡ codes "resize") × IsInteger cols × IsInteger rows)
IsForm other data_ cols rows = ⊥

abbrev pub IsMessage : Json → Type 0
IsMessage (Json.object members) =
    IsForm (find (codes "type") members) (find (codes "data") members) (find (codes "cols") members)
      (find (codes "rows") members)
IsMessage other = ⊥

-- A frame that is binary, no JSON, or no message. One on whose text the parser raises anything else than
-- a JSONDecodeError is none of these.
abbrev pub IsIdle : Frame → Type 0
IsIdle (parsed value) = ¬ (IsMessage value)
IsIdle malformed = Unit
IsIdle binary = Unit
IsIdle unparsable = ⊥
IsIdle closed = ⊥

-- The second sequence is the first one without some of its idle frames.
pub data Thinned : Frames → Frames → Type 0 where
  done : Thinned [] []
  keep :
      {frames rest : Frames} (f : ℕ × List WriteResult × Frame)
      → Thinned frames rest
      → Thinned (f ∷ frames) (f ∷ rest)
  leave_out :
      {frames rest : Frames} (now : ℕ) (answers : List WriteResult) (frame : Frame)
      → IsIdle frame
      → Thinned frames rest
      → Thinned ((now, answers, frame) ∷ frames) rest

IsText-cases : (d : Option Json) → IsText d ⊎ (as_text d ≡ none)
IsText-cases none = inr refl
IsText-cases (some Json.null) = inr refl
IsText-cases (some (Json.bool b)) = inr refl
IsText-cases (some (Json.int n)) = inr refl
IsText-cases (some Json.float) = inr refl
IsText-cases (some (Json.str t)) = inl tt
IsText-cases (some (Json.array items)) = inr refl
IsText-cases (some (Json.object members)) = inr refl

IsInteger-cases : (d : Option Json) → IsInteger d ⊎ (as_int d ≡ none)
IsInteger-cases none = inr refl
IsInteger-cases (some Json.null) = inr refl
IsInteger-cases (some (Json.bool b)) = inl tt
IsInteger-cases (some (Json.int n)) = inl tt
IsInteger-cases (some Json.float) = inr refl
IsInteger-cases (some (Json.str t)) = inr refl
IsInteger-cases (some (Json.array items)) = inr refl
IsInteger-cases (some (Json.object members)) = inr refl

both_ints-none : (cols : Option ℤ) → both_ints cols none ≡ none
both_ints-none none = refl
both_ints-none (some n) = refl

none-both_ints : (rows : Option ℤ) → both_ints none rows ≡ none
none-both_ints none = refl
none-both_ints (some n) = refl

IsForm-kind :
    (kind : Text) (members : Members)
    → IsForm
        (some (Json.str kind))
        (find (codes "data") members)
        (find (codes "cols") members)
        (find (codes "rows") members)
      ⊎ (message_of_kind kind members ≡ none)
IsForm-kind kind members = elim (==_cases kind (codes "input")) [
  | inl (same, e) ↦ elim (IsText-cases (find (codes "data") members)) [
    | inl good ↦ inl (inl (e, good))
    | inr bad ↦ inr (rw (same, bad))
  ]
  | inr differs ↦ elim (==_cases kind (codes "resize")) [
    | inr neither ↦ inr (rw (differs, neither))
    | inl (same, e) ↦ elim (IsInteger-cases (find (codes "cols") members)) [
      | inr bad ↦
          inr (rw (differs, same, bad) (none-both_ints (as_int (find (codes "rows") members))))
      | inl wide ↦ elim (IsInteger-cases (find (codes "rows") members)) [
        | inr bad ↦
            inr (rw (differs, same, bad) (both_ints-none (as_int (find (codes "cols") members))))
        | inl high ↦ inl (inr (e, wide, high))
      ]
    ]
  ]
]

IsForm-members :
    (kind : Option Json) (members : Members)
    → IsForm kind
        (find (codes "data") members)
        (find (codes "cols") members)
        (find (codes "rows") members)
      ⊎ (message_of_members (as_text kind) members ≡ none)
IsForm-members none members = inr refl
IsForm-members (some Json.null) members = inr refl
IsForm-members (some (Json.bool b)) members = inr refl
IsForm-members (some (Json.int n)) members = inr refl
IsForm-members (some Json.float) members = inr refl
IsForm-members (some (Json.str kind)) members = IsForm-kind kind members
IsForm-members (some (Json.array items)) members = inr refl
IsForm-members (some (Json.object inner)) members = inr refl

IsMessage-cases : (value : Json) → IsMessage value ⊎ (message_of value ≡ none)
unfolding message_of
IsMessage-cases Json.null = inr refl
IsMessage-cases (Json.bool b) = inr refl
IsMessage-cases (Json.int n) = inr refl
IsMessage-cases Json.float = inr refl
IsMessage-cases (Json.str t) = inr refl
IsMessage-cases (Json.array items) = inr refl
IsMessage-cases (Json.object members) = IsForm-members (find (codes "type") members) members

hear_idle :
    (now : ℕ) (answers : List WriteResult) (frame : Frame) (s : Session)
    → IsIdle frame
    → hear now answers frame s ≡ quiet goes_on s
unfolding hear
hear_idle now answers (parsed value) s h = elim (IsMessage-cases value) [
  | inl message ↦ absurd (h message)
  | inr nothing ↦ ap (λ m. obey now answers m s) nothing
]
hear_idle now answers malformed s h = refl
hear_idle now answers binary s h = refl
hear_idle now answers unparsable s h = absurd h
hear_idle now answers closed s h = absurd h

-- What is no message has no effect. Frames that are binary, texts that are not JSON, and values that are
-- no object with the type "input" and a text, or with the type "resize" and two integers, may be left
-- out of any sequence of frames: the session, the bytes and sizes for the PTY, and the end of the loop
-- are the same. A text on which the parser raises anything else than a JSONDecodeError, as for a number
-- of too many digits, is not meant: it ends the loop.
pub listen-Thinned :
    (frames rest : Frames) (s : Session) → Thinned frames rest → listen rest s ≡ listen frames s
unfolding listen
listen-Thinned _ _ s done = refl
listen-Thinned _ _ s (keep {frames = frames} {rest = rest} (now, answers, frame) t) =
    rw (listen-Thinned frames rest (hear now answers frame s).session t)
listen-Thinned _ _ s (leave_out {frames = frames} {rest = rest} now answers frame idle t) =
    rw (hear_idle now answers frame s idle) (listen-Thinned frames rest s t)

-- A terminal cleans up behind itself. Whatever frames it got and however its loop ended, its socket
-- is not attached to the session any more, and the authentication knows neither a token nor a
-- closer of it.
pub serve-websocket :
    (ws : ℕ) (frames : Frames) (s : Session) (a : Auth)
    → let (served, left, unregistered) = serve ws frames s a in
      (left.websocket ≢ some ws)
      × (get ws unregistered.ws_tokens ≡ none)
      × (get ws unregistered.ws_closers ≡ none)
unfolding serve leave unregister_socket
serve-websocket ws frames s a = (
  elim (detach_grace ws (listen frames s).session) [
    | inl (_, gone, _) ↦ λ e. cc
    | inr (other, same) ↦ λ e. other (ap (λ k. k.websocket) (sym same) ∙ e)
  ],
  rw (get-remove ws ws a.ws_tokens, ==_refl ws),
  rw (get-remove ws ws a.ws_closers, ==_refl ws),
)
