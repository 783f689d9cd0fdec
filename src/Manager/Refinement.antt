-- ===== src/Manager/Refinement.antt =====
-- server/session.py, class `SessionManager`: what it promises to the routes. Seen through `get_live`,
-- it is a map from keys to sessions.
use wterm.Prelude.{
  ℕ, suc, ◌≡◌, refl, sym, ap, ◌∙◌, Bool, true, false, Option, none, some, List, [], ◌∷◌, Text, All,
  Option-cases, inl, inr, ==_cases, ◌==◌, nat_key, list_key, if◌then◌else◌,
}
use wterm.Session.{Spec}
use wterm.Session.Lifecycle.{attach, detach}
use wterm.Manager.{
  Manager, init, get_live, start_locked, ended, end_existing, end, Op, starts, ends, looks,
  attaches, detaches, grace_over, idle_over, exits, shuts, step, run,
}
use wterm.Manager.Frames.{attach-IsSame, detach-IsSame}
use wterm.Manager.Kept.{IsSingle, NoneLive, update_frame}
use wterm.Manager.Live.{step-IsSingle, run-IsSingle, init-IsSingle, start_locked-get_live}
use wterm.Manager.Single.{end-IsSingle}
use wterm.Manager.Spared.{
  get_live-update, get_live-found, get_live_next, get_live_twice, clear_next, other_name,
}
use wterm.Manager.Agreement.{Agrees-get_live, look-Agrees, start_locked-Agrees, end-Agrees}

-- The abstract state: the session of each key, and the number of the next one.
pub record Table : Type 0 where
  pub live : Text → Option ℕ
  pub next : ℕ

abbrev pub view : Manager → Table
view m = record { live = λ key. (get_live key m).1; next = m.next }

abbrev pub assign : Text → Option ℕ → (Text → Option ℕ) → Text → Option ℕ
assign key value live k = if key == k then value else live k

-- What the routes ask for.
abbrev pub is_request : Op → Bool
is_request (starts now fd polls key spec) = true
is_request (ends polls key) = true
is_request (looks key) = true
is_request (attaches now ws id) = true
is_request (detaches ws id) = true
is_request (grace_over polls key id) = false
is_request (idle_over polls key id) = false
is_request (exits id code) = false
is_request (shuts polls) = false

-- The specification: a start gives the key a new session, an end takes it away.
abbrev pub spec_step : Op → Table → Table
spec_step (starts now fd polls key spec) t = record {
  live = assign key (some t.next) t.live;
  next = suc t.next;
}
spec_step (ends polls key) t = record t { live = assign key none t.live }
spec_step other t = t

abbrev pub spec_run : List Op → Table → Table
spec_run [] t = t
spec_run (op ∷ ops) t = spec_run ops (spec_step op t)

start_locked_next :
    (now fd : ℕ) (polls : List Bool) (key : Text) (spec : Spec) (m : Manager)
    → ((start_locked now fd polls key spec m).1 ≡ m.next)
      × ((start_locked now fd polls key spec m).0.next ≡ suc m.next)
unfolding start_locked
start_locked_next now fd polls key spec m =
    let m' : Manager = (get_live key m).0 in
    let next = clear_next polls key (get_live key m).1 m' ∙ get_live_next key m in
    (next, ap (λ n. suc n) next)

start-view :
    (now fd : ℕ) (polls : List Bool) (key k : Text) (spec : Spec) (m : Manager)
    → IsSingle m
    → (get_live k (start_locked now fd polls key spec m).0).1
      ≡ assign key (some m.next) (λ j. (get_live j m).1) k
start-view now fd polls key k spec m i = elim (==_cases key k) [
  | inl (same, e) ↦ rw same (
      ap (λ j. (get_live j (start_locked now fd polls key spec m).0).1) (sym e)
      ∙ start_locked-get_live now fd polls key spec m
      ∙ ap some (start_locked_next now fd polls key spec m).0)
  | inr other ↦ rw other (
      Agrees-get_live k m (start_locked now fd polls key spec m).0
        (start_locked-Agrees now fd polls key k spec m i other))
]

NoneLive-get_live :
    (key : Text) (m : Manager) → IsSingle m → NoneLive key m → (get_live key m).1 ≡ none
NoneLive-get_live key m i nobody = elim (Option-cases (get_live key m).1) [
  | inl nothing ↦ nothing
  | inr (id, there) ↦
      let (s, _, found, living) = get_live-found key m id there in
      absurd (other_name key id m s i found (nobody id s found living) there)
]

end-view :
    (polls : List Bool) (key k : Text) (m : Manager)
    → IsSingle m
    → (get_live k (end polls key m).0).1 ≡ assign key none (λ j. (get_live j m).1) k
end-view polls key k m i = elim (==_cases key k) [
  | inl (same, e) ↦
      let (kept, nobody) = end-IsSingle polls key m i in
      rw same (
        ap (λ j. (get_live j (end polls key m).0).1) (sym e)
        ∙ NoneLive-get_live key (end polls key m).0 kept nobody)
  | inr other ↦
      rw other (Agrees-get_live k m (end polls key m).0 (end-Agrees polls key k m i other))
]

end_existing_next :
    (polls : List Bool) (key : Text) (existing : Option ℕ) (m : Manager)
    → (end_existing polls key existing m).0.next ≡ m.next
end_existing_next polls key none m = refl
end_existing_next polls key (some id) m = (update_frame id (ended polls) m).1

end_next : (polls : List Bool) (key : Text) (m : Manager) → (end polls key m).0.next ≡ m.next
unfolding end
end_next polls key m =
    end_existing_next polls key (get_live key m).1 (get_live key m).0 ∙ get_live_next key m

pub look-view : (key k : Text) (m : Manager) → (get_live k (get_live key m).0).1 ≡ (get_live k m).1
look-view key k m = elim (==_cases key k) [
  | inl (_, e) ↦
      ap (λ j. (get_live j (get_live key m).0).1) (sym e)
      ∙ get_live_twice key m
      ∙ ap (λ j. (get_live j m).1) e
  | inr other ↦ Agrees-get_live k m (get_live key m).0 (look-Agrees key k m other)
]

-- Two states of the table are the same if they answer the same.
table :
    (m : Manager) (t : Table)
    → ((k : Text) → (get_live k m).1 ≡ t.live k)
    → m.next ≡ t.next
    → view m ≡ t
table m t same next = λ i. record { live = λ k. same k i; next = next i }

step-view :
    (op : Op) (m : Manager)
    → IsSingle m
    → is_request op ≡ true
    → view (step op m) ≡ spec_step op (view m)
unfolding step
step-view (starts now fd polls key spec) m i asked =
    table _ _ (λ k. start-view now fd polls key k spec m i)
      (start_locked_next now fd polls key spec m).1
step-view (ends polls key) m i asked =
    table _ _ (λ k. end-view polls key k m i) (end_next polls key m)
step-view (looks key) m i asked = table _ _ (λ k. look-view key k m) (get_live_next key m)
step-view (attaches now ws id) m i asked =
    table _ _ (λ k. get_live-update k id (λ s. (attach now ws s).0) m (attach-IsSame now ws))
      (update_frame id (λ s. (attach now ws s).0) m).1
step-view (detaches ws id) m i asked =
    table _ _ (λ k. get_live-update k id (detach ws) m (detach-IsSame ws))
      (update_frame id (detach ws) m).1
step-view (grace_over polls key id) m i asked = absurd (cc)
step-view (idle_over polls key id) m i asked = absurd (cc)
step-view (exits id code) m i asked = absurd (cc)
step-view (shuts polls) m i asked = absurd (cc)

pub requests-view :
    (ops : List Op) (m : Manager)
    → IsSingle m
    → All (λ op. is_request op ≡ true) ops
    → view (run ops m) ≡ spec_run ops (view m)
unfolding run
requests-view [] m i asked = refl
requests-view (op ∷ ops) m i asked =
    requests-view ops (step op m) (step-IsSingle op m i) asked.1
    ∙ ap (spec_run ops) (step-view op m i asked.0)

-- The manager is a map from keys to live sessions. Whatever has happened since the server began, and
-- whatever is then asked of it, by starts, ends, looks, attaches and detaches in any order: seen
-- through `get_live` it answers as the map in which a start gives its key a session with a new
-- number, an end takes the key out, and nothing else changes anything, for this key or another.
pub run-view :
    (grace idle : ℕ) (before ops : List Op)
    → All (λ op. is_request op ≡ true) ops
    → let m = run before (init grace idle) in view (run ops m) ≡ spec_run ops (view m)
run-view grace idle before ops asked =
    requests-view ops (run before (init grace idle))
      (run-IsSingle before (init grace idle) (init-IsSingle grace idle)) asked
