-- ===== src/Manager/Single.antt =====
-- server/session.py, class `SessionManager`: what its operations leave of the invariant.
use wterm.Prelude.{
  ℕ, ◌≡◌, ◌⊎◌, refl, ap, ◌∙◌, Bool, true, false, ◌&&◌, none, some, List, arith, Text, Option-cases,
  Bool-cases, inl, inr, nat_key, list_key, eqb_iff,
}
use wterm.OrderedDict.{get, remove}
use wterm.Session.{Session, Spec}
use wterm.Session.Lifecycle.{cancel_grace, drop_old, terminate}
use wterm.Manager.{
  Manager, update, get_live, replaced, start_locked, ended, end, is_registered, abandoned,
  expire_grace, idled, is_alive?, expire_idle,
}
use wterm.Manager.Frames.{
  is_live, IsSame, IsEnded, drop_old-IsSame, terminate-IsEnded, notify_and_terminate-IsEnded,
}
use wterm.Manager.Kept.{
  IsSingle, NoneLive, Keeps, update-IsSingle, remove-IsSingle, missing-NoneLive, dead-NoneLive,
  ended-NoneLive, register-IsSingle,
}

pub Keeps-same : (f : Session → Session) → ((s : Session) → IsSame (f s) s) → Keeps f
Keeps-same f same s =
    let (a, b, c) = same s in (ap (λ spec. spec.project_name) a, λ l. ground (arith, b, c))

pub dead-live : (s : Session) → s.alive ≡ false → is_live s ≡ false
dead-live s dead = rw dead

pub Keeps-ended : (f : Session → Session) → ((s : Session) → IsEnded (f s) s) → Keeps f
Keeps-ended f done s =
    let (a, dead) = done s in
    (ap (λ spec. spec.project_name) a, λ l. absurd (let d = dead-live (f s) dead in cc))

replaced-IsEnded : (polls : List Bool) (s : Session) → IsEnded (replaced polls s) s
unfolding cancel_grace
replaced-IsEnded polls s =
    let (a, dead) = terminate-IsEnded polls (drop_old s.websocket (cancel_grace s)) in
    (a ∙ (drop_old-IsSame s.websocket (cancel_grace s)).0, dead)

ended_ended : (polls : List Bool) (s : Session) → IsEnded (ended polls s) s
unfolding cancel_grace
ended_ended polls s = notify_and_terminate-IsEnded _ 4409 _ polls (cancel_grace s)

-- The answers of `get_live`.
pub get_live-cases :
    (key : Text) (m : Manager)
    → IsSingle m
    → (((get_live key m).1 ≡ none) × IsSingle (get_live key m).0 × NoneLive key (get_live key m).0)
      ⊎ ((id : ℕ) × (s : Session) × (get_live key m ≡ (m, some id))
          × (get key m.sessions ≡ some id)
          × (get id m.store ≡ some s))
unfolding get_live
get_live-cases key m i = elim (Option-cases (get key m.sessions)) [
  | inl missing ↦ inl (rw (missing, get_live) (refl, i, missing-NoneLive key m i missing))
  | inr (id, entry) ↦
      let (s, found, name) = i.named key id entry in
      elim (Bool-cases s.alive) [
        | inr dead ↦
            let none_live = dead-NoneLive key id s m i entry found (dead-live s dead) in
            inl (
              rw (entry, get_live, found, dead)
                (refl, remove-IsSingle key m none_live i, none_live))
        | inl alive ↦ elim (Bool-cases s.terminating) [
          | inl ending ↦
              let none_live = dead-NoneLive key id s m i entry found (rw (alive, ending)) in
              inl (rw (entry, get_live, found, alive, ending) (refl, i, none_live))
          | inr live ↦ inr (id, s, rw (entry, get_live, found, alive, live), entry, found)
        ]
      ]
]

pub get_live-IsSingle : (key : Text) (m : Manager) → IsSingle m → IsSingle (get_live key m).0
get_live-IsSingle key m i = elim (get_live-cases key m i) [
  | inl (none_there, kept, none_live) ↦ kept
  | inr (id, s, there, entry, found) ↦ rw there i
]

-- Ending the session that is the entry of a name, and forgetting it.
end_entry :
    (key : Text) (id : ℕ) (f : Session → Session) (m : Manager) (s : Session)
    → ((t : Session) → IsEnded (f t) t)
    → IsSingle m
    → get key m.sessions ≡ some id
    → get id m.store ≡ some s
    → let left = update id f m in
      let after = record left { sessions = remove key left.sessions } in
      IsSingle after × NoneLive key after
end_entry key id f m s done i entry found =
    let kept = update-IsSingle id f m (Keeps-ended f done) i in
    let none_live = ended-NoneLive key id f m s kept entry found (dead-live (f s) (done s).1) in
    (remove-IsSingle key (update id f m) none_live kept, none_live)

pub start_locked-IsSingle :
    (now fd : ℕ) (polls : List Bool) (key : Text) (spec : Spec) (m : Manager)
    → IsSingle m
    → IsSingle (start_locked now fd polls key spec m).0
unfolding start_locked
start_locked-IsSingle now fd polls key spec m i = elim (get_live-cases key m i) [
  | inl (none_there, kept, none_live) ↦
      rw (none_there, start_locked) (register-IsSingle now fd key spec _ none_live kept)
  | inr (id, s, there, entry, found) ↦
      let (kept, none_live) =
        end_entry key id (replaced polls) m s (replaced-IsEnded polls) i entry found in
      rw (there, start_locked) (register-IsSingle now fd key spec _ none_live kept)
]

-- After an end, whatever was there, no session of the key is live.
pub end-IsSingle :
    (polls : List Bool) (key : Text) (m : Manager)
    → IsSingle m
    → IsSingle (end polls key m).0 × NoneLive key (end polls key m).0
unfolding end
end-IsSingle polls key m i = elim (get_live-cases key m i) [
  | inl (none_there, kept, none_live) ↦ rw (none_there, end) (kept, none_live)
  | inr (id, s, there, entry, found) ↦
      rw (there, end) (end_entry key id (ended polls) m s (ended_ended polls) i entry found)
]

pub is_registered-get :
    (key : Text) (id : ℕ) (m : Manager)
    → is_registered key id m ≡ true
    → get key m.sessions ≡ some id
is_registered-get key id m h = elim (Option-cases (get key m.sessions)) [
  | inl missing ↦ absurd (ground (arith, missing))
  | inr (other, entry) ↦ entry ∙ ap some ((eqb_iff other id).0 (rw (entry, is_registered) at h))
]

pub expire_grace-IsSingle :
    (polls : List Bool) (key : Text) (id : ℕ) (m : Manager)
    → IsSingle m
    → IsSingle (expire_grace polls key id m)
unfolding expire_grace
expire_grace-IsSingle polls key id m i =
    elim (Bool-cases (is_registered key id m && abandoned (get id m.store))) [
      | inr spared ↦ rw (spared, expire_grace) i
      | inl over ↦
          let entry = is_registered-get key id m (ground arith) in
          let (s, found, name) = i.named key id entry in
          rw (over, expire_grace)
            ((end_entry key id (λ s. (terminate polls s).0) m s (terminate-IsEnded polls) i entry
              found).0)
    ]

pub expire_idle-IsSingle :
    (polls : List Bool) (key : Text) (id : ℕ) (m : Manager)
    → IsSingle m
    → IsSingle (expire_idle polls key id m)
unfolding expire_idle
expire_idle-IsSingle polls key id m i =
    elim (Bool-cases (is_registered key id m && is_alive? (get id m.store))) [
      | inr spared ↦ rw (spared, expire_idle) i
      | inl over ↦
          let entry = is_registered-get key id m (ground arith) in
          let (s, found, name) = i.named key id entry in
          rw (over, expire_idle)
            ((end_entry key id (idled polls) m s
              (λ t. notify_and_terminate-IsEnded _ 4408 _ polls t) i entry found).0)
    ]
