-- ===== src/Manager/Kept.antt =====
-- The invariant of the session map, and what the changes of the map and of a session do to it.
use wterm.Prelude.{
  ℕ, ◌≤◌, ◌≡◌, ◌≢◌, refl, sym, ap, ◌∙◌, true, false, Option, none, some, arith, Text, Option-cases,
  Bool-cases, inl, inr, ◌==◌, ==_refl, ==_cases, nat_key, list_key, equal_list_iff, if◌then◌else◌,
  subst,
}
use wterm.OrderedDict.{get, put, remove}
use wterm.OrderedDict.Laws.{get-remove, get-put}
use wterm.Session.{Session, Spec, create}
use wterm.Session.Lifecycle.{spawn}
use wterm.Manager.{Manager, update, register, fresh_session}
use wterm.Manager.Frames.{is_live}

-- Each entry of the map is a session of that name, and each live session is the entry of its name.
pub record IsSingle (m : Manager) : Type 0 where
  pub named :
      (key : Text) (id : ℕ)
      → get key m.sessions ≡ some id
      → (s : Session) × (get id m.store ≡ some s) × (s.project_name ≡ key)
  pub registered :
      (id : ℕ) (s : Session)
      → get id m.store ≡ some s
      → is_live s ≡ true
      → get s.project_name m.sessions ≡ some id
  pub unused : (id : ℕ) → m.next ≤ id → get id m.store ≡ none

-- No live session has the name.
abbrev pub NoneLive : Text → Manager → Type 0
NoneLive key m =
    (id : ℕ) (s : Session) → get id m.store ≡ some s → is_live s ≡ true → s.project_name ≢ key

-- An operation of a session that keeps its name and brings no session back to life.
abbrev pub Keeps : (Session → Session) → Type 0
Keeps f =
    (s : Session)
    → ((f s).project_name ≡ s.project_name) × (is_live (f s) ≡ true → is_live s ≡ true)

abbrev pub changed : (Session → Session) → Option Session → Option Session
changed f none = none
changed f (some s) = some (f s)

pub get-update :
    (id j : ℕ) (f : Session → Session) (m : Manager)
    → get j (update id f m).store ≡ (if id == j then changed f (get j m.store) else get j m.store)
unfolding update
get-update id j f m = elim (Option-cases (get id m.store)) [
  | inl missing ↦ elim (==_cases id j) [
    | inl (same, p) ↦
        let here : get j m.store ≡ none = ap (λ i. get i m.store) (sym p) ∙ missing in
        rw (missing, update, same, here)
    | inr other ↦ rw (missing, update, other)
  ]
  | inr (s, found) ↦ elim (==_cases id j) [
    | inl (same, p) ↦
        let here : get j m.store ≡ some s = ap (λ i. get i m.store) (sym p) ∙ found in
        rw (found, update, get-put id j (f s) m.store, same, here)
    | inr other ↦ rw (found, update, get-put id j (f s) m.store, other)
  ]
]

pub get-update_self :
    (id : ℕ) (f : Session → Session) (m : Manager) (s : Session)
    → get id m.store ≡ some s
    → get id (update id f m).store ≡ some (f s)
get-update_self id f m s found = rw (get-update id id f m, ==_refl id, found)

pub update_frame :
    (id : ℕ) (f : Session → Session) (m : Manager)
    → ((update id f m).sessions ≡ m.sessions) × ((update id f m).next ≡ m.next)
unfolding update
update_frame id f m = elim (Option-cases (get id m.store)) [
  | inl missing ↦ (rw (missing, update), rw (missing, update))
  | inr (s, found) ↦ (rw (found, update), rw (found, update))
]

-- What stands under the number after a change is the changed session.
pub update_at :
    (id : ℕ) (f : Session → Session) (m : Manager) (t : Session)
    → get id (update id f m).store ≡ some t
    → (s : Session) × (t ≡ f s)
update_at id f m t h = elim (Option-cases (get id m.store)) [
  | inl missing ↦ absurd (ground (arith, missing, get-update id id f m))
  | inr (s, found) ↦ (s, let there = get-update_self id f m s found in cc)
]

-- Where a session of the changed store comes from.
pub update_from :
    (id j : ℕ) (f : Session → Session) (m : Manager) (t : Session)
    → Keeps f
    → get j (update id f m).store ≡ some t
    → (s : Session) × (get j m.store ≡ some s)
      × (t.project_name ≡ s.project_name)
      × (is_live t ≡ true → is_live s ≡ true)
update_from id j f m t keeps h = elim (Option-cases (get j m.store)) [
  | inl missing ↦ absurd (ground (arith, missing, get-update id j f m))
  | inr (s, found) ↦ elim (Bool-cases (id == j)) [
    | inl same ↦
        let here : some (f s) ≡ some t = (rw (get-update id j f m, same, found) at h) in
        let (name, living) = keeps s in (s, found, cc, λ l. living (cc))
    | inr other ↦
        let here : some s ≡ some t = (rw (get-update id j f m, other, found) at h) in
        (s, found, cc, λ l. cc)
  ]
]

update_to :
    (id j : ℕ) (f : Session → Session) (m : Manager) (s : Session)
    → Keeps f
    → get j m.store ≡ some s
    → (t : Session) × (get j (update id f m).store ≡ some t) × (t.project_name ≡ s.project_name)
update_to id j f m s keeps found = elim (Bool-cases (id == j)) [
  | inl same ↦ (f s, rw (get-update id j f m, same, found), (keeps s).0)
  | inr other ↦ (s, rw (get-update id j f m, other, found), refl)
]

pub update-IsSingle :
    (id : ℕ) (f : Session → Session) (m : Manager) → Keeps f → IsSingle m → IsSingle (update id f m)
update-IsSingle id f m keeps i =
    let (same, next) = update_frame id f m in
    record {
      named = λ key j h.
          let (s, found, name) = i.named key j (ap (get key) (sym same) ∙ h) in
          let (t, kept, name') = update_to id j f m s keeps found in (t, kept, name' ∙ name);
      registered = λ j t h living.
          let (s, found, name, living') = update_from id j f m t keeps h in
          ap (λ d. get t.project_name d) same
          ∙ ap (λ k. get k m.sessions) name
          ∙ i.registered j s found (living' living);
      unused = λ j h.
          let missing = i.unused j (subst (λ n. n ≤ j) next h) in
          ground (arith, missing, get-update id j f m);
    }

-- Forgetting the entry of a name that no live session has.
pub remove-IsSingle :
    (key : Text) (m : Manager)
    → NoneLive key m
    → IsSingle m
    → IsSingle (record m { sessions = remove key m.sessions })
remove-IsSingle key m gone i = record {
  named = λ k id h. i.named k id (ground (arith, get-remove key k m.sessions));
  registered = λ id s h living.
      let entry = i.registered id s h living in
      elim (==_cases key s.project_name) [
        | inl (same, p) ↦ absurd (gone id s h living (sym p))
        | inr other ↦ rw (get-remove key s.project_name m.sessions, other) entry
      ];
  unused = i.unused;
}

-- A name has no live session if it has no entry, or a dead one.
pub missing-NoneLive :
    (key : Text) (m : Manager) → IsSingle m → get key m.sessions ≡ none → NoneLive key m
missing-NoneLive key m i missing id s h living name =
    let entry : get key m.sessions ≡ some id =
      ap (λ k. get k m.sessions) (sym name) ∙ i.registered id s h living in
    cc

pub dead-NoneLive :
    (key : Text) (id : ℕ) (s : Session) (m : Manager)
    → IsSingle m
    → get key m.sessions ≡ some id
    → get id m.store ≡ some s
    → is_live s ≡ false
    → NoneLive key m
dead-NoneLive key id s m i entry found dead j t h living name =
    let entry' : get key m.sessions ≡ some j =
      ap (λ k. get k m.sessions) (sym name) ∙ i.registered j t h living in
    cc

-- A name whose entry was just ended has no live session.
pub ended-NoneLive :
    (key : Text) (id : ℕ) (f : Session → Session) (m : Manager) (s : Session)
    → IsSingle (update id f m)
    → get key m.sessions ≡ some id
    → get id m.store ≡ some s
    → is_live (f s) ≡ false
    → NoneLive key (update id f m)
ended-NoneLive key id f m s i entry found dead =
    dead-NoneLive key id (f s) (update id f m) i (ap (get key) (update_frame id f m).0 ∙ entry)
      (get-update_self id f m s found) dead

-- A new session under a name that no live session has.
pub register-IsSingle :
    (now fd : ℕ) (key : Text) (spec : Spec) (m : Manager)
    → NoneLive key m
    → IsSingle m
    → IsSingle (register now fd key spec m).0
unfolding spawn create
register-IsSingle now fd key spec m gone i =
    let new : Session = fresh_session now fd key spec m in
    record {
      named = λ k id h. elim (==_cases key k) [
        | inl (same, p) ↦
            let here : m.next ≡ id = ground (arith, get-put key k m.next m.sessions) in
            (
              new,
              ap (λ j. get j (put m.next new m.store)) (sym here)
                  ∙ rw (get-put m.next m.next new m.store, ==_refl m.next),
              p,
            )
        | inr other ↦
            let (s, found, name) =
              i.named k id (rw (get-put key k m.next m.sessions, other) at h) in
            elim (==_cases m.next id) [
              | inl (same, p) ↦ absurd (let none_there = i.unused id (omega arith) in cc)
              | inr different ↦ (s, rw (get-put m.next id new m.store, different) found, name)
            ]
      ];
      registered = λ id s h living. elim (==_cases m.next id) [
        | inl (same, p) ↦
            let here : some new ≡ some s = (rw (get-put m.next id new m.store, same) at h) in
            let name : key ≡ s.project_name = cc in
            rw (get-put key s.project_name m.next m.sessions)
              (ground (arith, equal_list_iff key s.project_name))
        | inr different ↦
            let before : get id m.store ≡ some s =
              (rw (get-put m.next id new m.store, different) at h) in
            elim (==_cases key s.project_name) [
              | inl (_, p) ↦ absurd (gone id s before living (sym p))
              | inr other ↦
                  rw (get-put key s.project_name m.next m.sessions, other)
                    (i.registered id s before living)
            ]
      ];
      unused = λ id h. elim (==_cases m.next id) [
        | inl (same, p) ↦ absurd (omega arith)
        | inr different ↦ rw (get-put m.next id new m.store, different) (i.unused id (omega arith))
      ];
    }
