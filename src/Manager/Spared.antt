-- ===== src/Manager/Spared.antt =====
-- server/session.py, class `SessionManager`: what the operations leave of the other sessions.
use wterm.Prelude.{
  ℕ, ◌≡◌, ◌≢◌, refl, sym, ap, ◌∙◌, Bool, true, none, some, List, arith, Text, Option, Bool-cases,
  Option-cases, inl, inr, ==_refl, ==_cases, ◌==◌, nat_key, list_key,
}
use wterm.OrderedDict.{get}
use wterm.OrderedDict.Laws.{get-put, get-remove}
use wterm.Session.{Session, Spec, create}
use wterm.Session.Lifecycle.{spawn}
use wterm.Manager.{
  Manager, update, judge, ended, end_existing, end, get_live, replaced, clear, start_locked,
  fresh_session,
}
use wterm.Manager.Frames.{is_live, IsSame}
use wterm.Manager.Kept.{IsSingle, get-update, update_frame}
use wterm.Manager.Single.{get_live-cases}

-- A live session of the one state is a live session of the other, and was started for the same.
abbrev pub Spares : ℕ → Manager → Manager → Type 0
Spares j m m' =
    (t : Session)
    → get j m.store ≡ some t
    → is_live t ≡ true
    → (t' : Session) × (get j m'.store ≡ some t') × (is_live t' ≡ true) × (t'.spec ≡ t.spec)

pub Spares-trans : (j : ℕ) (a b c : Manager) → Spares j a b → Spares j b c → Spares j a c
Spares-trans j a b c ab bc t found living =
    let (t', found', living', same) = ab t found living in
    let (t'', found'', living'', same') = bc t' found' living' in
    (t'', found'', living'', same' ∙ same)

pub same_store-Spares : (j : ℕ) (m m' : Manager) → m'.store ≡ m.store → Spares j m m'
same_store-Spares j m m' same t found living =
    (t, ap (λ store. get j store) same ∙ found, living, refl)

IsSame-is_live : (t s : Session) → IsSame t s → is_live t ≡ is_live s
IsSame-is_live t s (spec, alive, ending) = rw (alive, ending)

pub update-Spares :
    (id j : ℕ) (f : Session → Session) (m : Manager)
    → ((s : Session) → IsSame (f s) s)
    → Spares j m (update id f m)
update-Spares id j f m same t found living = elim (Bool-cases (id == j)) [
  | inl here ↦ (
    f t,
    rw (get-update id j f m, here, found),
    IsSame-is_live (f t) t (same t) ∙ living,
    (same t).0,
  )
  | inr other ↦ (t, rw (get-update id j f m, other, found), living, refl)
]

pub update_other-Spares :
    (id j : ℕ) (f : Session → Session) (m : Manager) → id ≢ j → Spares j m (update id f m)
update_other-Spares id j f m different t found living = elim (==_cases id j) [
  | inl (_, p) ↦ absurd (different p)
  | inr other ↦ (t, rw (get-update id j f m, other, found), living, refl)
]

judge_same :
    (key : Text) (id : ℕ) (t s : Session) (m m' : Manager)
    → IsSame t s
    → (judge key id (some t) m').1 ≡ (judge key id (some s) m).1
judge_same key id t s m m' (spec, alive, ending) = ground (arith, alive, ending)

judge-update :
    (key : Text) (id j : ℕ) (f : Session → Session) (m : Manager)
    → ((s : Session) → IsSame (f s) s)
    → (judge key j (get j (update id f m).store) (update id f m)).1
      ≡ (judge key j (get j m.store) m).1
judge-update key id j f m same = elim (Option-cases (get j m.store)) [
  | inl missing ↦ elim (Bool-cases (id == j)) [
    | inl here ↦ rw (get-update id j f m, here, missing)
    | inr other ↦ rw (get-update id j f m, other, missing)
  ]
  | inr (s, found) ↦ elim (Bool-cases (id == j)) [
    | inl here ↦ rw (get-update id j f m, here, found) (judge_same key j (f s) s m _ (same s))
    | inr other ↦
        rw (get-update id j f m, other, found) (judge_same key j s s m _ (refl, refl, refl))
  ]
]

-- A session that changes without coming to an end is as live as before.
pub get_live-update :
    (key : Text) (id : ℕ) (f : Session → Session) (m : Manager)
    → ((s : Session) → IsSame (f s) s)
    → (get_live key (update id f m)).1 ≡ (get_live key m).1
unfolding get_live
get_live-update key id f m same = elim (Option-cases (get key m.sessions)) [
  | inl missing ↦
      let missing' = ap (λ d. get key d) (update_frame id f m).0 ∙ missing in
      rw (missing, missing', get_live)
  | inr (j, entry) ↦
      let entry' = ap (λ d. get key d) (update_frame id f m).0 ∙ entry in
      rw (entry, entry', get_live) (judge-update key id j f m same)
]

judge_store :
    (key : Text) (id : ℕ) (o : Option Session) (m : Manager) → (judge key id o m).0.store ≡ m.store
judge_store key id none m = refl
judge_store key id (some s) m = ground arith

judge_next :
    (key : Text) (id : ℕ) (o : Option Session) (m : Manager) → (judge key id o m).0.next ≡ m.next
judge_next key id none m = refl
judge_next key id (some s) m = ground arith

-- The session that `get_live` gives is there, and alive.
pub get_live-found :
    (key : Text) (m : Manager) (id : ℕ)
    → (get_live key m).1 ≡ some id
    → (s : Session) × (get_live key m ≡ (m, some id))
      × (get id m.store ≡ some s)
      × (is_live s ≡ true)
unfolding get_live
get_live-found key m id h = elim (Option-cases (get key m.sessions)) [
  | inl missing ↦ absurd (let no : none ≡ some id = (rw (missing, get_live) at h) in cc)
  | inr (j, entry) ↦ elim (Option-cases (get j m.store)) [
    | inl gone ↦ absurd (let no : none ≡ some id = (rw (entry, get_live, gone) at h) in cc)
    | inr (s, found) ↦ elim (Bool-cases s.alive) [
      | inr dead ↦ absurd (let no : none ≡ some id = (rw (entry, get_live, found, dead) at h) in cc)
      | inl alive ↦ elim (Bool-cases s.terminating) [
        | inl ending ↦
            absurd
              (let no : none ≡ some id = (rw (entry, get_live, found, alive, ending) at h) in cc)
        | inr staying ↦
            let same : some j ≡ some id = (rw (entry, get_live, found, alive, staying) at h) in
            let here : j ≡ id = cc in
            (
              s,
              rw (entry, get_live, found, alive, staying) (ap (λ i. (m, some i)) here),
              ap (λ i. get i m.store) (sym here) ∙ found,
              rw (alive, staying),
            )
      ]
    ]
  ]
]

pub get_live_store : (key : Text) (m : Manager) → (get_live key m).0.store ≡ m.store
unfolding get_live
get_live_store key m = elim (Option-cases (get key m.sessions)) [
  | inl missing ↦ rw (missing, get_live)
  | inr (j, entry) ↦ rw (entry, get_live) (judge_store key j (get j m.store) m)
]

pub get_live_next : (key : Text) (m : Manager) → (get_live key m).0.next ≡ m.next
unfolding get_live
get_live_next key m = elim (Option-cases (get key m.sessions)) [
  | inl missing ↦ rw (missing, get_live)
  | inr (j, entry) ↦ rw (entry, get_live) (judge_next key j (get j m.store) m)
]

twice_unchanged :
    (key : Text) (m : Manager) (answer : Option ℕ)
    → get_live key m ≡ (m, answer)
    → (get_live key (get_live key m).0).1 ≡ (get_live key m).1
twice_unchanged key m answer same = ap (λ r. (get_live key r.0).1) same

-- A second look gives the same answer.
pub get_live_twice :
    (key : Text) (m : Manager) → (get_live key (get_live key m).0).1 ≡ (get_live key m).1
unfolding get_live
get_live_twice key m = elim (Option-cases (get key m.sessions)) [
  | inl missing ↦ twice_unchanged key m none (rw (missing, get_live))
  | inr (j, entry) ↦ elim (Option-cases (get j m.store)) [
    | inl gone ↦ twice_unchanged key m none (rw (entry, get_live, gone))
    | inr (s, found) ↦ elim (Bool-cases s.alive) [
      | inr dead ↦ rw (entry, get_live, found, dead, get-remove key key m.sessions, ==_refl key)
      | inl alive ↦ elim (Bool-cases s.terminating) [
        | inl ending ↦ twice_unchanged key m none (rw (entry, get_live, found, alive, ending))
        | inr staying ↦ twice_unchanged key m (some j) (rw (entry, get_live, found, alive, staying))
      ]
    ]
  ]
]

clear-Spares :
    (polls : List Bool) (key : Text) (existing : Option ℕ) (j : ℕ) (m : Manager)
    → existing ≢ some j
    → Spares j m (clear polls key existing m)
clear-Spares polls key none j m different = λ t found living. (t, found, living, refl)
clear-Spares polls key (some id) j m different =
    update_other-Spares id j (replaced polls) m (λ p. different (ap some p))

pub clear_next :
    (polls : List Bool) (key : Text) (existing : Option ℕ) (m : Manager)
    → (clear polls key existing m).next ≡ m.next
clear_next polls key none m = refl
clear_next polls key (some id) m = (update_frame id (replaced polls) m).1

-- A start leaves every session alone that is not the live one of its key.
pub start_locked-Spares :
    (now fd : ℕ) (polls : List Bool) (key : Text) (spec : Spec) (j : ℕ) (m : Manager)
    → get m.next m.store ≡ none
    → (get_live key m).1 ≢ some j
    → Spares j m (start_locked now fd polls key spec m).0
unfolding start_locked
start_locked-Spares now fd polls key spec j m unused different t found living =
    let m' : Manager = (get_live key m).0 in
    let left : Manager = clear polls key (get_live key m).1 m' in
    let next : left.next ≡ m.next =
      clear_next polls key (get_live key m).1 m' ∙ get_live_next key m in
    let (t', found', living', same) =
      Spares-trans j m m' left (same_store-Spares j m m' (get_live_store key m))
        (clear-Spares polls key (get_live key m).1 j m' different) t found living in
    elim (==_cases left.next j) [
      | inl (_, p) ↦
          let here : get j m.store ≡ none = ap (λ k. get k m.store) (sym p ∙ next) ∙ unused in
          absurd (cc)
      | inr other ↦ (
        t',
        rw (get-put left.next j (fresh_session now fd key spec left) left.store, other) found',
        living',
        same,
      )
    ]

-- A start stores a session of the specification, under the key.
pub start_locked_stored :
    (now fd : ℕ) (polls : List Bool) (key : Text) (spec : Spec) (m : Manager)
    → let (m', id) = start_locked now fd polls key spec m in
      (new : Session) × (get id m'.store ≡ some new)
      × (new.spec ≡ record spec {
        project_name = key;
        grace_seconds = m'.grace_seconds;
        idle_seconds = m'.idle_seconds;
      })
unfolding start_locked spawn create
start_locked_stored now fd polls key spec m =
    let left : Manager = clear polls key (get_live key m).1 (get_live key m).0 in
    (
      fresh_session now fd key spec left,
      rw (
        get-put left.next left.next (fresh_session now fd key spec left) left.store,
        ==_refl left.next,
      ),
      refl,
    )

end_existing-Spares :
    (polls : List Bool) (key : Text) (existing : Option ℕ) (j : ℕ) (m : Manager)
    → existing ≢ some j
    → Spares j m (end_existing polls key existing m).0
end_existing-Spares polls key none j m different = λ t found living. (t, found, living, refl)
end_existing-Spares polls key (some id) j m different =
    update_other-Spares id j (ended polls) m (λ p. different (ap some p))

pub end-Spares :
    (polls : List Bool) (key : Text) (j : ℕ) (m : Manager)
    → (get_live key m).1 ≢ some j
    → Spares j m (end polls key m).0
unfolding end
end-Spares polls key j m different =
    let m' : Manager = (get_live key m).0 in
    Spares-trans j m m' (end_existing polls key (get_live key m).1 m').0
      (same_store-Spares j m m' (get_live_store key m))
      (end_existing-Spares polls key (get_live key m).1 j m' different)

-- The live session of a key has the key's name.
pub other_name :
    (key : Text) (j : ℕ) (m : Manager) (t : Session)
    → IsSingle m
    → get j m.store ≡ some t
    → t.project_name ≢ key
    → (get_live key m).1 ≢ some j
other_name key j m t i found different there = elim (get_live-cases key m i) [
  | inl (none_there, _, _) ↦ absurd (cc)
  | inr (id, s, answer, entry, stored) ↦
      let same : id ≡ j =
        (let here : some id ≡ some j = sym (ap (λ r. r.1) answer) ∙ there in cc) in
      let (u, held, name) = i.named key id entry in
      let here : get j m.store ≡ some u = ap (λ k. get k m.store) (sym same) ∙ held in
      let t_u : t ≡ u = cc in different (ap (λ k. k.project_name) t_u ∙ name)
]
