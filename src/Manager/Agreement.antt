-- ===== src/Manager/Agreement.antt =====
-- server/session.py, class `SessionManager`: an operation on one key is not seen from another.
use wterm.Prelude.{
  ℕ, ◌≡◌, refl, sym, ap, ◌∙◌, Bool, false, Option, none, some, List, arith, Text, Bool-cases,
  Option-cases, inl, inr, ==_cases, ◌==◌, nat_key, list_key, equal_list_iff,
}
use wterm.OrderedDict.{get, remove}
use wterm.OrderedDict.Laws.{get-put, get-remove}
use wterm.Session.{Session, Spec}
use wterm.Manager.{
  Manager, update, judge, get_live, replaced, clear, start_locked, ended, end_existing, end,
  fresh_session,
}
use wterm.Manager.Kept.{IsSingle, get-update, update_frame}
use wterm.Manager.Spared.{get_live_store, get_live_next, clear_next, other_name}

-- What `get_live` reads of a key is the same in both states.
pub record Agrees (k : Text) (m m' : Manager) : Type 0 where
  pub entry : get k m'.sessions ≡ get k m.sessions
  pub stored : (id : ℕ) → get k m.sessions ≡ some id → get id m'.store ≡ get id m.store

judge-1 :
    (k : Text) (id : ℕ) (o : Option Session) (m m' : Manager)
    → (judge k id o m').1 ≡ (judge k id o m).1
judge-1 k id none m m' = refl
judge-1 k id (some s) m m' = ground arith

pub Agrees-get_live :
    (k : Text) (m m' : Manager) → Agrees k m m' → (get_live k m').1 ≡ (get_live k m).1
unfolding get_live
Agrees-get_live k m m' a = elim (Option-cases (get k m.sessions)) [
  | inl missing ↦ (let missing' = a.entry ∙ missing in rw (missing, missing', get_live))
  | inr (id, entry) ↦
      let entry' = a.entry ∙ entry in
      rw (entry, entry', get_live)
        (ap (λ o. (judge k id o m').1) (a.stored id entry) ∙ judge-1 k id (get id m.store) m m')
]

Agrees-trans : (k : Text) (a b c : Manager) → Agrees k a b → Agrees k b c → Agrees k a c
Agrees-trans k a b c ab bc = record {
  entry = bc.entry ∙ ab.entry;
  stored = λ id e. bc.stored id (ab.entry ∙ e) ∙ ab.stored id e;
}

judge_other :
    (key k : Text) (id : ℕ) (o : Option Session) (m : Manager)
    → (key == k) ≡ false
    → get k (judge key id o m).0.sessions ≡ get k m.sessions
judge_other key k id none m other = refl
judge_other key k id (some s) m other = elim (Bool-cases s.alive) [
  | inr dead ↦ rw (dead, get-remove key k m.sessions, other)
  | inl alive ↦ elim (Bool-cases s.terminating) [
    | inl ending ↦ rw (alive, ending)
    | inr staying ↦ rw (alive, staying)
  ]
]

look_sessions :
    (key k : Text) (m : Manager)
    → (key == k) ≡ false
    → get k (get_live key m).0.sessions ≡ get k m.sessions
unfolding get_live
look_sessions key k m other = elim (Option-cases (get key m.sessions)) [
  | inl missing ↦ rw (missing, get_live)
  | inr (id, entry) ↦ rw (entry, get_live) (judge_other key k id (get id m.store) m other)
]

pub look-Agrees : (key k : Text) (m : Manager) → (key == k) ≡ false → Agrees k m (get_live key m).0
look-Agrees key k m other = record {
  entry = look_sessions key k m other;
  stored = λ id e. ap (λ store. get id store) (get_live_store key m);
}

-- A session of the one key that is changed and taken out of the map, as seen from the other key.
taken-Agrees :
    (key k : Text) (id : ℕ) (f : Session → Session) (m : Manager)
    → (key == k) ≡ false
    → ((j : ℕ) → get k m.sessions ≡ some j → (id == j) ≡ false)
    → let m' = update id f m in Agrees k m (record m' { sessions = remove key m'.sessions })
taken-Agrees key k id f m other apart = record {
  entry =
      rw (get-remove key k (update id f m).sessions, other)
        (ap (λ d. get k d) (update_frame id f m).0);
  stored = λ j e. rw (get-update id j f m, apart j e);
}

clear-Agrees :
    (polls : List Bool) (key k : Text) (existing : Option ℕ) (m : Manager)
    → (key == k) ≡ false
    → ((id j : ℕ) → existing ≡ some id → get k m.sessions ≡ some j → (id == j) ≡ false)
    → Agrees k m (clear polls key existing m)
clear-Agrees polls key k none m other apart = record { entry = refl; stored = λ id e. refl }
clear-Agrees polls key k (some id) m other apart =
    taken-Agrees key k id (replaced polls) m other (λ j. apart id j refl)

end_existing-Agrees :
    (polls : List Bool) (key k : Text) (existing : Option ℕ) (m : Manager)
    → (key == k) ≡ false
    → ((id j : ℕ) → existing ≡ some id → get k m.sessions ≡ some j → (id == j) ≡ false)
    → Agrees k m (end_existing polls key existing m).0
end_existing-Agrees polls key k none m other apart = record { entry = refl; stored = λ id e. refl }
end_existing-Agrees polls key k (some id) m other apart =
    taken-Agrees key k id (ended polls) m other (λ j. apart id j refl)

-- The sessions of two keys are two sessions.
two_keys :
    (key k : Text) (m : Manager)
    → IsSingle m
    → (key == k) ≡ false
    → (id j : ℕ) → (get_live key m).1 ≡ some id
    → get k (get_live key m).0.sessions ≡ some j
    → (id == j) ≡ false
two_keys key k m i other id j live entry = elim (==_cases id j) [
  | inr apart ↦ apart
  | inl (_, e) ↦
      let (s, found, name) = i.named k j (sym (look_sessions key k m other) ∙ entry) in
      absurd (
        other_name key j m s i found
          (λ same. let on = (equal_list_iff key k).1 (sym same ∙ name) in cc) (live ∙ ap some e))
]

-- A registered session is not the next one.
unused_other :
    (k : Text) (j : ℕ) (m left : Manager)
    → IsSingle m
    → left.next ≡ m.next
    → get k m.sessions ≡ some j
    → (left.next == j) ≡ false
unused_other k j m left i next entry = elim (==_cases left.next j) [
  | inr apart ↦ apart
  | inl (_, e) ↦
      let (s, found, _) = i.named k j entry in
      let gone : get j m.store ≡ none =
        ap (λ n. get n m.store) (sym e ∙ next) ∙ i.unused m.next (omega arith) in
      absurd (cc)
]

pub start_locked-Agrees :
    (now fd : ℕ) (polls : List Bool) (key k : Text) (spec : Spec) (m : Manager)
    → IsSingle m
    → (key == k) ≡ false
    → Agrees k m (start_locked now fd polls key spec m).0
unfolding start_locked
start_locked-Agrees now fd polls key k spec m i other =
    let m' : Manager = (get_live key m).0 in
    let left : Manager = clear polls key (get_live key m).1 m' in
    let next : left.next ≡ m.next =
      clear_next polls key (get_live key m).1 m' ∙ get_live_next key m in
    let before : Agrees k m left =
      Agrees-trans k m m' left (look-Agrees key k m other)
        (clear-Agrees polls key k (get_live key m).1 m' other (two_keys key k m i other)) in
    let fresh = fresh_session now fd key spec left in
    record {
      entry = rw (get-put key k left.next left.sessions, other) before.entry;
      stored = λ j e.
          rw (get-put left.next j fresh left.store, unused_other k j m left i next e)
            (before.stored j e);
    }

pub end-Agrees :
    (polls : List Bool) (key k : Text) (m : Manager)
    → IsSingle m
    → (key == k) ≡ false
    → Agrees k m (end polls key m).0
unfolding end
end-Agrees polls key k m i other =
    let m' : Manager = (get_live key m).0 in
    Agrees-trans k m m' (end_existing polls key (get_live key m).1 m').0 (look-Agrees key k m other)
      (end_existing-Agrees polls key k (get_live key m).1 m' other (two_keys key k m i other))
