-- ===== src/Manager/Shutdown.antt =====
-- server/session.py: what `SessionManager.shutdown` leaves.
use wterm.Prelude.{
  ℕ, ◌≡◌, refl, sym, ap, ◌∙◌, Bool, true, false, some, List, [], ◌∷◌, arith, Text, Bool-cases, inl,
  inr, ◌==◌, nat_key, list_key, subst,
}
use wterm.OrderedDict.{OrderedDict, get}
use wterm.Session.{Session}
use wterm.Session.Lifecycle.{cancel_grace, terminate}
use wterm.Manager.{Manager, update, shut, shut_each, shutdown}
use wterm.Manager.Frames.{is_live, IsEnded, drop_old-IsSame, terminate-IsEnded}
use wterm.Manager.Kept.{IsSingle, update-IsSingle, update_at, update_from}
use wterm.Manager.Single.{Keeps-ended, dead-live}

shut-IsEnded : (polls : List Bool) (s : Session) → IsEnded (shut polls s) s
unfolding cancel_grace
shut-IsEnded polls s =
    let after = (terminate polls (cancel_grace s)).0 in
    let (a, dead) = terminate-IsEnded polls (cancel_grace s) in
    let (a', b', c') = drop_old-IsSame after.websocket after in (a' ∙ a, b' ∙ dead)

-- Where a session comes from that is in the store after a shutdown.
shut_each_from :
    (polls : ℕ → List Bool) (sessions : OrderedDict Text ℕ) (j : ℕ) (m : Manager) (t : Session)
    → get j (shut_each polls sessions m).store ≡ some t
    → is_live t ≡ true
    → (s : Session) × (get j m.store ≡ some s)
      × (t.project_name ≡ s.project_name)
      × (is_live s ≡ true)
unfolding shut_each
shut_each_from polls [] j m t h living = (t, h, refl, living)
shut_each_from polls ((key, id) ∷ sessions) j m t h living =
    let (s, found, name, living') =
      shut_each_from polls sessions j (update id (shut (polls id)) m) t h living in
    let (s', found', name', back) =
      update_from id j (shut (polls id)) m s
        (Keeps-ended (shut (polls id)) (shut-IsEnded (polls id))) found in
    (s', found', name ∙ name', back living')

shut_each-IsSingle :
    (polls : ℕ → List Bool) (sessions : OrderedDict Text ℕ) (m : Manager)
    → IsSingle m
    → IsSingle (shut_each polls sessions m)
unfolding shut_each
shut_each-IsSingle polls [] m i = i
shut_each-IsSingle polls ((key, id) ∷ sessions) m i =
    shut_each-IsSingle polls sessions (update id (shut (polls id)) m) (
      update-IsSingle id (shut (polls id)) m
        (Keeps-ended (shut (polls id)) (shut-IsEnded (polls id))) i)

-- A shutdown ends every session that has an entry.
shut_each_dead :
    (polls : ℕ → List Bool) (sessions : OrderedDict Text ℕ) (key : Text) (id : ℕ) (m : Manager)
    (t : Session)
    → get key sessions ≡ some id
    → get id (shut_each polls sessions m).store ≡ some t
    → is_live t ≡ false
unfolding shut_each get
shut_each_dead polls [] key id m t entry h = absurd (cc)
shut_each_dead polls ((k, j) ∷ sessions) key id m t entry h = elim (Bool-cases (is_live t)) [
  | inr dead ↦ dead
  | inl living ↦ elim (Bool-cases (k == key)) [
    | inr other ↦
        shut_each_dead polls sessions key id (update j (shut (polls j)) m) t (rw other at entry) h
    | inl same ↦
        let here : j ≡ id = ground (arith, entry, same) in
        let (s, found, _, living') =
          shut_each_from polls sessions id (update j (shut (polls j)) m) t h living in
        let (u, changed) =
          update_at j (shut (polls j)) m s
            (subst (λ i. get i (update j (shut (polls j)) m).store ≡ some s) (sym here) found) in
        let dead : is_live s ≡ false =
          ap is_live changed ∙ dead-live (shut (polls j) u) (shut-IsEnded (polls j) u).1 in
        absurd (cc)
  ]
]

-- After a shutdown no session is live, whichever there were.
pub shutdown-none :
    (polls : ℕ → List Bool) (m : Manager) (id : ℕ) (t : Session)
    → IsSingle m
    → get id (shutdown polls m).store ≡ some t
    → is_live t ≡ false
unfolding shutdown
shutdown-none polls m id t i h = elim (Bool-cases (is_live t)) [
  | inr dead ↦ dead
  | inl living ↦
      let (s, found, _, living') = shut_each_from polls m.sessions id m t h living in
      shut_each_dead polls m.sessions s.project_name id m t (i.registered id s found living') h
]

pub shutdown-IsSingle :
    (polls : ℕ → List Bool) (m : Manager) → IsSingle m → IsSingle (shutdown polls m)
unfolding shutdown get
shutdown-IsSingle polls m i = record {
  named = λ key id h. absurd (cc);
  registered = λ id s h living. absurd (let dead = shutdown-none polls m id s i h in cc);
  unused = (shut_each-IsSingle polls m.sessions m i).unused;
}
