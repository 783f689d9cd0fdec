-- ===== src/Manager/Live.antt =====
-- server/session.py, class `SessionManager`: histories of a server. Clients that start, attach, leave
-- and end sessions, children that exit and timers that fire, in any order.
use wterm.Prelude.{
  ℕ, ◌≡◌, ◌≢◌, ◌⊎◌, refl, sym, ap, ◌∙◌, Bool, true, false, some, List, [], ◌∷◌, arith, Text,
  Bool-cases, inl, inr, ==_refl, nat_key, list_key, is_some,
}
use wterm.OrderedDict.{get, put}
use wterm.OrderedDict.Laws.{get-put}
use wterm.Session.{Session, Spec, create}
use wterm.Session.Lifecycle.{spawn, cancel_grace, handle_exit, attach, detach}
use wterm.Manager.{
  Manager, init, update, get_live, replaced, clear, start_locked, end, is_registered, abandoned,
  expire_grace, grace_fires, idle_fires, fresh_session, Op, starts, ends, looks, grace_over,
  idle_over, exits, attaches, detaches, shuts, step, run,
}
use wterm.Manager.Frames.{is_live, IsSame, attach-IsSame, detach-IsSame, handle_exit-IsEnded}
use wterm.Manager.Kept.{IsSingle, update-IsSingle}
use wterm.Manager.Single.{
  is_registered-get, Keeps-same, Keeps-ended, get_live-IsSingle, start_locked-IsSingle,
  end-IsSingle, expire_grace-IsSingle, expire_idle-IsSingle,
}
use wterm.Manager.Shutdown.{shutdown-IsSingle}

cancel_grace-IsSame : (s : Session) → IsSame (cancel_grace s) s
unfolding cancel_grace
cancel_grace-IsSame s = (refl, refl, refl)

grace_fires-IsSingle :
    (polls : List Bool) (key : Text) (id : ℕ) (m : Manager)
    → IsSingle m
    → IsSingle (grace_fires polls key id m)
unfolding grace_fires
grace_fires-IsSingle polls key id m i =
    expire_grace-IsSingle polls key id (update id cancel_grace m)
      (update-IsSingle id cancel_grace m (Keeps-same cancel_grace cancel_grace-IsSame) i)

idle_fires-IsSingle :
    (polls : List Bool) (key : Text) (id : ℕ) (m : Manager)
    → IsSingle m
    → IsSingle (idle_fires polls key id m)
unfolding idle_fires
idle_fires-IsSingle polls key id m i =
    let stopped : Session → Session = λ s. record s { idle_task = false } in
    expire_idle-IsSingle polls key id (update id stopped m)
      (update-IsSingle id stopped m (Keeps-same stopped (λ s. (refl, refl, refl))) i)

pub step-IsSingle : (op : Op) (m : Manager) → IsSingle m → IsSingle (step op m)
unfolding step
step-IsSingle (starts now fd polls key spec) m i = start_locked-IsSingle now fd polls key spec m i
step-IsSingle (ends polls key) m i = (end-IsSingle polls key m i).0
step-IsSingle (looks key) m i = get_live-IsSingle key m i
step-IsSingle (grace_over polls key id) m i = grace_fires-IsSingle polls key id m i
step-IsSingle (idle_over polls key id) m i = idle_fires-IsSingle polls key id m i
step-IsSingle (exits id code) m i =
    update-IsSingle id (λ s. (handle_exit code s).0) m
      (Keeps-ended (λ s. (handle_exit code s).0) (handle_exit-IsEnded code)) i
step-IsSingle (attaches now ws id) m i =
    update-IsSingle id (λ s. (attach now ws s).0) m
      (Keeps-same (λ s. (attach now ws s).0) (attach-IsSame now ws)) i
step-IsSingle (detaches ws id) m i =
    update-IsSingle id (detach ws) m (Keeps-same (detach ws) (detach-IsSame ws)) i
step-IsSingle (shuts polls) m i = shutdown-IsSingle polls m i

pub run-IsSingle : (ops : List Op) (m : Manager) → IsSingle m → IsSingle (run ops m)
unfolding run
run-IsSingle [] m i = i
run-IsSingle (op ∷ ops) m i = run-IsSingle ops (step op m) (step-IsSingle op m i)

pub init-IsSingle : (grace idle : ℕ) → IsSingle (init grace idle)
unfolding init get
init-IsSingle grace idle = record {
  named = λ key id h. absurd (cc);
  registered = λ id s h living. absurd (cc);
  unused = λ id h. refl;
}

-- There is one live session for each key, at most. Whatever has happened since the server began:
-- two sessions that are alive and not being terminated, and have the same key, are the same one.
pub one_live :
    (grace idle : ℕ) (ops : List Op) (id other : ℕ) (s t : Session)
    → get id (run ops (init grace idle)).store ≡ some s
    → get other (run ops (init grace idle)).store ≡ some t
    → is_live s ≡ true
    → is_live t ≡ true
    → s.project_name ≡ t.project_name
    → id ≡ other
one_live grace idle ops id other s t hs ht ls lt same =
    let m = run ops (init grace idle) in
    let i = run-IsSingle ops (init grace idle) (init-IsSingle grace idle) in
    let a : get t.project_name m.sessions ≡ some id =
      ap (λ k. get k m.sessions) (sym same) ∙ i.registered id s hs ls in
    cc (a, i.registered other t ht lt)

-- No live session is lost. Whatever has happened since the server began, a session that is alive
-- and not being terminated is the one that `get_live` finds under its key, and the look changes nothing.
pub live_found :
    (grace idle : ℕ) (ops : List Op) (id : ℕ) (s : Session)
    → get id (run ops (init grace idle)).store ≡ some s
    → is_live s ≡ true
    → get_live s.project_name (run ops (init grace idle)) ≡ (run ops (init grace idle), some id)
unfolding get_live
live_found grace idle ops id s h living =
    let m = run ops (init grace idle) in
    let i = run-IsSingle ops (init grace idle) (init-IsSingle grace idle) in
    let alive : s.alive ≡ true = ground arith in
    let staying : s.terminating ≡ false = ground arith in
    rw (i.registered id s h living, get_live, h, alive, staying)

-- An end ends. Whatever has happened since the server began, after `end` of a key no session of that
-- key is alive and not being terminated, whether or not there was one.
pub end-gone :
    (grace idle : ℕ) (ops : List Op) (polls : List Bool) (key : Text) (id : ℕ) (s : Session)
    → get id (end polls key (run ops (init grace idle))).0.store ≡ some s
    → s.project_name ≡ key
    → is_live s ≡ false
end-gone grace idle ops polls key id s h name =
    let i = run-IsSingle ops (init grace idle) (init-IsSingle grace idle) in
    elim (Bool-cases (is_live s)) [
      | inr dead ↦ dead
      | inl living ↦ absurd ((end-IsSingle polls key _ i).1 id s h living name)
    ]

-- A start is found at once. In any state of the manager, and whichever session it replaces, the
-- session that `start_locked` gives is the live one of its key afterwards.
pub start_locked-get_live :
    (now fd : ℕ) (polls : List Bool) (key : Text) (spec : Spec) (m : Manager)
    → (get_live key (start_locked now fd polls key spec m).0).1
      ≡ some (start_locked now fd polls key spec m).1
unfolding start_locked get_live spawn create
start_locked-get_live now fd polls key spec m =
    let (m', existing) = get_live key m in
    let left : Manager = clear polls key existing m' in
    let new : Session = fresh_session now fd key spec left in
    let entry : get key (put key left.next left.sessions) ≡ some left.next =
      rw (get-put key key left.next left.sessions, ==_refl key) in
    let stored : get left.next (put left.next new left.store) ≡ some new =
      rw (get-put left.next left.next new left.store, ==_refl left.next) in
    rw (entry, get_live, stored)

-- The grace timer ends only what it was started for: a session that a new one has replaced, that a
-- client is attached to again, or whose child is gone, is left alone, and the map as well.
pub expire_grace_spared :
    (polls : List Bool) (key : Text) (id : ℕ) (m : Manager) (s : Session)
    → get id m.store ≡ some s
    → (get key m.sessions ≢ some id) ⊎ (is_some s.websocket ≡ true) ⊎ (s.alive ≡ false)
    → expire_grace polls key id m ≡ m
unfolding expire_grace
expire_grace_spared polls key id m s found spared = elim (Bool-cases (is_registered key id m)) [
  | inr other ↦ rw (other, expire_grace)
  | inl mine ↦
      let entry = is_registered-get key id m mine in
      let off : abandoned (some s) ≡ false = elim spared [
        | inl replaced ↦ absurd (replaced entry)
        | inr (inl back) ↦ rw back
        | inr (inr dead) ↦ ground (arith, dead)
      ] in
      rw (mine, expire_grace, found, off)
]
