-- ===== src/Session/Lifecycle/Termination.antt =====
-- The end of a session: which signals are sent, how long it takes, and what is left.
use wterm.Prelude.{
  ℕ, All, zero, suc, ◌+◌, ◌-◌, ◌*◌, ◌≤◌, ◌<◌, max, ◌≡◌, ◌⊎◌, refl, ap, ◌∙◌, ◌⊎◌, some, ap, Bool,
  true, false, none, some, List, [], ◌∷◌, arith, leb, second, Bool-cases, inl, inr, leb→lt, leb→le,
}
use wterm.Session.{Session}
use wterm.Session.Lifecycle.{
  hup, term, kill, wait_reaped, escalate, terminate, sigterm_wait, sighup_wait, idle_sleep,
  idle_min_sleep,
}

-- The sleeps of a wait are at most its polls, and exactly those if the child is still there.
pub wait_reaped-sleeps :
    (n : ℕ) (polls : List Bool)
    → ((wait_reaped n polls).2 ≤ n)
      × ((wait_reaped n polls).0 ≡ false → (wait_reaped n polls).2 ≡ n)
unfolding wait_reaped
wait_reaped-sleeps zero polls = (omega arith, λ _. refl)
wait_reaped-sleeps (suc n) [] = (omega arith, λ _. refl)
wait_reaped-sleeps (suc n) (true ∷ polls) = (omega arith, λ e. absurd (cc))
wait_reaped-sleeps (suc n) (false ∷ polls) =
    (omega (arith, (wait_reaped-sleeps n polls).0), λ e. ap suc ((wait_reaped-sleeps n polls).1 e))

abbrev pub IsStubborn : List Bool → Type 0
IsStubborn = All (λ gone. gone ≡ false)

wait_reaped-IsStubborn :
    (n : ℕ) (polls : List Bool)
    → IsStubborn polls
    → ((wait_reaped n polls).0 ≡ false) × IsStubborn (wait_reaped n polls).1
unfolding wait_reaped
wait_reaped-IsStubborn zero polls h = (refl, h)
wait_reaped-IsStubborn (suc n) [] h = (refl, tt)
wait_reaped-IsStubborn (suc n) (gone ∷ polls) h = rw (h.0) (wait_reaped-IsStubborn n polls h.1)

-- The signals come in the order HUP, TERM, KILL; TERM only after two seconds of waiting, and KILL
-- only after ten; and the whole takes eleven seconds at most.
pub escalate_order :
    (polls : List Bool)
    → let (signals, slept) = escalate polls in
      ((signals ≡ hup ∷ []) × (slept ≤ sighup_wait * 10))
      ⊎ ((signals ≡ hup ∷ term ∷ []) × (sighup_wait * 10 ≤ slept) × (slept ≤ sigterm_wait * 10))
      ⊎ ((signals ≡ hup ∷ term ∷ kill ∷ [])
          × (sigterm_wait * 10 ≤ slept)
          × (slept ≤ sigterm_wait * 10 + 10))
unfolding escalate
escalate_order polls =
    let first = wait_reaped 20 polls in
    let second_wait = wait_reaped 80 first.1 in
    let third = wait_reaped 10 second_wait.1 in
    let b1 = wait_reaped-sleeps 20 polls in
    let b2 = wait_reaped-sleeps 80 first.1 in
    let b3 = wait_reaped-sleeps 10 second_wait.1 in
    elim (Bool-cases first.0) [
      | inl gone ↦ inl (rw (gone, escalate) (refl, omega arith))
      | inr alive ↦ elim (Bool-cases second_wait.0) [
        | inl gone ↦ inr (
            inl (
              rw (alive, gone, escalate)
                (refl, omega (arith, b1.1 alive), omega (arith, b1.1 alive))))
        | inr stubborn ↦ inr (
            inr (
              rw (alive, stubborn, escalate)
                (
                  refl,
                  omega (arith, b1.1 alive, b2.1 stubborn),
                  omega (arith, b1.1 alive, b2.1 stubborn),
                )))
      ]
    ]

-- The bound of ten seconds that the source names is not kept: if no poll finds the child gone, as
-- with one that hangs in the kernel, all three signals are sent and the sleeps take eleven seconds.
pub escalate_stubborn :
    (polls : List Bool)
    → IsStubborn polls
    → escalate polls ≡ (hup ∷ term ∷ kill ∷ [], sigterm_wait * 10 + 10)
unfolding escalate
escalate_stubborn polls h =
    let (stay1, h1) = wait_reaped-IsStubborn 20 polls h in
    let (stay2, h2) = wait_reaped-IsStubborn 80 (wait_reaped 20 polls).1 h1 in
    let (stay3, h3) = wait_reaped-IsStubborn 10 (wait_reaped 80 (wait_reaped 20 polls).1).1 h2 in
    rw (
      stay1,
      escalate,
      stay2,
      (wait_reaped-sleeps 20 polls).1 stay1,
      (wait_reaped-sleeps 80 (wait_reaped 20 polls).1).1 stay2,
      (wait_reaped-sleeps 10 (wait_reaped 80 (wait_reaped 20 polls).1).1).1 stay3,
    )

terminate_dead :
    (polls : List Bool) (s : Session) → s.alive ≡ false → terminate polls s ≡ (s, [], 0, false)
unfolding terminate
terminate_dead polls s dead = simp (dead, terminate)

-- Whatever the child does, a session that was alive is dead after a termination and has let its PTY
-- go, and a dead one is as it was. Its socket and its replay buffer are kept, and a second
-- termination, which may come from another caller, changes nothing, sends no signal and announces
-- nothing.
pub terminate_leaves :
    (polls later : List Bool) (s : Session)
    → let after = (terminate polls s).0 in
      (((s.alive ≡ true)
          × (after.alive ≡ false)
          × (after.terminating ≡ true)
          × (after.master_fd ≡ none))
        ⊎ ((s.alive ≡ false) × (after ≡ s)))
      × (after.websocket ≡ s.websocket)
      × (after.buffer ≡ s.buffer)
      × (terminate later after ≡ (after, [], 0, false))
unfolding terminate
terminate_leaves polls later s = elim (Bool-cases s.alive) [
  | inl alive ↦ (
    inl (alive, ground arith, ground arith, ground arith),
    ground arith,
    ground arith,
    terminate_dead later (terminate polls s).0 (ground arith),
  )
  | inr dead ↦
      let same : (terminate polls s).0 ≡ s = simp (dead, terminate) in
      (
        inr (dead, same),
        ap (λ t. t.websocket) same,
        ap (λ t. t.buffer) same,
        terminate_dead later (terminate polls s).0 (ap (λ t. t.alive) same ∙ dead),
      )
]

-- The idle watch never ends a session that had traffic within its time, and looks again in time:
-- it sleeps at least half a second, and not past the end of the quiet time by more than that.
pub idle_sleep_bounds :
    (now : ℕ) (s : Session)
    → ((idle_sleep now s ≡ none) × (s.idle_seconds * second ≤ now - s.last_activity))
      ⊎ ((d : ℕ) × (idle_sleep now s ≡ some d)
          × (now - s.last_activity < s.idle_seconds * second)
          × (idle_min_sleep ≤ d)
          × (d ≤ max (s.idle_seconds * second - (now - s.last_activity)) idle_min_sleep)
          × (s.idle_seconds * second ≤ (now - s.last_activity) + d))
unfolding idle_sleep
idle_sleep_bounds now s =
    elim (Bool-cases (leb (s.idle_seconds * second) (now - s.last_activity))) [
      | inl over ↦ inl (rw over, leb→le _ _ over)
      | inr young ↦ inr (
        max (s.idle_seconds * second - (now - s.last_activity)) idle_min_sleep,
        rw young,
        leb→lt _ _ young,
        omega arith,
        omega arith,
        omega arith,
      )
    ]
