-- ===== src/Startup/HostAddress.antt =====
-- server/main.py: `_host_address_ready` and `_wait_for_host_address`. What the resolver and `bind`
-- answer in each round is an argument, and so is the clock, in milliseconds.
use wterm.Prelude.{
  ℕ, zero, suc, ◌+◌, ◌*◌, ◌≤◌, ◌<◌, ◌≡◌, ap, ◌∙◌, Bool, true, false, Option, none, some, List, [],
  ◌∷◌, if◌then◌else◌, Bool-cases, inl, inr, ltb, second, arith, tests,
}

-- What a bind to one candidate answers.
pub data Bind : Type 0 where
  bound not_available other_error : Bind

unfoldable pub any_ready : List Bind → Bool
any_ready [] = false
any_ready (bound ∷ rest) = true
any_ready (other_error ∷ rest) = true
any_ready (not_available ∷ rest) = any_ready rest

-- `_host_address_ready`: `none` is a name that is not resolved.
unfoldable pub host_address_ready : Option (List Bind) → Bool
unfolding any_ready
host_address_ready none = false
host_address_ready (some answers) = any_ready answers

abbrev pub bind_wait : ℕ
bind_wait = 180 * second

abbrev pub bind_wait_interval : ℕ
bind_wait_interval = 2 * second

-- The round in which the address came up, or the last one before the wait was given up.
pub data Waited : Type 0 where
  came : ℕ → Waited
  gave_up : ℕ → Waited

module _ (clock : ℕ → ℕ) (answers : ℕ → Option (List Bind)) where
  -- The loop, from the round `n`; `none` says that the fuel was not enough.
  unfoldable pub wait_loop : ℕ → ℕ → ℕ → Option Waited
  unfolding host_address_ready
  wait_loop deadline zero n = none
  wait_loop deadline (suc fuel) n =
      let rest = wait_loop deadline fuel (suc n) in
      if ltb (clock n) deadline
      then (if host_address_ready (answers (suc n)) then some (came (suc n)) else rest)
      else some (gave_up n)

  -- `_wait_for_host_address`: at most ninety rounds, and one that finds the time over.
  unfoldable pub wait_for_host_address : Option Waited
  unfolding wait_loop
  wait_for_host_address =
      if host_address_ready (answers 0) then some (came 0) else wait_loop (clock 0 + bind_wait) 91 0

  -- Up to a round, and without it, the address was not there.
  abbrev pub Missing : ℕ → Type 0
  Missing n = (m : ℕ) → m < n → host_address_ready (answers m) ≡ false

  -- The first round that found the address, or so many rounds without one that the time is over.
  abbrev pub IsWait : Waited → Type 0
  IsWait (came n) = (host_address_ready (answers n) ≡ true) × Missing n × (n ≤ 90)
  IsWait (gave_up n) = Missing (suc n) × (clock 0 + bind_wait ≤ clock n) × (n ≤ 90)

  module _ (sleeps : (n : ℕ) → clock n + bind_wait_interval ≤ clock (suc n)) where
    clock-le : (n : ℕ) → clock 0 + n * bind_wait_interval ≤ clock n
    clock-le zero = omega arith
    clock-le (suc n) = omega (arith, clock-le n, sleeps n)

    Missing-suc : (n : ℕ) → Missing n → host_address_ready (answers n) ≡ false → Missing (suc n)
    Missing-suc n before here m h = elim (Bool-cases (ltb m n)) [
      | inl less ↦ before m (omega tests)
      | inr same ↦
          (let e : m ≡ n = omega tests in ap (λ k. host_address_ready (answers k)) e ∙ here)
    ]

    wait_loop-IsWait :
        (fuel n : ℕ)
        → n + fuel ≡ 91
        → 1 ≤ fuel
        → Missing (suc n)
        → (r : Waited) × (wait_loop (clock 0 + bind_wait) fuel n ≡ some r) × IsWait r
    unfolding wait_loop
    wait_loop-IsWait zero n total some_left before = absurd (omega arith)
    wait_loop-IsWait (suc fuel) n total some_left before =
        elim (Bool-cases (ltb (clock n) (clock 0 + bind_wait))) [
          | inr late ↦ (gave_up n, rw late, (before, omega tests, omega arith))
          | inl early ↦ elim (Bool-cases (host_address_ready (answers (suc n)))) [
            | inl ready ↦
                (came (suc n), rw (early, ready), (ready, before, omega (tests, clock-le n)))
            | inr missing ↦
                let (r, result, right) =
                  wait_loop-IsWait fuel (suc n) (omega arith) (omega (tests, clock-le n))
                    (Missing-suc (suc n) before missing) in
                (r, rw (early, missing) result, right)
          ]
        ]

    -- The wait for the address ends, if each sleep takes its two seconds at least. It comes back in
    -- the first round that finds the address, or after a hundred and eighty seconds in which no round
    -- did; and it has slept at most ninety times.
    pub wait_for_host_address-IsWait : (r : Waited) × (wait_for_host_address ≡ some r) × IsWait r
    unfolding wait_for_host_address
    wait_for_host_address-IsWait = elim (Bool-cases (host_address_ready (answers 0))) [
      | inl ready ↦ (came 0, rw ready, (ready, (λ m h. absurd (omega arith)), omega arith))
      | inr missing ↦
          let (r, result, right) = wait_loop-IsWait 91 0 (omega arith) (omega arith) (λ m h.
            let e : m ≡ 0 = omega arith in ap (λ k. host_address_ready (answers k)) e ∙ missing) in
          (r, rw missing result, right)
    ]
