-- ===== src/Polling.antt =====
-- `wait_health` of `scripts/arena_host.py`: the health of the backend is asked for until a deadline. Times
-- are in milliseconds of `time.monotonic()`; a request takes the time that the world gives it, and
-- `time.sleep(0.25)` takes 250 ms.
use counterparty_sharedos.Prelude.{
  ℕ, zero, suc, ◌+◌, ◌*◌, ◌/◌, ◌≤◌, ◌<◌, ◌≡◌, inl, inr, ltb, Bool, true, false, ◌&&◌, Option, some,
  str_eq, if◌then◌else◌, arith, Bool-cases,
}
use counterparty_sharedos.Json.{Json, Fields, bool, text, obj, get}
use counterparty_sharedos.AgentCard.{version}

-- What a request gives: a document, one of the exceptions that the loop catches, or another one.
pub data Poll (F : Type 0) : Type 0 where
  document : Json F → Poll F
  caught uncaught : Poll F

pub data Waited : Type 0 where
  -- `return`, `RuntimeError` after the deadline, and an exception that the loop does not catch
  healthy late broken : Waited
  out_of_fuel : Waited

module _ {F : Type 0} where
  abbrev is_true : Option (Json F) → Bool
  is_true (some (bool b)) = b
  is_true _ = false

  abbrev is_version : Option (Json F) → Bool
  is_version (some (text s)) = str_eq s version
  is_version _ = false

  -- `payload.get("ok") is True and payload.get("version") == "0.3.0"`
  unfoldable pub is_healthy : Fields F → Bool
  unfolding get
  is_healthy payload = is_true (get "ok" payload) && is_version (get "version" payload)

  -- one turn of the loop, and `rest` for the turns after it
  unfoldable pub poll_step : Poll F → Waited → Waited
  unfolding is_healthy
  poll_step (document (obj payload)) rest = if is_healthy payload then healthy else rest
  poll_step (document _) rest = broken
  poll_step caught rest = rest
  poll_step uncaught rest = broken

  module _ (request : ℕ → Poll F × ℕ) (deadline : ℕ) where
    unfoldable pub wait_loop : ℕ → ℕ → Waited
    unfolding poll_step
    wait_loop zero now = out_of_fuel
    wait_loop (suc fuel) now =
        let rest = wait_loop fuel (now + (request now).1 + 250) in
        if ltb now deadline then poll_step (request now).0 rest else late

  -- a turn takes 250 ms at least, so that so many turns reach the deadline
  unfoldable pub wait_health : (ℕ → Poll F × ℕ) → ℕ → ℕ → Waited
  unfolding wait_loop
  wait_health request timeout now = wait_loop request (now + timeout) (suc (timeout / 250 + 1)) now

module _ {F : Type 0} (request : ℕ → Poll F × ℕ) (deadline : ℕ) where
  -- what the loop goes on after: a document that does not say healthy, or an exception that it catches
  abbrev pub IsUnwell : Poll F → Type 0
  IsUnwell (document (obj payload)) = is_healthy payload ≡ false
  IsUnwell (document _) = ⊥
  IsUnwell caught = Unit
  IsUnwell uncaught = ⊥

  -- what ends it by an exception: a document that is no object, or an exception that it does not catch
  abbrev pub IsBroken : Poll F → Type 0
  IsBroken (document (obj payload)) = ⊥
  IsBroken (document _) = Unit
  IsBroken caught = ⊥
  IsBroken uncaught = Unit

  -- what ends it well
  abbrev pub IsWell : Poll F → Type 0
  IsWell (document (obj payload)) = is_healthy payload ≡ true
  IsWell _ = ⊥

  -- Turns of the loop from one time to another: each begins before the deadline with a request that finds the
  -- backend unwell, and the next begins when that request is answered and 250 ms have passed.
  pub data Turns : ℕ → ℕ → Type 0 where
    here : {now : ℕ} → Turns now now
    turn :
        {now later : ℕ}
        → now < deadline
        → IsUnwell (request now).0
        → Turns (now + (request now).1 + 250) later
        → Turns now later

  -- How the wait ended, after some turns: well at a request before the deadline; late at the deadline or after
  -- it; or broken at a request before the deadline.
  abbrev pub WaitDone : ℕ → Waited → Type 0
  WaitDone now healthy = (t : ℕ) × Turns now t × (t < deadline) × IsWell (request t).0
  WaitDone now late = (t : ℕ) × Turns now t × (deadline ≤ t)
  WaitDone now broken = (t : ℕ) × Turns now t × (t < deadline) × IsBroken (request t).0
  WaitDone now out_of_fuel = ⊥

  turn-WaitDone :
      (now : ℕ) (w : Waited)
      → now < deadline
      → IsUnwell (request now).0
      → WaitDone (now + (request now).1 + 250) w
      → WaitDone now w
  turn-WaitDone now healthy l u (t, turns, b, d) = (t, turn l u turns, b, d)
  turn-WaitDone now late l u (t, turns, b) = (t, turn l u turns, b)
  turn-WaitDone now broken l u (t, turns, b, d) = (t, turn l u turns, b, d)
  turn-WaitDone now out_of_fuel l u h = absurd h

  -- one turn, by what its request gives
  poll_step-WaitDone :
      (P : Waited → Type 0) (rest : Waited) (poll : Poll F)
      → (IsWell poll → P healthy)
      → (IsBroken poll → P broken)
      → (IsUnwell poll → P rest)
      → P (poll_step poll rest)
  unfolding poll_step
  poll_step-WaitDone P rest (document (obj payload)) well bad unwell =
      elim (Bool-cases (is_healthy payload)) [ inl d ↦ rw d (well d) | inr d ↦ rw d (unwell d) ]
  poll_step-WaitDone P rest caught well bad unwell = unwell tt
  poll_step-WaitDone P rest uncaught well bad unwell = bad tt
  poll_step-WaitDone P rest (document _) well bad unwell = bad tt

  wait_loop-WaitDone :
      (fuel now : ℕ)
      → deadline ≤ now + 250 * fuel
      → WaitDone now (wait_loop request deadline (suc fuel) now)
  unfolding wait_loop
  wait_loop-WaitDone zero now h =
      let passed : ltb now deadline ≡ false = ground arith in
      rw passed (now, here, omega (arith, h))
  wait_loop-WaitDone (suc fuel) now h = elim (Bool-cases (ltb now deadline)) [
    | inr e ↦ rw e (now, here, ground arith)
    | inl e ↦
        let next = now + (request now).1 + 250 in
        let before : now < deadline = ground arith in
        rw e (
          poll_step-WaitDone (WaitDone now) (wait_loop request deadline (suc fuel) next)
            (request now).0 (λ d. (now, here, before, d)) (λ d. (now, here, before, d))
            (λ u.
              turn-WaitDone now (wait_loop request deadline (suc fuel) next) before u
                (wait_loop-WaitDone fuel next (omega arith))))
  ]

-- `wait_health` ends, whatever the backend answers and however long each answer takes. It asks at once and
-- again 250 ms after each answer, as long as the deadline has not passed, an answer does not say healthy, and
-- no exception is raised but those that it catches. It returns at the first answer before the deadline that
-- says `ok` true and the version 0.3.0; it raises what it does not catch at the first request that raises it;
-- and otherwise it raises once the deadline has passed, and not before.
pub wait_health_terminates :
    {F : Type 0} (request : ℕ → Poll F × ℕ) (timeout now : ℕ)
    → WaitDone request (now + timeout) now (wait_health request timeout now)
unfolding wait_health
wait_health_terminates request timeout now =
    wait_loop-WaitDone request (now + timeout) (timeout / 250 + 1) now (omega arith)
