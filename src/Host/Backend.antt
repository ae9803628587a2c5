-- ===== src/Host/Backend.antt =====
-- The life of the backend process in a run of the launcher.
use counterparty_sharedos.Prelude.{
  ℕ, ◌≡◌, ◌⊎◌, refl, true, false, not, ◌||◌, Option, some, List, [], ◌∷◌, ◌++◌, String,
  if◌then◌else◌, Bool-cases, inl, inr,
}
use counterparty_sharedos.Json.{Json, obj, get}
use counterparty_sharedos.Environment.{Environment, Unicode}
use counterparty_sharedos.Polling.{Waited, healthy, late, broken, out_of_fuel, wait_health}
use counterparty_sharedos.Host.{
  Args, Effect, ran, started, printed, terminated, waited, killed, Outcome, returned, raised, World,
  Printer, validate_environment, is_seat, is_room, valid_args, command, sharednet_reach_args,
  text_of, seat_environment, backend_args, whoami_args, redeem_args,
}
use counterparty_sharedos.Host.Main.{
  Run, served, serve, stop_backend, with_backend, start_backend, redeemed, redeem, reach, seated,
  with_account, with_who, with_environment, main,
}

-- Not started; running; told to end, or ended by itself; still there when the first wait timed out;
-- killed; gone; and still there when the second wait timed out.
pub data Phase : Type 0 where
  idle up ending lingering dying down unreaped : Phase

-- How an effect moves the backend. It is told to end just when it runs, and no wait comes before that. A wait
-- that times out must be followed by a kill, and that by a second wait. Commands run and reports are printed
-- while the backend is not started or is running.
pub data Step {F : Type 0} (w : World F) : Effect F → Phase → Phase → Type 0 where
  run_idle : {args : List String} {env : Environment} → Step w (ran args env) idle idle
  print_idle : {fs : _} → Step w (printed fs) idle idle
  start : {args : List String} {env : Environment} → Step w (started args env) idle up
  run_up : {args : List String} {env : Environment} → Step w (ran args env) up up
  print_up : {fs : _} → Step w (printed fs) up up
  terminate : w.is_running ≡ true → Step w terminated up ending
  wait_up : w.is_running ≡ false → w.ends ≡ true → Step w waited up down
  wait_up_late : w.is_running ≡ false → w.ends ≡ false → Step w waited up lingering
  wait_ending : w.ends ≡ true → Step w waited ending down
  wait_ending_late : w.ends ≡ false → Step w waited ending lingering
  kill : Step w killed lingering dying
  wait_dying : w.ends_killed ≡ true → Step w waited dying down
  wait_dying_late : w.ends_killed ≡ false → Step w waited dying unreaped

-- the effects take the backend from one phase to another
abbrev pub Lives : {F : Type 0} → World F → List (Effect F) → Phase → Phase → Type 0
Lives w [] s t = s ≡ t
Lives w (e ∷ es) s t = (m : Phase) × Step w e s m × Lives w es m t

Lives-append :
    {F : Type 0} (w : World F) (xs ys : List (Effect F)) (s m t : Phase)
    → Lives w xs s m
    → Lives w ys m t
    → Lives w (xs ++ ys) s t
Lives-append w [] ys s m t h k = rw h k
Lives-append w (x ∷ xs) ys s m t (n, here, rest) k = (n, here, Lives-append w xs ys n m t rest k)

-- The backend of a run was never started and the run raised, or it was started and is gone, or it did not
-- end though it was killed, and the run raised.
abbrev pub IsStopped : {F : Type 0} → World F → Run F → Type 0
IsStopped w (effects, outcome) =
    ((outcome ≡ raised) × Lives w effects idle idle)
    ⊎ (Lives w effects idle down ⊎ ((outcome ≡ raised) × Lives w effects idle unreaped))

module _ {F : Type 0} (p : Printer F) (w : World F) (args : Args) where
  served-Lives :
      (member_id room_id : String) (env : Environment) (result : Waited)
      → Lives w (served p w args member_id room_id env result).0 up up
  served-Lives member_id room_id env healthy = (up, print_up, (up, run_up, refl))
  served-Lives member_id room_id env late = refl
  served-Lives member_id room_id env broken = refl
  served-Lives member_id room_id env out_of_fuel = refl

  -- gone, or still there after a kill
  abbrev last_phase : Phase
  last_phase = if w.ends then down else if w.ends_killed then down else unreaped

  -- the first wait, and what comes after it
  wait-Lives :
      (s : Phase)
      → (w.ends ≡ true → Step w waited s down)
      → (w.ends ≡ false → Step w waited s lingering)
      → Lives w (waited ∷ (if w.ends then [] else killed ∷ waited ∷ [])) s last_phase
  wait-Lives s gone slow = elim (Bool-cases w.ends) [
    | inl e ↦ simp e (down, gone e, refl)
    | inr e ↦ elim (Bool-cases w.ends_killed) [
      | inl k ↦ simp (e, k) (lingering, slow e, (dying, kill, (down, wait_dying k, refl)))
      | inr k ↦ simp (e, k) (lingering, slow e, (dying, kill, (unreaped, wait_dying_late k, refl)))
    ]
  ]

  stop_backend-Lives : Lives w (stop_backend p w args).0 up last_phase
  unfolding stop_backend
  stop_backend-Lives = elim (Bool-cases w.is_running) [
    | inl e ↦ simp e (ending, terminate e, wait-Lives ending wait_ending wait_ending_late)
    | inr e ↦ simp e (wait-Lives up (wait_up e) (wait_up_late e))
  ]

  -- a run that leaves the backend in its last phase, and raises if it is still there
  last_phase-IsStopped :
      (effects : List (Effect F)) (outcome : Outcome ℕ)
      → Lives w effects idle last_phase
      → IsStopped w (effects, (if w.ends || w.ends_killed then outcome else raised))
  last_phase-IsStopped effects outcome h = elim (Bool-cases w.ends) [
    | inl e ↦ inr (inl (simp e at h))
    | inr e ↦ elim (Bool-cases w.ends_killed) [
      | inl k ↦ inr (inl (simp (e, k) at h))
      | inr k ↦ simp (e, k) (inr (inr (refl, simp (e, k) at h)))
    ]
  ]

  start_backend-IsStopped :
      (member_id room_id : String) (env : Environment)
      → IsStopped w (start_backend p w args member_id room_id env)
  unfolding start_backend with_backend serve stop_backend
  start_backend-IsStopped member_id room_id env = elim (Bool-cases w.starts) [
    | inr e ↦ simp e (inl (refl, refl))
    | inl e ↦
        let result = served p w args member_id room_id env (wait_health w.request 15000 w.begin) in
        let stopping = (stop_backend p w args).0 in
        simp e (
          last_phase-IsStopped (started (backend_args p w.python args) env ∷ (result.0 ++ stopping))
            result.1
            (
              up,
              start,
              Lives-append w result.0 stopping up up last_phase
                  (served-Lives member_id room_id env (wait_health w.request 15000 w.begin))
                  stop_backend-Lives,
            ))
  ]

  -- a command or a report before the rest of a run
  ran-IsStopped :
      (cmd : List String) (env : Environment) (effects : List (Effect F)) (outcome : Outcome ℕ)
      → IsStopped w (effects, outcome)
      → IsStopped w (ran cmd env ∷ effects, outcome)
  ran-IsStopped cmd env effects outcome (inl (r, h)) = inl (r, (idle, run_idle, h))
  ran-IsStopped cmd env effects outcome (inr (inl h)) = inr (inl (idle, run_idle, h))
  ran-IsStopped cmd env effects outcome (inr (inr (r, h))) = inr (inr (r, (idle, run_idle, h)))

  redeemed-IsStopped :
      (o : Option (Json F)) (rest : Run F)
      → IsStopped w rest
      → IsStopped w (redeemed p w args o rest)
  redeemed-IsStopped (some (obj fs)) rest (inl (r, h)) = inl (r, (idle, print_idle, h))
  redeemed-IsStopped (some (obj fs)) rest (inr (inl h)) = inr (inl (idle, print_idle, h))
  redeemed-IsStopped (some (obj fs)) rest (inr (inr (r, h))) = inr (inr (r, (idle, print_idle, h)))
  redeemed-IsStopped _ rest h = inl (refl, refl)

  redeem-IsStopped :
      (member_id : String) (env : Environment) (rest : Run F)
      → IsStopped w rest
      → IsStopped w (redeem p w args member_id env rest)
  unfolding redeem
  redeem-IsStopped member_id env rest h = elim (Bool-cases args.redeem_hack100) [
    | inr e ↦ simp e h
    | inl e ↦ simp e (
        ran-IsStopped (redeem_args p (command w.windows "npx") member_id) env _ _ (
          redeemed-IsStopped (w.output (redeem_args p (command w.windows "npx") member_id) env) rest
            h))
  ]

  reach-IsStopped :
      (member_id room_id : String) (env : Environment)
      → IsStopped w (reach p w args member_id room_id env)
  unfolding reach
  reach-IsStopped member_id room_id env =
      elim (Bool-cases (w.succeeds (sharednet_reach_args (command w.windows "npx")) env)) [
        | inr e ↦ simp e (inl (refl, (idle, run_idle, refl)))
        | inl e ↦ simp e (
            ran-IsStopped (sharednet_reach_args (command w.windows "npx")) env _ _
              (redeem-IsStopped member_id env _ (start_backend-IsStopped member_id room_id env)))
      ]

  module _ (u : Unicode) where
    seated-IsStopped :
        (env : Environment) (member_id room_id : String)
        → IsStopped w (seated p w args u env member_id room_id)
    unfolding seated
    seated-IsStopped env member_id room_id =
        elim (Bool-cases (not (is_seat u member_id) || not (is_room room_id))) [
          | inl e ↦ simp e (inl (refl, refl))
          | inr e ↦
              simp e
                (reach-IsStopped member_id room_id (seat_environment p args member_id room_id env))
        ]

    with_account-IsStopped :
        (env : Environment) (account seat : Option (Json F))
        → IsStopped w (with_account p w args u env account seat)
    with_account-IsStopped env (some (obj account)) (some (obj seat)) =
        seated-IsStopped env (text_of p (get "member_id" seat)) (text_of p (get "room_id" seat))
    with_account-IsStopped env _ _ = inl (refl, refl)

    with_who-IsStopped :
        (env : Environment) (who : Option (Json F)) → IsStopped w (with_who p w args u env who)
    with_who-IsStopped env (some (obj who)) =
        with_account-IsStopped env (get "account" who) (get "seat" who)
    with_who-IsStopped env _ = inl (refl, refl)

    with_environment-IsStopped :
        (checked : Outcome Environment) → IsStopped w (with_environment p w args u checked)
    with_environment-IsStopped raised = inl (refl, refl)
    with_environment-IsStopped (returned env) =
        let who_command = whoami_args p (command w.windows "npx") in
        ran-IsStopped who_command env _ _ (with_who-IsStopped env (w.output who_command env))

    -- Whatever the world answers, one of three holds of a run of the launcher. It never started a backend, and
    -- raised. Or it started one once, ran its commands while that was up, told it to end if it was still
    -- running, waited for it, and if that wait timed out killed it and waited again, until it was gone,
    -- before the run returned or raised. Or the backend was still there after the kill and the second wait, and the run
    -- raised.
    pub main-IsStopped : (environ : Environment) → IsStopped w (main p w args u environ)
    unfolding main
    main-IsStopped environ = elim (Bool-cases (valid_args args)) [
      | inr e ↦ simp e (inl (refl, refl))
      | inl e ↦ simp e (with_environment-IsStopped (validate_environment u environ))
    ]
