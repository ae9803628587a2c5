-- ===== src/Host/Main.antt =====
-- `main` of `scripts/arena_host.py`, stage by stage.
use counterparty_sharedos.Prelude.{
  ℕ, Bool, not, ◌||◌, Option, none, some, List, [], ◌∷◌, ◌++◌, String, if◌then◌else◌,
}
use counterparty_sharedos.Json.{Json, obj, end, field, get}
use counterparty_sharedos.Environment.{Environment, Unicode}
use counterparty_sharedos.Polling.{Waited, healthy, wait_health}
use counterparty_sharedos.Host.{
  Args, Effect, ran, started, printed, terminated, waited, killed, Outcome, returned, raised, World,
  Printer, validate_environment, is_seat, is_room, valid_args, command, sharednet_reach_args,
  text_of, seat_environment, whoami_args, redeem_args, backend_args, watch_args, ready_fields,
}

-- what was done, and how the run ended
abbrev pub Run : Type 0 → Type 0
Run F = List (Effect F) × Outcome ℕ

abbrev pub prepend : {F : Type 0} → List (Effect F) → Run F → Run F
prepend effects (rest, outcome) = (effects ++ rest, outcome)

module _ {F : Type 0} (p : Printer F) (w : World F) (args : Args) where
  abbrev pub outcome_of : Option ℕ → Outcome ℕ
  outcome_of none = raised
  outcome_of (some status) = returned status

  abbrev pub served : String → String → Environment → Waited → Run F
  served member_id room_id env healthy = (
    printed (ready_fields p args member_id room_id)
        ∷ ran (watch_args p w.windows args member_id) env
        ∷ [],
    outcome_of (w.watch_status (watch_args p w.windows args member_id) env),
  )
  served member_id room_id env _ = ([], raised)

  -- the body of the `try`
  unfoldable pub serve : String → String → Environment → Run F
  unfolding wait_health
  serve member_id room_id env = served member_id room_id env (wait_health w.request 15000 w.begin)

  -- the effects of `finally`, and whether it ends without an exception
  unfoldable pub stop_backend : List (Effect F) × Bool
  stop_backend = (
    (if w.is_running then terminated ∷ [] else [])
        ++ waited ∷ (if w.ends then [] else killed ∷ waited ∷ []),
    w.ends || w.ends_killed,
  )

  -- `try: ... finally: ...`
  unfoldable pub with_backend : Run F → Run F
  unfolding stop_backend
  with_backend (effects, outcome) =
      let (stopping, stopped) = stop_backend in
      (effects ++ stopping, (if stopped then outcome else raised))

  unfoldable pub start_backend : String → String → Environment → Run F
  unfolding serve with_backend
  start_backend member_id room_id env =
      if w.starts
      then prepend (started (backend_args p w.python args) env ∷ [])
          (with_backend (serve member_id room_id env))
      else ([], raised)

  abbrev pub redeemed : Option (Json F) → Run F → Run F
  redeemed (some (obj arena_float)) rest =
      prepend (printed (field "arena_float" (obj arena_float) end) ∷ []) rest
  redeemed _ rest = ([], raised)

  unfoldable pub redeem : String → Environment → Run F → Run F
  redeem member_id env rest =
      if args.redeem_hack100
      then (let redeem_command = redeem_args p (command w.windows "npx") member_id in
          prepend (ran redeem_command env ∷ []) (redeemed (w.output redeem_command env) rest))
      else rest

  unfoldable pub reach : String → String → Environment → Run F
  unfolding redeem start_backend
  reach member_id room_id env =
      let reach_command = sharednet_reach_args (command w.windows "npx") in
      prepend (ran reach_command env ∷ []) (
        if w.succeeds reach_command env
        then redeem member_id env (start_backend member_id room_id env)
        else ([], raised))

  module _ (u : Unicode) where
    unfoldable pub seated : Environment → String → String → Run F
    unfolding is_seat seat_environment reach
    seated env member_id room_id =
        if not (is_seat u member_id) || not (is_room room_id)
        then ([], raised)
        else reach member_id room_id (seat_environment p args member_id room_id env)

    abbrev pub with_account : Environment → Option (Json F) → Option (Json F) → Run F
    with_account env (some (obj account)) (some (obj seat)) =
        seated env (text_of p (get "member_id" seat)) (text_of p (get "room_id" seat))
    with_account env _ _ = ([], raised)

    abbrev pub with_who : Environment → Option (Json F) → Run F
    with_who env (some (obj who)) = with_account env (get "account" who) (get "seat" who)
    with_who env _ = ([], raised)

    abbrev pub with_environment : Outcome Environment → Run F
    with_environment raised = ([], raised)
    with_environment (returned env) =
        let who_command = whoami_args p (command w.windows "npx") in
        prepend (ran who_command env ∷ []) (with_who env (w.output who_command env))

    unfoldable pub main : Environment → Run F
    unfolding validate_environment seated
    main environ =
        if valid_args args then with_environment (validate_environment u environ) else ([], raised)
