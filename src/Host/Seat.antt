-- ===== src/Host/Seat.antt =====
-- The launcher acts only as the seat that SharedNet selected, in a valid environment.
use counterparty_sharedos.Prelude.{
  ◌≡◌, ◌⊎◌, refl, true, not, ◌||◌, Option, some, [], ◌∷◌, All, All-append, String, if◌then◌else◌,
  arith, Bool-cases, inl, inr,
}
use counterparty_sharedos.Json.{Json, obj, get}
use counterparty_sharedos.Environment.{Environment, Unicode}
use counterparty_sharedos.Polling.{Waited, healthy, late, broken, out_of_fuel, wait_health}
use counterparty_sharedos.Host.{
  Args, Effect, ran, started, terminated, Outcome, returned, raised, World, Printer,
  validate_environment, is_seat, is_room, valid_args, command, sharednet_reach_args, text_of,
  seat_environment, whoami_args, redeem_args,
}
use counterparty_sharedos.Host.Main.{
  Run, served, serve, stop_backend, with_backend, start_backend, redeemed, redeem, reach, seated,
  with_account, with_who, with_environment, main,
}

-- the environment names a valid seat of a Room, in both variables
abbrev pub HasSeat : Unicode → Environment → Type 0
HasSeat u env =
    (member_id : String) × (is_seat u member_id ≡ true)
    × (env "SHAREDNET_SEAT" ≡ some member_id)
    × (env "SHAREDNET_NODE_ID" ≡ some member_id)

module _ {F : Type 0} (p : Printer F) (w : World F) (args : Args) (u : Unicode) where
  -- A command runs in an environment that names the seat, but for `whoami`, which asks for it.
  abbrev pub ActsAsSeat : Effect F → Type 0
  ActsAsSeat (ran args env) = (args ≡ whoami_args p (command w.windows "npx")) ⊎ HasSeat u env
  ActsAsSeat (started args env) = HasSeat u env
  ActsAsSeat _ = Unit

  module _ (env : Environment) (seat : HasSeat u env) where
    served-ActsAsSeat :
        (member_id room_id : String) (result : Waited)
        → All ActsAsSeat (served p w args member_id room_id env result).0
    served-ActsAsSeat member_id room_id healthy = (tt, (inr seat, tt))
    served-ActsAsSeat member_id room_id late = tt
    served-ActsAsSeat member_id room_id broken = tt
    served-ActsAsSeat member_id room_id out_of_fuel = tt

    stop_backend-ActsAsSeat : All ActsAsSeat (stop_backend p w args).0
    unfolding stop_backend
    stop_backend-ActsAsSeat =
        All-append ActsAsSeat (if w.is_running then terminated ∷ [] else []) _
          (elim (Bool-cases w.is_running) [ inl e ↦ rw e (tt, tt) | inr e ↦ rw e tt ])
          (tt, elim (Bool-cases w.ends) [ inl e ↦ rw e tt | inr e ↦ rw e (tt, (tt, tt)) ])

    start_backend-ActsAsSeat :
        (member_id room_id : String)
        → All ActsAsSeat (start_backend p w args member_id room_id env).0
    unfolding start_backend with_backend serve
    start_backend-ActsAsSeat member_id room_id = elim (Bool-cases w.starts) [
      | inr e ↦ rw e tt
      | inl e ↦ rw e (
        seat,
        All-append ActsAsSeat _ (stop_backend p w args).0
            (served-ActsAsSeat member_id room_id (wait_health w.request 15000 w.begin))
            stop_backend-ActsAsSeat,
      )
    ]

    redeemed-ActsAsSeat :
        (o : Option (Json F)) (rest : Run F)
        → All ActsAsSeat rest.0
        → All ActsAsSeat (redeemed p w args o rest).0
    redeemed-ActsAsSeat (some (obj fs)) rest h = (tt, h)
    redeemed-ActsAsSeat _ rest h = tt

    redeem-ActsAsSeat :
        (member_id : String) (rest : Run F)
        → All ActsAsSeat rest.0
        → All ActsAsSeat (redeem p w args member_id env rest).0
    unfolding redeem
    redeem-ActsAsSeat member_id rest h = elim (Bool-cases args.redeem_hack100) [
      | inr e ↦ rw e h
      | inl e ↦ rw e (
        inr seat,
        redeemed-ActsAsSeat (w.output (redeem_args p (command w.windows "npx") member_id) env) rest
            h,
      )
    ]

    reach-ActsAsSeat :
        (member_id room_id : String) → All ActsAsSeat (reach p w args member_id room_id env).0
    unfolding reach
    reach-ActsAsSeat member_id room_id =
        elim (Bool-cases (w.succeeds (sharednet_reach_args (command w.windows "npx")) env)) [
          | inr e ↦ rw e (inr seat, tt)
          | inl e ↦
              rw e (
                inr seat,
                redeem-ActsAsSeat member_id _ (start_backend-ActsAsSeat member_id room_id),
              )
        ]

  seat_environment-HasSeat :
      (env : Environment) (member_id room_id : String)
      → is_seat u member_id ≡ true
      → HasSeat u (seat_environment p args member_id room_id env)
  unfolding seat_environment
  seat_environment-HasSeat env member_id room_id h = (member_id, h, refl, refl)

  seated-ActsAsSeat :
      (env : Environment) (member_id room_id : String)
      → All ActsAsSeat (seated p w args u env member_id room_id).0
  unfolding seated
  seated-ActsAsSeat env member_id room_id =
      elim (Bool-cases (not (is_seat u member_id) || not (is_room room_id))) [
        | inl e ↦ rw e tt
        | inr e ↦ rw e (
            reach-ActsAsSeat (seat_environment p args member_id room_id env)
              (seat_environment-HasSeat env member_id room_id (ground arith)) member_id room_id)
      ]

  with_account-ActsAsSeat :
      (env : Environment) (account seat : Option (Json F))
      → All ActsAsSeat (with_account p w args u env account seat).0
  with_account-ActsAsSeat env (some (obj account)) (some (obj seat)) =
      seated-ActsAsSeat env (text_of p (get "member_id" seat)) (text_of p (get "room_id" seat))
  with_account-ActsAsSeat env _ _ = tt

  with_who-ActsAsSeat :
      (env : Environment) (who : Option (Json F)) → All ActsAsSeat (with_who p w args u env who).0
  with_who-ActsAsSeat env (some (obj who)) =
      with_account-ActsAsSeat env (get "account" who) (get "seat" who)
  with_who-ActsAsSeat env _ = tt

  with_environment-ActsAsSeat :
      (checked : Outcome Environment) → All ActsAsSeat (with_environment p w args u checked).0
  with_environment-ActsAsSeat raised = tt
  with_environment-ActsAsSeat (returned env) =
      (inl refl, with_who-ActsAsSeat env (w.output (whoami_args p (command w.windows "npx")) env))

  validated :
      (environ : Environment)
      → (validate_environment u environ ≡ raised)
        ⊎ (validate_environment u environ ≡ returned environ)
  unfolding validate_environment
  validated environ = ground arith

  -- The launcher does nothing at all unless its options are in range and `validate_environment` accepts the
  -- environment; and whatever the world answers, each command that it runs, the service loop and the
  -- backend included, runs in an environment that names one valid i_ seat in both variables, but for
  -- `whoami`, which asks for the seat.
  pub main-ActsAsSeat :
      (environ : Environment)
      → (((main p w args u environ).0 ≡ [])
          ⊎ ((valid_args args ≡ true) × (validate_environment u environ ≡ returned environ)))
        × All ActsAsSeat (main p w args u environ).0
  unfolding main
  main-ActsAsSeat environ = elim (Bool-cases (valid_args args)) [
    | inr e ↦ rw e (inl refl, tt)
    | inl e ↦ elim (validated environ) [
      | inl f ↦ rw (e, f) (inl refl, tt)
      | inr f ↦ rw (e, f) (inr (refl, refl), with_environment-ActsAsSeat (returned environ))
    ]
  ]
