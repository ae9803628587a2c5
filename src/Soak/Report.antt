-- ===== src/Soak/Report.antt =====
-- The report of `scripts/arena_soak.py`, and its exit status.
use counterparty_sharedos.Prelude.{
  ℕ, ◌<◌, min, ltb, ◌≡◌, Bool, true, false, not, ◌&&◌, Option, none, some, List, [], ◌∷◌, filter,
  all, length, get_or, if◌then◌else◌,
}
use counterparty_sharedos.Prelude.Int.{pos}
use counterparty_sharedos.Floats.{Floats, nat, fmax}
use counterparty_sharedos.Json.{Fields, bool, int, float, text, obj, end, field}
use counterparty_sharedos.Sorting.{sort}
use counterparty_sharedos.Soak.{
  SoakArgs, Service, is_200, Soaking, Soaked, finished, raised, stuck, out_of_fuel, soak,
}

-- what is measured besides the statuses: the seconds that the run took, and the events of the audit chain
pub record Measured (F : Type 0) : Type 0 where
  pub wall : F
  pub audit_events : ℕ
  -- `int(x)` of a float that is not negative; nothing is assumed of it
  pub floor : F → ℕ

-- What is printed, and the exit status; or the script never exits.
pub data Ended (F : Type 0) : Type 0 where
  exited : Option (Fields F) → ℕ → Ended F
  never : Ended F

abbrev pub ExitsWith : {F : Type 0} → ℕ → Ended F → Type 0
ExitsWith n (exited fs status) = status ≡ n
ExitsWith n never = ⊥

module _ (fl : Floats) (seen : Measured fl.F) where
  -- `pct(p)` of times that are in order; `none` is `IndexError`
  unfoldable pub pct : List fl.F → fl.F → Option fl.F
  pct [] p = none
  pct (x ∷ xs) p =
      some (get_or (x ∷ xs) (min (length xs) (seen.floor (fl.mul (nat fl (length xs)) p))) x)

  -- `max(values)` of a first value and the others
  abbrev pub max_of : fl.F → List fl.F → fl.F
  max_of m [] = m
  max_of m (x ∷ xs) = max_of (fmax fl m x) xs

  abbrev pub latency_fields : fl.F → fl.F → fl.F → fl.F → Fields fl.F
  latency_fields p50 p95 p99 most = field "p50" (float (fl.round 3 p50)) (
      field "p95" (float (fl.round 3 p95))
        (field "p99" (float (fl.round 3 p99)) (field "max" (float (fl.round 3 most)) end)))

  abbrev pub percentiles : Option fl.F → Option fl.F → Option fl.F → fl.F → Option (Fields fl.F)
  percentiles (some p50) (some p95) (some p99) most = some (latency_fields p50 p95 p99 most)
  percentiles _ _ _ most = none

  -- the times in order, and as they came
  abbrev pub latency_report : List fl.F → List fl.F → Option (Fields fl.F)
  latency_report ordered [] = none
  latency_report ordered (x ∷ xs) =
      percentiles (pct ordered (fl.lit 50 2)) (pct ordered (fl.lit 95 2))
        (pct ordered (fl.lit 99 2)) (max_of x xs)

  module _ (service : Service fl.F) (args : SoakArgs) where
    abbrev pub is_empty : List ℕ → Bool
    is_empty [] = true
    is_empty (x ∷ xs) = false

    unfoldable pub is_ready : Soaking fl.F → Bool
    is_ready s =
        not (is_empty s.all_statuses) && (all is_200 s.all_statuses && service.verify_audit s.cycle)

    abbrev pub report_fields : Soaking fl.F → Fields fl.F → Fields fl.F
    report_fields s latency_ms =
        field "mode"
          (text
            (if ltb 0 args.wall_seconds then "wall-clock" else "accelerated-two-hour-equivalent"))
          (field "virtual_seconds" (int args.virtual_seconds) (
            field "wall_target_seconds" (int (pos args.wall_seconds)) (
              field "events" (int (pos s.completed)) (
                field "concurrency" (int args.concurrency) (
                  field "restart_segments" (int (pos s.cycle)) (
                    field "wall_seconds" (float (fl.round 3 seen.wall)) (
                      field "http_non_200"
                        (int (pos (length (filter (λ n. not (is_200 n)) s.all_statuses))))
                        (field "latency_ms" (obj latency_ms) (
                          field "audit_chain_valid" (bool (service.verify_audit s.cycle)) (
                            field "audit_events" (int (pos seen.audit_events)) (
                              field "ready" (bool (is_ready s)) (
                                field "note"
                                  (text
                                    "Accelerated mode schedules a two-hour-equivalent event volume without claiming two hours of wall-clock uptime. Use --wall-seconds 7200 for a literal two-hour soak outside CI.")
                                  end))))))))))))

    abbrev pub report_of : Soaking fl.F → Option (Fields fl.F) → Option (Fields fl.F)
    report_of s none = none
    report_of s (some latency_ms) = some (report_fields s latency_ms)

    unfoldable pub report : Soaking fl.F → Option (Fields fl.F)
    unfolding pct is_ready
    report s = report_of s (latency_report (sort fl.lt s.all_latencies) s.all_latencies)

    -- the exit status: 1 for an exception
    abbrev pub status_of : Option (Fields fl.F) → Bool → ℕ
    status_of none ready = 1
    status_of (some fs) ready = if ready then 0 else 1

    abbrev pub conclude : Soaked fl.F → Ended fl.F
    conclude (finished s) = exited (report s) (status_of (report s) (is_ready s))
    conclude raised = exited none 1
    conclude stuck = never
    conclude out_of_fuel = never

    unfoldable pub soak_main : Ended fl.F
    unfolding soak report
    soak_main = conclude (soak service args)

  module _ (service : Service fl.F) (args : SoakArgs) where
    -- The run finished, made a request, and the audit chain is valid.
    abbrev pub Passed : Soaked fl.F → Type 0
    Passed (finished s) = (0 < s.completed) × (service.verify_audit s.cycle ≡ true)
    Passed raised = ⊥
    Passed stuck = ⊥
    Passed out_of_fuel = ⊥
