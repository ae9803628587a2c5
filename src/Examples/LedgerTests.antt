-- ===== src/Examples/LedgerTests.antt =====
-- The store against its ledger, and in another order of rows, on concrete submissions.
use mathlib.Core.List.Perm
use counterparty_sharedos.Prelude.{◌≡◌, refl, [], ◌∷◌}
use counterparty_sharedos.Tables.{Observation}
use counterparty_sharedos.Store.{
  empty_db, observation_row, record_verification, append_audit, record_protocol_observation,
}
use counterparty_sharedos.Audit.{append_audit_tx, new_event, record_json}
use counterparty_sharedos.Json.{sort_keys, get}
use counterparty_sharedos.Sorting.{sort}
use counterparty_sharedos.Store.Query.{reputation, protocol_reputation}
use counterparty_sharedos.Store.Calls.{run_all, run}
use counterparty_sharedos.Store.Order.{reputation-order}
use counterparty_sharedos.Store.Ledger.{standing, empty_ledger}
use counterparty_sharedos.Store.Ledger.Runs.{submissions, submit_all, HasFreshIds, run_all-refines}
use counterparty_sharedos.Examples.Codecs.{plain_codec}
use counterparty_sharedos.Examples.StoreTests.{
  stamp, first_delivery, copied_delivery, history, Database,
}

abbrev row_a : Observation
row_a = observation_row (stamp "o1" 1) first_delivery

abbrev row_b : Observation
row_b = observation_row (stamp "o2" 2) copied_delivery

abbrev in_order : Database
in_order = record empty_db { observations = row_a ∷ row_b ∷ [] }

abbrev swapped : Database
swapped = record empty_db { observations = row_b ∷ row_a ∷ [] }

reputation-order_example :
    (reputation "seller" "review" in_order.observations
      ≡ reputation "seller" "review" swapped.observations)
    × (protocol_reputation "seller" in_order.protocol_observations
        ≡ protocol_reputation "seller" swapped.protocol_observations)
reputation-order_example =
    reputation-order "seller" "review" in_order swapped (Perm.swap row_b row_a []) (Perm.refl [])

history-HasFreshIds : HasFreshIds plain_codec history empty_db
unfolding run record_verification append_audit_tx append_audit record_protocol_observation new_event
    sort sort_keys record_json get
history-HasFreshIds = (refl, (refl, (refl, (refl, tt))))

run_all-refines_example :
    reputation "seller" "review" (run_all plain_codec history empty_db).observations
    ≡ standing "seller" "review"
        (submit_all (submissions plain_codec history empty_db) empty_ledger)
run_all-refines_example = run_all-refines plain_codec history "seller" "review" history-HasFreshIds
