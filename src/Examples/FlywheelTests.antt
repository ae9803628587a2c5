-- ===== src/Examples/FlywheelTests.antt =====
-- A first canary and the snapshot after it, on a concrete request.
use counterparty_sharedos.Prelude.{◌≡◌, refl, true, some, []}
use counterparty_sharedos.Json.{bool, get}
use counterparty_sharedos.Audit.{append_audit_tx}
use counterparty_sharedos.Reputation.{observations}
use counterparty_sharedos.Store.{empty_db}
use counterparty_sharedos.Store.Query.{reputation, protocol_reputation}
use counterparty_sharedos.Canaries.{record_canary, probe_observation}
use counterparty_sharedos.Flywheel.{DecidedIn, first_canary_decides}
use counterparty_sharedos.Examples.Codecs.{signed_codec}
use counterparty_sharedos.Examples.FixedPoint.{fixed_point}
use counterparty_sharedos.Examples.DeliveryTests.{
  validator, printer, stamp, canary, canary_outcome, canary_is_recorded, reply_of, db_of,
}

canary_is_counted : get "protocol_reputation_updated" (reply_of canary_outcome) ≡ some (bool true)
unfolding get probe_observation record_canary append_audit_tx
canary_is_counted = refl

no_deliveries : observations (reputation "seller" "general" []).0 ≡ 0
unfolding observations reputation
no_deliveries = refl

no_canaries : observations (protocol_reputation "seller" []).0 ≡ 0
unfolding observations protocol_reputation
no_canaries = refl

first_canary_decides_example :
    DecidedIn fixed_point validator printer signed_codec canary "general"
      (reply_of canary_outcome)
      (db_of canary_outcome)
first_canary_decides_example =
    first_canary_decides fixed_point validator printer signed_codec (stamp "c1" 1) (stamp "a1" 2)
      canary "general" empty_db no_deliveries no_canaries (reply_of canary_outcome)
      (db_of canary_outcome) canary_is_recorded canary_is_counted
