-- ===== src/Examples/StressTests.antt =====
-- The replay storm on a concrete delivery.
use counterparty_sharedos.Prelude.{
  ℕ, ◌+◌, ◌≡◌, refl, true, false, Option, none, some, List, [], ◌∷◌, any, if◌then◌else◌,
}
use counterparty_sharedos.Prelude.Int.{ℤ}
use counterparty_sharedos.Models.{ProbeResult}
use counterparty_sharedos.Reputation.{observations}
use counterparty_sharedos.Audit.{append_audit_tx, new_event, record_json}
use counterparty_sharedos.Json.{sort_keys}
use counterparty_sharedos.Sorting.{sort}
use counterparty_sharedos.Store.{empty_db}
use counterparty_sharedos.Store.Query.{reputation}
use counterparty_sharedos.Store.Ledger.{holds_nothing}
use counterparty_sharedos.Store.Ledger.Refines.{view}
use counterparty_sharedos.Verification.{aggregate}
use counterparty_sharedos.Delivery.{is_decided, delivery_probes, record_delivery, verify_delivery}
use counterparty_sharedos.Stress.{Attempt, is_reply, updates, flag_of, storm, HasFreshAttempts}
use counterparty_sharedos.Stress.Once.{GainedOnce, delivered, replay_storm}
use counterparty_sharedos.Examples.Codecs.{signed_codec}
use counterparty_sharedos.Examples.FixedPoint.{fixed_point}
use counterparty_sharedos.Examples.DeliveryTests.{validator, printer, acknowledged, request, stamp}

abbrev attempts : List Attempt
attempts =
    record { row_stamp = stamp "o1" 1; event_stamp = stamp "a1" 2; latency_ms = 3 }
    ∷ record { row_stamp = stamp "o2" 4; event_stamp = stamp "a2" 5; latency_ms = 0 }
    ∷ []

abbrev probes_of : Option (List (ProbeResult ℤ)) → List (ProbeResult ℤ)
probes_of (some probes) = probes
probes_of none = []

abbrev probed : List (ProbeResult ℤ)
probed = probes_of (delivery_probes fixed_point validator printer (request (acknowledged ∷ [])))

attempts_are_fresh :
    HasFreshAttempts fixed_point validator printer signed_codec
      (request (acknowledged ∷ []))
      attempts
      empty_db
unfolding verify_delivery record_delivery append_audit_tx
attempts_are_fresh = (refl, (refl, tt))

request_is_probed :
    delivery_probes fixed_point validator printer (request (acknowledged ∷ [])) ≡ some probed
unfolding delivery_probes
request_is_probed = refl

is_decided-probed : is_decided (aggregate fixed_point probed).0 ≡ true
unfolding delivery_probes aggregate
is_decided-probed = refl

replay_storm_example :
    let (replies, after) =
      storm fixed_point validator printer signed_codec
        (request (acknowledged ∷ []))
        attempts
        empty_db in
    let once : ℕ = if any is_reply replies then 1 else 0 in
    (updates replies ≡ once)
    × GainedOnce fixed_point validator printer signed_codec
        (request (acknowledged ∷ []))
        probed
        (any is_reply replies)
        (view [])
        (view after.observations)
    × (observations (reputation "seller" "review" after.observations).0
        ≡ observations (reputation "seller" "review" []).0 + once)
replay_storm_example =
    replay_storm fixed_point validator printer signed_codec (request (acknowledged ∷ [])) probed
      attempts empty_db request_is_probed is_decided-probed refl attempts_are_fresh
      (holds_nothing (
        delivered fixed_point validator printer signed_codec (request (acknowledged ∷ [])) probed
          0))

-- both requests are answered, and one of them counts
two_replies :
    (storm fixed_point validator printer signed_codec
      (request (acknowledged ∷ []))
      attempts
      empty_db).0
    ≡ some true ∷ some false ∷ []
unfolding storm flag_of verify_delivery record_delivery append_audit_tx new_event sort sort_keys
    record_json
two_replies = refl
