-- ===== src/Examples/StoreTests.antt =====
-- The store on concrete submissions: tests, and the theorems applied to them.
use counterparty_sharedos.Prelude.{
  ℕ, ◌≡◌, ◌⊎◌, refl, Bool, true, false, none, some, List, [], ◌∷◌, String, All, length, ◌+◌, ◌++◌,
  ◌&&◌,
}
use counterparty_sharedos.Prelude.Int.{pos}
use counterparty_sharedos.Json.{
  Json, Fields, int, text, obj, end, field, sort_keys, has_key, get, IsDict, IsDictFields,
}
use counterparty_sharedos.Audit.{
  AuditRow, Event, Stamp, zero_hash, new_event, record_json, record_hash, row_of, append_audit_tx,
  verify_audit, audit_head, get_audit_event, by_seq,
}
use counterparty_sharedos.Audit.Chain.{IsChain}
use counterparty_sharedos.Audit.Tamper.{Collision, SameEvents, verify_audit_tamper_evident}
use counterparty_sharedos.Audit.Append.{append_audit_tx_lem}
use counterparty_sharedos.Store.{
  Db, empty_db, Result, Verification, Canary, observation_row, record_verification,
  record_protocol_observation, append_audit, record_observation,
}
use counterparty_sharedos.Store.Query.{reputation, protocol_reputation, counts_for}
use counterparty_sharedos.Store.Atomic.{VerificationDone, record_verification_lem}
use counterparty_sharedos.Store.Writes.{CanaryDone, record_protocol_observation_lem}
use counterparty_sharedos.Store.Calls.{
  Call, audit, verification, canary, observation, HasDict, run_all, run_all-IsValid,
  calls_keep_audit,
}
use counterparty_sharedos.Store.Invariant.{HasUniqueRows, empty_db-IsValid}
use counterparty_sharedos.Store.Replay.{credited, was_updated, record_verification-reputation}
use counterparty_sharedos.Store.Once.{delivery_counted_once}
use counterparty_sharedos.Examples.Codecs.{plain_codec, is_dict}
use counterparty_sharedos.Sorting.{sort}

abbrev pub stamp : String → ℕ → Stamp
stamp uuid now = record { uuid = uuid; now = now }

abbrev pub payload : Fields ℕ
payload = field "state" (text "PASS") (field "confidence" (int (pos 1)) end)

abbrev pub first_delivery : Verification
first_delivery = record {
  delivery_id = "d1";
  service_id = "seller";
  task_type = "review";
  outcome = "PASS";
  evidence_hash = "e1";
  latency_ms = some 12;
}

-- the same evidence under another delivery id, and another verdict
abbrev pub copied_delivery : Verification
copied_delivery = record {
  delivery_id = "d2";
  service_id = "seller";
  task_type = "general";
  outcome = "FAIL";
  evidence_hash = "e1";
  latency_ms = none;
}

abbrev seller_canary : Canary
seller_canary = record {
  probe_id = "p1";
  service_id = "seller";
  outcome = "FAIL";
  evidence_hash = "c1";
  latency_ms = 40;
}

abbrev pub calls : List (Call ℕ)
calls =
    canary (stamp "c1" 5) (stamp "a5" 6) seller_canary payload
    ∷ audit (stamp "a6" 7) "trust_snapshot" payload
    ∷ observation (stamp "o9" 8) copied_delivery
    ∷ []

abbrev pub Database : Type 0
Database = Db plain_codec.Text

abbrev pub after_first : Result (Event ℕ × Bool) × Database
after_first =
    record_verification plain_codec (stamp "o1" 1) (stamp "a1" 2) first_delivery payload true
      empty_db

abbrev after_second : Result (Event ℕ × Bool) × Database
after_second =
    record_verification plain_codec (stamp "o2" 10) (stamp "a8" 11) copied_delivery payload true
      (run_all plain_codec calls after_first.1)

first_is_counted : was_updated after_first.0 ≡ true
unfolding record_verification append_audit_tx
first_is_counted = refl

-- The second submission is under an id of its own, and its evidence was counted before.
delivery_counted_once_example :
    (was_updated after_second.0 ≡ false)
    × ((reputation "seller" "general" after_second.1.observations).0
        ≡ (reputation "seller" "general" (run_all plain_codec calls after_first.1).observations).0)
delivery_counted_once_example =
    delivery_counted_once plain_codec (stamp "o1" 1) (stamp "a1" 2) (stamp "o2" 10) (stamp "a8" 11)
      first_delivery copied_delivery payload payload true true empty_db calls "seller" "general"
      refl first_is_counted

-- two tables with the same events, the payloads' keys in another order
abbrev other_payload : Fields ℕ
other_payload = field "confidence" (int (pos 1)) (field "state" (text "PASS") end)

abbrev one_row : Json ℕ → AuditRow plain_codec.Text
one_row j = record {
  seq = 1;
  id = "a1";
  ts_ns = 2;
  event_type = "verify_delivery";
  payload_json = j;
  previous_hash = zero_hash;
  hash = "a1";
}

one_row-valid : verify_audit plain_codec (one_row (obj payload) ∷ []) ≡ some true
unfolding verify_audit sort is_dict has_key record_hash sort_keys record_json get
one_row-valid = refl

other_row-valid : verify_audit plain_codec (one_row (obj other_payload) ∷ []) ≡ some true
unfolding verify_audit sort is_dict has_key record_hash sort_keys record_json get
other_row-valid = refl

same_head :
    audit_head plain_codec (one_row (obj payload) ∷ [])
    ≡ audit_head plain_codec (one_row (obj other_payload) ∷ [])
unfolding audit_head sort
same_head = refl

verify_audit_tamper_evident_example :
    Collision plain_codec
    ⊎ SameEvents plain_codec
        (by_seq plain_codec (one_row (obj payload) ∷ []))
        (by_seq plain_codec (one_row (obj other_payload) ∷ []))
verify_audit_tamper_evident_example =
    verify_audit_tamper_evident plain_codec (one_row (obj payload) ∷ [])
      (one_row (obj other_payload) ∷ []) one_row-valid other_row-valid same_head

abbrev pub history : List (Call ℕ)
history = verification (stamp "o1" 1) (stamp "a1" 2) first_delivery payload true ∷ calls

payload-IsDict : IsDictFields payload
unfolding has_key IsDict IsDictFields
payload-IsDict = (refl, tt, (refl, tt, tt))

history-HasDict : All HasDict history
history-HasDict = (payload-IsDict, (payload-IsDict, (payload-IsDict, (tt, tt))))

calls_keep_audit_example :
    (verify_audit plain_codec (run_all plain_codec history empty_db).audit_events ≡ some true)
    × HasUniqueRows (run_all plain_codec history empty_db)
calls_keep_audit_example = calls_keep_audit plain_codec history history-HasDict

record_verification_lem_example :
    VerificationDone plain_codec
      (stamp "o2" 10)
      (stamp "a8" 11)
      copied_delivery
      payload
      true
      (run_all plain_codec calls after_first.1)
      after_second
record_verification_lem_example =
    record_verification_lem plain_codec (stamp "o2" 10) (stamp "a8" 11) copied_delivery payload true
      (run_all plain_codec calls after_first.1)

record_protocol_observation_lem_example :
    CanaryDone plain_codec
      (stamp "c2" 10)
      (stamp "a8" 11)
      seller_canary
      payload
      (run_all plain_codec calls after_first.1)
      (record_protocol_observation plain_codec
        (stamp "c2" 10)
        (stamp "a8" 11)
        seller_canary
        payload
        (run_all plain_codec calls after_first.1))
record_protocol_observation_lem_example =
    record_protocol_observation_lem plain_codec (stamp "c2" 10) (stamp "a8" 11) seller_canary
      payload (run_all plain_codec calls after_first.1)

record_verification-reputation_example :
    ((reputation "seller" "review" after_first.1.observations).0
      ≡ credited "PASS"
          (was_updated after_first.0
            && counts_for "seller" "review" (observation_row (stamp "o1" 1) first_delivery))
          (reputation "seller" "review" []).0)
    × (protocol_reputation "seller" after_first.1.protocol_observations
        ≡ protocol_reputation "seller" [])
record_verification-reputation_example =
    record_verification-reputation plain_codec (stamp "o1" 1) (stamp "a1" 2) first_delivery payload
      true empty_db "seller" "review"

abbrev audited : List (AuditRow plain_codec.Text)
audited = (run_all plain_codec history empty_db).audit_events

audited-IsChain : IsChain plain_codec zero_hash 1 audited
audited-IsChain =
    (run_all-IsValid plain_codec history empty_db history-HasDict
      (empty_db-IsValid plain_codec)).chain

abbrev next_event : Event ℕ
next_event = new_event plain_codec (stamp "a9" 20) "trust_snapshot" (obj payload) audited

next_row :
    append_audit_tx plain_codec (stamp "a9" 20) "trust_snapshot" (obj payload) audited
    ≡ some (next_event, audited ++ row_of plain_codec next_event ∷ [])
unfolding append_audit_tx run_all record_observation append_audit record_protocol_observation
    record_verification new_event sort sort_keys record_json get
next_row = refl

append_audit_tx_lem_example :
    (next_event.seq ≡ length audited + 1)
    × (next_event.previous_hash ≡ (audit_head plain_codec audited).1)
    × (verify_audit plain_codec (audited ++ row_of plain_codec next_event ∷ []) ≡ some true)
    × (audit_head plain_codec (audited ++ row_of plain_codec next_event ∷ [])
        ≡ (next_event.seq, next_event.hash))
    × (get_audit_event plain_codec next_event.hash (audited ++ row_of plain_codec next_event ∷ [])
        ≡ some (some (record next_event { payload = sort_keys (obj payload) })))
unfolding IsDict IsDictFields
append_audit_tx_lem_example =
    append_audit_tx_lem plain_codec (stamp "a9" 20) "trust_snapshot" (obj payload) audited
      next_event (audited ++ row_of plain_codec next_event ∷ []) payload-IsDict audited-IsChain
      next_row
