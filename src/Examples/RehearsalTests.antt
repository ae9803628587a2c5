-- ===== src/Examples/RehearsalTests.antt =====
-- The rehearsal on a concrete service.
use counterparty_sharedos.Prelude.{
  ℕ, ◌≡◌, refl, Bool, true, false, Option, none, some, String, if◌then◌else◌,
}
use Prim.Native.String.{◌++◌ as concat}
use counterparty_sharedos.Prelude.Int.{ℤ}
use counterparty_sharedos.Json.{Json, obj, end, get, has_key, set_key, Codec, sort_keys}
use counterparty_sharedos.Sorting.{sort}
use counterparty_sharedos.Canaries.{record_canary}
use counterparty_sharedos.Delivery.{record_delivery}
use counterparty_sharedos.Reputation.{score_100, conservative_score_100}
use counterparty_sharedos.TrustSnapshot.{verdict, snapshot_tier}
use counterparty_sharedos.Routing.{rank}
use counterparty_sharedos.Probes.{Jsonschema}
use counterparty_sharedos.Audit.{Stamp, append_audit_tx, new_event, record_json}
use counterparty_sharedos.Store.{Db, empty_db}
use counterparty_sharedos.Driver.{Session, str_of, decimal_from, promote}
use counterparty_sharedos.Rehearsal.{Rehearsed, rehearse, finish}
use counterparty_sharedos.Rehearsal.Report.{exit_status, all_hold}
use counterparty_sharedos.Driver.Compounds.{Compounds}
use counterparty_sharedos.Rehearsal.Outcome.{rehearsal-Compounds}
use counterparty_sharedos.Demo.{Demo, is_mature, close, run_demo}
use counterparty_sharedos.Demo.Outcome.{demo-Compounds}
use counterparty_sharedos.Examples.Codecs.{signed_codec, text_of, is_dict}
use counterparty_sharedos.Examples.FixedPoint.{fixed_point}
use counterparty_sharedos.Examples.DeliveryTests.{printer}

abbrev any_schema : Jsonschema ℤ
any_schema = record { check_schema = λ schema. true; error_count = λ schema output. 0 }

-- a hash that reads the identifier of an event or of a delivery
abbrev read_ids : Json ℤ → String
read_ids (obj fs) =
    if has_key "id" fs then text_of (get "id" fs) else text_of (get "delivery_id" fs)
read_ids _ = "?"

abbrev codec : Codec ℤ
codec = record signed_codec { sha256 = read_ids }

abbrev stamps : ℕ → Stamp
stamps n = record { uuid = concat "u" (str_of n); now = n }

abbrev start : Session (Db codec.Text)
start = record { next = 0; db = empty_db }

abbrev Outcome : Type 0
Outcome = Option (Rehearsed ℤ × Session (Db codec.Text))

abbrev outcome : Outcome
outcome = rehearse fixed_point any_schema printer codec stamps (λ n. 5) start

abbrev rehearsed_of : Outcome → Rehearsed ℤ
rehearsed_of (some (r, s)) = r
rehearsed_of none = record {
  alpha_probe = end;
  beta_probe = end;
  first_route = end;
  deliveries = 0;
  snapshot = end;
  final_route = end;
  audit_valid = false;
  audit_events = 0;
}

abbrev session_of : Outcome → Session (Db codec.Text)
session_of (some (r, s)) = s
session_of none = start

abbrev is_returned : Outcome → Bool
is_returned none = false
is_returned (some p) = true

outcome-is_returned : is_returned outcome ≡ true
unfolding rehearse promote finish record_canary append_audit_tx new_event sort decimal_from
    sort_keys record_json score_100 set_key verdict record_delivery conservative_score_100 is_dict
    rank snapshot_tier
outcome-is_returned = refl

returned : (o : Outcome) → is_returned o ≡ true → o ≡ some (rehearsed_of o, session_of o)
returned none h = absurd (cc h)
returned (some (r, s)) h = refl

rehearsal-Compounds_example :
    Compounds fixed_point any_schema printer codec stamps
      (λ n. 5)
      (rehearsed_of outcome).deliveries
      (rehearsed_of outcome).snapshot
      start
      (session_of outcome)
rehearsal-Compounds_example =
    rehearsal-Compounds fixed_point any_schema printer codec stamps (λ n. 5) start
      (session_of outcome) (rehearsed_of outcome) (returned outcome outcome-is_returned)

-- the script's own checks hold, after fifteen deliveries
ready : exit_status (rehearsed_of outcome) ≡ 0
unfolding rehearse promote finish all_hold record_canary append_audit_tx new_event sort decimal_from
    sort_keys record_json score_100 set_key verdict record_delivery conservative_score_100 is_dict
    rank snapshot_tier
ready = refl

abbrev Shown : Type 0
Shown = Option (Demo ℤ × Session (Db codec.Text))

abbrev shown : Shown
shown = run_demo fixed_point any_schema printer codec stamps (λ n. 5) start

abbrev demo_of_run : Shown → Demo ℤ
demo_of_run (some (d, s)) = d
demo_of_run none = record {
  initial_a = end;
  initial_b = end;
  canary_a = end;
  canary_b = end;
  after_canary_a = end;
  after_canary_b = end;
  provisional_route = end;
  promotion_deliveries = 0;
  mature_a = end;
  verified_route = end;
  audit = (0, "");
}

abbrev session_of_run : Shown → Session (Db codec.Text)
session_of_run (some (d, s)) = s
session_of_run none = start

abbrev is_shown : Shown → Bool
is_shown none = false
is_shown (some p) = true

shown-is_shown : is_shown shown ≡ true
unfolding run_demo promote close record_canary append_audit_tx new_event sort decimal_from sort_keys
    record_json score_100 set_key verdict record_delivery conservative_score_100 is_dict rank
    snapshot_tier
shown-is_shown = refl

no_assertion_fails : (o : Shown) → is_shown o ≡ true → o ≡ some (demo_of_run o, session_of_run o)
no_assertion_fails none h = absurd (cc h)
no_assertion_fails (some (d, s)) h = refl

demo-Compounds_example :
    Compounds fixed_point any_schema printer codec stamps
      (λ n. 5)
      (demo_of_run shown).promotion_deliveries
      (demo_of_run shown).mature_a
      start
      (session_of_run shown)
    × (is_mature fixed_point any_schema printer codec stamps
          (λ n. 5)
          ((demo_of_run shown).promotion_deliveries, (demo_of_run shown).mature_a)
        ≡ true)
demo-Compounds_example =
    demo-Compounds fixed_point any_schema printer codec stamps (λ n. 5) start (session_of_run shown)
      (demo_of_run shown) (no_assertion_fails shown shown-is_shown)
