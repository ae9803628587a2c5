-- ===== src/Examples/RequestTests.antt =====
-- Request bodies on concrete values: tests, and the theorems applied to them.
use counterparty_sharedos.Prelude.{◌≡◌, refl, Option, none, some, [], String, arith}
use counterparty_sharedos.Prelude.Int.{ℤ, pos}
use counterparty_sharedos.Json.{Json, Fields, int, float, text, arr, obj, nil, cons, end, field}
use counterparty_sharedos.Environment.{strip}
use counterparty_sharedos.Models.{BestExecutionRequest, safe}
use counterparty_sharedos.Store.{Db, Result, empty_db}
use counterparty_sharedos.BestExecution.{best_execution}
use counterparty_sharedos.Requests.{Pydantic}
use counterparty_sharedos.Requests.Bodies.{execution_request}
use counterparty_sharedos.Requests.Routable.{IsAnswer, accepted_request_answered}
use counterparty_sharedos.Examples.Codecs.{signed_codec}
use counterparty_sharedos.Examples.FixedPoint.{fixed_point}
use counterparty_sharedos.Examples.FixedPoint.Laws.{fixed_point-IsIeee}

abbrev str_of : Json ℤ → Option String
str_of (text s) = some (strip s)
str_of _ = none

abbrev int_of : Json ℤ → Option ℤ
int_of (int n) = some n
int_of _ = none

abbrev float_of : Json ℤ → Option ℤ
float_of (float x) = some x
float_of _ = none

abbrev plain : Pydantic ℤ
plain = record {
  as_str = str_of;
  as_int = int_of;
  as_float = float_of;
  as_url = str_of;
  repr_length = λ j. 2;
}

abbrev candidate_json : String → Json ℤ
candidate_json name = obj (field "service_id" (text name) (field "price_credits" (int (pos 8)) end))

abbrev execution_json : String → String → Json ℤ
execution_json first second = obj (
    field "task" (text " review this ") (
      field "budget_credits" (int (pos 20)) (
        field "candidates" (arr (cons (candidate_json first) (cons (candidate_json second) nil)))
          end)))

abbrev request_or : Option (BestExecutionRequest ℤ) → BestExecutionRequest ℤ
request_or (some req) = req
request_or none = record {
  task = "";
  task_type = "";
  budget_credits = 0;
  candidates = [];
  mode = safe;
}

abbrev accepted : BestExecutionRequest ℤ
accepted = request_or (execution_request fixed_point plain (execution_json "alpha" "beta"))

is_accepted : execution_request fixed_point plain (execution_json "alpha" "beta") ≡ some accepted
unfolding execution_request strip
is_accepted = refl

-- one candidate twice
twice_is_refused : execution_request fixed_point plain (execution_json "alpha" " alpha") ≡ none
unfolding execution_request strip
twice_is_refused = refl

accepted_request_answered_example :
    (r : Result (Fields ℤ) × Db signed_codec.Text) × (best_execution fixed_point signed_codec
        record { uuid = "a1"; now = 1 }
        accepted
        empty_db
      ≡ some r)
    × IsAnswer fixed_point signed_codec empty_db r
accepted_request_answered_example =
    accepted_request_answered fixed_point signed_codec fixed_point-IsIeee plain
      record { uuid = "a1"; now = 1 } (execution_json "alpha" "beta") accepted empty_db is_accepted
      (omega arith) (omega arith)
