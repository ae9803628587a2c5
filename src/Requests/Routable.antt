-- ===== src/Requests/Routable.antt =====
-- A body that is accepted is answered by `best_execution`.
use counterparty_sharedos.Prelude.{◌≤◌, ◌^◌, ◌≡◌, some, List, All-map, length, String}
use counterparty_sharedos.Floats.{Floats, IsIeee, IsFraction}
use counterparty_sharedos.Json.{Json, Fields, Codec}
use counterparty_sharedos.Models.{CandidateRequest, CandidateScore, BestExecutionRequest}
use counterparty_sharedos.Audit.{Event, Stamp}
use counterparty_sharedos.Routing.{rank}
use counterparty_sharedos.Store.{Db, Result, ok, err, integrity_error, append_audit}
use counterparty_sharedos.Store.Writes.{AuditDone, append_audit_lem}
use counterparty_sharedos.BestExecution.{
  candidate_scores, decide, decision_json, execution_payload, with_receipt, best_execution,
}
use counterparty_sharedos.BestExecution.Range.{candidate_scores_total}
use counterparty_sharedos.Requests.{Pydantic}
use counterparty_sharedos.Requests.Bodies.{execution_request}
use counterparty_sharedos.Requests.Accepted.{IsCandidate, execution_request-IsRequest}

module _ (fl : Floats) (c : Codec fl.F) where
  -- a reply that leaves the evidence alone, or an `IntegrityError` that changes nothing
  abbrev pub IsAnswer : {A : Type 0} → Db c.Text → Result A × Db c.Text → Type 0
  IsAnswer db (ok a, db') =
      (db'.observations ≡ db.observations) × (db'.protocol_observations ≡ db.protocol_observations)
  IsAnswer db (err e, db') = (e ≡ integrity_error) × (db' ≡ db)

  pub with_receipt-IsAnswer :
      (stamp : Stamp) (type : String) (payload : Fields fl.F) (result : Fields fl.F)
      (db : Db c.Text) (r : Result (Event fl.F) × Db c.Text)
      → AuditDone c stamp type payload db r
      → IsAnswer db (with_receipt fl c result r)
  with_receipt-IsAnswer stamp type payload result db (ok event, db') h = (h.1, h.2)
  with_receipt-IsAnswer stamp type payload result db (err e, db') h = h

  pub best_execution-IsAnswer :
      (stamp : Stamp) (req : BestExecutionRequest fl.F) (db : Db c.Text)
      (scores : List (CandidateScore fl.F))
      → candidate_scores fl req.mode req.task_type db req.candidates ≡ some scores
      → (r : Result (Fields fl.F) × Db c.Text) × (best_execution fl c stamp req db ≡ some r)
        × IsAnswer db r
  unfolding best_execution
  best_execution-IsAnswer stamp req db scores e =
      let result =
        decision_json fl (decide fl req.mode (rank fl scores req.budget_credits req.mode)) in
      let payload = execution_payload fl c req result in
      (
        with_receipt fl c result (append_audit c stamp "best_execution" payload db),
        rw (best_execution, e),
        with_receipt-IsAnswer stamp "best_execution" payload result db _
            (append_audit_lem c stamp "best_execution" payload db),
      )

  -- A body that `BestExecutionRequest` accepts is answered, with up to 10 ** 11 rows in each evidence
  -- table: no candidate's score is refused, and the handler replies and leaves the evidence alone, or the
  -- audit row is refused with an `IntegrityError` and nothing changes.
  pub accepted_request_answered :
      IsIeee fl
      → (py : Pydantic fl.F) (stamp : Stamp) (j : Json fl.F) (req : BestExecutionRequest fl.F)
        (db : Db c.Text)
      → execution_request fl py j ≡ some req
      → length db.observations ≤ 10 ^ 11
      → length db.protocol_observations ≤ 10 ^ 11
      → (r : Result (Fields fl.F) × Db c.Text) × (best_execution fl c stamp req db ≡ some r)
        × IsAnswer db r
  accepted_request_answered law py stamp j req db accepted few few_canaries =
      let valid = execution_request-IsRequest fl law py j req accepted in
      let fits =
        All-map (IsCandidate fl law py) (λ (r : CandidateRequest fl.F). IsFraction fl r.task_fit)
          (λ r k. k.fit) req.candidates valid.candidates in
      best_execution-IsAnswer stamp req db _
        (candidate_scores_total fl law req.mode req.task_type db few few_canaries req.candidates
          fits).0
