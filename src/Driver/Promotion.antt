-- ===== src/Driver/Promotion.antt =====
-- What the loop of verified deliveries does to the reputation of `seller-alpha`.
use mathlib.Core.Path.{subst}
use counterparty_sharedos.Prelude.{
  ℕ, zero, suc, ◌+◌, ◌≤◌, ◌≡◌, ◌⊎◌, inl, inr, refl, sym, ap, ◌∙◌, Bool, true, false, ◌&&◌, Option,
  none, some, List, String, str_eq_iff, arith, Bool-cases,
}
use counterparty_sharedos.Floats.{Floats}
use counterparty_sharedos.Json.{Json, Fields, bool, text, get, Codec}
use counterparty_sharedos.Models.{
  ProbeObservationRequest, BestExecutionRequest, CandidateScore, TrustSnapshotRequest,
}
use counterparty_sharedos.Probes.{Jsonschema, Printer}
use counterparty_sharedos.Reputation.{BayesianReputation}
use counterparty_sharedos.Audit.{Stamp}
use counterparty_sharedos.Store.{Db, Result, ok, err}
use counterparty_sharedos.Store.Query.{reputation, protocol_reputation}
use counterparty_sharedos.Store.Writes.{append_audit_lem}
use counterparty_sharedos.BestExecution.{best_execution, candidate_scores}
use counterparty_sharedos.TrustSnapshot.{trust_snapshot, snapshot_reply, snapshot_payload}
use counterparty_sharedos.Requests.Routable.{
  IsAnswer, with_receipt-IsAnswer, best_execution-IsAnswer,
}
use counterparty_sharedos.Canaries.Contract.{probe_observation-IsRecorded}
use counterparty_sharedos.Delivery.Credit.{one_success, verify_delivery_credit}
use counterparty_sharedos.Stress.{is_true}
use counterparty_sharedos.Driver.{
  is_text, Session, Script, answered, delivery, alpha_seller, post_probe, post_delivery,
  post_snapshot, post_route, promote,
}

and_parts : (a b : Bool) → (a && b) ≡ true → (a ≡ true) × (b ≡ true)
and_parts true b h = (refl, h)
and_parts false b h = absurd (cc h)

module _ {D : Type 0} where
  answered_lem :
      {A : Type 0} (next : ℕ) (o : Option (Result A × D)) (a : A) (s : Session D)
      → answered next o ≡ some (a, s)
      → o ≡ some (ok a, s.db)
  answered_lem next none a s h = absurd (cc h)
  answered_lem next (some (err e, db)) a s h = absurd (cc h)
  answered_lem next (some (ok b, db)) a s h =
      let same : ◌≡◌ {A = _ × Session D} (b, record { next = next; db = db }) (a, s) = cc h in
      ap (λ p. some (ok p.0, p.1.db)) same

  -- what a run that goes on has done first
  pub then_from :
      {A B : Type 0} (o : Option (A × Session D)) (f : A → Script D B) (b : B) (s : Session D)
      → elim o [ none ↦ none | some (a, s') ↦ f a s' ] ≡ some (b, s)
      → (a : A) × (s' : Session D) × (o ≡ some (a, s')) × (f a s' ≡ some (b, s))
  then_from none f b s h = absurd (cc h)
  then_from (some (a, s')) f b s h = (a, s', refl, h)

module _ {F : Type 0} where
  text_from :
      (value : String) (o : Option (Json F)) → is_text value o ≡ true → o ≡ some (text value)
  text_from value (some (text t)) h = ap (λ x. some (text x)) ((str_eq_iff t value).0 h)
  text_from value none h = absurd (cc h)
  text_from value (some j) h = absurd (cc h)

  true_from : (o : Option (Json F)) → is_true o ≡ true → o ≡ some (bool true)
  true_from (some (bool b)) h = ap (λ x. some (bool x)) h
  true_from none h = absurd (cc h)
  true_from (some j) h = absurd (cc h)

abbrev pub with_successes : ℕ → BayesianReputation → BayesianReputation
with_successes n r = record { successes = r.successes + n; failures = r.failures }

with_successes_zero : (r : BayesianReputation) → r ≡ with_successes 0 r
with_successes_zero r =
    let same : r.successes ≡ r.successes + 0 = omega arith in
    ap (λ n. record { successes = n; failures = r.failures }) same

with_successes-suc :
    (n : ℕ) (r : BayesianReputation) → with_successes n (one_success r) ≡ with_successes (suc n) r
with_successes-suc n r =
    let same : r.successes + 1 + n ≡ r.successes + suc n = omega arith in
    ap (λ n. record { successes = n; failures = r.failures }) same

module _ (fl : Floats) (js : Jsonschema fl.F) (pr : Printer fl.F) (c : Codec fl.F)
    (stamps : ℕ → Stamp) (latency : ℕ → ℕ) where
  -- the reputation of `seller-alpha`
  abbrev pub standing_of : Session (Db c.Text) → BayesianReputation
  standing_of s = (reputation "seller-alpha" "general" s.db.observations).0

  abbrev pub Keeps : Session (Db c.Text) → Session (Db c.Text) → Type 0
  Keeps s s' = s'.db.observations ≡ s.db.observations

  pub probe-Keeps :
      (req : ProbeObservationRequest fl.F) (s s' : Session (Db c.Text)) (reply : Fields fl.F)
      → post_probe fl js pr c stamps latency req s ≡ some (reply, s')
      → Keeps s s'
  probe-Keeps req s s' reply h =
      probe_observation-IsRecorded fl js pr c (stamps s.next) (stamps (s.next + 1)) req s.db
        (ok reply, s'.db) (answered_lem (s.next + 2) _ reply s' h)

  route-IsAnswer :
      (stamp : Stamp) (req : BestExecutionRequest fl.F) (db : Db c.Text)
      (r : Result (Fields fl.F) × Db c.Text) (o : Option (List (CandidateScore fl.F)))
      → candidate_scores fl req.mode req.task_type db req.candidates ≡ o
      → best_execution fl c stamp req db ≡ some r
      → IsAnswer fl c db r
  unfolding best_execution
  route-IsAnswer stamp req db r none e h = absurd (cc (rw (best_execution, e) at h))
  route-IsAnswer stamp req db r (some scores) e h =
      let (r', same, answer) = best_execution-IsAnswer fl c stamp req db scores e in
      let returned : r' ≡ r = cc (sym same ∙ h) in subst (IsAnswer fl c db) returned answer

  pub route-Keeps :
      (req : BestExecutionRequest fl.F) (s s' : Session (Db c.Text)) (reply : Fields fl.F)
      → post_route fl js pr c stamps latency req s ≡ some (reply, s')
      → Keeps s s'
  route-Keeps req s s' reply h =
      (route-IsAnswer (stamps s.next) req s.db (ok reply, s'.db) _ refl
        (answered_lem (s.next + 1) _ reply s' h)).0

  snapshot-IsAnswer :
      (stamp : Stamp) (req : TrustSnapshotRequest) (db : Db c.Text)
      → IsAnswer fl c db (trust_snapshot fl c stamp req db)
  unfolding trust_snapshot
  snapshot-IsAnswer stamp req db =
      let delivered = reputation req.service_id req.task_type db.observations in
      let probed = protocol_reputation req.service_id db.protocol_observations in
      let payload = snapshot_payload fl req delivered.0 probed.0 in
      with_receipt-IsAnswer fl c stamp "trust_snapshot" payload
        (snapshot_reply fl req delivered probed) db _
        (append_audit_lem c stamp "trust_snapshot" payload db)

  pub snapshot-Keeps :
      (req : TrustSnapshotRequest) (s s' : Session (Db c.Text)) (reply : Fields fl.F)
      → post_snapshot fl js pr c stamps latency req s ≡ some (reply, s')
      → Keeps s s'
  snapshot-Keeps req s s' reply h =
      let answer =
        answered_lem (s.next + 1) (some (trust_snapshot fl c (stamps s.next) req s.db)) reply s'
          h in
      let returned : trust_snapshot fl c (stamps s.next) req s.db ≡ (ok reply, s'.db) = cc answer in
      (subst (IsAnswer fl c s.db) returned (snapshot-IsAnswer (stamps s.next) req s.db)).0

  delivery-one_success :
      (prefix task : String) (deliveries : ℕ) (s s' : Session (Db c.Text)) (reply : Fields fl.F)
      → post_delivery fl js pr c stamps latency (delivery prefix task deliveries) s
        ≡ some (reply, s')
      → (is_text "PASS" (get "state" reply) && is_true (get "reputation_updated" reply)) ≡ true
      → standing_of s' ≡ one_success (standing_of s)
  delivery-one_success prefix task deliveries s s' reply h good =
      let (passed, updated) = and_parts _ _ good in
      verify_delivery_credit fl js pr c (stamps s.next) (stamps (s.next + 1)) (latency s.next)
        (delivery prefix task deliveries) s.db s'.db reply (answered_lem (s.next + 2) _ reply s' h)
        (text_from "PASS" _ passed) (true_from _ updated)

  -- what the loop did, from a number of deliveries made, with a number of turns left
  abbrev pub Promoted : ℕ → ℕ → Session (Db c.Text) → ℕ → Fields fl.F → Session (Db c.Text) → Type 0
  Promoted left deliveries s made final s' =
      (extra : ℕ) × (made ≡ deliveries + extra)
      × (extra ≤ left)
      × (standing_of s' ≡ with_successes extra (standing_of s))
      × ((extra ≡ left) ⊎ (is_text "BUY" (get "verdict" final) ≡ true))

  Promoted-none :
      (left deliveries : ℕ) (snapshot : Fields fl.F) (s : Session (Db c.Text)) (made : ℕ)
      (final : Fields fl.F) (s' : Session (Db c.Text))
      → (left ≡ 0) ⊎ (is_text "BUY" (get "verdict" snapshot) ≡ true)
      → ◌≡◌ {A = Option ((ℕ × Fields fl.F) × Session (Db c.Text))}
          (some ((deliveries, snapshot), s))
          (some ((made, final), s'))
      → Promoted left deliveries s made final s'
  Promoted-none left deliveries snapshot s made final s' why h =
      let same : deliveries ≡ made = cc h in
      let shown : snapshot ≡ final = cc h in
      let kept : s ≡ s' = cc h in
      subst (λ x. Promoted left deliveries s made final x) kept
        (subst (λ x. Promoted left deliveries s made x s) shown
          (0, omega (arith, same), omega arith, with_successes_zero (standing_of s), ended why))
    where
      ended :
          (left ≡ 0) ⊎ (is_text "BUY" (get "verdict" snapshot) ≡ true)
          → (0 ≡ left) ⊎ (is_text "BUY" (get "verdict" snapshot) ≡ true)
      ended (inl e) = inl (sym e)
      ended (inr e) = inr e

  Promoted-more :
      (left deliveries : ℕ) (s mid : Session (Db c.Text)) (made : ℕ) (final : Fields fl.F)
      (s' : Session (Db c.Text))
      → standing_of mid ≡ one_success (standing_of s)
      → Promoted left (suc deliveries) mid made final s'
      → Promoted (suc left) deliveries s made final s'
  Promoted-more left deliveries s mid made final s' one (extra, total, few, gained, why) = (
    suc extra,
    omega (arith, total),
    omega (arith, few),
    gained ∙ ap (with_successes extra) one ∙ with_successes-suc extra (standing_of s),
    ended why,
  )
    where
      ended :
          (extra ≡ left) ⊎ (is_text "BUY" (get "verdict" final) ≡ true)
          → (suc extra ≡ suc left) ⊎ (is_text "BUY" (get "verdict" final) ≡ true)
      ended (inl e) = inl (ap suc e)
      ended (inr e) = inr e

  pub promote_lem :
      (prefix task : String) (left deliveries : ℕ) (snapshot : Fields fl.F)
      (s : Session (Db c.Text)) (made : ℕ) (final : Fields fl.F) (s' : Session (Db c.Text))
      → promote fl js pr c stamps latency prefix task left deliveries snapshot s
        ≡ some ((made, final), s')
      → Promoted left deliveries s made final s'
  unfolding promote
  promote_lem prefix task zero deliveries snapshot s made final s' h =
      Promoted-none 0 deliveries snapshot s made final s' (inl refl) h
  promote_lem prefix task (suc left) deliveries snapshot s made final s' h =
      elim (Bool-cases (is_text "BUY" (get "verdict" snapshot))) [
        | inl e ↦
            Promoted-none (suc left) deliveries snapshot s made final s' (inr e)
              (rw (promote, e) at h)
        | inr e ↦
            let (result, mid, sent, rest) =
              then_from
                (post_delivery fl js pr c stamps latency (delivery prefix task deliveries) s) _ _ s'
                (rw (promote, e) at h) in
            let good =
              is_text "PASS" (get "state" result) && is_true (get "reputation_updated" result) in
            elim (Bool-cases good) [
              | inr bad ↦ absurd (cc (rw (bad) at rest))
              | inl passed ↦
                  let (next_snapshot, later, seen, last) =
                    then_from (post_snapshot fl js pr c stamps latency alpha_seller mid) _ _ s'
                      (rw (passed) at rest) in
                  Promoted-more left deliveries s later made final s'
                    (ap (λ table. (reputation "seller-alpha" "general" table).0)
                        (snapshot-Keeps alpha_seller mid later next_snapshot seen)
                      ∙ delivery-one_success prefix task deliveries s mid result sent passed)
                    (promote_lem prefix task left (suc deliveries) next_snapshot later made final s'
                      last)
            ]
      ]
