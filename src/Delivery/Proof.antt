-- ===== src/Delivery/Proof.antt =====
-- What a verdict of PASS rests on.
use mathlib.Core.Path.{subst}
use mathlib.Core.Bool.{false≢true}
use counterparty_sharedos.Prelude.{
  ℕ, ◌≡◌, ◌≢◌, ◌⊎◌, inl, inr, refl, sym, ap, ◌∙◌, Bool, true, false, Option, none, some, List, [],
  ◌∷◌, ◌++◌, map, any, All, All-append_left, All-append_right, String, str_eq_iff, is_in,
  Bool-cases, arith,
}
use counterparty_sharedos.Floats.{Floats}
use counterparty_sharedos.Json.{Json, Fields, text, field, end, get, Codec}
use counterparty_sharedos.Models.{
  EvidenceState, pass, fail, inconclusive, state_value, ProbeResult, IndependentCheck,
  DeliveryVerificationRequest,
}
use counterparty_sharedos.Probes.{
  Jsonschema, Printer, schema_probe, schema_result, injection_probe, injection_markers,
  contradiction_probe, citations_probe,
}
use counterparty_sharedos.Assertions.Exact.{Holds, assertions_probe_lem}
use counterparty_sharedos.Verification.{aggregate}
use counterparty_sharedos.Verification.Verdict.{aggregate_state_pass}
use counterparty_sharedos.Audit.{Event, Stamp}
use counterparty_sharedos.Store.{Db, Result, ok, err}
use counterparty_sharedos.Delivery.{
  citation_probes, has_citation_check, independent_result, with_consistency, delivery_probes,
  delivery_reply, deliver, record_delivery, verify_delivery,
}

any-false : {A : Type 0} (p : A → Bool) (xs : List A) → any p xs ≡ false → All (λ x. p x ≡ false) xs
any-false p [] h = tt
any-false p (x ∷ xs) h = elim (Bool-cases (p x)) [
  | inl e ↦ absurd (cc (rw (e, any) at h))
  | inr e ↦ (e, any-false p xs (rw (e, any) at h))
]

All-independent :
    {F : Type 0} (checks : List (IndependentCheck F))
    → All (λ p. p.state ≡ pass) (map independent_result checks)
    → All (λ check. check.state ≡ pass) checks
All-independent [] h = tt
All-independent (check ∷ checks) h = (h.0, All-independent checks h.1)

module _ (fl : Floats) (js : Jsonschema fl.F) (pr : Printer fl.F) where
  -- there is a schema, which is valid, and the output has no errors by it
  abbrev pub SchemaHolds : Json fl.F → Option (Fields fl.F) → Type 0
  SchemaHolds output none = ⊥
  SchemaHolds output (some schema) =
      (js.check_schema schema ≡ true) × (js.error_count schema output ≡ 0)

  -- everything that a verdict of PASS asks of a delivery
  pub record IsProved (req : DeliveryVerificationRequest fl.F) : Type 0 where
    pub schema : SchemaHolds req.output req.expected_schema
    pub has_assertions : req.assertions ≢ []
    pub assertions : All (Holds fl req.output) req.assertions
    pub markers : All (λ m. is_in m (pr.lower_dumps req.output) ≡ false) injection_markers
    pub checks : All (λ check. check.state ≡ pass) req.independent_checks
    pub citations : (req.cited_urls ≡ []) ⊎ (has_citation_check req.independent_checks ≡ true)

  result_pass : (n : ℕ) → (schema_result fl n).state ≡ pass → n ≡ 0
  result_pass n h = ground arith

  schema_pass :
      (output : Json fl.F) (schema : Option (Fields fl.F))
      → (schema_probe fl js output schema).state ≡ pass
      → SchemaHolds output schema
  unfolding schema_probe
  schema_pass output none h = absurd (cc h)
  schema_pass output (some end) h = absurd (cc h)
  schema_pass output (some (field k v fs)) h = elim (Bool-cases (js.check_schema (field k v fs))) [
    | inl e ↦ (e, result_pass _ (rw e at h))
    | inr e ↦ absurd (cc (rw e at h))
  ]

  pub injection_pass :
      (output : Json fl.F)
      → (injection_probe fl pr output).state ≡ pass
      → All (λ m. is_in m (pr.lower_dumps output) ≡ false) injection_markers
  unfolding injection_probe
  injection_pass output h =
      elim (Bool-cases (any (λ m. is_in m (pr.lower_dumps output)) injection_markers)) [
        | inl e ↦ absurd (cc (rw e at h))
        | inr e ↦ any-false (λ m. is_in m (pr.lower_dumps output)) injection_markers e
      ]

  citations_pass :
      (urls : List String) (checked : Bool)
      → All (λ p. p.state ≡ pass) (citation_probes fl js pr urls checked)
      → (urls ≡ []) ⊎ (checked ≡ true)
  unfolding citation_probes citations_probe
  citations_pass [] checked h = inl refl
  citations_pass (url ∷ urls) true h = inr refl
  citations_pass (url ∷ urls) false h = absurd (cc h.0)

  pub consistency_parts :
      (o : Option (ProbeResult fl.F)) (before after probes : List (ProbeResult fl.F))
      → with_consistency fl js pr o before after ≡ some probes
      → (p : ProbeResult fl.F) × (before ++ p ∷ after ≡ probes)
  consistency_parts none before after probes h = absurd (cc h)
  consistency_parts (some p) before after probes h = (p, cc h)

  probes_pass :
      (req : DeliveryVerificationRequest fl.F) (probes : List (ProbeResult fl.F))
      → delivery_probes fl js pr req ≡ some probes
      → All (λ p. p.state ≡ pass) probes
      → IsProved req
  unfolding delivery_probes
  probes_pass req probes e h =
      let (p, same) = consistency_parts (contradiction_probe fl pr req.output) _ _ probes e in
      let (schema, (assertions, (markers, (consistent, rest)))) =
        subst (All (λ p. p.state ≡ pass)) (sym same) h in
      let (some_assertions, each) =
        (assertions_probe_lem fl req.output req.assertions).1.0 assertions in
      record {
        schema = schema_pass req.output req.expected_schema schema;
        has_assertions = some_assertions;
        assertions = each;
        markers = injection_pass req.output markers;
        checks =
            All-independent req.independent_checks
              (All-append_left _ (map independent_result req.independent_checks) _ rest);
        citations =
            citations_pass req.cited_urls (has_citation_check req.independent_checks)
              (All-append_right _ (map independent_result req.independent_checks) _ rest);
      }

  module _ (c : Codec fl.F) where
    -- the state in a reply
    reply_state :
        (req : DeliveryVerificationRequest fl.F) (probes : List (ProbeResult fl.F))
        (verdict : EvidenceState × fl.F × fl.F) (r : Result (Event fl.F × Bool) × Db c.Text)
        (reply : Fields fl.F) (db' : Db c.Text)
        → delivery_reply fl js pr c req probes verdict r ≡ (ok reply, db')
        → get "state" reply ≡ some (text (state_value verdict.0))
    unfolding get
    reply_state req probes verdict (err e, db) reply db' h = absurd (cc h)
    reply_state req probes verdict (ok (event, updated), db) reply db' h =
        ap (λ x. state_of x.0) (sym h)
      where
        state_of : Result (Fields fl.F) → Option (Json fl.F)
        state_of (ok fs) = get "state" fs
        state_of (err e) = none

    abbrev text_of : Json fl.F → String
    text_of (text t) = t
    text_of _ = ""

    pass_value :
        (state : EvidenceState)
        → ◌≡◌ {A = Json fl.F} (text (state_value state)) (text "PASS")
        → state ≡ pass
    pass_value pass h = refl
    pass_value fail h = absurd (false≢true ((str_eq_iff "FAIL" "PASS").1 (ap text_of h)))
    pass_value inconclusive h =
        absurd (false≢true ((str_eq_iff "INCONCLUSIVE" "PASS").1 (ap text_of h)))

    All-pass :
        (probes : List (ProbeResult fl.F))
        → (aggregate fl probes).0 ≡ pass
        → All (λ p. p.state ≡ pass) probes
    unfolding aggregate
    All-pass probes h = (aggregate_state_pass probes).0 h

    deliver_pass :
        (row_stamp event_stamp : Stamp) (latency_ms : ℕ) (req : DeliveryVerificationRequest fl.F)
        (db db' : Db c.Text) (reply : Fields fl.F) (o : Option (List (ProbeResult fl.F)))
        → delivery_probes fl js pr req ≡ o
        → deliver fl js pr c row_stamp event_stamp latency_ms req db o ≡ some (ok reply, db')
        → get "state" reply ≡ some (text "PASS")
        → IsProved req
    deliver_pass row_stamp event_stamp latency_ms req db db' reply none e h s = absurd (cc h)
    deliver_pass row_stamp event_stamp latency_ms req db db' reply (some probes) e h s =
        let replied =
          reply_state req probes (aggregate fl probes)
            (record_delivery fl js pr c row_stamp event_stamp latency_ms req probes db) reply db'
            (cc h) in
        probes_pass req probes e
          (All-pass probes (pass_value (aggregate fl probes).0 (cc (sym replied ∙ s))))

    -- If `verify_delivery` replies with the state PASS, then a JSON Schema was supplied, it is valid and
    -- the output has no errors by it; assertions were supplied and every one holds of the output; the
    -- output has none of the manipulation markers; every independent check passed; and cited urls come
    -- with an independent check of citations.
    pub verify_delivery_lem :
        (row_stamp event_stamp : Stamp) (latency_ms : ℕ) (req : DeliveryVerificationRequest fl.F)
        (db db' : Db c.Text) (reply : Fields fl.F)
        → verify_delivery fl js pr c row_stamp event_stamp latency_ms req db ≡ some (ok reply, db')
        → get "state" reply ≡ some (text "PASS")
        → IsProved req
    unfolding verify_delivery
    verify_delivery_lem row_stamp event_stamp latency_ms req db db' reply h s =
        deliver_pass row_stamp event_stamp latency_ms req db db' reply
          (delivery_probes fl js pr req) refl h s
