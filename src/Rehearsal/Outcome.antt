-- ===== src/Rehearsal/Outcome.antt =====
-- The rehearsal from its first request to its last.
use counterparty_sharedos.Prelude.{ℕ, ◌≡◌, sym, ap, ◌∙◌, some}
use counterparty_sharedos.Floats.{Floats}
use counterparty_sharedos.Json.{Fields, Codec}
use counterparty_sharedos.Probes.{Jsonschema, Printer}
use counterparty_sharedos.Audit.{Stamp, audit_head}
use counterparty_sharedos.Store.{Db}
use counterparty_sharedos.Driver.{Session, Script, ◌>>=◌, alpha_seller, post_route, checked_audit}
use counterparty_sharedos.Rehearsal.{
  Rehearsed, alpha_canary, beta_canary, purchase, rehearsed, finish, rehearse,
}
use counterparty_sharedos.Driver.Promotion.{
  then_from, Keeps, probe-Keeps, route-Keeps, snapshot-Keeps,
}
use counterparty_sharedos.Driver.Compounds.{Compounds, audit-Keeps, step-Compounds, loop-Compounds}

module _ (fl : Floats) (js : Jsonschema fl.F) (pr : Printer fl.F) (c : Codec fl.F)
    (stamps : ℕ → Stamp) (latency : ℕ → ℕ) where
  finish_lem :
      (alpha_probe beta_probe first_route : Fields fl.F) (promoted : ℕ × Fields fl.F)
      (s s' : Session (Db c.Text)) (r : Rehearsed fl.F)
      → finish fl js pr c stamps latency alpha_probe beta_probe first_route promoted s
        ≡ some (r, s')
      → Keeps fl js pr c stamps latency s s'
        × (r.deliveries ≡ promoted.0)
        × (r.snapshot ≡ promoted.1)
  unfolding finish
  finish_lem alpha_probe beta_probe first_route promoted s s' r h =
      let (final_route, s1, routed, rest) =
        then_from (post_route fl js pr c stamps latency (purchase fl js pr c stamps latency) s) _ r
          s' h in
      let (valid, s2, checked, last) =
        then_from (checked_audit fl js pr c stamps latency s1) _ r s' rest in
      let made : rehearsed fl js pr c stamps latency alpha_probe beta_probe first_route promoted
            final_route valid (audit_head c s2.db.audit_events).0
          ≡ r =
        cc last in
      let same : s2 ≡ s' = cc last in
      (
        ap (λ (t : Session (Db c.Text)). t.db.observations) (sym same)
            ∙ audit-Keeps fl js pr c stamps latency s1 s2 valid checked
            ∙ route-Keeps fl js pr c stamps latency (purchase fl js pr c stamps latency) s s1
                final_route routed,
        ap (λ (x : Rehearsed fl.F). x.deliveries) (sym made),
        ap (λ (x : Rehearsed fl.F). x.snapshot) (sym made),
      )

  -- When the rehearsal ends without an exception, it has made at most 32 deliveries; the reputation of
  -- `seller-alpha` for general tasks has gained exactly that many successes and no failure; and it
  -- stopped because the last snapshot said BUY, or at the 32nd delivery.
  pub rehearsal-Compounds :
      (s s' : Session (Db c.Text)) (r : Rehearsed fl.F)
      → rehearse fl js pr c stamps latency s ≡ some (r, s')
      → Compounds fl js pr c stamps latency r.deliveries r.snapshot s s'
  unfolding rehearse
  rehearsal-Compounds =
      step _ _ (λ s s1 a. probe-Keeps fl js pr c stamps latency alpha_canary s s1 a)
        λ alpha_probe.
          step _ _ (λ s s1 a. probe-Keeps fl js pr c stamps latency beta_canary s s1 a)
            λ beta_probe.
              step _ _
                (λ s s1 a.
                  route-Keeps fl js pr c stamps latency (purchase fl js pr c stamps latency) s s1 a)
                λ first_route.
                  step _ _ (λ s s1 a. snapshot-Keeps fl js pr c stamps latency alpha_seller s s1 a)
                    λ snapshot.
                      loop-Compounds fl js pr c stamps latency
                        (λ (r : Rehearsed fl.F). r.deliveries) (λ (r : Rehearsed fl.F). r.snapshot)
                        "rehearsal-delivery-" "return ok=true" snapshot
                        (finish fl js pr c stamps latency alpha_probe beta_probe first_route)
                        (finish_lem alpha_probe beta_probe first_route)
    where
      step :
          {A : Type 0} (m : Script (Db c.Text) A) (f : A → Script (Db c.Text) (Rehearsed fl.F))
          → ((s s1 : Session (Db c.Text)) (a : A)
              → m s ≡ some (a, s1)
              → Keeps fl js pr c stamps latency s s1)
          → ((a : A) (s1 s' : Session (Db c.Text)) (r : Rehearsed fl.F)
              → f a s1 ≡ some (r, s')
              → Compounds fl js pr c stamps latency r.deliveries r.snapshot s1 s')
          → (s s' : Session (Db c.Text)) (r : Rehearsed fl.F) → (m >>= f) s ≡ some (r, s')
          → Compounds fl js pr c stamps latency r.deliveries r.snapshot s s'
      step =
          step-Compounds fl js pr c stamps latency (λ (r : Rehearsed fl.F). r.deliveries)
            (λ (r : Rehearsed fl.F). r.snapshot)
